-- ===== src/Template/Placing.antt =====
-- The server's whole answer to a rendezvous set in Ex3/kv_template.c.
use comm_networks_workshop.Base.{
  ℕ, ◌+◌, ◌-◌, ◌^◌, ◌<◌, ◌≡◌, refl, sym, ap, ◌∙◌, ◌≢◌, true, false, Option, some, List, [], ◌∷◌,
  ◌++◌, arith, leb, ◌==◌, length, if_false,
}
use comm_networks_workshop.Run.{ok}
use comm_networks_workshop.Packet.{kind-code, max_test_size, rendezvous_set_request}
use comm_networks_workshop.Pool.{MemInfo, Mem, sizeof_memory_info}
use comm_networks_workshop.Template.{RndvNode, KvStore, Allocator}
use comm_networks_workshop.Template.Rendezvous.{
  take_memory, set_memory, dispatch_ex3, handle_server_packets_only_ex3, grow_memory, register_tail,
  serve_packet,
}
use comm_networks_workshop.Template.Memory.{
  IsPool, IsPool-rest, IsPool-grown, IsPool-same, IsPool-tail, IsPool-live,
}
use comm_networks_workshop.Template.Places.{
  Places, stated_key-ok, HasTail, append_rndv-ok, fill_pool-one, place_answer, Placed, taken_mem,
  taken_mem-spares, taken_mem-mr, grown_mem, grown_mem-spares, grown_mem-tail, grown_mem-brk,
  grown-is,
}

module _ (malloc : Allocator) (reg_mr : ℕ → Option ℕ) (key : List ℕ) (s : KvStore) (x y : ℕ)
    (ys : List ℕ) (r : Places key s.buf)
    (h : IsPool s.mem s.rndv_pool_head s.rndv_pool_tail s.rndv_pool_nodes_counter s.brk
      (x ∷ y ∷ ys))
    (has_tail : HasTail s) where
  -- The handler takes the pool's first node.
  set_memory-takes :
      (rkey : ℕ)
      → (s.mem x).rndv_mr ≡ some rkey
      → (t : KvStore) × (handle_server_packets_only_ex3 malloc s
          ≡ ok (record t { buf = place_answer x rkey s.buf }, 20))
        × (t.mem ≡ taken_mem s.mem x key)
        × (t.rndv_pool_head ≡ (s.mem x).next_mem)
        × (t.rndv_pool_tail ≡ s.rndv_pool_tail)
        × (t.rndv_pool_nodes_counter ≡ s.rndv_pool_nodes_counter - 1)
        × (t.brk ≡ s.brk)
        × (t.close_server ≡ s.close_server)
        × HasTail t
  unfolding handle_server_packets_only_ex3 dispatch_ex3 set_memory take_memory
  set_memory-takes rkey registered =
      let (head_is, live, chain) = h.chain in
      let some_head : (x == 0) ≡ false = ground arith in
      let m : Mem = taken_mem s.mem x key in
      let n : RndvNode = record (malloc.stale_rndv s.rndv_brk) { next = 0; mem_info = x } in
      let t : KvStore = record s {
        rndv_pool_head = (s.mem x).next_mem;
        rndv_pool_nodes_counter = s.rndv_pool_nodes_counter - 1;
        mem = m;
      } in
      let (u, added, same, tail') = append_rndv-ok n t has_tail in
      let room : leb (length key) max_test_size ≡ true = ground (arith, r.fits) in
      let mr : (u.mem x).rndv_mr ≡ some rkey =
        ap (λ (k : Mem). (k x).rndv_mr) same.mem_is ∙ taken_mem-mr s.mem x key ∙ registered in
      (
        u,
        rw (r.kind_is, kind-code rendezvous_set_request)
            (rw (head_is, some_head)
              (rw (stated_key-ok key s.buf r) (rw (room, added) (rw mr refl)))),
        same.mem_is,
        same.head_is,
        same.tail_is,
        same.counter_is,
        same.brk_is,
        same.close_is,
        tail',
      )

  -- With ten nodes in the pool, one comes for the one that leaves.
  pub serve_packet-places :
      (rkey new_key : ℕ)
      → (s.mem x).rndv_mr ≡ some rkey
      → length ys ≡ 8
      → s.close_server ≡ false
      → reg_mr s.brk ≡ some new_key
      → new_key < 2 ^ 32
      → (t : KvStore) × (serve_packet malloc reg_mr s ≡ ok (t, 20)) × Placed s x rkey (y ∷ ys) t
  unfolding serve_packet register_tail grow_memory
  serve_packet-places rkey new_key registered ten open_is new_registered low =
      let (t, handled, mem_is, head_is, tail_is, counter_is, brk_is, close_is, tail') =
        set_memory-takes rkey registered in
      let m : Mem = taken_mem s.mem x key in
      let tail : ℕ = s.rndv_pool_tail in
      let brk : ℕ = s.brk in
      let next : ℕ = (s.mem x).next_mem in
      let pool1 : IsPool m next tail (s.rndv_pool_nodes_counter - 1) brk (y ∷ ys) =
        IsPool-rest s.mem m s.rndv_pool_head tail s.rndv_pool_nodes_counter brk x y ys
          (taken_mem-spares s.mem x key) h in
      let counter : ℕ = s.rndv_pool_nodes_counter - 1 in
      let live : 0 < tail = IsPool-live m next tail counter brk (y ∷ ys) pool1 in
      let tail_below : tail < brk =
        IsPool-tail m next tail counter brk (y ∷ ys) pool1 (λ z. z < brk) pool1.below in
      let x_tail : x ≢ tail =
        λ q. IsPool-tail m next tail counter brk (y ∷ ys) pool1 (λ z. z ≢ x) h.distinct.0 (sym q) in
      let x_below : x < brk = h.below.0 in
      let n : Mem = grown_mem m tail brk new_key in
      let pool2 : IsPool n next brk (s.rndv_pool_nodes_counter - 1 + 1) (brk + sizeof_memory_info)
          ((y ∷ ys) ++ brk ∷ []) =
        IsPool-grown m n next tail (s.rndv_pool_nodes_counter - 1) brk new_key (y ∷ ys)
          (grown_mem-spares m tail brk new_key)
          (grown_mem-tail m tail brk new_key (λ q. omega (arith, tail_below, q)))
          (grown_mem-brk m tail brk new_key) low pool1 in
      let u : KvStore = record t { buf = place_answer x rkey s.buf } in
      let nine : u.rndv_pool_nodes_counter ≡ 9 = omega (arith, counter_is, h.counted, ten) in
      let filled =
        fill_pool-one reg_mr u new_key nine (omega (arith, tail_is, live))
          (ap reg_mr brk_is ∙ new_registered) in
      let v : KvStore = register_tail new_key (grow_memory u) in
      let v_mem : v.mem ≡ n = grown-is u new_key ∙ rw (mem_is, tail_is, brk_is) refl in
      (
        v,
        rw handled (if_false u.close_server _ _ (close_is ∙ open_is) ∙ rw filled refl),
        record {
          buf_is = refl;
          registered =
              ap (λ (k : Mem). (k x).rndv_mr) v_mem
              ∙ ap (λ (i : MemInfo). i.rndv_mr)
                  (grown_mem-spares m tail brk new_key x x_tail (λ q. omega (arith, x_below, q)))
              ∙ taken_mem-mr s.mem x key
              ∙ registered;
          pool_is =
              IsPool-same v.mem n v.rndv_pool_head next v.rndv_pool_tail brk
                v.rndv_pool_nodes_counter (s.rndv_pool_nodes_counter - 1 + 1) v.brk
                (brk + sizeof_memory_info) ((y ∷ ys) ++ brk ∷ []) v_mem head_is brk_is
                (ap (λ c. c + 1) counter_is) (ap (λ c. c + sizeof_memory_info) brk_is) pool2;
          has_tail = tail';
          close_is = close_is ∙ open_is;
          brk_is = ap (λ c. c + sizeof_memory_info) brk_is;
        },
      )
