-- ===== src/Template/Start.antt =====
-- The server's pool of Ex3/kv_template.c when it is made by `pp_init_ctx`.
use comm_networks_workshop.Base.{
  ℕ, zero, suc, ◌+◌, ◌*◌, ◌^◌, ◌<◌, ◌≡◌, refl, ◌≢◌, true, false, Option, none, some, List, [], ◌∷◌,
  ◌++◌, arith, ltb, lt→ltb, le→ltb, length,
}
use comm_networks_workshop.Run.{Run, ok, out_of_fuel}
use comm_networks_workshop.Packet.{min_pool_nodes}
use comm_networks_workshop.Pool.{Mem, sizeof_memory_info, zeros, set_next, set_node}
use comm_networks_workshop.Template.{KvStore}
use comm_networks_workshop.Template.Memory.{IsPool, IsPool-grown, IsPool-tail}

-- A node behind the current one. `stale_next` is what malloc leaves in its `next`; `none` is a
-- registration that failed.
unfoldable pub add_pool_node : (ℕ → Option ℕ) → (ℕ → ℕ) → KvStore → ℕ → Option KvStore
add_pool_node reg_mr stale_next s cur = elim (reg_mr s.brk) [
  | none ↦ none
  | some rkey ↦ some (record s {
    mem =
        set_node (set_next s.mem cur s.brk) s.brk
          (record { rndv_mr = some rkey; rndv_buffer = zeros; next_mem = stale_next s.brk });
    brk = s.brk + sizeof_memory_info;
    rndv_pool_nodes_counter = s.rndv_pool_nodes_counter + 1;
  })
]

-- The loop that makes the others; the current node is the tail in the end.
unfoldable pub add_pool_nodes : (ℕ → Option ℕ) → (ℕ → ℕ) → ℕ → KvStore → ℕ → Run (Option KvStore)
add_pool_nodes reg_mr stale_next zero s cur = out_of_fuel
add_pool_nodes reg_mr stale_next (suc fuel) s cur =
    elim (ltb s.rndv_pool_nodes_counter min_pool_nodes) [
      | false ↦ ok (some (record s { rndv_pool_tail = cur }))
      | true ↦ elim (add_pool_node reg_mr stale_next s cur) [
        | none ↦ ok none
        | some t ↦ add_pool_nodes reg_mr stale_next fuel t s.brk
      ]
    ]

-- `none` is the return of NULL.
unfoldable pub init_pool : (ℕ → Option ℕ) → (ℕ → ℕ) → KvStore → Run (Option KvStore)
init_pool reg_mr stale_next s = elim (reg_mr s.brk) [
  | none ↦ ok none
  | some rkey ↦
      add_pool_nodes reg_mr stale_next (min_pool_nodes + 1)
        (record s {
          rndv_pool_head = s.brk;
          mem =
              set_node s.mem s.brk
                (record { rndv_mr = some rkey; rndv_buffer = zeros; next_mem = 0 });
          brk = s.brk + sizeof_memory_info;
          rndv_pool_nodes_counter = s.rndv_pool_nodes_counter + 1;
        })
        s.brk
]

module _ (reg_mr : ℕ → Option ℕ) (stale_next : ℕ → ℕ)
    (registers : (a : ℕ) → (k : ℕ) × (reg_mr a ≡ some k) × (k < 2 ^ 32)) where
  grown : Mem → ℕ → ℕ → ℕ → Mem
  grown m cur brk rkey =
      set_node (set_next m cur brk) brk
        (record { rndv_mr = some rkey; rndv_buffer = zeros; next_mem = stale_next brk })

  grown-spares : (m : Mem) (cur brk rkey z : ℕ) → z ≢ cur → z ≢ brk → grown m cur brk rkey z ≡ m z
  unfolding grown set_node set_next
  grown-spares m cur brk rkey z ne ne' = ground arith

  grown-cur :
      (m : Mem) (cur brk rkey : ℕ)
      → cur ≢ brk
      → ((grown m cur brk rkey cur).next_mem ≡ brk)
        × ((grown m cur brk rkey cur).rndv_mr ≡ (m cur).rndv_mr)
  unfolding grown set_node set_next
  grown-cur m cur brk rkey ne = (ground arith, ground arith)

  grown-brk :
      (m : Mem) (cur brk rkey : ℕ)
      → ((grown m cur brk rkey brk).rndv_mr ≡ some rkey)
        × ((grown m cur brk rkey brk).next_mem ≡ stale_next brk)
  unfolding grown set_node set_next
  grown-brk m cur brk rkey = (ground arith, ground arith)

  add_pool_nodes-IsPool :
      (j more : ℕ) (s : KvStore) (cur : ℕ) (xs : List ℕ)
      → s.rndv_pool_nodes_counter + j ≡ 10
      → IsPool s.mem s.rndv_pool_head cur s.rndv_pool_nodes_counter s.brk xs
      → (j ≡ 0 → (s.mem cur).next_mem ≡ stale_next cur)
      → (t : KvStore) × (ys : List ℕ) × (add_pool_nodes reg_mr stale_next (j + suc more) s cur
          ≡ ok (some t))
        × IsPool t.mem t.rndv_pool_head t.rndv_pool_tail t.rndv_pool_nodes_counter t.brk ys
        × (length ys ≡ 10)
        × ((t.mem t.rndv_pool_tail).next_mem ≡ stale_next t.rndv_pool_tail)
        × (t.close_server ≡ s.close_server)
        × (t.rndv_tail ≡ s.rndv_tail)
        × (t.brk ≡ s.brk + sizeof_memory_info * j)
  unfolding add_pool_nodes add_pool_node grown
  add_pool_nodes-IsPool zero more s cur xs ten h stale =
      let z : 0 + suc more ≡ suc more = omega arith in
      let full : ltb s.rndv_pool_nodes_counter min_pool_nodes ≡ false =
        le→ltb _ _ (omega (arith, ten)) in
      (
        record s { rndv_pool_tail = cur },
        xs,
        rw z (rw (add_pool_nodes, full) refl),
        h,
        omega (arith, ten, h.counted),
        stale refl,
        refl,
        refl,
        omega arith,
      )
  add_pool_nodes-IsPool (suc j) more s cur xs ten h stale =
      let z : suc j + suc more ≡ suc (j + suc more) = omega arith in
      let go : ltb s.rndv_pool_nodes_counter min_pool_nodes ≡ true =
        lt→ltb _ _ (omega (arith, ten)) in
      let (k, mr, low) = registers s.brk in
      let cur_below : cur < s.brk =
        IsPool-tail s.mem s.rndv_pool_head cur s.rndv_pool_nodes_counter s.brk xs h (λ z. z < s.brk)
          h.below in
      let t : KvStore = record s {
        mem = grown s.mem cur s.brk k;
        brk = s.brk + sizeof_memory_info;
        rndv_pool_nodes_counter = s.rndv_pool_nodes_counter + 1;
      } in
      let pool =
        IsPool-grown s.mem (grown s.mem cur s.brk k) s.rndv_pool_head cur s.rndv_pool_nodes_counter
          s.brk k xs (grown-spares s.mem cur s.brk k)
          (grown-cur s.mem cur s.brk k (λ q. omega (arith, cur_below, q)))
          ((grown-brk s.mem cur s.brk k).0) low h in
      let (u, ys, made, pool', len, stale', close_is, tail_is, brk_is) =
        add_pool_nodes-IsPool j more t s.brk (xs ++ s.brk ∷ []) (omega (arith, ten)) pool
          (λ z. (grown-brk s.mem cur s.brk k).1) in
      (
        u,
        ys,
        rw z (rw (add_pool_nodes, go) (rw mr made)),
        pool',
        len,
        stale',
        close_is,
        tail_is,
        omega (arith, brk_is),
      )

  -- A fresh server's pool has ten nodes, and `next` of the last one is what malloc left there.
  pub init_pool-IsPool :
      (s : KvStore)
      → 0 < s.brk
      → s.rndv_pool_nodes_counter ≡ 0
      → (t : KvStore) × (ys : List ℕ) × (init_pool reg_mr stale_next s ≡ ok (some t))
        × IsPool t.mem t.rndv_pool_head t.rndv_pool_tail t.rndv_pool_nodes_counter t.brk ys
        × (length ys ≡ 10)
        × ((t.mem t.rndv_pool_tail).next_mem ≡ stale_next t.rndv_pool_tail)
        × (t.close_server ≡ s.close_server)
        × (t.rndv_tail ≡ s.rndv_tail)
        × (t.brk ≡ s.brk + sizeof_memory_info * 10)
  unfolding init_pool
  init_pool-IsPool s live none_counted =
      let (k, mr, low) = registers s.brk in
      let m : Mem =
        set_node s.mem s.brk (record { rndv_mr = some k; rndv_buffer = zeros; next_mem = 0 }) in
      let t : KvStore = record s {
        rndv_pool_head = s.brk;
        mem = m;
        brk = s.brk + sizeof_memory_info;
        rndv_pool_nodes_counter = s.rndv_pool_nodes_counter + 1;
      } in
      let here : (m s.brk).next_mem ≡ 0 = unfold set_node in ground arith in
      let known : (m s.brk).rndv_mr ≡ some k = unfold set_node in ground arith in
      let pool : IsPool m s.brk s.brk (s.rndv_pool_nodes_counter + 1) (s.brk + sizeof_memory_info)
          (s.brk ∷ []) =
        record {
          front = [];
          behind = 0;
          chain = (refl, live, here);
          tail_is = refl;
          distinct = (tt, tt);
          usable = ((k, known, low), tt);
          below = (omega arith, tt);
          counted = omega (arith, none_counted);
        } in
      let (u, ys, made, pool', len, stale, close_is, tail_is, brk_is) =
        add_pool_nodes-IsPool 9 1 t s.brk (s.brk ∷ []) (omega (arith, none_counted)) pool
          (λ z. omega (arith, z)) in
      (u, ys, rw (init_pool, mr) made, pool', len, stale, close_is, tail_is, omega (arith, brk_is))
