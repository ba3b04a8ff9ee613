-- ===== src/Template/Large.antt =====
-- Large values in Ex3/kv_template.c: set through the server, got from the node, and set again.
use comm_networks_workshop.Base.{
  ℕ, ◌+◌, ◌^◌, ◌≤◌, ◌<◌, ◌≡◌, refl, ap, ◌∙◌, true, false, not, ◌&&◌, Option, none, some, List, [],
  ◌∷◌, ◌++◌, arith, ltb, leb, ◌==◌, lt→ltb, ==_iff, length, length-append, if_false,
}
use comm_networks_workshop.Run.{ok}
use comm_networks_workshop.Bytes.{Buf, put_bytes, get_bytes, put_u32, get_u32, get_u64}
use comm_networks_workshop.Packet.{
  code, type_at, set_ptr_at, set_rkey_at, sizeof_packet, eager_protocol_limit, max_test_size,
  rendezvous_set_request, rendezvous_set_response,
}
use comm_networks_workshop.Pool.{Mem, sizeof_memory_info, buffer_addr}
use comm_networks_workshop.Fabric.{set_buffer, Fabric}
use comm_networks_workshop.Template.{KvStore, Allocator}
use comm_networks_workshop.Template.Client.{
  CacheNode, KvPair, cached_node, put_client_buf, set_size_ex3, rndv_set_packet_ex3, request_ex3,
  receive_ex3, exchange_ex3, write_remote_ex3, fill_remote, write_answered, kv_set_rndv,
  kv_set_cached_ex3, kv_set_ex3,
}
use comm_networks_workshop.Bytes.Laws.{Holds-put_bytes, get_bytes-Holds, Holds-append_left}
use comm_networks_workshop.Client.{c_str}
use comm_networks_workshop.Template.Placing.{serve_packet-places}
use comm_networks_workshop.Template.Direct.{
  rndv_set_packet-Places, place_arrived, place_kind, place_addr, place_rkey, IsPooled, Holding,
  cached_node-append,
}
use comm_networks_workshop.Template.Rendezvous.{serve_packet}
use comm_networks_workshop.Bytes.Strings.{IsText}
use comm_networks_workshop.Template.Memory.{IsPool-filled}

pub set_buffer-same :
    (m : Mem) (x : ℕ) (b : Buf) (z : ℕ)
    → ((set_buffer m x b z).next_mem ≡ (m z).next_mem)
      × ((set_buffer m x b z).rndv_mr ≡ (m z).rndv_mr)
unfolding set_buffer
set_buffer-same m x b z = (ground arith, ground arith)

pub set_buffer_self : (m : Mem) (x : ℕ) (b : Buf) → (set_buffer m x b x).rndv_buffer ≡ b
unfolding set_buffer
set_buffer_self m x b = ground arith

module _ (f : Fabric) (malloc : Allocator) (reg_mr : ℕ → Option ℕ) (key value : List ℕ) where
  -- The client's side once the node `x` is known to it.
  abbrev written : KvPair → ℕ → ℕ → KvPair
  written p x rkey =
      let c : CacheNode = record {
        srv_addr = buffer_addr x;
        srv_rkey = rkey;
        val_len = length value;
        key = key;
      } in
      record {
        client = record (p.client) {
          remote_buf = put_bytes p.client.remote_buf 0 (c_str value);
          cache = p.client.cache ++ c ∷ [];
        };
        store = record (p.store) {
          mem = set_buffer p.store.mem x (put_bytes (p.store.mem x).rndv_buffer 0 value);
        };
      }

  write_answered-ok :
      (p : KvPair) (x rkey : ℕ)
      → length value < max_test_size
      → get_u32 p.client.buf type_at ≡ code rendezvous_set_response
      → get_u64 p.client.buf set_ptr_at ≡ buffer_addr x
      → get_u32 p.client.buf set_rkey_at ≡ rkey
      → (p.store.mem x).rndv_mr ≡ some rkey
      → write_answered f malloc reg_mr key value p ≡ ok (written p x rkey)
  unfolding write_answered fill_remote write_remote_ex3
  write_answered-ok p x rkey small kind_is addr_is rkey_is registered =
      let inside : ltb (length value) max_test_size ≡ true = lt→ltb _ _ small in
      let is : (get_u32 p.client.buf type_at == code rendezvous_set_response) ≡ true =
        (==_iff _ _).1 kind_is in
      let own : get_bytes (put_bytes p.client.remote_buf 0 (c_str value)) 0 (length value) ≡ value =
        get_bytes-Holds (put_bytes p.client.remote_buf 0 (c_str value)) 0 value (
          Holds-append_left (put_bytes p.client.remote_buf 0 (c_str value)) 0 value (0 ∷ [])
            (Holds-put_bytes p.client.remote_buf 0 (c_str value))) in
      let arrives =
        f.rdma_write_registered p.store.mem x rkey value registered (omega (arith, small)) in
      rw (is, addr_is, rkey_is) (rw inside (rw own (rw arrives refl)))

  -- The exchange, for a server that answers with the node `x`.
  exchange-ok :
      (size : ℕ) (p : KvPair) (s : KvStore)
      → size ≤ eager_protocol_limit
      → serve_packet malloc reg_mr (record (p.store) { buf = f.send size p.client.buf p.store.buf })
        ≡ ok (s, 20)
      → exchange_ex3 f malloc reg_mr size p
        ≡ ok (record {
          client = record (p.client) { buf = f.send 20 s.buf p.client.buf };
          store = s;
        })
  unfolding exchange_ex3 request_ex3 receive_ex3
  exchange-ok size p s fits served =
      let room : leb size eager_protocol_limit ≡ true = ground arith in rw (room, served) refl

module _ (f : Fabric) (malloc : Allocator) (reg_mr : ℕ → Option ℕ) (key value : List ℕ)
    (text : IsText key) (p : KvPair) (x y : ℕ) (ys : List ℕ) (h : IsPooled p (x ∷ y ∷ ys)) where
  -- A set of a key that is not in the cache.
  pub kv_set_rndv-new :
      (new_key : ℕ)
      → cached_node key p.client.cache ≡ none
      → length key + 1 + sizeof_packet ≤ eager_protocol_limit
      → length value < max_test_size
      → buffer_addr x < 2 ^ 64
      → reg_mr p.store.brk ≡ some new_key
      → new_key < 2 ^ 32
      → (q : KvPair) × (c : CacheNode) × (kv_set_ex3 f malloc reg_mr key value p ≡ ok q)
        × IsPooled q ((y ∷ ys) ++ p.store.brk ∷ [])
        × Holding q key value c x
        × (c.val_len ≡ length value)
        × (c.key ≡ key)
        × (q.client.cache ≡ p.client.cache ++ c ∷ [])
        × (q.store.brk ≡ p.store.brk + sizeof_memory_info)
  unfolding kv_set_ex3 kv_set_cached_ex3 kv_set_rndv
  kv_set_rndv-new new_key missing fits small low new_registered new_low =
      let size : ℕ = length key + 1 + sizeof_packet in
      let b : Buf =
        rndv_set_packet_ex3 key (put_u32 p.client.buf type_at (code rendezvous_set_request)) in
      let s : KvStore = record (p.store) { buf = f.send size b p.store.buf } in
      let (rkey, registered, rkey_low) = h.pool_is.usable.0 in
      let eight : length ys ≡ 8 = omega (arith, h.ten) in
      let (t, served, placed) =
        serve_packet-places malloc reg_mr key s x y ys
          (rndv_set_packet-Places f key (put_u32 p.client.buf type_at (code rendezvous_set_request))
            p.store.buf text fits)
          h.pool_is h.has_tail rkey new_key registered eight h.open_is new_registered new_low in
      let sent : KvPair = put_client_buf b p in
      let back : KvPair = record {
        client = record (p.client) { buf = f.send 20 t.buf b };
        store = t;
      } in
      let exchanged : exchange_ex3 f malloc reg_mr size sent ≡ ok back =
        exchange-ok f malloc reg_mr key value size sent t fits served in
      let arrived : f.send 20 t.buf b ≡ place_arrived f x rkey s.buf b =
        ap (λ z. f.send 20 z b) placed.buf_is in
      let done : write_answered f malloc reg_mr key value back
          ≡ ok (written f malloc reg_mr key value back x rkey) =
        write_answered-ok f malloc reg_mr key value back x rkey small
          (ap (λ z. get_u32 z type_at) arrived ∙ place_kind f x rkey s.buf b)
          (ap (λ z. get_u64 z set_ptr_at) arrived ∙ place_addr f x rkey s.buf b low)
          (ap (λ z. get_u32 z set_rkey_at) arrived ∙ place_rkey f x rkey s.buf b rkey_low)
          placed.registered in
      let large : (not p.client.use_rndv_protocol
            && ltb (set_size_ex3 key value) eager_protocol_limit)
          ≡ false =
        rw (h.mode) refl in
      let c : CacheNode = record {
        srv_addr = buffer_addr x;
        srv_rkey = rkey;
        val_len = length value;
        key = key;
      } in
      (
        written f malloc reg_mr key value back x rkey,
        c,
        if_false _ _ _ large ∙ rw missing (rw exchanged done),
        record {
          mode = h.mode;
          pool_is =
              IsPool-filled t.mem (set_buffer t.mem x (put_bytes (t.mem x).rndv_buffer 0 value))
                t.rndv_pool_head t.rndv_pool_tail t.rndv_pool_nodes_counter t.brk
                ((y ∷ ys) ++ p.store.brk ∷ [])
                (set_buffer-same t.mem x (put_bytes (t.mem x).rndv_buffer 0 value)) placed.pool_is;
          ten = omega (arith, h.ten, length-append ys (p.store.brk ∷ []));
          has_tail = placed.has_tail;
          open_is = placed.close_is;
        },
        record {
          cached = cached_node-append key p.client.cache c missing refl;
          addr_is = refl;
          registered =
              (set_buffer-same t.mem x (put_bytes (t.mem x).rndv_buffer 0 value) x).1
              ∙ placed.registered;
          held =
              rw (set_buffer_self t.mem x (put_bytes (t.mem x).rndv_buffer 0 value))
                (Holds-put_bytes (t.mem x).rndv_buffer 0 value);
          own = Holds-put_bytes p.client.remote_buf 0 (c_str value);
        },
        refl,
        refl,
        refl,
        placed.brk_is,
      )
