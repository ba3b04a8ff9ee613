-- ===== src/Template/Again.antt =====
-- `kv_get` of a key in the cache of Ex3/kv_template.c, and a value that is set again.
use comm_networks_workshop.Base.{
  ℕ, ◌+◌, ◌^◌, ◌≤◌, ◌<◌, ◌≡◌, refl, sym, ap, ◌∙◌, true, false, not, ◌&&◌, Option, none, some, List,
  [], ◌∷◌, ◌++◌, arith, ltb, lt→ltb, length, length-append, take, drop, if_true, if_false,
}
use comm_networks_workshop.Run.{ok}
use comm_networks_workshop.Bytes.{Buf, put_bytes, get_bytes, put_u32}
use comm_networks_workshop.Packet.{
  code, type_at, sizeof_packet, eager_protocol_limit, max_test_size, rendezvous_set_request,
}
use comm_networks_workshop.Pool.{sizeof_memory_info, buffer_addr}
use comm_networks_workshop.Fabric.{set_buffer, Fabric}
use comm_networks_workshop.Template.{Allocator}
use comm_networks_workshop.Template.Client.{
  CacheNode, KvPair, cached_node, put_remote_buf, set_size_ex3, write_remote_ex3, read_remote_ex3,
  fill_remote, kv_set_direct, kv_set_cached_ex3, kv_set_ex3, kv_get_direct, kv_get_with, kv_get_ex3,
}
use comm_networks_workshop.Template.Rendezvous.{strncpy}
use comm_networks_workshop.Template.Direct.{IsPooled}
use comm_networks_workshop.Template.Large.{set_buffer-same, set_buffer_self, kv_set_rndv-new}
use comm_networks_workshop.Template.Copies.{
  strncpy-text, put_bytes-prefix, take-drop_end, strncpy-take,
}
use comm_networks_workshop.Bytes.Laws.{
  Holds, Holds-put_bytes, get_bytes-Holds, Holds-append_left, get_bytes-take,
}
use comm_networks_workshop.Bytes.Strings.{IsText}
use comm_networks_workshop.Client.{c_str}

module _ (f : Fabric) (malloc : Allocator) (reg_mr : ℕ → Option ℕ) where
  -- What a get of a key in the cache brings, in terms of the buffer afterwards.
  pub kv_get-cached :
      (key v xs : List ℕ) (p : KvPair) (c : CacheNode) (x : ℕ)
      → p.client.use_rndv_protocol ≡ true
      → cached_node key p.client.cache ≡ some c
      → c.srv_addr ≡ buffer_addr x
      → (p.store.mem x).rndv_mr ≡ some c.srv_rkey
      → c.val_len ≤ max_test_size
      → get_bytes (p.store.mem x).rndv_buffer 0 c.val_len ≡ xs
      → strncpy max_test_size (c.val_len + 1) (put_bytes p.client.remote_buf 0 xs) 0 ≡ some v
      → kv_get_ex3 f malloc reg_mr key p
        ≡ ok (v, put_remote_buf (put_bytes p.client.remote_buf 0 xs) p)
  unfolding kv_get_ex3 kv_get_with kv_get_direct read_remote_ex3
  kv_get-cached key v xs p c x mode cached addr_is registered small read copied =
      let arrives = f.rdma_read_registered p.store.mem x c.srv_rkey c.val_len registered small in
      if_true _ _ _ mode ∙ rw cached (rw addr_is (rw (arrives, read) (rw copied refl)))

  -- A set of a new key and a get of it, and what they leave.
  pub set_then_get :
      (key value : List ℕ) (p : KvPair) (x y new_key : ℕ) (ys : List ℕ)
      → IsText key
      → IsText value
      → IsPooled p (x ∷ y ∷ ys)
      → cached_node key p.client.cache ≡ none
      → length key + 1 + sizeof_packet ≤ eager_protocol_limit
      → length value < max_test_size
      → buffer_addr x < 2 ^ 64
      → reg_mr p.store.brk ≡ some new_key
      → new_key < 2 ^ 32
      → (q r : KvPair) × (c : CacheNode) × (kv_set_ex3 f malloc reg_mr key value p ≡ ok q)
        × (kv_get_ex3 f malloc reg_mr key q ≡ ok (c_str value, r))
        × IsPooled r ((y ∷ ys) ++ p.store.brk ∷ [])
        × (c.key ≡ key)
        × (r.client.cache ≡ p.client.cache ++ c ∷ [])
        × (r.store.brk ≡ p.store.brk + sizeof_memory_info)
  set_then_get key value p x y new_key ys text value_text h missing fits small low mr mr_low =
      let (q, c, set, h', held, len, named, cache_is, brk_is) =
        kv_set_rndv-new f malloc reg_mr key value text p x y ys h new_key missing fits small low mr
          mr_low in
      let read : get_bytes (q.store.mem x).rndv_buffer 0 c.val_len ≡ value =
        ap (get_bytes (q.store.mem x).rndv_buffer 0) len
        ∙ get_bytes-Holds (q.store.mem x).rndv_buffer 0 value held.held in
      let copied =
        strncpy-text max_test_size (put_bytes q.client.remote_buf 0 value) 0 value value_text
          (put_bytes-prefix q.client.remote_buf value (0 ∷ []) held.own) small in
      let got =
        kv_get-cached key (c_str value) value q c x h'.mode held.cached held.addr_is held.registered
          (omega (arith, len, small)) read (rw len copied) in
      (
        q,
        put_remote_buf (put_bytes q.client.remote_buf 0 value) q,
        c,
        set,
        got,
        record {
          mode = h'.mode;
          pool_is = h'.pool_is;
          ten = h'.ten;
          has_tail = h'.has_tail;
          open_is = h'.open_is;
        },
        named,
        cache_is,
        brk_is,
      )

  -- For the first key-value store in rendezvous mode, with ten nodes in the server's pool, a key
  -- that is text, not cached and fits into a packet, a value that is text and fits into a node with
  -- its NUL, an address of the pool's head that fits into 64 bits, and a registration that succeeds
  -- with a 32-bit key: `kv_set` succeeds, a following `kv_get` of the key returns the value with
  -- its NUL, and the pool has ten nodes again, the new one last.
  pub kv_get-kv_set_rndv :
      (key value : List ℕ) (p : KvPair) (x y new_key : ℕ) (ys : List ℕ)
      → IsText key
      → IsText value
      → IsPooled p (x ∷ y ∷ ys)
      → cached_node key p.client.cache ≡ none
      → length key + 1 + sizeof_packet ≤ eager_protocol_limit
      → length value < max_test_size
      → buffer_addr x < 2 ^ 64
      → reg_mr p.store.brk ≡ some new_key
      → new_key < 2 ^ 32
      → (q r : KvPair) × (kv_set_ex3 f malloc reg_mr key value p ≡ ok q)
        × (kv_get_ex3 f malloc reg_mr key q ≡ ok (c_str value, r))
        × IsPooled r ((y ∷ ys) ++ p.store.brk ∷ [])
  kv_get-kv_set_rndv key value p x y new_key ys text value_text h missing fits small low mr mr_low =
      let (q, r, c, was_set, was_got, pooled, named, cache_is, brk_is) =
        set_then_get key value p x y new_key ys text value_text h missing fits small low mr
          mr_low in
      (q, r, was_set, was_got, pooled)

  -- A set of a key in the cache writes the value and its NUL into the key's node.
  abbrev overwritten : KvPair → ℕ → List ℕ → KvPair
  overwritten p x value = record {
    client = record (p.client) {
      buf = put_u32 p.client.buf type_at (code rendezvous_set_request);
      remote_buf = put_bytes p.client.remote_buf 0 (c_str value);
    };
    store = record (p.store) {
      mem = set_buffer p.store.mem x (put_bytes (p.store.mem x).rndv_buffer 0 (c_str value));
    };
  }

  kv_set-cached :
      (key value : List ℕ) (p : KvPair) (c : CacheNode) (x : ℕ)
      → p.client.use_rndv_protocol ≡ true
      → cached_node key p.client.cache ≡ some c
      → c.srv_addr ≡ buffer_addr x
      → (p.store.mem x).rndv_mr ≡ some c.srv_rkey
      → length value < max_test_size
      → kv_set_ex3 f malloc reg_mr key value p ≡ ok (overwritten p x value)
  unfolding kv_set_ex3 kv_set_cached_ex3 kv_set_direct fill_remote write_remote_ex3
  kv_set-cached key value p c x mode cached addr_is registered small =
      let large : (not p.client.use_rndv_protocol
            && ltb (set_size_ex3 key value) eager_protocol_limit)
          ≡ false =
        rw mode refl in
      let inside : ltb (length value) max_test_size ≡ true = lt→ltb _ _ small in
      let n : length (c_str value) ≡ length value + 1 = length-append value (0 ∷ []) in
      let b : Buf = put_bytes p.client.remote_buf 0 (c_str value) in
      let own : get_bytes b 0 (length value + 1) ≡ c_str value =
        ap (get_bytes b 0) (sym n)
        ∙ get_bytes-Holds b 0 (c_str value) (Holds-put_bytes p.client.remote_buf 0 (c_str value)) in
      let arrives =
        f.rdma_write_registered p.store.mem x c.srv_rkey (c_str value) registered
          (omega (arith, small, n)) in
      if_false _ _ _ large ∙ rw cached (rw inside (rw (own, addr_is) (rw arrives refl)))

  -- For the first key-value store in rendezvous mode, under the conditions on the server and the
  -- key of a first `kv_set`, and with a second value that is text, longer than the first one and
  -- fits into a node: after the first and the second value were set, `kv_get` returns only the
  -- first bytes of the second one, one more than the first value has, and no NUL.
  pub kv_get-longer :
      (key first second : List ℕ) (p : KvPair) (x y new_key : ℕ) (ys : List ℕ)
      → IsText key
      → IsText second
      → IsPooled p (x ∷ y ∷ ys)
      → cached_node key p.client.cache ≡ none
      → length key + 1 + sizeof_packet ≤ eager_protocol_limit
      → length first < length second
      → length second < max_test_size
      → buffer_addr x < 2 ^ 64
      → reg_mr p.store.brk ≡ some new_key
      → new_key < 2 ^ 32
      → (q r s : KvPair) × (kv_set_ex3 f malloc reg_mr key first p ≡ ok q)
        × (kv_set_ex3 f malloc reg_mr key second q ≡ ok r)
        × (kv_get_ex3 f malloc reg_mr key r ≡ ok (take (length first + 1) second, s))
  kv_get-longer key first second p x y new_key ys text second_text h missing fits longer small low
        mr mr_low =
      let (q, c, set, h', held, len, named, cache_is, brk_is) =
        kv_set_rndv-new f malloc reg_mr key first text p x y ys h new_key missing fits
          (omega (arith, longer, small)) low mr mr_low in
      let again =
        kv_set-cached key second q c x h'.mode held.cached held.addr_is held.registered small in
      let n : ℕ = length first in
      let b : Buf = put_bytes q.client.remote_buf 0 (c_str second) in
      let node : Buf = put_bytes (q.store.mem x).rndv_buffer 0 (c_str second) in
      let r : KvPair = overwritten q x second in
      let whole : take n second ++ (drop n second ++ 0 ∷ []) ≡ c_str second =
        take-drop_end n second in
      let read : get_bytes (r.store.mem x).rndv_buffer 0 c.val_len ≡ take n second =
        rw (set_buffer_self q.store.mem x node, len)
          (get_bytes-take node 0 n second
            (Holds-append_left node 0 second (0 ∷ [])
              (Holds-put_bytes (q.store.mem x).rndv_buffer 0 (c_str second)))
            (omega (arith, longer))) in
      let own : Holds (put_bytes b 0 (take n second)) 0
          (take n second ++ (drop n second ++ 0 ∷ [])) =
        put_bytes-prefix b (take n second) (drop n second ++ 0 ∷ [])
          (rw whole (Holds-put_bytes q.client.remote_buf 0 (c_str second))) in
      let copied : strncpy max_test_size (n + 1) (put_bytes b 0 (take n second)) 0
          ≡ some (take (n + 1) second) =
        strncpy-take max_test_size (put_bytes b 0 (take n second)) (n + 1) second second_text
          (Holds-append_left (put_bytes b 0 (take n second)) 0 second (0 ∷ []) (rw whole at own))
          (omega (arith, longer)) (omega (arith, longer, small)) in
      let got =
        kv_get-cached key (take (n + 1) second) (take n second) r c x h'.mode held.cached
          held.addr_is ((set_buffer-same q.store.mem x node x).1 ∙ held.registered)
          (omega (arith, len, longer, small)) read (rw len copied) in
      (q, r, put_remote_buf (put_bytes b 0 (take n second)) r, set, again, got)
