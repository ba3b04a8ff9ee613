-- ===== src/Client/Reads.antt =====
-- `kv_get` of Ex4/kv_client.c for values in registered memory, through the cache and through the
-- server, and the overwriting `kv_set` of the cached key.
use comm_networks_workshop.Base.{
  ℕ, ◌+◌, ◌^◌, ◌≤◌, ◌<◌, ◌≡◌, refl, ap, ◌∙◌, true, false, List, [], ◌∷◌, arith, ltb, le→ltb, str_eq,
  str_eq_refl, length, length-append, take,
}
use comm_networks_workshop.Run.{ok}
use comm_networks_workshop.Bytes.{Buf, put_u32, get_u32, get_u64}
use comm_networks_workshop.Bytes.Laws.{
  get_u32-put_u32, get_u32-put_u32_ne, get_u32-transmit, get_u64-put_u64, get_u64-put_u32_ne,
  get_u32-put_u64_ne, get_u64-transmit, get_bytes-take,
}
use comm_networks_workshop.Packet.{
  code, type_at, length_at, get_ptr_at, get_rkey_at, sizeof_packet, eager_protocol_limit,
  max_test_size, rendezvous_get_response, rendezvous_set_request,
}
use comm_networks_workshop.Pool.{buffer_addr}
use comm_networks_workshop.Fabric.{Fabric, send-transmit}
use comm_networks_workshop.Server.Answers.{large_response}
use comm_networks_workshop.Client.{
  Client, Link, c_str, write_remote, read_remote, eager_set_size, kv_set_cached, kv_set,
  kv_get_cached, kv_get, got,
}
use comm_networks_workshop.Client.Rendezvous.{
  Kept, Cached, written, write_remote-written, written-Kept,
}

module _ (f : Fabric) (key : List ℕ)
    (fits : length key + 1 + sizeof_packet ≤ eager_protocol_limit) where
  short : ltb eager_protocol_limit (length key + 1 + sizeof_packet) ≡ false
  short = le→ltb _ _ fits

  cached :
      (c : Client) (n a rkey : ℕ)
      → Cached key n a rkey c
      → str_eq key c.last_rndv_accessed_key ≡ true
  cached c n a rkey h = rw (h.key_is) (str_eq_refl key)

  -- The cached key: `last_accessed_key_val_length` bytes of its node, and a NUL.
  pub kv_get-Cached :
      (l : Link) (v : List ℕ) (n m a rkey : ℕ)
      → Cached key n a rkey l.client
      → Kept key v a rkey m l.server
      → n ≤ length v
      → n ≤ max_test_size
      → kv_get f key l ≡ ok (got (c_str (take n v)), l)
  unfolding kv_get kv_get_cached read_remote
  kv_get-Cached l v n m a rkey h k le room = rw (
    short,
    cached l.client n a rkey h,
    h.addr_is,
    h.rkey_is,
    h.length_is,
    f.rdma_read_registered l.server.pool.mem a rkey n k.registered room,
    get_bytes-take (l.server.pool.mem a).rndv_buffer 0 n v k.holds le,
  )

  -- The cached key gets a new value in its node; the server is not told its length.
  pub kv_set-Cached :
      (l : Link) (v value : List ℕ) (n m a rkey : ℕ)
      → Cached key n a rkey l.client
      → Kept key v a rkey m l.server
      → eager_protocol_limit ≤ eager_set_size key value
      → length value + 1 ≤ max_test_size
      → (l' : Link) × (kv_set f key value l ≡ ok l')
        × Kept key (c_str value) a rkey m l'.server
        × Cached key (length value) a rkey l'.client
  unfolding kv_set kv_set_cached
  kv_set-Cached l v value n m a rkey h k large room =
      let not_small : ltb (eager_set_size key value) eager_protocol_limit ≡ false =
        le→ltb _ _ large in
      let len : length (c_str value) ≤ max_test_size =
        omega (arith, length-append value (0 ∷ [])) in
      let c : Client = record (l.client) {
        buf = put_u32 l.client.buf type_at (code rendezvous_set_request);
        last_accessed_key_val_length = length value;
      } in
      let l2 : Link = record l { client = c } in
      let write =
        ap (λ x. write_remote f x c.last_accessed_server_rkey (c_str value) l2) h.addr_is
        ∙ ap (λ y. write_remote f (buffer_addr a) y (c_str value) l2) h.rkey_is
        ∙ write_remote-written f l2 a rkey (c_str value) k.registered len in
      (
        record { client = c; server = written l.server a (c_str value) },
        rw (not_small, cached l.client n a rkey h) write,
        written-Kept key (c_str value) a rkey m l.server k.entry k.found k.large k.registered,
        record { key_is = h.key_is; length_is = refl; addr_is = h.addr_is; rkey_is = h.rkey_is },
      )

-- The location of a large value as the client finds it in its buffer.
module _ (f : Fabric) (n a rkey : ℕ) (b c : Buf) (small : n < 2 ^ 32) (low : buffer_addr a < 2 ^ 64)
    (short_key : rkey < 2 ^ 32) where
  abbrev pub told : Buf
  told = f.send sizeof_packet (large_response n a rkey b) c

  pub told_kind : get_u32 told type_at ≡ code rendezvous_get_response
  unfolding code
  told_kind = rw (send-transmit f) (
      get_u32-transmit _ type_at _ c (omega arith)
      ∙ get_u32-put_u32_ne _ type_at get_rkey_at rkey (omega arith)
      ∙ get_u32-put_u64_ne _ type_at get_ptr_at (buffer_addr a) (omega arith)
      ∙ get_u32-put_u32_ne _ type_at length_at n (omega arith)
      ∙ get_u32-put_u32 b type_at 4 (omega arith))

  pub told_length : get_u32 told length_at ≡ n
  told_length = rw (send-transmit f) (
      get_u32-transmit _ length_at _ c (omega arith)
      ∙ get_u32-put_u32_ne _ length_at get_rkey_at rkey (omega arith)
      ∙ get_u32-put_u64_ne _ length_at get_ptr_at (buffer_addr a) (omega arith)
      ∙ get_u32-put_u32 _ length_at n small)

  pub told_ptr : get_u64 told get_ptr_at ≡ buffer_addr a
  told_ptr = rw (send-transmit f) (
      get_u64-transmit _ get_ptr_at _ c (omega arith)
      ∙ get_u64-put_u32_ne _ get_ptr_at get_rkey_at rkey (omega arith)
      ∙ get_u64-put_u64 _ get_ptr_at (buffer_addr a) low)

  pub told_rkey : get_u32 told get_rkey_at ≡ rkey
  told_rkey = rw (send-transmit f) (
      get_u32-transmit _ get_rkey_at _ c (omega arith)
      ∙ get_u32-put_u32 _ get_rkey_at rkey short_key)
