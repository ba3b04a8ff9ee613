-- ===== src/Files/Cached.antt =====
-- `kv_get` of Ex4/nweb23.c for values in registered memory: through the server it stores the length,
-- through the cache it does not.
use comm_networks_workshop.Base.{
  ℕ, ◌+◌, ◌^◌, ◌≤◌, ◌<◌, ◌≡◌, refl, ap, ◌∙◌, true, false, none, some, List, [], ◌∷◌, ◌++◌, arith,
  ltb, le→ltb, str_eq, str_eq_refl, length, take, take_all,
}
use comm_networks_workshop.Run.{ok}
use comm_networks_workshop.Bytes.{Buf, get_bytes}
use comm_networks_workshop.Bytes.Laws.{get_bytes-Holds, get_bytes-take, get_bytes-suc}
use comm_networks_workshop.Bytes.Strings.{IsText}
use comm_networks_workshop.Packet.{
  kind-code, sizeof_packet, eager_protocol_limit, max_test_size, rendezvous_get_response,
}
use comm_networks_workshop.Pool.{buffer_addr}
use comm_networks_workshop.Fabric.{Fabric}
use comm_networks_workshop.Server.{Server}
use comm_networks_workshop.Server.Answers.{large_response, handle_eager_get_large}
use comm_networks_workshop.Client.{
  Link, c_str, set_client_buf, read_remote, remember_key, get_packet,
}
use comm_networks_workshop.Client.Packets.{get_packet-Asks}
use comm_networks_workshop.Client.Exchange.{exchange-ok}
use comm_networks_workshop.Client.Rendezvous.{Kept, Cached}
use comm_networks_workshop.Client.Reads.{told, told_kind, told_length, told_ptr, told_rkey}
use comm_networks_workshop.Files.{
  take_large_file, take_file, kv_get_file_request, kv_get_file_cached, kv_get_file, got_file,
}

-- A key that is cached: the value without its length.
kv_get_file-Cached :
    (f : Fabric) (key v : List ℕ) (l : Link) (n m a rkey : ℕ)
    → length key + 1 + sizeof_packet ≤ eager_protocol_limit
    → Cached key n a rkey l.client
    → Kept key v a rkey m l.server
    → n ≤ length v
    → n ≤ max_test_size
    → kv_get_file f key l ≡ ok (got_file (c_str (take n v)) none, l)
unfolding kv_get_file kv_get_file_cached read_remote
kv_get_file-Cached f key v l n m a rkey fits h k le room =
    let short : ltb eager_protocol_limit (length key + 1 + sizeof_packet) ≡ false =
      le→ltb _ _ fits in
    let same : str_eq key l.client.last_rndv_accessed_key ≡ true =
      rw (h.key_is) (str_eq_refl key) in
    rw (
      short,
      same,
      h.addr_is,
      h.rkey_is,
      h.length_is,
      f.rdma_read_registered l.server.pool.mem a rkey n k.registered room,
      get_bytes-take (l.server.pool.mem a).rndv_buffer 0 n v k.holds le,
    )

-- A key that is not cached: the value, one byte more, and the length.
kv_get_file-Kept :
    (f : Fabric) (key v : List ℕ) (l : Link) (a rkey : ℕ)
    → IsText key
    → length key + 1 + sizeof_packet ≤ eager_protocol_limit
    → length v + 1 ≤ max_test_size
    → 0 < a
    → buffer_addr a < 2 ^ 64
    → rkey < 2 ^ 32
    → str_eq key l.client.last_rndv_accessed_key ≡ false
    → Kept key v a rkey (length v) l.server
    → (l' : Link) × (x : ℕ) × (kv_get_file f key l
        ≡ ok (got_file (v ++ x ∷ []) (some (length v)), l'))
      × Cached key (length v) a rkey l'.client
      × Kept key v a rkey (length v) l'.server
unfolding kv_get_file kv_get_file_request take_file take_large_file set_client_buf remember_key
    read_remote
kv_get_file-Kept f key v l a rkey text fits small positive low short_key other k =
    let n : ℕ = length v in
    let size : ℕ = length key + 1 + sizeof_packet in
    let c : Buf = get_packet key l.client.buf in
    let s : Server = record (l.server) { buf = f.send size c l.server.buf } in
    let t : Server = record s { buf = large_response n a rkey s.buf } in
    let handled =
      handle_eager_get_large s key k.entry
        (get_packet-Asks f key l.client.buf l.server.buf text fits) k.found a rkey k.large.0
        k.large.1 positive k.registered in
    let q =
      exchange-ok f size sizeof_packet (set_client_buf c l) t fits (omega arith) (omega arith)
        (rw (← k.large.2) handled) in
    let n32 : n < 2 ^ 32 = omega (arith, small) in
    let big : ltb eager_protocol_limit size ≡ false = le→ltb _ _ fits in
    let b = (l.server.pool.mem a).rndv_buffer in
    let whole : get_bytes b 0 (n + 1) ≡ v ++ b (0 + n) ∷ [] =
      get_bytes-suc b 0 n ∙ ap (λ xs. xs ++ b (0 + n) ∷ []) (get_bytes-Holds b 0 v k.holds) in
    (
      record {
        client =
            remember_key key n (buffer_addr a) rkey
              (record (l.client) { buf = told f n a rkey s.buf c n32 low short_key });
        server = t;
      },
      b (0 + n),
      rw (big, other, q)
          (rw (told_kind f n a rkey s.buf c n32 low short_key, kind-code rendezvous_get_response)
            (rw (
              told_length f n a rkey s.buf c n32 low short_key,
              told_ptr f n a rkey s.buf c n32 low short_key,
              told_rkey f n a rkey s.buf c n32 low short_key,
              f.rdma_read_registered l.server.pool.mem a rkey (n + 1) k.registered small,
              whole,
            ))),
      record { key_is = refl; length_is = refl; addr_is = refl; rkey_is = refl },
      record {
        entry = k.entry;
        found = k.found;
        large = k.large;
        registered = k.registered;
        holds = k.holds;
      },
    )

-- When a server's registered node holds the bytes of a key that the client has not cached, the key
-- fits into a packet and the bytes and a NUL into a node: the first `kv_get` of the client that
-- stores files gives the bytes and one byte more and stores their length; a second one gives the
-- bytes with a NUL behind them but leaves `*length` as it was.
pub kv_get_file_again :
    (f : Fabric) (key v : List ℕ) (l : Link) (a rkey : ℕ)
    → IsText key
    → length key + 1 + sizeof_packet ≤ eager_protocol_limit
    → length v + 1 ≤ max_test_size
    → 0 < a
    → buffer_addr a < 2 ^ 64
    → rkey < 2 ^ 32
    → str_eq key l.client.last_rndv_accessed_key ≡ false
    → Kept key v a rkey (length v) l.server
    → (l' : Link) × (x : ℕ) × (kv_get_file f key l
        ≡ ok (got_file (v ++ x ∷ []) (some (length v)), l'))
      × (kv_get_file f key l' ≡ ok (got_file (c_str v) none, l'))
kv_get_file_again f key v l a rkey text fits small positive low short_key other k =
    let (l', x, first, c, k') =
      kv_get_file-Kept f key v l a rkey text fits small positive low short_key other k in
    (
      l',
      x,
      first,
      kv_get_file-Cached f key v l' (length v) (length v) a rkey fits c k' (omega arith)
            (omega (arith, small))
          ∙ ap (λ xs. ok (got_file (c_str xs) none, l')) (take_all v),
    )
