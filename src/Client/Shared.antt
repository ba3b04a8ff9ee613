-- ===== src/Client/Shared.antt =====
-- Large values between two clients of one server in Ex4/kv_client.c.
use comm_networks_workshop.Base.{
  ℕ, ◌+◌, ◌^◌, ◌≤◌, ◌<◌, ◌≡◌, refl, ◌∙◌, false, some, List, [], ◌∷◌, ◌++◌, arith, ltb, le→ltb,
  str_eq, length, length-append, take, take-append,
}
use comm_networks_workshop.Server.Valid.{IsValid}
use comm_networks_workshop.Run.{ok}
use comm_networks_workshop.Bytes.{Buf, get_bytes}
use comm_networks_workshop.Bytes.Laws.{get_bytes-Holds, get_bytes-take, get_bytes-suc}
use comm_networks_workshop.Bytes.Strings.{IsText}
use comm_networks_workshop.Packet.{
  kind-code, sizeof_packet, eager_protocol_limit, max_test_size, rendezvous_get_response,
}
use comm_networks_workshop.Pool.{buffer_addr}
use comm_networks_workshop.Fabric.{Fabric}
use comm_networks_workshop.Server.{Server, find_entry}
use comm_networks_workshop.Server.Large.{node_for}
use comm_networks_workshop.Server.Answers.{large_response, handle_eager_get_large}
use comm_networks_workshop.Client.{
  Client, Link, c_str, set_client_buf, read_remote, remember_key, eager_set_size, get_packet,
  kv_set, take_large, take_response, kv_get_request, kv_get, got,
}
use comm_networks_workshop.Client.Packets.{get_packet-Asks}
use comm_networks_workshop.Client.Exchange.{exchange-ok}
use comm_networks_workshop.Client.Rendezvous.{Kept, Cached}
use comm_networks_workshop.Client.Fetch.{kv_set_rendezvous-Kept}
use comm_networks_workshop.Client.Reads.{
  kv_get-Cached, kv_set-Cached, told, told_kind, told_length, told_ptr, told_rkey,
}

module _ (f : Fabric) (key v : List ℕ) (n a rkey : ℕ) (text : IsText key)
    (fits : length key + 1 + sizeof_packet ≤ eager_protocol_limit) (small : n + 1 ≤ max_test_size)
    (pos : 0 < a) (low : buffer_addr a < 2 ^ 64) (short : rkey < 2 ^ 32) where
  -- A key that is not cached: one byte more than the length that the server has recorded.
  pub kv_get-Kept :
      (l : Link)
      → str_eq key l.client.last_rndv_accessed_key ≡ false
      → Kept key v a rkey n l.server
      → (l' : Link) × (kv_get f key l
          ≡ ok (got (get_bytes (l.server.pool.mem a).rndv_buffer 0 (n + 1)), l'))
        × Cached key n a rkey l'.client
        × Kept key v a rkey n l'.server
  unfolding kv_get kv_get_request take_response take_large set_client_buf remember_key read_remote
  kv_get-Kept l other k =
      let size : ℕ = length key + 1 + sizeof_packet in
      let c : Buf = get_packet key l.client.buf in
      let s : Server = record (l.server) { buf = f.send size c l.server.buf } in
      let t : Server = record s { buf = large_response n a rkey s.buf } in
      let handled =
        handle_eager_get_large s key k.entry
          (get_packet-Asks f key l.client.buf l.server.buf text fits) k.found a rkey k.large.0
          k.large.1 pos k.registered in
      let q =
        exchange-ok f size sizeof_packet (set_client_buf c l) t fits (omega arith) (omega arith)
          (rw (← k.large.2) handled) in
      let n32 : n < 2 ^ 32 = omega (arith, small) in
      let big : ltb eager_protocol_limit size ≡ false = le→ltb _ _ fits in
      (
        record {
          client =
              remember_key key n (buffer_addr a) rkey
                (record (l.client) { buf = told f n a rkey s.buf c n32 low short });
          server = t;
        },
        rw (big, other, q)
            (rw (told_kind f n a rkey s.buf c n32 low short, kind-code rendezvous_get_response)
              (rw (
                told_length f n a rkey s.buf c n32 low short,
                told_ptr f n a rkey s.buf c n32 low short,
                told_rkey f n a rkey s.buf c n32 low short,
                f.rdma_read_registered l.server.pool.mem a rkey (n + 1) k.registered small,
              ))),
        record { key_is = refl; length_is = refl; addr_is = refl; rkey_is = refl },
        record {
          entry = k.entry;
          found = k.found;
          large = k.large;
          registered = k.registered;
          holds = k.holds;
        },
      )

-- The key has, or gets, the registered node `a`, whose address and key fit the packet's fields.
pub record Room (key : List ℕ) (a rkey : ℕ) (s : Server) : Type 0 where
  pub node_is : node_for s.pool (find_entry key s.entries) ≡ a
  pub not_null : 0 < a
  pub low : buffer_addr a < 2 ^ 64
  pub short : rkey < 2 ^ 32
  pub registered : (s.pool.mem a).rndv_mr ≡ some rkey

module _ (f : Fabric) (key value : List ℕ) (a rkey : ℕ) (l : Link) (valid : IsValid l.server)
    (room : Room key a rkey l.server) (text : IsText key)
    (large : eager_protocol_limit ≤ eager_set_size key value)
    (fits : length key + 1 + sizeof_packet ≤ eager_protocol_limit)
    (other : str_eq key l.client.last_rndv_accessed_key ≡ false) where
  kv_set-Kept :
      length value + 1 ≤ max_test_size
      → (l' : Link) × (kv_set f key value l ≡ ok l')
        × Kept key (c_str value) a rkey (length value + 1) l'.server
        × Cached key (length value) a rkey l'.client
  kv_set-Kept h =
      let pos : 0 < node_for l.server.pool (find_entry key l.server.entries) =
        rw (room.node_is) (room.not_null) in
      let low : buffer_addr (node_for l.server.pool (find_entry key l.server.entries)) < 2 ^ 64 =
        rw (room.node_is) (room.low) in
      rw (← room.node_is) (
        kv_set_rendezvous-Kept f key value l rkey valid text large fits h other pos low room.short
          (rw (room.node_is) (room.registered)))

  -- When the value's packet reaches the eager limit, the value and two bytes fit into a node, the
  -- key is in neither client's cache, and the key has or gets a registered node whose address and
  -- key fit the packet: `kv_set` succeeds, the client then reads exactly the value and its NUL
  -- through its cache, and another client with an own cache reads the value, its NUL and one more
  -- byte through the server.
  pub kv_get-kv_set_large :
      length value + 2 ≤ max_test_size
      → (c2 : Client) → str_eq key c2.last_rndv_accessed_key ≡ false
      → (l' : Link) × (l2 : Link) × (x : ℕ) × (kv_set f key value l ≡ ok l')
        × (kv_get f key l' ≡ ok (got (c_str value), l'))
        × (kv_get f key (record l' { client = c2 }) ≡ ok (got (c_str value ++ x ∷ []), l2))
  kv_get-kv_set_large h c2 other2 =
      let (l', was_set, k, c) = kv_set-Kept (omega (arith, h)) in
      let lv = length-append value (0 ∷ []) in
      let (l2, was_got, c3, k3) =
        kv_get-Kept f key (c_str value) (length value + 1) a rkey text fits (omega (arith, h))
          room.not_null room.low room.short (record l' { client = c2 }) other2 k in
      let b = (l'.server.pool.mem a).rndv_buffer in
      let whole : get_bytes b 0 (length value + 1) ≡ c_str value =
        rw (← lv) (get_bytes-Holds b 0 (c_str value) k.holds) in
      (
        l',
        l2,
        b (0 + (length value + 1)),
        was_set,
        kv_get-Cached f key fits l' (c_str value) (length value) (length value + 1) a rkey c k
              (omega (arith, lv)) (omega (arith, h))
            ∙ rw (take-append value (0 ∷ [])),
        was_got ∙ rw (get_bytes-suc b 0 (length value + 1), whole),
      )

  -- Under the conditions of a large `kv_set`, with a second value at least two bytes longer that
  -- fits into a node too: after a client has set the first and then the second value, it reads back
  -- the second one, but another client with an own cache gets only the first bytes of it, as many
  -- as the first value has and two more.
  pub kv_set_cached_truncates :
      (longer : List ℕ) (c2 : Client)
      → length value + 2 ≤ length longer
      → length longer + 1 ≤ max_test_size
      → str_eq key c2.last_rndv_accessed_key ≡ false
      → (l1 l' : Link) × (l2 : Link) × (kv_set f key value l ≡ ok l1)
        × (kv_set f key longer l1 ≡ ok l')
        × (kv_get f key l' ≡ ok (got (c_str longer), l'))
        × (kv_get f key (record l' { client = c2 })
            ≡ ok (got (take (length value + 2) (c_str longer)), l2))
  unfolding eager_set_size
  kv_set_cached_truncates longer c2 h h' other2 =
      let (l1, was_set, k1, c1) = kv_set-Kept (omega (arith, h, h')) in
      let (l', was_set', k, c) =
        kv_set-Cached f key fits l1 (c_str value) longer (length value) (length value + 1) a rkey c1
          k1 (omega (arith, h, large)) h' in
      let lv = length-append longer (0 ∷ []) in
      let (l2, was_got, c3, k3) =
        kv_get-Kept f key (c_str longer) (length value + 1) a rkey text fits (omega (arith, h, h'))
          room.not_null room.low room.short (record l' { client = c2 }) other2 k in
      let b = (l'.server.pool.mem a).rndv_buffer in
      let e : length value + 1 + 1 ≡ length value + 2 = omega arith in
      (
        l1,
        l',
        l2,
        was_set,
        was_set',
        kv_get-Cached f key fits l' (c_str longer) (length longer) (length value + 1) a rkey c k
              (omega (arith, lv)) (omega (arith, h'))
            ∙ rw (take-append longer (0 ∷ [])),
        was_got
            ∙ rw e (
                rw (
                  get_bytes-take b 0 (length value + 2) (c_str longer) k.holds
                    (omega (arith, h, lv)))),
      )
