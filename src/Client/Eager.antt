-- ===== src/Client/Eager.antt =====
-- `kv_set` and `kv_get` of Ex4/kv_client.c for values below the eager limit.
use comm_networks_workshop.Base.{
  ℕ, ◌+◌, ◌≤◌, ◌<◌, ◌≡◌, refl, ◌∙◌, true, false, some, List, arith, ltb, leb, lt→ltb, le→ltb,
  str_eq, length,
}
use comm_networks_workshop.Run.{ok}
use comm_networks_workshop.Bytes.{Buf, get_bytes, get_u32}
use comm_networks_workshop.Bytes.Laws.{
  get_u32-put_u32, get_u32-put_u32_ne, get_u32-put_bytes_ne, get_u32-transmit, Holds-put_bytes,
  get_bytes-Holds, Holds-transmit,
}
use comm_networks_workshop.Bytes.Strings.{IsText}
use comm_networks_workshop.Packet.{
  code, kind-code, type_at, length_at, bytes_at, sizeof_packet, eager_protocol_limit,
  eager_get_response,
}
use comm_networks_workshop.Fabric.{Fabric, send-transmit}
use comm_networks_workshop.Server.{Entry, Server, find_entry, store_small}
use comm_networks_workshop.Server.Lookup.{StoresSmall, handle_eager_set-store_small}
use comm_networks_workshop.Server.Answers.{small_response, handle_eager_get_small}
use comm_networks_workshop.Client.Exchange.{exchange-ok}
use comm_networks_workshop.Client.{
  Client, Link, c_str, set_client_buf, request, send_only, exchange, forget_key, eager_set_size,
  eager_set_packet, get_packet, kv_set_eager, kv_set, take_small, take_response, kv_get_request,
  kv_get, got,
}
use comm_networks_workshop.Client.Packets.{eager_set_packet-Gives, get_packet-Asks}

-- The answer that the client finds in its buffer.
module _ (f : Fabric) (v : List ℕ) (b c : Buf)
    (fits : sizeof_packet + length v ≤ eager_protocol_limit) where
  abbrev pub arrived : Buf
  arrived = f.send (sizeof_packet + length v) (small_response v b) c

  pub small_response_kind : get_u32 arrived type_at ≡ code eager_get_response
  unfolding code
  small_response_kind = rw (send-transmit f) (
      get_u32-transmit _ type_at _ c (omega arith)
      ∙ get_u32-put_bytes_ne _ type_at bytes_at v (omega arith)
      ∙ get_u32-put_u32_ne _ type_at length_at (length v) (omega arith)
      ∙ get_u32-put_u32 b type_at 1 (omega arith))

  pub small_response_length : get_u32 arrived length_at ≡ length v
  small_response_length = rw (send-transmit f) (
      get_u32-transmit _ length_at _ c (omega arith)
      ∙ get_u32-put_bytes_ne _ length_at bytes_at v (omega arith)
      ∙ get_u32-put_u32 _ length_at (length v) (omega arith))

  pub small_response_value : get_bytes arrived bytes_at (length v) ≡ v
  small_response_value = rw (send-transmit f) (
      get_bytes-Holds _ bytes_at v
        (Holds-transmit _ bytes_at _ c v (omega arith) (Holds-put_bytes _ bytes_at v)))

  take_small-got :
      (l : Link)
      → take_small f (set_client_buf arrived l) ≡ ok (got (c_str v), set_client_buf arrived l)
  unfolding take_small set_client_buf
  take_small-got l =
      let room : leb (bytes_at + length v) eager_protocol_limit ≡ true = ground arith in
      rw (small_response_length, room, small_response_value)

-- The server that an eager `kv_set` leaves behind.
abbrev pub after_set : Fabric → List ℕ → List ℕ → Link → Server
after_set f key value l =
    let b =
      f.send (eager_set_size key value) (eager_set_packet key value l.client.buf) l.server.buf in
    store_small (record (l.server) { buf = b }) key (length value) value
      (find_entry key l.server.entries)

abbrev pub after_set_client : List ℕ → List ℕ → Link → Client
after_set_client key value l = record (forget_key key l.client) {
  buf = eager_set_packet key value l.client.buf;
}

module _ (f : Fabric) (key value : List ℕ) (text : IsText key) where
  pub kv_set_eager-ok :
      (l : Link)
      → eager_set_size key value < eager_protocol_limit
      → kv_set f key value l
        ≡ ok (record l { client = after_set_client key value l; server = after_set f key value l })
  unfolding kv_set kv_set_eager send_only request
  kv_set_eager-ok l fits =
      let small : ltb (eager_set_size key value) eager_protocol_limit ≡ true = lt→ltb _ _ fits in
      let room : leb (eager_set_size key value) eager_protocol_limit ≡ true = ground arith in
      rw (
        small,
        room,
        handle_eager_set-store_small
            (record (l.server) {
              buf =
                  f.send (eager_set_size key value) (eager_set_packet key value l.client.buf)
                    l.server.buf;
            })
            key value (eager_set_packet-Gives f key l.client.buf l.server.buf text value fits),
      )

  -- A `kv_get` of a key that the cache does not hold, of a small value.
  pub kv_get-small :
      (l : Link) (e : Entry)
      → str_eq key l.client.last_rndv_accessed_key ≡ false
      → find_entry key l.server.entries ≡ some e
      → StoresSmall value e
      → length key + 1 + sizeof_packet ≤ eager_protocol_limit
      → sizeof_packet + length value ≤ eager_protocol_limit
      → (l' : Link) × (kv_get f key l ≡ ok (got (c_str value), l'))
        × (l'.server.entries ≡ l.server.entries)
        × (l'.server.entries_counter ≡ l.server.entries_counter)
        × (l'.client.last_rndv_accessed_key ≡ l.client.last_rndv_accessed_key)
  unfolding kv_get kv_get_request set_client_buf take_response
  kv_get-small l e other found small fits fits' =
      let size : ℕ = length key + 1 + sizeof_packet in
      let n : ℕ = sizeof_packet + length value in
      let c : Buf = get_packet key l.client.buf in
      let b : Buf = f.send size c l.server.buf in
      let s : Server = record (l.server) { buf = small_response value b } in
      let l' : Link = record l { server = s; client = record (l.client) { buf = c } } in
      let answered : exchange f size (set_client_buf c l)
          ≡ ok (set_client_buf (arrived f value b c fits') l') =
        exchange-ok f size n (set_client_buf c l) s (omega arith) (omega arith) fits' (
          handle_eager_get_small (record (l.server) { buf = b }) key e
            (get_packet-Asks f key l.client.buf l.server.buf text fits) found value small fits') in
      let short : ltb eager_protocol_limit size ≡ false = le→ltb _ _ fits in
      (
        set_client_buf (arrived f value b c fits') l',
        rw (short, other, answered)
            (rw (small_response_kind f value b c fits', kind-code eager_get_response)
              (take_small-got f value b c fits' l')),
        refl,
        refl,
        refl,
      )
