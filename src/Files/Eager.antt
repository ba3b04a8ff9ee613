-- ===== src/Files/Eager.antt =====
-- `kv_set` and `kv_get` of Ex4/nweb23.c for values below the eager limit.
use comm_networks_workshop.Base.{
  ℕ, ◌+◌, ◌≤◌, ◌<◌, ◌≡◌, refl, ◌∙◌, true, false, some, List, [], ◌∷◌, arith, ltb, leb, lt→ltb,
  le→ltb, str_eq, str_eq_refl, length, length-append,
}
use comm_networks_workshop.Run.{ok}
use comm_networks_workshop.Bytes.{Buf, put_bytes, put_u32}
use comm_networks_workshop.Bytes.Laws.{
  get_u32-put_u32, get_u32-put_u32_ne, get_u32-put_bytes_ne, get_u32-transmit, Holds-put_bytes,
  Holds-put_bytes_ne, Holds-put_u32_ne, Holds-transmit,
}
use comm_networks_workshop.Bytes.Strings.{IsText}
use comm_networks_workshop.Packet.{
  code, kind-code, type_at, length_at, bytes_at, sizeof_packet, eager_protocol_limit,
  eager_get_response,
}
use comm_networks_workshop.Pool.{Pool}
use comm_networks_workshop.Fabric.{Fabric, send-transmit}
use comm_networks_workshop.Server.{Entry, Server, find_entry, store_small}
use comm_networks_workshop.Server.Valid.{IsValid}
use comm_networks_workshop.Server.Lookup.{
  StoresSmall, Gives, handle_eager_set-store_small, store_small-Updates,
}
use comm_networks_workshop.Server.Answers.{small_response, handle_eager_get_small}
use comm_networks_workshop.Client.{
  Link, c_str, set_client_buf, request, send_only, exchange, forget_key, get_packet,
}
use comm_networks_workshop.Client.Packets.{get_packet-Asks}
use comm_networks_workshop.Client.Exchange.{exchange-ok}
use comm_networks_workshop.Client.Eager.{
  arrived, small_response_kind, small_response_length, small_response_value,
}
use comm_networks_workshop.Client.RoundTrip.{forget_key-misses, with_pool}
use comm_networks_workshop.Files.{
  file_set_size, file_set_packet, kv_set_file_eager, kv_set_file, take_small_file, take_file,
  kv_get_file_request, kv_get_file, got_file,
}

module _ (f : Fabric) (key value : List ℕ) (text : IsText key) where
  file_set_packet-Gives :
      (b c : Buf)
      → file_set_size key value < eager_protocol_limit
      → Gives key value (f.send (file_set_size key value) (file_set_packet key value b) c)
  unfolding file_set_size file_set_packet code
  file_set_packet-Gives b c fits =
      let size : ℕ = length key + 1 + length value + sizeof_packet in
      let lk = length-append key (0 ∷ []) in
      let w = put_u32 b type_at 2 in
      let x = put_bytes w bytes_at (c_str key) in
      let y = put_bytes x (bytes_at + length key + 1) value in
      rw (send-transmit f) (record {
        kind_is =
            get_u32-transmit size type_at _ c (omega arith)
            ∙ get_u32-put_u32_ne y type_at length_at (length value) (omega arith)
            ∙ get_u32-put_bytes_ne x type_at (bytes_at + length key + 1) value (omega arith)
            ∙ get_u32-put_bytes_ne w type_at bytes_at (c_str key) (omega arith)
            ∙ get_u32-put_u32 b type_at 2 (omega arith);
        key_is = (
          text,
          Holds-transmit size bytes_at _ c (c_str key) (omega (arith, lk)) (
              Holds-put_u32_ne y bytes_at length_at (length value) (c_str key) (omega arith) (
                Holds-put_bytes_ne x bytes_at (bytes_at + length key + 1) (c_str key) value
                  (omega (arith, lk)) (Holds-put_bytes w bytes_at (c_str key)))),
        );
        length_is =
            get_u32-transmit size length_at _ c (omega arith)
            ∙ get_u32-put_u32 y length_at (length value) (omega arith);
        value_is = Holds-transmit size (bytes_at + length key + 1) _ c value (omega arith) (
            Holds-put_u32_ne y (bytes_at + length key + 1) length_at (length value) value
              (omega arith) (Holds-put_bytes x (bytes_at + length key + 1) value));
        fits = omega arith;
      })

  abbrev file_server : Link → Server
  file_server l =
      let b =
        f.send (file_set_size key value) (file_set_packet key value l.client.buf) l.server.buf in
      store_small (record (l.server) { buf = b }) key (length value) value
        (find_entry key l.server.entries)

  abbrev file_link : Link → Link
  file_link l = record {
    client = record (forget_key key l.client) { buf = file_set_packet key value l.client.buf };
    server = file_server l;
  }

  kv_set_file_eager-ok :
      (beyond : ℕ) (l : Link)
      → file_set_size key value < eager_protocol_limit
      → kv_set_file f beyond key value l ≡ ok (file_link l)
  unfolding kv_set_file kv_set_file_eager send_only request
  kv_set_file_eager-ok beyond l fits =
      let small : ltb (file_set_size key value) eager_protocol_limit ≡ true = lt→ltb _ _ fits in
      let room : leb (file_set_size key value) eager_protocol_limit ≡ true = ground arith in
      rw (
        small,
        room,
        handle_eager_set-store_small
            (record (l.server) {
              buf =
                  f.send (file_set_size key value) (file_set_packet key value l.client.buf)
                    l.server.buf;
            })
            key value (file_set_packet-Gives l.client.buf l.server.buf fits),
      )

  kv_get_file-small :
      (l : Link) (e : Entry)
      → str_eq key l.client.last_rndv_accessed_key ≡ false
      → find_entry key l.server.entries ≡ some e
      → StoresSmall value e
      → length key + 1 + sizeof_packet ≤ eager_protocol_limit
      → sizeof_packet + length value ≤ eager_protocol_limit
      → (l' : Link) × (kv_get_file f key l ≡ ok (got_file (c_str value) (some (length value)), l'))
  unfolding kv_get_file kv_get_file_request set_client_buf take_file take_small_file
  kv_get_file-small l e other found small fits fits' =
      let size : ℕ = length key + 1 + sizeof_packet in
      let n : ℕ = sizeof_packet + length value in
      let c : Buf = get_packet key l.client.buf in
      let b : Buf = f.send size c l.server.buf in
      let s : Server = record (l.server) { buf = small_response value b } in
      let l' : Link = record l { server = s; client = record (l.client) { buf = c } } in
      let q : exchange f size (set_client_buf c l)
          ≡ ok (set_client_buf (arrived f value b c fits') l') =
        exchange-ok f size n (set_client_buf c l) s (omega arith) (omega arith) fits' (
          handle_eager_get_small (record (l.server) { buf = b }) key e
            (get_packet-Asks f key l.client.buf l.server.buf text fits) found value small fits') in
      let short : ltb eager_protocol_limit size ≡ false = le→ltb _ _ fits in
      let room : leb (bytes_at + length value) eager_protocol_limit ≡ true = ground arith in
      (
        set_client_buf (arrived f value b c fits') l',
        rw (short, other, q)
            (rw (small_response_kind f value b c fits', kind-code eager_get_response)
              (rw (
                small_response_length f value b c fits',
                room,
                small_response_value f value b c fits',
              ))),
      )

  file_entry :
      (l : Link)
      → IsValid l.server
      → (d : Entry) × StoresSmall value d × (find_entry key (file_server l).entries ≡ some d)
  file_entry l valid =
      let s : Server = record (l.server) {
        buf =
            f.send (file_set_size key value) (file_set_packet key value l.client.buf) l.server.buf;
      } in
      let valid' : IsValid s = record {
        counted = valid.counted;
        formed = valid.formed;
        unique = valid.unique;
      } in
      let (d, small, up) =
        store_small-Updates s key value (find_entry key l.server.entries) valid' refl in
      (d, small, up key ∙ rw (str_eq_refl key))

  -- What is set is what is got, over one connection.
  pub kv_get_file-kv_set_file :
      (beyond : ℕ) (l : Link) (p : Pool)
      → IsValid l.server
      → 0 < length key
      → file_set_size key value < eager_protocol_limit
      → (l' l'' : Link) × (kv_set_file f beyond key value l ≡ ok l')
        × (kv_get_file f key (with_pool p l')
            ≡ ok (got_file (c_str value) (some (length value)), l''))
  unfolding file_set_size
  kv_get_file-kv_set_file beyond l p valid some_key fits =
      let (d, small, found) = file_entry l valid in
      let (l'', answered) =
        kv_get_file-small (with_pool p (file_link l)) d (forget_key-misses key l.client some_key)
          found small (omega arith) (omega arith) in
      (file_link l, l'', kv_set_file_eager-ok beyond l fits, answered)
