-- ===== src/Client/Packets.antt =====
-- The requests of Ex4/kv_client.c as the server finds them in its buffer.
use comm_networks_workshop.Base.{ℕ, ◌+◌, ◌≤◌, ◌<◌, ◌∙◌, List, [], ◌∷◌, arith, length, length-append}
use comm_networks_workshop.Bytes.{Buf, put_bytes, put_u32, transmit}
use comm_networks_workshop.Bytes.Laws.{
  get_u32-put_u32, get_u32-put_u32_ne, get_u32-put_bytes_ne, get_u32-transmit, Holds-put_bytes,
  Holds-put_bytes_ne, Holds-transmit, Holds-append_left,
}
use comm_networks_workshop.Bytes.Strings.{IsText}
use comm_networks_workshop.Packet.{
  code, type_at, get_key_at, length_at, bytes_at, sizeof_packet, eager_protocol_limit,
}
use comm_networks_workshop.Fabric.{Fabric, send-transmit}
use comm_networks_workshop.Server.Lookup.{Gives, Asks}
use comm_networks_workshop.Client.{c_str, eager_set_size, eager_set_packet, get_packet}

module _ (f : Fabric) (key : List ℕ) (b c : Buf) (text : IsText key) where
  -- The packet of an eager `kv_set` below the eager limit arrives as a well-formed
  -- EAGER_SET_REQUEST of the key and value, whatever the buffers held.
  pub eager_set_packet-Gives :
      (value : List ℕ)
      → eager_set_size key value < eager_protocol_limit
      → Gives key value (f.send (eager_set_size key value) (eager_set_packet key value b) c)
  unfolding eager_set_size eager_set_packet code
  eager_set_packet-Gives value fits =
      let size : ℕ = length key + length value + sizeof_packet + 2 in
      let lk = length-append key (0 ∷ []) in
      let lv = length-append value (0 ∷ []) in
      let w = put_u32 b type_at 2 in
      let x = put_u32 w length_at (length value) in
      let y = put_bytes x bytes_at (c_str key) in
      rw (send-transmit f) (record {
        kind_is =
            get_u32-transmit size type_at _ c (omega arith)
            ∙ get_u32-put_bytes_ne y type_at (bytes_at + length key + 1) (c_str value) (omega arith)
            ∙ get_u32-put_bytes_ne x type_at bytes_at (c_str key) (omega arith)
            ∙ get_u32-put_u32_ne w type_at length_at (length value) (omega arith)
            ∙ get_u32-put_u32 b type_at 2 (omega arith);
        key_is = (
          text,
          Holds-transmit size bytes_at _ c (c_str key) (omega (arith, lk)) (
              Holds-put_bytes_ne y bytes_at (bytes_at + length key + 1) (c_str key) (c_str value)
                (omega (arith, lk)) (Holds-put_bytes x bytes_at (c_str key))),
        );
        length_is =
            get_u32-transmit size length_at _ c (omega arith)
            ∙ get_u32-put_bytes_ne y length_at (bytes_at + length key + 1) (c_str value)
                (omega arith)
            ∙ get_u32-put_bytes_ne x length_at bytes_at (c_str key) (omega arith)
            ∙ get_u32-put_u32 w length_at (length value) (omega arith);
        value_is =
            let z = put_bytes y (bytes_at + length key + 1) (c_str value) in
            Holds-append_left (transmit size z c) (bytes_at + length key + 1) value (0 ∷ []) (
              Holds-transmit size (bytes_at + length key + 1) z c (c_str value) (omega (arith, lv))
                (Holds-put_bytes y (bytes_at + length key + 1) (c_str value)));
        fits = omega arith;
      })

  -- The packet of a `kv_get` of a key that fits arrives as a well-formed EAGER_GET_REQUEST of the
  -- key, whatever the buffers held.
  pub get_packet-Asks :
      length key + 1 + sizeof_packet ≤ eager_protocol_limit
      → Asks key (f.send (length key + 1 + sizeof_packet) (get_packet key b) c)
  unfolding get_packet code
  get_packet-Asks fits =
      let size : ℕ = length key + 1 + sizeof_packet in
      let lk = length-append key (0 ∷ []) in
      let w = put_u32 b type_at 0 in
      rw (send-transmit f) (record {
        kind_is =
            get_u32-transmit size type_at _ c (omega arith)
            ∙ get_u32-put_bytes_ne w type_at get_key_at (c_str key) (omega arith)
            ∙ get_u32-put_u32 b type_at 0 (omega arith);
        key_is = (
          text,
          Holds-transmit size get_key_at _ c (c_str key) (omega (arith, lk))
              (Holds-put_bytes w get_key_at (c_str key)),
        );
        fits = omega arith;
      })
