-- ===== src/Template/Packets.antt =====
-- The packets of the eager protocol of Ex3/kv_template.c as the other side finds them.
use comm_networks_workshop.Base.{
  ℕ, ◌+◌, ◌<◌, ◌≡◌, ◌∙◌, List, [], ◌∷◌, ◌++◌, arith, length, length-append,
}
use comm_networks_workshop.Bytes.{Buf, put_byte, put_bytes, get_bytes, put_u32, get_u32}
use comm_networks_workshop.Packet.{
  code, type_at, get_key_at, length_at, bytes_at, sizeof_packet, eager_protocol_limit,
  eager_get_response,
}
use comm_networks_workshop.Fabric.{Fabric, send-transmit}
use comm_networks_workshop.Template.Eager.{node_answer}
use comm_networks_workshop.Template.Client.{set_size_ex3, eager_packet_ex3, get_packet_ex3}
use comm_networks_workshop.Bytes.Laws.{
  Holds, get_u32-put_u32, get_u32-put_u32_ne, get_u32-put_bytes_ne, get_u32-transmit,
  Holds-put_bytes, Holds-append_left, Holds-append_right, Holds-put_u32_ne, Holds-transmit,
  get_bytes-Holds, Holds-put_byte_behind,
}
use comm_networks_workshop.Bytes.Strings.{IsText}
use comm_networks_workshop.Client.{c_str}
use comm_networks_workshop.Server.Lookup.{Gives, Asks}

module _ (f : Fabric) (key value : List ℕ) (text : IsText key) where
  pub eager_packet-Gives :
      (b c : Buf)
      → set_size_ex3 key value < eager_protocol_limit
      → Gives key value (f.send (set_size_ex3 key value) (eager_packet_ex3 key value b) c)
  unfolding set_size_ex3 eager_packet_ex3 code
  eager_packet-Gives b c fits =
      let size : ℕ = length key + 1 + length value + sizeof_packet in
      let w = put_u32 b type_at 2 in
      let x = put_u32 w length_at (length value) in
      let xs : List ℕ = c_str key ++ c_str value in
      let lk : length (c_str key) ≡ length key + 1 = length-append key (0 ∷ []) in
      let lv : length (c_str value) ≡ length value + 1 = length-append value (0 ∷ []) in
      let y : Buf = put_bytes x bytes_at xs in
      let whole : Holds y bytes_at xs = Holds-put_bytes x bytes_at xs in
      let at : bytes_at + length (c_str key) ≡ bytes_at + length key + 1 = omega (arith, lk) in
      let right : Holds y (bytes_at + length key + 1) (c_str value) =
        rw at at (Holds-append_right y bytes_at (c_str key) (c_str value) whole) in
      rw (send-transmit f) (record {
        kind_is =
            get_u32-transmit size type_at _ c (omega arith)
            ∙ get_u32-put_bytes_ne x type_at bytes_at xs (omega arith)
            ∙ get_u32-put_u32_ne w type_at length_at (length value) (omega arith)
            ∙ get_u32-put_u32 b type_at 2 (omega arith);
        key_is = (
          text,
          Holds-transmit size bytes_at _ c (c_str key) (omega (arith, lk))
              (Holds-append_left y bytes_at (c_str key) (c_str value) whole),
        );
        length_is =
            get_u32-transmit size length_at _ c (omega arith)
            ∙ get_u32-put_bytes_ne x length_at bytes_at xs (omega arith)
            ∙ get_u32-put_u32 w length_at (length value) (omega arith);
        value_is =
            Holds-transmit size (bytes_at + length key + 1) _ c value (omega arith)
              (Holds-append_left y (bytes_at + length key + 1) value (0 ∷ []) right);
        fits = omega arith;
      })

  pub get_packet-Asks :
      (b c : Buf)
      → length key + 1 + sizeof_packet < eager_protocol_limit
      → Asks key (f.send (length key + 1 + sizeof_packet) (get_packet_ex3 key b) c)
  unfolding get_packet_ex3 code
  get_packet-Asks b c fits =
      let size : ℕ = length key + 1 + sizeof_packet in
      let lk : length (c_str key) ≡ length key + 1 = length-append key (0 ∷ []) in
      let w = put_u32 b type_at 0 in
      rw (send-transmit f) (record {
        kind_is =
            get_u32-transmit size type_at _ c (omega arith)
            ∙ get_u32-put_bytes_ne w type_at get_key_at (c_str key) (omega arith)
            ∙ get_u32-put_u32 b type_at 0 (omega arith);
        key_is = (
          text,
          Holds-transmit size get_key_at _ c (c_str key) (omega (arith, lk))
              (Holds-put_bytes w get_key_at (c_str key)),
        );
        fits = omega arith;
      })

-- The answer as the client finds it.
module _ (f : Fabric) (v : List ℕ) (b c : Buf)
    (fits : bytes_at + length v < eager_protocol_limit) where
  abbrev pub answer_arrived : Buf
  answer_arrived = f.send (sizeof_packet + length v) (node_answer v b) c

  pub answer_length : get_u32 answer_arrived length_at ≡ length v
  answer_length = rw (send-transmit f) (
      get_u32-transmit _ length_at _ c (omega arith)
      ∙ get_u32-put_u32 _ length_at (length v) (omega arith))

  pub answer_value : get_bytes answer_arrived bytes_at (length v) ≡ v
  answer_value =
      let w = put_u32 b type_at (code eager_get_response) in
      let nul : Holds (put_byte (put_bytes w bytes_at v) (bytes_at + length v) 0) bytes_at v =
        Holds-put_byte_behind (put_bytes w bytes_at v) bytes_at v (Holds-put_bytes w bytes_at v) in
      rw (send-transmit f) (
        get_bytes-Holds _ bytes_at v (
          Holds-transmit _ bytes_at _ c v (omega arith)
            (Holds-put_u32_ne _ bytes_at length_at (length v) v (omega arith) nul)))
