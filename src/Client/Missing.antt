-- ===== src/Client/Missing.antt =====
-- `kv_get` of Ex4/kv_client.c for a key that the server does not have.
use comm_networks_workshop.Base.{
  ℕ, zero, suc, ◌+◌, ◌*◌, ◌≤◌, ◌<◌, ◌≡◌, ◌∙◌, false, none, List, [], ◌∷◌, arith, ltb, leb, le→ltb,
  str_eq, length, length-append, get_or,
}
use comm_networks_workshop.Run.{fault}
use comm_networks_workshop.Bytes.{Buf, put_u32, get_u32}
use comm_networks_workshop.Bytes.Laws.{
  get_u32-put_u32, get_u32-put_u32_ne, get_u32-put_byte_ne, get_u32-transmit, Holds-put_bytes,
  Holds-append_left,
}
use comm_networks_workshop.Bytes.Strings.{IsText}
use comm_networks_workshop.Packet.{
  code, kind-code, type_at, get_key_at, length_at, bytes_at, sizeof_packet, sizeof_pointer,
  eager_protocol_limit, eager_get_request, eager_get_response,
}
use comm_networks_workshop.Fabric.{Fabric, send-transmit}
use comm_networks_workshop.Server.{Server, find_entry, answer_missing}
use comm_networks_workshop.Server.Answers.{handle_eager_get_missing}
use comm_networks_workshop.Client.{
  Link, c_str, set_client_buf, get_packet, take_small, take_response, kv_get_request, kv_get,
}
use comm_networks_workshop.Client.Packets.{get_packet-Asks}
use comm_networks_workshop.Client.Exchange.{exchange-ok}

IsText-get_or : (s : List ℕ) (i : ℕ) → IsText s → i < length s → 0 < get_or s i 0
IsText-get_or [] i t h = absurd (omega arith)
IsText-get_or (c ∷ s) zero t h = t.0.0
IsText-get_or (c ∷ s) (suc i) t h = IsText-get_or s i t.1 (omega arith)

-- What the client has in its buffer after the nine bytes of the answer.
module _ (f : Fabric) (s : Server) (c : Buf) where
  abbrev answered : Buf
  answered = f.send (sizeof_pointer + 1) (answer_missing s).0.buf c

  answered_kind : get_u32 answered type_at ≡ code eager_get_response
  unfolding answer_missing code
  answered_kind = rw (send-transmit f) (
      get_u32-transmit _ type_at _ c (omega arith)
      ∙ get_u32-put_u32_ne _ type_at length_at 1 (omega arith)
      ∙ get_u32-put_byte_ne _ type_at bytes_at 0 (omega arith)
      ∙ get_u32-put_u32 s.buf type_at 1 (omega arith))

  -- Only the low byte of the length is the server's.
  answered_length : c 10 * 65536 ≤ get_u32 answered length_at
  unfolding get_u32
  answered_length =
      let e : answered 10 ≡ c 10 = f.send_spares (sizeof_pointer + 1) _ c 10 (omega arith) in
      omega (arith, e)

-- The third byte of the key in the client's own request.
request_byte : (key : List ℕ) (b : Buf) → 2 < length key → get_packet key b 10 ≡ get_or key 2 0
unfolding get_packet
request_byte key b h =
    let lk = length-append key (0 ∷ []) in
    Holds-append_left (get_packet key b) get_key_at key (0 ∷ [])
      (Holds-put_bytes (put_u32 b type_at (code eager_get_request)) get_key_at (c_str key)) 2 h

-- `kv_get` of a key of at least three bytes that is neither cached nor on the server copies from
-- behind its buffer: the answer is so short that the value length in it keeps bytes of the client's
-- own request.
pub kv_get_missing :
    (f : Fabric) (key : List ℕ) (l : Link)
    → IsText key
    → 2 < length key
    → length key + 1 + sizeof_packet ≤ eager_protocol_limit
    → str_eq key l.client.last_rndv_accessed_key ≡ false
    → find_entry key l.server.entries ≡ none
    → kv_get f key l ≡ fault
unfolding kv_get kv_get_request set_client_buf take_response take_small answer_missing
kv_get_missing f key l text long fits other absent =
    let size : ℕ = length key + 1 + sizeof_packet in
    let c : Buf = get_packet key l.client.buf in
    let s : Server = record (l.server) { buf = f.send size c l.server.buf } in
    let t : Server = (answer_missing s).0 in
    let q =
      exchange-ok f size (sizeof_pointer + 1) (set_client_buf c l) t fits (omega arith)
        (omega arith)
        (handle_eager_get_missing s key (get_packet-Asks f key l.client.buf l.server.buf text fits)
          absent) in
    let short : ltb eager_protocol_limit size ≡ false = le→ltb _ _ fits in
    let byte : 0 < c 10 = rw (request_byte key l.client.buf long) (IsText-get_or key 2 text long) in
    let past : leb (bytes_at + get_u32 (answered f s c) length_at) eager_protocol_limit ≡ false =
      ground (arith, answered_length f s c, byte) in
    rw (short, other, q) (rw (answered_kind f s c, kind-code eager_get_response, past))
