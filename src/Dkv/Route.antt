-- ===== src/Dkv/Route.antt =====
-- How `dkv_set` and `dkv_get` of Ex4/kv_client.c find the server of a key.
use comm_networks_workshop.Base.{
  ℕ, ◌+◌, ◌^◌, ◌≤◌, ◌<◌, ◌≡◌, ◌∙◌, true, List, [], ◌∷◌, arith, leb, length, length-append,
}
use comm_networks_workshop.Run.{ok}
use comm_networks_workshop.Bytes.{Buf, put_u32, get_u32}
use comm_networks_workshop.Bytes.Laws.{
  get_u32-put_u32, get_u32-put_u32_ne, get_u32-put_bytes_ne, get_u32-transmit, Holds-put_bytes,
  Holds-transmit,
}
use comm_networks_workshop.Bytes.Strings.{IsText}
use comm_networks_workshop.Packet.{
  code, type_at, length_at, bytes_at, sizeof_packet, eager_protocol_limit, location,
}
use comm_networks_workshop.Fabric.{Fabric, send-transmit}
use comm_networks_workshop.Client.{c_str}
use comm_networks_workshop.Indexer.{Indexer}
use comm_networks_workshop.Indexer.Find.{home, Finds, found_response, home-lt, handle_find_lem}
use comm_networks_workshop.Dkv.{Dkv, find_packet, receive_location, ask_indexer, locate}

module _ (f : Fabric) (key : List ℕ) (text : IsText key) (size : ℕ)
    (covers : length key + sizeof_packet ≤ size) (fits : size ≤ eager_protocol_limit) where
  pub find_packet-Finds :
      (n : ℕ) (b c : Buf) → n < 2 ^ 32 → Finds key n (f.send size (find_packet key n b) c)
  unfolding find_packet code
  find_packet-Finds n b c small =
      let lk = length-append key (0 ∷ []) in
      let w = put_u32 b type_at 8 in
      let x = put_u32 w length_at n in
      rw (send-transmit f) (record {
        kind_is =
            get_u32-transmit size type_at _ c (omega arith)
            ∙ get_u32-put_bytes_ne x type_at bytes_at (c_str key) (omega arith)
            ∙ get_u32-put_u32_ne w type_at length_at n (omega arith)
            ∙ get_u32-put_u32 b type_at 8 (omega arith);
        key_is = (
          text,
          Holds-transmit size bytes_at _ c (c_str key) (omega (arith, lk))
              (Holds-put_bytes x bytes_at (c_str key)),
        );
        servers_are =
            get_u32-transmit size length_at _ c (omega arith)
            ∙ get_u32-put_bytes_ne x length_at bytes_at (c_str key) (omega arith)
            ∙ get_u32-put_u32 w length_at n small;
        fits = omega arith;
      })

  -- The LOCATION as the client finds it.
  location_kind :
      (i : ℕ) (b c : Buf)
      → i < 2 ^ 32
      → get_u32 (f.send sizeof_packet (found_response i b) c) type_at ≡ code location
  unfolding code
  location_kind i b c small = rw (send-transmit f) (
      get_u32-transmit sizeof_packet type_at _ c (omega arith)
      ∙ get_u32-put_u32_ne _ type_at length_at i (omega arith)
      ∙ get_u32-put_u32 b type_at 9 (omega arith))

  location_server :
      (i : ℕ) (b c : Buf)
      → i < 2 ^ 32
      → get_u32 (f.send sizeof_packet (found_response i b) c) length_at ≡ i
  location_server i b c small = rw (send-transmit f) (
      get_u32-transmit sizeof_packet length_at _ c (omega arith)
      ∙ get_u32-put_u32 _ length_at i small)

  -- The answer to a FIND of any size that covers the key.
  pub ask_indexer-home :
      (d : Dkv)
      → 0 < length d.conns
      → length d.conns < 2 ^ 32
      → (b : Buf) × (s : Indexer) × (ask_indexer f size key d
          ≡ ok (record d { indexer_buf = b; indexer = s }, home key (length d.conns)))
  unfolding ask_indexer receive_location code
  ask_indexer-home d pos small =
      let n : ℕ = length d.conns in
      let b : Buf = find_packet key n d.indexer_buf in
      let s : Indexer = record (d.indexer) { buf = f.send size b d.indexer.buf } in
      let t : Indexer = record s { buf = found_response (home key n) s.buf } in
      let c : Buf = f.send sizeof_packet t.buf b in
      let room : leb size eager_protocol_limit ≡ true = ground arith in
      let lt : home key n < 2 ^ 32 = omega (arith, home-lt key n pos) in
      (
        c,
        t,
        rw (
          room,
          handle_find_lem s key n (find_packet-Finds n d.indexer_buf d.indexer.buf small) pos,
          location_kind (home key n) s.buf b lt,
          location_server (home key n) s.buf b lt,
        ),
      )

module _ (f : Fabric) (key : List ℕ) (text : IsText key)
    (fits : length key + sizeof_packet ≤ eager_protocol_limit) where
  -- For a key that fits into a packet and at least one but fewer than 2^32 servers, FIND and
  -- LOCATION give the key's home, the low 32 bits of its djb2 polynomial modulo the number of
  -- servers, and change nothing but the connection to the index server.
  pub locate-home :
      (d : Dkv)
      → 0 < length d.conns
      → length d.conns < 2 ^ 32
      → (b : Buf) × (s : Indexer) × (locate f key d
          ≡ ok (record d { indexer_buf = b; indexer = s }, home key (length d.conns)))
  unfolding locate
  locate-home d pos small =
      ask_indexer-home f key text (length key + sizeof_packet) (omega arith) fits d pos small
