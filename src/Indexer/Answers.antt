-- ===== src/Indexer/Answers.antt =====
-- How the loop of Ex4/kv_indexer.c answers the FIND that a client sends.
use comm_networks_workshop.Base.{
  ℕ, ◌+◌, ◌-◌, ◌%◌, ◌^◌, ◌≤◌, ◌<◌, ◌≡◌, refl, ◌∙◌, Bool, true, false, none, some, List, [], ◌∷◌,
  ◌++◌, arith, length,
}
use comm_networks_workshop.Run.{ok}
use comm_networks_workshop.Bytes.{Buf, put_u32, get_u32, get_str}
use comm_networks_workshop.Bytes.Laws.{get_u32-put_u32, get_u32-put_u32_ne}
use comm_networks_workshop.Bytes.Strings.{IsText, get_str-Holds}
use comm_networks_workshop.Packet.{
  code, kind-code, type_at, length_at, bytes_at, sizeof_packet, eager_protocol_limit, find,
  location,
}
use comm_networks_workshop.Fabric.{Fabric}
use comm_networks_workshop.Serve.{Wc, recv_wrid, completed}
use comm_networks_workshop.Indexer.Hash.{djb2}
use comm_networks_workshop.Indexer.Find.{home, Finds, found_response, select_server-home, home-lt}
use comm_networks_workshop.Indexer.Database.{
  IndexStore, request_string, index_find, index_dispatch, handle_index_packet,
}
use comm_networks_workshop.Indexer.Loop.{
  IndexServed, receive_index_packet, index_completion, index_completions, index_wait,
}
use comm_networks_workshop.Dkv.{find_packet}
use comm_networks_workshop.Dkv.Route.{find_packet-Finds}

handle_index_packet-find :
    (s : IndexStore) (key : List ℕ) (n : ℕ)
    → Finds key n s.buf
    → 0 < n
    → handle_index_packet s
      ≡ ok (record s { buf = found_response (home key n) s.buf }, sizeof_packet)
unfolding handle_index_packet index_dispatch index_find request_string code
handle_index_packet-find s key n h pos =
    let servers : get_u32 (put_u32 s.buf type_at (code location)) length_at ≡ n =
      get_u32-put_u32_ne s.buf length_at type_at (code location) (omega arith) ∙ h.servers_are in
    let read : get_str (eager_protocol_limit - bytes_at) s.buf bytes_at ≡ some key =
      get_str-Holds _ s.buf bytes_at key h.key_is.0 h.key_is.1 (omega (arith, h.fits)) in
    rw (h.kind_is, kind-code find) (rw (read, servers, select_server-home key n pos) refl)

-- What a client's FIND among `n` servers makes of the index server.
abbrev answered : Fabric → List ℕ → ℕ → Buf → ℕ → IndexServed → IndexServed
answered f key n b size t =
    let a = found_response (home key n) (f.send size (find_packet key n b) t.store.buf) in
    record t {
      store = record (t.store) { buf = a };
      sent = t.sent ++ (sizeof_packet, a) ∷ [];
      posted = t.posted + 1;
    }

abbrev pub arrived : List ℕ → ℕ → Buf → ℕ → Wc
arrived key n b size = record {
  success = true;
  wr_id = recv_wrid;
  sender = find_packet key n b;
  byte_len = size;
}

receive_index_packet-find :
    (f : Fabric) (dereg_mr : ℕ → Bool) (fuel : ℕ) (key : List ℕ) (n : ℕ) (b : Buf) (size : ℕ)
    (t : IndexServed)
    → IsText key
    → length key + sizeof_packet ≤ size
    → size ≤ eager_protocol_limit
    → 0 < n
    → n < 2 ^ 32
    → t.store.close_server ≡ false
    → receive_index_packet f dereg_mr fuel (arrived key n b size) t
      ≡ ok (answered f key n b size t, none)
unfolding receive_index_packet
receive_index_packet-find f dereg_mr fuel key n b size t text covers fits some_servers few open_is =
    let c : Buf = f.send size (find_packet key n b) t.store.buf in
    let s : IndexStore = record (t.store) { buf = c } in
    let asks = find_packet-Finds f key text size covers fits n b t.store.buf few in
    rw (handle_index_packet-find s key n asks some_servers) (rw open_is refl)

-- When a client's FIND of a text key among at least one and fewer than 2^32 servers reaches the
-- index server, which is not closed: one `pp_wait_completions` completes, a new receive is posted,
-- the database keeps its entries and nodes, and the one answer sent is a LOCATION with the
-- remainder of the key's djb2 hash, cut to 32 bits, by the number of servers.
pub index_wait-find :
    (f : Fabric) (dereg_mr : ℕ → Bool) (fuel : ℕ) (key : List ℕ) (n : ℕ) (b : Buf) (size : ℕ)
    (t : IndexServed)
    → IsText key
    → length key + sizeof_packet ≤ size
    → size ≤ eager_protocol_limit
    → 0 < n
    → n < 2 ^ 32
    → t.store.close_server ≡ false
    → (a : Buf) × (index_wait f dereg_mr fuel (some (arrived key n b size ∷ []) ∷ []) 1 0 t
        ≡ ok (
          record t {
            store = record (t.store) { buf = a };
            sent = t.sent ++ (sizeof_packet, a) ∷ [];
            posted = t.posted + 1;
          },
          completed,
          [],
        ))
      × (get_u32 a type_at ≡ code location)
      × (get_u32 a length_at ≡ djb2 5381 key % 2 ^ 32 % n)
unfolding index_wait index_completions index_completion code
index_wait-find f dereg_mr fuel key n b size t text covers fits some_servers few open_is =
    let c : Buf = f.send size (find_packet key n b) t.store.buf in
    let small = home-lt key n some_servers in
    (
      found_response (home key n) c,
      rw
          (receive_index_packet-find f dereg_mr fuel key n b size t text covers fits some_servers
            few open_is)
          refl,
      get_u32-put_u32_ne _ type_at length_at (home key n) (omega arith)
          ∙ get_u32-put_u32 c type_at 9 (omega arith),
      get_u32-put_u32 _ length_at (home key n) (omega (arith, small)),
    )
