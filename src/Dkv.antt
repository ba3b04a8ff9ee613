-- ===== src/Dkv.antt =====
-- The client over several servers of Ex4/kv_client.c: `mkv_` addresses a server by its number, and
-- `dkv_` asks the index server for that number. The cache of the rendezvous protocol is global, so
-- all connections share it.
pub mod Route
pub mod RoundTrip
pub mod Refines
pub mod Sequence
use comm_networks_workshop.Base.{
  ℕ, zero, suc, ◌+◌, ◌-◌, ◌*◌, ◌/◌, ◌%◌, ◌^◌, ◌≤◌, ◌<◌, ◌≡◌, refl, sym, ap, ◌∙◌, fun_ext, ◌≢◌, ◌↔◌,
  ◌⊎◌, inl, inr, Bool, true, false, not, ◌&&◌, ◌||◌, Option, none, some, List, [], ◌∷◌, ◌++◌, map,
  arith, ltb, leb, ◌==◌, if◌then◌else◌, ltb→lt, lt→ltb, le→ltb, leb→le, ==_iff, tests, Bool-cases,
  Option-cases, str_eq, str_eq_refl, str_eq_sound, str_eq_iff, length, length-append, get_or, take,
  drop, replicate, length-take, take-append, length-replicate, All, get_or-append_left, get_elem?,
  set_elem, length-set_elem, get_elem?-set_elem, get_elem?-set_elem_ne, get_elem?-below,
  All-get_elem?,
}
use comm_networks_workshop.Run.{
  Run, ◌>>=◌, ◌>>◌, require, in_bounds, Ensures, Ensures-bind, Ensures-after, ok, fault,
  out_of_fuel, returns, faults, stops,
}
use comm_networks_workshop.Bytes.{
  Buf, put_byte, put_bytes, get_bytes, put_u32, get_u32, put_u64, get_u64, get_str, transmit,
}
use comm_networks_workshop.Packet.{
  Kind, code, kind, kind-code, code-lt, type_at, get_key_at, length_at, bytes_at, get_ptr_at,
  get_rkey_at, set_ptr_at, set_rkey_at, sizeof_packet, sizeof_pointer, eager_protocol_limit,
  max_test_size, min_pool_nodes, eager_get_request, eager_get_response, eager_set_request,
  rendezvous_get_request, rendezvous_get_response, rendezvous_set_request, rendezvous_set_response,
  close_connection, find, location,
}
use comm_networks_workshop.Fabric.{
  set_buffer, Fabric, send-transmit, ideal_write, ideal_read, ideal_write_registered,
  ideal_read_registered, transmit_copies, transmit_spares, ideal,
}
use comm_networks_workshop.Server.{
  Entry, Server, find_entry, write_entry, request_key, node_rkey, answer_small, answer_large,
  answer_missing, answer_with, answer_get, handle_eager_get, stored_value, overwrite_with,
  overwrite_small, append_entry, store_small, handle_eager_set, answer_location, overwrite_large,
  append_large, store_large, handle_rendezvous_set, dispatch, handle_server_packets_only,
}
use comm_networks_workshop.Client.{
  Client, Link, c_str, set_client_buf, request, send_only, receive, exchange, write_remote,
  read_remote, forget_key, remember_key, eager_set_size, eager_set_packet, rendezvous_set_packet,
  get_packet, Answer, kv_set_eager, kv_set_cached, kv_set_rendezvous, kv_set, take_small,
  take_large, take_response, kv_get_request, kv_get_cached, kv_get, kv_close, got, failed,
}
use comm_networks_workshop.Indexer.{
  ulong, hash_from, hash_key, Indexer, select_server, handle_find, handle, handle_indexer_packet,
}

-- `kv_ctxs[i]`: the client's buffer, and the server at the other end.
pub record Conn : Type 0 where
  pub ctx_buf : Buf
  pub server : Server

-- `globals` carries the cache; `indexer_buf` is the buffer of the connection to the index server.
pub record Dkv : Type 0 where
  pub indexer_buf : Buf
  pub indexer : Indexer
  pub conns : List Conn
  pub globals : Client

abbrev pub link_of : Dkv → Conn → Link
link_of d c = record { client = record (d.globals) { buf = c.ctx_buf }; server = c.server }

-- `d` after a call that used connection `i`.
abbrev pub put_link : ℕ → Link → Dkv → Dkv
put_link i l d = record d {
  conns = set_elem d.conns i (record { ctx_buf = l.client.buf; server = l.server });
  globals = l.client;
}

-- `while (servers[count++].servername);` and `count - 1`: the names before the first NULL; a list
-- that holds no NULL is read past its end.
unfoldable pub count_servers : List (Option (List ℕ)) → Run ℕ
count_servers [] = fault
count_servers (none ∷ servers) = ok 0
count_servers (some name ∷ servers) = do n ← count_servers servers; ok (n + 1)

unfoldable pub find_packet : List ℕ → ℕ → Buf → Buf
find_packet key n b =
    put_bytes (put_u32 (put_u32 b type_at (code find)) length_at n) bytes_at (c_str key)

module _ (f : Fabric) where
  unfoldable pub mkv_set : ℕ → List ℕ → List ℕ → Dkv → Run Dkv
  mkv_set kv_id key value d = do
    c ← in_bounds (get_elem? d.conns kv_id)
    l ← kv_set f key value (link_of d c)
    ok (put_link kv_id l d)

  unfoldable pub mkv_get : ℕ → List ℕ → Dkv → Run (Answer × Dkv)
  mkv_get kv_id key d = do
    c ← in_bounds (get_elem? d.conns kv_id)
    (v, l) ← kv_get f key (link_of d c)
    ok (v, put_link kv_id l d)

  -- The index server's answer of `n` bytes arrives; no answer is 0.
  unfoldable pub receive_location : Buf → Indexer → ℕ → Dkv → Run (Dkv × ℕ)
  receive_location b s n d =
      if n == 0
      then out_of_fuel
      else (let b' = f.send n s.buf b in
          do
            require (leb n eager_protocol_limit)
            require (get_u32 b' type_at == code location)
            ok (record d { indexer_buf = b'; indexer = s }, get_u32 b' length_at))

  -- FIND in a message of `size` bytes, and the LOCATION that answers it.
  unfoldable pub ask_indexer : ℕ → List ℕ → Dkv → Run (Dkv × ℕ)
  ask_indexer size key d =
      let b = find_packet key (length d.conns) d.indexer_buf in
      do
        require (leb size eager_protocol_limit)
        (s, n) ← handle_indexer_packet (record (d.indexer) { buf = f.send size b d.indexer.buf })
        receive_location b s n d

  -- Steps 1 and 2 of `dkv_set` and `dkv_get`.
  unfoldable pub locate : List ℕ → Dkv → Run (Dkv × ℕ)
  locate key d = ask_indexer (length key + sizeof_packet) key d

  unfoldable pub dkv_set : List ℕ → List ℕ → Dkv → Run Dkv
  dkv_set key value d = do (d', kv_id) ← locate key d; mkv_set kv_id key value d'

  unfoldable pub dkv_get : List ℕ → Dkv → Run (Answer × Dkv)
  dkv_get key d = do (d', kv_id) ← locate key d; mkv_get kv_id key d'
