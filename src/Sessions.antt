-- ===== src/Sessions.antt =====
-- Opening and closing all connections in Ex4/kv_client.c: `mkv_open`, `mkv_close`, `dkv_open` and
-- `dkv_close`. What the connection of `orig_main` gives is a parameter here; Setup has the function.
pub mod Closing
pub mod Opening
use comm_networks_workshop.Base.{
  ℕ, zero, suc, ◌+◌, ◌-◌, ◌*◌, ◌/◌, ◌%◌, ◌^◌, ◌≤◌, ◌<◌, ◌≡◌, refl, sym, ap, ◌∙◌, fun_ext, ◌≢◌, ◌↔◌,
  ◌⊎◌, inl, inr, Bool, true, false, not, ◌&&◌, ◌||◌, Option, none, some, List, [], ◌∷◌, ◌++◌, map,
  arith, ltb, leb, ◌==◌, if◌then◌else◌, ltb→lt, lt→ltb, le→ltb, leb→le, ==_iff, tests, Bool-cases,
  Option-cases, str_eq, str_eq_refl, str_eq_sound, str_eq_iff, length, length-append, get_or, take,
  drop, replicate, length-take, take-append, length-replicate, All, get_or-append_left, get_elem?,
  set_elem, length-set_elem, get_elem?-set_elem, get_elem?-set_elem_ne, get_elem?-below,
  All-get_elem?, ℤ, pos, negsuc, is_negative, rounds,
}
use comm_networks_workshop.Run.{
  Run, ◌>>=◌, ◌>>◌, require, in_bounds, Ensures, Ensures-bind, Ensures-after, bind-ok, in_bounds-ok,
  ok, fault, out_of_fuel, returns, faults, stops,
}
use comm_networks_workshop.Bytes.{
  Buf, put_byte, put_bytes, get_bytes, put_u32, get_u32, put_u64, get_u64, get_str, transmit,
}
use comm_networks_workshop.Packet.{
  Kind, code, kind, kind-code, code-lt, type_at, get_key_at, length_at, bytes_at, get_ptr_at,
  get_rkey_at, set_ptr_at, set_rkey_at, sizeof_packet, sizeof_pointer, eager_protocol_limit,
  max_test_size, min_pool_nodes, eager_get_request, eager_get_response, eager_set_request,
  rendezvous_get_request, rendezvous_get_response, rendezvous_set_request, rendezvous_set_response,
  close_connection, find, location,
}
use comm_networks_workshop.Fabric.{
  set_buffer, Fabric, send-transmit, ideal_write, ideal_read, ideal_write_registered,
  ideal_read_registered, transmit_copies, transmit_spares, ideal,
}
use comm_networks_workshop.Server.{
  Entry, Server, find_entry, write_entry, request_key, node_rkey, answer_small, answer_large,
  answer_missing, answer_with, answer_get, handle_eager_get, stored_value, overwrite_with,
  overwrite_small, append_entry, store_small, handle_eager_set, answer_location, overwrite_large,
  append_large, store_large, handle_rendezvous_set, dispatch, handle_server_packets_only,
}
use comm_networks_workshop.Client.{
  Client, Link, c_str, set_client_buf, request, send_only, receive, exchange, write_remote,
  read_remote, forget_key, remember_key, eager_set_size, eager_set_packet, rendezvous_set_packet,
  get_packet, Answer, kv_set_eager, kv_set_cached, kv_set_rendezvous, kv_set, take_small,
  take_large, take_response, kv_get_request, kv_get_cached, kv_get, kv_close, got, failed,
}
use comm_networks_workshop.Indexer.{
  ulong, hash_from, hash_key, Indexer, select_server, handle_find, handle, handle_indexer_packet,
}
use comm_networks_workshop.Dkv.{
  Conn, Dkv, link_of, put_link, count_servers, find_packet, mkv_set, mkv_get, receive_location,
  locate, dkv_set, dkv_get,
}
use comm_networks_workshop.Args.{
  Address, skip_colons, token, behind_token, non_empty, first_token, second_token, scan_base,
  negate, atoi, scan_any_base, strtol, to_short, token_port, parse_address, default_srv_port,
  default_idx_port, terminator, parse_servers, Parsed, parse_args, parse_args_single, exits, fails,
  parsed,
}

-- The connection to a server; `none` is the return of 1.
module _ (connect : Address → Option Conn) where
  -- The loop of `mkv_open`.
  unfoldable pub open_all : List Address → Option (List Conn)
  open_all [] = some []
  open_all (a ∷ servers) = elim (connect a) [
    | none ↦ none
    | some c ↦ elim (open_all servers) [ none ↦ none | some cs ↦ some (c ∷ cs) ]
  ]

  unfoldable pub mkv_open : List Address → Run (Option (List Conn))
  mkv_open servers = do
    n ← count_servers (map (λ a. a.servername) servers)
    ok (open_all (take n servers))

unfoldable pub new_dkv : Buf → Client → Indexer → Option (List Conn) → Option Dkv
new_dkv b c i none = none
new_dkv b c i (some conns) =
    some (record { indexer_buf = b; indexer = i; conns = conns; globals = c })

-- The index server is connected to first, with the buffer `b`; `c` are the global variables.
unfoldable pub dkv_open :
    (Address → Option Conn)
    → (Address → Option Indexer)
    → Buf
    → Client
    → List Address
    → Address
    → Run (Option Dkv)
dkv_open connect connect_indexer b c servers indexer = elim (connect_indexer indexer) [
  | none ↦ ok none
  | some i ↦ do conns ← mkv_open connect servers; ok (new_dkv b c i conns)
]

unfoldable pub close_packet : Buf → Buf
close_packet b = put_u32 (put_u32 b type_at (code close_connection)) length_at 1

module _ (f : Fabric) where
  -- The loop of `mkv_close`, with the client's global variables.
  unfoldable pub mkv_close : List Conn → Client → Run (List Conn)
  mkv_close [] c = ok []
  mkv_close (conn ∷ conns) c = do
    l ← kv_close f (record { client = record c { buf = conn.ctx_buf }; server = conn.server })
    rest ← mkv_close conns c
    ok (record { ctx_buf = l.client.buf; server = l.server } ∷ rest)

  -- `kv_close(ctx->indexer)`
  unfoldable pub close_indexer : Buf → Indexer → Run Indexer
  close_indexer b i = do
    require (leb sizeof_packet eager_protocol_limit)
    (i', n) ← handle_indexer_packet (record i { buf = f.send sizeof_packet (close_packet b) i.buf })
    ok i'

  unfoldable pub dkv_close : Dkv → Run Dkv
  dkv_close d = do
    i ← close_indexer d.indexer_buf d.indexer
    conns ← mkv_close d.conns d.globals
    ok (record d { indexer_buf = close_packet d.indexer_buf; indexer = i; conns = conns })
