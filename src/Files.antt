-- ===== src/Files.antt =====
-- `kv_set` and `kv_get` of Ex4/nweb23.c, the variant of the client that stores files: a value is any
-- sequence of bytes, its length is passed along, and a packet has no NUL behind it. The sizes of
-- packets are below 2^32.
pub mod Eager
pub mod Cached
pub mod Spread
pub mod RoundTrip
pub mod Folder
pub mod Located
use comm_networks_workshop.Base.{
  ℕ, zero, suc, ◌+◌, ◌-◌, ◌*◌, ◌/◌, ◌%◌, ◌^◌, ◌≤◌, ◌<◌, ◌≡◌, refl, sym, ap, ◌∙◌, fun_ext, ◌≢◌, ◌↔◌,
  ◌⊎◌, inl, inr, Bool, true, false, not, ◌&&◌, ◌||◌, Option, none, some, List, [], ◌∷◌, ◌++◌, map,
  arith, ltb, leb, ◌==◌, if◌then◌else◌, ltb→lt, lt→ltb, le→ltb, leb→le, ==_iff, tests, Bool-cases,
  Option-cases, str_eq, str_eq_refl, str_eq_sound, str_eq_iff, length, length-append, get_or, take,
  drop, replicate, length-take, take-append, length-replicate, All, get_or-append_left, get_elem?,
  set_elem, length-set_elem, get_elem?-set_elem, get_elem?-set_elem_ne, get_elem?-below,
  All-get_elem?, ℤ, pos, negsuc, is_negative, rounds,
}
use comm_networks_workshop.Run.{
  Run, ◌>>=◌, ◌>>◌, require, in_bounds, Ensures, Ensures-bind, Ensures-after, bind-ok, in_bounds-ok,
  ok, fault, out_of_fuel, returns, faults, stops,
}
use comm_networks_workshop.Bytes.{
  Buf, put_byte, put_bytes, get_bytes, put_u32, get_u32, put_u64, get_u64, get_str, transmit,
}
use comm_networks_workshop.Packet.{
  Kind, code, kind, kind-code, code-lt, type_at, get_key_at, length_at, bytes_at, get_ptr_at,
  get_rkey_at, set_ptr_at, set_rkey_at, sizeof_packet, sizeof_pointer, eager_protocol_limit,
  max_test_size, min_pool_nodes, eager_get_request, eager_get_response, eager_set_request,
  rendezvous_get_request, rendezvous_get_response, rendezvous_set_request, rendezvous_set_response,
  close_connection, find, location,
}
use comm_networks_workshop.Fabric.{
  set_buffer, Fabric, send-transmit, ideal_write, ideal_read, ideal_write_registered,
  ideal_read_registered, transmit_copies, transmit_spares, ideal,
}
use comm_networks_workshop.Server.{
  Entry, Server, find_entry, write_entry, request_key, node_rkey, answer_small, answer_large,
  answer_missing, answer_with, answer_get, handle_eager_get, stored_value, overwrite_with,
  overwrite_small, append_entry, store_small, handle_eager_set, answer_location, overwrite_large,
  append_large, store_large, handle_rendezvous_set, dispatch, handle_server_packets_only,
}
use comm_networks_workshop.Client.{
  Client, Link, c_str, set_client_buf, request, send_only, receive, exchange, write_remote,
  read_remote, forget_key, remember_key, eager_set_size, eager_set_packet, rendezvous_set_packet,
  get_packet, Answer, kv_set_eager, kv_set_cached, kv_set_rendezvous, kv_set, take_small,
  take_large, take_response, kv_get_request, kv_get_cached, kv_get, kv_close, got, failed,
}

-- The block that `*value` points to and what is stored in `*length`, `none` when it is left as it
-- was; or the return of -1.
pub data FileAnswer : Type 0 where
  got_file : List ℕ → Option ℕ → FileAnswer
  no_file : FileAnswer

unfoldable pub file_set_size : List ℕ → List ℕ → ℕ
file_set_size key value = length key + 1 + length value + sizeof_packet

unfoldable pub file_set_packet : List ℕ → List ℕ → Buf → Buf
file_set_packet key value b =
    put_u32
      (put_bytes (put_bytes (put_u32 b type_at (code eager_set_request)) bytes_at (c_str key))
        (bytes_at + length key + 1) value)
      length_at (length value)

unfoldable pub file_rendezvous_packet : List ℕ → List ℕ → Buf → Buf
file_rendezvous_packet key value b =
    put_bytes (put_u32 (put_u32 b type_at (code rendezvous_set_request)) length_at (length value))
      bytes_at (c_str key)

module _ (f : Fabric) where
  unfoldable pub kv_set_file_eager : List ℕ → List ℕ → Link → Run Link
  kv_set_file_eager key value l =
      let c = forget_key key l.client in
      send_only f (file_set_size key value)
        (record l { client = record c { buf = file_set_packet key value l.client.buf } })

  -- The branch for the cached key writes one byte more than the value has, `beyond`.
  unfoldable pub kv_set_file_cached : ℕ → List ℕ → Link → Run Link
  kv_set_file_cached beyond value l =
      let c = l.client in
      let b = put_u32 c.buf type_at (code rendezvous_set_request) in
      write_remote f c.last_accessed_server_addr c.last_accessed_server_rkey (value ++ beyond ∷ [])
        (record l { client = record c { buf = b; last_accessed_key_val_length = length value } })

  unfoldable pub kv_set_file_rendezvous : List ℕ → List ℕ → Link → Run Link
  kv_set_file_rendezvous key value l = do
    l' ←
        exchange f (length key + 1 + sizeof_packet)
          (set_client_buf (file_rendezvous_packet key value l.client.buf) l)
    let b = l'.client.buf
    require (get_u32 b type_at == code rendezvous_set_response)
    let addr = get_u64 b set_ptr_at
    let rkey = get_u32 b set_rkey_at
    write_remote f addr rkey value
        (record l' { client = remember_key key (length value) addr rkey l'.client })

  unfoldable pub kv_set_file : ℕ → List ℕ → List ℕ → Link → Run Link
  kv_set_file beyond key value l =
      if ltb (file_set_size key value) eager_protocol_limit
      then kv_set_file_eager key value l
      else if str_eq key l.client.last_rndv_accessed_key
      then kv_set_file_cached beyond value l
      else kv_set_file_rendezvous key value l

  unfoldable pub take_small_file : Link → Run (FileAnswer × Link)
  take_small_file l =
      let b = l.client.buf in
      let value_len = get_u32 b length_at in
      do
        require (leb (bytes_at + value_len) eager_protocol_limit)
        ok (got_file (get_bytes b bytes_at value_len ++ 0 ∷ []) (some value_len), l)

  unfoldable pub take_large_file : List ℕ → Link → Run (FileAnswer × Link)
  take_large_file key l = do
    let b = l.client.buf
    let value_len = get_u32 b length_at
    let addr = get_u64 b get_ptr_at
    let rkey = get_u32 b get_rkey_at
    let l' = record l { client = remember_key key value_len addr rkey l.client }
    v ← read_remote f addr rkey (value_len + 1) l'
    ok (got_file v (some value_len), l')

  unfoldable pub take_file : Option Kind → List ℕ → Link → Run (FileAnswer × Link)
  take_file (some eager_get_response) key l = take_small_file l
  take_file (some rendezvous_get_response) key l = take_large_file key l
  take_file (some _) key l = ok (no_file, l)
  take_file none key l = ok (no_file, l)

  unfoldable pub kv_get_file_request : List ℕ → Link → Run (FileAnswer × Link)
  kv_get_file_request key l = do
    l' ←
        exchange f (length key + 1 + sizeof_packet) (set_client_buf (get_packet key l.client.buf) l)
    take_file (kind (get_u32 l'.client.buf type_at)) key l'

  -- The branch for the cached key does not store the length.
  unfoldable pub kv_get_file_cached : Link → Run (FileAnswer × Link)
  kv_get_file_cached l = do
    let c = l.client
    v ←
        read_remote f c.last_accessed_server_addr c.last_accessed_server_rkey
          c.last_accessed_key_val_length l
    ok (got_file (v ++ 0 ∷ []) none, l)

  unfoldable pub kv_get_file : List ℕ → Link → Run (FileAnswer × Link)
  kv_get_file key l =
      if ltb eager_protocol_limit (length key + 1 + sizeof_packet)
      then ok (no_file, l)
      else if str_eq key l.client.last_rndv_accessed_key
      then kv_get_file_cached l
      else kv_get_file_request key l
