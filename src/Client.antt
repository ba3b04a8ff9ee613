-- ===== src/Client.antt =====
-- The client of Ex4/kv_client.c over one connection: the cache of the last key that went through
-- the rendezvous protocol, and the operations of the `kv_` interface. A C string is the list of its
-- bytes before the NUL. Registering the caller's memory is not part of the state.
pub mod Completions
pub mod Waits
pub mod Packets
pub mod Exchange
pub mod Eager
pub mod Missing
pub mod RoundTrip
pub mod Rendezvous
pub mod Fetch
pub mod Reads
pub mod Shared
use comm_networks_workshop.Base.{
  ℕ, zero, suc, ◌+◌, ◌-◌, ◌*◌, ◌/◌, ◌%◌, ◌^◌, ◌≤◌, ◌<◌, ◌≡◌, refl, sym, ap, ◌∙◌, fun_ext, ◌≢◌, ◌↔◌,
  ◌⊎◌, inl, inr, Bool, true, false, not, ◌&&◌, ◌||◌, Option, none, some, List, [], ◌∷◌, ◌++◌, map,
  arith, ltb, leb, ◌==◌, if◌then◌else◌, ltb→lt, lt→ltb, le→ltb, leb→le, ==_iff, tests, Bool-cases,
  Option-cases, str_eq, str_eq_refl, str_eq_sound, str_eq_iff, length, length-append, get_or, take,
  drop, replicate, length-take, take-append, length-replicate, All, get_or-append_left, get_elem?,
  set_elem, length-set_elem, get_elem?-set_elem, get_elem?-set_elem_ne, get_elem?-below,
  All-get_elem?, get_elem?-lt, take_all, if_true, if_false, ℤ, pos, negsuc, is_negative, rounds,
}
use comm_networks_workshop.Run.{
  Run, ◌>>=◌, ◌>>◌, require, in_bounds, bind-bind, Ensures, Ensures-bind, Ensures-after, bind-ok,
  in_bounds-ok, if-Ensures, Ensures-weaken, if-Ensures_known, Ensures-ok, ok, fault, out_of_fuel,
  error_return, returns, faults, stops, quits,
}
use comm_networks_workshop.Bytes.{
  Buf, put_byte, put_bytes, get_bytes, put_u32, get_u32, put_u64, get_u64, get_str, transmit,
}
use comm_networks_workshop.Packet.{
  Kind, code, kind, kind-code, code-lt, type_at, get_key_at, length_at, bytes_at, get_ptr_at,
  get_rkey_at, set_ptr_at, set_rkey_at, sizeof_packet, sizeof_pointer, eager_protocol_limit,
  max_test_size, min_pool_nodes, eager_get_request, eager_get_response, eager_set_request,
  rendezvous_get_request, rendezvous_get_response, rendezvous_set_request, rendezvous_set_response,
  close_connection, find, location,
}
use comm_networks_workshop.Pool.{
  MemInfo, Mem, Pool, sizeof_memory_info, buffer_addr, zeros, set_next, clear_buffer, set_node,
  take_node, taint, recycle_one, recycle, grow, refill_one, refill, maintain_pool,
}
use comm_networks_workshop.Server.{
  Entry, Server, find_entry, write_entry, request_key, node_rkey, answer_small, answer_large,
  answer_missing, answer_with, answer_get, handle_eager_get, stored_value, overwrite_with,
  overwrite_small, append_entry, store_small, handle_eager_set, answer_location, overwrite_large,
  append_large, store_large, handle_rendezvous_set, dispatch, handle_server_packets_only,
}
use comm_networks_workshop.Fabric.{
  set_buffer, Fabric, send-transmit, ideal_write, ideal_read, ideal_write_registered,
  ideal_read_registered, transmit_copies, transmit_spares, ideal,
}

pub record Client : Type 0 where
  pub buf : Buf
  pub last_rndv_accessed_key : List ℕ
  pub last_accessed_key_val_length : ℕ
  pub last_accessed_server_addr : ℕ
  pub last_accessed_server_rkey : ℕ

-- A client and the server that its queue pair leads to.
pub record Link : Type 0 where
  pub client : Client
  pub server : Server

-- The bytes of a string with its NUL.
abbrev pub c_str : List ℕ → List ℕ
c_str s = s ++ 0 ∷ []

-- The completion of an RDMA read into a block of `n` zeros.
abbrev pub completed_read : ℕ → Option (List ℕ) → List ℕ
completed_read n none = replicate n 0
completed_read n (some v) = v

-- The completion of an RDMA write.
abbrev pub completed_write : Option Mem → Run Mem
completed_write none = error_return
completed_write (some m) = ok m

unfoldable pub set_client_buf : Buf → Link → Link
set_client_buf b l = record l { client = record (l.client) { buf = b } }

module _ (f : Fabric) where
  -- The SEND of a request of `size` bytes, its receipt and the server's handler. The number is the
  -- size of the response.
  unfoldable pub request : ℕ → Link → Run (Link × ℕ)
  request size l = do
    require (leb size eager_protocol_limit)
    (s, n) ←
        handle_server_packets_only
          (record (l.server) { buf = f.send size l.client.buf l.server.buf })
    ok (record l { server = s }, n)

  -- A request that needs no answer: `pp_wait_completions(ctx, 1)`.
  unfoldable pub send_only : ℕ → Link → Run Link
  send_only size l = do (l', n) ← request size l; ok l'

  -- The answer of `n` bytes arrives in the client's buffer; no answer is 0.
  unfoldable pub receive : ℕ → Link → Run Link
  receive n l = if n == 0 then out_of_fuel else (do
    require (leb n eager_protocol_limit)
    ok (set_client_buf (f.send n l.server.buf l.client.buf) l))

  -- A request whose answer arrives in the client's own buffer: `pp_wait_completions(ctx, 2)`,
  -- which waits for ever when the server does not answer.
  unfoldable pub exchange : ℕ → Link → Run Link
  exchange size l = do (l', n) ← request size l; receive n l'

  -- RDMA to and from the server's registered memory. A write that is refused ends `kv_set` with the
  -- return of 1. After a read that is refused the block keeps the zeros of calloc.
  unfoldable pub write_remote : ℕ → ℕ → List ℕ → Link → Run Link
  write_remote addr rkey xs l = do
    m ← completed_write (f.rdma_write l.server.pool.mem addr rkey xs)
    ok (record l { server = record (l.server) { pool = record (l.server.pool) { mem = m } } })

  unfoldable pub read_remote : ℕ → ℕ → ℕ → Link → Run (List ℕ)
  read_remote addr rkey n l = ok (completed_read n (f.rdma_read l.server.pool.mem addr rkey n))

-- memset(last_rndv_accessed_key, '\0', key_length) when the key is the cached one.
unfoldable pub forget_key : List ℕ → Client → Client
forget_key key c =
    if str_eq key c.last_rndv_accessed_key
    then record c { last_rndv_accessed_key = []; last_accessed_key_val_length = 0 }
    else c

unfoldable pub remember_key : List ℕ → ℕ → ℕ → ℕ → Client → Client
remember_key key n addr rkey c = record c {
  last_rndv_accessed_key = key;
  last_accessed_key_val_length = n;
  last_accessed_server_addr = addr;
  last_accessed_server_rkey = rkey;
}

unfoldable pub eager_set_size : List ℕ → List ℕ → ℕ
eager_set_size key value = length key + length value + sizeof_packet + 2

unfoldable pub eager_set_packet : List ℕ → List ℕ → Buf → Buf
eager_set_packet key value b =
    put_bytes
      (put_bytes (put_u32 (put_u32 b type_at (code eager_set_request)) length_at (length value))
        bytes_at (c_str key))
      (bytes_at + length key + 1) (c_str value)

unfoldable pub rendezvous_set_packet : List ℕ → List ℕ → Buf → Buf
rendezvous_set_packet key value b =
    put_bytes
      (put_u32 (put_u32 b type_at (code rendezvous_set_request)) length_at (length value + 1))
      bytes_at (c_str key)

unfoldable pub get_packet : List ℕ → Buf → Buf
get_packet key b = put_bytes (put_u32 b type_at (code eager_get_request)) get_key_at (c_str key)

-- What `kv_get` gives back: the block that `*value` points to, or the return of -1.
pub data Answer : Type 0 where
  got : List ℕ → Answer
  failed : Answer

module _ (f : Fabric) where
  -- The eager branch of `kv_set`.
  unfoldable pub kv_set_eager : List ℕ → List ℕ → Link → Run Link
  kv_set_eager key value l =
      let c = forget_key key l.client in
      send_only f (eager_set_size key value)
        (record l { client = record c { buf = eager_set_packet key value l.client.buf } })

  -- The rendezvous branch for the cached key: the value goes straight to the server's memory.
  unfoldable pub kv_set_cached : List ℕ → Link → Run Link
  kv_set_cached value l =
      let c = l.client in
      let b = put_u32 c.buf type_at (code rendezvous_set_request) in
      write_remote f c.last_accessed_server_addr c.last_accessed_server_rkey (c_str value)
        (record l { client = record c { buf = b; last_accessed_key_val_length = length value } })

  -- The rendezvous branch for another key: ask the server where to write, then write there.
  unfoldable pub kv_set_rendezvous : List ℕ → List ℕ → Link → Run Link
  kv_set_rendezvous key value l = do
    l' ←
        exchange f (length key + 1 + sizeof_packet)
          (set_client_buf (rendezvous_set_packet key value l.client.buf) l)
    let b = l'.client.buf
    require (get_u32 b type_at == code rendezvous_set_response)
    let addr = get_u64 b set_ptr_at
    let rkey = get_u32 b set_rkey_at
    write_remote f addr rkey (c_str value)
        (record l' { client = remember_key key (length value) addr rkey l'.client })

  unfoldable pub kv_set : List ℕ → List ℕ → Link → Run Link
  kv_set key value l =
      if ltb (eager_set_size key value) eager_protocol_limit
      then kv_set_eager key value l
      else if str_eq key l.client.last_rndv_accessed_key
      then kv_set_cached value l
      else kv_set_rendezvous key value l

  -- case EAGER_GET_RESPONSE: a copy of the value, and a NUL behind it.
  unfoldable pub take_small : Link → Run (Answer × Link)
  take_small l =
      let b = l.client.buf in
      let value_len = get_u32 b length_at in
      do
        require (leb (bytes_at + value_len) eager_protocol_limit)
        ok (got (get_bytes b bytes_at value_len ++ 0 ∷ []), l)

  -- case RENDEZVOUS_GET_RESPONSE: an RDMA read of value_len + 1 bytes.
  unfoldable pub take_large : List ℕ → Link → Run (Answer × Link)
  take_large key l = do
    let b = l.client.buf
    let value_len = get_u32 b length_at
    let addr = get_u64 b get_ptr_at
    let rkey = get_u32 b get_rkey_at
    let l' = record l { client = remember_key key value_len addr rkey l.client }
    v ← read_remote f addr rkey (value_len + 1) l'
    ok (got v, l')

  unfoldable pub take_response : Option Kind → List ℕ → Link → Run (Answer × Link)
  take_response (some eager_get_response) key l = take_small l
  take_response (some rendezvous_get_response) key l = take_large key l
  take_response (some _) key l = ok (failed, l)
  take_response none key l = ok (failed, l)

  -- The branch of `kv_get` that asks the server.
  unfoldable pub kv_get_request : List ℕ → Link → Run (Answer × Link)
  kv_get_request key l = do
    l' ←
        exchange f (length key + 1 + sizeof_packet) (set_client_buf (get_packet key l.client.buf) l)
    take_response (kind (get_u32 l'.client.buf type_at)) key l'

  -- The branch for the cached key: an RDMA read into a zeroed block of one byte more.
  unfoldable pub kv_get_cached : Link → Run (Answer × Link)
  kv_get_cached l = do
    let c = l.client
    v ←
        read_remote f c.last_accessed_server_addr c.last_accessed_server_rkey
          c.last_accessed_key_val_length l
    ok (got (v ++ 0 ∷ []), l)

  unfoldable pub kv_get : List ℕ → Link → Run (Answer × Link)
  kv_get key l =
      if ltb eager_protocol_limit (length key + 1 + sizeof_packet)
      then ok (failed, l)
      else if str_eq key l.client.last_rndv_accessed_key
      then kv_get_cached l
      else kv_get_request key l

  -- The close packet; destroying the queue pair afterwards is not part of the state.
  unfoldable pub kv_close : Link → Run Link
  kv_close l = send_only f sizeof_packet (
      set_client_buf (put_u32 (put_u32 l.client.buf type_at (code close_connection)) length_at 1) l)
