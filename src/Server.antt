-- ===== src/Server.antt =====
-- The database and the packet handler of Ex4/kv_server.c. `ctx->buf` holds the request when the
-- handler is called, and the response is written over it. The entry list is owned by the globals
-- `entries_head` and `entries_tail` alone, so it is a list here, and a new entry goes to its end.
pub mod Entries
pub mod Valid
pub mod Keeps
pub mod Lookup
pub mod Answers
pub mod Large
use comm_networks_workshop.Base.{
  ℕ, zero, suc, ◌+◌, ◌-◌, ◌*◌, ◌/◌, ◌%◌, ◌^◌, ◌≤◌, ◌<◌, ◌≡◌, refl, sym, ap, ◌∙◌, fun_ext, ◌≢◌, ◌↔◌,
  ◌⊎◌, inl, inr, Bool, true, false, not, ◌&&◌, ◌||◌, Option, none, some, List, [], ◌∷◌, ◌++◌, map,
  arith, ltb, leb, ◌==◌, if◌then◌else◌, ltb→lt, lt→ltb, le→ltb, leb→le, ==_iff, tests, Bool-cases,
  Option-cases, str_eq, str_eq_refl, str_eq_sound, str_eq_iff, length, length-append, get_or, take,
  drop, replicate, length-take, take-append, length-replicate, All,
}
use comm_networks_workshop.Run.{Run, ok, fault, ◌>>=◌, ◌>>◌, require, in_bounds}
use comm_networks_workshop.Bytes.{
  Buf, put_byte, put_bytes, get_bytes, put_u32, get_u32, put_u64, get_str,
}
use comm_networks_workshop.Packet.{
  Kind, kind, code, eager_get_request, eager_get_response, eager_set_request,
  rendezvous_get_request, rendezvous_get_response, rendezvous_set_request, rendezvous_set_response,
  close_connection, find, location, type_at, get_key_at, length_at, bytes_at, get_ptr_at,
  get_rkey_at, set_ptr_at, set_rkey_at, sizeof_packet, sizeof_pointer, eager_protocol_limit,
}
use comm_networks_workshop.Pool.{Pool, take_node, taint, buffer_addr}

-- `KV_ENTRY`: `value` is `none` for NULL, `large_val_mem_info` is the address of a pool node or 0.
pub record Entry : Type 0 where
  pub key : List ℕ
  pub key_len : ℕ
  pub value : Option (List ℕ)
  pub val_len : ℕ
  pub large_val_mem_info : ℕ

pub record Server : Type 0 where
  pub entries : List Entry
  pub entries_counter : ℕ
  pub pool : Pool
  pub buf : Buf
  pub close_server : Bool

-- The walk over the entries that looks for a key.
unfoldable pub find_entry : List ℕ → List Entry → Option Entry
find_entry k [] = none
find_entry k (e ∷ es) = if str_eq e.key k then some e else find_entry k es

-- The entry that the walk stops at is written in place.
unfoldable pub write_entry : List ℕ → Entry → List Entry → List Entry
write_entry k e' [] = []
write_entry k e' (e ∷ es) = if str_eq e.key k then e' ∷ es else e ∷ write_entry k e' es

-- The key of a request, up to its NUL, at `off` in a buffer of EAGER_PROTOCOL_LIMIT bytes.
unfoldable pub request_key : ℕ → Buf → Run (List ℕ)
request_key off b = in_bounds (get_str (eager_protocol_limit - off) b off)

-- The `rkey` of the node at `a`, through two pointers.
unfoldable pub node_rkey : Pool → ℕ → Run ℕ
node_rkey p a = if a == 0 then fault else in_bounds (p.mem a).rndv_mr

unfoldable pub answer_small : Server → Entry → List ℕ → Run (Server × ℕ)
answer_small s e v = do
  require (leb (bytes_at + e.val_len) eager_protocol_limit)
  ok (
    record s {
      buf =
          put_bytes (put_u32 (put_u32 s.buf type_at (code eager_get_response)) length_at e.val_len)
            bytes_at (take e.val_len v);
    },
    sizeof_packet + e.val_len,
  )

unfoldable pub answer_large : Server → Entry → Run (Server × ℕ)
answer_large s e = do
  rkey ← node_rkey s.pool e.large_val_mem_info
  ok (
    record s {
      buf =
          put_u32
            (put_u64
              (put_u32 (put_u32 s.buf type_at (code rendezvous_get_response)) length_at e.val_len)
              get_ptr_at (buffer_addr e.large_val_mem_info))
            get_rkey_at rkey;
    },
    sizeof_packet,
  )

-- The size is that of a pointer, not of the packet.
unfoldable pub answer_missing : Server → Server × ℕ
answer_missing s = (
  record s {
    buf =
        put_u32 (put_byte (put_u32 s.buf type_at (code eager_get_response)) bytes_at 0) length_at 1;
  },
  sizeof_pointer + 1,
)

unfoldable pub answer_with : Server → Entry → Option (List ℕ) → Run (Server × ℕ)
answer_with s e none = answer_large s e
answer_with s e (some v) = answer_small s e v

unfoldable pub answer_get : Server → Option Entry → Run (Server × ℕ)
answer_get s none = ok (answer_missing s)
answer_get s (some e) = answer_with s e e.value

-- case EAGER_GET_REQUEST
unfoldable pub handle_eager_get : Server → Run (Server × ℕ)
handle_eager_get s = do key ← request_key get_key_at s.buf; answer_get s (find_entry key s.entries)

-- The value bytes after memcpy into a buffer that is kept when the length is the old one.
unfoldable pub stored_value : Entry → ℕ → List ℕ → List ℕ → List ℕ
stored_value e vlen old v = if e.val_len == vlen then v ++ drop vlen old else v

-- An entry whose value was in a pool node gives the node up.
unfoldable pub overwrite_with : Server → Entry → ℕ → List ℕ → Option (List ℕ) → Server
overwrite_with s e vlen v none = record s {
  pool = taint e.large_val_mem_info s.pool;
  entries =
      write_entry e.key (record e { large_val_mem_info = 0; val_len = vlen; value = some v })
        s.entries;
}
overwrite_with s e vlen v (some old) = record s {
  entries =
      write_entry e.key (record e { val_len = vlen; value = some (stored_value e vlen old v) })
        s.entries;
}

unfoldable pub overwrite_small : Server → Entry → ℕ → List ℕ → Server
overwrite_small s e vlen v = overwrite_with s e vlen v e.value

unfoldable pub append_entry : Server → Entry → Server
append_entry s e = record s {
  entries = s.entries ++ e ∷ [];
  entries_counter = s.entries_counter + 1;
}

-- The two ends of the walk: the entry that was found, or a new one.
unfoldable pub store_small : Server → List ℕ → ℕ → List ℕ → Option Entry → Server
store_small s key vlen v (some e) = overwrite_small s e vlen v
store_small s key vlen v none = append_entry s (record {
  key = key;
  key_len = length key;
  value = some v;
  val_len = vlen;
  large_val_mem_info = 0;
})

-- case EAGER_SET_REQUEST
unfoldable pub handle_eager_set : Server → Run (Server × ℕ)
handle_eager_set s = do
  key ← request_key bytes_at s.buf
  let vlen = get_u32 s.buf length_at
  let at = bytes_at + length key + 1
  require (leb (at + vlen) eager_protocol_limit)
  let v = get_bytes s.buf at vlen
  ok (store_small s key vlen v (find_entry key s.entries), 0)

-- The response that tells the client where to write.
unfoldable pub answer_location : Server → ℕ → Run (Server × ℕ)
answer_location s a = do
  rkey ← node_rkey s.pool a
  ok (
    record s {
      buf =
          put_u32
            (put_u64 (put_u32 s.buf type_at (code rendezvous_set_response)) set_ptr_at
              (buffer_addr a))
            set_rkey_at rkey;
    },
    sizeof_packet,
  )

-- An existing entry gets a node of the pool unless it has one.
unfoldable pub overwrite_large : Server → Entry → ℕ → Run (Server × ℕ)
overwrite_large s e vlen =
    if e.large_val_mem_info == 0
    then (do
      (x, pool) ← take_node s.pool
      ok (
        record s {
          pool = pool;
          entries =
              write_entry e.key (record e { val_len = vlen; large_val_mem_info = x; value = none })
                s.entries;
        },
        x,
      ))
    else ok (
      record s { entries = write_entry e.key (record e { val_len = vlen }) s.entries },
      e.large_val_mem_info,
    )

unfoldable pub append_large : Server → List ℕ → ℕ → Run (Server × ℕ)
append_large s key vlen = do
  (x, pool) ← take_node s.pool
  ok (
    record (append_entry s (record {
      key = key;
      key_len = length key;
      value = none;
      val_len = vlen;
      large_val_mem_info = x;
    })) { pool = pool },
    x,
  )

unfoldable pub store_large : Server → List ℕ → ℕ → Option Entry → Run (Server × ℕ)
store_large s key vlen (some e) = overwrite_large s e vlen
store_large s key vlen none = append_large s key vlen

-- case RENDEZVOUS_SET_REQUEST
unfoldable pub handle_rendezvous_set : Server → Run (Server × ℕ)
handle_rendezvous_set s = do
  key ← request_key bytes_at s.buf
  let vlen = get_u32 s.buf length_at
  (t, a) ← store_large s key vlen (find_entry key s.entries)
  answer_location t a

-- The switch; the number is `response_size`, and a response is sent unless it is 0.
unfoldable pub dispatch : Option Kind → Server → Run (Server × ℕ)
dispatch (some eager_get_request) s = handle_eager_get s
dispatch (some eager_set_request) s = handle_eager_set s
dispatch (some rendezvous_set_request) s = handle_rendezvous_set s
dispatch (some close_connection) s = ok (record s { close_server = true }, 0)
dispatch (some _) s = ok (s, 0)
dispatch none s = ok (s, 0)

unfoldable pub handle_server_packets_only : Server → Run (Server × ℕ)
handle_server_packets_only s = dispatch (kind (get_u32 s.buf type_at)) s
