-- ===== src/Indexer/Database.antt =====
-- The database of Ex4/kv_indexer.c, and its packet handler with all cases. The index server has its
-- own copy of the set and get cases, which finds lengths with strlen, and allocates for a string as
-- many bytes as it has characters.
use comm_networks_workshop.Base.{
  ℕ, ◌+◌, ◌-◌, Bool, true, Option, none, some, List, [], ◌∷◌, ◌++◌, leb, ◌==◌, if◌then◌else◌,
  str_eq, length, drop,
}
use comm_networks_workshop.Run.{Run, ◌>>=◌, ◌>>◌, require, in_bounds, ok}
use comm_networks_workshop.Bytes.{Buf, put_byte, put_bytes, put_u32, get_u32, put_u64, get_str}
use comm_networks_workshop.Packet.{
  Kind, code, kind, type_at, get_key_at, length_at, bytes_at, get_ptr_at, get_rkey_at, set_ptr_at,
  set_rkey_at, sizeof_packet, sizeof_pointer, eager_protocol_limit, max_test_size,
  eager_get_request, eager_get_response, eager_set_request, rendezvous_get_response,
  rendezvous_set_request, rendezvous_set_response, close_connection, find, location,
}
use comm_networks_workshop.Pool.{Pool, buffer_addr, take_node, taint}
use comm_networks_workshop.Server.{node_rkey}
use comm_networks_workshop.Client.{c_str}
use comm_networks_workshop.Indexer.{hash_key, select_server}
use comm_networks_workshop.Template.Throughput.{block_text}

-- struct KV_ENTRY. The key is the string in its block, and the value the bytes of its block; `none`
-- is NULL.
pub record IndexEntry : Type 0 where
  pub key : List ℕ
  pub key_len : ℕ
  pub value : Option (List ℕ)
  pub large_val_mem_info : ℕ

-- The globals and the context's buffer; nothing but their links points to the entries.
pub record IndexStore : Type 0 where
  pub entries : List IndexEntry
  pub entries_counter : ℕ
  pub pool : Pool
  pub buf : Buf
  pub close_server : Bool

unfoldable pub find_index_entry : List ℕ → List IndexEntry → Option IndexEntry
find_index_entry key [] = none
find_index_entry key (e ∷ es) = if str_eq e.key key then some e else find_index_entry key es

unfoldable pub write_index_entry : List ℕ → IndexEntry → List IndexEntry → List IndexEntry
write_index_entry key e' [] = []
write_index_entry key e' (e ∷ es) =
    if str_eq e.key key then e' ∷ es else e ∷ write_index_entry key e' es

-- strcpy of a string into a block of `size` bytes
unfoldable pub strcpy_to : ℕ → List ℕ → Run (List ℕ)
strcpy_to size s = do require (leb (length s + 1) size); ok (c_str s)

-- The string at `off` in the request.
unfoldable pub request_string : ℕ → Buf → Run (List ℕ)
request_string off b = in_bounds (get_str (eager_protocol_limit - off) b off)

unfoldable pub answer_value : IndexStore → IndexEntry → Option (List ℕ) → Run (IndexStore × ℕ)
answer_value s e (some block) = do
  text ← in_bounds (block_text block)
  require (leb (bytes_at + length text + 1) eager_protocol_limit)
  let b = put_u32 (put_u32 s.buf type_at (code eager_get_response)) length_at (length text)
  ok (record s { buf = put_bytes b bytes_at (c_str text) }, sizeof_packet + length text)
answer_value s e none = do
  rkey ← node_rkey s.pool e.large_val_mem_info
  text ← in_bounds (get_str max_test_size (s.pool.mem e.large_val_mem_info).rndv_buffer 0)
  let b = put_u32 (put_u32 s.buf type_at (code rendezvous_get_response)) length_at (length text)
  ok (
    record s {
      buf = put_u32 (put_u64 b get_ptr_at (buffer_addr e.large_val_mem_info)) get_rkey_at rkey;
    },
    sizeof_packet,
  )

unfoldable pub answer_entry : IndexStore → Option IndexEntry → Run (IndexStore × ℕ)
answer_entry s (some e) = answer_value s e e.value
answer_entry s none = ok (
  record s {
    buf =
        put_u32 (put_byte (put_u32 s.buf type_at (code eager_get_response)) bytes_at 0) length_at 1;
  },
  sizeof_pointer + 1,
)

-- case EAGER_GET_REQUEST
unfoldable pub index_get : IndexStore → Run (IndexStore × ℕ)
index_get s = do
  key ← request_string get_key_at s.buf
  answer_entry s (find_index_entry key s.entries)

-- The block after memcpy: one that is kept has what lies behind the value.
unfoldable pub index_value : IndexStore → IndexEntry → List ℕ → Option (List ℕ) → Run IndexStore
index_value s e v none = ok (record s {
  pool = taint e.large_val_mem_info s.pool;
  entries = write_index_entry e.key (record e { large_val_mem_info = 0; value = some v }) s.entries;
})
index_value s e v (some block) = do
  text ← in_bounds (block_text block)
  let kept = if length text == length v then v ++ drop (length v) block else v
  ok (record s { entries = write_index_entry e.key (record e { value = some kept }) s.entries })

unfoldable pub append_index_entry : IndexStore → IndexEntry → IndexStore
append_index_entry s e = record s {
  entries = s.entries ++ e ∷ [];
  entries_counter = s.entries_counter + 1;
}

unfoldable pub index_store : IndexStore → List ℕ → List ℕ → Option IndexEntry → Run IndexStore
index_store s key v (some e) = index_value s e v e.value
index_store s key v none = do
  key_block ← strcpy_to (length key) key
  block ← strcpy_to (length v) v
  ok (
      append_index_entry s
        (record { key = key; key_len = length key; value = some block; large_val_mem_info = 0 }))

-- case EAGER_SET_REQUEST
unfoldable pub index_set : IndexStore → Run (IndexStore × ℕ)
index_set s = do
  key ← request_string bytes_at s.buf
  v ← request_string (bytes_at + length key + 1) s.buf
  t ← index_store s key v (find_index_entry key s.entries)
  ok (t, 0)

-- The node of the key's entry, which gets one when it has none.
unfoldable pub index_node : IndexStore → List ℕ → Option IndexEntry → Run (IndexStore × ℕ)
index_node s key (some e) =
    if e.large_val_mem_info == 0
    then (do
      (x, pool) ← take_node s.pool
      ok (
        record s {
          pool = pool;
          entries =
              write_index_entry e.key (record e { large_val_mem_info = x; value = none }) s.entries;
        },
        x,
      ))
    else ok (s, e.large_val_mem_info)
index_node s key none = do
  key_block ← strcpy_to (length key) key
  (x, pool) ← take_node s.pool
  ok (
    record (append_index_entry s
        (record { key = key; key_len = length key; value = none; large_val_mem_info = x })) {
          pool = pool;
        },
    x,
  )

-- case RENDEZVOUS_SET_REQUEST
unfoldable pub index_rendezvous_set : IndexStore → Run (IndexStore × ℕ)
index_rendezvous_set s = do
  key ← request_string bytes_at s.buf
  (t, x) ← index_node s key (find_index_entry key s.entries)
  rkey ← node_rkey t.pool x
  let b = put_u32 t.buf type_at (code rendezvous_set_response)
  ok (
    record t { buf = put_u32 (put_u64 b set_ptr_at (buffer_addr x)) set_rkey_at rkey },
    sizeof_packet,
  )

-- case FIND
unfoldable pub index_find : IndexStore → Run (IndexStore × ℕ)
index_find s = do
  key ← request_string bytes_at s.buf
  let b = put_u32 s.buf type_at (code location)
  n ← select_server (hash_key key) (get_u32 b length_at)
  ok (record s { buf = put_u32 b length_at n }, sizeof_packet)

unfoldable pub index_dispatch : Option Kind → IndexStore → Run (IndexStore × ℕ)
index_dispatch (some eager_get_request) s = index_get s
index_dispatch (some eager_set_request) s = index_set s
index_dispatch (some rendezvous_set_request) s = index_rendezvous_set s
index_dispatch (some close_connection) s = ok (record s { close_server = true }, 0)
index_dispatch (some find) s = index_find s
index_dispatch (some _) s = ok (s, 0)
index_dispatch none s = ok (s, 0)

-- The store afterwards and the size of the response; 0 is none.
unfoldable pub handle_index_packet : IndexStore → Run (IndexStore × ℕ)
handle_index_packet s = index_dispatch (kind (get_u32 s.buf type_at)) s
