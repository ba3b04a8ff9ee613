-- ===== src/Template/Client.antt =====
-- `kv_set`, `kv_get` and `kv_close` of Ex3/kv_template.c, on a client and its server.
use comm_networks_workshop.Base.{
  ℕ, zero, suc, ◌+◌, Bool, not, ◌&&◌, Option, none, some, List, [], ◌∷◌, ◌++◌, ltb, leb, ◌==◌,
  if◌then◌else◌, str_eq, length,
}
use comm_networks_workshop.Run.{Run, ◌>>=◌, ◌>>◌, require, in_bounds, ok, out_of_fuel}
use comm_networks_workshop.Bytes.{Buf, put_bytes, get_bytes, put_u32, get_u32, get_u64, get_str}
use comm_networks_workshop.Packet.{
  code, type_at, get_key_at, length_at, bytes_at, get_ptr_at, get_rkey_at, set_ptr_at, set_rkey_at,
  sizeof_packet, eager_protocol_limit, max_test_size, eager_get_request, eager_set_request,
  rendezvous_get_request, rendezvous_get_response, rendezvous_set_request, rendezvous_set_response,
  close_connection,
}
use comm_networks_workshop.Fabric.{Fabric}
use comm_networks_workshop.Client.{c_str}
use comm_networks_workshop.Template.{KvStore, Allocator}
use comm_networks_workshop.Template.Rendezvous.{strncpy, serve_packet}
use comm_networks_workshop.Pool.{Mem}

-- struct RNDV_CACHE_NODE
pub record CacheNode : Type 0 where
  pub srv_addr : ℕ
  pub srv_rkey : ℕ
  pub val_len : ℕ
  pub key : List ℕ

-- The client's context and globals. Nothing points into the list of cache nodes but its own links.
-- `polls` has for each `kv_get` to come that asks the server how many completions each call of
-- ibv_poll_cq brings while it waits: a poll can bring that of the request and that of the answer.
pub record KvClient : Type 0 where
  pub buf : Buf
  pub remote_buf : Buf
  pub use_rndv_protocol : Bool
  pub cache : List CacheNode
  pub polls : List (List ℕ)

pub record KvPair : Type 0 where
  pub client : KvClient
  pub store : KvStore

-- `pp_wait_completions` of a client, where completions succeed: `n` is rcnt + scnt. The polls that
-- are left are handed on, with the return value; where they end the code waits for ever.
unfoldable pub wait_ex3 : ℕ → ℕ → List ℕ → Run (ℕ × List ℕ)
wait_ex3 iters n [] = if ltb n iters then out_of_fuel else ok (0, [])
wait_ex3 iters n (ne ∷ polls) =
    let rest = wait_ex3 iters (n + ne) polls in if ltb n iters then rest else ok (0, ne ∷ polls)

-- The polls of the next `kv_get` that asks the server.
unfoldable pub next_polls : List (List ℕ) → List ℕ × List (List ℕ)
next_polls [] = ([], [])
next_polls (ks ∷ polls) = (ks, polls)

unfoldable pub cached_node : List ℕ → List CacheNode → Option CacheNode
cached_node key [] = none
cached_node key (c ∷ cs) = if str_eq c.key key then some c else cached_node key cs

abbrev pub put_client_buf : Buf → KvPair → KvPair
put_client_buf b p = record p { client = record (p.client) { buf = b } }

abbrev pub put_remote_buf : Buf → KvPair → KvPair
put_remote_buf b p = record p { client = record (p.client) { remote_buf = b } }

abbrev pub after_write : KvPair → Option Mem → KvPair
after_write p none = p
after_write p (some m) = record p { store = record (p.store) { mem = m } }

abbrev pub after_read : KvPair → Option (List ℕ) → KvPair
after_read p none = p
after_read p (some v) = put_remote_buf (put_bytes p.client.remote_buf 0 v) p

unfoldable pub set_size_ex3 : List ℕ → List ℕ → ℕ
set_size_ex3 key value = length key + 1 + length value + sizeof_packet

unfoldable pub eager_packet_ex3 : List ℕ → List ℕ → Buf → Buf
eager_packet_ex3 key value b =
    put_bytes (put_u32 (put_u32 b type_at (code eager_set_request)) length_at (length value))
      bytes_at (c_str key ++ c_str value)

unfoldable pub rndv_set_packet_ex3 : List ℕ → Buf → Buf
rndv_set_packet_ex3 key b =
    put_bytes (put_u32 (put_u32 b type_at (code rendezvous_set_request)) length_at (length key))
      bytes_at (c_str key)

unfoldable pub get_packet_ex3 : List ℕ → Buf → Buf
get_packet_ex3 key b = put_bytes (put_u32 b type_at (code eager_get_request)) get_key_at (c_str key)

-- The key's length is not stored.
unfoldable pub rndv_get_packet_ex3 : List ℕ → Buf → Buf
rndv_get_packet_ex3 key b =
    put_bytes (put_u32 b type_at (code rendezvous_get_request)) bytes_at (c_str key)

module _ (f : Fabric) (malloc : Allocator) (reg_mr : ℕ → Option ℕ) where
  unfoldable pub request_ex3 : ℕ → KvPair → Run (KvPair × ℕ)
  request_ex3 size p = do
    require (leb size eager_protocol_limit)
    (s, n) ←
        serve_packet malloc reg_mr (record (p.store) { buf = f.send size p.client.buf p.store.buf })
    ok (record p { store = s }, n)

  -- A request with an answer of `n` bytes, which arrives in the client's buffer; with no answer the
  -- client waits for ever.
  unfoldable pub receive_ex3 : ℕ → KvPair → Run KvPair
  receive_ex3 n p = if n == 0 then out_of_fuel else (do
    require (leb n eager_protocol_limit)
    ok (put_client_buf (f.send n p.store.buf p.client.buf) p))

  unfoldable pub exchange_ex3 : ℕ → KvPair → Run KvPair
  exchange_ex3 size p = do (p, n) ← request_ex3 size p; receive_ex3 n p

  -- RDMA between `remote_buf`, of MAX_TEST_SIZE bytes, and the server's registered memory. The code
  -- does not look at the result of the wait, so a refused one changes nothing.
  unfoldable pub write_remote_ex3 : ℕ → ℕ → ℕ → KvPair → Run KvPair
  write_remote_ex3 addr rkey n p =
      ok (after_write p (f.rdma_write p.store.mem addr rkey (get_bytes p.client.remote_buf 0 n)))

  unfoldable pub read_remote_ex3 : ℕ → ℕ → ℕ → KvPair → Run KvPair
  read_remote_ex3 addr rkey n p = ok (after_read p (f.rdma_read p.store.mem addr rkey n))

  unfoldable pub kv_set_eager_ex3 : List ℕ → List ℕ → KvPair → Run KvPair
  kv_set_eager_ex3 key value p = do
    (p, n) ←
        request_ex3 (set_size_ex3 key value)
          (put_client_buf (eager_packet_ex3 key value p.client.buf) p)
    ok p

  unfoldable pub fill_remote : List ℕ → KvPair → Run KvPair
  fill_remote value p = do
    require (ltb (length value) max_test_size)
    ok (put_remote_buf (put_bytes p.client.remote_buf 0 (c_str value)) p)

  -- The value and its NUL are written; the cache node keeps its length.
  unfoldable pub kv_set_direct : CacheNode → List ℕ → KvPair → Run KvPair
  kv_set_direct c value p = do
    p ← fill_remote value p
    write_remote_ex3 c.srv_addr c.srv_rkey (length value + 1) p

  -- What follows an answer to RENDEZVOUS_SET_REQUEST: the value is written without its NUL.
  unfoldable pub write_answered : List ℕ → List ℕ → KvPair → Run KvPair
  write_answered key value p = do
    require (get_u32 p.client.buf type_at == code rendezvous_set_response)
    let c : CacheNode = record {
      srv_addr = get_u64 p.client.buf set_ptr_at;
      srv_rkey = get_u32 p.client.buf set_rkey_at;
      val_len = length value;
      key = key;
    }
    p ←
        fill_remote value
          (record p { client = record (p.client) { cache = p.client.cache ++ c ∷ [] } })
    write_remote_ex3 c.srv_addr c.srv_rkey (length value) p

  unfoldable pub kv_set_rndv : List ℕ → List ℕ → KvPair → Run KvPair
  kv_set_rndv key value p = do
    p ←
        exchange_ex3 (length key + 1 + sizeof_packet)
          (put_client_buf (rndv_set_packet_ex3 key p.client.buf) p)
    write_answered key value p

  unfoldable pub kv_set_cached_ex3 : Option CacheNode → List ℕ → List ℕ → KvPair → Run KvPair
  kv_set_cached_ex3 (some c) key value p = kv_set_direct c value p
  kv_set_cached_ex3 none key value p = kv_set_rndv key value p

  unfoldable pub kv_set_ex3 : List ℕ → List ℕ → KvPair → Run KvPair
  kv_set_ex3 key value p =
      if not p.client.use_rndv_protocol && ltb (set_size_ex3 key value) eager_protocol_limit
      then kv_set_eager_ex3 key value p
      else kv_set_cached_ex3 (cached_node key p.client.cache) key value
          (put_client_buf (put_u32 p.client.buf type_at (code rendezvous_set_request)) p)

  -- The block that `*value` points to.
  unfoldable pub kv_get_direct : CacheNode → KvPair → Run (List ℕ × KvPair)
  kv_get_direct c p = do
    p ← read_remote_ex3 c.srv_addr c.srv_rkey c.val_len p
    v ← in_bounds (strncpy max_test_size (c.val_len + 1) p.client.remote_buf 0)
    ok (v, p)

  -- Each of the two calls of `pp_wait_completions` waits for one completion.
  unfoldable pub kv_get_eager_ex3 : List ℕ → KvPair → Run (List ℕ × KvPair)
  kv_get_eager_ex3 key p = do
    p ←
        exchange_ex3 (length key + 1 + sizeof_packet)
          (put_client_buf (get_packet_ex3 key p.client.buf) p)
    let (ks, polls) = next_polls p.client.polls
    (r, ks) ← wait_ex3 1 0 ks
    (r, ks) ← wait_ex3 1 0 ks
    let value_len = get_u32 p.client.buf length_at
    require (leb (bytes_at + value_len) eager_protocol_limit)
    ok (
      get_bytes p.client.buf bytes_at value_len ++ 0 ∷ [],
      record p { client = record (p.client) { polls = polls } },
    )

  -- What follows an answer to RENDEZVOUS_GET_REQUEST.
  unfoldable pub take_memory_answer : List ℕ → KvPair → Run (List ℕ × KvPair)
  take_memory_answer key p = do
    require (get_u32 p.client.buf type_at == code rendezvous_get_response)
    let c : CacheNode = record {
      srv_addr = get_u64 p.client.buf get_ptr_at;
      srv_rkey = get_u32 p.client.buf get_rkey_at;
      val_len = get_u32 p.client.buf length_at;
      key = key;
    }
    p ←
        read_remote_ex3 c.srv_addr c.srv_rkey c.val_len
          (record p { client = record (p.client) { cache = p.client.cache ++ c ∷ [] } })
    v ← in_bounds (get_str max_test_size p.client.remote_buf 0)
    require (leb (length v) c.val_len)
    ok (c_str v, p)

  -- The loop over the cache for a node with the key; it does not move on from its first node.
  unfoldable pub find_cached : ℕ → List ℕ → List CacheNode → Run (Option CacheNode)
  find_cached fuel key [] = ok none
  find_cached zero key (c ∷ cs) = out_of_fuel
  find_cached (suc fuel) key (c ∷ cs) =
      let rest = find_cached fuel key (c ∷ cs) in if str_eq c.key key then ok (some c) else rest

  -- The direct read: two completions are awaited, and one operation was posted, with one poll for
  -- it.
  unfoldable pub read_cached : CacheNode → KvPair → Run (List ℕ × KvPair)
  read_cached c p = do
    p ← read_remote_ex3 c.srv_addr c.srv_rkey (c.val_len + 1) p
    (r, ks) ← wait_ex3 2 0 (1 ∷ [])
    v ← in_bounds (strncpy max_test_size c.val_len p.client.remote_buf 0)
    ok (v, p)

  -- The request, its completions, and the assert that wants a wait that does not return 0.
  unfoldable pub ask_memory : List ℕ → KvPair → Run (List ℕ × KvPair)
  ask_memory key p = do
    p ←
        exchange_ex3 (sizeof_packet + length key + 1)
          (put_client_buf (rndv_get_packet_ex3 key p.client.buf) p)
    let (ks, polls) = next_polls p.client.polls
    (r, ks) ← wait_ex3 2 0 ks
    require (not (r == 0))
    take_memory_answer key (record p { client = record (p.client) { polls = polls } })

  -- The walk's fuel is one step for each node and one more; the walk has no bound in the code.
  unfoldable pub kv_get_rndv : ℕ → List ℕ → KvPair → Run (List ℕ × KvPair)
  kv_get_rndv fuel key p = do
    o ← find_cached fuel key p.client.cache
    elim o [
      | some c ↦
          read_cached c
            (put_client_buf (put_u32 p.client.buf type_at (code rendezvous_get_request)) p)
      | none ↦ ask_memory key p
    ]

  unfoldable pub kv_get_uncached : List ℕ → KvPair → Run (List ℕ × KvPair)
  kv_get_uncached key p =
      if not p.client.use_rndv_protocol && ltb (length key + 1 + sizeof_packet) eager_protocol_limit
      then kv_get_eager_ex3 key p
      else kv_get_rndv (length p.client.cache + 1) key p

  unfoldable pub kv_get_with : Option CacheNode → List ℕ → KvPair → Run (List ℕ × KvPair)
  kv_get_with (some c) key p = kv_get_direct c p
  kv_get_with none key p = kv_get_uncached key p

  unfoldable pub kv_get_ex3 : List ℕ → KvPair → Run (List ℕ × KvPair)
  kv_get_ex3 key p =
      if p.client.use_rndv_protocol
      then kv_get_with (cached_node key p.client.cache) key p
      else kv_get_uncached key p

  -- The packet that `kv_close` sends.
  unfoldable pub send_close_ex3 : KvPair → Run KvPair
  send_close_ex3 p = do
    (p, n) ← request_ex3 sizeof_packet (
        put_client_buf (put_u32 (put_u32 p.client.buf type_at (code close_connection)) length_at 1)
          p)
    ok p
