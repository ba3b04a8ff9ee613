-- ===== src/Template.antt =====
-- The program of Ex3/kv_template.c, the first version of the key-value store: client and server in
-- one file. Here is the server's state, with its heap of key-value nodes.
pub mod Cells
pub mod Appends
pub mod Eager
pub mod RoundTrip
pub mod Throughput
pub mod Faults
pub mod Memory
pub mod Places
pub mod Placing
pub mod Direct
pub mod Large
pub mod Copies
pub mod Start
pub mod Stale
pub mod Packets
pub mod Again
pub mod Rendezvous
pub mod Client
use comm_networks_workshop.Base.{
  ℕ, zero, suc, ◌+◌, ◌≤◌, ◌<◌, ◌≡◌, Bool, true, false, Option, none, some, List, ◌++◌, ltb, leb,
  ◌==◌, if◌then◌else◌, str_eq, length,
}
use comm_networks_workshop.Run.{Run, ◌>>=◌, ◌>>◌, require, in_bounds, ok, out_of_fuel}
use comm_networks_workshop.Bytes.{Buf, put_byte, put_bytes, get_bytes, put_u32, get_u32, get_str}
use comm_networks_workshop.Packet.{
  code, type_at, get_key_at, length_at, bytes_at, sizeof_packet, sizeof_pointer,
  eager_protocol_limit, eager_get_response,
}
use comm_networks_workshop.Pool.{Mem}
use comm_networks_workshop.Server.{request_key}
use comm_networks_workshop.Client.{c_str}

-- struct KV_NODE in a block whose `key_and_value` has room for `size` bytes.
pub record KvNode : Type 0 where
  pub next : ℕ
  pub prev : ℕ
  pub val_len : ℕ
  pub size : ℕ
  pub key_and_value : Buf

-- The blocks that are allocated, by address.
abbrev pub KvHeap : Type 0
KvHeap = ℕ → Option KvNode

-- struct RNDV_NODE
pub record RndvNode : Type 0 where
  pub next : ℕ
  pub mem_info : ℕ
  pub key_len : ℕ
  pub key : Buf

-- The server's globals, its heap, and the context's buffer. No block lies at `top` or above; `brk`
-- and `rndv_brk` are the addresses of the next blocks of the two other kinds.
pub record KvStore : Type 0 where
  pub kv_head : ℕ
  pub kv_tail : ℕ
  pub kv_nodes_counter : ℕ
  pub nodes : KvHeap
  pub top : ℕ
  pub rndv_head : ℕ
  pub rndv_tail : ℕ
  pub rndv_nodes : ℕ → Option RndvNode
  pub rndv_brk : ℕ
  pub rndv_pool_head : ℕ
  pub rndv_pool_tail : ℕ
  pub rndv_pool_nodes_counter : ℕ
  pub mem : Mem
  pub brk : ℕ
  pub close_server : Bool
  pub buf : Buf

-- What `malloc` of a node does: where the block lies among the blocks there are, and what its bytes
-- held before.
pub record Allocator : Type 0 where
  pub place : ℕ → KvHeap → ℕ → ℕ
  pub place_fresh :
      (top : ℕ) (h : KvHeap) (n : ℕ)
      → 0 < top
      → ((a : ℕ) → top ≤ a → h a ≡ none)
      → (0 < place top h n) × (h (place top h n) ≡ none)
  pub stale : ℕ → KvNode
  pub stale_rndv : ℕ → RndvNode

unfoldable pub write_node : KvHeap → ℕ → Option KvNode → KvHeap
write_node h a n i = if i == a then n else h i

unfoldable pub write_rndv : (ℕ → Option RndvNode) → ℕ → RndvNode → ℕ → Option RndvNode
write_rndv h a n i = if i == a then some n else h i

abbrev pub raise_top : ℕ → ℕ → ℕ
raise_top top a = if ltb a top then top else a + 1

-- sizeof(struct KV_NODE) is 24, of which the array has the last four bytes.
abbrev pub sizeof_kv_node : ℕ
sizeof_kv_node = 24

abbrev pub array_size : ℕ → ℕ → ℕ
array_size key_length vlength = 4 + key_length + 2 + vlength

-- The walk along `next` to the node of a key; 0 when there is none.
unfoldable pub find_node : ℕ → KvHeap → List ℕ → ℕ → Run ℕ
find_node zero h key cur = out_of_fuel
find_node (suc fuel) h key cur = elim (cur == 0) [
  | true ↦ ok 0
  | false ↦ do
    n ← in_bounds (h cur)
    k ← in_bounds (get_str n.size n.key_and_value 0)
    elim (str_eq key k) [ true ↦ ok cur | false ↦ find_node fuel h key n.next ]
]

-- The answer for a key that is not there. Its size is that of a pointer.
unfoldable pub answer_no_node : KvStore → KvStore × ℕ
answer_no_node s = (
  record s {
    buf =
        put_u32 (put_byte (put_u32 s.buf type_at (code eager_get_response)) bytes_at 0) length_at 1;
  },
  sizeof_pointer,
)

unfoldable pub answer_node : KvStore → ℕ → ℕ → Run (KvStore × ℕ)
answer_node s key_length cur = do
  n ← in_bounds (s.nodes cur)
  require (leb (key_length + 1 + n.val_len) n.size)
  require (ltb (bytes_at + n.val_len) eager_protocol_limit)
  let v = get_bytes n.key_and_value (key_length + 1) n.val_len
  let b = put_bytes (put_u32 s.buf type_at (code eager_get_response)) bytes_at v
  ok (
    record s { buf = put_u32 (put_byte b (bytes_at + n.val_len) 0) length_at n.val_len },
    sizeof_packet + n.val_len,
  )

-- case EAGER_GET_REQUEST
unfoldable pub get_node : KvStore → Run (KvStore × ℕ)
get_node s = do
  key ← request_key get_key_at s.buf
  cur ← find_node (s.kv_nodes_counter + 1) s.nodes key s.kv_head
  if cur == 0 then ok (answer_no_node s) else answer_node s (length key) cur

module _ (malloc : Allocator) where
  -- A block with the key, its NUL and the value in it; the rest of it is what it was.
  abbrev pub new_node : ℕ → List ℕ → List ℕ → KvNode
  new_node a key v = record (malloc.stale a) {
    size = array_size (length key) (length v);
    key_and_value = put_bytes (malloc.stale a).key_and_value 0 (c_str key ++ v);
  }

  abbrev pub node_place : ℕ → KvHeap → List ℕ → List ℕ → ℕ
  node_place top h key v = malloc.place top h (sizeof_kv_node + length key + 2 + length v)

  unfoldable pub append_node : KvStore → List ℕ → List ℕ → Run KvStore
  append_node s key v =
      let a = node_place s.top s.nodes key v in
      let n = record (new_node a key v) { next = 0; val_len = length v } in
      if s.kv_tail == 0
      then ok (record s {
        kv_head = a;
        kv_tail = a;
        kv_nodes_counter = s.kv_nodes_counter + 1;
        nodes = write_node s.nodes a (some (record n { prev = 0 }));
        top = raise_top s.top a;
      })
      else (do
        t ← in_bounds (s.nodes s.kv_tail)
        let h = write_node s.nodes a (some (record n { prev = s.kv_tail }))
        ok (record s {
          kv_tail = a;
          kv_nodes_counter = s.kv_nodes_counter + 1;
          nodes = write_node h s.kv_tail (some (record t { next = a }));
          top = raise_top s.top a;
        }))

  -- `p->next = q` and `p->prev = q`, unless `p` is NULL.
  unfoldable pub link_next : KvHeap → ℕ → ℕ → Run KvHeap
  link_next h p q =
      if p == 0
      then ok h
      else (do n ← in_bounds (h p); ok (write_node h p (some (record n { next = q }))))

  unfoldable pub link_prev : KvHeap → ℕ → ℕ → Run KvHeap
  link_prev h p q =
      if p == 0
      then ok h
      else (do n ← in_bounds (h p); ok (write_node h p (some (record n { prev = q }))))

  -- A NUL behind the value, in the node at `kv_head`, whichever node was replaced.
  unfoldable pub end_value : KvHeap → ℕ → ℕ → Run KvHeap
  end_value h head off = do
    n ← in_bounds (h head)
    require (ltb off n.size)
    ok (write_node h head (some (record n { key_and_value = put_byte n.key_and_value off 0 })))

  -- The node at `cur` is freed, and a new block takes its place between its neighbours. Neither
  -- `val_len` nor `kv_head` nor `kv_tail` is set.
  unfoldable pub replace_node : KvStore → ℕ → List ℕ → List ℕ → Run KvStore
  replace_node s cur key v = do
    old ← in_bounds (s.nodes cur)
    let freed = write_node s.nodes cur none
    let a = node_place s.top freed key v
    h ←
        end_value (write_node freed a (some (new_node a key v))) s.kv_head
          (length key + 1 + length v)
    h ← link_next h old.prev a
    n ← in_bounds (h a)
    let h = write_node h a (some (record n { prev = old.prev; next = old.next }))
    h ← link_prev h old.next a
    ok (record s { nodes = h; top = raise_top s.top a })

  -- case EAGER_SET_REQUEST
  unfoldable pub set_node_value : KvStore → Run (KvStore × ℕ)
  set_node_value s = do
    key ← request_key bytes_at s.buf
    let vlength = get_u32 s.buf length_at
    let at = bytes_at + length key + 1
    cur ← find_node (s.kv_nodes_counter + 1) s.nodes key s.kv_head
    require (leb (at + vlength) eager_protocol_limit)
    let v = get_bytes s.buf at vlength
    t ← if cur == 0 then append_node s key v else replace_node s cur key v
    ok (t, 0)
