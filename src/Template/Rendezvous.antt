-- ===== src/Template/Rendezvous.antt =====
-- The rendezvous requests of Ex3/kv_template.c, and the whole of `handle_server_packets_only`.
use comm_networks_workshop.Base.{
  ℕ, zero, suc, ◌+◌, ◌-◌, ◌^◌, Bool, true, false, Option, none, some, List, [], ◌∷◌, ltb, leb, ◌==◌,
  if◌then◌else◌, length, replicate,
}
use comm_networks_workshop.Run.{Run, ◌>>=◌, ◌>>◌, require, in_bounds, ok, fault, out_of_fuel}
use comm_networks_workshop.Bytes.{Buf, put_bytes, put_u32, get_u32, put_u64}
use comm_networks_workshop.Packet.{
  Kind, code, kind, type_at, length_at, bytes_at, get_ptr_at, get_rkey_at, set_ptr_at, set_rkey_at,
  sizeof_pointer, eager_protocol_limit, max_test_size, min_pool_nodes, eager_get_request,
  eager_set_request, rendezvous_get_request, rendezvous_get_response, rendezvous_set_request,
  rendezvous_set_response, close_connection,
}
use comm_networks_workshop.Template.{
  RndvNode, KvStore, Allocator, write_rndv, get_node, set_node_value,
}
use comm_networks_workshop.Pool.{
  MemInfo, sizeof_memory_info, buffer_addr, zeros, set_next, set_node,
}
use comm_networks_workshop.Fabric.{set_buffer}

-- strncpy(_, b + off, n), where `left` bytes of the buffer are left at `off`: the `n` bytes that are
-- written; `none` is a read past the buffer.
unfoldable pub strncpy : ℕ → ℕ → Buf → ℕ → Option (List ℕ)
strncpy left zero b off = some []
strncpy zero (suc n) b off = none
strncpy (suc left) (suc n) b off = elim (b off) [
  | zero ↦ some (replicate (suc n) 0)
  | suc c ↦ elim (strncpy left n b (off + 1)) [ none ↦ none | some xs ↦ some (suc c ∷ xs) ]
]

-- The key of a rendezvous request, of the length that the request states; a length that is negative
-- as an int would be a copy without bound.
unfoldable pub stated_key : Buf → Run (List ℕ)
stated_key b = do
  let key_length = get_u32 b length_at
  require (ltb key_length (2 ^ 31))
  in_bounds (strncpy (eager_protocol_limit - bytes_at) key_length b bytes_at)

-- The first node of the pool leaves it.
unfoldable pub take_memory : KvStore → Run (ℕ × KvStore)
take_memory s =
    if s.rndv_pool_head == 0
    then fault
    else ok (
      s.rndv_pool_head,
      record s {
        rndv_pool_head = (s.mem s.rndv_pool_head).next_mem;
        rndv_pool_nodes_counter = s.rndv_pool_nodes_counter - 1;
        mem = set_next s.mem s.rndv_pool_head 0;
      },
    )

-- A new node goes behind `rndv_tail`.
unfoldable pub append_rndv : RndvNode → KvStore → Run KvStore
append_rndv n s =
    let a = s.rndv_brk in
    if s.rndv_tail == 0
    then ok (record s {
      rndv_head = a;
      rndv_tail = a;
      rndv_nodes = write_rndv s.rndv_nodes a n;
      rndv_brk = a + 1;
    })
    else (do
      t ← in_bounds (s.rndv_nodes s.rndv_tail)
      ok (record s {
        rndv_tail = a;
        rndv_nodes = write_rndv (write_rndv s.rndv_nodes a n) s.rndv_tail (record t { next = a });
        rndv_brk = a + 1;
      }))

module _ (malloc : Allocator) where
  -- case RENDEZVOUS_GET_REQUEST: no answer is sent, since `response_size` stays 0.
  unfoldable pub get_memory : KvStore → Run (KvStore × ℕ)
  get_memory s = do
    (x, t) ← take_memory s
    key ← stated_key s.buf
    let n : RndvNode = record (malloc.stale_rndv t.rndv_brk) {
      next = 0;
      mem_info = x;
      key_len = length key;
      key = put_bytes (malloc.stale_rndv t.rndv_brk).key 0 key;
    }
    t ← append_rndv n t
    rkey ← in_bounds (t.mem x).rndv_mr
    let b = put_u32 (put_u32 s.buf type_at (code rendezvous_get_response)) length_at 1
    ok (record t { buf = put_u32 (put_u64 b get_ptr_at (buffer_addr x)) get_rkey_at rkey }, 0)

  -- case RENDEZVOUS_SET_REQUEST: the key goes into the node's buffer, and the new entry gets none.
  unfoldable pub set_memory : KvStore → Run (KvStore × ℕ)
  set_memory s = do
    (x, t) ← take_memory s
    key ← stated_key s.buf
    require (leb (length key) max_test_size)
    let m = set_buffer t.mem x (put_bytes (t.mem x).rndv_buffer 0 key)
    let n : RndvNode = record (malloc.stale_rndv t.rndv_brk) { next = 0; mem_info = x }
    t ← append_rndv n (record t { mem = m })
    rkey ← in_bounds (t.mem x).rndv_mr
    let b = put_u32 s.buf type_at (code rendezvous_set_response)
    ok (
      record t { buf = put_u32 (put_u64 b set_ptr_at (buffer_addr x)) set_rkey_at rkey },
      sizeof_pointer + 8 + 4,
    )

  unfoldable pub dispatch_ex3 : Option Kind → KvStore → Run (KvStore × ℕ)
  dispatch_ex3 (some eager_get_request) s = get_node s
  dispatch_ex3 (some eager_set_request) s = set_node_value malloc s
  dispatch_ex3 (some rendezvous_get_request) s = get_memory s
  dispatch_ex3 (some rendezvous_set_request) s = set_memory s
  dispatch_ex3 (some close_connection) s = ok (record s { close_server = true }, 0)
  dispatch_ex3 (some _) s = ok (s, 0)
  dispatch_ex3 none s = ok (s, 0)

  -- The store afterwards, and the size of the answer, which lies in the buffer; 0 is no answer.
  unfoldable pub handle_server_packets_only_ex3 : KvStore → Run (KvStore × ℕ)
  handle_server_packets_only_ex3 s = dispatch_ex3 (kind (get_u32 s.buf type_at)) s

-- A new node behind the pool's tail, not yet registered.
unfoldable pub grow_memory : KvStore → KvStore
grow_memory s =
    let node : MemInfo = record { rndv_mr = none; rndv_buffer = zeros; next_mem = 0 } in
    record s {
      rndv_pool_tail = s.brk;
      mem = set_node (set_next s.mem s.rndv_pool_tail s.brk) s.brk node;
      brk = s.brk + sizeof_memory_info;
    }

unfoldable pub register_tail : ℕ → KvStore → KvStore
register_tail rkey s = record s {
  mem = set_node s.mem s.rndv_pool_tail (record (s.mem s.rndv_pool_tail) { rndv_mr = some rkey });
  rndv_pool_nodes_counter = s.rndv_pool_nodes_counter + 1;
}

-- The loop of `pp_wait_completions` that fills the pool; `reg_mr` is `ibv_reg_mr` at the node's
-- address. The flag says that a registration has failed and 1 is returned.
unfoldable pub fill_pool : (ℕ → Option ℕ) → ℕ → KvStore → Run (KvStore × Bool)
fill_pool reg_mr zero s = out_of_fuel
fill_pool reg_mr (suc fuel) s = elim (ltb s.rndv_pool_nodes_counter min_pool_nodes) [
  | false ↦ ok (s, false)
  | true ↦ elim (s.rndv_pool_tail == 0) [
    | true ↦ fault
    | false ↦ elim (reg_mr s.brk) [
      | none ↦ ok (grow_memory s, true)
      | some rkey ↦ fill_pool reg_mr fuel (register_tail rkey (grow_memory s))
    ]
  ]
]

-- What the server's `pp_wait_completions` does with a packet that has arrived: its handler, and then
-- its pool, unless the packet closes the server. At most ten nodes are added.
unfoldable pub serve_packet : Allocator → (ℕ → Option ℕ) → KvStore → Run (KvStore × ℕ)
serve_packet malloc reg_mr s = do
  (t, n) ← handle_server_packets_only_ex3 malloc s
  if t.close_server
      then ok (t, n)
      else (do (u, failed) ← fill_pool reg_mr (min_pool_nodes + 1) t; ok (u, n))
