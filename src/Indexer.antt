-- ===== src/Indexer.antt =====
-- The index server of Ex4/kv_indexer.c: `hash_key` and its packet handler's FIND and
-- CLOSE_CONNECTION cases, the two that the client sends to it. An `unsigned long` has 64 bits.
pub mod Hash
pub mod Find
pub mod Database
pub mod Loop
pub mod Answers
pub mod Overflow
use comm_networks_workshop.Base.{
  ℕ, zero, suc, ◌+◌, ◌-◌, ◌*◌, ◌/◌, ◌%◌, ◌^◌, ◌≤◌, ◌<◌, ◌≡◌, refl, sym, ap, ◌∙◌, fun_ext, ◌≢◌, ◌↔◌,
  ◌⊎◌, inl, inr, Bool, true, false, not, ◌&&◌, ◌||◌, Option, none, some, List, [], ◌∷◌, ◌++◌, map,
  arith, ltb, leb, ◌==◌, if◌then◌else◌, ltb→lt, lt→ltb, le→ltb, leb→le, ==_iff, tests, Bool-cases,
  Option-cases, str_eq, str_eq_refl, str_eq_sound, str_eq_iff, length, length-append, get_or, take,
  drop, replicate, length-take, take-append, length-replicate, All, get_or-append_left,
}
use comm_networks_workshop.Run.{
  Run, ◌>>=◌, ◌>>◌, require, in_bounds, Ensures, Ensures-bind, Ensures-after, ok, fault,
  out_of_fuel, returns, faults, stops,
}
use comm_networks_workshop.Bytes.{
  Buf, put_byte, put_bytes, get_bytes, put_u32, get_u32, put_u64, get_u64, get_str, transmit,
}
use comm_networks_workshop.Packet.{
  Kind, code, kind, kind-code, code-lt, type_at, get_key_at, length_at, bytes_at, get_ptr_at,
  get_rkey_at, set_ptr_at, set_rkey_at, sizeof_packet, sizeof_pointer, eager_protocol_limit,
  max_test_size, min_pool_nodes, eager_get_request, eager_get_response, eager_set_request,
  rendezvous_get_request, rendezvous_get_response, rendezvous_set_request, rendezvous_set_response,
  close_connection, find, location,
}

abbrev pub ulong : ℕ → ℕ
ulong n = n % 2 ^ 64

-- The loop of `hash_key` on the bytes that are left.
unfoldable pub hash_from : ℕ → List ℕ → ℕ
hash_from hash [] = hash
hash_from hash (c ∷ str) = hash_from (ulong (ulong (ulong (hash * 2 ^ 5) + hash) + c)) str

unfoldable pub hash_key : List ℕ → ℕ
hash_key str = hash_from 5381 str

pub record Indexer : Type 0 where
  pub buf : Buf
  pub close_server : Bool

-- `(unsigned int) hash_value % num_of_servers`: the cast is done first.
unfoldable pub select_server : ℕ → ℕ → Run ℕ
select_server hash_value num = if num == 0 then fault else ok (hash_value % 2 ^ 32 % num)

-- case FIND
unfoldable pub handle_find : Indexer → Run (Indexer × ℕ)
handle_find s = do
  key ← in_bounds (get_str (eager_protocol_limit - bytes_at) s.buf bytes_at)
  let b = put_u32 s.buf type_at (code location)
  n ← select_server (hash_key key) (get_u32 b length_at)
  ok (record s { buf = put_u32 b length_at n }, sizeof_packet)

unfoldable pub handle : Option Kind → Indexer → Run (Indexer × ℕ)
handle (some find) s = handle_find s
handle (some close_connection) s = ok (record s { close_server = true }, 0)
handle _ s = ok (s, 0)

unfoldable pub handle_indexer_packet : Indexer → Run (Indexer × ℕ)
handle_indexer_packet s = handle (kind (get_u32 s.buf type_at)) s
