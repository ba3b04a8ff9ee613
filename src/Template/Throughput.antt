-- ===== src/Template/Throughput.antt =====
-- `run_throuput_tests` and `print_results_to_file` of Ex3/kv_template.c.
pub mod Keys
pub mod Sizes
pub mod Passes
pub mod Large
use comm_networks_workshop.Base.{
  ℕ, zero, suc, ◌+◌, ◌-◌, ◌*◌, ◌/◌, ◌%◌, ◌^◌, ◌≤◌, ◌<◌, ◌≡◌, refl, sym, ap, ◌∙◌, fun_ext, ◌≢◌, ◌↔◌,
  ◌⊎◌, inl, inr, Bool, true, false, not, ◌&&◌, ◌||◌, Option, none, some, List, [], ◌∷◌, ◌++◌, map,
  arith, ltb, leb, ◌==◌, if◌then◌else◌, ltb→lt, lt→ltb, le→ltb, leb→le, ==_iff, tests, Bool-cases,
  Option-cases, str_eq, str_eq_refl, str_eq_sound, str_eq_iff, length, length-append, get_or, take,
  drop, replicate, length-take, take-append, length-replicate, All, get_or-append_left, get_elem?,
  set_elem, length-set_elem, get_elem?-set_elem, get_elem?-set_elem_ne, get_elem?-below,
  All-get_elem?, take_all, if_true, if_false,
}
use comm_networks_workshop.Run.{
  Run, ◌>>=◌, ◌>>◌, require, in_bounds, bind-bind, Ensures, Ensures-bind, Ensures-after, bind-ok,
  in_bounds-ok, ok, fault, out_of_fuel, returns, faults, stops,
}
use comm_networks_workshop.Bytes.{
  Buf, put_byte, put_bytes, get_bytes, put_u32, get_u32, put_u64, get_u64, get_str, transmit,
}
use comm_networks_workshop.Packet.{
  Kind, code, kind, kind-code, code-lt, type_at, get_key_at, length_at, bytes_at, get_ptr_at,
  get_rkey_at, set_ptr_at, set_rkey_at, sizeof_packet, sizeof_pointer, eager_protocol_limit,
  max_test_size, min_pool_nodes, eager_get_request, eager_get_response, eager_set_request,
  rendezvous_get_request, rendezvous_get_response, rendezvous_set_request, rendezvous_set_response,
  close_connection, find, location,
}
use comm_networks_workshop.Fabric.{
  set_buffer, Fabric, send-transmit, ideal_write, ideal_read, ideal_write_registered,
  ideal_read_registered, transmit_copies, transmit_spares, ideal,
}
use comm_networks_workshop.Template.{
  KvNode, KvHeap, RndvNode, KvStore, Allocator, write_node, write_rndv, raise_top, sizeof_kv_node,
  array_size, find_node, answer_no_node, answer_node, get_node, new_node, node_place, append_node,
  link_next, link_prev, end_value, replace_node, set_node_value,
}
use comm_networks_workshop.Template.Client.{
  CacheNode, KvClient, KvPair, cached_node, put_client_buf, put_remote_buf, set_size_ex3,
  eager_packet_ex3, rndv_set_packet_ex3, get_packet_ex3, rndv_get_packet_ex3, request_ex3,
  receive_ex3, exchange_ex3, write_remote_ex3, read_remote_ex3, kv_set_eager_ex3, fill_remote,
  kv_set_direct, write_answered, kv_set_rndv, kv_set_cached_ex3, kv_set_ex3, kv_get_direct,
  kv_get_eager_ex3, take_memory_answer, kv_get_rndv, kv_get_uncached, kv_get_with, kv_get_ex3,
  send_close_ex3,
}
use comm_networks_workshop.Client.{
  Client, Link, c_str, set_client_buf, request, send_only, receive, exchange, write_remote,
  read_remote, forget_key, remember_key, eager_set_size, eager_set_packet, rendezvous_set_packet,
  get_packet, Answer, kv_set_eager, kv_set_cached, kv_set_rendezvous, kv_set, take_small,
  take_large, take_response, kv_get_request, kv_get_cached, kv_get, kv_close, got, failed,
}

-- The digits of a number, at most `fuel` of them: printf's %ld and %d of a number that is not
-- negative.
unfoldable pub decimal : ℕ → ℕ → List ℕ
decimal zero n = []
decimal (suc fuel) n = elim (ltb n 10) [
  | true ↦ (48 + n) ∷ []
  | false ↦ decimal fuel (n / 10) ++ (48 + n % 10) ∷ []
]

-- A 64-bit number has at most twenty digits.
abbrev pub max_digits : ℕ
max_digits = 20

-- sprintf(key, "%ld-%d", value_size, attempt)
unfoldable pub test_key : ℕ → ℕ → List ℕ
test_key value_size attempt = decimal max_digits value_size ++ 45 ∷ decimal max_digits attempt

-- A block up to its first NUL; `none` when it has none.
unfoldable pub block_text : List ℕ → Option (List ℕ)
block_text [] = none
block_text (c ∷ xs) =
    if c == 0 then some [] else elim (block_text xs) [ none ↦ none | some s ↦ some (c ∷ s) ]

-- The send buffer as a string: `value_size` times 'a', and zeros behind them.
unfoldable pub test_value : ℕ → List ℕ
test_value value_size = replicate value_size 97

unfoldable pub attempt_bytes : ℕ → ℕ → ℕ
attempt_bytes value_size attempt =
    2 * (length (test_key value_size attempt) + 1 + value_size + sizeof_packet)

abbrev pub total_attempts : ℕ
total_attempts = 50

module _ (f : Fabric) (malloc : Allocator) (reg_mr : ℕ → Option ℕ) where
  -- One attempt: set, get, and the assert that compares the strings. `key` has room for ten bytes.
  unfoldable pub run_attempt : ℕ → ℕ → KvPair → Run KvPair
  run_attempt value_size attempt p = do
    let key = test_key value_size attempt
    require (ltb (length key) 10)
    p ← kv_set_ex3 f malloc reg_mr key (test_value value_size) p
    (v, p) ← kv_get_ex3 f malloc reg_mr key p
    text ← in_bounds (block_text v)
    require (str_eq (test_value value_size) text)
    ok p

  -- The attempts that are left, from `attempt` on, and the bytes so far.
  unfoldable pub run_attempts : ℕ → ℕ → ℕ → ℕ → KvPair → Run (ℕ × KvPair)
  run_attempts zero value_size attempt total p = ok (total, p)
  run_attempts (suc left) value_size attempt total p = do
    p ← run_attempt value_size attempt p
    run_attempts left value_size (attempt + 1) (total + attempt_bytes value_size attempt) p

  -- The sizes from `value_size` on, each with the bytes that were moved for it. The two flags of a
  -- size say whether the calls of gettimeofday succeed.
  unfoldable pub run_sizes : (ℕ → Bool × Bool) → ℕ → ℕ → ℕ → KvPair → Run (List (ℕ × ℕ) × KvPair)
  run_sizes clock zero max_size value_size p = out_of_fuel
  run_sizes clock (suc fuel) max_size value_size p = elim (ltb value_size max_size) [
    | false ↦ ok ([], p)
    | true ↦ elim (clock value_size).0 [
      | false ↦ ok ([], p)
      | true ↦ do
        (total, p) ← run_attempts total_attempts value_size 0 0 p
        elim (clock value_size).1 [
          | false ↦ ok ([], p)
          | true ↦ do
            (results, p) ← run_sizes clock fuel max_size (value_size * 2) p
            ok ((value_size, total) ∷ results, p)
        ]
    ]
  ]

  -- Twenty doublings are enough for both limits.
  unfoldable pub run_throuput_tests :
      (ℕ → Bool × Bool) → Bool → KvPair → Run (List (ℕ × ℕ) × KvPair)
  run_throuput_tests clock rndv_mode p =
      run_sizes clock 20 (if rndv_mode then max_test_size else eager_protocol_limit) 1
        (record p { client = record (p.client) { use_rndv_protocol = rndv_mode } })

-- The value's size as it is printed, and its unit.
pub data SizeUnit : Type 0 where
  mbytes kbytes bytes : SizeUnit

unfoldable pub printed_size : ℕ → ℕ × SizeUnit
printed_size value_size =
    if leb 1048576 value_size
    then (value_size / 1000000, mbytes)
    else if leb 1024 value_size
    then (value_size / 1000, kbytes)
    else (value_size, bytes)
