-- ===== src/Serve.antt =====
-- The main loop of Ex4/kv_server.c: `pp_wait_completions`, `clear_server_data` and `run_server`.
-- The completion queue is a parameter: the list of what the calls of ibv_poll_cq return. It bounds
-- the loops, and where it ends the code waits for ever.
pub mod Clearing
pub mod Invariant
use comm_networks_workshop.Base.{
  ℕ, zero, suc, ◌+◌, ◌-◌, ◌*◌, ◌/◌, ◌%◌, ◌^◌, ◌≤◌, ◌<◌, ◌≡◌, refl, sym, ap, ◌∙◌, fun_ext, ◌≢◌, ◌↔◌,
  ◌⊎◌, inl, inr, Bool, true, false, not, ◌&&◌, ◌||◌, Option, none, some, List, [], ◌∷◌, ◌++◌, map,
  arith, ltb, leb, ◌==◌, if◌then◌else◌, ltb→lt, lt→ltb, le→ltb, leb→le, ==_iff, tests, Bool-cases,
  Option-cases, str_eq, str_eq_refl, str_eq_sound, str_eq_iff, length, length-append, get_or, take,
  drop, replicate, length-take, take-append, length-replicate, All, get_or-append_left, get_elem?,
  set_elem, length-set_elem, get_elem?-set_elem, get_elem?-set_elem_ne, get_elem?-below,
  All-get_elem?,
}
use comm_networks_workshop.Run.{
  Run, ◌>>=◌, ◌>>◌, require, in_bounds, Ensures, Ensures-bind, Ensures-after, ok, fault,
  out_of_fuel, returns, faults, stops,
}
use comm_networks_workshop.Bytes.{
  Buf, put_byte, put_bytes, get_bytes, put_u32, get_u32, put_u64, get_u64, get_str, transmit,
}
use comm_networks_workshop.Packet.{
  Kind, code, kind, kind-code, code-lt, type_at, get_key_at, length_at, bytes_at, get_ptr_at,
  get_rkey_at, set_ptr_at, set_rkey_at, sizeof_packet, sizeof_pointer, eager_protocol_limit,
  max_test_size, min_pool_nodes, eager_get_request, eager_get_response, eager_set_request,
  rendezvous_get_request, rendezvous_get_response, rendezvous_set_request, rendezvous_set_response,
  close_connection, find, location,
}
use comm_networks_workshop.Pool.{
  MemInfo, Mem, Pool, sizeof_memory_info, buffer_addr, zeros, set_next, clear_buffer, set_node,
  take_node, taint, recycle_one, recycle, grow, refill_one, refill, maintain_pool,
}
use comm_networks_workshop.Fabric.{
  set_buffer, Fabric, send-transmit, ideal_write, ideal_read, ideal_write_registered,
  ideal_read_registered, transmit_copies, transmit_spares, ideal,
}
use comm_networks_workshop.Server.{
  Entry, Server, find_entry, write_entry, request_key, node_rkey, answer_small, answer_large,
  answer_missing, answer_with, answer_get, handle_eager_get, stored_value, overwrite_with,
  overwrite_small, append_entry, store_small, handle_eager_set, answer_location, overwrite_large,
  append_large, store_large, handle_rendezvous_set, dispatch, handle_server_packets_only,
}

-- A completion. For a receive, `sender` and `byte_len` are the message that has arrived.
pub record Wc : Type 0 where
  pub success : Bool
  pub wr_id : ℕ
  pub sender : Buf
  pub byte_len : ℕ

-- PINGPONG_RECV_WRID and PINGPONG_SEND_WRID
abbrev pub recv_wrid : ℕ
recv_wrid = 1

abbrev pub send_wrid : ℕ
send_wrid = 2

-- The return values 0, 1 and -1.
pub data Waited : Type 0 where
  completed broken stopped : Waited

-- The server with the responses it has sent and the receive requests it has posted.
pub record Served : Type 0 where
  pub server : Server
  pub sent : List (ℕ × Buf)
  pub posted : ℕ

-- Which registrations ibv_dereg_mr gives up, by the address of the node.
module _ (dereg_mr : ℕ → Bool) where
  -- One of the first two loops of `clear_server_data`: the nodes that are freed and the head that
  -- it leaves, which is NULL at the end and else the node whose call failed. A node without a
  -- registration is a null argument.
  unfoldable pub clear_chain : ℕ → Mem → ℕ → Run (List ℕ × ℕ)
  clear_chain zero m a = out_of_fuel
  clear_chain (suc fuel) m a = elim (a == 0) [
    | true ↦ ok ([], a)
    | false ↦ do
      rkey ← in_bounds (m a).rndv_mr
      elim (dereg_mr a) [
        | false ↦ ok ([], a)
        | true ↦ do (freed, head) ← clear_chain fuel m (m a).next_mem; ok (a ∷ freed, head)
      ]
  ]

  -- The third loop: the nodes of the entries that are freed, and the entries that are left.
  unfoldable pub clear_entries : Mem → List Entry → Run (List ℕ × List Entry)
  clear_entries m [] = ok ([], [])
  clear_entries m (e ∷ es) = elim (e.large_val_mem_info == 0) [
    | true ↦ clear_entries m es
    | false ↦ do
      rkey ← in_bounds (m e.large_val_mem_info).rndv_mr
      elim (dereg_mr e.large_val_mem_info) [
        | false ↦ ok ([], e ∷ es)
        | true ↦ do (freed, left) ← clear_entries m es; ok (e.large_val_mem_info ∷ freed, left)
      ]
  ]

  -- The nodes that are freed, in order, the globals afterwards, and the return value; a failed call
  -- ends it. The counters keep their values.
  unfoldable pub clear_server_data : ℕ → Server → Run (List ℕ × Server × ℕ)
  clear_server_data fuel s = do
    (pool, head) ← clear_chain fuel s.pool.mem s.pool.mem_pool_head
    let p = record (s.pool) { mem_pool_head = head }
    if not (head == 0) then ok (pool, record s { pool = p }, 1) else (do
      (tainted, head') ← clear_chain fuel s.pool.mem s.pool.tainted_mem_pool_head
      let q = record p { tainted_mem_pool_head = head' }
      if not (head' == 0) then ok (pool ++ tainted, record s { pool = q }, 1) else (do
        (held, left) ← clear_entries s.pool.mem s.entries
        ok (
          pool ++ tainted ++ held,
          record s { pool = q; entries = left },
          if length left == 0 then 0 else 1,
        )))

-- A response is sent unless its size is 0.
unfoldable pub respond : Served → Server → ℕ → Served
respond t s size = record t {
  server = s;
  sent = if size == 0 then t.sent else t.sent ++ (size, s.buf) ∷ [];
}

-- The test of `while (0 <= pp_wait_completions(ctx, 1));`: on -1 the loop ends.
unfoldable pub go_on : Waited → Served → Run Served → Run Served
go_on stopped t rest = ok t
go_on completed t rest = rest
go_on broken t rest = rest

module _ (f : Fabric) (reg_mr : ℕ → Option ℕ) (dereg_mr : ℕ → Bool) (fuel : ℕ) where
  -- case PINGPONG_RECV_WRID
  unfoldable pub receive_packet : Wc → Served → Run (Served × Option Waited)
  receive_packet w t = do
    (s, size) ←
        handle_server_packets_only
          (record (t.server) { buf = f.send w.byte_len w.sender t.server.buf })
    let t' = respond t s size
    if s.close_server
        then (do
          (freed, s', r) ← clear_server_data dereg_mr fuel s
          ok (record t' { server = s' }, some stopped))
        else ok (record t' { posted = t'.posted + 1 }, none)

  -- One round of the for loop; a value is an early return.
  unfoldable pub handle_completion : Wc → Served → Run (Served × Option Waited)
  handle_completion w t =
      if not w.success
      then ok (t, some broken)
      else if w.wr_id == send_wrid
      then ok (t, none)
      else if w.wr_id == recv_wrid
      then receive_packet w t
      else ok (t, some broken)

  unfoldable pub handle_completions : List Wc → Served → Run (Served × Option Waited)
  handle_completions [] t = ok (t, none)
  handle_completions (w ∷ wc) t = do
    (t', r) ← handle_completion w t
    elim r [ none ↦ handle_completions wc t' | some x ↦ ok (t', some x) ]

  -- The call of `maintain_pool` in the loop.
  unfoldable pub maintain : Served → Run (Served × ℕ)
  maintain t = do
    (p, r) ← maintain_pool reg_mr fuel t.server.pool
    ok (record t { server = record (t.server) { pool = p } }, r)

  -- `n` is rcnt + scnt. A poll is `none` when it fails and empty when it is repeated; the polls
  -- that are left are handed on.
  unfoldable pub wait_from :
      List (Option (List Wc)) → ℕ → ℕ → Served → Run (Served × Waited × List (Option (List Wc)))
  wait_from [] iters n t = if ltb n iters then out_of_fuel else ok (t, completed, [])
  wait_from (poll ∷ polls) iters n t = elim (ltb n iters) [
    | false ↦ ok (t, completed, poll ∷ polls)
    | true ↦ elim poll [
      | none ↦ ok (t, broken, polls)
      | some wc ↦ elim (length wc == 0) [
        | true ↦ wait_from polls iters n t
        | false ↦ do
          (t', r) ← handle_completions wc t
          elim r [
            | some x ↦ ok (t', x, polls)
            | none ↦ do
              (t'', m) ← maintain t'
              elim (m == 1) [
                | true ↦ ok (t'', stopped, polls)
                | false ↦ wait_from polls iters (n + length wc) t''
              ]
          ]
      ]
    ]
  ]

  unfoldable pub pp_wait_completions :
      List (Option (List Wc)) → ℕ → Served → Run (Served × Waited × List (Option (List Wc)))
  pp_wait_completions polls iters t = wait_from polls iters 0 t

  unfoldable pub serve : ℕ → List (Option (List Wc)) → Served → Run Served
  serve zero polls t = out_of_fuel
  serve (suc rounds) polls t = do
    (t', r, polls') ← pp_wait_completions polls 1 t
    go_on r t' (serve rounds polls' t')

  -- `run_server`, from the connected context on. Each round of its loop uses up a poll.
  unfoldable pub run_server : List (Option (List Wc)) → Served → Run Served
  run_server polls t = do
    (t', r) ← maintain t
    if r == 1 then ok t' else serve (length polls + 1) polls t'
