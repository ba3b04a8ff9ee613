-- ===== src/Indexer/Loop.antt =====
-- `clear_server_data`, `pp_wait_completions` and `run_server` of Ex4/kv_indexer.c. The pool is never
-- refilled.
use comm_networks_workshop.Base.{
  ℕ, zero, suc, ◌+◌, Bool, true, false, not, Option, none, some, List, [], ◌∷◌, ◌++◌, ltb, ◌==◌,
  if◌then◌else◌, length,
}
use comm_networks_workshop.Run.{Run, ◌>>=◌, in_bounds, ok, out_of_fuel}
use comm_networks_workshop.Bytes.{Buf}
use comm_networks_workshop.Pool.{Mem}
use comm_networks_workshop.Fabric.{Fabric}
use comm_networks_workshop.Serve.{
  Wc, recv_wrid, send_wrid, Waited, clear_chain, completed, broken, stopped,
}
use comm_networks_workshop.Indexer.Database.{IndexEntry, IndexStore, handle_index_packet}

pub record IndexServed : Type 0 where
  pub store : IndexStore
  pub sent : List (ℕ × Buf)
  pub posted : ℕ

module _ (dereg_mr : ℕ → Bool) where
  -- The third loop of `clear_server_data`: the nodes of the entries that are freed, and the entries
  -- that are left.
  unfoldable pub clear_index_entries : Mem → List IndexEntry → Run (List ℕ × List IndexEntry)
  clear_index_entries m [] = ok ([], [])
  clear_index_entries m (e ∷ es) = elim (e.large_val_mem_info == 0) [
    | true ↦ clear_index_entries m es
    | false ↦ do
      rkey ← in_bounds (m e.large_val_mem_info).rndv_mr
      elim (dereg_mr e.large_val_mem_info) [
        | false ↦ ok ([], e ∷ es)
        | true ↦ do
          (freed, left) ← clear_index_entries m es
          ok (e.large_val_mem_info ∷ freed, left)
      ]
  ]

  -- The nodes that are freed, the globals afterwards and the return value. The counters keep their
  -- values.
  unfoldable pub clear_index_data : ℕ → IndexStore → Run (List ℕ × IndexStore × ℕ)
  clear_index_data fuel s = do
    (pool, head) ← clear_chain dereg_mr fuel s.pool.mem s.pool.mem_pool_head
    let p = record (s.pool) { mem_pool_head = head }
    if not (head == 0) then ok (pool, record s { pool = p }, 1) else (do
      (tainted, head') ← clear_chain dereg_mr fuel s.pool.mem s.pool.tainted_mem_pool_head
      let q = record p { tainted_mem_pool_head = head' }
      if not (head' == 0) then ok (pool ++ tainted, record s { pool = q }, 1) else (do
        (held, left) ← clear_index_entries s.pool.mem s.entries
        ok (
          pool ++ tainted ++ held,
          record s { pool = q; entries = left },
          if length left == 0 then 0 else 1,
        )))

module _ (f : Fabric) (dereg_mr : ℕ → Bool) (fuel : ℕ) where
  -- case PINGPONG_RECV_WRID
  unfoldable pub receive_index_packet : Wc → IndexServed → Run (IndexServed × Option Waited)
  receive_index_packet w t = do
    (s, size) ←
        handle_index_packet (record (t.store) { buf = f.send w.byte_len w.sender t.store.buf })
    let t' : IndexServed = record t {
      store = s;
      sent = if size == 0 then t.sent else t.sent ++ (size, s.buf) ∷ [];
    }
    if s.close_server
        then (do
          (freed, s', r) ← clear_index_data dereg_mr fuel s
          ok (record t' { store = s' }, some stopped))
        else ok (record t' { posted = t'.posted + 1 }, none)

  unfoldable pub index_completion : Wc → IndexServed → Run (IndexServed × Option Waited)
  index_completion w t =
      if not w.success
      then ok (t, some broken)
      else if w.wr_id == send_wrid
      then ok (t, none)
      else if w.wr_id == recv_wrid
      then receive_index_packet w t
      else ok (t, some broken)

  unfoldable pub index_completions : List Wc → IndexServed → Run (IndexServed × Option Waited)
  index_completions [] t = ok (t, none)
  index_completions (w ∷ wc) t = do
    (t', r) ← index_completion w t
    elim r [ none ↦ index_completions wc t' | some x ↦ ok (t', some x) ]

  -- `n` is rcnt + scnt; the polls that are left are handed on.
  unfoldable pub index_wait :
      List (Option (List Wc))
      → ℕ
      → ℕ
      → IndexServed
      → Run (IndexServed × Waited × List (Option (List Wc)))
  index_wait [] iters n t = if ltb n iters then out_of_fuel else ok (t, completed, [])
  index_wait (poll ∷ polls) iters n t = elim (ltb n iters) [
    | false ↦ ok (t, completed, poll ∷ polls)
    | true ↦ elim poll [
      | none ↦ ok (t, broken, polls)
      | some wc ↦ do
        (t', r) ← index_completions wc t
        elim r [ some x ↦ ok (t', x, polls) | none ↦ index_wait polls iters (n + length wc) t' ]
    ]
  ]

  -- The loop of `run_server` ends on -1.
  unfoldable pub index_go_on : Waited → IndexServed → Run IndexServed → Run IndexServed
  index_go_on stopped t rest = ok t
  index_go_on completed t rest = rest
  index_go_on broken t rest = rest

  unfoldable pub index_serve : ℕ → List (Option (List Wc)) → IndexServed → Run IndexServed
  index_serve zero polls t = out_of_fuel
  index_serve (suc rounds) polls t = do
    (t', r, polls') ← index_wait polls 1 0 t
    index_go_on r t' (index_serve rounds polls' t')

  -- Each round uses up a poll.
  unfoldable pub run_index_server : List (Option (List Wc)) → IndexServed → Run IndexServed
  run_index_server polls t = index_serve (length polls + 1) polls t
