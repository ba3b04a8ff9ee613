-- ===== src/Client/Completions.antt =====
-- `pp_wait_completions` of Ex4/kv_client.c, which counts completions of either kind.
use comm_networks_workshop.Base.{
  ℕ, ◌+◌, ◌≡◌, refl, Bool, true, false, not, Option, none, some, List, [], ◌∷◌, ltb, ◌==◌,
  if◌then◌else◌,
}
use comm_networks_workshop.Run.{Run, ok, out_of_fuel}

-- A work completion: its status is IBV_WC_SUCCESS or not; its number.
pub record ClientWc : Type 0 where
  pub success : Bool
  pub wr_id : ℕ

-- The two counters, and the receives that were posted in between.
pub record Counts : Type 0 where
  pub rcnt : ℕ
  pub scnt : ℕ
  pub reposted : ℕ

abbrev pub pingpong_recv_wrid : ℕ
pingpong_recv_wrid = 1

abbrev pub pingpong_send_wrid : ℕ
pingpong_send_wrid = 2

-- One completion; `none` is the return of 1.
unfoldable pub count_completion : ClientWc → Counts → Option Counts
count_completion w c =
    if not w.success
    then none
    else if w.wr_id == pingpong_send_wrid
    then some (record c { scnt = c.scnt + 1 })
    else if w.wr_id == pingpong_recv_wrid
    then some (record c { rcnt = c.rcnt + 1; reposted = c.reposted + 1 })
    else none

unfoldable pub count_completions : List ClientWc → Counts → Option Counts
count_completions [] c = some c
count_completions (w ∷ wc) c = elim (count_completion w c) [
  | none ↦ none
  | some c' ↦ count_completions wc c'
]

-- The loop over the polls; a poll is `none` when it fails, and empty when nothing has completed yet.
-- The result is `none` when the call returns 1.
unfoldable pub count_polls : List (Option (List ClientWc)) → ℕ → Counts → Run (Option Counts)
count_polls [] iters c = if ltb (c.rcnt + c.scnt) iters then out_of_fuel else ok (some c)
count_polls (poll ∷ polls) iters c = elim (ltb (c.rcnt + c.scnt) iters) [
  | false ↦ ok (some c)
  | true ↦ elim poll [
    | none ↦ ok none
    | some wc ↦ elim (count_completions wc c) [
      | none ↦ ok none
      | some c' ↦ count_polls polls iters c'
    ]
  ]
]

unfoldable pub wait_completions : List (Option (List ClientWc)) → ℕ → Run (Option Counts)
wait_completions polls iters = count_polls polls iters (record { rcnt = 0; scnt = 0; reposted = 0 })

-- A send and a receive, polled one by one, end a wait for two.
wait_for_both :
    wait_completions
      (some []
        ∷ (some (record { success = true; wr_id = 2 } ∷ [])
            ∷ (some (record { success = true; wr_id = 1 } ∷ []) ∷ [])))
      2
    ≡ ok (some (record { rcnt = 1; scnt = 1; reposted = 1 }))
unfolding wait_completions count_polls count_completions count_completion
wait_for_both = refl
