-- ===== src/Client/Waits.antt =====
-- The wait of Ex4/kv_client.c ends when enough has completed.
use comm_networks_workshop.Base.{
  ℕ, ◌+◌, ◌≤◌, ◌<◌, ◌≡◌, refl, ap, ◌⊎◌, inl, inr, true, false, Option, none, some, List, [], ◌∷◌,
  arith, ltb, ltb→lt, Bool-cases, length, All,
}
use comm_networks_workshop.Run.{ok}
use comm_networks_workshop.Client.Completions.{
  ClientWc, Counts, pingpong_recv_wrid, pingpong_send_wrid, count_completion, count_completions,
  count_polls, wait_completions,
}

-- A completion of a send or a receive that has succeeded.
abbrev pub IsGood : ClientWc → Type 0
IsGood w = (w.success ≡ true) × ((w.wr_id ≡ pingpong_send_wrid) ⊎ (w.wr_id ≡ pingpong_recv_wrid))

-- A poll that has succeeded: at most two completions, all good.
abbrev pub IsGoodPoll : Option (List ClientWc) → Type 0
IsGoodPoll none = ⊥
IsGoodPoll (some wc) = (length wc ≤ 2) × All IsGood wc

abbrev pub completed_in : List (Option (List ClientWc)) → ℕ
completed_in [] = 0
completed_in (none ∷ polls) = completed_in polls
completed_in (some wc ∷ polls) = length wc + completed_in polls

abbrev pub counted : Counts → ℕ
counted c = c.rcnt + c.scnt

count_completion-IsGood :
    (w : ClientWc) (c : Counts)
    → IsGood w
    → c.reposted ≡ c.rcnt
    → (d : Counts) × (count_completion w c ≡ some d)
      × (counted d ≡ counted c + 1)
      × (d.reposted ≡ d.rcnt)
unfolding count_completion
count_completion-IsGood w c (fine, kind) r = elim kind [
  | inl sent ↦ (record c { scnt = c.scnt + 1 }, rw (fine, sent) refl, omega arith, r)
  | inr received ↦ (
    record c { rcnt = c.rcnt + 1; reposted = c.reposted + 1 },
    rw (fine, received) refl,
    omega arith,
    ap (λ n. n + 1) r,
  )
]

count_completions-IsGood :
    (wc : List ClientWc) (c : Counts)
    → All IsGood wc
    → c.reposted ≡ c.rcnt
    → (d : Counts) × (count_completions wc c ≡ some d)
      × (counted d ≡ counted c + length wc)
      × (d.reposted ≡ d.rcnt)
unfolding count_completions
count_completions-IsGood [] c good r = (c, refl, omega arith, r)
count_completions-IsGood (w ∷ wc) c (good, goods) r =
    let (d, one, more, r') = count_completion-IsGood w c good r in
    let (e, all, more', r'') = count_completions-IsGood wc d goods r' in
    (e, rw (count_completions, one) all, omega (arith, more, more'), r'')

count_polls-returns :
    (polls : List (Option (List ClientWc))) (iters : ℕ) (c : Counts)
    → All IsGoodPoll polls
    → c.reposted ≡ c.rcnt
    → counted c < iters + 2
    → iters ≤ counted c + completed_in polls
    → (d : Counts) × (count_polls polls iters c ≡ ok (some d))
      × (iters ≤ counted d)
      × (counted d < iters + 2)
      × (d.reposted ≡ d.rcnt)
unfolding count_polls
count_polls-returns [] iters c good r below enough =
    let over : ltb (c.rcnt + c.scnt) iters ≡ false = ground arith in
    (c, rw (count_polls, over) refl, omega arith, below, r)
count_polls-returns (none ∷ polls) iters c good r below enough = absurd (good.0)
count_polls-returns (some wc ∷ polls) iters c ((two, good), goods) r below enough =
    elim (Bool-cases (ltb (c.rcnt + c.scnt) iters)) [
      | inl waits ↦
          let (d, all, more, r') = count_completions-IsGood wc c good r in
          let less : counted c < iters = ltb→lt _ _ waits in
          let (e, ends, enough', below', r'') =
            count_polls-returns polls iters d goods r' (omega (arith, more, less, two))
              (omega (arith, more, enough)) in
          (e, rw (count_polls, waits) (rw all ends), enough', below', r'')
      | inr over ↦ (c, rw (count_polls, over) refl, ground arith, below, r)
    ]

-- When every poll succeeds with at most two completions, all of them of sends or receives that have
-- succeeded, and there are enough of them: the client's `pp_wait_completions` returns 0, it has
-- counted at least as many as it was asked to wait for and at most one more, and it has posted a
-- receive for each one that was used up.
pub wait_completions-returns :
    (polls : List (Option (List ClientWc))) (iters : ℕ)
    → All IsGoodPoll polls
    → iters ≤ completed_in polls
    → (d : Counts) × (wait_completions polls iters ≡ ok (some d))
      × (iters ≤ counted d)
      × (counted d < iters + 2)
      × (d.reposted ≡ d.rcnt)
unfolding wait_completions
wait_completions-returns polls iters good enough =
    count_polls-returns polls iters (record { rcnt = 0; scnt = 0; reposted = 0 }) good refl
      (omega arith) (omega arith)
