-- ===== src/Template/Stale.antt =====
-- The release of the server's pool of Ex3/kv_template.c by `pp_close_ctx`.
use mathlib.Core.Path.{subst}
use comm_networks_workshop.Base.{
  ℕ, zero, suc, ◌+◌, ◌^◌, ◌<◌, ◌≡◌, refl, sym, ◌∙◌, Bool, true, false, Option, none, some, List, [],
  ◌∷◌, ◌++◌, arith, ◌==◌, length, All,
}
use comm_networks_workshop.Run.{Run, ◌>>=◌, in_bounds, ok, fault, out_of_fuel}
use comm_networks_workshop.Pool.{Mem}
use comm_networks_workshop.Template.{KvStore}
use comm_networks_workshop.Template.Memory.{Usable, IsPool}
use comm_networks_workshop.Pool.Chain.{Chain}
use comm_networks_workshop.Template.Start.{init_pool, init_pool-IsPool}

-- The first loop of `pp_close_ctx`: the nodes that are freed, and whether a call failed. An address
-- where there is no node is a fault.
unfoldable pub close_pool : (ℕ → Bool) → ℕ → Mem → ℕ → Run (List ℕ × Bool)
close_pool dereg_mr zero m a = out_of_fuel
close_pool dereg_mr (suc fuel) m a = elim (a == 0) [
  | true ↦ ok ([], false)
  | false ↦ do
    rkey ← in_bounds (m a).rndv_mr
    elim (dereg_mr a) [
      | false ↦ ok ([], true)
      | true ↦ do
        (freed, failed) ← close_pool dereg_mr fuel m (m a).next_mem
        ok (a ∷ freed, failed)
    ]
]

Chain-behind :
    (m : Mem) (p : ℕ) (front : List ℕ) (t r : ℕ)
    → Chain m p (front ++ t ∷ []) r
    → (m t).next_mem ≡ r
Chain-behind m p [] t r (at, live, e) = e
Chain-behind m p (x ∷ front) t r (at, live, c) = Chain-behind m (m x).next_mem front t r c

close_pool-walks :
    (dereg_mr : ℕ → Bool) (fuel : ℕ) (m : Mem) (p : ℕ) (xs : List ℕ) (r : ℕ)
    → ((a : ℕ) → dereg_mr a ≡ true)
    → Chain m p xs r
    → All (Usable m) xs
    → 0 < r
    → (m r).rndv_mr ≡ none
    → close_pool dereg_mr (length xs + suc fuel) m p ≡ fault
unfolding close_pool
close_pool-walks dereg_mr fuel m p [] r fine c u live nothing =
    let z : 0 + suc fuel ≡ suc fuel = omega arith in
    let go : (p == 0) ≡ false = ground (arith, c) in
    let gone : (m p).rndv_mr ≡ none = rw c nothing in rw z (rw (close_pool, go) (rw gone refl))
close_pool-walks dereg_mr fuel m p (x ∷ xs) r fine (at, some_node, c) ((k, known, low), u) live
      nothing =
    let z : suc (length xs) + suc fuel ≡ suc (length xs + suc fuel) = omega arith in
    let go : (x == 0) ≡ false = ground arith in
    let rest = close_pool-walks dereg_mr fuel m (m x).next_mem xs r fine c u live nothing in
    rw z (rw at (rw (close_pool, go) (rw known (rw (fine x) (rw rest refl)))))

stale_walk :
    (dereg_mr : ℕ → Bool) (fuel : ℕ) (u : KvStore) (ys : List ℕ) (r : ℕ)
    → ((a : ℕ) → dereg_mr a ≡ true)
    → IsPool u.mem u.rndv_pool_head u.rndv_pool_tail u.rndv_pool_nodes_counter u.brk ys
    → length ys ≡ 10
    → (u.mem u.rndv_pool_tail).next_mem ≡ r
    → 0 < r
    → (u.mem r).rndv_mr ≡ none
    → close_pool dereg_mr (fuel + 11) u.mem u.rndv_pool_head ≡ fault
stale_walk dereg_mr fuel u ys r fine h len stale live nothing =
    let whole : Chain u.mem u.rndv_pool_head (h.front ++ u.rndv_pool_tail ∷ []) h.behind =
      subst (λ (xs : List ℕ). Chain u.mem u.rndv_pool_head xs h.behind) h.tail_is h.chain in
    let end : h.behind ≡ r =
      sym (Chain-behind u.mem u.rndv_pool_head h.front u.rndv_pool_tail h.behind whole) ∙ stale in
    let n : length ys + suc fuel ≡ fuel + 11 = omega (arith, len) in
    subst (λ k. close_pool dereg_mr k u.mem u.rndv_pool_head ≡ fault) n
      (close_pool-walks dereg_mr fuel u.mem u.rndv_pool_head ys r fine
        (subst (Chain u.mem u.rndv_pool_head ys) end h.chain) h.usable live nothing)

-- When the pool of the first server is made from a server's globals as they are at its start, every
-- registration succeeding with a 32-bit key, and malloc has left in `next` of the last node an
-- address other than NULL where there is no node: the loop of `pp_close_ctx` that releases the pool
-- follows that address and is a fault, even when every release succeeds.
pub close_pool-stale :
    (reg_mr : ℕ → Option ℕ) (stale_next : ℕ → ℕ) (dereg_mr : ℕ → Bool) (fuel : ℕ) (s t : KvStore)
    → ((a : ℕ) → (k : ℕ) × (reg_mr a ≡ some k) × (k < 2 ^ 32))
    → ((a : ℕ) → dereg_mr a ≡ true)
    → 0 < s.brk
    → s.rndv_pool_nodes_counter ≡ 0
    → init_pool reg_mr stale_next s ≡ ok (some t)
    → 0 < stale_next t.rndv_pool_tail
    → (t.mem (stale_next t.rndv_pool_tail)).rndv_mr ≡ none
    → close_pool dereg_mr (fuel + 11) t.mem t.rndv_pool_head ≡ fault
close_pool-stale reg_mr stale_next dereg_mr fuel s t registers fine live none_counted made garbage
      nothing =
    let (u, ys, made', pool, len, stale, close_is, tail_is, brk_is) =
      init_pool-IsPool reg_mr stale_next registers s live none_counted in
    let e : ok (some u) ≡ ok (some t) = sym made' ∙ made in
    let same : u ≡ t = cc e in
    let goal : (v : KvStore)
        → u ≡ v
        → 0 < stale_next v.rndv_pool_tail
        → (v.mem (stale_next v.rndv_pool_tail)).rndv_mr ≡ none
        → close_pool dereg_mr (fuel + 11) v.mem v.rndv_pool_head ≡ fault =
      λ v q.
        subst
          (λ (v : KvStore).
            0 < stale_next v.rndv_pool_tail
            → (v.mem (stale_next v.rndv_pool_tail)).rndv_mr ≡ none
            → close_pool dereg_mr (fuel + 11) v.mem v.rndv_pool_head ≡ fault)
          q
          (λ g n.
            stale_walk dereg_mr fuel u ys (stale_next u.rndv_pool_tail) fine pool len stale g n) in
    goal t same garbage nothing
