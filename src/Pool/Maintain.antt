-- ===== src/Pool/Maintain.antt =====
-- What `maintain_pool` of Ex4/kv_server.c makes of the pool: right without tainted nodes, and short
-- of what the counter says with them.
use mathlib.Core.Path.{subst}
use comm_networks_workshop.Base.{
  ℕ, zero, suc, ◌+◌, ◌-◌, ◌≤◌, ◌<◌, ◌≡◌, refl, Option, some, List, [], ◌∷◌, ◌++◌, arith, length,
  length-append,
}
use comm_networks_workshop.Run.{ok}
use comm_networks_workshop.Packet.{min_pool_nodes}
use comm_networks_workshop.Pool.{Pool, maintain_pool}
use comm_networks_workshop.Pool.Chain.{Chain, Absent, Pooled, Pooled-Chain}
use comm_networks_workshop.Pool.Refill.{
  addrs, length-addrs, refill-ToppedUp, refill-full, refill-empty,
}
use comm_networks_workshop.Pool.Recycle.{last_of, recycle-nil, recycle-Recycled}

-- The call returns `status`, and then `mem_pool_head` leads through the nodes `xs` to NULL.
abbrev pub Maintained : (ℕ → Option ℕ) → ℕ → Pool → ℕ → List ℕ → ℕ → Type 0
Maintained reg_mr fuel p status xs size =
    (q : Pool) × (maintain_pool reg_mr fuel p ≡ ok (q, status))
    × Chain q.mem q.mem_pool_head xs 0
    × (q.pool_size ≡ size)

module _ (reg_mr : ℕ → Option ℕ) (key : ℕ → ℕ) (reg : (a : ℕ) → reg_mr a ≡ some (key a)) where
  -- When all registrations succeed, the first call, with an empty pool and no tainted nodes,
  -- returns 0 and makes a list of ten nodes, counted as ten.
  pub maintain_pool-empty :
      (fuel : ℕ) (p : Pool)
      → 0 < fuel
      → p.tainted_mem_pool_head ≡ 0
      → p.pool_size ≡ 0
      → 0 < p.brk
      → Maintained reg_mr fuel p 0 (addrs min_pool_nodes p.brk) min_pool_nodes
  unfolding maintain_pool
  maintain_pool-empty zero p f t e pos = absurd (omega arith)
  maintain_pool-empty (suc fuel) p f t e pos =
      let (q, r, c, z) = refill-empty reg_mr key reg p e pos in
      (q, rw (recycle-nil fuel p t) r, c, z)

  -- When all registrations succeed, without tainted nodes, and with a pool of fewer than ten nodes
  -- that ends at its tail and is counted correctly, `maintain_pool` returns 0, and ten nodes are
  -- counted and in the list, the old ones first.
  pub maintain_pool-untainted :
      (fuel : ℕ) (p : Pool) (pre : List ℕ)
      → 0 < fuel
      → p.tainted_mem_pool_head ≡ 0
      → Pooled p pre []
      → p.pool_size ≡ length pre + 1
      → p.pool_size < min_pool_nodes
      → (xs : List ℕ) × Maintained reg_mr fuel p 0 (pre ++ p.mem_pool_tail ∷ xs) min_pool_nodes
        × (length (pre ++ p.mem_pool_tail ∷ xs) ≡ min_pool_nodes)
  unfolding maintain_pool
  maintain_pool-untainted zero p pre f t h s few = absurd (omega arith)
  maintain_pool-untainted (suc fuel) p pre f t h s few =
      let n : ℕ = min_pool_nodes - p.pool_size in
      let (q, r, c, z) = refill-ToppedUp reg_mr key reg p pre [] (omega arith) few h in
      (
        addrs n p.brk,
        (q, rw (recycle-nil fuel p t) r, c, z),
        omega (arith, length-append pre (p.mem_pool_tail ∷ addrs n p.brk), length-addrs n p.brk),
      )

  -- When all registrations succeed, with tainted nodes, none of which is the pool's tail, and fewer
  -- than ten nodes counted in all: `maintain_pool` returns 0 and counts ten nodes, but of the ten
  -- only the old nodes up to the tail, and behind them the nodes that malloc has just given, are in
  -- the list that `mem_pool_head` leads through: it is shorter than the count by the tainted nodes
  -- and the nodes that stood behind the tail.
  pub maintain_pool_leak :
      (fuel : ℕ) (p : Pool) (pre behind : List ℕ) (x : ℕ) (tainted : List ℕ)
      → length tainted + 1 < fuel
      → Chain p.mem p.tainted_mem_pool_head (x ∷ tainted) 0
      → Absent p.mem_pool_tail (x ∷ tainted)
      → Pooled p pre behind
      → p.pool_size ≡ length pre + 1 + length behind
      → p.pool_size + length (x ∷ tainted) < min_pool_nodes
      → Maintained reg_mr fuel p 0
          (pre
            ++ p.mem_pool_tail
              ∷ addrs (min_pool_nodes - (p.pool_size + length (x ∷ tainted))) p.brk)
          min_pool_nodes
        × (length (
                pre
                ++ p.mem_pool_tail
                  ∷ addrs (min_pool_nodes - (p.pool_size + length (x ∷ tainted))) p.brk)
              + length behind
              + length (x ∷ tainted)
            ≡ min_pool_nodes)
  unfolding maintain_pool
  maintain_pool_leak fuel p pre behind x tainted f c out h s few =
      let (p', e, hp, s', t', b', _) = recycle-Recycled fuel p pre behind x tainted f h c out in
      let n : ℕ = min_pool_nodes - p'.pool_size in
      let (q, r, d, z) =
        refill-ToppedUp reg_mr key reg p' pre (last_of x tainted ∷ []) (omega arith) (omega arith)
          hp in
      let m : ℕ = min_pool_nodes - (p.pool_size + length (x ∷ tainted)) in
      let xs_is : pre ++ p'.mem_pool_tail ∷ addrs n p'.brk
          ≡ pre ++ p.mem_pool_tail ∷ addrs m p.brk =
        rw (t', b', s') refl in
      (
        (q, rw e r, subst (λ xs. Chain q.mem q.mem_pool_head xs 0) xs_is d, z),
        omega (arith, length-append pre (p.mem_pool_tail ∷ addrs m p.brk), length-addrs m p.brk),
      )

  -- With tainted nodes, none of which is the pool's tail, and at least ten nodes counted in all,
  -- `maintain_pool` returns 0 and counts them all, but of the tainted nodes only the last is in the
  -- list behind the old tail.
  pub maintain_pool-full :
      (fuel : ℕ) (p : Pool) (pre behind : List ℕ) (x : ℕ) (tainted : List ℕ)
      → length tainted + 1 < fuel
      → Chain p.mem p.tainted_mem_pool_head (x ∷ tainted) 0
      → Absent p.mem_pool_tail (x ∷ tainted)
      → Pooled p pre behind
      → min_pool_nodes ≤ p.pool_size + length (x ∷ tainted)
      → Maintained reg_mr fuel p 0
          (pre ++ p.mem_pool_tail ∷ last_of x tainted ∷ [])
          (p.pool_size + length (x ∷ tainted))
  unfolding maintain_pool
  maintain_pool-full fuel p pre behind x tainted f c out h many =
      let (q, e, hq, s, t, b, _) = recycle-Recycled fuel p pre behind x tainted f h c out in
      (
        q,
        rw e (refill-full reg_mr key reg q (omega arith)),
        rw t at (Pooled-Chain q pre (last_of x tainted ∷ []) hq),
        s,
      )
