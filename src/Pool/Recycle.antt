-- ===== src/Pool/Recycle.antt =====
-- The first loop of `maintain_pool` walks the tainted list to its end, and links each node behind
-- the tail pointer, which it does not move.
use comm_networks_workshop.Base.{
  ℕ, zero, suc, ◌+◌, ◌<◌, ◌≡◌, refl, ◌∙◌, true, false, List, [], ◌∷◌, arith, ◌==◌, length,
}
use comm_networks_workshop.Run.{ok}
use comm_networks_workshop.Pool.{Mem, Pool, set_next, clear_buffer, recycle_one, recycle}
use comm_networks_workshop.Pool.Chain.{Chain, Absent, Chain-set_next, Chain-clear_buffer, Pooled}

abbrev recycled_mem : Pool → ℕ → Mem
recycled_mem p x = set_next (clear_buffer p.mem x) p.mem_pool_tail x

-- The pool after a round that moves the tainted node `x`.
abbrev recycled : Pool → ℕ → Pool
recycled p x = record p {
  pool_size = p.pool_size + 1;
  mem = recycled_mem p x;
  tainted_mem_pool_head = (recycled_mem p x x).next_mem;
}

recycle_one-recycled :
    (p : Pool) (x : ℕ)
    → 0 < p.mem_pool_tail
    → p.tainted_mem_pool_head ≡ x
    → recycle_one p ≡ recycled p x
unfolding recycle_one
recycle_one-recycled p x pos e =
    let ne : (p.mem_pool_tail == 0) ≡ false = ground arith in rw (ne, e)

module _ (p : Pool) (pre behind : List ℕ) (x : ℕ) (xs : List ℕ) (h : Pooled p pre behind) where
  recycled_back :
      Chain p.mem x (x ∷ xs) 0
      → Absent p.mem_pool_tail (x ∷ xs)
      → Chain (recycled p x).mem x (x ∷ xs) 0
  recycled_back c out =
      Chain-set_next (clear_buffer p.mem x) p.mem_pool_tail x x (x ∷ xs) 0 out
        (Chain-clear_buffer p.mem x x (x ∷ xs) 0 c)

  recycled-Pooled :
      Chain p.mem x (x ∷ xs) 0
      → Absent p.mem_pool_tail (x ∷ xs)
      → Pooled (recycled p x) pre (x ∷ xs)
  recycled-Pooled c out = record {
    front =
        Chain-set_next (clear_buffer p.mem x) p.mem_pool_tail x p.mem_pool_head pre p.mem_pool_tail
          h.tail_last (Chain-clear_buffer p.mem x p.mem_pool_head pre p.mem_pool_tail h.front);
    tail_pos = h.tail_pos;
    back =
        let e : (recycled_mem p x p.mem_pool_tail).next_mem ≡ x = unfold set_next in ground arith in
        rw e (recycled_back c out);
    below = h.below;
    tail_below = h.tail_below;
    tail_last = h.tail_last;
  }

abbrev pub last_of : ℕ → List ℕ → ℕ
last_of x [] = x
last_of x (y ∷ ys) = last_of y ys

-- The first loop ends, and of the nodes that it moved only the last one hangs behind the tail.
abbrev pub Recycled : ℕ → Pool → List ℕ → ℕ → List ℕ → Type 0
Recycled fuel p pre x xs =
    (q : Pool) × (recycle fuel p ≡ ok q)
    × Pooled q pre (last_of x xs ∷ [])
    × (q.pool_size ≡ p.pool_size + length (x ∷ xs))
    × (q.mem_pool_tail ≡ p.mem_pool_tail)
    × (q.brk ≡ p.brk)
    × (q.tainted_mem_pool_head ≡ 0)

recycle_step :
    (fuel : ℕ) (p : Pool) (x : ℕ)
    → 0 < p.mem_pool_tail
    → 0 < x
    → p.tainted_mem_pool_head ≡ x
    → recycle (suc fuel) p ≡ recycle fuel (recycled p x)
unfolding recycle
recycle_step fuel p x pos px e =
    let ne : (p.tainted_mem_pool_head == 0) ≡ false = ground arith in
    rw (ne, recycle_one-recycled p x pos e)

pub recycle-nil : (fuel : ℕ) (p : Pool) → p.tainted_mem_pool_head ≡ 0 → recycle (suc fuel) p ≡ ok p
unfolding recycle
recycle-nil fuel p e = let z : (p.tainted_mem_pool_head == 0) ≡ true = ground arith in rw z

pub recycle-Recycled :
    (fuel : ℕ) (p : Pool) (pre behind : List ℕ) (x : ℕ) (xs : List ℕ)
    → length xs + 1 < fuel
    → Pooled p pre behind
    → Chain p.mem p.tainted_mem_pool_head (x ∷ xs) 0
    → Absent p.mem_pool_tail (x ∷ xs)
    → Recycled fuel p pre x xs
recycle-Recycled zero p pre behind x xs f h c out = absurd (omega arith)
recycle-Recycled (suc zero) p pre behind x xs f h c out = absurd (omega arith)
recycle-Recycled (suc (suc fuel)) p pre behind x [] f h c out =
    let d = recycled_back p pre behind x [] h (refl, c.1, c.2) out in
    (
      recycled p x,
      recycle_step (suc fuel) p x h.tail_pos c.1 c.0 ∙ recycle-nil fuel (recycled p x) d.2,
      recycled-Pooled p pre behind x [] h (refl, c.1, c.2) out,
      omega arith,
      refl,
      refl,
      d.2,
    )
recycle-Recycled (suc fuel) p pre behind x (y ∷ ys) f h c out =
    let d = recycled_back p pre behind x (y ∷ ys) h (refl, c.1, c.2) out in
    let (q, e, hq, s, t, b, z) =
      recycle-Recycled fuel (recycled p x) pre (x ∷ y ∷ ys) y ys (omega arith)
        (recycled-Pooled p pre behind x (y ∷ ys) h (refl, c.1, c.2) out) d.2 out.1 in
    (q, recycle_step fuel p x h.tail_pos c.1 c.0 ∙ e, hq, omega arith, t, b, z)
