-- ===== src/Pool/Refill.antt =====
-- The second loop of `maintain_pool` tops the pool up to MIN_POOL_NODES.
use comm_networks_workshop.Base.{
  ℕ, zero, suc, ◌+◌, ◌-◌, ◌≤◌, ◌<◌, ◌≡◌, refl, ap, true, false, Option, none, some, List, [], ◌∷◌,
  ◌++◌, arith, ltb, ◌==◌, lt→ltb, le→ltb, length,
}
use mathlib.Core.List.{append_assoc}
use comm_networks_workshop.Run.{ok}
use comm_networks_workshop.Packet.{min_pool_nodes}
use comm_networks_workshop.Pool.{
  Pool, zeros, set_next, set_node, grow, refill_one, refill, sizeof_memory_info,
}
use comm_networks_workshop.Pool.Chain.{
  Chain, Absent, Below-Absent, Below-mono, All-append, Chain-set_next, Chain-set_node, Chain-append,
  Pooled, Pooled-Chain,
}

-- The addresses of the next `n` nodes that malloc returns.
abbrev pub addrs : ℕ → ℕ → List ℕ
addrs zero b = []
addrs (suc n) b = b ∷ addrs n (b + sizeof_memory_info)

pub length-addrs : (n b : ℕ) → length (addrs n b) ≡ n
length-addrs zero b = refl
length-addrs (suc n) b = ap suc (length-addrs n (b + sizeof_memory_info))

-- What malloc and the two assignments make of a nonempty pool.
abbrev grown : Pool → Pool
grown p = record p {
  mem_pool_tail = p.brk;
  mem =
      set_node (set_next p.mem p.mem_pool_tail p.brk) p.brk
        (record { rndv_mr = none; rndv_buffer = zeros; next_mem = 0 });
  brk = p.brk + sizeof_memory_info;
}

-- The pool after a round that registers its fresh node under `rkey`.
abbrev refilled : Pool → ℕ → Pool
refilled p rkey = record (grown p) {
  mem = set_node (grown p).mem p.brk (record ((grown p).mem p.brk) { rndv_mr = some rkey });
  pool_size = p.pool_size + 1;
}

-- A round with a nonempty pool links a fresh node behind the tail, over whatever was there.
refilled-Pooled :
    (p : Pool) (pre behind : List ℕ) (rkey : ℕ)
    → Pooled p pre behind
    → Pooled (refilled p rkey) (pre ++ p.mem_pool_tail ∷ []) []
refilled-Pooled p pre behind rkey h = record {
  front =
      Chain-append (refilled p rkey).mem p.mem_pool_head p.mem_pool_tail pre (p.mem_pool_tail ∷ [])
        p.brk
        (lift p.mem_pool_head pre p.mem_pool_tail
          (Chain-set_next p.mem p.mem_pool_tail p.brk p.mem_pool_head pre p.mem_pool_tail
            h.tail_last h.front)
          (Below-Absent p.brk pre h.below))
        (refl, h.tail_pos, unfold set_node set_next in ground (arith, h.tail_below));
  tail_pos = omega (arith, h.tail_below);
  back = unfold set_node in ground arith;
  below =
      All-append _ pre (p.mem_pool_tail ∷ [])
        (Below-mono p.brk (p.brk + sizeof_memory_info) pre (omega arith) h.below)
        (omega (arith, h.tail_below), tt);
  tail_below = omega arith;
  tail_last =
      All-append _ pre (p.mem_pool_tail ∷ []) (Below-Absent p.brk pre h.below)
        ((λ e. omega (arith, h.tail_below)), tt);
}
  where
    lift :
        (a : ℕ) (xs : List ℕ) (q : ℕ)
        → Chain (set_next p.mem p.mem_pool_tail p.brk) a xs q
        → Absent p.brk xs
        → Chain (refilled p rkey).mem a xs q
    lift a xs q c out =
        Chain-set_node (grown p).mem p.brk _ a xs q out
          (Chain-set_node (set_next p.mem p.mem_pool_tail p.brk) p.brk _ a xs q out c)

-- The same for an empty pool: its first node becomes head and tail.
abbrev first_grown : Pool → Pool
first_grown p = record p {
  mem_pool_head = p.brk;
  mem_pool_tail = p.brk;
  mem = set_node p.mem p.brk (record { rndv_mr = none; rndv_buffer = zeros; next_mem = 0 });
  brk = p.brk + sizeof_memory_info;
}

abbrev first_node : Pool → ℕ → Pool
first_node p rkey = record (first_grown p) {
  mem =
      set_node (first_grown p).mem p.brk
        (record ((first_grown p).mem p.brk) { rndv_mr = some rkey });
  pool_size = p.pool_size + 1;
}

grow-grown : (p : Pool) → 0 < p.pool_size → grow p ≡ grown p
unfolding grow
grow-grown p pos = let e : (p.pool_size == 0) ≡ false = ground arith in rw e

grow-first : (p : Pool) → p.pool_size ≡ 0 → grow p ≡ first_grown p
unfolding grow
grow-first p e = let z : (p.pool_size == 0) ≡ true = ground arith in rw z

module _ (reg_mr : ℕ → Option ℕ) where
  refill_one-refilled :
      (p : Pool) {rkey : ℕ}
      → 0 < p.pool_size
      → reg_mr p.brk ≡ some rkey
      → refill_one reg_mr p ≡ (refilled p rkey, false)
  unfolding refill_one
  refill_one-refilled p pos r = rw (grow-grown p pos, r, refill_one) (rw (grow-grown p pos))

  -- The second loop ends with a count of ten, and its fresh nodes follow the tail pointer's node.
  abbrev pub ToppedUp : ℕ → Pool → List ℕ → ℕ → Type 0
  ToppedUp fuel p pre n =
      (q : Pool) × (refill reg_mr fuel p ≡ ok (q, 0))
      × Chain q.mem q.mem_pool_head (pre ++ p.mem_pool_tail ∷ addrs n p.brk) 0
      × (q.pool_size ≡ min_pool_nodes)

  module _ (key : ℕ → ℕ) (reg : (a : ℕ) → reg_mr a ≡ some (key a)) where
    refill_round :
        (n fuel : ℕ) (p : Pool) (pre : List ℕ)
        → 0 < p.pool_size
        → p.pool_size < min_pool_nodes
        → ToppedUp fuel (refilled p (key p.brk)) (pre ++ p.mem_pool_tail ∷ []) n
        → ToppedUp (suc fuel) p pre (suc n)
    unfolding refill
    refill_round n fuel p pre pos few (q, e, c, z) =
        let more : ltb p.pool_size min_pool_nodes ≡ true = lt→ltb _ _ few in
        (
          q,
          rw (more, refill_one-refilled p pos (reg p.brk)) e,
          rw
              (append_assoc pre (p.mem_pool_tail ∷ [])
                (p.brk ∷ addrs n (p.brk + sizeof_memory_info)))
              at c,
          z,
        )

    refill_rounds :
        (n fuel : ℕ) (p : Pool) (pre : List ℕ)
        → n < fuel
        → 0 < p.pool_size
        → p.pool_size + n ≡ min_pool_nodes
        → Pooled p pre []
        → ToppedUp fuel p pre n
    unfolding refill
    refill_rounds n zero p pre f pos s h = absurd (omega arith)
    refill_rounds zero (suc fuel) p pre f pos s h =
        (p, ground arith, Pooled-Chain p pre [] h, omega arith)
    refill_rounds (suc n) (suc fuel) p pre f pos s h = refill_round n fuel p pre pos (omega arith) (
        refill_rounds n fuel (refilled p (key p.brk)) (pre ++ p.mem_pool_tail ∷ []) (omega arith)
          (omega arith) (omega arith) (refilled-Pooled p pre [] (key p.brk) h))

    -- Whatever hangs behind the tail pointer is cut off by the first fresh node.
    pub refill-ToppedUp :
        (p : Pool) (pre behind : List ℕ)
        → 0 < p.pool_size
        → p.pool_size < min_pool_nodes
        → Pooled p pre behind
        → ToppedUp (min_pool_nodes + 1) p pre (min_pool_nodes - p.pool_size)
    refill-ToppedUp p pre behind pos few h =
        let e : min_pool_nodes - p.pool_size ≡ suc (9 - p.pool_size) = omega arith in
        rw e (
          refill_round (9 - p.pool_size) 10 p pre pos few (
            refill_rounds (9 - p.pool_size) 10 (refilled p (key p.brk))
              (pre ++ p.mem_pool_tail ∷ []) (omega arith) (omega arith) (omega arith)
              (refilled-Pooled p pre behind (key p.brk) h)))

    -- A pool that is full enough is left as it is.
    pub refill-full : (p : Pool) → min_pool_nodes ≤ p.pool_size → refill reg_mr 11 p ≡ ok (p, 0)
    unfolding refill
    refill-full p h = rw (le→ltb _ _ h)

    -- An empty pool gets its first node as head and tail.
    refill-first :
        (p : Pool) → p.pool_size ≡ 0 → refill_one reg_mr p ≡ (first_node p (key p.brk), false)
    unfolding refill_one
    refill-first p e = rw (grow-first p e, reg p.brk, refill_one) (rw (grow-first p e))

    first_node-Pooled : (p : Pool) → 0 < p.brk → Pooled (first_node p (key p.brk)) [] []
    unfolding set_node
    first_node-Pooled p pos = record {
      front = refl;
      tail_pos = pos;
      back = ground arith;
      below = tt;
      tail_below = omega arith;
      tail_last = tt;
    }

    pub refill-empty :
        (p : Pool)
        → p.pool_size ≡ 0
        → 0 < p.brk
        → (q : Pool) × (refill reg_mr (min_pool_nodes + 1) p ≡ ok (q, 0))
          × Chain q.mem q.mem_pool_head (addrs min_pool_nodes p.brk) 0
          × (q.pool_size ≡ min_pool_nodes)
    unfolding refill
    refill-empty p e pos =
        let more : ltb p.pool_size min_pool_nodes ≡ true = lt→ltb _ _ (omega arith) in
        let (q, r, c, z) =
          refill_rounds 9 10 (first_node p (key p.brk)) [] (omega arith) (omega arith) (omega arith)
            (first_node-Pooled p pos) in
        (q, rw (more, refill-first p e) r, c, z)
