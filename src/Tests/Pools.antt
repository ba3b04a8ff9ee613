-- ===== src/Tests/Pools.antt =====
-- Examples for `maintain_pool`.
use comm_networks_workshop.Base.{ℕ, ◌+◌, ◌≡◌, refl, Option, some, [], ◌∷◌, arith, length}
use comm_networks_workshop.Pool.{Pool}
use comm_networks_workshop.Pool.Chain.{Pooled}
use comm_networks_workshop.Pool.Maintain.{Maintained, maintain_pool_leak}
use comm_networks_workshop.Pool.Refill.{addrs}
use comm_networks_workshop.Tests.Data.{one_node}

abbrev reg_mr : ℕ → Option ℕ
reg_mr a = some a

-- A second node waits in the tainted list.
abbrev one_tainted : Pool
one_tainted = record one_node { tainted_mem_pool_head = 200; tainted_mem_pool_tail = 200 }

one_node-Pooled : Pooled one_node [] []
one_node-Pooled = record {
  front = refl;
  tail_pos = omega arith;
  back = refl;
  below = tt;
  tail_below = omega arith;
  tail_last = tt;
}

one_tainted-Pooled : Pooled one_tainted [] []
one_tainted-Pooled = record {
  front = refl;
  tail_pos = omega arith;
  back = refl;
  below = tt;
  tail_below = omega arith;
  tail_last = tt;
}

maintain_pool_leak_example :
    Maintained reg_mr 2 one_tainted 0 (100 ∷ addrs 8 one_tainted.brk) 10
    × (length (100 ∷ addrs 8 one_tainted.brk) + 0 + 1 ≡ 10)
maintain_pool_leak_example =
    maintain_pool_leak reg_mr (λ a. a) (λ a. refl) 2 one_tainted [] [] 200 [] (omega arith)
      (refl, omega arith, refl) ((λ e. omega arith), tt) one_tainted-Pooled refl (omega arith)
