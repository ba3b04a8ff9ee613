-- ===== src/Tests/Starts.antt =====
-- Examples for the pool of Ex3/kv_template.c when it is made and released.
use comm_networks_workshop.Base.{
  ℕ, ◌+◌, ◌≡◌, refl, true, false, none, some, List, [], ◌∷◌, map, arith, length,
}
use comm_networks_workshop.Run.{ok, fault, out_of_fuel, error_return}
use comm_networks_workshop.Pool.{zeros, set_next, set_node}
use comm_networks_workshop.Fabric.{ideal}
use comm_networks_workshop.Template.{KvStore}
use comm_networks_workshop.Template.Client.{KvPair}
use comm_networks_workshop.Template.Throughput.{run_throuput_tests}
use comm_networks_workshop.Template.Throughput.Large.{init_pool-run_throuput_tests}
use comm_networks_workshop.Template.Start.{add_pool_node, add_pool_nodes, init_pool}
use comm_networks_workshop.Template.Stale.{close_pool, close_pool-stale}
use comm_networks_workshop.Tests.Template.{bump, registers, empty_store, first_client}

-- The server's globals before its pool is made.
abbrev fresh_store : KvStore
fresh_store = record empty_store {
  rndv_pool_head = 0;
  rndv_pool_tail = 0;
  rndv_pool_nodes_counter = 0;
  mem = λ a. record { rndv_mr = none; rndv_buffer = zeros; next_mem = 0 };
  brk = 100000;
}

init_pool-run_throuput_tests_example :
    (t : KvStore) × (results : List (ℕ × ℕ)) × (p : KvPair) × (init_pool registers
        (λ a. 7)
        fresh_store
      ≡ ok (some t))
    × (run_throuput_tests ideal bump registers
          (λ n. (true, true))
          true
          (record { client = first_client false; store = t })
        ≡ ok (results, p))
    × (map (λ r. r.0) results
        ≡ 1 ∷ 2 ∷ 4 ∷ 8 ∷ 16 ∷ 32 ∷ 64 ∷ 128 ∷ 256 ∷ 512 ∷ 1024 ∷ 2048 ∷ 4096 ∷ 8192 ∷ 16384 ∷ 32768
          ∷ [])
    × (length p.client.cache ≡ 800)
init_pool-run_throuput_tests_example =
    init_pool-run_throuput_tests ideal bump registers (λ a. 7) (λ n. (true, true)) (λ n. refl)
      (λ a. (9, refl, omega arith)) (first_client false) fresh_store refl (omega arith) refl refl
      refl (omega arith)

-- The pool that is made of it.
made_store : KvStore
unfolding init_pool add_pool_nodes add_pool_node set_node set_next
made_store = elim (init_pool registers (λ a. 7) fresh_store) [
  | fault ↦ fresh_store
  | out_of_fuel ↦ fresh_store
  | error_return ↦ fresh_store
  | ok o ↦ elim o [ none ↦ fresh_store | some t ↦ t ]
]

made_store_made : init_pool registers (λ a. 7) fresh_store ≡ ok (some made_store)
unfolding made_store init_pool add_pool_nodes add_pool_node set_node set_next
made_store_made = refl

nothing_at : (made_store.mem 7).rndv_mr ≡ none
unfolding made_store init_pool add_pool_nodes add_pool_node set_node set_next
nothing_at = refl

close_pool-stale_example :
    close_pool (λ a. true) (0 + 11) made_store.mem made_store.rndv_pool_head ≡ fault
close_pool-stale_example =
    close_pool-stale registers (λ a. 7) (λ a. true) 0 fresh_store made_store
      (λ a. (9, refl, omega arith)) (λ a. refl) (omega arith) refl made_store_made (omega arith)
      nothing_at
