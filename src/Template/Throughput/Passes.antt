-- ===== src/Template/Throughput/Passes.antt =====
-- The eager throughput test of Ex3/kv_template.c runs through on a well-formed store.
use comm_networks_workshop.Base.{
  ℕ, zero, suc, ◌+◌, ◌*◌, ◌≤◌, ◌<◌, ◌≡◌, refl, ◌∙◌, Bool, true, false, Option, List, [], ◌∷◌, ◌++◌,
  map, arith, ltb, lt→ltb, str_eq_refl, length, length-append, replicate,
}
use comm_networks_workshop.Run.{ok}
use comm_networks_workshop.Fabric.{Fabric}
use comm_networks_workshop.Template.{Allocator}
use comm_networks_workshop.Template.Appends.{IsStore}
use comm_networks_workshop.Packet.{min_pool_nodes}
use comm_networks_workshop.Template.Cells.{Cell}
use comm_networks_workshop.Template.Client.{KvPair, set_size_ex3}
use comm_networks_workshop.Template.RoundTrip.{IsServing, kv_set_eager-new, kv_get_eager-Found}
use comm_networks_workshop.Template.Throughput.{
  test_key, test_value, run_attempt, run_throuput_tests,
}
use comm_networks_workshop.Template.Throughput.Keys.{test_key-IsText, length-test_key}
use comm_networks_workshop.Template.Eager.{Found}
use comm_networks_workshop.Template.Throughput.Sizes.{
  Old, Old-Missing, block_text-test_value, length-test_value, doubled, doublings, run_sizes-pass,
}

-- A server and a client whose next gets, up to 600 attempts in all, find the completion of the
-- request and that of the answer by a poll each.
record IsAwaited (p : KvPair) (cs : List Cell) : Type 0 where
  serving : IsServing p cs
  left : ℕ
  all_in : length cs + left ≡ 600
  one_by_one : p.client.polls ≡ replicate left (1 ∷ 1 ∷ [])

module _ (f : Fabric) (malloc : Allocator) (reg_mr : ℕ → Option ℕ) where
  attempt-passes :
      (size attempt : ℕ) (p : KvPair) (cs : List Cell) (left : ℕ)
      → size * 2 ≤ 4096
      → attempt < 50
      → IsServing p cs
      → length cs + suc left ≡ 600
      → p.client.polls ≡ (1 ∷ 1 ∷ []) ∷ replicate left (1 ∷ 1 ∷ [])
      → Old size attempt cs
      → (p' : KvPair) × (c : Cell) × (run_attempt f malloc reg_mr size attempt p ≡ ok p')
        × IsAwaited p' (cs ++ c ∷ [])
        × (c.key ≡ test_key size attempt)
  unfolding run_attempt set_size_ex3
  attempt-passes size attempt p cs left hs ha h all_in polls old =
      let key : List ℕ = test_key size attempt in
      let value : List ℕ = test_value size in
      let short : length key < 10 = length-test_key size attempt (omega arith) (omega arith) in
      let lv : length value ≡ size = length-test_value size in
      let room : ltb (length key) 10 ≡ true = lt→ltb _ _ short in
      let text = test_key-IsText size attempt in
      let missing = Old-Missing size attempt cs (omega arith) (omega arith) old in
      let (p1, c, was_set, h1, key_is, value_is, same) =
        kv_set_eager-new f malloc reg_mr key value text p cs h missing (omega (arith, short, lv)) in
      let found : Found key value (cs ++ c ∷ []) = record {
        front = cs;
        cell = c;
        back = [];
        cells = refl;
        key_is = key_is;
        value_is = value_is;
        first = missing;
      } in
      let (p2, was_got, h2, polls') =
        kv_get_eager-Found f malloc reg_mr key value text p1 (cs ++ c ∷ []) h1 found
          (omega (arith, short)) (omega (arith, lv)) (replicate left (1 ∷ 1 ∷ [])) (same ∙ polls) in
      (
        p2,
        c,
        rw (room, was_set, was_got, block_text-test_value size, str_eq_refl value) refl,
        record {
          serving = h2;
          left = left;
          all_in = omega (arith, all_in, length-append cs (c ∷ []));
          one_by_one = polls';
        },
        key_is,
      )

  left-passes :
      (size attempt : ℕ) (p : KvPair) (cs : List Cell) (left : ℕ)
      → size * 2 ≤ 4096
      → attempt < 50
      → length cs < 600
      → IsServing p cs
      → length cs + left ≡ 600
      → p.client.polls ≡ replicate left (1 ∷ 1 ∷ [])
      → Old size attempt cs
      → (p' : KvPair) × (c : Cell) × (run_attempt f malloc reg_mr size attempt p ≡ ok p')
        × IsAwaited p' (cs ++ c ∷ [])
        × (c.key ≡ test_key size attempt)
  left-passes size attempt p cs zero hs ha room h all_in polls old =
      absurd (omega (arith, all_in, room))
  left-passes size attempt p cs (suc left) hs ha room h all_in polls old =
      attempt-passes size attempt p cs left hs ha h all_in polls old

  run_attempt-passes :
      (size attempt : ℕ) (p : KvPair) (cs : List Cell)
      → size * 2 ≤ 4096
      → attempt < 50
      → length cs < 600
      → IsAwaited p cs
      → Old size attempt cs
      → (p' : KvPair) × (c : Cell) × (run_attempt f malloc reg_mr size attempt p ≡ ok p')
        × IsAwaited p' (cs ++ c ∷ [])
        × (c.key ≡ test_key size attempt)
  run_attempt-passes size attempt p cs hs ha room h old =
      left-passes size attempt p cs h.left hs ha room h.serving h.all_in h.one_by_one old

module _ (f : Fabric) (malloc : Allocator) (reg_mr : ℕ → Option ℕ) (clock : ℕ → Bool × Bool)
    (ticks : (n : ℕ) → clock n ≡ (true, true)) where
  -- From a server without entries, with ten or more nodes in its pool and not closed, when
  -- `gettimeofday` succeeds and in each of 600 gets a poll brings one completion only: the eager
  -- throughput test of the first key-value store (Ex3) comes to its end without a fault, no assert
  -- of it fails, it has results for the twelve sizes from 1 to 2048, and then the server has 600
  -- entries.
  pub run_throuput_tests-eager :
      (p : KvPair)
      → IsStore p.store []
      → min_pool_nodes ≤ p.store.rndv_pool_nodes_counter
      → p.store.close_server ≡ false
      → p.client.polls ≡ replicate 600 (1 ∷ 1 ∷ [])
      → (results : List (ℕ × ℕ)) × (p' : KvPair) × (run_throuput_tests f malloc reg_mr clock false p
          ≡ ok (results, p'))
        × (map (λ r. r.0) results
            ≡ 1 ∷ 2 ∷ 4 ∷ 8 ∷ 16 ∷ 32 ∷ 64 ∷ 128 ∷ 256 ∷ 512 ∷ 1024 ∷ 2048 ∷ [])
        × (p'.store.kv_nodes_counter ≡ 600)
  unfolding run_throuput_tests doubled doublings
  run_throuput_tests-eager p valid full open_is polls =
      let q : KvPair = record p { client = record (p.client) { use_rndv_protocol = false } } in
      let h : IsAwaited q [] = record {
        serving = record { mode = refl; valid = valid; full = full; open_is = open_is };
        left = 600;
        all_in = refl;
        one_by_one = polls;
      } in
      let (results, p', cs, ran, sizes, h', len) =
        run_sizes-pass f malloc reg_mr IsAwaited 4096 600 (omega arith)
          (run_attempt-passes f malloc reg_mr) clock ticks 4096 (omega arith)
          (λ size e. omega (arith, e)) 12 7 1 q [] (omega arith) refl (omega arith) h tt in
      (results, p', ran, sizes, h'.serving.valid.counted ∙ omega (arith, len))
