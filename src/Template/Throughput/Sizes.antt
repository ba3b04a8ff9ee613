-- ===== src/Template/Throughput/Sizes.antt =====
-- The loops of the throughput test of Ex3/kv_template.c, for either protocol.
use comm_networks_workshop.Base.{
  ℕ, zero, suc, ◌+◌, ◌*◌, ◌^◌, ◌≤◌, ◌<◌, ◌≡◌, refl, ap, ◌∙◌, ◌⊎◌, inl, inr, Bool, true, false,
  Option, some, List, [], ◌∷◌, ◌++◌, map, arith, ltb, lt→ltb, le→ltb, Bool-cases, str_eq,
  str_eq_sound, length, length-append, length-replicate, All,
}
use comm_networks_workshop.Run.{◌>>=◌, ok}
use comm_networks_workshop.Fabric.{Fabric}
use comm_networks_workshop.Pool.Chain.{All-append}
use comm_networks_workshop.Template.{Allocator}
use comm_networks_workshop.Template.Cells.{Cell, Missing}
use comm_networks_workshop.Template.Client.{KvPair}
use comm_networks_workshop.Template.Throughput.{
  max_digits, test_key, block_text, test_value, attempt_bytes, run_attempt, run_attempts, run_sizes,
}
use comm_networks_workshop.Template.Throughput.Keys.{test_key-injective}
use comm_networks_workshop.Client.{c_str}

-- The key of an attempt that came before `attempt` of `size`.
abbrev pub OldKey : ℕ → ℕ → Cell → Type 0
OldKey size attempt c =
    (m : ℕ) × (b : ℕ) × (c.key ≡ test_key m b)
    × ((m < size) ⊎ ((m ≡ size) × (b < attempt)))
    × (m < 10 ^ max_digits)
    × (b < 10 ^ max_digits)

abbrev pub Old : ℕ → ℕ → List Cell → Type 0
Old size attempt cs = All (OldKey size attempt) cs

All-map : {P Q : Cell → Type 0} → ((c : Cell) → P c → Q c) → (cs : List Cell) → All P cs → All Q cs
All-map f [] h = tt
All-map f (c ∷ cs) h = (f c h.0, All-map f cs h.1)

Old-attempt : (size attempt : ℕ) (cs : List Cell) → Old size attempt cs → Old size (attempt + 1) cs
Old-attempt size attempt = All-map {P = OldKey size attempt} {Q = OldKey size (attempt + 1)} λ c h.
    (
      h.0,
      h.1,
      h.2,
      elim (h.3) [ inl below ↦ inl below | inr same ↦ inr (same.0, omega (arith, same.1)) ],
      h.4,
      h.5,
    )

Old-size :
    (size attempt : ℕ) (cs : List Cell) → 0 < size → Old size attempt cs → Old (size * 2) 0 cs
Old-size size attempt cs some_size =
    All-map {P = OldKey size attempt} {Q = OldKey (size * 2) 0}
      (λ c h. (
        h.0,
        h.1,
        h.2,
        elim (h.3) [
          | inl below ↦ inl (omega (arith, below, some_size))
          | inr same ↦ inl (omega (arith, same.0, some_size))
        ],
        h.4,
        h.5,
      ))
      cs

pub Old-Missing :
    (size attempt : ℕ) (cs : List Cell)
    → size < 10 ^ max_digits
    → attempt < 10 ^ max_digits
    → Old size attempt cs
    → Missing (test_key size attempt) cs
Old-Missing size attempt cs hs ha =
    All-map {P = OldKey size attempt} {Q = λ c. str_eq (test_key size attempt) c.key ≡ false}
      (λ c h. elim (Bool-cases (str_eq (test_key size attempt) c.key)) [
        | inr other ↦ other
        | inl equal ↦
            let e : test_key size attempt ≡ test_key h.0 h.1 = str_eq_sound _ _ equal ∙ h.2 in
            let (same, same') = test_key-injective size attempt h.0 h.1 hs ha h.4 h.5 e in
            absurd (elim (h.3) [
              | inl below ↦ omega (arith, same, below)
              | inr (at, before) ↦ omega (arith, same', before)
            ])
      ])
      cs

pub block_text-test_value : (n : ℕ) → block_text (c_str (test_value n)) ≡ some (test_value n)
unfolding block_text test_value
block_text-test_value zero = refl
block_text-test_value (suc n) = rw (block_text-test_value n) refl

pub length-test_value : (n : ℕ) → length (test_value n) ≡ n
unfolding test_value
length-test_value n = length-replicate n 97

-- `j` doublings, and the sizes on the way.
unfoldable pub doubled : ℕ → ℕ → ℕ
doubled zero size = size
doubled (suc j) size = doubled j (size * 2)

unfoldable pub doublings : ℕ → ℕ → List ℕ
doublings zero size = []
doublings (suc j) size = size ∷ doublings j (size * 2)

le-doubled : (j size : ℕ) → size ≤ doubled j size
unfolding doubled
le-doubled zero size = omega arith
le-doubled (suc j) size = omega (arith, le-doubled j (size * 2))

module _ (f : Fabric) (malloc : Allocator) (reg_mr : ℕ → Option ℕ) (clock : ℕ → Bool × Bool)
    (ticks : (n : ℕ) → clock n ≡ (true, true)) where
  run_sizes-step :
      (fuel max_size size t : ℕ) (p p1 : KvPair)
      → ltb size max_size ≡ true
      → run_attempts f malloc reg_mr 50 size 0 0 p ≡ ok (t, p1)
      → run_sizes f malloc reg_mr clock (suc fuel) max_size size p ≡ (do
        (results, q) ← run_sizes f malloc reg_mr clock fuel max_size (size * 2) p1
        ok ((size, t) ∷ results, q))
  unfolding run_sizes
  run_sizes-step fuel max_size size t p p1 go attempts =
      rw (run_sizes, go, ticks size) (rw attempts (rw (ticks size) refl))

  run_sizes-next :
      (fuel max_size size t : ℕ) (p p1 p2 : KvPair) (results : List (ℕ × ℕ))
      → ltb size max_size ≡ true
      → run_attempts f malloc reg_mr 50 size 0 0 p ≡ ok (t, p1)
      → run_sizes f malloc reg_mr clock fuel max_size (size * 2) p1 ≡ ok (results, p2)
      → run_sizes f malloc reg_mr clock (suc fuel) max_size size p ≡ ok ((size, t) ∷ results, p2)
  run_sizes-next fuel max_size size t p p1 p2 results go attempts rest =
      run_sizes-step fuel max_size size t p p1 go attempts ∙ rw rest refl

-- What the loops need of one attempt, with an invariant `I` of the state and the keys so far. The
-- sizes double up to `top`, and `total` is more attempts than there are.
module _ (f : Fabric) (malloc : Allocator) (reg_mr : ℕ → Option ℕ) (I : KvPair → List Cell → Type 0)
    (top total : ℕ) (few : top ≤ 65536)
    (passes : (size attempt : ℕ) (p : KvPair) (cs : List Cell)
      → size * 2 ≤ top
      → attempt < 50
      → length cs < total
      → I p cs
      → Old size attempt cs
      → (p' : KvPair) × (c : Cell) × (run_attempt f malloc reg_mr size attempt p ≡ ok p')
        × I p' (cs ++ c ∷ [])
        × (c.key ≡ test_key size attempt)) where
  run_attempts-pass :
      (left size attempt count : ℕ) (p : KvPair) (cs : List Cell)
      → size * 2 ≤ top
      → attempt + left ≤ 50
      → length cs + left ≤ total
      → I p cs
      → Old size attempt cs
      → (t : ℕ) × (p' : KvPair) × (cs' : List Cell) × (run_attempts f malloc reg_mr left size
            attempt count p
          ≡ ok (t, p'))
        × I p' cs'
        × Old size (attempt + left) cs'
        × (length cs' ≡ length cs + left)
  unfolding run_attempts
  run_attempts-pass zero size attempt count p cs hs ha room h old =
      let same : attempt + 0 ≡ attempt = omega arith in
      (count, p, cs, refl, h, rw same old, omega arith)
  run_attempts-pass (suc left) size attempt count p cs hs ha room h old =
      let (p1, c, once, h1, key_is) =
        passes size attempt p cs hs (omega arith) (omega arith) h old in
      let old1 : Old size (attempt + 1) (cs ++ c ∷ []) =
        All-append (OldKey size (attempt + 1)) cs (c ∷ []) (Old-attempt size attempt cs old)
          ((size, attempt, key_is, inr (refl, omega arith), omega arith, omega arith), tt) in
      let len1 : length (cs ++ c ∷ []) ≡ length cs + 1 = length-append cs (c ∷ []) in
      let (t, p2, cs', more, h2, old2, len) =
        run_attempts-pass left size (attempt + 1) (count + attempt_bytes size attempt) p1
          (cs ++ c ∷ []) hs (omega arith) (omega (arith, len1)) h1 old1 in
      let same : attempt + suc left ≡ attempt + 1 + left = omega arith in
      (t, p2, cs', rw (once, more) refl, h2, rw same old2, omega (arith, len, len1))

  module _ (clock : ℕ → Bool × Bool) (ticks : (n : ℕ) → clock n ≡ (true, true)) (max_size : ℕ)
      (stops_at : max_size ≤ top) (goes_to : (size : ℕ) → size * 2 ≤ top → size < max_size) where
    pub run_sizes-pass :
        (j more size : ℕ) (p : KvPair) (cs : List Cell)
        → 0 < size
        → doubled j size ≡ top
        → length cs + 50 * j ≤ total
        → I p cs
        → Old size 0 cs
        → (results : List (ℕ × ℕ)) × (p' : KvPair) × (cs' : List Cell) × (run_sizes f malloc reg_mr
              clock
              (j + suc more)
              max_size
              size
              p
            ≡ ok (results, p'))
          × (map (λ r. r.0) results ≡ doublings j size)
          × I p' cs'
          × (length cs' ≡ length cs + 50 * j)
    unfolding run_sizes doubled doublings
    run_sizes-pass zero more size p cs some_size e room h old =
        let z : 0 + suc more ≡ suc more = omega arith in
        let stop : ltb size max_size ≡ false = le→ltb _ _ (omega (arith, e, stops_at)) in
        ([], p, cs, rw z (rw (run_sizes, stop) refl), refl, h, omega arith)
    run_sizes-pass (suc j) more size p cs some_size e room h old =
        let z : suc j + suc more ≡ suc (j + suc more) = omega arith in
        let below : size * 2 ≤ top = omega (arith, e, le-doubled j (size * 2)) in
        let go : ltb size max_size ≡ true = lt→ltb _ _ (goes_to size below) in
        let (t, p1, cs1, attempts, h1, old1, len) =
          run_attempts-pass 50 size 0 0 p cs below (omega arith) (omega (arith, room)) h old in
        let (results, p2, cs2, rest, sizes, h2, len') =
          run_sizes-pass j more (size * 2) p1 cs1 (omega arith) e (omega (arith, room, len)) h1
            (Old-size size (0 + 50) cs1 some_size old1) in
        (
          (size, t) ∷ results,
          p2,
          cs2,
          rw z (
              run_sizes-next f malloc reg_mr clock ticks (j + suc more) max_size size t p p1 p2
                results go attempts rest),
          ap (◌∷◌ size) sizes,
          h2,
          omega (arith, len, len'),
        )
