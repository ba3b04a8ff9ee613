-- ===== src/Template/Throughput/Keys.antt =====
-- The keys of the throughput test of Ex3/kv_template.c are all different.
use comm_networks_workshop.Base.{
  ℕ, zero, suc, ◌+◌, ◌-◌, ◌*◌, ◌/◌, ◌%◌, ◌^◌, ◌≤◌, ◌<◌, ◌≡◌, refl, sym, ap, ◌∙◌, inl, inr, false,
  List, [], ◌∷◌, ◌++◌, arith, ltb, ◌==◌, if◌then◌else◌, Bool-cases, length, length-append, All,
}
use comm_networks_workshop.Bytes.Strings.{IsText}
use comm_networks_workshop.Pool.Chain.{All-append}
use comm_networks_workshop.Template.Throughput.{decimal, max_digits, test_key}

abbrev IsDigit : ℕ → Type 0
IsDigit c = (48 ≤ c) × (c < 58)

decimal-digits : (fuel n : ℕ) → All IsDigit (decimal fuel n)
unfolding decimal
decimal-digits zero n = tt
decimal-digits (suc fuel) n = elim (Bool-cases (ltb n 10)) [
  | inl last ↦ rw (decimal, last) ((omega arith, ground arith), tt)
  | inr more ↦
      rw (decimal, more)
        (All-append IsDigit (decimal fuel (n / 10)) ((48 + n % 10) ∷ [])
          (decimal-digits fuel (n / 10)) ((omega arith, omega arith), tt))
]

-- Reading on from a value up to a '-'.
scan : ℕ → List ℕ → ℕ × List ℕ
scan acc [] = (acc, [])
scan acc (c ∷ cs) = if c == 45 then (acc, cs) else scan (10 * acc + (c - 48)) cs

pub value_of : ℕ → List ℕ → ℕ
value_of acc [] = acc
value_of acc (c ∷ cs) = value_of (10 * acc + (c - 48)) cs

value_of-append :
    (acc : ℕ) (xs ys : List ℕ) → value_of acc (xs ++ ys) ≡ value_of (value_of acc xs) ys
unfolding value_of
value_of-append acc [] ys = refl
value_of-append acc (c ∷ xs) ys = value_of-append (10 * acc + (c - 48)) xs ys

scan-digits :
    (acc : ℕ) (xs ys : List ℕ) → All IsDigit xs → scan acc (xs ++ 45 ∷ ys) ≡ (value_of acc xs, ys)
unfolding scan value_of
scan-digits acc [] ys d = refl
scan-digits acc (c ∷ xs) ys (d, ds) =
    let digit : (c == 45) ≡ false = ground arith in
    rw digit (scan-digits (10 * acc + (c - 48)) xs ys ds)

pub value_of-decimal : (fuel n : ℕ) → n < 10 ^ fuel → value_of 0 (decimal fuel n) ≡ n
unfolding decimal value_of
value_of-decimal zero n h = omega (arith, h)
value_of-decimal (suc fuel) n h = elim (Bool-cases (ltb n 10)) [
  | inl last ↦ rw (decimal, last) (omega arith)
  | inr more ↦
      let small : n / 10 < 10 ^ fuel = grind arith in
      rw (decimal, more)
        (value_of-append 0 (decimal fuel (n / 10)) ((48 + n % 10) ∷ [])
          ∙ omega (arith, value_of-decimal fuel (n / 10) small))
]

-- The size and the attempt can be read off a key.
scan-test_key : (n a : ℕ) → n < 10 ^ max_digits → scan 0 (test_key n a) ≡ (n, decimal max_digits a)
unfolding test_key
scan-test_key n a h =
    scan-digits 0 (decimal max_digits n) (decimal max_digits a) (decimal-digits max_digits n)
    ∙ ap (λ k. (k, decimal max_digits a)) (value_of-decimal max_digits n h)

pub test_key-injective :
    (n a m b : ℕ)
    → n < 10 ^ max_digits
    → a < 10 ^ max_digits
    → m < 10 ^ max_digits
    → b < 10 ^ max_digits
    → test_key n a ≡ test_key m b
    → (n ≡ m) × (a ≡ b)
test_key-injective n a m b hn ha hm hb e =
    let q : (n, decimal max_digits a) ≡ (m, decimal max_digits b) =
      sym (scan-test_key n a hn) ∙ ap (scan 0) e ∙ scan-test_key m b hm in
    let d : decimal max_digits a ≡ decimal max_digits b = ap (λ p. p.1) q in
    (
      ap (λ p. p.0) q,
      sym (value_of-decimal max_digits a ha) ∙ ap (value_of 0) d ∙ value_of-decimal max_digits b hb,
    )

IsDigit-IsText : (xs : List ℕ) → All IsDigit xs → IsText xs
IsDigit-IsText [] h = tt
IsDigit-IsText (c ∷ xs) (d, ds) = ((omega arith, omega arith), IsDigit-IsText xs ds)

pub test_key-IsText : (n a : ℕ) → IsText (test_key n a)
unfolding test_key
test_key-IsText n a =
    All-append (λ c. (0 < c) × (c < 256)) (decimal max_digits n) (45 ∷ decimal max_digits a)
      (IsDigit-IsText (decimal max_digits n) (decimal-digits max_digits n))
      (
        (omega arith, omega arith),
        IsDigit-IsText (decimal max_digits a) (decimal-digits max_digits a),
      )

-- A number below 10^d prints as at most d digits.
length-decimal : (fuel d n : ℕ) → n < 10 ^ d → 0 < d → length (decimal fuel n) ≤ d
unfolding decimal
length-decimal zero d n h some_digit = omega arith
length-decimal (suc fuel) zero n h some_digit = absurd (omega arith)
length-decimal (suc fuel) (suc d) n h some_digit = elim (Bool-cases (ltb n 10)) [
  | inl last ↦ rw (decimal, last) (omega arith)
  | inr more ↦
      let ten : 10 ≤ n = ground arith in
      let small : n / 10 < 10 ^ d = grind arith in
      let d_some : 0 < d = elim (Bool-cases (d == 0)) [
        | inl none_left ↦
            let z : d ≡ 0 = ground arith in
            let h' : n < 10 ^ suc 0 = rw z at h in absurd (omega (arith, h', ten))
        | inr left ↦ ground arith
      ] in
      rw (decimal, more)
        (omega (
          arith,
          length-append (decimal fuel (n / 10)) ((48 + n % 10) ∷ []),
          length-decimal fuel d (n / 10) small d_some,
        ))
]

-- The keys of the test fit into the ten bytes that they are printed to.
pub length-test_key : (n a : ℕ) → n < 10 ^ 5 → a < 10 ^ 2 → length (test_key n a) < 10
unfolding test_key
length-test_key n a hn ha = omega (
  arith,
  length-append (decimal max_digits n) (45 ∷ decimal max_digits a),
  length-decimal max_digits 5 n hn (omega arith),
  length-decimal max_digits 2 a ha (omega arith),
)
