-- ===== src/Bytes/Strings.antt =====
-- NUL-terminated strings in a buffer.
use mathlib.Core.Path.{subst}
use comm_networks_workshop.Base.{
  ℕ, zero, suc, ◌+◌, ◌≤◌, ◌<◌, ◌≡◌, refl, inl, inr, Option, none, some, List, [], ◌∷◌, ◌++◌, arith,
  ◌==◌, Bool-cases, length, get_or, All,
}
use comm_networks_workshop.Bytes.{Buf, get_str}
use comm_networks_workshop.Bytes.Laws.{Holds}

-- The bytes of a C string before its NUL.
abbrev pub IsText : List ℕ → Type 0
IsText s = All (λ c. (0 < c) × (c < 256)) s

pub get_str-nil : (fuel : ℕ) (b : Buf) (off : ℕ) → b off ≡ 0 → get_str (suc fuel) b off ≡ some []
unfolding get_str
get_str-nil fuel b off h = ground arith

pub get_str-cons :
    (fuel : ℕ) (b : Buf) (off c : ℕ) (s : List ℕ)
    → 0 < c
    → b off ≡ c
    → get_str fuel b (off + 1) ≡ some s
    → get_str (suc fuel) b off ≡ some (c ∷ s)
unfolding get_str
get_str-cons fuel b off zero s p e h = absurd (omega arith)
get_str-cons fuel b off (suc c) s p e h = ground arith

-- A string that was written with its NUL is read back whole.
pub get_str-Holds :
    (fuel : ℕ) (b : Buf) (off : ℕ) (s : List ℕ)
    → IsText s
    → Holds b off (s ++ 0 ∷ [])
    → length s < fuel
    → get_str fuel b off ≡ some s
get_str-Holds zero b off s t h l = absurd (omega arith)
get_str-Holds (suc fuel) b off [] t h l = get_str-nil fuel b off (ground (arith, h 0))
get_str-Holds (suc fuel) b off (c ∷ s) t h l =
    get_str-cons fuel b off c s t.0.0 (ground (arith, h 0))
      (get_str-Holds fuel b (off + 1) s t.1 (λ i hi. ground (arith, h (suc i))) (omega arith))

-- What a string that was read says of the buffer: its bytes, and that no NUL came earlier.
abbrev pub ReadsAs : Buf → ℕ → List ℕ → Type 0
ReadsAs b off s =
    ((t : ℕ) → t < length s → get_or s t 0 ≡ b (off + t))
    × ((i : ℕ) → off ≤ i → b i ≡ 0 → off + length s ≤ i)

ReadsAs-nil : (b : Buf) (off : ℕ) → ReadsAs b off []
ReadsAs-nil b off = (λ t h. absurd (omega arith), λ i h z. omega arith)

ReadsAs-cons :
    (b : Buf) (off c : ℕ) (s : List ℕ)
    → b off ≡ suc c
    → ReadsAs b (off + 1) s
    → ReadsAs b off (suc c ∷ s)
ReadsAs-cons b off c s e r = (first, later)
  where
    first : (t : ℕ) → t < length (suc c ∷ s) → get_or (suc c ∷ s) t 0 ≡ b (off + t)
    first zero h = let z : off + 0 ≡ off = omega arith in rw (z, e)
    first (suc t) h = let z : off + suc t ≡ off + 1 + t = omega arith in rw z (r.0 t (omega arith))

    later : (i : ℕ) → off ≤ i → b i ≡ 0 → off + length (suc c ∷ s) ≤ i
    later i h z = elim (Bool-cases (i == off)) [
      | inl same ↦ let q : i ≡ off = ground arith in absurd (omega (arith, e, rw q at z))
      | inr other ↦ omega (arith, r.1 i (ground arith) z)
    ]

read_rest :
    (b : Buf) (off c : ℕ) (s : List ℕ) (o : Option (List ℕ))
    → b off ≡ suc c
    → ((x : List ℕ) → o ≡ some x → ReadsAs b (off + 1) x)
    → elim o [ none ↦ none | some x ↦ some (suc c ∷ x) ] ≡ some s
    → ReadsAs b off s
read_rest b off c s none e ih g = cc
read_rest b off c s (some x) e ih g =
    let d : suc c ∷ x ≡ s = cc g in subst (ReadsAs b off) d (ReadsAs-cons b off c x e (ih x refl))

read_byte :
    (b : Buf) (off : ℕ) (s : List ℕ) (o : Option (List ℕ)) (n : ℕ)
    → b off ≡ n
    → ((x : List ℕ) → o ≡ some x → ReadsAs b (off + 1) x)
    → elim n [ zero ↦ some [] | suc c ↦ elim o [ none ↦ none | some x ↦ some (suc c ∷ x) ] ]
      ≡ some s
    → ReadsAs b off s
read_byte b off s o zero e ih g =
    let d : [] ≡ s = cc g in subst (ReadsAs b off) d (ReadsAs-nil b off)
read_byte b off s o (suc c) e ih g = read_rest b off c s o e ih g

-- A string that was read.
pub get_str-ReadsAs :
    (fuel : ℕ) (b : Buf) (off : ℕ) (s : List ℕ) → get_str fuel b off ≡ some s → ReadsAs b off s
unfolding get_str
get_str-ReadsAs zero b off s h = cc
get_str-ReadsAs (suc fuel) b off s h =
    read_byte b off s (get_str fuel b (off + 1)) (b off) refl
      (λ x q. get_str-ReadsAs fuel b (off + 1) x q) h
