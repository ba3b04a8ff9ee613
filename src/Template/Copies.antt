-- ===== src/Template/Copies.antt =====
-- Copies of strings between the buffers of Ex3/kv_template.c.
use mathlib.Core.Path.{subst}
use comm_networks_workshop.Base.{
  ℕ, zero, suc, ◌+◌, ◌-◌, ◌≤◌, ◌<◌, ◌≡◌, refl, sym, ap, ◌∙◌, inl, inr, true, false, ◌&&◌, some,
  List, [], ◌∷◌, ◌++◌, arith, ltb, leb, ltb→lt, Bool-cases, length, get_or, take, drop, length-take,
  get_or-append_left,
}
use comm_networks_workshop.Bytes.{Buf, put_bytes}
use comm_networks_workshop.Template.Rendezvous.{strncpy}
use comm_networks_workshop.Bytes.Laws.{Holds}
use comm_networks_workshop.Bytes.Strings.{IsText}
use comm_networks_workshop.Template.Places.{strncpy-exact}
use comm_networks_workshop.Client.{c_str}

-- A copy that reaches to the end of the string.
pub strncpy-text :
    (left : ℕ) (b : Buf) (off : ℕ) (s : List ℕ)
    → IsText s
    → Holds b off (c_str s)
    → length s < left
    → strncpy left (length s + 1) b off ≡ some (c_str s)
unfolding strncpy
strncpy-text zero b off s t h l = absurd (omega arith)
strncpy-text (suc left) b off [] t h l = let e : b off ≡ 0 = ground (arith, h 0) in rw e refl
strncpy-text (suc left) b off (zero ∷ s) t h l = absurd (omega (arith, t.0.0))
strncpy-text (suc left) b off (suc c ∷ s) t h l =
    let e : b off ≡ suc c = ground (arith, h 0) in
    let rest =
      strncpy-text left b (off + 1) s t.1 (λ i hi. ground (arith, h (suc i))) (omega arith) in
    let n : length (suc c ∷ s) + 1 ≡ suc (length s + 1) = omega arith in
    rw n (rw (strncpy, e) (rw rest refl))

-- Bytes that are written over the same bytes.
pub put_bytes-prefix :
    (b : Buf) (xs ys : List ℕ) → Holds b 0 (xs ++ ys) → Holds (put_bytes b 0 xs) 0 (xs ++ ys)
unfolding put_bytes
put_bytes-prefix b xs ys h i hi = elim (Bool-cases (ltb i (length xs))) [
  | inl below ↦
      let e : (leb 0 (0 + i) && ltb (0 + i) (0 + length xs)) ≡ true = ground arith in
      let z : 0 + i - 0 ≡ i = omega arith in
      rw (e, z) (sym (get_or-append_left xs ys i 0 (ltb→lt i (length xs) below)))
  | inr above ↦
      let e : (leb 0 (0 + i) && ltb (0 + i) (0 + length xs)) ≡ false = ground arith in rw e (h i hi)
]

get_or-take : (n : ℕ) (xs : List ℕ) (i : ℕ) → i < n → get_or (take n xs) i 0 ≡ get_or xs i 0
get_or-take zero xs i h = absurd (omega arith)
get_or-take (suc n) [] i h = refl
get_or-take (suc n) (x ∷ xs) zero h = refl
get_or-take (suc n) (x ∷ xs) (suc i) h = get_or-take n xs i (omega arith)

IsText-take : (n : ℕ) (s : List ℕ) → IsText s → IsText (take n s)
IsText-take zero s t = tt
IsText-take (suc n) [] t = tt
IsText-take (suc n) (c ∷ s) t = (t.0, IsText-take n s t.1)

pub take-drop_end : (n : ℕ) (xs : List ℕ) → take n xs ++ (drop n xs ++ 0 ∷ []) ≡ c_str xs
take-drop_end zero xs = refl
take-drop_end (suc n) [] = refl
take-drop_end (suc n) (x ∷ xs) = ap (◌∷◌ x) (take-drop_end n xs)

-- A copy that ends inside the string.
pub strncpy-take :
    (left : ℕ) (b : Buf) (n : ℕ) (s : List ℕ)
    → IsText s
    → Holds b 0 s
    → n ≤ length s
    → n ≤ left
    → strncpy left n b 0 ≡ some (take n s)
strncpy-take left b n s t h inside room =
    let n_is : length (take n s) ≡ n = omega (arith, length-take n s) in
    let held : Holds b 0 (take n s) =
      λ i hi. h i (omega (arith, n_is)) ∙ sym (get_or-take n s i (omega (arith, n_is))) in
    subst (λ k. strncpy left k b 0 ≡ some (take n s)) n_is
      (strncpy-exact left b 0 (take n s) (IsText-take n s t) held (omega (arith, n_is)))
