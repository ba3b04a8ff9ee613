-- ===== src/Indexer/Hash.antt =====
-- `hash_key` of Ex4/kv_indexer.c is the djb2 polynomial, reduced at the end.
use comm_networks_workshop.Base.{
  ℕ, ◌+◌, ◌*◌, ◌%◌, ◌^◌, ◌≡◌, refl, sym, ◌∙◌, List, [], ◌∷◌, ◌++◌, arith,
}
use comm_networks_workshop.Indexer.{ulong, hash_from, hash_key}

-- The value of the bytes as a polynomial in 33, without wrap-around.
abbrev pub djb2 : ℕ → List ℕ → ℕ
djb2 h [] = h
djb2 h (c ∷ cs) = djb2 (h * 33 + c) cs

pub djb2-congruent :
    (cs : List ℕ) (g h : ℕ) → ulong g ≡ ulong h → ulong (djb2 g cs) ≡ ulong (djb2 h cs)
djb2-congruent [] g h e = e
djb2-congruent (c ∷ cs) g h e = djb2-congruent cs (g * 33 + c) (h * 33 + c) (omega arith)

hash_from-djb2 : (cs : List ℕ) (h : ℕ) → ulong h ≡ h → hash_from h cs ≡ ulong (djb2 h cs)
unfolding hash_from
hash_from-djb2 [] h e = sym e
hash_from-djb2 (c ∷ cs) h e =
    hash_from-djb2 cs (ulong (ulong (ulong (h * 2 ^ 5) + h) + c)) (omega arith)
    ∙ djb2-congruent cs (ulong (ulong (ulong (h * 2 ^ 5) + h) + c)) (h * 33 + c) (omega arith)

-- `hash_key` of a string is its djb2 polynomial in 33, started at 5381, modulo 2^64: the
-- wrap-around at each step changes nothing.
pub hash_key-djb2 : (str : List ℕ) → hash_key str ≡ djb2 5381 str % 2 ^ 64
unfolding hash_key
hash_key-djb2 str = hash_from-djb2 str 5381 refl

djb2-append : (xs ys : List ℕ) (h : ℕ) → djb2 h (xs ++ ys) ≡ djb2 (djb2 h xs) ys
djb2-append [] ys h = refl
djb2-append (x ∷ xs) ys h = djb2-append xs ys (h * 33 + x)
