-- ===== src/Server/Entries.antt =====
-- The entry list of Ex4/kv_server.c: lookups after writes.
use comm_networks_workshop.Base.{
  ℕ, ◌≡◌, refl, sym, ◌∙◌, inl, inr, false, none, some, List, [], ◌∷◌, ◌++◌, arith, if◌then◌else◌,
  Bool-cases, str_eq, str_eq_refl, str_eq_sound, length, All,
}
use mathlib.Core.Path.{subst}
use comm_networks_workshop.Server.{Entry, find_entry, write_entry}

pub find_entry-key :
    (k : List ℕ) (es : List Entry) (e : Entry) → find_entry k es ≡ some e → e.key ≡ k
unfolding find_entry
find_entry-key k [] e h = cc
find_entry-key k (d ∷ es) e h = ground (arith, str_eq_sound d.key k, find_entry-key k es e)

-- A write at `k` is seen at `k` and nowhere else.
pub find_entry-write_entry :
    (k j : List ℕ) (e e' : Entry) (es : List Entry)
    → find_entry k es ≡ some e
    → e'.key ≡ k
    → find_entry j (write_entry k e' es) ≡ (if str_eq k j then some e' else find_entry j es)
unfolding find_entry write_entry
find_entry-write_entry k j e e' [] h q = cc
find_entry-write_entry k j e e' (d ∷ es) h q = elim (Bool-cases (str_eq d.key k)) [
  | inl hit ↦ rw (hit, q) (ground (arith, str_eq_sound d.key k hit))
  | inr miss ↦
      rw (miss, find_entry-write_entry k j e e' es (rw miss at h) q)
        (ground (arith, str_eq_sound d.key j, str_eq_sound k j, str_eq_refl j))
]

-- The same for the write under the found entry's own key.
pub find_entry-write_found :
    (k j : List ℕ) (e e' : Entry) (es : List Entry)
    → find_entry k es ≡ some e
    → e'.key ≡ e.key
    → find_entry j (write_entry e.key e' es) ≡ (if str_eq k j then some e' else find_entry j es)
find_entry-write_found k j e e' es h q =
    let p = find_entry-key k es e h in
    subst
      (λ x. find_entry j (write_entry x e' es) ≡ (if str_eq k j then some e' else find_entry j es))
      (sym p) (find_entry-write_entry k j e e' es h (q ∙ p))

pub find_entry-append :
    (k j : List ℕ) (e' : Entry) (es : List Entry)
    → find_entry k es ≡ none
    → e'.key ≡ k
    → find_entry j (es ++ e' ∷ []) ≡ (if str_eq k j then some e' else find_entry j es)
unfolding find_entry
find_entry-append k j e' [] h q = rw q
find_entry-append k j e' (d ∷ es) h q =
    rw (find_entry-append k j e' es (ground arith) q)
      (ground (arith, str_eq_sound d.key j, str_eq_sound k j, str_eq_refl j))

pub length-write_entry :
    (k : List ℕ) (e' : Entry) (es : List Entry) → length (write_entry k e' es) ≡ length es
unfolding write_entry
length-write_entry k e' [] = refl
length-write_entry k e' (d ∷ es) = ground (arith, length-write_entry k e' es)

module _ (P : Entry → Type 0) where
  pub All-find_entry :
      (k : List ℕ) (es : List Entry) {e : Entry} → All P es → find_entry k es ≡ some e → P e
  unfolding find_entry
  All-find_entry k [] a h = cc
  All-find_entry k (d ∷ es) {e} a h = elim (Bool-cases (str_eq d.key k)) [
    | inl hit ↦ let g : some d ≡ some e = rw hit at h in let q : d ≡ e = cc g in subst P q a.0
    | inr miss ↦ All-find_entry k es a.1 (rw miss at h)
  ]

  pub All-write_entry :
      (k : List ℕ) (e' : Entry) (es : List Entry) → P e' → All P es → All P (write_entry k e' es)
  unfolding write_entry
  All-write_entry k e' [] p a = tt
  All-write_entry k e' (d ∷ es) p a = elim (Bool-cases (str_eq d.key k)) [
    | inl hit ↦ rw hit (p, a.1)
    | inr miss ↦ rw miss (a.0, All-write_entry k e' es p a.1)
  ]

  pub All-append_entry : (e : Entry) (es : List Entry) → P e → All P es → All P (es ++ e ∷ [])
  All-append_entry e [] p a = (p, tt)
  All-append_entry e (d ∷ es) p a = (a.0, All-append_entry e es p a.1)

-- No key occurs twice.
abbrev pub Unique : List Entry → Type 0
Unique [] = Unit
Unique (e ∷ es) = All (λ d. str_eq d.key e.key ≡ false) es × Unique es

find_entry-none :
    (k : List ℕ) (es : List Entry) → find_entry k es ≡ none → All (λ d. str_eq d.key k ≡ false) es
unfolding find_entry
find_entry-none k [] h = tt
find_entry-none k (d ∷ es) h = elim (Bool-cases (str_eq d.key k)) [
  | inl hit ↦ ground arith
  | inr miss ↦ (miss, find_entry-none k es (rw miss at h))
]

str_eq_sym : (s t : List ℕ) → str_eq s t ≡ false → str_eq t s ≡ false
str_eq_sym s t h = ground (arith, str_eq_sound t s, str_eq_refl s)

pub Unique-append :
    (k : List ℕ) (e' : Entry) (es : List Entry)
    → find_entry k es ≡ none
    → e'.key ≡ k
    → Unique es
    → Unique (es ++ e' ∷ [])
unfolding find_entry
Unique-append k e' [] h q u = (tt, tt)
Unique-append k e' (d ∷ es) h q u = elim (Bool-cases (str_eq d.key k)) [
  | inl hit ↦ ground arith
  | inr miss ↦ (
    All-append_entry (λ x. str_eq x.key d.key ≡ false) e' es (rw q (str_eq_sym d.key k miss)) u.0,
    Unique-append k e' es (rw miss at h) q u.1,
  )
]

pub Unique-write_entry :
    (k : List ℕ) (e' : Entry) (es : List Entry)
    → e'.key ≡ k
    → Unique es
    → Unique (write_entry k e' es)
unfolding write_entry
Unique-write_entry k e' [] q u = tt
Unique-write_entry k e' (d ∷ es) q u = elim (Bool-cases (str_eq d.key k)) [
  | inl hit ↦ let w : d.key ≡ e'.key = str_eq_sound d.key k hit ∙ sym q in rw (hit, ← w) u
  | inr miss ↦ rw miss (
    All-write_entry (λ x. str_eq x.key d.key ≡ false) k e' es (rw q (str_eq_sym d.key k miss)) u.0,
    Unique-write_entry k e' es q u.1,
  )
]
