-- ===== src/Echo/Sets.antt =====
-- The map of clients of Ex2/server.cpp as a set of descriptors.
use comm_networks_workshop.Base.{
  ℕ, ◌<◌, ◌≡◌, refl, sym, ap, ◌∙◌, ◌≢◌, ◌⊎◌, inl, inr, Bool, true, false, not, ◌&&◌, ◌||◌, List, [],
  ◌∷◌, arith, ◌==◌, Bool-cases, str_eq, str_eq_refl, str_eq_sound, All,
}
use comm_networks_workshop.Template.Throughput.{max_digits}
use comm_networks_workshop.Template.Throughput.Keys.{value_of, value_of-decimal}
use comm_networks_workshop.Echo.{fd_setsize, to_string, str_less, emplace, erase}

abbrev pub member : ℕ → List ℕ → Bool
member i [] = false
member i (c ∷ cs) = (i == c) || member i cs

abbrev pub NoTwice : List ℕ → Type 0
NoTwice [] = Unit {0}
NoTwice (c ∷ cs) = (member c cs ≡ false) × NoTwice cs

abbrev pub IsFd : ℕ → Type 0
IsFd c = c < fd_setsize

to_string_sound : (a b : ℕ) → IsFd a → IsFd b → str_eq (to_string a) (to_string b) ≡ true → a ≡ b
to_string_sound a b ha hb e =
    let q : to_string a ≡ to_string b = str_eq_sound (to_string a) (to_string b) e in
    sym (value_of-decimal max_digits a (omega arith))
    ∙ ap (value_of 0) q
    ∙ value_of-decimal max_digits b (omega arith)

pub to_string-cases :
    (a b : ℕ)
    → IsFd a
    → IsFd b
    → ((str_eq (to_string a) (to_string b) ≡ true) × (a ≡ b))
      ⊎ ((str_eq (to_string a) (to_string b) ≡ false) × (a ≢ b))
to_string-cases a b ha hb = elim (Bool-cases (str_eq (to_string a) (to_string b))) [
  | inl same ↦ inl (same, to_string_sound a b ha hb same)
  | inr other ↦ inr (
    other,
    λ q. let r : str_eq (to_string a) (to_string b) ≡ true = rw q (str_eq_refl (to_string b)) in cc,
  )
]

module _ (fd : ℕ) (small : IsFd fd) where
  pub member-emplace :
      (cs : List ℕ) (i : ℕ) → All IsFd cs → member i (emplace fd cs) ≡ ((i == fd) || member i cs)
  unfolding emplace
  member-emplace [] i h = refl
  member-emplace (c ∷ cs) i (hc, h) = elim (to_string-cases fd c small hc) [
    | inl (same, q) ↦ rw (emplace, same) (ground (arith, q))
    | inr (other, q) ↦ elim (Bool-cases (str_less (to_string fd) (to_string c))) [
      | inl less ↦ rw (emplace, other) (rw less refl)
      | inr more ↦ rw (emplace, other) (rw more (ground (arith, member-emplace cs i h)))
    ]
  ]

  pub All-emplace : (cs : List ℕ) → All IsFd cs → All IsFd (emplace fd cs)
  unfolding emplace
  All-emplace [] h = (small, tt)
  All-emplace (c ∷ cs) (hc, h) = elim (to_string-cases fd c small hc) [
    | inl (same, q) ↦ rw (emplace, same) (hc, h)
    | inr (other, q) ↦ elim (Bool-cases (str_less (to_string fd) (to_string c))) [
      | inl less ↦ rw (emplace, other) (rw less (small, (hc, h)))
      | inr more ↦ rw (emplace, other) (rw more (hc, All-emplace cs h))
    ]
  ]

  pub NoTwice-emplace :
      (cs : List ℕ) → All IsFd cs → member fd cs ≡ false → NoTwice cs → NoTwice (emplace fd cs)
  unfolding emplace
  NoTwice-emplace [] h out n = (refl, tt)
  NoTwice-emplace (c ∷ cs) (hc, h) out (once, n) = elim (to_string-cases fd c small hc) [
    | inl (same, q) ↦ rw (emplace, same) (once, n)
    | inr (other, q) ↦
        let out' : member fd cs ≡ false = ground arith in
        elim (Bool-cases (str_less (to_string fd) (to_string c))) [
          | inl less ↦ rw (emplace, other) (rw less (out, (once, n)))
          | inr more ↦
              rw (emplace, other)
                (rw more (ground (arith, member-emplace cs c h), NoTwice-emplace cs h out' n))
        ]
  ]

  pub member-erase :
      (cs : List ℕ) (i : ℕ)
      → All IsFd cs
      → NoTwice cs
      → member i (erase fd cs) ≡ (not (i == fd) && member i cs)
  unfolding erase
  member-erase [] i h n = ground arith
  member-erase (c ∷ cs) i (hc, h) (once, n) = elim (to_string-cases fd c small hc) [
    | inl (same, q) ↦
        rw (erase, same)
          (elim (Bool-cases (i == fd)) [
            | inl at ↦ (let e : i ≡ c = ground arith in rw e (ground (arith, once)))
            | inr off ↦ ground (arith, off, q)
          ])
    | inr (other, q) ↦ rw (erase, other) (ground (arith, member-erase cs i h n))
  ]

  pub All-erase : (cs : List ℕ) → All IsFd cs → All IsFd (erase fd cs)
  unfolding erase
  All-erase [] h = tt
  All-erase (c ∷ cs) (hc, h) = elim (to_string-cases fd c small hc) [
    | inl (same, q) ↦ rw (erase, same) h
    | inr (other, q) ↦ rw (erase, other) (hc, All-erase cs h)
  ]

  pub NoTwice-erase : (cs : List ℕ) → All IsFd cs → NoTwice cs → NoTwice (erase fd cs)
  unfolding erase
  NoTwice-erase [] h n = tt
  NoTwice-erase (c ∷ cs) (hc, h) (once, n) = elim (to_string-cases fd c small hc) [
    | inl (same, q) ↦ rw (erase, same) n
    | inr (other, q) ↦
        rw (erase, other) (ground (arith, member-erase cs c h n, once), NoTwice-erase cs h n)
  ]
