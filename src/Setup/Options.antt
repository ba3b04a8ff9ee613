-- ===== src/Setup/Options.antt =====
-- The checks of the options in `orig_main` of Ex4/kv_server.c.
use mathlib.Core.Path.{subst}
use comm_networks_workshop.Base.{
  ℕ, ◌≡◌, refl, inl, inr, Bool, true, false, Option, none, some, List, [], ◌∷◌, if◌then◌else◌,
  Option-cases, ℤ, is_negative,
}
use comm_networks_workshop.Setup.{
  Opt, Settings, to_int, pp_mtu_to_enum, out_of_range, set_mtu, apply_option, apply_options,
  take_name, first_settings, configure, port_opt, ib_port_opt, size_opt, mtu_opt, rx_depth_opt,
  iters_opt, sl_opt, gid_idx_opt, ib_dev_opt, events_opt, unknown,
}

-- The port is that of a socket, and the device port is not negative.
abbrev pub IsSettings : Settings → Type 0
IsSettings s = (out_of_range s.port ≡ false) × (is_negative s.ib_port ≡ false)

kept : (u t : Settings) → IsSettings u → some u ≡ some t → IsSettings t
kept u t h e = let q : u ≡ t = cc e in subst IsSettings q h

checked :
    (b : Bool) (u t : Settings)
    → (b ≡ false → IsSettings u)
    → (if b then none else some u) ≡ some t
    → IsSettings t
checked true u t h e = cc
checked false u t h e = kept u t (h refl) e

set_mtu-IsSettings :
    (signed : Bool) (o : Option ℕ) (s t : Settings)
    → IsSettings s
    → set_mtu signed o s ≡ some t
    → IsSettings t
unfolding set_mtu
set_mtu-IsSettings signed (some mtu) s t h e = kept _ t h e
set_mtu-IsSettings signed none s t h e = mtu signed e
  where
    mtu : (b : Bool) → (if b then none else some (record s { mtu = none })) ≡ some t → IsSettings t
    mtu true q = cc
    mtu false q = kept _ t h q

apply_option-IsSettings :
    (signed : Bool) (o : Opt) (s t : Settings)
    → IsSettings s
    → apply_option signed o s ≡ some t
    → IsSettings t
unfolding apply_option
apply_option-IsSettings signed (port_opt n) s t h e =
    checked (out_of_range (to_int n)) _ t (λ q. (q, h.1)) e
apply_option-IsSettings signed (ib_dev_opt name) s t h e = kept _ t h e
apply_option-IsSettings signed (ib_port_opt n) s t h e =
    checked (is_negative (to_int n)) _ t (λ q. (h.0, q)) e
apply_option-IsSettings signed (size_opt n) s t h e = kept _ t h e
apply_option-IsSettings signed (mtu_opt n) s t h e =
    set_mtu-IsSettings signed (pp_mtu_to_enum (to_int n)) s t h e
apply_option-IsSettings signed (rx_depth_opt n) s t h e = kept _ t h e
apply_option-IsSettings signed (iters_opt n) s t h e = kept _ t h e
apply_option-IsSettings signed (sl_opt n) s t h e = kept _ t h e
apply_option-IsSettings signed events_opt s t h e = kept _ t h e
apply_option-IsSettings signed (gid_idx_opt n) s t h e = kept _ t h e
apply_option-IsSettings signed unknown s t h e = cc

apply_options-IsSettings :
    (signed : Bool) (os : List Opt) (s t : Settings)
    → IsSettings s
    → apply_options signed os s ≡ some t
    → IsSettings t
unfolding apply_options
apply_options-IsSettings signed [] s t h e = kept s t h e
apply_options-IsSettings signed (o ∷ os) s t h e = elim (Option-cases (apply_option signed o s)) [
  | inl bad ↦ let q : none ≡ some t = rw (apply_options, bad) at e in cc q
  | inr (u, good) ↦
      apply_options-IsSettings signed os u t (apply_option-IsSettings signed o s u h good)
        (rw (apply_options, good) at e)
]

take_name-IsSettings :
    (names : List (List ℕ)) (s t : Settings)
    → IsSettings s
    → take_name names s ≡ some t
    → IsSettings t
unfolding take_name
take_name-IsSettings [] s t h e = kept s t h e
take_name-IsSettings (name ∷ []) s t h e = kept _ t h e
take_name-IsSettings (name ∷ more ∷ names) s t h e = cc

-- From an initial port between 0 and 65535, the options and names that are accepted leave a port
-- between 0 and 65535 and a device port that is not negative.
configure-IsSettings :
    (signed : Bool) (opts : List Opt) (names : List (List ℕ)) (servername : Option (List ℕ))
    (port size : ℤ) (s : Settings)
    → out_of_range port ≡ false
    → configure signed opts names (first_settings servername port size) ≡ some s
    → IsSettings s
unfolding configure first_settings
configure-IsSettings signed opts names servername port size s h e =
    elim (Option-cases (apply_options signed opts (first_settings servername port size))) [
      | inl bad ↦ let q : none ≡ some s = rw (configure, bad) at e in cc q
      | inr (t, good) ↦
          take_name-IsSettings names t s
            (apply_options-IsSettings signed opts (first_settings servername port size) t (h, refl)
              good)
            (rw (configure, good) at e)
    ]
