-- ===== src/Wire.antt =====
-- The address messages that two sides exchange over a socket before the queue pairs are connected:
-- `gid_to_wire_gid` and `wire_gid_to_gid` of Ex4/kv_shared.h, and the sprintf and sscanf with
-- "%04x:%06x:%06x:%s" in Ex4/kv_server.c. Text is a list of character codes.
pub mod Hex
pub mod RoundTrip
use comm_networks_workshop.Base.{
  ℕ, zero, suc, ◌+◌, ◌-◌, ◌*◌, ◌/◌, ◌%◌, ◌^◌, ◌≤◌, ◌<◌, ◌≡◌, refl, sym, ap, ◌∙◌, fun_ext, ◌≢◌, ◌↔◌,
  ◌⊎◌, inl, inr, Bool, true, false, not, ◌&&◌, ◌||◌, Option, none, some, List, [], ◌∷◌, ◌++◌, map,
  arith, ltb, leb, ◌==◌, if◌then◌else◌, ltb→lt, lt→ltb, le→ltb, leb→le, ==_iff, tests, Bool-cases,
  Option-cases, str_eq, str_eq_refl, str_eq_sound, str_eq_iff, length, length-append, get_or, take,
  drop, replicate, length-take, take-append, length-replicate, All, get_or-append_left, get_elem?,
  set_elem, length-set_elem, get_elem?-set_elem, get_elem?-set_elem_ne, get_elem?-below,
  All-get_elem?,
}
use comm_networks_workshop.Run.{
  Run, ◌>>=◌, ◌>>◌, require, in_bounds, Ensures, Ensures-bind, Ensures-after, ok, fault,
  out_of_fuel, returns, faults, stops,
}

unfoldable pub hex_digit : ℕ → ℕ
hex_digit n = if ltb n 10 then 48 + n else 87 + n

-- `%x` reads both cases.
unfoldable pub digit_value : ℕ → Option ℕ
digit_value c =
    if leb 48 c && leb c 57
    then some (c - 48)
    else if leb 97 c && leb c 102
    then some (c - 87)
    else if leb 65 c && leb c 70
    then some (c - 55)
    else none

-- The last `w` hexadecimal digits.
unfoldable pub hex_digits : ℕ → ℕ → List ℕ
hex_digits zero n = []
hex_digits (suc w) n = hex_digits w (n / 16) ++ hex_digit (n % 16) ∷ []

-- `n` has at most `w` digits.
abbrev pub FitsHex : ℕ → ℕ → Type 0
FitsHex zero n = n ≡ 0
FitsHex (suc w) n = FitsHex w (n / 16)

unfoldable pub fits_hex : ℕ → ℕ → Bool
fits_hex zero n = n == 0
fits_hex (suc w) n = fits_hex w (n / 16)

-- `%0wx`: `w` digits, or as many more as the number needs; eight are enough for 32 bits.
unfoldable pub print_hex_from : ℕ → ℕ → ℕ → List ℕ
print_hex_from zero w n = hex_digits w n
print_hex_from (suc more) w n =
    let longer = print_hex_from more (w + 1) n in if fits_hex w n then hex_digits w n else longer

unfoldable pub print_hex : ℕ → ℕ → List ℕ
print_hex w n = print_hex_from (8 - w) w n

-- The digits of a `%x`, for input without blanks, sign or prefix before them.
unfoldable pub scan_digits : ℕ → List ℕ → ℕ × List ℕ
scan_digits acc [] = (acc, [])
scan_digits acc (c ∷ cs) = elim (digit_value c) [
  | none ↦ (acc, c ∷ cs)
  | some d ↦ scan_digits (acc * 16 + d) cs
]

-- A `%x` needs a digit; when there is none, sscanf leaves the variable as it was, uninitialised.
unfoldable pub scan_hex : List ℕ → Run (ℕ × List ℕ)
scan_hex [] = fault
scan_hex (c ∷ cs) = elim (digit_value c) [ none ↦ fault | some d ↦ ok (scan_digits 0 (c ∷ cs)) ]

-- One literal character of the format.
unfoldable pub scan_char : ℕ → List ℕ → Run (List ℕ)
scan_char c [] = fault
scan_char c (d ∷ cs) = if d == c then ok cs else fault

-- The two byte orders of a 32-bit word.
unfoldable pub htonl : ℕ → ℕ
htonl v = v % 256 * 2 ^ 24 + v / 2 ^ 8 % 256 * 2 ^ 16 + v / 2 ^ 16 % 256 * 2 ^ 8 + v / 2 ^ 24 % 256

-- `union ibv_gid` as the four words that the code loads from `raw` and stores there.
pub record Gid : Type 0 where
  pub raw0 : ℕ
  pub raw4 : ℕ
  pub raw8 : ℕ
  pub raw12 : ℕ

pub record Dest : Type 0 where
  pub lid : ℕ
  pub qpn : ℕ
  pub psn : ℕ
  pub gid : Gid

unfoldable pub gid_to_wire_gid : Gid → List ℕ
gid_to_wire_gid g =
    print_hex 8 (htonl g.raw0)
    ++ (print_hex 8 (htonl g.raw4) ++ (print_hex 8 (htonl g.raw8) ++ print_hex 8 (htonl g.raw12)))

-- One round of the loop: eight characters and what is behind them.
unfoldable pub wire_word : List ℕ → Run (ℕ × List ℕ)
wire_word wgid = do (v32, cs) ← scan_hex (take 8 wgid); ok (htonl v32, drop 8 wgid)

unfoldable pub wire_gid_to_gid : List ℕ → Run Gid
wire_gid_to_gid wgid = do
  (a, wgid4) ← wire_word wgid
  (b, wgid8) ← wire_word wgid4
  (c, wgid12) ← wire_word wgid8
  (d, cs) ← wire_word wgid12
  ok (record { raw0 = a; raw4 = b; raw8 = c; raw12 = d })

-- sprintf(msg, "%04x:%06x:%06x:%s", my_dest->lid, my_dest->qpn, my_dest->psn, gid)
unfoldable pub print_dest : Dest → List ℕ
print_dest d =
    print_hex 4 d.lid
    ++ 58 ∷ (print_hex 6 d.qpn ++ 58 ∷ (print_hex 6 d.psn ++ 58 ∷ gid_to_wire_gid d.gid))

-- sscanf(msg, "%x:%x:%x:%s", ...) and wire_gid_to_gid
unfoldable pub scan_dest : List ℕ → Run Dest
scan_dest msg = do
  (lid, cs) ← scan_hex msg
  cs1 ← scan_char 58 cs
  (qpn, cs2) ← scan_hex cs1
  cs3 ← scan_char 58 cs2
  (psn, cs4) ← scan_hex cs3
  wgid ← scan_char 58 cs4
  gid ← wire_gid_to_gid wgid
  ok (record { lid = lid; qpn = qpn; psn = psn; gid = gid })
