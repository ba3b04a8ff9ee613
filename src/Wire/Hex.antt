-- ===== src/Wire/Hex.antt =====
-- Printing and reading one hexadecimal number.
use mathlib.Core.List.{append_assoc, append-nil}
use comm_networks_workshop.Base.{
  ℕ, zero, suc, ◌+◌, ◌-◌, ◌*◌, ◌/◌, ◌%◌, ◌<◌, ◌≡◌, refl, sym, ap, ◌∙◌, true, none, some, List, [],
  ◌∷◌, ◌++◌, arith, length, length-append,
}
use comm_networks_workshop.Run.{ok}
use comm_networks_workshop.Wire.{
  hex_digit, digit_value, hex_digits, FitsHex, fits_hex, print_hex_from, print_hex, scan_digits,
  scan_hex,
}

digit_value-hex_digit : (d : ℕ) → d < 16 → digit_value (hex_digit d) ≡ some d
unfolding digit_value hex_digit
digit_value-hex_digit d h = ground arith

pub length-hex_digits : (w n : ℕ) → length (hex_digits w n) ≡ w
unfolding hex_digits
length-hex_digits zero n = refl
length-hex_digits (suc w) n = omega (
  arith,
  length-append (hex_digits w (n / 16)) (hex_digit (n % 16) ∷ []),
  length-hex_digits w (n / 16),
)

-- The digits of a number are read as the number, whatever follows.
pub scan_digits-hex_digits :
    (w n : ℕ) (cs : List ℕ) → FitsHex w n → scan_digits 0 (hex_digits w n ++ cs) ≡ scan_digits n cs
unfolding hex_digits scan_digits
scan_digits-hex_digits zero n cs h = rw h
scan_digits-hex_digits (suc w) n cs h =
    let lt : n % 16 < 16 = omega arith in
    let e : n / 16 * 16 + n % 16 ≡ n = omega arith in
    rw (append_assoc (hex_digits w (n / 16)) (hex_digit (n % 16) ∷ []) cs) (
      scan_digits-hex_digits w (n / 16) (hex_digit (n % 16) ∷ cs) h
      ∙ rw (scan_digits, digit_value-hex_digit (n % 16) lt, e))

scan_hex-hex_digits :
    (w n : ℕ) (cs : List ℕ)
    → scan_hex (hex_digits (suc w) n ++ cs) ≡ ok (scan_digits 0 (hex_digits (suc w) n ++ cs))
unfolding hex_digits scan_hex
scan_hex-hex_digits zero n cs =
    let lt : n % 16 < 16 = omega arith in rw (scan_hex, digit_value-hex_digit (n % 16) lt)
scan_hex-hex_digits (suc w) n cs =
    rw (append_assoc (hex_digits (suc w) (n / 16)) (hex_digit (n % 16) ∷ []) cs)
      (scan_hex-hex_digits w (n / 16) (hex_digit (n % 16) ∷ cs))

fits_hex-FitsHex : (w n : ℕ) → FitsHex w n → fits_hex w n ≡ true
unfolding fits_hex
fits_hex-FitsHex zero n h = ground arith
fits_hex-FitsHex (suc w) n h = fits_hex-FitsHex w (n / 16) h

print_hex_from-FitsHex : (more w n : ℕ) → FitsHex w n → print_hex_from more w n ≡ hex_digits w n
unfolding print_hex_from
print_hex_from-FitsHex zero w n h = refl
print_hex_from-FitsHex (suc more) w n h = rw (fits_hex-FitsHex w n h)

-- A number that fits is printed with the digits asked for.
pub print_hex-FitsHex : (w n : ℕ) → FitsHex w n → print_hex w n ≡ hex_digits w n
unfolding print_hex
print_hex-FitsHex w n h = print_hex_from-FitsHex (8 - w) w n h

-- `%x` reads back what `%0wx` has printed, up to the next character that is not a digit.
pub scan_hex-print_hex :
    (w n c : ℕ) (cs : List ℕ)
    → FitsHex (suc w) n
    → digit_value c ≡ none
    → scan_hex (print_hex (suc w) n ++ c ∷ cs) ≡ ok (n, c ∷ cs)
unfolding scan_digits
scan_hex-print_hex w n c cs h stop = rw (print_hex-FitsHex (suc w) n h) (
    scan_hex-hex_digits w n (c ∷ cs)
    ∙ ap ok (scan_digits-hex_digits (suc w) n (c ∷ cs) h ∙ rw (scan_digits, stop)))

pub scan_hex-print_hex_end :
    (w n : ℕ) → FitsHex (suc w) n → scan_hex (print_hex (suc w) n) ≡ ok (n, [])
unfolding scan_digits
scan_hex-print_hex_end w n h = rw (print_hex-FitsHex (suc w) n h) (
    ap scan_hex (sym (append-nil (hex_digits (suc w) n)))
    ∙ scan_hex-hex_digits w n []
    ∙ ap ok (scan_digits-hex_digits (suc w) n [] h))
