-- ===== src/Wire/RoundTrip.antt =====
-- The address messages of Ex4/kv_server.c and Ex4/kv_client.c are read back as they were written.
use mathlib.Core.List.{append-nil}
use comm_networks_workshop.Base.{
  ℕ, ◌+◌, ◌^◌, ◌<◌, ◌≡◌, refl, sym, ap, ◌∙◌, List, [], ◌∷◌, ◌++◌, arith, length, length-append,
  take, drop, take-append,
}
use comm_networks_workshop.Run.{◌>>=◌, ok}
use comm_networks_workshop.Wire.{
  digit_value, FitsHex, print_hex, scan_char, htonl, Gid, Dest, gid_to_wire_gid, wire_word,
  wire_gid_to_gid, print_dest, scan_dest,
}
use comm_networks_workshop.Wire.Hex.{
  length-hex_digits, print_hex-FitsHex, scan_hex-print_hex, scan_hex-print_hex_end,
}

htonl-small : (v : ℕ) → htonl v < 2 ^ 32
unfolding htonl
htonl-small v = omega arith

htonl-htonl : (v : ℕ) → v < 2 ^ 32 → htonl (htonl v) ≡ v
unfolding htonl
htonl-htonl v h = omega arith

FitsHex-word : (v : ℕ) → v < 2 ^ 32 → FitsHex 8 v
FitsHex-word v h = omega arith

pub record IsGid (g : Gid) : Type 0 where
  pub small0 : g.raw0 < 2 ^ 32
  pub small4 : g.raw4 < 2 ^ 32
  pub small8 : g.raw8 < 2 ^ 32
  pub small12 : g.raw12 < 2 ^ 32

-- The ranges of a local identifier, a queue pair number and a packet sequence number.
pub record IsDest (d : Dest) : Type 0 where
  pub lid_small : d.lid < 2 ^ 16
  pub qpn_small : d.qpn < 2 ^ 24
  pub psn_small : d.psn < 2 ^ 24
  pub gid_is : IsGid d.gid

length-print_word : (v : ℕ) → length (print_hex 8 (htonl v)) ≡ 8
length-print_word v =
    rw (print_hex-FitsHex 8 (htonl v) (FitsHex-word (htonl v) (htonl-small v)))
      (length-hex_digits 8 (htonl v))

take_append_eq {ℓ} : {A : Type ℓ} (n : ℕ) (xs ys : List A) → length xs ≡ n → take n (xs ++ ys) ≡ xs
take_append_eq n xs ys h = rw (← h) (take-append xs ys)

drop_append_eq {ℓ} : {A : Type ℓ} (n : ℕ) (xs ys : List A) → length xs ≡ n → drop n (xs ++ ys) ≡ ys
drop_append_eq n [] ys h = rw (← h)
drop_append_eq n (x ∷ xs) ys h = rw (← h) (drop_append_eq (length xs) xs ys refl)

wire_word-print :
    (v : ℕ) (cs : List ℕ) → v < 2 ^ 32 → wire_word (print_hex 8 (htonl v) ++ cs) ≡ ok (v, cs)
unfolding wire_word
wire_word-print v cs h =
    let n = length-print_word v in
    let t = take_append_eq 8 (print_hex 8 (htonl v)) cs n in
    let d = drop_append_eq 8 (print_hex 8 (htonl v)) cs n in
    let s = scan_hex-print_hex_end 7 (htonl v) (FitsHex-word (htonl v) (htonl-small v)) in
    rw (t, d, s, htonl-htonl v h)

-- The wire form of a gid of four 32-bit words is read back as the gid.
pub wire_gid_to_gid-gid_to_wire_gid :
    (g : Gid) → IsGid g → wire_gid_to_gid (gid_to_wire_gid g) ≡ ok g
unfolding wire_gid_to_gid gid_to_wire_gid
wire_gid_to_gid-gid_to_wire_gid g h =
    rw
      (
        wire_word-print g.raw0
            (print_hex 8 (htonl g.raw4)
              ++ (print_hex 8 (htonl g.raw8) ++ print_hex 8 (htonl g.raw12)))
            h.small0,
        wire_word-print g.raw4 (print_hex 8 (htonl g.raw8) ++ print_hex 8 (htonl g.raw12)) h.small4,
        wire_word-print g.raw8 (print_hex 8 (htonl g.raw12)) h.small8,
      )
      (ap (λ cs. wire_word cs >>= λ d. ok (record g { raw12 = d.0 }))
          (sym (append-nil (print_hex 8 (htonl g.raw12))))
        ∙ rw (wire_word-print g.raw12 [] h.small12))

-- An address message is read back as the address that was written, if the local identifier has 16
-- bits, the two numbers have 24 bits and the words of the gid 32.
pub scan_dest-print_dest : (d : Dest) → IsDest d → scan_dest (print_dest d) ≡ ok d
unfolding scan_dest print_dest scan_char digit_value
scan_dest-print_dest d h =
    let lid_fits : FitsHex 4 d.lid = omega (arith, h.lid_small) in
    let qpn_fits : FitsHex 6 d.qpn = omega (arith, h.qpn_small) in
    let psn_fits : FitsHex 6 d.psn = omega (arith, h.psn_small) in
    rw (scan_hex-print_hex 3 d.lid 58 _ lid_fits refl) (
      rw (scan_hex-print_hex 5 d.qpn 58 _ qpn_fits refl) (
        rw (scan_hex-print_hex 5 d.psn 58 _ psn_fits refl)
          (rw (wire_gid_to_gid-gid_to_wire_gid d.gid h.gid_is))))

length-gid_to_wire_gid : (g : Gid) → length (gid_to_wire_gid g) ≡ 32
unfolding gid_to_wire_gid
length-gid_to_wire_gid g =
    let a = print_hex 8 (htonl g.raw0) in
    let b = print_hex 8 (htonl g.raw4) in
    let c = print_hex 8 (htonl g.raw8) in
    let d = print_hex 8 (htonl g.raw12) in
    omega (
      arith,
      length-append a (b ++ (c ++ d)),
      length-append b (c ++ d),
      length-append c d,
      length-print_word g.raw0,
      length-print_word g.raw4,
      length-print_word g.raw8,
      length-print_word g.raw12,
    )

length-print_hex : (w n : ℕ) → FitsHex w n → length (print_hex w n) ≡ w
length-print_hex w n h = rw (print_hex-FitsHex w n h) (length-hex_digits w n)

-- An address message with its NUL fills the 52 bytes of `msg` exactly, if the local identifier has
-- 16 bits and the two numbers have 24 bits.
pub length-print_dest : (d : Dest) → IsDest d → length (print_dest d) + 1 ≡ 52
unfolding print_dest
length-print_dest d h =
    let g = gid_to_wire_gid d.gid in
    let psn = print_hex 6 d.psn in
    let qpn = print_hex 6 d.qpn in
    omega (
      arith,
      length-append (print_hex 4 d.lid) (58 ∷ (qpn ++ 58 ∷ (psn ++ 58 ∷ g))),
      length-append qpn (58 ∷ (psn ++ 58 ∷ g)),
      length-append psn (58 ∷ g),
      length-gid_to_wire_gid d.gid,
      length-print_hex 4 d.lid (omega (arith, h.lid_small)),
      length-print_hex 6 d.qpn (omega (arith, h.qpn_small)),
      length-print_hex 6 d.psn (omega (arith, h.psn_small)),
    )
