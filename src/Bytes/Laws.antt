-- ===== src/Bytes/Laws.antt =====
-- What a read of a buffer sees after a write.
use comm_networks_workshop.Base.{
  ℕ, zero, suc, ◌+◌, ◌-◌, ◌/◌, ◌%◌, ◌^◌, ◌≤◌, ◌<◌, ◌≡◌, refl, ap, ◌∙◌, ◌⊎◌, inl, List, [], ◌∷◌,
  ◌++◌, arith, length, length-append, get_or, take, get_or-append_left,
}
use comm_networks_workshop.Bytes.{
  Buf, put_byte, put_bytes, get_bytes, put_u32, get_u32, put_u64, get_u64, transmit,
}

pub get_u32-put_u32 : (b : Buf) (off v : ℕ) → v < 2 ^ 32 → get_u32 (put_u32 b off v) off ≡ v
unfolding get_u32 put_u32
get_u32-put_u32 b off v h = ground arith

-- A word is left alone by a word written elsewhere.
pub get_u32-put_u32_ne :
    (b : Buf) (off at v : ℕ)
    → (off + 4 ≤ at) ⊎ (at + 4 ≤ off)
    → get_u32 (put_u32 b at v) off ≡ get_u32 b off
unfolding get_u32 put_u32
get_u32-put_u32_ne b off at v h = ground arith

pub get_u32-put_bytes_ne :
    (b : Buf) (off at : ℕ) (xs : List ℕ)
    → off + 4 ≤ at
    → get_u32 (put_bytes b at xs) off ≡ get_u32 b off
unfolding get_u32 put_bytes
get_u32-put_bytes_ne b off at xs h = ground arith

pub get_u32-put_byte_ne :
    (b : Buf) (off at v : ℕ) → off + 4 ≤ at → get_u32 (put_byte b at v) off ≡ get_u32 b off
unfolding get_u32 put_byte
get_u32-put_byte_ne b off at v h = ground arith

pub get_u32-transmit :
    (size off : ℕ) (src dst : Buf)
    → off + 4 ≤ size
    → get_u32 (transmit size src dst) off ≡ get_u32 src off
unfolding get_u32 transmit
get_u32-transmit size off src dst h = ground arith

pub get_u64-put_u64 : (b : Buf) (off v : ℕ) → v < 2 ^ 64 → get_u64 (put_u64 b off v) off ≡ v
unfolding get_u64 put_u64
get_u64-put_u64 b off v h = ground (
  arith,
  get_u32-put_u32_ne (put_u32 b off (v % 2 ^ 32)) off (off + 4) (v / 2 ^ 32) (inl (omega arith)),
  get_u32-put_u32 b off (v % 2 ^ 32) (omega arith),
  get_u32-put_u32 (put_u32 b off (v % 2 ^ 32)) (off + 4) (v / 2 ^ 32) (omega arith),
)

pub get_u64-put_u32_ne :
    (b : Buf) (off at v : ℕ)
    → (off + 8 ≤ at) ⊎ (at + 4 ≤ off)
    → get_u64 (put_u32 b at v) off ≡ get_u64 b off
unfolding get_u64
get_u64-put_u32_ne b off at v h = ground (
  arith,
  get_u32-put_u32_ne b off at v (omega arith),
  get_u32-put_u32_ne b (off + 4) at v (omega arith),
)

pub get_u32-put_u64_ne :
    (b : Buf) (off at v : ℕ)
    → (off + 4 ≤ at) ⊎ (at + 8 ≤ off)
    → get_u32 (put_u64 b at v) off ≡ get_u32 b off
unfolding put_u64
get_u32-put_u64_ne b off at v h = ground (
  arith,
  get_u32-put_u32_ne b off at (v % 2 ^ 32) (omega arith),
  get_u32-put_u32_ne (put_u32 b at (v % 2 ^ 32)) off (at + 4) (v / 2 ^ 32) (omega arith),
)

pub get_u64-transmit :
    (size off : ℕ) (src dst : Buf)
    → off + 8 ≤ size
    → get_u64 (transmit size src dst) off ≡ get_u64 src off
unfolding get_u64
get_u64-transmit size off src dst h = ground (
  arith,
  get_u32-transmit size off src dst (omega arith),
  get_u32-transmit size (off + 4) src dst (omega arith),
)

-- The buffer holds `xs` from `off` on.
abbrev pub Holds : Buf → ℕ → List ℕ → Type 0
Holds b off xs = (i : ℕ) → i < length xs → b (off + i) ≡ get_or xs i 0

pub Holds-put_bytes : (b : Buf) (off : ℕ) (xs : List ℕ) → Holds (put_bytes b off xs) off xs
unfolding put_bytes
Holds-put_bytes b off xs i h = let e : off + i - off ≡ i = omega arith in rw (← e) (ground arith)

pub get_bytes-Holds :
    (b : Buf) (off : ℕ) (xs : List ℕ) → Holds b off xs → get_bytes b off (length xs) ≡ xs
unfolding get_bytes
get_bytes-Holds b off [] h = refl
get_bytes-Holds b off (x ∷ xs) h =
    ground (arith, h 0, get_bytes-Holds b (off + 1) xs λ i hi. ground (arith, h (suc i)))

-- Writes elsewhere, and a send that covers the bytes, keep what a buffer holds.
pub Holds-put_bytes_ne :
    (b : Buf) (off at : ℕ) (xs ys : List ℕ)
    → (off + length xs ≤ at) ⊎ (at + length ys ≤ off)
    → Holds b off xs
    → Holds (put_bytes b at ys) off xs
unfolding put_bytes
Holds-put_bytes_ne b off at xs ys apart h i hi = ground (arith, h i)

pub Holds-put_u32_ne :
    (b : Buf) (off at v : ℕ) (xs : List ℕ)
    → (off + length xs ≤ at) ⊎ (at + 4 ≤ off)
    → Holds b off xs
    → Holds (put_u32 b at v) off xs
unfolding put_u32
Holds-put_u32_ne b off at v xs apart h i hi = ground (arith, h i)

pub Holds-transmit :
    (size off : ℕ) (src dst : Buf) (xs : List ℕ)
    → off + length xs ≤ size
    → Holds src off xs
    → Holds (transmit size src dst) off xs
unfolding transmit
Holds-transmit size off src dst xs fits h i hi = ground (arith, h i)

pub length-get_bytes : (b : Buf) (off n : ℕ) → length (get_bytes b off n) ≡ n
unfolding get_bytes
length-get_bytes b off zero = refl
length-get_bytes b off (suc n) = ap suc (length-get_bytes b (off + 1) n)

pub Holds-append_left :
    (b : Buf) (off : ℕ) (xs ys : List ℕ) → Holds b off (xs ++ ys) → Holds b off xs
Holds-append_left b off xs ys h i hi =
    h i (omega (arith, length-append xs ys)) ∙ get_or-append_left xs ys i 0 hi

pub get_bytes-take :
    (b : Buf) (off n : ℕ) (xs : List ℕ)
    → Holds b off xs
    → n ≤ length xs
    → get_bytes b off n ≡ take n xs
unfolding get_bytes
get_bytes-take b off zero xs h l = refl
get_bytes-take b off (suc n) [] h l = absurd (omega arith)
get_bytes-take b off (suc n) (x ∷ xs) h l =
    ground (arith, h 0, get_bytes-take b (off + 1) n xs λ i hi. ground (arith, h (suc i)))

pub get_bytes-suc :
    (b : Buf) (off n : ℕ) → get_bytes b off (n + 1) ≡ get_bytes b off n ++ b (off + n) ∷ []
unfolding get_bytes
get_bytes-suc b off zero = let e : off + 0 ≡ off = omega arith in rw e
get_bytes-suc b off (suc n) =
    let e : off + 1 + n ≡ off + suc n = omega arith in
    let s : suc n + 1 ≡ suc (n + 1) = omega arith in
    rw s (ap (◌∷◌ (b off)) (get_bytes-suc b (off + 1) n ∙ rw e))

get_or-append_right : (xs ys : List ℕ) (i : ℕ) → get_or (xs ++ ys) (length xs + i) 0 ≡ get_or ys i 0
get_or-append_right [] ys i = let e : 0 + i ≡ i = omega arith in rw e
get_or-append_right (x ∷ xs) ys i =
    let e : suc (length xs) + i ≡ suc (length xs + i) = omega arith in
    rw e (get_or-append_right xs ys i)

pub Holds-append_right :
    (b : Buf) (off : ℕ) (xs ys : List ℕ) → Holds b off (xs ++ ys) → Holds b (off + length xs) ys
Holds-append_right b off xs ys h i hi =
    let e : off + length xs + i ≡ off + (length xs + i) = omega arith in
    rw e (h (length xs + i) (omega (arith, length-append xs ys)) ∙ get_or-append_right xs ys i)

-- A byte behind the bytes leaves them.
pub Holds-put_byte_behind :
    (b : Buf) (off : ℕ) (xs : List ℕ)
    → Holds b off xs
    → Holds (put_byte b (off + length xs) 0) off xs
unfolding put_byte
Holds-put_byte_behind b off xs h i hi = ground (arith, h i)
