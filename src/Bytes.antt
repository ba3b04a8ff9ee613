-- ===== src/Bytes.antt =====
-- A memory buffer such as `ctx->buf`, byte by byte, with the reads and writes that the C code makes
-- in it: little-endian words, memcpy, and NUL-terminated strings (kv_shared.h, x86-64 layout).
pub mod Laws
pub mod Strings
use comm_networks_workshop.Base.{
  ℕ, zero, suc, ◌+◌, ◌-◌, ◌*◌, ◌/◌, ◌%◌, ◌^◌, Bool, Option, none, some, List, [], ◌∷◌, ltb, ◌==◌,
  if◌then◌else◌, length, get_or, ◌&&◌, leb,
}

-- The byte at each offset.
abbrev pub Buf : Type 0
Buf = ℕ → ℕ

-- One byte at `off`.
unfoldable pub put_byte : Buf → ℕ → ℕ → Buf
put_byte b off v i = if i == off then v else b i

-- memcpy(b + off, xs, length of xs)
unfoldable pub put_bytes : Buf → ℕ → List ℕ → Buf
put_bytes b off xs i = if leb off i && ltb i (off + length xs) then get_or xs (i - off) 0 else b i

-- memcpy(_, b + off, n)
unfoldable pub get_bytes : Buf → ℕ → ℕ → List ℕ
get_bytes b off zero = []
get_bytes b off (suc n) = b off ∷ get_bytes b (off + 1) n

-- A store of an unsigned int, and of a uint64_t as two of them.
unfoldable pub put_u32 : Buf → ℕ → ℕ → Buf
put_u32 b off v i =
    if i == off
    then v % 256
    else if i == off + 1
    then v / 256 % 256
    else if i == off + 2
    then v / 65536 % 256
    else if i == off + 3
    then v / 16777216 % 256
    else b i

unfoldable pub get_u32 : Buf → ℕ → ℕ
get_u32 b off = b off + 256 * b (off + 1) + 65536 * b (off + 2) + 16777216 * b (off + 3)

unfoldable pub put_u64 : Buf → ℕ → ℕ → Buf
put_u64 b off v = put_u32 (put_u32 b off (v % 2 ^ 32)) (off + 4) (v / 2 ^ 32)

unfoldable pub get_u64 : Buf → ℕ → ℕ
get_u64 b off = get_u32 b off + 2 ^ 32 * get_u32 b (off + 4)

-- The string at `off`, read byte by byte up to its NUL; `none` when `fuel` bytes hold no NUL, which
-- is a read past the buffer when `fuel` bytes are left in it.
unfoldable pub get_str : ℕ → Buf → ℕ → Option (List ℕ)
get_str zero b off = none
get_str (suc fuel) b off = elim (b off) [
  | zero ↦ some []
  | suc c ↦ elim (get_str fuel b (off + 1)) [ none ↦ none | some s ↦ some (suc c ∷ s) ]
]

-- An RDMA send of `size` bytes: they arrive at the start of the receiver's posted buffer, and the
-- rest of that buffer stays as it was.
unfoldable pub transmit : ℕ → Buf → Buf → Buf
transmit size src dst i = if ltb i size then src i else dst i
