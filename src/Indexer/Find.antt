-- ===== src/Indexer/Find.antt =====
-- The answer of Ex4/kv_indexer.c to a FIND.
use native.Mathlib.Nat.{mod-lt}
use comm_networks_workshop.Base.{
  ℕ, ◌+◌, ◌-◌, ◌%◌, ◌^◌, ◌≤◌, ◌<◌, ◌≡◌, ◌∙◌, false, some, List, arith, ◌==◌, length,
}
use comm_networks_workshop.Run.{ok, fault}
use comm_networks_workshop.Bytes.{Buf, put_u32, get_u32, get_str}
use comm_networks_workshop.Bytes.Laws.{get_u32-put_u32_ne}
use comm_networks_workshop.Bytes.Strings.{get_str-Holds}
use comm_networks_workshop.Packet.{
  code, kind-code, type_at, length_at, bytes_at, sizeof_packet, eager_protocol_limit, find,
  location,
}
use comm_networks_workshop.Server.Lookup.{KeyAt}
use comm_networks_workshop.Indexer.{
  hash_key, Indexer, select_server, handle_find, handle, handle_indexer_packet,
}
use comm_networks_workshop.Indexer.Hash.{djb2, hash_key-djb2}

-- The server that a key belongs to among `n`.
abbrev pub home : List ℕ → ℕ → ℕ
home key n = djb2 5381 key % 2 ^ 32 % n

-- The buffer holds a well-formed FIND for one of `n` servers.
pub record Finds (key : List ℕ) (n : ℕ) (b : Buf) : Type 0 where
  pub kind_is : get_u32 b type_at ≡ code find
  pub key_is : KeyAt bytes_at key b
  pub servers_are : get_u32 b length_at ≡ n
  pub fits : bytes_at + length key + 1 ≤ eager_protocol_limit

abbrev pub found_response : ℕ → Buf → Buf
found_response i b = put_u32 (put_u32 b type_at (code location)) length_at i

pub select_server-home :
    (key : List ℕ) (n : ℕ) → 0 < n → select_server (hash_key key) n ≡ ok (home key n)
unfolding select_server
select_server-home key n pos =
    let nz : (n == 0) ≡ false = ground arith in
    let e : djb2 5381 key % 2 ^ 64 % 2 ^ 32 ≡ djb2 5381 key % 2 ^ 32 = omega arith in
    rw (nz, hash_key-djb2 key, e)

pub home-lt : (key : List ℕ) (n : ℕ) → 0 < n → home key n < n
home-lt key n pos = mod-lt (djb2 5381 key % 2 ^ 32) pos

-- A well-formed FIND for at least one server is answered by a LOCATION with the key's home.
pub handle_find_lem :
    (s : Indexer) (key : List ℕ) (n : ℕ)
    → Finds key n s.buf
    → 0 < n
    → handle_indexer_packet s
      ≡ ok (record s { buf = found_response (home key n) s.buf }, sizeof_packet)
unfolding handle_indexer_packet handle handle_find code
handle_find_lem s key n h pos =
    let servers : get_u32 (put_u32 s.buf type_at (code location)) length_at ≡ n =
      get_u32-put_u32_ne s.buf length_at type_at (code location) (omega arith) ∙ h.servers_are in
    let read : get_str (eager_protocol_limit - bytes_at) s.buf bytes_at ≡ some key =
      get_str-Holds _ s.buf bytes_at key h.key_is.0 h.key_is.1 (omega (arith, h.fits)) in
    rw (h.kind_is, kind-code find) (rw (read, servers, select_server-home key n pos))

-- With no server the code divides by 0.
pub handle_find_zero :
    (s : Indexer) (key : List ℕ) → Finds key 0 s.buf → handle_indexer_packet s ≡ fault
unfolding handle_indexer_packet handle handle_find select_server code
handle_find_zero s key h =
    let servers : get_u32 (put_u32 s.buf type_at (code location)) length_at ≡ 0 =
      get_u32-put_u32_ne s.buf length_at type_at (code location) (omega arith) ∙ h.servers_are in
    let read : get_str (eager_protocol_limit - bytes_at) s.buf bytes_at ≡ some key =
      get_str-Holds _ s.buf bytes_at key h.key_is.0 h.key_is.1 (omega (arith, h.fits)) in
    rw (h.kind_is, kind-code find) (rw (read, servers))
