-- ===== src/Indexer/Overflow.antt =====
-- What the handler of Ex4/kv_indexer.c does with the first set of a key.
use comm_networks_workshop.Base.{
  ℕ, ◌+◌, ◌-◌, ◌≤◌, ◌≡◌, refl, ◌⊎◌, inl, inr, false, Option, none, some, List, arith, leb, length,
}
use comm_networks_workshop.Run.{ok, fault}
use comm_networks_workshop.Bytes.{Buf, get_u32, get_str}
use comm_networks_workshop.Packet.{
  code, kind-code, type_at, bytes_at, eager_protocol_limit, eager_set_request,
  rendezvous_set_request,
}
use comm_networks_workshop.Bytes.Strings.{get_str-Holds}
use comm_networks_workshop.Server.Lookup.{KeyAt}
use comm_networks_workshop.Indexer.Database.{
  IndexStore, find_index_entry, strcpy_to, request_string, index_store, index_set, index_node,
  index_rendezvous_set, index_dispatch, handle_index_packet,
}

-- There is no room for the NUL.
strcpy_to-fault : (s : List ℕ) → strcpy_to (length s) s ≡ fault
unfolding strcpy_to
strcpy_to-fault s =
    let short : leb (length s + 1) (length s) ≡ false = ground arith in rw short refl

request_string-ok :
    (off : ℕ) (key : List ℕ) (b : Buf)
    → KeyAt off key b
    → off + length key + 1 ≤ eager_protocol_limit
    → request_string off b ≡ ok key
unfolding request_string
request_string-ok off key b h fits =
    rw (get_str-Holds (eager_protocol_limit - off) b off key h.0 h.1 (omega arith)) refl

-- A set of one of the two kinds, with the key in its place.
abbrev pub SetsKey : List ℕ → Buf → Type 0
SetsKey key b =
    ((get_u32 b type_at ≡ code eager_set_request)
      ⊎ (get_u32 b type_at ≡ code rendezvous_set_request))
    × KeyAt bytes_at key b
    × (bytes_at + length key + 1 ≤ eager_protocol_limit)

index_set-faults :
    (s : IndexStore) (key : List ℕ)
    → request_string bytes_at s.buf ≡ ok key
    → find_index_entry key s.entries ≡ none
    → (o : Option (List ℕ))
    → get_str (eager_protocol_limit - (bytes_at + length key + 1)) s.buf (bytes_at + length key + 1)
      ≡ o
    → index_set s ≡ fault
unfolding index_set index_store request_string
index_set-faults s key read new none behind = rw (read, behind) refl
index_set-faults s key read new (some v) behind = rw (read, behind, new, strcpy_to-fault key) refl

-- When the index server's handler gets a well-formed set, of a small or a large value, for a key
-- that is not in its database, it writes behind the block that it has allocated for the key.
pub handle_index_packet-overflows :
    (s : IndexStore) (key : List ℕ)
    → SetsKey key s.buf
    → find_index_entry key s.entries ≡ none
    → handle_index_packet s ≡ fault
unfolding handle_index_packet index_dispatch index_rendezvous_set index_node
handle_index_packet-overflows s key (inl small, at, fits) new =
    rw (small, kind-code eager_set_request)
      (index_set-faults s key (request_string-ok bytes_at key s.buf at fits) new _ refl)
handle_index_packet-overflows s key (inr large, at, fits) new =
    rw (large, kind-code rendezvous_set_request)
      (rw (request_string-ok bytes_at key s.buf at fits, new, strcpy_to-fault key) refl)
