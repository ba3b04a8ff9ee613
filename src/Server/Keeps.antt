-- ===== src/Server/Keeps.antt =====
-- Every packet keeps the server's database well formed.
use comm_networks_workshop.Base.{
  ℕ, ◌+◌, ◌<◌, ◌≡◌, refl, inl, inr, false, Option, none, some, List, arith, leb, ◌==◌, Bool-cases,
  Option-cases, length,
}
use comm_networks_workshop.Run.{Run, require, Ensures, Ensures-bind, Ensures-after, returns, faults}
use comm_networks_workshop.Bytes.{get_u32, get_bytes}
use comm_networks_workshop.Bytes.Laws.{length-get_bytes}
use comm_networks_workshop.Packet.{
  Kind, kind, eager_get_request, eager_set_request, rendezvous_set_request, close_connection,
  type_at, get_key_at, bytes_at, length_at, eager_protocol_limit,
}
use comm_networks_workshop.Pool.{Pool, take_node}
use comm_networks_workshop.Server.{
  Entry, Server, find_entry, request_key, node_rkey, answer_small, answer_large, answer_missing,
  answer_with, answer_get, handle_eager_get, overwrite_small, store_small, handle_eager_set,
  answer_location, overwrite_large, append_large, store_large, handle_rendezvous_set, dispatch,
  handle_server_packets_only,
}
use comm_networks_workshop.Server.Entries.{All-find_entry}
use comm_networks_workshop.Server.Valid.{
  Placed, IsEntry, IsValid, write-IsValid, append-IsValid, overwrite_with-IsValid,
}

abbrev KeepsValid : Run (Server × ℕ) → Type 0
KeepsValid r = Ensures (λ t. IsValid t.0) r

-- The database is what counts, not the buffer nor the pool.
pub IsValid-same :
    (s t : Server)
    → IsValid s
    → t.entries ≡ s.entries
    → t.entries_counter ≡ s.entries_counter
    → IsValid t
IsValid-same s t h e c = record {
  counted = rw (e, c) h.counted;
  formed = rw e h.formed;
  unique = rw e h.unique;
}

answer_with-IsValid :
    (s : Server) (e : Entry) (o : Option (List ℕ)) → IsValid s → KeepsValid (answer_with s e o)
unfolding answer_with answer_small answer_large
answer_with-IsValid s e none h =
    Ensures-after (node_rkey s.pool e.large_val_mem_info)
      λ rkey. returns (IsValid-same s _ h refl refl)
answer_with-IsValid s e (some v) h =
    Ensures-after (require (leb (bytes_at + e.val_len) eager_protocol_limit))
      λ u. returns (IsValid-same s _ h refl refl)

handle_eager_get-IsValid : (s : Server) → IsValid s → KeepsValid (handle_eager_get s)
unfolding handle_eager_get answer_get answer_missing
handle_eager_get-IsValid s h = Ensures-after (request_key get_key_at s.buf) λ key.
    elim (Option-cases (find_entry key s.entries)) [
      | inl q ↦ rw q (returns (IsValid-same s _ h refl refl))
      | inr (e, q) ↦ rw q (answer_with-IsValid s e e.value h)
    ]

handle_eager_set-IsValid : (s : Server) → IsValid s → KeepsValid (handle_eager_set s)
unfolding handle_eager_set store_small overwrite_small
handle_eager_set-IsValid s h = Ensures-after (request_key bytes_at s.buf) λ key.
    Ensures-after
      (require (leb (bytes_at + length key + 1 + get_u32 s.buf length_at) eager_protocol_limit))
      λ u.
        let at : ℕ = bytes_at + length key + 1 in
        let vlen : ℕ = get_u32 s.buf length_at in
        elim (Option-cases (find_entry key s.entries)) [
          | inl q ↦
              rw q (returns (append-IsValid s _ h (refl, (length-get_bytes s.buf at vlen, refl)) q))
          | inr (e, q) ↦
              let f : IsEntry e = All-find_entry IsEntry key s.entries h.formed q in
              rw q (
                returns (
                  overwrite_with-IsValid s e vlen (get_bytes s.buf at vlen) e.value h f.0 f.1
                    (length-get_bytes s.buf at vlen)))
        ]

answer_location-IsValid : (s : Server) (a : ℕ) → IsValid s → KeepsValid (answer_location s a)
unfolding answer_location
answer_location-IsValid s a h =
    Ensures-after (node_rkey s.pool a) λ rkey. returns (IsValid-same s _ h refl refl)

take_node-pos : (p : Pool) → Ensures (λ r. 0 < r.0) (take_node p)
unfolding take_node
take_node-pos p = elim (Bool-cases (p.mem_pool_head == 0)) [
  | inl z ↦ rw z faults
  | inr nz ↦ rw nz (returns (ground arith))
]

-- An entry that names a node keeps it under a new length.
Placed-large :
    (e : Entry) (vlen : ℕ) (o : Option (List ℕ))
    → Placed e o
    → (e.large_val_mem_info == 0) ≡ false
    → Placed (record e { val_len = vlen }) o
Placed-large e vlen none f nz = f
Placed-large e vlen (some v) f nz = ground arith

overwrite_large-IsValid :
    (s : Server) (e : Entry) (vlen : ℕ)
    → IsValid s
    → IsEntry e
    → KeepsValid (overwrite_large s e vlen)
unfolding overwrite_large
overwrite_large-IsValid s e vlen h f = elim (Bool-cases (e.large_val_mem_info == 0)) [
  | inl z ↦ rw z (
      Ensures-bind (take_node-pos s.pool) λ r pos. returns (
        IsValid-same _ _
          (write-IsValid s e.key
            (record e { val_len = vlen; large_val_mem_info = r.0; value = none }) h (f.0, pos) refl)
          refl refl))
  | inr nz ↦ rw nz (
      returns (
        write-IsValid s e.key (record e { val_len = vlen }) h
          (f.0, Placed-large e vlen e.value f.1 nz) refl))
]

append_large-IsValid :
    (s : Server) (key : List ℕ) (vlen : ℕ)
    → IsValid s
    → find_entry key s.entries ≡ none
    → KeepsValid (append_large s key vlen)
unfolding append_large
append_large-IsValid s key vlen h q =
    Ensures-bind (take_node-pos s.pool)
      λ r pos. returns (IsValid-same _ _ (append-IsValid s _ h (refl, pos) q) refl refl)

handle_rendezvous_set-IsValid : (s : Server) → IsValid s → KeepsValid (handle_rendezvous_set s)
unfolding handle_rendezvous_set store_large
handle_rendezvous_set-IsValid s h = Ensures-after (request_key bytes_at s.buf) λ key.
    let vlen : ℕ = get_u32 s.buf length_at in
    elim (Option-cases (find_entry key s.entries)) [
      | inl q ↦ rw q (
          Ensures-bind (append_large-IsValid s key vlen h q)
            λ r v. answer_location-IsValid r.0 r.1 v)
      | inr (e, q) ↦ rw q (
          Ensures-bind
            (overwrite_large-IsValid s e vlen h (All-find_entry IsEntry key s.entries h.formed q))
            λ r v. answer_location-IsValid r.0 r.1 v)
    ]

dispatch-IsValid : (k : Option Kind) (s : Server) → IsValid s → KeepsValid (dispatch k s)
unfolding dispatch
dispatch-IsValid (some eager_get_request) s h = handle_eager_get-IsValid s h
dispatch-IsValid (some eager_set_request) s h = handle_eager_set-IsValid s h
dispatch-IsValid (some rendezvous_set_request) s h = handle_rendezvous_set-IsValid s h
dispatch-IsValid (some close_connection) s h = returns (IsValid-same s _ h refl refl)
dispatch-IsValid (some _) s h = returns h
dispatch-IsValid none s h = returns h

-- Any packet leaves a well-formed database well formed if the handler returns: the counter counts
-- the entries, no key occurs twice, and an entry either holds a value of its recorded length or
-- names a pool node.
pub handle_server_packets_only-IsValid :
    (s : Server) → IsValid s → Ensures (λ t. IsValid t.0) (handle_server_packets_only s)
unfolding handle_server_packets_only
handle_server_packets_only-IsValid s h = dispatch-IsValid (kind (get_u32 s.buf type_at)) s h
