-- ===== src/Server/Large.antt =====
-- RENDEZVOUS_SET_REQUEST in Ex4/kv_server.c: which node of registered memory a key gets.
use comm_networks_workshop.Base.{
  ℕ, ◌+◌, ◌-◌, ◌≤◌, ◌<◌, ◌≡◌, refl, ◌∙◌, inl, inr, false, Option, none, some, List, arith, ◌==◌,
  if◌then◌else◌, Bool-cases, length,
}
use comm_networks_workshop.Run.{ok}
use comm_networks_workshop.Bytes.{Buf, put_u32, get_u32, put_u64}
use comm_networks_workshop.Packet.{
  code, type_at, length_at, bytes_at, set_ptr_at, set_rkey_at, sizeof_packet, eager_protocol_limit,
  rendezvous_set_request, rendezvous_set_response,
}
use comm_networks_workshop.Pool.{Mem, Pool, buffer_addr, set_next, take_node}
use comm_networks_workshop.Server.{
  Entry, Server, find_entry, write_entry, node_rkey, append_entry, answer_location, overwrite_large,
  append_large, store_large, handle_rendezvous_set, dispatch, handle_server_packets_only,
}
use comm_networks_workshop.Server.Entries.{
  find_entry-write_found, find_entry-append, All-find_entry,
}
use comm_networks_workshop.Server.Valid.{Placed, IsEntry, IsValid}
use comm_networks_workshop.Server.Lookup.{KeyAt, request_key-ok, Updates, dispatch-code}

-- The buffer holds a well-formed RENDEZVOUS_SET_REQUEST.
pub record RendezvousSet (key : List ℕ) (n : ℕ) (b : Buf) : Type 0 where
  pub kind_is : get_u32 b type_at ≡ code rendezvous_set_request
  pub key_is : KeyAt bytes_at key b
  pub length_is : get_u32 b length_at ≡ n
  pub fits : bytes_at + length key + 1 ≤ eager_protocol_limit

-- The node that the key has, or else the next one of the pool.
abbrev pub node_for : Pool → Option Entry → ℕ
node_for p none = p.mem_pool_head
node_for p (some e) = if e.large_val_mem_info == 0 then p.mem_pool_head else e.large_val_mem_info

abbrev pub location_response : ℕ → ℕ → Buf → Buf
location_response a rkey b =
    put_u32 (put_u64 (put_u32 b type_at (code rendezvous_set_response)) set_ptr_at (buffer_addr a))
      set_rkey_at rkey

-- An entry whose value lies in the node `a`.
abbrev pub StoresLarge : ℕ → ℕ → Entry → Type 0
StoresLarge a n e = (e.value ≡ none) × (e.large_val_mem_info ≡ a) × (e.val_len ≡ n)

abbrev pub SameKeys : Pool → Pool → Type 0
SameKeys p q = (i : ℕ) → (q.mem i).rndv_mr ≡ (p.mem i).rndv_mr

set_next-SameKeys : (m : Mem) (a q i : ℕ) → (set_next m a q i).rndv_mr ≡ (m i).rndv_mr
unfolding set_next
set_next-SameKeys m a q i = elim (Bool-cases (i == a)) [ inl h ↦ rw h | inr h ↦ rw h ]

abbrev taken : Pool → Pool
taken p = record p {
  mem_pool_head = (p.mem p.mem_pool_head).next_mem;
  mem = set_next p.mem p.mem_pool_head 0;
  pool_size = p.pool_size - 1;
}

take_node-ok : (p : Pool) → 0 < p.mem_pool_head → take_node p ≡ ok (p.mem_pool_head, taken p)
unfolding take_node
take_node-ok p pos = let nz : (p.mem_pool_head == 0) ≡ false = ground arith in rw nz

Placed-none : (e : Entry) (o : Option (List ℕ)) → Placed e o → 0 < e.large_val_mem_info → o ≡ none
Placed-none e none q pos = refl
Placed-none e (some v) q pos = absurd (omega (arith, q.1, pos))

-- What a store of a large value comes to.
abbrev Stored : Server → List ℕ → ℕ → Option Entry → Type 0
Stored s key n o =
    (t : Server) × (d : Entry) × (store_large s key n o ≡ ok (t, node_for s.pool o))
    × (t.buf ≡ s.buf)
    × StoresLarge (node_for s.pool o) n d
    × Updates s key d t
    × SameKeys s.pool t.pool

store_large-Stored :
    (s : Server) (key : List ℕ) (n : ℕ) (o : Option Entry)
    → IsValid s
    → find_entry key s.entries ≡ o
    → 0 < node_for s.pool o
    → Stored s key n o
unfolding store_large append_large append_entry overwrite_large
store_large-Stored s key n none h q pos =
    let d : Entry = record {
      key = key;
      key_len = length key;
      value = none;
      val_len = n;
      large_val_mem_info = s.pool.mem_pool_head;
    } in
    (
      record (append_entry s d) { pool = taken s.pool },
      d,
      rw (take_node-ok s.pool pos),
      refl,
      (refl, refl, refl),
      λ j. find_entry-append key j d s.entries q refl,
      λ i. set_next-SameKeys s.pool.mem s.pool.mem_pool_head 0 i,
    )
store_large-Stored s key n (some e) h q pos = elim (Bool-cases (e.large_val_mem_info == 0)) [
  | inl no_node ↦
      let head : 0 < s.pool.mem_pool_head = rw no_node at pos in
      let d : Entry = record e {
        val_len = n;
        large_val_mem_info = s.pool.mem_pool_head;
        value = none;
      } in
      let t : Server = record s { pool = taken s.pool; entries = write_entry e.key d s.entries } in
      (
        t,
        d,
        rw (no_node, take_node-ok s.pool head),
        refl,
        (refl, rw no_node, refl),
        λ j. find_entry-write_found key j e d s.entries q refl,
        λ i. set_next-SameKeys s.pool.mem s.pool.mem_pool_head 0 i,
      )
  | inr node ↦
      let d : Entry = record e { val_len = n } in
      let f = All-find_entry IsEntry key s.entries h.formed q in
      (
        record s { entries = write_entry e.key d s.entries },
        d,
        rw node,
        refl,
        (Placed-none e e.value f.1 (ground arith), rw node, refl),
        λ j. find_entry-write_found key j e d s.entries q refl,
        λ i. refl,
      )
]

-- A well-formed RENDEZVOUS_SET_REQUEST to a well-formed server, where the key's node, or else the
-- head of the pool, is a registered node: the answer names that node and its key, the key's entry
-- names the node with the given length and holds no value, every other key has the entry it had,
-- and all nodes keep their registrations.
pub handle_rendezvous_set_lem :
    (s : Server) (key : List ℕ) (n rkey : ℕ)
    → IsValid s
    → RendezvousSet key n s.buf
    → 0 < node_for s.pool (find_entry key s.entries)
    → (s.pool.mem (node_for s.pool (find_entry key s.entries))).rndv_mr ≡ some rkey
    → (t : Server) × (d : Entry) × (handle_server_packets_only s
        ≡ ok (
          record t {
            buf = location_response (node_for s.pool (find_entry key s.entries)) rkey s.buf;
          },
          sizeof_packet,
        ))
      × StoresLarge (node_for s.pool (find_entry key s.entries)) n d
      × Updates s key d t
      × SameKeys s.pool t.pool
unfolding dispatch handle_rendezvous_set answer_location node_rkey
handle_rendezvous_set_lem s key n rkey h r pos reg =
    let a : ℕ = node_for s.pool (find_entry key s.entries) in
    let (t, d, stored, same_buf, large, up, same) =
      store_large-Stored s key n (find_entry key s.entries) h refl pos in
    let nz : (a == 0) ≡ false = ground arith in
    let reg' : (t.pool.mem a).rndv_mr ≡ some rkey = same a ∙ reg in
    (
      t,
      d,
      dispatch-code s rendezvous_set_request r.kind_is
          ∙ rw (request_key-ok bytes_at key s.buf r.key_is r.fits, r.length_is, stored)
              (rw (nz, reg', same_buf)),
      large,
      up,
      same,
    )
