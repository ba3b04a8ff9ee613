-- ===== src/Server/Lookup.antt =====
-- What the requests of Ex4/kv_server.c do to the database and answer, for well-formed requests.
use comm_networks_workshop.Base.{
  ℕ, ◌+◌, ◌-◌, ◌≤◌, ◌≡◌, refl, ap, ◌∙◌, true, Option, none, some, List, [], ◌∷◌, ◌++◌, arith, leb,
  if◌then◌else◌, str_eq, length,
}
use comm_networks_workshop.Run.{ok}
use comm_networks_workshop.Bytes.{Buf, get_u32}
use comm_networks_workshop.Bytes.Laws.{Holds, get_bytes-Holds}
use comm_networks_workshop.Bytes.Strings.{IsText, get_str-Holds}
use comm_networks_workshop.Packet.{
  Kind, code, kind-code, type_at, get_key_at, length_at, bytes_at, eager_protocol_limit,
  eager_get_request, eager_set_request,
}
use comm_networks_workshop.Server.{
  Entry, Server, find_entry, request_key, answer_get, handle_eager_get, stored_value,
  overwrite_with, overwrite_small, append_entry, store_small, handle_eager_set, dispatch,
  handle_server_packets_only,
}
use comm_networks_workshop.Server.Entries.{
  find_entry-write_found, find_entry-append, All-find_entry,
}
use comm_networks_workshop.Server.Valid.{Placed, IsEntry, IsValid, stored_value-eq}

-- A key with its NUL at `off`.
abbrev pub KeyAt : ℕ → List ℕ → Buf → Type 0
KeyAt off key b = IsText key × Holds b off (key ++ 0 ∷ [])

pub request_key-ok :
    (off : ℕ) (key : List ℕ) (b : Buf)
    → KeyAt off key b
    → off + length key + 1 ≤ eager_protocol_limit
    → request_key off b ≡ ok key
unfolding request_key
request_key-ok off key b h fits =
    rw (get_str-Holds (eager_protocol_limit - off) b off key h.0 h.1 (omega arith))

-- An entry that holds `v` itself.
abbrev pub StoresSmall : List ℕ → Entry → Type 0
StoresSmall v e = (e.value ≡ some v) × (e.val_len ≡ length v)

-- `t` is `s` with the entry `e` under `key`, as far as lookups go.
abbrev pub Updates : Server → List ℕ → Entry → Server → Type 0
Updates s key e t =
    (j : List ℕ)
    → find_entry j t.entries ≡ (if str_eq key j then some e else find_entry j s.entries)

overwrite_with-Updates :
    (s : Server) (key : List ℕ) (e : Entry) (v : List ℕ) (o : Option (List ℕ))
    → find_entry key s.entries ≡ some e
    → Placed e o
    → (d : Entry) × StoresSmall v d × Updates s key d (overwrite_with s e (length v) v o)
unfolding overwrite_with
overwrite_with-Updates s key e v none q f =
    let d : Entry = record e { large_val_mem_info = 0; val_len = length v; value = some v } in
    (d, (refl, refl), λ j. find_entry-write_found key j e d s.entries q refl)
overwrite_with-Updates s key e v (some old) q f =
    let d : Entry = record e {
      val_len = length v;
      value = some (stored_value e (length v) old v);
    } in
    (
      d,
      (ap some (stored_value-eq e (length v) old v f.0), refl),
      λ j. find_entry-write_found key j e d s.entries q refl,
    )

overwrite_with-buf :
    (s : Server) (e : Entry) (n : ℕ) (v : List ℕ) (o : Option (List ℕ))
    → (overwrite_with s e n v o).buf ≡ s.buf
unfolding overwrite_with
overwrite_with-buf s e n v none = refl
overwrite_with-buf s e n v (some old) = refl

-- The buffer holds a well-formed EAGER_SET_REQUEST.
pub record Gives (key v : List ℕ) (b : Buf) : Type 0 where
  pub kind_is : get_u32 b type_at ≡ code eager_set_request
  pub key_is : KeyAt bytes_at key b
  pub length_is : get_u32 b length_at ≡ length v
  pub value_is : Holds b (bytes_at + length key + 1) v
  pub fits : bytes_at + length key + 1 + length v ≤ eager_protocol_limit

pub dispatch-code :
    (s : Server) (k : Kind)
    → get_u32 s.buf type_at ≡ code k
    → handle_server_packets_only s ≡ dispatch (some k) s
unfolding handle_server_packets_only
dispatch-code s k e = rw (e, kind-code k)

pub handle_eager_set-store_small :
    (s : Server) (key v : List ℕ)
    → Gives key v s.buf
    → handle_server_packets_only s
      ≡ ok (store_small s key (length v) v (find_entry key s.entries), 0)
unfolding dispatch handle_eager_set
handle_eager_set-store_small s key v r =
    let room : leb (bytes_at + length key + 1 + length v) eager_protocol_limit ≡ true =
      ground (arith, r.fits) in
    let room_key : bytes_at + length key + 1 ≤ eager_protocol_limit = omega (arith, r.fits) in
    dispatch-code s eager_set_request r.kind_is
    ∙ rw (
      request_key-ok bytes_at key s.buf r.key_is room_key,
      r.length_is,
      room,
      get_bytes-Holds s.buf (bytes_at + length key + 1) v r.value_is,
    )

pub store_small-Updates :
    (s : Server) (key v : List ℕ) (o : Option Entry)
    → IsValid s
    → find_entry key s.entries ≡ o
    → (d : Entry) × StoresSmall v d × Updates s key d (store_small s key (length v) v o)
unfolding store_small overwrite_small append_entry
store_small-Updates s key v (some e) h q =
    overwrite_with-Updates s key e v e.value q (All-find_entry IsEntry key s.entries h.formed q).1
store_small-Updates s key v none h q =
    (_, (refl, refl), λ j. find_entry-append key j _ s.entries q refl)

pub store_small-buf :
    (s : Server) (key v : List ℕ) (n : ℕ) (o : Option Entry) → (store_small s key n v o).buf ≡ s.buf
unfolding store_small overwrite_small append_entry
store_small-buf s key v n (some e) = overwrite_with-buf s e n v e.value
store_small-buf s key v n none = refl

-- A well-formed EAGER_SET_REQUEST to a well-formed server is not answered, and afterwards its key
-- has an entry that holds the value and its length, while every other key has the entry it had.
pub handle_eager_set_lem :
    (s : Server) (key v : List ℕ)
    → IsValid s
    → Gives key v s.buf
    → (t : Server) × (d : Entry) × (handle_server_packets_only s ≡ ok (t, 0))
      × StoresSmall v d
      × Updates s key d t
handle_eager_set_lem s key v h r =
    let (d, small, up) = store_small-Updates s key v (find_entry key s.entries) h refl in
    (_, d, handle_eager_set-store_small s key v r, small, up)

-- The buffer holds a well-formed EAGER_GET_REQUEST.
pub record Asks (key : List ℕ) (b : Buf) : Type 0 where
  pub kind_is : get_u32 b type_at ≡ code eager_get_request
  pub key_is : KeyAt get_key_at key b
  pub fits : get_key_at + length key + 1 ≤ eager_protocol_limit

pub handle_eager_get-answer_get :
    (s : Server) (key : List ℕ)
    → Asks key s.buf
    → handle_server_packets_only s ≡ answer_get s (find_entry key s.entries)
unfolding dispatch handle_eager_get
handle_eager_get-answer_get s key r =
    dispatch-code s eager_get_request r.kind_is
    ∙ rw (request_key-ok get_key_at key s.buf r.key_is r.fits)
