-- ===== src/Client/RoundTrip.antt =====
-- `kv_set` followed by `kv_get` in Ex4/kv_client.c, below the eager limit.
use comm_networks_workshop.Base.{
  ℕ, ◌<◌, ◌≡◌, refl, ◌∙◌, inl, inr, false, some, List, [], ◌∷◌, arith, Bool-cases, str_eq,
  str_eq_refl, length,
}
use comm_networks_workshop.Run.{ok}
use comm_networks_workshop.Bytes.Strings.{IsText}
use comm_networks_workshop.Packet.{eager_protocol_limit}
use comm_networks_workshop.Pool.{Pool}
use comm_networks_workshop.Fabric.{Fabric}
use comm_networks_workshop.Server.{Entry, Server, find_entry}
use comm_networks_workshop.Server.Valid.{IsValid}
use comm_networks_workshop.Server.Lookup.{StoresSmall, store_small-Updates}
use comm_networks_workshop.Client.{
  Client, Link, c_str, forget_key, eager_set_size, eager_set_packet, kv_set, kv_get, got,
}
use comm_networks_workshop.Client.Eager.{after_set, after_set_client, kv_set_eager-ok, kv_get-small}

pub not_empty : (key : List ℕ) → 0 < length key → str_eq key [] ≡ false
unfolding str_eq
not_empty [] h = absurd (omega arith)
not_empty (c ∷ cs) h = refl

pub forget_key-misses :
    (key : List ℕ) (c : Client)
    → 0 < length key
    → str_eq key (forget_key key c).last_rndv_accessed_key ≡ false
unfolding forget_key
forget_key-misses key c pos = elim (Bool-cases (str_eq key c.last_rndv_accessed_key)) [
  | inl same ↦ rw same (not_empty key pos)
  | inr other ↦ rw other other
]

-- The server after its loop has changed the pool.
abbrev pub with_pool : Pool → Link → Link
with_pool p l = record l { server = record (l.server) { pool = p } }

module _ (f : Fabric) (key value : List ℕ) (l : Link) (valid : IsValid l.server) (text : IsText key)
    (pos : 0 < length key) (fits : eager_set_size key value < eager_protocol_limit) where
  abbrev stored : Link
  stored = record l { client = after_set_client key value l; server = after_set f key value l }

  stored_entry : (d : Entry) × StoresSmall value d × (find_entry key stored.server.entries ≡ some d)
  stored_entry =
      let s : Server = record (l.server) {
        buf =
            f.send (eager_set_size key value) (eager_set_packet key value l.client.buf)
              l.server.buf;
      } in
      let valid' : IsValid s = record {
        counted = valid.counted;
        formed = valid.formed;
        unique = valid.unique;
      } in
      let (d, small, up) =
        store_small-Updates s key value (find_entry key l.server.entries) valid' refl in
      (d, small, up key ∙ rw (str_eq_refl key))

  -- For a well-formed server, a non-empty key and a value whose packet is below the eager limit,
  -- `kv_set` succeeds and a following `kv_get` of the key returns the value with its NUL, whatever
  -- pool the server's loop has put in place in between.
  pub kv_get-kv_set :
      (p : Pool)
      → (l' l'' : Link) × (kv_set f key value l ≡ ok l')
        × (kv_get f key (with_pool p l') ≡ ok (got (c_str value), l''))
  unfolding eager_set_size
  kv_get-kv_set p =
      let (d, small, found) = stored_entry in
      let (l'', answered, same, counted, cached) =
        kv_get-small f key value text (with_pool p stored) d (forget_key-misses key l.client pos)
          found small (omega arith) (omega arith) in
      (stored, l'', kv_set_eager-ok f key value text l fits, answered)
