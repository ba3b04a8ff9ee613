-- ===== src/Dkv/Refines.antt =====
-- The client of Ex4/kv_client.c, the index server and all servers together, as one map from keys to
-- values, for values below the eager limit.
use mathlib.Core.Path.{subst}
use comm_networks_workshop.Base.{
  ℕ, zero, suc, ◌<◌, ◌≡◌, refl, sym, ap, ◌∙◌, ◌≢◌, ◌⊎◌, inl, inr, false, Option, some, List, [],
  ◌∷◌, arith, ◌==◌, if◌then◌else◌, ==_iff, Bool-cases, str_eq, str_eq_refl, str_eq_sound, length,
  All, get_elem?, set_elem, length-set_elem, get_elem?-set_elem, get_elem?-set_elem_ne, if_true,
  if_false,
}
use comm_networks_workshop.Run.{Ensures, ok, returns}
use comm_networks_workshop.Bytes.Strings.{IsText}
use comm_networks_workshop.Packet.{eager_protocol_limit}
use comm_networks_workshop.Fabric.{Fabric}
use comm_networks_workshop.Server.{Entry, Server, find_entry}
use comm_networks_workshop.Server.Valid.{IsValid}
use comm_networks_workshop.Server.Lookup.{
  StoresSmall, handle_eager_set-store_small, store_small-Updates,
}
use comm_networks_workshop.Server.Keeps.{handle_server_packets_only-IsValid}
use comm_networks_workshop.Client.{Link, eager_set_size, eager_set_packet}
use comm_networks_workshop.Client.Eager.{after_set}
use comm_networks_workshop.Indexer.Find.{home}
use comm_networks_workshop.Dkv.{Conn, Dkv, put_link}
use comm_networks_workshop.Dkv.RoundTrip.{IsReady}
use comm_networks_workshop.Client.Packets.{eager_set_packet-Gives}

-- What all servers are together.
abbrev pub Store : Type 0
Store = List ℕ → Option (List ℕ)

unfoldable pub update : List ℕ → List ℕ → Store → Store
update key value m j = if str_eq key j then some value else m j

-- A key that can be set to a value in one packet.
pub record Fits (key value : List ℕ) : Type 0 where
  pub text : IsText key
  pub live : 0 < length key
  pub fits : eager_set_size key value < eager_protocol_limit

abbrev pub Held : List ℕ → List ℕ → Server → Type 0
Held key value s = (e : Entry) × (find_entry key s.entries ≡ some e) × StoresSmall value e

abbrev pub HeldAt : List ℕ → List ℕ → ℕ → List Conn → Type 0
HeldAt key value i conns = (c : Conn) × (get_elem? conns i ≡ some c) × Held key value c.server

-- Each key of the map has its value on the key's home server.
pub record Refines (d : Dkv) (m : Store) : Type 0 where
  pub ready : IsReady d
  pub no_cache : d.globals.last_rndv_accessed_key ≡ []
  pub formed : (key value : List ℕ) → m key ≡ some value → Fits key value
  pub held :
      (key value : List ℕ)
      → m key ≡ some value
      → HeldAt key value (home key (length d.conns)) d.conns

All-set_elem :
    {A : Type 0} (P : A → Type 0) (xs : List A) (i : ℕ) (a : A)
    → All P xs
    → P a
    → All P (set_elem xs i a)
All-set_elem P [] i a h p = tt
All-set_elem P (x ∷ xs) zero a h p = (p, h.1)
All-set_elem P (x ∷ xs) (suc i) a h p = (h.0, All-set_elem P xs i a h.1 p)

module _ (d d1 : Dkv) (m m' : Store) (h : Refines d m) (same : d1.conns ≡ d.conns) (i : ℕ)
    (l : Link) (below : i < length d.conns) where
  -- A call that used connection `i`.
  pub Refines-put_link :
      IsValid l.server
      → l.client.last_rndv_accessed_key ≡ []
      → ((key value : List ℕ) → m' key ≡ some value → Fits key value)
      → ((key value : List ℕ)
          → m' key ≡ some value
          → home key (length d.conns) ≡ i
          → Held key value l.server)
      → ((key value : List ℕ)
          → m' key ≡ some value
          → home key (length d.conns) ≢ i
          → m key ≡ some value)
      → Refines (put_link i l d1) m'
  Refines-put_link valid no_cache formed at_home elsewhere =
      let conn : Conn = record { ctx_buf = l.client.buf; server = l.server } in
      let len : length (set_elem d1.conns i conn) ≡ length d.conns =
        length-set_elem d1.conns i conn ∙ ap length same in
      record {
        ready = record {
          valid = rw same (All-set_elem (λ c. IsValid c.server) d.conns i conn h.ready.valid valid);
          some_server = omega (arith, len, h.ready.some_server);
          few = omega (arith, len, h.ready.few);
        };
        no_cache = no_cache;
        formed = formed;
        held = λ key value e. rw len (elim (Bool-cases (home key (length d.conns) == i)) [
          | inl at ↦
              let q : home key (length d.conns) ≡ i = (==_iff _ _).0 at in
              rw (q, same) (conn, get_elem?-set_elem d.conns i conn below, at_home key value e q)
          | inr other ↦
              let q : home key (length d.conns) ≢ i = ground arith in
              let (c, here, there) = h.held key value (elsewhere key value e q) in
              rw same (
                c,
                get_elem?-set_elem_ne d.conns i (home key (length d.conns)) conn (λ r. q (sym r))
                    ∙ here,
                there,
              )
        ]);
      }

returned : {A : Type 0} {P : A → Type 0} (a : A) → Ensures P (ok a) → P a
returned a (returns p) = p

pub update_cases :
    (key value j w : List ℕ) (m : Store)
    → update key value m j ≡ some w
    → ((key ≡ j) × (value ≡ w)) ⊎ ((str_eq key j ≡ false) × (m j ≡ some w))
unfolding update
update_cases key value j w m h = elim (Bool-cases (str_eq key j)) [
  | inl same ↦ inl (
    str_eq_sound key j same,
    (let q : some value ≡ some w = sym (if_true (str_eq key j) (some value) (m j) same) ∙ h in cc),
  )
  | inr other ↦ inr (other, sym (if_false (str_eq key j) (some value) (m j) other) ∙ h)
]

module _ (f : Fabric) (key value : List ℕ) (w : Fits key value) (l : Link)
    (valid : IsValid l.server) where
  abbrev asked_server : Server
  asked_server = record (l.server) {
    buf = f.send (eager_set_size key value) (eager_set_packet key value l.client.buf) l.server.buf;
  }

  asked_server-IsValid : IsValid asked_server
  asked_server-IsValid = record {
    counted = valid.counted;
    formed = valid.formed;
    unique = valid.unique;
  }

  pub after_set-IsValid : IsValid (after_set f key value l)
  after_set-IsValid =
      let stored =
        handle_eager_set-store_small asked_server key value
          (eager_set_packet-Gives f key l.client.buf l.server.buf w.text value w.fits) in
      let kept = handle_server_packets_only-IsValid asked_server asked_server-IsValid in
      returned _ (subst (Ensures (λ (t : Server × ℕ). IsValid t.0)) stored kept)

  pub after_set-Held : Held key value (after_set f key value l)
  after_set-Held =
      let (d, small, up) =
        store_small-Updates asked_server key value (find_entry key l.server.entries)
          asked_server-IsValid refl in
      (d, up key ∙ if_true _ _ _ (str_eq_refl key), small)

  pub after_set-keeps :
      (j v : List ℕ) → str_eq key j ≡ false → Held j v l.server → Held j v (after_set f key value l)
  after_set-keeps j v other (e, found, small) =
      let (d, small', up) =
        store_small-Updates asked_server key value (find_entry key l.server.entries)
          asked_server-IsValid refl in
      (e, up j ∙ if_false _ _ _ other ∙ found, small)
