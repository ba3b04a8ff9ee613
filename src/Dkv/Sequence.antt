-- ===== src/Dkv/Sequence.antt =====
-- Calls of the client of Ex4/kv_client.c one after another, against one map.
use mathlib.Core.Path.{subst}
use comm_networks_workshop.Base.{
  ℕ, ◌+◌, ◌≤◌, ◌<◌, ◌≡◌, refl, sym, ap, ◌∙◌, inl, inr, false, Option, none, some, List, [], ◌∷◌,
  map, arith, Bool-cases, Option-cases, str_eq, length, get_elem?, get_elem?-below, All-get_elem?,
  get_elem?-lt,
}
use comm_networks_workshop.Run.{Run, ◌>>=◌, ok}
use comm_networks_workshop.Packet.{sizeof_packet, eager_protocol_limit}
use comm_networks_workshop.Fabric.{Fabric, ideal}
use comm_networks_workshop.Server.Valid.{IsValid}
use comm_networks_workshop.Client.{
  Client, Link, c_str, forget_key, eager_set_size, Answer, got, failed,
}
use comm_networks_workshop.Client.Eager.{after_set, after_set_client, kv_set_eager-ok, kv_get-small}
use comm_networks_workshop.Indexer.Find.{home, home-lt}
use comm_networks_workshop.Dkv.{Conn, Dkv, link_of, put_link, dkv_set, dkv_get}
use comm_networks_workshop.Dkv.Route.{locate-home}
use comm_networks_workshop.Dkv.RoundTrip.{dkv_set-at, dkv_get-at}
use comm_networks_workshop.Dkv.Refines.{
  Store, update, Fits, Held, HeldAt, Refines, Refines-put_link, update_cases, after_set-IsValid,
  after_set-Held, after_set-keeps,
}
use comm_networks_workshop.Client.RoundTrip.{not_empty, with_pool}
use comm_networks_workshop.Pool.{Pool}
use comm_networks_workshop.Server.Keeps.{IsValid-same}
use comm_networks_workshop.Server.{find_entry}

module _ (f : Fabric) (d : Dkv) (m : Store) (h : Refines d m) where
  short : (key value : List ℕ) → Fits key value → length key + sizeof_packet ≤ eager_protocol_limit
  unfolding eager_set_size
  short key value w = omega (arith, w.fits)

  -- `forget_key` leaves an empty cache as it is.
  still_no_cache :
      (key : List ℕ) (c : Client)
      → 0 < length key
      → c.last_rndv_accessed_key ≡ []
      → (forget_key key c).last_rndv_accessed_key ≡ []
  unfolding forget_key
  still_no_cache key c live e = elim (Bool-cases (str_eq key c.last_rndv_accessed_key)) [
    | inl same ↦ rw same refl
    | inr other ↦ rw other e
  ]

  -- What a key's home holds, when it is the connection at hand.
  held_here :
      (j v : List ℕ) (c : Conn) (i : ℕ)
      → home j (length d.conns) ≡ i
      → get_elem? d.conns i ≡ some c
      → HeldAt j v (home j (length d.conns)) d.conns
      → Held j v c.server
  held_here j v c i at here (c', here', held) =
      let q : some c' ≡ some c = sym here' ∙ ap (get_elem? d.conns) at ∙ here in
      let e : c' ≡ c = cc q in subst (λ (k : Conn). Held j v k.server) e held

  pub dkv_set-Refines :
      (key value : List ℕ)
      → Fits key value
      → (d' : Dkv) × (dkv_set f key value d ≡ ok d') × Refines d' (update key value m)
  dkv_set-Refines key value w =
      let n : ℕ = length d.conns in
      let i : ℕ = home key n in
      let below : i < n = home-lt key n h.ready.some_server in
      let (b, s, located) =
        locate-home f key w.text (short key value w) d h.ready.some_server h.ready.few in
      let d1 : Dkv = record d { indexer_buf = b; indexer = s } in
      let (c, here) = get_elem?-below d.conns i below in
      let l : Link = link_of d1 c in
      let valid : IsValid l.server =
        All-get_elem? (λ c. IsValid c.server) d.conns i c h.ready.valid here in
      let l' : Link = record l {
        client = after_set_client key value l;
        server = after_set f key value l;
      } in
      (
        put_link i l' d1,
        dkv_set-at f key d d1 i c l' located here value
            (kv_set_eager-ok f key value w.text l w.fits),
        Refines-put_link d d1 m (update key value m) h refl i l' below
            (after_set-IsValid f key value w l valid)
            (still_no_cache key l.client w.live h.no_cache)
            (λ j v e. elim (update_cases key value j v m e) [
              | inl (same, same') ↦ rw (← same, ← same') w
              | inr (other, old) ↦ h.formed j v old
            ])
            (λ j v e at. elim (update_cases key value j v m e) [
              | inl (same, same') ↦ rw (← same, ← same') (after_set-Held f key value w l valid)
              | inr (other, old) ↦
                  after_set-keeps f key value w l valid j v other
                    (held_here j v c i at here (h.held j v old))
            ])
            (λ j v e away. elim (update_cases key value j v m e) [
              | inl (same, same') ↦ absurd (away (ap (λ k. home k n) (sym same)))
              | inr (other, old) ↦ old
            ]),
      )

  dkv_get-Refines :
      (key value : List ℕ)
      → m key ≡ some value
      → (d' : Dkv) × (dkv_get f key d ≡ ok (got (c_str value), d')) × Refines d' m
  unfolding eager_set_size
  dkv_get-Refines key value e =
      let w : Fits key value = h.formed key value e in
      let n : ℕ = length d.conns in
      let i : ℕ = home key n in
      let below : i < n = home-lt key n h.ready.some_server in
      let (b, s, located) =
        locate-home f key w.text (short key value w) d h.ready.some_server h.ready.few in
      let d1 : Dkv = record d { indexer_buf = b; indexer = s } in
      let (c, here, (entry, found, small)) = h.held key value e in
      let l : Link = link_of d1 c in
      let valid : IsValid l.server =
        All-get_elem? (λ c. IsValid c.server) d.conns i c h.ready.valid here in
      let other : str_eq key l.client.last_rndv_accessed_key ≡ false =
        rw (h.no_cache) (not_empty key w.live) in
      let (l', answered, entries_are, counted, cached) =
        kv_get-small f key value w.text l entry other found small (omega (arith, w.fits))
          (omega (arith, w.fits)) in
      (
        put_link i l' d1,
        dkv_get-at f key d d1 i c l' located here (got (c_str value)) answered,
        Refines-put_link d d1 m m h refl i l' below
            (IsValid-same l.server l'.server valid entries_are counted) (cached ∙ h.no_cache)
            h.formed
            (λ j v e' at.
              let (entry', found', small') = held_here j v c i at here (h.held j v e') in
              (entry', ap (find_entry j) entries_are ∙ found', small'))
            (λ j v e' away. e'),
      )

-- Server `i`'s loop has changed its pool.
unfoldable pub maintained_at : ℕ → Pool → Dkv → Dkv
maintained_at i p d = elim (get_elem? d.conns i) [
  | none ↦ d
  | some c ↦ put_link i (with_pool p (link_of d c)) d
]

maintained_at-Refines :
    (d : Dkv) (m : Store) (i : ℕ) (p : Pool) → Refines d m → Refines (maintained_at i p d) m
unfolding maintained_at
maintained_at-Refines d m i p h = elim (Option-cases (get_elem? d.conns i)) [
  | inl missing ↦ rw (maintained_at, missing) h
  | inr (c, here) ↦
      let below : i < length d.conns = get_elem?-lt d.conns i c here in
      let valid : IsValid c.server =
        All-get_elem? (λ c. IsValid c.server) d.conns i c h.ready.valid here in
      rw (maintained_at, here)
        (Refines-put_link d d m m h refl i (with_pool p (link_of d c)) below
          (record { counted = valid.counted; formed = valid.formed; unique = valid.unique })
          h.no_cache h.formed (λ j v e at. held_here ideal d m h j v c i at here (h.held j v e))
          (λ j v e away. e))
]

-- What happens: a call of the client, or the loop of a server.
pub data Event : Type 0 where
  sets : List ℕ → List ℕ → Event
  gets : List ℕ → Event
  maintains : ℕ → Pool → Event

-- The answers to the gets, and the map at the end.
unfoldable pub run_store : List Event → Store → List (Option (List ℕ)) × Store
run_store [] m = ([], m)
run_store (sets key value ∷ es) m = run_store es (update key value m)
run_store (gets key ∷ es) m = let r = run_store es m in (m key ∷ r.0, r.1)
run_store (maintains i p ∷ es) m = run_store es m

unfoldable pub run_events : Fabric → List Event → Dkv → Run (List Answer × Dkv)
run_events f [] d = ok ([], d)
run_events f (sets key value ∷ es) d = do d ← dkv_set f key value d; run_events f es d
run_events f (gets key ∷ es) d = do
  (v, d) ← dkv_get f key d
  (vs, d) ← run_events f es d
  ok (v ∷ vs, d)
run_events f (maintains i p ∷ es) d = run_events f es (maintained_at i p d)

-- What is set fits into a packet, and what is got was set before or is in the map.
abbrev pub AllFit : List Event → Store → Type 0
AllFit [] m = Unit {0}
AllFit (sets key value ∷ es) m = Fits key value × AllFit es (update key value m)
AllFit (gets key ∷ es) m = ((value : List ℕ) × (m key ≡ some value)) × AllFit es m
AllFit (maintains i p ∷ es) m = AllFit es m

-- The client's answer for a value of the map.
unfoldable pub answer_for : Option (List ℕ) → Answer
answer_for none = failed
answer_for (some value) = got (c_str value)

-- From a state of client, index server and servers that refines a map from keys to values - servers
-- well formed, nothing cached, each key of the map with its value on the key's home server -, any
-- sequence of `dkv_set` calls of non-empty text keys with values below the eager limit, `dkv_get`
-- calls of keys that the map then has, and changes of the servers' pools by their loops succeeds,
-- gives for each get the map's value with a NUL, and ends in a state that refines the map that the
-- sets have updated.
pub run_events-run_store :
    (f : Fabric) (es : List Event) (d : Dkv) (m : Store)
    → Refines d m
    → AllFit es m
    → (d' : Dkv) × (run_events f es d ≡ ok (map answer_for (run_store es m).0, d'))
      × Refines d' (run_store es m).1
unfolding run_events run_store answer_for
run_events-run_store f [] d m h w = (d, refl, h)
run_events-run_store f (sets key value ∷ es) d m h (w, ws) =
    let (d1, was_set, h1) = dkv_set-Refines f d m h key value w in
    let (d2, runs, h2) = run_events-run_store f es d1 (update key value m) h1 ws in
    (d2, rw was_set runs, h2)
run_events-run_store f (gets key ∷ es) d m h ((value, here), ws) =
    let (d1, was_got, h1) = dkv_get-Refines f d m h key value here in
    let (d2, runs, h2) = run_events-run_store f es d1 m h1 ws in
    (d2, rw was_got (rw (runs, here) refl), h2)
run_events-run_store f (maintains i p ∷ es) d m h ws =
    run_events-run_store f es (maintained_at i p d) m (maintained_at-Refines d m i p h) ws
