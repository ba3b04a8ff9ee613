-- ===== src/Dkv/RoundTrip.antt =====
-- `dkv_set` and `dkv_get` of Ex4/kv_client.c below the eager limit.
use comm_networks_workshop.Base.{
  ℕ, ◌+◌, ◌^◌, ◌≤◌, ◌<◌, ◌≡◌, ap, ◌∙◌, ◌≢◌, some, List, arith, length, All, get_elem?,
  length-set_elem, get_elem?-set_elem, get_elem?-set_elem_ne, get_elem?-below, All-get_elem?,
}
use comm_networks_workshop.Run.{ok}
use comm_networks_workshop.Bytes.Strings.{IsText}
use comm_networks_workshop.Packet.{sizeof_packet, eager_protocol_limit}
use comm_networks_workshop.Pool.{Pool}
use comm_networks_workshop.Fabric.{Fabric}
use comm_networks_workshop.Server.Valid.{IsValid}
use comm_networks_workshop.Client.{Link, c_str, eager_set_size, Answer, kv_set, kv_get, got}
use comm_networks_workshop.Client.RoundTrip.{with_pool, kv_get-kv_set}
use comm_networks_workshop.Indexer.Find.{home, home-lt}
use comm_networks_workshop.Dkv.{
  Conn, Dkv, link_of, put_link, mkv_set, mkv_get, locate, dkv_set, dkv_get,
}
use comm_networks_workshop.Dkv.Route.{locate-home}

-- All servers are well formed, and there is at least one.
pub record IsReady (d : Dkv) : Type 0 where
  pub valid : All (λ c. IsValid c.server) d.conns
  pub some_server : 0 < length d.conns
  pub few : length d.conns < 2 ^ 32

module _ (f : Fabric) (key : List ℕ) (d d' : Dkv) (i : ℕ) (c : Conn) (l : Link)
    (located : locate f key d ≡ ok (d', i)) (here : get_elem? d'.conns i ≡ some c) where
  pub dkv_set-at :
      (value : List ℕ)
      → kv_set f key value (link_of d' c) ≡ ok l
      → dkv_set f key value d ≡ ok (put_link i l d')
  unfolding dkv_set mkv_set
  dkv_set-at value h = rw (located, here, h)

  pub dkv_get-at :
      (v : Answer)
      → kv_get f key (link_of d' c) ≡ ok (v, l)
      → dkv_get f key d ≡ ok (v, put_link i l d')
  unfolding dkv_get mkv_get
  dkv_get-at v h = rw (located, here, h)

module _ (f : Fabric) (key value : List ℕ) (d : Dkv) (ready : IsReady d) (text : IsText key)
    (pos : 0 < length key) (fits : eager_set_size key value < eager_protocol_limit) where
  abbrev at : ℕ
  at = home key (length d.conns)

  short : length key + sizeof_packet ≤ eager_protocol_limit
  unfolding eager_set_size
  short = omega (arith, fits)

  -- With at least one and fewer than 2^32 servers, all well formed, a non-empty key and a value
  -- whose packet is below the eager limit: `dkv_set` succeeds and changes the connection of the
  -- key's home server only, and a following `dkv_get` of the key returns the value with its NUL,
  -- whatever pool the home server's loop has put in place in between.
  pub dkv_get-dkv_set :
      (p : Pool)
      → (d' d'' : Dkv) × (l : Link) × (dkv_set f key value d ≡ ok d')
        × (get_elem? d'.conns at ≡ some (record { ctx_buf = l.client.buf; server = l.server }))
        × ((j : ℕ) → at ≢ j → get_elem? d'.conns j ≡ get_elem? d.conns j)
        × (dkv_get f key (put_link at (with_pool p l) d') ≡ ok (got (c_str value), d''))
  dkv_get-dkv_set p =
      let below : at < length d.conns = home-lt key (length d.conns) ready.some_server in
      let (b, s, located) = locate-home f key text short d ready.some_server ready.few in
      let d1 : Dkv = record d { indexer_buf = b; indexer = s } in
      let (c, here) = get_elem?-below d.conns at below in
      let valid : IsValid c.server =
        All-get_elem? (λ c. IsValid c.server) d.conns at c ready.valid here in
      let (l, l2, was_set, was_got) =
        kv_get-kv_set f key value (link_of d1 c) valid text pos fits p in
      let d2 : Dkv = put_link at l d1 in
      let d3 : Dkv = put_link at (with_pool p l) d2 in
      let conn : Link → Conn = λ l. record { ctx_buf = l.client.buf; server = l.server } in
      let len2 : length d2.conns ≡ length d.conns = length-set_elem d.conns at (conn l) in
      let len : length d3.conns ≡ length d.conns =
        length-set_elem d2.conns at (conn (with_pool p l)) ∙ len2 in
      let back : get_elem? d3.conns at ≡ some (conn (with_pool p l)) =
        get_elem?-set_elem d2.conns at (conn (with_pool p l)) (omega (arith, below, len2)) in
      let (b', s', again) =
        locate-home f key text short d3 (omega (arith, len, ready.some_server))
          (omega (arith, len, ready.few)) in
      let d4 : Dkv = record d3 { indexer_buf = b'; indexer = s' } in
      let again' : locate f key d3 ≡ ok (d4, at) = again ∙ ap (λ n. ok (d4, home key n)) len in
      (
        d2,
        put_link at l2 d4,
        l,
        dkv_set-at f key d d1 at c l located here value was_set,
        get_elem?-set_elem d.conns at (conn l) below,
        λ j ne. get_elem?-set_elem_ne d.conns at j (conn l) ne,
        dkv_get-at f key d3 d4 at (conn (with_pool p l)) l2 again' back (got (c_str value)) was_got,
      )
