-- ===== src/Files/RoundTrip.antt =====
-- `dkv_set` and `dkv_get` of Ex4/nweb23.c below the eager limit.
use comm_networks_workshop.Base.{
  ℕ, ◌+◌, ◌^◌, ◌≤◌, ◌<◌, ◌≡◌, ap, ◌∙◌, ◌≢◌, some, List, arith, length, get_elem?, length-set_elem,
  get_elem?-set_elem, get_elem?-set_elem_ne, get_elem?-below, All-get_elem?,
}
use comm_networks_workshop.Run.{ok}
use comm_networks_workshop.Fabric.{Fabric}
use comm_networks_workshop.Packet.{sizeof_packet, eager_protocol_limit}
use comm_networks_workshop.Client.{Link, c_str}
use comm_networks_workshop.Bytes.{Buf}
use comm_networks_workshop.Bytes.Strings.{IsText}
use comm_networks_workshop.Pool.{Pool}
use comm_networks_workshop.Server.Valid.{IsValid}
use comm_networks_workshop.Client.RoundTrip.{with_pool}
use comm_networks_workshop.Indexer.{Indexer}
use comm_networks_workshop.Indexer.Find.{home, home-lt}
use comm_networks_workshop.Dkv.{Conn, Dkv, link_of, put_link}
use comm_networks_workshop.Dkv.Route.{ask_indexer-home}
use comm_networks_workshop.Dkv.RoundTrip.{IsReady}
use comm_networks_workshop.Files.{FileAnswer, kv_set_file, kv_get_file, file_set_size, got_file}
use comm_networks_workshop.Files.Eager.{kv_get_file-kv_set_file}
use comm_networks_workshop.Files.Spread.{
  mkv_set_file, mkv_get_file, locate_file, dkv_set_file, dkv_get_file,
}

locate_file-home :
    (f : Fabric) (key : List ℕ)
    → IsText key
    → length key + 1 + sizeof_packet ≤ eager_protocol_limit
    → (d : Dkv) → 0 < length d.conns
    → length d.conns < 2 ^ 32
    → (b : Buf) × (s : Indexer) × (locate_file f key d
        ≡ ok (record d { indexer_buf = b; indexer = s }, home key (length d.conns)))
unfolding locate_file
locate_file-home f key text fits d some_server few =
    ask_indexer-home f key text (length key + 1 + sizeof_packet) (omega arith) fits d some_server
      few

module _ (f : Fabric) (key : List ℕ) (d d' : Dkv) (i : ℕ) (c : Conn) (l : Link)
    (located : locate_file f key d ≡ ok (d', i)) (here : get_elem? d'.conns i ≡ some c) where
  dkv_set_file-at :
      (beyond : ℕ) (value : List ℕ)
      → kv_set_file f beyond key value (link_of d' c) ≡ ok l
      → dkv_set_file f beyond key value d ≡ ok (put_link i l d')
  unfolding dkv_set_file mkv_set_file
  dkv_set_file-at beyond value h = rw (located, here, h)

  dkv_get_file-at :
      (v : FileAnswer)
      → kv_get_file f key (link_of d' c) ≡ ok (v, l)
      → dkv_get_file f key d ≡ ok (v, put_link i l d')
  unfolding dkv_get_file mkv_get_file
  dkv_get_file-at v h = rw (located, here, h)

module _ (f : Fabric) (key value : List ℕ) (d : Dkv) (ready : IsReady d) (text : IsText key)
    (pos : 0 < length key) (fits : file_set_size key value < eager_protocol_limit) where
  abbrev at : ℕ
  at = home key (length d.conns)

  short : length key + 1 + sizeof_packet ≤ eager_protocol_limit
  unfolding file_set_size
  short = omega (arith, fits)

  -- For the client that stores files, with at least one and fewer than 2^32 servers, all well
  -- formed, a non-empty key without NUL and any bytes, zeros included, whose packet is below the
  -- eager limit: `dkv_set` succeeds and changes the connection of the key's home server only, and a
  -- following `dkv_get` of the key gives the bytes with a NUL behind them and stores their length,
  -- whatever pool the home server's loop has put in place in between.
  pub dkv_get_file-dkv_set_file :
      (beyond : ℕ) (p : Pool)
      → (d' d'' : Dkv) × (l : Link) × (dkv_set_file f beyond key value d ≡ ok d')
        × (get_elem? d'.conns at ≡ some (record { ctx_buf = l.client.buf; server = l.server }))
        × ((j : ℕ) → at ≢ j → get_elem? d'.conns j ≡ get_elem? d.conns j)
        × (dkv_get_file f key (put_link at (with_pool p l) d')
            ≡ ok (got_file (c_str value) (some (length value)), d''))
  dkv_get_file-dkv_set_file beyond p =
      let below : at < length d.conns = home-lt key (length d.conns) ready.some_server in
      let (b, s, located) = locate_file-home f key text short d ready.some_server ready.few in
      let d1 : Dkv = record d { indexer_buf = b; indexer = s } in
      let (c, here) = get_elem?-below d.conns at below in
      let valid : IsValid c.server =
        All-get_elem? (λ c. IsValid c.server) d.conns at c ready.valid here in
      let (l, l2, was_set, was_got) =
        kv_get_file-kv_set_file f key value text beyond (link_of d1 c) p valid pos fits in
      let d2 : Dkv = put_link at l d1 in
      let d3 : Dkv = put_link at (with_pool p l) d2 in
      let conn : Link → Conn = λ l. record { ctx_buf = l.client.buf; server = l.server } in
      let len2 : length d2.conns ≡ length d.conns = length-set_elem d.conns at (conn l) in
      let len : length d3.conns ≡ length d.conns =
        length-set_elem d2.conns at (conn (with_pool p l)) ∙ len2 in
      let back : get_elem? d3.conns at ≡ some (conn (with_pool p l)) =
        get_elem?-set_elem d2.conns at (conn (with_pool p l)) (omega (arith, below, len2)) in
      let (b', s', again) =
        locate_file-home f key text short d3 (omega (arith, len, ready.some_server))
          (omega (arith, len, ready.few)) in
      let d4 : Dkv = record d3 { indexer_buf = b'; indexer = s' } in
      let again' : locate_file f key d3 ≡ ok (d4, at) = again ∙ ap (λ n. ok (d4, home key n)) len in
      (
        d2,
        put_link at l2 d4,
        l,
        dkv_set_file-at f key d d1 at c l located here beyond value was_set,
        get_elem?-set_elem d.conns at (conn l) below,
        λ j ne. get_elem?-set_elem_ne d.conns at j (conn l) ne,
        dkv_get_file-at f key d3 d4 at (conn (with_pool p l)) l2 again' back
            (got_file (c_str value) (some (length value))) was_got,
      )
