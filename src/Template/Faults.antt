-- ===== src/Template/Faults.antt =====
-- What goes wrong in Ex3/kv_template.c: a second set of the first key, and a `kv_get` by the
-- rendezvous protocol of a key that is not in the cache.
use comm_networks_workshop.Bytes.{Buf}
use comm_networks_workshop.Bytes.Strings.{IsText}
use comm_networks_workshop.Fabric.{Fabric}
use comm_networks_workshop.Template.Client.{
  KvPair, set_size_ex3, eager_packet_ex3, request_ex3, kv_set_eager_ex3, kv_set_ex3,
}
use comm_networks_workshop.Template.Packets.{eager_packet-Gives}
use comm_networks_workshop.Template.RoundTrip.{IsServing, IsStore-buf}
use comm_networks_workshop.Base.{
  ℕ, ◌+◌, ◌≤◌, ◌<◌, ◌≡◌, refl, sym, ap, ◌∙◌, ◌≢◌, true, false, Option, none, some, List, [], ◌∷◌,
  arith, ltb, leb, ◌==◌, lt→ltb, length,
}
use comm_networks_workshop.Run.{ok, fault}
use comm_networks_workshop.Packet.{kind-code, bytes_at, eager_protocol_limit, eager_set_request}
use comm_networks_workshop.Template.{
  KvHeap, KvStore, Allocator, write_node, sizeof_kv_node, find_node, new_node, end_value,
  replace_node, set_node_value,
}
use comm_networks_workshop.Template.Cells.{Cell, write_node_ne, write_node_self}
use comm_networks_workshop.Template.Appends.{IsStore, IsStore-Seg}
use comm_networks_workshop.Template.Eager.{Found, find_node-cell}
use comm_networks_workshop.Template.Rendezvous.{
  dispatch_ex3, handle_server_packets_only_ex3, serve_packet,
}
use comm_networks_workshop.Bytes.Laws.{get_bytes-Holds}
use comm_networks_workshop.Server.Lookup.{request_key-ok, Gives}

module _ (malloc : Allocator) (s : KvStore) (c : Cell) (cs : List Cell) (h : IsStore s (c ∷ cs))
    (v : List ℕ) where
  head-is : s.kv_head ≡ c.at
  head-is = (IsStore-Seg s (c ∷ cs) h).1

  -- The block that replaces the first node's.
  abbrev pub replacement : ℕ
  replacement =
      malloc.place s.top (write_node s.nodes s.kv_head none)
        (sizeof_kv_node + length c.key + 2 + length v)

  replace_node-first : replacement ≢ s.kv_head → replace_node malloc s s.kv_head c.key v ≡ fault
  unfolding replace_node end_value
  replace_node-first moved =
      let (n, at, live, here, node, rest) = IsStore-Seg s (c ∷ cs) h in
      let first : s.nodes s.kv_head ≡ some n = rw at here in
      let freed : KvHeap = write_node s.nodes s.kv_head none in
      let gone : write_node freed replacement (some (new_node malloc replacement c.key v)) s.kv_head
          ≡ none =
        write_node_ne freed replacement s.kv_head _ (λ q. moved (sym q))
        ∙ write_node_self s.nodes s.kv_head none in
      rw first (rw gone refl)

  -- The handler faults.
  pub set_node_value-first_faults :
      Gives c.key v s.buf
      → replacement ≢ s.kv_head
      → handle_server_packets_only_ex3 malloc s ≡ fault
  unfolding set_node_value dispatch_ex3 handle_server_packets_only_ex3
  set_node_value-first_faults g moved =
      let w : Found c.key c.value (c ∷ cs) = record {
        front = [];
        cell = c;
        back = cs;
        cells = refl;
        key_is = refl;
        value_is = refl;
        first = tt;
      } in
      let (n, found, live, here, node) = find_node-cell s (c ∷ cs) h c.key c.value w in
      let found' : find_node (s.kv_nodes_counter + 1) s.nodes c.key s.kv_head ≡ ok s.kv_head =
        found ∙ ap ok (sym head-is) in
      let some_node : (s.kv_head == 0) ≡ false = ground (arith, head-is) in
      let room : leb (bytes_at + length c.key + 1 + length v) eager_protocol_limit ≡ true =
        ground (arith, g.fits) in
      let room_key : bytes_at + length c.key + 1 ≤ eager_protocol_limit = omega (arith, g.fits) in
      rw (g.kind_is, kind-code eager_set_request)
        (rw
          (
            request_key-ok bytes_at c.key s.buf g.key_is room_key,
            found',
            g.length_is,
            room,
            get_bytes-Holds s.buf (bytes_at + length c.key + 1) v g.value_is,
            some_node,
            replace_node-first moved,
          )
          refl)

module _ (f : Fabric) (malloc : Allocator) (reg_mr : ℕ → Option ℕ) (p : KvPair) where
  -- For the first key-value store in eager mode: a `kv_set` of the key of the first entry, whose
  -- packet is below the eager limit, writes to freed memory when `malloc` puts the new node
  -- elsewhere than where the old one was.
  pub kv_set_first_again :
      (c : Cell) (cs : List Cell) (v : List ℕ)
      → IsServing p (c ∷ cs)
      → IsText c.key
      → set_size_ex3 c.key v < eager_protocol_limit
      → malloc.place p.store.top
          (write_node p.store.nodes c.at none)
          (sizeof_kv_node + length c.key + 2 + length v)
        ≢ c.at
      → kv_set_ex3 f malloc reg_mr c.key v p ≡ fault
  unfolding kv_set_ex3 kv_set_eager_ex3 request_ex3 serve_packet
  kv_set_first_again c cs v h text fits moved =
      let size : ℕ = set_size_ex3 c.key v in
      let b : Buf = eager_packet_ex3 c.key v p.client.buf in
      let s : KvStore = record (p.store) { buf = f.send size b p.store.buf } in
      let valid : IsStore s (c ∷ cs) =
        IsStore-buf p.store (c ∷ cs) (f.send size b p.store.buf) h.valid in
      let handled : handle_server_packets_only_ex3 malloc s ≡ fault =
        set_node_value-first_faults malloc s c cs valid v
          (eager_packet-Gives f c.key v text p.client.buf p.store.buf fits)
          (rw (head-is malloc s c cs valid v) moved) in
      let small : ltb size eager_protocol_limit ≡ true = lt→ltb _ _ fits in
      let room : leb size eager_protocol_limit ≡ true = ground arith in
      rw (h.mode, small, room, handled) refl

-- The handler sends no answer to a RENDEZVOUS_GET_REQUEST.
module _ (malloc : Allocator) (reg_mr : ℕ → Option ℕ) where
  abbrev Unanswered : KvStore × ℕ → Type 0
  Unanswered x = x.1 ≡ 0
