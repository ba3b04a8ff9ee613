-- ===== src/Template/RoundTrip.antt =====
-- `kv_set` and `kv_get` of Ex3/kv_template.c by the eager protocol.
use comm_networks_workshop.Base.{
  ℕ, ◌+◌, ◌≤◌, ◌<◌, ◌≡◌, refl, ◌∙◌, inl, inr, true, false, not, ◌&&◌, Option, List, [], ◌∷◌, ◌++◌,
  arith, ltb, leb, ◌==◌, lt→ltb, length, if_true, if_false,
}
use comm_networks_workshop.Run.{ok, out_of_fuel}
use comm_networks_workshop.Bytes.{Buf}
use comm_networks_workshop.Packet.{bytes_at, sizeof_packet, eager_protocol_limit, min_pool_nodes}
use comm_networks_workshop.Fabric.{Fabric}
use comm_networks_workshop.Template.{KvStore, Allocator}
use comm_networks_workshop.Template.Cells.{Cell, Missing}
use comm_networks_workshop.Template.Appends.{IsStore, new_cell}
use comm_networks_workshop.Template.Eager.{
  Found, node_answer, set_node_value-new, get_node-Found, serve_packet-full,
}
use comm_networks_workshop.Template.Client.{
  KvPair, wait_ex3, next_polls, put_client_buf, set_size_ex3, eager_packet_ex3, get_packet_ex3,
  request_ex3, receive_ex3, exchange_ex3, kv_set_eager_ex3, kv_set_ex3, kv_get_eager_ex3,
  kv_get_uncached, kv_get_ex3,
}
use comm_networks_workshop.Bytes.Strings.{IsText}
use comm_networks_workshop.Client.{c_str}
use comm_networks_workshop.Template.Rendezvous.{serve_packet}
use comm_networks_workshop.Template.Packets.{
  eager_packet-Gives, get_packet-Asks, answer_arrived, answer_length, answer_value,
}

-- A client in eager mode and a well-formed store.
pub record IsServing (p : KvPair) (cs : List Cell) : Type 0 where
  pub mode : p.client.use_rndv_protocol ≡ false
  pub valid : IsStore p.store cs
  pub full : min_pool_nodes ≤ p.store.rndv_pool_nodes_counter
  pub open_is : p.store.close_server ≡ false

-- What the request of a `kv_get` makes of the server's buffer.
abbrev asked : Fabric → List ℕ → KvPair → Buf
asked f key p =
    f.send (length key + 1 + sizeof_packet) (get_packet_ex3 key p.client.buf) p.store.buf

-- What arrives in the buffer does not matter to the store.
pub IsStore-buf :
    (s : KvStore) (cs : List Cell) (b : Buf) → IsStore s cs → IsStore (record s { buf = b }) cs
IsStore-buf s cs b h = record {
  ends = elim (h.ends) [
    | inl none_yet ↦ inl none_yet
    | inr (front, last, cells, e) ↦ inr (
      front,
      last,
      cells,
      record {
        node = e.node;
        leads = e.leads;
        tail_is = e.tail_is;
        live = e.live;
        here = e.here;
        node_is = e.node_is;
        next_is = e.next_is;
        apart = e.apart;
      },
    )
  ];
  counted = h.counted;
  some_top = h.some_top;
  bounded = h.bounded;
}

module _ (f : Fabric) (malloc : Allocator) (reg_mr : ℕ → Option ℕ) (key v : List ℕ)
    (text : IsText key) (p : KvPair) (cs : List Cell) (h : IsServing p cs) where
  -- A set of a new key.
  pub kv_set_eager-new :
      Missing key cs
      → set_size_ex3 key v < eager_protocol_limit
      → (p' : KvPair) × (c : Cell) × (kv_set_ex3 f malloc reg_mr key v p ≡ ok p')
        × IsServing p' (cs ++ c ∷ [])
        × (c.key ≡ key)
        × (c.value ≡ v)
        × (p'.client.polls ≡ p.client.polls)
  unfolding kv_set_ex3 kv_set_eager_ex3 request_ex3
  kv_set_eager-new m fits =
      let size : ℕ = set_size_ex3 key v in
      let b : Buf = eager_packet_ex3 key v p.client.buf in
      let s : KvStore = record (p.store) { buf = f.send size b p.store.buf } in
      let valid : IsStore s cs = IsStore-buf p.store cs (f.send size b p.store.buf) h.valid in
      let (t, handled, valid', same) =
        set_node_value-new malloc s cs valid key v
          (eager_packet-Gives f key v text p.client.buf p.store.buf fits) m in
      let served : serve_packet malloc reg_mr s ≡ ok (t, 0) =
        serve_packet-full malloc reg_mr s t 0 handled (same.2 ∙ h.open_is) (rw (same.1) h.full) in
      let small : ltb size eager_protocol_limit ≡ true = lt→ltb _ _ fits in
      let room : leb size eager_protocol_limit ≡ true = ground arith in
      (
        record (put_client_buf b p) { store = t },
        new_cell malloc s cs valid key v,
        rw (h.mode, small, room, served) refl,
        record {
          mode = h.mode;
          valid = valid';
          full = rw (same.1) h.full;
          open_is = same.2 ∙ h.open_is;
        },
        refl,
        refl,
        refl,
      )

  -- The request of a key that is there, and its answer.
  get_exchange-Found :
      Found key v cs
      → length key + 1 + sizeof_packet < eager_protocol_limit
      → sizeof_packet + length v ≤ eager_protocol_limit
      → (fits : bytes_at + length v < eager_protocol_limit)
      → exchange_ex3 f malloc reg_mr
          (length key + 1 + sizeof_packet)
          (put_client_buf (get_packet_ex3 key p.client.buf) p)
        ≡ ok (record p {
          client = record (p.client) {
            buf = answer_arrived f v (asked f key p) (get_packet_ex3 key p.client.buf) fits;
          };
          store = record (p.store) { buf = node_answer v (asked f key p) };
        })
  unfolding exchange_ex3 request_ex3 receive_ex3
  get_exchange-Found w fits fits' short =
      let size : ℕ = length key + 1 + sizeof_packet in
      let n : ℕ = sizeof_packet + length v in
      let s : KvStore = record (p.store) { buf = asked f key p } in
      let valid : IsStore s cs = IsStore-buf p.store cs (asked f key p) h.valid in
      let handled =
        get_node-Found malloc s cs valid key v
          (get_packet-Asks f key v text p.client.buf p.store.buf fits) w short in
      let served : serve_packet malloc reg_mr s ≡ ok (record s { buf = node_answer v s.buf }, n) =
        serve_packet-full malloc reg_mr s (record s { buf = node_answer v s.buf }) n handled
          h.open_is h.full in
      let room : leb size eager_protocol_limit ≡ true = ground arith in
      let room' : leb n eager_protocol_limit ≡ true = ground arith in
      let some_answer : (n == 0) ≡ false = ground arith in
      rw (room, served, some_answer, room') refl

  kv_get_ex3-eager :
      length key + 1 + sizeof_packet < eager_protocol_limit
      → kv_get_ex3 f malloc reg_mr key p ≡ kv_get_eager_ex3 f malloc reg_mr key p
  unfolding kv_get_ex3 kv_get_uncached
  kv_get_ex3-eager fits =
      let small : ltb (length key + 1 + sizeof_packet) eager_protocol_limit ≡ true =
        lt→ltb _ _ fits in
      let eager : (not p.client.use_rndv_protocol
            && ltb (length key + 1 + sizeof_packet) eager_protocol_limit)
          ≡ true =
        rw (h.mode) small in
      if_false _ _ _ h.mode ∙ if_true _ _ _ eager

  -- A get of a key that is there, when the completions of its request and of the answer come by two
  -- polls.
  pub kv_get_eager-Found :
      Found key v cs
      → length key + 1 + sizeof_packet < eager_protocol_limit
      → sizeof_packet + length v ≤ eager_protocol_limit
      → (polls : List (List ℕ)) → p.client.polls ≡ (1 ∷ 1 ∷ []) ∷ polls
      → (p' : KvPair) × (kv_get_ex3 f malloc reg_mr key p ≡ ok (c_str v, p'))
        × IsServing p' cs
        × (p'.client.polls ≡ polls)
  unfolding kv_get_eager_ex3 next_polls wait_ex3
  kv_get_eager-Found w fits fits' polls one_by_one =
      let b : Buf = get_packet_ex3 key p.client.buf in
      let c : Buf = asked f key p in
      let short : bytes_at + length v < eager_protocol_limit = omega arith in
      let inside : leb (bytes_at + length v) eager_protocol_limit ≡ true = ground arith in
      (
        record p {
          client = record (p.client) { buf = answer_arrived f v c b short; polls = polls };
          store = record (p.store) { buf = node_answer v c };
        },
        kv_get_ex3-eager fits
            ∙ rw (get_exchange-Found w fits fits' short, one_by_one)
                (rw (answer_length f v c b short, inside, answer_value f v c b short) refl),
        record {
          mode = h.mode;
          valid =
              IsStore-buf (record (p.store) { buf = c }) cs (node_answer v c)
                (IsStore-buf p.store cs c h.valid);
          full = h.full;
          open_is = h.open_is;
        },
        refl,
      )

  -- For the first key-value store in eager mode, with a well-formed server, a `kv_get` of a key that
  -- is there, whose request and answer fit into packets: when one poll brings the completions of the
  -- request and of the answer, the second wait of `kv_get` never ends.
  pub kv_get_eager_together :
      Found key v cs
      → length key + 1 + sizeof_packet < eager_protocol_limit
      → sizeof_packet + length v ≤ eager_protocol_limit
      → (polls : List (List ℕ)) → p.client.polls ≡ (2 ∷ []) ∷ polls
      → kv_get_ex3 f malloc reg_mr key p ≡ out_of_fuel
  unfolding kv_get_eager_ex3 next_polls wait_ex3
  kv_get_eager_together w fits fits' polls at_once =
      let short : bytes_at + length v < eager_protocol_limit = omega arith in
      kv_get_ex3-eager fits ∙ rw (get_exchange-Found w fits fits' short, at_once) refl
