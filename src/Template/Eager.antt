-- ===== src/Template/Eager.antt =====
-- The eager requests of Ex3/kv_template.c on a well-formed store.
use comm_networks_workshop.Base.{
  if_false, ℕ, suc, ◌+◌, ◌≤◌, ◌<◌, ◌≡◌, refl, ap, ◌∙◌, true, false, Option, some, List, [], ◌∷◌,
  ◌++◌, arith, ltb, leb, ◌==◌, le→ltb, length, length-append,
}
use comm_networks_workshop.Run.{ok}
use comm_networks_workshop.Bytes.{Buf, put_byte, put_bytes, get_bytes, put_u32, get_u32}
use comm_networks_workshop.Packet.{
  Kind, code, kind-code, type_at, get_key_at, length_at, bytes_at, sizeof_packet,
  eager_protocol_limit, min_pool_nodes, eager_get_request, eager_get_response, eager_set_request,
}
use comm_networks_workshop.Template.{
  KvNode, KvHeap, KvStore, Allocator, find_node, answer_node, get_node, set_node_value,
}
use comm_networks_workshop.Template.Cells.{
  Cell, NodeFor, Seg, Missing, find_node-Missing, find_node-found,
}
use comm_networks_workshop.Template.Appends.{
  IsStore, IsStore-Seg, Spares, new_cell, append_node-IsStore,
}
use comm_networks_workshop.Bytes.Laws.{Holds, get_bytes-Holds, Holds-append_right}
use comm_networks_workshop.Client.{c_str}
use comm_networks_workshop.Server.Lookup.{Gives, Asks, request_key-ok}
use comm_networks_workshop.Template.Rendezvous.{
  dispatch_ex3, handle_server_packets_only_ex3, fill_pool, serve_packet,
}

-- The first cell of the key.
pub record Found (key v : List ℕ) (cs : List Cell) : Type 0 where
  pub front : List Cell
  pub cell : Cell
  pub back : List Cell
  pub cells : cs ≡ front ++ cell ∷ back
  pub key_is : cell.key ≡ key
  pub value_is : cell.value ≡ v
  pub first : Missing key front

pub Seg-split :
    (h : KvHeap) (p : ℕ) (front : List Cell) (c : Cell) (back : List Cell) (q : ℕ)
    → Seg h p (front ++ c ∷ back) q
    → (n : KvNode) × Seg h p front c.at × (0 < c.at) × (h c.at ≡ some n) × NodeFor c n
Seg-split h p [] c back q (n, at, live, here, node, rest) = (n, at, live, here, node)
Seg-split h p (d ∷ front) c back q (n, at, live, here, node, rest) =
    let (m, s, live', here', node') = Seg-split h n.next front c back q rest in
    (m, (n, at, live, here, node, s), live', here', node')

module _ (s : KvStore) (cs : List Cell) (h : IsStore s cs) (key : List ℕ) where
  find_node-none : Missing key cs → find_node (s.kv_nodes_counter + 1) s.nodes key s.kv_head ≡ ok 0
  find_node-none m =
      rw (h.counted) (find_node-Missing s.nodes key s.kv_head cs (IsStore-Seg s cs h) m)

  pub find_node-cell :
      (v : List ℕ)
      → (w : Found key v cs)
      → (n : KvNode) × (find_node (s.kv_nodes_counter + 1) s.nodes key s.kv_head ≡ ok w.cell.at)
        × (0 < w.cell.at)
        × (s.nodes w.cell.at ≡ some n)
        × NodeFor w.cell n
  find_node-cell v w =
      let whole : Seg s.nodes s.kv_head (w.front ++ w.cell ∷ w.back) 0 =
        rw w.cells at (IsStore-Seg s cs h) in
      let (n, seg, live, here, node) = Seg-split s.nodes s.kv_head w.front w.cell w.back 0 whole in
      let m : Missing w.cell.key w.front = rw (w.key_is) w.first in
      let q : s.kv_nodes_counter + 1 ≡ length w.front + suc (length w.back + 1) =
        omega (arith, h.counted, ap length w.cells, length-append w.front (w.cell ∷ w.back)) in
      (
        n,
        rw (q, ← w.key_is)
            (find_node-found (length w.back + 1) s.nodes s.kv_head w.front w.cell n seg m live here
              node),
        live,
        here,
        node,
      )

abbrev pub node_answer : List ℕ → Buf → Buf
node_answer v b =
    put_u32
      (put_byte (put_bytes (put_u32 b type_at (code eager_get_response)) bytes_at v)
        (bytes_at + length v) 0)
      length_at (length v)

NodeFor-value :
    (c : Cell) (n : KvNode)
    → NodeFor c n
    → get_bytes n.key_and_value (length c.key + 1) n.val_len ≡ c.value
NodeFor-value c n h =
    let e : 0 + length (c_str c.key) ≡ length c.key + 1 =
      omega (arith, length-append c.key (0 ∷ [])) in
    let holds : Holds n.key_and_value (length c.key + 1) c.value =
      rw e at (Holds-append_right n.key_and_value 0 (c_str c.key) c.value h.holds) in
    rw (h.length_is) (get_bytes-Holds n.key_and_value (length c.key + 1) c.value holds)

module _ (malloc : Allocator) (s : KvStore) (cs : List Cell) (h : IsStore s cs)
    (key v : List ℕ) where
  dispatch-code :
      (k : Kind)
      → get_u32 s.buf type_at ≡ code k
      → handle_server_packets_only_ex3 malloc s ≡ dispatch_ex3 malloc (some k) s
  unfolding handle_server_packets_only_ex3
  dispatch-code k e = rw (e, kind-code k)

  -- A set of a new key appends its node.
  pub set_node_value-new :
      Gives key v s.buf
      → Missing key cs
      → (t : KvStore) × (handle_server_packets_only_ex3 malloc s ≡ ok (t, 0))
        × IsStore t (cs ++ new_cell malloc s cs h key v ∷ [])
        × Spares s t
  unfolding dispatch_ex3 set_node_value
  set_node_value-new g m =
      let (t, appended, valid, same) = append_node-IsStore malloc s cs h key v (g.key_is.0) in
      let room : leb (bytes_at + length key + 1 + length v) eager_protocol_limit ≡ true =
        ground (arith, g.fits) in
      let room_key : bytes_at + length key + 1 ≤ eager_protocol_limit = omega (arith, g.fits) in
      (
        t,
        dispatch-code eager_set_request g.kind_is
            ∙ rw
                (
                  request_key-ok bytes_at key s.buf g.key_is room_key,
                  find_node-none s cs h key m,
                  g.length_is,
                  room,
                  get_bytes-Holds s.buf (bytes_at + length key + 1) v g.value_is,
                  appended,
                )
                refl,
        valid,
        same,
      )

  -- A get of a key that is there answers its value.
  pub get_node-Found :
      Asks key s.buf
      → Found key v cs
      → bytes_at + length v < eager_protocol_limit
      → handle_server_packets_only_ex3 malloc s
        ≡ ok (record s { buf = node_answer v s.buf }, sizeof_packet + length v)
  unfolding dispatch_ex3 get_node answer_node
  get_node-Found g w fits =
      let (n, found, live, here, node) = find_node-cell s cs h key v w in
      let value : get_bytes n.key_and_value (length key + 1) n.val_len ≡ v =
        rw (← w.key_is) (NodeFor-value w.cell n node) ∙ w.value_is in
      let len : n.val_len ≡ length v = node.length_is ∙ ap length w.value_is in
      let enough : leb (length key + 1 + n.val_len) n.size ≡ true =
        ground (arith, node.room, node.length_is, ap length w.key_is) in
      let room : ltb (bytes_at + n.val_len) eager_protocol_limit ≡ true = ground (arith, len) in
      let some_node : (w.cell.at == 0) ≡ false = ground arith in
      dispatch-code eager_get_request g.kind_is
      ∙ rw
          (
            request_key-ok get_key_at key s.buf g.key_is g.fits,
            found,
            some_node,
            here,
            enough,
            room,
            value,
            len,
          )
          refl

-- With a full pool nothing is added to it.
fill_pool-full :
    (reg_mr : ℕ → Option ℕ) (t : KvStore)
    → min_pool_nodes ≤ t.rndv_pool_nodes_counter
    → fill_pool reg_mr (min_pool_nodes + 1) t ≡ ok (t, false)
unfolding fill_pool
fill_pool-full reg_mr t full =
    let enough : ltb t.rndv_pool_nodes_counter min_pool_nodes ≡ false = le→ltb _ _ full in
    rw (fill_pool, enough) refl

pub serve_packet-full :
    (malloc : Allocator) (reg_mr : ℕ → Option ℕ) (s t : KvStore) (n : ℕ)
    → handle_server_packets_only_ex3 malloc s ≡ ok (t, n)
    → t.close_server ≡ false
    → min_pool_nodes ≤ t.rndv_pool_nodes_counter
    → serve_packet malloc reg_mr s ≡ ok (t, n)
unfolding serve_packet
serve_packet-full malloc reg_mr s t n handled open_is full =
    rw handled (if_false t.close_server _ _ open_is ∙ rw (fill_pool-full reg_mr t full) refl)
