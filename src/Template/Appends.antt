-- ===== src/Template/Appends.antt =====
-- The well-formed store of Ex3/kv_template.c, and a new key's node behind the others.
use comm_networks_workshop.Base.{
  ℕ, ◌+◌, ◌≤◌, ◌<◌, ◌≡◌, refl, sym, ◌∙◌, ◌≢◌, ◌⊎◌, inl, inr, true, false, none, some, List, [], ◌∷◌,
  ◌++◌, arith, ltb, ◌==◌, Bool-cases, length, length-append,
}
use comm_networks_workshop.Run.{ok}
use comm_networks_workshop.Template.{
  KvNode, KvHeap, KvStore, Allocator, write_node, raise_top, new_node, node_place, append_node,
}
use comm_networks_workshop.Template.Cells.{
  Cell, NodeFor, Seg, Apart, write_node_ne, write_node_self, Seg-write, Seg-append, Seg-Apart,
}
use comm_networks_workshop.Bytes.Laws.{Holds-put_bytes}
use comm_networks_workshop.Bytes.Strings.{IsText}
use comm_networks_workshop.Pool.Chain.{All-append}

-- The list's last node.
pub record EndsAt (s : KvStore) (front : List Cell) (last : Cell) : Type 0 where
  pub node : KvNode
  pub leads : Seg s.nodes s.kv_head front last.at
  pub tail_is : s.kv_tail ≡ last.at
  pub live : 0 < last.at
  pub here : s.nodes last.at ≡ some node
  pub node_is : NodeFor last node
  pub next_is : node.next ≡ 0
  pub apart : Apart last.at front

abbrev pub Ends : KvStore → List Cell → Type 0
Ends s cs =
    ((cs ≡ []) × (s.kv_head ≡ 0) × (s.kv_tail ≡ 0))
    ⊎ ((front : List Cell) × (last : Cell) × (cs ≡ front ++ last ∷ []) × EndsAt s front last)

-- The list of nodes is that of the cells, with its end and its length as the globals say.
pub record IsStore (s : KvStore) (cs : List Cell) : Type 0 where
  pub ends : Ends s cs
  pub counted : s.kv_nodes_counter ≡ length cs
  pub some_top : 0 < s.top
  pub bounded : (a : ℕ) → s.top ≤ a → s.nodes a ≡ none

pub EndsAt-Seg :
    (s : KvStore) (front : List Cell) (last : Cell)
    → EndsAt s front last
    → Seg s.nodes s.kv_head (front ++ last ∷ []) 0
EndsAt-Seg s front last e =
    Seg-append s.nodes s.kv_head front last.at (last ∷ []) 0 e.leads
      (e.node, refl, e.live, e.here, e.node_is, e.next_is)

pub IsStore-Seg : (s : KvStore) (cs : List Cell) → IsStore s cs → Seg s.nodes s.kv_head cs 0
IsStore-Seg s cs h = elim (h.ends) [
  | inl (none_yet, head_is, tail_is) ↦ rw none_yet head_is
  | inr (front, last, cells, e) ↦ rw cells (EndsAt-Seg s front last e)
]

-- What an eager set leaves as it was, beside the nodes.
abbrev pub Spares : KvStore → KvStore → Type 0
Spares s t =
    (t.buf ≡ s.buf)
    × (t.rndv_pool_nodes_counter ≡ s.rndv_pool_nodes_counter)
    × (t.close_server ≡ s.close_server)

module _ (malloc : Allocator) (s : KvStore) (cs : List Cell) (h : IsStore s cs)
    (key v : List ℕ) where
  abbrev pub place_of : ℕ
  place_of = node_place malloc s.top s.nodes key v

  abbrev pub new_cell : Cell
  new_cell = record { at = place_of; key = key; value = v }

  place_new : (0 < place_of) × (s.nodes place_of ≡ none)
  place_new = malloc.place_fresh s.top s.nodes _ h.some_top h.bounded

  new_node-NodeFor :
      IsText key
      → (p q : ℕ)
      → NodeFor new_cell
          (record (new_node malloc place_of key v) { next = q; val_len = length v; prev = p })
  new_node-NodeFor text p q = record {
    text = text;
    holds = Holds-put_bytes (malloc.stale place_of).key_and_value 0 (key ++ 0 ∷ [] ++ v);
    length_is = refl;
    room = omega arith;
  }

  raised : 0 < raise_top s.top place_of
  raised = elim (Bool-cases (ltb place_of s.top)) [
    | inl below ↦ rw below h.some_top
    | inr above ↦ rw above (omega arith)
  ]

  -- Above the raised bound there was no block, and the new one is below it.
  raised-above : (a : ℕ) → raise_top s.top place_of ≤ a → (s.nodes a ≡ none) × (a ≢ place_of)
  raised-above a le = elim (Bool-cases (ltb place_of s.top)) [
    | inl below ↦ let le' : s.top ≤ a = rw below at le in (h.bounded a le', λ q. ground arith)
    | inr above ↦
        let le' : place_of + 1 ≤ a = rw above at le in
        (h.bounded a (ground arith), λ q. omega arith)
  ]

  -- Only the block of `kv_tail` and the new one are written.
  written-bounded :
      (t : ℕ) (n m : KvNode)
      → t ≢ place_of
      → s.nodes t ≢ none
      → (a : ℕ) → raise_top s.top place_of ≤ a
      → write_node (write_node s.nodes place_of (some n)) t (some m) a ≡ none
  written-bounded t n m ne live a le =
      let (free, other) = raised-above a le in
      let ne' : a ≢ t = λ q. live (rw q at free) in
      write_node_ne _ t a _ ne' ∙ write_node_ne s.nodes place_of a _ other ∙ free

  append-first :
      IsText key
      → cs ≡ []
      → s.kv_head ≡ 0
      → s.kv_tail ≡ 0
      → (t : KvStore) × (append_node malloc s key v ≡ ok t)
        × IsStore t (cs ++ new_cell ∷ [])
        × Spares s t
  unfolding append_node
  append-first text none_yet head_is tail_is =
      let n : KvNode = record (new_node malloc place_of key v) {
        next = 0;
        val_len = length v;
        prev = 0;
      } in
      let empty : (s.kv_tail == 0) ≡ true = ground arith in
      let t : KvStore = record s {
        kv_head = place_of;
        kv_tail = place_of;
        kv_nodes_counter = s.kv_nodes_counter + 1;
        nodes = write_node s.nodes place_of (some n);
        top = raise_top s.top place_of;
      } in
      (
        t,
        rw empty refl,
        record {
          ends = inr (
            [],
            new_cell,
            rw none_yet refl,
            record {
              node = n;
              leads = refl;
              tail_is = refl;
              live = place_new.0;
              here = write_node_self s.nodes place_of (some n);
              node_is = new_node-NodeFor text 0 0;
              next_is = refl;
              apart = tt;
            },
          );
          counted = omega (arith, h.counted, length-append cs (new_cell ∷ []));
          some_top = raised;
          bounded = λ a le.
              (let (free, other) = raised-above a le in
                write_node_ne s.nodes place_of a (some n) other ∙ free);
        },
        (refl, refl, refl),
      )

  append-next :
      IsText key
      → (front : List Cell) (last : Cell) → cs ≡ front ++ last ∷ []
      → EndsAt s front last
      → (t : KvStore) × (append_node malloc s key v ≡ ok t)
        × IsStore t (cs ++ new_cell ∷ [])
        × Spares s t
  unfolding append_node
  append-next text front last cells e =
      let n : KvNode = record (new_node malloc place_of key v) {
        next = 0;
        val_len = length v;
        prev = s.kv_tail;
      } in
      let m : KvNode = record (e.node) { next = place_of } in
      let some_tail : (s.kv_tail == 0) ≡ false = ground (arith, e.live, e.tail_is) in
      let tail_here : s.nodes s.kv_tail ≡ some e.node = rw (e.tail_is) e.here in
      let h1 : KvHeap = write_node s.nodes place_of (some n) in
      let h2 : KvHeap = write_node h1 s.kv_tail (some m) in
      let t : KvStore = record s {
        kv_tail = place_of;
        kv_nodes_counter = s.kv_nodes_counter + 1;
        nodes = h2;
        top = raise_top s.top place_of;
      } in
      let fresh = place_new in
      let ne : last.at ≢ place_of =
        λ q. (let x : s.nodes place_of ≡ some e.node = rw q at e.here in cc) in
      let out : Apart place_of front =
        Seg-Apart s.nodes place_of s.kv_head front last.at fresh.1 e.leads in
      let out' : Apart s.kv_tail front = rw (e.tail_is) e.apart in
      let lead : Seg h2 s.kv_head front last.at =
        Seg-write h1 s.kv_tail (some m) s.kv_head front last.at out'
          (Seg-write s.nodes place_of (some n) s.kv_head front last.at out e.leads) in
      let at_tail : h2 last.at ≡ some m =
        rw (← e.tail_is) (write_node_self h1 s.kv_tail (some m)) in
      let last_node : NodeFor last m = record {
        text = e.node_is.text;
        holds = e.node_is.holds;
        length_is = e.node_is.length_is;
        room = e.node_is.room;
      } in
      (
        t,
        rw (some_tail, tail_here) refl,
        record {
          ends = inr (
            cs,
            new_cell,
            refl,
            record {
              node = n;
              leads = rw cells (
                  Seg-append h2 s.kv_head front last.at (last ∷ []) place_of lead
                    (m, refl, e.live, at_tail, last_node, refl));
              tail_is = refl;
              live = fresh.0;
              here =
                  write_node_ne h1 s.kv_tail place_of (some m) (λ q. ne (sym (q ∙ e.tail_is)))
                  ∙ write_node_self s.nodes place_of (some n);
              node_is = new_node-NodeFor text s.kv_tail 0;
              next_is = refl;
              apart = rw cells (All-append (λ c. c.at ≢ place_of) front (last ∷ []) out (ne, tt));
            },
          );
          counted = omega (arith, h.counted, length-append cs (new_cell ∷ []));
          some_top = raised;
          bounded =
              written-bounded s.kv_tail n m (λ q. ne (sym e.tail_is ∙ q))
                (λ q. (let x = tail_here in cc));
        },
        (refl, refl, refl),
      )

  -- A new key's node goes behind the others.
  pub append_node-IsStore :
      IsText key
      → (t : KvStore) × (append_node malloc s key v ≡ ok t)
        × IsStore t (cs ++ new_cell ∷ [])
        × Spares s t
  append_node-IsStore text = elim (h.ends) [
    | inl (none_yet, head_is, tail_is) ↦ append-first text none_yet head_is tail_is
    | inr (front, last, cells, e) ↦ append-next text front last cells e
  ]
