-- ===== src/Template/Cells.antt =====
-- The list of key-value nodes on the heap of Ex3/kv_template.c.
use comm_networks_workshop.Base.{
  ℕ, suc, ◌+◌, ◌≤◌, ◌<◌, ◌≡◌, refl, ◌∙◌, ◌≢◌, true, false, Option, none, some, List, [], ◌∷◌, ◌++◌,
  arith, ◌==◌, str_eq, str_eq_refl, length, All,
}
use comm_networks_workshop.Run.{ok}
use comm_networks_workshop.Bytes.{get_str}
use comm_networks_workshop.Bytes.Laws.{Holds, Holds-append_left}
use comm_networks_workshop.Bytes.Strings.{IsText, get_str-Holds}
use comm_networks_workshop.Client.{c_str}
use comm_networks_workshop.Template.{KvNode, KvHeap, write_node, find_node}

-- A node's address, key and value.
pub record Cell : Type 0 where
  pub at : ℕ
  pub key : List ℕ
  pub value : List ℕ

pub record NodeFor (c : Cell) (n : KvNode) : Type 0 where
  pub text : IsText c.key
  pub holds : Holds n.key_and_value 0 (c_str c.key ++ c.value)
  pub length_is : n.val_len ≡ length c.value
  pub room : length c.key + 1 + length c.value ≤ n.size

-- From `p` the `next` pointers lead through the nodes of `cs` to `q`.
abbrev pub Seg : KvHeap → ℕ → List Cell → ℕ → Type 0
Seg h p [] q = p ≡ q
Seg h p (c ∷ cs) q =
    (n : KvNode) × (p ≡ c.at) × (0 < c.at) × (h c.at ≡ some n) × NodeFor c n × Seg h n.next cs q

abbrev pub Apart : ℕ → List Cell → Type 0
Apart a cs = All (λ c. c.at ≢ a) cs

pub write_node_ne : (h : KvHeap) (a x : ℕ) (n : Option KvNode) → x ≢ a → write_node h a n x ≡ h x
unfolding write_node
write_node_ne h a x n ne = ground arith

pub write_node_self : (h : KvHeap) (a : ℕ) (n : Option KvNode) → write_node h a n a ≡ n
unfolding write_node
write_node_self h a n = ground arith

pub Seg-write :
    (h : KvHeap) (a : ℕ) (o : Option KvNode) (p : ℕ) (cs : List Cell) (q : ℕ)
    → Apart a cs
    → Seg h p cs q
    → Seg (write_node h a o) p cs q
Seg-write h a o p [] q out s = s
Seg-write h a o p (c ∷ cs) q (ne, out) (n, at, live, here, node, rest) =
    (n, at, live, write_node_ne h a c.at o ne ∙ here, node, Seg-write h a o n.next cs q out rest)

pub Seg-append :
    (h : KvHeap) (p : ℕ) (cs : List Cell) (q : ℕ) (ds : List Cell) (r : ℕ)
    → Seg h p cs q
    → Seg h q ds r
    → Seg h p (cs ++ ds) r
Seg-append h p [] q ds r e t = rw e t
Seg-append h p (c ∷ cs) q ds r (n, at, live, here, node, rest) t =
    (n, at, live, here, node, Seg-append h n.next cs q ds r rest t)

-- An address with no block is none of a list's.
pub Seg-Apart :
    (h : KvHeap) (a p : ℕ) (cs : List Cell) (q : ℕ) → h a ≡ none → Seg h p cs q → Apart a cs
Seg-Apart h a p [] q e s = tt
Seg-Apart h a p (c ∷ cs) q e (n, at, live, here, node, rest) =
    (λ same. (let x : h a ≡ some n = rw (← same) here in cc), Seg-Apart h a n.next cs q e rest)

abbrev pub Missing : List ℕ → List Cell → Type 0
Missing key cs = All (λ c. str_eq key c.key ≡ false) cs

pub NodeFor-key :
    (c : Cell) (n : KvNode) → NodeFor c n → get_str n.size n.key_and_value 0 ≡ some c.key
NodeFor-key c n h =
    get_str-Holds n.size n.key_and_value 0 c.key h.text
      (Holds-append_left n.key_and_value 0 (c_str c.key) c.value h.holds) (omega (arith, h.room))

find_node-step :
    (fuel : ℕ) (h : KvHeap) (key : List ℕ) (p : ℕ) (c : Cell) (n : KvNode)
    → 0 < p
    → h p ≡ some n
    → NodeFor c n
    → find_node (suc fuel) h key p
      ≡ elim (str_eq key c.key) [ true ↦ ok p | false ↦ find_node fuel h key n.next ]
unfolding find_node
find_node-step fuel h key p c n live here node =
    let some_node : (p == 0) ≡ false = ground arith in
    rw (find_node, some_node, here, NodeFor-key c n node) refl

-- The walk passes the nodes of other keys.
find_node-passes :
    (fuel : ℕ) (h : KvHeap) (key : List ℕ) (p : ℕ) (cs : List Cell) (q : ℕ)
    → Seg h p cs q
    → Missing key cs
    → find_node (length cs + fuel) h key p ≡ find_node fuel h key q
unfolding find_node
find_node-passes fuel h key p [] q e m = let z : 0 + fuel ≡ fuel = omega arith in rw (e, z)
find_node-passes fuel h key p (c ∷ cs) q (n, at, live, here, node, rest) (other, m) =
    let z : suc (length cs) + fuel ≡ suc (length cs + fuel) = omega arith in
    let here' : h p ≡ some n = rw at here in
    rw z (
      find_node-step (length cs + fuel) h key p c n (rw at live) here' node
      ∙ rw other (find_node-passes fuel h key n.next cs q rest m))

pub find_node-Missing :
    (h : KvHeap) (key : List ℕ) (p : ℕ) (cs : List Cell)
    → Seg h p cs 0
    → Missing key cs
    → find_node (length cs + 1) h key p ≡ ok 0
unfolding find_node
find_node-Missing h key p cs s m = find_node-passes 1 h key p cs 0 s m

-- The walk ends at the first node of its key.
pub find_node-found :
    (more : ℕ) (h : KvHeap) (p : ℕ) (cs : List Cell) (c : Cell) (n : KvNode)
    → Seg h p cs c.at
    → Missing c.key cs
    → 0 < c.at
    → h c.at ≡ some n
    → NodeFor c n
    → find_node (length cs + suc more) h c.key p ≡ ok c.at
unfolding find_node
find_node-found more h p cs c n s m live here node =
    find_node-passes (suc more) h c.key p cs c.at s m
    ∙ find_node-step more h c.key c.at c n live here node
    ∙ rw (str_eq_refl c.key) refl
