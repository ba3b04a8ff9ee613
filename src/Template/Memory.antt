-- ===== src/Template/Memory.antt =====
-- The pool of registered memory of Ex3/kv_template.c under a rendezvous set: one node leaves it and
-- a new one comes.
use mathlib.Core.Path.{subst}
use comm_networks_workshop.Base.{
  ℕ, ◌+◌, ◌-◌, ◌^◌, ◌<◌, ◌≡◌, refl, sym, ap, ◌∙◌, ◌≢◌, some, List, [], ◌∷◌, ◌++◌, arith, length,
  length-append, All,
}
use comm_networks_workshop.Pool.{MemInfo, Mem, sizeof_memory_info}
use comm_networks_workshop.Pool.Chain.{
  Chain, Absent, Below, Below-Absent, Below-mono, All-append, Chain-append,
}

abbrev pub Distinct : List ℕ → Type 0
Distinct [] = Unit {0}
Distinct (x ∷ xs) = Absent x xs × Distinct xs

Distinct-append : (xs : List ℕ) (y : ℕ) → Distinct xs → Absent y xs → Distinct (xs ++ y ∷ [])
Distinct-append [] y d a = (tt, tt)
Distinct-append (x ∷ xs) y (out, d) (ne, a) =
    (All-append (λ z. z ≢ x) xs (y ∷ []) out (λ q. ne (sym q), tt), Distinct-append xs y d a)

-- A registered node.
abbrev pub Usable : Mem → ℕ → Type 0
Usable m x = (k : ℕ) × ((m x).rndv_mr ≡ some k) × (k < 2 ^ 32)

-- The pool's nodes in order; what `next` of the last one is does not matter.
pub record IsPool (m : Mem) (head tail counter brk : ℕ) (xs : List ℕ) : Type 0 where
  pub front : List ℕ
  pub behind : ℕ
  pub chain : Chain m head xs behind
  pub tail_is : xs ≡ front ++ tail ∷ []
  pub distinct : Distinct xs
  pub usable : All (Usable m) xs
  pub below : Below brk xs
  pub counted : counter ≡ length xs

-- `n` differs from `m` neither in registrations nor in the links of the nodes `xs`.
abbrev SameNodes : Mem → Mem → List ℕ → Type 0
SameNodes m n xs = All (λ x. ((n x).next_mem ≡ (m x).next_mem) × ((n x).rndv_mr ≡ (m x).rndv_mr)) xs

SameNodes-Usable :
    (m n : Mem) (xs : List ℕ) → SameNodes m n xs → All (Usable m) xs → All (Usable n) xs
SameNodes-Usable m n [] s u = tt
SameNodes-Usable m n (x ∷ xs) (same, s) ((k, registered, low), u) =
    ((k, same.1 ∙ registered, low), SameNodes-Usable m n xs s u)

SameNodes-Chain :
    (m n : Mem) (p : ℕ) (xs : List ℕ) (q : ℕ) → SameNodes m n xs → Chain m p xs q → Chain n p xs q
SameNodes-Chain m n p [] q s c = c
SameNodes-Chain m n p (x ∷ xs) q (same, s) (at, live, c) =
    (at, live, rw (same.0) (SameNodes-Chain m n (m x).next_mem xs q s c))

-- A change at one node spares the others.
SameNodes-at :
    (m n : Mem) (a : ℕ) (xs : List ℕ)
    → ((x : ℕ) → x ≢ a → n x ≡ m x)
    → Absent a xs
    → SameNodes m n xs
SameNodes-at m n a [] f out = tt
SameNodes-at m n a (x ∷ xs) f (ne, out) = (
  (ap (λ (i : MemInfo). i.next_mem) (f x ne), ap (λ (i : MemInfo). i.rndv_mr) (f x ne)),
  SameNodes-at m n a xs f out,
)

-- A chain up to its last node.
pub Chain-last :
    (m : Mem) (p : ℕ) (front : List ℕ) (t r : ℕ)
    → Chain m p (front ++ t ∷ []) r
    → Chain m p front t × (0 < t)
Chain-last m p [] t r (at, live, e) = (at, live)
Chain-last m p (x ∷ front) t r (at, live, c) =
    let (d, live') = Chain-last m (m x).next_mem front t r c in ((at, live, d), live')

pub All-last : (P : ℕ → Type 0) (xs : List ℕ) (t : ℕ) → All P (xs ++ t ∷ []) → P t
All-last P [] t h = h.0
All-last P (x ∷ xs) t h = All-last P xs t h.1

Distinct-last : (front : List ℕ) (t : ℕ) → Distinct (front ++ t ∷ []) → Absent t front
Distinct-last [] t d = tt
Distinct-last (x ∷ front) t (out, d) =
    (λ q. All-last (λ z. z ≢ x) front t out (sym q), Distinct-last front t d)

All-front : (P : ℕ → Type 0) (xs : List ℕ) (t : ℕ) → All P (xs ++ t ∷ []) → All P xs
All-front P [] t h = tt
All-front P (x ∷ xs) t h = (h.0, All-front P xs t h.1)

SameNodes-two :
    (m n : Mem) (a b : ℕ) (xs : List ℕ)
    → ((x : ℕ) → x ≢ a → x ≢ b → n x ≡ m x)
    → Absent a xs
    → Absent b xs
    → SameNodes m n xs
SameNodes-two m n a b [] f out out' = tt
SameNodes-two m n a b (x ∷ xs) f (ne, out) (ne', out') = (
  (ap (λ (i : MemInfo). i.next_mem) (f x ne ne'), ap (λ (i : MemInfo). i.rndv_mr) (f x ne ne')),
  SameNodes-two m n a b xs f out out',
)

rest_of :
    (x y : ℕ) (ys front : List ℕ) (t : ℕ)
    → x ∷ y ∷ ys ≡ front ++ t ∷ []
    → (front' : List ℕ) × (y ∷ ys ≡ front' ++ t ∷ [])
rest_of x y ys [] t e = cc
rest_of x y ys (f ∷ front) t e = (front, cc)

-- Without its first node, whatever has become of that.
pub IsPool-rest :
    (m n : Mem) (head tail counter brk x y : ℕ) (ys : List ℕ)
    → ((z : ℕ) → z ≢ x → n z ≡ m z)
    → IsPool m head tail counter brk (x ∷ y ∷ ys)
    → IsPool n (m x).next_mem tail (counter - 1) brk (y ∷ ys)
IsPool-rest m n head tail counter brk x y ys spares h =
    let (front, cells) = rest_of x y ys h.front tail h.tail_is in
    let same = SameNodes-at m n x (y ∷ ys) spares h.distinct.0 in
    record {
      front = front;
      behind = h.behind;
      chain = SameNodes-Chain m n (m x).next_mem (y ∷ ys) h.behind same h.chain.2;
      tail_is = cells;
      distinct = h.distinct.1;
      usable = SameNodes-Usable m n (y ∷ ys) same h.usable.1;
      below = h.below.1;
      counted = omega (arith, h.counted);
    }

-- With a new registered node behind its tail.
pub IsPool-grown :
    (m n : Mem) (head tail counter brk rkey : ℕ) (xs : List ℕ)
    → ((z : ℕ) → z ≢ tail → z ≢ brk → n z ≡ m z)
    → ((n tail).next_mem ≡ brk) × ((n tail).rndv_mr ≡ (m tail).rndv_mr)
    → (n brk).rndv_mr ≡ some rkey
    → rkey < 2 ^ 32
    → IsPool m head tail counter brk xs
    → IsPool n head brk (counter + 1) (brk + sizeof_memory_info) (xs ++ brk ∷ [])
IsPool-grown m n head tail counter brk rkey xs spares linked registered low h =
    let whole : Chain m head (h.front ++ tail ∷ []) h.behind = rw h.tail_is at h.chain in
    let below : Below brk (h.front ++ tail ∷ []) = rw h.tail_is at h.below in
    let keys : All (Usable m) (h.front ++ tail ∷ []) = rw h.tail_is at h.usable in
    let distinct : Distinct (h.front ++ tail ∷ []) = rw h.tail_is at h.distinct in
    let (lead, live) = Chain-last m head h.front tail h.behind whole in
    let tail_below : tail < brk = All-last (λ z. z < brk) h.front tail below in
    let (k, tail_key, tail_low) = All-last (Usable m) h.front tail keys in
    let out : Absent tail h.front = Distinct-last h.front tail distinct in
    let out' : Absent brk h.front =
      All-front (λ z. z ≢ brk) h.front tail (Below-Absent brk (h.front ++ tail ∷ []) below) in
    let same : SameNodes m n h.front = SameNodes-two m n tail brk h.front spares out out' in
    record {
      front = xs;
      behind = (n brk).next_mem;
      chain = rw (h.tail_is) (
          Chain-append n head brk (h.front ++ tail ∷ []) (brk ∷ []) (n brk).next_mem
            (Chain-append n head tail h.front (tail ∷ []) brk
              (SameNodes-Chain m n head h.front tail same lead) (refl, live, linked.0))
            (refl, omega arith, refl));
      tail_is = refl;
      distinct = Distinct-append xs brk h.distinct (Below-Absent brk xs h.below);
      usable =
          All-append (Usable n) xs (brk ∷ [])
            (rw (h.tail_is) (
              All-append (Usable n) h.front (tail ∷ [])
                (SameNodes-Usable m n h.front same (All-front (Usable m) h.front tail keys))
                ((k, linked.1 ∙ tail_key, tail_low), tt)))
            ((rkey, registered, low), tt);
      below =
          All-append (λ z. z < brk + sizeof_memory_info) xs (brk ∷ [])
            (Below-mono brk (brk + sizeof_memory_info) xs (omega arith) h.below) (omega arith, tt);
      counted = omega (arith, h.counted, length-append xs (brk ∷ []));
    }

pub IsPool-same :
    (m n : Mem) (head head' tail tail' counter counter' brk brk' : ℕ) (xs : List ℕ)
    → m ≡ n
    → head ≡ head'
    → tail ≡ tail'
    → counter ≡ counter'
    → brk ≡ brk'
    → IsPool n head' tail' counter' brk' xs
    → IsPool m head tail counter brk xs
IsPool-same m n head head' tail tail' counter counter' brk brk' xs em eh et ec eb h =
    rw (em, eh, et, ec, eb) h

-- Other bytes in the nodes' buffers do not matter.
SameNodes-all :
    (m n : Mem) (xs : List ℕ)
    → ((z : ℕ) → ((n z).next_mem ≡ (m z).next_mem) × ((n z).rndv_mr ≡ (m z).rndv_mr))
    → SameNodes m n xs
SameNodes-all m n [] f = tt
SameNodes-all m n (x ∷ xs) f = (f x, SameNodes-all m n xs f)

pub IsPool-filled :
    (m n : Mem) (head tail counter brk : ℕ) (xs : List ℕ)
    → ((z : ℕ) → ((n z).next_mem ≡ (m z).next_mem) × ((n z).rndv_mr ≡ (m z).rndv_mr))
    → IsPool m head tail counter brk xs
    → IsPool n head tail counter brk xs
IsPool-filled m n head tail counter brk xs f h =
    let same = SameNodes-all m n xs f in
    record {
      front = h.front;
      behind = h.behind;
      chain = SameNodes-Chain m n head xs h.behind same h.chain;
      tail_is = h.tail_is;
      distinct = h.distinct;
      usable = SameNodes-Usable m n xs same h.usable;
      below = h.below;
      counted = h.counted;
    }

module _ (m : Mem) (head tail counter brk : ℕ) (xs : List ℕ)
    (h : IsPool m head tail counter brk xs) where
  -- What holds of all nodes holds of the tail.
  pub IsPool-tail : (P : ℕ → Type 0) → All P xs → P tail
  IsPool-tail P a = All-last P h.front tail (subst (All P) (h.tail_is) a)

  pub IsPool-live : 0 < tail
  IsPool-live =
      let whole : Chain m head (h.front ++ tail ∷ []) h.behind = rw h.tail_is at h.chain in
      (Chain-last m head h.front tail h.behind whole).1
