-- ===== src/Pool/Chain.antt =====
-- Linked lists of pool nodes.
use comm_networks_workshop.Base.{ℕ, ◌≤◌, ◌<◌, ◌≡◌, refl, ◌≢◌, List, [], ◌∷◌, ◌++◌, arith, All}
use comm_networks_workshop.Pool.{Mem, MemInfo, Pool, set_next, set_node, clear_buffer}

-- From `p` the `next_mem` pointers lead through the nodes `xs` to `q`.
abbrev pub Chain : Mem → ℕ → List ℕ → ℕ → Type 0
Chain m p [] q = p ≡ q
Chain m p (x ∷ xs) q = (p ≡ x) × (0 < x) × Chain m (m x).next_mem xs q

abbrev pub Absent : ℕ → List ℕ → Type 0
Absent a xs = All (λ x. x ≢ a) xs

abbrev pub Below : ℕ → List ℕ → Type 0
Below n xs = All (λ x. x < n) xs

pub Below-Absent : (n : ℕ) (xs : List ℕ) → Below n xs → Absent n xs
Below-Absent n [] h = tt
Below-Absent n (x ∷ xs) h = (λ e. omega arith, Below-Absent n xs h.1)

pub Below-mono : (n k : ℕ) (xs : List ℕ) → n ≤ k → Below n xs → Below k xs
Below-mono n k [] le h = tt
Below-mono n k (x ∷ xs) le h = (omega arith, Below-mono n k xs le h.1)

pub All-append {ℓ κ} :
    {A : Type ℓ} (P : A → Type κ) (xs ys : List A) → All P xs → All P ys → All P (xs ++ ys)
All-append P [] ys hx hy = hy
All-append P (x ∷ xs) ys hx hy = (hx.0, All-append P xs ys hx.1 hy)

-- A chain survives a change that spares the links of its own nodes.
pub Chain-same :
    (m n : Mem) (p : ℕ) (xs : List ℕ) (q : ℕ)
    → All (λ x. (n x).next_mem ≡ (m x).next_mem) xs
    → Chain m p xs q
    → Chain n p xs q
Chain-same m n p [] q s c = c
Chain-same m n p (x ∷ xs) q s c = (c.0, c.1, rw s.0 (Chain-same m n (m x).next_mem xs q s.1 c.2))

set_next_ne : (m : Mem) (a r x : ℕ) → x ≢ a → (set_next m a r x).next_mem ≡ (m x).next_mem
unfolding set_next
set_next_ne m a r x h = ground arith

set_node_ne :
    (m : Mem) (a x : ℕ) (n : MemInfo) → x ≢ a → (set_node m a n x).next_mem ≡ (m x).next_mem
unfolding set_node
set_node_ne m a x n h = ground arith

pub clear_buffer-next : (m : Mem) (a x : ℕ) → (clear_buffer m a x).next_mem ≡ (m x).next_mem
unfolding clear_buffer
clear_buffer-next m a x = ground arith

All-of_Absent :
    (P : ℕ → Type 0) (a : ℕ) (xs : List ℕ) → ((x : ℕ) → x ≢ a → P x) → Absent a xs → All P xs
All-of_Absent P a [] f h = tt
All-of_Absent P a (x ∷ xs) f h = (f x h.0, All-of_Absent P a xs f h.1)

All-of_All : (P : ℕ → Type 0) (xs : List ℕ) → ((x : ℕ) → P x) → All P xs
All-of_All P [] f = tt
All-of_All P (x ∷ xs) f = (f x, All-of_All P xs f)

pub Chain-set_next :
    (m : Mem) (a r p : ℕ) (xs : List ℕ) (q : ℕ)
    → Absent a xs
    → Chain m p xs q
    → Chain (set_next m a r) p xs q
Chain-set_next m a r p xs q out =
    Chain-same m (set_next m a r) p xs q (All-of_Absent _ a xs (λ x. set_next_ne m a r x) out)

pub Chain-set_node :
    (m : Mem) (a : ℕ) (n : MemInfo) (p : ℕ) (xs : List ℕ) (q : ℕ)
    → Absent a xs
    → Chain m p xs q
    → Chain (set_node m a n) p xs q
Chain-set_node m a n p xs q out =
    Chain-same m (set_node m a n) p xs q (All-of_Absent _ a xs (λ x. set_node_ne m a x n) out)

pub Chain-clear_buffer :
    (m : Mem) (a p : ℕ) (xs : List ℕ) (q : ℕ) → Chain m p xs q → Chain (clear_buffer m a) p xs q
Chain-clear_buffer m a p xs q =
    Chain-same m (clear_buffer m a) p xs q (All-of_All _ xs (clear_buffer-next m a))

pub Chain-append :
    (m : Mem) (p r : ℕ) (xs ys : List ℕ) (q : ℕ)
    → Chain m p xs r
    → Chain m r ys q
    → Chain m p (xs ++ ys) q
Chain-append m p r [] ys q c d = rw c d
Chain-append m p r (x ∷ xs) ys q c d = (c.0, c.1, Chain-append m (m x).next_mem r xs ys q c.2 d)

-- The free list of a pool: `mem_pool_head` leads through `pre` to `mem_pool_tail`, and from there
-- through `behind`, which is empty when the tail pointer is right.
pub record Pooled (p : Pool) (pre behind : List ℕ) : Type 0 where
  pub front : Chain p.mem p.mem_pool_head pre p.mem_pool_tail
  pub tail_pos : 0 < p.mem_pool_tail
  pub back : Chain p.mem (p.mem p.mem_pool_tail).next_mem behind 0
  pub below : Below p.brk pre
  pub tail_below : p.mem_pool_tail < p.brk
  pub tail_last : Absent p.mem_pool_tail pre

-- The nodes that a request can still be served from.
pub Pooled-Chain :
    (p : Pool) (pre behind : List ℕ)
    → Pooled p pre behind
    → Chain p.mem p.mem_pool_head (pre ++ p.mem_pool_tail ∷ behind) 0
Pooled-Chain p pre behind h =
    Chain-append p.mem p.mem_pool_head p.mem_pool_tail pre (p.mem_pool_tail ∷ behind) 0 h.front
      (refl, h.tail_pos, h.back)
