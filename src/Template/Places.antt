-- ===== src/Template/Places.antt =====
-- RENDEZVOUS_SET_REQUEST in Ex3/kv_template.c: the server's answer names the first node of its pool,
-- and the pool is full again afterwards.
use comm_networks_workshop.Pool.{Mem, sizeof_memory_info, buffer_addr, zeros, set_next, set_node}
use comm_networks_workshop.Fabric.{set_buffer}
use comm_networks_workshop.Template.Memory.{IsPool}
use comm_networks_workshop.Base.{
  ℕ, zero, suc, ◌+◌, ◌-◌, ◌^◌, ◌≤◌, ◌<◌, ◌≡◌, refl, fun_ext, ◌≢◌, ◌⊎◌, inl, inr, true, false,
  Option, none, some, List, [], ◌∷◌, ◌++◌, arith, ltb, ◌==◌, lt→ltb, Bool-cases, length,
}
use comm_networks_workshop.Run.{ok}
use comm_networks_workshop.Bytes.{Buf, put_bytes, put_u32, get_u32, put_u64}
use comm_networks_workshop.Packet.{
  code, type_at, length_at, bytes_at, set_ptr_at, set_rkey_at, eager_protocol_limit, min_pool_nodes,
  rendezvous_set_request, rendezvous_set_response,
}
use comm_networks_workshop.Template.{RndvNode, KvStore, write_rndv}
use comm_networks_workshop.Template.Rendezvous.{
  strncpy, stated_key, append_rndv, grow_memory, register_tail, fill_pool,
}
use comm_networks_workshop.Bytes.Laws.{Holds, Holds-append_left}
use comm_networks_workshop.Bytes.Strings.{IsText}
use comm_networks_workshop.Server.Lookup.{KeyAt}

-- The buffer holds a rendezvous set of the key.
pub record Places (key : List ℕ) (b : Buf) : Type 0 where
  pub kind_is : get_u32 b type_at ≡ code rendezvous_set_request
  pub length_is : get_u32 b length_at ≡ length key
  pub key_is : KeyAt bytes_at key b
  pub fits : bytes_at + length key + 1 ≤ eager_protocol_limit

pub strncpy-exact :
    (left : ℕ) (b : Buf) (off : ℕ) (key : List ℕ)
    → IsText key
    → Holds b off key
    → length key ≤ left
    → strncpy left (length key) b off ≡ some key
unfolding strncpy
strncpy-exact left b off [] t h le = refl
strncpy-exact zero b off (c ∷ key) t h le = absurd (omega arith)
strncpy-exact (suc left) b off (zero ∷ key) t h le = absurd (omega (arith, t.0.0))
strncpy-exact (suc left) b off (suc c ∷ key) t h le =
    let e : b off ≡ suc c = ground (arith, h 0) in
    let rest =
      strncpy-exact left b (off + 1) key t.1 (λ i hi. ground (arith, h (suc i))) (omega arith) in
    rw e (rw rest refl)

pub stated_key-ok : (key : List ℕ) (b : Buf) → Places key b → stated_key b ≡ ok key
unfolding stated_key
stated_key-ok key b r =
    let short : ltb (length key) (2 ^ 31) ≡ true = lt→ltb _ _ (omega (arith, r.fits)) in
    let copied : strncpy (eager_protocol_limit - bytes_at) (length key) b bytes_at ≡ some key =
      strncpy-exact (eager_protocol_limit - bytes_at) b bytes_at key (r.key_is.0)
        (Holds-append_left b bytes_at key (0 ∷ []) (r.key_is.1)) (omega (arith, r.fits)) in
    rw (r.length_is) (rw short (rw copied refl))

-- The list of large entries is empty, or its last node is there.
abbrev pub HasTail : KvStore → Type 0
HasTail s = (s.rndv_tail ≡ 0) ⊎ ((n : RndvNode) × (s.rndv_nodes s.rndv_tail ≡ some n))

-- What a new large entry leaves as it was.
pub record SameMemory (s t : KvStore) : Type 0 where
  pub mem_is : t.mem ≡ s.mem
  pub head_is : t.rndv_pool_head ≡ s.rndv_pool_head
  pub tail_is : t.rndv_pool_tail ≡ s.rndv_pool_tail
  pub counter_is : t.rndv_pool_nodes_counter ≡ s.rndv_pool_nodes_counter
  pub brk_is : t.brk ≡ s.brk
  pub close_is : t.close_server ≡ s.close_server

write_rndv_self : (h : ℕ → Option RndvNode) (a : ℕ) (n : RndvNode) → write_rndv h a n a ≡ some n
unfolding write_rndv
write_rndv_self h a n = ground arith

write_rndv_live :
    (h : ℕ → Option RndvNode) (a b : ℕ) (n m : RndvNode)
    → (k : RndvNode) × (write_rndv (write_rndv h a n) b m a ≡ some k)
unfolding write_rndv
write_rndv_live h a b n m = elim (Bool-cases (a == b)) [
  | inl same ↦ (m, rw same refl)
  | inr other ↦ (n, rw other (ground arith))
]

pub append_rndv-ok :
    (n : RndvNode) (s : KvStore)
    → HasTail s
    → (t : KvStore) × (append_rndv n s ≡ ok t) × SameMemory s t × HasTail t
unfolding append_rndv
append_rndv-ok n s h = elim (Bool-cases (s.rndv_tail == 0)) [
  | inl none_yet ↦ (
    record s {
      rndv_head = s.rndv_brk;
      rndv_tail = s.rndv_brk;
      rndv_nodes = write_rndv s.rndv_nodes s.rndv_brk n;
      rndv_brk = s.rndv_brk + 1;
    },
    rw none_yet refl,
    record {
      mem_is = refl;
      head_is = refl;
      tail_is = refl;
      counter_is = refl;
      brk_is = refl;
      close_is = refl;
    },
    inr (n, write_rndv_self s.rndv_nodes s.rndv_brk n),
  )
  | inr some_tail ↦ elim h [
    | inl none_yet ↦ absurd (ground arith)
    | inr (t, here) ↦ (
      record s {
        rndv_tail = s.rndv_brk;
        rndv_nodes =
            write_rndv (write_rndv s.rndv_nodes s.rndv_brk n) s.rndv_tail
              (record t { next = s.rndv_brk });
        rndv_brk = s.rndv_brk + 1;
      },
      rw (some_tail, here) refl,
      record {
        mem_is = refl;
        head_is = refl;
        tail_is = refl;
        counter_is = refl;
        brk_is = refl;
        close_is = refl;
      },
      inr (write_rndv_live s.rndv_nodes s.rndv_brk s.rndv_tail n (record t { next = s.rndv_brk })),
    )
  ]
]

-- With nine nodes one is added, registered, behind the tail.
pub fill_pool-one :
    (reg_mr : ℕ → Option ℕ) (s : KvStore) (rkey : ℕ)
    → s.rndv_pool_nodes_counter ≡ 9
    → 0 < s.rndv_pool_tail
    → reg_mr s.brk ≡ some rkey
    → fill_pool reg_mr (min_pool_nodes + 1) s ≡ ok (register_tail rkey (grow_memory s), false)
unfolding fill_pool
fill_pool-one reg_mr s rkey nine live registered =
    let more : ltb s.rndv_pool_nodes_counter min_pool_nodes ≡ true = ground (arith, nine) in
    let some_tail : (s.rndv_pool_tail == 0) ≡ false = ground arith in
    let enough : ltb (register_tail rkey (grow_memory s)).rndv_pool_nodes_counter min_pool_nodes
        ≡ false =
      unfold register_tail grow_memory in ground (arith, nine) in
    rw (fill_pool, more, some_tail, registered) (rw (fill_pool, enough) refl)

abbrev pub place_answer : ℕ → ℕ → Buf → Buf
place_answer x rkey b =
    put_u32 (put_u64 (put_u32 b type_at (code rendezvous_set_response)) set_ptr_at (buffer_addr x))
      set_rkey_at rkey

-- `t` is `s` after a new key was given the node `x`.
pub record Placed (s : KvStore) (x rkey : ℕ) (ys : List ℕ) (t : KvStore) : Type 0 where
  pub buf_is : t.buf ≡ place_answer x rkey s.buf
  pub registered : (t.mem x).rndv_mr ≡ some rkey
  pub pool_is :
      IsPool t.mem t.rndv_pool_head t.rndv_pool_tail t.rndv_pool_nodes_counter t.brk
        (ys ++ s.brk ∷ [])
  pub has_tail : HasTail t
  pub close_is : t.close_server ≡ false
  pub brk_is : t.brk ≡ s.brk + sizeof_memory_info

-- The memory after the node `x` was taken and the key written into it.
abbrev pub taken_mem : Mem → ℕ → List ℕ → Mem
taken_mem m x key = set_buffer (set_next m x 0) x (put_bytes (set_next m x 0 x).rndv_buffer 0 key)

pub taken_mem-spares : (m : Mem) (x : ℕ) (key : List ℕ) (z : ℕ) → z ≢ x → taken_mem m x key z ≡ m z
unfolding set_buffer set_next
taken_mem-spares m x key z ne = ground arith

pub taken_mem-mr : (m : Mem) (x : ℕ) (key : List ℕ) → (taken_mem m x key x).rndv_mr ≡ (m x).rndv_mr
unfolding set_buffer set_next
taken_mem-mr m x key = ground arith

pub grown_mem : Mem → ℕ → ℕ → ℕ → Mem
unfolding register_tail grow_memory
grown_mem m tail brk rkey =
    set_node
      (set_node (set_next m tail brk) brk
        (record { rndv_mr = none; rndv_buffer = zeros; next_mem = 0 }))
      brk (record { rndv_mr = some rkey; rndv_buffer = zeros; next_mem = 0 })

module _ (m : Mem) (tail brk rkey : ℕ) where
  pub grown_mem-spares : (z : ℕ) → z ≢ tail → z ≢ brk → grown_mem m tail brk rkey z ≡ m z
  unfolding grown_mem set_node set_next
  grown_mem-spares z ne ne' = ground arith

  pub grown_mem-tail :
      tail ≢ brk
      → ((grown_mem m tail brk rkey tail).next_mem ≡ brk)
        × ((grown_mem m tail brk rkey tail).rndv_mr ≡ (m tail).rndv_mr)
  unfolding grown_mem set_node set_next
  grown_mem-tail ne = (ground arith, ground arith)

  pub grown_mem-brk : (grown_mem m tail brk rkey brk).rndv_mr ≡ some rkey
  unfolding grown_mem set_node set_next
  grown_mem-brk = ground arith

pub grown-is :
    (s : KvStore) (rkey : ℕ)
    → (register_tail rkey (grow_memory s)).mem ≡ grown_mem s.mem s.rndv_pool_tail s.brk rkey
unfolding register_tail grow_memory grown_mem set_node
grown-is s rkey = fun_ext λ z. ground arith
