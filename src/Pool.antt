-- ===== src/Pool.antt =====
-- The pool of registered memory of Ex4/kv_server.c: `MEMORY_INFO` nodes at addresses, linked by
-- `next_mem`, the two lists that the globals name, and `maintain_pool`. NULL is 0.
pub mod Chain
pub mod Refill
pub mod Recycle
pub mod Maintain
use comm_networks_workshop.Base.{
  ℕ, zero, suc, ◌+◌, ◌-◌, ◌*◌, ◌/◌, ◌%◌, ◌^◌, ◌≤◌, ◌<◌, ◌≡◌, refl, sym, ap, ◌∙◌, fun_ext, ◌≢◌, ◌↔◌,
  ◌⊎◌, inl, inr, Bool, true, false, not, ◌&&◌, ◌||◌, Option, none, some, List, [], ◌∷◌, ◌++◌, map,
  arith, ltb, leb, ◌==◌, if◌then◌else◌, ltb→lt, lt→ltb, le→ltb, leb→le, ==_iff, tests, Bool-cases,
  Option-cases, str_eq, str_eq_refl, str_eq_sound, str_eq_iff, length, length-append, get_or, take,
  drop, replicate, length-take, take-append, length-replicate, All,
}
use comm_networks_workshop.Run.{Run, ok, fault, out_of_fuel, ◌>>=◌, ◌>>◌, require}
use comm_networks_workshop.Bytes.{Buf}
use comm_networks_workshop.Packet.{min_pool_nodes, max_test_size}

-- `rndv_mr` is the key of the registration, `none` before `ibv_reg_mr` has succeeded.
pub record MemInfo : Type 0 where
  pub rndv_mr : Option ℕ
  pub rndv_buffer : Buf
  pub next_mem : ℕ

abbrev pub Mem : Type 0
Mem = ℕ → MemInfo

-- `brk` is the address that the next malloc of a node returns.
pub record Pool : Type 0 where
  pub mem_pool_head : ℕ
  pub mem_pool_tail : ℕ
  pub tainted_mem_pool_head : ℕ
  pub tainted_mem_pool_tail : ℕ
  pub pool_size : ℕ
  pub mem : Mem
  pub brk : ℕ

-- sizeof(MEMORY_INFO): a pointer, the buffer, a pointer.
abbrev pub sizeof_memory_info : ℕ
sizeof_memory_info = 8 + max_test_size + 8

-- `rndv_mr->addr` of the node at `a`: its buffer lies behind the first pointer.
abbrev pub buffer_addr : ℕ → ℕ
buffer_addr a = a + 8

abbrev pub zeros : Buf
zeros i = 0

-- `a->next_mem = q`
unfoldable pub set_next : Mem → ℕ → ℕ → Mem
set_next m a q i = if i == a then record (m i) { next_mem = q } else m i

-- memset(a->rndv_buffer, '\0', MAX_TEST_SIZE)
unfoldable pub clear_buffer : Mem → ℕ → Mem
clear_buffer m a i = if i == a then record (m i) { rndv_buffer = zeros } else m i

-- A node filled in one store.
unfoldable pub set_node : Mem → ℕ → MemInfo → Mem
set_node m a n i = if i == a then n else m i

-- x = mem_pool_head; mem_pool_head = mem_pool_head->next_mem; x->next_mem = NULL; pool_size--;
unfoldable pub take_node : Pool → Run (ℕ × Pool)
take_node p =
    if p.mem_pool_head == 0
    then fault
    else ok (
      p.mem_pool_head,
      record p {
        mem_pool_head = (p.mem p.mem_pool_head).next_mem;
        mem = set_next p.mem p.mem_pool_head 0;
        pool_size = p.pool_size - 1;
      },
    )

-- A node that an entry no longer needs goes to the end of the tainted list.
unfoldable pub taint : ℕ → Pool → Pool
taint x p =
    if p.tainted_mem_pool_head == 0
    then record p { tainted_mem_pool_head = x; tainted_mem_pool_tail = x }
    else record p { mem = set_next p.mem p.tainted_mem_pool_tail x; tainted_mem_pool_tail = x }

-- One round of the first loop of `maintain_pool`.
unfoldable pub recycle_one : Pool → Pool
recycle_one p =
    let m = clear_buffer p.mem p.tainted_mem_pool_head in
    if p.mem_pool_tail == 0
    then record p {
      mem_pool_head = p.tainted_mem_pool_head;
      mem_pool_tail = p.tainted_mem_pool_head;
      pool_size = p.pool_size + 1;
      mem = m;
      tainted_mem_pool_head = (m p.tainted_mem_pool_head).next_mem;
    }
    else (let m' = set_next m p.mem_pool_tail p.tainted_mem_pool_head in
        record p {
          pool_size = p.pool_size + 1;
          mem = m';
          tainted_mem_pool_head = (m' p.tainted_mem_pool_head).next_mem;
        })

unfoldable pub recycle : ℕ → Pool → Run Pool
recycle zero p = out_of_fuel
recycle (suc fuel) p =
    let rest = recycle fuel (recycle_one p) in if p.tainted_mem_pool_head == 0 then ok p else rest

-- The malloc and the two assignments at the head of the second loop's body.
unfoldable pub grow : Pool → Pool
grow p =
    let node : MemInfo = record { rndv_mr = none; rndv_buffer = zeros; next_mem = 0 } in
    if p.pool_size == 0
    then record p {
      mem_pool_head = p.brk;
      mem_pool_tail = p.brk;
      mem = set_node p.mem p.brk node;
      brk = p.brk + sizeof_memory_info;
    }
    else record p {
      mem_pool_tail = p.brk;
      mem = set_node (set_next p.mem p.mem_pool_tail p.brk) p.brk node;
      brk = p.brk + sizeof_memory_info;
    }

-- `reg_mr` is `ibv_reg_mr` at the node's address: the key, or `none` for NULL.
module _ (reg_mr : ℕ → Option ℕ) where
  -- One round of the second loop, up to the check of the registration; the flag says that it failed.
  unfoldable pub refill_one : Pool → Pool × Bool
  refill_one p =
      let g = grow p in
      elim (reg_mr g.mem_pool_tail) [
        | none ↦ (g, true)
        | some rkey ↦ (
          record g {
            mem =
                set_node g.mem g.mem_pool_tail
                  (record (g.mem g.mem_pool_tail) { rndv_mr = some rkey });
            pool_size = g.pool_size + 1;
          },
          false,
        )
      ]

  -- The second loop; the number is what `maintain_pool` returns.
  unfoldable pub refill : ℕ → Pool → Run (Pool × ℕ)
  refill zero p = out_of_fuel
  refill (suc fuel) p =
      let (g, failed) = refill_one p in
      let rest = refill fuel g in
      if ltb p.pool_size min_pool_nodes then (if failed then ok (g, 1) else rest) else ok (p, 0)

  -- `fuel` bounds the rounds of the first loop; ten nodes are the most that the second one adds.
  unfoldable pub maintain_pool : ℕ → Pool → Run (Pool × ℕ)
  maintain_pool fuel p = do q ← recycle fuel p; refill (min_pool_nodes + 1) q
