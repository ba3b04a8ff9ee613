-- ===== src/Fabric.antt =====
-- What the key-value code asks of the InfiniBand verbs library, which the repository does not
-- contain: the reliable-connected queue pair behind `pp_post_send` and `pp_wait_completions`.
-- A completed SEND has copied its bytes to the start of the receive buffer; a completed RDMA
-- operation has reached the registered buffer that its address and key name.
use comm_networks_workshop.Base.{
  ℕ, ◌+◌, ◌-◌, ◌≤◌, ◌<◌, ◌≡◌, fun_ext, inl, inr, true, ◌&&◌, Option, none, some, List, arith, ltb,
  leb, ◌==◌, if◌then◌else◌, ltb→lt, Bool-cases, length,
}
use comm_networks_workshop.Bytes.{Buf, put_bytes, get_bytes, transmit}
use comm_networks_workshop.Packet.{max_test_size}
use comm_networks_workshop.Pool.{Mem, buffer_addr}

-- The node at `a` with other bytes in its buffer.
unfoldable pub set_buffer : Mem → ℕ → Buf → Mem
set_buffer m a b i = if i == a then record (m i) { rndv_buffer = b } else m i

pub record Fabric : Type 0 where
  -- `send size src dst` is the receive buffer `dst` after IBV_WR_SEND of `size` bytes of `src`.
  pub send : ℕ → Buf → Buf → Buf
  pub send_copies : (size : ℕ) (src dst : Buf) (i : ℕ) → i < size → send size src dst i ≡ src i
  pub send_spares : (size : ℕ) (src dst : Buf) (i : ℕ) → size ≤ i → send size src dst i ≡ dst i
  -- IBV_WR_RDMA_WRITE and IBV_WR_RDMA_READ at an address and key; `none` is a failed completion.
  pub rdma_write : Mem → ℕ → ℕ → List ℕ → Option Mem
  pub rdma_write_registered :
      (m : Mem) (a rkey : ℕ) (xs : List ℕ)
      → (m a).rndv_mr ≡ some rkey
      → length xs ≤ max_test_size
      → rdma_write m (buffer_addr a) rkey xs
        ≡ some (set_buffer m a (put_bytes (m a).rndv_buffer 0 xs))
  pub rdma_read : Mem → ℕ → ℕ → ℕ → Option (List ℕ)
  pub rdma_read_registered :
      (m : Mem) (a rkey n : ℕ)
      → (m a).rndv_mr ≡ some rkey
      → n ≤ max_test_size
      → rdma_read m (buffer_addr a) rkey n ≡ some (get_bytes (m a).rndv_buffer 0 n)

pub send-transmit :
    (f : Fabric) (size : ℕ) (src dst : Buf) → f.send size src dst ≡ transmit size src dst
unfolding transmit
send-transmit f size src dst = fun_ext λ i. elim (Bool-cases (ltb i size)) [
  | inl below ↦ rw below (f.send_copies size src dst i (ltb→lt i size below))
  | inr above ↦ rw above (f.send_spares size src dst i (ground arith))
]

-- A fabric in which a key is good for the node that it was issued for.
unfoldable pub ideal_write : Mem → ℕ → ℕ → List ℕ → Option Mem
ideal_write m addr rkey xs = elim (m (addr - 8)).rndv_mr [
  | none ↦ none
  | some k ↦
      if (k == rkey) && leb (length xs) max_test_size
      then some (set_buffer m (addr - 8) (put_bytes (m (addr - 8)).rndv_buffer 0 xs))
      else none
]

unfoldable pub ideal_read : Mem → ℕ → ℕ → ℕ → Option (List ℕ)
ideal_read m addr rkey n = elim (m (addr - 8)).rndv_mr [
  | none ↦ none
  | some k ↦
      if (k == rkey) && leb n max_test_size
      then some (get_bytes (m (addr - 8)).rndv_buffer 0 n)
      else none
]

pub ideal_write_registered :
    (m : Mem) (a rkey : ℕ) (xs : List ℕ)
    → (m a).rndv_mr ≡ some rkey
    → length xs ≤ max_test_size
    → ideal_write m (buffer_addr a) rkey xs
      ≡ some (set_buffer m a (put_bytes (m a).rndv_buffer 0 xs))
unfolding ideal_write
ideal_write_registered m a rkey xs r l =
    let e : a + 8 - 8 ≡ a = omega arith in
    let t : leb (length xs) max_test_size ≡ true = ground arith in
    let k : (rkey == rkey) ≡ true = ground arith in rw (ideal_write, e, r, k, t) (rw e)

pub ideal_read_registered :
    (m : Mem) (a rkey n : ℕ)
    → (m a).rndv_mr ≡ some rkey
    → n ≤ max_test_size
    → ideal_read m (buffer_addr a) rkey n ≡ some (get_bytes (m a).rndv_buffer 0 n)
unfolding ideal_read
ideal_read_registered m a rkey n r l =
    let e : a + 8 - 8 ≡ a = omega arith in
    let t : leb n max_test_size ≡ true = ground arith in
    let k : (rkey == rkey) ≡ true = ground arith in rw (ideal_read, e, r, k, t) (rw e)

pub transmit_copies :
    (size : ℕ) (src dst : Buf) (i : ℕ) → i < size → transmit size src dst i ≡ src i
unfolding transmit
transmit_copies size src dst i h = ground arith

pub transmit_spares :
    (size : ℕ) (src dst : Buf) (i : ℕ) → size ≤ i → transmit size src dst i ≡ dst i
unfolding transmit
transmit_spares size src dst i h = ground arith

-- The laws can be met.
abbrev pub ideal : Fabric
ideal = record {
  send = transmit;
  send_copies = transmit_copies;
  send_spares = transmit_spares;
  rdma_write = ideal_write;
  rdma_write_registered = ideal_write_registered;
  rdma_read = ideal_read;
  rdma_read_registered = ideal_read_registered;
}
