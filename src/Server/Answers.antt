-- ===== src/Server/Answers.antt =====
-- The responses of Ex4/kv_server.c to a well-formed EAGER_GET_REQUEST, byte for byte.
use comm_networks_workshop.Base.{
  ℕ, ◌+◌, ◌≤◌, ◌<◌, ◌≡◌, refl, ap, ◌∙◌, true, false, none, some, List, [], ◌∷◌, arith, leb, ◌==◌,
  length, take,
}
use comm_networks_workshop.Run.{ok}
use comm_networks_workshop.Bytes.{Buf, put_bytes, put_u32, put_u64}
use comm_networks_workshop.Packet.{
  code, type_at, length_at, bytes_at, get_ptr_at, get_rkey_at, sizeof_packet, eager_protocol_limit,
  eager_get_response, rendezvous_get_response,
}
use comm_networks_workshop.Pool.{buffer_addr}
use comm_networks_workshop.Server.{
  Entry, Server, find_entry, node_rkey, answer_small, answer_large, answer_missing, answer_with,
  answer_get, handle_server_packets_only,
}
use comm_networks_workshop.Server.Lookup.{StoresSmall, Asks, handle_eager_get-answer_get}

abbrev pub small_response : List ℕ → Buf → Buf
small_response v b =
    put_bytes (put_u32 (put_u32 b type_at (code eager_get_response)) length_at (length v)) bytes_at
      v

abbrev pub large_response : ℕ → ℕ → ℕ → Buf → Buf
large_response n a rkey b =
    put_u32
      (put_u64 (put_u32 (put_u32 b type_at (code rendezvous_get_response)) length_at n) get_ptr_at
        (buffer_addr a))
      get_rkey_at rkey

take-all {ℓ} : {A : Type ℓ} (xs : List A) → take (length xs) xs ≡ xs
take-all [] = refl
take-all (x ∷ xs) = ap (◌∷◌ x) (take-all xs)

module _ (s : Server) (key : List ℕ) (e : Entry) (r : Asks key s.buf)
    (found : find_entry key s.entries ≡ some e) where
  found_answer : handle_server_packets_only s ≡ answer_with s e e.value
  unfolding answer_get
  found_answer = handle_eager_get-answer_get s key r ∙ ap (answer_get s) found

  -- A well-formed EAGER_GET_REQUEST for a key whose entry holds a value that fits into a packet is
  -- answered by the value's length and bytes, in a message of 32 bytes and the value's length;
  -- nothing else changes.
  pub handle_eager_get_small :
      (v : List ℕ)
      → StoresSmall v e
      → sizeof_packet + length v ≤ eager_protocol_limit
      → handle_server_packets_only s
        ≡ ok (record s { buf = small_response v s.buf }, sizeof_packet + length v)
  unfolding answer_with answer_small
  handle_eager_get_small v small fits =
      let room : leb (bytes_at + length v) eager_protocol_limit ≡ true = ground arith in
      found_answer ∙ ap (answer_with s e) small.0 ∙ rw (small.1, room, take-all v)

  -- A well-formed EAGER_GET_REQUEST for a key whose entry names a registered node is answered by
  -- the recorded length and the address and key of the node; nothing else changes.
  pub handle_eager_get_large :
      (a rkey : ℕ)
      → e.value ≡ none
      → e.large_val_mem_info ≡ a
      → 0 < a
      → (s.pool.mem a).rndv_mr ≡ some rkey
      → handle_server_packets_only s
        ≡ ok (record s { buf = large_response e.val_len a rkey s.buf }, sizeof_packet)
  unfolding answer_with answer_large node_rkey
  handle_eager_get_large a rkey none_is at pos reg =
      let nz : (a == 0) ≡ false = ground arith in
      found_answer ∙ ap (answer_with s e) none_is ∙ rw (at, nz, reg)

-- A key that is not there is answered as the code does, with nine bytes.
pub handle_eager_get_missing :
    (s : Server) (key : List ℕ)
    → Asks key s.buf
    → find_entry key s.entries ≡ none
    → handle_server_packets_only s ≡ ok (answer_missing s)
unfolding answer_get
handle_eager_get_missing s key r q = handle_eager_get-answer_get s key r ∙ ap (answer_get s) q
