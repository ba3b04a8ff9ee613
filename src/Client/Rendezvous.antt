-- ===== src/Client/Rendezvous.antt =====
-- `kv_set` of Ex4/kv_client.c for values from the eager limit on: the request, the location in the
-- answer, and the RDMA write.
use comm_networks_workshop.Base.{
  ℕ, ◌+◌, ◌^◌, ◌≤◌, ◌<◌, ◌≡◌, ◌∙◌, true, some, List, [], ◌∷◌, arith, ◌==◌, length, length-append,
}
use comm_networks_workshop.Run.{ok}
use comm_networks_workshop.Bytes.{Buf, put_bytes, put_u32, get_u32, get_u64}
use comm_networks_workshop.Bytes.Laws.{
  get_u32-put_u32, get_u32-put_u32_ne, get_u32-put_bytes_ne, get_u32-transmit, get_u64-put_u64,
  get_u64-put_u32_ne, get_u32-put_u64_ne, get_u64-transmit, Holds, Holds-put_bytes, Holds-transmit,
}
use comm_networks_workshop.Bytes.Strings.{IsText}
use comm_networks_workshop.Packet.{
  code, type_at, length_at, bytes_at, set_ptr_at, set_rkey_at, sizeof_packet, eager_protocol_limit,
  max_test_size, rendezvous_set_response,
}
use comm_networks_workshop.Pool.{buffer_addr}
use comm_networks_workshop.Fabric.{set_buffer, Fabric, send-transmit}
use comm_networks_workshop.Server.{Entry, Server, find_entry}
use comm_networks_workshop.Server.Large.{RendezvousSet, location_response, StoresLarge}
use comm_networks_workshop.Client.{Client, Link, c_str, write_remote, rendezvous_set_packet}

module _ (f : Fabric) (key : List ℕ) (b c : Buf) (text : IsText key) where
  pub rendezvous_set_packet-RendezvousSet :
      (value : List ℕ)
      → length key + 1 + sizeof_packet ≤ eager_protocol_limit
      → length value + 1 < 2 ^ 32
      → RendezvousSet key
          (length value + 1)
          (f.send (length key + 1 + sizeof_packet) (rendezvous_set_packet key value b) c)
  unfolding rendezvous_set_packet code
  rendezvous_set_packet-RendezvousSet value fits small =
      let size : ℕ = length key + 1 + sizeof_packet in
      let lk = length-append key (0 ∷ []) in
      let w = put_u32 b type_at 5 in
      let x = put_u32 w length_at (length value + 1) in
      rw (send-transmit f) (record {
        kind_is =
            get_u32-transmit size type_at _ c (omega arith)
            ∙ get_u32-put_bytes_ne x type_at bytes_at (c_str key) (omega arith)
            ∙ get_u32-put_u32_ne w type_at length_at (length value + 1) (omega arith)
            ∙ get_u32-put_u32 b type_at 5 (omega arith);
        key_is = (
          text,
          Holds-transmit size bytes_at _ c (c_str key) (omega (arith, lk))
              (Holds-put_bytes x bytes_at (c_str key)),
        );
        length_is =
            get_u32-transmit size length_at _ c (omega arith)
            ∙ get_u32-put_bytes_ne x length_at bytes_at (c_str key) (omega arith)
            ∙ get_u32-put_u32 w length_at (length value + 1) small;
        fits = omega arith;
      })

-- The location as the client finds it in its buffer.
module _ (f : Fabric) (a rkey : ℕ) (b c : Buf) (low : buffer_addr a < 2 ^ 64)
    (short : rkey < 2 ^ 32) where
  abbrev pub arrived : Buf
  arrived = f.send sizeof_packet (location_response a rkey b) c

  pub arrived_kind : get_u32 arrived type_at ≡ code rendezvous_set_response
  unfolding code
  arrived_kind = rw (send-transmit f) (
      get_u32-transmit _ type_at _ c (omega arith)
      ∙ get_u32-put_u32_ne _ type_at set_rkey_at rkey (omega arith)
      ∙ get_u32-put_u64_ne _ type_at set_ptr_at (buffer_addr a) (omega arith)
      ∙ get_u32-put_u32 b type_at 6 (omega arith))

  pub arrived_ptr : get_u64 arrived set_ptr_at ≡ buffer_addr a
  arrived_ptr = rw (send-transmit f) (
      get_u64-transmit _ set_ptr_at _ c (omega arith)
      ∙ get_u64-put_u32_ne _ set_ptr_at set_rkey_at rkey (omega arith)
      ∙ get_u64-put_u64 _ set_ptr_at (buffer_addr a) low)

  pub arrived_rkey : get_u32 arrived set_rkey_at ≡ rkey
  arrived_rkey =
      rw (send-transmit f) (
        get_u32-transmit _ set_rkey_at _ c (omega arith) ∙ get_u32-put_u32 _ set_rkey_at rkey short)

-- The node `a` of a server holds `v` for the key, with the recorded length `n`.
pub record Kept (key v : List ℕ) (a rkey n : ℕ) (s : Server) : Type 0 where
  pub entry : Entry
  pub found : find_entry key s.entries ≡ some entry
  pub large : StoresLarge a n entry
  pub registered : (s.pool.mem a).rndv_mr ≡ some rkey
  pub holds : Holds (s.pool.mem a).rndv_buffer 0 v

pub record Cached (key : List ℕ) (n a rkey : ℕ) (c : Client) : Type 0 where
  pub key_is : c.last_rndv_accessed_key ≡ key
  pub length_is : c.last_accessed_key_val_length ≡ n
  pub addr_is : c.last_accessed_server_addr ≡ buffer_addr a
  pub rkey_is : c.last_accessed_server_rkey ≡ rkey

abbrev pub written : Server → ℕ → List ℕ → Server
written s a xs = record s {
  pool = record (s.pool) {
    mem = set_buffer s.pool.mem a (put_bytes (s.pool.mem a).rndv_buffer 0 xs);
  };
}

pub write_remote-written :
    (f : Fabric) (l : Link) (a rkey : ℕ) (xs : List ℕ)
    → (l.server.pool.mem a).rndv_mr ≡ some rkey
    → length xs ≤ max_test_size
    → write_remote f (buffer_addr a) rkey xs l ≡ ok (record l { server = written l.server a xs })
unfolding write_remote
write_remote-written f l a rkey xs reg fits =
    rw (f.rdma_write_registered l.server.pool.mem a rkey xs reg fits)

pub written-Kept :
    (key xs : List ℕ) (a rkey n : ℕ) (s : Server) (e : Entry)
    → find_entry key s.entries ≡ some e
    → StoresLarge a n e
    → (s.pool.mem a).rndv_mr ≡ some rkey
    → Kept key xs a rkey n (written s a xs)
unfolding set_buffer
written-Kept key xs a rkey n s e found large reg =
    let same : (a == a) ≡ true = ground arith in
    record {
      entry = e;
      found = found;
      large = large;
      registered = rw same reg;
      holds = rw same (Holds-put_bytes (s.pool.mem a).rndv_buffer 0 xs);
    }
