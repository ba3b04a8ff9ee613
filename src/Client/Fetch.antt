-- ===== src/Client/Fetch.antt =====
-- Large values in Ex4/kv_client.c: the RDMA write of `kv_set` and the RDMA reads of `kv_get`.
use comm_networks_workshop.Base.{
  ℕ, ◌+◌, ◌^◌, ◌≤◌, ◌<◌, ◌≡◌, refl, ◌∙◌, true, false, some, List, [], ◌∷◌, arith, ltb, ◌==◌, le→ltb,
  str_eq, str_eq_refl, length, length-append,
}
use comm_networks_workshop.Run.{ok}
use comm_networks_workshop.Bytes.{Buf, get_u32}
use comm_networks_workshop.Bytes.Strings.{IsText}
use comm_networks_workshop.Packet.{
  code, type_at, sizeof_packet, eager_protocol_limit, max_test_size, rendezvous_set_response,
}
use comm_networks_workshop.Pool.{buffer_addr}
use comm_networks_workshop.Fabric.{Fabric}
use comm_networks_workshop.Server.{Server, find_entry}
use comm_networks_workshop.Server.Valid.{IsValid}
use comm_networks_workshop.Server.Large.{node_for, location_response, handle_rendezvous_set_lem}
use comm_networks_workshop.Client.{
  Link, c_str, set_client_buf, remember_key, eager_set_size, rendezvous_set_packet,
  kv_set_rendezvous, kv_set,
}
use comm_networks_workshop.Client.Exchange.{exchange-ok}
use comm_networks_workshop.Client.Rendezvous.{
  rendezvous_set_packet-RendezvousSet, arrived, arrived_kind, arrived_ptr, arrived_rkey, Kept,
  Cached, written, write_remote-written, written-Kept,
}

-- A `kv_set` of a large value under a key that is not cached: the value is in the key's node, the
-- server records its length with the NUL, the client caches its length without.
pub kv_set_rendezvous-Kept :
    (f : Fabric) (key value : List ℕ) (l : Link) (rkey : ℕ)
    → IsValid l.server
    → IsText key
    → eager_protocol_limit ≤ eager_set_size key value
    → length key + 1 + sizeof_packet ≤ eager_protocol_limit
    → length value + 1 ≤ max_test_size
    → str_eq key l.client.last_rndv_accessed_key ≡ false
    → 0 < node_for l.server.pool (find_entry key l.server.entries)
    → buffer_addr (node_for l.server.pool (find_entry key l.server.entries)) < 2 ^ 64
    → rkey < 2 ^ 32
    → (l.server.pool.mem (node_for l.server.pool (find_entry key l.server.entries))).rndv_mr
      ≡ some rkey
    → (l' : Link) × (kv_set f key value l ≡ ok l')
      × Kept key
          (c_str value)
          (node_for l.server.pool (find_entry key l.server.entries))
          rkey
          (length value + 1)
          l'.server
      × Cached key
          (length value)
          (node_for l.server.pool (find_entry key l.server.entries))
          rkey
          l'.client
unfolding kv_set kv_set_rendezvous set_client_buf remember_key
kv_set_rendezvous-Kept f key value l rkey valid text large fits room other pos low short reg =
    let a : ℕ = node_for l.server.pool (find_entry key l.server.entries) in
    let size : ℕ = length key + 1 + sizeof_packet in
    let c : Buf = rendezvous_set_packet key value l.client.buf in
    let s : Server = record (l.server) { buf = f.send size c l.server.buf } in
    let (t, d, handled, stored, up, same) =
      handle_rendezvous_set_lem s key (length value + 1) rkey
        (record { counted = valid.counted; formed = valid.formed; unique = valid.unique })
        (rendezvous_set_packet-RendezvousSet f key l.client.buf l.server.buf text value fits
          (omega arith))
        pos reg in
    let t' : Server = record t { buf = location_response a rkey s.buf } in
    let q =
      exchange-ok f size sizeof_packet (set_client_buf c l) t' fits (omega arith) (omega arith)
        handled in
    let reg' : (t.pool.mem a).rndv_mr ≡ some rkey = same a ∙ reg in
    let b : Buf = arrived f a rkey s.buf c low short in
    let l2 : Link = record {
      client = remember_key key (length value) (buffer_addr a) rkey (record (l.client) { buf = b });
      server = t';
    } in
    let not_small : ltb (eager_set_size key value) eager_protocol_limit ≡ false =
      le→ltb _ _ large in
    let is_response : (get_u32 b type_at == code rendezvous_set_response) ≡ true =
      ground (arith, arrived_kind f a rkey s.buf c low short) in
    let len : length (c_str value) ≤ max_test_size = omega (arith, length-append value (0 ∷ [])) in
    (
      record l2 { server = written t' a (c_str value) },
      rw (not_small, other, q)
          (rw
            (
              is_response,
              arrived_ptr f a rkey s.buf c low short,
              arrived_rkey f a rkey s.buf c low short,
            )
            (write_remote-written f l2 a rkey (c_str value) reg' len)),
      written-Kept key (c_str value) a rkey (length value + 1) t' d (up key ∙ rw (str_eq_refl key))
          stored reg',
      record { key_is = refl; length_is = refl; addr_is = refl; rkey_is = refl },
    )
