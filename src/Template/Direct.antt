-- ===== src/Template/Direct.antt =====
-- `kv_set` of Ex3/kv_template.c by the rendezvous protocol, for a key that is not in the cache.
use comm_networks_workshop.Base.{
  ℕ, ◌+◌, ◌^◌, ◌≤◌, ◌<◌, ◌≡◌, sym, ◌∙◌, inl, inr, true, false, none, some, List, [], ◌∷◌, ◌++◌,
  arith, Bool-cases, str_eq, str_eq_refl, length, length-append, if_true, if_false,
}
use comm_networks_workshop.Bytes.{Buf, put_u32, get_u32, get_u64}
use comm_networks_workshop.Packet.{
  code, type_at, length_at, bytes_at, set_ptr_at, set_rkey_at, sizeof_packet, eager_protocol_limit,
  rendezvous_set_response,
}
use comm_networks_workshop.Pool.{buffer_addr}
use comm_networks_workshop.Fabric.{Fabric, send-transmit}
use comm_networks_workshop.Template.Client.{CacheNode, KvPair, cached_node, rndv_set_packet_ex3}
use comm_networks_workshop.Template.Memory.{IsPool}
use comm_networks_workshop.Template.Places.{Places, HasTail, place_answer}
use comm_networks_workshop.Bytes.Laws.{
  Holds, get_u32-put_u32, get_u32-put_u32_ne, get_u32-put_bytes_ne, get_u32-put_u64_ne,
  get_u64-put_u64, get_u64-put_u32_ne, get_u32-transmit, get_u64-transmit, Holds-put_bytes,
  Holds-transmit,
}
use comm_networks_workshop.Bytes.Strings.{IsText}
use comm_networks_workshop.Client.{c_str}

-- The packet as the server finds it.
pub rndv_set_packet-Places :
    (f : Fabric) (key : List ℕ) (b c : Buf)
    → IsText key
    → length key + 1 + sizeof_packet ≤ eager_protocol_limit
    → Places key (f.send (length key + 1 + sizeof_packet) (rndv_set_packet_ex3 key b) c)
unfolding rndv_set_packet_ex3 code
rndv_set_packet-Places f key b c text fits =
    let size : ℕ = length key + 1 + sizeof_packet in
    let lk : length (c_str key) ≡ length key + 1 = length-append key (0 ∷ []) in
    let w = put_u32 b type_at 5 in
    let x = put_u32 w length_at (length key) in
    rw (send-transmit f) (record {
      kind_is =
          get_u32-transmit size type_at _ c (omega arith)
          ∙ get_u32-put_bytes_ne x type_at bytes_at (c_str key) (omega arith)
          ∙ get_u32-put_u32_ne w type_at length_at (length key) (omega arith)
          ∙ get_u32-put_u32 b type_at 5 (omega arith);
      length_is =
          get_u32-transmit size length_at _ c (omega arith)
          ∙ get_u32-put_bytes_ne x length_at bytes_at (c_str key) (omega arith)
          ∙ get_u32-put_u32 w length_at (length key) (omega arith);
      key_is = (
        text,
        Holds-transmit size bytes_at _ c (c_str key) (omega (arith, lk))
            (Holds-put_bytes x bytes_at (c_str key)),
      );
      fits = omega arith;
    })

-- The answer as the client finds it: its twenty bytes reach to the end of the key.
module _ (f : Fabric) (x rkey : ℕ) (b c : Buf) where
  abbrev pub place_arrived : Buf
  place_arrived = f.send 20 (place_answer x rkey b) c

  pub place_kind : get_u32 place_arrived type_at ≡ code rendezvous_set_response
  unfolding code
  place_kind = rw (send-transmit f) (
      get_u32-transmit 20 type_at _ c (omega arith)
      ∙ get_u32-put_u32_ne _ type_at set_rkey_at rkey (omega arith)
      ∙ get_u32-put_u64_ne _ type_at set_ptr_at (buffer_addr x) (omega arith)
      ∙ get_u32-put_u32 b type_at 6 (omega arith))

  pub place_addr : buffer_addr x < 2 ^ 64 → get_u64 place_arrived set_ptr_at ≡ buffer_addr x
  place_addr low = rw (send-transmit f) (
      get_u64-transmit 20 set_ptr_at _ c (omega arith)
      ∙ get_u64-put_u32_ne _ set_ptr_at set_rkey_at rkey (omega arith)
      ∙ get_u64-put_u64 _ set_ptr_at (buffer_addr x) low)

  pub place_rkey : rkey < 2 ^ 32 → get_u32 place_arrived set_rkey_at ≡ rkey
  place_rkey low =
      rw (send-transmit f)
        (get_u32-transmit 20 set_rkey_at _ c (omega arith) ∙ get_u32-put_u32 _ set_rkey_at rkey low)

-- A client in rendezvous mode and a server with ten nodes in its pool.
pub record IsPooled (p : KvPair) (xs : List ℕ) : Type 0 where
  pub mode : p.client.use_rndv_protocol ≡ true
  pub pool_is :
      IsPool p.store.mem p.store.rndv_pool_head p.store.rndv_pool_tail
        p.store.rndv_pool_nodes_counter p.store.brk xs
  pub ten : length xs ≡ 10
  pub has_tail : HasTail p.store
  pub open_is : p.store.close_server ≡ false

-- The client holds the key's address and key, and the node there holds `value`.
pub record Holding (p : KvPair) (key value : List ℕ) (c : CacheNode) (x : ℕ) : Type 0 where
  pub cached : cached_node key p.client.cache ≡ some c
  pub addr_is : c.srv_addr ≡ buffer_addr x
  pub registered : (p.store.mem x).rndv_mr ≡ some c.srv_rkey
  pub held : Holds (p.store.mem x).rndv_buffer 0 value
  pub own : Holds p.client.remote_buf 0 (c_str value)

pub cached_node-append :
    (key : List ℕ) (cache : List CacheNode) (c : CacheNode)
    → cached_node key cache ≡ none
    → c.key ≡ key
    → cached_node key (cache ++ c ∷ []) ≡ some c
unfolding cached_node
cached_node-append key [] c h e =
    let same : str_eq c.key key ≡ true = rw e (str_eq_refl key) in if_true _ _ _ same
cached_node-append key (d ∷ cache) c h e = elim (Bool-cases (str_eq d.key key)) [
  | inl same ↦ (let q = sym (if_true (str_eq d.key key) _ _ same) ∙ h in cc)
  | inr other ↦
      let h' : cached_node key cache ≡ none = sym (if_false (str_eq d.key key) _ _ other) ∙ h in
      if_false (str_eq d.key key) _ _ other ∙ cached_node-append key cache c h' e
]
