-- ===== src/Template/Throughput/Large.antt =====
-- The rendezvous throughput test of Ex3/kv_template.c runs through on a server with a full pool.
use mathlib.Core.Path.{subst}
use comm_networks_workshop.Base.{
  ℕ, zero, suc, ◌+◌, ◌*◌, ◌^◌, ◌≤◌, ◌<◌, ◌≡◌, refl, sym, ap, ◌∙◌, inl, inr, Bool, true, false,
  Option, none, some, List, [], ◌∷◌, ◌++◌, map, arith, ltb, lt→ltb, Bool-cases, str_eq, str_eq_refl,
  str_eq_sound, length, length-append, if_false,
}
use comm_networks_workshop.Run.{ok}
use comm_networks_workshop.Packet.{max_test_size}
use comm_networks_workshop.Pool.{sizeof_memory_info, buffer_addr}
use comm_networks_workshop.Fabric.{Fabric}
use comm_networks_workshop.Bytes.Strings.{IsText}
use comm_networks_workshop.Template.{KvStore, Allocator}
use comm_networks_workshop.Template.Cells.{Cell, Missing}
use comm_networks_workshop.Template.Client.{CacheNode, KvClient, KvPair, cached_node}
use comm_networks_workshop.Template.Direct.{IsPooled}
use comm_networks_workshop.Template.Again.{set_then_get}
use comm_networks_workshop.Template.Throughput.{
  test_key, test_value, run_attempt, run_throuput_tests,
}
use comm_networks_workshop.Template.Throughput.Keys.{test_key-IsText, length-test_key}
use comm_networks_workshop.Template.Throughput.Sizes.{
  Old, Old-Missing, block_text-test_value, length-test_value, doubled, doublings, run_sizes-pass,
}
use comm_networks_workshop.Template.Start.{init_pool, init_pool-IsPool}

abbrev keys_of : List CacheNode → List (List ℕ)
keys_of cache = map (λ c. c.key) cache

abbrev cell_keys : List Cell → List (List ℕ)
cell_keys cs = map (λ c. c.key) cs

-- A pool of ten nodes below `brk`, a node cached for each key so far, and one node for each
-- allocated since the start.
pub record IsFilling (start : ℕ) (p : KvPair) (cs : List Cell) : Type 0 where
  pub nodes : List ℕ
  pub pooled : IsPooled p nodes
  pub cached : keys_of p.client.cache ≡ cell_keys cs
  pub brk_is : p.store.brk ≡ start + sizeof_memory_info * length cs

two_of : (xs : List ℕ) → length xs ≡ 10 → (x : ℕ) × (y : ℕ) × (ys : List ℕ) × (xs ≡ x ∷ y ∷ ys)
two_of [] h = absurd (omega (arith, h))
two_of (x ∷ []) h = absurd (omega (arith, h))
two_of (x ∷ y ∷ ys) h = (x, y, ys, refl)

differs_sym : (s t : List ℕ) → str_eq s t ≡ false → str_eq t s ≡ false
differs_sym s t h = elim (Bool-cases (str_eq t s)) [
  | inr other ↦ other
  | inl same ↦
      let q : t ≡ s = str_eq_sound t s same in
      let r : str_eq s t ≡ true = rw q (str_eq_refl s) in (let z : true ≡ false = sym r ∙ h in cc)
]

cached_node-Missing :
    (key : List ℕ) (cache : List CacheNode) (cs : List Cell)
    → keys_of cache ≡ cell_keys cs
    → Missing key cs
    → cached_node key cache ≡ none
unfolding cached_node
cached_node-Missing key [] cs e m = refl
cached_node-Missing key (c ∷ cache) [] e m = cc
cached_node-Missing key (c ∷ cache) (d ∷ cs) e (other, m) =
    let q : c.key ≡ d.key = cc e in
    let rest : keys_of cache ≡ cell_keys cs = cc e in
    let other' : str_eq c.key key ≡ false = rw q (differs_sym key d.key other) in
    if_false _ _ _ other' ∙ cached_node-Missing key cache cs rest m

map-append : {A B : Type 0} (g : A → B) (xs ys : List A) → map g (xs ++ ys) ≡ map g xs ++ map g ys
map-append g [] ys = refl
map-append g (x ∷ xs) ys = ap (◌∷◌ (g x)) (map-append g xs ys)

length-map : {A B : Type 0} (g : A → B) (xs : List A) → length (map g xs) ≡ length xs
length-map g [] = refl
length-map g (x ∷ xs) = omega (arith, length-map g xs)

test_value-IsText : (n : ℕ) → IsText (test_value n)
unfolding test_value
test_value-IsText zero = tt
test_value-IsText (suc n) = ((omega arith, omega arith), test_value-IsText n)

module _ (f : Fabric) (malloc : Allocator) (reg_mr : ℕ → Option ℕ)
    (registers : (a : ℕ) → (k : ℕ) × (reg_mr a ≡ some k) × (k < 2 ^ 32)) (start : ℕ)
    (room : start + sizeof_memory_info * 800 ≤ 2 ^ 63) where
  run_attempt-fills :
      (size attempt : ℕ) (p : KvPair) (cs : List Cell)
      → size * 2 ≤ 65536
      → attempt < 50
      → length cs < 800
      → IsFilling start p cs
      → Old size attempt cs
      → (p' : KvPair) × (c : Cell) × (run_attempt f malloc reg_mr size attempt p ≡ ok p')
        × IsFilling start p' (cs ++ c ∷ [])
        × (c.key ≡ test_key size attempt)
  unfolding run_attempt
  run_attempt-fills size attempt p cs hs ha few h old =
      let key : List ℕ = test_key size attempt in
      let value : List ℕ = test_value size in
      let short : length key < 10 = length-test_key size attempt (omega arith) (omega arith) in
      let lv : length value ≡ size = length-test_value size in
      let key_room : ltb (length key) 10 ≡ true = lt→ltb _ _ short in
      let missing : cached_node key p.client.cache ≡ none =
        cached_node-Missing key p.client.cache cs h.cached
          (Old-Missing size attempt cs (omega arith) (omega arith) old) in
      let (x, y, ys, nodes_are) = two_of h.nodes h.pooled.ten in
      let pooled : IsPooled p (x ∷ y ∷ ys) = subst (IsPooled p) nodes_are h.pooled in
      let (k, mr, mr_low) = registers p.store.brk in
      let x_below : x < p.store.brk = pooled.pool_is.below.0 in
      let low : buffer_addr x < 2 ^ 64 = omega (arith, x_below, h.brk_is, room, few) in
      let (q, r, c, was_set, was_got, pooled', named, cache_is, brk_is) =
        set_then_get f malloc reg_mr key value p x y k ys (test_key-IsText size attempt)
          (test_value-IsText size) pooled missing (omega (arith, short)) (omega (arith, lv)) low mr
          mr_low in
      let cell : Cell = record { at = x; key = key; value = value } in
      (
        r,
        cell,
        rw (key_room, was_set, was_got, block_text-test_value size, str_eq_refl value) refl,
        record {
          nodes = (y ∷ ys) ++ p.store.brk ∷ [];
          pooled = pooled';
          cached =
              ap keys_of cache_is
              ∙ map-append (λ (n : CacheNode). n.key) p.client.cache (c ∷ [])
              ∙ rw (h.cached, named) (sym (map-append (λ (n : Cell). n.key) cs (cell ∷ [])));
          brk_is = omega (arith, brk_is, h.brk_is, length-append cs (cell ∷ []));
        },
        refl,
      )

-- From a server with ten registered nodes in its pool and not closed, a client with an empty cache,
-- room below 2^63 for 800 more nodes, and when `gettimeofday` succeeds and every registration
-- succeeds with a 32-bit key: the rendezvous throughput test of the first key-value store comes to
-- its end without a fault, no assert of it fails, it has results for the sixteen sizes from 1 to
-- 32768, the client then has 800 keys in its cache, and the pool has ten nodes.
pub run_throuput_tests-rendezvous :
    (f : Fabric) (malloc : Allocator) (reg_mr : ℕ → Option ℕ) (clock : ℕ → Bool × Bool)
    → ((n : ℕ) → clock n ≡ (true, true))
    → ((a : ℕ) → (k : ℕ) × (reg_mr a ≡ some k) × (k < 2 ^ 32))
    → (p : KvPair) (xs : List ℕ)
    → IsPooled (record p { client = record (p.client) { use_rndv_protocol = true } }) xs
    → p.client.cache ≡ []
    → p.store.brk + sizeof_memory_info * 800 ≤ 2 ^ 63
    → (results : List (ℕ × ℕ)) × (p' : KvPair) × (ys : List ℕ) × (run_throuput_tests f malloc reg_mr
          clock true p
        ≡ ok (results, p'))
      × (map (λ r. r.0) results
          ≡ 1 ∷ 2 ∷ 4 ∷ 8 ∷ 16 ∷ 32 ∷ 64 ∷ 128 ∷ 256 ∷ 512 ∷ 1024 ∷ 2048 ∷ 4096 ∷ 8192 ∷ 16384
            ∷ 32768 ∷ [])
      × (length p'.client.cache ≡ 800)
      × IsPooled p' ys
unfolding run_throuput_tests doubled doublings
run_throuput_tests-rendezvous f malloc reg_mr clock ticks registers p xs pooled none_cached room =
    let q : KvPair = record p { client = record (p.client) { use_rndv_protocol = true } } in
    let start : ℕ = p.store.brk in
    let h : IsFilling start q [] = record {
      nodes = xs;
      pooled = pooled;
      cached = ap keys_of none_cached;
      brk_is = omega arith;
    } in
    let (results, p', cs, ran, sizes, h', len) =
      run_sizes-pass f malloc reg_mr (IsFilling start) 65536 800 (omega arith)
        (run_attempt-fills f malloc reg_mr registers start room) clock ticks max_test_size
        (omega arith) (λ size e. omega (arith, e)) 16 3 1 q [] (omega arith) refl (omega arith) h
        tt in
    let keys : length (keys_of p'.client.cache) ≡ length (cell_keys cs) =
      ap (λ (ks : List (List ℕ)). length ks) h'.cached in
    (
      results,
      p',
      h'.nodes,
      ran,
      sizes,
      omega (
        arith,
        length-map (λ (n : CacheNode). n.key) p'.client.cache,
        length-map (λ (c : Cell). c.key) cs,
        keys,
        len,
      ),
      h'.pooled,
    )

-- For the first key-value store, from a server's globals as they are at its start and a client with
-- an empty cache, with room below 2^63 for 810 nodes, and when `gettimeofday` succeeds and every
-- registration succeeds with a 32-bit key: `pp_init_ctx` makes the pool, and the rendezvous
-- throughput test with that pool comes to its end without a fault, no assert of it fails, it has
-- results for the sixteen sizes from 1 to 32768, and the client then has 800 keys in its cache.
pub init_pool-run_throuput_tests :
    (f : Fabric) (malloc : Allocator) (reg_mr : ℕ → Option ℕ) (stale_next : ℕ → ℕ)
    (clock : ℕ → Bool × Bool)
    → ((n : ℕ) → clock n ≡ (true, true))
    → ((a : ℕ) → (k : ℕ) × (reg_mr a ≡ some k) × (k < 2 ^ 32))
    → (c : KvClient) (s : KvStore) → c.cache ≡ []
    → 0 < s.brk
    → s.rndv_pool_nodes_counter ≡ 0
    → s.rndv_tail ≡ 0
    → s.close_server ≡ false
    → s.brk + sizeof_memory_info * 810 ≤ 2 ^ 63
    → (t : KvStore) × (results : List (ℕ × ℕ)) × (p' : KvPair) × (init_pool reg_mr stale_next s
        ≡ ok (some t))
      × (run_throuput_tests f malloc reg_mr clock true (record { client = c; store = t })
          ≡ ok (results, p'))
      × (map (λ r. r.0) results
          ≡ 1 ∷ 2 ∷ 4 ∷ 8 ∷ 16 ∷ 32 ∷ 64 ∷ 128 ∷ 256 ∷ 512 ∷ 1024 ∷ 2048 ∷ 4096 ∷ 8192 ∷ 16384
            ∷ 32768 ∷ [])
      × (length p'.client.cache ≡ 800)
unfolding doublings
init_pool-run_throuput_tests f malloc reg_mr stale_next clock ticks registers c s none_cached live
      none_counted no_tail open_is room =
    let (t, ys, made, pool, ten, stale, close_is, tail_is, brk_is) =
      init_pool-IsPool reg_mr stale_next registers s live none_counted in
    let p : KvPair = record { client = c; store = t } in
    let pooled : IsPooled (record p { client = record c { use_rndv_protocol = true } }) ys =
      record {
        mode = refl;
        pool_is = pool;
        ten = ten;
        has_tail = inl (tail_is ∙ no_tail);
        open_is = close_is ∙ open_is;
      } in
    let (results, p', zs, ran, sizes, cached, pooled') =
      run_throuput_tests-rendezvous f malloc reg_mr clock ticks registers p ys pooled none_cached
        (omega (arith, brk_is, room)) in
    (t, results, p', made, ran, sizes, cached)
