-- ===== src/Tests/Template.antt =====
-- Examples for the programs of Ex3/kv_template.c: an empty server, one with an entry, and one with
-- a pool of ten nodes.
use comm_networks_workshop.Base.{
  ℕ, zero, suc, ◌+◌, ◌*◌, ◌≤◌, ◌<◌, ◌≡◌, refl, inl, inr, Bool, true, false, Option, none, some,
  List, [], ◌∷◌, ◌++◌, map, arith, ◌==◌, if◌then◌else◌, length, take, replicate, All,
}
use comm_networks_workshop.Run.{ok, fault}
use comm_networks_workshop.Bytes.{put_bytes}
use comm_networks_workshop.Pool.{Mem, zeros}
use comm_networks_workshop.Pool.Chain.{Absent, Below}
use comm_networks_workshop.Fabric.{ideal}
use comm_networks_workshop.Template.{KvNode, KvStore, Allocator}
use comm_networks_workshop.Template.Cells.{Cell}
use comm_networks_workshop.Template.Appends.{IsStore}
use comm_networks_workshop.Template.Client.{
  KvClient, KvPair, cached_node, set_size_ex3, kv_set_ex3, kv_get_ex3,
}
use comm_networks_workshop.Template.RoundTrip.{IsServing}
use comm_networks_workshop.Template.Memory.{Distinct, Usable, IsPool}
use comm_networks_workshop.Template.Direct.{IsPooled}
use comm_networks_workshop.Template.Again.{kv_get-kv_set_rndv, kv_get-longer}
use comm_networks_workshop.Template.Faults.{kv_set_first_again}
use comm_networks_workshop.Template.Throughput.{run_throuput_tests}
use comm_networks_workshop.Template.Throughput.Passes.{run_throuput_tests-eager}
use comm_networks_workshop.Bytes.Laws.{Holds-put_bytes}
use comm_networks_workshop.Bytes.Strings.{IsText}
use comm_networks_workshop.Client.{c_str}
use comm_networks_workshop.Tests.Data.{a_key, a_key-IsText}
use comm_networks_workshop.Template.Throughput.Large.{run_throuput_tests-rendezvous}

-- Blocks are laid one behind the other.
abbrev pub bump : Allocator
bump = record {
  place = λ top h n. top;
  place_fresh = λ top h n live bounded. (live, bounded top (omega arith));
  stale = λ a. record { next = 0; prev = 0; val_len = 0; size = 0; key_and_value = zeros };
  stale_rndv = λ a. record { next = 0; mem_info = 0; key_len = 0; key = zeros };
}

abbrev pub registers : ℕ → Option ℕ
registers a = some 9

-- Nodes that stand a hundred bytes apart, each with the next behind it.
spaced : ℕ → ℕ → List ℕ
spaced zero a = []
spaced (suc n) a = a ∷ spaced n (a + 100)

pub linked : Mem
linked a = record { rndv_mr = some 7; rndv_buffer = zeros; next_mem = a + 100 }

spaced-Absent : (n a b : ℕ) → b < a → Absent b (spaced n a)
unfolding spaced
spaced-Absent zero a b h = tt
spaced-Absent (suc n) a b h = (λ e. omega (arith, e), spaced-Absent n (a + 100) b (omega arith))

spaced-Distinct : (n a : ℕ) → Distinct (spaced n a)
unfolding spaced
spaced-Distinct zero a = tt
spaced-Distinct (suc n) a = (spaced-Absent n (a + 100) a (omega arith), spaced-Distinct n (a + 100))

spaced-Usable : (n a : ℕ) → All (Usable linked) (spaced n a)
unfolding spaced linked
spaced-Usable zero a = tt
spaced-Usable (suc n) a = ((7, refl, omega arith), spaced-Usable n (a + 100))

spaced-Below : (n a brk : ℕ) → a + 100 * n ≤ brk → Below brk (spaced n a)
unfolding spaced
spaced-Below zero a brk h = tt
spaced-Below (suc n) a brk h = (omega arith, spaced-Below n (a + 100) brk (omega arith))

abbrev pub empty_store : KvStore
empty_store = record {
  kv_head = 0;
  kv_tail = 0;
  kv_nodes_counter = 0;
  nodes = λ a. none;
  top = 1;
  rndv_head = 0;
  rndv_tail = 0;
  rndv_nodes = λ a. none;
  rndv_brk = 1;
  rndv_pool_head = 100;
  rndv_pool_tail = 1000;
  rndv_pool_nodes_counter = 10;
  mem = linked;
  brk = 5000;
  close_server = false;
  buf = zeros;
}

ten_nodes : IsPool linked 100 1000 10 5000 (100 ∷ 200 ∷ spaced 8 300)
unfolding spaced linked
ten_nodes = record {
  front = spaced 9 100;
  behind = 1100;
  chain = (
    refl,
    omega arith,
    (
      refl,
      omega arith,
      (
        refl,
        omega arith,
        (
          refl,
          omega arith,
          (
            refl,
            omega arith,
            (
              refl,
              omega arith,
              (
                refl,
                omega arith,
                (refl, omega arith, (refl, omega arith, (refl, omega arith, refl))),
              ),
            ),
          ),
        ),
      ),
    ),
  );
  tail_is = refl;
  distinct = spaced-Distinct 10 100;
  usable = spaced-Usable 10 100;
  below = spaced-Below 10 100 5000 (omega arith);
  counted = refl;
}

abbrev pub first_client : Bool → KvClient
first_client rndv_mode = record {
  buf = zeros;
  remote_buf = zeros;
  use_rndv_protocol = rndv_mode;
  cache = [];
  polls = replicate 600 (1 ∷ 1 ∷ []);
}

abbrev first_pair : Bool → KvPair
first_pair rndv_mode = record { client = first_client rndv_mode; store = empty_store }

empty_store-IsStore : IsStore empty_store []
empty_store-IsStore = record {
  ends = inl (refl, refl, refl);
  counted = refl;
  some_top = omega arith;
  bounded = λ a h. refl;
}

first_pair-IsPooled : IsPooled (first_pair true) (100 ∷ 200 ∷ spaced 8 300)
unfolding spaced
first_pair-IsPooled = record {
  mode = refl;
  pool_is = ten_nodes;
  ten = refl;
  has_tail = inl refl;
  open_is = refl;
}

abbrev text_value : List ℕ
text_value = 97 ∷ 98 ∷ []

text_value-IsText : IsText text_value
text_value-IsText = ((omega arith, omega arith), ((omega arith, omega arith), tt))

run_throuput_tests-eager_example :
    (results : List (ℕ × ℕ)) × (p : KvPair) × (run_throuput_tests ideal bump registers
        (λ n. (true, true))
        false
        (first_pair false)
      ≡ ok (results, p))
    × (map (λ r. r.0) results ≡ 1 ∷ 2 ∷ 4 ∷ 8 ∷ 16 ∷ 32 ∷ 64 ∷ 128 ∷ 256 ∷ 512 ∷ 1024 ∷ 2048 ∷ [])
    × (p.store.kv_nodes_counter ≡ 600)
run_throuput_tests-eager_example =
    run_throuput_tests-eager ideal bump registers (λ n. (true, true)) (λ n. refl) (first_pair false)
      empty_store-IsStore (omega arith) refl refl

kv_get-kv_set_rndv_example :
    (q r : KvPair) × (kv_set_ex3 ideal bump registers a_key text_value (first_pair true) ≡ ok q)
    × (kv_get_ex3 ideal bump registers a_key q ≡ ok (c_str text_value, r))
    × IsPooled r ((200 ∷ spaced 8 300) ++ 5000 ∷ [])
unfolding cached_node
kv_get-kv_set_rndv_example =
    kv_get-kv_set_rndv ideal bump registers a_key text_value (first_pair true) 100 200 9
      (spaced 8 300) a_key-IsText text_value-IsText first_pair-IsPooled refl (omega arith)
      (omega arith) (omega arith) refl (omega arith)

kv_get-longer_example :
    (q r s : KvPair) × (kv_set_ex3 ideal bump registers a_key (97 ∷ []) (first_pair true) ≡ ok q)
    × (kv_set_ex3 ideal bump registers a_key text_value q ≡ ok r)
    × (kv_get_ex3 ideal bump registers a_key r ≡ ok (take 2 text_value, s))
unfolding cached_node
kv_get-longer_example =
    kv_get-longer ideal bump registers a_key (97 ∷ []) text_value (first_pair true) 100 200 9
      (spaced 8 300) a_key-IsText text_value-IsText first_pair-IsPooled refl (omega arith)
      (omega arith) (omega arith) (omega arith) refl (omega arith)

-- A server with one entry, at 5.
abbrev entry : KvNode
entry = record {
  next = 0;
  prev = 0;
  val_len = 2;
  size = 8;
  key_and_value = put_bytes zeros 0 (c_str a_key ++ text_value);
}

abbrev a_cell : Cell
a_cell = record { at = 5; key = a_key; value = text_value }

one_entry : ℕ → Option KvNode
one_entry a = if a == 5 then some entry else none

abbrev full_pair : KvPair
full_pair = record {
  client = first_client false;
  store = record empty_store {
    kv_head = 5;
    kv_tail = 5;
    kv_nodes_counter = 1;
    nodes = one_entry;
    top = 6;
  };
}

full_pair-IsServing : IsServing full_pair (a_cell ∷ [])
unfolding one_entry
full_pair-IsServing = record {
  mode = refl;
  valid = record {
    ends = inr (
      [],
      a_cell,
      refl,
      record {
        node = entry;
        leads = refl;
        tail_is = refl;
        live = omega arith;
        here = refl;
        node_is = record {
          text = a_key-IsText;
          holds = Holds-put_bytes zeros 0 (c_str a_key ++ text_value);
          length_is = refl;
          room = omega arith;
        };
        next_is = refl;
        apart = tt;
      },
    );
    counted = refl;
    some_top = omega arith;
    bounded = λ a h. ground arith;
  };
  full = omega arith;
  open_is = refl;
}

kv_set_first_again_example : kv_set_ex3 ideal bump registers a_key text_value full_pair ≡ fault
unfolding set_size_ex3
kv_set_first_again_example =
    kv_set_first_again ideal bump registers full_pair a_cell [] text_value full_pair-IsServing
      a_key-IsText (omega arith) (λ e. omega (arith, e))

run_throuput_tests-rendezvous_example :
    (results : List (ℕ × ℕ)) × (p : KvPair) × (ys : List ℕ) × (run_throuput_tests ideal bump
        registers
        (λ n. (true, true))
        true
        (first_pair false)
      ≡ ok (results, p))
    × (map (λ r. r.0) results
        ≡ 1 ∷ 2 ∷ 4 ∷ 8 ∷ 16 ∷ 32 ∷ 64 ∷ 128 ∷ 256 ∷ 512 ∷ 1024 ∷ 2048 ∷ 4096 ∷ 8192 ∷ 16384 ∷ 32768
          ∷ [])
    × (length p.client.cache ≡ 800)
    × IsPooled p ys
run_throuput_tests-rendezvous_example =
    run_throuput_tests-rendezvous ideal bump registers (λ n. (true, true)) (λ n. refl)
      (λ a. (9, refl, omega arith)) (first_pair false) (100 ∷ 200 ∷ spaced 8 300)
      first_pair-IsPooled refl (omega arith)
