-- ===== src/Tests/Data.antt =====
-- The states and packets that the examples share.
use comm_networks_workshop.Base.{ℕ, ◌<◌, ◌≡◌, refl, false, none, some, List, [], ◌∷◌, arith, str_eq}
use comm_networks_workshop.Bytes.Strings.{IsText}
use comm_networks_workshop.Pool.{MemInfo, Mem, Pool, zeros}
use comm_networks_workshop.Server.{Entry, Server, find_entry}
use comm_networks_workshop.Server.Valid.{IsValid}
use comm_networks_workshop.Client.{Client, Link, eager_set_size}
use comm_networks_workshop.Packet.{eager_protocol_limit}

abbrev pub node : MemInfo
node = record { rndv_mr = some 7; rndv_buffer = zeros; next_mem = 0 }

abbrev pub memory : Mem
memory i = node

-- A pool of one node.
abbrev pub one_node : Pool
one_node = record {
  mem_pool_head = 100;
  mem_pool_tail = 100;
  tainted_mem_pool_head = 0;
  tainted_mem_pool_tail = 0;
  pool_size = 1;
  mem = memory;
  brk = 100000;
}

abbrev pub empty_server : Server
empty_server = record {
  entries = [];
  entries_counter = 0;
  pool = one_node;
  buf = zeros;
  close_server = false;
}

pub empty_server-IsValid : IsValid empty_server
empty_server-IsValid = record { counted = refl; formed = tt; unique = tt }

abbrev pub new_client : Client
new_client = record {
  buf = zeros;
  last_rndv_accessed_key = [];
  last_accessed_key_val_length = 0;
  last_accessed_server_addr = 0;
  last_accessed_server_rkey = 0;
}

abbrev pub new_link : Link
new_link = record { client = new_client; server = empty_server }

abbrev pub a_key : List ℕ
a_key = 107 ∷ 101 ∷ 121 ∷ []

pub a_key-IsText : IsText a_key
a_key-IsText =
    ((omega arith, omega arith), ((omega arith, omega arith), ((omega arith, omega arith), tt)))

abbrev pub a_value : List ℕ
a_value = 1 ∷ 2 ∷ []

pub small_fits : eager_set_size a_key a_value < eager_protocol_limit
unfolding eager_set_size
small_fits = omega arith

pub not_cached : str_eq a_key [] ≡ false
unfolding str_eq
not_cached = refl

abbrev pub small_entry : Entry
small_entry = record {
  key = a_key;
  key_len = 3;
  value = some a_value;
  val_len = 2;
  large_val_mem_info = 0;
}

abbrev pub large_entry : Entry
large_entry = record {
  key = a_key;
  key_len = 3;
  value = none;
  val_len = 5000;
  large_val_mem_info = 100;
}

pub found_small : find_entry a_key (small_entry ∷ []) ≡ some small_entry
unfolding find_entry str_eq
found_small = refl

pub found_large : find_entry a_key (large_entry ∷ []) ≡ some large_entry
unfolding find_entry str_eq
found_large = refl

pub found_none : find_entry a_key [] ≡ none
unfolding find_entry
found_none = refl
