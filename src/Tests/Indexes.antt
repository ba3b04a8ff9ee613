-- ===== src/Tests/Indexes.antt =====
-- Examples for the index server's whole handler and its loop.
use comm_networks_workshop.Base.{◌%◌, ◌^◌, ◌≡◌, refl, inl, true, false, some, [], ◌∷◌, arith}
use comm_networks_workshop.Run.{ok, fault}
use comm_networks_workshop.Bytes.{Buf, get_u32}
use comm_networks_workshop.Packet.{code, type_at, length_at, sizeof_packet, location}
use comm_networks_workshop.Pool.{Pool, zeros}
use comm_networks_workshop.Fabric.{ideal}
use comm_networks_workshop.Client.{eager_set_size, eager_set_packet}
use comm_networks_workshop.Client.Packets.{eager_set_packet-Gives}
use comm_networks_workshop.Server.Lookup.{Gives}
use comm_networks_workshop.Serve.{completed}
use comm_networks_workshop.Indexer.Hash.{djb2}
use comm_networks_workshop.Indexer.Database.{IndexStore, find_index_entry, handle_index_packet}
use comm_networks_workshop.Indexer.Loop.{IndexServed, index_wait}
use comm_networks_workshop.Indexer.Overflow.{handle_index_packet-overflows}
use comm_networks_workshop.Indexer.Answers.{arrived, index_wait-find}
use comm_networks_workshop.Tests.Data.{one_node, a_key, a_key-IsText, a_value, small_fits}

abbrev no_pool : Pool
no_pool = record one_node { mem_pool_head = 0; mem_pool_tail = 0; pool_size = 0 }

abbrev empty_index : IndexStore
empty_index = record {
  entries = [];
  entries_counter = 0;
  pool = no_pool;
  buf = zeros;
  close_server = false;
}

abbrev new_index : IndexServed
new_index = record { store = empty_index; sent = []; posted = 0 }

-- FIND of a key among two servers.
index_wait-find_example :
    (a : Buf) × (index_wait ideal
        (λ a. true)
        0
        (some (arrived a_key 2 zeros 40 ∷ []) ∷ [])
        1
        0
        new_index
      ≡ ok (
        record new_index {
          store = record empty_index { buf = a };
          sent = (sizeof_packet, a) ∷ [];
          posted = 1;
        },
        completed,
        [],
      ))
    × (get_u32 a type_at ≡ code location)
    × (get_u32 a length_at ≡ djb2 5381 a_key % 2 ^ 32 % 2)
index_wait-find_example =
    index_wait-find ideal (λ a. true) 0 a_key 2 zeros 40 new_index a_key-IsText (omega arith)
      (omega arith) (omega arith) (omega arith) refl

-- A small set that has arrived.
abbrev setting_index : IndexStore
setting_index = record empty_index {
  buf = ideal.send (eager_set_size a_key a_value) (eager_set_packet a_key a_value zeros) zeros;
}

setting : Gives a_key a_value setting_index.buf
setting = eager_set_packet-Gives ideal a_key zeros zeros a_key-IsText a_value small_fits

handle_index_packet-overflows_example : handle_index_packet setting_index ≡ fault
unfolding find_index_entry
handle_index_packet-overflows_example =
    handle_index_packet-overflows setting_index a_key
      (inl (setting.kind_is), setting.key_is, omega (arith, setting.fits)) refl
