-- ===== src/Tests/Servers.antt =====
-- Examples for the packet handler and the server's loop.
use comm_networks_workshop.Base.{
  ℕ, ◌+◌, ◌≡◌, refl, true, Option, some, List, [], ◌∷◌, arith, length, replicate, length-replicate,
}
use comm_networks_workshop.Run.{Ensures, ok}
use comm_networks_workshop.Packet.{sizeof_packet}
use comm_networks_workshop.Pool.{zeros}
use comm_networks_workshop.Fabric.{ideal}
use comm_networks_workshop.Server.{
  Entry, Server, find_entry, answer_missing, handle_server_packets_only,
}
use comm_networks_workshop.Server.Valid.{IsValid}
use comm_networks_workshop.Server.Keeps.{handle_server_packets_only-IsValid}
use comm_networks_workshop.Server.Lookup.{StoresSmall, Updates, handle_eager_set_lem, Asks}
use comm_networks_workshop.Server.Large.{node_for}
use comm_networks_workshop.Server.Answers.{handle_eager_get_missing}
use comm_networks_workshop.Serve.{Wc, Served}
use comm_networks_workshop.Client.{
  eager_set_size, eager_set_packet, rendezvous_set_packet, get_packet,
}
use comm_networks_workshop.Client.Packets.{eager_set_packet-Gives, get_packet-Asks}
use comm_networks_workshop.Tests.Data.{
  one_node, empty_server, a_key, a_key-IsText, a_value, small_fits, found_none,
}

abbrev large_value : List ℕ
large_value = replicate 4100 1

-- A server that has received a request.
abbrev setting : Server
setting = record empty_server {
  buf = ideal.send (eager_set_size a_key a_value) (eager_set_packet a_key a_value zeros) zeros;
}

abbrev placing : Server
placing = record empty_server {
  buf =
      ideal.send (length a_key + 1 + sizeof_packet) (rendezvous_set_packet a_key large_value zeros)
        zeros;
}

abbrev getting : List Entry → Server
getting es = record empty_server {
  entries = es;
  entries_counter = length es;
  buf = ideal.send (length a_key + 1 + sizeof_packet) (get_packet a_key zeros) zeros;
}

get_arrives :
    Asks a_key (ideal.send (length a_key + 1 + sizeof_packet) (get_packet a_key zeros) zeros)
get_arrives = get_packet-Asks ideal a_key zeros zeros a_key-IsText (omega arith)

long : length large_value ≡ 4100
long = length-replicate {A = ℕ} 4100 1

setting-IsValid : IsValid setting
setting-IsValid = record { counted = refl; formed = tt; unique = tt }

placing-IsValid : IsValid placing
placing-IsValid = record { counted = refl; formed = tt; unique = tt }

node_there : node_for one_node (find_entry a_key []) ≡ 100
unfolding find_entry
node_there = refl

handle_eager_set_lem_example :
    (t : Server) × (d : Entry) × (handle_server_packets_only setting ≡ ok (t, 0))
    × StoresSmall a_value d
    × Updates setting a_key d t
handle_eager_set_lem_example =
    handle_eager_set_lem setting a_key a_value setting-IsValid
      (eager_set_packet-Gives ideal a_key zeros zeros a_key-IsText a_value small_fits)

handle_eager_get_missing_example :
    handle_server_packets_only (getting []) ≡ ok (answer_missing (getting []))
handle_eager_get_missing_example =
    handle_eager_get_missing (getting []) a_key get_arrives found_none

handle_server_packets_only-IsValid_example :
    Ensures (λ t. IsValid t.0) (handle_server_packets_only setting)
handle_server_packets_only-IsValid_example =
    handle_server_packets_only-IsValid setting setting-IsValid

abbrev served : Served
served = record { server = empty_server; sent = []; posted = 1 }

abbrev one_request : List (Option (List Wc))
one_request =
    some (record { success = true; wr_id = 1; sender = get_packet a_key zeros; byte_len = 36 } ∷ [])
    ∷ []
