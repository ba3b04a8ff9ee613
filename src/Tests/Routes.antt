-- ===== src/Tests/Routes.antt =====
-- Examples for the index server and the client over several servers.
use comm_networks_workshop.Base.{
  ℕ, ◌%◌, ◌^◌, ◌≡◌, ◌≢◌, false, some, [], ◌∷◌, arith, length, get_elem?,
}
use comm_networks_workshop.Run.{ok}
use comm_networks_workshop.Pool.{zeros}
use comm_networks_workshop.Fabric.{ideal}
use comm_networks_workshop.Client.{Link, c_str, got}
use comm_networks_workshop.Client.RoundTrip.{with_pool}
use comm_networks_workshop.Indexer.{hash_key, Indexer}
use comm_networks_workshop.Indexer.Hash.{djb2, hash_key-djb2}
use comm_networks_workshop.Indexer.Find.{home}
use comm_networks_workshop.Dkv.{Conn, Dkv, put_link, dkv_set, dkv_get}
use comm_networks_workshop.Dkv.RoundTrip.{IsReady, dkv_get-dkv_set}
use comm_networks_workshop.Tests.Data.{
  one_node, empty_server, empty_server-IsValid, new_client, a_key, a_key-IsText, a_value,
  small_fits,
}

abbrev pub conn : Conn
conn = record { ctx_buf = zeros; server = empty_server }

abbrev new_indexer : Indexer
new_indexer = record { buf = zeros; close_server = false }

abbrev pub two_servers : Dkv
two_servers = record {
  indexer_buf = zeros;
  indexer = new_indexer;
  conns = conn ∷ conn ∷ [];
  globals = new_client;
}

pub two_servers-IsReady : IsReady two_servers
two_servers-IsReady = record {
  valid = (empty_server-IsValid, (empty_server-IsValid, tt));
  some_server = omega arith;
  few = omega arith;
}

hash_key-djb2_example : hash_key a_key ≡ djb2 5381 a_key % 2 ^ 64
hash_key-djb2_example = hash_key-djb2 a_key

dkv_get-dkv_set_example :
    (d' d'' : Dkv) × (l : Link) × (dkv_set ideal a_key a_value two_servers ≡ ok d')
    × (get_elem? d'.conns (home a_key (length two_servers.conns))
        ≡ some (record { ctx_buf = l.client.buf; server = l.server }))
    × ((j : ℕ)
        → home a_key (length two_servers.conns) ≢ j
        → get_elem? d'.conns j ≡ get_elem? two_servers.conns j)
    × (dkv_get ideal a_key
          (put_link (home a_key (length two_servers.conns)) (with_pool one_node l) d')
        ≡ ok (got (c_str a_value), d''))
dkv_get-dkv_set_example =
    dkv_get-dkv_set ideal a_key a_value two_servers two_servers-IsReady a_key-IsText (omega arith)
      small_fits one_node
