-- ===== src/Tests/Clients.antt =====
-- Examples for the client over one connection.
use comm_networks_workshop.Base.{
  ℕ, ◌+◌, ◌≤◌, ◌<◌, ◌≡◌, refl, inl, inr, true, Option, some, List, [], ◌∷◌, ◌++◌, arith, length,
  take, replicate, length-replicate,
}
use comm_networks_workshop.Run.{ok, fault}
use comm_networks_workshop.Packet.{eager_protocol_limit}
use comm_networks_workshop.Fabric.{ideal}
use comm_networks_workshop.Server.{find_entry}
use comm_networks_workshop.Client.{Link, c_str, eager_set_size, kv_set, kv_get, got}
use comm_networks_workshop.Client.RoundTrip.{with_pool, kv_get-kv_set}
use comm_networks_workshop.Client.Missing.{kv_get_missing}
use comm_networks_workshop.Client.Shared.{Room, kv_get-kv_set_large, kv_set_cached_truncates}
use comm_networks_workshop.Tests.Data.{
  one_node, empty_server, empty_server-IsValid, new_client, new_link, a_key, a_key-IsText, a_value,
  small_fits, not_cached, found_none,
}
use comm_networks_workshop.Client.Completions.{ClientWc, Counts, wait_completions}
use comm_networks_workshop.Client.Waits.{counted, wait_completions-returns}

abbrev large_value : List ℕ
large_value = replicate 4100 1

abbrev longer_value : List ℕ
longer_value = replicate 4200 2

large_length : length large_value ≡ 4100
large_length = length-replicate {A = ℕ} 4100 1

longer_length : length longer_value ≡ 4200
longer_length = length-replicate {A = ℕ} 4200 2

large_size : eager_protocol_limit ≤ eager_set_size a_key large_value
unfolding eager_set_size
large_size = omega (arith, large_length)

room : Room a_key 100 7 empty_server
unfolding find_entry
room = record {
  node_is = refl;
  not_null = omega arith;
  low = omega arith;
  short = omega arith;
  registered = refl;
}

kv_get-kv_set_example :
    (l' l'' : Link) × (kv_set ideal a_key a_value new_link ≡ ok l')
    × (kv_get ideal a_key (with_pool one_node l') ≡ ok (got (c_str a_value), l''))
kv_get-kv_set_example =
    kv_get-kv_set ideal a_key a_value new_link empty_server-IsValid a_key-IsText (omega arith)
      small_fits one_node

kv_get_missing_example : kv_get ideal a_key new_link ≡ fault
kv_get_missing_example =
    kv_get_missing ideal a_key new_link a_key-IsText (omega arith) (omega arith) not_cached
      found_none

kv_get-kv_set_large_example :
    (l' : Link) × (l2 : Link) × (x : ℕ) × (kv_set ideal a_key large_value new_link ≡ ok l')
    × (kv_get ideal a_key l' ≡ ok (got (c_str large_value), l'))
    × (kv_get ideal a_key (record l' { client = new_client })
        ≡ ok (got (c_str large_value ++ x ∷ []), l2))
kv_get-kv_set_large_example =
    kv_get-kv_set_large ideal a_key large_value 100 7 new_link empty_server-IsValid room
      a_key-IsText large_size (omega arith) not_cached (omega (arith, large_length)) new_client
      not_cached

kv_set_cached_truncates_example :
    (l1 l' : Link) × (l2 : Link) × (kv_set ideal a_key large_value new_link ≡ ok l1)
    × (kv_set ideal a_key longer_value l1 ≡ ok l')
    × (kv_get ideal a_key l' ≡ ok (got (c_str longer_value), l'))
    × (kv_get ideal a_key (record l' { client = new_client })
        ≡ ok (got (take (length large_value + 2) (c_str longer_value)), l2))
kv_set_cached_truncates_example =
    kv_set_cached_truncates ideal a_key large_value 100 7 new_link empty_server-IsValid room
      a_key-IsText large_size (omega arith) not_cached longer_value new_client
      (omega (arith, large_length, longer_length)) (omega (arith, longer_length)) not_cached

-- Nothing has completed, then the send, then the receive.
abbrev three_polls : List (Option (List ClientWc))
three_polls =
    some []
    ∷ some (record { success = true; wr_id = 2 } ∷ [])
    ∷ some (record { success = true; wr_id = 1 } ∷ [])
    ∷ []

wait_completions-returns_example :
    (d : Counts) × (wait_completions three_polls 2 ≡ ok (some d))
    × (2 ≤ counted d)
    × (counted d < 2 + 2)
    × (d.reposted ≡ d.rcnt)
wait_completions-returns_example =
    wait_completions-returns three_polls 2
      (
        (omega arith, tt),
        ((omega arith, ((refl, inl refl), tt)), ((omega arith, ((refl, inr refl), tt)), tt)),
      )
      (omega arith)
