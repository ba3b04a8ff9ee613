-- ===== src/Tests/Sequences.antt =====
-- Examples for the client over several servers as one map.
use comm_networks_workshop.Base.{◌≡◌, refl, none, List, [], ◌∷◌, map, arith, str_eq}
use comm_networks_workshop.Run.{ok}
use comm_networks_workshop.Fabric.{ideal}
use comm_networks_workshop.Dkv.{Dkv}
use comm_networks_workshop.Dkv.Refines.{Store, update, Refines}
use comm_networks_workshop.Dkv.Sequence.{
  Event, run_store, run_events, AllFit, answer_for, run_events-run_store, sets, gets, maintains,
}
use comm_networks_workshop.Tests.Data.{one_node, a_key, a_key-IsText, a_value, small_fits}
use comm_networks_workshop.Tests.Routes.{two_servers, two_servers-IsReady}

abbrev nothing : Store
nothing key = none

two_servers-Refines : Refines two_servers nothing
two_servers-Refines = record {
  ready = two_servers-IsReady;
  no_cache = refl;
  formed = λ key value e. cc;
  held = λ key value e. cc;
}

-- A value is set, a server's loop runs, and the value is got.
abbrev some_events : List Event
some_events = sets a_key a_value ∷ maintains 0 one_node ∷ gets a_key ∷ []

some_events-AllFit : AllFit some_events nothing
unfolding update str_eq
some_events-AllFit =
    (record { text = a_key-IsText; live = omega arith; fits = small_fits }, ((a_value, refl), tt))

run_events-run_store_example :
    (d : Dkv) × (run_events ideal some_events two_servers
      ≡ ok (map answer_for (run_store some_events nothing).0, d))
    × Refines d (run_store some_events nothing).1
run_events-run_store_example =
    run_events-run_store ideal some_events two_servers nothing two_servers-Refines
      some_events-AllFit
