-- ===== src/Serve/Invariant.antt =====
-- What the loop of Ex4/kv_server.c does to the database, whatever arrives.
use comm_networks_workshop.Base.{ℕ, Bool, Option, none, some}
use comm_networks_workshop.Run.{Run}
use comm_networks_workshop.Pool.{Pool}
use comm_networks_workshop.Fabric.{Fabric}
use comm_networks_workshop.Server.{Server}
use comm_networks_workshop.Server.Valid.{IsValid}
use comm_networks_workshop.Serve.{Waited, Served, completed, broken, stopped}
use comm_networks_workshop.Serve.Clearing.{Ended}

abbrev Valid : Served → Type 0
Valid t = IsValid t.server

abbrev Outcome : (ℕ → Bool) → Option Waited → Served → Type 0
Outcome dereg_mr (some stopped) t = Ended dereg_mr t.server
Outcome dereg_mr (some completed) t = Valid t
Outcome dereg_mr (some broken) t = Valid t
Outcome dereg_mr none t = Valid t
