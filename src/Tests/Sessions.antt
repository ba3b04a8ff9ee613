-- ===== src/Tests/Sessions.antt =====
-- Examples for the arguments of the client, and for opening and closing its connections.
use comm_networks_workshop.Base.{
  ℕ, ◌≡◌, refl, true, false, Option, some, List, [], ◌∷◌, ◌++◌, arith, length, All, pos,
  is_negative,
}
use comm_networks_workshop.Run.{ok}
use comm_networks_workshop.Pool.{zeros}
use comm_networks_workshop.Fabric.{ideal}
use comm_networks_workshop.Setup.{out_of_range}
use comm_networks_workshop.Wire.{digit_value}
use comm_networks_workshop.Dkv.{Conn, Dkv, count_servers}
use comm_networks_workshop.Args.{
  Address, skip_colons, token, behind_token, non_empty, first_token, second_token, scan_base,
  scan_any_base, strtol, to_short, token_port, parse_address, terminator, parse_servers,
}
use comm_networks_workshop.Args.Addresses.{parse_address-high_port}
use comm_networks_workshop.Sessions.{open_all, mkv_open, dkv_close}
use comm_networks_workshop.Sessions.Closing.{dkv_close-ok}
use comm_networks_workshop.Tests.Data.{empty_server, new_client}

-- "ab" and "40000"
abbrev host : List ℕ
host = 97 ∷ 98 ∷ []

abbrev digits : List ℕ
digits = 52 ∷ 48 ∷ 48 ∷ 48 ∷ 48 ∷ []

number : strtol digits ≡ pos 40000
unfolding strtol scan_any_base scan_base digit_value
number = refl

number_in_range : out_of_range (strtol digits) ≡ false
unfolding out_of_range
number_in_range = rw (number, out_of_range) refl

parse_address-high_port_example :
    (a : Address) × (parse_address strtol 12345 (host ++ 58 ∷ digits) ≡ some a)
    × (is_negative a.port ≡ true)
parse_address-high_port_example =
    parse_address-high_port strtol 12345 40000 97 52 (98 ∷ []) (48 ∷ 48 ∷ 48 ∷ 48 ∷ [])
      (refl, (refl, tt)) (refl, (refl, (refl, (refl, (refl, tt))))) number (omega arith)
      (omega arith)

abbrev two_hosts : List Address
two_hosts =
    record { servername = some host; port = pos 12345 }
    ∷ (record { servername = some host; port = pos 12345 } ∷ (terminator ∷ []))

two_parsed : parse_servers (host ∷ host ∷ []) ≡ some two_hosts
unfolding parse_servers parse_address token_port second_token first_token skip_colons behind_token
    token non_empty to_short
two_parsed = refl

abbrev conn : Conn
conn = record { ctx_buf = zeros; server = empty_server }

abbrev connect : Address → Option Conn
connect a = some conn

two_opened : mkv_open connect two_hosts ≡ ok (some (conn ∷ conn ∷ []))
unfolding mkv_open count_servers open_all
two_opened = refl

abbrev both_open : Dkv
both_open = record {
  indexer_buf = zeros;
  indexer = record { buf = zeros; close_server = false };
  conns = conn ∷ conn ∷ [];
  globals = new_client;
}

dkv_close-ok_example :
    (d' : Dkv) × (dkv_close ideal both_open ≡ ok d')
    × (d'.indexer.close_server ≡ true)
    × All (λ x. x.server.close_server ≡ true) d'.conns
    × (length d'.conns ≡ 2)
dkv_close-ok_example = dkv_close-ok ideal both_open
