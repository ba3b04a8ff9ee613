-- ===== src/Args.antt =====
-- `parse_args` of Ex4/kv_client.c: the arguments `host:port` of the client. Text is a list of
-- character codes, 58 being ':'.
pub mod Addresses
use comm_networks_workshop.Base.{
  ℕ, zero, suc, ◌+◌, ◌-◌, ◌*◌, ◌/◌, ◌%◌, ◌^◌, ◌≤◌, ◌<◌, ◌≡◌, refl, sym, ap, ◌∙◌, fun_ext, ◌≢◌, ◌↔◌,
  ◌⊎◌, inl, inr, Bool, true, false, not, ◌&&◌, ◌||◌, Option, none, some, List, [], ◌∷◌, ◌++◌, map,
  arith, ltb, leb, ◌==◌, if◌then◌else◌, ltb→lt, lt→ltb, le→ltb, leb→le, ==_iff, tests, Bool-cases,
  Option-cases, str_eq, str_eq_refl, str_eq_sound, str_eq_iff, length, length-append, get_or, take,
  drop, replicate, length-take, take-append, length-replicate, All, get_or-append_left, get_elem?,
  set_elem, length-set_elem, get_elem?-set_elem, get_elem?-set_elem_ne, get_elem?-below,
  All-get_elem?, ℤ, pos, negsuc, is_negative, rounds,
}
use comm_networks_workshop.Run.{
  Run, ◌>>=◌, ◌>>◌, require, in_bounds, Ensures, Ensures-bind, Ensures-after, bind-ok, in_bounds-ok,
  ok, fault, out_of_fuel, returns, faults, stops,
}
use comm_networks_workshop.Wire.{
  hex_digit, digit_value, hex_digits, FitsHex, fits_hex, print_hex_from, print_hex, scan_digits,
  scan_hex, scan_char, htonl, Gid, Dest, gid_to_wire_gid, wire_word, wire_gid_to_gid, print_dest,
  scan_dest,
}
use comm_networks_workshop.Setup.{
  Opt, Settings, pp_mtu_to_enum, out_of_range, set_mtu, apply_option, apply_options, take_name,
  first_settings, Answers, Opened, has_device, connect_to, accept_from, exchange_dest, my_gid,
  local_dest, with_dest, with_context, with_settings, configure, start_with, orig_main, port_opt,
  ib_port_opt, size_opt, mtu_opt, rx_depth_opt, iters_opt, sl_opt, gid_idx_opt, ib_dev_opt,
  events_opt, unknown, failed, opened,
}
use comm_networks_workshop.Dkv.{
  Conn, Dkv, link_of, put_link, count_servers, find_packet, mkv_set, mkv_get, receive_location,
  locate, dkv_set, dkv_get,
}

-- `struct kv_server_address`; a `servername` of `none` is NULL, and `port` is a short.
pub record Address : Type 0 where
  pub servername : Option (List ℕ)
  pub port : ℤ

-- strtok(_, ":"): delimiters are skipped, then a token reaches to the next one.
unfoldable pub skip_colons : List ℕ → List ℕ
skip_colons [] = []
skip_colons (c ∷ cs) = let rest = skip_colons cs in if c == 58 then rest else c ∷ cs

unfoldable pub token : List ℕ → List ℕ
token [] = []
token (c ∷ cs) = let rest = token cs in if c == 58 then [] else c ∷ rest

unfoldable pub behind_token : List ℕ → List ℕ
behind_token [] = []
behind_token (c ∷ cs) = let rest = behind_token cs in if c == 58 then cs else rest

unfoldable pub non_empty : List ℕ → Option (List ℕ)
non_empty [] = none
non_empty (c ∷ cs) = some (c ∷ cs)

-- The first call on a string, and the second one, which goes on behind the first token.
unfoldable pub first_token : List ℕ → Option (List ℕ)
first_token cs = non_empty (token (skip_colons cs))

unfoldable pub second_token : List ℕ → Option (List ℕ)
second_token cs = non_empty (token (skip_colons (behind_token (skip_colons cs))))

-- The leading digits of a base.
unfoldable pub scan_base : ℕ → ℕ → List ℕ → ℕ
scan_base base acc [] = acc
scan_base base acc (c ∷ cs) = elim (digit_value c) [
  | none ↦ acc
  | some d ↦ let rest = scan_base base (acc * base + d) cs in if ltb d base then rest else acc
]

unfoldable pub negate : ℕ → ℤ
negate zero = pos 0
negate (suc n) = negsuc n

-- atoi, without leading blanks, of a number that an int holds.
unfoldable pub atoi : List ℕ → ℤ
atoi [] = pos 0
atoi (c ∷ cs) =
    if c == 45
    then negate (scan_base 10 0 cs)
    else if c == 43
    then pos (scan_base 10 0 cs)
    else pos (scan_base 10 0 (c ∷ cs))

-- The digits of a number for strtol with base 0: 0x is hexadecimal, 0 octal.
unfoldable pub scan_any_base : List ℕ → ℕ
scan_any_base [] = 0
scan_any_base (c ∷ []) = scan_base 10 0 (c ∷ [])
scan_any_base (c ∷ d ∷ cs) =
    if not (c == 48)
    then scan_base 10 0 (c ∷ d ∷ cs)
    else if (d == 120) || (d == 88)
    then scan_base 16 0 cs
    else scan_base 8 0 (d ∷ cs)

unfoldable pub strtol : List ℕ → ℤ
strtol [] = pos 0
strtol (c ∷ cs) =
    if c == 45
    then negate (scan_any_base cs)
    else if c == 43
    then pos (scan_any_base cs)
    else pos (scan_any_base (c ∷ cs))

-- The conversion of an int from 0 to 65535 to a short.
unfoldable pub to_short : ℤ → ℤ
to_short (negsuc n) = negsuc n
to_short (pos n) = if ltb n 32768 then pos n else negsuc (65535 - n)

-- The port of an argument; `none` is the return of 1.
unfoldable pub token_port : (List ℕ → ℤ) → ℕ → Option (List ℕ) → Option ℤ
token_port number default_port none = some (to_short (pos default_port))
token_port number default_port (some t) =
    if out_of_range (number t) then none else some (to_short (number t))

unfoldable pub parse_address : (List ℕ → ℤ) → ℕ → List ℕ → Option Address
parse_address number default_port arg = elim (token_port number default_port (second_token arg)) [
  | none ↦ none
  | some p ↦ some (record { servername = first_token arg; port = p })
]

-- DEFAULT_SRV_PORT and DEFAULT_IDX_PORT
abbrev pub default_srv_port : ℕ
default_srv_port = 12345

abbrev pub default_idx_port : ℕ
default_idx_port = 12346

abbrev pub terminator : Address
terminator = record { servername = none; port = pos 0 }

-- The loop over the servers.
unfoldable pub parse_servers : List (List ℕ) → Option (List Address)
parse_servers [] = some (terminator ∷ [])
parse_servers (arg ∷ args) = elim (parse_address strtol default_srv_port arg) [
  | none ↦ none
  | some a ↦ elim (parse_servers args) [ none ↦ none | some rest ↦ some (a ∷ rest) ]
]

-- The end by exit(1), the return of 1, or the return of 0 with the indexer and the servers.
pub data Parsed : Type 0 where
  exits fails : Parsed
  parsed : Address → List Address → Parsed

-- The arguments behind the program's name, with EX4: the index server, then the servers.
unfoldable pub parse_args : List (List ℕ) → Parsed
parse_args [] = exits
parse_args (indexer ∷ []) = exits
parse_args (indexer ∷ server ∷ servers) = elim (parse_address atoi default_idx_port indexer) [
  | none ↦ fails
  | some i ↦ elim (parse_servers (server ∷ servers)) [ none ↦ fails | some rest ↦ parsed i rest ]
]

-- Without EX4: one server; the others are ignored.
unfoldable pub parse_args_single : List (List ℕ) → Option (List Address)
parse_args_single [] = none
parse_args_single (server ∷ servers) = elim (parse_address strtol default_srv_port server) [
  | none ↦ none
  | some a ↦ some (a ∷ terminator ∷ [])
]
