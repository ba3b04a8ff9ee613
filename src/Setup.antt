-- ===== src/Setup.antt =====
-- `orig_main` of Ex4/kv_server.c: from the options of the command line to a connected context. The
-- parsed options, and what the libraries answer, are parameters.
pub mod Options
pub mod Connected
use comm_networks_workshop.Base.{
  ℕ, zero, suc, ◌+◌, ◌-◌, ◌*◌, ◌/◌, ◌%◌, ◌^◌, ◌≤◌, ◌<◌, ◌≡◌, refl, sym, ap, ◌∙◌, fun_ext, ◌≢◌, ◌↔◌,
  ◌⊎◌, inl, inr, Bool, true, false, not, ◌&&◌, ◌||◌, Option, none, some, List, [], ◌∷◌, ◌++◌, map,
  arith, ltb, leb, ◌==◌, if◌then◌else◌, ltb→lt, lt→ltb, le→ltb, leb→le, ==_iff, tests, Bool-cases,
  Option-cases, str_eq, str_eq_refl, str_eq_sound, str_eq_iff, length, length-append, get_or, take,
  drop, replicate, length-take, take-append, length-replicate, All, get_or-append_left, get_elem?,
  set_elem, length-set_elem, get_elem?-set_elem, get_elem?-set_elem_ne, get_elem?-below,
  All-get_elem?, get_elem?-lt, take_all, if_true, if_false, ℤ, pos, negsuc, is_negative, rounds,
}
use comm_networks_workshop.Run.{
  Run, ◌>>=◌, ◌>>◌, require, in_bounds, bind-bind, Ensures, Ensures-bind, Ensures-after, bind-ok,
  in_bounds-ok, if-Ensures, Ensures-weaken, if-Ensures_known, Ensures-ok, ok, fault, out_of_fuel,
  returns, faults, stops,
}
use comm_networks_workshop.Wire.{
  hex_digit, digit_value, hex_digits, FitsHex, fits_hex, print_hex_from, print_hex, scan_digits,
  scan_hex, scan_char, htonl, Gid, Dest, gid_to_wire_gid, wire_word, wire_gid_to_gid, print_dest,
  scan_dest,
}
use comm_networks_workshop.Conn.{
  Resource, QpState, Qp, Verbs, Held, new_qp, init_steps, number_of, released, acquire_all,
  finish_init, pp_init_ctx, release_all, to_rtr, to_rts, pp_connect_ctx, close_steps, pp_close_ctx,
  pp_post_recv, ctx_block, ctx_buf, device, channel, pd, mr, cq, qp, reset, init, rtr, rts,
}
use comm_networks_workshop.Handshake.{
  sizeof_msg, Address, Net, Exchanged, find_socket, text_of, no_exchange, message, done_text,
  client_result, client_talk, pp_client_exch_dest, server_answer, server_talk, server_accept,
  pp_server_exch_dest,
}

-- One option of getopt_long, with the number that strtol reads from its argument. `unknown` is
-- anything else.
pub data Opt : Type 0 where
  port_opt ib_port_opt size_opt mtu_opt rx_depth_opt iters_opt sl_opt gid_idx_opt : ℤ → Opt
  ib_dev_opt : List ℕ → Opt
  events_opt unknown : Opt

-- The variables that the options set; `servername` is `none` for NULL.
pub record Settings : Type 0 where
  pub servername : Option (List ℕ)
  pub port : ℤ
  pub ib_devname : Option (List ℕ)
  pub ib_port : ℤ
  pub size : ℤ
  pub mtu : Option ℕ
  pub rx_depth : ℤ
  pub iters : ℤ
  pub sl : ℤ
  pub use_event : ℕ
  pub gidx : ℤ

-- The conversions of a long to an int and to an unsigned: the low 32 bits.
unfoldable pub to_int : ℤ → ℤ
to_int (pos n) =
    if ltb (n % 2 ^ 32) (2 ^ 31) then pos (n % 2 ^ 32) else negsuc (2 ^ 32 - 1 - n % 2 ^ 32)
to_int (negsuc n) =
    if ltb (n % 2 ^ 32) (2 ^ 31) then negsuc (n % 2 ^ 32) else pos (2 ^ 32 - 1 - n % 2 ^ 32)

unfoldable pub to_unsigned : ℤ → ℤ
to_unsigned (pos n) = pos (n % 2 ^ 32)
to_unsigned (negsuc n) = pos (2 ^ 32 - 1 - n % 2 ^ 32)

-- enum ibv_mtu numbers the sizes from 1.
unfoldable pub pp_mtu_to_enum : ℤ → Option ℕ
pp_mtu_to_enum (negsuc n) = none
pp_mtu_to_enum (pos mtu) =
    if mtu == 256
    then some 1
    else if mtu == 512
    then some 2
    else if mtu == 1024
    then some 3
    else if mtu == 2048
    then some 4
    else if mtu == 4096
    then some 5
    else none

unfoldable pub out_of_range : ℤ → Bool
out_of_range (negsuc n) = true
out_of_range (pos n) = ltb 65535 n

-- `enum_signed`: does the compiler give `enum ibv_mtu` a signed type? If not, `mtu < 0` is never
-- true, and the invalid value is kept.
module _ (enum_signed : Bool) where
  unfoldable pub set_mtu : Option ℕ → Settings → Option Settings
  set_mtu (some mtu) s = some (record s { mtu = some mtu })
  set_mtu none s = if enum_signed then none else some (record s { mtu = none })

  -- The switch on one option; `none` is the usage text and the return of 1.
  unfoldable pub apply_option : Opt → Settings → Option Settings
  apply_option (port_opt n) s =
      if out_of_range (to_int n) then none else some (record s { port = to_int n })
  apply_option (ib_dev_opt name) s = some (record s { ib_devname = some name })
  apply_option (ib_port_opt n) s =
      if is_negative (to_int n) then none else some (record s { ib_port = to_int n })
  apply_option (size_opt n) s = some (record s { size = to_unsigned n })
  apply_option (mtu_opt n) s = set_mtu (pp_mtu_to_enum (to_int n)) s
  apply_option (rx_depth_opt n) s = some (record s { rx_depth = to_int n })
  apply_option (iters_opt n) s = some (record s { iters = to_int n })
  apply_option (sl_opt n) s = some (record s { sl = to_int n })
  apply_option events_opt s = some (record s { use_event = s.use_event + 1 })
  apply_option (gid_idx_opt n) s = some (record s { gidx = to_int n })
  apply_option unknown s = none

  unfoldable pub apply_options : List Opt → Settings → Option Settings
  apply_options [] s = some s
  apply_options (o ∷ os) s = elim (apply_option o s) [ none ↦ none | some t ↦ apply_options os t ]

-- What is left behind the options: one name is the server's.
unfoldable pub take_name : List (List ℕ) → Settings → Option Settings
take_name [] s = some s
take_name (name ∷ []) s = some (record s { servername = some name })
take_name (name ∷ more ∷ names) s = none

-- The address that the caller gives; the other variables as they are initialised.
unfoldable pub first_settings : Option (List ℕ) → ℤ → ℤ → Settings
first_settings servername port size = record {
  servername = servername;
  port = port;
  ib_devname = none;
  ib_port = pos 1;
  size = size;
  mtu = some 3;
  rx_depth = pos 1;
  iters = pos 1000;
  sl = pos 0;
  use_event = 0;
  gidx = negsuc 0;
}

-- The answers of the libraries: the device names, the room in the receive queue, the port's local
-- identifier and whether its link layer is InfiniBand, the gid of an index, and lrand48.
pub record Answers : Type 0 where
  pub verbs : Verbs
  pub net : Net
  pub dev_list : Option (List (List ℕ))
  pub recv_room : ℕ
  pub notifies : Bool
  pub port_info : Option (ℕ × Bool)
  pub query_gid : Option Gid
  pub qp_num : ℕ
  pub lrand48 : ℕ

-- The return of 1, or of 0 with the context: its queue pair, the receive requests posted, and the
-- other side's address.
pub data Opened : Type 0 where
  failed : Opened
  opened : Qp → ℕ → Dest → Opened

-- The first device, or the one with the given name.
unfoldable pub has_device : Option (List ℕ) → List (List ℕ) → Bool
has_device none [] = false
has_device none (d ∷ ds) = true
has_device (some name) [] = false
has_device (some name) (d ∷ ds) = str_eq d name || has_device (some name) ds

-- The client's end: the exchange, then the connection.
unfoldable pub connect_to : Answers → Dest → Qp → ℕ → Option Dest → Opened
connect_to a my_dest q routs none = failed
connect_to a my_dest q routs (some rem) =
    let (q', r) = pp_connect_ctx a.verbs my_dest.psn rem q in
    if r == 0 then opened q' routs rem else failed

unfoldable pub accept_from : Qp → ℕ → Option Dest → Opened
accept_from q routs none = failed
accept_from q routs (some rem) = opened q routs rem

unfoldable pub exchange_dest : Answers → Option (List ℕ) → Dest → Qp → ℕ → Run Opened
exchange_dest a none my_dest q routs = do
  (e, q') ← pp_server_exch_dest a.verbs a.net my_dest q
  ok (accept_from q' routs e.rem_dest)
exchange_dest a (some name) my_dest q routs = do
  e ← pp_client_exch_dest a.net my_dest
  ok (connect_to a my_dest q routs e.rem_dest)

-- `ibv_query_gid` or zeros.
unfoldable pub my_gid : Answers → ℤ → Option Gid
my_gid a (negsuc n) = some (record { raw0 = 0; raw4 = 0; raw8 = 0; raw12 = 0 })
my_gid a (pos n) = a.query_gid

unfoldable pub local_dest : Answers → Settings → Option Dest
local_dest a s = elim a.port_info [
  | none ↦ none
  | some info ↦ if info.1 && (info.0 == 0) then none else elim (my_gid a s.gidx) [
    | none ↦ none
    | some g ↦ some (record { lid = info.0; qpn = a.qp_num; psn = a.lrand48 % 2 ^ 24; gid = g })
  ]
]

-- From the receive requests on.
unfoldable pub with_dest : Answers → Settings → Qp → ℕ → Option Dest → Run Opened
with_dest a s q routs none = ok failed
with_dest a s q routs (some my_dest) = exchange_dest a s.servername my_dest q routs

unfoldable pub with_context : Answers → Settings → Option Qp → Run Opened
with_context a s none = ok failed
with_context a s (some q) =
    let routs = pp_post_recv (rounds s.rx_depth) a.recv_room in
    let go = with_dest a s q routs (local_dest a s) in
    if ltb routs (rounds s.rx_depth) || (not (s.use_event == 0) && not a.notifies)
    then ok failed
    else go

unfoldable pub with_settings : Answers → Settings → Run Opened
with_settings a s = elim a.dev_list [
  | none ↦ ok failed
  | some devices ↦
      if has_device s.ib_devname devices
      then with_context a s (pp_init_ctx a.verbs (not (s.use_event == 0))).ctx
      else ok failed
]

unfoldable pub configure : Bool → List Opt → List (List ℕ) → Settings → Option Settings
configure enum_signed opts names s = elim (apply_options enum_signed opts s) [
  | none ↦ none
  | some t ↦ take_name names t
]

unfoldable pub start_with : Answers → Option Settings → Run Opened
start_with a none = ok failed
start_with a (some s) = with_settings a s

unfoldable pub orig_main :
    Bool → Answers → List Opt → List (List ℕ) → Option (List ℕ) → ℤ → ℤ → Run Opened
orig_main enum_signed a opts names servername port size =
    start_with a (configure enum_signed opts names (first_settings servername port size))
