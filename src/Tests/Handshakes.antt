-- ===== src/Tests/Handshakes.antt =====
-- Examples for the address exchange and the connection context.
use comm_networks_workshop.Base.{
  ℕ, ◌+◌, ◌<◌, ◌≡◌, refl, ◌↔◌, true, false, none, some, List, [], ◌∷◌, arith, length,
}
use comm_networks_workshop.Run.{Ensures, ok}
use comm_networks_workshop.Wire.{Gid, Dest, print_dest, scan_dest}
use comm_networks_workshop.Wire.RoundTrip.{IsGid, IsDest, scan_dest-print_dest, length-print_dest}
use comm_networks_workshop.Conn.{
  Qp, Verbs, new_qp, acquire_all, finish_init, pp_init_ctx, pp_connect_ctx, close_steps,
  pp_close_ctx, mr, init,
}
use comm_networks_workshop.Conn.Life.{pp_init_ctx-held, pp_close_ctx-pp_init_ctx, pp_init_ctx_leaks}
use comm_networks_workshop.Handshake.{
  Net, Exchanged, find_socket, done_text, pp_client_exch_dest, pp_server_exch_dest,
}
use comm_networks_workshop.Handshake.Sockets.{BalancedQp, pp_server_exch_dest-Balanced}
use comm_networks_workshop.Handshake.Agree.{Reaches, Connected, wire, pp_exch_dest-Connected}

abbrev a_gid : Gid
a_gid = record { raw0 = 33022; raw4 = 0; raw8 = 3735928559; raw12 = 1 }

abbrev one_dest : Dest
one_dest = record { lid = 5; qpn = 77; psn = 99; gid = a_gid }

abbrev other_dest : Dest
other_dest = record { lid = 6; qpn = 78; psn = 16000000; gid = a_gid }

a_gid-IsGid : IsGid a_gid
a_gid-IsGid = record {
  small0 = omega arith;
  small4 = omega arith;
  small8 = omega arith;
  small12 = omega arith;
}

one_dest-IsDest : IsDest one_dest
one_dest-IsDest = record {
  lid_small = omega arith;
  qpn_small = omega arith;
  psn_small = omega arith;
  gid_is = a_gid-IsGid;
}

other_dest-IsDest : IsDest other_dest
other_dest-IsDest = record {
  lid_small = omega arith;
  qpn_small = omega arith;
  psn_small = omega arith;
  gid_is = a_gid-IsGid;
}

abbrev all_work : Verbs
all_work = record { acquires = λ r. true; releases = λ r. true; modifies = λ s. true }

abbrev net : List ℕ → Net
net received = record {
  service_allocated = true;
  resolved = true;
  addresses = record { opens = true; reaches = true } ∷ [];
  accepted = true;
  received = received;
  written = 52;
  dest_allocated = true;
}

net-Reaches : (d : Dest) → Reaches (net (wire d)) (wire d)
unfolding find_socket
net-Reaches d = record {
  service = refl;
  resolves = refl;
  socket = refl;
  accepts = refl;
  receives = refl;
  writes = refl;
  allocates = refl;
}

scan_dest-print_dest_example : scan_dest (print_dest one_dest) ≡ ok one_dest
scan_dest-print_dest_example = scan_dest-print_dest one_dest one_dest-IsDest

length-print_dest_example : length (print_dest one_dest) + 1 ≡ 52
length-print_dest_example = length-print_dest one_dest one_dest-IsDest

pp_server_exch_dest-Balanced_example :
    Ensures BalancedQp (pp_server_exch_dest all_work (net []) one_dest new_qp)
pp_server_exch_dest-Balanced_example =
    pp_server_exch_dest-Balanced all_work (net []) one_dest new_qp

pp_exch_dest-Connected_example :
    (es ec : Exchanged) × (qs' : Qp) × (qc' : Qp) × (pp_server_exch_dest all_work
        (net (wire other_dest))
        one_dest
        new_qp
      ≡ ok (es, qs'))
    × (pp_client_exch_dest (net (wire one_dest)) other_dest ≡ ok ec)
    × (es.sent ≡ wire one_dest ∷ [])
    × (ec.sent ≡ wire other_dest ∷ done_text ∷ [])
    × (es.rem_dest ≡ some other_dest)
    × (ec.rem_dest ≡ some one_dest)
    × (pp_connect_ctx all_work other_dest.psn one_dest new_qp ≡ (qc', 0))
    × Connected qs' qc' one_dest other_dest
pp_exch_dest-Connected_example =
    pp_exch_dest-Connected all_work all_work (net (wire other_dest)) (net (wire one_dest)) one_dest
      other_dest new_qp new_qp one_dest-IsDest other_dest-IsDest (net-Reaches other_dest)
      (net-Reaches one_dest) refl refl refl refl

-- The registration of the buffer fails.
abbrev no_mr : Verbs
no_mr = record {
  acquires = λ r. elim r [ mr ↦ false | _ ↦ true ];
  releases = λ r. true;
  modifies = λ s. true;
}

init_ok : (pp_init_ctx all_work true).ctx ≡ some (record new_qp { qp_state = init })
unfolding pp_init_ctx acquire_all finish_init
init_ok = refl

init_failed : (pp_init_ctx no_mr true).ctx ≡ none
unfolding pp_init_ctx acquire_all finish_init
init_failed = refl

pp_init_ctx-held_example : (init ≡ init) × ((pp_init_ctx all_work true).held ≡ close_steps true)
pp_init_ctx-held_example =
    pp_init_ctx-held all_work true (record new_qp { qp_state = init }) init_ok

pp_close_ctx-pp_init_ctx_example :
    ((pp_close_ctx no_mr true (pp_init_ctx all_work true).held).1 ≡ 0)
    ↔ ((pp_close_ctx no_mr true (pp_init_ctx all_work true).held).0 ≡ [])
pp_close_ctx-pp_init_ctx_example =
    pp_close_ctx-pp_init_ctx all_work no_mr true (record new_qp { qp_state = init }) init_ok

pp_init_ctx_leaks_example : 0 < length (pp_init_ctx no_mr true).held
pp_init_ctx_leaks_example = pp_init_ctx_leaks no_mr true refl init_failed
