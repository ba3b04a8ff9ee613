-- ===== src/Tests/Setups.antt =====
-- Examples for the set-up of a program.
use comm_networks_workshop.Base.{
  ℕ, ◌%◌, ◌^◌, ◌≡◌, refl, true, false, none, some, List, [], ◌∷◌, pos, rounds,
}
use comm_networks_workshop.Run.{ok}
use comm_networks_workshop.Wire.{
  hex_digit, digit_value, hex_digits, fits_hex, print_hex_from, print_hex, scan_digits, scan_hex,
  scan_char, htonl, Gid, Dest, gid_to_wire_gid, wire_word, wire_gid_to_gid, print_dest, scan_dest,
}
use comm_networks_workshop.Conn.{
  Qp, acquire_all, finish_init, pp_init_ctx, to_rtr, to_rts, pp_connect_ctx, pp_post_recv, rts,
}
use comm_networks_workshop.Handshake.{
  find_socket, text_of, message, server_answer, server_talk, server_accept, pp_server_exch_dest,
}
use comm_networks_workshop.Handshake.Agree.{wire}
use comm_networks_workshop.Setup.{
  Opt, Settings, to_int, out_of_range, apply_option, apply_options, take_name, first_settings,
  Answers, has_device, accept_from, exchange_dest, my_gid, local_dest, with_dest, with_context,
  with_settings, configure, start_with, orig_main, port_opt, rx_depth_opt, opened,
}
use comm_networks_workshop.Setup.Connected.{Linked, orig_main-Linked}

abbrev a_gid : Gid
a_gid = record { raw0 = 0; raw4 = 0; raw8 = 0; raw12 = 0 }

abbrev remote : Dest
remote = record { lid = 6; qpn = 78; psn = 16000000; gid = a_gid }

abbrev remote_message : List ℕ
remote_message = wire remote

abbrev answers : Answers
answers = record {
  verbs = record { acquires = λ r. true; releases = λ r. true; modifies = λ s. true };
  net = record {
    service_allocated = true;
    resolved = true;
    addresses = record { opens = true; reaches = true } ∷ [];
    accepted = true;
    received = remote_message;
    written = 52;
    dest_allocated = true;
  };
  dev_list = some ((109 ∷ 108 ∷ []) ∷ []);
  recv_room = 16;
  notifies = true;
  port_info = some (5, true);
  query_gid = none;
  qp_num = 77;
  lrand48 = 99;
}

-- A receive depth of 4, for a server.
abbrev opts : List Opt
opts = rx_depth_opt (pos 4) ∷ port_opt (pos 12345) ∷ []

abbrev settings : Settings
settings = record (first_settings none (pos 12345) (pos 4096)) { rx_depth = pos 4 }

configured : configure true opts [] (first_settings none (pos 12345) (pos 4096)) ≡ some settings
unfolding configure apply_options apply_option to_int out_of_range take_name first_settings
configured = refl

abbrev ready : Qp
ready = record {
  qp_state = rts;
  dest_qp_num = 78;
  rq_psn = 16000000;
  sq_psn = 99;
  dlid = 6;
  is_global = false;
}

opens : orig_main true answers opts [] none (pos 12345) (pos 4096) ≡ ok (opened ready 4 remote)
unfolding orig_main start_with configure apply_options apply_option to_int out_of_range take_name
    first_settings with_settings has_device with_context pp_init_ctx acquire_all finish_init
    pp_post_recv with_dest local_dest my_gid exchange_dest accept_from pp_server_exch_dest
    server_accept find_socket server_talk text_of scan_dest scan_hex scan_digits digit_value
    scan_char wire_gid_to_gid wire_word htonl server_answer pp_connect_ctx to_rtr to_rts message
    print_dest print_hex print_hex_from hex_digits hex_digit fits_hex gid_to_wire_gid
opens = refl

orig_main-Linked_example : Linked (99 % 2 ^ 24) remote ready × (4 ≡ rounds settings.rx_depth)
orig_main-Linked_example =
    orig_main-Linked true answers opts [] none (pos 12345) (pos 4096) settings ready 4 remote
      configured opens
