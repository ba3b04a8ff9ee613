-- ===== src/Handshake.antt =====
-- The exchange of addresses over a TCP socket in Ex4/kv_server.c: `pp_client_exch_dest` and
-- `pp_server_exch_dest`. What the socket calls return is a parameter; the functions say what was
-- sent and how many sockets were opened and closed.
pub mod Sockets
pub mod Agree
use comm_networks_workshop.Base.{
  ℕ, zero, suc, ◌+◌, ◌-◌, ◌*◌, ◌/◌, ◌%◌, ◌^◌, ◌≤◌, ◌<◌, ◌≡◌, refl, sym, ap, ◌∙◌, fun_ext, ◌≢◌, ◌↔◌,
  ◌⊎◌, inl, inr, Bool, true, false, not, ◌&&◌, ◌||◌, Option, none, some, List, [], ◌∷◌, ◌++◌, map,
  arith, ltb, leb, ◌==◌, if◌then◌else◌, ltb→lt, lt→ltb, le→ltb, leb→le, ==_iff, tests, Bool-cases,
  Option-cases, str_eq, str_eq_refl, str_eq_sound, str_eq_iff, length, length-append, get_or, take,
  drop, replicate, length-take, take-append, length-replicate, All, get_or-append_left, get_elem?,
  set_elem, length-set_elem, get_elem?-set_elem, get_elem?-set_elem_ne, get_elem?-below,
  All-get_elem?,
}
use comm_networks_workshop.Run.{
  Run, ◌>>=◌, ◌>>◌, require, in_bounds, Ensures, Ensures-bind, Ensures-after, ok, fault,
  out_of_fuel, returns, faults, stops,
}
use comm_networks_workshop.Wire.{
  hex_digit, digit_value, hex_digits, FitsHex, fits_hex, print_hex_from, print_hex, scan_digits,
  scan_hex, scan_char, htonl, Gid, Dest, gid_to_wire_gid, wire_word, wire_gid_to_gid, print_dest,
  scan_dest,
}
use comm_networks_workshop.Conn.{
  Resource, QpState, Qp, Verbs, Held, new_qp, init_steps, acquire_all, finish_init, pp_init_ctx,
  release_all, to_rtr, to_rts, pp_connect_ctx, close_steps, pp_close_ctx, pp_post_recv, ctx_block,
  ctx_buf, device, channel, pd, mr, cq, qp, reset, init, rtr, rts,
}

-- sizeof "0000:000000:000000:00000000000000000000000000000000"
abbrev pub sizeof_msg : ℕ
sizeof_msg = 52

-- One address of getaddrinfo: does socket succeed, and connect or bind.
pub record Address : Type 0 where
  pub opens : Bool
  pub reaches : Bool

-- `received` is what the read delivers, `written` what the write accepts.
pub record Net : Type 0 where
  pub service_allocated : Bool
  pub resolved : Bool
  pub addresses : List Address
  pub accepted : Bool
  pub received : List ℕ
  pub written : ℕ
  pub dest_allocated : Bool

-- `rem_dest` is what the function returns, `none` for NULL.
pub record Exchanged : Type 0 where
  pub rem_dest : Option Dest
  pub sent : List (List ℕ)
  pub opened : ℕ
  pub closed : ℕ

-- The loop over the addresses: sockets opened and closed, and whether one is left open.
unfoldable pub find_socket : List Address → ℕ → ℕ × ℕ × Bool
find_socket [] n = (n, n, false)
find_socket (t ∷ ts) n =
    let rest = find_socket ts n in
    let rest' = find_socket ts (n + 1) in
    if t.opens then (if t.reaches then (n + 1, n, true) else rest') else rest

-- The bytes of an array up to its NUL; without one the read goes past the array.
unfoldable pub text_of : List ℕ → Run (List ℕ)
text_of [] = fault
text_of (zero ∷ cs) = ok []
text_of (suc c ∷ cs) = do t ← text_of cs; ok (suc c ∷ t)

abbrev pub no_exchange : Exchanged
no_exchange = record { rem_dest = none; sent = []; opened = 0; closed = 0 }

-- The message that sprintf leaves in `msg`.
unfoldable pub message : Dest → Run (List ℕ)
message d = do require (leb (length (print_dest d) + 1) sizeof_msg); ok (print_dest d ++ 0 ∷ [])

-- The text "done" with its NUL.
abbrev pub done_text : List ℕ
done_text = 100 ∷ 111 ∷ 110 ∷ 101 ∷ 0 ∷ []

-- The end of `pp_client_exch_dest`, after the address of the server has arrived.
unfoldable pub client_result : Net → List ℕ → ℕ → ℕ → Run Exchanged
client_result k msg opened closed =
    let e : Exchanged = record {
      rem_dest = none;
      sent = msg ∷ done_text ∷ [];
      opened = opened;
      closed = closed + 1;
    } in
    if k.dest_allocated
    then (do text ← text_of k.received; d ← scan_dest text; ok (record e { rem_dest = some d }))
    else ok e

unfoldable pub client_talk : Net → Dest → ℕ × ℕ × Bool → Run Exchanged
client_talk k my_dest (opened, closed, false) =
    ok (record no_exchange { opened = opened; closed = closed })
client_talk k my_dest (opened, closed, true) = do
  msg ← message my_dest
  let e : Exchanged = record {
    rem_dest = none;
    sent = msg ∷ [];
    opened = opened;
    closed = closed + 1;
  }
  if k.written == sizeof_msg
      then (if length k.received == sizeof_msg then client_result k msg opened closed else ok e)
      else ok e

unfoldable pub pp_client_exch_dest : Net → Dest → Run Exchanged
pp_client_exch_dest k my_dest =
    if k.service_allocated && k.resolved
    then client_talk k my_dest (find_socket k.addresses 0)
    else ok no_exchange

-- The answer of the server once its queue pair is connected; the number is what `pp_connect_ctx`
-- returned.
unfoldable pub server_answer : Net → Dest → Dest → Qp × ℕ → ℕ → ℕ → Run (Exchanged × Qp)
server_answer k my_dest rem (q, failed) opened closed =
    let e : Exchanged = record {
      rem_dest = none;
      sent = [];
      opened = opened;
      closed = closed + 1;
    } in
    if failed == 0
    then (do
      msg ← message my_dest
      if k.written == sizeof_msg
          then ok (record e { rem_dest = some rem; sent = msg ∷ [] }, q)
          else ok (record e { sent = msg ∷ [] }, q))
    else ok (e, q)

-- From the accepted connection on; `closed` counts the listening socket.
unfoldable pub server_talk : Verbs → Net → Dest → Qp → ℕ → ℕ → Run (Exchanged × Qp)
server_talk v k my_dest q opened closed =
    let e : Exchanged = record {
      rem_dest = none;
      sent = [];
      opened = opened;
      closed = closed + 1;
    } in
    if (length k.received == sizeof_msg) && k.dest_allocated
    then (do
      text ← text_of k.received
      rem ← scan_dest text
      server_answer k my_dest rem (pp_connect_ctx v my_dest.psn rem q) opened closed)
    else ok (e, q)

unfoldable pub server_accept : Verbs → Net → Dest → Qp → ℕ × ℕ × Bool → Run (Exchanged × Qp)
server_accept v k my_dest q (opened, closed, false) =
    ok (record no_exchange { opened = opened; closed = closed }, q)
server_accept v k my_dest q (opened, closed, true) =
    if k.accepted
    then server_talk v k my_dest q (opened + 1) (closed + 1)
    else ok (record no_exchange { opened = opened; closed = closed + 1 }, q)

unfoldable pub pp_server_exch_dest : Verbs → Net → Dest → Qp → Run (Exchanged × Qp)
pp_server_exch_dest v k my_dest q =
    if k.service_allocated && k.resolved
    then server_accept v k my_dest q (find_socket k.addresses 0)
    else ok (no_exchange, q)
