-- ===== src/Setup/Connected.antt =====
-- A context that `orig_main` of Ex4/kv_server.c hands out is connected.
use mathlib.Core.Path.{subst}
use comm_networks_workshop.Base.{
  ℕ, zero, suc, ◌+◌, ◌%◌, ◌^◌, ◌≤◌, ◌≡◌, refl, inl, inr, Bool, true, false, not, ◌&&◌, Option, none,
  some, List, arith, ltb, ◌==◌, Bool-cases, Option-cases, length, ℤ, rounds,
}
use comm_networks_workshop.Run.{
  Ensures, Ensures-bind, Ensures-after, if-Ensures, Ensures-ok, ok, returns,
}
use comm_networks_workshop.Wire.{Dest, scan_dest}
use comm_networks_workshop.Conn.{
  Qp, Verbs, pp_init_ctx, to_rtr, to_rts, pp_connect_ctx, pp_post_recv, rtr, rts,
}
use comm_networks_workshop.Handshake.{
  sizeof_msg, Net, Exchanged, find_socket, text_of, message, pp_client_exch_dest, server_answer,
  server_talk, server_accept, pp_server_exch_dest,
}
use comm_networks_workshop.Setup.{
  Opt, Settings, first_settings, Answers, Opened, has_device, connect_to, accept_from,
  exchange_dest, my_gid, local_dest, with_dest, with_context, with_settings, configure, start_with,
  orig_main, failed, opened,
}

-- Ready to send to `rem`, with `my_psn` as the first packet number.
abbrev pub Linked : ℕ → Dest → Qp → Type 0
Linked my_psn rem q =
    (q.qp_state ≡ rts)
    × (q.dest_qp_num ≡ rem.qpn)
    × (q.rq_psn ≡ rem.psn)
    × (q.dlid ≡ rem.lid)
    × (q.sq_psn ≡ my_psn)

to_rts-Linked :
    (v : Verbs) (my_psn : ℕ) (rem : Dest) (q : Qp)
    → q.dest_qp_num ≡ rem.qpn
    → q.rq_psn ≡ rem.psn
    → q.dlid ≡ rem.lid
    → (to_rts v my_psn q).1 ≡ 0
    → Linked my_psn rem (to_rts v my_psn q).0
unfolding to_rts
to_rts-Linked v my_psn rem q n s l h = elim (Bool-cases (v.modifies rts)) [
  | inl good ↦ rw (to_rts, good) (refl, n, s, l, refl)
  | inr bad ↦ absurd (omega (arith, rw (to_rts, bad) at h))
]

-- `pp_connect_ctx` returns 0 only if it has connected the queue pair.
pub pp_connect_ctx-Linked :
    (v : Verbs) (my_psn : ℕ) (rem : Dest) (q : Qp)
    → (pp_connect_ctx v my_psn rem q).1 ≡ 0
    → Linked my_psn rem (pp_connect_ctx v my_psn rem q).0
unfolding pp_connect_ctx to_rtr
pp_connect_ctx-Linked v my_psn rem q h = elim (Bool-cases (v.modifies rtr)) [
  | inl good ↦
      rw (pp_connect_ctx, to_rtr, good)
        (to_rts-Linked v my_psn rem _ refl refl refl (rw (pp_connect_ctx, to_rtr, good) at h))
  | inr bad ↦ absurd (omega (arith, rw (pp_connect_ctx, to_rtr, bad) at h))
]

abbrev LinkedTo : ℕ → Option Dest → Qp → Type 0
LinkedTo my_psn none q = Unit
LinkedTo my_psn (some rem) q = Linked my_psn rem q

abbrev Accepted : ℕ → Exchanged × Qp → Type 0
Accepted my_psn x = LinkedTo my_psn x.0.rem_dest x.1

server_answer-Accepted :
    (k : Net) (my_dest rem : Dest) (x : Qp × ℕ) (o c : ℕ)
    → (x.1 ≡ 0 → Linked my_dest.psn rem x.0)
    → Ensures (Accepted my_dest.psn) (server_answer k my_dest rem x o c)
unfolding server_answer
server_answer-Accepted k my_dest rem (q, status) o c h = elim (Bool-cases (status == 0)) [
  | inr bad ↦ rw (server_answer, bad) (returns tt)
  | inl good ↦
      rw (server_answer, good)
        (Ensures-after (message my_dest)
          λ msg. if-Ensures (k.written == sizeof_msg) (returns (h (ground arith))) (returns tt))
]

server_talk-Accepted :
    (v : Verbs) (k : Net) (my_dest : Dest) (q : Qp) (o c : ℕ)
    → Ensures (Accepted my_dest.psn) (server_talk v k my_dest q o c)
unfolding server_talk
server_talk-Accepted v k my_dest q o c =
    if-Ensures ((length k.received == sizeof_msg) && k.dest_allocated)
      (Ensures-after (text_of k.received) λ t. Ensures-after (scan_dest t) λ rem.
        server_answer-Accepted k my_dest rem (pp_connect_ctx v my_dest.psn rem q) o c
          (pp_connect_ctx-Linked v my_dest.psn rem q))
      (returns tt)

server_accept-Accepted :
    (v : Verbs) (k : Net) (my_dest : Dest) (q : Qp) (x : ℕ × ℕ × Bool)
    → Ensures (Accepted my_dest.psn) (server_accept v k my_dest q x)
unfolding server_accept
server_accept-Accepted v k my_dest q (o, c, false) = returns tt
server_accept-Accepted v k my_dest q (o, c, true) =
    if-Ensures k.accepted (server_talk-Accepted v k my_dest q (o + 1) (c + 1)) (returns tt)

pp_server_exch_dest-Accepted :
    (v : Verbs) (k : Net) (my_dest : Dest) (q : Qp)
    → Ensures (Accepted my_dest.psn) (pp_server_exch_dest v k my_dest q)
unfolding pp_server_exch_dest
pp_server_exch_dest-Accepted v k my_dest q =
    if-Ensures (k.service_allocated && k.resolved)
      (server_accept-Accepted v k my_dest q (find_socket k.addresses 0)) (returns tt)

-- What `orig_main` promises of a context: it is connected, under a 24-bit packet number of its own,
-- and the receive requests are posted.
abbrev pub Ready : ℕ → ℕ → Opened → Type 0
Ready my_psn n failed = Unit
Ready my_psn n (opened q routs rem) = Linked my_psn rem q × (routs ≡ n)

accept_from-Ready :
    (my_psn n : ℕ) (q : Qp) (o : Option Dest)
    → LinkedTo my_psn o q
    → Ready my_psn n (accept_from q n o)
unfolding accept_from
accept_from-Ready my_psn n q none h = tt
accept_from-Ready my_psn n q (some rem) h = (h, refl)

connect_to-Ready :
    (a : Answers) (my_dest : Dest) (q : Qp) (n : ℕ) (o : Option Dest)
    → Ready my_dest.psn n (connect_to a my_dest q n o)
unfolding connect_to
connect_to-Ready a my_dest q n none = tt
connect_to-Ready a my_dest q n (some rem) =
    elim (Bool-cases ((pp_connect_ctx a.verbs my_dest.psn rem q).1 == 0)) [
      | inl good ↦
          rw (connect_to, good)
            (pp_connect_ctx-Linked a.verbs my_dest.psn rem q (ground arith), refl)
      | inr bad ↦ rw (connect_to, bad) tt
    ]

exchange_dest-Ready :
    (a : Answers) (name : Option (List ℕ)) (my_dest : Dest) (q : Qp) (n : ℕ)
    → Ensures (Ready my_dest.psn n) (exchange_dest a name my_dest q n)
unfolding exchange_dest
exchange_dest-Ready a none my_dest q n =
    Ensures-bind (pp_server_exch_dest-Accepted a.verbs a.net my_dest q)
      λ x h. returns (accept_from-Ready my_dest.psn n x.1 x.0.rem_dest h)
exchange_dest-Ready a (some name) my_dest q n =
    Ensures-after (pp_client_exch_dest a.net my_dest)
      λ e. returns (connect_to-Ready a my_dest q n e.rem_dest)

-- The own address has the packet number that lrand48 gave.
abbrev Numbered : ℕ → Option Dest → Type 0
Numbered psn none = Unit
Numbered psn (some d) = d.psn ≡ psn

local_dest-Numbered : (a : Answers) (s : Settings) → Numbered (a.lrand48 % 2 ^ 24) (local_dest a s)
unfolding local_dest
local_dest-Numbered a s = elim (Option-cases a.port_info) [
  | inl down ↦ rw (local_dest, down) tt
  | inr (info, up) ↦ elim (Bool-cases (info.1 && (info.0 == 0))) [
    | inl no_lid ↦ rw (local_dest, up, no_lid) tt
    | inr lid ↦ elim (Option-cases (my_gid a s.gidx)) [
      | inl no_gid ↦ rw (local_dest, up, lid, no_gid) tt
      | inr (g, gid) ↦ rw (local_dest, up, lid, gid) refl
    ]
  ]
]

with_dest-Ready :
    (a : Answers) (s : Settings) (q : Qp) (n : ℕ) (o : Option Dest) (psn : ℕ)
    → Numbered psn o
    → Ensures (Ready psn n) (with_dest a s q n o)
unfolding with_dest
with_dest-Ready a s q n none psn h = returns tt
with_dest-Ready a s q n (some d) psn h = rw (← h) (exchange_dest-Ready a s.servername d q n)

pp_post_recv-le : (n room : ℕ) → pp_post_recv n room ≤ n
unfolding pp_post_recv
pp_post_recv-le zero room = omega arith
pp_post_recv-le (suc n) zero = omega arith
pp_post_recv-le (suc n) (suc room) = omega (arith, pp_post_recv-le n room)

with_context-Ready :
    (a : Answers) (s : Settings) (o : Option Qp)
    → Ensures (Ready (a.lrand48 % 2 ^ 24) (rounds s.rx_depth)) (with_context a s o)
unfolding with_context
with_context-Ready a s none = returns tt
with_context-Ready a s (some q) =
    let n : ℕ = rounds s.rx_depth in
    let psn : ℕ = a.lrand48 % 2 ^ 24 in
    let k : ℕ = pp_post_recv n a.recv_room in
    let le : k ≤ n = pp_post_recv-le n a.recv_room in
    let rest = with_dest-Ready a s q k (local_dest a s) psn (local_dest-Numbered a s) in
    elim (Bool-cases (ltb k n)) [
      | inl few ↦ rw (with_context, few) (returns tt)
      | inr enough ↦
          let e : k ≡ n = ground arith in
          let rest' : Ensures (Ready psn n) (with_dest a s q k (local_dest a s)) =
            subst (λ m. Ensures (Ready psn m) (with_dest a s q k (local_dest a s))) e rest in
          rw (with_context, enough)
            (if-Ensures (not (s.use_event == 0) && not a.notifies) (returns tt) rest')
    ]

with_settings-Ready :
    (a : Answers) (s : Settings)
    → Ensures (Ready (a.lrand48 % 2 ^ 24) (rounds s.rx_depth)) (with_settings a s)
unfolding with_settings
with_settings-Ready a s = elim (Option-cases a.dev_list) [
  | inl no_list ↦ rw (with_settings, no_list) (returns tt)
  | inr (devices, list) ↦
      rw (with_settings, list)
        (if-Ensures (has_device s.ib_devname devices)
          (with_context-Ready a s (pp_init_ctx a.verbs (not (s.use_event == 0))).ctx) (returns tt))
]

-- When `orig_main` returns 0 with a context, as a client or as a server, the queue pair is ready to
-- send to the address that it returns, it starts with the 24-bit packet number drawn for it and
-- expects the other side's, and as many receive requests are posted as the configured depth.
pub orig_main-Linked :
    (enum_signed : Bool) (a : Answers) (opts : List Opt) (names : List (List ℕ))
    (servername : Option (List ℕ)) (port size : ℤ) (s : Settings) (q : Qp) (routs : ℕ) (rem : Dest)
    → configure enum_signed opts names (first_settings servername port size) ≡ some s
    → orig_main enum_signed a opts names servername port size ≡ ok (opened q routs rem)
    → Linked (a.lrand48 % 2 ^ 24) rem q × (routs ≡ rounds s.rx_depth)
unfolding orig_main start_with
orig_main-Linked enum_signed a opts names servername port size s q routs rem conf h =
    Ensures-ok {P = Ready (a.lrand48 % 2 ^ 24) (rounds s.rx_depth)} (with_settings-Ready a s)
      (rw conf at h)
