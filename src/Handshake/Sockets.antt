-- ===== src/Handshake/Sockets.antt =====
-- Every branch of the address exchange of Ex4/kv_server.c closes the sockets that it opened.
use comm_networks_workshop.Base.{
  ℕ, ◌+◌, ◌≡◌, refl, inl, inr, Bool, true, false, ◌&&◌, List, [], ◌∷◌, arith, ◌==◌, Bool-cases,
  length,
}
use comm_networks_workshop.Run.{Ensures, Ensures-after, if-Ensures, returns}
use comm_networks_workshop.Wire.{Dest, scan_dest}
use comm_networks_workshop.Conn.{Qp, Verbs, pp_connect_ctx}
use comm_networks_workshop.Handshake.{
  sizeof_msg, Address, Net, Exchanged, find_socket, text_of, message, client_result, client_talk,
  pp_client_exch_dest, server_answer, server_talk, server_accept, pp_server_exch_dest,
}

-- A loop that leaves no socket has closed all; one that leaves a socket has closed all others.
abbrev Open : ℕ × ℕ × Bool → Type 0
Open (opened, closed, true) = opened ≡ closed + 1
Open (opened, closed, false) = opened ≡ closed

find_socket-Open : (ts : List Address) (n : ℕ) → Open (find_socket ts n)
unfolding find_socket
find_socket-Open [] n = refl
find_socket-Open (t ∷ ts) n = elim (Bool-cases t.opens) [
  | inl opens ↦ elim (Bool-cases t.reaches) [
    | inl there ↦ rw (opens, there) refl
    | inr not_there ↦ rw (opens, not_there) (find_socket-Open ts (n + 1))
  ]
  | inr shut ↦ rw shut (find_socket-Open ts n)
]

abbrev pub Balanced : Exchanged → Type 0
Balanced e = e.opened ≡ e.closed

client_result-Balanced :
    (k : Net) (msg : List ℕ) (o c : ℕ) → o ≡ c + 1 → Ensures Balanced (client_result k msg o c)
unfolding client_result
client_result-Balanced k msg o c h =
    if-Ensures k.dest_allocated
      (Ensures-after (text_of k.received) λ t. Ensures-after (scan_dest t) λ d. returns h)
      (returns h)

client_talk-Balanced :
    (k : Net) (my_dest : Dest) (x : ℕ × ℕ × Bool)
    → Open x
    → Ensures Balanced (client_talk k my_dest x)
unfolding client_talk
client_talk-Balanced k my_dest (o, c, false) h = returns h
client_talk-Balanced k my_dest (o, c, true) h = Ensures-after (message my_dest) λ msg.
    if-Ensures (k.written == sizeof_msg)
      (if-Ensures (length k.received == sizeof_msg) (client_result-Balanced k msg o c h)
        (returns h))
      (returns h)

-- `pp_client_exch_dest` closes every socket that it opens, whatever the calls return, if it
-- returns.
pub pp_client_exch_dest-Balanced :
    (k : Net) (my_dest : Dest) → Ensures Balanced (pp_client_exch_dest k my_dest)
unfolding pp_client_exch_dest
pp_client_exch_dest-Balanced k my_dest =
    if-Ensures (k.service_allocated && k.resolved)
      (client_talk-Balanced k my_dest (find_socket k.addresses 0) (find_socket-Open k.addresses 0))
      (returns refl)

abbrev pub BalancedQp : Exchanged × Qp → Type 0
BalancedQp x = Balanced x.0

server_answer-Balanced :
    (k : Net) (my_dest rem : Dest) (x : Qp × ℕ) (o c : ℕ)
    → o ≡ c + 1
    → Ensures BalancedQp (server_answer k my_dest rem x o c)
unfolding server_answer
server_answer-Balanced k my_dest rem (q, failed) o c h =
    if-Ensures (failed == 0)
      (Ensures-after (message my_dest)
        λ msg. if-Ensures (k.written == sizeof_msg) (returns h) (returns h))
      (returns h)

server_talk-Balanced :
    (v : Verbs) (k : Net) (my_dest : Dest) (q : Qp) (o c : ℕ)
    → o ≡ c + 1
    → Ensures BalancedQp (server_talk v k my_dest q o c)
unfolding server_talk
server_talk-Balanced v k my_dest q o c h =
    if-Ensures ((length k.received == sizeof_msg) && k.dest_allocated)
      (Ensures-after (text_of k.received) λ t.
        Ensures-after (scan_dest t)
          λ rem. server_answer-Balanced k my_dest rem (pp_connect_ctx v my_dest.psn rem q) o c h)
      (returns h)

server_accept-Balanced :
    (v : Verbs) (k : Net) (my_dest : Dest) (q : Qp) (x : ℕ × ℕ × Bool)
    → Open x
    → Ensures BalancedQp (server_accept v k my_dest q x)
unfolding server_accept
server_accept-Balanced v k my_dest q (o, c, false) h = returns h
server_accept-Balanced v k my_dest q (o, c, true) h =
    if-Ensures k.accepted (server_talk-Balanced v k my_dest q (o + 1) (c + 1) (omega (arith, h)))
      (returns h)

-- `pp_server_exch_dest` closes every socket that it opens, the listening one and the accepted one
-- included, whatever the calls return, if it returns.
pub pp_server_exch_dest-Balanced :
    (v : Verbs) (k : Net) (my_dest : Dest) (q : Qp)
    → Ensures BalancedQp (pp_server_exch_dest v k my_dest q)
unfolding pp_server_exch_dest
pp_server_exch_dest-Balanced v k my_dest q =
    if-Ensures (k.service_allocated && k.resolved)
      (server_accept-Balanced v k my_dest q (find_socket k.addresses 0)
        (find_socket-Open k.addresses 0))
      (returns refl)
