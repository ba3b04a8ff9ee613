-- ===== src/Handshake/Agree.antt =====
-- A client and a server of Ex4 that run the address exchange against each other end with connected
-- queue pairs.
use comm_networks_workshop.Base.{
  ℕ, zero, suc, ◌+◌, ◌-◌, ◌/◌, ◌%◌, ◌<◌, ◌≡◌, refl, inl, inr, Bool, true, false, not, ◌&&◌, some,
  List, [], ◌∷◌, ◌++◌, arith, leb, ◌==◌, Bool-cases, length, length-append, All,
}
use comm_networks_workshop.Run.{ok}
use comm_networks_workshop.Wire.{
  hex_digit, hex_digits, fits_hex, print_hex_from, print_hex, htonl, Gid, Dest, gid_to_wire_gid,
  print_dest,
}
use comm_networks_workshop.Wire.RoundTrip.{IsDest, scan_dest-print_dest, length-print_dest}
use comm_networks_workshop.Conn.{Qp, Verbs, to_rtr, to_rts, pp_connect_ctx, rtr, rts}
use comm_networks_workshop.Handshake.{
  sizeof_msg, Net, Exchanged, find_socket, text_of, message, done_text, client_result, client_talk,
  pp_client_exch_dest, server_answer, server_talk, server_accept, pp_server_exch_dest,
}

text_of-append : (t cs : List ℕ) → All (λ c. 0 < c) t → text_of (t ++ 0 ∷ cs) ≡ ok t
unfolding text_of
text_of-append [] cs h = refl
text_of-append (zero ∷ t) cs h = absurd (omega (arith, h.0))
text_of-append (suc c ∷ t) cs h = rw (text_of-append t cs h.1)

-- The socket calls all succeed, the first address answers, and the other side's message arrives.
pub record Reaches (k : Net) (received : List ℕ) : Type 0 where
  pub service : k.service_allocated ≡ true
  pub resolves : k.resolved ≡ true
  pub socket : (find_socket k.addresses 0).2 ≡ true
  pub accepts : k.accepted ≡ true
  pub receives : k.received ≡ received
  pub writes : k.written ≡ sizeof_msg
  pub allocates : k.dest_allocated ≡ true

-- Two queue pairs that are ready to send, each to the other.
pub record Connected (a b : Qp) (da db : Dest) : Type 0 where
  pub ready_a : a.qp_state ≡ rts
  pub ready_b : b.qp_state ≡ rts
  pub a_to_b : a.dest_qp_num ≡ db.qpn
  pub b_to_a : b.dest_qp_num ≡ da.qpn
  pub psn_ab : a.sq_psn ≡ b.rq_psn
  pub psn_ba : b.sq_psn ≡ a.rq_psn
  pub lid_ab : a.dlid ≡ db.lid
  pub lid_ba : b.dlid ≡ da.lid

message-ok : (d : Dest) → IsDest d → message d ≡ ok (print_dest d ++ 0 ∷ [])
unfolding message
message-ok d h =
    let room : leb (length (print_dest d) + 1) sizeof_msg ≡ true =
      ground (arith, length-print_dest d h) in
    rw room

abbrev connected : ℕ → Dest → Qp → Qp
connected my_psn dest q = record q {
  qp_state = rts;
  dest_qp_num = dest.qpn;
  rq_psn = dest.psn;
  sq_psn = my_psn;
  dlid = dest.lid;
  is_global = not ((dest.gid.raw8 == 0) && (dest.gid.raw12 == 0));
}

pp_connect_ctx-ok :
    (v : Verbs) (my_psn : ℕ) (dest : Dest) (q : Qp)
    → v.modifies rtr ≡ true
    → v.modifies rts ≡ true
    → pp_connect_ctx v my_psn dest q ≡ (connected my_psn dest q, 0)
unfolding pp_connect_ctx to_rtr to_rts
pp_connect_ctx-ok v my_psn dest q h h' = rw (pp_connect_ctx, to_rtr, to_rts, h, h')

positive_append :
    (xs ys : List ℕ) → All (λ c. 0 < c) xs → All (λ c. 0 < c) ys → All (λ c. 0 < c) (xs ++ ys)
positive_append [] ys h h' = h'
positive_append (x ∷ xs) ys h h' = (h.0, positive_append xs ys h.1 h')

hex_digit_positive : (d : ℕ) → 0 < hex_digit d
unfolding hex_digit
hex_digit_positive d = ground arith

hex_digits_positive : (w n : ℕ) → All (λ c. 0 < c) (hex_digits w n)
unfolding hex_digits
hex_digits_positive zero n = tt
hex_digits_positive (suc w) n =
    positive_append (hex_digits w (n / 16)) (hex_digit (n % 16) ∷ [])
      (hex_digits_positive w (n / 16)) (hex_digit_positive (n % 16), tt)

print_hex_from_positive : (more w n : ℕ) → All (λ c. 0 < c) (print_hex_from more w n)
unfolding print_hex_from
print_hex_from_positive zero w n = hex_digits_positive w n
print_hex_from_positive (suc more) w n = elim (Bool-cases (fits_hex w n)) [
  | inl h ↦ rw h (hex_digits_positive w n)
  | inr h ↦ rw h (print_hex_from_positive more (w + 1) n)
]

print_hex_positive : (w n : ℕ) → All (λ c. 0 < c) (print_hex w n)
unfolding print_hex
print_hex_positive w n = print_hex_from_positive (8 - w) w n

gid_positive : (g : Gid) → All (λ c. 0 < c) (gid_to_wire_gid g)
unfolding gid_to_wire_gid
gid_positive g = positive_append _ _ (print_hex_positive 8 (htonl g.raw0)) (
    positive_append _ _ (print_hex_positive 8 (htonl g.raw4)) (
      positive_append _ _ (print_hex_positive 8 (htonl g.raw8))
        (print_hex_positive 8 (htonl g.raw12))))

print_dest_positive : (d : Dest) → All (λ c. 0 < c) (print_dest d)
unfolding print_dest
print_dest_positive d = positive_append _ _ (print_hex_positive 4 d.lid) (
  omega arith,
  positive_append _ _ (print_hex_positive 6 d.qpn) (
    omega arith,
    positive_append _ _ (print_hex_positive 6 d.psn) (omega arith, gid_positive d.gid),
  ),
)

-- The message of one side as the other side reads it.
module _ (k : Net) (d : Dest) (is : IsDest d) (r : Reaches k (print_dest d ++ 0 ∷ [])) where
  full : (length k.received == sizeof_msg) ≡ true
  full =
      let l = length-append (print_dest d) (0 ∷ []) in
      rw (r.receives) (ground (arith, l, length-print_dest d is))

  text : text_of k.received ≡ ok (print_dest d)
  text = rw (r.receives) (text_of-append (print_dest d) [] (print_dest_positive d))

  whole : (k.written == sizeof_msg) ≡ true
  whole = rw (r.writes) refl

both :
    (k : Net) (d : Dest)
    → Reaches k (print_dest d ++ 0 ∷ [])
    → (k.service_allocated && k.resolved) ≡ true
both k d r = rw (r.service, r.resolves) refl

abbrev pub wire : Dest → List ℕ
wire d = print_dest d ++ 0 ∷ []

client_talk-ok :
    (k : Net) (my_dest d : Dest) (x : ℕ × ℕ × Bool)
    → IsDest my_dest
    → IsDest d
    → Reaches k (wire d)
    → x.2 ≡ true
    → (e : Exchanged) × (client_talk k my_dest x ≡ ok e)
      × (e.rem_dest ≡ some d)
      × (e.sent ≡ wire my_dest ∷ done_text ∷ [])
unfolding client_talk client_result
client_talk-ok k my_dest d (o, c, false) is is' r h = cc
client_talk-ok k my_dest d (o, c, true) is is' r h = (
  record { rem_dest = some d; sent = wire my_dest ∷ done_text ∷ []; opened = o; closed = c + 1 },
  rw (
    message-ok my_dest is,
    whole k d is' r,
    full k d is' r,
    r.allocates,
    text k d is' r,
    scan_dest-print_dest d is',
  ),
  refl,
  refl,
)

server_accept-ok :
    (v : Verbs) (k : Net) (my_dest d : Dest) (q : Qp) (x : ℕ × ℕ × Bool)
    → IsDest my_dest
    → IsDest d
    → Reaches k (wire d)
    → v.modifies rtr ≡ true
    → v.modifies rts ≡ true
    → x.2 ≡ true
    → (e : Exchanged) × (server_accept v k my_dest q x ≡ ok (e, connected my_dest.psn d q))
      × (e.rem_dest ≡ some d)
      × (e.sent ≡ wire my_dest ∷ [])
unfolding server_accept server_talk server_answer
server_accept-ok v k my_dest d q (o, c, false) is is' r to to' h = cc
server_accept-ok v k my_dest d q (o, c, true) is is' r to to' h = (
  record { rem_dest = some d; sent = wire my_dest ∷ []; opened = o + 1; closed = c + 1 + 1 },
  rw
      (
        r.accepts,
        full k d is' r,
        r.allocates,
        text k d is' r,
        scan_dest-print_dest d is',
        pp_connect_ctx-ok v my_dest.psn d q to to',
      )
      (rw (message-ok my_dest is, whole k d is' r)),
  refl,
  refl,
)

-- When the socket and queue pair calls of both sides succeed, the addresses are in range, and each
-- side reads what the other has sent: both functions return the other side's address, and once the
-- client has connected too, both queue pairs are ready to send, each to the number and local
-- identifier of the other, and each expects the packet number that the other starts with.
pub pp_exch_dest-Connected :
    (v w : Verbs) (k kc : Net) (ds dc : Dest) (qs qc : Qp)
    → IsDest ds
    → IsDest dc
    → Reaches k (wire dc)
    → Reaches kc (wire ds)
    → v.modifies rtr ≡ true
    → v.modifies rts ≡ true
    → w.modifies rtr ≡ true
    → w.modifies rts ≡ true
    → (es ec : Exchanged) × (qs' : Qp) × (qc' : Qp) × (pp_server_exch_dest v k ds qs ≡ ok (es, qs'))
      × (pp_client_exch_dest kc dc ≡ ok ec)
      × (es.sent ≡ wire ds ∷ [])
      × (ec.sent ≡ wire dc ∷ done_text ∷ [])
      × (es.rem_dest ≡ some dc)
      × (ec.rem_dest ≡ some ds)
      × (pp_connect_ctx w dc.psn ds qc ≡ (qc', 0))
      × Connected qs' qc' ds dc
unfolding pp_server_exch_dest pp_client_exch_dest
pp_exch_dest-Connected v w k kc ds dc qs qc is ic r rc v1 v2 w1 w2 =
    let (es, se, sd, ss) =
      server_accept-ok v k ds dc qs (find_socket k.addresses 0) is ic r v1 v2 r.socket in
    let (ec, ce, cd, cs) =
      client_talk-ok kc dc ds (find_socket kc.addresses 0) ic is rc rc.socket in
    (
      es,
      ec,
      connected ds.psn dc qs,
      connected dc.psn ds qc,
      rw (both k dc r) se,
      rw (both kc ds rc) ce,
      ss,
      cs,
      sd,
      cd,
      pp_connect_ctx-ok w dc.psn ds qc w1 w2,
      record {
        ready_a = refl;
        ready_b = refl;
        a_to_b = refl;
        b_to_a = refl;
        psn_ab = refl;
        psn_ba = refl;
        lid_ab = refl;
        lid_ba = refl;
      },
    )
