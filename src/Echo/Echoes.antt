-- ===== src/Echo/Echoes.antt =====
-- What the clients of Ex2/server.cpp get back.
use mathlib.Core.List.{append_assoc}
use comm_networks_workshop.Base.{
  ℕ, ◌+◌, ◌≡◌, refl, sym, ◌∙◌, inl, inr, ◌&&◌, Option, none, some, List, [], ◌∷◌, ◌++◌, ltb, ◌==◌,
  if◌then◌else◌, Option-cases, length, take, All, take_all,
}
use comm_networks_workshop.Echo.{
  ◌>>=◌, Fds, fd_setsize, Traffic, EchoServer, Selected, Round, get_max_fd, answer_client,
  echo_client, echo_clients, welcome_client, read_set, handle_selected, select_round, select_loop,
  select_phase, goes, exits, overruns, waits, accepted, received, sent, closed, failed, timed_out,
  some_ready,
}
use comm_networks_workshop.Echo.Clients.{Ends, Ends-bind}
use comm_networks_workshop.Echo.Closing.{List-cases, Ends-if, ends_with, if_goes, listening}

abbrev pub bytes_from : ℕ → List Traffic → List ℕ
bytes_from i [] = []
bytes_from i (accepted fd ∷ ts) = bytes_from i ts
bytes_from i (received fd bs ∷ ts) = (if i == fd then bs else []) ++ bytes_from i ts
bytes_from i (sent fd bs ∷ ts) = bytes_from i ts
bytes_from i (closed fd ∷ ts) = bytes_from i ts

abbrev pub bytes_to : ℕ → List Traffic → List ℕ
bytes_to i [] = []
bytes_to i (accepted fd ∷ ts) = bytes_to i ts
bytes_to i (received fd bs ∷ ts) = bytes_to i ts
bytes_to i (sent fd bs ∷ ts) = (if i == fd then bs else []) ++ bytes_to i ts
bytes_to i (closed fd ∷ ts) = bytes_to i ts

bytes_from-append :
    (i : ℕ) (ts us : List Traffic) → bytes_from i (ts ++ us) ≡ bytes_from i ts ++ bytes_from i us
bytes_from-append i [] us = refl
bytes_from-append i (accepted fd ∷ ts) us = bytes_from-append i ts us
bytes_from-append i (received fd bs ∷ ts) us =
    rw (bytes_from-append i ts us)
      (sym (append_assoc (if i == fd then bs else []) (bytes_from i ts) (bytes_from i us)))
bytes_from-append i (sent fd bs ∷ ts) us = bytes_from-append i ts us
bytes_from-append i (closed fd ∷ ts) us = bytes_from-append i ts us

bytes_to-append :
    (i : ℕ) (ts us : List Traffic) → bytes_to i (ts ++ us) ≡ bytes_to i ts ++ bytes_to i us
bytes_to-append i [] us = refl
bytes_to-append i (accepted fd ∷ ts) us = bytes_to-append i ts us
bytes_to-append i (received fd bs ∷ ts) us = bytes_to-append i ts us
bytes_to-append i (sent fd bs ∷ ts) us =
    rw (bytes_to-append i ts us)
      (sym (append_assoc (if i == fd then bs else []) (bytes_to i ts) (bytes_to i us)))
bytes_to-append i (closed fd ∷ ts) us = bytes_to-append i ts us

-- All that a client has sent has gone back to it.
abbrev Echoed : EchoServer → Type 0
Echoed s = (i : ℕ) → bytes_to i s.traffic ≡ bytes_from i s.traffic

-- `send` sends all of the bytes if it succeeds.
abbrev pub IsWhole : Round → Type 0
IsWhole r = (fd : ℕ) (bs : List ℕ) (n : ℕ) → r.send fd bs ≡ some n → n ≡ length bs

-- Traffic that is as much in one direction as in the other.
Same-append :
    (ts us : List Traffic)
    → ((i : ℕ) → bytes_to i ts ≡ bytes_from i ts)
    → ((i : ℕ) → bytes_to i us ≡ bytes_from i us)
    → (i : ℕ) → bytes_to i (ts ++ us) ≡ bytes_from i (ts ++ us)
Same-append ts us h more i =
    bytes_to-append i ts us ∙ rw (h i, more i) refl ∙ sym (bytes_from-append i ts us)

module _ (r : Round) (whole : IsWhole r) where
  answer_client-Echoed :
      (c : ℕ) (o : Option (List ℕ)) (s : EchoServer)
      → Echoed s
      → Ends Echoed (answer_client r c o s)
  unfolding answer_client
  answer_client-Echoed c none s h = tt
  answer_client-Echoed c (some []) s h =
      Ends-if Echoed (r.shutdown c && r.close c) (goes _) exits
        (λ fine. Same-append s.traffic (closed c ∷ []) h (λ i. refl)) (λ off. tt)
  answer_client-Echoed c (some (b ∷ bs)) s h = elim (Option-cases (r.send c (b ∷ bs))) [
    | inl none_sent ↦ rw (answer_client, none_sent) tt
    | inr (n, was_sent) ↦
        let all : take n (b ∷ bs) ≡ b ∷ bs = rw (whole c (b ∷ bs) n was_sent) (take_all (b ∷ bs)) in
        rw (answer_client, was_sent)
          (Same-append s.traffic (received c (b ∷ bs) ∷ sent c (take n (b ∷ bs)) ∷ []) h
            (λ i. rw all refl))
  ]

  echo_clients-Echoed :
      (read_fds : Fds) (cs : List ℕ) (s : EchoServer)
      → Echoed s
      → Ends Echoed (echo_clients r read_fds cs s)
  unfolding echo_clients echo_client
  echo_clients-Echoed read_fds [] s h = h
  echo_clients-Echoed read_fds (c ∷ cs) s h =
      Ends-bind Echoed Echoed (if read_fds c then echo_client r c s else goes s)
        (echo_clients r read_fds cs)
        (Ends-if Echoed (read_fds c) (echo_client r c s) (goes s)
          (λ on. answer_client-Echoed c (r.recv c) s h) (λ off. h))
        (echo_clients-Echoed read_fds cs)

  welcome_client-Echoed :
      (read_fds : Fds) (s : EchoServer) → Echoed s → Ends Echoed (welcome_client r read_fds s)
  unfolding welcome_client
  welcome_client-Echoed read_fds s h = elim (Option-cases (r.accept)) [
    | inl none_came ↦
        rw (welcome_client, none_came)
          (Ends-if Echoed (read_fds s.welcome_socket) exits (goes s) (λ on. tt) (λ off. h))
    | inr (fd, came) ↦
        rw (welcome_client, came)
          (Ends-if Echoed (read_fds s.welcome_socket)
            (if ltb fd fd_setsize then goes _ else overruns) (goes s)
            (λ on.
              Ends-if Echoed (ltb fd fd_setsize) (goes _) overruns
                (λ below. Same-append s.traffic (accepted fd ∷ []) h (λ i. refl)) (λ above. tt))
            (λ off. h))
  ]

  handle_selected-Echoed :
      (sel : Selected) (s : EchoServer) → Echoed s → Ends Echoed (handle_selected r sel s)
  unfolding handle_selected
  handle_selected-Echoed failed s h = tt
  handle_selected-Echoed timed_out s h = elim (List-cases s.clients_sockets) [
    | inl none_left ↦ rw (handle_selected, none_left) h
    | inr (c, cs, some_left) ↦ rw (handle_selected, some_left) h
  ]
  handle_selected-Echoed (some_ready ready) s h =
      Ends-bind Echoed Echoed (welcome_client r (read_set s ready) s)
        (λ t. echo_clients r (read_set s ready) t.clients_sockets t)
        (welcome_client-Echoed (read_set s ready) s h)
        (λ t q. echo_clients-Echoed (read_set s ready) t.clients_sockets t q)

select_loop-Echoed :
    (rs : List Round) (s : EchoServer) → All IsWhole rs → Echoed s → Ends Echoed (select_loop rs s)
unfolding select_loop select_round
select_loop-Echoed [] s whole h =
    Ends-if Echoed s.keep_loop_select waits (goes s) (λ on. tt) (λ off. h)
select_loop-Echoed (r ∷ rs) s (whole, wholes) h =
    Ends-if Echoed s.keep_loop_select (select_round r s >>= select_loop rs) (goes s)
      (λ on.
        Ends-bind Echoed Echoed (select_round r s) (select_loop rs)
          (handle_selected-Echoed r whole (r.select (get_max_fd s + 1) s.clients_fds) s h)
          (λ t q. select_loop-Echoed rs t wholes q))
      (λ off. h)

-- When each `send` that succeeds sends all of its bytes, and the echo server's loop ends, having
-- started without traffic: each client was sent back exactly the bytes that were received from it,
-- in their order.
pub select_phase-echoes :
    (s t : EchoServer) (rs : List Round)
    → s.traffic ≡ []
    → All IsWhole rs
    → select_phase rs s ≡ goes t
    → (i : ℕ) → bytes_to i t.traffic ≡ bytes_from i t.traffic
unfolding select_phase
select_phase-echoes s t rs silent whole ends =
    let (room, loops) = if_goes (ltb s.welcome_socket fd_setsize) _ t ends in
    ends_with Echoed (select_loop rs (listening s)) t loops
      (select_loop-Echoed rs (listening s) whole (λ i. rw silent refl))
