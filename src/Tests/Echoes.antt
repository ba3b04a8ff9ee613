-- ===== src/Tests/Echoes.antt =====
-- Examples for the echo server: a client comes, sends, is echoed, and leaves.
use comm_networks_workshop.Base.{
  ℕ, ◌≡◌, refl, sym, true, false, none, some, List, [], ◌∷◌, arith, ◌==◌, str_eq, length,
}
use comm_networks_workshop.Echo.{
  Fds, fd_set, fd_clr, emplace, erase, EchoServer, Round, Starting, new_server, max_of, get_max_fd,
  answer_client, echo_client, echo_clients, welcome_client, handle_selected, select_round,
  select_loop, select_phase, kill_server, goes, accepted, received, sent, closed, timed_out,
  some_ready,
}
use comm_networks_workshop.Echo.Clients.{accepts, closes}
use comm_networks_workshop.Echo.Closing.{AllFresh, fresh_server, listening, select_phase-closes}
use comm_networks_workshop.Echo.Echoes.{bytes_from, bytes_to, select_phase-echoes}
use comm_networks_workshop.Template.Throughput.{decimal}

abbrev starting : Starting
starting = record { socket = some 3; setsockopt = true; bind = true; listen = true }

abbrev at : ℕ → Fds
at fd i = i == fd

abbrev quiet : Round
quiet = record {
  select = λ n fds. timed_out;
  accept = none;
  recv = λ fd. some [];
  send = λ fd bs. some (length bs);
  shutdown = λ fd. true;
  close = λ fd. true;
}

abbrev comes : Round
comes = record quiet { select = λ n fds. some_ready (at 3); accept = some 4 }

abbrev speaks : Round
speaks = record quiet { select = λ n fds. some_ready (at 4); recv = λ fd. some (104 ∷ 105 ∷ []) }

abbrev leaves : Round
leaves = record quiet { select = λ n fds. some_ready (at 4) }

abbrev visit : List Round
visit = comes ∷ speaks ∷ leaves ∷ quiet ∷ []

abbrev after_visit : EchoServer
after_visit = record (listening (fresh_server 3)) {
  keep_loop_select = false;
  traffic = accepted 4 ∷ received 4 (104 ∷ 105 ∷ []) ∷ sent 4 (104 ∷ 105 ∷ []) ∷ closed 4 ∷ [];
  clients_fds = fd_clr 4 (fd_set 4 (fd_set 3 (λ i. false)));
}

visit_ends : select_phase visit (fresh_server 3) ≡ goes after_visit
unfolding select_phase select_loop select_round handle_selected welcome_client echo_clients
    echo_client answer_client emplace erase get_max_fd max_of fd_set str_eq decimal
visit_ends = refl

-- Only the first round accepts.
visit-AllFresh : AllFresh visit (listening (fresh_server 3))
visit-AllFresh = (
  λ fd e. let q : 4 ≡ fd = cc e in rw (← q) ((λ z. omega (arith, z)), refl),
  λ t e. (λ fd q. cc, λ t e. (λ fd q. cc, λ t e. (λ fd q. cc, λ t e. tt))),
)

visit-IsWhole : (n m : ℕ) → some n ≡ some m → n ≡ m
visit-IsWhole n m e = cc e

select_phase-closes_example :
    (after_visit.clients_sockets ≡ [])
    × ((i : ℕ) → accepts i after_visit.traffic ≡ closes i after_visit.traffic)
    × ((i : ℕ) → (kill_server after_visit).clients_fds i ≡ false)
unfolding new_server
select_phase-closes_example =
    select_phase-closes starting (fresh_server 3) after_visit visit refl visit-AllFresh visit_ends

select_phase-echoes_example : bytes_to 4 after_visit.traffic ≡ bytes_from 4 after_visit.traffic
select_phase-echoes_example =
    select_phase-echoes (fresh_server 3) after_visit visit refl
      (
        (λ fd bs n e. visit-IsWhole n (length bs) (sym e)),
        (
          (λ fd bs n e. visit-IsWhole n (length bs) (sym e)),
          (
            (λ fd bs n e. visit-IsWhole n (length bs) (sym e)),
            ((λ fd bs n e. visit-IsWhole n (length bs) (sym e)), tt),
          ),
        ),
      )
      visit_ends 4
