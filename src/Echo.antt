-- ===== src/Echo.antt =====
-- The echo server of Ex2/server.cpp: a `select` loop over the welcome socket and the clients'.
pub mod Sets
pub mod Clients
pub mod Closing
pub mod Echoes
use comm_networks_workshop.Base.{
  ℕ, zero, suc, ◌+◌, ◌-◌, ◌*◌, ◌/◌, ◌%◌, ◌^◌, ◌≤◌, ◌<◌, ◌≡◌, refl, sym, ap, ◌∙◌, fun_ext, ◌≢◌, ◌↔◌,
  ◌⊎◌, inl, inr, Bool, true, false, not, ◌&&◌, ◌||◌, Option, none, some, List, [], ◌∷◌, ◌++◌, map,
  arith, ltb, leb, ◌==◌, if◌then◌else◌, ltb→lt, lt→ltb, le→ltb, leb→le, ==_iff, tests, Bool-cases,
  Option-cases, str_eq, str_eq_refl, str_eq_sound, str_eq_iff, length, length-append, get_or, take,
  drop, replicate, length-take, take-append, length-replicate, All, get_or-append_left, get_elem?,
  set_elem, length-set_elem, get_elem?-set_elem, get_elem?-set_elem_ne, get_elem?-below,
  All-get_elem?, get_elem?-lt, take_all, if_true, if_false,
}
use comm_networks_workshop.Template.Throughput.{
  decimal, max_digits, test_key, block_text, test_value, attempt_bytes, total_attempts, run_attempt,
  run_attempts, run_sizes, run_throuput_tests, SizeUnit, printed_size, mbytes, kbytes, bytes,
}

-- How a call ends: with a result, by exit(EXIT_FAILURE), by a descriptor that does not fit into an
-- fd_set, or not yet, with all rounds of the loop used up.
pub data Outcome (A : Type 0) : Type 0 where
  goes : A → Outcome A
  exits : Outcome A
  overruns : Outcome A
  waits : Outcome A

infixl 5 ◌>>=◌
abbrev pub ◌>>=◌ : {A B : Type 0} → Outcome A → (A → Outcome B) → Outcome B
goes a >>= f = f a
exits >>= f = exits
overruns >>= f = overruns
waits >>= f = waits

-- fd_set
abbrev pub Fds : Type 0
Fds = ℕ → Bool

abbrev pub fd_setsize : ℕ
fd_setsize = 1024

unfoldable pub fd_set : ℕ → Fds → Fds
fd_set fd s i = (i == fd) || s i

unfoldable pub fd_clr : ℕ → Fds → Fds
fd_clr fd s i = not (i == fd) && s i

-- std::to_string of a descriptor
abbrev pub to_string : ℕ → List ℕ
to_string fd = decimal max_digits fd

unfoldable pub str_less : List ℕ → List ℕ → Bool
str_less xs [] = false
str_less [] (b ∷ ys) = true
str_less (a ∷ xs) (b ∷ ys) = ltb a b || ((a == b) && str_less xs ys)

-- The descriptors of the std::map, in the order of its keys, which are their strings.
unfoldable pub emplace : ℕ → List ℕ → List ℕ
emplace fd [] = fd ∷ []
emplace fd (c ∷ cs) =
    if str_eq (to_string fd) (to_string c)
    then c ∷ cs
    else if str_less (to_string fd) (to_string c)
    then fd ∷ c ∷ cs
    else c ∷ emplace fd cs

unfoldable pub erase : ℕ → List ℕ → List ℕ
erase fd [] = []
erase fd (c ∷ cs) = if str_eq (to_string fd) (to_string c) then cs else c ∷ erase fd cs

-- What passes between the server and its clients.
pub data Traffic : Type 0 where
  accepted : ℕ → Traffic
  received : ℕ → List ℕ → Traffic
  sent : ℕ → List ℕ → Traffic
  closed : ℕ → Traffic

-- class Server, with the traffic so far.
pub record EchoServer : Type 0 where
  pub welcome_socket : ℕ
  pub keep_loop_select : Bool
  pub clients_sockets : List ℕ
  pub clients_fds : Fds
  pub traffic : List Traffic

-- What the calls of one round return. `recv` gives the bytes that it read, and `send` how many it
-- sent; `none` is a negative return value.
pub data Selected : Type 0 where
  failed timed_out : Selected
  some_ready : Fds → Selected

pub record Round : Type 0 where
  pub select : ℕ → Fds → Selected
  pub accept : Option ℕ
  pub recv : ℕ → Option (List ℕ)
  pub send : ℕ → List ℕ → Option ℕ
  pub shutdown : ℕ → Bool
  pub close : ℕ → Bool

-- The constructor: the four calls that can fail, in their order.
pub record Starting : Type 0 where
  pub socket : Option ℕ
  pub setsockopt : Bool
  pub bind : Bool
  pub listen : Bool

unfoldable pub new_server : Starting → Outcome EchoServer
new_server c = elim (c.socket) [
  | none ↦ exits
  | some fd ↦
      if c.setsockopt && c.bind && c.listen
      then goes (record {
        welcome_socket = fd;
        keep_loop_select = true;
        clients_sockets = [];
        clients_fds = λ i. false;
        traffic = [];
      })
      else exits
]

unfoldable pub max_of : ℕ → List ℕ → ℕ
max_of maxfd [] = maxfd
max_of maxfd (c ∷ cs) = max_of (if ltb maxfd c then c else maxfd) cs

unfoldable pub get_max_fd : EchoServer → ℕ
get_max_fd s = max_of s.welcome_socket s.clients_sockets

abbrev pub log_traffic : List Traffic → EchoServer → EchoServer
log_traffic ts s = record s { traffic = s.traffic ++ ts }

-- What `recv` has returned decides; no bytes are the end of the connection.
unfoldable pub answer_client : Round → ℕ → Option (List ℕ) → EchoServer → Outcome EchoServer
answer_client r fd none s = exits
answer_client r fd (some []) s =
    if r.shutdown fd && r.close fd
    then goes (
        log_traffic (closed fd ∷ []) (record s {
          clients_fds = fd_clr fd s.clients_fds;
          clients_sockets = erase fd s.clients_sockets;
        }))
    else exits
answer_client r fd (some (b ∷ bs)) s = elim (r.send fd (b ∷ bs)) [
  | none ↦ exits
  | some n ↦ goes (log_traffic (received fd (b ∷ bs) ∷ sent fd (take n (b ∷ bs)) ∷ []) s)
]

unfoldable pub echo_client : Round → ℕ → EchoServer → Outcome EchoServer
echo_client r fd s = answer_client r fd (r.recv fd) s

-- The loop over the copy of the map.
unfoldable pub echo_clients : Round → Fds → List ℕ → EchoServer → Outcome EchoServer
echo_clients r read_fds [] s = goes s
echo_clients r read_fds (c ∷ cs) s =
    (if read_fds c then echo_client r c s else goes s) >>= echo_clients r read_fds cs

-- A new client at the welcome socket.
unfoldable pub welcome_client : Round → Fds → EchoServer → Outcome EchoServer
welcome_client r read_fds s =
    if read_fds s.welcome_socket
    then elim (r.accept) [
      | none ↦ exits
      | some fd ↦
          if ltb fd fd_setsize
          then goes (
              log_traffic (accepted fd ∷ []) (record s {
                clients_fds = fd_set fd s.clients_fds;
                clients_sockets = emplace fd s.clients_sockets;
              }))
          else overruns
    ]
    else goes s

-- `select` leaves in `read_fds` the members below its first argument that are ready.
abbrev pub read_set : EchoServer → Fds → Fds
read_set s ready i = leb i (get_max_fd s) && (s.clients_fds i && ready i)

unfoldable pub handle_selected : Round → Selected → EchoServer → Outcome EchoServer
handle_selected r failed s = exits
handle_selected r timed_out s = elim (s.clients_sockets) [
  | [] ↦ goes (record s { keep_loop_select = false })
  | c ∷ cs ↦ goes s
]
handle_selected r (some_ready ready) s = welcome_client r (read_set s ready) s >>= λ t.
    echo_clients r (read_set s ready) t.clients_sockets t

-- One round of the loop.
unfoldable pub select_round : Round → EchoServer → Outcome EchoServer
select_round r s = handle_selected r (r.select (get_max_fd s + 1) s.clients_fds) s

unfoldable pub select_loop : List Round → EchoServer → Outcome EchoServer
select_loop [] s = if s.keep_loop_select then waits else goes s
select_loop (r ∷ rs) s =
    let rest = select_round r s >>= select_loop rs in if s.keep_loop_select then rest else goes s

unfoldable pub select_phase : List Round → EchoServer → Outcome EchoServer
select_phase rs s =
    if ltb s.welcome_socket fd_setsize
    then select_loop rs (record s { clients_fds = fd_set s.welcome_socket (λ i. false) })
    else overruns

-- The welcome socket is closed at the end.
unfoldable pub kill_server : EchoServer → EchoServer
kill_server s =
    log_traffic (closed s.welcome_socket ∷ [])
      (record s { clients_fds = fd_clr s.welcome_socket s.clients_fds })
