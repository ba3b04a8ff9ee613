-- ===== src/Echo/Closing.antt =====
-- The loop of Ex2/server.cpp from its start to its end.
use mathlib.Core.Path.{subst}
use comm_networks_workshop.Base.{
  ℕ, ◌+◌, ◌≡◌, refl, sym, ◌∙◌, ◌⊎◌, inl, inr, Bool, true, false, ◌&&◌, List, [], ◌∷◌, arith, ltb,
  ◌==◌, if◌then◌else◌, Bool-cases, Option-cases, All, if_true, if_false,
}
use comm_networks_workshop.Echo.{
  Outcome, ◌>>=◌, Fds, fd_setsize, fd_set, fd_clr, EchoServer, Selected, Round, Starting,
  new_server, get_max_fd, echo_client, echo_clients, welcome_client, read_set, handle_selected,
  select_round, select_loop, select_phase, kill_server, goes, exits, overruns, waits, failed,
  timed_out, some_ready,
}
use comm_networks_workshop.Echo.Sets.{member, NoTwice}
use comm_networks_workshop.Echo.Clients.{
  Ends, Ends-bind, accepts, closes, IsEcho, Fresh, Kept, welcome_client-IsEcho, Others,
  echo_client-IsEcho,
}

abbrev Members : EchoServer → List ℕ → Type 0
Members s cs = All (λ c. member c s.clients_sockets ≡ true) cs

-- The others are still there.
Members-after :
    (s t : EchoServer) (h : IsEcho s) (r : Round) (c : ℕ) (cs : List ℕ)
    → Others r s h c t
    → member c cs ≡ false
    → Members s cs
    → Members t cs
Members-after s t h r c [] others out m = tt
Members-after s t h r c (d ∷ cs) others out (here, m) = (
  others d (λ q. let same : (c == d) ≡ true = ground (arith, q) in ground (arith, out, same))
      ∙ here,
  Members-after s t h r c cs others (ground (arith, out)) m,
)

-- A list is among itself.
Members-self :
    (s : EchoServer) (front cs : List ℕ)
    → ((i : ℕ) → member i cs ≡ true → member i s.clients_sockets ≡ true)
    → Members s cs
Members-self s front [] f = tt
Members-self s front (c ∷ cs) f =
    (f c (ground arith), Members-self s front cs (λ i q. f i (ground (arith, q))))

Kept-trans :
    (s t : EchoServer) → Kept s t → (m : Outcome EchoServer) → Ends (Kept t) m → Ends (Kept s) m
Kept-trans s t k (goes u) (h, e) = (h, e ∙ k.1)
Kept-trans s t k exits e = tt
Kept-trans s t k overruns e = tt
Kept-trans s t k waits e = tt

echo_clients-IsEcho :
    (r : Round) (read_fds : Fds) (cs : List ℕ) (s : EchoServer)
    → IsEcho s
    → NoTwice cs
    → Members s cs
    → Ends (Kept s) (echo_clients r read_fds cs s)
unfolding echo_clients
echo_clients-IsEcho r read_fds [] s h n m = (h, refl)
echo_clients-IsEcho r read_fds (c ∷ cs) s h (once, n) (here, m) =
    let after : (t : EchoServer)
        → Kept s t × Others r s h c t
        → Ends (Kept s) (echo_clients r read_fds cs t) =
      λ t p.
        let rest =
          echo_clients-IsEcho r read_fds cs t (p.0.0) n (Members-after s t h r c cs (p.1) once m) in
        Kept-trans s t (p.0) (echo_clients r read_fds cs t) rest in
    Ends-bind (λ t. Kept s t × Others r s h c t) (Kept s)
      (if read_fds c then echo_client r c s else goes s) (echo_clients r read_fds cs)
      (elim (Bool-cases (read_fds c)) [
        | inl on ↦ rw on (echo_client-IsEcho r s h c here)
        | inr off ↦ rw off ((h, refl), λ i ne. refl)
      ])
      after

-- The loop goes on, or there are no clients.
abbrev Running : EchoServer → Type 0
Running t = IsEcho t × ((t.keep_loop_select ≡ true) ⊎ (t.clients_sockets ≡ []))

Kept-Running :
    (t : EchoServer) (m : Outcome EchoServer)
    → t.keep_loop_select ≡ true
    → Ends (Kept t) m
    → Ends Running m
Kept-Running t (goes u) keep (h, e) = (h, inl (e ∙ keep))
Kept-Running t exits keep e = tt
Kept-Running t overruns keep e = tt
Kept-Running t waits keep e = tt

pub List-cases : (xs : List ℕ) → (xs ≡ []) ⊎ ((y : ℕ) × (ys : List ℕ) × (xs ≡ y ∷ ys))
List-cases [] = inl refl
List-cases (x ∷ xs) = inr (x, xs, refl)

handle_selected-Running :
    (r : Round) (s : EchoServer)
    → IsEcho s
    → s.keep_loop_select ≡ true
    → Fresh r s
    → (sel : Selected) → Ends Running (handle_selected r sel s)
unfolding handle_selected
handle_selected-Running r s h keep fresh failed = tt
handle_selected-Running r s h keep fresh timed_out = elim (List-cases s.clients_sockets) [
  | inl none_left ↦
      rw (handle_selected, none_left)
        (
          record {
            fds = h.fds;
            small = h.small;
            once = h.once;
            apart = h.apart;
            balance = h.balance;
          },
          inr none_left,
        )
  | inr (c, cs, some_left) ↦ rw (handle_selected, some_left) (h, inl keep)
]
handle_selected-Running r s h keep fresh (some_ready ready) =
    Ends-bind (Kept s) Running (welcome_client r (read_set s ready) s)
      (λ t. echo_clients r (read_set s ready) t.clients_sockets t)
      (welcome_client-IsEcho r s h (read_set s ready) fresh)
      (λ t p. Kept-Running t (echo_clients r (read_set s ready) t.clients_sockets t) (p.1 ∙ keep) (
        echo_clients-IsEcho r (read_set s ready) t.clients_sockets t (p.0) (p.0).once
          (Members-self t [] t.clients_sockets (λ i q. q))))

-- In every round that is reached.
abbrev pub AllFresh : List Round → EchoServer → Type 0
AllFresh [] s = Unit {0}
AllFresh (r ∷ rs) s = Fresh r s × ((t : EchoServer) → select_round r s ≡ goes t → AllFresh rs t)

pub Ends-after :
    {A B : Type 0} (P : A → Type 0) (Q : B → Type 0) (m : Outcome A) (f : A → Outcome B)
    → Ends P m
    → ((a : A) → P a → m ≡ goes a → Ends Q (f a))
    → Ends Q (m >>= f)
Ends-after P Q (goes a) f p k = k a p refl
Ends-after P Q exits f p k = tt
Ends-after P Q overruns f p k = tt
Ends-after P Q waits f p k = tt

ended :
    (s : EchoServer)
    → (s.keep_loop_select ≡ true) ⊎ (s.clients_sockets ≡ [])
    → s.keep_loop_select ≡ false
    → s.clients_sockets ≡ []
ended s (inl on) off = cc
ended s (inr none_left) off = none_left

pub Ends-if :
    {A : Type 0} (Q : A → Type 0) (b : Bool) (x y : Outcome A)
    → (b ≡ true → Ends Q x)
    → (b ≡ false → Ends Q y)
    → Ends Q (if b then x else y)
Ends-if Q true x y f g = f refl
Ends-if Q false x y f g = g refl

pub ends_with : {A : Type 0} (Q : A → Type 0) (m : Outcome A) (a : A) → m ≡ goes a → Ends Q m → Q a
ends_with Q (goes b) a e q = let same : b ≡ a = cc e in subst Q same q
ends_with Q exits a e q = cc
ends_with Q overruns a e q = cc
ends_with Q waits a e q = cc

pub if_goes :
    {A : Type 0} (b : Bool) (m : Outcome A) (a : A)
    → (if b then m else overruns) ≡ goes a
    → (b ≡ true) × (m ≡ goes a)
if_goes true m a e = (refl, e)
if_goes false m a e = cc

-- The loop has ended.
abbrev Closed : EchoServer → Type 0
Closed t = IsEcho t × (t.clients_sockets ≡ [])

abbrev pub fresh_server : ℕ → EchoServer
fresh_server fd = record {
  welcome_socket = fd;
  keep_loop_select = true;
  clients_sockets = [];
  clients_fds = λ i. false;
  traffic = [];
}

-- The server when its loop starts.
abbrev pub listening : EchoServer → EchoServer
listening s = record s { clients_fds = fd_set s.welcome_socket (λ i. false) }

fresh_listening :
    (fd : ℕ) (s : EchoServer) → goes (fresh_server fd) ≡ goes s → Running (listening s)
unfolding fd_set
fresh_listening fd s e =
    let same : fresh_server fd ≡ s = cc e in
    subst (λ (k : EchoServer). Running (listening k)) same
      (
        record { fds = λ i. refl; small = tt; once = tt; apart = refl; balance = λ i. omega arith },
        inl refl,
      )

select_loop-Closed :
    (rs : List Round) (s : EchoServer) → Running s → AllFresh rs s → Ends Closed (select_loop rs s)
unfolding select_loop select_round
select_loop-Closed [] s (h, run) fresh =
    Ends-if Closed s.keep_loop_select waits (goes s) (λ on. tt) (λ off. (h, ended s run off))
select_loop-Closed (r ∷ rs) s (h, run) (fresh, later) =
    Ends-if Closed s.keep_loop_select (select_round r s >>= select_loop rs) (goes s)
      (λ on.
        Ends-after Running Closed (select_round r s) (select_loop rs)
          (handle_selected-Running r s h on fresh (r.select (get_max_fd s + 1) s.clients_fds))
          (λ t p q. select_loop-Closed rs t p (later t q)))
      (λ off. (h, ended s run off))

listening-IsEcho : (c : Starting) (s : EchoServer) → new_server c ≡ goes s → Running (listening s)
unfolding new_server fd_set
listening-IsEcho c s started = elim (Option-cases (c.socket)) [
  | inl no_socket ↦ (let q : exits ≡ goes s = rw no_socket at started in cc)
  | inr (fd, made) ↦
      let q : (if c.setsockopt && c.bind && c.listen then goes (fresh_server fd) else exits)
          ≡ goes s =
        rw made at started in
      fresh_listening fd s (elim (Bool-cases (c.setsockopt && c.bind && c.listen)) [
        | inl fine ↦ sym (if_true _ _ _ fine) ∙ q
        | inr failed_call ↦ (let z : exits ≡ goes s = sym (if_false _ _ _ failed_call) ∙ q in cc)
      ])
]

-- When `accept` never gives a descriptor that is open, and the echo server's loop ends after its
-- start: no client is left, every descriptor was closed as often as it was accepted, and after
-- `killServer` the set of descriptors is empty.
pub select_phase-closes :
    (c : Starting) (s t : EchoServer) (rs : List Round)
    → new_server c ≡ goes s
    → AllFresh rs (listening s)
    → select_phase rs s ≡ goes t
    → (t.clients_sockets ≡ [])
      × ((i : ℕ) → accepts i t.traffic ≡ closes i t.traffic)
      × ((i : ℕ) → (kill_server t).clients_fds i ≡ false)
unfolding select_phase kill_server fd_clr
select_phase-closes c s t rs started fresh ends =
    let (room, loops) = if_goes (ltb s.welcome_socket fd_setsize) _ t ends in
    let (h, none_left) =
      ends_with Closed (select_loop rs (listening s)) t loops
        (select_loop-Closed rs (listening s) (listening-IsEcho c s started) fresh) in
    (
      none_left,
      λ i. h.balance i ∙ rw none_left (omega arith),
      λ i.
          let fds = h.fds i in
          let out : member i t.clients_sockets ≡ false = rw none_left refl in
          ground (arith, fds, out),
    )
