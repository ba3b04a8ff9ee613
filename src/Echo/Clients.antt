-- ===== src/Echo/Clients.antt =====
-- The sockets of the clients of Ex2/server.cpp, from `accept` to `close`.
use comm_networks_workshop.Base.{
  ℕ, ◌+◌, ◌≡◌, refl, ◌≢◌, inl, inr, Bool, true, false, not, ◌&&◌, ◌||◌, Option, none, some, List,
  [], ◌∷◌, ◌++◌, arith, ltb, ◌==◌, ltb→lt, ==_iff, Bool-cases, Option-cases, take, All,
}
use comm_networks_workshop.Echo.{
  Outcome, ◌>>=◌, Fds, fd_setsize, fd_set, fd_clr, emplace, erase, Traffic, EchoServer, Round,
  answer_client, echo_client, welcome_client, goes, exits, overruns, waits, accepted, received,
  sent, closed,
}
use comm_networks_workshop.Echo.Sets.{
  member, NoTwice, IsFd, member-emplace, All-emplace, NoTwice-emplace, member-erase, All-erase,
  NoTwice-erase,
}

-- What holds of the result, if the call has one.
abbrev pub Ends : {A : Type 0} → (A → Type 0) → Outcome A → Type 0
Ends P (goes a) = P a
Ends P exits = Unit {0}
Ends P overruns = Unit {0}
Ends P waits = Unit {0}

pub Ends-bind :
    {A B : Type 0} (P : A → Type 0) (Q : B → Type 0) (m : Outcome A) (f : A → Outcome B)
    → Ends P m
    → ((a : A) → P a → Ends Q (f a))
    → Ends Q (m >>= f)
Ends-bind P Q (goes a) f p k = k a p
Ends-bind P Q exits f p k = tt
Ends-bind P Q overruns f p k = tt
Ends-bind P Q waits f p k = tt

abbrev pub one_if : Bool → ℕ
one_if true = 1
one_if false = 0

abbrev pub accepts : ℕ → List Traffic → ℕ
accepts i [] = 0
accepts i (accepted fd ∷ ts) = one_if (i == fd) + accepts i ts
accepts i (received fd bs ∷ ts) = accepts i ts
accepts i (sent fd bs ∷ ts) = accepts i ts
accepts i (closed fd ∷ ts) = accepts i ts

abbrev pub closes : ℕ → List Traffic → ℕ
closes i [] = 0
closes i (accepted fd ∷ ts) = closes i ts
closes i (received fd bs ∷ ts) = closes i ts
closes i (sent fd bs ∷ ts) = closes i ts
closes i (closed fd ∷ ts) = one_if (i == fd) + closes i ts

accepts-append : (i : ℕ) (ts us : List Traffic) → accepts i (ts ++ us) ≡ accepts i ts + accepts i us
accepts-append i [] us = omega arith
accepts-append i (accepted fd ∷ ts) us = omega (arith, accepts-append i ts us)
accepts-append i (received fd bs ∷ ts) us = accepts-append i ts us
accepts-append i (sent fd bs ∷ ts) us = accepts-append i ts us
accepts-append i (closed fd ∷ ts) us = accepts-append i ts us

closes-append : (i : ℕ) (ts us : List Traffic) → closes i (ts ++ us) ≡ closes i ts + closes i us
closes-append i [] us = omega arith
closes-append i (accepted fd ∷ ts) us = closes-append i ts us
closes-append i (received fd bs ∷ ts) us = closes-append i ts us
closes-append i (sent fd bs ∷ ts) us = closes-append i ts us
closes-append i (closed fd ∷ ts) us = omega (arith, closes-append i ts us)

-- The set holds the welcome socket and the clients, and a client has been accepted once more than
-- it was closed.
pub record IsEcho (s : EchoServer) : Type 0 where
  pub fds : (i : ℕ) → s.clients_fds i ≡ ((i == s.welcome_socket) || member i s.clients_sockets)
  pub small : All IsFd s.clients_sockets
  pub once : NoTwice s.clients_sockets
  pub apart : member s.welcome_socket s.clients_sockets ≡ false
  pub balance :
      (i : ℕ) → accepts i s.traffic ≡ closes i s.traffic + one_if (member i s.clients_sockets)

-- `accept` gives a descriptor that is not open.
abbrev pub Fresh : Round → EchoServer → Type 0
Fresh r s =
    (fd : ℕ) → r.accept ≡ some fd → (fd ≢ s.welcome_socket) × (member fd s.clients_sockets ≡ false)

abbrev pub Kept : EchoServer → EchoServer → Type 0
Kept s t = IsEcho t × (t.keep_loop_select ≡ s.keep_loop_select)

member-All : (c : ℕ) (cs : List ℕ) → All IsFd cs → member c cs ≡ true → IsFd c
member-All c [] h here = cc
member-All c (d ∷ cs) (hd, h) here = elim (Bool-cases (c == d)) [
  | inl at ↦ rw ((==_iff _ _).0 at) hd
  | inr off ↦ member-All c cs h (ground arith)
]

accepted_balance :
    (i fd a c : ℕ) (m : Bool)
    → a ≡ c + one_if m
    → (i ≡ fd → m ≡ false)
    → a + (one_if (i == fd) + 0) ≡ c + 0 + one_if ((i == fd) || m)
accepted_balance i fd a c m h out = elim (Bool-cases (i == fd)) [
  | inl at ↦ (let q : m ≡ false = out ((==_iff _ _).0 at) in rw at (omega (arith, rw q at h)))
  | inr off ↦ rw off (omega (arith, h))
]

closed_balance :
    (i fd a c : ℕ) (m : Bool)
    → a ≡ c + one_if m
    → (i ≡ fd → m ≡ true)
    → a + 0 ≡ c + (one_if (i == fd) + 0) + one_if (not (i == fd) && m)
closed_balance i fd a c m h was = elim (Bool-cases (i == fd)) [
  | inl at ↦ (let q : m ≡ true = was ((==_iff _ _).0 at) in rw at (omega (arith, rw q at h)))
  | inr off ↦ rw off (omega (arith, h))
]

module _ (r : Round) (s : EchoServer) (h : IsEcho s) where
  pub welcome_client-IsEcho :
      (read_fds : Fds) → Fresh r s → Ends (Kept s) (welcome_client r read_fds s)
  unfolding welcome_client
  welcome_client-IsEcho read_fds fresh = elim (Bool-cases (read_fds s.welcome_socket)) [
    | inr off ↦ rw off (h, refl)
    | inl on ↦ elim (Option-cases r.accept) [
      | inl none_came ↦ rw (on, none_came) tt
      | inr (fd, came) ↦
          let (ne, out) = fresh fd came in
          elim (Bool-cases (ltb fd fd_setsize)) [
            | inr above ↦ rw (on, came) (rw above tt)
            | inl below ↦
                let small : IsFd fd = ltb→lt _ _ below in
                let mem : (i : ℕ)
                    → member i (emplace fd s.clients_sockets)
                      ≡ ((i == fd) || member i s.clients_sockets) =
                  λ i. member-emplace fd small s.clients_sockets i h.small in
                rw (on, came)
                  (rw below (
                    record {
                      fds = λ i. unfold fd_set in rw (mem i) (ground (arith, h.fds i));
                      small = All-emplace fd small s.clients_sockets h.small;
                      once = NoTwice-emplace fd small s.clients_sockets h.small out h.once;
                      apart = rw (mem s.welcome_socket) (ground (arith, ne, h.apart));
                      balance = λ i.
                          rw (accepts-append i s.traffic (accepted fd ∷ []), mem i)
                            (rw (closes-append i s.traffic (accepted fd ∷ [])) (
                              accepted_balance i fd (accepts i s.traffic) (closes i s.traffic)
                                (member i s.clients_sockets) (h.balance i) (λ q. rw q out)));
                    },
                    refl,
                  ))
          ]
    ]
  ]

  -- What an echo leaves: the other clients.
  abbrev pub Others : ℕ → EchoServer → Type 0
  Others c t = (i : ℕ) → i ≢ c → member i t.clients_sockets ≡ member i s.clients_sockets

  answer_client-IsEcho :
      (c : ℕ)
      → member c s.clients_sockets ≡ true
      → (o : Option (List ℕ)) → Ends (λ t. Kept s t × Others c t) (answer_client r c o s)
  unfolding answer_client
  answer_client-IsEcho c here none = tt
  answer_client-IsEcho c here (some []) = elim (Bool-cases (r.shutdown c && r.close c)) [
    | inr failed_call ↦ rw failed_call tt
    | inl fine ↦
        let small : IsFd c = member-All c s.clients_sockets h.small here in
        let mem : (i : ℕ)
            → member i (erase c s.clients_sockets) ≡ (not (i == c) && member i s.clients_sockets) =
          λ i. member-erase c small s.clients_sockets i h.small h.once in
        let not_welcome : c ≢ s.welcome_socket =
          λ q. (let same : member c s.clients_sockets ≡ false = rw q (h.apart) in cc) in
        rw fine (
          (
            record {
              fds = λ i. unfold fd_clr in rw (mem i) (ground (arith, h.fds i, not_welcome));
              small = All-erase c small s.clients_sockets h.small;
              once = NoTwice-erase c small s.clients_sockets h.small h.once;
              apart = rw (mem s.welcome_socket) (ground (arith, h.apart));
              balance = λ i.
                  rw (accepts-append i s.traffic (closed c ∷ []), mem i)
                    (rw (closes-append i s.traffic (closed c ∷ [])) (
                      closed_balance i c (accepts i s.traffic) (closes i s.traffic)
                        (member i s.clients_sockets) (h.balance i) (λ q. rw q here)));
            },
            refl,
          ),
          λ i ne. rw (mem i) (ground arith),
        )
  ]
  answer_client-IsEcho c here (some (b ∷ bs)) = elim (Option-cases (r.send c (b ∷ bs))) [
    | inl none_sent ↦ rw (answer_client, none_sent) tt
    | inr (n, was_sent) ↦
        rw (answer_client, was_sent)
          (
            (
              record {
                fds = h.fds;
                small = h.small;
                once = h.once;
                apart = h.apart;
                balance = λ i.
                    rw
                      (accepts-append i s.traffic
                        (received c (b ∷ bs) ∷ sent c (take n (b ∷ bs)) ∷ []))
                      (rw
                        (closes-append i s.traffic
                          (received c (b ∷ bs) ∷ sent c (take n (b ∷ bs)) ∷ []))
                        (omega (arith, h.balance i)));
              },
              refl,
            ),
            λ i ne. refl,
          )
  ]

  pub echo_client-IsEcho :
      (c : ℕ)
      → member c s.clients_sockets ≡ true
      → Ends (λ t. Kept s t × Others c t) (echo_client r c s)
  unfolding echo_client
  echo_client-IsEcho c here = answer_client-IsEcho c here (r.recv c)
