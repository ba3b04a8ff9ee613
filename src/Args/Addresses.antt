-- ===== src/Args/Addresses.antt =====
-- The arguments `host:port` of Ex4/kv_client.c.
use comm_networks_workshop.Base.{
  ℕ, suc, ◌+◌, ◌≤◌, ◌<◌, ◌≡◌, refl, sym, ap, ◌∙◌, inl, inr, true, false, none, some, List, [], ◌∷◌,
  ◌++◌, map, arith, ltb, ◌==◌, Option-cases, length, All, ℤ, pos, is_negative,
}
use comm_networks_workshop.Run.{ok}
use comm_networks_workshop.Setup.{out_of_range}
use comm_networks_workshop.Dkv.{count_servers}
use comm_networks_workshop.Args.{
  Address, skip_colons, token, behind_token, non_empty, first_token, second_token, strtol, to_short,
  token_port, parse_address, default_srv_port, terminator, parse_servers,
}

-- No character is a colon.
abbrev pub NoColon : List ℕ → Type 0
NoColon s = All (λ c. (c == 58) ≡ false) s

token_end : (s : List ℕ) → NoColon s → token s ≡ s
unfolding token
token_end [] h = refl
token_end (c ∷ s) h = rw (h.0) (ap (◌∷◌ c) (token_end s h.1))

token_colon : (s t : List ℕ) → NoColon s → token (s ++ 58 ∷ t) ≡ s
unfolding token
token_colon [] t h = refl
token_colon (c ∷ s) t h = rw (h.0) (ap (◌∷◌ c) (token_colon s t h.1))

behind_token_end : (s : List ℕ) → NoColon s → behind_token s ≡ []
unfolding behind_token
behind_token_end [] h = refl
behind_token_end (c ∷ s) h = rw (h.0) (behind_token_end s h.1)

behind_token_colon : (s t : List ℕ) → NoColon s → behind_token (s ++ 58 ∷ t) ≡ t
unfolding behind_token
behind_token_colon [] t h = refl
behind_token_colon (c ∷ s) t h = rw (h.0) (behind_token_colon s t h.1)

skip_ok : (c : ℕ) (s : List ℕ) → (c == 58) ≡ false → skip_colons (c ∷ s) ≡ c ∷ s
unfolding skip_colons
skip_ok c s h = rw (skip_colons, h)

first_token_end : (c : ℕ) (s : List ℕ) → NoColon (c ∷ s) → first_token (c ∷ s) ≡ some (c ∷ s)
unfolding first_token non_empty
first_token_end c s h =
    ap (λ x. non_empty (token x)) (skip_ok c s h.0) ∙ ap non_empty (token_end (c ∷ s) h)

first_token_colon :
    (c : ℕ) (s t : List ℕ) → NoColon (c ∷ s) → first_token ((c ∷ s) ++ 58 ∷ t) ≡ some (c ∷ s)
unfolding first_token non_empty
first_token_colon c s t h =
    ap (λ x. non_empty (token x)) (skip_ok c (s ++ 58 ∷ t) h.0)
    ∙ ap non_empty (token_colon (c ∷ s) t h)

second_token_end : (c : ℕ) (s : List ℕ) → NoColon (c ∷ s) → second_token (c ∷ s) ≡ none
unfolding second_token non_empty skip_colons token
second_token_end c s h =
    ap (λ x. non_empty (token (skip_colons (behind_token x)))) (skip_ok c s h.0)
    ∙ ap (λ x. non_empty (token (skip_colons x))) (behind_token_end (c ∷ s) h)

second_token_colon :
    (c d : ℕ) (s t : List ℕ)
    → NoColon (c ∷ s)
    → NoColon (d ∷ t)
    → second_token ((c ∷ s) ++ 58 ∷ d ∷ t) ≡ some (d ∷ t)
unfolding second_token non_empty
second_token_colon c d s t h p =
    ap (λ x. non_empty (token (skip_colons (behind_token x)))) (skip_ok c (s ++ 58 ∷ d ∷ t) h.0)
    ∙ ap (λ x. non_empty (token (skip_colons x))) (behind_token_colon (c ∷ s) (d ∷ t) h)
    ∙ ap (λ x. non_empty (token x)) (skip_ok d t p.0)
    ∙ ap non_empty (token_end (d ∷ t) p)

-- An argument without a colon that is not empty gives it as the host, with the default port.
pub parse_address-host :
    (number : List ℕ → ℤ) (default_port c : ℕ) (host : List ℕ)
    → NoColon (c ∷ host)
    → parse_address number default_port (c ∷ host)
      ≡ some (record { servername = some (c ∷ host); port = to_short (pos default_port) })
unfolding parse_address token_port
parse_address-host number default_port c host h =
    rw (parse_address, second_token_end c host h, first_token_end c host h)

-- An argument of a host, a colon and a port, neither of them empty or with a colon, whose port is
-- read as a number from 0 to 65535, gives the host and the number converted to a short.
pub parse_address-port :
    (number : List ℕ → ℤ) (default_port c d : ℕ) (host port : List ℕ)
    → NoColon (c ∷ host)
    → NoColon (d ∷ port)
    → out_of_range (number (d ∷ port)) ≡ false
    → parse_address number default_port ((c ∷ host) ++ 58 ∷ d ∷ port)
      ≡ some (record { servername = some (c ∷ host); port = to_short (number (d ∷ port)) })
unfolding parse_address token_port
parse_address-port number default_port c d host port h p range = rw (
  parse_address,
  second_token_colon c d host port h p,
  token_port,
  range,
  first_token_colon c host (d ∷ port) h,
)

-- A port above 32767 becomes negative.
high_port : (n : ℕ) → 32767 < n → is_negative (to_short (pos n)) ≡ true
unfolding to_short
high_port n h = let e : ltb n 32768 ≡ false = ground arith in rw e

-- An argument of a host, a colon and a port, neither of them empty or with a colon, whose port is
-- read as a number from 32768 to 65535, is accepted, and its port is stored as a negative number.
pub parse_address-high_port :
    (number : List ℕ → ℤ) (default_port n c d : ℕ) (host port : List ℕ)
    → NoColon (c ∷ host)
    → NoColon (d ∷ port)
    → number (d ∷ port) ≡ pos n
    → 32767 < n
    → n ≤ 65535
    → (a : Address) × (parse_address number default_port ((c ∷ host) ++ 58 ∷ d ∷ port) ≡ some a)
      × (is_negative a.port ≡ true)
unfolding out_of_range
parse_address-high_port number default_port n c d host port h p e low high =
    let below : ltb 65535 n ≡ false = ground arith in
    let range : out_of_range (number (d ∷ port)) ≡ false = rw (e, out_of_range) below in
    (_, parse_address-port number default_port c d host port h p range, rw e (high_port n low))

-- An argument whose first character is part of the host's name.
abbrev pub Named : List ℕ → Type 0
Named [] = ⊥
Named (c ∷ cs) = (c == 58) ≡ false

token_named :
    (c : ℕ) (cs : List ℕ) → (c == 58) ≡ false → (s : List ℕ) × (first_token (c ∷ cs) ≡ some s)
unfolding first_token non_empty token
token_named c cs h = (c ∷ token cs, ap (λ x. non_empty (token x)) (skip_ok c cs h) ∙ rw (token, h))

address-Named :
    (arg : List ℕ) (a : Address)
    → Named arg
    → parse_address strtol default_srv_port arg ≡ some a
    → (s : List ℕ) × (a.servername ≡ some s)
unfolding parse_address
address-Named [] a h e = absurd h
address-Named (c ∷ cs) a h e =
    elim (Option-cases (token_port strtol default_srv_port (second_token (c ∷ cs)))) [
      | inl bad ↦ let q : none ≡ some a = rw (parse_address, bad) at e in cc q
      | inr (p, good) ↦
          let (s, named) = token_named c cs h in
          let q : some (record { servername = first_token (c ∷ cs); port = p }) ≡ some a =
            rw (parse_address, good) at e in
          let r : record { servername = first_token (c ∷ cs); port = p } ≡ a = cc q in
          (s, sym (ap (λ x. x.servername) r) ∙ named)
    ]

-- When the arguments for the servers are accepted and each of them begins with a character of the
-- host's name, the list that `parse_args` makes of them is counted as they are.
pub count_servers-parse_servers :
    (args : List (List ℕ)) (servers : List Address)
    → All Named args
    → parse_servers args ≡ some servers
    → count_servers (map (λ a. a.servername) servers) ≡ ok (length args)
unfolding parse_servers count_servers
count_servers-parse_servers [] servers h e =
    let r : terminator ∷ [] ≡ servers = cc e in rw (← r) refl
count_servers-parse_servers (arg ∷ args) servers h e =
    elim (Option-cases (parse_address strtol default_srv_port arg)) [
      | inl bad ↦ let q : none ≡ some servers = rw (parse_servers, bad) at e in cc q
      | inr (a, good) ↦ elim (Option-cases (parse_servers args)) [
        | inl bad ↦ let q : none ≡ some servers = rw (parse_servers, good, bad) at e in cc q
        | inr (rest, parsed_rest) ↦
            let (s, named) = address-Named arg a h.0 good in
            let q : some (a ∷ rest) ≡ some servers = rw (parse_servers, good, parsed_rest) at e in
            let r : a ∷ rest ≡ servers = cc q in
            let n : length args + 1 ≡ suc (length args) = omega arith in
            rw (← r)
              (rw (count_servers, named, count_servers-parse_servers args rest h.1 parsed_rest, n))
      ]
    ]
