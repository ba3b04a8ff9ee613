-- ===== src/Sessions/Opening.antt =====
-- `mkv_open` of Ex4/kv_client.c connects to every server that the arguments name.
use comm_networks_workshop.Base.{
  ℕ, suc, ◌+◌, ◌≡◌, refl, ap, ◌∙◌, inl, inr, Option, none, some, List, [], ◌∷◌, arith, Option-cases,
  length, take, length-take, All,
}
use comm_networks_workshop.Run.{ok}
use comm_networks_workshop.Dkv.{Conn}
use comm_networks_workshop.Args.{
  Address, strtol, parse_address, default_srv_port, terminator, parse_servers,
}
use comm_networks_workshop.Args.Addresses.{Named, count_servers-parse_servers}
use comm_networks_workshop.Sessions.{open_all, mkv_open}

module _ (connect : Address → Option Conn) where
  length-open_all :
      (servers : List Address) (cs : List Conn)
      → open_all connect servers ≡ some cs
      → length cs ≡ length servers
  unfolding open_all
  length-open_all [] cs h = let q : [] ≡ cs = cc h in rw (← q) refl
  length-open_all (a ∷ servers) cs h = elim (Option-cases (connect a)) [
    | inl bad ↦ let q : none ≡ some cs = rw (open_all, bad) at h in cc q
    | inr (c, good) ↦ elim (Option-cases (open_all connect servers)) [
      | inl bad ↦ let q : none ≡ some cs = rw (open_all, good, bad) at h in cc q
      | inr (rest, all) ↦
          let q : some (c ∷ rest) ≡ some cs = rw (open_all, good, all) at h in
          let r : c ∷ rest ≡ cs = cc q in rw (← r) (ap suc (length-open_all servers rest all))
    ]
  ]

  length-parse_servers :
      (args : List (List ℕ)) (servers : List Address)
      → parse_servers args ≡ some servers
      → length servers ≡ length args + 1
  unfolding parse_servers
  length-parse_servers [] servers h = let q : terminator ∷ [] ≡ servers = cc h in rw (← q) refl
  length-parse_servers (arg ∷ args) servers h =
      elim (Option-cases (parse_address strtol default_srv_port arg)) [
        | inl bad ↦ let q : none ≡ some servers = rw (parse_servers, bad) at h in cc q
        | inr (a, good) ↦ elim (Option-cases (parse_servers args)) [
          | inl bad ↦ let q : none ≡ some servers = rw (parse_servers, good, bad) at h in cc q
          | inr (rest, more) ↦
              let q : some (a ∷ rest) ≡ some servers = rw (parse_servers, good, more) at h in
              let r : a ∷ rest ≡ servers = cc q in
              rw (← r) (omega (arith, length-parse_servers args rest more))
        ]
      ]

  -- When the arguments for the servers are accepted, each of them begins with a character of the
  -- host's name, and `mkv_open` succeeds, there is one connection for each argument.
  mkv_open-parse_servers :
      (args : List (List ℕ)) (servers : List Address) (conns : List Conn)
      → All Named args
      → parse_servers args ≡ some servers
      → mkv_open connect servers ≡ ok (some conns)
      → length conns ≡ length args
  unfolding mkv_open
  mkv_open-parse_servers args servers conns named h e =
      let n = count_servers-parse_servers args servers named h in
      let q : ok (open_all connect (take (length args) servers)) ≡ ok (some conns) = rw n at e in
      let r : open_all connect (take (length args) servers) ≡ some conns = cc q in
      length-open_all (take (length args) servers) conns r
      ∙ length-take (length args) servers
      ∙ omega (arith, length-parse_servers args servers h)
