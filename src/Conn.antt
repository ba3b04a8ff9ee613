-- ===== src/Conn.antt =====
-- The connection context of Ex4/kv_server.c: the verbs resources that `pp_init_ctx` acquires and
-- `pp_close_ctx` releases, the states of the queue pair, and the posting of work requests. The
-- verbs library is not in the repository: whether its calls succeed is a parameter.
pub mod Life
use comm_networks_workshop.Base.{
  ℕ, zero, suc, ◌+◌, ◌-◌, ◌*◌, ◌/◌, ◌%◌, ◌^◌, ◌≤◌, ◌<◌, ◌≡◌, refl, sym, ap, ◌∙◌, fun_ext, ◌≢◌, ◌↔◌,
  ◌⊎◌, inl, inr, Bool, true, false, not, ◌&&◌, ◌||◌, Option, none, some, List, [], ◌∷◌, ◌++◌, map,
  arith, ltb, leb, ◌==◌, if◌then◌else◌, ltb→lt, lt→ltb, le→ltb, leb→le, ==_iff, tests, Bool-cases,
  Option-cases, str_eq, str_eq_refl, str_eq_sound, str_eq_iff, length, length-append, get_or, take,
  drop, replicate, length-take, take-append, length-replicate, All, get_or-append_left, get_elem?,
  set_elem, length-set_elem, get_elem?-set_elem, get_elem?-set_elem_ne, get_elem?-below,
  All-get_elem?,
}
use comm_networks_workshop.Run.{
  Run, ◌>>=◌, ◌>>◌, require, in_bounds, Ensures, Ensures-bind, Ensures-after, ok, fault,
  out_of_fuel, returns, faults, stops,
}
use comm_networks_workshop.Wire.{
  hex_digit, digit_value, hex_digits, FitsHex, fits_hex, print_hex_from, print_hex, scan_digits,
  scan_hex, scan_char, htonl, Gid, Dest, gid_to_wire_gid, wire_word, wire_gid_to_gid, print_dest,
  scan_dest,
}

-- What the program holds; each of them is released by one call.
pub data Resource : Type 0 where
  ctx_block ctx_buf device channel pd mr cq qp : Resource

-- The states of a queue pair that the code goes through.
pub data QpState : Type 0 where
  reset init rtr rts : QpState

pub record Qp : Type 0 where
  pub qp_state : QpState
  pub dest_qp_num : ℕ
  pub rq_psn : ℕ
  pub sq_psn : ℕ
  pub dlid : ℕ
  pub is_global : Bool

-- Which calls succeed: the malloc or create of a resource, its release, and ibv_modify_qp to a
-- state.
pub record Verbs : Type 0 where
  pub acquires : Resource → Bool
  pub releases : Resource → Bool
  pub modifies : QpState → Bool

-- `none` for the context pointer is NULL; `held` is what has been acquired and not released.
pub record Held : Type 0 where
  pub ctx : Option Qp
  pub held : List Resource

abbrev pub new_qp : Qp
new_qp = record {
  qp_state = reset;
  dest_qp_num = 0;
  rq_psn = 0;
  sq_psn = 0;
  dlid = 0;
  is_global = false;
}

-- The steps of `pp_init_ctx` in order; with `use_event` there is a completion channel.
abbrev pub init_steps : Bool → List Resource
init_steps true = ctx_block ∷ ctx_buf ∷ device ∷ channel ∷ pd ∷ mr ∷ cq ∷ qp ∷ []
init_steps false = ctx_block ∷ ctx_buf ∷ device ∷ pd ∷ mr ∷ cq ∷ qp ∷ []

-- A number for each resource.
unfoldable pub number_of : Resource → ℕ
number_of ctx_block = 0
number_of ctx_buf = 1
number_of device = 2
number_of channel = 3
number_of pd = 4
number_of mr = 5
number_of cq = 6
number_of qp = 7

-- What is held when `r` has been released once.
unfoldable pub released : Resource → List Resource → List Resource
released r [] = []
released r (x ∷ held) = if number_of x == number_of r then held else x ∷ released r held

module _ (v : Verbs) where
  -- The acquisitions: the flag says that all of them succeeded, and the list grows at its head.
  unfoldable pub acquire_all : List Resource → List Resource → Bool × List Resource
  acquire_all [] held = (true, held)
  acquire_all (r ∷ rs) held =
      let rest = acquire_all rs (r ∷ held) in if v.acquires r then rest else (false, held)

  -- The end of `pp_init_ctx`: the queue pair goes to INIT.
  unfoldable pub finish_init : Bool → List Resource → Held
  finish_init false held = record { ctx = none; held = held }
  finish_init true held =
      if v.modifies init
      then record { ctx = some (record new_qp { qp_state = init }); held = held }
      else record { ctx = none; held = held }

  unfoldable pub pp_init_ctx : Bool → Held
  pp_init_ctx use_event =
      let (done, held) = acquire_all (init_steps use_event) [] in finish_init done held

  -- The releases in order, each of which takes its resource off what is held; `free` cannot fail.
  -- The number is the return value.
  unfoldable pub release_all : List Resource → List Resource → List Resource × ℕ
  release_all [] held = (held, 0)
  release_all (ctx_buf ∷ rs) held = release_all rs (released ctx_buf held)
  release_all (ctx_block ∷ rs) held = release_all rs (released ctx_block held)
  release_all (r ∷ rs) held =
      let rest = release_all rs (released r held) in if v.releases r then rest else (held, 1)

  -- `pp_connect_ctx`: to RTR with the other side's address, then to RTS with the own sequence
  -- number; 1 at the first failure.
  unfoldable pub to_rtr : Dest → Qp → Option Qp
  to_rtr dest q =
      if v.modifies rtr
      then some (record q {
        qp_state = rtr;
        dest_qp_num = dest.qpn;
        rq_psn = dest.psn;
        dlid = dest.lid;
        is_global = not ((dest.gid.raw8 == 0) && (dest.gid.raw12 == 0));
      })
      else none

  unfoldable pub to_rts : ℕ → Qp → Qp × ℕ
  to_rts my_psn q =
      if v.modifies rts then (record q { qp_state = rts; sq_psn = my_psn }, 0) else (q, 1)

  unfoldable pub pp_connect_ctx : ℕ → Dest → Qp → Qp × ℕ
  pp_connect_ctx my_psn dest q = elim (to_rtr dest q) [ none ↦ (q, 1) | some q' ↦ to_rts my_psn q' ]

-- The order in which `pp_close_ctx` releases what a context holds.
unfoldable pub close_steps : Bool → List Resource
close_steps true = qp ∷ cq ∷ mr ∷ pd ∷ channel ∷ device ∷ ctx_buf ∷ ctx_block ∷ []
close_steps false = qp ∷ cq ∷ mr ∷ pd ∷ device ∷ ctx_buf ∷ ctx_block ∷ []

-- What is still held of `held`, and the return value.
unfoldable pub pp_close_ctx : Verbs → Bool → List Resource → List Resource × ℕ
pp_close_ctx v has_channel held = release_all v (close_steps has_channel) held

-- `pp_post_recv`: `room` more requests fit into the receive queue, then ibv_post_recv fails.
unfoldable pub pp_post_recv : ℕ → ℕ → ℕ
pp_post_recv zero room = 0
pp_post_recv (suc n) zero = 0
pp_post_recv (suc n) (suc room) = pp_post_recv n room + 1
