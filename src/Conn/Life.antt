-- ===== src/Conn/Life.antt =====
-- What `pp_init_ctx` and `pp_close_ctx` of Ex4/kv_server.c hold on each of their branches.
use comm_networks_workshop.Base.{
  ℕ, ◌≤◌, ◌<◌, ◌≡◌, refl, sym, ap, ◌∙◌, ◌↔◌, ◌⊎◌, inl, inr, Bool, true, false, none, some, List, [],
  ◌∷◌, arith, if◌then◌else◌, Bool-cases, length,
}
use comm_networks_workshop.Conn.{
  Resource, Qp, Verbs, new_qp, init_steps, number_of, released, acquire_all, finish_init,
  pp_init_ctx, release_all, close_steps, pp_close_ctx, ctx_block, ctx_buf, device, channel, pd, mr,
  cq, qp, init,
}

abbrev reverse_onto : List Resource → List Resource → List Resource
reverse_onto [] held = held
reverse_onto (r ∷ rs) held = reverse_onto rs (r ∷ held)

-- All acquired, or stopped at a failure with everything before it still held.
abbrev Acquired : List Resource → List Resource → Bool × List Resource → Type 0
Acquired rs held x =
    ((x.0 ≡ true) × (x.1 ≡ reverse_onto rs held)) ⊎ ((x.0 ≡ false) × (length held ≤ length x.1))

longer :
    (rs held : List Resource) (r : Resource) (x : Bool × List Resource)
    → Acquired rs (r ∷ held) x
    → Acquired (r ∷ rs) held x
longer rs held r x (inl a) = inl a
longer rs held r x (inr a) = inr (a.0, omega (arith, a.1))

acquire_all-Acquired :
    (v : Verbs) (rs held : List Resource) → Acquired rs held (acquire_all v rs held)
unfolding acquire_all
acquire_all-Acquired v [] held = inl (refl, refl)
acquire_all-Acquired v (r ∷ rs) held = elim (Bool-cases (v.acquires r)) [
  | inl good ↦ rw good (longer rs held r _ (acquire_all-Acquired v rs (r ∷ held)))
  | inr bad ↦ rw bad (inr (refl, omega arith))
]

-- The end of `pp_init_ctx` hands on what is held, and returns a context only if all was acquired.
finish_init-held :
    (v : Verbs) (done : Bool) (held : List Resource) → (finish_init v done held).held ≡ held
unfolding finish_init
finish_init-held v false held = refl
finish_init-held v true held = elim (Bool-cases (v.modifies init)) [ inl h ↦ rw h | inr h ↦ rw h ]

finish_init-ctx :
    (v : Verbs) (done : Bool) (held : List Resource) (q : Qp)
    → (finish_init v done held).ctx ≡ some q
    → (done ≡ true) × (q.qp_state ≡ init)
unfolding finish_init
finish_init-ctx v false held q h = cc
finish_init-ctx v true held q h = elim (Bool-cases (v.modifies init)) [
  | inl good ↦
      let g : some (record new_qp { qp_state = init }) ≡ some q = rw good at h in
      let e : record new_qp { qp_state = init } ≡ q = cc g in (refl, sym (ap (λ x. x.qp_state) e))
  | inr bad ↦ let g : none ≡ some q = rw bad at h in cc g
]

all_acquired :
    (rs : List Resource) (x : Bool × List Resource)
    → Acquired rs [] x
    → x.0 ≡ true
    → x.1 ≡ reverse_onto rs []
all_acquired rs x (inl a) h = a.1
all_acquired rs x (inr a) h = let g : false ≡ true = sym a.0 ∙ h in cc g

reverse_init_steps : (b : Bool) → reverse_onto (init_steps b) [] ≡ close_steps b
unfolding close_steps
reverse_init_steps true = refl
reverse_init_steps false = refl

-- A context that `pp_init_ctx` returns is in state INIT, and what is held is exactly what
-- `pp_close_ctx` releases, in that order.
pub pp_init_ctx-held :
    (v : Verbs) (use_event : Bool) (q : Qp)
    → (pp_init_ctx v use_event).ctx ≡ some q
    → (q.qp_state ≡ init) × ((pp_init_ctx v use_event).held ≡ close_steps use_event)
unfolding pp_init_ctx
pp_init_ctx-held v use_event q h =
    let x = acquire_all v (init_steps use_event) [] in
    let (all, state) = finish_init-ctx v x.0 x.1 q h in
    (
      state,
      finish_init-held v x.0 x.1
          ∙ all_acquired (init_steps use_event) x (acquire_all-Acquired v (init_steps use_event) [])
              all
          ∙ reverse_init_steps use_event,
    )

release_step :
    (b : Bool) (x : List Resource × ℕ) (r : Resource) (rs : List Resource)
    → (x.1 ≡ 0) ↔ (x.0 ≡ [])
    → ((if b then x else (r ∷ rs, 1)).1 ≡ 0) ↔ ((if b then x else (r ∷ rs, 1)).0 ≡ [])
release_step true x r rs h = h
release_step false x r rs h = (λ e. absurd (omega arith), λ e. cc)

release_all-zero :
    (v : Verbs) (rs : List Resource)
    → ((release_all v rs rs).1 ≡ 0) ↔ ((release_all v rs rs).0 ≡ [])
unfolding release_all released number_of
release_all-zero v [] = (λ h. refl, λ h. refl)
release_all-zero v (ctx_buf ∷ rs) = release_all-zero v rs
release_all-zero v (ctx_block ∷ rs) = release_all-zero v rs
release_all-zero v (device ∷ rs) =
    release_step (v.releases device) _ device rs (release_all-zero v rs)
release_all-zero v (channel ∷ rs) =
    release_step (v.releases channel) _ channel rs (release_all-zero v rs)
release_all-zero v (pd ∷ rs) = release_step (v.releases pd) _ pd rs (release_all-zero v rs)
release_all-zero v (mr ∷ rs) = release_step (v.releases mr) _ mr rs (release_all-zero v rs)
release_all-zero v (cq ∷ rs) = release_step (v.releases cq) _ cq rs (release_all-zero v rs)
release_all-zero v (qp ∷ rs) = release_step (v.releases qp) _ qp rs (release_all-zero v rs)

-- When `pp_init_ctx` returns a context and `pp_close_ctx` is called on it: it returns 0 when
-- nothing of all that `pp_init_ctx` has acquired is left to be released, and only then.
pub pp_close_ctx-pp_init_ctx :
    (v w : Verbs) (use_event : Bool) (q : Qp)
    → (pp_init_ctx v use_event).ctx ≡ some q
    → ((pp_close_ctx w use_event (pp_init_ctx v use_event).held).1 ≡ 0)
      ↔ ((pp_close_ctx w use_event (pp_init_ctx v use_event).held).0 ≡ [])
unfolding pp_close_ctx
pp_close_ctx-pp_init_ctx v w use_event q h =
    rw ((pp_init_ctx-held v use_event q h).1) (release_all-zero w (close_steps use_event))

keeps_held : (v : Verbs) (rs held : List Resource) → length held ≤ length (acquire_all v rs held).1
unfolding acquire_all
keeps_held v [] held = omega arith
keeps_held v (r ∷ rs) held = elim (Bool-cases (v.acquires r)) [
  | inl good ↦ rw good (omega (arith, keeps_held v rs (r ∷ held)))
  | inr bad ↦ rw bad (omega arith)
]

first_held :
    (v : Verbs) (rs : List Resource)
    → v.acquires ctx_block ≡ true
    → 0 < length (acquire_all v (ctx_block ∷ rs) []).1
unfolding acquire_all
first_held v rs good = rw good (keeps_held v rs (ctx_block ∷ []))

steps_held :
    (v : Verbs) (b : Bool)
    → v.acquires ctx_block ≡ true
    → 0 < length (acquire_all v (init_steps b) []).1
steps_held v true good = first_held v _ good
steps_held v false good = first_held v _ good

-- When a step of `pp_init_ctx` after the allocation of the context fails and it returns NULL,
-- something is still held.
pub pp_init_ctx_leaks :
    (v : Verbs) (use_event : Bool)
    → v.acquires ctx_block ≡ true
    → (pp_init_ctx v use_event).ctx ≡ none
    → 0 < length (pp_init_ctx v use_event).held
unfolding pp_init_ctx
pp_init_ctx_leaks v use_event good failed =
    let x = acquire_all v (init_steps use_event) [] in
    rw (finish_init-held v x.0 x.1) (steps_held v use_event good)
