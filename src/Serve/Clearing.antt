-- ===== src/Serve/Clearing.antt =====
-- What `clear_server_data` of Ex4/kv_server.c leaves of the globals.
use comm_networks_workshop.Base.{
  ℕ, zero, suc, ◌≡◌, refl, sym, ap, ◌∙◌, ◌⊎◌, inl, inr, Bool, true, false, List, [], ◌∷◌, ◌++◌,
  arith, ◌==◌, Bool-cases,
}
use comm_networks_workshop.Run.{
  in_bounds, Ensures, Ensures-bind, Ensures-after, Ensures-weaken, returns, stops,
}
use comm_networks_workshop.Pool.{Mem}
use comm_networks_workshop.Server.{Entry, Server}
use comm_networks_workshop.Server.Valid.{IsValid}
use comm_networks_workshop.Serve.{clear_chain, clear_entries, clear_server_data}

-- `u` is what is left of `s`: the entries are freed from the first on, and when no call of
-- ibv_dereg_mr fails there are no entries and no nodes left. The counter is not reset.
pub record ClearedFrom (dereg_mr : ℕ → Bool) (s u : Server) : Type 0 where
  pub gone : List Entry
  pub entries_are : s.entries ≡ gone ++ u.entries
  pub counter_is : u.entries_counter ≡ s.entries_counter
  pub closed : u.close_server ≡ s.close_server
  pub all_gone :
      ((a : ℕ) → dereg_mr a ≡ true)
      → (u.entries ≡ []) × (u.pool.mem_pool_head ≡ 0) × (u.pool.tainted_mem_pool_head ≡ 0)

-- How the main loop leaves the globals: well formed, or cleared after they were well formed and a
-- packet closed the server.
abbrev pub Ended : (ℕ → Bool) → Server → Type 0
Ended dereg_mr u =
    IsValid u ⊎ ((s : Server) × IsValid s × (s.close_server ≡ true) × ClearedFrom dereg_mr s u)

module _ (dereg_mr : ℕ → Bool) where
  clear_chain-end :
      (fuel : ℕ) (m : Mem) (a : ℕ)
      → Ensures (λ x. ((b : ℕ) → dereg_mr b ≡ true) → x.1 ≡ 0) (clear_chain dereg_mr fuel m a)
  unfolding clear_chain
  clear_chain-end zero m a = stops
  clear_chain-end (suc fuel) m a = elim (Bool-cases (a == 0)) [
    | inl end ↦ rw (clear_chain, end) (returns λ fine. ground (arith, end))
    | inr more ↦
        rw (clear_chain, more)
          (Ensures-after (in_bounds (m a).rndv_mr) λ rkey. elim (Bool-cases (dereg_mr a)) [
            | inl good ↦
                rw good (Ensures-bind (clear_chain-end fuel m (m a).next_mem) λ x e. returns e)
            | inr bad ↦ rw bad (returns λ fine. let q : true ≡ false = sym (fine a) ∙ bad in cc q)
          ])
  ]

  abbrev Leaves : List Entry → List Entry → Type 0
  Leaves es left =
      ((gone : List Entry) × (es ≡ gone ++ left)) × (((b : ℕ) → dereg_mr b ≡ true) → left ≡ [])

  Leaves-more : (e : Entry) (es left : List Entry) → Leaves es left → Leaves (e ∷ es) left
  Leaves-more e es left ((gone, split), all) = ((e ∷ gone, ap (λ xs. e ∷ xs) split), all)

  clear_entries-Leaves :
      (m : Mem) (es : List Entry) → Ensures (λ x. Leaves es x.1) (clear_entries dereg_mr m es)
  unfolding clear_entries
  clear_entries-Leaves m [] = returns (([], refl), λ fine. refl)
  clear_entries-Leaves m (e ∷ es) = elim (Bool-cases (e.large_val_mem_info == 0)) [
    | inl small ↦
        rw (clear_entries, small)
          (Ensures-weaken (λ x. Leaves-more e es x.1) (clear_entries-Leaves m es))
    | inr large ↦
        rw (clear_entries, large)
          (Ensures-after (in_bounds (m e.large_val_mem_info).rndv_mr) λ rkey.
            elim (Bool-cases (dereg_mr e.large_val_mem_info)) [
              | inl good ↦
                  rw good (
                    Ensures-bind (clear_entries-Leaves m es)
                      λ x h. returns (Leaves-more e es x.1 h))
              | inr bad ↦ rw bad (
                  returns (
                    ([], refl),
                    λ fine. let q : true ≡ false = sym (fine e.large_val_mem_info) ∙ bad in cc q,
                  ))
            ])
  ]

  pub clear_server_data-ClearedFrom :
      (fuel : ℕ) (s : Server)
      → Ensures (λ x. ClearedFrom dereg_mr s x.1) (clear_server_data dereg_mr fuel s)
  unfolding clear_server_data
  clear_server_data-ClearedFrom fuel s =
      Ensures-bind (clear_chain-end fuel s.pool.mem s.pool.mem_pool_head) λ x end.
        elim (Bool-cases (x.1 == 0)) [
          | inr stuck ↦ rw stuck (
              returns (record {
                gone = [];
                entries_are = refl;
                counter_is = refl;
                closed = refl;
                all_gone = λ fine. absurd (ground (arith, stuck, end fine));
              }))
          | inl empty ↦ rw empty (
              Ensures-bind (clear_chain-end fuel s.pool.mem s.pool.tainted_mem_pool_head) λ y end'.
                elim (Bool-cases (y.1 == 0)) [
                  | inr stuck ↦ rw stuck (
                      returns (record {
                        gone = [];
                        entries_are = refl;
                        counter_is = refl;
                        closed = refl;
                        all_gone = λ fine. absurd (ground (arith, stuck, end' fine));
                      }))
                  | inl empty' ↦ rw empty' (
                      Ensures-bind (clear_entries-Leaves s.pool.mem s.entries) λ z h.
                        returns (record {
                          gone = (h.0).0;
                          entries_are = (h.0).1;
                          counter_is = refl;
                          closed = refl;
                          all_gone = λ fine. (h.1 fine, end fine, end' fine);
                        }))
                ])
        ]
