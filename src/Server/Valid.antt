-- ===== src/Server/Valid.antt =====
-- The well-formedness of the server's database, and that every packet keeps it.
use comm_networks_workshop.Base.{
  ℕ, zero, suc, ◌<◌, ◌≡◌, refl, sym, ◌∙◌, Option, none, some, List, [], ◌∷◌, arith, length,
  length-append, drop, All,
}
use mathlib.Core.List.{append-nil}
use comm_networks_workshop.Server.{
  Entry, Server, find_entry, write_entry, overwrite_with, append_entry, stored_value,
}
use comm_networks_workshop.Server.Entries.{
  length-write_entry, All-write_entry, All-append_entry, Unique, Unique-append, Unique-write_entry,
}

-- An entry holds its value itself, with its length, or names a pool node.
abbrev pub Placed : Entry → Option (List ℕ) → Type 0
Placed e none = 0 < e.large_val_mem_info
Placed e (some v) = (length v ≡ e.val_len) × (e.large_val_mem_info ≡ 0)

abbrev pub IsEntry : Entry → Type 0
IsEntry e = (e.key_len ≡ length e.key) × Placed e e.value

pub record IsValid (s : Server) : Type 0 where
  pub counted : s.entries_counter ≡ length s.entries
  pub formed : All IsEntry s.entries
  pub unique : Unique s.entries

-- A write of a well-formed entry under its own key.
pub write-IsValid :
    (s : Server) (k : List ℕ) (e' : Entry)
    → IsValid s
    → IsEntry e'
    → e'.key ≡ k
    → IsValid (record s { entries = write_entry k e' s.entries })
write-IsValid s k e' v f q = record {
  counted = v.counted ∙ sym (length-write_entry k e' s.entries);
  formed = All-write_entry IsEntry k e' s.entries f v.formed;
  unique = Unique-write_entry k e' s.entries q v.unique;
}

pub append-IsValid :
    (s : Server) (e' : Entry)
    → IsValid s
    → IsEntry e'
    → find_entry e'.key s.entries ≡ none
    → IsValid (append_entry s e')
unfolding append_entry
append-IsValid s e' v f q = record {
  counted = omega (arith, v.counted, length-append s.entries (e' ∷ []));
  formed = All-append_entry IsEntry e' s.entries f v.formed;
  unique = Unique-append e'.key e' s.entries q refl v.unique;
}

drop-all {ℓ} : {A : Type ℓ} (n : ℕ) (xs : List A) → length xs ≡ n → drop n xs ≡ []
drop-all zero [] h = refl
drop-all zero (x ∷ xs) h = absurd (omega arith)
drop-all (suc n) [] h = refl
drop-all (suc n) (x ∷ xs) h = drop-all n xs (omega arith)

-- A kept buffer of the old length is overwritten whole.
pub stored_value-eq :
    (e : Entry) (vlen : ℕ) (old v : List ℕ) → length old ≡ e.val_len → stored_value e vlen old v ≡ v
unfolding stored_value
stored_value-eq e vlen old v h = ground (arith, drop-all e.val_len old h, append-nil v)

pub overwrite_with-IsValid :
    (s : Server) (e : Entry) (vlen : ℕ) (v : List ℕ) (o : Option (List ℕ))
    → IsValid s
    → e.key_len ≡ length e.key
    → Placed e o
    → length v ≡ vlen
    → IsValid (overwrite_with s e vlen v o)
unfolding overwrite_with
overwrite_with-IsValid s e vlen v none h k f l =
    let w =
      write-IsValid s e.key (record e { large_val_mem_info = 0; val_len = vlen; value = some v }) h
        (k, (l, refl)) refl in
    record { counted = w.counted; formed = w.formed; unique = w.unique }
overwrite_with-IsValid s e vlen v (some old) h k f l =
    write-IsValid s e.key (record e { val_len = vlen; value = some (stored_value e vlen old v) }) h
      (k, (rw (stored_value-eq e vlen old v f.0) l, f.1)) refl
