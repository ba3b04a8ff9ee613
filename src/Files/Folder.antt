-- ===== src/Files/Folder.antt =====
-- `recursive_fill_kv` of Ex4/nweb23.c, which stores all files of a folder and of the folders in it.
use comm_networks_workshop.Base.{
  ℕ, ◌≡◌, refl, sym, ap, ◌∙◌, fun_ext, inl, inr, Bool, true, false, ◌||◌, Option, none, some, List,
  [], ◌∷◌, ◌++◌, Bool-cases, str_eq,
}
use comm_networks_workshop.Run.{Run, ◌>>=◌, bind-bind, ok, fault, out_of_fuel, error_return}
use comm_networks_workshop.Fabric.{Fabric}
use comm_networks_workshop.Dkv.{Dkv}
use comm_networks_workshop.Files.Spread.{dkv_set_file}

-- What `readdir` gives, entry by entry: a folder with its own entries, a regular file with its
-- bytes, unless it cannot be opened, or something else. A folder that cannot be opened has none.
pub data Folder : Type 0 where
  no_more : Folder
  dt_dir : List ℕ → Folder → Folder → Folder
  dt_reg : List ℕ → Option (List ℕ) → Folder → Folder
  dt_other : List ℕ → Folder → Folder

-- "." and ".."
unfoldable pub is_dots : List ℕ → Bool
is_dots name = str_eq name (46 ∷ []) || str_eq name (46 ∷ 46 ∷ [])

-- dirname, "/" and the name.
unfoldable pub path_of : List ℕ → List ℕ → List ℕ
path_of dirname name = dirname ++ 47 ∷ name

-- The result of `dkv_set` is not looked at.
unfoldable pub despite_errors : Dkv → Run Dkv → Run Dkv
despite_errors d (ok d') = ok d'
despite_errors d fault = fault
despite_errors d out_of_fuel = out_of_fuel
despite_errors d error_return = ok d

module _ (f : Fabric) (beyond : List ℕ → ℕ) where
  -- The size of a file that cannot be opened becomes 2^32 - 1, and its bytes are not mapped.
  unfoldable pub store_file : List ℕ → Option (List ℕ) → Dkv → Run Dkv
  store_file path none d = fault
  store_file path (some bytes) d = despite_errors d (dkv_set_file f (beyond path) path bytes d)

  unfoldable pub recursive_fill_kv : List ℕ → Folder → Dkv → Run Dkv
  recursive_fill_kv dirname no_more d = ok d
  recursive_fill_kv dirname (dt_dir name inner rest) d = elim (is_dots name) [
    | true ↦ recursive_fill_kv dirname rest d
    | false ↦ recursive_fill_kv (path_of dirname name) inner d >>= recursive_fill_kv dirname rest
  ]
  recursive_fill_kv dirname (dt_reg name bytes rest) d = elim (is_dots name) [
    | true ↦ recursive_fill_kv dirname rest d
    | false ↦ store_file (path_of dirname name) bytes d >>= recursive_fill_kv dirname rest
  ]
  recursive_fill_kv dirname (dt_other name rest) d = recursive_fill_kv dirname rest d

  -- The files one after another.
  unfoldable pub store_all : List (List ℕ × Option (List ℕ)) → Dkv → Run Dkv
  store_all [] d = ok d
  store_all ((path, bytes) ∷ files) d = store_file path bytes d >>= store_all files

  store_all-append :
      (xs ys : List (List ℕ × Option (List ℕ))) (d : Dkv)
      → store_all (xs ++ ys) d ≡ (store_all xs d >>= store_all ys)
  unfolding store_all
  store_all-append [] ys d = refl
  store_all-append ((path, bytes) ∷ xs) ys d =
      ap (λ k. store_file path bytes d >>= k) (fun_ext λ d'. store_all-append xs ys d')
      ∙ sym (bind-bind (store_file path bytes d) (store_all xs) (store_all ys))

-- The regular files of a folder and of the folders in it, by their paths, in the order of `readdir`.
unfoldable pub files_of : List ℕ → Folder → List (List ℕ × Option (List ℕ))
files_of dirname no_more = []
files_of dirname (dt_dir name inner rest) = elim (is_dots name) [
  | true ↦ files_of dirname rest
  | false ↦ files_of (path_of dirname name) inner ++ files_of dirname rest
]
files_of dirname (dt_reg name bytes rest) = elim (is_dots name) [
  | true ↦ files_of dirname rest
  | false ↦ (path_of dirname name, bytes) ∷ files_of dirname rest
]
files_of dirname (dt_other name rest) = files_of dirname rest

module _ (f : Fabric) (beyond : List ℕ → ℕ) where
  -- The walk stores the files of the list.
  pub recursive_fill_kv-store_all :
      (dirname : List ℕ) (folder : Folder) (d : Dkv)
      → recursive_fill_kv f beyond dirname folder d ≡ store_all f beyond (files_of dirname folder) d
  unfolding recursive_fill_kv store_all files_of
  recursive_fill_kv-store_all dirname no_more d = refl
  recursive_fill_kv-store_all dirname (dt_dir name inner rest) d =
      elim (Bool-cases (is_dots name)) [
        | inl e ↦ rw (e, recursive_fill_kv, files_of) (recursive_fill_kv-store_all dirname rest d)
        | inr e ↦
            rw (e, recursive_fill_kv, files_of)
              (ap (λ m. m >>= recursive_fill_kv f beyond dirname rest)
                  (recursive_fill_kv-store_all (path_of dirname name) inner d)
                ∙ ap (λ k. store_all f beyond (files_of (path_of dirname name) inner) d >>= k)
                    (fun_ext λ d'. recursive_fill_kv-store_all dirname rest d')
                ∙ sym (
                    store_all-append f beyond (files_of (path_of dirname name) inner)
                      (files_of dirname rest) d))
      ]
  recursive_fill_kv-store_all dirname (dt_reg name bytes rest) d =
      elim (Bool-cases (is_dots name)) [
        | inl e ↦ rw (e, recursive_fill_kv, files_of) (recursive_fill_kv-store_all dirname rest d)
        | inr e ↦
            rw (e, recursive_fill_kv, files_of)
              (ap (λ k. store_file f beyond (path_of dirname name) bytes d >>= k)
                (fun_ext λ d'. recursive_fill_kv-store_all dirname rest d'))
      ]
  recursive_fill_kv-store_all dirname (dt_other name rest) d =
      recursive_fill_kv-store_all dirname rest d
