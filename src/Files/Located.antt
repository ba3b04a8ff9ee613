-- ===== src/Files/Located.antt =====
-- Which files of a folder `recursive_fill_kv` of Ex4/nweb23.c stores.
use mathlib.Core.List.{Memᴰ}
use comm_networks_workshop.Base.{ℕ, ◌≡◌, ◌≢◌, Option, List, [], ◌∷◌, ◌++◌, All}
use comm_networks_workshop.Fabric.{Fabric}
use comm_networks_workshop.Dkv.{Dkv}
use comm_networks_workshop.Files.Folder.{Folder, dt_dir, dt_reg, dt_other}

-- A regular file with its bytes stands at a path of names below the folder.
pub data At : Folder → List (List ℕ) → Option (List ℕ) → Type 0 where
  here :
      (name : List ℕ) (bytes : Option (List ℕ)) (rest : Folder)
      → At (dt_reg name bytes rest) (name ∷ []) bytes
  inside :
      (name : List ℕ) (inner rest : Folder) (cs : List (List ℕ)) (bytes : Option (List ℕ))
      → At inner cs bytes
      → At (dt_dir name inner rest) (name ∷ cs) bytes
  behind_dir :
      (name : List ℕ) (inner rest : Folder) (cs : List (List ℕ)) (bytes : Option (List ℕ))
      → At rest cs bytes
      → At (dt_dir name inner rest) cs bytes
  behind_reg :
      (name : List ℕ) (other : Option (List ℕ)) (rest : Folder) (cs : List (List ℕ))
      (bytes : Option (List ℕ))
      → At rest cs bytes
      → At (dt_reg name other rest) cs bytes
  behind_other :
      (name : List ℕ) (rest : Folder) (cs : List (List ℕ)) (bytes : Option (List ℕ))
      → At rest cs bytes
      → At (dt_other name rest) cs bytes

-- A name other than "." and "..".
abbrev pub NotDots : List ℕ → Type 0
NotDots c = (c ≢ 46 ∷ []) × (c ≢ 46 ∷ 46 ∷ [])

-- The directory and the names, with slashes between them.
abbrev pub joined : List ℕ → List (List ℕ) → List ℕ
joined dirname [] = dirname
joined dirname (c ∷ cs) = joined (dirname ++ 47 ∷ c) cs

-- The files found in a folder, with their paths.
abbrev pub File : Type 0
File = List ℕ × Option (List ℕ)

-- The file with this path stands below the folder.
abbrev pub Found : List ℕ → Folder → File → Type 0
Found dirname folder file =
    (cs : List (List ℕ)) × At folder cs file.1 × All NotDots cs × (file.0 ≡ joined dirname cs)
