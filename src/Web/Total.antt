-- ===== src/Web/Total.antt =====
-- `web` of Ex4/nweb23.c stays inside its buffer.
use comm_networks_workshop.Base.{◌<◌, ◌≡◌}
use comm_networks_workshop.Run.{Run, ok}
use comm_networks_workshop.Bytes.{Buf}

abbrev Answers : {A : Type 0} → Run A → Type 0
Answers {A} m = (a : A) × (m ≡ ok a)

-- The method and its blank stand at the start.
abbrev IsGet : Buf → Type 0
IsGet b = (0 < b 0) × (0 < b 1) × (0 < b 2) × (0 < b 3)
