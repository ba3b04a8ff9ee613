-- ===== src/Files/Spread.antt =====
-- `mkv_` and `dkv_` set and get of Ex4/nweb23.c: the client that stores files, over all connections.
use comm_networks_workshop.Base.{ℕ, ◌+◌, List, length, get_elem?}
use comm_networks_workshop.Run.{Run, ◌>>=◌, in_bounds, ok}
use comm_networks_workshop.Packet.{sizeof_packet}
use comm_networks_workshop.Fabric.{Fabric}
use comm_networks_workshop.Dkv.{Dkv, link_of, put_link, ask_indexer}
use comm_networks_workshop.Files.{FileAnswer, kv_set_file, kv_get_file}

module _ (f : Fabric) where
  unfoldable pub mkv_set_file : ℕ → ℕ → List ℕ → List ℕ → Dkv → Run Dkv
  mkv_set_file beyond kv_id key value d = do
    c ← in_bounds (get_elem? d.conns kv_id)
    l ← kv_set_file f beyond key value (link_of d c)
    ok (put_link kv_id l d)

  unfoldable pub mkv_get_file : ℕ → List ℕ → Dkv → Run (FileAnswer × Dkv)
  mkv_get_file kv_id key d = do
    c ← in_bounds (get_elem? d.conns kv_id)
    (v, l) ← kv_get_file f key (link_of d c)
    ok (v, put_link kv_id l d)

  -- The FIND of this client is one byte longer than that of Ex4/kv_client.c.
  unfoldable pub locate_file : List ℕ → Dkv → Run (Dkv × ℕ)
  locate_file key d = ask_indexer f (length key + 1 + sizeof_packet) key d

  unfoldable pub dkv_set_file : ℕ → List ℕ → List ℕ → Dkv → Run Dkv
  dkv_set_file beyond key value d = do
    (d', kv_id) ← locate_file key d
    mkv_set_file beyond kv_id key value d'

  unfoldable pub dkv_get_file : List ℕ → Dkv → Run (FileAnswer × Dkv)
  dkv_get_file key d = do (d', kv_id) ← locate_file key d; mkv_get_file kv_id key d'
