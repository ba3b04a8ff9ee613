-- ===== src/Tests/Files.antt =====
-- Examples for the client that stores files.
use comm_networks_workshop.Base.{
  ℕ, ◌<◌, ◌≡◌, refl, ◌≢◌, none, some, List, [], ◌∷◌, ◌++◌, arith, str_eq, length, get_elem?,
}
use comm_networks_workshop.Run.{ok}
use comm_networks_workshop.Packet.{eager_protocol_limit}
use comm_networks_workshop.Fabric.{set_buffer, ideal}
use comm_networks_workshop.Server.{Entry, Server, find_entry}
use comm_networks_workshop.Client.{Link, c_str}
use comm_networks_workshop.Files.{file_set_size, kv_get_file, got_file}
use comm_networks_workshop.Bytes.{put_bytes}
use comm_networks_workshop.Bytes.Laws.{Holds-put_bytes}
use comm_networks_workshop.Pool.{zeros}
use comm_networks_workshop.Client.Rendezvous.{Kept}
use comm_networks_workshop.Client.RoundTrip.{with_pool}
use comm_networks_workshop.Indexer.Find.{home}
use comm_networks_workshop.Dkv.{Dkv, put_link}
use comm_networks_workshop.Files.Cached.{kv_get_file_again}
use comm_networks_workshop.Files.Spread.{dkv_set_file, dkv_get_file}
use comm_networks_workshop.Files.RoundTrip.{dkv_get_file-dkv_set_file}
use comm_networks_workshop.Files.Folder.{
  Folder, is_dots, path_of, files_of, no_more, dt_dir, dt_reg, dt_other,
}
use comm_networks_workshop.Tests.Data.{
  one_node, empty_server, new_client, a_key, a_key-IsText, not_cached,
}
use comm_networks_workshop.Tests.Routes.{two_servers, two_servers-IsReady}

-- A value with a NUL in it.
abbrev a_file : List ℕ
a_file = 1 ∷ 0 ∷ 2 ∷ []

file_fits : file_set_size a_key a_file < eager_protocol_limit
unfolding file_set_size
file_fits = omega arith

abbrev file_entry : Entry
file_entry = record {
  key = a_key;
  key_len = 3;
  value = none;
  val_len = 3;
  large_val_mem_info = 100;
}

abbrev file_server : Server
file_server = record empty_server {
  entries = file_entry ∷ [];
  pool = record one_node { mem = set_buffer one_node.mem 100 (put_bytes zeros 0 a_file) };
}

abbrev file_link : Link
file_link = record { client = new_client; server = file_server }

file_found : find_entry a_key (file_entry ∷ []) ≡ some file_entry
unfolding find_entry str_eq
file_found = refl

file_Kept : Kept a_key a_file 100 7 3 file_server
unfolding set_buffer
file_Kept = record {
  entry = file_entry;
  found = file_found;
  large = (refl, refl, refl);
  registered = refl;
  holds = Holds-put_bytes zeros 0 a_file;
}

dkv_get_file-dkv_set_file_example :
    (d' d'' : Dkv) × (l : Link) × (dkv_set_file ideal 0 a_key a_file two_servers ≡ ok d')
    × (get_elem? d'.conns (home a_key (length two_servers.conns))
        ≡ some (record { ctx_buf = l.client.buf; server = l.server }))
    × ((j : ℕ)
        → home a_key (length two_servers.conns) ≢ j
        → get_elem? d'.conns j ≡ get_elem? two_servers.conns j)
    × (dkv_get_file ideal a_key
          (put_link (home a_key (length two_servers.conns)) (with_pool one_node l) d')
        ≡ ok (got_file (c_str a_file) (some (length a_file)), d''))
dkv_get_file-dkv_set_file_example =
    dkv_get_file-dkv_set_file ideal a_key a_file two_servers two_servers-IsReady a_key-IsText
      (omega arith) file_fits 0 one_node

kv_get_file_again_example :
    (l' : Link) × (x : ℕ) × (kv_get_file ideal a_key file_link
      ≡ ok (got_file (a_file ++ x ∷ []) (some 3), l'))
    × (kv_get_file ideal a_key l' ≡ ok (got_file (c_str a_file) none, l'))
kv_get_file_again_example =
    kv_get_file_again ideal a_key a_file file_link 100 7 a_key-IsText (omega arith) (omega arith)
      (omega arith) (omega arith) (omega arith) not_cached file_Kept

-- The folder "w" with the file "b", a link, the folder "a" with the file "c", and itself as ".".
abbrev a_folder : Folder
a_folder = dt_reg (98 ∷ []) (some a_file) (
    dt_other (108 ∷ []) (
      dt_dir (97 ∷ []) (dt_reg (99 ∷ []) (some a_file) no_more) (dt_dir (46 ∷ []) no_more no_more)))

files_of-a_folder :
    files_of (119 ∷ []) a_folder
    ≡ ((119 ∷ 47 ∷ 98 ∷ []), some a_file) ∷ (((119 ∷ 47 ∷ 97 ∷ 47 ∷ 99 ∷ []), some a_file) ∷ [])
unfolding files_of path_of is_dots str_eq
files_of-a_folder = refl
