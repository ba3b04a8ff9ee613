-- ===== src/Tests/Requests.antt =====
-- Examples for the web server: GET /a.gif of the top directory "d".
use comm_networks_workshop.Base.{
  ℕ, ◌≡◌, refl, List, [], ◌∷◌, ◌++◌, arith, ltb, if◌then◌else◌, length,
}
use comm_networks_workshop.Run.{ok}
use comm_networks_workshop.Bytes.{Buf, put_byte, put_bytes, get_str}
use comm_networks_workshop.Web.{
  starts_at, read_request, strip_lines, find_space, cut_at, has_dots, default_page, find_type,
  serve_file, web_file, web_path, web_method, web, image_gif, serves,
}
use comm_networks_workshop.Web.Dots.{NoDots, web-NoDots}
use comm_networks_workshop.Bytes.Strings.{IsText}
use comm_networks_workshop.Fabric.{ideal}
use comm_networks_workshop.Client.{Link}
use comm_networks_workshop.Client.RoundTrip.{with_pool}
use comm_networks_workshop.Indexer.Find.{home}
use comm_networks_workshop.Dkv.{Dkv, put_link}
use comm_networks_workshop.Files.{file_set_size}
use comm_networks_workshop.Files.Spread.{dkv_set_file}
use comm_networks_workshop.Web.Respond.{ok_header, web_serve, page}
use comm_networks_workshop.Web.Upload.{web_serve-dkv_set_file}
use comm_networks_workshop.Tests.Data.{one_node}
use comm_networks_workshop.Tests.Routes.{two_servers, two_servers-IsReady}

-- "GET /a.gif HTTP"
abbrev a_request : List ℕ
a_request = 71 ∷ 69 ∷ 84 ∷ 32 ∷ 47 ∷ 97 ∷ 46 ∷ 103 ∷ 105 ∷ 102 ∷ 32 ∷ 72 ∷ 84 ∷ 84 ∷ 80 ∷ []

-- "d/a.gif"
abbrev asked_key : List ℕ
asked_key = 100 ∷ 47 ∷ 97 ∷ 46 ∷ 103 ∷ 105 ∷ 102 ∷ []

-- What an earlier request has left: a longer path.
abbrev used : Buf
used i = if ltb i 30 then 46 else 0

-- The buffer when the key is asked for.
left : Buf
unfolding cut_at find_space strip_lines read_request put_bytes put_byte
left = cut_at 10 (strip_lines (length a_request) (read_request used a_request))

web_answers : web (100 ∷ []) used a_request ≡ ok (serves asked_key image_gif left)
unfolding left web web_method web_path web_file serve_file find_type default_page has_dots cut_at
    find_space strip_lines read_request starts_at get_str put_bytes put_byte
web_answers = refl

web-NoDots_example : (path : List ℕ) × (asked_key ≡ (100 ∷ []) ++ path) × NoDots path
web-NoDots_example = web-NoDots (100 ∷ []) used a_request asked_key image_gif left refl web_answers

asked_key-IsText : IsText asked_key
asked_key-IsText = (
  (omega arith, omega arith),
  (
    (omega arith, omega arith),
    (
      (omega arith, omega arith),
      (
        (omega arith, omega arith),
        (
          (omega arith, omega arith),
          ((omega arith, omega arith), ((omega arith, omega arith), tt)),
        ),
      ),
    ),
  ),
)

-- Two bytes are stored under the key, and the request is answered by them.
web_serve-dkv_set_file_example :
    (d' d'' : Dkv) × (l : Link) × (b : Buf) × (dkv_set_file ideal 0 asked_key
        (7 ∷ 0 ∷ [])
        two_servers
      ≡ ok d')
    × (web_serve ideal
          (100 ∷ [])
          used
          a_request
          (put_link (home asked_key (length two_servers.conns)) (with_pool one_node l) d')
        ≡ ok (page (ok_header 2 image_gif) (7 ∷ 0 ∷ []), b, d''))
unfolding file_set_size
web_serve-dkv_set_file_example =
    web_serve-dkv_set_file ideal (100 ∷ []) used a_request asked_key image_gif left web_answers
      (7 ∷ 0 ∷ []) two_servers 0 one_node two_servers-IsReady asked_key-IsText (omega arith)
      (omega arith)
