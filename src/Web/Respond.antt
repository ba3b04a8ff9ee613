-- ===== src/Web/Respond.antt =====
-- What `web` of Ex4/nweb23.c sends to the browser, and the loop of its `main`.
use comm_networks_workshop.Base.{
  ℕ, Bool, true, false, none, some, List, [], ◌∷◌, ◌++◌, leb, length, take,
}
use comm_networks_workshop.Run.{Run, ◌>>=◌, ◌>>◌, require, ok, fault}
use comm_networks_workshop.Fabric.{Fabric}
use comm_networks_workshop.Dkv.{Dkv}
use comm_networks_workshop.Files.{FileAnswer, got_file, no_file}
use comm_networks_workshop.Web.{
  FileType, Reply, web, image_gif, image_jpg, image_jpeg, image_png, image_ico, image_zip, image_gz,
  image_tar, text_html, forbidden, serves,
}
use comm_networks_workshop.Template.Throughput.{decimal, max_digits}
use comm_networks_workshop.Files.Spread.{dkv_get_file}
use comm_networks_workshop.Bytes.{Buf, put_bytes}

-- The texts as character codes: the header up to the length, from there to the type, and the type.
abbrev pub header_start : List ℕ
header_start =
    72 ∷ 84 ∷ 84 ∷ 80 ∷ 47 ∷ 49 ∷ 46 ∷ 49 ∷ 32 ∷ 50 ∷ 48 ∷ 48 ∷ 32 ∷ 79 ∷ 75 ∷ 10 ∷ 83 ∷ 101 ∷ 114
    ∷ 118 ∷ 101 ∷ 114 ∷ 58 ∷ 32 ∷ 110 ∷ 119 ∷ 101 ∷ 98 ∷ 47 ∷ 50 ∷ 51 ∷ 46 ∷ 48 ∷ 10 ∷ 67 ∷ 111
    ∷ 110 ∷ 116 ∷ 101 ∷ 110 ∷ 116 ∷ 45 ∷ 76 ∷ 101 ∷ 110 ∷ 103 ∷ 116 ∷ 104 ∷ 58 ∷ 32 ∷ []

abbrev pub header_middle : List ℕ
header_middle =
    10 ∷ 67 ∷ 111 ∷ 110 ∷ 110 ∷ 101 ∷ 99 ∷ 116 ∷ 105 ∷ 111 ∷ 110 ∷ 58 ∷ 32 ∷ 99 ∷ 108 ∷ 111 ∷ 115
    ∷ 101 ∷ 10 ∷ 67 ∷ 111 ∷ 110 ∷ 116 ∷ 101 ∷ 110 ∷ 116 ∷ 45 ∷ 84 ∷ 121 ∷ 112 ∷ 101 ∷ 58 ∷ 32 ∷ []

unfoldable pub type_text : FileType → List ℕ
type_text image_gif = 105 ∷ 109 ∷ 97 ∷ 103 ∷ 101 ∷ 47 ∷ 103 ∷ 105 ∷ 102 ∷ []
type_text image_jpg = 105 ∷ 109 ∷ 97 ∷ 103 ∷ 101 ∷ 47 ∷ 106 ∷ 112 ∷ 103 ∷ []
type_text image_jpeg = 105 ∷ 109 ∷ 97 ∷ 103 ∷ 101 ∷ 47 ∷ 106 ∷ 112 ∷ 101 ∷ 103 ∷ []
type_text image_png = 105 ∷ 109 ∷ 97 ∷ 103 ∷ 101 ∷ 47 ∷ 112 ∷ 110 ∷ 103 ∷ []
type_text image_ico = 105 ∷ 109 ∷ 97 ∷ 103 ∷ 101 ∷ 47 ∷ 105 ∷ 99 ∷ 111 ∷ []
type_text image_zip = 105 ∷ 109 ∷ 97 ∷ 103 ∷ 101 ∷ 47 ∷ 122 ∷ 105 ∷ 112 ∷ []
type_text image_gz = 105 ∷ 109 ∷ 97 ∷ 103 ∷ 101 ∷ 47 ∷ 103 ∷ 122 ∷ []
type_text image_tar = 105 ∷ 109 ∷ 97 ∷ 103 ∷ 101 ∷ 47 ∷ 116 ∷ 97 ∷ 114 ∷ []
type_text text_html = 116 ∷ 101 ∷ 120 ∷ 116 ∷ 47 ∷ 104 ∷ 116 ∷ 109 ∷ 108 ∷ []

-- sprintf of the header, with its blank line.
unfoldable pub ok_header : ℕ → FileType → List ℕ
ok_header file_length fstr =
    header_start
    ++ decimal max_digits file_length
    ++ header_middle
    ++ type_text fstr
    ++ 10 ∷ 10 ∷ []

-- The answer that `logger` writes for FORBIDDEN.
abbrev pub forbidden_text : List ℕ
forbidden_text =
    72 ∷ 84 ∷ 84 ∷ 80 ∷ 47 ∷ 49 ∷ 46 ∷ 49 ∷ 32 ∷ 52 ∷ 48 ∷ 51 ∷ 32 ∷ 70 ∷ 111 ∷ 114 ∷ 98 ∷ 105 ∷ 100
    ∷ 100 ∷ 101 ∷ 110 ∷ 10 ∷ 67 ∷ 111 ∷ 110 ∷ 116 ∷ 101 ∷ 110 ∷ 116 ∷ 45 ∷ 76 ∷ 101 ∷ 110 ∷ 103
    ∷ 116 ∷ 104 ∷ 58 ∷ 32 ∷ 49 ∷ 56 ∷ 53 ∷ 10 ∷ 67 ∷ 111 ∷ 110 ∷ 110 ∷ 101 ∷ 99 ∷ 116 ∷ 105 ∷ 111
    ∷ 110 ∷ 58 ∷ 32 ∷ 99 ∷ 108 ∷ 111 ∷ 115 ∷ 101 ∷ 10 ∷ 67 ∷ 111 ∷ 110 ∷ 116 ∷ 101 ∷ 110 ∷ 116 ∷ 45
    ∷ 84 ∷ 121 ∷ 112 ∷ 101 ∷ 58 ∷ 32 ∷ 116 ∷ 101 ∷ 120 ∷ 116 ∷ 47 ∷ 104 ∷ 116 ∷ 109 ∷ 108 ∷ 10 ∷ 10
    ∷ 60 ∷ 104 ∷ 116 ∷ 109 ∷ 108 ∷ 62 ∷ 60 ∷ 104 ∷ 101 ∷ 97 ∷ 100 ∷ 62 ∷ 10 ∷ 60 ∷ 116 ∷ 105 ∷ 116
    ∷ 108 ∷ 101 ∷ 62 ∷ 52 ∷ 48 ∷ 51 ∷ 32 ∷ 70 ∷ 111 ∷ 114 ∷ 98 ∷ 105 ∷ 100 ∷ 100 ∷ 101 ∷ 110 ∷ 60
    ∷ 47 ∷ 116 ∷ 105 ∷ 116 ∷ 108 ∷ 101 ∷ 62 ∷ 10 ∷ 60 ∷ 47 ∷ 104 ∷ 101 ∷ 97 ∷ 100 ∷ 62 ∷ 60 ∷ 98
    ∷ 111 ∷ 100 ∷ 121 ∷ 62 ∷ 10 ∷ 60 ∷ 104 ∷ 49 ∷ 62 ∷ 70 ∷ 111 ∷ 114 ∷ 98 ∷ 105 ∷ 100 ∷ 100 ∷ 101
    ∷ 110 ∷ 60 ∷ 47 ∷ 104 ∷ 49 ∷ 62 ∷ 10 ∷ 84 ∷ 104 ∷ 101 ∷ 32 ∷ 114 ∷ 101 ∷ 113 ∷ 117 ∷ 101 ∷ 115
    ∷ 116 ∷ 101 ∷ 100 ∷ 32 ∷ 85 ∷ 82 ∷ 76 ∷ 44 ∷ 32 ∷ 102 ∷ 105 ∷ 108 ∷ 101 ∷ 32 ∷ 116 ∷ 121 ∷ 112
    ∷ 101 ∷ 32 ∷ 111 ∷ 114 ∷ 32 ∷ 111 ∷ 112 ∷ 101 ∷ 114 ∷ 97 ∷ 116 ∷ 105 ∷ 111 ∷ 110 ∷ 32 ∷ 105
    ∷ 115 ∷ 32 ∷ 110 ∷ 111 ∷ 116 ∷ 32 ∷ 97 ∷ 108 ∷ 108 ∷ 111 ∷ 119 ∷ 101 ∷ 100 ∷ 32 ∷ 111 ∷ 110 ∷ 32
    ∷ 116 ∷ 104 ∷ 105 ∷ 115 ∷ 32 ∷ 115 ∷ 105 ∷ 109 ∷ 112 ∷ 108 ∷ 101 ∷ 32 ∷ 115 ∷ 116 ∷ 97 ∷ 116
    ∷ 105 ∷ 99 ∷ 32 ∷ 102 ∷ 105 ∷ 108 ∷ 101 ∷ 32 ∷ 119 ∷ 101 ∷ 98 ∷ 115 ∷ 101 ∷ 114 ∷ 118 ∷ 101
    ∷ 114 ∷ 46 ∷ 10 ∷ 60 ∷ 47 ∷ 98 ∷ 111 ∷ 100 ∷ 121 ∷ 62 ∷ 60 ∷ 47 ∷ 104 ∷ 116 ∷ 109 ∷ 108 ∷ 62
    ∷ 10 ∷ []

-- A refusal, after which `logger` calls exit(3); or a header and `file_length` bytes of the value.
pub data Page : Type 0 where
  refused : List ℕ → Page
  page : List ℕ → List ℕ → Page

-- A length that was never set, and one beyond the block, are faults.
unfoldable pub page_of : FileType → FileAnswer → Run Page
page_of fstr (got_file value (some file_length)) = do
  require (leb file_length (length value))
  ok (page (ok_header file_length fstr) (take file_length value))
page_of fstr (got_file value none) = fault
page_of fstr no_file = fault

-- The static buffer with the header of a page.
unfoldable pub page_buffer : Page → Buf → Buf
page_buffer (refused text) b = b
page_buffer (page header body) b = put_bytes b 0 (header ++ 0 ∷ [])

module _ (f : Fabric) (top_dir : List ℕ) where
  -- The header is written into the static buffer, which is handed on.
  unfoldable pub serve_reply : Reply → Buf → Dkv → Run (Page × Buf × Dkv)
  serve_reply forbidden old d = ok (refused forbidden_text, old, d)
  serve_reply (serves key fstr b) old d = do
    (answer, d') ← dkv_get_file f key d
    p ← page_of fstr answer
    ok (p, page_buffer p b, d')

  unfoldable pub web_serve : Buf → List ℕ → Dkv → Run (Page × Buf × Dkv)
  web_serve old sent d = do reply ← web top_dir old sent; serve_reply reply old d

  -- The loop over the connections that come. The process that accepts them is the one that serves
  -- them, so a refusal ends it; the flag says so.
  unfoldable pub web_loop : Buf → List (List ℕ) → Dkv → Run (List Page × Bool × Buf × Dkv)
  web_loop old [] d = ok ([], false, old, d)
  web_loop old (sent ∷ rest) d = do
    (p, b, d') ← web_serve old sent d
    elim p [
      | refused text ↦ ok (refused text ∷ [], true, b, d')
      | page header body ↦ do
        (ps, ended, b', d'') ← web_loop b rest d'
        ok (page header body ∷ ps, ended, b', d'')
    ]
