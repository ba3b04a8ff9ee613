-- ===== src/Web/Buffer.antt =====
-- The static buffer of `web` of Ex4/nweb23.c from one request to the next.
use comm_networks_workshop.Base.{
  ℕ, zero, suc, ◌+◌, ◌-◌, ◌/◌, ◌%◌, ◌≤◌, ◌<◌, ◌≡◌, inl, inr, Bool, true, false, ◌||◌, Option, none,
  some, List, [], ◌∷◌, ◌++◌, arith, ltb, leb, ◌==◌, Bool-cases, length, length-append, take,
  length-take,
}
use comm_networks_workshop.Run.{
  ◌>>=◌, require, in_bounds, Ensures, Ensures-bind, Ensures-after, if-Ensures, ok, returns, faults,
}
use comm_networks_workshop.Bytes.{Buf, put_byte, put_bytes, get_str}
use comm_networks_workshop.Fabric.{Fabric}
use comm_networks_workshop.Dkv.{Dkv}
use comm_networks_workshop.Files.{FileAnswer, got_file, no_file}
use comm_networks_workshop.Files.Spread.{dkv_get_file}
use comm_networks_workshop.Web.{
  bufsize, FileType, extensions, get_upper, get_lower, Reply, starts_at, read_request, strip_lines,
  find_space, cut_at, has_dots, default_page, find_type, serve_file, web_file, web_path, web_method,
  web, image_gif, image_jpg, image_jpeg, image_png, image_ico, image_zip, image_gz, image_tar,
  text_html, forbidden, serves,
}
use comm_networks_workshop.Web.Dots.{read_end}
use comm_networks_workshop.Web.Respond.{
  header_start, header_middle, type_text, ok_header, Page, page_of, page_buffer, serve_reply,
  web_serve, web_loop, refused, page,
}
use comm_networks_workshop.Template.Throughput.{decimal, max_digits}

-- The byte behind the last character that is read is NUL.
abbrev pub Ends : Buf → Type 0
Ends b = b bufsize ≡ 0

abbrev ReplyEnds : Reply → Type 0
ReplyEnds forbidden = Unit {0}
ReplyEnds (serves key fstr b) = Ends b

serve_file-Ends :
    (top_dir : List ℕ) (b : Buf) (o : Option FileType)
    → Ends b
    → Ensures ReplyEnds (serve_file top_dir b o)
unfolding serve_file
serve_file-Ends top_dir b none h = returns tt
serve_file-Ends top_dir b (some filetype) h =
    Ensures-after (in_bounds (get_str (bufsize + 1 - 4) b 4)) λ path. returns h

web_file-Ends : (top_dir : List ℕ) (b : Buf) → Ends b → Ensures ReplyEnds (web_file top_dir b)
unfolding web_file
web_file-Ends top_dir b h =
    Ensures-after (in_bounds (get_str (bufsize + 1) b 0)) λ text.
      Ensures-after (find_type extensions b (length text)) λ o. serve_file-Ends top_dir b o h

default_page-Ends : (b : Buf) → Ends b → Ends (default_page b)
unfolding default_page put_bytes
default_page-Ends b h = ground arith

cut_at-Ends : (i : ℕ) (b : Buf) → Ends b → Ends (cut_at i b)
unfolding cut_at put_byte
cut_at-Ends i b h = ground arith

web-Ends :
    (top_dir : List ℕ) (old : Buf) (sent : List ℕ)
    → Ends old
    → Ensures ReplyEnds (web top_dir old sent)
unfolding web web_method web_path
web-Ends top_dir old sent h =
    let xs : List ℕ = take bufsize sent in
    let b : Buf = strip_lines (length xs) (read_request old xs) in
    let i : ℕ = find_space (bufsize - 4) b 4 in
    let e : Ends b = read_end old xs h (omega (arith, length-take bufsize sent)) in
    if-Ensures (length xs == 0) (returns tt) (
      if-Ensures (starts_at b 0 get_upper || starts_at b 0 get_lower)
        (if-Ensures (has_dots (i - 1) (cut_at i b) 0) (returns tt) (
          web_file-Ends top_dir (default_page (cut_at i b))
            (default_page-Ends (cut_at i b) (cut_at-Ends i b e))))
        (returns tt))

length-decimal : (fuel n : ℕ) → length (decimal fuel n) ≤ fuel
unfolding decimal
length-decimal zero n = omega arith
length-decimal (suc fuel) n = elim (Bool-cases (ltb n 10)) [
  | inl one ↦ rw (decimal, one) (omega arith)
  | inr more ↦
      rw (decimal, more)
        (omega (
          arith,
          length-append (decimal fuel (n / 10)) ((48 + n % 10) ∷ []),
          length-decimal fuel (n / 10),
        ))
]

length-type_text : (ty : FileType) → length (type_text ty) ≤ 10
unfolding type_text
length-type_text image_gif = omega arith
length-type_text image_jpg = omega arith
length-type_text image_jpeg = omega arith
length-type_text image_png = omega arith
length-type_text image_ico = omega arith
length-type_text image_zip = omega arith
length-type_text image_gz = omega arith
length-type_text image_tar = omega arith
length-type_text text_html = omega arith

length-parts :
    (s d m t e : List ℕ)
    → length (s ++ d ++ m ++ t ++ e) ≡ length s + length d + length m + length t + length e
length-parts s d m t e = omega (
  arith,
  length-append (s ++ d ++ m ++ t) e,
  length-append (s ++ d ++ m) t,
  length-append (s ++ d) m,
  length-append s d,
)

length-ok_header : (n : ℕ) (ty : FileType) → length (ok_header n ty) < 1000
unfolding ok_header
length-ok_header n ty =
    let parts =
      length-parts header_start (decimal max_digits n) header_middle (type_text ty)
        (10 ∷ 10 ∷ []) in
    rw parts (omega (arith, length-decimal max_digits n, length-type_text ty))

abbrev PageFits : Page → Type 0
PageFits (refused text) = Unit {0}
PageFits (page header body) = length header < 1000

page_of-PageFits : (ty : FileType) (a : FileAnswer) → Ensures PageFits (page_of ty a)
unfolding page_of
page_of-PageFits ty (got_file value (some n)) =
    Ensures-after (require (leb n (length value))) λ u. returns (length-ok_header n ty)
page_of-PageFits ty (got_file value none) = faults
page_of-PageFits ty no_file = faults

page_buffer-Ends : (p : Page) (b : Buf) → PageFits p → Ends b → Ends (page_buffer p b)
unfolding page_buffer put_bytes
page_buffer-Ends (refused text) b fits h = h
page_buffer-Ends (page header body) b fits h =
    let n = length-append header (0 ∷ []) in
    let out : ltb bufsize (0 + length (header ++ 0 ∷ [])) ≡ false = ground arith in ground arith

module _ (f : Fabric) (top_dir : List ℕ) where
  serve_reply-Ends :
      (r : Reply) (old : Buf) (d : Dkv)
      → Ends old
      → ReplyEnds r
      → Ensures (λ x. Ends x.1) (serve_reply f top_dir r old d)
  unfolding serve_reply
  serve_reply-Ends forbidden old d h e = returns h
  serve_reply-Ends (serves key ty b) old d h e =
      Ensures-after (dkv_get_file f key d)
        λ x. Ensures-bind (page_of-PageFits ty x.0) λ p fits. returns (page_buffer-Ends p b fits e)

  web_serve-Ends :
      (old : Buf) (sent : List ℕ) (d : Dkv)
      → Ends old
      → Ensures (λ x. Ends x.1) (web_serve f top_dir old sent d)
  unfolding web_serve
  web_serve-Ends old sent d h =
      Ensures-bind (web-Ends top_dir old sent h) λ r e. serve_reply-Ends r old d h e

  web_loop-Ends_page :
      (requests : List (List ℕ)) (p : Page) (b : Buf) (d : Dkv)
      → Ends b
      → Ensures (λ (x : List Page × Bool × Buf × Dkv). Ends x.2) (web_loop f top_dir b requests d)
      → Ensures
          (λ (x : List Page × Bool × Buf × Dkv). Ends x.2)
          (elim p [
            | refused text ↦ ok (refused text ∷ [], true, b, d)
            | page header body ↦ do
              (ps, ended, b', d') ← web_loop f top_dir b requests d
              ok (page header body ∷ ps, ended, b', d')
          ])
  web_loop-Ends_page requests (refused text) b d e later = returns e
  web_loop-Ends_page requests (page header body) b d e later = Ensures-bind later λ y e'. returns e'

  -- From a buffer whose last byte is NUL, as it is at the start, the web server's loop leaves that
  -- NUL in place, whatever the browsers send: the requests and the headers stay before it.
  pub web_loop-Ends :
      (requests : List (List ℕ)) (old : Buf) (d : Dkv)
      → old bufsize ≡ 0
      → Ensures (λ x. Ends x.2) (web_loop f top_dir old requests d)
  unfolding web_loop
  web_loop-Ends [] old d h = returns h
  web_loop-Ends (sent ∷ requests) old d h =
      Ensures-bind (web_serve-Ends old sent d h)
        λ x e. web_loop-Ends_page requests x.0 x.1 x.2 e (web_loop-Ends requests x.1 x.2 e)
