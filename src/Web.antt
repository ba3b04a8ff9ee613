-- ===== src/Web.antt =====
-- The request handling of Ex4/nweb23.c: `web` from the bytes that the browser sent to the key that
-- it asks the key-value servers for. A refused request ends the process in `logger`.
pub mod Dots
pub mod Total
pub mod Respond
pub mod Upload
pub mod Buffer
use comm_networks_workshop.Base.{
  ℕ, zero, suc, ◌+◌, ◌-◌, ◌*◌, ◌/◌, ◌%◌, ◌^◌, ◌≤◌, ◌<◌, ◌≡◌, refl, sym, ap, ◌∙◌, fun_ext, ◌≢◌, ◌↔◌,
  ◌⊎◌, inl, inr, Bool, true, false, not, ◌&&◌, ◌||◌, Option, none, some, List, [], ◌∷◌, ◌++◌, map,
  arith, ltb, leb, ◌==◌, if◌then◌else◌, ltb→lt, lt→ltb, le→ltb, leb→le, ==_iff, tests, Bool-cases,
  Option-cases, str_eq, str_eq_refl, str_eq_sound, str_eq_iff, length, length-append, get_or, take,
  drop, replicate, length-take, take-append, length-replicate, All, get_or-append_left, get_elem?,
  set_elem, length-set_elem, get_elem?-set_elem, get_elem?-set_elem_ne, get_elem?-below,
  All-get_elem?, get_elem?-lt, take_all, if_true, if_false,
}
use comm_networks_workshop.Run.{
  Run, ◌>>=◌, ◌>>◌, require, in_bounds, bind-bind, Ensures, Ensures-bind, Ensures-after, bind-ok,
  in_bounds-ok, if-Ensures, Ensures-weaken, if-Ensures_known, Ensures-ok, ok, fault, out_of_fuel,
  returns, faults, stops,
}
use comm_networks_workshop.Bytes.{
  Buf, put_byte, put_bytes, get_bytes, put_u32, get_u32, put_u64, get_u64, get_str, transmit,
}
use comm_networks_workshop.Pool.{
  MemInfo, Mem, Pool, sizeof_memory_info, buffer_addr, zeros, set_next, clear_buffer, set_node,
  take_node, taint, recycle_one, recycle, grow, refill_one, refill, maintain_pool,
}

abbrev pub bufsize : ℕ
bufsize = 8096

-- The second column of the table of extensions.
pub data FileType : Type 0 where
  image_gif image_jpg image_jpeg image_png image_ico image_zip image_gz image_tar : FileType
  text_html : FileType

-- The table, with the extensions as character codes: gif, jpg, jpeg, png, ico, zip, gz, tar, htm,
-- html.
abbrev pub extensions : List (List ℕ × FileType)
extensions =
    ((103 ∷ 105 ∷ 102 ∷ []), image_gif)
    ∷ (((106 ∷ 112 ∷ 103 ∷ []), image_jpg)
        ∷ (((106 ∷ 112 ∷ 101 ∷ 103 ∷ []), image_jpeg)
            ∷ (((112 ∷ 110 ∷ 103 ∷ []), image_png)
                ∷ (((105 ∷ 99 ∷ 111 ∷ []), image_ico)
                    ∷ (((122 ∷ 105 ∷ 112 ∷ []), image_zip)
                        ∷ (((103 ∷ 122 ∷ []), image_gz)
                            ∷ (((116 ∷ 97 ∷ 114 ∷ []), image_tar)
                                ∷ (((104 ∷ 116 ∷ 109 ∷ []), text_html)
                                    ∷ (((104 ∷ 116 ∷ 109 ∷ 108 ∷ []), text_html) ∷ [])))))))))

-- "GET " and "get "
abbrev pub get_upper : List ℕ
get_upper = 71 ∷ 69 ∷ 84 ∷ 32 ∷ []

abbrev pub get_lower : List ℕ
get_lower = 103 ∷ 101 ∷ 116 ∷ 32 ∷ []

-- "/index.html"
abbrev pub index_path : List ℕ
index_path = 47 ∷ 105 ∷ 110 ∷ 100 ∷ 101 ∷ 120 ∷ 46 ∷ 104 ∷ 116 ∷ 109 ∷ 108 ∷ []

-- A request is refused, or its key is asked for, with the type of the answer; the static buffer is
-- handed on.
pub data Reply : Type 0 where
  forbidden : Reply
  serves : List ℕ → FileType → Buf → Reply

-- !strncmp(b + off, xs, length of xs), where `xs` holds no NUL but at its end.
unfoldable pub starts_at : Buf → ℕ → List ℕ → Bool
starts_at b off [] = true
starts_at b off (x ∷ xs) = (b off == x) && starts_at b (off + 1) xs

-- What `read` makes of the static buffer `old`, with the NUL behind it: a read that fills the buffer
-- makes it the empty string. Behind the NUL stands what earlier requests have left.
unfoldable pub read_request : Buf → List ℕ → Buf
read_request old xs =
    let b = put_bytes old 0 xs in
    if ltb 0 (length xs) && ltb (length xs) bufsize
    then put_byte b (length xs) 0
    else put_byte b 0 0

-- for(i=0;i<ret;i++) a CR or LF becomes '*'.
unfoldable pub strip_lines : ℕ → Buf → Buf
strip_lines ret b i = if ltb i ret && ((b i == 13) || (b i == 10)) then 42 else b i

-- for(i=4;i<BUFSIZE;i++): where the loop stops, `n` characters being left.
unfoldable pub find_space : ℕ → Buf → ℕ → ℕ
find_space zero b i = i
find_space (suc n) b i = elim (b i == 32) [ true ↦ i | false ↦ find_space n b (i + 1) ]

unfoldable pub cut_at : ℕ → Buf → Buf
cut_at i b = if ltb i bufsize then put_byte b i 0 else b

-- for(j=0;j<i-1;j++): two dots side by side, `n` characters being left.
unfoldable pub has_dots : ℕ → Buf → ℕ → Bool
has_dots zero b j = false
has_dots (suc n) b j = ((b j == 46) && (b (j + 1) == 46)) || has_dots n b (j + 1)

-- "GET /" with nothing behind it becomes "GET /index.html".
unfoldable pub default_page : Buf → Buf
default_page b =
    if starts_at b 0 (get_upper ++ 47 ∷ 0 ∷ []) || starts_at b 0 (get_lower ++ 47 ∷ 0 ∷ [])
    then put_bytes b 0 (get_upper ++ index_path ++ 0 ∷ [])
    else b

-- The loop over the table; an extension longer than the text would be compared before the buffer.
unfoldable pub find_type : List (List ℕ × FileType) → Buf → ℕ → Run (Option FileType)
find_type [] b buflen = ok none
find_type ((ext, filetype) ∷ table) b buflen = do
  require (leb (length ext) buflen)
  let rest = find_type table b buflen
  if starts_at b (buflen - length ext) ext then ok (some filetype) else rest

unfoldable pub serve_file : List ℕ → Buf → Option FileType → Run Reply
serve_file top_dir b none = ok forbidden
serve_file top_dir b (some filetype) = do
  path ← in_bounds (get_str (bufsize + 1 - 4) b 4)
  ok (serves (top_dir ++ path) filetype b)

unfoldable pub web_file : List ℕ → Buf → Run Reply
web_file top_dir b = do
  text ← in_bounds (get_str (bufsize + 1) b 0)
  fstr ← find_type extensions b (length text)
  serve_file top_dir b fstr

unfoldable pub web_path : List ℕ → Buf → ℕ → Run Reply
web_path top_dir b i =
    if has_dots (i - 1) b 0 then ok forbidden else web_file top_dir (default_page b)

unfoldable pub web_method : List ℕ → Buf → Run Reply
web_method top_dir b =
    if starts_at b 0 get_upper || starts_at b 0 get_lower
    then (let i = find_space (bufsize - 4) b 4 in web_path top_dir (cut_at i b) i)
    else ok forbidden

-- `old` is the static buffer, and `sent` what the browser sends; one read takes at most BUFSIZE bytes
-- of it.
unfoldable pub web : List ℕ → Buf → List ℕ → Run Reply
web top_dir old sent =
    let xs = take bufsize sent in
    if length xs == 0
    then ok forbidden
    else web_method top_dir (strip_lines (length xs) (read_request old xs))
