-- ===== src/Web/Dots.antt =====
-- The check for ".." in `web` of Ex4/nweb23.c.
use mathlib.Core.Path.{subst}
use comm_networks_workshop.Base.{
  ℕ, zero, suc, ◌+◌, ◌-◌, ◌≤◌, ◌<◌, ◌≡◌, refl, sym, ◌∙◌, inl, inr, Bool, true, false, ◌||◌, Option,
  none, some, List, [], ◌∷◌, ◌++◌, arith, ltb, ◌==◌, if◌then◌else◌, Bool-cases, length, get_or,
  take, length-take,
}
use comm_networks_workshop.Run.{Run, in_bounds, bind-ok, in_bounds-ok, ok}
use comm_networks_workshop.Bytes.{Buf, put_byte, put_bytes, get_str}
use comm_networks_workshop.Bytes.Laws.{Holds-put_bytes, Holds-append_right}
use comm_networks_workshop.Bytes.Strings.{IsText, get_str-Holds, ReadsAs, get_str-ReadsAs}
use comm_networks_workshop.Web.{
  bufsize, FileType, extensions, get_upper, get_lower, index_path, Reply, starts_at, read_request,
  strip_lines, find_space, cut_at, has_dots, default_page, find_type, serve_file, web_file,
  web_path, web_method, web, forbidden, serves,
}

-- No two dots stand side by side.
abbrev pub NoDots : List ℕ → Type 0
NoDots path = (t : ℕ) → t + 1 < length path → get_or path t 0 ≡ 46 → get_or path (t + 1) 0 ≡ 46 → ⊥

pub find_space-le : (n : ℕ) (b : Buf) (i : ℕ) → find_space n b i ≤ i + n
unfolding find_space
find_space-le zero b i = omega arith
find_space-le (suc n) b i = elim (Bool-cases (b i == 32)) [
  | inl here ↦ rw (find_space, here) (omega arith)
  | inr on ↦ rw (find_space, on) (omega (arith, find_space-le n b (i + 1)))
]

has_dots-false :
    (n : ℕ) (b : Buf) (j k : ℕ)
    → has_dots n b j ≡ false
    → j ≤ k
    → k < j + n
    → b k ≡ 46
    → b (k + 1) ≡ 46
    → ⊥
unfolding has_dots
has_dots-false zero b j k h lo hi e e' = omega arith
has_dots-false (suc n) b j k h lo hi e e' = elim (Bool-cases (k == j)) [
  | inl same ↦
      let q : k ≡ j = ground arith in
      let d : b j ≡ 46 = rw q at e in let d' : b (j + 1) ≡ 46 = rw q at e' in ground (arith, d, d')
  | inr other ↦ has_dots-false n b (j + 1) k (ground arith) (ground arith) (omega arith) e e'
]

-- The byte behind the buffer's text is NUL.
pub read_end :
    (old : Buf) (xs : List ℕ)
    → old bufsize ≡ 0
    → length xs ≤ bufsize
    → strip_lines (length xs) (read_request old xs) bufsize ≡ 0
unfolding strip_lines read_request put_byte put_bytes
read_end old xs ends h = ground arith

pub cut_end : (i : ℕ) (b : Buf) → i ≤ bufsize → b bufsize ≡ 0 → cut_at i b i ≡ 0
unfolding cut_at put_byte
cut_end i b h e = elim (Bool-cases (ltb i bufsize)) [
  | inl below ↦ ground arith
  | inr last ↦ let q : i ≡ bufsize = ground arith in rw (last, q) e
]

path_NoDots :
    (b : Buf) (i : ℕ) (path : List ℕ)
    → has_dots (i - 1) b 0 ≡ false
    → b i ≡ 0
    → 4 ≤ i
    → ReadsAs b 4 path
    → NoDots path
path_NoDots b i path none_found ends le r t h e e' =
    let end = r.1 i le ends in
    let q : 4 + (t + 1) ≡ 4 + t + 1 = omega arith in
    has_dots-false (i - 1) b 0 (4 + t) none_found (omega arith) (omega (arith, end))
      (sym (r.0 t (omega arith)) ∙ e) (rw (← q) (sym (r.0 (t + 1) h) ∙ e'))

pub find_space-ge : (n : ℕ) (b : Buf) (i : ℕ) → i ≤ find_space n b i
unfolding find_space
find_space-ge zero b i = omega arith
find_space-ge (suc n) b i = elim (Bool-cases (b i == 32)) [
  | inl here ↦ rw (find_space, here) (omega arith)
  | inr on ↦ rw (find_space, on) (omega (arith, find_space-ge n b (i + 1)))
]

if_forbidden :
    (c : Bool) (m : Run Reply) (key : List ℕ) (ty : FileType) {left : Buf}
    → (if c then ok forbidden else m) ≡ ok (serves key ty left)
    → (c ≡ false) × (m ≡ ok (serves key ty left))
if_forbidden true m key ty h = cc
if_forbidden false m key ty h = (refl, h)

if_served :
    (c : Bool) (m : Run Reply) (key : List ℕ) (ty : FileType) {left : Buf}
    → (if c then m else ok forbidden) ≡ ok (serves key ty left)
    → m ≡ ok (serves key ty left)
if_served true m key ty h = h
if_served false m key ty h = cc

-- A key that is served is the directory and the text of the buffer from its fifth byte on.
abbrev Serves : List ℕ → Buf → List ℕ → Type 0
Serves top_dir b key =
    (path : List ℕ) × (key ≡ top_dir ++ path) × (get_str (bufsize + 1 - 4) b 4 ≡ some path)

serve_file-Serves :
    (top_dir : List ℕ) (b : Buf) (o : Option FileType) (key : List ℕ) (ty : FileType) {left : Buf}
    → serve_file top_dir b o ≡ ok (serves key ty left)
    → Serves top_dir b key
unfolding serve_file
serve_file-Serves top_dir b none key ty h = cc
serve_file-Serves top_dir b (some x) key ty h =
    let (path, read, done) = bind-ok (in_bounds (get_str (bufsize + 1 - 4) b 4)) _ _ h in
    (path, cc, in_bounds-ok _ path read)

web_file-Serves :
    (top_dir : List ℕ) (b : Buf) (key : List ℕ) (ty : FileType) {left : Buf}
    → web_file top_dir b ≡ ok (serves key ty left)
    → Serves top_dir b key
unfolding web_file
web_file-Serves top_dir b key ty h =
    let (text, read, h') = bind-ok (in_bounds (get_str (bufsize + 1) b 0)) _ _ h in
    let (fstr, found, h'') = bind-ok (find_type extensions b (length text)) _ _ h' in
    serve_file-Serves top_dir b fstr key ty h''

index_path-IsText : IsText index_path
index_path-IsText = (
  (omega arith, omega arith),
  (
    (omega arith, omega arith),
    (
      (omega arith, omega arith),
      (
        (omega arith, omega arith),
        (
          (omega arith, omega arith),
          (
            (omega arith, omega arith),
            (
              (omega arith, omega arith),
              (
                (omega arith, omega arith),
                (
                  (omega arith, omega arith),
                  ((omega arith, omega arith), ((omega arith, omega arith), tt)),
                ),
              ),
            ),
          ),
        ),
      ),
    ),
  ),
)

index_page :
    (b : Buf)
    → get_str (bufsize + 1 - 4) (put_bytes b 0 (get_upper ++ index_path ++ 0 ∷ [])) 4
      ≡ some index_path
index_page b =
    let c : Buf = put_bytes b 0 (get_upper ++ index_path ++ 0 ∷ []) in
    get_str-Holds (bufsize + 1 - 4) c 4 index_path index_path-IsText
      (Holds-append_right c 0 get_upper (index_path ++ 0 ∷ [])
        (Holds-put_bytes b 0 (get_upper ++ index_path ++ 0 ∷ [])))
      (omega arith)

has_dots_index : has_dots 10 (λ t. get_or index_path t 0) 0 ≡ false
unfolding has_dots
has_dots_index = refl

index_path-NoDots : NoDots index_path
index_path-NoDots t h e e' =
    has_dots-false 10 (λ t. get_or index_path t 0) 0 t has_dots_index (omega arith) (omega arith) e
      e'

default_page-NoDots :
    (b : Buf) (i : ℕ) (path : List ℕ)
    → has_dots (i - 1) b 0 ≡ false
    → b i ≡ 0
    → 4 ≤ i
    → get_str (bufsize + 1 - 4) (default_page b) 4 ≡ some path
    → NoDots path
unfolding default_page
default_page-NoDots b i path none_found ends le read =
    elim (Bool-cases
      (starts_at b 0 (get_upper ++ 47 ∷ 0 ∷ []) || starts_at b 0 (get_lower ++ 47 ∷ 0 ∷ []))) [
        | inl bare ↦
            let q : some index_path ≡ some path = sym (index_page b) ∙ rw bare at read in
            let d : index_path ≡ path = cc q in subst NoDots d index_path-NoDots
        | inr named ↦
            path_NoDots b i path none_found ends le
              (get_str-ReadsAs (bufsize + 1 - 4) b 4 path (rw named at read))
      ]

web_path-NoDots :
    (top_dir : List ℕ) (b : Buf) (i : ℕ) (key : List ℕ) (ty : FileType) {left : Buf}
    → b i ≡ 0
    → 4 ≤ i
    → web_path top_dir b i ≡ ok (serves key ty left)
    → (path : List ℕ) × (key ≡ top_dir ++ path) × NoDots path
unfolding web_path
web_path-NoDots top_dir b i key ty ends le h =
    let (none_found, h') = if_forbidden (has_dots (i - 1) b 0) _ key ty h in
    let (path, joined, read) = web_file-Serves top_dir (default_page b) key ty h' in
    (path, joined, default_page-NoDots b i path none_found ends le read)

web_method-NoDots :
    (top_dir : List ℕ) (b : Buf) (key : List ℕ) (ty : FileType) {left : Buf}
    → b bufsize ≡ 0
    → web_method top_dir b ≡ ok (serves key ty left)
    → (path : List ℕ) × (key ≡ top_dir ++ path) × NoDots path
unfolding web_method
web_method-NoDots top_dir b key ty ends h =
    let i = find_space (bufsize - 4) b 4 in
    let h' = if_served (starts_at b 0 get_upper || starts_at b 0 get_lower) _ key ty h in
    web_path-NoDots top_dir (cut_at i b) i key ty
      (cut_end i b (find_space-le (bufsize - 4) b 4) ends) (find_space-ge (bufsize - 4) b 4) h'

-- When `web` goes on to ask for a key, whatever the browser has sent and whatever earlier requests
-- have left in its buffer before the NUL at its end, the key is the top directory followed by a
-- path in which no two dots stand side by side.
pub web-NoDots :
    (top_dir : List ℕ) (old : Buf) (sent key : List ℕ) (ty : FileType) (left : Buf)
    → old bufsize ≡ 0
    → web top_dir old sent ≡ ok (serves key ty left)
    → (path : List ℕ) × (key ≡ top_dir ++ path) × NoDots path
unfolding web
web-NoDots top_dir old sent key ty left ends h =
    let xs = take bufsize sent in
    let (some_bytes, h') = if_forbidden (length xs == 0) _ key ty h in
    web_method-NoDots top_dir (strip_lines (length xs) (read_request old xs)) key ty
      (read_end old xs ends (omega (arith, length-take bufsize sent))) h'
