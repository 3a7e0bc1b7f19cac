-- ===== src/JsonPp.antt =====
-- src/model/json_pp.h and .c: the lenient JSON formatter. The cursor `src + pos` up to `src + src_len`
-- is the text left, `rest`. A `char` array is the C string that it holds; a payload's NUL byte ends it.
-- `strtod` (the value and the text behind it) and `isfinite` are parameters.
pub mod Format
pub mod Unescape
use mqtt_viewer.Base.{
  ℕ, zero, suc, ◌+◌, ◌-◌, Bool, true, false, not, ◌&&◌, ◌||◌, List, [], ◌∷◌, ◌++◌, Option, none,
  some, length, take, drop, ltb, leb, ◌==◌, if◌then◌else◌, Bytes, str_eq, cstr,
}
use mqtt_viewer.Decimal.{decimal}
use mqtt_viewer.Util.{truncated}

pub data JsonPpValKind : Type 0 where
  punct string atom : JsonPpValKind

pub record JsonPpLine : Type 0 where
  pub depth : ℕ
  pub key : Bytes
  pub sep : Bytes
  pub val : Bytes
  pub trail : Bytes
  pub val_kind : JsonPpValKind
  pub dot_path : Bytes
  pub is_numeric : Bool

-- `path_len` is the length of `path`; `cache_src` is a pointer's number, `none` for NULL.
pub record JsonPp : Type 0 where
  pub lines : List JsonPpLine
  pub cache_src : Option ℕ
  pub cache_key : ℕ
  pub rest : Bytes
  pub depth : ℕ
  pub path : Bytes

abbrev pub json_pp_max_lines : ℕ
json_pp_max_lines = 2048

abbrev pub json_pp_max_depth : ℕ
json_pp_max_depth = 64

unfoldable pub json_pp_begin : JsonPp → JsonPp
json_pp_begin pp = record pp { lines = []; depth = 0; path = []; cache_src = none; rest = [] }

-- What `json_pp_emit` fills a line with.
abbrev pub line_of : JsonPp → Bytes → Bytes → JsonPpValKind → Bool → JsonPpLine
line_of pp key val kind is_numeric = record {
  depth = pp.depth;
  key = truncated 128 key;
  sep = if length key == 0 then [] else b':' ∷ b' ' ∷ [];
  val = truncated 272 val;
  trail = [];
  val_kind = kind;
  dot_path = truncated 128 pp.path;
  is_numeric = is_numeric;
}

unfoldable pub json_pp_emit : JsonPp → Bytes → Bytes → JsonPpValKind → Bool → JsonPp
json_pp_emit pp key val kind is_numeric =
    if leb json_pp_max_lines (length pp.lines)
    then pp
    else record pp { lines = pp.lines ++ (line_of pp key val kind is_numeric ∷ []) }

-- The mark comes second.
unfoldable pub json_pp_path_push : JsonPp → Bytes → JsonPp × ℕ
json_pp_path_push pp seg =
    let mark = length pp.path in
    let need_dot = if ltb 0 mark then 1 else 0 in
    let path = pp.path ++ ((if ltb 0 mark then b'.' ∷ [] else []) ++ seg) in
    if length seg == 0
    then (pp, mark)
    else if ltb 128 (mark + need_dot + length seg + 1)
    then (pp, mark)
    else (record pp { path = path }, mark)

unfoldable pub json_pp_path_pop : JsonPp → ℕ → JsonPp
json_pp_path_pop pp mark = record pp { path = take mark pp.path }

unfoldable pub mark_last : List JsonPpLine → List JsonPpLine
mark_last [] = []
mark_last (l ∷ []) = record l { trail = b',' ∷ [] } ∷ []
mark_last (l ∷ k ∷ ls) = l ∷ mark_last (k ∷ ls)

unfoldable pub json_pp_mark_trailing_comma : JsonPp → JsonPp
unfolding mark_last
json_pp_mark_trailing_comma pp = record pp { lines = mark_last pp.lines }

abbrev pub is_ws : ℕ → Bool
is_ws c = c == b' ' || c == b'\t' || c == b'\n' || c == b'\r'

unfoldable pub skip_ws : Bytes → Bytes
skip_ws [] = []
skip_ws (c ∷ s) = if is_ws c then skip_ws s else c ∷ s

-- The loop of `scan_string`, behind the opening quote.
unfoldable pub string_end : Bytes → Bytes
string_end [] = []
string_end (c ∷ []) = []
string_end (c ∷ d ∷ s) = elim (c == b'\\') [
  | true ↦ string_end s
  | false ↦ elim (c == b'"') [ true ↦ d ∷ s | false ↦ string_end (d ∷ s) ]
]

-- The loop of `scan_atom`.
unfoldable pub atom_end : Bytes → Bytes
atom_end [] = []
atom_end (c ∷ s) =
    if c == b',' || c == b'}' || c == b']' || c == b'{' || c == b'[' || is_ws c
    then c ∷ s
    else atom_end s

-- `memcpy` of the bytes from `start` to the cursor `end`, into an array of `buf_size` bytes.
abbrev pub copied : ℕ → Bytes → Bytes → Bytes
copied buf_size start end = cstr (take (buf_size - 1) (take (length start - length end) start))

-- The text comes first, then the cursor.
unfoldable pub scan_string : ℕ → Bytes → Bytes × Bytes
scan_string buf_size start = let end = string_end (drop 1 start) in (copied buf_size start end, end)

unfoldable pub scan_atom : ℕ → Bytes → Bytes × Bytes
scan_atom buf_size start = let end = atom_end start in (copied buf_size start end, end)

unfoldable pub starts : ℕ → Bytes → Bool
starts c [] = false
starts c (x ∷ s) = x == c

-- `if (pos < src_len && src[pos] == c) pos++;`
unfoldable pub skip_char : ℕ → Bytes → Bytes
skip_char c [] = []
skip_char c (x ∷ s) = if x == c then s else x ∷ s

unfoldable pub last_is : ℕ → Bytes → Bool
last_is c [] = false
last_is c (x ∷ []) = x == c
last_is c (x ∷ y ∷ s) = last_is c (y ∷ s)

-- `len >= 2 && s[0] == '"' && s[len - 1] == '"'`
abbrev pub is_quoted : Bytes → Bool
is_quoted s = leb 2 (length s) && starts b'"' s && last_is b'"' s

abbrev pub inside : Bytes → Bytes
inside s = take (length s - 2) (drop 1 s)

-- The key of a member without its quotes, then the cursor.
unfoldable pub read_key : Bytes → Bytes × Bytes
read_key s =
    let (key, end) = scan_string 128 s in
    if starts b'"' s then (if is_quoted key then inside key else key, end) else ([], s)

-- A leading sign is skipped; "0x" or "0X" follows.
unfoldable pub is_hex : Bytes → Bool
is_hex s =
    let p = skip_char b'+' s in
    let q = if starts b'+' s then p else skip_char b'-' s in
    starts b'0' q && (starts b'x' (drop 1 q) || starts b'X' (drop 1 q))
