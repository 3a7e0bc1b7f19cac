-- ===== src/JsonPp/Format.antt =====
-- The formatter itself, and the functions that read its lines.
pub mod Bounds
use mqtt_viewer.Base.{
  ℕ, zero, suc, ◌+◌, ◌-◌, ◌^◌, Bool, true, false, not, ◌&&◌, ◌||◌, List, [], ◌∷◌, ◌++◌, Option,
  none, some, length, take, drop, ltb, leb, ◌==◌, if◌then◌else◌, Bytes, str_eq, cstr,
}
use mqtt_viewer.Decimal.{decimal}
use mqtt_viewer.JsonPp.{
  JsonPp, JsonPpLine, JsonPpValKind, json_pp_begin, json_pp_emit, json_pp_path_push,
  json_pp_path_pop, json_pp_mark_trailing_comma, json_pp_max_lines, json_pp_max_depth, skip_ws,
  scan_string, scan_atom, starts, skip_char, is_quoted, inside, read_key, is_hex, is_ws,
}
use mqtt_viewer.JsonPp.Unescape.{json_pp_line_string}

-- What follows a member's or an item's value: the dot path is restored, and a comma is read.
abbrev pub after_value : ℕ → JsonPp → JsonPp
after_value mark pp =
    let r = skip_ws pp.rest in
    let back = record (json_pp_path_pop pp mark) { rest = r } in
    let read = json_pp_mark_trailing_comma (record back { rest = drop 1 r }) in
    let next = if starts b',' r then read else back in record next { rest = skip_ws next.rest }

-- `if (pos == pos_before) pos++`
abbrev pub make_progress : Bytes → JsonPp → JsonPp
make_progress before pp =
    if length pp.rest == length before then record pp { rest = drop 1 pp.rest } else pp

-- One round of `format_object_contents` and of `format_array_contents`, where `format` stands for
-- the call of `format_value`.
unfoldable pub member : (Bytes → JsonPp → JsonPp) → JsonPp → JsonPp
member format pp =
    let (key, end) = read_key pp.rest in
    let r = skip_ws (skip_char b':' (skip_ws end)) in
    let (pushed, mark) = json_pp_path_push (record pp { rest = r }) key in
    after_value mark (make_progress r (format key pushed))

unfoldable pub item : (Bytes → JsonPp → JsonPp) → ℕ → JsonPp → JsonPp
item format idx pp =
    let (pushed, mark) = json_pp_path_push pp (decimal idx) in
    after_value mark (make_progress pp.rest (format [] pushed))

-- The test of the loops, for the closing bracket `close`.
unfoldable pub goes_on : ℕ → JsonPp → Bool
goes_on close pp =
    not (length pp.rest == 0)
    && not (starts close pp.rest)
    && ltb (length pp.lines) json_pp_max_lines

-- The loops, with the rounds left as the number that is matched; each round reads a byte at least, so
-- that the length of the text left is enough.
unfoldable pub members : (Bytes → JsonPp → JsonPp) → ℕ → JsonPp → JsonPp
members format zero pp = pp
members format (suc rounds) pp = elim (goes_on b'}' pp) [
  | false ↦ pp
  | true ↦ elim (goes_on b'}' (record pp { rest = skip_ws pp.rest })) [
    | false ↦ record pp { rest = skip_ws pp.rest }
    | true ↦ members format rounds (member format (record pp { rest = skip_ws pp.rest }))
  ]
]

unfoldable pub items : (Bytes → JsonPp → JsonPp) → ℕ → ℕ → JsonPp → JsonPp
items format zero idx pp = pp
items format (suc rounds) idx pp = elim (goes_on b']' pp) [
  | false ↦ pp
  | true ↦ elim (goes_on b']' (record pp { rest = skip_ws pp.rest })) [
    | false ↦ record pp { rest = skip_ws pp.rest }
    | true ↦ items format rounds (idx + 1) (item format idx (record pp { rest = skip_ws pp.rest }))
  ]
]

unfoldable pub format_object_contents : (Bytes → JsonPp → JsonPp) → JsonPp → JsonPp
format_object_contents format pp =
    let r = skip_ws pp.rest in
    let done = members format (length r) (record pp { rest = r }) in
    record done { rest = skip_char b'}' done.rest }

unfoldable pub format_array_contents : (Bytes → JsonPp → JsonPp) → JsonPp → JsonPp
format_array_contents format pp =
    let r = skip_ws pp.rest in
    let done = items format (length r) 0 (record pp { rest = r }) in
    record done { rest = skip_char b']' done.rest }

-- The two containers: the bracket's line, the contents one level deeper, and the closing line.
abbrev pub container : Bytes → Bytes → Bytes → (JsonPp → JsonPp) → JsonPp → JsonPp
container key left right contents pp =
    let opened = json_pp_emit pp key left JsonPpValKind.punct false in
    let inner = contents (record opened { rest = drop 1 opened.rest; depth = opened.depth + 1 }) in
    json_pp_emit (record inner { depth = inner.depth - 1 }) [] right JsonPpValKind.punct false

-- The loop of `json_pp_find`.
unfoldable pub find_line : List JsonPpLine → Bytes → Option JsonPpLine
find_line [] dot_path = none
find_line (l ∷ ls) dot_path = if str_eq l.dot_path dot_path then some l else find_line ls dot_path

unfoldable pub json_pp_find : JsonPp → Bytes → Option JsonPpLine
unfolding find_line
json_pp_find pp dot_path = find_line pp.lines dot_path

-- The only line, where its dot path is empty.
abbrev pub only_scalar : List JsonPpLine → Option JsonPpLine
only_scalar [] = none
only_scalar (l ∷ []) = if length l.dot_path == 0 then some l else none
only_scalar (l ∷ k ∷ ls) = none

module _ {D : Type 0} (strtod : Bytes → D × Bytes) (isfinite : D → Bool) where
  -- `strtod` reads the whole text, which is not empty, as a finite number.
  unfoldable pub whole_number : Bytes → Bool
  whole_number s =
      let (v, end) = strtod s in not (length end == length s) && length end == 0 && isfinite v

  unfoldable pub atom_is_numeric : Bytes → Bool
  atom_is_numeric val = not (length val == 0) && not (is_hex val) && whole_number val

  -- `inner` holds 271 bytes.
  unfoldable pub json_pp_quoted_is_numeric : Bytes → Bool
  json_pp_quoted_is_numeric val = is_quoted val && whole_number (take 271 (inside val))

  -- The values that are no containers.
  abbrev pub scalar : Bytes → JsonPp → JsonPp
  scalar key pp =
      let (text, end) = scan_string 272 pp.rest in
      let (word, stop) = scan_atom 272 pp.rest in
      if starts b'"' pp.rest
      then json_pp_emit (record pp { rest = end }) key text JsonPpValKind.string
          (json_pp_quoted_is_numeric text)
      else json_pp_emit (record pp { rest = stop }) key word JsonPpValKind.atom
          (atom_is_numeric word)

  -- The number that is matched bounds the nesting of the calls.
  unfoldable pub format_value : ℕ → Bytes → JsonPp → JsonPp
  format_value zero key pp = pp
  format_value (suc nesting) key pp =
      let p = record pp { rest = skip_ws pp.rest } in
      elim (length p.rest == 0
        || leb json_pp_max_lines (length p.lines)
        || leb json_pp_max_depth p.depth) [
          | true ↦ p
          | false ↦ elim (starts b'{' p.rest) [
            | true ↦
                container key (b'{' ∷ []) (b'}' ∷ [])
                  (format_object_contents (format_value nesting)) p
            | false ↦ elim (starts b'[' p.rest) [
              | true ↦
                  container key (b'[' ∷ []) (b']' ∷ [])
                    (format_array_contents (format_value nesting)) p
              | false ↦ scalar key p
            ]
          ]
        ]

  -- A depth of 64 is never left behind, so that 65 nested calls are enough.
  unfoldable pub json_pp_run_len : JsonPp → Bytes → JsonPp
  json_pp_run_len pp src =
      let begun = record (json_pp_begin pp) { rest = take (2 ^ 31 - 1) src } in
      record (format_value 65 [] begun) { rest = [] }

  unfoldable pub json_pp_mark_cached : JsonPp → ℕ → ℕ → JsonPp
  json_pp_mark_cached pp src key = record pp { cache_src = some src; cache_key = key }

  abbrev pub is_cached : Option ℕ → ℕ → Bool
  is_cached none src = false
  is_cached (some s) src = s == src

  -- `src` is the pointer's number, `text` what stands there.
  unfoldable pub json_pp_run_cached : JsonPp → ℕ → Bytes → ℕ → JsonPp × Bool
  json_pp_run_cached pp src text key =
      if is_cached pp.cache_src src && pp.cache_key == key
      then (pp, false)
      else (json_pp_mark_cached (json_pp_run_len pp text) src key, true)

  -- `none` where it returns false; `*out` otherwise.
  unfoldable pub json_pp_line_number : Option JsonPpLine → Option D
  json_pp_line_number none = none
  json_pp_line_number (some line) =
      let number = λ (s : Bytes).
        (let (v, end) = strtod s in
          if length end == length s then none else if isfinite v then some v else none) in
      if line.is_numeric
      then (elim line.val_kind [
        | JsonPpValKind.punct ↦ number line.val
        | JsonPpValKind.atom ↦ number line.val
        | JsonPpValKind.string ↦ elim (json_pp_line_string (some line) 272) [
          | none ↦ none
          | some inner ↦ number inner
        ]
      ])
      else none

  unfoldable pub json_pp_number_at : JsonPp → Bytes → Option D
  unfolding json_pp_line_number
  json_pp_number_at pp dot_path = elim (json_pp_find pp dot_path) [
    | some line ↦ json_pp_line_number (some line)
    | none ↦ json_pp_line_number (only_scalar pp.lines)
  ]

  -- `src` is given as its `len` bytes, `none` for NULL; `strtod` reads up to the first NUL.
  unfoldable pub json_pp_looks_like_json : Option Bytes → Bool
  json_pp_looks_like_json none = false
  json_pp_looks_like_json (some src) =
      let s = skip_ws src in
      let buf = cstr s in
      let (v, end) = strtod buf in
      if length s == 0
      then false
      else if starts b'{' s || starts b'[' s || starts b'"' s
      then true
      else if leb 64 (length s) || is_hex buf || length end == length buf
      then false
      else length (skip_ws end) == 0 && isfinite v
