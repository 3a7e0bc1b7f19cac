-- ===== src/Tests/Json.antt =====
-- src/model/json_pp.c on short texts.
use mqtt_viewer.Base.{
  ◌≤◌, false, [], ◌∷◌, ◌++◌, none, some, ◌≡◌, refl, arith, length, drop, length-drop, Bytes, codes,
}
use mqtt_viewer.JsonPp.{
  JsonPp, last_is, JsonPpLine, JsonPpValKind, json_pp_path_push, json_pp_path_pop,
}
use mqtt_viewer.JsonPp.Unescape.{
  json_pp_line_string, unescape, between_quotes, escaped, json_pp_line_string_overflow,
  json_pp_line_string-bound,
}
use mqtt_viewer.JsonPp.Format.{members, goes_on}
use mqtt_viewer.JsonPp.Format.Bounds.{json_pp_path_pop-push, members-end}

-- The line of the value "ab\u00e9".
abbrev escaped_line : JsonPpLine
escaped_line = record {
  depth = 0;
  key = [];
  sep = [];
  val = codes "\"ab\\u00e9\"";
  trail = [];
  val_kind = JsonPpValKind.string;
  dot_path = [];
  is_numeric = false;
}

inner_text : between_quotes escaped_line.val ≡ codes "ab" ++ (b'\\' ∷ b'u' ∷ codes "00e9")
unfolding between_quotes last_is
inner_text = refl

unknown_u : escaped b'u' ≡ none
unfolding escaped
unknown_u = refl

overflow_example :
    json_pp_line_string (some escaped_line) 4 ≡ some (codes "ab" ++ (b'\\' ∷ b'\\' ∷ []))
overflow_example =
    json_pp_line_string_overflow escaped_line (codes "ab") (codes "00e9") b'u' refl inner_text
      (omega arith, (omega arith, tt)) unknown_u

four_bytes : json_pp_line_string (some escaped_line) 4 ≡ some (codes "ab\\\\")
unfolding json_pp_line_string unescape between_quotes last_is escaped
four_bytes = refl

written_example : length (codes "ab\\\\") ≤ 4
written_example = json_pp_line_string-bound escaped_line 4 (codes "ab\\\\") four_bytes

abbrev at_a : JsonPp
at_a = record {
  lines = [];
  cache_src = none;
  cache_key = 0;
  rest = codes "\"k\":1,\"l\":2}";
  depth = 1;
  path = codes "a";
}

path_example :
    let (pushed, mark) = json_pp_path_push at_a (codes "k") in
    (json_pp_path_pop pushed mark ≡ at_a) × (length pushed.path ≤ 127)
path_example = json_pp_path_pop-push at_a (codes "k") (omega arith)

-- A formatter that reads one byte of each value.
abbrev one_byte : Bytes → JsonPp → JsonPp
one_byte key pp = record pp { rest = drop 1 pp.rest }

members_example : goes_on b'}' (members one_byte 12 at_a) ≡ false
members_example =
    members-end one_byte 12 at_a (λ key pp. omega (arith, length-drop 1 pp.rest)) (omega arith)
