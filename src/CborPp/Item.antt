-- ===== src/CborPp/Item.antt =====
-- Containers, tags and the whole payload.
pub mod Balance
pub mod Forward
pub mod Enough
use mqtt_viewer.Base.{
  ℕ, zero, suc, ◌+◌, ◌-◌, ◌*◌, ◌/◌, ◌%◌, ◌^◌, Bool, true, false, not, ◌&&◌, ◌||◌, List, [], ◌∷◌,
  ◌++◌, Option, none, some, length, take, drop, set, ltb, leb, ◌==◌, if◌then◌else◌, Bytes, codes,
}
use mqtt_viewer.Decimal.{decimal}
use mqtt_viewer.Util.{truncated}
use mqtt_viewer.JsonPp.{
  JsonPp, JsonPpValKind, json_pp_max_depth, json_pp_begin, json_pp_emit, json_pp_path_push,
  json_pp_path_pop, json_pp_mark_trailing_comma, starts,
}
use mqtt_viewer.JsonPp.Format.{json_pp_mark_cached, is_cached}
use mqtt_viewer.CborPp.{CborHead, Float, cbor_out_ch, cbor_out_str, cbor_out_close, read_head}
use mqtt_viewer.CborPp.Scalar.{Scalar, format_scalar, decode_key}

abbrev pub cbor_max_tags : ℕ
cbor_max_tags = 8

abbrev pub cbor_tag_prefix_len : ℕ
cbor_tag_prefix_len = 192

-- A head that is no tag, the text of the tags before it and their number, and the cursor.
pub record Tagged : Type 0 where
  pub head : CborHead
  pub prefix : Bytes
  pub tags : ℕ
  pub rest : Bytes

-- The tags' text with one tag more.
abbrev pub with_tag : Bytes → ℕ → Bytes
with_tag prefix arg = truncated cbor_tag_prefix_len (prefix ++ (decimal arg ++ codes "("))

abbrev pub tag_on :
    (Bytes → ℕ → Bytes → Option Tagged) → Bytes → ℕ → Option (CborHead × Bytes) → Option Tagged
tag_on again prefix tags none = none
tag_on again prefix tags (some (h, s)) =
    if not (h.major == 6)
    then some (record { head = h; prefix = prefix; tags = tags; rest = s })
    else if h.indefinite || leb cbor_max_tags tags
    then none
    else again (with_tag prefix h.arg) (tags + 1) s

-- The call of `decode_item` by itself for a tag. A ninth tag is refused, so that nine rounds are
-- enough.
unfoldable pub read_tags : ℕ → Bytes → ℕ → Bytes → Option Tagged
read_tags zero prefix tags s = none
read_tags (suc left) prefix tags s = tag_on (read_tags left) prefix tags (read_head s)

-- The loops that close the tags' parentheses.
unfoldable pub close_all : ℕ → ℕ → Bytes → Bytes
close_all cap zero o = o
close_all cap (suc tags) o = close_all cap tags (cbor_out_close cap o b')')

unfoldable pub put_all : ℕ → ℕ → Bytes → Bytes
put_all cap zero o = o
put_all cap (suc tags) o = put_all cap tags (cbor_out_ch cap o b')')

abbrev pub is_map : CborHead → Bool
is_map h = h.major == 5

abbrev pub opening : CborHead → Bytes → Bytes
opening h prefix = truncated (cbor_tag_prefix_len + 4) (
    prefix
    ++ ((if is_map h then codes "{" else codes "[") ++ (if h.indefinite then codes "_" else [])))

abbrev pub closing : CborHead → ℕ → Bytes
closing h tags =
    let cap = cbor_max_tags + 2 in
    put_all cap tags (cbor_out_ch cap [] (if is_map h then b'}' else b']'))

-- Each entry costs a byte at least, a pair two.
abbrev pub too_many : CborHead → Bytes → Bool
too_many h s = not h.indefinite && ltb (if is_map h then length s / 2 else length s) h.arg

-- What the loop's tests say before entry `i`: fail, end with the cursor given, or go on.
pub data Round : Type 0 where
  fails : Round
  ends : Bytes → Round
  goes : Round

unfoldable pub next_round : CborHead → ℕ → Bytes → Round
next_round h i s =
    if h.indefinite
    then (if length s == 0
        then Round.fails
        else if starts 0xff s
        then Round.ends (drop 1 s)
        else Round.goes)
    else if ltb i h.arg
    then Round.goes
    else Round.ends s

-- A value's decoder: the key, the cursor, the formatter; `none` for false.
abbrev pub Decoder : Type 0
Decoder = Bytes → Bytes → JsonPp → Option (Bytes × JsonPp)

abbrev pub popped : ℕ → Option (Bytes × JsonPp) → Option (Bytes × JsonPp)
popped mark none = none
popped mark (some (s, pp)) = some (s, json_pp_path_pop pp mark)

abbrev pub closed : CborHead → ℕ → Option (Bytes × JsonPp) → Option (Bytes × JsonPp)
closed h tags none = none
closed h tags (some (s, pp)) = some (
  s,
  json_pp_emit (record pp { depth = pp.depth - 1 }) [] (closing h tags) JsonPpValKind.punct false,
)

abbrev pub opened : CborHead → Bytes → Bytes → JsonPp → JsonPp
opened h key prefix pp =
    let shown = json_pp_emit pp key (opening h prefix) JsonPpValKind.punct false in
    record shown { depth = shown.depth + 1 }

-- `val` is an array of 272 bytes.
abbrev pub shown_scalar :
    Bytes → Tagged → JsonPp → Option (Scalar × Bytes) → Option (Bytes × JsonPp)
shown_scalar key t pp none = none
shown_scalar key t pp (some (v, s)) =
    let val = cbor_out_str 272 (cbor_out_str 272 [] t.prefix) v.text in
    some (s, json_pp_emit pp key (close_all 272 t.tags val) v.kind (v.numeric && t.tags == 0))

-- The first argument is the formatter as the decoder left it. Where it fails, its lines, depth and
-- path are forgotten in any case. The code asks for `len > 0` first; the decoder fails on no bytes.
unfoldable pub run_with : JsonPp → Option (Bytes × JsonPp) → JsonPp × Bool
run_with pp none = (json_pp_begin pp, false)
run_with pp (some (s, q)) = if length s == 0 then (q, true) else (json_pp_begin q, false)

module _ {D : Type 0} (float : Float D) (strtod : Bytes → D × Bytes) (isfinite : D → Bool) where
  abbrev pub segment_of : CborHead → ℕ → Bytes → Option (Bytes × Bytes)
  segment_of h i s =
      if is_map h
      then decode_key float strtod isfinite 128 s
      else some (truncated 128 (decimal i), s)

  abbrev pub entry_at :
      Decoder → CborHead → JsonPp → Option (Bytes × Bytes) → Option (Bytes × JsonPp)
  entry_at format h pp none = none
  entry_at format h pp (some (seg, s)) =
      let (pushed, mark) = json_pp_path_push pp seg in
      popped mark (format (if is_map h then seg else []) s pushed)

  unfoldable pub entry : Decoder → CborHead → ℕ → Bytes → JsonPp → Option (Bytes × JsonPp)
  entry format h i s pp =
      entry_at format h (if ltb 0 i then json_pp_mark_trailing_comma pp else pp) (segment_of h i s)

  -- The loop of `decode_container`; each round reads a byte at least, so that one round more than
  -- there are bytes left is enough.
  unfoldable pub entries : Decoder → CborHead → ℕ → ℕ → Bytes → JsonPp → Option (Bytes × JsonPp)
  entries format h zero i s pp = none
  entries format h (suc rounds) i s pp = elim (next_round h i s) [
    | fails ↦ none
    | ends r ↦ some (r, pp)
    | goes ↦ elim (entry format h i s pp) [
      | none ↦ none
      | some (r, q) ↦ entries format h rounds (i + 1) r q
    ]
  ]

  unfoldable pub decode_container : Decoder → Bytes → Tagged → JsonPp → Option (Bytes × JsonPp)
  decode_container format key t pp =
      if leb json_pp_max_depth (pp.depth + 1)
      then none
      else if too_many t.head t.rest
      then none
      else closed t.head t.tags
          (entries format t.head (length t.rest + 1) 0 t.rest (opened t.head key t.prefix pp))

  unfoldable pub decode_tagged : Decoder → Bytes → JsonPp → Option Tagged → Option (Bytes × JsonPp)
  decode_tagged format key pp none = none
  decode_tagged format key pp (some t) =
      if t.head.major == 4 || t.head.major == 5
      then decode_container format key t pp
      else shown_scalar key t pp (format_scalar float strtod isfinite 272 t.head t.rest)

  -- The number that is matched bounds the nesting of the calls. A container is refused at a depth of
  -- 63, so that 64 nested calls are enough.
  unfoldable pub decode_item : ℕ → Decoder
  decode_item zero key s pp = none
  decode_item (suc nesting) key s pp =
      decode_tagged (decode_item nesting) key pp (read_tags (cbor_max_tags + 1) [] 0 s)

  unfoldable pub cbor_pp_run : JsonPp → Bytes → JsonPp × Bool
  cbor_pp_run pp src = run_with (json_pp_begin pp) (decode_item 64 [] src (json_pp_begin pp))

  -- `src` is the pointer's number, `bytes` what stands there.
  unfoldable pub cbor_pp_run_cached : JsonPp → ℕ → Bytes → ℕ → JsonPp × Bool
  cbor_pp_run_cached pp src bytes key =
      let fresh =
        if is_cached strtod isfinite pp.cache_src src && pp.cache_key == key
        then pp
        else json_pp_mark_cached strtod isfinite (cbor_pp_run pp bytes).0 src key in
      (fresh, ltb 0 (length fresh.lines))
