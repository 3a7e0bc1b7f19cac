-- ===== src/Tests/Cbor.antt =====
-- src/model/cbor_pp.c on payloads whose numbers are whole.
use mqtt_viewer.Base.{
  ℕ, Bool, true, false, [], ◌∷◌, ◌++◌, none, some, ◌≡◌, refl, arith, map, Bytes, codes,
}
use mqtt_viewer.JsonPp.{JsonPp, json_pp_begin}
use mqtt_viewer.CborPp.{Float, read_head}
use mqtt_viewer.CborPp.Head.{info_of, argument_of, big_endian, head, read_head-encode_head}
use mqtt_viewer.CborPp.Item.{decode_item, cbor_pp_run}
use mqtt_viewer.CborPp.Item.Forward.{decode_item-IsForward}
use mqtt_viewer.CborPp.Item.Enough.{entries-enough, decode_item-enough}
use mqtt_viewer.CborPp.Item.Balance.{
  IsStrict, IsBalanced, decode_item-IsBalanced, cbor_pp_run-IsStrict,
}
use mqtt_viewer.CborPp.Item.{
  run_with, decode_tagged, read_tags, decode_container, entries, next_round, entry, close_all,
  put_all,
}
use mqtt_viewer.CborPp.Scalar.{decode_key, decode_half, fmt_double, format_scalar, format_simple}
use mqtt_viewer.CborPp.{
  append_string, append_chunk, append_bytes, append_chunks, cbor_out_ch, cbor_out_str,
  cbor_out_close, has_point, read_arg,
}
use mqtt_viewer.Decimal.{decimal, digits_onto}
use mqtt_viewer.JsonPp.{
  json_pp_emit, json_pp_path_push, json_pp_path_pop, json_pp_mark_trailing_comma, mark_last,
  last_is, starts,
}
use mqtt_viewer.JsonPp.Format.{json_pp_quoted_is_numeric, whole_number}

-- Numbers without a fraction stand for the floating point numbers.
abbrev whole : Float ℕ
whole = record {
  ldexp = λ m e. m;
  infinity = 0;
  nan = 0;
  negated = λ v. v;
  of_single = λ v. v;
  of_double = λ v. v;
  is_nan = λ v. false;
  is_inf = λ v. false;
  is_negative = λ v. false;
  text15 = λ v. codes "1";
  text17 = λ v. codes "1";
  reads_back = λ s v. true;
}

abbrev no_number : Bytes → ℕ × Bytes
no_number s = (0, s)

abbrev finite : ℕ → Bool
finite v = true

abbrev empty : JsonPp
empty = record { lines = []; cache_src = none; cache_key = 0; rest = []; depth = 0; path = [] }

-- {"a": [1, 2]}
abbrev payload : Bytes
payload = 0xa1 ∷ 0x61 ∷ 0x61 ∷ 0x82 ∷ 1 ∷ 2 ∷ []

run_test :
    map (λ l. l.val) (cbor_pp_run whole no_number finite empty payload).0.lines
    ≡ codes "{" ∷ codes "[" ∷ codes "1" ∷ codes "2" ∷ codes "]" ∷ codes "}" ∷ []
unfolding cbor_pp_run decode_item read_head json_pp_begin run_with decode_tagged read_tags
    decode_container entries next_round entry close_all put_all decode_key decode_half fmt_double
    format_scalar format_simple append_string append_chunk append_bytes append_chunks cbor_out_ch
    cbor_out_str cbor_out_close has_point read_arg decimal digits_onto json_pp_emit
    json_pp_path_push json_pp_path_pop json_pp_mark_trailing_comma mark_last last_is starts
    json_pp_quoted_is_numeric whole_number
run_test = refl

-- A payload with a byte behind the item is refused.
strict_test : (cbor_pp_run whole no_number finite empty (payload ++ (1 ∷ []))).1 ≡ false
unfolding cbor_pp_run decode_item read_head json_pp_begin run_with decode_tagged read_tags
    decode_container entries next_round entry close_all put_all decode_key decode_half fmt_double
    format_scalar format_simple append_string append_chunk append_bytes append_chunks cbor_out_ch
    cbor_out_str cbor_out_close has_point read_arg decimal digits_onto json_pp_emit
    json_pp_path_push json_pp_path_pop json_pp_mark_trailing_comma mark_last last_is starts
    json_pp_quoted_is_numeric whole_number
strict_test = refl

head_example : read_head (0x59 ∷ 1 ∷ 0 ∷ 7 ∷ []) ≡ some (head 2 256, 7 ∷ [])
unfolding info_of argument_of big_endian
head_example = read_head-encode_head 2 256 (7 ∷ []) (omega arith)

item_example : IsBalanced empty (decode_item whole no_number finite 64 [] payload empty)
item_example = decode_item-IsBalanced whole no_number finite 64 [] payload empty (omega arith)

run_example :
    let o = decode_item whole no_number finite 64 [] payload (json_pp_begin empty) in
    IsStrict o (cbor_pp_run whole no_number finite empty payload)
    × ((left : JsonPp) → IsStrict none (run_with left none))
run_example = cbor_pp_run-IsStrict whole no_number finite empty payload

-- The two items of an array, and a byte behind them.
entries_example :
    entries whole no_number finite
      (decode_item whole no_number finite 64)
      (head 4 2)
      9
      0
      (1 ∷ 2 ∷ 3 ∷ [])
      empty
    ≡ entries whole no_number finite
        (decode_item whole no_number finite 64)
        (head 4 2)
        4
        0
        (1 ∷ 2 ∷ 3 ∷ [])
        empty
entries_example =
    entries-enough whole no_number finite (decode_item whole no_number finite 64) (head 4 2) 9 4 0
      (1 ∷ 2 ∷ 3 ∷ []) empty (decode_item-IsForward whole no_number finite 64) (omega arith)
      (omega arith)

nesting_example :
    decode_item whole no_number finite 100 [] payload empty
    ≡ decode_item whole no_number finite 64 [] payload empty
nesting_example =
    decode_item-enough whole no_number finite 100 64 [] payload empty (omega arith) (omega arith)
      (omega arith) (omega arith)
