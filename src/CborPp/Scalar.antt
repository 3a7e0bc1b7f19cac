-- ===== src/CborPp/Scalar.antt =====
-- The items that are no containers.
pub mod Cursor
use mqtt_viewer.Base.{
  ℕ, ◌+◌, ◌-◌, ◌/◌, ◌%◌, ◌^◌, Bool, true, false, not, ◌&&◌, ◌||◌, [], ◌∷◌, ◌++◌, Option, none, some,
  length, ltb, leb, ◌==◌, if◌then◌else◌, Bytes, codes,
}
use mqtt_viewer.Decimal.{decimal}
use mqtt_viewer.Util.{truncated}
use mqtt_viewer.JsonPp.{JsonPpValKind}
use mqtt_viewer.JsonPp.Format.{json_pp_quoted_is_numeric}
use mqtt_viewer.CborPp.{
  CborHead, Float, has_point, cbor_out_ch, cbor_out_str, cbor_out_close, append_string, read_head,
}

-- A text, its kind, and whether it is a number to chart.
pub record Scalar : Type 0 where
  pub text : Bytes
  pub kind : JsonPpValKind
  pub numeric : Bool

abbrev pub atom : Bytes → Bool → Scalar
atom text numeric = record { text = text; kind = JsonPpValKind.atom; numeric = numeric }

module _ {D : Type 0} (float : Float D) (strtod : Bytes → D × Bytes) (isfinite : D → Bool) where
  unfoldable pub decode_half : ℕ → D
  decode_half half =
      let exp = half / 1024 % 32 in
      let mant = half % 1024 in
      let val =
        if exp == 0
        then float.ldexp mant 1
        else if not (exp == 31)
        then float.ldexp (mant + 1024) exp
        else if mant == 0
        then float.infinity
        else float.nan in
      if half / 32768 % 2 == 1 then float.negated val else val

  abbrev pub with_point : ℕ → Bytes → Bytes
  with_point cap out =
      if not (has_point out) && ltb (length out + 2) cap then out ++ (b'.' ∷ b'0' ∷ []) else out

  unfoldable pub fmt_double : ℕ → D → Bytes
  fmt_double cap v =
      let short = truncated cap (float.text15 v) in
      let long = truncated cap (float.text17 v) in
      if float.is_nan v
      then truncated cap (codes "NaN")
      else if float.is_inf v
      then truncated cap (if float.is_negative v then codes "-Infinity" else codes "Infinity")
      else with_point cap (if float.reads_back short v then short else long)

  abbrev pub float_of : CborHead → D
  float_of h =
      if h.info == 25
      then decode_half (h.arg % 2 ^ 16)
      else if h.info == 26
      then float.of_single (h.arg % 2 ^ 32)
      else float.of_double h.arg

  -- The default case prints the value itself.
  unfoldable pub format_simple : ℕ → CborHead → Option Scalar
  format_simple cap h =
      if h.info == 20
      then some (atom (truncated cap (codes "false")) false)
      else if h.info == 21
      then some (atom (truncated cap (codes "true")) false)
      else if h.info == 22
      then some (atom (truncated cap (codes "null")) false)
      else if h.info == 23
      then some (atom (truncated cap (codes "undefined")) false)
      else if h.info == 24
      then (if ltb h.arg 32
          then none
          else some (atom (truncated cap (codes "simple(" ++ (decimal h.arg ++ codes ")"))) false))
      else if h.info == 25 || h.info == 26 || h.info == 27
      then some (atom (fmt_double cap (float_of h)) (isfinite (float_of h)))
      else if h.info == 31
      then none
      else some (atom (truncated cap (codes "simple(" ++ (decimal h.info ++ codes ")"))) false)

  -- -1 - arg
  abbrev pub negative : ℕ → Bytes
  negative arg =
      if arg == 2 ^ 64 - 1 then codes "-18446744073709551616" else b'-' ∷ decimal (arg + 1)

  abbrev pub byte_string : ℕ → Option (Bytes × Bytes) → Option (Scalar × Bytes)
  byte_string cap none = none
  byte_string cap (some (o, s)) = some (atom (cbor_out_close cap o b'\'') false, s)

  abbrev pub text_string : ℕ → Option (Bytes × Bytes) → Option (Scalar × Bytes)
  text_string cap none = none
  text_string cap (some (o, s)) =
      let text = cbor_out_close cap o b'"' in
      some (
        record {
          text = text;
          kind = JsonPpValKind.string;
          numeric = json_pp_quoted_is_numeric strtod isfinite text;
        },
        s,
      )

  abbrev pub simple_value : Option Scalar → Bytes → Option (Scalar × Bytes)
  simple_value none s = none
  simple_value (some v) s = some (v, s)

  unfoldable pub format_scalar : ℕ → CborHead → Bytes → Option (Scalar × Bytes)
  format_scalar cap h s =
      if h.major == 0
      then (if h.indefinite then none else some (atom (truncated cap (decimal h.arg)) true, s))
      else if h.major == 1
      then (if h.indefinite then none else some (atom (truncated cap (negative h.arg)) true, s))
      else if h.major == 2
      then byte_string cap (append_string cap h s (cbor_out_str cap [] (codes "h'")))
      else if h.major == 3
      then text_string cap (append_string cap h s (cbor_out_ch cap [] b'"'))
      else if h.major == 7
      then simple_value (format_simple cap h) s
      else none

  abbrev pub key_text : Option (Scalar × Bytes) → Option (Bytes × Bytes)
  key_text none = none
  key_text (some (v, s)) = some (v.text, s)

  abbrev pub key_with : ℕ → Option (CborHead × Bytes) → Option (Bytes × Bytes)
  key_with cap none = none
  key_with cap (some (h, s)) =
      if h.major == 3
      then append_string cap h s []
      else if leb 4 h.major && leb h.major 6
      then none
      else key_text (format_scalar cap h s)

  -- The key's text, then the cursor.
  unfoldable pub decode_key : ℕ → Bytes → Option (Bytes × Bytes)
  decode_key cap s = key_with cap (read_head s)
