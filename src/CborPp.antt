-- ===== src/CborPp.antt =====
-- src/model/cbor_pp.h and .c: CBOR (RFC 8949) as the lines of the JSON formatter. The decoder's cursor
-- is the text left, `none` stands for the result false. A decoder that fails leaves lines behind,
-- which `cbor_pp_run` then drops, so that only the formatter after a success is returned. The
-- floating point numbers and their texts are a parameter.
pub mod Head
pub mod Scalar
pub mod Item
use mqtt_viewer.Base.{
  ℕ, zero, suc, ◌+◌, ◌-◌, ◌*◌, ◌/◌, ◌%◌, ◌^◌, Bool, true, false, not, ◌&&◌, ◌||◌, List, [], ◌∷◌,
  ◌++◌, Option, none, some, length, take, set, ltb, leb, ◌==◌, if◌then◌else◌, Bytes, codes,
}
use mqtt_viewer.Util.{truncated}

-- A text in an array of `cap` bytes, as far as it was written.
-- `cbor_out_ch`
unfoldable pub cbor_out_ch : ℕ → Bytes → ℕ → Bytes
cbor_out_ch cap o c = if ltb (length o + 1) cap then o ++ (c ∷ []) else o

unfoldable pub cbor_out_str : ℕ → Bytes → Bytes → Bytes
unfolding cbor_out_ch
cbor_out_str cap o [] = o
cbor_out_str cap o (c ∷ s) = cbor_out_str cap (cbor_out_ch cap o c) s

-- The last byte that has room is overwritten where the text is full.
unfoldable pub cbor_out_close : ℕ → Bytes → ℕ → Bytes
cbor_out_close cap o c =
    if ltb (length o + 1) cap then o ++ (c ∷ []) else if leb 2 cap then set o (cap - 2) c else o

pub record CborHead : Type 0 where
  pub major : ℕ
  pub info : ℕ
  pub arg : ℕ
  pub indefinite : Bool

-- `h->arg = (h->arg << 8) | d->src[d->pos++]`, `n` times.
unfoldable pub read_arg : ℕ → ℕ → Bytes → Option (ℕ × Bytes)
read_arg zero arg s = some (arg, s)
read_arg (suc n) arg [] = none
read_arg (suc n) arg (c ∷ s) = read_arg n (arg * 256 + c) s

-- The number of bytes of the argument; `none` for the reserved values.
abbrev pub arg_size : ℕ → Option ℕ
arg_size info =
    if info == 24
    then some 1
    else if info == 25
    then some 2
    else if info == 26
    then some 4
    else if info == 27
    then some 8
    else none

abbrev pub head_with : ℕ → ℕ → Option (ℕ × Bytes) → Option (CborHead × Bytes)
head_with major info none = none
head_with major info (some (arg, s)) =
    some (record { major = major; info = info; arg = arg; indefinite = false }, s)

abbrev pub head_sized : ℕ → ℕ → Option ℕ → Bytes → Option (CborHead × Bytes)
head_sized major info none s = none
head_sized major info (some n) s = head_with major info (read_arg n 0 s)

unfoldable pub read_head : Bytes → Option (CborHead × Bytes)
read_head [] = none
read_head (ib ∷ s) =
    let major = ib / 32 in
    let info = ib % 32 in
    if ltb info 24
    then some (record { major = major; info = info; arg = info; indefinite = false }, s)
    else if info == 31
    then some (record { major = major; info = info; arg = 0; indefinite = true }, s)
    else head_sized major info (arg_size info) s

-- The numbers of type `double` and what the C library does with them: `ldexp m e` is m * 2^(e - 25),
-- the texts are those of "%.15g" and "%.17g", and `reads_back` compares `strtod` of a text.
pub record Float (D : Type 0) : Type 0 where
  pub ldexp : ℕ → ℕ → D
  pub infinity : D
  pub nan : D
  pub negated : D → D
  pub of_single : ℕ → D
  pub of_double : ℕ → D
  pub is_nan : D → Bool
  pub is_inf : D → Bool
  pub is_negative : D → Bool
  pub text15 : D → Bytes
  pub text17 : D → Bytes
  pub reads_back : Bytes → D → Bool

-- `strpbrk(out, ".eE")`
unfoldable pub has_point : Bytes → Bool
has_point [] = false
has_point (c ∷ s) = c == b'.' || c == b'e' || c == b'E' || has_point s

abbrev pub hex_digit : ℕ → ℕ
hex_digit d = if ltb d 10 then b'0' + d else b'a' + (d - 10)

-- What one byte of a text adds: "\\u%04x" for a control character without a letter.
abbrev pub escaped_text : ℕ → Bytes
escaped_text c =
    if c == b'"' || c == b'\\'
    then b'\\' ∷ c ∷ []
    else if c == b'\n'
    then codes "\\n"
    else if c == b'\r'
    then codes "\\r"
    else if c == b'\t'
    then codes "\\t"
    else if ltb c 0x20
    then codes "\\u00" ++ (hex_digit (c / 16) ∷ hex_digit (c % 16) ∷ [])
    else c ∷ []

abbrev pub chunk_text : Bool → ℕ → Bytes
chunk_text bytes c = if bytes then hex_digit (c / 16) ∷ hex_digit (c % 16) ∷ [] else escaped_text c

-- The loop of `append_chunk`, which the test before it lets read `n` bytes.
unfoldable pub append_bytes : ℕ → Bool → ℕ → Bytes → Bytes → Option (Bytes × Bytes)
append_bytes cap bytes zero s o = some (o, s)
append_bytes cap bytes (suc n) [] o = none
append_bytes cap bytes (suc n) (c ∷ s) o =
    append_bytes cap bytes n s (cbor_out_str cap o (chunk_text bytes c))

-- The text, then the cursor.
unfoldable pub append_chunk : ℕ → Bool → ℕ → Bytes → Bytes → Option (Bytes × Bytes)
append_chunk cap bytes n s o = if ltb (length s) n then none else append_bytes cap bytes n s o

-- `c.major == 7 && c.info == 31`, and a chunk of another type or of indefinite length.
abbrev pub is_break : CborHead → Bool
is_break c = c.major == 7 && c.info == 31

abbrev pub bad_chunk : ℕ → CborHead → Bool
bad_chunk major c = not (c.major == major) || c.indefinite

-- One chunk, where `again` goes on with the cursor and the text.
abbrev pub next_chunk :
    (Bytes → Bytes → Option (Bytes × Bytes)) → Option (Bytes × Bytes) → Option (Bytes × Bytes)
next_chunk again none = none
next_chunk again (some (o, s)) = again s o

abbrev pub chunk_on :
    (Bytes → Bytes → Option (Bytes × Bytes))
    → ℕ
    → ℕ
    → Bytes
    → Option (CborHead × Bytes)
    → Option (Bytes × Bytes)
chunk_on again cap major o none = none
chunk_on again cap major o (some (c, s)) =
    if is_break c
    then some (o, s)
    else if bad_chunk major c
    then none
    else next_chunk again (append_chunk cap (major == 2) c.arg s o)

-- The loop over the chunks; each round reads a byte at least, so that the length of the text left is
-- enough rounds.
unfoldable pub append_chunks : ℕ → ℕ → ℕ → Bytes → Bytes → Option (Bytes × Bytes)
append_chunks cap major zero s o = none
append_chunks cap major (suc rounds) s o =
    chunk_on (append_chunks cap major rounds) cap major o (read_head s)

unfoldable pub append_string : ℕ → CborHead → Bytes → Bytes → Option (Bytes × Bytes)
append_string cap h s o =
    if h.indefinite
    then append_chunks cap h.major (length s) s o
    else append_chunk cap (h.major == 2) h.arg s o
