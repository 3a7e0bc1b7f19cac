-- ===== src/HexDump/Lines.antt =====
-- One line of the hex dump of src/ui/inspector_widget.c: its length, and reading it back.
use mqtt_viewer.Base.{
  ℕ, zero, suc, ◌+◌, ◌-◌, ◌*◌, ◌/◌, ◌%◌, ◌≤◌, ◌<◌, ◌≡◌, min, refl, ap, ap₂, ◌∙◌, true, false, [],
  ◌∷◌, ◌++◌, append_assoc, length, length-append, length-take, length-drop, take, drop, All,
  All-take, ltb, ◌==◌, if◌then◌else◌, Bytes, arith,
}
use mqtt_viewer.CborPp.{hex_digit}
use mqtt_viewer.HexDump.{
  byte_digits, hex_offset, gap_after, hex_columns, ascii_column, format_hex_line,
}

length-hex_offset : (n : ℕ) → length (hex_offset n) ≡ 8
unfolding hex_offset byte_digits
length-hex_offset n = refl

-- The columns take three bytes each, and the gap one more.
length-hex_columns :
    (j rounds : ℕ) (bytes : Bytes)
    → j + rounds ≡ 16
    → length (hex_columns j rounds bytes)
      ≡ 3 * rounds + (if ltb 7 j then 0 else if rounds == 0 then 0 else 1)
unfolding hex_columns byte_digits
length-hex_columns j zero bytes e = ground arith
length-hex_columns j (suc rounds) [] e = ground (
  arith,
  length-append (gap_after j) (hex_columns (suc j) rounds []),
  length-hex_columns (suc j) rounds [],
)
length-hex_columns j (suc rounds) (b ∷ bytes) e = ground (
  arith,
  length-append (gap_after j) (hex_columns (suc j) rounds bytes),
  length-hex_columns (suc j) rounds bytes,
)

length-ascii_column :
    (pos : ℕ) (s : Bytes) → pos + length s ≤ 78 → length (ascii_column pos s) ≡ length s
unfolding ascii_column
length-ascii_column pos [] h = refl
length-ascii_column pos (c ∷ s) h =
    let e : ltb pos 78 ≡ true = ground arith in
    rw (ascii_column, e) (ap suc (length-ascii_column (suc pos) s (omega arith)))

abbrev pub digit_value : ℕ → ℕ
digit_value c = if ltb c b'a' then c - b'0' else c - b'a' + 10

digit_value-hex_digit : (d : ℕ) → d < 16 → digit_value (hex_digit d) ≡ d
digit_value-hex_digit d h = ground arith

-- Reading the columns from the `j`-th on: blank ones end the line.
unfoldable pub read_columns : (j rounds : ℕ) → Bytes → Bytes
read_columns j zero s = []
read_columns j (suc rounds) (a ∷ b ∷ c ∷ s) =
    let rest = read_columns (suc j) rounds (drop (length (gap_after j)) s) in
    if a == b' ' then [] else (digit_value a * 16 + digit_value b) ∷ rest
read_columns j (suc rounds) _ = []

abbrev pub read_line : Bytes → Bytes
read_line line = read_columns 0 16 (drop 10 line)

drop_gap : (j : ℕ) (s : Bytes) → drop (length (gap_after j)) (gap_after j ++ s) ≡ s
drop_gap j s = ground arith

byte_back :
    (b : ℕ) → b < 256 → digit_value (hex_digit (b / 16)) * 16 + digit_value (hex_digit (b % 16)) ≡ b
byte_back b h = omega (
  arith,
  digit_value-hex_digit (b / 16) (omega arith),
  digit_value-hex_digit (b % 16) (omega arith),
)

hex_digit-visible : (d : ℕ) → d < 16 → (hex_digit d == b' ') ≡ false
hex_digit-visible d h = ground arith

-- Whatever follows the columns.
read_columns-hex_columns :
    (j rounds : ℕ) (bytes rest : Bytes)
    → length bytes ≤ rounds
    → All (λ b. b < 256) bytes
    → read_columns j rounds (hex_columns j rounds bytes ++ rest) ≡ bytes
unfolding read_columns hex_columns byte_digits
read_columns-hex_columns j zero [] rest h a = refl
read_columns-hex_columns j zero (b ∷ bytes) rest h a = absurd (omega arith)
read_columns-hex_columns j (suc rounds) [] rest h a = refl
read_columns-hex_columns j (suc rounds) (b ∷ bytes) rest h a =
    let e = hex_digit-visible (b / 16) (omega (arith, a.0)) in
    simp e (
      ap₂ ◌∷◌ (byte_back b a.0) (
        ap (λ s. read_columns (suc j) rounds (drop (length (gap_after j)) s))
          (append_assoc (gap_after j) _ rest)
        ∙ ap (read_columns (suc j) rounds) (drop_gap j _)
        ∙ read_columns-hex_columns (suc j) rounds bytes rest (omega arith) a.1))

abbrev line_start : Bytes → ℕ → Bytes
line_start bytes offset =
    hex_offset offset ++ (b' ' ∷ b' ' ∷ (hex_columns 0 16 bytes ++ (b' ' ∷ b'|' ∷ [])))

length-line_start : (bytes : Bytes) (offset : ℕ) → length (line_start bytes offset) ≡ 61
length-line_start bytes offset = omega (
  arith,
  length-append (hex_offset offset) (b' ' ∷ b' ' ∷ (hex_columns 0 16 bytes ++ (b' ' ∷ b'|' ∷ []))),
  length-append (hex_columns 0 16 bytes) (b' ' ∷ b'|' ∷ []),
  length-hex_offset offset,
  length-hex_columns 0 16 bytes refl,
)

read_line-line_start :
    (bytes : Bytes) (offset : ℕ) (rest : Bytes)
    → length bytes ≤ 16
    → All (λ b. b < 256) bytes
    → read_line (line_start bytes offset ++ rest) ≡ bytes
unfolding hex_offset byte_digits
read_line-line_start bytes offset rest h a =
    ap (read_columns 0 16) (append_assoc (hex_columns 0 16 bytes) (b' ' ∷ b'|' ∷ []) rest)
    ∙ read_columns-hex_columns 0 16 bytes (b' ' ∷ b'|' ∷ rest) h a

All-drop : (P : ℕ → Type 0) (n : ℕ) (s : Bytes) → All P s → All P (drop n s)
All-drop P zero s h = h
All-drop P (suc n) [] h = tt
All-drop P (suc n) (c ∷ s) h = All-drop P n s h.1

pub length-format_hex_line :
    (src : Bytes) (offset : ℕ)
    → length (format_hex_line src offset) ≡ 62 + min 16 (length src - offset)
unfolding format_hex_line
length-format_hex_line src offset =
    let bytes = take 16 (drop offset src) in
    let n = length-take 16 (drop offset src) in
    let m = length-drop offset src in
    let start = length-line_start bytes offset in
    let shown =
      length-ascii_column (length (line_start bytes offset)) bytes (omega (arith, n, m, start)) in
    omega (
      arith,
      n,
      m,
      start,
      shown,
      length-append (line_start bytes offset)
          (ascii_column (length (line_start bytes offset)) bytes ++ (b'|' ∷ [])),
      length-append (ascii_column (length (line_start bytes offset)) bytes) (b'|' ∷ []),
    )

-- A line of the dump takes 62 bytes and one for each byte that it shows, 16 at most, so that with its
-- NUL it fits the buffer of 80 bytes; and reading its columns gives these bytes of the payload.
pub format_hex_line_lem :
    (src : Bytes) (offset : ℕ)
    → All (λ b. b < 256) src
    → (length (format_hex_line src offset) ≡ 62 + min 16 (length src - offset))
      × (length (format_hex_line src offset) < 80)
      × (read_line (format_hex_line src offset) ≡ take 16 (drop offset src))
unfolding format_hex_line
format_hex_line_lem src offset h =
    let l = length-format_hex_line src offset in
    let bytes = take 16 (drop offset src) in
    (
      l,
      omega (arith, l),
      read_line-line_start bytes offset
          (ascii_column (length (line_start bytes offset)) bytes ++ (b'|' ∷ []))
          (omega (arith, length-take 16 (drop offset src)))
          (All-take _ 16 (drop offset src) (All-drop _ offset src h)),
    )
