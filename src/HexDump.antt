-- ===== src/HexDump.antt =====
-- src/ui/inspector_widget.c: the hex dump of a payload, `format_hex_line` and `build_hex_dump_str`. A
-- line's buffer has 80 bytes and a line 78 at most, so that no `snprintf` cuts anything.
pub mod Lines
pub mod Dump
use mqtt_viewer.Base.{
  ℕ, zero, suc, ◌+◌, ◌-◌, ◌*◌, ◌/◌, ◌%◌, ◌^◌, min, Bool, true, false, ◌&&◌, List, [], ◌∷◌, ◌++◌,
  length, take, drop, ltb, leb, ◌==◌, if◌then◌else◌, Bytes,
}
use mqtt_viewer.CborPp.{hex_digit}

-- `printf("%02x", b)` for a byte
unfoldable pub byte_digits : ℕ → Bytes
byte_digits b = hex_digit (b / 16) ∷ hex_digit (b % 16) ∷ []

-- `printf("%08x", n)` for 32 bits: four bytes, the highest first
unfoldable pub hex_offset : ℕ → Bytes
unfolding byte_digits
hex_offset n =
    byte_digits (n / 2 ^ 24 % 256)
    ++ (byte_digits (n / 2 ^ 16 % 256) ++ (byte_digits (n / 2 ^ 8 % 256) ++ byte_digits (n % 256)))

abbrev pub gap_after : ℕ → Bytes
gap_after j = if j == 7 then b' ' ∷ [] else []

-- The rounds of the first loop from `j` on; `bytes` are those of the line that are left.
unfoldable pub hex_columns : (j rounds : ℕ) → Bytes → Bytes
unfolding byte_digits
hex_columns j zero bytes = []
hex_columns j (suc rounds) [] = b' ' ∷ b' ' ∷ b' ' ∷ (gap_after j ++ hex_columns (suc j) rounds [])
hex_columns j (suc rounds) (b ∷ bytes) =
    byte_digits b ++ (b' ' ∷ (gap_after j ++ hex_columns (suc j) rounds bytes))

abbrev pub ascii_or_dot : ℕ → ℕ
ascii_or_dot c = if leb 0x20 c && ltb c 0x7f then c else b'.'

-- The second loop, at the position `pos` of the buffer.
unfoldable pub ascii_column : (pos : ℕ) → Bytes → Bytes
ascii_column pos [] = []
ascii_column pos (c ∷ s) = elim (ltb pos 78) [
  | true ↦ ascii_or_dot c ∷ ascii_column (suc pos) s
  | false ↦ []
]

-- `offset` is below the length of `src`.
unfoldable pub format_hex_line : Bytes → ℕ → Bytes
format_hex_line src offset =
    let bytes = take 16 (drop offset src) in
    let start =
      hex_offset offset ++ (b' ' ∷ b' ' ∷ (hex_columns 0 16 bytes ++ (b' ' ∷ b'|' ∷ []))) in
    start ++ (ascii_column (length start) bytes ++ (b'|' ∷ []))

-- The loop of `build_hex_dump_str`, with `out` written so far; a round for each line is enough.
unfoldable pub dump_lines : Bytes → (out_size : ℕ) → (rounds offset : ℕ) → Bytes → Bytes
dump_lines src out_size zero offset out = out
dump_lines src out_size (suc rounds) offset out =
    let line = format_hex_line src offset in
    let rest = dump_lines src out_size rounds (offset + 16) (out ++ (line ++ (b'\n' ∷ []))) in
    if ltb offset (length src)
    then (if leb out_size (length out + length line + 1) then out else rest)
    else out

-- `if (pos > 0 && out[pos - 1] == '\n') pos--;`
unfoldable pub without_newline : Bytes → Bytes
without_newline [] = []
without_newline (c ∷ []) = if c == b'\n' then [] else c ∷ []
without_newline (c ∷ d ∷ s) = c ∷ without_newline (d ∷ s)

unfoldable pub build_hex_dump_str : Bytes → ℕ → Bytes
build_hex_dump_str src out_size =
    without_newline (dump_lines src out_size ((length src + 15) / 16) 0 [])
