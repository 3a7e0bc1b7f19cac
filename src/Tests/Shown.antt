-- ===== src/Tests/Shown.antt =====
-- The hex dump of src/ui/inspector_widget.c and `text_edit_format` of src/ui/text_edit.c.
use mqtt_viewer.Base.{
  ℕ, Bytes, ℕ, ◌+◌, ◌-◌, ◌≤◌, ◌<◌, ◌≡◌, min, refl, true, false, [], ◌∷◌, ◌++◌, some, none, length,
  take, drop, Bytes, codes, arith,
}
use mqtt_viewer.HexDump.{
  byte_digits, hex_offset, hex_columns, ascii_column, format_hex_line, dump_lines, without_newline,
  build_hex_dump_str,
}
use mqtt_viewer.HexDump.Lines.{read_line, format_hex_line_lem}
use mqtt_viewer.TextEdit.{is_cont, back_over}
use mqtt_viewer.TextEdit.Format.{IsShown, shown_bytes, text_edit_format, text_edit_format_lem}

abbrev three_bytes : Bytes
three_bytes = codes "On" ++ (255 ∷ [])

one_line :
    build_hex_dump_str three_bytes 100
    ≡ codes "00000000  4f 6e ff                                          |On.|"
unfolding build_hex_dump_str dump_lines without_newline format_hex_line hex_offset hex_columns
    byte_digits ascii_column
one_line = refl

hex_line_example :
    (length (format_hex_line three_bytes 0) ≡ 62 + min 16 (length three_bytes - 0))
    × (length (format_hex_line three_bytes 0) < 80)
    × (read_line (format_hex_line three_bytes 0) ≡ take 16 (drop 0 three_bytes))
hex_line_example = format_hex_line_lem three_bytes 0 (omega arith, (omega arith, (omega arith, tt)))

cut_text : text_edit_format 10 (codes "a long text") 2 true ≡ (some (codes "a |lon..."), some 2)
unfolding text_edit_format shown_bytes back_over is_cont
cut_text = refl

display_example :
    (n : ℕ) × (text : Bytes) × IsShown 10 (codes "a long text") n text
    × (length text + 2 ≤ 10)
    × (text_edit_format 10 (codes "a long text") 2 false ≡ (some text, none))
    × (text_edit_format 10 (codes "a long text") 2 true
        ≡ (some (take (min 2 n) text ++ (b'|' ∷ drop (min 2 n) text)), some (min 2 n)))
display_example = text_edit_format_lem 10 (codes "a long text") (omega arith) 2
