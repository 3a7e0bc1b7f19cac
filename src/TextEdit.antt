-- ===== src/TextEdit.antt =====
-- src/ui/text_edit.c and src/ui/text_input.h: editing a text field. A field is the C string in its
-- buffer; raylib's input is an argument, one frame's events. The measuring of text is not modelled.
pub mod Caret
pub mod Format
use mqtt_viewer.Base.{
  ℕ, zero, suc, ◌+◌, ◌-◌, ◌/◌, Bool, true, false, not, ◌&&◌, ◌||◌, List, [], ◌∷◌, ◌++◌, Option,
  none, some, length, take, drop, get_or, ltb, leb, ◌==◌, if◌then◌else◌, Bytes,
}

-- `(c & 0xC0) == 0x80`
unfoldable pub is_cont : ℕ → Bool
is_cont c = leb 0x80 c && ltb c 0xC0

-- The loop of `prev_boundary`, from `i` down.
unfoldable pub back_over : Bytes → ℕ → ℕ
back_over s zero = zero
back_over s (suc i) =
    let rest = back_over s i in if is_cont (get_or s (suc i) 0) then rest else suc i

unfoldable pub prev_boundary : Bytes → ℕ → ℕ
prev_boundary s zero = zero
prev_boundary s (suc i) = back_over s i

-- The number of continuation bytes at the front.
unfoldable pub conts : Bytes → ℕ
conts [] = 0
conts (c ∷ s) = let rest = conts s in if is_cont c then suc rest else 0

unfoldable pub next_boundary : Bytes → ℕ → ℕ
next_boundary s i = if leb (length s) i then length s else i + 1 + conts (drop (i + 1) s)

-- The new text, and the number of bytes inserted: all of `src`, or none where they do not fit.
unfoldable pub insert_at : Bytes → ℕ → ℕ → Bytes → Bytes × ℕ
insert_at buf size at src =
    if length src == 0 || ltb size (length buf + length src + 1)
    then (buf, 0)
    else (take at buf ++ (src ++ drop at buf), length src)

-- The loop of `text_input_append_filtered`, with `room` bytes left.
unfoldable pub filtered : ℕ → Bool → Bytes → Bytes
filtered room allow_newlines [] = []
filtered room allow_newlines (c ∷ s) = elim (c == b'\r' || c == b'\n') [
  | true ↦ elim allow_newlines [
    | false ↦ filtered room false s
    | true ↦ elim room [ zero ↦ [] | suc left ↦ b'\n' ∷ filtered left true s ]
  ]
  | false ↦ elim (ltb c 0x20 || c == 0x7f) [
    | true ↦ filtered room allow_newlines s
    | false ↦ elim room [ zero ↦ [] | suc left ↦ c ∷ filtered left allow_newlines s ]
  ]
]

-- A '\n' that follows a '\r' is skipped where newlines are kept.
unfoldable pub join_crlf : Bytes → Bytes
join_crlf [] = []
join_crlf (c ∷ []) = c ∷ []
join_crlf (c ∷ d ∷ s) = elim (c == b'\r' && d == b'\n') [
  | true ↦ c ∷ join_crlf s
  | false ↦ c ∷ join_crlf (d ∷ s)
]

unfoldable pub text_input_append_filtered : Bytes → ℕ → Option Bytes → Bool → Bytes
text_input_append_filtered buf zero src allow_newlines = buf
text_input_append_filtered buf (suc size) none allow_newlines = buf
text_input_append_filtered buf (suc size) (some src) allow_newlines =
    buf
    ++ filtered (size - length buf) allow_newlines (if allow_newlines then join_crlf src else src)

-- A field under edit.
pub record Field : Type 0 where
  pub text : Bytes
  pub caret : ℕ
  pub all_selected : Bool

-- `if (*all_selected) { buf[0] = '\0'; *caret = 0; *all_selected = false; }`
abbrev pub drop_selected : Field → Field
drop_selected f =
    if f.all_selected then record { text = []; caret = 0; all_selected = false } else f

abbrev pub typed_in : ℕ → Field → Bytes → Field
typed_in size f src =
    let out = insert_at f.text size f.caret src in
    record f { text = out.0; caret = f.caret + out.1 }

-- The loop over the typed characters; `utf8` stands for raylib's `CodepointToUTF8`. The flag tells
-- whether something changed.
unfoldable pub type_chars : (ℕ → Bytes) → ℕ → Bool → List ℕ → Field × Bool → Field × Bool
type_chars utf8 size ascii_only [] fb = fb
type_chars utf8 size ascii_only (ch ∷ chs) fb = type_chars utf8 size ascii_only chs (
    if ltb ch 32 || ch == 127 || (ascii_only && ltb 126 ch)
    then fb
    else (typed_in size (drop_selected fb.0) (utf8 ch), true))

-- `while (n > 0 && is_cont(s_paste[n])) n--;` from `n = room`, where the text does not fit.
unfoldable pub paste : ℕ → Bool → Option Bytes → Field → Field
paste size allow_newlines clip f =
    let s_paste = text_input_append_filtered [] 8192 clip allow_newlines in
    let g = drop_selected f in
    let room = size - length g.text - 1 in
    typed_in size g
      (if ltb room (length s_paste) then take (back_over s_paste room) s_paste else s_paste)

-- `held` is true with Ctrl or Cmd held.
unfoldable pub backspace : Bool → Field → Field
backspace held f =
    if f.all_selected
    then record { text = []; caret = 0; all_selected = false }
    else if ltb 0 f.caret
    then (let from = if held then 0 else prev_boundary f.text f.caret in
        record {
          text = take from f.text ++ drop f.caret f.text;
          caret = from;
          all_selected = false;
        })
    else record f { all_selected = false }

unfoldable pub delete : Bool → Field → Field
delete held f =
    if f.all_selected
    then record { text = []; caret = 0; all_selected = false }
    else if ltb f.caret (length f.text)
    then (let to = if held then length f.text else next_boundary f.text f.caret in
        record f { text = take f.caret f.text ++ drop to f.text; all_selected = false })
    else record f { all_selected = false }

pub data Move : Type 0 where
  left right home end : Move

unfoldable pub move_caret : Bool → Move → Field → Field
move_caret held Move.left f = record f {
  caret = if f.all_selected || held then 0 else prev_boundary f.text f.caret;
  all_selected = false;
}
move_caret held Move.right f = record f {
  caret = if f.all_selected || held then length f.text else next_boundary f.text f.caret;
  all_selected = false;
}
move_caret held Move.home f = record f { caret = 0; all_selected = false }
move_caret held Move.end f = record f { caret = length f.text; all_selected = false }

-- One frame's events: `move` is the first of the four caret keys that is hit.
pub record Input : Type 0 where
  pub select_all : Bool
  pub copy : Bool
  pub chars : List ℕ
  pub clip : Option Bytes
  pub pasted : Bool
  pub mod_down : Bool
  pub backspace_hit : Bool
  pub delete_hit : Bool
  pub move : Option Move

abbrev pub moved : Bool → Option Move → Field → Field
moved held none f = f
moved held (some m) f = move_caret held m f

-- The frame's start: the caret is clamped, and all is selected.
abbrev pub begin_edit : Bool → Field → Field
begin_edit select_all f = record f {
  caret = if ltb (length f.text) f.caret then length f.text else f.caret;
  all_selected = select_all || f.all_selected;
}

-- The flag is the C function's result.
unfoldable pub text_edit_update : (ℕ → Bytes) → ℕ → Bool → Bool → Input → Field → Field × Bool
text_edit_update utf8 size allow_newlines ascii_only i f =
    let f₀ = begin_edit i.select_all f in
    let typed = type_chars utf8 size ascii_only i.chars (f₀, false) in
    let f₁ = if i.pasted then paste size allow_newlines i.clip typed.0 else typed.0 in
    let f₂ = if i.backspace_hit then backspace i.mod_down f₁ else f₁ in
    let f₃ = if i.delete_hit then delete i.mod_down f₂ else f₂ in
    if size == 0
    then (f, false)
    else if i.copy
    then (f₀, false)
    else (moved i.mod_down i.move f₃, typed.1 || i.pasted || i.backspace_hit || i.delete_hit)
