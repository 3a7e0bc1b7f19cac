-- ===== src/TextEdit/Caret.antt =====
-- An edit keeps the text in its buffer, and the caret in the text.
use mqtt_viewer.Base.{
  ℕ, zero, suc, ◌+◌, ◌≤◌, ◌<◌, Bool, true, false, ◌&&◌, ◌||◌, List, [], ◌∷◌, ◌++◌, Option, none,
  some, ◌≡◌, arith, length, length-append, length-take, length-drop, take, drop, ltb, ◌==◌,
  if◌then◌else◌, ==_no, Bytes,
}
use mqtt_viewer.TextEdit.{
  back_over, prev_boundary, conts, next_boundary, insert_at, Field, drop_selected, typed_in,
  type_chars, paste, backspace, delete, Move, move_caret, Input, moved, begin_edit,
  text_edit_update,
}

-- The text and its NUL fit into `size` bytes, and the caret is in the text.
pub record Fits (size : ℕ) (f : Field) : Type 0 where
  pub room : length f.text < size
  pub caret_in : f.caret ≤ length f.text

pub back_over-bound : (s : Bytes) (i : ℕ) → back_over s i ≤ i
unfolding back_over
back_over-bound s zero = omega arith
back_over-bound s (suc i) = ground (arith, back_over-bound s i)

prev_boundary-bound : (s : Bytes) (i : ℕ) → prev_boundary s i ≤ i
unfolding prev_boundary
prev_boundary-bound s zero = omega arith
prev_boundary-bound s (suc i) = ground (arith, back_over-bound s i)

conts-bound : (s : Bytes) → conts s ≤ length s
unfolding conts
conts-bound [] = omega arith
conts-bound (c ∷ s) = ground (arith, conts-bound s)

next_boundary-bound : (s : Bytes) (i : ℕ) → next_boundary s i ≤ length s
unfolding next_boundary
next_boundary-bound s i = ground (arith, conts-bound (drop (i + 1) s), length-drop (i + 1) s)

drop_selected-Fits : (size : ℕ) (f : Field) → Fits size f → Fits size (drop_selected f)
drop_selected-Fits size f h = ground (arith, h.room, h.caret_in)

typed_in-Fits : (size : ℕ) (f : Field) (src : Bytes) → Fits size f → Fits size (typed_in size f src)
unfolding insert_at
typed_in-Fits size f src h = ground (
  arith,
  h.room,
  h.caret_in,
  length-append (take f.caret f.text) (src ++ drop f.caret f.text),
  length-append src (drop f.caret f.text),
  length-take f.caret f.text,
  length-drop f.caret f.text,
)

type_chars-Fits :
    (utf8 : ℕ → Bytes) (size : ℕ) (ascii_only : Bool) (chs : List ℕ) (fb : Field × Bool)
    → Fits size fb.0
    → Fits size (type_chars utf8 size ascii_only chs fb).0
unfolding type_chars
type_chars-Fits utf8 size ascii_only [] fb h = h
type_chars-Fits utf8 size ascii_only (ch ∷ chs) fb h =
    type_chars-Fits utf8 size ascii_only chs _
      (choose (ltb ch 32 || ch == 127 || (ascii_only && ltb 126 ch)))
  where
    next : Field × Bool
    next = (typed_in size (drop_selected fb.0) (utf8 ch), true)

    choose : (skip : Bool) → Fits size (if skip then fb else next).0
    choose true = h
    choose false =
        typed_in-Fits size (drop_selected fb.0) (utf8 ch) (drop_selected-Fits size fb.0 h)

paste-Fits :
    (size : ℕ) (allow_newlines : Bool) (clip : Option Bytes) (f : Field)
    → Fits size f
    → Fits size (paste size allow_newlines clip f)
unfolding paste
paste-Fits size allow_newlines clip f h =
    typed_in-Fits size (drop_selected f) _ (drop_selected-Fits size f h)

-- A part of the text is cut out.
cut : (f : Field) (m n : ℕ) → m ≤ n → length (take m f.text ++ drop n f.text) ≤ length f.text
cut f m n h = omega (
  arith,
  h,
  length-append (take m f.text) (drop n f.text),
  length-take m f.text,
  length-drop n f.text,
)

backspace-Fits : (size : ℕ) (held : Bool) (f : Field) → Fits size f → Fits size (backspace held f)
unfolding backspace
backspace-Fits size held f h = ground (
  arith,
  h.room,
  h.caret_in,
  prev_boundary-bound f.text f.caret,
  cut f (prev_boundary f.text f.caret) f.caret,
  cut f 0 f.caret,
  length-append (take (prev_boundary f.text f.caret) f.text) (drop f.caret f.text),
  length-take (prev_boundary f.text f.caret) f.text,
)

next_boundary-moves : (s : Bytes) (i : ℕ) → i < length s → i < next_boundary s i
unfolding next_boundary
next_boundary-moves s i h = ground arith

delete-Fits : (size : ℕ) (held : Bool) (f : Field) → Fits size f → Fits size (delete held f)
unfolding delete
delete-Fits size held f h = ground (
  arith,
  h.room,
  h.caret_in,
  next_boundary-moves f.text f.caret,
  length-append (take f.caret f.text) (drop (next_boundary f.text f.caret) f.text),
  length-append (take f.caret f.text) (drop (length f.text) f.text),
  length-take f.caret f.text,
  length-drop (length f.text) f.text,
  length-drop (next_boundary f.text f.caret) f.text,
)

move_caret-Fits :
    (size : ℕ) (held : Bool) (m : Move) (f : Field) → Fits size f → Fits size (move_caret held m f)
unfolding move_caret
move_caret-Fits size held Move.left f h =
    ground (arith, h.room, h.caret_in, prev_boundary-bound f.text f.caret)
move_caret-Fits size held Move.right f h =
    ground (arith, h.room, h.caret_in, next_boundary-bound f.text f.caret)
move_caret-Fits size held Move.home f h = ground (arith, h.room)
move_caret-Fits size held Move.end f h = ground (arith, h.room)

moved-Fits :
    (size : ℕ) (held : Bool) (m : Option Move) (f : Field)
    → Fits size f
    → Fits size (moved held m f)
moved-Fits size held none f h = h
moved-Fits size held (some m) f h = move_caret-Fits size held m f h

either-Fits :
    {size : ℕ} (t : Bool) (f g : Field) → Fits size f → Fits size g → Fits size (if t then f else g)
either-Fits true f g h k = h
either-Fits false f g h k = k

begin_edit-Fits :
    (size : ℕ) (all : Bool) (f : Field) → length f.text < size → Fits size (begin_edit all f)
begin_edit-Fits size all f h = ground arith

result-Fits :
    {size : ℕ} (x y z : Field × Bool) (none_left copies : Bool)
    → none_left ≡ false
    → Fits size y.0
    → Fits size z.0
    → let out : Field × Bool = if none_left then x else if copies then y else z in Fits size out.0
result-Fits x y z none_left true e p q = rw e p
result-Fits x y z none_left false e p q = rw e q

-- After `text_edit_update` the text and its NUL fit into the buffer's `size` bytes and the caret is in
-- the text, whatever the frame's events, wherever the caret was, for each text that fitted before.
pub text_edit_update-Fits :
    (utf8 : ℕ → Bytes) (size : ℕ) (allow_newlines ascii_only : Bool) (i : Input) (f : Field)
    → length f.text < size
    → Fits size (text_edit_update utf8 size allow_newlines ascii_only i f).0
unfolding text_edit_update
text_edit_update-Fits utf8 size allow_newlines ascii_only i f h =
    let f₀ = begin_edit i.select_all f in
    let typed = type_chars utf8 size ascii_only i.chars (f₀, false) in
    let f₁ = if i.pasted then paste size allow_newlines i.clip typed.0 else typed.0 in
    let f₂ = if i.backspace_hit then backspace i.mod_down f₁ else f₁ in
    let f₃ = if i.delete_hit then delete i.mod_down f₂ else f₂ in
    let h₀ = begin_edit-Fits size i.select_all f h in
    let h₁ = type_chars-Fits utf8 size ascii_only i.chars (f₀, false) h₀ in
    let h₂ = either-Fits i.pasted _ _ (paste-Fits size allow_newlines i.clip typed.0 h₁) h₁ in
    let h₃ = either-Fits i.backspace_hit _ _ (backspace-Fits size i.mod_down f₁ h₂) h₂ in
    let h₄ = either-Fits i.delete_hit _ _ (delete-Fits size i.mod_down f₂ h₃) h₃ in
    result-Fits (f, false) (f₀, false) _ (size == 0) i.copy (==_no size 0 (omega (arith, h))) h₀
      (moved-Fits size i.mod_down i.move f₃ h₄)
