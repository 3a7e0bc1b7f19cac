-- ===== src/Tests/Fields.antt =====
-- src/ui/text_edit.c on a short field.
use mqtt_viewer.Base.{ℕ, true, false, [], ◌∷◌, none, some, ◌≡◌, refl, arith, Bytes, codes}
use mqtt_viewer.TextEdit.{
  Field, Move, Input, text_edit_update, is_cont, back_over, prev_boundary, backspace,
}
use mqtt_viewer.TextEdit.Caret.{Fits, text_edit_update-Fits}

abbrev one_char : ℕ → Bytes
one_char ch = ch ∷ []

-- The text "ab" with a caret past its end; 'x' is typed, and the caret goes to the left.
abbrev events : Input
events = record {
  select_all = false;
  copy = false;
  chars = b'x' ∷ [];
  clip = none;
  pasted = false;
  mod_down = false;
  backspace_hit = false;
  delete_hit = false;
  move = some Move.left;
}

abbrev field : Field
field = record { text = codes "ab"; caret = 9; all_selected = false }

update_example : Fits 8 (text_edit_update one_char 8 true false events field).0
update_example = text_edit_update-Fits one_char 8 true false events field (omega arith)

-- A backspace takes the two bytes of an 'é'.
backspace_run :
    (backspace false
      (record { text = b'a' ∷ 0xc3 ∷ 0xa9 ∷ []; caret = 3; all_selected = false })).text
    ≡ codes "a"
unfolding backspace prev_boundary back_over is_cont
backspace_run = refl
