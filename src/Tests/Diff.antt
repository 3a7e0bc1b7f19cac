-- ===== src/Tests/Diff.antt =====
-- The line diff of src/ui/inspector_widget.c on three short texts.
use mqtt_viewer.Base.{
  ℕ, ◌≤◌, ◌+◌, ◌*◌, Bytes, Bool, true, List, [], ◌∷◌, none, some, length, ◌≡◌, refl, arith, map,
  str_eq, codes,
}
use mqtt_viewer.JsonPp.{JsonPp, skip_ws, starts}
use mqtt_viewer.JsonPp.Format.{json_pp_looks_like_json}
use mqtt_viewer.JsonDiff.{
  DiffState, DiffMergedEntry, DiffLine, DiffTable, diff_max_lines, diff_lines_equal, fill_table,
  diff_compute, backtrack, reversed, write, clear_row, clear_column, fill_rows, fill_row, fill_cell,
}
use mqtt_viewer.JsonDiff.Common.{common, Pairing, pairs}
use mqtt_viewer.JsonDiff.Table.{fill_table-eq-common}
use mqtt_viewer.JsonDiff.Script.{unchanged_count, upto, merged_shortest}
use mqtt_viewer.JsonDiff.View.{DiffNode, DiffView, render_json_diff_view}
use mqtt_viewer.JsonDiff.View.Rows.{shown_lines, shown_lines-render}

abbrev row : ℕ → Bytes → DiffLine
row d t = record { depth = d; text = t }

abbrev before : List DiffLine
before = row 0 (codes "{") ∷ row 1 (codes "a: 1") ∷ row 0 (codes "}") ∷ []

abbrev after : List DiffLine
after = row 0 (codes "{") ∷ row 1 (codes "a: 2") ∷ row 1 (codes "b: 3") ∷ row 0 (codes "}") ∷ []

-- What an earlier diff left.
abbrev sevens : DiffTable
sevens i j = 7

abbrev merged_states : List DiffState
merged_states = map (λ (e : DiffMergedEntry). e.state) (diff_compute before after sevens).0

states_example :
    merged_states
    ≡ DiffState.unchanged ∷ DiffState.removed ∷ DiffState.added ∷ DiffState.added
      ∷ DiffState.unchanged ∷ []
unfolding diff_compute fill_table fill_rows fill_row fill_cell clear_row clear_column write
    backtrack reversed diff_lines_equal str_eq
states_example = refl

table_example :
    fill_table (diff_lines_equal before after) 3 4 sevens 3 4
    ≡ common (diff_lines_equal before after) 3 4
table_example =
    fill_table-eq-common (diff_lines_equal before after) 3 4 sevens 3 4 (omega arith) (omega arith)

-- Only the first lines are paired.
abbrev first_lines : Pairing (diff_lines_equal before after) 3 4
unfolding diff_lines_equal str_eq
first_lines = Pairing.skip_curr (
    Pairing.skip_curr
      (Pairing.skip_curr (Pairing.skip_prev (Pairing.skip_prev (Pairing.pair Pairing.start refl)))))

shortest_example :
    (pairs (diff_lines_equal before after) first_lines
      ≤ unchanged_count (diff_compute before after sevens).0)
    × (length (diff_compute before after sevens).0
          + unchanged_count (diff_compute before after sevens).0
        ≡ 7)
    × (length (diff_compute before after sevens).0 ≤ 2 * diff_max_lines)
shortest_example = merged_shortest before after sevens first_lines

-- No text is a number.
abbrev no_number : Bytes → ℕ × Bytes
no_number s = (0, s)

abbrev finite : ℕ → Bool
finite _ = true

abbrev start_of_view : DiffView
start_of_view = record {
  pp = nothing_formatted;
  pp_prev = nothing_formatted;
  prev_payload = codes "[1]";
  prev_node = some 1;
  prev_ts = 5;
  merged = [];
  dp = sevens;
}
  where
    nothing_formatted : JsonPp
    nothing_formatted = record {
      lines = [];
      cache_src = none;
      cache_key = 0;
      rest = [];
      depth = 0;
      path = [];
    }

abbrev shown_node : DiffNode
shown_node = record {
  node = 1;
  payload_at = 9;
  payload = codes "[2,3]";
  last_display_update_us = 6;
  last_message_ts = 6;
}

is_json : json_pp_looks_like_json no_number finite (some (codes "[2,3]")) ≡ true
unfolding json_pp_looks_like_json skip_ws starts
is_json = refl

render_example :
    shown_lines (render_json_diff_view no_number finite shown_node start_of_view).1
    ≡ upto (length (render_json_diff_view no_number finite shown_node start_of_view).0.pp.lines)
render_example =
    shown_lines-render no_number finite shown_node start_of_view (omega arith) is_json refl
