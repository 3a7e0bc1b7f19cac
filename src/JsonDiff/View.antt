-- ===== src/JsonDiff/View.antt =====
-- src/ui/inspector_widget.c: `render_json_diff_view`, what it keeps from frame to frame and the rows that
-- it shows. `strtod` and `isfinite` are parameters, as in the formatter.
use mqtt_viewer.Base.{
  ℕ, zero, suc, ◌+◌, ◌-◌, Bool, true, false, not, List, [], ◌∷◌, ◌++◌, Option, none, some, length,
  map, take, leb, ltb, ◌==◌, if◌then◌else◌, Bytes,
}
use mqtt_viewer.Util.{truncated}
use mqtt_viewer.JsonPp.{JsonPp, JsonPpLine, json_pp_max_lines}
use mqtt_viewer.JsonPp.Format.{json_pp_run_len, json_pp_run_cached, json_pp_looks_like_json}
use mqtt_viewer.JsonDiff.{
  DiffState, DiffMergedEntry, DiffTable, DiffLine, diff_max_lines, diff_compute,
}
pub mod Rows

-- The parts of `TopicNode` that the view reads: its number stands for its address.
pub record DiffNode : Type 0 where
  pub node : ℕ
  pub payload_at : ℕ
  pub payload : Bytes
  pub last_display_update_us : ℕ
  pub last_message_ts : ℕ

-- The static variables `s_pp`, `s_pp_prev` and `s_diff_*`.
pub record DiffView : Type 0 where
  pub pp : JsonPp
  pub pp_prev : JsonPp
  pub prev_payload : Bytes
  pub prev_node : Option ℕ
  pub prev_ts : ℕ
  pub merged : List DiffMergedEntry
  pub dp : DiffTable

-- The calls of `render_pp_line`, `render_pp_removed` and `render_text_view`, and the two texts.
pub data DiffRow : Type 0 where
  no_payload output_truncated : DiffRow
  text_view : Bytes → DiffRow
  line : (line_idx : Option ℕ) (state : DiffState) → DiffRow
  removed_line : (entry : ℕ) (prev_idx : Option ℕ) → DiffRow

unfoldable pub diff_format_line : JsonPpLine → DiffLine
diff_format_line l = record {
  depth = l.depth;
  text = truncated 192 (l.key ++ l.sep ++ l.val ++ l.trail);
}

unfoldable pub diff_lines : List JsonPpLine → List DiffLine
unfolding diff_format_line
diff_lines ls = map diff_format_line (take diff_max_lines ls)

-- `render_pp_line` of the lines from `li` on.
unfoldable pub lines_from : (li : ℕ) (rounds : ℕ) → List DiffRow
lines_from li zero = []
lines_from li (suc rounds) = DiffRow.line (some li) DiffState.unchanged ∷ lines_from (suc li) rounds

abbrev pub entry_row : ℕ → DiffMergedEntry → DiffRow
entry_row k e = elim e.state [
  | DiffState.removed ↦ DiffRow.removed_line k e.prev_idx
  | DiffState.added ↦ DiffRow.line e.curr_idx e.state
  | DiffState.unchanged ↦ DiffRow.line e.curr_idx e.state
]

unfoldable pub entry_rows : ℕ → List DiffMergedEntry → List DiffRow
entry_rows k [] = []
entry_rows k (e ∷ es) = entry_row k e ∷ entry_rows (suc k) es

unfoldable pub merged_rows : List DiffMergedEntry → ℕ → List DiffRow
merged_rows [] line_count = lines_from 0 line_count
merged_rows (e ∷ es) line_count =
    entry_rows 0 (e ∷ es) ++ lines_from diff_max_lines (line_count - diff_max_lines)

unfoldable pub diff_rows : DiffView → List DiffRow
diff_rows v =
    merged_rows v.merged (length v.pp.lines)
    ++ (if leb json_pp_max_lines (length v.pp.lines) then DiffRow.output_truncated ∷ [] else [])

abbrev pub is_node : Option ℕ → ℕ → Bool
is_node none n = false
is_node (some m) n = m == n

module _ {D : Type 0} (strtod : Bytes → D × Bytes) (isfinite : D → Bool) where
  -- From `node_switched` to the update of the baseline.
  unfoldable pub update_diff : DiffNode → DiffView → DiffView
  update_diff n v =
      let old = json_pp_run_len strtod isfinite v.pp_prev v.prev_payload in
      let d = diff_compute (diff_lines old.lines) (diff_lines v.pp.lines) v.dp in
      if not (is_node v.prev_node n.node)
      then record v {
        prev_node = some n.node;
        prev_ts = n.last_message_ts;
        prev_payload = n.payload;
        merged = [];
      }
      else if not (v.prev_ts == n.last_message_ts)
      then record v {
        pp_prev = old;
        merged = d.0;
        dp = d.1;
        prev_payload = n.payload;
        prev_ts = n.last_message_ts;
      }
      else v

  -- The view's `json_pp_run_cached`.
  unfoldable pub formatted : DiffNode → DiffView → DiffView
  formatted n v = record v {
    pp =
        (json_pp_run_cached strtod isfinite v.pp n.payload_at n.payload n.last_display_update_us).0;
  }

  unfoldable pub render_json_diff_view : DiffNode → DiffView → DiffView × List DiffRow
  render_json_diff_view n v =
      let w = formatted n v in
      let u = update_diff n w in
      if length n.payload == 0
      then (v, DiffRow.no_payload ∷ [])
      else if not (json_pp_looks_like_json strtod isfinite (some n.payload))
      then (v, DiffRow.text_view n.payload ∷ [])
      else if length w.pp.lines == 0
      then (w, DiffRow.text_view n.payload ∷ [])
      else (u, diff_rows u)
