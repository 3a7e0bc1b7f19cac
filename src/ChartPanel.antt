-- ===== src/ChartPanel.antt =====
-- The charts of the application: src/ui/chart_panel.c without its drawing, and `chart_add_from_line` of
-- src/ui/inspector_widget.c. The array `chart_series` is a list; `none` is the index -1.
pub mod Grid
pub mod Charted
use mqtt_viewer.Base.{
  ℕ, zero, suc, ◌+◌, ◌-◌, ◌*◌, ◌/◌, Bool, true, false, not, ◌&&◌, ◌||◌, List, [], ◌∷◌, ◌++◌, map,
  Option, none, some, length, get_elem?, ltb, leb, ◌==◌, if◌then◌else◌, Bytes, str_eq,
}
use mqtt_viewer.JsonPp.{JsonPp, JsonPpLine}
use mqtt_viewer.JsonPp.Format.{json_pp_run_len, json_pp_number_at}
use mqtt_viewer.ChartSeries.{Doubles, Series, chart_series_init, chart_series_push_sample}

-- The columns, then the rows.
unfoldable pub chart_panel_grid : ℕ → ℕ × ℕ
chart_panel_grid n =
    if leb n 1
    then (1, 1)
    else if leb n 4
    then (2, (n + 1) / 2)
    else if leb n 9
    then (3, (n + 2) / 3)
    else (4, (n + 3) / 4)

module _ (F : Doubles) where
  -- The loop of `chart_panel_active_at`, at the index `s`.
  unfoldable pub active_from : ℕ → (seen s : ℕ) → List (Series F) → Option ℕ
  active_from i seen s [] = none
  active_from i seen s (x ∷ xs) = elim x.active [
    | false ↦ active_from i seen (suc s) xs
    | true ↦ elim (seen == i) [ true ↦ some s | false ↦ active_from i (suc seen) (suc s) xs ]
  ]

  unfoldable pub chart_panel_active_at : List (Series F) → ℕ → Option ℕ
  chart_panel_active_at xs i = active_from i 0 0 xs

  unfoldable pub chart_panel_has_active : List (Series F) → Bool
  chart_panel_has_active [] = false
  chart_panel_has_active (x ∷ xs) = if x.active then true else chart_panel_has_active xs

  unfoldable pub active_count : List (Series F) → ℕ
  active_count [] = 0
  active_count (x ∷ xs) = if x.active then suc (active_count xs) else active_count xs

  -- The series that the cells of a row show, from the column `c` on; `none` for an empty cell.
  unfoldable pub row_cells : List (Series F) → (cols r c rounds : ℕ) → List (Option ℕ)
  row_cells xs cols r c zero = []
  row_cells xs cols r c (suc rounds) =
      chart_panel_active_at xs (r * cols + c) ∷ row_cells xs cols r (suc c) rounds

  unfoldable pub grid_cells : List (Series F) → (cols r rounds : ℕ) → List (Option ℕ)
  grid_cells xs cols r zero = []
  grid_cells xs cols r (suc rounds) =
      row_cells xs cols r 0 cols ++ grid_cells xs cols (suc r) rounds

  -- The cells that `chart_panel_render` lays out.
  unfoldable pub chart_panel_cells : List (Series F) → List (Option ℕ)
  chart_panel_cells xs =
      let n = active_count xs in
      let grid = chart_panel_grid n in if n == 0 then [] else grid_cells xs grid.0 0 grid.1

  abbrev pub is_charted : Bytes → Bytes → Series F → Bool
  is_charted topic dot_path s = s.active && (str_eq s.topic topic && str_eq s.dot_path dot_path)

  unfoldable pub any_charted : Bytes → Bytes → List (Series F) → Bool
  any_charted topic dot_path [] = false
  any_charted topic dot_path (x ∷ xs) = is_charted topic dot_path x || any_charted topic dot_path xs

  -- The last loop of `chart_add_from_line`: the first slot that is free.
  unfoldable pub add_to_free : Bytes → Bytes → List (Series F) → List (Series F)
  add_to_free topic dot_path [] = []
  add_to_free topic dot_path (x ∷ xs) =
      if x.active
      then x ∷ add_to_free topic dot_path xs
      else chart_series_init F (some topic) (some dot_path) ∷ xs

  -- `none` where the index is out of range.
  unfoldable pub chart_line : Bytes → Option JsonPpLine → List (Series F) → List (Series F)
  chart_line topic none xs = xs
  chart_line topic (some line) xs =
      if length topic == 0 || not line.is_numeric || any_charted topic line.dot_path xs
      then xs
      else add_to_free topic line.dot_path xs

  -- `topic` is `s_inspector_topic`, `lines` are those of `s_pp`; a negative index is out of range too.
  unfoldable pub chart_add_from_line :
      Bytes → List JsonPpLine → ℕ → List (Series F) → List (Series F)
  chart_add_from_line topic lines line_idx xs = chart_line topic (get_elem? lines line_idx) xs

  module _ (strtod : Bytes → F.Double × Bytes) where
    unfoldable pub push_found : Option F.Double → ℕ → Series F → Series F
    push_found none ts_us s = s
    push_found (some v) ts_us s = (chart_series_push_sample F ts_us v s).0

    -- The series gets the number at its path, where there is one.
    unfoldable pub push_number : JsonPp → ℕ → Series F → Series F
    push_number pp ts_us s = push_found (json_pp_number_at strtod F.isfinite pp s.dot_path) ts_us s

    -- The loop formats the payload for the first series of the topic; the others read the same lines.
    unfoldable pub chart_panel_capture_sample :
        JsonPp → Bytes → Option Bytes → ℕ → List (Series F) → List (Series F)
    chart_panel_capture_sample pp topic none ts_us xs = xs
    chart_panel_capture_sample pp topic (some payload) ts_us xs =
        let formatted = json_pp_run_len strtod F.isfinite pp payload in
        if length payload == 0
        then xs
        else map
            (λ s.
              if not s.active || not (str_eq s.topic topic)
              then s
              else push_number formatted ts_us s)
            xs
