-- ===== src/Tests/Panel.antt =====
-- The charts panel of src/ui/chart_panel.c and the lines of the inspector that are charted.
use mqtt_viewer.Base.{
  ℕ, ◌-◌, ◌*◌, ◌≤◌, ◌<◌, ◌≡◌, max, true, List, [], ◌∷◌, none, some, All, Bytes, codes, arith,
}
use mqtt_viewer.JsonPp.{JsonPp, JsonPpLine, JsonPpValKind}
use mqtt_viewer.ChartSeries.{Series, chart_series_reset}
use mqtt_viewer.ChartSeries.Window.{IsValid}
use mqtt_viewer.ChartPanel.{
  chart_panel_grid, chart_panel_cells, chart_add_from_line, chart_panel_capture_sample,
}
use mqtt_viewer.ChartPanel.Grid.{
  somes, active_indices, chart_panel_grid_lem, somes-chart_panel_cells,
}
use mqtt_viewer.ChartPanel.Charted.{
  charts_of, chart_add_from_line-once, chart_panel_capture_sample-IsValid,
}
use mqtt_viewer.Tests.Charts.{whole, started, started-IsValid}

abbrev series : List (Series whole)
series = chart_series_reset whole ∷ started ∷ []

abbrev number_line : JsonPpLine
number_line = record {
  depth = 1;
  key = codes "u";
  sep = codes ": ";
  val = codes "3";
  trail = [];
  val_kind = JsonPpValKind.atom;
  dot_path = codes "u";
  is_numeric = true;
}

grid_example :
    let (cols, rows) = chart_panel_grid 7 in
    (7 ≤ cols * rows) × ((rows - 1) * cols < max 7 1) × (1 ≤ cols) × (cols ≤ 4)
grid_example = chart_panel_grid_lem 7

cells_example : somes (chart_panel_cells whole series) ≡ active_indices whole 0 series
cells_example = somes-chart_panel_cells whole series

once_example :
    charts_of whole
      (codes "a/b")
      (codes "u")
      (chart_add_from_line whole (codes "a/b") (number_line ∷ []) 0 (chart_series_reset whole ∷ []))
    ≤ 1
unfolding chart_series_reset
once_example =
    chart_add_from_line-once whole (codes "a/b") (number_line ∷ []) 0
      (chart_series_reset whole ∷ []) (omega arith) (omega arith, tt) none_yet (codes "a/b")
      (codes "u")
  where
    none_yet : (t d : Bytes) → charts_of whole t d (chart_series_reset whole ∷ []) ≤ 1
    none_yet t d = omega arith

abbrev no_number : Bytes → ℕ × Bytes
no_number s = (0, s)

abbrev nothing : JsonPp
nothing = record { lines = []; cache_src = none; cache_key = 0; rest = []; depth = 0; path = [] }

capture_example :
    All
      (λ s. IsValid whole s)
      (chart_panel_capture_sample whole no_number nothing
        (codes "a/b")
        (some (codes "{\"t\":3}"))
        70000
        (started ∷ []))
capture_example =
    chart_panel_capture_sample-IsValid whole no_number nothing (codes "a/b")
      (some (codes "{\"t\":3}")) 70000 (started ∷ []) (omega arith) (started-IsValid, tt)
