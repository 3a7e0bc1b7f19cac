-- ===== src/JsonDiff.antt =====
-- src/ui/inspector_widget.c: the line diff of the inspector, `diff_compute` and its helpers.
-- The loops take the answers of `diff_lines_equal` as a parameter; an index of -1 is `none`.
use mqtt_viewer.Base.{
  ℕ, zero, suc, ◌+◌, ◌-◌, min, max, Bool, true, false, ◌&&◌, List, [], ◌∷◌, ◌++◌, Option, none,
  some, length, take, get_or, ltb, leb, ◌==◌, if◌then◌else◌, Bytes, str_eq,
}
pub mod Common
pub mod Table
pub mod Script
pub mod View

pub data DiffState : Type 0 where
  unchanged added removed : DiffState

pub record DiffMergedEntry : Type 0 where
  pub curr_idx : Option ℕ
  pub prev_idx : Option ℕ
  pub state : DiffState

abbrev pub diff_max_lines : ℕ
diff_max_lines = 256

-- A line's depth and its text.
pub record DiffLine : Type 0 where
  pub depth : ℕ
  pub text : Bytes

abbrev blank_line : DiffLine
blank_line = record { depth = 0; text = [] }

unfoldable pub diff_lines_equal : List DiffLine → List DiffLine → ℕ → ℕ → Bool
diff_lines_equal prev curr prev_idx curr_idx =
    let p = get_or prev prev_idx blank_line in
    let c = get_or curr curr_idx blank_line in
    if p.depth == c.depth then str_eq p.text c.text else false

-- `s_diff_dp`, whatever stands in it before a call.
abbrev pub DiffTable : Type 0
DiffTable = ℕ → ℕ → ℕ

unfoldable pub write : DiffTable → ℕ → ℕ → ℕ → DiffTable
write dp i j v i' j' = if i == i' && j == j' then v else dp i' j'

-- `for (int i = 0; i <= n; i++) s_diff_dp[i][0] = 0;`: the rounds before the last one first.
unfoldable pub clear_column : ℕ → DiffTable → DiffTable
clear_column zero dp = write dp 0 0 0
clear_column (suc i) dp = write (clear_column i dp) (suc i) 0 0

unfoldable pub clear_row : ℕ → DiffTable → DiffTable
clear_row zero dp = write dp 0 0 0
clear_row (suc j) dp = write (clear_row j dp) 0 (suc j) 0

module _ (equal : ℕ → ℕ → Bool) where
  -- The body of the loops, at row `i + 1` and column `j + 1`.
  unfoldable pub fill_cell : ℕ → ℕ → DiffTable → DiffTable
  fill_cell i j dp =
      let a = dp i (suc j) in
      let b = dp (suc i) j in
      write dp (suc i) (suc j) (if equal i j then dp i j + 1 else if ltb b a then a else b)

  unfoldable pub fill_row : ℕ → ℕ → DiffTable → DiffTable
  fill_row i zero dp = dp
  fill_row i (suc j) dp = fill_cell i j (fill_row i j dp)

  unfoldable pub fill_rows : ℕ → ℕ → DiffTable → DiffTable
  fill_rows zero curr_n dp = dp
  fill_rows (suc i) curr_n dp = fill_row i curr_n (fill_rows i curr_n dp)

  unfoldable pub fill_table : ℕ → ℕ → DiffTable → DiffTable
  fill_table prev_n curr_n dp = fill_rows prev_n curr_n (clear_row curr_n (clear_column prev_n dp))

  -- The `while` loop: `tmp`, in the order in which it is written.
  unfoldable pub backtrack : DiffTable → ℕ → ℕ → List DiffMergedEntry
  backtrack dp zero zero = []
  backtrack dp zero (suc j) =
      record { curr_idx = some j; prev_idx = none; state = DiffState.added } ∷ backtrack dp zero j
  backtrack dp (suc i) zero =
      record { curr_idx = none; prev_idx = some i; state = DiffState.removed } ∷ backtrack dp i zero
  backtrack dp (suc i) (suc j) = elim (equal i j) [
    | true ↦
        record { curr_idx = some j; prev_idx = some i; state = DiffState.unchanged }
        ∷ backtrack dp i j
    | false ↦ elim (leb (dp i (suc j)) (dp (suc i) j)) [
      | true ↦
          record { curr_idx = some j; prev_idx = none; state = DiffState.added }
          ∷ backtrack dp (suc i) j
      | false ↦
          record { curr_idx = none; prev_idx = some i; state = DiffState.removed }
          ∷ backtrack dp i (suc j)
    ]
  ]

-- The last loop.
unfoldable pub reversed : List DiffMergedEntry → List DiffMergedEntry
reversed [] = []
reversed (e ∷ es) = reversed es ++ (e ∷ [])

-- `s_diff_merged` and `s_diff_dp` after the call; `prev` and `curr` are the lines of the two texts.
unfoldable pub diff_compute :
    List DiffLine → List DiffLine → DiffTable → List DiffMergedEntry × DiffTable
diff_compute prev curr dp =
    let prev_n = min (length prev) diff_max_lines in
    let curr_n = min (length curr) diff_max_lines in
    let equal = diff_lines_equal prev curr in
    let filled = fill_table equal prev_n curr_n dp in
    (reversed (backtrack equal filled prev_n curr_n), filled)
