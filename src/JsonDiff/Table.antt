-- ===== src/JsonDiff/Table.antt =====
-- The cells of src/ui/inspector_widget.c's `s_diff_dp`, whatever stood in the table before.
use mqtt_viewer.Base.{
  ℕ, zero, suc, ◌+◌, ◌≤◌, ◌<◌, ◌≡◌, refl, Bool, ◌==◌, ltb, if◌then◌else◌, arith, inl, inr, ◌∙◌,
}
use native.Mathlib.Decide.{dec_le}
use mqtt_viewer.JsonDiff.{
  DiffTable, write, clear_column, clear_row, fill_cell, fill_row, fill_rows, fill_table,
}
use mqtt_viewer.JsonDiff.Common.{common, common-zero, common-cases}

write_self : (dp : DiffTable) (i j v : ℕ) → write dp i j v i j ≡ v
unfolding write
write_self dp i j v = ground arith

write_elsewhere :
    (dp : DiffTable) (i j v i' j' : ℕ) → (i ≡ i' → j ≡ j' → ⊥) → write dp i j v i' j' ≡ dp i' j'
unfolding write
write_elsewhere dp i j v i' j' h = ground arith

clear_column_lem : (n i : ℕ) (dp : DiffTable) → i ≤ n → clear_column n dp i 0 ≡ 0
unfolding clear_column write
clear_column_lem zero i dp h = ground arith
clear_column_lem (suc n) i dp h = ground (arith, clear_column_lem n i dp)

clear_row_lem : (n j : ℕ) (dp : DiffTable) → j ≤ n → clear_row n dp 0 j ≡ 0
unfolding clear_row write
clear_row_lem zero j dp h = ground arith
clear_row_lem (suc n) j dp h = ground (arith, clear_row_lem n j dp)

clear_row-column : (n i : ℕ) (dp : DiffTable) → clear_row n dp i 0 ≡ (if i == 0 then 0 else dp i 0)
unfolding clear_row write
clear_row-column zero i dp = ground arith
clear_row-column (suc n) i dp = ground (arith, clear_row-column n i dp)

module _ (equal : ℕ → ℕ → Bool) (prev_n curr_n : ℕ) where
  -- The first column, and the rows up to row `i`.
  record IsFilled (i : ℕ) (dp : DiffTable) : Type 0 where
    column : (r : ℕ) → r ≤ prev_n → dp r 0 ≡ 0
    rows : (r c : ℕ) → r ≤ i → c ≤ curr_n → dp r c ≡ common equal r c

  -- Moreover row `suc i` up to column `j`.
  record IsBegun (i j : ℕ) (dp : DiffTable) : Type 0 where
    above : IsFilled i dp
    row : (c : ℕ) → c ≤ j → dp (suc i) c ≡ common equal (suc i) c

  abbrev value : ℕ → ℕ → DiffTable → ℕ
  value i j dp =
      if equal i j
      then dp i j + 1
      else if ltb (dp (suc i) j) (dp i (suc j))
      then dp i (suc j)
      else dp (suc i) j

  cell_value :
      (i j : ℕ) (dp : DiffTable)
      → j < curr_n
      → IsBegun i j dp
      → value i j dp ≡ common equal (suc i) (suc j)
  cell_value i j dp h v = elim (common-cases equal i j) [
    | inl e ↦ simp (e.0) (omega (arith, e.1, v.above.rows i j))
    | inr e ↦ simp (e.0) (ground (arith, e.1, v.above.rows i (suc j), v.row j))
  ]

  fill_cell-IsBegun :
      (i j : ℕ) (dp : DiffTable)
      → j < curr_n
      → IsBegun i j dp
      → IsBegun i (suc j) (fill_cell equal i j dp)
  unfolding fill_cell
  fill_cell-IsBegun i j dp h v = record {
    above = record {
      column = λ r q. kept (λ e d. absurd (omega arith)) ∙ v.above.column r q;
      rows = λ r c q p. kept (λ e d. absurd (omega arith)) ∙ v.above.rows r c q p;
    };
    row = λ c q. elim (dec_le c j) [
      | yes e ↦ kept (λ _ d. absurd (omega arith)) ∙ v.row c e
      | no n ↦ let e : c ≡ suc j = omega arith in rw (e, write_self) (cell_value i j dp h v)
    ];
  }
    where
      kept :
          {r c : ℕ}
          → (suc i ≡ r → suc j ≡ c → ⊥)
          → write dp (suc i) (suc j) (value i j dp) r c ≡ dp r c
      kept {r} {c} = write_elsewhere dp (suc i) (suc j) (value i j dp) r c

  fill_row-IsBegun :
      (i j : ℕ) (dp : DiffTable) → j ≤ curr_n → IsBegun i 0 dp → IsBegun i j (fill_row equal i j dp)
  unfolding fill_row
  fill_row-IsBegun i zero dp h v = v
  fill_row-IsBegun i (suc j) dp h v =
      fill_cell-IsBegun i j _ (omega arith) (fill_row-IsBegun i j dp (omega arith) v)

  IsBegun-start : (i : ℕ) (dp : DiffTable) → i < prev_n → IsFilled i dp → IsBegun i 0 dp
  IsBegun-start i dp h v = record {
    above = v;
    row = λ c q. let e : c ≡ 0 = omega arith in rw (e, common-zero) (v.column (suc i) h);
  }

  IsBegun-end : (i : ℕ) (dp : DiffTable) → IsBegun i curr_n dp → IsFilled (suc i) dp
  IsBegun-end i dp v = record {
    column = v.above.column;
    rows = λ r c q p. elim (dec_le r i) [
      | yes e ↦ v.above.rows r c e p
      | no n ↦ let e : r ≡ suc i = omega arith in rw e (v.row c p)
    ];
  }

  fill_rows-IsFilled :
      (i : ℕ) (dp : DiffTable)
      → i ≤ prev_n
      → IsFilled 0 dp
      → IsFilled i (fill_rows equal i curr_n dp)
  unfolding fill_rows
  fill_rows-IsFilled zero dp h v = v
  fill_rows-IsFilled (suc i) dp h v = IsBegun-end i _ (
      fill_row-IsBegun i curr_n _ (omega arith)
        (IsBegun-start i _ h (fill_rows-IsFilled i dp (omega arith) v)))

  -- Once the loops are done, each cell `s_diff_dp[i][j]` is the length of the longest common
  -- subsequence of the first `i` and the first `j` lines, whatever the table held before.
  pub fill_table-eq-common :
      (dp : DiffTable) (i j : ℕ)
      → i ≤ prev_n
      → j ≤ curr_n
      → fill_table equal prev_n curr_n dp i j ≡ common equal i j
  unfolding fill_table common
  fill_table-eq-common dp i j hi hj =
      (fill_rows-IsFilled prev_n (clear_row curr_n (clear_column prev_n dp)) (omega arith) record {
        column = λ r q.
            clear_row-column curr_n r (clear_column prev_n dp)
            ∙ ground (arith, clear_column_lem prev_n r dp);
        rows = λ r c q p. let e : r ≡ 0 = omega arith in rw (e, clear_row_lem curr_n c _ p) refl;
      }).rows
        i j hi hj
