-- ===== src/ChartPanel/Grid.antt =====
-- The grid of the charts panel, src/ui/chart_panel.c.
use mqtt_viewer.Base.{
  ℕ, zero, suc, ◌+◌, ◌-◌, ◌*◌, ◌≤◌, ◌<◌, ◌≡◌, max, refl, ap, ap₂, sym, ◌∙◌, true, false, List, [],
  ◌∷◌, ◌++◌, Option, none, some, length, get_elem?, take, take_all, drop, drop_past, ◌==◌, ==_no,
  ==_iff, if◌then◌else◌, arith, Bool-cases, inl, inr,
}
use mqtt_viewer.ChartSeries.{Doubles, Series}
use mqtt_viewer.ChartPanel.{
  chart_panel_grid, active_from, chart_panel_active_at, active_count, row_cells, grid_cells,
  chart_panel_cells,
}

-- The grid has a cell for each chart, at most four columns, and no row that could be left out.
pub chart_panel_grid_lem :
    (n : ℕ)
    → let (cols, rows) = chart_panel_grid n in
      (n ≤ cols * rows) × ((rows - 1) * cols < max n 1) × (1 ≤ cols) × (cols ≤ 4)
unfolding chart_panel_grid
chart_panel_grid_lem n = ground arith

abbrev pub somes : List (Option ℕ) → List ℕ
somes [] = []
somes (none ∷ os) = somes os
somes (some i ∷ os) = i ∷ somes os

somes-append : (xs ys : List (Option ℕ)) → somes (xs ++ ys) ≡ somes xs ++ somes ys
somes-append [] ys = refl
somes-append (none ∷ xs) ys = somes-append xs ys
somes-append (some i ∷ xs) ys = ap (◌∷◌ i) (somes-append xs ys)

take_nothing : (k : ℕ) → take {A = ℕ} k [] ≡ []
take_nothing zero = refl
take_nothing (suc k) = refl

drop_nothing : (k : ℕ) → drop {A = ℕ} k [] ≡ []
drop_nothing zero = refl
drop_nothing (suc k) = refl

suc_add : (n m : ℕ) → suc (n + m) ≡ suc n + m
suc_add n m = omega arith

zero_add : (n : ℕ) → n ≡ 0 + n
zero_add n = omega arith

take-append_drop : (n m : ℕ) (l : List ℕ) → take n l ++ take m (drop n l) ≡ take (n + m) l
take-append_drop zero m l = ap (λ k. take k l) (zero_add m)
take-append_drop (suc n) m [] = take_nothing m ∙ sym (take_nothing (suc n + m))
take-append_drop (suc n) m (x ∷ l) =
    ap (◌∷◌ x) (take-append_drop n m l) ∙ ap (λ k. take k (x ∷ l)) (suc_add n m)

drop-drop : (n m : ℕ) (l : List ℕ) → drop n (drop m l) ≡ drop (m + n) l
drop-drop n zero l = ap (λ k. drop k l) (zero_add n)
drop-drop n (suc m) [] = drop_nothing n ∙ sym (drop_nothing (suc m + n))
drop-drop n (suc m) (x ∷ l) = drop-drop n m l ∙ ap (λ k. drop k (x ∷ l)) (suc_add m n)

-- `n` cells that read a list from its `k`-th element on.
abbrev elements : List ℕ → ℕ → ℕ → List (Option ℕ)
elements l k zero = []
elements l k (suc n) = get_elem? l k ∷ elements l (suc k) n

elements_past : (k n : ℕ) → somes (elements [] k n) ≡ []
elements_past k zero = refl
elements_past k (suc n) = elements_past (suc k) n

elements_shift : (x : ℕ) (l : List ℕ) (k n : ℕ) → elements (x ∷ l) (suc k) n ≡ elements l k n
elements_shift x l k zero = refl
elements_shift x l k (suc n) = ap (◌∷◌ (get_elem? l k)) (elements_shift x l (suc k) n)

somes-elements : (l : List ℕ) (k n : ℕ) → somes (elements l k n) ≡ take n (drop k l)
somes-elements [] k n = elements_past k n ∙ sym (ap (take n) (drop_nothing k) ∙ take_nothing n)
somes-elements (x ∷ l) (suc k) n = ap somes (elements_shift x l k n) ∙ somes-elements l k n
somes-elements (x ∷ l) zero zero = refl
somes-elements (x ∷ l) zero (suc n) =
    ap (◌∷◌ x) (ap somes (elements_shift x l 0 n) ∙ somes-elements l 0 n)

module _ (F : Doubles) where
  -- The numbers of the active series, in order, from `s` on.
  abbrev pub active_indices : ℕ → List (Series F) → List ℕ
  active_indices s [] = []
  active_indices s (x ∷ xs) =
      if x.active then s ∷ active_indices (suc s) xs else active_indices (suc s) xs

  length-active_indices :
      (s : ℕ) (xs : List (Series F)) → length (active_indices s xs) ≡ active_count F xs
  unfolding active_count
  length-active_indices s [] = refl
  length-active_indices s (x ∷ xs) = elim (Bool-cases x.active) [
    | inl e ↦ simp e (ap suc (length-active_indices (suc s) xs))
    | inr e ↦ simp e (length-active_indices (suc s) xs)
  ]

  active_from_lem :
      (i seen s : ℕ) (xs : List (Series F))
      → active_from F (seen + i) seen s xs ≡ get_elem? (active_indices s xs) i
  unfolding active_from
  active_from_lem i seen s [] = refl
  active_from_lem zero seen s (x ∷ xs) = elim (Bool-cases x.active) [
    | inr e ↦ rw (active_from, e) (active_from_lem zero seen (suc s) xs)
    | inl e ↦
        let d : (seen == seen + 0) ≡ true = (==_iff seen (seen + 0)).1 (omega arith) in
        rw (active_from, e, d) refl
  ]
  active_from_lem (suc i) seen s (x ∷ xs) = elim (Bool-cases x.active) [
    | inr e ↦ rw (active_from, e) (active_from_lem (suc i) seen (suc s) xs)
    | inl e ↦
        let d : (seen == seen + suc i) ≡ false = ==_no seen (seen + suc i) (omega arith) in
        let q : seen + suc i ≡ suc seen + i = omega arith in
        rw (active_from, e, d)
          (ap (λ k. active_from F k (suc seen) (suc s) xs) q
            ∙ active_from_lem i (suc seen) (suc s) xs)
  ]

  chart_panel_active_at_lem :
      (xs : List (Series F)) (i : ℕ)
      → chart_panel_active_at F xs i ≡ get_elem? (active_indices 0 xs) i
  unfolding chart_panel_active_at
  chart_panel_active_at_lem xs i =
      ap (λ k. active_from F k 0 0 xs) (zero_add i) ∙ active_from_lem i 0 0 xs

  row_cells-elements :
      (xs : List (Series F)) (cols r c rounds : ℕ)
      → row_cells F xs cols r c rounds ≡ elements (active_indices 0 xs) (r * cols + c) rounds
  unfolding row_cells
  row_cells-elements xs cols r c zero = refl
  row_cells-elements xs cols r c (suc rounds) =
      let e : r * cols + suc c ≡ suc (r * cols + c) = omega arith in
      ap₂ ◌∷◌ (chart_panel_active_at_lem xs (r * cols + c)) (
        row_cells-elements xs cols r (suc c) rounds
        ∙ ap (λ k. elements (active_indices 0 xs) k rounds) e)

  somes-grid_cells :
      (xs : List (Series F)) (cols r rounds : ℕ)
      → somes (grid_cells F xs cols r rounds)
        ≡ take (rounds * cols) (drop (r * cols) (active_indices 0 xs))
  unfolding grid_cells
  somes-grid_cells xs cols r zero =
      let z : 0 * cols ≡ 0 = omega arith in
      sym (ap (λ k. take k (drop (r * cols) (active_indices 0 xs))) z)
  somes-grid_cells xs cols r (suc rounds) =
      let l = active_indices 0 xs in
      let a : r * cols + 0 ≡ r * cols = omega arith in
      let b : suc r * cols ≡ r * cols + cols = omega arith in
      let c : suc rounds * cols ≡ cols + rounds * cols = omega arith in
      somes-append (row_cells F xs cols r 0 cols) _
      ∙ ap₂ ◌++◌
          (ap somes (row_cells-elements xs cols r 0 cols)
            ∙ somes-elements l (r * cols + 0) cols
            ∙ ap (λ k. take cols (drop k l)) a)
          (somes-grid_cells xs cols (suc r) rounds
            ∙ ap (λ k. take (rounds * cols) (drop k l)) b
            ∙ ap (take (rounds * cols)) (sym (drop-drop cols (r * cols) l)))
      ∙ take-append_drop cols (rounds * cols) (drop (r * cols) l)
      ∙ ap (λ k. take k (drop (r * cols) l)) (sym c)

  -- The cells that are laid out show each active series once, in order, and no other.
  pub somes-chart_panel_cells :
      (xs : List (Series F)) → somes (chart_panel_cells F xs) ≡ active_indices 0 xs
  unfolding chart_panel_cells
  somes-chart_panel_cells xs =
      let n = active_count F xs in
      let l = active_indices 0 xs in
      let e = length-active_indices 0 xs in
      let g = chart_panel_grid_lem n in
      let cols = (chart_panel_grid n).0 in
      let rows = (chart_panel_grid n).1 in
      elim (Bool-cases (n == 0)) [
        | inl q ↦ simp q (sym (drop_past l 0 (omega (arith, e, (==_iff n 0).0 q))))
        | inr q ↦
            let z : 0 * cols ≡ 0 = omega arith in
            simp q (
              somes-grid_cells xs cols 0 rows
              ∙ ap (λ k. take (rows * cols) (drop k l)) z
              ∙ take_all (rows * cols) l (omega (arith, e, g.0)))
      ]
