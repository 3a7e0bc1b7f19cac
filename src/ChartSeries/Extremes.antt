-- ===== src/ChartSeries/Extremes.antt =====
-- `chart_series_recompute_minmax` of src/model/chart_series.c against the samples of the series.
use mathlib.Core.Path.{subst, subst⁻¹}
use mqtt_viewer.Base.{
  ℕ, zero, suc, ◌+◌, ◌-◌, ◌%◌, ◌≤◌, ◌<◌, ◌≡◌, ◌⊎◌, inl, inr, refl, ap, sym, ◌∙◌, Bool, true, false,
  List, [], ◌∷◌, All, get_or, ltb, ◌==◌, if◌then◌else◌, arith, Bool-cases, ==_no,
}
use mqtt_viewer.Ring.{add32, slots}
use mqtt_viewer.ChartSeries.{
  Doubles, ChartSample, Series, blank_sample, chart_max_samples, oldest, scan_minmax,
  chart_series_recompute_minmax,
}
use mqtt_viewer.ChartSeries.Window.{contents, IsValid}

-- IEEE 754: the comparisons put the finite numbers, which are finitely many, in one order; `rank x`
-- counts those below `x`.
pub record IsRanked (F : Doubles) (rank : F.Double → ℕ) : Type 0 where
  pub lt_rank :
      (x y : F.Double)
      → F.isfinite x ≡ true
      → F.isfinite y ≡ true
      → F.lt x y ≡ ltb (rank x) (rank y)

module _ (F : Doubles) (rank : F.Double → ℕ) (ranked : IsRanked F rank) where
  abbrev pub AreFinite : List (ChartSample F.Double) → Type 0
  AreFinite xs = All (λ (x : ChartSample F.Double). F.isfinite x.value ≡ true) xs

  abbrev pub IsBelow : F.Double → List (ChartSample F.Double) → Type 0
  IsBelow v xs = All (λ (x : ChartSample F.Double). rank v ≤ rank x.value) xs

  abbrev pub IsAbove : F.Double → List (ChartSample F.Double) → Type 0
  IsAbove v xs = All (λ (x : ChartSample F.Double). rank x.value ≤ rank v) xs

  abbrev pub IsOneOf : F.Double → List (ChartSample F.Double) → Type 0
  IsOneOf v [] = ⊥
  IsOneOf v (x ∷ xs) = (v ≡ x.value) ⊎ IsOneOf v xs

  record IsScanned (mn mx : F.Double) (xs : List (ChartSample F.Double)) (r : F.Double × F.Double)
      : Type 0 where
    least : rank r.0 ≤ rank mn
    greatest : rank mx ≤ rank r.1
    below : IsBelow r.0 xs
    above : IsAbove r.1 xs
    min_found : (r.0 ≡ mn) ⊎ IsOneOf r.0 xs
    max_found : (r.1 ≡ mx) ⊎ IsOneOf r.1 xs

  -- One round's choice.
  record IsChosen (r : F.Double) (v old : F.Double) : Type 0 where
    finite : F.isfinite r ≡ true
    found : (r ≡ old) ⊎ (r ≡ v)

  smaller-IsChosen :
      (v old : F.Double)
      → F.isfinite v ≡ true
      → F.isfinite old ≡ true
      → let r = if F.lt v old then v else old in
        IsChosen r v old × (rank r ≤ rank v) × (rank r ≤ rank old)
  smaller-IsChosen v old f g =
      let q = ranked.lt_rank v old f g in
      elim (Bool-cases (F.lt v old)) [
        | inl e ↦
            let d : ltb (rank v) (rank old) ≡ true = sym q ∙ e in
            simp e (record { finite = f; found = inr refl }, omega arith, ground arith)
        | inr e ↦
            let d : ltb (rank v) (rank old) ≡ false = sym q ∙ e in
            simp e (record { finite = g; found = inl refl }, ground arith, omega arith)
      ]

  larger-IsChosen :
      (v old : F.Double)
      → F.isfinite v ≡ true
      → F.isfinite old ≡ true
      → let r = if F.lt old v then v else old in
        IsChosen r v old × (rank v ≤ rank r) × (rank old ≤ rank r)
  larger-IsChosen v old f g =
      let q = ranked.lt_rank old v g f in
      elim (Bool-cases (F.lt old v)) [
        | inl e ↦
            let d : ltb (rank old) (rank v) ≡ true = sym q ∙ e in
            simp e (record { finite = f; found = inr refl }, omega arith, ground arith)
        | inr e ↦
            let d : ltb (rank old) (rank v) ≡ false = sym q ∙ e in
            simp e (record { finite = g; found = inl refl }, ground arith, omega arith)
      ]

  found_by :
      {r a old : F.Double} (x : ChartSample F.Double) (xs : List (ChartSample F.Double))
      → (r ≡ a) ⊎ IsOneOf r xs
      → (a ≡ old) ⊎ (a ≡ x.value)
      → (r ≡ old) ⊎ IsOneOf r (x ∷ xs)
  found_by x xs (inr p) q = inr (inr p)
  found_by x xs (inl p) (inl q) = inl (p ∙ q)
  found_by x xs (inl p) (inr q) = inr (inl (p ∙ q))

  scan_minmax-IsScanned :
      (s : Series F) (i n : ℕ) (mn mx : F.Double)
      → s.head < chart_max_samples
      → i + n ≤ chart_max_samples
      → F.isfinite mn ≡ true
      → F.isfinite mx ≡ true
      → AreFinite (slots (blank_sample F) s.samples chart_max_samples s.head i n)
      → IsScanned mn mx
          (slots (blank_sample F) s.samples chart_max_samples s.head i n)
          (scan_minmax F s i n mn mx)
  unfolding scan_minmax
  scan_minmax-IsScanned s i zero mn mx h k f g all = record {
    least = omega arith;
    greatest = omega arith;
    below = tt;
    above = tt;
    min_found = inl refl;
    max_found = inl refl;
  }
  scan_minmax-IsScanned s i (suc n) mn mx h k f g all =
      let at : add32 s.head i ≡ s.head + i = omega arith in
      let x = get_or s.samples ((s.head + i) % chart_max_samples) (blank_sample F) in
      let xs = slots (blank_sample F) s.samples chart_max_samples s.head (i + 1) n in
      let (a, av, ao) = smaller-IsChosen x.value mn all.0 f in
      let (b, bv, bo) = larger-IsChosen x.value mx all.0 g in
      let again = scan_minmax-IsScanned s (i + 1) n _ _ h (omega arith) a.finite b.finite all.1 in
      rw at (record {
        least = omega (arith, again.least);
        greatest = omega (arith, again.greatest);
        below = (omega (arith, again.least), again.below);
        above = (omega (arith, again.greatest), again.above);
        min_found = found_by x xs again.min_found a.found;
        max_found = found_by x xs again.max_found b.found;
      })

  contents-split :
      (s : Series F) (n : ℕ)
      → s.count ≡ suc n
      → s.head < chart_max_samples
      → contents F s ≡ oldest F s ∷ slots (blank_sample F) s.samples chart_max_samples s.head 1 n
  contents-split s n e h =
      let z : (s.head + 0) % chart_max_samples ≡ s.head = omega arith in
      ap (slots (blank_sample F) s.samples chart_max_samples s.head 0) e ∙ rw z refl

  -- On a valid series with samples, all of them finite, where the comparisons of finite numbers agree
  -- with some ranking: `y_min` and `y_max` are afterwards the smallest and the greatest of the values
  -- held, each one of them, and the series is no longer dirty.
  pub chart_series_recompute_minmax-exact :
      (s : Series F)
      → IsValid F s
      → 0 < s.count
      → AreFinite (contents F s)
      → let u = chart_series_recompute_minmax F s in
        IsBelow u.y_min (contents F s)
        × IsAbove u.y_max (contents F s)
        × IsOneOf u.y_min (contents F s)
        × IsOneOf u.y_max (contents F s)
        × (u.y_dirty ≡ false)
  unfolding chart_series_recompute_minmax
  chart_series_recompute_minmax-exact s v h all =
      let n = s.count - 1 in
      let first = (oldest F s).value in
      let split = contents-split s n (omega arith) v.head_in in
      let finite = subst AreFinite split all in
      let e : (s.count == 0) ≡ false = ==_no s.count 0 (omega arith) in
      let found =
        scan_minmax-IsScanned s 1 n first first v.head_in (omega (arith, v.count_in)) finite.0
          finite.0 finite.1 in
      let r = scan_minmax F s 1 n first first in
      simp e (
        subst⁻¹
          (λ xs.
            IsBelow r.0 xs
            × IsAbove r.1 xs
            × IsOneOf r.0 xs
            × IsOneOf r.1 xs
            × (Path Bool false false))
          split
          (
            (found.least, found.below),
            (found.greatest, found.above),
            found.min_found,
            found.max_found,
            refl,
          ))
