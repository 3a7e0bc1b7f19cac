-- ===== src/Tests/Charts.antt =====
-- src/model/chart_series.c with whole numbers in place of floating point numbers.
use mqtt_viewer.Base.{
  ℕ, ◌-◌, ◌≤◌, ◌<◌, true, false, [], ◌∷◌, ◌++◌, some, replicate, ◌≡◌, refl, ltb, leb, ◌==◌, codes,
  arith,
}
use mqtt_viewer.ChartSeries.{
  chart_max_samples, Doubles, Series, blank_sample, chart_series_init, chart_series_push_sample,
  chart_series_recompute_minmax,
}
use mqtt_viewer.ChartSeries.Window.{IsValid, contents}
use mqtt_viewer.ChartSeries.Push.{
  Outcome, pushed, pushed-bound, chart_series_push_sample-IsValid, chart_series_init-IsValid,
}
use mqtt_viewer.ChartSeries.Extremes.{
  IsRanked, IsBelow, IsAbove, IsOneOf, chart_series_recompute_minmax-exact,
}

abbrev pub whole : Doubles
whole = record {
  Double = ℕ;
  zero_double = 0;
  lt = ltb;
  le = leb;
  equal = ◌==◌;
  minus = ◌-◌;
  fabs = λ x. x;
  isfinite = λ x. true;
}

abbrev pub started : Series whole
started = chart_series_init whole (some (codes "a/b")) (some (codes "t"))

pub started-IsValid : IsValid whole started
started-IsValid = chart_series_init-IsValid whole (some (codes "a/b")) (some (codes "t"))

push_example :
    IsValid whole (chart_series_push_sample whole 60000 7 started).0
    × Outcome whole 60000 7 started (chart_series_push_sample whole 60000 7 started)
push_example = chart_series_push_sample-IsValid whole 60000 7 started (omega arith) started-IsValid

bound_example :
    ((pushed whole ((60000, 7) ∷ (200000, 8) ∷ []) started).count ≤ 2401)
    × ((pushed whole ((60000, 7) ∷ (200000, 8) ∷ []) started).count < chart_max_samples)
bound_example =
    pushed-bound whole (some (codes "a/b")) (some (codes "t")) ((60000, 7) ∷ (200000, 8) ∷ [])
      (omega arith, (omega arith, tt))

-- One sample and a window that turned round.
abbrev turned : Series whole
turned = record {
  active = true;
  topic = [];
  dot_path = [];
  samples =
      record { ts_us = 100000; value = 3 }
      ∷ (replicate 2558 (blank_sample whole) ++ (record { ts_us = 50000; value = 5 } ∷ []));
  head = 2559;
  count = 2;
  y_min = 1;
  y_max = 9;
  y_dirty = true;
  last_sample_ts_us = 100000;
  bucket_ref = 5;
}

turned-IsValid : IsValid whole turned
turned-IsValid = record {
  storage = refl;
  head_in = omega arith;
  count_in = omega arith;
  spaced = ((omega arith, tt), (tt, tt));
  behind = (omega arith, (omega arith, tt));
  near = (omega arith, (omega arith, tt));
  clock = omega arith;
}

whole-IsRanked : IsRanked whole (λ x. x)
whole-IsRanked = record { lt_rank = λ x y f g. refl }

extremes_example :
    let u = chart_series_recompute_minmax whole turned in
    IsBelow whole (λ x. x) whole-IsRanked u.y_min (contents whole turned)
    × IsAbove whole (λ x. x) whole-IsRanked u.y_max (contents whole turned)
    × IsOneOf whole (λ x. x) whole-IsRanked u.y_min (contents whole turned)
    × IsOneOf whole (λ x. x) whole-IsRanked u.y_max (contents whole turned)
    × (u.y_dirty ≡ false)
extremes_example =
    chart_series_recompute_minmax-exact whole (λ x. x) whole-IsRanked turned turned-IsValid
      (omega arith) (refl, (refl, tt))
