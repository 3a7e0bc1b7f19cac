-- ===== src/ChartSeries.antt =====
-- src/model/chart_series.h and .c: the rolling window of samples of one chart. Floating point numbers
-- are a parameter, `Doubles`. The array `samples` is a list of 2560 samples.
pub mod Append
pub mod Window
pub mod Push
pub mod Extremes
use mqtt_viewer.Base.{
  ℕ, zero, suc, ◌+◌, ◌-◌, ◌%◌, ◌^◌, Bool, true, false, not, ◌||◌, List, [], ◌∷◌, Option, none, some,
  replicate, get_or, set, ltb, leb, ◌==◌, if◌then◌else◌, Bytes,
}
use mqtt_viewer.Ring.{add32}
use mqtt_viewer.Util.{truncated}

-- What the code uses of `double`.
pub record Doubles : Type 1 where
  pub Double : Type 0
  pub zero_double : Double
  pub lt : Double → Double → Bool
  pub le : Double → Double → Bool
  pub equal : Double → Double → Bool
  pub minus : Double → Double → Double
  pub fabs : Double → Double
  pub isfinite : Double → Bool

abbrev pub chart_max_samples : ℕ
chart_max_samples = 2560

abbrev pub chart_min_sample_interval_us : ℕ
chart_min_sample_interval_us = 50000

abbrev pub chart_time_window_us : ℕ
chart_time_window_us = 120000000

pub record ChartSample (D : Type 0) : Type 0 where
  pub ts_us : ℕ
  pub value : D

pub record ChartSeries (D : Type 0) : Type 0 where
  pub active : Bool
  pub topic : Bytes
  pub dot_path : Bytes
  pub samples : List (ChartSample D)
  pub head : ℕ
  pub count : ℕ
  pub y_min : D
  pub y_max : D
  pub y_dirty : Bool
  pub last_sample_ts_us : ℕ
  pub bucket_ref : D

-- Unsigned subtraction, which wraps.
abbrev pub sub64 : ℕ → ℕ → ℕ
sub64 a b = (a + 2 ^ 64 - b) % 2 ^ 64

module _ (F : Doubles) where
  abbrev pub Series : Type 0
  Series = ChartSeries F.Double

  abbrev pub blank_sample : ChartSample F.Double
  blank_sample = record { ts_us = 0; value = F.zero_double }

  unfoldable pub chart_series_reset : Series
  chart_series_reset = record {
    active = false;
    topic = [];
    dot_path = [];
    samples = replicate chart_max_samples blank_sample;
    head = 0;
    count = 0;
    y_min = F.zero_double;
    y_max = F.zero_double;
    y_dirty = false;
    last_sample_ts_us = 0;
    bucket_ref = F.zero_double;
  }

  -- `none` is a NULL pointer.
  abbrev pub copied_name : ℕ → Option Bytes → Bytes
  copied_name cap none = []
  copied_name cap (some s) = truncated cap s

  unfoldable pub chart_series_init : Option Bytes → Option Bytes → Series
  unfolding chart_series_reset
  chart_series_init topic dot_path = record chart_series_reset {
    active = true;
    topic = copied_name 256 topic;
    dot_path = copied_name 128 dot_path;
  }

  abbrev pub newest_at : Series → ℕ
  newest_at s = (s.head + s.count - 1) % 2 ^ 32 % chart_max_samples

  abbrev pub newest : Series → ChartSample F.Double
  newest s = get_or s.samples (newest_at s) blank_sample

  abbrev pub oldest : Series → ChartSample F.Double
  oldest s = get_or s.samples s.head blank_sample

  -- `value == s->y_min || value == s->y_max`
  abbrev pub is_extreme : Series → F.Double → Bool
  is_extreme s value = F.equal value s.y_min || F.equal value s.y_max

  abbrev pub widen_min : Series → F.Double → F.Double
  widen_min s value = if F.lt value s.y_min then value else s.y_min

  abbrev pub widen_max : Series → F.Double → F.Double
  widen_max s value = if F.lt s.y_max value then value else s.y_max

  -- The branch of a sample in the open bucket.
  unfoldable pub replace_newest : Series → F.Double → Series × Bool
  replace_newest s value =
      if F.le (F.fabs (F.minus value s.bucket_ref)) (F.fabs (F.minus (newest s).value s.bucket_ref))
      then (s, false)
      else (
        record s {
          y_dirty = s.y_dirty || is_extreme s (newest s).value;
          samples = set s.samples (newest_at s) (record (newest s) { value = value });
          y_min = widen_min s value;
          y_max = widen_max s value;
        },
        true,
      )

  unfoldable pub drop_oldest : Series → Series
  drop_oldest s = record s {
    y_dirty = s.y_dirty || is_extreme s (oldest s).value;
    head = add32 s.head 1 % chart_max_samples;
    count = s.count - 1;
  }

  -- The `while` loop: a round for each sample is enough.
  unfoldable pub evict : ℕ → ℕ → Series → Series
  evict ts_us zero s = s
  evict ts_us (suc rounds) s =
      if leb (sub64 ts_us (oldest s).ts_us) chart_time_window_us
      then s
      else evict ts_us rounds (drop_oldest s)

  -- The write of the sample, with the index that was found for it.
  abbrev pub write_sample : ℕ → ℕ → F.Double → Series → Series
  write_sample at ts_us value s = record s {
    samples = set s.samples at (record { ts_us = ts_us; value = value });
    last_sample_ts_us = ts_us;
  }

  -- The branch of the full ring, which keeps the count.
  unfoldable pub turn_full : Series → Series
  turn_full s = record s {
    y_dirty = s.y_dirty || is_extreme s (oldest s).value;
    head = add32 s.head 1 % chart_max_samples;
  }

  unfoldable pub add_sample : ℕ → F.Double → Series → Series
  add_sample ts_us value s =
      if ltb s.count chart_max_samples
      then write_sample (add32 s.head s.count % chart_max_samples) ts_us value
          (record s { count = add32 s.count 1 })
      else write_sample s.head ts_us value (turn_full s)

  -- The extremes after the write.
  unfoldable pub update_extremes : F.Double → Series → Series
  update_extremes value s =
      if s.count == 1
      then record s { y_min = value; y_max = value; y_dirty = false }
      else record s { y_min = widen_min s value; y_max = widen_max s value }

  -- From the `while` loop on.
  unfoldable pub append_sample : ℕ → F.Double → Series → Series
  append_sample ts_us value s =
      update_extremes value (add_sample ts_us value (evict ts_us s.count s))

  unfoldable pub chart_series_push_sample : ℕ → F.Double → Series → Series × Bool
  chart_series_push_sample ts_us value s =
      if not s.active || not (F.isfinite value)
      then (s, false)
      else if s.count == 0
      then (append_sample ts_us value (record s { bucket_ref = value }), true)
      else if leb ts_us s.last_sample_ts_us
      then (s, false)
      else if ltb (ts_us - s.last_sample_ts_us) chart_min_sample_interval_us
      then replace_newest s value
      else (append_sample ts_us value (record s { bucket_ref = (newest s).value }), true)

  -- The loop of `chart_series_recompute_minmax`, from the sample `i` on.
  unfoldable pub scan_minmax : Series → ℕ → ℕ → F.Double → F.Double → F.Double × F.Double
  scan_minmax s i zero mn mx = (mn, mx)
  scan_minmax s i (suc rounds) mn mx =
      let v = (get_or s.samples (add32 s.head i % chart_max_samples) blank_sample).value in
      scan_minmax s (i + 1) rounds (if F.lt v mn then v else mn) (if F.lt mx v then v else mx)

  unfoldable pub chart_series_recompute_minmax : Series → Series
  chart_series_recompute_minmax s =
      let first = (oldest s).value in
      let found = scan_minmax s 1 (s.count - 1) first first in
      if s.count == 0
      then record s { y_min = F.zero_double; y_max = F.zero_double; y_dirty = false }
      else record s { y_min = found.0; y_max = found.1; y_dirty = false }

  unfoldable pub chart_series_get : Series → ℕ → Option (ChartSample F.Double)
  chart_series_get s i =
      if leb s.count i
      then none
      else some (get_or s.samples (add32 s.head i % chart_max_samples) blank_sample)
