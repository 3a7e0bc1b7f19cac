-- ===== src/ChartSeries/Append.antt =====
-- The last steps of `chart_series_push_sample` of src/model/chart_series.c: what leaves the window, and the
-- sample that is added.
use native.Mathlib.Nat.{mod-lt}
use mathlib.Core.Path.{subst, subst⁻¹}
use mathlib.Core.List.{map-append}
use mqtt_viewer.Base.{
  ℕ, zero, suc, ◌+◌, ◌-◌, ◌%◌, ◌^◌, ◌≤◌, ◌<◌, ◌≡◌, inl, inr, refl, ap, sym, ◌∙◌, true, List, [],
  ◌∷◌, ◌++◌, All, All-append, All-weaker, map, length, length-set, leb, ltb, ◌==◌, arith,
  Bool-cases,
}
use mqtt_viewer.Ring.{add32, slots, length-slots, slots_grow, slots_shift}
use mqtt_viewer.ChartSeries.{
  Doubles, ChartSample, Series, blank_sample, chart_max_samples, chart_min_sample_interval_us,
  chart_time_window_us, sub64, oldest, drop_oldest, evict, add_sample, update_extremes,
  append_sample,
}
use mqtt_viewer.ChartSeries.Window.{
  Spaced, Spaced-snoc, recent, few_times, recent-Spaced, All-recent, recent_near, contents, times,
  IsValid, length-times, recent_samples, map-recent_samples,
}

module _ (F : Doubles) where
  abbrev pub ts_of : ChartSample F.Double → ℕ
  ts_of x = x.ts_us

  -- The samples before and after the oldest goes.
  contents-drop_oldest :
      (s : Series F) (n : ℕ)
      → s.count ≡ suc n
      → s.head < chart_max_samples
      → contents F s ≡ oldest F s ∷ contents F (drop_oldest F s)
  unfolding drop_oldest
  contents-drop_oldest s n e h =
      let a : (s.head + 0) % chart_max_samples ≡ s.head = omega arith in
      let b : add32 s.head 1 % chart_max_samples ≡ (s.head + 1) % chart_max_samples = omega arith in
      let c : s.count - 1 ≡ n = omega arith in
      ap (λ (k : ℕ). slots (blank_sample F) s.samples chart_max_samples s.head 0 k) e
      ∙ rw (a, b, c)
          (ap (λ (l : List (ChartSample F.Double)). oldest F s ∷ l)
            (sym (slots_shift (blank_sample F) s.samples chart_max_samples s.head 0 n)))

  drop_oldest-samples : (s : Series F) → (drop_oldest F s).samples ≡ s.samples
  unfolding drop_oldest
  drop_oldest-samples s = refl

  drop_oldest-count : (s : Series F) → (drop_oldest F s).count ≡ s.count - 1
  unfolding drop_oldest
  drop_oldest-count s = refl

  drop_oldest-last : (s : Series F) → (drop_oldest F s).last_sample_ts_us ≡ s.last_sample_ts_us
  unfolding drop_oldest
  drop_oldest-last s = refl

  drop_oldest-ref : (s : Series F) → (drop_oldest F s).bucket_ref ≡ s.bucket_ref
  unfolding drop_oldest
  drop_oldest-ref s = refl

  drop_oldest-head : (s : Series F) → (drop_oldest F s).head < chart_max_samples
  unfolding drop_oldest
  drop_oldest-head s = mod-lt (add32 s.head 1) {m = chart_max_samples} (omega arith)

  record IsEvicted (now : ℕ) (s u : Series F) : Type 0 where
    left : contents F u ≡ recent_samples F now (contents F s)
    same_samples : u.samples ≡ s.samples
    head_in : u.head < chart_max_samples
    count_in : u.count ≤ s.count
    same_last : u.last_sample_ts_us ≡ s.last_sample_ts_us
    same_ref : u.bucket_ref ≡ s.bucket_ref

  in_window :
      (now t : ℕ)
      → now < 2 ^ 64
      → t ≤ now
      → leb (sub64 now t) chart_time_window_us ≡ leb now (t + chart_time_window_us)
  in_window now t h k = ground arith

  -- The loop leaves what lies in the window.
  evict-IsEvicted :
      (now n : ℕ) (s : Series F)
      → s.count ≡ n
      → s.head < chart_max_samples
      → now < 2 ^ 64
      → All (λ t. t ≤ now) (times F s)
      → IsEvicted now s (evict F now n s)
  unfolding evict
  evict-IsEvicted now zero s e h w b = record {
    left =
        no_samples (contents F s)
          (length-slots (blank_sample F) chart_max_samples s.head s.samples 0 s.count ∙ e);
    same_samples = refl;
    head_in = h;
    count_in = omega arith;
    same_last = refl;
    same_ref = refl;
  }
    where
      no_samples : (xs : List (ChartSample F.Double)) → length xs ≡ 0 → xs ≡ recent_samples F now xs
      no_samples [] q = refl
      no_samples (x ∷ xs) q = absurd (omega arith)
  evict-IsEvicted now (suc n) s e h w b =
      let split = contents-drop_oldest s n e h in
      let bound = subst (All (λ t. t ≤ now)) (ap (map ts_of) split) b in
      let test = in_window now (oldest F s).ts_us w bound.0 in
      elim (Bool-cases (leb now ((oldest F s).ts_us + chart_time_window_us))) [
        | inl q ↦ simp (test ∙ q) (record {
          left = split ∙ sym (ap (recent_samples F now) split ∙ simp q refl);
          same_samples = refl;
          head_in = h;
          count_in = omega arith;
          same_last = refl;
          same_ref = refl;
        })
        | inr q ↦
            let u = evict F now n (drop_oldest F s) in
            let again =
              evict-IsEvicted now n (drop_oldest F s) (omega (arith, drop_oldest-count s))
                (drop_oldest-head s) w bound.1 in
            simp (test ∙ q) (record {
              left = again.left ∙ sym (ap (recent_samples F now) split ∙ simp q refl);
              same_samples = again.same_samples ∙ drop_oldest-samples s;
              head_in = again.head_in;
              count_in = omega (arith, again.count_in, drop_oldest-count s);
              same_last = again.same_last ∙ drop_oldest-last s;
              same_ref = again.same_ref ∙ drop_oldest-ref s;
            })
      ]

  -- What the two last steps make of the samples `xs`.
  pub record IsAppended (now : ℕ) (value : F.Double) (xs : List (ChartSample F.Double))
      (ref : F.Double) (s : Series F) : Type 0 where
    pub all : contents F s ≡ xs ++ (record { ts_us = now; value = value } ∷ [])
    pub storage : length s.samples ≡ chart_max_samples
    pub head_in : s.head < chart_max_samples
    pub count_in : s.count ≤ chart_max_samples
    pub last : s.last_sample_ts_us ≡ now
    pub same_ref : s.bucket_ref ≡ ref

  add_sample-IsAppended :
      (now : ℕ) (value : F.Double) (u : Series F)
      → length u.samples ≡ chart_max_samples
      → u.head < chart_max_samples
      → u.count < chart_max_samples
      → IsAppended now value (contents F u) u.bucket_ref (add_sample F now value u)
  unfolding add_sample
  add_sample-IsAppended now value u storage head_in room =
      let e : ltb u.count chart_max_samples ≡ true = ground arith in
      let a : add32 u.head u.count ≡ u.head + u.count = omega arith in
      let c : add32 u.count 1 ≡ suc u.count = omega arith in
      simp (e, a, c)
        (record {
          all =
              slots_grow (blank_sample F) u.samples chart_max_samples u.head u.count _ (omega arith)
                room;
          storage = length-set u.samples _ _ ∙ storage;
          head_in = head_in;
          count_in = room;
          last = refl;
          same_ref = refl;
        })

  update_extremes-IsAppended :
      (now : ℕ) (value : F.Double) (xs : List (ChartSample F.Double)) (ref : F.Double)
      (s : Series F)
      → IsAppended now value xs ref s
      → IsAppended now value xs ref (update_extremes F value s)
  unfolding update_extremes
  update_extremes-IsAppended now value xs ref s v = elim (Bool-cases (s.count == 1)) [
    | inl e ↦ simp e (record {
      all = v.all;
      storage = v.storage;
      head_in = v.head_in;
      count_in = v.count_in;
      last = v.last;
      same_ref = v.same_ref;
    })
    | inr e ↦ simp e (record {
      all = v.all;
      storage = v.storage;
      head_in = v.head_in;
      count_in = v.count_in;
      last = v.last;
      same_ref = v.same_ref;
    })
  ]

  -- A sample at least an interval behind the last one.
  pub append_sample-IsAppended :
      (now : ℕ) (value : F.Double) (s : Series F)
      → length s.samples ≡ chart_max_samples
      → s.head < chart_max_samples
      → now < 2 ^ 64
      → Spaced (times F s)
      → All (λ t. t + chart_min_sample_interval_us ≤ now) (times F s)
      → IsAppended now value
          (recent_samples F now (contents F s))
          s.bucket_ref
          (append_sample F now value s)
  unfolding append_sample
  append_sample-IsAppended now value s storage head_in w spaced apart =
      let u = evict F now s.count s in
      let v =
        evict-IsEvicted now s.count s refl head_in w
          (All-weaker (times F s) (λ t h. omega arith) apart) in
      let few =
        few_times (recent now (times F s)) now (recent-Spaced now (times F s) spaced)
          (All-recent (λ t. t ≤ now) now (times F s)
            (All-weaker (times F s) (λ t h. omega arith) apart))
          (recent_near now (times F s) spaced) in
      let short = ap length (ap (map ts_of) v.left ∙ map-recent_samples F now (contents F s)) in
      let done = update_extremes-IsAppended now value (contents F u) u.bucket_ref _ (
        add_sample-IsAppended now value u (ap length v.same_samples ∙ storage) v.head_in
          (omega (arith, few, length-times F u, short))) in
      record {
        all = done.all ∙ ap (λ xs. xs ++ (record { ts_us = now; value = value } ∷ [])) v.left;
        storage = done.storage;
        head_in = done.head_in;
        count_in = done.count_in;
        last = done.last;
        same_ref = done.same_ref ∙ v.same_ref;
      }

  times-IsAppended :
      (now : ℕ) (value ref : F.Double) (s u : Series F)
      → IsAppended now value (recent_samples F now (contents F s)) ref u
      → times F u ≡ recent now (times F s) ++ (now ∷ [])
  times-IsAppended now value ref s u v =
      ap (map ts_of) v.all
      ∙ map-append ts_of (recent_samples F now (contents F s)) _
      ∙ ap (λ ts. ts ++ (now ∷ [])) (map-recent_samples F now (contents F s))

  pub IsAppended-IsValid :
      (now : ℕ) (value ref : F.Double) (old s : Series F)
      → now < 2 ^ 64
      → Spaced (times F old)
      → All (λ t. t + chart_min_sample_interval_us ≤ now) (times F old)
      → IsAppended now value (recent_samples F now (contents F old)) ref s
      → IsValid F s
  IsAppended-IsValid now value ref old s w spaced apart v =
      let ts = times F old in
      let split = times-IsAppended now value ref old s v in
      record {
        storage = v.storage;
        head_in = v.head_in;
        count_in = v.count_in;
        spaced =
            subst⁻¹ Spaced split
              (Spaced-snoc _ now (recent-Spaced now ts spaced) (All-recent _ now ts apart));
        behind =
            subst⁻¹ (λ l. All (λ t. t ≤ s.last_sample_ts_us) l) split
              (All-append _ (recent now ts) (now ∷ [])
                (All-weaker _ (λ t h. omega (arith, v.last)) (All-recent _ now ts apart))
                (omega (arith, v.last), tt));
        near =
            subst⁻¹ (λ l. All (λ t. s.last_sample_ts_us ≤ t + chart_time_window_us) l) split
              (All-append _ (recent now ts) (now ∷ [])
                (All-weaker _ (λ t h. omega (arith, v.last)) (recent_near now ts spaced))
                (omega (arith, v.last), tt));
        clock = omega (arith, v.last);
      }
