-- ===== src/ChartSeries/Push.antt =====
-- `chart_series_push_sample` of src/model/chart_series.c on every branch.
use native.Mathlib.Nat.{mod-eq_of_lt}
use mathlib.Core.Path.{subst⁻¹}
use mathlib.Core.List.{map-append}
use mqtt_viewer.Base.{not, ◌||◌, All-weaker}
use mqtt_viewer.Base.{
  ℕ, suc, ◌+◌, ◌-◌, ◌%◌, ◌⊎◌, ◌^◌, ◌≤◌, ◌<◌, ◌≡◌, inl, inr, refl, ap, ap₂, sym, ◌∙◌, Bool, true,
  false, List, [], ◌∷◌, ◌++◌, All, map, length, length-set, length-replicate, get_or, set, leb, ltb,
  ◌==◌, arith, Bool-cases, ==_iff, Option, Bytes,
}
use mqtt_viewer.Ring.{slots, slots_last, slots_grow}
use mqtt_viewer.ChartSeries.{
  Doubles, ChartSample, Series, blank_sample, chart_max_samples, chart_min_sample_interval_us,
  newest_at, newest, replace_newest, append_sample, chart_series_push_sample, chart_series_init,
  chart_series_reset,
}
use mqtt_viewer.ChartSeries.Append.{ts_of, IsAppended, append_sample-IsAppended, IsAppended-IsValid}
use mqtt_viewer.ChartSeries.Window.{
  Spaced, contents, recent_samples, times, IsValid, length-times, count_bound,
}

module _ (F : Doubles) where
  newest_at-last :
      (s : Series F) (n : ℕ)
      → s.count ≡ suc n
      → s.head < chart_max_samples
      → s.count ≤ chart_max_samples
      → newest_at F s ≡ (s.head + n) % chart_max_samples
  newest_at-last s n e h c =
      let d : s.head + s.count - 1 ≡ s.head + n = omega arith in
      rw d
        (ap (λ k. k % chart_max_samples) (mod-eq_of_lt {n = s.head + n} {m = 2 ^ 32} (omega arith)))

  abbrev replaced : Series F → F.Double → List (ChartSample F.Double)
  replaced s value = set s.samples (newest_at F s) (record (newest F s) { value = value })

  -- All samples but the newest.
  abbrev older : Series F → ℕ → List (ChartSample F.Double)
  older s n = slots (blank_sample F) s.samples chart_max_samples s.head 0 n

  newest_split :
      (s : Series F) (n : ℕ)
      → s.count ≡ suc n
      → IsValid F s
      → contents F s ≡ older s n ++ (newest F s ∷ [])
  newest_split s n e v =
      ap (older s) e
      ∙ slots_last (blank_sample F) chart_max_samples s.head s.samples 0 n
      ∙ ap (λ k. older s n ++ (get_or s.samples k (blank_sample F) ∷ []))
          (ap (λ k. (s.head + k) % chart_max_samples) {x = 0 + n} (omega arith)
            ∙ sym (newest_at-last s n e v.head_in v.count_in))

  -- A write over the newest sample.
  replaced_split :
      (s : Series F) (value : F.Double) (n : ℕ)
      → s.count ≡ suc n
      → IsValid F s
      → slots (blank_sample F) (replaced s value) chart_max_samples s.head 0 s.count
        ≡ older s n ++ (record (newest F s) { value = value } ∷ [])
  replaced_split s value n e v =
      ap₂
        (λ at k.
          slots (blank_sample F) (set s.samples at (record (newest F s) { value = value }))
            chart_max_samples s.head 0 k)
        (newest_at-last s n e v.head_in v.count_in) e
      ∙ slots_grow (blank_sample F) s.samples chart_max_samples s.head n _
          (omega (arith, v.storage)) (omega (arith, v.count_in))

  times-replaced :
      (s : Series F) (value : F.Double) (n : ℕ)
      → s.count ≡ suc n
      → IsValid F s
      → map (ts_of F) (slots (blank_sample F) (replaced s value) chart_max_samples s.head 0 s.count)
        ≡ times F s
  times-replaced s value n e v =
      ap (map (ts_of F)) (replaced_split s value n e v)
      ∙ map-append (ts_of F) (older s n) _
      ∙ sym (ap (map (ts_of F)) (newest_split s n e v) ∙ map-append (ts_of F) (older s n) _)

  -- The chart takes samples, and this one is a number.
  abbrev Accepts : Series F → F.Double → Type 0
  Accepts s value = (s.active ≡ true) × (F.isfinite value ≡ true)

  -- Behind the last sample, by less than 50 ms.
  abbrev InBucket : ℕ → Series F → Type 0
  InBucket now s = (0 < s.count) × (s.last_sample_ts_us < now) × (now < s.last_sample_ts_us + 50000)

  -- The value `x` lies no farther from the bucket's reference than `y`.
  abbrev no_farther : Series F → F.Double → F.Double → Bool
  no_farther s x y = F.le (F.fabs (F.minus x s.bucket_ref)) (F.fabs (F.minus y s.bucket_ref))

  abbrev sample : ℕ → F.Double → ChartSample F.Double
  sample now value = record { ts_us = now; value = value }

  -- What a call leaves, and when: nothing changes for a sample that is not taken or is no farther from
  -- the bucket's reference than the newest; the newest sample's value is replaced; the first sample is
  -- added; or one is added behind those in the window, and the newest of before becomes the reference.
  pub data Outcome (now : ℕ) (value : F.Double) (s : Series F) : Series F × Bool → Type 0 where
    not_taken :
        (s.active ≡ false)
          ⊎ ((F.isfinite value ≡ false) ⊎ ((0 < s.count) × (now ≤ s.last_sample_ts_us)))
        → Outcome now value s (s, false)
    kept_newest :
        (front : List (ChartSample F.Double)) (cur : ChartSample F.Double)
        → contents F s ≡ front ++ (cur ∷ [])
        → Accepts s value
        → InBucket now s
        → no_farther s value cur.value ≡ true
        → Outcome now value s (s, false)
    replaced_newest :
        (u : Series F) (front : List (ChartSample F.Double)) (cur : ChartSample F.Double)
        → contents F s ≡ front ++ (cur ∷ [])
        → Accepts s value
        → InBucket now s
        → no_farther s value cur.value ≡ false
        → contents F u ≡ front ++ (sample cur.ts_us value ∷ [])
        → (u.last_sample_ts_us ≡ s.last_sample_ts_us) × (u.bucket_ref ≡ s.bucket_ref)
        → Outcome now value s (u, true)
    first :
        (u : Series F)
        → Accepts s value
        → s.count ≡ 0
        → contents F u ≡ sample now value ∷ []
        → (u.last_sample_ts_us ≡ now) × (u.bucket_ref ≡ value)
        → Outcome now value s (u, true)
    appended :
        (u : Series F) (front : List (ChartSample F.Double)) (cur : ChartSample F.Double)
        → contents F s ≡ front ++ (cur ∷ [])
        → Accepts s value
        → s.last_sample_ts_us + 50000 ≤ now
        → contents F u ≡ recent_samples F now (contents F s) ++ (sample now value ∷ [])
        → (u.last_sample_ts_us ≡ now) × (u.bucket_ref ≡ cur.value)
        → Outcome now value s (u, true)

  abbrev Good : ℕ → F.Double → Series F → Series F × Bool → Type 0
  Good now value s r = IsValid F r.0 × Outcome now value s r

  replace_newest-Good :
      (now : ℕ) (s : Series F) (value : F.Double) (n : ℕ)
      → s.count ≡ suc n
      → IsValid F s
      → Accepts s value
      → InBucket now s
      → Good now value s (replace_newest F s value)
  unfolding replace_newest
  replace_newest-Good now s value n c v a h =
      let e = times-replaced s value n c v in
      elim (Bool-cases (no_farther s value (newest F s).value)) [
        | inl q ↦
            simp q (v, Outcome.kept_newest (older s n) (newest F s) (newest_split s n c v) a h q)
        | inr q ↦ simp q (
          record {
            storage = length-set s.samples _ _ ∙ v.storage;
            head_in = v.head_in;
            count_in = v.count_in;
            spaced = subst⁻¹ Spaced e v.spaced;
            behind = subst⁻¹ (All (λ t. t ≤ s.last_sample_ts_us)) e v.behind;
            near = subst⁻¹ (All (λ t. s.last_sample_ts_us ≤ t + 120000000)) e v.near;
            clock = v.clock;
          },
          Outcome.replaced_newest _ (older s n) (newest F s) (newest_split s n c v) a h q
              (replaced_split s value n c v) (refl, refl),
        )
      ]

  append_sample-Good :
      (now : ℕ) (s : Series F) (value ref : F.Double)
      → IsValid F s
      → now < 2 ^ 64
      → All (λ t. t + chart_min_sample_interval_us ≤ now) (times F s)
      → let u = append_sample F now value (record s { bucket_ref = ref }) in
        IsValid F u × IsAppended F now value (recent_samples F now (contents F s)) ref u
  append_sample-Good now s value ref v w apart =
      let u = record s { bucket_ref = ref } in
      let a = append_sample-IsAppended F now value u v.storage v.head_in w v.spaced apart in
      (IsAppended-IsValid F now value ref s (append_sample F now value u) w v.spaced apart a, a)

  no_times : (s : Series F) (P : ℕ → Type 0) → s.count ≡ 0 → All P (times F s)
  no_times s P e = by_times (times F s) (length-times F s ∙ e)
    where
      by_times : (ts : List ℕ) → length ts ≡ 0 → All P ts
      by_times [] q = tt
      by_times (t ∷ ts) q = absurd (omega arith)

  no_recent : (now : ℕ) (s : Series F) → s.count ≡ 0 → recent_samples F now (contents F s) ≡ []
  no_recent now s e = ap (λ k. recent_samples F now (older s k)) e

  first-Good :
      (now : ℕ) (value : F.Double) (s : Series F)
      → now < 2 ^ 64
      → IsValid F s
      → Accepts s value
      → s.count ≡ 0
      → Good now value s (append_sample F now value (record s { bucket_ref = value }), true)
  first-Good now value s w v c e =
      let (valid, a) = append_sample-Good now s value value v w (no_times s _ e) in
      (
        valid,
        Outcome.first _ c e (a.all ∙ ap (λ xs. xs ++ (sample now value ∷ [])) (no_recent now s e))
            (a.last, a.same_ref),
      )

  appended-Good :
      (now : ℕ) (value : F.Double) (s : Series F) (n : ℕ)
      → s.count ≡ suc n
      → now < 2 ^ 64
      → IsValid F s
      → Accepts s value
      → s.last_sample_ts_us + 50000 ≤ now
      → Good now value s
          (append_sample F now value (record s { bucket_ref = (newest F s).value }), true)
  appended-Good now value s n e w v c gap =
      let (valid, a) =
        append_sample-Good now s value (newest F s).value v w
          (All-weaker (times F s) (λ t q. omega arith) v.behind) in
      (
        valid,
        Outcome.appended _ (older s n) (newest F s) (newest_split s n e v) c gap a.all
            (a.last, a.same_ref),
      )

  accepted-Good :
      (now : ℕ) (value : F.Double) (s : Series F)
      → now < 2 ^ 64
      → IsValid F s
      → Accepts s value
      → Good now value s (chart_series_push_sample F now value s)
  unfolding chart_series_push_sample
  accepted-Good now value s w v c =
      let taken : (not s.active || not (F.isfinite value)) ≡ false =
        ap₂ (λ a f. not a || not f) c.0 c.1 in
      simp taken (elim (Bool-cases (s.count == 0)) [
        | inl e ↦ simp e (first-Good now value s w v c ((==_iff s.count 0).0 e))
        | inr e ↦
            let n : s.count ≡ suc (s.count - 1) = ground arith in
            simp e (elim (Bool-cases (leb now s.last_sample_ts_us)) [
              | inl d ↦ simp d (v, Outcome.not_taken (inr (inr (ground arith, ground arith))))
              | inr d ↦
                  simp d
                    (elim (Bool-cases
                      (ltb (now - s.last_sample_ts_us) chart_min_sample_interval_us)) [
                        | inl q ↦ simp q (
                            replace_newest-Good now s value (s.count - 1) n v c
                              (omega arith, ground arith, ground arith))
                        | inr q ↦
                            simp q (appended-Good now value s (s.count - 1) n w v c (ground arith))
                      ])
            ])
      ])

  -- On a valid series a push at any 64-bit time leaves a valid one: the kept samples lie 50 ms apart at
  -- least and reach back 120 s at most, all in order. The call returns false and changes nothing where
  -- the chart is not active, the value is not finite, or there is a last sample and the new one does not
  -- lie behind it. Less than 50 ms behind it the new value takes the place of the newest one's, or, where
  -- it lies no farther from the bucket's reference, nothing changes. Later the samples that fell out of
  -- the window are dropped, the new one is added behind the others, and the newest of before becomes the
  -- reference; the first sample is its own reference.
  pub chart_series_push_sample-IsValid :
      (now : ℕ) (value : F.Double) (s : Series F)
      → now < 2 ^ 64
      → IsValid F s
      → IsValid F (chart_series_push_sample F now value s).0
        × Outcome now value s (chart_series_push_sample F now value s)
  chart_series_push_sample-IsValid now value s w v = elim (Bool-cases s.active) [
    | inl a ↦ elim (Bool-cases (F.isfinite value)) [
      | inl f ↦ accepted-Good now value s w v (a, f)
      | inr f ↦ unfold chart_series_push_sample in simp (a, f) (v, Outcome.not_taken (inr (inl f)))
    ]
    | inr a ↦ unfold chart_series_push_sample in simp a (v, Outcome.not_taken (inl a))
  ]

  pub chart_series_init-IsValid :
      (topic dot_path : Option Bytes) → IsValid F (chart_series_init F topic dot_path)
  unfolding chart_series_init chart_series_reset
  chart_series_init-IsValid topic dot_path = record {
    storage = length-replicate chart_max_samples (blank_sample F);
    head_in = omega arith;
    count_in = omega arith;
    spaced = tt;
    behind = tt;
    near = tt;
    clock = omega arith;
  }

  -- Samples are pushed one by one, the first of the list first.
  abbrev pub pushed : List (ℕ × F.Double) → Series F → Series F
  pushed [] s = s
  pushed (x ∷ xs) s = pushed xs (chart_series_push_sample F x.0 x.1 s).0

  pushed-IsValid :
      (xs : List (ℕ × F.Double)) (s : Series F)
      → All (λ (x : ℕ × F.Double). x.0 < 2 ^ 64) xs
      → IsValid F s
      → IsValid F (pushed xs s)
  pushed-IsValid [] s h v = v
  pushed-IsValid (x ∷ xs) s h v =
      pushed-IsValid xs _ h.1 (chart_series_push_sample-IsValid x.0 x.1 s h.0 v).0

  -- A series never fills its ring, whatever is pushed: after any samples at 64-bit times it holds 2401
  -- at most, and the ring has room for more.
  pub pushed-bound :
      (topic dot_path : Option Bytes) (xs : List (ℕ × F.Double))
      → All (λ (x : ℕ × F.Double). x.0 < 2 ^ 64) xs
      → ((pushed xs (chart_series_init F topic dot_path)).count ≤ 2401)
        × ((pushed xs (chart_series_init F topic dot_path)).count < chart_max_samples)
  pushed-bound topic dot_path xs h =
      let few = count_bound F _ (
        pushed-IsValid xs (chart_series_init F topic dot_path) h
          (chart_series_init-IsValid topic dot_path)) in
      (few, omega (arith, few))
