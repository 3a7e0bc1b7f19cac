-- ===== src/ChartSeries/Window.antt =====
-- The samples that src/model/chart_series.c holds, oldest first: how far they reach, and how many.
use mqtt_viewer.Base.{
  ℕ, ◌+◌, ◌*◌, ◌^◌, ◌≤◌, ◌<◌, ◌≡◌, inl, inr, ◌∙◌, List, [], ◌∷◌, ◌++◌, All, All-append, All-weaker,
  either, refl, map, length, length-map, leb, if◌then◌else◌, arith, Bool-cases,
}
use mqtt_viewer.Ring.{slots, length-slots}
use mqtt_viewer.ChartSeries.{Doubles, ChartSample, Series, blank_sample, chart_max_samples}

-- Each time lies an interval at least behind those before it.
abbrev pub Spaced : List ℕ → Type 0
Spaced [] = Unit
Spaced (t ∷ ts) = All (λ u. t + 50000 ≤ u) ts × Spaced ts

-- What lies within the window that ends at `now`, when the oldest come first.
abbrev pub recent : ℕ → List ℕ → List ℕ
recent now [] = []
recent now (t ∷ ts) = if leb now (t + 120000000) then t ∷ ts else recent now ts

pub Spaced-snoc :
    (ts : List ℕ) (now : ℕ) → Spaced ts → All (λ t. t + 50000 ≤ now) ts → Spaced (ts ++ (now ∷ []))
Spaced-snoc [] now s h = (tt, tt)
Spaced-snoc (t ∷ ts) now s h =
    (All-append _ ts (now ∷ []) s.0 (h.0, tt), Spaced-snoc ts now s.1 h.1)

-- Spaced times that do not lie past `last` need an interval each.
Spaced-length :
    (t : ℕ) (ts : List ℕ) (last : ℕ)
    → Spaced (t ∷ ts)
    → All (λ u. u ≤ last) (t ∷ ts)
    → t + length ts * 50000 ≤ last
Spaced-length t [] last s h = omega (arith, h.0)
Spaced-length t (u ∷ us) last s h = omega (arith, s.0.0, Spaced-length u us last s.1 h.1)

pub few_times :
    (ts : List ℕ) (last : ℕ)
    → Spaced ts
    → All (λ t. t ≤ last) ts
    → All (λ t. last ≤ t + 120000000) ts
    → length ts ≤ 2401
few_times [] last a b c = omega arith
few_times (t ∷ ts) last a b c = omega (arith, Spaced-length t ts last a b, c.0)

pub recent-Spaced : (now : ℕ) (ts : List ℕ) → Spaced ts → Spaced (recent now ts)
recent-Spaced now [] s = tt
recent-Spaced now (t ∷ ts) s = either Spaced (leb now (t + 120000000)) s (recent-Spaced now ts s.1)

pub All-recent : (P : ℕ → Type 0) (now : ℕ) (ts : List ℕ) → All P ts → All P (recent now ts)
All-recent P now [] h = tt
All-recent P now (t ∷ ts) h = either (All P) (leb now (t + 120000000)) h (All-recent P now ts h.1)

-- Of spaced times the recent ones all lie in the window.
pub recent_near :
    (now : ℕ) (ts : List ℕ) → Spaced ts → All (λ t. now ≤ t + 120000000) (recent now ts)
recent_near now [] s = tt
recent_near now (t ∷ ts) s = elim (Bool-cases (leb now (t + 120000000))) [
  | inl e ↦ simp e (ground arith, All-weaker ts (λ u h. ground arith) s.0)
  | inr e ↦ simp e (recent_near now ts s.1)
]

module _ (F : Doubles) where
  abbrev pub contents : Series F → List (ChartSample F.Double)
  contents s = slots (blank_sample F) s.samples chart_max_samples s.head 0 s.count

  abbrev pub times : Series F → List ℕ
  times s = map (λ (x : ChartSample F.Double). x.ts_us) (contents s)

  pub record IsValid (s : Series F) : Type 0 where
    pub storage : length s.samples ≡ chart_max_samples
    pub head_in : s.head < chart_max_samples
    pub count_in : s.count ≤ chart_max_samples
    pub spaced : Spaced (times s)
    pub behind : All (λ t. t ≤ s.last_sample_ts_us) (times s)
    pub near : All (λ t. s.last_sample_ts_us ≤ t + 120000000) (times s)
    pub clock : s.last_sample_ts_us < 2 ^ 64

  pub length-times : (s : Series F) → length (times s) ≡ s.count
  length-times s =
      length-map (λ (x : ChartSample F.Double). x.ts_us) (contents s)
      ∙ length-slots (blank_sample F) chart_max_samples s.head s.samples 0 s.count

  pub count_bound : (s : Series F) → IsValid s → s.count ≤ 2401
  count_bound s v =
      omega
        (arith, few_times (times s) s.last_sample_ts_us v.spaced v.behind v.near, length-times s)

  -- The samples in the window that ends at `now`, when the oldest come first.
  abbrev pub recent_samples : ℕ → List (ChartSample F.Double) → List (ChartSample F.Double)
  recent_samples now [] = []
  recent_samples now (x ∷ xs) =
      if leb now (x.ts_us + 120000000) then x ∷ xs else recent_samples now xs

  pub map-recent_samples :
      (now : ℕ) (xs : List (ChartSample F.Double))
      → map (λ (x : ChartSample F.Double). x.ts_us) (recent_samples now xs)
        ≡ recent now (map (λ (x : ChartSample F.Double). x.ts_us) xs)
  map-recent_samples now [] = refl
  map-recent_samples now (x ∷ xs) = elim (Bool-cases (leb now (x.ts_us + 120000000))) [
    | inl e ↦ simp e refl
    | inr e ↦ simp e (map-recent_samples now xs)
  ]
