-- ===== src/ChartPanel/Charted.antt =====
-- Which values are charted: `chart_add_from_line` of src/ui/inspector_widget.c and
-- `chart_panel_capture_sample` of src/ui/chart_panel.c on the whole array.
use mathlib.Core.Path.{subst}
use mqtt_viewer.Base.{
  ℕ, zero, suc, ◌+◌, ◌≤◌, ◌<◌, ◌^◌, ◌≡◌, refl, ap₂, Bool, true, false, not, ◌&&◌, ◌||◌, List, [],
  ◌∷◌, Option, none, some, length, get_elem?, take_all, All, map, str_eq, str_eq_iff, if◌then◌else◌,
  ◌==◌, arith, Bool-cases, inl, inr, Bytes,
}
use mqtt_viewer.JsonPp.{JsonPp, JsonPpLine}
use mqtt_viewer.JsonPp.Format.{json_pp_run_len}
use mqtt_viewer.ChartSeries.{Doubles, Series, chart_series_init, chart_series_reset}
use mqtt_viewer.ChartSeries.Window.{IsValid}
use mqtt_viewer.ChartSeries.Push.{chart_series_push_sample-IsValid}
use mqtt_viewer.ChartPanel.{
  is_charted, any_charted, add_to_free, chart_line, chart_add_from_line, push_found, push_number,
  chart_panel_capture_sample,
}

either {ℓ κ} :
    {A : Type ℓ} (P : A → Type κ) (b : Bool) {x y : A} → P x → P y → P (if b then x else y)
either P true p q = p
either P false p q = q

both_true : (a b : Bool) → (a && b) ≡ true → (a ≡ true) × (b ≡ true)
both_true true b q = (refl, q)
both_true false b q = absurd (cc q)

module _ (F : Doubles) where
  -- How many series chart the value at a path of a topic.
  abbrev pub charts_of : Bytes → Bytes → List (Series F) → ℕ
  charts_of topic dot_path [] = 0
  charts_of topic dot_path (x ∷ xs) =
      if is_charted F topic dot_path x
      then suc (charts_of topic dot_path xs)
      else charts_of topic dot_path xs

  any_charted-charts_of :
      (t d : Bytes) (xs : List (Series F)) → any_charted F t d xs ≡ false → charts_of t d xs ≡ 0
  unfolding any_charted
  any_charted-charts_of t d [] e = refl
  any_charted-charts_of t d (x ∷ xs) e = elim (Bool-cases (is_charted F t d x)) [
    | inl q ↦ absurd (cc (subst (λ b. (b || any_charted F t d xs) ≡ false) q e))
    | inr q ↦
        simp q (any_charted-charts_of t d xs (subst (λ b. (b || any_charted F t d xs) ≡ false) q e))
  ]

  -- The new series charts its own value once.
  is_charted_new :
      (topic dot_path t d : Bytes)
      → length topic < 256
      → length dot_path < 128
      → is_charted F t d (chart_series_init F (some topic) (some dot_path))
        ≡ str_eq topic t && str_eq dot_path d
  unfolding chart_series_init chart_series_reset
  is_charted_new topic dot_path t d h k =
      rw (take_all 255 topic (omega arith), take_all 127 dot_path (omega arith)) refl

  charts_of-add_to_free :
      (topic dot_path t d : Bytes) (xs : List (Series F))
      → length topic < 256
      → length dot_path < 128
      → charts_of t d (add_to_free F topic dot_path xs)
        ≤ charts_of t d xs + (if str_eq topic t && str_eq dot_path d then 1 else 0)
  unfolding add_to_free
  charts_of-add_to_free topic dot_path t d [] h k = omega arith
  charts_of-add_to_free topic dot_path t d (x ∷ xs) h k = elim (Bool-cases x.active) [
    | inl e ↦ simp e (ground (arith, charts_of-add_to_free topic dot_path t d xs h k))
    | inr e ↦ simp e (rw (is_charted_new topic dot_path t d h k) (ground arith))
  ]

  chart_line-once :
      (topic : Bytes) (line : JsonPpLine) (xs : List (Series F))
      → length topic < 256
      → length line.dot_path < 128
      → ((t d : Bytes) → charts_of t d xs ≤ 1)
      → (t d : Bytes) → charts_of t d (chart_line F topic (some line) xs) ≤ 1
  unfolding chart_line
  chart_line-once topic line xs h k once t d =
      let path = line.dot_path in
      elim (Bool-cases (length topic == 0 || not line.is_numeric || any_charted F topic path xs)) [
        | inl e ↦ simp e (once t d)
        | inr e ↦
            let free =
              any_charted-charts_of topic path xs
                (last_false (length topic == 0 || not line.is_numeric) e) in
            let added = charts_of-add_to_free topic path t d xs h k in
            simp e (elim (Bool-cases (str_eq topic t && str_eq path d)) [
              | inl q ↦
                  same
                    (subst
                      (λ b.
                        charts_of t d (add_to_free F topic path xs)
                        ≤ charts_of t d xs + (if b then 1 else 0))
                      q added)
                    free q
              | inr q ↦ omega (
                arith,
                once t d,
                subst
                    (λ b.
                      charts_of t d (add_to_free F topic path xs)
                      ≤ charts_of t d xs + (if b then 1 else 0))
                    q added,
              )
            ])
      ]
    where
      last_false : (b : Bool) {c : Bool} → (b || c) ≡ false → c ≡ false
      last_false true e = absurd (cc e)
      last_false false e = e

      same :
          {n : ℕ}
          → n ≤ charts_of t d xs + 1
          → charts_of topic line.dot_path xs ≡ 0
          → (str_eq topic t && str_eq line.dot_path d) ≡ true
          → n ≤ 1
      same a f q =
          let both = both_true (str_eq topic t) (str_eq line.dot_path d) q in
          let e : topic ≡ t = (str_eq_iff topic t).0 both.0 in
          let p : line.dot_path ≡ d = (str_eq_iff line.dot_path d).0 both.1 in
          omega (arith, a, f, ap₂ (λ u c. charts_of u c xs) e p)

  line_bound :
      (lines : List JsonPpLine) (i : ℕ) (P : Option JsonPpLine → Type 0)
      → All (λ (l : JsonPpLine). length l.dot_path < 128) lines
      → P none
      → ((l : JsonPpLine) → length l.dot_path < 128 → P (some l))
      → P (get_elem? lines i)
  line_bound [] i P b n s = n
  line_bound (l ∷ lines) zero P b n s = s l b.0
  line_bound (l ∷ lines) (suc i) P b n s = line_bound lines i P b.1 n s

  -- Where no value is charted twice, a click on a line of the inspector keeps that, whatever the line;
  -- the topic and the paths of the lines fit their arrays.
  pub chart_add_from_line-once :
      (topic : Bytes) (lines : List JsonPpLine) (i : ℕ) (xs : List (Series F))
      → length topic < 256
      → All (λ (l : JsonPpLine). length l.dot_path < 128) lines
      → ((t d : Bytes) → charts_of t d xs ≤ 1)
      → (t d : Bytes) → charts_of t d (chart_add_from_line F topic lines i xs) ≤ 1
  unfolding chart_add_from_line chart_line
  chart_add_from_line-once topic lines i xs h b once t d =
      line_bound lines i (λ o. charts_of t d (chart_line F topic o xs) ≤ 1) b (once t d)
        (λ l k. chart_line-once topic l xs h k once t d)

  module _ (strtod : Bytes → F.Double × Bytes) where
    push_found-IsValid :
        (o : Option F.Double) (now : ℕ) (s : Series F)
        → now < 2 ^ 64
        → IsValid F s
        → IsValid F (push_found F strtod o now s)
    unfolding push_found
    push_found-IsValid none now s w v = v
    push_found-IsValid (some x) now s w v = (chart_series_push_sample-IsValid F now x s w v).0

    -- Captured at a 64-bit time, a message on any topic and with any payload keeps each series valid.
    pub chart_panel_capture_sample-IsValid :
        (pp : JsonPp) (topic : Bytes) (payload : Option Bytes) (now : ℕ) (xs : List (Series F))
        → now < 2 ^ 64
        → All (λ s. IsValid F s) xs
        → All (λ s. IsValid F s) (chart_panel_capture_sample F strtod pp topic payload now xs)
    unfolding chart_panel_capture_sample push_number
    chart_panel_capture_sample-IsValid pp topic none now xs w v = v
    chart_panel_capture_sample-IsValid pp topic (some payload) now xs w v =
        either (All (λ s. IsValid F s)) (length payload == 0) v (each xs v)
      where
        each :
            (ys : List (Series F))
            → All (λ s. IsValid F s) ys
            → All
                (λ s. IsValid F s)
                (map
                  (λ s.
                    if not s.active || not (str_eq s.topic topic)
                    then s
                    else push_number F strtod (json_pp_run_len strtod F.isfinite pp payload) now s)
                  ys)
        each [] h = tt
        each (s ∷ ys) h = (
          either (IsValid F) (not s.active || not (str_eq s.topic topic)) h.0
              (push_found-IsValid _ now s w h.0),
          each ys h.1,
        )
