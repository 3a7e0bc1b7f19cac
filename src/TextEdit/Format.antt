-- ===== src/TextEdit/Format.antt =====
-- `text_edit_format` of src/ui/text_edit.c: the text of a field, cut to its display, with the caret.
use mqtt_viewer.Base.{
  ℕ, zero, suc, ◌+◌, ◌-◌, ◌≤◌, ◌<◌, Bool, true, false, [], ◌∷◌, ◌++◌, append-nil, Option, none,
  some, ◌≡◌, ◌⊎◌, inl, inr, refl, ap, ap₂, sym, ◌∙◌, arith, length, length-append, length-take,
  take, take_all, drop, get_or, ltb, min, if◌then◌else◌, Bool-cases, Bytes,
}
use native.Mathlib.Decide.{ℕ_discrete}
use mqtt_viewer.TextEdit.{is_cont, back_over}
use mqtt_viewer.TextEdit.Caret.{back_over-bound}

-- The number of bytes of `raw` that are shown.
unfoldable pub shown_bytes : ℕ → Bytes → ℕ
shown_bytes out_cap raw =
    if ltb (out_cap - 2) (length raw) then back_over raw (out_cap - 2 - 3) else length raw

abbrev pub ellipsis : ℕ → Bytes → Bytes
ellipsis out_cap raw = if ltb (out_cap - 2) (length raw) then b'.' ∷ b'.' ∷ b'.' ∷ [] else []

-- What is written to `out`, `none` for nothing, and the marker's index, `none` for
-- TEXT_EDIT_NO_MARKER. A `raw` of NULL is the empty text.
unfoldable pub text_edit_format : ℕ → Bytes → ℕ → Bool → Option Bytes × Option ℕ
text_edit_format out_cap raw caret show_marker =
    let shown = shown_bytes out_cap raw in
    let at = if ltb caret shown then caret else shown in
    if ltb out_cap 6 then (if ltb 0 out_cap then some [] else none, none) else (
      some (
          take at raw
          ++ ((if show_marker then b'|' ∷ [] else [])
              ++ (take (shown - at) (drop at raw) ++ ellipsis out_cap raw))),
      if show_marker then some at else none,
    )

-- A byte that starts no UTF-8 sequence.
abbrev pub Continues : ℕ → Type 0
Continues c = (128 ≤ c) × (c < 192)

back_over-start :
    (s : Bytes) (i : ℕ) → (back_over s i ≡ 0) ⊎ ¬ Continues (get_or s (back_over s i) 0)
unfolding back_over is_cont
back_over-start s zero = inl refl
back_over-start s (suc i) = elim (Bool-cases (is_cont (get_or s (suc i) 0))) [
  | inl e ↦ simp e (back_over-start s i)
  | inr e ↦ simp e (inr (λ c. absurd (ground (arith, c))))
]

back_over-inside : (s : Bytes) (i k : ℕ) → back_over s i < k → k ≤ i → Continues (get_or s k 0)
unfolding back_over is_cont
back_over-inside s zero k h l = absurd (omega arith)
back_over-inside s (suc i) k h l = elim (Bool-cases (is_cont (get_or s (suc i) 0))) [
  | inl e ↦ elim (ℕ_discrete k (suc i)) [
    | yes q ↦ rw q (ground arith)
    | no ne ↦ back_over-inside s i k (ground arith) (omega arith)
  ]
  | inr e ↦ absurd (ground arith)
]

shown_bytes-bound :
    (out_cap : ℕ) (raw : Bytes)
    → 6 ≤ out_cap
    → (shown_bytes out_cap raw ≤ length raw)
      × (shown_bytes out_cap raw + length (ellipsis out_cap raw) + 2 ≤ out_cap)
unfolding shown_bytes
shown_bytes-bound out_cap raw h = ground (arith, back_over-bound raw (out_cap - 2 - 3))

drop-append_short : (at : ℕ) (s t : Bytes) → at ≤ length s → drop at (s ++ t) ≡ drop at s ++ t
drop-append_short zero s t h = refl
drop-append_short (suc at) [] t h = absurd (omega arith)
drop-append_short (suc at) (x ∷ s) t h = drop-append_short at s t (omega arith)

take-append_short : (at : ℕ) (s t : Bytes) → at ≤ length s → take at (s ++ t) ≡ take at s
take-append_short zero s t h = refl
take-append_short (suc at) [] t h = absurd (omega arith)
take-append_short (suc at) (x ∷ s) t h = ap (◌∷◌ x) (take-append_short at s t (omega arith))

take_nothing : (k : ℕ) → take {A = ℕ} k [] ≡ []
take_nothing zero = refl
take_nothing (suc k) = refl

rejoined : (at : ℕ) (s : Bytes) → take at s ++ drop at s ≡ s
rejoined zero s = refl
rejoined (suc at) [] = refl
rejoined (suc at) (x ∷ s) = ap (◌∷◌ x) (rejoined at s)

-- The bytes from `at` on of the first `n`.
drop-take : (at n : ℕ) (s : Bytes) → at ≤ n → drop at (take n s) ≡ take (n - at) (drop at s)
drop-take zero n s h = ap (λ k. take k s) (omega arith)
drop-take (suc at) zero s h = absurd (omega arith)
drop-take (suc at) (suc n) [] h = sym (take_nothing (suc n - suc at))
drop-take (suc at) (suc n) (x ∷ s) h =
    drop-take at n s (omega arith) ∙ ap (λ k. take k (drop at s)) (omega arith)

take-take : (at n : ℕ) (s : Bytes) → at ≤ n → take at (take n s) ≡ take at s
take-take zero n s h = refl
take-take (suc at) zero s h = absurd (omega arith)
take-take (suc at) (suc n) [] h = refl
take-take (suc at) (suc n) (x ∷ s) h = ap (◌∷◌ x) (take-take at n s (omega arith))

-- The text that is shown without the caret.
abbrev pub shown_text : ℕ → Bytes → Bytes
shown_text out_cap raw = take (shown_bytes out_cap raw) raw ++ ellipsis out_cap raw

-- The text in the display, and the number of bytes of `raw` in it: all of `raw` where it fits with the
-- marker and its NUL; else as much as leaves room for three dots and ends where no UTF-8 sequence is
-- cut.
pub data IsShown (out_cap : ℕ) (raw : Bytes) : ℕ → Bytes → Type 0 where
  whole : length raw + 2 ≤ out_cap → IsShown out_cap raw (length raw) raw
  cut :
      {n : ℕ}
      → out_cap < length raw + 2
      → n + 5 ≤ out_cap
      → (n ≡ 0) ⊎ ¬ Continues (get_or raw n 0)
      → ((k : ℕ) → n < k → k + 5 ≤ out_cap → Continues (get_or raw k 0))
      → IsShown out_cap raw n (take n raw ++ b'.' ∷ b'.' ∷ b'.' ∷ [])

module _ (out_cap : ℕ) (raw : Bytes) (h : 6 ≤ out_cap) where
  take-shown_text :
      (at : ℕ) → at ≤ shown_bytes out_cap raw → take at (shown_text out_cap raw) ≡ take at raw
  take-shown_text at k =
      take-append_short at (take (shown_bytes out_cap raw) raw) _
        (omega (arith, length-take (shown_bytes out_cap raw) raw, shown_bytes-bound out_cap raw h))
      ∙ take-take at (shown_bytes out_cap raw) raw k

  drop-shown_text :
      (at : ℕ)
      → at ≤ shown_bytes out_cap raw
      → drop at (shown_text out_cap raw)
        ≡ take (shown_bytes out_cap raw - at) (drop at raw) ++ ellipsis out_cap raw
  drop-shown_text at k =
      drop-append_short at (take (shown_bytes out_cap raw) raw) _
        (omega (arith, length-take (shown_bytes out_cap raw) raw, shown_bytes-bound out_cap raw h))
      ∙ ap (λ l. l ++ ellipsis out_cap raw) (drop-take at (shown_bytes out_cap raw) raw k)

  shown_or_cut : IsShown out_cap raw (shown_bytes out_cap raw) (shown_text out_cap raw)
  unfolding shown_bytes
  shown_or_cut = elim (Bool-cases (ltb (out_cap - 2) (length raw))) [
    | inl e ↦ simp e (
        IsShown.cut (ground arith) (omega (arith, back_over-bound raw (out_cap - 2 - 3)))
          (back_over-start raw (out_cap - 2 - 3))
          (λ k l m. back_over-inside raw (out_cap - 2 - 3) k l (omega arith)))
    | inr e ↦ simp e (
        rw (append-nil (take (length raw) raw), take_all (length raw) raw (omega arith))
          (IsShown.whole (ground arith)))
  ]

  -- Into a display of six bytes or more a text is written that fits with its NUL and the marker: all of
  -- the field's text where that fits, else as much of it as leaves room for the three dots behind it,
  -- without cutting a UTF-8 sequence. With the marker, the mark stands at the caret or at the end of
  -- the bytes shown, and the text around it is the same.
  pub text_edit_format_lem :
      (caret : ℕ)
      → (n : ℕ) × (text : Bytes) × IsShown out_cap raw n text
        × (length text + 2 ≤ out_cap)
        × (text_edit_format out_cap raw caret false ≡ (some text, none))
        × (text_edit_format out_cap raw caret true ≡ (
          some (take (min caret n) text ++ (b'|' ∷ drop (min caret n) text)),
          some (min caret n),
        ))
  unfolding text_edit_format
  text_edit_format_lem caret =
      let shown = shown_bytes out_cap raw in
      let m : (if ltb caret shown then caret else shown) ≡ min caret shown = ground arith in
      let e : ltb out_cap 6 ≡ false = ground arith in
      let front = take-shown_text (min caret shown) (omega arith) in
      let back = drop-shown_text (min caret shown) (omega arith) in
      (
        shown,
        shown_text out_cap raw,
        shown_or_cut,
        omega (
          arith,
          length-append (take shown raw) (ellipsis out_cap raw),
          length-take shown raw,
          shown_bytes-bound out_cap raw h,
        ),
        simp (e, m)
            (ap (λ l. (some l, none))
              (ap₂ ◌++◌ (sym front) (sym back) ∙ rejoined _ (shown_text out_cap raw))),
        simp (e, m)
            (ap₂ (λ a b. (some (a ++ (b'|' ∷ b)), some (min caret shown))) (sym front) (sym back)),
      )
