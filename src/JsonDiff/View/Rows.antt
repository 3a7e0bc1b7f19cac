-- ===== src/JsonDiff/View/Rows.antt =====
-- The rows of the diff view of src/ui/inspector_widget.c, frame by frame.
use mqtt_viewer.Base.{
  ℕ, zero, suc, ◌+◌, ◌-◌, ◌≤◌, ◌<◌, min, ◌≡◌, refl, ap, sym, ◌∙◌, ◌&&◌, Bool, true, false, List, [],
  ◌∷◌, ◌++◌, append_assoc, append-nil, Option, none, some, length, All, take, length-take, ◌==◌,
  arith, Bool-cases, inl, inr, leb, Bytes, length-map, ==_no, ==_iff, ◌⊎◌,
}
use native.Mathlib.Decide.{dec_le}
use mqtt_viewer.JsonPp.{json_pp_max_lines, JsonPpLine}
use mqtt_viewer.JsonPp.Format.{json_pp_run_len, json_pp_looks_like_json}
use mqtt_viewer.JsonDiff.{
  DiffState, DiffMergedEntry, diff_max_lines, diff_compute, diff_lines_equal,
}
use mqtt_viewer.JsonDiff.Script.{curr_lines, somes, EntryOf, upto, merged_lines, IsSound}
use mqtt_viewer.JsonDiff.View.{
  DiffNode, DiffView, DiffRow, diff_lines, diff_format_line, lines_from, entry_row, entry_rows,
  merged_rows, diff_rows, is_node, update_diff, formatted, render_json_diff_view,
}

-- The numbers of the current lines that the rows show.
abbrev pub shown_lines : List DiffRow → List ℕ
shown_lines [] = []
shown_lines (DiffRow.line (some i) _ ∷ rs) = i ∷ shown_lines rs
shown_lines (_ ∷ rs) = shown_lines rs

shown_lines-append :
    (xs ys : List DiffRow) → shown_lines (xs ++ ys) ≡ shown_lines xs ++ shown_lines ys
shown_lines-append [] ys = refl
shown_lines-append (DiffRow.line (some i) _ ∷ xs) ys = ap (◌∷◌ i) (shown_lines-append xs ys)
shown_lines-append (DiffRow.line none _ ∷ xs) ys = shown_lines-append xs ys
shown_lines-append (DiffRow.removed_line _ _ ∷ xs) ys = shown_lines-append xs ys
shown_lines-append (DiffRow.text_view _ ∷ xs) ys = shown_lines-append xs ys
shown_lines-append (DiffRow.no_payload ∷ xs) ys = shown_lines-append xs ys
shown_lines-append (DiffRow.output_truncated ∷ xs) ys = shown_lines-append xs ys

shifted : (li rounds : ℕ) → suc li + rounds ≡ li + suc rounds
shifted li rounds = omega arith

zero_add : (n : ℕ) → 0 + n ≡ n
zero_add n = omega arith

add_zero : (n : ℕ) → n + 0 ≡ n
add_zero n = omega arith

upto-lines_from :
    (li rounds : ℕ) → upto li ++ shown_lines (lines_from li rounds) ≡ upto (li + rounds)
unfolding lines_from
upto-lines_from li zero = append-nil _ ∙ rw (add_zero li) refl
upto-lines_from li (suc rounds) =
    sym (append_assoc (upto li) (li ∷ []) _)
    ∙ upto-lines_from (suc li) rounds
    ∙ ap upto (shifted li rounds)

back : (n : ℕ) → diff_max_lines ≤ n → diff_max_lines + (n - diff_max_lines) ≡ n
back n h = omega arith

past_the_cap :
    (n : ℕ)
    → upto (min n diff_max_lines) ++ shown_lines (lines_from diff_max_lines (n - diff_max_lines))
      ≡ upto n
unfolding lines_from
past_the_cap n = elim (dec_le n diff_max_lines) [
  | yes h ↦
      let e : min n diff_max_lines ≡ n = omega arith in
      let d : n - diff_max_lines ≡ 0 = omega arith in rw (e, d) (append-nil (upto n))
  | no h ↦
      let e : min n diff_max_lines ≡ diff_max_lines = omega arith in
      rw e (upto-lines_from diff_max_lines (n - diff_max_lines) ∙ ap upto (back n (omega arith)))
]

shown_lines-entry_row :
    (equal : ℕ → ℕ → Bool) (k : ℕ) (e : DiffMergedEntry) (rs : List DiffRow)
    → IsSound equal e
    → shown_lines (entry_row k e ∷ rs) ≡ somes (e.curr_idx ∷ []) ++ shown_lines rs
shown_lines-entry_row equal k e rs h = by_state e.state e.prev_idx e.curr_idx h
  where
    by_state :
        (s : DiffState) (p c : Option ℕ)
        → EntryOf equal s p c
        → shown_lines (entry_row k (record { curr_idx = c; prev_idx = p; state = s }) ∷ rs)
          ≡ somes (c ∷ []) ++ shown_lines rs
    by_state DiffState.unchanged (some i) (some j) q = refl
    by_state DiffState.unchanged none _ q = absurd q
    by_state DiffState.unchanged (some i) none q = absurd q
    by_state DiffState.added none (some j) q = refl
    by_state DiffState.added none none q = absurd q
    by_state DiffState.added (some i) _ q = absurd q
    by_state DiffState.removed (some i) none q = refl
    by_state DiffState.removed none _ q = absurd q
    by_state DiffState.removed (some i) (some j) q = absurd q

-- The rows of sound entries show the lines that the entries name.
shown_lines-entry_rows :
    (equal : ℕ → ℕ → Bool) (k : ℕ) (es : List DiffMergedEntry)
    → All (IsSound equal) es
    → shown_lines (entry_rows k es) ≡ curr_lines es
unfolding entry_rows
shown_lines-entry_rows equal k [] h = refl
shown_lines-entry_rows equal k (e ∷ es) h =
    shown_lines-entry_row equal k e _ h.0
    ∙ ap (λ l. somes (e.curr_idx ∷ []) ++ l) (shown_lines-entry_rows equal (suc k) es h.1)

-- The rows of a diff show each line once, and the lines that it left out after them.
shown_lines-merged_rows :
    (equal : ℕ → ℕ → Bool) (es : List DiffMergedEntry) (n : ℕ)
    → All (IsSound equal) es
    → (es ≡ []) ⊎ (curr_lines es ≡ upto (min n diff_max_lines))
    → shown_lines (merged_rows es n) ≡ upto n
unfolding merged_rows
shown_lines-merged_rows equal [] n h e = upto-lines_from 0 n ∙ ap upto (zero_add n)
shown_lines-merged_rows equal (x ∷ es) n h (inl e) = absurd (omega (arith, ap length e))
shown_lines-merged_rows equal (x ∷ es) n h (inr e) =
    shown_lines-append (entry_rows 0 (x ∷ es)) _
    ∙ ap (λ l. l ++ shown_lines (lines_from diff_max_lines (n - diff_max_lines)))
        (shown_lines-entry_rows equal 0 (x ∷ es) h ∙ e)
    ∙ past_the_cap n

shown_lines-diff_rows :
    (v : DiffView)
    → shown_lines (diff_rows v) ≡ shown_lines (merged_rows v.merged (length v.pp.lines))
unfolding diff_rows
shown_lines-diff_rows v =
    shown_lines-append (merged_rows v.merged (length v.pp.lines)) _
    ∙ elim (Bool-cases (leb json_pp_max_lines (length v.pp.lines))) [
      | inl e ↦ simp e (append-nil _)
      | inr e ↦ simp e (append-nil _)
    ]

length-diff_lines : (ls : List JsonPpLine) → length (diff_lines ls) ≡ min (length ls) diff_max_lines
unfolding diff_lines
length-diff_lines ls =
    omega
      (arith, length-map diff_format_line (take diff_max_lines ls), length-take diff_max_lines ls)

capped :
    (ls : List JsonPpLine)
    → min (length (diff_lines ls)) diff_max_lines ≡ min (length ls) diff_max_lines
capped ls = omega (arith, length-diff_lines ls)

stale : {a b : Bool} → a ≡ true → (a && b) ≡ false → b ≡ false
stale {a = true} e f = f
stale {a = false} e f = absurd (cc e)

abbrev ShowsAll : DiffView × List DiffRow → Type 0
ShowsAll r = shown_lines r.1 ≡ upto (length r.0.pp.lines)

-- The view shows a diff of the current lines, or no diff.
ShowsAll-rows :
    (v : DiffView) (equal : ℕ → ℕ → Bool)
    → All (IsSound equal) v.merged
    → (v.merged ≡ []) ⊎ (curr_lines v.merged ≡ upto (min (length v.pp.lines) diff_max_lines))
    → ShowsAll (v, diff_rows v)
ShowsAll-rows v equal s h =
    shown_lines-diff_rows v ∙ shown_lines-merged_rows equal v.merged (length v.pp.lines) s h

module _ {D : Type 0} (strtod : Bytes → D × Bytes) (isfinite : D → Bool) where
  ShowsAll-update_diff :
      (n : DiffNode) (w : DiffView)
      → (is_node w.prev_node n.node && w.prev_ts == n.last_message_ts) ≡ false
      → ShowsAll (update_diff strtod isfinite n w, diff_rows (update_diff strtod isfinite n w))
  unfolding update_diff
  ShowsAll-update_diff n w f = elim (Bool-cases (is_node w.prev_node n.node)) [
    | inr e ↦ simp e (
        ShowsAll-rows
          (record w {
            prev_node = some n.node;
            prev_ts = n.last_message_ts;
            prev_payload = n.payload;
            merged = [];
          })
          (λ _ _. true) tt (inl refl))
    | inl e ↦
        let d : (w.prev_ts == n.last_message_ts) ≡ false = stale e f in
        let old = json_pp_run_len strtod isfinite w.pp_prev w.prev_payload in
        let m = merged_lines (diff_lines old.lines) (diff_lines w.pp.lines) w.dp in
        let r = diff_compute (diff_lines old.lines) (diff_lines w.pp.lines) w.dp in
        simp (e, d)
          (ShowsAll-rows
            (record w {
              pp_prev = old;
              merged = r.0;
              dp = r.1;
              prev_payload = n.payload;
              prev_ts = n.last_message_ts;
            })
            (diff_lines_equal (diff_lines old.lines) (diff_lines w.pp.lines)) m.2
            (inr (m.0 ∙ ap upto (capped w.pp.lines))))
  ]

  -- A frame that draws a JSON payload on a topic that was not the one shown last, or whose last message is a new one,
  -- shows each line of the formatted payload exactly once, in order, whatever the diff removed or added.
  pub shown_lines-render :
      (n : DiffNode) (v : DiffView)
      → 0 < length n.payload
      → json_pp_looks_like_json strtod isfinite (some n.payload) ≡ true
      → (is_node v.prev_node n.node && v.prev_ts == n.last_message_ts) ≡ false
      → shown_lines (render_json_diff_view strtod isfinite n v).1
        ≡ upto (length (render_json_diff_view strtod isfinite n v).0.pp.lines)
  unfolding render_json_diff_view formatted
  shown_lines-render n v h j f =
      let e : (length n.payload == 0) ≡ false = ==_no _ _ (omega arith) in
      let w = formatted strtod isfinite n v in
      elim (Bool-cases (length w.pp.lines == 0)) [
        | inl q ↦ simp (e, j, q) (ap upto (sym ((==_iff (length w.pp.lines) 0).0 q)))
        | inr q ↦ simp (e, j, q) (ShowsAll-update_diff n w f)
      ]
