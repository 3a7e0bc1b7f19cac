-- ===== src/JsonDiff/Script.antt =====
-- The entries that src/ui/inspector_widget.c's `diff_compute` merges, against the two texts.
use mqtt_viewer.Base.{
  ℕ, zero, suc, ◌+◌, ◌*◌, ◌≤◌, min, ◌≡◌, refl, ap, sym, ◌∙◌, Bool, true, false, List, [], ◌∷◌, ◌++◌,
  append_assoc, append-nil, Option, none, some, length, All, All-append, leb, arith, Bool-cases,
  inl, inr, length-append,
}
use mqtt_viewer.JsonDiff.{
  DiffState, DiffMergedEntry, DiffTable, DiffLine, diff_lines_equal, diff_max_lines, backtrack,
  reversed, diff_compute,
}
use mqtt_viewer.JsonDiff.Common.{
  common, Pairing, pairs, pairs-le-common, common-cases, common-zero, zero-common,
}
use mqtt_viewer.JsonDiff.Table.{fill_table-eq-common}

abbrev pub somes : List (Option ℕ) → List ℕ
somes [] = []
somes (none ∷ os) = somes os
somes (some i ∷ os) = i ∷ somes os

-- The lines of the later text that the entries name, and those of the earlier text.
abbrev pub curr_lines : List DiffMergedEntry → List ℕ
curr_lines [] = []
curr_lines (e ∷ es) = somes (e.curr_idx ∷ []) ++ curr_lines es

abbrev pub prev_lines : List DiffMergedEntry → List ℕ
prev_lines [] = []
prev_lines (e ∷ es) = somes (e.prev_idx ∷ []) ++ prev_lines es

-- `0, 1, ..., n - 1`
abbrev pub upto : ℕ → List ℕ
upto zero = []
upto (suc n) = upto n ++ (n ∷ [])

abbrev is_unchanged : DiffState → ℕ
is_unchanged DiffState.unchanged = 1
is_unchanged DiffState.added = 0
is_unchanged DiffState.removed = 0

abbrev pub unchanged_count : List DiffMergedEntry → ℕ
unchanged_count [] = 0
unchanged_count (e ∷ es) = unchanged_count es + is_unchanged e.state

abbrev pub EntryOf : (ℕ → ℕ → Bool) → DiffState → Option ℕ → Option ℕ → Type 0
EntryOf equal DiffState.unchanged (some i) (some j) = equal i j ≡ true
EntryOf equal DiffState.added none (some j) = Unit
EntryOf equal DiffState.removed (some i) none = Unit
EntryOf equal _ _ _ = ⊥

-- An unchanged entry names two equal lines; an added one only a later line; a removed one only an
-- earlier line.
abbrev pub IsSound : (ℕ → ℕ → Bool) → DiffMergedEntry → Type 0
IsSound equal e = EntryOf equal e.state e.prev_idx e.curr_idx

curr_lines-append :
    (xs ys : List DiffMergedEntry) → curr_lines (xs ++ ys) ≡ curr_lines xs ++ curr_lines ys
curr_lines-append [] ys = refl
curr_lines-append (x ∷ xs) ys =
    rw (curr_lines-append xs ys) (sym (append_assoc (somes (x.curr_idx ∷ [])) _ _))

prev_lines-append :
    (xs ys : List DiffMergedEntry) → prev_lines (xs ++ ys) ≡ prev_lines xs ++ prev_lines ys
prev_lines-append [] ys = refl
prev_lines-append (x ∷ xs) ys =
    rw (prev_lines-append xs ys) (sym (append_assoc (somes (x.prev_idx ∷ [])) _ _))

unchanged_count-append :
    (xs ys : List DiffMergedEntry)
    → unchanged_count (xs ++ ys) ≡ unchanged_count xs + unchanged_count ys
unchanged_count-append [] ys = omega arith
unchanged_count-append (x ∷ xs) ys = omega (arith, unchanged_count-append xs ys)

unchanged_count-reversed :
    (es : List DiffMergedEntry) → unchanged_count (reversed es) ≡ unchanged_count es
unfolding reversed
unchanged_count-reversed [] = refl
unchanged_count-reversed (e ∷ es) =
    omega (arith, unchanged_count-append (reversed es) (e ∷ []), unchanged_count-reversed es)

length-reversed : (es : List DiffMergedEntry) → length (reversed es) ≡ length es
unfolding reversed
length-reversed [] = refl
length-reversed (e ∷ es) = omega (arith, length-append (reversed es) (e ∷ []), length-reversed es)

All-reversed {κ} :
    (P : DiffMergedEntry → Type κ) (es : List DiffMergedEntry) → All P es → All P (reversed es)
unfolding reversed
All-reversed P [] h = tt
All-reversed P (e ∷ es) h = All-append P (reversed es) (e ∷ []) (All-reversed P es h.1) (h.0, tt)

module _ (equal : ℕ → ℕ → Bool) (dp : DiffTable) where
  -- What the entries of the loop from `i` and `j` on are.
  record IsScript (i j : ℕ) (es : List DiffMergedEntry) : Type 0 where
    curr : curr_lines (reversed es) ≡ upto j
    prev : prev_lines (reversed es) ≡ upto i
    sound : All (IsSound equal) es
    size : length es + unchanged_count es ≡ i + j

  unchanged-IsScript :
      (i j : ℕ) (es : List DiffMergedEntry)
      → equal i j ≡ true
      → IsScript i j es
      → IsScript
          (suc i)
          (suc j)
          (record { curr_idx = some j; prev_idx = some i; state = DiffState.unchanged } ∷ es)
  unfolding reversed
  unchanged-IsScript i j es e v = record {
    curr = curr_lines-append (reversed es) _ ∙ ap (λ l. l ++ (j ∷ [])) v.curr;
    prev = prev_lines-append (reversed es) _ ∙ ap (λ l. l ++ (i ∷ [])) v.prev;
    sound = (e, v.sound);
    size = omega (arith, v.size);
  }

  added-IsScript :
      (i j : ℕ) (es : List DiffMergedEntry)
      → IsScript i j es
      → IsScript i
          (suc j)
          (record { curr_idx = some j; prev_idx = none; state = DiffState.added } ∷ es)
  unfolding reversed
  added-IsScript i j es v = record {
    curr = curr_lines-append (reversed es) _ ∙ ap (λ l. l ++ (j ∷ [])) v.curr;
    prev = prev_lines-append (reversed es) _ ∙ append-nil _ ∙ v.prev;
    sound = (tt, v.sound);
    size = omega (arith, v.size);
  }

  removed-IsScript :
      (i j : ℕ) (es : List DiffMergedEntry)
      → IsScript i j es
      → IsScript
          (suc i)
          j
          (record { curr_idx = none; prev_idx = some i; state = DiffState.removed } ∷ es)
  unfolding reversed
  removed-IsScript i j es v = record {
    curr = curr_lines-append (reversed es) _ ∙ append-nil _ ∙ v.curr;
    prev = prev_lines-append (reversed es) _ ∙ ap (λ l. l ++ (i ∷ [])) v.prev;
    sound = (tt, v.sound);
    size = omega (arith, v.size);
  }

  backtrack-IsScript : (i j : ℕ) → IsScript i j (backtrack equal dp i j)
  unfolding backtrack reversed
  backtrack-IsScript zero zero = record { curr = refl; prev = refl; sound = tt; size = refl }
  backtrack-IsScript zero (suc j) = added-IsScript zero j _ (backtrack-IsScript zero j)
  backtrack-IsScript (suc i) zero = removed-IsScript i zero _ (backtrack-IsScript i zero)
  backtrack-IsScript (suc i) (suc j) = elim (Bool-cases (equal i j)) [
    | inl e ↦ rw (backtrack, e) (unchanged-IsScript i j _ e (backtrack-IsScript i j))
    | inr e ↦ elim (Bool-cases (leb (dp i (suc j)) (dp (suc i) j))) [
      | inl d ↦ rw (backtrack, e, d) (added-IsScript (suc i) j _ (backtrack-IsScript (suc i) j))
      | inr d ↦ rw (backtrack, e, d) (removed-IsScript i (suc j) _ (backtrack-IsScript i (suc j)))
    ]
  ]

  module _ (m n : ℕ) (filled : (i j : ℕ) → i ≤ m → j ≤ n → dp i j ≡ common equal i j) where
    larger :
        (i j : ℕ)
        → suc i ≤ m
        → suc j ≤ n
        → leb (dp i (suc j)) (dp (suc i) j) ≡ true
        → common equal i (suc j) ≤ common equal (suc i) j
    larger i j hi hj d =
        ground (arith, filled i (suc j) (omega arith) hj, filled (suc i) j hi (omega arith))

    smaller :
        (i j : ℕ)
        → suc i ≤ m
        → suc j ≤ n
        → leb (dp i (suc j)) (dp (suc i) j) ≡ false
        → common equal (suc i) j ≤ common equal i (suc j)
    smaller i j hi hj d =
        ground (arith, filled i (suc j) (omega arith) hj, filled (suc i) j hi (omega arith))

    -- The entries keep as many lines as the longest common subsequence has.
    unchanged_count-backtrack :
        (i j : ℕ) → i ≤ m → j ≤ n → unchanged_count (backtrack equal dp i j) ≡ common equal i j
    unfolding backtrack
    unchanged_count-backtrack zero zero hi hj = sym (common-zero equal zero)
    unchanged_count-backtrack zero (suc j) hi hj = omega (
      arith,
      unchanged_count-backtrack zero j hi (omega arith),
      zero-common equal j,
      zero-common equal (suc j),
    )
    unchanged_count-backtrack (suc i) zero hi hj = omega (
      arith,
      unchanged_count-backtrack i zero (omega arith) hj,
      common-zero equal i,
      common-zero equal (suc i),
    )
    unchanged_count-backtrack (suc i) (suc j) hi hj = elim (common-cases equal i j) [
      | inl e ↦
          rw (backtrack, e.0)
            (omega (arith, e.1, unchanged_count-backtrack i j (omega arith) (omega arith)))
      | inr e ↦ elim (Bool-cases (leb (dp i (suc j)) (dp (suc i) j))) [
        | inl d ↦
            rw (backtrack, e.0, d)
              (omega (
                arith,
                e.1,
                larger i j hi hj d,
                unchanged_count-backtrack (suc i) j hi (omega arith),
              ))
        | inr d ↦
            rw (backtrack, e.0, d)
              (omega (
                arith,
                e.1,
                smaller i j hi hj d,
                unchanged_count-backtrack i (suc j) (omega arith) hj,
              ))
      ]
    ]

module _ (prev curr : List DiffLine) (dp : DiffTable) where
  abbrev merged : List DiffMergedEntry
  merged = (diff_compute prev curr dp).0

  abbrev prev_n : ℕ
  prev_n = min (length prev) diff_max_lines

  abbrev curr_n : ℕ
  curr_n = min (length curr) diff_max_lines

  pub merged_lines :
      (curr_lines merged ≡ upto curr_n)
      × (prev_lines merged ≡ upto prev_n)
      × All (IsSound (diff_lines_equal prev curr)) merged
  unfolding diff_compute
  merged_lines =
      let v =
        backtrack-IsScript (diff_lines_equal prev curr) (diff_compute prev curr dp).1 prev_n
          curr_n in
      (v.curr, v.prev, All-reversed _ _ v.sound)

  unchanged_count-merged :
      unchanged_count merged ≡ common (diff_lines_equal prev curr) prev_n curr_n
  unfolding diff_compute
  unchanged_count-merged =
      unchanged_count-reversed _
      ∙ unchanged_count-backtrack (diff_lines_equal prev curr) _ prev_n curr_n
          (λ i j. fill_table-eq-common _ prev_n curr_n dp i j) prev_n curr_n (omega arith)
          (omega arith)

  -- No choice of equal lines of the two texts in order has more pairs than the entries keep lines
  -- unchanged. The entries and the unchanged ones among them are as many as the lines of both texts, of
  -- each at most 256, and the entries fit the array of 512.
  pub merged_shortest :
      (s : Pairing (diff_lines_equal prev curr) prev_n curr_n)
      → (pairs _ s ≤ unchanged_count merged)
        × (length merged + unchanged_count merged ≡ prev_n + curr_n)
        × (length merged ≤ 2 * diff_max_lines)
  unfolding diff_compute
  merged_shortest s =
      let v =
        backtrack-IsScript (diff_lines_equal prev curr) (diff_compute prev curr dp).1 prev_n
          curr_n in
      omega (
        arith,
        pairs-le-common _ s,
        unchanged_count-merged,
        v.size,
        length-reversed
            (backtrack (diff_lines_equal prev curr) (diff_compute prev curr dp).1 prev_n curr_n),
        unchanged_count-reversed
            (backtrack (diff_lines_equal prev curr) (diff_compute prev curr dp).1 prev_n curr_n),
      )
