-- ===== src/JsonDiff/Common.antt =====
-- The longest common subsequence of two texts: the reference for the table of src/ui/inspector_widget.c.
use mqtt_viewer.Base.{
  ℕ, zero, suc, ◌+◌, ◌≤◌, max, ◌≡◌, refl, Bool, true, false, if◌then◌else◌, arith,
}
use mqtt_viewer.Base.{Bool-cases, inl, inr, ◌⊎◌}

module _ (equal : ℕ → ℕ → Bool) where
  -- How many lines the first `i` lines and the first `j` lines have in common, in order.
  unfoldable pub common : ℕ → ℕ → ℕ
  common zero j = 0
  common (suc i) zero = 0
  common (suc i) (suc j) =
      if equal i j then common i j + 1 else max (common i (suc j)) (common (suc i) j)

  -- A choice of equal lines of those texts, in order, built from the left.
  pub data Pairing : ℕ → ℕ → Type 0 where
    start : Pairing 0 0
    skip_prev : {i j : ℕ} → Pairing i j → Pairing (suc i) j
    skip_curr : {i j : ℕ} → Pairing i j → Pairing i (suc j)
    pair : {i j : ℕ} → Pairing i j → equal i j ≡ true → Pairing (suc i) (suc j)

  pub pairs : {i j : ℕ} → Pairing i j → ℕ
  pairs start = 0
  pairs (skip_prev s) = pairs s
  pairs (skip_curr s) = pairs s
  pairs (pair s e) = pairs s + 1

  pub common-zero : (i : ℕ) → common i 0 ≡ 0
  unfolding common
  common-zero zero = refl
  common-zero (suc i) = refl

  pub zero-common : (j : ℕ) → common 0 j ≡ 0
  unfolding common
  zero-common j = refl

  common_grows_start : (j : ℕ) → (common 0 j ≤ common 1 j) × (common 0 (suc j) ≤ suc (common 0 j))
  unfolding common
  common_grows_start j = omega arith

  -- Both ways to fill a cell.
  pub common-cases :
      (i j : ℕ)
      → ((equal i j ≡ true) × (common (suc i) (suc j) ≡ common i j + 1))
        ⊎ ((equal i j ≡ false)
            × (common (suc i) (suc j) ≡ max (common i (suc j)) (common (suc i) j)))
  unfolding common
  common-cases i j = elim (Bool-cases (equal i j)) [
    | inl e ↦ inl (e, simp e)
    | inr e ↦ inr (e, simp e)
  ]

  -- A line more of the earlier text loses nothing; a line more of the later one gains one at most.
  common_grows : (i j : ℕ) → (common i j ≤ common (suc i) j) × (common i (suc j) ≤ suc (common i j))
  common_grows zero zero = common_grows_start 0
  common_grows zero (suc j) = common_grows_start (suc j)
  common_grows (suc i) zero = elim (common-cases i 0) [
    | inl e ↦ omega (
      arith,
      e.1,
      common_grows i 0,
      common-zero (suc i),
      common-zero (suc (suc i)),
      common-zero i,
    )
    | inr e ↦ omega (
      arith,
      e.1,
      common_grows i 0,
      common-zero (suc i),
      common-zero (suc (suc i)),
      common-zero i,
    )
  ]
  common_grows (suc i) (suc j) =
      let p = common_grows (suc i) j in
      let q = common_grows i (suc j) in
      elim (common-cases i (suc j)) [
        | inl e ↦ elim (common-cases (suc i) j) [
          | inl d ↦ omega (arith, e.1, d.1, p, q)
          | inr d ↦ omega (arith, e.1, d.1, p, q)
        ]
        | inr e ↦ elim (common-cases (suc i) j) [
          | inl d ↦ omega (arith, e.1, d.1, p, q)
          | inr d ↦ omega (arith, e.1, d.1, p, q)
        ]
      ]

-- The order of the two texts does not matter.
pub common_comm :
    (equal : ℕ → ℕ → Bool) (i j : ℕ) → common equal i j ≡ common (λ j i. equal i j) j i
unfolding common
common_comm equal zero zero = refl
common_comm equal zero (suc j) = refl
common_comm equal (suc i) zero = refl
common_comm equal (suc i) (suc j) =
    rw (common_comm equal i j, common_comm equal i (suc j), common_comm equal (suc i) j)
      (ground arith)

module _ (equal : ℕ → ℕ → Bool) where
  -- No choice pairs more lines.
  pub pairs-le-common : {i j : ℕ} (s : Pairing equal i j) → pairs equal s ≤ common equal i j
  unfolding pairs
  pairs-le-common start = omega arith
  pairs-le-common (skip_prev {i} {j} s) = omega (arith, pairs-le-common s, common_grows equal i j)
  pairs-le-common (skip_curr {i} {j} s) =
      let flip = λ (j i : ℕ). equal i j in
      omega (
        arith,
        pairs-le-common s,
        (common_grows flip j i).0,
        common_comm equal i j,
        common_comm equal i (suc j),
      )
  pairs-le-common (pair {i} {j} s e) = elim (common-cases equal i j) [
    | inl d ↦ omega (arith, d.1, pairs-le-common s)
    | inr d ↦ absurd (cc (e, d.0))
  ]
