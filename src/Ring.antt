-- ===== src/Ring.antt =====
-- Rings: what `entries[(head + i) % capacity]` for `i = 0 .. count - 1` reads, as a list, oldest
-- first. The lemmas serve src/model/message_buf.c, src/model/connection_log.c,
-- src/model/chart_series.c and src/model/spsc_queue.c.
use native.Mathlib.Nat.{mod-lt, mod-eq_of_lt, mod-add-mod, mod-eq-sub-mod}
use native.Mathlib.Decide.{dec_lt}
use mqtt_viewer.Base.{
  ℕ, zero, suc, ◌+◌, ◌-◌, ◌%◌, ◌^◌, ◌≤◌, ◌<◌, List, [], ◌∷◌, ◌++◌, some, ◌≡◌, ◌≢◌, refl, ap, ap₂,
  ◌∙◌, arith, length, get_elem?, get_or, set, get_or-set_self, get_or-set_ne,
}

-- Unsigned additions, which wrap.
abbrev pub add32 : ℕ → ℕ → ℕ
add32 a b = (a + b) % 2 ^ 32

abbrev pub add64 : ℕ → ℕ → ℕ
add64 a b = (a + b) % 2 ^ 64

-- Two different offsets below the capacity meet two different slots.
pub mod-add-ne : (cap a k : ℕ) → 0 < k → k < cap → (a + k) % cap ≢ a % cap
mod-add-ne cap a k h0 h =
    let r = a % cap in
    let e : (a + k) % cap ≡ (r + k) % cap = rw mod-add-mod in
    let below : r < cap = mod-lt a {m = cap} (omega arith) in
    elim (dec_lt (r + k) cap) [
      | yes p ↦ omega (arith, e, mod-eq_of_lt p)
      | no p ↦ omega (
        arith,
        e,
        mod-eq-sub-mod {n = r + k} {m = cap} (omega arith),
        mod-eq_of_lt {n = r + k - cap} {m = cap} (omega arith),
      )
    ]

module _ {ℓ} {A : Type ℓ} (d : A) where
  -- The `n` elements at the offsets `i`, `i + 1`, … from `head`.
  abbrev pub slots : List A → ℕ → ℕ → ℕ → ℕ → List A
  slots buf cap head i zero = []
  slots buf cap head i (suc n) = get_or buf ((head + i) % cap) d ∷ slots buf cap head (i + 1) n

module _ {ℓ} {A : Type ℓ} (d : A) (cap head : ℕ) where
  pub length-slots : (buf : List A) (i n : ℕ) → length (slots d buf cap head i n) ≡ n
  length-slots buf i zero = refl
  length-slots buf i (suc n) = ap suc (length-slots buf (i + 1) n)

  pub slots_last :
      (buf : List A) (i n : ℕ)
      → slots d buf cap head i (suc n)
        ≡ slots d buf cap head i n ++ (get_or buf ((head + (i + n)) % cap) d ∷ [])
  slots_last buf i zero = ap (λ k. get_or buf ((head + k) % cap) d ∷ []) (omega arith)
  slots_last buf i (suc n) = ap (◌∷◌ (get_or buf ((head + i) % cap) d)) (
      slots_last buf (i + 1) n
      ∙ ap (λ k. slots d buf cap head (i + 1) n ++ (get_or buf ((head + k) % cap) d ∷ []))
          (omega arith))

  -- A write at an offset past the run, less than one turn from its start, is not seen.
  pub slots-set :
      (buf : List A) (v : A) (i n m : ℕ)
      → i + n ≤ m
      → m < i + cap
      → slots d (set buf ((head + m) % cap) v) cap head i n ≡ slots d buf cap head i n
  slots-set buf v i zero m h k = refl
  slots-set buf v i (suc n) m h k =
      ap₂ ◌∷◌
        (get_or-set_ne buf v d (λ e.
          mod-add-ne cap (head + i) (m - i) (omega arith) (omega arith)
            (ap (λ x. x % cap) (omega arith) ∙ e)))
        (slots-set buf v (i + 1) n m (omega arith) (omega arith))

  pub get_elem?-slots :
      (buf : List A) (i n k : ℕ)
      → k < n
      → get_elem? (slots d buf cap head i n) k ≡ some (get_or buf ((head + (i + k)) % cap) d)
  get_elem?-slots buf i zero k h = absurd (omega arith)
  get_elem?-slots buf i (suc n) zero h =
      ap (λ j. some (get_or buf ((head + j) % cap) d)) (omega arith)
  get_elem?-slots buf i (suc n) (suc k) h =
      get_elem?-slots buf (i + 1) n k (omega arith)
      ∙ ap (λ j. some (get_or buf ((head + j) % cap) d)) (omega arith)

-- Moving the head on by one is moving the offsets on by one.
pub slots_shift {ℓ} :
    {A : Type ℓ} (d : A) (buf : List A) (cap head i n : ℕ)
    → slots d buf cap ((head + 1) % cap) i n ≡ slots d buf cap head (i + 1) n
slots_shift d buf cap head i zero = refl
slots_shift d buf cap head i (suc n) =
    ap₂ (λ k r. get_or buf k d ∷ r) (rw mod-add-mod (ap (λ x. x % cap) (omega arith)))
      (slots_shift d buf cap head (i + 1) n)

-- A list that holds at most `cap` elements, and drops its oldest for a new one when it is full.
module _ {ℓ} {A : Type ℓ} where
  abbrev pub behead : List A → List A
  behead [] = []
  behead (x ∷ xs) = xs

  pub behead-slots :
      (d : A) (buf : List A) (cap head n : ℕ)
      → behead (slots d buf cap head 0 (suc n)) ≡ slots d buf cap head 1 n
  behead-slots d buf cap head n = ap (λ i. slots d buf cap head i n) (omega arith)

  -- The write of a ring that has room: at offset `n`.
  pub slots_grow :
      (d : A) (buf : List A) (cap head n : ℕ) (v : A)
      → cap ≤ length buf
      → n < cap
      → slots d (set buf ((head + n) % cap) v) cap head 0 (suc n)
        ≡ slots d buf cap head 0 n ++ (v ∷ [])
  slots_grow d buf cap head n v len lt =
      slots_last d cap head (set buf ((head + n) % cap) v) 0 n
      ∙ ap₂ (λ xs x. xs ++ (x ∷ [])) (slots-set d cap head buf v 0 n n (omega arith) (omega arith))
          (ap (λ k. get_or (set buf ((head + n) % cap) v) ((head + k) % cap) d) (omega arith)
            ∙ get_or-set_self buf ((head + n) % cap) v d
                (omega (arith, mod-lt (head + n) {m = cap} (omega arith))))

  -- The write of a full ring: at offset `cap`, which is the oldest slot, with the head moved on.
  pub slots_turn :
      (d : A) (buf : List A) (cap head : ℕ) (v : A)
      → cap ≤ length buf
      → 0 < cap
      → slots d (set buf ((head + cap) % cap) v) cap ((head + 1) % cap) 0 cap
        ≡ behead (slots d buf cap head 0 cap) ++ (v ∷ [])
  slots_turn d buf zero head v len h = absurd (omega arith)
  slots_turn d buf (suc k) head v len h =
      slots_shift d (set buf ((head + suc k) % suc k) v) (suc k) head 0 (suc k)
      ∙ ap (λ i. slots d (set buf ((head + suc k) % suc k) v) (suc k) head i (suc k)) (omega arith)
      ∙ slots_last d (suc k) head (set buf ((head + suc k) % suc k) v) 1 k
      ∙ ap₂ (λ xs x. xs ++ (x ∷ []))
          (slots-set d (suc k) head buf v 1 k (suc k) (omega arith) (omega arith))
          (ap (λ j. get_or (set buf ((head + suc k) % suc k) v) ((head + j) % suc k) d)
              (omega arith)
            ∙ get_or-set_self buf ((head + suc k) % suc k) v d
                (omega (arith, mod-lt (head + suc k) {m = suc k} (omega arith))))
      ∙ ap (λ xs. xs ++ (v ∷ [])) (ap (λ i. slots d buf (suc k) head i k) (omega arith))
