-- ===== src/Decimal.antt =====
-- Decimal numbers: what `printf` writes for "%u", "%d" of a number that is not negative and
-- "%" PRIu64, and what `strtoul` reads, for src/model/version.c, src/model/csv_export.c,
-- src/model/cbor_pp.c and src/model/json_pp.c.
use native.Mathlib.Nat.{pow-suc}
use mqtt_viewer.Base.{
  ℕ, zero, suc, ◌+◌, ◌-◌, ◌*◌, ◌/◌, ◌%◌, ◌^◌, ◌<◌, Bool, true, ◌&&◌, [], ◌∷◌, ◌≡◌, ◌≢◌, ap, ◌∙◌,
  arith, ltb, leb, if◌then◌else◌, All, Bytes, Bool-cases, inl, inr,
}

-- The digits of `n` in front of `acc`; the fuel is the greatest number of digits.
unfoldable pub digits_onto : ℕ → ℕ → Bytes → Bytes
digits_onto zero n acc = acc
digits_onto (suc fuel) n acc =
    let more = digits_onto fuel (n / 10) ((b'0' + n % 10) ∷ acc) in
    if ltb n 10 then (b'0' + n) ∷ acc else more

-- A 64-bit number has at most 20 digits.
unfoldable pub decimal : ℕ → Bytes
unfolding digits_onto
decimal n = digits_onto 20 n []

abbrev pub is_digit : ℕ → Bool
is_digit c = leb b'0' c && leb c b'9'

-- The number that digits stand for, behind the digits of `n`.
abbrev pub value : ℕ → Bytes → ℕ
value n [] = n
value n (c ∷ s) = value (n * 10 + (c - b'0')) s

digits_onto-value :
    (fuel n : ℕ) (acc : Bytes) → n < 10 ^ fuel → value 0 (digits_onto fuel n acc) ≡ value n acc
unfolding digits_onto
digits_onto-value zero n acc h = ap (λ k. value k acc) (omega arith)
digits_onto-value (suc fuel) n acc h = elim (Bool-cases (ltb n 10)) [
  | inl e ↦ rw e (ap (λ k. value k acc) (ground arith))
  | inr e ↦ rw e (
      digits_onto-value fuel (n / 10) ((b'0' + n % 10) ∷ acc) (omega (arith, pow-suc 10 fuel))
      ∙ ap (λ k. value k acc) (omega arith))
]

digits_onto-digits :
    (fuel n : ℕ) (acc : Bytes)
    → All (λ c. is_digit c ≡ true) acc
    → All (λ c. is_digit c ≡ true) (digits_onto fuel n acc)
unfolding digits_onto
digits_onto-digits zero n acc h = h
digits_onto-digits (suc fuel) n acc h = elim (Bool-cases (ltb n 10)) [
  | inl e ↦ rw e (ground arith, h)
  | inr e ↦ rw e (digits_onto-digits fuel (n / 10) ((b'0' + n % 10) ∷ acc) (ground arith, h))
]

digits_onto-ne-nil : (fuel n : ℕ) (acc : Bytes) → digits_onto (suc fuel) n acc ≢ []
unfolding digits_onto
digits_onto-ne-nil zero n acc = ground arith
digits_onto-ne-nil (suc fuel) n acc = elim (Bool-cases (ltb n 10)) [
  | inl e ↦ rw e (λ q. cc)
  | inr e ↦ rw e (digits_onto-ne-nil fuel (n / 10) ((b'0' + n % 10) ∷ acc))
]

-- The digits written for a 64-bit number are digits, at least one, and stand for that number.
pub decimal_lem :
    (n : ℕ)
    → n < 2 ^ 64
    → (value 0 (decimal n) ≡ n) × All (λ c. is_digit c ≡ true) (decimal n) × (decimal n ≢ [])
decimal_lem n h =
    unfold decimal in
    (
      digits_onto-value 20 n [] (omega arith),
      digits_onto-digits 20 n [] tt,
      digits_onto-ne-nil 19 n [],
    )
