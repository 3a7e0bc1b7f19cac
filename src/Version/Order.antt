-- ===== src/Version/Order.antt =====
-- Versions: the comparison is a strict order, and reading undoes writing.
use mqtt_viewer.Base.{
  ℕ, ◌+◌, ◌-◌, ◌*◌, ◌^◌, ◌<◌, true, false, not, ◌&&◌, [], ◌∷◌, ◌++◌, Option, some, ◌≡◌, ◌≢◌, ◌⊎◌,
  ◌↔◌, refl, ap, ◌∙◌, arith, if◌then◌else◌, All, Bytes,
}
use mqtt_viewer.Decimal.{decimal, is_digit, value, decimal_lem}
use mqtt_viewer.Version.{
  Version, digits_from, strtoul, after_part, parse_part, parse_suffix, skip_v, parse_parts,
  version_parse, newer, version_is_newer,
}

-- The order of releases: by major, minor, patch, and a pre-release before its release.
abbrev pub Newer : Version → Version → Type 0
Newer a b =
    (b.major < a.major)
    ⊎ ((a.major ≡ b.major) × (b.minor < a.minor))
    ⊎ ((a.major ≡ b.major) × (a.minor ≡ b.minor) × (b.patch < a.patch))
    ⊎ ((a.major ≡ b.major)
        × (a.minor ≡ b.minor)
        × (a.patch ≡ b.patch)
        × (a.prerelease ≡ false)
        × (b.prerelease ≡ true))

newer_sound : (a b : Version) → newer a b ≡ true → Newer a b
unfolding newer
newer_sound a b h = ground arith

newer_complete : (a b : Version) → Newer a b → newer a b ≡ true
unfolding newer
newer_complete a b h = ground arith

-- `newer` is a strict order in which any two different versions are comparable.
pub newer_strict_order :
    (a b c : Version)
    → (newer a a ≡ false)
      × ((newer a b && newer b c && not (newer a c)) ≡ false)
      × ((a ≡ b) ⊎ (newer a b ≡ true) ⊎ (newer b a ≡ true))
newer_strict_order a b c = (irreflexive, ground (arith, transitive), total)
  where
    irreflexive : newer a a ≡ false
    irreflexive = unfold newer in ground arith

    transitive : newer a b ≡ true → newer b c ≡ true → newer a c ≡ true
    transitive h k = newer_complete a c (compose (newer_sound a b h) (newer_sound b c k))
      where
        compose : Newer a b → Newer b c → Newer a c
        compose h k = ground arith

    total : (a ≡ b) ⊎ (newer a b ≡ true) ⊎ (newer b a ≡ true)
    total = unfold newer in grind arith

-- A text that does not go on with a digit.
abbrev StopsDigits : Bytes → Type 0
StopsDigits [] = Unit {0}
StopsDigits (c ∷ s) = is_digit c ≡ false

digits_from-value :
    (n : ℕ) (ds rest : Bytes)
    → All (λ c. is_digit c ≡ true) ds
    → StopsDigits rest
    → digits_from n (ds ++ rest) ≡ (value n ds, rest)
unfolding digits_from
digits_from-value n [] [] h k = refl
digits_from-value n [] (c ∷ rest) h k = ground arith
digits_from-value n (c ∷ ds) rest h k =
    ground (arith, digits_from-value (n * 10 + (c - b'0')) ds rest h.1 k)

parse_part-digits :
    (ds rest : Bytes)
    → All (λ c. is_digit c ≡ true) ds
    → ds ≢ []
    → value 0 ds < 2 ^ 64
    → StopsDigits rest
    → parse_part (ds ++ rest) ≡ some (after_part (value 0 ds) rest)
unfolding parse_part strtoul
parse_part-digits [] rest h ne lt k = absurd (ne refl)
parse_part-digits (c ∷ ds) rest h ne lt k = ground (arith, digits_from-value 0 (c ∷ ds) rest h k)

parse_part-decimal :
    (n : ℕ) (rest : Bytes)
    → n < 2 ^ 64
    → StopsDigits rest
    → parse_part (decimal n ++ rest) ≡ some (after_part n rest)
parse_part-decimal n rest h k =
    let (v, d, ne) = decimal_lem n h in
    parse_part-digits (decimal n) rest d ne (rw v h) k ∙ ap (λ m. some (after_part m rest)) v

-- A version as it is written.
abbrev pub suffix : Version → Bytes
suffix v = if v.prerelease then b'-' ∷ [] else []

abbrev pub written : Version → Bytes
written v = decimal v.major ++ (b'.' ∷ (decimal v.minor ++ (b'.' ∷ (decimal v.patch ++ suffix v))))

pub record IsWord (v : Version) : Type 0 where
  pub major_in : v.major < 2 ^ 64
  pub minor_in : v.minor < 2 ^ 64
  pub patch_in : v.patch < 2 ^ 64

-- No digit is a 'v'.
skip_v-digits :
    (ds rest : Bytes) → All (λ c. is_digit c ≡ true) ds → ds ≢ [] → skip_v (ds ++ rest) ≡ ds ++ rest
unfolding skip_v
skip_v-digits [] rest h ne = absurd (ne refl)
skip_v-digits (c ∷ ds) rest h ne = ground arith

parse_parts-written : (v : Version) → IsWord v → parse_parts (written v) ≡ some v
unfolding parse_parts after_part parse_suffix
parse_parts-written v w =
    let q = decimal v.patch ++ suffix v in
    let r = decimal v.minor ++ (b'.' ∷ q) in
    ground (
      arith,
      parse_part-decimal v.major (b'.' ∷ r) w.major_in refl,
      parse_part-decimal v.minor (b'.' ∷ q) w.minor_in refl,
      parse_part-decimal v.patch (suffix v) w.patch_in stops,
    )
  where
    stops : StopsDigits (suffix v)
    stops = ground arith

-- `version_parse` reads back what is written, a leading 'v' being optional.
pub version_parse-written :
    (v : Version)
    → IsWord v
    → (version_parse (some (written v)) ≡ some v)
      × (version_parse (some (b'v' ∷ written v)) ≡ some v)
unfolding version_parse
version_parse-written v w =
    let (n, d, ne) = decimal_lem v.major w.major_in in
    (
      rw (skip_v-digits (decimal v.major) _ d ne) (parse_parts-written v w),
      rw (skip_v_once (written v)) (parse_parts-written v w),
    )
  where
    skip_v_once : (s : Bytes) → skip_v (b'v' ∷ s) ≡ s
    skip_v_once s = unfold skip_v in refl

is_newer-parsed :
    (latest current : Option Bytes) (a b : Version)
    → version_parse latest ≡ some a
    → version_parse current ≡ some b
    → version_is_newer latest current ≡ newer a b
unfolding version_is_newer
is_newer-parsed latest current a b p q = ground arith

-- Of two written versions, whose numbers have 64 bits, the first is newer exactly by the order of
-- releases.
pub version_is_newer-written :
    (a b : Version)
    → IsWord a
    → IsWord b
    → (version_is_newer (some (written a)) (some (written b)) ≡ true) ↔ Newer a b
version_is_newer-written a b u w =
    rw (is_newer-parsed _ _ a b (version_parse-written a u).0 (version_parse-written b w).0)
      (newer_sound a b, newer_complete a b)
