-- ===== src/Version.antt =====
-- src/model/version.c: release versions and their order.
pub mod Order
use mqtt_viewer.Decimal.{is_digit}
use mqtt_viewer.Base.{
  ℕ, zero, suc, ◌+◌, ◌-◌, ◌*◌, ◌^◌, Bool, true, false, not, ◌&&◌, ◌||◌, List, [], ◌∷◌, Option, none,
  some, min, ltb, leb, ◌==◌, if◌then◌else◌, Bytes,
}

pub record Version : Type 0 where
  pub major : ℕ
  pub minor : ℕ
  pub patch : ℕ
  pub prerelease : Bool

-- `strtoul(s, &end, 10)` at a digit: the value, ULONG_MAX where it overflows, and the rest.
unfoldable pub digits_from : ℕ → Bytes → ℕ × Bytes
digits_from n [] = (n, [])
digits_from n (c ∷ s) =
    let more = digits_from (n * 10 + (c - b'0')) s in if is_digit c then more else (n, c ∷ s)

unfoldable pub strtoul : Bytes → ℕ × Bytes
strtoul s = let (n, rest) = digits_from 0 s in (min n (2 ^ 64 - 1), rest)

-- `if (*s != '.') break; s++;`
unfoldable pub after_part : ℕ → Bytes → ℕ × Bool × Bytes
after_part n [] = (n, false, [])
after_part n (d ∷ r) = if d == b'.' then (n, true, r) else (n, false, d ∷ r)

-- One round of the loop of `version_parse`: `none` where it returns false, else the part, whether
-- the loop goes on, and the rest.
unfoldable pub parse_part : Bytes → Option (ℕ × Bool × Bytes)
parse_part [] = none
parse_part (c ∷ s) =
    let (n, rest) = strtoul (c ∷ s) in if is_digit c then some (after_part n rest) else none

-- The code behind the loop.
unfoldable pub parse_suffix : ℕ → ℕ → ℕ → Bytes → Option Version
parse_suffix a b c [] = some (record { major = a; minor = b; patch = c; prerelease = false })
parse_suffix a b c (d ∷ s) =
    if d == b'-'
    then some (record { major = a; minor = b; patch = c; prerelease = true })
    else if d == b'+'
    then some (record { major = a; minor = b; patch = c; prerelease = false })
    else none

-- `if (*s == 'v' || *s == 'V') s++;`
unfoldable pub skip_v : Bytes → Bytes
skip_v [] = []
skip_v (c ∷ s) = if c == b'v' || c == b'V' then s else c ∷ s

-- The loop's three rounds; `none` where the C function returns false.
unfoldable pub parse_parts : Bytes → Option Version
parse_parts s = elim (parse_part s) [
  | none ↦ none
  | some (a, false, r) ↦ parse_suffix a 0 0 r
  | some (a, true, r) ↦ elim (parse_part r) [
    | none ↦ none
    | some (b, false, q) ↦ parse_suffix a b 0 q
    | some (b, true, q) ↦ elim (parse_part q) [
      | none ↦ none
      | some (c, _, p) ↦ parse_suffix a b c p
    ]
  ]
]

unfoldable pub version_parse : Option Bytes → Option Version
version_parse none = none
version_parse (some s) = parse_parts (skip_v s)

-- The comparison of two parsed versions.
unfoldable pub newer : Version → Version → Bool
newer a b =
    if not (a.major == b.major)
    then ltb b.major a.major
    else if not (a.minor == b.minor)
    then ltb b.minor a.minor
    else if not (a.patch == b.patch)
    then ltb b.patch a.patch
    else not a.prerelease && b.prerelease

unfoldable pub version_is_newer : Option Bytes → Option Bytes → Bool
version_is_newer latest current = elim (version_parse latest) [
  | none ↦ false
  | some a ↦ elim (version_parse current) [ none ↦ false | some b ↦ newer a b ]
]
