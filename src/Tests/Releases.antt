-- ===== src/Tests/Releases.antt =====
-- src/model/version.c and the decimal texts on concrete numbers.
use mqtt_viewer.Base.{true, false, not, ◌&&◌, ◌∷◌, some, ◌≡◌, ◌↔◌, ◌⊎◌, refl, arith, codes}
use mqtt_viewer.Version.{
  Version, newer, version_parse, parse_parts, parse_part, skip_v, after_part, strtoul, digits_from,
  parse_suffix, version_is_newer,
}
use mqtt_viewer.Version.Order.{
  Newer, written, IsWord, newer_strict_order, version_parse-written, version_is_newer-written,
}

abbrev v120 : Version
v120 = record { major = 1; minor = 20; patch = 0; prerelease = false }

abbrev v120_rc : Version
v120_rc = record v120 { prerelease = true }

v120-IsWord : IsWord v120
v120-IsWord = record { major_in = omega arith; minor_in = omega arith; patch_in = omega arith }

v120_rc-IsWord : IsWord v120_rc
v120_rc-IsWord = record { major_in = omega arith; minor_in = omega arith; patch_in = omega arith }

order_of_releases_example :
    (newer v120 v120 ≡ false)
    × ((newer v120 v120_rc && newer v120_rc v120 && not (newer v120 v120)) ≡ false)
    × ((v120 ≡ v120_rc) ⊎ (newer v120 v120_rc ≡ true) ⊎ (newer v120_rc v120 ≡ true))
order_of_releases_example = newer_strict_order v120 v120_rc v120

parse_example :
    (version_parse (some (written v120)) ≡ some v120)
    × (version_parse (some (b'v' ∷ written v120)) ≡ some v120)
parse_example = version_parse-written v120 v120-IsWord

newer_example :
    (version_is_newer (some (written v120)) (some (written v120_rc)) ≡ true) ↔ Newer v120 v120_rc
newer_example = version_is_newer-written v120 v120_rc v120-IsWord v120_rc-IsWord

parse_run : version_parse (some (codes "v1.20-rc1")) ≡ some v120_rc
unfolding version_parse parse_parts parse_part skip_v after_part strtoul digits_from parse_suffix
parse_run = refl
