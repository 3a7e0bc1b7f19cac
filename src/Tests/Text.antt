-- ===== src/Tests/Text.antt =====
-- src/model/util.c and subscription.c on short texts.
use mqtt_viewer.Base.{
  [], false, true, some, ◌≡◌, refl, arith, length, take, drop, replicate, min, Bytes, codes, cstr,
  map,
}
use mqtt_viewer.Util.{
  truncated, printable, util_str_copy, util_preview_sanitize, util_preview_build_compact,
}
use mqtt_viewer.Util.Copy.{util_str_copy_lem}
use mqtt_viewer.Util.Preview.{
  preview, shown_byte, util_preview_sanitize_lem, util_preview_build_compact_lem,
}
use mqtt_viewer.Subscription.{mqtt_topic_matches, match_from, skip_level, rest, at_end}
use mqtt_viewer.Subscription.Levels.{filter_matches, IsFilter, IsLevel}
use mqtt_viewer.Subscription.Gaps.{plus_hash_misses_parent, plus_misses_empty_level}
use mqtt_viewer.Subscription.Matches.{topic_matches_levels}

-- An array of eight bytes.
abbrev array : Bytes
array = replicate 8 b'z'

abbrev spaced : Bytes
spaced = codes " a\n\t b c"

copy_example :
    (cstr (util_str_copy array 3 (some (codes "abcd"))) ≡ truncated 3 (codes "abcd"))
    × (drop 3 (util_str_copy array 3 (some (codes "abcd"))) ≡ drop 3 array)
    × (length (util_str_copy array 3 (some (codes "abcd"))) ≡ 8)
copy_example =
    util_str_copy_lem array 3 (some (codes "abcd")) (omega arith) (omega arith) (ground arith)

sanitize_example :
    let (out, n) = util_preview_sanitize array 6 spaced in
    (cstr out ≡ map shown_byte (take 5 spaced)) × (n ≡ min (length spaced) 5) × (length out ≡ 8)
sanitize_example = util_preview_sanitize_lem array 6 spaced (omega arith) (omega arith)

compact_example :
    (cstr (util_preview_build_compact array 8 spaced) ≡ preview 8 spaced)
    × (length (util_preview_build_compact array 8 spaced) ≡ 8)
compact_example = util_preview_build_compact_lem array 8 spaced (omega arith) (omega arith)

preview_run : preview 8 spaced ≡ codes "a..."
unfolding printable
preview_run = refl

abbrev sample : Bytes
sample = codes "+/b/#"

sample-IsFilter : IsFilter sample
sample-IsFilter =
    IsFilter.one_more refl refl (λ e. absurd (ground arith))
      (IsFilter.plain (
        IsLevel.char (omega arith) (omega arith) (omega arith)
          (IsLevel.slash refl (IsFilter.all refl))))

matches_example :
    mqtt_topic_matches (some (codes "+/b/#")) (some (codes "a/b"))
    ≡ filter_matches (codes "+/b/#") (codes "a/b")
matches_example =
    topic_matches_levels (codes "+/b/#") (codes "a/b") sample-IsFilter (λ e. absurd (ground arith))
      (omega arith)

matches_run : mqtt_topic_matches (some (codes "+/b/#")) (some (codes "a/b")) ≡ true
unfolding mqtt_topic_matches match_from skip_level rest at_end
matches_run = refl

parent_example :
    (mqtt_topic_matches (some (codes "+/#")) (some (codes "a")) ≡ false)
    × (filter_matches (codes "+/#") (codes "a") ≡ true)
parent_example = plus_hash_misses_parent b'a' [] (omega arith) (omega arith, tt)

empty_level_example :
    (mqtt_topic_matches (some (codes "a/+")) (some (codes "a/")) ≡ false)
    × (filter_matches (codes "a/+") (codes "a/") ≡ true)
empty_level_example =
    plus_misses_empty_level b'a' [] (omega arith) ((omega arith, omega arith, omega arith), tt)
