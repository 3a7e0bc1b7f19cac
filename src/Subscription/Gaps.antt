-- ===== src/Subscription/Gaps.antt =====
-- Where `mqtt_topic_matches` differs from MQTT 3.1.1 section 4.7.
use mqtt_viewer.Base.{
  ℕ, true, false, [], ◌∷◌, ◌++◌, some, ◌≡◌, ◌≢◌, refl, arith, ◌==◌, Bytes, str_eq, str_eq_iff, All,
}
use mqtt_viewer.Subscription.{
  skip_level, trailing_hash, starts, is_empty, at_end, match_from, mqtt_topic_matches,
}
use mqtt_viewer.Subscription.Levels.{levels, filter_matches}

-- A text without a slash is one level.
levels_one : (t : Bytes) → All (λ c. c ≢ b'/') t → levels t ≡ t ∷ []
levels_one [] h = refl
levels_one (c ∷ t) h = ground (arith, levels_one t h.1)

skip_level_one : (t : Bytes) → All (λ c. c ≢ b'/') t → skip_level t ≡ []
unfolding skip_level
skip_level_one [] h = refl
skip_level_one (c ∷ t) h = ground (arith, skip_level_one t h.1)

-- The filter "+/#" selects each topic of one level that does not start with '$', by MQTT 3.1.1
-- section 4.7 (a '#' covers its parent level), and `mqtt_topic_matches` refuses all of them.
pub plus_hash_misses_parent :
    (c : ℕ) (t : Bytes)
    → c ≢ b'$'
    → All (λ x. x ≢ b'/') (c ∷ t)
    → (mqtt_topic_matches (some (b'+' ∷ b'/' ∷ b'#' ∷ [])) (some (c ∷ t)) ≡ false)
      × (filter_matches (b'+' ∷ b'/' ∷ b'#' ∷ []) (c ∷ t) ≡ true)
unfolding mqtt_topic_matches starts match_from str_eq
plus_hash_misses_parent c t d h =
    (ground (arith, skip_level_one (c ∷ t) h), ground (arith, levels_one (c ∷ t) h))

-- A text of one level without wildcards.
abbrev pub IsPlain : Bytes → Type 0
IsPlain p = All (λ c. (c ≢ b'/') × (c ≢ b'+') × (c ≢ b'#')) p

match_from-plain :
    (p f t : Bytes)
    → IsPlain p
    → match_from false (p ++ (b'/' ∷ f)) (p ++ (b'/' ∷ t)) ≡ match_from false f t
unfolding match_from
match_from-plain [] [] t h = ground arith
match_from-plain [] (d ∷ f) t h = ground arith
match_from-plain (c ∷ []) f t h = ground (arith, match_from-plain [] f t tt)
match_from-plain (c ∷ d ∷ p) f t h = ground (arith, match_from-plain (d ∷ p) f t h.1)

levels-plain : (p r : Bytes) → IsPlain p → levels (p ++ (b'/' ∷ r)) ≡ p ∷ levels r
levels-plain [] r h = refl
levels-plain (c ∷ p) r h = ground (arith, levels-plain p r h.1)

str_eq_refl : (s : Bytes) → str_eq s s ≡ true
str_eq_refl s = (str_eq_iff s s).1 refl

-- The filter "p/+" selects the topic "p/", whose last level is empty, by MQTT 3.1.1 section 4.7, and
-- `mqtt_topic_matches` refuses it: for each level `p` without wildcards that does not start with '$'.
pub plus_misses_empty_level :
    (c : ℕ) (p : Bytes)
    → c ≢ b'$'
    → IsPlain (c ∷ p)
    → (mqtt_topic_matches (some (c ∷ p ++ (b'/' ∷ b'+' ∷ []))) (some (c ∷ p ++ (b'/' ∷ [])))
        ≡ false)
      × (filter_matches (c ∷ p ++ (b'/' ∷ b'+' ∷ [])) (c ∷ p ++ (b'/' ∷ [])) ≡ true)
unfolding mqtt_topic_matches starts
plus_misses_empty_level c p d h = (refused, selected)
  where
    at_plus : match_from false (b'+' ∷ []) [] ≡ false
    at_plus = unfold match_from at_end trailing_hash starts is_empty in refl

    refused : match_from (c == b'$') (c ∷ p ++ (b'/' ∷ b'+' ∷ [])) (c ∷ p ++ (b'/' ∷ [])) ≡ false
    refused = ground (arith, match_from-plain (c ∷ p) (b'+' ∷ []) [] h, at_plus)

    selected : filter_matches (c ∷ p ++ (b'/' ∷ b'+' ∷ [])) (c ∷ p ++ (b'/' ∷ [])) ≡ true
    selected =
        unfold str_eq in
        ground (
          arith,
          levels-plain (c ∷ p) (b'+' ∷ []) h,
          levels-plain (c ∷ p) [] h,
          str_eq_refl (c ∷ p),
        )
