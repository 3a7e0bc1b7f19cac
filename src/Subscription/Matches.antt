-- ===== src/Subscription/Matches.antt =====
-- The matching loop computes the match by levels.
use mqtt_viewer.Base.{
  ℕ, Bool, true, false, not, ◌&&◌, List, [], ◌∷◌, some, ◌≡◌, ◌≢◌, ◌⊎◌, refl, arith, ◌==◌,
  if◌then◌else◌, Bytes, str_eq, str_eq_iff, ==_iff, Bool-cases, inl, inr,
}
use mqtt_viewer.Subscription.{
  skip_level, rest, starts, is_empty, at_end, match_from, mqtt_topic_matches,
}
use mqtt_viewer.Subscription.Levels.{
  levels, hash, plus, levels_match, wild, filter_matches, IsFilter, all, one, one_more, plain,
  IsLevel, end, slash, char, NoTrailingSlash,
}

abbrev first : Bytes → Bytes
first [] = []
first (c ∷ s) = if c == b'/' then [] else c ∷ first s

abbrev others : Bytes → List Bytes
others [] = []
others (c ∷ s) = if c == b'/' then levels s else others s

levels_split : (s : Bytes) → levels s ≡ first s ∷ others s
levels_split [] = refl
levels_split (c ∷ s) = ground (arith, levels_split s)

-- `skip_level` stops at the end of the topic, or at the slash behind which the other levels stand;
-- the last of them is not empty.
skip_level-cases :
    (t : Bytes)
    → NoTrailingSlash t
    → ((skip_level t ≡ []) × (others t ≡ []))
      ⊎ ((s : Bytes) × (skip_level t ≡ b'/' ∷ s)
          × (others t ≡ levels s)
          × (s ≢ [])
          × NoTrailingSlash s)
unfolding skip_level
skip_level-cases [] n = inl (refl, refl)
skip_level-cases (x ∷ []) n = inl (ground arith)
skip_level-cases (x ∷ z ∷ t) n = elim (Bool-cases (x == b'/')) [
  | inl h ↦ inr (z ∷ t, ground arith, rw h, (λ r. cc), n)
  | inr h ↦ rw h (skip_level-cases (z ∷ t) n)
]

no_others : (t : Bytes) → levels_match [] (others t) ≡ is_empty (skip_level t)
unfolding skip_level is_empty
no_others [] = refl
no_others (x ∷ t) = ground (arith, levels_split t, no_others t)

-- The first level of what is read within a level holds no wildcard.
IsLevel-first :
    {f : Bytes}
    → IsLevel f
    → (str_eq (first f) hash ≡ false) × (str_eq (first f) plus ≡ false) × (wild f ≡ false)
unfolding str_eq
IsLevel-first end = (refl, refl, refl)
IsLevel-first (slash e w) = ground arith
IsLevel-first (char a b c w) = ground arith

-- Within a level, no guard is asked.
IsLevel-match_from :
    {f : Bytes} (g : Bool) (t : Bytes) → IsLevel f → match_from g f t ≡ match_from false f t
unfolding match_from
IsLevel-match_from g t end = refl
IsLevel-match_from g [] (slash e w) = refl
IsLevel-match_from g (x ∷ t) (slash {f = []} e w) = ground arith
IsLevel-match_from g (x ∷ t) (slash {f = d ∷ f} e w) = ground arith
IsLevel-match_from g [] (char a b c w) = refl
IsLevel-match_from g (x ∷ t) (char {f = []} a b c w) = ground arith
IsLevel-match_from g (x ∷ t) (char {f = d ∷ f} a b c w) = ground arith

-- So its first level is compared as it stands.
levels_match-first :
    {f : Bytes} (t : Bytes)
    → IsLevel f
    → levels_match (levels f) (levels t)
      ≡ (str_eq (first f) (first t) && levels_match (others f) (others t))
levels_match-first {f} t w = ground (arith, levels_split f, levels_split t, IsLevel-first w)

-- A filter that matches with no level of the topic left is "#".
levels_match_nil : (f : Bytes) → levels_match (levels f) [] ≡ str_eq f hash
unfolding str_eq
levels_match_nil [] = refl
levels_match_nil (c ∷ []) = ground arith
levels_match_nil (c ∷ d ∷ f) = ground (arith, levels_split f)

-- The code behind the loop, at the end of the topic.
end_of_topic :
    {f : Bytes} → IsLevel f → at_end f [] ≡ (str_eq (first f) [] && levels_match (others f) [])
unfolding at_end str_eq
end_of_topic end = refl
end_of_topic (slash {f = []} e w) = ground arith
end_of_topic (slash {f = d ∷ []} e w) = ground (arith, levels_match_nil (d ∷ []))
end_of_topic (slash {f = d ∷ z ∷ f} e w) = ground (arith, levels_match_nil (d ∷ z ∷ f))
end_of_topic (char a b c w) = ground arith

-- A first level '+' takes the topic's first level.
plus_level :
    (f : List Bytes) (t : Bytes) → levels_match (plus ∷ f) (levels t) ≡ levels_match f (others t)
unfolding str_eq
plus_level f t = ground (arith, levels_split t)

match_hash :
    (g : Bool) (x : ℕ) (t : Bytes)
    → match_from g hash (x ∷ t) ≡ (not (g && true) && levels_match (hash ∷ []) (levels (x ∷ t)))
unfolding match_from str_eq
match_hash g x t = ground (arith, levels_split (x ∷ t))

match_plain :
    {f : Bytes} (g : Bool) (t : Bytes)
    → IsLevel f
    → match_from false f t ≡ (str_eq (first f) (first t) && levels_match (others f) (others t))
    → match_from g f t ≡ (not (g && wild f) && levels_match (levels f) (levels t))
match_plain g t w i =
    ground (arith, IsLevel-match_from g t w, IsLevel-first w, levels_match-first t w)

match_plus :
    (g : Bool) (x : ℕ) (t : Bytes)
    → match_from g plus (x ∷ t) ≡ (not (g && true) && levels_match (plus ∷ []) (levels (x ∷ t)))
unfolding match_from
match_plus g x t = ground (arith, plus_level [] (x ∷ t), no_others (x ∷ t))

-- The same for a '+' with levels behind it, by where `skip_level` stops.
match_plus_end :
    (g : Bool) (f : Bytes) (x : ℕ) (t : Bytes)
    → f ≢ hash
    → skip_level (x ∷ t) ≡ []
    → others (x ∷ t) ≡ []
    → match_from g (b'+' ∷ b'/' ∷ f) (x ∷ t)
      ≡ (not (g && true) && levels_match (plus ∷ levels f) (levels (x ∷ t)))
unfolding match_from starts
match_plus_end g f x t h s o =
    ground (arith, plus_level (levels f) (x ∷ t), levels_match_nil f, str_eq_iff f hash)

match_plus_more :
    (g : Bool) (f : Bytes) (x : ℕ) (t s : Bytes)
    → skip_level (x ∷ t) ≡ b'/' ∷ s
    → others (x ∷ t) ≡ levels s
    → match_from false f s ≡ levels_match (levels f) (levels s)
    → match_from g (b'+' ∷ b'/' ∷ f) (x ∷ t)
      ≡ (not (g && true) && levels_match (plus ∷ levels f) (levels (x ∷ t)))
unfolding match_from starts rest
match_plus_more g f x t s e o i = ground (arith, plus_level (levels f) (x ∷ t))

-- One character that both have, and one that they do not.
match_char :
    (c x : ℕ) (f t : Bytes)
    → c ≢ b'+'
    → c ≢ b'#'
    → match_from false (c ∷ f) (x ∷ t) ≡ (if c == x then match_from false f t else false)
unfolding match_from
match_char c x [] t p h = ground arith
match_char c x (d ∷ f) t p h = ground arith

match_nil :
    (t : Bytes) → match_from false [] t ≡ (str_eq [] (first t) && levels_match [] (others t))
unfolding match_from at_end starts is_empty str_eq
match_nil [] = refl
match_nil (x ∷ t) = ground (arith, levels_split t)

match_end :
    {f : Bytes}
    → IsLevel f
    → match_from false f [] ≡ (str_eq (first f) [] && levels_match (others f) [])
unfolding match_from
match_end end = end_of_topic end
match_end (slash e w) = end_of_topic (slash e w)
match_end (char a b c w) = end_of_topic (char a b c w)

NoTrailingSlash-tail :
    (x : ℕ) (t : Bytes) → NoTrailingSlash (x ∷ t) → NoTrailingSlash t × (x ≡ b'/' → t ≢ [])
NoTrailingSlash-tail x [] n = (tt, λ e. absurd (n e))
NoTrailingSlash-tail x (y ∷ t) n = (n, λ e q. cc)

-- Within a level, at a slash of the filter, and at another character.
match_slash :
    (x : ℕ) (f t : Bytes)
    → (x ≡ b'/' → match_from false f t ≡ levels_match (levels f) (levels t))
    → match_from false (b'/' ∷ f) (x ∷ t)
      ≡ (str_eq [] (first (x ∷ t)) && levels_match (levels f) (others (x ∷ t)))
unfolding str_eq
match_slash x f t i = elim (Bool-cases (x == b'/')) [
  | inl e ↦ ground (arith, match_char b'/' x f t, i ((==_iff x b'/').0 e))
  | inr e ↦ ground (arith, match_char b'/' x f t)
]

match_letter :
    (c x : ℕ) (f t : Bytes)
    → c ≢ b'/'
    → c ≢ b'+'
    → c ≢ b'#'
    → match_from false f t ≡ (str_eq (first f) (first t) && levels_match (others f) (others t))
    → match_from false (c ∷ f) (x ∷ t)
      ≡ (str_eq (first (c ∷ f)) (first (x ∷ t)) && levels_match (others (c ∷ f)) (others (x ∷ t)))
unfolding str_eq
match_letter c x f t s p h i = ground (arith, match_char c x f t)

mutual
  -- At the start of a level.
  match_filter :
      {f : Bytes} (g : Bool) (t : Bytes)
      → IsFilter f
      → t ≢ []
      → NoTrailingSlash t
      → match_from g f t ≡ (not (g && wild f) && levels_match (levels f) (levels t))
  match_filter g [] w ne n = absurd (ne refl)
  match_filter g (x ∷ t) (all e) ne n = rw e (match_hash g x t)
  match_filter g (x ∷ t) (one e) ne n = rw e (match_plus g x t)
  match_filter g (x ∷ t) (one_more {f = f} c d h w) ne n =
      rw (c, d)
        (elim (skip_level-cases (x ∷ t) n) [
          | inl (s, o) ↦ match_plus_end g f x t h s o
          | inr (s, e, o, ne', n') ↦ match_plus_more g f x t s e o (match_filter false s w ne' n')
        ])
  match_filter g (x ∷ t) (plain w) ne n = match_plain g (x ∷ t) w (match_level (x ∷ t) w n)

  -- Within a level.
  match_level :
      {f : Bytes} (t : Bytes)
      → IsLevel f
      → NoTrailingSlash t
      → match_from false f t ≡ (str_eq (first f) (first t) && levels_match (others f) (others t))
  match_level t end n = match_nil t
  match_level [] (slash e w) n = match_end (slash e w)
  match_level (x ∷ t) (slash {f = f} e w) n =
      let (n', ne) = NoTrailingSlash-tail x t n in
      rw e (match_slash x f t (λ q. match_filter false t w (ne q) n'))
  match_level [] (char a b c w) n = match_end (char a b c w)
  match_level (x ∷ t) (char {c = c} {f = f} a b h w) n =
      match_letter c x f t a b h (match_level t w (NoTrailingSlash-tail x t n).0)

-- For a valid filter with no level '+' before a last level '#', and a topic whose last level is not
-- empty, `mqtt_topic_matches` is the match of MQTT 3.1.1 section 4.7 by levels, with the guard on
-- topics that start with '$'.
pub topic_matches_levels :
    (filter topic : Bytes)
    → IsFilter filter
    → topic ≢ []
    → NoTrailingSlash topic
    → mqtt_topic_matches (some filter) (some topic) ≡ filter_matches filter topic
unfolding mqtt_topic_matches
topic_matches_levels filter [] w ne n = absurd (ne refl)
topic_matches_levels filter (x ∷ t) w ne n = match_filter (x == b'$') (x ∷ t) w ne n
