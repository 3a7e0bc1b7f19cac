-- ===== src/Subscription/Levels.antt =====
-- Topic filters by levels, as MQTT 3.1.1 section 4.7 describes them.
use mqtt_viewer.Base.{
  ℕ, Bool, true, false, not, ◌&&◌, ◌||◌, List, [], ◌∷◌, ◌≡◌, ◌≢◌, ◌==◌, if◌then◌else◌, Bytes,
  str_eq,
}

abbrev pub grow : ℕ → List Bytes → List Bytes
grow c [] = (c ∷ []) ∷ []
grow c (l ∷ ls) = (c ∷ l) ∷ ls

-- The levels of a topic or filter: what stands between its slashes.
abbrev pub levels : Bytes → List Bytes
levels [] = [] ∷ []
levels (c ∷ cs) = if c == b'/' then [] ∷ levels cs else grow c (levels cs)

abbrev pub hash : Bytes
hash = b'#' ∷ []

abbrev pub plus : Bytes
plus = b'+' ∷ []

abbrev pub is_nil : List Bytes → Bool
is_nil [] = true
is_nil (l ∷ ls) = false

-- '+' matches one level; '#' matches the rest, the parent level included.
abbrev pub levels_match : List Bytes → List Bytes → Bool
levels_match [] [] = true
levels_match [] (t ∷ ts) = false
levels_match (f ∷ fs) [] = str_eq f hash && is_nil fs
levels_match (f ∷ fs) (t ∷ ts) =
    if str_eq f hash && is_nil fs then true else (str_eq f plus || str_eq f t) && levels_match fs ts

-- A wildcard in the first level does not match a topic that starts with '$'.
abbrev pub wild : Bytes → Bool
wild [] = false
wild (c ∷ f) = c == b'#' || c == b'+'

abbrev pub is_system : Bytes → Bool
is_system [] = false
is_system (c ∷ t) = c == b'$'

abbrev pub filter_matches : Bytes → Bytes → Bool
filter_matches filter topic =
    not (is_system topic && wild filter) && levels_match (levels filter) (levels topic)

-- A valid filter, read from the start of a level and from within one: each wildcard stands alone in
-- its level, and '#' comes last. A '+' is not followed by a last level '#'.
mutual
  pub data IsFilter : Bytes → Type 0 where
    all : {f : Bytes} → f ≡ hash → IsFilter f
    one : {f : Bytes} → f ≡ plus → IsFilter f
    one_more :
        {c d : ℕ} {f : Bytes} → c ≡ b'+' → d ≡ b'/' → f ≢ hash → IsFilter f → IsFilter (c ∷ d ∷ f)
    plain : {f : Bytes} → IsLevel f → IsFilter f

  pub data IsLevel : Bytes → Type 0 where
    end : IsLevel []
    slash : {c : ℕ} {f : Bytes} → c ≡ b'/' → IsFilter f → IsLevel (c ∷ f)
    char : {c : ℕ} {f : Bytes} → c ≢ b'/' → c ≢ b'+' → c ≢ b'#' → IsLevel f → IsLevel (c ∷ f)

-- The last level is not empty.
abbrev pub NoTrailingSlash : Bytes → Type 0
NoTrailingSlash [] = Unit {0}
NoTrailingSlash (x ∷ []) = x ≢ b'/'
NoTrailingSlash (x ∷ y ∷ t) = NoTrailingSlash (y ∷ t)
