-- ===== src/Subscription.antt =====
-- src/model/subscription.c: does an MQTT topic match a topic filter?
pub mod Levels
pub mod Matches
pub mod Gaps
use mqtt_viewer.Base.{
  ℕ, Bool, true, false, not, ◌&&◌, List, [], ◌∷◌, Option, none, some, ◌==◌, if◌then◌else◌, Bytes,
}

-- `while (*t != '\0' && *t != '/') t++;`
unfoldable pub skip_level : Bytes → Bytes
skip_level [] = []
skip_level (x ∷ t) = if x == b'/' then x ∷ t else skip_level t

-- `*t == '\0' && *f == '/' && *(f + 1) == '#' && *(f + 2) == '\0'`
unfoldable pub trailing_hash : Bytes → Bytes → Bool
trailing_hash (c ∷ d ∷ []) [] = c == b'/' && d == b'#'
trailing_hash _ _ = false

-- `*s == c`
unfoldable pub starts : ℕ → Bytes → Bool
starts c [] = false
starts c (x ∷ s) = x == c

unfoldable pub is_empty : Bytes → Bool
is_empty [] = true
is_empty (x ∷ s) = false

-- The code behind the loop.
unfoldable pub at_end : Bytes → Bytes → Bool
unfolding trailing_hash starts is_empty
at_end f t =
    if trailing_hash f t then true else if starts b'#' f then true else is_empty f && is_empty t

-- `s + 1`
unfoldable pub rest : Bytes → Bytes
rest [] = []
rest (y ∷ s) = s

-- The loop, on what is left of the filter and of the topic. `guarded` is true where a wildcard is
-- refused: at the start of the filter, for a topic that starts with '$'.
unfoldable pub match_from : Bool → Bytes → Bytes → Bool
match_from guarded [] t = at_end [] t
match_from guarded (c ∷ f) [] = at_end (c ∷ f) []
match_from guarded (c ∷ []) (x ∷ t) =
    if c == b'#'
    then not guarded
    else if c == b'+'
    then (if guarded then false else is_empty (skip_level (x ∷ t)))
    else if c == x
    then at_end [] t
    else false
match_from guarded (c ∷ d ∷ f) (x ∷ t) =
    let after_plus = match_from false f (rest (skip_level (x ∷ t))) in
    let after_char = match_from false (d ∷ f) t in
    if c == b'#'
    then not guarded
    else if c == b'+'
    then (if guarded
        then false
        else if d == b'/' && starts b'/' (skip_level (x ∷ t))
        then after_plus
        else false)
    else if c == x
    then after_char
    else false

unfoldable pub mqtt_topic_matches : Option Bytes → Option Bytes → Bool
unfolding starts
mqtt_topic_matches none topic = false
mqtt_topic_matches (some filter) none = false
mqtt_topic_matches (some filter) (some topic) = match_from (starts b'$' topic) filter topic
