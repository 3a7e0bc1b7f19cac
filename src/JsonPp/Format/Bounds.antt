-- ===== src/JsonPp/Format/Bounds.antt =====
-- The bounds of the formatter: its lines, its dot path, and the rounds of its loops.
use mqtt_viewer.Base.{
  ℕ, zero, suc, ◌≤◌, ◌<◌, true, false, [], ◌∷◌, ◌++◌, ◌≡◌, refl, ap, inl, inr, arith, length,
  length-append, length-drop, take, drop, ltb, if◌then◌else◌, Bytes, Bool-cases, take_all,
}
use mqtt_viewer.JsonPp.{
  JsonPp, json_pp_path_push, json_pp_path_pop, json_pp_mark_trailing_comma, skip_ws, string_end,
  scan_string, skip_char, read_key,
}
use mqtt_viewer.JsonPp.Format.{after_value, make_progress, member, members, goes_on}

take-append : (xs ys : Bytes) → take (length xs) (xs ++ ys) ≡ xs
take-append [] ys = refl
take-append (x ∷ xs) ys = ap (◌∷◌ x) (take-append xs ys)

-- A pop with the mark of a push undoes it, and a dot path of at most 127 bytes stays as short.
pub json_pp_path_pop-push :
    (pp : JsonPp) (seg : Bytes)
    → length pp.path ≤ 127
    → let (pushed, mark) = json_pp_path_push pp seg in
      (json_pp_path_pop pushed mark ≡ pp) × (length pushed.path ≤ 127)
unfolding json_pp_path_push json_pp_path_pop
json_pp_path_pop-push pp seg h = (undone, short)
  where
    same : (record pp { path = take (length pp.path) pp.path }) ≡ pp
    same = ap (λ p. record pp { path = p }) (take_all (length pp.path) pp.path (omega arith))

    undone : json_pp_path_pop (json_pp_path_push pp seg).0 (json_pp_path_push pp seg).1 ≡ pp
    undone =
        unfold json_pp_path_push json_pp_path_pop in
        ground (
          arith,
          same,
          take-append pp.path ((if ltb 0 (length pp.path) then b'.' ∷ [] else []) ++ seg),
        )

    short : length (json_pp_path_push pp seg).0.path ≤ 127
    short =
        unfold json_pp_path_push in
        ground (arith, length-append pp.path (b'.' ∷ seg), length-append pp.path seg, h)

skip_ws-length : (s : Bytes) → length (skip_ws s) ≤ length s
unfolding skip_ws
skip_ws-length [] = omega arith
skip_ws-length (c ∷ s) = ground (arith, skip_ws-length s)

skip_char-length : (c : ℕ) (s : Bytes) → length (skip_char c s) ≤ length s
unfolding skip_char
skip_char-length c [] = omega arith
skip_char-length c (x ∷ s) = ground arith

string_end-length : (s : Bytes) → length (string_end s) ≤ length s
unfolding string_end
string_end-length [] = omega arith
string_end-length (c ∷ []) = omega arith
string_end-length (c ∷ d ∷ s) = ground (arith, string_end-length s, string_end-length (d ∷ s))

read_key-length : (s : Bytes) → length (read_key s).1 ≤ length s
unfolding read_key scan_string
read_key-length s = ground (arith, string_end-length (drop 1 s), length-drop 1 s)

-- What `format_value` is in the loops: it never moves the cursor back.
abbrev pub Forward : (Bytes → JsonPp → JsonPp) → Type 0
Forward format = (key : Bytes) (pp : JsonPp) → length (format key pp).rest ≤ length pp.rest

-- One round reads a byte at least, where one is left.
after_value-length : (mark : ℕ) (pp : JsonPp) → length (after_value mark pp).rest ≤ length pp.rest
unfolding json_pp_path_pop json_pp_mark_trailing_comma
after_value-length mark pp = ground (
  arith,
  skip_ws-length pp.rest,
  skip_ws-length (skip_ws pp.rest),
  skip_ws-length (drop 1 (skip_ws pp.rest)),
  length-drop 1 (skip_ws pp.rest),
)

path_push-rest : (pp : JsonPp) (seg : Bytes) → (json_pp_path_push pp seg).0.rest ≡ pp.rest
unfolding json_pp_path_push
path_push-rest pp seg = ground arith

make_progress-length :
    (before : Bytes) (pp : JsonPp) (n : ℕ)
    → length pp.rest ≤ length before
    → length before ≤ n
    → 0 < n
    → length (make_progress before pp).rest < n
make_progress-length before pp n h k p = ground (arith, length-drop 1 pp.rest)

member-length :
    (format : Bytes → JsonPp → JsonPp) (pp : JsonPp)
    → Forward format
    → 0 < length pp.rest
    → length (member format pp).rest < length pp.rest
unfolding member
member-length format pp f h =
    let end = (read_key pp.rest).1 in
    let r = skip_ws (skip_char b':' (skip_ws end)) in
    let key = (read_key pp.rest).0 in
    let p = record pp { rest = r } in
    let pushed = (json_pp_path_push p key).0 in
    omega (
      arith,
      after_value-length (json_pp_path_push p key).1 (make_progress r (format key pushed)),
      make_progress-length r (format key pushed) (length pp.rest)
          (omega (arith, f key pushed, ap length (path_push-rest p key)))
          (omega (
            arith,
            skip_ws-length (skip_char b':' (skip_ws end)),
            skip_char-length b':' (skip_ws end),
            skip_ws-length end,
            read_key-length pp.rest,
          ))
          h,
    )

goes_on-some : (c : ℕ) (pp : JsonPp) → goes_on c pp ≡ true → 0 < length pp.rest
unfolding goes_on
goes_on-some c pp e = ground arith

goes_on-none : (c : ℕ) (pp : JsonPp) → length pp.rest ≤ 0 → goes_on c pp ≡ false
unfolding goes_on
goes_on-none c pp h = ground arith

-- One round of the loop of `format_object_contents`.
module _ (format : Bytes → JsonPp → JsonPp) (rounds : ℕ) (pp : JsonPp) where
  members-done : goes_on b'}' pp ≡ false → members format (suc rounds) pp ≡ pp
  unfolding members
  members-done e = ground arith

  members-last :
      goes_on b'}' pp ≡ true
      → goes_on b'}' (record pp { rest = skip_ws pp.rest }) ≡ false
      → members format (suc rounds) pp ≡ record pp { rest = skip_ws pp.rest }
  unfolding members
  members-last e q = ground arith

  members-round :
      goes_on b'}' pp ≡ true
      → goes_on b'}' (record pp { rest = skip_ws pp.rest }) ≡ true
      → members format (suc rounds) pp
        ≡ members format rounds (member format (record pp { rest = skip_ws pp.rest }))
  unfolding members
  members-round e q = ground arith

-- As many rounds as bytes are left are enough for the loop over an object's members: it ends, at the
-- end of the text, at the closing brace or with all lines used, for each way of formatting a value
-- that does not move the cursor back.
pub members-end :
    (format : Bytes → JsonPp → JsonPp) (rounds : ℕ) (pp : JsonPp)
    → Forward format
    → length pp.rest ≤ rounds
    → goes_on b'}' (members format rounds pp) ≡ false
members-end format zero pp f h = unfold members in goes_on-none b'}' pp h
members-end format (suc rounds) pp f h =
    let p = record pp { rest = skip_ws pp.rest } in
    elim (Bool-cases (goes_on b'}' pp)) [
      | inr e ↦ rw (members-done format rounds pp e) e
      | inl e ↦ elim (Bool-cases (goes_on b'}' p)) [
        | inr q ↦ rw (members-last format rounds pp e q) q
        | inl q ↦ rw (members-round format rounds pp e q) (
            members-end format rounds (member format p) f (
              omega (
                arith,
                h,
                skip_ws-length pp.rest,
                member-length format p f (goes_on-some b'}' p q),
              )))
      ]
    ]
