-- ===== src/Db/JsonText.antt =====
-- `append_json_string` writes what the formatter's `json_pp_line_string` reads back.
use mqtt_viewer.Base.{
  ℕ, zero, suc, ◌+◌, ◌-◌, ◌*◌, ◌≤◌, ◌<◌, true, [], ◌∷◌, ◌++◌, append_assoc, append-nil, Option,
  none, some, ◌≡◌, ◌≢◌, inl, inr, refl, sym, ap, ◌∙◌, arith, length, length-append, take, drop, ltb,
  Bytes, Bool-cases,
}
use mqtt_viewer.JsonPp.{JsonPpLine, JsonPpValKind, last_is}
use mqtt_viewer.JsonPp.Unescape.{unescape, escaped, between_quotes, json_pp_line_string}
use mqtt_viewer.Db.{json_letter, json_byte, json_chars, put_char, append_json_string}

-- A text with its escapes.
abbrev pub json_text : Bytes → Bytes
json_text [] = []
json_text (c ∷ s) = json_byte c ++ json_text s

json_byte-length : (c : ℕ) → length (json_byte c) ≤ 2
unfolding json_letter
json_byte-length c = grind arith

json_chars-fits :
    (limit : ℕ) (s out : Bytes)
    → length out + 2 * length s + 1 ≤ limit
    → json_chars limit out s ≡ out ++ json_text s
unfolding json_chars
json_chars-fits limit [] out h = sym (append-nil out)
json_chars-fits limit (c ∷ s) out h = elim (Bool-cases (ltb (length out + 2) limit)) [
  | inl e ↦ simp e (
      json_chars-fits limit s (out ++ json_byte c)
        (omega (arith, h, length-append out (json_byte c), json_byte-length c))
      ∙ append_assoc out (json_byte c) (json_text s))
  | inr e ↦ absurd (ground arith)
]

put_fits :
    (limit : ℕ) (out : Bytes) (c : ℕ) → length out < limit → put_char limit out c ≡ out ++ (c ∷ [])
put_fits limit out c h = ground arith

unescape_byte :
    (c : ℕ) (t : Bytes) (room : ℕ) → c ≢ b'\\' → unescape (suc room) (c ∷ t) ≡ c ∷ unescape room t
unfolding unescape
unescape_byte c [] zero h = refl
unescape_byte c [] (suc room) h = refl
unescape_byte c (d ∷ t) room h = ground arith

unescape_letter :
    (c e : ℕ) (t : Bytes) (room : ℕ)
    → escaped e ≡ some c
    → unescape (suc room) (b'\\' ∷ e ∷ t) ≡ c ∷ unescape room t
unfolding unescape
unescape_letter c e t room h =
    ap
      (λ o. elim o as (λ _. Bytes) [
        | some x ↦ x ∷ unescape room t
        | none ↦ elim room [ zero ↦ b'\\' ∷ b'\\' ∷ [] | suc left ↦ b'\\' ∷ e ∷ unescape left t ]
      ])
      h

letter-escaped : (c e : ℕ) → json_letter c ≡ some e → escaped e ≡ some c
unfolding json_letter escaped
letter-escaped c e h = ground arith

no_letter : (c : ℕ) → json_letter c ≡ none → c ≢ b'\\'
unfolding json_letter
no_letter c h = ground arith

unescape-json_text : (room : ℕ) (s : Bytes) → length s ≤ room → unescape room (json_text s) ≡ s
unescape-json_text zero [] h = unfold unescape in refl
unescape-json_text (suc room) [] h = unfold unescape in refl
unescape-json_text zero (c ∷ s) h = absurd (omega arith)
unescape-json_text (suc room) (c ∷ s) h =
    by_letter (json_letter c) refl ∙ ap (◌∷◌ c) (unescape-json_text room s (omega arith))
  where
    by_letter :
        (o : Option ℕ)
        → json_letter c ≡ o
        → unescape (suc room) ((elim o [ none ↦ c ∷ [] | some e ↦ b'\\' ∷ e ∷ [] ]) ++ json_text s)
          ≡ c ∷ unescape room (json_text s)
    by_letter none e = unescape_byte c (json_text s) room (no_letter c e)
    by_letter (some l) e = unescape_letter c l (json_text s) room (letter-escaped c l e)

last_is-quote : (s : Bytes) → last_is b'"' (s ++ (b'"' ∷ [])) ≡ true
unfolding last_is
last_is-quote [] = refl
last_is-quote (c ∷ []) = refl
last_is-quote (c ∷ d ∷ s) = last_is-quote (d ∷ s)

take_front : (s : Bytes) → take (length s) (s ++ (b'"' ∷ [])) ≡ s
take_front [] = refl
take_front (c ∷ s) = ap (◌∷◌ c) (take_front s)

between_quotes-closed :
    (t : Bytes)
    → 2 ≤ length t
    → last_is b'"' t ≡ true
    → between_quotes t ≡ drop 1 (take (length t - 1) t)
unfolding between_quotes
between_quotes-closed t h e = ground arith

-- The quotes are taken off again.
between_quotes-quoted : (s : Bytes) → between_quotes (b'"' ∷ s ++ (b'"' ∷ [])) ≡ s
between_quotes-quoted s =
    let t = b'"' ∷ s ++ (b'"' ∷ []) in
    let long = length-append s (b'"' ∷ []) in
    between_quotes-closed t (omega (arith, long)) (last_is-quote (b'"' ∷ s))
    ∙ ap (λ n. drop 1 (take n t)) (front long)
    ∙ ap (drop 1) (take_front (b'"' ∷ s))
  where
    front :
        length (s ++ (b'"' ∷ [])) ≡ length s + 1
        → suc (length (s ++ (b'"' ∷ []))) - 1 ≡ suc (length s)
    front e = omega (arith, e)

json_text-length : (s : Bytes) → length (json_text s) ≤ 2 * length s
json_text-length [] = omega arith
json_text-length (c ∷ s) =
    omega (arith, json_text-length s, json_byte-length c, length-append (json_byte c) (json_text s))

-- With room for two bytes each and the quotes, the whole text is written.
append_json_string-whole :
    (limit : ℕ) (src : Bytes)
    → 2 * length src + 2 ≤ limit
    → append_json_string limit [] src ≡ b'"' ∷ json_text src ++ (b'"' ∷ [])
unfolding append_json_string
append_json_string-whole limit src h =
    ap (λ o. put_char limit (json_chars limit o src) b'"')
      (put_fits limit [] b'"' (omega (arith, h)))
    ∙ ap (λ o. put_char limit o b'"') (json_chars-fits limit src (b'"' ∷ []) (omega (arith, h)))
    ∙ put_fits limit (b'"' ∷ json_text src) b'"' (omega (arith, h, json_text-length src))

-- A string line whose text `append_json_string` wrote, with room for two bytes each and the quotes, is
-- read back by `json_pp_line_string`, where its array has a byte more than the text at least.
pub append_json_string_reads :
    (line : JsonPpLine) (limit room : ℕ) (src : Bytes)
    → line.val_kind ≡ JsonPpValKind.string
    → line.val ≡ append_json_string limit [] src
    → 2 * length src + 2 ≤ limit
    → length src ≤ room
    → json_pp_line_string (some line) (suc room) ≡ some src
unfolding append_json_string json_pp_line_string
append_json_string_reads line limit room src k v h l =
    written line.val_kind k
    ∙ ap (λ t. some (unescape room (between_quotes t))) (v ∙ append_json_string-whole limit src h)
    ∙ ap (λ t. some (unescape room t)) (between_quotes-quoted (json_text src))
    ∙ ap some (unescape-json_text room src l)
  where
    written :
        (kind : JsonPpValKind)
        → kind ≡ JsonPpValKind.string
        → json_pp_line_string (some (record line { val_kind = kind })) (suc room)
          ≡ some (unescape room (between_quotes line.val))
    written kind e =
        ap (λ k. json_pp_line_string (some (record line { val_kind = k })) (suc room)) e
