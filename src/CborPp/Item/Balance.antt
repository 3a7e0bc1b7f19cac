-- ===== src/CborPp/Item/Balance.antt =====
-- What an item leaves behind: the depth and the dot path that it found, and a shorter text.
use mqtt_viewer.Base.{
  ==_no, ◌≢◌, false, suc, [], ◌∷◌, some, none, ℕ, zero, suc, ◌+◌, ◌-◌, ◌≤◌, Bool, true, false, ◌||◌,
  [], Option, none, some, ◌≡◌, ◌⊎◌, inl, inr, refl, ap, ◌∙◌, arith, length, take, ltb, leb, ◌==◌,
  if◌then◌else◌, Bytes, Bool-cases,
}
use mqtt_viewer.JsonPp.{
  JsonPp, JsonPpValKind, json_pp_max_depth, json_pp_begin, json_pp_emit, json_pp_path_push,
  json_pp_path_pop, json_pp_mark_trailing_comma,
}
use mqtt_viewer.JsonPp.Format.Bounds.{json_pp_path_pop-push}
use mqtt_viewer.CborPp.{CborHead, Float}
use mqtt_viewer.CborPp.Scalar.{Scalar}
use mqtt_viewer.CborPp.Item.Round.{fails, ends, goes}
use mqtt_viewer.CborPp.Item.{
  Decoder, Tagged, Round, next_round, is_map, opening, closing, closed, opened, popped,
  shown_scalar, run_with, entry_at, entry, entries, segment_of, too_many, decode_container,
  decode_tagged, decode_item, cbor_pp_run,
}

-- Where the decoder's answer is `some`, the formatter has the depth and the dot path of `pp`.
unfoldable pub IsBalanced : JsonPp → Option (Bytes × JsonPp) → Type 0
IsBalanced pp none = Unit
IsBalanced pp (some (s, q)) = (q.depth ≡ pp.depth) × (q.path ≡ pp.path)

-- A decoder that is balanced on every formatter with a dot path of at most 127 bytes.
abbrev pub KeepsBalance : Decoder → Type 0
KeepsBalance format =
    (key s : Bytes) (pp : JsonPp) → length pp.path ≤ 127 → IsBalanced pp (format key s pp)

pub json_pp_emit-depth :
    (pp : JsonPp) (key val : Bytes) (kind : JsonPpValKind) (n : Bool)
    → ((json_pp_emit pp key val kind n).depth ≡ pp.depth)
      × ((json_pp_emit pp key val kind n).path ≡ pp.path)
unfolding json_pp_emit
json_pp_emit-depth pp key val kind n = (ground arith, ground arith)

-- A run with the decoder's answer `o`: the formatter that it leaves, and its own answer.
pub record IsStrict (o : Option (Bytes × JsonPp)) (out : JsonPp × Bool) : Type 0 where
  pub depth : out.0.depth ≡ 0
  pub path : out.0.path ≡ []
  pub taken :
      ((out.1 ≡ true) × (o ≡ some ([], out.0)))
      ⊎ ((out.1 ≡ false) × (out.0.lines ≡ []) × ((q : JsonPp) → o ≢ some ([], q)))

module _ {D : Type 0} (float : Float D) (strtod : Bytes → D × Bytes) (isfinite : D → Bool) where
  shown_scalar-IsBalanced :
      (key : Bytes) (t : Tagged) (pp : JsonPp) (o : Option (Scalar × Bytes))
      → IsBalanced pp (shown_scalar key t pp o)
  unfolding IsBalanced
  shown_scalar-IsBalanced key t pp none = tt
  shown_scalar-IsBalanced key t pp (some (v, s)) = json_pp_emit-depth pp key _ v.kind _

  -- A value pushed and popped.
  popped-IsBalanced :
      (pp q : JsonPp) (mark : ℕ) (o : Option (Bytes × JsonPp))
      → length pp.path ≤ 127
      → json_pp_path_pop q mark ≡ pp
      → IsBalanced q o
      → IsBalanced pp (popped mark o)
  unfolding IsBalanced json_pp_path_pop
  popped-IsBalanced pp q mark none h e b = tt
  popped-IsBalanced pp q mark (some (s, r)) h e (d, p) =
      (d ∙ ap (λ x. x.depth) e, ap (take mark) p ∙ ap (λ x. x.path) e)

  entry_at-IsBalanced :
      (format : Decoder) (h : CborHead) (pp : JsonPp) (o : Option (Bytes × Bytes))
      → KeepsBalance format
      → length pp.path ≤ 127
      → IsBalanced pp (entry_at float strtod isfinite format h pp o)
  unfolding IsBalanced
  entry_at-IsBalanced format h pp none f l = tt
  entry_at-IsBalanced format h pp (some (seg, s)) f l =
      let pushed = (json_pp_path_push pp seg).0 in
      let b = json_pp_path_pop-push pp seg l in
      popped-IsBalanced pp pushed (json_pp_path_push pp seg).1 _ l b.0
        (f (if is_map h then seg else []) s pushed b.1)

  pub mark_comma-kept :
      (pp : JsonPp) (i : ℕ)
      → let q = if ltb 0 i then json_pp_mark_trailing_comma pp else pp in
        (q.depth ≡ pp.depth) × (q.path ≡ pp.path)
  unfolding json_pp_mark_trailing_comma
  mark_comma-kept pp i = elim (Bool-cases (ltb 0 i)) [
    | inl e ↦ simp e (refl, refl)
    | inr e ↦ simp e (refl, refl)
  ]

  rebalanced :
      (pp q : JsonPp) (o : Option (Bytes × JsonPp))
      → q.depth ≡ pp.depth
      → q.path ≡ pp.path
      → IsBalanced q o
      → IsBalanced pp o
  unfolding IsBalanced
  rebalanced pp q none d p b = tt
  rebalanced pp q (some (s, r)) d p (d', p') = (d' ∙ d, p' ∙ p)

  pub entry-IsBalanced :
      (format : Decoder) (h : CborHead) (i : ℕ) (s : Bytes) (pp : JsonPp)
      → KeepsBalance format
      → length pp.path ≤ 127
      → IsBalanced pp (entry float strtod isfinite format h i s pp)
  unfolding entry
  entry-IsBalanced format h i s pp f l =
      let q = if ltb 0 i then json_pp_mark_trailing_comma pp else pp in
      let k = mark_comma-kept pp i in
      rebalanced pp q _ k.0 k.1 (
        entry_at-IsBalanced format h q (segment_of float strtod isfinite h i s) f
          (omega (arith, l, ap length k.1)))

  entries-IsBalanced :
      (format : Decoder) (h : CborHead) (rounds i : ℕ) (s : Bytes) (pp : JsonPp)
      → KeepsBalance format
      → length pp.path ≤ 127
      → IsBalanced pp (entries float strtod isfinite format h rounds i s pp)
  unfolding entries IsBalanced
  entries-IsBalanced format h zero i s pp f l = tt
  entries-IsBalanced format h (suc rounds) i s pp f l =
      by_round (λ r q k. entries-IsBalanced format h rounds (i + 1) r q f k) (next_round h i s)
    where
      by_entry :
          (again : (r : Bytes) (q : JsonPp)
            → length q.path ≤ 127
            → IsBalanced q (entries float strtod isfinite format h rounds (i + 1) r q))
          → (o : Option (Bytes × JsonPp)) → IsBalanced pp o
          → IsBalanced pp (elim o [
            | none ↦ none
            | some (r, q) ↦ entries float strtod isfinite format h rounds (i + 1) r q
          ])
      by_entry again none b = tt
      by_entry again (some (r, q)) (d, p) =
          rebalanced pp q _ d p (again r q (omega (arith, l, ap length p)))

      by_round :
          (again : (r : Bytes) (q : JsonPp)
            → length q.path ≤ 127
            → IsBalanced q (entries float strtod isfinite format h rounds (i + 1) r q))
          → (n : Round)
          → IsBalanced pp (elim n [
            | fails ↦ none
            | ends r ↦ some (r, pp)
            | goes ↦ elim (entry float strtod isfinite format h i s pp) [
              | none ↦ none
              | some (r, q) ↦ entries float strtod isfinite format h rounds (i + 1) r q
            ]
          ])
      by_round again fails = tt
      by_round again (ends r) = (refl, refl)
      by_round again goes =
          by_entry again (entry float strtod isfinite format h i s pp)
            (entry-IsBalanced format h i s pp f l)

  closed-IsBalanced :
      (h : CborHead) (key prefix : Bytes) (tags : ℕ) (pp : JsonPp) (o : Option (Bytes × JsonPp))
      → IsBalanced (opened h key prefix pp) o
      → IsBalanced pp (closed h tags o)
  unfolding IsBalanced
  closed-IsBalanced h key prefix tags pp none b = tt
  closed-IsBalanced h key prefix tags pp (some (s, q)) (d, p) =
      let shut =
        json_pp_emit-depth (record q { depth = q.depth - 1 }) [] (closing h tags)
          JsonPpValKind.punct false in
      let shown = json_pp_emit-depth pp key (opening h prefix) JsonPpValKind.punct false in
      (omega (arith, shut.0, shown.0, d), shut.1 ∙ p ∙ shown.1)

  decode_tagged-IsBalanced :
      (format : Decoder) (key : Bytes) (pp : JsonPp) (o : Option Tagged)
      → KeepsBalance format
      → length pp.path ≤ 127
      → IsBalanced pp (decode_tagged float strtod isfinite format key pp o)
  unfolding decode_tagged decode_container IsBalanced
  decode_tagged-IsBalanced format key pp none f l = tt
  decode_tagged-IsBalanced format key pp (some t) f l =
      elim (Bool-cases (t.head.major == 4 || t.head.major == 5)) [
        | inl e ↦ simp e contained
        | inr e ↦ simp e (shown_scalar-IsBalanced key t pp _)
      ]
    where
      contained : IsBalanced pp (decode_container float strtod isfinite format key t pp)
      contained =
          let shown =
            json_pp_emit-depth pp key (opening t.head t.prefix) JsonPpValKind.punct false in
          elim (Bool-cases (leb json_pp_max_depth (pp.depth + 1))) [
            | inl e ↦ simp e tt
            | inr e ↦ simp e (elim (Bool-cases (too_many t.head t.rest)) [
              | inl e' ↦ simp e' tt
              | inr e' ↦ simp e' (
                  closed-IsBalanced t.head key t.prefix t.tags pp _ (
                    entries-IsBalanced format t.head (length t.rest + 1) 0 t.rest
                      (opened t.head key t.prefix pp) f (omega (arith, l, ap length shown.1))))
            ])
          ]

  -- An item that is decoded leaves the formatter at the depth and with the dot path that it found,
  -- however deep its containers, where the dot path had at most 127 bytes.
  pub decode_item-IsBalanced :
      (nesting : ℕ) (key s : Bytes) (pp : JsonPp)
      → length pp.path ≤ 127
      → IsBalanced pp (decode_item float strtod isfinite nesting key s pp)
  unfolding decode_item IsBalanced
  decode_item-IsBalanced zero key s pp l = tt
  decode_item-IsBalanced (suc nesting) key s pp l =
      decode_tagged-IsBalanced (decode_item float strtod isfinite nesting) key pp _
        (decode_item-IsBalanced nesting) l

  run_with-IsStrict :
      (pp begun : JsonPp) (o : Option (Bytes × JsonPp))
      → IsBalanced (json_pp_begin begun) o
      → IsStrict o (run_with pp o)
  unfolding run_with json_pp_begin IsBalanced
  run_with-IsStrict pp begun none b = record {
    depth = refl;
    path = refl;
    taken = inr (refl, refl, λ q e. cc);
  }
  run_with-IsStrict pp begun (some ([], q)) (d, p) = record {
    depth = d;
    path = p;
    taken = inl (refl, refl);
  }
  run_with-IsStrict pp begun (some (c ∷ s, q)) (d, p) =
      rw (==_no (suc (length s)) 0 (omega arith))
        (record { depth = refl; path = refl; taken = inr (refl, refl, λ q e. cc) })

  -- Each run leaves depth 0 and an empty dot path. It answers true exactly if the decoder, from the
  -- cleared formatter, takes the payload whole, and then leaves the decoder's lines; else it leaves no
  -- line, whatever formatter a decoder that failed left.
  pub cbor_pp_run-IsStrict :
      (pp : JsonPp) (src : Bytes)
      → let o = decode_item float strtod isfinite 64 [] src (json_pp_begin pp) in
        IsStrict o (cbor_pp_run float strtod isfinite pp src)
        × ((left : JsonPp) → IsStrict none (run_with left none))
  unfolding cbor_pp_run
  cbor_pp_run-IsStrict pp src = (
    run_with-IsStrict (json_pp_begin pp) pp
        (decode_item float strtod isfinite 64 [] src (json_pp_begin pp))
        (decode_item-IsBalanced 64 [] src (json_pp_begin pp) (unfold json_pp_begin in omega arith)),
    λ left. run_with-IsStrict left pp none (unfold IsBalanced in tt),
  )
