-- ===== src/CborPp/Item/Enough.antt =====
-- The rounds and the nesting that the decoder is given are enough.
use mqtt_viewer.Base.{
  ℕ, zero, suc, ◌+◌, ◌≤◌, ◌<◌, Bool, false, ◌||◌, [], Option, none, some, ◌≡◌, inl, inr, refl, ap,
  ◌∙◌, arith, length, leb, ◌==◌, if◌then◌else◌, Bytes, Bool-cases,
}
use mqtt_viewer.JsonPp.{JsonPp, JsonPpValKind, json_pp_path_push}
use mqtt_viewer.JsonPp.Format.Bounds.{json_pp_path_pop-push}
use mqtt_viewer.CborPp.{CborHead, Float}
use mqtt_viewer.CborPp.Scalar.{format_scalar}
use mqtt_viewer.CborPp.Item.{
  shown_scalar, Decoder, Tagged, Round, next_round, is_map, opening, closed, opened, popped,
  entry_at, entry, entries, segment_of, too_many, decode_container, decode_tagged, decode_item,
}
use mqtt_viewer.CborPp.Item.Round.{fails, ends, goes}
use mqtt_viewer.CborPp.Item.Forward.{IsForward, MovesOn, entry-IsForward}
use mqtt_viewer.CborPp.Item.Balance.{
  IsBalanced, KeepsBalance, mark_comma-kept, json_pp_emit-depth, entry-IsBalanced,
  decode_item-IsBalanced,
}

module _ {D : Type 0} (float : Float D) (strtod : Bytes → D × Bytes) (isfinite : D → Bool) where
  -- One round more than bytes are left is enough for the loop over a container's entries: any more
  -- rounds give the same, for each way of decoding a value that moves the cursor on.
  pub entries-enough :
      (format : Decoder) (h : CborHead) (n rounds i : ℕ) (s : Bytes) (pp : JsonPp)
      → MovesOn float strtod isfinite format
      → length s < rounds
      → rounds ≤ n
      → entries float strtod isfinite format h n i s pp
        ≡ entries float strtod isfinite format h rounds i s pp
  unfolding entries IsForward
  entries-enough format h n zero i s pp f l m = absurd (omega arith)
  entries-enough format h zero (suc rounds) i s pp f l m = absurd (omega arith)
  entries-enough format h (suc n) (suc rounds) i s pp f l m =
      by_round
        (λ r q k.
          entries-enough format h n rounds (i + 1) r q f (omega (arith, k, l)) (omega (arith, m)))
        (next_round h i s)
    where
      by_entry :
          (again : (r : Bytes) (q : JsonPp)
            → length r < length s
            → entries float strtod isfinite format h n (i + 1) r q
              ≡ entries float strtod isfinite format h rounds (i + 1) r q)
          (o : Option (Bytes × JsonPp))
          → IsForward float strtod isfinite (length s) o
          → (elim o as (λ _. Option (Bytes × JsonPp)) [
            | none ↦ none
            | some (r, q) ↦ entries float strtod isfinite format h n (i + 1) r q
          ])
            ≡ (elim o as (λ _. Option (Bytes × JsonPp)) [
              | none ↦ none
              | some (r, q) ↦ entries float strtod isfinite format h rounds (i + 1) r q
            ])
      by_entry again none k = refl
      by_entry again (some (r, q)) k = again r q k

      by_round :
          (again : (r : Bytes) (q : JsonPp)
            → length r < length s
            → entries float strtod isfinite format h n (i + 1) r q
              ≡ entries float strtod isfinite format h rounds (i + 1) r q)
          (o : Round)
          → (elim o as (λ _. Option (Bytes × JsonPp)) [
            | fails ↦ none
            | ends r ↦ some (r, pp)
            | goes ↦ elim (entry float strtod isfinite format h i s pp) [
              | none ↦ none
              | some (r, q) ↦ entries float strtod isfinite format h n (i + 1) r q
            ]
          ])
            ≡ (elim o as (λ _. Option (Bytes × JsonPp)) [
              | fails ↦ none
              | ends r ↦ some (r, pp)
              | goes ↦ elim (entry float strtod isfinite format h i s pp) [
                | none ↦ none
                | some (r, q) ↦ entries float strtod isfinite format h rounds (i + 1) r q
              ]
            ])
      by_round again fails = refl
      by_round again (ends r) = refl
      by_round again goes =
          by_entry again (entry float strtod isfinite format h i s pp)
            (entry-IsForward float strtod isfinite format h i s pp f)

  -- Two decoders that agree at a depth.
  abbrev SameAt : ℕ → Decoder → Decoder → Type 0
  SameAt d f g =
      (key s : Bytes) (pp : JsonPp) → pp.depth ≡ d → length pp.path ≤ 127 → f key s pp ≡ g key s pp

  path_push-depth : (pp : JsonPp) (seg : Bytes) → (json_pp_path_push pp seg).0.depth ≡ pp.depth
  unfolding json_pp_path_push
  path_push-depth pp seg = ground arith

  entry_at-same :
      (d : ℕ) (f g : Decoder) (h : CborHead) (pp : JsonPp) (o : Option (Bytes × Bytes))
      → SameAt d f g
      → pp.depth ≡ d
      → length pp.path ≤ 127
      → entry_at float strtod isfinite f h pp o ≡ entry_at float strtod isfinite g h pp o
  entry_at-same d f g h pp none e k l = refl
  entry_at-same d f g h pp (some (seg, s)) e k l =
      let (pushed, mark) = json_pp_path_push pp seg in
      ap (popped mark) (
        e (if is_map h then seg else []) s pushed (path_push-depth pp seg ∙ k)
          (json_pp_path_pop-push pp seg l).1)

  entry-same :
      (d : ℕ) (f g : Decoder) (h : CborHead) (i : ℕ) (s : Bytes) (pp : JsonPp)
      → SameAt d f g
      → pp.depth ≡ d
      → length pp.path ≤ 127
      → entry float strtod isfinite f h i s pp ≡ entry float strtod isfinite g h i s pp
  unfolding entry
  entry-same d f g h i s pp e k l =
      let kept = mark_comma-kept float strtod isfinite pp i in
      entry_at-same d f g h _ (segment_of float strtod isfinite h i s) e (kept.0 ∙ k)
        (omega (arith, l, ap length kept.1))

  entries-same :
      (d : ℕ) (f g : Decoder) (h : CborHead) (rounds i : ℕ) (s : Bytes) (pp : JsonPp)
      → SameAt d f g
      → KeepsBalance f
      → pp.depth ≡ d
      → length pp.path ≤ 127
      → entries float strtod isfinite f h rounds i s pp
        ≡ entries float strtod isfinite g h rounds i s pp
  unfolding entries IsBalanced
  entries-same d f g h zero i s pp e b k l = refl
  entries-same d f g h (suc rounds) i s pp e b k l =
      by_round (λ r q k' l'. entries-same d f g h rounds (i + 1) r q e b k' l') (next_round h i s)
    where
      by_entry :
          (again : (r : Bytes) (q : JsonPp)
            → q.depth ≡ d
            → length q.path ≤ 127
            → entries float strtod isfinite f h rounds (i + 1) r q
              ≡ entries float strtod isfinite g h rounds (i + 1) r q)
          (o : Option (Bytes × JsonPp))
          → IsBalanced pp o
          → (elim o as (λ _. Option (Bytes × JsonPp)) [
            | none ↦ none
            | some (r, q) ↦ entries float strtod isfinite f h rounds (i + 1) r q
          ])
            ≡ (elim o as (λ _. Option (Bytes × JsonPp)) [
              | none ↦ none
              | some (r, q) ↦ entries float strtod isfinite g h rounds (i + 1) r q
            ])
      by_entry again none m = refl
      by_entry again (some (r, q)) (m, p) = again r q (m ∙ k) (omega (arith, l, ap length p))

      by_round :
          (again : (r : Bytes) (q : JsonPp)
            → q.depth ≡ d
            → length q.path ≤ 127
            → entries float strtod isfinite f h rounds (i + 1) r q
              ≡ entries float strtod isfinite g h rounds (i + 1) r q)
          (o : Round)
          → (elim o as (λ _. Option (Bytes × JsonPp)) [
            | fails ↦ none
            | ends r ↦ some (r, pp)
            | goes ↦ elim (entry float strtod isfinite f h i s pp) [
              | none ↦ none
              | some (r, q) ↦ entries float strtod isfinite f h rounds (i + 1) r q
            ]
          ])
            ≡ (elim o as (λ _. Option (Bytes × JsonPp)) [
              | fails ↦ none
              | ends r ↦ some (r, pp)
              | goes ↦ elim (entry float strtod isfinite g h i s pp) [
                | none ↦ none
                | some (r, q) ↦ entries float strtod isfinite g h rounds (i + 1) r q
              ]
            ])
      by_round again fails = refl
      by_round again (ends r) = refl
      by_round again goes =
          by_entry again (entry float strtod isfinite f h i s pp)
            (entry-IsBalanced float strtod isfinite f h i s pp b l)
          ∙ ap
              (λ o. elim o as (λ _. Option (Bytes × JsonPp)) [
                | none ↦ none
                | some (r, q) ↦ entries float strtod isfinite g h rounds (i + 1) r q
              ])
              (entry-same d f g h i s pp e k l)

  decode_tagged-same :
      (f g : Decoder) (key : Bytes) (pp : JsonPp) (o : Option Tagged)
      → ((pp.depth + 1 < 64) → SameAt (pp.depth + 1) f g)
      → KeepsBalance f
      → length pp.path ≤ 127
      → decode_tagged float strtod isfinite f key pp o
        ≡ decode_tagged float strtod isfinite g key pp o
  unfolding decode_tagged decode_container
  decode_tagged-same f g key pp none e b l = refl
  decode_tagged-same f g key pp (some t) e b l = elim (Bool-cases (leb 64 (pp.depth + 1))) [
    | inl q ↦ simp q refl
    | inr q ↦
        ap
          (λ x.
            if t.head.major == 4 || t.head.major == 5
            then (if leb 64 (pp.depth + 1)
                then none
                else if too_many t.head t.rest
                then none
                else closed t.head t.tags x)
            else shown_scalar key t pp (format_scalar float strtod isfinite 272 t.head t.rest))
          (inside (ground arith))
  ]
    where
      inside :
          pp.depth + 1 < 64
          → entries float strtod isfinite f t.head
              (length t.rest + 1)
              0
              t.rest
              (opened t.head key t.prefix pp)
            ≡ entries float strtod isfinite g t.head
                (length t.rest + 1)
                0
                t.rest
                (opened t.head key t.prefix pp)
      inside q =
          let shown =
            json_pp_emit-depth pp key (opening t.head t.prefix) JsonPpValKind.punct false in
          entries-same (pp.depth + 1) f g t.head (length t.rest + 1) 0 t.rest
            (opened t.head key t.prefix pp) (e q) b (ap (λ n. n + 1) shown.0)
            (omega (arith, l, ap length shown.1))

  -- A nesting of 64 less the depth is enough for an item: any more gives the same, where the dot path
  -- has at most 127 bytes. So the answer false always comes from the payload.
  pub decode_item-enough :
      (n m : ℕ) (key s : Bytes) (pp : JsonPp)
      → 0 < m
      → 64 ≤ pp.depth + m
      → m ≤ n
      → length pp.path ≤ 127
      → decode_item float strtod isfinite n key s pp ≡ decode_item float strtod isfinite m key s pp
  unfolding decode_item
  decode_item-enough n zero key s pp p h k l = absurd (omega arith)
  decode_item-enough zero (suc m) key s pp p h k l = absurd (omega arith)
  decode_item-enough (suc n) (suc m) key s pp p h k l =
      decode_tagged-same (decode_item float strtod isfinite n) (decode_item float strtod isfinite m)
        key pp _
        (λ d key' s' pp' e l'.
          decode_item-enough n m key' s' pp' (omega (arith, d, h)) (omega (arith, e, h))
            (omega (arith, k)) l')
        (decode_item-IsBalanced float strtod isfinite n) l
