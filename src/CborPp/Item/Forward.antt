-- ===== src/CborPp/Item/Forward.antt =====
-- Each item that is read moves the cursor on.
use mqtt_viewer.Base.{
  ℕ, zero, suc, ◌+◌, ◌≤◌, ◌<◌, Bool, true, false, not, ◌||◌, [], Option, none, some, arith, length,
  drop, length-drop, ltb, leb, ◌==◌, if◌then◌else◌, Bytes,
}
use mqtt_viewer.JsonPp.{JsonPp, starts}
use mqtt_viewer.CborPp.{CborHead, Float, read_head}
use mqtt_viewer.CborPp.Scalar.{Scalar, decode_key}
use mqtt_viewer.CborPp.Item.{
  Decoder, Tagged, Round, next_round, read_tags, tag_on, with_tag, is_map, closed, opened, popped,
  shown_scalar, entry_at, entry, entries, segment_of, too_many, decode_container, decode_tagged,
  decode_item,
}
use mqtt_viewer.CborPp.Item.Round.{fails, ends, goes}
use mqtt_viewer.CborPp.Scalar.Cursor.{
  IsRead, read_head-IsRead, weaker, either-IsRead, format_scalar-IsRead, key_with-IsRead,
}

module _ {D : Type 0} (float : Float D) (strtod : Bytes → D × Bytes) (isfinite : D → Bool) where
  -- What a decoder of values answers: the cursor comes first there.
  unfoldable pub IsForward : ℕ → Option (Bytes × JsonPp) → Type 0
  IsForward k none = Unit
  IsForward k (some (s, pp)) = length s < k

  abbrev pub MovesOn : Decoder → Type 0
  MovesOn format = (key s : Bytes) (pp : JsonPp) → IsForward (length s) (format key s pp)

  IsForward-weaker : (k n : ℕ) (o : Option (Bytes × JsonPp)) → k ≤ n → IsForward k o → IsForward n o
  unfolding IsForward
  IsForward-weaker k n none h r = tt
  IsForward-weaker k n (some (s, pp)) h r = omega (arith, r, h)

  popped-IsForward :
      (k mark : ℕ) (o : Option (Bytes × JsonPp)) → IsForward k o → IsForward k (popped mark o)
  unfolding IsForward
  popped-IsForward k mark none h = tt
  popped-IsForward k mark (some (s, pp)) h = h

  -- A key moves the cursor on, the number of an array's item leaves it.
  entry_at-IsForward :
      (format : Decoder) (h : CborHead) (pp : JsonPp) (k : ℕ) (o : Option (Bytes × Bytes))
      → MovesOn format
      → IsRead (suc k) o
      → IsForward k (entry_at float strtod isfinite format h pp o)
  unfolding IsForward IsRead
  entry_at-IsForward format h pp k none f l = tt
  entry_at-IsForward format h pp k (some (seg, s)) f l =
      popped-IsForward k _ _
        (IsForward-weaker (length s) k _ (omega (arith, l)) (f (if is_map h then seg else []) s _))

  pub entry-IsForward :
      (format : Decoder) (h : CborHead) (i : ℕ) (s : Bytes) (pp : JsonPp)
      → MovesOn format
      → IsForward (length s) (entry float strtod isfinite format h i s pp)
  unfolding entry decode_key IsRead
  entry-IsForward format h i s pp f =
      entry_at-IsForward format h _ (length s) (segment_of float strtod isfinite h i s) f (
        either-IsRead float strtod isfinite (suc (length s)) (is_map h)
          (decode_key float strtod isfinite 128 s) _
          (weaker (length s) (suc (length s)) _ (omega arith) (
            key_with-IsRead float strtod isfinite (length s) 128 (read_head s)
              (read_head-IsRead s)))
          (omega arith))

  -- The cursor with which a loop ends.
  unfoldable EndsWithin : ℕ → Round → Type 0
  EndsWithin k fails = Unit
  EndsWithin k (ends s) = length s ≤ k
  EndsWithin k goes = Unit

  either-EndsWithin :
      (k : ℕ) (b : Bool) (x y : Round)
      → EndsWithin k x
      → EndsWithin k y
      → EndsWithin k (if b then x else y)
  either-EndsWithin k true x y p q = p
  either-EndsWithin k false x y p q = q

  next_round-EndsWithin :
      (h : CborHead) (i : ℕ) (s : Bytes) → EndsWithin (length s) (next_round h i s)
  unfolding next_round EndsWithin
  next_round-EndsWithin h i s =
      either-EndsWithin (length s) h.indefinite _ _
        (either-EndsWithin (length s) (length s == 0) fails _ tt (
          either-EndsWithin (length s) (starts 0xff s) (ends (drop 1 s)) goes
            (omega (arith, length-drop 1 s)) tt))
        (either-EndsWithin (length s) (ltb i h.arg) goes (ends s) tt (omega arith))

  entries-IsForward :
      (format : Decoder) (h : CborHead) (rounds i : ℕ) (s : Bytes) (pp : JsonPp)
      → MovesOn format
      → IsForward (suc (length s)) (entries float strtod isfinite format h rounds i s pp)
  unfolding entries IsForward EndsWithin
  entries-IsForward format h zero i s pp f = tt
  entries-IsForward format h (suc rounds) i s pp f =
      by_round (λ r q. entries-IsForward format h rounds (i + 1) r q f) (next_round h i s)
        (next_round-EndsWithin h i s)
    where
      by_entry :
          (again : (r : Bytes) (q : JsonPp)
            → IsForward
                (suc (length r))
                (entries float strtod isfinite format h rounds (i + 1) r q))
          (o : Option (Bytes × JsonPp))
          → IsForward (length s) o
          → IsForward (suc (length s)) (elim o [
            | none ↦ none
            | some (r, q) ↦ entries float strtod isfinite format h rounds (i + 1) r q
          ])
      by_entry again none l = tt
      by_entry again (some (r, q)) l =
          IsForward-weaker (suc (length r)) (suc (length s)) _ (omega (arith, l)) (again r q)

      by_round :
          (again : (r : Bytes) (q : JsonPp)
            → IsForward
                (suc (length r))
                (entries float strtod isfinite format h rounds (i + 1) r q))
          (n : Round)
          → EndsWithin (length s) n
          → IsForward (suc (length s)) (elim n [
            | fails ↦ none
            | ends r ↦ some (r, pp)
            | goes ↦ elim (entry float strtod isfinite format h i s pp) [
              | none ↦ none
              | some (r, q) ↦ entries float strtod isfinite format h rounds (i + 1) r q
            ]
          ])
      by_round again fails l = tt
      by_round again (ends r) l = omega (arith, l)
      by_round again goes l =
          by_entry again (entry float strtod isfinite format h i s pp)
            (entry-IsForward format h i s pp f)

  -- A head behind its tags.
  unfoldable IsTagged : ℕ → Option Tagged → Type 0
  IsTagged k none = Unit
  IsTagged k (some t) = length t.rest < k

  either-IsTagged :
      (k : ℕ) (b : Bool) (x y : Option Tagged)
      → IsTagged k x
      → IsTagged k y
      → IsTagged k (if b then x else y)
  either-IsTagged k true x y p q = p
  either-IsTagged k false x y p q = q

  tag_on-IsTagged :
      (k : ℕ) (again : Bytes → ℕ → Bytes → Option Tagged) (prefix : Bytes) (tags : ℕ)
      (o : Option (CborHead × Bytes))
      → ((p : Bytes) (n : ℕ) (s : Bytes) → length s < k → IsTagged k (again p n s))
      → IsRead k o
      → IsTagged k (tag_on again prefix tags o)
  unfolding IsTagged IsRead
  tag_on-IsTagged k again prefix tags none f l = tt
  tag_on-IsTagged k again prefix tags (some (h, s)) f l =
      either-IsTagged k (not (h.major == 6)) _ _ l (
        either-IsTagged k (h.indefinite || leb 8 tags) none _ tt
          (f (with_tag prefix h.arg) (tags + 1) s l))

  read_tags-IsTagged :
      (k left : ℕ) (prefix : Bytes) (tags : ℕ) (s : Bytes)
      → length s ≤ k
      → IsTagged k (read_tags left prefix tags s)
  unfolding read_tags IsTagged
  read_tags-IsTagged k zero prefix tags s l = tt
  read_tags-IsTagged k (suc left) prefix tags s l =
      tag_on-IsTagged k (read_tags left) prefix tags (read_head s)
        (λ p n r m. read_tags-IsTagged k left p n r (omega (arith, m)))
        (weaker (length s) k (read_head s) l (read_head-IsRead s))

  either-IsForward :
      (k : ℕ) (b : Bool) (x y : Option (Bytes × JsonPp))
      → IsForward k x
      → IsForward k y
      → IsForward k (if b then x else y)
  either-IsForward k true x y p q = p
  either-IsForward k false x y p q = q

  closed-IsForward :
      (k : ℕ) (h : CborHead) (tags : ℕ) (o : Option (Bytes × JsonPp))
      → IsForward k o
      → IsForward k (closed h tags o)
  unfolding IsForward
  closed-IsForward k h tags none l = tt
  closed-IsForward k h tags (some (s, pp)) l = l

  shown_scalar-IsForward :
      (k : ℕ) (key : Bytes) (t : Tagged) (pp : JsonPp) (o : Option (Scalar × Bytes))
      → IsRead k o
      → IsForward k (shown_scalar key t pp o)
  unfolding IsForward IsRead
  shown_scalar-IsForward k key t pp none l = tt
  shown_scalar-IsForward k key t pp (some (v, s)) l = l

  decode_tagged-IsForward :
      (k : ℕ) (format : Decoder) (key : Bytes) (pp : JsonPp) (o : Option Tagged)
      → MovesOn format
      → IsTagged k o
      → IsForward k (decode_tagged float strtod isfinite format key pp o)
  unfolding decode_tagged decode_container IsForward IsTagged
  decode_tagged-IsForward k format key pp none f l = tt
  decode_tagged-IsForward k format key pp (some t) f l =
      either-IsForward k (t.head.major == 4 || t.head.major == 5) _ _
        (either-IsForward k (leb 64 (pp.depth + 1)) none _ tt (
          either-IsForward k (too_many t.head t.rest) none _ tt (
            closed-IsForward k t.head t.tags _ (
              IsForward-weaker (suc (length t.rest)) k _ l (
                entries-IsForward format t.head (length t.rest + 1) 0 t.rest
                  (opened t.head key t.prefix pp) f)))))
        (shown_scalar-IsForward k key t pp _
          (format_scalar-IsRead float strtod isfinite k 272 t.head t.rest l))

  -- An item that is decoded takes a byte at least, whatever nesting is allowed.
  pub decode_item-IsForward :
      (nesting : ℕ) (key s : Bytes) (pp : JsonPp)
      → IsForward (length s) (decode_item float strtod isfinite nesting key s pp)
  unfolding decode_item IsForward
  decode_item-IsForward zero key s pp = tt
  decode_item-IsForward (suc nesting) key s pp =
      decode_tagged-IsForward (length s) (decode_item float strtod isfinite nesting) key pp _
        (decode_item-IsForward nesting) (read_tags-IsTagged (length s) 9 [] 0 s (omega arith))
