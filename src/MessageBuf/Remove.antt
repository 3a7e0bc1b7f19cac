-- ===== src/MessageBuf/Remove.antt =====
-- `message_buf_remove_topic` and `message_buf_clear` on the list of the messages held.
use native.Mathlib.Nat.{add-mod_right}
use native.Mathlib.Numerals.{add-one}
use mqtt_viewer.Base.{
  ℕ, zero, suc, ◌+◌, ◌%◌, ◌^◌, ◌≤◌, ◌<◌, true, false, List, [], ◌∷◌, ◌++◌, append-nil, append_assoc,
  none, ◌≡◌, refl, sym, ap, ◌∙◌, inl, inr, arith, length, length-set, set-get_or, Bytes, str_eq,
  get_or, set, ◌==◌, if◌then◌else◌, Bool-cases,
}
use mqtt_viewer.Ring.{add32, add64, slots, length-slots, slots_grow, slots-set}
use mqtt_viewer.MessageBuf.Refine.{IsValid, contents, owned, length-contents, add32_small}
use mqtt_viewer.MessageBuf.{
  MessageRecord, MessageBuf, zeroed, freed, drop_payload, Sweep, sweep, message_buf_remove_topic,
  clear_from, message_buf_clear,
}

-- The messages on other topics, and those on `topic`, in order.
abbrev pub without : Bytes → List MessageRecord → List MessageRecord
without topic [] = []
without topic (r ∷ rs) = if str_eq r.topic topic then without topic rs else r ∷ without topic rs

abbrev pub only : Bytes → List MessageRecord → List MessageRecord
only topic [] = []
only topic (r ∷ rs) = if str_eq r.topic topic then r ∷ only topic rs else only topic rs

pub length-without-only :
    (topic : Bytes) (rs : List MessageRecord)
    → length (without topic rs) + length (only topic rs) ≡ length rs
length-without-only topic [] = refl
length-without-only topic (r ∷ rs) = ground (arith, length-without-only topic rs)

module _ (cap head : ℕ) (topic : Bytes) where
  -- What the loop has done from state `s`, with `left` slots to read from offset `i`.
  record Swept (s : Sweep) (i left : ℕ) (t : Sweep) : Type 0 where
    size : length t.entries ≡ length s.entries
    view :
        slots zeroed t.entries cap head 0 t.kept
        ≡ slots zeroed s.entries cap head 0 s.kept
          ++ without topic (slots zeroed s.entries cap head i left)
    blocks :
        t.freed_blocks
        ≡ s.freed_blocks ++ owned (only topic (slots zeroed s.entries cap head i left))
    bound : t.kept ≤ i + left

  module _ (small : cap ≤ 2 ^ 31) (head_in : head < cap) where
    turn : (i : ℕ) → i < cap → add32 head i % cap ≡ (head + (i + cap)) % cap
    turn i h =
        ap (λ k. k % cap) (add32_small head i (omega arith) (omega arith))
        ∙ sym (add-mod_right (head + i) cap)
        ∙ ap (λ k. k % cap) (omega arith)

    plain : (i : ℕ) → i < cap → add32 head i % cap ≡ (head + i) % cap
    plain i h = ap (λ k. k % cap) (add32_small head i (omega arith) (omega arith))

    -- A write at offset `j` is seen neither by the run before it nor, a turn on, by a later run.
    write_after :
        (es : List MessageRecord) (v : MessageRecord) (j n : ℕ)
        → j < cap
        → n ≤ j
        → slots zeroed (set es (add32 head j % cap) v) cap head 0 n ≡ slots zeroed es cap head 0 n
    write_after es v j n h k =
        rw (plain j h) (slots-set zeroed cap head es v 0 n j (omega arith) (omega arith))

    write_before :
        (es : List MessageRecord) (v : MessageRecord) (j i n : ℕ)
        → j < i
        → j < cap
        → i + n ≤ cap
        → slots zeroed (set es (add32 head j % cap) v) cap head i n ≡ slots zeroed es cap head i n
    write_before es v j i n h p k =
        rw (turn j p) (slots-set zeroed cap head es v i n (j + cap) (omega arith) (omega arith))

    -- One round: a message on the topic.
    hit_round :
        (s : Sweep) (i left : ℕ) {t : Sweep}
        → s.kept ≤ i
        → i + suc left ≤ cap
        → str_eq (get_or s.entries ((head + i) % cap) zeroed).topic topic ≡ true
        → Swept
            (record s {
              entries = drop_payload s.entries (add32 head i % cap);
              freed_blocks =
                  s.freed_blocks ++ freed (get_or s.entries (add32 head i % cap) zeroed).payload;
            })
            (i + 1)
            left
            t
        → Swept s i (suc left) t
    hit_round s i left h k e w =
        let idx = add32 head i % cap in
        let v : MessageRecord = record (get_or s.entries idx zeroed) { payload = none } in
        ground (
          arith,
          plain i (omega arith),
          length-set s.entries idx v,
          write_after s.entries v i s.kept (omega arith) h,
          write_before s.entries v i (i + 1) left (omega arith) (omega arith) (omega arith),
          append_assoc s.freed_blocks (freed (get_or s.entries idx zeroed).payload)
              (owned (only topic (slots zeroed s.entries cap head (i + 1) left))),
        )

    -- One round: another message.
    miss_round :
        (s : Sweep) (i left : ℕ) {t : Sweep}
        → s.kept ≤ i
        → i + suc left ≤ cap
        → cap ≤ length s.entries
        → str_eq (get_or s.entries ((head + i) % cap) zeroed).topic topic ≡ false
        → Swept
            (record s {
              entries =
                  set s.entries
                    (add32 head s.kept % cap)
                    (get_or s.entries ((head + i) % cap) zeroed);
              kept = s.kept + 1;
            })
            (i + 1)
            left
            t
        → Swept s i (suc left) t
    miss_round s i left h k len e w =
        let r = get_or s.entries ((head + i) % cap) zeroed in
        let idx = add32 head s.kept % cap in
        ground (
          arith,
          plain s.kept (omega arith),
          length-set s.entries idx r,
          add-one s.kept,
          slots_grow zeroed s.entries cap head s.kept r len (omega arith),
          write_before s.entries r s.kept (i + 1) left (omega arith) (omega arith) (omega arith),
          append_assoc (slots zeroed s.entries cap head 0 s.kept) (r ∷ [])
              (without topic (slots zeroed s.entries cap head (i + 1) left)),
        )

    -- Where the source and the target are one slot, nothing is written; that is the same store.
    move-eq-set :
        (es : List MessageRecord) (dst src : ℕ)
        → (if dst == src then es else set es dst (get_or es src zeroed))
          ≡ set es dst (get_or es src zeroed)
    move-eq-set es dst src = ground (arith, set-get_or es src zeroed)

    sweep-Swept :
        (left i : ℕ) (s : Sweep)
        → s.kept ≤ i
        → i + left ≤ cap
        → cap ≤ length s.entries
        → Swept s i left (sweep cap head topic i left s)
    unfolding sweep
    sweep-Swept zero i s h k len = record {
      size = refl;
      view = sym (append-nil (slots zeroed s.entries cap head 0 s.kept));
      blocks = sym (append-nil s.freed_blocks);
      bound = omega arith;
    }
    sweep-Swept (suc left) i s h k len =
        elim (Bool-cases (str_eq (get_or s.entries (add32 head i % cap) zeroed).topic topic)) [
          | inl e ↦ rw e (
              hit_round s i left h k (rw (plain i (omega arith)) at e)
                (sweep-Swept left (i + 1) _ (omega arith) (omega arith) (rw length-set len)))
          | inr e ↦ rw e (
              rw
                (
                  move-eq-set,
                  plain i (omega arith),
                  add32_small s.kept 1 (omega arith) (omega arith),
                )
                (miss_round s i left h k len (rw (plain i (omega arith)) at e)
                  (sweep-Swept left (i + 1) _ (omega arith) (omega arith) (rw length-set len))))
        ]

abbrev sweep_start : MessageBuf → Sweep
sweep_start b = record { entries = b.entries; kept = 0; freed_blocks = [] }

module _ {b : MessageBuf} (topic : Bytes) (v : IsValid b) where
  all_rounds :
      Swept b.capacity b.head topic
        (sweep_start b)
        0
        b.count
        (sweep b.capacity b.head topic 0 b.count (sweep_start b))
  all_rounds =
      sweep-Swept b.capacity b.head topic v.small v.head_in b.count 0 (sweep_start b) (omega arith)
        (omega arith) (omega arith)

  kept_all :
      (sweep b.capacity b.head topic 0 b.count (sweep_start b)).kept
      ≡ length (without topic (contents b))
  kept_all =
      let t = sweep b.capacity b.head topic 0 b.count (sweep_start b) in
      sym (length-slots zeroed b.capacity b.head t.entries 0 t.kept) ∙ ap length all_rounds.view

-- `message_buf_remove_topic` leaves exactly the messages on other topics, in order, returns how
-- many it removed, and frees exactly the blocks of the removed ones. The buffer stays valid, and
-- the generation moves on exactly if something was removed.
pub message_buf_remove_topic_refines :
    {b : MessageBuf} (topic : Bytes)
    → IsValid b
    → let (b', removed, out) = message_buf_remove_topic b topic in
      IsValid b'
      × (contents b' ≡ without topic (contents b))
      × (removed ≡ length (only topic (contents b)))
      × (out ≡ owned (only topic (contents b)))
      × (b'.generation ≡ (if removed == 0 then b.generation else add64 b.generation 1))
unfolding message_buf_remove_topic
message_buf_remove_topic_refines {b} topic v = ground (
  arith,
  all_rounds topic v,
  kept_all topic v,
  length-contents b,
  length-without-only topic (contents b),
)

-- `message_buf_clear` from offset `i` frees the blocks of the `left` messages there.
clear_from_freed :
    (cap head i left : ℕ) (es : List MessageRecord)
    → cap ≤ 2 ^ 31
    → head < cap
    → i + left ≤ cap
    → cap ≤ length es
    → let (es', out) = clear_from cap head es i left in
      (out ≡ owned (slots zeroed es cap head i left)) × (length es' ≡ length es)
unfolding clear_from
clear_from_freed cap head i zero es small hin h len = (refl, refl)
clear_from_freed cap head i (suc left) es small hin h len =
    let idx = add32 head i % cap in
    let v : MessageRecord = record (get_or es idx zeroed) { payload = none } in
    ground (
      arith,
      plain cap head [] small hin i (omega arith),
      length-set es idx v,
      write_before cap head [] small hin es v i (i + 1) left (omega arith) (omega arith)
          (omega arith),
      clear_from_freed cap head (i + 1) left (drop_payload es idx) small hin,
    )

-- `message_buf_clear` empties the history, frees the blocks that it owned, and moves the generation
-- on. The buffer stays valid.
pub message_buf_clear_refines :
    {b : MessageBuf}
    → IsValid b
    → let (b', out) = message_buf_clear b in
      IsValid b'
      × (contents b' ≡ [])
      × (out ≡ owned (contents b))
      × (b'.generation ≡ add64 b.generation 1)
unfolding message_buf_clear
message_buf_clear_refines {b} v =
    let c =
      clear_from_freed b.capacity b.head 0 b.count b.entries v.small v.head_in (omega arith)
        (omega arith) in
    (
      record {
        storage = c.1 ∙ v.storage;
        some_room = v.some_room;
        small = v.small;
        head_in = v.some_room;
        count_in = omega arith;
      },
      refl,
      c.0,
      refl,
    )
