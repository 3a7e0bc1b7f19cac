-- ===== src/MessageBuf/Refine.antt =====
-- The message history as the list of the messages that it holds, oldest first.
use native.Mathlib.Nat.{mod-lt, mod-eq_of_lt, add-mod_right}
use mqtt_viewer.Base.{
  Option, none, some, take, ℕ, zero, suc, ◌+◌, ◌%◌, ◌^◌, ◌≤◌, ◌<◌, List, [], ◌∷◌, ◌++◌, append-nil,
  append_assoc, ◌≡◌, refl, sym, ap, ◌∙◌, arith, length, length-set, length-replicate, get_elem?,
  get_elem?_past, get_or, ◌==◌, if◌then◌else◌,
}
use mqtt_viewer.Ring.{
  add32, add64, slots, length-slots, get_elem?-slots, behead, slots_grow, slots_turn,
}
use mqtt_viewer.MessageBuf.{
  Block, MessageRecord, MessageBuf, zeroed, freed, allocated, copy_payload, message_buf_init,
  message_buf_push, message_buf_get,
}

-- The capacity is at most 2^31, so that no index sum wraps.
pub record IsValid (b : MessageBuf) : Type 0 where
  pub storage : length b.entries ≡ b.capacity
  pub some_room : 0 < b.capacity
  pub small : b.capacity ≤ 2 ^ 31
  pub head_in : b.head < b.capacity
  pub count_in : b.count ≤ b.capacity

abbrev pub contents : MessageBuf → List MessageRecord
contents b = slots zeroed b.entries b.capacity b.head 0 b.count

-- The blocks that a list of messages owns.
abbrev pub owned : List MessageRecord → List ℕ
owned [] = []
owned (r ∷ rs) = freed r.payload ++ owned rs

pub owned-append : (xs ys : List MessageRecord) → owned (xs ++ ys) ≡ owned xs ++ owned ys
owned-append [] ys = refl
owned-append (x ∷ xs) ys =
    ap (λ l. freed x.payload ++ l) (owned-append xs ys)
    ∙ sym (append_assoc (freed x.payload) (owned xs) (owned ys))

-- What the history keeps of a message whose payload has that many bytes: the message with the first
-- bytes of its payload in the new block, or with no payload where it is empty or missing.
abbrev pub stored_copy : ℕ → ℕ → Option Block → MessageRecord → MessageRecord
stored_copy fresh zero p r = record r { payload = none; payload_len = 0 }
stored_copy fresh (suc n) none r = record r { payload = none; payload_len = 0 }
stored_copy fresh (suc n) (some b) r = record r {
  payload = some (record { block = fresh; bytes = take (suc n) b.bytes });
}

copy_payload-eq :
    (fresh : ℕ) (r : MessageRecord)
    → copy_payload fresh r ≡ stored_copy fresh r.payload_len r.payload r
unfolding copy_payload
copy_payload-eq fresh r = copied r.payload_len r.payload
  where
    copied :
        (n : ℕ) (p : Option Block)
        → copy_payload fresh (record r { payload = p; payload_len = n })
          ≡ stored_copy fresh n p (record r { payload = p; payload_len = n })
    copied zero none = refl
    copied zero (some b) = refl
    copied (suc n) none = refl
    copied (suc n) (some b) = ground arith

-- A list of at most `cap` messages, to which one is added.
abbrev pub push_bounded : ℕ → List MessageRecord → MessageRecord → List MessageRecord
push_bounded cap ms r = (if length ms == cap then behead ms else ms) ++ (r ∷ [])

pub length-contents : (b : MessageBuf) → length (contents b) ≡ b.count
length-contents b = length-slots zeroed b.capacity b.head b.entries 0 b.count

-- An index sum does not wrap.
pub add32_small : (a b : ℕ) → a < 2 ^ 31 → b ≤ 2 ^ 31 → add32 a b ≡ a + b
add32_small a b h k = omega arith

pub message_buf_init-IsValid :
    (cap : ℕ)
    → 0 < cap
    → cap ≤ 2 ^ 31
    → IsValid (message_buf_init cap) × (contents (message_buf_init cap) ≡ [])
unfolding message_buf_init
message_buf_init-IsValid cap h k = (
  record {
    storage = length-replicate cap zeroed;
    some_room = h;
    small = k;
    head_in = h;
    count_in = omega arith;
  },
  refl,
)

module _ {b : MessageBuf} (v : IsValid b) (fresh : ℕ) (r : MessageRecord) where
  push_contents :
      contents (message_buf_push fresh b r).0
      ≡ push_bounded b.capacity (contents b) (copy_payload fresh r)
  unfolding message_buf_push
  push_contents = ground (
    arith,
    length-contents b,
    add32_small b.head b.count,
    add32_small b.head 1,
    slots_grow zeroed b.entries b.capacity b.head b.count (copy_payload fresh r),
    slots_turn zeroed b.entries b.capacity b.head (copy_payload fresh r),
  )

  push-IsValid : IsValid (message_buf_push fresh b r).0
  unfolding message_buf_push
  push-IsValid = ground (
    arith,
    length-set b.entries (add32 b.head b.count % b.capacity) (copy_payload fresh r),
    mod-lt (add32 b.head 1) {m = b.capacity} v.some_room,
  )

-- The history holds `capacity` messages at most; one more drops the oldest, and the new one comes
-- last, with the bytes of its payload copied to the new block, and none where it is empty. The buffer stays valid, and its generation moves on.
pub message_buf_push_refines :
    {b : MessageBuf} (fresh : ℕ) (r : MessageRecord)
    → IsValid b
    → let b' = (message_buf_push fresh b r).0 in
      IsValid b'
      × (contents b'
          ≡ push_bounded b.capacity (contents b) (stored_copy fresh r.payload_len r.payload r))
      × (b'.generation ≡ add64 b.generation 1)
message_buf_push_refines {b} fresh r v = (
  push-IsValid v fresh r,
  push_contents v fresh r ∙ ap (push_bounded b.capacity (contents b)) (copy_payload-eq fresh r),
  bumped,
)
  where
    bumped : (message_buf_push fresh b r).0.generation ≡ add64 b.generation 1
    bumped = unfold message_buf_push in ground arith

-- The block freed by a push is that of the slot at the head, if the ring is full.
push_freed :
    {b : MessageBuf} (fresh : ℕ) (r : MessageRecord)
    → IsValid b
    → (message_buf_push fresh b r).1
      ≡ (if b.count == b.capacity then freed (get_or b.entries b.head zeroed).payload else [])
unfolding message_buf_push
push_freed {b} fresh r v =
    ground
      (arith, add32_small b.head b.count, add-mod_right b.head b.capacity, mod-eq_of_lt v.head_in)

-- The same on the contents, for a full history and for one with room.
owned-push_bounded :
    (cap : ℕ) (ms : List MessageRecord) (r d : MessageRecord)
    → 0 < cap
    → (if length ms == cap then freed (get_or ms 0 d).payload else [])
        ++ owned (push_bounded cap ms r)
      ≡ owned ms ++ freed r.payload
owned-push_bounded cap [] r d h = ground (arith, append-nil (freed r.payload))
owned-push_bounded cap (m ∷ ms) r d h = ground (
  arith,
  owned-append ms (r ∷ []),
  append-nil (freed r.payload),
  append_assoc (freed m.payload) (owned ms) (freed r.payload),
)

-- The head slot is the oldest message.
oldest-contents :
    {b : MessageBuf}
    → IsValid b
    → b.count ≡ b.capacity
    → get_or (contents b) 0 zeroed ≡ get_or b.entries b.head zeroed
oldest-contents {b} v e = oldest b.count (omega arith)
  where
    oldest :
        (n : ℕ)
        → 0 < n
        → get_or (slots zeroed b.entries b.capacity b.head 0 n) 0 zeroed
          ≡ get_or b.entries b.head zeroed
    oldest zero h = absurd (omega arith)
    oldest (suc n) h = ap (λ k. get_or b.entries k zeroed) (ground (arith, mod-eq_of_lt v.head_in))

-- The copy owns the block that was allocated for it, and no other.
copied-allocated :
    (fresh : ℕ) (r : MessageRecord) → freed (copy_payload fresh r).payload ≡ allocated fresh r
unfolding copy_payload allocated
copied-allocated fresh r = copied r.payload
  where
    copied :
        (p : Option Block)
        → freed (copy_payload fresh (record r { payload = p })).payload
          ≡ allocated fresh (record r { payload = p })
    copied none = refl
    copied (some b) = ground arith

-- A push frees exactly what it drops: the freed blocks followed by those that the history then owns
-- are those that it owned before, followed by the block of the new copy.
pub message_buf_push-owned :
    {b : MessageBuf} (fresh : ℕ) (r : MessageRecord)
    → IsValid b
    → let (b', out) = message_buf_push fresh b r in
      out ++ owned (contents b') ≡ owned (contents b) ++ allocated fresh r
message_buf_push-owned {b} fresh r v = ground (
  arith,
  copied-allocated fresh r,
  push_contents v fresh r,
  push_freed fresh r v,
  length-contents b,
  oldest-contents v,
  owned-push_bounded b.capacity (contents b) (copy_payload fresh r) zeroed v.some_room,
)

-- Index `i` of the history is the element `i` of its contents; there is none past the end.
pub message_buf_get_refines :
    {b : MessageBuf} (i : ℕ) → IsValid b → message_buf_get b i ≡ get_elem? (contents b) i
unfolding message_buf_get
message_buf_get_refines {b} i v = ground (
  arith,
  length-contents b,
  get_elem?_past (contents b) i,
  get_elem?-slots zeroed b.capacity b.head b.entries 0 b.count i,
  add32_small b.head i,
)
