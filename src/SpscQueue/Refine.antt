-- ===== src/SpscQueue/Refine.antt =====
-- The queue, called by one thread at a time, is a bounded first-in first-out list.
use native.Mathlib.Nat.{mod-eq_of_lt, mod-eq-sub-mod}
use native.Mathlib.Decide.{ℕ_discrete}
use mqtt_viewer.Base.{
  ℕ, zero, suc, ◌+◌, ◌-◌, ◌%◌, ◌^◌, ◌≤◌, ◌<◌, Bool, true, false, List, [], ◌∷◌, ◌++◌, Option, none,
  some, ◌≡◌, ◌≢◌, refl, sym, ap, ap₂, ◌∙◌, arith, length, length-set, length-replicate, get_or, set,
  take, drop, leb, ◌==◌, ==_iff, ==_no, if◌then◌else◌,
}
use mqtt_viewer.Ring.{slots, length-slots, slots_grow, slots_shift}
use mqtt_viewer.SpscQueue.{
  SpscQueue, spsc_queue_init, spsc_queue_push, spsc_queue_pop, spsc_queue_drain, spsc_queue_count,
  spsc_queue_empty,
}

-- One step round a ring of `n` slots.
pub next-cases : (n t : ℕ) → t < n → (t + 1) % n ≡ (if t + 1 == n then 0 else t + 1)
next-cases n t h = ground (
  arith,
  mod-eq_of_lt {n = t + 1} {m = n},
  mod-eq-sub-mod {n = t + 1} {m = n},
  mod-eq_of_lt {n = 0} {m = n},
)

module _ {A : Type 0} where
  pub record IsValid (q : SpscQueue A) : Type 0 where
    pub storage : length q.buffer ≡ q.capacity + 1
    pub small : q.capacity < 2 ^ 31
    pub head_in : q.head ≤ q.capacity
    pub tail_in : q.tail ≤ q.capacity

  -- The number of elements from the head to the tail.
  abbrev pub used : SpscQueue A → ℕ
  used q = if leb q.head q.tail then q.tail - q.head else q.capacity + 1 - q.head + q.tail

  count-used : {q : SpscQueue A} → IsValid q → spsc_queue_count q ≡ used q
  unfolding spsc_queue_count
  count-used v = ground arith

  used_bound : {q : SpscQueue A} → IsValid q → used q ≤ q.capacity
  used_bound v = ground arith

  -- The tail is the slot behind the last element.
  tail_slot : {q : SpscQueue A} → IsValid q → (q.head + used q) % (q.capacity + 1) ≡ q.tail
  tail_slot {q} v = ground (
    arith,
    mod-eq_of_lt {n = q.tail} {m = q.capacity + 1},
    mod-eq-sub-mod {n = q.capacity + 1 + q.tail} {m = q.capacity + 1},
  )

module _ {A : Type 0} (blank : A) where
  abbrev pub contents : SpscQueue A → List A
  contents q = slots blank q.buffer (q.capacity + 1) q.head 0 (used q)

  length-contents : (q : SpscQueue A) → length (contents q) ≡ used q
  length-contents q = length-slots blank (q.capacity + 1) q.head q.buffer 0 (used q)

  -- A new queue of less than 2^31 elements is valid and empty.
  pub spsc_queue_init-IsValid :
      (capacity : ℕ)
      → capacity < 2 ^ 31
      → IsValid (spsc_queue_init blank capacity) × (contents (spsc_queue_init blank capacity) ≡ [])
  unfolding spsc_queue_init
  spsc_queue_init-IsValid capacity h = (
    record {
      storage = length-replicate (capacity + 1) blank;
      small = h;
      head_in = omega arith;
      tail_in = omega arith;
    },
    refl,
  )

  module _ {q : SpscQueue A} (v : IsValid q) where
    push-IsValid : (x : A) → IsValid (spsc_queue_push blank q x).0
    unfolding spsc_queue_push
    push-IsValid x =
        ground (arith, length-set q.buffer q.tail x, next-cases (q.capacity + 1) q.tail)

    -- What an accepted element leaves.
    pushed_slots :
        (x : A)
        → used q < q.capacity
        → slots blank (set q.buffer q.tail x) (q.capacity + 1) q.head 0 (suc (used q))
          ≡ contents q ++ (x ∷ [])
    pushed_slots x h =
        ap (λ k. slots blank (set q.buffer k x) (q.capacity + 1) q.head 0 (suc (used q)))
          (sym (tail_slot v))
        ∙ slots_grow blank q.buffer (q.capacity + 1) q.head (used q) x (omega arith) (omega arith)

    push_full : (x : A) → used q ≡ q.capacity → spsc_queue_push blank q x ≡ (q, false)
    unfolding spsc_queue_push
    push_full x h = ground (arith, next-cases (q.capacity + 1) q.tail)

    push_room :
        (x : A)
        → used q ≢ q.capacity
        → spsc_queue_push blank q x ≡ (
          record q { buffer = set q.buffer q.tail x; tail = (q.tail + 1) % (q.capacity + 1) },
          true,
        )
    unfolding spsc_queue_push
    push_room x h = ground (arith, next-cases (q.capacity + 1) q.tail)

    used_grown :
        (x : A)
        → used q ≢ q.capacity
        → used (record q { buffer = set q.buffer q.tail x; tail = (q.tail + 1) % (q.capacity + 1) })
          ≡ suc (used q)
    used_grown x h = ground (arith, next-cases (q.capacity + 1) q.tail)

    pop_empty : used q ≡ 0 → spsc_queue_pop blank q ≡ (q, none)
    unfolding spsc_queue_pop
    pop_empty h = ground arith

    pop_some :
        used q ≢ 0
        → spsc_queue_pop blank q ≡ (
          record q { head = (q.head + 1) % (q.capacity + 1) },
          some (get_or q.buffer q.head blank),
        )
    unfolding spsc_queue_pop
    pop_some h = ground (arith, next-cases (q.capacity + 1) q.head)

    used_shrunk :
        (n : ℕ) → used q ≡ suc n → used (record q { head = (q.head + 1) % (q.capacity + 1) }) ≡ n
    used_shrunk n h = ground (arith, next-cases (q.capacity + 1) q.head)

    pop-IsValid : IsValid (spsc_queue_pop blank q).0
    unfolding spsc_queue_pop
    pop-IsValid = ground (arith, next-cases (q.capacity + 1) q.head)

  -- The first-in first-out list of at most `capacity` elements.
  abbrev pub enqueued : ℕ → List A → A → List A × Bool
  enqueued capacity xs x = if length xs == capacity then (xs, false) else (xs ++ (x ∷ []), true)

  abbrev pub dequeued : List A → List A × Option A
  dequeued [] = ([], none)
  dequeued (x ∷ xs) = (xs, some x)

  -- A push is refused exactly if the queue holds `capacity` elements, and then changes nothing;
  -- otherwise its element comes last. The queue stays valid.
  pub spsc_queue_push_refines :
      {q : SpscQueue A} (x : A)
      → IsValid q
      → let (q', done) = spsc_queue_push blank q x in
        IsValid q' × ((contents q', done) ≡ enqueued q.capacity (contents q) x)
  spsc_queue_push_refines {q} x v = (
    push-IsValid v x,
    elim (ℕ_discrete (used q) q.capacity) [
      | yes e ↦ rw (push_full v x e, length-contents q, (==_iff (used q) q.capacity).1 e)
      | no ne ↦
          rw (push_room v x ne, length-contents q, ==_no (used q) q.capacity ne)
            (ap (λ xs. (xs, true))
              (ap (slots blank (set q.buffer q.tail x) (q.capacity + 1) q.head 0)
                  (used_grown v x ne)
                ∙ pushed_slots v x (omega (arith, used_bound v))))
    ],
  )

  -- A pop takes the oldest element, and finds none exactly in an empty queue, which it does not
  -- change. The queue stays valid.
  pub spsc_queue_pop_refines :
      {q : SpscQueue A}
      → IsValid q
      → let (q', out) = spsc_queue_pop blank q in
        IsValid q' × ((contents q', out) ≡ dequeued (contents q))
  spsc_queue_pop_refines {q} v = (pop-IsValid v, by_used (used q) refl)
    where
      by_used :
          (n : ℕ)
          → used q ≡ n
          → (contents (spsc_queue_pop blank q).0, (spsc_queue_pop blank q).1)
            ≡ dequeued (contents q)
      by_used zero e = rw (pop_empty v e, e)
      by_used (suc n) e = rw (pop_some v (omega arith)) (
          rw (e, used_shrunk v n e)
            (ap₂ (λ xs x. (xs, some x)) (slots_shift blank q.buffer (q.capacity + 1) q.head 0 n)
              (ap (λ k. get_or q.buffer k blank)
                (ground (arith, mod-eq_of_lt {n = q.head} {m = q.capacity + 1})))))

  abbrev Drained : ℕ → SpscQueue A → SpscQueue A × List A → Type 0
  Drained n q out =
      IsValid out.0 × (out.1 ≡ take n (contents q)) × (contents out.0 ≡ drop n (contents q))

  -- One round of the loop, by whether the queue is empty.
  drain_step :
      (n : ℕ) {q : SpscQueue A} (xs : List A)
      → IsValid q
      → contents q ≡ xs
      → Drained n (spsc_queue_pop blank q).0 (spsc_queue_drain blank n (spsc_queue_pop blank q).0)
      → Drained (suc n) q (spsc_queue_drain blank (suc n) q)
  unfolding spsc_queue_drain
  drain_step n {q} [] v e rest =
      ground (arith, spsc_queue_pop_refines v, pop_empty v, length-contents q)
  drain_step n {q} (x ∷ xs) v e rest = ground (arith, spsc_queue_pop_refines v)

  -- `spsc_queue_drain` takes the oldest elements in order, `max_count` at most, and leaves the rest.
  -- The queue stays valid.
  pub spsc_queue_drain_refines :
      (max_count : ℕ) {q : SpscQueue A}
      → IsValid q
      → let (q', xs) = spsc_queue_drain blank max_count q in
        IsValid q'
        × (xs ≡ take max_count (contents q))
        × (contents q' ≡ drop max_count (contents q))
  spsc_queue_drain_refines zero v = unfold spsc_queue_drain in (v, refl, refl)
  spsc_queue_drain_refines (suc n) {q} v =
      drain_step n (contents q) v refl (spsc_queue_drain_refines n (spsc_queue_pop_refines v).0)

  -- `spsc_queue_count` is the number of elements, and `spsc_queue_empty` tells whether there is none.
  pub spsc_queue_count-contents :
      {q : SpscQueue A}
      → IsValid q
      → (spsc_queue_count q ≡ length (contents q))
        × (spsc_queue_empty q ≡ (length (contents q) == 0))
  unfolding spsc_queue_empty
  spsc_queue_count-contents {q} v = ground (arith, count-used v, length-contents q)
