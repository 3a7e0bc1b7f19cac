-- ===== src/SpscQueue.antt =====
-- src/model/spsc_queue.h and .c, called by one thread at a time. An element is one value (`memcpy` of
-- `elem_size` bytes); `blank` is what an unwritten slot holds. Threads are in the module below.
pub mod Refine
pub mod Threads
use mqtt_viewer.Base.{
  ℕ, zero, suc, ◌+◌, ◌-◌, ◌%◌, ◌^◌, Bool, true, false, List, [], ◌∷◌, Option, none, some, get_or,
  set, replicate, leb, ◌==◌, if◌then◌else◌,
}
use mqtt_viewer.Ring.{add32}

pub record SpscQueue {ℓ} (A : Type ℓ) : Type ℓ where
  pub buffer : List A
  pub capacity : ℕ
  pub head : ℕ
  pub tail : ℕ

module _ {ℓ} {A : Type ℓ} (blank : A) where
  unfoldable pub spsc_queue_init : ℕ → SpscQueue A
  spsc_queue_init capacity = record {
    buffer = replicate (capacity + 1) blank;
    capacity = capacity;
    head = 0;
    tail = 0;
  }

  -- `false`: the queue is full.
  unfoldable pub spsc_queue_push : SpscQueue A → A → SpscQueue A × Bool
  spsc_queue_push q elem =
      let next_tail = add32 q.tail 1 % add32 q.capacity 1 in
      if next_tail == q.head
      then (q, false)
      else (record q { buffer = set q.buffer q.tail elem; tail = next_tail }, true)

  -- `none`: the queue is empty.
  unfoldable pub spsc_queue_pop : SpscQueue A → SpscQueue A × Option A
  spsc_queue_pop q =
      let next_head = add32 q.head 1 % add32 q.capacity 1 in
      if q.head == q.tail
      then (q, none)
      else (record q { head = next_head }, some (get_or q.buffer q.head blank))

  -- The elements written to `buf`, in order; their number is what the C function returns.
  unfoldable pub spsc_queue_drain : ℕ → SpscQueue A → SpscQueue A × List A
  spsc_queue_drain zero q = (q, [])
  spsc_queue_drain (suc max_count) q = elim (spsc_queue_pop q).1 [
    | none ↦ (q, [])
    | some x ↦ let (q', xs) = spsc_queue_drain max_count (spsc_queue_pop q).0 in (q', x ∷ xs)
  ]

module _ {ℓ} {A : Type ℓ} where
  unfoldable pub spsc_queue_count : SpscQueue A → ℕ
  spsc_queue_count q =
      if leb q.head q.tail
      then q.tail - q.head
      else (add32 q.capacity 1 + 2 ^ 32 - q.head + q.tail) % 2 ^ 32

  unfoldable pub spsc_queue_empty : SpscQueue A → Bool
  unfolding spsc_queue_count
  spsc_queue_empty q = spsc_queue_count q == 0
