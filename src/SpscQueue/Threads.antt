-- ===== src/SpscQueue/Threads.antt =====
-- src/model/spsc_queue.c under its two threads: one calls `spsc_queue_push`, the other
-- `spsc_queue_pop`, and every load, copy and store of the one may fall between any two of the other.
-- The steps interleave: a load sees the last store. The memory orders of the loads and stores, on
-- which that rests, are not represented.
-- `pushed` and `popped` record the elements of the calls that have returned true, oldest first.
pub mod Safety
use mqtt_viewer.Base.{
  ℕ, zero, suc, ◌+◌, ◌-◌, ◌%◌, ◌≤◌, ◌<◌, List, [], ◌∷◌, ◌++◌, append_assoc, ◌≡◌, ◌≢◌, refl, sym, ap,
  ap₂, ◌∙◌, arith, length, length-append, length-set, get_or, set, get_or-set_ne,
}
use mqtt_viewer.Ring.{add32, mod-add-ne, slots, length-slots, slots_grow, slots_shift}

-- Where the producer stands in `spsc_queue_push`: outside it, after the load of the tail, after
-- that of the head, and after the copy into the slot.
pub data Producer (A : Type 0) : Type 0 where
  idle : Producer A
  loaded_tail : A → ℕ → Producer A
  loaded_head : A → ℕ → ℕ → Producer A
  copied : A → ℕ → Producer A

-- Where the consumer stands in `spsc_queue_pop`.
pub data Consumer (A : Type 0) : Type 0 where
  idle : Consumer A
  loaded_head : ℕ → Consumer A
  loaded_tail : ℕ → ℕ → Consumer A
  copied : A → ℕ → Consumer A

pub record Shared (A : Type 0) : Type 0 where
  pub buffer : List A
  pub head : ℕ
  pub tail : ℕ
  pub producer : Producer A
  pub consumer : Consumer A
  pub pushed : List A
  pub popped : List A

module _ {A : Type 0} (blank : A) (capacity : ℕ) where
  abbrev pub next : ℕ → ℕ
  next i = add32 i 1 % add32 capacity 1

  -- One step of one of the threads.
  pub data Step (w : Shared A) : Shared A → Type 0 where
    push_load_tail :
        (x : A)
        → w.producer ≡ Producer.idle
        → Step w (record w { producer = Producer.loaded_tail x w.tail })
    push_load_head :
        (x : A) (t : ℕ)
        → w.producer ≡ Producer.loaded_tail x t
        → Step w (record w { producer = Producer.loaded_head x t w.head })
    push_full :
        (x : A) (t h : ℕ)
        → w.producer ≡ Producer.loaded_head x t h
        → next t ≡ h
        → Step w (record w { producer = Producer.idle })
    push_copy :
        (x : A) (t h : ℕ)
        → w.producer ≡ Producer.loaded_head x t h
        → next t ≢ h
        → Step w (record w { buffer = set w.buffer t x; producer = Producer.copied x t })
    push_store_tail :
        (x : A) (t : ℕ)
        → w.producer ≡ Producer.copied x t
        → Step w
            (record w { tail = next t; producer = Producer.idle; pushed = w.pushed ++ (x ∷ []) })
    pop_load_head :
        w.consumer ≡ Consumer.idle → Step w (record w { consumer = Consumer.loaded_head w.head })
    pop_load_tail :
        (h : ℕ)
        → w.consumer ≡ Consumer.loaded_head h
        → Step w (record w { consumer = Consumer.loaded_tail h w.tail })
    pop_empty :
        (h t : ℕ)
        → w.consumer ≡ Consumer.loaded_tail h t
        → h ≡ t
        → Step w (record w { consumer = Consumer.idle })
    pop_copy :
        (h t : ℕ)
        → w.consumer ≡ Consumer.loaded_tail h t
        → h ≢ t
        → Step w (record w { consumer = Consumer.copied (get_or w.buffer h blank) h })
    pop_store_head :
        (x : A) (h : ℕ)
        → w.consumer ≡ Consumer.copied x h
        → Step w
            (record w { head = next h; consumer = Consumer.idle; popped = w.popped ++ (x ∷ []) })

  pub data Reach (w : Shared A) : Shared A → Type 0 where
    here : Reach w w
    then : {u t : Shared A} → Reach w u → Step u t → Reach w t

  -- The elements between the counts of what was popped and what was pushed.
  abbrev pub contents : Shared A → List A
  contents w = slots blank w.buffer (capacity + 1) w.head 0 (length w.pushed - length w.popped)

  -- What the producer knows: a head that it loaded is the head of an earlier count of pops.
  abbrev pub ProducerInv : Producer A → Shared A → Type 0
  ProducerInv Producer.idle w = Unit {0}
  ProducerInv (Producer.loaded_tail x t) w = t ≡ w.tail
  ProducerInv (Producer.loaded_head x t h) w =
      (t ≡ w.tail)
      × ((k : ℕ) × (h ≡ k % (capacity + 1))
          × (k ≤ length w.popped)
          × (length w.pushed ≤ k + capacity))
  ProducerInv (Producer.copied x t) w =
      (t ≡ w.tail) × (length w.pushed < length w.popped + capacity) × (get_or w.buffer t blank ≡ x)

  -- What the consumer knows: a tail that it loaded is the tail of an earlier count of pushes.
  abbrev pub ConsumerInv : Consumer A → Shared A → Type 0
  ConsumerInv Consumer.idle w = Unit {0}
  ConsumerInv (Consumer.loaded_head h) w = h ≡ w.head
  ConsumerInv (Consumer.loaded_tail h t) w =
      (h ≡ w.head)
      × ((k : ℕ) × (t ≡ k % (capacity + 1)) × (length w.popped ≤ k) × (k ≤ length w.pushed))
  ConsumerInv (Consumer.copied x h) w =
      (h ≡ w.head) × (length w.popped < length w.pushed) × (x ≡ get_or w.buffer h blank)

  pub record IsValid (w : Shared A) : Type 0 where
    pub storage : length w.buffer ≡ capacity + 1
    pub head_is : w.head ≡ length w.popped % (capacity + 1)
    pub tail_is : w.tail ≡ length w.pushed % (capacity + 1)
    pub order : length w.popped ≤ length w.pushed
    pub room : length w.pushed ≤ length w.popped + capacity
    pub history : w.pushed ≡ w.popped ++ contents w
    pub producer_inv : ProducerInv w.producer w
    pub consumer_inv : ConsumerInv w.consumer w
