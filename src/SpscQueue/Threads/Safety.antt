-- ===== src/SpscQueue/Threads/Safety.antt =====
-- No interleaving of the two threads loses, repeats or reorders an element.
use native.Mathlib.Nat.{mod-lt, mod-eq_of_lt, mod-add-mod, add-mod_right}
use native.Mathlib.Decide.{dec_lt}
use mqtt_viewer.Base.{
  ◌^◌, ℕ, suc, ◌+◌, ◌-◌, ◌%◌, ◌≤◌, ◌<◌, [], ◌∷◌, ◌++◌, append_assoc, ◌≡◌, ◌≢◌, refl, sym, ap, ap₂,
  ◌∙◌, arith, length, length-append, length-set, get_or, set, get_or-set_self, get_or-set_ne,
  replicate, length-replicate,
}
use mqtt_viewer.Ring.{mod-add-ne, slots, length-slots, slots_last, slots-set, slots_shift}
use mqtt_viewer.SpscQueue.Threads.{
  Producer, Consumer, Shared, next, Step, push_load_tail, push_load_head, push_full, push_copy,
  push_store_tail, pop_load_head, pop_load_tail, pop_empty, pop_copy, pop_store_head, Reach, here,
  then, contents, ProducerInv, ConsumerInv, IsValid,
}

-- After `spsc_queue_init`, with neither thread in a call.
abbrev pub initial : {A : Type 0} → A → ℕ → Shared A
initial blank capacity = record {
  buffer = replicate (capacity + 1) blank;
  head = 0;
  tail = 0;
  producer = Producer.idle;
  consumer = Consumer.idle;
  pushed = [];
  popped = [];
}

-- The number of slots fits into 32 bits.
module _ {A : Type 0} (blank : A) (capacity : ℕ) (small : capacity + 1 < 2 ^ 32) where
  next_in : (i : ℕ) → i < capacity + 1 → next blank capacity i ≡ (i + 1) % (capacity + 1)
  next_in i h =
      ap₂ (λ a b. a % b) (mod-eq_of_lt {n = i + 1} {m = 2 ^ 32} (omega arith))
        (mod-eq_of_lt {n = capacity + 1} {m = 2 ^ 32} small)

  next_mod : (k : ℕ) → next blank capacity (k % (capacity + 1)) ≡ (k + 1) % (capacity + 1)
  next_mod k =
      next_in (k % (capacity + 1)) (mod-lt k {m = capacity + 1} (omega arith))
      ∙ mod-add-mod k (capacity + 1) 1

  module _ {w : Shared A} (v : IsValid blank capacity w) where
    -- The tail is the slot behind the elements in the queue.
    tail_slot : (w.head + (length w.pushed - length w.popped)) % (capacity + 1) ≡ w.tail
    tail_slot = rw v.head_is (
        mod-add-mod (length w.popped) (capacity + 1) (length w.pushed - length w.popped)
        ∙ ap (λ k. k % (capacity + 1)) (omega (arith, v.order))
        ∙ sym v.tail_is)

    -- The slot at the tail is not the slot at the head, while there are elements.
    tail-ne-head :
        length w.popped < length w.pushed
        → length w.pushed ≤ length w.popped + capacity
        → w.head ≢ w.tail
    tail-ne-head h r e =
        mod-add-ne (capacity + 1) (length w.popped) (length w.pushed - length w.popped)
          (omega arith) (omega arith)
          (ap (λ k. k % (capacity + 1)) (omega (arith, v.order))
            ∙ sym v.tail_is
            ∙ sym e
            ∙ v.head_is)

    contents_copied :
        (x : A)
        → length w.pushed < length w.popped + capacity
        → contents blank capacity (record w { buffer = set w.buffer w.tail x })
          ≡ contents blank capacity w
    contents_copied x h =
        ap
          (λ t.
            slots blank (set w.buffer t x) (capacity + 1) w.head 0
              (length w.pushed - length w.popped))
          (sym tail_slot)
        ∙ slots-set blank (capacity + 1) w.head w.buffer x 0 (length w.pushed - length w.popped)
            (length w.pushed - length w.popped) (omega arith) (omega arith)

    contents_pushed :
        slots blank w.buffer (capacity + 1) w.head 0 (suc (length w.pushed - length w.popped))
        ≡ contents blank capacity w ++ (get_or w.buffer w.tail blank ∷ [])
    contents_pushed =
        slots_last blank (capacity + 1) w.head w.buffer 0 (length w.pushed - length w.popped)
        ∙ ap (λ k. contents blank capacity w ++ (get_or w.buffer k blank ∷ []))
            (ap (λ k. (w.head + k) % (capacity + 1)) (omega arith) ∙ tail_slot)

    -- The elements, if there is one, are that at the head and those from the next head on.
    contents_popped :
        (n : ℕ)
        → length w.pushed - length w.popped ≡ suc n
        → contents blank capacity w
          ≡ get_or w.buffer w.head blank
            ∷ slots blank w.buffer (capacity + 1) (next blank capacity w.head) 0 n
    contents_popped n e =
        ap (slots blank w.buffer (capacity + 1) w.head 0) e
        ∙ ap₂ (λ k r. get_or w.buffer k blank ∷ r)
            (ap (λ k. k % (capacity + 1)) (omega arith) ∙ head_stays)
            (sym (slots_shift blank w.buffer (capacity + 1) w.head 0 n)
              ∙ ap (λ k. slots blank w.buffer (capacity + 1) k 0 n) (sym (next_in w.head head_in)))
      where
        head_in : w.head < capacity + 1
        head_in =
            omega (arith, v.head_is, mod-lt (length w.popped) {m = capacity + 1} (omega arith))

        head_stays : w.head % (capacity + 1) ≡ w.head
        head_stays =
            mod-eq_of_lt
              (omega (arith, v.head_is, mod-lt (length w.popped) {m = capacity + 1} (omega arith)))

  -- What one thread knows is kept by the steps of the other.
  ProducerInv-keep :
      (p : Producer A) (w w' : Shared A)
      → w'.tail ≡ w.tail
      → w'.buffer ≡ w.buffer
      → w'.pushed ≡ w.pushed
      → length w.popped ≤ length w'.popped
      → ProducerInv blank capacity p w
      → ProducerInv blank capacity p w'
  ProducerInv-keep Producer.idle w w' t b p q i = tt
  ProducerInv-keep (Producer.loaded_tail x s) w w' t b p q i = ground arith
  ProducerInv-keep (Producer.loaded_head x s h) w w' t b p q i =
      (i.0 ∙ sym t, (i.1.0, i.1.1, omega arith, rw p (omega arith)))
  ProducerInv-keep (Producer.copied x s) w w' t b p q i =
      (i.0 ∙ sym t, rw p (omega arith), rw b i.2)

  ConsumerInv-keep :
      (c : Consumer A) (w w' : Shared A)
      → w'.head ≡ w.head
      → w'.popped ≡ w.popped
      → length w.pushed ≤ length w'.pushed
      → (length w.popped < length w.pushed
          → get_or w'.buffer w.head blank ≡ get_or w.buffer w.head blank)
      → ConsumerInv blank capacity c w
      → ConsumerInv blank capacity c w'
  ConsumerInv-keep Consumer.idle w w' t p q b i = tt
  ConsumerInv-keep (Consumer.loaded_head h) w w' t p q b i = ground arith
  ConsumerInv-keep (Consumer.loaded_tail h s) w w' t p q b i =
      (i.0 ∙ sym t, (i.1.0, i.1.1, rw p (omega arith), omega arith))
  ConsumerInv-keep (Consumer.copied x h) w w' t p q b i =
      (i.0 ∙ sym t, rw p (omega arith), i.2 ∙ rw (i.0) (sym (b i.1)))

  -- A queue that does not look full from an earlier head has room.
  has_room :
      (k n : ℕ)
      → n ≤ k + capacity
      → (n + 1) % (capacity + 1) ≢ k % (capacity + 1)
      → n < k + capacity
  has_room k n h ne = elim (dec_lt n (k + capacity)) [
    | yes p ↦ p
    | no np ↦
        let e : n + 1 ≡ k + (capacity + 1) = omega arith in
        absurd (ne (ap (λ j. j % (capacity + 1)) e ∙ add-mod_right k (capacity + 1)))
  ]

  -- One that does not look empty up to an earlier tail has an element.
  has_element : (m k : ℕ) → m ≤ k → m % (capacity + 1) ≢ k % (capacity + 1) → m < k
  has_element m k h ne = elim (dec_lt m k) [
    | yes p ↦ p
    | no np ↦ let e : m ≡ k = omega arith in absurd (ne (ap (λ j. j % (capacity + 1)) e))
  ]

  -- Each kind of step keeps the invariant.
  module _ {w : Shared A} (v : IsValid blank capacity w) where
    push_load_head-IsValid :
        (x : A) (t : ℕ)
        → w.producer ≡ Producer.loaded_tail x t
        → IsValid blank capacity (record w { producer = Producer.loaded_head x t w.head })
    push_load_head-IsValid x t e = record {
      storage = v.storage;
      head_is = v.head_is;
      tail_is = v.tail_is;
      order = v.order;
      room = v.room;
      history = v.history;
      producer_inv = (rw e at v.producer_inv, (length w.popped, v.head_is, omega arith, v.room));
      consumer_inv =
          ConsumerInv-keep w.consumer w _ refl refl (omega arith) (λ _. refl) v.consumer_inv;
    }

    push_copy-IsValid :
        (x : A) (t h : ℕ)
        → w.producer ≡ Producer.loaded_head x t h
        → next blank capacity t ≢ h
        → IsValid blank capacity
            (record w { buffer = set w.buffer t x; producer = Producer.copied x t })
    push_copy-IsValid x t h e ne =
        let (t_is, known) = loaded in
        let room = space t_is known in
        rw t_is (record {
          storage = length-set w.buffer w.tail x ∙ v.storage;
          head_is = v.head_is;
          tail_is = v.tail_is;
          order = v.order;
          room = v.room;
          history = v.history ∙ ap (λ c. w.popped ++ c) (sym (contents_copied v x room));
          producer_inv = (
            refl,
            room,
            get_or-set_self w.buffer w.tail x blank (
                omega (
                  arith,
                  v.tail_is,
                  v.storage,
                  mod-lt (length w.pushed) {m = capacity + 1} (omega arith),
                )),
          );
          consumer_inv =
              ConsumerInv-keep w.consumer w _ refl refl (omega arith)
                (λ some_left.
                  get_or-set_ne w.buffer x blank (λ q. tail-ne-head v some_left v.room (sym q)))
                v.consumer_inv;
        })
      where
        loaded : ProducerInv blank capacity (Producer.loaded_head x t h) w
        loaded = rw e at v.producer_inv

        space :
            t ≡ w.tail
            → ((k : ℕ) × (h ≡ k % (capacity + 1))
                × (k ≤ length w.popped)
                × (length w.pushed ≤ k + capacity))
            → length w.pushed < length w.popped + capacity
        space t_is (k, h_is, le, room) =
            let differs : (length w.pushed + 1) % (capacity + 1) ≢ k % (capacity + 1) = λ q. ne (
              ap (next blank capacity) (t_is ∙ v.tail_is)
              ∙ next_mod (length w.pushed)
              ∙ q
              ∙ sym h_is) in
            omega (arith, has_room k (length w.pushed) room differs)

    push_store_tail-IsValid :
        (x : A) (t : ℕ)
        → w.producer ≡ Producer.copied x t
        → IsValid blank capacity (record w {
          tail = next blank capacity t;
          producer = Producer.idle;
          pushed = w.pushed ++ (x ∷ []);
        })
    push_store_tail-IsValid x t e =
        let (t_is, room, stored) = rw e at v.producer_inv in
        let more : length (w.pushed ++ (x ∷ [])) ≡ length w.pushed + 1 =
          omega (arith, length-append w.pushed (x ∷ [])) in
        record {
          storage = v.storage;
          head_is = v.head_is;
          tail_is =
              ap (next blank capacity) (t_is ∙ v.tail_is)
              ∙ next_mod (length w.pushed)
              ∙ ap (λ k. k % (capacity + 1)) (sym more);
          order = omega (arith, v.order, more);
          room = omega (arith, more);
          history =
              ap (λ l. l ++ (x ∷ [])) v.history
              ∙ append_assoc w.popped (contents blank capacity w) (x ∷ [])
              ∙ ap (λ c. w.popped ++ c)
                  (ap (λ y. contents blank capacity w ++ (y ∷ []))
                      (sym stored ∙ ap (λ k. get_or w.buffer k blank) t_is)
                    ∙ sym (contents_pushed v)
                    ∙ ap (slots blank w.buffer (capacity + 1) w.head 0)
                        {x = suc (length w.pushed - length w.popped)}
                        (omega (arith, more, v.order)));
          producer_inv = tt;
          consumer_inv =
              ConsumerInv-keep w.consumer w _ refl refl (omega (arith, more)) (λ _. refl)
                v.consumer_inv;
        }

    pop_copy-IsValid :
        (h t : ℕ)
        → w.consumer ≡ Consumer.loaded_tail h t
        → h ≢ t
        → IsValid blank capacity
            (record w { consumer = Consumer.copied (get_or w.buffer h blank) h })
    pop_copy-IsValid h t e ne = record {
      storage = v.storage;
      head_is = v.head_is;
      tail_is = v.tail_is;
      order = v.order;
      room = v.room;
      history = v.history;
      producer_inv = ProducerInv-keep w.producer w _ refl refl refl (omega arith) v.producer_inv;
      consumer_inv = element (rw e at v.consumer_inv);
    }
      where
        element :
            ConsumerInv blank capacity (Consumer.loaded_tail h t) w
            → ConsumerInv blank capacity (Consumer.copied (get_or w.buffer h blank) h) w
        element (h_is, (k, t_is, le, bound)) = (
          h_is,
          omega (
            arith,
            has_element (length w.popped) k le (λ q. ne (h_is ∙ v.head_is ∙ q ∙ sym t_is)),
          ),
          refl,
        )

    pop_store_head-IsValid :
        (x : A) (h : ℕ)
        → w.consumer ≡ Consumer.copied x h
        → IsValid blank capacity (record w {
          head = next blank capacity h;
          consumer = Consumer.idle;
          popped = w.popped ++ (x ∷ []);
        })
    pop_store_head-IsValid x h e =
        let (h_is, some_left, read) = rw e at v.consumer_inv in
        let more : length (w.popped ++ (x ∷ [])) ≡ length w.popped + 1 =
          omega (arith, length-append w.popped (x ∷ [])) in
        record {
          storage = v.storage;
          head_is =
              ap (next blank capacity) (h_is ∙ v.head_is)
              ∙ next_mod (length w.popped)
              ∙ ap (λ k. k % (capacity + 1)) (sym more);
          tail_is = v.tail_is;
          order = omega (arith, more);
          room = omega (arith, more, v.room);
          history =
              v.history
              ∙ ap (λ c. w.popped ++ c)
                  (contents_popped v (length w.pushed - length (w.popped ++ (x ∷ [])))
                      (omega (arith, more))
                    ∙ ap₂ ◌∷◌ (ap (λ k. get_or w.buffer k blank) (sym h_is) ∙ sym read) (
                        ap
                          (λ k.
                            slots blank w.buffer (capacity + 1) (next blank capacity k) 0
                              (length w.pushed - length (w.popped ++ (x ∷ []))))
                          (sym h_is)))
              ∙ sym (append_assoc w.popped (x ∷ []) _);
          producer_inv =
              ProducerInv-keep w.producer w _ refl refl refl (omega (arith, more)) v.producer_inv;
          consumer_inv = tt;
        }

    -- A step that moves only the producer's place, to one where it knows nothing new.
    producer_moves :
        (p : Producer A)
        → ProducerInv blank capacity p (record w { producer = p })
        → IsValid blank capacity (record w { producer = p })
    producer_moves p i = record {
      storage = v.storage;
      head_is = v.head_is;
      tail_is = v.tail_is;
      order = v.order;
      room = v.room;
      history = v.history;
      producer_inv = i;
      consumer_inv =
          ConsumerInv-keep w.consumer w _ refl refl (omega arith) (λ _. refl) v.consumer_inv;
    }

    consumer_moves :
        (c : Consumer A)
        → ConsumerInv blank capacity c (record w { consumer = c })
        → IsValid blank capacity (record w { consumer = c })
    consumer_moves c i = record {
      storage = v.storage;
      head_is = v.head_is;
      tail_is = v.tail_is;
      order = v.order;
      room = v.room;
      history = v.history;
      producer_inv = ProducerInv-keep w.producer w _ refl refl refl (omega arith) v.producer_inv;
      consumer_inv = i;
    }

  Step-IsValid :
      {w u : Shared A}
      → Step blank capacity w u
      → IsValid blank capacity w
      → IsValid blank capacity u
  Step-IsValid (push_load_tail x e) v = producer_moves v (Producer.loaded_tail x _) refl
  Step-IsValid (push_load_head x t e) v =
      producer_moves v (Producer.loaded_head x t _)
        (rw e at v.producer_inv, (_, v.head_is, omega arith, v.room))
  Step-IsValid (push_full x t h e f) v = producer_moves v Producer.idle tt
  Step-IsValid (push_copy x t h e ne) v = push_copy-IsValid v x t h e ne
  Step-IsValid (push_store_tail x t e) v = push_store_tail-IsValid v x t e
  Step-IsValid (pop_load_head e) v = consumer_moves v (Consumer.loaded_head _) refl
  Step-IsValid (pop_load_tail h e) v =
      consumer_moves v (Consumer.loaded_tail h _)
        (rw e at v.consumer_inv, (_, v.tail_is, v.order, omega arith))
  Step-IsValid (pop_empty h t e f) v = consumer_moves v Consumer.idle tt
  Step-IsValid (pop_copy h t e ne) v = pop_copy-IsValid v h t e ne
  Step-IsValid (pop_store_head x h e) v = pop_store_head-IsValid v x h e

  Reach-IsValid :
      {w u : Shared A}
      → IsValid blank capacity w
      → Reach blank capacity w u
      → IsValid blank capacity u
  Reach-IsValid v here = v
  Reach-IsValid v (then r s) = Step-IsValid s (Reach-IsValid v r)

  initial-IsValid : IsValid blank capacity (initial blank capacity)
  initial-IsValid = record {
    storage = length-replicate (capacity + 1) blank;
    head_is = sym (mod-eq_of_lt (omega arith));
    tail_is = sym (mod-eq_of_lt (omega arith));
    order = omega arith;
    room = omega arith;
    history = refl;
    producer_inv = tt;
    consumer_inv = tt;
  }

  -- Where the number of slots fits into 32 bits, however the steps of the two threads interleave, what was popped, followed by what stands in the ring, is what
  -- was pushed, in order: nothing is lost, repeated or reordered. The ring never holds more than
  -- `capacity` elements.
  pub first_in_first_out :
      {w : Shared A}
      → Reach blank capacity (initial blank capacity) w
      → (w.pushed ≡ w.popped ++ contents blank capacity w)
        × (length (contents blank capacity w) ≤ capacity)
  first_in_first_out {w} r =
      let v = Reach-IsValid initial-IsValid r in
      (
        v.history,
        omega (
          arith,
          v,
          length-slots blank (capacity + 1) w.head w.buffer 0 (length w.pushed - length w.popped),
        ),
      )

  -- In no interleaving do the two threads stand at the same slot: where the number of slots fits into
  -- 32 bits, the producer has loaded both indices and the consumer is about to copy an element out of
  -- its slot, the slot that the producer may write is another one.
  pub slots_apart :
      {w : Shared A} (x : A) (t k h u : ℕ)
      → Reach blank capacity (initial blank capacity) w
      → w.producer ≡ Producer.loaded_head x t k
      → w.consumer ≡ Consumer.loaded_tail h u
      → h ≢ u
      → h ≢ t
  slots_apart {w} x t k h u r p c ne = slots_differ (Reach-IsValid initial-IsValid r)
    where
      slots_differ : IsValid blank capacity w → h ≢ t
      slots_differ v e =
          let (h_is, (m, u_is, le, bound)) =
            let i : ConsumerInv blank capacity (Consumer.loaded_tail h u) w =
              rw c at v.consumer_inv in
            i in
          let (t_is, known) =
            let i : ProducerInv blank capacity (Producer.loaded_head x t k) w =
              rw p at v.producer_inv in
            i in
          let some_left =
            has_element (length w.popped) m le (λ q. ne (h_is ∙ v.head_is ∙ q ∙ sym u_is)) in
          tail-ne-head v (omega arith) v.room (sym h_is ∙ e ∙ t_is)
