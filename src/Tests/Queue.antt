-- ===== src/Tests/Queue.antt =====
-- src/model/spsc_queue.c on a queue of two elements, called in turn and by two threads.
use mqtt_viewer.Base.{ℕ, ◌≤◌, List, [], ◌∷◌, ◌++◌, ◌≡◌, ◌≢◌, refl, arith, length, take, drop, ◌==◌}
use mqtt_viewer.SpscQueue.{
  SpscQueue, spsc_queue_init, spsc_queue_push, spsc_queue_pop, spsc_queue_drain, spsc_queue_count,
  spsc_queue_empty,
}
use mqtt_viewer.SpscQueue.Refine
use mqtt_viewer.SpscQueue.Refine.{
  IsValid, enqueued, dequeued, spsc_queue_init-IsValid, spsc_queue_push_refines,
  spsc_queue_pop_refines, spsc_queue_drain_refines, spsc_queue_count-contents,
}
use mqtt_viewer.SpscQueue.Threads
use mqtt_viewer.SpscQueue.Threads.{Shared, Producer, Consumer, Step, Reach}
use mqtt_viewer.SpscQueue.Threads.Safety.{initial, first_in_first_out, slots_apart}

-- The ring has three slots; the element 8 stands in the last one, 9 in the first.
abbrev wrapped : SpscQueue ℕ
wrapped = record { buffer = 9 ∷ 0 ∷ 8 ∷ []; capacity = 2; head = 2; tail = 1 }

abbrev held : SpscQueue ℕ → List ℕ
held q = Refine.contents 0 q

wrapped-IsValid : IsValid wrapped
wrapped-IsValid = record {
  storage = refl;
  small = omega arith;
  head_in = omega arith;
  tail_in = omega arith;
}

queue_init_example : IsValid {A = ℕ} (spsc_queue_init 0 2) × (held (spsc_queue_init 0 2) ≡ [])
queue_init_example = spsc_queue_init-IsValid 0 2 (omega arith)

queue_push_example :
    let (q', done) = spsc_queue_push 0 wrapped 7 in
    IsValid q' × ((held q', done) ≡ enqueued 0 2 (held wrapped) 7)
queue_push_example = spsc_queue_push_refines 0 7 wrapped-IsValid

queue_pop_example :
    let (q', out) = spsc_queue_pop 0 wrapped in
    IsValid q' × ((held q', out) ≡ dequeued 0 (held wrapped))
queue_pop_example = spsc_queue_pop_refines 0 wrapped-IsValid

queue_drain_example :
    let (q', xs) = spsc_queue_drain 0 5 wrapped in
    IsValid q' × (xs ≡ take 5 (held wrapped)) × (held q' ≡ drop 5 (held wrapped))
queue_drain_example = spsc_queue_drain_refines 0 5 wrapped-IsValid

queue_count_example :
    (spsc_queue_count wrapped ≡ length (held wrapped))
    × (spsc_queue_empty wrapped ≡ (length (held wrapped) == 0))
queue_count_example = spsc_queue_count-contents 0 wrapped-IsValid

drain_run : (spsc_queue_drain 0 5 wrapped).1 ≡ 8 ∷ 9 ∷ []
unfolding spsc_queue_drain spsc_queue_pop
drain_run = refl

-- One element pushed; then the producer is about to copy the next one while the consumer is about to
-- read the first.
abbrev start : Shared ℕ
start = initial 0 2

abbrev w₁ : Shared ℕ
w₁ = record start { producer = Producer.loaded_tail 7 0 }

abbrev w₂ : Shared ℕ
w₂ = record w₁ { producer = Producer.loaded_head 7 0 0 }

abbrev w₃ : Shared ℕ
w₃ = record w₂ { buffer = 7 ∷ 0 ∷ 0 ∷ []; producer = Producer.copied 7 0 }

abbrev w₄ : Shared ℕ
w₄ = record w₃ { tail = 1; producer = Producer.idle; pushed = 7 ∷ [] }

abbrev w₅ : Shared ℕ
w₅ = record w₄ { producer = Producer.loaded_tail 8 1 }

abbrev w₆ : Shared ℕ
w₆ = record w₅ { producer = Producer.loaded_head 8 1 0 }

abbrev w₇ : Shared ℕ
w₇ = record w₆ { consumer = Consumer.loaded_head 0 }

abbrev w₈ : Shared ℕ
w₈ = record w₇ { consumer = Consumer.loaded_tail 0 1 }

reach₄ : Reach 0 2 start w₄
reach₄ =
    Reach.then
      (Reach.then
        (Reach.then (Reach.then Reach.here (Step.push_load_tail 7 refl))
          (Step.push_load_head 7 0 refl))
        (Step.push_copy 7 0 0 refl (omega arith)))
      (Step.push_store_tail 7 0 refl)

reach₈ : Reach 0 2 start w₈
reach₈ =
    Reach.then
      (Reach.then
        (Reach.then (Reach.then reach₄ (Step.push_load_tail 8 refl)) (Step.push_load_head 8 1 refl))
        (Step.pop_load_head refl))
      (Step.pop_load_tail 0 refl)

order_example :
    (w₈.pushed ≡ w₈.popped ++ Threads.contents 0 2 w₈) × (length (Threads.contents 0 2 w₈) ≤ 2)
order_example = first_in_first_out 0 2 (omega arith) reach₈

apart_example : ◌≢◌ {A = ℕ} 0 1
apart_example = slots_apart 0 2 (omega arith) 8 1 0 0 1 reach₈ refl refl (omega arith)
