-- ===== src/MainLoop/Received.antt =====
-- What the drain loop does with the payload blocks of the messages.
use mqtt_viewer.Base.{
  occurrences, occurrences-append, ℕ, ◌+◌, List, [], ◌∷◌, ◌++◌, Option, none, some, ◌≡◌, refl, ap,
  ◌∙◌, arith, take, drop,
}
use mqtt_viewer.MessageBuf.{freed, allocated, message_buf_push}
use mqtt_viewer.MessageBuf.Refine
use mqtt_viewer.MessageBuf.Refine.{owned, message_buf_push_refines, message_buf_push-owned}
use mqtt_viewer.SpscQueue.{spsc_queue_drain}
use mqtt_viewer.SpscQueue.Refine as Queue
use mqtt_viewer.SpscQueue.Refine.{spsc_queue_drain_refines}
use mqtt_viewer.TopicTree.{TopicTree, topic_tree_insert}
use mqtt_viewer.MqttClient.{MqttMessage}
use mqtt_viewer.MqttClient.Callbacks.{no_message}
use mqtt_viewer.MainLoop.{
  App, count_received, record_of, record_message, receive, receive_all, drain,
}

-- The payload blocks of messages.
abbrev pub payloads : List MqttMessage → List ℕ
payloads [] = []
payloads (m ∷ ms) = freed m.payload ++ payloads ms

-- The blocks that were freed or are owned by the history, against those allocated.
abbrev pub settled : ℕ → App → ℕ
settled x app =
    occurrences x app.freed_blocks + occurrences x (owned (Refine.contents app.global_history))

-- One step frees or stores each of its blocks once: those of `bs`, which came with messages, and those
-- that it allocated.
pub record IsSettled (x : ℕ) (bs : List ℕ) (app app' : App) : Type 0 where
  pub valid : Refine.IsValid app'.global_history
  pub blocks :
      settled x app' + occurrences x app.made_blocks
      ≡ settled x app + occurrences x bs + occurrences x app'.made_blocks

record_message-IsSettled :
    (x ui_tick_us : ℕ) (m : MqttMessage) (app : App) (o : TopicTree × Option ℕ)
    → Refine.IsValid app.global_history
    → IsSettled x (freed m.payload) app (record_message ui_tick_us m app o)
record_message-IsSettled x ui_tick_us m app (t, none) v = record {
  valid = v;
  blocks = omega (arith, occurrences-append x app.freed_blocks (freed m.payload));
}
record_message-IsSettled x ui_tick_us m app (t, some i) v =
    let t' = count_received ui_tick_us m i t in
    let r = record_of app t' i m in
    let pushed = message_buf_push app.next_block app.global_history r in
    let copy = allocated app.next_block r in
    record {
      valid = (message_buf_push_refines app.next_block r v).0;
      blocks = omega (
        arith,
        occurrences-append x app.freed_blocks (pushed.1 ++ freed m.payload),
        occurrences-append x pushed.1 (freed m.payload),
        occurrences-append x app.made_blocks copy,
        occurrences-append x pushed.1 (owned (Refine.contents pushed.0)),
        occurrences-append x (owned (Refine.contents app.global_history)) copy,
        ap (occurrences x) (message_buf_push-owned app.next_block r v),
      );
    }

receive_all-IsSettled :
    (x ui_tick_us : ℕ) (ms : List MqttMessage) (app : App)
    → Refine.IsValid app.global_history
    → IsSettled x (payloads ms) app (receive_all ui_tick_us ms app)
unfolding receive_all receive
receive_all-IsSettled x ui_tick_us [] app v = record { valid = v; blocks = omega arith }
receive_all-IsSettled x ui_tick_us (m ∷ ms) app v =
    let s =
      record_message-IsSettled x ui_tick_us m app (topic_tree_insert app.topic_tree m.topic) v in
    let r = receive_all-IsSettled x ui_tick_us ms (receive ui_tick_us m app) s.valid in
    record {
      valid = r.valid;
      blocks =
          omega (arith, s.blocks, r.blocks, occurrences-append x (freed m.payload) (payloads ms));
    }

record_message-queue :
    (ui_tick_us : ℕ) (m : MqttMessage) (app : App) (o : TopicTree × Option ℕ)
    → (record_message ui_tick_us m app o).msg_queue ≡ app.msg_queue
record_message-queue ui_tick_us m app (t, none) = refl
record_message-queue ui_tick_us m app (t, some i) = refl

receive_all-queue :
    (ui_tick_us : ℕ) (ms : List MqttMessage) (app : App)
    → (receive_all ui_tick_us ms app).msg_queue ≡ app.msg_queue
unfolding receive_all receive
receive_all-queue ui_tick_us [] app = refl
receive_all-queue ui_tick_us (m ∷ ms) app =
    receive_all-queue ui_tick_us ms (receive ui_tick_us m app)
    ∙ record_message-queue ui_tick_us m app (topic_tree_insert app.topic_tree m.topic)

-- A drain takes the 256 oldest messages from the queue, keeps the queue and the history valid, and
-- loses no payload block and frees none twice: each block that came with a message or was allocated
-- for the history is freed or owned by the history as often as it came, where the queue and the
-- history were valid.
pub drain-IsSettled :
    (x ui_tick_us : ℕ) (app : App)
    → Queue.IsValid app.msg_queue
    → Refine.IsValid app.global_history
    → let app' = drain ui_tick_us app in
      Queue.IsValid app'.msg_queue
      × (Queue.contents no_message app'.msg_queue
          ≡ drop 256 (Queue.contents no_message app.msg_queue))
      × IsSettled x (payloads (take 256 (Queue.contents no_message app.msg_queue))) app app'
unfolding drain
drain-IsSettled x ui_tick_us app q v =
    let d = spsc_queue_drain no_message 256 app.msg_queue in
    let (qv, taken, left) = spsc_queue_drain_refines no_message 256 q in
    let begun = record app { msg_queue = d.0 } in
    let s = receive_all-IsSettled x ui_tick_us d.1 begun v in
    let same = receive_all-queue ui_tick_us d.1 begun in
    (
      rw same qv,
      ap (Queue.contents no_message) same ∙ left,
      record {
        valid = s.valid;
        blocks =
            s.blocks
            ∙ ap
                (λ ms.
                  settled x app
                  + occurrences x (payloads ms)
                  + occurrences x (drain ui_tick_us app).made_blocks)
                taken;
      },
    )
