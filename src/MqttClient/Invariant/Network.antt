-- ===== src/MqttClient/Invariant/Network.antt =====
-- The callbacks of the network thread keep the client valid.
use mqtt_viewer.Base.{
  ℕ, Bool, List, [], ◌∷◌, Option, none, some, refl, ◌∙◌, inl, inr, leb, ◌==◌, Bool-cases, Bytes,
  codes,
}
use mqtt_viewer.SpscQueue.{spsc_queue_push}
use mqtt_viewer.SpscQueue.Refine.{spsc_queue_push_refines}
use mqtt_viewer.MqttClient.{MqttMessage, Sub, Lib, World}
use mqtt_viewer.MqttClient.Callbacks.{
  take_pending, resubscribe, on_connect, on_disconnect, on_message, on_subscribe, report, enqueue,
  no_message,
}
use mqtt_viewer.MqttClient.Invariant.{
  IsValid, IsValid-kept, note_dropped-IsValid, send_subscribe-IsValid, take_pending-length,
}

module _ (lib : Lib) where
  resubscribe-IsValid :
      (h : ℕ) (ss : List Sub) (w : World)
      → IsValid w.client
      → IsValid (resubscribe lib h ss w).client
  unfolding resubscribe
  resubscribe-IsValid h [] w v = v
  resubscribe-IsValid h (s ∷ ss) w v =
      resubscribe-IsValid h ss _ (send_subscribe-IsValid lib h s.topic s.qos w v)

  pub on_connect-IsValid :
      (h rc : ℕ) (w : World) → IsValid w.client → IsValid (on_connect lib h rc w).client
  unfolding on_connect
  on_connect-IsValid h rc w v = elim (Bool-cases (rc == 0)) [
    | inl e ↦
        simp e (resubscribe-IsValid h w.client.subs _ (IsValid-kept w.client _ refl refl refl v))
    | inr e ↦ simp e (IsValid-kept w.client _ refl refl refl v)
  ]

  pub on_disconnect-IsValid :
      (rc : ℕ) (w : World) → IsValid w.client → IsValid (on_disconnect lib rc w).client
  unfolding on_disconnect
  on_disconnect-IsValid rc w v = elim (Bool-cases (rc == 0)) [
    | inl e ↦ simp e (IsValid-kept w.client _ refl refl refl v)
    | inr e ↦ simp e (IsValid-kept w.client _ refl refl refl v)
  ]

  enqueue-IsValid :
      (m : MqttMessage) (bs : List ℕ) (w : World)
      → IsValid w.client
      → IsValid (enqueue lib m bs w).client
  enqueue-IsValid m bs w v = elim (Bool-cases (spsc_queue_push no_message w.client.msg_queue m).1) [
    | inl e ↦ simp e (record {
      few_subs = v.few_subs;
      slots = v.slots;
      queue = (spsc_queue_push_refines no_message m v.queue).0;
    })
    | inr e ↦
        simp e (
          note_dropped-IsValid lib (codes "queue full") _
            (IsValid-kept w.client _ refl refl refl v))
  ]

  pub on_message-IsValid :
      (block : Option ℕ) (topic payload : Bytes) (qos : ℕ) (retain : Bool) (w : World)
      → IsValid w.client
      → IsValid (on_message lib block topic payload qos retain w).client
  unfolding on_message
  on_message-IsValid block topic [] qos retain w v = enqueue-IsValid _ _ w v
  on_message-IsValid none topic (b ∷ bs) qos retain w v = note_dropped-IsValid lib _ w v
  on_message-IsValid (some n) topic (b ∷ bs) qos retain w v = enqueue-IsValid _ _ w v

  report-IsValid :
      (topic : Bytes) (granted : List ℕ) (w : World)
      → IsValid w.client
      → IsValid (report lib topic granted w).client
  unfolding report
  report-IsValid topic [] w v = v
  report-IsValid topic (code ∷ granted) w v = elim (Bool-cases (leb 0x80 code)) [
    | inl e ↦ simp e (report-IsValid topic granted _ (IsValid-kept w.client _ refl refl refl v))
    | inr e ↦ simp e (report-IsValid topic granted _ (IsValid-kept w.client _ refl refl refl v))
  ]

  pub on_subscribe-IsValid :
      (mid : ℕ) (granted : List ℕ) (w : World)
      → IsValid w.client
      → IsValid (on_subscribe lib mid granted w).client
  unfolding on_subscribe
  on_subscribe-IsValid mid granted w v =
      report-IsValid (take_pending mid w.client.pending_subs).0 granted
        (record w {
          client = record w.client { pending_subs = (take_pending mid w.client.pending_subs).1 };
        })
        (record {
          few_subs = v.few_subs;
          slots = take_pending-length mid w.client.pending_subs ∙ v.slots;
          queue = v.queue;
        })
