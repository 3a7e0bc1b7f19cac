-- ===== src/MqttClient/Invariant.antt =====
-- What holds of the client between any two calls, from whichever thread.
pub mod Network
pub mod Calls
pub mod Runs
use mqtt_viewer.Base.{
  ℕ, suc, ◌+◌, ◌-◌, ◌%◌, ◌^◌, ◌≤◌, Bool, true, false, ◌||◌, List, [], ◌∷◌, Option, none, some, ◌≡◌,
  refl, ap, ◌∙◌, inl, inr, arith, length, length-append, length-set, leb, ◌==◌, Bool-cases, Bytes,
  codes, take,
}
use mqtt_viewer.Ring.{add32}
use mqtt_viewer.SshTunnel.{System, Started, ssh_tunnel_start, ssh_tunnel_poll_alive}
use mqtt_viewer.SpscQueue.{SpscQueue, spsc_queue_push}
use mqtt_viewer.SpscQueue.Refine
use mqtt_viewer.SpscQueue.Refine.{spsc_queue_push_refines}
use mqtt_viewer.ConnectionLog.{ConnectionLog}
use mqtt_viewer.MqttClient.{
  MqttMessage, MqttClient, Sub, PendingSub, Call, Lib, World, drop_handle, stop_network_thread,
  note_dropped, send_subscribe, mqtt_client_new,
}
use mqtt_viewer.MqttClient.Callbacks.{
  take_pending, resubscribe, on_connect, on_disconnect, on_message, on_subscribe, report, enqueue,
  no_message,
}
use mqtt_viewer.MqttClient.Connect.{
  MqttConnectOpts, tunnel_opts, open_session, close_session, via_tunnel, start_session,
  mqtt_client_connect,
}
use mqtt_viewer.MqttClient.Handles.Attempts.{attempt, open_session-IsKept}
use mqtt_viewer.MqttClient.Session.{
  subscribe_on, unsubscribe_on, publish_on, is_connected, is_connecting, end_session, store_sub,
  forget_sub, but_last, mqtt_client_disconnect, mqtt_client_poll_ssh_tunnel, mqtt_client_subscribe,
  mqtt_client_unsubscribe, mqtt_client_publish, send_now,
}

-- The arrays hold what they have room for, and the queue is one.
pub record IsValid (c : MqttClient) : Type 0 where
  pub few_subs : length c.subs ≤ 32
  pub slots : length c.pending_subs ≡ 32
  pub queue : Refine.IsValid c.msg_queue

-- The log and the other fields do not count.
pub IsValid-kept :
    (c d : MqttClient)
    → d.subs ≡ c.subs
    → d.pending_subs ≡ c.pending_subs
    → d.msg_queue ≡ c.msg_queue
    → IsValid c
    → IsValid d
IsValid-kept c d s p q v = record {
  few_subs = omega (arith, v.few_subs, ap length s);
  slots = ap length p ∙ v.slots;
  queue = rw q v.queue;
}

pub take_pending-length :
    (mid : ℕ) (ps : List PendingSub) → length (take_pending mid ps).1 ≡ length ps
unfolding take_pending
take_pending-length mid [] = refl
take_pending-length mid (p ∷ ps) = ground (arith, take_pending-length mid ps)

but_last-length : (s : Sub) (ss : List Sub) → length (but_last (s ∷ ss)) ≡ length ss
unfolding but_last
but_last-length s [] = refl
but_last-length s (t ∷ ts) = ap suc (but_last-length t ts)

pub forget_sub-length : (topic : Bytes) (ss : List Sub) → length (forget_sub topic ss) ≤ length ss
unfolding forget_sub
forget_sub-length topic [] = omega arith
forget_sub-length topic (s ∷ []) = ground arith
forget_sub-length topic (s ∷ t ∷ ts) =
    ground (arith, forget_sub-length topic (t ∷ ts), but_last-length t ts)

pub store_sub-length : (s : Sub) (ss : List Sub) → length ss ≤ 32 → length (store_sub s ss) ≤ 32
unfolding store_sub
store_sub-length s ss h =
    ground (arith, length-append ss (record s { topic = take 255 s.topic } ∷ []))

module _ (lib : Lib) where
  pub note_dropped-IsValid :
      (why : Bytes) (w : World) → IsValid w.client → IsValid (note_dropped lib why w).client
  unfolding note_dropped
  note_dropped-IsValid why w v =
      elim (Bool-cases (
        (add32 w.client.dropped_count 1 == 1)
        || leb 5000000 ((lib.now + 2 ^ 64 - w.client.last_drop_log_us) % 2 ^ 64))) [
          | inl e ↦ simp e (IsValid-kept w.client _ refl refl refl v)
          | inr e ↦ simp e (IsValid-kept w.client _ refl refl refl v)
        ]

  pub send_subscribe-IsValid :
      (h : ℕ) (topic : Bytes) (qos : ℕ) (w : World)
      → IsValid w.client
      → IsValid (send_subscribe lib h topic qos w).0.client
  unfolding send_subscribe
  send_subscribe-IsValid h topic qos w v =
      elim (Bool-cases (lib.rc w.calls (Call.subscribe h topic qos) == 0)) [
        | inl e ↦ simp e (record {
          few_subs = v.few_subs;
          slots = length-set w.client.pending_subs _ _ ∙ v.slots;
          queue = v.queue;
        })
        | inr e ↦ simp e v
      ]
