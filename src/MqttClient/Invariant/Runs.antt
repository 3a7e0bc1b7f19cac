-- ===== src/MqttClient/Invariant/Runs.antt =====
-- Calls and callbacks in any order.
use mqtt_viewer.Base.{ℕ, Bool, List, [], Option, refl, arith, Bytes}
use mqtt_viewer.SshTunnel.{System}
use mqtt_viewer.SpscQueue.{SpscQueue}
use mqtt_viewer.SpscQueue.Refine
use mqtt_viewer.SpscQueue.Refine.{spsc_queue_push_refines}
use mqtt_viewer.ConnectionLog.{ConnectionLog}
use mqtt_viewer.MqttClient.{MqttMessage, Sub, Lib, World, mqtt_client_new}
use mqtt_viewer.MqttClient.Callbacks.{on_connect, on_disconnect, on_message, on_subscribe}
use mqtt_viewer.MqttClient.Connect.{MqttConnectOpts, mqtt_client_connect}
use mqtt_viewer.MqttClient.Session.{
  mqtt_client_disconnect, mqtt_client_poll_ssh_tunnel, mqtt_client_subscribe,
  mqtt_client_unsubscribe, mqtt_client_publish,
}
use mqtt_viewer.MqttClient.Invariant.{IsValid}
use mqtt_viewer.MqttClient.Invariant.Network.{
  on_connect-IsValid, on_disconnect-IsValid, on_message-IsValid, on_subscribe-IsValid,
}
use mqtt_viewer.MqttClient.Invariant.Calls.{
  disconnect-IsValid, poll-IsValid, subscribe-IsValid, unsubscribe-IsValid, publish-IsValid,
  connect-IsValid,
}

-- One call, of a callback by the network thread or of a function by the main thread; `lib` is what
-- libmosquitto and the clock answer during it.
pub data CallStep (w : World) : World → Type 0 where
  connect_accepted_or_refused : (lib : Lib) (h rc : ℕ) → CallStep w (on_connect lib h rc w)
  connection_lost : (lib : Lib) (rc : ℕ) → CallStep w (on_disconnect lib rc w)
  message_received :
      (lib : Lib) (block : Option ℕ) (topic payload : Bytes) (qos : ℕ) (retain : Bool)
      → CallStep w (on_message lib block topic payload qos retain w)
  subscribe_answered :
      (lib : Lib) (mid : ℕ) (granted : List ℕ) → CallStep w (on_subscribe lib mid granted w)
  connect :
      (lib : Lib) (sys : System) (generated : Bytes) (opts : MqttConnectOpts)
      → CallStep w (mqtt_client_connect lib sys generated opts w).0
  disconnect : (lib : Lib) → CallStep w (mqtt_client_disconnect lib w)
  poll : (lib : Lib) (running : Bool) → CallStep w (mqtt_client_poll_ssh_tunnel lib running w)
  subscribe : (lib : Lib) (s : Sub) → CallStep w (mqtt_client_subscribe lib s w).0
  unsubscribe : (lib : Lib) (topic : Bytes) → CallStep w (mqtt_client_unsubscribe lib topic w).0
  publish :
      (lib : Lib) (topic payload : Bytes) (qos : ℕ) (retain : Bool)
      → CallStep w (mqtt_client_publish lib topic payload qos retain w).0

pub data Reach (w : World) : World → Type 0 where
  here : Reach w w
  then : {u t : World} → Reach w u → CallStep u t → Reach w t

CallStep-IsValid : {w u : World} → CallStep w u → IsValid w.client → IsValid u.client
unfolding mqtt_client_subscribe mqtt_client_unsubscribe mqtt_client_publish
CallStep-IsValid {w} (connect_accepted_or_refused lib h rc) v = on_connect-IsValid lib h rc w v
CallStep-IsValid {w} (connection_lost lib rc) v = on_disconnect-IsValid lib rc w v
CallStep-IsValid {w} (message_received lib block topic payload qos retain) v =
    on_message-IsValid lib block topic payload qos retain w v
CallStep-IsValid {w} (subscribe_answered lib mid granted) v =
    on_subscribe-IsValid lib mid granted w v
CallStep-IsValid {w} (connect lib sys generated opts) v = connect-IsValid lib sys generated opts w v
CallStep-IsValid {w} (disconnect lib) v = disconnect-IsValid lib w v
CallStep-IsValid {w} (poll lib running) v = poll-IsValid lib running w v
CallStep-IsValid {w} (subscribe lib s) v = subscribe-IsValid lib w.client.mosq s w v
CallStep-IsValid {w} (unsubscribe lib topic) v = unsubscribe-IsValid lib w.client.mosq topic w v
CallStep-IsValid {w} (publish lib topic payload qos retain) v =
    publish-IsValid lib w.client.mosq topic payload qos retain w v

-- A new client over a valid queue.
abbrev pub fresh : SpscQueue MqttMessage → ConnectionLog → World
fresh q log = record { client = mqtt_client_new q log; calls = []; freed_blocks = [] }

-- Whatever callbacks and calls follow one another, with whatever answers, a client made over a valid
-- queue never stores more than 32 subscriptions, keeps its 32 slots for pending packets, and leaves
-- its queue valid.
pub Reach-IsValid :
    (q : SpscQueue MqttMessage) (log : ConnectionLog) {w : World}
    → Refine.IsValid q
    → Reach (fresh q log) w
    → IsValid w.client
unfolding mqtt_client_new
Reach-IsValid q log v Reach.here = record { few_subs = omega arith; slots = refl; queue = v }
Reach-IsValid q log v (Reach.then r s) = CallStep-IsValid s (Reach-IsValid q log v r)
