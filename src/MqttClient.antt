-- ===== src/MqttClient.antt =====
-- src/core/mqtt_client.h and .c: the client around libmosquitto. The client's struct is a record, and
-- its two arrays of subscriptions a list of the `sub_count` entries in use. What libmosquitto is asked
-- to do is recorded as a list of calls, oldest first; its answers are parameters, as functions of the
-- calls made before. A `struct mosquitto*` is a number. Each function holds `sub_mutex` from its first
-- read to its last write of the guarded fields. The children: the callbacks of the network thread,
-- then the functions of the main thread.
pub mod Callbacks
pub mod Connect
pub mod Session
pub mod Subscriptions
pub mod Handles
pub mod Invariant
use mqtt_viewer.Base.{
  ℕ, zero, suc, ◌+◌, ◌-◌, ◌%◌, ◌^◌, Bool, true, false, ◌||◌, List, [], ◌∷◌, ◌++◌, Option, none,
  some, length, set, replicate, ltb, leb, ◌==◌, if◌then◌else◌, Bytes, codes,
}
use mqtt_viewer.Ring.{add32}
use mqtt_viewer.Decimal.{decimal}
use mqtt_viewer.Util.{truncated}
use mqtt_viewer.MessageBuf.{Block}
use mqtt_viewer.SpscQueue.{SpscQueue}
use mqtt_viewer.ConnectionLog.{ConnectionLog, LogLevel, connection_log_add}
use mqtt_viewer.SshTunnel.{SshTunnel, no_tunnel}

abbrev pub mqtt_client_max_subs : ℕ
mqtt_client_max_subs = 32

pub data MqttConnState : Type 0 where
  disconnected connecting connected : MqttConnState

pub record MqttMessage : Type 0 where
  pub timestamp_us : ℕ
  pub topic : Bytes
  pub payload : Option Block
  pub payload_len : ℕ
  pub qos : ℕ
  pub retained : Bool

-- `sub_topics[i]` and `sub_qos[i]`.
pub record Sub : Type 0 where
  pub topic : Bytes
  pub qos : ℕ

pub record PendingSub : Type 0 where
  pub mid : ℕ
  pub topic : Bytes

pub record MqttClient : Type 0 where
  pub mosq : Option ℕ
  pub msg_queue : SpscQueue MqttMessage
  pub log : ConnectionLog
  pub conn_state : MqttConnState
  pub last_disconnect_rc : ℕ
  pub subs : List Sub
  pub pending_subs : List PendingSub
  pub pending_next : ℕ
  pub ssh_tunnel : SshTunnel
  pub dropped_count : ℕ
  pub last_drop_log_us : ℕ

-- The calls of libmosquitto; the first argument is the handle.
pub data Call : Type 0 where
  new : Option Bytes → Bool → Call
  destroy disconnect loop_start : ℕ → Call
  loop_stop : ℕ → Bool → Call
  connect : ℕ → Bytes → ℕ → ℕ → Call
  reconnect_delay_set : ℕ → ℕ → ℕ → Bool → Call
  protocol_version transport : ℕ → ℕ → Call
  http_path : ℕ → Bytes → Call
  username_pw_set : ℕ → Bytes → Option Bytes → Call
  tls_set : ℕ → Option Bytes → Option Bytes → Option Bytes → Call
  tls_opts_set : ℕ → ℕ → Option Bytes → Call
  tls_insecure_set : ℕ → Bool → Call
  callbacks_set : ℕ → Call
  subscribe : ℕ → Bytes → ℕ → Call
  unsubscribe : ℕ → Bytes → Call
  publish : ℕ → Bytes → Bytes → ℕ → Bool → Call

-- libmosquitto and the system: the return code of a call (0 is MOSQ_ERR_SUCCESS), the message number
-- of a SUBSCRIBE, the handle that `new` gives, the texts, and whether a file can be read. The clock
-- stands still during one call of a function below.
pub record Lib : Type 0 where
  pub rc : List Call → Call → ℕ
  pub mid : List Call → Call → ℕ
  pub made : List Call → Call → Option ℕ
  pub mosquitto_strerror : ℕ → Bytes
  pub connack_string : ℕ → Bytes
  pub strerror : ℕ → Bytes
  pub errno : ℕ
  pub readable : Bytes → Bool
  pub now : ℕ

-- The client, the calls made so far, and the payload blocks freed.
pub record World : Type 0 where
  pub client : MqttClient
  pub calls : List Call
  pub freed_blocks : List ℕ

abbrev pub no_pending : PendingSub
no_pending = record { mid = 0; topic = [] }

-- `mqtt_client_new`, where `calloc` succeeds.
unfoldable pub mqtt_client_new : SpscQueue MqttMessage → ConnectionLog → MqttClient
mqtt_client_new msg_queue log = record {
  mosq = none;
  msg_queue = msg_queue;
  log = log;
  conn_state = MqttConnState.disconnected;
  last_disconnect_rc = 0;
  subs = [];
  pending_subs = replicate mqtt_client_max_subs no_pending;
  pending_next = 0;
  ssh_tunnel = no_tunnel;
  dropped_count = 0;
  last_drop_log_us = 0;
}

abbrev pub called : Call → World → World
called c w = record w { calls = w.calls ++ (c ∷ []) }

-- `atomic_store` of the connection state and of the last return code.
abbrev pub store_state : MqttConnState → ℕ → World → World
store_state s rc w = record w {
  client = record w.client { conn_state = s; last_disconnect_rc = rc };
}

-- `client->mosq = m`
abbrev pub set_mosq : Option ℕ → World → World
set_mosq m w = record w { client = record w.client { mosq = m } }

module _ (lib : Lib) where
  abbrev pub say : LogLevel → Bytes → World → World
  say level text w = record w {
    client = record w.client { log = connection_log_add lib.now w.client.log level text };
  }

  abbrev pub drop_text : ℕ → Bytes → Bytes
  drop_text n why =
      truncated 128
        (codes "Dropped " ++ (decimal n ++ (codes " message(s) so far (" ++ (why ++ codes ")"))))

  -- The counter and the difference of the times wrap.
  unfoldable pub note_dropped : Bytes → World → World
  note_dropped why w =
      let n = add32 w.client.dropped_count 1 in
      let c = record w.client { dropped_count = n } in
      let since = (lib.now + 2 ^ 64 - w.client.last_drop_log_us) % 2 ^ 64 in
      if n == 1 || leb 5000000 since
      then say LogLevel.warn (drop_text n why)
          (record w { client = record c { last_drop_log_us = lib.now } })
      else record w { client = c }

  -- The packet's number is kept in the next slot of the ring.
  abbrev pub keep_pending : ℕ → Bytes → MqttClient → MqttClient
  keep_pending mid topic c = record c {
    pending_subs =
        set c.pending_subs (c.pending_next % mqtt_client_max_subs)
          (record { mid = mid; topic = truncated 256 topic });
    pending_next = add32 c.pending_next 1;
  }

  -- The return code comes second.
  unfoldable pub send_subscribe : ℕ → Bytes → ℕ → World → World × ℕ
  send_subscribe h topic qos w =
      let c = Call.subscribe h topic qos in
      let rc = lib.rc w.calls c in
      let sent = called c w in
      if rc == 0
      then (record sent { client = keep_pending (lib.mid w.calls c) topic w.client }, rc)
      else (sent, rc)

  unfoldable pub stop_network_thread : ℕ → World → World
  stop_network_thread h w =
      called (Call.loop_stop h (if lib.rc w.calls (Call.disconnect h) == 0 then false else true))
        (called (Call.disconnect h) w)

  -- `stop_network_thread(client->mosq); mosquitto_destroy(client->mosq);` where `mosq` is not NULL.
  abbrev pub drop_handle : Option ℕ → World → World
  drop_handle none w = w
  drop_handle (some h) w = called (Call.destroy h) (stop_network_thread h w)
