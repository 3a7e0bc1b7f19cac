-- ===== src/MqttClient/Callbacks.antt =====
-- The callbacks that libmosquitto's network thread calls.
use mqtt_viewer.Base.{
  ℕ, ◌+◌, ◌-◌, ◌/◌, ◌%◌, ◌^◌, Bool, false, not, ◌&&◌, List, [], ◌∷◌, ◌++◌, Option, none, some,
  length, ltb, leb, ◌==◌, if◌then◌else◌, Bytes, codes, str_eq,
}
use mqtt_viewer.Decimal.{decimal}
use mqtt_viewer.Util.{truncated}
use mqtt_viewer.MessageBuf.{Block}
use mqtt_viewer.SpscQueue.{spsc_queue_push}
use mqtt_viewer.ConnectionLog.{LogLevel}
use mqtt_viewer.MqttClient.{
  MqttConnState, MqttMessage, Sub, PendingSub, Lib, World, say, store_state, note_dropped,
  send_subscribe,
}

-- What an unwritten slot of the queue holds.
abbrev pub no_message : MqttMessage
no_message = record {
  timestamp_us = 0;
  topic = [];
  payload = none;
  payload_len = 0;
  qos = 0;
  retained = false;
}

-- The loop of `on_subscribe`: the topic of the first slot that waits for `mid`, and the slots left.
unfoldable pub take_pending : ℕ → List PendingSub → Bytes × List PendingSub
take_pending mid [] = ([], [])
take_pending mid (p ∷ ps) =
    let (topic, rest) = take_pending mid ps in
    if p.mid == mid && not (length p.topic == 0)
    then (p.topic, record p { topic = [] } ∷ ps)
    else (topic, p ∷ rest)

abbrev pub hex_digit : ℕ → ℕ
hex_digit d = if ltb d 10 then b'0' + d else b'A' + (d - 10)

-- "0x%02X" of a reason code, which is a byte.
abbrev pub hex_byte : ℕ → Bytes
hex_byte n = b'0' ∷ b'x' ∷ hex_digit (n / 16) ∷ hex_digit (n % 16) ∷ []

abbrev pub known : Bytes → Bytes
known topic = if length topic == 0 then b'?' ∷ [] else topic

abbrev pub denied : Bytes → ℕ → Bytes
denied topic code = truncated 384 (
    codes "Subscription to '"
    ++ (known topic
        ++ (codes "' denied by broker (reason "
            ++ (hex_byte code ++ codes ") - no messages will arrive"))))

abbrev pub acknowledged : Bytes → ℕ → Bytes
acknowledged topic code = truncated 384 (
    codes "Subscription to '"
    ++ (known topic ++ (codes "' acknowledged (QoS " ++ (decimal code ++ codes ")"))))

module _ (lib : Lib) where
  -- The loop of `on_connect` over the stored subscriptions; return codes are not looked at.
  unfoldable pub resubscribe : ℕ → List Sub → World → World
  resubscribe h [] w = w
  resubscribe h (s ∷ ss) w = resubscribe h ss (send_subscribe lib h s.topic s.qos w).0

  unfoldable pub on_connect : ℕ → ℕ → World → World
  unfolding resubscribe
  on_connect h rc w =
      if rc == 0
      then resubscribe h w.client.subs (
          say lib LogLevel.info (codes "Connected to broker")
            (store_state MqttConnState.connected 0 w))
      else say lib LogLevel.error
          (truncated 256 (codes "Connection failed: " ++ lib.connack_string rc))
          (store_state MqttConnState.disconnected w.client.last_disconnect_rc w)

  -- libmosquitto's text, or the system's where that says nothing.
  abbrev pub reason : ℕ → Bytes
  reason rc =
      let text = lib.mosquitto_strerror rc in
      if not (length text == 0) && not (str_eq text (codes "Unknown error"))
      then text
      else lib.strerror rc

  unfoldable pub on_disconnect : ℕ → World → World
  on_disconnect rc w =
      let stored = store_state MqttConnState.disconnected rc w in
      if rc == 0
      then say lib LogLevel.info (codes "Disconnected cleanly") stored
      else say lib LogLevel.warn
          (truncated 256 (
            codes "Connection lost: "
            ++ (reason rc ++ (codes " (rc=" ++ (decimal rc ++ codes ")")))))
          stored

  abbrev pub message_of : Bytes → Bytes → ℕ → Bool → Option Block → MqttMessage
  message_of topic bytes qos retain payload = record {
    timestamp_us = lib.now;
    topic = truncated 256 topic;
    payload = payload;
    payload_len = length bytes % 2 ^ 32;
    qos = qos % 256;
    retained = retain;
  }

  -- `if (!spsc_queue_push(..)) { free(m.payload); note_dropped(..); }`
  abbrev pub enqueue : MqttMessage → List ℕ → World → World
  enqueue m blocks w =
      let (q, done) = spsc_queue_push no_message w.client.msg_queue m in
      if done
      then record w { client = record w.client { msg_queue = q } }
      else note_dropped lib (codes "queue full")
          (record w { freed_blocks = w.freed_blocks ++ blocks })

  -- `block` is the name of the block that `malloc` gives, `none` for NULL.
  unfoldable pub on_message : Option ℕ → Bytes → Bytes → ℕ → Bool → World → World
  on_message block topic [] qos retain w = enqueue (message_of topic [] qos retain none) [] w
  on_message none topic (b ∷ bs) qos retain w = note_dropped lib (codes "out of memory") w
  on_message (some n) topic (b ∷ bs) qos retain w =
      enqueue (message_of topic (b ∷ bs) qos retain (some (record { block = n; bytes = b ∷ bs })))
        (n ∷ []) w

  -- The loop over the granted codes.
  unfoldable pub report : Bytes → List ℕ → World → World
  report topic [] w = w
  report topic (code ∷ granted) w = report topic granted (
      if leb 0x80 code
      then say lib LogLevel.error (denied topic code) w
      else say lib LogLevel.info (acknowledged topic code) w)

  unfoldable pub on_subscribe : ℕ → List ℕ → World → World
  unfolding take_pending report
  on_subscribe mid granted w =
      let (topic, pending) = take_pending mid w.client.pending_subs in
      report topic granted (record w { client = record w.client { pending_subs = pending } })
