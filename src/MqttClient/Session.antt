-- ===== src/MqttClient/Session.antt =====
-- The other functions that the main thread calls.
use mqtt_viewer.Base.{
  ℕ, Bool, true, false, ◌||◌, List, [], ◌∷◌, ◌++◌, Option, none, some, length, ltb, ◌==◌,
  if◌then◌else◌, Bytes, codes, str_eq,
}
use mqtt_viewer.Util.{truncated}
use mqtt_viewer.ConnectionLog.{LogLevel}
use mqtt_viewer.SshTunnel.{ssh_tunnel_stop, ssh_tunnel_poll_alive}
use mqtt_viewer.MqttClient.{
  MqttConnState, MqttClient, Sub, Call, Lib, World, called, say, store_state, set_mosq, drop_handle,
  send_subscribe, mqtt_client_max_subs,
}

abbrev pub is_connected : MqttConnState → Bool
is_connected MqttConnState.connected = true
is_connected _ = false

abbrev pub is_connecting : MqttConnState → Bool
is_connecting MqttConnState.connecting = true
is_connecting _ = false

unfoldable pub mqtt_client_is_connected : MqttClient → Bool
mqtt_client_is_connected c = is_connected c.conn_state

unfoldable pub mqtt_client_is_connecting : MqttClient → Bool
mqtt_client_is_connecting c = is_connecting c.conn_state

unfoldable pub mqtt_client_last_disconnect_rc : MqttClient → ℕ
mqtt_client_last_disconnect_rc c = c.last_disconnect_rc

-- The stored list; a subscription beyond its 32 places is not kept.
unfoldable pub store_sub : Sub → List Sub → List Sub
store_sub s subs =
    if ltb (length subs) mqtt_client_max_subs
    then subs ++ (record s { topic = truncated 256 s.topic } ∷ [])
    else subs

-- The elements but the last one, and the last one.
unfoldable pub but_last : List Sub → List Sub
but_last [] = []
but_last (s ∷ []) = []
but_last (s ∷ t ∷ ss) = s ∷ but_last (t ∷ ss)

unfoldable pub last_of : Sub → List Sub → Sub
last_of s [] = s
last_of s (t ∷ ss) = last_of t ss

-- The loop of `mqtt_client_unsubscribe`: the last entry takes the place of the first match.
unfoldable pub forget_sub : Bytes → List Sub → List Sub
unfolding but_last last_of
forget_sub topic [] = []
forget_sub topic (s ∷ ss) =
    let rest = forget_sub topic ss in
    if str_eq s.topic topic
    then (elim ss [ [] ↦ [] | t ∷ ts ↦ last_of t ts ∷ but_last (t ∷ ts) ])
    else s ∷ rest

module _ (lib : Lib) where
  -- `if (client->mosq) { .. }`
  abbrev pub end_session : Option ℕ → World → World
  end_session none w = w
  end_session (some h) w =
      let active = is_connected w.client.conn_state || is_connecting w.client.conn_state in
      let stored =
        store_state MqttConnState.disconnected 0 (set_mosq none (drop_handle lib (some h) w)) in
      if active then say lib LogLevel.info (codes "Disconnected") stored else stored

  abbrev pub stop_tunnel : World → World
  stop_tunnel w = record w {
    client = record w.client { ssh_tunnel = (ssh_tunnel_stop w.client.ssh_tunnel).0 };
  }

  unfoldable pub mqtt_client_disconnect : World → World
  mqtt_client_disconnect w = stop_tunnel (end_session w.client.mosq w)

  -- `running` is what `waitpid` says of the tunnel's process.
  unfoldable pub mqtt_client_poll_ssh_tunnel : Bool → World → World
  mqtt_client_poll_ssh_tunnel running w =
      let (tunnel, alive) = ssh_tunnel_poll_alive running w.client.ssh_tunnel in
      let polled = record w { client = record w.client { ssh_tunnel = tunnel } } in
      if w.client.ssh_tunnel.pid == 0
      then w
      else if alive
      then polled
      else say lib LogLevel.error
          (codes
            "SSH tunnel closed unexpectedly - disconnected (reconnect from the profile to re-establish the tunnel)")
          (store_state MqttConnState.disconnected 0
            (set_mosq none (drop_handle lib polled.client.mosq polled)))

  abbrev pub subscribe_failed : Bytes → ℕ → Bytes
  subscribe_failed topic rc =
      truncated 512
        (codes "Subscribe to '" ++ (topic ++ (codes "' failed: " ++ lib.mosquitto_strerror rc)))

  -- The packet is sent at once where the broker has accepted the connection.
  unfoldable pub send_now : ℕ → Sub → World → World
  send_now h s w =
      let (sent, rc) = send_subscribe lib h s.topic s.qos w in
      if is_connected w.client.conn_state
      then (if rc == 0 then sent else say lib LogLevel.error (subscribe_failed s.topic rc) sent)
      else w

  abbrev pub subscribe_on : Option ℕ → Sub → World → World × Bool
  subscribe_on none s w = (w, false)
  subscribe_on (some h) s w = (
    send_now h s (record w { client = record w.client { subs = store_sub s w.client.subs } }),
    true,
  )

  unfoldable pub mqtt_client_subscribe : Sub → World → World × Bool
  mqtt_client_subscribe s w = subscribe_on w.client.mosq s w

  abbrev pub unsubscribe_on : Option ℕ → Bytes → World → World × Bool
  unsubscribe_on none topic w = (w, false)
  unsubscribe_on (some h) topic w =
      let c = Call.unsubscribe h topic in
      let sent = called c w in
      if lib.rc w.calls c == 0
      then (
        record sent { client = record w.client { subs = forget_sub topic w.client.subs } },
        true,
      )
      else (sent, false)

  unfoldable pub mqtt_client_unsubscribe : Bytes → World → World × Bool
  mqtt_client_unsubscribe topic w = unsubscribe_on w.client.mosq topic w

  abbrev pub publish_on : Option ℕ → Bytes → Bytes → ℕ → Bool → World → World × Bool
  publish_on none topic payload qos retain w = (w, false)
  publish_on (some h) topic payload qos retain w =
      let c = Call.publish h topic payload qos retain in (called c w, lib.rc w.calls c == 0)

  unfoldable pub mqtt_client_publish : Bytes → Bytes → ℕ → Bool → World → World × Bool
  mqtt_client_publish topic payload qos retain w =
      publish_on w.client.mosq topic payload qos retain w

  -- The handle and the tunnel end with the client.
  unfoldable pub mqtt_client_destroy : World → World
  mqtt_client_destroy w = stop_tunnel (drop_handle lib w.client.mosq w)
