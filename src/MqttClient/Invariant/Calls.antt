-- ===== src/MqttClient/Invariant/Calls.antt =====
-- The functions of the main thread keep the client valid.
use mqtt_viewer.Base.{
  ℕ, Bool, true, false, ◌||◌, Option, none, some, ◌≡◌, refl, ap, inl, inr, arith, ◌==◌, Bool-cases,
  Bytes, codes,
}
use mqtt_viewer.SshTunnel.{System, Started, ssh_tunnel_start, ssh_tunnel_poll_alive}
use mqtt_viewer.MqttClient.{Sub, Call, Lib, World, drop_handle, stop_network_thread, send_subscribe}
use mqtt_viewer.MqttClient.Connect.{
  MqttConnectOpts, tunnel_opts, open_session, close_session, via_tunnel, start_session,
  mqtt_client_connect,
}
use mqtt_viewer.MqttClient.Handles.Attempts.{attempt, open_session-IsKept}
use mqtt_viewer.MqttClient.Session.{
  subscribe_on, unsubscribe_on, publish_on, is_connected, is_connecting, end_session, store_sub,
  mqtt_client_disconnect, mqtt_client_poll_ssh_tunnel, send_now,
}
use mqtt_viewer.MqttClient.Invariant.{
  IsValid, IsValid-kept, forget_sub-length, send_subscribe-IsValid, store_sub-length,
}

module _ (lib : Lib) where
  send_now-IsValid :
      (h : ℕ) (s : Sub) (w : World) → IsValid w.client → IsValid (send_now lib h s w).client
  unfolding send_now
  send_now-IsValid h s w v =
      let k = send_subscribe-IsValid lib h s.topic s.qos w v in
      elim (Bool-cases (is_connected w.client.conn_state)) [
        | inr e ↦ simp e v
        | inl e ↦ elim (Bool-cases ((send_subscribe lib h s.topic s.qos w).1 == 0)) [
          | inl q ↦ simp (e, q) k
          | inr q ↦ simp (e, q) (IsValid-kept _ _ refl refl refl k)
        ]
      ]

  pub disconnect-IsValid :
      (w : World) → IsValid w.client → IsValid (mqtt_client_disconnect lib w).client
  unfolding mqtt_client_disconnect
  disconnect-IsValid w v =
      IsValid-kept w.client _ (by_handle w.client.mosq).0 (by_handle w.client.mosq).1
        (by_handle w.client.mosq).2 v
    where
      by_handle :
          (m : Option ℕ)
          → let c = (end_session lib m w).client in
            (c.subs ≡ w.client.subs)
            × (c.pending_subs ≡ w.client.pending_subs)
            × (c.msg_queue ≡ w.client.msg_queue)
      by_handle none = (refl, refl, refl)
      by_handle (some h) =
          elim (Bool-cases
            (is_connected w.client.conn_state || is_connecting w.client.conn_state)) [
              | inl e ↦ unfold stop_network_thread in simp e (refl, refl, refl)
              | inr e ↦ unfold stop_network_thread in simp e (refl, refl, refl)
            ]

  drop_handle-IsValid :
      (m : Option ℕ) (w : World) → IsValid w.client → IsValid (drop_handle lib m w).client
  unfolding stop_network_thread
  drop_handle-IsValid none w v = v
  drop_handle-IsValid (some h) w v = v

  pub poll-IsValid :
      (running : Bool) (w : World)
      → IsValid w.client
      → IsValid (mqtt_client_poll_ssh_tunnel lib running w).client
  unfolding mqtt_client_poll_ssh_tunnel
  poll-IsValid running w v =
      let out = ssh_tunnel_poll_alive running w.client.ssh_tunnel in
      let polled : World = record w { client = record w.client { ssh_tunnel = out.0 } } in
      let k = IsValid-kept w.client polled.client refl refl refl v in
      elim (Bool-cases (w.client.ssh_tunnel.pid == 0)) [
        | inl e ↦ simp e v
        | inr e ↦ elim (Bool-cases out.1) [
          | inl q ↦ simp (e, q) k
          | inr q ↦
              simp (e, q)
                (IsValid-kept _ _ refl refl refl (drop_handle-IsValid polled.client.mosq polled k))
        ]
      ]

  pub subscribe-IsValid :
      (m : Option ℕ) (s : Sub) (w : World)
      → IsValid w.client
      → IsValid (subscribe_on lib m s w).0.client
  subscribe-IsValid none s w v = v
  subscribe-IsValid (some h) s w v =
      send_now-IsValid h s
        (record w { client = record w.client { subs = store_sub s w.client.subs } })
        (record {
          few_subs = store_sub-length s w.client.subs v.few_subs;
          slots = v.slots;
          queue = v.queue;
        })

  pub unsubscribe-IsValid :
      (m : Option ℕ) (topic : Bytes) (w : World)
      → IsValid w.client
      → IsValid (unsubscribe_on lib m topic w).0.client
  unsubscribe-IsValid none topic w v = v
  unsubscribe-IsValid (some h) topic w v =
      elim (Bool-cases (lib.rc w.calls (Call.unsubscribe h topic) == 0)) [
        | inl q ↦ simp q (record {
          few_subs = omega (arith, v.few_subs, forget_sub-length topic w.client.subs);
          slots = v.slots;
          queue = v.queue;
        })
        | inr q ↦ simp q v
      ]

  pub publish-IsValid :
      (m : Option ℕ) (topic payload : Bytes) (qos : ℕ) (retain : Bool) (w : World)
      → IsValid w.client
      → IsValid (publish_on lib m topic payload qos retain w).0.client
  publish-IsValid none topic payload qos retain w v = v
  publish-IsValid (some h) topic payload qos retain w v = v

  open_session-IsValid :
      (generated host : Bytes) (port : ℕ) (opts : MqttConnectOpts) (w : World)
      → IsValid w.client
      → IsValid (open_session lib generated host port opts w).0.client
  open_session-IsValid generated host port opts w v =
      let p = open_session-IsKept lib generated host port opts w in
      IsValid-kept (attempt lib w).client _ (ap (λ c. c.subs) p) (ap (λ c. c.pending_subs) p)
        (ap (λ c. c.msg_queue) p)
        (record { few_subs = omega arith; slots = v.slots; queue = v.queue })

  start_session-IsValid :
      (sys : System) (generated : Bytes) (opts : MqttConnectOpts) (tunnel : Bool) (w : World)
      → IsValid w.client
      → IsValid (start_session lib sys generated opts tunnel w).0.client
  start_session-IsValid sys generated opts false w v =
      open_session-IsValid generated opts.host opts.port opts w v
  start_session-IsValid sys generated opts true w v =
      by_done (ssh_tunnel_start sys (tunnel_opts opts) w.client.log).0
        (ssh_tunnel_start sys (tunnel_opts opts) w.client.log).0.done
    where
      by_done :
          (s : Started) (done : Bool) → IsValid (via_tunnel lib generated opts s done w).0.client
      by_done s true =
          open_session-IsValid generated (codes "127.0.0.1") s.tunnel.local_port opts _
            (IsValid-kept w.client _ refl refl refl v)
      by_done s false = IsValid-kept w.client _ refl refl refl v

  pub connect-IsValid :
      (sys : System) (generated : Bytes) (opts : MqttConnectOpts) (w : World)
      → IsValid w.client
      → IsValid (mqtt_client_connect lib sys generated opts w).0.client
  unfolding mqtt_client_connect close_session
  connect-IsValid sys generated opts w v =
      start_session-IsValid sys generated opts opts.ssh_tunnel_enabled _ (
        IsValid-kept (drop_handle lib w.client.mosq w).client _ refl refl refl
          (drop_handle-IsValid w.client.mosq w v))
