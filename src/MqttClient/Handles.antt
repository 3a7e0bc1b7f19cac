-- ===== src/MqttClient/Handles.antt =====
-- Which handles of libmosquitto the client keeps, and when it counts as connecting.
pub mod Attempts
use mqtt_viewer.Base.{
  ℕ, Bool, true, false, ◌||◌, List, [], ◌∷◌, ◌++◌, append_assoc, Option, none, some, ◌≡◌, inl, inr,
  refl, ap, ◌∙◌, ◌==◌, if◌then◌else◌, Bool-cases, Bytes,
}
use mqtt_viewer.SshTunnel.{is_set, no_tunnel, System, ssh_tunnel_start, ssh_tunnel_stop}
use mqtt_viewer.MqttClient.{
  MqttConnState, MqttClient, Call, Lib, World, called, store_state, set_mosq, drop_handle,
  stop_network_thread,
}
use mqtt_viewer.MqttClient.Connect.{
  MqttConnectOpts, tunnel_opts, set_transport, set_auth, set_tls, configure, start_loop, dial,
  with_handle, open_session, close_session, mqtt_client_connect, effective_id, via_tunnel,
  start_session, non_empty, note_ca, ca_of, tls_handshake, tls_ver_str, protocol_of,
}
use mqtt_viewer.MqttClient.Session.{
  is_connected, is_connecting, mqtt_client_is_connecting, mqtt_client_disconnect, end_session,
  stop_tunnel,
}

-- The three calls that end a handle.
abbrev pub farewell : Lib → ℕ → List Call → List Call
farewell lib h calls =
    Call.disconnect h
    ∷ Call.loop_stop h (if lib.rc calls (Call.disconnect h) == 0 then false else true)
    ∷ Call.destroy h
    ∷ []

module _ (lib : Lib) where
  drop_handle-calls :
      (h : ℕ) (w : World) → (drop_handle lib (some h) w).calls ≡ w.calls ++ farewell lib h w.calls
  unfolding stop_network_thread
  drop_handle-calls h w =
      ap (λ l. l ++ (Call.destroy h ∷ []))
        (append_assoc w.calls (Call.disconnect h ∷ [])
          (Call.loop_stop h (if lib.rc w.calls (Call.disconnect h) == 0 then false else true) ∷ []))
      ∙ append_assoc w.calls _ (Call.destroy h ∷ [])

  drop_handle-client : (m : Option ℕ) (w : World) → (drop_handle lib m w).client ≡ w.client
  unfolding stop_network_thread
  drop_handle-client none w = refl
  drop_handle-client (some h) w = refl

  close_session-mosq : (w : World) → (close_session lib w).client.mosq ≡ w.client.mosq
  unfolding close_session
  close_session-mosq w = ap (λ c. c.mosq) (drop_handle-client w.client.mosq w)

  close_session-calls :
      (w : World) (h : ℕ)
      → w.client.mosq ≡ some h
      → (close_session lib w).calls ≡ w.calls ++ farewell lib h w.calls
  unfolding close_session
  close_session-calls w h m = ap (λ m. (drop_handle lib m w).calls) m ∙ drop_handle-calls h w

  -- A connect through a tunnel that does not come up ends the handle of the earlier connection, as
  -- the calls tell, and returns false with that handle still in `mosq`: it dangles.
  pub mqtt_client_connect_dangles :
      (sys : System) (generated : Bytes) (opts : MqttConnectOpts) (w : World) (h : ℕ)
      → w.client.mosq ≡ some h
      → opts.ssh_tunnel_enabled ≡ true
      → (ssh_tunnel_start sys (tunnel_opts opts) (close_session lib w).client.log).0.done ≡ false
      → let (w', done) = mqtt_client_connect lib sys generated opts w in
        (done ≡ false) × (w'.client.mosq ≡ some h) × (w'.calls ≡ w.calls ++ farewell lib h w.calls)
  unfolding mqtt_client_connect
  mqtt_client_connect_dangles sys generated opts w h m e f =
      let closed = close_session lib w in
      let s = (ssh_tunnel_start sys (tunnel_opts opts) closed.client.log).0 in
      let p =
        ap (λ b. start_session lib sys generated opts b closed) e
        ∙ ap (λ b. via_tunnel lib generated opts s b closed) f in
      (
        ap (λ r. r.1) p,
        ap (λ r. r.0.client.mosq) p ∙ close_session-mosq w ∙ m,
        ap (λ r. r.0.calls) p ∙ close_session-calls w h m,
      )

  -- A disconnect ends the handle and the tunnel, forgets the handle, and leaves the client neither
  -- connected nor connecting, with no error to report.
  pub mqtt_client_disconnect_ends :
      (w : World) (h : ℕ)
      → w.client.mosq ≡ some h
      → let w' = mqtt_client_disconnect lib w in
        (w'.calls ≡ w.calls ++ farewell lib h w.calls)
        × (w'.client.mosq ≡ none)
        × (w'.client.ssh_tunnel ≡ no_tunnel)
        × (w'.client.conn_state ≡ MqttConnState.disconnected)
        × (w'.client.last_disconnect_rc ≡ 0)
  unfolding mqtt_client_disconnect ssh_tunnel_stop
  mqtt_client_disconnect_ends w h m =
      let p = ap (λ m. stop_tunnel lib (end_session lib m w)) m in
      let q = ended in
      (
        ap (λ u. u.calls) p ∙ q.0,
        ap (λ u. u.client.mosq) p ∙ q.1,
        refl,
        ap (λ u. u.client.conn_state) p ∙ q.2,
        ap (λ u. u.client.last_disconnect_rc) p ∙ q.3,
      )
    where
      ended :
          let u = end_session lib (some h) w in
          (u.calls ≡ w.calls ++ farewell lib h w.calls)
          × (u.client.mosq ≡ none)
          × (u.client.conn_state ≡ MqttConnState.disconnected)
          × (u.client.last_disconnect_rc ≡ 0)
      ended =
          elim (Bool-cases
            (is_connected w.client.conn_state || is_connecting w.client.conn_state)) [
              | inl e ↦ simp e (drop_handle-calls h w, refl, refl, refl)
              | inr e ↦ simp e (drop_handle-calls h w, refl, refl, refl)
            ]
