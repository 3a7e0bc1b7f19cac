-- ===== src/MqttClient/Handles/Attempts.antt =====
-- What an attempt to connect leaves alone, and the state it ends in.
use mqtt_viewer.Base.{
  ℕ, Bool, true, false, [], Option, none, some, ◌≡◌, inl, inr, refl, ap, ◌∙◌, ◌==◌, if◌then◌else◌,
  Bool-cases, Bytes,
}
use mqtt_viewer.SshTunnel.{is_set, System}
use mqtt_viewer.MqttClient.{
  MqttConnState, MqttClient, Call, Lib, World, called, store_state, set_mosq,
}
use mqtt_viewer.MqttClient.Connect.{
  MqttConnectOpts, set_transport, set_auth, set_tls, configure, start_loop, dial, with_handle,
  open_session, close_session, mqtt_client_connect, effective_id, start_session, non_empty, note_ca,
  ca_of, tls_handshake, tls_ver_str, protocol_of,
}
use mqtt_viewer.MqttClient.Session.{is_connecting, mqtt_client_is_connecting}

-- The client's fields but its log and its handle.
abbrev pub core : MqttClient → MqttClient
core c = record c {
  mosq = none;
  log = record { entries = []; capacity = 0; head = 0; count = 0; generation = 0 };
}

module _ (lib : Lib) where
  -- The settings leave alone all but the log and the handle.
  abbrev pub IsKept : World → World → Type 0
  IsKept w w' = core w'.client ≡ core w.client

  set_transport-IsKept :
      (h : ℕ) (opts : MqttConnectOpts) (w : World) → IsKept w (set_transport lib h opts w)
  set_transport-IsKept h opts w = elim (Bool-cases (opts.transport == 1)) [
    | inl e ↦ simp e (by_path (non_empty opts.ws_path))
    | inr e ↦ simp e refl
  ]
    where
      by_path :
          (path : Option Bytes)
          → IsKept w (elim path [
            | none ↦ called (Call.transport h 1) w
            | some p ↦ called (Call.http_path h p) (called (Call.transport h 1) w)
          ])
      by_path none = refl
      by_path (some p) = refl

  set_auth-IsKept : (h : ℕ) (opts : MqttConnectOpts) (w : World) → IsKept w (set_auth lib h opts w)
  set_auth-IsKept h opts w = by_name opts.username
    where
      by_name :
          (name : Option Bytes)
          → IsKept w
              (elim name [ none ↦ w | some n ↦ called (Call.username_pw_set h n opts.password) w ])
      by_name none = refl
      by_name (some n) = refl

  note_ca-IsKept : (ca : Option Bytes) (w : World) → IsKept w (note_ca lib ca w)
  note_ca-IsKept none w = refl
  note_ca-IsKept (some path) w = refl

  tls_handshake-IsKept :
      (h : ℕ) (opts : MqttConnectOpts) (w : World) → IsKept w (tls_handshake lib h opts w)
  tls_handshake-IsKept h opts w =
      elim (Bool-cases (
        lib.rc w.calls (
          Call.tls_set h (ca_of lib opts) (non_empty opts.tls_client_cert)
            (non_empty opts.tls_client_key))
        == 0)) [ inl e ↦ simp e refl | inr e ↦ simp e refl ]

  set_tls-IsKept : (h : ℕ) (opts : MqttConnectOpts) (w : World) → IsKept w (set_tls lib h opts w)
  unfolding set_tls
  set_tls-IsKept h opts w =
      by_flags (opts.tls_version == 0) opts.tls_verify (is_set opts.tls_ca_cert)
    where
      by_flags :
          (off verify given : Bool)
          → let noted = if given then w else note_ca lib (ca_of lib opts) w in
            let v =
              called
                (Call.tls_opts_set h (if verify then 1 else 0) (tls_ver_str opts.tls_version))
                (tls_handshake lib h opts noted) in
            let out : World =
              if off then w else if verify then v else called (Call.tls_insecure_set h true) v in
            IsKept w out
      by_flags true verify given = refl
      by_flags false true true = tls_handshake-IsKept h opts w
      by_flags false false true = tls_handshake-IsKept h opts w
      by_flags false true false =
          tls_handshake-IsKept h opts (note_ca lib (ca_of lib opts) w)
          ∙ note_ca-IsKept (ca_of lib opts) w
      by_flags false false false =
          tls_handshake-IsKept h opts (note_ca lib (ca_of lib opts) w)
          ∙ note_ca-IsKept (ca_of lib opts) w

  configure-IsKept :
      (h : ℕ) (opts : MqttConnectOpts) (w : World) → IsKept w (configure lib h opts w)
  unfolding configure
  configure-IsKept h opts w =
      let a =
        called (Call.protocol_version h (protocol_of opts.protocol_version))
          (called (Call.reconnect_delay_set h 1 30 true) w) in
      let b = set_transport lib h opts a in
      set_tls-IsKept h opts (set_auth lib h opts b)
      ∙ set_auth-IsKept h opts b
      ∙ set_transport-IsKept h opts a

  start_loop-IsKept : (h : ℕ) (w : World) → IsKept w (start_loop lib h w).0
  unfolding start_loop
  start_loop-IsKept h w = elim (Bool-cases (lib.rc w.calls (Call.loop_start h) == 0)) [
    | inl e ↦ simp e refl
    | inr e ↦ simp e refl
  ]

  dial-IsKept :
      (h : ℕ) (host : Bytes) (port : ℕ) (opts : MqttConnectOpts) (w : World)
      → IsKept w (dial lib h host port opts w).0
  unfolding dial
  dial-IsKept h host port opts w =
      elim (Bool-cases (lib.rc w.calls (Call.connect h host port opts.keepalive_secs) == 0)) [
        | inl e ↦ simp e (start_loop-IsKept h _)
        | inr e ↦ simp e refl
      ]

  with_handle-IsKept :
      (m : Option ℕ) (host : Bytes) (port : ℕ) (opts : MqttConnectOpts) (w : World)
      → IsKept w (with_handle lib m host port opts w).0
  with_handle-IsKept none host port opts w = refl
  with_handle-IsKept (some h) host port opts w =
      dial-IsKept h host port opts (configure lib h opts (set_mosq (some h) w))
      ∙ configure-IsKept h opts (set_mosq (some h) w)

  -- An attempt starts with no subscriptions and in the state `connecting`.
  abbrev pub attempt : World → World
  attempt w =
      let begun = store_state MqttConnState.connecting 0 w in
      record begun { client = record begun.client { subs = [] } }

  pub open_session-IsKept :
      (generated host : Bytes) (port : ℕ) (opts : MqttConnectOpts) (w : World)
      → IsKept (attempt w) (open_session lib generated host port opts w).0
  unfolding open_session
  open_session-IsKept generated host port opts w =
      with_handle-IsKept
        (lib.made (attempt w).calls (Call.new (effective_id generated opts) opts.clean_session))
        host port opts
        (called (Call.new (effective_id generated opts) opts.clean_session) (attempt w))

  open_session-connecting :
      (generated host : Bytes) (port : ℕ) (opts : MqttConnectOpts) (w : World)
      → (open_session lib generated host port opts w).0.client.conn_state ≡ MqttConnState.connecting
  unfolding open_session
  open_session-connecting generated host port opts w =
      ap (λ c. c.conn_state) (open_session-IsKept generated host port opts w)

  -- A connect without a tunnel leaves the client connecting, before any callback, whether it returns
  -- true or false: a failed attempt still counts as one in progress.
  pub mqtt_client_connect_leaves_connecting :
      (sys : System) (generated : Bytes) (opts : MqttConnectOpts) (w : World)
      → opts.ssh_tunnel_enabled ≡ false
      → mqtt_client_is_connecting (mqtt_client_connect lib sys generated opts w).0.client ≡ true
  unfolding mqtt_client_connect mqtt_client_is_connecting
  mqtt_client_connect_leaves_connecting sys generated opts w e =
      ap
        (λ b.
          is_connecting
            (start_session lib sys generated opts b (close_session lib w)).0.client.conn_state)
        e
      ∙ ap is_connecting
          (open_session-connecting generated opts.host opts.port opts (close_session lib w))
