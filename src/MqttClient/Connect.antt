-- ===== src/MqttClient/Connect.antt =====
-- `mqtt_client_connect`, in the order of its calls.
use mqtt_viewer.Base.{
  ℕ, Bool, true, false, not, ◌&&◌, List, [], ◌∷◌, ◌++◌, Option, none, some, ◌==◌, if◌then◌else◌,
  Bytes, codes,
}
use mqtt_viewer.Decimal.{decimal}
use mqtt_viewer.Util.{truncated}
use mqtt_viewer.ConnectionLog.{LogLevel}
use mqtt_viewer.SshTunnel.{
  SshTunnelOpts, Started, System, ssh_tunnel_start, ssh_tunnel_stop, is_set,
}
use mqtt_viewer.MqttClient.{
  MqttConnState, Call, Lib, World, called, say, store_state, set_mosq, drop_handle,
}

-- A string that may be NULL is `none` there.
pub record MqttConnectOpts : Type 0 where
  pub host : Bytes
  pub port : ℕ
  pub client_id : Option Bytes
  pub clean_session : Bool
  pub keepalive_secs : ℕ
  pub username : Option Bytes
  pub password : Option Bytes
  pub protocol_version : ℕ
  pub transport : ℕ
  pub ws_path : Option Bytes
  pub tls_ca_cert : Option Bytes
  pub tls_client_cert : Option Bytes
  pub tls_client_key : Option Bytes
  pub tls_version : ℕ
  pub tls_verify : Bool
  pub ssh_tunnel_enabled : Bool
  pub ssh_jump_host : Bytes
  pub ssh_jump_port : ℕ
  pub ssh_jump_user : Option Bytes
  pub ssh_jump_key_path : Option Bytes
  pub ssh_jump_password : Option Bytes

abbrev pub tunnel_opts : MqttConnectOpts → SshTunnelOpts
tunnel_opts opts = record {
  target_host = opts.host;
  target_port = opts.port;
  jump_host = opts.ssh_jump_host;
  jump_port = opts.ssh_jump_port;
  jump_user = opts.ssh_jump_user;
  jump_key_path = opts.ssh_jump_key_path;
  jump_password = opts.ssh_jump_password;
}

-- `(s && s[0]) ? s : NULL`
abbrev pub non_empty : Option Bytes → Option Bytes
non_empty s = if is_set s then s else none

-- The persistent session's name; `generated` is the text made from the clock, "mqttviewer-%08lx".
abbrev pub effective_id : Bytes → MqttConnectOpts → Option Bytes
effective_id generated opts =
    if not opts.clean_session && not (is_set opts.client_id) then some generated else opts.client_id

-- MQTT_PROTOCOL_V5, V31 and V311.
abbrev pub protocol_of : ℕ → ℕ
protocol_of v = if v == 5 then 5 else if v == 31 then 3 else 4

abbrev pub sys_ca_paths : List Bytes
sys_ca_paths =
    codes "/etc/ssl/cert.pem"
    ∷ codes "/etc/ssl/certs/ca-certificates.crt"
    ∷ codes "/etc/pki/tls/certs/ca-bundle.crt"
    ∷ []

unfoldable pub first_readable : (Bytes → Bool) → List Bytes → Option Bytes
first_readable readable [] = none
first_readable readable (p ∷ ps) = if readable p then some p else first_readable readable ps

-- "tlsv1.2" and "tlsv1.3".
abbrev pub tls_ver_str : ℕ → Option Bytes
tls_ver_str v =
    if v == 12 then some (codes "tlsv1.2") else if v == 13 then some (codes "tlsv1.3") else none

module _ (lib : Lib) where
  -- libmosquitto 2.1 or later.
  abbrev pub set_transport : ℕ → MqttConnectOpts → World → World
  set_transport h opts w =
      let ws = called (Call.transport h 1) w in
      if opts.transport == 1
      then elim (non_empty opts.ws_path) [
        | none ↦ ws
        | some path ↦ called (Call.http_path h path) ws
      ]
      else w

  abbrev pub set_auth : ℕ → MqttConnectOpts → World → World
  set_auth h opts w = elim opts.username [
    | none ↦ w
    | some name ↦ called (Call.username_pw_set h name opts.password) w
  ]

  -- The CA certificate, looked for among the system's where none is given.
  abbrev pub note_ca : Option Bytes → World → World
  note_ca none w = w
  note_ca (some path) w =
      say lib LogLevel.info (truncated 320 (codes "TLS: no CA cert specified, using " ++ path)) w

  abbrev pub ca_of : MqttConnectOpts → Option Bytes
  ca_of opts = elim (non_empty opts.tls_ca_cert) [
    | none ↦ first_readable lib.readable sys_ca_paths
    | some path ↦ some path
  ]

  abbrev pub tls_handshake : ℕ → MqttConnectOpts → World → World
  tls_handshake h opts w =
      let c =
        Call.tls_set h (ca_of opts) (non_empty opts.tls_client_cert)
          (non_empty opts.tls_client_key) in
      let rc = lib.rc w.calls c in
      if rc == 0
      then called c w
      else say lib LogLevel.warn
          (truncated 256 (codes "TLS setup failed: " ++ lib.mosquitto_strerror rc)) (called c w)

  unfoldable pub set_tls : ℕ → MqttConnectOpts → World → World
  set_tls h opts w =
      let noted = if is_set opts.tls_ca_cert then w else note_ca (ca_of opts) w in
      let versioned =
        called
          (Call.tls_opts_set h (if opts.tls_verify then 1 else 0) (tls_ver_str opts.tls_version))
          (tls_handshake h opts noted) in
      if opts.tls_version == 0
      then w
      else if opts.tls_verify
      then versioned
      else called (Call.tls_insecure_set h true) versioned

  -- All the settings between `mosquitto_new` and `mosquitto_connect`.
  unfoldable pub configure : ℕ → MqttConnectOpts → World → World
  unfolding set_tls
  configure h opts w = called (Call.callbacks_set h) (
      set_tls h opts (
        set_auth h opts (
          set_transport h opts (
            called (Call.protocol_version h (protocol_of opts.protocol_version))
              (called (Call.reconnect_delay_set h 1 30 true) w)))))

  abbrev pub connect_failed : ℕ → World → World
  connect_failed rc w =
      say lib LogLevel.error (truncated 512 (codes "Connect failed: " ++ lib.mosquitto_strerror rc))
        w

  -- `mosquitto_loop_start`
  unfoldable pub start_loop : ℕ → World → World × Bool
  start_loop h w =
      let c = Call.loop_start h in
      if lib.rc w.calls c == 0 then (called c w, true) else (
        set_mosq none (
            called (Call.destroy h)
              (say lib LogLevel.error (codes "Failed to start MQTT loop thread") (called c w))),
        false,
      )

  -- `mosquitto_connect`
  unfoldable pub dial : ℕ → Bytes → ℕ → MqttConnectOpts → World → World × Bool
  dial h host port opts w =
      let said =
        say lib LogLevel.info
          (truncated 512
            (codes "Connecting to " ++ (host ++ (b':' ∷ (decimal port ++ codes "...")))))
          w in
      let c = Call.connect h host port opts.keepalive_secs in
      let rc = lib.rc said.calls c in
      if rc == 0 then start_loop h (called c said) else (connect_failed rc (called c said), false)

  abbrev pub creation_failed : Bytes
  creation_failed = truncated 256 (
      codes "Failed to create MQTT client (errno "
      ++ (decimal lib.errno ++ (b':' ∷ b' ' ∷ (lib.strerror lib.errno ++ codes ")"))))

  -- What follows `mosquitto_new`.
  abbrev pub with_handle : Option ℕ → Bytes → ℕ → MqttConnectOpts → World → World × Bool
  with_handle none host port opts w =
      (say lib LogLevel.error creation_failed (set_mosq none w), false)
  with_handle (some h) host port opts w =
      dial h host port opts (configure h opts (set_mosq (some h) w))

  -- From `atomic_store(&client->conn_state, MQTT_CS_CONNECTING)`.
  unfoldable pub open_session : Bytes → Bytes → ℕ → MqttConnectOpts → World → World × Bool
  open_session generated host port opts w =
      let begun = store_state MqttConnState.connecting 0 w in
      let cleared = record begun { client = record begun.client { subs = [] } } in
      let c = Call.new (effective_id generated opts) opts.clean_session in
      with_handle (lib.made cleared.calls c) host port opts (called c cleared)

  -- The end of the earlier connection; `mosq` keeps its value.
  unfoldable pub close_session : World → World
  close_session w =
      let dropped = drop_handle lib w.client.mosq w in
      record dropped {
        client = record dropped.client {
          ssh_tunnel = (ssh_tunnel_stop dropped.client.ssh_tunnel).0;
        };
      }

  abbrev pub tunnelled : Started → World → World
  tunnelled s w = record w { client = record w.client { ssh_tunnel = s.tunnel; log = s.log } }

  -- `if (!ssh_tunnel_start(..)) return false;`, where the flag is its result.
  abbrev pub via_tunnel : Bytes → MqttConnectOpts → Started → Bool → World → World × Bool
  via_tunnel generated opts s true w =
      open_session generated (codes "127.0.0.1") s.tunnel.local_port opts (tunnelled s w)
  via_tunnel generated opts s false w = (tunnelled s w, false)

  -- The flag is `ssh_tunnel_enabled`.
  abbrev pub start_session : System → Bytes → MqttConnectOpts → Bool → World → World × Bool
  start_session sys generated opts false w = open_session generated opts.host opts.port opts w
  start_session sys generated opts true w =
      let s = (ssh_tunnel_start sys (tunnel_opts opts) w.client.log).0 in
      via_tunnel generated opts s s.done w

  -- The flag is the C function's result.
  unfoldable pub mqtt_client_connect : System → Bytes → MqttConnectOpts → World → World × Bool
  mqtt_client_connect sys generated opts w =
      start_session sys generated opts opts.ssh_tunnel_enabled (close_session w)
