-- ===== src/Tests/Client.antt =====
-- src/core/mqtt_client.c with a library that accepts each call, and src/core/ssh_tunnel.c with a
-- system whose ssh exits at once.
use mqtt_viewer.Base.{
  ◌+◌, true, false, [], ◌∷◌, none, some, ◌≡◌, refl, arith, length, codes, str_eq,
}
use mqtt_viewer.ConnectionLog.{ConnectionLog, connection_log_init}
use mqtt_viewer.SpscQueue.{SpscQueue, spsc_queue_init}
use mqtt_viewer.SpscQueue.Refine.{spsc_queue_init-IsValid}
use mqtt_viewer.SshTunnel.{
  reserve_free_port, push_all, is_set, wait_for, System, no_tunnel, ssh_tunnel_start,
  ssh_tunnel_build_argv, ssh_tunnel_max_args, arguments,
}
use mqtt_viewer.SshTunnel.Children.{IsOwned, ssh_tunnel_start-IsOwned}
use mqtt_viewer.SshTunnel.Argv.{ssh_tunnel_build_argv-fits, ssh_tunnel_build_argv_hides_password}
use mqtt_viewer.MqttClient.{MqttConnState, MqttMessage, Sub, Call, Lib, World, mqtt_client_new}
use mqtt_viewer.MqttClient.Callbacks.{no_message, on_connect}
use mqtt_viewer.MqttClient.Connect.{MqttConnectOpts, tunnel_opts, mqtt_client_connect}
use mqtt_viewer.MqttClient.Session.{forget_sub, mqtt_client_disconnect, mqtt_client_is_connecting}
use mqtt_viewer.MqttClient.Subscriptions.{stored, forget_sub-stored, on_connect_resubscribes}
use mqtt_viewer.MqttClient.Handles.{
  farewell, mqtt_client_connect_dangles, mqtt_client_disconnect_ends,
}
use mqtt_viewer.MqttClient.Handles.Attempts.{mqtt_client_connect_leaves_connecting}
use mqtt_viewer.MqttClient.Invariant.{IsValid}
use mqtt_viewer.MqttClient.Invariant.Runs.{CallStep, Reach, fresh, Reach-IsValid}

abbrev pub quiet : Lib
quiet = record {
  rc = λ calls c. 0;
  mid = λ calls c. length calls + 1;
  made = λ calls c. some (length calls);
  mosquitto_strerror = λ e. codes "error";
  connack_string = λ e. codes "refused";
  strerror = λ e. codes "error";
  errno = 0;
  readable = λ path. false;
  now = 1000;
}

abbrev ssh_exits : System
ssh_exits = record {
  socket = record { opened = true; bound = true; named = true; port = 40000 };
  environ = [];
  envp_ok = true;
  spawn_rc = 0;
  not_found = false;
  pid = 77;
  exited = λ i. true;
  connectable = λ i. false;
  strerror = λ e. codes "error";
  now = 1000;
}

abbrev silent : ConnectionLog
silent = connection_log_init 4

abbrev queue : SpscQueue MqttMessage
queue = spsc_queue_init no_message 2

abbrev weather : Sub
weather = record { topic = codes "w/+"; qos = 1 }

abbrev door : Sub
door = record { topic = codes "door"; qos = 0 }

-- A connected client with two subscriptions.
abbrev pub online : World
online = record {
  client = record (mqtt_client_new queue silent) {
    mosq = some 5;
    conn_state = MqttConnState.connected;
    subs = weather ∷ door ∷ [];
  };
  calls = [];
  freed_blocks = [];
}

abbrev home : MqttConnectOpts
home = record {
  host = codes "broker";
  port = 1883;
  client_id = none;
  clean_session = true;
  keepalive_secs = 60;
  username = none;
  password = none;
  protocol_version = 311;
  transport = 0;
  ws_path = none;
  tls_ca_cert = none;
  tls_client_cert = none;
  tls_client_key = none;
  tls_version = 0;
  tls_verify = true;
  ssh_tunnel_enabled = false;
  ssh_jump_host = codes "jump";
  ssh_jump_port = 0;
  ssh_jump_user = none;
  ssh_jump_key_path = none;
  ssh_jump_password = none;
}

abbrev away : MqttConnectOpts
away = record home { ssh_tunnel_enabled = true }

argv_fits_example :
    ssh_tunnel_build_argv (tunnel_opts away) 40000 ssh_tunnel_max_args
    ≡ some (arguments (tunnel_opts away) 40000)
argv_fits_example = ssh_tunnel_build_argv-fits (tunnel_opts away) 40000

password_example :
    ssh_tunnel_build_argv (record (tunnel_opts away) { jump_password = some (b'x' ∷ []) }) 40000 20
    ≡ ssh_tunnel_build_argv
        (record (tunnel_opts away) { jump_password = some (b'y' ∷ b'z' ∷ []) })
        40000
        20
password_example =
    ssh_tunnel_build_argv_hides_password (tunnel_opts away) 40000 20 b'x' b'y' [] (b'z' ∷ [])

tunnel_example : IsOwned 77 [] (ssh_tunnel_start ssh_exits (tunnel_opts away) silent).0
tunnel_example = ssh_tunnel_start-IsOwned ssh_exits (omega arith) (tunnel_opts away) silent

forget_example : stored (codes "door") (forget_sub (codes "w/+") (weather ∷ door ∷ [])) ≡ 1
unfolding str_eq
forget_example = forget_sub-stored (codes "w/+") (codes "door") (weather ∷ door ∷ [])

resubscribe_example :
    let w' = on_connect quiet 5 0 online in
    (w'.calls ≡ Call.subscribe 5 (codes "w/+") 1 ∷ Call.subscribe 5 (codes "door") 0 ∷ [])
    × (w'.client.subs ≡ weather ∷ door ∷ [])
    × (w'.client.conn_state ≡ MqttConnState.connected)
resubscribe_example = on_connect_resubscribes quiet 5 online

dangles_example :
    let (w', done) = mqtt_client_connect quiet ssh_exits (codes "id") away online in
    (done ≡ false) × (w'.client.mosq ≡ some 5) × (w'.calls ≡ farewell quiet 5 [])
unfolding ssh_tunnel_start reserve_free_port ssh_tunnel_build_argv push_all arguments is_set
    wait_for
dangles_example =
    mqtt_client_connect_dangles quiet ssh_exits (codes "id") away online 5 refl refl refl

connecting_example :
    mqtt_client_is_connecting
      (mqtt_client_connect quiet ssh_exits (codes "id") home online).0.client
    ≡ true
connecting_example =
    mqtt_client_connect_leaves_connecting quiet ssh_exits (codes "id") home online refl

disconnect_example :
    let w' = mqtt_client_disconnect quiet online in
    (w'.calls ≡ farewell quiet 5 [])
    × (w'.client.mosq ≡ none)
    × (w'.client.ssh_tunnel ≡ no_tunnel)
    × (w'.client.conn_state ≡ MqttConnState.disconnected)
    × (w'.client.last_disconnect_rc ≡ 0)
disconnect_example = mqtt_client_disconnect_ends quiet online 5 refl

-- The client connects, the broker accepts, and a filter is subscribed.
client_example :
    IsValid (mqtt_client_connect quiet ssh_exits (codes "id") home (fresh queue silent)).0.client
client_example =
    Reach-IsValid queue silent (spsc_queue_init-IsValid no_message 2 (omega arith)).0
      (Reach.then Reach.here (CallStep.connect quiet ssh_exits (codes "id") home))
