-- ===== src/MainLoop.antt =====
-- src/main.c: what one round of the main loop does with messages and requests: the drain of the queue
-- into the tree and the history, "Clear History" on a topic, the disconnect request, the connection
-- state shown, and the periodic flush. Drawing, input, the rates per second, the chart samples and the
-- CSV export's file are left out. The clock enters as `ui_tick_us` and as the messages' times.
pub mod Received
pub mod Requests
use mqtt_viewer.Base.{
  ℕ, zero, suc, ◌+◌, ◌-◌, ◌%◌, ◌^◌, Bool, true, false, not, ◌&&◌, ◌||◌, List, [], ◌∷◌, ◌++◌, map,
  Option, none, some, length, take, replicate, get_elem?, ltb, leb, ◌==◌, if◌then◌else◌, Bytes,
  codes,
}
use mqtt_viewer.Ring.{add64}
use mqtt_viewer.Decimal.{decimal}
use mqtt_viewer.Util.{truncated, util_preview_sanitize}
use mqtt_viewer.MessageBuf.{
  Block, MessageRecord, MessageBuf, freed, allocated, message_buf_push, message_buf_clear,
  message_buf_remove_topic, message_buf_generation,
}
use mqtt_viewer.SpscQueue.{SpscQueue, spsc_queue_drain}
use mqtt_viewer.TopicTree.{
  TopicNode, TopicTree, node_at, put_node, topic_tree_init, topic_tree_insert, topic_tree_count,
  ancestors, update_all, topic_node_count_message, topic_node_clear_messages,
  topic_node_payload_set, topic_node_full_path,
}
use mqtt_viewer.Db.{Flushed, db_flush_history}
use mqtt_viewer.MqttClient.{MqttMessage, Lib, World}
use mqtt_viewer.MqttClient.Callbacks.{no_message}
use mqtt_viewer.MqttClient.Session.{
  mqtt_client_disconnect, mqtt_client_poll_ssh_tunnel, mqtt_client_is_connected,
  mqtt_client_is_connecting, mqtt_client_last_disconnect_rc,
}

pub data ConnState : Type 0 where
  disconnected connecting connected reconnecting error : ConnState

-- The calls that change the table of messages.
pub data DbCall : Type 0 where
  save : List MessageRecord → DbCall
  delete_topic : Bytes → DbCall
  trim : ℕ → DbCall

-- The fields of `AppState` that the round reads and writes, with `history_saved` and the static array
-- of `db_flush_history`, the calls of the database, the number of the block that `malloc` gives next,
-- and the blocks allocated and freed so far. `db` tells whether a database is open; a topic or a
-- profile that is not selected is `none`; `profile_ids` are the identifiers of the loaded profiles.
pub record App : Type 0 where
  pub topic_tree : TopicTree
  pub global_history : MessageBuf
  pub msg_queue : SpscQueue MqttMessage
  pub conn_state : ConnState
  pub selected_topic : Option ℕ
  pub clear_topic_requested : Option ℕ
  pub disconnect_requested : Bool
  pub topic_filter : Bytes
  pub topic_filter_focused : Bool
  pub profile_dialog_open : Bool
  pub profile_ids : List ℕ
  pub active_profile_idx : Option ℕ
  pub total_topics : ℕ
  pub total_messages : ℕ
  pub db : Bool
  pub history_saved : ℕ
  pub batch : List MessageRecord
  pub journal : List DbCall
  pub next_block : ℕ
  pub made_blocks : List ℕ
  pub freed_blocks : List ℕ

-- The payload's bytes; `none` for NULL.
abbrev pub payload_of : MqttMessage → Option Bytes
payload_of m = elim m.payload [ none ↦ none | some b ↦ some (take m.payload_len b.bytes) ]

-- Whether the texts of a node are due: at its first message, and `ui_tick_us` after the last time.
abbrev pub is_due : ℕ → ℕ → ℕ → ℕ → Bool
is_due ui_tick_us count now last = count == 1 || leb ui_tick_us ((now + 2 ^ 64 - last) % 2 ^ 64)

-- The body of the loop over the node and its ancestors.
unfoldable pub refresh_subtree : ℕ → ℕ → TopicNode → TopicNode
refresh_subtree ui_tick_us now n =
    let stamped = record n { last_subtree_message_ts = now } in
    if is_due ui_tick_us n.subtree_message_count now n.last_subtree_display_update_us
    then record stamped {
      last_subtree_display_update_us = now;
      subtree_count_str = truncated 16 (0xce ∷ 0xa3 ∷ b' ' ∷ decimal n.subtree_message_count);
    }
    else stamped

-- The node's own fields, and its texts where they are due.
unfoldable pub refresh_node : ℕ → MqttMessage → TopicNode → TopicNode
refresh_node ui_tick_us m n =
    let fields = record n {
      last_payload_len = m.payload_len;
      last_qos = m.qos;
      has_retained = m.retained || n.has_retained;
    } in
    if is_due ui_tick_us n.message_count m.timestamp_us n.last_display_update_us
    then topic_node_payload_set
        (record fields {
          last_display_update_us = m.timestamp_us;
          msg_count_str = truncated 16 (decimal n.message_count);
        })
        (payload_of m)
    else fields

unfoldable pub count_received : ℕ → MqttMessage → ℕ → TopicTree → TopicTree
unfolding refresh_subtree refresh_node ancestors update_all
count_received ui_tick_us m i t =
    let counted = topic_node_count_message t i in
    let stamped =
      put_node counted i (record (node_at counted i) { last_message_ts = m.timestamp_us }) in
    let walked =
      update_all (refresh_subtree ui_tick_us m.timestamp_us) (ancestors (suc i) stamped (some i))
        stamped in
    put_node walked i (refresh_node ui_tick_us m (node_at walked i))

abbrev pub preview_of : Option Bytes → Bytes
preview_of none = []
preview_of (some src) = let (buf, n) = util_preview_sanitize (replicate 512 0) 512 src in take n buf

abbrev pub id_at : List ℕ → Option ℕ → ℕ
id_at ids none = 0
id_at ids (some i) = elim (get_elem? ids i) [ none ↦ 0 | some id ↦ id % 2 ^ 32 ]

abbrev pub record_of : App → TopicTree → ℕ → MqttMessage → MessageRecord
record_of app t i m = record {
  timestamp_us = m.timestamp_us;
  topic = topic_node_full_path t i 256;
  payload = m.payload;
  payload_len = m.payload_len;
  qos = m.qos;
  retained = m.retained;
  dup = false;
  broker_id = id_at app.profile_ids app.active_profile_idx;
  preview = preview_of (payload_of m);
}

-- The body of the drain loop, behind `topic_tree_insert`; the message's payload is freed in both cases.
abbrev pub record_message : ℕ → MqttMessage → App → TopicTree × Option ℕ → App
record_message ui_tick_us m app (t, none) = record app {
  topic_tree = t;
  freed_blocks = app.freed_blocks ++ freed m.payload;
}
record_message ui_tick_us m app (t, some i) =
    let t' = count_received ui_tick_us m i t in
    let r = record_of app t' i m in
    let (history, out) = message_buf_push app.next_block app.global_history r in
    record app {
      topic_tree = t';
      global_history = history;
      next_block = app.next_block + 1;
      made_blocks = app.made_blocks ++ allocated app.next_block r;
      freed_blocks = app.freed_blocks ++ (out ++ freed m.payload);
      total_messages = add64 app.total_messages 1;
    }

unfoldable pub receive : ℕ → MqttMessage → App → App
unfolding count_received
receive ui_tick_us m app =
    record_message ui_tick_us m app (topic_tree_insert app.topic_tree m.topic)

unfoldable pub receive_all : ℕ → List MqttMessage → App → App
unfolding receive
receive_all ui_tick_us [] app = app
receive_all ui_tick_us (m ∷ ms) app = receive_all ui_tick_us ms (receive ui_tick_us m app)

-- `MqttMessage msgs[256]`
unfoldable pub drain : ℕ → App → App
unfolding receive_all
drain ui_tick_us app =
    let (queue, msgs) = spsc_queue_drain no_message 256 app.msg_queue in
    let done = receive_all ui_tick_us msgs (record app { msg_queue = queue }) in
    record done { total_topics = topic_tree_count done.topic_tree }

-- `db_flush_history(db, &state.global_history, &history_saved)`
unfoldable pub flush_history : App → App
flush_history app =
    let (f, trimmed) =
      db_flush_history app.global_history
        (record { saved = app.history_saved; batch = app.batch; saves = [] }) in
    record app {
      history_saved = f.saved;
      batch = f.batch;
      journal =
          app.journal
          ++ (map DbCall.save f.saves ++ (if trimmed then DbCall.trim 10000 ∷ [] else []));
    }

-- The flush and the deletion, where a database is open.
abbrev pub delete_rows : Bytes → App → App
delete_rows path app =
    let flushed = flush_history app in
    if app.db
    then record flushed { journal = flushed.journal ++ (DbCall.delete_topic path ∷ []) }
    else app

-- The history, the node's counters and the total, which all lose the topic's messages.
abbrev pub clear_history : Bytes → ℕ → App → App
clear_history path i app =
    let (history, removed, out) = message_buf_remove_topic app.global_history path in
    record app {
      global_history = history;
      history_saved = message_buf_generation history;
      topic_tree = (topic_node_clear_messages app.topic_tree i).0;
      total_messages = if ltb removed app.total_messages then app.total_messages - removed else 0;
      freed_blocks = app.freed_blocks ++ out;
    }

abbrev pub clear_on : Option ℕ → App → App
clear_on none app = app
clear_on (some i) app =
    let path = topic_node_full_path app.topic_tree i 512 in
    clear_history path i (delete_rows path (record app { clear_topic_requested = none }))

unfoldable pub clear_topic : App → App
clear_topic app = clear_on app.clear_topic_requested app

-- The client comes second.
unfoldable pub disconnect : Lib → App → World → App × World
disconnect lib app w =
    let (history, out) = message_buf_clear app.global_history in
    if app.disconnect_requested
    then (
      record app {
        disconnect_requested = false;
        topic_tree = topic_tree_init;
        global_history = history;
        history_saved = message_buf_generation history;
        selected_topic = none;
        total_topics = 0;
        total_messages = 0;
        topic_filter = [];
        topic_filter_focused = false;
        profile_dialog_open = true;
        freed_blocks = app.freed_blocks ++ out;
      },
      mqtt_client_disconnect lib w,
    )
    else (app, w)

unfoldable pub show_conn_state : World → App → App
show_conn_state w app = record app {
  conn_state =
      if mqtt_client_is_connected w.client
      then ConnState.connected
      else if mqtt_client_is_connecting w.client
      then ConnState.connecting
      else if not (mqtt_client_last_disconnect_rc w.client == 0)
      then ConnState.reconnecting
      else ConnState.disconnected;
}

-- The rows that `db_load_messages` gives, the newest first, are pushed from the last to the first.
unfoldable pub load_rows : List MessageRecord → App → App
load_rows [] app = app
load_rows (r ∷ rs) app =
    let before = load_rows rs app in
    let (history, out) = message_buf_push before.next_block before.global_history r in
    record before {
      global_history = history;
      next_block = before.next_block + 1;
      made_blocks = before.made_blocks ++ allocated before.next_block r;
      freed_blocks = before.freed_blocks ++ (out ++ freed r.payload);
    }

unfoldable pub load_history : List MessageRecord → App → App
unfolding load_rows
load_history rs app =
    let loaded = load_rows rs app in
    record loaded { history_saved = message_buf_generation loaded.global_history }

-- One round: `running` is what the tunnel's process answers, `save_due` whether five seconds passed.
unfoldable pub round : Lib → ℕ → Bool → Bool → App → World → App × World
unfolding drain clear_topic disconnect show_conn_state flush_history
round lib ui_tick_us running save_due app w =
    let (asked, w1) = disconnect lib (clear_topic (drain ui_tick_us app)) w in
    let w2 = mqtt_client_poll_ssh_tunnel lib running w1 in
    let shown = show_conn_state w2 asked in
    (if shown.db && save_due then flush_history shown else shown, w2)
