-- ===== src/Tests/Loop.antt =====
-- src/main.c and src/platform/db.c on a history with room for two messages.
use mqtt_viewer.Base.{
  ℕ, true, false, List, [], ◌∷◌, ◌++◌, replicate, some, ◌≡◌, refl, arith, length, Bytes, codes,
}
use mqtt_viewer.MessageBuf.{MessageRecord, MessageBuf, zeroed}
use mqtt_viewer.MessageBuf.Refine
use mqtt_viewer.MessageBuf.Remove.{without}
use mqtt_viewer.SpscQueue.{SpscQueue}
use mqtt_viewer.SpscQueue.Refine as Queue
use mqtt_viewer.TopicTree.{blank, topic_node_full_path}
use mqtt_viewer.MqttClient.{MqttMessage}
use mqtt_viewer.MqttClient.Callbacks.{no_message}
use mqtt_viewer.Db.{db_flush_history}
use mqtt_viewer.Db.Flush.{rows, IsCounted, db_flush_history_writes}
use mqtt_viewer.JsonPp.{JsonPpLine, JsonPpValKind}
use mqtt_viewer.JsonPp.Unescape.{json_pp_line_string}
use mqtt_viewer.Db.{append_json_string}
use mqtt_viewer.Db.JsonText.{append_json_string_reads}
use mqtt_viewer.MainLoop.{App, ConnState, DbCall, drain, flush_history, clear_topic}
use mqtt_viewer.MainLoop.Received.{IsSettled, drain-IsSettled}
use mqtt_viewer.MainLoop.Requests.{inserted, clear_topic_agrees}

abbrev row_on : Bytes → ℕ → MessageRecord
row_on topic n = record zeroed {
  topic = topic;
  payload = some (record { block = n; bytes = n ∷ [] });
  payload_len = 1;
}

-- Two messages, the first of them written already.
abbrev two_rows : MessageBuf
two_rows = record {
  entries = row_on (codes "b") 7 ∷ row_on (codes "a") 8 ∷ [];
  capacity = 2;
  head = 1;
  count = 2;
  generation = 5;
}

two_rows-IsCounted : IsCounted two_rows
two_rows-IsCounted = record {
  valid = record {
    storage = refl;
    some_room = omega arith;
    small = omega arith;
    head_in = omega arith;
    count_in = omega arith;
  };
  enough = omega arith;
  small = omega arith;
}

abbrev unused : List MessageRecord
unused = replicate 256 zeroed

flush_example :
    let g = (db_flush_history two_rows (record { saved = 4; batch = unused; saves = [] })).0 in
    (g.saved ≡ 5) × (rows g.saves ≡ row_on (codes "b") 7 ∷ []) × (length g.batch ≡ 256)
flush_example =
    db_flush_history_writes (record { saved = 4; batch = unused; saves = [] }) two_rows-IsCounted
      refl (omega arith)

-- The message 3 waits in the queue; the tree knows the topic "a".
abbrev waiting : MqttMessage
waiting = record no_message {
  topic = codes "a";
  payload = some (record { block = 3; bytes = 3 ∷ [] });
  payload_len = 1;
}

abbrev queue_of_one : SpscQueue MqttMessage
queue_of_one = record {
  buffer = waiting ∷ no_message ∷ no_message ∷ [];
  capacity = 2;
  head = 0;
  tail = 1;
}

queue_of_one-IsValid : Queue.IsValid queue_of_one
queue_of_one-IsValid = record {
  storage = refl;
  small = omega arith;
  head_in = omega arith;
  tail_in = omega arith;
}

abbrev app : App
app = record {
  topic_tree = record {
    nodes = record blank { segment = codes "a"; message_count = 1; subtree_message_count = 1 } ∷ [];
    roots = 0 ∷ [];
    total_count = 1;
  };
  global_history = two_rows;
  msg_queue = queue_of_one;
  conn_state = ConnState.connected;
  selected_topic = some 0;
  clear_topic_requested = some 0;
  disconnect_requested = true;
  topic_filter = [];
  topic_filter_focused = false;
  profile_dialog_open = false;
  profile_ids = 4 ∷ [];
  active_profile_idx = some 0;
  total_topics = 1;
  total_messages = 2;
  db = true;
  history_saved = 4;
  batch = unused;
  journal = [];
  next_block = 9;
  made_blocks = 7 ∷ 8 ∷ [];
  freed_blocks = [];
}

drain_example :
    let app' = drain 250000 app in
    Queue.IsValid app'.msg_queue
    × (Queue.contents no_message app'.msg_queue ≡ [])
    × IsSettled 3 (3 ∷ []) app app'
drain_example = drain-IsSettled 3 250000 app queue_of_one-IsValid two_rows-IsCounted.valid

clear_example :
    let app' = clear_topic app in
    (app'.journal
      ≡ (flush_history app).journal
        ++ (DbCall.delete_topic (topic_node_full_path app.topic_tree 0 512) ∷ []))
    × (inserted app'.journal ≡ row_on (codes "b") 7 ∷ [])
    × (Refine.contents app'.global_history
        ≡ without (topic_node_full_path app.topic_tree 0 512) (Refine.contents two_rows))
    × (app'.history_saved ≡ app'.global_history.generation)
clear_example = clear_topic_agrees app 0 refl refl two_rows-IsCounted refl (omega arith)

-- The topic `a"b`, as it is stored.
abbrev quoted_topic : Bytes
quoted_topic = b'a' ∷ b'"' ∷ b'b' ∷ []

abbrev topic_line : JsonPpLine
topic_line = record {
  depth = 1;
  key = codes "topic";
  sep = codes ": ";
  val = append_json_string 20 [] quoted_topic;
  trail = [];
  val_kind = JsonPpValKind.string;
  dot_path = codes "0.topic";
  is_numeric = false;
}

json_text_example : json_pp_line_string (some topic_line) 256 ≡ some quoted_topic
json_text_example =
    append_json_string_reads topic_line 20 255 quoted_topic refl refl (omega arith) (omega arith)
