-- ===== src/Tests/History.antt =====
-- src/model/message_buf.c, connection_log.c and csv_export.c on small rings.
use mqtt_viewer.Base.{
  str_eq, ℕ, true, [], ◌∷◌, ◌++◌, some, ◌≡◌, ◌↔◌, inl, refl, arith, length, get_elem?, ◌==◌,
  if◌then◌else◌, Bytes, codes, map,
}
use mqtt_viewer.Ring.{add64, behead}
use mqtt_viewer.MessageBuf.{
  MessageRecord, MessageBuf, zeroed, allocated, message_buf_init, message_buf_push, sweep,
  message_buf_remove_topic, message_buf_clear, message_buf_get,
}
use mqtt_viewer.MessageBuf.Refine.{
  IsValid, contents, owned, push_bounded, stored_copy, message_buf_init-IsValid,
  message_buf_push_refines, message_buf_push-owned, message_buf_get_refines,
}
use mqtt_viewer.MessageBuf.Remove.{
  without, only, message_buf_remove_topic_refines, message_buf_clear_refines,
}
use mqtt_viewer.ConnectionLog
use mqtt_viewer.ConnectionLog.{
  LogLevel, ConnectionLog, logged, connection_log_init, connection_log_add, connection_log_get,
  connection_log_count, connection_log_clear, connection_log_generation,
}
use mqtt_viewer.ConnectionLog.Refine.{
  connection_log_init-IsValid, connection_log_add_refines, connection_log_get_refines,
}
use mqtt_viewer.ConnectionLog.Refine
use mqtt_viewer.CsvExport.{topic_matches, write_field, csv_export_write}
use mqtt_viewer.CsvExport.Field.{emit, field_text, read_field, space_for_nul, write_field_reads}
use mqtt_viewer.CsvExport.Rows.{
  Below, selected, IsSelection, rows_text, emit_counted, topic_matches-Below, csv_export_write_lem,
}

abbrev message : Bytes → ℕ → MessageRecord
message topic n = record zeroed {
  topic = topic;
  payload = some (record { block = n; bytes = 1 ∷ 2 ∷ 3 ∷ [] });
  payload_len = 2;
}

-- A ring of two slots, full and turned by one: the topics "b", "a".
abbrev turned : MessageBuf
turned = record {
  entries = message (codes "a") 11 ∷ message (codes "b") 10 ∷ [];
  capacity = 2;
  head = 1;
  count = 2;
  generation = 3;
}

turned-IsValid : IsValid turned
turned-IsValid = record {
  storage = refl;
  some_room = omega arith;
  small = omega arith;
  head_in = omega arith;
  count_in = omega arith;
}

history_init_example : IsValid (message_buf_init 3) × (contents (message_buf_init 3) ≡ [])
history_init_example = message_buf_init-IsValid 3 (omega arith) (omega arith)

history_push_example :
    let b' = (message_buf_push 12 turned (message (codes "c") 9)).0 in
    IsValid b'
    × (contents b'
        ≡ push_bounded 2 (contents turned) (
            stored_copy 12 2
              (some (record { block = 9; bytes = 1 ∷ 2 ∷ 3 ∷ [] }))
              (message (codes "c") 9)))
    × (b'.generation ≡ add64 3 1)
history_push_example = message_buf_push_refines 12 (message (codes "c") 9) turned-IsValid

history_owned_example :
    let (b', out) = message_buf_push 12 turned (message (codes "c") 9) in
    out ++ owned (contents b') ≡ owned (contents turned) ++ allocated 12 (message (codes "c") 9)
history_owned_example = message_buf_push-owned 12 (message (codes "c") 9) turned-IsValid

history_get_example : message_buf_get turned 1 ≡ get_elem? (contents turned) 1
history_get_example = message_buf_get_refines 1 turned-IsValid

history_remove_example :
    let (b', removed, out) = message_buf_remove_topic turned (codes "b") in
    IsValid b'
    × (contents b' ≡ without (codes "b") (contents turned))
    × (removed ≡ length (only (codes "b") (contents turned)))
    × (out ≡ owned (only (codes "b") (contents turned)))
    × (b'.generation ≡ (if removed == 0 then 3 else add64 3 1))
history_remove_example = message_buf_remove_topic_refines (codes "b") turned-IsValid

history_clear_example :
    let (b', out) = message_buf_clear turned in
    IsValid b' × (contents b' ≡ []) × (out ≡ owned (contents turned)) × (b'.generation ≡ add64 3 1)
history_clear_example = message_buf_clear_refines turned-IsValid

-- The push above overwrites "b" and frees its block.
push_run : (message_buf_push 12 turned (message (codes "c") 9)).1 ≡ 10 ∷ []
unfolding message_buf_push
push_run = refl

remove_run : (message_buf_remove_topic turned (codes "b")).2 ≡ 10 ∷ []
unfolding message_buf_remove_topic sweep str_eq
remove_run = refl

-- The same ring of two slots for events.
abbrev events : ConnectionLog
events = record {
  entries = logged 5 LogLevel.info (codes "b") ∷ logged 4 LogLevel.warn (codes "a") ∷ [];
  capacity = 2;
  head = 1;
  count = 2;
  generation = 2;
}

events-IsValid : ConnectionLog.Refine.IsValid events
events-IsValid = record {
  storage = refl;
  some_room = omega arith;
  small = omega arith;
  head_in = omega arith;
  count_in = omega arith;
}

log_init_example :
    ConnectionLog.Refine.IsValid (connection_log_init 4)
    × (ConnectionLog.Refine.contents (connection_log_init 4) ≡ [])
log_init_example = connection_log_init-IsValid 4 (omega arith) (omega arith)

log_add_example :
    let log' = connection_log_add 6 events LogLevel.error (codes "c") in
    ConnectionLog.Refine.IsValid log'
    × (ConnectionLog.Refine.contents log'
        ≡ (if length (ConnectionLog.Refine.contents events) == 2
            then behead (ConnectionLog.Refine.contents events)
            else ConnectionLog.Refine.contents events)
          ++ (logged 6 LogLevel.error (codes "c") ∷ []))
    × (connection_log_generation log' ≡ add64 (connection_log_generation events) 1)
log_add_example = connection_log_add_refines 6 LogLevel.error (codes "c") events-IsValid

log_get_example :
    (connection_log_get events 1 ≡ get_elem? (ConnectionLog.Refine.contents events) 1)
    × (connection_log_count events ≡ length (ConnectionLog.Refine.contents events))
    × (ConnectionLog.Refine.contents (connection_log_clear events) ≡ [])
log_get_example = connection_log_get_refines 1 events-IsValid

-- A field with a quote and a NUL byte, before a comma.
field_example :
    (write_field (b'"' ∷ 0 ∷ b'x' ∷ []) (record { written = []; room = 9 })
      ≡ emit (field_text (b'"' ∷ 0 ∷ b'x' ∷ [])) (record { written = []; room = 9 }))
    × (read_field (field_text (b'"' ∷ 0 ∷ b'x' ∷ []) ++ codes ",0")
        ≡ some (map space_for_nul (b'"' ∷ 0 ∷ b'x' ∷ []), codes ",0"))
field_example =
    write_field_reads (b'"' ∷ 0 ∷ b'x' ∷ []) (codes ",0") (record { written = []; room = 9 })
      (inl refl)

subtree_example :
    (topic_matches (codes "a/b") (some (codes "a")) ≡ true) ↔ Below (codes "a") (codes "a/b")
subtree_example = topic_matches-Below (codes "a/b") b'a' []

abbrev stamp : ℕ → Bytes
stamp us = codes "1970-01-01T00:00:00Z"

export_example :
    (csv_export_write stamp turned (some (codes "b")) (record { written = []; room = 99 })
      ≡ emit_counted
          (codes "timestamp,topic,qos,retained,payload\r\n"
            ++ rows_text stamp (selected (some (codes "b")) (contents turned)))
          (length (selected (some (codes "b")) (contents turned)))
          (record { written = []; room = 99 }))
    × IsSelection
        (some (codes "b"))
        (contents turned)
        (selected (some (codes "b")) (contents turned))
export_example =
    csv_export_write_lem stamp turned (some (codes "b")) (record { written = []; room = 99 })
      turned-IsValid
