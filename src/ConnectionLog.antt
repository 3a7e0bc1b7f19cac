-- ===== src/ConnectionLog.antt =====
-- src/model/connection_log.h and .c: the ring of user-facing connection events. Each function holds
-- the mutex from its first read to its last write, so calls from several threads are a sequence of
-- calls. The clock's reading is an argument.
pub mod Refine
use mqtt_viewer.Base.{
  ℕ, ◌+◌, ◌%◌, List, [], Option, none, some, get_or, set, replicate, leb, ◌==◌, if◌then◌else◌,
  Bytes,
}
use mqtt_viewer.Ring.{add32, add64}
use mqtt_viewer.Util.{truncated}

pub data LogLevel : Type 0 where
  info warn error : LogLevel

pub record LogEntry : Type 0 where
  pub timestamp_us : ℕ
  pub level : LogLevel
  pub message : Bytes

pub record ConnectionLog : Type 0 where
  pub entries : List LogEntry
  pub capacity : ℕ
  pub head : ℕ
  pub count : ℕ
  pub generation : ℕ

-- What `calloc` leaves in an entry (CONN_LOG_INFO is 0).
abbrev pub zeroed : LogEntry
zeroed = record { timestamp_us = 0; level = LogLevel.info; message = [] }

unfoldable pub connection_log_init : ℕ → ConnectionLog
connection_log_init capacity = record {
  entries = replicate capacity zeroed;
  capacity = capacity;
  head = 0;
  count = 0;
  generation = 0;
}

-- `message` keeps its first 255 bytes.
abbrev pub logged : ℕ → LogLevel → Bytes → LogEntry
logged now level message = record {
  timestamp_us = now;
  level = level;
  message = truncated 256 message;
}

unfoldable pub connection_log_add : ℕ → ConnectionLog → LogLevel → Bytes → ConnectionLog
connection_log_add now log level message =
    let idx = add32 log.head log.count % log.capacity in
    let written = set log.entries idx (logged now level message) in
    let generation = add64 log.generation 1 in
    if log.count == log.capacity
    then record log {
      entries = written;
      head = add32 log.head 1 % log.capacity;
      generation = generation;
    }
    else record log { entries = written; count = add32 log.count 1; generation = generation }

-- `none` where the C function returns false.
unfoldable pub connection_log_get : ConnectionLog → ℕ → Option LogEntry
connection_log_get log index =
    if leb log.count index
    then none
    else some (get_or log.entries (add32 log.head index % log.capacity) zeroed)

unfoldable pub connection_log_generation : ConnectionLog → ℕ
connection_log_generation log = log.generation

unfoldable pub connection_log_count : ConnectionLog → ℕ
connection_log_count log = log.count

unfoldable pub connection_log_clear : ConnectionLog → ConnectionLog
connection_log_clear log = record log { generation = add64 log.generation 1; head = 0; count = 0 }

-- `entries` is freed, and none are left to read.
unfoldable pub connection_log_destroy : ConnectionLog → ConnectionLog
connection_log_destroy log = record log { entries = []; count = 0 }
