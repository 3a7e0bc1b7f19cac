-- ===== src/ConnectionLog/Refine.antt =====
-- The connection log as the list of the events that it holds, oldest first.
use native.Mathlib.Nat.{mod-lt}
use mqtt_viewer.Base.{
  ℕ, ◌+◌, ◌%◌, ◌^◌, ◌≤◌, ◌<◌, List, [], ◌∷◌, ◌++◌, ◌≡◌, refl, arith, length, length-set,
  length-replicate, get_elem?, get_elem?_past, ◌==◌, if◌then◌else◌, Bytes,
}
use mqtt_viewer.Ring.{
  add32, add64, slots, length-slots, get_elem?-slots, behead, slots_grow, slots_turn,
}
use mqtt_viewer.ConnectionLog.{
  LogLevel, LogEntry, ConnectionLog, zeroed, logged, connection_log_init, connection_log_add,
  connection_log_get, connection_log_count, connection_log_clear, connection_log_generation,
}

-- The capacity is at most 2^31, so that no index sum wraps.
pub record IsValid (log : ConnectionLog) : Type 0 where
  pub storage : length log.entries ≡ log.capacity
  pub some_room : 0 < log.capacity
  pub small : log.capacity ≤ 2 ^ 31
  pub head_in : log.head < log.capacity
  pub count_in : log.count ≤ log.capacity

abbrev pub contents : ConnectionLog → List LogEntry
contents log = slots zeroed log.entries log.capacity log.head 0 log.count

no_wrap : (a b : ℕ) → a < 2 ^ 31 → b ≤ 2 ^ 31 → add32 a b ≡ a + b
no_wrap a b h k = omega arith

length-contents : (log : ConnectionLog) → length (contents log) ≡ log.count
length-contents log = length-slots zeroed log.capacity log.head log.entries 0 log.count

-- A new log is valid and empty.
pub connection_log_init-IsValid :
    (capacity : ℕ)
    → 0 < capacity
    → capacity ≤ 2 ^ 31
    → IsValid (connection_log_init capacity) × (contents (connection_log_init capacity) ≡ [])
unfolding connection_log_init
connection_log_init-IsValid capacity h k = (
  record {
    storage = length-replicate capacity zeroed;
    some_room = h;
    small = k;
    head_in = h;
    count_in = omega arith;
  },
  refl,
)

module _ {log : ConnectionLog} (v : IsValid log) (now : ℕ) (level : LogLevel)
    (message : Bytes) where
  add-IsValid : IsValid (connection_log_add now log level message)
  unfolding connection_log_add
  add-IsValid = ground (
    arith,
    length-set log.entries (add32 log.head log.count % log.capacity) (logged now level message),
    mod-lt (add32 log.head 1) {m = log.capacity} v.some_room,
  )

  add_contents :
      contents (connection_log_add now log level message)
      ≡ (if length (contents log) == log.capacity then behead (contents log) else contents log)
        ++ (logged now level message ∷ [])
  unfolding connection_log_add
  add_contents = ground (
    arith,
    length-contents log,
    no_wrap log.head log.count,
    no_wrap log.head 1,
    slots_grow zeroed log.entries log.capacity log.head log.count (logged now level message),
    slots_turn zeroed log.entries log.capacity log.head (logged now level message),
  )

-- `connection_log_add` puts the event last, its message cut to 255 bytes, and drops the oldest event
-- of a full log; the log stays valid and its generation moves on.
pub connection_log_add_refines :
    {log : ConnectionLog} (now : ℕ) (level : LogLevel) (message : Bytes)
    → IsValid log
    → let log' = connection_log_add now log level message in
      IsValid log'
      × (contents log'
          ≡ (if length (contents log) == log.capacity then behead (contents log) else contents log)
            ++ (logged now level message ∷ []))
      × (connection_log_generation log' ≡ add64 (connection_log_generation log) 1)
connection_log_add_refines {log} now level message v =
    (add-IsValid v now level message, add_contents v now level message, bumped)
  where
    bumped :
        connection_log_generation (connection_log_add now log level message)
        ≡ add64 (connection_log_generation log) 1
    bumped = unfold connection_log_add connection_log_generation in ground arith

-- `connection_log_get` reads the event at an index, and none at or past the count, which is the
-- number of events; after `connection_log_clear` there is none to read.
pub connection_log_get_refines :
    {log : ConnectionLog} (i : ℕ)
    → IsValid log
    → (connection_log_get log i ≡ get_elem? (contents log) i)
      × (connection_log_count log ≡ length (contents log))
      × (contents (connection_log_clear log) ≡ [])
unfolding connection_log_get connection_log_count connection_log_clear
connection_log_get_refines {log} i v = ground (
  arith,
  length-contents log,
  get_elem?_past (contents log) i,
  get_elem?-slots zeroed log.capacity log.head log.entries 0 log.count i,
  no_wrap log.head i,
)
