-- ===== src/MessageBuf.antt =====
-- src/model/message_buf.h and .c: the global message history, a ring of received messages.
-- The storage is a list; a payload is a heap block, named by the number that `malloc` gave it.
-- A function that frees blocks returns their numbers beside the new buffer, in order.
pub mod Refine
pub mod Remove
use mqtt_viewer.Base.{
  ℕ, zero, suc, ◌+◌, ◌-◌, ◌%◌, ◌^◌, Bool, true, false, ◌&&◌, List, [], ◌∷◌, ◌++◌, Option, none,
  some, length, take, get_or, set, replicate, ltb, leb, ◌==◌, if◌then◌else◌, Bytes, str_eq,
}
use mqtt_viewer.Ring.{add32, add64}

-- A `malloc`ed block with its bytes.
pub record Block : Type 0 where
  pub block : ℕ
  pub bytes : Bytes

-- `broker_id` and `preview` are carried along, `topic` is compared. `payload` is `none` for NULL.
pub record MessageRecord : Type 0 where
  pub timestamp_us : ℕ
  pub topic : Bytes
  pub payload : Option Block
  pub payload_len : ℕ
  pub qos : ℕ
  pub retained : Bool
  pub dup : Bool
  pub broker_id : ℕ
  pub preview : Bytes

pub record MessageBuf : Type 0 where
  pub entries : List MessageRecord
  pub capacity : ℕ
  pub head : ℕ
  pub count : ℕ
  pub generation : ℕ

-- What `calloc` leaves in an entry.
abbrev pub zeroed : MessageRecord
zeroed = record {
  timestamp_us = 0;
  topic = [];
  payload = none;
  payload_len = 0;
  qos = 0;
  retained = false;
  dup = false;
  broker_id = 0;
  preview = [];
}

unfoldable pub message_buf_init : ℕ → MessageBuf
message_buf_init capacity = record {
  entries = replicate capacity zeroed;
  capacity = capacity;
  head = 0;
  count = 0;
  generation = 0;
}

-- `free(r.payload)`: `free(NULL)` frees nothing.
abbrev pub freed : Option Block → List ℕ
freed none = []
freed (some b) = b.block ∷ []

copy_block : ℕ → MessageRecord → Option Block → MessageRecord
copy_block fresh r none = record r { payload = none; payload_len = 0 }
copy_block fresh r (some b) =
    if ltb 0 r.payload_len
    then record r { payload = some (record { block = fresh; bytes = take r.payload_len b.bytes }) }
    else record r { payload = none; payload_len = 0 }

-- The stored copy of a record, its payload in the block `fresh`. One of length 0 is dropped.
unfoldable pub copy_payload : ℕ → MessageRecord → MessageRecord
unfolding copy_block
copy_payload fresh r = copy_block fresh r r.payload

allocated_for : ℕ → ℕ → Option Block → List ℕ
allocated_for fresh n none = []
allocated_for fresh n (some b) = if ltb 0 n then fresh ∷ [] else []

-- `if (copy.payload && copy.payload_len > 0) { .. malloc(copy.payload_len) .. }`: the block that a
-- push allocates, if any.
unfoldable pub allocated : ℕ → MessageRecord → List ℕ
unfolding allocated_for
allocated fresh r = allocated_for fresh r.payload_len r.payload

-- The evicted entry's payload is freed, and `entries[idx]` is overwritten.
unfoldable pub message_buf_push : ℕ → MessageBuf → MessageRecord → MessageBuf × List ℕ
message_buf_push fresh b r =
    let idx = add32 b.head b.count % b.capacity in
    let stored = set b.entries idx (copy_payload fresh r) in
    if b.count == b.capacity
    then (
      record b {
        entries = stored;
        head = add32 b.head 1 % b.capacity;
        generation = add64 b.generation 1;
      },
      freed (get_or b.entries idx zeroed).payload,
    )
    else (
      record b { entries = stored; count = add32 b.count 1; generation = add64 b.generation 1 },
      [],
    )

-- One round of the loop of `message_buf_clear`, at `entries[idx]`.
abbrev pub drop_payload : List MessageRecord → ℕ → List MessageRecord
drop_payload es idx = set es idx (record (get_or es idx zeroed) { payload = none })

-- `for (i = ..; i < count; i++)`, with the rounds left as the number that is matched.
unfoldable pub clear_from : ℕ → ℕ → List MessageRecord → ℕ → ℕ → List MessageRecord × List ℕ
clear_from capacity head es i zero = (es, [])
clear_from capacity head es i (suc left) =
    let idx = add32 head i % capacity in
    let (es', out) = clear_from capacity head (drop_payload es idx) (i + 1) left in
    (es', freed (get_or es idx zeroed).payload ++ out)

unfoldable pub message_buf_clear : MessageBuf → MessageBuf × List ℕ
message_buf_clear b =
    let (es, out) = clear_from b.capacity b.head b.entries 0 b.count in
    (record b { entries = es; generation = add64 b.generation 1; head = 0; count = 0 }, out)

-- The state of the loop of `message_buf_remove_topic`.
pub record Sweep : Type 0 where
  pub entries : List MessageRecord
  pub kept : ℕ
  pub freed_blocks : List ℕ

unfoldable pub sweep : ℕ → ℕ → Bytes → ℕ → ℕ → Sweep → Sweep
sweep capacity head topic i zero s = s
sweep capacity head topic i (suc left) s =
    let src = add32 head i % capacity in
    let r = get_or s.entries src zeroed in
    let dst = add32 head s.kept % capacity in
    sweep capacity head topic (i + 1) left (
      if str_eq r.topic topic
      then record s {
        entries = drop_payload s.entries src;
        freed_blocks = s.freed_blocks ++ freed r.payload;
      }
      else record s {
        entries = if dst == src then s.entries else set s.entries dst r;
        kept = add32 s.kept 1;
      })

-- The number of removed messages comes second, the freed blocks third.
unfoldable pub message_buf_remove_topic : MessageBuf → Bytes → MessageBuf × ℕ × List ℕ
message_buf_remove_topic b topic =
    let s =
      sweep b.capacity b.head topic 0 b.count
        (record { entries = b.entries; kept = 0; freed_blocks = [] }) in
    let removed = b.count - s.kept in
    let b' = record b { entries = s.entries } in
    if ltb 0 removed
    then (record b' { count = s.kept; generation = add64 b.generation 1 }, removed, s.freed_blocks)
    else (b', removed, s.freed_blocks)

unfoldable pub message_buf_get : MessageBuf → ℕ → Option MessageRecord
message_buf_get b index =
    if leb b.count index
    then none
    else some (get_or b.entries (add32 b.head index % b.capacity) zeroed)

unfoldable pub message_buf_generation : MessageBuf → ℕ
message_buf_generation b = b.generation

unfoldable pub message_buf_count : MessageBuf → ℕ
message_buf_count b = b.count
