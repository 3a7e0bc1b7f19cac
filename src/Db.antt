-- ===== src/Db.antt =====
-- src/platform/db.c: the flush of the history into the database, and the texts that its queries are
-- built from. SQLite is not modelled: what would be written is recorded as a list.
pub mod Flush
pub mod JsonText
use mqtt_viewer.Base.{
  ℕ, zero, suc, ◌+◌, ◌-◌, ◌%◌, ◌^◌, Bool, true, false, not, ◌&&◌, ◌||◌, List, [], ◌∷◌, ◌++◌, Option,
  none, some, length, take, set, ltb, leb, ◌==◌, if◌then◌else◌, Bytes, codes,
}
use mqtt_viewer.Ring.{add64}
use mqtt_viewer.MessageBuf.{
  MessageRecord, MessageBuf, message_buf_get, message_buf_generation, message_buf_count,
}

-- `if (r) batch[i] = *r`
abbrev pub put_row : List MessageRecord → ℕ → Option MessageRecord → List MessageRecord
put_row batch i none = batch
put_row batch i (some r) = set batch i r

-- The loop that fills `batch`, from its round `i`, with `left` rounds to come.
unfoldable pub fill : MessageBuf → ℕ → ℕ → ℕ → List MessageRecord → List MessageRecord
fill history start i zero batch = batch
fill history start i (suc left) batch =
    fill history start (i + 1) left
      (put_row batch i (message_buf_get history ((start + i) % 2 ^ 32)))

-- `saved`, the array `batch`, which is static, and the calls of `db_save_messages`, oldest first, whose
-- results are not looked at.
pub record Flushed : Type 0 where
  pub saved : ℕ
  pub batch : List MessageRecord
  pub saves : List (List MessageRecord)

abbrev pub batch_size : ℕ
batch_size = 256

-- `(uint32_t)(pushed - *saved)`, cut to 256.
abbrev pub new_count : ℕ → ℕ → ℕ
new_count pushed saved =
    let n = (pushed + 2 ^ 64 - saved) % 2 ^ 64 % 2 ^ 32 in
    if ltb batch_size n then batch_size else n

-- One round of the outer loop.
abbrev pub save_batch : MessageBuf → ℕ → ℕ → Flushed → Flushed
save_batch history pushed window_start f =
    let n = new_count pushed f.saved in
    let start = (f.saved + 2 ^ 64 - window_start) % 2 ^ 64 % 2 ^ 32 in
    let batch = fill history start 0 n f.batch in
    record { saved = add64 f.saved n; batch = batch; saves = f.saves ++ (take n batch ∷ []) }

unfoldable pub save_all : MessageBuf → ℕ → ℕ → ℕ → Flushed → Flushed
save_all history pushed window_start zero f = f
save_all history pushed window_start (suc rounds) f = elim (ltb f.saved pushed) [
  | false ↦ f
  | true ↦ save_all history pushed window_start rounds (save_batch history pushed window_start f)
]

-- Messages that were dropped from the history count as saved.
abbrev pub from_window : ℕ → Flushed → Flushed
from_window window_start f =
    if ltb f.saved window_start then record f { saved = window_start } else f

unfoldable pub flush_from : MessageBuf → ℕ → ℕ → Flushed → Flushed × Bool
unfolding save_all
flush_from history pushed window_start f =
    if leb pushed f.saved
    then (f, false)
    else (save_all history pushed window_start (pushed - f.saved) f, true)

-- The call of `db_trim_messages` comes second. A round saves a message at least, so that as many rounds
-- as messages are missing are enough.
unfoldable pub db_flush_history : MessageBuf → Flushed → Flushed × Bool
unfolding flush_from
db_flush_history history f =
    let pushed = message_buf_generation history in
    let window_start = (pushed + 2 ^ 64 - message_buf_count history) % 2 ^ 64 in
    flush_from history pushed window_start (from_window window_start f)

-- The text written into `out`, of `cap` bytes: `if (pos < cap) out[pos++] = c`.
abbrev pub put_char : ℕ → Bytes → ℕ → Bytes
put_char cap out c = if ltb (length out) cap then out ++ (c ∷ []) else out

-- The `switch` of `append_json_string`; `none` for its default case.
unfoldable pub json_letter : ℕ → Option ℕ
json_letter c =
    if c == b'"'
    then some b'"'
    else if c == b'\\'
    then some b'\\'
    else if c == b'\n'
    then some b'n'
    else if c == b'\r'
    then some b'r'
    else if c == b'\t'
    then some b't'
    else none

abbrev pub json_byte : ℕ → Bytes
json_byte c = elim (json_letter c) [ none ↦ c ∷ [] | some e ↦ b'\\' ∷ e ∷ [] ]

-- Its loop, which ends where two bytes no longer fit before the quote.
unfoldable pub json_chars : ℕ → Bytes → Bytes → Bytes
json_chars cap out [] = out
json_chars cap out (c ∷ s) =
    let rest = json_chars cap (out ++ json_byte c) s in
    if ltb (length out + 2) cap then rest else out

unfoldable pub append_json_string : ℕ → Bytes → Bytes → Bytes
unfolding json_chars
append_json_string cap out src = put_char cap (json_chars cap (put_char cap out b'"') src) b'"'
