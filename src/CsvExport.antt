-- ===== src/CsvExport.antt =====
-- src/model/csv_export.c: a topic subtree of the message history as CSV (RFC 4180).
-- The C library's `FILE` is a record of what was written and of the bytes that still fit; a write
-- that does not fit fails (`EOF`), which is `none` here. `gmtime_r` and the calendar in the time
-- stamp are the parameter `iso8601`.
pub mod Field
pub mod Rows
use mqtt_viewer.Base.{
  ℕ, zero, suc, ◌+◌, ◌-◌, Bool, true, false, ◌||◌, List, [], ◌∷◌, ◌++◌, Option, none, some, length,
  take, ltb, ◌==◌, if◌then◌else◌, Bytes, codes,
}
use mqtt_viewer.Decimal.{decimal}
use mqtt_viewer.MessageBuf.{Block, MessageRecord, MessageBuf, message_buf_get, message_buf_count}

pub record OutFile : Type 0 where
  pub written : Bytes
  pub room : ℕ

infixl 5 ◌>>=◌
abbrev pub ◌>>=◌ : Option OutFile → (OutFile → Option OutFile) → Option OutFile
none >>= f = none
some o >>= f = f o

abbrev pub and_then : Option OutFile → (OutFile → Option (OutFile × ℕ)) → Option (OutFile × ℕ)
and_then none f = none
and_then (some o) f = f o

-- `fputc(c, out)`
unfoldable pub fputc : ℕ → OutFile → Option OutFile
fputc c o =
    if o.room == 0
    then none
    else some (record { written = o.written ++ (c ∷ []); room = o.room - 1 })

-- `fputs(s, out)`, and `fprintf` of a text already made.
unfoldable pub fputs : Bytes → OutFile → Option OutFile
unfolding fputc
fputs [] o = some o
fputs (c ∷ s) o = fputc c o >>= fputs s

-- `strncmp(topic, prefix, strlen(prefix)) == 0`, and what stands behind the prefix.
unfoldable pub behind_prefix : Bytes → Bytes → Option Bytes
behind_prefix [] topic = some topic
behind_prefix (p ∷ prefix) [] = none
behind_prefix (p ∷ prefix) (c ∷ topic) = if p == c then behind_prefix prefix topic else none

-- `topic[plen] == '\0' || topic[plen] == '/'`
unfoldable pub level_ends : Bytes → Bool
level_ends [] = true
level_ends (c ∷ s) = c == b'/'

unfoldable pub topic_matches : Bytes → Option Bytes → Bool
topic_matches topic none = true
topic_matches topic (some []) = true
topic_matches topic (some (p ∷ prefix)) = elim (behind_prefix (p ∷ prefix) topic) [
  | none ↦ false
  | some rest ↦ level_ends rest
]

-- `memchr` for each of the four bytes.
abbrev pub is_special : ℕ → Bool
is_special c = c == b',' || c == b'"' || c == b'\n' || c == b'\r'

unfoldable pub any_special : Bytes → Bool
any_special [] = false
any_special (c ∷ s) = is_special c || any_special s

-- A NUL byte is written as a space.
abbrev pub no_nul : ℕ → ℕ
no_nul c = if c == 0 then b' ' else c

-- The loop of `write_field`.
unfoldable pub write_bytes : Bytes → OutFile → Option OutFile
write_bytes [] o = some o
write_bytes (c ∷ s) o = (if no_nul c == b'"' then fputc b'"' o else some o) >>= λ q.
    fputc (no_nul c) q >>= λ r. write_bytes s r

unfoldable pub write_field : Bytes → OutFile → Option OutFile
unfolding write_bytes any_special
write_field s o = (if any_special s then fputc b'"' o else some o) >>= λ q.
    write_bytes s q >>= λ r. if any_special s then fputc b'"' r else some r

-- `r->payload != NULL && !write_field(..)`
unfoldable pub write_payload : Option Block → ℕ → OutFile → Option OutFile
write_payload none len o = some o
write_payload (some b) len o = write_field (take len b.bytes) o

module _ (iso8601 : ℕ → Bytes) where
  -- One row of the loop.
  unfoldable pub write_row : MessageRecord → OutFile → Option OutFile
  write_row r o =
      fputs (iso8601 r.timestamp_us) o
      >>= fputc b','
      >>= write_field r.topic
      >>= fputs (b',' ∷ (decimal r.qos ++ (b',' ∷ (if r.retained then b'1' else b'0') ∷ b',' ∷ [])))
      >>= write_payload r.payload r.payload_len
      >>= fputs (codes "\r\n")

  -- The loop over the messages from index `i`, with `left` of them to come.
  unfoldable pub write_rows : MessageBuf → Option Bytes → ℕ → ℕ → ℕ → OutFile → Option (OutFile × ℕ)
  write_rows buf prefix i zero rows o = some (o, rows)
  write_rows buf prefix i (suc left) rows o = elim (message_buf_get buf i) [
    | none ↦ write_rows buf prefix (i + 1) left rows o
    | some r ↦ elim (topic_matches r.topic prefix) [
      | false ↦ write_rows buf prefix (i + 1) left rows o
      | true ↦ and_then (write_row r o) (write_rows buf prefix (i + 1) left (rows + 1))
    ]
  ]

  -- `none` is -1; otherwise the number of rows comes second.
  unfoldable pub csv_export_write : MessageBuf → Option Bytes → OutFile → Option (OutFile × ℕ)
  csv_export_write buf prefix o =
      and_then (fputs (codes "timestamp,topic,qos,retained,payload\r\n") o)
        (write_rows buf prefix 0 (message_buf_count buf) 0)
