-- ===== src/CsvExport/Rows.antt =====
-- The exported file: one row for each message of the subtree, in order.
use mqtt_viewer.Base.{
  ℕ, zero, suc, ◌+◌, true, List, [], ◌∷◌, ◌++◌, append-nil, append_assoc, Option, none, some, ◌≡◌,
  ◌⊎◌, ◌↔◌, refl, sym, ap, ◌∙◌, arith, length, length-append, take, drop, drop_past, drop_next,
  if◌then◌else◌, Bytes, codes, inl, inr, Bool-cases,
}
use mqtt_viewer.Decimal.{decimal}
use mqtt_viewer.MessageBuf.{Block, MessageRecord, MessageBuf, message_buf_get, message_buf_count}
use mqtt_viewer.MessageBuf.Refine.{IsValid, contents, message_buf_get_refines, length-contents}
use mqtt_viewer.CsvExport.{
  OutFile, and_then, fputs, fputc, behind_prefix, level_ends, topic_matches, write_field,
  write_payload, write_row, write_rows, csv_export_write,
}
use mqtt_viewer.CsvExport.Field.{
  emit, emit-nil, fputc-emit, fputs-emit, chain, field_text, write_field-emit,
}

-- `behind_prefix` finds what stands behind the prefix, and only that.
behind_prefix-some : (p t r : Bytes) → behind_prefix p t ≡ some r → t ≡ p ++ r
unfolding behind_prefix
behind_prefix-some [] t r e = cc
behind_prefix-some (x ∷ p) [] r e = cc
behind_prefix-some (x ∷ p) (c ∷ t) r e = ground (arith, behind_prefix-some p t r)

behind_prefix-append : (p r : Bytes) → behind_prefix p (p ++ r) ≡ some r
unfolding behind_prefix
behind_prefix-append [] r = refl
behind_prefix-append (x ∷ p) r = ground (arith, behind_prefix-append p r)

-- Below a prefix: the topic itself, or a topic under it.
abbrev pub Below : Bytes → Bytes → Type 0
Below prefix topic = (topic ≡ prefix) ⊎ ((rest : Bytes) × (topic ≡ prefix ++ (b'/' ∷ rest)))

-- A prefix that is not empty selects exactly its own topic and the topics below it.
pub topic_matches-Below :
    (topic : Bytes) (p : ℕ) (prefix : Bytes)
    → (topic_matches topic (some (p ∷ prefix)) ≡ true) ↔ Below (p ∷ prefix) topic
topic_matches-Below topic p prefix = (sound (behind_prefix (p ∷ prefix) topic) refl, complete)
  where
    sound :
        (o : Option Bytes)
        → behind_prefix (p ∷ prefix) topic ≡ o
        → topic_matches topic (some (p ∷ prefix)) ≡ true
        → Below (p ∷ prefix) topic
    sound none e h = unfold topic_matches in absurd (ground arith)
    sound (some []) e h = inl (behind_prefix-some (p ∷ prefix) topic [] e ∙ append-nil (p ∷ prefix))
    sound (some (c ∷ r)) e h = inr (
      r,
      behind_prefix-some (p ∷ prefix) topic (c ∷ r) e
          ∙ ap (λ k. (p ∷ prefix) ++ (k ∷ r)) (unfold topic_matches level_ends in ground arith),
    )

    complete : Below (p ∷ prefix) topic → topic_matches topic (some (p ∷ prefix)) ≡ true
    complete (inl e) =
        rw (e ∙ sym (append-nil (p ∷ prefix)))
          (unfold topic_matches level_ends in ground (arith, behind_prefix-append (p ∷ prefix) []))
    complete (inr (r, e)) = rw e (
        unfold topic_matches level_ends in
        ground (arith, behind_prefix-append (p ∷ prefix) (b'/' ∷ r)))

-- The messages of the subtree, in order.
abbrev pub selected : Option Bytes → List MessageRecord → List MessageRecord
selected prefix [] = []
selected prefix (r ∷ rs) =
    if topic_matches r.topic prefix then r ∷ selected prefix rs else selected prefix rs

-- What a message must be to be exported: every one, without a prefix or with an empty one; below the
-- prefix else.
abbrev pub Wanted : Option Bytes → MessageRecord → Type 0
Wanted none r = Unit {0}
Wanted (some []) r = Unit {0}
Wanted (some (p ∷ prefix)) r = Below (p ∷ prefix) r.topic

-- The second list has the wanted messages of the first, all of them, in order.
pub data IsSelection (prefix : Option Bytes)
    : List MessageRecord → List MessageRecord → Type 0 where
  done : IsSelection prefix [] []
  kept :
      {r : MessageRecord} {rs ss : List MessageRecord}
      → Wanted prefix r
      → IsSelection prefix rs ss
      → IsSelection prefix (r ∷ rs) (r ∷ ss)
  skipped :
      {r : MessageRecord} {rs ss : List MessageRecord}
      → ¬ Wanted prefix r
      → IsSelection prefix rs ss
      → IsSelection prefix (r ∷ rs) ss

topic_matches-Wanted :
    (prefix : Option Bytes) (r : MessageRecord)
    → (topic_matches r.topic prefix ≡ true) ↔ Wanted prefix r
topic_matches-Wanted none r = (λ e. tt, λ w. unfold topic_matches in refl)
topic_matches-Wanted (some []) r = (λ e. tt, λ w. unfold topic_matches in refl)
topic_matches-Wanted (some (p ∷ prefix)) r = topic_matches-Below r.topic p prefix

selected-IsSelection :
    (prefix : Option Bytes) (rs : List MessageRecord) → IsSelection prefix rs (selected prefix rs)
selected-IsSelection prefix [] = IsSelection.done
selected-IsSelection prefix (r ∷ rs) = elim (Bool-cases (topic_matches r.topic prefix)) [
  | inl e ↦
      rw e (IsSelection.kept ((topic_matches-Wanted prefix r).0 e) (selected-IsSelection prefix rs))
  | inr e ↦ rw e (
      IsSelection.skipped (λ w. let k = (topic_matches-Wanted prefix r).1 w in cc)
        (selected-IsSelection prefix rs))
]

abbrev pub payload_text : Option Block → ℕ → Bytes
payload_text none n = []
payload_text (some b) n = field_text (take n b.bytes)

write_payload-emit :
    (p : Option Block) (n : ℕ) (o : OutFile) → write_payload p n o ≡ emit (payload_text p n) o
unfolding write_payload
write_payload-emit none n o = emit-nil o
write_payload-emit (some b) n o = write_field-emit (take n b.bytes) o

-- What stands between the topic and the payload.
abbrev pub flags_text : MessageRecord → Bytes
flags_text r = b',' ∷ (decimal r.qos ++ (b',' ∷ (if r.retained then b'1' else b'0') ∷ b',' ∷ []))

-- A text written with a number of rows, or a failure.
abbrev pub emit_counted : Bytes → ℕ → OutFile → Option (OutFile × ℕ)
emit_counted t n o = elim (emit t o) [ none ↦ none | some q ↦ some (q, n) ]

emit_counted-append :
    (s t : Bytes) (n : ℕ) (o : OutFile)
    → and_then (emit s o) (emit_counted t n) ≡ emit_counted (s ++ t) n o
emit_counted-append s t n o = ground (arith, length-append s t, append_assoc o.written s t)

emit_counted-then :
    (m : Option OutFile) (s t : Bytes) (n : ℕ) (o : OutFile) (f : OutFile → Option (OutFile × ℕ))
    → m ≡ emit s o
    → ((q : OutFile) → f q ≡ emit_counted t n q)
    → and_then m f ≡ emit_counted (s ++ t) n o
emit_counted-then m s t n o f e h =
    bound m ∙ ap (λ k. and_then k (emit_counted t n)) e ∙ emit_counted-append s t n o
  where
    bound : (k : Option OutFile) → and_then k f ≡ and_then k (emit_counted t n)
    bound none = refl
    bound (some q) = h q

module _ (iso8601 : ℕ → Bytes) where
  -- The text of a row, and of the rows of the selected messages.
  unfoldable pub row_text : MessageRecord → Bytes
  row_text r =
      iso8601 r.timestamp_us
      ++ (b',' ∷ [])
      ++ field_text r.topic
      ++ flags_text r
      ++ payload_text r.payload r.payload_len
      ++ codes "\r\n"

  unfoldable pub rows_text : List MessageRecord → Bytes
  rows_text [] = []
  rows_text (r ∷ rs) = row_text r ++ rows_text rs

  write_row-emit : (r : MessageRecord) (o : OutFile) → write_row iso8601 r o ≡ emit (row_text r) o
  unfolding write_row row_text
  write_row-emit r o =
      let time = iso8601 r.timestamp_us in
      let named = time ++ (b',' ∷ []) ++ field_text r.topic in
      let payload = payload_text r.payload r.payload_len in
      chain o (named ++ flags_text r ++ payload) (codes "\r\n") (fputs (codes "\r\n"))
        (chain o (named ++ flags_text r) payload (write_payload r.payload r.payload_len)
          (chain o named (flags_text r) (fputs (flags_text r))
            (chain o (time ++ (b',' ∷ [])) (field_text r.topic) (write_field r.topic)
              (chain o time (b',' ∷ []) (fputc b',') (fputs-emit time o) (fputc-emit b','))
              (write_field-emit r.topic))
            (fputs-emit (flags_text r)))
          (write_payload-emit r.payload r.payload_len))
        (fputs-emit (codes "\r\n"))

  write_rows_step :
      (buf : MessageBuf) (prefix : Option Bytes) (left i rows : ℕ) (o : OutFile) (r : MessageRecord)
      → message_buf_get buf i ≡ some r
      → drop i (contents buf) ≡ r ∷ drop (i + 1) (contents buf)
      → ((n : ℕ) (q : OutFile)
          → let rs = selected prefix (drop (i + 1) (contents buf)) in
            write_rows iso8601 buf prefix (i + 1) left n q
            ≡ emit_counted (rows_text rs) (n + length rs) q)
      → let rs = selected prefix (drop i (contents buf)) in
        write_rows iso8601 buf prefix i (suc left) rows o
        ≡ emit_counted (rows_text rs) (rows + length rs) o
  unfolding write_rows rows_text
  write_rows_step buf prefix left i rows o r e d ih =
      let rs = selected prefix (drop (i + 1) (contents buf)) in
      rw d (
        ground (
          arith,
          e,
          ih rows o,
          emit_counted-then (write_row iso8601 r o) (row_text r) (rows_text rs)
              (rows + suc (length rs)) o (write_rows iso8601 buf prefix (i + 1) left (rows + 1))
              (write_row-emit r o)
              (λ q. ih (rows + 1) q ∙ ap (λ n. emit_counted (rows_text rs) n q) (omega arith)),
        ))

  write_rows-emit :
      (buf : MessageBuf) (prefix : Option Bytes) (left i rows : ℕ) (o : OutFile)
      → IsValid buf
      → i + left ≡ length (contents buf)
      → let rs = selected prefix (drop i (contents buf)) in
        write_rows iso8601 buf prefix i left rows o
        ≡ emit_counted (rows_text rs) (rows + length rs) o
  write_rows-emit buf prefix zero i rows o v h =
      unfold write_rows rows_text in
      rw (drop_past (contents buf) i (omega arith)) (ground (arith, append-nil o.written))
  write_rows-emit buf prefix (suc left) i rows o v h =
      let (r, e, d) = drop_next (contents buf) i (omega arith) in
      write_rows_step buf prefix left i rows o r (message_buf_get_refines i v ∙ e)
        (d ∙ ap (λ k. r ∷ drop k (contents buf)) {x = suc i} (omega arith))
        (λ n q. write_rows-emit buf prefix left (i + 1) n q v (omega arith))

  -- The export writes the header line and one row for each message of `selected`, oldest first, and
  -- returns their number; where the file takes less, it fails. Those messages are, in order, all
  -- those of the history whose topic is the prefix or stands below it, and every message where there
  -- is no prefix or an empty one.
  pub csv_export_write_lem :
      (buf : MessageBuf) (prefix : Option Bytes) (o : OutFile)
      → IsValid buf
      → let rs = selected prefix (contents buf) in
        (csv_export_write iso8601 buf prefix o
          ≡ emit_counted
              (codes "timestamp,topic,qos,retained,payload\r\n" ++ rows_text rs)
              (length rs)
              o)
        × IsSelection prefix (contents buf) rs
  csv_export_write_lem buf prefix o v = (
    let header = codes "timestamp,topic,qos,retained,payload\r\n" in
        unfold csv_export_write message_buf_count in
        emit_counted-then (fputs header o) header (rows_text (selected prefix (contents buf))) _ o _
          (fputs-emit header o)
          (λ q.
            write_rows-emit buf prefix buf.count 0 0 q v (omega (arith, length-contents buf))
            ∙ ap (λ n. emit_counted (rows_text (selected prefix (contents buf))) n q)
                (omega arith)),
    selected-IsSelection prefix (contents buf),
  )
