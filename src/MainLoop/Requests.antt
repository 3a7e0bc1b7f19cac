-- ===== src/MainLoop/Requests.antt =====
-- What the requests of the user do to the history, the database and the client.
use mqtt_viewer.Base.{
  ℕ, ◌≤◌, Bool, true, false, List, [], ◌∷◌, ◌++◌, append_assoc, append-nil, map, none, some, ◌≡◌,
  refl, sym, ap, ap₂, ◌∙◌, length, if◌then◌else◌,
}
use mqtt_viewer.MessageBuf.{MessageRecord, message_buf_generation}
use mqtt_viewer.MessageBuf.Refine
use mqtt_viewer.MessageBuf.Remove.{without, message_buf_remove_topic_refines}
use mqtt_viewer.TopicTree.{topic_node_full_path}
use mqtt_viewer.Db.{db_flush_history}
use mqtt_viewer.Db.Flush.{rows, unsaved, IsCounted, db_flush_history_writes}
use mqtt_viewer.MainLoop.{App, DbCall, flush_history, clear_history, clear_on, clear_topic}

-- The rows that the calls of the database insert, in order.
abbrev pub inserted : List DbCall → List MessageRecord
inserted [] = []
inserted (DbCall.save b ∷ cs) = b ++ inserted cs
inserted (DbCall.delete_topic topic ∷ cs) = inserted cs
inserted (DbCall.trim n ∷ cs) = inserted cs

inserted-append : (cs ds : List DbCall) → inserted (cs ++ ds) ≡ inserted cs ++ inserted ds
inserted-append [] ds = refl
inserted-append (DbCall.save b ∷ cs) ds =
    ap (◌++◌ b) (inserted-append cs ds) ∙ sym (append_assoc b (inserted cs) (inserted ds))
inserted-append (DbCall.delete_topic topic ∷ cs) ds = inserted-append cs ds
inserted-append (DbCall.trim n ∷ cs) ds = inserted-append cs ds

inserted-rows : (bs : List (List MessageRecord)) → inserted (map DbCall.save bs) ≡ rows bs
inserted-rows [] = refl
inserted-rows (b ∷ bs) = ap (◌++◌ b) (inserted-rows bs)

inserted_trim : (trimmed : Bool) → inserted (if trimmed then DbCall.trim 10000 ∷ [] else []) ≡ []
inserted_trim true = refl
inserted_trim false = refl

-- The flush inserts the messages that are newer than `history_saved`, and no others.
flush_history-inserted :
    (app : App)
    → IsCounted app.global_history
    → length app.batch ≡ 256
    → app.history_saved ≤ app.global_history.generation
    → let app' = flush_history app in
      (inserted app'.journal ≡ inserted app.journal ++ unsaved app.global_history app.history_saved)
      × (app'.history_saved ≡ app.global_history.generation)
unfolding flush_history
flush_history-inserted app c l h =
    let f =
      db_flush_history app.global_history
        (record { saved = app.history_saved; batch = app.batch; saves = [] }) in
    let (s, r, _) =
      db_flush_history_writes (record { saved = app.history_saved; batch = app.batch; saves = [] })
        c l h in
    (
      inserted-append app.journal _
          ∙ ap (λ ys. inserted app.journal ++ ys)
              (inserted-append (map DbCall.save f.0.saves) _
                ∙ ap₂ ◌++◌ (inserted-rows f.0.saves ∙ r) (inserted_trim f.1)
                ∙ append-nil (unsaved app.global_history app.history_saved)),
      s,
    )

-- "Clear History" on a topic, with a database open: the messages that were not yet written are
-- inserted, the rows of the topic are deleted after that, the history loses exactly the messages of
-- the topic, and nothing of it counts as unwritten. The history must be valid, its generation below
-- 2^64 and at least its number of messages, `history_saved` at most the generation, and the array of
-- the flush must hold 256 messages.
pub clear_topic_agrees :
    (app : App) (i : ℕ)
    → app.clear_topic_requested ≡ some i
    → app.db ≡ true
    → IsCounted app.global_history
    → length app.batch ≡ 256
    → app.history_saved ≤ app.global_history.generation
    → let app' = clear_topic app in
      let path = topic_node_full_path app.topic_tree i 512 in
      let flushed = flush_history app in
      (app'.journal ≡ flushed.journal ++ (DbCall.delete_topic path ∷ []))
      × (inserted app'.journal
          ≡ inserted app.journal ++ unsaved app.global_history app.history_saved)
      × (Refine.contents app'.global_history ≡ without path (Refine.contents app.global_history))
      × (app'.history_saved ≡ app'.global_history.generation)
unfolding clear_topic flush_history message_buf_generation
clear_topic_agrees app i r d c l h =
    let path = topic_node_full_path app.topic_tree i 512 in
    let begun = record app { clear_topic_requested = none } in
    let f = flush_history begun in
    let flushed = record f { journal = f.journal ++ (DbCall.delete_topic path ∷ []) } in
    let p : clear_topic app ≡ clear_history path i flushed =
      ap (λ o. clear_on o app) r
      ∙ ap (λ b. clear_history path i (if b then flushed else begun)) d in
    let (k, s) = flush_history-inserted app c l h in
    let removed = message_buf_remove_topic_refines path c.valid in
    (
      ap (λ a. a.journal) p,
      ap (λ a. inserted a.journal) p
          ∙ inserted-append f.journal (DbCall.delete_topic path ∷ [])
          ∙ append-nil (inserted f.journal)
          ∙ k,
      ap (λ a. Refine.contents a.global_history) p ∙ removed.1,
      ap (λ a. a.history_saved) p ∙ sym (ap (λ a. a.global_history.generation) p),
    )
