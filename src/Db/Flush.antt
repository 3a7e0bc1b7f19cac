-- ===== src/Db/Flush.antt =====
-- A flush writes the messages that were not written yet.
use mqtt_viewer.Base.{take-drop}
use mqtt_viewer.Base.{
  ℕ, zero, suc, ◌+◌, ◌-◌, ◌%◌, ◌^◌, ◌≤◌, ◌<◌, true, false, List, [], ◌∷◌, ◌++◌, append_assoc,
  append-nil, Option, none, some, ◌≡◌, inl, inr, refl, sym, ap, ap₂, ◌∙◌, arith, length, length-set,
  take, drop, set, get_elem?, drop_next, drop_past, ltb, ltb→lt, leb, Bool-cases,
}
use mqtt_viewer.MessageBuf.{
  MessageRecord, MessageBuf, message_buf_get, message_buf_generation, message_buf_count,
}
use mqtt_viewer.MessageBuf.Refine
use mqtt_viewer.MessageBuf.Refine.{contents, length-contents, message_buf_get_refines}
use mqtt_viewer.Db.{
  put_row, fill, Flushed, new_count, save_batch, save_all, from_window, flush_from,
  db_flush_history,
}

-- The rows of all batches, in order.
abbrev pub rows : List (List MessageRecord) → List MessageRecord
rows [] = []
rows (b ∷ bs) = b ++ rows bs

rows-append :
    (bs : List (List MessageRecord)) (b : List MessageRecord) → rows (bs ++ (b ∷ [])) ≡ rows bs ++ b
rows-append [] b = append-nil b
rows-append (c ∷ bs) b = ap (◌++◌ c) (rows-append bs b) ∙ sym (append_assoc c (rows bs) b)

-- The messages of the history that are newer than `saved`.
abbrev pub unsaved : MessageBuf → ℕ → List MessageRecord
unsaved b saved = drop (saved - (b.generation - b.count)) (contents b)

-- The generation counts every message that the history holds, and has not wrapped.
pub record IsCounted (b : MessageBuf) : Type 0 where
  pub valid : Refine.IsValid b
  pub enough : b.count ≤ b.generation
  pub small : b.generation < 2 ^ 64

take-set :
    (xs : List MessageRecord) (i : ℕ) (v : MessageRecord)
    → i < length xs
    → take (i + 1) (set xs i v) ≡ take i xs ++ (v ∷ [])
take-set [] i v h = absurd (omega arith)
take-set (x ∷ xs) zero v h = refl
take-set (x ∷ xs) (suc i) v h = ground (arith, take-set xs i v)

plus_zero : (n : ℕ) → n ≡ 0 + n
plus_zero n = omega arith

shift : (k n : ℕ) → suc k + n ≡ suc (k + n)
shift k n = omega arith

drop-drop : (k n : ℕ) (xs : List MessageRecord) → drop n (drop k xs) ≡ drop (k + n) xs
drop-drop zero n xs = ap (λ j. drop j xs) (omega arith)
drop-drop (suc k) n [] = drop_past [] n (omega arith) ∙ sym (drop_past [] (suc k + n) (omega arith))
drop-drop (suc k) n (x ∷ xs) = drop-drop k n xs ∙ ap (λ j. drop j (x ∷ xs)) (sym (shift k n))

module _ {b : MessageBuf} (v : Refine.IsValid b) where
  fill-length :
      (start i left : ℕ) (batch : List MessageRecord)
      → length (fill b start i left batch) ≡ length batch
  unfolding fill
  fill-length start i zero batch = refl
  fill-length start i (suc left) batch =
      fill-length start (i + 1) left _ ∙ put (message_buf_get b ((start + i) % 2 ^ 32))
    where
      put : (o : Option MessageRecord) → length (put_row batch i o) ≡ length batch
      put none = refl
      put (some r) = length-set batch i r

  fill-take :
      (start i left : ℕ) (batch : List MessageRecord)
      → i + left ≤ length batch
      → start + (i + left) ≤ b.count
      → take (i + left) (fill b start i left batch)
        ≡ take i batch ++ take left (drop (start + i) (contents b))
  unfolding fill
  fill-take start i zero batch h k =
      ap (λ j. take j batch) (omega arith) ∙ sym (append-nil (take i batch))
  fill-take start i (suc left) batch h k =
      let (r, e, d) = drop_next (contents b) (start + i) (omega (arith, k, length-contents b)) in
      let got = got_row r e in
      let next = put_row batch i (message_buf_get b ((start + i) % 2 ^ 32)) in
      ap (λ j. take j (fill b start (i + 1) left next)) (shift_left i left)
      ∙ ap (λ o. take (i + 1 + left) (fill b start (i + 1) left (put_row batch i o))) got
      ∙ fill-take start (i + 1) left (set batch i r) (omega (arith, h, length-set batch i r))
          (omega (arith, k))
      ∙ ap₂ (λ xs ys. xs ++ take left ys) (take-set batch i r (omega (arith, h)))
          (ap (λ j. drop j (contents b)) (shift_right start i))
      ∙ append_assoc (take i batch) (r ∷ []) (take left (drop (suc (start + i)) (contents b)))
      ∙ ap (λ ys. take i batch ++ take (suc left) ys) (sym d)
    where
      shift_left : (i left : ℕ) → i + suc left ≡ i + 1 + left
      shift_left i left = omega arith

      shift_right : (start i : ℕ) → start + (i + 1) ≡ suc (start + i)
      shift_right start i = omega arith

      got_row :
          (r : MessageRecord)
          → get_elem? (contents b) (start + i) ≡ some r
          → message_buf_get b ((start + i) % 2 ^ 32) ≡ some r
      got_row r e =
          ap (message_buf_get b) (omega (arith, k, v.count_in, v.small))
          ∙ message_buf_get_refines (start + i) v
          ∙ e

  fill-rows :
      (start n : ℕ) (batch : List MessageRecord)
      → n ≤ length batch
      → start + n ≤ b.count
      → take n (fill b start 0 n batch) ≡ take n (drop start (contents b))
  fill-rows start n batch h k =
      ap (λ j. take j (fill b start 0 n batch)) (plus_zero n)
      ∙ fill-take start 0 n batch (omega (arith, h)) (omega (arith, k))
      ∙ ap (λ j. take n (drop j (contents b))) (omega arith)

new_count-bounds :
    (pushed saved : ℕ)
    → saved < pushed
    → pushed - saved ≤ 2 ^ 31
    → pushed < 2 ^ 64
    → (0 < new_count pushed saved)
      × (new_count pushed saved ≤ 256)
      × (new_count pushed saved ≤ pushed - saved)
new_count-bounds pushed saved h k l = ground arith

module _ {b : MessageBuf} (c : IsCounted b) where
  abbrev window : ℕ
  window = b.generation - b.count

  abbrev start_of : ℕ → ℕ
  start_of saved = (saved + 2 ^ 64 - window) % 2 ^ 64 % 2 ^ 32

  start_of_lem :
      (saved : ℕ) → window ≤ saved → saved < b.generation → start_of saved ≡ saved - window
  start_of_lem saved h k = omega (arith, h, k, c.enough, c.small, c.valid.count_in, c.valid.small)

  -- A round writes the next messages, 256 at most, and at least one.
  save_batch-rows :
      (f : Flushed)
      → length f.batch ≡ 256
      → window ≤ f.saved
      → f.saved < b.generation
      → let g = save_batch b b.generation window f in
        let n = new_count b.generation f.saved in
        (length g.batch ≡ 256)
        × (g.saved ≡ f.saved + n)
        × (rows g.saves ≡ rows f.saves ++ take n (drop (f.saved - window) (contents b)))
  save_batch-rows f l h k =
      let n = new_count b.generation f.saved in
      let batch = fill b (start_of f.saved) 0 n f.batch in
      let few : b.generation - f.saved ≤ 2 ^ 31 =
        omega (arith, h, c.valid.count_in, c.valid.small) in
      let (n0, n1, n2) = new_count-bounds b.generation f.saved k few c.small in
      let s = start_of_lem f.saved h k in
      (
        fill-length c.valid (start_of f.saved) 0 n f.batch ∙ l,
        omega (arith, n2, k, c.small),
        rows-append f.saves (take n batch)
            ∙ ap (λ ys. rows f.saves ++ ys)
                (fill-rows c.valid (start_of f.saved) n f.batch (omega (arith, n1, l))
                    (omega (arith, n2, s, h, k, c.enough))
                  ∙ ap (λ j. take n (drop j (contents b))) (omega (arith, s))),
      )

  -- What a loop that is given enough rounds leaves.
  abbrev IsSaved : Flushed → Flushed → Type 0
  IsSaved f g =
      (g.saved ≡ b.generation)
      × (rows g.saves ≡ rows f.saves ++ drop (f.saved - window) (contents b))
      × (length g.batch ≡ 256)

  saved_all : (f : Flushed) → length f.batch ≡ 256 → f.saved ≡ b.generation → IsSaved f f
  saved_all f l e = (
    e,
    sym (append-nil (rows f.saves))
        ∙ ap (λ ys. rows f.saves ++ ys)
            (sym (
              drop_past (contents b) (f.saved - window)
                (omega (arith, e, length-contents b, c.enough)))),
    l,
  )

  -- What is left after `n` more messages.
  rest-saved :
      (saved saved' n : ℕ)
      → window ≤ saved
      → saved' ≡ saved + n
      → take n (drop (saved - window) (contents b)) ++ drop (saved' - window) (contents b)
        ≡ drop (saved - window) (contents b)
  rest-saved saved saved' n h e =
      ap (λ j. take n (drop (saved - window) (contents b)) ++ drop j (contents b))
        (omega (arith, e, h))
      ∙ ap (λ ys. take n (drop (saved - window) (contents b)) ++ ys)
          (sym (drop-drop (saved - window) n (contents b)))
      ∙ take-drop n (drop (saved - window) (contents b))

  save_all-done :
      (rounds : ℕ) (f : Flushed)
      → ltb f.saved b.generation ≡ false
      → save_all b b.generation window (suc rounds) f ≡ f
  unfolding save_all
  save_all-done rounds f e = rw (save_all, e) refl

  save_all-next :
      (rounds : ℕ) (f : Flushed)
      → ltb f.saved b.generation ≡ true
      → save_all b b.generation window (suc rounds) f
        ≡ save_all b b.generation window rounds (save_batch b b.generation window f)
  unfolding save_all
  save_all-next rounds f e = rw (save_all, e) refl

  save_all-IsSaved :
      (rounds : ℕ) (f : Flushed)
      → length f.batch ≡ 256
      → window ≤ f.saved
      → f.saved ≤ b.generation
      → b.generation - f.saved ≤ rounds
      → IsSaved f (save_all b b.generation window rounds f)
  unfolding save_all
  save_all-IsSaved zero f l h k r = saved_all f l (omega (arith, k, r))
  save_all-IsSaved (suc rounds) f l h k r = elim (Bool-cases (ltb f.saved b.generation)) [
    | inr e ↦ rw (save_all-done rounds f e) (saved_all f l (ground arith))
    | inl e ↦ rw (save_all-next rounds f e) (
        let g = save_batch b b.generation window f in
        let n = new_count b.generation f.saved in
        let lt = ltb→lt f.saved b.generation e in
        let few : b.generation - f.saved ≤ 2 ^ 31 =
          omega (arith, h, c.valid.count_in, c.valid.small) in
        let (n0, n1, n2) = new_count-bounds b.generation f.saved lt few c.small in
        let (gl, gs, gr) = save_batch-rows f l h lt in
        let (s', r', l') =
          save_all-IsSaved rounds g gl (omega (arith, gs, h)) (omega (arith, gs, n2, lt))
            (omega (arith, gs, n0, r)) in
        (
          s',
          r'
              ∙ ap (λ ys. ys ++ drop (g.saved - window) (contents b)) gr
              ∙ append_assoc (rows f.saves) (take n (drop (f.saved - window) (contents b)))
                  (drop (g.saved - window) (contents b))
              ∙ ap (λ ys. rows f.saves ++ ys) (rest-saved f.saved g.saved n h gs),
          l',
        ))
  ]

  flush_from-IsSaved :
      (f : Flushed)
      → length f.batch ≡ 256
      → window ≤ f.saved
      → f.saved ≤ b.generation
      → IsSaved f (flush_from b b.generation window f).0
  unfolding flush_from
  flush_from-IsSaved f l h k = elim (Bool-cases (leb b.generation f.saved)) [
    | inl e ↦ simp e (saved_all f l (ground arith))
    | inr e ↦ simp e (save_all-IsSaved (b.generation - f.saved) f l h k (omega arith))
  ]

  moved-IsSaved :
      (f : Flushed)
      → length f.batch ≡ 256
      → f.saved ≤ b.generation
      → IsSaved f (flush_from b b.generation window (from_window window f)).0
  moved-IsSaved f l k = elim (Bool-cases (ltb f.saved window)) [
    | inl e ↦ simp e (
        let from = record f { saved = window } in
        let (s, r, l') = flush_from-IsSaved from l (omega arith) (omega (arith, c.enough)) in
        (s, r ∙ ap (λ j. rows f.saves ++ drop j (contents b)) (ground arith), l'))
    | inr e ↦ simp e (flush_from-IsSaved f l (ground arith) k)
  ]

  window_lem : (b.generation + 2 ^ 64 - b.count) % 2 ^ 64 ≡ window
  window_lem = omega (arith, c.enough, c.small)

-- A flush writes exactly the messages of the history that are newer than `saved`, each once and oldest
-- first, behind what was written before, and then counts all as saved: for a valid history whose
-- generation is below 2^64 and at least its number of messages, a `saved` that is at most the
-- generation, and an array of 256 messages.
pub db_flush_history_writes :
    {b : MessageBuf} (f : Flushed)
    → IsCounted b
    → length f.batch ≡ 256
    → f.saved ≤ b.generation
    → let g = (db_flush_history b f).0 in
      (g.saved ≡ b.generation)
      × (rows g.saves ≡ rows f.saves ++ unsaved b f.saved)
      × (length g.batch ≡ 256)
unfolding db_flush_history message_buf_generation message_buf_count
db_flush_history_writes {b} f c l h = rw (window_lem c) (moved-IsSaved c f l h)
