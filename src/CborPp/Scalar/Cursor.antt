-- ===== src/CborPp/Scalar/Cursor.antt =====
-- Each head, string and key that is read moves the cursor on.
use mqtt_viewer.Base.{
  ℕ, zero, suc, ◌+◌, ◌*◌, ◌/◌, ◌%◌, ◌≤◌, ◌<◌, Bool, true, false, ◌&&◌, [], ◌∷◌, Option, none, some,
  inl, inr, arith, length, ltb, leb, ◌==◌, if◌then◌else◌, Bytes, Bool-cases,
}
use mqtt_viewer.CborPp.{
  CborHead, Float, cbor_out_str, read_arg, head_with, head_sized, read_head, chunk_text,
  append_bytes, append_chunk, next_chunk, chunk_on, append_chunks, is_break, bad_chunk,
  append_string,
}
use mqtt_viewer.CborPp.Scalar.{
  Scalar, byte_string, text_string, simple_value, format_scalar, key_text, key_with,
}

-- Where something was read, less than `k` bytes are left.
unfoldable pub IsRead : {A : Type 0} → ℕ → Option (A × Bytes) → Type 0
IsRead k none = Unit
IsRead k (some (a, s)) = length s < k

read_arg-IsRead : (k n arg : ℕ) (s : Bytes) → length s < k → IsRead k (read_arg n arg s)
unfolding IsRead read_arg
read_arg-IsRead k zero arg s h = h
read_arg-IsRead k (suc n) arg [] h = tt
read_arg-IsRead k (suc n) arg (c ∷ s) h = read_arg-IsRead k n (arg * 256 + c) s (omega arith)

head_with-IsRead :
    (k major info : ℕ) (o : Option (ℕ × Bytes)) → IsRead k o → IsRead k (head_with major info o)
unfolding IsRead
head_with-IsRead k major info none h = tt
head_with-IsRead k major info (some (arg, s)) h = h

head_sized-IsRead :
    (k major info : ℕ) (n : Option ℕ) (s : Bytes)
    → length s < k
    → IsRead k (head_sized major info n s)
unfolding IsRead
head_sized-IsRead k major info none s h = tt
head_sized-IsRead k major info (some n) s h =
    head_with-IsRead k major info (read_arg n 0 s) (read_arg-IsRead k n 0 s h)

pub read_head-IsRead : (s : Bytes) → IsRead (length s) (read_head s)
unfolding IsRead read_head
read_head-IsRead [] = tt
read_head-IsRead (ib ∷ s) = elim (Bool-cases (ltb (ib % 32) 24)) [
  | inl e ↦ simp e (omega arith)
  | inr e ↦ simp e (elim (Bool-cases (ib % 32 == 31)) [
    | inl e' ↦ simp e' (omega arith)
    | inr e' ↦ simp e' (head_sized-IsRead (suc (length s)) (ib / 32) (ib % 32) _ s (omega arith))
  ])
]

append_bytes-IsRead :
    (k limit : ℕ) (bytes : Bool) (n : ℕ) (s o : Bytes)
    → length s < k
    → IsRead k (append_bytes limit bytes n s o)
unfolding IsRead append_bytes
append_bytes-IsRead k limit bytes zero s o h = h
append_bytes-IsRead k limit bytes (suc n) [] o h = tt
append_bytes-IsRead k limit bytes (suc n) (c ∷ s) o h =
    append_bytes-IsRead k limit bytes n s (cbor_out_str limit o (chunk_text bytes c)) (omega arith)

append_chunk-IsRead :
    (k limit : ℕ) (bytes : Bool) (n : ℕ) (s o : Bytes)
    → length s < k
    → IsRead k (append_chunk limit bytes n s o)
unfolding IsRead append_chunk
append_chunk-IsRead k limit bytes n s o h = elim (Bool-cases (ltb (length s) n)) [
  | inl e ↦ simp e tt
  | inr e ↦ simp e (append_bytes-IsRead k limit bytes n s o h)
]

next_chunk-IsRead :
    (k : ℕ) (again : Bytes → Bytes → Option (Bytes × Bytes)) (o : Option (Bytes × Bytes))
    → ((s t : Bytes) → length s < k → IsRead k (again s t))
    → IsRead k o
    → IsRead k (next_chunk again o)
unfolding IsRead
next_chunk-IsRead k again none f h = tt
next_chunk-IsRead k again (some (o, s)) f h = f s o h

chunk_on-IsRead :
    (k limit major : ℕ) (again : Bytes → Bytes → Option (Bytes × Bytes)) (o : Bytes)
    (c : Option (CborHead × Bytes))
    → ((s t : Bytes) → length s < k → IsRead k (again s t))
    → IsRead k c
    → IsRead k (chunk_on again limit major o c)
unfolding IsRead
chunk_on-IsRead k limit major again o none f h = tt
chunk_on-IsRead k limit major again o (some (c, s)) f h = elim (Bool-cases (is_break c)) [
  | inl e ↦ simp e h
  | inr e ↦ simp e (elim (Bool-cases (bad_chunk major c)) [
    | inl e' ↦ simp e' tt
    | inr e' ↦ simp e' (
        next_chunk-IsRead k again (append_chunk limit (major == 2) c.arg s o) f
          (append_chunk-IsRead k limit (major == 2) c.arg s o h))
  ])
]

pub weaker : {A : Type 0} (k n : ℕ) (o : Option (A × Bytes)) → k ≤ n → IsRead k o → IsRead n o
unfolding IsRead
weaker k n none h r = tt
weaker k n (some (a, s)) h r = omega (arith, r, h)

append_chunks-IsRead :
    (k limit major rounds : ℕ) (s o : Bytes)
    → length s < k
    → IsRead k (append_chunks limit major rounds s o)
unfolding IsRead append_chunks
append_chunks-IsRead k limit major zero s o h = tt
append_chunks-IsRead k limit major (suc rounds) s o h =
    chunk_on-IsRead k limit major (append_chunks limit major rounds) o (read_head s)
      (append_chunks-IsRead k limit major rounds)
      (weaker (length s) k (read_head s) (omega arith) (read_head-IsRead s))

append_string-IsRead :
    (k limit : ℕ) (h : CborHead) (s o : Bytes) → length s < k → IsRead k (append_string limit h s o)
unfolding append_string
append_string-IsRead k limit h s o l = elim (Bool-cases h.indefinite) [
  | inl e ↦ simp e (append_chunks-IsRead k limit h.major (length s) s o l)
  | inr e ↦ simp e (append_chunk-IsRead k limit (h.major == 2) h.arg s o l)
]

module _ {D : Type 0} (float : Float D) (strtod : Bytes → D × Bytes) (isfinite : D → Bool) where
  byte_string-IsRead :
      (k limit : ℕ) (o : Option (Bytes × Bytes))
      → IsRead k o
      → IsRead k (byte_string float strtod isfinite limit o)
  unfolding IsRead
  byte_string-IsRead k limit none h = tt
  byte_string-IsRead k limit (some (o, s)) h = h

  text_string-IsRead :
      (k limit : ℕ) (o : Option (Bytes × Bytes))
      → IsRead k o
      → IsRead k (text_string float strtod isfinite limit o)
  unfolding IsRead
  text_string-IsRead k limit none h = tt
  text_string-IsRead k limit (some (o, s)) h = h

  simple_value-IsRead :
      (k : ℕ) (v : Option Scalar) (s : Bytes)
      → length s < k
      → IsRead k (simple_value float strtod isfinite v s)
  unfolding IsRead
  simple_value-IsRead k none s h = tt
  simple_value-IsRead k (some v) s h = h

  -- The test of a head, with the two answers.
  pub either-IsRead :
      {A : Type 0} (k : ℕ) (b : Bool) (x y : Option (A × Bytes))
      → IsRead k x
      → IsRead k y
      → IsRead k (if b then x else y)
  either-IsRead k true x y p q = p
  either-IsRead k false x y p q = q

  pub format_scalar-IsRead :
      (k limit : ℕ) (h : CborHead) (s : Bytes)
      → length s < k
      → IsRead k (format_scalar float strtod isfinite limit h s)
  unfolding format_scalar IsRead
  format_scalar-IsRead k limit h s l =
      either-IsRead k (h.major == 0) _ _ (either-IsRead k h.indefinite none _ tt l) (
        either-IsRead k (h.major == 1) _ _ (either-IsRead k h.indefinite none _ tt l) (
          either-IsRead k (h.major == 2) _ _
            (byte_string-IsRead k limit _ (append_string-IsRead k limit h s _ l))
            (either-IsRead k (h.major == 3) _ _
              (text_string-IsRead k limit _ (append_string-IsRead k limit h s _ l))
              (either-IsRead k (h.major == 7) _ none (simple_value-IsRead k _ s l) tt))))

  key_text-IsRead :
      (k : ℕ) (o : Option (Scalar × Bytes))
      → IsRead k o
      → IsRead k (key_text float strtod isfinite o)
  unfolding IsRead
  key_text-IsRead k none h = tt
  key_text-IsRead k (some (v, s)) h = h

  pub key_with-IsRead :
      (k limit : ℕ) (o : Option (CborHead × Bytes))
      → IsRead k o
      → IsRead k (key_with float strtod isfinite limit o)
  unfolding IsRead
  key_with-IsRead k limit none l = tt
  key_with-IsRead k limit (some (h, s)) l =
      either-IsRead k (h.major == 3) _ _ (append_string-IsRead k limit h s [] l) (
        either-IsRead k (leb 4 h.major && leb h.major 6) none _ tt
          (key_text-IsRead k _ (format_scalar-IsRead k limit h s l)))
