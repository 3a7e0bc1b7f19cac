-- ===== src/CborPp/Head.antt =====
-- The heads of CBOR items: every head that RFC 8949 section 3 writes is read back, with the bytes
-- behind it left over.
use mqtt_viewer.Base.{
  ℕ, zero, suc, ◌+◌, ◌*◌, ◌/◌, ◌%◌, ◌^◌, ◌<◌, false, inl, inr, [], ◌∷◌, ◌++◌, append_assoc, some,
  ◌≡◌, refl, ap, ap₂, ◌∙◌, arith, ltb, ◌==◌, if◌then◌else◌, Bytes, Bool-cases,
}
use native.Mathlib.Numerals.{unary_clauses}
use mqtt_viewer.CborPp.{CborHead, read_arg, arg_size, head_with, head_sized, read_head}

-- `n` bytes, the highest first.
unfoldable pub big_endian : ℕ → ℕ → Bytes
big_endian zero arg = []
big_endian (suc n) arg = big_endian n (arg / 256) ++ (arg % 256 ∷ [])

-- The shortest head of a major type and an argument, and the head it stands for.
unfoldable pub info_of : ℕ → ℕ
info_of arg =
    if ltb arg 24
    then arg
    else if ltb arg (2 ^ 8)
    then 24
    else if ltb arg (2 ^ 16)
    then 25
    else if ltb arg (2 ^ 32)
    then 26
    else 27

unfoldable pub argument_of : ℕ → Bytes
argument_of arg =
    if ltb arg 24
    then []
    else if ltb arg (2 ^ 8)
    then big_endian 1 arg
    else if ltb arg (2 ^ 16)
    then big_endian 2 arg
    else if ltb arg (2 ^ 32)
    then big_endian 4 arg
    else big_endian 8 arg

abbrev pub encode_head : ℕ → ℕ → Bytes
encode_head major arg = (major * 32 + info_of arg) ∷ argument_of arg

abbrev pub head : ℕ → ℕ → CborHead
head major arg = record { major = major; info = info_of arg; arg = arg; indefinite = false }

shift : (n k : ℕ) → suc n + k ≡ n + suc k
shift n k = omega arith

plus_zero : (n : ℕ) → n ≡ n + 0
plus_zero n = omega arith

next_power : (n arg : ℕ) → arg < 256 ^ suc n → arg / 256 < 256 ^ n
next_power n arg h = omega (arith, simp unary_clauses at h)

read_arg-big_endian :
    (n k arg : ℕ) (rest : Bytes)
    → arg < 256 ^ n
    → read_arg (n + k) 0 (big_endian n arg ++ rest) ≡ read_arg k arg rest
unfolding big_endian read_arg
read_arg-big_endian zero k arg rest h =
    ap₂ (λ m a. read_arg m a rest) (omega arith) (omega (arith, h))
read_arg-big_endian (suc n) k arg rest h =
    ap (λ m. read_arg m 0 (big_endian (suc n) arg ++ rest)) (shift n k)
    ∙ ap (read_arg (n + suc k) 0) (append_assoc (big_endian n (arg / 256)) (arg % 256 ∷ []) rest)
    ∙ read_arg-big_endian n (suc k) (arg / 256) (arg % 256 ∷ rest) (next_power n arg h)
    ∙ ap (λ a. read_arg k a rest) (omega arith)

read_arg-written :
    (n arg : ℕ) (rest : Bytes)
    → arg < 256 ^ n
    → read_arg n 0 (big_endian n arg ++ rest) ≡ some (arg, rest)
unfolding read_arg
read_arg-written n arg rest h =
    ap (λ m. read_arg m 0 (big_endian n arg ++ rest)) (plus_zero n)
    ∙ read_arg-big_endian n 0 arg rest h

module _ (major info : ℕ) (s : Bytes) (i : info < 32) where
  major_of : (major * 32 + info) / 32 ≡ major
  major_of = omega (arith, i)

  low_bits : (major * 32 + info) % 32 ≡ info
  low_bits = omega (arith, i)

  read_head-sized :
      (n : ℕ)
      → ltb info 24 ≡ false
      → (info == 31) ≡ false
      → arg_size info ≡ some n
      → read_head ((major * 32 + info) ∷ s) ≡ head_with major info (read_arg n 0 s)
  unfolding read_head
  read_head-sized n h k e =
      rw major_of (rw low_bits (simp h (simp k (ap (λ o. head_sized major info o s) e))))

  read_head-small :
      info < 24
      → read_head ((major * 32 + info) ∷ s)
        ≡ some (record { major = major; info = info; arg = info; indefinite = false }, s)
  unfolding read_head
  read_head-small h = rw major_of (rw low_bits (ground arith))

-- A head of a major type and an argument of at most 64 bits is read back as written in its
-- shortest form, and the cursor stands behind it.
pub read_head-encode_head :
    (major arg : ℕ) (rest : Bytes)
    → arg < 2 ^ 64
    → read_head (encode_head major arg ++ rest) ≡ some (head major arg, rest)
unfolding info_of argument_of
read_head-encode_head major arg rest h = elim (Bool-cases (ltb arg 24)) [
  | inl e ↦ simp e (read_head-small major arg rest (ground arith) (ground arith))
  | inr e ↦ simp e (elim (Bool-cases (ltb arg 256)) [
    | inl e' ↦ simp e' (with_bytes 24 1 (omega arith) refl refl refl (ground arith))
    | inr f' ↦ simp f' (elim (Bool-cases (ltb arg 65536)) [
      | inl e' ↦ simp e' (with_bytes 25 2 (omega arith) refl refl refl (ground arith))
      | inr g' ↦ simp g' (elim (Bool-cases (ltb arg 4294967296)) [
        | inl e' ↦ simp e' (with_bytes 26 4 (omega arith) refl refl refl (ground arith))
        | inr e' ↦ simp e' (with_bytes 27 8 (omega arith) refl refl refl h)
      ])
    ])
  ])
]
  where
    with_bytes :
        (info n : ℕ)
        → info < 32
        → ltb info 24 ≡ false
        → (info == 31) ≡ false
        → arg_size info ≡ some n
        → arg < 256 ^ n
        → read_head ((major * 32 + info) ∷ (big_endian n arg ++ rest))
          ≡ some (record { major = major; info = info; arg = arg; indefinite = false }, rest)
    with_bytes info n i b k e l =
        read_head-sized major info (big_endian n arg ++ rest) i n b k e
        ∙ ap (head_with major info) (read_arg-written n arg rest l)
