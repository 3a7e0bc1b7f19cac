-- ===== src/CsvExport/Field.antt =====
-- Writing a field, and reading one back as RFC 4180 says.
use mqtt_viewer.Base.{
  ℕ, zero, suc, ◌-◌, false, ◌||◌, [], ◌∷◌, ◌++◌, append-nil, append_assoc, map, Option, none, some,
  ◌≡◌, ◌⊎◌, ◌≢◌, refl, sym, ap, ◌∙◌, arith, length, length-append, leb, ◌==◌, ==_iff, if◌then◌else◌,
  Bytes, Bool-cases, inl, inr,
}
use mqtt_viewer.CsvExport.{
  OutFile, ◌>>=◌, fputc, fputs, any_special, no_nul, write_bytes, write_field,
}

-- A text written whole, or not at all.
abbrev pub emit : Bytes → OutFile → Option OutFile
emit s o =
    if leb (length s) o.room
    then some (record { written = o.written ++ s; room = o.room - length s })
    else none

pub fputc-emit : (c : ℕ) (o : OutFile) → fputc c o ≡ emit (c ∷ []) o
unfolding fputc
fputc-emit c o = ground arith

pub emit-nil : (o : OutFile) → some o ≡ emit [] o
emit-nil o = ground (arith, append-nil o.written)

-- Two texts in a row are written as one.
pub emit-append : (s t : Bytes) (o : OutFile) → (emit s o >>= emit t) ≡ emit (s ++ t) o
emit-append s t o = ground (arith, length-append s t, append_assoc o.written s t)

-- The same with the second writer given by what it does.
pub emit-then :
    (s t : Bytes) (o : OutFile) (f : OutFile → Option OutFile)
    → ((q : OutFile) → f q ≡ emit t q)
    → (emit s o >>= f) ≡ emit (s ++ t) o
emit-then s t o f h = bound (emit s o) ∙ emit-append s t o
  where
    bound : (m : Option OutFile) → (m >>= f) ≡ (m >>= emit t)
    bound none = refl
    bound (some q) = h q

pub chain :
    {m : Option OutFile} (o : OutFile) (s t : Bytes) (f : OutFile → Option OutFile)
    → m ≡ emit s o
    → ((q : OutFile) → f q ≡ emit t q)
    → (m >>= f) ≡ emit (s ++ t) o
chain {m} o s t f e h = ap (λ n. n >>= f) e ∙ emit-then s t o f h

pub fputs-emit : (s : Bytes) (o : OutFile) → fputs s o ≡ emit s o
unfolding fputs
fputs-emit [] o = emit-nil o
fputs-emit (c ∷ s) o =
    ap (λ m. m >>= fputs s) (fputc-emit c o) ∙ emit-then (c ∷ []) s o (fputs s) (fputs-emit s)

pub fputc-then :
    (c : ℕ) (t : Bytes) (o : OutFile) (f : OutFile → Option OutFile)
    → ((q : OutFile) → f q ≡ emit t q)
    → (fputc c o >>= f) ≡ emit (c ∷ t) o
fputc-then c t o f h = ap (λ m. m >>= f) (fputc-emit c o) ∙ emit-then (c ∷ []) t o f h

-- The bytes of a field, with each quote doubled.
abbrev pub doubled : Bytes → Bytes
doubled [] = []
doubled (c ∷ s) = if no_nul c == b'"' then b'"' ∷ b'"' ∷ doubled s else no_nul c ∷ doubled s

abbrev pub field_text : Bytes → Bytes
field_text s = if any_special s then b'"' ∷ (doubled s ++ b'"' ∷ []) else doubled s

write_bytes-emit : (s : Bytes) (o : OutFile) → write_bytes s o ≡ emit (doubled s) o
unfolding write_bytes
write_bytes-emit [] o = emit-nil o
write_bytes-emit (c ∷ s) o = elim (Bool-cases (no_nul c == b'"')) [
  | inl e ↦ rw e (
      fputc-then b'"' (b'"' ∷ doubled s) o _ (λ q.
        fputc-then (no_nul c) (doubled s) q _ (write_bytes-emit s)
        ∙ ap (λ k. emit (k ∷ doubled s) q) ((==_iff (no_nul c) b'"').0 e)))
  | inr e ↦ rw e (fputc-then (no_nul c) (doubled s) o _ (write_bytes-emit s))
]

-- `write_field` writes the field's text, or fails.
pub write_field-emit : (s : Bytes) (o : OutFile) → write_field s o ≡ emit (field_text s) o
unfolding write_field
write_field-emit s o = elim (Bool-cases (any_special s)) [
  | inl e ↦ rw e (
      fputc-then b'"' (doubled s ++ b'"' ∷ []) o _ (λ q.
        ap (λ m. m >>= fputc b'"') (write_bytes-emit s q)
        ∙ emit-then (doubled s) (b'"' ∷ []) q (fputc b'"') (fputc-emit b'"')))
  | inr e ↦ rw e (
      ap (λ m. m >>= some) (write_bytes-emit s o)
      ∙ emit-then (doubled s) [] o some emit-nil
      ∙ ap (λ t. emit t o) (append-nil (doubled s)))
]

abbrev prepend : ℕ → Option (Bytes × Bytes) → Option (Bytes × Bytes)
prepend c none = none
prepend c (some (f, rest)) = some (c ∷ f, rest)

-- Reading inside quotes: the quote that is not doubled ends the field.
abbrev read_quoted : Bytes → Option (Bytes × Bytes)
read_quoted [] = none
read_quoted (c ∷ []) = if c == b'"' then some ([], []) else none
read_quoted (c ∷ d ∷ s) =
    let one = read_quoted (d ∷ s) in
    let two = read_quoted s in
    if c == b'"' then (if d == b'"' then prepend b'"' two else some ([], d ∷ s)) else prepend c one

-- Reading up to a separator.
abbrev read_plain : Bytes → Bytes × Bytes
read_plain [] = ([], [])
read_plain (c ∷ s) =
    let more = read_plain s in
    if c == b',' || c == b'\r' || c == b'\n' then ([], c ∷ s) else (c ∷ more.0, more.1)

-- A field of RFC 4180, and what stands behind it.
abbrev pub read_field : Bytes → Option (Bytes × Bytes)
read_field [] = some ([], [])
read_field (c ∷ s) = if c == b'"' then read_quoted s else some (read_plain (c ∷ s))

-- What may stand behind a field.
abbrev pub Separates : Bytes → Type 0
Separates [] = Unit {0}
Separates (c ∷ s) = (c ≡ b',') ⊎ (c ≡ b'\r')

read_quoted_plain :
    (c : ℕ) (t : Bytes)
    → (c == b'"') ≡ false
    → t ≢ []
    → read_quoted (c ∷ t) ≡ prepend c (read_quoted t)
read_quoted_plain c [] e ne = absurd (ne refl)
read_quoted_plain c (d ∷ t) e ne = rw e

read_quoted-doubled :
    (s rest : Bytes)
    → Separates rest
    → read_quoted (doubled s ++ (b'"' ∷ rest)) ≡ some (map no_nul s, rest)
read_quoted-doubled [] [] p = refl
read_quoted-doubled [] (c ∷ rest) p = ground arith
read_quoted-doubled (c ∷ s) rest p = elim (Bool-cases (no_nul c == b'"')) [
  | inl e ↦ rw e (
      ap (prepend b'"') (read_quoted-doubled s rest p)
      ∙ ap (λ k. some (k ∷ map no_nul s, rest)) (sym ((==_iff (no_nul c) b'"').0 e)))
  | inr e ↦ rw e (
      read_quoted_plain (no_nul c) (doubled s ++ (b'"' ∷ rest)) e (not_nil (doubled s))
      ∙ ap (prepend (no_nul c)) (read_quoted-doubled s rest p))
]
  where
    not_nil : (t : Bytes) → t ++ (b'"' ∷ rest) ≢ []
    not_nil [] q = cc
    not_nil (x ∷ t) q = cc

read_plain-doubled :
    (s rest : Bytes)
    → any_special s ≡ false
    → Separates rest
    → read_plain (doubled s ++ rest) ≡ (map no_nul s, rest)
unfolding any_special
read_plain-doubled [] [] e p = refl
read_plain-doubled [] (c ∷ rest) e p = ground arith
read_plain-doubled (c ∷ s) rest e p = ground (arith, read_plain-doubled s rest)

-- A field that is not quoted does not start with a quote.
read_field_plain :
    (s rest : Bytes)
    → any_special s ≡ false
    → Separates rest
    → read_field (doubled s ++ rest) ≡ some (read_plain (doubled s ++ rest))
unfolding any_special
read_field_plain [] [] e p = refl
read_field_plain [] (c ∷ rest) e p = ground arith
read_field_plain (c ∷ s) rest e p = ground arith

-- A byte as the reader gets it: a space where the field has NUL.
abbrev pub space_for_nul : ℕ → ℕ
space_for_nul zero = 32
space_for_nul (suc c) = suc c

map-no_nul : (s : Bytes) → map no_nul s ≡ map space_for_nul s
map-no_nul [] = refl
map-no_nul (zero ∷ s) = ap (◌∷◌ 32) (map-no_nul s)
map-no_nul (suc c ∷ s) = ground (arith, map-no_nul s)

-- `write_field` writes `field_text s` or, where it does not fit, fails; a reader of RFC 4180 gets from
-- that text the bytes of the field, with NUL as a space, whatever they are, and stops at what
-- separates the field from the next one.
pub write_field_reads :
    (s rest : Bytes) (o : OutFile)
    → Separates rest
    → (write_field s o ≡ emit (field_text s) o)
      × (read_field (field_text s ++ rest) ≡ some (map space_for_nul s, rest))
write_field_reads s rest o p = (
  write_field-emit s o,
  elim (Bool-cases (any_special s)) [
    | inl e ↦
        rw e (
          ap read_quoted (append_assoc (doubled s) (b'"' ∷ []) rest) ∙ read_quoted-doubled s rest p)
    | inr e ↦ rw e (read_field_plain s rest e p ∙ ap some (read_plain-doubled s rest e p))
  ]
      ∙ ap (λ t. some (t, rest)) (map-no_nul s),
)
