-- ===== src/Util/Preview.antt =====
-- The payload previews against plain functions on the payload's bytes.
use native.Mathlib.Numerals.{add-one}
use mqtt_viewer.Base.{
  ℕ, zero, suc, ◌+◌, ◌-◌, ◌≤◌, ◌<◌, min, Bool, true, false, not, ◌&&◌, [], ◌∷◌, ◌++◌, map,
  append-nil, append_assoc, ◌≡◌, refl, sym, ap, ◌∙◌, arith, length, take, drop, get_or, set,
  length-set, length-take, ltb, ◌==◌, if◌then◌else◌, Bytes, IsCStr, blit, length-blit, cstr,
  cstr_written, take_all,
}
use mqtt_viewer.Util.{printable, util_preview_sanitize, squeeze, util_preview_build_compact}

-- Runs of spaces become one space, a space at the start is dropped; the flag tells whether a byte
-- other than a space stands before.
abbrev pub collapse : Bool → Bytes → Bytes
collapse word [] = []
collapse word (c ∷ cs) =
    if c == b' '
    then (if word then b' ' ∷ collapse false cs else collapse false cs)
    else c ∷ collapse true cs

-- A space at the end is dropped.
abbrev pub trim_end : Bytes → Bytes
trim_end [] = []
trim_end (c ∷ []) = if c == b' ' then [] else c ∷ []
trim_end (c ∷ d ∷ cs) = c ∷ trim_end (d ∷ cs)

-- A byte as the preview shows it: a space for the bytes below 32 and for DEL.
abbrev pub shown_byte : ℕ → ℕ
shown_byte c = if ltb 31 c then (if c == 127 then 32 else c) else 32

-- The one-line preview of a payload in an array of `cap` bytes.
abbrev pub preview : ℕ → Bytes → Bytes
preview cap src =
    trim_end (collapse false (map shown_byte (take (cap - 4) src)))
    ++ (if ltb (cap - 4) (length src) then b'.' ∷ b'.' ∷ b'.' ∷ [] else [])

map-printable : (s : Bytes) → map printable s ≡ map shown_byte s
unfolding printable
map-printable [] = refl
map-printable (c ∷ s) = ground (arith, map-printable s)

length-map-printable : (s : Bytes) → length (map printable s) ≡ length s
length-map-printable [] = refl
length-map-printable (x ∷ xs) = ap suc (length-map-printable xs)

map-printable-IsCStr : (s : Bytes) → IsCStr (map printable s)
unfolding printable
map-printable-IsCStr [] = tt
map-printable-IsCStr (x ∷ xs) = (ground arith, map-printable-IsCStr xs)

collapse-IsCStr : (w : Bool) (s : Bytes) → IsCStr s → IsCStr (collapse w s)
collapse-IsCStr w [] c = tt
collapse-IsCStr w (x ∷ xs) c =
    ground (arith, collapse-IsCStr false xs c.1, collapse-IsCStr true xs c.1)

trim_end-IsCStr : (s : Bytes) → IsCStr s → IsCStr (trim_end s)
trim_end-IsCStr [] c = tt
trim_end-IsCStr (x ∷ []) c = ground arith
trim_end-IsCStr (x ∷ y ∷ s) c = (c.0, trim_end-IsCStr (y ∷ s) c.1)

-- Reads and writes at an index of an array.
take-set_last : (b : Bytes) (d c : ℕ) → d < length b → take (suc d) (set b d c) ≡ take d b ++ c ∷ []
take-set_last [] d c h = absurd (omega arith)
take-set_last (x ∷ b) zero c h = refl
take-set_last (x ∷ b) (suc d) c h = ap (◌∷◌ x) (take-set_last b d c (omega arith))

drop-set : (b : Bytes) (d k c : ℕ) → d < k → drop k (set b d c) ≡ drop k b
drop-set b d zero c h = absurd (omega arith)
drop-set [] d (suc k) c h = refl
drop-set (x ∷ b) zero (suc k) c h = refl
drop-set (x ∷ b) (suc d) (suc k) c h = drop-set b d k c (omega arith)

take-drop_next :
    (b : Bytes) (s n : ℕ)
    → s < length b
    → take (suc n) (drop s b) ≡ get_or b s 0 ∷ take n (drop (suc s) b)
take-drop_next [] s n h = absurd (omega arith)
take-drop_next (x ∷ b) zero n h = refl
take-drop_next (x ∷ b) (suc s) n h = take-drop_next b s n (omega arith)

get_or-set_here : (b : Bytes) (d c : ℕ) → d < length b → get_or (set b d c) d 0 ≡ c
get_or-set_here [] d c h = absurd (omega arith)
get_or-set_here (x ∷ b) zero c h = refl
get_or-set_here (x ∷ b) (suc d) c h = get_or-set_here b d c (omega arith)

-- What the loop leaves in front of index `d`: what stood there, and the collapsed rest.
abbrev in_word : Bytes → ℕ → Bool
in_word b d = ltb 0 d && not (get_or b (d - 1) 0 == b' ')

record Squeezed (left s d : ℕ) (b : Bytes) (out : Bytes × ℕ) : Type 0 where
  text : take out.1 out.0 ≡ take d b ++ collapse (in_word b d) (take left (drop s b))
  bound : out.1 ≤ d + left
  size : length out.0 ≡ length b

squeeze-Squeezed :
    (left s d : ℕ) (b : Bytes)
    → d ≤ s
    → s + left ≤ length b
    → Squeezed left s d b (squeeze left s d b)
unfolding squeeze
squeeze-Squeezed zero s d b h k = record {
  text = sym (append-nil (take d b));
  bound = omega arith;
  size = refl;
}
squeeze-Squeezed (suc left) s d b h k =
    let c = get_or b s 0 in
    ground (
      arith,
      add-one d,
      add-one s,
      squeeze-Squeezed left (s + 1) d b,
      squeeze-Squeezed left (s + 1) (d + 1) (set b d c),
      take-set_last b d c (omega arith),
      drop-set b d (suc s) c (omega arith),
      take-drop_next b s left (omega arith),
      get_or-set_here b d c (omega arith),
      length-set b d c,
      append_assoc (take d b) (c ∷ []) (collapse false (take left (drop (suc s) b))),
      append_assoc (take d b) (c ∷ []) (collapse true (take left (drop (suc s) b))),
    )

-- Dropping a last space is stepping back by one.
trim_end-take :
    (b : Bytes) (d : ℕ)
    → d ≤ length b
    → trim_end (take d b) ≡ take (if ltb 0 d && get_or b (d - 1) 0 == b' ' then d - 1 else d) b
trim_end-take b zero h = refl
trim_end-take [] (suc d) h = absurd (omega arith)
trim_end-take (x ∷ b) (suc zero) h = ground arith
trim_end-take (x ∷ []) (suc (suc d)) h = absurd (omega arith)
trim_end-take (x ∷ y ∷ b) (suc (suc d)) h =
    ground (arith, trim_end-take (y ∷ b) (suc d) (omega arith))

-- A string with its terminator, written behind `d` bytes that are no NUL.
cstr-blit :
    (b : Bytes) (d : ℕ) (s : Bytes)
    → d + length s < length b
    → IsCStr (take d b)
    → IsCStr s
    → cstr (blit b d (s ++ 0 ∷ [])) ≡ take d b ++ s
cstr-blit [] d s h p q = absurd (omega arith)
cstr-blit (x ∷ b) zero [] h p q = refl
cstr-blit (x ∷ []) zero (c ∷ s) h p q = absurd (omega arith)
cstr-blit (x ∷ y ∷ b) zero (c ∷ s) h p q =
    ground (arith, cstr-blit (y ∷ b) zero s (omega arith) tt q.1)
cstr-blit (x ∷ b) (suc d) s h p q = ground (arith, cstr-blit b d s (omega arith) p.1 q)

cstr-set : (b : Bytes) (d : ℕ) → d < length b → IsCStr (take d b) → cstr (set b d 0) ≡ take d b
cstr-set [] d h p = absurd (omega arith)
cstr-set (x ∷ b) zero h p = refl
cstr-set (x ∷ b) (suc d) h p = ground (arith, cstr-set b d (omega arith) p.1)

take-written :
    (s b : Bytes) → length s < length b → take (length s) (set (blit b 0 s) (length s) 0) ≡ s
take-written [] b h = refl
take-written (x ∷ s) [] h = absurd (omega arith)
take-written (x ∷ s) (y ∷ b) h = ap (◌∷◌ x) (take-written s b (omega arith))

-- The text that `util_preview_sanitize` writes.
abbrev pub sanitized : ℕ → Bytes → Bytes
sanitized cap src = map printable (take (cap - 1) src)

length-sanitized : (cap : ℕ) (src : Bytes) → length (sanitized cap src) ≡ min (length src) (cap - 1)
length-sanitized cap src =
    omega (arith, length-map-printable (take (cap - 1) src), length-take (cap - 1) src)

sanitize-written :
    (dst : Bytes) (cap : ℕ) (src : Bytes)
    → 0 < cap
    → util_preview_sanitize dst cap src ≡ (
      set (blit dst 0 (sanitized cap src)) (length (sanitized cap src)) 0,
      length (sanitized cap src),
    )
unfolding util_preview_sanitize
sanitize-written dst cap src h =
    ground (arith, length-sanitized cap src, take_all (length src) src, take_all (cap - 1) src)

-- `util_preview_sanitize` copies as many bytes as fit, each control byte as a space, terminates
-- them, returns their number, and keeps the array's size.
pub util_preview_sanitize_lem :
    (dst : Bytes) (cap : ℕ) (src : Bytes)
    → 0 < cap
    → cap ≤ length dst
    → let (out, n) = util_preview_sanitize dst cap src in
      (cstr out ≡ map shown_byte (take (cap - 1) src))
      × (n ≡ min (length src) (cap - 1))
      × (length out ≡ length dst)
util_preview_sanitize_lem dst cap src h len =
    let s = sanitized cap src in
    rw (sanitize-written dst cap src h) (
      cstr_written s dst (map-printable-IsCStr (take (cap - 1) src))
            (omega (arith, length-sanitized cap src))
          ∙ map-printable (take (cap - 1) src),
      length-sanitized cap src,
      length-set (blit dst 0 s) (length s) 0 ∙ length-blit dst 0 s,
    )

-- The array and the end of the text after the loop.
module _ (dst : Bytes) (cap : ℕ) (src : Bytes) (h : 5 ≤ cap) (len : cap ≤ length dst) where
  abbrev clean_text : Bytes
  clean_text = map printable (take (cap - 4) src)

  abbrev clean : Bytes
  clean = set (blit dst 0 clean_text) (length clean_text) 0

  length-clean : (length clean ≡ length dst) × (length clean_text ≤ cap - 4)
  length-clean = (
    length-set (blit dst 0 clean_text) (length clean_text) 0 ∙ length-blit dst 0 clean_text,
    omega (arith, length-map-printable (take (cap - 4) src), length-take (cap - 4) src),
  )

  packed : Squeezed (length clean_text) 0 0 clean (squeeze (length clean_text) 0 0 clean)
  packed =
      squeeze-Squeezed (length clean_text) 0 0 clean (omega arith) (omega (arith, length-clean))

  packed_text :
      take (squeeze (length clean_text) 0 0 clean).1 (squeeze (length clean_text) 0 0 clean).0
      ≡ collapse false clean_text
  packed_text =
      packed.text ∙ ap (collapse false) (take-written clean_text dst (omega (arith, length-clean)))

  -- The text in front of the end that the function settles on.
  abbrev end_of : Bytes × ℕ → ℕ
  end_of out = if ltb 0 out.1 && get_or out.0 (out.1 - 1) 0 == b' ' then out.1 - 1 else out.1

  end_text :
      let out = squeeze (length clean_text) 0 0 clean in
      (take (end_of out) out.0 ≡ trim_end (collapse false clean_text))
      × (end_of out ≤ cap - 4)
      × (length out.0 ≡ length dst)
  end_text =
      let out = squeeze (length clean_text) 0 0 clean in
      (
        sym (trim_end-take out.0 out.1 (omega (arith, packed, length-clean)))
            ∙ ap trim_end packed_text,
        ground (arith, packed, length-clean),
        packed.size ∙ length-clean.0,
      )

  take_twice :
      take (cap - 4) (if ltb (cap - 4) (length src) then take (cap - 4) src else src)
      ≡ take (cap - 4) src
  take_twice = ground (arith, take_all (cap - 4) (take (cap - 4) src), length-take (cap - 4) src)

  clean_call :
      util_preview_sanitize dst
        (cap - 4 + 1)
        (if ltb (cap - 4) (length src) then take (cap - 4) src else src)
      ≡ (clean, length clean_text)
  clean_call =
      sanitize-written dst (cap - 4 + 1)
        (if ltb (cap - 4) (length src) then take (cap - 4) src else src) (omega arith)
      ∙ ap (λ t. (set (blit dst 0 t) (length t) 0, length t))
          (ap
              (λ k.
                map printable
                  (take k (if ltb (cap - 4) (length src) then take (cap - 4) src else src)))
              (omega arith)
            ∙ ap (map printable) take_twice)

  end-IsCStr : let out = squeeze (length clean_text) 0 0 clean in IsCStr (take (end_of out) out.0)
  end-IsCStr = rw (end_text.0) (
      trim_end-IsCStr (collapse false clean_text)
        (collapse-IsCStr false clean_text (map-printable-IsCStr (take (cap - 4) src))))

  -- `util_preview_build_compact` leaves the payload's bytes with control bytes as spaces, runs of
  -- spaces collapsed to one and spaces at both ends dropped, and "..." behind them exactly if the
  -- payload did not fit. The array keeps its size.
  pub util_preview_build_compact_lem :
      (cstr (util_preview_build_compact dst cap src) ≡ preview cap src)
      × (length (util_preview_build_compact dst cap src) ≡ length dst)
  unfolding util_preview_build_compact
  util_preview_build_compact_lem =
      let out = squeeze (length clean_text) 0 0 clean in
      rw (clean_call, sym (map-printable (take (cap - 4) src)))
        (ground (
          arith,
          end_text,
          append-nil (take (end_of out) out.0),
          cstr-blit out.0 (end_of out) (b'.' ∷ b'.' ∷ b'.' ∷ []) (omega (arith, end_text))
              end-IsCStr (omega arith),
          cstr-set out.0 (end_of out) (omega (arith, end_text)) end-IsCStr,
          length-blit out.0 (end_of out) (b'.' ∷ b'.' ∷ b'.' ∷ 0 ∷ []),
          length-set out.0 (end_of out) 0,
        ))
