-- ===== src/ArenaAlloc/Reset.antt =====
-- What src/model/arena_alloc.c keeps over a reset.
use mqtt_viewer.Base.{
  occurrences, ◌⊎◌, ℕ, ◌≤◌, ◌≡◌, ◌≢◌, refl, List, [], ◌∷◌, some, none, All, ltb, arith, Bool-cases,
  inl, inr, sym,
}
use mqtt_viewer.ArenaAlloc.{
  ArenaChunk, ArenaAlloc, kept_chunk, freed_chunks, arena_alloc_reset, arena_alloc_used,
}
use mqtt_viewer.ArenaAlloc.Blocks.{IsValid, ChunkIsValid, Elsewhere, IsDistinct, IsHead}

-- The chunk is one of those listed.
abbrev pub IsOneOf : ArenaChunk → List ArenaChunk → Type 0
IsOneOf k [] = ⊥
IsOneOf k (c ∷ cs) = (k ≡ c) ⊎ IsOneOf k cs

abbrev pub addresses : List ArenaChunk → List ℕ
addresses [] = []
addresses (c ∷ cs) = c.address ∷ addresses cs

-- `keep` is one of the chunks seen, the largest, and the others are freed.
record IsKept (k : ArenaChunk) (cs : List ArenaChunk) (keep : ArenaChunk) (freed : List ℕ)
    : Type 0 where
  valid : ChunkIsValid keep
  largest : All (λ (c : ArenaChunk). c.size ≤ keep.size) (k ∷ cs)
  not_freed : All (λ a. a ≢ keep.address) freed
  elsewhere : (a : ℕ) → Elsewhere a (k ∷ cs) → keep.address ≢ a
  member : IsOneOf keep (k ∷ cs)
  all : (a : ℕ) → occurrences a (keep.address ∷ freed) ≡ occurrences a (k.address ∷ addresses cs)

-- One more chunk is freed: the one kept so far, or the one reached.
swapped :
    (a keep k c : ℕ) (freed : List ℕ) (cs : List ArenaChunk)
    → occurrences a (keep ∷ freed) ≡ occurrences a (c ∷ addresses cs)
    → occurrences a (keep ∷ k ∷ freed) ≡ occurrences a (k ∷ c ∷ addresses cs)
swapped a keep k c freed cs h = ground arith

passed :
    (a keep k c : ℕ) (freed : List ℕ) (cs : List ArenaChunk)
    → occurrences a (keep ∷ freed) ≡ occurrences a (k ∷ addresses cs)
    → occurrences a (keep ∷ c ∷ freed) ≡ occurrences a (k ∷ c ∷ addresses cs)
passed a keep k c freed cs h = ground arith

kept_chunk-IsKept :
    (k : ArenaChunk) (cs : List ArenaChunk)
    → All ChunkIsValid (k ∷ cs)
    → IsDistinct (k ∷ cs)
    → (keep : ArenaChunk) × (kept_chunk (some k) cs ≡ some keep)
      × IsKept k cs keep (freed_chunks (some k) cs)
unfolding kept_chunk freed_chunks
kept_chunk-IsKept k [] v d = (
  k,
  refl,
  record {
    valid = v.0;
    largest = (omega arith, tt);
    not_freed = tt;
    elsewhere = λ a h. h.0;
    member = inl refl;
    all = λ a. refl;
  },
)
kept_chunk-IsKept k (c ∷ cs) v d = elim (Bool-cases (ltb k.size c.size)) [
  | inl e ↦
      let (keep, q, w) = kept_chunk-IsKept c cs v.1 d.1 in
      simp e (
        keep,
        q,
        record {
          valid = w.valid;
          largest = (ground (arith, w.largest.0), w.largest);
          not_freed = (λ h. w.elsewhere k.address d.0 (sym h), w.not_freed);
          elsewhere = λ a h. w.elsewhere a h.1;
          member = inr w.member;
          all = λ a. swapped a keep.address k.address c.address _ cs (w.all a);
        },
      )
  | inr e ↦
      let (keep, q, w) = kept_chunk-IsKept k cs (v.0, v.1.1) (d.0.1, d.1.1) in
      simp e (
        keep,
        q,
        record {
          valid = w.valid;
          largest = (w.largest.0, (ground (arith, w.largest.0), w.largest.1));
          not_freed = (λ h. w.elsewhere c.address (λ q. d.0.0 (sym q), d.1.0) (sym h), w.not_freed);
          elsewhere = λ a h. w.elsewhere a (h.0, h.1.1);
          member = elim w.member [ inl same ↦ inl same | inr other ↦ inr (inr other) ];
          all = λ a. passed a keep.address k.address c.address _ cs (w.all a);
        },
      )
]

-- The arena after a reset, and the chunks that it freed.
pub record IsReset (arena after : ArenaAlloc) (keep : ArenaChunk) : Type 0 where
  pub valid : IsValid after
  pub empty : arena_alloc_used after.chunks ≡ 0
  pub one : after.chunks ≡ record keep { cursor = 0 } ∷ []
  pub largest : All (λ (c : ArenaChunk). c.size ≤ keep.size) arena.chunks
  pub not_freed : All (λ a. a ≢ keep.address) (freed_chunks none arena.chunks)
  pub member : IsOneOf keep arena.chunks
  pub all_freed :
      (a : ℕ)
      → occurrences a (keep.address ∷ freed_chunks none arena.chunks)
        ≡ occurrences a (addresses arena.chunks)

-- On a valid arena a reset returns: the one chunk left is one of the arena's and the largest, empty,
-- and the arena is valid; every chunk of the arena is either left or freed, each once, and nothing
-- else is freed.
pub arena_alloc_reset-IsReset :
    (arena : ArenaAlloc)
    → IsValid arena
    → (keep : ArenaChunk) × (after : ArenaAlloc) × (arena_alloc_reset arena ≡ some after)
      × IsReset arena after keep
unfolding arena_alloc_reset kept_chunk freed_chunks arena_alloc_used
arena_alloc_reset-IsReset arena v = by_chunks arena.chunks v.chunks_valid v.distinct v.head
  where
    by_chunks :
        (cs : List ArenaChunk)
        → All ChunkIsValid cs
        → IsDistinct cs
        → IsHead arena.current cs
        → (keep : ArenaChunk) × (after : ArenaAlloc) × (arena_alloc_reset
              (record arena { chunks = cs })
            ≡ some after)
          × IsReset (record arena { chunks = cs }) after keep
    by_chunks [] c d h = absurd h
    by_chunks (k ∷ cs) c d h =
        let (keep, q, w) = kept_chunk-IsKept k cs c d in
        (
          keep,
          record arena { chunks = record keep { cursor = 0 } ∷ []; current = some keep.address },
          rw q refl,
          record {
            valid = record {
              chunks_valid = ((omega arith, omega arith, w.valid.2, w.valid.3), tt);
              distinct = (tt, tt);
              head = refl;
              small = v.small;
            };
            empty = omega arith;
            one = refl;
            largest = w.largest;
            not_freed = w.not_freed;
            member = w.member;
            all_freed = w.all;
          },
        )
