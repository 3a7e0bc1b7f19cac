-- ===== src/ArenaAlloc/Blocks.antt =====
-- The blocks that src/model/arena_alloc.c hands out between two resets.
use mqtt_viewer.Base.{
  ℕ, ◌+◌, ◌%◌, ◌^◌, ◌≤◌, ◌<◌, ◌≡◌, ◌≢◌, ◌⊎◌, inl, inr, refl, ap, sym, ◌∙◌, false, List, [], ◌∷◌,
  Option, some, All, length, length-blit, ltb, if◌then◌else◌, arith, Bool-cases, ==_iff, blit,
  replicate,
}
use mathlib.Core.Path.{subst⁻¹}
use mqtt_viewer.ArenaAlloc.{
  ArenaChunk, ArenaAlloc, ArenaBlock, Malloc, align_up, chunk_new, find_chunk, bump, take_from,
  take_or_grow, add_chunk, arena_alloc_get, arena_alloc_init, arena_alloc_used,
}

-- A chunk's cursor stays in it and stays aligned.
abbrev pub ChunkIsValid : ArenaChunk → Type 0
ChunkIsValid c =
    (c.cursor ≤ c.size) × (c.cursor % 8 ≡ 0) × (length c.memory ≡ c.size) × (c.size < 2 ^ 63)

abbrev pub Elsewhere : ℕ → List ArenaChunk → Type 0
Elsewhere a cs = All (λ (c : ArenaChunk). c.address ≢ a) cs

abbrev pub IsDistinct : List ArenaChunk → Type 0
IsDistinct [] = Unit
IsDistinct (c ∷ cs) = Elsewhere c.address cs × IsDistinct cs

abbrev pub IsHead : Option ℕ → List ArenaChunk → Type 0
IsHead current [] = ⊥
IsHead current (c ∷ cs) = current ≡ some c.address

pub record IsValid (arena : ArenaAlloc) : Type 0 where
  pub chunks_valid : All ChunkIsValid arena.chunks
  pub distinct : IsDistinct arena.chunks
  pub head : IsHead arena.current arena.chunks
  pub small : arena.chunk_size < 2 ^ 63

-- The block stands below its chunk's cursor.
abbrev InChunk : ArenaBlock → ArenaChunk → Type 0
InChunk b c = (b.chunk ≡ c.address) × (b.offset + b.size ≤ c.cursor)

abbrev pub IsTaken : ArenaBlock → List ArenaChunk → Type 0
IsTaken b [] = ⊥
IsTaken b (c ∷ cs) = InChunk b c ⊎ IsTaken b cs

abbrev pub IsDisjoint : ArenaBlock → ArenaBlock → Type 0
IsDisjoint b d =
    (b.chunk ≢ d.chunk) ⊎ ((b.offset + b.size ≤ d.offset) ⊎ (d.offset + d.size ≤ b.offset))

-- What `malloc` promises: a new address, and as many bytes as asked for.
pub record IsMalloc (m : Malloc) (arena : ArenaAlloc) : Type 0 where
  pub fresh : Elsewhere m.address arena.chunks
  pub bytes : (n : ℕ) → length (m.memory n) ≡ n

-- The bytes in use, without the wrap of `size_t`.
abbrev pub total_used : List ArenaChunk → ℕ
total_used [] = 0
total_used (c ∷ cs) = c.cursor + total_used cs

arena_alloc_used-total_used : (cs : List ArenaChunk) → arena_alloc_used cs ≡ total_used cs % 2 ^ 64
unfolding arena_alloc_used
arena_alloc_used-total_used [] = omega arith
arena_alloc_used-total_used (c ∷ cs) = omega (arith, arena_alloc_used-total_used cs)

-- One call's result against the arena before it.
pub record IsGranted (arena : ArenaAlloc) (size : ℕ) (r : ArenaAlloc × ArenaBlock) : Type 0 where
  pub valid : IsValid r.0
  pub taken : IsTaken r.1 r.0.chunks
  pub kept : (b : ArenaBlock) → IsTaken b arena.chunks → IsTaken b r.0.chunks
  pub apart : (b : ArenaBlock) → IsTaken b arena.chunks → IsDisjoint b r.1
  pub aligned : r.1.offset % 8 ≡ 0
  pub asked : r.1.size ≡ size
  pub used : total_used arena.chunks + size ≤ total_used r.0.chunks
  pub counted : arena_alloc_used r.0.chunks ≡ total_used r.0.chunks % 2 ^ 64

align_up_lem : (n : ℕ) → n < 2 ^ 63 → (n ≤ align_up n) × (align_up n % 8 ≡ 0) × (align_up n ≤ n + 7)
unfolding align_up
align_up_lem n h = omega arith

IsTaken-Elsewhere :
    (b : ArenaBlock) (a : ℕ) (cs : List ArenaChunk) → Elsewhere a cs → IsTaken b cs → b.chunk ≢ a
IsTaken-Elsewhere b a [] e t = absurd t
IsTaken-Elsewhere b a (c ∷ cs) e (inl t) = λ d. e.0 (sym t.0 ∙ d)
IsTaken-Elsewhere b a (c ∷ cs) e (inr t) = IsTaken-Elsewhere b a cs e.1 t

abbrev at_front : ℕ → ArenaChunk → List ArenaChunk → ArenaAlloc
at_front k c cs = record { chunk_size = k; current = some c.address; chunks = c ∷ cs }

-- `bump` of the chunk at the front.
abbrev bumped : ArenaChunk → ℕ → ℕ → ArenaChunk
bumped c size aligned_size = record c {
  memory = blit c.memory c.cursor (replicate size 0);
  cursor = c.cursor + aligned_size;
}

bump-front :
    (c : ArenaChunk) (cs : List ArenaChunk) (size aligned_size : ℕ)
    → c.cursor + aligned_size < 2 ^ 64
    → bump c.address size aligned_size (c ∷ cs) ≡ bumped c size aligned_size ∷ cs
unfolding bump
bump-front c cs size aligned_size h =
    let e : (c.cursor + aligned_size) % 2 ^ 64 ≡ c.cursor + aligned_size = omega arith in
    rw ((==_iff c.address c.address).1 refl, e) refl

-- Taking from the chunk at the front, where it has room.
take_from-IsGranted :
    (k : ℕ) (c : ArenaChunk) (cs : List ArenaChunk) (size aligned_size : ℕ)
    → IsValid (at_front k c cs)
    → size ≤ aligned_size
    → aligned_size % 8 ≡ 0
    → c.cursor + aligned_size ≤ c.size
    → IsGranted (at_front k c cs) size (take_from (at_front k c cs) c size aligned_size)
unfolding take_from
take_from-IsGranted k c cs size aligned_size v h a room =
    rw (bump-front c cs size aligned_size (omega (arith, v.chunks_valid.0.3))) (record {
      valid = record {
        chunks_valid = (
          (
            room,
            omega (arith, v.chunks_valid.0.1),
            length-blit c.memory c.cursor (replicate size 0) ∙ v.chunks_valid.0.2,
            v.chunks_valid.0.3,
          ),
          v.chunks_valid.1,
        );
        distinct = v.distinct;
        head = refl;
        small = v.small;
      };
      taken = inl (refl, omega arith);
      kept = λ b t. elim t [ inl q ↦ inl (q.0, omega (arith, q.1)) | inr q ↦ inr q ];
      apart = λ b t. elim t [
        | inl q ↦ inr (inl q.1)
        | inr q ↦ inl (IsTaken-Elsewhere b c.address cs v.distinct.0 q)
      ];
      aligned = v.chunks_valid.0.1;
      asked = refl;
      used = omega arith;
      counted = arena_alloc_used-total_used _;
    })

chunk_new-cursor : (m : Malloc) (n : ℕ) → (chunk_new m n).cursor ≡ 0
unfolding chunk_new
chunk_new-cursor m n = refl

chunk_new-room : (m : Malloc) (n a : ℕ) → a ≤ n → (chunk_new m n).cursor + a ≤ (chunk_new m n).size
unfolding chunk_new
chunk_new-room m n a h = omega arith

-- The test of the room left does not wrap.
fits :
    (cursor size a : ℕ)
    → cursor ≤ size
    → size < 2 ^ 63
    → a < 2 ^ 63
    → ltb size ((cursor + a) % 2 ^ 64) ≡ false
    → cursor + a ≤ size
fits cursor size a c s h e =
    let d : (cursor + a) % 2 ^ 64 ≡ cursor + a = omega arith in
    let g : ltb size (cursor + a) ≡ false = rw (sym d) e in ground arith

-- A fresh chunk of any size that has room at all.
add_chunk-IsValid :
    (m : Malloc) (arena : ArenaAlloc) (n : ℕ)
    → n < 2 ^ 63
    → IsMalloc m arena
    → IsValid arena
    → IsValid (at_front arena.chunk_size (chunk_new m n) arena.chunks)
unfolding chunk_new
add_chunk-IsValid m arena n h f v = record {
  chunks_valid = ((omega arith, omega arith, f.bytes n, h), v.chunks_valid);
  distinct = (f.fresh, v.distinct);
  head = refl;
  small = v.small;
}

-- Blocks of the old arena stand behind a fresh chunk too.
IsGranted-behind :
    (arena : ArenaAlloc) (k : ℕ) (c : ArenaChunk) (size : ℕ) (r : ArenaAlloc × ArenaBlock)
    → c.cursor ≡ 0
    → IsGranted (at_front k c arena.chunks) size r
    → IsGranted arena size r
IsGranted-behind arena k c size r z g = record {
  valid = g.valid;
  taken = g.taken;
  kept = λ b t. g.kept b (inr t);
  apart = λ b t. g.apart b (inr t);
  aligned = g.aligned;
  asked = g.asked;
  used = omega (arith, g.used);
  counted = g.counted;
}

arena-front :
    (arena : ArenaAlloc)
    → IsHead arena.current arena.chunks
    → (c : ArenaChunk) × (cs : List ArenaChunk) × (arena ≡ at_front arena.chunk_size c cs)
arena-front arena h = by_chunks arena.current arena.chunks h
  where
    by_chunks :
        (current : Option ℕ) (chunks : List ArenaChunk)
        → IsHead current chunks
        → (c : ArenaChunk) × (cs : List ArenaChunk) × (record {
          chunk_size = arena.chunk_size;
          current = current;
          chunks = chunks;
        }
            ≡ at_front arena.chunk_size c cs)
    by_chunks current [] e = absurd e
    by_chunks current (c ∷ cs) e =
        (c, cs, ap (λ a. record { chunk_size = arena.chunk_size; current = a; chunks = c ∷ cs }) e)

find_chunk-front :
    (c : ArenaChunk) (cs : List ArenaChunk) → find_chunk (some c.address) (c ∷ cs) ≡ some c
unfolding find_chunk
find_chunk-front c cs = rw ((==_iff c.address c.address).1 refl) refl

take_or_grow-IsGranted :
    (m : Malloc) (k : ℕ) (c : ArenaChunk) (cs : List ArenaChunk) (size : ℕ)
    → size < 2 ^ 62
    → IsMalloc m (at_front k c cs)
    → IsValid (at_front k c cs)
    → IsGranted (at_front k c cs) size (take_or_grow m (at_front k c cs) size c)
unfolding take_or_grow add_chunk
take_or_grow-IsGranted m k c cs size h f v =
    let a = align_up size in
    let l = align_up_lem size (omega arith) in
    let n = if ltb k a then a else k in
    let small : n < 2 ^ 63 = ground (arith, v.small, l.2) in
    let room : a ≤ n = ground arith in
    let fresh = chunk_new m n in
    let valid = add_chunk-IsValid m (at_front k c cs) n small f v in
    elim (Bool-cases (ltb c.size ((c.cursor + a) % 2 ^ 64))) [
      | inl e ↦ simp e (
          IsGranted-behind (at_front k c cs) k fresh size _ (chunk_new-cursor m n)
            (take_from-IsGranted k fresh (c ∷ cs) size a valid l.0 l.1 (chunk_new-room m n a room)))
      | inr e ↦ simp e (
          take_from-IsGranted k c cs size a v l.0 l.1
            (fits c.cursor c.size a v.chunks_valid.0.0 v.chunks_valid.0.3 (omega (arith, l.2)) e))
    ]

arena_alloc_get-front :
    (m : Malloc) (k : ℕ) (c : ArenaChunk) (cs : List ArenaChunk) (size : ℕ)
    → size < 2 ^ 62
    → IsMalloc m (at_front k c cs)
    → IsValid (at_front k c cs)
    → (r : ArenaAlloc × ArenaBlock) × (arena_alloc_get m (at_front k c cs) size ≡ some r)
      × IsGranted (at_front k c cs) size r
unfolding arena_alloc_get
arena_alloc_get-front m k c cs size h f v = (
  take_or_grow m (at_front k c cs) size c,
  rw (find_chunk-front c cs) refl,
  take_or_grow-IsGranted m k c cs size h f v,
)

-- On a valid arena, where `malloc` answers a new address and as many bytes as asked for, a call for
-- less than 2 ^ 62 bytes returns: the arena stays valid, the block stands inside its chunk at an aligned
-- offset, it overlaps no block handed out before, all of those stay where they are, the bytes in use
-- grow by the size at least, and `arena_alloc_used` is their number, cut to 64 bits.
pub arena_alloc_get-IsGranted :
    (m : Malloc) (arena : ArenaAlloc) (size : ℕ)
    → size < 2 ^ 62
    → IsMalloc m arena
    → IsValid arena
    → (r : ArenaAlloc × ArenaBlock) × (arena_alloc_get m arena size ≡ some r)
      × IsGranted arena size r
arena_alloc_get-IsGranted m arena size h f v =
    let (c, cs, e) = arena-front arena v.head in
    let k = arena.chunk_size in
    subst⁻¹
      (λ x.
        IsMalloc m x
        → IsValid x
        → (r : ArenaAlloc × ArenaBlock) × (arena_alloc_get m x size ≡ some r) × IsGranted x size r)
      e (λ f v. arena_alloc_get-front m k c cs size h f v) f v

pub arena_alloc_init-IsValid :
    (m : Malloc) (chunk_size : ℕ)
    → chunk_size < 2 ^ 63
    → ((n : ℕ) → length (m.memory n) ≡ n)
    → IsValid (arena_alloc_init m chunk_size)
unfolding arena_alloc_init chunk_new
arena_alloc_init-IsValid m chunk_size h f = record {
  chunks_valid = ((omega arith, omega arith, f chunk_size, h), tt);
  distinct = (tt, tt);
  head = refl;
  small = h;
}
