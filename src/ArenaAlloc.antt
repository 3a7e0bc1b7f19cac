-- ===== src/ArenaAlloc.antt =====
-- src/model/arena_alloc.c: the bump allocator of the row texts. A chunk is known by its address; the
-- answers of `malloc` are parameters, and `size_t` has 64 bits. `alloc_check` ends the program where
-- `malloc` fails, so that no call returns from there.
pub mod Blocks
pub mod Reset
pub mod Runs
use mathlib.Core.Option
use mqtt_viewer.Base.{
  ℕ, zero, suc, ◌+◌, ◌-◌, ◌*◌, ◌/◌, ◌%◌, ◌^◌, List, [], ◌∷◌, Option, none, some, replicate, ltb,
  ◌==◌, if◌then◌else◌, Bytes, blit,
}
use mqtt_viewer.Ring.{add64}

pub record ArenaChunk : Type 0 where
  pub address : ℕ
  pub memory : Bytes
  pub size : ℕ
  pub cursor : ℕ

-- `chunks` is the linked list; `none` is NULL.
pub record ArenaAlloc : Type 0 where
  pub chunk_size : ℕ
  pub current : Option ℕ
  pub chunks : List ArenaChunk

-- What `malloc` answers for a chunk: the address of its header, and what its memory holds.
pub record Malloc : Type 0 where
  pub address : ℕ
  pub memory : ℕ → Bytes

-- `(n + align - 1) & ~(align - 1)` for the alignment 8
unfoldable pub align_up : ℕ → ℕ
align_up n = (n + 7) % 2 ^ 64 / 8 * 8

unfoldable pub chunk_new : Malloc → ℕ → ArenaChunk
chunk_new m size = record { address = m.address; memory = m.memory size; size = size; cursor = 0 }

unfoldable pub arena_alloc_init : Malloc → ℕ → ArenaAlloc
arena_alloc_init m chunk_size = record {
  chunk_size = chunk_size;
  current = some m.address;
  chunks = chunk_new m chunk_size ∷ [];
}

unfoldable pub arena_alloc_destroy : ArenaAlloc → ArenaAlloc
arena_alloc_destroy arena = record arena { chunks = []; current = none }

-- A block of the arena: the chunk that it stands in, its offset there, and the size asked for.
pub record ArenaBlock : Type 0 where
  pub chunk : ℕ
  pub offset : ℕ
  pub size : ℕ

unfoldable pub find_chunk : Option ℕ → List ArenaChunk → Option ArenaChunk
find_chunk none cs = none
find_chunk (some a) [] = none
find_chunk (some a) (c ∷ cs) = if c.address == a then some c else find_chunk (some a) cs

-- The write through `c`: the cursor's move and the `memset`.
unfoldable pub bump : (address size aligned_size : ℕ) → List ArenaChunk → List ArenaChunk
bump a size aligned_size [] = []
bump a size aligned_size (c ∷ cs) =
    if c.address == a
    then record c {
      memory = blit c.memory c.cursor (replicate size 0);
      cursor = (c.cursor + aligned_size) % 2 ^ 64;
    }
      ∷ cs
    else c ∷ bump a size aligned_size cs

unfoldable pub take_from :
    ArenaAlloc → ArenaChunk → (size aligned_size : ℕ) → ArenaAlloc × ArenaBlock
take_from arena c size aligned_size = (
  record arena { chunks = bump c.address size aligned_size arena.chunks },
  record { chunk = c.address; offset = c.cursor; size = size },
)

-- The branch with a fresh chunk, in front of the others.
unfoldable pub add_chunk : Malloc → ArenaAlloc → ℕ → ArenaAlloc × ArenaChunk
add_chunk m arena aligned_size =
    let new_size = if ltb arena.chunk_size aligned_size then aligned_size else arena.chunk_size in
    let fresh = chunk_new m new_size in
    (record arena { chunks = fresh ∷ arena.chunks; current = some fresh.address }, fresh)

-- The call behind its first line.
unfoldable pub take_or_grow : Malloc → ArenaAlloc → ℕ → ArenaChunk → ArenaAlloc × ArenaBlock
take_or_grow m arena size c =
    let aligned_size = align_up size in
    let grown = add_chunk m arena aligned_size in
    if ltb c.size ((c.cursor + aligned_size) % 2 ^ 64)
    then take_from grown.0 grown.1 size aligned_size
    else take_from arena c size aligned_size

-- `none` where `current` is no chunk: the program reads a NULL or freed chunk then.
unfoldable pub arena_alloc_get : Malloc → ArenaAlloc → ℕ → Option (ArenaAlloc × ArenaBlock)
arena_alloc_get m arena size =
    Option.map (take_or_grow m arena size) (find_chunk arena.current arena.chunks)

-- The loop of `arena_alloc_reset`: `keep`, once the list is walked.
unfoldable pub kept_chunk : Option ArenaChunk → List ArenaChunk → Option ArenaChunk
kept_chunk keep [] = keep
kept_chunk none (c ∷ cs) = kept_chunk (some c) cs
kept_chunk (some k) (c ∷ cs) = kept_chunk (some (if ltb k.size c.size then c else k)) cs

-- The chunks that the loop frees, by their addresses.
unfoldable pub freed_chunks : Option ArenaChunk → List ArenaChunk → List ℕ
freed_chunks keep [] = []
freed_chunks none (c ∷ cs) = freed_chunks (some c) cs
freed_chunks (some k) (c ∷ cs) =
    if ltb k.size c.size
    then k.address ∷ freed_chunks (some c) cs
    else c.address ∷ freed_chunks (some k) cs

-- `none` where the assertion fails.
unfoldable pub arena_alloc_reset : ArenaAlloc → Option ArenaAlloc
arena_alloc_reset arena =
    Option.map
      (λ keep. record arena {
        chunks = record keep { cursor = 0 } ∷ [];
        current = some keep.address;
      })
      (kept_chunk none arena.chunks)

-- The sum of `size_t` wraps, wherever it is cut to 64 bits.
unfoldable pub arena_alloc_used : List ArenaChunk → ℕ
arena_alloc_used [] = 0
arena_alloc_used (c ∷ cs) = add64 c.cursor (arena_alloc_used cs)
