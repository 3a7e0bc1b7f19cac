-- ===== src/Tests/Arena.antt =====
-- src/model/arena_alloc.c on an arena with chunks of 16 bytes.
use mqtt_viewer.Base.{ℕ, ◌≡◌, refl, [], ◌∷◌, some, replicate, length-replicate, arith, ◌++◌}
use mqtt_viewer.ArenaAlloc.{
  ArenaAlloc, ArenaBlock, ArenaChunk, Malloc, arena_alloc_init, arena_alloc_get, arena_alloc_reset,
  align_up, chunk_new, find_chunk, bump, take_from, add_chunk, take_or_grow,
}
use mqtt_viewer.ArenaAlloc.Blocks.{
  IsValid, IsMalloc, IsGranted, arena_alloc_init-IsValid, arena_alloc_get-IsGranted,
}
use mqtt_viewer.ArenaAlloc.Runs.{Gets, AreDisjoint, Gets-AreDisjoint}
use mqtt_viewer.ArenaAlloc.Reset.{IsReset, arena_alloc_reset-IsReset}

abbrev malloc : ℕ → Malloc
malloc a = record { address = a; memory = λ n. replicate n 7 }

abbrev empty : ArenaAlloc
empty = arena_alloc_init (malloc 1) 16

abbrev block : ℕ → ℕ → ℕ → ArenaBlock
block a o n = record { chunk = a; offset = o; size = n }

abbrev used_chunk : ArenaChunk
used_chunk = record {
  address = 1;
  memory = 0 ∷ 0 ∷ 0 ∷ 7 ∷ 7 ∷ 7 ∷ 7 ∷ 7 ∷ replicate 8 7;
  size = 16;
  cursor = 8;
}

abbrev once : ArenaAlloc
once = record { chunk_size = 16; current = some 1; chunks = used_chunk ∷ [] }

-- A block that does not fit beside the first one.
abbrev twice : ArenaAlloc
twice = record {
  chunk_size = 16;
  current = some 2;
  chunks =
      record { address = 2; memory = replicate 9 0 ++ replicate 7 7; size = 16; cursor = 16 }
      ∷ used_chunk
      ∷ [];
}

first : arena_alloc_get (malloc 5) empty 3 ≡ some (once, block 1 0 3)
unfolding arena_alloc_get arena_alloc_init align_up chunk_new find_chunk bump take_from add_chunk
    take_or_grow
first = refl

second : arena_alloc_get (malloc 2) once 9 ≡ some (twice, block 2 0 9)
unfolding arena_alloc_get align_up chunk_new find_chunk bump take_from add_chunk take_or_grow
second = refl

empty-IsValid : IsValid empty
empty-IsValid = arena_alloc_init-IsValid (malloc 1) 16 (omega arith) (λ n. length-replicate n 7)

empty-IsMalloc : IsMalloc (malloc 5) empty
unfolding arena_alloc_init chunk_new
empty-IsMalloc = record {
  fresh = (λ e. absurd (omega (arith, e)), tt);
  bytes = λ n. length-replicate n 7;
}

once-IsMalloc : IsMalloc (malloc 2) once
once-IsMalloc = record {
  fresh = (λ e. absurd (omega (arith, e)), tt);
  bytes = λ n. length-replicate n 7;
}

twice-IsValid : IsValid twice
twice-IsValid = record {
  chunks_valid =
      ((omega arith, refl, refl, omega arith), ((omega arith, refl, refl, omega arith), tt));
  distinct = ((λ e. absurd (omega (arith, e)), tt), (tt, tt));
  head = refl;
  small = omega arith;
}

fresh_block_example :
    (r : ArenaAlloc × ArenaBlock) × (arena_alloc_get (malloc 5) empty 3 ≡ some r)
    × IsGranted empty 3 r
fresh_block_example =
    arena_alloc_get-IsGranted (malloc 5) empty 3 (omega arith) empty-IsMalloc empty-IsValid

disjoint_example : AreDisjoint (block 2 0 9 ∷ block 1 0 3 ∷ [])
disjoint_example =
    Gets-AreDisjoint
      (Gets.get (Gets.get Gets.none_yet (malloc 5) 3 (omega arith) empty-IsMalloc first) (malloc 2)
        9 (omega arith) once-IsMalloc second)
      empty-IsValid

emptied_example :
    (keep : ArenaChunk) × (after : ArenaAlloc) × (arena_alloc_reset twice ≡ some after)
    × IsReset twice after keep
emptied_example = arena_alloc_reset-IsReset twice twice-IsValid
