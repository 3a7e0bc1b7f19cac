-- ===== src/ArenaAlloc/Runs.antt =====
-- Calls of src/model/arena_alloc.c between two resets, in a row.
use mqtt_viewer.Base.{ℕ, ◌<◌, ◌^◌, ◌≡◌, List, [], ◌∷◌, some, All, All-weaker, sym, ◌∙◌}
use mathlib.Core.Option.{some-injective}
use mathlib.Core.Path.{subst}
use mqtt_viewer.ArenaAlloc.{ArenaAlloc, ArenaBlock, Malloc, arena_alloc_get}
use mqtt_viewer.ArenaAlloc.Blocks.{
  IsValid, IsMalloc, IsTaken, IsDisjoint, IsGranted, arena_alloc_get-IsGranted,
}

pub data Gets (start : ArenaAlloc) : List ArenaBlock → ArenaAlloc → Type 0 where
  none_yet : Gets start [] start
  get :
      {bs : List ArenaBlock} {arena after : ArenaAlloc} {block : ArenaBlock}
      → Gets start bs arena
      → (m : Malloc) (size : ℕ) → size < 2 ^ 62
      → IsMalloc m arena
      → arena_alloc_get m arena size ≡ some (after, block)
      → Gets start (block ∷ bs) after

abbrev pub AreDisjoint : List ArenaBlock → Type 0
AreDisjoint [] = Unit
AreDisjoint (b ∷ bs) = All (λ d. IsDisjoint d b) bs × AreDisjoint bs

record IsRun (bs : List ArenaBlock) (arena : ArenaAlloc) : Type 0 where
  valid : IsValid arena
  taken : All (λ b. IsTaken b arena.chunks) bs
  disjoint : AreDisjoint bs

IsGranted-IsRun :
    (bs : List ArenaBlock) (arena : ArenaAlloc) (size : ℕ) (r : ArenaAlloc × ArenaBlock)
    → IsRun bs arena
    → IsGranted arena size r
    → IsRun (r.1 ∷ bs) r.0
IsGranted-IsRun bs arena size r v g = record {
  valid = g.valid;
  taken = (g.taken, All-weaker bs g.kept v.taken);
  disjoint = (All-weaker bs g.apart v.taken, v.disjoint);
}

Gets-IsRun :
    {start arena : ArenaAlloc} {bs : List ArenaBlock}
    → Gets start bs arena
    → IsValid start
    → IsRun bs arena
Gets-IsRun none_yet v = record { valid = v; taken = tt; disjoint = tt }
Gets-IsRun (get {bs} {arena} {after} {block} g m size h f e) v =
    let run = Gets-IsRun g v in
    let (r, d, granted) = arena_alloc_get-IsGranted m arena size h f run.valid in
    let same : r ≡ (after, block) = some-injective _ _ (sym d ∙ e) in
    subst (λ (x : ArenaAlloc × ArenaBlock). IsRun (x.1 ∷ bs) x.0) same
      (IsGranted-IsRun bs arena size r run granted)

-- In any run of allocations from a valid arena, each answered by `malloc` as it promises and for less
-- than 2 ^ 62 bytes, no two blocks overlap.
pub Gets-AreDisjoint :
    {start arena : ArenaAlloc} {bs : List ArenaBlock}
    → Gets start bs arena
    → IsValid start
    → AreDisjoint bs
Gets-AreDisjoint g v = (Gets-IsRun g v).disjoint
