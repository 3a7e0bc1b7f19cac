-- ===== src/PoolAlloc/Blocks.antt =====
-- The blocks that are handed out.
use mqtt_viewer.Base.{
  ℕ, ◌+◌, ◌-◌, ◌^◌, ◌≤◌, ◌<◌, false, List, [], ◌∷◌, ◌≡◌, ◌≢◌, ◌⊎◌, inl, inr, ap, refl, sym, arith,
  leb, All, Bool-cases,
}
use mqtt_viewer.Ring.{add32}
use mqtt_viewer.PoolAlloc.{
  PoolAlloc, PoolBlock, grown, from_slab, take_block, pool_alloc_get, pool_alloc_put,
}

-- A block that was cut from a slab.
abbrev pub IsCut : ℕ → ℕ → ℕ → PoolBlock → Type 0
IsCut slabs cursor capacity b =
    (b.1 < capacity) × ((b.0 + 1 < slabs) ⊎ ((b.0 + 1 ≡ slabs) × (b.1 < cursor)))

abbrev pub NotIn : PoolBlock → List PoolBlock → Type 0
NotIn b bs = All (λ x. b ≢ x) bs

abbrev pub AreDistinct : List PoolBlock → Type 0
AreDistinct [] = Unit {0}
AreDistinct (b ∷ bs) = NotIn b bs × AreDistinct bs

-- The blocks `live` are in use: none is twice there, none is free, and all were cut from slabs.
pub record IsValid (pool : PoolAlloc) (live : List PoolBlock) : Type 0 where
  pub some_room : 0 < pool.slab_capacity
  pub small : pool.slab_capacity < 2 ^ 32
  pub some_slab : 0 < pool.slabs
  pub cursor_in : pool.slab_cursor ≤ pool.slab_capacity
  pub free_cut : All (IsCut pool.slabs pool.slab_cursor pool.slab_capacity) pool.free_list
  pub live_cut : All (IsCut pool.slabs pool.slab_cursor pool.slab_capacity) live
  pub free_distinct : AreDistinct pool.free_list
  pub live_distinct : AreDistinct live
  pub apart : All (λ b. NotIn b live) pool.free_list

All-map :
    (P Q : PoolBlock → Type 0) (bs : List PoolBlock)
    → ((b : PoolBlock) → P b → Q b)
    → All P bs
    → All Q bs
All-map P Q [] f h = tt
All-map P Q (b ∷ bs) f h = (f b h.0, All-map P Q bs f h.1)

All-zip :
    (P Q R : PoolBlock → Type 0) (bs : List PoolBlock)
    → ((b : PoolBlock) → P b → Q b → R b)
    → All P bs
    → All Q bs
    → All R bs
All-zip P Q R [] f h k = tt
All-zip P Q R (b ∷ bs) f h k = (f b h.0 k.0, All-zip P Q R bs f h.1 k.1)

-- A block that is cut next is none of those cut before.
next_is_new :
    (slabs cursor capacity : ℕ) (b : PoolBlock)
    → IsCut slabs cursor capacity b
    → 0 < slabs
    → ◌≢◌ {A = PoolBlock} (slabs - 1, cursor) b
next_is_new slabs cursor capacity b c k e = omega (arith, c, ap (λ x. x.0) e, ap (λ x. x.1) e)

stays-IsCut :
    (slabs cursor capacity : ℕ) (b : PoolBlock)
    → IsCut slabs cursor capacity b
    → IsCut slabs (cursor + 1) capacity b
stays-IsCut slabs cursor capacity b c = grind (arith, c)

still-IsCut :
    (slabs cursor capacity : ℕ) (b : PoolBlock)
    → IsCut slabs cursor capacity b
    → IsCut (slabs + 1) 0 capacity b
still-IsCut slabs cursor capacity b c = grind (arith, c)

from_slab-IsValid :
    (pool : PoolAlloc) (live : List PoolBlock)
    → IsValid pool live
    → pool.slab_cursor < pool.slab_capacity
    → let (pool', b) = from_slab pool in
      NotIn b live × (b.1 < pool.slab_capacity) × IsValid pool' (b ∷ live)
from_slab-IsValid pool live v h = rw (add32_next) (
  new_to live v.live_cut,
  h,
  record {
    some_room = v.some_room;
    small = v.small;
    some_slab = v.some_slab;
    cursor_in = omega (arith, h);
    free_cut = All-map cut_before cut_after pool.free_list longer v.free_cut;
    live_cut = (
      (h, inr (omega (arith, v.some_slab), omega arith)),
      All-map cut_before cut_after live longer v.live_cut,
    );
    free_distinct = v.free_distinct;
    live_distinct = (new_to live v.live_cut, v.live_distinct);
    apart =
        All-zip cut_before (λ x. NotIn x live) (λ x. NotIn x (b ∷ live)) pool.free_list
          (λ x c p. (
            (λ e.
                next_is_new pool.slabs pool.slab_cursor pool.slab_capacity x c v.some_slab (sym e)),
            p,
          ))
          v.free_cut v.apart;
  },
)
  where
    b : PoolBlock
    b = (pool.slabs - 1, pool.slab_cursor)

    cut_before : PoolBlock → Type 0
    cut_before = IsCut pool.slabs pool.slab_cursor pool.slab_capacity

    cut_after : PoolBlock → Type 0
    cut_after = IsCut pool.slabs (pool.slab_cursor + 1) pool.slab_capacity

    longer : (x : PoolBlock) → cut_before x → cut_after x
    longer = stays-IsCut pool.slabs pool.slab_cursor pool.slab_capacity

    add32_next : add32 pool.slab_cursor 1 ≡ pool.slab_cursor + 1
    add32_next = omega (arith, h, v.small)

    new_to : (bs : List PoolBlock) → All cut_before bs → NotIn b bs
    new_to bs c =
        All-map cut_before (λ x. b ≢ x) bs
          (λ x d. next_is_new pool.slabs pool.slab_cursor pool.slab_capacity x d v.some_slab) c

grown-IsValid :
    (pool : PoolAlloc) (live : List PoolBlock)
    → IsValid pool live
    → IsValid (grown pool) live
      × ((grown pool).slab_cursor < (grown pool).slab_capacity)
      × ((grown pool).slab_capacity ≡ pool.slab_capacity)
grown-IsValid pool live v = elim (Bool-cases (leb pool.slab_capacity pool.slab_cursor)) [
  | inl e ↦ simp e (
    record {
      some_room = v.some_room;
      small = v.small;
      some_slab = omega arith;
      cursor_in = omega arith;
      free_cut =
          All-map (IsCut pool.slabs pool.slab_cursor pool.slab_capacity)
            (IsCut (pool.slabs + 1) 0 pool.slab_capacity) pool.free_list
            (still-IsCut pool.slabs pool.slab_cursor pool.slab_capacity) v.free_cut;
      live_cut =
          All-map (IsCut pool.slabs pool.slab_cursor pool.slab_capacity)
            (IsCut (pool.slabs + 1) 0 pool.slab_capacity) live
            (still-IsCut pool.slabs pool.slab_cursor pool.slab_capacity) v.live_cut;
      free_distinct = v.free_distinct;
      live_distinct = v.live_distinct;
      apart = v.apart;
    },
    v.some_room,
    refl,
  )
  | inr e ↦ simp e (v, omega (arith, leb_false pool.slab_capacity pool.slab_cursor e), refl)
]
  where
    leb_false : (a b : ℕ) → leb a b ≡ false → b < a
    leb_false a b h = ground arith

-- `pool_alloc_get` hands out a block inside its slab that is not in use, and the pool stays valid
-- with that block in use.
pub pool_alloc_get-IsValid :
    (pool : PoolAlloc) (live : List PoolBlock)
    → IsValid pool live
    → let (pool', b) = pool_alloc_get pool in
      NotIn b live × (b.1 < pool.slab_capacity) × IsValid pool' (b ∷ live)
unfolding pool_alloc_get
pool_alloc_get-IsValid pool live v = by_free pool.free_list v.free_cut v.free_distinct v.apart
  where
    recounted : (n : ℕ) → IsValid (record pool { used_count = n }) live
    recounted n = record {
      some_room = v.some_room;
      small = v.small;
      some_slab = v.some_slab;
      cursor_in = v.cursor_in;
      free_cut = v.free_cut;
      live_cut = v.live_cut;
      free_distinct = v.free_distinct;
      live_distinct = v.live_distinct;
      apart = v.apart;
    }

    by_free :
        (free : List PoolBlock)
        → All (IsCut pool.slabs pool.slab_cursor pool.slab_capacity) free
        → AreDistinct free
        → All (λ b. NotIn b live) free
        → let out = take_block (record pool { used_count = add32 pool.used_count 1 }) free in
          NotIn out.1 live × (out.1.1 < pool.slab_capacity) × IsValid out.0 (out.1 ∷ live)
    by_free (b ∷ bs) c d a = (
      a.0,
      c.0.0,
      record {
        some_room = v.some_room;
        small = v.small;
        some_slab = v.some_slab;
        cursor_in = v.cursor_in;
        free_cut = c.1;
        live_cut = (c.0, v.live_cut);
        free_distinct = d.1;
        live_distinct = (a.0, v.live_distinct);
        apart =
            All-zip (λ x. b ≢ x) (λ x. NotIn x live) (λ x. NotIn x (b ∷ live)) bs
              (λ x p q. ((λ e. p (sym e)), q)) d.0 a.1;
      },
    )
    by_free [] c d a =
        let counted = record pool { used_count = add32 pool.used_count 1 } in
        let (g, room, same) = grown-IsValid counted live (recounted (add32 pool.used_count 1)) in
        let (new, inside, valid) = from_slab-IsValid (grown counted) live g room in
        (new, omega (arith, inside, same), valid)

-- Putting back the block that is first of those in use keeps the pool valid, without it in use.
pub pool_alloc_put-IsValid :
    (pool : PoolAlloc) (b : PoolBlock) (live : List PoolBlock)
    → IsValid pool (b ∷ live)
    → IsValid (pool_alloc_put pool b) live
unfolding pool_alloc_put
pool_alloc_put-IsValid pool b live v = record {
  some_room = v.some_room;
  small = v.small;
  some_slab = v.some_slab;
  cursor_in = v.cursor_in;
  free_cut = (v.live_cut.0, v.free_cut);
  live_cut = v.live_cut.1;
  free_distinct = (
    All-map (λ x. NotIn x (b ∷ live)) (λ x. b ≢ x) pool.free_list (λ x p e. p.0 (sym e)) v.apart,
    v.free_distinct,
  );
  live_distinct = v.live_distinct.1;
  apart = (
    v.live_distinct.0,
    All-map (λ x. NotIn x (b ∷ live)) (λ x. NotIn x live) pool.free_list (λ x p. p.1) v.apart,
  );
}
