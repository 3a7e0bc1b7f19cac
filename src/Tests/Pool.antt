-- ===== src/Tests/Pool.antt =====
-- src/model/pool_alloc.c on a pool of two blocks a slab.
use mqtt_viewer.Base.{◌<◌, List, [], ◌∷◌, ◌≡◌, inr, ap, refl, arith}
use mqtt_viewer.PoolAlloc.{PoolAlloc, PoolBlock, pool_alloc_get, pool_alloc_put}
use mqtt_viewer.PoolAlloc.Blocks.{IsValid, NotIn, pool_alloc_get-IsValid, pool_alloc_put-IsValid}

-- A used up slab, both of its blocks in use.
abbrev full : PoolAlloc
full = record {
  elem_size = 8;
  slab_capacity = 2;
  used_count = 2;
  free_list = [];
  slabs = 1;
  slab_cursor = 2;
}

abbrev both : List PoolBlock
both = (0, 1) ∷ (0, 0) ∷ []

full-IsValid : IsValid full both
full-IsValid = record {
  some_room = omega arith;
  small = omega arith;
  some_slab = omega arith;
  cursor_in = omega arith;
  free_cut = tt;
  live_cut = ((omega arith, inr (refl, omega arith)), ((omega arith, inr (refl, omega arith)), tt));
  free_distinct = tt;
  live_distinct = (((λ e. absurd (omega (arith, ap (λ x. x.1) e))), tt), (tt, tt));
  apart = tt;
}

get_block_example :
    let (pool', b) = pool_alloc_get full in NotIn b both × (b.1 < 2) × IsValid pool' (b ∷ both)
get_block_example = pool_alloc_get-IsValid full both full-IsValid

put_block_example : IsValid (pool_alloc_put full (0, 1)) ((0, 0) ∷ [])
put_block_example = pool_alloc_put-IsValid full (0, 1) ((0, 0) ∷ []) full-IsValid

-- The third block is the first of a new slab.
third_run : (pool_alloc_get full).1 ≡ (1, 0)
unfolding pool_alloc_get
third_run = refl
