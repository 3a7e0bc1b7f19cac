-- ===== src/PoolAlloc.antt =====
-- src/model/pool_alloc.h and .c: blocks of one size, cut from slabs. A block is named by its slab,
-- counted from the oldest, and its index there; the free list, which the blocks themselves link, is a
-- list of them. `elem_size` only places the blocks in memory, and `memset` clears what is handed out.
pub mod Blocks
use mqtt_viewer.Base.{
  ℕ, ◌+◌, ◌-◌, ◌^◌, ◌%◌, Bool, true, false, List, [], ◌∷◌, leb, ltb, if◌then◌else◌,
}
use mqtt_viewer.Ring.{add32}

abbrev pub PoolBlock : Type 0
PoolBlock = ℕ × ℕ

pub record PoolAlloc : Type 0 where
  pub elem_size : ℕ
  pub slab_capacity : ℕ
  pub used_count : ℕ
  pub free_list : List PoolBlock
  pub slabs : ℕ
  pub slab_cursor : ℕ

-- A block holds a link at least: 8 bytes.
unfoldable pub pool_alloc_init : ℕ → ℕ → PoolAlloc
pool_alloc_init elem_size slab_capacity = record {
  elem_size = if ltb elem_size 8 then 8 else elem_size;
  slab_capacity = slab_capacity;
  used_count = 0;
  free_list = [];
  slabs = 1;
  slab_cursor = 0;
}

unfoldable pub pool_alloc_destroy : PoolAlloc → PoolAlloc
pool_alloc_destroy pool = record pool { slabs = 0; free_list = []; used_count = 0 }

-- A new slab where the newest one is used up.
abbrev pub grown : PoolAlloc → PoolAlloc
grown pool =
    if leb pool.slab_capacity pool.slab_cursor
    then record pool { slabs = pool.slabs + 1; slab_cursor = 0 }
    else pool

abbrev pub from_slab : PoolAlloc → PoolAlloc × PoolBlock
from_slab pool =
    (record pool { slab_cursor = add32 pool.slab_cursor 1 }, (pool.slabs - 1, pool.slab_cursor))

-- The block handed out comes second.
abbrev pub take_block : PoolAlloc → List PoolBlock → PoolAlloc × PoolBlock
take_block pool (b ∷ bs) = (record pool { free_list = bs }, b)
take_block pool [] = from_slab (grown pool)

unfoldable pub pool_alloc_get : PoolAlloc → PoolAlloc × PoolBlock
pool_alloc_get pool =
    take_block (record pool { used_count = add32 pool.used_count 1 }) pool.free_list

unfoldable pub pool_alloc_put : PoolAlloc → PoolBlock → PoolAlloc
pool_alloc_put pool b = record pool {
  free_list = b ∷ pool.free_list;
  used_count = (pool.used_count + 2 ^ 32 - 1) % 2 ^ 32;
}

unfoldable pub pool_alloc_used : PoolAlloc → ℕ
pool_alloc_used pool = pool.used_count
