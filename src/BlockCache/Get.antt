-- ===== src/BlockCache/Get.antt =====
-- The block of an offset, from a cache that is well formed and has it, or from the file.
use mathlib.Core.Path.{subst}
use profiling.Prelude.{
  ℕ, ◌+◌, ◌-◌, ◌<◌, ◌≤◌, ◌*◌, ◌/◌, ◌≡◌, refl, sym, false, Bool-cases, Option-cases, inl, inr,
  Option, none, some, List, arith, leb, OrNone, if◌then◌else◌, length, times, All,
}
use profiling.Tree.{in_order}
use profiling.Tree.Search.{holds}
use profiling.BlockCache.{
  CacheBlock, MemoryCache, File, RbEraseTree, cache_block_size, block_start, block_end,
  find_cache_block,
}
use profiling.BlockCache.Operations.{
  evict_lru_block, add_block, insert_cache_block, list_add_tail, load_block, get_block,
}
use profiling.BlockCache.Fetch.{IsHonest, Made, later-IsCache, create_cache_block-Made}
use profiling.BlockCache.Load.{
  times-add_tail, evict_first-All, evict_first-IsCache, add_block-IsCache,
}
use profiling.BlockCache.Remove.{keys}
use profiling.BlockCache.WellFormed.{
  IsCache, IsBlock, Found, node_offset, apart, find_cache_block-Found,
}

module _ (contents : List ℕ) (a : ℕ) where
  -- The block that holds the offset, in the cache, if there is one.
  abbrev pub Got : Option CacheBlock × MemoryCache → Type 0
  Got (found, cache) =
      IsCache contents cache
      × OrNone
          (λ block.
            IsBlock contents block
            × (block.offset ≤ a)
            × (a < block.offset + cache_block_size)
            × (0 < times block.offset (keys node_offset cache.lru_list)))
          found

  abbrev pub Misses : MemoryCache → Type 0
  Misses cache =
      All (λ block. holds block_start block_end a block ≡ false) (in_order cache.cache_tree)

  module _ (lib : RbEraseTree CacheBlock) where
    pub room-lem :
        (cache : MemoryCache)
        → IsCache contents cache
        → Misses cache
        → let room =
            if leb cache.max_blocks cache.current_blocks
            then evict_lru_block lib cache
            else cache in
          IsCache contents room × Misses room × (room.current_blocks < room.max_blocks)
    unfolding evict_lru_block
    room-lem cache h misses = elim (Bool-cases (leb cache.max_blocks cache.current_blocks)) [
      | inl full ↦
          let evicted = evict_first-IsCache contents lib cache cache.lru_list h refl in
          rw full (evicted.0, evict_first-All contents lib _ cache cache.lru_list misses, evicted.1)
      | inr free ↦ rw free (h, misses, ground arith)
    ]

    added-Got :
        (cache : MemoryCache) (block : CacheBlock)
        → IsCache contents (record cache { access_counter = cache.access_counter + 1 })
        → Misses cache
        → cache.current_blocks < cache.max_blocks
        → IsCache contents cache
        → IsBlock contents block
        → block.offset ≡ a / cache_block_size * cache_block_size
        → Got
            (add_block lib (some block, record cache { access_counter = cache.access_counter + 1 }))
    unfolding add_block insert_cache_block list_add_tail
    added-Got cache block h' misses free h right e =
        let now : cache.access_counter + 1 - 1 ≡ cache.access_counter = omega arith in
        let new = apart contents h.size_lt a _ h.blocks misses in
        (
          add_block-IsCache contents lib
              (record cache { access_counter = cache.access_counter + 1 }) block h'
              (right, rw e new, free, rw now h.past, omega arith),
          (
            right,
            omega (arith, e),
            omega (arith, e),
            let all =
                  times-add_tail block.offset cache.lru_list
                    (record { offset = block.offset; last_access = cache.access_counter + 1 }) in
                ground (arith, all),
          ),
        )

    add-Got :
        (file : File) (honest : IsHonest contents file) (cache : MemoryCache)
        (made : Option CacheBlock × MemoryCache)
        → Made contents file honest cache (a / cache_block_size * cache_block_size) made
        → IsCache contents cache
        → Misses cache
        → cache.current_blocks < cache.max_blocks
        → Got (add_block lib made)
    unfolding add_block
    add-Got file honest cache (none, cache') made h misses free = (made, tt)
    add-Got file honest cache (some block, cache') made h misses free =
        subst (λ c. Got (add_block lib (some block, c))) (sym made.2)
          (added-Got cache block (later-IsCache contents file honest cache h) misses free h made.0
            made.1)

  get_block-Found :
      (lib : RbEraseTree CacheBlock) (file : File) (cache : MemoryCache) (block : CacheBlock)
      → IsCache contents cache
      → Found contents a (in_order cache.cache_tree) (some block)
      → Got (some block, cache)
  get_block-Found lib file cache block h found = (
    h,
    (found.0, found.1, found.2, subst (λ n. 0 < n) (sym (h.same_blocks block.offset)) found.3),
  )

  load_block-Got :
      (lib : RbEraseTree CacheBlock) (file : File) (honest : IsHonest contents file)
      (cache : MemoryCache)
      → IsCache contents cache
      → Misses cache
      → a < length contents
      → Got (load_block lib file cache (a / cache_block_size * cache_block_size))
  unfolding load_block
  load_block-Got lib file honest cache h misses inside =
      let room = room-lem lib cache h misses in
      add-Got lib file honest _ _
        (create_cache_block-Made contents file honest _ (a / cache_block_size * cache_block_size)
          room.0 (omega arith) (omega arith))
        room.0 room.1 room.2

  pub get_block-Got :
      (lib : RbEraseTree CacheBlock) (file : File) (honest : IsHonest contents file)
      (cache : MemoryCache)
      → IsCache contents cache
      → a < length contents
      → Got (get_block lib file cache a)
  unfolding get_block
  get_block-Got lib file honest cache h inside =
      let found = find_cache_block-Found contents cache a h in
      elim (Option-cases (find_cache_block cache a)) [
        | inl none_found ↦
            rw (none_found, get_block)
              (load_block-Got lib file honest cache h
                (subst (Found contents a (in_order cache.cache_tree)) none_found found) inside)
        | inr (block, one_found) ↦
            rw (one_found, get_block)
              (get_block-Found lib file cache block h
                (subst (Found contents a (in_order cache.cache_tree)) one_found found))
      ]
