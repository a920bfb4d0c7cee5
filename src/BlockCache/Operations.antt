-- ===== src/BlockCache/Operations.antt =====
-- The operations of src/utils/elf_cache.c that change the tree and the list of recent use.
use profiling.Prelude.{
  ℕ, zero, suc, ◌+◌, ◌-◌, ◌*◌, ◌/◌, ◌%◌, ◌^◌, Bool, true, false, Option, none, some, List, [], ◌∷◌,
  ◌++◌, map, ltb, leb, ◌==◌, if◌then◌else◌, take, drop,
}
use profiling.Tree.{leaf, in_order}
use profiling.Tree.Insert.{insert_node}
use profiling.BlockCache.{
  cache_block_size, CacheBlock, LruNode, MemoryCache, File, RbEraseTree, block_start,
  find_cache_block, create_cache_block,
}

-- The place of the block with an offset.
unfoldable pub place_of : ℕ → List CacheBlock → ℕ
place_of offset [] = 0
place_of offset (block ∷ blocks) =
    let rest = place_of offset blocks in if block.offset == offset then 0 else suc rest

-- The list without the node of a block.
unfoldable pub list_del : ℕ → List LruNode → List LruNode
list_del offset [] = []
list_del offset (entry ∷ entries) =
    let rest = list_del offset entries in if entry.offset == offset then entries else entry ∷ rest

unfoldable pub list_add_tail : LruNode → List LruNode → List LruNode
list_add_tail entry entries = entries ++ (entry ∷ [])

-- The block moves to the tail of the list.
unfoldable pub touch : MemoryCache → CacheBlock → MemoryCache
unfolding list_del list_add_tail
touch cache block =
    let time = cache.access_counter + 1 in
    let entry : LruNode = record { offset = block.offset; last_access = time } in
    record cache {
      access_counter = time;
      lru_list = list_add_tail entry (list_del block.offset cache.lru_list);
    }

-- How much of a block is copied from the offset on.
abbrev pub copy_size : ℕ → ℕ → ℕ
copy_size current_offset remaining =
    let block_pos = current_offset % cache_block_size in
    if ltb remaining (cache_block_size - block_pos) then remaining else cache_block_size - block_pos

abbrev pub block_bytes : CacheBlock → ℕ → ℕ → List ℕ
block_bytes block current_offset remaining =
    take (copy_size current_offset remaining)
      (drop (current_offset % cache_block_size) block.block_data)

module _ (lib : RbEraseTree CacheBlock) where
  unfoldable pub insert_cache_block : MemoryCache → CacheBlock → MemoryCache
  unfolding insert_node
  insert_cache_block cache block = record cache {
    cache_tree = insert_node block_start lib.tree cache.cache_tree block;
  }

  unfoldable pub evict_first : MemoryCache → List LruNode → MemoryCache
  unfolding place_of
  evict_first cache [] = cache
  evict_first cache (lru_block ∷ entries) = record cache {
    cache_tree =
        lib.rb_erase cache.cache_tree (place_of lru_block.offset (in_order cache.cache_tree));
    lru_list = entries;
    current_blocks = cache.current_blocks - 1;
  }

  unfoldable pub evict_lru_block : MemoryCache → MemoryCache
  unfolding evict_first
  evict_lru_block cache = evict_first cache cache.lru_list

  unfoldable pub add_block : Option CacheBlock × MemoryCache → Option CacheBlock × MemoryCache
  unfolding insert_cache_block list_add_tail
  add_block (none, cache) = (none, cache)
  add_block (some block, cache) =
      let entry : LruNode = record { offset = block.offset; last_access = cache.access_counter } in
      let inserted = insert_cache_block cache block in
      (
        some block,
        record inserted {
          lru_list = list_add_tail entry cache.lru_list;
          current_blocks = cache.current_blocks + 1;
        },
      )

  module _ (file : File) where
    -- What `cache_read` does on a miss.
    unfoldable pub load_block : MemoryCache → ℕ → Option CacheBlock × MemoryCache
    unfolding evict_lru_block create_cache_block add_block
    load_block cache block_offset =
        let room =
          if leb cache.max_blocks cache.current_blocks then evict_lru_block cache else cache in
        add_block (create_cache_block file room block_offset)

    -- The block of an offset, from the cache or from the file.
    unfoldable pub get_block : MemoryCache → ℕ → Option CacheBlock × MemoryCache
    unfolding find_cache_block load_block
    get_block cache current_offset = elim (find_cache_block cache current_offset) [
      | none ↦ load_block cache (current_offset / cache_block_size * cache_block_size)
      | some block ↦ (some block, cache)
    ]

    -- The cache, the bytes copied to the buffer, and whether the loop ends with 0 remaining. Each
    -- turn copies a byte or more, so `remaining` is enough fuel.
    unfoldable pub read_loop : ℕ → MemoryCache → ℕ → ℕ → MemoryCache × List ℕ × Bool
    unfolding get_block touch
    read_loop fuel cache current_offset zero = (cache, [], true)
    read_loop zero cache current_offset (suc n) = (cache, [], false)
    read_loop (suc fuel) cache current_offset (suc n) =
        let (found, cache') = get_block cache current_offset in
        elim found [
          | none ↦ (cache', [], false)
          | some block ↦
              let size = copy_size current_offset (suc n) in
              let rest =
                read_loop fuel (touch cache' block) (current_offset + size) (suc n - size) in
              (rest.0, block_bytes block current_offset (suc n) ++ rest.1, rest.2)
        ]

    -- The cache, the bytes written to the buffer, and whether the result is 0, not -1.
    unfoldable pub cache_read : MemoryCache → ℕ → ℕ → MemoryCache × List ℕ × Bool
    unfolding read_loop
    cache_read cache offset size =
        let size' =
          if ltb cache.file_size ((offset + size) % 2 ^ 64)
          then cache.file_size - offset
          else size in
        if leb cache.file_size offset
        then (cache, [], false)
        else read_loop size' cache offset size'

    -- The loop up to `end`, which is `offset + size` as it wraps around; it reads one block more
    -- each time.
    unfoldable pub prefetch_loop : ℕ → MemoryCache → ℕ → ℕ → MemoryCache × Bool
    unfolding cache_read
    prefetch_loop zero cache current_offset end = (cache, leb end current_offset)
    prefetch_loop (suc fuel) cache current_offset end =
        let got = cache_read cache current_offset cache_block_size in
        let rest = prefetch_loop fuel got.0 ((current_offset + cache_block_size) % 2 ^ 64) end in
        if ltb current_offset end then if got.2 then rest else (got.0, false) else (cache, true)

    -- A call that does not return -1 at a turn is below the size of the file there, so it takes at
    -- most one turn for each byte of the file, and one for the last test.
    unfoldable pub cache_prefetch : MemoryCache → ℕ → ℕ → MemoryCache × Bool
    unfolding prefetch_loop
    cache_prefetch cache offset size =
        prefetch_loop (cache.file_size + 1) cache offset ((offset + size) % 2 ^ 64)

-- Writing is not supported: the result is -1, and nothing changes.
unfoldable pub cache_write : MemoryCache → ℕ → List ℕ → MemoryCache × Bool
cache_write cache offset buffer = (cache, false)

-- `*hits`, `*misses` and `*evictions`.
unfoldable pub cache_get_stats : MemoryCache → ℕ × ℕ × ℕ
cache_get_stats cache = (cache.current_blocks, 0, 0)

-- The offsets of the blocks given to `free`, in order, with a `free` that leaves the block as it is:
-- the list of recent use is not changed by the first loop.
unfoldable pub cache_cleanup : MemoryCache → List ℕ
cache_cleanup cache =
    map block_start (in_order cache.cache_tree) ++ map (λ entry. entry.offset) cache.lru_list

-- Each block of the tree, in its order, leaves the list.
unfoldable pub flush_list : List CacheBlock → List LruNode → List LruNode
unfolding list_del
flush_list [] entries = entries
flush_list (block ∷ blocks) entries = flush_list blocks (list_del block.offset entries)

-- The cache, and the offsets of the blocks given to `free`.
unfoldable pub cache_flush : MemoryCache → MemoryCache × List ℕ
unfolding flush_list
cache_flush cache =
    let blocks = in_order cache.cache_tree in
    (
      record cache {
        cache_tree = leaf;
        lru_list = flush_list blocks cache.lru_list;
        current_blocks = 0;
      },
      map block_start blocks,
    )
