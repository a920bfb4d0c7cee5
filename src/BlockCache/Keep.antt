-- ===== src/BlockCache/Keep.antt =====
-- The operations keep a cache of a file well formed, whatever fails; what the two ways to give up
-- all blocks free.
use profiling.Prelude.{
  dec_lt, ℕ, suc, ◌<◌, ◌≤◌, ◌^◌, ◌≡◌, refl, Bool, true, false, Bool-cases, inl, inr, List, [], ◌∷◌,
  arith, ltb, zero, OrNone, length, times, All,
}
use profiling.Tree.{in_order, leaf}
use profiling.BlockCache.{
  cache_init, max_cache_blocks, CacheBlock, LruNode, MemoryCache, File, RbEraseTree,
  cache_block_size, block_start, block_end, find_cache_block, create_cache_block, filled_block,
  read_from_file, whole,
}
use profiling.BlockCache.Operations.{
  cache_flush, flush_list, prefetch_loop, cache_prefetch, cache_read,
}
use profiling.BlockCache.Read.{cache_read-bytes, cache_read-outside}
use profiling.BlockCache.Fetch.{IsHonest}
use profiling.BlockCache.Remove.{remove_key, keys}
use profiling.BlockCache.WellFormed.{IsCache, node_offset, list_del-remove_key}

module _ (contents : List ℕ) (lib : RbEraseTree CacheBlock) (file : File)
    (honest : IsHonest contents file) where
  cache_read-IsCache :
      (cache : MemoryCache) (offset size : ℕ)
      → IsCache contents cache
      → size ≤ 2 ^ 63
      → IsCache contents (cache_read lib file cache offset size).0
  cache_read-IsCache cache offset size h small = elim (dec_lt offset (length contents)) [
    | yes inside ↦
        let below = h.size_lt in
        (cache_read-bytes contents lib file honest cache offset size h inside (omega arith)).2
    | no outside ↦ rw (cache_read-outside contents lib file cache offset size h (omega arith)) h
  ]

  prefetch_loop-IsCache :
      (fuel : ℕ) (cache : MemoryCache) (a end : ℕ)
      → IsCache contents cache
      → IsCache contents (prefetch_loop lib file fuel cache a end).0
  unfolding prefetch_loop
  prefetch_loop-IsCache zero cache a end h = h
  prefetch_loop-IsCache (suc fuel) cache a end h =
      let read = cache_read-IsCache cache a 4096 h (omega arith) in
      elim (Bool-cases (ltb a end)) [
        | inr done ↦ rw done h
        | inl more ↦ elim (Bool-cases (cache_read lib file cache a 4096).2) [
          | inr failed ↦ rw (more, failed) read
          | inl ok ↦ rw (more, ok) (prefetch_loop-IsCache fuel _ _ end read)
        ]
      ]

same_keys_nil :
    (entries : List LruNode) → ((o : ℕ) → times o (keys node_offset entries) ≡ 0) → entries ≡ []
same_keys_nil [] h = refl
same_keys_nil (x ∷ entries) h = absurd (let e = h x.offset in ground arith)

-- Blocks that leave the list of the same blocks leave none.
flush_list-nil :
    (blocks : List CacheBlock) (entries : List LruNode)
    → ((o : ℕ) → times o (keys node_offset entries) ≡ times o (keys block_start blocks))
    → flush_list blocks entries ≡ []
unfolding flush_list
flush_list-nil [] entries h = same_keys_nil entries h
flush_list-nil (block ∷ blocks) entries h =
    let o = block.offset in
    let member : 0 < times o (keys node_offset entries) = let e = h o in ground arith in
    rw (list_del-remove_key o entries) (
      flush_list-nil blocks (remove_key node_offset o entries) (λ a.
        fewer a (profiling.BlockCache.Remove.times-remove_key node_offset a o entries member)
          (h a)))
  where
    fewer :
        {n : ℕ} (a : ℕ)
        → times a (block.offset ∷ keys node_offset (remove_key node_offset block.offset entries))
          ≡ n
        → n ≡ times a (keys block_start (block ∷ blocks))
        → times a (keys node_offset (remove_key node_offset block.offset entries))
          ≡ times a (keys block_start blocks)
    fewer a e f = omega (arith, e, f)

-- The operations of a cache, on a file that does not change.
pub data CacheCall : Type 0 where
  read prefetch : ℕ → ℕ → CacheCall
  flush : CacheCall

module _ (lib : RbEraseTree CacheBlock) (file : File) where
  abbrev pub call_cache : MemoryCache → CacheCall → MemoryCache
  call_cache cache (read offset size) = (cache_read lib file cache offset size).0
  call_cache cache (prefetch offset size) = (cache_prefetch lib file cache offset size).0
  call_cache cache flush = (cache_flush cache).0

  abbrev pub run_cache : MemoryCache → List CacheCall → MemoryCache
  run_cache cache [] = cache
  run_cache cache (call ∷ calls) = run_cache (call_cache cache call) calls

-- What the callers ask for at once.
abbrev pub IsCall : CacheCall → Type 0
IsCall (read offset size) = size ≤ 2 ^ 63
IsCall (prefetch offset size) = Unit
IsCall flush = Unit

module _ (contents : List ℕ) (lib : RbEraseTree CacheBlock) (file : File)
    (honest : IsHonest contents file) where
  flush-IsCache :
      (cache : MemoryCache) → IsCache contents cache → IsCache contents (cache_flush cache).0
  unfolding cache_flush
  flush-IsCache cache h =
      let empty = flush_list-nil (in_order cache.cache_tree) cache.lru_list h.same_blocks in
      record {
        size = h.size;
        size_lt = h.size_lt;
        blocks = tt;
        strict = tt;
        same_blocks = λ o. rw empty refl;
        counted = rw empty refl;
        counted_tree = refl;
        bounded = omega arith;
        max_blocks = h.max_blocks;
        recent = rw empty tt;
        past = rw empty tt;
      }

  call-IsCache :
      (cache : MemoryCache) (call : CacheCall)
      → IsCache contents cache
      → IsCall call
      → IsCache contents (call_cache lib file cache call)
  unfolding cache_prefetch
  call-IsCache cache (read offset size) h small =
      cache_read-IsCache contents lib file honest cache offset size h small
  call-IsCache cache (prefetch offset size) h small =
      prefetch_loop-IsCache contents lib file honest _ cache offset _ h
  call-IsCache cache flush h small = flush-IsCache cache h

  run-IsCache :
      (calls : List CacheCall) (cache : MemoryCache)
      → IsCache contents cache
      → All IsCall calls
      → IsCache contents (run_cache lib file cache calls)
  run-IsCache [] cache h small = h
  run-IsCache (call ∷ calls) cache h small =
      run-IsCache calls _ (call-IsCache cache call h small.0) small.1

  -- The cache that `cache_init` makes of a file of less than 2^63 bytes is well formed, and stays so
  -- in every sequence of reads of at most 2^63 bytes, prefetches and flushes, whatever memory and
  -- calls of `lseek` and `read` fail: a block has the bytes of the file, there are at most 1024, and
  -- the list of recent use has each of them once, in the order of the accesses.
  pub run_cache-IsCache :
      (calloced : Bool) (calls : List CacheCall)
      → length contents < 2 ^ 63
      → All IsCall calls
      → OrNone
          (λ cache.
            IsCache contents (run_cache lib file cache calls)
            × ((run_cache lib file cache calls).current_blocks ≤ 1024))
          (cache_init calloced (length contents))
  unfolding cache_init
  run_cache-IsCache false calls small asked = tt
  run_cache-IsCache true calls small asked =
      let fresh : IsCache contents (record {
        cache_tree = leaf;
        lru_list = [];
        current_blocks = 0;
        max_blocks = max_cache_blocks;
        file_size = length contents;
        access_counter = 0;
      }) =
        record {
          size = refl;
          size_lt = small;
          blocks = tt;
          strict = tt;
          same_blocks = λ o. refl;
          counted = refl;
          counted_tree = refl;
          bounded = omega arith;
          max_blocks = refl;
          recent = tt;
          past = tt;
        } in
      let h = run-IsCache calls _ fresh asked in (h, omega (arith, h.bounded, h.max_blocks))
