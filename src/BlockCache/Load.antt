-- ===== src/BlockCache/Load.antt =====
-- A cache stays well formed when it gives up a block, takes a new one from the file, and notes the
-- use of one.
use mathlib.Core.Path.{subst}
use profiling.Prelude.{
  ℕ, suc, ◌+◌, ◌-◌, ◌<◌, ◌≤◌, ◌≡◌, ◌≢◌, refl, ap, ◌∙◌, some, List, [], ◌∷◌, ◌++◌, arith, length,
  length-append, times, All, All-map, All-append,
}
use profiling.Tree.{in_order}
use profiling.Tree.Order.{IsStrict}
use profiling.Tree.Insert.{insert_node-insert_after}
use profiling.BlockCache.{CacheBlock, LruNode, MemoryCache, RbEraseTree, block_start}
use profiling.BlockCache.Operations.{
  place_of, evict_first, touch, add_block, insert_cache_block, list_add_tail,
}
use profiling.BlockCache.Remove
use profiling.BlockCache.Remove.{remove_key, keys}
use profiling.BlockCache.WellFormed.{
  IsCache, IsBlock, node_offset, node_access, list_del-remove_key, erased-remove_key,
  strict-IsSorted,
}

-- A longer clock leaves the accesses in the past.
pub past_later :
    (t : ℕ) (entries : List LruNode)
    → All (λ entry. node_access entry ≤ t) entries
    → All (λ entry. node_access entry ≤ t + 1) entries
past_later t entries h = All-map _ _ (λ entry (p : node_access entry ≤ t). omega arith) entries h

-- What is used now comes behind all that was used before.
append-IsStrict :
    (t : ℕ) (o : ℕ) (entries : List LruNode)
    → IsStrict node_access entries
    → All (λ entry. node_access entry ≤ t) entries
    → IsStrict node_access (entries ++ (record { offset = o; last_access = t + 1 } ∷ []))
append-IsStrict t o [] s h = (tt, tt)
append-IsStrict t o (entry ∷ entries) s h =
    (All-append _ entries _ s.0 (omega (arith, h.0), tt), append-IsStrict t o entries s.1 h.1)

pub times-add_tail :
    (a : ℕ) (entries : List LruNode) (entry : LruNode)
    → times a (keys node_offset (entries ++ (entry ∷ [])))
      ≡ times a (node_offset entry ∷ keys node_offset entries)
times-add_tail a [] entry = refl
times-add_tail a (x ∷ entries) entry = omega (arith, times-add_tail a entries entry)

module _ (contents : List ℕ) where
  pub touch-IsCache :
      (cache : MemoryCache) (block : CacheBlock)
      → IsCache contents cache
      → 0 < times block.offset (keys node_offset cache.lru_list)
      → IsCache contents (touch cache block)
  unfolding touch list_add_tail
  touch-IsCache cache block h member =
      let kept = remove_key node_offset block.offset cache.lru_list in
      let e = list_del-remove_key block.offset cache.lru_list in
      let long = Remove.length-remove_key node_offset block.offset cache.lru_list member in
      let past' = Remove.remove_key-All node_offset _ block.offset cache.lru_list h.past in
      record {
        size = h.size;
        size_lt = h.size_lt;
        blocks = h.blocks;
        strict = h.strict;
        same_blocks = λ o. rw e (
            times-add_tail o kept _
            ∙ Remove.times-remove_key node_offset o block.offset cache.lru_list member
            ∙ h.same_blocks o);
        counted = rw (e, length-append kept) (omega (arith, long, h.counted));
        counted_tree = h.counted_tree;
        bounded = h.bounded;
        max_blocks = h.max_blocks;
        recent = rw e (
            append-IsStrict cache.access_counter block.offset kept
              (Remove.remove_key-IsStrict node_offset node_access block.offset cache.lru_list
                h.recent)
              past');
        past =
            rw e
              (All-append _ kept _ (past_later cache.access_counter kept past') (omega arith, tt));
      }

  module _ (lib : RbEraseTree CacheBlock) where
    pub evict_first-IsCache :
        (cache : MemoryCache) (entries : List LruNode)
        → IsCache contents cache
        → cache.lru_list ≡ entries
        → IsCache contents (evict_first lib cache entries)
          × ((evict_first lib cache entries).current_blocks
              < (evict_first lib cache entries).max_blocks)
    unfolding evict_first
    evict_first-IsCache cache [] h e = (
      h,
      let long : cache.current_blocks ≡ 0 = h.counted ∙ ap length e in omega (arith, h.max_blocks),
    )
    evict_first-IsCache cache (lru_block ∷ entries) h e =
        let o = lru_block.offset in
        let bs = in_order cache.cache_tree in
        let kept : in_order (lib.rb_erase cache.cache_tree (place_of o bs))
            ≡ remove_key block_start o bs =
          lib.in_order-rb_erase _ _ ∙ erased-remove_key o bs in
        let used : times o (keys node_offset cache.lru_list)
            ≡ times o (o ∷ keys node_offset entries) =
          ap (λ l. times o (keys node_offset l)) e in
        let member : 0 < times o (keys block_start bs) = ground (arith, used, h.same_blocks o) in
        let long = Remove.length-remove_key block_start o bs member in
        let longer : cache.current_blocks ≡ suc (length entries) = h.counted ∙ ap length e in
        (
          record {
            size = h.size;
            size_lt = h.size_lt;
            blocks = rw kept (Remove.remove_key-All block_start _ o bs h.blocks);
            strict = rw kept (Remove.remove_key-IsStrict block_start block_start o bs h.strict);
            same_blocks =
                λ a. rw kept (same_rest cache entries bs lru_block a e (h.same_blocks a) member);
            counted = omega (arith, longer);
            counted_tree = rw kept (omega (arith, long, h.counted_tree));
            bounded = omega (arith, h.bounded);
            max_blocks = h.max_blocks;
            recent = (subst (IsStrict node_access) e h.recent).1;
            past = (subst (All (λ entry. node_access entry ≤ cache.access_counter)) e h.past).1;
          },
          omega (arith, longer, h.bounded),
        )
      where
        same_rest :
            (cache : MemoryCache) (entries : List LruNode) (bs : List CacheBlock) (b : LruNode)
            (a : ℕ)
            → cache.lru_list ≡ b ∷ entries
            → times a (keys node_offset cache.lru_list) ≡ times a (keys block_start bs)
            → 0 < times b.offset (keys block_start bs)
            → times a (keys node_offset entries)
              ≡ times a (keys block_start (remove_key block_start b.offset bs))
        same_rest cache entries bs b a e same member =
            let used : times a (keys node_offset cache.lru_list)
                ≡ times a (b.offset ∷ keys node_offset entries) =
              ap (λ l. times a (keys node_offset l)) e in
            let left = Remove.times-remove_key block_start a b.offset bs member in
            omega (arith, used, left, same)

    pub evict_first-All :
        (P : CacheBlock → Type 0) (cache : MemoryCache) (entries : List LruNode)
        → All P (in_order cache.cache_tree)
        → All P (in_order (evict_first lib cache entries).cache_tree)
    unfolding evict_first
    evict_first-All P cache [] h = h
    evict_first-All P cache (lru_block ∷ entries) h =
        let bs = in_order cache.cache_tree in
        rw (lib.in_order-rb_erase cache.cache_tree _, erased-remove_key lru_block.offset bs)
          (Remove.remove_key-All block_start P lru_block.offset bs h)

    -- A block that is in no node yet.
    abbrev pub IsNew : MemoryCache → CacheBlock → Type 0
    IsNew cache block =
        IsBlock contents block
        × All (λ other. other.offset ≢ block.offset) (in_order cache.cache_tree)
        × (cache.current_blocks < cache.max_blocks)
        × All (λ entry. node_access entry ≤ cache.access_counter - 1) cache.lru_list
        × (0 < cache.access_counter)

    pub add_block-IsCache :
        (cache : MemoryCache) (block : CacheBlock)
        → IsCache contents cache
        → IsNew cache block
        → IsCache contents (add_block lib (some block, cache)).1
    unfolding add_block insert_cache_block list_add_tail
    add_block-IsCache cache block h new =
        let bs = in_order cache.cache_tree in
        let put =
          insert_node-insert_after block_start lib.tree cache.cache_tree block
            (strict-IsSorted contents h.size_lt bs h.strict) in
        let entry : LruNode = record {
          offset = block.offset;
          last_access = cache.access_counter;
        } in
        let now : cache.access_counter ≡ cache.access_counter - 1 + 1 = omega (arith, new.4) in
        record {
          size = h.size;
          size_lt = h.size_lt;
          blocks = rw put (Remove.All-insert_after block_start _ block bs new.0 h.blocks);
          strict = rw put (Remove.insert_after-IsStrict block_start block bs new.1 h.strict);
          same_blocks = λ o. rw put (
              let a = times-add_tail o cache.lru_list entry in
              let b = Remove.times-insert_after block_start o block bs in
              let c = h.same_blocks o in omega (arith, a, b, c));
          counted = rw (length-append cache.lru_list) (omega (arith, h.counted));
          counted_tree =
              rw (put, Remove.length-insert_after block_start block bs)
                (omega (arith, h.counted_tree));
          bounded = omega (arith, new.2);
          max_blocks = h.max_blocks;
          recent = rw now (
              append-IsStrict (cache.access_counter - 1) block.offset cache.lru_list h.recent
                new.3);
          past = All-append _ cache.lru_list _ h.past (omega arith, tt);
        }
