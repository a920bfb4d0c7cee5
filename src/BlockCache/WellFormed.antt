-- ===== src/BlockCache/WellFormed.antt =====
-- When a cache of a file is well formed, and that what its operations do to the tree and to the
-- list of recent use leaves it so.
use mathlib.Core.Path.{subst}
use profiling.Prelude.{
  ℕ, suc, ◌+◌, ◌-◌, ◌<◌, ◌≤◌, ◌%◌, ◌^◌, ◌*◌, ◌/◌, ◌≡◌, ◌≢◌, refl, sym, ap, false, Bool-cases, inl,
  inr, Option, none, some, List, [], ◌∷◌, ◌++◌, arith, ◌==◌, length, take, drop, replicate, times,
  All, All-map,
}
use profiling.Tree.{in_order}
use profiling.Tree.Order.{IsStrict, IsSorted}
use profiling.Tree.Search.{first_holding, holds, IsDisjoint, interval_search-first_holding}
use profiling.BlockCache.{
  max_cache_blocks, CacheBlock, LruNode, MemoryCache, cache_block_size, block_start, block_end,
  find_cache_block,
}
use profiling.BlockCache.Operations.{place_of, list_del}
use profiling.BlockCache.Remove.{remove_key, keys}

abbrev pub node_offset : LruNode → ℕ
node_offset entry = entry.offset

abbrev pub node_access : LruNode → ℕ
node_access entry = entry.last_access

-- What a block holds of a part of the file.
abbrev pub padded : List ℕ → List ℕ
padded bytes = bytes ++ replicate (cache_block_size - length bytes) 0

-- A block that stands for its part of the file.
abbrev pub IsBlock : List ℕ → CacheBlock → Type 0
IsBlock contents block =
    (block.offset % cache_block_size ≡ 0)
    × (block.offset < length contents)
    × (block.block_data ≡ padded (take cache_block_size (drop block.offset contents)))

-- The cache of a file: blocks with its bytes, in the tree by their offsets, each once; the list of
-- recent use has the same blocks, in the order of the accesses.
pub record IsCache (contents : List ℕ) (cache : MemoryCache) : Type 0 where
  pub size : cache.file_size ≡ length contents
  pub size_lt : length contents < 2 ^ 63
  pub blocks : All (IsBlock contents) (in_order cache.cache_tree)
  pub strict : IsStrict block_start (in_order cache.cache_tree)
  pub same_blocks :
      (o : ℕ)
      → times o (keys node_offset cache.lru_list)
        ≡ times o (keys block_start (in_order cache.cache_tree))
  pub counted : cache.current_blocks ≡ length cache.lru_list
  pub counted_tree : cache.current_blocks ≡ length (in_order cache.cache_tree)
  pub bounded : cache.current_blocks ≤ cache.max_blocks
  pub max_blocks : cache.max_blocks ≡ max_cache_blocks
  pub recent : IsStrict node_access cache.lru_list
  pub past : All (λ entry. node_access entry ≤ cache.access_counter) cache.lru_list

pub list_del-remove_key :
    (o : ℕ) (entries : List LruNode) → list_del o entries ≡ remove_key node_offset o entries
unfolding list_del
list_del-remove_key o [] = refl
list_del-remove_key o (entry ∷ entries) = let e = list_del-remove_key o entries in rw e refl

pub erased-remove_key :
    (o : ℕ) (blocks : List CacheBlock)
    → take (place_of o blocks) blocks ++ drop (suc (place_of o blocks)) blocks
      ≡ remove_key block_start o blocks
unfolding place_of
erased-remove_key o [] = refl
erased-remove_key o (block ∷ blocks) = elim (Bool-cases (block.offset == o)) [
  | inl e ↦ rw e refl
  | inr e ↦ rw e (ap (λ r. block ∷ r) (erased-remove_key o blocks))
]

module _ (contents : List ℕ) (size_lt : length contents < 2 ^ 63) where
  block_end-later :
      (x y : CacheBlock)
      → IsBlock contents x
      → IsBlock contents y
      → x.offset < y.offset
      → block_end x ≤ y.offset
  block_end-later x y hx hy h =
      let ax : x.offset % 4096 ≡ 0 = hx.0 in
      let ay : y.offset % 4096 ≡ 0 = hy.0 in let lx = hx.1 in omega arith

  block_end_self : (x : CacheBlock) → IsBlock contents x → x.offset + 4096 ≡ block_end x
  block_end_self x hx = let lx = hx.1 in omega arith

  All-later :
      (x : CacheBlock) (xs : List CacheBlock)
      → IsBlock contents x
      → All (IsBlock contents) xs
      → All (λ y. x.offset < y.offset) xs
      → All (λ y. block_end x ≤ y.offset) xs
  All-later x [] hx h later = tt
  All-later x (y ∷ ys) hx h later =
      (block_end-later x y hx h.0 later.0, All-later x ys hx h.1 later.1)

  blocks-IsDisjoint :
      (xs : List CacheBlock)
      → All (IsBlock contents) xs
      → IsStrict block_start xs
      → IsDisjoint block_start block_end xs
  blocks-IsDisjoint [] h s = tt
  blocks-IsDisjoint (x ∷ xs) h s =
      let e = block_end_self x h.0 in
      (omega arith, All-later x xs h.0 h.1 s.0, blocks-IsDisjoint xs h.1 s.1)

-- What a search for an offset may find among blocks.
abbrev pub Found : List ℕ → ℕ → List CacheBlock → Option CacheBlock → Type 0
Found contents a xs none = All (λ block. holds block_start block_end a block ≡ false) xs
Found contents a xs (some block) =
    IsBlock contents block
    × (block.offset ≤ a)
    × (a < block.offset + cache_block_size)
    × (0 < times block.offset (keys block_start xs))

module _ (contents : List ℕ) (size_lt : length contents < 2 ^ 63) where
  Found-later :
      (a : ℕ) (x : CacheBlock) (xs : List CacheBlock) (found : Option CacheBlock)
      → holds block_start block_end a x ≡ false
      → Found contents a xs found
      → Found contents a (x ∷ xs) found
  Found-later a x xs none e h = (e, h)
  Found-later a x xs (some block) e h = (h.0, h.1, h.2, omega (arith, h.3))

  first_holding-Found :
      (a : ℕ) (xs : List CacheBlock)
      → All (IsBlock contents) xs
      → Found contents a xs (first_holding block_start block_end a xs)
  first_holding-Found a [] h = tt
  first_holding-Found a (x ∷ xs) h = elim (Bool-cases (holds block_start block_end a x)) [
    | inl e ↦
        let end = block_end_self contents size_lt x h.0 in
        let lower : x.offset ≤ a = ground arith in
        let upper : a < block_end x = ground arith in rw e (h.0, lower, omega arith, ground arith)
    | inr e ↦ rw e (Found-later a x xs _ e (first_holding-Found a xs h.1))
  ]

  pub strict-IsSorted : (xs : List CacheBlock) → IsStrict block_start xs → IsSorted block_start xs
  strict-IsSorted [] s = tt
  strict-IsSorted (x ∷ xs) s = (
    All-map (λ y. x.offset < y.offset) (λ y. x.offset ≤ y.offset) (λ y h. omega arith) xs s.0,
    strict-IsSorted xs s.1,
  )

  -- The offset of a new block is that of no block that does not hold the address.
  pub apart :
      (a : ℕ) (xs : List CacheBlock)
      → All (IsBlock contents) xs
      → All (λ block. holds block_start block_end a block ≡ false) xs
      → All (λ block. block.offset ≢ a / cache_block_size * cache_block_size) xs
  apart a [] h missed = tt
  apart a (x ∷ xs) h missed =
      let end = block_end_self contents size_lt x h.0 in
      (λ e. not_here x end missed.0 e, apart a xs h.1 missed.1)
    where
      not_here :
          (x : CacheBlock)
          → x.offset + 4096 ≡ block_end x
          → holds block_start block_end a x ≡ false
          → x.offset ≢ a / cache_block_size * cache_block_size
      not_here x end missed e =
          let lower : x.offset ≤ a = omega arith in
          let upper : a < block_end x = omega arith in ground arith

pub find_cache_block-Found :
    (contents : List ℕ) (cache : MemoryCache) (a : ℕ)
    → IsCache contents cache
    → Found contents a (in_order cache.cache_tree) (find_cache_block cache a)
unfolding find_cache_block
find_cache_block-Found contents cache a h =
    subst (Found contents a (in_order cache.cache_tree))
      (sym (
        interval_search-first_holding block_start block_end a cache.cache_tree
          (blocks-IsDisjoint contents h.size_lt _ h.blocks h.strict)))
      (first_holding-Found contents h.size_lt a _ h.blocks)
