-- ===== src/BlockCache.antt =====
-- src/utils/elf_cache.c and include/elf_cache.h: a file read through blocks of 4096 bytes, the
-- least recently used of which is given up for a new one. What `calloc`, `lseek` and `read` return
-- is an argument. The caches and the buffers are not NULL.
pub mod Operations
pub mod Remove
pub mod WellFormed
pub mod Load
pub mod Fetch
pub mod Get
pub mod Read
pub mod Reliable
pub mod Keep
pub mod Manager
mod Tests
use Prim.Native.Nat.{min}
use profiling.Prelude.{
  ℕ, zero, suc, ◌≡◌, ◌+◌, ◌-◌, ◌*◌, ◌/◌, ◌%◌, ◌^◌, Bool, true, false, Option, none, some, List, [],
  ◌∷◌, ◌++◌, map, ltb, leb, ◌==◌, if◌then◌else◌, length, take, drop, replicate,
}
use profiling.Tree.{Tree, leaf, RbTree, in_order}
use profiling.Tree.Insert.{insert_node}
use profiling.Tree.Search.{interval_search}

abbrev pub cache_block_size : ℕ
cache_block_size = 4096

abbrev pub max_cache_blocks : ℕ
max_cache_blocks = 1024

-- A block is in the tree and in the list of recent use. The tree has its fields that stay as they
-- are, the list the one that changes; the offset tells which nodes are of one block.
pub record CacheBlock : Type 0 where
  pub offset : ℕ
  pub block_data : List ℕ

pub record LruNode : Type 0 where
  pub offset : ℕ
  pub last_access : ℕ

-- `fd` is in the argument for the file; `lru_list` begins at the head.
pub record MemoryCache : Type 0 where
  pub cache_tree : Tree CacheBlock
  pub lru_list : List LruNode
  pub current_blocks : ℕ
  pub max_blocks : ℕ
  pub file_size : ℕ
  pub access_counter : ℕ

-- What the calls return when `access_counter` has the value of the first argument: whether there is
-- memory for a block, whether the seek succeeds, the bytes read (`none` for an error).
pub record File : Type 0 where
  pub calloc : ℕ → Bool
  pub lseek : ℕ → ℕ → Bool
  pub read : ℕ → ℕ → ℕ → Option (List ℕ)

-- The functions of include/rbtree.h that the cache calls. A node is given by its place in the order.
pub record RbEraseTree (A : Type 0) : Type 0 where
  pub tree : RbTree A
  pub rb_erase : Tree A → ℕ → Tree A
  pub in_order-rb_erase :
      (t : Tree A) (i : ℕ)
      → in_order (rb_erase t i) ≡ take i (in_order t) ++ drop (suc i) (in_order t)

-- `none` is NULL; `calloced` is whether there is memory.
unfoldable pub cache_init : Bool → ℕ → Option MemoryCache
cache_init false file_size = none
cache_init true file_size = some (record {
  cache_tree = leaf;
  lru_list = [];
  current_blocks = 0;
  max_blocks = max_cache_blocks;
  file_size = file_size;
  access_counter = 0;
})

abbrev pub block_start : CacheBlock → ℕ
block_start block = block.offset

abbrev pub block_end : CacheBlock → ℕ
block_end block = (block.offset + cache_block_size) % 2 ^ 64

unfoldable pub find_cache_block : MemoryCache → ℕ → Option CacheBlock
unfolding interval_search
find_cache_block cache offset = interval_search block_start block_end offset cache.cache_tree

-- All of the bytes, or an error.
unfoldable pub whole : ℕ → Option (List ℕ) → Option (List ℕ)
whole size none = none
whole size (some bytes) = if length bytes == size then some bytes else none

unfoldable pub read_from_file : File → ℕ → ℕ → ℕ → Option (List ℕ)
unfolding whole
read_from_file file time offset size =
    if file.lseek time offset then whole size (file.read time offset size) else none

-- The rest of the block stays as `calloc` left it.
unfoldable pub filled_block : ℕ → Option (List ℕ) → Option CacheBlock
filled_block offset none = none
filled_block offset (some bytes) = some (record {
  offset = offset;
  block_data = bytes ++ replicate (cache_block_size - length bytes) 0;
})

-- The block, for an offset up to the size of the file, and the cache.
unfoldable pub create_cache_block : File → MemoryCache → ℕ → Option CacheBlock × MemoryCache
unfolding read_from_file filled_block
create_cache_block file cache offset =
    let time = cache.access_counter in
    let read_size =
      if ltb cache.file_size ((offset + cache_block_size) % 2 ^ 64)
      then cache.file_size - offset
      else cache_block_size in
    if file.calloc time
    then (
      filled_block offset (read_from_file file time offset read_size),
      record cache { access_counter = time + 1 },
    )
    else (none, cache)
