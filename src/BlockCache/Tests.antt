-- ===== src/BlockCache/Tests.antt =====
-- Runs of the block cache on small files, and uses of its theorems.
use profiling.Prelude.{
  ℕ, suc, ◌≤◌, ◌≡◌, ◌↔◌, refl, ap, true, false, some, List, [], ◌∷◌, ◌++◌, arith, length, take,
  drop, OrNone,
}
use profiling.Tree.{Tree, leaf, node, in_order, unbalanced}
use profiling.BlockCache.{CacheBlock, MemoryCache, File, RbEraseTree, cache_init, max_cache_blocks}
use profiling.BlockCache.Operations.{cache_read, cache_cleanup}
use profiling.BlockCache.WellFormed.{IsCache}
use profiling.BlockCache.Read.{cache_read-bytes}
use profiling.BlockCache.Reliable.{IsReliable, reliable-IsHonest, cache_read-ok}
use profiling.BlockCache.Keep.{read, prefetch, flush, run_cache, run_cache-IsCache}

abbrev of_list : {A : Type 0} → List A → Tree A
of_list [] = leaf
of_list (x ∷ xs) = node leaf x (of_list xs)

in_order-of_list : {A : Type 0} (xs : List A) → in_order (of_list xs) ≡ xs
in_order-of_list [] = refl
in_order-of_list (x ∷ xs) = ap (λ r. x ∷ r) (in_order-of_list xs)

-- A library that never rebalances and rebuilds the tree at each removal.
abbrev simple : RbEraseTree CacheBlock
simple = record {
  tree = unbalanced;
  rb_erase = λ t i. of_list (take i (in_order t) ++ drop (suc i) (in_order t));
  in_order-rb_erase = λ t i. in_order-of_list _;
}

-- A file of 5 bytes.
abbrev contents : List ℕ
contents = 7 ∷ 8 ∷ 9 ∷ 10 ∷ 11 ∷ []

abbrev file : File
file = record {
  calloc = λ t. true;
  lseek = λ t o. true;
  read = λ t o n. some (take n (drop o contents));
}

abbrev no_memory : File
no_memory = record file { calloc = λ t. false }

abbrev fresh : MemoryCache
fresh = record {
  cache_tree = leaf;
  lru_list = [];
  current_blocks = 0;
  max_blocks = max_cache_blocks;
  file_size = 5;
  access_counter = 0;
}

fresh-IsCache : IsCache contents fresh
fresh-IsCache = record {
  size = refl;
  size_lt = omega arith;
  blocks = tt;
  strict = tt;
  same_blocks = λ o. refl;
  counted = refl;
  counted_tree = refl;
  bounded = omega arith;
  max_blocks = refl;
  recent = tt;
  past = tt;
}

file-IsReliable : IsReliable contents file
file-IsReliable = record { memory = λ t. refl; seeks = λ t o h. refl; reads = λ t o n h. refl }

read_tail : (cache_read simple file fresh 2 100).1 ≡ 9 ∷ 10 ∷ 11 ∷ []
unfolding cache_read
read_tail = refl

read_fails : (cache_read simple no_memory fresh 2 100).2 ≡ false
unfolding cache_read
read_fails = refl

cache_read-bytes_example :
    let result = cache_read simple file fresh 2 2 in
    (result.1 ≡ take (length result.1) (drop 2 contents))
    × ((result.2 ≡ true) ↔ (result.1 ≡ take 2 (drop 2 contents)))
    × IsCache contents result.0
cache_read-bytes_example =
    cache_read-bytes contents simple file (reliable-IsHonest contents file file-IsReliable) fresh 2
      2 fresh-IsCache (omega arith) (omega arith)

cache_read-ok_example :
    let result = cache_read simple file fresh 2 2 in
    (result.2 ≡ true) × (result.1 ≡ take 2 (drop 2 contents))
cache_read-ok_example =
    cache_read-ok contents file file-IsReliable simple fresh 2 2 fresh-IsCache (omega arith)
      (omega arith)

-- Three blocks, of which the file has the first.
abbrev asked_size : ℕ
asked_size = 9000

run_cache-IsCache_example :
    OrNone
      (λ cache.
        IsCache contents
          (run_cache simple file cache (read 1 3 ∷ prefetch 0 5 ∷ flush ∷ read 4 1 ∷ []))
        × ((run_cache simple file cache
              (read 1 3 ∷ prefetch 0 5 ∷ flush ∷ read 4 1 ∷ [])).current_blocks
            ≤ 1024))
      (cache_init true (length contents))
run_cache-IsCache_example =
    run_cache-IsCache contents simple file (reliable-IsHonest contents file file-IsReliable) true
      (read 1 3 ∷ prefetch 0 5 ∷ flush ∷ read 4 1 ∷ []) (omega arith)
      (omega arith, (tt, (tt, (omega arith, tt))))

-- One block, in use.
abbrev used : MemoryCache
used = (cache_read simple file fresh 0 5).0

used-IsCache : IsCache contents used
used-IsCache =
    (cache_read-bytes contents simple file (reliable-IsHonest contents file file-IsReliable) fresh 0
      5 fresh-IsCache (omega arith) (omega arith)).2

freed_twice : cache_cleanup used ≡ 0 ∷ 0 ∷ []
unfolding cache_read cache_cleanup
freed_twice = refl
