-- ===== src/Mempool.antt =====
-- src/utils/mempool.c: the pool of the sample buffers. A chunk is its address; what `malloc`
-- returns is an argument, `none` for NULL, and what is given to `free` is part of the result. The
-- lock makes each call atomic.
pub mod Conservation
pub mod Lifecycle
mod Tests
use profiling.Prelude.{
  ℕ, zero, suc, ◌+◌, ◌-◌, Option, none, some, List, [], ◌∷◌, ◌++◌, ltb, if◌then◌else◌, length,
  get_elem?, set, take,
}

-- The stack of the free chunks is the first `count` slots of `pool`.
pub record Mempool : Type 0 where
  pub pool : List ℕ
  pub pool_size : ℕ
  pub chunk_size : ℕ
  pub count : ℕ

abbrev pub available : Mempool → List ℕ
available mp = take mp.count mp.pool

-- The loop over the chunks: what `malloc` returned so far is `got`; NULL frees it.
unfoldable pub fill_pool : List ℕ → List (Option ℕ) → Option (List ℕ) × List ℕ
fill_pool got [] = (some got, [])
fill_pool got (none ∷ rest) = (none, got)
fill_pool got (some chunk ∷ rest) = fill_pool (got ++ (chunk ∷ [])) rest

unfoldable pub created : ℕ → ℕ → Option (List ℕ) × List ℕ → Option Mempool × List ℕ
created pool_size chunk_size (none, freed) = (none, freed)
created pool_size chunk_size (some pool, freed) = (
  some (record { pool = pool; pool_size = pool_size; chunk_size = chunk_size; count = pool_size }),
  freed,
)

-- With memory for the pool itself; `chunks` is what the calls of `malloc` for the chunks return,
-- one for each slot. The pool or NULL, and the chunks freed.
unfoldable pub mempool_create : ℕ → List (Option ℕ) → Option Mempool × List ℕ
unfolding fill_pool created
mempool_create chunk_size chunks = created (length chunks) chunk_size (fill_pool [] chunks)

-- The chunks that are freed.
unfoldable pub mempool_destroy : Mempool → List ℕ
mempool_destroy mp = take mp.pool_size mp.pool

-- The chunk, or NULL; `malloced` is what `malloc` returns, if it is called.
unfoldable pub mempool_alloc : Mempool → Option ℕ → Option ℕ × Mempool
mempool_alloc mp malloced = elim mp.count [
  | zero ↦ (malloced, mp)
  | suc count ↦ (get_elem? mp.pool count, record mp { count = count })
]

-- The chunks that are freed come second; `none` is NULL.
unfoldable pub mempool_free : Mempool → Option ℕ → Mempool × List ℕ
mempool_free mp none = (mp, [])
mempool_free mp (some chunk) =
    if ltb mp.count mp.pool_size
    then (record mp { pool = set mp.pool mp.count chunk; count = mp.count + 1 }, [])
    else (mp, chunk ∷ [])
