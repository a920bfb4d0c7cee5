-- ===== src/Mempool/Tests.antt =====
-- A pool of three chunks, and the theorems at it.
use profiling.Prelude.{times, ◌+◌, ◌≡◌, refl, none, some, List, [], ◌∷◌, arith}
use profiling.Mempool.{Mempool, available, mempool_create}
use profiling.Mempool.Conservation.{
  IsMempool, Call, alloc, free, run, comes_in, goes_out, run_conserves,
}
use profiling.Mempool.Lifecycle.{full_pool}

abbrev pool : Mempool
pool = record { pool = 100 ∷ 200 ∷ 300 ∷ []; pool_size = 3; chunk_size = 64; count = 2 }

pool-IsMempool : IsMempool pool
pool-IsMempool = record { count_le = omega arith; slots = refl }

creates :
    (mempool_create 64 (some 100 ∷ some 200 ∷ []) ≡ (some (full_pool 64 (100 ∷ 200 ∷ [])), []))
    × (mempool_create 64 (some 100 ∷ none ∷ some 300 ∷ []) ≡ (none, 100 ∷ []))
unfolding mempool_create
creates = (refl, refl)

-- The pool runs empty, and gets one chunk more than it holds.
abbrev calls : List Call
calls =
    alloc none
    ∷ alloc none
    ∷ alloc (some 400)
    ∷ free (some 400)
    ∷ free (some 100)
    ∷ free (some 200)
    ∷ free (some 500)
    ∷ []

run_conserves_example :
    IsMempool (run pool calls)
    × (times 400 (available pool) + comes_in 400 pool calls
        ≡ times 400 (available (run pool calls)) + goes_out 400 pool calls)
run_conserves_example = run_conserves calls pool 400 pool-IsMempool
