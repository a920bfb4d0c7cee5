-- ===== src/Mempool/Lifecycle.antt =====
-- Creation, the order of allocation, and destruction.
use profiling.Prelude.{
  ℕ, zero, suc, ◌+◌, ◌<◌, ◌≡◌, refl, sym, ap, ◌∙◌, lt→ltb, Option, none, some, List, [], ◌∷◌, ◌++◌,
  arith, length, length-append, get_elem?, set, take, take-all, append_assoc, append-nil,
  get_elem?-set_self,
}
use profiling.Mempool.{
  Mempool, available, fill_pool, created, mempool_create, mempool_destroy, mempool_alloc,
  mempool_free,
}
use profiling.Mempool.Conservation.{IsMempool}

-- The chunks before the first NULL.
abbrev pub gotten : List (Option ℕ) → List ℕ
gotten [] = []
gotten (none ∷ rest) = []
gotten (some chunk ∷ rest) = chunk ∷ gotten rest

-- What creation may give, where `malloc` returns `chunks`.
abbrev pub IsCreated : List (Option ℕ) → Option Mempool × List ℕ → Type 0
IsCreated chunks (none, freed) = (freed ≡ gotten chunks) × (length (gotten chunks) < length chunks)
IsCreated chunks (some mp, freed) =
    IsMempool mp
    × (available mp ≡ gotten chunks)
    × (length (gotten chunks) ≡ length chunks)
    × (freed ≡ [])

abbrev Filled : List ℕ → List (Option ℕ) → Option (List ℕ) × List ℕ → Type 0
Filled got chunks (none, freed) =
    (freed ≡ got ++ gotten chunks) × (length (gotten chunks) < length chunks)
Filled got chunks (some pool, freed) =
    (pool ≡ got ++ gotten chunks) × (length (gotten chunks) ≡ length chunks) × (freed ≡ [])

Filled-more :
    (got : List ℕ) (chunk : ℕ) (rest : List (Option ℕ)) (r : Option (List ℕ) × List ℕ)
    → Filled (got ++ (chunk ∷ [])) rest r
    → Filled got (some chunk ∷ rest) r
Filled-more got chunk rest (none, freed) (e, short) =
    (e ∙ append_assoc got (chunk ∷ []) (gotten rest), omega arith)
Filled-more got chunk rest (some pool, freed) (e, all, none_freed) =
    (e ∙ append_assoc got (chunk ∷ []) (gotten rest), omega arith, none_freed)

fill_pool-Filled :
    (chunks : List (Option ℕ)) (got : List ℕ) → Filled got chunks (fill_pool got chunks)
unfolding fill_pool
fill_pool-Filled [] got = (sym (append-nil got), refl, refl)
fill_pool-Filled (none ∷ rest) got = (sym (append-nil got), omega arith)
fill_pool-Filled (some chunk ∷ rest) got =
    Filled-more got chunk rest _ (fill_pool-Filled rest (got ++ (chunk ∷ [])))

created-IsCreated :
    (chunk_size : ℕ) (chunks : List (Option ℕ)) (r : Option (List ℕ) × List ℕ)
    → Filled [] chunks r
    → IsCreated chunks (created (length chunks) chunk_size r)
unfolding created
created-IsCreated chunk_size chunks (none, freed) h = h
created-IsCreated chunk_size chunks (some pool, freed) (e, all, none_freed) =
    let size : length pool ≡ length chunks = ap length e ∙ all in
    (
      record { count_le = omega arith; slots = size },
      take-all (length chunks) pool (omega (arith, size)) ∙ e,
      all,
      none_freed,
    )

-- mempool_create gives a well-formed pool with all its chunks available, if malloc returns one for
-- each slot; if malloc returns NULL for one, it returns NULL and frees exactly the chunks before.
pub mempool_create-IsCreated :
    (chunk_size : ℕ) (chunks : List (Option ℕ))
    → IsCreated chunks (mempool_create chunk_size chunks)
unfolding mempool_create
mempool_create-IsCreated chunk_size chunks =
    created-IsCreated chunk_size chunks (fill_pool [] chunks) (fill_pool-Filled chunks [])

alloc_at :
    (mp : Mempool) (n : ℕ) (malloced : Option ℕ)
    → mp.count ≡ suc n
    → mempool_alloc mp malloced ≡ (get_elem? mp.pool n, record mp { count = n })
unfolding mempool_alloc
alloc_at mp n malloced e = rw (e, mempool_alloc) refl

free_at :
    (mp : Mempool) (chunk : ℕ)
    → mp.count < mp.pool_size
    → mempool_free mp (some chunk)
      ≡ (record mp { pool = set mp.pool mp.count chunk; count = mp.count + 1 }, [])
unfolding mempool_free
free_at mp chunk h = rw (lt→ltb mp.count mp.pool_size h) refl

take-set : (xs : List ℕ) (n v : ℕ) → take n (set xs n v) ≡ take n xs
take-set [] n v = refl
take-set (x ∷ xs) zero v = refl
take-set (x ∷ xs) (suc n) v = ap (λ r. x ∷ r) (take-set xs n v)

-- In a well-formed pool that is not full a chunk that is given back is the next one handed out, and
-- then the same chunks are available as before.
mempool_alloc-mempool_free :
    (mp : Mempool) (chunk : ℕ) (malloced : Option ℕ)
    → IsMempool mp
    → mp.count < mp.pool_size
    → ((mempool_alloc (mempool_free mp (some chunk)).0 malloced).0 ≡ some chunk)
      × (available (mempool_alloc (mempool_free mp (some chunk)).0 malloced).1 ≡ available mp)
mempool_alloc-mempool_free mp chunk malloced w h =
    let mp' = record mp { pool = set mp.pool mp.count chunk; count = mp.count + 1 } in
    rw (free_at mp chunk h, alloc_at mp' mp.count malloced (omega arith))
      (
        get_elem?-set_self mp.pool mp.count chunk (omega (arith, w.slots)),
        take-set mp.pool mp.count chunk,
      )

abbrev pub full_pool : ℕ → List ℕ → Mempool
full_pool chunk_size pool = record {
  pool = pool;
  pool_size = length pool;
  chunk_size = chunk_size;
  count = length pool;
}

module _ (a b : ℕ) where
  last_slot : (xs : List ℕ) → get_elem? (xs ++ (a ∷ b ∷ [])) (suc (length xs)) ≡ some b
  last_slot [] = refl
  last_slot (x ∷ xs) = last_slot xs

  slot_before : (xs : List ℕ) → get_elem? (xs ++ (a ∷ b ∷ [])) (length xs) ≡ some a
  slot_before [] = refl
  slot_before (x ∷ xs) = slot_before xs

  overwritten : (xs : List ℕ) → set (xs ++ (a ∷ b ∷ [])) (length xs) b ≡ xs ++ (b ∷ b ∷ [])
  overwritten [] = refl
  overwritten (x ∷ xs) = ap (λ r. x ∷ r) (overwritten xs)

  -- With two chunks out of a full pool and the first of them given back, mempool_destroy frees that
  -- chunk twice, and not the other one, which is still out.
  mempool_destroy_stale :
      (xs : List ℕ) (chunk_size : ℕ)
      → let mp = full_pool chunk_size (xs ++ (a ∷ b ∷ [])) in
        let mp1 = (mempool_alloc mp none).1 in
        let mp2 = (mempool_alloc mp1 none).1 in
        ((mempool_alloc mp none).0 ≡ some b)
        × ((mempool_alloc mp1 none).0 ≡ some a)
        × (mempool_destroy (mempool_free mp2 (some b)).0 ≡ xs ++ (b ∷ b ∷ []))
  unfolding mempool_destroy
  mempool_destroy_stale xs chunk_size =
      let mp = full_pool chunk_size (xs ++ (a ∷ b ∷ [])) in
      let size : length (xs ++ (a ∷ b ∷ [])) ≡ suc (suc (length xs)) =
        omega (arith, length-append xs (a ∷ b ∷ [])) in
      let size' : length (xs ++ (b ∷ b ∷ [])) ≡ suc (suc (length xs)) =
        omega (arith, length-append xs (b ∷ b ∷ [])) in
      let mp1 = record mp { count = suc (length xs) } in
      let mp2 = record mp { count = length xs } in
      rw
        (
          alloc_at mp (suc (length xs)) none size,
          alloc_at mp1 (length xs) none refl,
          free_at mp2 b (omega (arith, size)),
        )
        (
          last_slot xs,
          slot_before xs,
          rw (overwritten xs) (
              take-all (length (xs ++ (a ∷ b ∷ []))) (xs ++ (b ∷ b ∷ []))
                (omega (arith, size, size'))),
        )
