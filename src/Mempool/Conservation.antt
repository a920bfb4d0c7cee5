-- ===== src/Mempool/Conservation.antt =====
-- No chunk is lost or handed out twice, in whatever order the threads call the pool.
use profiling.Prelude.{
  times, ℕ, zero, suc, ◌+◌, ◌≤◌, ◌<◌, ◌≡◌, refl, ◌∙◌, Bool-cases, Nat-cases, ltb→lt, inl, inr,
  Option, none, some, List, [], ◌∷◌, arith, ltb, ◌==◌, if◌then◌else◌, length, length-set, get_elem?,
  set, take,
}
use profiling.Mempool.{Mempool, available, mempool_alloc, mempool_free}

pub record IsMempool (mp : Mempool) : Type 0 where
  pub count_le : mp.count ≤ mp.pool_size
  pub slots : length mp.pool ≡ mp.pool_size

abbrev pub times? : ℕ → Option ℕ → ℕ
times? a none = 0
times? a (some x) = if x == a then 1 else 0

times-take-suc :
    (a n : ℕ) (xs : List ℕ)
    → times a (take (suc n) xs) ≡ times a (take n xs) + times? a (get_elem? xs n)
times-take-suc a zero [] = refl
times-take-suc a zero (x ∷ xs) = omega arith
times-take-suc a (suc n) [] = refl
times-take-suc a (suc n) (x ∷ xs) = omega (arith, times-take-suc a n xs)

times-take-set :
    (a x n : ℕ) (xs : List ℕ)
    → n < length xs
    → times a (take (suc n) (set xs n x)) ≡ times a (take n xs) + times? a (some x)
times-take-set a x n [] h = absurd (omega arith)
times-take-set a x zero (y ∷ xs) h = omega arith
times-take-set a x (suc n) (y ∷ xs) h = omega (arith, times-take-set a x n xs (omega arith))

-- A call by some thread: an allocation, with what `malloc` returns if it is called, or a chunk, or
-- NULL, that is given back.
pub data Call : Type 0 where
  alloc : Option ℕ → Call
  free : Option ℕ → Call

-- The pool after a call, the chunk handed out, and the chunks given to `free`.
abbrev pub next : Mempool → Call → Mempool × Option ℕ × List ℕ
next mp (alloc malloced) = let (chunk, mp') = mempool_alloc mp malloced in (mp', chunk, [])
next mp (free chunk) = let (mp', freed) = mempool_free mp chunk in (mp', none, freed)

-- What `malloc` contributes: it is called where the pool is empty.
abbrev pub from_malloc : Mempool → Call → Option ℕ
from_malloc mp (alloc malloced) = elim mp.count [ zero ↦ malloced | suc n ↦ none ]
from_malloc mp (free chunk) = none

abbrev pub given_back : Call → Option ℕ
given_back (alloc malloced) = none
given_back (free chunk) = chunk

pub alloc_conserves :
    (mp : Mempool) (malloced : Option ℕ) (a : ℕ)
    → IsMempool mp
    → IsMempool (mempool_alloc mp malloced).1
      × (times a (available mp) + times? a (from_malloc mp (alloc malloced))
          ≡ times a (available (mempool_alloc mp malloced).1)
            + times? a (mempool_alloc mp malloced).0)
unfolding mempool_alloc
alloc_conserves mp malloced a w = elim (Nat-cases mp.count) [
  | inl empty ↦ rw (empty, mempool_alloc) (w, rw empty (omega arith))
  | inr (n, more) ↦
      rw (more, mempool_alloc)
        (
          record { count_le = omega (arith, w.count_le, more); slots = w.slots },
          omega (arith, times-take-suc a n mp.pool),
        )
]

pub free_conserves :
    (mp : Mempool) (chunk : Option ℕ) (a : ℕ)
    → IsMempool mp
    → IsMempool (mempool_free mp chunk).0
      × (times a (available mp) + times? a chunk
          ≡ times a (available (mempool_free mp chunk).0) + times a (mempool_free mp chunk).1)
unfolding mempool_free
free_conserves mp none a w = (w, refl)
free_conserves mp (some x) a w = elim (Bool-cases (ltb mp.count mp.pool_size)) [
  | inl room ↦
      let fits : mp.count < length mp.pool = omega (arith, w.slots, ltb→lt _ _ room) in
      let one_more : mp.count + 1 ≡ suc mp.count = omega arith in
      rw room (
        record { count_le = ground (arith, room); slots = length-set mp.pool mp.count x ∙ w.slots },
        rw one_more (omega (arith, times-take-set a x mp.count mp.pool fits)),
      )
  | inr full ↦ rw full (w, omega arith)
]

next_conserves :
    (mp : Mempool) (call : Call) (a : ℕ)
    → IsMempool mp
    → let (mp', chunk, freed) = next mp call in
      IsMempool mp'
      × (times a (available mp) + times? a (from_malloc mp call) + times? a (given_back call)
          ≡ times a (available mp') + times? a chunk + times a freed)
next_conserves mp (alloc malloced) a w =
    let (w', e) = alloc_conserves mp malloced a w in (w', omega (arith, e))
next_conserves mp (free chunk) a w =
    let (w', e) = free_conserves mp chunk a w in (w', omega (arith, e))

-- The pool after a sequence of calls.
abbrev pub run : Mempool → List Call → Mempool
run mp [] = mp
run mp (call ∷ calls) = run (next mp call).0 calls

-- How often an address comes into the pool during the calls, from `malloc` or from a client, and how
-- often it leaves it, to a client or to `free`.
abbrev pub comes_in : ℕ → Mempool → List Call → ℕ
comes_in a mp [] = 0
comes_in a mp (call ∷ calls) =
    times? a (from_malloc mp call) + times? a (given_back call) + comes_in a (next mp call).0 calls

abbrev pub goes_out : ℕ → Mempool → List Call → ℕ
goes_out a mp [] = 0
goes_out a mp (call ∷ calls) =
    let (mp', chunk, freed) = next mp call in times? a chunk + times a freed + goes_out a mp' calls

-- In every sequence of calls of mempool_alloc and mempool_free by any threads the pool stays well
-- formed, and for each address the chunks that were there and those that came in, from malloc or
-- given back, are as many as those that are there and those that went out, to a client or to free.
pub run_conserves :
    (calls : List Call) (mp : Mempool) (a : ℕ)
    → IsMempool mp
    → IsMempool (run mp calls)
      × (times a (available mp) + comes_in a mp calls
          ≡ times a (available (run mp calls)) + goes_out a mp calls)
run_conserves [] mp a w = (w, refl)
run_conserves (call ∷ calls) mp a w =
    let (w', e) = next_conserves mp call a w in
    let (w'', e') = run_conserves calls (next mp call).0 a w' in (w'', omega (arith, e, e'))
