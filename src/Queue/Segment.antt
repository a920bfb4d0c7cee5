-- ===== src/Queue/Segment.antt =====
-- The cells of a ring from one index on, and what a write to one cell does to them.
use native.Mathlib.Nat.{add-zero, mod-eq_of_lt, mod-eq-sub-mod, mod-add-mod}
use profiling.Prelude.{
  ℕ, zero, suc, ◌+◌, ◌-◌, ◌%◌, ◌≤◌, ◌<◌, ◌≡◌, ◌≢◌, refl, ap, ap₂, ◌∙◌, Option, some, List, [], ◌∷◌,
  ◌++◌, arith, dec_lt, length, get_elem?, set, get_elem?-set_self, get_elem?-set_ne,
}

module _ {A : Type 0} where
  -- The `n` cells from `head` on, going round at `capacity`; `none` is a cell out of range.
  abbrev pub segment : List A → ℕ → ℕ → ℕ → List (Option A)
  segment buffer capacity head zero = []
  segment buffer capacity head (suc n) =
      get_elem? buffer head ∷ segment buffer capacity ((head + 1) % capacity) n

  pub length-segment :
      (buffer : List A) (capacity head n : ℕ) → length (segment buffer capacity head n) ≡ n
  length-segment buffer capacity head zero = refl
  length-segment buffer capacity head (suc n) =
      ap suc (length-segment buffer capacity ((head + 1) % capacity) n)

-- `k + 1` steps from `head` are `k` steps from the next index.
pub step_mod :
    (capacity head k : ℕ) → (head + suc k) % capacity ≡ ((head + 1) % capacity + k) % capacity
step_mod capacity head k = ap (λ m. m % capacity) (omega arith) ∙ sym_mod
  where
    sym_mod : (head + 1 + k) % capacity ≡ ((head + 1) % capacity + k) % capacity
    sym_mod = rw mod-add-mod

-- The index `k` steps on is another one, for fewer than `capacity` steps.
pub mod_ne :
    (capacity head k : ℕ) → head < capacity → 0 < k → k < capacity → (head + k) % capacity ≢ head
mod_ne capacity head k h pos lt = elim (dec_lt (head + k) capacity) [
  | yes below ↦ omega (arith, mod-eq_of_lt below)
  | no round ↦ omega (
    arith,
    mod-eq-sub-mod {n = head + k} {m = capacity} (omega arith),
    mod-eq_of_lt {n = head + k - capacity} {m = capacity} (omega arith),
  )
]

module _ {A : Type 0} where
  -- A write at an index past the `n` cells is not seen by them.
  pub segment-set_after :
      (buffer : List A) (capacity : ℕ) (x : A) (n m head i : ℕ)
      → head < capacity
      → n + m < capacity
      → i ≡ (head + (n + m)) % capacity
      → segment (set buffer i x) capacity head n ≡ segment buffer capacity head n
  segment-set_after buffer capacity x zero m head i h lt e = refl
  segment-set_after buffer capacity x (suc n) m head i h lt e =
      ap₂ ◌∷◌
        (get_elem?-set_ne buffer x
          (rw e (rw past (mod_ne capacity head _ h (omega arith) (omega arith)))))
        (segment-set_after buffer capacity x n m ((head + 1) % capacity) i (omega arith)
          (omega arith) (e ∙ rw past (step_mod capacity head (n + m))))
    where
      past : suc n + m ≡ suc (n + m)
      past = omega arith

  -- One cell more is the next one.
  pub segment-snoc :
      (buffer : List A) (capacity n head : ℕ)
      → head < capacity
      → segment buffer capacity head (suc n)
        ≡ segment buffer capacity head n ++ (get_elem? buffer ((head + n) % capacity) ∷ [])
  segment-snoc buffer capacity zero head h = rw (add-zero, mod-eq_of_lt h)
  segment-snoc buffer capacity (suc n) head h = rw (step_mod capacity head n) (
      ap (λ r. get_elem? buffer head ∷ r)
        (segment-snoc buffer capacity n ((head + 1) % capacity) (omega arith)))

  -- A write just past the `n` cells adds its item to them.
  pub segment-set :
      (buffer : List A) (capacity : ℕ) (x : A) (n head i : ℕ)
      → capacity ≤ length buffer
      → head < capacity
      → n < capacity
      → i ≡ (head + n) % capacity
      → segment (set buffer i x) capacity head (suc n)
        ≡ segment buffer capacity head n ++ (some x ∷ [])
  segment-set buffer capacity x n head i room h lt e =
      segment-snoc (set buffer i x) capacity n head h
      ∙ ap₂ (λ cells cell. cells ++ (cell ∷ []))
          (segment-set_after buffer capacity x n 0 head i h (omega arith) (rw add-zero e))
          (rw (← e) (get_elem?-set_self buffer i x (omega arith)))
