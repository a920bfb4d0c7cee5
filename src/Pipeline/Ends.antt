-- ===== src/Pipeline/Ends.antt =====
-- What the two ends do to an open queue of samples.
use profiling.Prelude.{
  ℕ, ◌≡◌, refl, Bool, true, false, Option, none, some, List, [], ◌∷◌, ◌++◌, arith, leb, length,
  Bool-cases, inl, inr,
}
use profiling.Queue.Fifo
use profiling.Queue.Fifo.{Fifo}
use profiling.Pipeline.{RawSample}

-- The abstract pop of an open queue takes the first sample, or waits.
abbrev pub Takes : List RawSample → Option (Option RawSample × Fifo RawSample) → Type 0
Takes items none = Unit {0}
Takes items (some (none, g)) = ⊥
Takes items (some (some sample, g)) = (items ≡ sample ∷ g.items) × (g.closed ≡ false)

pub pop-Takes :
    (items : List RawSample) (closed : Bool)
    → closed ≡ false
    → Takes items (Fifo.pop (record { items = items; closed = closed }))
unfolding Fifo.pop
pop-Takes [] true h = ground arith
pop-Takes [] false h = tt
pop-Takes (sample ∷ items) closed h = (refl, h)

-- The abstract push adds the sample, or waits.
abbrev pub Adds : Fifo RawSample → RawSample → Option (Unit {0} × Fifo RawSample) → Type 0
Adds f sample none = Unit {0}
Adds f sample (some (r, g)) = (g.items ≡ f.items ++ (sample ∷ [])) × (g.closed ≡ false)

pub push-Adds :
    (f : Fifo RawSample)
    → f.closed ≡ false
    → (capacity : ℕ) (sample : RawSample) → Adds f sample (Fifo.push capacity f sample)
unfolding Fifo.push
push-Adds f opened capacity sample = elim (Bool-cases (leb capacity (length f.items))) [
  | inl full ↦ rw (opened, full) tt
  | inr room ↦ rw (opened, room) (refl, refl)
]
