-- ===== src/Queue/Drain.antt =====
-- After the close consumers still get every item that the queue holds.
use profiling.Prelude.{
  ℕ, ◌≡◌, refl, ap, ap₂, ◌∙◌, true, Option, none, some, List, [], ◌∷◌, ◌++◌, map, replicate, take,
  take-nil,
}
use profiling.Queue.{Queue, Attempt, waits, returns, queue_pop}
use profiling.Queue.Fifo
use profiling.Queue.Fifo.{Fifo}
use profiling.Queue.Refine.{Models, Does}
use profiling.Queue.Pop.{queue_pop-Does}
use profiling.Queue.Threads.{pop, after, result, next, popped, handed_out, run}

module _ {A : Type 0} where
  Does-returns :
      {R S : Type 0} (h : S → R) (q : Queue A) (a : Attempt A R) (s : S) (g : Fifo A)
      → Does h a (some (s, g))
      → (result a ≡ some (h s)) × Models (after q a) g
  Does-returns h q (waits c) s g d = absurd d
  Does-returns h q (returns r q' w) s g d = (ap some d.0, d.1)

  abbrev closed_with : List A → Fifo A
  closed_with xs = record { items = xs; closed = true }

  pop_closed :
      (n : ℕ) (q : Queue A) (xs : List A)
      → Models q (closed_with xs)
      → (run (replicate n pop) q).2 ≡ map some (take n xs)
  unfolding run next handed_out Fifo.pop popped
  pop_closed ℕ.zero q xs m = refl
  pop_closed (ℕ.suc n) q [] m =
      let (r, m') =
        Does-returns (λ (v : Option A). v) q (queue_pop q) none (closed_with [])
          (queue_pop-Does m) in
      ap₂ ◌++◌ (ap popped r)
        (pop_closed n (after q (queue_pop q)) [] m' ∙ ap (map some) (take-nil n))
  pop_closed (ℕ.suc n) q (x ∷ xs) m =
      let (r, m') =
        Does-returns (λ (v : Option A). v) q (queue_pop q) (some x) (closed_with xs)
          (queue_pop-Does m) in
      ap₂ ◌++◌ (ap popped r) (pop_closed n (after q (queue_pop q)) xs m')

  -- From a closed queue, `n` calls of `queue_pop` return at once, one after another, and hand out
  -- its first `n` items in order, and nothing more where it has fewer.
  drain_closed :
      {q : Queue A} {f : Fifo A} (n : ℕ)
      → Models q f
      → f.closed ≡ true
      → (run (replicate n pop) q).2 ≡ map some (take n f.items)
  drain_closed {q} {f} n m e =
      pop_closed n q f.items (record { valid = m.valid; items = m.items; closed = m.closed ∙ e })
