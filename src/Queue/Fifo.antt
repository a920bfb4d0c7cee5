-- ===== src/Queue/Fifo.antt =====
-- What the header of the queue promises: a bounded FIFO that can be closed. `none` is a call that
-- has to wait.
use profiling.Prelude.{
  ℕ, ◌+◌, Bool, true, false, Option, none, some, List, [], ◌∷◌, ◌++◌, leb, if◌then◌else◌, length,
  take, drop,
}

pub record Fifo (A : Type 0) : Type 0 where
  pub items : List A
  pub closed : Bool

module _ {A : Type 0} where
  unfoldable pub push : ℕ → Fifo A → A → Option (Unit {0} × Fifo A)
  push capacity f x =
      if f.closed
      then some (tt, f)
      else if leb capacity (length f.items)
      then none
      else some (tt, record f { items = f.items ++ (x ∷ []) })

  unfoldable pub push_all : ℕ → Fifo A → List A → Option (Unit {0} × Fifo A)
  push_all capacity f xs =
      if f.closed
      then some (tt, f)
      else if leb (length f.items + length xs) capacity
      then some (tt, record f { items = f.items ++ xs })
      else none

  pop_from : List A → Bool → Option (Option A × Fifo A)
  pop_from [] true = some (none, record { items = []; closed = true })
  pop_from [] false = none
  pop_from (x ∷ xs) closed = some (some x, record { items = xs; closed = closed })

  unfoldable pub pop : Fifo A → Option (Option A × Fifo A)
  unfolding pop_from
  pop f = pop_from f.items f.closed

  pop_some_from : ℕ → List A → Bool → Option (List A × Fifo A)
  pop_some_from n [] true = some ([], record { items = []; closed = true })
  pop_some_from n [] false = none
  pop_some_from n (x ∷ xs) closed =
      some (take n (x ∷ xs), record { items = drop n (x ∷ xs); closed = closed })

  unfoldable pub pop_some : ℕ → Fifo A → Option (List A × Fifo A)
  unfolding pop_some_from
  pop_some n f = pop_some_from n f.items f.closed
