-- ===== src/Queue/Pop.antt =====
-- The calls that take items out of the queue behave as those of the bounded FIFO.
use native.Mathlib.Nat.{mod-add-mod}
use profiling.Prelude.{
  ℕ, zero, suc, ◌+◌, ◌-◌, ◌%◌, ◌≤◌, ◌≡◌, ◌≢◌, refl, sym, ap, ap₂, ◌∙◌, Bool, true, false, ◌&&◌,
  some, List, [], ◌∷◌, map, arith, ltb, ◌==◌, if◌then◌else◌, length, take, drop, get_elem?,
  take-all, drop-all, Bool-cases, inl, inr, ltb→lt,
}
use profiling.Queue.{Queue, Timespec, latency, take_items, queue_pop, queue_pop_batch}
use profiling.Queue.Segment.{segment}
use profiling.Queue.Fifo
use profiling.Queue.Fifo.{Fifo}
use profiling.Queue.Refine.{Models, Does, size-eq-length}

module _ {A : Type 0} where
  -- The cells of a queue that is not empty start with the one at `head`.
  cells_of_ne_zero :
      (buffer : List A) (capacity head n : ℕ)
      → n ≢ 0
      → segment buffer capacity head n
        ≡ get_elem? buffer head ∷ segment buffer capacity ((head + 1) % capacity) (n - 1)
  cells_of_ne_zero buffer capacity head zero ne = absurd (ne refl)
  cells_of_ne_zero buffer capacity head (suc n) ne =
      ap (λ k. get_elem? buffer head ∷ segment buffer capacity ((head + 1) % capacity) k)
        (omega arith)

  -- The first item is at `head`, and the step to the next index takes it off.
  head-Models :
      {q : Queue A} (x : A) (xs : List A) (closed : Bool)
      → Models q (record { items = x ∷ xs; closed = closed })
      → (get_elem? q.buffer q.head ≡ some x)
        × Models
            (record q { head = (q.head + 1) % q.capacity; size = q.size - 1 })
            (record { items = xs; closed = closed })
  head-Models {q} x xs closed m =
      let filled : q.size ≢ 0 = omega (arith, size-eq-length m) in
      let cells = sym (cells_of_ne_zero q.buffer q.capacity q.head q.size filled) ∙ m.items in
      (
        cc,
        record {
          valid = record {
            room = m.valid.room;
            head_in = omega (arith, m.valid.head_in);
            size_in = omega (arith, m.valid.size_in);
            tail_at =
                m.valid.tail_at
                ∙ sym (
                    mod-add-mod (q.head + 1) q.capacity (q.size - 1)
                    ∙ ap (λ k. k % q.capacity) (omega arith));
          };
          items = cc;
          closed = m.closed;
        },
      )

  pop_from-Does :
      {q : Queue A} (items : List A) (closed : Bool)
      → Models q (record { items = items; closed = closed })
      → Does (λ r. r) (queue_pop q) (Fifo.pop (record { items = items; closed = closed }))
  unfolding queue_pop Fifo.pop
  pop_from-Does [] true m = ground (arith, size-eq-length m)
  pop_from-Does [] false m = ground (arith, size-eq-length m)
  pop_from-Does (x ∷ xs) closed m = ground (arith, size-eq-length m, head-Models x xs closed m)

  -- `queue_pop` is the pop of the bounded FIFO.
  pub queue_pop-Does :
      {q : Queue A} {f : Fifo A} → Models q f → Does (λ r. r) (queue_pop q) (Fifo.pop f)
  queue_pop-Does {q} {f} m = pop_from-Does f.items f.closed m

  -- The loop of `queue_pop_batch` takes the first `n` items in their order.
  take_items-Models :
      (n : ℕ) (q : Queue A) (xs : List A) (closed : Bool)
      → n ≤ length xs
      → Models q (record { items = xs; closed = closed })
      → ((take_items n q).0 ≡ map some (take n xs))
        × Models (take_items n q).1 (record { items = drop n xs; closed = closed })
  unfolding take_items
  take_items-Models zero q xs closed h m = (refl, m)
  take_items-Models (suc n) q [] closed h m = absurd (omega arith)
  take_items-Models (suc n) q (x ∷ xs) closed h m =
      let (first, m') = head-Models x xs closed m in
      let (rest, m'') = take_items-Models n _ xs closed (omega arith) m' in
      (ap₂ ◌∷◌ first rest, m'')

  -- The loop runs as often as there are items, and not more often than the caller has room.
  take_first-Models :
      (n : ℕ) (q : Queue A) (xs : List A) (closed : Bool)
      → Models q (record { items = xs; closed = closed })
      → let popped = take_items (if ltb q.size n then q.size else n) q in
        (popped.0 ≡ map some (take n xs))
        × Models popped.1 (record { items = drop n xs; closed = closed })
  take_first-Models n q xs closed m =
      let all = size-eq-length m in
      elim (Bool-cases (ltb q.size n)) [
        | inl fewer ↦
            let few : length xs ≤ n = omega (arith, ltb→lt q.size n fewer) in
            rw (fewer, take-all n xs few, drop-all n xs few)
              (rw (take-all q.size xs (omega arith), drop-all q.size xs (omega arith)) at
                (take_items-Models q.size q xs closed (omega arith) m))
        | inr more ↦ rw more (take_items-Models n q xs closed (ground arith) m)
      ]

  pop_some_from-Does :
      {q : Queue A} (items : List A) (closed : Bool) (n : ℕ) (start end : Timespec)
      → Models q (record { items = items; closed = closed })
      → Does
          (λ (xs : List A).
            (map some xs, if closed && (length items == 0) then 0 else latency start end))
          (queue_pop_batch q n start end)
          (Fifo.pop_some n (record { items = items; closed = closed }))
  unfolding queue_pop_batch Fifo.pop_some
  pop_some_from-Does [] true n start end m = ground (arith, size-eq-length m)
  pop_some_from-Does [] false n start end m = ground (arith, size-eq-length m)
  pop_some_from-Does {q} (x ∷ xs) closed n start end m =
      ground (arith, size-eq-length m, take_first-Models n q (x ∷ xs) closed m)

  -- `queue_pop_batch` takes as many items as there are, at most `n`, from the front.
  pub queue_pop_batch-Does :
      {q : Queue A} {f : Fifo A} (n : ℕ) (start end : Timespec)
      → Models q f
      → Does
          (λ xs. (map some xs, if f.closed && (length f.items == 0) then 0 else latency start end))
          (queue_pop_batch q n start end)
          (Fifo.pop_some n f)
  queue_pop_batch-Does {q} {f} n start end m = pop_some_from-Does f.items f.closed n start end m
