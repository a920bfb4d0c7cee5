-- ===== src/Queue/Refine.antt =====
-- A queue that is well formed behaves as the bounded FIFO of the items between head and tail.
use mathlib.Core.Path.{subst}
use native.Mathlib.Nat.{mod-add-mod, add-zero}
use profiling.Prelude.{
  length-map-some, map-some-append, ℕ, suc, ◌+◌, ◌%◌, ◌≤◌, ◌<◌, ◌≡◌, refl, sym, ap, ◌∙◌, true,
  false, Option, none, some, List, [], ◌∷◌, ◌++◌, map, arith, append-nil, append_assoc, length,
  length-set,
}
use profiling.Queue.{
  Queue, Attempt, waits, returns, Timespec, latency, queue_init, put_item, put_items, queue_push,
  queue_push_batch, queue_signal_shutdown,
}
use profiling.Queue.Segment.{segment, length-segment, segment-set}
use profiling.Queue.Fifo
use profiling.Queue.Fifo.{Fifo}

pub record IsValid {A : Type 0} (q : Queue A) : Type 0 where
  pub room : q.capacity ≤ length q.buffer
  pub head_in : q.head < q.capacity
  pub size_in : q.size ≤ q.capacity
  pub tail_at : q.tail ≡ (q.head + q.size) % q.capacity

abbrev pub contents : {A : Type 0} → Queue A → List (Option A)
contents q = segment q.buffer q.capacity q.head q.size

-- The queue holds exactly the items of `f`, in their order.
pub record Models {A : Type 0} (q : Queue A) (f : Fifo A) : Type 0 where
  pub valid : IsValid q
  pub items : contents q ≡ map some f.items
  pub closed : q.shutdown ≡ f.closed

-- An attempt does what the abstract call does, and its result is the abstract one up to `f`.
abbrev pub Does : {A R S : Type 0} → (S → R) → Attempt A R → Option (S × Fifo A) → Type 0
Does f (waits c) none = Unit
Does f (waits c) (some r) = ⊥
Does f (returns r q w) none = ⊥
Does f (returns r q w) (some (s, g)) = (r ≡ f s) × Models q g

next_tail :
    (capacity head n : ℕ) → ((head + n) % capacity + 1) % capacity ≡ (head + suc n) % capacity
next_tail capacity head n = mod-add-mod (head + n) capacity 1 ∙ ap (λ k. k % capacity) (omega arith)

module _ {A : Type 0} where
  pub size-eq-length : {q : Queue A} {f : Fifo A} → Models q f → q.size ≡ length f.items
  size-eq-length {q} {f} m =
      sym (length-segment q.buffer q.capacity q.head q.size)
      ∙ ap length m.items
      ∙ length-map-some f.items

  -- What the loop of `queue_push_batch` leaves, started with `n` items behind `head`.
  record Filled (q : Queue A) (n : ℕ) (xs : List A) (r : Queue A) : Type 0 where
    capacity : r.capacity ≡ q.capacity
    head : r.head ≡ q.head
    size : r.size ≡ q.size
    shutdown : r.shutdown ≡ q.shutdown
    room : q.capacity ≤ length r.buffer
    tail : r.tail ≡ (q.head + (n + length xs)) % q.capacity
    cells :
        segment r.buffer q.capacity q.head (n + length xs)
        ≡ segment q.buffer q.capacity q.head n ++ map some xs

  put_items-Filled :
      (xs : List A) (q : Queue A) (n : ℕ)
      → q.capacity ≤ length q.buffer
      → q.head < q.capacity
      → n + length xs ≤ q.capacity
      → q.tail ≡ (q.head + n) % q.capacity
      → Filled q n xs (put_items q xs)
  unfolding put_items
  put_items-Filled [] q n room h fits at = record {
    capacity = refl;
    head = refl;
    size = refl;
    shutdown = refl;
    room = room;
    tail = rw add-zero at;
    cells = rw (add-zero, append-nil);
  }
  put_items-Filled (x ∷ xs) q n room h fits at =
      let ih : Filled (put_item q x) (suc n) xs (put_items (put_item q x) xs) =
        put_items-Filled xs (put_item q x) (suc n) (rw length-set room) h (omega arith)
          (rw at (next_tail q.capacity q.head n)) in
      let more : n + suc (length xs) ≡ suc n + length xs = omega arith in
      record {
        capacity = ih.capacity;
        head = ih.head;
        size = ih.size;
        shutdown = ih.shutdown;
        room = ih.room;
        tail = rw more ih.tail;
        cells =
            rw more ih.cells
            ∙ ap (λ cells. cells ++ map some xs)
                (segment-set q.buffer q.capacity x n q.head q.tail room h (omega arith) at)
            ∙ append_assoc (segment q.buffer q.capacity q.head n) (some x ∷ []) (map some xs);
      }

  -- The items that fit are added behind those that are there.
  put_items-Models :
      {q : Queue A} {f : Fifo A} (xs : List A)
      → Models q f
      → q.size + length xs ≤ q.capacity
      → Models
          (record (put_items q xs) { size = q.size + length xs })
          (record f { items = f.items ++ xs })
  put_items-Models {q} {f} xs m fits =
      let r = put_items-Filled xs q q.size m.valid.room m.valid.head_in fits m.valid.tail_at in
      record {
        valid = record {
          room = rw r.capacity r.room;
          head_in = rw (r.head, r.capacity) m.valid.head_in;
          size_in = rw r.capacity fits;
          tail_at = rw (r.capacity, r.head) r.tail;
        };
        items =
            rw (r.capacity, r.head) r.cells
            ∙ ap (λ cells. cells ++ map some xs) m.items
            ∙ sym (map-some-append f.items xs);
        closed = r.shutdown ∙ m.closed;
      }

  -- `queue_push` is the push of the bounded FIFO.
  pub queue_push-Does :
      {q : Queue A} {f : Fifo A} (x : A)
      → Models q f
      → Does (λ r. r) (queue_push q x) (Fifo.push q.capacity f x)
  unfolding queue_push Fifo.push put_items
  queue_push-Does {q} {f} x m = ground (arith, size-eq-length m, put_items-Models (x ∷ []) m)

  -- `queue_push_batch` adds the whole batch at once, or waits.
  pub queue_push_batch-Does :
      {q : Queue A} {f : Fifo A} (x : A) (xs : List A) (start end : Timespec)
      → Models q f
      → Does
          (λ _. latency start end)
          (queue_push_batch q (some (x ∷ xs)) start end)
          (Fifo.push_all q.capacity f (x ∷ xs))
  unfolding queue_push_batch Fifo.push_all
  queue_push_batch-Does {q} {f} x xs start end m =
      ground (arith, size-eq-length m, put_items-Models (x ∷ xs) m)

  pub queue_signal_shutdown-Models :
      {q : Queue A} {f : Fifo A}
      → Models q f
      → Does (λ (r : Unit {0}). r) (queue_signal_shutdown q) (some (tt, record f { closed = true }))
  unfolding queue_signal_shutdown
  queue_signal_shutdown-Models m =
      (refl, record { valid = omega arith; items = m.items; closed = refl })

-- A new queue is the empty FIFO, open.
pub queue_init-Models :
    {A : Type 0} (storage : List A) (capacity : ℕ) {q : Queue A}
    → 0 < capacity
    → capacity ≤ length storage
    → queue_init true (some storage) capacity ≡ some q
    → Models q (record { items = []; closed = false })
unfolding queue_init
queue_init-Models {A} storage capacity {q} pos room e =
    subst (λ r. Models r (record { items = []; closed = false })) {x = fresh} {y = q} (cc)
      (record { valid = omega arith; items = refl; closed = refl })
  where
    fresh : Queue A
    fresh = record {
      buffer = storage;
      capacity = capacity;
      size = 0;
      head = 0;
      tail = 0;
      shutdown = false;
    }
