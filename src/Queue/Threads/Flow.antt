-- ===== src/Queue/Threads/Flow.antt =====
-- Executions of several threads keep every item, once and in order.
use profiling.Prelude.{
  map-some-append, ℕ, ◌≡◌, refl, sym, ap, ap₂, ◌∙◌, Bool, true, false, not, ◌&&◌, Option, none,
  some, List, [], ◌∷◌, ◌++◌, map, arith, append-nil, append_assoc, if◌then◌else◌, length, ◌==◌,
  take-append-drop,
}
use profiling.Queue.{
  Queue, Attempt, waits, returns, latency, queue_push, queue_pop, queue_pop_batch, queue_push_batch,
  queue_signal_shutdown,
}
use profiling.Queue.Fifo
use profiling.Queue.Fifo.{Fifo}
use profiling.Queue.Refine.{
  Models, Does, queue_push-Does, queue_push_batch-Does, queue_signal_shutdown-Models,
}
use profiling.Queue.Pop.{queue_pop-Does, queue_pop_batch-Does}
use profiling.Queue.Threads.{
  Call, push, push_batch, pop, pop_batch, close, after, result, stored, next, put_in, popped,
  popped_batch, handed_out, run,
}

if_same {ℓ} : {A : Type ℓ} (b : Bool) (x : A) → (if b then x else x) ≡ x
if_same true x = refl
if_same false x = refl

module _ {A : Type 0} where
  -- One attempt: what was there and what is put in is what is handed out and what stays.
  pub record Flows (f : Fifo A) (q' : Queue A) (ins : List A) (outs : List (Option A))
      : Type 0 where
    pub given : List A
    pub left : Fifo A
    pub outs_eq : outs ≡ map some given
    pub flow : f.items ++ ins ≡ given ++ left.items
    pub models : Models q' left

  -- A call that puts in has put in all of `xs`, unless the queue is closed.
  abbrev Adds : {S : Type 0} → Fifo A → Bool → List A → Option (S × Fifo A) → Type 0
  Adds f closed xs none = Unit
  Adds f closed xs (some (r, g)) = g.items ≡ f.items ++ (if not closed then xs else [])

  -- A call that takes out has taken what it returns from the front.
  abbrev Takes : {S : Type 0} → Fifo A → (S → List A) → Option (S × Fifo A) → Type 0
  Takes f given none = Unit
  Takes f given (some (r, g)) = f.items ≡ given r ++ g.items

  stays : {q : Queue A} {f : Fifo A} → Models q f → Flows f q [] []
  stays {q} {f} m = record {
    given = [];
    left = f;
    outs_eq = refl;
    flow = append-nil f.items;
    models = m;
  }

  adds :
      {f : Fifo A} {R S : Type 0} (h : S → R) {q : Queue A} (a : Attempt A R) (closed : Bool)
      (xs : List A) (s : Option (S × Fifo A))
      → Models q f
      → Does h a s
      → Adds f closed xs s
      → Flows f (after q a) (stored a closed xs) []
  adds h (waits c) closed xs none m d t = stays m
  adds h (waits c) closed xs (some r) m d t = absurd d
  adds h (returns r q' w) closed xs none m d t = absurd d
  adds h (returns r q' w) closed xs (some (r', g)) m d t = record {
    given = [];
    left = g;
    outs_eq = refl;
    flow = sym t;
    models = d.1;
  }

  takes :
      {f : Fifo A} {R S : Type 0} (h : S → R) {q : Queue A} (a : Attempt A R)
      (s : Option (S × Fifo A)) (given : S → List A) (out : Option R → List (Option A))
      → out none ≡ []
      → ((r : S) → out (some (h r)) ≡ map some (given r))
      → Models q f
      → Does h a s
      → Takes f given s
      → Flows f (after q a) [] (out (result a))
  takes h (waits c) none given out idle gives m d t = rw idle (stays m)
  takes h (waits c) (some r) given out idle gives m d t = absurd d
  takes h (returns r q' w) none given out idle gives m d t = absurd d
  takes {f} h (returns r q' w) (some (r', g)) given out idle gives m d t = record {
    given = given r';
    left = g;
    outs_eq = ap (λ v. out (some v)) d.0 ∙ gives r';
    flow = append-nil f.items ∙ t;
    models = d.1;
  }

  given_one : Option A → List A
  given_one none = []
  given_one (some x) = x ∷ []

  pop_from-Takes :
      (xs : List A) (closed : Bool)
      → Takes
          (record { items = xs; closed = closed })
          given_one
          (Fifo.pop (record { items = xs; closed = closed }))
  unfolding Fifo.pop given_one
  pop_from-Takes [] true = refl
  pop_from-Takes [] false = tt
  pop_from-Takes (x ∷ xs) closed = refl

  pop_some_from-Takes :
      (n : ℕ) (xs : List A) (closed : Bool)
      → Takes
          (record { items = xs; closed = closed })
          (λ given. given)
          (Fifo.pop_some n (record { items = xs; closed = closed }))
  unfolding Fifo.pop_some
  pop_some_from-Takes n [] true = refl
  pop_some_from-Takes n [] false = tt
  pop_some_from-Takes n (x ∷ xs) closed = sym (take-append-drop n (x ∷ xs))

  push-Adds :
      (f : Fifo A) (capacity : ℕ) {closed : Bool} (x : A)
      → closed ≡ f.closed
      → Adds f closed (x ∷ []) (Fifo.push capacity f x)
  unfolding Fifo.push
  push-Adds f capacity x e = ground (arith, append-nil f.items)

  push_all-Adds :
      (f : Fifo A) (capacity : ℕ) {closed : Bool} (xs : List A)
      → closed ≡ f.closed
      → Adds f closed xs (Fifo.push_all capacity f xs)
  unfolding Fifo.push_all
  push_all-Adds f capacity xs e = ground (arith, append-nil f.items)

  -- One attempt of one thread.
  pub next-Flows :
      {q : Queue A} {f : Fifo A} (c : Call A)
      → Models q f
      → Flows f (next c q) (put_in c q) (handed_out c q)
  unfolding next put_in handed_out given_one queue_push_batch queue_signal_shutdown
  next-Flows {q} {f} (push x) m =
      adds (λ (r : Unit {0}). r) (queue_push q x) q.shutdown (x ∷ []) (Fifo.push q.capacity f x) m
        (queue_push-Does x m) (push-Adds f q.capacity x m.closed)
  next-Flows {q} {f} (push_batch none start end) m = rw if_same (stays m)
  next-Flows {q} {f} (push_batch (some []) start end) m = rw if_same (stays m)
  next-Flows {q} {f} (push_batch (some (x ∷ xs)) start end) m =
      adds (λ (r : Unit {0}). latency start end) (queue_push_batch q (some (x ∷ xs)) start end)
        q.shutdown (x ∷ xs) (Fifo.push_all q.capacity f (x ∷ xs)) m
        (queue_push_batch-Does x xs start end m) (push_all-Adds f q.capacity (x ∷ xs) m.closed)
  next-Flows {q} {f} pop m =
      takes (λ (r : Option A). r) (queue_pop q) (Fifo.pop f) given_one popped refl gives m
        (queue_pop-Does m) (pop_from-Takes f.items f.closed)
    where
      gives : (r : Option A) → popped (some r) ≡ map some (given_one r)
      gives none = refl
      gives (some x) = refl
  next-Flows {q} {f} (pop_batch n start end) m =
      takes
        (λ (xs : List A).
          (map some xs, if f.closed && (length f.items == 0) then 0 else latency start end))
        (queue_pop_batch q n start end) (Fifo.pop_some n f) (λ xs. xs) popped_batch refl
        (λ xs. refl) m (queue_pop_batch-Does n start end m) (pop_some_from-Takes n f.items f.closed)
  next-Flows {q} {f} close m = record {
    given = [];
    left = record f { closed = true };
    outs_eq = refl;
    flow = append-nil f.items;
    models = (queue_signal_shutdown-Models m).1;
  }

  both :
      {f : Fifo A} {q : Queue A} {ins : List A} {outs : List (Option A)} (last : Queue A)
      (more : List A) (further : List (Option A)) (a : Flows f q ins outs)
      → Flows a.left last more further
      → Flows f last (ins ++ more) (outs ++ further)
  both {f} {ins} last more further a b = record {
    given = a.given ++ b.given;
    left = b.left;
    outs_eq = ap₂ ◌++◌ a.outs_eq b.outs_eq ∙ sym (map-some-append a.given b.given);
    flow =
        sym (append_assoc f.items ins more)
        ∙ ap (λ l. l ++ more) a.flow
        ∙ append_assoc a.given a.left.items more
        ∙ ap (λ l. a.given ++ l) b.flow
        ∙ sym (append_assoc a.given b.given b.left.items);
    models = b.models;
  }

  run-Flows :
      (cs : List (Call A)) {q : Queue A} {f : Fifo A}
      → Models q f
      → let (last, ins, outs) = run cs q in Flows f last ins outs
  unfolding run
  run-Flows [] m = stays m
  run-Flows (c ∷ cs) {q} {f} m =
      let a = next-Flows c m in
      let (last, ins, outs) = run cs (next c q) in both last ins outs a (run-Flows cs a.models)

  -- In every execution, from a queue that holds the items of `f`: what the calls hand out is a
  -- list `given` of items (no cell is read that was not written) and, followed by the items that
  -- the last queue holds, it is the items of `f` followed by all that was put in, in that order.
  -- So no item is lost, handed out twice or overtaken, and the last queue is well formed.
  pub run_lossless :
      (cs : List (Call A)) {q : Queue A} {f : Fifo A}
      → Models q f
      → let (last, ins, outs) = run cs q in
        (given : List A) × (left : Fifo A) × (outs ≡ map some given)
        × (f.items ++ ins ≡ given ++ left.items)
        × Models last left
  run_lossless cs m = let r = run-Flows cs m in (r.given, r.left, r.outs_eq, r.flow, r.models)
