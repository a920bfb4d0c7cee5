-- ===== src/DbWriter/Drain.antt =====
-- Once the writer is stopped its thread writes what is queued and ends.
use mathlib.Core.Path.{subst}
use profiling.Prelude.{
  ℕ, zero, suc, ◌+◌, ◌<◌, ◌≡◌, refl, sym, ap, ◌∙◌, Bool, true, false, ◌||◌, Option, none, some,
  List, [], ◌∷◌, map, ltb, if◌then◌else◌, length, take, drop, length-drop, arith, Nat-cases, inl,
  inr,
}
use profiling.Queue.{Attempt, waits, returns, Timespec, queue_pop_batch}
use profiling.Queue.Fifo
use profiling.Queue.Fifo.{Fifo}
use profiling.Queue.Refine.{Models, Does, size-eq-length}
use profiling.Queue.Pop.{queue_pop_batch-Does}
use profiling.DbWriter.{DbEntry, count_latency}
use profiling.DbWriter.Session.{Sqlite}
use profiling.DbWriter.Reliable.{IsReliable, IsReady, write_batch-frees}
use profiling.DbWriter.Thread.{
  WriterThread, Turn, asleep, undefined, goes_on, exits, entries_of, use_batch, after_pop,
  thread_turn,
}

abbrev pub closed_with : List DbEntry → Fifo DbEntry
closed_with entries = record { items = entries; closed = true }

module _ (sqlite : Sqlite) (log_opens : Bool) (start end : Timespec) where
  abbrev pub after_turn : (WriterThread → Option WriterThread) → Turn → Option WriterThread
  after_turn next (asleep c) = none
  after_turn next (undefined events) = none
  after_turn next (exits t) = some t
  after_turn next (goes_on t events printed) = next t

  -- At most so many turns: the thread as it leaves the loop.
  abbrev pub run_turns : ℕ → WriterThread → Option WriterThread
  run_turns zero t = none
  run_turns (suc n) t = after_turn (λ t'. run_turns n t') (thread_turn sqlite log_opens t start end)

module _ (sqlite : Sqlite) (reliable : IsReliable sqlite) (log_opens : Bool)
    (start end : Timespec) where
  -- A turn that takes entries goes on with a queue that has the others.
  record Goes (t : WriterThread) (left : List DbEntry) (turn : Turn) : Type 0 where
    next : WriterThread
    goes :
        (f : WriterThread → Option WriterThread)
        → after_turn sqlite log_opens start end f turn ≡ f next
    stopped : next.running ≡ t.running
    size : next.config.db_batch_size ≡ t.config.db_batch_size
    models : Models next.queue (closed_with left)
    ready : IsReady next.handle

  use_batch-Goes :
      (t : WriterThread) (left : List DbEntry) (x : DbEntry) (xs : List DbEntry)
      → Models t.queue (closed_with left)
      → IsReady t.handle
      → Goes t left (use_batch sqlite log_opens t (x ∷ xs))
  unfolding use_batch
  use_batch-Goes t left x xs m ready =
      let (left_open, nothing) = write_batch-frees sqlite reliable t.handle x xs ready in
      rw nothing (record {
        next = _;
        goes = λ f. refl;
        stopped = refl;
        size = refl;
        models = m;
        ready = inl left_open;
      })

  after_pop-Goes :
      (t : WriterThread) (x : DbEntry) (xs : List DbEntry) (n k ns : ℕ)
      (a : Attempt DbEntry (List (Option DbEntry) × ℕ))
      → Does (λ got. (map some got, ns)) a (some (take k (x ∷ xs), closed_with (drop k (x ∷ xs))))
      → k ≡ suc n
      → IsReady t.handle
      → Goes t (drop n xs) (after_pop sqlite log_opens t a)
  unfolding after_pop
  after_pop-Goes t x xs n k ns (waits c) d e ready = absurd d
  after_pop-Goes t x xs n k ns (returns (items, latency_ns) q w) d e ready =
      let popped = record t { queue = q; pop_latency = count_latency latency_ns t.pop_latency } in
      let g : Goes popped (drop n xs) (use_batch sqlite log_opens popped (entries_of items)) =
        subst (λ got. Goes popped (drop n xs) (use_batch sqlite log_opens popped (entries_of got)))
          (sym (
            ap (λ (r : List (Option DbEntry) × ℕ). r.0) d.0
            ∙ ap (λ i. map some (take i (x ∷ xs))) e))
          (use_batch-Goes popped (drop n xs) x _
            (subst (λ i. Models q (closed_with (drop i (x ∷ xs)))) e d.1) ready) in
      record {
        next = g.next;
        goes = g.goes;
        stopped = g.stopped;
        size = g.size;
        models = g.models;
        ready = g.ready;
      }

  thread_turn-Goes :
      (t : WriterThread) (x : DbEntry) (xs : List DbEntry) (n : ℕ)
      → t.config.db_batch_size ≡ suc n
      → Models t.queue (closed_with (x ∷ xs))
      → IsReady t.handle
      → Goes t (drop n xs) (thread_turn sqlite log_opens t start end)
  unfolding thread_turn Fifo.pop_some
  thread_turn-Goes t x xs n e m ready =
      let some_left : (t.running || ltb 0 t.queue.size) ≡ true =
        let size = size-eq-length m in ground (arith, size) in
      let popped = queue_pop_batch t.queue t.config.db_batch_size start end in
      subst (Goes t (drop n xs))
        (sym (ap (λ b. if b then after_pop sqlite log_opens t popped else exits t) some_left))
        (after_pop-Goes t x xs n t.config.db_batch_size _ popped
          (queue_pop_batch-Does t.config.db_batch_size start end m) e ready)

  run_turns-ends :
      (fuel : ℕ) (t : WriterThread) (entries : List DbEntry)
      → t.running ≡ false
      → 0 < t.config.db_batch_size
      → Models t.queue (closed_with entries)
      → IsReady t.handle
      → length entries < fuel
      → (last : WriterThread) × (run_turns sqlite log_opens start end fuel t ≡ some last)
        × Models last.queue (closed_with [])
  unfolding thread_turn
  run_turns-ends zero t entries stopped pos m ready enough = absurd (omega arith)
  run_turns-ends (suc fuel) t [] stopped pos m ready enough =
      let size = size-eq-length m in
      let none_left : (t.running || ltb 0 t.queue.size) ≡ false = ground (arith, stopped, size) in
      (t, rw none_left refl, m)
  run_turns-ends (suc fuel) t (x ∷ xs) stopped pos m ready enough =
      elim (Nat-cases t.config.db_batch_size) [
        | inl e ↦ absurd (omega (arith, e))
        | inr (n, e) ↦
            let g = thread_turn-Goes t x xs n e m ready in
            let rest =
              run_turns-ends fuel g.next (drop n xs) (g.stopped ∙ stopped)
                (omega (arith, pos, g.size)) g.models g.ready (omega (arith, length-drop n xs)) in
            (rest.0, g.goes (λ t'. run_turns sqlite log_opens start end fuel t') ∙ rest.1, rest.2)
      ]

  -- A thread that is stopped, with its queue closed, and writes batches of at least one entry, where
  -- SQLite opens and sets up every database and prepares every statement, with a database or as the
  -- thread starts: it does not sleep again, gives no part of the pool to free, and after at most one
  -- turn for each entry of the queue and one more it leaves the loop, with the queue empty.
  pub stopped_thread_ends :
      (t : WriterThread) (entries : List DbEntry)
      → t.running ≡ false
      → 0 < t.config.db_batch_size
      → Models t.queue (closed_with entries)
      → IsReady t.handle
      → (last : WriterThread) × (run_turns sqlite log_opens start end (length entries + 1) t
          ≡ some last)
        × Models last.queue (closed_with [])
  stopped_thread_ends t entries stopped pos m ready =
      run_turns-ends (length entries + 1) t entries stopped pos m ready (omega arith)
