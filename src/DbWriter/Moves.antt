-- ===== src/DbWriter/Moves.antt =====
-- Each call of the producer, and each batch of the writer thread, moves entries and loses none.
use mathlib.Core.Path.{subst}
use profiling.Prelude.{
  ℕ, zero, suc, ◌+◌, ◌≤◌, ◌<◌, ◌≡◌, ◌⊎◌, refl, sym, ap, ◌∙◌, Bool, true, false, ◌&&◌, Option, none,
  some, List, [], ◌∷◌, ◌++◌, arith, append-nil, append_assoc, ltb, leb, if◌then◌else◌, length,
  length-append, Bool-cases, inl, inr,
}
use profiling.CString.{CString}
use profiling.Config.{ProfilingConfig}
use profiling.Mempool.{Mempool}
use profiling.Queue.{
  Queue, Attempt, waits, returns, Timespec, latency, queue_pop_batch, queue_push_batch, take_items,
}
use profiling.Queue.Fifo
use profiling.Queue.Fifo.{Fifo}
use profiling.Queue.Refine.{Models, Does, queue_push_batch-Does}
use profiling.Queue.Threads.{pop_batch, after, result, popped_batch, next, put_in, handed_out}
use profiling.Queue.Threads.Flow.{next-Flows}
use profiling.DbWriter.{
  DbWriter, DbEntry, Flush, sleeps, flushed, push_allocated, flush_entries, after_push,
  flush_threshold,
}
use profiling.DbWriter.Steps.{
  pop_entries, Side, after_flush, take_step, entry_in, IsWriter, Moves, idle,
}

flush_threshold_le :
    (config : ProfilingConfig) → (0 < flush_threshold config) × (flush_threshold config ≤ 4096)
unfolding flush_threshold
flush_threshold_le config = ground arith

pub push-Moves :
    (w : DbWriter) (f : Fifo DbEntry) (t : ℕ) (str : CString) (got : Option ℕ × Mempool)
    → IsWriter (record { writer = w; flushing = false }) f
    → let pushed = push_allocated w t str got in
      Moves
        (record { writer = w; flushing = false })
        f
        (record { writer = pushed.0; flushing = pushed.1 })
        (entry_in t str got.0)
        []
unfolding push_allocated
push-Moves w f t str (none, pool) h = record {
  got = [];
  left = f;
  outs_eq = refl;
  flow = append-nil _;
  keeps = record {
    running = h.running;
    accepts = h.accepts;
    models = h.models;
    bounded = h.bounded;
    below = h.below;
  };
}
push-Moves w f t str (some chunk, pool) h =
    let buffer = w.producer_batch_buffer in
    let entry : DbEntry = record { chunk = chunk; timestamp_ns = t; stack_str = str } in
    let limit = flush_threshold_le w.config in
    let fits : length buffer < flush_threshold w.config = elim h.below [
      | inl e ↦ absurd (ground arith)
      | inr below ↦ below
    ] in
    let more : length (buffer ++ (entry ∷ [])) ≡ length buffer + 1 =
      length-append buffer (entry ∷ []) in
    record {
      got = [];
      left = f;
      outs_eq = refl;
      flow = append_assoc f.items buffer (entry ∷ []);
      keeps = record {
        running = h.running;
        accepts = h.accepts;
        models = h.models;
        bounded = omega (arith, more, limit.1);
        below =
            calls_flush (length (buffer ++ (entry ∷ []))) (flush_threshold w.config)
              (omega (arith, more));
      };
    }
  where
    calls_flush :
        (n threshold : ℕ) → 0 < n → ((ltb 0 n && leb threshold n) ≡ true) ⊎ (n < threshold)
    calls_flush n threshold h = elim (Bool-cases (ltb 0 n && leb threshold n)) [
      | inl e ↦ inl e
      | inr e ↦ inr (ground arith)
    ]

-- What a flush leaves, of a writer whose queue holds the items of `f`.
pub Flushes : DbWriter → Fifo DbEntry → Flush → Type 0
Flushes w f (sleeps c) = Unit
Flushes w f (flushed w' printed wakes) =
    (g : Fifo DbEntry) × Models w'.queue g
    × (g.items ≡ f.items ++ w.producer_batch_buffer)
    × (g.closed ≡ false)
    × (w'.producer_batch_buffer ≡ [])
    × (w'.config ≡ w.config)
    × (w'.running ≡ w.running)

-- An open FIFO with all of `xs` behind its items, or a call that waits.
abbrev AddsAll : Fifo DbEntry → List DbEntry → Option (Unit {0} × Fifo DbEntry) → Type 0
AddsAll f xs none = Unit
AddsAll f xs (some (u, g)) = (g.items ≡ f.items ++ xs) × (g.closed ≡ false)

push_all-AddsAll :
    (capacity : ℕ) (f : Fifo DbEntry) (xs : List DbEntry)
    → f.closed ≡ false
    → AddsAll f xs (Fifo.push_all capacity f xs)
unfolding Fifo.push_all
push_all-AddsAll capacity f xs h = ground arith

after_push-Flushes :
    (w : DbWriter) (f : Fifo DbEntry) (log_opens : Bool) (ns : ℕ) (a : Attempt DbEntry ℕ)
    (o : Option (Unit {0} × Fifo DbEntry))
    → Does (λ _. ns) a o
    → AddsAll f w.producer_batch_buffer o
    → Flushes w f (after_push w log_opens a)
unfolding Flushes after_push
after_push-Flushes w f log_opens ns (waits c) none d e = tt
after_push-Flushes w f log_opens ns (waits c) (some r) d e = absurd d
after_push-Flushes w f log_opens ns (returns r q k) none d e = absurd d
after_push-Flushes w f log_opens ns (returns r q k) (some (u, g)) d e =
    (g, d.1, e.0, e.1, refl, refl, refl)

pub flush_entries-Flushes :
    (w : DbWriter) (f : Fifo DbEntry) (entries : List DbEntry) (log_opens : Bool)
    (start end : Timespec)
    → w.producer_batch_buffer ≡ entries
    → Models w.queue f
    → f.closed ≡ false
    → Flushes w f (flush_entries w entries log_opens start end)
unfolding Flushes flush_entries
flush_entries-Flushes w f [] log_opens start end e m h =
    (f, m, sym (ap (λ l. f.items ++ l) e ∙ append-nil f.items), h, e, refl, refl)
flush_entries-Flushes w f (x ∷ xs) log_opens start end e m h =
    after_push-Flushes w f log_opens (latency start end)
      (queue_push_batch w.queue (some (x ∷ xs)) start end) _
      (queue_push_batch-Does x xs start end m)
      (subst (λ l. AddsAll f l (Fifo.push_all w.queue.capacity f (x ∷ xs))) (sym e)
        (push_all-AddsAll w.queue.capacity f (x ∷ xs) h))

pub flush-Moves :
    (w : DbWriter) (f : Fifo DbEntry) (r : Flush)
    → IsWriter (record { writer = w; flushing = true }) f
    → Flushes w f r
    → Moves
        (record { writer = w; flushing = true })
        f
        (after_flush (record { writer = w; flushing = true }) r)
        []
        []
unfolding Flushes
flush-Moves w f (sleeps c) h d = idle _ f h
flush-Moves w f (flushed w' printed wakes) h (g, m, items, closed, empty, config, running) =
    record {
      got = [];
      left = g;
      outs_eq = refl;
      flow =
          append-nil (f.items ++ w.producer_batch_buffer)
          ∙ sym items
          ∙ sym (ap (λ l. g.items ++ l) empty ∙ append-nil g.items);
      keeps = record {
        running = running ∙ h.running;
        accepts = closed;
        models = m;
        bounded = rw empty (omega arith);
        below = inr (rw (empty, config) (flush_threshold_le w.config).0);
      };
    }

take_items-shutdown : (n : ℕ) (q : Queue DbEntry) → (take_items n q).1.shutdown ≡ q.shutdown
unfolding take_items
take_items-shutdown zero q = refl
take_items-shutdown (suc n) q = take_items-shutdown n _

pop_batch-shutdown :
    (q : Queue DbEntry) (n : ℕ) (start end : Timespec)
    → (after q (queue_pop_batch q n start end)).shutdown ≡ q.shutdown
unfolding queue_pop_batch
pop_batch-shutdown q n start end =
    let taken = take_items-shutdown (if ltb q.size n then q.size else n) q in ground (arith, taken)

pub pop-Moves :
    (s : Side) (f : Fifo DbEntry) (n : ℕ) (start end : Timespec)
    → IsWriter s f
    → Moves s f
        (take_step s (pop_entries n start end))
        []
        (popped_batch (result (queue_pop_batch s.writer.queue n start end)))
unfolding next put_in handed_out
pop-Moves s f n start end h =
    let flow = next-Flows (pop_batch n start end) h.models in
    let buffer = s.writer.producer_batch_buffer in
    record {
      got = flow.given;
      left = flow.left;
      outs_eq = flow.outs_eq;
      flow =
          append-nil (f.items ++ buffer)
          ∙ ap (λ l. l ++ buffer) (sym (append-nil f.items) ∙ flow.flow)
          ∙ append_assoc flow.given flow.left.items buffer;
      keeps = record {
        running = h.running;
        accepts =
            sym flow.models.closed
            ∙ pop_batch-shutdown s.writer.queue n start end
            ∙ h.models.closed
            ∙ h.accepts;
        models = flow.models;
        bounded = h.bounded;
        below = h.below;
      };
    }
