-- ===== src/DbWriter/Producer.antt =====
-- What the producer hands to the writer arrives: every interleaving of its calls with the batches
-- that the writer thread pops.
use mathlib.Core.Path.{subst}
use profiling.Prelude.{
  ◌≤◌, ◌≡◌, refl, sym, ap, ap₂, map-some-append, ◌∙◌, Bool, true, false, some, List, [], ◌∷◌, ◌++◌,
  map, append_assoc, if◌then◌else◌, length,
}
use profiling.Mempool.{mempool_alloc}
use profiling.Queue.Fifo.{Fifo}
use profiling.Queue.Refine.{Models}
use profiling.DbWriter.{DbWriter, DbEntry, db_writer_push_stack, push_allocated, db_writer_flush}
use profiling.DbWriter.Steps.{
  Step, push_stack, flush, pop_entries, Side, take_step, entry_in, given_in, got_out, run_steps,
  IsWriter, Moves, idle,
}
use profiling.DbWriter.Moves.{push-Moves, flush-Moves, pop-Moves, flush_entries-Flushes}

module _ (w : DbWriter) (f : Fifo DbEntry) where
  writer-Moves :
      (flushing : Bool) (step : Step)
      → let s : Side = record { writer = w; flushing = flushing } in
        IsWriter s f → Moves s f (take_step s step) (given_in s step) (got_out s step)
  unfolding db_writer_push_stack db_writer_flush
  writer-Moves true (push_stack t str malloced) h = idle _ f h
  writer-Moves false (push_stack t str malloced) h =
      subst
        (λ pushed.
          Moves (record { writer = w; flushing = false }) f
            (record { writer = pushed.0; flushing = pushed.1 })
            (entry_in t str (mempool_alloc w.entry_pool malloced).0) [])
        (sym (
          ap
            (λ b.
              if b
              then push_allocated w t str (mempool_alloc w.entry_pool malloced)
              else (w, false))
            h.running))
        (push-Moves w f t str (mempool_alloc w.entry_pool malloced) h)
  writer-Moves true (flush log_opens start end) h = flush-Moves w f _ h (
      flush_entries-Flushes w f w.producer_batch_buffer log_opens start end refl h.models h.accepts)
  writer-Moves false (flush log_opens start end) h = idle _ f h
  writer-Moves flushing (pop_entries n start end) h = pop-Moves _ f n start end h

run-Moves :
    (steps : List Step) (s : Side) (f : Fifo DbEntry)
    → IsWriter s f
    → let last = run_steps s steps in Moves s f last.0 last.1 last.2
run-Moves [] s f h = idle s f h
run-Moves (step ∷ steps) s f h =
    let a = writer-Moves s.writer f s.flushing step h in
    let b = run-Moves steps (take_step s step) a.left a.keeps in
    record {
      got = a.got ++ b.got;
      left = b.left;
      outs_eq = ap₂ ◌++◌ a.outs_eq b.outs_eq ∙ sym (map-some-append a.got b.got);
      flow =
          sym (append_assoc (f.items ++ s.writer.producer_batch_buffer) (given_in s step) _)
          ∙ ap (λ l. l ++ (run_steps (take_step s step) steps).1) a.flow
          ∙ append_assoc a.got _ _
          ∙ ap (λ l. a.got ++ l) b.flow
          ∙ sym (append_assoc a.got b.got _);
      keeps = b.keeps;
    }

-- In every interleaving of calls of `db_writer_push_stack`, of the attempts of their flushes to push
-- the batch, and of batches that the writer thread pops, of a writer that runs and whose queue is
-- open and holds the items of `f`: what the thread gets is a list of entries, and followed by those
-- in the queue and those in the buffer it is what was there, followed by all that was given, in
-- order. The buffer of 4096 entries does not overflow.
pub run_steps_lossless :
    (steps : List Step) (s : Side) (f : Fifo DbEntry)
    → IsWriter s f
    → let last = run_steps s steps in
      (got : List DbEntry) × (left : Fifo DbEntry) × (last.2 ≡ map some got)
      × ((f.items ++ s.writer.producer_batch_buffer) ++ last.1
          ≡ got ++ (left.items ++ last.0.writer.producer_batch_buffer))
      × Models last.0.writer.queue left
      × (length last.0.writer.producer_batch_buffer ≤ 4096)
run_steps_lossless steps s f h =
    let r = run-Moves steps s f h in
    (r.got, r.left, r.outs_eq, r.flow, r.keeps.models, r.keeps.bounded)
