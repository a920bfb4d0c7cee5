-- ===== src/DbWriter/Steps.antt =====
-- Executions of the producer and the writer thread as steps, and what one of them moves.
use profiling.Prelude.{
  ℕ, ◌≤◌, ◌<◌, ◌≡◌, ◌⊎◌, refl, Bool, true, false, Option, none, some, List, [], ◌∷◌, ◌++◌, map,
  append-nil, length,
}
use profiling.CString.{CString}
use profiling.Mempool.{mempool_alloc}
use profiling.Queue.{Timespec, queue_pop_batch}
use profiling.Queue.Fifo.{Fifo}
use profiling.Queue.Refine.{Models}
use profiling.Queue.Threads.{after, result, popped_batch}
use profiling.DbWriter.{
  DbWriter, DbEntry, Flush, sleeps, flushed, db_writer_push_stack, db_writer_flush, flush_threshold,
  max_producer_batch_size,
}

-- A step of an execution: a call of `db_writer_push_stack` up to the call of `db_writer_flush` in it;
-- an attempt of that to push the batch; a batch that the writer thread pops.
pub data Step : Type 0 where
  push_stack : ℕ → CString → Option ℕ → Step
  flush : Bool → Timespec → Timespec → Step
  pop_entries : ℕ → Timespec → Timespec → Step

-- `flushing` is whether the producer is in `db_writer_flush`.
pub record Side : Type 0 where
  pub writer : DbWriter
  pub flushing : Bool

abbrev pub after_flush : Side → Flush → Side
after_flush s (sleeps c) = s
after_flush s (flushed w printed wakes) = record { writer = w; flushing = false }

-- The producer makes its next call when the one before has returned.
abbrev pub take_step : Side → Step → Side
take_step s (push_stack timestamp_ns stack_str malloced) = elim s.flushing [
  | true ↦ s
  | false ↦
      let pushed = db_writer_push_stack s.writer timestamp_ns stack_str malloced in
      record { writer = pushed.0; flushing = pushed.1 }
]
take_step s (flush log_opens start end) = elim s.flushing [
  | true ↦ after_flush s (db_writer_flush s.writer log_opens start end)
  | false ↦ s
]
take_step s (pop_entries n start end) =
    let w = s.writer in
    record s { writer = record w { queue = after w.queue (queue_pop_batch w.queue n start end) } }

-- The entry for a chunk from the pool.
abbrev pub entry_in : ℕ → CString → Option ℕ → List DbEntry
entry_in timestamp_ns stack_str none = []
entry_in timestamp_ns stack_str (some chunk) =
    record { chunk = chunk; timestamp_ns = timestamp_ns; stack_str = stack_str } ∷ []

-- What the producer gives in a step, and what the writer thread gets.
abbrev pub given_in : Side → Step → List DbEntry
given_in s (push_stack timestamp_ns stack_str malloced) = elim s.flushing [
  | true ↦ []
  | false ↦ entry_in timestamp_ns stack_str (mempool_alloc s.writer.entry_pool malloced).0
]
given_in s (flush log_opens start end) = []
given_in s (pop_entries n start end) = []

abbrev pub got_out : Side → Step → List (Option DbEntry)
got_out s (push_stack timestamp_ns stack_str malloced) = []
got_out s (flush log_opens start end) = []
got_out s (pop_entries n start end) =
    popped_batch (result (queue_pop_batch s.writer.queue n start end))

-- The last state, all that was given and all that was got, in order.
abbrev pub run_steps : Side → List Step → Side × List DbEntry × List (Option DbEntry)
run_steps s [] = (s, [], [])
run_steps s (step ∷ steps) =
    let rest = run_steps (take_step s step) steps in
    (rest.0, given_in s step ++ rest.1, got_out s step ++ rest.2)

-- A writer that runs, whose queue is open and holds the items of `f`; outside of a flush the buffer
-- is below the threshold.
pub record IsWriter (s : Side) (f : Fifo DbEntry) : Type 0 where
  pub running : s.writer.running ≡ true
  pub accepts : f.closed ≡ false
  pub models : Models s.writer.queue f
  pub bounded : length s.writer.producer_batch_buffer ≤ max_producer_batch_size
  pub below :
      (s.flushing ≡ true)
      ⊎ (length s.writer.producer_batch_buffer < flush_threshold s.writer.config)

-- One step: what was there, in the queue and then in the buffer, and what is given, is what the
-- writer thread gets and what stays.
pub record Moves (s : Side) (f : Fifo DbEntry) (s' : Side) (ins : List DbEntry)
    (outs : List (Option DbEntry)) : Type 0 where
  pub got : List DbEntry
  pub left : Fifo DbEntry
  pub outs_eq : outs ≡ map some got
  pub flow :
      (f.items ++ s.writer.producer_batch_buffer) ++ ins
      ≡ got ++ (left.items ++ s'.writer.producer_batch_buffer)
  pub keeps : IsWriter s' left

pub idle : (s : Side) (f : Fifo DbEntry) → IsWriter s f → Moves s f s [] []
idle s f h = record { got = []; left = f; outs_eq = refl; flow = append-nil _; keeps = h }
