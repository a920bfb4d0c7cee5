-- ===== src/DbWriter/Tests.antt =====
-- Runs of the database writer, and uses of its theorems.
use profiling.Prelude.{
  ℕ, ◌≤◌, ◌≡◌, ◌≢◌, refl, sym, ◌∙◌, true, false, none, some, List, [], ◌∷◌, ◌++◌, map, arith,
  length, if◌then◌else◌, ltb, inr,
}
use profiling.CString.{text, same}
use profiling.Config.{default_config}
use profiling.Queue.{Queue, Timespec, queue_pop_batch}
use profiling.Queue.Threads.{popped_batch}
use profiling.Queue.Fifo.{Fifo}
use profiling.Queue.Refine.{Models}
use profiling.DbWriter.{
  DbEntry, DbWriter, no_latencies, count_latency, flush_threshold, db_writer_push_stack,
  db_writer_flush,
}
use profiling.DbWriter.Steps.{Step, push_stack, flush, pop_entries, Side, run_steps, IsWriter}
use profiling.DbWriter.Producer.{run_steps_lossless}
use profiling.DbWriter.Session.{
  commit, begin_transaction, executed, prepared, finalized, mempool_freed, Sqlite, DbHandle,
  parse_row, write_batch,
}
use profiling.DbWriter.Commit.{row_on, write_batch-one_hour}
use profiling.DbWriter.Lost.{commits, on_path, hour_change_loses_commit}
use profiling.DbWriter.Thread.{WriterThread}
use profiling.DbWriter.Reliable.{IsReliable}
use profiling.DbWriter.Drain.{run_turns, closed_with, stopped_thread_ends}

abbrev first : DbEntry
first = record { chunk = 64; timestamp_ns = 5000000000; stack_str = text "7|cat|main;read" }

abbrev second : DbEntry
second = record { chunk = 96; timestamp_ns = 3600000000000; stack_str = text "7|cat|main" }

-- An hour is a path of one byte; its database has that number as its handle.
abbrev sqlite : Sqlite
sqlite = record {
  db_path = λ s. (if ltb s 3600 then 1 else 2) ∷ [];
  open_db = λ path. some (if ltb (length path) 1 then 0 else 2);
  exec_ok = λ h sql. true;
  prepare_ok = λ h. true;
}

parsed : parse_row first ≡ record {
  timestamp = 5000000000;
  pid = some (text "7");
  process_name = text "cat";
  full_stack = text "main;read";
}
unfolding parse_row
parsed = refl

-- An empty process name is taken from the stack.
empty_name : parse_row (record first { stack_str = text "7||main;read" }) ≡ record {
  timestamp = 5000000000;
  pid = some (text "7");
  process_name = text "main;read";
  full_stack = [];
}
unfolding parse_row
empty_name = refl

two_latencies :
    count_latency 70000 (count_latency 1000 no_latencies)
    ≡ record { latency_buckets = 0 ∷ 1 ∷ 0 ∷ 0 ∷ 1 ∷ 0 ∷ 0 ∷ 0 ∷ 0 ∷ 0 ∷ []; count = 2 }
unfolding count_latency
two_latencies = refl

abbrev queue : Queue DbEntry
queue = record {
  buffer = first ∷ first ∷ [];
  capacity = 2;
  size = 1;
  head = 1;
  tail = 0;
  shutdown = false;
}

abbrev now : Timespec
now = record { tv_sec = 1; tv_nsec = 0 }

abbrev writer : DbWriter
writer = record {
  queue = queue;
  running = true;
  config = record default_config { producer_batch_size = 1 };
  entry_pool = record { pool = 96 ∷ []; pool_size = 1; chunk_size = 12352; count = 1 };
  producer_batch_buffer = [];
  push_latency = no_latencies;
}

abbrev side : Side
side = record { writer = writer; flushing = false }

abbrev one_queued : Fifo DbEntry
one_queued = record { items = first ∷ []; closed = false }

side-IsWriter : IsWriter side one_queued
unfolding flush_threshold
side-IsWriter = record {
  running = refl;
  accepts = refl;
  models = record { valid = omega arith; items = refl; closed = refl };
  bounded = omega arith;
  below = inr (omega arith);
}

abbrev steps : List Step
steps =
    push_stack 3600000000000 (text "7|cat|main") none
    ∷ flush true now now
    ∷ pop_entries 5 now now
    ∷ []

all_popped : (run_steps side steps).2 ≡ some first ∷ some second ∷ []
unfolding db_writer_push_stack db_writer_flush queue_pop_batch popped_batch
all_popped = refl

run_steps_lossless_example :
    let last = run_steps side steps in
    (got : List DbEntry) × (left : Fifo DbEntry) × (last.2 ≡ map some got)
    × (((first ∷ []) ++ []) ++ last.1 ≡ got ++ (left.items ++ last.0.writer.producer_batch_buffer))
    × Models last.0.writer.queue left
    × (length last.0.writer.producer_batch_buffer ≤ 4096)
run_steps_lossless_example = run_steps_lossless steps side one_queued side-IsWriter

write_batch-one_hour_example :
    let h : DbHandle = record { db = some 1; current_db_path = 1 ∷ [] } in
    write_batch sqlite h first (first ∷ []) ≡ (
      h,
      prepared 1
          ∷ executed (some 1) begin_transaction
          ∷ (map (row_on 1) (first ∷ first ∷ [])
              ++ (executed (some 1) commit ∷ finalized 1 ∷ map mempool_freed (first ∷ first ∷ []))),
    )
write_batch-one_hour_example = write_batch-one_hour sqlite 1 first (first ∷ []) refl (refl, tt)

abbrev first_handle : ℕ
first_handle = 1

abbrev second_handle : ℕ
second_handle = 2

changed : (write_batch sqlite (on_path sqlite 1 first) first (second ∷ [])).0.db ≡ some 2
unfolding write_batch
changed = refl

changed_ne : (write_batch sqlite (on_path sqlite 1 first) first (second ∷ [])).0.db ≢ some 1
changed_ne e = elim_two (sym changed ∙ e)
  where
    elim_two : some second_handle ≢ some first_handle
    elim_two e = ground arith

hour_change_loses_commit_example :
    commits 1 (write_batch sqlite (on_path sqlite 1 first) first (second ∷ [])).1 ≡ 0
hour_change_loses_commit_example =
    hour_change_loses_commit sqlite 1 first (second ∷ []) refl changed_ne

abbrev thread : WriterThread
thread = record {
  queue = record queue { shutdown = true };
  running = false;
  config = default_config;
  entry_pool = writer.entry_pool;
  handle = record { db = none; current_db_path = [] };
  pop_latency = no_latencies;
}

sqlite-IsReliable : IsReliable sqlite
unfolding same
sqlite-IsReliable = record {
  opens = λ path. (_, refl);
  executes = λ handle sql. refl;
  prepares = λ handle. refl;
  has_path = λ seconds. refl;
}

stopped_thread_ends_example :
    (last : WriterThread) × (run_turns sqlite true now now 2 thread ≡ some last)
    × Models last.queue (closed_with [])
stopped_thread_ends_example =
    stopped_thread_ends sqlite sqlite-IsReliable true now now thread (first ∷ []) refl (omega arith)
      (record { valid = omega arith; items = refl; closed = refl }) (inr refl)
