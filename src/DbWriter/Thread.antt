-- ===== src/DbWriter/Thread.antt =====
-- src/utils/database.c: a turn of the loop of `db_writer_thread_func`, and what `db_writer_wait` does
-- after it. The memory for the buffer of a batch is there.
use profiling.Prelude.{ℕ, Bool, ◌||◌, Option, none, some, List, [], ◌∷◌, ltb, if◌then◌else◌}
use profiling.Config.{ProfilingConfig}
use profiling.Mempool.{Mempool, mempool_free}
use profiling.Queue.{Queue, Attempt, waits, returns, Timespec, Cond, queue_pop_batch}
use profiling.DbWriter.{DbEntry, Histogram, count_latency, print_histogram}
use profiling.DbWriter.Session.{Event, mempool_freed, Sqlite, DbHandle, write_batch, frees_chunk}

pub record WriterThread : Type 0 where
  pub queue : Queue DbEntry
  pub running : Bool
  pub config : ProfilingConfig
  pub entry_pool : Mempool
  pub handle : DbHandle
  pub pop_latency : Histogram

-- It sleeps in `queue_pop_batch`; it comes to the next turn, with the events of SQLite and of the
-- entries and the histograms that are written; or it leaves the loop. A turn that gives a part of a
-- chunk of the pool to `free` is `undefined`, with its events.
pub data Turn : Type 0 where
  asleep : Cond → Turn
  undefined : List Event → Turn
  goes_on : WriterThread → List Event → List (List ℕ) → Turn
  exits : WriterThread → Turn

abbrev pub entries_of : List (Option DbEntry) → List DbEntry
entries_of [] = []
entries_of (none ∷ items) = entries_of items
entries_of (some entry ∷ items) = entry ∷ entries_of items

-- The pool with the entries given back to it.
unfoldable pub give_back : Mempool → List Event → Mempool
unfolding mempool_free
give_back pool [] = pool
give_back pool (mempool_freed entry ∷ events) =
    give_back (mempool_free pool (some entry.chunk)).0 events
give_back pool (event ∷ events) = give_back pool events

module _ (sqlite : Sqlite) (log_opens : Bool) where
  unfoldable pub use_batch : WriterThread → List DbEntry → Turn
  unfolding print_histogram write_batch give_back
  use_batch t [] = if t.running then goes_on t [] [] else exits t
  use_batch t (first ∷ rest) =
      let printed = print_histogram t.config.histogram_print_threshold log_opens t.pop_latency in
      let written = write_batch sqlite t.handle first rest in
      if frees_chunk written.1
      then undefined written.1
      else goes_on
          (record t {
            pop_latency = printed.0;
            handle = written.0;
            entry_pool = give_back t.entry_pool written.1;
          })
          written.1 printed.1

  unfoldable pub after_pop : WriterThread → Attempt DbEntry (List (Option DbEntry) × ℕ) → Turn
  unfolding use_batch count_latency
  after_pop t (waits c) = asleep c
  after_pop t (returns (items, latency_ns) queue wakes) =
      use_batch (record t { queue = queue; pop_latency = count_latency latency_ns t.pop_latency })
        (entries_of items)

  unfoldable pub thread_turn : WriterThread → Timespec → Timespec → Turn
  unfolding after_pop queue_pop_batch
  thread_turn t start end =
      if t.running || ltb 0 t.queue.size
      then after_pop t (queue_pop_batch t.queue t.config.db_batch_size start end)
      else exits t

-- After the thread has ended: the handle that `db_writer_wait` closes, if there is one.
unfoldable pub wait_closes : WriterThread → Option ℕ
wait_closes t = t.handle.db

-- `none` is a NULL context.
unfoldable pub db_writer_get_db_handle : Option WriterThread → Option ℕ
db_writer_get_db_handle none = none
db_writer_get_db_handle (some t) = t.handle.db
