-- ===== src/DbWriter.antt =====
-- src/utils/database.c, the producer's side: stacks are copied to chunks of the pool, collected in a
-- buffer and pushed to the queue of the writer thread in batches; a histogram counts the latencies.
-- The text of the log file is left out: an output is the counts that it shows.
pub mod Steps
pub mod Moves
pub mod Producer
pub mod Session
pub mod Commit
pub mod Lost
pub mod Rows
pub mod Thread
pub mod Reliable
pub mod Drain
mod Tests
use profiling.Prelude.{
  ℕ, zero, suc, ◌+◌, ◌-◌, ◌*◌, ◌/◌, ◌%◌, ◌^◌, Bool, true, false, not, ◌&&◌, ◌||◌, Option, none,
  some, List, [], ◌∷◌, ◌++◌, ltb, leb, ◌==◌, if◌then◌else◌, length, replicate, set,
}
use profiling.CString.{CString}
use profiling.Config.{ProfilingConfig}
use profiling.Mempool.{Mempool, mempool_create, mempool_alloc}
use profiling.Queue.{
  Queue, Attempt, waits, returns, Timespec, Wake, Cond, queue_init, queue_push_batch,
  queue_signal_shutdown,
}

abbrev pub num_latency_buckets : ℕ
num_latency_buckets = 10

abbrev pub max_producer_batch_size : ℕ
max_producer_batch_size = 4096

abbrev pub queue_capacity : ℕ
queue_capacity = 1024

-- `bucket_thresholds`; the last bucket, -1, has no limit.
abbrev pub bucket_thresholds : List ℕ
bucket_thresholds =
    1000 ∷ 5000 ∷ 10000 ∷ 50000 ∷ 100000 ∷ 500000 ∷ 1000000 ∷ 5000000 ∷ 10000000 ∷ []

-- The static counters of one side, for push or for pop.
pub record Histogram : Type 0 where
  pub latency_buckets : List ℕ
  pub count : ℕ

abbrev pub no_latencies : Histogram
no_latencies = record { latency_buckets = replicate num_latency_buckets 0; count = 0 }

-- The loop that counts a latency in its bucket, and stops there.
unfoldable pub count_bucket : List ℕ → ℕ → List ℕ → List ℕ
count_bucket thresholds latency_ns [] = []
count_bucket [] latency_ns (n ∷ buckets) = (n + 1) ∷ buckets
count_bucket (threshold ∷ thresholds) latency_ns (n ∷ buckets) =
    let rest = count_bucket thresholds latency_ns buckets in
    if ltb latency_ns threshold then (n + 1) ∷ buckets else n ∷ rest

unfoldable pub count_latency : ℕ → Histogram → Histogram
unfolding count_bucket
count_latency latency_ns h = record {
  latency_buckets = count_bucket bucket_thresholds latency_ns h.latency_buckets;
  count = h.count + 1;
}

-- At the threshold the counts are written, if the log file opens, and start again.
unfoldable pub print_histogram : ℕ → Bool → Histogram → Histogram × List (List ℕ)
print_histogram threshold log_opens h =
    if leb threshold h.count
    then (no_latencies, if log_opens then h.latency_buckets ∷ [] else [])
    else (h, [])

-- An entry is in a chunk of the pool.
pub record DbEntry : Type 0 where
  pub chunk : ℕ
  pub timestamp_ns : ℕ
  pub stack_str : CString

-- The context, and the static variables of the producer. `none` is a thread that does not exist.
pub record DbWriter : Type 0 where
  pub queue : Queue DbEntry
  pub running : Bool
  pub config : ProfilingConfig
  pub entry_pool : Mempool
  pub producer_batch_buffer : List DbEntry
  pub push_latency : Histogram

abbrev pub entry_header_size : ℕ
entry_header_size = 16

-- The size of a chunk, for a depth whose product does not wrap around.
abbrev pub entry_size : ProfilingConfig → ℕ
entry_size config = entry_header_size + config.max_stack_depth * 257

abbrev pub fresh_writer : ProfilingConfig → Queue DbEntry → Mempool → DbWriter
fresh_writer config queue pool = record {
  queue = queue;
  running = false;
  config = config;
  entry_pool = pool;
  producer_batch_buffer = [];
  push_latency = no_latencies;
}

-- What the calls outside return when the writer is made: `stat`, `mkdir`, the allocations; `chunks`
-- has one for each of the `db_entry_pool_size` entries.
pub record InitCalls : Type 0 where
  pub stat_ok : Bool
  pub mkdir_ok : Bool
  pub context : Bool
  pub queue : Bool
  pub queue_buffer : Option (List DbEntry)
  pub chunks : List (Option ℕ)

abbrev with_pool : ProfilingConfig → Queue DbEntry → Option Mempool × List ℕ → Option DbWriter
with_pool config queue (none, freed) = none
with_pool config queue (some pool, freed) = some (fresh_writer config queue pool)

abbrev with_queue : ProfilingConfig → InitCalls → Option (Queue DbEntry) → Option DbWriter
with_queue config calls none = none
with_queue config calls (some queue) =
    with_pool config queue (mempool_create (entry_size config) calls.chunks)

-- `none` is NULL.
unfoldable pub db_writer_init : ProfilingConfig → InitCalls → Option DbWriter
unfolding mempool_create queue_init
db_writer_init config calls =
    if not calls.stat_ok && not calls.mkdir_ok
    then none
    else if calls.context
    then with_queue config calls (queue_init calls.queue calls.queue_buffer queue_capacity)
    else none

-- `created` is whether `pthread_create` makes the thread.
unfoldable pub db_writer_start : DbWriter → Bool → DbWriter
db_writer_start w created = record w { running = created }

-- The writer after `db_writer_flush`, or that it sleeps in `queue_push_batch` with nothing changed.
pub data Flush : Type 0 where
  sleeps : Cond → Flush
  flushed : DbWriter → List (List ℕ) → List Wake → Flush

unfoldable pub after_push : DbWriter → Bool → Attempt DbEntry ℕ → Flush
unfolding count_latency print_histogram
after_push w log_opens (waits c) = sleeps c
after_push w log_opens (returns latency_ns queue wakes) =
    let printed =
      print_histogram w.config.histogram_print_threshold log_opens
        (count_latency latency_ns w.push_latency) in
    flushed (record w { queue = queue; producer_batch_buffer = []; push_latency = printed.0 })
      printed.1 wakes

unfoldable pub flush_entries : DbWriter → List DbEntry → Bool → Timespec → Timespec → Flush
unfolding queue_push_batch after_push
flush_entries w [] log_opens start end = flushed w [] []
flush_entries w (entry ∷ entries) log_opens start end =
    after_push w log_opens (queue_push_batch w.queue (some (entry ∷ entries)) start end)

-- `log_opens` is whether `fopen` opens the log file; the readings are those of `queue_push_batch`.
unfoldable pub db_writer_flush : DbWriter → Bool → Timespec → Timespec → Flush
unfolding flush_entries
db_writer_flush w log_opens start end = flush_entries w w.producer_batch_buffer log_opens start end

unfoldable pub flush_threshold : ProfilingConfig → ℕ
flush_threshold config =
    let size = config.producer_batch_size in
    if (size == 0) || leb (2 ^ 31) size || ltb max_producer_batch_size size
    then max_producer_batch_size
    else size

-- The entry is put in the buffer; the second part is whether `db_writer_flush` is called then.
-- `malloced` is what `malloc` returns if the pool is empty.
unfoldable pub push_allocated : DbWriter → ℕ → CString → Option ℕ × Mempool → DbWriter × Bool
unfolding flush_threshold
push_allocated w timestamp_ns stack_str (none, pool) = (record w { entry_pool = pool }, false)
push_allocated w timestamp_ns stack_str (some chunk, pool) =
    let entry : DbEntry = record {
      chunk = chunk;
      timestamp_ns = timestamp_ns;
      stack_str = stack_str;
    } in
    let buffer = w.producer_batch_buffer ++ (entry ∷ []) in
    (
      record w { entry_pool = pool; producer_batch_buffer = buffer },
      ltb 0 (length buffer) && leb (flush_threshold w.config) (length buffer),
    )

unfoldable pub db_writer_push_stack : DbWriter → ℕ → CString → Option ℕ → DbWriter × Bool
unfolding mempool_alloc push_allocated
db_writer_push_stack w timestamp_ns stack_str malloced =
    if w.running
    then push_allocated w timestamp_ns stack_str (mempool_alloc w.entry_pool malloced)
    else (w, false)

-- How many bytes of its chunk `db_writer_push_stack` writes for a string.
abbrev pub entry_bytes : CString → ℕ
entry_bytes stack_str = entry_header_size + (length stack_str + 1)

-- The two parts of `db_writer_stop` round the flush of what is left.
unfoldable pub stop_running : DbWriter → DbWriter
stop_running w = record w { running = false }

unfoldable pub closed_queue : DbWriter → Attempt DbEntry (Unit {0}) → DbWriter
closed_queue w (waits c) = w
closed_queue w (returns r queue wakes) = record w { queue = queue }

unfoldable pub close_queue : DbWriter → DbWriter
unfolding queue_signal_shutdown closed_queue
close_queue w = closed_queue w (queue_signal_shutdown w.queue)
