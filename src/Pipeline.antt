-- ===== src/Pipeline.antt =====
-- The two ends of the queue of samples: `dispatch_sample_event` of src/core/main_loop.c, which the
-- event loop calls for each record, and the loop of `symbolizer_thread_func` of src/core/handler.c. It
-- composes the parser of samples, the memory pool, the queue and the symbolization.
pub mod Dispatch
pub mod Flow
pub mod Ends
pub mod Chunks
pub mod Order
pub mod Loop
mod Tests
use profiling.Prelude.{
  ℕ, ◌+◌, ◌^◌, Bool, true, false, Option, none, some, List, [], ◌∷◌, ltb, ◌==◌, if◌then◌else◌, take,
}
use profiling.CString.{CString}
use profiling.Mempool.{Mempool, mempool_alloc, mempool_free}
use profiling.Queue.{Queue, Attempt, waits, returns, queue_init, queue_push, queue_pop, Wake, Cond}
use profiling.Sample.{CallchainResult, little_endian, parse_sample_data}
use profiling.Processes.{ProcessTable}
use profiling.ElfFiles.{ElfFileCache}
use profiling.Symbolize.{
  Frames, Sources, ResolvedArea, symbolize_frames, db_stack_str, realtime_timestamp,
}

abbrev pub max_stack_depth_copy : ℕ
max_stack_depth_copy = 128

-- `struct raw_sample`, in a chunk of the pool; `ips` is its first `nr` addresses.
pub record RawSample : Type 0 where
  pub chunk : ℕ
  pub timestamp_ns : ℕ
  pub pid : ℕ
  pub tid : ℕ
  pub ip : ℕ
  pub nr : ℕ
  pub ips : List ℕ

-- PERF_RECORD_SAMPLE, in the first 4 bytes of a record.
abbrev pub perf_record_sample : ℕ
perf_record_sample = 9

-- The sample is filled from the result of the parser.
unfoldable pub fill_sample : ℕ → CallchainResult → RawSample
fill_sample chunk result =
    let nr = if ltb result.nr max_stack_depth_copy then result.nr else max_stack_depth_copy in
    record {
      chunk = chunk;
      timestamp_ns = result.timestamp_ns;
      pid = result.pid;
      tid = result.tid;
      ip = result.ip;
      nr = nr;
      ips = take nr result.ips;
    }

-- The part behind `mempool_alloc`: without a chunk the sample is dropped.
unfoldable pub with_chunk : CallchainResult → Option ℕ × Mempool → Mempool × Option RawSample
unfolding fill_sample
with_chunk result (none, pool) = (pool, none)
with_chunk result (some chunk, pool) = (pool, some (fill_sample chunk result))

-- Up to the call of `queue_push`: the pool, and the sample that is pushed, if there is one. `result`
-- is what the memory of the local variable has; `malloced` is what `malloc` returns if the pool is
-- empty.
unfoldable pub dispatch_sample_event :
    Bool → Mempool → List ℕ → CallchainResult → Option ℕ → Mempool × Option RawSample
unfolding little_endian parse_sample_data with_chunk mempool_alloc
dispatch_sample_event use_lbr pool header result malloced =
    if little_endian 4 header == perf_record_sample
    then with_chunk (parse_sample_data use_lbr max_stack_depth_copy header result)
        (mempool_alloc pool malloced)
    else (pool, none)

-- `none` is -1: no queue, or no thread; `created` is whether `pthread_create` makes one.
unfoldable pub symbolizer_init : Bool → Option (List RawSample) → Bool → Option (Queue RawSample)
unfolding queue_init
symbolizer_init allocated storage created =
    let queue = queue_init allocated storage 1024 in if created then queue else none

-- What the thread changes, and the clocks at the start.
pub record Symbolizer : Type 0 where
  pub symbolizer_queue : Queue RawSample
  pub sample_pool : Mempool
  pub process_table : ProcessTable
  pub elf_cache : ElfFileCache
  pub resolved : List ResolvedArea
  pub monotonic_start_ns : ℕ
  pub realtime_start_ns : ℕ

-- A turn: it sleeps in `queue_pop`; it ends at NULL; or it goes on, with the arguments of
-- `db_writer_push_stack`.
pub data SymbolizerTurn : Type 0 where
  asleep : Cond → SymbolizerTurn
  ends : Symbolizer → SymbolizerTurn
  pushes : Symbolizer → ℕ → CString → SymbolizerTurn

-- What is done with a sample: it is symbolized, and its chunk goes back to the pool.
unfoldable pub symbolize_sample : Sources → Symbolizer → RawSample → SymbolizerTurn
unfolding symbolize_frames db_stack_str realtime_timestamp mempool_free
symbolize_sample sources t sample =
    let frames =
      symbolize_frames sources sample.pid t.process_table t.elf_cache t.resolved sample.ip
        sample.ips in
    pushes
      (record t {
        sample_pool = (mempool_free t.sample_pool (some sample.chunk)).0;
        process_table = frames.process_table;
        elf_cache = frames.elf_cache;
        resolved = frames.resolved;
      })
      (realtime_timestamp sample.timestamp_ns t.monotonic_start_ns t.realtime_start_ns)
      (db_stack_str sample.pid frames)

unfoldable pub after_queue_pop :
    Sources → Symbolizer → Attempt RawSample (Option RawSample) → SymbolizerTurn
unfolding symbolize_sample
after_queue_pop sources t (waits c) = asleep c
after_queue_pop sources t (returns none queue wakes) = ends (record t { symbolizer_queue = queue })
after_queue_pop sources t (returns (some sample) queue wakes) =
    symbolize_sample sources (record t { symbolizer_queue = queue }) sample

unfoldable pub symbolizer_turn : Sources → Symbolizer → SymbolizerTurn
unfolding after_queue_pop queue_pop
symbolizer_turn sources t = after_queue_pop sources t (queue_pop t.symbolizer_queue)
