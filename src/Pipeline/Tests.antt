-- ===== src/Pipeline/Tests.antt =====
-- A sample from the ring to the database writer, and the theorem at it.
use profiling.Prelude.{
  ◌++◌, ℕ, ◌+◌, ◌≡◌, refl, true, false, Option, none, some, List, [], ◌∷◌, arith, replicate,
}
use profiling.CString.{CString, text}
use profiling.Tree.{unbalanced}
use profiling.Config.{filter_all}
use profiling.Mempool.{Mempool, mempool_alloc}
use profiling.Queue.{Queue, cond_empty, queue_push}
use profiling.Sample.{CallchainResult, little_endian}
use profiling.Sample.Encode.{encode, IsSample}
use profiling.Processes.{empty_table}
use profiling.ElfFiles.{empty_cache}
use profiling.Symbolize.{Sources}
use profiling.Pipeline.{
  RawSample, Symbolizer, SymbolizerTurn, asleep, ends, pushes, dispatch_sample_event,
  symbolizer_turn,
}
use profiling.Queue.Fifo.{Fifo}
use profiling.Pipeline.Flow.{
  Flow, FlowStep, takes_record, tries_push, takes_turn, run_flow, IsFlow, in_flow, mallocs, frees,
}
use profiling.Pipeline.Chunks.{run_flow_conserves}
use profiling.Pipeline.Order.{
  writer_calls, dispatched, in_line, IsOpen, AreCallsOf, run_flow_in_order,
}
use profiling.Pipeline.Dispatch.{in_chunk, dispatch_sample_event-encode}

abbrev header : List ℕ
header = 9 ∷ 0 ∷ 0 ∷ 0 ∷ 2 ∷ 0 ∷ 72 ∷ 0 ∷ []

abbrev sample : CallchainResult
sample = record {
  timestamp_ns = 1500;
  pid = 4711;
  tid = 4712;
  ip = 0xffffffff81000000;
  nr = 1;
  ips = 0x401000 ∷ [];
}

abbrev old : CallchainResult
old = record { timestamp_ns = 99; pid = 1; tid = 1; ip = 1; nr = 1; ips = 1 ∷ [] }

sample-IsSample : IsSample 128 sample
sample-IsSample = record {
  ip_lt = omega arith;
  pid_lt = omega arith;
  tid_lt = omega arith;
  time_lt = omega arith;
  nr_lt = omega arith;
  ips_lt = omega arith;
  counted = refl;
  room = omega arith;
}

abbrev pool : Mempool
pool = record { pool = 4096 ∷ []; pool_size = 1; chunk_size = 1064; count = 1 }

dispatch_sample_event-encode_example :
    dispatch_sample_event false pool (encode header sample (replicate 16 7)) old none
    ≡ (record pool { count = 0 }, some (in_chunk sample 4096))
unfolding little_endian mempool_alloc
dispatch_sample_event-encode_example =
    dispatch_sample_event-encode pool sample old header (replicate 16 7) none sample-IsSample refl

abbrev queue : List RawSample → ℕ → Queue RawSample
queue buffer size = record {
  buffer = buffer;
  capacity = 1024;
  size = size;
  head = 0;
  tail = size;
  shutdown = false;
}

-- No process can be read.
abbrev sources : Sources
sources = record {
  vma_lib = unbalanced;
  symbol_lib = unbalanced;
  filter_mode = filter_all;
  kernel_symbols = none;
  kernel = λ i. record {
    kill = λ pid. false;
    start_time_of = λ pid. 0;
    comm = λ pid. none;
    cmdline = λ pid. none;
    maps = λ pid. none;
    calloc = λ pid. false;
    memory = λ pid. record { calloc = λ n. false; strdup = λ n. false };
  };
  files = λ i. record {
    open_elf = λ path. none;
    id_string = true;
    node = true;
    path_string = true;
    collection = true;
  };
}

abbrev symbolizer : List RawSample → ℕ → ℕ → Symbolizer
symbolizer buffer size count = record {
  symbolizer_queue = queue buffer size;
  sample_pool = record pool { count = count };
  process_table = empty_table;
  elf_cache = empty_cache;
  resolved = [];
  monotonic_start_ns = 1000;
  realtime_start_ns = 700000;
}

abbrev turn : SymbolizerTurn
turn = symbolizer_turn sources (symbolizer (in_chunk sample 4096 ∷ []) 1 0)

abbrev text_of : SymbolizerTurn → CString
text_of (pushes t time stack) = stack
text_of (asleep c) = []
text_of (ends t) = []

abbrev pool_of : SymbolizerTurn → Option Mempool
pool_of (pushes t time stack) = some t.sample_pool
pool_of (asleep c) = none
pool_of (ends t) = none

-- The sample in the queue goes on to the database, and its chunk back to the pool; then the thread
-- sleeps.
turns :
    (text_of turn
      ≡ text "4711|unknown|unknown[4711];unknown_kernel_function [kernel];[unknown_process]")
    × (pool_of turn ≡ some pool)
    × (symbolizer_turn sources (symbolizer [] 0 1) ≡ asleep cond_empty)
unfolding symbolizer_turn
turns = (refl, refl, refl)

-- A queue of two places; no sample is in it.
abbrev flow : Flow
flow = record {
  thread = record (symbolizer [] 0 1) {
    symbolizer_queue = record (queue (in_chunk sample 1 ∷ in_chunk sample 2 ∷ []) 0) {
      capacity = 2;
    };
  };
  pending = none;
}

abbrev no_samples : Fifo RawSample
no_samples = record { items = []; closed = false }

flow-IsFlow : IsFlow flow no_samples
flow-IsFlow = record {
  pool = record { count_le = omega arith; slots = refl };
  queue = record {
    valid = record {
      room = omega arith;
      head_in = omega arith;
      size_in = omega arith;
      tail_at = refl;
    };
    items = refl;
    closed = refl;
  };
  open_queue = refl;
}

-- The second sample finds the pool empty, and malloc gives a chunk.
abbrev flow_steps : List FlowStep
flow_steps =
    takes_record false (encode header sample (replicate 16 7)) old none
    ∷ tries_push
    ∷ takes_record false (encode header sample (replicate 16 7)) old (some 8192)
    ∷ takes_turn sources
    ∷ []

run_flow_conserves_example :
    (left : Fifo RawSample) × IsFlow (run_flow flow flow_steps) left
    × (in_flow 4096 flow no_samples + mallocs 4096 flow flow_steps
        ≡ in_flow 4096 (run_flow flow flow_steps) left + frees 4096 flow flow_steps)
run_flow_conserves_example = run_flow_conserves flow_steps flow no_samples 4096 flow-IsFlow

-- The call for the first sample.
first_call :
    writer_calls flow flow_steps
    ≡ (700500, text "4711|unknown|unknown[4711];unknown_kernel_function [kernel];[unknown_process]")
      ∷ []
unfolding symbolizer_turn dispatch_sample_event queue_push
first_call = refl

run_flow_in_order_example :
    (symbolized : List RawSample) × (left : Fifo RawSample) × IsOpen (run_flow flow flow_steps) left
    × (in_line flow no_samples ++ dispatched flow flow_steps
        ≡ symbolized ++ in_line (run_flow flow flow_steps) left)
    × AreCallsOf (1000, 700000) symbolized (writer_calls flow flow_steps)
run_flow_in_order_example =
    run_flow_in_order flow_steps flow no_samples (1000, 700000) (flow-IsFlow.queue, refl) refl
