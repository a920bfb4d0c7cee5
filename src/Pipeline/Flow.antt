-- ===== src/Pipeline/Flow.antt =====
-- The event loop and the symbolizer thread at work on one queue and one pool, in steps.
use profiling.Prelude.{
  times, ℕ, ◌+◌, ◌≡◌, Bool, false, Option, none, some, List, [], ◌∷◌, map, ◌==◌, if◌then◌else◌,
}
use profiling.Mempool.{Mempool, available, mempool_free}
use profiling.Mempool.Conservation.{IsMempool, times?, from_malloc, alloc}
use profiling.Queue.{Attempt, waits, returns, queue_push, queue_pop}
use profiling.Queue.Fifo.{Fifo}
use profiling.Queue.Refine.{Models}
use profiling.Sample.{CallchainResult, little_endian}
use profiling.Symbolize.{Sources}
use profiling.Pipeline.{
  RawSample, dispatch_sample_event, Symbolizer, SymbolizerTurn, asleep, ends, pushes,
  symbolizer_turn,
}

-- `pending` is the sample with which the event loop is in `queue_push`.
pub record Flow : Type 0 where
  pub thread : Symbolizer
  pub pending : Option RawSample

-- The event loop takes a record, or tries to push; the symbolizer thread takes a turn.
pub data FlowStep : Type 0 where
  takes_record : Bool → List ℕ → CallchainResult → Option ℕ → FlowStep
  tries_push : FlowStep
  takes_turn : Sources → FlowStep

abbrev pub after_push_attempt : Flow → Attempt RawSample (Unit {0}) → Flow
after_push_attempt s (waits c) = s
after_push_attempt s (returns r queue wakes) = record {
  thread = record s.thread { symbolizer_queue = queue };
  pending = none;
}

abbrev pub after_turn : Flow → SymbolizerTurn → Flow
after_turn s (asleep c) = s
after_turn s (ends t) = record s { thread = t }
after_turn s (pushes t timestamp stack) = record s { thread = t }

abbrev pub after_dispatch : Flow → Mempool × Option RawSample → Flow
after_dispatch s (pool, sample) = record {
  thread = record s.thread { sample_pool = pool };
  pending = sample;
}

-- A loop that waits in `queue_push` takes no record.
abbrev pub flow_step : Flow → FlowStep → Flow
flow_step s (takes_record use_lbr header result malloced) = elim s.pending [
  | some sample ↦ s
  | none ↦
      after_dispatch s (dispatch_sample_event use_lbr s.thread.sample_pool header result malloced)
]
flow_step s tries_push = elim s.pending [
  | none ↦ s
  | some sample ↦ after_push_attempt s (queue_push s.thread.symbolizer_queue sample)
]
flow_step s (takes_turn sources) = after_turn s (symbolizer_turn sources s.thread)

abbrev pub run_flow : Flow → List FlowStep → Flow
run_flow s [] = s
run_flow s (step ∷ steps) = run_flow (flow_step s step) steps

-- What `malloc` gives in a step, for a sample that finds the pool empty.
abbrev pub malloc_gives : Flow → FlowStep → Option ℕ
malloc_gives s (takes_record use_lbr header result malloced) = elim s.pending [
  | some sample ↦ none
  | none ↦
      if little_endian 4 header == 9
      then from_malloc s.thread.sample_pool (alloc malloced)
      else none
]
malloc_gives s tries_push = none
malloc_gives s (takes_turn sources) = none

abbrev pub chunk_of : Option RawSample → Option ℕ
chunk_of none = none
chunk_of (some sample) = some sample.chunk

abbrev pub popped_chunk : Attempt RawSample (Option RawSample) → Option ℕ
popped_chunk (waits c) = none
popped_chunk (returns sample queue wakes) = chunk_of sample

-- What a step gives to `free`, where the pool is full.
abbrev pub freed : Flow → FlowStep → List ℕ
freed s (takes_record use_lbr header result malloced) = []
freed s tries_push = []
freed s (takes_turn sources) =
    (mempool_free s.thread.sample_pool (popped_chunk (queue_pop s.thread.symbolizer_queue))).1

abbrev pub mallocs : ℕ → Flow → List FlowStep → ℕ
mallocs a s [] = 0
mallocs a s (step ∷ steps) = times? a (malloc_gives s step) + mallocs a (flow_step s step) steps

abbrev pub frees : ℕ → Flow → List FlowStep → ℕ
frees a s [] = 0
frees a s (step ∷ steps) = times a (freed s step) + frees a (flow_step s step) steps

-- A well-formed pool, and an open queue that holds the samples of `f`.
pub record IsFlow (s : Flow) (f : Fifo RawSample) : Type 0 where
  pub pool : IsMempool s.thread.sample_pool
  pub queue : Models s.thread.symbolizer_queue f
  pub open_queue : f.closed ≡ false

-- How often a chunk is in the pool, in the queue, or with the event loop.
abbrev pub in_flow : ℕ → Flow → Fifo RawSample → ℕ
in_flow a s f =
    times a (available s.thread.sample_pool)
    + (times a (map (λ (sample : RawSample). sample.chunk) f.items) + times? a (chunk_of s.pending))
