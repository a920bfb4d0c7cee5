-- ===== src/Pipeline/Chunks.antt =====
-- No buffer of a sample is lost between the event loop and the symbolizer thread.
use mathlib.Core.List.{map-append}
use mathlib.Core.Path.{subst}
use profiling.Prelude.{
  times, times-append, ℕ, ◌+◌, ◌≡◌, refl, sym, ap, Bool, Option, none, some, List, [], ◌∷◌, map,
  arith, ◌==◌, if◌then◌else◌, Bool-cases, inl, inr,
}
use profiling.Mempool.{Mempool, available, mempool_alloc, mempool_free}
use profiling.Mempool.Conservation.{
  IsMempool, times?, from_malloc, alloc, alloc_conserves, free_conserves,
}
use profiling.Queue.{Attempt, waits, returns}
use profiling.Queue.Fifo.{Fifo}
use profiling.Queue.Refine.{Does, queue_push-Does}
use profiling.Queue.Pop.{queue_pop-Does}
use profiling.Sample.{CallchainResult, little_endian, parse_sample_data}
use profiling.Symbolize.{Sources}
use profiling.Pipeline.{
  RawSample, fill_sample, with_chunk, dispatch_sample_event, Symbolizer, symbolize_sample,
  after_queue_pop, symbolizer_turn, max_stack_depth_copy,
}
use profiling.Pipeline.Ends.{Takes, pop-Takes, Adds, push-Adds}
use profiling.Pipeline.Flow.{
  Flow, FlowStep, after_push_attempt, after_turn, after_dispatch, flow_step, run_flow, malloc_gives,
  chunk_of, popped_chunk, freed, mallocs, frees, IsFlow, in_flow, takes_record, tries_push,
  takes_turn,
}

-- A step that leads to `s'`.
record Conserves (a : ℕ) (s : Flow) (f : Fifo RawSample) (s' : Flow) (came : Option ℕ)
    (went : List ℕ) : Type 0 where
  left : Fifo RawSample
  keeps : IsFlow s' left
  conserved : in_flow a s f + times? a came ≡ in_flow a s' left + times a went

stays : (a : ℕ) (s : Flow) (f : Fifo RawSample) → IsFlow s f → Conserves a s f s none []
stays a s f h = record { left = f; keeps = h; conserved = refl }

with_chunk_parts :
    (result : CallchainResult) (got : Option ℕ × Mempool)
    → ((with_chunk result got).0 ≡ got.1) × (chunk_of (with_chunk result got).1 ≡ got.0)
unfolding with_chunk fill_sample
with_chunk_parts result (none, pool) = (refl, refl)
with_chunk_parts result (some chunk, pool) = (refl, refl)

module _ (a : ℕ) (s : Flow) (f : Fifo RawSample) (h : IsFlow s f) where
  sample-Conserves :
      (result : CallchainResult) (malloced : Option ℕ)
      → s.pending ≡ none
      → Conserves a s f
          (after_dispatch s (with_chunk result (mempool_alloc s.thread.sample_pool malloced)))
          (from_malloc s.thread.sample_pool (alloc malloced))
          []
  sample-Conserves result malloced e =
      let got = mempool_alloc s.thread.sample_pool malloced in
      let (is_pool, kept) = alloc_conserves s.thread.sample_pool malloced a h.pool in
      let (pool_eq, chunk_eq) = with_chunk_parts result got in
      record {
        left = f;
        keeps = record {
          pool = subst IsMempool (sym pool_eq) is_pool;
          queue = h.queue;
          open_queue = h.open_queue;
        };
        conserved =
            let at_pool = ap (λ (mp : Mempool). times a (available mp)) pool_eq in
            let at_chunk = ap (times? a) chunk_eq in
            let at_pending = ap (λ (p : Option RawSample). times? a (chunk_of p)) e in
            omega (arith, kept, at_pool, at_chunk, at_pending);
      }

  record-Conserves :
      (use_lbr : Bool) (header : List ℕ) (result : CallchainResult) (malloced : Option ℕ)
      → s.pending ≡ none
      → Conserves a s f
          (after_dispatch s
            (dispatch_sample_event use_lbr s.thread.sample_pool header result malloced))
          (if little_endian 4 header == 9
            then from_malloc s.thread.sample_pool (alloc malloced)
            else none)
          []
  unfolding dispatch_sample_event
  record-Conserves use_lbr header result malloced e =
      elim (Bool-cases (little_endian 4 header == 9)) [
        | inl sample ↦ rw sample (
            sample-Conserves (parse_sample_data use_lbr max_stack_depth_copy header result) malloced
              e)
        | inr other ↦ rw other (record {
          left = f;
          keeps = record { pool = h.pool; queue = h.queue; open_queue = h.open_queue };
          conserved =
              let at_pending = ap (λ (p : Option RawSample). times? a (chunk_of p)) e in
              omega (arith, at_pending);
        })
      ]

  push-Conserves :
      (sample : RawSample) (attempt : Attempt RawSample (Unit {0}))
      (spec : Option (Unit {0} × Fifo RawSample))
      → s.pending ≡ some sample
      → Does (λ r. r) attempt spec
      → Adds f sample spec
      → Conserves a s f (after_push_attempt s attempt) none []
  push-Conserves sample (waits c) spec e d adds = stays a s f h
  push-Conserves sample (returns r queue wakes) none e d adds = absurd d
  push-Conserves sample (returns r queue wakes) (some (u, g)) e d adds = record {
    left = g;
    keeps = record { pool = h.pool; queue = d.1; open_queue = adds.1 };
    conserved =
        let at_pending = ap (λ (p : Option RawSample). times? a (chunk_of p)) e in
        let chunks : List RawSample → List ℕ = map (λ (x : RawSample). x.chunk) in
        let at_items = ap (λ l. times a (chunks l)) adds.0 in
        let at_end = ap (times a) (map-append (λ (x : RawSample). x.chunk) f.items (sample ∷ [])) in
        let sum = times-append a (chunks f.items) (sample.chunk ∷ []) in
        omega (arith, at_pending, at_items, at_end, sum);
  }

  turn-Conserves :
      (sources : Sources) (attempt : Attempt RawSample (Option RawSample))
      (spec : Option (Option RawSample × Fifo RawSample))
      → Does (λ r. r) attempt spec
      → Takes f.items spec
      → Conserves a s f
          (after_turn s (after_queue_pop sources s.thread attempt))
          none
          (mempool_free s.thread.sample_pool (popped_chunk attempt)).1
  unfolding after_queue_pop symbolize_sample mempool_free
  turn-Conserves sources (waits c) spec d takes = stays a s f h
  turn-Conserves sources (returns r queue wakes) none d takes = absurd d
  turn-Conserves sources (returns r queue wakes) (some (none, g)) d takes = absurd takes
  turn-Conserves sources (returns none queue wakes) (some (some sample, g)) d takes =
      absurd (ground arith)
  turn-Conserves sources (returns (some sample') queue wakes) (some (some sample, g)) d takes =
      let (is_pool, kept) = free_conserves s.thread.sample_pool (some sample'.chunk) a h.pool in
      record {
        left = g;
        keeps = record { pool = is_pool; queue = d.1; open_queue = takes.1 };
        conserved =
            let at_items =
              ap (λ (l : List RawSample). times a (map (λ (x : RawSample). x.chunk) l)) takes.0 in
            let at_sample = ap (λ r. times? a (chunk_of r)) d.0 in
            omega (arith, kept, at_items, at_sample);
      }

step-Conserves :
    (a : ℕ) (thread : Symbolizer) (pending : Option RawSample) (f : Fifo RawSample)
    (step : FlowStep)
    → let s : Flow = record { thread = thread; pending = pending } in
      IsFlow s f → Conserves a s f (flow_step s step) (malloc_gives s step) (freed s step)
unfolding symbolizer_turn
step-Conserves a thread none f (takes_record use_lbr header result malloced) h =
    record-Conserves a _ f h use_lbr header result malloced refl
step-Conserves a thread (some sample) f (takes_record use_lbr header result malloced) h =
    stays a _ f h
step-Conserves a thread none f tries_push h = stays a _ f h
step-Conserves a thread (some sample) f tries_push h =
    push-Conserves a _ f h sample _ _ refl (queue_push-Does sample h.queue)
      (push-Adds f h.open_queue thread.symbolizer_queue.capacity sample)
step-Conserves a thread pending f (takes_turn sources) h =
    turn-Conserves a _ f h sources _ _ (queue_pop-Does h.queue)
      (pop-Takes f.items f.closed h.open_queue)

-- For a well-formed pool and an open queue that holds the samples of `f`: in every interleaving of
-- dispatch_sample_event, of its attempts to push, and of turns of symbolizer_thread_func, whatever
-- the records, the processes and the files, the pool and the queue stay well formed and the queue
-- open; and each chunk that was in the pool, in the queue or with the event loop, or that malloc gave
-- since, is as often in one of them at the end, or was given to free.
pub run_flow_conserves :
    (steps : List FlowStep) (s : Flow) (f : Fifo RawSample) (a : ℕ)
    → IsFlow s f
    → (left : Fifo RawSample) × IsFlow (run_flow s steps) left
      × (in_flow a s f + mallocs a s steps ≡ in_flow a (run_flow s steps) left + frees a s steps)
run_flow_conserves [] s f a h = (f, h, refl)
run_flow_conserves (step ∷ steps) s f a h =
    let one = step-Conserves a s.thread s.pending f step h in
    let (left, keeps, rest) = run_flow_conserves steps (flow_step s step) one.left a one.keeps in
    (left, keeps, omega (arith, one.conserved, rest))
