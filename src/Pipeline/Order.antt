-- ===== src/Pipeline/Order.antt =====
-- The stacks reach the database writer in the order of their records.
use mathlib.Core.Path.{subst}
use profiling.Prelude.{
  ℕ, ◌≡◌, refl, sym, ap, ◌∙◌, false, Option, none, some, List, [], ◌∷◌, ◌++◌, arith, append-nil,
  append_assoc,
}
use profiling.CString.{CString}
use profiling.Mempool.{Mempool}
use profiling.Queue.{Attempt, waits, returns}
use profiling.Queue.Fifo.{Fifo}
use profiling.Queue.Refine.{Models, Does, queue_push-Does}
use profiling.Queue.Pop.{queue_pop-Does}
use profiling.Symbolize.{Sources, symbolize_frames, db_stack_str, realtime_timestamp}
use profiling.Pipeline.{
  RawSample, dispatch_sample_event, Symbolizer, SymbolizerTurn, asleep, ends, pushes,
  symbolize_sample, after_queue_pop, symbolizer_turn,
}
use profiling.Pipeline.Flow.{
  Flow, FlowStep, takes_record, tries_push, takes_turn, after_push_attempt, after_turn,
  after_dispatch, flow_step, run_flow,
}
use profiling.Pipeline.Ends.{Takes, pop-Takes, Adds, push-Adds}

-- The arguments of a call of `db_writer_push_stack`: a time and a string.
abbrev pub WriterCall : Type 0
WriterCall = ℕ × CString

abbrev pub calls_of_turn : SymbolizerTurn → List WriterCall
calls_of_turn (asleep c) = []
calls_of_turn (ends t) = []
calls_of_turn (pushes t timestamp stack) = (timestamp, stack) ∷ []

abbrev pub calls_of_step : Flow → FlowStep → List WriterCall
calls_of_step s (takes_record use_lbr header result malloced) = []
calls_of_step s tries_push = []
calls_of_step s (takes_turn sources) = calls_of_turn (symbolizer_turn sources s.thread)

-- What the thread hands to the database writer.
abbrev pub writer_calls : Flow → List FlowStep → List WriterCall
writer_calls s [] = []
writer_calls s (step ∷ steps) = calls_of_step s step ++ writer_calls (flow_step s step) steps

abbrev pub waiting : Option RawSample → List RawSample
waiting none = []
waiting (some sample) = sample ∷ []

abbrev pub samples_of_step : Flow → FlowStep → List RawSample
samples_of_step s (takes_record use_lbr header result malloced) = elim s.pending [
  | some sample ↦ []
  | none ↦ waiting (dispatch_sample_event use_lbr s.thread.sample_pool header result malloced).1
]
samples_of_step s tries_push = []
samples_of_step s (takes_turn sources) = []

-- The samples that the event loop makes of its records.
abbrev pub dispatched : Flow → List FlowStep → List RawSample
dispatched s [] = []
dispatched s (step ∷ steps) = samples_of_step s step ++ dispatched (flow_step s step) steps

-- The samples in the queue, and the one with which the event loop is in `queue_push`.
abbrev pub in_line : Flow → Fifo RawSample → List RawSample
in_line s f = f.items ++ waiting s.pending

-- An open queue that holds the samples of `f`.
abbrev pub IsOpen : Flow → Fifo RawSample → Type 0
IsOpen s f = Models s.thread.symbolizer_queue f × (f.closed ≡ false)

-- The two clocks of `initialize_system`.
abbrev pub clocks : Symbolizer → ℕ × ℕ
clocks t = (t.monotonic_start_ns, t.realtime_start_ns)

-- The call has the time of the sample and its pid, and the names that its own addresses have in some
-- state of the thread.
abbrev pub IsCallOf : ℕ × ℕ → RawSample → WriterCall → Type 0
IsCallOf clock sample call =
    (call.0 ≡ realtime_timestamp sample.timestamp_ns clock.0 clock.1)
    × ((sources : Sources) × (t : Symbolizer) × (call.1
          ≡ db_stack_str sample.pid (
              symbolize_frames sources sample.pid t.process_table t.elf_cache t.resolved sample.ip
                sample.ips)))

-- A call for each sample, in order.
abbrev pub AreCallsOf : ℕ × ℕ → List RawSample → List WriterCall → Type 0
AreCallsOf clock [] [] = Unit {0}
AreCallsOf clock [] (call ∷ calls) = ⊥
AreCallsOf clock (sample ∷ samples) [] = ⊥
AreCallsOf clock (sample ∷ samples) (call ∷ calls) =
    IsCallOf clock sample call × AreCallsOf clock samples calls

AreCallsOf-append :
    (clock : ℕ × ℕ) (xs ys : List RawSample) (calls more : List WriterCall)
    → AreCallsOf clock xs calls
    → AreCallsOf clock ys more
    → AreCallsOf clock (xs ++ ys) (calls ++ more)
AreCallsOf-append clock [] ys [] more h k = k
AreCallsOf-append clock [] ys (call ∷ calls) more h k = absurd h
AreCallsOf-append clock (x ∷ xs) ys [] more h k = absurd h
AreCallsOf-append clock (x ∷ xs) ys (call ∷ calls) more (h, hs) k =
    (h, AreCallsOf-append clock xs ys calls more hs k)

-- A step that leads to `s'`.
record Advances (s : Flow) (f : Fifo RawSample) (s' : Flow) (came : List RawSample)
    (calls : List WriterCall) : Type 0 where
  left : Fifo RawSample
  symbolized : List RawSample
  keeps : IsOpen s' left
  same_clocks : clocks s'.thread ≡ clocks s.thread
  in_order : in_line s f ++ came ≡ symbolized ++ in_line s' left
  handed_on : AreCallsOf (clocks s.thread) symbolized calls

module _ (s : Flow) (f : Fifo RawSample) (h : IsOpen s f) where
  stays : Advances s f s [] []
  stays = record {
    left = f;
    symbolized = [];
    keeps = h;
    same_clocks = refl;
    in_order = append-nil (in_line s f);
    handed_on = tt;
  }

  dispatch-Advances :
      (r : Mempool × Option RawSample)
      → s.pending ≡ none
      → Advances s f (after_dispatch s r) (waiting r.1) []
  dispatch-Advances r e = record {
    left = f;
    symbolized = [];
    keeps = h;
    same_clocks = refl;
    in_order =
        ap (λ p. (f.items ++ waiting p) ++ waiting r.1) e
        ∙ ap (λ l. l ++ waiting r.1) (append-nil f.items);
    handed_on = tt;
  }

  push-Advances :
      (sample : RawSample) (attempt : Attempt RawSample (Unit {0}))
      (spec : Option (Unit {0} × Fifo RawSample))
      → s.pending ≡ some sample
      → Does (λ r. r) attempt spec
      → Adds f sample spec
      → Advances s f (after_push_attempt s attempt) [] []
  push-Advances sample (waits c) spec e d adds = stays
  push-Advances sample (returns r queue wakes) none e d adds = absurd d
  push-Advances sample (returns r queue wakes) (some (u, g)) e d adds = record {
    left = g;
    symbolized = [];
    keeps = (d.1, adds.1);
    same_clocks = refl;
    in_order =
        append-nil (in_line s f)
        ∙ ap (λ p. f.items ++ waiting p) e
        ∙ sym adds.0
        ∙ sym (append-nil g.items);
    handed_on = tt;
  }

  turn-Advances :
      (sources : Sources) (attempt : Attempt RawSample (Option RawSample))
      (spec : Option (Option RawSample × Fifo RawSample))
      → Does (λ r. r) attempt spec
      → Takes f.items spec
      → Advances s f
          (after_turn s (after_queue_pop sources s.thread attempt))
          []
          (calls_of_turn (after_queue_pop sources s.thread attempt))
  unfolding after_queue_pop symbolize_sample
  turn-Advances sources (waits c) spec d takes = stays
  turn-Advances sources (returns r queue wakes) none d takes = absurd d
  turn-Advances sources (returns r queue wakes) (some (none, g)) d takes = absurd takes
  turn-Advances sources (returns none queue wakes) (some (some sample, g)) d takes =
      absurd (ground arith)
  turn-Advances sources (returns (some sample') queue wakes) (some (some sample, g)) d takes =
      record {
        left = g;
        symbolized = sample' ∷ [];
        keeps = (d.1, takes.1);
        same_clocks = refl;
        in_order =
            let taken : sample ≡ sample' = cc in
            append-nil (in_line s f)
            ∙ ap (λ l. l ++ waiting s.pending) takes.0
            ∙ ap (λ x. x ∷ (g.items ++ waiting s.pending)) taken;
        handed_on = ((refl, (sources, s.thread, refl)), tt);
      }

step-Advances :
    (thread : Symbolizer) (pending : Option RawSample) (f : Fifo RawSample) (step : FlowStep)
    → let s : Flow = record { thread = thread; pending = pending } in
      IsOpen s f → Advances s f (flow_step s step) (samples_of_step s step) (calls_of_step s step)
unfolding symbolizer_turn
step-Advances thread none f (takes_record use_lbr header result malloced) h =
    dispatch-Advances _ f h _ refl
step-Advances thread (some sample) f (takes_record use_lbr header result malloced) h = stays _ f h
step-Advances thread none f tries_push h = stays _ f h
step-Advances thread (some sample) f tries_push h =
    push-Advances _ f h sample _ _ refl (queue_push-Does sample h.0)
      (push-Adds f h.1 thread.symbolizer_queue.capacity sample)
step-Advances thread pending f (takes_turn sources) h =
    turn-Advances _ f h sources _ _ (queue_pop-Does h.0) (pop-Takes f.items f.closed h.1)

-- For an open queue that holds the samples of `f`: in every interleaving of dispatch_sample_event, of
-- its attempts to push, and of turns of symbolizer_thread_func, whatever the records, the processes
-- and the files: the samples that were in the queue and with the event loop, followed by those that
-- dispatch_sample_event makes, are, in order, those for which the thread calls db_writer_push_stack,
-- followed by those in the queue and with the event loop at the end; each call has the time of its
-- sample on the wall clock, its pid, and the names that its own addresses have in some state of the
-- thread; the queue stays well formed and open.
pub run_flow_in_order :
    (steps : List FlowStep) (s : Flow) (f : Fifo RawSample) (clock : ℕ × ℕ)
    → IsOpen s f
    → clocks s.thread ≡ clock
    → (symbolized : List RawSample) × (left : Fifo RawSample) × IsOpen (run_flow s steps) left
      × (in_line s f ++ dispatched s steps ≡ symbolized ++ in_line (run_flow s steps) left)
      × AreCallsOf clock symbolized (writer_calls s steps)
run_flow_in_order [] s f clock h e = ([], f, h, append-nil (in_line s f), tt)
run_flow_in_order (step ∷ steps) s f clock h e =
    let one = step-Advances s.thread s.pending f step h in
    let (more, left, keeps, order, calls) =
      run_flow_in_order steps (flow_step s step) one.left clock one.keeps (one.same_clocks ∙ e) in
    (
      one.symbolized ++ more,
      left,
      keeps,
      sym (append_assoc (in_line s f) (samples_of_step s step) _)
          ∙ ap (λ l. l ++ dispatched (flow_step s step) steps) one.in_order
          ∙ append_assoc one.symbolized (in_line (flow_step s step) one.left) _
          ∙ ap (λ l. one.symbolized ++ l) order
          ∙ sym (append_assoc one.symbolized more _),
      AreCallsOf-append clock one.symbolized more _ _
          (subst (λ c. AreCallsOf c one.symbolized (calls_of_step s step)) e one.handed_on) calls,
    )
