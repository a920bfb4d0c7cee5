-- ===== src/Queue/Tests.antt =====
-- Runs of the queue, and its theorems at concrete inputs.
use profiling.Prelude.{
  OrNone, ℕ, ◌≡◌, refl, true, false, none, some, List, [], ◌∷◌, ◌++◌, map, arith,
}
use profiling.Queue.{
  Queue, waits, returns, signal, cond_full, cond_empty, Timespec, queue_init, queue_push, queue_pop,
  queue_pop_batch, queue_signal_shutdown, queue_get_size,
}
use profiling.Queue.Fifo.{Fifo}
use profiling.Queue.Refine.{Models, queue_init-Models}
use profiling.Queue.Threads.{Call, push, push_batch, pop, pop_batch, close, next, run}
use profiling.Queue.Threads.Flow.{run_lossless}
use profiling.Queue.Waiting.{
  proceeds, woken, sleeps_on, WakesAll, close_ends_waits, oversized_batch_never_proceeds,
}

-- Two items, 7 and 8, that go round the end of three cells.
abbrev wrapped : Queue ℕ
wrapped = record {
  buffer = 8 ∷ 0 ∷ 7 ∷ [];
  capacity = 3;
  size = 2;
  head = 2;
  tail = 1;
  shutdown = false;
}

abbrev items : Fifo ℕ
items = record { items = 7 ∷ 8 ∷ []; closed = false }

abbrev early : Timespec
early = record { tv_sec = 1; tv_nsec = 999999990 }

abbrev late : Timespec
late = record { tv_sec = 2; tv_nsec = 30 }

wrapped-Models : Models wrapped items
wrapped-Models = record { valid = omega arith; items = refl; closed = refl }

abbrev fresh : Queue ℕ
fresh = record { buffer = 5 ∷ 5 ∷ []; capacity = 2; size = 0; head = 0; tail = 0; shutdown = false }

abbrev shut : Queue ℕ
shut = record wrapped { shutdown = true }

shut-Models : Models shut (record items { closed = true })
shut-Models = record { valid = omega arith; items = refl; closed = refl }

push_wakes :
    queue_push wrapped 9
    ≡ returns tt
        (record wrapped { buffer = 8 ∷ 9 ∷ 7 ∷ []; size = 3; tail = 2 })
        (signal cond_empty ∷ [])
unfolding queue_push
push_wakes = refl

full_waits : queue_push (record wrapped { size = 3 }) 9 ≡ waits cond_full
unfolding queue_push
full_waits = refl

batch_latency :
    (queue_pop_batch wrapped 5 early late)
    ≡ returns
        (some 7 ∷ some 8 ∷ [], 40)
        (record wrapped { size = 0; head = 1 })
        (signal cond_full ∷ [])
unfolding queue_pop_batch
batch_latency = refl

size_null : queue_get_size {A = ℕ} none ≡ 0
unfolding queue_get_size
size_null = refl

queue_init-Models_example : Models fresh (record { items = []; closed = false })
unfolding queue_init
queue_init-Models_example = queue_init-Models (5 ∷ 5 ∷ []) 2 (omega arith) (omega arith) refl

abbrev schedule : List (Call ℕ)
schedule =
    push 9 ∷ push 10 ∷ pop ∷ push 10 ∷ close ∷ pop_batch 2 early late ∷ push 11 ∷ pop ∷ pop ∷ []

schedule_runs :
    let (last, ins, outs) = run schedule wrapped in
    (outs ≡ map some (7 ∷ 8 ∷ 9 ∷ 10 ∷ [])) × (ins ≡ 9 ∷ 10 ∷ [])
unfolding run queue_push queue_pop queue_pop_batch queue_signal_shutdown
schedule_runs = (refl, refl)

run_lossless_example :
    let (last, ins, outs) = run schedule wrapped in
    (given : List ℕ) × (left : Fifo ℕ) × (outs ≡ map some given)
    × (7 ∷ 8 ∷ ins ≡ given ++ left.items)
    × Models last left
run_lossless_example = run_lossless schedule wrapped-Models

-- A consumer sleeps on an empty queue; another thread closes it, and a third one pushes.
asleep_on_empty : sleeps_on pop fresh ≡ some cond_empty
unfolding sleeps_on queue_pop
asleep_on_empty = refl

close_ends_waits_example :
    OrNone (λ cond. WakesAll cond (woken close fresh)) (sleeps_on pop fresh)
    × (proceeds pop (run (push 4 ∷ []) (next close fresh)).0 ≡ true)
close_ends_waits_example = close_ends_waits pop fresh (push 4 ∷ [])

oversized_batch_never_proceeds_example :
    proceeds (push_batch (some (1 ∷ 2 ∷ 3 ∷ 4 ∷ [])) early late) (run (pop ∷ pop ∷ []) wrapped).0
    ≡ false
oversized_batch_never_proceeds_example =
    oversized_batch_never_proceeds (pop ∷ pop ∷ []) wrapped (1 ∷ 2 ∷ 3 ∷ 4 ∷ []) early late
      (tt, (tt, tt)) refl (omega arith)
