-- ===== src/Queue/Threads.antt =====
-- Threads that share one queue. The mutex serialises them, so an execution is the list of the
-- attempts in the order in which they hold the mutex; one that waits leaves the queue alone and
-- may come again. Every interleaving of any number of threads is such a list, also one in which
-- a thread wakes for no reason.
pub mod Flow
use profiling.Prelude.{
  ℕ, ◌+◌, ◌<◌, ◌≡◌, refl, sym, ap, ◌∙◌, Bool, true, false, not, ◌&&◌, Option, none, some, List, [],
  ◌∷◌, ◌++◌, map, arith, append-nil, append_assoc, if◌then◌else◌, length, take-append-drop,
}
use profiling.Queue.{
  Queue, Attempt, waits, returns, Timespec, latency, queue_push, queue_pop, queue_pop_batch,
  queue_push_batch, queue_signal_shutdown,
}
use profiling.Queue.Fifo
use profiling.Queue.Fifo.{Fifo}
use profiling.Queue.Refine.{
  Models, Does, queue_push-Does, queue_push_batch-Does, queue_signal_shutdown-Models,
}
use profiling.Queue.Pop.{queue_pop-Does, queue_pop_batch-Does}

pub data Call (A : Type 0) : Type 0 where
  push : A → Call A
  push_batch : Option (List A) → Timespec → Timespec → Call A
  pop : Call A
  pop_batch : ℕ → Timespec → Timespec → Call A
  close : Call A

module _ {A : Type 0} where
  -- The queue after an attempt.
  abbrev pub after : {R : Type 0} → Queue A → Attempt A R → Queue A
  after q (waits c) = q
  after q (returns r q' w) = q'

  abbrev pub result : {R : Type 0} → Attempt A R → Option R
  result (waits c) = none
  result (returns r q w) = some r

  abbrev pub has_returned : {R : Type 0} → Attempt A R → Bool
  has_returned (waits c) = false
  has_returned (returns r q w) = true

  unfoldable pub next : Call A → Queue A → Queue A
  next (push x) q = after q (queue_push q x)
  next (push_batch xs start end) q = after q (queue_push_batch q xs start end)
  next pop q = after q (queue_pop q)
  next (pop_batch n start end) q = after q (queue_pop_batch q n start end)
  next close q = after q (queue_signal_shutdown q)

  -- What a call has put into the queue: all its items or, if it waits or the queue is closed, none.
  abbrev pub stored : {R : Type 0} → Attempt A R → Bool → List A → List A
  stored a closed xs = if has_returned a && not closed then xs else []

  pub items_of : Option (List A) → List A
  items_of none = []
  items_of (some xs) = xs

  unfoldable pub put_in : Call A → Queue A → List A
  unfolding items_of
  put_in (push x) q = stored (queue_push q x) q.shutdown (x ∷ [])
  put_in (push_batch xs start end) q =
      stored (queue_push_batch q xs start end) q.shutdown (items_of xs)
  put_in pop q = []
  put_in (pop_batch n start end) q = []
  put_in close q = []

  -- What a call hands out; NULL is no item.
  unfoldable pub popped : Option (Option A) → List (Option A)
  popped none = []
  popped (some none) = []
  popped (some (some x)) = some x ∷ []

  unfoldable pub popped_batch : Option (List (Option A) × ℕ) → List (Option A)
  popped_batch none = []
  popped_batch (some (xs, ns)) = xs

  unfoldable pub handed_out : Call A → Queue A → List (Option A)
  unfolding popped popped_batch
  handed_out (push x) q = []
  handed_out (push_batch xs start end) q = []
  handed_out pop q = popped (result (queue_pop q))
  handed_out (pop_batch n start end) q = popped_batch (result (queue_pop_batch q n start end))
  handed_out close q = []

  -- An execution: the last queue, all that was put in and all that was handed out, in order.
  unfoldable pub run : List (Call A) → Queue A → Queue A × List A × List (Option A)
  unfolding next put_in handed_out
  run [] q = (q, [], [])
  run (c ∷ cs) q =
      let (last, ins, outs) = run cs (next c q) in (last, put_in c q ++ ins, handed_out c q ++ outs)
