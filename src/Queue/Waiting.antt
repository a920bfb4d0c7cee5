-- ===== src/Queue/Waiting.antt =====
-- When a call waits, whom it wakes, and when it can never go on.
use profiling.Prelude.{
  All, OrNone, inl, inr, Option, ◌%◌, ◌⊎◌, ℕ, ◌+◌, ◌-◌, ◌≤◌, ◌<◌, ◌≡◌, refl, ◌∙◌, Bool, true, false,
  none, some, List, [], ◌∷◌, arith, length,
}
use profiling.Queue.{
  Queue, Attempt, waits, returns, Wake, Cond, signal, broadcast, cond_full, cond_empty, Timespec,
  put_item, put_items, take_items, queue_push, queue_pop, queue_pop_batch, queue_push_batch,
  queue_signal_shutdown,
}
use profiling.Queue.Threads.{Call, push, push_batch, pop, pop_batch, close, has_returned, next, run}

-- All threads that sleep on `c` are woken.
abbrev pub WakesAll : Cond → List Wake → Type 0
WakesAll c [] = ⊥
WakesAll c (w ∷ wakes) = (w ≡ broadcast c) ⊎ WakesAll c wakes

module _ {A : Type 0} where
  -- Whether the attempt of a call goes to its end.
  unfoldable pub proceeds : Call A → Queue A → Bool
  proceeds (push x) q = has_returned (queue_push q x)
  proceeds (push_batch xs start end) q = has_returned (queue_push_batch q xs start end)
  proceeds pop q = has_returned (queue_pop q)
  proceeds (pop_batch n start end) q = has_returned (queue_pop_batch q n start end)
  proceeds close q = has_returned (queue_signal_shutdown q)

  -- Once the queue is closed no call waits.
  proceeds_closed : (c : Call A) (q : Queue A) → q.shutdown ≡ true → proceeds c q ≡ true
  unfolding proceeds queue_push queue_pop queue_pop_batch queue_push_batch queue_signal_shutdown
  proceeds_closed (push x) q e = ground arith
  proceeds_closed (push_batch none start end) q e = refl
  proceeds_closed (push_batch (some []) start end) q e = refl
  proceeds_closed (push_batch (some (x ∷ xs)) start end) q e = ground arith
  proceeds_closed pop q e = ground arith
  proceeds_closed (pop_batch n start end) q e = ground arith
  proceeds_closed close q e = refl

  record Same (q r : Queue A) : Type 0 where
    same_capacity : r.capacity ≡ q.capacity
    same_shutdown : r.shutdown ≡ q.shutdown

  put_items-Same : (xs : List A) (q : Queue A) → Same q (put_items q xs)
  unfolding put_items
  put_items-Same [] q = record { same_capacity = refl; same_shutdown = refl }
  put_items-Same (x ∷ xs) q =
      let s = put_items-Same xs (put_item q x) in
      record { same_capacity = s.same_capacity; same_shutdown = s.same_shutdown }

  take_items-Same : (n : ℕ) (q : Queue A) → Same q (take_items n q).1
  unfolding take_items
  take_items-Same ℕ.zero q = record { same_capacity = refl; same_shutdown = refl }
  take_items-Same (ℕ.suc n) q =
      let s = take_items-Same n (record q { head = _; size = _ }) in
      record { same_capacity = s.same_capacity; same_shutdown = s.same_shutdown }

  -- A call that is not the one that closes.
  abbrev IsWork : Call A → Type 0
  IsWork (push x) = Unit
  IsWork (push_batch xs start end) = Unit
  IsWork pop = Unit
  IsWork (pop_batch n start end) = Unit
  IsWork close = ⊥

  next-Same : (c : Call A) (q : Queue A) → IsWork c → Same q (next c q)
  unfolding next queue_push queue_pop queue_pop_batch queue_push_batch put_item
  next-Same (push x) q w = ground arith
  next-Same (push_batch none start end) q w = ground arith
  next-Same (push_batch (some []) start end) q w = ground arith
  next-Same (push_batch (some (x ∷ xs)) start end) q w = ground (arith, put_items-Same (x ∷ xs) q)
  next-Same pop q w = ground arith
  next-Same (pop_batch n start end) q w =
      ground (arith, take_items-Same n q, take_items-Same q.size q)
  next-Same close q w = absurd w

  run-Same : (cs : List (Call A)) (q : Queue A) → All IsWork cs → Same q (run cs q).0
  unfolding run
  run-Same [] q w = record { same_capacity = refl; same_shutdown = refl }
  run-Same (c ∷ cs) q w =
      let s = next-Same c q w.0 in
      let t = run-Same cs (next c q) w.1 in
      record {
        same_capacity = t.same_capacity ∙ s.same_capacity;
        same_shutdown = t.same_shutdown ∙ s.same_shutdown;
      }

  oversized_waits :
      (q : Queue A) (xs : List A) (start end : Timespec)
      → q.shutdown ≡ false
      → q.capacity < length xs
      → proceeds (push_batch (some xs) start end) q ≡ false
  unfolding proceeds queue_push_batch
  oversized_waits q [] start end open_ lt = absurd (omega arith)
  oversized_waits q (x ∷ xs) start end open_ lt = ground arith

  -- A batch with more items than the queue has cells waits after every execution in which no
  -- thread closes the queue, whatever the other calls of it take out.
  pub oversized_batch_never_proceeds :
      (cs : List (Call A)) (q : Queue A) (xs : List A) (start end : Timespec)
      → All IsWork cs
      → q.shutdown ≡ false
      → q.capacity < length xs
      → proceeds (push_batch (some xs) start end) (run cs q).0 ≡ false
  oversized_batch_never_proceeds cs q xs start end work open_ lt =
      let s = run-Same cs q work in
      oversized_waits (run cs q).0 xs start end (s.same_shutdown ∙ open_) (rw s.same_capacity lt)

  -- The wakes that a call sends out.
  wakes_of : {R : Type 0} → Attempt A R → List Wake
  wakes_of (waits c) = []
  wakes_of (returns r q w) = w

  unfoldable pub woken : Call A → Queue A → List Wake
  unfolding wakes_of
  woken (push x) q = wakes_of (queue_push q x)
  woken (push_batch xs start end) q = wakes_of (queue_push_batch q xs start end)
  woken pop q = wakes_of (queue_pop q)
  woken (pop_batch n start end) q = wakes_of (queue_pop_batch q n start end)
  woken close q = wakes_of (queue_signal_shutdown q)

  take_items-size : (n : ℕ) (q : Queue A) → (take_items n q).1.size ≤ q.size
  unfolding take_items
  take_items-size ℕ.zero q = omega arith
  take_items-size (ℕ.suc n) q =
      omega (
        arith,
        take_items-size n (record q { head = (q.head + 1) % q.capacity; size = q.size - 1 }),
      )

  -- Every call that leaves more items wakes a consumer: with one signal for one item, and all of
  -- the consumers for a batch.
  pub growth_wakes_consumers :
      (c : Call A) (q : Queue A)
      → q.size < (next c q).size
      → (woken c q ≡ signal cond_empty ∷ []) ⊎ (woken c q ≡ broadcast cond_empty ∷ [])
  unfolding next woken queue_push queue_pop queue_pop_batch queue_push_batch queue_signal_shutdown
      put_item
  growth_wakes_consumers (push x) q h = ground arith
  growth_wakes_consumers (push_batch none start end) q h = ground arith
  growth_wakes_consumers (push_batch (some []) start end) q h = ground arith
  growth_wakes_consumers (push_batch (some (x ∷ xs)) start end) q h = ground arith
  growth_wakes_consumers pop q h = ground arith
  growth_wakes_consumers (pop_batch n start end) q h =
      ground (arith, take_items-size n q, take_items-size q.size q)
  growth_wakes_consumers close q h = ground arith

  -- Every call that leaves fewer items wakes a producer, and just one, also where a batch makes
  -- room for several.
  pub shrink_wakes_producer :
      (c : Call A) (q : Queue A) → (next c q).size < q.size → woken c q ≡ signal cond_full ∷ []
  unfolding next woken queue_push queue_pop queue_pop_batch queue_push_batch queue_signal_shutdown
      put_item take_items
  shrink_wakes_producer (push x) q h = ground arith
  shrink_wakes_producer (push_batch none start end) q h = ground arith
  shrink_wakes_producer (push_batch (some []) start end) q h = ground arith
  shrink_wakes_producer (push_batch (some (x ∷ xs)) start end) q h = ground arith
  shrink_wakes_producer pop q h = ground arith
  shrink_wakes_producer (pop_batch ℕ.zero start end) q h = ground arith
  shrink_wakes_producer (pop_batch (ℕ.suc n) start end) q h = ground arith
  shrink_wakes_producer close q h = ground arith

  cond_of : {R : Type 0} → Attempt A R → Option Cond
  cond_of (waits c) = some c
  cond_of (returns r q w) = none

  -- The condition variable on which a call falls asleep.
  unfoldable pub sleeps_on : Call A → Queue A → Option Cond
  unfolding cond_of
  sleeps_on (push x) q = cond_of (queue_push q x)
  sleeps_on (push_batch xs start end) q = cond_of (queue_push_batch q xs start end)
  sleeps_on pop q = cond_of (queue_pop q)
  sleeps_on (pop_batch n start end) q = cond_of (queue_pop_batch q n start end)
  sleeps_on close q = cond_of (queue_signal_shutdown q)

  close-WakesAll : (c : Cond) (q : Queue A) → WakesAll c (woken close q)
  unfolding woken queue_signal_shutdown
  close-WakesAll cond_empty q = inl refl
  close-WakesAll cond_full q = inr (inl refl)

  all_woken : (found : Option Cond) (q : Queue A) → OrNone (λ c. WakesAll c (woken close q)) found
  all_woken none q = tt
  all_woken (some c) q = close-WakesAll c q

  close-shutdown : (q : Queue A) → (next close q).shutdown ≡ true
  unfolding next queue_signal_shutdown
  close-shutdown q = refl

  stays_closed :
      (cs : List (Call A)) (q : Queue A) → q.shutdown ≡ true → (run cs q).0.shutdown ≡ true
  unfolding run
  stays_closed [] q e = e
  stays_closed (push x ∷ cs) q e = stays_closed cs _ ((next-Same (push x) q tt).same_shutdown ∙ e)
  stays_closed (push_batch xs start end ∷ cs) q e =
      stays_closed cs _ ((next-Same (push_batch xs start end) q tt).same_shutdown ∙ e)
  stays_closed (pop ∷ cs) q e = stays_closed cs _ ((next-Same pop q tt).same_shutdown ∙ e)
  stays_closed (pop_batch n start end ∷ cs) q e =
      stays_closed cs _ ((next-Same (pop_batch n start end) q tt).same_shutdown ∙ e)
  stays_closed (close ∷ cs) q e = stays_closed cs _ (close-shutdown q)

  -- Whatever the queue: where a call falls asleep, queue_signal_shutdown wakes all threads that sleep
  -- on the same condition variable; and from then on, after any calls of other threads, the call does
  -- not wait, whether it slept or comes later.
  pub close_ends_waits :
      (c : Call A) (q : Queue A) (cs : List (Call A))
      → OrNone (λ cond. WakesAll cond (woken close q)) (sleeps_on c q)
        × (proceeds c (run cs (next close q)).0 ≡ true)
  close_ends_waits c q cs = (
    all_woken (sleeps_on c q) q,
    proceeds_closed c (run cs (next close q)).0 (stays_closed cs (next close q) (close-shutdown q)),
  )
