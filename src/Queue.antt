-- ===== src/Queue.antt =====
-- src/utils/concurrent_queue.c: the bounded queue between producer and consumer threads.
-- The mutex makes the code between two waits atomic. An operation is therefore a function from the
-- state to an `Attempt`: it goes to sleep on a condition variable and changes nothing, or it runs
-- to its end, returns, and wakes sleepers. A woken thread makes its attempt again (the `while`
-- round `pthread_cond_wait`), so a thread is a sequence of attempts that wait and one that returns.
pub mod Segment
pub mod Fifo
pub mod Refine
pub mod Pop
pub mod Threads
pub mod Waiting
pub mod Drain
mod Tests
use profiling.Prelude.{
  ℕ, ◌+◌, ◌-◌, ◌*◌, ◌%◌, Bool, true, false, not, ◌&&◌, ◌||◌, Option, none, some, List, [], ◌∷◌, ltb,
  ◌==◌, if◌then◌else◌, length, get_elem?, set,
}

-- The fields of `struct concurrent_queue_t`. An item is a pointer that is not NULL.
pub record Queue (A : Type 0) : Type 0 where
  pub buffer : List A
  pub capacity : ℕ
  pub size : ℕ
  pub head : ℕ
  pub tail : ℕ
  pub shutdown : Bool

pub data Cond : Type 0 where
  cond_full cond_empty : Cond

pub data Wake : Type 0 where
  signal broadcast : Cond → Wake

pub data Attempt (A R : Type 0) : Type 0 where
  waits : Cond → Attempt A R
  returns : R → Queue A → List Wake → Attempt A R

-- A reading of CLOCK_MONOTONIC.
pub record Timespec : Type 0 where
  pub tv_sec : ℕ
  pub tv_nsec : ℕ

-- The clock does not go back, so the difference of two readings is no negative number.
pub latency : Timespec → Timespec → ℕ
latency start end =
    end.tv_sec * 1000000000 + end.tv_nsec - (start.tv_sec * 1000000000 + start.tv_nsec)

module _ {A : Type 0} where
  -- `storage` is what the second `malloc` gives, `allocated` whether the first one succeeds.
  unfoldable pub queue_init : Bool → Option (List A) → ℕ → Option (Queue A)
  queue_init false storage capacity = none
  queue_init true none capacity = none
  queue_init true (some storage) capacity = some (record {
    buffer = storage;
    capacity = capacity;
    size = 0;
    head = 0;
    tail = 0;
    shutdown = false;
  })

  -- `buffer[tail] = item; tail = (tail + 1) % capacity`
  unfoldable pub put_item : Queue A → A → Queue A
  put_item q item = record q { buffer = set q.buffer q.tail item; tail = (q.tail + 1) % q.capacity }

  unfoldable pub queue_push : Queue A → A → Attempt A (Unit {0})
  unfolding put_item
  queue_push q item =
      if q.size == q.capacity && not q.shutdown
      then waits cond_full
      else if q.shutdown
      then returns tt q []
      else returns tt (record (put_item q item) { size = q.size + 1 }) (signal cond_empty ∷ [])

  -- `none` is NULL.
  unfoldable pub queue_pop : Queue A → Attempt A (Option A)
  queue_pop q =
      if q.size == 0 && not q.shutdown
      then waits cond_empty
      else if q.shutdown && q.size == 0
      then returns none q []
      else returns (get_elem? q.buffer q.head)
          (record q { head = (q.head + 1) % q.capacity; size = q.size - 1 }) (signal cond_full ∷ [])

  -- The loop of `queue_pop_batch`: what it stores in `items`, and the queue that it leaves.
  unfoldable pub take_items : ℕ → Queue A → List (Option A) × Queue A
  take_items ℕ.zero q = ([], q)
  take_items (ℕ.suc n) q =
      let rest = take_items n (record q { head = (q.head + 1) % q.capacity; size = q.size - 1 }) in
      (get_elem? q.buffer q.head ∷ rest.0, rest.1)

  -- The result is `items`, whose length is the count that is returned, and `*latency_ns`.
  unfoldable pub queue_pop_batch :
      Queue A → ℕ → Timespec → Timespec → Attempt A (List (Option A) × ℕ)
  unfolding take_items latency
  queue_pop_batch q max_items start end =
      if q.size == 0 && not q.shutdown
      then waits cond_empty
      else if q.shutdown && q.size == 0
      then returns ([], 0) q []
      else let count_to_pop = if ltb q.size max_items then q.size else max_items in
        let popped = take_items count_to_pop q in
        returns (popped.0, latency start end) popped.1
          (if ltb 0 count_to_pop then signal cond_full ∷ [] else [])

  -- The loop of `queue_push_batch`.
  unfoldable pub put_items : Queue A → List A → Queue A
  unfolding put_item
  put_items q [] = q
  put_items q (item ∷ items) = put_items (put_item q item) items

  -- `items` is NULL or the array of its `count` items. The result is `*latency_ns`.
  unfoldable pub queue_push_batch : Queue A → Option (List A) → Timespec → Timespec → Attempt A ℕ
  unfolding put_items latency
  queue_push_batch q none start end = returns 0 q []
  queue_push_batch q (some []) start end = returns 0 q []
  queue_push_batch q (some (item ∷ items)) start end =
      let count = length (item ∷ items) in
      if ltb (q.capacity - q.size) count && not q.shutdown
      then waits cond_full
      else if q.shutdown
      then returns (latency start end) q []
      else let filled = put_items q (item ∷ items) in
        returns (latency start end) (record filled { size = q.size + count })
          (broadcast cond_empty ∷ [])

  unfoldable pub queue_signal_shutdown : Queue A → Attempt A (Unit {0})
  queue_signal_shutdown q =
      returns tt (record q { shutdown = true }) (broadcast cond_empty ∷ broadcast cond_full ∷ [])

-- `none` is a NULL queue.
unfoldable pub queue_get_size : {A : Type 0} → Option (Queue A) → ℕ
queue_get_size none = 0
queue_get_size (some q) = q.size
