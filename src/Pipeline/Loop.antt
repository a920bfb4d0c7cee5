-- ===== src/Pipeline/Loop.antt =====
-- A turn of the endless loop of `main_loop` of src/core/main_loop.c: the ring of every CPU, the cleanup
-- of the process table, and the sleep. The callback is dispatch_sample_event: the turn gives it the
-- records.
mod Tests
use profiling.Prelude.{
  ℕ, ◌+◌, ◌≤◌, ◌≡◌, refl, sym, ap, ◌∙◌, Bool, true, false, not, ◌&&◌, Option, none, some, List, [],
  ◌∷◌, ◌++◌, map, arith, leb, ◌==◌, if◌then◌else◌, length, length-append, All, Bool-cases, inl, inr,
}
use profiling.PerfRing.{PerfEventFd, perf_event_consume_ring_buffer}
use profiling.PerfRing.Deliver.{Holds, Delivered, consume_ring_buffer-All}
use profiling.Processes.{ProcessInfo, ProcessTable, Kernel, find_process, is_process_alive}
use profiling.Processes.Operations.{cleanup_dead_processes}
use profiling.Processes.Lookup.{find_process-cleanup_dead_processes}

-- The ring of a CPU in front of the others: their events, their records, and how many.
unfoldable pub join_consumed :
    Option (PerfEventFd × List (List ℕ) × ℕ)
    → Option (List PerfEventFd × List (List ℕ) × ℕ)
    → Option (List PerfEventFd × List (List ℕ) × ℕ)
join_consumed (some (event, records, n)) (some (events, more, total)) =
    some (event ∷ events, records ++ more, n + total)
join_consumed (some first) none = none
join_consumed none rest = none

unfoldable pub consume_events : List PerfEventFd → Option (List PerfEventFd × List (List ℕ) × ℕ)
unfolding join_consumed perf_event_consume_ring_buffer
consume_events [] = some ([], [], 0)
consume_events (event ∷ events) =
    join_consumed (perf_event_consume_ring_buffer event) (consume_events events)

-- After a turn; `handled` are the records given to the callback, `sleeps` is whether it calls
-- `usleep`.
pub record LoopTurn : Type 0 where
  pub events : List PerfEventFd
  pub handled : List (List ℕ)
  pub process_table : ProcessTable
  pub last_cleanup_time : ℕ
  pub sleeps : Bool

-- The cleanup, if it is due.
unfoldable pub with_cleanup : Bool → Kernel → ℕ → LoopTurn → LoopTurn
unfolding cleanup_dead_processes
with_cleanup false kernel current_time t = t
with_cleanup true kernel current_time t = record t {
  process_table = cleanup_dead_processes kernel t.process_table;
  last_cleanup_time = current_time;
}

-- The part behind the rings, where nothing was processed; `current_time` is not before the last one.
unfoldable pub idle_turn : Kernel → ℕ → ℕ → LoopTurn → LoopTurn
unfolding with_cleanup
idle_turn kernel cleanup_interval current_time t =
    record (with_cleanup (leb (t.last_cleanup_time + cleanup_interval) current_time) kernel
      current_time t) { sleeps = true }

unfoldable pub main_loop_turn :
    Kernel → ℕ → ℕ → List PerfEventFd → ProcessTable → ℕ → Option LoopTurn
unfolding consume_events idle_turn
main_loop_turn kernel cleanup_interval current_time events table last_cleanup_time =
    elim (consume_events events) [
      | none ↦ none
      | some (events', records, total) ↦
          let t : LoopTurn = record {
            events = events';
            handled = records;
            process_table = table;
            last_cleanup_time = last_cleanup_time;
            sleeps = false;
          } in
          some (if total == 0 then idle_turn kernel cleanup_interval current_time t else t)
    ]

-- A ring with the records that the kernel wrote to it.
abbrev pub Ring : Type 0
Ring = PerfEventFd × List (List ℕ)

abbrev pub HoldsAll : List Ring → Type 0
HoldsAll rings = All (λ (r : Ring). Holds r.0 r.1 × All (λ (d : List ℕ). length d ≤ 4096) r.1) rings

abbrev pub records_of : List Ring → List (List ℕ)
records_of [] = []
records_of (ring ∷ rings) = ring.1 ++ records_of rings

abbrev pub emptied : List Ring → List PerfEventFd
emptied [] = []
emptied (ring ∷ rings) = record ring.0 { data_tail = ring.0.data_head } ∷ emptied rings

abbrev pub rings_of : List Ring → List PerfEventFd
rings_of [] = []
rings_of (ring ∷ rings) = ring.0 ∷ rings_of rings

consume_events-HoldsAll :
    (rings : List Ring)
    → HoldsAll rings
    → consume_events (rings_of rings)
      ≡ some (emptied rings, records_of rings, length (records_of rings))
unfolding consume_events join_consumed
consume_events-HoldsAll [] h = refl
consume_events-HoldsAll (ring ∷ rings) h =
    let first = consume_ring_buffer-All ring.1 ring.0 h.0.0 h.0.1 in
    let rest = consume_events-HoldsAll rings h.1 in
    rw (first, rest)
      (ap (λ n. some (emptied (ring ∷ rings), records_of (ring ∷ rings), n))
        (sym (length-append ring.1 (records_of rings))))

-- What a turn does: the rings are empty and their records handled, it sleeps where there was none,
-- and then, if the last cleanup is `cleanup_interval` seconds ago, the dead processes are gone.
pub record Turns (kernel : Kernel) (cleanup_interval current_time : ℕ) (rings : List Ring)
    (table : ProcessTable) (last_cleanup_time : ℕ) (r : LoopTurn) : Type 0 where
  pub events : r.events ≡ emptied rings
  pub handled : r.handled ≡ records_of rings
  pub sleeps : r.sleeps ≡ (length (records_of rings) == 0)
  pub processes :
      (pid : ℕ)
      → find_process r.process_table pid ≡ (
          if (r.sleeps && leb (last_cleanup_time + cleanup_interval) current_time)
            && not (is_process_alive kernel pid)
          then none
          else find_process table pid)
  pub cleanup_time : r.last_cleanup_time ≡ (
      if r.sleeps && leb (last_cleanup_time + cleanup_interval) current_time
      then current_time
      else last_cleanup_time)

module _ (kernel : Kernel) (current_time : ℕ) (t : LoopTurn) where
  with_cleanup_rings :
      (due : Bool)
      → let r = with_cleanup due kernel current_time t in
        (r.events ≡ t.events)
        × (r.handled ≡ t.handled)
        × (r.last_cleanup_time ≡ (if due then current_time else t.last_cleanup_time))
  unfolding with_cleanup
  with_cleanup_rings true = (refl, refl, refl)
  with_cleanup_rings false = (refl, refl, refl)

  find_process-with_cleanup :
      (due : Bool) (pid : ℕ)
      → find_process (with_cleanup due kernel current_time t).process_table pid ≡ (
          if due && not (is_process_alive kernel pid)
          then none
          else find_process t.process_table pid)
  unfolding with_cleanup
  find_process-with_cleanup false pid = refl
  find_process-with_cleanup true pid =
      find_process-cleanup_dead_processes kernel t.process_table pid
      ∙ if_not (is_process_alive kernel pid) _ _
    where
      if_not :
          (b : Bool) (x y : Option ProcessInfo) → (if b then x else y) ≡ (if not b then y else x)
      if_not true x y = refl
      if_not false x y = refl

module _ (kernel : Kernel) (cleanup_interval current_time : ℕ) (rings : List Ring)
    (table : ProcessTable) (last_cleanup_time : ℕ) where
  -- After the rings.
  consumed : LoopTurn
  consumed = record {
    events = emptied rings;
    handled = records_of rings;
    process_table = table;
    last_cleanup_time = last_cleanup_time;
    sleeps = false;
  }

  after_rings-Turns :
      (idle : Bool)
      → idle ≡ (length (records_of rings) == 0)
      → Turns kernel cleanup_interval current_time rings table last_cleanup_time
          (if idle then idle_turn kernel cleanup_interval current_time consumed else consumed)
  unfolding idle_turn consumed
  after_rings-Turns false e = record {
    events = refl;
    handled = refl;
    sleeps = e;
    processes = λ pid. refl;
    cleanup_time = refl;
  }
  after_rings-Turns true e =
      let due = leb (last_cleanup_time + cleanup_interval) current_time in
      let rings_eq = with_cleanup_rings kernel current_time consumed due in
      record {
        events = rings_eq.0;
        handled = rings_eq.1;
        sleeps = e;
        processes = find_process-with_cleanup kernel current_time consumed due;
        cleanup_time = rings_eq.2;
      }

  -- Where every ring is as the kernel leaves it, with records of at most 4096 bytes: a turn of
  -- main_loop gives the callback all records of the first CPU, then of the next ones, in order, and
  -- leaves the rings empty; it sleeps just if there was no record; and a process is found afterwards
  -- as before, except one that is dead, in a turn that sleeps, cleanup_interval seconds or more after
  -- the last cleanup, which becomes the time of the last cleanup.
  pub main_loop_turn-Turns :
      HoldsAll rings
      → (r : LoopTurn) × (main_loop_turn kernel cleanup_interval current_time
            (rings_of rings)
            table
            last_cleanup_time
          ≡ some r)
        × Turns kernel cleanup_interval current_time rings table last_cleanup_time r
  unfolding main_loop_turn consumed
  main_loop_turn-Turns h =
      let idle = length (records_of rings) == 0 in
      (
        (if idle then idle_turn kernel cleanup_interval current_time consumed else consumed),
        rw (consume_events-HoldsAll rings h, main_loop_turn) refl,
        after_rings-Turns idle refl,
      )
