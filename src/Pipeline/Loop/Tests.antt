-- ===== src/Pipeline/Loop/Tests.antt =====
-- A turn of the event loop on two CPUs, one of which has a record.
use profiling.Prelude.{
  ℕ, ◌+◌, ◌-◌, ◌^◌, ◌≡◌, refl, ap, ◌∙◌, true, some, none, List, [], ◌∷◌, ◌++◌, arith, length,
  length-append, length-replicate, replicate,
}
use profiling.Processes.{Kernel, empty_table}
use profiling.PerfRing.{PerfEventFd}
use profiling.PerfRing.Deliver.{Holds}
use profiling.Pipeline.Loop.{Ring, LoopTurn, Turns, rings_of, main_loop_turn, main_loop_turn-Turns}

abbrev written : List ℕ
written = 9 ∷ 0 ∷ 0 ∷ 0 ∷ 2 ∷ 0 ∷ 9 ∷ 0 ∷ 77 ∷ []

rest : ℕ
rest = 2 ^ 20 - 9

abbrev event : ℕ → PerfEventFd
event head = record {
  mmap_size = 2 ^ 20 + 4096;
  pagesize = 4096;
  data_tail = 0;
  data_head = head;
  mmap_buffer = written ++ replicate rest 0;
}

buffer_bytes : length (written ++ replicate rest 0) ≡ 2 ^ 20
unfolding rest
buffer_bytes =
    length-append written (replicate rest 0) ∙ ap (λ n. 9 + n) (length-replicate {A = ℕ} rest 0)

abbrev rings : List Ring
rings = (event 9, written ∷ []) ∷ (event 0, []) ∷ []

busy-Holds : Holds (event 9) (written ∷ [])
busy-Holds = record {
  page = omega arith;
  mapped = refl;
  bytes = buffer_bytes;
  tail_lt = omega arith;
  head = omega arith;
  not_full = omega arith;
  written = ((omega arith, refl), refl, tt);
}

idle-Holds : Holds (event 0) []
idle-Holds = record {
  page = omega arith;
  mapped = refl;
  bytes = buffer_bytes;
  tail_lt = omega arith;
  head = omega arith;
  not_full = omega arith;
  written = tt;
}

abbrev kernel : Kernel
kernel = record {
  kill = λ pid. true;
  start_time_of = λ pid. 0;
  comm = λ pid. none;
  cmdline = λ pid. none;
  maps = λ pid. none;
  calloc = λ pid. true;
  memory = λ pid. record { calloc = λ n. true; strdup = λ n. true };
}

main_loop_turn-Turns_example :
    (r : LoopTurn) × (main_loop_turn kernel 30 1000 (rings_of rings) empty_table 900 ≡ some r)
    × Turns kernel 30 1000 rings empty_table 900 r
main_loop_turn-Turns_example =
    main_loop_turn-Turns kernel 30 1000 rings empty_table 900
      ((busy-Holds, (omega arith, tt)), ((idle-Holds, tt), tt))
