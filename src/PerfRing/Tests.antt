-- ===== src/PerfRing/Tests.antt =====
-- A buffer with two records, the second across its end, and the theorems at it.
use mathlib.Core.Path.{subst}
use profiling.Prelude.{
  ℕ, ◌+◌, ◌-◌, ◌*◌, ◌^◌, ◌≡◌, refl, sym, ap, some, List, [], ◌∷◌, ◌++◌, ◌∙◌, arith, length,
  length-append, length-replicate, replicate,
}
use profiling.PerfRing.{PerfEventFd, perf_event_consume_ring_buffer}
use profiling.PerfRing.Consume.{Written, after}
use profiling.PerfRing.Deliver.{Holds, Delivered, consume_ring_buffer-All}

-- A small buffer, whose records both wrap.
abbrev small : PerfEventFd
small = record {
  mmap_size = 20;
  pagesize = 4;
  data_tail = 12;
  data_head = 24;
  mmap_buffer = 0 ∷ 0 ∷ 12 ∷ 0 ∷ 1 ∷ 2 ∷ 3 ∷ 4 ∷ 0 ∷ 0 ∷ 0 ∷ 0 ∷ 9 ∷ 0 ∷ 0 ∷ 0 ∷ [];
}

wraps :
    perf_event_consume_ring_buffer small
    ≡ some (
      record small { data_tail = 24 },
      (9 ∷ 0 ∷ 0 ∷ 0 ∷ 0 ∷ 0 ∷ 12 ∷ 0 ∷ 1 ∷ 2 ∷ 3 ∷ 4 ∷ []) ∷ [],
      1,
    )
unfolding perf_event_consume_ring_buffer
wraps = refl

abbrev first : List ℕ
first = 9 ∷ 0 ∷ 0 ∷ 0 ∷ 1 ∷ 0 ∷ 9 ∷ 0 ∷ 77 ∷ []

abbrev second : List ℕ
second = 3 ∷ 0 ∷ 0 ∷ 0 ∷ 0 ∷ 0 ∷ 8 ∷ 0 ∷ []

abbrev rest : ℕ
rest = 2 ^ 20 - 17

abbrev event : PerfEventFd
event = record {
  mmap_size = 2 ^ 20 + 4096;
  pagesize = 4096;
  data_tail = 5 * 2 ^ 20;
  data_head = 5 * 2 ^ 20 + 17;
  mmap_buffer = first ++ (second ++ replicate rest 0);
}

event-size : length event.mmap_buffer ≡ 2 ^ 20
event-size =
    length-append first (second ++ replicate rest 0)
    ∙ ap (λ n. 9 + n)
        (length-append second (replicate rest 0)
          ∙ ap (λ n. 8 + n) (length-replicate {A = ℕ} rest 0))

-- The offset of the second record.
second_offset : (buf_size : ℕ) → buf_size ≡ 2 ^ 20 → after buf_size 0 9 ≡ 9
second_offset buf_size h = ground (arith, h)

event-Holds : Holds event (first ∷ second ∷ [])
event-Holds = record {
  page = omega arith;
  mapped = refl;
  bytes = event-size;
  tail_lt = omega arith;
  head = omega arith;
  not_full = omega arith;
  written = (
    (omega arith, refl),
    refl,
    subst (λ cur. Written event.mmap_buffer cur (second ∷ []))
        (sym (second_offset (length event.mmap_buffer) event-size)) ((omega arith, refl), refl, tt),
  );
}

consume_ring_buffer-All_example : Delivered event (first ∷ second ∷ [])
consume_ring_buffer-All_example =
    consume_ring_buffer-All (first ∷ second ∷ []) event event-Holds (omega arith)
