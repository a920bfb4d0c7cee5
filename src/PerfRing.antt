-- ===== src/PerfRing.antt =====
-- src/perf/perf.c: the consumption of a perf event's ring buffer. The mapped pages are the bytes of
-- the data buffer and the two counters; the callback is called with the bytes of a record, and the
-- calls are the list of these. The kernel writes the buffer: what it wrote is an argument.
pub mod Consume
pub mod Deliver
mod Tests
use mathlib.Core.Option
use profiling.Prelude.{
  ℕ, zero, suc, ◌+◌, ◌-◌, ◌*◌, ◌%◌, ◌^◌, Bool, true, false, Option, none, some, List, [], ◌∷◌, ◌++◌,
  map, ltb, leb, ◌==◌, if◌then◌else◌, length, get_or, take, drop,
}

pub record PerfEventFd : Type 0 where
  pub mmap_size : ℕ
  pub pagesize : ℕ
  pub data_tail : ℕ
  pub data_head : ℕ
  -- The `mmap_size - pagesize` bytes behind the first page.
  pub mmap_buffer : List ℕ

-- `hdr->size`, the last 2 bytes of the 8 of `struct perf_event_header`.
abbrev pub size_of : List ℕ → ℕ
size_of hdr = get_or hdr 6 0 + 2 ^ 8 * get_or hdr 7 0

-- `n` bytes from offset `cur`: in one piece, or in two, copied to `temp_buf`.
unfoldable pub read_at : List ℕ → ℕ → ℕ → List ℕ
read_at base cur n =
    let first_part = length base - cur in
    if ltb (length base) (cur + n)
    then take first_part (drop cur base) ++ take (n - first_part) base
    else take n (drop cur base)

-- Whether the record at `cur` is given to the callback: one in two pieces only if it fits in the
-- 4096 bytes of `temp_buf`.
unfoldable pub is_handled : ℕ → ℕ → ℕ → Bool
is_handled buf_size cur size = if ltb buf_size (cur + size) then leb size 4096 else true

-- The next value of `cur`.
unfoldable pub advance : ℕ → ℕ → ℕ → ℕ
advance buf_size cur size =
    if ltb buf_size (cur + size)
    then size - (buf_size - cur)
    else if cur + size == buf_size
    then 0
    else cur + size

-- The records given to the callback by the loop; `none` where the fuel runs out.
unfoldable pub consume : ℕ → List ℕ → ℕ → ℕ → Option (List (List ℕ))
unfolding read_at is_handled advance
consume zero base end cur = none
consume (suc fuel) base end cur =
    let size = size_of (read_at base cur 8) in
    let rest = consume fuel base end (advance (length base) cur size) in
    if cur == end
    then some []
    else if size == 0
    then some []
    else if is_handled (length base) cur size
    then Option.map (λ records. read_at base cur size ∷ records) rest
    else rest

-- The event after the call, the records given to the callback, and the number returned. In a
-- buffer without broken records each pass takes 8 bytes or more, so the size of the buffer is fuel
-- enough.
unfoldable pub perf_event_consume_ring_buffer :
    PerfEventFd → Option (PerfEventFd × List (List ℕ) × ℕ)
unfolding consume
perf_event_consume_ring_buffer event =
    if event.pagesize == 0
    then some (event, [], 0)
    else if event.data_tail == event.data_head
    then some (event, [], 0)
    else let buf_size = event.mmap_size - event.pagesize in
      Option.map
        (λ records. (record event { data_tail = event.data_head }, records, length records))
        (consume buf_size event.mmap_buffer (event.data_head % buf_size)
          (event.data_tail % buf_size))
