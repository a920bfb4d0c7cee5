-- ===== src/PerfRing/Deliver.antt =====
-- The records that a call of `perf_event_consume_ring_buffer` delivers.
use mathlib.Core.Option
use mathlib.Core.Path.{subst}
use profiling.Prelude.{
  ℕ, zero, suc, ◌+◌, ◌-◌, ◌%◌, ◌^◌, ◌≤◌, ◌<◌, ◌≡◌, ◌≢◌, refl, sym, ap, ◌∙◌, Bool, true, false, ◌||◌,
  Bool-cases, inl, inr, some, List, [], ◌∷◌, arith, leb, ◌==◌, if◌then◌else◌, length, All,
}
use profiling.PerfRing.{
  PerfEventFd, size_of, read_at, is_handled, advance, consume, perf_event_consume_ring_buffer,
}
use profiling.PerfRing.Consume.{
  after, Written, total, handled, read_at-ring_read, size_of-read_at, advance-after, after_lt,
  after_ne, after-after, is_handled-or,
}

-- One pass of the loop over a record of size `n`.
consume-pass :
    (fuel : ℕ) (base : List ℕ) (end cur n : ℕ)
    → cur ≢ end
    → 0 < n
    → size_of (read_at base cur 8) ≡ n
    → consume (suc fuel) base end cur ≡ (
        let rest = consume fuel base end (advance (length base) cur n) in
        if is_handled (length base) cur n
        then Option.map (λ records. read_at base cur n ∷ records) rest
        else rest)
unfolding consume
consume-pass fuel base end cur n ne pos size =
    let running : (cur == end) ≡ false = ground arith in
    let nonempty : (n == 0) ≡ false = ground arith in rw (running, size, nonempty) refl

consume-stop :
    (fuel : ℕ) (base : List ℕ) (end cur : ℕ) → end ≡ cur → consume (suc fuel) base end cur ≡ some []
unfolding consume
consume-stop fuel base end cur e =
    let stopped : (cur == end) ≡ true = ground arith in rw stopped refl

after_zero : (buf_size cur : ℕ) → cur < buf_size → after buf_size cur 0 ≡ cur
after_zero buf_size cur h = ground arith

if_some :
    (b : Bool) (x y : List (List ℕ)) → (if b then some x else some y) ≡ some (if b then x else y)
if_some true x y = refl
if_some false x y = refl

consume-handled :
    (rs : List (List ℕ)) (fuel : ℕ) (base : List ℕ) (cur : ℕ)
    → cur < length base
    → total rs < length base
    → Written base cur rs
    → length rs < fuel
    → consume fuel base (after (length base) cur (total rs)) cur
      ≡ some (handled (length base) cur rs)
consume-handled rs zero base cur hc ht w hf = absurd (omega arith)
consume-handled [] (suc fuel) base cur hc ht w hf =
    consume-stop fuel base _ cur (after_zero (length base) cur hc)
consume-handled (r ∷ rs) (suc fuel) base cur hc ht (record_, stands, w) hf =
    let n = length r in
    let end = after (length base) cur (n + total rs) in
    let pos : 0 < n = omega (arith, record_.0) in
    let cur' = after (length base) cur n in
    let rest : consume fuel base end cur' ≡ some (handled (length base) cur' rs) =
      ap (λ e. consume fuel base e cur') (sym (after-after (length base) cur n (total rs) hc ht))
      ∙ consume-handled rs fuel base cur' (after_lt (length base) cur n hc (omega arith))
          (omega arith) w (omega arith) in
    consume-pass fuel base end cur n (after_ne (length base) cur (n + total rs) hc (omega arith) ht)
      pos (size_of-read_at base r cur (omega arith) (omega arith) record_ stands)
    ∙ rw
        (
          advance-after (length base) cur n hc (omega arith),
          rest,
          is_handled-or (length base) cur n,
          read_at-ring_read base cur n (omega arith) (omega arith),
          stands,
        )
        (if_some (leb (cur + n) (length base) || leb n 4096) _ _)

-- The buffer of 2^20 bytes that `perf_add_sample_event_mmap` maps, with the records that the kernel
-- wrote from `data_tail` on. The kernel never fills it to the last byte; its counters are 64 bits.
pub record Holds (event : PerfEventFd) (rs : List (List ℕ)) : Type 0 where
  pub page : 0 < event.pagesize
  pub mapped : event.mmap_size ≡ 2 ^ 20 + event.pagesize
  pub bytes : length event.mmap_buffer ≡ 2 ^ 20
  pub tail_lt : event.data_tail < 2 ^ 64
  pub head : event.data_head ≡ (event.data_tail + total rs) % 2 ^ 64
  pub not_full : total rs < 2 ^ 20
  pub written : Written event.mmap_buffer (event.data_tail % 2 ^ 20) rs

Written-length :
    (base : List ℕ) (rs : List (List ℕ)) (cur : ℕ) → Written base cur rs → length rs ≤ total rs
Written-length base [] cur w = omega arith
Written-length base (r ∷ rs) cur w =
    omega (arith, w.0.0, Written-length base rs (after (length base) cur (length r)) w.2)

-- The offset of the head in the buffer.
head_offset :
    (tail head n : ℕ)
    → n < 2 ^ 20
    → head ≡ (tail + n) % 2 ^ 64
    → head % 2 ^ 20 ≡ after (2 ^ 20) (tail % 2 ^ 20) n
head_offset tail head n h e = ground arith

-- The kernel's counters are equal only if it wrote nothing.
counters_differ :
    (tail head n : ℕ)
    → tail < 2 ^ 64
    → 0 < n
    → n < 2 ^ 20
    → head ≡ (tail + n) % 2 ^ 64
    → (tail == head) ≡ false
counters_differ tail head n ht pos hn e = let ne : tail ≢ head = omega arith in ground (arith, ne)

abbrev pub Delivered : PerfEventFd → List (List ℕ) → Type 0
Delivered event rs =
    perf_event_consume_ring_buffer event
    ≡ some (record event { data_tail = event.data_head }, rs, length rs)

-- What the call does with what the loop delivers.
call_result : PerfEventFd → List (List ℕ) → PerfEventFd × List (List ℕ) × ℕ
call_result event records = (record event { data_tail = event.data_head }, records, length records)

-- A call that finds no new data.
idle_call : (event : PerfEventFd) → event.data_tail ≡ event.data_head → Delivered event []
unfolding perf_event_consume_ring_buffer
idle_call event e =
    let same : (event.data_tail == event.data_head) ≡ true = ground arith in
    elim (Bool-cases (event.pagesize == 0)) [
      | inl no_page ↦ rw no_page (ap (λ t. some (record event { data_tail = t }, [], 0)) e)
      | inr page ↦ rw (page, same) (ap (λ t. some (record event { data_tail = t }, [], 0)) e)
    ]

busy_call :
    (event : PerfEventFd)
    → (event.pagesize == 0) ≡ false
    → (event.data_tail == event.data_head) ≡ false
    → perf_event_consume_ring_buffer event ≡ (
        let buf_size = event.mmap_size - event.pagesize in
        Option.map (call_result event) (
          consume buf_size event.mmap_buffer
            (event.data_head % buf_size)
            (event.data_tail % buf_size)))
unfolding perf_event_consume_ring_buffer call_result
busy_call event page new = rw (page, new) refl

-- For a buffer that holds records rs the call returns; it gives the callback, in their order, the
-- records that stand in one piece or are at most 4096 bytes long, returns their number, and gives the
-- kernel the whole space back.
pub consume_ring_buffer-handled :
    (rs : List (List ℕ)) (event : PerfEventFd)
    → Holds event rs
    → Delivered event (handled (2 ^ 20) (event.data_tail % 2 ^ 20) rs)
consume_ring_buffer-handled [] event h = idle_call event (omega (arith, h.head, h.tail_lt))
consume_ring_buffer-handled (r ∷ rs) event h =
    let size : event.mmap_size - event.pagesize ≡ 2 ^ 20 = omega (arith, h.mapped) in
    let head = head_offset event.data_tail event.data_head (total (r ∷ rs)) h.not_full h.head in
    let start = event.data_tail % 2 ^ 20 in
    let count = Written-length event.mmap_buffer (r ∷ rs) start h.written in
    let loop =
      subst
        (λ b.
          consume (2 ^ 20) event.mmap_buffer (after b start (total (r ∷ rs))) start
          ≡ some (handled b start (r ∷ rs)))
        h.bytes
        (consume-handled (r ∷ rs) (2 ^ 20) event.mmap_buffer start (omega (arith, h.bytes))
          (omega (arith, h.bytes, h.not_full)) h.written (omega (arith, count, h.not_full))) in
    busy_call event (ground (arith, h.page)) (
      counters_differ event.data_tail event.data_head (total (r ∷ rs)) h.tail_lt
        (omega (arith, h.written.0.0)) h.not_full h.head)
    ∙ rw (size, head) (unfold call_result in ap (Option.map (call_result event)) loop)

handled-short :
    (buf_size : ℕ) (rs : List (List ℕ)) (cur : ℕ)
    → All (λ r. length r ≤ 4096) rs
    → handled buf_size cur rs ≡ rs
handled-short buf_size [] cur h = refl
handled-short buf_size (r ∷ rs) cur h =
    let short : leb (length r) 4096 ≡ true = ground arith in
    let or_true : (leb (cur + length r) buf_size || true) ≡ true = ground arith in
    rw (short, or_true)
      (ap (λ xs. r ∷ xs) (handled-short buf_size rs (after buf_size cur (length r)) h.1))

-- For a buffer that holds records of at most 4096 bytes each, the call gives the callback all of
-- them, in their order and whole, also across the end of the buffer, returns their number, and gives
-- the kernel the whole space back.
pub consume_ring_buffer-All :
    (rs : List (List ℕ)) (event : PerfEventFd)
    → Holds event rs
    → All (λ r. length r ≤ 4096) rs
    → Delivered event rs
consume_ring_buffer-All rs event h short =
    subst (Delivered event) (handled-short (2 ^ 20) rs (event.data_tail % 2 ^ 20) short)
      (consume_ring_buffer-handled rs event h)
