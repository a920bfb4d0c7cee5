-- ===== src/PerfRing/Consume.antt =====
-- The loop gives the callback the records that the kernel wrote between the two counters.
use profiling.Prelude.{
  ℕ, ◌+◌, ◌-◌, ◌*◌, ◌^◌, ◌≤◌, ◌<◌, ◌≡◌, ◌≢◌, sym, ap, ap₂, ◌∙◌, ◌||◌, Bool-cases, inl, inr, List,
  [], ◌∷◌, ◌++◌, arith, ltb, leb, if◌then◌else◌, length, take, drop, take-all, drop-append,
  take-append, take-append_more, take-take, get_or-take, length-drop, ltb→lt,
}
use profiling.PerfRing.{size_of, read_at, is_handled, advance}

-- The specification of the ring: the bytes from an offset on, and again from the start.
abbrev pub ring_read : List ℕ → ℕ → ℕ → List ℕ
ring_read base cur n = take n (drop cur (base ++ base))

abbrev pub after : ℕ → ℕ → ℕ → ℕ
after buf_size cur n = if ltb (cur + n) buf_size then cur + n else cur + n - buf_size

-- A record has its length in its header.
abbrev pub IsRecord : List ℕ → Type 0
IsRecord r = (8 ≤ length r) × (size_of r ≡ length r)

-- The records stand in the ring one after the other from `cur` on.
abbrev pub Written : List ℕ → ℕ → List (List ℕ) → Type 0
Written base cur [] = Unit
Written base cur (r ∷ rs) =
    IsRecord r
    × (ring_read base cur (length r) ≡ r)
    × Written base (after (length base) cur (length r)) rs

abbrev pub total : List (List ℕ) → ℕ
total [] = 0
total (r ∷ rs) = length r + total rs

pub read_at-ring_read :
    (base : List ℕ) (cur n : ℕ)
    → cur ≤ length base
    → n ≤ length base
    → read_at base cur n ≡ ring_read base cur n
unfolding read_at
read_at-ring_read base cur n hc hn =
    let left = length-drop cur base in
    elim (Bool-cases (ltb (length base) (cur + n))) [
      | inl crosses ↦
          let less : length base < cur + n = ltb→lt _ _ crosses in
          let whole : take (length base - cur) (drop cur base) ≡ drop cur base =
            take-all (length base - cur) (drop cur base) (omega (arith, left)) in
          rw (crosses, whole, drop-append cur base base hc)
            (ap (λ m. drop cur base ++ take (n - m) base) (sym left)
              ∙ sym (take-append_more n (drop cur base) base (omega (arith, left))))
      | inr fits ↦
          rw (fits, drop-append cur base base hc)
            (sym (take-append n (drop cur base) base (ground (arith, left))))
    ]

-- The header that the loop reads is that of the record.
pub size_of-read_at :
    (base r : List ℕ) (cur : ℕ)
    → cur ≤ length base
    → length r ≤ length base
    → IsRecord r
    → ring_read base cur (length r) ≡ r
    → size_of (read_at base cur 8) ≡ length r
size_of-read_at base r cur hc hl (long, size) h =
    let header : read_at base cur 8 ≡ take 8 r =
      read_at-ring_read base cur 8 hc (omega arith)
      ∙ sym (take-take 8 (length r) (drop cur (base ++ base)) long)
      ∙ ap (take 8) h in
    ap size_of header
    ∙ ap₂ (λ a b. a + 2 ^ 8 * b) (get_or-take 8 6 r 0 (omega arith))
        (get_or-take 8 7 r 0 (omega arith))
    ∙ size

-- The records that reach the callback: all but those in two pieces that are longer than the buffer
-- for them.
abbrev pub handled : ℕ → ℕ → List (List ℕ) → List (List ℕ)
handled buf_size cur [] = []
handled buf_size cur (r ∷ rs) =
    let rest = handled buf_size (after buf_size cur (length r)) rs in
    if leb (cur + length r) buf_size || leb (length r) 4096 then r ∷ rest else rest

pub advance-after :
    (buf_size cur n : ℕ)
    → cur < buf_size
    → n < buf_size
    → advance buf_size cur n ≡ after buf_size cur n
unfolding advance
advance-after buf_size cur n hc hn = ground arith

pub after_lt :
    (buf_size cur n : ℕ) → cur < buf_size → n < buf_size → after buf_size cur n < buf_size
after_lt buf_size cur n hc hn = ground arith

pub after_ne :
    (buf_size cur n : ℕ) → cur < buf_size → 0 < n → n < buf_size → cur ≢ after buf_size cur n
after_ne buf_size cur n hc pos hn = ground arith

pub after-after :
    (buf_size cur m n : ℕ)
    → cur < buf_size
    → m + n < buf_size
    → after buf_size (after buf_size cur m) n ≡ after buf_size cur (m + n)
after-after buf_size cur m n hc h = ground arith

pub is_handled-or :
    (buf_size cur n : ℕ) → is_handled buf_size cur n ≡ (leb (cur + n) buf_size || leb n 4096)
unfolding is_handled
is_handled-or buf_size cur n = ground arith
