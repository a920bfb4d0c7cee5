-- ===== src/Sample/Encode.antt =====
-- A sample without LBR as the kernel writes it, and that it is read back.
use profiling.Prelude.{
  ℕ, zero, suc, ◌+◌, ◌*◌, ◌/◌, ◌%◌, ◌^◌, ◌≤◌, ◌<◌, ◌≡◌, refl, sym, ap, ap₂, ◌∙◌, false, List, [],
  ◌∷◌, ◌++◌, arith, ltb, length, drop, drop-append, drop-all, All,
}
use profiling.Sample.{
  CallchainResult, little_endian, copy_ips, count_to_copy, read_stack, read_nr, read_time, read_pid,
  read_ip, parse_sample_data,
}

-- The number in `n` bytes, the lowest first, before what follows.
abbrev pub put : ℕ → ℕ → List ℕ → List ℕ
put zero x rest = rest
put (suc n) x rest = (x % 2 ^ 8) ∷ put n (x / 2 ^ 8) rest

abbrev pub put_all : List ℕ → List ℕ → List ℕ
put_all [] rest = rest
put_all (x ∷ xs) rest = put 8 x (put_all xs rest)

little_endian-put_4 : (x : ℕ) (rest : List ℕ) → x < 2 ^ 32 → little_endian 4 (put 4 x rest) ≡ x
unfolding little_endian
little_endian-put_4 x rest h = omega arith

little_endian-put_8 : (x : ℕ) (rest : List ℕ) → x < 2 ^ 64 → little_endian 8 (put 8 x rest) ≡ x
unfolding little_endian
little_endian-put_8 x rest h = omega arith

-- The 8 bytes of the header hold the type, the flags and the length; the registers follow the
-- stack.
abbrev pub encode : List ℕ → CallchainResult → List ℕ → List ℕ
encode header s registers =
    header
    ++ put 8 s.ip
        (put 4 s.pid (put 4 s.tid (put 8 s.timestamp_ns (put 8 s.nr (put_all s.ips registers)))))

pub record IsSample (max_ips : ℕ) (s : CallchainResult) : Type 0 where
  pub ip_lt : s.ip < 2 ^ 64
  pub pid_lt : s.pid < 2 ^ 32
  pub tid_lt : s.tid < 2 ^ 32
  pub time_lt : s.timestamp_ns < 2 ^ 64
  pub nr_lt : s.nr < 2 ^ 64
  pub ips_lt : All (λ ip. ip < 2 ^ 64) s.ips
  pub counted : s.nr ≡ length s.ips
  pub room : s.nr ≤ max_ips

length-put_all :
    (ips registers : List ℕ) → length (put_all ips registers) ≡ 8 * length ips + length registers
length-put_all [] registers = omega arith
length-put_all (x ∷ xs) registers = omega (arith, length-put_all xs registers)

copy_ips-put_all :
    (ips registers : List ℕ)
    → All (λ ip. ip < 2 ^ 64) ips
    → copy_ips (length ips) (put_all ips registers) ≡ ips
unfolding copy_ips
copy_ips-put_all [] registers h = refl
copy_ips-put_all (x ∷ xs) registers h =
    ap₂ ◌∷◌ (little_endian-put_8 x (put_all xs registers) h.0) (copy_ips-put_all xs registers h.1)

count_all :
    (ips registers : List ℕ) (max_ips : ℕ)
    → length ips ≤ max_ips
    → count_to_copy (length ips) (put_all ips registers) 8 max_ips ≡ length ips
unfolding count_to_copy
count_all ips registers max_ips h =
    let size = length-put_all ips registers in
    let enough : length ips ≤ length (put_all ips registers) / 8 = omega (arith, size) in
    ground (arith, enough)

module _ (max_ips : ℕ) (result : CallchainResult) (rest : List ℕ) where
  read_ip-put :
      (x : ℕ)
      → x < 2 ^ 64
      → read_ip false max_ips result (put 8 x rest)
        ≡ read_pid false max_ips (record result { ip = x }) rest
  unfolding read_ip
  read_ip-put x h =
      let long : ltb (length (put 8 x rest)) 8 ≡ false = ground arith in
      rw (long, little_endian-put_8 x rest h) refl

  read_pid-put :
      (x y : ℕ)
      → x < 2 ^ 32
      → y < 2 ^ 32
      → read_pid false max_ips result (put 4 x (put 4 y rest))
        ≡ read_time false max_ips (record result { pid = x; tid = y }) rest
  unfolding read_pid
  read_pid-put x y hx hy =
      let long : ltb (length (put 4 x (put 4 y rest))) 8 ≡ false = ground arith in
      rw (long, little_endian-put_4 x (put 4 y rest) hx, little_endian-put_4 y rest hy) refl

  read_time-put :
      (x : ℕ)
      → x < 2 ^ 64
      → read_time false max_ips result (put 8 x rest)
        ≡ read_nr false max_ips (record result { timestamp_ns = x }) rest
  unfolding read_time
  read_time-put x h =
      let long : ltb (length (put 8 x rest)) 8 ≡ false = ground arith in
      rw (long, little_endian-put_8 x rest h) refl

  read_nr-put :
      (x : ℕ)
      → x < 2 ^ 64
      → read_nr false max_ips result (put 8 x rest) ≡ read_stack false max_ips result x rest
  unfolding read_nr
  read_nr-put x h =
      let long : ltb (length (put 8 x rest)) 8 ≡ false = ground arith in
      rw (long, little_endian-put_8 x rest h) refl

read_stack-put_all :
    (max_ips : ℕ) (result : CallchainResult) (ips registers : List ℕ)
    → All (λ ip. ip < 2 ^ 64) ips
    → length ips ≤ max_ips
    → read_stack false max_ips result (length ips) (put_all ips registers)
      ≡ record result { nr = length ips; ips = ips }
unfolding read_stack
read_stack-put_all max_ips result ips registers lt room =
    rw (count_all ips registers max_ips room, copy_ips-put_all ips registers lt) refl

drop-header : (header rest : List ℕ) → length header ≡ 8 → drop 8 (header ++ rest) ≡ rest
drop-header header rest h =
    drop-append 8 header rest (omega (arith, h))
    ∙ ap (λ r. r ++ rest) (drop-all 8 header (omega (arith, h)))

-- For a sample without LBR as the kernel writes it, with whatever registers behind the stack and at
-- most max_ips addresses, parse_sample_data gives the sample's time, pid, tid, address and stack.
pub parse_sample_data-encode :
    (max_ips : ℕ) (s old : CallchainResult) (header registers : List ℕ)
    → IsSample max_ips s
    → length header ≡ 8
    → parse_sample_data false max_ips (encode header s registers) old ≡ s
unfolding parse_sample_data
parse_sample_data-encode max_ips s old header registers h h8 =
    let r0 = record old { pid = 0; tid = 0; ip = 0; nr = 0; ips = [] } in
    let r1 = record r0 { ip = s.ip } in
    let r2 = record r1 { pid = s.pid; tid = s.tid } in
    let r3 = record r2 { timestamp_ns = s.timestamp_ns } in
    let stack = put_all s.ips registers in
    let tail4 = put 8 s.nr stack in
    let tail3 = put 8 s.timestamp_ns tail4 in
    let tail2 = put 4 s.pid (put 4 s.tid tail3) in
    ap (read_ip false max_ips r0) (drop-header header (put 8 s.ip tail2) h8)
    ∙ read_ip-put max_ips r0 tail2 s.ip h.ip_lt
    ∙ read_pid-put max_ips r1 tail3 s.pid s.tid h.pid_lt h.tid_lt
    ∙ read_time-put max_ips r2 tail4 s.timestamp_ns h.time_lt
    ∙ read_nr-put max_ips r3 stack s.nr h.nr_lt
    ∙ ap (λ n. read_stack false max_ips r3 n stack) h.counted
    ∙ read_stack-put_all max_ips r3 s.ips registers h.ips_lt (omega (arith, h.counted, h.room))
    ∙ ap (λ n. record r3 { nr = n; ips = s.ips }) (sym h.counted)
