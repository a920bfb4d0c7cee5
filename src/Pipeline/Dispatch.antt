-- ===== src/Pipeline/Dispatch.antt =====
-- What the event loop pushes is what the kernel wrote.
use profiling.Prelude.{
  ℕ, ◌≡◌, refl, ap, ◌∙◌, false, Option, none, some, List, [], ◌∷◌, ◌++◌, arith, ltb, ◌==◌,
  if◌then◌else◌, length, take, take-all,
}
use profiling.Mempool.{Mempool, mempool_alloc}
use profiling.Sample.{CallchainResult, little_endian, parse_sample_data}
use profiling.Sample.Encode.{encode, IsSample, parse_sample_data-encode}
use profiling.Pipeline.{RawSample, fill_sample, with_chunk, dispatch_sample_event}

-- A sample in a chunk.
abbrev pub in_chunk : CallchainResult → ℕ → RawSample
in_chunk s chunk = record {
  chunk = chunk;
  timestamp_ns = s.timestamp_ns;
  pid = s.pid;
  tid = s.tid;
  ip = s.ip;
  nr = s.nr;
  ips = s.ips;
}

abbrev pub map_chunk : CallchainResult → Option ℕ → Option RawSample
map_chunk s none = none
map_chunk s (some chunk) = some (in_chunk s chunk)

fill_sample-in_chunk :
    (s : CallchainResult) (chunk : ℕ) → IsSample 128 s → fill_sample chunk s ≡ in_chunk s chunk
unfolding fill_sample
fill_sample-in_chunk s chunk h =
    let nr : (if ltb s.nr 128 then s.nr else 128) ≡ s.nr = let room = h.room in ground arith in
    ap (λ n. record (in_chunk s chunk) { nr = n; ips = take n s.ips }) nr
    ∙ ap (λ l. record (in_chunk s chunk) { ips = l })
        (take-all s.nr s.ips (omega (arith, h.counted)))

with_chunk-map_chunk :
    (s : CallchainResult) (got : Option ℕ × Mempool)
    → IsSample 128 s
    → with_chunk s got ≡ (got.1, map_chunk s got.0)
unfolding with_chunk
with_chunk-map_chunk s (none, pool) h = refl
with_chunk-map_chunk s (some chunk, pool) h =
    ap (λ r. (pool, some r)) (fill_sample-in_chunk s chunk h)

little_endian-header :
    (header rest : List ℕ)
    → length header ≡ 8
    → little_endian 4 (header ++ rest) ≡ little_endian 4 header
unfolding little_endian
little_endian-header (a ∷ b ∷ c ∷ d ∷ header) rest h = refl
little_endian-header [] rest h = absurd (omega (arith, h))
little_endian-header (a ∷ []) rest h = absurd (omega (arith, h))
little_endian-header (a ∷ b ∷ []) rest h = absurd (omega (arith, h))
little_endian-header (a ∷ b ∷ c ∷ []) rest h = absurd (omega (arith, h))

-- For a record as the kernel writes it without LBR, with a header of 8 bytes, whatever registers
-- behind the stack, and at most 128 addresses: if it is a sample, dispatch_sample_event takes a chunk
-- from the pool and pushes its time, pid, tid, address and whole stack in it, or pushes nothing where
-- there is no chunk; a record of another type is ignored.
pub dispatch_sample_event-encode :
    (pool : Mempool) (s old : CallchainResult) (header registers : List ℕ) (malloced : Option ℕ)
    → IsSample 128 s
    → length header ≡ 8
    → dispatch_sample_event false pool (encode header s registers) old malloced ≡ (
        if little_endian 4 header == 9
        then ((mempool_alloc pool malloced).1, map_chunk s (mempool_alloc pool malloced).0)
        else (pool, none))
unfolding dispatch_sample_event
dispatch_sample_event-encode pool s old header registers malloced h eight =
    let parsed = parse_sample_data-encode 128 s old header registers h eight in
    let kind = little_endian-header header _ eight in
    ap
      (λ k.
        if k == 9
        then with_chunk (parse_sample_data false 128 (encode header s registers) old)
            (mempool_alloc pool malloced)
        else (pool, none))
      kind
    ∙ ap
        (λ r.
          if little_endian 4 header == 9
          then with_chunk r (mempool_alloc pool malloced)
          else (pool, none))
        parsed
    ∙ ap (λ r. if little_endian 4 header == 9 then r else (pool, none))
        (with_chunk-map_chunk s (mempool_alloc pool malloced) h)
