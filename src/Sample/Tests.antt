-- ===== src/Sample/Tests.antt =====
-- A sample with two addresses, and the theorems at it.
use profiling.Prelude.{ℕ, ◌≡◌, refl, true, false, List, [], ◌∷◌, arith, replicate, take}
use profiling.Sample.{CallchainResult, parse_sample_data}
use profiling.Sample.Bounds.{Fits, parse_sample_data-Fits}
use profiling.Sample.Encode.{encode, IsSample, parse_sample_data-encode}

abbrev header : List ℕ
header = 9 ∷ 0 ∷ 0 ∷ 0 ∷ 2 ∷ 0 ∷ 72 ∷ 0 ∷ []

abbrev sample : CallchainResult
sample = record {
  timestamp_ns = 123456789;
  pid = 4711;
  tid = 4712;
  ip = 0xffffffff81000000;
  nr = 2;
  ips = 0x401000 ∷ 0x402000 ∷ [];
}

abbrev old : CallchainResult
old = record { timestamp_ns = 99; pid = 1; tid = 1; ip = 1; nr = 1; ips = 1 ∷ [] }

abbrev bytes : List ℕ
bytes = encode header sample (replicate 16 7)

reads :
    (parse_sample_data false 128 bytes old ≡ sample)
    × (parse_sample_data false 1 bytes old ≡ record sample { nr = 1; ips = 0x401000 ∷ [] })
    × (parse_sample_data true 128 bytes old ≡ record sample { nr = 1; ips = 0x401000 ∷ [] })
    × (parse_sample_data false 128 (take 30 bytes) old
        ≡ record sample { timestamp_ns = 99; nr = 0; ips = [] })
unfolding parse_sample_data
reads = (refl, refl, refl, refl)

parse_sample_data-Fits_example : Fits 1 (parse_sample_data true 1 bytes old)
parse_sample_data-Fits_example = parse_sample_data-Fits true 1 bytes old

sample-IsSample : IsSample 128 sample
sample-IsSample = record {
  ip_lt = omega arith;
  pid_lt = omega arith;
  tid_lt = omega arith;
  time_lt = omega arith;
  nr_lt = omega arith;
  ips_lt = omega arith;
  counted = refl;
  room = omega arith;
}

parse_sample_data-encode_example :
    parse_sample_data false 128 (encode header sample (replicate 16 7)) old ≡ sample
parse_sample_data-encode_example =
    parse_sample_data-encode 128 sample old header (replicate 16 7) sample-IsSample refl
