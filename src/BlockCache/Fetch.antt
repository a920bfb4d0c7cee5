-- ===== src/BlockCache/Fetch.antt =====
-- What a cache gets from an honest file are blocks of its bytes.
use profiling.Prelude.{
  ℕ, ◌+◌, ◌-◌, ◌<◌, ◌≤◌, ◌%◌, ◌^◌, ◌≡◌, refl, sym, ap, ◌∙◌, Bool-cases, inl, inr, Option, none,
  some, List, arith, ltb, ◌==◌, ==_iff, ltb→lt, OrNone, if◌then◌else◌, length, take, drop, take-all,
  length-drop,
}
use profiling.BlockCache.{
  CacheBlock, MemoryCache, File, create_cache_block, filled_block, read_from_file, whole,
}
use profiling.BlockCache.Load.{past_later}
use profiling.BlockCache.WellFormed.{IsCache, IsBlock, padded}

-- What the file's `read` gives in full are its bytes.
abbrev pub IsHonest : List ℕ → File → Type 0
IsHonest contents file =
    (t o n : ℕ) (bytes : List ℕ)
    → o + n ≤ length contents
    → file.read t o n ≡ some bytes
    → length bytes ≡ n
    → bytes ≡ take n (drop o contents)

module _ (contents : List ℕ) (file : File) (honest : IsHonest contents file) where
  whole-bytes :
      (t o n : ℕ) (got : Option (List ℕ))
      → o + n ≤ length contents
      → file.read t o n ≡ got
      → OrNone (λ bytes. bytes ≡ take n (drop o contents)) (whole n got)
  unfolding whole
  whole-bytes t o n none h e = tt
  whole-bytes t o n (some bytes) h e = elim (Bool-cases (length bytes == n)) [
    | inl full ↦ rw full (honest t o n bytes h e ((==_iff (length bytes) n).0 full))
    | inr short ↦ rw short tt
  ]

  read_from_file-bytes :
      (t o n : ℕ)
      → o + n ≤ length contents
      → OrNone (λ bytes. bytes ≡ take n (drop o contents)) (read_from_file file t o n)
  unfolding read_from_file
  read_from_file-bytes t o n h = elim (Bool-cases (file.lseek t o)) [
    | inl found ↦ rw found (whole-bytes t o n (file.read t o n) h refl)
    | inr lost ↦ rw lost tt
  ]

  filled_block-IsBlock :
      (o n : ℕ) (got : Option (List ℕ))
      → o % 4096 ≡ 0
      → o < length contents
      → take n (drop o contents) ≡ take 4096 (drop o contents)
      → OrNone (λ bytes. bytes ≡ take n (drop o contents)) got
      → OrNone (λ b. IsBlock contents b × (b.offset ≡ o)) (filled_block o got)
  unfolding filled_block
  filled_block-IsBlock o n none aligned inside same h = tt
  filled_block-IsBlock o n (some bytes) aligned inside same h =
      ((aligned, inside, ap padded (h ∙ same)), refl)

  -- The size that is read is that of the block, or what the file has of it.
  pub read_size_lem :
      (o file_size : ℕ)
      → file_size ≡ length contents
      → length contents < 2 ^ 63
      → o < length contents
      → let n = if ltb file_size ((o + 4096) % 2 ^ 64) then file_size - o else 4096 in
        (o + n ≤ length contents) × (take n (drop o contents) ≡ take 4096 (drop o contents))
  read_size_lem o file_size e small inside =
      elim (Bool-cases (ltb file_size ((o + 4096) % 2 ^ 64))) [
        | inl short ↦
            let long = length-drop o contents in
            let less = ltb→lt file_size _ short in
            let beyond : file_size < o + 4096 = omega (arith, less) in
            rw short (
              omega arith,
              take-all (file_size - o) _ (omega (arith, long))
                  ∙ sym (take-all 4096 _ (omega (arith, long, beyond))),
            )
        | inr full ↦ rw full (ground arith, refl)
      ]

module _ (contents : List ℕ) (file : File) (honest : IsHonest contents file) where
  -- A block that was made of a part of the file, and the clock after it.
  abbrev pub Made : MemoryCache → ℕ → Option CacheBlock × MemoryCache → Type 0
  Made cache o (none, cache') = IsCache contents cache'
  Made cache o (some block, cache') =
      IsBlock contents block
      × (block.offset ≡ o)
      × (cache' ≡ record cache { access_counter = cache.access_counter + 1 })

  pub later-IsCache :
      (cache : MemoryCache)
      → IsCache contents cache
      → IsCache contents (record cache { access_counter = cache.access_counter + 1 })
  later-IsCache cache h = record {
    size = h.size;
    size_lt = h.size_lt;
    blocks = h.blocks;
    strict = h.strict;
    same_blocks = h.same_blocks;
    counted = h.counted;
    counted_tree = h.counted_tree;
    bounded = h.bounded;
    max_blocks = h.max_blocks;
    recent = h.recent;
    past = past_later cache.access_counter cache.lru_list h.past;
  }

  filled-Made :
      (cache : MemoryCache) (o : ℕ) (got : Option CacheBlock)
      → IsCache contents cache
      → OrNone (λ b. IsBlock contents b × (b.offset ≡ o)) got
      → Made cache o (got, record cache { access_counter = cache.access_counter + 1 })
  filled-Made cache o none h made = later-IsCache cache h
  filled-Made cache o (some block) h made = (made.0, made.1, refl)

  pub create_cache_block-Made :
      (cache : MemoryCache) (o : ℕ)
      → IsCache contents cache
      → o % 4096 ≡ 0
      → o < length contents
      → Made cache o (create_cache_block file cache o)
  unfolding create_cache_block
  create_cache_block-Made cache o h aligned inside =
      elim (Bool-cases (file.calloc cache.access_counter)) [
        | inl memory ↦
            let part =
              read_size_lem contents file honest o cache.file_size h.size h.size_lt inside in
            let bytes = read_from_file-bytes contents file honest cache.access_counter o _ part.0 in
            rw memory (
              filled-Made cache o _ h
                (filled_block-IsBlock contents file honest o _ _ aligned inside part.1 bytes))
        | inr full ↦ rw full h
      ]
