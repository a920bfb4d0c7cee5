-- ===== src/BlockCache/Reliable.antt =====
-- With memory, and a file that can be read, no call fails: a read of the file returns 0, and a
-- prefetch just where all its turns begin in the file.
use mathlib.Core.Path.{subst}
use profiling.Prelude.{
  ◌⊎◌, dec_lt, ℕ, suc, ◌+◌, ◌-◌, ◌<◌, ◌≤◌, ◌%◌, ◌^◌, ◌*◌, ◌/◌, ◌≡◌, refl, sym, ap, ◌∙◌, true,
  Bool-cases, Option-cases, inl, inr, Option, none, some, List, arith, ltb, ◌↔◌, length-take, zero,
  ◌==◌, ==_iff, ltb→lt, OrNone, length, take, drop, length-drop,
}
use profiling.Tree.{in_order}
use profiling.BlockCache.{
  CacheBlock, MemoryCache, File, RbEraseTree, find_cache_block, create_cache_block, filled_block,
  read_from_file, whole,
}
use profiling.BlockCache.Operations.{
  prefetch_loop, cache_prefetch, read_loop, cache_read, add_block, load_block, get_block,
}
use profiling.BlockCache.Read.{copy_size_le, cache_read-loop, cache_read-bytes, cache_read-outside}
use profiling.BlockCache.Get.{room-lem, get_block-Got}
use profiling.BlockCache.Fetch.{read_size_lem, IsHonest}
use profiling.BlockCache.Load.{touch-IsCache}
use profiling.BlockCache.WellFormed.{IsCache, Found, find_cache_block-Found}

pub record IsReliable (contents : List ℕ) (file : File) : Type 0 where
  pub memory : (t : ℕ) → file.calloc t ≡ true
  pub seeks : (t o : ℕ) → o < length contents → file.lseek t o ≡ true
  pub reads :
      (t o n : ℕ) → o + n ≤ length contents → file.read t o n ≡ some (take n (drop o contents))

abbrev IsSome : {A : Type 0} → Option A → Type 0
IsSome none = ⊥
IsSome (some x) = Unit

module _ (contents : List ℕ) (file : File) (reliable : IsReliable contents file) where
  pub reliable-IsHonest : IsHonest contents file
  reliable-IsHonest t o n bytes h e full =
      subst (OrNone (λ b. b ≡ take n (drop o contents))) (sym (reliable.reads t o n h) ∙ e) refl

  create_cache_block-IsSome :
      (cache : MemoryCache) (o : ℕ)
      → IsCache contents cache
      → o < length contents
      → IsSome (create_cache_block file cache o).0
  unfolding create_cache_block read_from_file whole filled_block
  create_cache_block-IsSome cache o h inside =
      let part =
        read_size_lem contents file reliable-IsHonest o cache.file_size h.size h.size_lt inside in
      let time = cache.access_counter in
      rw (reliable.memory time) (
        rw (reliable.seeks time o inside, reliable.reads time o _ part.0)
          (filled o _ (take_full _ o part.0)))
    where
      take_full :
          (n o : ℕ) → o + n ≤ length contents → (length (take n (drop o contents)) == n) ≡ true
      take_full n o h =
          let long = length-drop o contents in
          let all = length-take n (drop o contents) in (==_iff _ n).1 (omega (arith, long, all))

      filled :
          (o n : ℕ)
          → (length (take n (drop o contents)) == n) ≡ true
          → IsSome (filled_block o (whole n (some (take n (drop o contents)))))
      filled o n e = rw e tt

  module _ (lib : RbEraseTree CacheBlock) where
    add_block-IsSome :
        (made : Option CacheBlock × MemoryCache) → IsSome made.0 → IsSome (add_block lib made).0
    unfolding add_block
    add_block-IsSome (none, cache) h = h
    add_block-IsSome (some block, cache) h = tt

    get_block-IsSome :
        (cache : MemoryCache) (a : ℕ)
        → IsCache contents cache
        → a < length contents
        → IsSome (get_block lib file cache a).0
    unfolding get_block load_block
    get_block-IsSome cache a h inside =
        let found = find_cache_block-Found contents cache a h in
        elim (Option-cases (find_cache_block cache a)) [
          | inl missed ↦
              let room =
                room-lem contents a lib cache h
                  (subst (Found contents a (in_order cache.cache_tree)) missed found) in
              rw (missed, get_block)
                (add_block-IsSome _ (create_cache_block-IsSome _ _ room.0 (omega arith)))
          | inr (block, hit) ↦ rw (hit, get_block) tt
        ]

    read_loop-ok :
        (fuel : ℕ) (cache : MemoryCache) (a n : ℕ)
        → IsCache contents cache
        → a + n ≤ length contents
        → n ≤ fuel
        → (read_loop lib file fuel cache a n).2 ≡ true
    unfolding read_loop
    read_loop-ok fuel cache a zero h inside enough = refl
    read_loop-ok zero cache a (suc n) h inside enough = absurd (omega arith)
    read_loop-ok (suc fuel) cache a (suc n) h inside enough =
        let got = get_block-Got contents a lib file reliable-IsHonest cache h (omega arith) in
        let present = get_block-IsSome cache a h (omega arith) in
        elim (Option-cases (get_block lib file cache a).0) [
          | inl failed ↦ absurd (subst IsSome failed present)
          | inr (block, found) ↦
              let (right, below, above, used) = subst (OrNone _) found got.1 in
              let size = copy_size_le a (suc n) in
              rw (found, read_loop)
                (read_loop-ok fuel _ _ _ (touch-IsCache contents _ block got.0 used)
                  (omega (arith, size.0)) (omega (arith, size.0, size.2 (omega arith))))
        ]

    -- A read of a well-formed cache, with memory and a file that can be read, at an offset in the
    -- file, by a range that does not wrap around, returns 0 and writes the bytes of the range that
    -- the file has.
    pub cache_read-ok :
        (cache : MemoryCache) (offset size : ℕ)
        → IsCache contents cache
        → offset < length contents
        → offset + size < 2 ^ 64
        → let result = cache_read lib file cache offset size in
          (result.2 ≡ true) × (result.1 ≡ take size (drop offset contents))
    cache_read-ok cache offset size h inside small =
        let bytes =
          cache_read-bytes contents lib file reliable-IsHonest cache offset size h inside small in
        let ok : (cache_read lib file cache offset size).2 ≡ true =
          ap (λ r. r.2)
            (cache_read-loop contents lib file reliable-IsHonest cache offset size h inside small)
          ∙ read_loop-ok _ cache offset _ h (omega arith) (omega arith) in
        (ok, bytes.1.0 ok)

    -- Whether all the turns of a prefetch begin in the file.
    abbrev AllInside : ℕ → ℕ → Type 0
    AllInside a end = (end ≤ a) ⊎ (a + (end - a - 1) / 4096 * 4096 < length contents)

    AllInside-next :
        (a end : ℕ) → a < end → a < length contents → AllInside (a + 4096) end ↔ AllInside a end
    AllInside-next a end before inside = (
      λ x. elim x [ inl e ↦ inr (omega arith) | inr e ↦ inr (omega arith) ],
      λ x. elim x [
        | inl e ↦ absurd (omega arith)
        | inr e ↦ elim (dec_lt (a + 4096) end) [
          | yes further ↦ inr (omega arith)
          | no last ↦ inl (omega arith)
        ]
      ],
    )

    prefetch_turn :
        (fuel : ℕ) (cache : MemoryCache) (a end : ℕ)
        → ltb a end ≡ true
        → (cache_read lib file cache a 4096).2 ≡ true
        → (a + 4096) % 2 ^ 64 ≡ a + 4096
        → prefetch_loop lib file (suc fuel) cache a end
          ≡ prefetch_loop lib file fuel (cache_read lib file cache a 4096).0 (a + 4096) end
    unfolding prefetch_loop
    prefetch_turn fuel cache a end more read next =
        rw (more, read)
          (ap (λ b. prefetch_loop lib file fuel (cache_read lib file cache a 4096).0 b end) next)

    prefetch_loop-returns :
        (fuel : ℕ) (cache : MemoryCache) (a end : ℕ)
        → IsCache contents cache
        → length contents < a + fuel
        → a < 2 ^ 63 + 4096
        → ((prefetch_loop lib file fuel cache a end).1 ≡ true) ↔ AllInside a end
    unfolding prefetch_loop
    prefetch_loop-returns zero cache a end h enough small = ground arith
    prefetch_loop-returns (suc fuel) cache a end h enough small = elim (Bool-cases (ltb a end)) [
      | inr done ↦ rw done (λ e. ground arith, λ e. refl)
      | inl more ↦ elim (Bool-cases (ltb a (length contents))) [
        | inr outside ↦
            rw (more, cache_read-outside contents lib file cache a 4096 h (ground arith))
              (λ e. ground arith, λ e. ground arith)
        | inl within ↦
            let inside = ltb→lt _ _ within in
            let len = h.size_lt in
            let read = cache_read-ok cache a 4096 h inside (omega arith) in
            let bytes =
              cache_read-bytes contents lib file reliable-IsHonest cache a 4096 h inside
                (omega arith) in
            let rest =
              prefetch_loop-returns fuel _ (a + 4096) end bytes.2 (omega arith) (omega arith) in
            let turn = AllInside-next a end (ltb→lt a end more) inside in
            subst (λ r. (r.1 ≡ true) ↔ AllInside a end)
              (sym (prefetch_turn fuel cache a end more read.0 (omega arith)))
              (λ e. turn.0 (rest.0 e), λ e. rest.1 (turn.1 e))
      ]
    ]

    -- A prefetch with a well-formed cache, memory and a file that can be read, of a range that does
    -- not wrap around and begins below 2^63, returns 0 just if the range is empty or its last block
    -- of 4096 bytes, counted from the start of the range, begins in the file.
    cache_prefetch-returns :
        (cache : MemoryCache) (offset size : ℕ)
        → IsCache contents cache
        → offset < 2 ^ 63
        → offset + size < 2 ^ 64
        → ((cache_prefetch lib file cache offset size).1 ≡ true)
          ↔ ((size ≡ 0) ⊎ (offset + (size - 1) / 4096 * 4096 < length contents))
    unfolding cache_prefetch
    cache_prefetch-returns cache offset size h below small =
        let end : (offset + size) % 2 ^ 64 ≡ offset + size = omega arith in
        let same = h.size in
        let loop =
          prefetch_loop-returns (cache.file_size + 1) cache offset (offset + size) h (omega arith)
            (omega arith) in
        subst
          (λ e.
            ((prefetch_loop lib file (cache.file_size + 1) cache offset e).1 ≡ true)
            ↔ ((size ≡ 0) ⊎ (offset + (size - 1) / 4096 * 4096 < length contents)))
          (sym end)
          (
            λ e. elim (loop.0 e) [ inl x ↦ inl (omega arith) | inr x ↦ inr (omega arith) ],
            λ x. loop.1 (elim x [ inl y ↦ inl (omega arith) | inr y ↦ inr (omega arith) ]),
          )
