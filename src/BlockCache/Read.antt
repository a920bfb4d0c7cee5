-- ===== src/BlockCache/Read.antt =====
-- `cache_read` gives the bytes of the file, and keeps the cache well formed.
use Prim.Native.Nat.{min}
use mathlib.Core.Path.{subst}
use profiling.Prelude.{
  ℕ, suc, ◌+◌, ◌-◌, ◌<◌, ◌≤◌, ◌%◌, ◌^◌, ◌≡◌, refl, sym, ap, ap₂, ◌∙◌, Bool, true, false, Bool-cases,
  Option-cases, inl, inr, List, [], ◌∷◌, ◌++◌, arith, ltb, leb, ◌↔◌, take-append, drop-append,
  take-take, drop-take, drop-drop, take-add, length-take, zero, ltb→lt, OrNone, if◌then◌else◌,
  length, length-append, take, drop, length-drop, replicate,
}
use profiling.BlockCache.{CacheBlock, MemoryCache, File, RbEraseTree}
use profiling.BlockCache.Operations.{read_loop, cache_read, block_bytes, copy_size, get_block}
use profiling.BlockCache.Get.{get_block-Got}
use profiling.BlockCache.Fetch.{IsHonest}
use profiling.BlockCache.Load.{touch-IsCache}
use profiling.BlockCache.WellFormed.{IsCache, IsBlock, padded}

-- A part of a block is the file's.
padded-part :
    (contents : List ℕ) (o p n : ℕ)
    → o + p + n ≤ length contents
    → p + n ≤ 4096
    → take n (drop p (padded (take 4096 (drop o contents)))) ≡ take n (drop (o + p) contents)
padded-part contents o p n inside fits =
    let block = take 4096 (drop o contents) in
    let pad : List ℕ = replicate (4096 - length block) 0 in
    let long : length block ≡ min 4096 (length contents - o) =
      length-take 4096 (drop o contents) ∙ ap (min 4096) (length-drop o contents) in
    let rest : length (drop p block) ≡ length block - p = length-drop p block in
    ap (take n) (drop-append p block pad (omega (arith, long)))
    ∙ take-append n (drop p block) pad (omega (arith, long, rest))
    ∙ ap (take n) (drop-take p 4096 (drop o contents))
    ∙ take-take n (4096 - p) (drop p (drop o contents)) (omega arith)
    ∙ ap (take n) (drop-drop p o contents)

pub copy_size_le :
    (a n : ℕ)
    → (copy_size a n ≤ n) × (a % 4096 + copy_size a n ≤ 4096) × (0 < n → 0 < copy_size a n)
copy_size_le a n = ground arith

block_bytes-part :
    (contents : List ℕ) (block : CacheBlock) (a n : ℕ)
    → IsBlock contents block
    → block.offset ≤ a
    → a < block.offset + 4096
    → a + n ≤ length contents
    → block_bytes block a n ≡ take (copy_size a n) (drop a contents)
block_bytes-part contents block a n right below above inside =
    let o = block.offset in
    let aligned : o % 4096 ≡ 0 = right.0 in
    let size = copy_size_le a n in
    let place : o + a % 4096 ≡ a = omega arith in
    ap (λ bytes. take (copy_size a n) (drop (a % 4096) bytes)) right.2
    ∙ padded-part contents o (a % 4096) (copy_size a n) (omega (arith, size.0, place)) size.1
    ∙ ap (λ b. take (copy_size a n) (drop b contents)) place

module _ (contents : List ℕ) where
  -- What a loop leaves that is to copy `n` bytes of the file.
  pub record Copied (a n : ℕ) (result : MemoryCache × List ℕ × Bool) : Type 0 where
    pub well_formed : IsCache contents result.0
    copied : result.1 ≡ take (length result.1) (drop a contents)
    length_le : length result.1 ≤ n
    complete : (result.2 ≡ true) ↔ (length result.1 ≡ n)

  -- A turn that copies, and the turns after it.
  Copied-turn :
      (a n m : ℕ) (bytes : List ℕ) (rest : MemoryCache × List ℕ × Bool)
      → m ≤ n
      → a + n ≤ length contents
      → bytes ≡ take m (drop a contents)
      → Copied (a + m) (n - m) rest
      → Copied a n (rest.0, bytes ++ rest.1, rest.2)
  Copied-turn a n m bytes rest le inside e r =
      let long : length bytes ≡ m =
        ap length e ∙ length-take m (drop a contents) ∙ omega (arith, length-drop a contents) in
      let all = length-append bytes rest.1 in
      record {
        well_formed = r.well_formed;
        copied =
            ap₂ (λ x y. x ++ y) e
              (r.copied ∙ sym (ap (take (length rest.1)) (drop-drop m a contents)))
            ∙ take-add m (length rest.1) (drop a contents)
            ∙ sym (ap (λ k. take k (drop a contents)) (all ∙ ap (λ k. k + length rest.1) long));
        length_le = omega (arith, all, long, r.length_le);
        complete = (
          λ ok. let rest_all = r.complete.0 ok in omega (arith, all, long, rest_all),
          λ full. r.complete.1 (omega (arith, all, long, full)),
        );
      }

  module _ (lib : RbEraseTree CacheBlock) (file : File) (honest : IsHonest contents file) where
    pub read_loop-Copied :
        (fuel : ℕ) (cache : MemoryCache) (a n : ℕ)
        → IsCache contents cache
        → a + n ≤ length contents
        → n ≤ fuel
        → Copied a n (read_loop lib file fuel cache a n)
    unfolding read_loop
    read_loop-Copied fuel cache a zero h inside enough = record {
      well_formed = h;
      copied = refl;
      length_le = omega arith;
      complete = (λ e. refl, λ e. refl);
    }
    read_loop-Copied zero cache a (suc n) h inside enough = absurd (omega arith)
    read_loop-Copied (suc fuel) cache a (suc n) h inside enough =
        let got = get_block-Got contents a lib file honest cache h (omega arith) in
        elim (Option-cases (get_block lib file cache a).0) [
          | inl failed ↦
              rw (failed, read_loop)
                (record {
                  well_formed = got.0;
                  copied = refl;
                  length_le = omega arith;
                  complete = (λ e. ground arith, λ e. ground arith);
                })
          | inr (block, found) ↦
              let (right, below, above, used) = subst (OrNone _) found got.1 in
              let size = copy_size_le a (suc n) in
              rw (found, read_loop)
                (Copied-turn a (suc n) (copy_size a (suc n)) _ _ size.0 inside
                  (block_bytes-part contents block a (suc n) right below above inside)
                  (read_loop-Copied fuel _ _ _ (touch-IsCache contents _ block got.0 used)
                    (omega (arith, size.0)) (omega (arith, size.0, size.2 (omega arith)))))
        ]

take-length : (n : ℕ) (xs : List ℕ) → take (length (take n xs)) xs ≡ take n xs
take-length zero xs = refl
take-length (suc n) [] = refl
take-length (suc n) (x ∷ xs) = ap (λ r. x ∷ r) (take-length n xs)

module _ (contents : List ℕ) (lib : RbEraseTree CacheBlock) (file : File)
    (honest : IsHonest contents file) where
  clipped :
      (file_size offset size : ℕ)
      → file_size ≡ length contents
      → offset < length contents
      → offset + size < 2 ^ 64
      → (if ltb file_size ((offset + size) % 2 ^ 64) then file_size - offset else size)
        ≡ min size (length contents - offset)
  clipped file_size offset size e inside small =
      let whole : (offset + size) % 2 ^ 64 ≡ offset + size = omega arith in
      rw whole (elim (Bool-cases (ltb file_size (offset + size))) [
        | inl less ↦ let lt = ltb→lt file_size _ less in rw less (omega arith)
        | inr more ↦ let le : offset + size ≤ file_size = ground arith in rw more (omega arith)
      ])

  -- What `cache_read` does: the loop, on what the file has of the range.
  pub cache_read-loop :
      (cache : MemoryCache) (offset size : ℕ)
      → IsCache contents cache
      → offset < length contents
      → offset + size < 2 ^ 64
      → cache_read lib file cache offset size
        ≡ (let n = min size (length contents - offset) in read_loop lib file n cache offset n)
  unfolding cache_read
  cache_read-loop cache offset size h inside small =
      let e : leb cache.file_size offset ≡ false =
        let same = h.size in ground (arith, same, inside) in
      rw e (
        ap (λ n. read_loop lib file n cache offset n)
          (clipped cache.file_size offset size h.size inside small))

  -- A read of a well-formed cache at an offset in the file, by a range that does not wrap around:
  -- what is written to the buffer are the bytes of the file from the offset on; the result is 0
  -- just if those are all that the file has of the range. The cache stays well formed.
  pub cache_read-bytes :
      (cache : MemoryCache) (offset size : ℕ)
      → IsCache contents cache
      → offset < length contents
      → offset + size < 2 ^ 64
      → let result = cache_read lib file cache offset size in
        (result.1 ≡ take (length result.1) (drop offset contents))
        × ((result.2 ≡ true) ↔ (result.1 ≡ take size (drop offset contents)))
        × IsCache contents result.0
  cache_read-bytes cache offset size h inside small =
      let n = min size (length contents - offset) in
      subst
        (λ result.
          (result.1 ≡ take (length result.1) (drop offset contents))
          × ((result.2 ≡ true) ↔ (result.1 ≡ take size (drop offset contents)))
          × IsCache contents result.0)
        (sym (cache_read-loop cache offset size h inside small))
        (range_bytes offset size (read_loop lib file n cache offset n) (
          read_loop-Copied contents lib file honest n cache offset n h (omega arith) (omega arith)))
    where
      range_bytes :
          (offset size : ℕ) (result : MemoryCache × List ℕ × Bool)
          → Copied contents offset (min size (length contents - offset)) result
          → (result.1 ≡ take (length result.1) (drop offset contents))
            × ((result.2 ≡ true) ↔ (result.1 ≡ take size (drop offset contents)))
            × IsCache contents result.0
      range_bytes offset size result r =
          let n = min size (length contents - offset) in
          let long = length-drop offset contents in
          let all = length-take size (drop offset contents) in
          let part : length (take size (drop offset contents)) ≡ n = omega (arith, all, long) in
          (
            r.copied,
            (
              λ ok.
                  r.copied
                  ∙ ap (λ k. take k (drop offset contents)) (r.complete.0 ok ∙ sym part)
                  ∙ take-length size (drop offset contents),
              λ e. r.complete.1 (ap length e ∙ part),
            ),
            r.well_formed,
          )

-- An offset behind the file is an error, and nothing changes.
pub cache_read-outside :
    (contents : List ℕ) (lib : RbEraseTree CacheBlock) (file : File) (cache : MemoryCache)
    (offset size : ℕ)
    → IsCache contents cache
    → length contents ≤ offset
    → cache_read lib file cache offset size ≡ (cache, [], false)
unfolding cache_read
cache_read-outside contents lib file cache offset size h outside =
    let same = h.size in let e : leb cache.file_size offset ≡ true = ground arith in rw e refl
