-- ===== src/ElfFiles/Clear.antt =====
-- `clear_elf_cache` empties the cache.
use mathlib.Core.Path.{subst}
use profiling.Prelude.{
  ℕ_discrete, get_or-set_ne, ℕ, zero, suc, ◌<◌, ◌≤◌, ◌≡◌, ◌≢◌, refl, sym, ap, ◌∙◌, true, none, List,
  [], ◌∷◌, arith, length, set,
}
use profiling.CString.{CString, same, same_refl}
use profiling.Hash.{hash_str, hash_str_lt, hashtable_size}
use profiling.ElfFiles.Bucket.{remove_id-IsBucket}
use profiling.ElfFiles.Cache.{bucket-set_self, IsBucket, IsElfCache, set-IsElfCache}
use profiling.ElfFiles.{
  remove_head, clear_bucket, clear_buckets, clear_elf_cache, ElfFile, ElfFileCache, bucket, find_id,
  find_elf_in_table, remove_id, remove_elf,
}

-- What the loop on a bucket leaves.
record Cleared (i : ℕ) (cache cache' : ElfFileCache) : Type 0 where
  keeps : IsElfCache cache'
  empty : bucket cache' i ≡ []
  others : (j : ℕ) → i ≢ j → bucket cache' j ≡ bucket cache j

-- The first file of a bucket is removed from it.
remove_elf-head :
    (cache : ElfFileCache) (i : ℕ) (file : ElfFile) (files : List ElfFile)
    → IsElfCache cache
    → bucket cache i ≡ file ∷ files
    → hash_str file.build_id ≡ i
    → IsElfCache (remove_elf cache file.build_id)
      × (bucket (remove_elf cache file.build_id) i ≡ files)
      × ((j : ℕ) → i ≢ j → bucket (remove_elf cache file.build_id) j ≡ bucket cache j)
unfolding remove_elf
remove_elf-head cache i file files h e hash =
    let id = file.build_id in
    let left = remove_id id (bucket cache (hash_str id)) in
    (
      set-IsElfCache cache (hash_str id) left (hash_str_lt id) h
          (remove_id-IsBucket id (hash_str id) _ (h.buckets (hash_str id))),
      subst (λ k. bucket (set cache (hash_str id) left) k ≡ left) hash
            (bucket-set_self cache id left h.size)
          ∙ ap (λ k. remove_id id (bucket cache k)) hash
          ∙ ap (remove_id id) e
          ∙ head_removed id file files (same_refl id),
      λ j ne. get_or-set_ne cache (hash_str id) j left [] (λ same_hash. ne (sym hash ∙ same_hash)),
    )
  where
    head_removed :
        (id : CString) (file : ElfFile) (files : List ElfFile)
        → same file.build_id id ≡ true
        → remove_id id (file ∷ files) ≡ files
    head_removed id file files e = unfold remove_id in rw e refl

clear_bucket-Cleared :
    (fuel : ℕ) (cache : ElfFileCache) (i : ℕ) (files : List ElfFile)
    → bucket cache i ≡ files
    → length files ≤ fuel
    → IsElfCache cache
    → Cleared i cache (clear_bucket fuel cache i)
unfolding clear_bucket
clear_bucket-Cleared zero cache i [] e enough h = record {
  keeps = h;
  empty = e;
  others = λ j ne. refl;
}
clear_bucket-Cleared zero cache i (file ∷ files) e enough h = absurd (omega arith)
clear_bucket-Cleared (suc fuel) cache i [] e enough h =
    subst (λ l. Cleared i cache (clear_bucket fuel (remove_head cache l) i)) (sym e)
      (clear_bucket-Cleared fuel cache i [] e (omega arith) h)
clear_bucket-Cleared (suc fuel) cache i (file ∷ files) e enough h =
    let b = subst (IsBucket i) e (h.buckets i) in
    let head = remove_elf-head cache i file files h e b.0 in
    let rest =
      clear_bucket-Cleared fuel (remove_elf cache file.build_id) i files head.1 (omega arith)
        head.0 in
    subst (λ l. Cleared i cache (clear_bucket fuel (remove_head cache l) i)) (sym e)
      (record {
        keeps = rest.keeps;
        empty = rest.empty;
        others = λ j ne. rest.others j ne ∙ head.2 j ne;
      })

clear_buckets-empty :
    (n : ℕ) (cache : ElfFileCache)
    → IsElfCache cache
    → IsElfCache (clear_buckets n cache) × ((i : ℕ) → i < n → bucket (clear_buckets n cache) i ≡ [])
unfolding clear_buckets
clear_buckets-empty zero cache h = (h, λ i lt. absurd (omega arith))
clear_buckets-empty (suc n) cache h =
    let before = clear_buckets-empty n cache h in
    let c =
      clear_bucket-Cleared (length (bucket (clear_buckets n cache) n)) (clear_buckets n cache) n _
        refl (omega arith) before.0 in
    (
      c.keeps,
      λ i lt. elim (ℕ_discrete n i) [
        | yes e ↦ subst (λ k. bucket (clear_buckets (suc n) cache) k ≡ []) e c.empty
        | no ne ↦ c.others i ne ∙ before.1 i (omega (arith, ne))
      ],
    )

-- In a well-formed cache the loops of clear_elf_cache come to their ends with every bucket empty:
-- no build id is found.
pub clear_elf_cache-empties :
    (cache : ElfFileCache) (id : CString)
    → IsElfCache cache
    → find_elf_in_table (clear_elf_cache cache) id ≡ none
unfolding clear_elf_cache find_elf_in_table
clear_elf_cache-empties cache id h =
    ap (find_id id) ((clear_buckets-empty hashtable_size cache h).1 (hash_str id) (hash_str_lt id))
    ∙ unfold find_id in refl
