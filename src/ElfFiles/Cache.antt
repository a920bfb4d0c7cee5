-- ===== src/ElfFiles/Cache.antt =====
-- The cache keeps each file in the bucket of its build id, once and with a count of at least 1; what
-- is found in it after each operation.
use mathlib.Core.Path.{subst}
use profiling.Prelude.{
  ℕ_discrete, get_or-set_self, get_or-set_ne, get_or-replicate, ℕ, ◌<◌, ◌≡◌, sym, ap, ◌∙◌, false,
  List, [], ◌∷◌, arith, length, length-set, All, set, get_or, length-replicate,
}
use profiling.CString.{CString, same}
use profiling.Hash.{hash_str, hash_str_lt, hashtable_size}
use profiling.ElfFiles.{empty_cache, ElfFile, ElfFileCache, bucket, find_id, find_elf_in_table}

-- The build id is that of none of the files.
abbrev pub Lacks : CString → List ElfFile → Type 0
Lacks id files = All (λ f. same f.build_id id ≡ false) files

-- The files of a bucket have different build ids, each with hash `i`, and are in use.
abbrev pub IsBucket : ℕ → List ElfFile → Type 0
IsBucket i [] = Unit
IsBucket i (file ∷ files) =
    (hash_str file.build_id ≡ i)
    × Lacks file.build_id files
    × (0 < file.reference_count)
    × IsBucket i files

pub record IsElfCache (cache : ElfFileCache) : Type 0 where
  pub size : length cache ≡ hashtable_size
  pub buckets : (i : ℕ) → IsBucket i (bucket cache i)

module _ (cache : ElfFileCache) where
  pub bucket-set_self :
      (id : CString) (files : List ElfFile)
      → length cache ≡ hashtable_size
      → bucket (set cache (hash_str id) files) (hash_str id) ≡ files
  bucket-set_self id files h =
      get_or-set_self cache (hash_str id) files []
        (subst (λ n. hash_str id < n) (sym h) (hash_str_lt id))

  -- A change of one bucket.
  pub set-IsElfCache :
      (i : ℕ) (files : List ElfFile)
      → i < hashtable_size
      → IsElfCache cache
      → IsBucket i files
      → IsElfCache (set cache i files)
  set-IsElfCache i files lt h b = record {
    size = length-set cache i files ∙ h.size;
    buckets = λ j. elim (ℕ_discrete i j) [
      | yes e ↦
          subst (λ k. IsBucket k (get_or (set cache i files) k [])) e
            (rw (get_or-set_self cache i files [] (omega (arith, h.size))) b)
      | no ne ↦ rw (get_or-set_ne cache i j files [] ne) (h.buckets j)
    ];
  }

  -- What a change of the bucket of `id` makes of a search: for `id` itself, and for others if the
  -- search in the bucket stays as it was.
  pub find-set_self :
      (id : CString) (files : List ElfFile)
      → length cache ≡ hashtable_size
      → find_elf_in_table (set cache (hash_str id) files) id ≡ find_id id files
  unfolding find_elf_in_table
  find-set_self id files h = ap (find_id id) (bucket-set_self id files h)

  pub find-set_ne :
      (id q : CString) (files : List ElfFile)
      → find_id q files ≡ find_id q (bucket cache (hash_str id))
      → length cache ≡ hashtable_size
      → find_elf_in_table (set cache (hash_str id) files) q ≡ find_elf_in_table cache q
  unfolding find_elf_in_table
  find-set_ne id q files e h = elim (ℕ_discrete (hash_str id) (hash_str q)) [
    | yes same_hash ↦
        subst
          (λ k. find_id q (bucket (set cache (hash_str id) files) k) ≡ find_id q (bucket cache k))
          same_hash (ap (find_id q) (bucket-set_self id files h) ∙ e)
    | no ne ↦ ap (find_id q) (get_or-set_ne cache (hash_str id) (hash_str q) files [] ne)
  ]

pub empty_cache-IsElfCache : IsElfCache empty_cache
empty_cache-IsElfCache = record {
  size = length-replicate {A = List ElfFile} hashtable_size [];
  buckets = λ i. rw (get_or-replicate {A = List ElfFile} hashtable_size i []) tt;
}
