-- ===== src/ElfFiles/Weights.antt =====
-- What the calls on the cache of ELF files acquire and release, and what the cache holds, in weights.
use profiling.Prelude.{
  ℕ, zero, suc, ◌+◌, ◌<◌, ◌≡◌, refl, Bool-cases, inl, inr, List, [], ◌∷◌, ◌++◌, arith, length,
  get_or, set,
}
use profiling.CString.{CString, same}
use profiling.ElfFiles.{ElfFile, ElfFileCache, store_count, remove_id}
use profiling.ElfFiles.Resources.{
  ElfResource, node_memory, id_memory, path_memory, collection_memory, ElfCall, acquires, releases,
  free_elf_resources, remove_calls,
}

-- Each resource counts with `w`.
module _ (w : ElfResource → ℕ) where
  abbrev pub acquired : List ElfCall → ℕ
  acquired [] = 0
  acquired (acquires r ∷ calls) = w r + acquired calls
  acquired (releases r ∷ calls) = acquired calls

  abbrev pub released : List ElfCall → ℕ
  released [] = 0
  released (acquires r ∷ calls) = released calls
  released (releases r ∷ calls) = w r + released calls

  abbrev pub file_memory : ℕ
  file_memory = w node_memory + (w id_memory + (w path_memory + w collection_memory))

  abbrev pub held_in : List ElfFile → ℕ
  held_in [] = 0
  held_in (file ∷ files) = file_memory + held_in files

  -- The memory of the files of a cache.
  abbrev pub held : ElfFileCache → ℕ
  held [] = 0
  held (files ∷ cache) = held_in files + held cache

  -- The calls that lead from a cache to another.
  abbrev pub Balanced : ElfFileCache → List ElfCall → ElfFileCache → Type 0
  Balanced cache calls cache' = held cache + acquired calls ≡ released calls + held cache'

  pub acquired-append : (xs ys : List ElfCall) → acquired (xs ++ ys) ≡ acquired xs + acquired ys
  acquired-append [] ys = omega arith
  acquired-append (acquires r ∷ xs) ys = omega (arith, acquired-append xs ys)
  acquired-append (releases r ∷ xs) ys = acquired-append xs ys

  pub released-append : (xs ys : List ElfCall) → released (xs ++ ys) ≡ released xs + released ys
  released-append [] ys = omega arith
  released-append (acquires r ∷ xs) ys = released-append xs ys
  released-append (releases r ∷ xs) ys = omega (arith, released-append xs ys)

  pub held-set :
      (cache : ElfFileCache) (i : ℕ) (files : List ElfFile)
      → i < length cache
      → held (set cache i files) + held_in (get_or cache i []) ≡ held cache + held_in files
  held-set [] i files h = absurd (omega arith)
  held-set (old ∷ cache) zero files h = omega arith
  held-set (old ∷ cache) (suc i) files h = omega (arith, held-set cache i files (omega arith))

  pub held_in-store_count :
      (id : CString) (count : ℕ) (files : List ElfFile)
      → held_in (store_count id count files) ≡ held_in files
  unfolding store_count
  held_in-store_count id count [] = refl
  held_in-store_count id count (file ∷ files) = elim (Bool-cases (same file.build_id id)) [
    | inl e ↦ rw e refl
    | inr e ↦ rw e (omega (arith, held_in-store_count id count files))
  ]

  pub remove_id-held :
      (id : CString) (files : List ElfFile)
      → (held_in files ≡ released (remove_calls id files) + held_in (remove_id id files))
        × (acquired (remove_calls id files) ≡ 0)
  unfolding remove_id remove_calls free_elf_resources
  remove_id-held id [] = (refl, refl)
  remove_id-held id (file ∷ files) = elim (Bool-cases (same file.build_id id)) [
    | inl e ↦ rw e (omega arith, refl)
    | inr e ↦ let ih = remove_id-held id files in rw e (omega (arith, ih.0), ih.1)
  ]
