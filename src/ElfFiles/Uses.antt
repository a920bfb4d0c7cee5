-- ===== src/ElfFiles/Uses.antt =====
-- Runs of the cache of ELF files: files are looked for and given back.
use profiling.Prelude.{ℕ, ◌+◌, ◌≡◌, Option, List, [], ◌∷◌, ◌++◌, arith, length}
use profiling.CString.{CString}
use profiling.Hash.{hashtable_size}
use profiling.Tree.{RbTree}
use profiling.ElfSymbols.{SymbolInfo}
use profiling.ElfFiles.{ElfFile, ElfFileCache, Files, find_or_create_elf, release_elf_by_ptr}
use profiling.ElfFiles.Resources.{
  ElfResource, ElfCall, Opening, with_opening, find_or_create_calls, release_calls,
}
use profiling.ElfFiles.Weights.{acquired, released, held, acquired-append, released-append}
use profiling.ElfFiles.Balance.{find_or_create_elf-KeepsSize, release_elf_by_ptr-KeepsSize}

pub data Use : Type 0 where
  looks_for : Files → (CString → Opening) → ℕ → CString → Use
  gives_back : Option ElfFile → Use

module _ (lib : RbTree SymbolInfo) where
  abbrev pub next_cache : ElfFileCache → Use → ElfFileCache
  next_cache cache (looks_for files opening pid filename) =
      (find_or_create_elf lib (with_opening files opening) cache pid filename).0
  next_cache cache (gives_back file) = release_elf_by_ptr cache file

  abbrev pub use_calls : ElfFileCache → Use → List ElfCall
  use_calls cache (looks_for files opening pid filename) =
      find_or_create_calls lib (with_opening files opening) cache opening pid filename
  use_calls cache (gives_back file) = release_calls cache file

  abbrev pub run_uses : ElfFileCache → List Use → ElfFileCache
  run_uses cache [] = cache
  run_uses cache (next ∷ uses) = run_uses (next_cache cache next) uses

  abbrev pub all_calls : ElfFileCache → List Use → List ElfCall
  all_calls cache [] = []
  all_calls cache (next ∷ uses) = use_calls cache next ++ all_calls (next_cache cache next) uses

  module _ (w : ElfResource → ℕ) where
    use-keeps :
        (cache : ElfFileCache) (next : Use)
        → length cache ≡ hashtable_size
        → (held w cache + acquired w (use_calls cache next)
            ≡ released w (use_calls cache next) + held w (next_cache cache next))
          × (length (next_cache cache next) ≡ hashtable_size)
    use-keeps cache (looks_for files opening pid filename) size =
        find_or_create_elf-KeepsSize w cache size lib files opening pid filename
    use-keeps cache (gives_back file) size = release_elf_by_ptr-KeepsSize w cache size file

    -- For a cache with its 1024 buckets, and any sequence of calls of find_or_create_elf and
    -- release_elf_by_ptr, whatever files can be opened and read and which allocations fail, with any
    -- weights of the descriptors, the sessions of libelf and the parts of a file in memory: the parts of
    -- the files in the cache and what is acquired weigh as much as what is released and the parts of
    -- the files in the cache at the end.
    pub run_uses_conserves :
        (uses : List Use) (cache : ElfFileCache)
        → length cache ≡ hashtable_size
        → held w cache + acquired w (all_calls cache uses)
          ≡ released w (all_calls cache uses) + held w (run_uses cache uses)
    run_uses_conserves [] cache size = omega arith
    run_uses_conserves (next ∷ uses) cache size =
        let (kept, same_size) = use-keeps cache next size in
        let after = next_cache cache next in
        omega (
          arith,
          kept,
          run_uses_conserves uses after same_size,
          acquired-append w (use_calls cache next) (all_calls after uses),
          released-append w (use_calls cache next) (all_calls after uses),
        )
