-- ===== src/BlockCache/Manager.antt =====
-- The manager of whole files of src/utils/elf_cache.c. The library has no function that puts a file in.
use profiling.Prelude.{
  ℕ, zero, suc, ◌+◌, ◌-◌, ◌%◌, ◌^◌, ◌≡◌, refl, Option, none, some, List, [], ◌∷◌, ◌++◌, ◌==◌,
  if◌then◌else◌, get_or, set, replicate, All, arith,
}
use profiling.CString.{CString, same}
use profiling.BlockCache.{MemoryCache, max_cache_blocks}
use profiling.BlockCache.Operations.{cache_cleanup}

-- `ref_count` is the 32 bits of the `int`; a descriptor below 0 is `none`. `mmap_size` and
-- `symbol_cache` are left out.
pub record ElfCacheEntry : Type 0 where
  pub filename : CString
  pub fd : Option ℕ
  pub mmap_base : Option ℕ
  pub cache : MemoryCache
  pub ref_count : ℕ
  pub last_access : ℕ

-- The list of recent use has the places of the entries.
pub record ElfCacheManager : Type 0 where
  pub entries : List (Option ElfCacheEntry)
  pub count : ℕ
  pub max_count : ℕ
  pub lru_list : List ℕ

unfoldable pub elf_cache_init : ℕ → ElfCacheManager
elf_cache_init max_entries = record {
  entries = replicate max_cache_blocks none;
  count = 0;
  max_count = max_entries;
  lru_list = [];
}

unfoldable pub unlink : ℕ → List ℕ → List ℕ
unlink i [] = []
unlink i (j ∷ places) = let rest = unlink i places in if j == i then places else j ∷ rest

-- The entry at a place is used at `now`.
unfoldable pub use_entry : ℕ → ℕ → ElfCacheEntry → ElfCacheManager → ElfCacheManager
unfolding unlink
use_entry now i entry manager = record manager {
  entries =
      set manager.entries i
        (some (record entry { ref_count = (entry.ref_count + 1) % 2 ^ 32; last_access = now }));
  lru_list = unlink i manager.lru_list ++ (i ∷ []);
}

-- The loop from place `i` over `n` places.
unfoldable pub get_from : ℕ → CString → ℕ → ℕ → ElfCacheManager → ElfCacheManager × Option ℕ
unfolding use_entry same
get_from now filename zero i manager = (manager, none)
get_from now filename (suc n) i manager =
    let rest = get_from now filename n (suc i) manager in
    elim (get_or manager.entries i none) [
      | none ↦ rest
      | some entry ↦
          if same entry.filename filename then (use_entry now i entry manager, some i) else rest
    ]

-- The place of the entry that is returned.
unfoldable pub elf_cache_get : ℕ → Option CString → ElfCacheManager → ElfCacheManager × Option ℕ
unfolding get_from
elf_cache_get now none manager = (manager, none)
elf_cache_get now (some filename) manager = get_from now filename manager.count 0 manager

unfoldable pub release_entry : ℕ → Option ElfCacheEntry → ElfCacheManager → ElfCacheManager
release_entry i none manager = manager
release_entry i (some entry) manager = record manager {
  entries =
      set manager.entries i
        (some (record entry { ref_count = (entry.ref_count + 2 ^ 32 - 1) % 2 ^ 32 }));
}

unfoldable pub elf_cache_put : Option ℕ → ElfCacheManager → ElfCacheManager
unfolding release_entry
elf_cache_put none manager = manager
elf_cache_put (some i) manager = release_entry i (get_or manager.entries i none) manager

-- What `elf_cache_cleanup` gives back: mappings, descriptors, and the blocks that `cache_cleanup` frees.
pub record CleanedUp : Type 0 where
  pub unmapped : List ℕ
  pub closed : List ℕ
  pub freed_blocks : List ℕ

abbrev pub in_list : Option ℕ → List ℕ → List ℕ
in_list none l = l
in_list (some x) l = x ∷ l

unfoldable pub cleanup_entry : Option ElfCacheEntry → CleanedUp → CleanedUp
unfolding cache_cleanup
cleanup_entry none later = later
cleanup_entry (some entry) later = record {
  unmapped = in_list entry.mmap_base later.unmapped;
  closed = in_list entry.fd later.closed;
  freed_blocks = cache_cleanup entry.cache ++ later.freed_blocks;
}

unfoldable pub cleanup_from : ℕ → ℕ → List (Option ElfCacheEntry) → CleanedUp
unfolding cleanup_entry
cleanup_from zero i entries = record { unmapped = []; closed = []; freed_blocks = [] }
cleanup_from (suc n) i entries =
    cleanup_entry (get_or entries i none) (cleanup_from n (suc i) entries)

-- The entries stay in their places.
unfoldable pub elf_cache_cleanup : ElfCacheManager → ElfCacheManager × CleanedUp
unfolding cleanup_from
elf_cache_cleanup manager =
    (record manager { count = 0 }, cleanup_from manager.count 0 manager.entries)

pub data ManagerCall : Type 0 where
  gets : ℕ → Option CString → ManagerCall
  puts : Option ℕ → ManagerCall
  cleans : ManagerCall

abbrev pub next_manager : ElfCacheManager → ManagerCall → ElfCacheManager × Option ℕ
next_manager manager (gets now filename) = elf_cache_get now filename manager
next_manager manager (puts place) = (elf_cache_put place manager, none)
next_manager manager cleans = ((elf_cache_cleanup manager).0, none)

-- What the calls of elf_cache_get return.
abbrev pub found_entries : ElfCacheManager → List ManagerCall → List (Option ℕ)
found_entries manager [] = []
found_entries manager (call ∷ calls) =
    (next_manager manager call).1 ∷ found_entries (next_manager manager call).0 calls

-- The loop over no entries finds none.
get_from_no_entries :
    (now : ℕ) (filename : CString) (n : ℕ) (manager : ElfCacheManager)
    → n ≡ 0
    → get_from now filename n 0 manager ≡ (manager, none)
unfolding get_from
get_from_no_entries now filename zero manager h = refl
get_from_no_entries now filename (suc n) manager h = absurd (omega arith)

-- An empty manager stays empty.
next_manager-empty :
    (manager : ElfCacheManager) (call : ManagerCall)
    → manager.count ≡ 0
    → ((next_manager manager call).1 ≡ none) × ((next_manager manager call).0.count ≡ 0)
unfolding elf_cache_get elf_cache_put elf_cache_cleanup
next_manager-empty manager (gets now none) h = (refl, h)
next_manager-empty manager (gets now (some filename)) h =
    rw (get_from_no_entries now filename manager.count manager h) (refl, h)
next_manager-empty manager (puts none) h = (refl, h)
next_manager-empty manager (puts (some i)) h = (refl, released (get_or manager.entries i none))
  where
    released : (entry : Option ElfCacheEntry) → (release_entry i entry manager).count ≡ 0
    released none = h
    released (some entry) = h
next_manager-empty manager cleans h = (refl, refl)

-- After elf_cache_init, in every sequence of its calls, elf_cache_get finds no file.
elf_cache_get-none :
    (calls : List ManagerCall) (manager : ElfCacheManager)
    → manager.count ≡ 0
    → All (λ (found : Option ℕ). found ≡ none) (found_entries manager calls)
elf_cache_get-none [] manager h = tt
elf_cache_get-none (call ∷ calls) manager h =
    let (nothing, empty) = next_manager-empty manager call h in
    (nothing, elf_cache_get-none calls (next_manager manager call).0 empty)
