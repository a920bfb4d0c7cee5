-- ===== src/ElfFiles.antt =====
-- src/elf/elf.c: the cache of the ELF files by their build ids, with reference counts. What the
-- calls outside return, opening a file, libelf and the allocations, is an argument. A file in the
-- cache is given by its build id.
pub mod BuildId
pub mod Notes
pub mod Cache
pub mod Bucket
pub mod Share
pub mod Clear
pub mod Resources
pub mod Weights
pub mod Balance
pub mod Uses
mod Tests
use profiling.Prelude.{
  ℕ, zero, suc, ◌+◌, ◌-◌, ◌^◌, Bool, true, false, Option, none, some, List, [], ◌∷◌, ◌++◌, ltb,
  ◌==◌, if◌then◌else◌, length, get_or, set, take, replicate,
}
use profiling.CString.{CString, text, same}
use profiling.Hash.{hash_str, hashtable_size}
use profiling.Tree.{RbTree}
use profiling.ElfSymbols.{SymbolInfo, SymbolCollection, Section, build_symbol_collection}
use profiling.Processes.{digits}
use profiling.ElfFiles.BuildId.{NoteSection, get_elf_build_id_from_elf}

-- The headers and tables of the file, which the program does not set, are left out.
pub record ElfFile : Type 0 where
  pub file_path : CString
  pub build_id : CString
  pub reference_count : ℕ
  pub symbols : SymbolCollection

-- The chains of the HASHTABLE_SIZE buckets.
abbrev pub ElfFileCache : Type 0
ElfFileCache = List (List ElfFile)

abbrev pub bucket : ElfFileCache → ℕ → List ElfFile
bucket cache index = get_or cache index []

abbrev pub empty_cache : ElfFileCache
empty_cache = replicate hashtable_size []

-- What libelf reads from a file.
pub record ElfData : Type 0 where
  pub shstrndx_ok : Bool
  pub note_sections : List NoteSection
  pub symbol_sections : List Section

-- `open_elf` is what `elf_parser_init` returns for a path; the others are whether there is memory.
pub record Files : Type 0 where
  pub open_elf : CString → Option ElfData
  pub id_string : Bool
  pub node : Bool
  pub path_string : Bool
  pub collection : Bool

-- The loop of `find_elf_in_table`.
unfoldable pub find_id : CString → List ElfFile → Option ElfFile
unfolding same
find_id build_id [] = none
find_id build_id (file ∷ files) =
    let rest = find_id build_id files in if same file.build_id build_id then some file else rest

unfoldable pub find_elf_in_table : ElfFileCache → CString → Option ElfFile
unfolding find_id hash_str
find_elf_in_table cache build_id = find_id build_id (bucket cache (hash_str build_id))

unfoldable pub insert_elf_into_table : ElfFileCache → ElfFile → ElfFileCache
unfolding hash_str
insert_elf_into_table cache file =
    let index = hash_str file.build_id in set cache index (file ∷ bucket cache index)

-- A write to the count of a file of the cache.
unfoldable pub store_count : CString → ℕ → List ElfFile → List ElfFile
unfolding same
store_count build_id count [] = []
store_count build_id count (file ∷ files) =
    let rest = store_count build_id count files in
    if same file.build_id build_id
    then record file { reference_count = count } ∷ files
    else file ∷ rest

unfoldable pub set_count : ElfFileCache → CString → ℕ → ElfFileCache
unfolding store_count hash_str
set_count cache build_id count =
    let index = hash_str build_id in
    set cache index (store_count build_id count (bucket cache index))

-- `snprintf("/proc/%d/root%s")` into PATH_MAX bytes; a pid is its 32 bits.
unfoldable pub host_path : ℕ → CString → CString
unfolding digits
host_path pid filename =
    let number =
      if ltb pid (2 ^ 31) then digits 10 pid [] else b'-' ∷ digits 10 (2 ^ 32 - pid) [] in
    take 4095 (text "/proc/" ++ (number ++ (text "/root" ++ filename)))

module _ (lib : RbTree SymbolInfo) (files : Files) (cache : ElfFileCache) (filename : CString) where
  unfoldable pub insert_new_file : CString → Option SymbolCollection → ElfFileCache × Option ElfFile
  unfolding insert_elf_into_table
  insert_new_file build_id none = (cache, none)
  insert_new_file build_id (some symbols) =
      let file : ElfFile = record {
        file_path = filename;
        build_id = build_id;
        reference_count = 1;
        symbols = symbols;
      } in
      (insert_elf_into_table cache file, some file)

  unfoldable pub create_file : ElfData → CString → ElfFileCache × Option ElfFile
  unfolding insert_new_file build_symbol_collection
  create_file elf build_id =
      if files.node
      then if files.path_string
        then insert_new_file build_id
            (build_symbol_collection lib files.collection elf.symbol_sections)
        else (cache, none)
      else (cache, none)

  unfoldable pub share_file : ElfData → CString → Option ElfFile → ElfFileCache × Option ElfFile
  unfolding create_file set_count
  share_file elf build_id none = create_file elf build_id
  share_file elf build_id (some file) =
      let count = file.reference_count + 1 in
      (set_count cache build_id count, some (record file { reference_count = count }))

  unfoldable pub with_build_id : ElfData → Option CString → ElfFileCache × Option ElfFile
  unfolding share_file find_elf_in_table
  with_build_id elf none = (cache, none)
  with_build_id elf (some build_id) = share_file elf build_id (find_elf_in_table cache build_id)

  unfoldable pub with_elf : Option ElfData → ElfFileCache × Option ElfFile
  unfolding with_build_id get_elf_build_id_from_elf
  with_elf none = (cache, none)
  with_elf (some elf) =
      with_build_id elf
        (get_elf_build_id_from_elf elf.shstrndx_ok files.id_string elf.note_sections)

abbrev pub or_else : {A : Type 0} → Option A → Option A → Option A
or_else none other = other
or_else (some x) other = some x

abbrev pub is_absolute : CString → Bool
is_absolute [] = false
is_absolute (c ∷ s) = c == b'/'

-- The cache, and the file or NULL. The calls that open and close the file are in Resources.
unfoldable pub find_or_create_elf :
    RbTree SymbolInfo → Files → ElfFileCache → ℕ → CString → ElfFileCache × Option ElfFile
unfolding with_elf host_path
find_or_create_elf lib files cache pid filename =
    let opened = or_else (files.open_elf (host_path pid filename)) (files.open_elf filename) in
    if is_absolute filename then with_elf lib files cache filename opened else (cache, none)

-- The loop of `remove_elf`.
unfoldable pub remove_id : CString → List ElfFile → List ElfFile
unfolding same
remove_id build_id [] = []
remove_id build_id (file ∷ files) =
    let rest = remove_id build_id files in
    if same file.build_id build_id then files else file ∷ rest

unfoldable pub remove_elf : ElfFileCache → CString → ElfFileCache
unfolding remove_id hash_str
remove_elf cache build_id =
    let index = hash_str build_id in set cache index (remove_id build_id (bucket cache index))

-- `reference_count--` in the 32 bits of the `int`: 0 becomes -1.
abbrev pub decremented : ℕ → ℕ
decremented n = if n == 0 then 2 ^ 32 - 1 else n - 1

-- `none` is NULL; a file is in the cache.
unfoldable pub release_elf_by_ptr : ElfFileCache → Option ElfFile → ElfFileCache
unfolding set_count remove_elf
release_elf_by_ptr cache none = cache
release_elf_by_ptr cache (some file) =
    let count = decremented file.reference_count in
    let counted = set_count cache file.build_id count in
    if count == 0 then remove_elf counted file.build_id else counted

abbrev pub remove_head : ElfFileCache → List ElfFile → ElfFileCache
remove_head cache [] = cache
remove_head cache (file ∷ files) = remove_elf cache file.build_id

-- The `while` loop on a bucket, which takes as many turns as the bucket has files.
unfoldable pub clear_bucket : ℕ → ElfFileCache → ℕ → ElfFileCache
unfolding remove_elf
clear_bucket zero cache i = cache
clear_bucket (suc fuel) cache i = clear_bucket fuel (remove_head cache (bucket cache i)) i

-- The buckets below `n`, from the first on.
unfoldable pub clear_buckets : ℕ → ElfFileCache → ElfFileCache
unfolding clear_bucket
clear_buckets zero cache = cache
clear_buckets (suc n) cache =
    let before = clear_buckets n cache in clear_bucket (length (bucket before n)) before n

unfoldable pub clear_elf_cache : ElfFileCache → ElfFileCache
unfolding clear_buckets
clear_elf_cache cache = clear_buckets hashtable_size cache
