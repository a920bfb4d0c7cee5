-- ===== src/ElfFiles/Resources.antt =====
-- What the operations of the cache of ELF files acquire and release: descriptors, sessions of libelf, and
-- memory. The chain of the calls follows the functions of ElfFiles.
use profiling.Prelude.{ℕ, Option, none, some, List, [], ◌∷◌, ◌++◌, ◌==◌, if◌then◌else◌}
use profiling.CString.{CString, same}
use profiling.Hash.{hash_str}
use profiling.Tree.{RbTree}
use profiling.ElfSymbols.{SymbolInfo, SymbolCollection, build_symbol_collection}
use profiling.ElfFiles.BuildId.{get_elf_build_id_from_elf}
use profiling.ElfFiles.{
  decremented, ElfFile, ElfFileCache, bucket, ElfData, Files, find_elf_in_table, set_count,
  host_path, is_absolute,
}

-- The node of a chain, and the parts of its file; the collection stands for its symbols as well, and
-- is what `build_symbol_collection` returns.
pub data ElfResource : Type 0 where
  descriptor session : ℕ → ElfResource
  node_memory id_memory path_memory collection_memory : ElfResource

pub data ElfCall : Type 0 where
  acquires releases : ElfResource → ElfCall

-- What `open` gives for a path, a descriptor or -1, and `elf_begin` for it.
abbrev pub Opening : Type 0
Opening = Option (ℕ × Option ElfData)

-- The calls, and the descriptor with its session.
unfoldable pub elf_parser_init : Opening → List ElfCall × Option (ℕ × ElfData)
elf_parser_init none = ([], none)
elf_parser_init (some (fd, none)) = (acquires (descriptor fd) ∷ releases (descriptor fd) ∷ [], none)
elf_parser_init (some (fd, some elf)) =
    (acquires (descriptor fd) ∷ acquires (session fd) ∷ [], some (fd, elf))

unfoldable pub elf_parser_cleanup : ℕ → List ElfCall
elf_parser_cleanup fd = releases (session fd) ∷ releases (descriptor fd) ∷ []

-- The file that `elf_parser_init` returns.
abbrev pub elf_of : Option (ℕ × ElfData) → Option ElfData
elf_of none = none
elf_of (some (fd, elf)) = some elf

abbrev pub with_opening : Files → (CString → Opening) → Files
unfolding elf_parser_init
with_opening files opening = record files {
  open_elf = λ path. elf_of (elf_parser_init (opening path)).1;
}

module _ (lib : RbTree SymbolInfo) (files : Files) (cache : ElfFileCache) where
  unfoldable pub symbols_calls : ℕ → Option SymbolCollection → List ElfCall
  unfolding elf_parser_cleanup
  symbols_calls fd none =
      releases path_memory ∷ releases id_memory ∷ releases node_memory ∷ elf_parser_cleanup fd
  symbols_calls fd (some symbols) = acquires collection_memory ∷ elf_parser_cleanup fd

  unfoldable pub create_calls : ℕ → ElfData → List ElfCall
  unfolding symbols_calls build_symbol_collection
  create_calls fd elf =
      if files.node
      then if files.path_string
        then acquires node_memory
          ∷ acquires path_memory
          ∷ symbols_calls fd (build_symbol_collection lib files.collection elf.symbol_sections)
        else acquires node_memory
          ∷ releases id_memory
          ∷ releases node_memory
          ∷ elf_parser_cleanup fd
      else releases id_memory ∷ elf_parser_cleanup fd

  unfoldable pub share_calls : ℕ → ElfData → Option ElfFile → List ElfCall
  unfolding create_calls
  share_calls fd elf none = create_calls fd elf
  share_calls fd elf (some file) = releases id_memory ∷ elf_parser_cleanup fd

  unfoldable pub build_id_calls : ℕ → ElfData → Option CString → List ElfCall
  unfolding share_calls find_elf_in_table
  build_id_calls fd elf none = elf_parser_cleanup fd
  build_id_calls fd elf (some build_id) =
      acquires id_memory ∷ share_calls fd elf (find_elf_in_table cache build_id)

  unfoldable pub elf_calls : Option (ℕ × ElfData) → List ElfCall
  unfolding build_id_calls get_elf_build_id_from_elf
  elf_calls none = []
  elf_calls (some (fd, elf)) =
      build_id_calls fd elf
        (get_elf_build_id_from_elf elf.shstrndx_ok files.id_string elf.note_sections)

  -- Behind the first `elf_parser_init`; the second is tried where it fails.
  unfoldable pub retry_calls : Opening → Option (ℕ × ElfData) → List ElfCall
  unfolding elf_calls elf_parser_init
  retry_calls own none = let (calls, opened) = elf_parser_init own in calls ++ elf_calls opened
  retry_calls own (some opened) = elf_calls (some opened)

  unfoldable pub find_or_create_calls : (CString → Opening) → ℕ → CString → List ElfCall
  unfolding retry_calls host_path
  find_or_create_calls opening pid filename =
      let (calls, opened) = elf_parser_init (opening (host_path pid filename)) in
      if is_absolute filename then calls ++ retry_calls (opening filename) opened else []

unfoldable pub free_elf_resources : List ElfCall
free_elf_resources = releases id_memory ∷ releases path_memory ∷ releases collection_memory ∷ []

unfoldable pub remove_calls : CString → List ElfFile → List ElfCall
unfolding same free_elf_resources
remove_calls build_id [] = []
remove_calls build_id (file ∷ files) =
    let rest = remove_calls build_id files in
    if same file.build_id build_id then free_elf_resources ++ (releases node_memory ∷ []) else rest

unfoldable pub release_calls : ElfFileCache → Option ElfFile → List ElfCall
unfolding remove_calls set_count hash_str
release_calls cache none = []
release_calls cache (some file) =
    let count = decremented file.reference_count in
    let counted = set_count cache file.build_id count in
    if count == 0 then remove_calls file.build_id (bucket counted (hash_str file.build_id)) else []
