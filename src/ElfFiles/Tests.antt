-- ===== src/ElfFiles/Tests.antt =====
-- Runs of the cache of ELF files, and uses of its theorems.
use profiling.Prelude.{
  ℕ, ◌+◌, ◌≡◌, refl, true, Option, none, some, List, [], ◌∷◌, ◌++◌, arith, replicate, set,
}
use profiling.CString.{CString, text}
use profiling.Hash.{hash_str, hash_str_lt}
use profiling.Tree.{unbalanced}
use profiling.ElfSymbols.{Section, no_symbols}
use profiling.ElfFiles.BuildId.{NoteData, NoteSection, get_elf_build_id_from_elf}
use profiling.ElfFiles.{
  ElfFile, ElfData, Files, ElfFileCache, empty_cache, find_elf_in_table, find_or_create_elf,
  clear_elf_cache,
}
use profiling.ElfFiles.Cache.{IsElfCache, set-IsElfCache, empty_cache-IsElfCache}
use profiling.ElfFiles.Share.{Shares, find_or_create_elf-Shares}
use profiling.ElfFiles.Clear.{clear_elf_cache-empties}
use profiling.ElfFiles.Resources.{
  ElfResource, descriptor, session, node_memory, id_memory, path_memory, collection_memory,
  acquires, releases, Opening, find_or_create_calls, release_calls,
}
use profiling.ElfFiles.Weights.{acquired, released, held}
use profiling.ElfFiles.Uses.{Use, looks_for, gives_back, all_calls, run_uses, run_uses_conserves}

-- A note of the name "GNU" with an id of 2 bytes, which is filled up to 4.
abbrev note : NoteData
note = record {
  d_buf = replicate 12 0 ++ (text "GNU" ++ (0 ∷ 171 ∷ 5 ∷ 0 ∷ 0 ∷ []));
  getnote = λ offset. some (record { n_namesz = 4; n_descsz = 2; n_type = 3 });
}

abbrev notes : List NoteSection
notes = record { name = some (text ".note.gnu.build-id"); sh_type = 7; note_data = some note } ∷ []

id_read : get_elf_build_id_from_elf true true notes ≡ some (text "ab05")
unfolding get_elf_build_id_from_elf
id_read = refl

-- One function.
abbrev symbols : List Section
symbols =
    record {
      sh_type = 2;
      entries = some (
          record { name = text "f"; st_info = 2; st_value = 16; st_size = 4; allocated = true }
          ∷ []);
    }
    ∷ []

-- The file can be opened by its own path, not by that of the process.
abbrev files : Files
files = record {
  open_elf = λ path.
      if_long path
        (some (record { shstrndx_ok = true; note_sections = notes; symbol_sections = symbols }));
  id_string = true;
  node = true;
  path_string = true;
  collection = true;
}
  where
    if_long : CString → Option ElfData → Option ElfData
    if_long (a ∷ b ∷ c ∷ d ∷ s) e = none
    if_long s e = e

find_or_create_elf-Shares_example :
    Shares empty_cache (find_or_create_elf unbalanced files empty_cache 7 (text "/a"))
find_or_create_elf-Shares_example =
    find_or_create_elf-Shares unbalanced files empty_cache 7 (text "/a") empty_cache-IsElfCache

abbrev a_file : ElfFile
a_file = record {
  file_path = text "/a";
  build_id = text "ab05";
  reference_count = 2;
  symbols = no_symbols;
}

abbrev one_file : ElfFileCache
one_file = set empty_cache (hash_str (text "ab05")) (a_file ∷ [])

one_file-IsElfCache : IsElfCache one_file
one_file-IsElfCache =
    set-IsElfCache empty_cache (hash_str (text "ab05")) (a_file ∷ []) (hash_str_lt (text "ab05"))
      empty_cache-IsElfCache (refl, tt, omega arith, tt)

clear_elf_cache-empties_example : find_elf_in_table (clear_elf_cache one_file) (text "ab05") ≡ none
clear_elf_cache-empties_example = clear_elf_cache-empties one_file (text "ab05") one_file-IsElfCache

-- The path of the process cannot be opened; the file is looked for and given back.
abbrev opening : CString → Opening
opening (a ∷ b ∷ c ∷ d ∷ s) = none
opening path =
    some (5, some (record { shstrndx_ok = true; note_sections = notes; symbol_sections = symbols }))

abbrev file_uses : List Use
file_uses =
    looks_for files opening 7 (text "/a")
    ∷ gives_back (some (record a_file { reference_count = 1 }))
    ∷ []

calls_of_uses :
    all_calls unbalanced empty_cache file_uses
    ≡ acquires (descriptor 5)
      ∷ acquires (session 5)
      ∷ acquires id_memory
      ∷ acquires node_memory
      ∷ acquires path_memory
      ∷ acquires collection_memory
      ∷ releases (session 5)
      ∷ releases (descriptor 5)
      ∷ releases id_memory
      ∷ releases path_memory
      ∷ releases collection_memory
      ∷ releases node_memory
      ∷ []
unfolding find_or_create_calls find_or_create_elf release_calls
calls_of_uses = refl

abbrev is_path : ElfResource → ℕ
is_path path_memory = 1
is_path node_memory = 0
is_path id_memory = 0
is_path collection_memory = 0
is_path (descriptor fd) = 0
is_path (session fd) = 0

run_uses_conserves_example :
    held is_path one_file + acquired is_path (all_calls unbalanced one_file file_uses)
    ≡ released is_path (all_calls unbalanced one_file file_uses)
      + held is_path (run_uses unbalanced one_file file_uses)
run_uses_conserves_example =
    run_uses_conserves unbalanced is_path file_uses one_file one_file-IsElfCache.size
