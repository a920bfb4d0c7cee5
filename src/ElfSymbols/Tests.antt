-- ===== src/ElfSymbols/Tests.antt =====
-- A file with two symbol tables, and the theorems at it.
use profiling.Prelude.{◌≤◌, ◌<◌, ◌≡◌, refl, true, false, none, some, List, [], ◌∷◌, arith}
use profiling.CString.{text}
use profiling.Tree.{leaf, node, unbalanced}
use profiling.Tree.Search.{first_holding}
use profiling.ElfSymbols.{
  SymbolInfo, SymbolCollection, ElfSym, Section, start_of, end_of, info_of, build_symbol_collection,
  name_or_unknown, find_symbol_name_from_elf,
}
use profiling.ElfSymbols.Collect.{
  file_functions, IsCollection, build_symbol_collection-IsCollection,
}
use profiling.ElfSymbols.Lookup.{find_symbol_name-first_holding}

abbrev main_sym : ElfSym
main_sym = record {
  name = text "main";
  st_info = 0x12;
  st_value = 0x2000;
  st_size = 0x80;
  allocated = true;
}

abbrev init_sym : ElfSym
init_sym = record {
  name = text "init";
  st_info = 2;
  st_value = 0x1000;
  st_size = 16;
  allocated = true;
}

-- An object, and a function without a size.
abbrev others : List ElfSym
others =
    (record main_sym { st_info = 0x11 })
    ∷ (record main_sym { st_size = 0 })
    ∷ (record main_sym { allocated = false })
    ∷ []

abbrev sections : List Section
sections =
    (record { sh_type = 1; entries = some (init_sym ∷ []) })
    ∷ (record { sh_type = 11; entries = some (main_sym ∷ others) })
    ∷ (record { sh_type = 2; entries = some (init_sym ∷ []) })
    ∷ (record { sh_type = 2; entries = none })
    ∷ []

abbrev collection : SymbolCollection
collection = record {
  total_symbols = 2;
  symbol_tree = node (node leaf (info_of init_sym) leaf) (info_of main_sym) leaf;
}

builds : build_symbol_collection unbalanced true sections ≡ some collection
unfolding build_symbol_collection
builds = refl

no_function :
    build_symbol_collection unbalanced true ((record { sh_type = 2; entries = some others }) ∷ [])
    ≡ none
unfolding build_symbol_collection
no_function = refl

names :
    (find_symbol_name_from_elf (some collection) 0x207f ≡ text "main")
    × (find_symbol_name_from_elf (some collection) 0x1fff ≡ text "unknown_function")
    × (find_symbol_name_from_elf none 1 ≡ text "unknown_elf_or_no_symbols")
unfolding find_symbol_name_from_elf
names = (refl, refl, refl)

build_symbol_collection-IsCollection_example :
    IsCollection (file_functions sections) (build_symbol_collection unbalanced true sections)
build_symbol_collection-IsCollection_example =
    build_symbol_collection-IsCollection unbalanced sections

find_symbol_name-first_holding_example :
    find_symbol_name_from_elf (some collection) 0x1008
    ≡ name_or_unknown
        (first_holding start_of end_of 0x1008 (info_of init_sym ∷ info_of main_sym ∷ []))
find_symbol_name-first_holding_example =
    find_symbol_name-first_holding collection 0x1008 (omega arith) (omega arith)

abbrev outer : SymbolInfo
outer = record { symbol_name = text "whole"; symbol_start = 0; symbol_size = 100 }

abbrev entry : SymbolInfo
entry = record { symbol_name = text "entry"; symbol_start = 10; symbol_size = 5 }

outer_holds : (outer.symbol_start ≤ 50) × (50 < end_of outer)
outer_holds = omega arith
