-- ===== src/ElfSymbols.antt =====
-- The symbols of one ELF file: `build_symbol_collection` and `process_symbol_section` of
-- src/elf/elf.c fill the tree, src/elf/symbol_table.c searches it. What libelf reads from the file
-- is an argument: a section is the list of its `GElf_Sym` entries with their names.
pub mod Collect
pub mod Lookup
mod Tests
use profiling.Prelude.{
  ℕ, zero, suc, ◌+◌, ◌/◌, ◌%◌, ◌^◌, Bool, true, false, ◌&&◌, ◌||◌, Option, none, some, List, [],
  ◌∷◌, ltb, leb, ◌==◌, if◌then◌else◌,
}
use profiling.CString.{CString, text}
use profiling.Tree.{Tree, leaf, node, RbTree}
use profiling.Tree.Insert.{insert_node}

pub record SymbolInfo : Type 0 where
  pub symbol_name : CString
  pub symbol_start : ℕ
  pub symbol_size : ℕ

abbrev pub start_of : SymbolInfo → ℕ
start_of s = s.symbol_start

pub record SymbolCollection : Type 0 where
  pub total_symbols : ℕ
  pub symbol_tree : Tree SymbolInfo

-- An entry of a symbol table; `allocated` says whether `calloc` succeeds for it.
pub record ElfSym : Type 0 where
  pub name : CString
  pub st_info : ℕ
  pub st_value : ℕ
  pub st_size : ℕ
  pub allocated : Bool

-- A section: its type, and its entries if `elf_getdata` succeeds: `sh_size / sh_entsize` of them, where
-- `sh_entsize` is taken not to be 0 and `gelf_getsym` to read each.
pub record Section : Type 0 where
  pub sh_type : ℕ
  pub entries : Option (List ElfSym)

-- `GELF_ST_TYPE(sym.st_info) == STT_FUNC && sym.st_size > 0`
unfoldable pub is_function : ElfSym → Bool
is_function sym = (sym.st_info % 16 == 2) && ltb 0 sym.st_size

abbrev pub info_of : ElfSym → SymbolInfo
info_of sym = record {
  symbol_name = sym.name;
  symbol_start = sym.st_value;
  symbol_size = sym.st_size;
}

abbrev pub no_symbols : SymbolCollection
no_symbols = record { total_symbols = 0; symbol_tree = leaf }

module _ (lib : RbTree SymbolInfo) where
  unfoldable pub insert_symbol_into_tree : Tree SymbolInfo → SymbolInfo → Tree SymbolInfo
  unfolding insert_node
  insert_symbol_into_tree root new_sym = insert_node start_of lib root new_sym

  -- The body of the loop of `process_symbol_section`.
  unfoldable pub process_symbol : SymbolCollection → ElfSym → SymbolCollection
  unfolding is_function insert_symbol_into_tree
  process_symbol symbols sym =
      if is_function sym
      then if sym.allocated
        then record {
          total_symbols = symbols.total_symbols + 1;
          symbol_tree = insert_symbol_into_tree symbols.symbol_tree (info_of sym);
        }
        else symbols
      else symbols

  unfoldable pub process_entries : SymbolCollection → List ElfSym → SymbolCollection
  unfolding process_symbol
  process_entries symbols [] = symbols
  process_entries symbols (sym ∷ syms) = process_entries (process_symbol symbols sym) syms

  unfoldable pub process_symbol_section : SymbolCollection → Option (List ElfSym) → SymbolCollection
  unfolding process_entries
  process_symbol_section symbols none = symbols
  process_symbol_section symbols (some entries) = process_entries symbols entries

  -- The loop over the sections: SHT_SYMTAB is 2, SHT_DYNSYM is 11.
  unfoldable pub process_sections : SymbolCollection → List Section → SymbolCollection
  unfolding process_symbol_section
  process_sections symbols [] = symbols
  process_sections symbols (scn ∷ scns) =
      process_sections
        (if (scn.sh_type == 2) || (scn.sh_type == 11)
          then process_symbol_section symbols scn.entries
          else symbols)
        scns

  -- `none` is NULL: no memory, or no function in the file.
  unfoldable pub build_symbol_collection : Bool → List Section → Option SymbolCollection
  unfolding process_sections
  build_symbol_collection false scns = none
  build_symbol_collection true scns =
      let symbols = process_sections no_symbols scns in
      if symbols.total_symbols == 0 then none else some symbols

-- `symbol_start + symbol_size` in `uint64_t`.
abbrev pub end_of : SymbolInfo → ℕ
end_of s = (s.symbol_start + s.symbol_size) % 2 ^ 64

unfoldable pub rb_search_symbol : Tree SymbolInfo → ℕ → Option SymbolInfo
rb_search_symbol leaf addr = none
rb_search_symbol (node l sym r) addr =
    if leb sym.symbol_start addr && ltb addr (end_of sym)
    then some sym
    else if ltb addr sym.symbol_start
    then rb_search_symbol l addr
    else rb_search_symbol r addr

unfoldable pub name_or_unknown : Option SymbolInfo → CString
name_or_unknown none = text "unknown_function"
name_or_unknown (some sym) = sym.symbol_name

-- `none` is an ELF file that is NULL or has no collection.
unfoldable pub find_symbol_name_from_elf : Option SymbolCollection → ℕ → CString
unfolding rb_search_symbol name_or_unknown
find_symbol_name_from_elf none relative_address = text "unknown_elf_or_no_symbols"
find_symbol_name_from_elf (some symbols) relative_address =
    if symbols.total_symbols == 0
    then text "unknown_elf_or_no_symbols"
    else name_or_unknown (rb_search_symbol symbols.symbol_tree relative_address)
