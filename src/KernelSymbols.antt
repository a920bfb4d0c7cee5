-- ===== src/KernelSymbols.antt =====
-- src/core/kernel_symbol.c: the table of kernel functions, loaded from /proc/kallsyms.
pub mod Insert
pub mod Nearest
mod Tests
use profiling.Prelude.{
  ℕ, Bool, true, false, ◌&&◌, ◌||◌, Option, none, some, List, [], ◌∷◌, ltb, leb, ◌==◌,
  if◌then◌else◌,
}
use profiling.CString.{CString, text, scan_hex, scan_char, scan_word}
use profiling.Tree.{Tree, leaf, node, Side, left, right, rb_link_node, RbTree}

pub record KernelSymbol : Type 0 where
  pub address : ℕ
  pub type : ℕ
  pub name : CString

add_side : Side → Option (List Side) → Option (List Side)
add_side side none = none
add_side side (some path) = some (side ∷ path)

-- The descent of `insert_symbol`; `none` is an address that the table has.
unfoldable pub find_link : ℕ → Tree KernelSymbol → Option (List Side)
unfolding add_side
find_link address leaf = some []
find_link address (node l entry r) =
    if ltb address entry.address
    then add_side left (find_link address l)
    else if ltb entry.address address
    then add_side right (find_link address r)
    else none

-- `sscanf(line, "%lx %c %255s", ...) == 3`
unfoldable pub scan_symbol : CString → Option KernelSymbol
unfolding scan_hex scan_char scan_word
scan_symbol line = elim (scan_hex line) [
  | none ↦ none
  | some (address, rest) ↦ elim (scan_char rest) [
    | none ↦ none
    | some (type, rest') ↦ elim (scan_word 255 rest') [
      | none ↦ none
      | some (name, _) ↦ some (record { address = address; type = type; name = name })
    ]
  ]
]

-- A line of the file, and whether the two allocations for its symbol succeed.
pub record Line : Type 0 where
  pub line : CString
  pub allocated : Bool

module _ (lib : RbTree KernelSymbol) where
  unfoldable pub insert_symbol : Tree KernelSymbol → KernelSymbol → Tree KernelSymbol × Bool
  unfolding find_link rb_link_node
  insert_symbol root new_symbol = elim (find_link new_symbol.address root) [
    | none ↦ (root, false)
    | some path ↦ (lib.rb_insert_color (rb_link_node root path new_symbol) path, true)
  ]

  -- The body of the loop of `load_kernel_symbols`, for a line that was scanned.
  unfoldable pub load_symbol : Tree KernelSymbol → Bool → Option KernelSymbol → Tree KernelSymbol
  unfolding insert_symbol
  load_symbol root allocated none = root
  load_symbol root allocated (some sym) =
      if (sym.type == b't') || (sym.type == b'T')
      then (if allocated then (insert_symbol root sym).0 else root)
      else root

  unfoldable pub load_lines : Tree KernelSymbol → List Line → Tree KernelSymbol
  unfolding load_symbol scan_symbol
  load_lines root [] = root
  load_lines root (l ∷ ls) = load_lines (load_symbol root l.allocated (scan_symbol l.line)) ls

  -- `file` is `none` where /proc/kallsyms cannot be opened; `allocated` is for the root.
  unfoldable pub load_kernel_symbols : Option (List Line) → Bool → Option (Tree KernelSymbol)
  unfolding load_lines
  load_kernel_symbols none allocated = none
  load_kernel_symbols (some lines) false = none
  load_kernel_symbols (some lines) true = some (load_lines leaf lines)

-- The loop of `find_kernel_symbol`.
unfoldable pub find_from : Tree KernelSymbol → ℕ → Option KernelSymbol → Option KernelSymbol
find_from leaf addr found_symbol = found_symbol
find_from (node l current r) addr found_symbol =
    if leb current.address addr
    then find_from r addr (some current)
    else find_from l addr found_symbol

abbrev pub unknown_kernel_function : CString
unknown_kernel_function = text "unknown_kernel_function"

-- `if (found_symbol) return found_symbol->name;`
unfoldable pub name_of : Option KernelSymbol → CString
name_of none = unknown_kernel_function
name_of (some sym) = sym.name

-- `none` is a table that was not loaded; an empty one gives the same name.
unfoldable pub find_kernel_symbol : Option (Tree KernelSymbol) → ℕ → CString
unfolding find_from name_of
find_kernel_symbol none addr = unknown_kernel_function
find_kernel_symbol (some root) addr = name_of (find_from root addr none)
