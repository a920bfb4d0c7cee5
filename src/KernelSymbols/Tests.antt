-- ===== src/KernelSymbols/Tests.antt =====
-- A run of the loader on lines of /proc/kallsyms, and the theorems at it.
use profiling.Prelude.{◌≡◌, refl, true, false, none, some, List, [], ◌∷◌}
use profiling.CString.{text}
use profiling.Tree.{Tree, leaf, unbalanced}
use profiling.KernelSymbols.{KernelSymbol, Line, load_kernel_symbols, find_kernel_symbol, name_of}
use profiling.KernelSymbols.Insert.{table_of}
use profiling.KernelSymbols.Nearest.{nearest, find_kernel_symbol-nearest}

abbrev lines : List Line
lines =
    (record { line = text "ffffffff81000300 t do_one"; allocated = true })
    ∷ (record { line = text "ffffffff81000000 T _stext"; allocated = true })
    ∷ (record { line = text "ffffffff81000100 D a_datum"; allocated = true })
    ∷ (record { line = text "ffffffff81000300 T alias"; allocated = true })
    ∷ (record { line = text "no address"; allocated = true })
    ∷ (record { line = text "ffffffff81000200 t lost"; allocated = false })
    ∷ []

abbrev stext : KernelSymbol
stext = record { address = 0xffffffff81000000; type = b'T'; name = text "_stext" }

abbrev do_one : KernelSymbol
do_one = record { address = 0xffffffff81000300; type = b't'; name = text "do_one" }

abbrev table : Tree KernelSymbol
table = Tree.node (Tree.node leaf stext leaf) do_one leaf

loads : load_kernel_symbols unbalanced (some lines) true ≡ some table
unfolding load_kernel_symbols
loads = refl

finds : find_kernel_symbol (some table) 0xffffffff810002ff ≡ text "_stext"
unfolding find_kernel_symbol
finds = refl

below_all : find_kernel_symbol (some table) 12 ≡ text "unknown_kernel_function"
unfolding find_kernel_symbol
below_all = refl

find_kernel_symbol-nearest_example :
    find_kernel_symbol (some table) 0xffffffff810002ff
    ≡ name_of (nearest 0xffffffff810002ff none (table_of [] lines))
find_kernel_symbol-nearest_example =
    find_kernel_symbol-nearest unbalanced lines 0xffffffff810002ff loads
