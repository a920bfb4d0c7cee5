-- ===== src/Vma/Address.antt =====
-- From a sampled address to the area that holds it, and to the offset in the mapped file.
use profiling.Prelude.{ℕ, ◌≡◌, some}
use profiling.CString.{CString}
use profiling.Tree.{Tree, in_order}
use profiling.Tree.Search.{interval_search-first_holding, first_holding, IsDisjoint}
use profiling.Vma.{Vma, vma_start, vma_end, find_vma_from_process}

-- On areas that do not overlap find_vma_from_process finds the area that holds the address, if
-- there is one.
pub find_vma-first_holding :
    (t : Tree Vma) (a : ℕ)
    → IsDisjoint vma_start vma_end (in_order t)
    → find_vma_from_process (some t) a ≡ first_holding vma_start vma_end a (in_order t)
unfolding find_vma_from_process
find_vma-first_holding t a d = interval_search-first_holding vma_start vma_end a t d
