-- ===== src/Vma.antt =====
-- src/elf/vma.c: the memory map of a process, read from /proc/<pid>/maps, and the address
-- arithmetic on it; `find_vma_from_process` of src/core/process.c searches it.
pub mod Maps
pub mod Address
pub mod File
pub mod Print
pub mod RoundTrip
mod Tests
use profiling.Prelude.{
  ℕ, zero, suc, ◌+◌, ◌-◌, ◌%◌, ◌^◌, Bool, true, false, ◌&&◌, ◌||◌, Option, none, some, List, [],
  ◌∷◌, ltb, leb, ◌==◌, if◌then◌else◌, get_or, length,
}
use profiling.CString.{CString, scan_hex, scan_word, skip_word, skip_number, fgets}
use profiling.Tree.{Tree, leaf, RbTree}
use profiling.Tree.Insert.{insert_node}
use profiling.Tree.Search.{interval_search}

-- The field `elf_file` is NULL after parsing.
pub record Vma : Type 0 where
  pub start_addr : ℕ
  pub end_addr : ℕ
  pub vm_flags : ℕ
  pub file_offset : ℕ
  pub mapping_name : Option CString

abbrev pub vma_start : Vma → ℕ
vma_start vma = vma.start_addr

abbrev pub vma_end : Vma → ℕ
vma_end vma = vma.end_addr

-- What `sscanf` stores: the fields it does not reach keep their zeros.
pub record Fields : Type 0 where
  pub first : ℕ
  pub last : ℕ
  pub perm : CString
  pub offset : ℕ
  pub region_name : CString

abbrev pub no_fields : Fields
no_fields = record { first = 0; last = 0; perm = []; offset = 0; region_name = [] }

-- `sscanf(line, "%lx-%lx %4s %lx %*s %*d %255s", ...)`: each function gets the result of its
-- conversion, stores it, and goes on with the rest of the line.
unfoldable pub read_name : Option (CString × CString) → CString
read_name none = []
read_name (some (name, s)) = name

unfoldable pub read_inode : Option CString → CString
unfolding read_name scan_word
read_inode none = []
read_inode (some s) = read_name (scan_word 255 s)

unfoldable pub read_device : Option CString → CString
unfolding read_inode skip_number
read_device none = []
read_device (some s) = read_inode (skip_number s)

unfoldable pub read_offset : Fields → Option (ℕ × CString) → Fields
unfolding read_device skip_word
read_offset f none = f
read_offset f (some (offset, s)) = record f {
  offset = offset;
  region_name = read_device (skip_word s);
}

unfoldable pub read_perm : Fields → Option (CString × CString) → Fields
unfolding read_offset scan_hex
read_perm f none = f
read_perm f (some (perm, s)) = read_offset (record f { perm = perm }) (scan_hex s)

unfoldable pub read_last : Fields → Option (ℕ × CString) → Fields
unfolding read_perm scan_word
read_last f none = f
read_last f (some (last, s)) = read_perm (record f { last = last }) (scan_word 4 s)

unfoldable pub read_dash : Fields → CString → Fields
unfolding read_last scan_hex
read_dash f [] = f
read_dash f (c ∷ s) = if c == b'-' then read_last f (scan_hex s) else f

unfoldable pub read_first : Option (ℕ × CString) → Fields
unfolding read_dash
read_first none = no_fields
read_first (some (first, s)) = read_dash (record no_fields { first = first }) s

unfoldable pub scan_line : CString → Fields
unfolding scan_hex read_first
scan_line line = read_first (scan_hex line)

-- READ, WRITE and EXECUTE are 1, 2 and 4; `vm_flags` is 0 before, so `|=` adds them.
unfoldable pub flags_of : CString → ℕ
flags_of perm =
    (if get_or perm 0 0 == b'r' then 1 else 0)
    + (if get_or perm 1 0 == b'w' then 2 else 0)
    + (if get_or perm 2 0 == b'x' then 4 else 0)

-- The area of a line; `copied` says whether `strdup` succeeds.
unfoldable pub vma_of : Bool → Fields → Vma
unfolding flags_of
vma_of copied f = record {
  start_addr = f.first;
  end_addr = f.last;
  vm_flags = flags_of f.perm;
  file_offset = f.offset;
  mapping_name = elim f.region_name [ [] ↦ none | c ∷ cs ↦ if copied then some (c ∷ cs) else none ];
}

-- Whether the memory for the n-th area of a call, and for its name, is there.
pub record Memory : Type 0 where
  pub calloc : ℕ → Bool
  pub strdup : ℕ → Bool

-- What `fgets(line, 512, file)` returns until the end of the file; each call takes a byte, so
-- the length of the file is fuel enough.
unfoldable pub read_lines : ℕ → CString → List CString
unfolding fgets
read_lines zero file = []
read_lines (suc fuel) [] = []
read_lines (suc fuel) (c ∷ s) = let (line, rest) = fgets 511 (c ∷ s) in line ∷ read_lines fuel rest

module _ (lib : RbTree Vma) (memory : Memory) where
  -- The loop, at its n-th area: the tree, and the value returned.
  unfoldable pub insert_lines : ℕ → Tree Vma → List CString → Tree Vma × ℕ
  unfolding scan_line vma_of insert_node
  insert_lines n tree [] = (tree, 0)
  insert_lines n tree (line ∷ lines) =
      if memory.calloc n
      then insert_lines (n + 1)
          (insert_node vma_start lib tree (vma_of (memory.strdup n) (scan_line line))) lines
      else (tree, 1)

  -- `none` is a file that cannot be opened: the tree of the process stays as it was.
  unfoldable pub parse_process_memory_maps : Tree Vma → Option CString → Tree Vma × ℕ
  unfolding insert_lines read_lines
  parse_process_memory_maps old none = (old, 1)
  parse_process_memory_maps old (some file) = insert_lines 0 leaf (read_lines (length file) file)

-- `none` is a process that is NULL.
unfoldable pub find_vma_from_process : Option (Tree Vma) → ℕ → Option Vma
unfolding interval_search
find_vma_from_process none real_addr = none
find_vma_from_process (some tree) real_addr = interval_search vma_start vma_end real_addr tree

-- The sum is in `uint64_t`.
unfoldable pub get_relative_address : ℕ → Option Vma → ℕ
get_relative_address real_addr none = 0
get_relative_address real_addr (some vma) =
    if ltb real_addr vma.start_addr || leb vma.end_addr real_addr
    then 0
    else (real_addr - vma.start_addr + vma.file_offset) % 2 ^ 64
