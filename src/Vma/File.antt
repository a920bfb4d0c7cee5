-- ===== src/Vma/File.antt =====
-- The whole of /proc/<pid>/maps, as the kernel prints it, read by `parse_process_memory_maps`.
use Prim.Native.Nat.{min}
use profiling.Prelude.{
  ℕ, ◌+◌, ◌≤◌, ◌≡◌, true, none, some, List, ◌++◌, map, length, ◌==◌, if◌then◌else◌,
}
use profiling.CString.{CString, fgets, ulong_max}
use profiling.Tree.{Tree}
use profiling.Vma.{Vma, Memory}
use profiling.Vma.Print.{value_of, Entry, print_entry}
use profiling.Vma.Maps.{join}

-- `fgets` takes the line, if it has room for it.
abbrev IsTaken : CString → Type 0
IsTaken line = (n : ℕ) (rest : CString) → length line ≤ n → fgets n (line ++ rest) ≡ (line, rest)

-- The file, and that a line fits the buffer of 512 bytes.
abbrev pub print_file : List Entry → CString
print_file entries = join (map print_entry entries)

abbrev pub FitsLine : Entry → Type 0
FitsLine e = length (print_entry e) ≤ 511

-- The area of an entry: READ, WRITE and EXECUTE are 1, 2 and 4; no name where nothing is mapped.
abbrev pub area_of : Entry → Vma
area_of e = record {
  start_addr = min (value_of e.first) ulong_max;
  end_addr = min (value_of e.last) ulong_max;
  vm_flags =
      (if e.readable then 1 else 0)
      + (if e.writable then 2 else 0)
      + (if e.executable then 4 else 0);
  file_offset = min (value_of e.offset) ulong_max;
  mapping_name = if length e.name == 0 then none else some e.name;
}

-- There is memory for every area and every name.
abbrev pub HasMemory : Memory → Type 0
HasMemory memory = (n : ℕ) → (memory.calloc n ≡ true) × (memory.strdup n ≡ true)
