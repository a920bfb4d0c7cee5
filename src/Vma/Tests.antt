-- ===== src/Vma/Tests.antt =====
-- A memory map of two areas, and the theorems at it.
use mathlib.Core.List.{Perm}
use profiling.Prelude.{
  map, ◌≡◌, refl, true, false, none, some, [], ◌∷◌, arith, length, ◌==◌, if◌then◌else◌,
}
use profiling.CString.{CString, text, is_space}
use profiling.Tree.{Tree, leaf, node, in_order, unbalanced}
use profiling.Tree.Order.{IsSorted}
use profiling.Vma.{
  Vma, vma_start, Memory, read_lines, scan_line, parse_process_memory_maps, find_vma_from_process,
  get_relative_address,
}
use profiling.Vma.Maps.{areas, parse_process_memory_maps-areas}
use profiling.Vma.File.{area_of}
use profiling.Vma.Print.{Entry, IsEntry, print_entry}
use profiling.Vma.RoundTrip.{fields_of, scan_line-print_entry}

abbrev file : CString
file =
    text
      "7f001000-7f003000 r-xp 00002000 08:01 42 /lib/libc.so.6\n55000000-55001000 rw-p 00000000 00:00 0 [heap]\n"

abbrev libc : Vma
libc = record {
  start_addr = 0x7f001000;
  end_addr = 0x7f003000;
  vm_flags = 5;
  file_offset = 0x2000;
  mapping_name = some (text "/lib/libc.so.6");
}

abbrev heap : Vma
heap = record {
  start_addr = 0x55000000;
  end_addr = 0x55001000;
  vm_flags = 3;
  file_offset = 0;
  mapping_name = some (text "[heap]");
}

abbrev enough : Memory
enough = record { calloc = λ n. true; strdup = λ n. true }

abbrev tree : Tree Vma
tree = node (node leaf heap leaf) libc leaf

parses : parse_process_memory_maps unbalanced enough leaf (some file) ≡ (tree, 0)
unfolding parse_process_memory_maps
parses = refl

addresses :
    (find_vma_from_process (some tree) 0x7f002fff ≡ some libc)
    × (find_vma_from_process (some tree) 0x55001000 ≡ none)
    × (get_relative_address 0x7f002fff (some libc) ≡ 0x3fff)
    × (get_relative_address 0x7f003000 (some libc) ≡ 0)
unfolding find_vma_from_process get_relative_address
addresses = (refl, refl, refl, refl)

-- The memory of the second area is missing.
abbrev scarce : Memory
scarce = record { calloc = λ n. n == 0; strdup = λ n. true }

one_area_only :
    let lines = read_lines (length file) file in
    let r = parse_process_memory_maps unbalanced scarce leaf (some file) in
    IsSorted vma_start (in_order r.0)
    × Perm (in_order r.0) (areas scarce 0 lines)
    × (r.1 ≡ (if length (areas scarce 0 lines) == length lines then 0 else 1))
one_area_only = parse_process_memory_maps-areas unbalanced scarce leaf file

abbrev entry : Entry
entry = record {
  first = record { top = 7; more = 15 ∷ 0 ∷ 10 ∷ [] };
  last = record { top = 8; more = 0 ∷ 0 ∷ 0 ∷ [] };
  readable = true;
  writable = false;
  executable = true;
  shared = false;
  offset = record { top = 0; more = 2 ∷ 0 ∷ [] };
  device_top = b'0';
  device = text "8:01";
  inode = record { top = 4; more = 2 ∷ [] };
  padding = 3;
  name = text "/bin/ls";
}

prints : print_entry entry ≡ text "7f0a-8000 r-xp 020 08:01 42    /bin/ls\n"
unfolding print_entry
prints = refl

entry-IsEntry : IsEntry entry
unfolding is_space
entry-IsEntry = (
  (omega arith),
  (omega arith),
  (omega arith),
  (omega arith),
  refl,
  (refl, (refl, (refl, (refl, tt)))),
  (refl, (refl, (refl, (refl, (refl, (refl, (refl, tt))))))),
  omega arith,
)

scan_line-print_entry_example : scan_line (print_entry entry) ≡ fields_of entry
scan_line-print_entry_example = scan_line-print_entry entry entry-IsEntry

abbrev unnamed : Entry
unnamed = record entry { writable = true; executable = false; padding = 0; name = [] }

abbrev ample : Memory
ample = record { calloc = λ n. true; strdup = λ n. true }

expected_areas :
    map area_of (entry ∷ unnamed ∷ [])
    ≡ record {
      start_addr = 0x7f0a;
      end_addr = 0x8000;
      vm_flags = 5;
      file_offset = 0x20;
      mapping_name = some (text "/bin/ls");
    }
      ∷ record {
        start_addr = 0x7f0a;
        end_addr = 0x8000;
        vm_flags = 3;
        file_offset = 0x20;
        mapping_name = none;
      }
      ∷ []
expected_areas = refl
