-- ===== src/Processes/Tests.antt =====
-- A table filled from a kernel that knows three processes, and the theorems at it.
use profiling.Prelude.{
  ℕ, ◌-◌, ◌^◌, ◌++◌, ◌≡◌, refl, true, none, some, [], ◌∷◌, leb, ◌==◌, if◌then◌else◌,
}
use profiling.CString.{CString, text}
use profiling.Hash.{hash_pid, hash_str}
use profiling.Tree.{leaf, node, unbalanced}
use profiling.Vma.{Vma}
use profiling.Processes.{ProcessInfo, ProcessTable, Kernel, find_process, empty_table}
use profiling.Processes.Operations.{find_new_process, remove_process, cleanup_dead_processes}
use profiling.Processes.WellFormed.{IsTable, empty_table-IsTable, operations_keep_IsTable}
use profiling.Processes.Lookup.{find_process-find_new_process}

abbrev kernel : Kernel
kernel = record {
  kill = λ pid. leb pid 2000;
  start_time_of = λ pid. 17;
  comm =
      λ pid. if pid == 7 then some (text "bash\n") else if pid == 8 then some (10 ∷ []) else none;
  cmdline = λ pid. if pid == 9 then some (text "/bin/ls" ++ (0 ∷ text "-l")) else none;
  maps = λ pid. if pid == 11 then none else some (text "10-20 r--p 0 8:1 3 /bin/ls\n");
  calloc = λ pid. true;
  memory = λ pid. record { calloc = λ n. true; strdup = λ n. true };
}

abbrev area : Vma
area = record {
  start_addr = 16;
  end_addr = 32;
  vm_flags = 1;
  file_offset = 0;
  mapping_name = some (text "/bin/ls");
}

abbrev process : ℕ → CString → CString → ProcessInfo
process pid name command = record {
  process_id = pid;
  start_time = 17;
  process_name = name;
  command_line = command;
  memory_map_tree = node leaf area leaf;
}

names :
    ((find_new_process unbalanced kernel empty_table 7).1
      ≡ some (process 7 (text "bash") (text "bash")))
    × ((find_new_process unbalanced kernel empty_table 8).1
        ≡ some (process 8 (text "pid_8") (text "pid_8")))
    × ((find_new_process unbalanced kernel empty_table 9).1
        ≡ some (process 9 (text "ls") (text "/bin/ls -l")))
    × ((find_new_process unbalanced kernel empty_table 10).1
        ≡ some (process 10 (text "unknown") (text "unknown")))
    × ((find_new_process unbalanced kernel empty_table 11).1 ≡ none)
    × ((find_new_process unbalanced kernel empty_table 2001).1 ≡ none)
unfolding find_new_process
names = (refl, refl, refl, refl, refl, refl)

hashes : (hash_pid (2 ^ 32 - 1) ≡ 1023) × (hash_str (text "ab") ≡ 33)
unfolding hash_pid hash_str
hashes = (refl, refl)

abbrev table : ProcessTable
table = (find_new_process unbalanced kernel empty_table 7).0

table-IsTable : IsTable table
table-IsTable = (operations_keep_IsTable unbalanced kernel empty_table 7 empty_table-IsTable).0

operations_keep_IsTable_example :
    IsTable (find_new_process unbalanced kernel table 1031).0
    × IsTable (remove_process table 1031)
    × IsTable (cleanup_dead_processes kernel table)
operations_keep_IsTable_example = operations_keep_IsTable unbalanced kernel table 1031 table-IsTable

find_process-find_new_process_example :
    find_process (find_new_process unbalanced kernel table 1031).0 7 ≡ (
      if 7 == 1031 then (find_new_process unbalanced kernel table 1031).1 else find_process table 7)
find_process-find_new_process_example =
    find_process-find_new_process unbalanced kernel table 1031 7 table-IsTable
