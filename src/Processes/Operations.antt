-- ===== src/Processes/Operations.antt =====
-- The operations of src/core/process.c that change the table.
use profiling.Prelude.{
  ℕ, zero, suc, not, Option, none, some, List, [], ◌∷◌, map, ◌==◌, if◌then◌else◌, set,
}
use profiling.CString.{CString}
use profiling.Hash.{hash_pid}
use profiling.Tree.{Tree, leaf, RbTree}
use profiling.Vma.{Vma, parse_process_memory_maps}
use profiling.Processes.{
  ProcessInfo, ProcessTable, chain, Kernel, find_process, is_process_alive, read_proc_file,
  end_comm, join_cmdline, name_of_process, command_of_process,
}

abbrev comm_of : Kernel → ℕ → Option CString
comm_of kernel pid = read_proc_file end_comm (kernel.comm pid)

abbrev cmdline_of : Kernel → ℕ → Option CString
cmdline_of kernel pid = read_proc_file join_cmdline (kernel.cmdline pid)

-- The node that is filled from /proc, before its memory map is read.
unfoldable pub new_process : Kernel → ℕ → ProcessInfo
unfolding name_of_process command_of_process read_proc_file end_comm join_cmdline
new_process kernel pid =
    let name = name_of_process pid (comm_of kernel pid) (cmdline_of kernel pid) in
    record {
      process_id = pid;
      start_time = kernel.start_time_of pid;
      process_name = name;
      command_line = command_of_process name (cmdline_of kernel pid);
      memory_map_tree = leaf;
    }

-- The node becomes the head of its chain.
unfoldable pub insert_process : ProcessTable → ProcessInfo → ProcessTable
unfolding hash_pid
insert_process table proc =
    let index = hash_pid proc.process_id in set table index (proc ∷ chain table index)

-- Where `parse_process_memory_maps` returns 0 the node is inserted.
unfoldable pub insert_parsed :
    ProcessTable → ProcessInfo → Tree Vma × ℕ → ProcessTable × Option ProcessInfo
unfolding insert_process
insert_parsed table proc (tree, zero) =
    let proc' = record proc { memory_map_tree = tree } in (insert_process table proc', some proc')
insert_parsed table proc (tree, suc n) = (table, none)

module _ (lib : RbTree Vma) (kernel : Kernel) where
  unfoldable pub add_process : ProcessTable → ℕ → ProcessTable × Option ProcessInfo
  unfolding new_process is_process_alive parse_process_memory_maps insert_parsed
  add_process table pid =
      if kernel.calloc pid
      then if is_process_alive kernel pid
        then insert_parsed table (new_process kernel pid)
            (parse_process_memory_maps lib (kernel.memory pid) leaf (kernel.maps pid))
        else (table, none)
      else (table, none)

  -- The table, and the process or NULL.
  unfoldable pub find_new_process : ProcessTable → ℕ → ProcessTable × Option ProcessInfo
  unfolding find_process add_process
  find_new_process table pid = elim (find_process table pid) [
    | some proc ↦ (table, some proc)
    | none ↦ add_process table pid
  ]

-- The chain without the first node of the process.
unfoldable pub remove_from : ℕ → List ProcessInfo → List ProcessInfo
remove_from pid [] = []
remove_from pid (node ∷ nodes) =
    if node.process_id == pid then nodes else node ∷ remove_from pid nodes

unfoldable pub remove_process : ProcessTable → ℕ → ProcessTable
unfolding hash_pid remove_from
remove_process table pid =
    let index = hash_pid pid in set table index (remove_from pid (chain table index))

-- The chain without the nodes of processes that do not live.
unfoldable pub cleanup_chain : Kernel → List ProcessInfo → List ProcessInfo
unfolding is_process_alive
cleanup_chain kernel [] = []
cleanup_chain kernel (node ∷ nodes) =
    if not (is_process_alive kernel node.process_id)
    then cleanup_chain kernel nodes
    else node ∷ cleanup_chain kernel nodes

unfoldable pub cleanup_dead_processes : Kernel → ProcessTable → ProcessTable
unfolding cleanup_chain
cleanup_dead_processes kernel table = map (cleanup_chain kernel) table
