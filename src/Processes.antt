-- ===== src/Processes.antt =====
-- src/core/process.c: the table of the processes that were sampled. What the kernel says of a pid
-- (/proc, kill) is an argument.
pub mod Operations
pub mod WellFormed
pub mod Lookup
mod Tests
use profiling.Prelude.{
  ℕ, zero, suc, ◌+◌, ◌-◌, ◌/◌, ◌%◌, ◌^◌, Bool, true, false, not, ◌&&◌, ◌||◌, Option, none, some,
  List, [], ◌∷◌, ◌++◌, map, ltb, leb, ◌==◌, if◌then◌else◌, get_or, set, take, replicate,
}
use profiling.CString.{CString, text, same}
use profiling.Hash.{hash_pid, hashtable_size}
use profiling.Tree.{Tree, leaf, RbTree}
use profiling.Vma.{Vma, Memory, parse_process_memory_maps}

pub record ProcessInfo : Type 0 where
  pub process_id : ℕ
  pub start_time : ℕ
  pub process_name : CString
  pub command_line : CString
  pub memory_map_tree : Tree Vma

-- The chains of the HASHTABLE_SIZE buckets.
abbrev pub ProcessTable : Type 0
ProcessTable = List (List ProcessInfo)

abbrev pub chain : ProcessTable → ℕ → List ProcessInfo
chain table index = get_or table index []

-- The table that `initialize_system` allocates with `calloc`.
abbrev pub empty_table : ProcessTable
empty_table = replicate hashtable_size []

-- What the kernel says of a process, at one time.
pub record Kernel : Type 0 where
  -- Whether `kill(pid, 0)` returns 0.
  pub kill : ℕ → Bool
  -- What `get_process_start_time` reads, 0 where it cannot.
  pub start_time_of : ℕ → ℕ
  -- What a `read` of the files returns; `none` if one cannot be opened.
  pub comm : ℕ → Option CString
  pub cmdline : ℕ → Option CString
  pub maps : ℕ → Option CString
  -- Whether the memory for a node is there, and for the areas of a process.
  pub calloc : ℕ → Bool
  pub memory : ℕ → Memory

-- The loop of `find_process`.
unfoldable pub find_in : ℕ → List ProcessInfo → Option ProcessInfo
find_in pid [] = none
find_in pid (node ∷ nodes) = if node.process_id == pid then some node else find_in pid nodes

unfoldable pub find_process : ProcessTable → ℕ → Option ProcessInfo
unfolding find_in hash_pid
find_process table pid = find_in pid (chain table (hash_pid pid))

unfoldable pub is_process_alive : Kernel → ℕ → Bool
is_process_alive kernel pid = kernel.kill pid

-- The bytes of a buffer up to the first 0: what it is as a string.
unfoldable pub c_string : CString → CString
c_string [] = []
c_string (c ∷ s) = if c == 0 then [] else c ∷ c_string s

-- A newline at the end of "comm" becomes 0.
unfoldable pub end_comm : CString → CString
end_comm [] = []
end_comm (c ∷ []) = if c == 10 then 0 ∷ [] else c ∷ []
end_comm (c ∷ d ∷ s) = c ∷ end_comm (d ∷ s)

-- Each 0 of "cmdline" but one at the end becomes a space.
unfoldable pub join_cmdline : CString → CString
join_cmdline [] = []
join_cmdline (c ∷ []) = c ∷ []
join_cmdline (c ∷ d ∷ s) = (if c == 0 then 32 else c) ∷ join_cmdline (d ∷ s)

-- `fixed` is what the function does for the name of the file. At most 4095 bytes are read; `none`
-- is NULL.
unfoldable pub read_proc_file : (CString → CString) → Option CString → Option CString
unfolding c_string
read_proc_file fixed none = none
read_proc_file fixed (some []) = none
read_proc_file fixed (some (c ∷ s)) = some (c_string (fixed (take 4095 (c ∷ s))))

-- The part before the first byte `c`, as `strchr` and writing a 0 there give it.
unfoldable pub cut_at : ℕ → CString → CString
cut_at c [] = []
cut_at c (d ∷ s) = if d == c then [] else d ∷ cut_at c s

-- The part after the last '/', found by `strrchr`; `base` is the whole of it if there is none.
unfoldable pub after_slash : CString → CString → CString
after_slash base [] = base
after_slash base (d ∷ s) = if d == b'/' then after_slash s s else after_slash base s

-- The decimal digits of a number below 10 ^ fuel, before `acc`.
unfoldable pub digits : ℕ → ℕ → CString → CString
digits zero n acc = acc
digits (suc fuel) n acc =
    let rest = digits fuel (n / 10) ((n % 10 + 48) ∷ acc) in
    if ltb n 10 then (n + 48) ∷ acc else rest

-- `snprintf("pid_%d", pid)`, on the 32 bits of the `int`, which have at most 10 digits.
unfoldable pub pid_name : ℕ → CString
unfolding digits
pid_name pid =
    text "pid_"
    ++ (if ltb pid (2 ^ 31) then digits 10 pid [] else b'-' ∷ digits 10 (2 ^ 32 - pid) [])

-- The name where there is no "comm": from the command line.
unfoldable pub name_from_cmdline : Option CString → CString
unfolding cut_at after_slash
name_from_cmdline none = text "unknown"
name_from_cmdline (some []) = text "unknown"
name_from_cmdline (some (c ∷ s)) = let command = cut_at 32 (c ∷ s) in after_slash command command

-- An empty name is replaced.
unfoldable pub name_or_pid : ℕ → CString → CString
unfolding pid_name same
name_or_pid pid [] = pid_name pid
name_or_pid pid (c ∷ s) = if same (c ∷ s) (10 ∷ []) then pid_name pid else c ∷ s

unfoldable pub name_of_process : ℕ → Option CString → Option CString → CString
unfolding name_from_cmdline name_or_pid cut_at
name_of_process pid none cmdline = name_from_cmdline cmdline
name_of_process pid (some comm) cmdline = name_or_pid pid (cut_at 10 comm)

unfoldable pub command_of_process : CString → Option CString → CString
command_of_process name none = name
command_of_process name (some []) = name
command_of_process name (some (c ∷ s)) = c ∷ s
