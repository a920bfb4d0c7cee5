-- ===== src/Symbolize.antt =====
-- `symbolize_sample` of src/core/handler.c: the names of the frames of a sample, the text for the flame
-- graph, and the string for the database. It composes the process table, the memory maps, the cache
-- of ELF files and the symbol tables. The text for display is in Display.
pub mod Flame
pub mod Stored
mod Tests
use profiling.Prelude.{
  ℕ, zero, suc, ◌+◌, ◌-◌, ◌%◌, ◌^◌, Bool, true, false, not, ◌&&◌, ◌||◌, Option, none, some, List,
  [], ◌∷◌, ◌++◌, ltb, ◌==◌, if◌then◌else◌, length, take,
}
use profiling.CString.{CString, text}
use profiling.Tree.{Tree, leaf, node, RbTree}
use profiling.Config.{FilterMode, filter_all, filter_user, filter_kernel}
use profiling.Vma.{Vma, find_vma_from_process, get_relative_address}
use profiling.Processes.{ProcessInfo, ProcessTable, Kernel, digits}
use profiling.Processes.Operations.{find_new_process, remove_process}
use profiling.ElfSymbols.{SymbolInfo, find_symbol_name_from_elf}
use profiling.ElfFiles.{ElfFile, ElfFileCache, Files, find_or_create_elf}
use profiling.KernelSymbols.{KernelSymbol, find_kernel_symbol}
use profiling.Display.{collect_ips, is_kernel_addr}

abbrev pub flame_size : ℕ
flame_size = 16384

-- `func_name` has 512 bytes.
abbrev pub cut_name : CString → CString
cut_name name = take 511 name

-- `elf_file` of a memory area, which is set at its first use: the pid and the start of the area, and
-- the file. An area goes with its process.
pub record ResolvedArea : Type 0 where
  pub area_pid : ℕ
  pub area_start : ℕ
  pub elf_file : ElfFile

-- The state that the frames of a sample change. `flame_buffer` is the string in the buffer.
pub record Frames : Type 0 where
  pub process_table : ProcessTable
  pub elf_cache : ElfFileCache
  pub resolved : List ResolvedArea
  pub proc_info : Option ProcessInfo
  pub process_name : CString
  pub flame_buffer : CString
  pub flame_len : ℕ

-- What the sample is symbolized with; the kernel and the files may answer differently at each frame.
pub record Sources : Type 0 where
  pub vma_lib : RbTree Vma
  pub symbol_lib : RbTree SymbolInfo
  pub filter_mode : FilterMode
  pub kernel_symbols : Option (Tree KernelSymbol)
  pub kernel : ℕ → Kernel
  pub files : ℕ → Files

unfoldable pub name_of_info : Option ProcessInfo → CString
name_of_info none = text "unknown"
name_of_info (some proc) = proc.process_name

-- `%d` of the 32 bits of a pid.
unfoldable pub print_pid : ℕ → CString
unfolding digits
print_pid pid = if ltb pid (2 ^ 31) then digits 10 pid [] else b'-' ∷ digits 10 (2 ^ 32 - pid) []

unfoldable pub is_filtered : FilterMode → ℕ → Bool
unfolding is_kernel_addr
is_filtered filter_all ip = false
is_filtered filter_user ip = is_kernel_addr ip
is_filtered filter_kernel ip = not (is_kernel_addr ip)

-- `strcat` of a semicolon and the name.
unfoldable pub append_name : CString → Frames → Frames
append_name name s = record s {
  flame_buffer = s.flame_buffer ++ (b';' ∷ name);
  flame_len = s.flame_len + length name + 1;
}

-- The name, if the buffer has the space for it.
unfoldable pub append_frame : CString → Frames → Frames
unfolding append_name
append_frame name s =
    if ltb (s.flame_len + length name + 2) flame_size then append_name name s else s

unfoldable pub resolved_file : ℕ → ℕ → List ResolvedArea → Option ElfFile
resolved_file pid start [] = none
resolved_file pid start (area ∷ areas) =
    let rest = resolved_file pid start areas in
    if (area.area_pid == pid) && (area.area_start == start) then some area.elf_file else rest

unfoldable pub forget_areas : ℕ → List ResolvedArea → List ResolvedArea
forget_areas pid [] = []
forget_areas pid (area ∷ areas) =
    let rest = forget_areas pid areas in if area.area_pid == pid then rest else area ∷ rest

-- The result of `find_or_create_elf` is kept with the area.
unfoldable pub keep_file : ℕ → ℕ → Frames → ElfFileCache × Option ElfFile → Frames × Option ElfFile
keep_file pid start s (cache, none) = (record s { elf_cache = cache }, none)
keep_file pid start s (cache, some file) = (
  record s {
    elf_cache = cache;
    resolved = record { area_pid = pid; area_start = start; elf_file = file } ∷ s.resolved;
  },
  some file,
)

-- The name of an address in an area of a file.
unfoldable pub name_in_elf : ℕ → Vma → CString → Option ElfFile → CString
unfolding get_relative_address find_symbol_name_from_elf
name_in_elf ip vma mapping_name none = text "[unknown_elf:" ++ (mapping_name ++ text "]")
name_in_elf ip vma mapping_name (some elf) =
    elim (find_symbol_name_from_elf (some elf.symbols) (get_relative_address ip (some vma))) [
      | [] ↦ text "[unknown_symbol:" ++ (elf.file_path ++ text "]")
      | c ∷ name ↦ c ∷ name
    ]

module _ (sources : Sources) (pid : ℕ) where
  -- With a name that is no "[area]".
  unfoldable pub frame_in_file : ℕ → ℕ → Frames → Vma → CString → Frames × CString
  unfolding resolved_file keep_file name_in_elf find_or_create_elf
  frame_in_file i ip s vma mapping_name = elim (resolved_file pid vma.start_addr s.resolved) [
    | some file ↦ (s, name_in_elf ip vma mapping_name (some file))
    | none ↦
        let kept =
          keep_file pid vma.start_addr s (
            find_or_create_elf sources.symbol_lib (sources.files i) s.elf_cache pid mapping_name) in
        (kept.0, name_in_elf ip vma mapping_name kept.1)
  ]

  unfoldable pub frame_in_mapping : ℕ → ℕ → Frames → Vma → Option CString → Frames × CString
  unfolding frame_in_file
  frame_in_mapping i ip s vma none = (s, text "[anonymous]")
  frame_in_mapping i ip s vma (some []) = (s, [])
  frame_in_mapping i ip s vma (some (c ∷ name)) =
      let in_file = frame_in_file i ip s vma (c ∷ name) in
      if c == b'[' then (s, c ∷ name) else in_file

  unfoldable pub frame_in_vma : ℕ → ℕ → Frames → Option Vma → Frames × CString
  unfolding frame_in_mapping
  frame_in_vma i ip s none = (s, text "[unknown_vma]")
  frame_in_vma i ip s (some vma) = frame_in_mapping i ip s vma vma.mapping_name

  unfoldable pub frame_in_maps : ℕ → ℕ → Frames → Tree Vma → Frames × CString
  unfolding frame_in_vma find_vma_from_process
  frame_in_maps i ip s leaf = (s, text "[vma_unavailable]")
  frame_in_maps i ip s (node l vma r) =
      frame_in_vma i ip s (find_vma_from_process (some (node l vma r)) ip)

  abbrev pub appended : Frames × CString → Frames
  appended (s, name) = append_frame (cut_name name) s

  -- The process that stands for a pid that was used again, or none.
  unfoldable pub recycle : ℕ → Frames → ProcessInfo → Frames
  unfolding remove_process find_new_process name_of_info forget_areas
  recycle i s proc =
      let found =
        find_new_process sources.vma_lib (sources.kernel i)
          (remove_process s.process_table proc.process_id) pid in
      record s {
        process_table = found.0;
        resolved = forget_areas proc.process_id s.resolved;
        proc_info = found.1;
        process_name = name_of_info found.1;
      }

  -- The name "[process_recycled]" is appended without a test of the space.
  unfoldable pub frame_recycled : ℕ → ℕ → Frames → Option ProcessInfo → Frames
  unfolding frame_in_maps append_name append_frame
  frame_recycled i ip s none = append_name (text "[process_recycled]") s
  frame_recycled i ip s (some proc) = appended (frame_in_maps i ip s proc.memory_map_tree)

  unfoldable pub user_frame : ℕ → ℕ → Frames → Option ProcessInfo → Frames
  unfolding frame_in_maps recycle frame_recycled append_frame
  user_frame i ip s none = append_frame (text "[unknown_process]") s
  user_frame i ip s (some proc) =
      let recycled = recycle i s proc in
      if proc.start_time == (sources.kernel i).start_time_of proc.process_id
      then appended (frame_in_maps i ip s proc.memory_map_tree)
      else frame_recycled i ip recycled recycled.proc_info

  -- The frame number `i`.
  unfoldable pub one_frame : ℕ → ℕ → Frames → Frames
  unfolding is_filtered is_kernel_addr find_kernel_symbol user_frame append_frame
  one_frame i ip s =
      if is_filtered sources.filter_mode ip
      then s
      else if is_kernel_addr ip
      then append_frame
          (cut_name (find_kernel_symbol sources.kernel_symbols ip ++ text " [kernel]")) s
      else user_frame i ip s s.proc_info

  unfoldable pub all_frames : ℕ → List ℕ → Frames → Frames
  unfolding one_frame
  all_frames i [] s = s
  all_frames i (ip ∷ ips) s = all_frames (i + 1) ips (one_frame i ip s)

  -- The frames of a sample, from the tables: `name[pid]` and the names. The first `snprintf` cuts a
  -- text that is too long, and `flame_len` gets its whole length.
  unfoldable pub symbolize_frames :
      ProcessTable → ElfFileCache → List ResolvedArea → ℕ → List ℕ → Frames
  unfolding all_frames find_new_process name_of_info print_pid collect_ips
  symbolize_frames table cache resolved ip ips =
      let found = find_new_process sources.vma_lib (sources.kernel 0) table pid in
      let name = name_of_info found.1 in
      let start = name ++ (b'[' ∷ (print_pid pid ++ (b']' ∷ []))) in
      all_frames 1 (collect_ips ip ips) (record {
        process_table = found.0;
        elf_cache = cache;
        resolved = resolved;
        proc_info = found.1;
        process_name = name;
        flame_buffer = take 16383 start;
        flame_len = length start;
      })

-- `snprintf(db_stack_str, 16384 + 256, "%d|%s|%s")`
unfoldable pub db_stack_str : ℕ → Frames → CString
unfolding print_pid
db_stack_str pid s =
    take 16639 (print_pid pid ++ (b'|' ∷ (s.process_name ++ (b'|' ∷ s.flame_buffer))))

-- The time of the sample on the clock of the day, in `uint64_t`.
unfoldable pub realtime_timestamp : ℕ → ℕ → ℕ → ℕ
realtime_timestamp timestamp_ns monotonic_start_ns realtime_start_ns =
    if (monotonic_start_ns == 0) || (realtime_start_ns == 0)
    then timestamp_ns
    else (timestamp_ns + 2 ^ 64 - monotonic_start_ns + realtime_start_ns) % 2 ^ 64
