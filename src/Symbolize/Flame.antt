-- ===== src/Symbolize/Flame.antt =====
-- How long the text for the flame graph becomes in its buffer of 16384 bytes.
use mathlib.Core.Path.{subst}
use profiling.Prelude.{
  ℕ, suc, ◌+◌, ◌≤◌, ◌≡◌, refl, sym, ap, Bool, true, false, Option, none, some, List, [], ◌∷◌, ◌++◌,
  ltb, ◌==◌, if◌then◌else◌, length, length-append, take, take-all, arith, Bool-cases, Option-cases,
  inl, inr, OrNone,
}
use profiling.CString.{CString, text}
use profiling.Tree.{Tree, leaf, node}
use profiling.Vma.{Vma, find_vma_from_process}
use profiling.Processes.{ProcessInfo, ProcessTable}
use profiling.Processes.Operations.{find_new_process}
use profiling.ElfFiles.{ElfFile, ElfFileCache, find_or_create_elf}
use profiling.KernelSymbols.{find_kernel_symbol}
use profiling.Display.{collect_ips, is_kernel_addr}
use profiling.Symbolize.{
  Frames, Sources, ResolvedArea, cut_name, append_name, append_frame, name_of_info, print_pid,
  is_filtered, resolved_file, keep_file, frame_in_file, frame_in_mapping, frame_in_vma,
  frame_in_maps, appended, recycle, frame_recycled, user_frame, one_frame, all_frames,
  symbolize_frames,
}

-- The length is known; the text and its 0 fit, with a byte to spare, while there is a process; it
-- exceeds 16383 bytes by at most 18 where there is none.
abbrev pub Fits : Frames → Type 0
Fits s =
    (s.flame_len ≡ length s.flame_buffer)
    × (length s.flame_buffer ≤ 16382 + 19)
    × OrNone (λ proc. length s.flame_buffer ≤ 16382) s.proc_info

within : (p : Option ProcessInfo) {n : ℕ} → n ≤ 16382 → OrNone (λ proc. n ≤ 16382) p
within none h = tt
within (some proc) h = h

gone : (p : Option ProcessInfo) (n : ℕ) → p ≡ none → OrNone (λ proc. n ≤ 16382) p
gone none n h = tt
gone (some proc) n h = absurd (ground arith)

-- Two ways to go on.
if-Fits : (b : Bool) (s t : Frames) → Fits s → Fits t → Fits (if b then s else t)
if-Fits true s t hs ht = hs
if-Fits false s t hs ht = ht

append_frame-Fits : (name : CString) (s : Frames) → Fits s → Fits (append_frame name s)
unfolding append_frame append_name
append_frame-Fits name s h =
    let more = length-append s.flame_buffer (b';' ∷ name) in
    elim (Bool-cases (ltb (s.flame_len + length name + 2) 16384)) [
      | inr full ↦ rw full h
      | inl space ↦
          let short : length s.flame_buffer + suc (length name) ≤ 16382 = ground (arith, h.0) in
          rw (space, more) (omega (arith, h.0), omega (arith, short), within s.proc_info short)
    ]

module _ (sources : Sources) (pid : ℕ) where
  appended-Fits : (r : Frames × CString) → Fits r.0 → Fits (appended sources pid r)
  appended-Fits (s, name) h = append_frame-Fits (cut_name name) s h

  keep_file-Fits :
      (start : ℕ) (s : Frames) (r : ElfFileCache × Option ElfFile)
      → Fits s
      → Fits (keep_file pid start s r).0
  unfolding keep_file
  keep_file-Fits start s (cache, none) h = h
  keep_file-Fits start s (cache, some file) h = h

  frame_in_file-Fits :
      (i ip : ℕ) (s : Frames) (vma : Vma) (name : CString)
      → Fits s
      → Fits (frame_in_file sources pid i ip s vma name).0
  unfolding frame_in_file
  frame_in_file-Fits i ip s vma name h =
      elim (Option-cases (resolved_file pid vma.start_addr s.resolved)) [
        | inl new ↦
            rw (new, frame_in_file)
              (keep_file-Fits vma.start_addr s
                (find_or_create_elf sources.symbol_lib (sources.files i) s.elf_cache pid name) h)
        | inr (file, known) ↦ rw (known, frame_in_file) h
      ]

  frame_in_mapping-Fits :
      (i ip : ℕ) (s : Frames) (vma : Vma) (name : Option CString)
      → Fits s
      → Fits (frame_in_mapping sources pid i ip s vma name).0
  unfolding frame_in_mapping
  frame_in_mapping-Fits i ip s vma none h = h
  frame_in_mapping-Fits i ip s vma (some []) h = h
  frame_in_mapping-Fits i ip s vma (some (c ∷ name)) h = elim (Bool-cases (c == b'[')) [
    | inl area ↦ rw area h
    | inr file ↦ rw file (frame_in_file-Fits i ip s vma (c ∷ name) h)
  ]

  frame_in_vma-Fits :
      (i ip : ℕ) (s : Frames) (vma : Option Vma)
      → Fits s
      → Fits (frame_in_vma sources pid i ip s vma).0
  unfolding frame_in_vma
  frame_in_vma-Fits i ip s none h = h
  frame_in_vma-Fits i ip s (some vma) h = frame_in_mapping-Fits i ip s vma vma.mapping_name h

  frame_in_maps-Fits :
      (i ip : ℕ) (s : Frames) (tree : Tree Vma)
      → Fits s
      → Fits (frame_in_maps sources pid i ip s tree).0
  unfolding frame_in_maps
  frame_in_maps-Fits i ip s leaf h = h
  frame_in_maps-Fits i ip s (node l vma r) h =
      frame_in_vma-Fits i ip s (find_vma_from_process (some (node l vma r)) ip) h

  -- The one append without a test: before it there was a process, after it there is none.
  frame_recycled-Fits :
      (i ip : ℕ) (s : Frames) (proc : Option ProcessInfo)
      → s.proc_info ≡ proc
      → s.flame_len ≡ length s.flame_buffer
      → length s.flame_buffer ≤ 16382
      → Fits (frame_recycled sources pid i ip s proc)
  unfolding frame_recycled append_name
  frame_recycled-Fits i ip s none e same short =
      let more = length-append s.flame_buffer (text ";[process_recycled]") in
      (omega (arith, same, more), omega (arith, short, more), gone s.proc_info _ e)
  frame_recycled-Fits i ip s (some proc) e same short =
      appended-Fits (frame_in_maps sources pid i ip s proc.memory_map_tree) (
        frame_in_maps-Fits i ip s proc.memory_map_tree
          (same, omega (arith, short), within s.proc_info short))

  user_frame-Fits :
      (i ip : ℕ) (s : Frames) (proc : Option ProcessInfo)
      → s.proc_info ≡ proc
      → Fits s
      → Fits (user_frame sources pid i ip s proc)
  unfolding user_frame recycle
  user_frame-Fits i ip s none e h = append_frame-Fits (text "[unknown_process]") s h
  user_frame-Fits i ip s (some proc) e h =
      let short : length s.flame_buffer ≤ 16382 =
        subst (OrNone (λ _. length s.flame_buffer ≤ 16382)) e h.2 in
      if-Fits (proc.start_time == (sources.kernel i).start_time_of proc.process_id)
        (appended sources pid (frame_in_maps sources pid i ip s proc.memory_map_tree))
        (frame_recycled sources pid i ip (recycle sources pid i s proc)
          (recycle sources pid i s proc).proc_info)
        (appended-Fits (frame_in_maps sources pid i ip s proc.memory_map_tree)
          (frame_in_maps-Fits i ip s proc.memory_map_tree h))
        (frame_recycled-Fits i ip (recycle sources pid i s proc)
          (recycle sources pid i s proc).proc_info refl h.0 short)

  one_frame-Fits : (i ip : ℕ) (s : Frames) → Fits s → Fits (one_frame sources pid i ip s)
  unfolding one_frame
  one_frame-Fits i ip s h =
      let name = cut_name (find_kernel_symbol sources.kernel_symbols ip ++ text " [kernel]") in
      if-Fits (is_filtered sources.filter_mode ip) s
        (if is_kernel_addr ip
          then append_frame name s
          else user_frame sources pid i ip s s.proc_info)
        h
        (if-Fits (is_kernel_addr ip) (append_frame name s)
          (user_frame sources pid i ip s s.proc_info) (append_frame-Fits name s h)
          (user_frame-Fits i ip s s.proc_info refl h))

  all_frames-Fits :
      (i : ℕ) (ips : List ℕ) (s : Frames) → Fits s → Fits (all_frames sources pid i ips s)
  unfolding all_frames
  all_frames-Fits i [] s h = h
  all_frames-Fits i (ip ∷ ips) s h =
      all_frames-Fits (i + 1) ips (one_frame sources pid i ip s) (one_frame-Fits i ip s h)

  -- Where the name of the process and its pid in brackets take less than 16383 bytes, whatever the
  -- addresses, the process, its memory, the files and the symbols: the text for the flame graph has
  -- the length that the code counts; with its 0 it fits the buffer of 16384 bytes, if there is a
  -- process at the end, and exceeds the buffer by at most 18 bytes, if there is none.
  pub symbolize_frames-Fits :
      (table : ProcessTable) (cache : ElfFileCache) (resolved : List ResolvedArea) (ip : ℕ)
      (ips : List ℕ)
      → length (name_of_info (find_new_process sources.vma_lib (sources.kernel 0) table pid).1)
          + (2 + length (print_pid pid))
        ≤ 16382
      → Fits (symbolize_frames sources pid table cache resolved ip ips)
  unfolding symbolize_frames
  symbolize_frames-Fits table cache resolved ip ips short =
      let found = find_new_process sources.vma_lib (sources.kernel 0) table pid in
      let name = name_of_info found.1 in
      let start = name ++ (b'[' ∷ (print_pid pid ++ (b']' ∷ []))) in
      let a = length-append name (b'[' ∷ (print_pid pid ++ (b']' ∷ []))) in
      let b = length-append (print_pid pid) (b']' ∷ []) in
      let fits : length start ≤ 16382 = omega (arith, a, b, short) in
      let whole : take 16383 start ≡ start = take-all 16383 start (omega (arith, fits)) in
      let long : length (take 16383 start) ≡ length start = ap length whole in
      all_frames-Fits 1 (collect_ips ip ips) _
        (sym long, omega (arith, long, fits), within found.1 (omega (arith, long, fits)))
