-- ===== src/Symbolize/Tests.antt =====
-- A run of the symbolization of a sample, and uses of its theorems.
use profiling.Prelude.{◌≡◌, refl, true, none, some, [], ◌∷◌, arith}
use profiling.CString.{text}
use profiling.Tree.{leaf, node, unbalanced}
use profiling.Config.{filter_all}
use profiling.Processes.{Kernel, empty_table}
use profiling.ElfFiles.{empty_cache}
use profiling.DbWriter.{DbEntry}
use profiling.DbWriter.Session.{parse_row}
use profiling.Processes.Operations.{find_new_process}
use profiling.Symbolize.{
  Sources, Frames, name_of_info, print_pid, symbolize_frames, db_stack_str, realtime_timestamp,
}
use profiling.Symbolize.Flame.{Fits, symbolize_frames-Fits}
use profiling.Symbolize.Stored.{parse_row-db_stack_str}

abbrev kernel : Kernel
kernel = record {
  kill = λ pid. true;
  start_time_of = λ pid. 17;
  comm = λ pid. some (text "bash\n");
  cmdline = λ pid. none;
  maps = λ pid. some (text "10-20 r--p 0 8:1 3 [heap]\n");
  calloc = λ pid. true;
  memory = λ pid. record { calloc = λ n. true; strdup = λ n. true };
}

abbrev sources : Sources
sources = record {
  vma_lib = unbalanced;
  symbol_lib = unbalanced;
  filter_mode = filter_all;
  kernel_symbols = some (
      node leaf (record { address = 0xffffffff81000000; type = b'T'; name = text "do_idle" }) leaf);
  kernel = λ i. kernel;
  files = λ i. record {
    open_elf = λ path. none;
    id_string = true;
    node = true;
    path_string = true;
    collection = true;
  };
}

-- Three frames: of the kernel, of an area, and of none.
abbrev frames : Frames
frames = symbolize_frames sources 7 empty_table empty_cache [] 0xffffffff81000004 (0x12 ∷ 0x40 ∷ [])

frames_text : frames.flame_buffer ≡ text "bash[7];do_idle [kernel];[heap];[unknown_vma]"
unfolding symbolize_frames
frames_text = refl

symbolize_frames-Fits_example : Fits frames
unfolding find_new_process name_of_info print_pid
symbolize_frames-Fits_example =
    symbolize_frames-Fits sources 7 empty_table empty_cache [] 0xffffffff81000004 (0x12 ∷ 0x40 ∷ [])
      (omega arith)

abbrev frames_of_bash : Frames
frames_of_bash = record {
  process_table = empty_table;
  elf_cache = empty_cache;
  resolved = [];
  proc_info = none;
  process_name = text "bash";
  flame_buffer = text "bash[7];main";
  flame_len = 12;
}

abbrev entry : DbEntry
entry = record { chunk = 64; timestamp_ns = 5; stack_str = db_stack_str 7 frames_of_bash }

parse_row-db_stack_str_example : parse_row entry ≡ record {
  timestamp = 5;
  pid = some (text "7");
  process_name = text "bash";
  full_stack = text "bash[7];main";
}
unfolding print_pid
parse_row-db_stack_str_example =
    parse_row-db_stack_str entry 7 frames_of_bash b'b' (text "ash") refl
      (refl, (refl, (refl, (refl, tt)))) (omega arith) refl

clocks : (realtime_timestamp 1500 1000 700000 ≡ 700500) × (realtime_timestamp 1500 0 700000 ≡ 1500)
unfolding realtime_timestamp
clocks = (refl, refl)
