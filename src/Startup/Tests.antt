-- ===== src/Startup/Tests.antt =====
-- A start in which there is no memory for the pool.
use profiling.Prelude.{◌≡◌, refl, Bool, true, false, [], ◌∷◌}
use profiling.CString.{text}
use profiling.Startup.{
  Part, log_file, database_writer, http_server, perf_events, system_tables, sample_pool,
  symbolizer_thread, Boot, starts, stops, pool, exits, main_run,
}
use profiling.Startup.Failure.{Ends, main_run-Ends}

abbrev boot : Boot
boot = record {
  strdup = true;
  realpath = false;
  mkdir = true;
  realpath_again = true;
  fopen = true;
  elf_version = true;
  writer_init = true;
  http_memory = true;
  http_daemon = true;
  perf_event_init = true;
  calloc_process_table = true;
  calloc_elf_cache = true;
  pool_create = false;
  thread_init = true;
}

fails :
    main_run boot []
    ≡ exits pool 1 (
        starts log_file
        ∷ starts database_writer
        ∷ starts http_server
        ∷ starts perf_events
        ∷ starts system_tables
        ∷ stops perf_events
        ∷ stops database_writer
        ∷ stops system_tables
        ∷ [])
unfolding main_run
fails = refl

abbrev is_cleaned : Part → Bool
is_cleaned log_file = false
is_cleaned http_server = false
is_cleaned database_writer = true
is_cleaned perf_events = true
is_cleaned system_tables = true
is_cleaned sample_pool = true
is_cleaned symbolizer_thread = true

main_run-Ends_example : Ends is_cleaned (main_run boot (text "--lbr" ∷ []))
main_run-Ends_example = main_run-Ends is_cleaned refl refl boot (text "--lbr" ∷ [])
