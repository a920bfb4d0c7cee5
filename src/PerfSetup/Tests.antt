-- ===== src/PerfSetup/Tests.antt =====
-- Two CPUs, the second of which has no buffer; and a machine without LBR.
use profiling.Prelude.{◌+◌, ◌≡◌, refl, true, none, some, [], ◌∷◌, ◌==◌, if◌then◌else◌}
use profiling.Config.{ProfilingConfig, default_config}
use profiling.PerfSetup.{
  System, manager_memory, events_memory, descriptor, mapping, acquire, release, reset, enable,
  disable, set_nonblocking, opened, failed, einval, returns_null, perf_event_init_with_config,
}
use profiling.PerfSetup.Balance.{Balanced, perf_event_init-Balanced}

abbrev system : System
system = record {
  nprocessors = some 2;
  calloc_manager = true;
  calloc_events = true;
  perf_event_open = λ attr cpu. if attr.type == 1 then opened (cpu + 3) else failed einval;
  page_size_of_mmap = λ cpu. some 4096;
  mmap = λ fd size. if fd == 3 then some 65536 else none;
  page_size = λ cpu. some 4096;
}

init_fails :
    perf_event_init_with_config system (some default_config)
    ≡ returns_null (
        acquire manager_memory
        ∷ acquire events_memory
        ∷ acquire (descriptor 3)
        ∷ acquire (mapping 65536)
        ∷ reset 3
        ∷ enable 3
        ∷ set_nonblocking 3
        ∷ reset 3
        ∷ enable 3
        ∷ acquire (descriptor 4)
        ∷ disable 3
        ∷ release (descriptor 3)
        ∷ release (mapping 65536)
        ∷ disable 4
        ∷ release (descriptor 4)
        ∷ release events_memory
        ∷ release manager_memory
        ∷ [])
unfolding perf_event_init_with_config
init_fails = refl

perf_event_init-Balanced_example :
    Balanced (λ r. true) (perf_event_init_with_config system (some default_config))
perf_event_init-Balanced_example = perf_event_init-Balanced (λ r. true) system (some default_config)

abbrev with_lbr : ProfilingConfig
with_lbr = record default_config { use_lbr = true }
