-- ===== src/PerfSetup/Fallback.antt =====
-- The retry without LBR, and the events of a manager.
use profiling.Prelude.{ℕ, suc, ◌≡◌, refl, ap, ◌∙◌, true, some, List, [], ◌∷◌}
use profiling.Config.{ProfilingConfig}
use profiling.PerfSetup.{
  System, PerfEventAttr, Action, not_opened, manager_memory, events_memory, acquire, release,
  failed, Errno, is_unsupported, uses_freed_manager, build_perf_attr, with_descriptor, create_event,
  refused, create_events, cleanup_events, initialize_manager, with_manager,
  perf_event_init_with_config,
}

create_event-not_opened :
    (system : System) (attr : PerfEventAttr) (errno : Errno)
    → system.perf_event_open attr 0 ≡ failed errno
    → create_event system attr 0 ≡ not_opened errno
unfolding create_event with_descriptor
create_event-not_opened system attr errno opening = ap (with_descriptor system 0) opening

create_events-refused :
    (system : System) (attr : PerfEventAttr) (n : ℕ) (errno : Errno) (actions : List Action)
    → system.perf_event_open attr 0 ≡ failed errno
    → create_events system true attr (suc n) [] actions ≡ refused true errno [] actions
unfolding create_events
create_events-refused system attr n errno actions opening =
    rw (create_event-not_opened system attr errno opening, create_events) refl

-- On a machine with a CPU and with memory for the manager: where LBR is asked for and the first CPU
-- refuses it as not supported, perf_event_init_with_config frees the manager and its events and goes
-- on with them, without LBR.
lbr_not_supported :
    (system : System) (config : ProfilingConfig) (n : ℕ) (errno : Errno)
    → config.use_lbr ≡ true
    → system.nprocessors ≡ some (suc n)
    → system.calloc_manager ≡ true
    → system.calloc_events ≡ true
    → system.perf_event_open (build_perf_attr true config) 0 ≡ failed errno
    → is_unsupported errno ≡ true
    → perf_event_init_with_config system (some config)
      ≡ uses_freed_manager (
          acquire manager_memory
          ∷ acquire events_memory
          ∷ release events_memory
          ∷ release manager_memory
          ∷ [])
unfolding perf_event_init_with_config with_manager initialize_manager refused cleanup_events
lbr_not_supported system config n errno lbr cpus memory events opening unsupported =
    let first =
      create_events-refused system (build_perf_attr true config) n errno
        (acquire manager_memory ∷ acquire events_memory ∷ []) opening in
    rw (cpus, memory, events, lbr) (first ∙ rw unsupported refl)
