-- ===== src/PerfSetup.antt =====
-- src/perf/perf.c: the creation of a perf event for each CPU, and its end. What the system calls and
-- calloc return is an argument; the calls that acquire, change or release something are a list.
pub mod Counts
pub mod Balance
pub mod Fallback
mod Tests
use profiling.Prelude.{
  ℕ, zero, suc, ◌+◌, ◌*◌, ◌%◌, ◌^◌, Bool, true, false, ◌&&◌, Option, none, some, List, [], ◌∷◌,
  ◌++◌, if◌then◌else◌, length,
}
use profiling.Config.{ProfilingConfig}

-- The fields that `build_perf_attr` sets to different values; the others are constants or 0.
pub record PerfEventAttr : Type 0 where
  pub type : ℕ
  pub config : ℕ
  pub sample_type : ℕ
  pub branch_sample_type : ℕ
  pub sample_regs_user : ℕ
  pub sample_freq : ℕ
  pub sample_max_stack : ℕ

-- IP | TID | TIME | REGS_USER of <linux/perf_event.h>, with BRANCH_STACK, or with CALLCHAIN.
abbrev pub sample_type_lbr : ℕ
sample_type_lbr = 1 + 2 + 4 + 4096 + 2048

abbrev pub sample_type_callchain : ℕ
sample_type_callchain = 1 + 2 + 4 + 4096 + 32

-- `sample_max_stack` is `uint16_t`.
unfoldable pub build_perf_attr : Bool → ProfilingConfig → PerfEventAttr
build_perf_attr use_lbr config = record {
  type = if use_lbr then 0 else 1;
  config = if use_lbr then 4 else 0;
  sample_type = if use_lbr then sample_type_lbr else sample_type_callchain;
  branch_sample_type = if use_lbr then 8 else 0;
  sample_regs_user = 2 ^ 6 + 2 ^ 7;
  sample_freq = config.sampling_frequency;
  sample_max_stack = config.max_stack_depth % 2 ^ 16;
}

pub data Errno : Type 0 where
  einval eopnotsupp enotsup other : Errno

pub data Opened : Type 0 where
  opened : ℕ → Opened
  failed : Errno → Opened

-- What the system answers for each CPU; `sysconf` is called twice for one. `mmap` gives no address 0.
pub record System : Type 0 where
  pub nprocessors : Option ℕ
  pub calloc_manager : Bool
  pub calloc_events : Bool
  pub perf_event_open : PerfEventAttr → ℕ → Opened
  pub page_size_of_mmap : ℕ → Option ℕ
  pub mmap : ℕ → ℕ → Option ℕ
  pub page_size : ℕ → Option ℕ

pub data Resource : Type 0 where
  manager_memory events_memory : Resource
  descriptor mapping : ℕ → Resource

pub data Action : Type 0 where
  acquire release : Resource → Action
  reset enable disable set_nonblocking : ℕ → Action

-- `struct perf_event_fd`, with `target_pid` -1; a field that is not set yet is 0, or NULL.
pub record PerfEvent : Type 0 where
  pub fd : ℕ
  pub cpu : ℕ
  pub mmap_page : Option ℕ
  pub mmap_size : ℕ
  pub pagesize : ℕ
  pub mmap_buffer : ℕ

-- The turn of the loop for a CPU: no descriptor, or a descriptor that is not ready, or an event.
pub data Created : Type 0 where
  not_opened : Errno → Created
  half_open ready : PerfEvent → List Action → Created

-- The rest of the turn: without a mapping, without a page size, and with both.
unfoldable pub finish_event : PerfEvent → List Action → Option ℕ → Option ℕ → Created
finish_event event actions none pagesize = half_open event actions
finish_event event actions (some page) none =
    half_open (record event { mmap_page = some page }) actions
finish_event event actions (some page) (some pagesize) =
    ready
      (record event { mmap_page = some page; pagesize = pagesize; mmap_buffer = page + pagesize })
      (actions ++ (set_nonblocking event.fd ∷ reset event.fd ∷ enable event.fd ∷ []))

-- The address, the size, and the calls of `perf_add_sample_event_mmap`, from the result of `mmap`.
unfoldable pub enable_pages : ℕ → ℕ → Option ℕ → Option ℕ × ℕ × List Action
enable_pages fd size none = (none, size, [])
enable_pages fd size (some page) =
    (some page, size, acquire (mapping page) ∷ reset fd ∷ enable fd ∷ [])

-- From the size of a page.
unfoldable pub map_pages : System → ℕ → Option ℕ → Option ℕ × ℕ × List Action
unfolding enable_pages
map_pages system fd none = (none, 0, [])
map_pages system fd (some pagesize) =
    let size = 1024 * 1024 + pagesize in enable_pages fd size (system.mmap fd size)

unfoldable pub perf_add_sample_event_mmap : System → ℕ → ℕ → Option ℕ × ℕ × List Action
unfolding map_pages
perf_add_sample_event_mmap system cpu fd = map_pages system fd (system.page_size_of_mmap cpu)

-- The turn behind `create_perf_event`.
unfoldable pub with_descriptor : System → ℕ → Opened → Created
unfolding perf_add_sample_event_mmap finish_event
with_descriptor system cpu (failed errno) = not_opened errno
with_descriptor system cpu (opened fd) =
    let mapped = perf_add_sample_event_mmap system cpu fd in
    finish_event
      (record {
        fd = fd;
        cpu = cpu;
        mmap_page = none;
        mmap_size = mapped.1;
        pagesize = 0;
        mmap_buffer = 0;
      })
      (acquire (descriptor fd) ∷ mapped.2) mapped.0 (system.page_size cpu)

unfoldable pub create_event : System → PerfEventAttr → ℕ → Created
unfolding with_descriptor
create_event system attr cpu = with_descriptor system cpu (system.perf_event_open attr cpu)

unfoldable pub unmap : Option ℕ → List Action
unmap none = []
unmap (some page) = release (mapping page) ∷ []

-- A turn of the loop of `cleanup_events` and of `perf_event_cleanup_manager`.
unfoldable pub release_event : PerfEvent → List Action
unfolding unmap
release_event event = disable event.fd ∷ release (descriptor event.fd) ∷ unmap event.mmap_page

-- For the events created so far, which are the first ones.
unfoldable pub cleanup_events : List PerfEvent → List Action
unfolding release_event
cleanup_events [] = release events_memory ∷ release manager_memory ∷ []
cleanup_events (event ∷ events) = release_event event ++ cleanup_events events

-- `none` is NULL; the code is that of `cleanup_events`, for all events.
unfoldable pub perf_event_cleanup_manager : Option (List PerfEvent) → List Action
unfolding cleanup_events
perf_event_cleanup_manager none = []
perf_event_cleanup_manager (some events) = cleanup_events events

-- The result with all calls. After the retry without LBR the loop goes on with the manager that
-- `cleanup_events` has freed, at its first CPU already: `uses_freed_manager`.
pub data Init : Type 0 where
  returns_null : List Action → Init
  returns_manager : List PerfEvent → List Action → Init
  uses_freed_manager : List Action → Init

unfoldable pub is_unsupported : Errno → Bool
is_unsupported einval = true
is_unsupported eopnotsupp = true
is_unsupported enotsup = true
is_unsupported other = false

-- The branch where a CPU has no descriptor.
unfoldable pub refused : Bool → Errno → List PerfEvent → List Action → Init
unfolding is_unsupported cleanup_events
refused lbr_enabled errno events actions =
    if lbr_enabled && is_unsupported errno
    then uses_freed_manager (actions ++ cleanup_events events)
    else returns_null (actions ++ cleanup_events events)

-- The loop over the CPUs that are left.
unfoldable pub create_events :
    System → Bool → PerfEventAttr → ℕ → List PerfEvent → List Action → Init
unfolding create_event refused cleanup_events
create_events system lbr_enabled attr zero events actions = returns_manager events actions
create_events system lbr_enabled attr (suc n) events actions =
    elim (create_event system attr (length events)) [
      | not_opened errno ↦ refused lbr_enabled errno events actions
      | half_open event more ↦
          returns_null ((actions ++ more) ++ cleanup_events (events ++ (event ∷ [])))
      | ready event more ↦
          create_events system lbr_enabled attr n (events ++ (event ∷ [])) (actions ++ more)
    ]

-- `initialize_manager`: whether there is one, and its calls.
unfoldable pub initialize_manager : System → Bool × List Action
initialize_manager system =
    if system.calloc_manager
    then if system.calloc_events
      then (true, acquire manager_memory ∷ acquire events_memory ∷ [])
      else (false, acquire manager_memory ∷ release manager_memory ∷ [])
    else (false, [])

unfoldable pub with_manager : System → ProfilingConfig → ℕ → Bool × List Action → Init
unfolding build_perf_attr create_events
with_manager system config num_cpus (false, actions) = returns_null actions
with_manager system config num_cpus (true, actions) =
    create_events system config.use_lbr (build_perf_attr config.use_lbr config) num_cpus [] actions

unfoldable pub perf_event_init_with_config : System → Option ProfilingConfig → Init
unfolding initialize_manager with_manager
perf_event_init_with_config system none = returns_null []
perf_event_init_with_config system (some config) = elim system.nprocessors [
  | none ↦ returns_null []
  | some num_cpus ↦ with_manager system config num_cpus (initialize_manager system)
]
