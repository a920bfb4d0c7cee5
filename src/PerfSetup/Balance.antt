-- ===== src/PerfSetup/Balance.antt =====
-- What the setup of the perf events acquires it releases, or hands out.
use profiling.Prelude.{
  ℕ, zero, suc, ◌+◌, ◌*◌, ◌≡◌, refl, ap, Bool, ◌&&◌, Option, none, some, List, [], ◌∷◌, ◌++◌,
  length, arith, Bool-cases, Option-cases, inl, inr,
}
use profiling.Config.{ProfilingConfig}
use profiling.PerfSetup.{
  System, PerfEventAttr, Resource, manager_memory, events_memory, descriptor, Action, acquire,
  reset, enable, set_nonblocking, PerfEvent, Created, not_opened, half_open, ready, Opened, opened,
  failed, Errno, is_unsupported, Init, returns_null, returns_manager, uses_freed_manager,
  finish_event, enable_pages, map_pages, perf_add_sample_event_mmap, with_descriptor, create_event,
  unmap, release_event, cleanup_events, perf_event_cleanup_manager, refused, create_events,
  initialize_manager, with_manager, perf_event_init_with_config,
}
use profiling.PerfSetup.Counts.{
  counts, acquired, released, acquired-append, released-append, counts_page,
}

module _ (p : Resource → Bool) where
  -- What an event has, and all events with their memory.
  held : PerfEvent → ℕ
  unfolding counts_page
  held event = counts p (descriptor event.fd) + counts_page p event.mmap_page

  all_held : List PerfEvent → ℕ
  unfolding held
  all_held [] = counts p events_memory + counts p manager_memory
  all_held (event ∷ events) = held event + all_held events

  all_held-append :
      (xs : List PerfEvent) (event : PerfEvent)
      → all_held (xs ++ (event ∷ [])) ≡ all_held xs + held event
  unfolding all_held
  all_held-append [] event = omega arith
  all_held-append (x ∷ xs) event = omega (arith, all_held-append xs event)

  -- The calls acquire this number and release nothing.
  abbrev Gets : ℕ → List Action → Type 0
  Gets n actions = (acquired p actions ≡ n) × (released p actions ≡ 0)

  Gets-append : (m n : ℕ) (xs ys : List Action) → Gets m xs → Gets n ys → Gets (m + n) (xs ++ ys)
  Gets-append m n xs ys h k = (
    omega (arith, acquired-append p xs ys, h.0, k.0),
    omega (arith, released-append p xs ys, h.1, k.1),
  )

  unmap-releases :
      (page : Option ℕ)
      → (acquired p (unmap page) ≡ 0) × (released p (unmap page) ≡ counts_page p page)
  unfolding unmap counts_page
  unmap-releases none = (refl, refl)
  unmap-releases (some page) = (refl, omega arith)

  release_event-releases :
      (event : PerfEvent)
      → (acquired p (release_event event) ≡ 0) × (released p (release_event event) ≡ held event)
  unfolding release_event held
  release_event-releases event =
      let pages = unmap-releases event.mmap_page in (pages.0, omega (arith, pages.1))

  cleanup_events-releases :
      (events : List PerfEvent)
      → (acquired p (cleanup_events events) ≡ 0)
        × (released p (cleanup_events events) ≡ all_held events)
  unfolding cleanup_events all_held
  cleanup_events-releases [] = (refl, omega arith)
  cleanup_events-releases (event ∷ events) =
      let one = release_event-releases event in
      let rest = cleanup_events-releases events in
      let a = acquired-append p (release_event event) (cleanup_events events) in
      let r = released-append p (release_event event) (cleanup_events events) in
      (omega (arith, one.0, rest.0, a), omega (arith, one.1, rest.1, r))

  -- Calls that got what the events have, with what `cleanup_events` does.
  cleaned :
      (events : List PerfEvent) (actions : List Action)
      → Gets (all_held events) actions
      → acquired p (actions ++ cleanup_events events)
        ≡ released p (actions ++ cleanup_events events)
  cleaned events actions h =
      let done = cleanup_events-releases events in
      let a = acquired-append p actions (cleanup_events events) in
      let r = released-append p actions (cleanup_events events) in
      omega (arith, h.0, h.1, done.0, done.1, a, r)

  -- The calls of a turn got what the event has.
  abbrev CreatedGets : Created → Type 0
  CreatedGets (not_opened errno) = Unit {0}
  CreatedGets (half_open event actions) = Gets (held event) actions
  CreatedGets (ready event actions) = Gets (held event) actions

  finish_event-Gets :
      (event : PerfEvent) (actions : List Action) (page pagesize : Option ℕ)
      → event.mmap_page ≡ none
      → Gets (counts p (descriptor event.fd) + counts_page p page) actions
      → CreatedGets (finish_event event actions page pagesize)
  unfolding finish_event held counts_page
  finish_event-Gets event actions none pagesize e h =
      (omega (arith, h.0, ap (counts_page p) e), h.1)
  finish_event-Gets event actions (some page) none e h = h
  finish_event-Gets event actions (some page) (some pagesize) e h =
      let more = set_nonblocking event.fd ∷ reset event.fd ∷ enable event.fd ∷ [] in
      let a = acquired-append p actions more in
      let r = released-append p actions more in (omega (arith, h.0, a), omega (arith, h.1, r))

  abbrev PagesGet : Option ℕ × ℕ × List Action → Type 0
  PagesGet mapped = Gets (counts_page p mapped.0) mapped.2

  enable_pages-Get : (fd size : ℕ) (page : Option ℕ) → PagesGet (enable_pages fd size page)
  unfolding enable_pages counts_page
  enable_pages-Get fd size none = (refl, refl)
  enable_pages-Get fd size (some page) = (omega arith, refl)

  map_pages-Get :
      (system : System) (fd : ℕ) (pagesize : Option ℕ) → PagesGet (map_pages system fd pagesize)
  unfolding map_pages counts_page
  map_pages-Get system fd none = (refl, refl)
  map_pages-Get system fd (some pagesize) =
      enable_pages-Get fd (1024 * 1024 + pagesize) (system.mmap fd (1024 * 1024 + pagesize))

  with_descriptor-Gets :
      (system : System) (cpu : ℕ) (opening : Opened)
      → CreatedGets (with_descriptor system cpu opening)
  unfolding with_descriptor perf_add_sample_event_mmap
  with_descriptor-Gets system cpu (failed errno) = tt
  with_descriptor-Gets system cpu (opened fd) =
      let got = map_pages-Get system fd (system.page_size_of_mmap cpu) in
      let mapped = perf_add_sample_event_mmap system cpu fd in
      finish_event-Gets
        (record {
          fd = fd;
          cpu = cpu;
          mmap_page = none;
          mmap_size = mapped.1;
          pagesize = 0;
          mmap_buffer = 0;
        })
        (acquire (descriptor fd) ∷ mapped.2) mapped.0 (system.page_size cpu) refl
        (omega (arith, got.0), got.1)

  create_event-Gets :
      (system : System) (attr : PerfEventAttr) (cpu : ℕ)
      → CreatedGets (create_event system attr cpu)
  unfolding create_event
  create_event-Gets system attr cpu =
      with_descriptor-Gets system cpu (system.perf_event_open attr cpu)

  -- What the result has: NULL, or a freed manager, has nothing; a manager has its events.
  abbrev pub Balanced : Init → Type 0
  Balanced (returns_null actions) = acquired p actions ≡ released p actions
  Balanced (uses_freed_manager actions) = acquired p actions ≡ released p actions
  Balanced (returns_manager events actions) =
      acquired p (actions ++ perf_event_cleanup_manager (some events))
      ≡ released p (actions ++ perf_event_cleanup_manager (some events))

  refused-Balanced :
      (lbr : Bool) (errno : Errno) (events : List PerfEvent) (actions : List Action)
      → Gets (all_held events) actions
      → Balanced (refused lbr errno events actions)
  unfolding refused
  refused-Balanced lbr errno events actions h = elim (Bool-cases (lbr && is_unsupported errno)) [
    | inl e ↦ rw e (cleaned events actions h)
    | inr e ↦ rw e (cleaned events actions h)
  ]

  more_held :
      (events : List PerfEvent) (actions more : List Action) (event : PerfEvent)
      → Gets (all_held events) actions
      → Gets (held event) more
      → Gets (all_held (events ++ (event ∷ []))) (actions ++ more)
  more_held events actions more event h k =
      let both = Gets-append (all_held events) (held event) actions more h k in
      (omega (arith, both.0, all_held-append events event), both.1)

  create_events-Balanced :
      (system : System) (lbr : Bool) (attr : PerfEventAttr) (n : ℕ) (events : List PerfEvent)
      (actions : List Action)
      → Gets (all_held events) actions
      → Balanced (create_events system lbr attr n events actions)
  unfolding create_events perf_event_cleanup_manager
  create_events-Balanced system lbr attr zero events actions h = cleaned events actions h
  create_events-Balanced system lbr attr (suc n) events actions h =
      (elim (create_event system attr (length events))
          as (λ created.
            CreatedGets created
            → Balanced (elim created [
              | not_opened errno ↦ refused lbr errno events actions
              | half_open event more ↦
                  returns_null ((actions ++ more) ++ cleanup_events (events ++ (event ∷ [])))
              | ready event more ↦
                  create_events system lbr attr n (events ++ (event ∷ [])) (actions ++ more)
            ])) [
              | not_opened errno ↦ λ k. refused-Balanced lbr errno events actions h
              | half_open event more ↦ λ k.
                  cleaned (events ++ (event ∷ [])) (actions ++ more)
                    (more_held events actions more event h k)
              | ready event more ↦ λ k.
                  create_events-Balanced system lbr attr n (events ++ (event ∷ []))
                    (actions ++ more) (more_held events actions more event h k)
            ])
        (create_event-Gets system attr (length events))

  with_manager-Balanced :
      (system : System) (config : ProfilingConfig) (num_cpus : ℕ)
      → Balanced (with_manager system config num_cpus (initialize_manager system))
  unfolding with_manager initialize_manager all_held
  with_manager-Balanced system config num_cpus = elim (Bool-cases system.calloc_manager) [
    | inr e ↦ rw e refl
    | inl e ↦ elim (Bool-cases system.calloc_events) [
      | inr f ↦ rw (e, f) refl
      | inl f ↦
          rw (e, f)
            (create_events-Balanced system config.use_lbr _ num_cpus []
              (acquire manager_memory ∷ acquire events_memory ∷ []) (omega arith, refl))
    ]
  ]

  -- Whatever the system answers: where perf_event_init_with_config returns NULL, its calls release
  -- every descriptor, mapping and memory as often as they acquire it; where it returns a manager,
  -- they do so together with perf_event_cleanup_manager; where it goes on with a manager that it has
  -- freed, they do so up to there.
  pub perf_event_init-Balanced :
      (system : System) (config : Option ProfilingConfig)
      → Balanced (perf_event_init_with_config system config)
  unfolding perf_event_init_with_config
  perf_event_init-Balanced system none = refl
  perf_event_init-Balanced system (some config) = elim (Option-cases system.nprocessors) [
    | inl e ↦ rw e refl
    | inr (num_cpus, e) ↦ rw e (with_manager-Balanced system config num_cpus)
  ]
