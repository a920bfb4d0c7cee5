-- ===== src/Startup.antt =====
-- `main` of src/main.c and the setup of src/core/system.c: the stages in which the parts of the program
-- are started, and what is stopped again where one fails. Whether a part can be started is an argument.
pub mod Failure
mod Tests
use profiling.Prelude.{
  ℕ, Bool, true, false, ◌&&◌, ◌||◌, Option, none, some, List, [], ◌∷◌, ◌++◌, if◌then◌else◌,
}
use profiling.CString.{CString}
use profiling.Config.{
  ProfilingConfig, Outcome, accepted, rejected, exited, parse_command_line, validate_config,
}
use profiling.HttpServer.{http_server_start}

-- The writer is stopped by `db_writer_stop` and `db_writer_wait`, the tables by `cleanup_system`.
pub data Part : Type 0 where
  log_file database_writer http_server perf_events system_tables sample_pool symbolizer_thread :
      Part

pub data BootAction : Type 0 where
  starts stops : Part → BootAction

-- What the library and the system say. `mkdir` is true also where the directory is there.
pub record Boot : Type 0 where
  pub strdup : Bool
  pub realpath : Bool
  pub mkdir : Bool
  pub realpath_again : Bool
  pub fopen : Bool
  pub elf_version : Bool
  pub writer_init : Bool
  pub http_memory : Bool
  pub http_daemon : Bool
  pub perf_event_init : Bool
  pub calloc_process_table : Bool
  pub calloc_elf_cache : Bool
  pub pool_create : Bool
  pub thread_init : Bool

pub data StageName : Type 0 where
  arguments logging elf_library validation database http perf system pool symbolizer : StageName

-- A stage starts something, or else undoes something and ends `main` with 1.
pub record Stage : Type 0 where
  pub name : StageName
  pub ok : Bool
  pub started : List BootAction
  pub undo : List BootAction

unfoldable pub log_stage : Boot → Stage
log_stage boot = record {
  name = logging;
  ok = (boot.realpath || (boot.mkdir && boot.realpath_again)) && (boot.strdup && boot.fopen);
  started = starts log_file ∷ [];
  undo = [];
}

unfoldable pub elf_stage : Boot → Stage
elf_stage boot = record { name = elf_library; ok = boot.elf_version; started = []; undo = [] }

unfoldable pub validation_stage : ProfilingConfig → Stage
unfolding validate_config
validation_stage config = record {
  name = validation;
  ok = validate_config (some config);
  started = [];
  undo = [];
}

-- `db_output_dir` is never NULL. `pthread_create` of `db_writer_start` is taken to succeed.
unfoldable pub database_stage : Boot → Stage
database_stage boot = record {
  name = database;
  ok = boot.writer_init;
  started = starts database_writer ∷ [];
  undo = [];
}

unfoldable pub http_stage : Boot → Stage
unfolding http_server_start
http_stage boot = record {
  name = http;
  ok = http_server_start boot.http_memory boot.http_daemon;
  started = starts http_server ∷ [];
  undo = stops database_writer ∷ [];
}

unfoldable pub perf_stage : Boot → Stage
perf_stage boot = record {
  name = perf;
  ok = boot.perf_event_init;
  started = starts perf_events ∷ [];
  undo = stops database_writer ∷ [];
}

-- `initialize_system` frees what it has where it fails; the kernel symbols and the clocks may fail.
unfoldable pub initialize_system : Boot → Bool
initialize_system boot = boot.elf_version && (boot.calloc_process_table && boot.calloc_elf_cache)

unfoldable pub system_stage : Boot → Stage
unfolding initialize_system
system_stage boot = record {
  name = system;
  ok = initialize_system boot;
  started = starts system_tables ∷ [];
  undo = stops perf_events ∷ stops database_writer ∷ [];
}

unfoldable pub pool_stage : Boot → Stage
pool_stage boot = record {
  name = pool;
  ok = boot.pool_create;
  started = starts sample_pool ∷ [];
  undo = stops perf_events ∷ stops database_writer ∷ stops system_tables ∷ [];
}

unfoldable pub symbolizer_stage : Boot → Stage
symbolizer_stage boot = record {
  name = symbolizer;
  ok = boot.thread_init;
  started = starts symbolizer_thread ∷ [];
  undo = stops perf_events ∷ stops database_writer ∷ stops system_tables ∷ stops sample_pool ∷ [];
}

-- `loops` is the endless loop of `main_loop`.
pub data MainRun : Type 0 where
  exits : StageName → ℕ → List BootAction → MainRun
  loops : List BootAction → MainRun

unfoldable pub run_stages : List BootAction → List Stage → MainRun
run_stages actions [] = loops actions
run_stages actions (stage ∷ stages) =
    let rest = run_stages (actions ++ stage.started) stages in
    if stage.ok then rest else exits stage.name 1 (actions ++ stage.undo)

unfoldable pub stages : Boot → ProfilingConfig → List Stage
unfolding log_stage elf_stage validation_stage database_stage http_stage perf_stage system_stage
    pool_stage symbolizer_stage
stages boot config =
    log_stage boot
    ∷ elf_stage boot
    ∷ validation_stage config
    ∷ database_stage boot
    ∷ http_stage boot
    ∷ perf_stage boot
    ∷ system_stage boot
    ∷ pool_stage boot
    ∷ symbolizer_stage boot
    ∷ []

unfoldable pub after_arguments : Boot → Outcome → MainRun
unfolding run_stages stages
after_arguments boot (accepted config) = run_stages [] (stages boot config)
after_arguments boot rejected = exits arguments 1 []
after_arguments boot exited = exits arguments 0 []

-- `argv` behind the name of the program.
unfoldable pub main_run : Boot → List CString → MainRun
unfolding after_arguments parse_command_line
main_run boot args = after_arguments boot (parse_command_line boot.strdup args)
