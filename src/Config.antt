-- ===== src/Config.antt =====
-- config/config.c: the options of the command line. An `int` is its 32 bits; the memory for the
-- copies of paths is an argument.
pub mod Valid
mod Tests
use Prim.Native.Nat.{min}
use Prim.Native.String.{String}
use profiling.Prelude.{
  ℕ, zero, suc, ◌+◌, ◌-◌, ◌*◌, ◌%◌, ◌^◌, Bool, true, false, ◌&&◌, ◌||◌, Option, none, some, List,
  [], ◌∷◌, ltb, leb, ◌==◌, if◌then◌else◌, drop,
}
use profiling.CString.{CString, text, same, skip_space, is_digit}

pub data FilterMode : Type 0 where
  filter_all filter_user filter_kernel : FilterMode

pub record ProfilingConfig : Type 0 where
  pub sampling_frequency : ℕ
  pub filter_mode : FilterMode
  pub cleanup_interval : ℕ
  pub max_stack_depth : ℕ
  pub sample_pool_size : ℕ
  pub use_lbr : Bool
  pub db_output_dir : CString
  pub http_port : ℕ
  pub log_output_dir : CString
  pub histogram_print_threshold : ℕ
  pub histogram_log_path : Option CString
  pub db_batch_size : ℕ
  pub producer_batch_size : ℕ
  pub db_entry_pool_size : ℕ

-- The default values.
abbrev pub default_config : ProfilingConfig
default_config = record {
  sampling_frequency = 30;
  filter_mode = filter_all;
  cleanup_interval = 30;
  max_stack_depth = 48;
  sample_pool_size = 99297;
  use_lbr = false;
  db_output_dir = text "/tmp";
  http_port = 8081;
  log_output_dir = text "/log";
  histogram_print_threshold = 1000;
  histogram_log_path = none;
  db_batch_size = 96;
  producer_batch_size = 96;
  db_entry_pool_size = 8192;
}

-- `strncmp(a, b, n) == 0`
unfoldable pub same_prefix : ℕ → CString → CString → Bool
same_prefix zero a b = true
same_prefix (suc n) [] [] = true
same_prefix (suc n) [] (y ∷ b) = false
same_prefix (suc n) (x ∷ a) [] = false
same_prefix (suc n) (x ∷ a) (y ∷ b) = (x == y) && same_prefix n a b

unfoldable pub decimal : ℕ → CString → ℕ
unfolding is_digit
decimal acc [] = acc
decimal acc (c ∷ s) = if is_digit c then decimal (acc * 10 + (c - 48)) s else acc

-- `atoi`: the value of `strtol`, at most LONG_MAX, cut to 32 bits.
unfoldable pub unsigned_int : CString → ℕ
unfolding decimal
unsigned_int s = min (decimal 0 s) (2 ^ 63 - 1) % 2 ^ 32

unfoldable pub signed_int : CString → ℕ
unfolding unsigned_int decimal
signed_int [] = 0
signed_int (c ∷ s) =
    if c == b'-'
    then (2 ^ 32 - min (decimal 0 s) (2 ^ 63) % 2 ^ 32) % 2 ^ 32
    else if c == b'+'
    then unsigned_int s
    else unsigned_int (c ∷ s)

unfoldable pub atoi : CString → ℕ
unfolding skip_space signed_int
atoi s = signed_int (skip_space s)

-- The `int` is greater than 0.
unfoldable pub is_positive : ℕ → Bool
is_positive n = ltb 0 n && ltb n (2 ^ 31)

-- The call goes on, returns -1, or ends the program with 0.
pub data Outcome : Type 0 where
  accepted : ProfilingConfig → Outcome
  rejected : Outcome
  exited : Outcome

-- A value that must be greater than 0.
unfoldable pub positive : ℕ → (ℕ → ProfilingConfig) → Outcome
unfolding is_positive
positive n store = if is_positive n then accepted (store n) else rejected

unfoldable pub with_filter : ProfilingConfig → CString → Outcome
with_filter config mode =
    if same mode (text "user")
    then accepted (record config { filter_mode = filter_user })
    else if same mode (text "kernel")
    then accepted (record config { filter_mode = filter_kernel })
    else if same mode (text "all")
    then accepted (record config { filter_mode = filter_all })
    else rejected

-- At most 65535.
unfoldable pub with_port : ProfilingConfig → ℕ → Outcome
unfolding is_positive
with_port config n =
    if is_positive n && leb n 65535 then accepted (record config { http_port = n }) else rejected

-- At most MAX_PRODUCER_BATCH_SIZE, 4096.
unfoldable pub with_producer_batch : ProfilingConfig → ℕ → Outcome
unfolding is_positive
with_producer_batch config n =
    if is_positive n && leb n 4096
    then accepted (record config { producer_batch_size = n })
    else rejected

-- `strncmp(argv[i], name, n) == 0`
abbrev pub has : String → ℕ → CString → Bool
has name n arg = same_prefix n arg (text name)

-- One pass of the loop over the arguments, in three parts; `allocated` says whether `strdup`
-- succeeds.
-- The first name has 22 bytes: it is found only alone, and what stands in memory behind the 0 of the
-- argument, which `atoi` reads, is taken to be no number.
unfoldable pub parse_database : ProfilingConfig → CString → Outcome
unfolding same_prefix atoi positive with_producer_batch same
parse_database config arg =
    if has "--histogram-threshold=" 24 arg
    then positive (atoi (drop 24 arg)) (λ n. record config { histogram_print_threshold = n })
    else if has "--db-batch-size=" 16 arg
    then positive (atoi (drop 16 arg)) (λ n. record config { db_batch_size = n })
    else if has "--producer-batch-size=" 22 arg
    then with_producer_batch config (atoi (drop 22 arg))
    else if has "--db-entry-pool-size=" 21 arg
    then positive (atoi (drop 21 arg)) (λ n. record config { db_entry_pool_size = n })
    else if same arg (text "--help")
    then exited
    else rejected

unfoldable pub parse_output : Bool → ProfilingConfig → CString → Outcome
unfolding same_prefix atoi with_port same parse_database
parse_output allocated config arg =
    if has "--output-dir=" 13 arg
    then accepted (record config { db_output_dir = drop 13 arg })
    else if has "--http-port=" 12 arg
    then with_port config (atoi (drop 12 arg))
    else if has "--log-dir=" 10 arg
    then (if allocated then accepted (record config { log_output_dir = drop 10 arg }) else rejected)
    else if has "--histogram-log-path=" 21 arg
    then (if allocated
        then accepted (record config { histogram_log_path = some (drop 21 arg) })
        else rejected)
    else if same arg (text "--lbr")
    then accepted (record config { use_lbr = true })
    else parse_database config arg

unfoldable pub parse_option : Bool → ProfilingConfig → CString → Outcome
unfolding same_prefix atoi positive with_filter parse_output
parse_option allocated config arg =
    if has "--frequency=" 12 arg
    then positive (atoi (drop 12 arg)) (λ n. record config { sampling_frequency = n })
    else if has "--filter=" 9 arg
    then with_filter config (drop 9 arg)
    else if has "--sample-pool-size=" 19 arg
    then positive (atoi (drop 19 arg)) (λ n. record config { sample_pool_size = n })
    else if has "--stack-depth=" 14 arg
    then positive (atoi (drop 14 arg)) (λ n. record config { max_stack_depth = n })
    else if has "--cleanup=" 10 arg
    then positive (atoi (drop 10 arg)) (λ n. record config { cleanup_interval = n })
    else parse_output allocated config arg

-- The path has a default.
unfoldable pub with_log_path : Bool → ProfilingConfig → ProfilingConfig
with_log_path allocated config = elim config.histogram_log_path [
  | some path ↦ config
  | none ↦ record config {
    histogram_log_path = if allocated then some (text "log/histogram.log") else none;
  }
]

unfoldable pub and_then : Outcome → (ProfilingConfig → Outcome) → Outcome
and_then (accepted config) next = next config
and_then rejected next = rejected
and_then exited next = exited

unfoldable pub parse_options : Bool → List CString → ProfilingConfig → Outcome
unfolding parse_option with_log_path and_then
parse_options allocated [] config = accepted (with_log_path allocated config)
parse_options allocated (arg ∷ args) config =
    and_then (parse_option allocated config arg) (parse_options allocated args)

-- The arguments behind the name of the program.
unfoldable pub parse_command_line : Bool → List CString → Outcome
unfolding parse_options
parse_command_line allocated args = parse_options allocated args default_config

-- The value returned is 0; `none` is NULL.
unfoldable pub validate_config : Option ProfilingConfig → Bool
unfolding is_positive
validate_config none = false
validate_config (some config) =
    is_positive config.sampling_frequency
    && is_positive config.cleanup_interval
    && is_positive config.http_port
    && leb config.http_port 65535
