-- ===== src/Config/Valid.antt =====
-- The configurations that `parse_command_line` accepts.
use mathlib.Core.Path.{subst}
use profiling.Prelude.{
  ℕ, ◌^◌, ◌≤◌, ◌<◌, ◌≡◌, Bool, true, ◌&&◌, Bool-cases, inl, inr, some, List, [], ◌∷◌, arith, ltb,
  leb, drop, Option-cases,
}
use profiling.CString.{CString, same, text}
use profiling.Config.{
  ProfilingConfig, default_config, atoi, is_positive, Outcome, accepted, rejected, exited, positive,
  with_filter, with_port, with_producer_batch, parse_option, parse_output, parse_database,
  with_log_path, and_then, parse_options, parse_command_line, validate_config, has,
}

-- Greater than 0, as an `int`.
abbrev IsPositive : ℕ → Type 0
IsPositive n = (0 < n) × (n < 2 ^ 31)

abbrev pub IsConfig : ProfilingConfig → Type 0
IsConfig config =
    IsPositive config.sampling_frequency
    × IsPositive config.cleanup_interval
    × IsPositive config.max_stack_depth
    × IsPositive config.sample_pool_size
    × ((0 < config.http_port) × (config.http_port ≤ 65535))
    × IsPositive config.histogram_print_threshold
    × IsPositive config.db_batch_size
    × ((0 < config.producer_batch_size) × (config.producer_batch_size ≤ 4096))
    × IsPositive config.db_entry_pool_size

-- A configuration that is accepted is well formed.
abbrev pub Accepts : Outcome → Type 0
Accepts (accepted config) = IsConfig config
Accepts rejected = Unit
Accepts exited = Unit

positive-Accepts :
    (n : ℕ) (store : ℕ → ProfilingConfig)
    → (IsPositive n → IsConfig (store n))
    → Accepts (positive n store)
unfolding positive is_positive
positive-Accepts n store h = elim (Bool-cases (ltb 0 n && ltb n (2 ^ 31))) [
  | inl yes_ ↦ rw yes_ (h (ground arith))
  | inr no_ ↦ rw no_ tt
]

with_filter-Accepts :
    (config : ProfilingConfig) (mode : CString)
    → IsConfig config
    → Accepts (with_filter config mode)
unfolding with_filter
with_filter-Accepts config mode h = ground (arith, h)

with_port-Accepts :
    (config : ProfilingConfig) (n : ℕ) → IsConfig config → Accepts (with_port config n)
unfolding with_port is_positive
with_port-Accepts config n h = elim (Bool-cases ((ltb 0 n && ltb n (2 ^ 31)) && leb n 65535)) [
  | inl yes_ ↦ rw yes_ (h.0, h.1, h.2, h.3, ground arith, h.5, h.6, h.7, h.8)
  | inr no_ ↦ rw no_ tt
]

with_producer_batch-Accepts :
    (config : ProfilingConfig) (n : ℕ) → IsConfig config → Accepts (with_producer_batch config n)
unfolding with_producer_batch is_positive
with_producer_batch-Accepts config n h =
    elim (Bool-cases ((ltb 0 n && ltb n (2 ^ 31)) && leb n 4096)) [
      | inl yes_ ↦ rw yes_ (h.0, h.1, h.2, h.3, h.4, h.5, h.6, ground arith, h.8)
      | inr no_ ↦ rw no_ tt
    ]

parse_database-Accepts :
    (config : ProfilingConfig) (arg : CString)
    → IsConfig config
    → Accepts (parse_database config arg)
unfolding parse_database
parse_database-Accepts config arg (h0, h1, h2, h3, h4, h5, h6, h7, h8) =
    let threshold =
      positive-Accepts (atoi (drop 24 arg)) (λ n. record config { histogram_print_threshold = n })
        (λ p. (h0, h1, h2, h3, h4, p, h6, h7, h8)) in
    let db_batch =
      positive-Accepts (atoi (drop 16 arg)) (λ n. record config { db_batch_size = n })
        (λ p. (h0, h1, h2, h3, h4, h5, p, h7, h8)) in
    let entries =
      positive-Accepts (atoi (drop 21 arg)) (λ n. record config { db_entry_pool_size = n })
        (λ p. (h0, h1, h2, h3, h4, h5, h6, h7, p)) in
    let producer =
      with_producer_batch-Accepts config (atoi (drop 22 arg))
        (h0, h1, h2, h3, h4, h5, h6, h7, h8) in
    elim (Bool-cases (has "--histogram-threshold=" 24 arg)) [
      | inl e ↦ rw e (threshold)
      | inr e0 ↦ rw e0 (elim (Bool-cases (has "--db-batch-size=" 16 arg)) [
        | inl e ↦ rw e (db_batch)
        | inr e1 ↦ rw e1 (elim (Bool-cases (has "--producer-batch-size=" 22 arg)) [
          | inl e ↦ rw e (producer)
          | inr e2 ↦ rw e2 (elim (Bool-cases (has "--db-entry-pool-size=" 21 arg)) [
            | inl e ↦ rw e (entries)
            | inr e3 ↦ rw e3 (elim (Bool-cases (same arg (text "--help"))) [
              | inl e ↦ rw e (tt)
              | inr e4 ↦ rw e4 (tt)
            ])
          ])
        ])
      ])
    ]

parse_output-Accepts :
    (allocated : Bool) (config : ProfilingConfig) (arg : CString)
    → IsConfig config
    → Accepts (parse_output allocated config arg)
unfolding parse_output
parse_output-Accepts allocated config arg h =
    let port = with_port-Accepts config (atoi (drop 12 arg)) h in
    let others = parse_database-Accepts config arg h in
    elim (Bool-cases (has "--output-dir=" 13 arg)) [
      | inl e ↦ rw e (h)
      | inr e0 ↦ rw e0 (elim (Bool-cases (has "--http-port=" 12 arg)) [
        | inl e ↦ rw e (port)
        | inr e1 ↦ rw e1 (elim (Bool-cases (has "--log-dir=" 10 arg)) [
          | inl e ↦ rw e (elim (Bool-cases allocated) [ inl a ↦ rw a h | inr a ↦ rw a tt ])
          | inr e2 ↦ rw e2 (elim (Bool-cases (has "--histogram-log-path=" 21 arg)) [
            | inl e ↦ rw e (elim (Bool-cases allocated) [ inl a ↦ rw a h | inr a ↦ rw a tt ])
            | inr e3 ↦ rw e3 (elim (Bool-cases (same arg (text "--lbr"))) [
              | inl e ↦ rw e (h)
              | inr e4 ↦ rw e4 (others)
            ])
          ])
        ])
      ])
    ]

parse_option-Accepts :
    (allocated : Bool) (config : ProfilingConfig) (arg : CString)
    → IsConfig config
    → Accepts (parse_option allocated config arg)
unfolding parse_option
parse_option-Accepts allocated config arg (h0, h1, h2, h3, h4, h5, h6, h7, h8) =
    let frequency =
      positive-Accepts (atoi (drop 12 arg)) (λ n. record config { sampling_frequency = n })
        (λ p. (p, h1, h2, h3, h4, h5, h6, h7, h8)) in
    let samples =
      positive-Accepts (atoi (drop 19 arg)) (λ n. record config { sample_pool_size = n })
        (λ p. (h0, h1, h2, p, h4, h5, h6, h7, h8)) in
    let depth =
      positive-Accepts (atoi (drop 14 arg)) (λ n. record config { max_stack_depth = n })
        (λ p. (h0, h1, p, h3, h4, h5, h6, h7, h8)) in
    let cleanup =
      positive-Accepts (atoi (drop 10 arg)) (λ n. record config { cleanup_interval = n })
        (λ p. (h0, p, h2, h3, h4, h5, h6, h7, h8)) in
    let filter = with_filter-Accepts config (drop 9 arg) (h0, h1, h2, h3, h4, h5, h6, h7, h8) in
    let others = parse_output-Accepts allocated config arg (h0, h1, h2, h3, h4, h5, h6, h7, h8) in
    elim (Bool-cases (has "--frequency=" 12 arg)) [
      | inl e ↦ rw e (frequency)
      | inr e0 ↦ rw e0 (elim (Bool-cases (has "--filter=" 9 arg)) [
        | inl e ↦ rw e (filter)
        | inr e1 ↦ rw e1 (elim (Bool-cases (has "--sample-pool-size=" 19 arg)) [
          | inl e ↦ rw e (samples)
          | inr e2 ↦ rw e2 (elim (Bool-cases (has "--stack-depth=" 14 arg)) [
            | inl e ↦ rw e (depth)
            | inr e3 ↦ rw e3 (elim (Bool-cases (has "--cleanup=" 10 arg)) [
              | inl e ↦ rw e (cleanup)
              | inr e4 ↦ rw e4 (others)
            ])
          ])
        ])
      ])
    ]

with_log_path-IsConfig :
    (allocated : Bool) (config : ProfilingConfig)
    → IsConfig config
    → IsConfig (with_log_path allocated config)
unfolding with_log_path
with_log_path-IsConfig allocated config h = elim (Option-cases config.histogram_log_path) [
  | inl none_given ↦ rw (none_given, with_log_path) h
  | inr (path, given) ↦ rw (given, with_log_path) h
]

and_then-Accepts :
    (outcome : Outcome) (next : ProfilingConfig → Outcome)
    → Accepts outcome
    → ((config : ProfilingConfig) → IsConfig config → Accepts (next config))
    → Accepts (and_then outcome next)
unfolding and_then
and_then-Accepts (accepted config) next h k = k config h
and_then-Accepts rejected next h k = h
and_then-Accepts exited next h k = h

parse_options-Accepts :
    (allocated : Bool) (args : List CString) (config : ProfilingConfig)
    → IsConfig config
    → Accepts (parse_options allocated args config)
unfolding parse_options
parse_options-Accepts allocated [] config h = with_log_path-IsConfig allocated config h
parse_options-Accepts allocated (arg ∷ args) config h =
    and_then-Accepts (parse_option allocated config arg) (parse_options allocated args)
      (parse_option-Accepts allocated config arg h) (parse_options-Accepts allocated args)

-- Whatever the arguments: a configuration that parse_command_line accepts has only values greater
-- than 0, a port up to 65535 and a producer batch up to 4096.
pub parse_command_line-Accepts :
    (allocated : Bool) (args : List CString) → Accepts (parse_command_line allocated args)
unfolding parse_command_line
parse_command_line-Accepts allocated args =
    parse_options-Accepts allocated args default_config (omega arith)

-- validate_config accepts every configuration that parse_command_line accepts.
pub validate_config-parse_command_line :
    (allocated : Bool) (args : List CString) (config : ProfilingConfig)
    → parse_command_line allocated args ≡ accepted config
    → validate_config (some config) ≡ true
unfolding validate_config is_positive
validate_config-parse_command_line allocated args config e =
    let h : IsConfig config = subst Accepts e (parse_command_line-Accepts allocated args) in
    ground (arith, h.0, h.1, h.4)
