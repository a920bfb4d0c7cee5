-- ===== src/Startup/Failure.antt =====
-- What a start that fails leaves behind.
use profiling.Prelude.{
  ℕ, ◌+◌, ◌≡◌, ◌≢◌, ◌⊎◌, inl, inr, refl, Bool, true, false, some, List, [], ◌∷◌, ◌++◌, arith,
  if◌then◌else◌, Bool-cases,
}
use profiling.CString.{CString}
use profiling.Config.{
  ProfilingConfig, Outcome, accepted, rejected, exited, parse_command_line, validate_config,
}
use profiling.Config.Valid.{validate_config-parse_command_line}
use profiling.Startup.{
  Part, log_file, http_server, BootAction, starts, stops, Boot, validation, Stage, MainRun, exits,
  loops, run_stages, stages, after_arguments, main_run,
}

module _ (p : Part → Bool) where
  abbrev pub times_started : List BootAction → ℕ
  times_started [] = 0
  times_started (starts part ∷ actions) = (if p part then 1 else 0) + times_started actions
  times_started (stops part ∷ actions) = times_started actions

  abbrev pub times_stopped : List BootAction → ℕ
  times_stopped [] = 0
  times_stopped (starts part ∷ actions) = times_stopped actions
  times_stopped (stops part ∷ actions) = (if p part then 1 else 0) + times_stopped actions

  -- Where `main` ends it does not end in the validation, and has stopped what it started; where it
  -- loops it has stopped nothing.
  abbrev pub Ends : MainRun → Type 0
  Ends (exits name code actions) =
      (name ≢ validation) × (times_started actions ≡ times_stopped actions)
  Ends (loops actions) = times_stopped actions ≡ 0

  -- A stage that fails, where it can, has stopped what was started.
  abbrev AllUndone : List BootAction → List Stage → Type 0
  AllUndone actions [] = times_stopped actions ≡ 0
  AllUndone actions (stage ∷ stages) =
      ((stage.ok ≡ true) ⊎ Ends (exits stage.name 1 (actions ++ stage.undo)))
      × AllUndone (actions ++ stage.started) stages

  run_stages-Ends :
      (actions : List BootAction) (stages : List Stage)
      → AllUndone actions stages
      → Ends (run_stages actions stages)
  unfolding run_stages
  run_stages-Ends actions [] h = h
  run_stages-Ends actions (stage ∷ stages) h = elim (Bool-cases stage.ok) [
    | inl e ↦ simp e (run_stages-Ends (actions ++ stage.started) stages h.1)
    | inr e ↦ simp e (failing h.0 e)
  ]
    where
      failing : {P : Type 0} → (stage.ok ≡ true) ⊎ P → stage.ok ≡ false → P
      failing (inl t) f = cc
      failing (inr x) f = x

  module _ (no_log : p log_file ≡ false) (no_http : p http_server ≡ false) (boot : Boot) where
    stages-AllUndone :
        (config : ProfilingConfig)
        → validate_config (some config) ≡ true
        → AllUndone [] (stages boot config)
    unfolding stages
    stages-AllUndone config valid = (
      inr ((λ e. cc), refl),
      (
        inr ((λ e. cc), rw no_log refl),
        (
          inl valid,
          (
            inr ((λ e. cc), rw no_log refl),
            (
              inr ((λ e. cc), rw no_log (omega arith)),
              (
                inr ((λ e. cc), rw (no_log, no_http) (omega arith)),
                (
                  inr ((λ e. cc), rw (no_log, no_http) (omega arith)),
                  (
                    inr ((λ e. cc), rw (no_log, no_http) (omega arith)),
                    (inr ((λ e. cc), rw (no_log, no_http) (omega arith)), refl),
                  ),
                ),
              ),
            ),
          ),
        ),
      ),
    )

    after_arguments-Ends :
        (outcome : Outcome)
        → ((config : ProfilingConfig)
            → outcome ≡ accepted config
            → validate_config (some config) ≡ true)
        → Ends (after_arguments boot outcome)
    unfolding after_arguments
    after_arguments-Ends (accepted config) valid =
        run_stages-Ends [] (stages boot config) (stages-AllUndone config (valid config refl))
    after_arguments-Ends rejected valid = ((λ e. cc), refl)
    after_arguments-Ends exited valid = ((λ e. cc), refl)

    -- For the parts with `p`, which are neither the log file nor the HTTP server, whatever the
    -- arguments and whichever stage fails: where main ends, it stops the parts as often as it starts
    -- them, and it does not end because the configuration is invalid; where it comes to main_loop it
    -- has stopped nothing.
    pub main_run-Ends : (args : List CString) → Ends (main_run boot args)
    unfolding main_run
    main_run-Ends args =
        after_arguments-Ends (parse_command_line boot.strdup args)
          (validate_config-parse_command_line boot.strdup args)
