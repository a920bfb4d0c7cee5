-- ===== src/Config/Tests.antt =====
-- Some command lines, and the theorems at them.
use profiling.Prelude.{◌≡◌, refl, true, false, some, List, [], ◌∷◌}
use profiling.CString.{CString, text}
use profiling.Config.{
  ProfilingConfig, default_config, filter_kernel, accepted, rejected, exited, parse_command_line,
}
use profiling.Config.Valid.{Accepts, parse_command_line-Accepts}

abbrev args : List CString
args = text "--frequency=99" ∷ text "--filter=kernel" ∷ text "--lbr" ∷ text "--http-port=80" ∷ []

abbrev config : ProfilingConfig
config = record default_config {
  sampling_frequency = 99;
  filter_mode = filter_kernel;
  use_lbr = true;
  http_port = 80;
  histogram_log_path = some (text "log/histogram.log");
}

parses : parse_command_line true args ≡ accepted config
unfolding parse_command_line
parses = refl

refuses :
    (parse_command_line true (text "--frequency=-1" ∷ []) ≡ rejected)
    × (parse_command_line true (text "--http-port=65536" ∷ []) ≡ rejected)
    × (parse_command_line true (text "--mode=system" ∷ []) ≡ rejected)
    × (parse_command_line false (text "--log-dir=/tmp" ∷ []) ≡ rejected)
    × (parse_command_line true (text "--help" ∷ text "--none" ∷ []) ≡ exited)
unfolding parse_command_line
refuses = (refl, refl, refl, refl, refl)

parse_command_line-Accepts_example : Accepts (parse_command_line true args)
parse_command_line-Accepts_example = parse_command_line-Accepts true args
