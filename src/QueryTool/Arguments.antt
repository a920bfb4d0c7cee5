-- ===== src/QueryTool/Arguments.antt =====
-- `main` of config/query_tool.c. `atoll` and `atoi` are arguments, for numbers that are not negative.
use profiling.Prelude.{ℕ, Option, none, some, List, [], ◌∷◌, ◌==◌, if◌then◌else◌}
use profiling.CString.{CString, text, same}
use profiling.QueryTool.{Query}

pub record ToolOptions : Type 0 where
  pub db_dir : Option CString
  pub query : Query
  pub server_url : CString

abbrev pub default_options : ToolOptions
default_options = record {
  db_dir = none;
  query = record { start_time = 0; end_time = 0; pid = 0; name = none };
  server_url = text "http://localhost:8081";
}

module _ (atoll atoi : CString → ℕ) where
  -- An option with the argument behind it; `none` is any other argument.
  unfoldable pub set_option : ToolOptions → CString → CString → Option ToolOptions
  unfolding same
  set_option o arg value =
      let q = o.query in
      if same arg (text "--dir")
      then some (record o { db_dir = some value })
      else if same arg (text "--start-time")
      then some (record o { query = record q { start_time = atoll value } })
      else if same arg (text "--end-time")
      then some (record o { query = record q { end_time = atoll value } })
      else if same arg (text "--pid")
      then some (record o { query = record q { pid = atoi value } })
      else if same arg (text "--name")
      then some (record o { query = record q { name = some value } })
      else if same arg (text "--server")
      then some (record o { server_url = value })
      else none

  -- The loop over the arguments; `none` is the end at "--help". An option in the last place is
  -- ignored, as is an argument that is no option.
  unfoldable pub read_args : ToolOptions → List CString → Option ToolOptions
  unfolding set_option same
  read_args o [] = some o
  read_args o (arg ∷ []) = if same arg (text "--help") then none else some o
  read_args o (arg ∷ (value ∷ args)) =
      let others = read_args o (value ∷ args) in
      elim (set_option o arg value) [
        | some o' ↦ read_args o' args
        | none ↦ if same arg (text "--help") then none else others
      ]

pub data ToolRun : Type 0 where
  prints_usage : ToolRun
  historical : CString → Query → ToolRun
  live : CString → Query → ToolRun

unfoldable pub choose_mode : ToolOptions → Option CString → ToolRun
choose_mode o none = live o.server_url o.query
choose_mode o (some db_dir) = historical db_dir o.query

-- `now` is the time that stands for an end that is 0.
unfoldable pub run_tool : (CString → ℕ) → (CString → ℕ) → ℕ → List CString → ToolRun
unfolding read_args choose_mode
run_tool atoll atoi now args = elim (read_args atoll atoi default_options args) [
  | none ↦ prints_usage
  | some o ↦
      let q = o.query in
      choose_mode
        (record o { query = record q { end_time = if q.end_time == 0 then now else q.end_time } })
        o.db_dir
]
