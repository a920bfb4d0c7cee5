-- ===== src/HttpServer/Request.antt =====
-- What a request asks for, and the query that SQLite is to answer, both apart from the code.
use profiling.Prelude.{
  ℕ, ◌+◌, ◌*◌, ◌≡◌, refl, ap, ap₂, ◌∙◌, Bool, true, false, ◌&&◌, Option, none, some, List, [], ◌∷◌,
  ◌++◌, ltb, leb, ◌==◌, if◌then◌else◌,
}
use profiling.CString.{CString, text, same}
use profiling.QueryTool.{QueryRow}
use profiling.QueryTool.Values.{has_stack, total_count}
use profiling.HttpServer.{
  HttpRequest, Bindings, server_clauses, server_sql_text, where_clauses_of, bindings_of,
  asked_start, asked_end, number_of, convert_pid, is_some,
}

-- A row of the table call_stacks.
pub record StoredStack : Type 0 where
  pub timestamp : ℕ
  pub pid : ℕ
  pub process_name : CString
  pub full_stack : CString

-- A condition of the clause WHERE.
pub data Condition : Type 0 where
  from_time to_time of_pid of_name : Condition

abbrev pub condition_text : Condition → CString
condition_text from_time = text " AND timestamp >= :start_time"
condition_text to_time = text " AND timestamp <= :end_time"
condition_text of_pid = text " AND pid = :pid"
condition_text of_name = text " AND process_name = :name"

abbrev pub conditions_text : List Condition → CString
conditions_text [] = []
conditions_text (c ∷ cs) = condition_text c ++ conditions_text cs

abbrev pub select_text : List Condition → CString
select_text cs =
    text "SELECT full_stack, COUNT(*) as count FROM call_stacks "
    ++ ((text " WHERE 1=1 " ++ conditions_text cs)
        ++ text " GROUP BY full_stack ORDER BY count DESC;")

-- A comparison with a parameter to which nothing is bound does not hold.
abbrev compare : {A : Type 0} → (A → Bool) → Option A → Bool
compare test none = false
compare test (some x) = test x

abbrev pub holds : Bindings → StoredStack → Condition → Bool
holds b row from_time = compare (λ t. leb t row.timestamp) b.bound_start
holds b row to_time = compare (λ t. leb row.timestamp t) b.bound_end
holds b row of_pid = compare (λ pid. pid == row.pid) b.bound_pid
holds b row of_name = compare (λ name. same name row.process_name) b.bound_name

abbrev pub all_hold : Bindings → StoredStack → List Condition → Bool
all_hold b row [] = true
all_hold b row (c ∷ cs) = holds b row c && all_hold b row cs

-- How many rows of a table have a stack and satisfy a test.
abbrev pub count_rows : (StoredStack → Bool) → CString → List StoredStack → ℕ
count_rows test key [] = 0
count_rows test key (row ∷ table) =
    (if same row.full_stack key && test row then 1 else 0) + count_rows test key table

-- The answer has a row for each stack with matching rows, and the numbers of these rows.
abbrev pub IsGrouped : (StoredStack → Bool) → List StoredStack → Option (List QueryRow) → Type 0
IsGrouped test table none = ⊥
IsGrouped test table (some rows) =
    (key : CString)
    → (has_stack key rows ≡ ltb 0 (count_rows test key table))
      × (total_count key rows ≡ count_rows test key table)

pub count_rows-same :
    (test test' : StoredStack → Bool) (key : CString) (table : List StoredStack)
    → ((row : StoredStack) → test row ≡ test' row)
    → count_rows test key table ≡ count_rows test' key table
count_rows-same test test' key [] h = refl
count_rows-same test test' key (row ∷ table) h =
    ap₂ (λ b n. (if same row.full_stack key && b then 1 else 0) + n) (h row)
      (count_rows-same test test' key table h)

abbrev append_if : Bool → Condition → List Condition → List Condition
append_if true c cs = c ∷ cs
append_if false c cs = cs

abbrev pub chosen : Bool → Bool → Bool → Bool → List Condition
chosen s e p n =
    append_if s from_time (append_if e to_time (append_if p of_pid (append_if n of_name [])))

select_text-chosen :
    (s e p n : Bool) → server_sql_text (server_clauses s e p n) ≡ select_text (chosen s e p n)
unfolding server_sql_text server_clauses
select_text-chosen false false false false = refl
select_text-chosen false false false true = refl
select_text-chosen false false true false = refl
select_text-chosen false false true true = refl
select_text-chosen false true false false = refl
select_text-chosen false true false true = refl
select_text-chosen false true true false = refl
select_text-chosen false true true true = refl
select_text-chosen true false false false = refl
select_text-chosen true false false true = refl
select_text-chosen true false true false = refl
select_text-chosen true false true true = refl
select_text-chosen true true false false = refl
select_text-chosen true true false true = refl
select_text-chosen true true true false = refl
select_text-chosen true true true true = refl

module _ (atoll atoi : CString → ℕ) (now : ℕ) where
  abbrev time_of : Option CString → ℕ → ℕ
  time_of none default = default
  time_of (some s) default = atoll s

  abbrev has_pid : Option CString → StoredStack → Bool
  has_pid none row = true
  has_pid (some s) row = atoi s == row.pid

  abbrev has_name : Option CString → StoredStack → Bool
  has_name none row = true
  has_name (some s) row = same s row.process_name

  -- The rows that a request asks for: not before the second start_time and not after the second
  -- end_time, now by default, where these are above 0; of the process, and of the name, if given.
  abbrev pub is_asked : HttpRequest → StoredStack → Bool
  is_asked r row =
      (if ltb 0 (time_of r.start_time 0)
        then leb (time_of r.start_time 0 * 1000000000) row.timestamp
        else true)
      && ((if ltb 0 (time_of r.end_time now)
            then leb row.timestamp (time_of r.end_time now * 1000000000)
            else true)
          && (has_pid r.pid row && has_name r.name row))

  abbrev pub conditions_of : HttpRequest → List Condition
  conditions_of r =
      chosen (ltb 0 (asked_start atoll atoi now r)) (ltb 0 (asked_end atoll atoi now r))
        (is_some r.pid) (is_some r.name)

  time_of-number_of :
      (s : Option CString) (default : ℕ) → number_of atoll s default ≡ time_of s default
  time_of-number_of none default = refl
  time_of-number_of (some s) default = refl

  abbrev if_chosen : Bool → Bool → Bool
  if_chosen f b = if f then b else true

  all_hold-append_if :
      (b : Bindings) (row : StoredStack) (f : Bool) (c : Condition) (cs : List Condition)
      → all_hold b row (append_if f c cs) ≡ (if_chosen f (holds b row c) && all_hold b row cs)
  all_hold-append_if b row true c cs = refl
  all_hold-append_if b row false c cs = refl

  chosen_time :
      (test : ℕ → Bool) (t : ℕ) (f : Bool)
      → if_chosen f (compare test (if f then some t else none)) ≡ if_chosen f (test t)
  chosen_time test t true = refl
  chosen_time test t false = refl

  chosen_pid :
      (row : StoredStack) (s : Option CString)
      → if_chosen (is_some s) (compare (λ pid. pid == row.pid) (convert_pid atoi s)) ≡ has_pid s row
  chosen_pid row none = refl
  chosen_pid row (some s) = refl

  chosen_name :
      (row : StoredStack) (s : Option CString)
      → (if_chosen (is_some s) (compare (λ name. same name row.process_name) s) && true)
        ≡ has_name s row
  chosen_name row none = refl
  chosen_name row (some s) = and_true (same s row.process_name)
    where
      and_true : (b : Bool) → (b && true) ≡ b
      and_true true = refl
      and_true false = refl

  pub all_hold-is_asked :
      (r : HttpRequest) (row : StoredStack)
      → all_hold (bindings_of atoll atoi now r) row (conditions_of r) ≡ is_asked r row
  unfolding bindings_of
  all_hold-is_asked r row =
      let b = bindings_of atoll atoi now r in
      let start = asked_start atoll atoi now r in
      let end = asked_end atoll atoi now r in
      let last = append_if (is_some r.name) of_name [] in
      let third = append_if (is_some r.pid) of_pid last in
      let second = append_if (ltb 0 end) to_time third in
      let from : ℕ → Bool = λ t. if ltb 0 t then leb (t * 1000000000) row.timestamp else true in
      let to : ℕ → Bool = λ t. if ltb 0 t then leb row.timestamp (t * 1000000000) else true in
      all_hold-append_if b row (ltb 0 start) from_time second
      ∙ ap₂ (λ x y. x && y)
          (chosen_time (λ t. leb t row.timestamp) (start * 1000000000) (ltb 0 start)
            ∙ ap from (time_of-number_of r.start_time 0))
          (all_hold-append_if b row (ltb 0 end) to_time third
            ∙ ap₂ (λ x y. x && y)
                (chosen_time (λ t. leb row.timestamp t) (end * 1000000000) (ltb 0 end)
                  ∙ ap to (time_of-number_of r.end_time now))
                (all_hold-append_if b row (is_some r.pid) of_pid last
                  ∙ ap₂ (λ x y. x && y) (chosen_pid row r.pid)
                      (all_hold-append_if b row (is_some r.name) of_name []
                        ∙ chosen_name row r.name)))

  pub sql-select_text :
      (r : HttpRequest)
      → server_sql_text (where_clauses_of atoll atoi now r) ≡ select_text (conditions_of r)
  unfolding where_clauses_of
  sql-select_text r =
      select_text-chosen (ltb 0 (asked_start atoll atoi now r)) (ltb 0 (asked_end atoll atoi now r))
        (is_some r.pid) (is_some r.name)
