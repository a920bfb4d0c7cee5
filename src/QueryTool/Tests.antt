-- ===== src/QueryTool/Tests.antt =====
-- Queries of two hours, and uses of the theorems.
use profiling.Prelude.{
  ℕ, ◌<◌, ◌+◌, ◌/◌, ◌≡◌, ◌≤◌, refl, none, some, [], ◌∷◌, arith, if◌then◌else◌, length, replicate,
}
use profiling.CString.{CString, text, same}
use profiling.QueryTool.{
  Query, HourAnswer, no_file, answers, rows_of, hash_key, where_clauses, historical_sql,
  perform_historical_query,
}
use profiling.QueryTool.Values.{values_of, total_count}
use profiling.QueryTool.Hours.{historical_query-rows_between, historical_query-covers}
use profiling.QueryTool.Request.{query_params, request_url, terminator_index, print_answer}
use profiling.QueryTool.Arguments.{historical, prints_usage, run_tool}
use profiling.QueryTool.Live.{terminator_index_outside}

hashes : (hash_key (text "") ≡ 1285) × (hash_key (text "ab") ≡ 1832)
unfolding hash_key
hashes = (refl, refl)

abbrev query : Query
query = record { start_time = 7300; end_time = 10900; pid = 7; name = none }

-- The files of the third and the fourth hour; there is no other.
abbrev db_path : ℕ → CString
db_path t = (48 + t / 3600) ∷ text ".db"

abbrev database : CString → CString → HourAnswer
database path sql =
    if same path (text "2.db")
    then answers
        ((some (text "a;b"), 2) ∷ (none, 5) ∷ (some (text "c"), 1) ∷ (some (text "a;b"), 3) ∷ [])
    else if same path (text "3.db")
    then answers ((some (text "a;b"), 4) ∷ [])
    else no_file

clauses :
    where_clauses query
    ≡ text " WHERE 1=1  AND timestamp >= 7300000000000 AND timestamp <= 10900000000000 AND pid = 7"
unfolding where_clauses
clauses = refl

historical_query-rows_between_example :
    values_of (text "a;b") (perform_historical_query db_path database query) ≡ 9 ∷ []
unfolding rows_of same
historical_query-rows_between_example =
    historical_query-rows_between db_path database query (text "a;b")

counted : 0 < total_count (text "a;b") (rows_of (database (db_path 10850) (historical_sql query)))
unfolding rows_of same
counted = omega arith

historical_query-covers_example :
    (total : ℕ) × (values_of (text "a;b") (perform_historical_query db_path database query)
      ≡ total ∷ [])
    × (total_count (text "a;b") (rows_of (database (db_path 10850) (historical_sql query))) ≤ total)
historical_query-covers_example =
    historical_query-covers db_path database query (text "a;b") 10850 (omega arith) (omega arith)
      refl counted

requests :
    (request_url (text "http://localhost:8081") query
      ≡ text "http://localhost:8081/query?start_time=7300&end_time=10900&pid=7")
    × (query_params (record { start_time = 0; end_time = 5; pid = 0; name = some (text "sh") })
        ≡ text "?end_time=5&name=sh")
unfolding request_url query_params
requests = (refl, refl)

abbrev long_name : Query
long_name = record query { name = some (replicate 506 b'x') }

terminator_index_outside_example : (i : ℕ) × (terminator_index long_name ≡ some i) × (512 ≤ i)
terminator_index_outside_example =
    terminator_index_outside long_name (replicate 506 b'x') refl (omega arith)

answer :
    print_answer (
      some (
        (some (text "a"), some 2)
        ∷ (none, some 1)
        ∷ (some (text "b"), none)
        ∷ (some (text "a"), some 3)
        ∷ []))
    ≡ record { key = text "a"; value = 5 } ∷ []
unfolding print_answer
answer = refl

modes :
    (run_tool length length 99 (text "--dir" ∷ text "/db" ∷ text "x" ∷ text "--end-time" ∷ [])
      ≡ historical (text "/db") (record { start_time = 0; end_time = 99; pid = 0; name = none }))
    × (run_tool length length 99 (text "--pid" ∷ text "--help" ∷ text "--help" ∷ []) ≡ prints_usage)
unfolding run_tool
modes = (refl, refl)
