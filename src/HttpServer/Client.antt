-- ===== src/HttpServer/Client.antt =====
-- The server and the client of config/query_tool.c together: what is printed of an answer.
use profiling.Prelude.{
  ℕ, ◌+◌, ◌||◌, ◌≡◌, refl, ap, ap₂, ◌∙◌, ltb, Bool, true, Option, none, some, List, [], ◌∷◌, map,
  arith, if◌then◌else◌, take, take-all,
}
use profiling.CString.{CString, text, same, same_refl}
use profiling.HttpServer.{
  HttpRequest, Bindings, Body, stacks, server_sql_text, where_clauses_of, bindings_of, rows_or_none,
  answer_query, request_handler, asked_start, asked_end, is_some,
}
use profiling.HttpServer.Request.{
  StoredStack, Condition, select_text, all_hold, count_rows, count_rows-same, IsGrouped, is_asked,
  conditions_of, all_hold-is_asked, sql-select_text,
}
use profiling.HttpServer.Sizes.{server_clauses_fit}
use profiling.QueryTool.{QueryRow}
use profiling.QueryTool.Values.{values_of, has_stack, total_count}
use profiling.QueryTool.Aggregate.{values_of-insert_rows}
use profiling.QueryTool.Request.{JsonItem, rows_of_items, print_answer}

-- The items of an array: a stack, which may be missing, and a count each.
abbrev pub items_of : List QueryRow → List JsonItem
items_of rows = map (λ (row : QueryRow). (row.0, some row.1)) rows

-- The rows that the client reads in them have the same stacks and sums.
read_back :
    (key : CString) (rows : List QueryRow)
    → (has_stack key (rows_of_items (items_of rows)) ≡ has_stack key rows)
      × (total_count key (rows_of_items (items_of rows)) ≡ total_count key rows)
unfolding rows_of_items
read_back key [] = (refl, refl)
read_back key ((none, count) ∷ rows) = read_back key rows
read_back key ((some stack, count) ∷ rows) =
    let (there, sum) = read_back key rows in
    (ap (λ b. same stack key || b) there, ap (λ n. (if same stack key then count else 0) + n) sum)

abbrev counted : ℕ → List ℕ
counted n = if ltb 0 n then n ∷ [] else []

module _ (atoll atoi : CString → ℕ) (now : ℕ) where
  -- The query is not cut.
  whole_sql :
      (r : HttpRequest)
      → take 1023 (server_sql_text (where_clauses_of atoll atoi now r))
        ≡ server_sql_text (where_clauses_of atoll atoi now r)
  unfolding where_clauses_of
  whole_sql r =
      let fits =
        server_clauses_fit (ltb 0 (asked_start atoll atoi now r))
          (ltb 0 (asked_end atoll atoi now r)) (is_some r.pid) (is_some r.name) in
      take-all 1023 (server_sql_text (where_clauses_of atoll atoi now r)) (omega (arith, fits.1))

  answered :
      (r : HttpRequest) (table : List StoredStack) (key : CString)
      (sent : Body → Option (List JsonItem)) (found : Option (List QueryRow))
      → ((rows : List QueryRow) → sent (stacks rows) ≡ some (items_of rows))
      → IsGrouped
          (λ row. all_hold (bindings_of atoll atoi now r) row (conditions_of atoll atoi now r))
          table
          found
      → values_of key (print_answer (sent (stacks (rows_or_none found))))
        ≡ counted (count_rows (is_asked atoll atoi now r) key table)
  unfolding rows_or_none print_answer
  answered r table key sent none delivered grouped = absurd grouped
  answered r table key sent (some rows) delivered grouped =
      let held : StoredStack → Bool =
        λ row. all_hold (bindings_of atoll atoi now r) row (conditions_of atoll atoi now r) in
      let (there, sum) = grouped key in
      let (there', sum') = read_back key rows in
      let asked =
        count_rows-same held (is_asked atoll atoi now r) key table
          (all_hold-is_asked atoll atoi now r) in
      ap (λ items. values_of key (print_answer items)) (delivered rows)
      ∙ values_of-insert_rows (rows_of_items (items_of rows)) key
      ∙ ap₂ (λ b n. if b then n ∷ [] else []) (there' ∙ there) (sum' ∙ sum)
      ∙ ap counted asked

  -- For a request GET /query to a server with a database, where SQLite answers a query with the rows
  -- of `table` that satisfy its conditions, grouped by their stacks, cJSON reads in the body of the
  -- answer what it printed, and libcurl delivers it: the client prints a stack once, with the number
  -- of the rows with this stack that the request asks for by its times, its pid and its name, and
  -- does not print it where there are none; memory for the entries provided.
  pub print_answer-request_handler :
      (sent : Body → Option (List JsonItem)) (query : CString → Bindings → Option (List QueryRow))
      (table : List StoredStack) (r : HttpRequest) (key : CString)
      → ((rows : List QueryRow) → sent (stacks rows) ≡ some (items_of rows))
      → ((cs : List Condition) (b : Bindings)
          → IsGrouped (λ row. all_hold b row cs) table (query (select_text cs) b))
      → r.method ≡ text "GET"
      → r.url ≡ text "/query"
      → values_of key (print_answer (sent (request_handler atoll atoi now (some query) r).body)) ≡ (
          if ltb 0 (count_rows (is_asked atoll atoi now r) key table)
          then count_rows (is_asked atoll atoi now r) key table ∷ []
          else [])
  unfolding request_handler answer_query
  print_answer-request_handler sent query table r key delivered sqlite get path =
      let is_get : same r.method (text "GET") ≡ true =
        ap (λ m. same m (text "GET")) get ∙ same_refl (text "GET") in
      let is_query : same r.url (text "/query") ≡ true =
        ap (λ u. same u (text "/query")) path ∙ same_refl (text "/query") in
      let b = bindings_of atoll atoi now r in
      let cs = conditions_of atoll atoi now r in
      let sql = whole_sql r ∙ sql-select_text atoll atoi now r in
      rw (is_get, is_query)
        (ap
            (λ text_of_query.
              values_of key (print_answer (sent (stacks (rows_or_none (query text_of_query b))))))
            sql
          ∙ answered r table key sent (query (select_text cs) b) delivered (sqlite cs b))
