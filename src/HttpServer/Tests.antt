-- ===== src/HttpServer/Tests.antt =====
-- Requests, and the theorem at one.
use mathlib.Core.Path.{subst}
use profiling.Prelude.{
  ℕ, zero, suc, ◌+◌, ◌<◌, ◌≡◌, refl, sym, ap, ◌∙◌, Bool, true, none, some, Option, List, [], ◌∷◌,
  ◌++◌, ◌==◌, if◌then◌else◌, ltb, lt→ltb, Bool-cases, inl, inr, arith, get_or, drop, length,
}
use profiling.CString.{CString, text, same}
use profiling.HttpServer.{
  HttpRequest, Bindings, Body, error_page, stacks, request_handler, where_clauses_of,
}
use profiling.HttpServer.Client.{items_of, print_answer-request_handler}
use profiling.HttpServer.Request.{
  StoredStack, Condition, from_time, to_time, of_pid, of_name, conditions_text, select_text,
  all_hold, count_rows, IsGrouped,
}
use profiling.QueryTool.{QueryRow}
use profiling.QueryTool.Request.{JsonItem, print_answer}
use profiling.QueryTool.Values.{values_of}

abbrev request : HttpRequest
request = record {
  method = text "GET";
  url = text "/query";
  start_time = none;
  end_time = some (text "xx");
  pid = some (text "7");
  name = none;
}

-- A number written with so many bytes.
abbrev number_of_bytes : CString → ℕ
number_of_bytes s = length s

abbrev seven : HttpRequest
seven = record request { pid = some (text "+++++++") }

abbrev query : CString → Bindings → Option (List QueryRow)
query sql bindings = some ((some (text "a"), 2) ∷ (some (text "b"), 1) ∷ [])

responses :
    (where_clauses_of length length 9 request
      ≡ text " WHERE 1=1  AND timestamp <= :end_time AND pid = :pid")
    × (request_handler length length 9 (some query) request
        ≡ record { status = 200; body = stacks ((some (text "a"), 2) ∷ (some (text "b"), 1) ∷ []) })
    × (request_handler length length 9 none request
        ≡ record { status = 500; body = error_page (text "Database not available") })
    × (request_handler length length 9 (some query) (record request { method = text "POST" })
        ≡ record { status = 404; body = error_page (text "Not Found") })
unfolding request_handler where_clauses_of
responses = (refl, refl, refl, refl)

abbrev sent : Body → Option (List JsonItem)
sent (stacks rows) = some (items_of rows)
sent (error_page message) = some ((none, none) ∷ [])

-- An SQLite that reads the conditions of a query by single bytes.
abbrev read_conditions : ℕ → CString → List Condition
read_conditions zero s = []
read_conditions (suc fuel) s =
    let name = read_conditions fuel (drop 25 s) in
    let pid = read_conditions fuel (drop 15 s) in
    let to = read_conditions fuel (drop 27 s) in
    let from = read_conditions fuel (drop 29 s) in
    if get_or s 1 0 == b'G'
    then []
    else if get_or s 6 0 == b'r'
    then of_name ∷ name
    else if get_or s 5 0 == b'p'
    then of_pid ∷ pid
    else if get_or s 15 0 == b'<'
    then to_time ∷ to
    else from_time ∷ from

abbrev group_by : CString
group_by = text " GROUP BY full_stack ORDER BY count DESC;"

read_conditions-text :
    (cs : List Condition) (fuel : ℕ)
    → length cs < fuel
    → read_conditions fuel (conditions_text cs ++ group_by) ≡ cs
read_conditions-text cs zero h = absurd (omega arith)
read_conditions-text [] (suc fuel) h = refl
read_conditions-text (from_time ∷ cs) (suc fuel) h =
    ap (λ l. from_time ∷ l) (read_conditions-text cs fuel (omega arith))
read_conditions-text (to_time ∷ cs) (suc fuel) h =
    ap (λ l. to_time ∷ l) (read_conditions-text cs fuel (omega arith))
read_conditions-text (of_pid ∷ cs) (suc fuel) h =
    ap (λ l. of_pid ∷ l) (read_conditions-text cs fuel (omega arith))
read_conditions-text (of_name ∷ cs) (suc fuel) h =
    ap (λ l. of_name ∷ l) (read_conditions-text cs fuel (omega arith))

length-conditions : (cs : List Condition) → length cs < length (conditions_text cs ++ group_by)
length-conditions [] = omega arith
length-conditions (from_time ∷ cs) = omega (arith, length-conditions cs)
length-conditions (to_time ∷ cs) = omega (arith, length-conditions cs)
length-conditions (of_pid ∷ cs) = omega (arith, length-conditions cs)
length-conditions (of_name ∷ cs) = omega (arith, length-conditions cs)

abbrev matching : (StoredStack → Bool) → List StoredStack → List QueryRow
matching test [] = []
matching test (row ∷ table) =
    if test row then (some row.full_stack, 1) ∷ matching test table else matching test table

one_more : (n : ℕ) → true ≡ ltb 0 (1 + n)
one_more n = sym (lt→ltb 0 (1 + n) (omega arith))

matching-IsGrouped :
    (test : StoredStack → Bool) (table : List StoredStack)
    → IsGrouped test table (some (matching test table))
matching-IsGrouped test [] key = (refl, refl)
matching-IsGrouped test (row ∷ table) key =
    let ih = matching-IsGrouped test table key in
    elim (Bool-cases (test row)) [
      | inl t ↦ elim (Bool-cases (same row.full_stack key)) [
        | inl e ↦ rw (t, e) (one_more (count_rows test key table), ap (λ n. 1 + n) ih.1)
        | inr e ↦ rw (t, e) (ih.0 ∙ ap (ltb 0) (omega arith), ap (λ n. 0 + n) ih.1)
      ]
      | inr t ↦ elim (Bool-cases (same row.full_stack key)) [
        | inl e ↦ rw (t, e) (ih.0 ∙ ap (ltb 0) (omega arith), ih.1 ∙ omega arith)
        | inr e ↦ rw (t, e) (ih.0 ∙ ap (ltb 0) (omega arith), ih.1 ∙ omega arith)
      ]
    ]

abbrev table : List StoredStack
table =
    record { timestamp = 500; pid = 7; process_name = text "sh"; full_stack = text "a" }
    ∷ record { timestamp = 600; pid = 8; process_name = text "sh"; full_stack = text "a" }
    ∷ record { timestamp = 700; pid = 7; process_name = text "cat"; full_stack = text "a" }
    ∷ []

abbrev engine : CString → Bindings → Option (List QueryRow)
engine sql b =
    let conditions = drop 65 sql in
    some (matching (λ row. all_hold b row (read_conditions (length conditions) conditions)) table)

after_where : (cs : List Condition) → drop 65 (select_text cs) ≡ conditions_text cs ++ group_by
after_where cs = refl

engine-IsGrouped :
    (cs : List Condition) (b : Bindings)
    → IsGrouped (λ row. all_hold b row cs) table (engine (select_text cs) b)
engine-IsGrouped cs b =
    subst
      (λ l.
        IsGrouped (λ row. all_hold b row cs) table
          (some (matching (λ row. all_hold b row l) table)))
      (sym (
        ap (λ t. read_conditions (length t) t) (after_where cs)
        ∙ read_conditions-text cs (length (conditions_text cs ++ group_by)) (length-conditions cs)))
      (matching-IsGrouped (λ row. all_hold b row cs) table)

-- Two of the rows are of pid 7.
print_answer-request_handler_example :
    values_of (text "a") (
      print_answer
        (sent (request_handler number_of_bytes number_of_bytes 9 (some engine) seven).body))
    ≡ 2 ∷ []
unfolding same
print_answer-request_handler_example =
    print_answer-request_handler number_of_bytes number_of_bytes 9 sent engine table seven
      (text "a") (λ rows. refl) engine-IsGrouped refl refl
