-- ===== src/QueryTool/Hours.antt =====
-- Which files a query reads, and what it prints of them.
use profiling.Prelude.{
  ℕ, zero, suc, ◌+◌, ◌-◌, ◌*◌, ◌/◌, ◌%◌, ◌≤◌, ◌<◌, ◌≡◌, refl, sym, ap, ◌∙◌, true, none, some, List,
  [], ◌∷◌, ◌++◌, arith, leb, if◌then◌else◌, Bool-cases, inl, inr, ℕ_discrete,
}
use profiling.CString.{CString, same}
use profiling.QueryTool.{
  HashTable, QueryRow, Query, HourAnswer, rows_of, insert_rows, ht_create, ht_foreach, query_hours,
  historical_sql, perform_historical_query,
}
use profiling.QueryTool.Values.{values_of, has_stack, total_count}
use profiling.QueryTool.Aggregate.{values_of-insert_rows}

insert_rows-append :
    (xs ys : List QueryRow) (table : HashTable)
    → insert_rows table (xs ++ ys) ≡ insert_rows (insert_rows table xs) ys
unfolding insert_rows
insert_rows-append [] ys table = refl
insert_rows-append ((none, count) ∷ xs) ys table = insert_rows-append xs ys table
insert_rows-append ((some stack, count) ∷ xs) ys table = insert_rows-append xs ys _

total_count-append :
    (key : CString) (xs ys : List QueryRow)
    → total_count key (xs ++ ys) ≡ total_count key xs + total_count key ys
total_count-append key [] ys = omega arith
total_count-append key ((none, count) ∷ xs) ys = total_count-append key xs ys
total_count-append key ((some stack, count) ∷ xs) ys =
    let rest = total_count-append key xs ys in omega (arith, rest)

counted_has_stack :
    (key : CString) (rows : List QueryRow) → 0 < total_count key rows → has_stack key rows ≡ true
counted_has_stack key [] h = absurd (omega arith)
counted_has_stack key ((none, count) ∷ rows) h = counted_has_stack key rows h
counted_has_stack key ((some stack, count) ∷ rows) h = elim (Bool-cases (same stack key)) [
  | inl e ↦ rw e refl
  | inr e ↦
      let zero_add : 0 + total_count key rows ≡ total_count key rows = omega arith in
      let h' : 0 < 0 + total_count key rows = rw e at h in
      rw e (counted_has_stack key rows (omega (arith, h', zero_add)))
]

module _ (db_path : ℕ → CString) (database : CString → CString → HourAnswer) where
  -- The rows of the files of `n` hours, from the hour `h` after the epoch on.
  abbrev pub hours_rows : CString → ℕ → ℕ → List QueryRow
  hours_rows sql h zero = []
  hours_rows sql h (suc n) = rows_of (database (db_path (3600 * h)) sql) ++ hours_rows sql (h + 1) n

  -- The rows of all hours between the times, both ends included.
  abbrev pub rows_between : Query → List QueryRow
  rows_between q =
      hours_rows (historical_sql q) (q.start_time / 3600)
        (q.end_time / 3600 + 1 - q.start_time / 3600)

  query_hours-hours_rows :
      (fuel : ℕ) (sql : CString) (table : HashTable) (h end : ℕ)
      → end / 3600 + 1 ≤ h + fuel
      → query_hours db_path database fuel sql table (3600 * h) end
        ≡ insert_rows table (hours_rows sql h (end / 3600 + 1 - h))
  unfolding query_hours insert_rows
  query_hours-hours_rows zero sql table h end enough =
      let e : end / 3600 + 1 - h ≡ 0 = omega arith in rw e refl
  query_hours-hours_rows (suc fuel) sql table h end enough =
      elim (Bool-cases (leb (3600 * h) end)) [
        | inr past ↦ let e : end / 3600 + 1 - h ≡ 0 = ground arith in rw (past, e) refl
        | inl goes_on ↦
            let e : end / 3600 + 1 - h ≡ suc (end / 3600 + 1 - (h + 1)) = ground arith in
            let next : 3600 * h + 3600 ≡ 3600 * (h + 1) = omega arith in
            let rows = rows_of (database (db_path (3600 * h)) sql) in
            let rest =
              query_hours-hours_rows fuel sql (insert_rows table rows) (h + 1) end (omega arith) in
            rw (goes_on, e, next) (rest ∙ sym (insert_rows-append rows _ table))
      ]

  -- The loop ends; a stack that a row of the files of the hours between start_time and end_time has
  -- is printed exactly once, with the sum of the counts of all these rows, and no other stack is
  -- printed; memory for the entries provided.
  pub historical_query-rows_between :
      (q : Query) (key : CString)
      → values_of key (perform_historical_query db_path database q)
        ≡ (if has_stack key (rows_between q) then total_count key (rows_between q) ∷ [] else [])
  unfolding perform_historical_query
  historical_query-rows_between q key =
      let first : q.start_time - q.start_time % 3600 ≡ 3600 * (q.start_time / 3600) = omega arith in
      ap
        (λ t. values_of key (
          ht_foreach (
            query_hours db_path database (q.end_time / 3600 + 1) (historical_sql q) ht_create t
              q.end_time)))
        first
      ∙ ap (λ table. values_of key (ht_foreach table))
          (query_hours-hours_rows (q.end_time / 3600 + 1) (historical_sql q) ht_create
            (q.start_time / 3600) q.end_time (omega arith))
      ∙ values_of-insert_rows (rows_between q) key

  hours_rows-holds :
      (sql key : CString) (n h hour : ℕ)
      → h ≤ hour
      → hour < h + n
      → total_count key (rows_of (database (db_path (3600 * hour)) sql))
        ≤ total_count key (hours_rows sql h n)
  hours_rows-holds sql key zero h hour le lt = absurd (omega arith)
  hours_rows-holds sql key (suc n) h hour le lt =
      let both =
        total_count-append key (rows_of (database (db_path (3600 * h)) sql))
          (hours_rows sql (h + 1) n) in
      elim (ℕ_discrete h hour) [
        | yes e ↦
            let here = ap (λ k. total_count key (rows_of (database (db_path (3600 * k)) sql))) e in
            omega (arith, both, here)
        | no ne ↦
            omega (
              arith,
              both,
              hours_rows-holds sql key n (h + 1) hour (omega (arith, ne)) (omega arith),
            )
      ]

  rows_between-covers :
      (q : Query) (key : CString) (t : ℕ)
      → q.start_time ≤ t
      → t ≤ q.end_time
      → db_path (3600 * (t / 3600)) ≡ db_path t
      → total_count key (rows_of (database (db_path t) (historical_sql q)))
        ≤ total_count key (rows_between q)
  rows_between-covers q key t after before zone =
      let path = ap (λ p. total_count key (rows_of (database p (historical_sql q)))) zone in
      let holds =
        hours_rows-holds (historical_sql q) key (q.end_time / 3600 + 1 - q.start_time / 3600)
          (q.start_time / 3600) (t / 3600) (omega arith) (omega arith) in
      omega (arith, path, holds)

  -- For a time between start_time and end_time whose file has the path of the full hour of UTC
  -- before it, as in every zone that is whole hours from UTC: where the rows of its file count a
  -- stack once or more, perform_historical_query prints the stack once, with that count or more;
  -- memory for the entries provided.
  pub historical_query-covers :
      (q : Query) (key : CString) (t : ℕ)
      → q.start_time ≤ t
      → t ≤ q.end_time
      → db_path (3600 * (t / 3600)) ≡ db_path t
      → 0 < total_count key (rows_of (database (db_path t) (historical_sql q)))
      → (total : ℕ) × (values_of key (perform_historical_query db_path database q) ≡ total ∷ [])
        × (total_count key (rows_of (database (db_path t) (historical_sql q))) ≤ total)
  historical_query-covers q key t after before zone counted =
      let covered = rows_between-covers q key t after before zone in
      let there : has_stack key (rows_between q) ≡ true =
        counted_has_stack key (rows_between q) (omega arith) in
      (
        total_count key (rows_between q),
        historical_query-rows_between q key
            ∙ ap (λ b. if b then total_count key (rows_between q) ∷ [] else []) there,
        covered,
      )
