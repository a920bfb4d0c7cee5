-- ===== src/DbWriter/Lost.antt =====
-- A batch in which the hour changes: its statement stays on the first database, which gets no COMMIT.
use profiling.Prelude.{
  ℕ, ◌+◌, ◌≡◌, ◌≢◌, refl, sym, ap, ◌∙◌, Bool, true, false, Option, none, some, List, [], ◌∷◌, ◌++◌,
  map, arith, ◌==◌, if◌then◌else◌, Bool-cases, ==_iff, inl, inr,
}
use profiling.CString.{CString, same, same-eq}
use profiling.DbWriter.{DbEntry}
use profiling.DbWriter.Session.{
  journal_mode, create_table, create_index, begin_transaction, commit, Event, opened, closed,
  executed, prepared, stepped, finalized, free_string, free_entry, mempool_freed, Sqlite, DbHandle,
  is_open, set_up, after_open, ensure_db_handle, insert_entries, discarded, closing, write_rows,
  prepare_rows, write_batch,
}
use profiling.DbWriter.Commit.{path_of, ensure-same}

-- How often a handle gets a COMMIT.
abbrev pub commits : ℕ → List Event → ℕ
commits handle [] = 0
commits handle (executed (some h) commit ∷ events) =
    (if h == handle then 1 else 0) + commits handle events
commits handle (event ∷ events) = commits handle events

commits-append : (n : ℕ) (xs ys : List Event) → commits n (xs ++ ys) ≡ commits n xs + commits n ys
commits-append n [] ys = omega arith
commits-append n (executed (some h) commit ∷ xs) ys = omega (arith, commits-append n xs ys)
commits-append n (executed (some h) journal_mode ∷ xs) ys = commits-append n xs ys
commits-append n (executed (some h) create_table ∷ xs) ys = commits-append n xs ys
commits-append n (executed (some h) create_index ∷ xs) ys = commits-append n xs ys
commits-append n (executed (some h) begin_transaction ∷ xs) ys = commits-append n xs ys
commits-append n (executed none sql ∷ xs) ys = commits-append n xs ys
commits-append n (opened p h ∷ xs) ys = commits-append n xs ys
commits-append n (closed h ∷ xs) ys = commits-append n xs ys
commits-append n (prepared h ∷ xs) ys = commits-append n xs ys
commits-append n (stepped h r ∷ xs) ys = commits-append n xs ys
commits-append n (finalized h ∷ xs) ys = commits-append n xs ys
commits-append n (free_string e ∷ xs) ys = commits-append n xs ys
commits-append n (free_entry e ∷ xs) ys = commits-append n xs ys
commits-append n (mempool_freed e ∷ xs) ys = commits-append n xs ys

commits-freed : (n : ℕ) (entries : List DbEntry) → commits n (map mempool_freed entries) ≡ 0
commits-freed n [] = refl
commits-freed n (x ∷ entries) = commits-freed n entries

module _ (sqlite : Sqlite) where
  commits-discarded : (n : ℕ) (entries : List DbEntry) → commits n (discarded sqlite entries) ≡ 0
  commits-discarded n [] = refl
  commits-discarded n (x ∷ entries) = commits-discarded n entries

  -- What `ensure_db_handle` leaves: a handle just if the result is 0, and no COMMIT.
  record Ensured (path : CString) (r : Bool × DbHandle × List Event) : Type 0 where
    result : r.0 ≡ is_open r.1.db
    current : r.1.current_db_path ≡ path
    no_commit : (n : ℕ) → commits n r.2 ≡ 0

  set_up-Ensured :
      (handle : ℕ)
      → let r = set_up sqlite handle in (r.0 ≡ is_open r.1) × ((n : ℕ) → commits n r.2 ≡ 0)
  unfolding set_up
  set_up-Ensured handle = elim (Bool-cases (sqlite.exec_ok handle journal_mode)) [
    | inr e ↦ rw e (refl, λ n. refl)
    | inl e ↦ elim (Bool-cases (sqlite.exec_ok handle create_table)) [
      | inl t ↦ rw (e, t) (refl, λ n. refl)
      | inr t ↦ rw (e, t) (refl, λ n. refl)
    ]
  ]

  after_open-Ensured :
      (path : CString) (answer : Option ℕ) → Ensured path (after_open sqlite path answer)
  unfolding after_open
  after_open-Ensured path none = record { result = refl; current = refl; no_commit = λ n. refl }
  after_open-Ensured path (some handle) =
      let made = set_up-Ensured handle in
      record { result = made.0; current = refl; no_commit = made.1 }

  ensure-Ensured :
      (h : DbHandle) (entry : DbEntry)
      → Ensured (path_of sqlite entry) (ensure_db_handle sqlite h entry.timestamp_ns)
  unfolding ensure_db_handle
  ensure-Ensured h entry =
      let path = path_of sqlite entry in
      let made = after_open-Ensured path (sqlite.open_db path) in
      elim (Bool-cases (same h.current_db_path path)) [
        | inl e ↦ rw e (record { result = refl; current = same-eq _ _ e; no_commit = λ n. refl })
        | inr e ↦ rw e (record {
          result = made.result;
          current = made.current;
          no_commit = λ n. closing_commits _ h.db n (made.no_commit n);
        })
      ]
    where
      closing_commits :
          (events : List Event) (db : Option ℕ) (n : ℕ)
          → commits n events ≡ 0
          → commits n (closing sqlite db ++ events) ≡ 0
      closing_commits events none n e = e
      closing_commits events (some handle) n e = e

  commits-failed :
      (n : ℕ) (db : Option ℕ) (events : List Event)
      → false ≡ is_open db
      → commits n (executed db commit ∷ events) ≡ commits n events
  commits-failed n none events e = refl
  commits-failed n (some h) events e = absurd (ground arith)

  insert_entries-commits :
      (n stmt : ℕ) (h : DbHandle) (entries : List DbEntry)
      → commits n (insert_entries sqlite stmt h entries).1 ≡ 0
  unfolding insert_entries
  insert_entries-commits n stmt h [] = refl
  insert_entries-commits n stmt h (entry ∷ entries) =
      let ensured = ensure_db_handle sqlite h entry.timestamp_ns in
      let e = ensure-Ensured h entry in
      elim (Bool-cases ensured.0) [
        | inl ok ↦ rw ok (
            commits-append n ensured.2 _
            ∙ omega (arith, e.no_commit n, insert_entries-commits n stmt ensured.1 entries))
        | inr failed ↦ rw failed (
            commits-append n ensured.2 _
            ∙ let a =
                commits-failed n ensured.1.db (discarded sqlite (entry ∷ entries))
                  (sym failed ∙ e.result) in
              let b = commits-discarded n (entry ∷ entries) in omega (arith, e.no_commit n, a, b))
      ]

  commit_elsewhere :
      (n : ℕ) (db : Option ℕ) (entries : List DbEntry)
      → db ≢ some n
      → commits n (executed db commit ∷ finalized n ∷ map mempool_freed entries) ≡ 0
  commit_elsewhere n none entries h = commits-freed n entries
  commit_elsewhere n (some m) entries h = elim (Bool-cases (m == n)) [
    | inl e ↦ absurd (h (ap some ((==_iff m n).0 e)))
    | inr e ↦ rw e (omega (arith, commits-freed n entries))
  ]

  write_rows-elsewhere :
      (handle : ℕ) (h : DbHandle) (batch : List DbEntry)
      → (write_rows sqlite handle h batch).0.db ≢ some handle
      → commits handle (write_rows sqlite handle h batch).1 ≡ 0
  unfolding write_rows
  write_rows-elsewhere handle h batch elsewhere =
      let inserted = insert_entries sqlite handle h batch in
      let a = insert_entries-commits handle handle h batch in
      let b = commit_elsewhere handle inserted.0.db batch elsewhere in
      elim (Bool-cases inserted.2) [
        | inl whole ↦ rw whole (commits-append handle inserted.1 _ ∙ omega (arith, a, b))
        | inr part ↦ rw part (commits-append handle inserted.1 _ ∙ omega (arith, a))
      ]

  -- The database of an entry is open.
  abbrev pub on_path : ℕ → DbEntry → DbHandle
  on_path handle first = record { db = some handle; current_db_path = path_of sqlite first }

  -- A batch, with the database of its first entry open and a statement that can be prepared, that
  -- ends with another database, or none: the database on which all its rows are inserted gets no
  -- COMMIT.
  pub hour_change_loses_commit :
      (handle : ℕ) (first : DbEntry) (rest : List DbEntry)
      → sqlite.prepare_ok handle ≡ true
      → (write_batch sqlite (on_path handle first) first rest).0.db ≢ some handle
      → commits handle (write_batch sqlite (on_path handle first) first rest).1 ≡ 0
  unfolding write_batch prepare_rows
  hour_change_loses_commit handle first rest ok =
      rw (ensure-same sqlite handle (path_of sqlite first) first refl) (
        rw ok (λ elsewhere.
          write_rows-elsewhere handle (on_path handle first) (first ∷ rest) elsewhere))
