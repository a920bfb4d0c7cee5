-- ===== src/DbWriter/Commit.antt =====
-- A batch whose entries are of one hour is committed.
use profiling.Prelude.{ℕ, ◌/◌, ◌≡◌, refl, true, some, List, [], ◌∷◌, ◌++◌, map, take, All}
use profiling.CString.{CString, same_refl}
use profiling.DbWriter.{DbEntry}
use profiling.DbWriter.Session.{
  begin_transaction, commit, Event, executed, prepared, stepped, finalized, mempool_freed, Sqlite,
  DbHandle, parse_row, ensure_db_handle, insert_entries, write_rows, prepare_rows, write_batch,
}

-- The database of an entry.
abbrev pub path_of : Sqlite → DbEntry → CString
path_of sqlite entry = take 255 (sqlite.db_path (entry.timestamp_ns / 1000000000))

abbrev pub row_on : ℕ → DbEntry → Event
row_on handle entry = stepped handle (parse_row entry)

module _ (sqlite : Sqlite) where
  pub ensure-same :
      (handle : ℕ) (path : CString) (entry : DbEntry)
      → path_of sqlite entry ≡ path
      → ensure_db_handle sqlite
          (record { db = some handle; current_db_path = path })
          entry.timestamp_ns
        ≡ (true, record { db = some handle; current_db_path = path }, [])
  unfolding ensure_db_handle
  ensure-same handle path entry e = rw e (rw (same_refl path) refl)

  insert_entries-same :
      (handle : ℕ) (path : CString) (entries : List DbEntry)
      → All (λ entry. path_of sqlite entry ≡ path) entries
      → let h : DbHandle = record { db = some handle; current_db_path = path } in
        insert_entries sqlite handle h entries ≡ (h, map (row_on handle) entries, true)
  unfolding insert_entries
  insert_entries-same handle path [] h = refl
  insert_entries-same handle path (entry ∷ entries) h =
      rw (ensure-same handle path entry h.0) (rw (insert_entries-same handle path entries h.1) refl)

  -- A batch, with the database of its first entry open, a statement that can be prepared, and all
  -- entries of that database: the rows are inserted in order in one transaction, which is
  -- committed, and then all the entries are given back to the pool.
  pub write_batch-one_hour :
      (handle : ℕ) (first : DbEntry) (rest : List DbEntry)
      → sqlite.prepare_ok handle ≡ true
      → All (λ entry. path_of sqlite entry ≡ path_of sqlite first) rest
      → let h : DbHandle = record { db = some handle; current_db_path = path_of sqlite first } in
        write_batch sqlite h first rest ≡ (
          h,
          prepared handle
              ∷ executed (some handle) begin_transaction
              ∷ (map (row_on handle) (first ∷ rest)
                  ++ (executed (some handle) commit
                      ∷ finalized handle
                      ∷ map mempool_freed (first ∷ rest))),
        )
  unfolding write_batch prepare_rows write_rows
  write_batch-one_hour handle first rest ok same_hour =
      rw (ensure-same handle (path_of sqlite first) first refl) (
        rw (ok, insert_entries-same handle (path_of sqlite first) (first ∷ rest) (refl, same_hour))
          refl)
