-- ===== src/DbWriter/Reliable.antt =====
-- What the writer thread does where SQLite opens its databases and prepares its statements.
use profiling.Prelude.{
  ℕ, ◌/◌, ◌≡◌, ◌⊎◌, refl, sym, ap, ◌∙◌, Bool, true, false, Option, none, some, List, [], ◌∷◌, ◌++◌,
  map, take, Bool-cases, inl, inr, arith,
}
use profiling.CString.{CString, same}
use profiling.DbWriter.{DbEntry}
use profiling.DbWriter.Session.{
  Sql, Event, mempool_freed, frees_chunk, is_free, Sqlite, DbHandle, is_open, closing, set_up,
  after_open, ensure_db_handle, insert_entries, write_rows, prepare_rows, write_batch,
}

-- Every database can be opened and set up, a statement can be prepared, and a path is not empty.
pub record IsReliable (sqlite : Sqlite) : Type 0 where
  pub opens : (path : CString) → (handle : ℕ) × (sqlite.open_db path ≡ some handle)
  pub executes : (handle : ℕ) (sql : Sql) → sqlite.exec_ok handle sql ≡ true
  pub prepares : (handle : ℕ) → sqlite.prepare_ok handle ≡ true
  pub has_path : (seconds : ℕ) → same [] (take 255 (sqlite.db_path seconds)) ≡ false

-- As `db_writer_init` leaves the context, or with a database.
abbrev pub IsReady : DbHandle → Type 0
IsReady h = (is_open h.db ≡ true) ⊎ (h.current_db_path ≡ [])

frees_chunk-append :
    (xs ys : List Event)
    → frees_chunk xs ≡ false
    → frees_chunk ys ≡ false
    → frees_chunk (xs ++ ys) ≡ false
frees_chunk-append [] ys h k = k
frees_chunk-append (x ∷ xs) ys h k = elim (Bool-cases (is_free x)) [
  | inl e ↦ let h' : true ≡ false = rw e at h in absurd (ground arith)
  | inr e ↦ let h' : frees_chunk xs ≡ false = rw e at h in rw e (frees_chunk-append xs ys h' k)
]

frees_chunk-given_back : (batch : List DbEntry) → frees_chunk (map mempool_freed batch) ≡ false
frees_chunk-given_back [] = refl
frees_chunk-given_back (entry ∷ batch) = frees_chunk-given_back batch

module _ (sqlite : Sqlite) (reliable : IsReliable sqlite) where
  frees_chunk-closing : (db : Option ℕ) → frees_chunk (closing sqlite db) ≡ false
  frees_chunk-closing none = refl
  frees_chunk-closing (some handle) = refl

  -- A result of 0, a database, and no memory freed.
  abbrev Works : Bool × DbHandle × List Event → Type 0
  Works r = (r.0 ≡ true) × (is_open r.1.db ≡ true) × (frees_chunk r.2 ≡ false)

  after_open-Works :
      (path : CString) (old : Option ℕ) (got : Option ℕ)
      → (handle : ℕ) × (got ≡ some handle)
      → let made = after_open sqlite path got in
        Works (made.0, made.1, closing sqlite old ++ made.2)
  unfolding after_open set_up
  after_open-Works path old none (handle, e) = absurd (ground arith)
  after_open-Works path old (some handle) (same_handle, e) =
      rw (reliable.executes handle _, reliable.executes handle _)
        (refl, refl, frees_chunk-append (closing sqlite old) _ (frees_chunk-closing old) refl)

  ensure-Works :
      (h : DbHandle) (timestamp_ns : ℕ) → IsReady h → Works (ensure_db_handle sqlite h timestamp_ns)
  unfolding ensure_db_handle
  ensure-Works h timestamp_ns ready =
      let path = take 255 (sqlite.db_path (timestamp_ns / 1000000000)) in
      elim (Bool-cases (same h.current_db_path path)) [
        | inr e ↦ rw e (after_open-Works path h.db (sqlite.open_db path) (reliable.opens path))
        | inl e ↦ elim ready [
          | inl open_ ↦ rw e (open_, open_, refl)
          | inr empty ↦
              let nowhere : false ≡ true =
                sym (reliable.has_path (timestamp_ns / 1000000000))
                ∙ ap (λ p. same p path) (sym empty)
                ∙ e in
              absurd (ground arith)
        ]
      ]

  insert_entries-Works :
      (stmt : ℕ) (h : DbHandle) (entries : List DbEntry)
      → is_open h.db ≡ true
      → let r = insert_entries sqlite stmt h entries in Works (r.2, r.0, r.1)
  unfolding insert_entries
  insert_entries-Works stmt h [] open_ = (refl, open_, refl)
  insert_entries-Works stmt h (entry ∷ entries) open_ =
      let (ok, opened_, nothing) = ensure-Works h entry.timestamp_ns (inl open_) in
      let rest =
        insert_entries-Works stmt (ensure_db_handle sqlite h entry.timestamp_ns).1 entries
          opened_ in
      rw ok (
        rest.0,
        rest.1,
        frees_chunk-append (ensure_db_handle sqlite h entry.timestamp_ns).2 _ nothing rest.2,
      )

  write_rows-frees :
      (stmt : ℕ) (h : DbHandle) (batch : List DbEntry)
      → is_open h.db ≡ true
      → let r = write_rows sqlite stmt h batch in
        (is_open r.0.db ≡ true) × (frees_chunk r.1 ≡ false)
  unfolding write_rows
  write_rows-frees stmt h batch open_ =
      let (ok, opened_, nothing) = insert_entries-Works stmt h batch open_ in
      rw ok (
        opened_,
        frees_chunk-append (insert_entries sqlite stmt h batch).1 _ nothing
            (frees_chunk-given_back batch),
      )

  prepare_rows-frees :
      (h : DbHandle) (db : Option ℕ) (batch : List DbEntry)
      → is_open h.db ≡ true
      → is_open db ≡ true
      → let r = prepare_rows sqlite h db batch in
        (is_open r.0.db ≡ true) × (frees_chunk r.1 ≡ false)
  unfolding prepare_rows
  prepare_rows-frees h none batch open_ some_db = absurd (ground arith)
  prepare_rows-frees h (some handle) batch open_ some_db =
      rw (reliable.prepares handle) (write_rows-frees handle h batch open_)

  -- A batch is written with no memory freed, and there is a database then.
  pub write_batch-frees :
      (h : DbHandle) (first : DbEntry) (rest : List DbEntry)
      → IsReady h
      → let r = write_batch sqlite h first rest in
        (is_open r.0.db ≡ true) × (frees_chunk r.1 ≡ false)
  unfolding write_batch
  write_batch-frees h first rest ready =
      let (ok, opened_, nothing) = ensure-Works h first.timestamp_ns ready in
      let ensured = ensure_db_handle sqlite h first.timestamp_ns in
      let (left, free) = prepare_rows-frees ensured.1 ensured.1.db (first ∷ rest) opened_ opened_ in
      rw ok (left, frees_chunk-append ensured.2 _ nothing free)
