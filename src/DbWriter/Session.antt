-- ===== src/DbWriter/Session.antt =====
-- src/utils/database.c, the writer thread's side: the database of the hour of an entry, and a batch
-- of entries written to it. What SQLite answers is an argument; the calls of SQLite, of `free` and
-- of `mempool_free` are a list of events.
use profiling.Prelude.{
  ℕ, ◌/◌, Bool, true, false, ◌||◌, Option, none, some, List, [], ◌∷◌, ◌++◌, map, ◌==◌,
  if◌then◌else◌, take,
}
use profiling.CString.{CString, text, same}
use profiling.DbWriter.{DbEntry}

pub data Sql : Type 0 where
  journal_mode create_table create_index begin_transaction commit : Sql

-- A row as it is bound to the statement; the pid is the text that `atoi` gets, `none` for -1.
pub record Row : Type 0 where
  pub timestamp : ℕ
  pub pid : Option CString
  pub process_name : CString
  pub full_stack : CString

-- A handle is its address. `step` is an execution of the statement prepared on a handle.
pub data Event : Type 0 where
  opened : CString → Option ℕ → Event
  closed : ℕ → Event
  executed : Option ℕ → Sql → Event
  prepared : ℕ → Event
  stepped : ℕ → Row → Event
  finalized : ℕ → Event
  free_string free_entry mempool_freed : DbEntry → Event

-- Whether memory that `malloc` did not give is given to `free`.
abbrev pub is_free : Event → Bool
is_free (opened path handle) = false
is_free (closed handle) = false
is_free (executed handle sql) = false
is_free (prepared handle) = false
is_free (stepped handle row) = false
is_free (finalized handle) = false
is_free (free_string entry) = true
is_free (free_entry entry) = true
is_free (mempool_freed entry) = false

abbrev pub frees_chunk : List Event → Bool
frees_chunk [] = false
frees_chunk (event ∷ events) = is_free event || frees_chunk events

-- What SQLite answers, and the path of the database of a time: what `localtime_r` and `snprintf`
-- make of the second.
pub record Sqlite : Type 0 where
  pub db_path : ℕ → CString
  pub open_db : CString → Option ℕ
  pub exec_ok : ℕ → Sql → Bool
  pub prepare_ok : ℕ → Bool

-- The part of the context that the thread changes.
pub record DbHandle : Type 0 where
  pub db : Option ℕ
  pub current_db_path : CString

abbrev pub is_open : Option ℕ → Bool
is_open none = false
is_open (some handle) = true

-- `strtok_r` with the delimiter '|': the token, if there is one, and what follows its delimiter.
unfoldable pub skip_bars : CString → CString
skip_bars [] = []
skip_bars (c ∷ s) = if c == b'|' then skip_bars s else c ∷ s

unfoldable pub until_bar : CString → CString × CString
until_bar [] = ([], [])
until_bar (c ∷ s) = let rest = until_bar s in if c == b'|' then ([], s) else (c ∷ rest.0, rest.1)

unfoldable pub token : CString → Option CString × CString
unfolding until_bar
token [] = (none, [])
token (c ∷ s) = let found = until_bar (c ∷ s) in (some found.0, found.1)

unfoldable pub strtok_r : CString → Option CString × CString
unfolding skip_bars token
strtok_r s = token (skip_bars s)

abbrev or_unknown : Option CString → CString
or_unknown none = text "unknown"
or_unknown (some name) = name

-- "pid|process_name|full_stack"
unfoldable pub parse_row : DbEntry → Row
unfolding strtok_r
parse_row entry =
    let pid = strtok_r entry.stack_str in
    let name = strtok_r pid.1 in
    record {
      timestamp = entry.timestamp_ns;
      pid = pid.0;
      process_name = or_unknown name.0;
      full_stack = name.1;
    }

module _ (sqlite : Sqlite) where
  -- What is done with a new handle: the answer, the handle that is kept, and the events.
  unfoldable pub set_up : ℕ → Bool × Option ℕ × List Event
  set_up handle =
      if sqlite.exec_ok handle journal_mode
      then if sqlite.exec_ok handle create_table
        then (
          true,
          some handle,
          executed (some handle) journal_mode
              ∷ executed (some handle) create_table
              ∷ executed (some handle) create_index
              ∷ [],
        )
        else (
          false,
          none,
          executed (some handle) journal_mode
              ∷ executed (some handle) create_table
              ∷ closed handle
              ∷ [],
        )
      else (false, none, executed (some handle) journal_mode ∷ closed handle ∷ [])

  unfoldable pub after_open : CString → Option ℕ → Bool × DbHandle × List Event
  unfolding set_up
  after_open path none =
      (false, record { db = none; current_db_path = path }, opened path none ∷ [])
  after_open path (some handle) =
      let made = set_up handle in
      (made.0, record { db = made.1; current_db_path = path }, opened path (some handle) ∷ made.2)

  abbrev pub closing : Option ℕ → List Event
  closing none = []
  closing (some handle) = closed handle ∷ []

  -- Whether the result is 0, the handle, and the events. A path has less than 256 bytes.
  unfoldable pub ensure_db_handle : DbHandle → ℕ → Bool × DbHandle × List Event
  unfolding after_open same
  ensure_db_handle h timestamp_ns =
      let new_db_path = take 255 (sqlite.db_path (timestamp_ns / 1000000000)) in
      let made = after_open new_db_path (sqlite.open_db new_db_path) in
      if same h.current_db_path new_db_path
      then (is_open h.db, h, [])
      else (made.0, made.1, closing h.db ++ made.2)

  -- `free` of the string, which lies in the chunk of the entry, and of the chunk, which is one of the
  -- pool: what happens is undefined.
  abbrev pub discarded : List DbEntry → List Event
  discarded [] = []
  discarded (entry ∷ entries) = free_string entry ∷ free_entry entry ∷ discarded entries

  -- The loop over the batch, with the statement of a handle: the handle then, the events, and
  -- whether it came to the end.
  unfoldable pub insert_entries : ℕ → DbHandle → List DbEntry → DbHandle × List Event × Bool
  unfolding ensure_db_handle parse_row
  insert_entries stmt h [] = (h, [], true)
  insert_entries stmt h (entry ∷ entries) =
      let ensured = ensure_db_handle h entry.timestamp_ns in
      let rest = insert_entries stmt ensured.1 entries in
      if ensured.0
      then (rest.0, ensured.2 ++ (stepped stmt (parse_row entry) ∷ rest.1), rest.2)
      else (
        ensured.1,
        ensured.2 ++ (executed ensured.1.db commit ∷ discarded (entry ∷ entries)),
        false,
      )

  -- With the handle and the statement: a transaction with the rows, and the entries given back.
  unfoldable pub write_rows : ℕ → DbHandle → List DbEntry → DbHandle × List Event
  unfolding insert_entries
  write_rows stmt h batch =
      let inserted = insert_entries stmt h batch in
      (
        inserted.0,
        executed (some stmt) begin_transaction
            ∷ (inserted.1
                ++ (if inserted.2
                    then executed inserted.0.db commit ∷ finalized stmt ∷ map mempool_freed batch
                    else finalized stmt ∷ [])),
      )

  unfoldable pub prepare_rows : DbHandle → Option ℕ → List DbEntry → DbHandle × List Event
  unfolding write_rows
  prepare_rows h none batch = (h, discarded batch)
  prepare_rows h (some handle) batch =
      let written = write_rows handle h batch in
      if sqlite.prepare_ok handle
      then (written.0, prepared handle ∷ written.1)
      else (h, prepared handle ∷ discarded batch)

  -- What a turn of the thread's loop does with a batch that is not empty.
  unfoldable pub write_batch : DbHandle → DbEntry → List DbEntry → DbHandle × List Event
  unfolding ensure_db_handle prepare_rows
  write_batch h first rest =
      let ensured = ensure_db_handle h first.timestamp_ns in
      let written = prepare_rows ensured.1 ensured.1.db (first ∷ rest) in
      if ensured.0
      then (written.0, ensured.2 ++ written.1)
      else (ensured.1, ensured.2 ++ discarded (first ∷ rest))
