-- ===== src/QueryTool.antt =====
-- config/query_tool.c: the command line client, which adds the counts of equal stacks in a hash table
-- and prints them. The answers of SQLite and of the server are arguments; what is printed is a list.
pub mod Values
pub mod Aggregate
pub mod Hours
pub mod Request
pub mod Arguments
pub mod Live
mod Tests
use profiling.Prelude.{
  ℕ, zero, suc, ◌+◌, ◌-◌, ◌*◌, ◌/◌, ◌%◌, ◌^◌, Bool, true, false, Option, none, some, List, [], ◌∷◌,
  ◌++◌, ltb, leb, if◌then◌else◌, length, get_or, set, take, replicate,
}
use profiling.CString.{CString, text, same}
use profiling.Processes.{digits}

-- HASH_TABLE_SIZE
abbrev pub hash_table_size : ℕ
hash_table_size = 4096

-- `hash = ((hash << 5) + hash) + c` in `unsigned long`; a `char` above 127 is negative.
unfoldable pub hash_key_bytes : ℕ → CString → ℕ
hash_key_bytes hash [] = hash
hash_key_bytes hash (c ∷ key) =
    hash_key_bytes
      (((hash * 2 ^ 5) % 2 ^ 64 + hash + (if ltb c 128 then c else c + 2 ^ 64 - 2 ^ 8)) % 2 ^ 64)
      key

unfoldable pub hash_key : CString → ℕ
unfolding hash_key_bytes
hash_key key = hash_key_bytes 5381 key % hash_table_size

-- The sums are taken not to overflow `int`.
pub record HtEntry : Type 0 where
  pub key : CString
  pub value : ℕ

-- The chains, each from its head on.
abbrev pub HashTable : Type 0
HashTable = List (List HtEntry)

-- `ht_create`, where there is memory.
abbrev pub ht_create : HashTable
ht_create = replicate hash_table_size []

abbrev pub in_front : HtEntry → Option (List HtEntry) → Option (List HtEntry)
in_front entry none = none
in_front entry (some chain) = some (entry ∷ chain)

-- The loop of `ht_insert`: the chain with the value added, or `none` where it does not have the key.
unfoldable pub add_value : CString → ℕ → List HtEntry → Option (List HtEntry)
unfolding same
add_value key value [] = none
add_value key value (entry ∷ chain) =
    let rest = add_value key value chain in
    if same entry.key key
    then some (record entry { value = entry.value + value } ∷ chain)
    else in_front entry rest

-- The chain after `ht_insert`; without memory for an entry nothing changes.
unfoldable pub chain_insert : Bool → CString → ℕ → List HtEntry → List HtEntry
unfolding add_value
chain_insert allocated key value chain = elim (add_value key value chain) [
  | some added ↦ added
  | none ↦ if allocated then record { key = key; value = value } ∷ chain else chain
]

unfoldable pub ht_insert : Bool → HashTable → CString → ℕ → HashTable
unfolding hash_key chain_insert
ht_insert allocated table key value =
    set table (hash_key key) (chain_insert allocated key value (get_or table (hash_key key) []))

-- The lines of `ht_foreach`, "key|value", in order.
unfoldable pub ht_foreach : HashTable → List HtEntry
ht_foreach [] = []
ht_foreach (chain ∷ table) = chain ++ ht_foreach table

-- A row of an answer: the stack, NULL where the column is, and the count.
abbrev pub QueryRow : Type 0
QueryRow = Option CString × ℕ

-- The loop over the rows.
unfoldable pub insert_rows : HashTable → List QueryRow → HashTable
unfolding ht_insert
insert_rows table [] = table
insert_rows table ((none, count) ∷ rows) = insert_rows table rows
insert_rows table ((some stack, count) ∷ rows) = insert_rows (ht_insert true table stack count) rows

-- `pid` is 0 and `name` is NULL where they are not asked for.
pub record Query : Type 0 where
  pub start_time : ℕ
  pub end_time : ℕ
  pub pid : ℕ
  pub name : Option CString

-- The text with a number, or none where the number is 0.
unfoldable pub clause : CString → ℕ → CString
unfolding digits
clause before zero = []
clause before (suc n) = before ++ digits 20 (suc n) []

unfoldable pub name_clause : Option CString → CString
name_clause none = []
name_clause (some name) = text " AND process_name = '" ++ (name ++ text "'")

-- `where_clauses`, which is cut in the name if that is long; the times in nanoseconds are taken not
-- to overflow.
unfoldable pub where_clauses : Query → CString
unfolding clause name_clause
where_clauses q = take 511 (
    text " WHERE 1=1 "
    ++ (clause (text " AND timestamp >= ") (q.start_time * 1000000000)
        ++ (clause (text " AND timestamp <= ") (q.end_time * 1000000000)
            ++ (clause (text " AND pid = ") q.pid ++ name_clause q.name))))

unfoldable pub historical_sql : Query → CString
unfolding where_clauses
historical_sql q =
    text "SELECT pid, process_name, full_stack, COUNT(*) FROM call_stacks "
    ++ (where_clauses q ++ text " GROUP BY pid, process_name, full_stack;")

-- What `access`, `sqlite3_open_v2` and `sqlite3_prepare_v2` say of a file, and the rows.
pub data HourAnswer : Type 0 where
  no_file not_opened not_prepared : HourAnswer
  answers : List QueryRow → HourAnswer

unfoldable pub rows_of : HourAnswer → List QueryRow
rows_of no_file = []
rows_of not_opened = []
rows_of not_prepared = []
rows_of (answers rows) = rows

-- The loop of `perform_historical_query`: the files of the hours from `current_hour_ts` to `end_time`.
-- `db_path` is the path from `localtime_r` of a time, `database` what the file with a path answers to
-- a query. A turn adds an hour, so the hours up to `end_time` are fuel enough. Times are not negative.
module _ (db_path : ℕ → CString) (database : CString → CString → HourAnswer) where
  unfoldable pub query_hours : ℕ → CString → HashTable → ℕ → ℕ → HashTable
  unfolding insert_rows rows_of
  query_hours zero sql table current_hour_ts end_time = table
  query_hours (suc fuel) sql table current_hour_ts end_time =
      let rest =
        query_hours fuel sql (insert_rows table (rows_of (database (db_path current_hour_ts) sql)))
          (current_hour_ts + 3600) end_time in
      if leb current_hour_ts end_time then rest else table

  -- What is printed.
  unfoldable pub perform_historical_query : Query → List HtEntry
  unfolding query_hours ht_foreach historical_sql
  perform_historical_query q = ht_foreach (
      query_hours (q.end_time / 3600 + 1) (historical_sql q) ht_create
        (q.start_time - q.start_time % 3600) q.end_time)
