-- ===== src/HttpServer.antt =====
-- src/utils/http_server.c: the answer to a request, and the start of the server. libmicrohttpd, cJSON and
-- SQLite are arguments: the parameters of a request, the rows of a query, whether the calls succeed.
pub mod Sizes
pub mod Request
pub mod Client
mod Tests
use profiling.Prelude.{
  ℕ, ◌*◌, Bool, true, false, not, ◌||◌, Option, none, some, List, [], ◌∷◌, ◌++◌, ltb, if◌then◌else◌,
  take,
}
use profiling.CString.{CString, text, same}

-- The parameters as `MHD_lookup_connection_value` finds them.
pub record HttpRequest : Type 0 where
  pub method : CString
  pub url : CString
  pub start_time : Option CString
  pub end_time : Option CString
  pub pid : Option CString
  pub name : Option CString

-- What is bound to the query: times in nanoseconds, taken not to overflow; none where the clause is
-- left out.
pub record Bindings : Type 0 where
  pub bound_start : Option ℕ
  pub bound_end : Option ℕ
  pub bound_pid : Option ℕ
  pub bound_name : Option CString

-- Where `wanted`, the text is appended by `strcat`.
abbrev pub clause_if : Bool → CString → CString
clause_if true s = s
clause_if false s = []

abbrev pub is_some : Option CString → Bool
is_some none = false
is_some (some s) = true

abbrev pub number_of : (CString → ℕ) → Option CString → ℕ → ℕ
number_of convert none default = default
number_of convert (some s) default = convert s

abbrev pub convert_pid : (CString → ℕ) → Option CString → Option ℕ
convert_pid atoi none = none
convert_pid atoi (some s) = some (atoi s)

-- The string in `where_clauses`, which `strcat` does not bound.
unfoldable pub server_clauses : Bool → Bool → Bool → Bool → CString
server_clauses with_start with_end with_pid with_name =
    text " WHERE 1=1 "
    ++ (clause_if with_start (text " AND timestamp >= :start_time")
        ++ (clause_if with_end (text " AND timestamp <= :end_time")
            ++ (clause_if with_pid (text " AND pid = :pid")
                ++ clause_if with_name (text " AND process_name = :name"))))

-- What `snprintf(sql, 1024)` is to write.
unfoldable pub server_sql_text : CString → CString
server_sql_text clauses =
    text "SELECT full_stack, COUNT(*) as count FROM call_stacks "
    ++ (clauses ++ text " GROUP BY full_stack ORDER BY count DESC;")

-- A page with a message, or the array of the rows; a stack that is NULL is left out of its object.
pub data Body : Type 0 where
  error_page : CString → Body
  stacks : List (Option CString × ℕ) → Body

pub record HttpResponse : Type 0 where
  pub status : ℕ
  pub body : Body

-- The database: none without a handle, else what a query answers; `none` where it cannot be
-- prepared, and then the array is empty.
abbrev pub Handle : Type 0
Handle = Option (CString → Bindings → Option (List (Option CString × ℕ)))

unfoldable pub rows_or_none : Option (List (Option CString × ℕ)) → List (Option CString × ℕ)
rows_or_none none = []
rows_or_none (some rows) = rows

abbrev pub nanoseconds : ℕ → Option ℕ
nanoseconds t = if ltb 0 t then some (t * 1000000000) else none

-- `atoll` and `atoi` are arguments, for numbers that are not negative.
module _ (atoll atoi : CString → ℕ) (now : ℕ) where
  abbrev pub asked_start : HttpRequest → ℕ
  asked_start r = number_of atoll r.start_time 0

  abbrev pub asked_end : HttpRequest → ℕ
  asked_end r = number_of atoll r.end_time now

  unfoldable pub where_clauses_of : HttpRequest → CString
  unfolding server_clauses
  where_clauses_of r =
      server_clauses (ltb 0 (asked_start r)) (ltb 0 (asked_end r)) (is_some r.pid) (is_some r.name)

  unfoldable pub bindings_of : HttpRequest → Bindings
  bindings_of r = record {
    bound_start = nanoseconds (asked_start r);
    bound_end = nanoseconds (asked_end r);
    bound_pid = convert_pid atoi r.pid;
    bound_name = r.name;
  }

  -- Behind the test of the path.
  unfoldable pub answer_query : Handle → HttpRequest → HttpResponse
  unfolding rows_or_none where_clauses_of bindings_of server_sql_text
  answer_query none r = record { status = 500; body = error_page (text "Database not available") }
  answer_query (some query) r = record {
    status = 200;
    body =
        stacks
          (rows_or_none (query (take 1023 (server_sql_text (where_clauses_of r))) (bindings_of r)));
  }

  unfoldable pub request_handler : Handle → HttpRequest → HttpResponse
  unfolding answer_query same
  request_handler db r =
      if not (same r.method (text "GET")) || not (same r.url (text "/query"))
      then record { status = 404; body = error_page (text "Not Found") }
      else answer_query db r

-- Whether there is a server: with memory for the context and a daemon, on the loopback address only.
unfoldable pub http_server_start : Bool → Bool → Bool
http_server_start false daemon = false
http_server_start true daemon = daemon
