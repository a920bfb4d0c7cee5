-- ===== src/HttpServer/Sizes.antt =====
-- The texts of a query fit their buffers.
use profiling.Prelude.{◌<◌, ◌≤◌, Bool, true, false, ◌++◌, arith, length, length-append}
use profiling.CString.{CString, text}
use profiling.HttpServer.{clause_if, server_clauses, server_sql_text}

length-clause_if : (b : Bool) (s : CString) → length (clause_if b s) ≤ length s
length-clause_if true s = omega arith
length-clause_if false s = omega arith

-- Whichever parameters a request has: the clauses, with their 0, fit the 512 bytes that strcat writes
-- to, and the query, with its 0, fits the 1024 bytes of its buffer.
pub server_clauses_fit :
    (with_start with_end with_pid with_name : Bool)
    → let clauses = server_clauses with_start with_end with_pid with_name in
      (length clauses < 512) × (length (server_sql_text clauses) < 1024)
unfolding server_clauses server_sql_text
server_clauses_fit s e p n =
    let start = clause_if s (text " AND timestamp >= :start_time") in
    let end = clause_if e (text " AND timestamp <= :end_time") in
    let pid = clause_if p (text " AND pid = :pid") in
    let name = clause_if n (text " AND process_name = :name") in
    let clauses = text " WHERE 1=1 " ++ (start ++ (end ++ (pid ++ name))) in
    let a = length-append start (end ++ (pid ++ name)) in
    let b = length-append end (pid ++ name) in
    let c = length-append pid name in
    let d = length-append clauses (text " GROUP BY full_stack ORDER BY count DESC;") in
    let le1 = length-clause_if s (text " AND timestamp >= :start_time") in
    let le2 = length-clause_if e (text " AND timestamp <= :end_time") in
    let le3 = length-clause_if p (text " AND pid = :pid") in
    let le4 = length-clause_if n (text " AND process_name = :name") in
    let size : length clauses < 200 = omega (arith, a, b, c, le1, le2, le3, le4) in
    (omega (arith, size), omega (arith, size, d))
