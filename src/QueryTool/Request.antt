-- ===== src/QueryTool/Request.antt =====
-- `perform_live_query` of config/query_tool.c: the request to the server, the memory for the answer,
-- and the rows in it. libcurl and cJSON are arguments.
use profiling.Prelude.{
  ℕ, zero, suc, ◌-◌, Bool, true, false, Option, none, some, List, [], ◌∷◌, ◌++◌, ltb, if◌then◌else◌,
  length, take,
}
use profiling.CString.{CString, text}
use profiling.Processes.{digits}
use profiling.QueryTool.{HtEntry, QueryRow, Query, ht_create, insert_rows, ht_foreach}

-- `WriteMemoryCallback`: the answer so far and what the call returns; without memory it returns 0.
unfoldable pub write_memory_callback : Bool → CString → CString → CString × ℕ
write_memory_callback false memory contents = (memory, 0)
write_memory_callback true memory contents = (memory ++ contents, length contents)

-- "key=%lld&", left out where the number is 0.
unfoldable pub number_param : CString → ℕ → CString
unfolding digits
number_param key zero = []
number_param key (suc n) = key ++ (digits 20 (suc n) [] ++ text "&")

unfoldable pub name_param : Option CString → CString
name_param none = []
name_param (some name) = text "name=" ++ (name ++ text "&")

-- What the calls of `snprintf` are to write to `query_params`: `offset` is its length, also where it
-- is longer than the 512 bytes of the buffer.
unfoldable pub params_text : Query → CString
unfolding number_param name_param
params_text q =
    text "?"
    ++ (number_param (text "start_time=") q.start_time
        ++ (number_param (text "end_time=") q.end_time
            ++ (number_param (text "pid=") q.pid ++ name_param q.name)))

abbrev pub params_size : ℕ
params_size = 512

-- Where `query_params[offset - 1] = '\0'` writes, if it is reached.
unfoldable pub terminator_index : Query → Option ℕ
unfolding params_text
terminator_index q =
    let offset = length (params_text q) in if ltb 1 offset then some (offset - 1) else none

-- `query_params`, for a terminator inside the buffer.
unfoldable pub query_params : Query → CString
unfolding params_text
query_params q =
    let offset = length (params_text q) in
    take (if ltb 1 offset then offset - 1 else offset) (params_text q)

-- `snprintf(url_buffer, 1024, "%s/query%s")`
unfoldable pub request_url : CString → Query → CString
unfolding query_params
request_url server_url q = take 1023 (server_url ++ (text "/query" ++ query_params q))

-- "stack" and "count" of an item of the answer, where they are a string and a number.
abbrev pub JsonItem : Type 0
JsonItem = Option CString × Option ℕ

unfoldable pub rows_of_items : List JsonItem → List QueryRow
rows_of_items [] = []
rows_of_items ((some stack, some count) ∷ items) = (some stack, count) ∷ rows_of_items items
rows_of_items ((some stack, none) ∷ items) = rows_of_items items
rows_of_items ((none, count) ∷ items) = rows_of_items items

-- What is printed of the answer. Nothing where the request fails or the answer is no JSON (`none`).
unfoldable pub print_answer : Option (List JsonItem) → List HtEntry
unfolding rows_of_items insert_rows ht_foreach
print_answer none = []
print_answer (some items) = ht_foreach (insert_rows ht_create (rows_of_items items))
