-- ===== src/QueryTool/Live.antt =====
-- The buffer for the parameters of a request.
use profiling.Prelude.{
  true, ℕ, ◌+◌, ◌-◌, ◌≤◌, ◌≡◌, refl, ap, ◌∙◌, some, ◌++◌, arith, ltb, length, length-append,
}
use profiling.CString.{CString, text}
use profiling.QueryTool.{Query}
use profiling.QueryTool.Request.{number_param, name_param, params_text, terminator_index}

-- The length of all parameters but the name.
length-params_text :
    (q : Query) (name : CString) → q.name ≡ some name → length name + 7 ≤ length (params_text q)
unfolding params_text
length-params_text q name e =
    let number = λ (key : CString) (n : ℕ). number_param key n in
    let start = number (text "start_time=") q.start_time in
    let end = number (text "end_time=") q.end_time in
    let pid = number (text "pid=") q.pid in
    let a = length-append (text "?") (start ++ (end ++ (pid ++ name_param q.name))) in
    let b = length-append start (end ++ (pid ++ name_param q.name)) in
    let c = length-append end (pid ++ name_param q.name) in
    let d = length-append pid (name_param q.name) in
    let f : length (name_param q.name) ≡ 5 + (length name + 1) =
      ap (λ o. length (name_param o)) e ∙ of_name in
    omega (arith, a, b, c, d, f)
  where
    of_name : length (name_param (some name)) ≡ 5 + (length name + 1)
    of_name = omega (arith, length-append name (text "&"))

-- For a name of 506 bytes or more, whatever the times and the pid: the byte that is to end
-- query_params is written beyond its 512 bytes.
pub terminator_index_outside :
    (q : Query) (name : CString)
    → q.name ≡ some name
    → 506 ≤ length name
    → (i : ℕ) × (terminator_index q ≡ some i) × (512 ≤ i)
unfolding terminator_index
terminator_index_outside q name e long =
    let size = length-params_text q name e in
    let written : ltb 1 (length (params_text q)) ≡ true = ground arith in
    (length (params_text q) - 1, rw written refl, omega arith)
