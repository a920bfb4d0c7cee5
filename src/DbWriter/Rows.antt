-- ===== src/DbWriter/Rows.antt =====
-- The string that the symbolizer thread makes of a stack, "pid|process_name|full_stack", and the row
-- that the writer thread reads from it.
use profiling.Prelude.{ℕ, ◌≡◌, refl, false, some, [], ◌∷◌, ◌++◌, ◌==◌, All}
use profiling.CString.{CString}
use profiling.DbWriter.{DbEntry}
use profiling.DbWriter.Session.{skip_bars, until_bar, token, strtok_r, parse_row}

-- A byte that is not '|'.
abbrev pub IsPlain : ℕ → Type 0
IsPlain c = (c == b'|') ≡ false

abbrev pub print_row : CString → CString → CString → CString
print_row pid name stack = pid ++ (b'|' ∷ (name ++ (b'|' ∷ stack)))

until_bar-plain : (s rest : CString) → All IsPlain s → until_bar (s ++ (b'|' ∷ rest)) ≡ (s, rest)
unfolding until_bar
until_bar-plain [] rest h = refl
until_bar-plain (c ∷ s) rest h = rw (h.0, until_bar-plain s rest h.1) refl

strtok_r-plain :
    (c : ℕ) (s rest : CString)
    → All IsPlain (c ∷ s)
    → strtok_r ((c ∷ s) ++ (b'|' ∷ rest)) ≡ (some (c ∷ s), rest)
unfolding strtok_r skip_bars token
strtok_r-plain c s rest h = rw (h.0, strtok_r) (rw (until_bar-plain (c ∷ s) rest h, token) refl)

-- For a pid and a process name that are not empty and have no '|', whatever the stack, the row that
-- is read from the string has the three, and the time of the entry.
pub parse_row-print_row :
    (entry : DbEntry) (c : ℕ) (pid : CString) (d : ℕ) (name stack : CString)
    → All IsPlain (c ∷ pid)
    → All IsPlain (d ∷ name)
    → entry.stack_str ≡ print_row (c ∷ pid) (d ∷ name) stack
    → parse_row entry ≡ record {
      timestamp = entry.timestamp_ns;
      pid = some (c ∷ pid);
      process_name = d ∷ name;
      full_stack = stack;
    }
unfolding parse_row
parse_row-print_row entry c pid d name stack hp hn e = rw e (
    rw (strtok_r-plain c pid (d ∷ name ++ (b'|' ∷ stack)) hp)
      (rw (strtok_r-plain d name stack hn) refl))
