-- ===== src/Symbolize/Stored.antt =====
-- What `symbolize_sample` hands to the database writer is the row that the writer stores.
use mathlib.Core.Path.{subst}
use profiling.Prelude.{
  ℕ, zero, suc, ◌+◌, ◌-◌, ◌%◌, ◌/◌, ◌^◌, ◌≤◌, ◌≡◌, refl, sym, ap, ◌∙◌, some, [], ◌∷◌, ltb, length,
  take-all, arith, All, Bool-cases, inl, inr,
}
use profiling.CString.{CString}
use profiling.Processes.{digits}
use profiling.DbWriter.{DbEntry}
use profiling.DbWriter.Session.{Row, parse_row}
use profiling.DbWriter.Rows.{IsPlain, print_row, parse_row-print_row}
use profiling.Symbolize.{Frames, print_pid, db_stack_str}

digits-IsPlain : (fuel n : ℕ) (acc : CString) → All IsPlain acc → All IsPlain (digits fuel n acc)
unfolding digits
digits-IsPlain zero n acc h = h
digits-IsPlain (suc fuel) n acc h = elim (Bool-cases (ltb n 10)) [
  | inl small ↦ rw small (ground arith, h)
  | inr large ↦ rw large (digits-IsPlain fuel (n / 10) ((n % 10 + 48) ∷ acc) (ground arith, h))
]

-- A list with a first element.
abbrev IsCons : CString → Type 0
IsCons s = (c : ℕ) × (rest : CString) × (s ≡ c ∷ rest)

digits-IsCons : (fuel n c : ℕ) (acc : CString) → IsCons (digits fuel n (c ∷ acc))
unfolding digits
digits-IsCons zero n c acc = (c, acc, refl)
digits-IsCons (suc fuel) n c acc = elim (Bool-cases (ltb n 10)) [
  | inl small ↦ rw small (n + 48, c ∷ acc, refl)
  | inr large ↦ rw large (digits-IsCons fuel (n / 10) (n % 10 + 48) (c ∷ acc))
]

some_digits : (fuel n : ℕ) → IsCons (digits (suc fuel) n [])
unfolding digits
some_digits fuel n = elim (Bool-cases (ltb n 10)) [
  | inl small ↦ rw small (n + 48, [], refl)
  | inr large ↦ rw large (digits-IsCons fuel (n / 10) (n % 10 + 48) [])
]

print_pid-IsPlain : (pid : ℕ) → All IsPlain (print_pid pid) × IsCons (print_pid pid)
unfolding print_pid
print_pid-IsPlain pid = elim (Bool-cases (ltb pid (2 ^ 31))) [
  | inl e ↦ rw e (digits-IsPlain 10 pid [] tt, some_digits 9 pid)
  | inr e ↦
      rw e
        ((refl, digits-IsPlain 10 (2 ^ 32 - pid) [] tt), (b'-', digits 10 (2 ^ 32 - pid) [], refl))
]

-- For a process name that is not empty and has no '|', and a string that is not cut to 16639 bytes,
-- the row that the writer thread reads from the string has the pid, the name and the text for the
-- flame graph.
pub parse_row-db_stack_str :
    (entry : DbEntry) (pid : ℕ) (s : Frames) (d : ℕ) (name : CString)
    → s.process_name ≡ d ∷ name
    → All IsPlain (d ∷ name)
    → length (print_row (print_pid pid) s.process_name s.flame_buffer) ≤ 16639
    → entry.stack_str ≡ db_stack_str pid s
    → parse_row entry ≡ record {
      timestamp = entry.timestamp_ns;
      pid = some (print_pid pid);
      process_name = s.process_name;
      full_stack = s.flame_buffer;
    }
unfolding db_stack_str
parse_row-db_stack_str entry pid s d name e plain short stored =
    let (pid_plain, (c, rest, cons)) = print_pid-IsPlain pid in
    let row : entry.stack_str ≡ print_row (c ∷ rest) (d ∷ name) s.flame_buffer =
      stored
      ∙ take-all 16639 _ short
      ∙ ap (λ p. print_row p s.process_name s.flame_buffer) cons
      ∙ ap (λ n. print_row (c ∷ rest) n s.flame_buffer) e in
    parse_row-print_row entry c rest d name s.flame_buffer (subst (All IsPlain) cons pid_plain)
      plain row
    ∙ ap (λ p. row_of p (d ∷ name)) (sym cons)
    ∙ ap (row_of (print_pid pid)) (sym e)
  where
    row_of : CString → CString → Row
    row_of p n = record {
      timestamp = entry.timestamp_ns;
      pid = some p;
      process_name = n;
      full_stack = s.flame_buffer;
    }
