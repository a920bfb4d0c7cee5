-- ===== src/Display/Overflow.antt =====
-- When the text for display stays in its buffer, and when a write goes beyond it.
use profiling.Prelude.{
  ℕ, zero, suc, ◌+◌, ◌*◌, ◌^◌, ◌≤◌, ◌<◌, ◌≡◌, ◌↔◌, ◌⊎◌, refl, sym, ap, ◌∙◌, Bool, inl, inr, List,
  [], ◌∷◌, ◌++◌, arith, length, All, append_assoc, Option,
}
use profiling.CString.{CString}
use profiling.Tree.{Tree}
use profiling.KernelSymbols.{KernelSymbol}
use profiling.Display.{
  buffer_size, space_left, bytes_written, print_all, indent, pieces, display_line, lines_of,
  display_writes,
}

-- A write of no byte is harmless.
abbrev pub InBounds : ℕ × ℕ → Type 0
InBounds (offset, count) = (count ≡ 0) ⊎ (offset + count ≤ buffer_size)

abbrev total : List CString → ℕ
total [] = 0
total (x ∷ xs) = length x + total xs

-- The length of the text for the lines from number `i` on, each with two spaces for each before.
abbrev pub text_length : ℕ → List CString → ℕ
text_length i [] = 0
text_length i (line ∷ lines) = 2 * i + length line + text_length (i + 1) lines

-- A write from an offset in the buffer stays there, also one that does not fit and is cut.
write_in_bounds :
    (len : ℕ) (piece : CString)
    → len ≤ buffer_size
    → len + bytes_written (space_left len) piece ≤ buffer_size
unfolding bytes_written space_left
write_in_bounds len piece h = ground arith

-- Behind the buffer the space left wraps around, and some bytes are written.
write_out_of_bounds :
    (len : ℕ) (piece : CString)
    → len < 2 ^ 31
    → InBounds (len, bytes_written (space_left len) piece)
    → len ≤ buffer_size
unfolding bytes_written space_left
write_out_of_bounds len piece h (inl none_written) = ground arith
write_out_of_bounds len piece h (inr inside) = omega arith

print_all-InBounds :
    (xs : List CString) (last : CString) (len : ℕ)
    → len + total xs < 2 ^ 31
    → All InBounds (print_all len (xs ++ (last ∷ []))) ↔ (len + total xs ≤ buffer_size)
unfolding print_all
print_all-InBounds [] last len h = (
  (λ all. omega (arith, write_out_of_bounds len last (omega arith) all.0)),
  λ le. (inr (write_in_bounds len last (omega arith)), tt),
)
print_all-InBounds (x ∷ xs) last len h =
    let rest = print_all-InBounds xs last (len + length x) (omega arith) in
    (
      (λ all. omega (arith, rest.0 all.1)),
      λ le. (inr (write_in_bounds len x (omega arith)), rest.1 (omega arith)),
    )

total-append : (xs ys : List CString) → total (xs ++ ys) ≡ total xs + total ys
total-append [] ys = omega arith
total-append (x ∷ xs) ys = omega (arith, total-append xs ys)

total-indent : (i : ℕ) → total (indent i) ≡ 2 * i
unfolding indent
total-indent zero = omega arith
total-indent (suc i) = omega (arith, total-indent i)

total-pieces : (lines : List CString) (i : ℕ) → total (pieces i lines) ≡ text_length i lines
unfolding pieces
total-pieces [] i = refl
total-pieces (line ∷ lines) i = omega (
  arith,
  total-append (indent i) (line ∷ pieces (i + 1) lines),
  total-indent i,
  total-pieces lines (i + 1),
)

-- The last piece is the last line, behind its indentation.
pieces-append :
    (lines : List CString) (last : CString) (i : ℕ)
    → pieces i (lines ++ (last ∷ [])) ≡ (pieces i lines ++ indent (i + length lines)) ++ (last ∷ [])
unfolding pieces
pieces-append [] last i = let e : i + 0 ≡ i = omega arith in rw e refl
pieces-append (line ∷ lines) last i =
    let e : i + suc (length lines) ≡ i + 1 + length lines = omega arith in
    rw (e, pieces-append lines last (i + 1))
      (sym (
        ap (λ r. r ++ (last ∷ []))
          (append_assoc (indent i) (line ∷ pieces (i + 1) lines) (indent (i + 1 + length lines)))
        ∙ append_assoc (indent i) ((line ∷ pieces (i + 1) lines) ++ indent (i + 1 + length lines))
            (last ∷ [])))

module _ (kernel_symbols : Option (Tree KernelSymbol)) (known : Bool) where
  lines_of-append :
      (ips : List ℕ) (ip : ℕ)
      → lines_of kernel_symbols known (ips ++ (ip ∷ []))
        ≡ lines_of kernel_symbols known ips ++ (display_line kernel_symbols known ip ∷ [])
  unfolding lines_of
  lines_of-append [] ip = refl
  lines_of-append (x ∷ ips) ip =
      ap (λ r. display_line kernel_symbols known x ∷ r) (lines_of-append ips ip)

  length-lines_of : (ips : List ℕ) → length (lines_of kernel_symbols known ips) ≡ length ips
  unfolding lines_of
  length-lines_of [] = refl
  length-lines_of (x ∷ ips) = ap suc (length-lines_of ips)

  -- For a text shorter than 2^31 bytes the writes of symbolize_sample for display stay in the buffer
  -- just if the text before the last line, with that line's indentation, is at most 16384 bytes long.
  pub display_writes-InBounds :
      (ips : List ℕ) (ip : ℕ)
      → text_length 0 (lines_of kernel_symbols known ips) + 2 * length ips < 2 ^ 31
      → All InBounds (display_writes kernel_symbols known (ips ++ (ip ∷ [])))
        ↔ (text_length 0 (lines_of kernel_symbols known ips) + 2 * length ips ≤ buffer_size)
  unfolding display_writes
  display_writes-InBounds ips ip h =
      let lines = lines_of kernel_symbols known ips in
      let n : length lines ≡ length ips = length-lines_of ips in
      let before : total (pieces 0 lines ++ indent (0 + length lines))
          ≡ text_length 0 lines + 2 * length ips =
        omega (
          arith,
          n,
          total-append (pieces 0 lines) (indent (0 + length lines)),
          total-indent (0 + length lines),
          total-pieces lines 0,
        ) in
      let bounds =
        print_all-InBounds (pieces 0 lines ++ indent (0 + length lines))
          (display_line kernel_symbols known ip) 0 (omega (arith, before)) in
      rw (lines_of-append ips ip, pieces-append lines (display_line kernel_symbols known ip) 0)
        ((λ all. omega (arith, before, bounds.0 all)), λ le. bounds.1 (omega (arith, before)))
