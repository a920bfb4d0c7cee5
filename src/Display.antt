-- ===== src/Display.antt =====
-- The text for display that `symbolize_sample` of src/core/handler.c builds from a call stack: one
-- line for each address, indented by its depth. The buffer is its size and the writes to it.
pub mod Overflow
mod Tests
use Prim.Native.Nat.{min}
use profiling.Prelude.{
  ℕ, zero, suc, ◌+◌, ◌-◌, ◌%◌, ◌/◌, ◌^◌, Bool, true, false, Option, none, some, List, [], ◌∷◌, ◌++◌,
  ltb, leb, ◌==◌, if◌then◌else◌, length,
}
use profiling.CString.{CString, text}
use profiling.Tree.{Tree}
use profiling.KernelSymbols.{KernelSymbol, find_kernel_symbol}

-- PERF_CONTEXT_MAX is `(__u64)-4095`.
abbrev pub perf_context_max : ℕ
perf_context_max = 2 ^ 64 - 4095

-- The addresses of the stack that are no context markers.
unfoldable pub filter_ips : List ℕ → List ℕ
filter_ips [] = []
filter_ips (ip ∷ ips) =
    let rest = filter_ips ips in if ltb ip perf_context_max then ip ∷ rest else rest

-- `all_ips`: the sampled address, if it is not 0 and no marker, and the stack.
unfoldable pub collect_ips : ℕ → List ℕ → List ℕ
unfolding filter_ips
collect_ips ip ips =
    if ip == 0
    then filter_ips ips
    else if ltb ip perf_context_max
    then ip ∷ filter_ips ips
    else filter_ips ips

-- The highest bit.
unfoldable pub is_kernel_addr : ℕ → Bool
is_kernel_addr ip = leb (2 ^ 63) ip

-- The line of an address; `known` says whether there is a process.
unfoldable pub display_line : Option (Tree KernelSymbol) → Bool → ℕ → CString
unfolding is_kernel_addr find_kernel_symbol
display_line kernel_symbols known ip =
    if is_kernel_addr ip
    then find_kernel_symbol kernel_symbols ip ++ text " [kernel]\n"
    else if known
    then text "[user_function]\n"
    else text "[unknown_process]\n"

unfoldable pub lines_of : Option (Tree KernelSymbol) → Bool → List ℕ → List CString
unfolding display_line
lines_of kernel_symbols known [] = []
lines_of kernel_symbols known (ip ∷ ips) =
    display_line kernel_symbols known ip ∷ lines_of kernel_symbols known ips

-- Two spaces for each `j < i`.
unfoldable pub indent : ℕ → List CString
indent zero = []
indent (suc i) = text "  " ∷ indent i

-- The strings printed for the lines from number `i` on.
unfoldable pub pieces : ℕ → List CString → List CString
unfolding indent
pieces i [] = []
pieces i (line ∷ lines) = indent i ++ (line ∷ pieces (i + 1) lines)

abbrev pub buffer_size : ℕ
buffer_size = 16384

-- `sizeof(display_buffer) - display_len` is a `size_t`.
unfoldable pub space_left : ℕ → ℕ
space_left display_len = (buffer_size + 2 ^ 64 - display_len) % 2 ^ 64

-- How many bytes `snprintf` writes, the 0 included.
unfoldable pub bytes_written : ℕ → CString → ℕ
bytes_written space piece = if space == 0 then 0 else min (length piece) (space - 1) + 1

-- The offset and the number of bytes of each write; `snprintf` returns the length of the whole
-- piece, and that is added to `display_len`.
unfoldable pub print_all : ℕ → List CString → List (ℕ × ℕ)
unfolding space_left bytes_written
print_all display_len [] = []
print_all display_len (piece ∷ rest) =
    (display_len, bytes_written (space_left display_len) piece)
    ∷ print_all (display_len + length piece) rest

-- The writes for a list of addresses.
unfoldable pub display_writes : Option (Tree KernelSymbol) → Bool → List ℕ → List (ℕ × ℕ)
unfolding print_all pieces lines_of
display_writes kernel_symbols known ips = print_all 0 (pieces 0 (lines_of kernel_symbols known ips))
