-- ===== src/CString.antt =====
-- The C strings of the program, as the list of their bytes before the terminating 0, and what the
-- program uses of the C library's functions on them (string.h, and the conversions of sscanf).
use Prim.Native.Char.{code}
use Prim.Native.String.{String}
use Prim.Native.Nat.{min}
use profiling.Prelude.{
  ℕ, zero, suc, ◌+◌, ◌-◌, ◌*◌, ◌^◌, ◌≡◌, refl, ap₂, Bool, true, false, ◌&&◌, ◌||◌, Option, none,
  some, List, [], ◌∷◌, arith, leb, ◌==◌, if◌then◌else◌,
}

abbrev pub CString : Type 0
CString = List ℕ

-- The bytes of a literal.
abbrev pub text : String → CString
text String.[] = []
text (String.◌∷◌ c s) = code c ∷ text s

-- `strcmp(a, b) == 0`
unfoldable pub same : CString → CString → Bool
same [] [] = true
same [] (y ∷ ys) = false
same (x ∷ xs) [] = false
same (x ∷ xs) (y ∷ ys) = (x == y) && same xs ys

pub same-eq : (a b : CString) → same a b ≡ true → a ≡ b
unfolding same
same-eq [] [] h = refl
same-eq [] (y ∷ ys) h = ground arith
same-eq (x ∷ xs) [] h = ground arith
same-eq (x ∷ xs) (y ∷ ys) h = ap₂ ◌∷◌ (ground arith) (same-eq xs ys (ground arith))

pub same_refl : (a : CString) → same a a ≡ true
unfolding same
same_refl [] = refl
same_refl (x ∷ xs) = ground (arith, same_refl xs)

-- `isspace`
unfoldable pub is_space : ℕ → Bool
is_space c = (c == 32) || (leb 9 c && leb c 13)

unfoldable pub skip_space : CString → CString
unfolding is_space
skip_space [] = []
skip_space (c ∷ s) = if is_space c then skip_space s else c ∷ s

-- `%Ns` after the white space: at most `n` bytes that are no white space, and what follows them.
unfoldable pub scan_bytes : ℕ → CString → CString × CString
unfolding is_space
scan_bytes zero s = ([], s)
scan_bytes (suc n) [] = ([], [])
scan_bytes (suc n) (c ∷ s) =
    if is_space c then ([], c ∷ s) else (let (word, rest) = scan_bytes n s in (c ∷ word, rest))

unfoldable pub nonempty : CString × CString → Option (CString × CString)
nonempty ([], rest) = none
nonempty (c ∷ cs, rest) = some (c ∷ cs, rest)

-- `%Ns`; a conversion that finds nothing fails.
unfoldable pub scan_word : ℕ → CString → Option (CString × CString)
unfolding skip_space scan_bytes nonempty
scan_word n s = nonempty (scan_bytes n (skip_space s))

-- The value of a digit in base 16, as `strtoul` reads it.
unfoldable pub hex_digit : ℕ → Option ℕ
hex_digit c =
    if leb 48 c && leb c 57
    then some (c - 48)
    else if leb 97 c && leb c 102
    then some (c - 87)
    else if leb 65 c && leb c 70
    then some (c - 55)
    else none

-- The digits at the front, added to `acc`, and what follows them.
unfoldable pub hex_digits : ℕ → CString → ℕ × CString
unfolding hex_digit
hex_digits acc [] = (acc, [])
hex_digits acc (c ∷ s) = elim (hex_digit c) [
  | none ↦ (acc, c ∷ s)
  | some d ↦ hex_digits (acc * 16 + d) s
]

abbrev pub ulong_max : ℕ
ulong_max = 2 ^ 64 - 1

-- `%lx` on the unsigned numbers without prefix that the kernel prints; too large a number gives
-- ULONG_MAX.
unfoldable pub scan_hex : CString → Option (ℕ × CString)
unfolding skip_space hex_digits
scan_hex s = elim (skip_space s) [
  | [] ↦ none
  | c ∷ cs ↦ elim (hex_digit c) [
    | none ↦ none
    | some d ↦ let (n, rest) = hex_digits d cs in some (min n ulong_max, rest)
  ]
]

-- `%c` after a space in the format: the next byte that is no white space.
unfoldable pub scan_char : CString → Option (ℕ × CString)
unfolding skip_space
scan_char s = elim (skip_space s) [ [] ↦ none | c ∷ cs ↦ some (c, cs) ]

-- `%*s`: a word is skipped, whatever its length.
unfoldable pub skip_bytes : CString → CString
unfolding is_space
skip_bytes [] = []
skip_bytes (c ∷ s) = if is_space c then c ∷ s else skip_bytes s

unfoldable pub skip_word : CString → Option CString
unfolding skip_space skip_bytes
skip_word s = elim (skip_space s) [ [] ↦ none | c ∷ cs ↦ some (skip_bytes cs) ]

unfoldable pub is_digit : ℕ → Bool
is_digit c = leb 48 c && leb c 57

unfoldable pub skip_digits : CString → CString
unfolding is_digit
skip_digits [] = []
skip_digits (c ∷ s) = if is_digit c then skip_digits s else c ∷ s

-- `%*d` on the unsigned numbers that the kernel prints: at least one digit.
unfoldable pub skip_number : CString → Option CString
unfolding skip_space is_digit skip_digits
skip_number s = elim (skip_space s) [
  | [] ↦ none
  | c ∷ cs ↦ if is_digit c then some (skip_digits cs) else none
]

-- `fgets(line, n + 1, file)` on what is left of the file: the bytes up to a newline, that included,
-- at most `n`, and what follows them.
unfoldable pub fgets : ℕ → CString → CString × CString
fgets zero s = ([], s)
fgets (suc n) [] = ([], [])
fgets (suc n) (c ∷ s) =
    if c == 10 then (c ∷ [], s) else (let (line, rest) = fgets n s in (c ∷ line, rest))
