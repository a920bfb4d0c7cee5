-- ===== src/Vma/RoundTrip.antt =====
-- The scan of a line of /proc/<pid>/maps reads back what the kernel printed.
use Prim.Native.Nat.{min}
use profiling.Prelude.{
  ℕ, zero, suc, ◌≤◌, ◌≡◌, refl, ap, ◌∙◌, Bool, true, false, Option, none, some, [], ◌∷◌, ◌++◌, map,
  arith, length, if◌then◌else◌, get_or, drop,
}
use profiling.CString.{
  CString, is_space, skip_space, scan_word, hex_digit, ulong_max, scan_hex, skip_bytes, skip_word,
  is_digit, skip_number, nonempty, skip_digits,
}
use profiling.Vma.{
  Fields, no_fields, read_name, read_inode, read_device, read_offset, read_perm, read_last,
  read_dash, read_first, scan_line,
}
use profiling.Vma.Print.{
  value_of, print_hex, print_dec, dec_char, IsWord, Entry, IsEntry, perm_of, print_tail, blanks,
  print_name, print_entry, is_digit-dec_char, is_space-dec_char, scan_hex-print_hex,
  skip_space-solid, skip_bytes-word, skip_digits-map, scan_word-word,
}

-- What is left of the line after the offset.

first_word : CString → Option CString
first_word [] = none
first_word (c ∷ cs) = some (skip_bytes cs)

skip_word-solid :
    (x : ℕ) (s : CString) → is_space x ≡ false → skip_word (32 ∷ x ∷ s) ≡ some (skip_bytes s)
unfolding skip_word first_word
skip_word-solid x s e =
    ap first_word {x = skip_space (32 ∷ x ∷ s)} {y = x ∷ s}
      (unfold skip_space in skip_space-solid x s e)

first_digit : CString → Option CString
first_digit [] = none
first_digit (c ∷ cs) = if is_digit c then some (skip_digits cs) else none

skip_number-solid :
    (x : ℕ) (s : CString)
    → is_space x ≡ false
    → is_digit x ≡ true
    → skip_number (32 ∷ x ∷ s) ≡ some (skip_digits s)
unfolding skip_number first_digit
skip_number-solid x s e d =
    ap first_digit {x = skip_space (32 ∷ x ∷ s)} {y = x ∷ s}
      (unfold skip_space in skip_space-solid x s e)
    ∙ rw d refl

-- After the white space before it a conversion sees the same.
scan_word-space : (n : ℕ) (s : CString) → scan_word n (32 ∷ s) ≡ scan_word n s
unfolding scan_word skip_space is_space
scan_word-space n s = refl

scan_hex-space : (s : CString) → scan_hex (32 ∷ s) ≡ scan_hex s
unfolding scan_hex skip_space is_space
scan_hex-space s = refl

newline_is_space : is_space 10 ≡ true
unfolding is_space
newline_is_space = refl

blank_is_space : is_space 32 ≡ true
unfolding is_space
blank_is_space = refl

blank_is_no_digit : is_digit 32 ≡ false
unfolding is_digit
blank_is_no_digit = refl

blank_is_no_hex_digit : hex_digit 32 ≡ none
unfolding hex_digit
blank_is_no_hex_digit = refl

dash_is_no_hex_digit : hex_digit b'-' ≡ none
unfolding hex_digit
dash_is_no_hex_digit = refl

scan_word-newline : (n : ℕ) → scan_word (suc n) (10 ∷ []) ≡ none
unfolding scan_word skip_space is_space nonempty
scan_word-newline n = refl

scan_word-blanks : (n pad : ℕ) (s : CString) → scan_word n (blanks pad s) ≡ scan_word n s
scan_word-blanks n zero s = refl
scan_word-blanks n (suc pad) s = scan_word-space n (blanks pad s) ∙ scan_word-blanks n pad s

read_name-name :
    (w : CString) (n pad : ℕ)
    → IsWord w
    → length w ≤ suc n
    → read_name (scan_word (suc n) (32 ∷ blanks pad (w ++ (10 ∷ [])))) ≡ w
unfolding read_name
read_name-name [] n pad h l =
    ap read_name (scan_word-blanks (suc n) (suc pad) (10 ∷ []) ∙ scan_word-newline n)
read_name-name (x ∷ w) n pad h l = ap read_name (
    scan_word-blanks (suc n) (suc pad) (x ∷ (w ++ (10 ∷ [])))
    ∙ scan_word-word w (suc n) x 10 [] h.0 h.1 l newline_is_space)

read_device-print_tail : (e : Entry) → IsEntry e → read_device (skip_word (print_tail e)) ≡ e.name
unfolding read_device read_inode
read_device-print_tail e (_, _, _, inode, device_top, device, name, short) =
    let rest = print_name e in
    ap read_device (
      skip_word-solid e.device_top (e.device ++ (32 ∷ print_dec e.inode rest)) device_top
      ∙ ap some (skip_bytes-word e.device 32 (print_dec e.inode rest) device blank_is_space))
    ∙ ap read_inode (
        skip_number-solid (dec_char e.inode.top) (map dec_char e.inode.more ++ rest)
          (is_space-dec_char e.inode.top inode.0) (is_digit-dec_char e.inode.top inode.0)
        ∙ ap some
            (skip_digits-map e.inode.more 32 (drop 1 (print_name e)) inode.1 blank_is_no_digit))
    ∙ read_name-name e.name 254 e.padding name short

-- One of two bytes that are no white space.
choice_is_no_space :
    (b : Bool) (x y : ℕ)
    → is_space x ≡ false
    → is_space y ≡ false
    → is_space (if b then x else y) ≡ false
choice_is_no_space true x y hx hy = hx
choice_is_no_space false x y hx hy = hy

scan_word-perm_of :
    (e : Entry) (s : CString)
    → scan_word 4 (32 ∷ (perm_of e ++ (32 ∷ s))) ≡ some (perm_of e, 32 ∷ s)
unfolding is_space
scan_word-perm_of e s =
    scan_word-space 4 (perm_of e ++ (32 ∷ s))
    ∙ scan_word-word (drop 1 (perm_of e)) 4 (get_or (perm_of e) 0 0) 32 s
        (choice_is_no_space e.readable b'r' b'-' refl refl)
        (
          choice_is_no_space e.writable b'w' b'-' refl refl,
          (
            choice_is_no_space e.executable b'x' b'-' refl refl,
            (choice_is_no_space e.shared b's' b'p' refl refl, tt),
          ),
        )
        (omega arith) blank_is_space

-- What the scan is to store for an entry; a number that is too large is ULONG_MAX.
abbrev pub fields_of : Entry → Fields
fields_of e = record {
  first = min (value_of e.first) ulong_max;
  last = min (value_of e.last) ulong_max;
  perm = perm_of e;
  offset = min (value_of e.offset) ulong_max;
  region_name = e.name;
}

-- For a line as the kernel prints it, with any number of blanks before the name, and a name without
-- white space of at most 255 bytes or no name, the scan stores the numbers, the permissions and the name that were printed.
pub scan_line-print_entry : (e : Entry) → IsEntry e → scan_line (print_entry e) ≡ fields_of e
unfolding scan_line read_first read_dash read_last read_perm read_offset print_entry
scan_line-print_entry e h =
    let f1 = record no_fields { first = min (value_of e.first) ulong_max } in
    let f2 = record f1 { last = min (value_of e.last) ulong_max } in
    let f3 = record f2 { perm = perm_of e } in
    let s3 = print_hex e.offset (print_tail e) in
    let s2 = perm_of e ++ (32 ∷ s3) in
    let s1 = print_hex e.last (32 ∷ s2) in
    ap read_first (scan_hex-print_hex e.first b'-' s1 h.0 dash_is_no_hex_digit)
    ∙ ap (read_last f1) (scan_hex-print_hex e.last 32 s2 h.1 blank_is_no_hex_digit)
    ∙ ap (read_perm f2) (scan_word-perm_of e s3)
    ∙ ap (read_offset f3) (
        scan_hex-space s3
        ∙ scan_hex-print_hex e.offset 32 (drop 1 (print_tail e)) h.2 blank_is_no_hex_digit)
    ∙ ap (λ name. record f3 { offset = min (value_of e.offset) ulong_max; region_name = name })
        (read_device-print_tail e h)
