-- ===== src/Vma/Print.antt =====
-- A line of /proc/<pid>/maps as the kernel prints it, "first-last perm offset device inode name",
-- and that the scan of `parse_process_memory_maps` reads it back.
use Prim.Native.Nat.{min}
use profiling.Prelude.{
  ℕ, zero, suc, ◌+◌, ◌*◌, ◌≤◌, ◌<◌, ◌≡◌, refl, ap, ◌∙◌, Bool, true, false, none, some, List, [],
  ◌∷◌, ◌++◌, map, arith, length, ltb, if◌then◌else◌, All,
}
use profiling.CString.{
  CString, is_space, skip_space, scan_bytes, nonempty, scan_word, hex_digit, hex_digits, ulong_max,
  scan_hex, skip_bytes, is_digit, skip_digits,
}

-- A number of at least one digit, as printed: the leading digit and the others.
pub record Number : Type 0 where
  pub top : ℕ
  pub more : List ℕ

abbrev pub HasBase : ℕ → Number → Type 0
HasBase base n = (n.top < base) × All (λ d. d < base) n.more

-- The value of the digits to base 16, after those that gave `acc`.
abbrev value : ℕ → List ℕ → ℕ
value acc [] = acc
value acc (d ∷ ds) = value (acc * 16 + d) ds

abbrev pub value_of : Number → ℕ
value_of n = value n.top n.more

abbrev pub hex_char : ℕ → ℕ
hex_char d = if ltb d 10 then d + 48 else d + 87

abbrev pub print_hex : Number → CString → CString
print_hex n rest = hex_char n.top ∷ (map hex_char n.more ++ rest)

abbrev pub dec_char : ℕ → ℕ
dec_char d = d + 48

abbrev pub print_dec : Number → CString → CString
print_dec n rest = dec_char n.top ∷ (map dec_char n.more ++ rest)

abbrev pub IsWord : CString → Type 0
IsWord w = All (λ c. is_space c ≡ false) w

pub record Entry : Type 0 where
  pub first : Number
  pub last : Number
  pub readable : Bool
  pub writable : Bool
  pub executable : Bool
  pub shared : Bool
  pub offset : Number
  -- The device "major:minor", at least one byte.
  pub device_top : ℕ
  pub device : CString
  pub inode : Number
  -- The kernel pads the name to a column: blanks besides the one behind the inode.
  pub padding : ℕ
  -- Empty where nothing is mapped.
  pub name : CString

abbrev pub IsEntry : Entry → Type 0
IsEntry e =
    HasBase 16 e.first
    × HasBase 16 e.last
    × HasBase 16 e.offset
    × HasBase 10 e.inode
    × (is_space e.device_top ≡ false)
    × IsWord e.device
    × IsWord e.name
    × (length e.name ≤ 255)

abbrev pub perm_of : Entry → CString
perm_of e =
    (if e.readable then b'r' else b'-')
    ∷ (if e.writable then b'w' else b'-')
    ∷ (if e.executable then b'x' else b'-')
    ∷ (if e.shared then b's' else b'p')
    ∷ []

abbrev pub blanks : ℕ → CString → CString
blanks zero rest = rest
blanks (suc n) rest = 32 ∷ blanks n rest

abbrev pub print_name : Entry → CString
print_name e = 32 ∷ blanks e.padding (e.name ++ (10 ∷ []))

abbrev pub print_tail : Entry → CString
print_tail e = 32 ∷ e.device_top ∷ (e.device ++ (32 ∷ print_dec e.inode (print_name e)))

unfoldable pub print_entry : Entry → CString
print_entry e =
    print_hex e.first
      (b'-' ∷ print_hex e.last (32 ∷ (perm_of e ++ (32 ∷ print_hex e.offset (print_tail e)))))

-- One digit.

hex_digit-hex_char : (d : ℕ) → d < 16 → hex_digit (hex_char d) ≡ some d
unfolding hex_digit
hex_digit-hex_char d h = ground arith

pub is_space-hex_char : (d : ℕ) → d < 16 → is_space (hex_char d) ≡ false
unfolding is_space
is_space-hex_char d h = ground arith

pub is_digit-dec_char : (d : ℕ) → d < 10 → is_digit (dec_char d) ≡ true
unfolding is_digit
is_digit-dec_char d h = ground arith

pub is_space-dec_char : (d : ℕ) → d < 10 → is_space (dec_char d) ≡ false
unfolding is_space
is_space-dec_char d h = ground arith

-- The conversions on what was printed, before a byte at which they end.

hex_digits-map :
    (acc : ℕ) (ds : List ℕ) (c : ℕ) (rest : CString)
    → All (λ d. d < 16) ds
    → hex_digit c ≡ none
    → hex_digits acc (map hex_char ds ++ (c ∷ rest)) ≡ (value acc ds, c ∷ rest)
unfolding hex_digits
hex_digits-map acc [] c rest h e = rw (e, hex_digits) refl
hex_digits-map acc (d ∷ ds) c rest h e =
    rw (hex_digit-hex_char d h.0, hex_digits) (hex_digits-map (acc * 16 + d) ds c rest h.1 e)

pub skip_space-solid : (c : ℕ) (s : CString) → is_space c ≡ false → skip_space (c ∷ s) ≡ c ∷ s
unfolding skip_space
skip_space-solid c s e = rw e refl

pub scan_hex-print_hex :
    (n : Number) (c : ℕ) (rest : CString)
    → HasBase 16 n
    → hex_digit c ≡ none
    → scan_hex (print_hex n (c ∷ rest)) ≡ some (min (value_of n) ulong_max, c ∷ rest)
unfolding scan_hex
scan_hex-print_hex n c rest h e =
    rw
      (
        scan_hex,
        skip_space-solid (hex_char n.top) (map hex_char n.more ++ (c ∷ rest))
            (is_space-hex_char n.top h.0),
        hex_digit-hex_char n.top h.0,
        hex_digits-map n.top n.more c rest h.1 e,
      )
      refl

scan_bytes-word :
    (w : CString) (n c : ℕ) (rest : CString)
    → IsWord w
    → length w ≤ n
    → is_space c ≡ true
    → scan_bytes n (w ++ (c ∷ rest)) ≡ (w, c ∷ rest)
unfolding scan_bytes
scan_bytes-word [] zero c rest h l e = refl
scan_bytes-word [] (suc n) c rest h l e = rw e refl
scan_bytes-word (x ∷ w) zero c rest h l e = absurd (omega arith)
scan_bytes-word (x ∷ w) (suc n) c rest h l e =
    rw (h.0, scan_bytes-word w n c rest h.1 (omega arith) e) refl

pub skip_bytes-word :
    (w : CString) (c : ℕ) (rest : CString)
    → IsWord w
    → is_space c ≡ true
    → skip_bytes (w ++ (c ∷ rest)) ≡ c ∷ rest
unfolding skip_bytes
skip_bytes-word [] c rest h e = rw e refl
skip_bytes-word (x ∷ w) c rest h e = rw h.0 (skip_bytes-word w c rest h.1 e)

pub skip_digits-map :
    (ds : List ℕ) (c : ℕ) (rest : CString)
    → All (λ d. d < 10) ds
    → is_digit c ≡ false
    → skip_digits (map dec_char ds ++ (c ∷ rest)) ≡ c ∷ rest
unfolding skip_digits
skip_digits-map [] c rest h e = rw e refl
skip_digits-map (d ∷ ds) c rest h e = rw (is_digit-dec_char d h.0) (skip_digits-map ds c rest h.1 e)

pub scan_word-word :
    (w : CString) (n x c : ℕ) (rest : CString)
    → is_space x ≡ false
    → IsWord w
    → length (x ∷ w) ≤ n
    → is_space c ≡ true
    → scan_word n (x ∷ (w ++ (c ∷ rest))) ≡ some (x ∷ w, c ∷ rest)
unfolding scan_word nonempty
scan_word-word w n x c rest hx h l e = ap nonempty (
    ap (scan_bytes n) (skip_space-solid x (w ++ (c ∷ rest)) hx)
    ∙ scan_bytes-word (x ∷ w) n c rest (hx, h) l e)
