-- ===== src/KernelSymbols/Nearest.antt =====
-- The lookup of a kernel address: the symbol that starts at it or next below it.
use profiling.Prelude.{
  ℕ, ◌<◌, ◌≡◌, refl, sym, ap, ◌∙◌, true, false, Bool-cases, inl, inr, Option, none, some, List, [],
  ◌∷◌, ◌++◌, arith, leb, if◌then◌else◌, All, All-map,
}
use profiling.Tree.{Tree, leaf, node, in_order, RbTree}
use profiling.Tree.Order.{IsStrict, IsStrict-left, IsStrict-right}
use profiling.KernelSymbols.{
  KernelSymbol, Line, find_from, name_of, find_kernel_symbol, load_lines, load_kernel_symbols,
}
use profiling.KernelSymbols.Insert.{table_of, load_lines-table_of}

abbrev key : KernelSymbol → ℕ
key s = s.address

-- The specification: the last symbol in order whose address is not above `a`, else `found`.
abbrev pub nearest : ℕ → Option KernelSymbol → List KernelSymbol → Option KernelSymbol
nearest a found [] = found
nearest a found (x ∷ xs) = nearest a (if leb x.address a then some x else found) xs

module _ (a : ℕ) where
  nearest-append :
      (found : Option KernelSymbol) (xs ys : List KernelSymbol)
      → nearest a found (xs ++ ys) ≡ nearest a (nearest a found xs) ys
  nearest-append found [] ys = refl
  nearest-append found (x ∷ xs) ys =
      nearest-append (if leb x.address a then some x else found) xs ys

  nearest-above :
      (found : Option KernelSymbol) (xs : List KernelSymbol)
      → All (λ x. a < x.address) xs
      → nearest a found xs ≡ found
  nearest-above found [] h = refl
  nearest-above found (x ∷ xs) h =
      let above : leb x.address a ≡ false = ground arith in rw above (nearest-above found xs h.1)

  find_from-nearest :
      (t : Tree KernelSymbol) (found : Option KernelSymbol)
      → IsStrict key (in_order t)
      → find_from t a found ≡ nearest a found (in_order t)
  unfolding find_from
  find_from-nearest leaf found st = refl
  find_from-nearest (node l x r) found st =
      let (above, st') = IsStrict-right key (in_order l) (x ∷ in_order r) st in
      rw nearest-append (elim (Bool-cases (leb x.address a)) [
        | inl below ↦ rw below (find_from-nearest r (some x) st')
        | inr not_below ↦ rw not_below (
            find_from-nearest l found (IsStrict-left key (in_order l) (x ∷ in_order r) st)
            ∙ sym (
                nearest-above (nearest a found (in_order l)) (in_order r) (
                  All-map (λ z. x.address < z.address) (λ z. a < z.address) (λ z h. ground arith)
                    (in_order r) above)))
      ])

-- The name that `find_kernel_symbol` gives, for a table that `load_kernel_symbols` made of the lines
-- of /proc/kallsyms: that of the symbol at the address or next below it, of those that the lines
-- leave in the table; if all are above it, or there are none, "unknown_kernel_function".
pub find_kernel_symbol-nearest :
    (lib : RbTree KernelSymbol) (lines : List Line) (a : ℕ) {t : Tree KernelSymbol}
    → load_kernel_symbols lib (some lines) true ≡ some t
    → find_kernel_symbol (some t) a ≡ name_of (nearest a none (table_of [] lines))
unfolding load_kernel_symbols find_kernel_symbol
find_kernel_symbol-nearest lib lines a {t} h =
    let loaded : load_lines lib leaf lines ≡ t = cc in
    let (e, st) = load_lines-table_of lib lines leaf tt in
    ap name_of (
      find_from-nearest a t none (rw loaded at st)
      ∙ ap (nearest a none) {x = in_order t} {y = table_of [] lines} (rw (← loaded) e))
