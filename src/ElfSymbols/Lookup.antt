-- ===== src/ElfSymbols/Lookup.antt =====
-- The lookup of an address in the collection of an ELF file.
use profiling.Prelude.{
  ℕ, ◌≤◌, ◌<◌, ◌≡◌, ◌≢◌, refl, none, some, ◌∷◌, arith, All, All-append_left, All-append_right,
}
use profiling.Tree.{Tree, leaf, node, in_order}
use profiling.Tree.Search.{
  interval_search, interval_search-first_holding, first_holding, IsDisjoint, IsDisjoint-left,
  IsDisjoint-right,
}
use profiling.ElfSymbols.{
  SymbolInfo, SymbolCollection, start_of, end_of, rb_search_symbol, name_or_unknown,
  find_symbol_name_from_elf,
}

search_agrees :
    (t : Tree SymbolInfo) (a : ℕ)
    → IsDisjoint start_of end_of (in_order t)
    → rb_search_symbol t a ≡ interval_search start_of end_of a t
unfolding rb_search_symbol interval_search
search_agrees leaf a d = refl
search_agrees (node l s r) a d =
    let here = IsDisjoint-right start_of end_of (in_order l) (s ∷ in_order r) d in
    ground (
      arith,
      here.0,
      search_agrees l a (IsDisjoint-left start_of end_of (in_order l) (s ∷ in_order r) d),
      search_agrees r a here.2,
    )

-- A symbol that is found holds the address, also where symbols overlap.
pub rb_search_symbol-holds :
    (t : Tree SymbolInfo) (a : ℕ) (s : SymbolInfo)
    → rb_search_symbol t a ≡ some s
    → (s.symbol_start ≤ a) × (a < end_of s)
unfolding rb_search_symbol
rb_search_symbol-holds leaf a s h = cc
rb_search_symbol-holds (node l x r) a s h =
    ground (arith, rb_search_symbol-holds l a s, rb_search_symbol-holds r a s)

-- In a collection that is not empty and whose symbols do not overlap, an address gets the name of
-- the symbol that holds it, and "unknown_function" where none does.
pub find_symbol_name-first_holding :
    (c : SymbolCollection) (a : ℕ)
    → c.total_symbols ≢ 0
    → IsDisjoint start_of end_of (in_order c.symbol_tree)
    → find_symbol_name_from_elf (some c) a
      ≡ name_or_unknown (first_holding start_of end_of a (in_order c.symbol_tree))
unfolding find_symbol_name_from_elf
find_symbol_name-first_holding c a ne d =
    rw
      (
        search_agrees c.symbol_tree a d,
        interval_search-first_holding start_of end_of a c.symbol_tree d,
      )
      (ground arith)

search_above :
    (t : Tree SymbolInfo) (a : ℕ)
    → All (λ s. a < s.symbol_start) (in_order t)
    → rb_search_symbol t a ≡ none
unfolding rb_search_symbol
search_above leaf a h = refl
search_above (node l x r) a h = ground (
  arith,
  All-append_right (λ s. a < s.symbol_start) (in_order l) (x ∷ in_order r) h,
  search_above l a (All-append_left (λ s. a < s.symbol_start) (in_order l) (x ∷ in_order r) h),
)

-- A symbol that ends at or below the address hides from it every symbol on its left, also one
-- whose range goes on and holds the address: the search goes to the right, and finds nothing if
-- all symbols there start above the address.
nested_symbol_hides :
    (l r : Tree SymbolInfo) (inner : SymbolInfo) (a : ℕ)
    → inner.symbol_start ≤ a
    → end_of inner ≤ a
    → All (λ s. a < s.symbol_start) (in_order r)
    → rb_search_symbol (node l inner r) a ≡ none
unfolding rb_search_symbol
nested_symbol_hides l r inner a h1 h2 h = ground (arith, search_above r a h)
