-- ===== src/ElfSymbols/Collect.antt =====
-- The collection holds every function of the symbol tables, once for each entry, by address.
use mathlib.Core.List.{Perm, perm_append_singleton}
use mathlib.Core.List.Perm
use profiling.Prelude.{
  ◌+◌, ◌≡◌, ◌≢◌, sym, true, ◌||◌, ◌&&◌, Bool-cases, inl, inr, Option, none, some, List, [], ◌∷◌,
  ◌++◌, arith, append-nil, append_assoc, length, length-append, ◌==◌, if◌then◌else◌,
}
use profiling.Tree.{in_order, RbTree}
use profiling.Tree.Order.{IsSorted}
use profiling.Tree.Insert.{insert_node-insert_after, insert_after-IsSorted, insert_after-perm}
use profiling.ElfSymbols.{
  SymbolInfo, SymbolCollection, ElfSym, Section, start_of, info_of, is_function,
  insert_symbol_into_tree, process_symbol, process_entries, process_symbol_section,
  process_sections, build_symbol_collection, no_symbols,
}

-- The functions among the entries for which there was memory.
unfoldable pub functions : List ElfSym → List SymbolInfo
functions [] = []
functions (sym ∷ syms) =
    if is_function sym && sym.allocated then info_of sym ∷ functions syms else functions syms

section_functions : Option (List ElfSym) → List SymbolInfo
unfolding functions
section_functions none = []
section_functions (some entries) = functions entries

-- The functions of the sections that are symbol tables.
unfoldable pub file_functions : List Section → List SymbolInfo
unfolding section_functions
file_functions [] = []
file_functions (scn ∷ scns) =
    (if (scn.sh_type == 2) || (scn.sh_type == 11) then section_functions scn.entries else [])
    ++ file_functions scns

-- `r` is `c` with the symbols `xs` added.
pub record Collected (c : SymbolCollection) (xs : List SymbolInfo) (r : SymbolCollection)
    : Type 0 where
  pub sorted : IsSorted start_of (in_order r.symbol_tree)
  pub total : r.total_symbols ≡ c.total_symbols + length xs
  pub same_symbols : Perm (in_order r.symbol_tree) (in_order c.symbol_tree ++ xs)

nothing : (c : SymbolCollection) → IsSorted start_of (in_order c.symbol_tree) → Collected c [] c
nothing c s = record {
  sorted = s;
  total = omega arith;
  same_symbols = rw append-nil (Perm.refl (in_order c.symbol_tree));
}

followed_by :
    {c r s : SymbolCollection} {xs ys : List SymbolInfo}
    → Collected c xs r
    → Collected r ys s
    → Collected c (xs ++ ys) s
followed_by {c} {r} {s} {xs} {ys} p q = record {
  sorted = q.sorted;
  total = omega (arith, length-append xs ys, p.total, q.total);
  same_symbols =
      rw (append_assoc (in_order c.symbol_tree) xs ys) at
        (Perm.trans q.same_symbols (Perm.append_right ys p.same_symbols));
}

-- What `build_symbol_collection` may return for a file with the functions `xs`.
abbrev pub IsCollection : List SymbolInfo → Option SymbolCollection → Type 0
IsCollection xs none = length xs ≡ 0
IsCollection xs (some c) =
    IsSorted start_of (in_order c.symbol_tree)
    × Perm (in_order c.symbol_tree) xs
    × (c.total_symbols ≡ length xs)
    × (c.total_symbols ≢ 0)

module _ (lib : RbTree SymbolInfo) where
  process_symbol-Collected :
      (c : SymbolCollection) (sym : ElfSym)
      → IsSorted start_of (in_order c.symbol_tree)
      → Collected c (functions (sym ∷ [])) (process_symbol lib c sym)
  unfolding functions process_symbol insert_symbol_into_tree
  process_symbol-Collected c sym s = elim (Bool-cases (is_function sym)) [
    | inr other ↦ rw other (nothing c s)
    | inl function ↦ elim (Bool-cases sym.allocated) [
      | inr lost ↦ rw (function, lost) (nothing c s)
      | inl made ↦
          let order = insert_node-insert_after start_of lib c.symbol_tree (info_of sym) s in
          rw (function, made)
            (record {
              sorted =
                  rw order
                    (insert_after-IsSorted start_of (info_of sym) (in_order c.symbol_tree) s);
              total = omega arith;
              same_symbols = rw order (
                  Perm.trans (insert_after-perm start_of (info_of sym) (in_order c.symbol_tree))
                    (Perm.symm (perm_append_singleton (info_of sym) (in_order c.symbol_tree))));
            })
    ]
  ]

  functions-cons :
      (sym : ElfSym) (syms : List ElfSym)
      → functions (sym ∷ syms) ≡ functions (sym ∷ []) ++ functions syms
  unfolding functions
  functions-cons sym syms = ground arith

  process_entries-Collected :
      (syms : List ElfSym) (c : SymbolCollection)
      → IsSorted start_of (in_order c.symbol_tree)
      → Collected c (functions syms) (process_entries lib c syms)
  unfolding process_entries
  process_entries-Collected [] c s = unfold functions in nothing c s
  process_entries-Collected (sym ∷ syms) c s =
      let first = process_symbol-Collected c sym s in
      rw (functions-cons sym syms)
        (followed_by first (process_entries-Collected syms (process_symbol lib c sym) first.sorted))

  process_symbol_section-Collected :
      (entries : Option (List ElfSym)) (c : SymbolCollection)
      → IsSorted start_of (in_order c.symbol_tree)
      → Collected c (section_functions entries) (process_symbol_section lib c entries)
  unfolding process_symbol_section section_functions
  process_symbol_section-Collected none c s = nothing c s
  process_symbol_section-Collected (some entries) c s = process_entries-Collected entries c s

  process_sections-Collected :
      (scns : List Section) (c : SymbolCollection)
      → IsSorted start_of (in_order c.symbol_tree)
      → Collected c (file_functions scns) (process_sections lib c scns)
  unfolding process_sections file_functions
  process_sections-Collected [] c s = nothing c s
  process_sections-Collected (scn ∷ scns) c s =
      elim (Bool-cases ((scn.sh_type == 2) || (scn.sh_type == 11))) [
        | inl table ↦
            let first = process_symbol_section-Collected scn.entries c s in
            rw table (followed_by first (process_sections-Collected scns _ first.sorted))
        | inr other ↦ rw other (process_sections-Collected scns c s)
      ]

  -- With memory for the collection: it is NULL only where the file's symbol tables have no
  -- function; else it is not empty, its tree has the functions in the order of their addresses,
  -- with their multiplicity and no other symbol, and it counts them.
  pub build_symbol_collection-IsCollection :
      (scns : List Section)
      → IsCollection (file_functions scns) (build_symbol_collection lib true scns)
  unfolding build_symbol_collection
  build_symbol_collection-IsCollection scns =
      let r = process_sections-Collected scns no_symbols tt in
      elim (Bool-cases ((process_sections lib no_symbols scns).total_symbols == 0)) [
        | inl zero_ ↦ rw zero_ (ground (arith, r.total))
        | inr more ↦ rw more (r.sorted, r.same_symbols, omega (arith, r.total), ground arith)
      ]
