-- ===== src/Vma/Maps.antt =====
-- The loop of `parse_process_memory_maps`: the lines of the file, and the tree made of them.
use mathlib.Core.List.{Perm, perm_append_singleton}
use mathlib.Core.List.Perm
use native.Mathlib.Nat.{le_trans}
use profiling.Prelude.{
  ℕ, zero, suc, ◌+◌, ◌≤◌, ◌≡◌, refl, sym, ap, ◌∙◌, Bool-cases, inl, inr, List, [], ◌∷◌, ◌++◌, arith,
  append-nil, append_assoc, length, length-append, ◌==◌, if◌then◌else◌, All, some,
}
use profiling.CString.{CString, fgets}
use profiling.Tree.{Tree, leaf, in_order, RbTree}
use profiling.Tree.Order.{IsSorted}
use profiling.Tree.Insert.{
  insert_node, insert_node-insert_after, insert_after-IsSorted, insert_after-perm,
}
use profiling.Vma.{
  Vma, vma_start, vma_of, scan_line, Memory, read_lines, insert_lines, parse_process_memory_maps,
}

-- One call of `fgets`.

fgets-append : (n : ℕ) (s : CString) → (fgets n s).0 ++ (fgets n s).1 ≡ s
unfolding fgets
fgets-append zero s = refl
fgets-append (suc n) [] = refl
fgets-append (suc n) (c ∷ s) = elim (Bool-cases (c == 10)) [
  | inl newline ↦ rw newline refl
  | inr other ↦ rw other (ap (λ r. c ∷ r) (fgets-append n s))
]

fgets-length : (n : ℕ) (s : CString) → length (fgets n s).0 ≤ n
unfolding fgets
fgets-length zero s = omega arith
fgets-length (suc n) [] = omega arith
fgets-length (suc n) (c ∷ s) = elim (Bool-cases (c == 10)) [
  | inl newline ↦ rw newline (omega arith)
  | inr other ↦ rw other (omega (arith, fgets-length n s))
]

fgets-takes : (n c : ℕ) (s : CString) → length (fgets (suc n) (c ∷ s)).1 ≤ length s
unfolding fgets
fgets-takes n c s = elim (Bool-cases (c == 10)) [
  | inl newline ↦ rw newline (omega arith)
  | inr other ↦
      rw other
        (omega (arith, ap length (fgets-append n s), length-append (fgets n s).0 (fgets n s).1))
]

abbrev pub join : List CString → CString
join [] = []
join (x ∷ xs) = x ++ join xs

le_pred : {a b : ℕ} → suc a ≤ suc b → a ≤ b
le_pred h = omega arith

join-read_lines :
    (fuel : ℕ) (file : CString) → length file ≤ fuel → join (read_lines fuel file) ≡ file
unfolding read_lines
join-read_lines zero [] h = refl
join-read_lines zero (c ∷ s) h = absurd (omega arith)
join-read_lines (suc fuel) [] h = refl
join-read_lines (suc fuel) (c ∷ s) h =
    ap (λ r. (fgets 511 (c ∷ s)).0 ++ r)
      (join-read_lines fuel (fgets 511 (c ∷ s)).1 (le_trans (fgets-takes 510 c s) (le_pred h)))
    ∙ fgets-append 511 (c ∷ s)

read_lines-length : (fuel : ℕ) (file : CString) → All (λ l. length l ≤ 511) (read_lines fuel file)
unfolding read_lines
read_lines-length zero file = tt
read_lines-length (suc fuel) [] = tt
read_lines-length (suc fuel) (c ∷ s) =
    (fgets-length 511 (c ∷ s), read_lines-length fuel (fgets 511 (c ∷ s)).1)

-- The loop reads the whole file, in pieces that fit the line buffer: the pieces, joined, are the
-- file, and none is longer than 511 bytes.
pub read_lines_complete :
    (file : CString)
    → (join (read_lines (length file) file) ≡ file)
      × All (λ l. length l ≤ 511) (read_lines (length file) file)
read_lines_complete file =
    (join-read_lines (length file) file (omega arith), read_lines-length (length file) file)

-- The areas of the lines, up to the first for which there is no memory.
abbrev pub areas : Memory → ℕ → List CString → List Vma
areas memory n [] = []
areas memory n (line ∷ lines) =
    if memory.calloc n
    then vma_of (memory.strdup n) (scan_line line) ∷ areas memory (n + 1) lines
    else []

-- `r` is the tree `t` with the areas of `lines` added, and 0 if that are all.
abbrev Inserted : Memory → ℕ → Tree Vma → List CString → Tree Vma × ℕ → Type 0
Inserted memory n t lines r =
    IsSorted vma_start (in_order r.0)
    × Perm (in_order r.0) (in_order t ++ areas memory n lines)
    × (r.1 ≡ (if length (areas memory n lines) == length lines then 0 else 1))

module _ (lib : RbTree Vma) (memory : Memory) where
  add_area :
      (t : Tree Vma) (v : Vma) (vs : List Vma)
      → IsSorted vma_start (in_order t)
      → Perm (in_order (insert_node vma_start lib t v) ++ vs) (in_order t ++ (v ∷ vs))
  add_area t v vs s =
      rw (insert_node-insert_after vma_start lib t v s, sym (append_assoc (in_order t) (v ∷ []) vs))
        (Perm.append_right vs (
          Perm.trans (insert_after-perm vma_start v (in_order t))
            (Perm.symm (perm_append_singleton v (in_order t)))))

  insert_lines-Inserted :
      (n : ℕ) (t : Tree Vma) (lines : List CString)
      → IsSorted vma_start (in_order t)
      → Inserted memory n t lines (insert_lines lib memory n t lines)
  unfolding insert_lines
  insert_lines-Inserted n t [] s = (s, rw append-nil (Perm.refl (in_order t)), refl)
  insert_lines-Inserted n t (line ∷ lines) s = elim (Bool-cases (memory.calloc n)) [
    | inr lost ↦ rw lost (s, rw append-nil (Perm.refl (in_order t)), ground arith)
    | inl made ↦
        let v = vma_of (memory.strdup n) (scan_line line) in
        let t' = insert_node vma_start lib t v in
        let s' : IsSorted vma_start (in_order t') =
          rw (insert_node-insert_after vma_start lib t v s)
            (insert_after-IsSorted vma_start v (in_order t) s) in
        let (sorted, same_areas, code) = insert_lines-Inserted (n + 1) t' lines s' in
        rw made (
          sorted,
          Perm.trans same_areas (add_area t v (areas memory (n + 1) lines) s),
          rw code (ground arith),
        )
  ]

  -- For a file that can be opened: the tree of the process has the areas of its lines, in the order
  -- of their start addresses, up to the first line for which there is no memory; the value returned
  -- is 0 if there was memory for all, else 1.
  pub parse_process_memory_maps-areas :
      (old : Tree Vma) (file : CString)
      → let lines = read_lines (length file) file in
        let r = parse_process_memory_maps lib memory old (some file) in
        IsSorted vma_start (in_order r.0)
        × Perm (in_order r.0) (areas memory 0 lines)
        × (r.1 ≡ (if length (areas memory 0 lines) == length lines then 0 else 1))
  unfolding parse_process_memory_maps
  parse_process_memory_maps-areas old file =
      insert_lines-Inserted 0 leaf (read_lines (length file) file) tt
