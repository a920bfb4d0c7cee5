-- ===== src/KernelSymbols/Insert.antt =====
-- Insertion keeps the addresses increasing, and keeps the first symbol of an address.
use mathlib.Core.Path.{subst}
use profiling.Prelude.{
  ℕ, ◌≤◌, ◌<◌, ◌≡◌, refl, sym, ap, ◌∙◌, ◌⊎◌, Bool, true, false, ◌||◌, Bool-cases, Option-cases, inl,
  inr, Option, none, some, List, [], ◌∷◌, ◌++◌, arith, ltb, ◌==◌, if◌then◌else◌, All, All-map,
}
use profiling.Tree.{Tree, leaf, node, left, right, Side, in_order, rb_link_node, RbTree}
use profiling.Tree.Order.{IsStrict, IsStrict-left, IsStrict-right, IsStrict-before}
use profiling.KernelSymbols.{
  KernelSymbol, add_side, find_link, insert_symbol, load_symbol, load_lines, Line, scan_symbol,
}

abbrev key : KernelSymbol → ℕ
key s = s.address

-- Whether some symbol of the list has the address.
abbrev pub has_address : ℕ → List KernelSymbol → Bool
has_address a [] = false
has_address a (x ∷ xs) = (a == x.address) || has_address a xs

-- The specification: the symbol at its place by address, unless its address is taken.
abbrev pub insert_new : KernelSymbol → List KernelSymbol → List KernelSymbol
insert_new s [] = s ∷ []
insert_new s (x ∷ xs) =
    if ltb s.address x.address
    then s ∷ x ∷ xs
    else if ltb x.address s.address
    then x ∷ insert_new s xs
    else x ∷ xs

insert_new-left :
    (s : KernelSymbol) (xs : List KernelSymbol) (y : KernelSymbol) (ys : List KernelSymbol)
    → ltb s.address y.address ≡ true
    → insert_new s (xs ++ (y ∷ ys)) ≡ insert_new s xs ++ (y ∷ ys)
insert_new-left s [] y ys h = rw h
insert_new-left s (z ∷ xs) y ys h = ground (arith, insert_new-left s xs y ys h)

insert_new-right :
    (s : KernelSymbol) (xs ys : List KernelSymbol)
    → All (λ x. x.address < s.address) xs
    → insert_new s (xs ++ ys) ≡ xs ++ insert_new s ys
insert_new-right s [] ys h = refl
insert_new-right s (x ∷ xs) ys h = ground (arith, insert_new-right s xs ys h.1)

-- Where the descent ends, the tree gets the symbol; where it stops, the address is taken.
abbrev Linked : Tree KernelSymbol → KernelSymbol → Option (List Side) → Type 0
Linked t s none = insert_new s (in_order t) ≡ in_order t
Linked t s (some path) = in_order (rb_link_node t path s) ≡ insert_new s (in_order t)

module _ (l r : Tree KernelSymbol) (y s : KernelSymbol) where
  Linked-left :
      (found : Option (List Side))
      → ltb s.address y.address ≡ true
      → Linked l s found
      → Linked (node l y r) s (add_side left found)
  unfolding add_side rb_link_node
  Linked-left none less h =
      insert_new-left s (in_order l) y (in_order r) less ∙ ap (λ xs. xs ++ (y ∷ in_order r)) h
  Linked-left (some path) less h =
      ap (λ xs. xs ++ (y ∷ in_order r)) h ∙ sym (insert_new-left s (in_order l) y (in_order r) less)

  skip_left :
      IsStrict key (in_order l ++ (y ∷ in_order r))
      → y.address ≤ s.address
      → insert_new s (in_order l ++ (y ∷ in_order r)) ≡ in_order l ++ insert_new s (y ∷ in_order r)
  skip_left st h = insert_new-right s (in_order l) (y ∷ in_order r) (
      All-map (λ x. x.address < y.address) (λ x. x.address < s.address) (λ x p. omega arith)
        (in_order l) (IsStrict-before key (in_order l) y (in_order r) st))

  pass :
      ltb y.address s.address ≡ true → insert_new s (y ∷ in_order r) ≡ y ∷ insert_new s (in_order r)
  pass h = ground arith

  Linked-right :
      (found : Option (List Side))
      → IsStrict key (in_order l ++ (y ∷ in_order r))
      → ltb y.address s.address ≡ true
      → Linked r s found
      → Linked (node l y r) s (add_side right found)
  unfolding add_side rb_link_node
  Linked-right none st more h =
      skip_left st (ground arith) ∙ ap (λ xs. in_order l ++ xs) (pass more ∙ ap (λ xs. y ∷ xs) h)
  Linked-right (some path) st more h =
      ap (λ xs. in_order l ++ (y ∷ xs)) h
      ∙ sym (skip_left st (ground arith) ∙ ap (λ xs. in_order l ++ xs) (pass more))

link-find_link :
    (t : Tree KernelSymbol) (s : KernelSymbol)
    → IsStrict key (in_order t)
    → Linked t s (find_link s.address t)
unfolding find_link rb_link_node
link-find_link leaf s st = refl
link-find_link (node l y r) s st = elim (Bool-cases (ltb s.address y.address)) [
  | inl less ↦ rw less (
      Linked-left l r y s (find_link s.address l) less
        (link-find_link l s (IsStrict-left key (in_order l) (y ∷ in_order r) st)))
  | inr not_less ↦ rw not_less (elim (Bool-cases (ltb y.address s.address)) [
    | inl more ↦ rw more (
        Linked-right l r y s (find_link s.address r) st more
          (link-find_link r s (IsStrict-right key (in_order l) (y ∷ in_order r) st).1))
    | inr not_more ↦ rw not_more (skip_left l r y s st (ground arith) ∙ rw (not_less, not_more))
  ])
]

All-insert_new :
    (P : KernelSymbol → Type 0) (s : KernelSymbol) (xs : List KernelSymbol)
    → P s
    → All P xs
    → All P (insert_new s xs)
All-insert_new P s [] p h = (p, tt)
All-insert_new P s (x ∷ xs) p h = ground (arith, All-insert_new P s xs p h.1)

insert_new-IsStrict :
    (s : KernelSymbol) (xs : List KernelSymbol) → IsStrict key xs → IsStrict key (insert_new s xs)
insert_new-IsStrict s [] st = (tt, tt)
insert_new-IsStrict s (x ∷ xs) st = elim (Bool-cases (ltb s.address x.address)) [
  | inl less ↦
      let sx : s.address < x.address = ground arith in
      rw less (
        (
          sx,
          All-map (λ z. x.address < z.address) (λ z. s.address < z.address) (λ z h. omega arith) xs
              st.0,
        ),
        st,
      )
  | inr not_less ↦ rw not_less (elim (Bool-cases (ltb x.address s.address)) [
    | inl more ↦ rw more (
      All-insert_new (λ z. x.address < z.address) s xs (ground arith) st.0,
      insert_new-IsStrict s xs st.1,
    )
    | inr not_more ↦ rw not_more st
  ])
]

-- What the lines of /proc/kallsyms leave in the table, by the specification: of the text symbols
-- that are scanned and allocated, the first one of each address.
abbrev pub keeps : Bool → Option KernelSymbol → List KernelSymbol → List KernelSymbol
keeps allocated none table = table
keeps allocated (some sym) table =
    if (sym.type == b't') || (sym.type == b'T')
    then (if allocated then insert_new sym table else table)
    else table

abbrev pub table_of : List KernelSymbol → List Line → List KernelSymbol
table_of table [] = table
table_of table (l ∷ ls) = table_of (keeps l.allocated (scan_symbol l.line) table) ls

module _ (lib : RbTree KernelSymbol) where
  -- `insert_symbol` puts the symbol at its place by address, whatever shape the library gives to
  -- the tree; where the address is taken it leaves the tree alone and reports false.
  pub insert_symbol-insert_new :
      (t : Tree KernelSymbol) (s : KernelSymbol)
      → IsStrict key (in_order t)
      → (in_order (insert_symbol lib t s).0 ≡ insert_new s (in_order t))
        × (((insert_symbol lib t s).1 ≡ true) ⊎ ((insert_symbol lib t s).0 ≡ t))
  unfolding insert_symbol
  insert_symbol-insert_new t s st = elim (Option-cases (find_link s.address t)) [
    | inl taken ↦
        let h : insert_new s (in_order t) ≡ in_order t =
          subst (Linked t s) taken (link-find_link t s st) in
        rw (taken, insert_symbol) (sym h, inr refl)
    | inr (path, free) ↦
        let h : in_order (rb_link_node t path s) ≡ insert_new s (in_order t) =
          subst (Linked t s) free (link-find_link t s st) in
        rw (free, insert_symbol) (lib.in_order-rb_insert_color _ _ ∙ h, inl refl)
  ]

  load_symbol-keeps :
      (t : Tree KernelSymbol) (allocated : Bool) (scanned : Option KernelSymbol)
      → IsStrict key (in_order t)
      → (in_order (load_symbol lib t allocated scanned) ≡ keeps allocated scanned (in_order t))
        × IsStrict key (in_order (load_symbol lib t allocated scanned))
  unfolding load_symbol
  load_symbol-keeps t allocated none st = (refl, st)
  load_symbol-keeps t allocated (some s) st =
      let (e, _) = insert_symbol-insert_new t s st in
      let st' : IsStrict key (in_order (insert_symbol lib t s).0) =
        rw e (insert_new-IsStrict s (in_order t) st) in
      elim (Bool-cases ((s.type == b't') || (s.type == b'T'))) [
        | inl is_text ↦ rw is_text (elim (Bool-cases allocated) [
          | inl yes_ ↦ rw yes_ (e, st')
          | inr no_ ↦ rw no_ (refl, st)
        ])
        | inr other ↦ rw other (refl, st)
      ]

  pub load_lines-table_of :
      (ls : List Line) (t : Tree KernelSymbol)
      → IsStrict key (in_order t)
      → (in_order (load_lines lib t ls) ≡ table_of (in_order t) ls)
        × IsStrict key (in_order (load_lines lib t ls))
  unfolding load_lines
  load_lines-table_of [] t st = (refl, st)
  load_lines-table_of (l ∷ ls) t st =
      let (e, st') = load_symbol-keeps t l.allocated (scan_symbol l.line) st in
      let (e', st'') =
        load_lines-table_of ls (load_symbol lib t l.allocated (scan_symbol l.line)) st' in
      (e' ∙ ap (λ table. table_of table ls) e, st'')
