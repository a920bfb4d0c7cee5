-- ===== src/Tree/Insert.antt =====
-- The insertion that src/elf/elf.c, src/elf/vma.c and src/utils/elf_cache.c each write out: down to
-- the left below a smaller key, else to the right, then link and rebalance. It puts the new node
-- behind all that are not greater.
use mathlib.Core.List.{Perm}
use mathlib.Core.List.Perm
use native.Mathlib.Nat.{le_trans}
use profiling.Prelude.{
  ℕ, ◌≤◌, ◌≡◌, refl, sym, ap, ◌∙◌, true, Bool-cases, inl, inr, List, [], ◌∷◌, ◌++◌, All-map, arith,
  ltb, if◌then◌else◌, All,
}
use profiling.Tree.{Tree, leaf, node, Side, left, right, in_order, rb_link_node, RbTree}
use profiling.Tree.Order.{IsSorted, IsSorted-left, IsSorted-right, IsSorted-before}

module _ {A : Type 0} (key : A → ℕ) where
  -- The path of the `while (*new_node)` loop.
  unfoldable pub insert_path : ℕ → Tree A → List Side
  insert_path k leaf = []
  insert_path k (node l y r) =
      if ltb k (key y) then left ∷ insert_path k l else right ∷ insert_path k r

  unfoldable pub insert_node : RbTree A → Tree A → A → Tree A
  unfolding insert_path rb_link_node
  insert_node lib t x =
      let path = insert_path (key x) t in lib.rb_insert_color (rb_link_node t path x) path

  -- The specification, on the nodes in their order.
  abbrev pub insert_after : A → List A → List A
  insert_after x [] = x ∷ []
  insert_after x (y ∷ ys) = if ltb (key x) (key y) then x ∷ y ∷ ys else y ∷ insert_after x ys

  insert_after-left :
      (x : A) (xs : List A) (y : A) (ys : List A)
      → ltb (key x) (key y) ≡ true
      → insert_after x (xs ++ (y ∷ ys)) ≡ insert_after x xs ++ (y ∷ ys)
  insert_after-left x [] y ys h = rw h
  insert_after-left x (z ∷ xs) y ys h = ground (arith, insert_after-left x xs y ys h)

  insert_after-right :
      (x : A) (xs ys : List A)
      → All (λ y. key y ≤ key x) xs
      → insert_after x (xs ++ ys) ≡ xs ++ insert_after x ys
  insert_after-right x [] ys h = refl
  insert_after-right x (y ∷ xs) ys h = ground (arith, insert_after-right x xs ys h.1)

  link-insert_path :
      (t : Tree A) (x : A)
      → IsSorted key (in_order t)
      → in_order (rb_link_node t (insert_path (key x) t) x) ≡ insert_after x (in_order t)
  unfolding insert_path rb_link_node
  link-insert_path leaf x s = refl
  link-insert_path (node l y r) x s = elim (Bool-cases (ltb (key x) (key y))) [
    | inl less ↦
        rw (less, rb_link_node)
          (ap (λ xs. xs ++ (y ∷ in_order r))
              (link-insert_path l x (IsSorted-left key (in_order l) _ s))
            ∙ sym (insert_after-left x (in_order l) y (in_order r) less))
    | inr not_less ↦
        let before = IsSorted-before key (in_order l) y (in_order r) s in
        let after = (IsSorted-right key (in_order l) (y ∷ in_order r) s).1 in
        rw not_less (
          rw
            (insert_after-right x (in_order l) (y ∷ in_order r) (
              All-map (λ z. key z ≤ key y) (λ z. key z ≤ key x) (λ z h. ground arith) (in_order l)
                before))
            (rw not_less (ap (λ xs. in_order l ++ (y ∷ xs)) (link-insert_path r x after))))
  ]

  -- Whatever the library does to the shape, the order is that of the specification.
  pub insert_node-insert_after :
      (lib : RbTree A) (t : Tree A) (x : A)
      → IsSorted key (in_order t)
      → in_order (insert_node lib t x) ≡ insert_after x (in_order t)
  unfolding insert_node
  insert_node-insert_after lib t x s = lib.in_order-rb_insert_color _ _ ∙ link-insert_path t x s

  All-insert_after :
      (P : A → Type 0) (x : A) (xs : List A) → P x → All P xs → All P (insert_after x xs)
  All-insert_after P x [] px h = (px, tt)
  All-insert_after P x (y ∷ ys) px h = elim (Bool-cases (ltb (key x) (key y))) [
    | inl less ↦ rw less (px, h)
    | inr more ↦ rw more (h.0, All-insert_after P x ys px h.1)
  ]

  pub insert_after-IsSorted :
      (x : A) (xs : List A) → IsSorted key xs → IsSorted key (insert_after x xs)
  insert_after-IsSorted x [] s = (tt, tt)
  insert_after-IsSorted x (y ∷ ys) s = elim (Bool-cases (ltb (key x) (key y))) [
    | inl less ↦
        let xy : key x ≤ key y = ground arith in
        rw less
          ((xy, All-map (λ z. key y ≤ key z) (λ z. key x ≤ key z) (λ z h. le_trans xy h) ys s.0), s)
    | inr more ↦ rw more (
      All-insert_after (λ z. key y ≤ key z) x ys (ground arith) s.0,
      insert_after-IsSorted x ys s.1,
    )
  ]

  pub insert_after-perm : (x : A) (xs : List A) → Perm (insert_after x xs) (x ∷ xs)
  insert_after-perm x [] = Perm.refl (x ∷ [])
  insert_after-perm x (y ∷ ys) = elim (Bool-cases (ltb (key x) (key y))) [
    | inl less ↦ rw less (Perm.refl (x ∷ y ∷ ys))
    | inr more ↦ rw more (Perm.trans (Perm.cons y (insert_after-perm x ys)) (Perm.swap x y ys))
  ]
