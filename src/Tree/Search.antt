-- ===== src/Tree/Search.antt =====
-- The search for the node whose range [lo, hi) holds an address, as src/core/process.c,
-- src/elf/symbol_table.c and src/utils/elf_cache.c do it on their trees.
use profiling.Prelude.{
  ℕ, ◌≤◌, ◌≡◌, refl, sym, ◌∙◌, Bool, true, false, ◌&&◌, Bool-cases, inl, inr, Option, none, some,
  List, [], ◌∷◌, ◌++◌, arith, ltb, leb, if◌then◌else◌, All, All-map, All-append_right,
  All-append_left,
}
use profiling.Tree.{Tree, leaf, node, in_order}

module _ {A : Type 0} (lo hi : A → ℕ) (a : ℕ) where
  unfoldable pub interval_search : Tree A → Option A
  interval_search leaf = none
  interval_search (node l x r) =
      if ltb a (lo x) then interval_search l else if leb (hi x) a then interval_search r else some x

  abbrev pub holds : A → Bool
  holds x = leb (lo x) a && ltb a (hi x)

  -- The specification: the first node in order whose range holds the address.
  abbrev pub first_holding : List A → Option A
  first_holding [] = none
  first_holding (x ∷ xs) = if holds x then some x else first_holding xs

  first_holding-skip :
      (xs ys : List A) → All (λ x. holds x ≡ false) xs → first_holding (xs ++ ys) ≡ first_holding ys
  first_holding-skip [] ys h = refl
  first_holding-skip (x ∷ xs) ys h = rw h.0 (first_holding-skip xs ys h.1)

  first_holding-none : (xs : List A) → All (λ x. holds x ≡ false) xs → first_holding xs ≡ none
  first_holding-none [] h = refl
  first_holding-none (x ∷ xs) h = rw h.0 (first_holding-none xs h.1)

  first_holding-left :
      (xs ys : List A) → All (λ x. holds x ≡ false) ys → first_holding (xs ++ ys) ≡ first_holding xs
  first_holding-left [] ys h = first_holding-none ys h
  first_holding-left (x ∷ xs) ys h = ground (arith, first_holding-left xs ys h)

module _ {A : Type 0} (lo hi : A → ℕ) where
  -- The ranges follow one another without overlap.
  abbrev pub IsDisjoint : List A → Type 0
  IsDisjoint [] = Unit
  IsDisjoint (x ∷ xs) = (lo x ≤ hi x) × All (λ y. hi x ≤ lo y) xs × IsDisjoint xs

  pub IsDisjoint-left : (xs ys : List A) → IsDisjoint (xs ++ ys) → IsDisjoint xs
  IsDisjoint-left [] ys d = tt
  IsDisjoint-left (x ∷ xs) ys d = (d.0, All-append_left _ xs ys d.1, IsDisjoint-left xs ys d.2)

  pub IsDisjoint-right : (xs ys : List A) → IsDisjoint (xs ++ ys) → IsDisjoint ys
  IsDisjoint-right [] ys d = d
  IsDisjoint-right (x ∷ xs) ys d = IsDisjoint-right xs ys d.2

  IsDisjoint-before :
      (xs : List A) (y : A) (ys : List A) → IsDisjoint (xs ++ (y ∷ ys)) → All (λ x. hi x ≤ lo y) xs
  IsDisjoint-before [] y ys d = tt
  IsDisjoint-before (x ∷ xs) y ys d =
      ((All-append_right _ xs (y ∷ ys) d.1).0, IsDisjoint-before xs y ys d.2)

  -- On ranges without overlap the descent finds the node whose range holds the address, if there
  -- is one.
  pub interval_search-first_holding :
      (a : ℕ) (t : Tree A)
      → IsDisjoint (in_order t)
      → interval_search lo hi a t ≡ first_holding lo hi a (in_order t)
  unfolding interval_search
  interval_search-first_holding a leaf d = refl
  interval_search-first_holding a (node l x r) d =
      let (order, after, _) = IsDisjoint-right (in_order l) (x ∷ in_order r) d in
      let before = IsDisjoint-before (in_order l) x (in_order r) d in
      elim (Bool-cases (ltb a (lo x))) [
        | inl less ↦ rw less (
            interval_search-first_holding a l (IsDisjoint-left (in_order l) _ d)
            ∙ sym (
                first_holding-left lo hi a (in_order l) (x ∷ in_order r) (
                  ground arith,
                  All-map _ _ (λ y (h : hi x ≤ lo y). ground arith) (in_order r) after,
                )))
        | inr not_less ↦
            let skipped : All (λ y. holds lo hi a y ≡ false) (in_order l) =
              All-map _ _ (λ y (h : hi y ≤ lo x). ground arith) (in_order l) before in
            rw (not_less, first_holding-skip lo hi a (in_order l) (x ∷ in_order r) skipped)
              (elim (Bool-cases (leb (hi x) a)) [
                | inl past ↦
                    rw (past, outside x order past)
                      (interval_search-first_holding a r
                        (IsDisjoint-right (in_order l) (x ∷ in_order r) d).2)
                | inr inside ↦ ground arith
              ])
      ]
    where
      outside : (x : A) → lo x ≤ hi x → leb (hi x) a ≡ true → holds lo hi a x ≡ false
      outside x order past = ground arith
