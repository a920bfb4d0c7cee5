-- ===== src/Tree/Order.antt =====
-- Lists in the order of a key.
use profiling.Prelude.{ℕ, ◌≤◌, ◌<◌, List, [], ◌∷◌, ◌++◌, All, All-append_left, All-append_right}

module _ {A : Type 0} (key : A → ℕ) where
  -- Keys do not decrease.
  abbrev pub IsSorted : List A → Type 0
  IsSorted [] = Unit
  IsSorted (x ∷ xs) = All (λ y. key x ≤ key y) xs × IsSorted xs

  -- Keys increase.
  abbrev pub IsStrict : List A → Type 0
  IsStrict [] = Unit
  IsStrict (x ∷ xs) = All (λ y. key x < key y) xs × IsStrict xs

  pub IsSorted-left : (xs ys : List A) → IsSorted (xs ++ ys) → IsSorted xs
  IsSorted-left [] ys s = tt
  IsSorted-left (x ∷ xs) ys s = (All-append_left _ xs ys s.0, IsSorted-left xs ys s.1)

  pub IsSorted-right : (xs ys : List A) → IsSorted (xs ++ ys) → IsSorted ys
  IsSorted-right [] ys s = s
  IsSorted-right (x ∷ xs) ys s = IsSorted-right xs ys s.1

  -- What stands before an element has no greater key.
  pub IsSorted-before :
      (xs : List A) (y : A) (ys : List A) → IsSorted (xs ++ (y ∷ ys)) → All (λ x. key x ≤ key y) xs
  IsSorted-before [] y ys s = tt
  IsSorted-before (x ∷ xs) y ys s =
      ((All-append_right _ xs (y ∷ ys) s.0).0, IsSorted-before xs y ys s.1)

  pub IsStrict-left : (xs ys : List A) → IsStrict (xs ++ ys) → IsStrict xs
  IsStrict-left [] ys s = tt
  IsStrict-left (x ∷ xs) ys s = (All-append_left _ xs ys s.0, IsStrict-left xs ys s.1)

  pub IsStrict-right : (xs ys : List A) → IsStrict (xs ++ ys) → IsStrict ys
  IsStrict-right [] ys s = s
  IsStrict-right (x ∷ xs) ys s = IsStrict-right xs ys s.1

  pub IsStrict-before :
      (xs : List A) (y : A) (ys : List A) → IsStrict (xs ++ (y ∷ ys)) → All (λ x. key x < key y) xs
  IsStrict-before [] y ys s = tt
  IsStrict-before (x ∷ xs) y ys s =
      ((All-append_right _ xs (y ∷ ys) s.0).0, IsStrict-before xs y ys s.1)
