-- ===== src/BlockCache/Remove.antt =====
-- A list without the first element of a key, and with a new one at its place by the key: what the
-- erasures and the insertions of the block cache do to the tree and to the list of recent use.
use profiling.Prelude.{
  ℕ, suc, ◌<◌, ◌≡◌, ◌≢◌, refl, false, Bool-cases, inl, inr, List, [], ◌∷◌, map, arith, ltb, ◌==◌,
  if◌then◌else◌, length, times, All, All-map,
}
use profiling.Tree.Order.{IsStrict}
use profiling.Tree.Insert.{insert_after}

module _ {A : Type 0} (key : A → ℕ) where
  abbrev pub remove_key : ℕ → List A → List A
  remove_key o [] = []
  remove_key o (x ∷ xs) = let rest = remove_key o xs in if key x == o then xs else x ∷ rest

  abbrev pub keys : List A → List ℕ
  keys xs = map key xs

  pub remove_key-All : (P : A → Type 0) (o : ℕ) (xs : List A) → All P xs → All P (remove_key o xs)
  remove_key-All P o [] h = tt
  remove_key-All P o (x ∷ xs) h = elim (Bool-cases (key x == o)) [
    | inl e ↦ rw e h.1
    | inr e ↦ rw e (h.0, remove_key-All P o xs h.1)
  ]

  pub remove_key-IsStrict :
      (order : A → ℕ) (o : ℕ) (xs : List A) → IsStrict order xs → IsStrict order (remove_key o xs)
  remove_key-IsStrict order o [] h = tt
  remove_key-IsStrict order o (x ∷ xs) h = elim (Bool-cases (key x == o)) [
    | inl e ↦ rw e h.1
    | inr e ↦ rw e (remove_key-All _ o xs h.0, remove_key-IsStrict order o xs h.1)
  ]

  pub times-remove_key :
      (a o : ℕ) (xs : List A)
      → 0 < times o (keys xs)
      → times a (o ∷ keys (remove_key o xs)) ≡ times a (keys xs)
  times-remove_key a o [] h = absurd (omega arith)
  times-remove_key a o (x ∷ xs) h = ground (arith, times-remove_key a o xs)

  pub length-remove_key :
      (o : ℕ) (xs : List A) → 0 < times o (keys xs) → suc (length (remove_key o xs)) ≡ length xs
  length-remove_key o [] h = absurd (omega arith)
  length-remove_key o (x ∷ xs) h = ground (arith, length-remove_key o xs)

  pub times-insert_after :
      (a : ℕ) (x : A) (xs : List A)
      → times a (keys (insert_after key x xs)) ≡ times a (key x ∷ keys xs)
  times-insert_after a x [] = refl
  times-insert_after a x (y ∷ ys) = ground (arith, times-insert_after a x ys)

  pub length-insert_after : (x : A) (xs : List A) → length (insert_after key x xs) ≡ suc (length xs)
  length-insert_after x [] = refl
  length-insert_after x (y ∷ ys) = ground (arith, length-insert_after x ys)

  pub All-insert_after :
      (P : A → Type 0) (x : A) (xs : List A) → P x → All P xs → All P (insert_after key x xs)
  All-insert_after P x [] px h = (px, tt)
  All-insert_after P x (y ∷ ys) px h = elim (Bool-cases (ltb (key x) (key y))) [
    | inl less ↦ rw less (px, h)
    | inr more ↦ rw more (h.0, All-insert_after P x ys px h.1)
  ]

  -- A new key keeps the keys apart.
  pub insert_after-IsStrict :
      (x : A) (xs : List A)
      → All (λ y. key y ≢ key x) xs
      → IsStrict key xs
      → IsStrict key (insert_after key x xs)
  insert_after-IsStrict x [] new s = (tt, tt)
  insert_after-IsStrict x (y ∷ ys) new s = elim (Bool-cases (ltb (key x) (key y))) [
    | inl less ↦
        let xy : key x < key y = ground arith in
        rw less
          ((xy, All-map (λ z. key y < key z) (λ z. key x < key z) (λ z h. ground arith) ys s.0), s)
    | inr more ↦ rw more (
      All-insert_after (λ z. key y < key z) x ys (greater x y more new.0) s.0,
      insert_after-IsStrict x ys new.1 s.1,
    )
  ]
    where
      greater : (x y : A) → ltb (key x) (key y) ≡ false → key y ≢ key x → key y < key x
      greater x y more new = ground arith
