-- ===== src/QueryTool/Values.antt =====
-- The values of a stack in a chain, in a table and in the rows of an answer.
use profiling.Prelude.{
  ◌||◌, ℕ, zero, suc, ◌+◌, ◌≡◌, ◌≢◌, refl, sym, ap, ap₂, ◌∙◌, Bool, true, false, Option, none, some,
  List, [], ◌∷◌, ◌++◌, append-nil, arith, if◌then◌else◌, get_or, Bool-cases, inl, inr,
}
use profiling.CString.{CString, same, same-eq}
use profiling.QueryTool.{
  HtEntry, HashTable, QueryRow, in_front, add_value, chain_insert, ht_foreach,
}

-- The values of a key, in the order in which they stand.
abbrev pub values_of : CString → List HtEntry → List ℕ
values_of key [] = []
values_of key (entry ∷ entries) =
    if same entry.key key then entry.value ∷ values_of key entries else values_of key entries

-- A value added to the first of a list, or put in an empty one.
abbrev pub bump : ℕ → List ℕ → List ℕ
bump n [] = n ∷ []
bump n (x ∷ xs) = (x + n) ∷ xs

-- All rows of a key added.
abbrev pub bump_all : CString → List QueryRow → List ℕ → List ℕ
bump_all key [] values = values
bump_all key ((none, count) ∷ rows) values = bump_all key rows values
bump_all key ((some stack, count) ∷ rows) values =
    bump_all key rows (if same stack key then bump count values else values)

-- Chain and table, seen through the values of the key.
abbrev Added : CString → ℕ → CString → List HtEntry → Option (List HtEntry) → Type 0
Added key n other chain none = values_of key chain ≡ []
Added key n other chain (some added) =
    values_of other added
    ≡ (if same key other then bump n (values_of other chain) else values_of other chain)

in_front-Added :
    (key : CString) (n : ℕ) (other : CString) (entry : HtEntry) (chain : List HtEntry)
    (rest : Option (List HtEntry))
    → same entry.key key ≡ false
    → Added key n other chain rest
    → Added key n other (entry ∷ chain) (in_front entry rest)
in_front-Added key n other entry chain none ne h = rw ne h
in_front-Added key n other entry chain (some added) ne h = elim (Bool-cases (same key other)) [
  | inl e ↦
      let unlike : same entry.key other ≡ false =
        ap (same entry.key) (sym (same-eq key other e)) ∙ ne in
      let h' : values_of other added ≡ bump n (values_of other chain) = rw e at h in
      rw (unlike, e) h'
  | inr e ↦ let h' : values_of other added ≡ values_of other chain = rw e at h in rw (e, h') refl
]

add_value-Added :
    (key : CString) (n : ℕ) (other : CString) (chain : List HtEntry)
    → Added key n other chain (add_value key n chain)
unfolding add_value
add_value-Added key n other [] = refl
add_value-Added key n other (entry ∷ chain) = elim (Bool-cases (same entry.key key)) [
  | inl here ↦
      let alike : same entry.key other ≡ same key other =
        ap (λ k. same k other) (same-eq entry.key key here) in
      elim (Bool-cases (same key other)) [
        | inl e ↦ rw (here, alike, e) refl
        | inr e ↦ rw (here, alike, e) refl
      ]
  | inr there ↦
      rw there (in_front-Added key n other entry chain _ there (add_value-Added key n other chain))
]

-- The chain after `ht_insert`, with memory.
pub chain_insert-values_of :
    (key : CString) (n : ℕ) (other : CString) (chain : List HtEntry)
    → values_of other (chain_insert true key n chain)
      ≡ (if same key other then bump n (values_of other chain) else values_of other chain)
unfolding chain_insert
chain_insert-values_of key n other chain =
    found (add_value key n chain) (add_value-Added key n other chain)
      (add_value-Added key n key chain)
  where
    found :
        (added : Option (List HtEntry))
        → Added key n other chain added
        → Added key n key chain added
        → values_of other
            (elim added [ some chain' ↦ chain' | none ↦ record { key = key; value = n } ∷ chain ])
          ≡ (if same key other then bump n (values_of other chain) else values_of other chain)
    found (some added) h k = h
    found none h k = elim (Bool-cases (same key other)) [
      | inl e ↦
          let none_of_it : values_of other chain ≡ [] =
            ap (λ o. values_of o chain) (sym (same-eq key other e)) ∙ k in
          rw (e, none_of_it) refl
      | inr e ↦ rw e refl
    ]

-- The rows of a stack: whether there is one, and the sum of their counts.
abbrev pub has_stack : CString → List QueryRow → Bool
has_stack key [] = false
has_stack key ((none, count) ∷ rows) = has_stack key rows
has_stack key ((some stack, count) ∷ rows) = same stack key || has_stack key rows

abbrev pub total_count : CString → List QueryRow → ℕ
total_count key [] = 0
total_count key ((none, count) ∷ rows) = total_count key rows
total_count key ((some stack, count) ∷ rows) =
    (if same stack key then count else 0) + total_count key rows

bump_all-one :
    (key : CString) (rows : List QueryRow) (n : ℕ)
    → bump_all key rows (n ∷ []) ≡ (n + total_count key rows) ∷ []
bump_all-one key [] n = ap (λ k. k ∷ []) (omega arith)
bump_all-one key ((none, count) ∷ rows) n = bump_all-one key rows n
bump_all-one key ((some stack, count) ∷ rows) n = elim (Bool-cases (same stack key)) [
  | inl e ↦ rw e (bump_all-one key rows (n + count) ∙ ap (λ k. k ∷ []) (omega arith))
  | inr e ↦ rw e (bump_all-one key rows n ∙ ap (λ k. k ∷ []) (omega arith))
]

-- One value, the sum, where there is a row; none where there is no row.
pub bump_all-none :
    (key : CString) (rows : List QueryRow)
    → bump_all key rows [] ≡ (if has_stack key rows then total_count key rows ∷ [] else [])
bump_all-none key [] = refl
bump_all-none key ((none, count) ∷ rows) = bump_all-none key rows
bump_all-none key ((some stack, count) ∷ rows) = elim (Bool-cases (same stack key)) [
  | inl e ↦ rw e (bump_all-one key rows count)
  | inr e ↦
      let zero_add : 0 + total_count key rows ≡ total_count key rows = omega arith in
      rw (e, zero_add) (bump_all-none key rows)
]

values_of-append :
    (key : CString) (xs ys : List HtEntry)
    → values_of key (xs ++ ys) ≡ values_of key xs ++ values_of key ys
values_of-append key [] ys = refl
values_of-append key (entry ∷ xs) ys = elim (Bool-cases (same entry.key key)) [
  | inl e ↦ rw (e, values_of-append key xs ys) refl
  | inr e ↦ rw (e, values_of-append key xs ys) refl
]

-- A table has the values of a key where the bucket has them.
ht_foreach-none :
    (key : CString) (table : HashTable)
    → ((i : ℕ) → values_of key (get_or table i []) ≡ [])
    → values_of key (ht_foreach table) ≡ []
unfolding ht_foreach
ht_foreach-none key [] h = refl
ht_foreach-none key (chain ∷ table) h =
    values_of-append key chain (ht_foreach table)
    ∙ ap₂ ◌++◌ (h 0) (ht_foreach-none key table (λ i. h (suc i)))

pub ht_foreach-bucket :
    (key : CString) (slot : ℕ) (table : HashTable)
    → ((i : ℕ) → slot ≢ i → values_of key (get_or table i []) ≡ [])
    → values_of key (ht_foreach table) ≡ values_of key (get_or table slot [])
unfolding ht_foreach
ht_foreach-bucket key slot [] h = refl
ht_foreach-bucket key zero (chain ∷ table) h =
    values_of-append key chain (ht_foreach table)
    ∙ ap (λ l. values_of key chain ++ l)
        (ht_foreach-none key table (λ i. h (suc i) (λ e. absurd (omega (arith, e)))))
    ∙ append-nil (values_of key chain)
ht_foreach-bucket key (suc slot) (chain ∷ table) h =
    values_of-append key chain (ht_foreach table)
    ∙ ap₂ ◌++◌ (h 0 (λ e. absurd (omega (arith, e))))
        (ht_foreach-bucket key slot table (λ i ne. h (suc i) (λ e. ne (omega (arith, e)))))
