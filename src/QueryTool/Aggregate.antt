-- ===== src/QueryTool/Aggregate.antt =====
-- The hash table of the query tool adds up the counts of each stack.
use mathlib.Core.Path.{subst}
use profiling.Prelude.{
  ℕ, ◌<◌, ◌≡◌, ◌≢◌, refl, sym, ap, ◌∙◌, true, false, none, some, List, [], ◌∷◌, arith,
  if◌then◌else◌, length, get_or, length-set, length-replicate, get_or-set_self, get_or-set_ne,
  get_or-replicate, Bool-cases, inl, inr, ℕ_discrete,
}
use profiling.CString.{CString, same, same-eq}
use profiling.QueryTool.{
  HtEntry, HashTable, QueryRow, hash_table_size, hash_key, ht_create, chain_insert, ht_insert,
  ht_foreach, insert_rows,
}
use profiling.QueryTool.Values.{
  values_of, bump, bump_all, chain_insert-values_of, has_stack, total_count, bump_all-none,
  ht_foreach-bucket,
}

-- Each bucket of a table has the values of the keys with its hash only.
pub record IsTable (table : HashTable) : Type 0 where
  pub buckets : length table ≡ hash_table_size
  pub apart : (key : CString) (i : ℕ) → hash_key key ≢ i → values_of key (get_or table i []) ≡ []

hash_key_lt : (key : CString) → hash_key key < hash_table_size
unfolding hash_key
hash_key_lt key = omega arith

ht_create-IsTable : IsTable ht_create
ht_create-IsTable = record {
  buckets = length-replicate {A = List HtEntry} hash_table_size [];
  apart = λ key i h. ap (values_of key) (get_or-replicate hash_table_size i []);
}

-- The values of the bucket of a key.
abbrev values_in_bucket : CString → HashTable → List ℕ
values_in_bucket key table = values_of key (get_or table (hash_key key) [])

unlike : (key other : CString) → hash_key key ≢ hash_key other → same key other ≡ false
unlike key other ne = elim (Bool-cases (same key other)) [
  | inl s ↦ absurd (ne (ap hash_key (same-eq key other s)))
  | inr s ↦ s
]

module _ (table : HashTable) (key : CString) (n : ℕ) (t : IsTable table) where
  bucket_of_key :
      get_or (ht_insert true table key n) (hash_key key) []
      ≡ chain_insert true key n (get_or table (hash_key key) [])
  unfolding ht_insert
  bucket_of_key =
      get_or-set_self table (hash_key key) _ [] (omega (arith, hash_key_lt key, t.buckets))

  other_bucket :
      (i : ℕ) → hash_key key ≢ i → get_or (ht_insert true table key n) i [] ≡ get_or table i []
  unfolding ht_insert
  other_bucket i ne = get_or-set_ne table (hash_key key) i _ [] ne

  length-ht_insert : length (ht_insert true table key n) ≡ length table
  unfolding ht_insert
  length-ht_insert = length-set table (hash_key key) _

  -- What a key has in the bucket with the hash of the inserted one.
  values_of_bucket :
      (other : CString)
      → values_of other (get_or (ht_insert true table key n) (hash_key key) []) ≡ (
          if same key other
          then bump n (values_of other (get_or table (hash_key key) []))
          else values_of other (get_or table (hash_key key) []))
  values_of_bucket other =
      ap (values_of other) bucket_of_key
      ∙ chain_insert-values_of key n other (get_or table (hash_key key) [])

  ht_insert-IsTable : IsTable (ht_insert true table key n)
  ht_insert-IsTable = record {
    buckets = length-ht_insert ∙ t.buckets;
    apart = λ other i h. elim (ℕ_discrete (hash_key key) i) [
      | yes e ↦
          let ne : same key other ≡ false = unlike key other (λ k. h (sym k ∙ e)) in
          ap (λ j. values_of other (get_or (ht_insert true table key n) j [])) (sym e)
          ∙ values_of_bucket other
          ∙ rw ne (ap (λ j. values_of other (get_or table j [])) e ∙ t.apart other i h)
      | no ne ↦ ap (values_of other) (other_bucket i ne) ∙ t.apart other i h
    ];
  }

  values_in_bucket-ht_insert :
      (other : CString)
      → values_in_bucket other (ht_insert true table key n) ≡ (
          if same key other
          then bump n (values_in_bucket other table)
          else values_in_bucket other table)
  values_in_bucket-ht_insert other = elim (ℕ_discrete (hash_key key) (hash_key other)) [
    | yes e ↦
        let at : ℕ → Type 0 = λ j. values_of other (get_or (ht_insert true table key n) j []) ≡ (
          if same key other
          then bump n (values_of other (get_or table j []))
          else values_of other (get_or table j [])) in
        subst at e (values_of_bucket other)
    | no ne ↦
        ap (values_of other) (other_bucket (hash_key other) ne) ∙ rw (unlike key other ne) refl
  ]

insert_rows-values :
    (rows : List QueryRow) (table : HashTable) (key : CString)
    → IsTable table
    → IsTable (insert_rows table rows)
      × (values_in_bucket key (insert_rows table rows)
          ≡ bump_all key rows (values_in_bucket key table))
unfolding insert_rows
insert_rows-values [] table key t = (t, refl)
insert_rows-values ((none, count) ∷ rows) table key t = insert_rows-values rows table key t
insert_rows-values ((some stack, count) ∷ rows) table key t =
    let rest =
      insert_rows-values rows (ht_insert true table stack count) key
        (ht_insert-IsTable table stack count t) in
    (rest.0, rest.1 ∙ ap (bump_all key rows) (values_in_bucket-ht_insert table stack count t key))

-- With memory for the entries: for rows in whatever order, with NULL stacks that are left out, a
-- stack that some row has is printed exactly once, with the sum of the counts of its rows; and no
-- other stack is printed.
pub values_of-insert_rows :
    (rows : List QueryRow) (key : CString)
    → values_of key (ht_foreach (insert_rows ht_create rows))
      ≡ (if has_stack key rows then total_count key rows ∷ [] else [])
values_of-insert_rows rows key =
    let done = insert_rows-values rows ht_create key ht_create-IsTable in
    ht_foreach-bucket key (hash_key key) (insert_rows ht_create rows) (done.0.apart key)
    ∙ done.1
    ∙ ap (bump_all key rows)
        (ap (values_of key) (get_or-replicate hash_table_size (hash_key key) []))
    ∙ bump_all-none key rows
