-- ===== src/ElfFiles/Share.antt =====
-- `find_or_create_elf` counts the uses of a file, and `release_elf_by_ptr` takes one back.
use mathlib.Core.Path.{subst}
use profiling.Prelude.{
  ℕ, ◌+◌, ◌<◌, ◌≡◌, refl, sym, ap, ◌∙◌, true, false, Bool-cases, inl, inr, Option, none, some, ◌∷◌,
  arith, length, length-set, ◌==◌, OrNone,
}
use profiling.CString.{CString, same, same-eq, same_refl}
use profiling.Hash.{hash_str, hash_str_lt, hashtable_size}
use profiling.Tree.{RbTree}
use profiling.ElfSymbols.{SymbolInfo, SymbolCollection}
use profiling.ElfFiles.Bucket.{
  find_id-head, find_id-behind, remove_id-head, find_id-build_id, find_id-Lacks,
  store_count-IsBucket, recounted, find_id-store_self, find_id-store_ne, find_id-remove_ne,
}
use profiling.ElfFiles.Cache.{
  bucket-set_self, IsElfCache, set-IsElfCache, find-set_self, find-set_ne,
}
use profiling.ElfFiles.{
  decremented, is_absolute, or_else, host_path, ElfFile, ElfFileCache, bucket, ElfData, Files,
  find_id, find_elf_in_table, insert_elf_into_table, store_count, set_count, insert_new_file,
  create_file, share_file, with_build_id, with_elf, find_or_create_elf, remove_id, remove_elf,
  release_elf_by_ptr,
}

-- The searches after a write to a count, and after a removal.
find-set_count_self :
    (cache : ElfFileCache) (id : CString) (count : ℕ)
    → length cache ≡ hashtable_size
    → find_elf_in_table (set_count cache id count) id ≡ recounted count (find_elf_in_table cache id)
unfolding set_count find_elf_in_table
find-set_count_self cache id count h =
    find-set_self cache id _ h ∙ find_id-store_self id count (bucket cache (hash_str id))

find-set_count_ne :
    (cache : ElfFileCache) (id q : CString) (count : ℕ)
    → length cache ≡ hashtable_size
    → same id q ≡ false
    → find_elf_in_table (set_count cache id count) q ≡ find_elf_in_table cache q
unfolding set_count
find-set_count_ne cache id q count h ne =
    find-set_ne cache id q _ (find_id-store_ne id q count (bucket cache (hash_str id)) ne) h

find-remove_elf_ne :
    (cache : ElfFileCache) (id q : CString)
    → length cache ≡ hashtable_size
    → same id q ≡ false
    → find_elf_in_table (remove_elf cache id) q ≡ find_elf_in_table cache q
unfolding remove_elf
find-remove_elf_ne cache id q h ne =
    find-set_ne cache id q _ (find_id-remove_ne id q (bucket cache (hash_str id)) ne) h

length-set_count :
    (cache : ElfFileCache) (id : CString) (count : ℕ)
    → length (set_count cache id count) ≡ length cache
unfolding set_count
length-set_count cache id count = length-set cache (hash_str id) _

set_count-IsElfCache :
    (cache : ElfFileCache) (id : CString) (count : ℕ)
    → 0 < count
    → IsElfCache cache
    → IsElfCache (set_count cache id count)
unfolding set_count
set_count-IsElfCache cache id count pos h =
    set-IsElfCache cache (hash_str id) _ (hash_str_lt id) h
      (store_count-IsBucket id count (hash_str id) _ pos (h.buckets (hash_str id)))

abbrev pub count_of : Option ElfFile → ℕ
count_of none = 0
count_of (some file) = file.reference_count

-- What a call with a result, or NULL, has done.
abbrev pub Shares : ElfFileCache → ElfFileCache × Option ElfFile → Type 0
Shares cache (cache', none) = cache' ≡ cache
Shares cache (cache', some file) =
    IsElfCache cache'
    × (find_elf_in_table cache' file.build_id ≡ some file)
    × (file.reference_count ≡ count_of (find_elf_in_table cache file.build_id) + 1)
    × ((q : CString)
        → same file.build_id q ≡ false
        → find_elf_in_table cache' q ≡ find_elf_in_table cache q)
    × ((q : CString)
        → find_elf_in_table (release_elf_by_ptr cache' (some file)) q ≡ find_elf_in_table cache q)

module _ (cache : ElfFileCache) (h : IsElfCache cache) where
  -- By the result of `same`, the search for an id is that for `id`, or it is another.
  by_id :
      (P : CString → Type 0) (id : CString)
      → P id
      → ((q : CString) → same id q ≡ false → P q)
      → (q : CString) → P q
  by_id P id self others q = elim (Bool-cases (same id q)) [
    | inl e ↦ subst P (same-eq id q e) self
    | inr e ↦ others q e
  ]

  hit-Shares :
      (file : ElfFile)
      → find_elf_in_table cache file.build_id ≡ some file
      → 0 < file.reference_count
      → Shares cache (
        set_count cache file.build_id (file.reference_count + 1),
        some (record file { reference_count = file.reference_count + 1 }),
      )
  unfolding release_elf_by_ptr
  hit-Shares file e pos =
      let id = file.build_id in
      let n = file.reference_count in
      let cache' = set_count cache id (n + 1) in
      let size : length cache' ≡ hashtable_size = length-set_count cache id (n + 1) ∙ h.size in
      let self : find_elf_in_table cache' id ≡ some (record file { reference_count = n + 1 }) =
        find-set_count_self cache id (n + 1) h.size ∙ ap (recounted (n + 1)) e in
      let back : decremented (n + 1) ≡ n = ground arith in
      let used : (n == 0) ≡ false = ground arith in
      (
        set_count-IsElfCache cache id (n + 1) (omega arith) h,
        self,
        ap (λ r. count_of r + 1) (sym e),
        λ q ne. find-set_count_ne cache id q (n + 1) h.size ne,
        rw (back, used)
            (by_id (λ q. find_elf_in_table (set_count cache' id n) q ≡ find_elf_in_table cache q) id
              (find-set_count_self cache' id n size ∙ ap (recounted n) self ∙ sym e)
              (λ q ne.
                find-set_count_ne cache' id q n size ne
                ∙ find-set_count_ne cache id q (n + 1) h.size ne)),
      )

  miss-Shares :
      (file : ElfFile)
      → find_elf_in_table cache file.build_id ≡ none
      → file.reference_count ≡ 1
      → Shares cache (insert_elf_into_table cache file, some file)
  unfolding insert_elf_into_table release_elf_by_ptr
  miss-Shares file new one =
      let id = file.build_id in
      let files = bucket cache (hash_str id) in
      let cache' = insert_elf_into_table cache file in
      let size : length cache' ≡ hashtable_size = length-set cache (hash_str id) _ ∙ h.size in
      let count = decremented file.reference_count in
      let counted = set_count cache' id count in
      let size' : length counted ≡ hashtable_size = length-set_count cache' id count ∙ size in
      let unused : (count == 0) ≡ true = ground arith in
      let left : bucket counted (hash_str id) ≡ store_count id count (file ∷ files) =
        unfold set_count in
        bucket-set_self cache' id _ size
        ∙ ap (store_count id count) (bucket-set_self cache id (file ∷ files) h.size) in
      (
        set-IsElfCache cache (hash_str id) (file ∷ files) (hash_str_lt id) h (
          refl,
          find_id-Lacks id files (unfold find_elf_in_table in new),
          omega (arith, one),
          h.buckets (hash_str id),
        ),
        find-set_self cache id (file ∷ files) h.size ∙ find_id-head id file files (same_refl id),
        one ∙ ap (λ r. count_of r + 1) (sym new),
        λ q ne. find-set_ne cache id q (file ∷ files) (find_id-behind q file files ne) h.size,
        rw unused (
            by_id (λ q. find_elf_in_table (remove_elf counted id) q ≡ find_elf_in_table cache q) id
              (unfold remove_elf in
                find-set_self counted id _ size'
                ∙ ap (λ l. find_id id (remove_id id l)) left
                ∙ ap (find_id id) (remove_id-head id count file files (same_refl id))
                ∙ unfold find_elf_in_table in refl)
              (λ q ne.
                find-remove_elf_ne counted id q size' ne
                ∙ find-set_count_ne cache' id q count size ne
                ∙ find-set_ne cache id q (file ∷ files) (find_id-behind q file files ne) h.size)),
      )

  module _ (lib : RbTree SymbolInfo) (files : Files) (filename : CString) where
    create_file-Shares :
        (elf : ElfData) (id : CString)
        → find_elf_in_table cache id ≡ none
        → Shares cache (create_file lib files cache filename elf id)
    unfolding create_file
    create_file-Shares elf id new = elim (Bool-cases files.node) [
      | inr e ↦ rw e refl
      | inl e ↦ elim (Bool-cases files.path_string) [
        | inr p ↦ rw (e, p) refl
        | inl p ↦ rw (e, p) (inserted id new _)
      ]
    ]
      where
        inserted :
            (id : CString)
            → find_elf_in_table cache id ≡ none
            → (symbols : Option SymbolCollection)
            → Shares cache (insert_new_file lib files cache filename id symbols)
        inserted id new none = unfold insert_new_file in refl
        inserted id new (some symbols) = unfold insert_new_file in miss-Shares _ new refl

    share_file-Shares :
        (elf : ElfData) (id : CString) (found : Option ElfFile)
        → find_elf_in_table cache id ≡ found
        → OrNone (λ file. (file.build_id ≡ id) × (0 < file.reference_count)) found
        → Shares cache (share_file lib files cache filename elf id found)
    unfolding share_file
    share_file-Shares elf id none e h' = create_file-Shares elf id e
    share_file-Shares elf id (some file) e h' =
        subst
          (λ i. Shares cache (
            set_count cache i (file.reference_count + 1),
            some (record file { reference_count = file.reference_count + 1 }),
          ))
          h'.0 (hit-Shares file (ap (find_elf_in_table cache) h'.0 ∙ e) h'.1)

    with_elf-Shares : (elf : Option ElfData) → Shares cache (with_elf lib files cache filename elf)
    unfolding with_elf
    with_elf-Shares none = refl
    with_elf-Shares (some elf) = by_build_id elf _
      where
        by_build_id :
            (elf : ElfData) (id : Option CString)
            → Shares cache (with_build_id lib files cache filename elf id)
        by_build_id elf none = unfold with_build_id in refl
        by_build_id elf (some id) =
            unfold with_build_id in
            share_file-Shares elf id (find_elf_in_table cache id) refl (
              unfold find_elf_in_table in
              find_id-build_id id (hash_str id) _ (h.buckets (hash_str id)))

-- In a well-formed cache, where each file is in the bucket of its build id, once and with a count of
-- at least 1: find_or_create_elf returns NULL and leaves the cache alone, or leaves a well-formed
-- cache that has the file it returns, with a count one greater than before (0 for one that was not
-- there), and all others as before; release_elf_by_ptr then gives every build id what it had.
pub find_or_create_elf-Shares :
    (lib : RbTree SymbolInfo) (files : Files) (cache : ElfFileCache) (pid : ℕ) (filename : CString)
    → IsElfCache cache
    → Shares cache (find_or_create_elf lib files cache pid filename)
unfolding find_or_create_elf
find_or_create_elf-Shares lib files cache pid filename h =
    let opened = or_else (files.open_elf (host_path pid filename)) (files.open_elf filename) in
    elim (Bool-cases (is_absolute filename)) [
      | inr e ↦ rw e refl
      | inl e ↦ rw e (with_elf-Shares cache h lib files filename opened)
    ]
