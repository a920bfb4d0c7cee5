-- ===== src/ElfFiles/Bucket.antt =====
-- One bucket of the cache: what a write to a count and a removal make of it.
use mathlib.Core.Path.{subst}
use profiling.Prelude.{
  ℕ, ◌<◌, ◌≡◌, refl, sym, ap, true, false, Bool-cases, inl, inr, Option, none, some, List, [], ◌∷◌,
  arith, if◌then◌else◌, OrNone,
}
use profiling.CString.{CString, same, same-eq, same_refl}
use profiling.ElfFiles.Cache.{Lacks, IsBucket}
use profiling.ElfFiles.{ElfFile, find_id, store_count, remove_id}

pub same_sym : (a b : CString) → same a b ≡ false → same b a ≡ false
same_sym a b h = elim (Bool-cases (same b a)) [
  | inr e ↦ e
  | inl e ↦ absurd (contradicts (subst (λ x. same a x ≡ false) (same-eq b a e) h))
]
  where
    contradicts : same a a ≡ false → ⊥
    contradicts e = let f = same_refl a in ground arith

pub find_id-Lacks : (id : CString) (files : List ElfFile) → find_id id files ≡ none → Lacks id files
unfolding find_id
find_id-Lacks id [] h = tt
find_id-Lacks id (file ∷ files) h = ground (arith, find_id-Lacks id files)

pub Lacks-find_id : (id : CString) (files : List ElfFile) → Lacks id files → find_id id files ≡ none
unfolding find_id
Lacks-find_id id [] h = refl
Lacks-find_id id (file ∷ files) h = rw h.0 (Lacks-find_id id files h.1)

store_count-Lacks :
    (id q : CString) (count : ℕ) (files : List ElfFile)
    → Lacks q files
    → Lacks q (store_count id count files)
unfolding store_count
store_count-Lacks id q count [] h = tt
store_count-Lacks id q count (file ∷ files) h = elim (Bool-cases (same file.build_id id)) [
  | inl e ↦ rw e h
  | inr e ↦ rw e (h.0, store_count-Lacks id q count files h.1)
]

pub store_count-IsBucket :
    (id : CString) (count i : ℕ) (files : List ElfFile)
    → 0 < count
    → IsBucket i files
    → IsBucket i (store_count id count files)
unfolding store_count
store_count-IsBucket id count i [] pos b = tt
store_count-IsBucket id count i (file ∷ files) pos b = elim (Bool-cases (same file.build_id id)) [
  | inl e ↦ rw e (b.0, b.1, pos, b.3)
  | inr e ↦ rw e (
    b.0,
    store_count-Lacks id file.build_id count files b.1,
    b.2,
    store_count-IsBucket id count i files pos b.3,
  )
]

-- The search after a write to the count of `id`.
abbrev pub recounted : ℕ → Option ElfFile → Option ElfFile
recounted count none = none
recounted count (some file) = some (record file { reference_count = count })

pub find_id-store_self :
    (id : CString) (count : ℕ) (files : List ElfFile)
    → find_id id (store_count id count files) ≡ recounted count (find_id id files)
unfolding find_id store_count
find_id-store_self id count [] = refl
find_id-store_self id count (file ∷ files) = elim (Bool-cases (same file.build_id id)) [
  | inl e ↦ rw (e, e) refl
  | inr e ↦ rw (e, e) (find_id-store_self id count files)
]

-- A file with the id `id` is none with another.
other_id :
    (file : ElfFile) (id q : CString)
    → same file.build_id id ≡ true
    → same id q ≡ false
    → same file.build_id q ≡ false
other_id file id q e ne = subst (λ x. same x q ≡ false) (sym (same-eq file.build_id id e)) ne

pub find_id-store_ne :
    (id q : CString) (count : ℕ) (files : List ElfFile)
    → same id q ≡ false
    → find_id q (store_count id count files) ≡ find_id q files
unfolding find_id store_count
find_id-store_ne id q count [] ne = refl
find_id-store_ne id q count (file ∷ files) ne = elim (Bool-cases (same file.build_id id)) [
  | inl e ↦ let o = other_id file id q e ne in rw (e, o) refl
  | inr e ↦ rw e (
      ap (λ r. if same file.build_id q then some file else r)
        (find_id-store_ne id q count files ne))
]

remove_id-Lacks :
    (id q : CString) (files : List ElfFile) → Lacks q files → Lacks q (remove_id id files)
unfolding remove_id
remove_id-Lacks id q [] h = tt
remove_id-Lacks id q (file ∷ files) h = elim (Bool-cases (same file.build_id id)) [
  | inl e ↦ rw e h.1
  | inr e ↦ rw e (h.0, remove_id-Lacks id q files h.1)
]

pub remove_id-IsBucket :
    (id : CString) (i : ℕ) (files : List ElfFile)
    → IsBucket i files
    → IsBucket i (remove_id id files)
unfolding remove_id
remove_id-IsBucket id i [] b = tt
remove_id-IsBucket id i (file ∷ files) b = elim (Bool-cases (same file.build_id id)) [
  | inl e ↦ rw e b.3
  | inr e ↦
      rw e (b.0, remove_id-Lacks id file.build_id files b.1, b.2, remove_id-IsBucket id i files b.3)
]

pub find_id-remove_ne :
    (id q : CString) (files : List ElfFile)
    → same id q ≡ false
    → find_id q (remove_id id files) ≡ find_id q files
unfolding find_id remove_id
find_id-remove_ne id q [] ne = refl
find_id-remove_ne id q (file ∷ files) ne = elim (Bool-cases (same file.build_id id)) [
  | inl e ↦ let o = other_id file id q e ne in rw (e, o) refl
  | inr e ↦
      rw e
        (ap (λ r. if same file.build_id q then some file else r) (find_id-remove_ne id q files ne))
]

-- At the head of the bucket.
pub find_id-head :
    (id : CString) (file : ElfFile) (files : List ElfFile)
    → same file.build_id id ≡ true
    → find_id id (file ∷ files) ≡ some file
unfolding find_id
find_id-head id file files e = rw e refl

pub find_id-behind :
    (id : CString) (file : ElfFile) (files : List ElfFile)
    → same file.build_id id ≡ false
    → find_id id (file ∷ files) ≡ find_id id files
unfolding find_id
find_id-behind id file files e = rw e refl

pub remove_id-head :
    (id : CString) (count : ℕ) (file : ElfFile) (files : List ElfFile)
    → same file.build_id id ≡ true
    → remove_id id (store_count id count (file ∷ files)) ≡ files
unfolding remove_id store_count
remove_id-head id count file files e = rw (e, e) refl

-- What is found has the id.
pub find_id-build_id :
    (id : CString) (i : ℕ) (files : List ElfFile)
    → IsBucket i files
    → OrNone (λ file. (file.build_id ≡ id) × (0 < file.reference_count)) (find_id id files)
unfolding find_id
find_id-build_id id i [] b = tt
find_id-build_id id i (file ∷ files) b = elim (Bool-cases (same file.build_id id)) [
  | inl e ↦ rw e (same-eq file.build_id id e, b.2)
  | inr e ↦ rw e (find_id-build_id id i files b.3)
]
