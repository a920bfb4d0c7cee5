-- ===== src/ElfFiles/Balance.antt =====
-- Nothing that the cache of ELF files acquires is lost, and nothing is released twice.
use profiling.Prelude.{
  ℕ, ◌+◌, ◌<◌, ◌≡◌, ◌∙◌, Bool-cases, inl, inr, Option, none, some, List, ◌∷◌, ◌==◌, arith, length,
  length-set,
}
use profiling.CString.{CString}
use profiling.Hash.{hash_str, hash_str_lt, hashtable_size}
use profiling.Tree.{RbTree}
use profiling.ElfSymbols.{SymbolInfo, SymbolCollection, build_symbol_collection}
use profiling.ElfFiles.{
  decremented, ElfFile, ElfFileCache, bucket, ElfData, Files, find_elf_in_table,
  insert_elf_into_table, store_count, set_count, host_path, is_absolute, or_else, insert_new_file,
  create_file, share_file, with_build_id, with_elf, find_or_create_elf, remove_id, remove_elf,
  release_elf_by_ptr,
}
use profiling.ElfFiles.Resources.{
  ElfResource, descriptor, session, node_memory, id_memory, path_memory, ElfCall, Opening,
  elf_parser_init, elf_parser_cleanup, elf_of, with_opening, symbols_calls, create_calls,
  share_calls, build_id_calls, elf_calls, retry_calls, find_or_create_calls, remove_calls,
  release_calls,
}
use profiling.ElfFiles.Weights.{
  acquired, released, file_memory, held, Balanced, acquired-append, released-append, held-set,
  held_in-store_count, remove_id-held,
}

module _ (w : ElfResource → ℕ) where
  module _ (cache : ElfFileCache) (size : length cache ≡ hashtable_size) where
    hash_in : (id : CString) → hash_str id < length cache
    hash_in id = omega (arith, size, hash_str_lt id)

    held-set_count : (id : CString) (count : ℕ) → held w (set_count cache id count) ≡ held w cache
    unfolding set_count
    held-set_count id count = omega (
      arith,
      held-set w cache (hash_str id) (store_count id count (bucket cache (hash_str id)))
          (hash_in id),
      held_in-store_count w id count (bucket cache (hash_str id)),
    )

    length-set_count :
        (id : CString) (count : ℕ) → length (set_count cache id count) ≡ hashtable_size
    unfolding set_count
    length-set_count id count = length-set cache (hash_str id) _ ∙ size

    length-remove_elf : (id : CString) → length (remove_elf cache id) ≡ hashtable_size
    unfolding remove_elf
    length-remove_elf id = length-set cache (hash_str id) _ ∙ size

    remove_elf-Balanced :
        (id : CString)
        → Balanced w cache (remove_calls id (bucket cache (hash_str id))) (remove_elf cache id)
    unfolding remove_elf
    remove_elf-Balanced id =
        let (kept, nothing) = remove_id-held w id (bucket cache (hash_str id)) in
        omega (
          arith,
          held-set w cache (hash_str id) (remove_id id (bucket cache (hash_str id))) (hash_in id),
          kept,
          nothing,
        )

    insert-held :
        (file : ElfFile) → held w (insert_elf_into_table cache file) ≡ file_memory w + held w cache
    unfolding insert_elf_into_table
    insert-held file =
        let id = file.build_id in
        omega
          (arith, held-set w cache (hash_str id) (file ∷ bucket cache (hash_str id)) (hash_in id))

    -- What stays held w, in a cache with the same buckets.
    abbrev pub KeepsSize : List ElfCall → ElfFileCache → Type 0
    KeepsSize calls cache' = Balanced w cache calls cache' × (length cache' ≡ hashtable_size)

    module _ (lib : RbTree SymbolInfo) (files : Files) (filename : CString) where
      -- With `memory` and what is open at hand, the calls that lead to the result of a function.
      abbrev Ends : ℕ → List ElfCall → ElfFileCache × Option ElfFile → Type 0
      Ends memory calls r =
          (held w cache + (memory + acquired w calls) ≡ released w calls + held w r.0)
          × (length r.0 ≡ hashtable_size)

      abbrev at_hand : ℕ → ℕ
      at_hand fd = w (descriptor fd) + w (session fd)

      symbols-Ends :
          (fd : ℕ) (id : CString) (symbols : Option SymbolCollection)
          → Ends
              (at_hand fd + (w node_memory + (w id_memory + w path_memory)))
              (symbols_calls lib files cache fd symbols)
              (insert_new_file lib files cache filename id symbols)
      unfolding symbols_calls insert_new_file elf_parser_cleanup insert_elf_into_table
      symbols-Ends fd id none = (omega arith, size)
      symbols-Ends fd id (some symbols) =
          (omega (arith, insert-held _), length-set cache (hash_str id) _ ∙ size)

      create-Ends :
          (fd : ℕ) (elf : ElfData) (id : CString)
          → Ends
              (at_hand fd + w id_memory)
              (create_calls lib files cache fd elf)
              (create_file lib files cache filename elf id)
      unfolding create_calls create_file elf_parser_cleanup
      create-Ends fd elf id = elim (Bool-cases files.node) [
        | inr e ↦ rw e (omega arith, size)
        | inl e ↦ elim (Bool-cases files.path_string) [
          | inr p ↦ rw (e, p) (omega arith, size)
          | inl p ↦
              let (kept, same_size) =
                symbols-Ends fd id
                  (build_symbol_collection lib files.collection elf.symbol_sections) in
              rw (e, p) (omega (arith, kept), same_size)
        ]
      ]

      share-Ends :
          (fd : ℕ) (elf : ElfData) (id : CString) (found : Option ElfFile)
          → Ends
              (at_hand fd + w id_memory)
              (share_calls lib files cache fd elf found)
              (share_file lib files cache filename elf id found)
      unfolding share_calls share_file elf_parser_cleanup
      share-Ends fd elf id none = create-Ends fd elf id
      share-Ends fd elf id (some file) = (
        omega (arith, held-set_count id (file.reference_count + 1)),
        length-set_count id (file.reference_count + 1),
      )

      build_id-Ends :
          (fd : ℕ) (elf : ElfData) (id : Option CString)
          → Ends
              (at_hand fd)
              (build_id_calls lib files cache fd elf id)
              (with_build_id lib files cache filename elf id)
      unfolding build_id_calls with_build_id elf_parser_cleanup
      build_id-Ends fd elf none = (omega arith, size)
      build_id-Ends fd elf (some id) =
          let (kept, same_size) = share-Ends fd elf id (find_elf_in_table cache id) in
          (omega (arith, kept), same_size)

      abbrev open_weight : Option (ℕ × ElfData) → ℕ
      open_weight none = 0
      open_weight (some (fd, elf)) = at_hand fd

      elf-Ends :
          (opened : Option (ℕ × ElfData))
          → Ends
              (open_weight opened)
              (elf_calls lib files cache opened)
              (with_elf lib files cache filename (elf_of opened))
      unfolding elf_calls with_elf
      elf-Ends none = (omega arith, size)
      elf-Ends (some (fd, elf)) = build_id-Ends fd elf _

      init-opens :
          (o : Opening)
          → acquired w (elf_parser_init o).0
            ≡ released w (elf_parser_init o).0 + open_weight (elf_parser_init o).1
      unfolding elf_parser_init
      init-opens none = omega arith
      init-opens (some (fd, none)) = omega arith
      init-opens (some (fd, some elf)) = omega arith

      retry-Ends :
          (own : Opening) (opened : Option (ℕ × ElfData))
          → Ends (open_weight opened) (retry_calls lib files cache own opened) (
              with_elf lib files cache filename
                (or_else (elf_of opened) (elf_of (elf_parser_init own).1)))
      unfolding retry_calls
      retry-Ends own (some opened) = elf-Ends (some opened)
      retry-Ends own none =
          let (calls, second) = elf_parser_init own in
          let (kept, same_size) = elf-Ends second in
          (
            omega (
              arith,
              kept,
              init-opens own,
              acquired-append w calls (elf_calls lib files cache second),
              released-append w calls (elf_calls lib files cache second),
            ),
            same_size,
          )

    pub find_or_create_elf-KeepsSize :
        (lib : RbTree SymbolInfo) (files : Files) (opening : CString → Opening) (pid : ℕ)
        (filename : CString)
        → let reads = with_opening files opening in
          KeepsSize
            (find_or_create_calls lib reads cache opening pid filename)
            (find_or_create_elf lib reads cache pid filename).0
    unfolding find_or_create_calls find_or_create_elf
    find_or_create_elf-KeepsSize lib files opening pid filename =
        let reads = with_opening files opening in
        let (calls, first) = elf_parser_init (opening (host_path pid filename)) in
        let (kept, same_size) = retry-Ends lib reads filename (opening filename) first in
        elim (Bool-cases (is_absolute filename)) [
          | inr e ↦ rw e (omega arith, size)
          | inl e ↦ rw e (
            omega (
              arith,
              kept,
              init-opens lib reads filename (opening (host_path pid filename)),
              acquired-append w calls (retry_calls lib reads cache (opening filename) first),
              released-append w calls (retry_calls lib reads cache (opening filename) first),
            ),
            same_size,
          )
        ]

  pub release_elf_by_ptr-KeepsSize :
      (cache : ElfFileCache) (size : length cache ≡ hashtable_size) (file : Option ElfFile)
      → KeepsSize cache size (release_calls cache file) (release_elf_by_ptr cache file)
  unfolding release_calls release_elf_by_ptr
  release_elf_by_ptr-KeepsSize cache size none = (omega arith, size)
  release_elf_by_ptr-KeepsSize cache size (some file) =
      let id = file.build_id in
      let count = decremented file.reference_count in
      let counted = set_count cache id count in
      let size' = length-set_count cache size id count in
      let same_weight = held-set_count cache size id count in
      elim (Bool-cases (count == 0)) [
        | inr e ↦ rw e (omega (arith, same_weight), size')
        | inl e ↦ rw e (
          omega (arith, same_weight, remove_elf-Balanced counted size' id),
          length-remove_elf counted size' id,
        )
      ]
