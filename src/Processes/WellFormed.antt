-- ===== src/Processes/WellFormed.antt =====
-- The table keeps each process in the bucket of its pid, and at most once.
use mathlib.Core.Path.{subst}
use profiling.Prelude.{
  ℕ_discrete, get_or-set_self, get_or-set_ne, get_or-map, get_or-replicate, ℕ, zero, suc, ◌<◌, ◌≡◌,
  ◌≢◌, refl, ◌∙◌, Bool-cases, inl, inr, Option-cases, none, List, [], ◌∷◌, arith, length,
  length-set, length-map, ◌==◌, All, set, get_or, length-replicate,
}
use profiling.Hash.{hash_pid, hash_pid_lt, hashtable_size}
use profiling.Tree.{Tree, leaf, RbTree}
use profiling.Vma.{Vma, parse_process_memory_maps}
use profiling.Processes.{
  ProcessInfo, ProcessTable, chain, Kernel, find_in, find_process, is_process_alive, empty_table,
}
use profiling.Processes.Operations.{
  new_process, insert_process, insert_parsed, add_process, find_new_process, remove_from,
  remove_process, cleanup_chain, cleanup_dead_processes,
}

-- The nodes of a chain have different pids, each with hash `i`.
abbrev pub IsChain : ℕ → List ProcessInfo → Type 0
IsChain i [] = Unit
IsChain i (node ∷ nodes) =
    (hash_pid node.process_id ≡ i)
    × All (λ n. n.process_id ≢ node.process_id) nodes
    × IsChain i nodes

pub record IsTable (table : ProcessTable) : Type 0 where
  pub size : length table ≡ hashtable_size
  pub chains : (i : ℕ) → IsChain i (chain table i)

-- The table after a change of one chain.
set-IsTable :
    (table : ProcessTable) (i : ℕ) (nodes : List ProcessInfo)
    → i < hashtable_size
    → IsTable table
    → IsChain i nodes
    → IsTable (set table i nodes)
set-IsTable table i nodes lt t c = record {
  size = length-set table i nodes ∙ t.size;
  chains = λ j. elim (ℕ_discrete i j) [
    | yes e ↦
        subst (λ k. IsChain k (get_or (set table i nodes) k [])) e
          (rw (get_or-set_self table i nodes [] (omega (arith, t.size))) c)
    | no ne ↦ rw (get_or-set_ne table i j nodes [] ne) (t.chains j)
  ];
}

pub empty_table-IsTable : IsTable empty_table
empty_table-IsTable = record {
  size = length-replicate {A = List ProcessInfo} hashtable_size [];
  chains = λ i. rw (get_or-replicate {A = List ProcessInfo} hashtable_size i []) tt;
}

-- The pid is in none of the nodes.
abbrev pub Misses : ℕ → List ProcessInfo → Type 0
Misses pid nodes = All (λ n. n.process_id ≢ pid) nodes

find_in-none : (pid : ℕ) (nodes : List ProcessInfo) → find_in pid nodes ≡ none → Misses pid nodes
unfolding find_in
find_in-none pid [] h = tt
find_in-none pid (node ∷ nodes) h = ground (arith, find_in-none pid nodes)

remove_from-Misses :
    (pid q : ℕ) (nodes : List ProcessInfo) → Misses q nodes → Misses q (remove_from pid nodes)
unfolding remove_from
remove_from-Misses pid q [] h = tt
remove_from-Misses pid q (node ∷ nodes) h = ground (arith, remove_from-Misses pid q nodes h.1)

remove_from-IsChain :
    (pid i : ℕ) (nodes : List ProcessInfo) → IsChain i nodes → IsChain i (remove_from pid nodes)
unfolding remove_from
remove_from-IsChain pid i [] c = tt
remove_from-IsChain pid i (node ∷ nodes) (hash, misses, c) =
    elim (Bool-cases (node.process_id == pid)) [
      | inl same ↦ rw same c
      | inr other ↦ rw other (
        hash,
        remove_from-Misses pid node.process_id nodes misses,
        remove_from-IsChain pid i nodes c,
      )
    ]

cleanup_chain-Misses :
    (kernel : Kernel) (q : ℕ) (nodes : List ProcessInfo)
    → Misses q nodes
    → Misses q (cleanup_chain kernel nodes)
unfolding cleanup_chain
cleanup_chain-Misses kernel q [] h = tt
cleanup_chain-Misses kernel q (node ∷ nodes) h =
    ground (arith, cleanup_chain-Misses kernel q nodes h.1)

cleanup_chain-IsChain :
    (kernel : Kernel) (i : ℕ) (nodes : List ProcessInfo)
    → IsChain i nodes
    → IsChain i (cleanup_chain kernel nodes)
unfolding cleanup_chain
cleanup_chain-IsChain kernel i [] c = tt
cleanup_chain-IsChain kernel i (node ∷ nodes) (hash, misses, c) =
    elim (Bool-cases (is_process_alive kernel node.process_id)) [
      | inr dead ↦ rw dead (cleanup_chain-IsChain kernel i nodes c)
      | inl alive ↦ rw alive (
        hash,
        cleanup_chain-Misses kernel node.process_id nodes misses,
        cleanup_chain-IsChain kernel i nodes c,
      )
    ]

module _ (lib : RbTree Vma) (kernel : Kernel) (table : ProcessTable) where
  insert_process-IsTable :
      (proc : ProcessInfo)
      → IsTable table
      → find_process table proc.process_id ≡ none
      → IsTable (insert_process table proc)
  unfolding insert_process find_process
  insert_process-IsTable proc t h =
      let index = hash_pid proc.process_id in
      set-IsTable table index (proc ∷ chain table index) (hash_pid_lt proc.process_id) t
        (refl, find_in-none proc.process_id (chain table index) h, t.chains index)

  insert_parsed-IsTable :
      (proc : ProcessInfo) (parsed : Tree Vma × ℕ)
      → IsTable table
      → find_process table proc.process_id ≡ none
      → IsTable (insert_parsed table proc parsed).0
  unfolding insert_parsed
  insert_parsed-IsTable proc (tree, zero) t h =
      insert_process-IsTable (record proc { memory_map_tree = tree }) t h
  insert_parsed-IsTable proc (tree, suc n) t h = t

  add_process-IsTable :
      (pid : ℕ)
      → IsTable table
      → find_process table pid ≡ none
      → IsTable (add_process lib kernel table pid).0
  unfolding add_process
  add_process-IsTable pid t h = elim (Bool-cases (kernel.calloc pid)) [
    | inr lost ↦ rw lost t
    | inl made ↦ rw made (elim (Bool-cases (is_process_alive kernel pid)) [
      | inr dead ↦ rw dead t
      | inl alive ↦ rw alive (
          insert_parsed-IsTable (new_process kernel pid)
            (parse_process_memory_maps lib (kernel.memory pid) leaf (kernel.maps pid)) t
            (unfold new_process in h))
    ])
  ]

  -- find_new_process, remove_process and cleanup_dead_processes leave a table in which each
  -- process stands in the bucket of its pid, and at most once, if they are given one.
  pub operations_keep_IsTable :
      (pid : ℕ)
      → IsTable table
      → IsTable (find_new_process lib kernel table pid).0
        × IsTable (remove_process table pid)
        × IsTable (cleanup_dead_processes kernel table)
  unfolding find_new_process remove_process cleanup_dead_processes
  operations_keep_IsTable pid t = (
    elim (Option-cases (find_process table pid)) [
      | inl new ↦ rw (new, find_new_process) (add_process-IsTable pid t new)
      | inr (proc, known) ↦ rw (known, find_new_process) t
    ],
    set-IsTable table (hash_pid pid) (remove_from pid (chain table (hash_pid pid)))
        (hash_pid_lt pid) t (remove_from-IsChain pid (hash_pid pid) _ (t.chains (hash_pid pid))),
    record {
      size = length-map table (cleanup_chain kernel) ∙ t.size;
      chains = λ i.
          rw (get_or-map (cleanup_chain kernel) table i [] (unfold cleanup_chain in refl))
            (cleanup_chain-IsChain kernel i (chain table i) (t.chains i));
    },
  )
