-- ===== src/Processes/Lookup.antt =====
-- What `find_process` finds after each operation, the map from pids to processes that the table is.
use mathlib.Core.Path.{subst}
use profiling.Prelude.{
  ℕ, zero, suc, ◌<◌, ◌≡◌, ◌≢◌, refl, sym, ap, ◌∙◌, Bool-cases, inl, inr, Option-cases, Option, none,
  some, List, [], ◌∷◌, arith, ◌==◌, if◌then◌else◌, set, get_or-set_self, get_or-set_ne, get_or-map,
  ℕ_discrete,
}
use profiling.Hash.{hash_pid, hash_pid_lt}
use profiling.Tree.{Tree, leaf, RbTree}
use profiling.Vma.{Vma, parse_process_memory_maps}
use profiling.Processes.{
  ProcessInfo, ProcessTable, chain, Kernel, find_in, find_process, is_process_alive,
}
use profiling.Processes.Operations.{
  new_process, insert_process, insert_parsed, add_process, find_new_process, remove_from,
  remove_process, cleanup_chain, cleanup_dead_processes,
}
use profiling.Processes.WellFormed.{IsChain, IsTable, Misses}

find_in-Misses : (q : ℕ) (nodes : List ProcessInfo) → Misses q nodes → find_in q nodes ≡ none
unfolding find_in
find_in-Misses q [] h = refl
find_in-Misses q (node ∷ nodes) h = ground (arith, find_in-Misses q nodes h.1)

find_in-remove_self :
    (pid i : ℕ) (nodes : List ProcessInfo)
    → IsChain i nodes
    → find_in pid (remove_from pid nodes) ≡ none
unfolding find_in remove_from
find_in-remove_self pid i [] c = refl
find_in-remove_self pid i (node ∷ nodes) c = elim (Bool-cases (node.process_id == pid)) [
  | inl same ↦
      let e : node.process_id ≡ pid = ground arith in
      rw same (find_in-Misses pid nodes (subst (λ p. Misses p nodes) e c.1))
  | inr other ↦ rw other (rw other (find_in-remove_self pid i nodes c.2))
]

find_in-remove_ne :
    (pid q : ℕ) (nodes : List ProcessInfo)
    → q ≢ pid
    → find_in q (remove_from pid nodes) ≡ find_in q nodes
unfolding find_in remove_from
find_in-remove_ne pid q [] ne = refl
find_in-remove_ne pid q (node ∷ nodes) ne = ground (arith, find_in-remove_ne pid q nodes ne)

find_in-cleanup_chain :
    (kernel : Kernel) (q : ℕ) (nodes : List ProcessInfo)
    → find_in q (cleanup_chain kernel nodes)
      ≡ (if is_process_alive kernel q then find_in q nodes else none)
unfolding find_in cleanup_chain
find_in-cleanup_chain kernel q [] = ground arith
find_in-cleanup_chain kernel q (node ∷ nodes) = grind (arith, find_in-cleanup_chain kernel q nodes)

find_process-set_self :
    (table : ProcessTable) (pid : ℕ) (nodes : List ProcessInfo)
    → IsTable table
    → find_process (set table (hash_pid pid) nodes) pid ≡ find_in pid nodes
unfolding find_process
find_process-set_self table pid nodes t = ap (find_in pid) (
    get_or-set_self table (hash_pid pid) nodes []
      (subst (λ n. hash_pid pid < n) (sym t.size) (hash_pid_lt pid)))

-- After a change of the chain of `pid` the other pids are found as before.
find_process-set_ne :
    (table : ProcessTable) (pid q : ℕ) (nodes : List ProcessInfo)
    → find_in q nodes ≡ find_in q (chain table (hash_pid pid))
    → IsTable table
    → find_process (set table (hash_pid pid) nodes) q ≡ find_process table q
unfolding find_process
find_process-set_ne table pid q nodes h t = elim (ℕ_discrete (hash_pid pid) (hash_pid q)) [
  | yes e ↦ rw (← e) (
      ap (find_in q) (
        get_or-set_self table (hash_pid pid) nodes []
          (subst (λ n. hash_pid pid < n) (sym t.size) (hash_pid_lt pid)))
      ∙ h)
  | no ne ↦ ap (find_in q) (get_or-set_ne table (hash_pid pid) (hash_pid q) nodes [] ne)
]

find_process-set :
    (table : ProcessTable) (pid q : ℕ) (nodes : List ProcessInfo) (r : Option ProcessInfo)
    → IsTable table
    → find_in pid nodes ≡ r
    → (q ≢ pid → find_in q nodes ≡ find_in q (chain table (hash_pid pid)))
    → find_process (set table (hash_pid pid) nodes) q
      ≡ (if q == pid then r else find_process table q)
find_process-set table pid q nodes r t self others = elim (ℕ_discrete q pid) [
  | yes e ↦
      subst
        (λ p.
          find_process (set table (hash_pid pid) nodes) p
          ≡ (if p == pid then r else find_process table p))
        (sym e) (find_process-set_self table pid nodes t ∙ self ∙ ground arith)
  | no ne ↦ find_process-set_ne table pid q nodes (others ne) t ∙ ground arith
]

module _ (lib : RbTree Vma) (kernel : Kernel) (table : ProcessTable) where
  find_process-insert_process :
      (proc : ProcessInfo) (q : ℕ)
      → IsTable table
      → find_process (insert_process table proc) q
        ≡ (if q == proc.process_id then some proc else find_process table q)
  unfolding insert_process
  find_process-insert_process proc q t =
      find_process-set table proc.process_id q (proc ∷ chain table (hash_pid proc.process_id))
        (some proc) t (unfold find_in in ground arith) (λ ne. unfold find_in in ground (arith, ne))

  abbrev Finds : ℕ → ℕ → ProcessTable × Option ProcessInfo → Type 0
  Finds pid q (table', r) = find_process table' q ≡ (if q == pid then r else find_process table q)

  -- A call that leaves the table alone and returns what it has for the pid.
  unchanged :
      (pid q : ℕ) (r : Option ProcessInfo) → find_process table pid ≡ r → Finds pid q (table, r)
  unchanged pid q r h = elim (ℕ_discrete q pid) [
    | yes e ↦ subst (λ p. Finds pid p (table, r)) (sym e) (ground (arith, h))
    | no ne ↦ ground arith
  ]

  insert_parsed-Finds :
      (proc : ProcessInfo) (q : ℕ) (parsed : Tree Vma × ℕ)
      → IsTable table
      → find_process table proc.process_id ≡ none
      → Finds proc.process_id q (insert_parsed table proc parsed)
  unfolding insert_parsed
  insert_parsed-Finds proc q (tree, zero) t h =
      find_process-insert_process (record proc { memory_map_tree = tree }) q t
  insert_parsed-Finds proc q (tree, suc n) t h = unchanged proc.process_id q none h

  add_process-Finds :
      (pid q : ℕ)
      → IsTable table
      → find_process table pid ≡ none
      → Finds pid q (add_process lib kernel table pid)
  unfolding add_process
  add_process-Finds pid q t h = elim (Bool-cases (kernel.calloc pid)) [
    | inr lost ↦ rw lost (unchanged pid q none h)
    | inl made ↦ rw made (elim (Bool-cases (is_process_alive kernel pid)) [
      | inr dead ↦ rw dead (unchanged pid q none h)
      | inl alive ↦ rw alive (
          unfold new_process in
          insert_parsed-Finds (new_process kernel pid) q
            (parse_process_memory_maps lib (kernel.memory pid) leaf (kernel.maps pid)) t h)
    ])
  ]

  -- In a well-formed table: after find_new_process the pid has what the call returned, a process
  -- or NULL, and every other pid what it had.
  pub find_process-find_new_process :
      (pid q : ℕ)
      → IsTable table
      → find_process (find_new_process lib kernel table pid).0 q
        ≡ (if q == pid then (find_new_process lib kernel table pid).1 else find_process table q)
  unfolding find_new_process
  find_process-find_new_process pid q t = elim (Option-cases (find_process table pid)) [
    | inl new ↦ rw (new, find_new_process) (add_process-Finds pid q t new)
    | inr (proc, known) ↦ rw (known, find_new_process) (unchanged pid q (some proc) known)
  ]

-- In a well-formed table: after remove_process the pid has no process, and every other pid what
-- it had.
pub find_process-remove_process :
    (table : ProcessTable) (pid q : ℕ)
    → IsTable table
    → find_process (remove_process table pid) q ≡ (if q == pid then none else find_process table q)
unfolding remove_process
find_process-remove_process table pid q t =
    let nodes = chain table (hash_pid pid) in
    find_process-set table pid q (remove_from pid nodes) none t
      (find_in-remove_self pid (hash_pid pid) nodes (t.chains (hash_pid pid)))
      (find_in-remove_ne pid q nodes)

-- After cleanup_dead_processes the processes that live are found as before, the others not.
pub find_process-cleanup_dead_processes :
    (kernel : Kernel) (table : ProcessTable) (q : ℕ)
    → find_process (cleanup_dead_processes kernel table) q
      ≡ (if is_process_alive kernel q then find_process table q else none)
unfolding cleanup_dead_processes find_process
find_process-cleanup_dead_processes kernel table q =
    ap (find_in q)
      (get_or-map (cleanup_chain kernel) table (hash_pid q) [] (unfold cleanup_chain in refl))
    ∙ find_in-cleanup_chain kernel q (chain table (hash_pid q))
