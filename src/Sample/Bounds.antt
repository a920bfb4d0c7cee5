-- ===== src/Sample/Bounds.antt =====
-- The stack fits the caller's buffer.
use profiling.Prelude.{
  ℕ, zero, suc, ◌≤◌, ◌≡◌, refl, sym, ap, Bool, Bool-cases, inl, inr, List, arith, ltb, length, drop,
}
use profiling.Sample.{
  CallchainResult, little_endian, copy_ips, copy_branches, count_to_copy, read_stack, read_nr,
  read_time, read_pid, read_ip, parse_sample_data,
}

-- `nr` counts the addresses that were stored, no more than there is room for.
pub record Fits (max_ips : ℕ) (result : CallchainResult) : Type 0 where
  pub counted : result.nr ≡ length result.ips
  pub room : result.nr ≤ max_ips

length-copy_ips : (count : ℕ) (ptr : List ℕ) → length (copy_ips count ptr) ≡ count
unfolding copy_ips
length-copy_ips zero ptr = refl
length-copy_ips (suc count) ptr = ap suc (length-copy_ips count (drop 8 ptr))

length-copy_branches : (count : ℕ) (ptr : List ℕ) → length (copy_branches count ptr) ≤ count
unfolding copy_branches
length-copy_branches zero ptr = omega arith
length-copy_branches (suc count) ptr = ground (arith, length-copy_branches count (drop 24 ptr))

count_le :
    (nr : ℕ) (ptr : List ℕ) (entry_size max_ips : ℕ)
    → count_to_copy nr ptr entry_size max_ips ≤ max_ips
unfolding count_to_copy
count_le nr ptr entry_size max_ips = ground arith

module _ (use_lbr : Bool) (max_ips : ℕ) where
  read_stack-Fits :
      (result : CallchainResult) (nr : ℕ) (ptr : List ℕ)
      → Fits max_ips (read_stack use_lbr max_ips result nr ptr)
  unfolding read_stack
  read_stack-Fits result nr ptr = elim (Bool-cases use_lbr) [
    | inl lbr ↦
        let count = count_to_copy nr ptr 24 max_ips in
        rw lbr (record {
          counted = refl;
          room = omega (arith, length-copy_branches count ptr, count_le nr ptr 24 max_ips);
        })
    | inr software ↦
        let count = count_to_copy nr ptr 8 max_ips in
        rw software
          (record { counted = sym (length-copy_ips count ptr); room = count_le nr ptr 8 max_ips })
  ]

  -- The field readers keep what fits: each ends where the record is too short, or goes on.
  read_nr-Fits :
      (result : CallchainResult) (ptr : List ℕ)
      → Fits max_ips result
      → Fits max_ips (read_nr use_lbr max_ips result ptr)
  unfolding read_nr
  read_nr-Fits result ptr h = elim (Bool-cases (ltb (length ptr) 8)) [
    | inl short ↦ rw short h
    | inr long ↦ rw long (read_stack-Fits result (little_endian 8 ptr) (drop 8 ptr))
  ]

  read_time-Fits :
      (result : CallchainResult) (ptr : List ℕ)
      → Fits max_ips result
      → Fits max_ips (read_time use_lbr max_ips result ptr)
  unfolding read_time
  read_time-Fits result ptr h = elim (Bool-cases (ltb (length ptr) 8)) [
    | inl short ↦ rw short h
    | inr long ↦
        rw long (read_nr-Fits _ (drop 8 ptr) (record { counted = h.counted; room = h.room }))
  ]

  read_pid-Fits :
      (result : CallchainResult) (ptr : List ℕ)
      → Fits max_ips result
      → Fits max_ips (read_pid use_lbr max_ips result ptr)
  unfolding read_pid
  read_pid-Fits result ptr h = elim (Bool-cases (ltb (length ptr) 8)) [
    | inl short ↦ rw short h
    | inr long ↦
        rw long (read_time-Fits _ (drop 8 ptr) (record { counted = h.counted; room = h.room }))
  ]

  read_ip-Fits :
      (result : CallchainResult) (ptr : List ℕ)
      → Fits max_ips result
      → Fits max_ips (read_ip use_lbr max_ips result ptr)
  unfolding read_ip
  read_ip-Fits result ptr h = elim (Bool-cases (ltb (length ptr) 8)) [
    | inl short ↦ rw short h
    | inr long ↦
        rw long (read_pid-Fits _ (drop 8 ptr) (record { counted = h.counted; room = h.room }))
  ]

  -- Whatever the bytes of the record, with and without LBR: parse_sample_data stores at most
  -- max_ips addresses, and nr is their number.
  pub parse_sample_data-Fits :
      (header : List ℕ) (result : CallchainResult)
      → Fits max_ips (parse_sample_data use_lbr max_ips header result)
  unfolding parse_sample_data
  parse_sample_data-Fits header result =
      read_ip-Fits _ (drop 8 header) (record { counted = refl; room = omega arith })
