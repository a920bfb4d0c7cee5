-- ===== src/Sample.antt =====
-- `parse_sample_data` of src/core/handler.c: the fields of a perf sample, read from the bytes of its
-- record. The record has the length that its header says.
pub mod Bounds
pub mod Encode
mod Tests
use Prim.Native.Nat.{min}
use profiling.Prelude.{
  ℕ, zero, suc, ◌+◌, ◌*◌, ◌/◌, ◌^◌, Bool, true, false, List, [], ◌∷◌, ltb, ◌==◌, if◌then◌else◌,
  length, drop,
}

-- The first `nr` entries of the buffer `ips` are the list.
pub record CallchainResult : Type 0 where
  pub timestamp_ns : ℕ
  pub pid : ℕ
  pub tid : ℕ
  pub ip : ℕ
  pub nr : ℕ
  pub ips : List ℕ

-- The number in the first `n` bytes, the lowest first.
unfoldable pub little_endian : ℕ → List ℕ → ℕ
little_endian zero bytes = 0
little_endian (suc n) [] = 0
little_endian (suc n) (b ∷ bytes) = b + 2 ^ 8 * little_endian n bytes

-- `count` numbers of 8 bytes, one after the other.
unfoldable pub copy_ips : ℕ → List ℕ → List ℕ
unfolding little_endian
copy_ips zero ptr = []
copy_ips (suc count) ptr = little_endian 8 ptr ∷ copy_ips count (drop 8 ptr)

-- The `from` fields that are not 0, of `count` branch entries of 24 bytes.
unfoldable pub copy_branches : ℕ → List ℕ → List ℕ
unfolding little_endian
copy_branches zero ptr = []
copy_branches (suc count) ptr =
    let rest = copy_branches count (drop 24 ptr) in
    if little_endian 8 ptr == 0 then rest else little_endian 8 ptr ∷ rest

-- `nr_from_data` for the bytes at `ptr`, entries of `entry_size`, and room for `max_ips`.
unfoldable pub count_to_copy : ℕ → List ℕ → ℕ → ℕ → ℕ
count_to_copy nr_from_data ptr entry_size max_ips =
    let nr_from_size = length ptr / entry_size in
    let nr = if ltb nr_from_data nr_from_size then nr_from_data else nr_from_size in
    if ltb nr max_ips then nr else max_ips

module _ (use_lbr : Bool) (max_ips : ℕ) where
  -- The stack at `ptr`, behind its number of entries.
  unfoldable pub read_stack : CallchainResult → ℕ → List ℕ → CallchainResult
  unfolding copy_ips copy_branches count_to_copy
  read_stack result nr_from_data ptr =
      let branches = copy_branches (count_to_copy nr_from_data ptr 24 max_ips) ptr in
      let count = count_to_copy nr_from_data ptr 8 max_ips in
      if use_lbr
      then record result { nr = length branches; ips = branches }
      else record result { nr = count; ips = copy_ips count ptr }

  -- Each function reads its field if the record is long enough, and goes on with the next.
  unfoldable pub read_nr : CallchainResult → List ℕ → CallchainResult
  unfolding read_stack little_endian
  read_nr result ptr =
      if ltb (length ptr) 8 then result else read_stack result (little_endian 8 ptr) (drop 8 ptr)

  unfoldable pub read_time : CallchainResult → List ℕ → CallchainResult
  unfolding read_nr little_endian
  read_time result ptr =
      if ltb (length ptr) 8
      then result
      else read_nr (record result { timestamp_ns = little_endian 8 ptr }) (drop 8 ptr)

  unfoldable pub read_pid : CallchainResult → List ℕ → CallchainResult
  unfolding read_time little_endian
  read_pid result ptr =
      if ltb (length ptr) 8
      then result
      else read_time
          (record result { pid = little_endian 4 ptr; tid = little_endian 4 (drop 4 ptr) })
          (drop 8 ptr)

  unfoldable pub read_ip : CallchainResult → List ℕ → CallchainResult
  unfolding read_pid little_endian
  read_ip result ptr =
      if ltb (length ptr) 8
      then result
      else read_pid (record result { ip = little_endian 8 ptr }) (drop 8 ptr)

  -- The header is 8 bytes; `timestamp_ns` is not set first.
  unfoldable pub parse_sample_data : List ℕ → CallchainResult → CallchainResult
  unfolding read_ip
  parse_sample_data header result =
      read_ip (record result { pid = 0; tid = 0; ip = 0; nr = 0; ips = [] }) (drop 8 header)
