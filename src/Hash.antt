-- ===== src/Hash.antt =====
-- src/utils/hash.c: the bucket of a process and of a file name.
use profiling.Prelude.{ℕ, ◌+◌, ◌-◌, ◌*◌, ◌%◌, ◌^◌, ◌<◌, [], ◌∷◌, arith, ltb, if◌then◌else◌}
use profiling.CString.{CString}

-- HASHTABLE_SIZE
abbrev pub hashtable_size : ℕ
hashtable_size = 1024

-- A pid is the 32 bits of the `int`.
unfoldable pub hash_pid : ℕ → ℕ
hash_pid pid = (pid % 2 ^ 32) % hashtable_size

-- A `char` above 127 is negative, so 2^8 below its byte.
unfoldable signed_char : ℕ → ℕ
signed_char c = if ltb c 128 then c else c + 2 ^ 32 - 2 ^ 8

-- `hash = (hash << 5) - hash + *str++` in 32 bits.
unfoldable hash_bytes : ℕ → CString → ℕ
unfolding signed_char
hash_bytes hash [] = hash
hash_bytes hash (c ∷ str) =
    hash_bytes (((hash * 2 ^ 5) % 2 ^ 32 + 2 ^ 32 - hash + signed_char c) % 2 ^ 32) str

unfoldable pub hash_str : CString → ℕ
unfolding hash_bytes
hash_str str = hash_bytes 0 str % hashtable_size

pub hash_pid_lt : (pid : ℕ) → hash_pid pid < hashtable_size
unfolding hash_pid
hash_pid_lt pid = omega arith

pub hash_str_lt : (str : CString) → hash_str str < hashtable_size
unfolding hash_str
hash_str_lt str = omega arith
