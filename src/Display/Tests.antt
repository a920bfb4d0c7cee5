-- ===== src/Display/Tests.antt =====
-- A short and a deep stack, and the theorem at them.
use profiling.Prelude.{
  ℕ, ◌+◌, ◌*◌, ◌-◌, ◌^◌, ◌≤◌, ◌↔◌, ◌≡◌, refl, true, none, List, [], ◌∷◌, ◌++◌, arith, All,
  replicate, length,
}
use profiling.CString.{text}
use profiling.Display.{buffer_size, collect_ips, lines_of, pieces, display_writes}
use profiling.Display.Overflow.{InBounds, text_length, display_writes-InBounds}

collects :
    (collect_ips 5 (7 ∷ (2 ^ 64 - 1) ∷ []) ≡ 5 ∷ 7 ∷ [])
    × (collect_ips 0 (2 ^ 63 ∷ []) ≡ 2 ^ 63 ∷ [])
unfolding collect_ips
collects = (refl, refl)

shows :
    pieces 0 (lines_of none true (7 ∷ 2 ^ 63 ∷ []))
    ≡ text "[user_function]\n" ∷ text "  " ∷ text "unknown_kernel_function [kernel]\n" ∷ []
unfolding pieces lines_of
shows = refl

-- 128 addresses of the stack behind the sampled one.
abbrev deep : List ℕ
deep = replicate 128 0x401000

display_writes-InBounds_example :
    All InBounds (display_writes none true (deep ++ (0x401000 ∷ [])))
    ↔ (text_length 0 (lines_of none true deep) + 2 * length deep ≤ buffer_size)
display_writes-InBounds_example =
    display_writes-InBounds none true deep 0x401000 (unfold lines_of in omega arith)

-- The writes for the deep stack leave the buffer.
overflows : ¬ All InBounds (display_writes none true (deep ++ (0x401000 ∷ [])))
overflows all =
    let le = display_writes-InBounds_example.0 all in
    let long : text_length 0 (lines_of none true deep) + 2 * length deep ≡ 18560 =
      unfold lines_of in refl in
    absurd (omega (arith, le, long))
