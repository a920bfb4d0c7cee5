-- ===== src/PerfSetup/Counts.antt =====
-- How often a list of calls acquires and releases the resources of a kind.
use profiling.Prelude.{
  ℕ, ◌+◌, ◌≡◌, Bool, Option, none, some, List, [], ◌∷◌, ◌++◌, if◌then◌else◌, arith,
}
use profiling.PerfSetup.{
  Resource, mapping, Action, acquire, release, reset, enable, disable, set_nonblocking,
}

module _ (p : Resource → Bool) where
  abbrev pub counts : Resource → ℕ
  counts r = if p r then 1 else 0

  -- How many resources with `p` the calls acquire, and release.
  abbrev pub acquired : List Action → ℕ
  acquired [] = 0
  acquired (acquire r ∷ actions) = counts r + acquired actions
  acquired (release r ∷ actions) = acquired actions
  acquired (reset fd ∷ actions) = acquired actions
  acquired (enable fd ∷ actions) = acquired actions
  acquired (disable fd ∷ actions) = acquired actions
  acquired (set_nonblocking fd ∷ actions) = acquired actions

  abbrev pub released : List Action → ℕ
  released [] = 0
  released (acquire r ∷ actions) = released actions
  released (release r ∷ actions) = counts r + released actions
  released (reset fd ∷ actions) = released actions
  released (enable fd ∷ actions) = released actions
  released (disable fd ∷ actions) = released actions
  released (set_nonblocking fd ∷ actions) = released actions

  pub acquired-append : (xs ys : List Action) → acquired (xs ++ ys) ≡ acquired xs + acquired ys
  acquired-append [] ys = omega arith
  acquired-append (acquire r ∷ xs) ys = omega (arith, acquired-append xs ys)
  acquired-append (release r ∷ xs) ys = acquired-append xs ys
  acquired-append (reset fd ∷ xs) ys = acquired-append xs ys
  acquired-append (enable fd ∷ xs) ys = acquired-append xs ys
  acquired-append (disable fd ∷ xs) ys = acquired-append xs ys
  acquired-append (set_nonblocking fd ∷ xs) ys = acquired-append xs ys

  pub released-append : (xs ys : List Action) → released (xs ++ ys) ≡ released xs + released ys
  released-append [] ys = omega arith
  released-append (acquire r ∷ xs) ys = released-append xs ys
  released-append (release r ∷ xs) ys = omega (arith, released-append xs ys)
  released-append (reset fd ∷ xs) ys = released-append xs ys
  released-append (enable fd ∷ xs) ys = released-append xs ys
  released-append (disable fd ∷ xs) ys = released-append xs ys
  released-append (set_nonblocking fd ∷ xs) ys = released-append xs ys

  unfoldable pub counts_page : Option ℕ → ℕ
  counts_page none = 0
  counts_page (some page) = counts (mapping page)
