-- ===== src/Detect.antt =====
-- tools/detect.py, `find_loop`: the worst run of one repeated unit in a text. A text is the list of
-- its code points, and `isalnum` a test on them. `none` is a loop that runs out of fuel.
pub mod Slices
pub mod Sound
pub mod Tests
use glm53flash_pp.Base.{
  ℕ, zero, suc, ◌+◌, ◌-◌, ◌*◌, max, List, [], ◌∷◌, Option, none, some, ◌>>=◌, Bool, true, false,
  not, ◌&&◌, ◌||◌, ltb, leb, ◌==◌, if◌then◌else◌, length, take, drop,
}

-- `s[a:b]`
abbrev pub slice : List ℕ → ℕ → ℕ → List ℕ
slice s a b = take (b - a) (drop a s)

abbrev pub same : List ℕ → List ℕ → Bool
same [] [] = true
same [] (y ∷ ys) = false
same (x ∷ xs) [] = false
same (x ∷ xs) (y ∷ ys) = (x == y) && same xs ys

abbrev pub any : (ℕ → Bool) → List ℕ → Bool
any p [] = false
any p (x ∷ xs) = p x || any p xs

abbrev pub newline : ℕ
newline = 10

-- a unit that the scan passes over
abbrev pub is_skipped : (ℕ → Bool) → List ℕ → Bool
is_skipped isalnum unit = any (λ c. c == newline) unit || not (any isalnum unit)

-- `while s[i + reps * size:i + (reps + 1) * size] == unit`
unfoldable pub count_reps : ℕ → List ℕ → ℕ → List ℕ → ℕ → ℕ → Option ℕ
count_reps zero s size unit i reps = none
count_reps (suc fuel) s size unit i reps =
    let rest = count_reps fuel s size unit i (suc reps) in
    if same (slice s (i + reps * size) (i + (reps + 1) * size)) unit then rest else some reps

-- The best run so far: how often, and which unit.
abbrev pub Found : Type 0
Found = ℕ × List ℕ

-- One round of the scan: the next position, and the best run.
unfoldable pub round : (ℕ → Bool) → ℕ → List ℕ → ℕ → ℕ → Found → Option (ℕ × Found)
unfolding count_reps
round isalnum min_reps s size i best =
    let unit = slice s i (i + size) in
    if is_skipped isalnum unit
    then some (i + 1, best)
    else (count_reps (length s) s size unit i 1 >>= λ reps. some (
      i + max 1 (reps * size),
      (if leb min_reps reps && ltb (best.0) reps then (reps, unit) else best),
    ))

-- `while i < n - size`
unfoldable pub scan : ℕ → (ℕ → Bool) → ℕ → List ℕ → ℕ → ℕ → Found → Option Found
unfolding round
scan zero isalnum min_reps s size i best = if ltb i (length s - size) then none else some best
scan (suc fuel) isalnum min_reps s size i best =
    let rest =
      round isalnum min_reps s size i best >>= λ r. scan fuel isalnum min_reps s size (r.0) (r.1) in
    if ltb i (length s - size) then rest else some best

-- `for size in range(2, max_unit + 1)`, the next `n` sizes
unfoldable pub for_sizes : ℕ → (ℕ → Bool) → ℕ → List ℕ → ℕ → Found → Option Found
unfolding scan
for_sizes zero isalnum min_reps s size best = some best
for_sizes (suc n) isalnum min_reps s size best =
    scan (length s) isalnum min_reps s size 0 best >>= λ best'.
    for_sizes n isalnum min_reps s (suc size) best'

unfoldable pub find_loop : (ℕ → Bool) → List ℕ → ℕ → ℕ → Option Found
unfolding for_sizes
find_loop isalnum s min_reps max_unit = for_sizes (max_unit - 1) isalnum min_reps s 2 (0, [])
