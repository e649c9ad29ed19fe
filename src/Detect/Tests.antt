-- ===== src/Detect/Tests.antt =====
-- Runs and witnesses for the loop detector: letters are the codes from 97 on.
use glm53flash_pp.Base.{ℕ, ◌≤◌, ◌≡◌, refl, arith, List, [], ◌∷◌, some, Bool, leb}
use glm53flash_pp.Detect.{Found, find_loop}
use glm53flash_pp.Detect.Sound.{IsReport, HasRun, find_loop-IsReport}

abbrev is_letter : ℕ → Bool
is_letter c = leb 97 c

-- "xabababab-"
abbrev pub text : List ℕ
text = 120 ∷ 97 ∷ 98 ∷ 97 ∷ 98 ∷ 97 ∷ 98 ∷ 97 ∷ 98 ∷ 45 ∷ []

found_run : find_loop is_letter text 3 4 ≡ some (3, 98 ∷ 97 ∷ [])
unfolding find_loop
found_run = refl

-- the run of four in the text is not met at its first character
missed_run : find_loop is_letter text 4 4 ≡ some (0, [])
unfolding find_loop
missed_run = refl

-- lines that repeat are no loop
lines_run : find_loop is_letter (97 ∷ 10 ∷ 97 ∷ 10 ∷ 97 ∷ 10 ∷ 97 ∷ 10 ∷ []) 2 4 ≡ some (0, [])
unfolding find_loop
lines_run = refl

find_loop-IsReport_example :
    (best : Found) × (find_loop is_letter text 3 4 ≡ some best)
    × IsReport is_letter text 3 4 best
    × ((k reps : ℕ) → 2 ≤ k → k ≤ 4 → HasRun is_letter text 3 k 0 reps → reps ≤ best.0)
find_loop-IsReport_example = find_loop-IsReport is_letter text 3 4 (omega arith)
