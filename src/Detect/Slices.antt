-- ===== src/Detect/Slices.antt =====
-- tools/detect.py: slices that equal a unit, and the loop that counts them.
use glm53flash_pp.Base.{
  ℕ, zero, suc, ◌+◌, ◌-◌, ◌*◌, ◌≤◌, ◌<◌, ◌≡◌, ◌≢◌, refl, ap, ap₂, sym, ◌∙◌, inl, inr, arith, List,
  [], ◌∷◌, some, true, Bool-cases, ◌==◌, length, drop, length-take,
}
use glm53flash_pp.Detect.{slice, same, count_reps}

pub same-equal : (xs ys : List ℕ) → same xs ys ≡ true → xs ≡ ys
same-equal [] [] h = refl
same-equal [] (y ∷ ys) h = absurd cc
same-equal (x ∷ xs) [] h = absurd cc
same-equal (x ∷ xs) (y ∷ ys) h = ap₂ (◌∷◌) (ground arith) (same-equal xs ys (ground arith))

pub same_refl : (xs : List ℕ) → same xs xs ≡ true
same_refl [] = refl
same_refl (x ∷ xs) = ground (arith, same_refl xs)

length-drop : (a : ℕ) (s : List ℕ) → length (drop a s) ≡ length s - a
length-drop zero s = omega arith
length-drop (suc a) [] = omega arith
length-drop (suc a) (x ∷ s) = length-drop a s ∙ omega arith

-- A slice that is as long as asked for lies in the text.
pub slice_in : (s : List ℕ) (a k : ℕ) → 0 < k → length (slice s a (a + k)) ≡ k → a + k ≤ length s
slice_in s a k h e = omega (arith, length-take (a + k - a) (drop a s), length-drop a s)

pub length-slice : (s : List ℕ) (a k : ℕ) → a + k ≤ length s → length (slice s a (a + k)) ≡ k
length-slice s a k h = omega (arith, length-take (a + k - a) (drop a s), length-drop a s)

-- `unit` stands `reps` times in a row from position `i` on.
abbrev pub Repeats : List ℕ → ℕ → ℕ → List ℕ → ℕ → Type 0
Repeats s size i unit reps = (k : ℕ) → k < reps → slice s (i + k * size) (i + (k + 1) * size) ≡ unit

one_more :
    (s : List ℕ) (size i : ℕ) (unit : List ℕ) (reps : ℕ)
    → Repeats s size i unit reps
    → slice s (i + reps * size) (i + (reps + 1) * size) ≡ unit
    → Repeats s size i unit (suc reps)
one_more s size i unit reps h e k l = elim (Bool-cases (k == reps)) [
  | inl q ↦ let same : k ≡ reps = ground arith in rw same e
  | inr q ↦ h k (ground arith)
]

times_grows : (r k : ℕ) → 0 < k → r ≤ r * k
times_grows r zero h = absurd (omega arith)
times_grows r (suc k) h = omega arith

-- the slice of a further repetition lies in the text
further_in :
    (s : List ℕ) (size i : ℕ) (unit : List ℕ) (reps : ℕ)
    → 0 < size
    → length unit ≡ size
    → slice s (i + reps * size) (i + (reps + 1) * size) ≡ unit
    → reps + 1 ≤ length s
further_in s size i unit reps h l e =
    let end : i + (reps + 1) * size ≡ i + reps * size + size = omega arith in
    let inside =
      slice_in s (i + reps * size) size h
        (ap (λ b. length (slice s (i + reps * size) b)) (sym end) ∙ ap length e ∙ l) in
    omega (arith, times_grows reps size h)

-- The loop ends, at the first repetition that differs.
pub count_reps-Repeats :
    (fuel : ℕ) (s : List ℕ) (size : ℕ) (unit : List ℕ) (i reps : ℕ)
    → 0 < size
    → length unit ≡ size
    → Repeats s size i unit reps
    → reps ≤ length s
    → length s < reps + fuel
    → (r : ℕ) × (count_reps fuel s size unit i reps ≡ some r)
      × Repeats s size i unit r
      × (slice s (i + r * size) (i + (r + 1) * size) ≢ unit)
      × (reps ≤ r)
unfolding count_reps
count_reps-Repeats zero s size unit i reps h l run le lt = absurd (omega arith)
count_reps-Repeats (suc fuel) s size unit i reps h l run le lt =
    let next = slice s (i + reps * size) (i + (reps + 1) * size) in
    elim (Bool-cases (same next unit)) [
      | inl e ↦
          let eq = same-equal next unit e in
          let (r, out, rep, stop, more) =
            count_reps-Repeats fuel s size unit i (suc reps) h l
              (one_more s size i unit reps run eq)
              (omega (arith, further_in s size i unit reps h l eq)) (omega arith) in
          (r, rw e out, rep, stop, omega arith)
      | inr e ↦ (
        reps,
        rw e refl,
        run,
        (λ eq. absurd (cc (e, ap (λ x. same x unit) eq, same_refl unit))),
        omega arith,
      )
    ]
