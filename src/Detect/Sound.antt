-- ===== src/Detect/Sound.antt =====
-- tools/detect.py: `find_loop` returns, and what it reports is a loop.
use glm53flash_pp.Base.{
  ℕ, zero, suc, ◌+◌, ◌-◌, ◌*◌, max, ◌≤◌, ◌<◌, ◌≡◌, ◌≢◌, refl, ap₂, sym, subst, ◌⊎◌, inl, inr, arith,
  List, [], some, Bool, true, false, Bool-cases, ◌&&◌, ◌==◌, ltb, leb, lt→ltb, length,
}
use native.Mathlib.Decide.{dec_le}
use glm53flash_pp.Detect.{slice, any, newline, is_skipped, Found, round, scan, for_sizes, find_loop}
use glm53flash_pp.Detect.Slices.{Repeats, length-slice, count_reps-Repeats}

-- A run in the text: a unit of at most `max_unit` places, without a newline and with a letter or a
-- digit, that stands `reps` times in a row and is not followed by itself.
pub record IsLoop (isalnum : ℕ → Bool) (s : List ℕ) (min_reps max_unit : ℕ) (best : Found)
    : Type 0 where
  pub start : ℕ
  pub enough : min_reps ≤ best.0
  pub short : (2 ≤ length (best.1)) × (length (best.1) ≤ max_unit)
  pub on_line : any (λ c. c == newline) (best.1) ≡ false
  pub has_alnum : any isalnum (best.1) ≡ true
  pub repeats : Repeats s (length (best.1)) start (best.1) (best.0)
  pub ends :
      slice s (start + best.0 * length (best.1)) (start + (best.0 + 1) * length (best.1)) ≢ best.1

abbrev pub IsReport : (ℕ → Bool) → List ℕ → ℕ → ℕ → Found → Type 0
IsReport isalnum s min_reps max_unit best =
    (best ≡ (0, [])) ⊎ IsLoop isalnum s min_reps max_unit best

-- A run of `reps` units at position `i`, where the scan looks.
abbrev pub HasRun : (ℕ → Bool) → List ℕ → ℕ → ℕ → ℕ → ℕ → Type 0
HasRun isalnum s min_reps size i reps =
    (is_skipped isalnum (slice s i (i + size)) ≡ false)
    × Repeats s size i (slice s i (i + size)) reps
    × (min_reps ≤ reps)
    × (i < length s - size)

-- the loop does not stop inside a run
no_less :
    (s : List ℕ) (size i : ℕ) (unit : List ℕ) (r reps : ℕ)
    → slice s (i + r * size) (i + (r + 1) * size) ≢ unit
    → Repeats s size i unit reps
    → reps ≤ r
no_less s size i unit r reps stop run = elim (dec_le reps r) [
  | yes p ↦ p
  | no p ↦ absurd (stop (run r (omega arith)))
]

module _ (isalnum : ℕ → Bool) (s : List ℕ) (min_reps max_unit : ℕ) where
  first_unit : (size i : ℕ) → Repeats s size i (slice s i (i + size)) 1
  first_unit size i k l =
      let z : k ≡ 0 = omega arith in rw z (ap₂ (slice s) (omega arith) (omega arith))

  round-Report :
      (size i : ℕ) (best : Found)
      → 2 ≤ size
      → size ≤ max_unit
      → i < length s - size
      → IsReport isalnum s min_reps max_unit best
      → (j : ℕ) × (best' : Found) × (round isalnum min_reps s size i best ≡ some (j, best'))
        × (i < j)
        × (best.0 ≤ best'.0)
        × ((reps : ℕ) → HasRun isalnum s min_reps size i reps → reps ≤ best'.0)
        × IsReport isalnum s min_reps max_unit best'
  unfolding round
  round-Report size i best low high h report =
      let unit = slice s i (i + size) in
      let len : length unit ≡ size = length-slice s i size (omega arith) in
      elim (Bool-cases (is_skipped isalnum unit)) [
        | inl e ↦ (
          i + 1,
          best,
          rw e refl,
          omega arith,
          omega arith,
          (λ reps h. absurd (cc (e, h.0))),
          report,
        )
        | inr e ↦
            let (r, out, rep, stop, more) =
              count_reps-Repeats (length s) s size unit i 1 (omega arith) len (first_unit size i)
                (omega arith) (omega arith) in
            elim (Bool-cases (leb min_reps r && ltb (best.0) r)) [
              | inr q ↦ (
                i + max 1 (r * size),
                best,
                rw (e, out, q) refl,
                omega arith,
                omega arith,
                (λ reps h.
                    let least = no_less s size i unit r reps stop (h.1) in
                    ground (arith, least, h.2)),
                report,
              )
              | inl q ↦ (
                i + max 1 (r * size),
                (r, unit),
                rw (e, out, q) refl,
                omega arith,
                ground arith,
                (λ reps h. no_less s size i unit r reps stop (h.1)),
                inr (record {
                  start = i;
                  enough = ground arith;
                  short = (omega arith, omega arith);
                  on_line = ground arith;
                  has_alnum = ground arith;
                  repeats = subst (λ z. Repeats s z i unit r) (sym len) rep;
                  ends = subst (λ z. slice s (i + r * z) (i + (r + 1) * z) ≢ unit) (sym len) stop;
                }),
              )
            ]
      ]

  scan-Report :
      (fuel size i : ℕ) (best : Found)
      → 2 ≤ size
      → size ≤ max_unit
      → length s ≤ i + fuel
      → IsReport isalnum s min_reps max_unit best
      → (best' : Found) × (scan fuel isalnum min_reps s size i best ≡ some best')
        × (best.0 ≤ best'.0)
        × ((reps : ℕ) → HasRun isalnum s min_reps size i reps → reps ≤ best'.0)
        × IsReport isalnum s min_reps max_unit best'
  unfolding scan
  scan-Report zero size i best low high h report =
      let past : ltb i (length s - size) ≡ false = ground arith in
      (best, rw past refl, omega arith, (λ reps run. absurd (omega (arith, run.3))), report)
  scan-Report (suc fuel) size i best low high h report =
      elim (Bool-cases (ltb i (length s - size))) [
        | inr e ↦ (
          best,
          rw e refl,
          omega arith,
          (λ reps h. absurd (cc (e, lt→ltb i (length s - size) (h.3)))),
          report,
        )
        | inl e ↦
            let (j, next, out, more, grows, found, report') =
              round-Report size i best low high (ground arith) report in
            let (best', done, grows', found', report'') =
              scan-Report fuel size j next low high (omega arith) report' in
            (
              best',
              rw (e, out) done,
              omega arith,
              (λ reps h. let here = found reps h in omega arith),
              report'',
            )
      ]

  for_sizes-Report :
      (n size : ℕ) (best : Found)
      → 2 ≤ size
      → size + n ≤ max_unit + 1
      → IsReport isalnum s min_reps max_unit best
      → (best' : Found) × (for_sizes n isalnum min_reps s size best ≡ some best')
        × (best.0 ≤ best'.0)
        × ((k reps : ℕ)
            → size ≤ k
            → k < size + n
            → HasRun isalnum s min_reps k 0 reps
            → reps ≤ best'.0)
        × IsReport isalnum s min_reps max_unit best'
  unfolding for_sizes
  for_sizes-Report zero size best low high report =
      (best, refl, omega arith, (λ k reps a b h. absurd (omega arith)), report)
  for_sizes-Report (suc n) size best low high report =
      let (next, out, grows, found, report') =
        scan-Report (length s) size 0 best low (omega arith) (omega arith) report in
      let (best', done, grows', found', report'') =
        for_sizes-Report n (suc size) next (omega arith) (omega arith) report' in
      (
        best',
        rw out done,
        omega arith,
        (λ k reps a b h. elim (dec_le (suc size) k) [
          | yes p ↦ found' k reps p (omega arith) h
          | no p ↦
              let e : k ≡ size = omega arith in
              let here = found reps (subst (λ z. HasRun isalnum s min_reps z 0 reps) e h) in
              omega arith
        ]),
        report'',
      )

  -- `find_loop` ends on every text. It reports either nothing, or a loop: a unit of two to `max_unit`
  -- characters on one line, with a letter or a digit, that stands at least `min_reps` times in a row
  -- at some place of the text, exactly as often as reported. If the text begins with such a run of
  -- `reps` units and is longer than one unit, at least `reps` repetitions are reported.
  pub find_loop-IsReport :
      0 < max_unit
      → (best : Found) × (find_loop isalnum s min_reps max_unit ≡ some best)
        × IsReport isalnum s min_reps max_unit best
        × ((k reps : ℕ) → 2 ≤ k → k ≤ max_unit → HasRun isalnum s min_reps k 0 reps → reps ≤ best.0)
  unfolding find_loop
  find_loop-IsReport h =
      let (best, out, grows, found, report) =
        for_sizes-Report (max_unit - 1) 2 (0, []) (omega arith) (omega arith) (inl refl) in
      (best, out, report, (λ k reps a b run. found k reps a (omega arith) run))
