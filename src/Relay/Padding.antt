-- ===== src/Relay/Padding.antt =====
-- `broadcast` pads the sampler's matrix to the width that every receiver posts.
use glm53flash_pp.Base.{
  ap₂, subst, ℕ, zero, suc, ◌-◌, ◌≤◌, ◌≡◌, refl, ap, List, [], ◌∷◌, ◌++◌, map, some, true, ℤ,
  minus_one, arith, ltb, ◌==◌, length, length-append, length-map, length-replicate, replicate, take,
  drop, sym, ◌∙◌, All, Bool-cases, inl, inr,
}
use glm53flash_pp.Relay.Wire.{Sampled, pad_row, pad_tokens}

pub pad_tokens-total :
    (n : ℕ) (s : Sampled)
    → s.width ≤ n
    → (tokens : List (List ℤ)) × (pad_tokens n s ≡ some tokens) × (length tokens ≡ length s.tokens)
unfolding pad_tokens
pad_tokens-total n s h = elim (Bool-cases (s.width == n)) [
  | inl same ↦ (s.tokens, rw same, refl)
  | inr other ↦
      let lt : ltb s.width n ≡ true = ground arith in
      (map (pad_row s.width n) s.tokens, rw (other, lt), length-map s.tokens (pad_row s.width n))
]

-- Each row goes out `max_sample_len` wide, with the sampled columns in front.
take-append : (w : ℕ) (r t : List ℤ) → length r ≡ w → take w (r ++ t) ≡ r
take-append zero [] t h = refl
take-append zero (x ∷ r) t h = absurd (omega arith)
take-append (suc w) [] t h = absurd (omega arith)
take-append (suc w) (x ∷ r) t h = ap (◌∷◌ x) (take-append w r t (omega arith))

take-length : (w : ℕ) (r : List ℤ) → length r ≡ w → take w r ≡ r
take-length zero [] h = refl
take-length zero (x ∷ r) h = absurd (omega arith)
take-length (suc w) [] h = absurd (omega arith)
take-length (suc w) (x ∷ r) h = ap (◌∷◌ x) (take-length w r (omega arith))

drop-append : (w : ℕ) (r t : List ℤ) → length r ≡ w → drop w (r ++ t) ≡ t
drop-append zero [] t h = refl
drop-append zero (x ∷ r) t h = absurd (omega arith)
drop-append (suc w) [] t h = absurd (omega arith)
drop-append (suc w) (x ∷ r) t h = drop-append w r t (omega arith)

drop-length : (w : ℕ) (r : List ℤ) → length r ≡ w → drop w r ≡ []
drop-length zero [] h = refl
drop-length zero (x ∷ r) h = absurd (omega arith)
drop-length (suc w) [] h = absurd (omega arith)
drop-length (suc w) (x ∷ r) h = drop-length w r (omega arith)

no_rest :
    (w : ℕ) (rows : List (List ℤ))
    → All (λ r. length r ≡ w) rows
    → All (λ r. drop w r ≡ replicate (w - w) minus_one) rows
no_rest w [] a = tt
no_rest w (r ∷ rows) a =
    let z : w - w ≡ 0 = omega arith in
    (drop-length w r a.0 ∙ ap (λ k. replicate k minus_one) (sym z), no_rest w rows a.1)

map-take : (w : ℕ) (rows : List (List ℤ)) → All (λ r. length r ≡ w) rows → map (take w) rows ≡ rows
map-take w [] a = refl
map-take w (r ∷ rows) a = ap₂ ◌∷◌ (take-length w r a.0) (map-take w rows a.1)

All-pad_row :
    (w n : ℕ) (rows : List (List ℤ))
    → w ≤ n
    → All (λ r. length r ≡ w) rows
    → All (λ r. length r ≡ n) (map (pad_row w n) rows)
      × (map (take w) (map (pad_row w n) rows) ≡ rows)
      × All (λ r. drop w r ≡ replicate (n - w) minus_one) (map (pad_row w n) rows)
unfolding pad_row
All-pad_row w n [] h a = (tt, refl, tt)
All-pad_row w n (r ∷ rows) h a =
    let (lens, fronts, tails) = All-pad_row w n rows h a.1 in
    let long = length-append r (replicate (n - w) minus_one) in
    let len : length (pad_row w n r) ≡ n =
      omega (arith, a.0, long, length-replicate (n - w) minus_one) in
    let front : take w (pad_row w n r) ≡ r = take-append w r (replicate (n - w) minus_one) a.0 in
    ((len, lens), ap₂ ◌∷◌ front fronts, (drop-append w r (replicate (n - w) minus_one) a.0, tails))

-- A row that is narrower than `max_sample_len` is filled up with -1: what is sent has
-- `max_sample_len` columns, the sampled columns in front and -1 in all the others.
pub pad_tokens-take :
    (n : ℕ) (s : Sampled)
    → s.width ≤ n
    → All (λ r. length r ≡ s.width) s.tokens
    → (tokens : List (List ℤ)) × (pad_tokens n s ≡ some tokens)
      × All (λ r. length r ≡ n) tokens
      × (map (take s.width) tokens ≡ s.tokens)
      × All (λ r. drop s.width r ≡ replicate (n - s.width) minus_one) tokens
unfolding pad_tokens
pad_tokens-take n s h a = elim (Bool-cases (s.width == n)) [
  | inl same ↦
      let w : s.width ≡ n = ground arith in
      (
        s.tokens,
        rw same,
        subst (λ k. All (λ r. length r ≡ k) s.tokens) w a,
        map-take s.width s.tokens a,
        subst (λ k. All (λ r. drop s.width r ≡ replicate (k - s.width) minus_one) s.tokens) w
            (no_rest s.width s.tokens a),
      )
  | inr other ↦
      let lt : ltb s.width n ≡ true = ground arith in
      let (lens, fronts, tails) = All-pad_row s.width n s.tokens h a in
      (map (pad_row s.width n) s.tokens, rw (other, lt), lens, fronts, tails)
]
