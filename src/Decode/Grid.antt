-- ===== src/Decode/Grid.antt =====
-- vllm/model_executor/layers/sparse_attn_indexer_kpool.py: where the padded layout puts a token.
use glm53flash_pp.Base.{
  ℕ, zero, suc, ◌+◌, ◌-◌, ◌≤◌, ◌<◌, ◌≡◌, refl, ap, ap₂, ◌∙◌, arith, List, [], ◌∷◌, ◌++◌, some, Bool,
  false, ◌&&◌, ltb, leb, lt→ltb, ◌==◌, if◌then◌else◌, length, get_or, take, drop, columns,
  replicate, ℤ, pos, All,
}
use native.Mathlib.Decide.{dec_lt}
use glm53flash_pp.TailRing.Mapping.{expanded}
use glm53flash_pp.Decode.{sum}
use glm53flash_pp.Decode.Scatter.{cumsum, but_last, intra_from, Matrix, write, scatter}

-- The starts of requests of the given lengths, from `s` on.
abbrev pub starts_of : ℕ → List ℕ → List ℕ
starts_of s [] = []
starts_of s (d ∷ ds) = s ∷ starts_of (s + d) ds

pub cumsum-starts : (s d : ℕ) (ds : List ℕ) → cumsum s (but_last (d ∷ ds)) ≡ starts_of (s + d) ds
cumsum-starts s d [] = refl
cumsum-starts s d (e ∷ es) = ap (λ xs. (s + d) ∷ xs) (cumsum-starts (s + d) e es)

-- `d` tokens in row `q` from column `c` on
abbrev pub fill : ℕ → ℕ → ℕ → List ℤ → Matrix → Matrix
fill q c zero xs out = out
fill q c (suc d) [] out = out
fill q c (suc d) (x ∷ xs) out = fill q (suc c) d xs (write q c x out)

-- the tokens of the requests from row `r` on
abbrev pub place : ℕ → List ℕ → List ℤ → Matrix → Matrix
place r [] xs out = out
place r (d ∷ ds) xs out = place (suc r) ds (drop d xs) (fill r 0 d xs out)

module _ (num lmax : ℕ) where
  scatter-fill :
      (d c i s q : ℕ) (qs ss : List ℕ) (xs : List ℤ) (out : Matrix)
      → i ≡ s + c
      → q < num
      → c + d ≤ lmax
      → d ≤ length xs
      → scatter num lmax (replicate d q ++ qs) (intra_from i (replicate d s ++ ss)) xs out
        ≡ scatter num lmax qs (intra_from (i + d) ss) (drop d xs) (fill q c d xs out)
  unfolding scatter
  scatter-fill zero c i s q qs ss xs out e h l m =
      ap (λ j. scatter num lmax qs (intra_from j ss) xs out) (omega arith)
  scatter-fill (suc d) c i s q qs ss [] out e h l m = absurd (omega arith)
  scatter-fill (suc d) c i s q qs ss (x ∷ xs) out e h l m =
      let col : i - s ≡ c = omega arith in
      let row_ok = lt→ltb q num h in
      let col_ok = lt→ltb c lmax (omega arith) in
      rw (col, row_ok, col_ok)
        (scatter-fill d (suc c) (suc i) s q qs ss xs (write q c x out) (omega arith) h (omega arith)
            (omega arith)
          ∙ ap
              (λ j.
                scatter num lmax qs (intra_from j ss) (drop d xs)
                  (fill q (suc c) d xs (write q c x out)))
              (omega arith))

  length-drop : {A : Type 0} (n : ℕ) (xs : List A) → length (drop n xs) ≡ length xs - n
  length-drop zero xs = omega arith
  length-drop (suc n) [] = omega arith
  length-drop (suc n) (x ∷ xs) = omega (arith, length-drop n xs)

  pub scatter-place :
      (ds : List ℕ) (f : ℕ → ℕ) (r s : ℕ) (xs : List ℤ) (out : Matrix)
      → ((i : ℕ) → f i ≡ r + i)
      → r + length ds ≤ num
      → All (λ d. d ≤ lmax) ds
      → length xs ≡ sum ds
      → scatter num lmax
          (expanded (columns (length ds) f) ds)
          (intra_from s (expanded (starts_of s ds) ds))
          xs
          out
        ≡ some (place r ds xs out)
  unfolding scatter
  scatter-place [] f r s [] out e h l m = refl
  scatter-place [] f r s (x ∷ xs) out e h l m = absurd (omega arith)
  scatter-place (d ∷ ds) f r s xs out e h (l, ls) m =
      let row : f 0 ≡ r = e 0 ∙ omega arith in
      scatter-fill d 0 s s (f 0) (expanded (columns (length ds) (λ i. f (suc i))) ds)
        (expanded (starts_of (s + d) ds) ds) xs out (omega arith) (omega (arith, row)) (omega arith)
        (omega arith)
      ∙ ap
          (λ q.
            scatter num lmax (expanded (columns (length ds) (λ i. f (suc i))) ds)
              (intra_from (s + d) (expanded (starts_of (s + d) ds) ds)) (drop d xs)
              (fill q 0 d xs out))
          row
      ∙ scatter-place ds (λ i. f (suc i)) (suc r) (s + d) (drop d xs) (fill r 0 d xs out)
          (λ i. e (suc i) ∙ omega arith) (omega arith) ls (omega (arith, length-drop d xs))

one_more :
    (b : Bool) (c t d : ℕ) (x : ℤ) (xs : List ℤ) (v o : ℤ)
    → (if b && (leb (suc c) t && ltb t (suc c + d))
        then get_or xs (t - suc c) o
        else (if b && (t == c) then x else v))
      ≡ (if b && (leb c t && ltb t (c + suc d)) then get_or (x ∷ xs) (t - c) o else v)
one_more b c t d x xs v o = elim (dec_lt c t) [
  | yes after ↦ let e : t - c ≡ suc (t - suc c) = omega arith in rw e (ground arith)
  | no upto ↦ let e : t - c ≡ 0 = omega arith in rw e (ground arith)
]

fill_cell :
    (q c d : ℕ) (xs : List ℤ) (out : Matrix) (q' t : ℕ) (o : ℤ)
    → d ≤ length xs
    → fill q c d xs out q' t
      ≡ (if (q' == q) && (leb c t && ltb t (c + d)) then get_or xs (t - c) o else out q' t)
fill_cell q c zero xs out q' t o h =
    let e : ((q' == q) && (leb c t && ltb t (c + zero))) ≡ false = ground arith in rw e refl
fill_cell q c (suc d) [] out q' t o h = absurd (omega arith)
fill_cell q c (suc d) (x ∷ xs) out q' t o h =
    fill_cell q (suc c) d xs (write q c x out) q' t o (omega arith)
    ∙ one_more (q' == q) c t d x xs (out q' t) o

-- a row before those that are placed
place_before :
    (r : ℕ) (ds : List ℕ) (xs : List ℤ) (out : Matrix) (q t : ℕ)
    → q < r
    → sum ds ≤ length xs
    → place r ds xs out q t ≡ out q t
place_before r [] xs out q t h l = refl
place_before r (d ∷ ds) xs out q t h l =
    let e : (q == r) ≡ false = ground arith in
    place_before (suc r) ds (drop d xs) (fill r 0 d xs out) q t (omega arith)
      (omega (arith, length-drop 0 0 d xs))
    ∙ fill_cell r 0 d xs out q t (pos 0) (omega arith)
    ∙ rw e refl

get_or-drop :
    {A : Type 0} (n : ℕ) (xs : List A) (i : ℕ) (o : A)
    → get_or (drop n xs) i o ≡ get_or xs (n + i) o
get_or-drop zero xs i o = ap (λ j. get_or xs j o) (omega arith)
get_or-drop (suc n) [] i o = refl
get_or-drop (suc n) (x ∷ xs) i o =
    let e : suc n + i ≡ suc (n + i) = omega arith in rw e (get_or-drop n xs i o)

-- the row of request `i`
pub place_row :
    (r : ℕ) (ds : List ℕ) (xs : List ℤ) (out : Matrix) (i t : ℕ) (o : ℤ)
    → i < length ds
    → sum ds ≤ length xs
    → place r ds xs out (r + i) t
      ≡ (if ltb t (get_or ds i 0) then get_or xs (sum (take i ds) + t) o else out (r + i) t)
place_row r [] xs out i t o h l = absurd (omega arith)
place_row r (d ∷ ds) xs out zero t o h l =
    place_before (suc r) ds (drop d xs) (fill r 0 d xs out) (r + 0) t (omega arith)
      (omega (arith, length-drop 0 0 d xs))
    ∙ fill_cell r 0 d xs out (r + 0) t o (omega arith)
    ∙ (let e : t - 0 ≡ t = omega arith in
        let z : 0 + t ≡ t = omega arith in rw (e, z) (ground arith))
place_row r (d ∷ ds) xs out (suc i) t o h l =
    ap (λ q. place (suc r) ds (drop d xs) (fill r 0 d xs out) q t) (omega arith)
    ∙ place_row (suc r) ds (drop d xs) (fill r 0 d xs out) i t o (omega arith)
        (omega (arith, length-drop 0 0 d xs))
    ∙ (let apart : ((suc r + i) == r) ≡ false = ground arith in
        let here : fill r 0 d xs out (suc r + i) t ≡ out (r + suc i) t =
          fill_cell r 0 d xs out (suc r + i) t o (omega arith)
          ∙ rw apart (ap (λ q. out q t) (omega arith)) in
        ap₂ (λ x y. if ltb t (get_or ds i 0) then x else y)
          (get_or-drop d xs (sum (take i ds) + t) o ∙ ap (λ j. get_or xs j o) (omega arith)) here)
