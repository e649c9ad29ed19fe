-- ===== src/Decode/Topk.antt =====
-- vllm/model_executor/layers/sparse_attn_indexer_kpool.py: `_decode_topk_seq_lens`.
use glm53flash_pp.Base.{
  ℕ, zero, suc, ◌+◌, ◌*◌, ◌/◌, ◌%◌, ◌^◌, ◌≤◌, ◌<◌, ◌≡◌, refl, ap, ap₂, sym, subst, ◌∙◌, arith, List,
  [], ◌∷◌, map, none, some, Bool, true, false, ltb, lt→ltb, ◌==◌, if◌then◌else◌, length, get_or,
  get_elem?, take, columns, replicate, ℤ, pos, All, Bool-cases, inl, inr, ◌>>=◌, to_int32,
  to_int32_small, length-map, length-take, get_elem?-columns, length-columns, minus_one,
}
use glm53flash_pp.TailRing.Slots.{repeat_interleave}
use glm53flash_pp.TailRing.Mapping.{expanded, repeat_interleave-expanded, length-expanded, total}
use glm53flash_pp.Decode.{sum}
use glm53flash_pp.Decode.Lists.{
  get_or-take, get_or-map, get_elem?-get_or, sum-take-replicate, get_or-replicate, sum-replicate,
}
use glm53flash_pp.Decode.Uniform.{div_cell, mod_cell, row_before}
use glm53flash_pp.Decode.Scatter.{
  cumsum, but_last, intra_from, build_decode_scatter_indices, scatter_decode_tokens_by_request,
  to_row, plus_one, decode_topk_seq_lens,
}
use glm53flash_pp.Decode.Grid.{starts_of, cumsum-starts, place, scatter-place, place_row}

next_int32 : (p : ℕ) → p + 1 < 2 ^ 31 → plus_one (to_row p) ≡ pos (p + 1)
next_int32 p h = rw (to_int32_small p (omega arith)) (to_int32_small (p + 1) h)

padding_row : plus_one minus_one ≡ pos 0
unfolding to_int32
padding_row = refl

same_total : (ds : List ℕ) → total ds ≡ sum ds
same_total [] = refl
same_total (d ∷ ds) = ap (λ x. d + x) (same_total ds)

length-starts_of : (s : ℕ) (ds : List ℕ) → length (starts_of s ds) ≡ length ds
length-starts_of s [] = refl
length-starts_of s (d ∷ ds) = ap suc (length-starts_of (s + d) ds)

-- The shared indices of a batch that is not empty.
indices_lem :
    (d : ℕ) (ds : List ℕ)
    → build_decode_scatter_indices (d ∷ ds) (length (d ∷ ds)) (sum (d ∷ ds))
      ≡ some (
        expanded (columns (length (d ∷ ds)) (λ r. r)) (d ∷ ds),
        intra_from 0 (expanded (starts_of 0 (d ∷ ds)) (d ∷ ds)),
      )
unfolding build_decode_scatter_indices
indices_lem d ds =
    let ls = d ∷ ds in
    let starts : cumsum 0 (0 ∷ but_last ls) ≡ starts_of 0 ls =
      ap (λ xs. 0 ∷ xs) (cumsum-starts 0 d ds) in
    let count : (length (expanded (starts_of 0 ls) ls) == sum ls) ≡ true =
      ground (arith, length-expanded (starts_of 0 ls) ls (length-starts_of 0 ls), same_total ls) in
    let req = expanded (columns (length ls) (λ r. r)) ls in
    let begin = expanded (starts_of 0 ls) ls in
    ap₂
      (λ q s. q >>= λ req_id. s >>= λ starts.
        if length starts == sum ls then some (req_id, intra_from 0 starts) else none)
      (repeat_interleave-expanded (columns (length ls) (λ r. r)) ls
        (length-columns (length ls) (λ r. r)))
      (ap (λ c. repeat_interleave c ls) starts
        ∙ repeat_interleave-expanded (starts_of 0 ls) ls (length-starts_of 0 ls))
    ∙ ap (λ b. if b then some (req, intra_from 0 begin) else none) count

-- The tokens of the requests, in the rows of the padded layout.
padded_lem :
    (positions ds : List ℕ) (next_n : ℕ)
    → 0 < length ds
    → All (λ d. d ≤ next_n) ds
    → sum ds ≤ length positions
    → decode_topk_seq_lens positions ds (sum ds) (length ds) next_n true
      ≡ some (
          columns (length ds * next_n) (λ i. plus_one (
            place 0 ds
              (map to_row (take (sum ds) positions))
              (λ q t. minus_one)
              (i / next_n)
              (i % next_n))))
unfolding decode_topk_seq_lens scatter_decode_tokens_by_request
padded_lem positions [] next_n e h l = absurd (omega arith)
padded_lem positions (d ∷ ds) next_n e h l =
    let ls = d ∷ ds in
    let tokens = map to_row (take (sum ls) positions) in
    let fit : length tokens ≡ sum ls =
      omega (arith, length-map (take (sum ls) positions) to_row, length-take (sum ls) positions) in
    ap
      (λ o. o >>= λ idx.
        scatter_decode_tokens_by_request tokens minus_one (length ls) next_n idx >>= λ padded.
        some (columns (length ls * next_n) (λ i. plus_one (padded (i / next_n) (i % next_n)))))
      (indices_lem d ds)
    ∙ ap
        (λ o. o >>= λ padded.
          some (columns (length ls * next_n) (λ i. plus_one (padded (i / next_n) (i % next_n)))))
        (scatter-place (length ls) next_n ls (λ r. r) 0 0 tokens (λ q t. minus_one)
          (λ i. omega arith) (omega arith) h fit)

small : (xs : List ℕ) (i : ℕ) → All (λ p. p + 1 < 2 ^ 31) xs → get_or xs i 0 + 1 < 2 ^ 31
small [] i h = omega arith
small (x ∷ xs) zero (h, hs) = h
small (x ∷ xs) (suc i) (h, hs) = small xs i hs

-- a token of request `r` is in front of the end
token_in :
    (ds : List ℕ) (r t : ℕ) → r < length ds → t < get_or ds r 0 → sum (take r ds) + t < sum ds
token_in [] r t h l = absurd (omega arith)
token_in (d ∷ ds) zero t h l = omega arith
token_in (d ∷ ds) (suc r) t h l = omega (arith, token_in ds r t (omega arith) l)

-- Row `r * next_n + t` of the lengths.
abbrev pub row_of : List ℕ → List ℕ → ℕ → ℕ → ℤ
row_of positions ds r t =
    if ltb t (get_or ds r 0) then pos (get_or positions (sum (take r ds) + t) 0 + 1) else pos 0

placed :
    (positions ds : List ℕ) (r t : ℕ)
    → r < length ds
    → sum ds ≤ length positions
    → All (λ p. p + 1 < 2 ^ 31) positions
    → plus_one (place 0 ds (map to_row (take (sum ds) positions)) (λ q c. minus_one) r t)
      ≡ row_of positions ds r t
placed positions ds r t h l s =
    let tokens = map to_row (take (sum ds) positions) in
    let fit : sum ds ≤ length tokens =
      omega (arith, length-map (take (sum ds) positions) to_row, length-take (sum ds) positions) in
    let z : 0 + r ≡ r = omega arith in
    let i = sum (take r ds) + t in
    let cell =
      subst
        (λ q.
          place 0 ds tokens (λ q' c. minus_one) q t
          ≡ (if ltb t (get_or ds r 0) then get_or tokens i (to_row 0) else minus_one))
        z (place_row 0 ds tokens (λ q' c. minus_one) r t (to_row 0) h fit) in
    ap plus_one cell ∙ elim (Bool-cases (ltb t (get_or ds r 0))) [
      | inr e ↦ rw e padding_row
      | inl e ↦ rw e (
          ap plus_one (
            get_or-map to_row (take (sum ds) positions) i 0
            ∙ ap to_row (get_or-take (sum ds) positions i 0 (token_in ds r t h (ground arith))))
          ∙ next_int32 (get_or positions i 0) (small positions i s))
    ]

-- the short cut of the uniform layout
uniform_row :
    (positions : List ℕ) (n m r t : ℕ)
    → r < n
    → t < m
    → n * m ≤ length positions
    → All (λ p. p + 1 < 2 ^ 31) positions
    → get_elem? (map (λ p. plus_one (to_row p)) (take (n * m) positions)) (r * m + t)
      ≡ some (row_of positions (replicate n m) r t)
uniform_row positions n m r t h l fit s =
    let i = r * m + t in
    let f : ℕ → ℤ = λ p. plus_one (to_row p) in
    let inside = row_before r n m t h l in
    let full : ltb t (get_or (replicate n m) r 0) ≡ true =
      lt→ltb t (get_or (replicate n m) r 0) (omega (arith, get_or-replicate n m r h)) in
    get_elem?-get_or (map f (take (n * m) positions)) i (f 0)
      (omega (arith, length-map (take (n * m) positions) f, length-take (n * m) positions))
    ∙ ap some (
        get_or-map f (take (n * m) positions) i 0
        ∙ ap f (get_or-take (n * m) positions i 0 inside)
        ∙ next_int32 (get_or positions i 0) (small positions i s)
        ∙ rw full (
            ap (λ j. pos (get_or positions (j + t) 0 + 1))
              (sym (sum-take-replicate n m r (omega arith)))))

direct :
    (positions ds : List ℕ) (next_n : ℕ)
    → decode_topk_seq_lens positions ds (sum ds) (length ds) next_n false
      ≡ some (map (λ p. plus_one (to_row p)) (take (length ds * next_n) positions))
unfolding decode_topk_seq_lens
direct positions ds next_n = refl

-- Row `r * next_n + t` of the result is the length that token `t` of request `r` sees, its position
-- plus one, or 0 where the request has no such token, both in the padded layout and, where all
-- requests have `next_n` tokens, in the layout without padding.
pub decode_topk_seq_lens-row_of :
    (positions ds : List ℕ) (next_n : ℕ) (requires_padding : Bool) (r t : ℕ)
    → r < length ds
    → t < next_n
    → All (λ d. d ≤ next_n) ds
    → sum ds ≤ length positions
    → All (λ p. p + 1 < 2 ^ 31) positions
    → (requires_padding ≡ false → ds ≡ replicate (length ds) next_n)
    → (rows : List ℤ) × (decode_topk_seq_lens positions ds
          (sum ds)
          (length ds)
          next_n
          requires_padding
        ≡ some rows)
      × (get_elem? rows (r * next_n + t) ≡ some (row_of positions ds r t))
decode_topk_seq_lens-row_of positions ds next_n true r t h l fits fit s u = (
  _,
  padded_lem positions ds next_n (omega arith) fits fit,
  get_elem?-columns (length ds * next_n) _ (r * next_n + t) (row_before r (length ds) next_n t h l)
      ∙ ap₂
          (λ q c.
            some (
              plus_one
                (place 0 ds (map to_row (take (sum ds) positions)) (λ q' c'. minus_one) q c)))
          (div_cell r next_n t l) (mod_cell r next_n t l)
      ∙ ap some (placed positions ds r t h fit s),
)
decode_topk_seq_lens-row_of positions ds next_n false r t h l fits fit s u =
    let count : sum ds ≡ length ds * next_n = ap sum (u refl) ∙ sum-replicate (length ds) next_n in
    (
      _,
      direct positions ds next_n,
      uniform_row positions (length ds) next_n r t h l (omega (arith, count)) s
          ∙ ap (λ ls. some (row_of positions ls r t)) (sym (u refl)),
    )
