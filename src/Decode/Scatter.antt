-- ===== src/Decode/Scatter.antt =====
-- vllm/model_executor/layers/sparse_attn_indexer_kpool.py: the padded layout of the decode tokens.
-- `none` is an index out of range, or tensors that do not fit.
use glm53flash_pp.Base.{
  ℕ, suc, ◌+◌, ◌-◌, ◌*◌, ◌/◌, ◌%◌, List, [], ◌∷◌, map, Option, none, some, ◌>>=◌, Bool, not, ◌&&◌,
  ltb, ◌==◌, if◌then◌else◌, length, take, columns, ℤ, pos, minus_one, ◌+ℤ◌, to_int32,
}
use glm53flash_pp.TailRing.Slots.{repeat_interleave}

-- `torch.cumsum` behind a sum so far
abbrev pub cumsum : ℕ → List ℕ → List ℕ
cumsum a [] = []
cumsum a (x ∷ xs) = (a + x) ∷ cumsum (a + x) xs

-- `xs[:-1]`
abbrev pub but_last : List ℕ → List ℕ
but_last [] = []
but_last (x ∷ []) = []
but_last (x ∷ y ∷ ys) = x ∷ but_last (y ∷ ys)

-- `arange - starts`, from index `i` on; no start is behind its index
abbrev pub intra_from : ℕ → List ℕ → List ℕ
intra_from i [] = []
intra_from i (s ∷ starts) = (i - s) ∷ intra_from (suc i) starts

unfoldable pub build_decode_scatter_indices : List ℕ → ℕ → ℕ → Option (List ℕ × List ℕ)
build_decode_scatter_indices decode_lens num_requests n = do
  req_id ← repeat_interleave (columns num_requests (λ r. r)) decode_lens
  starts ← repeat_interleave (cumsum 0 (0 ∷ but_last decode_lens)) decode_lens
  if length starts == n then some (req_id, intra_from 0 starts) else none

abbrev pub Matrix : Type 0
Matrix = ℕ → ℕ → ℤ

abbrev pub write : ℕ → ℕ → ℤ → Matrix → Matrix
write q t x out q' t' = if (q' == q) && (t' == t) then x else out q' t'

-- `out[req_id, intra] = tokens`
unfoldable pub scatter : ℕ → ℕ → List ℕ → List ℕ → List ℤ → Matrix → Option Matrix
scatter num_requests lmax [] [] [] out = some out
scatter num_requests lmax (q ∷ qs) (t ∷ ts) (x ∷ xs) out =
    let rest = scatter num_requests lmax qs ts xs (write q t x out) in
    if ltb q num_requests && ltb t lmax then rest else none
scatter num_requests lmax _ _ _ out = none

unfoldable pub scatter_decode_tokens_by_request :
    List ℤ → ℤ → ℕ → ℕ → List ℕ × List ℕ → Option Matrix
unfolding scatter
scatter_decode_tokens_by_request tokens pad_value num_requests lmax (req_id, intra) =
    scatter num_requests lmax req_id intra tokens (λ q t. pad_value)

-- `tensor.to(torch.int32)`, and `+ 1` on an `int32`
abbrev pub to_row : ℕ → ℤ
to_row p = to_int32 (pos p)

abbrev pub plus_one : ℤ → ℤ
plus_one x = to_int32 (x +ℤ pos 1)

unfoldable pub decode_topk_seq_lens : List ℕ → List ℕ → ℕ → ℕ → ℕ → Bool → Option (List ℤ)
unfolding build_decode_scatter_indices scatter_decode_tokens_by_request
decode_topk_seq_lens positions decode_lens num_decode_tokens batch_size next_n requires_padding =
    let n = batch_size * next_n in
    if not requires_padding
    then some (map (λ p. plus_one (to_row p)) (take n positions))
    else (build_decode_scatter_indices decode_lens batch_size num_decode_tokens >>= λ scatter_idx.
        scatter_decode_tokens_by_request (map to_row (take num_decode_tokens positions)) minus_one
          batch_size next_n scatter_idx
        >>= λ padded. some (columns n (λ i. plus_one (padded (i / next_n) (i % next_n)))))
