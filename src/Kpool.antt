-- ===== src/Kpool.antt =====
-- vllm/models/glm5next/nvidia/ops/kpool_compress.py: from the selected key pools of a query to its
-- token ids. `pool_size` consecutive tokens make a pool; a row is one query. An int32 value is an
-- integer that `to_int32` has wrapped, and -1 stands for no token. `none` is a failed assertion or
-- a gather out of range. Pool sizes are positive.
pub mod Expand
pub mod Fused
pub mod Attended
pub mod Pages
pub mod Locs
pub mod Tests
use glm53flash_pp.Base.{
  ℕ, zero, suc, ◌+◌, ◌-◌, ◌*◌, ◌/◌, ◌%◌, min, Option, none, some, Bool, true, false, List, [], ◌∷◌,
  ◌++◌, ◌&&◌, ◌||◌, not, ltb, leb, ◌==◌, ◌>>=◌, if◌then◌else◌, length, get_or, columns, ℤ, pos,
  minus_one, pos_part, is_negative, ◌+ℤ◌, scale, to_int32,
}
use glm53flash_pp.Memcpy.{cdiv}

-- What becomes of a token id: nothing, a page-table row's entry, or the id plus the row's offset.
pub data TokenMap : Type 0 where
  identity : TokenMap
  page_table : List ℤ → TokenMap
  topk_offset : ℤ → TokenMap

-- A gather from a page table of no columns raises.
abbrev pub can_map : TokenMap → Bool
can_map identity = true
can_map (page_table row) = ltb 0 (length row)
can_map (topk_offset k) = true

unfoldable pub map_token : TokenMap → ℤ → ℤ
map_token identity t = to_int32 t
map_token (page_table row) t = to_int32 (get_or row (min (pos_part t) (length row - 1)) minus_one)
map_token (topk_offset k) t = to_int32 (t +ℤ k)

unfoldable pub history_group_budget_for_topk : ℕ → ℕ → Option ℕ
history_group_budget_for_topk topk pool_size =
    if topk % pool_size == 0 then some (topk / pool_size) else none

-- The columns of `expand_pools_to_tokens`: a pool's tokens, or -1 for each of them.
unfoldable pub expand_groups : TokenMap → ℕ → List ℤ → List Bool → List ℤ
expand_groups m pool_size [] valid = []
expand_groups m pool_size (g ∷ gs) [] = []
expand_groups m pool_size (g ∷ gs) (v ∷ vs) =
    columns pool_size (λ o. if v then map_token m (scale g pool_size +ℤ pos o) else minus_one)
    ++ expand_groups m pool_size gs vs

unfoldable pub expand_pools_to_tokens : List ℤ → List Bool → ℕ → ℕ → TokenMap → Option (List ℤ)
expand_pools_to_tokens group_ids group_valid topk pool_size m =
    if length group_valid == length group_ids
    then (do
      budget ← history_group_budget_for_topk topk pool_size
      if (length group_ids == budget) && can_map m
          then some (expand_groups m pool_size group_ids group_valid)
          else none)
    else none

-- One column of `append_tail_to_topk`. Where the source's `tail_count` is negative, no column is a
-- tail column; so it is where the subtraction stops at 0.
unfoldable pub tail_column : List ℤ → ℕ → ℕ → ℕ → TokenMap → ℕ → ℤ
tail_column topk_result seq_len pool_len pool_size m col =
    let history_len = length topk_result in
    let tail_start = pool_len * pool_size in
    let tail_count = seq_len - tail_start in
    let tail_off = col - history_len in
    if leb history_len col && ltb tail_off tail_count
    then map_token m (pos (tail_start + tail_off))
    else if ltb col history_len
    then get_or topk_result (min col (history_len - 1)) minus_one
    else minus_one

unfoldable pub append_tail_to_topk : List ℤ → ℕ → ℕ → ℕ → TokenMap → Option (List ℤ)
append_tail_to_topk topk_result seq_len pool_len pool_size m =
    if pool_size == 1
    then some topk_result
    else if (length topk_result == 0) || not (can_map m)
    then none
    else some (
        columns (length topk_result + (pool_size - 1))
          (tail_column topk_result seq_len pool_len pool_size m))

-- `_expand_pools_and_append_tail_kernel`: the value of one column of a row.
unfoldable pub fused_column : List ℤ → ℕ → ℕ → ℕ → ℕ → ℤ
fused_column pool_ids seq_len pool_size topk col =
    let tail_start = seq_len / pool_size * pool_size in
    let tail_count = seq_len - tail_start in
    let pid = if ltb col topk then get_or pool_ids (col / pool_size) minus_one else minus_one in
    let hist_out =
      if is_negative pid
      then minus_one
      else to_int32 (scale pid pool_size +ℤ pos (col % pool_size)) in
    let tail_out =
      if leb topk col && ltb (col - topk) tail_count
      then to_int32 (pos (tail_start + (col - topk)))
      else minus_one in
    if ltb col topk then hist_out else tail_out

-- One program: the columns of one tile of the row's output buffer.
unfoldable pub fused_tile : ℕ → List ℤ → ℕ → ℕ → ℕ → ℕ → (ℕ → ℤ) → ℕ → ℤ
fused_tile block pool_ids seq_len pool_size topk tile out col =
    if leb (tile * block) col && ltb col (tile * block + block) && ltb col (topk + pool_size - 1)
    then fused_column pool_ids seq_len pool_size topk col
    else out col

-- The tiles of a row, `n` of them.
unfoldable pub fused_tiles : ℕ → List ℤ → ℕ → ℕ → ℕ → ℕ → (ℕ → ℤ) → ℕ → ℤ
fused_tiles block pool_ids seq_len pool_size topk zero out = out
fused_tiles block pool_ids seq_len pool_size topk (suc n) out =
    fused_tile block pool_ids seq_len pool_size topk n
      (fused_tiles block pool_ids seq_len pool_size topk n out)

-- One row of the output; `out` is the memory that `torch.empty` returned.
unfoldable pub expand_pools_and_append_tail : List ℤ → ℕ → ℕ → (ℕ → ℤ) → ℕ → ℤ
expand_pools_and_append_tail pool_ids seq_len pool_size out =
    let topk = length pool_ids * pool_size in
    fused_tiles 128 pool_ids seq_len pool_size topk (cdiv (topk + pool_size - 1) 128) out
