-- ===== src/Kpool/Pages.antt =====
-- vllm/models/glm5next/nvidia/ops/kpool_compress.py: where the compressed key of a pool is kept.
-- A page holds 64 slots, and pool pages stand at every `pool_size`-th token page.
use glm53flash_pp.Base.{
  ℕ, ◌+◌, ◌*◌, ◌/◌, ◌%◌, Option, none, some, ◌>>=◌, List, [], ◌∷◌, ◌==◌, if◌then◌else◌, length,
  get_elem?, get_or, columns,
}

-- The slot of one pool; `none` is an index out of range.
unfoldable pub pooled_write_loc : List ℕ → ℕ → ℕ → Option ℕ
pooled_write_loc page_table pool_size pool_id = do
  packed_page ← get_elem? page_table (pool_id / 64 * pool_size)
  some (packed_page * 64 + pool_id % 64)

unfoldable pub compute_pooled_write_locs : List ℕ → List ℕ → ℕ → Option (List ℕ)
compute_pooled_write_locs page_table [] pool_size = some []
compute_pooled_write_locs page_table (pool_id ∷ pool_ids) pool_size = do
  loc ← pooled_write_loc page_table pool_size pool_id
  locs ← compute_pooled_write_locs page_table pool_ids pool_size
  some (loc ∷ locs)

-- One row: the columns `arange(0, block_size, pool_size)`, which are all in range.
unfoldable pub build_pooled_page_table : List ℕ → ℕ → Option (List ℕ)
build_pooled_page_table page_table pool_size =
    if length page_table % pool_size == 0
    then some (columns (length page_table / pool_size) (λ g. get_or page_table (g * pool_size) 0))
    else none
