-- ===== src/Mamba/Block.antt =====
-- mamba_utils.py, `_copy_mamba_state_block`: the byte copy of one state between two block columns.
use glm53flash_pp.Base.{ℕ, zero, suc, ◌+◌, ◌-◌, ◌*◌, List, [], ◌∷◌, Bool, ltb, ◌&&◌, if◌then◌else◌}
use glm53flash_pp.Memcpy.{Memory, copy_loop, memcpy_u64_tiled}

-- The metadata of one state: the entries of the `state_*_ptr` arrays at its index.
pub record StateMeta : Type 0 where
  pub base_addr : ℕ
  pub block_stride : ℕ
  pub elem_size : ℕ
  pub inner_size : ℕ
  -- 0 for a temporal state
  pub conv_width : ℕ
  pub dim_rows : ℕ
  pub row_stride : ℕ

-- The constants that the kernel is compiled for.
pub record Launch : Type 0 where
  pub copy_block : ℕ
  pub conv_dim_first : Bool
  pub temporal_tiles : ℕ

abbrev pub block_addr : StateMeta → ℕ → ℕ
block_addr s id = s.base_addr + id * s.block_stride

-- The layout with dimensions first: the window slides inside each of the rows left.
unfoldable pub copy_rows : ℕ → StateMeta → Memory → ℕ → ℕ → ℕ → ℕ → ℕ → Memory
copy_rows block s m src dst row_bytes zero d = m
copy_rows block s m src dst row_bytes (suc rows) d =
    copy_rows block s
      (copy_loop 1 block row_bytes m (src + d * s.row_stride) (dst + d * s.row_stride) 0 row_bytes)
      src dst row_bytes rows (d + 1)

-- `table` is the request's row of the block table, from columns to block ids. A window has at
-- least `token_bias` columns, so the difference of the two does not go below zero.
unfoldable pub copy_mamba_state_block :
    Launch → StateMeta → (ℕ → ℕ) → Memory → ℕ → ℕ → ℕ → ℕ → Memory
copy_mamba_state_block l s table m src_col dst_col token_bias tile =
    let dst = block_addr s (table dst_col) in
    let src = block_addr s (table src_col) in
    if ltb 0 s.conv_width && l.conv_dim_first
    then (if ltb 0 tile
        then m
        else copy_rows l.copy_block s m (src + token_bias * s.elem_size) dst
            ((s.conv_width - token_bias) * s.elem_size) s.dim_rows 0)
    else if ltb 0 s.conv_width
    then (if ltb 0 tile
        then m
        else memcpy_u64_tiled l.copy_block 1 m (src + token_bias * s.inner_size * s.elem_size) dst
            ((s.conv_width - token_bias) * s.inner_size * s.elem_size) tile)
    else memcpy_u64_tiled l.copy_block l.temporal_tiles m
        (block_addr s (table (src_col + token_bias))) dst (s.inner_size * s.elem_size) tile

-- The tiles of one launch, in the order in which they happen to run.
unfoldable pub run_block : Launch → StateMeta → (ℕ → ℕ) → Memory → ℕ → ℕ → ℕ → List ℕ → Memory
run_block l s table m src_col dst_col token_bias [] = m
run_block l s table m src_col dst_col token_bias (t ∷ ts) =
    run_block l s table (copy_mamba_state_block l s table m src_col dst_col token_bias t) src_col
      dst_col token_bias ts
