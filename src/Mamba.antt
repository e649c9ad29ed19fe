-- ===== src/Mamba.antt =====
-- vllm/v1/worker/mamba_utils.py: which state block each request keeps its recurrent state in, and
-- when it is copied from one block column to another. A column is an integer, since -1 stands for
-- a request with no state yet; token counts are natural.
pub mod Block
pub mod Dict
pub mod Batch
pub mod Columns
pub mod Paths
pub mod Hybrid
pub mod Boundary
pub mod Shift
pub mod Tests
use glm53flash_pp.Base.{
  ℕ, ◌+◌, ◌-◌, ◌*◌, ◌/◌, Option, none, some, Bool, true, false, not, ◌&&◌, ◌||◌, ℤ, pos, negsuc,
  minus_one, sub_ℕ, ◌==ℤ◌, is_negative, ltb, leb, ◌==◌, if◌then◌else◌,
}
use glm53flash_pp.Memcpy.{cdiv}

-- A copy of a request's state: from one column, `token_bias` tokens further on, to another.
pub record StateCopy : Type 0 where
  pub src_col : ℤ
  pub dst_col : ℤ
  pub token_bias : ℕ

-- What `postprocess_mamba_fused_kernel` decides for a request.
pub record Postprocess : Type 0 where
  pub reset_accepted : Bool
  pub copy : Option StateCopy

-- The decision from `num_tokens_running_state` and `new_num_computed`.
unfoldable pub postprocess_from : ℕ → ℕ → ℕ → ℤ → Postprocess
postprocess_from block_size running new_computed src_block =
    let aligned = new_computed / block_size * block_size in
    let bias = aligned - running in
    let dest_block = sub_ℕ (aligned / block_size) 1 in
    let same = src_block ==ℤ dest_block in
    if leb running aligned
    then record {
      reset_accepted = same;
      copy =
          if same && (bias == 0)
          then none
          else some (record { src_col = src_block; dst_col = dest_block; token_bias = bias });
    }
    else record { reset_accepted = false; copy = none }

-- The V1 inputs: tokens before the step, scheduled, and drafts among them. Drafts are scheduled
-- tokens, and at least one token is accepted, so neither subtraction goes below zero.
unfoldable pub postprocess_step : ℕ → ℕ → ℕ → ℕ → ℕ → ℤ → Postprocess
postprocess_step block_size num_computed num_scheduled num_draft num_accepted src_block =
    let running = num_computed + num_scheduled - num_draft in
    postprocess_from block_size running (running + num_accepted - 1) src_block

-- PRECOMPUTED_NEW_COMPUTED: the count after the step is given.
unfoldable pub postprocess_precomputed : ℕ → ℕ → ℕ → ℤ → Postprocess
postprocess_precomputed block_size new_computed num_accepted src_block =
    postprocess_from block_size (new_computed + 1 - num_accepted) new_computed src_block

-- What `preprocess_mamba_align_fused_kernel` stores for a request.
pub record AlignStep : Type 0 where
  pub src_col : ℤ
  pub src_off : ℕ
  pub state_idx : ℤ
  pub num_accepted : ℕ

unfoldable pub preprocess_align : ℕ → ℤ → ℕ → ℕ → ℕ → AlignStep
preprocess_align mamba_block_size state_idx num_accepted num_computed query_len =
    let computed_after = num_computed + query_len in
    let new_state_idx = sub_ℕ ((computed_after + mamba_block_size - 1) / mamba_block_size) 1 in
    let should_reset = not (is_negative state_idx) && not (state_idx ==ℤ new_state_idx) in
    record {
      src_col = state_idx;
      src_off = num_accepted - 1;
      state_idx = new_state_idx;
      num_accepted = if should_reset then 1 else num_accepted;
    }

-- `precopy_mamba_align_fused_kernel`: a fresh state, or one that stays in its block, is not copied.
unfoldable pub precopy : ℤ → ℤ → ℕ → Option StateCopy
precopy src_col dst_col token_bias =
    if is_negative src_col || (src_col ==ℤ dst_col)
    then none
    else some (record { src_col = src_col; dst_col = dst_col; token_bias = token_bias })

-- `(n - 1) // block_size`, rounding down.
abbrev pub last_block : ℕ → ℕ → ℤ
last_block block_size n = if n == 0 then minus_one else pos ((n - 1) / block_size)

-- `collect_mamba_copy_meta`: the copy that it enters into the buffers, if any.
unfoldable pub collect_copy : ℤ → ℤ → ℕ → Option StateCopy
collect_copy src dst bias =
    if (src ==ℤ dst) && (bias == 0)
    then none
    else some (record { src_col = src; dst_col = dst; token_bias = bias })

-- One request in the loop of `preprocess_mamba`: the staged columns of the fused path and whether its
-- assertion `accept_token_bias >= 0` holds, the copy of the scalar path, and the accepted count, which
-- both paths reset. The bias is the integer that the code computes where at least one token was
-- accepted; the assertion is what rules out a count of 0.
pub record CpuStep : Type 0 where
  pub state_idx : ℤ
  pub src_col : ℤ
  pub token_bias : ℕ
  pub bias_holds : Bool
  pub scalar_copy : Option StateCopy
  pub num_accepted : ℕ

unfoldable pub preprocess_request : ℕ → ℕ → Option ℤ → ℕ → ℕ → ℕ → CpuStep
preprocess_request block_size num_spec_blocks known num_computed num_scheduled num_accepted =
    let prev : ℤ = elim known [ none ↦ last_block block_size num_computed | some i ↦ i ] in
    let num_blocks = cdiv (num_computed + num_scheduled) block_size + num_spec_blocks in
    let curr = sub_ℕ num_blocks (1 + num_spec_blocks) in
    if not (prev ==ℤ minus_one) && not (prev ==ℤ curr)
    then record {
      state_idx = curr;
      src_col = prev;
      token_bias = num_accepted - 1;
      bias_holds = leb 1 num_accepted;
      scalar_copy = collect_copy prev curr (num_accepted - 1);
      num_accepted = 1;
    }
    else record {
      state_idx = curr;
      src_col = minus_one;
      token_bias = 0;
      bias_holds = true;
      scalar_copy = none;
      num_accepted = num_accepted;
    }
