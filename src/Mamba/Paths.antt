-- ===== src/Mamba/Paths.antt =====
-- The scalar path, the fused path and the V2 kernels decide alike.
use glm53flash_pp.Base.{
  ℕ, ◌+◌, ◌-◌, ◌≤◌, ◌<◌, ◌≡◌, refl, ap, Option, none, some, true, arith, ℤ, pos, negsuc,
}
use glm53flash_pp.Mamba.{
  postprocess_from, postprocess_step, postprocess_precomputed, preprocess_align, precopy,
  collect_copy, preprocess_request,
}

-- `preprocess_mamba` asks for the same copy on both of its paths: what the kernel makes of the
-- columns that the fused path stages is the copy that the scalar path collects, and the assertion of
-- the fused path holds. (At least one token was accepted, and a known column is -1 or a block.)
pub fused-eq-scalar :
    (block_size num_spec_blocks : ℕ) (known : Option ℤ)
    (num_computed num_scheduled num_accepted : ℕ)
    → 0 < num_accepted
    → ((n : ℕ) → known ≡ some (negsuc n) → n ≡ 0)
    → let s =
        preprocess_request block_size num_spec_blocks known num_computed num_scheduled
          num_accepted in
      (s.bias_holds ≡ true) × (precopy s.src_col s.state_idx s.token_bias ≡ s.scalar_copy)
unfolding preprocess_request precopy collect_copy
fused-eq-scalar bs spec none computed scheduled accepted a h = ground arith
fused-eq-scalar bs spec (some (pos i)) computed scheduled accepted a h = ground arith
fused-eq-scalar bs spec (some (negsuc i)) computed scheduled accepted a h = ground (arith, h i refl)

-- V1 and V2 agree: from the same column, accepted count and token counts the V2 kernels move to
-- the same column, ask for the same copy and leave the same accepted count as `preprocess_mamba`,
-- however many speculative blocks V1 reserves. (At least one token was accepted, and the column is
-- -1 or a block.)
pub align-eq-request :
    (block_size num_spec_blocks : ℕ) (state_idx : ℤ) (num_computed num_scheduled num_accepted : ℕ)
    → 0 < block_size
    → 0 < num_accepted
    → ((n : ℕ) → state_idx ≡ negsuc n → n ≡ 0)
    → let a = preprocess_align block_size state_idx num_accepted num_computed num_scheduled in
      let s =
        preprocess_request block_size num_spec_blocks
          (some state_idx)
          num_computed
          num_scheduled
          num_accepted in
      (a.state_idx ≡ s.state_idx)
      × (precopy a.src_col a.state_idx a.src_off ≡ s.scalar_copy)
      × (a.num_accepted ≡ s.num_accepted)
unfolding preprocess_align preprocess_request precopy collect_copy
align-eq-request bs spec (pos i) computed scheduled accepted b a h = ground arith
align-eq-request bs spec (negsuc i) computed scheduled accepted b a h = ground (arith, h i refl)

-- The two ways to hand the counts to the postprocess kernel decide alike.
pub precomputed-eq-step :
    (block_size num_computed num_scheduled num_draft num_accepted : ℕ) (src_block : ℤ)
    → num_draft ≤ num_scheduled
    → 0 < num_accepted
    → postprocess_precomputed block_size
        (num_computed + num_scheduled - num_draft + num_accepted - 1)
        num_accepted
        src_block
      ≡ postprocess_step block_size num_computed num_scheduled num_draft num_accepted src_block
unfolding postprocess_precomputed postprocess_step
precomputed-eq-step bs computed scheduled draft accepted src h k =
    ap (λ r. postprocess_from bs r (computed + scheduled - draft + accepted - 1) src) (omega arith)
