-- ===== src/Mamba/Tests.antt =====
-- The state bookkeeping at concrete inputs.
use glm53flash_pp.Base.{
  ℕ, ◌+◌, ◌-◌, ◌*◌, ◌≤◌, ◌≡◌, refl, ◌⊎◌, List, [], ◌∷◌, ◌&&◌, ◌||◌, none, some, arith, pos, ltb,
  leb, if◌then◌else◌, true, false, length,
}
use glm53flash_pp.Memcpy.{Memory}
use glm53flash_pp.Mamba.{
  postprocess_from, preprocess_align, precopy, preprocess_request, collect_copy,
}
use glm53flash_pp.Mamba.Block.{StateMeta, Launch, block_addr, run_block}
use glm53flash_pp.Mamba.Dict.{Dict, Departed, lookup, mem}
use glm53flash_pp.Mamba.Batch.{
  Request, preprocess_mamba, Staged, stage_postprocess_inputs, requests_of,
}
use glm53flash_pp.Mamba.Paths.{fused-eq-scalar, align-eq-request}
use glm53flash_pp.Mamba.Boundary.{Crosses, postprocess-Crosses}
use glm53flash_pp.Mamba.Shift.{run_block_temporal, run_block_conv}
use glm53flash_pp.Mamba.Columns.{columns, lookup-preprocess_mamba, stage-preprocess_mamba}

-- Blocks of four tokens: two tokens before the step, three scheduled, two of them accepted.
request_moves : preprocess_request 4 2 (some (pos 0)) 3 3 2 ≡ record {
  state_idx = pos 1;
  src_col = pos 0;
  token_bias = 1;
  bias_holds = true;
  scalar_copy = some (record { src_col = pos 0; dst_col = pos 1; token_bias = 1 });
  num_accepted = 1;
}
unfolding preprocess_request collect_copy
request_moves = refl

fused-eq-scalar_example :
    let s = preprocess_request 4 2 (some (pos 0)) 3 3 2 in
    (s.bias_holds ≡ true) × (precopy s.src_col s.state_idx s.token_bias ≡ s.scalar_copy)
fused-eq-scalar_example =
    fused-eq-scalar 4 2 (some (pos 0)) 3 3 2 (omega arith) (λ n e. absurd (ground arith))

align-eq-request_example :
    let a = preprocess_align 4 (pos 0) 2 3 3 in
    let s = preprocess_request 4 2 (some (pos 0)) 3 3 2 in
    (a.state_idx ≡ s.state_idx)
    × (precopy a.src_col a.state_idx a.src_off ≡ s.scalar_copy)
    × (a.num_accepted ≡ s.num_accepted)
align-eq-request_example =
    align-eq-request 4 2 (pos 0) 3 3 2 (omega arith) (omega arith) (λ n e. absurd (ground arith))

postprocess-Crosses_example :
    let d = postprocess_from 4 7 9 (pos 2) in
    ((d.reset_accepted ≡ false) × (d.copy ≡ none) × ((j : ℕ) → 7 ≤ j * 4 → ¬ (j * 4 ≤ 9)))
    ⊎ ((j : ℕ) × Crosses 4 7 9 (pos 2) d j)
postprocess-Crosses_example = postprocess-Crosses 4 7 9 (pos 2) (omega arith)

abbrev launch : Launch
launch = record { copy_block = 2; conv_dim_first = false; temporal_tiles = 2 }

abbrev temporal : StateMeta
temporal = record {
  base_addr = 1000;
  block_stride = 64;
  elem_size = 2;
  inner_size = 20;
  conv_width = 0;
  dim_rows = 0;
  row_stride = 0;
}

abbrev conv : StateMeta
conv = record temporal { inner_size = 5; conv_width = 4 }

-- Column `c` holds block `c + 3`.
abbrev table : ℕ → ℕ
table c = c + 3

abbrev ramp : Memory
ramp a = a

run_block_temporal_example :
    let size = temporal.inner_size * temporal.elem_size in
    let dst = block_addr temporal (table 4) in
    run_block launch temporal table ramp 0 4 1 (1 ∷ 0 ∷ []) 1450 ≡ (
      if leb dst 1450 && ltb 1450 (dst + size)
      then ramp (block_addr temporal (table (0 + 1)) + (1450 - dst))
      else ramp 1450)
run_block_temporal_example =
    run_block_temporal launch temporal table ramp 0 4 1 (1 ∷ 0 ∷ []) refl (omega arith)
      (omega arith) (omega arith) (λ t h. ground arith) 1450

run_block_conv_example :
    let size = (conv.conv_width - 1) * conv.inner_size * conv.elem_size in
    let dst = block_addr conv (table 4) in
    run_block launch conv table ramp 0 4 1 (1 ∷ 0 ∷ []) 1450 ≡ (
      if leb dst 1450 && ltb 1450 (dst + size)
      then ramp (block_addr conv (table 0) + 1 * conv.inner_size * conv.elem_size + (1450 - dst))
      else ramp 1450)
run_block_conv_example =
    run_block_conv launch conv table ramp 0 4 1 (1 ∷ 0 ∷ []) (omega arith, refl, omega arith)
      (omega arith) (omega arith) (omega arith) refl 1450

abbrev departed : Departed
departed = record { finished = 5 ∷ []; preempted = []; resumed = 6 ∷ [] }

abbrev before : Dict
before = (5, pos 9) ∷ (6, pos 8) ∷ (7, pos 7) ∷ []

abbrev batch : List (Request × ℕ)
batch = (record { req_id = 6; num_computed = 3; num_scheduled = 3; num_accepted = 2 }, 2) ∷ []

lookup-preprocess_mamba_example :
    lookup 6 (preprocess_mamba 4 2 departed before (requests_of batch)).state_idx
    ≡ columns 4 6 (requests_of batch) (
        if mem 6 departed.finished || (mem 6 departed.preempted || mem 6 departed.resumed)
        then none
        else lookup 6 before)
lookup-preprocess_mamba_example = lookup-preprocess_mamba 4 2 departed before (requests_of batch) 6

stage-preprocess_mamba_example :
    (staged : List Staged) × (stage_postprocess_inputs
        (preprocess_mamba 4 2 departed before (requests_of batch)).state_idx
        batch
      ≡ some staged)
    × (length staged ≡ length batch)
stage-preprocess_mamba_example = stage-preprocess_mamba 4 2 departed before batch
