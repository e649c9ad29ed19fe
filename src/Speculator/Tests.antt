-- ===== src/Speculator/Tests.antt =====
-- Runs and witnesses for the speculator.
use glm53flash_pp.Base.{
  ℕ, zero, suc, ◌+◌, ◌*◌, ◌≤◌, ◌<◌, ◌≡◌, refl, arith, List, [], ◌∷◌, map, none, true, false, get_or,
}
use glm53flash_pp.Speculator.{
  Tensor, Target, Buffers, Config, update_draft_inputs, prepare_decode_inputs,
  prepare_prefill_inputs,
}
use glm53flash_pp.Indexer.Metadata.{store_lanes}
use glm53flash_pp.Speculator.Queries.{IsBatch}
use glm53flash_pp.Speculator.Prefill.{HasQuery, IsPadded, prepare_prefill_inputs-HasQuery}
use glm53flash_pp.Speculator.Loop.{Model, Run, propose, fused_multi_step_decode, multi_step_decode}
use glm53flash_pp.Speculator.Fused.{UpdatesInPlace, fused-multi_step_decode}
use glm53flash_pp.Speculator.Chain.{IsChain, propose-IsChain}

abbrev tensor : List ℕ → Tensor
tensor xs i = get_or xs i 0

-- The first request has three queries, of which one is rejected; the second is still in its prompt.
abbrev pub target : Target
target = record {
  input_ids = tensor (10 ∷ 11 ∷ 12 ∷ 20 ∷ 21 ∷ []);
  positions = tensor (5 ∷ 6 ∷ 7 ∷ 0 ∷ 1 ∷ []);
  idx_mapping = tensor (1 ∷ 0 ∷ []);
  last_sampled = tensor (77 ∷ 88 ∷ []);
  next_prefill_tokens = tensor (22 ∷ 33 ∷ []);
  num_sampled = tensor (2 ∷ 0 ∷ []);
  num_rejected = tensor (1 ∷ 0 ∷ []);
  query_start_loc = tensor (0 ∷ 3 ∷ 5 ∷ []);
  seq_lens = tensor (8 ∷ 2 ∷ []);
  num_reqs = 2;
  max_num_reqs = 4;
  block_size = 2;
}

abbrev pub buffers : Buffers
buffers = record {
  input_ids = λ i. 0;
  positions = λ i. 0;
  query_start_loc = λ i. 9;
  seq_lens = λ i. 9;
  last_token_indices = λ i. 9;
  hidden_states = λ i. 0;
  draft_tokens = λ i. 0;
  current_draft_step = 3;
}

abbrev pub config : Config
config = record {
  draft_tokens_stride = 4;
  hidden_states_stride = 1;
  next_hidden_states_stride = 1;
  hidden_size = 1;
  max_model_len = 9;
  num_speculative_steps = 3;
  advance_draft_positions = true;
  block_size = 2;
}

-- A model whose next token is its input token, its position and a count of the passes.
abbrev pub model : Model ℕ ℕ ℕ
model = record {
  run_model = λ k m s b. (k + 1, (λ i. b.input_ids i + 100 * k), (λ i. b.input_ids i));
  sample_draft = λ hidden positions step i. hidden i + positions i;
  compute_slot_mappings = λ b. b.positions 0;
  build_draft_attn_metadata = λ b step. step;
  refresh_slot_mappings = λ b s. b.positions 0;
  update_draft_decode_metadata = λ b m. suc m;
}

prefilled :
    let b = prepare_prefill_inputs target buffers in
    (map b.input_ids (0 ∷ 1 ∷ 3 ∷ 4 ∷ []) ≡ 11 ∷ 88 ∷ 21 ∷ 22 ∷ [])
    × (map b.query_start_loc (0 ∷ 1 ∷ 2 ∷ 3 ∷ 4 ∷ []) ≡ 0 ∷ 3 ∷ 5 ∷ 5 ∷ 5 ∷ [])
unfolding prepare_prefill_inputs store_lanes
prefilled = (refl, refl)

target-ordered : (r s : ℕ) → r ≤ s → s ≤ 2 → target.query_start_loc r ≤ target.query_start_loc s
target-ordered zero s h l = omega arith
target-ordered (suc zero) zero h l = omega arith
target-ordered (suc zero) (suc zero) h l = omega arith
target-ordered (suc zero) (suc (suc zero)) h l = omega arith
target-ordered (suc zero) (suc (suc (suc s))) h l = omega arith
target-ordered (suc (suc zero)) zero h l = omega arith
target-ordered (suc (suc zero)) (suc zero) h l = omega arith
target-ordered (suc (suc zero)) (suc (suc zero)) h l = omega arith
target-ordered (suc (suc zero)) (suc (suc (suc s))) h l = omega arith
target-ordered (suc (suc (suc r))) s h l = absurd (omega arith)

target_accepts :
    (r : ℕ)
    → r < 2
    → target.query_start_loc r + target.num_rejected r < target.query_start_loc (r + 1)
target_accepts zero h = omega arith
target_accepts (suc zero) h = omega arith
target_accepts (suc (suc r)) h = absurd (omega arith)

target-IsBatch : IsBatch target
target-IsBatch = record {
  block = omega arith;
  ordered = target-ordered;
  accepts = target_accepts;
  fits = omega arith;
}

prepare_prefill_inputs-HasQuery_example :
    let b = prepare_prefill_inputs target buffers in
    HasQuery target 0 1 b
    × ((p : ℕ) → 2 ≤ p → p < 4 → IsPadded target p b)
    × (b.query_start_loc 2 ≡ 5)
    × (b.current_draft_step ≡ 0)
prepare_prefill_inputs-HasQuery_example =
    prepare_prefill_inputs-HasQuery target target-IsBatch buffers 0 1 (omega arith) (omega arith)
      (omega arith)

model-UpdatesInPlace : UpdatesInPlace model config 2
model-UpdatesInPlace = record { slots = λ b s. refl; metadata = λ x step h. refl }

abbrev pub start : Run ℕ
start = record { cache = 1; buffers = buffers }

fused-multi_step_decode_example :
    fused_multi_step_decode model config 2 false start
    ≡ multi_step_decode model config 2 false start
fused-multi_step_decode_example =
    fused-multi_step_decode model config 2 false start (omega arith) (λ a. model-UpdatesInPlace)

proposed :
    map
      (propose model config 2 target (true ∷ []) false none none start).buffers.draft_tokens
      (0 ∷ 1 ∷ 2 ∷ 4 ∷ 5 ∷ 6 ∷ [])
    ≡ 194 ∷ 401 ∷ 709 ∷ 123 ∷ 325 ∷ 628 ∷ []
unfolding propose update_draft_inputs prepare_decode_inputs prepare_prefill_inputs store_lanes
proposed = refl

propose-IsChain_example :
    (states : ℕ → Run ℕ) × ((r : ℕ)
      → r < 2
      → IsChain model config target
          (model.run_model 1 none none (prepare_prefill_inputs target buffers))
          states
          (propose model config 2 target (true ∷ []) false none none start).buffers
          r)
propose-IsChain_example =
    propose-IsChain model config target (true ∷ []) none none start target-IsBatch
      (λ e. model-UpdatesInPlace) (omega arith) refl (omega arith) (omega arith)
