-- ===== src/Mamba/Batch.antt =====
-- mamba_utils.py: the loops over the requests of a batch.
use glm53flash_pp.Base.{
  ℕ, ◌+◌, ◌-◌, ◌/◌, List, [], ◌∷◌, ◌++◌, map, Option, none, some, ℤ, pos, minus_one, ◌==◌,
  if◌then◌else◌, length, replicate, ◌>>=◌,
}
use glm53flash_pp.Mamba.{CpuStep, preprocess_request}
use glm53flash_pp.Mamba.Dict.{Dict, Departed, lookup, insert, pop, cleanup_mamba_state_idx}

-- What the loops read of a request: its id, `num_computed_tokens`, `num_scheduled_tokens` and its
-- count in `num_accepted_tokens_cpu`.
pub record Request : Type 0 where
  pub req_id : ℕ
  pub num_computed : ℕ
  pub num_scheduled : ℕ
  pub num_accepted : ℕ

-- The dictionary after the loop of `preprocess_mamba`, and its steps in batch order.
pub record Preprocessed : Type 0 where
  pub state_idx : Dict
  pub steps : List CpuStep

unfoldable pub preprocess_loop : ℕ → ℕ → Dict → List Request → Preprocessed
preprocess_loop block_size spec d [] = record { state_idx = d; steps = [] }
preprocess_loop block_size spec d (r ∷ rs) =
    let step =
      preprocess_request block_size spec (lookup r.req_id d) r.num_computed r.num_scheduled
        r.num_accepted in
    let rest = preprocess_loop block_size spec (insert r.req_id step.state_idx d) rs in
    record { state_idx = rest.state_idx; steps = step ∷ rest.steps }

unfoldable pub preprocess_mamba : ℕ → ℕ → Departed → Dict → List Request → Preprocessed
preprocess_mamba block_size spec s d rs =
    preprocess_loop block_size spec (cleanup_mamba_state_idx s d) rs

-- The loop of `postprocess_mamba_all`: the column of the last scheduled token of a request that
-- ran a full decode step; any other entry is dropped.
unfoldable pub postprocess_all_loop : ℕ → ℕ → Dict → List Request → Dict
postprocess_all_loop block_size full d [] = d
postprocess_all_loop block_size full d (r ∷ rs) =
    postprocess_all_loop block_size full
      (if r.num_scheduled == full
        then insert r.req_id (pos ((r.num_computed + r.num_scheduled - 1) / block_size)) d
        else pop r.req_id d)
      rs

unfoldable pub postprocess_mamba_all : ℕ → ℕ → Dict → List Request → Dict
postprocess_mamba_all block_size num_spec_tokens d rs =
    if num_spec_tokens == 0 then d else postprocess_all_loop block_size (1 + num_spec_tokens) d rs

abbrev pub get_or_minus_one : ℕ → Dict → ℤ
get_or_minus_one k d = elim (lookup k d) [ none ↦ minus_one | some i ↦ i ]

-- The staged buffer of `preprocess_mamba_all_specdec`: `capacity` entries, -1 past the batch.
unfoldable pub preprocess_all_specdec : ℕ → Departed → Dict → List ℕ → Dict × List ℤ
preprocess_all_specdec capacity s d ids =
    let d' = cleanup_mamba_state_idx s d in
    (d', map (λ k. get_or_minus_one k d') ids ++ replicate (capacity - length ids) minus_one)

-- One row of `stage_postprocess_inputs_to_gpu`.
pub record Staged : Type 0 where
  pub state_idx : ℤ
  pub num_scheduled : ℕ
  pub num_computed : ℕ
  pub num_draft : ℕ

-- The assertion on a missing entry is the `none` result. The drafts are those of each request.
unfoldable pub stage_postprocess_inputs : Dict → List (Request × ℕ) → Option (List Staged)
stage_postprocess_inputs d [] = some []
stage_postprocess_inputs d ((r, drafts) ∷ rs) = do
  i ← lookup r.req_id d
  rest ← stage_postprocess_inputs d rs
  some (
      record {
        state_idx = i;
        num_scheduled = r.num_scheduled;
        num_computed = r.num_computed;
        num_draft = drafts;
      }
      ∷ rest)

abbrev pub ids_of : List (Request × ℕ) → List ℕ
ids_of [] = []
ids_of ((r, _) ∷ rs) = r.req_id ∷ ids_of rs

abbrev pub requests_of : List (Request × ℕ) → List Request
requests_of [] = []
requests_of ((r, _) ∷ rs) = r ∷ requests_of rs
