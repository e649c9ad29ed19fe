-- ===== src/Speculator/Loop.antt =====
-- vllm/v1/worker/gpu/spec_decode/autoregressive/speculator.py: `propose` and the two loops that
-- generate the drafts after the first. The draft model, the sampler and the attention metadata are
-- parameters; CUDA graphs, which replay the same calls, are left out, and so is the check of the slot
-- mappings that an environment variable switches on for debugging (`_glm53_check_slot_mappings`).
use glm53flash_pp.Base.{
  ℕ, zero, suc, ◌+◌, ◌-◌, ◌*◌, ◌/◌, ◌%◌, List, all, Option, none, some, Bool, true, false, not,
  ◌&&◌, ◌||◌, ltb, ◌==◌, if◌then◌else◌,
}
use glm53flash_pp.Speculator.{
  Tensor, Target, Buffers, Config, prepare_prefill_inputs, prepare_decode_inputs,
  update_draft_inputs,
}

-- The code that the loops call: `K` is the key and value cache, `M` the attention metadata and `S`
-- the slot mappings. A forward pass gives the hidden states to sample from and those to feed back.
pub record Model (K M S : Type 0) : Type 0 where
  pub run_model : K → Option M → Option S → Buffers → K × Tensor × Tensor
  pub sample_draft : Tensor → Tensor → ℕ → Tensor
  pub compute_slot_mappings : Buffers → S
  pub build_draft_attn_metadata : Buffers → ℕ → M
  -- what a later `compute_slot_mappings` and `update_draft_decode_metadata` leave in these objects
  pub refresh_slot_mappings : Buffers → S → S
  pub update_draft_decode_metadata : Buffers → M → M

pub record Run (K : Type 0) : Type 0 where
  pub cache : K
  pub buffers : Buffers

-- `_configure_fused_multi_step_decode`, with whether each attention group supports the update
abbrev pub use_fused : Config → List Bool → Bool
use_fused c supported =
    if c.num_speculative_steps == 1
    then false
    else if not c.advance_draft_positions
    then true
    else all supported

-- the rows of a tensor taken at `index`
abbrev pub gather : ℕ → ℕ → Tensor → Tensor → Tensor
gather stride stride' index src p = src (index (p / stride') * stride + p % stride')

module _ {K M S : Type 0} (model : Model K M S) (c : Config) (num_reqs : ℕ) where
  -- The positions and the step that the sampler gets.
  abbrev pub sample_positions : Buffers → Tensor
  sample_positions b =
      if c.advance_draft_positions then b.positions else (λ r. b.positions r + b.current_draft_step)

  abbrev pub set_step : ℕ → Run K → Run K
  set_step step x = record x { buffers = record x.buffers { current_draft_step = step } }

  -- the draft tokens that `_generate_draft` samples
  abbrev pub sampled : Option M → Option S → Run K → Tensor
  sampled m s x =
      model.sample_draft (model.run_model x.cache m s x.buffers).1 (sample_positions x.buffers)
        x.buffers.current_draft_step

  unfoldable pub generate_draft : Option M → Option S → Run K → Run K
  generate_draft m s x =
      let (cache, last_hidden_states, hidden_states) = model.run_model x.cache m s x.buffers in
      let draft_tokens =
        model.sample_draft last_hidden_states (sample_positions x.buffers)
          x.buffers.current_draft_step in
      record {
        cache = cache;
        buffers = update_draft_inputs c draft_tokens hidden_states num_reqs x.buffers;
      }

  unfoldable pub rebuilds : Bool → ℕ → Bool
  rebuilds skip_attn step = not skip_attn && (c.advance_draft_positions || (step == 1))

  -- `_multi_step_decode` from `step` on, with the steps that are left
  unfoldable pub multi_step_from : Bool → ℕ → ℕ → Option M → Option S → Run K → Run K
  unfolding generate_draft rebuilds
  multi_step_from skip_attn zero step m s x = x
  multi_step_from skip_attn (suc left) step m s x =
      let rebuild = rebuilds skip_attn step in
      let s' = if rebuild then some (model.compute_slot_mappings x.buffers) else s in
      let m' = if rebuild then some (model.build_draft_attn_metadata x.buffers step) else m in
      multi_step_from skip_attn left (suc step) m' s' (generate_draft m' s' (set_step step x))

  unfoldable pub multi_step_decode : Bool → Run K → Run K
  unfolding multi_step_from
  multi_step_decode skip_attn x =
      multi_step_from skip_attn (c.num_speculative_steps - 1) 1 none none x

  -- the calls between two steps of `_generate_fused_drafts`
  abbrev pub refresh_slots : Bool → Buffers → Option S → Option S
  refresh_slots again b none = none
  refresh_slots again b (some s) = some (if again then model.refresh_slot_mappings b s else s)

  abbrev pub refresh_metadata : Bool → Buffers → Option M → Option M
  refresh_metadata again b none = none
  refresh_metadata again b (some m) =
      some (if again then model.update_draft_decode_metadata b m else m)

  unfoldable pub refreshes : ℕ → Bool
  refreshes step = ltb step (c.num_speculative_steps - 1) && c.advance_draft_positions

  -- `_generate_fused_drafts` from `step` on; the metadata is there exactly if the slots are
  unfoldable pub fused_from : ℕ → ℕ → Option M → Option S → Run K → Run K
  unfolding generate_draft refreshes
  fused_from zero step m s x = x
  fused_from (suc left) step m s x =
      let x' = generate_draft m s (set_step step x) in
      let again = refreshes step in
      fused_from left (suc step) (refresh_metadata again x'.buffers m)
        (refresh_slots again x'.buffers s) x'

  unfoldable pub fused_multi_step_decode : Bool → Run K → Run K
  unfolding fused_from
  fused_multi_step_decode skip_attn x =
      let s = if skip_attn then none else some (model.compute_slot_mappings x.buffers) in
      let m = if skip_attn then none else some (model.build_draft_attn_metadata x.buffers 1) in
      fused_from (c.num_speculative_steps - 1) 1 m s x

  -- `_prefill`: the first drafts, sampled at the last query of each request.
  unfoldable pub prefill : Option M → Option S → Run K → Run K
  prefill m s x =
      let b = x.buffers in
      let positions : Tensor = λ r. b.positions (b.last_token_indices r) in
      let (cache, last_hidden_states, hidden_states) = model.run_model x.cache m s b in
      let tokens =
        model.sample_draft
          (gather c.hidden_states_stride c.hidden_states_stride b.last_token_indices
            last_hidden_states)
          positions b.current_draft_step in
      let feed =
        gather c.hidden_states_stride c.next_hidden_states_stride b.last_token_indices
          hidden_states in
      record {
        cache = cache;
        buffers = record b {
          draft_tokens = λ p.
              if ltb (p / c.draft_tokens_stride) num_reqs && (p % c.draft_tokens_stride == 0)
              then tokens (p / c.draft_tokens_stride)
              else b.draft_tokens p;
          hidden_states = λ p.
              if ltb (p / c.next_hidden_states_stride) num_reqs
                && ltb (p % c.next_hidden_states_stride) c.hidden_size
              then feed p
              else b.hidden_states p;
          positions = λ r. if ltb r num_reqs then positions r else b.positions r;
        };
      }

  -- `propose` after the hidden states of the target model are in the buffers; `m` and `s` are the
  -- target model's metadata and slots
  unfoldable pub propose : Target → List Bool → Bool → Option M → Option S → Run K → Run K
  unfolding prefill multi_step_decode fused_multi_step_decode
  propose t supported skip_attn m s x =
      let x₁ = prefill m s (record x { buffers = prepare_prefill_inputs t x.buffers }) in
      if c.num_speculative_steps == 1
      then x₁
      else (let x₂ = record x₁ { buffers = prepare_decode_inputs c t x₁.buffers } in
          if use_fused c supported
          then fused_multi_step_decode skip_attn x₂
          else multi_step_decode skip_attn x₂)
