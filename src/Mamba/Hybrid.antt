-- ===== src/Mamba/Hybrid.antt =====
-- vllm/v1/worker/gpu/model_states/mamba_hybrid.py: the per-slot state of `MambaHybridModelState` in
-- align mode, and how a step of the runner moves it over the kernels of mamba_utils.py. The slots
-- of one batch differ, so a launch is its programs one after the other. In align mode the block size of
-- the cache configuration, which `add_request` reads, is that of the recurrent layers.
pub mod Rows
pub mod Tracks
pub mod Tests
use glm53flash_pp.Base.{
  ℕ, ◌+◌, ◌-◌, ◌≡◌, List, [], ◌∷◌, ◌++◌, map, length, replicate, Option, none, some, Bool, true,
  false, not, ◌&&◌, ltb, ◌==◌, if◌then◌else◌, ℤ, pos, negsuc, minus_one, max,
}
use glm53flash_pp.Mamba.{
  StateCopy, Postprocess, AlignStep, preprocess_align, precopy, postprocess_precomputed, last_block,
}

-- The tensors by slot, and whether the copy context is there (`_mamba_ctx`).
pub record Hybrid : Type 0 where
  pub num_accepted : ℕ → ℕ
  pub state_idx : ℕ → ℤ
  pub src_col : ℕ → ℤ
  pub src_off : ℕ → ℕ
  pub has_ctx : Bool

abbrev pub put : {A : Type 0} → ℕ → A → (ℕ → A) → ℕ → A
put i x f j = if j == i then x else f j

-- `__init__`
abbrev pub fresh : Hybrid
fresh = record {
  num_accepted = λ i. 1;
  state_idx = λ i. pos 0;
  src_col = λ i. minus_one;
  src_off = λ i. 0;
  has_ctx = false;
}

unfoldable pub add_request : ℕ → ℕ → ℕ → Hybrid → Hybrid
add_request block_size req_index num_computed s = record s {
  num_accepted = put req_index 1 s.num_accepted;
  state_idx = put req_index (last_block block_size num_computed) s.state_idx;
}

-- A row of the batch: its slot and the number of its query tokens.
pub record Row : Type 0 where
  pub slot : ℕ
  pub query_len : ℕ

-- The lane of a row in `preprocess_mamba_align_fused_kernel`.
unfoldable pub align_row : ℕ → (ℕ → ℕ) → Row → Hybrid → Hybrid
align_row block_size computed r s =
    let i = r.slot in
    let a =
      preprocess_align block_size (s.state_idx i) (s.num_accepted i) (computed i) r.query_len in
    record s {
      num_accepted = put i a.num_accepted s.num_accepted;
      state_idx = put i a.state_idx s.state_idx;
      src_col = put i a.src_col s.src_col;
      src_off = put i a.src_off s.src_off;
    }

unfoldable pub align_rows : ℕ → (ℕ → ℕ) → List Row → Hybrid → Hybrid
align_rows block_size computed [] s = s
align_rows block_size computed (r ∷ rs) s =
    align_rows block_size computed rs (align_row block_size computed r s)

abbrev pub precopy_row : Hybrid → Row → Option StateCopy
precopy_row s r = precopy (s.src_col r.slot) (s.state_idx r.slot) (s.src_off r.slot)

-- the state after, and the copy that each row makes
unfoldable pub preprocess_state : ℕ → (ℕ → ℕ) → List Row → Hybrid → Hybrid × List (Option StateCopy)
preprocess_state block_size computed [] s = (s, [])
preprocess_state block_size computed (r ∷ rs) s =
    let s' = align_rows block_size computed (r ∷ rs) (record s { has_ctx = true }) in
    (s', map (precopy_row s') (r ∷ rs))

-- A row of `idx_mapping`, -1 to skip it.
unfoldable pub store_accepted : ℤ → ℕ → Hybrid → Hybrid
store_accepted (negsuc n) v s = s
store_accepted (pos i) v s = record s { num_accepted = put i v s.num_accepted }

-- `num_sampled`: one count for all rows, or a count for each.
pub data NumSampled : Type 0 where
  for_all : ℕ → NumSampled
  for_each : List ℕ → NumSampled

-- `_scatter_num_accepted_kernel` over its rows; there are as many counts as rows
unfoldable pub scatter_num_accepted : List ℤ → List ℕ → Hybrid → Hybrid
unfolding store_accepted
scatter_num_accepted (x ∷ xs) (n ∷ ns) s = scatter_num_accepted xs ns (store_accepted x (max n 1) s)
scatter_num_accepted _ _ s = s

-- `_fill_num_accepted_kernel` over its rows
unfoldable pub fill_num_accepted : List ℤ → ℕ → Hybrid → Hybrid
unfolding store_accepted
fill_num_accepted [] v s = s
fill_num_accepted (x ∷ xs) v s = fill_num_accepted xs v (store_accepted x v s)

-- The decision of `run_fused_postprocess_align` for a row, from the snapshot of the counts.
abbrev pub align_decision : ℕ → (ℕ → ℕ) → Hybrid → ℕ → Postprocess
align_decision block_size computed snapshot i =
    postprocess_precomputed block_size (computed i) (snapshot.num_accepted i) (snapshot.state_idx i)

-- the counts after its rows, and the copies that they make
unfoldable pub postprocess_align :
    ℕ → (ℕ → ℕ) → Hybrid → List ℤ → Hybrid → Hybrid × List (Option StateCopy)
postprocess_align block_size computed snapshot [] s = (s, [])
postprocess_align block_size computed snapshot (negsuc n ∷ xs) s =
    let (s', copies) = postprocess_align block_size computed snapshot xs s in (s', none ∷ copies)
postprocess_align block_size computed snapshot (pos i ∷ xs) s =
    let d = align_decision block_size computed snapshot i in
    let (s', copies) = postprocess_align block_size computed snapshot xs (record s {
      num_accepted = if d.reset_accepted then put i 1 s.num_accepted else s.num_accepted;
    }) in
    (s', d.copy ∷ copies)

unfoldable pub accept : List ℤ → NumSampled → Hybrid → Hybrid
unfolding scatter_num_accepted fill_num_accepted
accept idx_mapping (for_each ns) s = scatter_num_accepted idx_mapping ns s
accept idx_mapping (for_all n) s = fill_num_accepted idx_mapping (max n 1) s

unfoldable pub postprocess_state :
    ℕ → List ℤ → NumSampled → Option (ℕ → ℕ) → Hybrid → Hybrid × List (Option StateCopy)
unfolding accept postprocess_align
postprocess_state block_size [] n computed s = (s, [])
postprocess_state block_size (x ∷ xs) n none s = (accept (x ∷ xs) n s, [])
postprocess_state block_size (x ∷ xs) n (some computed) s =
    let s' = accept (x ∷ xs) n s in
    let r = postprocess_align block_size computed s' (x ∷ xs) s' in
    if s'.has_ctx then r else (s', [])

-- `prepare_attn`: the accepted counts of the rows, padded with ones
abbrev pub accepted_rows : Hybrid → List ℕ → ℕ → List ℕ
accepted_rows s idx_mapping num_reqs =
    map s.num_accepted idx_mapping ++ replicate (num_reqs - length idx_mapping) 1

-- `num_decode_draft_tokens_np` of a row: its drafts where it is a speculative decode, else -1
abbrev pub decode_draft_tokens : ℕ → ℕ → ℤ
decode_draft_tokens num_scheduled num_draft =
    if ltb 0 num_draft && (num_scheduled == num_draft + 1) then pos num_draft else minus_one

-- What the runner calls, in the order of its steps.
pub data Event : Type 0 where
  added : ℕ → ℕ → Event
  before_forward : (ℕ → ℕ) → List Row → Event
  sampled : List ℤ → NumSampled → Option (ℕ → ℕ) → Event

unfoldable pub step : ℕ → Event → Hybrid → Hybrid
unfolding add_request preprocess_state postprocess_state
step block_size (added req_index num_computed) s = add_request block_size req_index num_computed s
step block_size (before_forward computed rows) s = (preprocess_state block_size computed rows s).0
step block_size (sampled idx_mapping n computed) s =
    (postprocess_state block_size idx_mapping n computed s).0

unfoldable pub run : ℕ → List Event → Hybrid → Hybrid
unfolding step
run block_size [] s = s
run block_size (e ∷ es) s = run block_size es (step block_size e s)
