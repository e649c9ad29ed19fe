-- ===== src/Relay.antt =====
-- vllm/v1/worker/gpu/pp_utils.py: the relay of sampled and draft tokens from the last pipeline
-- rank to the others. Arrays over the rows of a batch are lists of rows; a `none` result is a
-- raised exception (a failed assertion, or an index out of range); calls of `torch.distributed`
-- and of CUDA streams are recorded in order as commands.
pub mod Wire
pub mod Turn
pub mod Padding
pub mod Scatter
pub mod Matching
pub mod Fifo
pub mod Freed
pub mod Mask
pub mod Total
pub mod Running
pub mod Delay
pub mod Tests
use glm53flash_pp.Base.{
  ℕ, ◌+◌, ◌%◌, ◌^◌, max, List, [], ◌∷◌, ◌++◌, map, Option, none, some, Bool, not, ◌&&◌, ◌||◌, ℤ,
  pos, minus_one, ltb, leb, ◌==◌, if◌then◌else◌, get_elem?, set, replicate, any, all, ◌>>=◌,
}

-- One row of an `InputBatch`: the arrays `idx_mapping_np`, `num_computed_tokens_np`,
-- `num_scheduled_tokens`, `prefill_len_np` and `max_seq_len_np` at one position.
pub record Row : Type 0 where
  pub slot : ℕ
  pub num_computed : ℕ
  pub num_scheduled : ℕ
  pub prefill_len : ℕ
  pub max_seq_len : ℕ

unfoldable pub need_sampled : Row → Bool
need_sampled r =
    leb r.prefill_len (r.num_computed + r.num_scheduled)
    && ltb (max r.num_computed r.prefill_len + 1) r.max_seq_len

unfoldable pub compute_need_sampled_mask : List Row → Option (List Bool)
compute_need_sampled_mask rows =
    let mask = map need_sampled rows in if any mask then some mask else none

pub data Dtype : Type 0 where
  int64 int32 : Dtype

-- What a rank asks of the side stream and of the broadcast group, in order.
pub data Command : Type 0 where
  wait_stream : Command
  broadcast_op : ℕ → ℕ → Dtype → Command
  record_event : ℕ → Command

-- `idx_mapping_np`, `need_sampled_mask` and `gen_at_receive_np` at one row.
pub record Entry : Type 0 where
  pub slot : ℕ
  pub need : Bool
  pub gen_at_receive : ℕ

-- What the group's broadcasts leave in the buffers that a receiver posts for one step.
pub record Delivered : Type 0 where
  pub sampled_tokens : List (List ℤ)
  pub num_sampled : List ℕ
  pub num_rejected : List ℕ
  pub draft_tokens : List (List ℤ)

pub record PendingRecv : Type 0 where
  pub event : ℕ
  pub sampled_tokens : List (List ℤ)
  pub num_sampled : List ℕ
  pub num_rejected : List ℕ
  pub entries : List Entry
  pub draft_tokens : Option (List (List ℤ))

pub record PpHandler : Type 0 where
  pub is_last_rank : Bool
  pub max_sample_len : ℕ
  pub relay_draft_tokens : Bool
  pub queue : List (Option PendingRecv)
  pub req_idx_gen : List ℕ
  -- the events recorded so far on the side stream
  pub events : ℕ

unfoldable pub init : ℕ → ℕ → Bool → Bool → ℕ → PpHandler
init max_num_reqs num_speculative_steps relay_draft_tokens is_last_rank world_size = record {
  is_last_rank = is_last_rank;
  max_sample_len = num_speculative_steps + 1;
  relay_draft_tokens = relay_draft_tokens;
  queue = if is_last_rank then [] else replicate world_size none;
  req_idx_gen = replicate max_num_reqs 0;
  events = 0;
}

-- An `int32` counter, as its bit pattern.
abbrev pub bump_gen : ℕ → ℕ
bump_gen g = (g + 1) % 2 ^ 32

unfoldable pub on_req_idx_freed : PpHandler → ℕ → Option PpHandler
on_req_idx_freed h i = do
  g ← get_elem? h.req_idx_gen i
  some (record h { req_idx_gen = set h.req_idx_gen i (bump_gen g) })

-- `req_idx_gen_np[idx_mapping_np]`, kept beside the rows that it is taken for.
unfoldable pub snapshot : List ℕ → List Row → Option (List Entry)
snapshot gens [] = some []
snapshot gens (r ∷ rows) = do
  g ← get_elem? gens r.slot
  es ← snapshot gens rows
  some (record { slot = r.slot; need = need_sampled r; gen_at_receive = g } ∷ es)

-- `freed | ~need_sampled_mask`
unfoldable pub exclude_mask : List ℕ → List Entry → Option (List Bool)
exclude_mask gens [] = some []
exclude_mask gens (e ∷ es) = do
  g ← get_elem? gens e.slot
  mask ← exclude_mask gens es
  some ((not (g == e.gen_at_receive) || not e.need) ∷ mask)

-- `np.where(exclude_mask, -1, idx_mapping_np)`
unfoldable pub filter_mapping : List Bool → List Entry → List ℤ
filter_mapping (b ∷ bs) (e ∷ es) = (if b then minus_one else pos e.slot) ∷ filter_mapping bs es
filter_mapping _ _ = []

-- The returned dictionary, and the event that the main stream waits for before it.
pub record Outputs : Type 0 where
  pub wait_event : ℕ
  pub sampled_tokens : List (List ℤ)
  pub num_sampled : List ℕ
  pub num_rejected : List ℕ
  pub idx_mapping : List ℤ
  pub draft_tokens : Option (List (List ℤ))

unfoldable pub outputs_of : PendingRecv → List ℤ → Outputs
outputs_of p mapping = record {
  wait_event = p.event;
  sampled_tokens = p.sampled_tokens;
  num_sampled = p.num_sampled;
  num_rejected = p.num_rejected;
  idx_mapping = mapping;
  draft_tokens = p.draft_tokens;
}

-- The part of `get_prev_sampled_outputs` after the entry is taken off the queue.
unfoldable pub consume_slot : List ℕ → Option PendingRecv → Option (Option Outputs)
consume_slot gens none = some none
consume_slot gens (some p) = do
  mask ← exclude_mask gens p.entries
  some (
      if any mask
      then (if all mask then none else some (outputs_of p (filter_mapping mask p.entries)))
      else some (outputs_of p (map (λ e. pos e.slot) p.entries)))

-- The entry is taken off, and this step's place is reserved at the end.
unfoldable pub consume : PpHandler → List (Option PendingRecv) → Option (Option Outputs × PpHandler)
consume h [] = some (none, h)
consume h (s ∷ q) = do
  out ← consume_slot h.req_idx_gen s
  some (out, record h { queue = q ++ (none ∷ []) })

unfoldable pub get_prev_sampled_outputs : PpHandler → Option (Option Outputs × PpHandler)
unfolding consume
get_prev_sampled_outputs h = consume h h.queue
