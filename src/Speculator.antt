-- ===== src/Speculator.antt =====
-- vllm/v1/worker/gpu/spec_decode/autoregressive/speculator.py: the kernels that prepare the inputs
-- of the draft model, and the loops that generate the drafts. A tensor is a function from offsets to
-- values; a hidden state is the bit patterns of its entries. The programs of a launch touch no
-- common offset, and run in the order of their ids.
pub mod Lanes
pub mod Queries
pub mod Prefill
pub mod Decode
pub mod Loop
pub mod Start
pub mod Drafts
pub mod Chain
pub mod Fused
pub mod Tests
use glm53flash_pp.Base.{
  ℕ, zero, suc, ◌+◌, ◌-◌, ◌*◌, min, Option, none, some, Bool, true, false, not, ◌&&◌, ◌||◌, ltb,
  leb, ◌==◌, if◌then◌else◌, if_none,
}
use glm53flash_pp.Indexer.Metadata.{store_loop}

abbrev pub Tensor : Type 0
Tensor = ℕ → ℕ

abbrev pub store : ℕ → ℕ → Tensor → Tensor
store i v out p = if p == i then v else out p

-- `for i in range(0, len, BLOCK_SIZE)`: the lanes from `start` on that are below `start + len`; the
-- tensor starts at `origin`.
unfoldable pub store_range : ℕ → ℕ → ℕ → ℕ → (ℕ → ℕ) → Tensor → Tensor
unfolding store_loop
store_range block origin start len value out =
    store_loop len block origin (start + len) start 0 len value out

-- What the target model leaves for the prefill of the draft model, and the constants of the launch.
pub record Target : Type 0 where
  pub input_ids : Tensor
  pub positions : Tensor
  pub idx_mapping : Tensor
  pub last_sampled : Tensor
  pub next_prefill_tokens : Tensor
  pub num_sampled : Tensor
  pub num_rejected : Tensor
  pub query_start_loc : Tensor
  pub seq_lens : Tensor
  pub num_reqs : ℕ
  pub max_num_reqs : ℕ
  pub block_size : ℕ

-- `InputBuffers`, and the tensors of the speculator itself.
pub record Buffers : Type 0 where
  pub input_ids : Tensor
  pub positions : Tensor
  pub query_start_loc : Tensor
  pub seq_lens : Tensor
  pub last_token_indices : Tensor
  pub hidden_states : Tensor
  pub draft_tokens : Tensor
  pub current_draft_step : ℕ

-- the queries that were not rejected; at least one is left
abbrev pub query_len : Target → ℕ → ℕ
query_len t r = t.query_start_loc (r + 1) - t.query_start_loc r - t.num_rejected r

abbrev pub next_token : Target → ℕ → ℕ
next_token t r =
    if ltb 0 (t.num_sampled r)
    then t.last_sampled (t.idx_mapping r)
    else t.next_prefill_tokens (t.idx_mapping r)

-- what the last program does besides
unfoldable pub pad_prefill : Target → Buffers → Buffers
unfolding store_range
pad_prefill t b = record b {
  current_draft_step = 0;
  query_start_loc =
      store_range t.block_size 0 t.num_reqs (t.max_num_reqs + 1 - t.num_reqs)
        (λ p. t.query_start_loc t.num_reqs) b.query_start_loc;
  seq_lens =
      store_range t.block_size 0 t.num_reqs (t.max_num_reqs - t.num_reqs) (λ p. 0) b.seq_lens;
  last_token_indices =
      store_range t.block_size 0 t.num_reqs (t.max_num_reqs - t.num_reqs) (λ p. 0)
        b.last_token_indices;
}

-- The stores of `_prepare_prefill_inputs_kernel` before the padding. Its first loop runs over the
-- queries from 1 on and stores each at the place before; here it is the tensor from offset 1 on.
unfoldable pub prefill_request : Target → Buffers → ℕ → Buffers
unfolding store_range
prefill_request t b r =
    let start = t.query_start_loc r in
    let len = query_len t r in
    record b {
      input_ids =
          store (start + len - 1) (next_token t r)
            (store_range t.block_size 1 (start + 1) (len - 1) t.input_ids b.input_ids);
      last_token_indices = store r (start + len - 1) b.last_token_indices;
      positions = store_range t.block_size 0 start len t.positions b.positions;
      query_start_loc = store r start b.query_start_loc;
      seq_lens = store r (t.seq_lens r) b.seq_lens;
    }

unfoldable pub prefill_program : Target → Buffers → ℕ → Buffers
unfolding prefill_request pad_prefill
prefill_program t b r =
    let b' = prefill_request t b r in if r == t.num_reqs - 1 then pad_prefill t b' else b'

-- The first `n` programs of a launch.
unfoldable pub launch : (Buffers → ℕ → Buffers) → ℕ → Buffers → Buffers
launch program zero b = b
launch program (suc n) b = program (launch program n b) n

unfoldable pub prepare_prefill_inputs : Target → Buffers → Buffers
unfolding launch prefill_program
prepare_prefill_inputs t b = launch (prefill_program t) t.num_reqs b

-- The constants of the decode steps.
pub record Config : Type 0 where
  pub draft_tokens_stride : ℕ
  pub hidden_states_stride : ℕ
  pub next_hidden_states_stride : ℕ
  pub hidden_size : ℕ
  pub max_model_len : ℕ
  pub num_speculative_steps : ℕ
  pub advance_draft_positions : Bool
  pub block_size : ℕ

-- The program of one request in `_prepare_decode_inputs_kernel`.
unfoldable pub decode_program : Config → Target → Buffers → ℕ → Buffers
decode_program c t b r =
    let seq_len = t.seq_lens r - t.num_rejected r in
    record b {
      input_ids = store r (b.draft_tokens (r * c.draft_tokens_stride)) b.input_ids;
      positions =
          if c.advance_draft_positions
          then store r (min (b.positions r + 1) (c.max_model_len - 1)) b.positions
          else b.positions;
      seq_lens =
          store r (if c.advance_draft_positions then min (seq_len + 1) c.max_model_len else seq_len)
            b.seq_lens;
    }

-- its last program
unfoldable pub pad_decode : Config → Target → Buffers → Buffers
unfolding store_range
pad_decode c t b = record b {
  query_start_loc =
      store_range c.block_size 0 0 (t.max_num_reqs + 1)
        (λ p. if ltb p t.num_reqs then p else t.num_reqs) b.query_start_loc;
  seq_lens =
      store_range c.block_size 0 t.num_reqs (t.max_num_reqs - t.num_reqs) (λ p. 0) b.seq_lens;
}

unfoldable pub prepare_decode_inputs : Config → Target → Buffers → Buffers
unfolding launch decode_program pad_decode
prepare_decode_inputs c t b = pad_decode c t (launch (decode_program c t) t.num_reqs b)

-- The program of one request in `_update_draft_inputs_kernel`, with the sampled tokens and the
-- hidden states of the forward pass.
unfoldable pub update_program : Config → Tensor → Tensor → Buffers → ℕ → Buffers
unfolding store_range
update_program c tokens hidden b r =
    let step = b.current_draft_step in
    let b' = record b {
      draft_tokens = store (r * c.draft_tokens_stride + step) (tokens r) b.draft_tokens;
    } in
    if leb (c.num_speculative_steps - 1) step then b' else record b' {
      input_ids = store r (tokens r) b.input_ids;
      hidden_states =
          store_range c.block_size 0 (r * c.next_hidden_states_stride) c.hidden_size
            (λ p. hidden (r * c.hidden_states_stride + (p - r * c.next_hidden_states_stride)))
            b.hidden_states;
      positions =
          if c.advance_draft_positions
          then store r (min (b.positions r + 1) (c.max_model_len - 1)) b.positions
          else b.positions;
      seq_lens =
          if c.advance_draft_positions
          then store r (min (b.seq_lens r + 1) c.max_model_len) b.seq_lens
          else b.seq_lens;
    }

unfoldable pub update_draft_inputs : Config → Tensor → Tensor → ℕ → Buffers → Buffers
unfolding launch update_program
update_draft_inputs c tokens hidden num_reqs b = launch (update_program c tokens hidden) num_reqs b
