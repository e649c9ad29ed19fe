-- ===== src/Relay/Wire.antt =====
-- pp_utils.py, the transmitting half: `receive`, `broadcast` and `broadcast_draft`, with the
-- commands that each posts. `none` is a raise; what was posted before it is not kept.
use glm53flash_pp.Base.{
  ℕ, ◌+◌, ◌-◌, List, [], ◌∷◌, ◌++◌, map, Option, none, some, Bool, true, false, ℤ, minus_one, ltb,
  ◌==◌, if◌then◌else◌, length, replicate, all, ◌>>=◌,
}
use glm53flash_pp.Relay.{
  Row, Dtype, int64, int32, Command, wait_stream, broadcast_op, record_event, Entry, Delivered,
  PendingRecv, PpHandler, compute_need_sampled_mask, snapshot,
}

-- `queue[-1] = slot`; an empty deque raises.
unfoldable pub set_last :
    List (Option PendingRecv) → Option PendingRecv → Option (List (Option PendingRecv))
set_last [] s = none
set_last (x ∷ []) s = some (s ∷ [])
set_last (x ∷ y ∷ q) s = do q' ← set_last (y ∷ q) s; some (x ∷ q')

unfoldable pub receive_commands : PpHandler → ℕ → List Command
receive_commands h num_reqs =
    wait_stream
    ∷ broadcast_op num_reqs h.max_sample_len int64
    ∷ broadcast_op 2 num_reqs int32
    ∷ ((if h.relay_draft_tokens
          then broadcast_op num_reqs (h.max_sample_len - 1) int64 ∷ []
          else [])
        ++ (record_event h.events ∷ []))

unfoldable pub pending_recv : PpHandler → List Entry → Delivered → PendingRecv
pending_recv h entries d = record {
  event = h.events;
  sampled_tokens = d.sampled_tokens;
  num_sampled = d.num_sampled;
  num_rejected = d.num_rejected;
  entries = entries;
  draft_tokens = if h.relay_draft_tokens then some d.draft_tokens else none;
}

-- What `receive` returns, the commands that it posts, and the handler after it.
pub record Received : Type 0 where
  pub all_decode_next : Bool
  pub commands : List Command
  pub handler : PpHandler

-- What a posted receive leaves behind.
unfoldable pub posted : PpHandler → List Row → List Bool → List (Option PendingRecv) → Received
posted h rows mask q = record {
  all_decode_next = all mask;
  commands = receive_commands h (length rows);
  handler = record h { queue = q; events = h.events + 1 };
}

unfoldable pub receive_masked : PpHandler → List Row → Delivered → List Bool → Option Received
receive_masked h rows d mask = do
  entries ← snapshot h.req_idx_gen rows
  q ← set_last h.queue (some (pending_recv h entries d))
  some (posted h rows mask q)

unfoldable pub receive : PpHandler → List Row → Delivered → Option Received
receive h rows d = if h.is_last_rank then none else elim (compute_need_sampled_mask rows) [
  | none ↦ some (record { all_decode_next = false; commands = []; handler = h })
  | some mask ↦ receive_masked h rows d mask
]

-- The sampler's output of one step: `width` columns, and the counts of each row.
pub record Sampled : Type 0 where
  pub width : ℕ
  pub tokens : List (List ℤ)
  pub num_sampled : List ℕ
  pub num_rejected : List ℕ
  pub token_dtype : Dtype
  pub sampled_dtype : Dtype
  pub rejected_dtype : Dtype

abbrev pub is_int64 : Dtype → Bool
is_int64 int64 = true
is_int64 int32 = false

-- `torch.stack` of the two counts: it raises if their lengths differ, and promotes the type.
abbrev pub stack_dtype : Dtype → Dtype → Dtype
stack_dtype int32 int32 = int32
stack_dtype int32 int64 = int64
stack_dtype int64 t = int64

unfoldable pub stack : Sampled → Option Command
stack s =
    if length s.num_sampled == length s.num_rejected
    then some (broadcast_op 2 (length s.num_sampled) (stack_dtype s.sampled_dtype s.rejected_dtype))
    else none

-- `new_full(…, -1)` with the first `width` columns written.
unfoldable pub pad_row : ℕ → ℕ → List ℤ → List ℤ
pad_row width max_len row = row ++ replicate (max_len - width) minus_one

unfoldable pub pad_tokens : ℕ → Sampled → Option (List (List ℤ))
pad_tokens max_len s =
    if s.width == max_len
    then some s.tokens
    else if ltb s.width max_len
    then some (map (pad_row s.width max_len) s.tokens)
    else none

-- The commands that a sender posts if it does not raise, and the token matrix that it puts on the wire.
pub record Sent : Type 0 where
  pub commands : List Command
  pub tokens : List (List ℤ)

-- what `broadcast` does once it has something to send
unfoldable pub send : Sampled → ℕ → Option Sent
unfolding stack
send s max_len = do
  tokens ← pad_tokens max_len s
  combined ← stack s
  some (record {
    commands = wait_stream ∷ broadcast_op (length tokens) max_len s.token_dtype ∷ combined ∷ [];
    tokens = tokens;
  })

unfoldable pub broadcast : PpHandler → Sampled → List Row → Option Sent
unfolding send
broadcast h s rows =
    if h.is_last_rank
    then elim (compute_need_sampled_mask rows) [
      | none ↦ some (record { commands = []; tokens = [] })
      | some mask ↦ if is_int64 s.token_dtype then send s h.max_sample_len else none
    ]
    else none

-- The draft matrix has `columns` columns.
unfoldable pub broadcast_draft : PpHandler → ℕ → List (List ℤ) → List Row → Option (List Command)
broadcast_draft h columns draft rows =
    if h.is_last_rank
    then if h.relay_draft_tokens
      then elim (compute_need_sampled_mask rows) [
        | none ↦ some []
        | some mask ↦ some (wait_stream ∷ broadcast_op (length draft) columns int64 ∷ [])
      ]
      else some []
    else none
