-- ===== src/Relay/Matching.antt =====
-- The collectives of one step, seen from both ends: NCCL matches them by their order on the
-- communicator, so the ranks must post the same ones, of the same shapes.
use glm53flash_pp.Base.{
  ap₂, ℕ, ◌==◌, ◌+◌, ◌-◌, ◌≤◌, ◌<◌, ◌≡◌, refl, ap, List, [], ◌∷◌, ◌++◌, map, Option, none, some,
  Bool, true, false, ℤ, arith, if◌then◌else◌, length, All, ◌>>=◌, Bool-cases, inl, inr, any, sym,
  ◌∙◌,
}
use glm53flash_pp.Relay.{
  Row, Delivered, PpHandler, PendingRecv, need_sampled, Dtype, int32, int64, Command, wait_stream,
  broadcast_op, record_event, compute_need_sampled_mask,
}
use glm53flash_pp.Relay.Wire.{
  Received, Sampled, receive_masked, pending_recv, set_last, Sent, send, stack, receive,
  receive_commands, posted, broadcast, broadcast_draft,
}
use glm53flash_pp.Relay.Total.{IsValid, snapshot-total}
use glm53flash_pp.Relay.Padding.{pad_tokens-total}

-- `sample_tokens` on the last rank: the broadcast of the samples, then, if there is a speculator,
-- that of its draft matrix (its columns and rows).
unfoldable pub last_rank_step :
    PpHandler → Sampled → Option (ℕ × List (List ℤ)) → List Row → Option (List Command)
last_rank_step h s none rows = do sent ← broadcast h s rows; some sent.commands
last_rank_step h s (some (columns, draft)) rows = do
  sent ← broadcast h s rows
  more ← broadcast_draft h columns draft rows
  some (sent.commands ++ more)

-- The shapes that reach the communicator.
abbrev pub collectives : List Command → List (ℕ × ℕ × Dtype)
collectives [] = []
collectives (wait_stream ∷ cs) = collectives cs
collectives (broadcast_op r c t ∷ cs) = (r, c, t) ∷ collectives cs
collectives (record_event e ∷ cs) = collectives cs

-- There is a draft matrix exactly when the ranks relay drafts, and it has a row for each request
-- and a column for each speculative step.
abbrev pub DraftFits : PpHandler → List Row → Option (ℕ × List (List ℤ)) → Type 0
DraftFits h rows none = h.relay_draft_tokens ≡ false
DraftFits h rows (some (columns, draft)) =
    (h.relay_draft_tokens ≡ true) × (columns + 1 ≡ h.max_sample_len) × (length draft ≡ length rows)

-- The output of the sampler for a batch: a row and both counts for each request, no wider than a row
-- may be, in the types that the receivers post.
pub record SampledFits (n max_len : ℕ) (s : Sampled) : Type 0 where
  pub narrow : s.width ≤ max_len
  pub rows_sampled : length s.tokens ≡ n
  pub counts : length s.num_sampled ≡ n
  pub rejections : length s.num_rejected ≡ n
  pub tokens_int64 : s.token_dtype ≡ int64
  pub counts_int32 : (s.sampled_dtype ≡ int32) × (s.rejected_dtype ≡ int32)

-- What both ends should post for a batch.
abbrev pub step_shapes : ℕ → Bool → List Row → List (ℕ × ℕ × Dtype)
step_shapes k relay rows =
    if any (map need_sampled rows)
    then (length rows, k, int64)
      ∷ (2, length rows, int32)
      ∷ (if relay then (length rows, k - 1, int64) ∷ [] else [])
    else []

collectives-append :
    (cs ds : List Command) → collectives (cs ++ ds) ≡ collectives cs ++ collectives ds
collectives-append [] ds = refl
collectives-append (wait_stream ∷ cs) ds = collectives-append cs ds
collectives-append (broadcast_op r c t ∷ cs) ds = ap (◌∷◌ (r, c, t)) (collectives-append cs ds)
collectives-append (record_event e ∷ cs) ds = collectives-append cs ds

set_last-total :
    (q : List (Option PendingRecv)) (x : Option PendingRecv)
    → 0 < length q
    → (q' : List (Option PendingRecv)) × (set_last q x ≡ some q')
unfolding set_last
set_last-total [] x h = absurd (omega arith)
set_last-total (y ∷ []) x h = (x ∷ [], refl)
set_last-total (y ∷ z ∷ q) x h =
    let (q', e) = set_last-total (z ∷ q) x (omega arith) in (y ∷ q', rw e)

receive-shapes :
    (h : PpHandler) (rows : List Row) (d : Delivered)
    → IsValid h
    → All (λ r. r.slot < length h.req_idx_gen) rows
    → (r : Received) × (receive h rows d ≡ some r)
      × (collectives r.commands ≡ step_shapes h.max_sample_len h.relay_draft_tokens rows)
unfolding receive receive_masked posted receive_commands compute_need_sampled_mask
receive-shapes h rows d v a = elim (Bool-cases (any (map need_sampled rows))) [
  | inl need ↦
      let (es, s, _) = snapshot-total h.req_idx_gen rows a in
      let (q, l) = set_last-total h.queue (some (pending_recv h es d)) v.nonempty in
      (posted h rows (map need_sampled rows) q, simp (v.first, need, s, l), ground arith)
  | inr skip ↦ (
    record { all_decode_next = false; commands = []; handler = h },
    simp (v.first, skip),
    ground arith,
  )
]

broadcast-shapes :
    (h : PpHandler) (s : Sampled) (rows : List Row)
    → h.is_last_rank ≡ true
    → SampledFits (length rows) h.max_sample_len s
    → (sent : Sent) × (broadcast h s rows ≡ some sent)
      × (collectives sent.commands ≡ step_shapes h.max_sample_len false rows)
unfolding broadcast send stack compute_need_sampled_mask
broadcast-shapes h s rows last fit = elim (Bool-cases (any (map need_sampled rows))) [
  | inl need ↦
      let (tokens, p, k) = pad_tokens-total h.max_sample_len s fit.narrow in
      let same : (length s.num_sampled == length s.num_rejected) ≡ true =
        ground (arith, fit.counts, fit.rejections) in
      (
        record {
          commands =
              wait_stream
              ∷ broadcast_op (length tokens) h.max_sample_len int64
              ∷ broadcast_op 2 (length s.num_sampled) int32
              ∷ [];
          tokens = tokens;
        },
        simp (last, need, fit.tokens_int64, p, same, fit.counts_int32.0, fit.counts_int32.1),
        ground (arith, fit.rows_sampled, fit.counts),
      )
  | inr skip ↦ (record { commands = []; tokens = [] }, simp (last, skip), ground arith)
]

draft-shapes :
    (h : PpHandler) (columns : ℕ) (draft : List (List ℤ)) (rows : List Row) (pre : List Command)
    → h.is_last_rank ≡ true
    → DraftFits h rows (some (columns, draft))
    → collectives pre ≡ step_shapes h.max_sample_len false rows
    → (more : List Command) × (broadcast_draft h columns draft rows ≡ some more)
      × (collectives (pre ++ more) ≡ step_shapes h.max_sample_len true rows)
unfolding broadcast_draft compute_need_sampled_mask
draft-shapes h columns draft rows pre last (relay, c, n) e =
    elim (Bool-cases (any (map need_sampled rows))) [
      | inl need ↦
          let more : List Command = wait_stream ∷ broadcast_op (length draft) columns int64 ∷ [] in
          (more, simp (last, relay, need), ground (arith, collectives-append pre more))
      | inr skip ↦ ([], simp (last, relay, skip), ground (arith, collectives-append pre []))
    ]

last-shapes :
    (h : PpHandler) (s : Sampled) (draft : Option (ℕ × List (List ℤ))) (rows : List Row)
    → h.is_last_rank ≡ true
    → SampledFits (length rows) h.max_sample_len s
    → DraftFits h rows draft
    → (cs : List Command) × (last_rank_step h s draft rows ≡ some cs)
      × (collectives cs ≡ step_shapes h.max_sample_len h.relay_draft_tokens rows)
unfolding last_rank_step
last-shapes h s none rows last fit relay =
    let (sent, b, c) = broadcast-shapes h s rows last fit in
    (sent.commands, rw b, c ∙ ap (λ k. step_shapes h.max_sample_len k rows) (sym relay))
last-shapes h s (some (columns, draft)) rows last fit fits =
    let (sent, b, c) = broadcast-shapes h s rows last fit in
    let (more, b', c') = draft-shapes h columns draft rows sent.commands last fits c in
    (
      sent.commands ++ more,
      rw (b, b'),
      c' ∙ ap (λ k. step_shapes h.max_sample_len k rows) (sym fits.0),
    )

-- The last rank and a receiving rank that agree on the configuration post the same collectives
-- for every batch, in the same order and of the same shapes and types, and neither raises: with a
-- needed row both post the samples, the counts and, if drafts are relayed, the drafts; else nothing.
-- The sampler's output and the drafts have a row for each request, the output has both counts for
-- each, and its types are those that `broadcast` asserts and the receivers post.
pub collectives-match :
    (last h : PpHandler) (s : Sampled) (draft : Option (ℕ × List (List ℤ))) (rows : List Row)
    (d : Delivered)
    → last.is_last_rank ≡ true
    → IsValid h
    → All (λ r. r.slot < length h.req_idx_gen) rows
    → (last.max_sample_len ≡ h.max_sample_len) × (last.relay_draft_tokens ≡ h.relay_draft_tokens)
    → SampledFits (length rows) last.max_sample_len s
    → DraftFits last rows draft
    → (cs : List Command) × (r : Received) × (last_rank_step last s draft rows ≡ some cs)
      × (receive h rows d ≡ some r)
      × (collectives cs ≡ collectives r.commands)
collectives-match last h s draft rows d a v w same fits dr =
    let (cs, b, c) = last-shapes last s draft rows a fits dr in
    let (r, b', c') = receive-shapes h rows d v w in
    (cs, r, b, b', c ∙ ap₂ (λ k l. step_shapes k l rows) same.0 same.1 ∙ sym c')
