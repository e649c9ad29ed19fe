-- ===== src/Speculator/Prefill.antt =====
-- vllm/v1/worker/gpu/spec_decode/autoregressive/speculator.py: `prepare_prefill_inputs`.
use glm53flash_pp.Base.{
  ℕ, suc, ◌+◌, ◌-◌, ◌≤◌, ◌<◌, ◌≡◌, ap, ap₂, sym, subst, ◌∙◌, refl, arith, ltb, ◌==◌, if◌then◌else◌,
  true,
}
use glm53flash_pp.Speculator.{
  Target, Buffers, query_len, next_token, prefill_request, pad_prefill, prefill_program, launch,
  prepare_prefill_inputs,
}
use glm53flash_pp.Speculator.Lanes.{range_inside}
use glm53flash_pp.Speculator.Queries.{IsBatch, QueryRow, query_prepared}

-- Where the queries of request `r` that were not rejected end.
abbrev pub stop : Target → ℕ → ℕ
stop t r = t.query_start_loc (r + 1) - t.num_rejected r

-- The draft inputs at query `i` of the batch, which belongs to request `r`, and those of the request.
abbrev pub HasQuery : Target → ℕ → ℕ → Buffers → Type 0
HasQuery t r i b =
    (b.input_ids i ≡ (
      if ltb (i + 1) (stop t r)
      then t.input_ids (i + 1)
      else if t.num_sampled r == 0
      then t.next_prefill_tokens (t.idx_mapping r)
      else t.last_sampled (t.idx_mapping r)))
    × (b.positions i ≡ t.positions i)
    × (b.last_token_indices r + 1 ≡ stop t r)
    × (b.query_start_loc r ≡ t.query_start_loc r)
    × (b.seq_lens r ≡ t.seq_lens r)

-- An empty row `p` behind the requests.
abbrev pub IsPadded : Target → ℕ → Buffers → Type 0
IsPadded t p b =
    (b.query_start_loc p ≡ t.query_start_loc t.num_reqs)
    × (b.query_start_loc (p + 1) ≡ t.query_start_loc t.num_reqs)
    × (b.seq_lens p ≡ 0)
    × (b.last_token_indices p ≡ 0)
    × (b.current_draft_step ≡ 0)

module _ (t : Target) (ok : IsBatch t) where
  pad_prefill-IsPadded :
      (b : Buffers) (p : ℕ) → t.num_reqs ≤ p → p < t.max_num_reqs → IsPadded t p (pad_prefill t b)
  unfolding pad_prefill
  pad_prefill-IsPadded b p h q = (
    range_inside t.block_size t.num_reqs (t.max_num_reqs + 1 - t.num_reqs)
        (λ x. t.query_start_loc t.num_reqs) b.query_start_loc p ok.block h (omega arith),
    range_inside t.block_size t.num_reqs (t.max_num_reqs + 1 - t.num_reqs)
        (λ x. t.query_start_loc t.num_reqs) b.query_start_loc (p + 1) ok.block (omega arith)
        (omega arith),
    range_inside t.block_size t.num_reqs (t.max_num_reqs - t.num_reqs) (λ x. 0) b.seq_lens p
        ok.block h (omega arith),
    range_inside t.block_size t.num_reqs (t.max_num_reqs - t.num_reqs) (λ x. 0) b.last_token_indices
        p ok.block h (omega arith),
    refl,
  )

  program_pads :
      (b : Buffers) (p : ℕ)
      → t.num_reqs ≤ p
      → p < t.max_num_reqs
      → IsPadded t p (prefill_program t b (t.num_reqs - 1))
  unfolding prefill_program
  program_pads b p h q =
      let e : ((t.num_reqs - 1) == (t.num_reqs - 1)) ≡ true = ground arith in
      rw e (pad_prefill-IsPadded (prefill_request t b (t.num_reqs - 1)) p h q)

  padding_prepared :
      (b : Buffers) (p : ℕ)
      → 0 < t.num_reqs
      → t.num_reqs ≤ p
      → p < t.max_num_reqs
      → IsPadded t p (prepare_prefill_inputs t b)
  unfolding prepare_prefill_inputs
  padding_prepared b p h l q =
      let n = t.num_reqs - 1 in
      let e : t.num_reqs ≡ suc n = omega arith in
      subst (λ k. IsPadded t p (launch (prefill_program t) k b)) (sym e)
        (program_pads (launch (prefill_program t) n b) p l q)

  program_ends :
      (b : Buffers)
      → let c = prefill_program t b (t.num_reqs - 1) in
        (c.query_start_loc t.num_reqs ≡ t.query_start_loc t.num_reqs) × (c.current_draft_step ≡ 0)
  unfolding prefill_program pad_prefill
  program_ends b =
      let e : ((t.num_reqs - 1) == (t.num_reqs - 1)) ≡ true = ground arith in
      let room = ok.fits in
      rw e (
        range_inside t.block_size t.num_reqs (t.max_num_reqs + 1 - t.num_reqs)
            (λ x. t.query_start_loc t.num_reqs)
            (prefill_request t b (t.num_reqs - 1)).query_start_loc t.num_reqs ok.block (omega arith)
            (omega arith),
        refl,
      )

  ends_prepared :
      (b : Buffers)
      → 0 < t.num_reqs
      → let c = prepare_prefill_inputs t b in
        (c.query_start_loc t.num_reqs ≡ t.query_start_loc t.num_reqs) × (c.current_draft_step ≡ 0)
  unfolding prepare_prefill_inputs
  ends_prepared b h =
      let n = t.num_reqs - 1 in
      let e : t.num_reqs ≡ suc n = omega arith in
      subst
        (λ k.
          ((launch (prefill_program t) k b).query_start_loc t.num_reqs
            ≡ t.query_start_loc t.num_reqs)
          × ((launch (prefill_program t) k b).current_draft_step ≡ 0))
        (sym e) (program_ends (launch (prefill_program t) n b))

  token_of :
      (r : ℕ)
      → next_token t r ≡ (
          if t.num_sampled r == 0
          then t.next_prefill_tokens (t.idx_mapping r)
          else t.last_sampled (t.idx_mapping r))
  token_of r = ground arith

  row-HasQuery :
      (r i : ℕ) (b : Buffers)
      → r < t.num_reqs
      → t.query_start_loc r ≤ i
      → i < stop t r
      → QueryRow t r (i - t.query_start_loc r) b
      → HasQuery t r i b
  row-HasQuery r i b h a l (input, at, last, start, len) =
      let e : t.query_start_loc r + (i - t.query_start_loc r) ≡ i = omega arith in
      let enough = ok.accepts r h in
      let more : ltb (i - t.query_start_loc r + 1) (query_len t r) ≡ ltb (i + 1) (stop t r) =
        ground arith in
      (
        ap b.input_ids (sym e)
            ∙ input
            ∙ ap₂ (λ m x. if m then t.input_ids (x + 1) else next_token t r) more e
            ∙ ap (λ x. if ltb (i + 1) (stop t r) then t.input_ids (i + 1) else x) (token_of r),
        ap b.positions (sym e) ∙ at ∙ ap t.positions e,
        ap (λ x. x + 1) last ∙ omega arith,
        start,
        len,
      )

  -- The draft model reads, for each query of a request that was not rejected, the target model's
  -- next token, and at the last such query the token that was sampled, or the next prompt token if
  -- none was; the positions are the target's, and the last such query is the one to sample from. The
  -- rows that pad the batch are empty and start where the last query ends, and the draft step is 0.
  -- The queries of the batch follow one another, and each request has one that was not rejected.
  pub prepare_prefill_inputs-HasQuery :
      (b : Buffers) (r i : ℕ)
      → r < t.num_reqs
      → t.query_start_loc r ≤ i
      → i < stop t r
      → HasQuery t r i (prepare_prefill_inputs t b)
        × ((p : ℕ)
            → t.num_reqs ≤ p
            → p < t.max_num_reqs
            → IsPadded t p (prepare_prefill_inputs t b))
        × ((prepare_prefill_inputs t b).query_start_loc t.num_reqs ≡ t.query_start_loc t.num_reqs)
        × ((prepare_prefill_inputs t b).current_draft_step ≡ 0)
  prepare_prefill_inputs-HasQuery b r i h a l = (
    row-HasQuery r i (prepare_prefill_inputs t b) h a l
        (query_prepared t ok b r (i - t.query_start_loc r) h (omega arith)),
    (λ p q m. padding_prepared b p (omega arith) q m),
    (ends_prepared b (omega arith)).0,
    (ends_prepared b (omega arith)).1,
  )
