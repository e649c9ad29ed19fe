-- ===== src/Speculator/Start.antt =====
-- vllm/v1/worker/gpu/spec_decode/autoregressive/speculator.py: what the draft loop starts from,
-- after `prepare_prefill_inputs`, `_prefill` and `prepare_decode_inputs`.
use glm53flash_pp.Base.{
  ℕ, zero, suc, ◌+◌, ◌-◌, ◌*◌, ◌/◌, ◌%◌, min, ◌≤◌, ◌<◌, ◌≡◌, ap, sym, ◌∙◌, inl, refl, arith, lt→ltb,
  ltb, ◌==◌, ◌&&◌, if◌then◌else◌, true, Bool, Option,
}
use glm53flash_pp.Speculator.{
  Target, Buffers, Config, launch, decode_program, pad_decode, prepare_decode_inputs,
  prepare_prefill_inputs, query_len,
}
use glm53flash_pp.Speculator.Lanes.{range_outside}
use glm53flash_pp.Speculator.Queries.{IsBatch, query_prepared}
use glm53flash_pp.Speculator.Loop.{Model, Run, prefill}

new_place :
    (b : Bool) (p n v v' d o : ℕ)
    → (p ≡ n → v ≡ v')
    → d ≡ (if b && ltb p n then v else o)
    → (if b && (p == n) then v' else d) ≡ (if b && ltb p (suc n) then v else o)
new_place b p n v v' d o h e = ground arith

unwritten : (n v d o : ℕ) → d ≡ (if true && ltb n n then v else o) → d ≡ o
unwritten n v d o e = ground arith

written : (n p v d o : ℕ) → p < n → d ≡ (if true && ltb p n then v else o) → d ≡ v
written n p v d o h e = ground arith

module _ (c : Config) (t : Target) where
  abbrev launched : ℕ → Buffers → Buffers
  launched n b = launch (decode_program c t) n b

  decode_drafts : (n : ℕ) (b : Buffers) → (launched n b).draft_tokens ≡ b.draft_tokens
  unfolding launch decode_program
  decode_drafts zero b = refl
  decode_drafts (suc n) b = decode_drafts n b

  launched_hidden : (n : ℕ) (b : Buffers) → (launched n b).hidden_states ≡ b.hidden_states
  unfolding launch decode_program
  launched_hidden zero b = refl
  launched_hidden (suc n) b = launched_hidden n b

  -- the decode inputs leave the hidden states
  pub decode_hidden : (b : Buffers) → (prepare_decode_inputs c t b).hidden_states ≡ b.hidden_states
  unfolding prepare_decode_inputs pad_decode
  decode_hidden b = launched_hidden t.num_reqs b

  decode_inputs :
      (n : ℕ) (b : Buffers) (p : ℕ)
      → (launched n b).input_ids p
        ≡ (if true && ltb p n then b.draft_tokens (p * c.draft_tokens_stride) else b.input_ids p)
  unfolding launch decode_program
  decode_inputs zero b p = ground arith
  decode_inputs (suc n) b p =
      new_place true p n (b.draft_tokens (p * c.draft_tokens_stride)) _ _ _
        (λ e.
          ap (λ x. b.draft_tokens (x * c.draft_tokens_stride)) e
          ∙ sym (ap (λ out. out (n * c.draft_tokens_stride)) (decode_drafts n b)))
        (decode_inputs n b p)

  abbrev first_len : ℕ → ℕ
  first_len r = min (t.seq_lens r - t.num_rejected r + 1) c.max_model_len

  module _ (advances : c.advance_draft_positions ≡ true) where
    decode_positions :
        (n : ℕ) (b : Buffers) (p : ℕ)
        → (launched n b).positions p ≡ (
            if true && ltb p n
            then min (b.positions p + 1) (c.max_model_len - 1)
            else b.positions p)
    unfolding launch decode_program
    decode_positions zero b p = ground arith
    decode_positions (suc n) b p = rw advances (
        new_place true p n (min (b.positions p + 1) (c.max_model_len - 1)) _ _ _
          (λ e.
            ap (λ x. min (x + 1) (c.max_model_len - 1))
              (ap b.positions e ∙ sym (unwritten n _ _ _ (decode_positions n b n))))
          (decode_positions n b p))

    decode_lens :
        (n : ℕ) (b : Buffers) (p : ℕ)
        → (launched n b).seq_lens p ≡ (if true && ltb p n then first_len p else b.seq_lens p)
    unfolding launch decode_program
    decode_lens zero b p = ground arith
    decode_lens (suc n) b p =
        rw advances
          (new_place true p n (first_len p) (first_len n) _ _ (ap first_len) (decode_lens n b p))

    -- The inputs of request `r` at the first step of the loop.
    pub decode_prepared :
        (b : Buffers) (r : ℕ)
        → 0 < c.block_size
        → r < t.num_reqs
        → let b' = prepare_decode_inputs c t b in
          (b'.draft_tokens ≡ b.draft_tokens)
          × (b'.input_ids r ≡ b.draft_tokens (r * c.draft_tokens_stride))
          × (b'.positions r ≡ min (b.positions r + 1) (c.max_model_len - 1))
          × (b'.seq_lens r ≡ first_len r)
    unfolding prepare_decode_inputs pad_decode
    decode_prepared b r k h = (
      decode_drafts t.num_reqs b,
      written t.num_reqs r _ _ _ h (decode_inputs t.num_reqs b r),
      written t.num_reqs r _ _ _ h (decode_positions t.num_reqs b r),
      range_outside c.block_size t.num_reqs (t.max_num_reqs - t.num_reqs) (λ x. 0)
            (launched t.num_reqs b).seq_lens r k (inl h)
          ∙ written t.num_reqs r _ _ _ h (decode_lens t.num_reqs b r),
    )

quotient : (q k t : ℕ) → t < k → (q * k + t) / k ≡ q
quotient q k t h = grind arith

residue : (q k t : ℕ) → t < k → (q * k + t) % k ≡ t
residue q k t h = grind arith

module _ {K M S : Type 0} (model : Model K M S) (c : Config) where
  -- `_prefill` moves the position of the last query of a request to the request's row.
  pub prefill_position :
      (t : Target) (b : Buffers) (m : Option M) (s : Option S) (x : Run K) (r : ℕ)
      → IsBatch t
      → r < t.num_reqs
      → (prefill model c t.num_reqs m s
            (record x { buffers = prepare_prefill_inputs t b })).buffers.positions
          r
        ≡ t.positions (t.query_start_loc r + query_len t r - 1)
  unfolding prefill
  prefill_position t b m s x r ok h =
      let start = t.query_start_loc r in
      let len = query_len t r in
      let left = ok.accepts r h in
      let (_, at, last, _, _) = query_prepared t ok b r (len - 1) h (omega arith) in
      let e : start + len - 1 ≡ start + (len - 1) = omega arith in
      rw (lt→ltb r t.num_reqs h)
        (ap (prepare_prefill_inputs t b).positions (last ∙ e) ∙ at ∙ ap t.positions (sym e))

  -- `_prefill` feeds the hidden states of that query back.
  pub prefill_hidden :
      (t : Target) (b : Buffers) (m : Option M) (s : Option S) (x : Run K) (r k : ℕ)
      → IsBatch t
      → r < t.num_reqs
      → c.hidden_size ≤ c.next_hidden_states_stride
      → k < c.hidden_size
      → (prefill model c t.num_reqs m s
            (record x { buffers = prepare_prefill_inputs t b })).buffers.hidden_states
          (r * c.next_hidden_states_stride + k)
        ≡ (model.run_model x.cache m s (prepare_prefill_inputs t b)).2
            ((t.query_start_loc r + query_len t r - 1) * c.hidden_states_stride + k)
  unfolding prefill
  prefill_hidden t b m s x r k ok h fits l =
      let start = t.query_start_loc r in
      let len = query_len t r in
      let left = ok.accepts r h in
      let (_, _, last, _, _) = query_prepared t ok b r (len - 1) h (omega arith) in
      let w = c.next_hidden_states_stride in
      let inside : k < w = omega arith in
      rw
        (
          quotient r w k inside,
          residue r w k inside,
          lt→ltb r t.num_reqs h,
          lt→ltb k c.hidden_size l,
        )
        (ap
          (λ q.
            (model.run_model x.cache m s (prepare_prefill_inputs t b)).2
              (q * c.hidden_states_stride + k))
          last)
