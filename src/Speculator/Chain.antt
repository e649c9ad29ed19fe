-- ===== src/Speculator/Chain.antt =====
-- vllm/v1/worker/gpu/spec_decode/autoregressive/speculator.py: the drafts of one request as a chain,
-- each sampled from a forward pass on the one before it.
use glm53flash_pp.Base.{
  ℕ, suc, ◌+◌, ◌-◌, ◌*◌, min, ◌≤◌, ◌<◌, ◌≡◌, ap, sym, ◌∙◌, inl, inr, refl, arith, ◌==◌,
  if◌then◌else◌, Bool-cases, true, false, Bool, Option, none, List,
}
use glm53flash_pp.Speculator.{
  Tensor, Target, Buffers, Config, query_len, prepare_decode_inputs, prepare_prefill_inputs,
}
use glm53flash_pp.Speculator.Queries.{IsBatch}
use glm53flash_pp.Speculator.Prefill.{stop}
use glm53flash_pp.Speculator.Start.{
  decode_prepared, decode_hidden, prefill_position, prefill_hidden,
}
use glm53flash_pp.Speculator.Loop.{
  Model, Run, multi_step_decode, fused_multi_step_decode, prefill, propose, use_fused,
}
use glm53flash_pp.Speculator.Fused.{UpdatesInPlace, fused-multi_step_decode}
use glm53flash_pp.Speculator.Drafts.{IsDraft, IsFed, IsReady, trace, next-IsFed, multi-IsDraft}

module _ {K M S : Type 0} (model : Model K M S) (c : Config) (t : Target) where
  abbrev len_left : ℕ → ℕ
  len_left r = t.seq_lens r - t.num_rejected r

  -- The drafts of request `r` after the first, over the states before the steps: the first step gets
  -- the hidden states of the last query that was not rejected from the prefill pass, and each later
  -- step those that the pass before it gave, with the cache that it left.
  pub record IsChain (prefilled : K × Tensor × Tensor) (states : ℕ → Run K) (final : Buffers)
      (r : ℕ) : Type 0 where
    pub cache : (states 0).cache ≡ prefilled.0
    pub hidden :
        (k : ℕ)
        → k < c.hidden_size
        → (states 0).buffers.hidden_states (r * c.next_hidden_states_stride + k)
          ≡ prefilled.2 ((stop t r - 1) * c.hidden_states_stride + k)
    pub feeds :
        (j : ℕ)
        → suc (suc j) < c.num_speculative_steps
        → IsFed model c t.num_reqs (states j) (states (suc j)) r j
    pub drafts :
        (j : ℕ)
        → suc j < c.num_speculative_steps
        → IsDraft model c t.num_reqs final
            (states j)
            (t.positions (stop t r - 1))
            (t.seq_lens r - t.num_rejected r)
            r
            j

  start-IsReady :
      (advances : c.advance_draft_positions ≡ true)
      (fits : c.num_speculative_steps ≤ c.draft_tokens_stride) (x : Run K) (r p : ℕ)
      → 0 < c.block_size
      → r < t.num_reqs
      → x.buffers.positions r ≡ p
      → IsReady model c t.num_reqs advances fits p
          (len_left r)
          r
          0
          (prepare_decode_inputs c t x.buffers)
  start-IsReady advances fits x r p block h e =
      let (drafts, input, at, len) = decode_prepared c t advances x.buffers r block h in
      let cell : r * c.draft_tokens_stride ≡ r * c.draft_tokens_stride + 0 = omega arith in
      record {
        input =
            input
            ∙ ap x.buffers.draft_tokens cell
            ∙ sym (ap (λ out. out (r * c.draft_tokens_stride + 0)) drafts);
        position = at ∙ ap (λ y. min (y + 1) (c.max_model_len - 1)) e;
        seq_len = len;
      }

  loops-IsDraft :
      (advances : c.advance_draft_positions ≡ true)
      (fits : c.num_speculative_steps ≤ c.draft_tokens_stride) (supported : List Bool) (r j : ℕ)
      → (use_fused c supported ≡ true → UpdatesInPlace model c t.num_reqs)
      → r < t.num_reqs
      → suc j < c.num_speculative_steps
      → (p : ℕ) (x : Run K) → IsReady model c t.num_reqs advances fits p (len_left r) r 0 x.buffers
      → IsDraft model c t.num_reqs
          (if use_fused c supported
            then fused_multi_step_decode model c t.num_reqs false x
            else multi_step_decode model c t.num_reqs false x).buffers
          (trace model c t.num_reqs advances fits x j)
          p
          (len_left r)
          r
          j
  unfolding multi_step_decode
  loops-IsDraft advances fits supported r j laws h i p x ready =
      let chain =
        multi-IsDraft model c t.num_reqs advances fits (c.num_speculative_steps - 1) p (len_left r)
          r 0 j none none x x refl h (omega arith) (omega arith) i ready in
      elim (Bool-cases (use_fused c supported)) [
        | inr e ↦ rw e chain
        | inl e ↦
            rw (e, fused-multi_step_decode model c t.num_reqs false x (omega arith) (λ _. laws e))
              chain
      ]

  several :
      (x y : Run K) {b : Run K} {p l r j : ℕ}
      → (c.num_speculative_steps == 1) ≡ false
      → IsDraft model c t.num_reqs y.buffers b p l r j
      → IsDraft model c t.num_reqs (if c.num_speculative_steps == 1 then x else y).buffers b p l r j
  several x y e d = rw e d

  last_query :
      (r : ℕ) → IsBatch t → r < t.num_reqs → t.query_start_loc r + query_len t r - 1 ≡ stop t r - 1
  last_query r ok h = omega (arith, ok.accepts r h)

  -- The proposed drafts of each request form a chain: each one after the first is sampled from a forward
  -- pass of the draft model on the one before it, with the slots and metadata of that step, with the
  -- cache and the hidden states that the pass before it gave; before the first of these passes that is
  -- the prefill pass, at the last query that was not rejected. Draft k + 1 stands k + 1 places behind
  -- that query, and sees as many keys more, both cut off at the model's limit. This holds where the
  -- attention metadata are rebuilt, and where the fused loop runs on the condition that updating them
  -- in place gives what a rebuild gives (`UpdatesInPlace`); positions advance, attention is not skipped,
  -- and the rows of the draft and hidden state tensors are wide enough.
  pub propose-IsChain :
      (supported : List Bool) (m : Option M) (s : Option S) (x : Run K)
      → IsBatch t
      → (use_fused c supported ≡ true → UpdatesInPlace model c t.num_reqs)
      → 0 < c.block_size
      → c.advance_draft_positions ≡ true
      → c.num_speculative_steps ≤ c.draft_tokens_stride
      → c.hidden_size ≤ c.next_hidden_states_stride
      → (states : ℕ → Run K) × ((r : ℕ)
          → r < t.num_reqs
          → IsChain
              (model.run_model x.cache m s (prepare_prefill_inputs t x.buffers))
              states
              (propose model c t.num_reqs t supported false m s x).buffers
              r)
  unfolding propose prefill
  propose-IsChain supported m s x ok laws block advances fits room =
      let x₁ =
        prefill model c t.num_reqs m s
          (record x { buffers = prepare_prefill_inputs t x.buffers }) in
      let x₂ : Run K = record x₁ { buffers = prepare_decode_inputs c t x₁.buffers } in
      (
        trace model c t.num_reqs advances fits x₂,
        (λ r h. record {
          cache = refl;
          hidden = λ k l.
              ap (λ out. out (r * c.next_hidden_states_stride + k)) (decode_hidden c t x₁.buffers)
              ∙ prefill_hidden model c t x.buffers m s x r k ok h room l
              ∙ ap
                  (λ q.
                    (model.run_model x.cache m s (prepare_prefill_inputs t x.buffers)).2
                      (q * c.hidden_states_stride + k))
                  (last_query r ok h);
          feeds = λ j i. next-IsFed model c t.num_reqs advances fits r j _ block room h i;
          drafts = λ j i. several x₁ _ (ground arith) (
              loops-IsDraft advances fits supported r j laws h i _ x₂ (
                start-IsReady advances fits x₁ r _ block h (
                  prefill_position model c t x.buffers m s x r ok h
                  ∙ ap t.positions (last_query r ok h))));
        }),
      )
