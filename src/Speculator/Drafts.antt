-- ===== src/Speculator/Drafts.antt =====
-- vllm/v1/worker/gpu/spec_decode/autoregressive/speculator.py: one step of the draft loop and what it
-- hands to the next, for the drafts of one request.
use glm53flash_pp.Base.{
  ℕ, zero, suc, ◌+◌, ◌-◌, ◌*◌, min, ◌≤◌, ◌<◌, ◌≡◌, ap, sym, subst, ◌∙◌, refl, arith, ltb, leb, ◌==◌,
  ◌&&◌, true, false, Option, some, lt→ltb,
}
use native.Mathlib.Decide.{dec_lt}
use glm53flash_pp.Speculator.{Tensor, Buffers, Config}
use glm53flash_pp.Speculator.Decode.{
  update_hidden, update_drafts, update_inputs, update_positions, update_lens,
}
use glm53flash_pp.Speculator.Loop.{
  Model, Run, generate_draft, set_step, sampled, rebuilds, multi_step_from,
}
use glm53flash_pp.Speculator.Fused.{multi_done, multi_rebuilds, rebuilt}

module _ {K M S : Type 0} (model : Model K M S) (c : Config) (num_reqs : ℕ) where
  -- The forward pass of step `j + 1` on a state, with the slots and metadata that are built for it.
  abbrev pub pass : Run K → ℕ → K × Tensor × Tensor
  pass x j =
      model.run_model x.cache (some (model.build_draft_attn_metadata x.buffers (suc j)))
        (some (model.compute_slot_mappings x.buffers)) (set_step model c num_reqs (suc j) x).buffers

  -- Draft `j + 1` of request `r`: it is sampled from the forward pass on `before`, whose input is draft
  -- `j`, at the position and with the length that lie `j + 1` behind `p` and `l`, cut off at the model's
  -- limit.
  pub record IsDraft (final : Buffers) (before : Run K) (p l r j : ℕ) : Type 0 where
    pub draft :
        final.draft_tokens (r * c.draft_tokens_stride + suc j)
        ≡ sampled model c num_reqs
            (some (model.build_draft_attn_metadata before.buffers (suc j)))
            (some (model.compute_slot_mappings before.buffers))
            (set_step model c num_reqs (suc j) before)
            r
    pub input : before.buffers.input_ids r ≡ final.draft_tokens (r * c.draft_tokens_stride + j)
    pub position : before.buffers.positions r ≡ min (p + suc j) (c.max_model_len - 1)
    pub seq_len : before.buffers.seq_lens r ≡ min (l + suc j) c.max_model_len

  -- The state `after` has the cache that the pass on `before` left, and the hidden states that it gave
  -- for request `r`.
  pub record IsFed (before after : Run K) (r j : ℕ) : Type 0 where
    pub cache : after.cache ≡ (pass before j).0
    pub hidden :
        (k : ℕ)
        → k < c.hidden_size
        → after.buffers.hidden_states (r * c.next_hidden_states_stride + k)
          ≡ (pass before j).2 (r * c.hidden_states_stride + k)

  module _ (advances : c.advance_draft_positions ≡ true)
      (fits : c.num_speculative_steps ≤ c.draft_tokens_stride) where
    abbrev next : ℕ → Run K → Run K
    next step x = rebuilt model c num_reqs step x

    -- the states before the steps from 1 on
    abbrev pub trace : Run K → ℕ → Run K
    trace x zero = x
    trace x (suc i) = next (suc i) (trace x i)

    pub next-IsFed :
        (r j : ℕ) (x : Run K)
        → 0 < c.block_size
        → c.hidden_size ≤ c.next_hidden_states_stride
        → r < num_reqs
        → suc (suc j) < c.num_speculative_steps
        → IsFed x (next (suc j) x) r j
    unfolding generate_draft
    next-IsFed r j x block room h i = record {
      cache = refl;
      hidden = λ k l.
          update_hidden c _ _ num_reqs (set_step model c num_reqs (suc j) x).buffers r k block room
            l (ground arith) h;
    }

    one_step :
        (left step : ℕ) (m : Option M) (s : Option S) (x : Run K)
        → multi_step_from model c num_reqs false (suc left) step m s x
          ≡ multi_step_from model c num_reqs false left
              (suc step)
              (some (model.build_draft_attn_metadata x.buffers step))
              (some (model.compute_slot_mappings x.buffers))
              (next step x)
    unfolding rebuilds
    one_step left step m s x = multi_rebuilds model c num_reqs false left step m s x (ground arith)

    -- A step leaves the columns of the other steps.
    other_column :
        (step k r : ℕ) (x : Run K)
        → step < c.num_speculative_steps
        → k < step
        → (next step x).buffers.draft_tokens (r * c.draft_tokens_stride + k)
          ≡ x.buffers.draft_tokens (r * c.draft_tokens_stride + k)
    unfolding generate_draft
    other_column step k r x h l =
        let e : (k == step) ≡ false = ground arith in
        update_drafts c _ _ num_reqs (set_step model c num_reqs step x).buffers r k (omega arith)
          (omega arith)
        ∙ rw e refl

    kept :
        (left step k r : ℕ) (m : Option M) (s : Option S) (x : Run K)
        → step + left ≡ c.num_speculative_steps
        → k < step
        → (multi_step_from model c num_reqs false left step m s x).buffers.draft_tokens
            (r * c.draft_tokens_stride + k)
          ≡ x.buffers.draft_tokens (r * c.draft_tokens_stride + k)
    kept zero step k r m s x e h = rw (multi_done model c num_reqs false step m s x) refl
    kept (suc left) step k r m s x e h =
        ap (λ y. y.buffers.draft_tokens (r * c.draft_tokens_stride + k)) (one_step left step m s x)
        ∙ kept left (suc step) k r _ _ (next step x) (omega arith) (omega arith)
        ∙ other_column step k r x (omega arith) h

    -- What a step reads of request `r`, before step `q + 1`.
    pub record IsReady (p l r q : ℕ) (b : Buffers) : Type 0 where
      pub input : b.input_ids r ≡ b.draft_tokens (r * c.draft_tokens_stride + q)
      pub position : b.positions r ≡ min (p + suc q) (c.max_model_len - 1)
      pub seq_len : b.seq_lens r ≡ min (l + suc q) c.max_model_len

    -- the draft of the step
    own_column :
        (step r : ℕ) (x : Run K)
        → r < num_reqs
        → step < c.num_speculative_steps
        → (next step x).buffers.draft_tokens (r * c.draft_tokens_stride + step)
          ≡ sampled model c num_reqs
              (some (model.build_draft_attn_metadata x.buffers step))
              (some (model.compute_slot_mappings x.buffers))
              (set_step model c num_reqs step x)
              r
    unfolding generate_draft
    own_column step r x h l =
        let e : ((step == step) && ltb r num_reqs) ≡ true = ground arith in
        update_drafts c _ _ num_reqs (set_step model c num_reqs step x).buffers r step (omega arith)
          (omega arith)
        ∙ rw e refl

    clamped :
        (p q limit x : ℕ)
        → x ≡ min (p + suc q) limit
        → min (x + 1) limit ≡ min (p + suc (suc q)) limit
    clamped p q limit x e = omega arith

    next-IsReady :
        (p l r q : ℕ) (x : Run K)
        → r < num_reqs
        → suc q < c.num_speculative_steps - 1
        → IsReady p l r q x.buffers
        → IsReady p l r (suc q) (next (suc q) x).buffers
    unfolding generate_draft
    next-IsReady p l r q x h i ready =
        let goes : leb (c.num_speculative_steps - 1) (suc q) ≡ false = ground arith in
        let here = lt→ltb r num_reqs h in
        let y = (set_step model c num_reqs (suc q) x).buffers in
        record {
          input =
              update_inputs c _ _ num_reqs y r
              ∙ rw (goes, here) refl
              ∙ sym (own_column (suc q) r x h (omega arith));
          position =
              update_positions c _ _ num_reqs y r
              ∙ rw (goes, here, advances) (clamped p q _ _ ready.position);
          seq_len =
              update_lens c _ _ num_reqs y r
              ∙ rw (goes, here, advances) (clamped l q _ _ ready.seq_len);
        }

    -- The first draft of the steps from `q + 1` on.
    first-IsDraft :
        (left p l r q : ℕ) (x : Run K)
        → r < num_reqs
        → suc q + suc left ≡ c.num_speculative_steps
        → IsReady p l r q x.buffers
        → IsDraft
            (multi_step_from model c num_reqs false left
              (suc (suc q))
              (some (model.build_draft_attn_metadata x.buffers (suc q)))
              (some (model.compute_slot_mappings x.buffers))
              (next (suc q) x)).buffers
            x
            p
            l
            r
            q
    first-IsDraft left p l r q x h e ready = record {
      draft =
          kept left (suc (suc q)) (suc q) r _ _ (next (suc q) x) (omega arith) (omega arith)
          ∙ own_column (suc q) r x h (omega arith);
      input =
          ready.input
          ∙ sym (
              kept left (suc (suc q)) q r _ _ (next (suc q) x) (omega arith) (omega arith)
              ∙ other_column (suc q) q r x (omega arith) (omega arith));
      position = ready.position;
      seq_len = ready.seq_len;
    }

    pub multi-IsDraft :
        (left p l r q j : ℕ) (m : Option M) (s : Option S) (start x : Run K)
        → trace start q ≡ x
        → r < num_reqs
        → suc q + left ≡ c.num_speculative_steps
        → q ≤ j
        → suc j < c.num_speculative_steps
        → IsReady p l r q x.buffers
        → IsDraft
            (multi_step_from model c num_reqs false left (suc q) m s x).buffers
            (trace start j)
            p
            l
            r
            j
    multi-IsDraft zero p l r q j m s start x at h e i k ready = absurd (omega arith)
    multi-IsDraft (suc left) p l r q j m s start x at h e i k ready =
        subst (λ y. IsDraft y.buffers (trace start j) p l r j) (sym (one_step left (suc q) m s x))
          (elim (dec_lt q j) [
            | yes later ↦
                multi-IsDraft left p l r (suc q) j _ _ start (next (suc q) x) (ap (next (suc q)) at)
                  h (omega arith) (omega arith) k (next-IsReady p l r q x h (omega arith) ready)
            | no now ↦
                let same : q ≡ j = omega arith in
                let final =
                  (multi_step_from model c num_reqs false left (suc (suc q))
                    (some (model.build_draft_attn_metadata x.buffers (suc q)))
                    (some (model.compute_slot_mappings x.buffers)) (next (suc q) x)).buffers in
                subst (λ a. IsDraft final (trace start a) p l r a) same
                  (subst (λ y. IsDraft final y p l r q) (sym at)
                    (first-IsDraft left p l r q x h e ready))
          ])
