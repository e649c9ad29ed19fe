-- ===== src/Speculator/Fused.antt =====
-- vllm/v1/worker/gpu/spec_decode/autoregressive/speculator.py: the two loops of the draft steps,
-- `_multi_step_decode` and `_fused_multi_step_decode`.
use glm53flash_pp.Base.{
  ℕ, zero, suc, ◌+◌, ◌-◌, ◌≤◌, ◌<◌, ◌≡◌, ap, sym, ◌∙◌, inl, inr, refl, arith, ap₂, Option, none,
  some, if◌then◌else◌, Bool-cases, true, false, Bool,
}
use glm53flash_pp.Speculator.{Buffers, Config}
use glm53flash_pp.Speculator.Loop.{
  Model, Run, generate_draft, set_step, rebuilds, refreshes, multi_step_from, multi_step_decode,
  refresh_slots, refresh_metadata, fused_from, fused_multi_step_decode,
}

module _ {K M S : Type 0} (model : Model K M S) (c : Config) (num_reqs : ℕ) where
  -- a step with slots and metadata that are built for it
  abbrev pub rebuilt : ℕ → Run K → Run K
  rebuilt step x =
      generate_draft model c num_reqs (some (model.build_draft_attn_metadata x.buffers step))
        (some (model.compute_slot_mappings x.buffers)) (set_step model c num_reqs step x)

-- What the source relies on where it does not rebuild between two steps: the later call of
-- `compute_slot_mappings`, whose result the code discards, leaves its slots in the tensors that the
-- first call returned; and a backend that declares `supports_draft_decode_metadata_update` turns the
-- metadata of a step into what a rebuild gives for the next one. (Without this support the code falls
-- back "to rebuilding attention metadata between draft steps".)
pub record UpdatesInPlace {K M S : Type 0} (model : Model K M S) (c : Config) (num_reqs : ℕ)
    : Type 0 where
  pub slots :
      (b : Buffers) (s : S) → model.refresh_slot_mappings b s ≡ model.compute_slot_mappings b
  pub metadata :
      (x : Run K) (step : ℕ)
      → suc step < c.num_speculative_steps
      → let b = (rebuilt model c num_reqs step x).buffers in
        model.update_draft_decode_metadata b (model.build_draft_attn_metadata x.buffers step)
        ≡ model.build_draft_attn_metadata b (suc step)

module _ {K M S : Type 0} (model : Model K M S) (c : Config) (num_reqs : ℕ) where
  same_slots : (b : Buffers) (s : Option S) → refresh_slots model c num_reqs false b s ≡ s
  same_slots b none = refl
  same_slots b (some s) = refl

  same_metadata : (b : Buffers) (m : Option M) → refresh_metadata model c num_reqs false b m ≡ m
  same_metadata b none = refl
  same_metadata b (some m) = refl

  abbrev G : Option M → Option S → ℕ → Run K → Run K
  G m s step x = generate_draft model c num_reqs m s (set_step model c num_reqs step x)

  pub multi_done :
      (skip : Bool) (step : ℕ) (m : Option M) (s : Option S) (x : Run K)
      → multi_step_from model c num_reqs skip zero step m s x ≡ x
  unfolding multi_step_from
  multi_done skip step m s x = refl

  fused_done :
      (step : ℕ) (m : Option M) (s : Option S) (x : Run K)
      → fused_from model c num_reqs zero step m s x ≡ x
  unfolding fused_from
  fused_done step m s x = refl

  pub multi_keeps :
      (skip : Bool) (left step : ℕ) (m : Option M) (s : Option S) (x : Run K)
      → rebuilds model c num_reqs skip step ≡ false
      → multi_step_from model c num_reqs skip (suc left) step m s x
        ≡ multi_step_from model c num_reqs skip left (suc step) m s (G m s step x)
  unfolding multi_step_from
  multi_keeps skip left step m s x e =
      ap
        (λ r.
          let s' = if r then some (model.compute_slot_mappings x.buffers) else s in
          let m' = if r then some (model.build_draft_attn_metadata x.buffers step) else m in
          multi_step_from model c num_reqs skip left (suc step) m' s' (G m' s' step x))
        e

  pub multi_rebuilds :
      (skip : Bool) (left step : ℕ) (m : Option M) (s : Option S) (x : Run K)
      → rebuilds model c num_reqs skip step ≡ true
      → let s' = some (model.compute_slot_mappings x.buffers) in
        let m' = some (model.build_draft_attn_metadata x.buffers step) in
        multi_step_from model c num_reqs skip (suc left) step m s x
        ≡ multi_step_from model c num_reqs skip left (suc step) m' s' (G m' s' step x)
  unfolding multi_step_from
  multi_rebuilds skip left step m s x e =
      ap
        (λ r.
          let s' = if r then some (model.compute_slot_mappings x.buffers) else s in
          let m' = if r then some (model.build_draft_attn_metadata x.buffers step) else m in
          multi_step_from model c num_reqs skip left (suc step) m' s' (G m' s' step x))
        e

  fused_keeps :
      (left step : ℕ) (m : Option M) (s : Option S) (x : Run K)
      → refreshes model c num_reqs step ≡ false
      → fused_from model c num_reqs (suc left) step m s x
        ≡ fused_from model c num_reqs left (suc step) m s (G m s step x)
  unfolding fused_from
  fused_keeps left step m s x e =
      let x' = G m s step x in
      ap
        (λ r.
          fused_from model c num_reqs left (suc step)
            (refresh_metadata model c num_reqs r x'.buffers m)
            (refresh_slots model c num_reqs r x'.buffers s) x')
        e
      ∙ ap₂ (λ m' s'. fused_from model c num_reqs left (suc step) m' s' x')
          (same_metadata x'.buffers m) (same_slots x'.buffers s)

  fused_refreshes :
      (left step : ℕ) (m : M) (s : S) (x : Run K)
      → refreshes model c num_reqs step ≡ true
      → let x' = G (some m) (some s) step x in
        fused_from model c num_reqs (suc left) step (some m) (some s) x
        ≡ fused_from model c num_reqs left
            (suc step)
            (some (model.update_draft_decode_metadata x'.buffers m))
            (some (model.refresh_slot_mappings x'.buffers s))
            x'
  unfolding fused_from
  fused_refreshes left step m s x e =
      let x' = G (some m) (some s) step x in
      ap
        (λ r.
          fused_from model c num_reqs left (suc step)
            (refresh_metadata model c num_reqs r x'.buffers (some m))
            (refresh_slots model c num_reqs r x'.buffers (some s)) x')
        e

  -- Positions that stay: from step 2 on neither loop rebuilds anything.
  constant :
      (skip : Bool) (left step : ℕ) (m : Option M) (s : Option S) (x : Run K)
      → c.advance_draft_positions ≡ false
      → 2 ≤ step
      → multi_step_from model c num_reqs skip left step m s x
        ≡ fused_from model c num_reqs left step m s x
  unfolding rebuilds refreshes
  constant skip zero step m s x a h = multi_done skip step m s x ∙ sym (fused_done step m s x)
  constant skip (suc left) step m s x a h =
      multi_keeps skip left step m s x (ground arith)
      ∙ constant skip left (suc step) m s (G m s step x) a (omega arith)
      ∙ sym (fused_keeps left step m s x (ground arith))

  skipped :
      (left step : ℕ) (x : Run K)
      → multi_step_from model c num_reqs true left step none none x
        ≡ fused_from model c num_reqs left step none none x
  unfolding multi_step_from fused_from
  skipped zero step x = refl
  skipped (suc left) step x = skipped left (suc step) (G none none step x)

  -- Positions that advance: the fused loop holds what the other one builds.
  advancing :
      UpdatesInPlace model c num_reqs
      → (left step : ℕ) (m : Option M) (s : Option S) (x : Run K) → c.advance_draft_positions ≡ true
      → step + left ≡ c.num_speculative_steps
      → multi_step_from model c num_reqs false left step m s x
        ≡ fused_from model c num_reqs left step
            (some (model.build_draft_attn_metadata x.buffers step))
            (some (model.compute_slot_mappings x.buffers))
            x
  unfolding rebuilds refreshes
  advancing laws zero step m s x a h = multi_done false step m s x ∙ sym (fused_done step _ _ x)
  advancing laws (suc zero) step m s x a h =
      let s' = some (model.compute_slot_mappings x.buffers) in
      let m' = some (model.build_draft_attn_metadata x.buffers step) in
      multi_rebuilds false 0 step m s x (ground arith)
      ∙ multi_done false (suc step) m' s' (G m' s' step x)
      ∙ sym (fused_done (suc step) m' s' (G m' s' step x))
      ∙ sym (fused_keeps 0 step m' s' x (ground arith))
  advancing laws (suc (suc left)) step m s x a h =
      let s' = model.compute_slot_mappings x.buffers in
      let m' = model.build_draft_attn_metadata x.buffers step in
      let x' = G (some m') (some s') step x in
      multi_rebuilds false (suc left) step m s x (ground arith)
      ∙ advancing laws (suc left) (suc step) (some m') (some s') x' a (omega arith)
      ∙ ap₂ (λ n t. fused_from model c num_reqs (suc left) (suc step) (some n) (some t) x')
          (sym (laws.metadata x step (omega arith))) (sym (laws.slots x'.buffers s'))
      ∙ sym (fused_refreshes (suc left) step m' s' x (ground arith))

  -- positions that stay: both loops build everything at the first step
  staying :
      (left : ℕ) (x : Run K)
      → c.advance_draft_positions ≡ false
      → multi_step_from model c num_reqs false left 1 none none x
        ≡ fused_from model c num_reqs left 1
            (some (model.build_draft_attn_metadata x.buffers 1))
            (some (model.compute_slot_mappings x.buffers))
            x
  unfolding rebuilds refreshes
  staying zero x a = multi_done false 1 none none x ∙ sym (fused_done 1 _ _ x)
  staying (suc left) x a =
      let s' = some (model.compute_slot_mappings x.buffers) in
      let m' = some (model.build_draft_attn_metadata x.buffers 1) in
      multi_rebuilds false left 1 none none x (ground arith)
      ∙ constant false left 2 m' s' (G m' s' 1 x) a (omega arith)
      ∙ sym (fused_keeps left 1 m' s' x (ground arith))

  -- The fused loop and the loop that rebuilds leave the same drafts, inputs and cache, with or without
  -- attention, for positions that advance and for positions that stay. Where positions advance this
  -- is on the condition that updating the slots and the metadata of a step in place gives what a
  -- rebuild gives for the next step (`UpdatesInPlace`); where they stay there is no condition.
  pub fused-multi_step_decode :
      (skip_attn : Bool) (x : Run K)
      → 0 < c.num_speculative_steps
      → (c.advance_draft_positions ≡ true → UpdatesInPlace model c num_reqs)
      → fused_multi_step_decode model c num_reqs skip_attn x
        ≡ multi_step_decode model c num_reqs skip_attn x
  unfolding fused_multi_step_decode multi_step_decode
  fused-multi_step_decode true x h laws = sym (skipped (c.num_speculative_steps - 1) 1 x)
  fused-multi_step_decode false x h laws = elim (Bool-cases c.advance_draft_positions) [
    | inl a ↦ sym (advancing (laws a) (c.num_speculative_steps - 1) 1 none none x a (omega arith))
    | inr a ↦ sym (staying (c.num_speculative_steps - 1) x a)
  ]
