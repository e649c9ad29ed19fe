-- ===== src/Speculator/Decode.antt =====
-- vllm/v1/worker/gpu/spec_decode/autoregressive/speculator.py: what the launches of
-- `prepare_decode_inputs` and of `update_draft_inputs` leave.
use glm53flash_pp.Base.{
  ℕ, zero, suc, ◌+◌, ◌-◌, ◌*◌, min, ◌≤◌, ◌<◌, false, ◌≡◌, ap, ap₂, sym, ◌∙◌, inl, inr, refl, arith,
  ltb, leb, ◌==◌, ◌&&◌, if◌then◌else◌, Bool-cases, Bool, not,
}
use native.Mathlib.Decide.{dec_lt}
use native.Mathlib.Nat.{mul-le-mul_right}
use glm53flash_pp.Speculator.Lanes.{range_inside, range_outside}
use glm53flash_pp.Speculator.{
  Tensor, Buffers, Config, store, store_range, launch, update_program, update_draft_inputs,
}

-- Two cells of a matrix with rows of `w` columns.
cells_apart : (w r s k l : ℕ) → k < w → l < w → r * w + k ≡ s * w + l → (r ≡ s) × (k ≡ l)
cells_apart w r s k l h i e = elim (dec_lt r s) [
  | yes y ↦ absurd (omega (arith, mul-le-mul_right {m = r + 1} {n = s} w (omega arith)))
  | no n ↦ elim (dec_lt s r) [
    | yes y ↦ absurd (omega (arith, mul-le-mul_right {m = s + 1} {n = r} w (omega arith)))
    | no n' ↦ let same : r ≡ s = omega arith in (same, omega (arith, ap (λ x. x * w) same))
  ]
]

same_cell : (w r s k l : ℕ) → r ≡ s → k ≡ l → r * w + k ≡ s * w + l
same_cell w r s k l e f = ap₂ (λ x y. x * w + y) e f

-- A write to one column of row `n`.
store_cell :
    (w n l r k v : ℕ) (out : Tensor)
    → k < w
    → l < w
    → store (n * w + l) v out (r * w + k) ≡ (if (k == l) && (r == n) then v else out (r * w + k))
store_cell w n l r k v out h i = elim (Bool-cases ((r * w + k) == (n * w + l))) [
  | inl e ↦ ground (arith, cells_apart w r n k l h i (ground arith))
  | inr e ↦ ground (arith, same_cell w r n k l)
]

new_cell :
    (r k n l t t' d o : ℕ)
    → (r ≡ n → t ≡ t')
    → d ≡ (if (k == l) && ltb r n then t else o)
    → (if (k == l) && (r == n) then t' else d) ≡ (if (k == l) && ltb r (suc n) then t else o)
new_cell r k n l t t' d o h e = ground arith

-- one more program of a launch that writes `f` at each of its places, under a condition
new_place :
    (b : Bool) (p n v v' d o : ℕ)
    → (p ≡ n → v ≡ v')
    → d ≡ (if b && ltb p n then v else o)
    → (if b && (p == n) then v' else d) ≡ (if b && ltb p (suc n) then v else o)
new_place b p n v v' d o h e = ground arith

new_place₂ :
    (a b : Bool) (p n v v' d o : ℕ)
    → (p ≡ n → v ≡ v')
    → d ≡ (if a && b && ltb p n then v else o)
    → (if a && b && (p == n) then v' else d) ≡ (if a && b && ltb p (suc n) then v else o)
new_place₂ a b p n v v' d o h e = ground arith

unwritten : (a b : Bool) (n v d o : ℕ) → d ≡ (if a && b && ltb n n then v else o) → d ≡ o
unwritten a b n v d o e = ground arith

abbrev pub is_last : Config → Buffers → Bool
is_last c b = leb (c.num_speculative_steps - 1) b.current_draft_step

module _ (c : Config) (tokens hidden : Tensor) where
  -- one program, field by field
  program_step :
      (b : Buffers) (r : ℕ)
      → (update_program c tokens hidden b r).current_draft_step ≡ b.current_draft_step
  unfolding update_program
  program_step b r = elim (Bool-cases (is_last c b)) [ inl e ↦ rw e refl | inr e ↦ rw e refl ]

  program_drafts :
      (b : Buffers) (r : ℕ)
      → (update_program c tokens hidden b r).draft_tokens
        ≡ store (r * c.draft_tokens_stride + b.current_draft_step) (tokens r) b.draft_tokens
  unfolding update_program
  program_drafts b r = elim (Bool-cases (is_last c b)) [ inl e ↦ rw e refl | inr e ↦ rw e refl ]

  program_inputs :
      (b : Buffers) (r p : ℕ)
      → (update_program c tokens hidden b r).input_ids p
        ≡ (if not (is_last c b) && (p == r) then tokens r else b.input_ids p)
  unfolding update_program
  program_inputs b r p = elim (Bool-cases (is_last c b)) [ inl e ↦ rw e refl | inr e ↦ rw e refl ]

  program_positions :
      (b : Buffers) (r p : ℕ)
      → (update_program c tokens hidden b r).positions p ≡ (
          if not (is_last c b) && c.advance_draft_positions && (p == r)
          then min (b.positions r + 1) (c.max_model_len - 1)
          else b.positions p)
  unfolding update_program
  program_positions b r p = elim (Bool-cases (is_last c b)) [
    | inl e ↦ rw e refl
    | inr e ↦ elim (Bool-cases c.advance_draft_positions) [
      | inl a ↦ rw (e, a) refl
      | inr a ↦ rw (e, a) refl
    ]
  ]

  program_lens :
      (b : Buffers) (r p : ℕ)
      → (update_program c tokens hidden b r).seq_lens p ≡ (
          if not (is_last c b) && c.advance_draft_positions && (p == r)
          then min (b.seq_lens r + 1) c.max_model_len
          else b.seq_lens p)
  unfolding update_program
  program_lens b r p = elim (Bool-cases (is_last c b)) [
    | inl e ↦ rw e refl
    | inr e ↦ elim (Bool-cases c.advance_draft_positions) [
      | inl a ↦ rw (e, a) refl
      | inr a ↦ rw (e, a) refl
    ]
  ]

  program_hidden :
      (b : Buffers) (r : ℕ)
      → is_last c b ≡ false
      → (update_program c tokens hidden b r).hidden_states
        ≡ store_range c.block_size 0
            (r * c.next_hidden_states_stride)
            c.hidden_size
            (λ p. hidden (r * c.hidden_states_stride + (p - r * c.next_hidden_states_stride)))
            b.hidden_states
  unfolding update_program
  program_hidden b r e = rw e refl

  abbrev after : ℕ → Buffers → Buffers
  after n b = update_draft_inputs c tokens hidden n b

  pub update_step : (n : ℕ) (b : Buffers) → (after n b).current_draft_step ≡ b.current_draft_step
  unfolding update_draft_inputs launch
  update_step zero b = refl
  update_step (suc n) b = program_step (after n b) n ∙ update_step n b

  last_same : (n : ℕ) (b : Buffers) → is_last c (after n b) ≡ is_last c b
  last_same n b = ap (λ s. leb (c.num_speculative_steps - 1) s) (update_step n b)

  -- The draft of a request goes to the column of the step.
  pub update_drafts :
      (n : ℕ) (b : Buffers) (r k : ℕ)
      → k < c.draft_tokens_stride
      → b.current_draft_step < c.draft_tokens_stride
      → (after n b).draft_tokens (r * c.draft_tokens_stride + k) ≡ (
          if (k == b.current_draft_step) && ltb r n
          then tokens r
          else b.draft_tokens (r * c.draft_tokens_stride + k))
  unfolding update_draft_inputs launch
  update_drafts zero b r k h i = ground arith
  update_drafts (suc n) b r k h i =
      let w = c.draft_tokens_stride in
      let d = after n b in
      ap (λ out. out (r * w + k)) (program_drafts d n)
      ∙ ap (λ l. store (n * w + l) (tokens n) d.draft_tokens (r * w + k)) (update_step n b)
      ∙ store_cell w n b.current_draft_step r k (tokens n) d.draft_tokens h i
      ∙ new_cell r k n b.current_draft_step (tokens r) (tokens n) _ _ (ap tokens)
          (update_drafts n b r k h i)

  pub update_inputs :
      (n : ℕ) (b : Buffers) (p : ℕ)
      → (after n b).input_ids p ≡ (if not (is_last c b) && ltb p n then tokens p else b.input_ids p)
  unfolding update_draft_inputs launch
  update_inputs zero b p = ground arith
  update_inputs (suc n) b p =
      program_inputs (after n b) n p
      ∙ ap (λ l. if not l && (p == n) then tokens n else (after n b).input_ids p) (last_same n b)
      ∙ new_place (not (is_last c b)) p n (tokens p) (tokens n) _ _ (ap tokens)
          (update_inputs n b p)

  pub update_positions :
      (n : ℕ) (b : Buffers) (p : ℕ)
      → (after n b).positions p ≡ (
          if not (is_last c b) && c.advance_draft_positions && ltb p n
          then min (b.positions p + 1) (c.max_model_len - 1)
          else b.positions p)
  unfolding update_draft_inputs launch
  update_positions zero b p = ground arith
  update_positions (suc n) b p =
      program_positions (after n b) n p
      ∙ ap
          (λ l.
            if not l && c.advance_draft_positions && (p == n)
            then min ((after n b).positions n + 1) (c.max_model_len - 1)
            else (after n b).positions p)
          (last_same n b)
      ∙ new_place₂ (not (is_last c b)) c.advance_draft_positions p n
          (min (b.positions p + 1) (c.max_model_len - 1))
          (min ((after n b).positions n + 1) (c.max_model_len - 1)) _ _
          (λ e.
            ap (λ x. min (x + 1) (c.max_model_len - 1))
              (ap b.positions e
                ∙ sym (
                    unwritten (not (is_last c b)) c.advance_draft_positions n _ _ _
                      (update_positions n b n))))
          (update_positions n b p)

  pub update_lens :
      (n : ℕ) (b : Buffers) (p : ℕ)
      → (after n b).seq_lens p ≡ (
          if not (is_last c b) && c.advance_draft_positions && ltb p n
          then min (b.seq_lens p + 1) c.max_model_len
          else b.seq_lens p)
  unfolding update_draft_inputs launch
  update_lens zero b p = ground arith
  update_lens (suc n) b p =
      program_lens (after n b) n p
      ∙ ap
          (λ l.
            if not l && c.advance_draft_positions && (p == n)
            then min ((after n b).seq_lens n + 1) c.max_model_len
            else (after n b).seq_lens p)
          (last_same n b)
      ∙ new_place₂ (not (is_last c b)) c.advance_draft_positions p n
          (min (b.seq_lens p + 1) c.max_model_len)
          (min ((after n b).seq_lens n + 1) c.max_model_len) _ _
          (λ e.
            ap (λ x. min (x + 1) c.max_model_len)
              (ap b.seq_lens e
                ∙ sym (
                    unwritten (not (is_last c b)) c.advance_draft_positions n _ _ _
                      (update_lens n b n))))
          (update_lens n b p)

  -- The hidden states that a request gets for the next pass, in a step that is not the last.
  pub update_hidden :
      (n : ℕ) (b : Buffers) (r k : ℕ)
      → 0 < c.block_size
      → c.hidden_size ≤ c.next_hidden_states_stride
      → k < c.hidden_size
      → is_last c b ≡ false
      → r < n
      → (after n b).hidden_states (r * c.next_hidden_states_stride + k)
        ≡ hidden (r * c.hidden_states_stride + k)
  unfolding update_draft_inputs launch
  update_hidden zero b r k block fits h e l = absurd (omega arith)
  update_hidden (suc n) b r k block fits h e l =
      let w = c.next_hidden_states_stride in
      let d = after n b in
      let value : ℕ → ℕ = λ p. hidden (n * c.hidden_states_stride + (p - n * w)) in
      ap (λ out. out (r * w + k)) (program_hidden d n (last_same n b ∙ e)) ∙ elim (dec_lt r n) [
        | yes y ↦
            range_outside c.block_size (n * w) c.hidden_size value d.hidden_states (r * w + k) block
              (inl (omega (arith, mul-le-mul_right {m = r + 1} {n = n} w (omega arith))))
            ∙ update_hidden n b r k block fits h e y
        | no z ↦
            let same : r ≡ n = omega arith in
            let cell : r * w + k ≡ n * w + k = ap (λ q. q * w + k) same in
            let off : r * w + k - n * w ≡ k = omega (arith, cell) in
            range_inside c.block_size (n * w) c.hidden_size value d.hidden_states (r * w + k) block
              (omega (arith, cell)) (omega (arith, cell))
            ∙ ap₂ (λ q o. hidden (q * c.hidden_states_stride + o)) (sym same) off
      ]
