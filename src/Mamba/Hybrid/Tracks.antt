-- ===== src/Mamba/Hybrid/Tracks.antt =====
-- vllm/v1/worker/gpu/model_states/mamba_hybrid.py: over all the runner's calls, a slot's column is
-- the block of its last token, and its state moves exactly when that block changes.
use glm53flash_pp.Base.{
  ℕ, ◌+◌, ◌-◌, ◌/◌, ◌<◌, ◌≡◌, refl, ap, ◌∙◌, arith, List, [], ◌∷◌, ◌++◌, map, length, get_elem?,
  Option, none, some, Bool, true, not, ◌&&◌, ltb, ◌==◌, if◌then◌else◌, ℤ, pos, ◌==ℤ◌, is_negative,
}
use glm53flash_pp.Mamba.{StateCopy, preprocess_align, precopy, last_block}
use glm53flash_pp.Mamba.Hybrid.{
  Hybrid, put, fresh, Row, add_request, align_row, align_rows, precopy_row, preprocess_state, Event,
  added, before_forward, sampled, step, run,
}
use glm53flash_pp.Mamba.Hybrid.Rows.{
  align_column, Positive, put-Positive, Apart, align_rows-Positive, align_rows-SameSlot,
  align_rows-append, align_row_self, postprocess_state-Positive, postprocess_state-columns,
}

-- The number of tokens that each slot was last set to, `none` before its first request.
abbrev pub tokens_rows : (ℕ → ℕ) → List Row → (ℕ → Option ℕ) → ℕ → Option ℕ
tokens_rows computed [] g = g
tokens_rows computed (r ∷ rs) g =
    tokens_rows computed rs (put r.slot (some (computed r.slot + r.query_len)) g)

abbrev pub tokens_step : Event → (ℕ → Option ℕ) → ℕ → Option ℕ
tokens_step (added i n) g = put i (some n) g
tokens_step (before_forward computed rows) g = tokens_rows computed rows g
tokens_step (sampled xs n computed) g = g

abbrev pub tokens : List Event → (ℕ → Option ℕ) → ℕ → Option ℕ
tokens [] g = g
tokens (e ∷ es) g = tokens es (tokens_step e g)

-- The columns stand for the tokens.
abbrev pub Columns : ℕ → Hybrid → (ℕ → Option ℕ) → Type 0
Columns b s g = (i t : ℕ) → g i ≡ some t → s.state_idx i ≡ last_block b t

put-column :
    (b i n : ℕ) (col : ℤ) (f : ℕ → ℤ) (g : ℕ → Option ℕ)
    → col ≡ last_block b n
    → ((j t : ℕ) → g j ≡ some t → f j ≡ last_block b t)
    → (j t : ℕ) → put i (some n) g j ≡ some t
    → put i col f j ≡ last_block b t
put-column b i n col f g e h j t eq = ground (arith, h j t)

row-Columns :
    (b : ℕ) (computed : ℕ → ℕ) (r : Row) (s : Hybrid) (g : ℕ → Option ℕ)
    → 0 < b
    → Columns b s g
    → Columns b (align_row b computed r s) (put r.slot (some (computed r.slot + r.query_len)) g)
unfolding align_row preprocess_align
row-Columns b computed r s g h c =
    put-column b r.slot (computed r.slot + r.query_len) _ s.state_idx g
      (align_column b (computed r.slot + r.query_len) h) c

rows-Columns :
    (b : ℕ) (computed : ℕ → ℕ) (rs : List Row) (s : Hybrid) (g : ℕ → Option ℕ)
    → 0 < b
    → Columns b s g
    → Columns b (align_rows b computed rs s) (tokens_rows computed rs g)
unfolding align_rows
rows-Columns b computed [] s g h c = c
rows-Columns b computed (r ∷ rs) s g h c =
    rows-Columns b computed rs (align_row b computed r s) _ h (row-Columns b computed r s g h c)

step-Columns :
    (b : ℕ) (e : Event) (s : Hybrid) (g : ℕ → Option ℕ)
    → 0 < b
    → Columns b s g
    → Columns b (step b e s) (tokens_step e g)
unfolding step add_request preprocess_state
step-Columns b (added i n) s g h c = put-column b i n _ s.state_idx g refl c
step-Columns b (before_forward computed []) s g h c = c
step-Columns b (before_forward computed (r ∷ rs)) s g h c =
    rows-Columns b computed (r ∷ rs) (record s { has_ctx = true }) g h c
step-Columns b (sampled xs n computed) s g h c =
    λ i t e. ap (λ f. f i) (postprocess_state-columns b xs n computed s) ∙ c i t e

step-Positive : (b : ℕ) (e : Event) (s : Hybrid) → Positive s → Positive (step b e s)
unfolding step add_request preprocess_state
step-Positive b (added i n) s p = put-Positive i 1 s.num_accepted (omega arith) p
step-Positive b (before_forward computed []) s p = p
step-Positive b (before_forward computed (r ∷ rs)) s p =
    align_rows-Positive b computed (r ∷ rs) (record s { has_ctx = true }) p
step-Positive b (sampled xs n computed) s p = postprocess_state-Positive b xs n computed s p

run-Columns :
    (b : ℕ) (es : List Event) (s : Hybrid) (g : ℕ → Option ℕ)
    → 0 < b
    → Columns b s g
    → Columns b (run b es s) (tokens es g)
unfolding run
run-Columns b [] s g h c = c
run-Columns b (e ∷ es) s g h c =
    run-Columns b es (step b e s) (tokens_step e g) h (step-Columns b e s g h c)

run-Positive : (b : ℕ) (es : List Event) (s : Hybrid) → Positive s → Positive (run b es s)
unfolding run
run-Positive b [] s p = p
run-Positive b (e ∷ es) s p = run-Positive b es (step b e s) (step-Positive b e s p)

-- The block of the last token differs, and there was a token.
abbrev pub crosses : ℕ → ℕ → ℕ → Bool
crosses b t n = ltb 0 t && not ((t - 1) / b == (n - 1) / b)

abbrev pub crossing : ℕ → ℕ → ℕ → ℕ → Option StateCopy
crossing b t n accepted =
    if crosses b t n
    then some (record {
      src_col = pos ((t - 1) / b);
      dst_col = pos ((n - 1) / b);
      token_bias = accepted - 1;
    })
    else none

precopy-crossing :
    (b t n accepted : ℕ)
    → 0 < n
    → precopy (last_block b t) (last_block b n) (accepted - 1) ≡ crossing b t n accepted
unfolding precopy
precopy-crossing b t n accepted h = ground arith

resets :
    (b t n accepted : ℕ)
    → 0 < n
    → (if not (is_negative (last_block b t)) && not (last_block b t ==ℤ last_block b n)
        then 1
        else accepted)
      ≡ (if crosses b t n then 1 else accepted)
resets b t n accepted h = ground arith

preprocess_lem :
    (b : ℕ) (computed : ℕ → ℕ) (xs ys : List Row) (r : Row) (s : Hybrid)
    → let s' = align_rows b computed (xs ++ r ∷ ys) (record s { has_ctx = true }) in
      preprocess_state b computed (xs ++ r ∷ ys) s ≡ (s', map (precopy_row s') (xs ++ r ∷ ys))
unfolding preprocess_state
preprocess_lem b computed [] ys r s = refl
preprocess_lem b computed (x ∷ xs) ys r s = refl

nth_map :
    {A B : Type 0} (f : A → B) (xs ys : List A) (x : A)
    → get_elem? (map f (xs ++ x ∷ ys)) (length xs) ≡ some (f x)
nth_map f [] ys x = refl
nth_map f (z ∷ xs) ys x = nth_map f xs ys x

-- What the launch leaves for one of its rows.
row_of_launch :
    (b : ℕ) (computed : ℕ → ℕ) (xs ys : List Row) (r : Row) (s : Hybrid) (t : ℕ)
    → let n = computed r.slot + r.query_len in
      let s' = align_rows b computed (xs ++ r ∷ ys) s in
      0 < b
      → 0 < n
      → Apart r.slot xs
      → Apart r.slot ys
      → s.state_idx r.slot ≡ last_block b t
      → (precopy_row s' r ≡ crossing b t n (s.num_accepted r.slot))
        × (s'.num_accepted r.slot ≡ (if crosses b t n then 1 else s.num_accepted r.slot))
unfolding align_rows
row_of_launch b computed xs ys r s t h pos_n ax ay col =
    let n = computed r.slot + r.query_len in
    let before = align_rows b computed xs s in
    let self = align_row b computed r before in
    let old = align_rows-SameSlot b computed xs s r.slot ax in
    let new = align_rows-SameSlot b computed ys self r.slot ay in
    let (state, src, off, acc) = align_row_self b computed r before h in
    let src' : self.src_col r.slot ≡ last_block b t = src ∙ old.column ∙ col in
    let off' : self.src_off r.slot ≡ s.num_accepted r.slot - 1 =
      off ∙ ap (λ k. k - 1) old.accepted in
    rw (align_rows-append b computed xs (r ∷ ys) s) (
      rw (new.source, new.column, new.offset, src', state, off')
          (precopy-crossing b t n (s.num_accepted r.slot) pos_n),
      new.accepted
          ∙ acc
          ∙ rw (state, old.column, col, old.accepted) (resets b t n (s.num_accepted r.slot) pos_n),
    )

-- After any calls of the runner, for a slot that holds `t` tokens by the last call that set it: its
-- column is the block of the last token, and its accepted count is at least 1. When a batch, whose
-- other rows have other slots, then takes it to `n` tokens, its row copies the state exactly if
-- there was a token and the block of the last token changes, from the one block to the other with
-- the accepted drafts as bias; then the accepted count becomes 1, else it stays.
pub run-crossing :
    (b : ℕ) (events : List Event) (computed : ℕ → ℕ) (xs ys : List Row) (r : Row) (t : ℕ)
    → let n = computed r.slot + r.query_len in
      let s = run b events fresh in
      let (s', copies) = preprocess_state b computed (xs ++ r ∷ ys) s in
      0 < b
      → 0 < n
      → Apart r.slot xs
      → Apart r.slot ys
      → tokens events (λ i. none) r.slot ≡ some t
      → (s.state_idx r.slot ≡ last_block b t)
        × (0 < s.num_accepted r.slot)
        × (get_elem? copies (length xs) ≡ some (crossing b t n (s.num_accepted r.slot)))
        × (s'.num_accepted r.slot ≡ (if crosses b t n then 1 else s.num_accepted r.slot))
run-crossing b events computed xs ys r t h pos_n ax ay e =
    let s = run b events fresh in
    let s' = align_rows b computed (xs ++ r ∷ ys) (record s { has_ctx = true }) in
    let col = run-Columns b events fresh (λ i. none) h (λ i u z. absurd cc) r.slot t e in
    let (copy, accepted) =
      row_of_launch b computed xs ys r (record s { has_ctx = true }) t h pos_n ax ay col in
    (
      col,
      run-Positive b events fresh (λ i. omega arith) r.slot,
      rw (preprocess_lem b computed xs ys r s) (nth_map (precopy_row s') xs ys r ∙ ap some copy),
      rw (preprocess_lem b computed xs ys r s) accepted,
    )
