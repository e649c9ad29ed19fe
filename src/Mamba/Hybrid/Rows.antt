-- ===== src/Mamba/Hybrid/Rows.antt =====
-- vllm/v1/worker/gpu/model_states/mamba_hybrid.py: what the launches change and leave.
use glm53flash_pp.Base.{
  ℕ, zero, suc, ◌+◌, ◌-◌, ◌/◌, ◌<◌, ◌≡◌, ◌≢◌, refl, ◌∙◌, arith, List, [], ◌∷◌, ◌++◌, All, Option,
  none, some, not, ◌&&◌, if◌then◌else◌, ℤ, pos, negsuc, sub_ℕ, ◌==ℤ◌, is_negative, max, Bool-cases,
  inl, inr,
}
use glm53flash_pp.Mamba.{preprocess_align, last_block}
use glm53flash_pp.Mamba.Hybrid.{
  Hybrid, put, Row, align_row, align_rows, NumSampled, for_each, for_all, store_accepted,
  scatter_num_accepted, fill_num_accepted, postprocess_align, accept, postprocess_state,
}

pub put_self : {A : Type 0} (i : ℕ) (x : A) (f : ℕ → A) → put i x f i ≡ x
put_self i x f = ground arith

pub put_other : {A : Type 0} (i : ℕ) (x : A) (f : ℕ → A) (j : ℕ) → j ≢ i → put i x f j ≡ f j
put_other i x f j h = ground arith

blocks_up : (b k : ℕ) → 0 < b → (suc k + b - 1) / b ≡ suc (k / b)
blocks_up b k h = grind arith

-- the new column is the block of the last token
pub align_column : (b n : ℕ) → 0 < b → sub_ℕ ((n + b - 1) / b) 1 ≡ last_block b n
align_column b zero h = let low : (zero + b - 1) / b ≡ 0 = grind arith in ground arith
align_column b (suc k) h =
    let up : (suc k + b - 1) / b ≡ suc (k / b) = blocks_up b k h in ground arith

-- Every count is at least one.
abbrev pub Positive : Hybrid → Type 0
Positive s = (i : ℕ) → 0 < s.num_accepted i

pub put-Positive : (i v : ℕ) (f : ℕ → ℕ) → 0 < v → ((j : ℕ) → 0 < f j) → (j : ℕ) → 0 < put i v f j
put-Positive i v f h p j = ground (arith, p j)

pub align_row-Positive :
    (b : ℕ) (computed : ℕ → ℕ) (r : Row) (s : Hybrid)
    → Positive s
    → Positive (align_row b computed r s)
unfolding align_row preprocess_align
align_row-Positive b computed r s p j = ground (arith, p j, p r.slot)

store_accepted-Positive :
    (x : ℤ) (v : ℕ) (s : Hybrid) → 0 < v → Positive s → Positive (store_accepted x v s)
unfolding store_accepted
store_accepted-Positive (negsuc n) v s h p = p
store_accepted-Positive (pos i) v s h p = put-Positive i v s.num_accepted h p

scatter-Positive :
    (xs : List ℤ) (ns : List ℕ) (s : Hybrid) → Positive s → Positive (scatter_num_accepted xs ns s)
unfolding scatter_num_accepted
scatter-Positive [] ns s p = p
scatter-Positive (x ∷ xs) [] s p = p
scatter-Positive (x ∷ xs) (n ∷ ns) s p =
    scatter-Positive xs ns (store_accepted x (max n 1) s)
      (store_accepted-Positive x (max n 1) s (omega arith) p)

fill-Positive :
    (xs : List ℤ) (v : ℕ) (s : Hybrid) → 0 < v → Positive s → Positive (fill_num_accepted xs v s)
unfolding fill_num_accepted
fill-Positive [] v s h p = p
fill-Positive (x ∷ xs) v s h p =
    fill-Positive xs v (store_accepted x v s) h (store_accepted-Positive x v s h p)

accept-Positive :
    (xs : List ℤ) (n : NumSampled) (s : Hybrid) → Positive s → Positive (accept xs n s)
unfolding accept
accept-Positive xs (for_each ns) s p = scatter-Positive xs ns s p
accept-Positive xs (for_all n) s p = fill-Positive xs (max n 1) s (omega arith) p

postprocess_align-Positive :
    (b : ℕ) (computed : ℕ → ℕ) (snapshot : Hybrid) (xs : List ℤ) (s : Hybrid)
    → Positive s
    → Positive (postprocess_align b computed snapshot xs s).0
unfolding postprocess_align
postprocess_align-Positive b computed snapshot [] s p = p
postprocess_align-Positive b computed snapshot (negsuc n ∷ xs) s p =
    postprocess_align-Positive b computed snapshot xs s p
postprocess_align-Positive b computed snapshot (pos i ∷ xs) s p =
    postprocess_align-Positive b computed snapshot xs _ (λ j. ground (arith, p j))

pub postprocess_state-Positive :
    (b : ℕ) (xs : List ℤ) (n : NumSampled) (computed : Option (ℕ → ℕ)) (s : Hybrid)
    → Positive s
    → Positive (postprocess_state b xs n computed s).0
unfolding postprocess_state
postprocess_state-Positive b [] n computed s p = p
postprocess_state-Positive b (x ∷ xs) n none s p = accept-Positive (x ∷ xs) n s p
postprocess_state-Positive b (x ∷ xs) n (some computed) s p =
    let s' = accept (x ∷ xs) n s in
    let q = accept-Positive (x ∷ xs) n s p in
    elim (Bool-cases s'.has_ctx) [
      | inl e ↦ rw e (postprocess_align-Positive b computed s' (x ∷ xs) s' q)
      | inr e ↦ rw e q
    ]

-- Sampling leaves the columns.
store_accepted-columns :
    (x : ℤ) (v : ℕ) (s : Hybrid) → (store_accepted x v s).state_idx ≡ s.state_idx
unfolding store_accepted
store_accepted-columns (negsuc n) v s = refl
store_accepted-columns (pos i) v s = refl

scatter-columns :
    (xs : List ℤ) (ns : List ℕ) (s : Hybrid)
    → (scatter_num_accepted xs ns s).state_idx ≡ s.state_idx
unfolding scatter_num_accepted
scatter-columns [] ns s = refl
scatter-columns (x ∷ xs) [] s = refl
scatter-columns (x ∷ xs) (n ∷ ns) s =
    scatter-columns xs ns (store_accepted x (max n 1) s) ∙ store_accepted-columns x (max n 1) s

fill-columns :
    (xs : List ℤ) (v : ℕ) (s : Hybrid) → (fill_num_accepted xs v s).state_idx ≡ s.state_idx
unfolding fill_num_accepted
fill-columns [] v s = refl
fill-columns (x ∷ xs) v s = fill-columns xs v (store_accepted x v s) ∙ store_accepted-columns x v s

accept-columns :
    (xs : List ℤ) (n : NumSampled) (s : Hybrid) → (accept xs n s).state_idx ≡ s.state_idx
unfolding accept
accept-columns xs (for_each ns) s = scatter-columns xs ns s
accept-columns xs (for_all n) s = fill-columns xs (max n 1) s

postprocess_align-columns :
    (b : ℕ) (computed : ℕ → ℕ) (snapshot : Hybrid) (xs : List ℤ) (s : Hybrid)
    → (postprocess_align b computed snapshot xs s).0.state_idx ≡ s.state_idx
unfolding postprocess_align
postprocess_align-columns b computed snapshot [] s = refl
postprocess_align-columns b computed snapshot (negsuc n ∷ xs) s =
    postprocess_align-columns b computed snapshot xs s
postprocess_align-columns b computed snapshot (pos i ∷ xs) s =
    postprocess_align-columns b computed snapshot xs _

pub postprocess_state-columns :
    (b : ℕ) (xs : List ℤ) (n : NumSampled) (computed : Option (ℕ → ℕ)) (s : Hybrid)
    → (postprocess_state b xs n computed s).0.state_idx ≡ s.state_idx
unfolding postprocess_state
postprocess_state-columns b [] n computed s = refl
postprocess_state-columns b (x ∷ xs) n none s = accept-columns (x ∷ xs) n s
postprocess_state-columns b (x ∷ xs) n (some computed) s =
    let s' = accept (x ∷ xs) n s in
    let q = accept-columns (x ∷ xs) n s in
    elim (Bool-cases s'.has_ctx) [
      | inl e ↦ rw e (postprocess_align-columns b computed s' (x ∷ xs) s' ∙ q)
      | inr e ↦ rw e q
    ]

pub align_rows-Positive :
    (b : ℕ) (computed : ℕ → ℕ) (rs : List Row) (s : Hybrid)
    → Positive s
    → Positive (align_rows b computed rs s)
unfolding align_rows
align_rows-Positive b computed [] s p = p
align_rows-Positive b computed (r ∷ rs) s p =
    align_rows-Positive b computed rs (align_row b computed r s)
      (align_row-Positive b computed r s p)

-- No row of the batch has slot `i`.
abbrev pub Apart : ℕ → List Row → Type 0
Apart i rs = All (λ r. i ≢ r.slot) rs

-- Two states agree on slot `i`.
pub record SameSlot (i : ℕ) (s t : Hybrid) : Type 0 where
  pub accepted : s.num_accepted i ≡ t.num_accepted i
  pub column : s.state_idx i ≡ t.state_idx i
  pub source : s.src_col i ≡ t.src_col i
  pub offset : s.src_off i ≡ t.src_off i

same_trans : (i : ℕ) (s t u : Hybrid) → SameSlot i s t → SameSlot i t u → SameSlot i s u
same_trans i s t u a b = record {
  accepted = a.accepted ∙ b.accepted;
  column = a.column ∙ b.column;
  source = a.source ∙ b.source;
  offset = a.offset ∙ b.offset;
}

align_row-SameSlot :
    (b : ℕ) (computed : ℕ → ℕ) (r : Row) (s : Hybrid) (i : ℕ)
    → i ≢ r.slot
    → SameSlot i (align_row b computed r s) s
unfolding align_row
align_row-SameSlot b computed r s i h = record {
  accepted = put_other r.slot _ s.num_accepted i h;
  column = put_other r.slot _ s.state_idx i h;
  source = put_other r.slot _ s.src_col i h;
  offset = put_other r.slot _ s.src_off i h;
}

pub align_rows-SameSlot :
    (b : ℕ) (computed : ℕ → ℕ) (rs : List Row) (s : Hybrid) (i : ℕ)
    → Apart i rs
    → SameSlot i (align_rows b computed rs s) s
unfolding align_rows
align_rows-SameSlot b computed [] s i h = record {
  accepted = refl;
  column = refl;
  source = refl;
  offset = refl;
}
align_rows-SameSlot b computed (r ∷ rs) s i (h, hs) =
    same_trans i _ (align_row b computed r s) s
      (align_rows-SameSlot b computed rs (align_row b computed r s) i hs)
      (align_row-SameSlot b computed r s i h)

pub align_rows-append :
    (b : ℕ) (computed : ℕ → ℕ) (xs ys : List Row) (s : Hybrid)
    → align_rows b computed (xs ++ ys) s ≡ align_rows b computed ys (align_rows b computed xs s)
unfolding align_rows
align_rows-append b computed [] ys s = refl
align_rows-append b computed (x ∷ xs) ys s =
    align_rows-append b computed xs ys (align_row b computed x s)

-- What its own lane leaves for a row.
pub align_row_self :
    (b : ℕ) (computed : ℕ → ℕ) (r : Row) (s : Hybrid)
    → let t = align_row b computed r s in
      let n = computed r.slot + r.query_len in
      0 < b
      → (t.state_idx r.slot ≡ last_block b n)
        × (t.src_col r.slot ≡ s.state_idx r.slot)
        × (t.src_off r.slot ≡ s.num_accepted r.slot - 1)
        × (t.num_accepted r.slot ≡ (
            if not (is_negative (s.state_idx r.slot))
              && not (s.state_idx r.slot ==ℤ t.state_idx r.slot)
            then 1
            else s.num_accepted r.slot))
unfolding align_row preprocess_align
align_row_self b computed r s h = (
  put_self r.slot _ s.state_idx ∙ align_column b (computed r.slot + r.query_len) h,
  put_self r.slot _ s.src_col,
  put_self r.slot _ s.src_off,
  ground arith,
)
