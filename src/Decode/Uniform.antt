-- ===== src/Decode/Uniform.antt =====
-- vllm/v1/attention/backends/mla/indexer.py: a launch of `_prepare_uniform_decode_kernel`.
use glm53flash_pp.Base.{
  ℕ, zero, suc, ◌+◌, ◌-◌, ◌*◌, ◌/◌, ◌%◌, ◌<◌, ◌≡◌, refl, ap, subst, ◌∙◌, inl, arith, true, false,
  leb, ◌==◌, sub_ℕ,
}
use native.Mathlib.Decide.{dec_lt}
use native.Mathlib.Nat.{
  mul-le-mul_right, mul-add-div_right, mul-add-mod_self_right, div-eq_of_lt, mod-eq_of_lt,
}
use glm53flash_pp.Speculator.Lanes.{store_self, store_other, range_inside, range_outside}
use glm53flash_pp.Decode.{Buffers, Batch, Builder, uniform_program, uniform_launch, prepare_uniform}

pub div_cell : (r m t : ℕ) → t < m → (r * m + t) / m ≡ r
div_cell r m t h =
    mul-add-div_right {m = m} (omega arith) r t ∙ ap (λ x. r + x) (div-eq_of_lt h) ∙ omega arith

pub mod_cell : (r m t : ℕ) → t < m → (r * m + t) % m ≡ t
mod_cell r m t h = mul-add-mod_self_right r m t ∙ mod-eq_of_lt h

-- A cell of an earlier row is before a later row.
pub row_before : (i n w c : ℕ) → i < n → c < w → i * w + c < n * w
row_before i n w c h l = omega (arith, mul-le-mul_right {m = i + 1} {n = n} w (omega arith))

-- What the program of row `i` stores.
abbrev pub HasRow : Builder → Batch → ℕ → ℕ → ℕ → Buffers → Type 0
HasRow k b m i c d =
    (d.decode_seq_lens i ≡ sub_ℕ (b.seq_lens (i / m) + i % m + 1) m)
    × (d.expanded_block_table (i * k.expanded_stride + c)
        ≡ b.block_table (i / m * b.block_table_stride + c))
    × (d.decode_lens i ≡ 1)

module _ (k : Builder) (b : Batch) (m : ℕ) (block : 0 < k.block_size) where
  own_row :
      (d : Buffers) (i c : ℕ) → c < k.expanded_stride → HasRow k b m i c (uniform_program k b m d i)
  unfolding uniform_program
  own_row d i c h =
      let here : (i == i) ≡ true = ground arith in
      let e : i * k.expanded_stride + c - i * k.expanded_stride ≡ c = omega arith in
      (
        rw here refl,
        range_inside k.block_size (i * k.expanded_stride) k.expanded_stride
              (λ p. b.block_table (i / m * b.block_table_stride + (p - i * k.expanded_stride)))
              d.expanded_block_table (i * k.expanded_stride + c) block (omega arith) (omega arith)
            ∙ ap (λ x. b.block_table (i / m * b.block_table_stride + x)) e,
        store_self i i 1 d.decode_lens refl,
      )

  other_row :
      (d : Buffers) (i n c : ℕ)
      → i < n
      → c < k.expanded_stride
      → HasRow k b m i c d
      → HasRow k b m i c (uniform_program k b m d n)
  unfolding uniform_program
  other_row d i n c h l (len, row, one) =
      let there : (i == n) ≡ false = ground arith in
      (
        rw there len,
        range_outside k.block_size (n * k.expanded_stride) k.expanded_stride
              (λ p. b.block_table (n / m * b.block_table_stride + (p - n * k.expanded_stride)))
              d.expanded_block_table (i * k.expanded_stride + c) block
              (inl (row_before i n k.expanded_stride c h l))
            ∙ row,
        store_other n i 1 d.decode_lens (λ e. absurd (omega arith)) ∙ one,
      )

  launched :
      (n : ℕ) (d : Buffers) (i c : ℕ)
      → i < n
      → c < k.expanded_stride
      → HasRow k b m i c (uniform_launch k b m n d)
  unfolding uniform_launch
  launched zero d i c h l = absurd (omega arith)
  launched (suc n) d i c h l = elim (dec_lt i n) [
    | yes y ↦ other_row (uniform_launch k b m n d) i n c y l (launched n d i c y l)
    | no y ↦
        let e : i ≡ n = omega arith in
        subst (λ x. HasRow k b m i c (uniform_program k b m (uniform_launch k b m n d) x)) e
          (own_row (uniform_launch k b m n d) i c l)
  ]

  pub uniform_row :
      (d : Buffers) (i c : ℕ)
      → i < b.num_decode_tokens
      → c < k.expanded_stride
      → HasRow k b m i c (prepare_uniform k b m d)
  unfolding prepare_uniform
  uniform_row d i c h l =
      let inside : leb b.num_decode_tokens i ≡ false = ground arith in
      let (len, row, one) = launched b.num_decode_tokens d i c h l in (rw inside len, row, one)
