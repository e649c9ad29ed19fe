-- ===== src/Decode/Layouts.antt =====
-- vllm/v1/attention/backends/mla/indexer.py: the three ways in which `_prepare_decode_tensors`
-- lays out requests of one decode length.
use glm53flash_pp.Base.{
  ℕ, zero, suc, ◌+◌, ◌*◌, ◌<◌, ◌≡◌, refl, ap, ap₂, sym, ◌∙◌, arith, some, true, ltb, lt→ltb, length,
  get_or, get_elem?, columns, replicate, pos, sub_ℕ, ◌+ℤ◌, length-columns, length-replicate,
  get_elem?-append_left, get_elem?-append_right,
}
use glm53flash_pp.TailRing.Mapping.{expanded, repeat_interleave-expanded, get_elem?-replicate}
use glm53flash_pp.Decode.Lists.{get_or-some, get_or-replicate, sum-replicate}
use glm53flash_pp.Decode.Uniform.{div_cell, mod_cell, row_before, uniform_row}
use glm53flash_pp.Decode.{
  Buffers, Batch, Builder, num_decodes, sum, prepare_uniform, offsets, row_len, prepare_varlen,
  prepare_native,
}

-- Entry `r * m + t` of a list that is repeated `m` times each.
repeated :
    {A : Type 0} (n m : ℕ) (f : ℕ → A) (r t : ℕ)
    → r < n
    → t < m
    → get_elem? (expanded (columns n f) (replicate n m)) (r * m + t) ≡ some (f r)
repeated zero m f r t h l = absurd (omega arith)
repeated (suc n) m f zero t h l =
    let z : zero * m + t ≡ t = omega arith in
    rw z (
      get_elem?-append_left (replicate m (f 0))
        (expanded (columns n (λ i. f (suc i))) (replicate n m)) t
        (omega (arith, length-replicate m (f 0)))
      ∙ get_elem?-replicate m (f 0) t l)
repeated (suc n) m f (suc r) t h l =
    get_elem?-append_right (replicate m (f 0))
      (expanded (columns n (λ i. f (suc i))) (replicate n m)) (suc r * m + t) (r * m + t)
      (omega (arith, length-replicate m (f 0)))
    ∙ repeated n m (λ i. f (suc i)) r t (omega arith) l

-- the length of a row, both ways
same_len : (s m q t : ℕ) → sub_ℕ s (m + q) +ℤ pos (q + t + 1) ≡ sub_ℕ (s + t + 1) m
same_len s m q t = ground arith

-- A batch whose `n` requests have `m` decode tokens each, without padding.
pub record IsUniform (b : Batch) (n m : ℕ) : Type 0 where
  pub lens : b.decode_lens ≡ replicate n m
  pub starts : (r : ℕ) → r < n → b.query_start_loc r ≡ r * m
  pub tokens : b.num_decode_tokens ≡ n * m

-- Row `i` of the two results, up to column `c` of the block table.
abbrev pub SameRow : Builder → ℕ → ℕ → Buffers → Buffers → Type 0
SameRow k i c d e =
    (d.decode_seq_lens i ≡ e.decode_seq_lens i)
    × (d.expanded_block_table (i * k.expanded_stride + c)
        ≡ e.expanded_block_table (i * k.expanded_stride + c))
    × (d.decode_lens i ≡ e.decode_lens i)

module _ (k : Builder) (b : Batch) (n m : ℕ) (uniform : IsUniform b n m) where
  pub requests : num_decodes b ≡ n
  requests = ap length uniform.lens ∙ length-replicate n m

  row_in : (r t : ℕ) → r < n → t < m → r * m + t < n * m
  row_in r t h l = row_before r n m t h l

  fits : {A : Type 0} (f : ℕ → A) → length (columns (num_decodes b) f) ≡ length b.decode_lens
  fits f = length-columns (num_decodes b) f

  at :
      {A : Type 0} (f : ℕ → A) (o : A) (r t : ℕ)
      → r < n
      → t < m
      → get_or (expanded (columns (num_decodes b) f) b.decode_lens) (r * m + t) o ≡ f r
  at f o r t h l =
      ap₂ (λ x ls. get_or (expanded (columns x f) ls) (r * m + t) o) requests uniform.lens
      ∙ get_or-some (expanded (columns n f) (replicate n m)) (r * m + t) o (repeated n m f r t h l)

  row_length :
      (r t : ℕ)
      → r < n
      → t < m
      → row_len (expanded (offsets b.seq_lens b) b.decode_lens) (r * m + t)
        ≡ sub_ℕ (b.seq_lens r + t + 1) m
  row_length r t h l =
      ap (λ x. x +ℤ pos (r * m + t + 1))
        (at (λ x. sub_ℕ (b.seq_lens x) (get_or b.decode_lens x 0 + b.query_start_loc x)) (pos 0) r t
          h l)
      ∙ ap₂ (λ x y. sub_ℕ (b.seq_lens r) (x + y) +ℤ pos (r * m + t + 1))
          (ap (λ ls. get_or ls r 0) uniform.lens ∙ get_or-replicate n m r h) (uniform.starts r h)
      ∙ same_len (b.seq_lens r) m (r * m) t

  varlen_row :
      (d : Buffers) (r t c : ℕ)
      → r < n
      → t < m
      → c < k.expanded_stride
      → (v : Buffers) × (prepare_varlen k b d ≡ some v)
        × (v.decode_seq_lens (r * m + t) ≡ sub_ℕ (b.seq_lens r + t + 1) m)
        × (v.expanded_block_table ((r * m + t) * k.expanded_stride + c)
            ≡ b.block_table (r * b.block_table_stride + c))
        × (v.decode_lens (r * m + t) ≡ 1)
  unfolding prepare_varlen
  varlen_row d r t c h l i =
      let token = row_in r t h l in
      let total : sum b.decode_lens ≡ n * m = ap sum uniform.lens ∙ sum-replicate n m in
      let inside : ltb (r * m + t) (sum b.decode_lens) ≡ true =
        lt→ltb (r * m + t) (sum b.decode_lens) (omega arith) in
      let inside' : ltb (r * m + t) b.num_decode_tokens ≡ true =
        lt→ltb (r * m + t) b.num_decode_tokens (omega (arith, uniform.tokens)) in
      rw
        (
          repeat_interleave-expanded (offsets b.seq_lens b) b.decode_lens (fits _),
          repeat_interleave-expanded (columns (num_decodes b) (λ x. x)) b.decode_lens
              (fits (λ x. x)),
        )
        (
          _,
          refl,
          rw inside (row_length r t h l),
          rw
              (
                div_cell (r * m + t) k.expanded_stride c i,
                mod_cell (r * m + t) k.expanded_stride c i,
                inside,
              )
              (ap (λ x. b.block_table (x * b.block_table_stride + c)) (at (λ x. x) 0 r t h l)),
          rw inside' refl,
        )

  -- For a batch whose requests all have `m` decode tokens, the kernel, the path for variable lengths
  -- and the two-dimensional path give each token the same context length, and the first two give it
  -- the same row of the block table and a decode length of 1.
  pub uniform-varlen :
      (d : Buffers) (r t c : ℕ)
      → 0 < k.block_size
      → r < n
      → t < m
      → c < k.expanded_stride
      → (v : Buffers) × (prepare_varlen k b d ≡ some v)
        × SameRow k (r * m + t) c (prepare_uniform k b m d) v
        × ((prepare_native b m d).decode_seq_lens (r * m + t) ≡ v.decode_seq_lens (r * m + t))
  unfolding prepare_native
  uniform-varlen d r t c block h l i =
      let (v, ran, len, row, one) = varlen_row d r t c h l i in
      let token = row_in r t h l in
      let (len', row', one') =
        uniform_row k b m block d (r * m + t) c (omega (arith, uniform.tokens)) i in
      let inside : ltb (r * m + t) (num_decodes b * m) ≡ true =
        lt→ltb (r * m + t) (num_decodes b * m) (omega (arith, ap (λ x. x * m) requests)) in
      let swap : b.seq_lens r + 1 + t ≡ b.seq_lens r + t + 1 = omega arith in
      let quotient = div_cell r m t l in
      let remainder = mod_cell r m t l in
      (
        v,
        ran,
        (
          len' ∙ ap₂ (λ x y. sub_ℕ (b.seq_lens x + y + 1) m) quotient remainder ∙ sym len,
          row' ∙ ap (λ x. b.block_table (x * b.block_table_stride + c)) quotient ∙ sym row,
          one' ∙ sym one,
        ),
        rw (inside, quotient, remainder, swap) (sym len),
      )
