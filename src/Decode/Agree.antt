-- ===== src/Decode/Agree.antt =====
-- vllm/v1/attention/backends/mla/indexer.py: `_prepare_decode_tensors` as a whole, on requests of
-- one decode length.
use glm53flash_pp.Base.{
  ℕ, zero, suc, ◌+◌, ◌*◌, ◌<◌, ◌≡◌, refl, ap, sym, ◌∙◌, arith, some, ◌>>=◌, Bool, true, false, ◌==◌,
  replicate, min,
}
use glm53flash_pp.Decode.{
  Buffers, Batch, Builder, Prepared, num_decodes, minimum, prepare_uniform, prepare_varlen,
  prepare_native, prepare_decode_tensors,
}
use glm53flash_pp.Decode.Layouts.{IsUniform, SameRow, requests, uniform-varlen}

abbrev pub with_varlen : Bool → Builder → Builder
with_varlen supported k = record k { supports_varlen = supported }

-- The flattened result: a row for each token.
abbrev flat : Batch → Buffers → Prepared
flat b d = record { buffers = d; batch_size = b.num_decode_tokens; requires_padding = false }

minimum-replicate : (n m : ℕ) → minimum (replicate (suc n) m) ≡ m
minimum-replicate zero m = refl
minimum-replicate (suc n) m = ap (min m) (minimum-replicate n m) ∙ omega arith

varlen-with_varlen :
    (k : Builder) (s : Bool) (b : Batch) (d : Buffers)
    → prepare_varlen (with_varlen s k) b d ≡ prepare_varlen k b d
unfolding prepare_varlen
varlen-with_varlen k s b d = refl

module _ (k : Builder) (b : Batch) (n m : ℕ) (uniform : IsUniform b (suc n) m) where
  shortest : minimum b.decode_lens ≡ m
  shortest = ap minimum uniform.lens ∙ minimum-replicate n m

  full : (num_decodes b * m == b.num_decode_tokens) ≡ true
  full = ground (arith, uniform.tokens, ap (λ x. x * m) (requests k b (suc n) m uniform))

  by_kernel :
      (next_n : ℕ) (d : Buffers)
      → prepare_decode_tensors (with_varlen false k) b false next_n m d
        ≡ some (flat b (prepare_uniform (with_varlen false k) b m d))
  unfolding prepare_decode_tensors
  by_kernel next_n d = rw (shortest, full) (ground arith)

  by_varlen :
      (next_n : ℕ) (d : Buffers)
      → prepare_decode_tensors (with_varlen true k) b false next_n m d
        ≡ (prepare_varlen (with_varlen false k) b d >>= λ d'. some (flat b d'))
  unfolding prepare_decode_tensors
  by_varlen next_n d =
      ap (λ o. o >>= λ d'. some (flat b d'))
        (varlen-with_varlen k true b d ∙ sym (varlen-with_varlen k false b d))

  by_native :
      (next_n : ℕ) (d : Buffers)
      → 1 < next_n
      → prepare_decode_tensors k b true next_n m d
        ≡ some (record {
          buffers = prepare_native b m d;
          batch_size = num_decodes b;
          requires_padding = false;
        })
  unfolding prepare_decode_tensors
  by_native next_n d h = rw shortest (ground arith)

  -- For requests that all have `m` decode tokens, without padding, `_prepare_decode_tensors` returns
  -- on each of its paths. The kernel (no support for variable lengths) and the path for variable
  -- lengths give each token the same context length, the same row of the block table and a decode
  -- length of 1; the two-dimensional path gives it the same context length and needs no padding.
  pub prepare_decode_tensors-SameRow :
      (d : Buffers) (next_n r t c : ℕ)
      → 0 < k.block_size
      → 1 < next_n
      → r < suc n
      → t < m
      → c < k.expanded_stride
      → (u : Prepared) × (v : Prepared) × (w : Prepared) × (prepare_decode_tensors
            (with_varlen false k)
            b
            false
            next_n
            m
            d
          ≡ some u)
        × (prepare_decode_tensors (with_varlen true k) b false next_n m d ≡ some v)
        × (prepare_decode_tensors k b true next_n m d ≡ some w)
        × SameRow k (r * m + t) c u.buffers v.buffers
        × (w.buffers.decode_seq_lens (r * m + t) ≡ v.buffers.decode_seq_lens (r * m + t))
        × (w.requires_padding ≡ false)
  prepare_decode_tensors-SameRow d next_n r t c block many h l i =
      let (v, ran, same, native) =
        uniform-varlen (with_varlen false k) b (suc n) m uniform d r t c block h l i in
      (
        _,
        _,
        _,
        by_kernel next_n d,
        by_varlen next_n d ∙ ap (λ o. o >>= λ d'. some (flat b d')) ran,
        by_native next_n d many,
        same,
        native,
        refl,
      )
