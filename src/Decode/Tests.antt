-- ===== src/Decode/Tests.antt =====
-- Runs and witnesses for the decode rows of the sparse indexer.
use glm53flash_pp.Base.{
  ℕ, zero, suc, ◌*◌, ◌<◌, ◌≡◌, refl, arith, List, [], ◌∷◌, map, some, true, false, get_or,
  get_elem?, ℤ, pos, to_int32,
}
use glm53flash_pp.Speculator.{Tensor}
use glm53flash_pp.Decode.{
  Prepared, prepare_decode_tensors, Buffers, Batch, Builder, prepare_uniform,
}
use glm53flash_pp.Decode.Layouts.{SameRow}
use glm53flash_pp.Decode.Agree.{with_varlen, prepare_decode_tensors-SameRow}
use glm53flash_pp.Decode.Scatter.{decode_topk_seq_lens}
use glm53flash_pp.Decode.Topk.{row_of, decode_topk_seq_lens-row_of}

abbrev tensor : List ℕ → Tensor
tensor xs i = get_or xs i 0

abbrev pub builder : Builder
builder = record { expanded_stride = 3; block_size = 2; supports_varlen = false }

-- Two requests with two decode tokens each, in a block table with three columns.
abbrev pub batch : Batch
batch = record {
  seq_lens = tensor (10 ∷ 7 ∷ []);
  query_start_loc = tensor (0 ∷ 2 ∷ 4 ∷ []);
  decode_lens = 2 ∷ 2 ∷ [];
  block_table = tensor (1 ∷ 2 ∷ 3 ∷ 4 ∷ 5 ∷ 6 ∷ []);
  block_table_stride = 3;
  num_decode_tokens = 4;
}

abbrev pub buffers : Buffers
buffers = record {
  decode_seq_lens = λ i. pos 99;
  expanded_block_table = λ i. 99;
  decode_lens = λ i. 99;
}

uniform_run :
    map (prepare_uniform builder batch 2 buffers).decode_seq_lens (0 ∷ 1 ∷ 2 ∷ 3 ∷ 4 ∷ [])
    ≡ pos 9 ∷ pos 10 ∷ pos 6 ∷ pos 7 ∷ pos 0 ∷ []
unfolding prepare_uniform
uniform_run = refl

batch-starts : (r : ℕ) → r < 2 → batch.query_start_loc r ≡ r * 2
batch-starts zero h = refl
batch-starts (suc zero) h = refl
batch-starts (suc (suc r)) h = absurd (omega arith)

prepare_decode_tensors-SameRow_example :
    (u : Prepared) × (v : Prepared) × (w : Prepared) × (prepare_decode_tensors
        (with_varlen false builder)
        batch
        false
        2
        2
        buffers
      ≡ some u)
    × (prepare_decode_tensors (with_varlen true builder) batch false 2 2 buffers ≡ some v)
    × (prepare_decode_tensors builder batch true 2 2 buffers ≡ some w)
    × SameRow builder 3 2 u.buffers v.buffers
    × (w.buffers.decode_seq_lens 3 ≡ v.buffers.decode_seq_lens 3)
    × (w.requires_padding ≡ false)
prepare_decode_tensors-SameRow_example =
    prepare_decode_tensors-SameRow builder batch 1 2
      (record { lens = refl; starts = batch-starts; tokens = refl }) buffers 2 1 1 2 (omega arith)
      (omega arith) (omega arith) (omega arith) (omega arith)

-- Three requests with 3, 1 and 2 tokens; the last position is a prefill token's.
abbrev pub positions : List ℕ
positions = 7 ∷ 8 ∷ 9 ∷ 4 ∷ 20 ∷ 21 ∷ 0 ∷ []

topk_run :
    decode_topk_seq_lens positions (3 ∷ 1 ∷ 2 ∷ []) 6 3 3 true
    ≡ some (pos 8 ∷ pos 9 ∷ pos 10 ∷ pos 5 ∷ pos 0 ∷ pos 0 ∷ pos 21 ∷ pos 22 ∷ pos 0 ∷ [])
unfolding decode_topk_seq_lens to_int32
topk_run = refl

decode_topk_seq_lens-row_of_example :
    (rows : List ℤ) × (decode_topk_seq_lens positions (3 ∷ 1 ∷ 2 ∷ []) 6 3 3 true ≡ some rows)
    × (get_elem? rows 7 ≡ some (row_of positions (3 ∷ 1 ∷ 2 ∷ []) 2 1))
decode_topk_seq_lens-row_of_example =
    decode_topk_seq_lens-row_of positions (3 ∷ 1 ∷ 2 ∷ []) 3 true 2 1 (omega arith) (omega arith)
      (omega arith) (omega arith) (omega arith) (λ e. absurd cc)
