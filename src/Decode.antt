-- ===== src/Decode.antt =====
-- The decode rows of the sparse indexer: the tensors of
-- vllm/v1/attention/backends/mla/indexer.py `_prepare_decode_tensors`, and the padded layout of
-- vllm/model_executor/layers/sparse_attn_indexer_kpool.py (Decode/Scatter).
pub mod Scatter
pub mod Lists
pub mod Uniform
pub mod Layouts
pub mod Agree
pub mod Grid
pub mod Topk
pub mod Tests
use glm53flash_pp.Base.{
  ℕ, zero, suc, ◌+◌, ◌-◌, ◌*◌, ◌/◌, ◌%◌, min, max, List, [], ◌∷◌, map, Option, none, some, ◌>>=◌,
  Bool, true, false, not, ◌&&◌, ◌||◌, ltb, leb, ◌==◌, if◌then◌else◌, length, get_or, columns, ℤ,
  pos, sub_ℕ, ◌+ℤ◌,
}
use glm53flash_pp.TailRing.Slots.{repeat_interleave}
use glm53flash_pp.Speculator.{Tensor, store, store_range}

-- The buffers of the builder; a context length is the integer that the code computes.
pub record Buffers : Type 0 where
  pub decode_seq_lens : ℕ → ℤ
  pub expanded_block_table : Tensor
  pub decode_lens : Tensor

-- The batch: a request's entries by its row, and the block table with its stride.
pub record Batch : Type 0 where
  pub seq_lens : Tensor
  pub query_start_loc : Tensor
  pub decode_lens : List ℕ
  pub block_table : Tensor
  pub block_table_stride : ℕ
  pub num_decode_tokens : ℕ

-- The constants of the builder.
pub record Builder : Type 0 where
  pub expanded_stride : ℕ
  pub block_size : ℕ
  pub supports_varlen : Bool

abbrev pub num_decodes : Batch → ℕ
num_decodes b = length b.decode_lens

-- `decode_lens_cpu.sum()`, `.min()` and `.max()`
abbrev pub sum : List ℕ → ℕ
sum [] = 0
sum (n ∷ ns) = n + sum ns

abbrev pub minimum : List ℕ → ℕ
minimum [] = 0
minimum (n ∷ []) = n
minimum (n ∷ k ∷ ns) = min n (minimum (k ∷ ns))

-- The program `idx` of `_prepare_uniform_decode_kernel`.
unfoldable pub uniform_program : Builder → Batch → ℕ → Buffers → ℕ → Buffers
unfolding store_range
uniform_program k b max_decode_len d idx =
    let req_id = idx / max_decode_len in
    let local_idx = idx % max_decode_len in
    record {
      decode_seq_lens = λ p.
          if p == idx
          then sub_ℕ (b.seq_lens req_id + local_idx + 1) max_decode_len
          else d.decode_seq_lens p;
      expanded_block_table =
          store_range k.block_size 0 (idx * k.expanded_stride) k.expanded_stride
            (λ p. b.block_table (req_id * b.block_table_stride + (p - idx * k.expanded_stride)))
            d.expanded_block_table;
      decode_lens = store idx 1 d.decode_lens;
    }

-- its first `n` programs
unfoldable pub uniform_launch : Builder → Batch → ℕ → ℕ → Buffers → Buffers
unfolding uniform_program
uniform_launch k b max_decode_len zero d = d
uniform_launch k b max_decode_len (suc n) d =
    uniform_program k b max_decode_len (uniform_launch k b max_decode_len n d) n

unfoldable pub prepare_uniform : Builder → Batch → ℕ → Buffers → Buffers
unfolding uniform_launch
prepare_uniform k b max_decode_len d =
    let d' = uniform_launch k b max_decode_len b.num_decode_tokens d in
    record d' {
      decode_seq_lens = λ p. if leb b.num_decode_tokens p then pos 0 else d'.decode_seq_lens p;
    }

-- `seq_lens - decode_lens - query_start_loc`
abbrev pub offsets : Tensor → Batch → List ℤ
offsets seq_lens b =
    columns (num_decodes b)
      (λ r. sub_ℕ (seq_lens r) (get_or b.decode_lens r 0 + b.query_start_loc r))

-- the lengths of the flattened rows, `expanded_offsets + arange + 1`
abbrev pub row_len : List ℤ → ℕ → ℤ
row_len expanded_offsets i = get_or expanded_offsets i (pos 0) +ℤ pos (i + 1)

unfoldable pub prepare_varlen : Builder → Batch → Buffers → Option Buffers
prepare_varlen k b d = do
  let actual_expanded = sum b.decode_lens
  expanded_offsets ← repeat_interleave (offsets b.seq_lens b) b.decode_lens
  owners ← repeat_interleave (columns (num_decodes b) (λ r. r)) b.decode_lens
  some (record {
    decode_seq_lens = λ i. if ltb i actual_expanded then row_len expanded_offsets i else pos 0;
    expanded_block_table = λ p.
        let i = p / k.expanded_stride in
        let c = p % k.expanded_stride in
        if ltb i actual_expanded
        then b.block_table (get_or owners i 0 * b.block_table_stride + c)
        else if ltb i b.num_decode_tokens && (c == 0)
        then 0
        else d.expanded_block_table p;
    decode_lens = λ i. if ltb i b.num_decode_tokens then 1 else d.decode_lens i;
  })

-- the two-dimensional lengths of the native path, flattened
unfoldable pub prepare_native : Batch → ℕ → Buffers → Buffers
prepare_native b max_decode_len d = record d {
  decode_seq_lens = λ p.
      if ltb p (num_decodes b * max_decode_len)
      then sub_ℕ (b.seq_lens (p / max_decode_len) + 1 + p % max_decode_len) max_decode_len
      else d.decode_seq_lens p;
}

-- The buffers that the caller reads the tensors from, `batch_size` and `requires_padding`.
pub record Prepared : Type 0 where
  pub buffers : Buffers
  pub batch_size : ℕ
  pub requires_padding : Bool

unfoldable pub prepare_decode_tensors : Builder → Batch → Bool → ℕ → ℕ → Buffers → Option Prepared
unfolding prepare_uniform prepare_varlen prepare_native
prepare_decode_tensors k b use_native next_n max_decode_len d =
    let min_decode_len = minimum b.decode_lens in
    if not use_native
    then (if not k.supports_varlen
          && (min_decode_len == max_decode_len)
          && (num_decodes b * max_decode_len == b.num_decode_tokens)
        then some (record {
          buffers = prepare_uniform k b max_decode_len d;
          batch_size = b.num_decode_tokens;
          requires_padding = false;
        })
        else (prepare_varlen k b d >>= λ d'.
            some (record {
              buffers = d';
              batch_size = b.num_decode_tokens;
              requires_padding = false;
            })))
    else some (record {
      buffers = if ltb 1 next_n then prepare_native b max_decode_len d else d;
      batch_size = num_decodes b;
      requires_padding = not (min_decode_len == max_decode_len);
    })

-- `_prepare_global_decode_seq_lens` where global lengths are given: the buffer up to the padded
-- number of tokens, or the lengths themselves.
unfoldable pub prepare_global_decode_seq_lens : Tensor → Batch → Bool → ℕ → (ℕ → ℤ) → Option (ℕ → ℤ)
prepare_global_decode_seq_lens global_seq_lens b use_native max_decode_len buffer =
    if use_native || leb max_decode_len 1 then some (λ r. pos (global_seq_lens r)) else (do
      let actual_expanded = sum b.decode_lens
      expanded_offsets ← repeat_interleave (offsets global_seq_lens b) b.decode_lens
      some (λ i.
          if ltb i actual_expanded
          then row_len expanded_offsets i
          else if ltb i b.num_decode_tokens
          then pos 0
          else buffer i))

-- `_build_varlen_decode_indices`
unfoldable pub build_varlen_decode_indices : Batch → Option Tensor
build_varlen_decode_indices b = do
  let actual_expanded = sum b.decode_lens
  owners ← repeat_interleave (columns (num_decodes b) (λ r. r)) b.decode_lens
  some (λ i.
      if ltb i actual_expanded then get_or owners i 0 else num_decodes b + (i - actual_expanded))
