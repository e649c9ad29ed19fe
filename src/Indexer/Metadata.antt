-- ===== src/Indexer/Metadata.antt =====
-- vllm/v1/attention/backends/mla/indexer.py: `BuildPrefillChunkMetadataKernel.kernel`, the row
-- bounds and the owners of the keys of one prefill chunk. An output tensor is a function from
-- positions to values.
use glm53flash_pp.Base.{
  ℕ, zero, suc, ◌+◌, ◌-◌, ◌*◌, ◌/◌, min, List, [], ◌∷◌, ◌&&◌, ltb, leb, if◌then◌else◌,
}

-- The length of a context of `len` keys on rank `rank`, of `world` ranks that take turns with
-- `interleave` keys each. A subtraction that stops at 0 is the source's maximum with 0.
unfoldable pub local_context : ℕ → ℕ → ℕ → ℕ → ℕ
local_context rank world interleave len =
    let base = len / interleave / world * interleave in
    let remainder = len - base * world in
    if ltb 1 world then base + min (remainder - rank * interleave) interleave else len

-- What a program loads for its request.
pub record RequestRow : Type 0 where
  pub batch_idx : ℕ
  pub query_start : ℕ
  pub query_end : ℕ
  pub seq_start : ℕ
  pub seq_end : ℕ
  pub row_start : ℕ
  pub uncompressed_seq_len : ℕ

pub record Bounds : Type 0 where
  pub cu_seqlen_ks : ℕ → ℕ
  pub cu_seqlen_ke : ℕ → ℕ
  pub token_to_seq : ℕ → ℕ

-- A masked store of `value` at the positions from `lo` to `hi`; the tensor starts at `origin`.
unfoldable pub store_lanes : ℕ → ℕ → ℕ → (ℕ → ℕ) → (ℕ → ℕ) → ℕ → ℕ
store_lanes origin lo hi value out p =
    if leb lo (p + origin) && ltb (p + origin) hi then value (p + origin) else out p

-- `for i in range(0, len, BLOCK_SIZE)`, the lanes from `start + i` on that are below `stop`. The
-- fuel is the number of rounds left.
unfoldable pub store_loop : ℕ → ℕ → ℕ → ℕ → ℕ → ℕ → ℕ → (ℕ → ℕ) → (ℕ → ℕ) → ℕ → ℕ
store_loop zero block origin stop start i len value out = out
store_loop (suc fuel) block origin stop start i len value out =
    let rest =
      store_loop fuel block origin stop start (i + block) len value
        (store_lanes origin (start + i) (min (start + min (i + block) len) stop) value out) in
    if ltb i len then rest else out

-- The constants of a launch.
pub record Config : Type 0 where
  pub slice_start : ℕ
  pub slice_stop : ℕ
  pub dcp_rank : ℕ
  pub dcp_world : ℕ
  pub dcp_interleave : ℕ
  pub block_size : ℕ
  pub compress_ratio : ℕ

-- The end of the row of the query at absolute position `abs`.
unfoldable pub row_end : Config → RequestRow → ℕ → ℕ
row_end k r abs =
    let start_pos = r.uncompressed_seq_len - (r.query_end - r.query_start) in
    let global_ctx = start_pos + 1 + (abs - r.query_start) in
    r.row_start
    + local_context k.dcp_rank k.dcp_world k.dcp_interleave (global_ctx / k.compress_ratio)

-- The program of one request.
unfoldable pub build_row : Config → Bounds → RequestRow → Bounds
build_row k b r =
    let query_len = r.query_end - r.query_start in
    let seq_len = r.seq_end - r.seq_start in
    record {
      cu_seqlen_ks =
          store_loop query_len k.block_size k.slice_start k.slice_stop r.query_start 0 query_len
            (λ abs. r.row_start) b.cu_seqlen_ks;
      cu_seqlen_ke =
          store_loop query_len k.block_size k.slice_start k.slice_stop r.query_start 0 query_len
            (row_end k r) b.cu_seqlen_ke;
      token_to_seq =
          store_loop seq_len k.block_size 0 r.seq_end r.seq_start 0 seq_len (λ abs. r.batch_idx)
            b.token_to_seq;
    }

-- A launch, its programs in the order in which they happen to run.
unfoldable pub build_rows : Config → Bounds → List RequestRow → Bounds
build_rows k b [] = b
build_rows k b (r ∷ rs) = build_rows k (build_row k b r) rs
