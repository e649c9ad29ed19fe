-- ===== src/Indexer/RowTests.antt =====
-- The chunk metadata kernel at concrete inputs.
use glm53flash_pp.Base.{◌≡◌, refl, inr, List, [], ◌∷◌, arith, All}
use glm53flash_pp.Indexer.Metadata.{
  local_context, RequestRow, Bounds, store_lanes, store_loop, Config, row_end, build_row,
  build_rows,
}
use glm53flash_pp.Indexer.Rows.{IsRequest, AllApart}
use glm53flash_pp.Indexer.Launch.{HasRow, build_rows-HasRow, build_rows-keys}
use glm53flash_pp.Indexer.Context.{turns, local_context-turns}

-- Rank 1 of two, which take turns with two keys each.
local_lengths :
    local_context 1 2 2 7 ∷ local_context 1 2 2 3 ∷ local_context 0 2 2 7 ∷ [] ≡ 3 ∷ 1 ∷ 4 ∷ []
unfolding local_context
local_lengths = refl

local_context-turns_example : local_context 1 2 2 7 ≡ turns 1 2 2 7
local_context-turns_example = local_context-turns 1 2 2 7 (omega arith) (omega arith) (omega arith)

-- Queries 1 to 6 of two requests, blocks of two lanes.
abbrev chunk : Config
chunk = record {
  slice_start = 1;
  slice_stop = 6;
  dcp_rank = 0;
  dcp_world = 1;
  dcp_interleave = 1;
  block_size = 2;
  compress_ratio = 1;
}

abbrev requests : List RequestRow
requests =
    record {
      batch_idx = 1;
      query_start = 4;
      query_end = 7;
      seq_start = 9;
      seq_end = 12;
      row_start = 9;
      uncompressed_seq_len = 3;
    }
    ∷ record {
      batch_idx = 0;
      query_start = 0;
      query_end = 4;
      seq_start = 0;
      seq_end = 9;
      row_start = 0;
      uncompressed_seq_len = 9;
    }
    ∷ []

abbrev unset : Bounds
unset = record { cu_seqlen_ks = λ p. 99; cu_seqlen_ke = λ p. 99; token_to_seq = λ p. 99 }

ends :
    (build_rows chunk unset requests).cu_seqlen_ke 0
      ∷ (build_rows chunk unset requests).cu_seqlen_ke 2
      ∷ (build_rows chunk unset requests).cu_seqlen_ke 4
      ∷ (build_rows chunk unset requests).cu_seqlen_ke 5
      ∷ []
    ≡ 7 ∷ 9 ∷ 11 ∷ 99 ∷ []
unfolding build_rows build_row store_loop store_lanes row_end local_context
ends = refl

requests-IsRequest : All IsRequest requests
requests-IsRequest = (
  record { queries = omega arith; keys = omega arith },
  (record { queries = omega arith; keys = omega arith }, tt),
)

requests-AllApart : AllApart requests
requests-AllApart = (((inr (omega arith), inr (omega arith)), tt), (tt, tt))

build_rows-HasRow_example :
    HasRow chunk
      (record {
        batch_idx = 0;
        query_start = 0;
        query_end = 4;
        seq_start = 0;
        seq_end = 9;
        row_start = 0;
        uncompressed_seq_len = 9;
      })
      3
      (build_rows chunk unset requests)
build_rows-HasRow_example =
    build_rows-HasRow chunk (omega arith) requests unset 1 3 (λ w. absurd (omega arith))
      (omega arith) requests-IsRequest requests-AllApart refl (omega arith) (omega arith)
      (omega arith) (omega arith)

build_rows-keys_example : (build_rows chunk unset requests).token_to_seq 10 ≡ 1
build_rows-keys_example =
    build_rows-keys chunk (omega arith) requests unset 0 10 requests-IsRequest requests-AllApart
      refl (omega arith) (omega arith)
