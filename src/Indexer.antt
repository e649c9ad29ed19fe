-- ===== src/Indexer.antt =====
-- vllm/v1/attention/backends/mla/indexer.py: how a prefill batch of the sparse indexer is cut into
-- chunks. A request is its query length and its sequence length; the two tensors of
-- `split_indexer_prefill_chunks` have the same length, so a batch is a list of requests.
pub mod Prefix
pub mod Chunks
pub mod Budget
pub mod Metadata
pub mod Rows
pub mod Launch
pub mod Context
pub mod RowTests
pub mod Tests
use glm53flash_pp.Base.{
  ℕ, zero, suc, ◌+◌, ◌-◌, ◌*◌, ◌/◌, min, max, List, [], ◌∷◌, ◌++◌, ◌&&◌, ltb, leb, ◌==◌,
  if◌then◌else◌, length,
}

pub record Sequence : Type 0 where
  pub query_len : ℕ
  pub seq_len : ℕ

-- A pair `(req_slice, query_slice)`.
pub record Chunk : Type 0 where
  pub req_start : ℕ
  pub req_stop : ℕ
  pub query_start : ℕ
  pub query_stop : ℕ

-- The state of the loops: where the group ends, its sums, and the requests after it.
pub record Group : Type 0 where
  pub end : ℕ
  pub chunk_m : ℕ
  pub chunk_n : ℕ
  pub rest : List Sequence

-- The inner loop: adds requests while the sums stay within both budgets.
unfoldable pub grow : ℕ → ℕ → ℕ → ℕ → ℕ → List Sequence → Group
grow workspace_size max_elems end m n [] = record { end = end; chunk_m = m; chunk_n = n; rest = [] }
grow workspace_size max_elems end m n (r ∷ rs) =
    let new_m = m + r.query_len in
    let new_n = n + r.seq_len in
    let more = grow workspace_size max_elems (suc end) new_m new_n rs in
    if leb new_n workspace_size && leb (new_m * new_n) max_elems
    then more
    else record { end = end; chunk_m = m; chunk_n = n; rest = r ∷ rs }

-- The group that starts at request `start`: at least that request, whatever its size.
unfoldable pub next_group : ℕ → ℕ → ℕ → Sequence → List Sequence → Group
next_group workspace_size max_elems start r rs =
    let g = grow workspace_size max_elems start 0 0 (r ∷ rs) in
    if g.end == start
    then record { end = suc start; chunk_m = r.query_len; chunk_n = r.seq_len; rest = rs }
    else g

unfoldable pub max_queries : ℕ → ℕ → ℕ → ℕ
max_queries max_elems chunk_m chunk_n =
    if ltb 0 chunk_n then max 1 (max_elems / chunk_n) else max 1 chunk_m

-- `for q_off in range(0, chunk_m, max_q)`. The fuel is the number of rounds left.
unfoldable pub query_slices : ℕ → ℕ → ℕ → ℕ → ℕ → ℕ → List Chunk
query_slices zero req_start req_stop max_q q_off chunk_m = []
query_slices (suc fuel) req_start req_stop max_q q_off chunk_m =
    let rest = query_slices fuel req_start req_stop max_q (q_off + max_q) chunk_m in
    if ltb q_off chunk_m
    then record {
      req_start = req_start;
      req_stop = req_stop;
      query_start = q_off;
      query_stop = q_off + min max_q (chunk_m - q_off);
    }
      ∷ rest
    else []

unfoldable pub group_chunks : ℕ → ℕ → ℕ → Group → List Chunk
group_chunks max_elems request_offset start g =
    query_slices g.chunk_m (start + request_offset) (g.end + request_offset)
      (max_queries max_elems g.chunk_m g.chunk_n) 0 g.chunk_m

-- The outer loop. The fuel is the number of groups left.
unfoldable pub split_loop : ℕ → ℕ → ℕ → ℕ → ℕ → List Sequence → List Chunk
split_loop zero workspace_size max_elems request_offset start rs = []
split_loop (suc fuel) workspace_size max_elems request_offset start [] = []
split_loop (suc fuel) workspace_size max_elems request_offset start (r ∷ rs) =
    let g = next_group workspace_size max_elems start r rs in
    group_chunks max_elems request_offset start g
    ++ split_loop fuel workspace_size max_elems request_offset g.end g.rest

unfoldable pub split_indexer_prefill_chunks : List Sequence → ℕ → ℕ → ℕ → List Chunk
split_indexer_prefill_chunks requests workspace_size max_logits_bytes request_offset =
    split_loop (length requests) workspace_size (max_logits_bytes / 4) request_offset 0 requests
