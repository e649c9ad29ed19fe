-- ===== src/Indexer/Tests.antt =====
-- Prefill batches at concrete inputs.
use glm53flash_pp.Base.{◌≡◌, refl, List, [], ◌∷◌, All}
use glm53flash_pp.Indexer.{
  Sequence, grow, next_group, max_queries, query_slices, group_chunks, split_loop,
  split_indexer_prefill_chunks,
}
use glm53flash_pp.Indexer.Chunks.{Tiles, split-Tiles}
use glm53flash_pp.Indexer.Budget.{InBudget, split-InBudget}

-- Two short requests, one whose logits exceed the budget, and a short one.
abbrev batch : List Sequence
batch =
    record { query_len = 2; seq_len = 3 }
    ∷ record { query_len = 1; seq_len = 4 }
    ∷ record { query_len = 5; seq_len = 10 }
    ∷ record { query_len = 1; seq_len = 2 }
    ∷ []

-- 96 bytes are 24 logits: the long request is cut into rows of two.
batch_chunks :
    split_indexer_prefill_chunks batch 8 96 3
    ≡ record { req_start = 3; req_stop = 5; query_start = 0; query_stop = 3 }
      ∷ record { req_start = 5; req_stop = 6; query_start = 0; query_stop = 2 }
      ∷ record { req_start = 5; req_stop = 6; query_start = 2; query_stop = 4 }
      ∷ record { req_start = 5; req_stop = 6; query_start = 4; query_stop = 5 }
      ∷ record { req_start = 6; req_stop = 7; query_start = 0; query_stop = 1 }
      ∷ []
unfolding split_indexer_prefill_chunks split_loop group_chunks next_group grow query_slices
    max_queries
batch_chunks = refl

split-Tiles_example : Tiles batch 3 0 (split_indexer_prefill_chunks batch 8 96 3) 9
split-Tiles_example = split-Tiles batch 8 96 3

split-InBudget_example : All (InBudget 8 24 3 batch) (split_indexer_prefill_chunks batch 8 96 3)
split-InBudget_example = split-InBudget batch 8 96 3
