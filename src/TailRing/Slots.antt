-- ===== src/TailRing/Slots.antt =====
-- vllm/v1/attention/backends/mla/indexer.py: the circular slot mapping of the tail cache, as
-- `compute_kpool_tail_slot_mapping` and as `KpoolTailMetadataBuilder.build` compute it. `none` is
-- an index out of range or tensors that do not fit.
use glm53flash_pp.Base.{
  ℕ, zero, suc, ◌+◌, ◌-◌, ◌*◌, ◌%◌, min, Option, none, some, ◌>>=◌, List, [], ◌∷◌, ◌++◌, leb, ◌==◌,
  if◌then◌else◌, length, take, drop, replicate, get_elem?, ℤ, pos,
}

-- `torch.searchsorted(..., right=True)` on a sorted list: the first index whose entry is above.
abbrev pub searchsorted_right : List ℕ → ℕ → ℕ
searchsorted_right [] v = 0
searchsorted_right (x ∷ xs) v = if leb x v then suc (searchsorted_right xs v) else 0

-- The slots of the tokens from `i` on, `n` of them.
unfoldable pub circular_slots : ℕ → List ℕ → List ℕ → List ℕ → ℕ → ℕ → Option (List ℤ)
circular_slots kpool own_block query_start_loc positions i zero = some []
circular_slots kpool own_block query_start_loc positions i (suc n) = do
  let req = min (searchsorted_right query_start_loc i - 1) (length own_block - 1)
  b ← get_elem? own_block req
  p ← get_elem? positions i
  rest ← circular_slots kpool own_block query_start_loc positions (suc i) n
  some (pos (b * kpool + p % kpool) ∷ rest)

-- `own_block` is `block_table[:num_reqs, 0]`.
unfoldable pub compute_kpool_tail_slot_mapping :
    List ℤ → List ℕ → List ℕ → List ℕ → ℕ → ℕ → Option (List ℤ)
compute_kpool_tail_slot_mapping slot_mapping own_block query_start_loc positions num_actual_tokens
      kpool =
    if num_actual_tokens == 0 then some slot_mapping else (do
      slots ← circular_slots kpool own_block query_start_loc positions 0 num_actual_tokens
      if leb num_actual_tokens (length slot_mapping)
          then some (slots ++ drop num_actual_tokens slot_mapping)
          else none)

-- `query_start_loc[1:] - query_start_loc[:-1]`.
abbrev pub differences : List ℕ → List ℕ
differences [] = []
differences (x ∷ []) = []
differences (x ∷ y ∷ ys) = (y - x) ∷ differences (y ∷ ys)

abbrev pub repeat_interleave : {A : Type 0} → List A → List ℕ → Option (List A)
repeat_interleave [] [] = some []
repeat_interleave (b ∷ bs) [] = none
repeat_interleave [] (n ∷ ns) = none
repeat_interleave (b ∷ bs) (n ∷ ns) = do
  rest ← repeat_interleave bs ns
  some (replicate n b ++ rest)

-- `block_ids * kpool + positions % kpool`.
unfoldable pub slots_of_blocks : ℕ → List ℕ → List ℕ → Option (List ℤ)
slots_of_blocks kpool [] [] = some []
slots_of_blocks kpool [] (p ∷ ps) = none
slots_of_blocks kpool (b ∷ bs) [] = none
slots_of_blocks kpool (b ∷ bs) (p ∷ ps) = do
  rest ← slots_of_blocks kpool bs ps
  some (pos (b * kpool + p % kpool) ∷ rest)

-- The `slot_mapping` of `KpoolTailMetadataBuilder.build`, where positions are given.
unfoldable pub build_slot_mapping : List ℕ → List ℕ → List ℕ → ℕ → Option (List ℤ)
build_slot_mapping own_block query_start_loc positions kpool = do
  block_ids ← repeat_interleave own_block (differences query_start_loc)
  slots_of_blocks kpool block_ids (take (length block_ids) positions)
