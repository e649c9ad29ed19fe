-- ===== src/Runner/Tests.antt =====
-- A batch at a concrete input.
use glm53flash_pp.Base.{ℕ, ◌≡◌, refl, List, [], ◌∷◌, map, ℤ, pos}
use glm53flash_pp.Runner.{no_drafts, key, insert, sorted, sorted_batch, sort_batch_req_ids}
use glm53flash_pp.Runner.Order.{InOrder, count, sort_batch-InOrder}

-- A long prefill, a request with a draft, a short extension and one without a draft that is as long
-- as a decode.
abbrev scheduled : List (ℕ × ℕ)
scheduled = (1, 50) ∷ (2, 2) ∷ (3, 5) ∷ (4, 2) ∷ []

abbrev drafts : List (ℕ × List ℤ)
drafts = (2, pos 7 ∷ []) ∷ (3, []) ∷ []

batch_order : sort_batch_req_ids scheduled drafts 2 ≡ 2 ∷ 4 ∷ 3 ∷ 1 ∷ []
unfolding sort_batch_req_ids sorted_batch sorted insert key no_drafts
batch_order = refl

sort_batch-InOrder_example :
    (batch : List (ℕ × ℕ)) × (sort_batch_req_ids scheduled drafts 2 ≡ map (λ (x, n). x) batch)
    × InOrder drafts 2 batch
    × ((r k : ℕ) → count r k batch ≡ count r k scheduled)
sort_batch-InOrder_example = sort_batch-InOrder scheduled drafts 2
