-- ===== src/Kpool/Tests.antt =====
-- Rows of selected pools at concrete inputs.
use glm53flash_pp.Base.{
  ◌≢◌, columns, get_elem?-columns, get_elem?-lt, sym, ◌∙◌, ◌+◌, ℕ, ◌<◌, ◌≡◌, refl, ◌↔◌, some, List,
  [], ◌∷◌, ◌>>=◌, length, get_elem?, arith, ℤ, pos, minus_one, to_int32,
}
use glm53flash_pp.Kpool.{fused_column, fused_tile, fused_tiles, expand_pools_and_append_tail}
use glm53flash_pp.Kpool.Pages.{pooled_write_loc, compute_pooled_write_locs, build_pooled_page_table}
use glm53flash_pp.Kpool.Locs.{
  DistinctPages, write_locs-build_pooled_page_table, pooled_write_loc_apart,
}
use glm53flash_pp.Kpool.Fused.{two_step, fused-two_step}
use glm53flash_pp.Kpool.Attended.{Attended, fused-Attended}

-- Pools of four tokens, pool 2 and an empty choice, in a sequence of 14 tokens.
abbrev chosen : List ℤ
chosen = pos 2 ∷ minus_one ∷ []

abbrev stale : ℕ → ℤ
stale c = pos 77

chosen_row :
    expand_pools_and_append_tail chosen 14 4 stale 1
      ∷ expand_pools_and_append_tail chosen 14 4 stale 5
      ∷ expand_pools_and_append_tail chosen 14 4 stale 9
      ∷ expand_pools_and_append_tail chosen 14 4 stale 10
      ∷ expand_pools_and_append_tail chosen 14 4 stale 11
      ∷ []
    ≡ pos 9 ∷ minus_one ∷ pos 13 ∷ minus_one ∷ pos 77 ∷ []
unfolding expand_pools_and_append_tail fused_tiles fused_tile fused_column to_int32
chosen_row = refl

fused-two_step_example :
    ((two_step chosen 14 4 >>= (λ row. some (length row))) ≡ some 11)
    × ((two_step chosen 14 4 >>= (λ row. get_elem? row 9))
        ≡ some (expand_pools_and_append_tail chosen 14 4 stale 9))
fused-two_step_example =
    fused-two_step chosen 14 4 stale 9 (omega arith) (omega arith) (omega arith)

fused-Attended_example :
    ((c : ℕ) × (c < 11) × (expand_pools_and_append_tail chosen 14 4 stale c ≡ pos 9))
    ↔ Attended chosen 14 4 9
fused-Attended_example =
    fused-Attended chosen 14 4 stale 9 (omega arith) (omega arith, (tt, tt)) (omega arith)

-- Eight token pages, two pool pages of pools of four tokens.
abbrev token_pages : List ℕ
token_pages = columns 8 (λ i. 10 + i)

pool_locs : compute_pooled_write_locs token_pages (3 ∷ 70 ∷ []) 4 ≡ some (643 ∷ 902 ∷ [])
unfolding compute_pooled_write_locs pooled_write_loc
pool_locs = refl

write_locs-build_pooled_page_table_example :
    compute_pooled_write_locs token_pages (3 ∷ 70 ∷ []) 4 ≡ (
      build_pooled_page_table token_pages 4
      >>= (λ pooled. compute_pooled_write_locs pooled (3 ∷ 70 ∷ []) 1))
write_locs-build_pooled_page_table_example =
    write_locs-build_pooled_page_table token_pages (3 ∷ 70 ∷ []) 4 (omega arith) refl

token_pages-DistinctPages : DistinctPages token_pages
token_pages-DistinctPages i j page a b =
    let i_in = get_elem?-lt token_pages i a in
    let j_in = get_elem?-lt token_pages j b in
    let at_i : some (10 + i) ≡ some page = sym (get_elem?-columns 8 (λ k. 10 + k) i i_in) ∙ a in
    let at_j : some (10 + j) ≡ some page = sym (get_elem?-columns 8 (λ k. 10 + k) j j_in) ∙ b in
    let same : 10 + i ≡ 10 + j = cc in omega arith

write_loc_of_70 : pooled_write_loc token_pages 4 70 ≡ some 902
unfolding pooled_write_loc
write_loc_of_70 = refl

pooled_write_loc_apart_example : pooled_write_loc token_pages 4 6 ≢ some 902
pooled_write_loc_apart_example =
    pooled_write_loc_apart token_pages 4 70 6 902 (omega arith) token_pages-DistinctPages
      (λ e. absurd (omega (arith, e))) write_loc_of_70
