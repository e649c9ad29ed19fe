-- ===== src/Relay/Scatter.antt =====
-- Where the relayed drafts land in the request states.
use glm53flash_pp.Base.{
  ℕ, zero, suc, ◌<◌, ◌≡◌, ◌≢◌, refl, sym, ap, subst, ◌∙◌, some, List, [], ◌∷◌, ℤ, pos, negsuc,
  length, length-set, get_elem?, set, get_elem?-set_self, get_elem?-set_ne, arith,
}
use glm53flash_pp.Relay.Turn.{scatter_drafts}

some_pos : {i j : ℕ} → i ≡ j → some (pos i) ≡ some (pos j)
some_pos e = ap (λ x. some (pos x)) e

-- A slot that the mapping does not name keeps its drafts.
pub scatter_drafts_other :
    (table : List (List ℤ)) (mapping : List ℤ) (rows : List (List ℤ)) (slot : ℕ)
    → ((j : ℕ) → get_elem? mapping j ≢ some (pos slot))
    → get_elem? (scatter_drafts table mapping rows) slot ≡ get_elem? table slot
unfolding scatter_drafts
scatter_drafts_other table [] rows slot ne = refl
scatter_drafts_other table (pos i ∷ is) [] slot ne = refl
scatter_drafts_other table (negsuc i ∷ is) [] slot ne = refl
scatter_drafts_other table (negsuc i ∷ is) (row ∷ rows) slot ne =
    scatter_drafts_other table is rows slot (λ j. ne (suc j))
scatter_drafts_other table (pos i ∷ is) (row ∷ rows) slot ne =
    scatter_drafts_other (set table i row) is rows slot (λ j. ne (suc j))
    ∙ get_elem?-set_ne table row (λ e. ne 0 (some_pos e))

-- A live row of the relayed batch, whose slot no other row names, has its own drafts in its slot
-- after the scatter.
pub scatter_drafts_live :
    (table : List (List ℤ)) (mapping : List ℤ) (rows : List (List ℤ)) (j slot : ℕ) {row : List ℤ}
    → slot < length table
    → get_elem? mapping j ≡ some (pos slot)
    → get_elem? rows j ≡ some row
    → ((k : ℕ) → get_elem? mapping k ≡ some (pos slot) → k ≡ j)
    → get_elem? (scatter_drafts table mapping rows) slot ≡ some row
unfolding scatter_drafts
scatter_drafts_live table [] rows j slot l a b only = absurd cc
scatter_drafts_live table (i ∷ is) [] j slot l a b only = absurd cc
scatter_drafts_live table (negsuc i ∷ is) (r ∷ rows) zero slot l a b only = absurd cc
scatter_drafts_live table (negsuc i ∷ is) (r ∷ rows) (suc j) slot l a b only =
    scatter_drafts_live table is rows j slot l a b (λ k e. omega (arith, only (suc k) e))
scatter_drafts_live table (pos i ∷ is) (r ∷ rows) (suc j) slot l a b only =
    scatter_drafts_live (set table i r) is rows j slot (omega (arith, length-set table i r)) a b
      (λ k e. omega (arith, only (suc k) e))
scatter_drafts_live table (pos i ∷ is) (r ∷ rows) zero slot {row = row} l a b only =
    let here : i ≡ slot = cc in
    let mine : r ≡ row = cc in
    scatter_drafts_other (set table i r) is rows slot
      (λ k e. absurd (omega (arith, only (suc k) e)))
    ∙ subst (λ x. get_elem? (set table x r) slot ≡ some r) (sym here)
        (get_elem?-set_self table slot r l)
    ∙ ap some mine
