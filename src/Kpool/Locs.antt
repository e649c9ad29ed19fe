-- ===== src/Kpool/Locs.antt =====
-- The slots of pools: one table for both views, and no slot for two pools.
use glm53flash_pp.Base.{
  ℕ, zero, suc, ◌+◌, ◌*◌, ◌/◌, ◌%◌, ◌≤◌, ◌<◌, ◌≡◌, ◌≢◌, refl, sym, ap, ◌∙◌, none, some, true, ◌>>=◌,
  >>=-eq-some, List, [], ◌∷◌, arith, ◌==◌, length, get_elem?, get_elem?-total, get_or, columns,
  length-columns, get_elem?-columns,
}
use native.Mathlib.Nat.{mul-le-mul_right}
use native.Mathlib.Decide.{dec_lt}
use glm53flash_pp.Kpool.Expand.{get_or-some}
use glm53flash_pp.Kpool.Pages.{pooled_write_loc, compute_pooled_write_locs, build_pooled_page_table}

get_elem?-beyond : (xs : List ℕ) (i : ℕ) → length xs ≤ i → get_elem? xs i ≡ none
get_elem?-beyond [] i h = refl
get_elem?-beyond (x ∷ xs) zero h = absurd (omega arith)
get_elem?-beyond (x ∷ xs) (suc i) h = get_elem?-beyond xs i (omega arith)

-- A column of the pooled table.
pooled_column :
    (table : List ℕ) (p g : ℕ)
    → 0 < p
    → length table % p ≡ 0
    → get_elem? (columns (length table / p) (λ i. get_or table (i * p) 0)) g
      ≡ get_elem? table (g * p)
pooled_column table p g h d =
    let f : ℕ → ℕ = λ i. get_or table (i * p) 0 in
    let whole : length table / p * p ≡ length table = grind arith in
    elim (dec_lt g (length table / p)) [
      | yes inside ↦
          let room = mul-le-mul_right {m = suc g} {n = length table / p} p inside in
          let bound : g * p < length table = grind arith in
          let (page, at) = get_elem?-total table (g * p) bound in
          get_elem?-columns (length table / p) f g inside
          ∙ ap some (get_or-some table (g * p) 0 at)
          ∙ sym at
      | no beyond ↦
          let room = mul-le-mul_right {m = length table / p} {n = g} p (omega arith) in
          get_elem?-beyond (columns (length table / p) f) g
            (omega (arith, length-columns (length table / p) f))
          ∙ sym (get_elem?-beyond table (g * p) (omega arith))
    ]

write_loc-pooled :
    (table : List ℕ) (p id : ℕ)
    → 0 < p
    → length table % p ≡ 0
    → pooled_write_loc table p id
      ≡ pooled_write_loc (columns (length table / p) (λ i. get_or table (i * p) 0)) 1 id
unfolding pooled_write_loc
write_loc-pooled table p id h d =
    let one : id / 64 * 1 ≡ id / 64 = omega arith in
    rw (one, pooled_column table p (id / 64) h d) refl

write_locs-pooled :
    (table ids : List ℕ) (p : ℕ)
    → 0 < p
    → length table % p ≡ 0
    → compute_pooled_write_locs table ids p
      ≡ compute_pooled_write_locs (columns (length table / p) (λ i. get_or table (i * p) 0)) ids 1
unfolding compute_pooled_write_locs
write_locs-pooled table [] p h d = refl
write_locs-pooled table (id ∷ ids) p h d =
    rw (write_loc-pooled table p id h d, write_locs-pooled table ids p h d) refl

-- Where the pool size divides the number of token pages: the slots that `compute_pooled_write_locs`
-- finds in the token page table are those that it finds in the table of `build_pooled_page_table`
-- with pages of one token page, for any pools; one raises if and only if the other does.
pub write_locs-build_pooled_page_table :
    (table ids : List ℕ) (p : ℕ)
    → 0 < p
    → length table % p ≡ 0
    → compute_pooled_write_locs table ids p
      ≡ (build_pooled_page_table table p >>= (λ pooled. compute_pooled_write_locs pooled ids 1))
unfolding build_pooled_page_table
write_locs-build_pooled_page_table table ids p h d =
    let b : (length table % p == 0) ≡ true = ground arith in
    rw b (write_locs-pooled table ids p h d)

-- No page stands twice in the table.
abbrev pub DistinctPages : List ℕ → Type 0
DistinctPages table =
    (i j page : ℕ) → get_elem? table i ≡ some page → get_elem? table j ≡ some page → i ≡ j

same_page : (x y a b : ℕ) → a < 64 → b < 64 → x * 64 + a ≡ y * 64 + b → (x ≡ y) × (a ≡ b)
same_page x y a b h k e = (omega arith, omega arith)

same_factor : (x y p : ℕ) → 0 < p → x * p ≡ y * p → x ≡ y
same_factor x y p h e = grind arith

-- Two pools of a sequence whose table names no page twice never share a slot.
pub pooled_write_loc_apart :
    (table : List ℕ) (p a b l : ℕ)
    → 0 < p
    → DistinctPages table
    → a ≢ b
    → pooled_write_loc table p a ≡ some l
    → pooled_write_loc table p b ≢ some l
unfolding pooled_write_loc
pooled_write_loc_apart table p a b l h distinct ne ea = λ eb.
    let (x, atx, fx) =
      >>=-eq-some (get_elem? table (a / 64 * p)) (λ y. some (y * 64 + a % 64)) ea in
    let (y, aty, fy) =
      >>=-eq-some (get_elem? table (b / 64 * p)) (λ y. some (y * 64 + b % 64)) eb in
    let loc : x * 64 + a % 64 ≡ y * 64 + b % 64 = cc in
    let (page, slot) = same_page x y (a % 64) (b % 64) (omega arith) (omega arith) loc in
    let column = distinct (a / 64 * p) (b / 64 * p) x atx (aty ∙ ap some (sym page)) in
    let group : a / 64 ≡ b / 64 = same_factor (a / 64) (b / 64) p h column in ne (omega arith)
