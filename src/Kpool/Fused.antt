-- ===== src/Kpool/Fused.antt =====
-- The fused kernel computes the two functions that it replaces.
use glm53flash_pp.Base.{
  ℕ, zero, suc, ◌+◌, ◌-◌, ◌*◌, ◌/◌, ◌%◌, min, ◌≤◌, ◌<◌, ◌≡◌, ◌≢◌, refl, sym, ap, ◌∙◌, inl, inr,
  Option, some, List, true, false, not, arith, ltb, leb, ◌==◌, ◌&&◌, ◌>>=◌, if◌then◌else◌,
  Bool-cases, length, get_elem?, columns, length-columns, get_elem?-columns, length-map, ℤ, pos,
  minus_one, is_negative, to_int32,
}
use native.Mathlib.Decide.{dec_le}
use glm53flash_pp.Memcpy.{cdiv}
use glm53flash_pp.Kpool.{
  identity, map_token, history_group_budget_for_topk, expand_groups, expand_pools_to_tokens,
  tail_column, append_tail_to_topk, fused_column, fused_tile, fused_tiles,
  expand_pools_and_append_tail,
}
use glm53flash_pp.Kpool.Expand.{
  valid_of, pool_column, length-expand_groups, get_elem?-expand_groups, get_or-some,
}

-- `expand_pools_to_tokens`, then `append_tail_to_topk`.
abbrev pub two_step : List ℤ → ℕ → ℕ → Option (List ℤ)
two_step ids seq_len p =
    expand_pools_to_tokens ids (valid_of ids) (length ids * p) p identity
    >>= (λ t. append_tail_to_topk t seq_len (seq_len / p) p identity)

tiles_columns :
    (block : ℕ) (ids : List ℤ) (seq_len p topk n : ℕ) (out : ℕ → ℤ) (c : ℕ)
    → c < n * block
    → c < topk + p - 1
    → fused_tiles block ids seq_len p topk n out c ≡ fused_column ids seq_len p topk c
unfolding fused_tiles fused_tile
tiles_columns block ids seq_len p topk zero out c h k = absurd (omega arith)
tiles_columns block ids seq_len p topk (suc n) out c h k = elim (dec_le (n * block) c) [
  | yes here ↦
      let b : leb (n * block) c && ltb c (n * block + block) && ltb c (topk + p - 1) ≡ true =
        ground arith in
      rw b refl
  | no before ↦
      let b : leb (n * block) c && ltb c (n * block + block) && ltb c (topk + p - 1) ≡ false =
        ground arith in
      rw b (tiles_columns block ids seq_len p topk n out c (omega arith) k)
]

pub fused-column :
    (ids : List ℤ) (seq_len p : ℕ) (out : ℕ → ℤ) (c : ℕ)
    → c < length ids * p + p - 1
    → expand_pools_and_append_tail ids seq_len p out c
      ≡ fused_column ids seq_len p (length ids * p) c
unfolding expand_pools_and_append_tail
fused-column ids seq_len p out c h =
    tiles_columns 128 ids seq_len p (length ids * p) (cdiv (length ids * p + p - 1) 128) out c
      (omega arith) h

pub fused_history :
    (ids : List ℤ) (seq_len p c : ℕ)
    → c < length ids * p
    → fused_column ids seq_len p (length ids * p) c ≡ pool_column p ids c
unfolding fused_column
fused_history ids seq_len p c h = let b : ltb c (length ids * p) ≡ true = ground arith in rw b refl

pub fused_tail :
    (ids : List ℤ) (seq_len p c : ℕ)
    → length ids * p ≤ c
    → fused_column ids seq_len p (length ids * p) c ≡ (
        if ltb (c - length ids * p) (seq_len - seq_len / p * p)
        then to_int32 (pos (seq_len / p * p + (c - length ids * p)))
        else minus_one)
unfolding fused_column
fused_tail ids seq_len p c h =
    let a : leb (length ids * p) c ≡ true = ground arith in
    let b : ltb c (length ids * p) ≡ false = ground arith in rw (a, b) refl

tail-fused_column :
    (ids : List ℤ) (seq_len p c : ℕ)
    → 0 < p
    → tail_column (expand_groups identity p ids (valid_of ids)) seq_len (seq_len / p) p identity c
      ≡ fused_column ids seq_len p (length ids * p) c
unfolding tail_column fused_column map_token
tail-fused_column ids seq_len p c h =
    let t = expand_groups identity p ids (valid_of ids) in
    let len : length t ≡ length ids * p = length-expand_groups p ids in
    elim (dec_le (length ids * p) c) [
      | yes tail ↦
          let a : leb (length ids * p) c ≡ true = ground arith in
          let b : ltb c (length ids * p) ≡ false = ground arith in simp (len, a, b)
      | no history ↦
          let a : leb (length ids * p) c ≡ false = ground arith in
          let b : ltb c (length ids * p) ≡ true = ground arith in
          let i : min c (length ids * p - 1) ≡ c = omega arith in
          let v = get_or-some t c minus_one (get_elem?-expand_groups p ids c h (omega arith)) in
          rw (len, a, b, i) v
    ]

two_step-row :
    (ids : List ℤ) (seq_len p : ℕ)
    → 0 < p
    → 0 < length ids
    → two_step ids seq_len p ≡ (
        if p == 1
        then some (expand_groups identity p ids (valid_of ids))
        else some (
            columns (length ids * p + (p - 1)) (
              tail_column
                (expand_groups identity p ids (valid_of ids))
                seq_len
                (seq_len / p)
                p
                identity)))
unfolding expand_pools_to_tokens append_tail_to_topk history_group_budget_for_topk
two_step-row ids seq_len p h k =
    let len = length-expand_groups p ids in
    let a : (length (valid_of ids) == length ids) ≡ true =
      rw (length-map ids (λ g. not (is_negative g))) (ground arith) in
    let b : (length ids * p % p == 0) ≡ true =
      let z : length ids * p % p ≡ 0 = grind arith in ground arith in
    let c : (length ids == length ids * p / p) ≡ true =
      let z : length ids * p / p ≡ length ids = grind arith in ground arith in
    let d : (length ids * p == 0) ≡ false =
      let z : length ids * p ≢ 0 = grind arith in ground arith in
    simp (a, b, c, len, d)

-- For a positive pool size and at least one selected pool, `expand_pools_to_tokens` followed by
-- `append_tail_to_topk`, on the pools that are not negative and without a page table or offsets,
-- returns a row as wide as the fused kernel's, and each column of it is the one that the launch of
-- the fused kernel writes, whatever the output buffer held.
pub fused-two_step :
    (ids : List ℤ) (seq_len p : ℕ) (out : ℕ → ℤ) (c : ℕ)
    → 0 < p
    → 0 < length ids
    → c < length ids * p + (p - 1)
    → ((two_step ids seq_len p >>= (λ row. some (length row))) ≡ some (length ids * p + (p - 1)))
      × ((two_step ids seq_len p >>= (λ row. get_elem? row c))
          ≡ some (expand_pools_and_append_tail ids seq_len p out c))
fused-two_step ids seq_len p out c h k l =
    let t = expand_groups identity p ids (valid_of ids) in
    let len = length-expand_groups p ids in
    let f = tail_column t seq_len (seq_len / p) p identity in
    let row = two_step-row ids seq_len p h k in
    let col = fused-column ids seq_len p out c (omega arith) in
    let tf = tail-fused_column ids seq_len p c h in
    elim (Bool-cases (p == 1)) [
      | inl one ↦
          let q : p ≡ 1 = ground arith in
          rw (row, one)
            (
              ap some (omega (arith, len)),
              get_elem?-expand_groups p ids c h (omega arith)
                  ∙ ap some (sym (fused_history ids seq_len p c (omega arith)) ∙ sym col),
            )
      | inr more ↦
          rw (row, more)
            (
              ap some (length-columns (length ids * p + (p - 1)) f),
              get_elem?-columns (length ids * p + (p - 1)) f c l ∙ ap some (tf ∙ sym col),
            )
    ]
