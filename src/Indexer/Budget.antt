-- ===== src/Indexer/Budget.antt =====
-- The chunks of a prefill batch keep the budgets of the workspace and of the logits.
use native.Mathlib.Decide.{dec_le}
use glm53flash_pp.Base.{
  ℕ, zero, suc, ◌+◌, ◌-◌, ◌*◌, ◌/◌, min, max, ◌≤◌, ◌<◌, ◌≡◌, refl, ◌⊎◌, inl, inr, List, [], ◌∷◌,
  ◌++◌, arith, ltb, Bool-cases, length, drop, All,
}
use glm53flash_pp.Indexer.{
  Sequence, Chunk, Group, next_group, max_queries, query_slices, group_chunks, split_loop,
  split_indexer_prefill_chunks,
}
use glm53flash_pp.Indexer.Prefix.{queries_before, keys_before}
use glm53flash_pp.Indexer.Chunks.{IsGroup, next_group-IsGroup, max_queries-pos}

-- The keys of the requests of a chunk.
abbrev pub chunk_keys : List Sequence → ℕ → Chunk → ℕ
chunk_keys requests offset c =
    keys_before requests (c.req_stop - offset) - keys_before requests (c.req_start - offset)

pub record InBudget (w e offset : ℕ) (requests : List Sequence) (c : Chunk) : Type 0 where
  pub nonempty : c.req_start < c.req_stop
  pub from_offset : offset ≤ c.req_start
  pub inside : c.req_stop ≤ offset + length requests
  pub in_slice :
      queries_before requests (c.req_start - offset) + c.query_stop
      ≤ queries_before requests (c.req_stop - offset)
  pub workspace : (chunk_keys requests offset c ≤ w) ⊎ (c.req_stop ≡ suc c.req_start)
  pub logits :
      ((c.query_stop - c.query_start) * chunk_keys requests offset c ≤ e)
      ⊎ (c.query_stop - c.query_start ≡ 1)

All-append {ℓ κ} :
    {A : Type ℓ} (P : A → Type κ) (xs ys : List A) → All P xs → All P ys → All P (xs ++ ys)
All-append P [] ys p q = q
All-append P (x ∷ xs) ys (p, ps) q = (p, All-append P xs ys ps q)

quotient_fits : (rows e n : ℕ) → 0 < n → rows ≤ e / n → rows * n ≤ e
quotient_fits rows e n p h = grind arith

-- A slice of at most `max_queries` rows.
rows_fit : (e m n rows : ℕ) → 0 < rows → rows ≤ max_queries e m n → (rows * n ≤ e) ⊎ (rows ≡ 1)
unfolding max_queries
rows_fit e m n rows p h = elim (Bool-cases (ltb 0 n)) [
  | inr empty ↦ let z : n ≡ 0 = ground arith in inl (rw z (omega arith))
  | inl keys ↦
      let pos : 0 < n = ground arith in
      let h' : rows ≤ max 1 (e / n) = ground arith in
      elim (dec_le rows (e / n)) [
        | yes small ↦ inl (quotient_fits rows e n pos small)
        | no large ↦ inr (omega arith)
      ]
]

width : (a b : ℕ) → a + b - a ≡ b
width a b = omega arith

query_slices-InBudget :
    (w e offset : ℕ) (requests : List Sequence) (start : ℕ) (g : Group) (fuel q_off : ℕ)
    → IsGroup w requests start g
    → start < g.end
    → All (InBudget w e offset requests) (
        query_slices fuel
          (start + offset)
          (g.end + offset)
          (max_queries e g.chunk_m g.chunk_n)
          q_off
          g.chunk_m)
unfolding query_slices
query_slices-InBudget w e offset requests start g zero q_off ig more = tt
query_slices-InBudget w e offset requests start g (suc fuel) q_off ig more =
    let same_start : start + offset - offset ≡ start = omega arith in
    let same_end : g.end + offset - offset ≡ g.end = omega arith in
    let rows = min (max_queries e g.chunk_m g.chunk_n) (g.chunk_m - q_off) in
    let keys : keys_before requests g.end - keys_before requests start ≡ g.chunk_n =
      let k = ig.keys in omega arith in
    elim (Bool-cases (ltb q_off g.chunk_m)) [
      | inr done ↦ rw done tt
      | inl more_rows ↦
          let here : q_off < g.chunk_m = ground arith in
          rw more_rows (
            record {
              nonempty = omega arith;
              from_offset = omega arith;
              inside = let i = ig.inside in omega arith;
              in_slice = let q = ig.queries in rw (same_start, same_end) (omega arith);
              workspace =
                  rw (same_start, same_end, keys)
                    (elim ig.fits [
                      | inl small ↦ inl small
                      | inr single ↦ inr (omega (arith, single))
                    ]);
              logits =
                  rw (same_start, same_end, keys)
                    (rw (width q_off rows) (
                      rows_fit e g.chunk_m g.chunk_n rows
                        (let p = max_queries-pos e g.chunk_m g.chunk_n in omega arith)
                        (omega arith)));
            },
            query_slices-InBudget w e offset requests start g fuel
                (q_off + max_queries e g.chunk_m g.chunk_n) ig more,
          )
    ]

split_loop-InBudget :
    (w e offset : ℕ) (requests : List Sequence) (fuel start : ℕ) (rest : List Sequence)
    → drop start requests ≡ rest
    → All (InBudget w e offset requests) (split_loop fuel w e offset start rest)
unfolding split_loop group_chunks
split_loop-InBudget w e offset requests zero start rest l = tt
split_loop-InBudget w e offset requests (suc fuel) start [] l = tt
split_loop-InBudget w e offset requests (suc fuel) start (r ∷ rs) l =
    let g = next_group w e start r rs in
    let (ig, more) = next_group-IsGroup w e requests start r rs l in
    All-append (InBudget w e offset requests)
      (query_slices g.chunk_m (start + offset) (g.end + offset) (max_queries e g.chunk_m g.chunk_n)
        0 g.chunk_m)
      (split_loop fuel w e offset g.end g.rest)
      (query_slices-InBudget w e offset requests start g g.chunk_m 0 ig more)
      (split_loop-InBudget w e offset requests fuel g.end g.rest ig.left)

-- Every chunk takes a non-empty run of requests of the batch and rows of their queries only. Its
-- requests have at most `workspace_size` keys in all unless it is a single request, and its logits,
-- rows by keys, are at most `max_logits_bytes / 4` elements unless it is a single row.
pub split-InBudget :
    (requests : List Sequence) (workspace_size max_logits_bytes offset : ℕ)
    → All
        (InBudget workspace_size (max_logits_bytes / 4) offset requests)
        (split_indexer_prefill_chunks requests workspace_size max_logits_bytes offset)
unfolding split_indexer_prefill_chunks
split-InBudget requests w b offset =
    split_loop-InBudget w (b / 4) offset requests (length requests) 0 requests refl
