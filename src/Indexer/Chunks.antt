-- ===== src/Indexer/Chunks.antt =====
-- The chunks of a prefill batch tile its queries and keep the two budgets.
use glm53flash_pp.Base.{
  ℕ, zero, suc, ◌+◌, ◌-◌, ◌*◌, ◌/◌, min, ◌≤◌, ◌<◌, ◌≡◌, refl, sym, subst, ◌⊎◌, inl, inr, List, [],
  ◌∷◌, ◌++◌, arith, ltb, leb, ◌==◌, ◌&&◌, Bool-cases, length, drop,
}
use glm53flash_pp.Indexer.{
  Sequence, Chunk, Group, grow, next_group, max_queries, query_slices, group_chunks, split_loop,
  split_indexer_prefill_chunks,
}
use glm53flash_pp.Indexer.Prefix.{
  queries_before, keys_before, queries_before-suc, keys_before-suc, drop-suc, drop-lt, drop-nil,
  queries_before_zero,
}

-- The group from `start` to `g.end` of the batch.
pub record IsGroup (w : ℕ) (requests : List Sequence) (start : ℕ) (g : Group) : Type 0 where
  pub ordered : start ≤ g.end
  pub queries : queries_before requests start + g.chunk_m ≡ queries_before requests g.end
  pub keys : keys_before requests start + g.chunk_n ≡ keys_before requests g.end
  pub left : drop g.end requests ≡ g.rest
  pub inside : g.end ≤ length requests
  pub fits : (g.chunk_n ≤ w) ⊎ (g.end ≡ suc start)

grow-IsGroup :
    (w e : ℕ) (requests : List Sequence) (start end m n : ℕ) (rest : List Sequence)
    → start ≤ end
    → queries_before requests start + m ≡ queries_before requests end
    → keys_before requests start + n ≡ keys_before requests end
    → drop end requests ≡ rest
    → end ≤ length requests
    → n ≤ w
    → IsGroup w requests start (grow w e end m n rest)
unfolding grow
grow-IsGroup w e requests start end m n [] o q k l i f = record {
  ordered = o;
  queries = q;
  keys = k;
  left = l;
  inside = i;
  fits = inl f;
}
grow-IsGroup w e requests start end m n (r ∷ rs) o q k l i f =
    elim (Bool-cases (leb (n + r.seq_len) w && leb ((m + r.query_len) * (n + r.seq_len)) e)) [
      | inl small ↦ rw small (
          grow-IsGroup w e requests start (suc end) (m + r.query_len) (n + r.seq_len) rs
            (omega arith) (omega (arith, queries_before-suc requests end l))
            (omega (arith, keys_before-suc requests end l)) (drop-suc requests end l)
            (omega (arith, drop-lt requests end l)) (ground arith))
      | inr full ↦
          rw full
            (record { ordered = o; queries = q; keys = k; left = l; inside = i; fits = inl f })
    ]

pub next_group-IsGroup :
    (w e : ℕ) (requests : List Sequence) (start : ℕ) (r : Sequence) (rs : List Sequence)
    → drop start requests ≡ r ∷ rs
    → IsGroup w requests start (next_group w e start r rs)
      × (start < (next_group w e start r rs).end)
unfolding next_group
next_group-IsGroup w e requests start r rs l =
    let g = grow w e start 0 0 (r ∷ rs) in
    let ig =
      grow-IsGroup w e requests start start 0 0 (r ∷ rs) (omega arith) (omega arith) (omega arith) l
        (omega (arith, drop-lt requests start l)) (omega arith) in
    elim (Bool-cases (g.end == start)) [
      | inl same ↦ rw same (
        record {
          ordered = omega arith;
          queries = omega (arith, queries_before-suc requests start l);
          keys = omega (arith, keys_before-suc requests start l);
          left = drop-suc requests start l;
          inside = omega (arith, drop-lt requests start l);
          fits = inr refl;
        },
        omega arith,
      )
      | inr more ↦
          let o = ig.ordered in let grown : start < g.end = ground arith in rw more (ig, grown)
    ]

-- Each chunk starts at the token where the one before it stopped, from `from` to `to`.
abbrev pub Tiles : List Sequence → ℕ → ℕ → List Chunk → ℕ → Type 0
Tiles requests offset from [] to = from ≡ to
Tiles requests offset from (c ∷ cs) to =
    (queries_before requests (c.req_start - offset) + c.query_start ≡ from)
    × (c.query_start < c.query_stop)
    × Tiles requests offset (from + (c.query_stop - c.query_start)) cs to

Tiles-append :
    (requests : List Sequence) (offset from mid to : ℕ) (cs ds : List Chunk)
    → Tiles requests offset from cs mid
    → Tiles requests offset mid ds to
    → Tiles requests offset from (cs ++ ds) to
Tiles-append requests offset from mid to [] ds t u =
    subst (λ x. Tiles requests offset x ds to) (sym t) u
Tiles-append requests offset from mid to (c ∷ cs) ds (s, p, t) u =
    (s, p, Tiles-append requests offset (from + (c.query_stop - c.query_start)) mid to cs ds t u)

query_slices-Tiles :
    (requests : List Sequence) (offset start stop max_q m fuel q_off from : ℕ)
    → 0 < max_q
    → m ≤ q_off + fuel
    → queries_before requests start + min q_off m ≡ from
    → Tiles requests offset from
        (query_slices fuel (start + offset) stop max_q q_off m)
        (queries_before requests start + m)
unfolding query_slices
query_slices-Tiles requests offset start stop max_q m zero q_off from p f e = omega arith
query_slices-Tiles requests offset start stop max_q m (suc fuel) q_off from p f e =
    let same : start + offset - offset ≡ start = omega arith in
    elim (Bool-cases (ltb q_off m)) [
      | inr done ↦ rw done (let past : m ≤ q_off = ground arith in omega arith)
      | inl more ↦
          let inside : q_off < m = ground arith in
          rw more (
            rw same (omega arith),
            omega arith,
            query_slices-Tiles requests offset start stop max_q m fuel (q_off + max_q)
                (from + (q_off + min max_q (m - q_off) - q_off)) p (omega arith) (omega arith),
          )
    ]

pub max_queries-pos : (e m n : ℕ) → 0 < max_queries e m n
unfolding max_queries
max_queries-pos e m n = elim (Bool-cases (ltb 0 n)) [
  | inl small ↦ rw small (omega arith)
  | inr full ↦ rw full (omega arith)
]

split_loop-Tiles :
    (w e offset : ℕ) (requests : List Sequence) (fuel start : ℕ) (rest : List Sequence)
    → drop start requests ≡ rest
    → length requests ≤ start + fuel
    → start ≤ length requests
    → Tiles requests offset
        (queries_before requests start)
        (split_loop fuel w e offset start rest)
        (queries_before requests (length requests))
unfolding split_loop group_chunks
split_loop-Tiles w e offset requests zero start rest l f s =
    let same : start ≡ length requests = omega arith in cc
split_loop-Tiles w e offset requests (suc fuel) start [] l f s =
    let past = drop-nil requests start l in let same : start ≡ length requests = omega arith in cc
split_loop-Tiles w e offset requests (suc fuel) start (r ∷ rs) l f s =
    let g = next_group w e start r rs in
    let (ig, more) = next_group-IsGroup w e requests start r rs l in
    Tiles-append requests offset (queries_before requests start) (queries_before requests g.end)
      (queries_before requests (length requests))
      (query_slices g.chunk_m (start + offset) (g.end + offset) (max_queries e g.chunk_m g.chunk_n)
        0 g.chunk_m)
      (split_loop fuel w e offset g.end g.rest)
      (subst
        (λ x.
          Tiles requests offset (queries_before requests start)
            (query_slices g.chunk_m (start + offset) (g.end + offset)
              (max_queries e g.chunk_m g.chunk_n) 0 g.chunk_m)
            x)
        ig.queries
        (query_slices-Tiles requests offset start (g.end + offset)
          (max_queries e g.chunk_m g.chunk_n) g.chunk_m g.chunk_m 0 (queries_before requests start)
          (max_queries-pos e g.chunk_m g.chunk_n) (omega arith) (omega arith)))
      (split_loop-Tiles w e offset requests fuel g.end g.rest ig.left (omega arith) ig.inside)

-- For any batch and any limits, the chunks of the prefill cover each query token of the batch
-- exactly once and in order: each chunk has at least one token and starts where the one before it
-- stopped, the first one at token 0 and the last one at the end of the batch. A chunk's first token
-- is counted from the first request of its slice, the request offset taken off.
pub split-Tiles :
    (requests : List Sequence) (workspace_size max_logits_bytes offset : ℕ)
    → Tiles requests offset 0
        (split_indexer_prefill_chunks requests workspace_size max_logits_bytes offset)
        (queries_before requests (length requests))
unfolding split_indexer_prefill_chunks
split-Tiles requests w b offset =
    subst
      (λ x.
        Tiles requests offset x (split_loop (length requests) w (b / 4) offset 0 requests)
          (queries_before requests (length requests)))
      (queries_before_zero requests)
      (split_loop-Tiles w (b / 4) offset requests (length requests) 0 requests refl (omega arith)
        (omega arith))
