-- ===== src/Indexer/Launch.antt =====
-- A launch of the chunk metadata kernel over the requests of a chunk, in any order.
use glm53flash_pp.Base.{
  ℕ, zero, suc, ◌+◌, ◌-◌, ◌≤◌, ◌<◌, ◌≡◌, sym, ap, subst, ◌∙◌, ◌⊎◌, inl, inr, some, List, [], ◌∷◌,
  arith, get_elem?, All, ◌/◌, refl, ltb, if◌then◌else◌, Bool-cases,
}
use glm53flash_pp.Indexer.Context.{turns, local_context-turns}
use glm53flash_pp.Indexer.Metadata.{
  local_context, RequestRow, Bounds, store_loop, Config, row_end, build_row, build_rows,
}
use glm53flash_pp.Indexer.Rows.{IsRequest, Apart, AllApart, program_stores, program_keeps}

-- A range that holds `x` is beside one that is apart from it.
beside :
    (start end start' end' x : ℕ)
    → (end ≤ start') ⊎ (end' ≤ start)
    → start ≤ x
    → x < end
    → (x < start') ⊎ (end' ≤ x)
beside start end start' end' x (inl a) b c = inl (omega arith)
beside start end start' end' x (inr a) b c = inr (omega arith)

-- The tokens that the query at absolute position `abs` sees: all of its sequence but the queries
-- behind it.
abbrev pub visible : RequestRow → ℕ → ℕ
visible r abs = r.uncompressed_seq_len - (r.query_end - 1 - abs)

-- How many of the first `len` keys are on the rank: one for each turn, or all if it is alone.
abbrev pub share : Config → ℕ → ℕ
share k len = if ltb 1 k.dcp_world then turns k.dcp_rank k.dcp_world k.dcp_interleave len else len

-- The row of the query at absolute position `abs`, from the row start of its request over a key for
-- each whole pool of the tokens that it sees, as far as the key is on the rank.
abbrev pub HasRow : Config → RequestRow → ℕ → Bounds → Type 0
HasRow k r abs b =
    (b.cu_seqlen_ks (abs - k.slice_start) ≡ r.row_start)
    × (b.cu_seqlen_ke (abs - k.slice_start)
        ≡ r.row_start + share k (visible r abs / k.compress_ratio))

-- the same, as the kernel computes it
abbrev RowStored : Config → RequestRow → ℕ → Bounds → Type 0
RowStored k r abs b =
    (b.cu_seqlen_ks (abs - k.slice_start) ≡ r.row_start)
    × (b.cu_seqlen_ke (abs - k.slice_start) ≡ row_end k r abs)

-- A rank among others has a place in the turns.
abbrev pub IsRank : Config → Type 0
IsRank k = 1 < k.dcp_world → (k.dcp_rank < k.dcp_world) × (0 < k.dcp_interleave)

local_share :
    (k : Config) (len : ℕ)
    → IsRank k
    → local_context k.dcp_rank k.dcp_world k.dcp_interleave len ≡ share k len
unfolding local_context
local_share k len rank = elim (Bool-cases (ltb 1 k.dcp_world)) [
  | inl many ↦
      let w : 1 < k.dcp_world = ground arith in
      local_context-turns k.dcp_rank k.dcp_world k.dcp_interleave len w (rank w).0 (rank w).1
      ∙ rw many refl
  | inr alone ↦ rw alone refl
]

row_end_lem :
    (k : Config) (r : RequestRow) (abs : ℕ)
    → IsRank k
    → IsRequest r
    → r.query_end - r.query_start ≤ r.uncompressed_seq_len
    → r.query_start ≤ abs
    → abs < r.query_end
    → row_end k r abs ≡ r.row_start + share k (visible r abs / k.compress_ratio)
unfolding row_end
row_end_lem k r abs rank is tokens a c =
    let seen : r.uncompressed_seq_len - (r.query_end - r.query_start) + 1 + (abs - r.query_start)
        ≡ visible r abs =
      omega (arith, is.queries) in
    ap
      (λ n.
        r.row_start + local_context k.dcp_rank k.dcp_world k.dcp_interleave (n / k.compress_ratio))
      seen
    ∙ ap (λ n. r.row_start + n) (local_share k (visible r abs / k.compress_ratio) rank)

module _ (k : Config) (positive : 0 < k.block_size) where
  rows_kept :
      (rs : List RequestRow) (b : Bounds) (r : RequestRow) (abs : ℕ)
      → All IsRequest rs
      → All (Apart r) rs
      → r.query_start ≤ abs
      → abs < r.query_end
      → k.slice_start ≤ abs
      → RowStored k r abs b
      → RowStored k r abs (build_rows k b rs)
  unfolding build_rows build_row
  rows_kept [] b r abs is apart a c s row = row
  rows_kept (q ∷ qs) b r abs (i, is) ((apart, _), rest) a c s (ks, ke) =
      let e : abs - k.slice_start + k.slice_start ≡ abs = omega arith in
      let side =
        subst (λ x. (x < q.query_start) ⊎ (q.query_end ≤ x)) (sym e)
          (beside r.query_start r.query_end q.query_start q.query_end abs apart a c) in
      rows_kept qs (build_row k b q) r abs is rest a c s (
        program_keeps k.block_size k.slice_start k.slice_stop q.query_start q.query_end
              (abs - k.slice_start) (λ x. q.row_start) b.cu_seqlen_ks positive i.queries side
            ∙ ks,
        program_keeps k.block_size k.slice_start k.slice_stop q.query_start q.query_end
              (abs - k.slice_start) (row_end k q) b.cu_seqlen_ke positive i.queries side
            ∙ ke,
      )

  row_built :
      (b : Bounds) (r : RequestRow) (abs : ℕ)
      → r.query_start ≤ abs
      → abs < r.query_end
      → k.slice_start ≤ abs
      → abs < k.slice_stop
      → RowStored k r abs (build_row k b r)
  unfolding build_row
  row_built b r abs a c s t =
      let e : abs - k.slice_start + k.slice_start ≡ abs = omega arith in
      let store : (value out : ℕ → ℕ)
          → store_loop (r.query_end - r.query_start) k.block_size k.slice_start k.slice_stop
              r.query_start 0 (r.query_end - r.query_start) value out (abs - k.slice_start)
            ≡ value abs =
        λ value out.
          program_stores k.block_size k.slice_start k.slice_stop r.query_start r.query_end
            (abs - k.slice_start) value out positive (omega arith) (omega arith) (omega arith)
          ∙ ap value e in
      (store (λ x. r.row_start) b.cu_seqlen_ks, store (row_end k r) b.cu_seqlen_ke)

  keys_kept :
      (rs : List RequestRow) (b : Bounds) (r : RequestRow) (key : ℕ)
      → All IsRequest rs
      → All (Apart r) rs
      → r.seq_start ≤ key
      → key < r.seq_end
      → b.token_to_seq key ≡ r.batch_idx
      → (build_rows k b rs).token_to_seq key ≡ r.batch_idx
  unfolding build_rows build_row
  keys_kept [] b r key is apart a c own = own
  keys_kept (q ∷ qs) b r key (i, is) ((_, apart), rest) a c own =
      let e : key + 0 ≡ key = omega arith in
      let side =
        subst (λ x. (x < q.seq_start) ⊎ (q.seq_end ≤ x)) (sym e)
          (beside r.seq_start r.seq_end q.seq_start q.seq_end key apart a c) in
      keys_kept qs (build_row k b q) r key is rest a c (
        program_keeps k.block_size 0 q.seq_end q.seq_start q.seq_end key (λ x. q.batch_idx)
          b.token_to_seq positive i.keys side
        ∙ own)

  stored :
      (rs : List RequestRow) (b : Bounds) (i : ℕ) {r : RequestRow} (abs : ℕ)
      → All IsRequest rs
      → AllApart rs
      → get_elem? rs i ≡ some r
      → r.query_start ≤ abs
      → abs < r.query_end
      → k.slice_start ≤ abs
      → abs < k.slice_stop
      → RowStored k r abs (build_rows k b rs) × IsRequest r
  unfolding build_rows
  stored [] b i abs is apart at a c s t = absurd cc
  stored (q ∷ qs) b (suc i) abs (_, is) (_, apart) at a c s t =
      stored qs (build_row k b q) i abs is apart at a c s t
  stored (q ∷ qs) b zero {r = r} abs (i, is) (mine, apart) at a c s t =
      let same : q ≡ r = cc in
      (
        rows_kept qs (build_row k b q) r abs is (subst (λ x. All (Apart x) qs) same mine) a c s (
            subst (λ x. RowStored k r abs (build_row k b x)) (sym same)
              (row_built b r abs a c s t)),
        subst IsRequest same i,
      )

  -- After a launch over requests that share no query and no key, in any order: each query of the
  -- chunk's slice has the row of its request in its place. The row begins at the request's row start
  -- and has a key for each whole pool of the tokens up to and with the query, where the queries are the
  -- last tokens of the sequence; with more than one rank it has those keys that fall to this rank in
  -- turn.
  pub build_rows-HasRow :
      (rs : List RequestRow) (b : Bounds) (i : ℕ) {r : RequestRow} (abs : ℕ)
      → IsRank k
      → r.query_end - r.query_start ≤ r.uncompressed_seq_len
      → All IsRequest rs
      → AllApart rs
      → get_elem? rs i ≡ some r
      → r.query_start ≤ abs
      → abs < r.query_end
      → k.slice_start ≤ abs
      → abs < k.slice_stop
      → HasRow k r abs (build_rows k b rs)
  build_rows-HasRow rs b i {r = r} abs rank tokens is apart at a c s t =
      let ((ks, ke), ok) = stored rs b i abs is apart at a c s t in
      (ks, ke ∙ row_end_lem k r abs rank ok tokens a c)

  -- After such a launch each key of the chunk is mapped to its request.
  pub build_rows-keys :
      (rs : List RequestRow) (b : Bounds) (i : ℕ) {r : RequestRow} (key : ℕ)
      → All IsRequest rs
      → AllApart rs
      → get_elem? rs i ≡ some r
      → r.seq_start ≤ key
      → key < r.seq_end
      → (build_rows k b rs).token_to_seq key ≡ r.batch_idx
  unfolding build_rows build_row
  build_rows-keys [] b i key is apart at a c = absurd cc
  build_rows-keys (q ∷ qs) b (suc i) key (_, is) (_, apart) at a c =
      build_rows-keys qs (build_row k b q) i key is apart at a c
  build_rows-keys (q ∷ qs) b zero {r = r} key (_, is) (mine, apart) at a c =
      let same : q ≡ r = cc in
      let e : key + 0 ≡ key = omega arith in
      let built : (build_row k b r).token_to_seq key ≡ r.batch_idx =
        program_stores k.block_size 0 r.seq_end r.seq_start r.seq_end key (λ x. r.batch_idx)
          b.token_to_seq positive (omega arith) (omega arith) (omega arith) in
      keys_kept qs (build_row k b q) r key is (subst (λ x. All (Apart x) qs) same mine) a c
        (subst (λ x. (build_row k b x).token_to_seq key ≡ r.batch_idx) (sym same) built)
