-- ===== src/TailRing.antt =====
-- vllm/models/glm5next/nvidia/ops/kpool_compress.py: the tail ring of the pooled key cache. The
-- tail cache `[num_blocks, 2, pool_size, head_dim]` is a function from a block and a slot to an
-- entry, the raw key of a token with its gate score; the indexer cache is a function from a flat
-- location to a compressed key. `compress` stands for the arithmetic on the entries of one pool,
-- in pool order: softmax with the position bias, weighted sum, rotation and quantization.
pub mod Decode
pub mod Frame
pub mod Batch
pub mod Seed
pub mod Prefill
pub mod Slots
pub mod Mapping
pub mod Tests
use glm53flash_pp.Base.{
  ℕ, zero, suc, ◌+◌, ◌-◌, ◌*◌, ◌/◌, ◌%◌, List, [], ◌∷◌, ◌&&◌, not, ltb, ◌==◌, if◌then◌else◌, length,
  get_or, columns, ℤ, pos, minus_one, pos_part, is_negative,
}

-- `out[...] = ...` at one address, and at one slot of one block.
abbrev pub write {ℓ} : {A : Type ℓ} → (ℕ → A) → ℕ → A → ℕ → A
write m at v i = if i == at then v else m i

abbrev pub write_slot {ℓ} : {A : Type ℓ} → (ℕ → ℕ → A) → ℕ → ℕ → A → ℕ → ℕ → A
write_slot m block slot v b s = if (b == block) && (s == slot) then v else m b s

pub record Caches (Entry Pooled : Type 0) : Type 0 where
  pub tail : ℕ → ℕ → Entry
  pub cache : ℕ → Pooled

-- What a program loads for one token.
pub record VerifyToken (Entry : Type 0) : Type 0 where
  pub position : ℤ
  pub cache_loc : ℤ
  pub tail_slot : ℤ
  pub entry : Entry

module _ {Entry Pooled : Type 0} (compress : List Entry → Pooled) (pool_size : ℕ) where
  -- One round of the loop of `_kpool_decode_update_batched_kernel`: a token that completes its pool
  -- compresses it, and then the token is stashed in the ring.
  unfoldable pub decode_token : Caches Entry Pooled → VerifyToken Entry → Caches Entry Pooled
  decode_token c t =
      let safe_pos = pos_part t.position in
      let slot = safe_pos % pool_size in
      let pos_valid = not (is_negative t.cache_loc) && not (is_negative t.position) in
      let block = pos_part t.tail_slot / pool_size in
      let stash_valid = not (is_negative t.position) && not (is_negative t.tail_slot) in
      let pool_logical_start = safe_pos - slot in
      let pool =
        columns pool_size (λ s.
          if s == slot then t.entry else c.tail block ((pool_logical_start + s) % pool_size)) in
      record {
        tail = if stash_valid then write_slot c.tail block slot t.entry else c.tail;
        cache =
            if pos_valid && (slot == pool_size - 1)
            then write c.cache (pos_part t.cache_loc) (compress pool)
            else c.cache;
      }

  -- The program of one request: its tokens in order.
  unfoldable pub decode_request :
      Caches Entry Pooled → List (VerifyToken Entry) → Caches Entry Pooled
  decode_request c [] = c
  decode_request c (t ∷ ts) = decode_request (decode_token c t) ts

  -- A launch: the programs of the requests, in the order in which they happen to run.
  unfoldable pub decode_batch :
      Caches Entry Pooled → List (List (VerifyToken Entry)) → Caches Entry Pooled
  decode_batch c [] = c
  decode_batch c (r ∷ rs) = decode_batch (decode_request c r) rs

-- `_kpool_tail_seed_kernel`: the program of token `i` of a prefill batch with `tslot`.
unfoldable pub seed_token {ℓ} :
    {Entry : Type ℓ} → ℕ → List ℤ → (ℕ → Entry) → (ℕ → ℕ → Entry) → ℕ → ℕ → ℕ → Entry
seed_token pool_size tslot entries tail i =
    let t = get_or tslot i minus_one in
    let blk = pos_part t / pool_size in
    let ahead =
      if ltb (i + pool_size) (length tslot)
      then get_or tslot (i + pool_size) minus_one
      else minus_one in
    if is_negative t
    then tail
    else if not (is_negative ahead) && (pos_part ahead / pool_size == blk)
    then tail
    else write_slot tail blk (pos_part t % pool_size) (entries i)

-- A launch of `kpool_seed_tail_cache`: the programs in the order in which they happen to run.
unfoldable pub kpool_seed_tail_cache {ℓ} :
    {Entry : Type ℓ} → ℕ → List ℤ → (ℕ → Entry) → (ℕ → ℕ → Entry) → List ℕ → ℕ → ℕ → Entry
kpool_seed_tail_cache pool_size tslot entries tail [] = tail
kpool_seed_tail_cache pool_size tslot entries tail (i ∷ is) =
    kpool_seed_tail_cache pool_size tslot entries (seed_token pool_size tslot entries tail i) is
