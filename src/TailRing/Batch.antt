-- ===== src/TailRing/Batch.antt =====
-- A launch of the decode kernel over the requests of a batch, in any order.
use glm53flash_pp.Base.{
  ℕ, zero, suc, ◌+◌, ◌-◌, ◌%◌, ◌≤◌, ◌<◌, ◌≡◌, ◌≢◌, refl, sym, subst, ◌∙◌, some, List, [], ◌∷◌, map,
  get_elem?, All, pos,
}
use glm53flash_pp.TailRing.{Caches, decode_request, decode_batch}
use glm53flash_pp.TailRing.Decode.{Stream, Holds, pooled}
use glm53flash_pp.TailRing.Frame.{
  tokens, decode_request-Holds, decode_request_other_block, decode_request_other_loc,
  decode_request-pooled,
}

-- A request of the batch: its stream, its first position in this step and its number of tokens.
pub record Job (Entry : Type 0) : Type 0 where
  pub stream : Stream Entry
  pub first : ℕ
  pub count : ℕ

-- Two requests have different tail blocks and share no cache location.
abbrev pub Separate : {Entry : Type 0} → Job Entry → Job Entry → Type 0
Separate j k =
    (j.stream.block ≢ k.stream.block)
    × ((p p' l : ℕ) → j.stream.loc p ≡ pos l → k.stream.loc p' ≢ pos l)

abbrev pub AllSeparate : {Entry : Type 0} → List (Job Entry) → Type 0
AllSeparate [] = Unit
AllSeparate (j ∷ js) = All (Separate j) js × AllSeparate js

-- No location serves two positions of a request.
abbrev pub OwnLocs : {Entry : Type 0} → Job Entry → Type 0
OwnLocs j = (p p' l : ℕ) → j.stream.loc p ≡ pos l → j.stream.loc p' ≡ pos l → p ≡ p'

-- The ring of the request holds the tokens before this step that are in the open pool.
abbrev pub Ready : {Entry Pooled : Type 0} → ℕ → Caches Entry Pooled → Job Entry → Type 0
Ready pool_size c j = Holds pool_size j.stream j.first c

Separate-sym : {Entry : Type 0} (j k : Job Entry) → Separate j k → Separate k j
Separate-sym j k (b, l) = (λ e. b (sym e), λ p p' x a e. l p' p x e a)

Holds-same :
    {Entry Pooled : Type 0} (pool_size : ℕ) (r : Stream Entry) (q : ℕ) (c d : Caches Entry Pooled)
    → ((s : ℕ) → d.tail r.block s ≡ c.tail r.block s)
    → Holds pool_size r q c
    → Holds pool_size r q d
Holds-same pool_size r q c d same h p l e = same (p % pool_size) ∙ h p l e

module _ {Entry Pooled : Type 0} (compress : List Entry → Pooled) (pool_size : ℕ) where
  abbrev pub run_jobs : Caches Entry Pooled → List (Job Entry) → Caches Entry Pooled
  run_jobs c js =
      decode_batch compress pool_size c (map (λ j. tokens pool_size j.stream j.first j.count) js)

  run_jobs_other_block :
      (js : List (Job Entry)) (c : Caches Entry Pooled) (j : Job Entry) (s : ℕ)
      → 0 < pool_size
      → All (Separate j) js
      → (run_jobs c js).tail j.stream.block s ≡ c.tail j.stream.block s
  unfolding decode_batch
  run_jobs_other_block [] c j s h sep = refl
  run_jobs_other_block (k ∷ ks) c j s h ((b, l), sep) =
      run_jobs_other_block ks
        (decode_request compress pool_size c (tokens pool_size k.stream k.first k.count)) j s h sep
      ∙ decode_request_other_block compress pool_size k.stream k.first k.count c j.stream.block s h
          b

  run_jobs_other_loc :
      (js : List (Job Entry)) (c : Caches Entry Pooled) (j : Job Entry) (p l : ℕ)
      → All (Separate j) js
      → j.stream.loc p ≡ pos l
      → (run_jobs c js).cache l ≡ c.cache l
  unfolding decode_batch
  run_jobs_other_loc [] c j p l sep at = refl
  run_jobs_other_loc (k ∷ ks) c j p l ((b, ne), sep) at =
      run_jobs_other_loc ks
        (decode_request compress pool_size c (tokens pool_size k.stream k.first k.count)) j p l sep
        at
      ∙ decode_request_other_loc compress pool_size k.stream k.first k.count c l
          (λ p' a b' f. ne p p' l at)

  decode_request-Ready :
      (js : List (Job Entry)) (k : Job Entry) (c : Caches Entry Pooled)
      → 0 < pool_size
      → All (Separate k) js
      → All (Ready pool_size c) js
      → All
          (Ready pool_size
            (decode_request compress pool_size c (tokens pool_size k.stream k.first k.count)))
          js
  decode_request-Ready [] k c h sep r = tt
  decode_request-Ready (j ∷ js) k c h ((b, l), sep) (r, rs) = (
    Holds-same pool_size j.stream j.first c
        (decode_request compress pool_size c (tokens pool_size k.stream k.first k.count))
        (λ s.
          decode_request_other_block compress pool_size k.stream k.first k.count c j.stream.block s
            h (λ e. b (sym e)))
        r,
    decode_request-Ready js k c h sep rs,
  )

  first_job :
      (j : Job Entry) (js : List (Job Entry)) (c : Caches Entry Pooled) (p l : ℕ)
      → 0 < pool_size
      → All (Separate j) js
      → OwnLocs j
      → Ready pool_size c j
      → j.first ≤ p
      → p < j.first + j.count
      → p % pool_size ≡ pool_size - 1
      → j.stream.loc p ≡ pos l
      → ((run_jobs c (j ∷ js)).cache l ≡ pooled compress pool_size j.stream p)
        × Holds pool_size j.stream (j.first + j.count) (run_jobs c (j ∷ js))
  unfolding decode_batch
  first_job j js c p l h sep own ready a b full at =
      let c' = decode_request compress pool_size c (tokens pool_size j.stream j.first j.count) in
      (
        run_jobs_other_loc js c' j p l sep at
            ∙ decode_request-pooled compress pool_size j.stream j.first j.count c p l h ready a b
                full at (λ p' e. own p' p l e at),
        Holds-same pool_size j.stream (j.first + j.count) c' (run_jobs c' js)
            (λ s. run_jobs_other_block js c' j s h sep)
            (decode_request-Holds compress pool_size j.stream j.first j.count c h ready),
      )

  -- After a launch over requests with their own tail blocks and cache locations, in any order:
  -- where a request completes a pool at position `p`, the location of `p` holds the compressed key
  -- of exactly the `pool_size` tokens of that pool, in order, whether they came with this step or
  -- were in the ring before it; and the ring of the request holds the tokens of the pool that is
  -- open after the step. The rings hold those of the pools that are open before it.
  pub decode_batch-pooled :
      (js : List (Job Entry)) (c : Caches Entry Pooled) (i : ℕ) {j : Job Entry} (p l : ℕ)
      → 0 < pool_size
      → AllSeparate js
      → All OwnLocs js
      → All (Ready pool_size c) js
      → get_elem? js i ≡ some j
      → j.first ≤ p
      → p < j.first + j.count
      → p % pool_size ≡ pool_size - 1
      → j.stream.loc p ≡ pos l
      → ((run_jobs c js).cache l ≡ pooled compress pool_size j.stream p)
        × Holds pool_size j.stream (j.first + j.count) (run_jobs c js)
  unfolding decode_batch
  decode_batch-pooled [] c i p l h sep own ready at a b full loc = absurd cc
  decode_batch-pooled (k ∷ ks) c (suc i) p l h (s, sep) (o, own) (r, ready) at a b full loc =
      decode_batch-pooled ks
        (decode_request compress pool_size c (tokens pool_size k.stream k.first k.count)) i p l h
        sep own (decode_request-Ready ks k c h s ready) at a b full loc
  decode_batch-pooled (k ∷ ks) c zero {j = j} p l h (s, sep) (o, own) (r, ready) at a b full loc =
      let same : k ≡ j = cc in
      subst
        (λ x.
          x.first ≤ p
          → p < x.first + x.count
          → x.stream.loc p ≡ pos l
          → ((run_jobs c (k ∷ ks)).cache l ≡ pooled compress pool_size x.stream p)
            × Holds pool_size x.stream (x.first + x.count) (run_jobs c (k ∷ ks)))
        same (λ a' b' loc'. first_job k ks c p l h s o r a' b' full loc') a b loc
