-- ===== src/TailRing/Prefill.antt =====
-- A prefill leaves the ring ready for the decode steps of its requests.
use glm53flash_pp.Base.{
  ℕ, suc, ◌+◌, ◌-◌, ◌/◌, ◌%◌, ◌≤◌, ◌<◌, ◌≡◌, ◌≢◌, subst, ◌∙◌, some, List, arith, length, get_elem?,
  get_elem?-lt, All, ℤ,
}
use native.Mathlib.Decide.{dec_le}
use glm53flash_pp.TailRing.{Caches, kpool_seed_tail_cache}
use glm53flash_pp.TailRing.Decode.{Stream, Holds}
use glm53flash_pp.TailRing.Seed.{IsPrefill, seed_keeps, seed_stores}

-- Every token of the batch has its program in the launch, and no other program runs.
pub record IsLaunch (tslot : List ℤ) (order : List ℕ) : Type 0 where
  pub inside : All (λ i. i < length tslot) order
  pub complete : (i : ℕ) → i < length tslot → (n : ℕ) × (get_elem? order n ≡ some i)

one_pool : (n p q : ℕ) → 0 < n → p ≤ q → p / n ≡ q / n → q < p + n
one_pool n p q h a e = grind arith

between : (n p k q : ℕ) → 0 < n → p < k → k < q → p / n ≡ q / n → k % n ≢ p % n
between n p k q h a b e = λ f. absurd (grind arith)

between_pool : (n p k q : ℕ) → 0 < n → p < k → k ≤ q → p / n ≡ q / n → p / n ≡ k / n
between_pool n p k q h a b e = grind arith

-- A prefill batch of requests with their own tail blocks, padding included, in which request `r`
-- goes on from position `start r`: if its ring held the tokens of the open pool
-- before, a launch of the seed kernel over the batch, in any order, leaves it with the tokens of
-- the pool that is open after the prefill, from this batch or from before it.
pub seed-Holds :
    {Entry Pooled : Type 0} (pool_size : ℕ) (tslot : List ℤ) (num_reqs : ℕ)
    (first start block : ℕ → ℕ) (stream : Stream Entry) (entries : ℕ → Entry) (r : ℕ)
    (order : List ℕ) (c : Caches Entry Pooled)
    → IsPrefill pool_size tslot num_reqs first start block
    → IsLaunch tslot order
    → 0 < pool_size
    → r < num_reqs
    → first r ≤ first (suc r)
    → stream.block ≡ block r
    → ((k : ℕ)
        → first r ≤ k
        → k < first (suc r)
        → entries k ≡ stream.history (start r + (k - first r)))
    → Holds pool_size stream (start r) c
    → Holds pool_size stream
        (start r + (first (suc r) - first r))
        (record c { tail = kpool_seed_tail_cache pool_size tslot entries c.tail order })
seed-Holds P tslot num_reqs first start block stream entries r order c prefill launch h l m own same
      holds p less pool =
    let q = start r + (first (suc r) - first r) in
    let near = one_pool P p q h (omega arith) pool in
    rw own (elim (dec_le (start r) p) [
      | yes new ↦
          let i = first r + (p - start r) in
          let here : start r + (i - first r) ≡ p = omega arith in
          let bound = get_elem?-lt tslot i (prefill.slots r i l (omega arith) (omega arith)) in
          let (n, at) = launch.complete i bound in
          subst
            (λ x.
              kpool_seed_tail_cache P tslot entries c.tail order (block r) (x % P)
              ≡ stream.history x)
            here
            (seed_stores prefill h entries r i n order c.tail l (omega arith) (omega arith)
                (omega arith) launch.inside at
              ∙ same i (omega arith) (omega arith))
      | no old ↦
          seed_keeps prefill h entries r (p % P) (stream.history p) order c.tail l launch.inside
            (λ k a b last e.
              absurd (between P p (start r + (k - first r)) q h (omega arith) (omega arith) pool e))
            (subst (λ x. c.tail x (p % P) ≡ stream.history p) own
              (holds p (omega arith)
                (between_pool P p (start r) q h (omega arith) (omega arith) pool)))
    ])
