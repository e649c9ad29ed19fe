-- ===== src/TailRing/Seed.antt =====
-- A launch of the seed kernel over a prefill batch, in any order of its programs.
use glm53flash_pp.Base.{
  ℕ, zero, suc, ◌+◌, ◌-◌, ◌*◌, ◌/◌, ◌%◌, ◌≤◌, ◌<◌, ◌≡◌, ◌≢◌, refl, sym, ap, subst, ◌∙◌, some, List,
  [], ◌∷◌, true, false, arith, ltb, ◌==◌, ◌&&◌, length, get_elem?, get_elem?-lt, get_or, All, ℤ,
  pos, negsuc, ◌⊎◌, is_negative, minus_one, Bool-cases, inl, inr,
}
use native.Mathlib.Decide.{dec_le, dec_lt}
use glm53flash_pp.Kpool.Expand.{get_or-some}
use glm53flash_pp.TailRing.{write_slot, seed_token, kpool_seed_tail_cache}
use glm53flash_pp.TailRing.Decode.{own_block, write_slot_same}

-- The tokens of a prefill batch: request `r` has those from `first r` to `first (r + 1)`, at the
-- positions from `start r` on, and its own tail block. Other entries are padding, which is negative.
pub record IsPrefill (pool_size : ℕ) (tslot : List ℤ) (num_reqs : ℕ) (first start block : ℕ → ℕ)
    : Type 0 where
  pub slots :
      (r i : ℕ)
      → r < num_reqs
      → first r ≤ i
      → i < first (suc r)
      → get_elem? tslot i ≡ some (pos (block r * pool_size + (start r + (i - first r)) % pool_size))
  pub owner :
      (i : ℕ)
      → i < length tslot
      → ((r : ℕ) × (r < num_reqs) × (first r ≤ i) × (i < first (suc r)))
        ⊎ ((n : ℕ) × (get_elem? tslot i ≡ some (negsuc n)))
  pub own : (r r' : ℕ) → r < num_reqs → r' < num_reqs → block r ≡ block r' → r ≡ r'

write_slot_agrees {ℓ} :
    {A : Type ℓ} (m : ℕ → ℕ → A) (b s : ℕ) (v : A) (b' s' : ℕ) (w : A)
    → (b' ≡ b → s' ≡ s → v ≡ w)
    → m b' s' ≡ w
    → write_slot m b s v b' s' ≡ w
write_slot_agrees m b s v b' s' w h k = elim (Bool-cases ((b' == b) && (s' == s))) [
  | inr other ↦ rw other k
  | inl here ↦ rw here (h (ground arith) (ground arith))
]

pub close_residues : (n x y : ℕ) → 0 < n → x ≤ y → y < x + n → x % n ≡ y % n → x ≡ y
close_residues n x y h a b same = grind arith

-- Two of the last `pool_size` tokens of a request with the same slot are the same token.
same_index :
    (pool_size first end start i j : ℕ)
    → 0 < pool_size
    → first ≤ i
    → i < end
    → end ≤ i + pool_size
    → first ≤ j
    → j < end
    → end ≤ j + pool_size
    → (start + (i - first)) % pool_size ≡ (start + (j - first)) % pool_size
    → i ≡ j
same_index pool_size first end start i j h a b c d e f same = elim (dec_le i j) [
  | yes le ↦
      let z =
        close_residues pool_size (start + (i - first)) (start + (j - first)) h (omega arith)
          (omega arith) same in
      omega arith
  | no gt ↦
      let z =
        close_residues pool_size (start + (j - first)) (start + (i - first)) h (omega arith)
          (omega arith) (sym same) in
      omega arith
]

module _ {pool_size : ℕ} {tslot : List ℤ} {num_reqs : ℕ} {first start block : ℕ → ℕ}
    {Entry : Type 0} (prefill : IsPrefill pool_size tslot num_reqs first start block)
    (positive : 0 < pool_size) (entries : ℕ → Entry) where
  loaded :
      (r i : ℕ)
      → r < num_reqs
      → first r ≤ i
      → i < first (suc r)
      → get_or tslot i minus_one ≡ pos (block r * pool_size + (start r + (i - first r)) % pool_size)
  loaded r i l a b = get_or-some tslot i minus_one (prefill.slots r i l a b)

  -- Padding is not stored.
  seed_token_padding :
      (i n : ℕ) (tail : ℕ → ℕ → Entry)
      → get_elem? tslot i ≡ some (negsuc n)
      → seed_token pool_size tslot entries tail i ≡ tail
  unfolding seed_token
  seed_token_padding i n tail padding =
      let here = get_or-some tslot i minus_one padding in
      let negative : is_negative (get_or tslot i minus_one) ≡ true = rw here refl in
      rw negative refl

  -- A token whose request goes on for `pool_size` more tokens is not stored.
  seed_token_skip :
      (r i : ℕ) (tail : ℕ → ℕ → Entry)
      → r < num_reqs
      → first r ≤ i
      → i + pool_size < first (suc r)
      → seed_token pool_size tslot entries tail i ≡ tail
  unfolding seed_token
  seed_token_skip r i tail l a b =
      let here = loaded r i l a (omega arith) in
      let there = loaded r (i + pool_size) l (omega arith) b in
      let inside =
        get_elem?-lt tslot (i + pool_size) (prefill.slots r (i + pool_size) l (omega arith) b) in
      let bound : ltb (i + pool_size) (length tslot) ≡ true = ground arith in
      let own : (block r * pool_size + (start r + (i - first r)) % pool_size) / pool_size
          ≡ block r =
        own_block pool_size (block r) (start r + (i - first r)) positive in
      let own' : (block r * pool_size + (start r + (i + pool_size - first r)) % pool_size)
            / pool_size
          ≡ block r =
        own_block pool_size (block r) (start r + (i + pool_size - first r)) positive in
      let same : (block r == block r) ≡ true = ground arith in
      simp (here, bound, there, own, own', same)

  -- The last `pool_size` tokens of a request are stored.
  seed_token_store :
      (r i : ℕ) (tail : ℕ → ℕ → Entry)
      → r < num_reqs
      → first r ≤ i
      → i < first (suc r)
      → first (suc r) ≤ i + pool_size
      → seed_token pool_size tslot entries tail i
        ≡ write_slot tail (block r) ((start r + (i - first r)) % pool_size) (entries i)
  unfolding seed_token
  seed_token_store r i tail l a b last =
      let here = loaded r i l a b in
      let own : (block r * pool_size + (start r + (i - first r)) % pool_size) / pool_size
          ≡ block r =
        own_block pool_size (block r) (start r + (i - first r)) positive in
      let slot : (block r * pool_size + (start r + (i - first r)) % pool_size) % pool_size
          ≡ (start r + (i - first r)) % pool_size =
        grind arith in
      elim (dec_lt (i + pool_size) (length tslot)) [
        | no beyond ↦
            let bound : ltb (i + pool_size) (length tslot) ≡ false = ground arith in
            simp (here, bound, own, slot)
        | yes inside ↦
            let bound : ltb (i + pool_size) (length tslot) ≡ true = ground arith in
            elim (prefill.owner (i + pool_size) inside) [
              | inr (n, padding) ↦
                  let there = get_or-some tslot (i + pool_size) minus_one padding in
                  simp (here, bound, there, own, slot)
              | inl (r', l', a', b') ↦
                  let there = loaded r' (i + pool_size) l' a' b' in
                  let own' : (block r' * pool_size
                          + (start r' + (i + pool_size - first r')) % pool_size)
                        / pool_size
                      ≡ block r' =
                    own_block pool_size (block r') (start r' + (i + pool_size - first r'))
                      positive in
                  let ne : block r' ≢ block r = λ e.
                    let same : r' ≡ r = prefill.own r' r l' l e in
                    let b'' : i + pool_size < first (suc r) =
                      subst (λ x. i + pool_size < first (suc x)) same b' in
                    absurd (omega arith) in
                  let other : (block r' == block r) ≡ false = ground arith in
                  simp (here, bound, there, own, own', slot, other)
            ]
      ]

  -- The value of a slot that every stored token of its own agrees with is kept.
  seed_token_keeps :
      (r i s : ℕ) (v : Entry) (tail : ℕ → ℕ → Entry)
      → r < num_reqs
      → i < length tslot
      → ((k : ℕ)
          → first r ≤ k
          → k < first (suc r)
          → first (suc r) ≤ k + pool_size
          → (start r + (k - first r)) % pool_size ≡ s
          → entries k ≡ v)
      → tail (block r) s ≡ v
      → seed_token pool_size tslot entries tail i (block r) s ≡ v
  seed_token_keeps r i s v tail l inside agree kept = elim (prefill.owner i inside) [
    | inr (n, padding) ↦ ap (λ t. t (block r) s) (seed_token_padding i n tail padding) ∙ kept
    | inl (r', l', a', b') ↦ elim (dec_le (first (suc r')) (i + pool_size)) [
      | no skipped ↦ ap (λ t. t (block r) s) (seed_token_skip r' i tail l' a' (omega arith)) ∙ kept
      | yes last ↦
          ap (λ t. t (block r) s) (seed_token_store r' i tail l' a' b' last)
          ∙ write_slot_agrees tail (block r') ((start r' + (i - first r')) % pool_size) (entries i)
              (block r) s v
              (λ e f.
                let same : r' ≡ r = prefill.own r' r l' l (sym e) in
                agree i (subst (λ x. first x ≤ i) same a') (subst (λ x. i < first (suc x)) same b')
                  (subst (λ x. first (suc x) ≤ i + pool_size) same last)
                  (subst (λ x. (start x + (i - first x)) % pool_size ≡ s) same (sym f)))
              kept
    ]
  ]

  pub seed_keeps :
      (r s : ℕ) (v : Entry) (order : List ℕ) (tail : ℕ → ℕ → Entry)
      → r < num_reqs
      → All (λ i. i < length tslot) order
      → ((k : ℕ)
          → first r ≤ k
          → k < first (suc r)
          → first (suc r) ≤ k + pool_size
          → (start r + (k - first r)) % pool_size ≡ s
          → entries k ≡ v)
      → tail (block r) s ≡ v
      → kpool_seed_tail_cache pool_size tslot entries tail order (block r) s ≡ v
  unfolding kpool_seed_tail_cache
  seed_keeps r s v [] tail l inside agree kept = kept
  seed_keeps r s v (i ∷ order) tail l (a, inside) agree kept =
      seed_keeps r s v order (seed_token pool_size tslot entries tail i) l inside agree
        (seed_token_keeps r i s v tail l a agree kept)

  -- A stored token of the batch whose program has run.
  pub seed_stores :
      (r i n : ℕ) (order : List ℕ) (tail : ℕ → ℕ → Entry)
      → r < num_reqs
      → first r ≤ i
      → i < first (suc r)
      → first (suc r) ≤ i + pool_size
      → All (λ j. j < length tslot) order
      → get_elem? order n ≡ some i
      → kpool_seed_tail_cache pool_size tslot entries tail order
          (block r)
          ((start r + (i - first r)) % pool_size)
        ≡ entries i
  unfolding kpool_seed_tail_cache
  seed_stores r i n [] tail l a b last inside at = absurd cc
  seed_stores r i (suc n) (j ∷ order) tail l a b last (k, inside) at =
      seed_stores r i n order (seed_token pool_size tslot entries tail j) l a b last inside at
  seed_stores r i zero (j ∷ order) tail l a b last (k, inside) at =
      let same : j ≡ i = cc in
      let stored : seed_token pool_size tslot entries tail j (block r)
            ((start r + (i - first r)) % pool_size)
          ≡ entries i =
        ap
          (λ x.
            seed_token pool_size tslot entries tail x (block r)
              ((start r + (i - first r)) % pool_size))
          same
        ∙ ap (λ t. t (block r) ((start r + (i - first r)) % pool_size))
            (seed_token_store r i tail l a b last)
        ∙ write_slot_same tail (block r) ((start r + (i - first r)) % pool_size) (entries i) in
      seed_keeps r ((start r + (i - first r)) % pool_size) (entries i) order
        (seed_token pool_size tslot entries tail j) l inside
        (λ k' a' b' last' e. ap entries (
          same_index pool_size (first r) (first (suc r)) (start r) k' i positive a' b' last' a b
            last e))
        stored
