-- ===== src/TailRing/Decode.antt =====
-- One token of a request: what it writes, and what the ring holds before and after it.
use glm53flash_pp.Base.{
  ℕ, zero, suc, ◌+◌, ◌-◌, ◌*◌, ◌/◌, ◌%◌, ◌<◌, ◌≡◌, ◌≢◌, refl, ap, ap₂, ◌∙◌, List, ◌∷◌, true, arith,
  ◌==◌, if◌then◌else◌, Bool-cases, inl, inr, columns, ℤ, pos,
}
use native.Mathlib.Decide.{dec_le}
use glm53flash_pp.TailRing.{Caches, VerifyToken, write_slot, decode_token}

pub columns-ext {ℓ} :
    {A : Type ℓ} (n : ℕ) (f g : ℕ → A) → ((i : ℕ) → i < n → f i ≡ g i) → columns n f ≡ columns n g
columns-ext zero f g h = refl
columns-ext (suc n) f g h =
    ap₂ (λ x xs. x ∷ xs) (h 0 (omega arith))
      (columns-ext n (λ i. f (suc i)) (λ i. g (suc i)) (λ i l. h (suc i) (omega arith)))

-- A request: its tail block, the entry and the cache location of each of its positions. The
-- location is negative where the slot mapping holds none.
pub record Stream (Entry : Type 0) : Type 0 where
  pub block : ℕ
  pub history : ℕ → Entry
  pub loc : ℕ → ℤ

pub write_slot_same {ℓ} :
    {A : Type ℓ} (m : ℕ → ℕ → A) (b s : ℕ) (v : A) → write_slot m b s v b s ≡ v
write_slot_same m b s v = ground arith

pub write_slot_other {ℓ} :
    {A : Type ℓ} (m : ℕ → ℕ → A) (b s : ℕ) (v : A) (s' : ℕ)
    → s' ≢ s
    → write_slot m b s v b s' ≡ m b s'
write_slot_other m b s v s' h = ground arith

-- The token at position `q`, with the circular tail slot.
abbrev pub token_at : {Entry : Type 0} → ℕ → Stream Entry → ℕ → VerifyToken Entry
token_at pool_size r q = record {
  position = pos q;
  cache_loc = r.loc q;
  tail_slot = pos (r.block * pool_size + q % pool_size);
  entry = r.history q;
}

-- The ring holds the tokens before position `q` that are in the pool of `q`.
abbrev pub Holds : {Entry Pooled : Type 0} → ℕ → Stream Entry → ℕ → Caches Entry Pooled → Type 0
Holds pool_size r q c =
    (p : ℕ) → p < q → p / pool_size ≡ q / pool_size → c.tail r.block (p % pool_size) ≡ r.history p

pub own_block :
    (pool_size : ℕ) (b q : ℕ) → 0 < pool_size → (b * pool_size + q % pool_size) / pool_size ≡ b
own_block pool_size b q h = grind arith

same_slot :
    (pool_size : ℕ) (p q : ℕ)
    → 0 < pool_size
    → p < q
    → p / pool_size ≡ q / pool_size
    → p % pool_size ≢ q % pool_size
same_slot pool_size p q h l e = λ f. absurd (grind arith)

earlier_pool :
    (pool_size : ℕ) (p q : ℕ)
    → 0 < pool_size
    → p < q
    → p / pool_size ≡ suc q / pool_size
    → p / pool_size ≡ q / pool_size
earlier_pool pool_size p q h l e = grind arith

module _ {Entry Pooled : Type 0} (compress : List Entry → Pooled) (pool_size : ℕ) where
  -- The compressed key of the pool that position `q` is in.
  abbrev pub pooled : Stream Entry → ℕ → Pooled
  pooled r q = compress (columns pool_size (λ s. r.history (q / pool_size * pool_size + s)))

  pub decode_token-Holds :
      (r : Stream Entry) (q : ℕ) (c : Caches Entry Pooled)
      → 0 < pool_size
      → Holds pool_size r q c
      → Holds pool_size r (suc q) (decode_token compress pool_size c (token_at pool_size r q))
  unfolding decode_token
  decode_token-Holds r q c h holds p l e =
      let b = own_block pool_size r.block q h in
      elim (dec_le q p) [
        | yes last ↦
            let same : p ≡ q = omega arith in
            rw (b, same) (write_slot_same c.tail r.block (q % pool_size) (r.history q))
        | no before ↦
            let less : p < q = omega arith in
            let e' = earlier_pool pool_size p q h less e in
            rw b (
              write_slot_other c.tail r.block (q % pool_size) (r.history q) (p % pool_size)
                (same_slot pool_size p q h less e')
              ∙ holds p less e')
      ]

  -- What a completion reads from the ring.
  pool_entry :
      (r : Stream Entry) (q : ℕ) (c : Caches Entry Pooled) (s : ℕ)
      → 0 < pool_size
      → q % pool_size ≡ pool_size - 1
      → Holds pool_size r q c
      → s < pool_size
      → (if s == q % pool_size
          then r.history q
          else c.tail r.block ((q - q % pool_size + s) % pool_size))
        ≡ r.history (q / pool_size * pool_size + s)
  pool_entry r q c s h full holds l =
      let start : q - q % pool_size ≡ q / pool_size * pool_size = grind arith in
      elim (Bool-cases (s == q % pool_size)) [
        | inl current ↦
            let here : s ≡ q % pool_size = ground arith in
            let whole : q / pool_size * pool_size + s ≡ q = grind arith in rw (current, whole) refl
        | inr earlier ↦
            let less : q / pool_size * pool_size + s < q =
              let ne : s ≢ q % pool_size = ground arith in grind arith in
            let pool : (q / pool_size * pool_size + s) / pool_size ≡ q / pool_size = grind arith in
            rw (earlier, start) (holds (q / pool_size * pool_size + s) less pool)
      ]

  pub decode_token-pooled :
      (r : Stream Entry) (q : ℕ) (c : Caches Entry Pooled) (l : ℕ)
      → 0 < pool_size
      → Holds pool_size r q c
      → q % pool_size ≡ pool_size - 1
      → r.loc q ≡ pos l
      → (decode_token compress pool_size c (token_at pool_size r q)).cache l ≡ pooled r q
  unfolding decode_token
  decode_token-pooled r q c l h holds full at =
      let b = own_block pool_size r.block q h in
      let done : (q % pool_size == pool_size - 1) ≡ true = ground arith in
      let here : (l == l) ≡ true = ground arith in
      rw (b, at, done, here)
        (ap compress (
          columns-ext pool_size
            (λ s.
              if s == q % pool_size
              then r.history q
              else c.tail r.block ((q - q % pool_size + s) % pool_size))
            (λ s. r.history (q / pool_size * pool_size + s))
            (λ s k. pool_entry r q c s h full holds k)))
