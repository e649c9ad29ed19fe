-- ===== src/TailRing/Frame.antt =====
-- What a token of one request leaves alone, and the run of a request.
use glm53flash_pp.Base.{
  ℕ, zero, suc, ◌+◌, ◌-◌, ◌*◌, ◌/◌, ◌%◌, ◌≤◌, ◌<◌, ◌≡◌, ◌≢◌, refl, sym, ap, subst, ◌∙◌, List, [],
  ◌∷◌, true, false, arith, ◌==◌, ◌&&◌, not, if◌then◌else◌, Bool-cases, inl, inr, columns, ℤ, pos,
  negsuc, pos_part, is_negative,
}
use native.Mathlib.Decide.{dec_le}
use glm53flash_pp.TailRing.{Caches, VerifyToken, write, decode_token, decode_request}
use glm53flash_pp.TailRing.Decode.{
  Stream, token_at, Holds, pooled, own_block, decode_token-Holds, decode_token-pooled,
}

-- The tokens of a request from position `q` on, `n` of them.
abbrev pub tokens : {Entry : Type 0} → ℕ → Stream Entry → ℕ → ℕ → List (VerifyToken Entry)
tokens pool_size r q zero = []
tokens pool_size r q (suc n) = token_at pool_size r q ∷ tokens pool_size r (suc q) n

cache_other {ℓ} :
    {A : Type ℓ} (m : ℕ → A) (z : ℤ) (a b l : ℕ) (v : A)
    → (a ≡ b → z ≢ pos l)
    → (if not (is_negative z) && true && (a == b) then write m (pos_part z) v else m) l ≡ m l
cache_other m (negsuc k) a b l v ne = refl
cache_other m (pos k) a b l v ne = elim (Bool-cases (a == b)) [
  | inr partial ↦ rw partial refl
  | inl full ↦
      let same : a ≡ b = ground arith in
      let diff : k ≢ l = λ e. ne same (ap pos e) in
      let other : (l == k) ≡ false = ground arith in rw (full, other) refl
]

module _ {Entry Pooled : Type 0} (compress : List Entry → Pooled) (pool_size : ℕ) where
  pub decode_token_other_block :
      (r : Stream Entry) (q : ℕ) (c : Caches Entry Pooled) (b s : ℕ)
      → 0 < pool_size
      → b ≢ r.block
      → (decode_token compress pool_size c (token_at pool_size r q)).tail b s ≡ c.tail b s
  unfolding decode_token
  decode_token_other_block r q c b s h ne =
      let own = own_block pool_size r.block q h in
      let other : (b == r.block) ≡ false = ground arith in rw (own, other) refl

  pub decode_token_other_loc :
      (r : Stream Entry) (q : ℕ) (c : Caches Entry Pooled) (l : ℕ)
      → (q % pool_size ≡ pool_size - 1 → r.loc q ≢ pos l)
      → (decode_token compress pool_size c (token_at pool_size r q)).cache l ≡ c.cache l
  unfolding decode_token
  decode_token_other_loc r q c l ne =
      cache_other c.cache (r.loc q) (q % pool_size) (pool_size - 1) l
        (compress (
          columns pool_size (λ s.
            if s == q % pool_size
            then r.history q
            else c.tail ((r.block * pool_size + q % pool_size) / pool_size)
                ((q - q % pool_size + s) % pool_size))))
        ne

  pub decode_request-Holds :
      (r : Stream Entry) (q n : ℕ) (c : Caches Entry Pooled)
      → 0 < pool_size
      → Holds pool_size r q c
      → Holds pool_size r (q + n) (decode_request compress pool_size c (tokens pool_size r q n))
  unfolding decode_request
  decode_request-Holds r q zero c h holds = subst (λ x. Holds pool_size r x c) (omega arith) holds
  decode_request-Holds r q (suc n) c h holds =
      let c' = decode_token compress pool_size c (token_at pool_size r q) in
      subst
        (λ x.
          Holds pool_size r x (decode_request compress pool_size c' (tokens pool_size r (suc q) n)))
        (omega arith)
        (decode_request-Holds r (suc q) n c' h
          (decode_token-Holds compress pool_size r q c h holds))

  pub decode_request_other_block :
      (r : Stream Entry) (q n : ℕ) (c : Caches Entry Pooled) (b s : ℕ)
      → 0 < pool_size
      → b ≢ r.block
      → (decode_request compress pool_size c (tokens pool_size r q n)).tail b s ≡ c.tail b s
  unfolding decode_request
  decode_request_other_block r q zero c b s h ne = refl
  decode_request_other_block r q (suc n) c b s h ne =
      decode_request_other_block r (suc q) n
        (decode_token compress pool_size c (token_at pool_size r q)) b s h ne
      ∙ decode_token_other_block r q c b s h ne

  pub decode_request_other_loc :
      (r : Stream Entry) (q n : ℕ) (c : Caches Entry Pooled) (l : ℕ)
      → ((p : ℕ) → q ≤ p → p < q + n → p % pool_size ≡ pool_size - 1 → r.loc p ≢ pos l)
      → (decode_request compress pool_size c (tokens pool_size r q n)).cache l ≡ c.cache l
  unfolding decode_request
  decode_request_other_loc r q zero c l ne = refl
  decode_request_other_loc r q (suc n) c l ne =
      decode_request_other_loc r (suc q) n
        (decode_token compress pool_size c (token_at pool_size r q)) l
        (λ p a b. ne p (omega arith) (omega arith))
      ∙ decode_token_other_loc r q c l (ne q (omega arith) (omega arith))

  -- Every pool that the run completes.
  pub decode_request-pooled :
      (r : Stream Entry) (q n : ℕ) (c : Caches Entry Pooled) (p l : ℕ)
      → 0 < pool_size
      → Holds pool_size r q c
      → q ≤ p
      → p < q + n
      → p % pool_size ≡ pool_size - 1
      → r.loc p ≡ pos l
      → ((p' : ℕ) → r.loc p' ≡ pos l → p' ≡ p)
      → (decode_request compress pool_size c (tokens pool_size r q n)).cache l
        ≡ pooled compress pool_size r p
  unfolding decode_request
  decode_request-pooled r q zero c p l h holds a b full at only = absurd (omega arith)
  decode_request-pooled r q (suc n) c p l h holds a b full at only =
      let c' = decode_token compress pool_size c (token_at pool_size r q) in
      elim (dec_le p q) [
        | yes first ↦
            let same : p ≡ q = omega arith in
            let at' : r.loc q ≡ pos l = subst (λ x. r.loc x ≡ pos l) same at in
            let full' : q % pool_size ≡ pool_size - 1 =
              subst (λ x. x % pool_size ≡ pool_size - 1) same full in
            decode_request_other_loc r (suc q) n c' l
              (λ p' a' b' f e. absurd (omega (arith, only p' e)))
            ∙ decode_token-pooled compress pool_size r q c l h holds full' at'
            ∙ ap (pooled compress pool_size r) (sym same)
        | no later ↦
            decode_request-pooled r (suc q) n c' p l h
              (decode_token-Holds compress pool_size r q c h holds) (omega arith) (omega arith) full
              at only
      ]
