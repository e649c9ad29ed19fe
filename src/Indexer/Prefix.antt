-- ===== src/Indexer/Prefix.antt =====
-- How many queries and how many keys stand before a request of the batch.
use glm53flash_pp.Base.{ℕ, zero, suc, ◌+◌, ◌≤◌, ◌<◌, ◌≡◌, refl, List, [], ◌∷◌, arith, length, drop}
use glm53flash_pp.Indexer.{Sequence}

abbrev pub queries_before : List Sequence → ℕ → ℕ
queries_before [] i = 0
queries_before (r ∷ rs) zero = 0
queries_before (r ∷ rs) (suc i) = r.query_len + queries_before rs i

abbrev pub keys_before : List Sequence → ℕ → ℕ
keys_before [] i = 0
keys_before (r ∷ rs) zero = 0
keys_before (r ∷ rs) (suc i) = r.seq_len + keys_before rs i

pub queries_before-suc :
    (rs : List Sequence) (i : ℕ) {r : Sequence} {rest : List Sequence}
    → drop i rs ≡ r ∷ rest
    → queries_before rs (suc i) ≡ queries_before rs i + r.query_len
queries_before-suc [] zero h = cc
queries_before-suc [] (suc i) h = cc
queries_before-suc (x ∷ []) zero h = ground arith
queries_before-suc (x ∷ y ∷ xs) zero h = ground arith
queries_before-suc (x ∷ xs) (suc i) h = omega (arith, queries_before-suc xs i h)

pub keys_before-suc :
    (rs : List Sequence) (i : ℕ) {r : Sequence} {rest : List Sequence}
    → drop i rs ≡ r ∷ rest
    → keys_before rs (suc i) ≡ keys_before rs i + r.seq_len
keys_before-suc [] zero h = cc
keys_before-suc [] (suc i) h = cc
keys_before-suc (x ∷ []) zero h = ground arith
keys_before-suc (x ∷ y ∷ xs) zero h = ground arith
keys_before-suc (x ∷ xs) (suc i) h = omega (arith, keys_before-suc xs i h)

pub drop-suc :
    (rs : List Sequence) (i : ℕ) {r : Sequence} {rest : List Sequence}
    → drop i rs ≡ r ∷ rest
    → drop (suc i) rs ≡ rest
drop-suc [] zero h = cc
drop-suc [] (suc i) h = cc
drop-suc (x ∷ xs) zero h = cc
drop-suc (x ∷ xs) (suc i) h = drop-suc xs i h

pub drop-lt :
    (rs : List Sequence) (i : ℕ) {r : Sequence} {rest : List Sequence}
    → drop i rs ≡ r ∷ rest
    → i < length rs
drop-lt [] zero h = absurd cc
drop-lt [] (suc i) h = absurd cc
drop-lt (x ∷ xs) zero h = omega arith
drop-lt (x ∷ xs) (suc i) h = omega (arith, drop-lt xs i h)

pub drop-nil : (rs : List Sequence) (i : ℕ) → drop i rs ≡ [] → length rs ≤ i
drop-nil [] i h = omega arith
drop-nil (x ∷ xs) zero h = absurd cc
drop-nil (x ∷ xs) (suc i) h = omega (arith, drop-nil xs i h)

pub queries_before_zero : (rs : List Sequence) → queries_before rs 0 ≡ 0
queries_before_zero [] = refl
queries_before_zero (r ∷ rs) = refl
