-- ===== src/Decode/Lists.antt =====
-- The lists of lengths and of rows that the decode layouts are read from.
use glm53flash_pp.Base.{
  ℕ, zero, suc, ◌*◌, ◌≤◌, ◌<◌, ◌≡◌, refl, arith, List, [], ◌∷◌, map, some, length, get_or,
  get_elem?, take, replicate, ℤ,
}
use glm53flash_pp.Decode.{sum}

pub get_or-take : (n : ℕ) (xs : List ℕ) (i o : ℕ) → i < n → get_or (take n xs) i o ≡ get_or xs i o
get_or-take zero xs i o h = absurd (omega arith)
get_or-take (suc n) [] i o h = refl
get_or-take (suc n) (x ∷ xs) zero o h = refl
get_or-take (suc n) (x ∷ xs) (suc i) o h = get_or-take n xs i o (omega arith)

pub get_or-map : (f : ℕ → ℤ) (xs : List ℕ) (i o : ℕ) → get_or (map f xs) i (f o) ≡ f (get_or xs i o)
get_or-map f [] i o = refl
get_or-map f (x ∷ xs) zero o = refl
get_or-map f (x ∷ xs) (suc i) o = get_or-map f xs i o

pub get_elem?-get_or :
    {A : Type 0} (xs : List A) (i : ℕ) (o : A)
    → i < length xs
    → get_elem? xs i ≡ some (get_or xs i o)
get_elem?-get_or [] i o h = absurd (omega arith)
get_elem?-get_or (x ∷ xs) zero o h = refl
get_elem?-get_or (x ∷ xs) (suc i) o h = get_elem?-get_or xs i o (omega arith)

pub sum-take-replicate : (n m r : ℕ) → r ≤ n → sum (take r (replicate n m)) ≡ r * m
sum-take-replicate n m zero h = omega arith
sum-take-replicate zero m (suc r) h = absurd (omega arith)
sum-take-replicate (suc n) m (suc r) h = omega (arith, sum-take-replicate n m r (omega arith))

pub get_or-replicate : (n m r : ℕ) → r < n → get_or (replicate n m) r 0 ≡ m
get_or-replicate zero m r h = absurd (omega arith)
get_or-replicate (suc n) m zero h = refl
get_or-replicate (suc n) m (suc r) h = get_or-replicate n m r (omega arith)

pub get_or-some :
    {A : Type 0} (xs : List A) (i : ℕ) (o : A) {x : A} → get_elem? xs i ≡ some x → get_or xs i o ≡ x
get_or-some [] i o h = absurd (ground arith)
get_or-some (x ∷ xs) zero o h = ground arith
get_or-some (x ∷ xs) (suc i) o h = get_or-some xs i o h

pub sum-replicate : (n m : ℕ) → sum (replicate n m) ≡ n * m
sum-replicate zero m = omega arith
sum-replicate (suc n) m = omega (arith, sum-replicate n m)
