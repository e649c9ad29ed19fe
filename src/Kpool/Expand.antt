-- ===== src/Kpool/Expand.antt =====
-- The columns of the two-step path, by their index.
use glm53flash_pp.Base.{
  ℕ, zero, suc, ◌-◌, ◌*◌, ◌/◌, ◌%◌, ◌≤◌, ◌<◌, ◌≡◌, refl, ap, ◌∙◌, some, List, [], ◌∷◌, map, Bool,
  true, false, not, arith, if◌then◌else◌, length, get_elem?, get_or, columns, length-columns,
  get_elem?-columns, get_elem?-append_left, get_elem?-append_right, length-append, ℤ, pos,
  minus_one, is_negative, ◌+ℤ◌, scale, to_int32,
}
use native.Mathlib.Decide.{dec_le}
use glm53flash_pp.Kpool.{identity, map_token, expand_groups}

-- The pools that the kernel takes for valid.
abbrev pub valid_of : List ℤ → List Bool
valid_of ids = map (λ g. not (is_negative g)) ids

pub length-expand_groups :
    (p : ℕ) (ids : List ℤ) → length (expand_groups identity p ids (valid_of ids)) ≡ length ids * p
unfolding expand_groups
length-expand_groups p [] = omega arith
length-expand_groups p (g ∷ gs) =
    let f : ℕ → ℤ =
      λ o. if not (is_negative g) then map_token identity (scale g p +ℤ pos o) else minus_one in
    let rest = expand_groups identity p gs (valid_of gs) in
    omega (arith, length-append (columns p f) rest, length-columns p f, length-expand_groups p gs)

-- The value of a column of the expanded pools.
abbrev pub pool_column : ℕ → List ℤ → ℕ → ℤ
pool_column p ids c =
    let pid = get_or ids (c / p) minus_one in
    if is_negative pid then minus_one else to_int32 (scale pid p +ℤ pos (c % p))

not_if {ℓ} : {A : Type ℓ} (b : Bool) (x y : A) → (if not b then x else y) ≡ (if b then y else x)
not_if true x y = refl
not_if false x y = refl

first_pool : (p c : ℕ) → c < p → (c / p ≡ 0) × (c % p ≡ c)
first_pool p c h = (grind arith, grind arith)

later_pool : (p c : ℕ) → 0 < p → p ≤ c → (c / p ≡ suc ((c - p) / p)) × (c % p ≡ (c - p) % p)
later_pool p c h le = (grind arith, grind arith)

pub get_elem?-expand_groups :
    (p : ℕ) (ids : List ℤ) (c : ℕ)
    → 0 < p
    → c < length ids * p
    → get_elem? (expand_groups identity p ids (valid_of ids)) c ≡ some (pool_column p ids c)
unfolding expand_groups map_token
get_elem?-expand_groups p [] c h l = absurd (omega arith)
get_elem?-expand_groups p (g ∷ gs) c h l =
    let f : ℕ → ℤ = λ o. if not (is_negative g) then to_int32 (scale g p +ℤ pos o) else minus_one in
    let rest = expand_groups identity p gs (valid_of gs) in
    elim (dec_le p c) [
      | no first ↦
          let (d, m) = first_pool p c (omega arith) in
          get_elem?-append_left (columns p f) rest c (omega (arith, length-columns p f))
          ∙ get_elem?-columns p f c (omega arith)
          ∙ rw (d, m) (ap some (not_if (is_negative g) (to_int32 (scale g p +ℤ pos c)) minus_one))
      | yes later ↦
          let (d, m) = later_pool p c h later in
          get_elem?-append_right (columns p f) rest c (c - p) (omega (arith, length-columns p f))
          ∙ get_elem?-expand_groups p gs (c - p) h (omega arith)
          ∙ rw (d, m) refl
    ]

pub get_or-some {ℓ} :
    {A : Type ℓ} (xs : List A) (i : ℕ) (d : A) {a : A} → get_elem? xs i ≡ some a → get_or xs i d ≡ a
get_or-some [] i d h = cc
get_or-some (x ∷ xs) zero d h = cc
get_or-some (x ∷ xs) (suc i) d h = get_or-some xs i d h
