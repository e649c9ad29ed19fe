-- ===== src/Runner/Order.antt =====
-- The batch is a reordering of the scheduled requests, by their keys.
use glm53flash_pp.Base.{
  ℕ, ◌+◌, ◌≡◌, refl, ◌∙◌, List, [], ◌∷◌, map, true, false, arith, ◌==◌, if◌then◌else◌, Bool-cases,
  inl, inr, All, ℤ, Bool, not, false, ◌&&◌, ◌≢◌, ◌⊎◌, ◌↔◌, ap, ap₂, sym, ltb, ◌≤◌,
}
use glm53flash_pp.Runner.{
  no_drafts, as_number, Keyed, key, key_le, insert, sorted, sorted_batch, sort_batch_req_ids,
}

-- Every request stands in front of those with larger keys.
abbrev Ordered : List Keyed → Type 0
Ordered [] = Unit
Ordered (x ∷ xs) = All (λ y. key_le x y ≡ true) xs × Ordered xs

key_le_trans : (a b c : Keyed) → key_le a b ≡ true → key_le b c ≡ true → key_le a c ≡ true
key_le_trans a b c h k = ground arith

key_le_total : (a b : Keyed) → key_le a b ≡ false → key_le b a ≡ true
key_le_total a b h = ground arith

All-trans :
    (x y : Keyed) (xs : List Keyed)
    → key_le x y ≡ true
    → All (λ z. key_le y z ≡ true) xs
    → All (λ z. key_le x z ≡ true) xs
All-trans x y [] h a = tt
All-trans x y (z ∷ zs) h (a, rest) = (key_le_trans x y z h a, All-trans x y zs h rest)

All-insert :
    (y x : Keyed) (xs : List Keyed)
    → key_le y x ≡ true
    → All (λ z. key_le y z ≡ true) xs
    → All (λ z. key_le y z ≡ true) (insert x xs)
unfolding insert
All-insert y x [] h a = (h, tt)
All-insert y x (z ∷ zs) h (a, rest) = elim (Bool-cases (key_le x z)) [
  | inl first ↦ rw first (h, (a, rest))
  | inr later ↦ rw later (a, All-insert y x zs h rest)
]

insert-Ordered : (x : Keyed) (xs : List Keyed) → Ordered xs → Ordered (insert x xs)
unfolding insert
insert-Ordered x [] o = (tt, tt)
insert-Ordered x (y ∷ ys) (a, o) = elim (Bool-cases (key_le x y)) [
  | inl first ↦ rw first ((first, All-trans x y ys first a), (a, o))
  | inr later ↦ rw later (All-insert y x ys (key_le_total x y later) a, insert-Ordered x ys o)
]

sorted-Ordered : (xs : List Keyed) → Ordered (sorted xs)
unfolding sorted
sorted-Ordered [] = tt
sorted-Ordered (x ∷ xs) = insert-Ordered x (sorted xs) (sorted-Ordered xs)

-- The draft tokens of a request, by the first entry of the dictionary with its id.
abbrev pub lookup : List (ℕ × List ℤ) → ℕ → List ℤ
lookup [] r = []
lookup ((id, ts) ∷ ds) r = if id == r then ts else lookup ds r

abbrev pub has_any : List ℤ → Bool
has_any [] = false
has_any (t ∷ ts) = true

-- whether a request has a draft token
abbrev pub is_drafted : List (ℕ × List ℤ) → ℕ → Bool
is_drafted drafts r = has_any (lookup drafts r)

-- A request with its number of tokens may stand in front of another: a drafted one in front of one
-- that is not; of two that are both drafted or both not, one as long as a decode in front of one that
-- is not; and else the shorter in front.
abbrev pub Precedes : List (ℕ × List ℤ) → ℕ → ℕ × ℕ → ℕ × ℕ → Type 0
Precedes drafts d (x, n) (y, m) =
    ((is_drafted drafts x ≡ true) × (is_drafted drafts y ≡ false))
    ⊎ ((is_drafted drafts x ≡ is_drafted drafts y)
        × (((n ≡ d) × (m ≢ d)) ⊎ (((n ≡ d) ↔ (m ≡ d)) × (n ≤ m))))

abbrev pub InOrder : List (ℕ × List ℤ) → ℕ → List (ℕ × ℕ) → Type 0
InOrder drafts d [] = Unit
InOrder drafts d (x ∷ xs) = All (Precedes drafts d x) xs × InOrder drafts d xs

-- How often a request with its number of tokens stands in a batch.
abbrev pub count : ℕ → ℕ → List (ℕ × ℕ) → ℕ
count r k [] = 0
count r k ((x, n) ∷ xs) = (if (x == r) && (n == k) then 1 else 0) + count r k xs

abbrev pub pair : Keyed → ℕ × ℕ
pair x = (x.req_id, x.num)

no_drafts-drafted :
    (drafts : List (ℕ × List ℤ)) (r : ℕ) → no_drafts drafts r ≡ not (is_drafted drafts r)
unfolding no_drafts
no_drafts-drafted [] r = refl
no_drafts-drafted ((id, []) ∷ ds) r = elim (Bool-cases (id == r)) [
  | inl e ↦ rw e refl
  | inr e ↦ rw e (no_drafts-drafted ds r)
]
no_drafts-drafted ((id, t ∷ ts) ∷ ds) r = elim (Bool-cases (id == r)) [
  | inl e ↦ rw e refl
  | inr e ↦ rw e (no_drafts-drafted ds r)
]

abbrev keyed : ℕ → Bool → ℕ → ℕ → Keyed
keyed r drafted n d = record {
  req_id = r;
  undrafted = as_number (not drafted);
  off_length = as_number (not (n == d));
  num = n;
}

-- by the last two fields of the key
by_length :
    (n m d : ℕ)
    → (if ltb (as_number (not (n == d))) (as_number (not (m == d)))
        then true
        else if ltb (as_number (not (m == d))) (as_number (not (n == d)))
        then false
        else not (ltb m n))
      ≡ true
    → ((n ≡ d) × (m ≢ d)) ⊎ (((n ≡ d) ↔ (m ≡ d)) × (n ≤ m))
by_length n m d h = elim (Bool-cases (n == d)) [
  | inl e ↦ elim (Bool-cases (m == d)) [
    | inl f ↦
        let p : n ≡ d = ground arith in
        let q : m ≡ d = ground arith in inr (((λ _. q), (λ _. p)), omega arith)
    | inr f ↦ inl (ground arith, (λ q. absurd (ground arith)))
  ]
  | inr e ↦ elim (Bool-cases (m == d)) [
    | inl f ↦ absurd (ground arith)
    | inr f ↦ inr (((λ p. absurd (ground arith)), (λ q. absurd (ground arith))), ground arith)
  ]
]

-- by the three fields of the key
tuple_order :
    (x y : ℕ) (a b : Bool) (n m d : ℕ)
    → key_le (keyed x a n d) (keyed y b m d) ≡ true
    → ((a ≡ true) × (b ≡ false))
      ⊎ ((a ≡ b) × (((n ≡ d) × (m ≢ d)) ⊎ (((n ≡ d) ↔ (m ≡ d)) × (n ≤ m))))
tuple_order x y true true n m d h = inr (refl, by_length n m d (ground arith))
tuple_order x y false false n m d h = inr (refl, by_length n m d (ground arith))
tuple_order x y true false n m d h = inl (refl, refl)
tuple_order x y false true n m d h = absurd (ground arith)

module _ (drafts : List (ℕ × List ℤ)) (d : ℕ) where
  -- The key of an element is that of its request.
  abbrev IsKeyed : Keyed → Type 0
  IsKeyed x = x ≡ key drafts d (x.req_id, x.num)

  shape : (r n : ℕ) → key drafts d (r, n) ≡ keyed r (is_drafted drafts r) n d
  unfolding key
  shape r n = rw (no_drafts-drafted drafts r) refl

  le-Precedes :
      (x y : Keyed)
      → IsKeyed x
      → IsKeyed y
      → key_le x y ≡ true
      → Precedes drafts d (pair x) (pair y)
  unfolding key
  le-Precedes x y i j h =
      tuple_order x.req_id y.req_id (is_drafted drafts x.req_id) (is_drafted drafts y.req_id) x.num
        y.num d (ap₂ key_le (sym (i ∙ shape x.req_id x.num)) (sym (j ∙ shape y.req_id y.num)) ∙ h)

  All-Precedes :
      (x : Keyed) (ys : List Keyed)
      → IsKeyed x
      → All IsKeyed ys
      → All (λ y. key_le x y ≡ true) ys
      → All (Precedes drafts d (pair x)) (map pair ys)
  All-Precedes x [] i js a = tt
  All-Precedes x (y ∷ ys) i (j, js) (h, a) = (le-Precedes x y i j h, All-Precedes x ys i js a)

  Ordered-InOrder : (xs : List Keyed) → All IsKeyed xs → Ordered xs → InOrder drafts d (map pair xs)
  Ordered-InOrder [] i o = tt
  Ordered-InOrder (x ∷ xs) (i, is) (a, o) = (All-Precedes x xs i is a, Ordered-InOrder xs is o)

  insert-IsKeyed :
      (x : Keyed) (xs : List Keyed) → IsKeyed x → All IsKeyed xs → All IsKeyed (insert x xs)
  unfolding insert
  insert-IsKeyed x [] i is = (i, tt)
  insert-IsKeyed x (y ∷ ys) i (j, js) = elim (Bool-cases (key_le x y)) [
    | inl first ↦ rw first (i, (j, js))
    | inr later ↦ rw later (j, insert-IsKeyed x ys i js)
  ]

  sorted-IsKeyed : (ns : List (ℕ × ℕ)) → All IsKeyed (sorted (map (key drafts d) ns))
  unfolding sorted key
  sorted-IsKeyed [] = tt
  sorted-IsKeyed ((x, n) ∷ ns) =
      insert-IsKeyed (key drafts d (x, n)) (sorted (map (key drafts d) ns)) refl (sorted-IsKeyed ns)

  count-insert :
      (r k : ℕ) (x : Keyed) (xs : List Keyed)
      → count r k (map pair (insert x xs))
        ≡ (if (x.req_id == r) && (x.num == k) then 1 else 0) + count r k (map pair xs)
  unfolding insert
  count-insert r k x [] = refl
  count-insert r k x (y ∷ ys) = elim (Bool-cases (key_le x y)) [
    | inl first ↦ rw first refl
    | inr later ↦ rw later (omega (arith, count-insert r k x ys))
  ]

  count-sorted :
      (r k : ℕ) (ns : List (ℕ × ℕ))
      → count r k (map pair (sorted (map (key drafts d) ns))) ≡ count r k ns
  unfolding sorted key
  count-sorted r k [] = refl
  count-sorted r k ((x, n) ∷ ns) =
      count-insert r k (key drafts d (x, n)) (sorted (map (key drafts d) ns))
      ∙ ap (λ c. (if (x == r) && (n == k) then 1 else 0) + c) (count-sorted r k ns)

map-pair : (xs : List Keyed) → map (λ x. x.req_id) xs ≡ map (λ (x, n). x) (map pair xs)
map-pair [] = refl
map-pair (x ∷ xs) = ap (◌∷◌ x.req_id) (map-pair xs)

-- The ids of a batch are those of a reordering of the scheduled requests with their numbers of
-- tokens, in which those with draft tokens come first, among these and among the others those whose
-- number of tokens is the decode length, and then those with fewer tokens.
pub sort_batch-InOrder :
    (nums : List (ℕ × ℕ)) (drafts : List (ℕ × List ℤ)) (d : ℕ)
    → (batch : List (ℕ × ℕ)) × (sort_batch_req_ids nums drafts d ≡ map (λ (x, n). x) batch)
      × InOrder drafts d batch
      × ((r k : ℕ) → count r k batch ≡ count r k nums)
unfolding sorted_batch sort_batch_req_ids
sort_batch-InOrder nums drafts d =
    let xs = sorted (map (key drafts d) nums) in
    (
      map pair xs,
      map-pair xs,
      Ordered-InOrder drafts d xs (sorted-IsKeyed drafts d nums)
          (sorted-Ordered (map (key drafts d) nums)),
      (λ r k. count-sorted drafts d r k nums),
    )
