-- ===== src/Worker/Dict.antt =====
-- Dictionaries from names, as serve/morrowmake/overlay/v1/worker/gpu_worker.py builds them: a list
-- of items in the order of insertion.
use Prim.Native.String.{String, ◌++◌}
use text.Mathlib.Text.{◌==◌}
use text.Mathlib.TextEquality.{eq_iff}
use text.Mathlib.TextPositions.{eq_refl}
use mathlib.Core.List.{Memᴰ}
use glm53flash_pp.Base.{
  ◌≡◌, refl, ap, subst, ◌⊎◌, ◌≢◌, inl, inr, List, [], ◌∷◌, Option, none, some, Bool, false, arith,
  if◌then◌else◌, Bool-cases,
}

module _ {A : Type 0} where
  unfoldable pub lookup : String → List (String × A) → Option A
  lookup k [] = none
  lookup k ((j, v) ∷ d) = if j == k then some v else lookup k d

  unfoldable pub insert : String → A → List (String × A) → List (String × A)
  insert k v [] = (k, v) ∷ []
  insert k v ((j, w) ∷ d) = if j == k then (k, v) ∷ d else (j, w) ∷ insert k v d

  -- `d.update(items)`
  unfoldable pub update : List (String × A) → List (String × A) → List (String × A)
  update d [] = d
  update d ((k, v) ∷ items) = update (insert k v d) items

  pub lookup-insert :
      (k j : String) (v : A) (d : List (String × A))
      → lookup j (insert k v d) ≡ (if k == j then some v else lookup j d)
  unfolding lookup insert
  lookup-insert k j v [] = refl
  lookup-insert k j v ((i, w) ∷ d) =
      ground (arith, eq_iff k j, eq_iff i k, eq_iff i j, lookup-insert k j v d)

  -- No key twice.
  abbrev pub IsDict : List (String × A) → Type 0
  IsDict [] = Unit
  IsDict ((k, v) ∷ d) = (lookup k d ≡ none) × IsDict d

  still_fresh :
      (k j : String) (v : A) (d : List (String × A))
      → lookup j d ≡ none
      → (j == k) ≡ false
      → lookup j (insert k v d) ≡ none
  still_fresh k j v d fresh e = ground (arith, eq_iff j k, eq_iff k j, lookup-insert k j v d)

  pub insert-IsDict :
      (k : String) (v : A) (d : List (String × A)) → IsDict d → IsDict (insert k v d)
  unfolding insert lookup
  insert-IsDict k v [] h = (refl, tt)
  insert-IsDict k v ((j, w) ∷ d) (fresh, h) = elim (Bool-cases (j == k)) [
    | inl e ↦ rw e (subst (λ i. lookup i d ≡ none) ((eq_iff j k).0 e) fresh, h)
    | inr e ↦ rw e (still_fresh k j v d fresh e, insert-IsDict k v d h)
  ]

  pub update-IsDict : (items d : List (String × A)) → IsDict d → IsDict (update d items)
  unfolding update
  update-IsDict [] d h = h
  update-IsDict ((k, v) ∷ items) d h = update-IsDict items (insert k v d) (insert-IsDict k v d h)

  -- Every item of a dictionary is what its key looks up.
  pub lookup_item :
      (d : List (String × A)) (k : String) (v : A) → IsDict d → Memᴰ (k, v) d → lookup k d ≡ some v
  unfolding lookup
  lookup_item [] k v h m = elim m [ ]
  lookup_item ((j, w) ∷ d) k v (fresh, h) (Memᴰ.head e) =
      ground (arith, eq_iff j k, ap (λ p. p.0) e, ap (λ p. p.1) e)
  lookup_item ((j, w) ∷ d) k v (fresh, h) (Memᴰ.tail m) =
      ground (arith, eq_iff j k, lookup_item d k v h m)

  -- A value that is looked up is one of the items.
  pub lookup-item_of :
      (d : List (String × A)) (k : String) {v : A} → lookup k d ≡ some v → Memᴰ (k, v) d
  unfolding lookup
  lookup-item_of [] k h = absurd (ground arith)
  lookup-item_of ((j, w) ∷ d) k h = elim (Bool-cases (j == k)) [
    | inl e ↦ Memᴰ.head (ground (arith, eq_iff j k))
    | inr e ↦ Memᴰ.tail (lookup-item_of d k (ground arith))
  ]

  -- What an update holds comes from the items or was there before.
  pub lookup-update_of :
      (items d : List (String × A)) (k : String) {v : A}
      → lookup k (update d items) ≡ some v
      → Memᴰ (k, v) items ⊎ (lookup k d ≡ some v)
  unfolding update
  lookup-update_of [] d k h = inr h
  lookup-update_of ((j, w) ∷ items) d k h = elim (lookup-update_of items (insert j w d) k h) [
    | inl m ↦ inl (Memᴰ.tail m)
    | inr q ↦ elim (Bool-cases (j == k)) [
      | inl e ↦ inl (Memᴰ.head (ground (arith, eq_iff j k, lookup-insert j k w d)))
      | inr e ↦ inr (ground (arith, lookup-insert j k w d))
    ]
  ]

  -- A key of the items is a key of the update.
  pub update-key :
      (items d : List (String × A)) (k : String) {v : A}
      → (Memᴰ (k, v) items) ⊎ (lookup k d ≢ none)
      → lookup k (update d items) ≢ none
  unfolding update
  update-key [] d k (inl m) = elim m [ ]
  update-key [] d k (inr h) = h
  update-key ((j, w) ∷ items) d k (inl (Memᴰ.head e)) =
      update-key items (insert j w d) k {v = w}
        (inr (ground (arith, eq_refl j, eq_iff j k, ap (λ p. p.0) e, lookup-insert j k w d)))
  update-key ((j, w) ∷ items) d k (inl (Memᴰ.tail m)) = update-key items (insert j w d) k (inl m)
  update-key ((j, w) ∷ items) d k {v = v} (inr h) =
      update-key items (insert j w d) k {v = v} (inr (ground (arith, lookup-insert j k w d)))

abbrev pub same : String → String → Bool
same s t = s == t

abbrev pub concat : String → String → String
concat s t = s ++ t
