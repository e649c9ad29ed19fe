-- ===== src/Worker/Sleep/Saved.antt =====
-- serve/morrowmake/overlay/v1/worker/gpu_worker.py: what `Worker.sleep` saves.
use Prim.Native.String.{String}
use text.Mathlib.TextPositions.{eq_refl}
use mathlib.Core.List.{Memᴰ}
use mathlib.Core.List.Memᴰ as MemD
use glm53flash_pp.Worker.Dict.{
  lookup, update, same, IsDict, update-IsDict, lookup_item, lookup-update_of, update-key,
}
use glm53flash_pp.Base.{
  ℕ, List, [], ◌∷◌, ◌++◌, map, any, Option, none, some, Bool, true, false, not, ◌&&◌, ◌||◌, ◌≡◌,
  ◌≢◌, ◌⊎◌, refl, sym, ap, ◌∙◌, arith, inl, inr, if_none, if◌then◌else◌, subst, >>=-eq-some,
}
use glm53flash_pp.Worker.Sleep.{
  Store, Backend, Module, clones, contents, select, get_sleep_parameters, draft_items, filter,
  is_empty,
}
use glm53flash_pp.Worker.Sleep.Restore.{Faithful, Matching}

-- A name stands for one tensor.
abbrev pub Unique : List (String × ℕ) → Type 0
Unique buffers = (n : String) (i j : ℕ) → Memᴰ (n, i) buffers → Memᴰ (n, j) buffers → i ≡ j

module _ {A : Type 0} where
  mem_if_of :
      (b : Bool) (x : A) (xs : List A) {y : A}
      → Memᴰ y (if b then x ∷ xs else xs)
      → (y ≡ x) ⊎ Memᴰ y xs
  mem_if_of true x xs m = MemD.cases_cons m
  mem_if_of false x xs m = inr m

  mem_if_head :
      (b : Bool) (xs : List A) {x y : A} → b ≡ true → y ≡ x → Memᴰ y (if b then x ∷ xs else xs)
  mem_if_head true xs h e = Memᴰ.head e
  mem_if_head false xs h e = absurd (ground arith)

  mem_if_tail :
      (b : Bool) (x : A) {xs : List A} {y : A} → Memᴰ y xs → Memᴰ y (if b then x ∷ xs else xs)
  mem_if_tail true x m = Memᴰ.tail m
  mem_if_tail false x m = m

  guarded : (b : Bool) (o : Option A) {a : A} → (if b then none else o) ≡ some a → o ≡ some a
  guarded true o h = absurd (ground arith)
  guarded false o h = h

  any-append :
      (f : A → Bool) (xs ys : List A) → any (map f (xs ++ ys)) ≡ (any (map f xs) || any (map f ys))
  any-append f [] ys = refl
  any-append f (x ∷ xs) ys = ground (arith, any-append f xs ys)

any-filter :
    (p : String → Bool) (names : List String) (n : String)
    → Memᴰ n names
    → p n ≡ true
    → any (map (same n) (filter p names)) ≡ true
any-filter p [] n m h = elim m [ ]
any-filter p (x ∷ xs) n (Memᴰ.head e) h = rw (← e, h, eq_refl n) refl
any-filter p (x ∷ xs) n (Memᴰ.tail t) h = ground (arith, any-filter p xs n t h)

module _ {T : Type 0} (backend : Backend T) where
  clones_of :
      (st : Store T) (buffers : List (String × ℕ)) (n : String) {v : T}
      → lookup n (clones backend st buffers) ≡ some v
      → (i : ℕ) × Memᴰ (n, i) buffers × (v ≡ st i)
  unfolding clones lookup
  clones_of st buffers n h = elim (lookup-update_of (map (λ p. (p.0, st p.1)) buffers) [] n h) [
    | inr q ↦ absurd (ground arith)
    | inl m ↦
        let ((k, j), m', e) = MemD.of_map (λ p. (p.0, st p.1)) buffers m in
        (j, subst (λ l. Memᴰ (l, j) buffers) (ap (λ p. p.0) e) m', sym (ap (λ p. p.1) e))
  ]

  -- The clones are the contents of the buffers.
  pub clones-Faithful :
      (st : Store T) (buffers : List (String × ℕ))
      → Unique buffers
      → Faithful backend st buffers (clones backend st buffers)
  clones-Faithful st buffers u n i v m h =
      let (j, m', e) = clones_of st buffers n h in e ∙ ap st (u n j i m' m)

  pub clones_key :
      (st : Store T) (buffers : List (String × ℕ)) (n : String) (i : ℕ)
      → Memᴰ (n, i) buffers
      → lookup n (clones backend st buffers) ≢ none
  unfolding clones
  clones_key st buffers n i m =
      update-key (map (λ p. (p.0, st p.1)) buffers) [] n (inl (MemD.map (λ p. (p.0, st p.1)) m))

  contents_of :
      (names : List String) (is_cpu : ℕ → Bool) (st : Store T) (items : List (String × ℕ))
      (n : String) (v : T)
      → Memᴰ (n, v) (contents backend names is_cpu st items)
      → (i : ℕ) × Memᴰ (n, i) items × (v ≡ st i)
  unfolding contents
  contents_of names is_cpu st [] n v m = elim m [ ]
  contents_of names is_cpu st ((k, j) ∷ items) n v m =
      elim (mem_if_of _ (k, st j) (contents backend names is_cpu st items) m) [
        | inl e ↦ (j, Memᴰ.head (ap (λ p. (p.0, j)) e), ap (λ p. p.1) e)
        | inr m' ↦ let (i, p, q) = contents_of names is_cpu st items n v m' in (i, Memᴰ.tail p, q)
      ]

  pub contents-Matching :
      (names : List String) (is_cpu : ℕ → Bool) (st : Store T) (items : List (String × ℕ))
      → IsDict items
      → Matching backend st (contents backend names is_cpu st items) items
  contents-Matching names is_cpu st items d n v m =
      let (i, m', e) = contents_of names is_cpu st items n v m in (i, lookup_item items n i d m', e)

  pub contents_item :
      (names : List String) (is_cpu : ℕ → Bool) (st : Store T) (items : List (String × ℕ))
      (n : String) (i : ℕ)
      → Memᴰ (n, i) items
      → any (map (same n) names) ≡ true
      → is_cpu i ≡ false
      → Memᴰ (n, st i) (contents backend names is_cpu st items)
  unfolding contents
  contents_item names is_cpu st [] n i m s c = elim m [ ]
  contents_item names is_cpu st ((k, j) ∷ items) n i (Memᴰ.head e) s c =
      mem_if_head (any (map (same k) names) && not (is_cpu j))
        (contents backend names is_cpu st items)
        (ground (
          arith,
          subst (λ l. any (map (same l) names) ≡ true) (ap (λ p. p.0) e) s,
          ap is_cpu (ap (λ p. p.1) e),
        ))
        (ap (λ p. (p.0, st p.1)) e)
  contents_item names is_cpu st ((k, j) ∷ items) n i (Memᴰ.tail t) s c =
      mem_if_tail _ (k, st j) (contents_item names is_cpu st items n i t s c)

  pub get_sleep_parameters-IsDict :
      (m : Module) (d : Option Module) → IsDict (get_sleep_parameters m d)
  unfolding get_sleep_parameters
  get_sleep_parameters-IsDict m none = update-IsDict m.named_parameters [] tt
  get_sleep_parameters-IsDict m (some d) =
      update-IsDict (draft_items (map (λ p. p.1) (update [] m.named_parameters)) d.named_parameters)
        (update [] m.named_parameters) (update-IsDict m.named_parameters [] tt)

  -- A name that one of the patterns matches is selected.
  pub select_lem :
      (names patterns : List String) (p n : String) {sel : List String}
      → select backend names patterns ≡ some sel
      → Memᴰ p patterns
      → Memᴰ n names
      → backend.fnmatch p n ≡ true
      → any (map (same n) sel) ≡ true
  unfolding select
  select_lem names [] p n h q m f = elim q [ ]
  select_lem names (k ∷ patterns) p n h q m f =
      let (rest, r, x) =
        >>=-eq-some (select backend names patterns)
          (λ rest. some (filter (backend.fnmatch k) names ++ rest))
          (guarded (is_empty (filter (backend.fnmatch k) names) && not (same k "draft.*")) _ h) in
      let found : any (map (same n) (filter (backend.fnmatch k) names ++ rest)) ≡ true =
        any-append (same n) (filter (backend.fnmatch k) names) rest ∙ elim q [
          | Memᴰ.head e ↦ ground (
            arith,
            any-filter (backend.fnmatch k) names n m (subst (λ l. backend.fnmatch l n ≡ true) e f),
          )
          | Memᴰ.tail t ↦ ground (arith, select_lem names patterns p n r t m f)
        ] in
      subst (λ o. any (map (same n) (if_none o [] (λ l. l))) ≡ true) x found
