-- ===== src/Worker/Sleep/Restore.antt =====
-- serve/morrowmake/overlay/v1/worker/gpu_worker.py: the two loops of `Worker.wake_up` that copy
-- saved contents back.
use Prim.Native.String.{String}
use mathlib.Core.List.{Memᴰ}
use glm53flash_pp.Worker.Dict.{lookup}
use glm53flash_pp.Base.{
  ℕ, List, [], ◌∷◌, none, some, true, ◌≡◌, ◌≢◌, refl, sym, ap, ◌∙◌, arith, ◌==◌, Bool-cases,
  Option-cases, inl, inr,
}
use glm53flash_pp.Worker.Sleep.{Store, Backend, copy, restore_parameters, restore_buffers}

the_same : (j i : ℕ) → j ≡ i → (j == i) ≡ true
the_same j i q = ground arith

module _ {T : Type 0} (backend : Backend T) (orig : Store T) where
  -- Every value that is saved under a tensor's name is the tensor's original content.
  abbrev pub Faithful : List (String × ℕ) → List (String × T) → Type 0
  Faithful buffers saved =
      (n : String) (i : ℕ) (v : T) → Memᴰ (n, i) buffers → lookup n saved ≡ some v → v ≡ orig i

  copy_kept : (st : Store T) (i j : ℕ) (v : T) → v ≡ orig i → st j ≡ orig j → copy st i v j ≡ orig j
  copy_kept st i j v e h = elim (Bool-cases (j == i)) [
    | inl q ↦ rw q (e ∙ ap orig (ground arith))
    | inr q ↦ rw q h
  ]

  copy_self : (st : Store T) (i j : ℕ) (v : T) → v ≡ orig i → i ≡ j → copy st i v j ≡ orig j
  copy_self st i j v e q = rw (the_same j i (sym q)) (e ∙ ap orig q)

  -- A tensor with its original content keeps it.
  pub restore_buffers_keeps :
      (buffers : List (String × ℕ)) (saved : List (String × T)) (st : Store T) (j : ℕ)
      → Faithful buffers saved
      → st j ≡ orig j
      → restore_buffers backend buffers saved st j ≡ orig j
  unfolding restore_buffers
  restore_buffers_keeps [] saved st j f h = h
  restore_buffers_keeps ((n, i) ∷ buffers) saved st j f h =
      let f' : Faithful buffers saved = λ m k v p. f m k v (Memᴰ.tail p) in
      elim (Option-cases (lookup n saved)) [
        | inl q ↦ rw q (restore_buffers_keeps buffers saved st j f' h)
        | inr (v, q) ↦ rw q (
            restore_buffers_keeps buffers saved (copy st i v) j f'
              (copy_kept st i j v (f n i v (Memᴰ.head refl) q) h))
      ]

  -- A tensor whose name is saved gets its original content.
  pub restore_buffers_restores :
      (buffers : List (String × ℕ)) (saved : List (String × T)) (st : Store T) (m : String) (j : ℕ)
      → Faithful buffers saved
      → Memᴰ (m, j) buffers
      → lookup m saved ≢ none
      → restore_buffers backend buffers saved st j ≡ orig j
  unfolding restore_buffers
  restore_buffers_restores [] saved st m j f p h = elim p [ ]
  restore_buffers_restores ((n, i) ∷ buffers) saved st m j f p h =
      let f' : Faithful buffers saved = λ l k v q. f l k v (Memᴰ.tail q) in
      elim p [
        | Memᴰ.head e ↦ elim (Option-cases (lookup n saved)) [
          | inl q ↦ absurd (h (ap (λ (l, _). lookup l saved) e ∙ q))
          | inr (v, q) ↦ rw q (
              restore_buffers_keeps buffers saved (copy st i v) j f'
                (copy_self st i j v (f n i v (Memᴰ.head refl) q) (sym (ap (λ x. x.1) e))))
        ]
        | Memᴰ.tail t ↦ restore_buffers_restores buffers saved _ m j f' t h
      ]

  -- Every saved parameter has a tensor, and is its original content.
  abbrev pub Matching : List (String × T) → List (String × ℕ) → Type 0
  Matching saved parameters =
      (n : String) (v : T)
      → Memᴰ (n, v) saved
      → (i : ℕ) × (lookup n parameters ≡ some i) × (v ≡ orig i)

  pub restore_parameters_keeps :
      (saved : List (String × T)) (parameters : List (String × ℕ)) (st : Store T) (j : ℕ)
      → Matching saved parameters
      → st j ≡ orig j
      → (restore_parameters backend saved parameters st).0 j ≡ orig j
  unfolding restore_parameters
  restore_parameters_keeps [] parameters st j f h = h
  restore_parameters_keeps ((n, v) ∷ saved) parameters st j f h =
      let (i, q, e) = f n v (Memᴰ.head refl) in
      rw q (
        restore_parameters_keeps saved parameters (copy st i v) j (λ m u p. f m u (Memᴰ.tail p))
          (copy_kept st i j v e h))

  pub restore_parameters_restores :
      (saved : List (String × T)) (parameters : List (String × ℕ)) (st : Store T) (m : String)
      (u : T) (j : ℕ)
      → Matching saved parameters
      → Memᴰ (m, u) saved
      → lookup m parameters ≡ some j
      → (restore_parameters backend saved parameters st).0 j ≡ orig j
  unfolding restore_parameters
  restore_parameters_restores [] parameters st m u j f p h = elim p [ ]
  restore_parameters_restores ((n, v) ∷ saved) parameters st m u j f p h =
      let (i, q, e) = f n v (Memᴰ.head refl) in
      let f' : Matching saved parameters = λ l w t. f l w (Memᴰ.tail t) in
      elim p [
        | Memᴰ.head r ↦ rw q (
            restore_parameters_keeps saved parameters (copy st i v) j f'
              (copy_self st i j v e (ground (arith, ap (λ x. x.0) r))))
        | Memᴰ.tail t ↦
            rw q (restore_parameters_restores saved parameters (copy st i v) m u j f' t h)
      ]

  -- No saved parameter is without a tensor.
  pub restore_parameters_total :
      (saved : List (String × T)) (parameters : List (String × ℕ)) (st : Store T)
      → Matching saved parameters
      → (restore_parameters backend saved parameters st).1 ≡ none
  unfolding restore_parameters
  restore_parameters_total [] parameters st f = refl
  restore_parameters_total ((n, v) ∷ saved) parameters st f =
      let (i, q, e) = f n v (Memᴰ.head refl) in
      rw q (restore_parameters_total saved parameters (copy st i v) (λ m u p. f m u (Memᴰ.tail p)))
