-- ===== src/Worker/Sleep.antt =====
-- serve/morrowmake/overlay/v1/worker/gpu_worker.py: sleep mode of `Worker`. The tensors stand in a
-- store by their identity, so that two names can be one tensor; a method returns the worker as it
-- leaves it and the exception it raises, if any.
pub mod Poll
pub mod Restore
pub mod Saved
pub mod Wake
pub mod RoundTrip
pub mod Tests
use Prim.Native.String.{String}
use glm53flash_pp.Worker.Dict.{lookup, update, same, concat}
use glm53flash_pp.Base.{
  ℕ, zero, suc, ◌+◌, List, [], ◌∷◌, ◌++◌, map, Option, none, some, Bool, true, false, not, ◌&&◌,
  ◌||◌, if◌then◌else◌, any, leb, ◌==◌, ◌>>=◌, if_none,
}

-- The tensors of an `nn.Module`, by name.
pub record Module : Type 0 where
  pub named_parameters : List (String × ℕ)
  pub named_buffers : List (String × ℕ)

abbrev pub Store : Type 0 → Type 0
Store T = ℕ → T

-- `t.copy_(v)`
abbrev pub copy : {T : Type 0} → Store T → ℕ → T → Store T
copy st i v j = if j == i then v else st j

pub record Worker (T : Type 0) : Type 0 where
  pub store : Store T
  pub is_cpu : ℕ → Bool
  pub model : Module
  pub draft : Option Module
  pub sleep_preserve_parameter_names : List String
  pub saved_parameters : List (String × T)
  pub saved_buffers : List (String × T)
  pub saved_draft_buffers : List (String × T)

pub data Error : Type 0 where
  retention_unmatched memory_increased unknown_parameter still_polling : Error

-- What a call of `sleep` reads of the device: the free memory before it, and at each round of its
-- loop the free memory and the clock, in milliseconds.
pub record Readings : Type 0 where
  pub is_rocm : Bool
  pub free_bytes_before_sleep : ℕ
  pub clock : ℕ
  pub free_bytes : ℕ → ℕ
  pub monotonic : ℕ → ℕ

-- The sleep mode backend, which moves or drops the contents of tensors, and `fnmatch`.
pub record Backend (T : Type 0) : Type 0 where
  pub suspend : ℕ → Store T → Store T
  pub resume : Option (List String) → Store T → Store T
  pub fnmatch : String → String → Bool

abbrev pub deadline : Readings → ℕ
deadline r = r.clock + (if r.is_rocm then 5000 else 0)

-- the loop that waits for the memory to be freed, from its round `k`
unfoldable pub poll : Readings → ℕ → ℕ → Option ℕ
poll r zero k = none
poll r (suc fuel) k =
    let rest = poll r fuel (k + 1) in
    if leb r.free_bytes_before_sleep (r.free_bytes k) || leb (deadline r) (r.monotonic k)
    then some (r.free_bytes k)
    else rest

abbrev pub poll_fuel : ℕ
poll_fuel = 51

abbrev pub is_empty : {A : Type 0} → List A → Bool
is_empty [] = true
is_empty (_ ∷ _) = false

abbrev pub filter : {A : Type 0} → (A → Bool) → List A → List A
filter p [] = []
filter p (x ∷ xs) = if p x then x ∷ filter p xs else filter p xs

-- the entries of the draft model that the model does not share
unfoldable pub draft_items : List ℕ → List (String × ℕ) → List (String × ℕ)
draft_items shared [] = []
draft_items shared ((n, i) ∷ items) =
    let rest = draft_items shared items in
    if any (map (λ j. j == i) shared) then rest else (concat "draft." n, i) ∷ rest

-- `_get_sleep_parameters`
unfoldable pub get_sleep_parameters : Module → Option Module → List (String × ℕ)
unfolding update draft_items
get_sleep_parameters m draft =
    let parameters = update [] m.named_parameters in
    elim draft [
      | none ↦ parameters
      | some d ↦ update parameters (draft_items (map (λ p. p.1) parameters) d.named_parameters)
    ]

module _ {T : Type 0} (backend : Backend T) where
  -- The names that the patterns select; a pattern without a match is an error.
  unfoldable pub select : List String → List String → Option (List String)
  select names [] = some []
  select names (p ∷ patterns) =
      let matches = filter (backend.fnmatch p) names in
      if is_empty matches && not (same p "draft.*")
      then none
      else (select names patterns >>= λ rest. some (matches ++ rest))

  -- the entries that are selected and not on the CPU, with their contents
  unfoldable pub contents :
      List String → (ℕ → Bool) → Store T → List (String × ℕ) → List (String × T)
  contents names is_cpu st [] = []
  contents names is_cpu st ((n, i) ∷ items) =
      let rest = contents names is_cpu st items in
      if any (map (same n) names) && not (is_cpu i) then (n, st i) ∷ rest else rest

  -- `_save_sleep_parameters`
  unfoldable pub save_sleep_parameters : Worker T → Option (Worker T)
  unfolding get_sleep_parameters select contents
  save_sleep_parameters w =
      if is_empty w.sleep_preserve_parameter_names
      then some (record w { saved_parameters = [] })
      else (let parameters = get_sleep_parameters w.model w.draft in
          select (map (λ p. p.0) parameters) w.sleep_preserve_parameter_names >>= λ names.
          some (record w { saved_parameters = contents names w.is_cpu w.store parameters }))

  -- `{name: buffer.cpu().clone() for name, buffer in module.named_buffers()}`
  unfoldable pub clones : Store T → List (String × ℕ) → List (String × T)
  unfolding update
  clones st buffers = update [] (map (λ p. (p.0, st p.1)) buffers)

  unfoldable pub save_buffers : Worker T → Worker T
  unfolding clones
  save_buffers w = record w {
    saved_buffers = clones w.store w.model.named_buffers;
    saved_draft_buffers =
        if_none w.draft w.saved_draft_buffers (λ d. clones w.store d.named_buffers);
  }

  -- the call after the buffers are saved
  unfoldable pub suspend : Readings → ℕ → Worker T → Worker T × Option Error
  unfolding poll
  suspend r level w =
      let w' = record w { store = backend.suspend level w.store } in
      elim (poll r poll_fuel 0) [
        | none ↦ (w', some still_polling)
        | some free ↦
            if leb r.free_bytes_before_sleep free then (w', none) else (w', some memory_increased)
      ]

  unfoldable pub sleep : Readings → ℕ → Worker T → Worker T × Option Error
  unfolding save_sleep_parameters save_buffers suspend
  sleep r level w =
      if level == 2
      then if_none (save_sleep_parameters w) (w, some retention_unmatched)
          (λ w'. suspend r level (save_buffers w'))
      else suspend r level w

  -- the loop of `_restore_sleep_parameters`
  unfoldable pub restore_parameters :
      List (String × T) → List (String × ℕ) → Store T → Store T × Option Error
  unfolding lookup
  restore_parameters [] parameters st = (st, none)
  restore_parameters ((n, v) ∷ saved) parameters st =
      if_none (lookup n parameters) (st, some unknown_parameter)
        (λ i. restore_parameters saved parameters (copy st i v))

  -- the loop over `named_buffers` of `wake_up`
  unfoldable pub restore_buffers : List (String × ℕ) → List (String × T) → Store T → Store T
  unfolding lookup
  restore_buffers [] saved st = st
  restore_buffers ((n, i) ∷ buffers) saved st =
      restore_buffers buffers saved (elim (lookup n saved) [ none ↦ st | some v ↦ copy st i v ])

  abbrev pub wake_weights : Option (List String) → Bool
  wake_weights none = true
  wake_weights (some tags) = any (map (same "weights") tags)

  unfoldable pub restore_sleep_parameters : Worker T → Worker T × Option Error
  unfolding restore_parameters get_sleep_parameters
  restore_sleep_parameters w =
      let (st, err) =
        restore_parameters w.saved_parameters (get_sleep_parameters w.model w.draft) w.store in
      if_none err (record w { store = st; saved_parameters = [] }, none)
        (λ x. (record w { store = st }, some x))

  unfoldable pub wake_buffers : Worker T → Worker T
  unfolding restore_buffers
  wake_buffers w = if is_empty w.saved_buffers then w else record w {
    store = restore_buffers w.model.named_buffers w.saved_buffers w.store;
    saved_buffers = [];
  }

  unfoldable pub wake_draft_buffers : Worker T → Worker T
  unfolding restore_buffers
  wake_draft_buffers w = if is_empty w.saved_draft_buffers then w else record w {
    store =
        if_none w.draft w.store
          (λ d. restore_buffers d.named_buffers w.saved_draft_buffers w.store);
    saved_draft_buffers = [];
  }

  -- the part of `wake_up` under `wake_weights`
  unfoldable pub wake : Worker T → Worker T × Option Error
  unfolding restore_sleep_parameters wake_buffers wake_draft_buffers
  wake w =
      let (w', err) =
        if is_empty w.saved_parameters then (w, none) else restore_sleep_parameters w in
      if_none err (wake_draft_buffers (wake_buffers w'), none) (λ x. (w', some x))

  unfoldable pub wake_up : Option (List String) → Worker T → Worker T × Option Error
  unfolding wake
  wake_up tags w =
      let w' = record w { store = backend.resume tags w.store } in
      if wake_weights tags then wake w' else (w', none)

  -- Calls of `wake_up` one after another.
  unfoldable pub wake_ups : List (Option (List String)) → Worker T → Worker T
  unfolding wake_up
  wake_ups [] w = w
  wake_ups (tags ∷ calls) w = wake_ups calls (wake_up tags w).0
