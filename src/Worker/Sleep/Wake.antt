-- ===== src/Worker/Sleep/Wake.antt =====
-- serve/morrowmake/overlay/v1/worker/gpu_worker.py: the part of `Worker.wake_up` that copies the
-- saved contents back.
use Prim.Native.String.{String}
use mathlib.Core.List.{Memᴰ}
use glm53flash_pp.Worker.Dict.{lookup}
use glm53flash_pp.Base.{
  ℕ, List, [], ◌∷◌, Option, none, some, false, ◌≡◌, ◌≢◌, ◌⊎◌, refl, sym, inl, inr, if◌then◌else◌,
  if_none, subst,
}
use glm53flash_pp.Worker.Sleep.{
  Store, Backend, Module, Worker, get_sleep_parameters, is_empty, restore_parameters,
  restore_buffers, restore_sleep_parameters, wake_buffers, wake_draft_buffers, wake,
}
use glm53flash_pp.Worker.Sleep.Restore.{
  Faithful, Matching, restore_buffers_keeps, restore_buffers_restores, restore_parameters_restores,
  restore_parameters_total,
}

pub empty-cases : {A : Type 0} (xs : List A) → (xs ≡ []) ⊎ (is_empty xs ≡ false)
empty-cases [] = inl refl
empty-cases (x ∷ xs) = inr refl

module _ {T : Type 0} (backend : Backend T) where
  -- What is saved of the tensors in `orig`.
  pub record IsSaved (orig : Store T) (w : Worker T) : Type 0 where
    pub parameters : Matching backend orig w.saved_parameters (get_sleep_parameters w.model w.draft)
    pub buffers : Faithful backend orig w.model.named_buffers w.saved_buffers
    pub draft_buffers :
        (d : Module)
        → w.draft ≡ some d
        → Faithful backend orig d.named_buffers w.saved_draft_buffers

  -- The tensors that the saved contents name.
  pub data IsCovered (w : Worker T) (i : ℕ) : Type 0 where
    by_buffer :
        (n : String)
        → Memᴰ (n, i) w.model.named_buffers
        → lookup n w.saved_buffers ≢ none
        → IsCovered w i
    by_draft :
        (n : String) (d : Module)
        → w.draft ≡ some d
        → Memᴰ (n, i) d.named_buffers
        → lookup n w.saved_draft_buffers ≢ none
        → IsCovered w i
    by_parameter :
        (n : String) (v : T)
        → Memᴰ (n, v) w.saved_parameters
        → lookup n (get_sleep_parameters w.model w.draft) ≡ some i
        → IsCovered w i

  restore_nothing :
      (buffers : List (String × ℕ)) (st : Store T) → restore_buffers backend buffers [] st ≡ st
  unfolding restore_buffers lookup
  restore_nothing [] st = refl
  restore_nothing ((n, i) ∷ buffers) st = restore_nothing buffers st

  abbrev pub after_parameters : Worker T → Store T
  after_parameters w =
      (restore_parameters backend w.saved_parameters (get_sleep_parameters w.model w.draft)
        w.store).0

  abbrev pub after_draft : Option Module → List (String × T) → Store T → Store T
  after_draft draft saved st =
      if_none draft st (λ d. restore_buffers backend d.named_buffers saved st)

  parameters_lem :
      (orig : Store T) (w : Worker T)
      → IsSaved orig w
      → (if is_empty w.saved_parameters then (w, none) else restore_sleep_parameters backend w)
        ≡ (record w { store = after_parameters w; saved_parameters = [] }, none)
  unfolding restore_sleep_parameters restore_parameters
  parameters_lem orig w s = elim (empty-cases w.saved_parameters) [
    | inl q ↦ rw q refl
    | inr e ↦
        rw
          (
            e,
            restore_parameters_total backend orig w.saved_parameters
                (get_sleep_parameters w.model w.draft) w.store s.parameters,
          )
          refl
  ]

  buffers_lem :
      (w : Worker T)
      → wake_buffers backend w ≡ record w {
        store = restore_buffers backend w.model.named_buffers w.saved_buffers w.store;
        saved_buffers = [];
      }
  unfolding wake_buffers
  buffers_lem w = elim (empty-cases w.saved_buffers) [
    | inl q ↦ rw (q, restore_nothing w.model.named_buffers w.store) refl
    | inr e ↦ rw e refl
  ]

  after_nothing : (draft : Option Module) (st : Store T) → after_draft draft [] st ≡ st
  after_nothing none st = refl
  after_nothing (some d) st = restore_nothing d.named_buffers st

  draft_lem :
      (w : Worker T)
      → wake_draft_buffers backend w ≡ record w {
        store = after_draft w.draft w.saved_draft_buffers w.store;
        saved_draft_buffers = [];
      }
  unfolding wake_draft_buffers
  draft_lem w = elim (empty-cases w.saved_draft_buffers) [
    | inl q ↦ rw (q, after_nothing w.draft w.store) refl
    | inr e ↦ rw e refl
  ]

  pub wake_lem :
      (orig : Store T) (w : Worker T)
      → IsSaved orig w
      → wake backend w ≡ (
        record w {
          store =
              after_draft w.draft w.saved_draft_buffers (
                restore_buffers backend w.model.named_buffers w.saved_buffers (after_parameters w));
          saved_parameters = [];
          saved_buffers = [];
          saved_draft_buffers = [];
        },
        none,
      )
  unfolding wake
  wake_lem orig w s = rw (parameters_lem orig w s, buffers_lem, draft_lem) refl

  draft_keeps :
      (orig : Store T) (draft : Option Module) (saved : List (String × T)) (st : Store T) (i : ℕ)
      → ((d : Module) → draft ≡ some d → Faithful backend orig d.named_buffers saved)
      → st i ≡ orig i
      → after_draft draft saved st i ≡ orig i
  draft_keeps orig none saved st i f h = h
  draft_keeps orig (some d) saved st i f h =
      restore_buffers_keeps backend orig d.named_buffers saved st i (f d refl) h

  -- Every tensor that is covered has its original content again.
  pub wake_restores :
      (orig : Store T) (w : Worker T) (i : ℕ)
      → IsSaved orig w
      → IsCovered w i
      → after_draft w.draft w.saved_draft_buffers
          (restore_buffers backend w.model.named_buffers w.saved_buffers (after_parameters w))
          i
        ≡ orig i
  wake_restores orig w i s (by_buffer n m h) =
      draft_keeps orig w.draft w.saved_draft_buffers _ i s.draft_buffers (
        restore_buffers_restores backend orig w.model.named_buffers w.saved_buffers
          (after_parameters w) n i s.buffers m h)
  wake_restores orig w i s (by_draft n d q m h) =
      subst
        (λ o.
          after_draft o w.saved_draft_buffers
            (restore_buffers backend w.model.named_buffers w.saved_buffers (after_parameters w)) i
          ≡ orig i)
        (sym q)
        (restore_buffers_restores backend orig d.named_buffers w.saved_draft_buffers _ n i
          (s.draft_buffers d q) m h)
  wake_restores orig w i s (by_parameter n v m q) =
      draft_keeps orig w.draft w.saved_draft_buffers _ i s.draft_buffers (
        restore_buffers_keeps backend orig w.model.named_buffers w.saved_buffers
          (after_parameters w) i s.buffers
          (restore_parameters_restores backend orig w.saved_parameters
            (get_sleep_parameters w.model w.draft) w.store n v i s.parameters m q))
