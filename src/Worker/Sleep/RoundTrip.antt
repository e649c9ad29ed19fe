-- ===== src/Worker/Sleep/RoundTrip.antt =====
-- serve/morrowmake/overlay/v1/worker/gpu_worker.py: `Worker.sleep` at level 2 and `Worker.wake_up`.
use Prim.Native.String.{String}
use mathlib.Core.List.{Memᴰ}
use mathlib.Core.List.Memᴰ as MemD
use glm53flash_pp.Worker.Dict.{lookup, lookup_item}
use glm53flash_pp.Base.{
  ℕ, List, [], ◌∷◌, map, Option, none, some, Bool, true, false, ◌≡◌, ◌≢◌, refl, sym, ap, ◌∙◌, arith,
  Option-cases, inl, inr, if◌then◌else◌, if_none, subst, >>=-eq-some, All,
}
use glm53flash_pp.Worker.Sleep.{
  Store, Backend, Module, Worker, Readings, retention_unmatched, clones, contents, select,
  get_sleep_parameters, save_sleep_parameters, save_buffers, suspend, sleep, is_empty, wake_up,
  wake_weights, wake_ups,
}
use glm53flash_pp.Worker.Sleep.Restore.{Faithful, Matching}
use glm53flash_pp.Worker.Sleep.Saved.{
  Unique, clones-Faithful, clones_key, contents-Matching, contents_item,
  get_sleep_parameters-IsDict, select_lem,
}
use glm53flash_pp.Worker.Sleep.Wake.{IsSaved, IsCovered, empty-cases, wake_lem, wake_restores}

-- The tensors that level 2 keeps: the buffers of the two models, and the parameters off the CPU
-- that a pattern selects.
pub data IsKept {T : Type 0} (backend : Backend T) (w : Worker T) (i : ℕ) : Type 0 where
  model_buffer : (n : String) → Memᴰ (n, i) w.model.named_buffers → IsKept backend w i
  draft_buffer :
      (n : String) (d : Module)
      → w.draft ≡ some d
      → Memᴰ (n, i) d.named_buffers
      → IsKept backend w i
  parameter :
      (n p : String)
      → Memᴰ (n, i) (get_sleep_parameters w.model w.draft)
      → Memᴰ p w.sleep_preserve_parameter_names
      → backend.fnmatch p n ≡ true
      → w.is_cpu i ≡ false
      → IsKept backend w i

some_injective : {A : Type 0} {x y : A} → some x ≡ some y → x ≡ y
some_injective h = cc

if_then : {A : Type 0} (b : Bool) {x z : A} (y : A) → b ≡ true → (if b then x else y) ≡ z → x ≡ z
if_then true y h e = e
if_then false y h e = absurd (ground arith)

if_else : {A : Type 0} (b : Bool) (x : A) {y z : A} → b ≡ false → (if b then x else y) ≡ z → y ≡ z
if_else true x h e = absurd (ground arith)
if_else false x h e = e

module _ {T : Type 0} (backend : Backend T) where
  -- `sp` holds the contents of the selected parameters of `w`.
  pub record HasParameters (w : Worker T) (sp : List (String × T)) : Type 0 where
    pub matching : Matching backend w.store sp (get_sleep_parameters w.model w.draft)
    pub holds :
        (n p : String) (i : ℕ)
        → Memᴰ (n, i) (get_sleep_parameters w.model w.draft)
        → Memᴰ p w.sleep_preserve_parameter_names
        → backend.fnmatch p n ≡ true
        → w.is_cpu i ≡ false
        → Memᴰ (n, w.store i) sp

  save_none : (w : Worker T) → w.sleep_preserve_parameter_names ≡ [] → HasParameters w []
  save_none w q = record {
    matching = λ n v m. elim m [ ];
    holds = λ n p i m k f c. absurd (elim (subst (Memᴰ p) q k) [ ]);
  }

  save_some :
      (w : Worker T) {sel : List String}
      → select backend
          (map (λ p. p.0) (get_sleep_parameters w.model w.draft))
          w.sleep_preserve_parameter_names
        ≡ some sel
      → HasParameters w
          (contents backend sel w.is_cpu w.store (get_sleep_parameters w.model w.draft))
  save_some w {sel = sel} q =
      let parameters = get_sleep_parameters w.model w.draft in
      record {
        matching =
            contents-Matching backend sel w.is_cpu w.store parameters
              (get_sleep_parameters-IsDict backend w.model w.draft);
        holds = λ n p i m k f c.
            contents_item backend sel w.is_cpu w.store parameters n i m
              (select_lem backend (map (λ p. p.0) parameters) w.sleep_preserve_parameter_names p n q
                k (MemD.map (λ p. p.0) m) f)
              c;
      }

  save_sleep_parameters_lem :
      (w : Worker T) {w' : Worker T}
      → save_sleep_parameters backend w ≡ some w'
      → (sp : List (String × T)) × (w' ≡ record w { saved_parameters = sp }) × HasParameters w sp
  unfolding save_sleep_parameters
  save_sleep_parameters_lem w h = elim (empty-cases w.sleep_preserve_parameter_names) [
    | inl q ↦ ([], some_injective (sym (if_then _ _ (ap is_empty q) h)), save_none w q)
    | inr e ↦
        let parameters = get_sleep_parameters w.model w.draft in
        let (sel, q, x) =
          >>=-eq-some (select backend (map (λ p. p.0) parameters) w.sleep_preserve_parameter_names)
            (λ names.
              some (record w {
                saved_parameters = contents backend names w.is_cpu w.store parameters;
              }))
            (if_else _ _ e h) in
        (contents backend sel w.is_cpu w.store parameters, some_injective (sym x), save_some w q)
  ]

  -- the worker after level 2, with `sp` saved and `st` in the device
  abbrev asleep : Worker T → List (String × T) → Store T → Worker T
  asleep w sp st = record (save_buffers backend (record w { saved_parameters = sp })) { store = st }

  module _ (w : Worker T) (u : Unique w.model.named_buffers)
      (ud : (d : Module) → w.draft ≡ some d → Unique d.named_buffers) where
    asleep-IsSaved :
        (sp : List (String × T)) (st : Store T)
        → HasParameters w sp
        → IsSaved backend w.store (asleep w sp st)
    unfolding save_buffers
    asleep-IsSaved sp st h = record {
      parameters = h.matching;
      buffers = clones-Faithful backend w.store w.model.named_buffers u;
      draft_buffers = λ d q.
          subst
            (λ o.
              Faithful backend w.store d.named_buffers
                (if_none o w.saved_draft_buffers (λ e. clones backend w.store e.named_buffers)))
            (sym q) (clones-Faithful backend w.store d.named_buffers (ud d q));
    }

    asleep-IsCovered :
        (sp : List (String × T)) (st : Store T) (i : ℕ)
        → HasParameters w sp
        → IsKept backend w i
        → IsCovered backend (asleep w sp st) i
    unfolding save_buffers
    asleep-IsCovered sp st i h (model_buffer n m) =
        IsCovered.by_buffer n m (clones_key backend w.store w.model.named_buffers n i m)
    asleep-IsCovered sp st i h (draft_buffer n d q m) = IsCovered.by_draft n d q m (
        subst
          (λ o.
            lookup n (if_none o w.saved_draft_buffers (λ e. clones backend w.store e.named_buffers))
            ≢ none)
          (sym q) (clones_key backend w.store d.named_buffers n i m))
    asleep-IsCovered sp st i h (parameter n p m k f c) =
        IsCovered.by_parameter n (w.store i) (h.holds n p i m k f c) (
          lookup_item (get_sleep_parameters w.model w.draft) n i
            (get_sleep_parameters-IsDict backend w.model w.draft) m)

  suspend_lem :
      (r : Readings) (level : ℕ) (w : Worker T)
      → (suspend backend r level w).0 ≡ record w { store = backend.suspend level w.store }
  unfolding suspend
  suspend_lem r level w = ground arith

  -- Calls that do not wake the weights change the contents of the tensors only.
  dozing :
      (calls : List (Option (List String))) (w : Worker T)
      → All (λ tags. wake_weights backend tags ≡ false) calls
      → (st : Store T) × (wake_ups backend calls w ≡ record w { store = st })
  unfolding wake_ups wake_up
  dozing [] w h = (w.store, refl)
  dozing (tags ∷ calls) w (h, hs) =
      let (st, e) = dozing calls (record w { store = backend.resume tags w.store }) hs in
      (st, rw h e)

  woken :
      (w : Worker T) (sp : List (String × T)) (i : ℕ) (tags : Option (List String)) (st : Store T)
      (u : Unique w.model.named_buffers)
      (ud : (d : Module) → w.draft ≡ some d → Unique d.named_buffers)
      → HasParameters w sp
      → IsKept backend w i
      → wake_weights backend tags ≡ true
      → let (w', err) = wake_up backend tags (asleep w sp st) in
        (err ≡ none) × (w'.store i ≡ w.store i)
  unfolding wake_up
  woken w sp i tags st u ud h k t =
      let st' = backend.resume tags st in
      rw (t, wake_lem backend w.store (asleep w sp st') (asleep-IsSaved w u ud sp st' h))
        (
          refl,
          wake_restores backend w.store (asleep w sp st') i (asleep-IsSaved w u ud sp st' h)
              (asleep-IsCovered w u ud sp st' i h k),
        )

  -- Level 2 sleep and waking are a round trip: whatever the backend does to the contents, and after any
  -- calls of `wake_up` that leave the weights asleep, the first one that wakes the weights raises
  -- nothing and gives every buffer of the two models, and every selected parameter off the CPU, the
  -- content that it had before. The names of the buffers of a model are distinct, and every pattern
  -- has a match, or `sleep` refuses.
  pub sleep-wake_up :
      (r : Readings) (w : Worker T) (calls : List (Option (List String)))
      (tags : Option (List String)) (i : ℕ)
      → Unique w.model.named_buffers
      → ((d : Module) → w.draft ≡ some d → Unique d.named_buffers)
      → (sleep backend r 2 w).1 ≢ some retention_unmatched
      → All (λ t. wake_weights backend t ≡ false) calls
      → wake_weights backend tags ≡ true
      → IsKept backend w i
      → let (w', err) = wake_up backend tags (wake_ups backend calls (sleep backend r 2 w).0) in
        (err ≡ none) × (w'.store i ≡ w.store i)
  unfolding sleep
  sleep-wake_up r w calls tags i u ud ok h t k =
      elim (Option-cases (save_sleep_parameters backend w)) [
        | inl q ↦ absurd (ok (rw q refl))
        | inr (w₁, q) ↦
            let (sp, e, hp) = save_sleep_parameters_lem w q in
            let slept =
              suspend_lem r 2 (save_buffers backend w₁)
              ∙ ap
                  (λ v. record (save_buffers backend v) {
                    store = backend.suspend 2 (save_buffers backend v).store;
                  })
                  e in
            let (st, dozed) =
              dozing calls
                (asleep w sp (
                  backend.suspend 2
                    (save_buffers backend (record w { saved_parameters = sp })).store))
                h in
            subst
              (λ v.
                ((wake_up backend tags v).1 ≡ none)
                × ((wake_up backend tags v).0.store i ≡ w.store i))
              (sym (
                ap
                  (λ o.
                    wake_ups backend calls
                      (if_none o (w, some retention_unmatched)
                        (λ w'. suspend backend r 2 (save_buffers backend w'))).0)
                  q
                ∙ ap (wake_ups backend calls) slept
                ∙ dozed))
              (woken w sp i tags st u ud hp k t)
      ]
