-- ===== src/Worker/WeightUpdate/Session.antt =====
-- serve/morrowmake/overlay/v1/worker/gpu_worker.py: the weight update sessions of `Worker` as a
-- machine with two kinds of state.
use glm53flash_pp.Base.{
  ℕ, suc, List, [], ◌∷◌, Option, none, some, Bool, true, if◌then◌else◌, ◌≡◌, refl, arith, ◌>>=◌,
}
use glm53flash_pp.Worker.WeightUpdate.{
  Target, main, draft, WeightTransferEngine, Config, Worker, Error, not_configured,
  draft_unsupported, already_active, no_draft_model, no_draft_config, start_required, not_matching,
  release_refused, index_error, engine_raised, Call, start_call, update_call, finish_call,
  shutdown_call, init_call, UpdateInfo, start, update, finish, init_engine, shutdown_engine, step,
  run,
}

pub data Session : Type 0 where
  idle : Session
  updating : Target → Session

pub record View : Type 0 where
  pub session : Session
  pub resets : ℕ

abbrev pub target_of : Bool → Target
target_of is_draft = if is_draft then draft else main

abbrev pub view : {E : Type 0} → Worker E → View
view w = record {
  session = if w.weight_update_active then updating (target_of w.weight_update_is_draft) else idle;
  resets = w.lora_resets;
}

abbrev pub during : View → Option View
during v = elim v.session [ idle ↦ none | updating _ ↦ some v ]

abbrev pub between : View → Option View
between v = elim v.session [ idle ↦ some v | updating _ ↦ none ]

abbrev begin : Target → View → Option View
begin t v = elim v.session [ idle ↦ some (record v { session = updating t }) | updating _ ↦ none ]

abbrev abandon : View → Option View
abandon v = elim v.session [ idle ↦ none | updating _ ↦ some (record v { session = idle }) ]

abbrev count_main : Target → ℕ → ℕ
count_main main n = suc n
count_main draft n = n

abbrev complete : View → Option View
complete v = elim v.session [
  | idle ↦ none
  | updating t ↦ some (record { session = idle; resets = count_main t v.resets })
]

-- The state after a call that ended this way, or `none` where it cannot end so.
unfoldable pub move : {Info : Type 0} → Call Info → Option Error → View → Option View
move (start_call is_draft) none v = begin (target_of is_draft) v
move (start_call _) (some not_configured) v = some v
move (start_call true) (some draft_unsupported) v = some v
move (start_call _) (some already_active) v = during v
move (start_call true) (some no_draft_model) v = between v
move (start_call true) (some no_draft_config) v = between v
move (start_call _) (some engine_raised) v = between v
move (update_call _) none v = during v
move (update_call _) (some not_configured) v = some v
move (update_call _) (some start_required) v = between v
move (update_call _) (some index_error) v = abandon v
move (update_call _) (some engine_raised) v = abandon v
move finish_call none v = complete v
move finish_call (some not_configured) v = some v
move finish_call (some not_matching) v = between v
move finish_call (some engine_raised) v = during v
move shutdown_call none v = between v
move shutdown_call (some engine_raised) v = between v
move shutdown_call (some release_refused) v = during v
move (init_call _) none v = some v
move (init_call _) (some not_configured) v = some v
move (init_call _) (some engine_raised) v = some v
move _ _ _ = none

unfoldable pub replay :
    {Info : Type 0} → List (Call Info) → List (Option Error) → View → Option View
replay (c ∷ cs) (err ∷ errs) v = move c err v >>= replay cs errs
replay [] [] v = some v
replay _ _ _ = none

module _ {E Info : Type 0} (engine : WeightTransferEngine E Info) (cfg : Config) where
  step-start :
      (d : Bool) (w : Worker E)
      → move {Info = Info} (start_call d) (start engine cfg d w).1 (view w)
        ≡ some (view (start engine cfg d w).0)
  unfolding start move
  step-start d w = ground arith

  step-update :
      (i : UpdateInfo Info) (w : Worker E)
      → move (update_call i) (update engine cfg i w).1 (view w)
        ≡ some (view (update engine cfg i w).0)
  unfolding update move
  step-update i w = ground arith

  step-finish :
      (w : Worker E)
      → move {Info = Info} finish_call (finish engine cfg w).1 (view w)
        ≡ some (view (finish engine cfg w).0)
  unfolding finish move
  step-finish w = ground arith

  step-init :
      (i : Info) (w : Worker E)
      → move (init_call i) (init_engine engine cfg i w).1 (view w)
        ≡ some (view (init_engine engine cfg i w).0)
  unfolding init_engine move
  step-init i w = ground arith

  step-shutdown :
      (w : Worker E)
      → move {Info = Info} shutdown_call (shutdown_engine engine cfg w).1 (view w)
        ≡ some (view (shutdown_engine engine cfg w).0)
  unfolding shutdown_engine move
  step-shutdown w = ground arith

  step_lem :
      (c : Call Info) (w : Worker E)
      → move c (step engine cfg c w).1 (view w) ≡ some (view (step engine cfg c w).0)
  unfolding step
  step_lem (start_call d) w = step-start d w
  step_lem (update_call i) w = step-update i w
  step_lem finish_call w = step-finish w
  step_lem shutdown_call w = step-shutdown w
  step_lem (init_call i) w = step-init i w

  -- Whatever the trainer calls and whatever the engine raises, the worker runs the machine of
  -- sessions: each call ends in a way that the machine has in its state, it moves the worker's
  -- session as the machine moves, and the LoRA state is reset once for each finished update of the
  -- main model and at no other call.
  pub replay-run :
      (cs : List (Call Info)) (w : Worker E)
      → let (w', errs) = run engine cfg cs w in replay cs errs (view w) ≡ some (view w')
  unfolding run replay
  replay-run [] w = refl
  replay-run (c ∷ cs) w = rw (step_lem c w) (replay-run cs (step engine cfg c w).0)
