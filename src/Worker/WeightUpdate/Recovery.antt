-- ===== src/Worker/WeightUpdate/Recovery.antt =====
-- serve/morrowmake/overlay/v1/worker/gpu_worker.py: the calls that `Worker` refuses in a weight
-- update session, and how a trainer gets out of any session.
use glm53flash_pp.Base.{
  List, [], ◌∷◌, none, some, Bool, true, false, ◌≡◌, ◌⊎◌, ◌↔◌, inl, inr, arith, ◌≢◌, refl,
  Option-cases, Bool-cases, if◌then◌else◌,
}
use glm53flash_pp.Worker.WeightUpdate.{
  WeightTransferEngine, Config, Worker, Error, index_error, engine_raised, no_draft_model,
  no_draft_config, Call, start_call, update_call, finish_call, shutdown_call, init_call, start,
  start_with, prepare, set_draft_weight_update_target, update, update_with, finish, finish_with,
  init_engine, shutdown_engine, step, run, supports_draft_weight_updates,
}

-- The exceptions of the worker's own checks.
abbrev pub is_refusal : Error → Bool
is_refusal engine_raised = false
is_refusal index_error = false
is_refusal _ = true

-- The exceptions of `_set_draft_weight_update_target`, checks inside the `try` statement.
abbrev pub is_draft_check : Error → Bool
is_draft_check no_draft_model = true
is_draft_check no_draft_config = true
is_draft_check _ = false

module _ {E Info : Type 0} (engine : WeightTransferEngine E Info) (cfg : Config) where
  -- the engine of a worker, after a reset of its target
  abbrev pub with_reset : Worker E → Worker E
  with_reset w = record w {
    weight_transfer_engine = elim w.weight_transfer_engine [
      | none ↦ none
      | some e ↦ some (engine.reset_weight_update_target e)
    ];
  }

  reset_self :
      (w : Worker E) (e : E)
      → w.weight_transfer_engine ≡ some e
      → record w { weight_transfer_engine = some (engine.reset_weight_update_target e) }
        ≡ with_reset w
  reset_self w e h = rw h refl

  draft_refused :
      (w : Worker E) {x : Error}
      → (start engine cfg true w).1 ≡ some x
      → is_draft_check x ≡ true
      → (start engine cfg true w).0 ≡ with_reset w
  unfolding start start_with prepare set_draft_weight_update_target
  draft_refused w h r = elim (Option-cases w.weight_transfer_engine) [
    | inl q ↦ ground arith
    | inr (e, q) ↦ ground (arith, reset_self w e q)
  ]

  -- A call that one of the worker's own checks refuses leaves the worker and its engine as they were,
  -- with one exception: a draft session that is refused since there is no draft model, or no
  -- configuration of it, resets the target of the engine.
  pub step_refused :
      (c : Call Info) (w : Worker E) {x : Error}
      → (step engine cfg c w).1 ≡ some x
      → is_refusal x ≡ true
      → (step engine cfg c w).0 ≡ (if is_draft_check x then with_reset w else w)
  unfolding step start update finish init_engine shutdown_engine start_with update_with finish_with
      prepare set_draft_weight_update_target
  step_refused (start_call true) w {x = x} h r = elim (Bool-cases (is_draft_check x)) [
    | inl d ↦ rw d (draft_refused w h d)
    | inr d ↦ rw d (ground arith)
  ]
  step_refused (start_call false) w h r = ground arith
  step_refused (update_call i) w h r = ground arith
  step_refused finish_call w h r = ground arith
  step_refused shutdown_call w h r = ground arith
  step_refused (init_call i) w h r = ground arith

  -- While no session is active, `supports_draft_weight_updates` holds exactly if a draft session
  -- would start, or fail only by what the engine raises.
  pub supports_draft_iff :
      (w : Worker E)
      → w.weight_update_active ≡ false
      → (supports_draft_weight_updates engine cfg w ≡ true) ↔ (
          ((start engine cfg true w).1 ≡ none) ⊎ ((start engine cfg true w).1 ≡ some engine_raised))
  unfolding start
  supports_draft_iff w h = ground arith

  step_keeps_engine :
      (c : Call Info) (w : Worker E)
      → w.weight_transfer_engine ≢ none
      → (step engine cfg c w).0.weight_transfer_engine ≢ none
  unfolding step start update finish init_engine shutdown_engine
  step_keeps_engine c w h = ground arith

  run_keeps_engine :
      (cs : List (Call Info)) (w : Worker E)
      → w.weight_transfer_engine ≢ none
      → (run engine cfg cs w).0.weight_transfer_engine ≢ none
  unfolding run
  run_keeps_engine [] w h = h
  run_keeps_engine (c ∷ cs) w h =
      run_keeps_engine cs (step engine cfg c w).0 (step_keeps_engine c w h)

  -- `finish_weight_update` ends any session, if the engine does not raise.
  finish_ends :
      (w : Worker E)
      → ((e : E) → (engine.finish_weight_update e).1 ≡ false)
      → w.weight_transfer_engine ≢ none
      → ((finish engine cfg w).0.weight_update_active ≡ false)
        × ((finish engine cfg w).0.weight_transfer_engine ≢ none)
  unfolding finish
  finish_ends w f h = elim (Option-cases w.weight_transfer_engine) [
    | inl q ↦ ground arith
    | inr (e, q) ↦ ground (arith, f e)
  ]

  start_begins :
      (w : Worker E)
      → ((e : E) → (engine.start_weight_update e).1 ≡ false)
      → w.weight_update_active ≡ false
      → w.weight_transfer_engine ≢ none
      → ((start engine cfg false w).1 ≡ none)
        × ((start engine cfg false w).0.weight_update_active ≡ true)
        × ((start engine cfg false w).0.weight_update_is_draft ≡ false)
  unfolding start
  start_begins w f a h = elim (Option-cases w.weight_transfer_engine) [
    | inl q ↦ ground arith
    | inr (e, q) ↦ ground (arith, f e)
  ]

  -- After any calls of the trainer, whatever they raised, one `finish_weight_update` and one
  -- `start_weight_update` give a session of the main model, if the worker has an engine and the
  -- engine does not raise in these two.
  pub run_recovers :
      (cs : List (Call Info)) (w : Worker E)
      → w.weight_transfer_engine ≢ none
      → ((e : E) → (engine.finish_weight_update e).1 ≡ false)
      → ((e : E) → (engine.start_weight_update e).1 ≡ false)
      → let w' = (run engine cfg cs w).0 in
        let (w'', err) = start engine cfg false (finish engine cfg w').0 in
        (err ≡ none) × (w''.weight_update_active ≡ true) × (w''.weight_update_is_draft ≡ false)
  run_recovers cs w h f s =
      let (idle, present) = finish_ends (run engine cfg cs w).0 f (run_keeps_engine cs w h) in
      start_begins (finish engine cfg (run engine cfg cs w).0).0 s idle present
