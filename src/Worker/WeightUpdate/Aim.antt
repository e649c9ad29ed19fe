-- ===== src/Worker/WeightUpdate/Aim.antt =====
-- serve/morrowmake/overlay/v1/worker/gpu_worker.py: which model the weight transfer engine of
-- `Worker` writes to.
use glm53flash_pp.Base.{
  List, [], ◌∷◌, Option, none, some, Bool, true, false, if◌then◌else◌, ◌≡◌, ◌∙◌, refl, arith,
  Option-cases, inl, inr,
}
use glm53flash_pp.Worker.WeightUpdate.{
  Target, main, draft, WeightTransferEngine, Config, Worker, UpdateInfo, Call, start_call,
  update_call, finish_call, shutdown_call, init_call, start, start_with, prepare, update,
  update_with, local_update_info, send_chunk, receive_chunk, finish, finish_with, init_engine,
  shutdown_engine, step, run, new_worker,
}
use glm53flash_pp.Worker.WeightUpdate.Session.{target_of}

-- What the engine documents of its target: it is the main model until a draft is set, the calls
-- of a session leave it, and a reset returns to the main model.
pub record Targeting {E Info : Type 0} (engine : WeightTransferEngine E Info) (aim : E → Target)
    : Type 0 where
  pub aim_set :
      (e : E)
      → (engine.set_weight_update_target e).1 ≡ false
      → aim (engine.set_weight_update_target e).0 ≡ draft
  pub aim_reset : (e : E) → aim (engine.reset_weight_update_target e) ≡ main
  pub aim_start : (e : E) → aim (engine.start_weight_update e).0 ≡ aim e
  pub aim_update : (i : Info) (e : E) → aim (engine.update_weights i e).0 ≡ aim e
  pub aim_finish : (e : E) → aim (engine.finish_weight_update e).0 ≡ aim e
  pub aim_parse : (i : Info) (e : E) → aim (engine.parse_init_info i e).0 ≡ aim e
  pub aim_init : (i : Info) (e : E) → aim (engine.init_transfer_engine i e).0 ≡ aim e
  pub aim_shutdown : (e : E) → aim (engine.shutdown e).0 ≡ aim e

-- The model that the worker's own flags name.
abbrev pub wanted : {E : Type 0} → Worker E → Target
wanted w = if w.weight_update_active then target_of w.weight_update_is_draft else main

-- The engine writes to the model that the flags name.
abbrev pub IsAimed : {E : Type 0} → (E → Target) → Worker E → Type 0
IsAimed aim w = elim w.weight_transfer_engine [
  | none ↦ w.weight_update_active ≡ false
  | some e ↦ aim e ≡ wanted w
]

module _ {E Info : Type 0} (engine : WeightTransferEngine E Info) (cfg : Config) (aim : E → Target)
    (laws : Targeting engine aim) where
  -- the body of the `try` leaves the target that was asked for, if it does not raise
  aim_prepare :
      (d : Bool) (e : E)
      → aim e ≡ main
      → (prepare engine cfg d e).1 ≡ none
      → aim (prepare engine cfg d e).0 ≡ target_of d
  unfolding prepare
  aim_prepare false e h p = laws.aim_start e ∙ h
  aim_prepare true e h p =
      ground (arith, laws.aim_set e, laws.aim_start (engine.set_weight_update_target e).0)

  start_with-IsAimed :
      (d : Bool) (w : Worker E) (e : E)
      → w.weight_transfer_engine ≡ some e
      → aim e ≡ wanted w
      → IsAimed aim (start_with engine cfg d w e).0
  unfolding start_with
  start_with-IsAimed d w e q h =
      ground (arith, aim_prepare d e, laws.aim_reset (prepare engine cfg d e).0)

  aim_send : (i : Option Info) (e : E) → aim (send_chunk engine cfg i e).0 ≡ aim e
  unfolding send_chunk
  aim_send none e = refl
  aim_send (some i) e = laws.aim_update i e

  aim_chunk : (i : UpdateInfo Info) (e : E) → aim (receive_chunk engine cfg i e).0 ≡ aim e
  unfolding receive_chunk
  aim_chunk i e = aim_send (local_update_info engine cfg i) e

  update_with-IsAimed :
      (i : UpdateInfo Info) (w : Worker E) (e : E)
      → w.weight_transfer_engine ≡ some e
      → aim e ≡ wanted w
      → IsAimed aim (update_with engine cfg i w e).0
  unfolding update_with
  update_with-IsAimed i w e q h =
      ground (arith, aim_chunk i e, laws.aim_reset (receive_chunk engine cfg i e).0)

  finish_with-IsAimed :
      (w : Worker E) (e : E)
      → w.weight_transfer_engine ≡ some e
      → aim e ≡ wanted w
      → IsAimed aim (finish_with engine cfg w e).0
  unfolding finish_with
  finish_with-IsAimed w e q h =
      ground (arith, laws.aim_finish e, laws.aim_reset (engine.finish_weight_update e).0)

  init_with-IsAimed :
      (i : Info) (w : Worker E) (e : E)
      → w.weight_transfer_engine ≡ some e
      → aim e ≡ wanted w
      → IsAimed aim (init_engine engine cfg i w).0
  unfolding init_engine
  init_with-IsAimed i w e q h =
      rw q (ground (arith, laws.aim_parse i e, laws.aim_init i (engine.parse_init_info i e).0))

  step_without :
      (c : Call Info) (w : Worker E)
      → w.weight_transfer_engine ≡ none
      → IsAimed aim w
      → IsAimed aim (step engine cfg c w).0
  unfolding step start update finish init_engine shutdown_engine
  step_without c w q h = ground arith

  step_with :
      (c : Call Info) (w : Worker E) (e : E)
      → w.weight_transfer_engine ≡ some e
      → aim e ≡ wanted w
      → IsAimed aim (step engine cfg c w).0
  unfolding step start update finish shutdown_engine
  step_with (start_call d) w e q h =
      rw q (start_with-IsAimed d (record w { weight_transfer_engine = some e }) e refl h)
  step_with (update_call i) w e q h =
      rw q (update_with-IsAimed i (record w { weight_transfer_engine = some e }) e refl h)
  step_with finish_call w e q h =
      rw q (finish_with-IsAimed (record w { weight_transfer_engine = some e }) e refl h)
  step_with shutdown_call w e q h = ground (arith, laws.aim_shutdown e)
  step_with (init_call i) w e q h = init_with-IsAimed i w e q h

  step-IsAimed :
      (c : Call Info) (w : Worker E) → IsAimed aim w → IsAimed aim (step engine cfg c w).0
  step-IsAimed c w h = elim (Option-cases w.weight_transfer_engine) [
    | inl q ↦ step_without c w q h
    | inr (e, q) ↦ step_with c w e q (ground arith)
  ]

  run-IsAimed :
      (cs : List (Call Info)) (w : Worker E) → IsAimed aim w → IsAimed aim (run engine cfg cs w).0
  unfolding run
  run-IsAimed [] w h = h
  run-IsAimed (c ∷ cs) w h = run-IsAimed cs (step engine cfg c w).0 (step-IsAimed c w h)

  -- From a new worker whose engine, if it has one, targets the main model, after any calls of the
  -- trainer, whatever they raised, the engine targets the draft model exactly while a session of the
  -- draft model is active, and the main model otherwise.
  pub run_of_new-IsAimed :
      (cs : List (Call Info)) (e : E)
      → aim e ≡ main
      → IsAimed aim (run engine cfg cs (new_worker engine cfg (some e))).0
  run_of_new-IsAimed cs e h = run-IsAimed cs (new_worker engine cfg (some e)) h
