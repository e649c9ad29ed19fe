-- ===== src/Worker/WeightUpdate.antt =====
-- serve/morrowmake/overlay/v1/worker/gpu_worker.py: the weight update sessions of `Worker`. A
-- method returns the worker as it leaves it and the exception it raises, if any.
pub mod Session
pub mod Aim
pub mod Recovery
pub mod Tests
use glm53flash_pp.Base.{
  ℕ, suc, ◌+◌, ◌*◌, List, [], ◌∷◌, Option, none, some, Bool, true, false, not, ◌&&◌, if◌then◌else◌,
  get_elem?,
}

pub data Target : Type 0 where
  main draft : Target

-- The engine of the weight transfer, with `E` the state of the engine object. A method returns the
-- engine as it leaves it, and whether it raises; the reset of the target, which the worker calls to
-- clean up after an exception, does not.
pub record WeightTransferEngine (E Info : Type 0) : Type 0 where
  pub supports_draft_weight_update : Bool
  pub set_weight_update_target : E → E × Bool
  pub reset_weight_update_target : E → E
  pub start_weight_update : E → E × Bool
  pub update_weights : Info → E → E × Bool
  pub finish_weight_update : E → E × Bool
  pub parse_init_info : Info → E → E × Bool
  pub init_transfer_engine : Info → E → E × Bool
  pub shutdown : E → E × Bool

-- What the methods read of the configuration and of the model runner.
pub record Config : Type 0 where
  pub has_draft_model : Bool
  pub has_draft_model_config : Bool
  pub data_parallel_index : ℕ
  pub world_size : ℕ
  pub rank : ℕ

pub record Worker (E : Type 0) : Type 0 where
  pub weight_transfer_engine : Option E
  pub weight_update_active : Bool
  pub weight_update_is_draft : Bool
  -- the calls of `model_runner.reset_lora_state` so far
  pub lora_resets : ℕ

-- `engine_raised` is whatever the engine raises, `index_error` a list shorter than the ranks.
pub data Error : Type 0 where
  not_configured draft_unsupported already_active no_draft_model no_draft_config : Error
  start_required not_matching release_refused index_error engine_raised : Error

pub data UpdateInfo (Info : Type 0) : Type 0 where
  one : Info → UpdateInfo Info
  per_rank : List Info → UpdateInfo Info

-- The methods that the trainer calls; `start_call true` is `start_draft_weight_update`.
pub data Call (Info : Type 0) : Type 0 where
  start_call : Bool → Call Info
  update_call : UpdateInfo Info → Call Info
  finish_call shutdown_call : Call Info
  init_call : Info → Call Info

abbrev pub raised : Bool → Option Error
raised b = if b then some engine_raised else none

module _ {E Info : Type 0} (engine : WeightTransferEngine E Info) (cfg : Config) where
  -- `__init__`, with the engine that `load_model` makes
  abbrev pub new_worker : Option E → Worker E
  new_worker e = record {
    weight_transfer_engine = e;
    weight_update_active = false;
    weight_update_is_draft = false;
    lora_resets = 0;
  }

  abbrev pub supports_draft_weight_updates : Worker E → Bool
  supports_draft_weight_updates w = elim w.weight_transfer_engine [
    | none ↦ false
    | some _ ↦
        engine.supports_draft_weight_update && cfg.has_draft_model && cfg.has_draft_model_config
  ]

  unfoldable pub set_draft_weight_update_target : E → E × Option Error
  set_draft_weight_update_target e =
      if not cfg.has_draft_model
      then (e, some no_draft_model)
      else if not cfg.has_draft_model_config
      then (e, some no_draft_config)
      else (let (e', r) = engine.set_weight_update_target e in (e', raised r))

  -- the body of the `try` statement
  unfoldable pub prepare : Bool → E → E × Option Error
  unfolding set_draft_weight_update_target
  prepare is_draft e =
      let (e', err) = if is_draft then set_draft_weight_update_target e else (e, none) in
      elim err [
        | some x ↦ (e', some x)
        | none ↦ let (e'', r) = engine.start_weight_update e' in (e'', raised r)
      ]

  unfoldable pub start_with : Bool → Worker E → E → Worker E × Option Error
  unfolding prepare
  start_with is_draft w e =
      if is_draft && not engine.supports_draft_weight_update
      then (w, some draft_unsupported)
      else if w.weight_update_active
      then (w, some already_active)
      else (let (e', err) = prepare is_draft e in
          elim err [
            | some x ↦ (
              record w { weight_transfer_engine = some (engine.reset_weight_update_target e') },
              some x,
            )
            | none ↦ (
              record w {
                weight_transfer_engine = some e';
                weight_update_active = true;
                weight_update_is_draft = is_draft;
              },
              none,
            )
          ])

  -- `_start_weight_update`
  unfoldable pub start : Bool → Worker E → Worker E × Option Error
  unfolding start_with
  start is_draft w = elim w.weight_transfer_engine [
    | none ↦ (w, some not_configured)
    | some e ↦ start_with is_draft w e
  ]

  -- the entry of this worker, by its rank across the data parallel replicas
  unfoldable pub local_update_info : UpdateInfo Info → Option Info
  local_update_info (one i) = some i
  local_update_info (per_rank is) =
      get_elem? is (cfg.data_parallel_index * cfg.world_size + cfg.rank)

  unfoldable pub send_chunk : Option Info → E → E × Option Error
  send_chunk none e = (e, some index_error)
  send_chunk (some i) e = let (e', r) = engine.update_weights i e in (e', raised r)

  unfoldable pub receive_chunk : UpdateInfo Info → E → E × Option Error
  unfolding local_update_info send_chunk
  receive_chunk info e = send_chunk (local_update_info info) e

  unfoldable pub update_with : UpdateInfo Info → Worker E → E → Worker E × Option Error
  unfolding receive_chunk
  update_with info w e =
      if not w.weight_update_active
      then (w, some start_required)
      else (let (e', err) = receive_chunk info e in
          elim err [
            | some x ↦ (
              record w {
                weight_transfer_engine = some (engine.reset_weight_update_target e');
                weight_update_active = false;
              },
              some x,
            )
            | none ↦ (record w { weight_transfer_engine = some e' }, none)
          ])

  unfoldable pub update : UpdateInfo Info → Worker E → Worker E × Option Error
  unfolding update_with
  update info w = elim w.weight_transfer_engine [
    | none ↦ (w, some not_configured)
    | some e ↦ update_with info w e
  ]

  unfoldable pub finish_with : Worker E → E → Worker E × Option Error
  finish_with w e =
      if not w.weight_update_active
      then (w, some not_matching)
      else (let (e', r) = engine.finish_weight_update e in
          if r then (record w { weight_transfer_engine = some e' }, some engine_raised) else (
            record w {
              weight_transfer_engine = some (engine.reset_weight_update_target e');
              weight_update_active = false;
              lora_resets =
                  if not w.weight_update_is_draft then suc w.lora_resets else w.lora_resets;
            },
            none,
          ))

  unfoldable pub finish : Worker E → Worker E × Option Error
  unfolding finish_with
  finish w = elim w.weight_transfer_engine [
    | none ↦ (w, some not_configured)
    | some e ↦ finish_with w e
  ]

  unfoldable pub init_engine : Info → Worker E → Worker E × Option Error
  init_engine i w = elim w.weight_transfer_engine [
    | none ↦ (w, some not_configured)
    | some e ↦
        let (e', r) = engine.parse_init_info i e in
        if r
        then (record w { weight_transfer_engine = some e' }, some engine_raised)
        else (let (e'', q) = engine.init_transfer_engine i e' in
            (record w { weight_transfer_engine = some e'' }, raised q))
  ]

  unfoldable pub shutdown_engine : Worker E → Worker E × Option Error
  shutdown_engine w =
      if w.weight_update_active then (w, some release_refused) else elim w.weight_transfer_engine [
        | none ↦ (w, none)
        | some e ↦
            let (e', r) = engine.shutdown e in
            (record w { weight_transfer_engine = some e' }, raised r)
      ]

  unfoldable pub step : Call Info → Worker E → Worker E × Option Error
  step (start_call is_draft) w = start is_draft w
  step (update_call info) w = update info w
  step finish_call w = finish w
  step shutdown_call w = shutdown_engine w
  step (init_call i) w = init_engine i w

  -- The calls one after another, with what each of them raised.
  unfoldable pub run : List (Call Info) → Worker E → Worker E × List (Option Error)
  run [] w = (w, [])
  run (c ∷ cs) w = let (w', err) = step c w in let (w'', errs) = run cs w' in (w'', err ∷ errs)
