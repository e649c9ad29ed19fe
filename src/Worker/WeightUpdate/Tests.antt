-- ===== src/Worker/WeightUpdate/Tests.antt =====
-- Runs and witnesses for the weight update sessions of `Worker`.
use glm53flash_pp.Base.{ℕ, List, [], ◌∷◌, none, some, true, false, ◌==◌, ◌≡◌, refl}
use glm53flash_pp.Worker.WeightUpdate.{
  Target, main, draft, WeightTransferEngine, Config, Worker, one, per_rank, Call, start_call,
  update_call, finish_call, start, update, finish, step, run, new_worker, already_active,
  no_draft_model, start_required, index_error,
}
use glm53flash_pp.Worker.WeightUpdate.Session.{view, replay, replay-run}
use glm53flash_pp.Worker.WeightUpdate.Aim.{Targeting, IsAimed, run_of_new-IsAimed}
use glm53flash_pp.Worker.WeightUpdate.Recovery.{with_reset, step_refused, run_recovers}

-- An engine that logs the chunks it has loaded into each model, and raises on the chunk 0.
abbrev pub Engine : Type 0
Engine = Target × List (Target × ℕ)

abbrev pub engine : WeightTransferEngine Engine ℕ
engine = record {
  supports_draft_weight_update = true;
  set_weight_update_target = λ (_, log). ((draft, log), false);
  reset_weight_update_target = λ (_, log). (main, log);
  start_weight_update = λ e. (e, false);
  update_weights = λ i (t, log). ((t, (t, i) ∷ log), i == 0);
  finish_weight_update = λ e. (e, false);
  parse_init_info = λ i e. (e, i == 0);
  init_transfer_engine = λ i e. (e, false);
  shutdown = λ (t, _). ((t, []), false);
}

abbrev pub cfg : Config
cfg = record {
  has_draft_model = true;
  has_draft_model_config = true;
  data_parallel_index = 1;
  world_size = 2;
  rank = 0;
}

abbrev pub fresh : Worker Engine
fresh = new_worker engine cfg (some (main, []))

-- the list holds the chunks of the ranks 0 to 2; this worker is the rank 2
abbrev pub calls : List (Call ℕ)
calls =
    start_call true
    ∷ start_call false
    ∷ update_call (per_rank (5 ∷ 6 ∷ 7 ∷ []))
    ∷ finish_call
    ∷ start_call false
    ∷ update_call (one 8)
    ∷ finish_call
    ∷ start_call true
    ∷ update_call (per_rank (9 ∷ []))
    ∷ update_call (one 3)
    ∷ []

run_of_calls : run engine cfg calls fresh ≡ (
  record {
    weight_transfer_engine = some (main, (main, 8) ∷ (draft, 7) ∷ []);
    weight_update_active = false;
    weight_update_is_draft = true;
    lora_resets = 1;
  },
  none
      ∷ some already_active
      ∷ none
      ∷ none
      ∷ none
      ∷ none
      ∷ none
      ∷ none
      ∷ some index_error
      ∷ some start_required
      ∷ [],
)
unfolding run step start update finish
run_of_calls = refl

replay-run_example :
    let (w', errs) = run engine cfg calls fresh in replay calls errs (view fresh) ≡ some (view w')
replay-run_example = replay-run engine cfg calls fresh

engine-Targeting : Targeting engine (λ e. e.0)
engine-Targeting = record {
  aim_set = λ e h. refl;
  aim_reset = λ e. refl;
  aim_start = λ e. refl;
  aim_update = λ i e. refl;
  aim_finish = λ e. refl;
  aim_parse = λ i e. refl;
  aim_init = λ i e. refl;
  aim_shutdown = λ e. refl;
}

run_of_new-IsAimed_example : IsAimed {E = Engine} (λ e. e.0) (run engine cfg calls fresh).0
run_of_new-IsAimed_example =
    run_of_new-IsAimed engine cfg (λ e. e.0) engine-Targeting calls (main, []) refl

abbrev pub loading : Worker Engine
loading = (run engine cfg (start_call true ∷ update_call (one 4) ∷ []) fresh).0

-- A worker without a draft model, whose engine aims at the main model.
abbrev pub undrafted : Config
undrafted = record cfg { has_draft_model = false }

step_refused_example :
    (step engine undrafted (start_call true) fresh).0 ≡ with_reset engine undrafted fresh
unfolding step start
step_refused_example =
    step_refused engine undrafted (start_call true) fresh {x = no_draft_model} refl refl

active_refused : (step engine cfg (start_call false) loading) ≡ (loading, some already_active)
unfolding run step start update
active_refused = refl

run_recovers_example :
    let w' = (run engine cfg calls fresh).0 in
    let (w'', err) = start engine cfg false (finish engine cfg w').0 in
    (err ≡ none) × (w''.weight_update_active ≡ true) × (w''.weight_update_is_draft ≡ false)
run_recovers_example = run_recovers engine cfg calls fresh (λ h. cc h) (λ e. refl) (λ e. refl)
