-- ===== src/Relay/Turn.antt =====
-- vllm/v1/worker/gpu/model_runner.py: how a rank that is not the last drives the relay in one
-- step. `execute_model` consumes the entry of an earlier step, then frees the finished requests;
-- `sample_tokens` posts this step's receive, unless nothing was scheduled.
use glm53flash_pp.Base.{ℕ, List, [], ◌∷◌, Option, none, some, ◌>>=◌, ℤ, pos, negsuc, set}
use glm53flash_pp.Relay.{
  Row, Delivered, PpHandler, Outputs, on_req_idx_freed, get_prev_sampled_outputs,
}
use glm53flash_pp.Relay.Wire.{receive}

pub record Turn : Type 0 where
  pub freed : List ℕ
  pub batch : Option (List Row × Delivered)

-- The calls of `on_req_idx_freed` that `finish_requests` and `add_requests` make.
unfoldable pub free_all : PpHandler → List ℕ → Option PpHandler
free_all h [] = some h
free_all h (i ∷ is) = do h' ← on_req_idx_freed h i; free_all h' is

unfoldable pub receive_batch : PpHandler → Option (List Row × Delivered) → Option PpHandler
receive_batch h none = some h
receive_batch h (some (rows, d)) = do r ← receive h rows d; some r.handler

unfoldable pub turn : PpHandler → Turn → Option (Option Outputs × PpHandler)
turn h t = do
  (out, h₁) ← get_prev_sampled_outputs h
  h₂ ← free_all h₁ t.freed
  h₃ ← receive_batch h₂ t.batch
  some (out, h₃)

unfoldable pub run : PpHandler → List Turn → Option (List (Option Outputs) × PpHandler)
run h [] = some ([], h)
run h (t ∷ ts) = do (out, h') ← turn h t; (outs, h'') ← run h' ts; some (out ∷ outs, h'')

-- `draft_tokens[idx_mapping[valid]] = draft[valid]` of `update_pp_decode_requests`, row by row.
unfoldable pub scatter_drafts : List (List ℤ) → List ℤ → List (List ℤ) → List (List ℤ)
scatter_drafts table (pos i ∷ is) (row ∷ rows) = scatter_drafts (set table i row) is rows
scatter_drafts table (negsuc _ ∷ is) (row ∷ rows) = scatter_drafts table is rows
scatter_drafts table _ _ = table
