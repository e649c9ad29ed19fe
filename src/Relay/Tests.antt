-- ===== src/Relay/Tests.antt =====
-- Runs of the relay at concrete inputs.
use glm53flash_pp.Base.{
  ℕ, zero, suc, get_elem?, ◌≡◌, refl, List, [], ◌∷◌, Option, none, some, true, false, ℤ, pos,
  minus_one, arith, length, take, drop, map, All,
}
use glm53flash_pp.Relay.{
  Row, Delivered, PpHandler, Outputs, Command, int64, int32, need_sampled, init,
}
use glm53flash_pp.Relay.Wire.{Received, Sampled, receive, pad_tokens}
use glm53flash_pp.Relay.Turn.{Turn, run, scatter_drafts}
use glm53flash_pp.Relay.Scatter.{scatter_drafts_live}
use glm53flash_pp.Relay.Mask.{expected}
use glm53flash_pp.Relay.Total.{IsValid, Keeps}
use glm53flash_pp.Relay.Running.{init-IsValid, run-total}
use glm53flash_pp.Relay.Padding.{pad_tokens-take}
use glm53flash_pp.Relay.Matching.{collectives-match, last_rank_step, collectives}
use glm53flash_pp.Relay.Delay.{Relayed, relay-Relayed}

-- Four request slots, two speculative steps, drafts relayed, two pipeline ranks.
abbrev first_rank : PpHandler
unfolding init
first_rank = init 4 2 true false 2

abbrev last_rank : PpHandler
unfolding init
last_rank = init 4 2 true true 2

-- A request that decodes, one that will be freed, and one in the middle of its prefill.
abbrev rows : List Row
rows =
    record { slot = 0; num_computed = 8; num_scheduled = 3; prefill_len = 5; max_seq_len = 100 }
    ∷ record { slot = 1; num_computed = 9; num_scheduled = 1; prefill_len = 9; max_seq_len = 100 }
    ∷ record { slot = 2; num_computed = 0; num_scheduled = 4; prefill_len = 9; max_seq_len = 100 }
    ∷ []

abbrev delivered : Delivered
delivered = record {
  sampled_tokens = (pos 7 ∷ pos 8 ∷ []) ∷ (pos 9 ∷ []) ∷ [] ∷ [];
  num_sampled = 2 ∷ 1 ∷ 0 ∷ [];
  num_rejected = 1 ∷ 0 ∷ 0 ∷ [];
  draft_tokens = (pos 1 ∷ []) ∷ (pos 2 ∷ []) ∷ (pos 3 ∷ []) ∷ [];
}

abbrev receiving : Turn
receiving = record { freed = []; batch = some (rows, delivered) }

abbrev freeing : Turn
freeing = record { freed = 1 ∷ []; batch = none }

abbrev idle : Turn
idle = record { freed = []; batch = none }

abbrev sampled : Sampled
sampled = record {
  width = 1;
  tokens = (pos 7 ∷ []) ∷ (pos 9 ∷ []) ∷ (pos 4 ∷ []) ∷ [];
  num_sampled = 1 ∷ 1 ∷ 0 ∷ [];
  num_rejected = 0 ∷ 0 ∷ 0 ∷ [];
  token_dtype = int64;
  sampled_dtype = int32;
  rejected_dtype = int32;
}

abbrev drafts : Option (ℕ × List (List ℤ))
drafts = some (2, (pos 1 ∷ []) ∷ (pos 2 ∷ []) ∷ (pos 3 ∷ []) ∷ [])

expected_runs :
    expected first_rank (freeing ∷ []) rows delivered
    ≡ some (record {
      wait_event = 0;
      sampled_tokens = delivered.sampled_tokens;
      num_sampled = delivered.num_sampled;
      num_rejected = delivered.num_rejected;
      idx_mapping = pos 0 ∷ minus_one ∷ minus_one ∷ [];
      draft_tokens = some delivered.draft_tokens;
    })
unfolding init need_sampled
expected_runs = refl

first_rank-IsValid : IsValid first_rank × (length first_rank.queue ≡ 2)
unfolding init
first_rank-IsValid = init-IsValid 4 2 2 true (omega arith)

relay-Relayed_example :
    Relayed first_rank receiving idle
      (freeing ∷ [])
      (expected first_rank (freeing ∷ []) rows delivered)
unfolding init need_sampled
relay-Relayed_example =
    relay-Relayed first_rank receiving idle (freeing ∷ []) rows delivered first_rank-IsValid.0
      (omega arith) refl (λ i. ground arith) refl refl

pad_tokens-take_example :
    (tokens : List (List ℤ)) × (pad_tokens 3 sampled ≡ some tokens)
    × All (λ r. length r ≡ 3) tokens
    × (map (take 1) tokens ≡ sampled.tokens)
    × All (λ r. drop 1 r ≡ minus_one ∷ minus_one ∷ []) tokens
pad_tokens-take_example = pad_tokens-take 3 sampled (omega arith) (omega arith)

collectives-match_example :
    (cs : List Command) × (r : Received) × (last_rank_step last_rank sampled drafts rows ≡ some cs)
    × (receive first_rank rows delivered ≡ some r)
    × (collectives cs ≡ collectives r.commands)
unfolding init
collectives-match_example =
    collectives-match last_rank first_rank sampled drafts rows delivered refl first_rank-IsValid.0
      (omega arith) (refl, refl)
      (record {
        narrow = omega arith;
        rows_sampled = refl;
        counts = refl;
        rejections = refl;
        tokens_int64 = refl;
        counts_int32 = (refl, refl);
      })
      (refl, refl, refl)

run-total_example :
    (outs : List (Option Outputs)) × (h' : PpHandler) × (run first_rank
        (receiving ∷ freeing ∷ idle ∷ [])
      ≡ some (outs, h'))
    × Keeps first_rank h'
unfolding init
run-total_example =
    run-total first_rank (receiving ∷ freeing ∷ idle ∷ []) first_rank-IsValid.0 (omega arith)

-- The second request was freed; the others are in slots 2 and 0.
abbrev relayed_mapping : List ℤ
relayed_mapping = pos 2 ∷ minus_one ∷ pos 0 ∷ []

abbrev relayed_drafts : List (List ℤ)
relayed_drafts = (pos 1 ∷ []) ∷ (pos 2 ∷ []) ∷ (pos 3 ∷ []) ∷ []

abbrev draft_table : List (List ℤ)
draft_table = (pos 91 ∷ []) ∷ (pos 92 ∷ []) ∷ (pos 93 ∷ []) ∷ []

only_third : (k : ℕ) → get_elem? relayed_mapping k ≡ some (pos 0) → k ≡ 2
only_third zero e = absurd cc
only_third (suc zero) e = absurd cc
only_third (suc (suc zero)) e = refl
only_third (suc (suc (suc k))) e = absurd cc

scatter_drafts_live_example :
    get_elem? (scatter_drafts draft_table relayed_mapping relayed_drafts) 0 ≡ some (pos 3 ∷ [])
scatter_drafts_live_example =
    scatter_drafts_live draft_table relayed_mapping relayed_drafts 2 0 (omega arith) refl refl
      only_third
