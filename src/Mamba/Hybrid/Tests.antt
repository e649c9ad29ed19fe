-- ===== src/Mamba/Hybrid/Tests.antt =====
-- Runs and witnesses for the recurrent state of the runner: blocks of 4 tokens.
use glm53flash_pp.Base.{
  ℕ, ◌<◌, ◌≡◌, refl, arith, List, [], ◌∷◌, ◌++◌, get_elem?, get_or, ltb, none, some, if◌then◌else◌,
  pos, minus_one,
}
use glm53flash_pp.Mamba.{preprocess_align, last_block}
use glm53flash_pp.Mamba.Hybrid.{
  fresh, Row, align_row, align_rows, preprocess_state, accepted_rows, decode_draft_tokens, for_each,
  Event, added, before_forward, sampled, run,
}
use glm53flash_pp.Mamba.Hybrid.Tracks.{crosses, crossing, run-crossing}

abbrev counts : ℕ → ℕ
counts i = get_or (0 ∷ 7 ∷ 0 ∷ 3 ∷ []) i 0

abbrev pub row : ℕ → ℕ → Row
row i q = record { slot = i; query_len = q }

-- Slots 1 and 3 are added, run, and accept 2 and 1 tokens; a filtered row follows.
abbrev pub events : List Event
events =
    added 1 4
    ∷ added 3 0
    ∷ before_forward (λ i. if ltb i 2 then 4 else 0) (row 1 3 ∷ row 3 3 ∷ [])
    ∷ sampled (pos 1 ∷ pos 3 ∷ minus_one ∷ []) (for_each (2 ∷ 0 ∷ 5 ∷ [])) none
    ∷ []

columns_run : (run 4 events fresh).state_idx 1 ≡ pos 1
unfolding run align_rows align_row preprocess_align
columns_run = refl

accepted_run : accepted_rows (run 4 events fresh) (3 ∷ 1 ∷ []) 4 ≡ 1 ∷ 2 ∷ 1 ∷ 1 ∷ []
unfolding run
accepted_run = refl

drafts_run :
    decode_draft_tokens 4 3 ∷ decode_draft_tokens 9 3 ∷ decode_draft_tokens 1 0 ∷ []
    ≡ pos 3 ∷ minus_one ∷ minus_one ∷ []
drafts_run = refl

run-crossing_example :
    let s = run 4 events fresh in
    let (s', copies) = preprocess_state 4 counts (row 3 1 ∷ [] ++ row 1 3 ∷ []) s in
    (s.state_idx 1 ≡ last_block 4 7)
    × (0 < s.num_accepted 1)
    × (get_elem? copies 1 ≡ some (crossing 4 7 10 (s.num_accepted 1)))
    × (s'.num_accepted 1 ≡ (if crosses 4 7 10 then 1 else s.num_accepted 1))
run-crossing_example =
    run-crossing 4 events counts (row 3 1 ∷ []) [] (row 1 3) 7 (omega arith) (omega arith)
      ((λ e. absurd (omega arith)), tt) tt refl
