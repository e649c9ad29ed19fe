-- ===== src/Mamba/Columns.antt =====
-- The dictionary after a step, request by request.
use glm53flash_pp.Base.{
  ℕ, suc, ◌+◌, ◌≡◌, refl, ◌∙◌, ap, List, [], ◌∷◌, Option, none, some, Bool, true, false, ◌||◌,
  arith, ℤ, sub_ℕ, ◌==◌, if◌then◌else◌, length, Bool-cases, inl, inr,
}
use glm53flash_pp.Memcpy.{cdiv}
use glm53flash_pp.Mamba.{preprocess_request}
use glm53flash_pp.Mamba.Dict.{
  Dict, Departed, lookup, insert, cleanup_mamba_state_idx, mem, lookup-insert, lookup-cleanup,
}
use glm53flash_pp.Mamba.Batch.{
  Request, preprocess_loop, preprocess_mamba, Staged, stage_postprocess_inputs, requests_of,
}

-- The block column of a request's last token, counting what is scheduled.
abbrev pub running_column : ℕ → Request → ℤ
running_column block_size r = sub_ℕ (cdiv (r.num_computed + r.num_scheduled) block_size) 1

-- The entry of `j` once the requests of the batch are entered in order.
abbrev pub columns : ℕ → ℕ → List Request → Option ℤ → Option ℤ
columns block_size j [] old = old
columns block_size j (r ∷ rs) old =
    columns block_size j rs (if r.req_id == j then some (running_column block_size r) else old)

state_idx-request :
    (bs spec : ℕ) (known : Option ℤ) (computed scheduled accepted : ℕ)
    → (preprocess_request bs spec known computed scheduled accepted).state_idx
      ≡ sub_ℕ (cdiv (computed + scheduled) bs) 1
unfolding preprocess_request
state_idx-request bs spec known computed scheduled accepted = ground arith

lookup-preprocess_loop :
    (bs spec : ℕ) (d : Dict) (rs : List Request) (j : ℕ)
    → lookup j (preprocess_loop bs spec d rs).state_idx ≡ columns bs j rs (lookup j d)
unfolding preprocess_loop
lookup-preprocess_loop bs spec d [] j = refl
lookup-preprocess_loop bs spec d (r ∷ rs) j =
    let s =
      preprocess_request bs spec (lookup r.req_id d) r.num_computed r.num_scheduled
        r.num_accepted in
    let now =
      state_idx-request bs spec (lookup r.req_id d) r.num_computed r.num_scheduled r.num_accepted in
    lookup-preprocess_loop bs spec (insert r.req_id s.state_idx d) rs j
    ∙ ap (columns bs j rs) (
        lookup-insert r.req_id j s.state_idx d
        ∙ ap (λ k. if r.req_id == j then some k else lookup j d) now)

-- After `preprocess_mamba` the dictionary holds, for each request of the batch, the block column of
-- its last token, whatever it held before; a departed request that is not in the batch has no
-- entry, and every other entry is as it was.
pub lookup-preprocess_mamba :
    (block_size spec : ℕ) (s : Departed) (d : Dict) (rs : List Request) (j : ℕ)
    → lookup j (preprocess_mamba block_size spec s d rs).state_idx
      ≡ columns block_size j rs
          (if mem j s.finished || (mem j s.preempted || mem j s.resumed) then none else lookup j d)
unfolding preprocess_mamba
lookup-preprocess_mamba bs spec s d rs j =
    lookup-preprocess_loop bs spec (cleanup_mamba_state_idx s d) rs j
    ∙ ap (columns bs j rs) (lookup-cleanup s j d)

columns-some :
    (bs j : ℕ) (rs : List Request) (i : ℤ) → (i' : ℤ) × (columns bs j rs (some i) ≡ some i')
columns-some bs j [] i = (i, refl)
columns-some bs j (r ∷ rs) i = elim (Bool-cases (r.req_id == j)) [
  | inl hit ↦ rw hit (columns-some bs j rs (running_column bs r))
  | inr miss ↦ rw miss (columns-some bs j rs i)
]

abbrev id_in : ℕ → List Request → Bool
id_in j [] = false
id_in j (r ∷ rs) = (r.req_id == j) || id_in j rs

columns_in :
    (bs j : ℕ) (rs : List Request) (old : Option ℤ)
    → id_in j rs ≡ true
    → (i : ℤ) × (columns bs j rs old ≡ some i)
columns_in bs j [] old h = absurd (ground arith)
columns_in bs j (r ∷ rs) old h = elim (Bool-cases (r.req_id == j)) [
  | inl hit ↦ rw hit (columns-some bs j rs (running_column bs r))
  | inr miss ↦ rw miss (columns_in bs j rs old (ground arith))
]

stage-entered :
    (d : Dict) (rs all_rs : List (Request × ℕ))
    → ((j : ℕ) → id_in j (requests_of rs) ≡ true → id_in j (requests_of all_rs) ≡ true)
    → ((j : ℕ) → id_in j (requests_of all_rs) ≡ true → (i : ℤ) × (lookup j d ≡ some i))
    → (staged : List Staged) × (stage_postprocess_inputs d rs ≡ some staged)
      × (length staged ≡ length rs)
unfolding stage_postprocess_inputs
stage-entered d [] all_rs sub h = ([], refl, refl)
stage-entered d ((r, n) ∷ rs) all_rs sub h =
    let (i, e) = h r.req_id (sub r.req_id (ground arith)) in
    let (rest, e', l) = stage-entered d rs all_rs (λ j g. sub j (ground arith)) h in
    (
      record {
        state_idx = i;
        num_scheduled = r.num_scheduled;
        num_computed = r.num_computed;
        num_draft = n;
      }
          ∷ rest,
      rw (e, e'),
      ap suc l,
    )

-- The assertion of `stage_postprocess_inputs_to_gpu` holds whenever `preprocess_mamba` ran first
-- for the same batch: every row is staged.
pub stage-preprocess_mamba :
    (block_size spec : ℕ) (s : Departed) (d : Dict) (rs : List (Request × ℕ))
    → (staged : List Staged) × (stage_postprocess_inputs
          (preprocess_mamba block_size spec s d (requests_of rs)).state_idx
          rs
        ≡ some staged)
      × (length staged ≡ length rs)
stage-preprocess_mamba bs spec s d rs =
    stage-entered (preprocess_mamba bs spec s d (requests_of rs)).state_idx rs rs (λ j h. h)
      (λ j h.
        let old =
          if mem j s.finished || (mem j s.preempted || mem j s.resumed) then none else lookup j d in
        let (i, e) = columns_in bs j (requests_of rs) old h in
        (i, lookup-preprocess_mamba bs spec s d (requests_of rs) j ∙ e))
