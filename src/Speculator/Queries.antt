-- ===== src/Speculator/Queries.antt =====
-- vllm/v1/worker/gpu/spec_decode/autoregressive/speculator.py: the rows that the programs of
-- `_prepare_prefill_inputs_kernel` write and leave.
use glm53flash_pp.Base.{
  ℕ, ◌+◌, ◌-◌, ◌≤◌, ◌<◌, ◌≡◌, subst, ◌∙◌, inl, inr, refl, arith, ltb, ◌==◌, if◌then◌else◌,
  Bool-cases,
}
use native.Mathlib.Decide.{dec_lt}
use glm53flash_pp.Speculator.{
  Tensor, Target, Buffers, store_range, query_len, next_token, prefill_request, pad_prefill,
  prefill_program, prepare_prefill_inputs,
}
use glm53flash_pp.Speculator.Lanes.{
  store_self, store_other, store_range-inside, store_range-outside, range_inside, range_outside,
  launch_induction,
}

-- The requests of a batch: their queries follow one another, and one at least is not rejected.
pub record IsBatch (t : Target) : Type 0 where
  pub block : 0 < t.block_size
  pub ordered : (r s : ℕ) → r ≤ s → s ≤ t.num_reqs → t.query_start_loc r ≤ t.query_start_loc s
  pub accepts :
      (r : ℕ) → r < t.num_reqs → t.query_start_loc r + t.num_rejected r < t.query_start_loc (r + 1)
  pub fits : t.num_reqs ≤ t.max_num_reqs

-- The same for query `j` of the request, as the kernel computes it.
abbrev pub QueryRow : Target → ℕ → ℕ → Buffers → Type 0
QueryRow t r j b =
    let start = t.query_start_loc r in
    (b.input_ids (start + j)
      ≡ (if ltb (j + 1) (query_len t r) then t.input_ids (start + j + 1) else next_token t r))
    × (b.positions (start + j) ≡ t.positions (start + j))
    × (b.last_token_indices r ≡ start + query_len t r - 1)
    × (b.query_start_loc r ≡ start)
    × (b.seq_lens r ≡ t.seq_lens r)

module _ (t : Target) (ok : IsBatch t) where
  abbrev shifted : Buffers → ℕ → Tensor
  shifted b r =
      store_range t.block_size 1 (t.query_start_loc r + 1) (query_len t r - 1) t.input_ids
        b.input_ids

  own_input :
      (b : Buffers) (r j : ℕ)
      → j < query_len t r
      → (prefill_request t b r).input_ids (t.query_start_loc r + j) ≡ (
          if ltb (j + 1) (query_len t r)
          then t.input_ids (t.query_start_loc r + j + 1)
          else next_token t r)
  unfolding prefill_request
  own_input b r j h = elim (Bool-cases (ltb (j + 1) (query_len t r))) [
    | inl more ↦
        let start = t.query_start_loc r in
        let len = query_len t r in
        let inside : j + 1 < len = ground arith in
        rw more (
          store_other (start + len - 1) (start + j) (next_token t r) (shifted b r) (omega arith)
          ∙ store_range-inside t.block_size 1 (start + 1) (len - 1) t.input_ids b.input_ids
              (start + j) ok.block (omega arith) (omega arith))
    | inr last ↦
        let start = t.query_start_loc r in
        let len = query_len t r in
        let ends : len ≤ j + 1 = ground arith in
        rw last
          (store_self (start + len - 1) (start + j) (next_token t r) (shifted b r) (omega arith))
  ]

  own_query : (b : Buffers) (r j : ℕ) → j < query_len t r → QueryRow t r j (prefill_request t b r)
  unfolding prefill_request
  own_query b r j h = (
    own_input b r j h,
    range_inside t.block_size (t.query_start_loc r) (query_len t r) t.positions b.positions
        (t.query_start_loc r + j) ok.block (omega arith) (omega arith),
    store_self r r _ b.last_token_indices refl,
    store_self r r _ b.query_start_loc refl,
    store_self r r _ b.seq_lens refl,
  )

  -- the queries of two requests are apart
  apart :
      (r s j : ℕ)
      → r < s
      → s < t.num_reqs
      → j < query_len t r
      → t.query_start_loc r + j < t.query_start_loc s
  apart r s j h l q = omega (arith, ok.ordered (r + 1) s (omega arith) (omega arith))

  other_query :
      (b : Buffers) (r s j : ℕ)
      → r < s
      → s < t.num_reqs
      → j < query_len t r
      → QueryRow t r j b
      → QueryRow t r j (prefill_request t b s)
  unfolding prefill_request
  other_query b r s j h l q (i, p, la, st, se) =
      let start = t.query_start_loc s in
      let len = query_len t s in
      let before = apart r s j h l q in
      let some_left = ok.accepts s l in
      (
        store_other (start + len - 1) (t.query_start_loc r + j) (next_token t s) (shifted b s)
              (omega arith)
            ∙ store_range-outside t.block_size 1 (start + 1) (len - 1) t.input_ids b.input_ids
                (t.query_start_loc r + j) ok.block (inl (omega arith))
            ∙ i,
        range_outside t.block_size start len t.positions b.positions (t.query_start_loc r + j)
              ok.block (inl before)
            ∙ p,
        store_other s r _ b.last_token_indices (omega arith) ∙ la,
        store_other s r _ b.query_start_loc (omega arith) ∙ st,
        store_other s r _ b.seq_lens (omega arith) ∙ se,
      )

  padded_query :
      (b : Buffers) (r j : ℕ) → r < t.num_reqs → QueryRow t r j b → QueryRow t r j (pad_prefill t b)
  unfolding pad_prefill
  padded_query b r j h (i, p, la, st, se) = (
    i,
    p,
    range_outside t.block_size t.num_reqs (t.max_num_reqs - t.num_reqs) (λ x. 0)
          b.last_token_indices r ok.block (inl (omega arith))
        ∙ la,
    range_outside t.block_size t.num_reqs (t.max_num_reqs + 1 - t.num_reqs)
          (λ x. t.query_start_loc t.num_reqs) b.query_start_loc r ok.block (inl (omega arith))
        ∙ st,
    range_outside t.block_size t.num_reqs (t.max_num_reqs - t.num_reqs) (λ x. 0) b.seq_lens r
          ok.block (inl (omega arith))
        ∙ se,
  )

  program_query :
      (b : Buffers) (r s j : ℕ)
      → r < t.num_reqs
      → QueryRow t r j (prefill_request t b s)
      → QueryRow t r j (prefill_program t b s)
  unfolding prefill_program
  program_query b r s j h q = elim (Bool-cases (s == t.num_reqs - 1)) [
    | inl e ↦ rw e (padded_query (prefill_request t b s) r j h q)
    | inr e ↦ rw e q
  ]

  -- The draft inputs of a query after the launch.
  pub query_prepared :
      (b : Buffers) (r j : ℕ)
      → r < t.num_reqs
      → j < query_len t r
      → QueryRow t r j (prepare_prefill_inputs t b)
  unfolding prepare_prefill_inputs
  query_prepared b r j h q =
      launch_induction (λ n c. r < n → QueryRow t r j c) (prefill_program t) t.num_reqs b
        (λ l. absurd (elim l [ ]))
        (λ k c l ih m. program_query c r k j h (elim (dec_lt r k) [
          | yes y ↦ other_query c r k j y l q (ih y)
          | no n ↦
              let e : r ≡ k = omega arith in
              subst (λ x. QueryRow t r j (prefill_request t c x)) e (own_query c r j q)
        ]))
        h
