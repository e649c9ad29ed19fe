-- ===== src/Relay/Freed.antt =====
-- The generation counters of `on_req_idx_freed`: how many frees a slot sees over a run of steps.
use glm53flash_pp.Base.{
  ℕ, ◌+◌, ◌%◌, ◌^◌, ◌<◌, ◌≡◌, inl, inr, List, [], ◌∷◌, Option, none, some, arith, ◌==◌,
  if◌then◌else◌, get_elem?, get_elem?-set_self, get_elem?-set_ne, get_elem?-lt, >>=-eq-some,
  Bool-cases,
}
use glm53flash_pp.Relay.{
  Row, Delivered, PendingRecv, PpHandler, Outputs, bump_gen, on_req_idx_freed,
  get_prev_sampled_outputs, consume, consume_slot,
}
use glm53flash_pp.Relay.Wire.{receive, posted}
use glm53flash_pp.Relay.Turn.{Turn, free_all, receive_batch, turn, run}
use glm53flash_pp.Relay.Fifo.{receive-cases}

abbrev pub count : ℕ → List ℕ → ℕ
count i [] = 0
count i (j ∷ js) = (if j == i then 1 else 0) + count i js

-- How often the steps free a slot.
abbrev pub frees : ℕ → List Turn → ℕ
frees i [] = 0
frees i (t ∷ ts) = count i t.freed + frees i ts

-- The counter of a slot after `k` frees.
abbrev pub bumped : ℕ → ℕ → ℕ
bumped k g = (g + k) % 2 ^ 32

-- The counters `gens'` follow `gens` with `k i` frees of each slot `i`.
abbrev pub Follows : (ℕ → ℕ) → List ℕ → List ℕ → Type 0
Follows k gens gens' =
    (i g : ℕ) → get_elem? gens i ≡ some g → g < 2 ^ 32 → get_elem? gens' i ≡ some (bumped (k i) g)

Follows-free :
    (h : PpHandler) (j : ℕ) {h' : PpHandler}
    → on_req_idx_freed h j ≡ some h'
    → Follows (λ i. if j == i then 1 else 0) h.req_idx_gen h'.req_idx_gen
unfolding on_req_idx_freed
Follows-free h j {h'} e i g at lt =
    let (g', e₁, e₂) = >>=-eq-some (get_elem? h.req_idx_gen j) _ e in
    elim (Bool-cases (j == i)) [
      | inl same ↦
          ground (
            arith,
            get_elem?-set_self h.req_idx_gen j (bump_gen g'),
            get_elem?-lt h.req_idx_gen j e₁,
          )
      | inr other ↦ ground (arith, get_elem?-set_ne h.req_idx_gen {i = j} {j = i} (bump_gen g'))
    ]

Follows-trans :
    (k l : ℕ → ℕ) (a b c : List ℕ) → Follows k a b → Follows l b c → Follows (λ i. k i + l i) a c
Follows-trans k l a b c f f' i g at lt = ground (arith, f i g at lt, f' i (bumped (k i) g))

pub Follows-free_all :
    (h : PpHandler) (js : List ℕ) {h' : PpHandler}
    → free_all h js ≡ some h'
    → Follows (λ i. count i js) h.req_idx_gen h'.req_idx_gen
unfolding free_all
Follows-free_all h [] e = λ i g at lt. ground arith
Follows-free_all h (j ∷ js) {h'} e =
    let (h₁, e₁, e₂) = >>=-eq-some (on_req_idx_freed h j) _ e in
    Follows-trans (λ i. if j == i then 1 else 0) (λ i. count i js) h.req_idx_gen h₁.req_idx_gen
      h'.req_idx_gen (Follows-free h j e₁) (Follows-free_all h₁ js e₂)

pub gens-receive_batch :
    (h : PpHandler) (b : Option (List Row × Delivered)) {h' : PpHandler}
    → receive_batch h b ≡ some h'
    → h'.req_idx_gen ≡ h.req_idx_gen
unfolding receive_batch posted
gens-receive_batch h none e = ground arith
gens-receive_batch h (some (rows, d)) e =
    let (r, e₁, e₂) = >>=-eq-some (receive h rows d) _ e in
    elim (receive-cases h rows d e₁) [
      | inl (_, same) ↦ ground arith
      | inr (mask, es, q, _, _, _, same) ↦ ground arith
    ]

pub gens-consume :
    (h : PpHandler) (q : List (Option PendingRecv)) {out : Option Outputs} {h' : PpHandler}
    → consume h q ≡ some (out, h')
    → h'.req_idx_gen ≡ h.req_idx_gen
unfolding consume
gens-consume h [] e = ground arith
gens-consume h (s ∷ q) e =
    let (o, e₁, e₂) = >>=-eq-some (consume_slot h.req_idx_gen s) _ e in ground arith

Follows-turn :
    (h : PpHandler) (t : Turn) {out : Option Outputs} {h' : PpHandler}
    → turn h t ≡ some (out, h')
    → Follows (λ i. count i t.freed) h.req_idx_gen h'.req_idx_gen
unfolding turn get_prev_sampled_outputs
Follows-turn h t {h' = h'} e =
    let ((o, h₁), c₁, k₁) = >>=-eq-some (get_prev_sampled_outputs h) _ e in
    let (h₂, c₂, k₂) = >>=-eq-some (free_all h₁ t.freed) _ k₁ in
    let (h₃, c₃, k₃) = >>=-eq-some (receive_batch h₂ t.batch) _ k₂ in
    let same : h₃ ≡ h' = ground arith in
    let g₁ = gens-consume h h.queue c₁ in
    let g₃ = gens-receive_batch h₂ t.batch c₃ in
    λ i g at lt. ground (arith, Follows-free_all h₁ t.freed c₂ i g)

-- Over any run each counter advances by the number of frees of its slot, and by nothing else.
pub Follows-run :
    (h : PpHandler) (ts : List Turn) {outs : List (Option Outputs)} {h' : PpHandler}
    → run h ts ≡ some (outs, h')
    → Follows (λ i. frees i ts) h.req_idx_gen h'.req_idx_gen
unfolding run
Follows-run h [] e = λ i g at lt. ground arith
Follows-run h (t ∷ ts) {h' = h'} e =
    let ((o, h₁), e₁, k₁) = >>=-eq-some (turn h t) _ e in
    let ((os, h₂), e₂, k₂) = >>=-eq-some (run h₁ ts) _ k₁ in
    let same : h₂ ≡ h' = ground arith in
    Follows-trans (λ i. count i t.freed) (λ i. frees i ts) h.req_idx_gen h₁.req_idx_gen
      h'.req_idx_gen (Follows-turn h t e₁) (λ i g at lt. ground (arith, Follows-run h₁ ts e₂ i g))
