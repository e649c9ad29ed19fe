-- ===== src/Relay/Mask.antt =====
-- What `get_prev_sampled_outputs` makes of an entry, read off the frees since its receive.
use glm53flash_pp.Base.{
  ℕ, ◌<◌, ◌^◌, ◌≡◌, refl, List, [], ◌∷◌, map, Option, none, some, Bool, true, false, not, ◌&&◌,
  arith, ℤ, pos, minus_one, ◌==◌, if◌then◌else◌, get_elem?, any, all, >>=-eq-some,
}
use glm53flash_pp.Relay.{
  Row, Entry, Delivered, PpHandler, Outputs, need_sampled, compute_need_sampled_mask, snapshot,
  exclude_mask, filter_mapping, outputs_of, consume_slot,
}
use glm53flash_pp.Relay.Wire.{pending_recv}
use glm53flash_pp.Relay.Turn.{Turn}
use glm53flash_pp.Relay.Freed.{frees, Follows, bumped}

-- A row's output is still wanted: its request samples, goes on, and was not freed meanwhile.
abbrev pub live : List Turn → Row → Bool
live ts r = need_sampled r && (frees r.slot ts == 0)

abbrev pub live_mapping : List Turn → List Row → List ℤ
live_mapping ts [] = []
live_mapping ts (r ∷ rows) = (if live ts r then pos r.slot else minus_one) ∷ live_mapping ts rows

-- The outputs that the handler `h` owes for the rows that it received, if any row is live.
abbrev pub expected : PpHandler → List Turn → List Row → Delivered → Option Outputs
expected h ts rows d =
    if any (map (live ts) rows)
    then some (record {
      wait_event = h.events;
      sampled_tokens = d.sampled_tokens;
      num_sampled = d.num_sampled;
      num_rejected = d.num_rejected;
      idx_mapping = live_mapping ts rows;
      draft_tokens = if h.relay_draft_tokens then some d.draft_tokens else none;
    })
    else none

-- Counters are 32 bits wide.
abbrev pub AreSmall : List ℕ → Type 0
AreSmall gens = (i g : ℕ) → get_elem? gens i ≡ some g → g < 2 ^ 32

bumped_iff : (k g : ℕ) → g < 2 ^ 32 → k < 2 ^ 32 → (bumped k g == g) ≡ (k == 0)
bumped_iff k g hg hk = ground arith

module _ (ts : List Turn) (gens gens' : List ℕ) (small : AreSmall gens)
    (follows : Follows (λ i. frees i ts) gens gens') (few : (i : ℕ) → frees i ts < 2 ^ 32) where
  exclude_mask-live :
      (rows : List Row) {es : List Entry}
      → snapshot gens rows ≡ some es
      → exclude_mask gens' es ≡ some (map (λ r. not (live ts r)) rows)
  unfolding snapshot exclude_mask
  exclude_mask-live [] e = ground arith
  exclude_mask-live (r ∷ rows) {es} e =
      let (g, e₁, k₁) = >>=-eq-some (get_elem? gens r.slot) _ e in
      let (es', e₂, k₂) = >>=-eq-some (snapshot gens rows) _ k₁ in
      ground (
        arith,
        exclude_mask-live rows {es = es'} e₂,
        follows r.slot g e₁ (small r.slot g e₁),
        bumped_iff (frees r.slot ts) g (small r.slot g e₁) (few r.slot),
      )

  filter_mapping-live :
      (rows : List Row) {es : List Entry}
      → snapshot gens rows ≡ some es
      → filter_mapping (map (λ r. not (live ts r)) rows) es ≡ live_mapping ts rows
  unfolding snapshot filter_mapping
  filter_mapping-live [] e = ground arith
  filter_mapping-live (r ∷ rows) {es} e =
      let (g, e₁, k₁) = >>=-eq-some (get_elem? gens r.slot) _ e in
      let (es', e₂, k₂) = >>=-eq-some (snapshot gens rows) _ k₁ in
      ground (arith, filter_mapping-live rows {es = es'} e₂)

  -- With no row masked the mapping is passed on as it is.
  plain-live :
      (rows : List Row) {es : List Entry}
      → snapshot gens rows ≡ some es
      → any (map (λ r. not (live ts r)) rows) ≡ false
      → map (λ e. pos e.slot) es ≡ live_mapping ts rows
  unfolding snapshot
  plain-live [] e a = ground arith
  plain-live (r ∷ rows) {es} e a =
      let (g, e₁, k₁) = >>=-eq-some (get_elem? gens r.slot) _ e in
      let (es', e₂, k₂) = >>=-eq-some (snapshot gens rows) _ k₁ in
      ground (arith, plain-live rows {es = es'} e₂)

all-not :
    (ts : List Turn) (rows : List Row)
    → all (map (λ r. not (live ts r)) rows) ≡ not (any (map (live ts) rows))
all-not ts [] = refl
all-not ts (r ∷ rows) = ground (arith, all-not ts rows)

-- A batch with a needed row has rows, so a mask with nothing set means a live row.
any-not :
    (ts : List Turn) (rows : List Row)
    → any (map need_sampled rows) ≡ true
    → any (map (λ r. not (live ts r)) rows) ≡ false
    → any (map (live ts) rows) ≡ true
any-not ts [] a b = absurd (ground arith)
any-not ts (r ∷ rows) a b = ground arith

pub consume_slot-expected :
    (h : PpHandler) (ts : List Turn) (gens gens' : List ℕ) (rows : List Row) (d : Delivered)
    {mask : List Bool} {es : List Entry}
    → AreSmall gens
    → Follows (λ i. frees i ts) gens gens'
    → ((i : ℕ) → frees i ts < 2 ^ 32)
    → compute_need_sampled_mask rows ≡ some mask
    → snapshot gens rows ≡ some es
    → consume_slot gens' (some (pending_recv h es d)) ≡ some (expected h ts rows d)
unfolding consume_slot compute_need_sampled_mask outputs_of pending_recv
consume_slot-expected h ts gens gens' rows d {es = es} small f few m s =
    let masked = exclude_mask-live ts gens gens' small f few rows s in
    let mapping = filter_mapping-live ts gens gens' small f few rows s in
    let plain = plain-live ts gens gens' small f few rows s in
    ground (arith, all-not ts rows, any-not ts rows)
