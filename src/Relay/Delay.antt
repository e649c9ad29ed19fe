-- ===== src/Relay/Delay.antt =====
-- The relay from end to end: what the last rank broadcasts in one step reaches the request states
-- `pp_size` steps later, for the rows that are still live and for no others.
use glm53flash_pp.Base.{
  ℕ, ◌+◌, ◌<◌, ◌^◌, ◌≡◌, refl, ◌∙◌, ap, sym, subst, List, [], ◌∷◌, ◌++◌, map, Option, none, some,
  Bool, true, arith, length, All, >>=-eq-some, inl, inr, any, get_elem?,
}
use glm53flash_pp.Relay.{
  Row, Entry, Delivered, PendingRecv, PpHandler, Outputs, compute_need_sampled_mask, snapshot,
  need_sampled, on_req_idx_freed, consume_slot, consume, get_prev_sampled_outputs,
}
use glm53flash_pp.Relay.Wire.{Received, receive, posted, pending_recv}
use glm53flash_pp.Relay.Turn.{Turn, free_all, receive_batch, turn, run}
use glm53flash_pp.Relay.Fifo.{
  Queue, set_last-append, newest, newest-append, turn-delay, receive-cases, queue-consume,
  queue-free_all,
}
use glm53flash_pp.Relay.Freed.{frees, Follows-run}
use glm53flash_pp.Relay.Mask.{expected, consume_slot-expected}
use glm53flash_pp.Relay.Running.{turn-total, run-total}
use glm53flash_pp.Relay.Total.{IsValid, TurnIn}

-- The fields that frees and consumes leave alone.
abbrev pub SameWire : PpHandler → PpHandler → Type 0
SameWire h h' =
    (h'.events ≡ h.events)
    × (h'.relay_draft_tokens ≡ h.relay_draft_tokens)
    × (h'.max_sample_len ≡ h.max_sample_len)

wire-consume :
    (h : PpHandler) (q : Queue) {out : Option Outputs} {h' : PpHandler}
    → consume h q ≡ some (out, h')
    → SameWire h h'
unfolding consume
wire-consume h [] e = ground arith
wire-consume h (s ∷ q) e =
    let (o, e₁, e₂) = >>=-eq-some (consume_slot h.req_idx_gen s) _ e in ground arith

wire-free_all :
    (h : PpHandler) (is : List ℕ) {h' : PpHandler} → free_all h is ≡ some h' → SameWire h h'
unfolding free_all on_req_idx_freed
wire-free_all h [] e = ground arith
wire-free_all h (i ∷ is) e =
    let (h₁, e₁, e₂) = >>=-eq-some (on_req_idx_freed h i) _ e in
    let (g, _, e₃) = >>=-eq-some (get_elem? h.req_idx_gen i) _ e₁ in
    ground (arith, wire-free_all h₁ is e₂)

pending_recv-wire :
    (h h' : PpHandler) (es : List Entry) (d : Delivered)
    → SameWire h h'
    → pending_recv h' es d ≡ pending_recv h es d
unfolding pending_recv
pending_recv-wire h h' es d w = ground arith

newest-receive :
    (h : PpHandler) (rows : List Row) (d : Delivered) (q : Queue) {mask : List Bool} {r : Received}
    → h.queue ≡ q ++ (none ∷ [])
    → compute_need_sampled_mask rows ≡ some mask
    → receive h rows d ≡ some r
    → (es : List Entry) × (snapshot r.handler.req_idx_gen rows ≡ some es)
      × (newest r.handler.queue ≡ some (pending_recv h es d))
unfolding posted
newest-receive h rows d q e m c = elim (receive-cases h rows d c) [
  | inl (skip, _) ↦ absurd (ground arith)
  | inr (mask', es, q', _, sn, l, same) ↦
      let p : Option PendingRecv = some (pending_recv h es d) in
      (es, ground arith, ground (arith, set_last-append q none p, newest-append q p))
]

newest-batch :
    (h : PpHandler) (rows : List Row) (d : Delivered) (q : Queue) {mask : List Bool}
    {h' : PpHandler}
    → h.queue ≡ q ++ (none ∷ [])
    → compute_need_sampled_mask rows ≡ some mask
    → receive_batch h (some (rows, d)) ≡ some h'
    → (es : List Entry) × (snapshot h'.req_idx_gen rows ≡ some es)
      × (newest h'.queue ≡ some (pending_recv h es d))
unfolding receive_batch
newest-batch h rows d q {h' = h'} e m c =
    let (r, c₁, k) = >>=-eq-some (receive h rows d) _ c in
    let (es, a, b) = newest-receive h rows d q e m c₁ in
    let same : r.handler ≡ h' = ground arith in (es, rw same at a, rw same at b)

newest-parts :
    (h h₁ h₂ : PpHandler) (t : Turn) (rows : List Row) (d : Delivered) {s : Option PendingRecv}
    {q : Queue} {out : Option Outputs} {h' : PpHandler} {mask : List Bool}
    → h.queue ≡ s ∷ q
    → t.batch ≡ some (rows, d)
    → compute_need_sampled_mask rows ≡ some mask
    → get_prev_sampled_outputs h ≡ some (out, h₁)
    → free_all h₁ t.freed ≡ some h₂
    → receive_batch h₂ t.batch ≡ some h'
    → (es : List Entry) × (snapshot h'.req_idx_gen rows ≡ some es)
      × (newest h'.queue ≡ some (pending_recv h es d))
unfolding get_prev_sampled_outputs
newest-parts h h₁ h₂ t rows d {q = q} {h' = h'} e b m c₁ c₂ c₃ =
    let (q₁, _, _) = queue-consume h e c₁ in
    let posted_batch : receive_batch h₂ (some (rows, d)) ≡ some h' =
      subst (λ k. receive_batch h₂ k ≡ some h') b c₃ in
    let (es, a, n) = newest-batch h₂ rows d q (queue-free_all h₁ t.freed c₂ ∙ q₁) m posted_batch in
    let w₁ = wire-consume h h.queue c₁ in
    let w₂ = wire-free_all h₁ t.freed c₂ in
    (es, a, n ∙ ap some (pending_recv-wire h h₂ es d (ground arith)))

-- A turn whose batch has a needed row leaves the entry of that batch behind.
newest-turn :
    (h : PpHandler) (t : Turn) (rows : List Row) (d : Delivered) {s : Option PendingRecv}
    {q : Queue} {out : Option Outputs} {h' : PpHandler} {mask : List Bool}
    → h.queue ≡ s ∷ q
    → t.batch ≡ some (rows, d)
    → compute_need_sampled_mask rows ≡ some mask
    → turn h t ≡ some (out, h')
    → (es : List Entry) × (snapshot h'.req_idx_gen rows ≡ some es)
      × (newest h'.queue ≡ some (pending_recv h es d))
unfolding turn
newest-turn h t rows d {h' = h'} e b m c =
    let ((o, h₁), c₁, k₁) = >>=-eq-some (get_prev_sampled_outputs h) _ c in
    let (h₂, c₂, k₂) = >>=-eq-some (free_all h₁ t.freed) _ k₁ in
    let (h₃, c₃, k₃) = >>=-eq-some (receive_batch h₂ t.batch) _ k₂ in
    let same : h₃ ≡ h' = cc in newest-parts h h₁ h₂ t rows d e b m c₁ c₂ (c₃ ∙ ap some same)

-- The output of the step `pp_size` later, with the steps that lead there.
pub record Relayed (h : PpHandler) (t u : Turn) (ts : List Turn) (out : Option Outputs)
    : Type 0 where
  pub now : Option Outputs
  pub sent : PpHandler
  pub between : List (Option Outputs)
  pub waited : PpHandler
  pub done : PpHandler
  pub first_turn : turn h t ≡ some (now, sent)
  pub other_turns : run sent ts ≡ some (between, waited)
  pub last_turn : turn waited u ≡ some (out, done)

same_result : {a b : Option Outputs} {x : Option (Option Outputs)} → x ≡ some a → x ≡ some b → a ≡ b
same_result e f = ground arith

-- A valid handler of a rank that is not the last, whose queue holds `pp_size` places, runs through
-- any steps with slots in range. If step `t` receives a batch with a needed row, then the step `u`
-- that comes `pp_size` steps later, after the steps `ts`, returns exactly the payload of `t`, with
-- a row's slot in the mapping if the row was needed and `ts` did not free its slot, and -1
-- elsewhere; and it returns nothing if no row is left. (No slot is freed 2 ^ 32 times in between.)
pub relay-Relayed :
    (h : PpHandler) (t u : Turn) (ts : List Turn) (rows : List Row) (d : Delivered)
    → IsValid h
    → All (TurnIn (length h.req_idx_gen)) (t ∷ u ∷ ts)
    → length ts + 1 ≡ length h.queue
    → ((i : ℕ) → frees i ts < 2 ^ 32)
    → t.batch ≡ some (rows, d)
    → any (map need_sampled rows) ≡ true
    → Relayed h t u ts (expected h ts rows d)
unfolding compute_need_sampled_mask
relay-Relayed h t u ts rows d v a l few b need = go h.queue refl
  where
    go : (q : Queue) → h.queue ≡ q → Relayed h t u ts (expected h ts rows d)
    go [] e = absurd (omega (arith, ap length e))
    go (s ∷ q) e =
        let n = length h.req_idx_gen in
        let (o₁, h₁, c₁, k₁) = turn-total h t v a.0 in
        let mid = subst (λ n. All (TurnIn n) ts) (sym k₁.slots) a.1.1 in
        let (os, h₂, c₂, k₂) = run-total h₁ ts k₁.valid mid in
        let end = subst (λ n. TurnIn n u) (sym (k₂.slots ∙ k₁.slots)) a.1.0 in
        let (o₃, h₃, c₃, k₃) = turn-total h₂ u k₂.valid end in
        let mask : compute_need_sampled_mask rows ≡ some (map need_sampled rows) = rw need in
        let (es, sn, new) = newest-turn h t rows d e b mask c₁ in
        let late = turn-delay h t u ts l c₁ c₂ c₃ in
        let got =
          consume_slot-expected h ts h₁.req_idx_gen h₂.req_idx_gen rows d k₁.valid.small
            (Follows-run h₁ ts c₂) few mask sn in
        record {
          now = o₁;
          sent = h₁;
          between = os;
          waited = h₂;
          done = h₃;
          first_turn = c₁;
          other_turns = c₂;
          last_turn =
              c₃
              ∙ ap (λ o. some (o, h₃))
                  (same_result late (ap (consume_slot h₂.req_idx_gen) new ∙ got));
        }
