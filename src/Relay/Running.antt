-- ===== src/Relay/Running.antt =====
-- Whole steps never raise: with its slots in range a run of steps returns, and keeps the handler
-- valid.
use glm53flash_pp.Relay.{init}
use glm53flash_pp.Relay.Mask.{AreSmall}
use glm53flash_pp.Base.{
  zero, suc, ◌<◌, replicate, length-replicate, Bool, false, ℕ, ◌<◌, ◌≡◌, refl, ◌∙◌, ap, sym, subst,
  List, [], ◌∷◌, ◌++◌, Option, none, some, false, arith, length, length-append, All, Option-cases,
  inl, inr,
}
use glm53flash_pp.Relay.{
  Row, Delivered, PendingRecv, PpHandler, Outputs, compute_need_sampled_mask,
  get_prev_sampled_outputs,
}
use glm53flash_pp.Relay.Wire.{Received, receive, receive_masked, posted, pending_recv, set_last}
use glm53flash_pp.Relay.Turn.{Turn, receive_batch, turn, run}
use glm53flash_pp.Relay.Fifo.{Queue, set_last-append}
use glm53flash_pp.Relay.Total.{
  QueueIn, QueueIn-append, IsValid, BatchIn, TurnIn, Keeps, Keeps-trans, consume-total,
  free_all-total, snapshot-total,
}

QueueIn-prefix :
    (n : ℕ) (q : Queue) (x : Option PendingRecv) → QueueIn n (q ++ (x ∷ [])) → QueueIn n q
QueueIn-prefix n [] x a = tt
QueueIn-prefix n (none ∷ q) x a = QueueIn-prefix n q x a
QueueIn-prefix n (some p ∷ q) x a = (a.0, QueueIn-prefix n q x a.1)

receive-total :
    (h : PpHandler) (rows : List Row) (d : Delivered) (q : Queue)
    → IsValid h
    → h.queue ≡ q ++ (none ∷ [])
    → All (λ r. r.slot < length h.req_idx_gen) rows
    → (r : Received) × (receive h rows d ≡ some r) × Keeps h r.handler
unfolding receive receive_masked posted pending_recv
receive-total h rows d q v e a = elim (Option-cases (compute_need_sampled_mask rows)) [
  | inl skip ↦ (
    record { all_decode_next = false; commands = []; handler = h },
    simp (v.first, skip),
    record { valid = v; slots = refl; depth = refl },
  )
  | inr (mask, ok) ↦
      let n = length h.req_idx_gen in
      let (es, s, within) = snapshot-total h.req_idx_gen rows a in
      let p : Option PendingRecv = some (pending_recv h es d) in
      let filled : set_last h.queue p ≡ some (q ++ (p ∷ [])) =
        subst (λ k. set_last k p ≡ some (q ++ (p ∷ []))) (sym e) (set_last-append q none p) in
      let front = QueueIn-prefix n q none (subst (QueueIn n) e v.within) in
      (
        posted h rows mask (q ++ (p ∷ [])),
        simp (v.first, ok, s, filled),
        record {
          valid = record {
            first = v.first;
            small = v.small;
            within = QueueIn-append n q p front (within, tt);
            nonempty = omega (arith, length-append q (p ∷ []));
          };
          slots = refl;
          depth = omega (arith, length-append q (p ∷ []), length-append q (none ∷ []), ap length e);
        },
      )
]

receive_batch-total :
    (h : PpHandler) (b : Option (List Row × Delivered)) (q : Queue)
    → IsValid h
    → h.queue ≡ q ++ (none ∷ [])
    → BatchIn (length h.req_idx_gen) b
    → (h' : PpHandler) × (receive_batch h b ≡ some h') × Keeps h h'
unfolding receive_batch
receive_batch-total h none q v e a = (h, refl, record { valid = v; slots = refl; depth = refl })
receive_batch-total h (some (rows, d)) q v e a =
    let (r, c, k) = receive-total h rows d q v e a in (r.handler, rw c, k)

-- With its slots in range a step of a valid handler returns, and keeps the handler valid.
pub turn-total :
    (h : PpHandler) (t : Turn)
    → IsValid h
    → TurnIn (length h.req_idx_gen) t
    → (out : Option Outputs) × (h' : PpHandler) × (turn h t ≡ some (out, h')) × Keeps h h'
unfolding turn get_prev_sampled_outputs
turn-total h t v a =
    let (out, h₁, c₁, k₁, q, e₁) = consume-total h h.queue v refl in
    let freed = subst (λ n. All (λ i. i < n) t.freed) (sym k₁.slots) a.0 in
    let (h₂, c₂, k₂, e₂) = free_all-total h₁ t.freed k₁.valid freed in
    let same = k₂.slots ∙ k₁.slots in
    let batch = subst (λ n. BatchIn n t.batch) (sym same) a.1 in
    let (h₃, c₃, k₃) = receive_batch-total h₂ t.batch q k₂.valid (e₂ ∙ e₁) batch in
    (out, h₃, rw (c₁, c₂, c₃), Keeps-trans k₁ (Keeps-trans k₂ k₃))

-- A run of steps of a valid handler, whose frees and batches name slots in range, returns and
-- leaves a valid handler with as many slots and as long a queue: nothing in the relay raises.
pub run-total :
    (h : PpHandler) (ts : List Turn)
    → IsValid h
    → All (TurnIn (length h.req_idx_gen)) ts
    → (outs : List (Option Outputs)) × (h' : PpHandler) × (run h ts ≡ some (outs, h')) × Keeps h h'
unfolding run
run-total h [] v a = ([], h, refl, record { valid = v; slots = refl; depth = refl })
run-total h (t ∷ ts) v a =
    let (out, h₁, c₁, k₁) = turn-total h t v a.0 in
    let rest = subst (λ n. All (TurnIn n) ts) (sym k₁.slots) a.1 in
    let (outs, h₂, c₂, k₂) = run-total h₁ ts k₁.valid rest in
    (out ∷ outs, h₂, rw (c₁, c₂), Keeps-trans k₁ k₂)

AreSmall-zeros : (n : ℕ) → AreSmall (replicate n 0)
AreSmall-zeros zero i g e = absurd (ground arith)
AreSmall-zeros (suc n) zero g e = ground arith
AreSmall-zeros (suc n) (suc i) g e = AreSmall-zeros n i g e

QueueIn-empty : (n w : ℕ) → QueueIn n (replicate w none)
QueueIn-empty n zero = tt
QueueIn-empty n (suc w) = QueueIn-empty n w

-- A fresh handler of a rank that is not the last is valid, and its queue holds `world_size` places.
pub init-IsValid :
    (max_num_reqs num_speculative_steps world_size : ℕ) (relay : Bool)
    → 0 < world_size
    → IsValid (init max_num_reqs num_speculative_steps relay false world_size)
      × (length (init max_num_reqs num_speculative_steps relay false world_size).queue ≡ world_size)
unfolding init
init-IsValid n k w relay h =
    let empty : Option PendingRecv = none in
    let depth = length-replicate w empty in
    (
      record {
        first = refl;
        small = AreSmall-zeros n;
        within = QueueIn-empty (length (replicate n 0)) w;
        nonempty = omega (arith, depth);
      },
      depth,
    )
