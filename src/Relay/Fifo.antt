-- ===== src/Relay/Fifo.antt =====
-- The queue as a delay line: what one step receives is what the step `pp_size` later consumes.
use mathlib.Core.List.{append_assoc}
use glm53flash_pp.Base.{
  ℕ, ◌+◌, ◌≡◌, refl, ◌∙◌, List, [], ◌∷◌, ◌++◌, Option, none, some, Bool, arith, length,
  length-append, ap, >>=-eq-some, Option-cases, Bool-cases, inl, inr, ◌⊎◌,
}
use glm53flash_pp.Relay.{
  Row, Entry, Delivered, PendingRecv, PpHandler, Outputs, on_req_idx_freed, consume_slot,
  get_prev_sampled_outputs, compute_need_sampled_mask, snapshot,
}
use glm53flash_pp.Relay.Wire.{Received, receive, receive_masked, posted, pending_recv, set_last}
use glm53flash_pp.Relay.Turn.{Turn, free_all, receive_batch, turn, run}

abbrev pub Queue : Type 0
Queue = List (Option PendingRecv)

-- The entry that the last `receive` left, or the reserved `None`.
abbrev pub newest : Queue → Option PendingRecv
newest [] = none
newest (s ∷ []) = s
newest (s ∷ t ∷ q) = newest (t ∷ q)

queue-free :
    (h : PpHandler) (i : ℕ) {h' : PpHandler} → on_req_idx_freed h i ≡ some h' → h'.queue ≡ h.queue
unfolding on_req_idx_freed
queue-free h i e = ground arith

pub queue-free_all :
    (h : PpHandler) (is : List ℕ) {h' : PpHandler} → free_all h is ≡ some h' → h'.queue ≡ h.queue
unfolding free_all
queue-free_all h [] e = ground arith
queue-free_all h (i ∷ is) e =
    let (h₁, ok, rest) = >>=-eq-some (on_req_idx_freed h i) _ e in
    queue-free_all h₁ is rest ∙ queue-free h i ok

pub queue-consume :
    (h : PpHandler) {s : Option PendingRecv} {q : Queue} {out : Option Outputs} {h' : PpHandler}
    → h.queue ≡ s ∷ q
    → get_prev_sampled_outputs h ≡ some (out, h')
    → (h'.queue ≡ q ++ (none ∷ []))
      × (consume_slot h.req_idx_gen s ≡ some out)
      × (h'.is_last_rank ≡ h.is_last_rank)
unfolding get_prev_sampled_outputs
queue-consume h {s} {q} e c =
    let (o, a, b) = >>=-eq-some (consume_slot h.req_idx_gen s) _ (rw e at c) in ground arith

pub set_last-append :
    (q : Queue) (s t : Option PendingRecv) → set_last (q ++ (s ∷ [])) t ≡ some (q ++ (t ∷ []))
unfolding set_last
set_last-append [] s t = refl
set_last-append (x ∷ []) s t = refl
set_last-append (x ∷ y ∷ q) s t = rw (set_last-append (y ∷ q) s t)

-- A receive that returns either skipped the step, or posted and filled the reserved place.
pub receive-cases :
    (h : PpHandler) (rows : List Row) (d : Delivered) {r : Received}
    → receive h rows d ≡ some r
    → ((compute_need_sampled_mask rows ≡ none) × (r.handler ≡ h))
      ⊎ ((mask : List Bool) × (es : List Entry) × (q : Queue) × (compute_need_sampled_mask rows
            ≡ some mask)
          × (snapshot h.req_idx_gen rows ≡ some es)
          × (set_last h.queue (some (pending_recv h es d)) ≡ some q)
          × (r ≡ posted h rows mask q))
unfolding receive receive_masked
receive-cases h rows d e = elim (Bool-cases h.is_last_rank) [
  | inl last ↦ absurd (ground arith)
  | inr first ↦ elim (Option-cases (compute_need_sampled_mask rows)) [
    | inl skip ↦ inl (skip, ground arith)
    | inr (mask, ok) ↦
        let e' : receive_masked h rows d mask ≡ some _ = rw (first, ok) at e in
        let (es, s, e₁) = >>=-eq-some (snapshot h.req_idx_gen rows) _ e' in
        let (q, l, e₂) = >>=-eq-some (set_last h.queue (some (pending_recv h es d))) _ e₁ in
        inr (mask, es, q, ok, s, l, ground arith)
  ]
]

queue-receive :
    (h : PpHandler) (rows : List Row) (d : Delivered) (q : Queue) {r : Received}
    → h.queue ≡ q ++ (none ∷ [])
    → receive h rows d ≡ some r
    → (x : Option PendingRecv) × (r.handler.queue ≡ q ++ (x ∷ []))
unfolding posted
queue-receive h rows d q e c = elim (receive-cases h rows d c) [
  | inl (_, same) ↦ (none, ground arith)
  | inr (mask, es, q', _, _, l, e') ↦ (
    some (pending_recv h es d),
    ground (arith, set_last-append q none (some (pending_recv h es d))),
  )
]

queue-receive_batch :
    (h : PpHandler) (b : Option (List Row × Delivered)) (q : Queue) {h' : PpHandler}
    → h.queue ≡ q ++ (none ∷ [])
    → receive_batch h b ≡ some h'
    → (x : Option PendingRecv) × (h'.queue ≡ q ++ (x ∷ []))
unfolding receive_batch
queue-receive_batch h none q e c = (none, ground arith)
queue-receive_batch h (some (rows, d)) q e c =
    let (r, ok, c₁) = >>=-eq-some (receive h rows d) _ c in
    let (x, p) = queue-receive h rows d q e ok in (x, ground arith)

-- One turn drops the head of the queue and appends one entry; it consumes that head.
turn-queue :
    (h : PpHandler) (t : Turn) {s : Option PendingRecv} {q : Queue} {out : Option Outputs}
    {h' : PpHandler}
    → h.queue ≡ s ∷ q
    → turn h t ≡ some (out, h')
    → (x : Option PendingRecv) × (h'.queue ≡ q ++ (x ∷ []))
      × (consume_slot h.req_idx_gen s ≡ some out)
unfolding turn
turn-queue h t {s} {q} e c =
    let ((o, h₁), c₁, k₁) = >>=-eq-some (get_prev_sampled_outputs h) _ c in
    let (h₂, c₂, k₂) = >>=-eq-some (free_all h₁ t.freed) _ k₁ in
    let (h₃, c₃, k₃) = >>=-eq-some (receive_batch h₂ t.batch) _ k₂ in
    let (q₁, cs, _) = queue-consume h e c₁ in
    let (x, p) = queue-receive_batch h₂ t.batch q (queue-free_all h₁ t.freed c₂ ∙ q₁) c₃ in
    (x, ground arith, ground arith)

pub newest-append : (q : Queue) (x : Option PendingRecv) → newest (q ++ (x ∷ [])) ≡ x
newest-append [] x = refl
newest-append (y ∷ []) x = refl
newest-append (y ∷ z ∷ q) x = newest-append (z ∷ q) x

-- An entry with as many entries before it as there are turns comes to the head.
run-queue :
    (h : PpHandler) (ts : List Turn) (pre post : Queue) (x : Option PendingRecv)
    {outs : List (Option Outputs)} {h' : PpHandler}
    → h.queue ≡ pre ++ (x ∷ post)
    → length ts ≡ length pre
    → run h ts ≡ some (outs, h')
    → (rest : Queue) × (h'.queue ≡ x ∷ rest)
unfolding run
run-queue h [] [] post x e l c = (post, ground arith)
run-queue h [] (y ∷ pre) post x e l c = absurd (omega arith)
run-queue h (t ∷ ts) [] post x e l c = absurd (omega arith)
run-queue h (t ∷ ts) (y ∷ pre) post x e l c =
    let ((o, h₁), c₁, k₁) = >>=-eq-some (turn h t) _ c in
    let ((os, h₂), c₂, k₂) = >>=-eq-some (run h₁ ts) _ k₁ in
    let (z, q₁, _) = turn-queue h t {s = y} {q = pre ++ (x ∷ post)} e c₁ in
    let (rest, r) =
      run-queue h₁ ts pre (post ++ (z ∷ [])) x (q₁ ∙ append_assoc pre (x ∷ post) (z ∷ []))
        (omega arith) c₂ in
    (rest, ground arith)

length-snoc : (q : Queue) (x : Option PendingRecv) → length (q ++ (x ∷ [])) ≡ length q + 1
length-snoc q x = length-append q (x ∷ [])

-- The entry that a turn leaves is the one that the turn `pp_size` later consumes.
pub turn-delay :
    (h : PpHandler) (t u : Turn) (ts : List Turn) {out out' : Option Outputs}
    {outs : List (Option Outputs)} {h₁ h₂ h₃ : PpHandler}
    → length ts + 1 ≡ length h.queue
    → turn h t ≡ some (out, h₁)
    → run h₁ ts ≡ some (outs, h₂)
    → turn h₂ u ≡ some (out', h₃)
    → consume_slot h₂.req_idx_gen (newest h₁.queue) ≡ some out'
turn-delay h t u ts {out' = o'} {h₁ = h₁} {h₂ = h₂} l c r d = go h.queue refl
  where
    go : (q : Queue) → h.queue ≡ q → consume_slot h₂.req_idx_gen (newest h₁.queue) ≡ some o'
    go [] e = absurd (omega (arith, ap length e))
    go (s ∷ q) e =
        let (x, q₁, _) = turn-queue h t e c in
        let (rest, q₂) = run-queue h₁ ts q [] x q₁ (omega (arith, ap length e)) r in
        let (_, _, k) = turn-queue h₂ u q₂ d in rw (q₁, newest-append q x) k
