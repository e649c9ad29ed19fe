-- ===== src/Relay/Total.antt =====
-- The relay never raises: with every slot in range, each step of a rank that is not the last
-- returns, and keeps its handler valid.
use glm53flash_pp.Base.{
  ℕ, ◌<◌, ◌≡◌, refl, ◌∙◌, ap, sym, subst, List, [], ◌∷◌, ◌++◌, map, Option, none, some, Bool, false,
  arith, length, length-append, length-set, get_elem?, get_elem?-total, get_elem?-set_self,
  get_elem?-set_ne, get_elem?-lt, set, All, Bool-cases, inl, inr, ◌==◌, not, ◌||◌, if◌then◌else◌,
  any, all, pos,
}
use glm53flash_pp.Relay.{
  Row, Entry, Delivered, PendingRecv, PpHandler, Outputs, bump_gen, need_sampled, snapshot,
  exclude_mask, on_req_idx_freed, consume_slot, consume, outputs_of, filter_mapping,
}
use glm53flash_pp.Relay.Turn.{Turn, free_all}
use glm53flash_pp.Relay.Mask.{AreSmall}

-- The slots of the entries in flight exist.
abbrev pub QueueIn : ℕ → List (Option PendingRecv) → Type 0
QueueIn n [] = Unit
QueueIn n (none ∷ q) = QueueIn n q
QueueIn n (some p ∷ q) = All (λ e. e.slot < n) p.entries × QueueIn n q

pub record IsValid (h : PpHandler) : Type 0 where
  pub first : h.is_last_rank ≡ false
  pub small : AreSmall h.req_idx_gen
  pub within : QueueIn (length h.req_idx_gen) h.queue
  pub nonempty : 0 < length h.queue

abbrev pub BatchIn : ℕ → Option (List Row × Delivered) → Type 0
BatchIn n none = Unit
BatchIn n (some (rows, d)) = All (λ r. r.slot < n) rows

-- The slots that a step frees or schedules exist.
abbrev pub TurnIn : ℕ → Turn → Type 0
TurnIn n t = All (λ i. i < n) t.freed × BatchIn n t.batch

pub QueueIn-append :
    (n : ℕ) (q : List (Option PendingRecv)) (x : Option PendingRecv)
    → QueueIn n q
    → QueueIn n (x ∷ [])
    → QueueIn n (q ++ (x ∷ []))
QueueIn-append n [] x a b = b
QueueIn-append n (none ∷ q) x a b = QueueIn-append n q x a b
QueueIn-append n (some p ∷ q) x a b = (a.0, QueueIn-append n q x a.1 b)

exclude_mask-total :
    (gens : List ℕ) (es : List Entry)
    → All (λ e. e.slot < length gens) es
    → (mask : List Bool) × (exclude_mask gens es ≡ some mask)
unfolding exclude_mask
exclude_mask-total gens [] h = ([], refl)
exclude_mask-total gens (e ∷ es) h =
    let (g, a) = get_elem?-total gens e.slot h.0 in
    let (m, b) = exclude_mask-total gens es h.1 in
    ((not (g == e.gen_at_receive) || not e.need) ∷ m, rw (a, b))

pub snapshot-total :
    (gens : List ℕ) (rows : List Row)
    → All (λ r. r.slot < length gens) rows
    → (es : List Entry) × (snapshot gens rows ≡ some es) × All (λ e. e.slot < length gens) es
unfolding snapshot
snapshot-total gens [] h = ([], refl, tt)
snapshot-total gens (r ∷ rows) h =
    let (g, a) = get_elem?-total gens r.slot h.0 in
    let (es, b, c) = snapshot-total gens rows h.1 in
    (record { slot = r.slot; need = need_sampled r; gen_at_receive = g } ∷ es, rw (a, b), (h.0, c))

consume_slot-total :
    (gens : List ℕ) (s : Option PendingRecv)
    → QueueIn (length gens) (s ∷ [])
    → (out : Option Outputs) × (consume_slot gens s ≡ some out)
unfolding consume_slot
consume_slot-total gens none h = (none, refl)
consume_slot-total gens (some p) h =
    let (m, a) = exclude_mask-total gens p.entries h.0 in
    (
      if any m
          then (if all m then none else some (outputs_of p (filter_mapping m p.entries)))
          else some (outputs_of p (map (λ e. pos e.slot) p.entries)),
      rw a,
    )

QueueIn-split :
    (n : ℕ) (s : Option PendingRecv) (q : List (Option PendingRecv))
    → QueueIn n (s ∷ q)
    → QueueIn n (s ∷ []) × QueueIn n q
QueueIn-split n none q h = (tt, h)
QueueIn-split n (some p) q h = ((h.0, tt), h.1)

-- What a step must leave: a valid handler over as many slots, with as long a queue.
pub record Keeps (h h' : PpHandler) : Type 0 where
  pub valid : IsValid h'
  pub slots : length h'.req_idx_gen ≡ length h.req_idx_gen
  pub depth : length h'.queue ≡ length h.queue

pub consume-total :
    (h : PpHandler) (q : List (Option PendingRecv))
    → IsValid h
    → h.queue ≡ q
    → (out : Option Outputs) × (h' : PpHandler) × (consume h q ≡ some (out, h'))
      × Keeps h h'
      × (q' : List (Option PendingRecv)) × (h'.queue ≡ q' ++ (none ∷ []))
unfolding consume
consume-total h [] v e = absurd (omega (arith, ap length e, v.nonempty))
consume-total h (s ∷ q) v e =
    let n = length h.req_idx_gen in
    let w : QueueIn n (s ∷ q) = subst (QueueIn n) e v.within in
    let (ws, wq) = QueueIn-split n s q w in
    let (out, a) = consume_slot-total h.req_idx_gen s ws in
    let long = length-append q (none ∷ []) in
    (
      out,
      record h { queue = q ++ (none ∷ []) },
      rw a,
      record {
        valid = record {
          first = v.first;
          small = v.small;
          within = QueueIn-append n q none wq tt;
          nonempty = omega (arith, long);
        };
        slots = refl;
        depth = omega (arith, long, ap length e);
      },
      q,
      refl,
    )

AreSmall-bump :
    (gens : List ℕ) (i g : ℕ)
    → AreSmall gens
    → get_elem? gens i ≡ some g
    → AreSmall (set gens i (bump_gen g))
AreSmall-bump gens i g small at j g' at' = elim (Bool-cases (i == j)) [
  | inl same ↦ ground (arith, get_elem?-set_self gens i (bump_gen g), get_elem?-lt gens i at)
  | inr other ↦ ground (arith, get_elem?-set_ne gens {i = i} {j = j} (bump_gen g), small j g')
]

free-total :
    (h : PpHandler) (i : ℕ)
    → IsValid h
    → i < length h.req_idx_gen
    → (h' : PpHandler) × (on_req_idx_freed h i ≡ some h') × Keeps h h' × (h'.queue ≡ h.queue)
unfolding on_req_idx_freed
free-total h i v lt =
    let (g, a) = get_elem?-total h.req_idx_gen i lt in
    let same = length-set h.req_idx_gen i (bump_gen g) in
    (
      record h { req_idx_gen = set h.req_idx_gen i (bump_gen g) },
      rw a,
      record {
        valid = record {
          first = v.first;
          small = AreSmall-bump h.req_idx_gen i g v.small a;
          within = subst (λ n. QueueIn n h.queue) (sym same) v.within;
          nonempty = v.nonempty;
        };
        slots = same;
        depth = refl;
      },
      refl,
    )

pub Keeps-trans : {a b c : PpHandler} → Keeps a b → Keeps b c → Keeps a c
Keeps-trans k l = record { valid = l.valid; slots = l.slots ∙ k.slots; depth = l.depth ∙ k.depth }

pub free_all-total :
    (h : PpHandler) (is : List ℕ)
    → IsValid h
    → All (λ i. i < length h.req_idx_gen) is
    → (h' : PpHandler) × (free_all h is ≡ some h') × Keeps h h' × (h'.queue ≡ h.queue)
unfolding free_all
free_all-total h [] v a = (h, refl, record { valid = v; slots = refl; depth = refl }, refl)
free_all-total h (i ∷ is) v a =
    let (h₁, e₁, k₁, q₁) = free-total h i v a.0 in
    let a' : All (λ i. i < length h₁.req_idx_gen) is =
      subst (λ n. All (λ i. i < n) is) (sym k₁.slots) a.1 in
    let (h₂, e₂, k₂, q₂) = free_all-total h₁ is k₁.valid a' in
    (h₂, rw (e₁, e₂), Keeps-trans k₁ k₂, q₂ ∙ q₁)
