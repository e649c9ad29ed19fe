-- ===== src/Indexer/Context.antt =====
-- The part of a context that a rank holds: the keys that fall to it in turn.
use glm53flash_pp.Base.{
  ℕ, zero, suc, ◌+◌, ◌-◌, ◌*◌, ◌/◌, ◌%◌, min, ◌<◌, ◌≡◌, refl, ap, subst, ◌∙◌, inl, inr, true, false,
  arith, ltb, ◌==◌, if◌then◌else◌, Bool-cases,
}
use native.Mathlib.Nat.{mul-le-mul_right}
use native.Mathlib.Decide.{dec_lt}
use glm53flash_pp.Indexer.Metadata.{local_context}

-- How many of the first `len` keys fall to `rank`, of `world` ranks that take turns with
-- `interleave` keys each.
abbrev pub turns : ℕ → ℕ → ℕ → ℕ → ℕ
turns rank world interleave zero = 0
turns rank world interleave (suc len) =
    turns rank world interleave len + (if len / interleave % world == rank then 1 else 0)

-- `rounds` whole turns of all ranks, `groups` more ranks, and `rest` keys of the next one.
abbrev partial : ℕ → ℕ → ℕ → ℕ → ℕ
partial rank interleave groups rest =
    if ltb rank groups then interleave else (if rank == groups then rest else 0)

quotient : (q k t : ℕ) → t < k → (q * k + t) / k ≡ q
quotient q k t h = grind arith

residue : (q k t : ℕ) → t < k → (q * k + t) % k ≡ t
residue q k t h = grind arith

remainder_of_rank : (rank k g t : ℕ) → t < k → min (g * k + t - rank * k) k ≡ partial rank k g t
remainder_of_rank rank k g t h = elim (dec_lt rank g) [
  | yes before ↦
      let room = mul-le-mul_right {m = suc rank} {n = g} k before in
      let b : ltb rank g ≡ true = ground arith in rw b (grind arith)
  | no not_before ↦
      let b : ltb rank g ≡ false = ground arith in
      elim (dec_lt g rank) [
        | yes after ↦
            let room = mul-le-mul_right {m = suc g} {n = rank} k after in
            let c : (rank == g) ≡ false = ground arith in rw (b, c) (grind arith)
        | no same ↦
            let e : rank ≡ g = omega arith in
            let c : (rank == g) ≡ true = ground arith in rw (b, c) (rw e (omega arith))
      ]
]

local_context-parts :
    (rank world interleave rounds groups rest : ℕ)
    → 1 < world
    → groups < world
    → rest < interleave
    → local_context rank world interleave ((rounds * world + groups) * interleave + rest)
      ≡ rounds * interleave + partial rank interleave groups rest
unfolding local_context
local_context-parts rank world k b g t w l m =
    let d : ((b * world + g) * k + t) / k ≡ b * world + g = quotient (b * world + g) k t m in
    let e : (b * world + g) / world ≡ b = quotient b world g l in
    let many : ltb 1 world ≡ true = ground arith in
    let r : (b * world + g) * k + t - b * k * world ≡ g * k + t = grind arith in
    rw (many, d, e, r) (ap (λ x. b * k + x) (remainder_of_rank rank k g t m))

carry : (x k t : ℕ) → suc t ≡ k → suc (x * k + t) ≡ suc x * k + 0
carry x k t h = grind arith

whole_round : (b world g : ℕ) → suc g ≡ world → suc (b * world + g) ≡ suc b * world + 0
whole_round b world g h = grind arith

-- One more key goes to the rank whose turn it is.
local_context-suc_parts :
    (rank world k b g t : ℕ)
    → 1 < world
    → rank < world
    → g < world
    → t < k
    → let len = (b * world + g) * k + t in
      local_context rank world k (suc len)
      ≡ local_context rank world k len + (if g == rank then 1 else 0)
local_context-suc_parts rank world k b g t w r l m =
    let here = local_context-parts rank world k b g t w l m in
    elim (dec_lt (suc t) k) [
      | yes same_rank ↦
          let next = local_context-parts rank world k b g (suc t) w l same_rank in
          let e : suc ((b * world + g) * k + t) ≡ (b * world + g) * k + suc t = omega arith in
          rw (e, next, here) (ground arith)
      | no next_rank ↦
          let full : suc t ≡ k = omega arith in
          elim (dec_lt (suc g) world) [
            | yes same_round ↦
                let next =
                  local_context-parts rank world k b (suc g) 0 w same_round (omega arith) in
                let e : suc ((b * world + g) * k + t) ≡ (b * world + suc g) * k + 0 = grind arith in
                rw (e, next, here) (ground arith)
            | no next_round ↦
                let next =
                  local_context-parts rank world k (suc b) 0 0 w (omega arith) (omega arith) in
                let last : suc g ≡ world = omega arith in
                let e : suc ((b * world + g) * k + t) ≡ (suc b * world + 0) * k + 0 =
                  carry (b * world + g) k t full
                  ∙ ap (λ x. x * k + 0) (whole_round b world g last) in
                rw (e, next, here) (ground arith)
          ]
    ]

local_context-suc :
    (rank world k len : ℕ)
    → 1 < world
    → rank < world
    → 0 < k
    → local_context rank world k (suc len)
      ≡ local_context rank world k len + (if len / k % world == rank then 1 else 0)
local_context-suc rank world k len w r h =
    let whole : (len / k / world * world + len / k % world) * k + len % k ≡ len = grind arith in
    subst
      (λ x.
        local_context rank world k (suc x)
        ≡ local_context rank world k x + (if len / k % world == rank then 1 else 0))
      whole
      (local_context-suc_parts rank world k (len / k / world) (len / k % world) (len % k) w r
        (grind arith) (grind arith))

local_context_zero : (rank world k : ℕ) → 0 < k → local_context rank world k 0 ≡ 0
unfolding local_context
local_context_zero rank world k h =
    let z : 0 / k / world * k ≡ 0 = grind arith in
    elim (Bool-cases (ltb 1 world)) [
      | inl many ↦ rw (many, z) (omega arith)
      | inr single ↦ rw single refl
    ]

-- With more than one rank, the local length of a context on a rank is the number of its keys that
-- fall to that rank when the ranks take turns with `interleave` keys each.
pub local_context-turns :
    (rank world interleave len : ℕ)
    → 1 < world
    → rank < world
    → 0 < interleave
    → local_context rank world interleave len ≡ turns rank world interleave len
local_context-turns rank world k zero w r h = local_context_zero rank world k h
local_context-turns rank world k (suc len) w r h =
    local_context-suc rank world k len w r h
    ∙ ap (λ x. x + (if len / k % world == rank then 1 else 0))
        (local_context-turns rank world k len w r h)
