-- ===== src/Mamba/Boundary.antt =====
-- The postprocess decision, described by the block boundaries that a step crosses.
use glm53flash_pp.Base.{
  ℕ, ◌+◌, ◌-◌, ◌*◌, ◌/◌, ◌≤◌, ◌<◌, ◌≡◌, ◌⊎◌, inl, inr, none, some, false, arith, ℤ, sub_ℕ, ◌==ℤ◌,
  leb, ◌==◌, ◌&&◌, if◌then◌else◌, Bool-cases, leb→le,
}
use native.Mathlib.Decide.{dec_le}
use native.Mathlib.Nat.{mul-le-mul_right}
use glm53flash_pp.Mamba.{Postprocess, postprocess_from}

div_lower : (n b : ℕ) → 0 < b → n / b * b ≤ n
div_lower n b h = grind arith

div_upper : (n b : ℕ) → 0 < b → n < (n / b + 1) * b
div_upper n b h = grind arith

mul-div_self : (j b : ℕ) → 0 < b → j * b / b ≡ j
mul-div_self j b h = grind arith

-- No boundary after the last one.
last_boundary : (j n b : ℕ) → 0 < b → j * b ≤ n → j ≤ n / b
last_boundary j n b h le = elim (dec_le j (n / b)) [
  | yes p ↦ p
  | no p ↦
      absurd
        (omega (arith, div_upper n b h, mul-le-mul_right {m = n / b + 1} {n = j} b (omega arith)))
]

leb→false : (a b : ℕ) → leb a b ≡ false → b < a
leb→false a b h = ground arith

same_distance : (a b : ℕ) → b ≤ a → (a - b == 0) ≡ (a == b)
same_distance a b h = ground arith

-- Boundary `j` is the last one that the step reaches, and what the kernel makes of it.
pub record Crosses (block_size running new : ℕ) (src : ℤ) (d : Postprocess) (j : ℕ) : Type 0 where
  pub reached : running ≤ j * block_size
  pub passed : j * block_size ≤ new
  pub last : new < (j + 1) * block_size
  pub resets : d.reset_accepted ≡ (src ==ℤ sub_ℕ j 1)
  pub copies : d.copy ≡ (
      if (src ==ℤ sub_ℕ j 1) && (j * block_size == running)
      then none
      else some
          (record { src_col = src; dst_col = sub_ℕ j 1; token_bias = j * block_size - running }))

-- The postprocess kernel acts exactly when the step reaches a block boundary, a multiple of
-- `block_size` from `num_tokens_running_state` to `new_num_computed`. Then it works with the last
-- such boundary `j`: the destination is the block that ends there, the bias is the distance from
-- the running state to it, the accepted count is reset if the state is already in that block, and
-- nothing is copied if the copy would be a no-op.
pub postprocess-Crosses :
    (block_size running new : ℕ) (src : ℤ)
    → 0 < block_size
    → let d = postprocess_from block_size running new src in
      ((d.reset_accepted ≡ false)
        × (d.copy ≡ none)
        × ((j : ℕ) → running ≤ j * block_size → ¬ (j * block_size ≤ new)))
      ⊎ ((j : ℕ) × Crosses block_size running new src d j)
unfolding postprocess_from
postprocess-Crosses bs running new src h =
    let j = new / bs in
    let whole = mul-div_self j bs h in
    elim (Bool-cases (leb running (j * bs))) [
      | inl near ↦ inr (
        j,
        record {
          reached = ground arith;
          passed = div_lower new bs h;
          last = div_upper new bs h;
          resets = rw (near, whole);
          copies = rw (near, whole, same_distance (j * bs) running (leb→le running (j * bs) near));
        },
      )
      | inr far ↦ inl (
        rw far,
        rw far,
        λ k lo hi. omega (
          arith,
          leb→false running (j * bs) far,
          mul-le-mul_right {m = k} {n = j} bs (last_boundary k new bs h hi),
        ),
      )
    ]
