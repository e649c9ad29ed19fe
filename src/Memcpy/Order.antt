-- ===== src/Memcpy/Order.antt =====
-- The tiles of a launch together, in any order: a plain copy.
use native.Mathlib.Nat.{mul-le-mul_left, mul-le-mul_right, le_trans, mul_comm}
use mathlib.Core.Path.{fun_ext}
use native.Mathlib.Nat.{mul-zero}
use native.Mathlib.Decide.{dec_lt}
use Prim.Native.Nat.{bit_and, bit_xor}
use glm53flash_pp.Base.{
  ℕ, zero, suc, ◌+◌, ◌-◌, ◌*◌, ◌/◌, ◌≤◌, ◌<◌, ◌≡◌, refl, sym, subst, ◌⊎◌, inl, inr, ◌∙◌, arith,
  Bool, true, false, ltb, leb, ◌==◌, ◌&&◌, ◌||◌, if◌then◌else◌, Bool-cases, List, [], ◌∷◌,
}
use glm53flash_pp.Memcpy.{
  Memory, head_bytes, cdiv, per_tile, tile_start, tile_end, memcpy_u64_tiled, run_tiles,
}
use glm53flash_pp.Memcpy.Ranges.{Disjoint}
use glm53flash_pp.Memcpy.Tiles.{owns, owns_fast, written, memcpy_u64_tiled-written}

-- The tile that owns unit `w`.
abbrev owner : ℕ → ℕ → ℕ → ℕ → ℕ
owner block tiles total w = w / per_tile block tiles total

-- Enough units on each tile for all of them.
le-mul-cdiv : (a b : ℕ) → 0 < b → a ≤ b * cdiv a b
le-mul-cdiv a b h = grind arith

per_tile_enough :
    (block tiles total : ℕ) → 0 < block → 0 < tiles → total ≤ tiles * per_tile block tiles total
per_tile_enough block tiles total hb ht = le_trans (le-mul-cdiv total tiles ht) (
    mul-le-mul_left tiles (
      subst (λ k. cdiv total tiles ≤ k) (mul_comm block _)
        (le-mul-cdiv (cdiv total tiles) block hb)))

div_bounds : (p w : ℕ) → 0 < p → (w / p * p ≤ w) × (w < w / p * p + p)
div_bounds p w h = (grind arith, grind arith)

div_few : (p w tiles : ℕ) → 0 < p → w < tiles * p → w / p < tiles
div_few p w tiles h lt = elim (dec_lt (w / p) tiles) [
  | yes few ↦ few
  | no many ↦ absurd (
      omega (arith, (div_bounds p w h).0, mul-le-mul_right {m = tiles} {n = w / p} p (omega arith)))
]

pos_of_enough : (p w total tiles : ℕ) → total ≤ tiles * p → w < total → 0 < p
pos_of_enough zero w total tiles e lt = absurd (omega (arith, mul-zero tiles))
pos_of_enough (suc p) w total tiles e lt = omega arith

-- Each unit lies in the range of the tile that owns it, which is one of the launch.
pub owner_lem :
    (block tiles total w : ℕ)
    → 0 < block
    → 0 < tiles
    → w < total
    → let t = owner block tiles total w in
      (t < tiles) × (tile_start block tiles total t ≤ w) × (w < tile_end block tiles total t)
owner_lem block tiles total w hb ht hw =
    let p = per_tile block tiles total in
    let e = per_tile_enough block tiles total hb ht in
    let h = pos_of_enough p w total tiles e hw in
    let (lo, hi) = div_bounds p w h in (div_few p w tiles h (omega arith), lo, omega arith)

or_edge : (a b c : Bool) → (b || c) ≡ true → ((a || b) || c) ≡ true
or_edge a b c h = ground arith

or_middle : (a b c : Bool) → a ≡ true → ((a || b) || c) ≡ true
or_middle a b c h = ground arith

-- Byte `k` stands in word `w` when `8 * w ≤ k - head < 8 * w + 8`.
in_words :
    (head lo hi w k : ℕ)
    → head ≤ k
    → w ≡ (k - head) / 8
    → lo ≤ w
    → w < hi
    → (leb (head + 8 * lo) k && ltb k (head + 8 * hi)) ≡ true
in_words head lo hi w k h e p q = ground arith

owned_fast :
    (block tiles dst size k : ℕ)
    → 0 < block
    → 0 < tiles
    → k < size
    → (t : ℕ) × (t < tiles) × (owns_fast block tiles dst size t k ≡ true)
owned_fast block tiles dst size k hb ht hk =
    let head = head_bytes dst size in
    let body = (size - head) / 8 in
    let w = (k - head) / 8 in
    elim (Bool-cases (ltb k head || leb (head + body * 8) k)) [
      | inl edge ↦ (0, ht, or_edge _ (ltb k head) (leb (head + body * 8) k) edge)
      | inr inner ↦
          let above : head ≤ k = ground arith in
          let below : k < head + body * 8 = ground arith in
          let (lt, lo, hi) = owner_lem block tiles body w hb ht (omega arith) in
          let t = owner block tiles body w in
          (
            t,
            lt,
            or_middle _ ((t == 0) && ltb k head) ((t == 0) && leb (head + body * 8) k) (
                in_words head (tile_start block tiles body t) (tile_end block tiles body t) w k
                  above refl lo hi),
          )
    ]

-- Every byte of the copy is owned by a tile of the launch.
owned :
    (block tiles src dst size k : ℕ)
    → 0 < block
    → 0 < tiles
    → k < size
    → (t : ℕ) × (t < tiles) × (owns block tiles src dst size t k ≡ true)
owned block tiles src dst size k hb ht hk = elim (Bool-cases (bit_and (bit_xor src dst) 7 == 0)) [
  | inl aligned ↦
      let (t, lt, o) = owned_fast block tiles dst size k hb ht hk in (t, lt, rw aligned o)
  | inr mixed ↦
      let (lt, lo, hi) = owner_lem block tiles size k hb ht hk in
      (owner block tiles size k, lt, rw mixed (ground arith))
]

-- What the launch may have written so far: some bytes of the destination, each from its place.
abbrev IsPartial : Memory → Memory → ℕ → ℕ → ℕ → Type 0
IsPartial m₀ m src dst size =
    (a : ℕ) → (m a ≡ m₀ a) ⊎ ((dst ≤ a) × (a < dst + size) × (m a ≡ m₀ (src + (a - dst))))

source_kept :
    (m₀ m : Memory) (src dst size k : ℕ)
    → Disjoint src dst size
    → IsPartial m₀ m src dst size
    → k < size
    → m (src + k) ≡ m₀ (src + k)
source_kept m₀ m src dst size k d p h = ground (arith, p (src + k))

written-IsPartial :
    (m₀ m : Memory) (src dst size : ℕ) (own : ℕ → Bool)
    → Disjoint src dst size
    → IsPartial m₀ m src dst size
    → IsPartial m₀ (written m src dst size own) src dst size
written-IsPartial m₀ m src dst size own d p a =
    ground (arith, p a, source_kept m₀ m src dst size (a - dst) d p)

written-byte :
    (m₀ m : Memory) (src dst size k : ℕ) (own : ℕ → Bool)
    → Disjoint src dst size
    → IsPartial m₀ m src dst size
    → k < size
    → (own k ≡ true) ⊎ (m (dst + k) ≡ m₀ (src + k))
    → written m src dst size own (dst + k) ≡ m₀ (src + k)
written-byte m₀ m src dst size k own d p h w =
    let e : dst + k - dst ≡ k = omega arith in
    rw e (ground (arith, source_kept m₀ m src dst size k d p h))

abbrev pub mem : ℕ → List ℕ → Bool
mem t [] = false
mem t (u ∷ us) = (u == t) || mem t us

-- A byte that is written stays written; one that its owner has run for is written.
module _ (block tiles src dst size : ℕ) (hb : 0 < block) (d : Disjoint src dst size) where
  run_tiles-byte :
      (m₀ m : Memory) (order : List ℕ) (t k : ℕ)
      → IsPartial m₀ m src dst size
      → k < size
      → owns block tiles src dst size t k ≡ true
      → (mem t order ≡ true) ⊎ (m (dst + k) ≡ m₀ (src + k))
      → run_tiles block tiles m src dst size order (dst + k) ≡ m₀ (src + k)
  unfolding run_tiles
  run_tiles-byte m₀ m [] t k p h o w = ground arith
  run_tiles-byte m₀ m (u ∷ order) t k p h o w =
      let own = owns block tiles src dst size u in
      let next = written m src dst size own in
      let now : (mem t order ≡ true) ⊎ (next (dst + k) ≡ m₀ (src + k)) =
        elim (Bool-cases (u == t)) [
          | inl same ↦
              let e : u ≡ t = ground arith in
              inr (written-byte m₀ m src dst size k own d p h (inl (rw e o)))
          | inr other ↦ elim w [
            | inl later ↦ inl (ground arith)
            | inr kept ↦ inr (written-byte m₀ m src dst size k own d p h (inr kept))
          ]
        ] in
      rw (fun_ext (λ a. memcpy_u64_tiled-written block tiles m src dst size u a hb d))
        (run_tiles-byte m₀ next order t k (written-IsPartial m₀ m src dst size own d p) h o now)

  run_tiles-outside :
      (m : Memory) (order : List ℕ) (a : ℕ)
      → (leb dst a && ltb a (dst + size)) ≡ false
      → run_tiles block tiles m src dst size order a ≡ m a
  unfolding run_tiles
  run_tiles-outside m [] a h = refl
  run_tiles-outside m (u ∷ order) a h =
      run_tiles-outside (memcpy_u64_tiled block tiles m src dst size u) order a h
      ∙ memcpy_u64_tiled-written block tiles m src dst size u a hb d
      ∙ rw h

-- A launch of `_memcpy_u64_tiled` over all its tiles, in whatever order they run and however
-- often, is a plain copy: afterwards the `size` bytes at `dst` are those at `src`, and no other
-- byte has changed. Source and destination do not overlap; alignment is arbitrary.
pub run_tiles-copy :
    (block tiles : ℕ) (m : Memory) (src dst size : ℕ) (order : List ℕ)
    → 0 < block
    → 0 < tiles
    → Disjoint src dst size
    → ((t : ℕ) → t < tiles → mem t order ≡ true)
    → (a : ℕ)
    → run_tiles block tiles m src dst size order a
      ≡ (if leb dst a && ltb a (dst + size) then m (src + (a - dst)) else m a)
run_tiles-copy block tiles m src dst size order hb ht d all a =
    elim (Bool-cases (leb dst a && ltb a (dst + size))) [
      | inr out ↦ rw out (run_tiles-outside block tiles src dst size hb d m order a out)
      | inl inside ↦
          let k = a - dst in
          let h : k < size = ground arith in
          let e : a ≡ dst + k = ground arith in
          let (t, lt, o) = owned block tiles src dst size k hb ht h in
          rw inside (
            subst (λ b. run_tiles block tiles m src dst size order b ≡ m (src + k)) (sym e)
              (run_tiles-byte block tiles src dst size hb d m m order t k (λ b. inl refl) h o
                (inl (all t lt))))
    ]
