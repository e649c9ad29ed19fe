-- ===== src/Memcpy/Ranges.antt =====
-- The block loop copies its range, whatever the block size.
use native.Mathlib.Nat.{mul-le-mul_left}
use native.Mathlib.Decide.{dec_le}
use glm53flash_pp.Base.{
  ℕ, zero, suc, ◌+◌, ◌-◌, ◌*◌, min, ◌≤◌, ◌<◌, ◌≡◌, sym, ◌⊎◌, inl, inr, ◌∙◌, arith, ltb, leb, ◌&&◌,
  if◌then◌else◌, Bool-cases,
}
use glm53flash_pp.Memcpy.{Memory, copy_range, copy_loop, memcpy_bytes}

-- No byte of the source is a byte of the destination.
abbrev pub Disjoint : ℕ → ℕ → ℕ → Type 0
Disjoint src dst size = (src + size ≤ dst) ⊎ (dst + size ≤ src)

-- Two copies of neighbouring ranges are one copy.
pub copy_range-copy_range :
    (m : Memory) (src dst lo mid hi a : ℕ)
    → Disjoint src dst hi
    → lo ≤ mid
    → mid ≤ hi
    → copy_range (copy_range m src dst lo mid) src dst mid hi a ≡ copy_range m src dst lo hi a
unfolding copy_range
copy_range-copy_range m src dst lo mid hi a d h k = ground arith

pub copy_range_empty : (m : Memory) (src dst lo a : ℕ) → copy_range m src dst lo lo a ≡ m a
unfolding copy_range
copy_range_empty m src dst lo a = ground arith

copy_range_over : (m : Memory) (src dst lo hi a : ℕ) → hi ≤ lo → copy_range m src dst lo hi a ≡ m a
unfolding copy_range
copy_range_over m src dst lo hi a h = ground arith

-- One round, and then the rest of the range.
rest_of_loop :
    (width : ℕ) (m : Memory) (src dst i j end a : ℕ)
    → Disjoint src dst (width * end)
    → i ≤ j
    → i ≤ end
    → copy_range
        (copy_range m src dst (width * i) (width * min j end))
        src
        dst
        (width * j)
        (width * end)
        a
      ≡ copy_range m src dst (width * i) (width * end) a
rest_of_loop width m src dst i j end a d h k = elim (dec_le j end) [
  | yes inside ↦
      let e : min j end ≡ j = omega arith in
      rw e (
        copy_range-copy_range m src dst (width * i) (width * j) (width * end) a d
          (mul-le-mul_left width h) (mul-le-mul_left width inside))
  | no beyond ↦
      let e : min j end ≡ end = omega arith in
      rw e (
        copy_range_over (copy_range m src dst (width * i) (width * end)) src dst (width * j)
          (width * end) a (mul-le-mul_left width (omega arith)))
]

-- The loop is one copy of the range from `width * i` to `width * end`.
pub copy_loop-copy_range :
    (width block fuel : ℕ) (m : Memory) (src dst i end a : ℕ)
    → 0 < block
    → end ≤ i + fuel
    → Disjoint src dst (width * end)
    → copy_loop width block fuel m src dst i end a
      ≡ copy_range m src dst (width * i) (width * end) a
unfolding copy_loop
copy_loop-copy_range width block zero m src dst i end a b f d =
    sym
      (copy_range_over m src dst (width * i) (width * end) a (mul-le-mul_left width (omega arith)))
copy_loop-copy_range width block (suc fuel) m src dst i end a b f d =
    elim (Bool-cases (ltb i end)) [
      | inr done ↦
          let past : end ≤ i = ground arith in
          rw done (
            sym
              (copy_range_over m src dst (width * i) (width * end) a (mul-le-mul_left width past)))
      | inl more ↦
          let first = copy_range m src dst (width * i) (width * min (i + block) end) in
          let ih =
            copy_loop-copy_range width block fuel first src dst (i + block) end a b (omega arith)
              d in
          let lt : i < end = ground arith in
          rw more
            (ih ∙ rest_of_loop width m src dst i (i + block) end a d (omega arith) (omega arith))
    ]

-- `batch_memcpy_kernel` copies each entry: afterwards the `size` bytes at `dst` are those at
-- `src`, and no other byte has changed. Source and destination do not overlap.
pub memcpy_bytes-copy :
    (block : ℕ) (m : Memory) (src dst size : ℕ)
    → 0 < block
    → Disjoint src dst size
    → (a : ℕ)
    → memcpy_bytes block m src dst size a
      ≡ (if leb dst a && ltb a (dst + size) then m (src + (a - dst)) else m a)
unfolding memcpy_bytes copy_range
memcpy_bytes-copy block m src dst size hb d a =
    copy_loop-copy_range 1 block size m src dst 0 size a hb (omega arith) (omega arith)
    ∙ ground arith
