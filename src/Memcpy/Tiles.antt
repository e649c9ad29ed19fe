-- ===== src/Memcpy/Tiles.antt =====
-- What one tile of `_memcpy_u64_tiled` writes: exactly the bytes that it owns.
use mathlib.Core.Path.{fun_ext}
use glm53flash_pp.Base.{
  ℕ, ◌+◌, ◌-◌, ◌*◌, ◌/◌, min, ◌≤◌, ◌<◌, ◌≡◌, ap, inl, inr, ◌∙◌, arith, Bool, false, ltb, leb, ◌==◌,
  ◌&&◌, ◌||◌, if◌then◌else◌, Bool-cases,
}
use Prim.Native.Nat.{bit_and, bit_xor}
use glm53flash_pp.Memcpy.{
  Memory, copy_range, copy_tile, head_bytes, tile_start, tile_end, memcpy_fast, memcpy_u64_tiled,
}
use glm53flash_pp.Memcpy.Ranges.{Disjoint, copy_loop-copy_range}

-- Byte `k` of the copy belongs to the tile.
abbrev pub owns_fast : ℕ → ℕ → ℕ → ℕ → ℕ → ℕ → Bool
owns_fast block tiles dst size tile k =
    let head = head_bytes dst size in
    let body = (size - head) / 8 in
    ((leb (head + 8 * tile_start block tiles body tile) k
        && ltb k (head + 8 * tile_end block tiles body tile))
      || ((tile == 0) && ltb k head))
    || ((tile == 0) && leb (head + body * 8) k)

abbrev pub owns_slow : ℕ → ℕ → ℕ → ℕ → ℕ → Bool
owns_slow block tiles size tile k =
    leb (tile_start block tiles size tile) k && ltb k (tile_end block tiles size tile)

abbrev pub owns : ℕ → ℕ → ℕ → ℕ → ℕ → ℕ → ℕ → Bool
owns block tiles src dst size tile k =
    if bit_and (bit_xor src dst) 7 == 0
    then owns_fast block tiles dst size tile k
    else owns_slow block tiles size tile k

-- The memory after the owned bytes of the destination are written.
abbrev pub written : Memory → ℕ → ℕ → ℕ → (ℕ → Bool) → Memory
written m src dst size own a =
    if (leb dst a && ltb a (dst + size)) && own (a - dst) then m (src + (a - dst)) else m a

one_range :
    (m : Memory) (src dst s e size a : ℕ)
    → e ≤ size
    → copy_range m src dst (1 * s) (1 * e) a ≡ written m src dst size (λ k. leb s k && ltb k e) a
unfolding copy_range
one_range m src dst s e size a h = ground arith

two_ranges :
    (m : Memory) (src dst h lo hi size a : ℕ)
    → Disjoint src dst size
    → h + hi ≤ size
    → h ≤ size
    → copy_range (copy_range m src dst 0 h) (src + h) (dst + h) lo hi a
      ≡ written m src dst size (λ k. (leb (h + lo) k && ltb k (h + hi)) || ltb k h) a
unfolding copy_range
two_ranges m src dst h lo hi size a d p q = ground arith

-- The tail joins whatever was written before, whose source is untouched.
add_tail :
    (m : Memory) (src dst t size a : ℕ) (own : ℕ → Bool)
    → Disjoint src dst size
    → t ≤ size
    → copy_range (written m src dst size own) (src + t) (dst + t) 0 (size - t) a
      ≡ written m src dst size (λ k. own k || leb t k) a
unfolding copy_range
add_tail m src dst t size a own d p = ground arith

three_ranges :
    (m : Memory) (src dst h lo hi t size a : ℕ)
    → Disjoint src dst size
    → (h ≤ t) × (h + hi ≤ t) × (t ≤ size)
    → copy_range
        (copy_range (copy_range m src dst 0 h) (src + h) (dst + h) lo hi)
        (src + t)
        (dst + t)
        0
        (size - t)
        a
      ≡ written m src dst size (λ k. ((leb (h + lo) k && ltb k (h + hi)) || ltb k h) || leb t k) a
three_ranges m src dst h lo hi t size a d (p, q, r) =
    ap (λ f. copy_range f (src + t) (dst + t) 0 (size - t) a)
      (fun_ext (λ x. two_ranges m src dst h lo hi size x d (omega arith) (omega arith)))
    ∙ add_tail m src dst t size a (λ k. (leb (h + lo) k && ltb k (h + hi)) || ltb k h) d r

middle_range :
    (m : Memory) (src dst h lo hi size a : ℕ)
    → h + hi ≤ size
    → copy_range m (src + h) (dst + h) lo hi a
      ≡ written m src dst size (λ k. ((leb (h + lo) k && ltb k (h + hi)) || false) || false) a
unfolding copy_range
middle_range m src dst h lo hi size a q = ground arith

slow_lem :
    (block tiles : ℕ) (m : Memory) (src dst size tile a : ℕ)
    → 0 < block
    → Disjoint src dst size
    → copy_tile 1 block tiles m src dst size tile a
      ≡ written m src dst size (owns_slow block tiles size tile) a
unfolding copy_tile copy_range
slow_lem block tiles m src dst size tile a b d =
    let s = tile_start block tiles size tile in
    let e = tile_end block tiles size tile in
    let loop = copy_loop-copy_range 1 block size m src dst s e a b (omega arith) (omega arith) in
    loop ∙ one_range m src dst s e size a (omega arith)

words_lem :
    (block tiles : ℕ) (m : Memory) (src dst total tile a : ℕ)
    → 0 < block
    → Disjoint src dst (8 * total)
    → copy_tile 8 block tiles m src dst total tile a
      ≡ copy_range m src dst
          (8 * tile_start block tiles total tile)
          (8 * tile_end block tiles total tile)
          a
unfolding copy_tile
words_lem block tiles m src dst total tile a b d =
    copy_loop-copy_range 8 block total m src dst (tile_start block tiles total tile)
      (tile_end block tiles total tile) a b (omega arith) (omega arith)

head_small : (dst size : ℕ) → (head_bytes dst size ≤ 7) × (head_bytes dst size ≤ size)
unfolding head_bytes
head_small dst size = omega arith

fast_lem :
    (block tiles : ℕ) (m : Memory) (src dst size tile a : ℕ)
    → 0 < block
    → Disjoint src dst size
    → memcpy_fast block tiles m src dst size tile a
      ≡ written m src dst size (owns_fast block tiles dst size tile) a
unfolding memcpy_fast
fast_lem block tiles m src dst size tile a b d =
    let h = head_bytes dst size in
    let body = (size - h) / 8 in
    let t = h + body * 8 in
    let lo = 8 * tile_start block tiles body tile in
    let hi = 8 * tile_end block tiles body tile in
    let (h7, hs) = head_small dst size in
    let e₁ : min 8 h ≡ h = omega arith in
    let e₂ : min 8 (size - t) ≡ size - t = omega arith in
    let words = λ (f : Memory) (x : ℕ).
      words_lem block tiles f (src + h) (dst + h) body tile x b (omega arith) in
    elim (Bool-cases (tile == 0)) [
      | inl first ↦
          rw (first, e₁, e₂, fun_ext (words (copy_range m src dst 0 h)))
            (three_ranges m src dst h lo hi t size a d (omega arith))
      | inr other ↦
          rw (other, fun_ext (words m)) (middle_range m src dst h lo hi size a (omega arith))
    ]

-- A tile writes exactly the bytes that it owns, each from its place in the source.
pub memcpy_u64_tiled-written :
    (block tiles : ℕ) (m : Memory) (src dst size tile a : ℕ)
    → 0 < block
    → Disjoint src dst size
    → memcpy_u64_tiled block tiles m src dst size tile a
      ≡ written m src dst size (owns block tiles src dst size tile) a
unfolding memcpy_u64_tiled
memcpy_u64_tiled-written block tiles m src dst size tile a b d =
    elim (Bool-cases (bit_and (bit_xor src dst) 7 == 0)) [
      | inl aligned ↦ rw aligned (fast_lem block tiles m src dst size tile a b d)
      | inr mixed ↦ rw mixed (slow_lem block tiles m src dst size tile a b d)
    ]
