-- ===== src/Mamba/Shift.antt =====
-- What the copy of a state block leaves in memory.
use glm53flash_pp.Base.{
  ℕ, ◌+◌, ◌-◌, ◌*◌, ◌≤◌, ◌<◌, ◌≡◌, ◌≢◌, refl, sym, ap, ◌∙◌, inl, inr, List, [], ◌∷◌, true, false,
  arith, ltb, leb, ◌&&◌, if◌then◌else◌, Bool-cases, lt→ltb, subst,
}
use native.Mathlib.Nat.{mul-le-mul_right, add-mul, add-sub_of_le}
use native.Mathlib.Decide.{dec_lt}
use glm53flash_pp.Memcpy.{Memory, memcpy_u64_tiled, run_tiles}
use glm53flash_pp.Memcpy.Ranges.{Disjoint}
use glm53flash_pp.Memcpy.Order.{run_tiles-copy, mem}
use glm53flash_pp.Mamba.Block.{StateMeta, Launch, block_addr, copy_mamba_state_block, run_block}

-- `size` bytes inside one block, from `offset` on, do not meet those at the start of another.
blocks-Disjoint :
    (s : StateMeta) (i j offset size : ℕ)
    → i ≢ j
    → offset + size ≤ s.block_stride
    → Disjoint (block_addr s i + offset) (block_addr s j) size
blocks-Disjoint s i j offset size ne fits = elim (dec_lt i j) [
  | yes below ↦
      inl (omega (arith, mul-le-mul_right {m = i + 1} {n = j} s.block_stride (omega arith)))
  | no above ↦
      inr (omega (arith, mul-le-mul_right {m = j + 1} {n = i} s.block_stride (omega arith)))
]

one_temporal :
    (l : Launch) (s : StateMeta) (table : ℕ → ℕ) (m : Memory) (src_col dst_col bias t : ℕ)
    → s.conv_width ≡ 0
    → copy_mamba_state_block l s table m src_col dst_col bias t
      ≡ memcpy_u64_tiled l.copy_block l.temporal_tiles m
          (block_addr s (table (src_col + bias)))
          (block_addr s (table dst_col))
          (s.inner_size * s.elem_size)
          t
unfolding copy_mamba_state_block
one_temporal l s table m src_col dst_col bias t e =
    let flat : ltb 0 s.conv_width ≡ false = ground arith in simp flat

temporal-run_tiles :
    (l : Launch) (s : StateMeta) (table : ℕ → ℕ) (m : Memory) (src_col dst_col bias : ℕ)
    (order : List ℕ)
    → s.conv_width ≡ 0
    → run_block l s table m src_col dst_col bias order
      ≡ run_tiles l.copy_block l.temporal_tiles m
          (block_addr s (table (src_col + bias)))
          (block_addr s (table dst_col))
          (s.inner_size * s.elem_size)
          order
unfolding run_block run_tiles
temporal-run_tiles l s table m src_col dst_col bias [] e = refl
temporal-run_tiles l s table m src_col dst_col bias (t ∷ ts) e =
    temporal-run_tiles l s table (copy_mamba_state_block l s table m src_col dst_col bias t) src_col
      dst_col bias ts e
    ∙ ap
        (λ f.
          run_tiles l.copy_block l.temporal_tiles f (block_addr s (table (src_col + bias)))
            (block_addr s (table dst_col)) (s.inner_size * s.elem_size) ts)
        (one_temporal l s table m src_col dst_col bias t e)

-- A temporal state moves whole: after a launch over all tiles, in any order, the destination
-- block holds the state of the block `token_bias` columns after the source column, and no other
-- byte has changed. The two blocks differ, and a state fits in its block.
pub run_block_temporal :
    (l : Launch) (s : StateMeta) (table : ℕ → ℕ) (m : Memory) (src_col dst_col bias : ℕ)
    (order : List ℕ)
    → s.conv_width ≡ 0
    → (0 < l.copy_block) × (0 < l.temporal_tiles)
    → s.inner_size * s.elem_size ≤ s.block_stride
    → table (src_col + bias) ≢ table dst_col
    → ((t : ℕ) → t < l.temporal_tiles → mem t order ≡ true)
    → (a : ℕ)
    → let size = s.inner_size * s.elem_size in
      let dst = block_addr s (table dst_col) in
      run_block l s table m src_col dst_col bias order a ≡ (
        if leb dst a && ltb a (dst + size)
        then m (block_addr s (table (src_col + bias)) + (a - dst))
        else m a)
run_block_temporal l s table m src_col dst_col bias order e (hb, ht) fits ne all a =
    let size = s.inner_size * s.elem_size in
    let i = table (src_col + bias) in
    let j = table dst_col in
    let zero_offset : block_addr s i + 0 ≡ block_addr s i = omega arith in
    let d : Disjoint (block_addr s i) (block_addr s j) size =
      rw zero_offset at (blocks-Disjoint s i j 0 size ne (omega arith)) in
    ap (λ (f : Memory). f a) (temporal-run_tiles l s table m src_col dst_col bias order e)
    ∙ run_tiles-copy l.copy_block l.temporal_tiles m (block_addr s i) (block_addr s j) size order hb
        ht d all a

-- Tiles other than 0 leave a convolution window alone.
abbrev zeros : List ℕ → List ℕ
zeros [] = []
zeros (t ∷ ts) = if ltb 0 t then zeros ts else t ∷ zeros ts

mem-zeros : (order : List ℕ) → mem 0 order ≡ true → mem 0 (zeros order) ≡ true
mem-zeros [] h = h
mem-zeros (t ∷ ts) h = ground (arith, mem-zeros ts)

conv-run_tiles :
    (l : Launch) (s : StateMeta) (table : ℕ → ℕ) (m : Memory) (src_col dst_col bias : ℕ)
    (order : List ℕ)
    → ltb 0 s.conv_width ≡ true
    → l.conv_dim_first ≡ false
    → run_block l s table m src_col dst_col bias order
      ≡ run_tiles l.copy_block 1 m
          (block_addr s (table src_col) + bias * s.inner_size * s.elem_size)
          (block_addr s (table dst_col))
          ((s.conv_width - bias) * s.inner_size * s.elem_size)
          (zeros order)
unfolding run_block run_tiles copy_mamba_state_block
conv-run_tiles l s table m src_col dst_col bias [] e f = refl
conv-run_tiles l s table m src_col dst_col bias (t ∷ ts) e f = elim (Bool-cases (ltb 0 t)) [
  | inl higher ↦ simp (e, f, higher) (conv-run_tiles l s table m src_col dst_col bias ts e f)
  | inr first ↦
      simp (e, f, first)
        (conv-run_tiles l s table
          (memcpy_u64_tiled l.copy_block 1 m
            (block_addr s (table src_col) + bias * s.inner_size * s.elem_size)
            (block_addr s (table dst_col)) ((s.conv_width - bias) * s.inner_size * s.elem_size) t)
          src_col dst_col bias ts e f)
]

split_width : (w b x y : ℕ) → b ≤ w → b * x * y + (w - b) * x * y ≡ w * x * y
split_width w b x y h =
    sym (add-mul (b * x) ((w - b) * x) y)
    ∙ ap (λ k. k * y) (sym (add-mul b (w - b) x))
    ∙ ap (λ k. k * x * y) (add-sub_of_le h)

-- A convolution window, kept with its state dimension last, slides by `token_bias` columns: after
-- the launch column `k` of the destination window is column `token_bias + k` of the source, for
-- the columns that are left, and no other byte has changed. The two blocks differ, the source
-- window fits in its block, and tile 0 runs.
pub run_block_conv :
    (l : Launch) (s : StateMeta) (table : ℕ → ℕ) (m : Memory) (src_col dst_col bias : ℕ)
    (order : List ℕ)
    → (0 < s.conv_width) × (l.conv_dim_first ≡ false) × (0 < l.copy_block)
    → bias ≤ s.conv_width
    → s.conv_width * s.inner_size * s.elem_size ≤ s.block_stride
    → table src_col ≢ table dst_col
    → mem 0 order ≡ true
    → (a : ℕ)
    → let size = (s.conv_width - bias) * s.inner_size * s.elem_size in
      let dst = block_addr s (table dst_col) in
      run_block l s table m src_col dst_col bias order a ≡ (
        if leb dst a && ltb a (dst + size)
        then m (block_addr s (table src_col) + bias * s.inner_size * s.elem_size + (a - dst))
        else m a)
run_block_conv l s table m src_col dst_col bias order (w, f, hb) le fits ne zero_runs a =
    let offset = bias * s.inner_size * s.elem_size in
    let size = (s.conv_width - bias) * s.inner_size * s.elem_size in
    let i = table src_col in
    let j = table dst_col in
    let whole : offset + size ≡ s.conv_width * s.inner_size * s.elem_size =
      split_width s.conv_width bias s.inner_size s.elem_size le in
    let d = blocks-Disjoint s i j offset size ne (omega arith) in
    ap (λ (g : Memory). g a)
      (conv-run_tiles l s table m src_col dst_col bias order (lt→ltb 0 s.conv_width w) f)
    ∙ run_tiles-copy l.copy_block 1 m (block_addr s i + offset) (block_addr s j) size (zeros order)
        hb (omega arith) d
        (λ t h.
          let e : t ≡ 0 = omega arith in
          subst (λ k. mem k (zeros order) ≡ true) (sym e) (mem-zeros order zero_runs))
        a
