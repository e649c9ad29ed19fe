-- ===== src/Memcpy.antt =====
-- vllm/v1/worker/mamba_utils.py: the tiled copy `_memcpy_u64_tiled` and the byte loop of
-- `batch_memcpy_kernel`. Memory is a function from addresses to bytes; a masked vector load and
-- store is the copy of the range of bytes whose lanes are not masked.
pub mod Ranges
pub mod Tiles
pub mod Order
pub mod Tests
use Prim.Native.Nat.{bit_and, bit_xor}
use glm53flash_pp.Base.{
  ℕ, zero, suc, ◌+◌, ◌-◌, ◌*◌, ◌/◌, ◌%◌, min, List, [], ◌∷◌, ◌&&◌, ltb, leb, ◌==◌, if◌then◌else◌,
}

abbrev pub Memory : Type 0
Memory = ℕ → ℕ

-- Loads the bytes `lo` to `hi` from `src` on, and stores them from `dst` on.
unfoldable pub copy_range : Memory → ℕ → ℕ → ℕ → ℕ → Memory
copy_range m src dst lo hi a =
    if leb (dst + lo) a && ltb a (dst + hi) then m (src + (a - dst)) else m a

abbrev pub cdiv : ℕ → ℕ → ℕ
cdiv a b = (a + b - 1) / b

-- `for i in range(start, end, block)`: the lanes `i + arange(0, block)` below `end`, each `width`
-- bytes wide. The fuel is the number of rounds left.
unfoldable pub copy_loop : ℕ → ℕ → ℕ → Memory → ℕ → ℕ → ℕ → ℕ → Memory
copy_loop width block zero m src dst i end = m
copy_loop width block (suc fuel) m src dst i end =
    let rest =
      copy_loop width block fuel (copy_range m src dst (width * i) (width * min (i + block) end))
        src dst (i + block) end in
    if ltb i end then rest else m

-- `batch_memcpy_kernel`, the program of one entry.
unfoldable pub memcpy_bytes : ℕ → Memory → ℕ → ℕ → ℕ → Memory
memcpy_bytes block m src dst size = copy_loop 1 block size m src dst 0 size

unfoldable pub head_bytes : ℕ → ℕ → ℕ
head_bytes dst size = min ((8 - dst % 8) % 8) size

-- The first unit of a tile and the end of it, over `total` units.
abbrev pub per_tile : ℕ → ℕ → ℕ → ℕ
per_tile block tiles total = cdiv (cdiv total tiles) block * block

abbrev pub tile_start : ℕ → ℕ → ℕ → ℕ → ℕ
tile_start block tiles total tile = tile * per_tile block tiles total

abbrev pub tile_end : ℕ → ℕ → ℕ → ℕ → ℕ
tile_end block tiles total tile =
    min (tile_start block tiles total tile + per_tile block tiles total) total

-- One tile's share of `total` units of `width` bytes.
unfoldable pub copy_tile : ℕ → ℕ → ℕ → Memory → ℕ → ℕ → ℕ → ℕ → Memory
copy_tile width block tiles m src dst total tile =
    copy_loop width block total m src dst (tile_start block tiles total tile)
      (tile_end block tiles total tile)

-- The fast path: byte head and tail on tile 0, words between.
unfoldable pub memcpy_fast : ℕ → ℕ → Memory → ℕ → ℕ → ℕ → ℕ → Memory
memcpy_fast block tiles m src dst size tile =
    let head = head_bytes dst size in
    let body = (size - head) / 8 in
    let tail_start = head + body * 8 in
    let m₁ = if tile == 0 then copy_range m src dst 0 (min 8 head) else m in
    let m₂ = copy_tile 8 block tiles m₁ (src + head) (dst + head) body tile in
    if tile == 0
    then copy_range m₂ (src + tail_start) (dst + tail_start) 0 (min 8 (size - tail_start))
    else m₂

unfoldable pub memcpy_u64_tiled : ℕ → ℕ → Memory → ℕ → ℕ → ℕ → ℕ → Memory
memcpy_u64_tiled block tiles m src dst size tile =
    if bit_and (bit_xor src dst) 7 == 0
    then memcpy_fast block tiles m src dst size tile
    else copy_tile 1 block tiles m src dst size tile

-- The tiles of one launch, in the order in which they happen to run.
unfoldable pub run_tiles : ℕ → ℕ → Memory → ℕ → ℕ → ℕ → List ℕ → Memory
run_tiles block tiles m src dst size [] = m
run_tiles block tiles m src dst size (t ∷ ts) =
    run_tiles block tiles (memcpy_u64_tiled block tiles m src dst size t) src dst size ts
