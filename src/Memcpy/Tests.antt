-- ===== src/Memcpy/Tests.antt =====
-- The copies at concrete inputs.
use glm53flash_pp.Base.{◌+◌, ◌-◌, ◌≡◌, [], ◌∷◌, ◌&&◌, arith, inl, ltb, leb, if◌then◌else◌}
use glm53flash_pp.Memcpy.{Memory, memcpy_bytes, run_tiles}
use glm53flash_pp.Memcpy.Order.{run_tiles-copy}
use glm53flash_pp.Memcpy.Ranges.{memcpy_bytes-copy}

-- Each byte holds its address.
abbrev ramp : Memory
ramp a = a

-- 21 bytes from 3 to 103, two tiles of blocks of one word: a byte head, words, a byte tail.
run_tiles-copy_example :
    run_tiles 1 2 ramp 3 103 21 (1 ∷ 0 ∷ []) 110
    ≡ (if leb 103 110 && ltb 110 (103 + 21) then ramp (3 + (110 - 103)) else ramp 110)
run_tiles-copy_example =
    run_tiles-copy 1 2 ramp 3 103 21 (1 ∷ 0 ∷ []) (omega arith) (omega arith) (inl (omega arith))
      (λ t h. ground arith) 110

memcpy_bytes-copy_example :
    memcpy_bytes 4 ramp 3 103 10 112
    ≡ (if leb 103 112 && ltb 112 (103 + 10) then ramp (3 + (112 - 103)) else ramp 112)
memcpy_bytes-copy_example = memcpy_bytes-copy 4 ramp 3 103 10 (omega arith) (inl (omega arith)) 112
