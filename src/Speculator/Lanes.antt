-- ===== src/Speculator/Lanes.antt =====
-- vllm/v1/worker/gpu/spec_decode/autoregressive/speculator.py: what the block loops and the
-- launches of its kernels leave in a tensor.
use glm53flash_pp.Base.{
  ℕ, zero, suc, ◌+◌, min, ◌≤◌, ◌<◌, ◌≡◌, ◌≢◌, ap, ◌∙◌, ◌⊎◌, inl, inr, arith, ltb, leb, ◌&&◌,
  if◌then◌else◌,
}
use glm53flash_pp.Indexer.Metadata.{store_lanes}
use glm53flash_pp.Indexer.Rows.{store_loop-lanes}
use glm53flash_pp.Speculator.{Tensor, Buffers, store, store_range, launch}

pub store_self : (i p v : ℕ) (out : Tensor) → p ≡ i → store i v out p ≡ v
store_self i p v out e = ground arith

pub store_other : (i p v : ℕ) (out : Tensor) → p ≢ i → store i v out p ≡ out p
store_other i p v out e = ground arith

inside :
    (start len x v o : ℕ)
    → start ≤ x
    → x < start + len
    → (if leb (start + 0) x && ltb x (min (start + len) (start + len)) then v else o) ≡ v
inside start len x v o a b = ground arith

outside :
    (start len x v o : ℕ)
    → (x < start) ⊎ (start + len ≤ x)
    → (if leb (start + 0) x && ltb x (min (start + len) (start + len)) then v else o) ≡ o
outside start len x v o (inl a) = ground arith
outside start len x v o (inr a) = ground arith

pub store_range-inside :
    (block origin start len : ℕ) (value : ℕ → ℕ) (out : Tensor) (p : ℕ)
    → 0 < block
    → start ≤ p + origin
    → p + origin < start + len
    → store_range block origin start len value out p ≡ value (p + origin)
unfolding store_range store_lanes
store_range-inside block origin start len value out p h a b =
    store_loop-lanes len block origin (start + len) start 0 len value out p h (omega arith)
    ∙ inside start len (p + origin) (value (p + origin)) (out p) a b

pub store_range-outside :
    (block origin start len : ℕ) (value : ℕ → ℕ) (out : Tensor) (p : ℕ)
    → 0 < block
    → (p + origin < start) ⊎ (start + len ≤ p + origin)
    → store_range block origin start len value out p ≡ out p
unfolding store_range store_lanes
store_range-outside block origin start len value out p h a =
    store_loop-lanes len block origin (start + len) start 0 len value out p h (omega arith)
    ∙ outside start len (p + origin) (value (p + origin)) (out p) a

-- What each program of a launch keeps holds after the launch.
pub launch_induction :
    (P : ℕ → Buffers → Type 0) (program : Buffers → ℕ → Buffers) (n : ℕ) (b : Buffers)
    → P 0 b
    → ((k : ℕ) (c : Buffers) → k < n → P k c → P (suc k) (program c k))
    → P n (launch program n b)
unfolding launch
launch_induction P program zero b h step = h
launch_induction P program (suc n) b h step =
    step n (launch program n b) (omega arith)
      (launch_induction P program n b h (λ k c l. step k c (omega arith)))

-- the two for a tensor from offset 0 on
pub range_inside :
    (block start len : ℕ) (value : ℕ → ℕ) (out : Tensor) (p : ℕ)
    → 0 < block
    → start ≤ p
    → p < start + len
    → store_range block 0 start len value out p ≡ value p
range_inside block start len value out p h a b =
    let e : p + 0 ≡ p = omega arith in
    store_range-inside block 0 start len value out p h (omega arith) (omega arith) ∙ ap value e

pub range_outside :
    (block start len : ℕ) (value : ℕ → ℕ) (out : Tensor) (p : ℕ)
    → 0 < block
    → (p < start) ⊎ (start + len ≤ p)
    → store_range block 0 start len value out p ≡ out p
range_outside block start len value out p h (inl a) =
    store_range-outside block 0 start len value out p h (inl (omega arith))
range_outside block start len value out p h (inr a) =
    store_range-outside block 0 start len value out p h (inr (omega arith))
