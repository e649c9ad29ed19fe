-- ===== src/Worker/Sleep/Poll.antt =====
-- serve/morrowmake/overlay/v1/worker/gpu_worker.py: the loop of `Worker.sleep` that waits for the
-- device to free its memory.
use glm53flash_pp.Base.{
  ℕ, zero, suc, ◌+◌, ◌*◌, ◌≤◌, Option, none, some, Bool, true, ◌||◌, ◌≡◌, ◌≢◌, subst, ◌⊎◌, arith,
  ◌==◌, leb, le→leb, if◌then◌else◌, Bool-cases, Option-cases, if_none, inl, inr,
}
use glm53flash_pp.Worker.Sleep.{
  Worker, Readings, Backend, still_polling, retention_unmatched, save_sleep_parameters,
  save_buffers, deadline, poll, poll_fuel, suspend, sleep,
}

zero_add : (k : ℕ) → 0 + k ≡ k
zero_add k = omega arith

shift : (n k : ℕ) → suc n + k ≡ n + (k + 1)
shift n k = omega arith

-- A round whose clock is past the deadline ends the loop.
stops :
    (a b : Bool) (x : ℕ) {rest : Option ℕ}
    → (b ≡ true) ⊎ (rest ≢ none)
    → (if a || b then some x else rest) ≢ none
stops a b x h = ground arith

poll_ends :
    (r : Readings) (n k : ℕ)
    → leb (deadline r) (r.monotonic (n + k)) ≡ true
    → poll r (suc n) k ≢ none
unfolding poll
poll_ends r zero k h =
    stops _ _ _ (inl (subst (λ j. leb (deadline r) (r.monotonic j) ≡ true) (zero_add k) h))
poll_ends r (suc n) k h =
    stops (leb r.free_bytes_before_sleep (r.free_bytes k)) (leb (deadline r) (r.monotonic k))
      (r.free_bytes k)
      (inr (
        poll_ends r n (k + 1) (subst (λ j. leb (deadline r) (r.monotonic j) ≡ true) (shift n k) h)))

-- the clock of round 50 is past a deadline of 5000 ms
deadline_passed : (r : Readings) → r.clock + 5000 ≤ r.monotonic 50 → deadline r ≤ r.monotonic 50
deadline_passed r h = ground arith

poll_total :
    (r : Readings) → ((k : ℕ) → r.clock + 100 * k ≤ r.monotonic k) → poll r poll_fuel 0 ≢ none
poll_total r h = poll_ends r 50 0 (le→leb _ _ (deadline_passed r (h 50)))

module _ {T : Type 0} (backend : Backend T) where
  suspend_returns :
      (r : Readings) (level : ℕ) (w : Worker T)
      → poll r poll_fuel 0 ≢ none
      → (suspend backend r level w).1 ≢ some still_polling
  unfolding suspend
  suspend_returns r level w h = ground arith

  saved_returns :
      (r : Readings) (level : ℕ) (w : Worker T)
      → poll r poll_fuel 0 ≢ none
      → (if_none
          (save_sleep_parameters backend w)
          (w, some retention_unmatched)
          (λ w'. suspend backend r level (save_buffers backend w'))).1
        ≢ some still_polling
  saved_returns r level w h = elim (Option-cases (save_sleep_parameters backend w)) [
    | inl q ↦ rw q (ground arith)
    | inr (w', q) ↦ rw q (suspend_returns r level (save_buffers backend w') h)
  ]

  -- `sleep` returns or raises: the clock moves on by the 100 ms that each round sleeps, so the loop
  -- is left within 51 rounds, whether or not the memory is freed.
  pub sleep_returns :
      (r : Readings) (level : ℕ) (w : Worker T)
      → ((k : ℕ) → r.clock + 100 * k ≤ r.monotonic k)
      → (sleep backend r level w).1 ≢ some still_polling
  unfolding sleep
  sleep_returns r level w h =
      let total = poll_total r h in
      elim (Bool-cases (level == 2)) [
        | inl e ↦ rw e (saved_returns r level w total)
        | inr e ↦ rw e (suspend_returns r level w total)
      ]
