-- ===== src/TailRing/Tests.antt =====
-- The tail ring at concrete inputs: pools of four tokens, an entry is a number, and the compressed
-- key of a pool is its list of entries.
use glm53flash_pp.Base.{
  ℕ, zero, suc, ◌+◌, ◌-◌, ◌*◌, ◌/◌, ◌%◌, ◌<◌, ◌≤◌, ◌≡◌, ◌≢◌, refl, some, List, [], ◌∷◌, ltb, ◌==◌,
  if◌then◌else◌, get_elem?, arith, ℤ, pos, negsuc, ◌⊎◌, inl, inr, minus_one, All, columns,
  get_elem?-columns, ap, ◌∙◌,
}
use native.Mathlib.Decide.{dec_lt}
use glm53flash_pp.TailRing.{
  Caches, decode_token, decode_request, decode_batch, kpool_seed_tail_cache,
}
use glm53flash_pp.TailRing.Decode.{Stream, Holds, pooled}
use glm53flash_pp.TailRing.Batch.{Job, AllSeparate, OwnLocs, Ready, run_jobs, decode_batch-pooled}
use glm53flash_pp.TailRing.Seed.{IsPrefill}
use glm53flash_pp.TailRing.Prefill.{IsLaunch, seed-Holds}
use glm53flash_pp.TailRing.Slots.{
  compute_kpool_tail_slot_mapping, circular_slots, build_slot_mapping,
}
use glm53flash_pp.TailRing.Mapping.{compute-build}

abbrev same_list : List ℕ → List ℕ
same_list xs = xs

-- A request whose token at position `p` is `100 + p`, in tail block 1; pool 1 goes to location 9.
abbrev one : Stream ℕ
one = record { block = 1; history = λ p. 100 + p; loc = λ p. if p == 7 then pos 9 else minus_one }

abbrev two : Stream ℕ
two = record { block = 3; history = λ p. 200 + p; loc = λ p. if p == 3 then pos 4 else minus_one }

-- The first has tokens 4 and 5 in the ring, the second none.
abbrev before : Caches ℕ (List ℕ)
before = record { tail = λ b s. if b == 1 then 104 + s else 0; cache = λ l. [] }

abbrev jobs : List (Job ℕ)
jobs =
    record { stream = two; first = 0; count = 2 }
    ∷ record { stream = one; first = 6; count = 3 }
    ∷ []

pool_written : (run_jobs same_list 4 before jobs).cache 9 ≡ 104 ∷ 105 ∷ 106 ∷ 107 ∷ []
unfolding decode_batch decode_request decode_token
pool_written = refl

two_one_apart : (p p' l : ℕ) → two.loc p ≡ pos l → one.loc p' ≢ pos l
two_one_apart p p' l a b = ground arith

one_before : (p : ℕ) → p < 6 → p / 4 ≡ 1 → 104 + p % 4 ≡ 100 + p
one_before p l e = omega arith

jobs-AllSeparate : AllSeparate jobs
jobs-AllSeparate =
    (((λ e. absurd (omega (arith, e)), λ p p' l a b. two_one_apart p p' l a b), tt), (tt, tt))

jobs-OwnLocs : All OwnLocs jobs
jobs-OwnLocs = (λ p p' l a b. ground arith, (λ p p' l a b. ground arith, tt))

jobs-Ready : All (Ready 4 before) jobs
jobs-Ready = (λ p l e. absurd (omega arith), (λ p l e. one_before p l e, tt))

decode_batch-pooled_example :
    ((run_jobs same_list 4 before jobs).cache 9 ≡ pooled same_list 4 one 7)
    × Holds 4 one 9 (run_jobs same_list 4 before jobs)
decode_batch-pooled_example =
    decode_batch-pooled same_list 4 jobs before 1 7 9 (omega arith) jobs-AllSeparate jobs-OwnLocs
      jobs-Ready refl (omega arith) (omega arith) refl refl

-- A prefill of six tokens of the first request, from position 4 on, two tokens of the second, and a padded
-- entry.
abbrev first_token : ℕ → ℕ
first_token zero = 0
first_token (suc zero) = 6
first_token (suc (suc r)) = 8

abbrev start_position : ℕ → ℕ
start_position zero = 4
start_position (suc r) = 0

abbrev own_tail : ℕ → ℕ
own_tail zero = 1
own_tail (suc r) = 3

abbrev slot_at : ℕ → ℤ
slot_at i =
    if ltb i 6
    then pos (4 + (4 + i) % 4)
    else (if ltb i 8 then pos (12 + (i - 6) % 4) else minus_one)

abbrev prefill_slots : List ℤ
prefill_slots = columns 9 slot_at

abbrev prefill_entry : ℕ → ℕ
prefill_entry i = if ltb i 6 then 104 + i else 200 + (i - 6)

slots_of_request :
    (r i : ℕ)
    → r < 2
    → first_token r ≤ i
    → i < first_token (suc r)
    → get_elem? prefill_slots i
      ≡ some (pos (own_tail r * 4 + (start_position r + (i - first_token r)) % 4))
slots_of_request zero i l a b =
    let e : slot_at i ≡ pos (1 * 4 + (4 + (i - 0)) % 4) = ground arith in
    get_elem?-columns 9 slot_at i (omega arith) ∙ ap some e
slots_of_request (suc zero) i l a b =
    let e : slot_at i ≡ pos (3 * 4 + (0 + (i - 6)) % 4) = ground arith in
    get_elem?-columns 9 slot_at i (omega arith) ∙ ap some e
slots_of_request (suc (suc r)) i l a b = absurd (omega arith)

owner_of_token :
    (i : ℕ)
    → i < 9
    → ((r : ℕ) × (r < 2) × (first_token r ≤ i) × (i < first_token (suc r)))
      ⊎ ((n : ℕ) × (get_elem? prefill_slots i ≡ some (negsuc n)))
owner_of_token i l = elim (dec_lt i 8) [
  | no padding ↦
      let e : slot_at i ≡ negsuc 0 = ground arith in
      inr (0, get_elem?-columns 9 slot_at i l ∙ ap some e)
  | yes token ↦ elim (dec_lt i 6) [
    | yes a ↦ inl (0, omega arith, omega arith, a)
    | no a ↦ inl (1, omega arith, omega arith, token)
  ]
]

own_blocks : (r r' : ℕ) → r < 2 → r' < 2 → own_tail r ≡ own_tail r' → r ≡ r'
own_blocks zero zero l l' e = refl
own_blocks zero (suc r') l l' e = absurd (omega (arith, e))
own_blocks (suc r) zero l l' e = absurd (omega (arith, e))
own_blocks (suc r) (suc r') l l' e = omega arith

slots-IsPrefill : IsPrefill 4 prefill_slots 2 first_token start_position own_tail
slots-IsPrefill = record { slots = slots_of_request; owner = owner_of_token; own = own_blocks }

-- The programs run in reverse.
abbrev reversed : List ℕ
reversed = columns 9 (λ i. 8 - i)

reversed-IsLaunch : IsLaunch prefill_slots reversed
reversed-IsLaunch = record {
  inside = (
    omega arith,
    (
      omega arith,
      (
        omega arith,
        (
          omega arith,
          (omega arith, (omega arith, (omega arith, (omega arith, (omega arith, tt))))),
        ),
      ),
    ),
  );
  complete = λ i l.
      (8 - i, get_elem?-columns 9 (λ k. 8 - k) (8 - i) (omega arith) ∙ ap some (omega arith));
}

prefill_history : (k : ℕ) → 0 ≤ k → k < 6 → prefill_entry k ≡ 100 + (4 + (k - 0))
prefill_history k a b = ground arith

seed-Holds_example : Holds 4 one 10 (record before {
  tail = kpool_seed_tail_cache 4 prefill_slots prefill_entry before.tail reversed;
})
seed-Holds_example =
    seed-Holds 4 prefill_slots 2 first_token start_position own_tail one prefill_entry 0 reversed
      before slots-IsPrefill reversed-IsLaunch (omega arith) (omega arith) (omega arith) refl
      prefill_history (λ p l e. absurd (omega arith))

-- Three requests of two, no and three tokens, with tail blocks 5, 6 and 2.
abbrev some_mapping : List ℤ
some_mapping = minus_one ∷ minus_one ∷ minus_one ∷ minus_one ∷ minus_one ∷ []

slots_computed :
    compute_kpool_tail_slot_mapping some_mapping
      (5 ∷ 6 ∷ 2 ∷ [])
      (0 ∷ 2 ∷ 2 ∷ 5 ∷ [])
      (3 ∷ 4 ∷ 8 ∷ 9 ∷ 10 ∷ [])
      5
      4
    ≡ some (pos 23 ∷ pos 20 ∷ pos 8 ∷ pos 9 ∷ pos 10 ∷ [])
unfolding compute_kpool_tail_slot_mapping circular_slots
slots_computed = refl

compute-build_example :
    (slots : List ℤ) × (build_slot_mapping
        (5 ∷ 6 ∷ 2 ∷ [])
        (0 ∷ 2 ∷ 2 ∷ 5 ∷ [])
        (3 ∷ 4 ∷ 8 ∷ 9 ∷ 10 ∷ [])
        4
      ≡ some slots)
    × (compute_kpool_tail_slot_mapping some_mapping
          (5 ∷ 6 ∷ 2 ∷ [])
          (0 ∷ 2 ∷ 2 ∷ 5 ∷ [])
          (3 ∷ 4 ∷ 8 ∷ 9 ∷ 10 ∷ [])
          5
          4
        ≡ some slots)
compute-build_example =
    compute-build some_mapping (5 ∷ 6 ∷ 2 ∷ []) (2 ∷ 0 ∷ 3 ∷ []) (3 ∷ 4 ∷ 8 ∷ 9 ∷ 10 ∷ []) 4 refl
      (omega arith) refl
