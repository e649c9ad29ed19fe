-- ===== src/TailRing/Mapping.antt =====
-- The two ways to compute the circular slot mapping agree.
use glm53flash_pp.Base.{
  ℕ, zero, suc, ◌+◌, ◌-◌, ◌*◌, ◌%◌, min, ◌≤◌, ◌<◌, ◌≡◌, refl, sym, ap, subst, ◌∙◌, Option, none,
  some, ◌>>=◌, List, [], ◌∷◌, ◌++◌, true, false, arith, leb, ◌==◌, Bool-cases, inl, inr,
  if◌then◌else◌, length, take, drop, replicate, get_elem?, length-take, length-append,
  length-replicate, get_elem?-append_left, get_elem?-append_right, get_elem?-lt, get_elem?-total, ℤ,
  pos,
}
use native.Mathlib.Decide.{dec_lt}
use glm53flash_pp.TailRing.Slots.{
  searchsorted_right, circular_slots, compute_kpool_tail_slot_mapping, differences,
  repeat_interleave, slots_of_blocks, build_slot_mapping,
}

-- The starts of requests of the given lengths, from `s` on, with the end.
abbrev pub starts : ℕ → List ℕ → List ℕ
starts s [] = s ∷ []
starts s (n ∷ ns) = s ∷ starts (s + n) ns

abbrev pub total : List ℕ → ℕ
total [] = 0
total (n ∷ ns) = n + total ns

differences-starts : (s : ℕ) (ns : List ℕ) → differences (starts s ns) ≡ ns
differences-starts s [] = refl
differences-starts s (n ∷ []) = ap (λ x. x ∷ []) (omega arith)
differences-starts s (n ∷ m ∷ ns) =
    let d : s + n - s ≡ n = omega arith in
    rw d (ap (λ xs. n ∷ xs) (differences-starts (s + n) (m ∷ ns)))

-- The blocks that `repeat_interleave` gives, one for each token.
abbrev pub expanded : {A : Type 0} → List A → List ℕ → List A
expanded [] ns = []
expanded (b ∷ bs) [] = []
expanded (b ∷ bs) (n ∷ ns) = replicate n b ++ expanded bs ns

pub repeat_interleave-expanded :
    {A : Type 0} (bs : List A) (ns : List ℕ)
    → length bs ≡ length ns
    → repeat_interleave bs ns ≡ some (expanded bs ns)
repeat_interleave-expanded [] [] h = refl
repeat_interleave-expanded [] (n ∷ ns) h = absurd (omega arith)
repeat_interleave-expanded (b ∷ bs) [] h = absurd (omega arith)
repeat_interleave-expanded (b ∷ bs) (n ∷ ns) h =
    rw (repeat_interleave-expanded bs ns (omega arith)) refl

pub length-expanded :
    {A : Type 0} (bs : List A) (ns : List ℕ)
    → length bs ≡ length ns
    → length (expanded bs ns) ≡ total ns
length-expanded [] [] h = refl
length-expanded [] (n ∷ ns) h = absurd (omega arith)
length-expanded (b ∷ bs) [] h = absurd (omega arith)
length-expanded (b ∷ bs) (n ∷ ns) h = omega (
  arith,
  length-append (replicate n b) (expanded bs ns),
  length-replicate n b,
  length-expanded bs ns (omega arith),
)

pub get_elem?-replicate :
    {A : Type 0} (n : ℕ) (b : A) (i : ℕ) → i < n → get_elem? (replicate n b) i ≡ some b
get_elem?-replicate zero b i h = absurd (omega arith)
get_elem?-replicate (suc n) b zero h = refl
get_elem?-replicate (suc n) b (suc i) h = get_elem?-replicate n b i (omega arith)

get_elem?-take : (n : ℕ) (xs : List ℕ) (i : ℕ) → i < n → get_elem? (take n xs) i ≡ get_elem? xs i
get_elem?-take zero xs i h = absurd (omega arith)
get_elem?-take (suc n) [] i h = refl
get_elem?-take (suc n) (x ∷ xs) zero h = refl
get_elem?-take (suc n) (x ∷ xs) (suc i) h = get_elem?-take n xs i (omega arith)

-- At or after the first start.
searchsorted-starts : (s : ℕ) (ns : List ℕ) (v : ℕ) → s ≤ v → 0 < searchsorted_right (starts s ns) v
searchsorted-starts s [] v h = let b : leb s v ≡ true = ground arith in rw b (omega arith)
searchsorted-starts s (n ∷ ns) v h = let b : leb s v ≡ true = ground arith in rw b (omega arith)

-- Before the first start.
searchsorted_before : (s : ℕ) (ns : List ℕ) (v : ℕ) → v < s → searchsorted_right (starts s ns) v ≡ 0
searchsorted_before s [] v h = let b : leb s v ≡ false = ground arith in rw b refl
searchsorted_before s (n ∷ ns) v h = let b : leb s v ≡ false = ground arith in rw b refl

get_suc : (b : ℕ) (bs : List ℕ) (k : ℕ) → 0 < k → get_elem? (b ∷ bs) k ≡ get_elem? bs (k - 1)
get_suc b bs zero h = absurd (omega arith)
get_suc b bs (suc k) h = ap (get_elem? bs) (omega arith)

-- The request that the search finds for a token owns the block that stands there.
get_elem?-expanded :
    (s : ℕ) (bs ns : List ℕ) (i v : ℕ)
    → length bs ≡ length ns
    → i < total ns
    → v ≡ s + i
    → get_elem? bs (searchsorted_right (starts s ns) v - 1) ≡ get_elem? (expanded bs ns) i
get_elem?-expanded s [] [] i v h l e = absurd (omega arith)
get_elem?-expanded s [] (n ∷ ns) i v h l e = absurd (omega arith)
get_elem?-expanded s (b ∷ bs) [] i v h l e = absurd (omega arith)
get_elem?-expanded s (b ∷ bs) (n ∷ ns) i v h l e =
    let here : leb s v ≡ true = ground arith in
    let k = searchsorted_right (starts (s + n) ns) v in
    let one : suc k - 1 ≡ k = omega arith in
    elim (dec_lt i n) [
      | yes first ↦
          let none_left = searchsorted_before (s + n) ns v (omega arith) in
          rw (here, one, none_left)
            (sym (
              get_elem?-append_left (replicate n b) (expanded bs ns) i
                (omega (arith, length-replicate n b))
              ∙ get_elem?-replicate n b i first))
      | no later ↦
          let some_left = searchsorted-starts (s + n) ns v (omega arith) in
          rw (here, one)
            (get_suc b bs k some_left
              ∙ get_elem?-expanded (s + n) bs ns (i - n) v (omega arith) (omega arith) (omega arith)
              ∙ sym (
                  get_elem?-append_right (replicate n b) (expanded bs ns) i (i - n)
                    (omega (arith, length-replicate n b))))
    ]

circular_slots-blocks :
    (kpool : ℕ) (own qsl positions : List ℕ) (i n : ℕ) (bl ps : List ℕ)
    → length bl ≡ n
    → length ps ≡ n
    → ((k : ℕ)
        → k < n
        → get_elem? own (min (searchsorted_right qsl (i + k) - 1) (length own - 1))
          ≡ get_elem? bl k)
    → ((k : ℕ) → k < n → get_elem? positions (i + k) ≡ get_elem? ps k)
    → circular_slots kpool own qsl positions i n ≡ slots_of_blocks kpool bl ps
unfolding circular_slots slots_of_blocks
circular_slots-blocks kpool own qsl positions i zero [] [] a b f g = refl
circular_slots-blocks kpool own qsl positions i zero (x ∷ bl) ps a b f g = absurd (omega arith)
circular_slots-blocks kpool own qsl positions i zero [] (p ∷ ps) a b f g = absurd (omega arith)
circular_slots-blocks kpool own qsl positions i (suc n) [] ps a b f g = absurd (omega arith)
circular_slots-blocks kpool own qsl positions i (suc n) (x ∷ bl) [] a b f g = absurd (omega arith)
circular_slots-blocks kpool own qsl positions i (suc n) (x ∷ bl) (p ∷ ps) a b f g =
    let z : i + 0 ≡ i = omega arith in
    let shift : (k : ℕ) → suc i + k ≡ i + suc k = λ k. omega arith in
    let block : get_elem? own (min (searchsorted_right qsl i - 1) (length own - 1)) ≡ some x =
      subst (λ y. get_elem? own (min (searchsorted_right qsl y - 1) (length own - 1)) ≡ some x) z
        (f 0 (omega arith)) in
    let position : get_elem? positions i ≡ some p =
      subst (λ y. get_elem? positions y ≡ some p) z (g 0 (omega arith)) in
    let rest =
      circular_slots-blocks kpool own qsl positions (suc i) n bl ps (omega arith) (omega arith)
        (λ k l.
          ap (λ y. get_elem? own (min (searchsorted_right qsl y - 1) (length own - 1))) (shift k)
          ∙ f (suc k) (omega arith))
        (λ k l. ap (get_elem? positions) (shift k) ∙ g (suc k) (omega arith)) in
    rw (block, position, rest) refl

slots_of_blocks-total :
    (kpool : ℕ) (bl ps : List ℕ)
    → length bl ≡ length ps
    → (slots : List ℤ) × (slots_of_blocks kpool bl ps ≡ some slots) × (length slots ≡ length bl)
unfolding slots_of_blocks
slots_of_blocks-total kpool [] [] h = ([], refl, refl)
slots_of_blocks-total kpool [] (p ∷ ps) h = absurd (omega arith)
slots_of_blocks-total kpool (b ∷ bl) [] h = absurd (omega arith)
slots_of_blocks-total kpool (b ∷ bl) (p ∷ ps) h =
    let (rest, e, f) = slots_of_blocks-total kpool bl ps (omega arith) in
    (pos (b * kpool + p % kpool) ∷ rest, rw e refl, omega arith)

drop_all : (n : ℕ) (xs : List ℤ) → length xs ≡ n → drop n xs ≡ []
drop_all zero [] h = refl
drop_all zero (x ∷ xs) h = absurd (omega arith)
drop_all (suc n) [] h = refl
drop_all (suc n) (x ∷ xs) h = drop_all n xs (omega arith)

append_nil : (xs : List ℤ) → xs ++ [] ≡ xs
append_nil [] = refl
append_nil (x ∷ xs) = ap (λ ys. x ∷ ys) (append_nil xs)

length_zero : (xs : List ℤ) → length xs ≡ 0 → xs ≡ []
length_zero [] h = refl
length_zero (x ∷ xs) h = absurd (omega arith)

-- The clamp to the last request changes nothing.
found :
    (own counts : List ℕ) (i : ℕ)
    → length own ≡ length counts
    → i < total counts
    → get_elem? own (min (searchsorted_right (starts 0 counts) i - 1) (length own - 1))
      ≡ get_elem? (expanded own counts) i
found own counts i h l =
    let e = get_elem?-expanded 0 own counts i i h l (omega arith) in
    let (b, at) =
      get_elem?-total (expanded own counts) i (omega (arith, length-expanded own counts h)) in
    let bound = get_elem?-lt own (searchsorted_right (starts 0 counts) i - 1) (e ∙ at) in
    let same : min (searchsorted_right (starts 0 counts) i - 1) (length own - 1)
        ≡ searchsorted_right (starts 0 counts) i - 1 =
      omega arith in
    rw same e

-- The write into the clone of the slot mapping.
computed :
    (slot_mapping slots : List ℤ) (n : ℕ) (circular : Option (List ℤ))
    → length slot_mapping ≡ n
    → length slots ≡ n
    → circular ≡ some slots
    → (if n == 0
        then some slot_mapping
        else (circular >>= (λ s.
            if leb n (length slot_mapping) then some (s ++ drop n slot_mapping) else none)))
      ≡ some slots
computed slot_mapping slots n circular a b e = elim (Bool-cases (n == 0)) [
  | inl zero_tokens ↦
      let z : n ≡ 0 = ground arith in
      rw zero_tokens
        (ap some (length_zero slot_mapping (omega arith) ∙ sym (length_zero slots (omega arith))))
  | inr tokens ↦
      let fits : leb n (length slot_mapping) ≡ true = ground arith in
      rw (tokens, e, fits, drop_all n slot_mapping a, append_nil slots) refl
]

-- For requests of any lengths, empty ones included, with a tail block each and a position for each
-- token, the slot mapping that `KpoolTailMetadataBuilder.build` computes inline exists, and it is
-- the one that `compute_kpool_tail_slot_mapping` computes from a slot mapping of that many tokens.
pub compute-build :
    (slot_mapping : List ℤ) (own counts positions : List ℕ) (kpool : ℕ)
    → length own ≡ length counts
    → total counts ≤ length positions
    → length slot_mapping ≡ total counts
    → (slots : List ℤ) × (build_slot_mapping own (starts 0 counts) positions kpool ≡ some slots)
      × (compute_kpool_tail_slot_mapping slot_mapping own
            (starts 0 counts)
            positions
            (total counts)
            kpool
          ≡ some slots)
unfolding compute_kpool_tail_slot_mapping build_slot_mapping
compute-build slot_mapping own counts positions kpool h k l =
    let bl = expanded own counts in
    let ps = take (length bl) positions in
    let len = length-expanded own counts h in
    let len' : length ps ≡ length bl = omega (arith, length-take (length bl) positions) in
    let (slots, e, width) = slots_of_blocks-total kpool bl ps (omega arith) in
    let built : (repeat_interleave own (differences (starts 0 counts))
          >>= (λ block_ids. slots_of_blocks kpool block_ids (take (length block_ids) positions)))
        ≡ some slots =
      rw (differences-starts 0 counts, repeat_interleave-expanded own counts h) e in
    let circular =
      circular_slots-blocks kpool own (starts 0 counts) positions 0 (total counts) bl ps len
        (omega arith) (λ i a. let z : 0 + i ≡ i = omega arith in rw z (found own counts i h a))
        (λ i a.
          let z : 0 + i ≡ i = omega arith in
          rw z (sym (get_elem?-take (length bl) positions i (omega arith)))) in
    (
      slots,
      built,
      computed slot_mapping slots (total counts)
          (circular_slots kpool own (starts 0 counts) positions 0 (total counts)) l (width ∙ len)
          (circular ∙ e),
    )
