-- ===== src/Kpool/Attended.antt =====
-- Which tokens the fused kernel selects.
use glm53flash_pp.Base.{
  ℕ, zero, suc, ◌+◌, ◌-◌, ◌*◌, ◌/◌, ◌%◌, ◌^◌, ◌≤◌, ◌<◌, ◌≡◌, sym, subst, ap, ◌∙◌, ◌⊎◌, inl, inr,
  ◌↔◌, some, List, [], ◌∷◌, true, arith, ltb, if◌then◌else◌, Bool-cases, length, get_elem?,
  get_elem?-total, get_elem?-lt, All, ℤ, pos, negsuc, minus_one, pos_part, is_negative, ◌+ℤ◌, scale,
  to_int32, to_int32_small,
}
use native.Mathlib.Decide.{dec_le}
use glm53flash_pp.Kpool.{fused_column, expand_pools_and_append_tail}
use glm53flash_pp.Kpool.Expand.{pool_column, get_or-some}
use glm53flash_pp.Kpool.Fused.{fused-column, fused_history, fused_tail}

-- The last token of pool `g` has an id that an int32 holds.
abbrev pub Addressable : ℕ → ℤ → Type 0
Addressable p (pos g) = (g + 1) * p ≤ 2 ^ 31
Addressable p (negsuc g) = Unit

-- Token `t` is in a selected pool, or in the incomplete pool at the end of the sequence.
abbrev pub Attended : List ℤ → ℕ → ℕ → ℕ → Type 0
Attended ids seq_len p t =
    ((i : ℕ) × (get_elem? ids i ≡ some (pos (t / p)))) ⊎ ((t / p ≡ seq_len / p) × (t < seq_len))

All-get {ℓ κ} :
    {A : Type ℓ} (P : A → Type κ) (xs : List A) (i : ℕ) {a : A}
    → All P xs
    → get_elem? xs i ≡ some a
    → P a
All-get P [] i h e = absurd cc
All-get P (x ∷ xs) zero {a = a} (p, ps) e = let same : x ≡ a = cc in subst P same p
All-get P (x ∷ xs) (suc i) (p, ps) e = All-get P xs i ps e

-- The token of a pool's column.
pool_token :
    (p o t : ℕ) (g : ℤ)
    → o < p
    → Addressable p g
    → (if is_negative g then minus_one else to_int32 (scale g p +ℤ pos o)) ≡ pos t
    → g ≡ pos (t / p)
pool_token p o t (pos g) h a e =
    let small = to_int32_small (g * p + o) (grind arith) in
    let same : pos (g * p + o) ≡ pos t = sym small ∙ e in
    let token : g * p + o ≡ t = ap pos_part same in ap pos (grind arith)
pool_token p o t (negsuc g) h a e = absurd cc

history_token :
    (p : ℕ) (ids : List ℤ) (c t : ℕ)
    → 0 < p
    → All (Addressable p) ids
    → c < length ids * p
    → pool_column p ids c ≡ pos t
    → get_elem? ids (c / p) ≡ some (pos (t / p))
history_token p ids c t h a l e =
    let bound : c / p < length ids = grind arith in
    let (g, at) = get_elem?-total ids (c / p) bound in
    let same = get_or-some ids (c / p) minus_one at in
    let inside : c % p < p = grind arith in
    at
    ∙ ap some (
        pool_token p (c % p) t g inside (All-get (Addressable p) ids (c / p) a at) (simp same at e))

token_in_history :
    (p : ℕ) (ids : List ℤ) (i t : ℕ)
    → 0 < p
    → All (Addressable p) ids
    → get_elem? ids i ≡ some (pos (t / p))
    → (i * p + t % p < length ids * p) × (pool_column p ids (i * p + t % p) ≡ pos t)
token_in_history p ids i t h a at =
    let bound = get_elem?-lt ids i at in
    let ad = All-get (Addressable p) ids i a at in
    let q : (i * p + t % p) / p ≡ i = grind arith in
    let r : (i * p + t % p) % p ≡ t % p = grind arith in
    let same = get_or-some ids i minus_one at in
    let whole : t / p * p + t % p ≡ t = grind arith in
    let small : t < 2 ^ 31 = grind arith in
    (grind arith, rw (q, r, same, whole) (to_int32_small t small))

tail_token :
    (ids : List ℤ) (seq_len p c t : ℕ)
    → 0 < p
    → seq_len < 2 ^ 31
    → length ids * p ≤ c
    → fused_column ids seq_len p (length ids * p) c ≡ pos t
    → (t / p ≡ seq_len / p) × (t < seq_len)
tail_token ids seq_len p c t h b l e =
    let start = seq_len / p * p in
    let off = c - length ids * p in
    let v = sym (fused_tail ids seq_len p c l) ∙ e in
    elim (Bool-cases (ltb off (seq_len - start))) [
      | inl inside ↦
          let less : start + off < seq_len = ground arith in
          let v' : to_int32 (pos (start + off)) ≡ pos t = simp inside at v in
          let token : start + off ≡ t =
            ap pos_part (sym (to_int32_small (start + off) (omega arith)) ∙ v') in
          (grind arith, omega arith)
      | inr outside ↦ let v' : minus_one ≡ pos t = simp outside at v in absurd cc
    ]

token_in_tail :
    (ids : List ℤ) (seq_len p t : ℕ)
    → 0 < p
    → seq_len < 2 ^ 31
    → t / p ≡ seq_len / p
    → t < seq_len
    → let c = length ids * p + t % p in
      (c < length ids * p + (p - 1)) × (fused_column ids seq_len p (length ids * p) c ≡ pos t)
token_in_tail ids seq_len p t h b same less =
    let start = seq_len / p * p in
    let c = length ids * p + t % p in
    let off : c - length ids * p ≡ t % p = omega arith in
    let whole : start + t % p ≡ t = grind arith in
    let inside : ltb (t % p) (seq_len - start) ≡ true =
      let less' : t % p < seq_len - start = omega arith in ground arith in
    (
      grind arith,
      fused_tail ids seq_len p c (omega arith)
          ∙ rw (off, inside, whole) (to_int32_small t (omega arith)),
    )

-- The columns that a launch of the fused kernel writes for a row hold exactly the tokens of the
-- selected pools and those of the incomplete pool at the end of the sequence: for a positive pool
-- size, pools whose token ids fit an int32, and a sequence shorter than 2 ^ 31.
pub fused-Attended :
    (ids : List ℤ) (seq_len p : ℕ) (out : ℕ → ℤ) (t : ℕ)
    → 0 < p
    → All (Addressable p) ids
    → seq_len < 2 ^ 31
    → ((c : ℕ) × (c < length ids * p + (p - 1))
        × (expand_pools_and_append_tail ids seq_len p out c ≡ pos t))
      ↔ Attended ids seq_len p t
fused-Attended ids seq_len p out t h a b =
    let written : (c : ℕ)
        → c < length ids * p + (p - 1)
        → expand_pools_and_append_tail ids seq_len p out c
          ≡ fused_column ids seq_len p (length ids * p) c =
      λ c l. fused-column ids seq_len p out c (omega arith) in
    (
      λ (c, l, e).
          let e' = sym (written c l) ∙ e in
          elim (dec_le (length ids * p) c) [
            | yes tail ↦ inr (tail_token ids seq_len p c t h b tail e')
            | no history ↦
                let here : c < length ids * p = omega arith in
                inl (
                  c / p,
                  history_token p ids c t h a here (sym (fused_history ids seq_len p c here) ∙ e'),
                )
          ],
      elim [
        | inl (i, at) ↦
            let (l, e) = token_in_history p ids i t h a at in
            let c = i * p + t % p in
            let l' : c < length ids * p + (p - 1) = omega arith in
            (c, l', written c l' ∙ fused_history ids seq_len p c l ∙ e)
        | inr (same, less) ↦
            let (l, e) = token_in_tail ids seq_len p t h b same less in
            let c = length ids * p + t % p in (c, l, written c l ∙ e)
      ],
    )
