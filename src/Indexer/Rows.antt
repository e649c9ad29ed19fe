-- ===== src/Indexer/Rows.antt =====
-- What a launch of the chunk metadata kernel writes, whatever the order of its programs.
use glm53flash_pp.Base.{
  ℕ, zero, suc, ◌+◌, ◌-◌, min, ◌≤◌, ◌<◌, ◌≡◌, sym, ◌∙◌, ◌⊎◌, inl, inr, List, [], ◌∷◌, arith, ltb,
  leb, ◌&&◌, if◌then◌else◌, Bool-cases, All,
}
use native.Mathlib.Decide.{dec_le}
use glm53flash_pp.Indexer.Metadata.{RequestRow, store_lanes, store_loop}

-- Two neighbouring ranges, cut off at `stop`.
join :
    (x a b c stop v o : ℕ)
    → a ≤ b
    → b ≤ c
    → (if leb b x && ltb x (min c stop)
        then v
        else (if leb a x && ltb x (min b stop) then v else o))
      ≡ (if leb a x && ltb x (min c stop) then v else o)
join x a b c stop v o h k = ground arith

empty_range : (x b c stop v o : ℕ) → c ≤ b → (if leb b x && ltb x (min c stop) then v else o) ≡ o
empty_range x b c stop v o h = ground arith

-- One round, and the rest.
round :
    (x start i block len stop v o : ℕ)
    → i ≤ len
    → (if leb (start + (i + block)) x && ltb x (min (start + len) stop)
        then v
        else (if leb (start + i) x && ltb x (min (start + min (i + block) len) stop) then v else o))
      ≡ (if leb (start + i) x && ltb x (min (start + len) stop) then v else o)
round x start i block len stop v o h = elim (dec_le (i + block) len) [
  | yes inside ↦
      let e : min (i + block) len ≡ i + block = omega arith in
      rw e (
        join x (start + i) (start + (i + block)) (start + len) stop v o (omega arith) (omega arith))
  | no beyond ↦
      let e : min (i + block) len ≡ len = omega arith in
      rw e (
        empty_range x (start + (i + block)) (start + len) stop v
          (if leb (start + i) x && ltb x (min (start + len) stop) then v else o) (omega arith))
]

pub store_loop-lanes :
    (fuel block origin stop start i len : ℕ) (value out : ℕ → ℕ) (p : ℕ)
    → 0 < block
    → len ≤ i + fuel
    → store_loop fuel block origin stop start i len value out p
      ≡ store_lanes origin (start + i) (min (start + len) stop) value out p
unfolding store_loop store_lanes
store_loop-lanes zero block origin stop start i len value out p h f = sym (
    empty_range (p + origin) (start + i) (start + len) stop (value (p + origin)) (out p)
      (omega arith))
store_loop-lanes (suc fuel) block origin stop start i len value out p h f =
    elim (Bool-cases (ltb i len)) [
      | inr done ↦
          let past : len ≤ i = ground arith in
          rw done (
            sym (
              empty_range (p + origin) (start + i) (start + len) stop (value (p + origin)) (out p)
                (omega arith)))
      | inl more ↦
          let inside : i < len = ground arith in
          rw more (
            store_loop-lanes fuel block origin stop start (i + block) len value
              (store_lanes origin (start + i) (min (start + min (i + block) len) stop) value out) p
              h (omega arith)
            ∙ round (p + origin) start i block len stop (value (p + origin)) (out p) (omega arith))
    ]

-- The queries and the keys of a request of the batch.
pub record IsRequest (r : RequestRow) : Type 0 where
  pub queries : r.query_start ≤ r.query_end
  pub keys : r.seq_start ≤ r.seq_end

-- Two requests share no query and no key.
abbrev pub Apart : RequestRow → RequestRow → Type 0
Apart r s =
    ((r.query_end ≤ s.query_start) ⊎ (s.query_end ≤ r.query_start))
    × ((r.seq_end ≤ s.seq_start) ⊎ (s.seq_end ≤ r.seq_start))

abbrev pub AllApart : List RequestRow → Type 0
AllApart [] = Unit
AllApart (r ∷ rs) = All (Apart r) rs × AllApart rs

stored :
    (start end stop x v o : ℕ)
    → start ≤ x
    → x < end
    → x < stop
    → (if leb (start + 0) x && ltb x (min (start + (end - start)) stop) then v else o) ≡ v
stored start end stop x v o a b c = ground arith

kept :
    (start end stop x v o : ℕ)
    → start ≤ end
    → (x < start) ⊎ (end ≤ x)
    → (if leb (start + 0) x && ltb x (min (start + (end - start)) stop) then v else o) ≡ o
kept start end stop x v o h (inl a) = ground arith
kept start end stop x v o h (inr a) = ground arith

-- A range of one program, written whole, or left alone.
pub program_stores :
    (block origin stop start end p : ℕ) (value out : ℕ → ℕ)
    → 0 < block
    → start ≤ p + origin
    → p + origin < end
    → p + origin < stop
    → store_loop (end - start) block origin stop start 0 (end - start) value out p
      ≡ value (p + origin)
unfolding store_lanes
program_stores block origin stop start end p value out h a b c =
    store_loop-lanes (end - start) block origin stop start 0 (end - start) value out p h
      (omega arith)
    ∙ stored start end stop (p + origin) (value (p + origin)) (out p) a b c

pub program_keeps :
    (block origin stop start end p : ℕ) (value out : ℕ → ℕ)
    → 0 < block
    → start ≤ end
    → (p + origin < start) ⊎ (end ≤ p + origin)
    → store_loop (end - start) block origin stop start 0 (end - start) value out p ≡ out p
unfolding store_lanes
program_keeps block origin stop start end p value out h a b =
    store_loop-lanes (end - start) block origin stop start 0 (end - start) value out p h
      (omega arith)
    ∙ kept start end stop (p + origin) (value (p + origin)) (out p) a b
