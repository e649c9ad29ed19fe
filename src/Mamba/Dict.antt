-- ===== src/Mamba/Dict.antt =====
-- mamba_utils.py: the dictionary `mamba_state_idx` from request ids to block columns, and the
-- operations that only touch it. Ids are compared and nothing else, so a number stands for one.
use glm53flash_pp.Base.{
  ℕ, ◌≡◌, refl, List, [], ◌∷◌, ◌++◌, Option, none, some, Bool, false, ◌||◌, arith, ℤ, ◌==◌,
  if◌then◌else◌,
}

abbrev pub Dict : Type 0
Dict = List (ℕ × ℤ)

unfoldable pub lookup : ℕ → Dict → Option ℤ
lookup k [] = none
lookup k ((j, v) ∷ d) = if j == k then some v else lookup k d

unfoldable pub insert : ℕ → ℤ → Dict → Dict
insert k v [] = (k, v) ∷ []
insert k v ((j, w) ∷ d) = if j == k then (k, v) ∷ d else (j, w) ∷ insert k v d

-- `pop(k, None)`
unfoldable pub pop : ℕ → Dict → Dict
pop k [] = []
pop k ((j, v) ∷ d) = if j == k then pop k d else (j, v) ∷ pop k d

pub lookup-insert :
    (k j : ℕ) (v : ℤ) (d : Dict) → lookup j (insert k v d) ≡ (if k == j then some v else lookup j d)
unfolding lookup insert
lookup-insert k j v [] = ground arith
lookup-insert k j v ((i, w) ∷ d) = ground (arith, lookup-insert k j v d)

pub lookup-pop : (k j : ℕ) (d : Dict) → lookup j (pop k d) ≡ (if k == j then none else lookup j d)
unfolding lookup pop
lookup-pop k j [] = ground arith
lookup-pop k j ((i, w) ∷ d) = ground (arith, lookup-pop k j d)

abbrev pub mem : ℕ → List ℕ → Bool
mem k [] = false
mem k (j ∷ js) = (j == k) || mem k js

unfoldable pub pop_all : List ℕ → Dict → Dict
pop_all [] d = d
pop_all (k ∷ ks) d = pop_all ks (pop k d)

pub lookup-pop_all :
    (ks : List ℕ) (j : ℕ) (d : Dict)
    → lookup j (pop_all ks d) ≡ (if mem j ks then none else lookup j d)
unfolding pop_all
lookup-pop_all [] j d = refl
lookup-pop_all (k ∷ ks) j d = ground (arith, lookup-pop_all ks j (pop k d), lookup-pop k j d)

-- The ids that a scheduler output lists as finished, preempted and resumed.
pub record Departed : Type 0 where
  pub finished : List ℕ
  pub preempted : List ℕ
  pub resumed : List ℕ

unfoldable pub cleanup_mamba_state_idx : Departed → Dict → Dict
cleanup_mamba_state_idx s d = pop_all (s.finished ++ (s.preempted ++ s.resumed)) d

mem-append : (k : ℕ) (xs ys : List ℕ) → mem k (xs ++ ys) ≡ (mem k xs || mem k ys)
mem-append k [] ys = refl
mem-append k (x ∷ xs) ys = ground (arith, mem-append k xs ys)

-- Cleaning up forgets exactly the finished, the preempted and the resumed requests.
pub lookup-cleanup :
    (s : Departed) (j : ℕ) (d : Dict)
    → lookup j (cleanup_mamba_state_idx s d)
      ≡ (if mem j s.finished || (mem j s.preempted || mem j s.resumed) then none else lookup j d)
unfolding cleanup_mamba_state_idx
lookup-cleanup s j d = ground (
  arith,
  lookup-pop_all (s.finished ++ (s.preempted ++ s.resumed)) j d,
  mem-append j s.finished (s.preempted ++ s.resumed),
  mem-append j s.preempted s.resumed,
)
