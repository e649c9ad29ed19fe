-- ===== src/Runner.antt =====
-- vllm/v1/worker/gpu/model_runner.py: `sort_batch_req_ids`, the order of the requests of a batch.
-- Request ids are numbers, and a dictionary is a list of its items in insertion order.
pub mod Order
pub mod Tests
use glm53flash_pp.Base.{
  ℕ, zero, suc, List, [], ◌∷◌, map, Bool, true, false, not, ltb, ◌==◌, if◌then◌else◌, ℤ,
}

-- `not draft_tokens.get(r)`
unfoldable pub no_drafts : List (ℕ × List ℤ) → ℕ → Bool
no_drafts [] r = true
no_drafts ((id, []) ∷ ds) r = if id == r then true else no_drafts ds r
no_drafts ((id, t ∷ ts) ∷ ds) r = if id == r then false else no_drafts ds r

-- A request with its sort key; a Boolean of the key is 0 or 1.
pub record Keyed : Type 0 where
  pub req_id : ℕ
  pub undrafted : ℕ
  pub off_length : ℕ
  pub num : ℕ

abbrev pub as_number : Bool → ℕ
as_number true = 1
as_number false = 0

unfoldable pub key : List (ℕ × List ℤ) → ℕ → ℕ × ℕ → Keyed
key draft_tokens decode_query_len (r, num) = record {
  req_id = r;
  undrafted = as_number (no_drafts draft_tokens r);
  off_length = as_number (not (num == decode_query_len));
  num = num;
}

-- The order of tuples.
abbrev pub key_le : Keyed → Keyed → Bool
key_le a b =
    if ltb a.undrafted b.undrafted
    then true
    else if ltb b.undrafted a.undrafted
    then false
    else if ltb a.off_length b.off_length
    then true
    else if ltb b.off_length a.off_length
    then false
    else not (ltb b.num a.num)

-- `sorted`, which is stable: an element stays in front of its equals.
unfoldable pub insert : Keyed → List Keyed → List Keyed
insert x [] = x ∷ []
insert x (y ∷ ys) = if key_le x y then x ∷ y ∷ ys else y ∷ insert x ys

unfoldable pub sorted : List Keyed → List Keyed
sorted [] = []
sorted (x ∷ xs) = insert x (sorted xs)

unfoldable pub sorted_batch : List (ℕ × ℕ) → List (ℕ × List ℤ) → ℕ → List Keyed
sorted_batch num_tokens_per_req draft_tokens decode_query_len =
    sorted (map (key draft_tokens decode_query_len) num_tokens_per_req)

unfoldable pub sort_batch_req_ids : List (ℕ × ℕ) → List (ℕ × List ℤ) → ℕ → List ℕ
sort_batch_req_ids num_tokens_per_req draft_tokens decode_query_len =
    map (λ x. x.req_id) (sorted_batch num_tokens_per_req draft_tokens decode_query_len)
