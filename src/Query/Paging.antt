-- ===== src/Query/Paging.antt =====
-- `query_get_tasks` (tasks.rs): the pages of the catalog.
use mathlib.Core.Option
use cw_croncat.Base.{
  ◌∙◌, ap, ℕ, zero, suc, ◌+◌, ◌%◌, ◌≡◌, refl, Option, some, none, List, [], ◌∷◌, arith, map, min,
  take, drop, ltb, if◌then◌else◌, Bool-cases, inl, inr,
}
use cw_croncat.Base.Outcome.{usize_mod}
use cw_croncat.Types.{Task, TaskHash, TaskResponse}
use cw_croncat.External.{External}
use cw_croncat.State.{State}
use cw_croncat.Task.{to_hash}
use cw_croncat.Query.{query_get_tasks, task_response}
use cw_croncat.Query.Tasks.{described}

module _ {A : Type 0} where
  -- The entry at an index, if there is one.
  abbrev pub get_elem? : List A → ℕ → Option A
  get_elem? [] i = none
  get_elem? (x ∷ xs) zero = some x
  get_elem? (x ∷ xs) (suc i) = get_elem? xs i

  get_elem?-drop : (n k : ℕ) (xs : List A) → get_elem? (drop n xs) k ≡ get_elem? xs (n + k)
  get_elem?-drop zero k xs = (let same : k ≡ 0 + k = omega arith in ap (get_elem? xs) same)
  get_elem?-drop (suc n) k [] = refl
  get_elem?-drop (suc n) k (x ∷ xs) =
      get_elem?-drop n k xs
      ∙ (let same : suc (n + k) ≡ suc n + k = omega arith in ap (get_elem? (x ∷ xs)) same)

  get_elem?-take :
      (n k : ℕ) (xs : List A) → get_elem? (take n xs) k ≡ (if ltb k n then get_elem? xs k else none)
  get_elem?-take zero k xs = ground arith
  get_elem?-take (suc n) k [] = ground arith
  get_elem?-take (suc n) zero (x ∷ xs) = ground arith
  get_elem?-take (suc n) (suc k) (x ∷ xs) = ground (arith, get_elem?-take n k xs)

get_elem?-map :
    {A B : Type 0} (f : A → B) (xs : List A) (k : ℕ)
    → get_elem? (map f xs) k ≡ Option.map f (get_elem? xs k)
get_elem?-map f [] k = refl
get_elem?-map f (x ∷ xs) zero = refl
get_elem?-map f (x ∷ xs) (suc k) = get_elem?-map f xs k

-- The index a page starts at, 0 by default, and the most it holds, 100 by default.
abbrev pub first_index : Option ℕ → ℕ
first_index none = 0
first_index (some i) = i

abbrev pub page_limit : Option ℕ → ℕ
page_limit none = 100
page_limit (some n) = n

small : (n total : ℕ) → min n (min total 1000) % usize_mod ≡ min n (min total 1000)
small n total = ground arith

module _ (E : External) where
  -- What the answer at a place of a page is.
  abbrev pub listed : Option (TaskHash × Task) → Option TaskResponse
  listed = Option.map (λ (e : TaskHash × Task). described (to_hash E e.1) e.1)

  page_entry :
      (i n total k : ℕ) (xs : List (TaskHash × Task))
      → get_elem?
          (map
            (λ (e : TaskHash × Task). task_response E e.1)
            (take (min n (min total 1000) % usize_mod) (drop i xs)))
          k
        ≡ (if ltb k (min n (min total 1000)) then listed (get_elem? xs (i + k)) else none)
  unfolding task_response
  page_entry i n total k xs =
      rw (small n total, get_elem?-map, get_elem?-take, get_elem?-drop)
        (elim (Bool-cases (ltb k (min n (min total 1000)))) [
          | inl e ↦ rw e refl
          | inr e ↦ rw e refl
        ])

  -- A page holds at its place k the full description of the task that stands k places after its first
  -- index, modulo 2 ^ 32, in the catalog's order, as long as k is below its limit, the count of tasks
  -- and 1000, and the catalog has that many; at all other places it holds nothing.
  pub query_get_tasks-entry :
      (from_index limit : Option ℕ) (k : ℕ) (s : State E)
      → get_elem? (query_get_tasks E from_index limit s) k ≡ (
          if ltb k (min (page_limit limit) (min s.task_total 1000))
          then listed (get_elem? (E.range s.tasks) (first_index from_index % usize_mod + k))
          else none)
  unfolding query_get_tasks
  query_get_tasks-entry none none k s = page_entry 0 100 s.task_total k (E.range s.tasks)
  query_get_tasks-entry none (some n) k s = page_entry 0 n s.task_total k (E.range s.tasks)
  query_get_tasks-entry (some i) none k s =
      page_entry (i % usize_mod) 100 s.task_total k (E.range s.tasks)
  query_get_tasks-entry (some i) (some n) k s =
      page_entry (i % usize_mod) n s.task_total k (E.range s.tasks)
