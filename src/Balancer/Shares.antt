-- ===== src/Balancer/Shares.antt =====
-- `RoundRobinBalancer` (balancer.rs): the shares of all agents together.
use native.Mathlib.Nat.{div-add-mod, mod-lt, suc-mul, zero-mul, mul-zero}
use cw_croncat.Base.{
  ap, sym, ◌∙◌, ℕ, zero, suc, ◌+◌, ◌*◌, ◌/◌, ◌%◌, ◌≤◌, ◌<◌, ◌≡◌, some, List, length, take, arith,
  min, ltb, leb, if◌then◌else◌, Bool-cases, inl, inr,
}
use cw_croncat.Base.Outcome.{Outcome, ok, bind, u64_mod}
use cw_croncat.Balancer.{Index, rich, position_index, service_order, share, activation_ordering}
use cw_croncat.Balancer.Order.{
  IsDistinct, IsBelow, agents_of, service_order-IsDistinct, service_order-IsBelow,
  contains-service_order,
}
use cw_croncat.Balancer.Tally.{
  tally, hit, tally_same, tally-IsDistinct, tally-ones, take-IsDistinct, take-IsBelow, length-take,
  contains-position_index, hit-take,
}

-- What the agents before the given one get of a number of tasks, together.
pub assigned : List Index → (agent_count total_tasks : ℕ) → ℕ → Outcome ℕ
assigned indices agent_count total_tasks zero = ok 0
assigned indices agent_count total_tasks (suc k) =
    bind (assigned indices agent_count total_tasks k)
      λ sum. bind (activation_ordering indices agent_count k total_tasks) λ n. ok (sum + n.0)

-- The first agents get one more.
one_before : ℕ → ℕ → ℕ
one_before k n = if ltb k n then 1 else 0

share-one_before : (k n : ℕ) → 0 < n → share k n ≡ one_before k n
unfolding share one_before
share-one_before k n h = ground arith

-- What each agent gets at least, and who gets one more.
abbrev even : (agent_count total_tasks : ℕ) → ℕ
even agent_count total_tasks = if leb total_tasks agent_count then 0 else total_tasks / agent_count

abbrev bonus : List Index → (agent_count total_tasks : ℕ) → ℕ → ℕ
bonus indices agent_count total_tasks k =
    if leb total_tasks agent_count
    then one_before k total_tasks
    else hit (take (total_tasks % agent_count) (service_order agent_count indices)) k

le-multiple : (n q : ℕ) → 0 < n → q ≤ n * q
le-multiple zero q h = absurd (omega arith)
le-multiple (suc n) q h = omega (arith, suc-mul n q)

quota-le : (n k total : ℕ) → 0 < n → total / n + one_before k (total % n) ≤ total
unfolding one_before
quota-le n k total h = ground (arith, div-add-mod total n, le-multiple n (total / n) h)

tally-one_before : (r n : ℕ) → tally (λ k. one_before k r) n ≡ min n r
unfolding one_before
tally-one_before r zero = ground arith
tally-one_before r (suc n) = ground (arith, tally-one_before r n)

module _ (indices : List Index) (n : ℕ) (d : IsDistinct (agents_of (rich indices)))
    (b : IsBelow n (agents_of (rich indices))) where
  place : (k : ℕ) → k < n → (p : ℕ) × (position_index (service_order n indices) k ≡ some p)
  place k h =
      contains-position_index (service_order n indices) k
        (ground (arith, contains-service_order n indices k))

  activation_ordering-even :
      (k total : ℕ)
      → k < n
      → total < u64_mod
      → (x : ℕ) × (activation_ordering indices n k total
          ≡ ok (even n total + bonus indices n total k, x))
  unfolding activation_ordering one_before
  activation_ordering-even k total h fits = elim (Bool-cases (ltb total 1)) [
    | inl none_due ↦ (0, ground arith)
    | inr some_due ↦ elim (Bool-cases (leb total n)) [
      | inl few ↦ (share k total, ground (arith, share-one_before k total))
      | inr many ↦
          let (p, at) = place k h in
          (
            one_before p (total % n),
            ground (
              arith,
              hit-take (total % n) (service_order n indices) k p at,
              share-one_before p (total % n),
              quota-le n p total (omega arith),
            ),
          )
    ]
  ]

  assigned-even :
      (total k : ℕ)
      → k ≤ n
      → total < u64_mod
      → assigned indices n total k ≡ ok (k * even n total + tally (bonus indices n total) k)
  unfolding assigned
  assigned-even total zero h fits = ap ok (omega (arith, zero-mul (even n total)))
  assigned-even total (suc k) h fits =
      let (x, got) = activation_ordering-even k total (omega arith) fits in
      rw (assigned-even total k (omega arith) fits, got)
        (ap ok (omega (arith, suc-mul k (even n total))))

  length-service_order : length (service_order n indices) ≡ n
  length-service_order =
      let order = service_order n indices in
      sym (
        tally-IsDistinct order n (service_order-IsDistinct n indices d)
          (service_order-IsBelow n indices b))
      ∙ tally-ones (hit order) n (λ k h. ground (arith, contains-service_order n indices k))

  tally-bonus : (total : ℕ) → 0 < n → n * even n total + tally (bonus indices n total) n ≡ total
  tally-bonus total pos = elim (Bool-cases (leb total n)) [
    | inl few ↦ ground (
      arith,
      mul-zero n,
      tally_same (bonus indices n total) (λ k. one_before k total) n (λ k. ground arith),
      tally-one_before total n,
    )
    | inr many ↦
        let order = service_order n indices in
        let first = take (total % n) order in
        let same = tally_same (bonus indices n total) (hit first) n (λ k. ground arith) in
        let counted =
          tally-IsDistinct first n
            (take-IsDistinct (total % n) order (service_order-IsDistinct n indices d))
            (take-IsBelow (total % n) n order (service_order-IsBelow n indices b)) in
        let long =
          length-take (total % n) order (omega (arith, mod-lt total pos, length-service_order)) in
        ground (arith, div-add-mod total n, same, counted, long)
  ]

-- Where the entries with extra tasks are of different agents, each of them one of the active agents,
-- and the tasks fit a word, the balancer assigns each task once: what the agents get adds up to the tasks.
pub assigned-all :
    (indices : List Index) (agent_count total_tasks : ℕ)
    → IsDistinct (agents_of (rich indices))
    → IsBelow agent_count (agents_of (rich indices))
    → 0 < agent_count
    → total_tasks < u64_mod
    → assigned indices agent_count total_tasks agent_count ≡ ok total_tasks
assigned-all indices n total d b pos fits =
    assigned-even indices n d b total n (omega arith) fits
    ∙ ap ok (tally-bonus indices n d b total pos)
