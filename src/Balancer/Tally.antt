-- ===== src/Balancer/Tally.antt =====
-- Sums over the agents of the order of service (balancer.rs).
use cw_croncat.Base.{
  ℕ, zero, suc, ◌+◌, ◌≤◌, ◌<◌, ◌≡◌, refl, true, false, some, List, [], ◌∷◌, arith, ltb, eqb,
  eqb_iff, if◌then◌else◌, length, take, Bool-cases, Option-cases, inl, inr,
}
use cw_croncat.Balancer.{contains_index, position_index}
use cw_croncat.Balancer.Order.{IsDistinct, IsBelow}

-- The sum of `g` over the agents below `n`.
abbrev pub tally : (ℕ → ℕ) → ℕ → ℕ
tally g zero = 0
tally g (suc k) = tally g k + g k

abbrev pub hit : List ℕ → ℕ → ℕ
hit xs k = if contains_index xs k then 1 else 0

pub tally_same : (g h : ℕ → ℕ) (n : ℕ) → ((k : ℕ) → g k ≡ h k) → tally g n ≡ tally h n
tally_same g h zero e = refl
tally_same g h (suc n) e = omega (arith, tally_same g h n e, e n)

tally-nil : (n : ℕ) → tally (hit []) n ≡ 0
tally-nil zero = refl
tally-nil (suc n) = omega (arith, tally-nil n)

tally-cons :
    (x : ℕ) (xs : List ℕ) (n : ℕ)
    → contains_index xs x ≡ false
    → tally (hit (x ∷ xs)) n ≡ tally (hit xs) n + (if ltb x n then 1 else 0)
tally-cons x xs zero h = ground arith
tally-cons x xs (suc n) h = ground (arith, tally-cons x xs n h, eqb_iff x n)

-- Agents below `n`, each once, are as many as the list is long.
pub tally-IsDistinct :
    (xs : List ℕ) (n : ℕ) → IsDistinct xs → IsBelow n xs → tally (hit xs) n ≡ length xs
tally-IsDistinct [] n d b = tally-nil n
tally-IsDistinct (x ∷ xs) n d b = ground (
  arith,
  tally-cons x xs n d.0,
  b x (ground (arith, eqb_iff x x)),
  tally-IsDistinct xs n d.1 (λ k h. b k (ground arith)),
)

pub tally-ones : (g : ℕ → ℕ) (n : ℕ) → ((k : ℕ) → k < n → g k ≡ 1) → tally g n ≡ n
tally-ones g zero h = refl
tally-ones g (suc n) h = omega (arith, h n (omega arith), tally-ones g n (λ k l. h k (omega arith)))

contains-take :
    (r : ℕ) (xs : List ℕ) (k : ℕ) → contains_index (take r xs) k ≡ true → contains_index xs k ≡ true
contains-take zero xs k h = absurd (ground arith)
contains-take (suc r) [] k h = absurd (ground arith)
contains-take (suc r) (x ∷ xs) k h = ground (arith, contains-take r xs k)

pub take-IsDistinct : (r : ℕ) (xs : List ℕ) → IsDistinct xs → IsDistinct (take r xs)
take-IsDistinct zero xs d = tt
take-IsDistinct (suc r) [] d = tt
take-IsDistinct (suc r) (x ∷ xs) d =
    (ground (arith, contains-take r xs x), take-IsDistinct r xs d.1)

pub take-IsBelow : (r n : ℕ) (xs : List ℕ) → IsBelow n xs → IsBelow n (take r xs)
take-IsBelow r n xs b k h = b k (contains-take r xs k h)

pub length-take : (r : ℕ) (xs : List ℕ) → r ≤ length xs → length (take r xs) ≡ r
length-take zero xs h = refl
length-take (suc r) [] h = absurd (omega arith)
length-take (suc r) (x ∷ xs) h = omega (arith, length-take r xs)

pub contains-position_index :
    (xs : List ℕ) (k : ℕ) → contains_index xs k ≡ true → (p : ℕ) × (position_index xs k ≡ some p)
contains-position_index [] k h = absurd (ground arith)
contains-position_index (x ∷ xs) k h = elim (Bool-cases (eqb x k)) [
  | inl e ↦ (0, ground arith)
  | inr e ↦ let (p, f) = contains-position_index xs k (ground arith) in (suc p, ground arith)
]

-- Who stands among the first `r`.
pub hit-take :
    (r : ℕ) (xs : List ℕ) (k p : ℕ)
    → position_index xs k ≡ some p
    → hit (take r xs) k ≡ (if ltb p r then 1 else 0)
hit-take r [] k p h = absurd (ground arith)
hit-take zero (x ∷ xs) k p h = ground arith
hit-take (suc r) (x ∷ xs) k p h = elim (Bool-cases (eqb x k)) [
  | inl e ↦ ground arith
  | inr e ↦ elim (Option-cases (position_index xs k)) [
    | inl f ↦ absurd (ground arith)
    | inr (q, f) ↦ ground (arith, hit-take r xs k q f)
  ]
]
