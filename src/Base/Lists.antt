-- ===== src/Base/Lists.antt =====
-- Lists measured and indexed by native numbers, under the library's names, and the operations of
-- `Vec<Addr>` and `Vec<Vec<u8>>` that the contract uses.
use Prim.Native.Nat.{ℕ, zero, suc, ◌+◌}
use Prim.Native.String.{String}
use mathlib.Core.Path.{◌≡◌, refl}
use mathlib.Core.Bool.{Bool, true, false}
use mathlib.Core.List.{List, [], ◌∷◌, ◌++◌}
use mathlib.Core.Option.{Option, none, some}
use mathlib.Core.Option
use native.Mathlib.Omega.{arith}
use text.Mathlib.Text.{◌==◌}
use cw_croncat.Base.Tests.{if◌then◌else◌}

module _ {ℓ} {A : Type ℓ} where
  abbrev pub length : List A → ℕ
  length [] = 0
  length (x ∷ xs) = suc (length xs)

  abbrev pub is_empty : List A → Bool
  is_empty [] = true
  is_empty (x ∷ xs) = false

  abbrev pub take : ℕ → List A → List A
  take zero xs = []
  take (suc n) [] = []
  take (suc n) (x ∷ xs) = x ∷ take n xs

  abbrev pub drop : ℕ → List A → List A
  drop zero xs = xs
  drop (suc n) [] = []
  drop (suc n) (x ∷ xs) = drop n xs

  abbrev pub head? : List A → Option A
  head? [] = none
  head? (x ∷ xs) = some x

  -- `Vec::remove(i)`, for an index in range.
  abbrev pub remove_at : ℕ → List A → List A
  remove_at i [] = []
  remove_at zero (x ∷ xs) = xs
  remove_at (suc i) (x ∷ xs) = x ∷ remove_at i xs

  -- `Vec::pop` takes the last entry; the rest comes back in order.
  abbrev pub pop_cons : A → Option A × List A → Option A × List A
  pop_cons x (none, _) = (some x, [])
  pop_cons x (some y, ys) = (some y, x ∷ ys)

  unfoldable pub pop : List A → Option A × List A
  pop [] = (none, [])
  pop (x ∷ xs) = pop_cons x (pop xs)

  pub pop-append : (xs : List A) (a : A) → pop (xs ++ a ∷ []) ≡ (some a, xs)
  unfolding pop
  pop-append [] a = refl
  pop-append (x ∷ xs) a = rw (pop-append xs a)

  pub append-nil : (xs : List A) → xs ++ [] ≡ xs
  append-nil [] = refl
  append-nil (x ∷ xs) = rw (append-nil xs) refl

  pub length-append : (xs ys : List A) → length (xs ++ ys) ≡ length xs + length ys
  length-append [] ys = omega arith
  length-append (x ∷ xs) ys = omega (arith, length-append xs ys)

-- `xs.contains(&a)`
abbrev pub contains : List String → String → Bool
contains [] a = false
contains (x ∷ xs) a = if x == a then true else contains xs a

-- `xs.iter().position(|x| x == &a)`
abbrev pub position : List String → String → Option ℕ
position [] a = none
position (x ∷ xs) a = if x == a then some 0 else Option.map suc (position xs a)

-- `xs.retain(|x| x != a)`
abbrev pub retain_ne : List String → String → List String
retain_ne [] a = []
retain_ne (x ∷ xs) a = if x == a then retain_ne xs a else x ∷ retain_ne xs a
