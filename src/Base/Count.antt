-- ===== src/Base/Count.antt =====
-- How often a text stands in a list, after each operation on lists.
use cw_croncat.Base.{
  ℕ, zero, suc, ◌+◌, ◌≤◌, ◌≡◌, refl, String, none, some, List, [], ◌∷◌, ◌++◌, arith, ◌==◌, eq_iff,
  if◌then◌else◌, position, remove_at, drop, contains, ltb,
}

unfoldable pub count : String → List String → ℕ
count a [] = 0
count a (x ∷ xs) = (if x == a then 1 else 0) + count a xs

pub count-append : (a : String) (xs ys : List String) → count a (xs ++ ys) ≡ count a xs + count a ys
unfolding count
count-append a [] ys = omega arith
count-append a (x ∷ xs) ys = omega (arith, count-append a xs ys)

pub count-one : (a b : String) → count a (b ∷ []) ≡ (if b == a then 1 else 0)
unfolding count
count-one a b = omega arith

-- The index that `position` finds holds the address.
pub count-remove_at :
    (a b : String) (i : ℕ) (xs : List String)
    → position xs b ≡ some i
    → count a (remove_at i xs) + (if b == a then 1 else 0) ≡ count a xs
unfolding count
count-remove_at a b i [] h = cc
count-remove_at a b zero (x ∷ xs) h = ground (arith, eq_iff x b, eq_iff x a, eq_iff b a)
count-remove_at a b (suc i) (x ∷ xs) h =
    ground (arith, eq_iff x b, eq_iff x a, eq_iff b a, count-remove_at a b i xs)

pub count-drop-le : (a : String) (n : ℕ) (xs : List String) → count a (drop n xs) ≤ count a xs
unfolding count
count-drop-le a zero xs = omega arith
count-drop-le a (suc n) [] = omega arith
count-drop-le a (suc n) (x ∷ xs) = omega (arith, count-drop-le a n xs)

-- Past the position of an address, one of its places is gone.
pub count-drop-position :
    (b : String) (i : ℕ) (xs : List String)
    → position xs b ≡ some i
    → count b (drop (suc i) xs) + 1 ≤ count b xs
unfolding count
count-drop-position b i [] h = cc
count-drop-position b zero (x ∷ xs) h = ground (arith, eq_iff x b)
count-drop-position b (suc i) (x ∷ xs) h = ground (arith, count-drop-position b i xs)

pub count-pos_position : (b : String) (xs : List String) → position xs b ≡ none → count b xs ≡ 0
unfolding count
count-pos_position b [] h = refl
count-pos_position b (x ∷ xs) h = ground (arith, count-pos_position b xs)

pub count-nil : (a : String) → count a [] ≡ 0
unfolding count
count-nil a = refl

pub contains-count : (xs : List String) (a : String) → contains xs a ≡ ltb 0 (count a xs)
unfolding count
contains-count [] a = refl
contains-count (x ∷ xs) a = ground (arith, contains-count xs a)
