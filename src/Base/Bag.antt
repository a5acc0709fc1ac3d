-- ===== src/Base/Bag.antt =====
-- Lists of texts up to order: the abstract view of a slot's hashes.
use mathlib.Core.Quot
use mathlib.Core.Quot.{Quot, Quot-set}
use cw_croncat.Base.{
  ◌≡◌, String, List, [], ◌∷◌, ◌++◌, arith, ◌==◌, eq_iff, if◌then◌else◌, retain_ne,
}
use cw_croncat.Base.Count.{count, count-append}

-- The same texts, as often.
abbrev pub IsReordered : List String → List String → Type 0
IsReordered xs ys = (a : String) → count a xs ≡ count a ys

abbrev pub Bag : Type 0
Bag = Quot IsReordered

abbrev pub bag : List String → Bag
bag = Quot.mk

pub IsReordered-append :
    (h : String) (xs ys : List String)
    → IsReordered xs ys
    → IsReordered (xs ++ h ∷ []) (ys ++ h ∷ [])
IsReordered-append h xs ys e a =
    omega (arith, e a, count-append a xs (h ∷ []), count-append a ys (h ∷ []))

count-retain_ne :
    (a h : String) (xs : List String)
    → count a (retain_ne xs h) ≡ (if h == a then 0 else count a xs)
unfolding count
count-retain_ne a h [] = ground arith
count-retain_ne a h (x ∷ xs) =
    ground (arith, count-retain_ne a h xs, eq_iff x h, eq_iff h a, eq_iff x a)

pub IsReordered-retain_ne :
    (h : String) (xs ys : List String)
    → IsReordered xs ys
    → IsReordered (retain_ne xs h) (retain_ne ys h)
IsReordered-retain_ne h xs ys e a =
    ground (arith, e a, count-retain_ne a h xs, count-retain_ne a h ys)

unfoldable pub put : String → Bag → Bag
put h =
    Quot.lift Quot-set (λ xs. bag (xs ++ h ∷ []))
      λ xs ys e. Quot.sound (IsReordered-append h xs ys e)

unfoldable pub without : String → Bag → Bag
without h =
    Quot.lift Quot-set (λ xs. bag (retain_ne xs h))
      λ xs ys e. Quot.sound (IsReordered-retain_ne h xs ys e)

-- The order of additions does not show.
put_comm : (g h : String) (b : Bag) → put g (put h b) ≡ put h (put g b)
unfolding put
put_comm g h =
    Quot.ind (λ b. Quot-set _ _)
      λ xs. Quot.sound λ a. omega (
        arith,
        count-append a xs (h ∷ []),
        count-append a xs (g ∷ []),
        count-append a (xs ++ h ∷ []) (g ∷ []),
        count-append a (xs ++ g ∷ []) (h ∷ []),
      )
