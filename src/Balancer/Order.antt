-- ===== src/Balancer/Order.antt =====
-- The order of service (balancer.rs): who is served, and the first of them.
use cw_croncat.Base.{
  ℕ, zero, suc, ◌+◌, ◌<◌, ◌≡◌, refl, ◌∙◌, true, false, List, [], ◌∷◌, ◌++◌, map, arith, ltb, leb,
  eqb_iff, ◌&&◌, ◌||◌, not,
}
use cw_croncat.Balancer.{
  Index, rich, indices_from, contains_index, vect_difference, insert_index, sort_indices,
  service_order,
}

abbrev pub IsDistinct : List ℕ → Type 0
IsDistinct [] = Unit {0}
IsDistinct (x ∷ xs) = (contains_index xs x ≡ false) × IsDistinct xs

abbrev pub IsBelow : ℕ → List ℕ → Type 0
IsBelow n xs = (k : ℕ) → contains_index xs k ≡ true → k < n

-- The agents of entries.
abbrev pub agents_of : List Index → List ℕ
agents_of es = map (λ (e : Index). e.1) es

contains-append :
    (xs ys : List ℕ) (k : ℕ)
    → contains_index (xs ++ ys) k ≡ contains_index xs k || contains_index ys k
contains-append [] ys k = ground arith
contains-append (x ∷ xs) ys k = ground (arith, contains-append xs ys k)

contains-difference :
    (xs ys : List ℕ) (k : ℕ)
    → contains_index (vect_difference xs ys) k ≡ contains_index xs k && not (contains_index ys k)
unfolding vect_difference
contains-difference [] ys k = ground arith
contains-difference (x ∷ xs) ys k = ground (arith, contains-difference xs ys k, eqb_iff x k)

difference-IsDistinct : (xs ys : List ℕ) → IsDistinct xs → IsDistinct (vect_difference xs ys)
unfolding vect_difference
difference-IsDistinct [] ys d = tt
difference-IsDistinct (x ∷ xs) ys d =
    ground (arith, difference-IsDistinct xs ys d.1, contains-difference xs ys x)

append-IsDistinct :
    (xs ys : List ℕ)
    → IsDistinct xs
    → IsDistinct ys
    → ((k : ℕ) → contains_index xs k ≡ true → contains_index ys k ≡ false)
    → IsDistinct (xs ++ ys)
append-IsDistinct [] ys d e apart = e
append-IsDistinct (x ∷ xs) ys d e apart = (
  ground (arith, contains-append xs ys x, apart x, eqb_iff x x),
  append-IsDistinct xs ys d.1 e (λ k h. apart k (ground arith)),
)

contains-indices_from : (f n k : ℕ) → contains_index (indices_from f n) k ≡ leb f k && ltb k (f + n)
unfolding indices_from
contains-indices_from f zero k = ground arith
contains-indices_from f (suc n) k = ground (arith, contains-indices_from (f + 1) n k, eqb_iff f k)

indices_from-IsDistinct : (f n : ℕ) → IsDistinct (indices_from f n)
unfolding indices_from
indices_from-IsDistinct f zero = tt
indices_from-IsDistinct f (suc n) =
    (ground (arith, contains-indices_from (f + 1) n f), indices_from-IsDistinct (f + 1) n)

contains-insert_index :
    (e : Index) (es : List Index) (k : ℕ)
    → contains_index (agents_of (insert_index e es)) k ≡ contains_index (e.1 ∷ agents_of es) k
unfolding insert_index
contains-insert_index (s, i, x) [] k = refl
contains-insert_index (s, i, x) ((t, j, y) ∷ es) k =
    ground (arith, contains-insert_index (s, i, x) es k)

insert_index-IsDistinct :
    (e : Index) (es : List Index)
    → IsDistinct (e.1 ∷ agents_of es)
    → IsDistinct (agents_of (insert_index e es))
unfolding insert_index
insert_index-IsDistinct (s, i, x) [] d = d
insert_index-IsDistinct (s, i, x) ((t, j, y) ∷ es) d = ground (
  arith,
  contains-insert_index (s, i, x) es j,
  insert_index-IsDistinct (s, i, x) es,
  eqb_iff i j,
  eqb_iff j i,
)

contains-sort_indices :
    (es : List Index) (k : ℕ)
    → contains_index (agents_of (sort_indices es)) k ≡ contains_index (agents_of es) k
unfolding sort_indices
contains-sort_indices [] k = refl
contains-sort_indices (e ∷ es) k =
    ground (arith, contains-insert_index e (sort_indices es) k, contains-sort_indices es k)

sort_indices-IsDistinct :
    (es : List Index) → IsDistinct (agents_of es) → IsDistinct (agents_of (sort_indices es))
unfolding sort_indices
sort_indices-IsDistinct [] d = tt
sort_indices-IsDistinct (e ∷ es) d =
    insert_index-IsDistinct e (sort_indices es)
      (contains-sort_indices es e.1 ∙ d.0, sort_indices-IsDistinct es d.1)

pub service_order-IsDistinct :
    (n : ℕ) (es : List Index) → IsDistinct (agents_of (rich es)) → IsDistinct (service_order n es)
unfolding service_order
service_order-IsDistinct n es d =
    let rs = agents_of (sort_indices (rich es)) in
    append-IsDistinct (vect_difference (indices_from 0 n) rs) rs
      (difference-IsDistinct (indices_from 0 n) rs (indices_from-IsDistinct 0 n))
      (sort_indices-IsDistinct (rich es) d)
      (λ k h. ground (arith, contains-difference (indices_from 0 n) rs k))

pub contains-service_order :
    (n : ℕ) (es : List Index) (k : ℕ)
    → contains_index (service_order n es) k ≡ ltb k n || contains_index (agents_of (rich es)) k
unfolding service_order
contains-service_order n es k =
    let rs = agents_of (sort_indices (rich es)) in
    ground (
      arith,
      contains-append (vect_difference (indices_from 0 n) rs) rs k,
      contains-difference (indices_from 0 n) rs k,
      contains-indices_from 0 n k,
      contains-sort_indices (rich es) k,
    )

pub service_order-IsBelow :
    (n : ℕ) (es : List Index) → IsBelow n (agents_of (rich es)) → IsBelow n (service_order n es)
service_order-IsBelow n es b k h = ground (arith, contains-service_order n es k, b k)
