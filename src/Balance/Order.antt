-- ===== src/Balance/Order.antt =====
-- `add_tokens` (packages/cw-croncat-core/src/types.rs) of two lists of coins, in either order.
use cw_croncat.Base.{
  ◌∙◌, ◌+◌, ◌<◌, ◌≡◌, refl, String, true, List, [], ◌∷◌, arith, ◌==◌, ◌||◌, eq_iff, inl, inr,
  Bool-cases,
}
use cw_croncat.Base.Outcome.{
  ok, u128_mod, Yields, Yields-bind, yields_ok, bind_parts, checked, checked-Yields,
}
use cw_croncat.Types.{Coin, Balance, GenericBalance}
use cw_croncat.Balance.{add_coin, add_coins, add_tokens}
use cw_croncat.Balance.Amounts.{amount_of, has_denom, added, add_coin-amount}

-- Coins with the same amounts of the same denominations, in whatever order.
abbrev pub Same : List Coin → List Coin → Type 0
Same cs ds = (d : String) → (amount_of d cs ≡ amount_of d ds) × (has_denom d cs ≡ has_denom d ds)

-- A coin can be added where its denomination is new or its sum fits.
abbrev Fits : List Coin → Coin → Type 0
Fits cs x = has_denom x.denom cs ≡ true → amount_of x.denom cs + x.amount < u128_mod

add_coin-returns :
    (cs : List Coin) (x : Coin) → Fits cs x → (ds : List Coin) × (add_coin cs x ≡ ok ds)
unfolding add_coin amount_of has_denom
add_coin-returns [] x h = (x ∷ [], refl)
add_coin-returns (c ∷ cs) x h = elim (Bool-cases (c.denom == x.denom)) [
  | inl e ↦ (record c { amount = c.amount + x.amount } ∷ cs, ground arith)
  | inr e ↦ let (ds, f) = add_coin-returns cs x (λ k. ground arith) in (c ∷ ds, ground arith)
]

add_coin-Fits : (cs : List Coin) (x : Coin) → Yields (λ _. Fits cs x) (add_coin cs x)
unfolding add_coin amount_of has_denom
add_coin-Fits [] x = λ h. absurd (ground arith)
add_coin-Fits (c ∷ cs) x = elim (Bool-cases (c.denom == x.denom)) [
  | inl e ↦ rw e (
      Yields-bind _ _ (checked u128_mod (c.amount + x.amount)) _ (checked-Yields u128_mod _)
        λ n h k. ground arith)
  | inr e ↦
      rw e (Yields-bind _ _ (add_coin cs x) _ (add_coin-Fits cs x) λ ds h k. ground (arith, h))
]

add_coin-denom :
    (d : String) (cs : List Coin) (x : Coin)
    → Yields (λ ds. has_denom d ds ≡ has_denom d cs || x.denom == d) (add_coin cs x)
unfolding add_coin has_denom
add_coin-denom d [] x = ground arith
add_coin-denom d (c ∷ cs) x = elim (Bool-cases (c.denom == x.denom)) [
  | inl e ↦ rw e (
      Yields-bind _ _ (checked u128_mod (c.amount + x.amount)) _ (checked-Yields u128_mod _)
        λ n h. ground (arith, eq_iff c.denom x.denom, eq_iff x.denom d, eq_iff c.denom d))
  | inr e ↦ rw e (Yields-bind _ _ (add_coin cs x) _ (add_coin-denom d cs x) λ ds h. ground arith)
]

-- What an addition that succeeds tells.
gained :
    (cs ds : List Coin) (x : Coin)
    → add_coin cs x ≡ ok ds
    → Fits cs x
      × ((d : String)
          → (amount_of d ds ≡ amount_of d cs + added d x)
            × (has_denom d ds ≡ has_denom d cs || x.denom == d))
gained cs ds x e = (
  yields_ok (λ _. Fits cs x) _ (add_coin-Fits cs x) e,
  λ d. (
    yields_ok (λ es. amount_of d es ≡ amount_of d cs + added d x) _ (add_coin-amount d cs x) e,
    yields_ok (λ es. has_denom d es ≡ has_denom d cs || x.denom == d) _ (add_coin-denom d cs x) e,
  ),
)

-- On coins with the same amounts an addition goes as well.
add_coin-Same :
    (cs cs' ds : List Coin) (x : Coin)
    → Same cs cs'
    → add_coin cs x ≡ ok ds
    → (ds' : List Coin) × (add_coin cs' x ≡ ok ds') × Same ds ds'
add_coin-Same cs cs' ds x same e =
    let (fits, gain) = gained cs ds x e in
    let (ds', e') = add_coin-returns cs' x (λ k. ground (arith, same x.denom, fits)) in
    (ds', e', λ d. ground (arith, same d, gain d, (gained cs' ds' x e').1 d))

add_coins-Same :
    (xs cs cs' ds : List Coin)
    → Same cs cs'
    → add_coins cs xs ≡ ok ds
    → (ds' : List Coin) × (add_coins cs' xs ≡ ok ds') × Same ds ds'
unfolding add_coins
add_coins-Same [] cs cs' ds same e = (cs', refl, λ d. ground (arith, same d))
add_coins-Same (x ∷ xs) cs cs' ds same e =
    let (es, first, rest) = bind_parts (add_coin cs x) (λ zs. add_coins zs xs) e in
    let (es', first', same') = add_coin-Same cs cs' es x same first in
    let (ds', rest', end) = add_coins-Same xs es es' ds same' rest in (ds', ground arith, end)

-- Two coins.
add_coin_comm :
    (cs ds es : List Coin) (x y : Coin)
    → add_coin cs x ≡ ok ds
    → add_coin ds y ≡ ok es
    → (ds' : List Coin) × (es' : List Coin) × (add_coin cs y ≡ ok ds')
      × (add_coin ds' x ≡ ok es')
      × Same es es'
add_coin_comm cs ds es x y e f =
    let (fits, gain) = gained cs ds x e in
    let (fits', gain') = gained ds es y f in
    let (ds', e') = add_coin-returns cs y (λ k. ground (arith, gain y.denom, fits')) in
    let gained' = (gained cs ds' y e').1 in
    let (es', f') = add_coin-returns ds' x (λ k. ground (
      arith,
      gained' x.denom,
      gain y.denom,
      fits,
      fits',
      eq_iff x.denom y.denom,
      eq_iff y.denom x.denom,
    )) in
    (ds', es', e', f', λ d. ground (arith, gain d, gain' d, gained' d, (gained ds' es' x f').1 d))

Same-trans : (cs ds es : List Coin) → Same cs ds → Same ds es → Same cs es
Same-trans cs ds es p q d = ((p d).0 ∙ (q d).0, (p d).1 ∙ (q d).1)

-- A coin, past a list of coins.
add_coin-add_coins :
    (ys cs ds es : List Coin) (x : Coin)
    → add_coin cs x ≡ ok ds
    → add_coins ds ys ≡ ok es
    → (ds' : List Coin) × (es' : List Coin) × (add_coins cs ys ≡ ok ds')
      × (add_coin ds' x ≡ ok es')
      × Same es es'
unfolding add_coins
add_coin-add_coins [] cs ds es x e f = (cs, ds, refl, e, λ d. ground arith)
add_coin-add_coins (y ∷ ys) cs ds es x e f =
    let (ms, next, rest) = bind_parts (add_coin ds y) (λ zs. add_coins zs ys) f in
    let (ns, ms', e', next', same) = add_coin_comm cs ds ms x y e next in
    let (fs, rest', same') = add_coins-Same ys ms ms' es same rest in
    let (ds', es', e'', f'', same'') = add_coin-add_coins ys ns ms' fs x next' rest' in
    (ds', es', ground arith, f'', Same-trans es fs es' same' same'')

add_coins_comm :
    (xs ys cs ds es : List Coin)
    → add_coins cs xs ≡ ok ds
    → add_coins ds ys ≡ ok es
    → (ds' : List Coin) × (es' : List Coin) × (add_coins cs ys ≡ ok ds')
      × (add_coins ds' xs ≡ ok es')
      × Same es es'
unfolding add_coins
add_coins_comm [] ys cs ds es e f = (es, es, ground arith, refl, λ d. (refl, refl))
add_coins_comm (x ∷ xs) ys cs ds es e f =
    let (ms, first, rest) = bind_parts (add_coin cs x) (λ zs. add_coins zs xs) e in
    let (ns, fs, e', f', same) = add_coins_comm xs ys ms ds es rest f in
    let (ds', ns', e'', first', same') = add_coin-add_coins ys cs ms ns x first e' in
    let (es', rest', same'') = add_coins-Same xs ns ns' fs same' f' in
    (ds', es', e'', ground arith, Same-trans es fs es' same same'')

-- Two additions of native coins that go in one order go in the other, and come to the same amounts.
pub add_tokens_comm :
    (b c d : GenericBalance) (xs ys : List Coin)
    → add_tokens b (Balance.native xs) ≡ ok c
    → add_tokens c (Balance.native ys) ≡ ok d
    → (c' : GenericBalance) × (d' : GenericBalance) × (add_tokens b (Balance.native ys) ≡ ok c')
      × (add_tokens c' (Balance.native xs) ≡ ok d')
      × Same d.native_coins d'.native_coins
      × (d'.cw20_coins ≡ d.cw20_coins)
unfolding add_tokens
add_tokens_comm b c d xs ys e f =
    let (cs, e', same) = bind_parts (add_coins b.native_coins xs) _ e in
    let (ds, f', same') = bind_parts (add_coins c.native_coins ys) _ f in
    let (cs', ds', g, h, alike) = add_coins_comm xs ys b.native_coins cs ds e' (ground arith) in
    (
      record b { native_coins = cs' },
      record b { native_coins = ds' },
      ground arith,
      ground arith,
      λ t. ground (arith, alike t),
      ground arith,
    )
