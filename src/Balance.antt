-- ===== src/Balance.antt =====
-- `GenericBalance::add_tokens` and `minus_tokens` (packages/cw-croncat-core/src/types.rs), and
-- `has_cw_coins` (contracts/cw-croncat/src/helpers.rs).
pub mod Amounts
pub mod Enough
pub mod Order
use cw_croncat.Base.{◌+◌, Bool, false, List, [], ◌∷◌, ◌==◌, leb, if◌then◌else◌}
use cw_croncat.Base.Outcome.{Outcome, ok, bind, checked, checked_sub, u128_mod}
use cw_croncat.Types.{Coin, Cw20CoinVerified, Balance, native, cw20, GenericBalance}

-- One token of the loop: the first coin of its denomination grows, or the token is pushed.
unfoldable pub add_coin : List Coin → Coin → Outcome (List Coin)
add_coin [] token = ok (token ∷ [])
add_coin (c ∷ cs) token =
    if c.denom == token.denom
    then bind (checked u128_mod (c.amount + token.amount)) (λ n. ok (record c { amount = n } ∷ cs))
    else bind (add_coin cs token) (λ ds. ok (c ∷ ds))

unfoldable pub add_coins : List Coin → List Coin → Outcome (List Coin)
unfolding add_coin
add_coins cs [] = ok cs
add_coins cs (token ∷ rest) = bind (add_coin cs token) (λ ds. add_coins ds rest)

unfoldable pub add_cw20 : List Cw20CoinVerified → Cw20CoinVerified → Outcome (List Cw20CoinVerified)
add_cw20 [] token = ok (token ∷ [])
add_cw20 (c ∷ cs) token =
    if c.address == token.address
    then bind (checked u128_mod (c.amount + token.amount)) (λ n. ok (record c { amount = n } ∷ cs))
    else bind (add_cw20 cs token) (λ ds. ok (c ∷ ds))

unfoldable pub add_tokens : GenericBalance → Balance → Outcome GenericBalance
unfolding add_coins add_cw20
add_tokens b (native balance) =
    bind (add_coins b.native_coins balance) (λ cs. ok (record b { native_coins = cs }))
add_tokens b (cw20 token) =
    bind (add_cw20 b.cw20_coins token) (λ cs. ok (record b { cw20_coins = cs }))

-- One token of the loop: the first coin of its denomination shrinks; a token of none is skipped.
unfoldable pub minus_coin : List Coin → Coin → Outcome (List Coin)
minus_coin [] token = ok []
minus_coin (c ∷ cs) token =
    if c.denom == token.denom
    then bind (checked_sub c.amount token.amount) (λ n. ok (record c { amount = n } ∷ cs))
    else bind (minus_coin cs token) (λ ds. ok (c ∷ ds))

unfoldable pub minus_coins : List Coin → List Coin → Outcome (List Coin)
unfolding minus_coin
minus_coins cs [] = ok cs
minus_coins cs (token ∷ rest) = bind (minus_coin cs token) (λ ds. minus_coins ds rest)

unfoldable pub minus_cw20 :
    List Cw20CoinVerified → Cw20CoinVerified → Outcome (List Cw20CoinVerified)
minus_cw20 [] token = ok []
minus_cw20 (c ∷ cs) token =
    if c.address == token.address
    then bind (checked_sub c.amount token.amount) (λ n. ok (record c { amount = n } ∷ cs))
    else bind (minus_cw20 cs token) (λ ds. ok (c ∷ ds))

unfoldable pub minus_tokens : GenericBalance → Balance → Outcome GenericBalance
unfolding minus_coins minus_cw20
minus_tokens b (native balance) =
    bind (minus_coins b.native_coins balance) (λ cs. ok (record b { native_coins = cs }))
minus_tokens b (cw20 token) =
    bind (minus_cw20 b.cw20_coins token) (λ cs. ok (record b { cw20_coins = cs }))

-- The first coin of the address decides.
unfoldable pub has_cw_coins : List Cw20CoinVerified → Cw20CoinVerified → Bool
has_cw_coins [] required = false
has_cw_coins (c ∷ cs) required =
    if c.address == required.address then leb required.amount c.amount else has_cw_coins cs required
