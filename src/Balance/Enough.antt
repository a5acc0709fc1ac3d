-- ===== src/Balance/Enough.antt =====
-- When `minus_tokens` (packages/cw-croncat-core/src/types.rs) does not panic.
use cw_croncat.Base.{
  ◌+◌, ◌-◌, ◌≤◌, ◌≡◌, refl, String, true, false, List, [], ◌∷◌, arith, ◌==◌, eq_iff, if◌then◌else◌,
  inl, inr, Bool-cases,
}
use cw_croncat.Base.Outcome.{ok, yields_ok}
use cw_croncat.Types.{Coin, Balance, GenericBalance}
use cw_croncat.Balance.{minus_coin, minus_coins, minus_tokens, add_tokens}
use cw_croncat.Balance.Amounts.{
  amount_of, has_denom, sent, added, minus_coin-amount, add_tokens-amount, minus_tokens-amount,
}

-- What is held of a denomination covers what a token takes of it.
abbrev Covers : List Coin → Coin → Type 0
Covers cs token = has_denom token.denom cs ≡ true → token.amount ≤ amount_of token.denom cs

minus_coin-Covers :
    (cs : List Coin) (token : Coin)
    → Covers cs token
    → (ds : List Coin) × (minus_coin cs token ≡ ok ds)
unfolding minus_coin amount_of has_denom
minus_coin-Covers [] token h = ([], refl)
minus_coin-Covers (c ∷ cs) token h = elim (Bool-cases (c.denom == token.denom)) [
  | inl e ↦ (record c { amount = c.amount - token.amount } ∷ cs, ground arith)
  | inr e ↦ let (ds, f) = minus_coin-Covers cs token (λ k. ground arith) in (c ∷ ds, ground arith)
]

-- Token by token, over all denominations.
abbrev CoversAll : List Coin → List Coin → Type 0
CoversAll cs tokens = (d : String) → has_denom d cs ≡ true → sent d tokens ≤ amount_of d cs

taken :
    (cs : List Coin) (token : Coin) (ds : List Coin)
    → minus_coin cs token ≡ ok ds
    → (d : String)
    → (amount_of d ds + (if has_denom d cs then added d token else 0) ≡ amount_of d cs)
      × (has_denom d ds ≡ has_denom d cs)
taken cs token ds e d =
    yields_ok
      (λ (xs : List Coin).
        (amount_of d xs + (if has_denom d cs then added d token else 0) ≡ amount_of d cs)
        × (has_denom d xs ≡ has_denom d cs))
      (minus_coin cs token) (minus_coin-amount d cs token) e

minus_coins-Covers :
    (cs tokens : List Coin)
    → CoversAll cs tokens
    → (ds : List Coin) × (minus_coins cs tokens ≡ ok ds)
unfolding minus_coins sent
minus_coins-Covers cs [] h = (cs, refl)
minus_coins-Covers cs (token ∷ rest) h =
    let (ds, e) =
      minus_coin-Covers cs token
        (λ k. ground (arith, h token.denom, eq_iff token.denom token.denom)) in
    let (es, f) = minus_coins-Covers ds rest (λ d k. ground (arith, taken cs token ds e d, h d)) in
    (es, ground arith)

amount_of-absent : (d : String) (cs : List Coin) → has_denom d cs ≡ false → amount_of d cs ≡ 0
unfolding amount_of has_denom
amount_of-absent d [] h = refl
amount_of-absent d (c ∷ cs) h = ground (arith, amount_of-absent d cs)

-- What has been added can be taken again, and then each denomination has the amount that it had.
pub minus_tokens-add_tokens :
    (b b' : GenericBalance) (tokens : List Coin)
    → add_tokens b (Balance.native tokens) ≡ ok b'
    → (g : GenericBalance) × (minus_tokens b' (Balance.native tokens) ≡ ok g)
      × ((d : String) → amount_of d g.native_coins ≡ amount_of d b.native_coins)
unfolding minus_tokens
minus_tokens-add_tokens b b' tokens e =
    let (ds, f) =
      minus_coins-Covers b'.native_coins tokens
        (λ d k. omega (arith, (add_tokens-amount b b' tokens d e).0)) in
    (
      record b' { native_coins = ds },
      ground arith,
      λ d. ground (
        arith,
        (add_tokens-amount b b' tokens d e).0,
        amount_of-absent d b'.native_coins,
        (minus_tokens-amount b' (record b' { native_coins = ds }) tokens d (ground arith)).0,
      ),
    )
