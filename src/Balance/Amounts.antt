-- ===== src/Balance/Amounts.antt =====
-- What `add_tokens` and `minus_tokens` do to the amount that is held of each denomination.
use cw_croncat.Base.{
  ℕ, ◌+◌, ◌≡◌, refl, String, Bool, true, false, List, [], ◌∷◌, arith, ◌==◌, eq_iff, if◌then◌else◌,
  inl, inr, Bool-cases,
}
use cw_croncat.Base.Outcome.{
  ok, u128_mod, checked, checked_sub, Yields, Yields-bind, Yields-mono, checked-Yields,
  checked_sub-Yields, yields_ok,
}
use cw_croncat.Types.{Coin, Balance, GenericBalance}
use cw_croncat.Balance.{add_coin, add_coins, minus_coin, minus_coins, add_tokens, minus_tokens}

-- The amount of the first coin of a denomination, which is the one that the loops change.
unfoldable pub amount_of : String → List Coin → ℕ
amount_of d [] = 0
amount_of d (c ∷ cs) = if c.denom == d then c.amount else amount_of d cs

unfoldable pub has_denom : String → List Coin → Bool
has_denom d [] = false
has_denom d (c ∷ cs) = if c.denom == d then true else has_denom d cs

-- What a list of tokens holds of a denomination, over all its coins.
unfoldable pub sent : String → List Coin → ℕ
sent d [] = 0
sent d (c ∷ cs) = (if c.denom == d then c.amount else 0) + sent d cs

abbrev pub added : String → Coin → ℕ
added d token = if token.denom == d then token.amount else 0

pub add_coin-amount :
    (d : String) (cs : List Coin) (token : Coin)
    → Yields (λ ds. amount_of d ds ≡ amount_of d cs + added d token) (add_coin cs token)
unfolding add_coin amount_of
add_coin-amount d [] token = ground (arith, eq_iff token.denom d)
add_coin-amount d (c ∷ cs) token = elim (Bool-cases (c.denom == token.denom)) [
  | inl e ↦ rw e (
      Yields-bind _ _ (checked u128_mod (c.amount + token.amount)) _ (checked-Yields u128_mod _)
        λ n h. ground (arith, eq_iff c.denom token.denom, eq_iff token.denom d, eq_iff c.denom d))
  | inr e ↦ rw e (
      Yields-bind _ _ (add_coin cs token) _ (add_coin-amount d cs token)
        λ ds h. ground (arith, eq_iff c.denom token.denom, eq_iff token.denom d, eq_iff c.denom d))
]

add_coins-amount :
    (d : String) (cs tokens : List Coin)
    → Yields (λ ds. amount_of d ds ≡ amount_of d cs + sent d tokens) (add_coins cs tokens)
unfolding add_coins sent
add_coins-amount d cs [] = omega arith
add_coins-amount d cs (token ∷ rest) =
    Yields-bind _ _ (add_coin cs token) _ (add_coin-amount d cs token)
      λ ds h. Yields-mono _ _ (add_coins ds rest) (add_coins-amount d ds rest) λ es k. omega arith

pub minus_coin-amount :
    (d : String) (cs : List Coin) (token : Coin)
    → Yields
        (λ ds.
          (amount_of d ds + (if has_denom d cs then added d token else 0) ≡ amount_of d cs)
          × (has_denom d ds ≡ has_denom d cs))
        (minus_coin cs token)
unfolding minus_coin amount_of has_denom
minus_coin-amount d [] token = (omega arith, refl)
minus_coin-amount d (c ∷ cs) token = elim (Bool-cases (c.denom == token.denom)) [
  | inl e ↦ rw e (
      Yields-bind _ _ (checked_sub c.amount token.amount) _ (checked_sub-Yields c.amount _)
        λ n h. ground (arith, eq_iff c.denom token.denom, eq_iff token.denom d, eq_iff c.denom d))
  | inr e ↦ rw e (
      Yields-bind _ _ (minus_coin cs token) _ (minus_coin-amount d cs token)
        λ ds h. ground (arith, eq_iff c.denom token.denom, eq_iff token.denom d, eq_iff c.denom d))
]

minus_coins-amount :
    (d : String) (cs tokens : List Coin)
    → Yields
        (λ ds. amount_of d ds + (if has_denom d cs then sent d tokens else 0) ≡ amount_of d cs)
        (minus_coins cs tokens)
unfolding minus_coins sent
minus_coins-amount d cs [] = ground arith
minus_coins-amount d cs (token ∷ rest) =
    Yields-bind _ _ (minus_coin cs token) _ (minus_coin-amount d cs token) λ ds h.
      Yields-mono _ _ (minus_coins ds rest) (minus_coins-amount d ds rest) λ es k. ground arith

-- Adding native tokens raises the held amount of every denomination by the sum that the tokens hold
-- of it, and leaves the cw20 coins alone.
pub add_tokens-amount :
    (b b' : GenericBalance) (tokens : List Coin) (d : String)
    → add_tokens b (Balance.native tokens) ≡ ok b'
    → (amount_of d b'.native_coins ≡ amount_of d b.native_coins + sent d tokens)
      × (b'.cw20_coins ≡ b.cw20_coins)
unfolding add_tokens
add_tokens-amount b b' tokens d =
    yields_ok
      (λ x.
        (amount_of d x.native_coins ≡ amount_of d b.native_coins + sent d tokens)
        × (x.cw20_coins ≡ b.cw20_coins))
      _
      (Yields-bind _ _ (add_coins b.native_coins tokens) _
        (add_coins-amount d b.native_coins tokens) λ ds h. (h, refl))

-- Taking native tokens lowers the held amount of a denomination by the sum that the tokens hold of
-- it, where some coin of it is held, and by nothing elsewhere; the cw20 coins stay.
pub minus_tokens-amount :
    (b b' : GenericBalance) (tokens : List Coin) (d : String)
    → minus_tokens b (Balance.native tokens) ≡ ok b'
    → (amount_of d b'.native_coins + (if has_denom d b.native_coins then sent d tokens else 0)
        ≡ amount_of d b.native_coins)
      × (b'.cw20_coins ≡ b.cw20_coins)
unfolding minus_tokens
minus_tokens-amount b b' tokens d =
    yields_ok
      (λ x.
        (amount_of d x.native_coins + (if has_denom d b.native_coins then sent d tokens else 0)
          ≡ amount_of d b.native_coins)
        × (x.cw20_coins ≡ b.cw20_coins))
      _
      (Yields-bind _ _ (minus_coins b.native_coins tokens) _
        (minus_coins-amount d b.native_coins tokens) λ ds h. (h, refl))

minus_coins-denom :
    (d : String) (cs tokens : List Coin)
    → Yields (λ ds. has_denom d ds ≡ has_denom d cs) (minus_coins cs tokens)
unfolding minus_coins
minus_coins-denom d cs [] = refl
minus_coins-denom d cs (token ∷ rest) =
    Yields-bind _ _ (minus_coin cs token) _ (minus_coin-amount d cs token) λ ds h.
      Yields-mono _ _ (minus_coins ds rest) (minus_coins-denom d ds rest) λ es k. ground arith

-- No denomination goes, even at an amount of 0.
pub minus_tokens-denom :
    (b b' : GenericBalance) (tokens : List Coin) (d : String)
    → minus_tokens b (Balance.native tokens) ≡ ok b'
    → has_denom d b'.native_coins ≡ has_denom d b.native_coins
unfolding minus_tokens
minus_tokens-denom b b' tokens d =
    yields_ok (λ x. has_denom d x.native_coins ≡ has_denom d b.native_coins) _
      (Yields-bind _ _ (minus_coins b.native_coins tokens) _
        (minus_coins-denom d b.native_coins tokens) λ ds h. h)
