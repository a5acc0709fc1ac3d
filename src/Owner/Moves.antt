-- ===== src/Owner/Moves.antt =====
-- The closure of `move_balances` (owner.rs): a rule for what holds of each balance left and the messages
-- so far, what the messages are, and what they pay.
use cw_croncat.Base.{
  subst, ℕ, ◌+◌, ◌≡◌, ◌⊎◌, refl, String, Bool, true, false, none, some, List, [], ◌∷◌, arith,
  if◌then◌else◌, Option-cases, inl, inr,
}
use cw_croncat.Base.Outcome.{Outcome, ok, err, panic, bind, Yields, Yields-bind, yields_ok}
use cw_croncat.Types.{
  Addr, Coin, Balance, Cw20CoinVerified, GenericBalance, SubMsg, CosmosMsg, new, reply_always,
  with_gas_limit, bank_send, wasm_execute, bank_burn, gov_vote, ibc_transfer, other,
}
use cw_croncat.External.{External}
use cw_croncat.Balance.{minus_tokens, minus_cw20, has_cw_coins}
use cw_croncat.Balance.Amounts.{amount_of, has_denom, sent, minus_tokens-amount, minus_tokens-denom}
use cw_croncat.Owner.{Moved, with_message, placeholder, move_each}

Yields-if :
    {A : Type 0} (P : A → Type 0) (c : Bool) (x y : Outcome A)
    → Yields P x
    → Yields P y
    → Yields P (if c then x else y)
Yields-if P true x y hx hy = hx
Yields-if P false x y hx hy = hy

itself : {A : Type 0} (r : Outcome A) → Yields (λ a. r ≡ ok a) r
itself (ok a) = refl
itself (err e) = tt
itself panic = tt

-- What holds of the moves from a balance on.
pub record IsMoving (E : External) (a : Addr) (Q : GenericBalance → Moved → Type 0) : Type 0 where
  pub nothing :
      (g : GenericBalance) (b : Bool)
      → Q g (record { available = g; has_fund_err = b; messages = some [] })
  pub unsendable :
      (g left : GenericBalance) (b : Bool)
      → Q g (record { available = left; has_fund_err = b; messages = none })
  pub uncovered : (g : GenericBalance) (r : Moved) → Q g r → Q g (with_message (placeholder a) r)
  pub coins :
      (g left : GenericBalance) (cs : List Coin) (r : Moved)
      → minus_tokens g (Balance.native cs) ≡ ok left
      → Q left r
      → Q g (with_message (new (bank_send a cs)) r)
  pub token :
      (g left : GenericBalance) (t : Cw20CoinVerified) (msg : List ℕ) (r : Moved)
      → minus_tokens g (Balance.cw20 t) ≡ ok left
      → E.transfer_binary a t.amount ≡ inr msg
      → Q left r
      → Q g (with_message (new (wasm_execute t.address msg [])) r)

module _ (E : External) (a : Addr) {Q : GenericBalance → Moved → Type 0} (W : IsMoving E a Q) where
  prepend :
      (g left : GenericBalance) (m : SubMsg) (r : Outcome Moved)
      → ((x : Moved) → Q left x → Q g (with_message m x))
      → Yields (Q left) r
      → Yields (Q g) (bind r (λ x. ok (with_message m x)))
  prepend g left m r step h = Yields-bind (Q left) (Q g) r _ h λ x k. step x k

  transfer :
      (g left : GenericBalance) (t : Cw20CoinVerified) (b : Bool) (o : String ⊎ List ℕ)
      (r : Outcome Moved)
      → minus_tokens g (Balance.cw20 t) ≡ ok left
      → E.transfer_binary a t.amount ≡ o
      → Yields (Q left) r
      → Yields (Q g) (elim o [
        | inl _ ↦ ok (record { available = left; has_fund_err = b; messages = none })
        | inr msg ↦ bind r (λ x. ok (with_message (new (wasm_execute t.address msg [])) x))
      ])
  transfer g left t b (inl _) r took e h = W.unsendable g left b
  transfer g left t b (inr msg) r took e h =
      prepend g left _ r (λ x. W.token g left t msg x took e) h

  pub move_each-Moving :
      (cs : List Coin) (bs : List Balance) (g : GenericBalance) (b : Bool)
      → Yields (Q g) (move_each E cs a bs g b)
  unfolding move_each
  move_each-Moving cs [] g b = W.nothing g b
  move_each-Moving cs (Balance.native [] ∷ rest) g b = tt
  move_each-Moving cs (Balance.native (c ∷ ds) ∷ rest) g b =
      Yields-if _ (E.has_coins cs c) _ _
        (Yields-bind _ _ (minus_tokens g (Balance.native (c ∷ ds))) _ (itself _) λ left took.
          prepend g left _ _ (λ x. W.coins g left (c ∷ ds) x took)
            (move_each-Moving cs rest left b))
        (prepend g g _ _ (λ x. W.uncovered g x) (move_each-Moving cs rest g true))
  move_each-Moving cs (Balance.cw20 t ∷ rest) g b =
      Yields-if _ (has_cw_coins g.cw20_coins t) _ _
        (Yields-bind _ _ (minus_tokens g (Balance.cw20 t)) _ (itself _)
          λ left took. transfer g left t b _ _ took refl (move_each-Moving cs rest left b))
        (prepend g g _ _ (λ x. W.uncovered g x) (move_each-Moving cs rest g true))

-- What a message takes of a denomination from the account of the contract.
unfoldable pub drawn : String → CosmosMsg → ℕ
drawn d (wasm_execute contract msg funds) = sent d funds
drawn d (bank_send to amount) = sent d amount
drawn d (bank_burn amount) = sent d amount
drawn d (ibc_transfer channel to amount) = sent d (amount ∷ [])
drawn d (gov_vote id) = 0
drawn d (other data_bytes) = 0

unfoldable pub cosmos_msg : SubMsg → CosmosMsg
cosmos_msg (new m) = m
cosmos_msg (reply_always m id) = m
cosmos_msg (with_gas_limit m limit) = cosmos_msg m

unfoldable pub paid : String → List SubMsg → ℕ
unfolding drawn cosmos_msg
paid d [] = 0
paid d (m ∷ ms) = drawn d (cosmos_msg m) + paid d ms

-- What is held before is what is left and what the messages pay.
abbrev pub IsSpent : GenericBalance → Moved → Type 0
IsSpent g r =
    (ms : List SubMsg)
    → r.messages ≡ some ms
    → (d : String)
    → amount_of d r.available.native_coins + (if has_denom d g.native_coins then paid d ms else 0)
      ≡ amount_of d g.native_coins

-- One message more, which pays `n` of a denomination that is held.
spends :
    (g left : GenericBalance) (m : SubMsg) (r : Moved)
    → ((d : String)
        → (amount_of d left.native_coins
              + (if has_denom d g.native_coins then drawn d (cosmos_msg m) else 0)
            ≡ amount_of d g.native_coins)
          × (has_denom d left.native_coins ≡ has_denom d g.native_coins))
    → IsSpent left r
    → IsSpent g (with_message m r)
unfolding paid
spends g left m r took h ms e d = elim (Option-cases r.messages) [
  | inl n ↦ absurd (ground arith)
  | inr (ns, n) ↦
      let same : m ∷ ns ≡ ms = ground arith in
      subst
        (λ (xs : List SubMsg).
          amount_of d r.available.native_coins
            + (if has_denom d g.native_coins then paid d xs else 0)
          ≡ amount_of d g.native_coins)
        same (ground (arith, took d, h ns n d))
]

minus_tokens-cw20 :
    (g left : GenericBalance) (t : Cw20CoinVerified)
    → minus_tokens g (Balance.cw20 t) ≡ ok left
    → left.native_coins ≡ g.native_coins
unfolding minus_tokens
minus_tokens-cw20 g left t =
    yields_ok (λ (x : GenericBalance). x.native_coins ≡ g.native_coins) _
      (Yields-bind _ _ (minus_cw20 g.cw20_coins t) _ (itself _) λ cs h. refl)

pub moving-IsSpent : (E : External) (a : Addr) → IsMoving E a IsSpent
unfolding paid drawn cosmos_msg sent minus_tokens
moving-IsSpent E a = record {
  nothing = λ g b ms e d. ground arith;
  unsendable = λ g left b ms e. absurd (ground arith);
  uncovered = λ g r. spends g g (placeholder a) r (λ d. ground arith);
  coins = λ g left cs r took.
      spends g left (new (bank_send a cs)) r
        (λ d. ((minus_tokens-amount g left cs d took).0, minus_tokens-denom g left cs d took));
  token = λ g left t msg r took sendable.
      spends g left (new (wasm_execute t.address msg [])) r
        (λ d. ground (arith, minus_tokens-cw20 g left t took));
}
