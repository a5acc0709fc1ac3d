-- ===== src/Owner.antt =====
-- contracts/cw-croncat/src/owner.rs: the handlers of the contract's owner.
pub mod Moves
pub mod Payments
use cw_croncat.Base.{
  Bool, true, false, not, ◌&&◌, Option, none, some, List, [], ◌∷◌, ◌==◌, inl, inr, ltb,
  if◌then◌else◌,
}
use cw_croncat.Base.Outcome.{
  Outcome, ok, panic, bind, M, ◌>>=◌, ◌>>◌, gets, modify, pure, lift, fail_if, custom_error,
  unauthorized, attached_deposit, from_std,
}
use cw_croncat.Types.{Addr, Coin, GenericBalance, Balance, SubMsg, new, bank_send, wasm_execute}
use cw_croncat.External.{External}
use cw_croncat.State.{State, Config, Env, MessageInfo}
use cw_croncat.Messages.{Settings}
use cw_croncat.Response.{Response, response, text, number, flag, coin, indices}
use cw_croncat.Balance.{minus_tokens, has_cw_coins}
use cw_croncat.Agent.{Querier}

-- Whether some attached coin is not zero.
unfoldable pub has_deposit : List Coin → Bool
has_deposit [] = false
has_deposit (c ∷ cs) = if ltb 0 c.amount then true else has_deposit cs

-- `if let Some(x) = new { field = x; }`
abbrev pub or_keep : {A : Type 0} → Option A → A → A
or_keep none old = old
or_keep (some a) old = a

unfoldable pub apply_settings : Settings → Config → Config
apply_settings p c = record c {
  owner_id = or_keep p.owner_id c.owner_id;
  slot_granularity = or_keep p.slot_granularity c.slot_granularity;
  paused = or_keep p.paused c.paused;
  gas_price = or_keep p.gas_price c.gas_price;
  proxy_callback_gas = or_keep p.proxy_callback_gas c.proxy_callback_gas;
  agent_fee = or_keep p.agent_fee c.agent_fee;
  min_tasks_per_agent = or_keep p.min_tasks_per_agent c.min_tasks_per_agent;
  agents_eject_threshold = or_keep p.agents_eject_threshold c.agents_eject_threshold;
}

-- The placeholder message of a balance that is not covered.
abbrev placeholder : Addr → SubMsg
placeholder account_id = new (bank_send account_id (record { denom = ""; amount = 0 } ∷ []))

-- The messages, the balance that is left, and whether some balance was not covered. `none` stands
-- for messages that were cut short by an error of `to_binary`.
pub record Moved : Type 0 where
  pub available : GenericBalance
  pub has_fund_err : Bool
  pub messages : Option (List SubMsg)

abbrev pub with_message : SubMsg → Moved → Moved
with_message m r = record r { messages = elim r.messages [ none ↦ none | some ms ↦ some (m ∷ ms) ] }

module _ (E : External) where
  unfoldable pub update_settings : MessageInfo → Settings → M (State E) Response
  unfolding has_deposit apply_settings
  update_settings info payload = do
    fail_if (has_deposit info.funds) attached_deposit
    config ← gets (λ s. s.config)
    fail_if (not (info.sender == config.owner_id)) unauthorized
    let c = apply_settings payload config
    modify (λ s. record s { config = c })
    pure (
        response
          (("method", text "update_settings")
            ∷ ("paused", flag c.paused)
            ∷ ("owner_id", text c.owner_id)
            ∷ ("min_tasks_per_agent", number c.min_tasks_per_agent)
            ∷ ("agent_active_indices", indices c.agent_active_indices)
            ∷ ("agents_eject_threshold", number c.agents_eject_threshold)
            ∷ ("native_denom", text c.native_denom)
            ∷ ("agent_fee", coin c.agent_fee)
            ∷ ("gas_price", number c.gas_price)
            ∷ ("proxy_callback_gas", number c.proxy_callback_gas)
            ∷ ("slot_granularity", number c.slot_granularity)
            ∷ [])
          [])

  -- The closure over `balances`, each taken from what is left; an uncovered one leaves a mark.
  unfoldable pub move_each : List Coin → Addr → List Balance → GenericBalance → Bool → Outcome Moved
  move_each state_balances account_id [] available has_err =
      ok (record { available = available; has_fund_err = has_err; messages = some [] })
  move_each state_balances account_id (Balance.native [] ∷ rest) available has_err = panic
  move_each state_balances account_id (Balance.native (b ∷ bs) ∷ rest) available has_err =
      let uncovered =
        bind (move_each state_balances account_id rest available true)
          (λ r. ok (with_message (placeholder account_id) r)) in
      let covered = bind (minus_tokens available (Balance.native (b ∷ bs))) (λ left.
        bind (move_each state_balances account_id rest left has_err)
          (λ r. ok (with_message (new (bank_send account_id (b ∷ bs))) r))) in
      if E.has_coins state_balances b then covered else uncovered
  move_each state_balances account_id (Balance.cw20 token ∷ rest) available has_err =
      let uncovered =
        bind (move_each state_balances account_id rest available true)
          (λ r. ok (with_message (placeholder account_id) r)) in
      let covered = bind (minus_tokens available (Balance.cw20 token)) (λ left.
        elim (E.transfer_binary account_id token.amount) [
          | inl _ ↦ ok (record { available = left; has_fund_err = has_err; messages = none })
          | inr msg ↦
              bind (move_each state_balances account_id rest left has_err)
                (λ r. ok (with_message (new (wasm_execute token.address msg [])) r))
        ]) in
      if has_cw_coins available.cw20_coins token then covered else uncovered

  -- `messages.unwrap()`
  abbrev pub unwrap : {A : Type 0} → Option A → Outcome A
  unwrap none = panic
  unwrap (some a) = ok a

  unfoldable pub move_balances :
      Querier → MessageInfo → Env → List Balance → Addr → M (State E) Response
  unfolding move_each
  move_balances query_all_balances info env balances account_id = do
    config ← gets (λ s. s.config)
    fail_if (not (info.sender == config.owner_id)) unauthorized
    fail_if (not (config.owner_id == account_id) && not (config.owner_id == account_id))
        (custom_error "Cannot move funds to this account")
    state_balances ← lift (from_std (query_all_balances env.contract_address))
    moved ← lift (move_each state_balances account_id balances config.available_balance false)
    fail_if moved.has_fund_err (custom_error "Not enough funds")
    modify (λ s. record s { config = record config { available_balance = moved.available } })
    messages ← lift (unwrap moved.messages)
    pure
        (response (("method", text "move_balance") ∷ ("account_id", text account_id) ∷ []) messages)
