-- ===== src/Agent/Withdrawal.antt =====
-- `withdraw_agent_balance` (agent.rs): what a withdrawal of rewards pays, and what it leaves.
use cw_croncat.Base.{
  ap, ◌∙◌, ◌+◌, ◌≡◌, ◌↔◌, refl, is_empty, ◌++◌, String, [], ◌∷◌, some, List, arith, if◌then◌else◌,
  Option-cases, inl, inr,
}
use cw_croncat.Base.Outcome.{ok, bind, bind_parts, ◌>>=◌, StdResult-cases}
use cw_croncat.Types.{
  Addr, Coin, Cw20CoinVerified, Binary, Agent, Balance, SubMsg, GenericBalance, new, bank_send,
  wasm_execute,
}
use cw_croncat.External.{External}
use cw_croncat.State.{State, MessageInfo}
use cw_croncat.Response.{Response, response, text}
use cw_croncat.Balance.{minus_tokens}
use cw_croncat.Balance.Amounts.{amount_of, has_denom, sent, minus_tokens-amount}
use cw_croncat.Agent.{cw20_messages, send_tokens, withdraw_balances, withdraw_agent_balance}

module _ (E : External) where
  send_tokens-balance :
      (to : String) (b g : GenericBalance) (ms : List SubMsg)
      → send_tokens E to b ≡ ok (ms, g)
      → g ≡ b
  unfolding send_tokens
  send_tokens-balance to b g ms h = ground arith

  withdraw_agent_balance-state :
      (info : MessageInfo) (s t : State E) (r : Response)
      → withdraw_agent_balance E info s ≡ (ok r, t)
      → (v : Agent) × (E.may_load s.agents info.sender ≡ some v)
        × (send_tokens E v.payable_account_id v.balance ≡ ok (r.messages, v.balance))
        × (minus_tokens s.config.available_balance (Balance.native v.balance.native_coins)
            ≡ ok t.config.available_balance)
        × (t ≡ record s {
          config = record s.config { available_balance = t.config.available_balance };
        })
  unfolding withdraw_agent_balance withdraw_balances ◌>>=◌
  withdraw_agent_balance-state info s t r h =
      elim (Option-cases (E.may_load s.agents info.sender)) [
        | inl e ↦ absurd (ground arith)
        | inr (v, e) ↦ (v, e, ground arith, ground arith, ground arith)
      ]

  -- One transfer for each cw20 coin, by its own contract.
  abbrev pub AreTransfers : Addr → List Cw20CoinVerified → List SubMsg → Type 0
  AreTransfers to [] messages = messages ≡ []
  AreTransfers to (c ∷ cs) messages =
      (transfer : Binary) × (rest : List SubMsg) × (E.transfer_binary to c.amount ≡ inr transfer)
      × (messages ≡ new (wasm_execute c.address transfer []) ∷ rest)
      × AreTransfers to cs rest

  -- The native coins in one bank message, if there are any.
  abbrev pub bank_messages : Addr → List Coin → List SubMsg
  bank_messages to [] = []
  bank_messages to (c ∷ cs) = new (bank_send to (c ∷ cs)) ∷ []

  -- The messages that send a balance to an address.
  abbrev pub IsPayout : Addr → GenericBalance → List SubMsg → Type 0
  IsPayout to b messages =
      (transfers : List SubMsg) × AreTransfers to b.cw20_coins transfers
      × (messages ≡ bank_messages to b.native_coins ++ transfers)

  cw20_messages-AreTransfers :
      (to : Addr) (cs : List Cw20CoinVerified) (ms : List SubMsg)
      → cw20_messages E to cs ≡ ok ms
      → AreTransfers to cs ms
  unfolding cw20_messages
  cw20_messages-AreTransfers to [] ms h = ground arith
  cw20_messages-AreTransfers to (c ∷ cs) ms h =
      elim (StdResult-cases (E.transfer_binary to c.amount)) [
        | inl (_, e) ↦ absurd (ground arith)
        | inr (b, e) ↦
            let sent : bind (cw20_messages E to cs)
                  (λ rest. ok (new (wasm_execute c.address b []) ∷ rest))
                ≡ ok ms =
              rw e at h in
            let (rest, f, whole) = bind_parts (cw20_messages E to cs) _ sent in
            (b, rest, e, ground arith, cw20_messages-AreTransfers to cs rest f)
      ]

  transfers_sent :
      (to : Addr) (cs : List Cw20CoinVerified) (ms : List SubMsg)
      → AreTransfers to cs ms
      → cw20_messages E to cs ≡ ok ms
  unfolding cw20_messages
  transfers_sent to [] ms h = ground arith
  transfers_sent to (c ∷ cs) ms (b, rest, e, f, more) =
      ground (arith, transfers_sent to cs rest more)

  bank_messages-eq :
      (to : Addr) (cs : List Coin)
      → (if is_empty cs then [] else new (bank_send to cs) ∷ []) ≡ bank_messages to cs
  bank_messages-eq to [] = refl
  bank_messages-eq to (c ∷ cs) = refl

  send_tokens-IsPayout :
      (to : Addr) (b : GenericBalance) (ms : List SubMsg)
      → send_tokens E to b ≡ ok (ms, b)
      → IsPayout to b ms
  unfolding send_tokens
  send_tokens-IsPayout to b ms h =
      let (transfers, e, f) = bind_parts (cw20_messages E to b.cw20_coins) _ h in
      (
        transfers,
        cw20_messages-AreTransfers to b.cw20_coins transfers e,
        ground (arith, f, bank_messages-eq to b.native_coins),
      )

  payout_sent :
      (to : Addr) (b : GenericBalance) (ms : List SubMsg)
      → IsPayout to b ms
      → send_tokens E to b ≡ ok (ms, b)
  unfolding send_tokens
  payout_sent to b ms (transfers, e, f) =
      ground
        (arith, transfers_sent to b.cw20_coins transfers e, f, bank_messages-eq to b.native_coins)

  -- What the agent has earned, as messages, and the available balance without it.
  abbrev pub IsPayable : MessageInfo → State E → Agent → List SubMsg → GenericBalance → Type 0
  IsPayable info s v messages g =
      (E.may_load s.agents info.sender ≡ some v)
      × IsPayout v.payable_account_id v.balance messages
      × (minus_tokens s.config.available_balance (Balance.native v.balance.native_coins) ≡ ok g)

  abbrev pub withdrawn : GenericBalance → State E → State E
  withdrawn g s = record s { config = record s.config { available_balance = g } }

  abbrev pub paid_out : MessageInfo → List SubMsg → Response
  paid_out info messages =
      response (("method", text "withdraw_agent_balance") ∷ ("account_id", text info.sender) ∷ [])
        messages

  pays :
      (info : MessageInfo) (s : State E) (v : Agent) (messages : List SubMsg) (g : GenericBalance)
      → IsPayable info s v messages g
      → withdraw_agent_balance E info s ≡ (ok (paid_out info messages), withdrawn g s)
  unfolding withdraw_agent_balance withdraw_balances ◌>>=◌
  pays info s v messages g (found, payout, taken) =
      ground (arith, payout_sent v.payable_account_id v.balance messages payout)

  -- A withdrawal succeeds exactly for a registered agent whose earnings can be sent and taken from the
  -- available balance without a difference below 0. It then sends them to the agent's payable account,
  -- its native coins in one bank message and each cw20 coin by a transfer of its contract, takes them from the available balance, denomination by denomination where that has it, and changes
  -- nothing else: the agent keeps the reward on its account.
  pub withdraw_agent_balance_iff :
      (info : MessageInfo) (s t : State E) (r : Response)
      → (withdraw_agent_balance E info s ≡ (ok r, t)) ↔ (
          (v : Agent) × (messages : List SubMsg) × (g : GenericBalance) × IsPayable info s v
            messages g
          × (r ≡ paid_out info messages)
          × (t ≡ withdrawn g s)
          × ((d : String)
              → amount_of d g.native_coins
                  + (if has_denom d s.config.available_balance.native_coins
                      then sent d v.balance.native_coins
                      else 0)
                ≡ amount_of d s.config.available_balance.native_coins)
          × (E.may_load t.agents info.sender ≡ some v))
  withdraw_agent_balance_iff info s t r = (
    λ h.
        let (v, found, sent_tokens, taken, e) = withdraw_agent_balance-state info s t r h in
        let g = t.config.available_balance in
        let payout = send_tokens-IsPayout v.payable_account_id v.balance r.messages sent_tokens in
        let f = pays info s v r.messages g (found, payout, taken) in
        (
          v,
          r.messages,
          g,
          (found, payout, taken),
          ground (arith, h, f),
          ground (arith, h, f),
          λ d. (minus_tokens-amount s.config.available_balance g v.balance.native_coins d taken).0,
          ap (λ (u : State E). E.may_load u.agents info.sender) e ∙ found,
        ),
    λ (v, messages, g, a, e, f, _, _). pays info s v messages g a ∙ ground (arith, e, f),
  )
