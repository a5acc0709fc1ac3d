-- ===== src/Agent.antt =====
-- contracts/cw-croncat/src/agent.rs, and the agent functions of helpers.rs.
pub mod Queue
pub mod Consistency
pub mod Nomination
pub mod Registration
pub mod CheckIn
pub mod Ratio
pub mod Withdrawal
pub mod Lifecycle
use cw_croncat.Base.{
  ℕ, zero, suc, ◌+◌, ◌-◌, ◌*◌, ◌/◌, not, ◌||◌, Option, none, some, List, [], ◌∷◌, ◌++◌, max, leb,
  ltb, eqb, if◌then◌else◌, length, is_empty, contains, position, remove_at,
}
use cw_croncat.Base.Outcome.{
  Outcome, ok, err, panic, bind, M, ◌>>=◌, ◌>>◌, gets, modify, pure, lift, fail_if, or_fail,
  custom_error, contract_paused, agent_not_registered, checked, checked_sub, checked_rem, u64_mod,
  u32_mod, StdResult, from_std,
}
use cw_croncat.Types.{
  Addr, Coin, Cw20CoinVerified, GenericBalance, empty_balance_value, Balance, Agent, AgentStatus,
  active, pending, nominated, SubMsg, new, bank_send, wasm_execute, Timestamp,
}
use cw_croncat.External.{External}
use cw_croncat.State.{State, Config, Env, MessageInfo}
use cw_croncat.Response.{Response, response, text, status, number}
use cw_croncat.Balance.{minus_tokens}

-- `deps.querier.query_all_balances`
abbrev pub Querier : Type 0
Querier = Addr → StdResult (List Coin)

-- `a / b` panics when `b` is 0.
abbrev pub checked_div : ℕ → ℕ → Outcome ℕ
checked_div a b = if eqb b 0 then panic else ok (a / b)

unfoldable pub agents_to_let_in : ℕ → ℕ → ℕ → Outcome ℕ
agents_to_let_in max_tasks num_active_agents total_tasks =
    bind (checked u64_mod (num_active_agents * max_tasks)) λ num_tasks_covered.
      if ltb num_tasks_covered total_tasks
      then bind (checked_rem (total_tasks - num_tasks_covered) max_tasks) (λ rem.
        checked u64_mod
          ((total_tasks - num_tasks_covered) / max_tasks + (if eqb rem 0 then 0 else 1)))
      else ok 0

-- `(0..=position).rev()`, each index removed in turn.
unfoldable pub remove_through : ℕ → List Addr → List Addr
remove_through zero xs = remove_at 0 xs
remove_through (suc n) xs = remove_through n (remove_at (suc n) xs)

module _ (E : External) where
  -- One transfer message for each cw20 coin.
  unfoldable pub cw20_messages : Addr → List Cw20CoinVerified → Outcome (List SubMsg)
  cw20_messages to [] = ok []
  cw20_messages to (c ∷ cs) =
      bind (from_std (E.transfer_binary to c.amount))
        λ msg. bind (cw20_messages to cs) λ rest. ok (new (wasm_execute c.address msg []) ∷ rest)

  unfoldable pub send_tokens : Addr → GenericBalance → Outcome (List SubMsg × GenericBalance)
  unfolding cw20_messages
  send_tokens to balance =
      let natives : List SubMsg =
        if is_empty balance.native_coins
        then []
        else new (bank_send to balance.native_coins) ∷ [] in
      bind (cw20_messages to balance.cw20_coins) λ msgs. ok (natives ++ msgs, balance)

  -- The nomination of a pending agent, from its position and the begin time.
  unfoldable pub nomination :
      Config
      → Env
      → (agent_position num_agents_to_accept : ℕ) → Option Timestamp
      → Outcome AgentStatus
  nomination c env agent_position num_agents_to_accept none = ok pending
  nomination c env agent_position num_agents_to_accept (some begin_time) =
      if ltb 0 num_agents_to_accept
      then bind (checked_sub (E.seconds env.block_time) (E.seconds begin_time)) (λ time_difference.
        bind (checked_div time_difference c.agent_nomination_duration) (λ rounds. ok (
          if leb agent_position (max rounds (num_agents_to_accept - 1))
          then nominated
          else pending)))
      else ok pending

  unfoldable pub get_agent_status : Env → Addr → State E → Outcome AgentStatus
  unfolding agents_to_let_in nomination
  get_agent_status env account_id s =
      if contains s.agent_active_queue account_id
      then ok active
      else elim (position s.agent_pending_queue account_id) [
        | none ↦ err agent_not_registered
        | some agent_position ↦
            bind
              (agents_to_let_in s.config.min_tasks_per_agent (length s.agent_active_queue)
                s.task_total)
              λ n. nomination s.config env agent_position n s.agent_nomination_begin_time
      ]

  -- The queue that a new agent joins, and its status.
  unfoldable pub enqueue_agent : Addr → M (State E) AgentStatus
  enqueue_agent account s =
      if is_empty s.agent_active_queue
      then (ok active, record s { agent_active_queue = s.agent_active_queue ++ account ∷ [] })
      else (ok pending, record s { agent_pending_queue = s.agent_pending_queue ++ account ∷ [] })

  abbrev pub new_agent : Addr → Timestamp → Agent
  new_agent payable_id now = record {
    payable_account_id = payable_id;
    balance = empty_balance_value;
    total_tasks_executed = 0;
    last_missed_slot = 0;
    register_start = now;
  }

  abbrev pub or_sender : Option Addr → Addr → Addr
  or_sender none sender = sender
  or_sender (some a) sender = a

  -- `self.agents.update(..)` of a registration.
  unfoldable pub insert_agent : Addr → Agent → M (State E) (Unit {0})
  insert_agent account agent s = elim (E.may_load s.agents account) [
    | some _ ↦ (err (custom_error "Agent already exists"), s)
    | none ↦ (ok tt, record s { agents = E.save s.agents account agent })
  ]

  unfoldable pub register_agent : Querier → MessageInfo → Env → Option Addr → M (State E) Response
  unfolding enqueue_agent insert_agent
  register_agent query_all_balances info env payable_account_id = do
    fail_if (not (is_empty info.funds)) (custom_error "Do not attach funds")
    c ← gets (λ s. s.config)
    fail_if c.paused (contract_paused "Register agent paused")
    balances ← lift (from_std (query_all_balances info.sender))
    unit_cost ← lift (checked u32_mod (c.gas_price * 4))
    fail_if
        (not (E.has_coins balances (record { denom = c.native_denom; amount = unit_cost }))
          || is_empty balances)
        (custom_error "Insufficient funds")
    agent_status ← enqueue_agent info.sender
    insert_agent info.sender (new_agent (or_sender payable_account_id info.sender) env.block_time)
    pure (
        response
          (("method", text "register_agent")
            ∷ ("agent_status", status agent_status)
            ∷ ("register_start", number env.block_time)
            ∷ [])
          [])

  unfoldable pub update_agent : MessageInfo → Addr → M (State E) Response
  update_agent info payable_account_id s =
      if s.config.paused
      then (err (contract_paused "Register agent paused"), s)
      else elim (E.may_load s.agents info.sender) [
        | none ↦ (err agent_not_registered, s)
        | some agent ↦ (
          ok (response (("method", text "update_agent") ∷ []) []),
          record s {
            agents =
                E.save s.agents info.sender
                  (record agent { payable_account_id = payable_account_id });
          },
        )
      ]

  unfoldable pub withdraw_balances : MessageInfo → M (State E) (List SubMsg)
  unfolding send_tokens
  withdraw_balances info = do
    a ← gets (λ s. E.may_load s.agents info.sender)
    agent ← or_fail a agent_not_registered
    sent ← lift (send_tokens agent.payable_account_id agent.balance)
    config ← gets (λ s. s.config)
    available ← lift (minus_tokens config.available_balance (Balance.native (sent.1).native_coins))
    modify (λ s. record s { config = record config { available_balance = available } })
    pure sent.0

  unfoldable pub withdraw_agent_balance : MessageInfo → M (State E) Response
  unfolding withdraw_balances
  withdraw_agent_balance info = do
    messages ← withdraw_balances info
    pure (
        response (("method", text "withdraw_agent_balance") ∷ ("account_id", text info.sender) ∷ [])
          messages)

  -- The queues after an agent at a position of the pending queue is let in.
  abbrev pub let_in : Addr → ℕ → State E → State E
  let_in sender agent_position s = record s {
    agent_pending_queue = remove_through agent_position s.agent_pending_queue;
    agent_active_queue = s.agent_active_queue ++ sender ∷ [];
    agent_nomination_begin_time = none;
  }

  unfoldable pub accept_nomination_agent : MessageInfo → Env → M (State E) Response
  unfolding remove_through
  accept_nomination_agent info env = do
    nomination_start ← gets (λ s. s.agent_nomination_begin_time)
    start ← or_fail nomination_start (custom_error "Not accepting new agents")
    time_difference ← lift (checked_sub (E.seconds env.block_time) (E.seconds start))
    found ← gets (λ s. position s.agent_pending_queue info.sender)
    agent_position ← or_fail found agent_not_registered
    c ← gets (λ s. s.config)
    max_index ← lift (checked_div time_difference c.agent_nomination_duration)
    fail_if (ltb max_index agent_position)
        (custom_error "Must wait longer before accepting nomination")
    modify (let_in info.sender agent_position)
    pure (response (("method", text "accept_nomination_agent") ∷ []) [])

  -- Out of the active queue, or else out of the pending one.
  unfoldable pub dequeue_agent : Addr → State E → State E
  dequeue_agent agent_id s = elim (position s.agent_active_queue agent_id) [
    | some index ↦ record s { agent_active_queue = remove_at index s.agent_active_queue }
    | none ↦ elim (position s.agent_pending_queue agent_id) [
      | some index ↦ record s { agent_pending_queue = remove_at index s.agent_pending_queue }
      | none ↦ s
    ]
  ]

  unfoldable pub unregister_agent : MessageInfo → M (State E) Response
  unfolding withdraw_balances dequeue_agent
  unregister_agent info = do
    messages ← withdraw_balances info
    modify (λ s. record s { agents = E.remove s.agents info.sender })
    modify (dequeue_agent info.sender)
    pure (
        response (("method", text "unregister_agent") ∷ ("account_id", text info.sender) ∷ [])
          messages)
