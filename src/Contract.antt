-- ===== src/Contract.antt =====
-- contracts/cw-croncat/src/contract.rs: the entry points.
pub mod Frame
pub mod Work
pub mod Access
pub mod Consistency
pub mod Reach
pub mod Catalog
pub mod Lifecycle
pub mod Answers
pub mod Agenda
pub mod Swapped
pub mod Commuting
pub mod Clock
pub mod Awaiting
pub mod Unpaid
use cw_croncat.Base.{ℕ, Bool, false, Option, none, some, [], ◌∷◌, ◌==◌, if◌then◌else◌}
use cw_croncat.Base.Outcome.{
  Outcome, ok, panic, bind, M, ◌>>=◌, ◌>>◌, gets, pure, or_fail, lift, unknown_reply_id, from_std,
}
use cw_croncat.Types.{Addr, Balance, block, cron, TaskHash, GenericBalance, empty_balance_value}
use cw_croncat.External.{External}
use cw_croncat.State.{State, Config, QueueItem, Env, MessageInfo, rq_remove}
use cw_croncat.Messages.{InstantiateMsg, ExecuteMsg}
use cw_croncat.Response.{Response, response, text, number, flag, coin, indices}
use cw_croncat.Balance.{add_tokens}
use cw_croncat.Owner.{update_settings, move_balances}
use cw_croncat.Agent.{
  Querier, register_agent, update_agent, unregister_agent, withdraw_agent_balance,
  accept_nomination_agent,
}
use cw_croncat.Tasks.{create_task, remove_task, refill_task}
use cw_croncat.Manager.{Reply, proxy_call, proxy_callback}

abbrev default_nomination_duration : ℕ
default_nomination_duration = 360

abbrev or_default : {A : Type 0} → Option A → A → A
or_default none d = d
or_default (some a) d = a

abbrev pub initial_config : InstantiateMsg → Addr → GenericBalance → Config
initial_config msg owner_acct available_balance = record {
  paused = false;
  owner_id = owner_acct;
  min_tasks_per_agent = 3;
  agent_active_indices = (block, 0, 0) ∷ (cron, 0, 0) ∷ [];
  agents_eject_threshold = 600;
  agent_nomination_duration = or_default msg.agent_nomination_duration default_nomination_duration;
  agent_fee = record { denom = msg.denom; amount = 5 };
  gas_price = 1;
  proxy_callback_gas = 3;
  slot_granularity = 60000000000;
  cw20_whitelist = [];
  native_denom = msg.denom;
  available_balance = available_balance;
  staked_balance = empty_balance_value;
}

module _ (E : External) where
  abbrev pub initial_state : Config → State E
  initial_state config = record {
    config = config;
    agents = E.empty_map;
    agent_active_queue = [];
    agent_pending_queue = [];
    tasks = E.empty_map;
    task_total = 0;
    time_slots = E.empty_slots;
    block_slots = E.empty_slots;
    reply_queue = E.empty_slots;
    reply_index = 0;
    agent_nomination_begin_time = none;
  }

  -- On an empty storage.
  unfoldable pub instantiate :
      Querier → Env → MessageInfo → InstantiateMsg → Outcome (State E × Response)
  instantiate query_all_balances env info msg =
      bind (from_std (query_all_balances env.contract_address)) λ state_balances.
        bind (add_tokens empty_balance_value (Balance.native state_balances)) λ held.
          bind (add_tokens held (Balance.native info.funds)) λ available_balance.
            let owner_acct = or_default msg.owner_id info.sender in
            let c = initial_config msg owner_acct available_balance in
            if E.addr_validate owner_acct
            then ok (
              initial_state c,
              response
                  (("method", text "instantiate")
                    ∷ ("paused", flag c.paused)
                    ∷ ("owner_id", text c.owner_id)
                    ∷ ("min_tasks_per_agent", number c.min_tasks_per_agent)
                    ∷ ("agent_active_indices", indices c.agent_active_indices)
                    ∷ ("agents_eject_threshold", number c.agents_eject_threshold)
                    ∷ ("native_denom", text c.native_denom)
                    ∷ ("agent_fee", coin c.agent_fee)
                    ∷ ("gas_price", number c.gas_price)
                    ∷ ("proxy_callback_gas", number c.proxy_callback_gas)
                    ∷ ("slot_granularity", number c.slot_granularity)
                    ∷ [])
                  [],
            )
            else panic

  unfoldable pub execute : Querier → Env → MessageInfo → ExecuteMsg → M (State E) Response
  execute q env info (ExecuteMsg.update_settings payload) = update_settings E info payload
  execute q env info (ExecuteMsg.move_balances balances account_id) =
      move_balances E q info env balances account_id
  execute q env info (ExecuteMsg.register_agent payable_account_id) =
      register_agent E q info env payable_account_id
  execute q env info (ExecuteMsg.update_agent payable_account_id) =
      update_agent E info payable_account_id
  execute q env info ExecuteMsg.unregister_agent = unregister_agent E info
  execute q env info ExecuteMsg.withdraw_reward = withdraw_agent_balance E info
  execute q env info ExecuteMsg.check_in_agent = accept_nomination_agent E info env
  execute q env info (ExecuteMsg.create_task task) = create_task E info env task
  execute q env info (ExecuteMsg.remove_task task_hash) = remove_task E task_hash
  execute q env info (ExecuteMsg.refill_task_balance task_hash) = refill_task E info task_hash
  execute q env info ExecuteMsg.proxy_call = proxy_call E info env

  -- `item.task_hash.unwrap()`
  abbrev unwrap_hash : Option TaskHash → Outcome TaskHash
  unwrap_hash none = panic
  unwrap_hash (some hash) = ok hash

  abbrev is_address : Option Addr → Addr → Bool
  is_address none a = false
  is_address (some b) a = b == a

  -- The answer to a reply whose entry is `item`.
  unfoldable pub answer : Env → Reply → QueueItem → M (State E) Response
  answer env msg item =
      if is_address item.contract_addr env.contract_address
      then (do task_hash ← lift (unwrap_hash item.task_hash); proxy_callback E env msg task_hash)
      else pure (response (("reply_id", number msg.id) ∷ []) [])

  unfoldable pub reply : Env → Reply → M (State E) Response
  reply env msg = do
    queue_item ← gets (λ s. E.may_load_slot s.reply_queue msg.id)
    item ← or_fail queue_item unknown_reply_id
    rq_remove E msg.id
    answer env msg item
