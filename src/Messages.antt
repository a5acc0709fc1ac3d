-- ===== src/Messages.antt =====
-- `InstantiateMsg`, `ExecuteMsg` and `QueryMsg` of packages/cw-croncat-core/src/msg.rs.
use cw_croncat.Base.{ℕ, String, Bool, Option, List}
use cw_croncat.Types.{Addr, Coin, Balance, Interval, Task, TaskRequest, TaskHash}

pub record InstantiateMsg : Type 0 where
  pub denom : String
  pub owner_id : Option Addr
  pub agent_nomination_duration : Option ℕ

-- The fields of `ExecuteMsg::UpdateSettings`.
pub record Settings : Type 0 where
  pub owner_id : Option Addr
  pub slot_granularity : Option ℕ
  pub paused : Option Bool
  pub agent_fee : Option Coin
  pub gas_price : Option ℕ
  pub proxy_callback_gas : Option ℕ
  pub min_tasks_per_agent : Option ℕ
  pub agents_eject_threshold : Option ℕ

pub data ExecuteMsg : Type 0 where
  update_settings : Settings → ExecuteMsg
  move_balances : List Balance → (account_id : Addr) → ExecuteMsg
  register_agent : (payable_account_id : Option Addr) → ExecuteMsg
  update_agent : (payable_account_id : Addr) → ExecuteMsg
  check_in_agent unregister_agent withdraw_reward : ExecuteMsg
  create_task : TaskRequest → ExecuteMsg
  remove_task refill_task_balance : TaskHash → ExecuteMsg
  proxy_call : ExecuteMsg

pub data QueryMsg : Type 0 where
  get_config get_balances get_agent_ids get_slot_ids : QueryMsg
  get_agent get_agent_tasks : (account_id : Addr) → QueryMsg
  get_tasks : (from_index limit : Option ℕ) → QueryMsg
  get_tasks_by_owner : (owner_id : Addr) → QueryMsg
  get_task : (task_hash : String) → QueryMsg
  get_task_hash : Task → QueryMsg
  validate_interval : Interval → QueryMsg
  get_slot_hashes : (slot : Option ℕ) → QueryMsg
