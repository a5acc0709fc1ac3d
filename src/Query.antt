-- ===== src/Query.antt =====
-- The queries of owner.rs, agent.rs and tasks.rs (contracts/cw-croncat/src).
pub mod Paging
pub mod Status
pub mod Tasks
use cw_croncat.Base.{
  ℕ, ◌/◌, ◌%◌, String, Bool, Option, none, some, List, [], ◌∷◌, ◌==◌, map, min, if◌then◌else◌,
  length, is_empty, contains, take, drop, head?,
}
use cw_croncat.Base.Outcome.{Outcome, ok, err, panic, std, usize_mod}
use cw_croncat.Types.{
  Addr, Coin, GenericBalance, Agent, AgentStatus, AgentResponse, active, Task, TaskHash,
  TaskResponse, SlotType, Interval,
}
use cw_croncat.External.{External}
use cw_croncat.State.{State, Env}
use cw_croncat.Interval.{is_valid}
use cw_croncat.Task.{to_hash}
use cw_croncat.Slots.{get_current_slot_items}
use cw_croncat.Agent.{get_agent_status}
use cw_croncat.Balancer.{AgentTaskResponse}
use cw_croncat.Tasks.{or_empty}

pub record GetConfigResponse : Type 0 where
  pub paused : Bool
  pub owner_id : Addr
  pub min_tasks_per_agent : ℕ
  pub agent_active_indices : List (SlotType × ℕ × ℕ)
  pub agents_eject_threshold : ℕ
  pub agent_fee : Coin
  pub gas_price : ℕ
  pub proxy_callback_gas : ℕ
  pub slot_granularity : ℕ
  pub native_denom : String

pub record GetBalancesResponse : Type 0 where
  pub native_denom : String
  pub available_balance : GenericBalance
  pub staked_balance : GenericBalance
  pub cw20_whitelist : List Addr

pub record GetAgentIdsResponse : Type 0 where
  pub active : List Addr
  pub pending : List Addr

pub record GetSlotHashesResponse : Type 0 where
  pub block_id : ℕ
  pub block_task_hash : List String
  pub time_id : ℕ
  pub time_task_hash : List String

pub record GetSlotIdsResponse : Type 0 where
  pub time_ids : List ℕ
  pub block_ids : List ℕ

abbrev pub agent_response : Agent → AgentStatus → AgentResponse
agent_response a s = record {
  status = s;
  payable_account_id = a.payable_account_id;
  balance = a.balance;
  total_tasks_executed = a.total_tasks_executed;
  last_missed_slot = a.last_missed_slot;
  register_start = a.register_start;
}

-- An error of the status is wrapped: `GenericErr { msg: err.to_string() }`.
abbrev wrap_status : Agent → Outcome AgentStatus → Outcome (Option AgentResponse)
wrap_status a (ok s) = ok (some (agent_response a s))
wrap_status a (err _) = err (std "Agent not registered")
wrap_status a panic = panic

-- Integer division of a slot's entry among the active agents.
abbrev each_agent : Option ℕ → ℕ → ℕ
each_agent none agents = 0
each_agent (some total) agents = total / agents

abbrev or_first : Option (ℕ × List TaskHash) → ℕ × List TaskHash
or_first none = (0, [])
or_first (some slot) = slot

abbrev or_value : Option ℕ → ℕ → ℕ
or_value none d = d
or_value (some n) d = n

module _ (E : External) where
  unfoldable pub query_config : State E → GetConfigResponse
  query_config s = record {
    paused = s.config.paused;
    owner_id = s.config.owner_id;
    min_tasks_per_agent = s.config.min_tasks_per_agent;
    agent_active_indices = s.config.agent_active_indices;
    agents_eject_threshold = s.config.agents_eject_threshold;
    agent_fee = s.config.agent_fee;
    gas_price = s.config.gas_price;
    proxy_callback_gas = s.config.proxy_callback_gas;
    slot_granularity = s.config.slot_granularity;
    native_denom = s.config.native_denom;
  }

  unfoldable pub query_balances : State E → GetBalancesResponse
  query_balances s = record {
    native_denom = s.config.native_denom;
    available_balance = s.config.available_balance;
    staked_balance = s.config.staked_balance;
    cw20_whitelist = s.config.cw20_whitelist;
  }

  unfoldable pub query_get_agent : Env → Addr → State E → Outcome (Option AgentResponse)
  query_get_agent env account_id s = elim (E.may_load s.agents account_id) [
    | none ↦ ok none
    | some a ↦
        if contains s.agent_active_queue account_id
        then ok (some (agent_response a active))
        else wrap_status a (get_agent_status E env account_id s)
  ]

  unfoldable pub query_get_agent_ids : State E → GetAgentIdsResponse
  query_get_agent_ids s = record { active = s.agent_active_queue; pending = s.agent_pending_queue }

  abbrev agent_tasks : Option ℕ × Option ℕ → ℕ → Option AgentTaskResponse
  agent_tasks (none, none) agents = none
  agent_tasks (blocks, crons) agents = some (record {
    num_block_tasks = each_agent blocks agents;
    num_block_tasks_extra = 0;
    num_cron_tasks = each_agent crons agents;
    num_cron_tasks_extra = 0;
  })

  unfoldable pub query_get_agent_tasks : Env → Addr → State E → Outcome (Option AgentTaskResponse)
  query_get_agent_tasks env account_id s =
      if contains s.agent_active_queue account_id
      then ok (agent_tasks (get_current_slot_items E env none s) (length s.agent_active_queue))
      else err (std "Agent not registered")

  unfoldable pub task_response : Task → TaskResponse
  task_response t = record {
    task_hash = to_hash E t;
    owner_id = t.owner_id;
    interval = t.interval;
    boundary = t.boundary;
    stop_on_fail = t.stop_on_fail;
    total_deposit = t.total_deposit;
    actions = t.actions;
    rules = t.rules;
  }

  -- `as usize` keeps the low 32 bits.
  unfoldable pub query_get_tasks : Option ℕ → Option ℕ → State E → List TaskResponse
  unfolding task_response
  query_get_tasks from_index limit s =
      let size = min s.task_total 1000 in
      map (λ (e : TaskHash × Task). task_response e.1)
        (take (min (or_value limit 100) size % usize_mod)
          (drop (or_value from_index 0 % usize_mod) (E.range s.tasks)))

  -- The tasks of the `owner` index of one owner, in the order of their hashes.
  abbrev owned_by : Addr → List (TaskHash × Task) → List TaskResponse
  owned_by owner_id [] = []
  owned_by owner_id ((_, t) ∷ es) =
      if t.owner_id == owner_id
      then task_response t ∷ owned_by owner_id es
      else owned_by owner_id es

  unfoldable pub query_get_tasks_by_owner : Addr → State E → List TaskResponse
  unfolding task_response
  query_get_tasks_by_owner owner_id s = owned_by owner_id (E.range s.tasks)

  unfoldable pub query_get_task : TaskHash → State E → Option TaskResponse
  unfolding task_response
  query_get_task task_hash s = elim (E.may_load s.tasks task_hash) [
    | none ↦ none
    | some task ↦ some (task_response task)
  ]

  unfoldable pub query_get_task_hash : Task → String
  query_get_task_hash task = to_hash E task

  unfoldable pub query_validate_interval : Interval → Bool
  query_validate_interval interval = is_valid E interval

  -- The first entry of a slot map: `range(..).take(1)`.
  abbrev first_slot : E.SlotMap (List TaskHash) → Option (ℕ × List TaskHash)
  first_slot m = elim (head? (E.slot_keys m)) [
    | none ↦ none
    | some id ↦ some (id, or_empty E (E.may_load_slot m id))
  ]

  abbrev id_unless_empty : ℕ → List TaskHash → ℕ
  id_unless_empty id hashes = if is_empty hashes then 0 else id

  abbrev slot_hashes : ℕ × List TaskHash → ℕ × List TaskHash → GetSlotHashesResponse
  slot_hashes (block_id, block_hashes) (time_id, time_hashes) = record {
    block_id = block_id;
    block_task_hash = block_hashes;
    time_id = time_id;
    time_task_hash = time_hashes;
  }

  -- Both halves of a given slot are read from `block_slots`, as the source does.
  unfoldable pub query_slot_tasks : Option ℕ → State E → GetSlotHashesResponse
  query_slot_tasks (some id) s =
      let block_hashes = or_empty E (E.may_load_slot s.block_slots id) in
      let time_hashes = or_empty E (E.may_load_slot s.block_slots id) in
      slot_hashes (id_unless_empty id block_hashes, block_hashes)
        (id_unless_empty id time_hashes, time_hashes)
  query_slot_tasks none s =
      slot_hashes (or_first (first_slot s.block_slots)) (or_first (first_slot s.time_slots))

  unfoldable pub query_slot_ids : State E → GetSlotIdsResponse
  query_slot_ids s = record {
    time_ids = E.slot_keys s.time_slots;
    block_ids = E.slot_keys s.block_slots;
  }
