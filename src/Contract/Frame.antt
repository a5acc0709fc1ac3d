-- ===== src/Contract/Frame.antt =====
-- Properties of states against what the handlers write: what a property must bear with, one record
-- for each part of the storage, so that the handlers that write that part keep it.
pub mod Agents
pub mod Tasks
pub mod Calls
pub mod Execute
use cw_croncat.Base.{◌≡◌, ℕ, none, List, Option, some}
use cw_croncat.Base.Outcome.{M, gets, ◌>>=◌}
use cw_croncat.Base.Keeps.{Keeps, keeps_rules, Keeps-bind, Keeps-gets}
use cw_croncat.Types.{Addr, Agent, Timestamp, GenericBalance, Balance, Task, TaskHash}
use cw_croncat.External.{External}
use cw_croncat.State.{State, Config, QueueItem, Env, MessageInfo, rq_push, rq_remove}
use cw_croncat.Slots.{Slots}
use cw_croncat.Agent.{Querier, new_agent, withdraw_balances, withdraw_agent_balance}
use cw_croncat.Tasks.{begin_nomination}
use cw_croncat.Owner.{move_balances}

-- The config loaded, `Q`, and saved with another balance.
pub record BalanceFrame (E : External) (P : State E → Type 0) : Type 1 where
  pub Q : Config → Type 0
  pub load :
      {B : Type 0} (f : Config → M (State E) B)
      → ((c : Config) → Q c → Keeps P (f c))
      → Keeps P (gets (λ s. s.config) >>= f)
  pub save_balance :
      (c : Config) (g : GenericBalance) (s : State E)
      → Q c
      → P s
      → P (record s { config = record c { available_balance = g } })

-- The tasks, their count and their slots written, and a nomination begun at a time that is `Now`.
pub record TaskFrame (E : External) (P : State E → Type 0) : Type 1 where
  pub balances : BalanceFrame E P
  pub Now : Env → Type 0
  pub save_tasks : (m : E.TextMap Task) (s : State E) → P s → P (record s { tasks = m })
  pub save_total : (n : ℕ) (s : State E) → P s → P (record s { task_total = n })
  pub save_times : (m : Slots E) (s : State E) → P s → P (record s { time_slots = m })
  pub save_blocks : (m : Slots E) (s : State E) → P s → P (record s { block_slots = m })
  pub begin :
      (n : ℕ) (env : Env) (s : State E)
      → Now env
      → P s
      → P (record s {
        agent_nomination_begin_time =
            begin_nomination E n env.block_time s.agent_nomination_begin_time;
      })

-- A reply awaited, and awaited no more.
pub record ReplyFrame (E : External) (P : State E → Type 0) : Type 0 where
  pub push_reply :
      (h : TaskHash) (a : Addr)
      → Keeps P (rq_push E (record { prev_idx = none; task_hash = some h; contract_addr = some a }))
  pub remove_reply : (i : ℕ) → Keeps P (rq_remove E i)

-- An agent saved.
abbrev pub SavesAgents : (E : External) → (State E → Type 0) → Type 0
SavesAgents E P =
    (a : Addr) (v : Agent) (s : State E) → P s → P (record s { agents = E.save s.agents a v })

-- An agent saved that is `Fit`, as a new one is and as one stays whose payable account changes; an
-- agent removed, the queues written, and a nomination ended.
pub record AgentFrame (E : External) (P : State E → Type 0) : Type 1 where
  pub Fit : Agent → Type 0
  pub fresh : (payable : Addr) (now : Timestamp) → Fit (new_agent E payable now)
  pub readdressed :
      (a payable : Addr) (v : Agent) (s : State E)
      → P s
      → E.may_load s.agents a ≡ some v
      → Fit (record v { payable_account_id = payable })
  pub save_agent :
      (a : Addr) (v : Agent) (s : State E)
      → Fit v
      → P s
      → P (record s { agents = E.save s.agents a v })
  pub remove_agent : (a : Addr) (s : State E) → P s → P (record s { agents = E.remove s.agents a })
  pub save_active : (q : List Addr) (s : State E) → P s → P (record s { agent_active_queue = q })
  pub save_pending : (q : List Addr) (s : State E) → P s → P (record s { agent_pending_queue = q })
  pub end_nomination : (s : State E) → P s → P (record s { agent_nomination_begin_time = none })

module _ (E : External) {P : State E → Type 0} where
  -- For a property that does not look at the config.
  pub load_any :
      {B : Type 0} (f : Config → M (State E) B)
      → ((c : Config) → Unit {0} → Keeps P (f c))
      → Keeps P (gets (λ s. s.config) >>= f)
  load_any f k = Keeps-bind _ f (Keeps-gets _) (λ c. k c tt)

module _ (E : External) {P : State E → Type 0} (F : BalanceFrame E P) where
  load :
      {B : Type 0} (f : Config → M (State E) B)
      → ((c : Config) → F.Q c → Keeps P (f c))
      → Keeps P (gets (λ s. s.config) >>= f)
  load = F.load

  save_balance :
      (c : Config) (g : GenericBalance) (s : State E)
      → F.Q c
      → P s
      → P (record s { config = record c { available_balance = g } })
  save_balance = F.save_balance

  pub move_balances-keep :
      (q : Querier) (info : MessageInfo) (env : Env) (bs : List Balance) (a : Addr)
      → Keeps P (move_balances E q info env bs a)
  unfolding move_balances
  move_balances-keep q info env bs a = search (load, keeps_rules, save_balance) depth 16

  pub withdraw_balances-keep : (info : MessageInfo) → Keeps P (withdraw_balances E info)
  unfolding withdraw_balances
  withdraw_balances-keep info = search (load, keeps_rules, save_balance) depth 14

  pub withdraw_agent_balance-keep : (info : MessageInfo) → Keeps P (withdraw_agent_balance E info)
  unfolding withdraw_agent_balance
  withdraw_agent_balance-keep info = search (keeps_rules, withdraw_balances-keep) depth 14
