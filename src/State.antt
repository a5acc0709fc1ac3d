-- ===== src/State.antt =====
-- contracts/cw-croncat/src/state.rs: the storage of the contract, once instantiated (each `Item` is
-- saved by `instantiate` and removed by nothing), and the counters.
use cw_croncat.Base.{ℕ, ◌+◌, String, Bool, Option, List}
use cw_croncat.Base.Outcome.{
  M, checked, checked_sub, u64_mod, lift, gets, modify, pure, ◌>>=◌, ◌>>◌,
}
use cw_croncat.Types.{Addr, Coin, GenericBalance, Agent, Task, TaskHash, SlotType, Timestamp}
use cw_croncat.External.{External}

pub record Config : Type 0 where
  pub paused : Bool
  pub owner_id : Addr
  pub min_tasks_per_agent : ℕ
  pub agent_active_indices : List (SlotType × ℕ × ℕ)
  pub agents_eject_threshold : ℕ
  pub agent_nomination_duration : ℕ
  pub agent_fee : Coin
  pub gas_price : ℕ
  pub proxy_callback_gas : ℕ
  pub slot_granularity : ℕ
  pub cw20_whitelist : List Addr
  pub native_denom : String
  pub available_balance : GenericBalance
  pub staked_balance : GenericBalance

pub record QueueItem : Type 0 where
  pub contract_addr : Option Addr
  pub prev_idx : Option ℕ
  pub task_hash : Option TaskHash

pub record State (E : External) : Type 0 where
  pub config : Config
  pub agents : E.TextMap Agent
  pub agent_active_queue : List Addr
  pub agent_pending_queue : List Addr
  pub tasks : E.TextMap Task
  pub task_total : ℕ
  pub time_slots : E.SlotMap (List TaskHash)
  pub block_slots : E.SlotMap (List TaskHash)
  pub reply_queue : E.SlotMap QueueItem
  pub reply_index : ℕ
  pub agent_nomination_begin_time : Option Timestamp

-- What the handlers read of `Env` and `MessageInfo`.
pub record Env : Type 0 where
  pub block_height : ℕ
  pub block_time : Timestamp
  pub contract_address : Addr

pub record MessageInfo : Type 0 where
  pub sender : Addr
  pub funds : List Coin

module _ (E : External) where
  unfoldable pub increment_tasks : M (State E) ℕ
  increment_tasks = do
    total ← gets (λ s. s.task_total)
    val ← lift (checked u64_mod (total + 1))
    modify (λ s. record s { task_total = val })
    pure val

  unfoldable pub decrement_tasks : M (State E) ℕ
  decrement_tasks = do
    total ← gets (λ s. s.task_total)
    val ← lift (checked_sub total 1)
    modify (λ s. record s { task_total = val })
    pure val

  unfoldable pub rq_next_id : M (State E) ℕ
  rq_next_id = do index ← gets (λ s. s.reply_index); lift (checked u64_mod (index + 1))

  unfoldable pub rq_push : QueueItem → M (State E) ℕ
  rq_push item = do
    index ← gets (λ s. s.reply_index)
    idx ← lift (checked u64_mod (index + 1))
    modify (λ s. record s { reply_index = idx })
    modify (λ s. record s { reply_queue = E.save_slot s.reply_queue idx item })
    pure idx

  unfoldable pub rq_remove : ℕ → M (State E) (Unit {0})
  rq_remove idx = modify (λ s. record s { reply_queue = E.remove_slot s.reply_queue idx })
