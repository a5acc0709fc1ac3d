-- ===== src/Tasks.antt =====
-- The handlers of contracts/cw-croncat/src/tasks.rs: `create_task`, `remove_task`, `refill_task`.
pub mod Removal
pub mod Removed
pub mod Catalog
pub mod Filing
pub mod Agenda
pub mod Creation
pub mod Booking
pub mod Accepted
pub mod Refill
pub mod RoundTrip
use cw_croncat.Base.{
  ℕ, ◌+◌, not, Option, none, some, List, [], ◌∷◌, ◌++◌, ◌==◌, eqb, if◌then◌else◌, length, is_empty,
  retain_ne,
}
use cw_croncat.Base.Outcome.{
  M, ◌>>=◌, ◌>>◌, gets, modify, pure, lift, fail_if, or_fail, err, ok, custom_error, saturating,
  u128_mod,
}
use cw_croncat.Types.{
  Coin, Task, TaskRequest, TaskHash, SlotType, Balance, new, bank_send, Timestamp,
}
use cw_croncat.External.{External}
use cw_croncat.State.{State, Env, MessageInfo, increment_tasks}
use cw_croncat.Response.{Response, response, text, number, kind, coins}
use cw_croncat.Balance.{add_tokens, minus_tokens}
use cw_croncat.Interval.{next, is_valid}
use cw_croncat.Task.{is_valid_msg, to_hash, to_hash_vec}
use cw_croncat.Slots.{Slots, push_slot_item}
use cw_croncat.Agent.{agents_to_let_in}

-- The refilled deposit: for each coin held and each coin sent, one coin.
unfoldable pub refill_coin : Coin → List Coin → List Coin
refill_coin t [] = []
refill_coin t (f ∷ funds) =
    (if f.denom == t.denom
      then record t { amount = saturating u128_mod (t.amount + f.amount) }
      else t)
    ∷ refill_coin t funds

unfoldable pub refill_coins : List Coin → List Coin → List Coin
unfolding refill_coin
refill_coins [] funds = []
refill_coins (t ∷ ts) funds = refill_coin t funds ++ refill_coins ts funds

module _ (E : External) where
  abbrev pub task_of : MessageInfo → TaskRequest → Task
  task_of info task = record {
    owner_id = info.sender;
    interval = task.interval;
    boundary = task.boundary;
    stop_on_fail = task.stop_on_fail;
    total_deposit = info.funds;
    actions = task.actions;
    rules = task.rules;
  }

  -- `self.tasks.update(..)` of a creation.
  unfoldable pub insert_task : TaskHash → Task → M (State E) (Unit {0})
  insert_task hash item s = elim (E.may_load s.tasks hash) [
    | some _ ↦ (err (custom_error "Task already exists"), s)
    | none ↦ (ok tt, record s { tasks = E.save s.tasks hash item })
  ]

  -- An older nomination time is kept.
  abbrev pub begin_nomination : ℕ → Timestamp → Option Timestamp → Option Timestamp
  begin_nomination num_agents_to_accept now (some begin) = some begin
  begin_nomination num_agents_to_accept now none =
      if eqb num_agents_to_accept 0 then none else some now

  -- The balance and the nomination time, once the task is stored.
  unfoldable pub account_task : MessageInfo → Env → (size : ℕ) → M (State E) (Unit {0})
  account_task info env size = do
    c ← gets (λ s. s.config)
    available ← lift (add_tokens c.available_balance (Balance.native info.funds))
    active ← gets (λ s. s.agent_active_queue)
    num_agents_to_accept ← lift (agents_to_let_in c.min_tasks_per_agent (length active) size)
    modify λ s. record s {
      agent_nomination_begin_time =
          begin_nomination num_agents_to_accept env.block_time s.agent_nomination_begin_time;
    }
    modify (λ s. record s { config = record c { available_balance = available } })

  -- From the schedule on: the task is stored, counted, slotted and paid in.
  unfoldable pub schedule_task : MessageInfo → Env → Task → ℕ × SlotType → M (State E) Response
  unfolding insert_task account_task
  schedule_task info env item (next_id, slot_kind) = do
    fail_if (eqb next_id 0) (custom_error "Task ended")
    insert_task (to_hash_vec E item) item
    size ← increment_tasks E
    push_slot_item E next_id slot_kind (to_hash_vec E item)
    account_task info env size
    pure (
        response
          (("method", text "create_task")
            ∷ ("slot_id", number next_id)
            ∷ ("slot_kind", kind slot_kind)
            ∷ ("task_hash", text (to_hash E item))
            ∷ [])
          [])

  unfoldable pub create_task : MessageInfo → Env → TaskRequest → M (State E) Response
  unfolding schedule_task
  create_task info env task = do
    fail_if (is_empty info.funds) (custom_error "Must attach funds")
    c ← gets (λ s. s.config)
    fail_if c.paused (custom_error "Create task paused")
    fail_if (not (is_valid_msg (task_of info task) env.contract_address info.sender c.owner_id))
        (custom_error "Actions Message Unsupported")
    fail_if (not (is_valid E task.interval)) (custom_error "Interval invalid")
    slot ← lift (next E task.interval env task.boundary)
    schedule_task info env (task_of info task) slot

  -- The hashes of a slot, none when the slot is missing.
  abbrev pub or_empty : Option (List TaskHash) → List TaskHash
  or_empty none = []
  or_empty (some hashes) = hashes

  -- What is left of one slot: saved, or removed when it is empty.
  abbrev pub keep_slot : ℕ → List TaskHash → Slots E → Slots E
  keep_slot id hashes m = if is_empty hashes then E.remove_slot m id else E.save_slot m id hashes

  -- `for tid in ids`, of a hash.
  unfoldable pub clear_slots : TaskHash → List ℕ → Slots E → Slots E
  clear_slots hash [] m = m
  clear_slots hash (id ∷ ids) m =
      clear_slots hash ids (keep_slot id (retain_ne (or_empty (E.may_load_slot m id)) hash) m)

  unfoldable pub remove_task : TaskHash → M (State E) Response
  unfolding clear_slots
  remove_task task_hash = do
    task_raw ← gets (λ s. E.may_load s.tasks task_hash)
    task ← or_fail task_raw (custom_error "No task found by hash")
    modify (λ s. record s { tasks = E.remove s.tasks task_hash })
    modify
        λ s. record s { time_slots = clear_slots task_hash (E.slot_keys s.time_slots) s.time_slots }
    modify λ s. record s {
      block_slots = clear_slots task_hash (E.slot_keys s.block_slots) s.block_slots;
    }
    c ← gets (λ s. s.config)
    available ← lift (minus_tokens c.available_balance (Balance.native task.total_deposit))
    modify (λ s. record s { config = record c { available_balance = available } })
    pure (
        response (("method", text "remove_task") ∷ [])
          (new (bank_send task.owner_id task.total_deposit) ∷ []))

  unfoldable pub refill_task : MessageInfo → TaskHash → M (State E) Response
  unfolding refill_coins
  refill_task info task_hash = do
    task_raw ← gets (λ s. E.may_load s.tasks task_hash)
    task ← or_fail task_raw (custom_error "Task doesnt exist")
    fail_if (not (task.owner_id == info.sender)) (custom_error "Only owner can refill their task")
    c ← gets (λ s. s.config)
    available ← lift (add_tokens c.available_balance (Balance.native info.funds))
    modify (λ s. record s { config = record c { available_balance = available } })
    let total_balance = refill_coins task.total_deposit info.funds
    modify λ s. record s {
      tasks = E.save s.tasks task_hash (record task { total_deposit = total_balance });
    }
    pure
        (response (("method", text "refill_task") ∷ ("total_deposit", coins total_balance) ∷ []) [])
