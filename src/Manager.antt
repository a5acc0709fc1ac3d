-- ===== src/Manager.antt =====
-- contracts/cw-croncat/src/manager.rs: the calls of agents and the replies to them.
pub mod Attempt
pub mod Replies
pub mod Call
pub mod Serving
pub mod Service
pub mod Filing
pub mod Agenda
pub mod Recurring
pub mod Ending
pub mod Callback
pub mod Awaiting
use cw_croncat.Base.{
  ℕ, ◌+◌, String, Bool, true, false, not, ◌&&◌, ◌||◌, Option, none, some, List, [], ◌∷◌, ◌==◌, leb,
  eqb, if◌then◌else◌, is_empty, contains,
}
use cw_croncat.Base.Outcome.{
  Outcome, ok, err, panic, M, ◌>>=◌, ◌>>◌, gets, modify, pure, fail, lift, fail_if, or_fail, choose,
  ContractError, custom_error, agent_not_registered, no_task_found, saturating, u64_mod,
}
use cw_croncat.Types.{
  Coin, Agent, Task, TaskHash, SlotType, block, cron, Balance, Action, SubMsg, reply_always,
  with_gas_limit,
}
use cw_croncat.External.{External}
use cw_croncat.State.{State, Env, MessageInfo, rq_next_id, rq_push}
use cw_croncat.Response.{Response, response, add_attribute, extend, text, number, kind}
use cw_croncat.Balance.{add_tokens, minus_tokens}
use cw_croncat.Interval.{next}
use cw_croncat.Task.{to_hash, to_hash_vec}
use cw_croncat.Slots.{get_current_slot_items, pop_slot_item, push_slot_item}
use cw_croncat.Tasks.{remove_task}

-- `Reply` of cosmwasm_std.
pub record Event : Type 0 where
  pub ty : String
  pub attributes : List (String × String)

pub data SubMsgResult : Type 0 where
  succeeded : List Event → SubMsgResult
  failed : String → SubMsgResult

pub record Reply : Type 0 where
  pub id : ℕ
  pub result : SubMsgResult

unfoldable pub marks_failure : String → List (String × String) → Bool
marks_failure ty [] = false
marks_failure ty ((key, value) ∷ attributes) =
    (ty == "reply" && key == "mode" && value == "handle_failure") || marks_failure ty attributes

unfoldable pub any_failure : List Event → Bool
unfolding marks_failure
any_failure [] = false
any_failure (e ∷ events) = marks_failure e.ty e.attributes || any_failure events

unfoldable pub reply_submsg_failed : SubMsgResult → Bool
unfolding any_failure
reply_submsg_failed (succeeded events) = any_failure events
reply_submsg_failed (failed _) = true

-- One submessage for each action, all with the same reply id.
unfoldable pub sub_msg : ℕ → Action → SubMsg
sub_msg next_idx action = elim action.gas_limit [
  | none ↦ reply_always action.msg next_idx
  | some gas_limit ↦ with_gas_limit (reply_always action.msg next_idx) gas_limit
]

unfoldable pub sub_msgs : ℕ → List Action → List SubMsg
unfolding sub_msg
sub_msgs next_idx [] = []
sub_msgs next_idx (action ∷ actions) = sub_msg next_idx action ∷ sub_msgs next_idx actions

-- `!native.is_empty() && native.first().amount >= amount`
unfoldable pub first_covers : List Coin → ℕ → Bool
first_covers [] amount = false
first_covers (c ∷ cs) amount = leb amount c.amount

module _ (E : External) where
  unfoldable pub send_base_agent_reward : Agent → MessageInfo → M (State E) (Unit {0})
  unfolding first_covers
  send_base_agent_reward agent message = do
    config ← gets (λ s. s.config)
    let add_native = Balance.native (config.agent_fee ∷ [])
    balance ← lift (add_tokens agent.balance add_native)
    available ← lift (
        if first_covers config.available_balance.native_coins config.agent_fee.amount
        then minus_tokens config.available_balance add_native
        else ok config.available_balance)
    modify (λ s. record s { config = record config { available_balance = available } })
    modify λ s. record s {
      agents = E.save s.agents message.sender (record agent {
        balance = balance;
        total_tasks_executed = saturating u64_mod (agent.total_tasks_executed + 1);
        last_missed_slot = 0;
      });
    }

  -- The hash popped from a slot, beside the slot.
  unfoldable pub pop_from : SlotType → ℕ → M (State E) (Option (ℕ × Option TaskHash))
  pop_from store slot_id = do hash ← pop_slot_item E slot_id store; pure (some (slot_id, hash))

  -- The slot to serve, a block slot first, and the hash popped from it.
  unfoldable pub next_hash : Env → M (State E) (Option (ℕ × Option TaskHash))
  unfolding pop_from
  next_hash env = do
    slot ← gets (get_current_slot_items E env (some 1))
    choose slot.0 (choose slot.1 (pure none) (pop_from cron)) (pop_from block)

  -- The submessages of a task, and the queue entry for its reply.
  unfoldable pub run_task : MessageInfo → Env → ℕ → TaskHash → Task → M (State E) Response
  unfolding sub_msgs
  run_task info env slot_id hash task = do
    next_idx ← rq_next_id E
    rq_push E (record {
      prev_idx = none;
      task_hash = some hash;
      contract_addr = some env.contract_address;
    })
    pure (
        response
          (("method", text "proxy_call")
            ∷ ("agent", text info.sender)
            ∷ ("slot_id", number slot_id)
            ∷ ("slot_kind", kind block)
            ∷ ("task_hash", text (to_hash E task))
            ∷ [])
          (sub_msgs next_idx task.actions))

  -- The agent is rewarded, and the call fails all the same.
  unfoldable pub reward_and_fail : Agent → MessageInfo → ContractError → M (State E) Response
  reward_and_fail agent info e = do send_base_agent_reward agent info; fail e

  -- From a hash on.
  unfoldable pub run_hash : MessageInfo → Env → Agent → ℕ → TaskHash → M (State E) Response
  unfolding run_task reward_and_fail
  run_hash info env agent slot_id hash = do
    some_task ← gets (λ s. E.may_load s.tasks hash)
    choose some_task (reward_and_fail agent info no_task_found)
        λ task. run_task info env slot_id hash task

  -- From a slot, or none, on.
  unfoldable pub run_found :
      MessageInfo → Env → Agent → Option (ℕ × Option TaskHash) → M (State E) Response
  unfolding run_hash
  run_found info env agent none = reward_and_fail agent info (custom_error "No Tasks For Slot")
  run_found info env agent (some (slot_id, none)) =
      reward_and_fail agent info (custom_error "No Tasks For Slot")
  run_found info env agent (some (slot_id, some hash)) = run_hash info env agent slot_id hash

  -- From the slots on, for an active agent.
  unfoldable pub serve_slot : MessageInfo → Env → Agent → M (State E) Response
  unfolding next_hash run_found
  serve_slot info env agent = do found ← next_hash env; run_found info env agent found

  unfoldable pub proxy_call : MessageInfo → Env → M (State E) Response
  unfolding serve_slot
  proxy_call info env = do
    fail_if (not (is_empty info.funds)) (custom_error "Must not attach funds")
    c ← gets (λ s. s.config)
    fail_if c.paused (custom_error "Contract paused")
    fail_if (is_empty c.available_balance.native_coins)
        (custom_error "Not enough available balance for sending agent reward")
    agent_opt ← gets (λ s. E.may_load s.agents info.sender)
    agent ← or_fail agent_opt agent_not_registered
    active_agents ← gets (λ s. s.agent_active_queue)
    fail_if (not (contains active_agents info.sender)) agent_not_registered
    serve_slot info env agent

  -- `if let Ok(..) = rt`: an error is dropped, and what was written stays.
  abbrev pub dropped : {A : Type 0} → Outcome A × State E → Outcome (Option A) × State E
  dropped (ok a, t) = (ok (some a), t)
  dropped (err _, t) = (ok none, t)
  dropped (panic, t) = (panic, t)

  unfoldable pub attempt : {A : Type 0} → M (State E) A → M (State E) (Option A)
  attempt m s = dropped (m s)

  abbrev pub extend_with : Response → Option Response → Response
  extend_with r none = r
  extend_with r (some resp) = extend r resp

  -- A task that is not scheduled again leaves the catalog.
  unfoldable pub exit_task : Response → TaskHash → M (State E) Response
  unfolding attempt
  exit_task r task_hash = do rt ← attempt (remove_task E task_hash); pure (extend_with r rt)

  -- The next slot of a task that goes on.
  unfoldable pub reschedule : Response → Task → ℕ × SlotType → M (State E) Response
  unfolding exit_task
  reschedule r task (next_id, slot_kind) =
      if eqb next_id 0
      then (do
        resp ← exit_task r (to_hash E task)
        pure (add_attribute resp "ended_task" (text (to_hash E task))))
      else (do
        push_slot_item E next_id slot_kind (to_hash_vec E task)
        pure (
            add_attribute (add_attribute r "slot_id" (number next_id)) "slot_kind"
              (kind slot_kind)))

  unfoldable pub proxy_callback : Env → Reply → TaskHash → M (State E) Response
  unfolding reply_submsg_failed reschedule
  proxy_callback env msg task_hash = do
    let r = response (("method", text "proxy_callback") ∷ []) []
    found ← gets (λ s. E.may_load s.tasks task_hash)
    task ← or_fail found no_task_found
    if task.stop_on_fail && reply_submsg_failed msg.result
        then exit_task r (to_hash E task)
        else (do slot ← lift (next E task.interval env task.boundary); reschedule r task slot)
