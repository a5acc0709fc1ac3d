-- ===== src/Contract/Frame/Calls.antt =====
-- The calls of agents and the replies (manager.rs, contract.rs), which write tasks, replies and rewards.
use cw_croncat.Base.{ℕ, Option, none, some}
use cw_croncat.Base.Outcome.{M, ContractError, gets, ◌>>=◌}
use cw_croncat.Base.Keeps.{Keeps, keeps_rules}
use cw_croncat.Types.{Addr, Agent, GenericBalance, Task, TaskHash}
use cw_croncat.External.{External}
use cw_croncat.State.{State, Config, Env, MessageInfo, rq_push, rq_remove, rq_next_id, QueueItem}
use cw_croncat.Manager.{
  Reply, send_base_agent_reward, run_task, reward_and_fail, run_found, serve_slot, proxy_call,
}
use cw_croncat.Contract.{reply, answer}
use cw_croncat.Contract.Frame.{TaskFrame, ReplyFrame, SavesAgents}
use cw_croncat.Contract.Frame.Tasks.{next_hash-keep, proxy_callback-keep}

module _ (E : External) {P : State E → Type 0} (F : TaskFrame E P) (R : ReplyFrame E P) where
  push_reply :
      (h : TaskHash) (a : Addr)
      → Keeps P (rq_push E (record { prev_idx = none; task_hash = some h; contract_addr = some a }))
  push_reply = R.push_reply

  remove_reply : (i : ℕ) → Keeps P (rq_remove E i)
  remove_reply = R.remove_reply

  run_task-keep :
      (info : MessageInfo) (env : Env) (id : ℕ) (h : TaskHash) (t : Task)
      → Keeps P (run_task E info env id h t)
  unfolding run_task rq_next_id
  run_task-keep info env id h t = search (keeps_rules, push_reply) depth 14

  answer-keep : (env : Env) (msg : Reply) (item : QueueItem) → Keeps P (answer E env msg item)
  unfolding answer
  answer-keep env msg item = search (keeps_rules, proxy_callback-keep E F) depth 14

  pub reply-keep : (env : Env) (msg : Reply) → Keeps P (reply E env msg)
  unfolding reply
  reply-keep env msg = search (keeps_rules, remove_reply, answer-keep) depth 14

  module _ (save_agent : SavesAgents E P) where
    load :
        {B : Type 0} (f : Config → M (State E) B)
        → ((c : Config) → F.balances.Q c → Keeps P (f c))
        → Keeps P (gets (λ s. s.config) >>= f)
    load = F.balances.load

    save_balance :
        (c : Config) (g : GenericBalance) (s : State E)
        → F.balances.Q c
        → P s
        → P (record s { config = record c { available_balance = g } })
    save_balance = F.balances.save_balance

    reward_and_fail-keep :
        (agent : Agent) (info : MessageInfo) (e : ContractError)
        → Keeps P (reward_and_fail E agent info e)
    unfolding reward_and_fail send_base_agent_reward
    reward_and_fail-keep agent info e =
        search (load, keeps_rules, save_balance, save_agent) depth 14

    run_found-keep :
        (info : MessageInfo) (env : Env) (agent : Agent) (found : Option (ℕ × Option TaskHash))
        → Keeps P (run_found E info env agent found)
    unfolding run_found
    run_found-keep info env agent none = reward_and_fail-keep _ _ _
    run_found-keep info env agent (some (id, none)) = reward_and_fail-keep _ _ _
    run_found-keep info env agent (some (id, some h)) =
        search (keeps_rules, run_task-keep, reward_and_fail-keep) depth 14

    pub proxy_call-keep : (info : MessageInfo) (env : Env) → Keeps P (proxy_call E info env)
    unfolding proxy_call serve_slot
    proxy_call-keep info env =
        search (load, keeps_rules, next_hash-keep E F, run_found-keep) depth 16
