-- ===== src/Contract/Frame/Execute.antt =====
-- `execute` (contract.rs) against a property of states that bears with what the handlers write.
use cw_croncat.Base.Keeps.{commit, commit-Keeps}
use cw_croncat.External.{External}
use cw_croncat.State.{State, Env, MessageInfo}
use cw_croncat.Messages.{Settings, ExecuteMsg}
use cw_croncat.Agent.{Querier}
use cw_croncat.Manager.{proxy_call}
use cw_croncat.Owner.{update_settings}
use cw_croncat.Contract.{execute}
use cw_croncat.Contract.Frame.{
  TaskFrame, AgentFrame, move_balances-keep, withdraw_agent_balance-keep,
}
use cw_croncat.Contract.Frame.Agents.{
  register_agent-keep, update_agent-keep, accept_nomination_agent-keep, unregister_agent-keep,
}
use cw_croncat.Contract.Frame.Tasks.{create_task-keep, remove_task-keep, refill_task-keep}

module _ (E : External) {P : State E → Type 0} (F : TaskFrame E P) (A : AgentFrame E P) where
  pub execute-keep :
      (q : Querier) (env : Env) (info : MessageInfo) (msg : ExecuteMsg) (s : State E)
      → ((p : Settings) → P (commit s (update_settings E info p s)))
      → P (commit s (proxy_call E info env s))
      → F.Now env
      → P s
      → P (commit s (execute E q env info msg s))
  unfolding execute
  execute-keep q env info (ExecuteMsg.update_settings p) s set call now = λ _. set p
  execute-keep q env info (ExecuteMsg.move_balances bs a) s set call now =
      commit-Keeps (move_balances-keep E F.balances q info env bs a) s
  execute-keep q env info (ExecuteMsg.register_agent a) s set call now =
      commit-Keeps (register_agent-keep E A q info env a) s
  execute-keep q env info (ExecuteMsg.update_agent a) s set call now =
      commit-Keeps (update_agent-keep E A info a) s
  execute-keep q env info ExecuteMsg.unregister_agent s set call now =
      commit-Keeps (unregister_agent-keep E A F.balances info) s
  execute-keep q env info ExecuteMsg.withdraw_reward s set call now =
      commit-Keeps (withdraw_agent_balance-keep E F.balances info) s
  execute-keep q env info ExecuteMsg.check_in_agent s set call now =
      commit-Keeps (accept_nomination_agent-keep E A info env) s
  execute-keep q env info (ExecuteMsg.create_task t) s set call now =
      commit-Keeps (create_task-keep E F info env t now) s
  execute-keep q env info (ExecuteMsg.remove_task h) s set call now =
      commit-Keeps (remove_task-keep E F h) s
  execute-keep q env info (ExecuteMsg.refill_task_balance h) s set call now =
      commit-Keeps (refill_task-keep E F info h) s
  execute-keep q env info ExecuteMsg.proxy_call s set call now = λ _. call
