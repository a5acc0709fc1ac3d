-- ===== src/Contract/Consistency.antt =====
-- The queues of agents under the messages of `execute` and the replies.
use cw_croncat.Base.{arith, eq_iff}
use cw_croncat.Base.Keeps.{Keeps, keeps_rules, commit, commit-Keeps}
use cw_croncat.External.{External}
use cw_croncat.State.{State, Env, MessageInfo, rq_push, rq_remove}
use cw_croncat.Messages.{Settings, ExecuteMsg}
use cw_croncat.Agent.{Querier}
use cw_croncat.Agent.Consistency.{
  IsConsistent, register_agent-IsConsistent, update_agent-IsConsistent,
  accept_nomination_agent-IsConsistent, unregister_agent-IsConsistent,
}
use cw_croncat.Manager.{Reply}
use cw_croncat.Owner.{update_settings}
use cw_croncat.Contract.{execute, reply}
use cw_croncat.Contract.Frame.{
  BalanceFrame, TaskFrame, ReplyFrame, SavesAgents, load_any, move_balances-keep,
  withdraw_agent_balance-keep,
}
use cw_croncat.Contract.Frame.Tasks.{create_task-keep, remove_task-keep, refill_task-keep}
use cw_croncat.Contract.Frame.Calls.{proxy_call-keep, reply-keep}

module _ (E : External) where
  abbrev P : State E → Type 0
  P = IsConsistent E

  abbrev framed : BalanceFrame E P
  framed = record { Q = λ _. Unit {0}; load = load_any E; save_balance = λ c g s q p. p }

  abbrev tasks_framed : TaskFrame E P
  tasks_framed = record {
    balances = framed;
    Now = λ _. Unit {0};
    save_tasks = λ m s p. p;
    save_total = λ n s p. p;
    save_times = λ m s p. p;
    save_blocks = λ m s p. p;
    begin = λ n env s now p. p;
  }

  replies_framed : ReplyFrame E P
  unfolding rq_push rq_remove
  replies_framed = record {
    push_reply = λ h a. search keeps_rules depth 14;
    remove_reply = λ i. search keeps_rules depth 14;
  }

  -- Saving an agent can only register more addresses; the rest is not looked at.
  save_agent : SavesAgents E P
  save_agent a v s p b = ground (arith, p b, eq_iff a b, E.may_load-save s.agents a b v)

  update_settings-keep :
      (info : MessageInfo) (payload : Settings) → Keeps P (update_settings E info payload)
  unfolding update_settings
  update_settings-keep info payload = search keeps_rules depth 14

  -- After any message, from anyone, an address is queued at most once and only if registered; what
  -- a failing handler wrote is rolled back.
  pub execute-IsConsistent :
      (q : Querier) (env : Env) (info : MessageInfo) (msg : ExecuteMsg) (s : State E)
      → IsConsistent E s
      → IsConsistent E (commit s (execute E q env info msg s))
  unfolding execute
  execute-IsConsistent q env info (ExecuteMsg.update_settings p) =
      commit-Keeps (update_settings-keep info p)
  execute-IsConsistent q env info (ExecuteMsg.move_balances bs a) =
      commit-Keeps (move_balances-keep E framed q info env bs a)
  execute-IsConsistent q env info (ExecuteMsg.register_agent a) =
      (register_agent-IsConsistent E q info env a).at
  execute-IsConsistent q env info (ExecuteMsg.update_agent a) =
      commit-Keeps (update_agent-IsConsistent E info a)
  execute-IsConsistent q env info ExecuteMsg.unregister_agent =
      commit-Keeps (unregister_agent-IsConsistent E info)
  execute-IsConsistent q env info ExecuteMsg.withdraw_reward =
      commit-Keeps (withdraw_agent_balance-keep E framed info)
  execute-IsConsistent q env info ExecuteMsg.check_in_agent =
      commit-Keeps (accept_nomination_agent-IsConsistent E info env)
  execute-IsConsistent q env info (ExecuteMsg.create_task t) =
      commit-Keeps (create_task-keep E tasks_framed info env t tt)
  execute-IsConsistent q env info (ExecuteMsg.remove_task h) =
      commit-Keeps (remove_task-keep E tasks_framed h)
  execute-IsConsistent q env info (ExecuteMsg.refill_task_balance h) =
      commit-Keeps (refill_task-keep E tasks_framed info h)
  execute-IsConsistent q env info ExecuteMsg.proxy_call =
      commit-Keeps (proxy_call-keep E tasks_framed replies_framed save_agent info env)

  pub reply-IsConsistent : (env : Env) (msg : Reply) → Keeps P (reply E env msg)
  reply-IsConsistent = reply-keep E tasks_framed replies_framed
