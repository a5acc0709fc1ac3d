-- ===== src/Contract/Lifecycle.antt =====
-- The agents as state machines: how each message of `execute` moves each address.
use cw_croncat.Base.{
  ap, ◌≡◌, refl, ◌∙◌, Bool, none, some, List, arith, ◌==◌, Option-cases, inl, inr, subst, eq_iff,
  contains, if◌then◌else◌,
}
use cw_croncat.Base.Outcome.{ok, M}
use cw_croncat.Base.Keeps.{Keeps, keeps_rules, commit, commit-Keeps}
use cw_croncat.Base.Success.{commit-ok}
use cw_croncat.Types.{Addr, Agent}
use cw_croncat.External.{External}
use cw_croncat.State.{State, Env, MessageInfo}
use cw_croncat.Messages.{Settings, ExecuteMsg}
use cw_croncat.Response.{Response}
use cw_croncat.Agent.{
  Querier, register_agent, update_agent, accept_nomination_agent, unregister_agent,
  withdraw_agent_balance,
}
use cw_croncat.Agent.Consistency.{IsConsistent}
use cw_croncat.Agent.Lifecycle.{Phase, Moves, Moves-same, phase}
use cw_croncat.Agent.Lifecycle.Joining.{register_agent-Moves, accept_nomination_agent-Moves}
use cw_croncat.Agent.Lifecycle.Leaving.{unregister_agent-Moves}
use cw_croncat.Tasks.{create_task, remove_task, refill_task}
use cw_croncat.Manager.{proxy_call}
use cw_croncat.Manager.Call.{proxy_call-success}
use cw_croncat.Owner.{update_settings, move_balances}
use cw_croncat.Contract.{execute}
use cw_croncat.Contract.Frame.{
  BalanceFrame, TaskFrame, load_any, move_balances-keep, withdraw_agent_balance-keep,
}
use cw_croncat.Contract.Frame.Tasks.{
  create_task-keep, remove_task-keep, refill_task-keep, next_hash-keep,
}

module _ (E : External) where
  -- Who is registered and queued.
  abbrev Roster : Type 0
  Roster = E.TextMap Agent × List Addr × List Addr

  abbrev roster : State E → Roster
  roster s = (s.agents, s.agent_active_queue, s.agent_pending_queue)

module _ (E : External) (k : Roster E) where
  abbrev P : State E → Type 0
  P s = roster E s ≡ k

  abbrev framed : BalanceFrame E P
  framed = record { Q = λ _. Unit {0}; load = load_any E; save_balance = λ c g s q p. p }

  abbrev tasks_framed : TaskFrame E P
  tasks_framed = record {
    balances = framed;
    Now = λ _. Unit {0};
    save_tasks = λ m s p. p;
    save_total = λ n s p. p;
    save_times = λ m s p. p;
    save_blocks = λ m s p. p;
    begin = λ n env s now p. p;
  }

  update_settings-keep : (info : MessageInfo) (p : Settings) → Keeps P (update_settings E info p)
  unfolding update_settings
  update_settings-keep info p = search keeps_rules depth 14

module _ (E : External) (a : Addr) where
  -- A message that leaves the roster alone moves nobody.
  still :
      {own : Bool} (s t : State E) → roster E t ≡ roster E s → Moves own (phase E s a) (phase E t a)
  still s t e = Moves-same (ap (λ (r : Roster E). of_roster r) e)
    where
      of_roster : Roster E → Phase
      of_roster r =
          if contains r.1 a
          then Phase.serving
          else if contains r.2 a
          then Phase.waiting
          else elim (E.may_load r.0 a) [ none ↦ Phase.stranger | some _ ↦ Phase.passed_over ]

  unmoved :
      {own : Bool} (m : M (State E) Response) (s : State E)
      → Keeps (P E (roster E s)) m
      → Moves own (phase E s a) (phase E (commit s (m s)) a)
  unmoved m s k = still s (commit s (m s)) (commit-Keeps k s refl)

  -- A message that fails moves nobody.
  moved :
      {own : Bool} (m : M (State E) Response) (s : State E)
      → ((r : Response) (t : State E) → m s ≡ (ok r, t) → Moves own (phase E s a) (phase E t a))
      → Moves own (phase E s a) (phase E (commit s (m s)) a)
  moved {own} m s after =
      commit-ok (λ t. Moves own (phase E s a) (phase E t a)) s (m s) Moves.stay after

  update_agent-Moves :
      (info : MessageInfo) (payable : Addr) (s t : State E) (r : Response)
      → update_agent E info payable s ≡ (ok r, t)
      → Moves (info.sender == a) (phase E s a) (phase E t a)
  unfolding update_agent
  update_agent-Moves info payable s t r h = elim (Option-cases (E.may_load s.agents info.sender)) [
    | inl e ↦ absurd (ground arith)
    | inr (v, e) ↦ Moves-same (
        ground (
          arith,
          eq_iff info.sender a,
          E.may_load-save s.agents info.sender a (record v { payable_account_id = payable }),
        ))
  ]

  proxy_call-Moves :
      (info : MessageInfo) (env : Env) (s t : State E) (r : Response)
      → proxy_call E info env s ≡ (ok r, t)
      → Moves (info.sender == a) (phase E s a) (phase E t a)
  proxy_call-Moves info env s t r h =
      let (id, hash, u, _, _, _, popped, run) = proxy_call-success E info env s t r h in
      let (task, _, e, _) = run in
      let same : roster E u ≡ roster E s =
        subst (λ x. roster E x.1 ≡ roster E s) popped
          ((next_hash-keep E (tasks_framed E (roster E s)) env).at s refl) in
      still s t (ap (roster E) e ∙ same)

  -- Where the queues are consistent, each message, whatever its outcome, moves each address along an
  -- edge of the machine. An address is taken on, queued, let in or removed only by a message of its
  -- own; a message of another can at most pass over an address that waits; and an address that
  -- was passed over can only leave.
  pub execute-Moves :
      (q : Querier) (env : Env) (info : MessageInfo) (msg : ExecuteMsg) (s : State E)
      → IsConsistent E s
      → Moves (info.sender == a) (phase E s a) (phase E (commit s (execute E q env info msg s)) a)
  unfolding execute
  execute-Moves q env info (ExecuteMsg.register_agent o) s c =
      moved (register_agent E q info env o) s
        λ r t e. register_agent-Moves E q info env o s t r a c e
  execute-Moves q env info (ExecuteMsg.update_agent o) s c =
      moved (update_agent E info o) s λ r t e. update_agent-Moves info o s t r e
  execute-Moves q env info ExecuteMsg.check_in_agent s c =
      moved (accept_nomination_agent E info env) s
        λ r t e. accept_nomination_agent-Moves E info env s t r a c e
  execute-Moves q env info ExecuteMsg.unregister_agent s c =
      moved (unregister_agent E info) s λ r t e. unregister_agent-Moves E info s t r a c e
  execute-Moves q env info ExecuteMsg.proxy_call s c =
      moved (proxy_call E info env) s λ r t e. proxy_call-Moves info env s t r e
  execute-Moves q env info ExecuteMsg.withdraw_reward s c =
      unmoved (withdraw_agent_balance E info) s
        (withdraw_agent_balance-keep E (framed E (roster E s)) info)
  execute-Moves q env info (ExecuteMsg.create_task t) s c =
      unmoved (create_task E info env t) s
        (create_task-keep E (tasks_framed E (roster E s)) info env t tt)
  execute-Moves q env info (ExecuteMsg.remove_task h) s c =
      unmoved (remove_task E h) s (remove_task-keep E (tasks_framed E (roster E s)) h)
  execute-Moves q env info (ExecuteMsg.refill_task_balance h) s c =
      unmoved (refill_task E info h) s (refill_task-keep E (tasks_framed E (roster E s)) info h)
  execute-Moves q env info (ExecuteMsg.update_settings p) s c =
      unmoved (update_settings E info p) s (update_settings-keep E (roster E s) info p)
  execute-Moves q env info (ExecuteMsg.move_balances bs b) s c =
      unmoved (move_balances E q info env bs b) s
        (move_balances-keep E (framed E (roster E s)) q info env bs b)
