-- ===== src/Contract/Unpaid.antt =====
-- The rewards of agents (manager.rs, agent.rs) in the states that messages and replies lead to.
use cw_croncat.Base.{subst, ap, sym, ◌∙◌, ◌≡◌, refl, some, [], ◌∷◌, arith, eq_iff}
use cw_croncat.Base.Outcome.{ok, ◌>>=◌}
use cw_croncat.Base.Keeps.{Keeps, keeps_rules, commit, commit-Keeps}
use cw_croncat.Base.Success.{commit-ok}
use cw_croncat.Types.{Addr, Agent, empty_balance_value}
use cw_croncat.External.{External}
use cw_croncat.State.{State, Config, Env, MessageInfo, rq_push, rq_remove}
use cw_croncat.Messages.{InstantiateMsg, Settings, ExecuteMsg}
use cw_croncat.Response.{Response, response, text}
use cw_croncat.Balance.{minus_tokens}
use cw_croncat.Agent.{Querier, send_tokens, withdraw_balances, withdraw_agent_balance}
use cw_croncat.Manager.{proxy_call}
use cw_croncat.Manager.Call.{proxy_call-success}
use cw_croncat.Owner.{update_settings}
use cw_croncat.Contract.{instantiate, initial_state, execute}
use cw_croncat.Contract.Frame.{TaskFrame, ReplyFrame, AgentFrame, load_any}
use cw_croncat.Contract.Frame.Tasks.{next_hash-keep}
use cw_croncat.Contract.Frame.Calls.{reply-keep}
use cw_croncat.Contract.Frame.Execute.{execute-keep}
use cw_croncat.Contract.Reach.{instantiate-initial, Reach, Reach-keep}

-- Without a reward, and without a task executed.
abbrev pub IsUnpaid : Agent → Type 0
IsUnpaid v = (v.balance ≡ empty_balance_value) × (v.total_tasks_executed ≡ 0)

module _ (E : External) where
  abbrev P : State E → Type 0
  P s = (a : Addr) (v : Agent) → E.may_load s.agents a ≡ some v → IsUnpaid v

  abbrev tasks_framed : TaskFrame E P
  tasks_framed = record {
    balances = record { Q = λ _. Unit {0}; load = load_any E; save_balance = λ c g s q p. p };
    Now = λ _. Unit {0};
    save_tasks = λ m s p. p;
    save_total = λ n s p. p;
    save_times = λ m s p. p;
    save_blocks = λ m s p. p;
    begin = λ n env s now p. p;
  }

  replies_framed : ReplyFrame E P
  unfolding rq_push rq_remove
  replies_framed = record {
    push_reply = λ h a. search keeps_rules depth 14;
    remove_reply = λ i. search keeps_rules depth 14;
  }

  agents_framed : AgentFrame E P
  agents_framed = record {
    Fit = IsUnpaid;
    fresh = λ a now. (refl, refl);
    readdressed = λ a o v s p e. p a v e;
    save_agent =
        λ a v s fit p b w e. ground (arith, p b w, fit, eq_iff a b, E.may_load-save s.agents a b v);
    remove_agent = λ a s p b w e. ground (arith, p b w, eq_iff a b, E.may_load-remove s.agents a b);
    save_active = λ q s p. p;
    save_pending = λ q s p. p;
    end_nomination = λ s p. p;
  }

  update_settings-keep : (info : MessageInfo) (p : Settings) → Keeps P (update_settings E info p)
  unfolding update_settings
  update_settings-keep info p = search keeps_rules depth 14

  -- A call that succeeds rewards nobody, and the reward of one that fails is rolled back.
  proxy_call-commit :
      (info : MessageInfo) (env : Env) (s : State E) → P s → P (commit s (proxy_call E info env s))
  proxy_call-commit info env s p = commit-ok P s (proxy_call E info env s) p λ r t e.
      let (id, hash, u, _, _, _, popped, run) = proxy_call-success E info env s t r e in
      let (task, _, after, _) = run in
      let kept : P u = subst (λ x. P x.1) popped ((next_hash-keep E tasks_framed env).at s p) in
      λ a v f. kept a v (ap (λ (x : State E). E.may_load x.agents a) (sym after) ∙ f)

  execute-commit :
      (q : Querier) (env : Env) (info : MessageInfo) (msg : ExecuteMsg) (s : State E)
      → P s
      → P (commit s (execute E q env info msg s))
  execute-commit q env info msg s p =
      execute-keep E tasks_framed agents_framed q env info msg s
        (λ x. commit-Keeps (update_settings-keep info x) s p) (proxy_call-commit info env s p) tt p

  initial : (c : Config) → P (initial_state E c)
  initial c a v e = absurd (ground (arith, E.may_load-empty_map {V = Agent} a))

  unpaid_withdrawal :
      (info : MessageInfo) (v : Agent) (s : State E)
      → E.may_load s.agents info.sender ≡ some v
      → v.balance ≡ empty_balance_value
      → withdraw_agent_balance E info s ≡ (
        ok (
            response
              (("method", text "withdraw_agent_balance") ∷ ("account_id", text info.sender) ∷ [])
              []),
        s,
      )
  unfolding withdraw_agent_balance withdraw_balances send_tokens minus_tokens ◌>>=◌
  unpaid_withdrawal info v s e empty = ground arith

  -- From instantiation on, whatever messages and replies follow in whatever order, no agent has a
  -- reward or a task executed to its account, and the withdrawal of any agent succeeds, sends no
  -- message and changes nothing.
  pub reachable-IsUnpaid :
      (q : Querier) (env : Env) (info info' : MessageInfo) (msg : InstantiateMsg) (s t : State E)
      (r : Response) (v : Agent)
      → instantiate E q env info msg ≡ ok (s, r)
      → Reach E s t
      → E.may_load t.agents info'.sender ≡ some v
      → IsUnpaid v
        × ((r' : Response) × (withdraw_agent_balance E info' t ≡ (ok r', t)) × (r'.messages ≡ []))
  reachable-IsUnpaid q env info info' msg s t r v e path found =
      let unpaid =
        Reach-keep E P execute-commit (reply-keep E tasks_framed replies_framed)
          (rw (instantiate-initial E q env info msg e) (initial s.config)) path info'.sender v
          found in
      (unpaid, (_, unpaid_withdrawal info' v t found unpaid.0, refl))
