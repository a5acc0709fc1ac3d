-- ===== src/Agent/Consistency.antt =====
-- The queues of agents against the map of agents, under the handlers of agent.rs.
use cw_croncat.Base.{
  ℕ, suc, ◌+◌, ◌≤◌, Option, none, some, [], ◌∷◌, arith, eq_iff, position, inl, inr, Option-cases,
}
use cw_croncat.Base.Outcome.{◌>>=◌, pure, ◌>>◌}
use cw_croncat.Base.Keeps.{
  Keeps, keeps_rules, Commits, Commits-bind, Keeps-bind, Keeps-modify_twice, Keeps-pure,
}
use cw_croncat.Types.{Addr, Agent, AgentStatus}
use cw_croncat.External.{External}
use cw_croncat.State.{State, Env, MessageInfo}
use cw_croncat.Agent.{
  Querier, enqueue_agent, insert_agent, register_agent, update_agent, withdraw_balances,
  withdraw_agent_balance, accept_nomination_agent, dequeue_agent, unregister_agent,
}
use cw_croncat.Agent.Queue.{remove_through-eq-drop}
use cw_croncat.Base.Count.{
  count, count-append, count-one, count-remove_at, count-drop-le, count-drop-position,
  count-pos_position,
}

module _ (E : External) where
  -- 1 for an address of the map `agents`, else 0.
  abbrev pub registered : State E → Addr → ℕ
  registered s a = elim (E.may_load s.agents a) [ none ↦ 0 | some _ ↦ 1 ]

  -- An address stands at most once in the two queues together, and only if it is registered.
  abbrev pub IsConsistent : State E → Type 0
  IsConsistent s =
      (a : Addr) → count a s.agent_active_queue + count a s.agent_pending_queue ≤ registered s a

  -- An address that is not registered joins a queue as it is registered.
  register-step :
      {B : Type 0} (account : Addr) (agent : Agent) (r : AgentStatus → B)
      → Commits IsConsistent
          (do st ← enqueue_agent E account; insert_agent E account agent; pure (r st))
  unfolding enqueue_agent insert_agent ◌>>=◌
  register-step account agent r = record {
    at = λ s h a. ground (
      arith,
      h a,
      h account,
      E.may_load-save s.agents account a agent,
      eq_iff account a,
      count-append a s.agent_active_queue (account ∷ []),
      count-append a s.agent_pending_queue (account ∷ []),
      count-one a account,
    );
  }

  pub register_agent-IsConsistent :
      (q : Querier) (info : MessageInfo) (env : Env) (payable : Option Addr)
      → Commits IsConsistent (register_agent E q info env payable)
  unfolding register_agent
  register_agent-IsConsistent q info env payable =
      search (keeps_rules, Commits-bind, register-step) depth 14

  pub update_agent-IsConsistent :
      (info : MessageInfo) (payable : Addr) → Keeps IsConsistent (update_agent E info payable)
  unfolding update_agent
  update_agent-IsConsistent info payable = record {
    at = λ s h. elim (Option-cases (E.may_load s.agents info.sender)) [
      | inl e ↦ λ a. ground (arith, h a)
      | inr (agent, e) ↦ λ a. ground (
        arith,
        h a,
        E.may_load-save s.agents info.sender a (record agent { payable_account_id = payable }),
        eq_iff info.sender a,
      )
    ];
  }

  withdraw_balances-IsConsistent :
      (info : MessageInfo) → Keeps IsConsistent (withdraw_balances E info)
  unfolding withdraw_balances
  withdraw_balances-IsConsistent info = search keeps_rules depth 14

  pub withdraw_agent_balance-IsConsistent :
      (info : MessageInfo) → Keeps IsConsistent (withdraw_agent_balance E info)
  unfolding withdraw_agent_balance
  withdraw_agent_balance-IsConsistent info = search (keeps_rules, withdraw_balances-IsConsistent)

  pub accept_nomination_agent-IsConsistent :
      (info : MessageInfo) (env : Env) → Keeps IsConsistent (accept_nomination_agent E info env)
  unfolding accept_nomination_agent ◌>>=◌
  accept_nomination_agent-IsConsistent info env = record {
    at = λ s h. elim (Option-cases (position s.agent_pending_queue info.sender)) [
      | inl e ↦ λ a. ground (arith, h a)
      | inr (i, e) ↦ λ a. ground (
        arith,
        h a,
        eq_iff info.sender a,
        remove_through-eq-drop i s.agent_pending_queue,
        count-append a s.agent_active_queue (info.sender ∷ []),
        count-one a info.sender,
        count-drop-position info.sender i s.agent_pending_queue,
        count-drop-le a (suc i) s.agent_pending_queue,
      )
    ];
  }

  -- Out of the map and out of its queue.
  dequeue-IsConsistent :
      (account : Addr) (s : State E)
      → IsConsistent s
      → IsConsistent (dequeue_agent E account (record s { agents = E.remove s.agents account }))
  unfolding dequeue_agent
  dequeue-IsConsistent account s h = elim (Option-cases (position s.agent_active_queue account)) [
    | inr (i, e) ↦ λ a. ground (
      arith,
      h a,
      h account,
      eq_iff account a,
      E.may_load-remove s.agents account a,
      count-remove_at a account i s.agent_active_queue,
    )
    | inl e ↦ elim (Option-cases (position s.agent_pending_queue account)) [
      | inr (i, f) ↦ λ a. ground (
        arith,
        h a,
        h account,
        eq_iff account a,
        E.may_load-remove s.agents account a,
        count-remove_at a account i s.agent_pending_queue,
        count-pos_position account s.agent_active_queue,
      )
      | inl f ↦ λ a. ground (
        arith,
        h a,
        h account,
        eq_iff account a,
        E.may_load-remove s.agents account a,
        count-pos_position account s.agent_active_queue,
        count-pos_position account s.agent_pending_queue,
      )
    ]
  ]

  pub unregister_agent-IsConsistent :
      (info : MessageInfo) → Keeps IsConsistent (unregister_agent E info)
  unfolding unregister_agent
  unregister_agent-IsConsistent info =
      Keeps-bind _ _ (withdraw_balances-IsConsistent info) λ messages.
        Keeps-modify_twice _ _ _ (λ s. dequeue-IsConsistent info.sender s) (Keeps-pure _)
