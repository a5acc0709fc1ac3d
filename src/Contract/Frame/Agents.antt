-- ===== src/Contract/Frame/Agents.antt =====
-- The handlers of agent.rs that write agents and queues.
use cw_croncat.Base.{
  ℕ, Option, Option-cases, inl, inr, Bool, true, false, if◌then◌else◌, Bool-cases, is_empty,
  position,
}
use cw_croncat.Base.Outcome.{Outcome}
use cw_croncat.Base.Keeps.{Keeps, keeps_rules}
use cw_croncat.Types.{Addr, Agent, Timestamp}
use cw_croncat.External.{External}
use cw_croncat.State.{State, Env, MessageInfo}
use cw_croncat.Response.{Response}
use cw_croncat.Agent.{
  Querier, new_agent, enqueue_agent, insert_agent, register_agent, update_agent, let_in,
  accept_nomination_agent, dequeue_agent, unregister_agent,
}
use cw_croncat.Contract.Frame.{BalanceFrame, AgentFrame, withdraw_balances-keep}

module _ (E : External) {P : State E → Type 0} (A : AgentFrame E P) where
  enqueue_agent-keep : (a : Addr) → Keeps P (enqueue_agent E a)
  unfolding enqueue_agent
  enqueue_agent-keep a = record {
    at = λ s p. elim (Bool-cases (is_empty s.agent_active_queue)) [
      | inl e ↦ rw e (A.save_active _ s p)
      | inr e ↦ rw e (A.save_pending _ s p)
    ];
  }

  insert_agent-keep : (a : Addr) (v : Agent) → A.Fit v → Keeps P (insert_agent E a v)
  unfolding insert_agent
  insert_agent-keep a v fit = record {
    at = λ s p. elim (Option-cases (E.may_load s.agents a)) [
      | inl e ↦ rw (e, insert_agent) (A.save_agent a v s fit p)
      | inr (_, e) ↦ rw (e, insert_agent) p
    ];
  }

  fresh : (payable : Addr) (now : Timestamp) → A.Fit (new_agent E payable now)
  fresh = A.fresh

  pub register_agent-keep :
      (q : Querier) (info : MessageInfo) (env : Env) (o : Option Addr)
      → Keeps P (register_agent E q info env o)
  unfolding register_agent
  register_agent-keep q info env o =
      search (keeps_rules, enqueue_agent-keep, insert_agent-keep, fresh) depth 14

  either_way :
      {X : Type 0} (Q : X → Type 0) (b : Bool) {x y : X} → Q x → Q y → Q (if b then x else y)
  either_way Q true qx qy = qx
  either_way Q false qx qy = qy

  pub update_agent-keep : (info : MessageInfo) (o : Addr) → Keeps P (update_agent E info o)
  unfolding update_agent
  update_agent-keep info o = record {
    at = λ s p.
        either_way (λ (x : Outcome Response × State E). P x.1) s.config.paused p
          (elim (Option-cases (E.may_load s.agents info.sender)) [
            | inl e ↦ rw e p
            | inr (v, e) ↦ rw e (A.save_agent _ _ s (A.readdressed _ o v s p e) p)
          ]);
  }

  let_in-keep : (a : Addr) (i : ℕ) (s : State E) → P s → P (let_in E a i s)
  let_in-keep a i s p = A.save_active _ _ (A.save_pending _ _ (A.end_nomination s p))

  pub accept_nomination_agent-keep :
      (info : MessageInfo) (env : Env) → Keeps P (accept_nomination_agent E info env)
  unfolding accept_nomination_agent
  accept_nomination_agent-keep info env = search (keeps_rules, let_in-keep) depth 16

  dequeue_agent-keep : (a : Addr) (s : State E) → P s → P (dequeue_agent E a s)
  unfolding dequeue_agent
  dequeue_agent-keep a s p = elim (Option-cases (position s.agent_active_queue a)) [
    | inr (i, e) ↦ rw (e, dequeue_agent) (A.save_active _ s p)
    | inl e ↦ elim (Option-cases (position s.agent_pending_queue a)) [
      | inr (i, f) ↦ rw (e, f, dequeue_agent) (A.save_pending _ s p)
      | inl f ↦ rw (e, f, dequeue_agent) p
    ]
  ]

  remove_agent : (a : Addr) (s : State E) → P s → P (record s { agents = E.remove s.agents a })
  remove_agent = A.remove_agent

  module _ (F : BalanceFrame E P) where
    pub unregister_agent-keep : (info : MessageInfo) → Keeps P (unregister_agent E info)
    unfolding unregister_agent
    unregister_agent-keep info =
        search (keeps_rules, withdraw_balances-keep E F, remove_agent, dequeue_agent-keep) depth 14
