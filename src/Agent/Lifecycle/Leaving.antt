-- ===== src/Agent/Lifecycle/Leaving.antt =====
-- How an agent that unregisters (agent.rs) moves, and that others do not.
use cw_croncat.Base.{
  subst, ◌≡◌, refl, false, some, arith, ◌==◌, eq_iff, position, inl, inr, Option-cases, Bool-cases,
}
use cw_croncat.Base.Outcome.{ok, ◌>>=◌}
use cw_croncat.Types.{Addr, Agent}
use cw_croncat.External.{External}
use cw_croncat.State.{State, MessageInfo}
use cw_croncat.Response.{Response}
use cw_croncat.Agent.{unregister_agent, withdraw_balances, dequeue_agent}
use cw_croncat.Agent.Consistency.{IsConsistent, unregister_agent-IsConsistent}
use cw_croncat.Base.Count.{count, count-remove_at}
use cw_croncat.Agent.Lifecycle.{
  Moves, Moves-same, Moves-as, phase, phase-count, stranger_phase, registered_phase,
}

module _ (E : External) where
  unregister_agent-state :
      (info : MessageInfo) (s t : State E) (r : Response)
      → unregister_agent E info s ≡ (ok r, t)
      → (v : Agent) × (E.may_load s.agents info.sender ≡ some v)
        × (t.agents ≡ E.remove s.agents info.sender)
        × (t.agent_active_queue ≡ (dequeue_agent E info.sender s).agent_active_queue)
        × (t.agent_pending_queue ≡ (dequeue_agent E info.sender s).agent_pending_queue)
  unfolding unregister_agent withdraw_balances dequeue_agent ◌>>=◌
  unregister_agent-state info s t r h = elim (Option-cases (E.may_load s.agents info.sender)) [
    | inl e ↦ absurd (ground arith)
    | inr (v, e) ↦ (v, e, ground arith, ground arith, ground arith)
  ]

  -- Another address stays in its queue.
  dequeued :
      (account a : Addr) (s : State E)
      → (account == a) ≡ false
      → (count a (dequeue_agent E account s).agent_active_queue ≡ count a s.agent_active_queue)
        × (count a (dequeue_agent E account s).agent_pending_queue ≡ count a s.agent_pending_queue)
  unfolding dequeue_agent
  dequeued account a s other = elim (Option-cases (position s.agent_active_queue account)) [
    | inr (i, e) ↦ (ground (arith, count-remove_at a account i s.agent_active_queue), ground arith)
    | inl e ↦ elim (Option-cases (position s.agent_pending_queue account)) [
      | inr (i, f) ↦
          (ground arith, ground (arith, count-remove_at a account i s.agent_pending_queue))
      | inl f ↦ (ground arith, ground arith)
    ]
  ]

  -- An agent that unregisters is a stranger again.
  pub unregister_agent-Moves :
      (info : MessageInfo) (s t : State E) (r : Response) (a : Addr)
      → IsConsistent E s
      → unregister_agent E info s ≡ (ok r, t)
      → Moves (info.sender == a) (phase E s a) (phase E t a)
  unregister_agent-Moves info s t r a c h =
      let (v, known, agents, active, pending) = unregister_agent-state info s t r h in
      let loaded = E.may_load-remove s.agents info.sender a in
      let after : IsConsistent E t =
        subst (λ x. IsConsistent E x.1) h ((unregister_agent-IsConsistent E info).at s c) in
      elim (Bool-cases (info.sender == a)) [
        | inl own ↦
            Moves-as own refl (stranger_phase E t a after (ground (arith, loaded)))
              (Moves.left (registered_phase E s a v (ground (arith, eq_iff info.sender a))))
        | inr other ↦
            let (same_active, same_pending) = dequeued info.sender a s other in
            Moves-same (
              ground (
                arith,
                phase-count E s a,
                phase-count E t a,
                loaded,
                same_active,
                same_pending,
                other,
              ))
      ]
