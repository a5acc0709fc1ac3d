-- ===== src/Agent/Lifecycle/Joining.antt =====
-- How registrations and check-ins (agent.rs) move an address.
use cw_croncat.Base.{
  ap, ℕ, suc, ◌≡◌, ◌≢◌, refl, false, ◌⊎◌, ◌++◌, Option, [], ◌∷◌, arith, ◌==◌, eq_iff, contains,
  drop, inl, inr, Bool-cases,
}
use cw_croncat.Base.Outcome.{ok, ◌>>=◌}
use cw_croncat.Types.{Addr, Agent}
use cw_croncat.External.{External}
use cw_croncat.State.{State, Env, MessageInfo}
use cw_croncat.Response.{Response}
use cw_croncat.Agent.{Querier, register_agent, accept_nomination_agent, new_agent, or_sender}
use cw_croncat.Agent.Consistency.{IsConsistent}
use cw_croncat.Agent.Nomination.{register_agent-success, accept_nomination_agent-success}
use cw_croncat.Base.Count.{
  contains-count, count-append, count-one, count-drop-le, count-drop-position, count-nil,
}
use cw_croncat.Agent.Lifecycle.{Moves, Moves-same, Moves-as, phase, phase-count, stranger_phase}

module _ (E : External) where
  register_agent-agents :
      (q : Querier) (info : MessageInfo) (env : Env) (p : Option Addr) (s t : State E)
      (r : Response)
      → register_agent E q info env p s ≡ (ok r, t)
      → t.agents
        ≡ E.save s.agents info.sender (new_agent E (or_sender E p info.sender) env.block_time)
  unfolding register_agent ◌>>=◌
  register_agent-agents q info env p s t r h = ground arith

  -- Another address stays where it was.
  joined_other :
      (account a : Addr) (v : Agent) (s t : State E)
      → (account == a) ≡ false
      → t.agents ≡ E.save s.agents account v
      → ((s.agent_active_queue ≡ [])
          × (t.agent_active_queue ≡ account ∷ [])
          × (t.agent_pending_queue ≡ s.agent_pending_queue))
        ⊎ ((s.agent_active_queue ≢ [])
            × (t.agent_active_queue ≡ s.agent_active_queue)
            × (t.agent_pending_queue ≡ s.agent_pending_queue ++ account ∷ []))
      → phase E t a ≡ phase E s a
  joined_other account a v s t other agents (inl (none_active, active, pending)) = ground (
    arith,
    phase-count E s a,
    phase-count E t a,
    E.may_load-save s.agents account a v,
    count-one a account,
    count-nil a,
  )
  joined_other account a v s t other agents (inr (_, active, pending)) = ground (
    arith,
    phase-count E s a,
    phase-count E t a,
    E.may_load-save s.agents account a v,
    count-append a s.agent_pending_queue (account ∷ []),
    count-one a account,
  )

  -- A new agent is at work at once, or waits at the end of the pending queue.
  pub register_agent-Moves :
      (q : Querier) (info : MessageInfo) (env : Env) (o : Option Addr) (s t : State E)
      (r : Response) (a : Addr)
      → IsConsistent E s
      → register_agent E q info env o s ≡ (ok r, t)
      → Moves (info.sender == a) (phase E s a) (phase E t a)
  register_agent-Moves q info env o s t r a c h =
      let v = new_agent E (or_sender E o info.sender) env.block_time in
      let (_, _, new, _, queues) = register_agent-success E q info env o s t r h in
      let agents = register_agent-agents q info env o s t r h in
      elim (Bool-cases (info.sender == a)) [
        | inl e ↦
            let before = stranger_phase E s a c (ground (arith, eq_iff info.sender a, new)) in
            elim queues [
              | inl (_, active, pending) ↦
                  Moves-as e before (ground (arith, phase-count E t a, count-one a info.sender))
                    Moves.hired
              | inr (_, active, pending) ↦
                  Moves-as e before
                    (ground (
                      arith,
                      phase-count E t a,
                      c a,
                      new,
                      eq_iff info.sender a,
                      count-append a s.agent_pending_queue (info.sender ∷ []),
                      count-one a info.sender,
                    ))
                    Moves.queued
            ]
        | inr e ↦ Moves-same (joined_other info.sender a v s t e agents queues)
      ]

  -- Another address waits on, or was ahead of the agent that is let in and is passed over.
  let_in-Moves :
      (account a : Addr) (i : ℕ) (s t : State E)
      → IsConsistent E s
      → (account == a) ≡ false
      → t.agents ≡ s.agents
      → t.agent_active_queue ≡ s.agent_active_queue ++ account ∷ []
      → t.agent_pending_queue ≡ drop (suc i) s.agent_pending_queue
      → Moves false (phase E s a) (phase E t a)
  let_in-Moves account a i s t c other agents active pending =
      let joined = count-append a s.agent_active_queue (account ∷ []) in
      let alone = count-one a account in
      let behind = contains-count (drop (suc i) s.agent_pending_queue) a in
      let queued = contains-count s.agent_pending_queue a in
      let rest = count-drop-le a (suc i) s.agent_pending_queue in
      elim (Bool-cases (contains (drop (suc i) s.agent_pending_queue) a)) [
        | inl kept ↦
            Moves-same
              (ground (arith, phase-count E s a, phase-count E t a, joined, alone, rest, behind))
        | inr gone ↦ elim (Bool-cases (contains s.agent_pending_queue a)) [
          | inr never ↦
              Moves-same (
                ground (arith, phase-count E s a, phase-count E t a, joined, alone, behind, queued))
          | inl pended ↦
              Moves-as refl (ground (arith, phase-count E s a, c a, queued))
                (ground (arith, phase-count E t a, c a, joined, alone, behind, queued))
                Moves.overtaken
        ]
      ]

  -- The agent that checks in is at work; those up to its place in the queue are passed over.
  pub accept_nomination_agent-Moves :
      (info : MessageInfo) (env : Env) (s t : State E) (r : Response) (a : Addr)
      → IsConsistent E s
      → accept_nomination_agent E info env s ≡ (ok r, t)
      → Moves (info.sender == a) (phase E s a) (phase E t a)
  accept_nomination_agent-Moves info env s t r a c h =
      let (begin, i, _, found, _, e) = accept_nomination_agent-success E info env s t r h in
      let active = ap (λ (u : State E). u.agent_active_queue) e in
      elim (Bool-cases (info.sender == a)) [
        | inl own ↦
            Moves-as own
              (ground (
                arith,
                phase-count E s a,
                c a,
                eq_iff info.sender a,
                count-drop-position info.sender i s.agent_pending_queue found,
              ))
              (ground (
                arith,
                phase-count E t a,
                count-append a s.agent_active_queue (info.sender ∷ []),
                count-one a info.sender,
              ))
              Moves.accepted
        | inr other ↦ Moves-as other refl refl (
            let_in-Moves info.sender a i s t c other (ap (λ (u : State E). u.agents) e) active
              (ap (λ (u : State E). u.agent_pending_queue) e))
      ]
