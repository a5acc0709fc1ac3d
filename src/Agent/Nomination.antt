-- ===== src/Agent/Nomination.antt =====
-- Registration and nomination: who joins which queue, and when.
use cw_croncat.Base.{
  ℕ, suc, ◌-◌, ◌/◌, ◌≤◌, ◌<◌, ◌≡◌, ◌≢◌, false, Option, none, some, [], ◌∷◌, ◌++◌, arith, eq_iff,
  contains, position, drop, length, inl, inr, ◌⊎◌, Option-cases,
}
use cw_croncat.Base.Outcome.{ok, err, ◌>>=◌, custom_error}
use cw_croncat.Types.{Addr, nominated}
use cw_croncat.External.{External}
use cw_croncat.State.{State, Env, MessageInfo}
use cw_croncat.Response.{Response}
use cw_croncat.Agent.{
  Querier, agents_to_let_in, get_agent_status, register_agent, accept_nomination_agent, new_agent,
  or_sender,
}
use cw_croncat.Agent.Queue.{remove_through-eq-drop}

module _ (E : External) where
  -- A registration that succeeds was made without funds, while the contract ran, by an address that
  -- was not registered; its agent is new, with the payable account asked for, and stands at the end
  -- of the pending queue, or is the one active agent where there was none.
  pub register_agent-success :
      (q : Querier) (info : MessageInfo) (env : Env) (p : Option Addr) (s t : State E)
      (r : Response)
      → register_agent E q info env p s ≡ (ok r, t)
      → (info.funds ≡ [])
        × (s.config.paused ≡ false)
        × (E.may_load s.agents info.sender ≡ none)
        × (E.may_load t.agents info.sender
            ≡ some (new_agent E (or_sender E p info.sender) env.block_time))
        × (((s.agent_active_queue ≡ [])
              × (t.agent_active_queue ≡ info.sender ∷ [])
              × (t.agent_pending_queue ≡ s.agent_pending_queue))
            ⊎ ((s.agent_active_queue ≢ [])
                × (t.agent_active_queue ≡ s.agent_active_queue)
                × (t.agent_pending_queue ≡ s.agent_pending_queue ++ info.sender ∷ [])))
  unfolding register_agent ◌>>=◌
  register_agent-success q info env p s t r h = ground (
    arith,
    eq_iff info.sender info.sender,
    E.may_load-save s.agents info.sender info.sender
        (new_agent E (or_sender E p info.sender) env.block_time),
  )

  -- While a nomination runs that began no later than now, with rounds of some length, an agent that is
  -- not active and stands further back in the pending queue than the rounds that have passed, but
  -- within the number of agents asked for, is told that it is nominated, and its acceptance is refused all the same.
  pub nominated_must_wait :
      (info : MessageInfo) (env : Env) (s : State E) (begin i n : ℕ)
      → contains s.agent_active_queue info.sender ≡ false
      → position s.agent_pending_queue info.sender ≡ some i
      → s.agent_nomination_begin_time ≡ some begin
      → agents_to_let_in s.config.min_tasks_per_agent (length s.agent_active_queue) s.task_total
        ≡ ok n
      → E.seconds begin ≤ E.seconds env.block_time
      → 0 < s.config.agent_nomination_duration
      → (E.seconds env.block_time - E.seconds begin) / s.config.agent_nomination_duration < i
      → i < n
      → (get_agent_status E env info.sender s ≡ ok nominated)
        × (accept_nomination_agent E info env s
            ≡ (err (custom_error "Must wait longer before accepting nomination"), s))
  unfolding get_agent_status accept_nomination_agent ◌>>=◌
  nominated_must_wait info env s begin i n a p b l later duration early few =
      (ground arith, ground arith)

  -- An acceptance that succeeds comes from a pending agent while a nomination runs, after at least
  -- one round for each agent ahead of it; it is then active, all agents up to its place have left
  -- the pending queue, and the nomination is over. Nothing else changes.
  pub accept_nomination_agent-success :
      (info : MessageInfo) (env : Env) (s t : State E) (r : Response)
      → accept_nomination_agent E info env s ≡ (ok r, t)
      → (begin i : ℕ) × (s.agent_nomination_begin_time ≡ some begin)
        × (position s.agent_pending_queue info.sender ≡ some i)
        × (i ≤ (E.seconds env.block_time - E.seconds begin) / s.config.agent_nomination_duration)
        × (t ≡ record s {
          agent_active_queue = s.agent_active_queue ++ info.sender ∷ [];
          agent_pending_queue = drop (suc i) s.agent_pending_queue;
          agent_nomination_begin_time = none;
        })
  unfolding accept_nomination_agent ◌>>=◌
  accept_nomination_agent-success info env s t r h =
      elim (Option-cases s.agent_nomination_begin_time) [
        | inl e ↦ absurd (ground arith)
        | inr (begin, e) ↦ elim (Option-cases (position s.agent_pending_queue info.sender)) [
          | inl f ↦ absurd (ground arith)
          | inr (i, f) ↦ (
            begin,
            i,
            e,
            f,
            ground arith,
            ground (arith, remove_through-eq-drop i s.agent_pending_queue),
          )
        ]
      ]
