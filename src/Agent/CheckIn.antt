-- ===== src/Agent/CheckIn.antt =====
-- `accept_nomination_agent` (agent.rs): exactly when it succeeds, and what it changes.
use cw_croncat.Base.{
  ℕ, suc, ◌-◌, ◌/◌, ◌≤◌, ◌≡◌, ◌≢◌, ◌∙◌, ◌↔◌, none, some, [], ◌∷◌, ◌++◌, arith, position, drop, inl,
  inr, Option-cases,
}
use cw_croncat.Base.Outcome.{ok, ◌>>=◌}
use cw_croncat.External.{External}
use cw_croncat.State.{State, Env, MessageInfo}
use cw_croncat.Response.{Response, response, text}
use cw_croncat.Agent.{accept_nomination_agent}
use cw_croncat.Agent.Queue.{remove_through-eq-drop}

module _ (E : External) where
  -- The sender's place in the pending queue, in a nomination that has lasted a round for each place.
  abbrev pub HasTurn : MessageInfo → Env → State E → ℕ → Type 0
  HasTurn info env s i =
      (begin : ℕ) × (s.agent_nomination_begin_time ≡ some begin)
      × (E.seconds begin ≤ E.seconds env.block_time)
      × (position s.agent_pending_queue info.sender ≡ some i)
      × (s.config.agent_nomination_duration ≢ 0)
      × (i ≤ (E.seconds env.block_time - E.seconds begin) / s.config.agent_nomination_duration)

  abbrev pub checked_in : MessageInfo → ℕ → State E → State E
  checked_in info i s = record s {
    agent_active_queue = s.agent_active_queue ++ info.sender ∷ [];
    agent_pending_queue = drop (suc i) s.agent_pending_queue;
    agent_nomination_begin_time = none;
  }

  abbrev pub check_in_response : Response
  check_in_response = response (("method", text "accept_nomination_agent") ∷ []) []

  turn :
      (info : MessageInfo) (env : Env) (s t : State E) (r : Response)
      → accept_nomination_agent E info env s ≡ (ok r, t)
      → (i : ℕ) × HasTurn info env s i
  unfolding accept_nomination_agent ◌>>=◌
  turn info env s t r h = elim (Option-cases s.agent_nomination_begin_time) [
    | inl e ↦ absurd (ground arith)
    | inr (begin, e) ↦ elim (Option-cases (position s.agent_pending_queue info.sender)) [
      | inl f ↦ absurd (ground arith)
      | inr (i, f) ↦ (i, (begin, e, ground arith, f, λ g. ground (arith, g), ground arith))
    ]
  ]

  granted :
      (info : MessageInfo) (env : Env) (s : State E) (i : ℕ)
      → HasTurn info env s i
      → accept_nomination_agent E info env s ≡ (ok check_in_response, checked_in info i s)
  unfolding accept_nomination_agent ◌>>=◌
  granted info env s i (begin, nomination, past, place, lasting, early) =
      ground (arith, remove_through-eq-drop i s.agent_pending_queue)

  -- A check-in succeeds exactly for a pending agent during a nomination that began no later than now,
  -- with rounds of some length, after a round for each agent ahead of it. It is then the last active
  -- agent, all up to its place have left the pending queue, the nomination is over, and nothing else
  -- changes.
  pub accept_nomination_agent_iff :
      (info : MessageInfo) (env : Env) (s t : State E) (r : Response)
      → (accept_nomination_agent E info env s ≡ (ok r, t))
        ↔ ((i : ℕ) × HasTurn info env s i × (t ≡ checked_in info i s) × (r ≡ check_in_response))
  accept_nomination_agent_iff info env s t r = (
    λ h.
        let (i, a) = turn info env s t r h in
        let e = granted info env s i a in (i, a, ground (arith, h, e), ground (arith, h, e)),
    λ (i, a, e, f). granted info env s i a ∙ ground (arith, e, f),
  )
