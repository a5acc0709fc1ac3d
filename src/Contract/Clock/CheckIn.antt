-- ===== src/Contract/Clock/CheckIn.antt =====
-- Check-ins (agent.rs) in the states that deliveries in the order of time lead to.
use native.Mathlib.Nat.{le-div_iff_mul-le}
use cw_croncat.Base.{
  ℕ, ◌+◌, ◌*◌, ◌-◌, ◌/◌, ◌≤◌, ◌<◌, ◌≡◌, ◌≢◌, ◌↔◌, refl, none, some, arith, Option-cases, [], ◌∷◌,
  inl, inr, position,
}
use cw_croncat.Base.Outcome.{ok, panic, ◌>>=◌}
use cw_croncat.Types.{Timestamp}
use cw_croncat.External.{External}
use cw_croncat.State.{State, Env, MessageInfo}
use cw_croncat.Messages.{InstantiateMsg}
use cw_croncat.Response.{Response, response, text}
use cw_croncat.Agent.{Querier, accept_nomination_agent, let_in}
use cw_croncat.Agent.Nomination.{accept_nomination_agent-success}
use cw_croncat.Contract.{instantiate}
use cw_croncat.Contract.Clock.{History, IsTimed, later, History-IsTimed}

module _ (E : External) where
  -- The sender is pending, a nomination runs, and one round of the nomination for each agent ahead of
  -- it is over.
  abbrev pub IsLetIn : MessageInfo → Env → State E → Type 0
  IsLetIn info env s =
      (begin : Timestamp) × (i : ℕ) × (s.agent_nomination_begin_time ≡ some begin)
      × (position s.agent_pending_queue info.sender ≡ some i)
      × (E.seconds begin + i * s.config.agent_nomination_duration ≤ E.seconds env.block_time)

  abbrev pub Succeeds : MessageInfo → Env → State E → Type 0
  Succeeds info env s =
      (r : Response) × (u : State E) × (accept_nomination_agent E info env s ≡ (ok r, u))

  rounds : (i d b n : ℕ) → 0 < d → b ≤ n → (i ≤ (n - b) / d) ↔ (b + i * d ≤ n)
  rounds i d b n pos early =
      let exact = le-div_iff_mul-le {k = d} {x = i} {y = n - b} pos in
      (λ h. omega (arith, exact.0 h), λ h. exact.1 (omega arith))

  check_in_granted :
      (d : ℕ) (info : MessageInfo) (env : Env) (s : State E)
      → 0 < d
      → IsTimed E d env.block_time s
      → Succeeds info env s ↔ IsLetIn info env s
  unfolding accept_nomination_agent ◌>>=◌
  check_in_granted d info env s pos timed = (
    λ (r, u, h).
        let (begin, i, e, f, over, _) = accept_nomination_agent-success E info env s u r h in
        let early = timed.1 begin e in
        (
          begin,
          i,
          e,
          f,
          (rounds i s.config.agent_nomination_duration (E.seconds begin) (E.seconds env.block_time)
                (omega (arith, timed.0)) early).0
              over,
        ),
    λ (begin, i, e, f, over).
        let allowed =
          (rounds i s.config.agent_nomination_duration (E.seconds begin) (E.seconds env.block_time)
              (omega (arith, timed.0)) (timed.1 begin e)).1
            over in
        (
          response (("method", text "accept_nomination_agent") ∷ []) [],
          let_in E info.sender i s,
          ground (arith, timed.1 begin e),
        ),
  )

  check_in_calm :
      (d : ℕ) (info : MessageInfo) (env : Env) (s : State E)
      → 0 < d
      → IsTimed E d env.block_time s
      → (accept_nomination_agent E info env s).0 ≢ panic
  unfolding accept_nomination_agent ◌>>=◌
  check_in_calm d info env s pos timed h = elim (Option-cases s.agent_nomination_begin_time) [
    | inl e ↦ absurd (ground arith)
    | inr (begin, e) ↦ elim (Option-cases (position s.agent_pending_queue info.sender)) [
      | inl f ↦ absurd (ground (arith, timed.1 begin e))
      | inr (i, f) ↦ absurd (ground (arith, timed.1 begin e))
    ]
  ]

  instantiate-duration :
      (q : Querier) (env : Env) (info : MessageInfo) (msg : InstantiateMsg) (s : State E)
      (r : Response)
      → instantiate E q env info msg ≡ ok (s, r)
      → msg.agent_nomination_duration ≢ some 0
      → (0 < s.config.agent_nomination_duration) × (s.agent_nomination_begin_time ≡ none)
  unfolding instantiate
  instantiate-duration q env info msg s r e lasting = ground arith

  -- From an instantiation whose nomination rounds do not last 0 seconds on, whatever messages and
  -- replies follow in blocks whose times do not go back, a check-in does not panic, and it succeeds
  -- exactly for a pending agent in a nomination that has begun at least one round per agent
  -- ahead of it ago.
  pub reachable-check_in :
      (q : Querier) (env env' : Env) (info info' : MessageInfo) (msg : InstantiateMsg)
      (s t : State E) (now : Timestamp) (r : Response)
      → instantiate E q env info msg ≡ ok (s, r)
      → msg.agent_nomination_duration ≢ some 0
      → History E s env.block_time t now
      → E.seconds now ≤ E.seconds env'.block_time
      → ((accept_nomination_agent E info' env' t).0 ≢ panic)
        × (Succeeds info' env' t ↔ IsLetIn info' env' t)
  reachable-check_in q env env' info info' msg s t now r e lasting path h =
      let (pos, none_yet) = instantiate-duration q env info msg s r e lasting in
      let d = s.config.agent_nomination_duration in
      let timed = later E d now env'.block_time t h (
        History-IsTimed E d s env.block_time t now path (refl, λ begin f. absurd (ground arith))) in
      (check_in_calm d info' env' t pos timed, check_in_granted d info' env' t pos timed)
