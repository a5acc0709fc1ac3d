-- ===== src/Agent/Lifecycle.antt =====
-- The life of an address as an agent (agent.rs): what it is to the contract, and the moves between
-- these phases.
pub mod Joining
pub mod Leaving
use cw_croncat.Base.{
  ℕ, ◌≡◌, ◌≢◌, refl, Bool, true, false, Option, none, some, arith, ltb, if◌then◌else◌, contains,
}
use cw_croncat.Types.{Addr, Agent}
use cw_croncat.External.{External}
use cw_croncat.State.{State}
use cw_croncat.Agent.Consistency.{IsConsistent}
use cw_croncat.Base.Count.{contains-count, count}

-- Not registered; in the pending queue; in the active queue; registered, but in neither queue.
pub data Phase : Type 0 where
  stranger : Phase
  waiting : Phase
  serving : Phase
  passed_over : Phase

-- The moves of an address at a message that is its own, or another's.
pub data Moves : Bool → Phase → Phase → Type 0 where
  stay : {own : Bool} {p : Phase} → Moves own p p
  hired : Moves true stranger serving
  queued : Moves true stranger waiting
  accepted : Moves true waiting serving
  overtaken : Moves false waiting passed_over
  left : {p : Phase} → p ≢ stranger → Moves true p stranger

pub Moves-same : {own : Bool} {p q : Phase} → q ≡ p → Moves own p q
Moves-same e = rw e Moves.stay

pub Moves-as :
    {own o : Bool} {p p' q q' : Phase} → own ≡ o → p ≡ p' → q ≡ q' → Moves o p' q' → Moves own p q
Moves-as e f g m = rw (e, f, g) m

module _ (E : External) where
  abbrev pub phase : State E → Addr → Phase
  phase s a =
      if contains s.agent_active_queue a
      then Phase.serving
      else if contains s.agent_pending_queue a
      then Phase.waiting
      else elim (E.may_load s.agents a) [ none ↦ Phase.stranger | some _ ↦ Phase.passed_over ]

  -- The phase, by how often an address is queued.
  abbrev pub phase_of : ℕ → ℕ → Option Agent → Phase
  phase_of m n o =
      if ltb 0 m
      then Phase.serving
      else if ltb 0 n
      then Phase.waiting
      else elim o [ none ↦ Phase.stranger | some _ ↦ Phase.passed_over ]

  pub phase-count :
      (s : State E) (a : Addr)
      → phase s a
        ≡ phase_of
            (count a s.agent_active_queue)
            (count a s.agent_pending_queue)
            (E.may_load s.agents a)
  phase-count s a = rw (contains-count, contains-count) refl

  -- An address that is not registered is a stranger.
  pub stranger_phase :
      (s : State E) (a : Addr)
      → IsConsistent E s
      → E.may_load s.agents a ≡ none
      → phase s a ≡ Phase.stranger
  stranger_phase s a c e = ground (arith, phase-count s a, c a)

  pub registered_phase :
      (s : State E) (a : Addr) (v : Agent)
      → E.may_load s.agents a ≡ some v
      → phase s a ≢ Phase.stranger
  registered_phase s a v e p = ground arith
