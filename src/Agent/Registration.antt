-- ===== src/Agent/Registration.antt =====
-- `register_agent` (agent.rs): exactly when it succeeds, and what it changes.
use cw_croncat.Base.{
  some, ◌<◌, ◌*◌, ◌≡◌, ◌∙◌, ◌≢◌, ◌↔◌, true, false, Option, none, List, [], ◌∷◌, ◌++◌, arith,
  is_empty, if◌then◌else◌, inl, inr,
}
use cw_croncat.Base.Outcome.{◌>>=◌, ok, u32_mod, StdResult-cases}
use cw_croncat.Types.{Addr, Coin, active, pending}
use cw_croncat.External.{External}
use cw_croncat.State.{State, Env, MessageInfo}
use cw_croncat.Response.{Response, response, text, number, status}
use cw_croncat.Agent.{Querier, register_agent}

-- The address asked for, or else the sender's own.
abbrev pub paid_at : Option Addr → Addr → Addr
paid_at none sender = sender
paid_at (some payable) sender = payable

module _ (E : External) where
  -- The state with a new agent, which joins the active queue if it is the first one.
  abbrev pub registered : Addr → Addr → Env → State E → State E
  registered sender payable env s = record s {
    agents = E.save s.agents sender (record {
      payable_account_id = payable;
      balance = record { native_coins = []; cw20_coins = [] };
      total_tasks_executed = 0;
      last_missed_slot = 0;
      register_start = env.block_time;
    });
    agent_active_queue =
        if is_empty s.agent_active_queue then sender ∷ [] else s.agent_active_queue;
    agent_pending_queue =
        if is_empty s.agent_active_queue
        then s.agent_pending_queue
        else s.agent_pending_queue ++ sender ∷ [];
  }

  abbrev pub registered_response : Env → State E → Response
  registered_response env s =
      response
        (("method", text "register_agent")
          ∷ ("agent_status", status (if is_empty s.agent_active_queue then active else pending))
          ∷ ("register_start", number env.block_time)
          ∷ [])
        []

  -- All that a registration asks for.
  abbrev pub IsWelcome : Querier → MessageInfo → State E → Type 0
  IsWelcome q info s =
      (balances : List Coin) × (info.funds ≡ [])
      × (s.config.paused ≡ false)
      × (q info.sender ≡ inr balances)
      × (balances ≢ [])
      × (s.config.gas_price * 4 < u32_mod)
      × (E.has_coins balances
            (record { denom = s.config.native_denom; amount = s.config.gas_price * 4 })
          ≡ true)
      × (E.may_load s.agents info.sender ≡ none)

  welcomed :
      (q : Querier) (info : MessageInfo) (env : Env) (p : Option Addr) (s t : State E)
      (r : Response)
      → register_agent E q info env p s ≡ (ok r, t)
      → IsWelcome q info s
  unfolding register_agent ◌>>=◌
  welcomed q info env p s t r h = elim (StdResult-cases (q info.sender)) [
    | inl (_, e) ↦ absurd (ground arith)
    | inr (balances, e) ↦ (
      balances,
      ground arith,
      ground arith,
      e,
      λ f. ground (arith, f),
      ground arith,
      ground arith,
      ground arith,
    )
  ]

  welcome :
      (q : Querier) (info : MessageInfo) (env : Env) (p : Option Addr) (s : State E)
      → IsWelcome q info s
      → register_agent E q info env p s
        ≡ (ok (registered_response env s), registered info.sender (paid_at p info.sender) env s)
  unfolding register_agent ◌>>=◌
  welcome q info env none s (balances, funds, running, held, some_coins, fits, enough, new) =
      ground arith
  welcome q info env (some payable) s
        (balances, funds, running, held, some_coins, fits, enough, new) =
      ground arith

  -- A registration succeeds exactly when it is without funds, the contract is not paused, the balances
  -- of the sender can be read, are some, and hold four times the gas price, which fits 32 bits, in the
  -- native denomination, and the sender is not yet registered. It then answers with the agent's status
  -- and start, and changes by the agent alone: it is new, paid at the address asked for or its own,
  -- and the one active agent where there was none, else the last pending one.
  pub register_agent_iff :
      (q : Querier) (info : MessageInfo) (env : Env) (p : Option Addr) (s t : State E)
      (r : Response)
      → (register_agent E q info env p s ≡ (ok r, t)) ↔ (
          IsWelcome q info s
          × (t ≡ registered info.sender (paid_at p info.sender) env s)
          × (r ≡ registered_response env s))
  register_agent_iff q info env p s t r = (
    λ h.
        let a = welcomed q info env p s t r h in
        let e = welcome q info env p s a in (a, ground (arith, h, e), ground (arith, h, e)),
    λ (a, e, f). welcome q info env p s a ∙ ground (arith, e, f),
  )
