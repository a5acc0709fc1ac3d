-- ===== src/Manager/Call.antt =====
-- A call of an agent that runs a task.
use cw_croncat.Base.{
  String, not-false, ap, sym, ℕ, ◌+◌, ◌≡◌, refl, ◌∙◌, true, false, not, Option, none, some, List,
  [], ◌∷◌, map, arith, is_empty, contains, Option-cases, inl, inr,
}
use cw_croncat.Base.Outcome.{
  ok, ContractError, ◌>>=◌, bind_ok, gets, choose, fail, pure, lift, modify,
}
use cw_croncat.Base.Success.{fail_if-ok, gets-ok, or_fail-ok}
use cw_croncat.Types.{
  Coin, Agent, Task, TaskHash, Action, CosmosMsg, SubMsg, reply_always, with_gas_limit,
}
use cw_croncat.External.{External}
use cw_croncat.State.{State, Config, Env, MessageInfo, rq_push, rq_next_id}
use cw_croncat.Response.{Response}
use cw_croncat.Manager.{
  sub_msg, sub_msgs, next_hash, run_task, reward_and_fail, run_hash, run_found, serve_slot,
  proxy_call,
}

no_funds : (cs : List Coin) → not (is_empty cs) ≡ false → cs ≡ []
no_funds [] h = refl
no_funds (c ∷ cs) h = absurd (ground arith)

-- What an action asks for: its message, with a reply in every case under the id given, and no more gas
-- than its limit, where it has one.
abbrev pub asked_for : ℕ → CosmosMsg → Option ℕ → SubMsg
asked_for id msg none = reply_always msg id
asked_for id msg (some limit) = with_gas_limit (reply_always msg id) limit

sub_msgs-map :
    (id : ℕ) (actions : List Action)
    → sub_msgs id actions ≡ map (λ (a : Action). asked_for id a.msg a.gas_limit) actions
unfolding sub_msgs sub_msg
sub_msgs-map id [] = refl
sub_msgs-map id (a ∷ actions) = elim (Option-cases a.gas_limit) [
  | inl e ↦ ground (arith, sub_msgs-map id actions)
  | inr (g, e) ↦ ground (arith, sub_msgs-map id actions)
]

module _ (E : External) where
  -- The state that a call leaves behind, after the pop: a queue entry for the reply.
  abbrev pub awaited : Env → TaskHash → State E → State E
  awaited env hash u = record u {
    reply_index = u.reply_index + 1;
    reply_queue = E.save_slot u.reply_queue (u.reply_index + 1) (record {
      contract_addr = some env.contract_address;
      prev_idx = none;
      task_hash = some hash;
    });
  }

  reward_and_fail-fails :
      {X : Type 0} (agent : Agent) (info : MessageInfo) (e : ContractError) (s t : State E)
      (r : Response)
      → reward_and_fail E agent info e s ≡ (ok r, t)
      → X
  unfolding reward_and_fail fail
  reward_and_fail-fails agent info e s t r h = bind_ok _ _ s h λ _ u e0 k0. absurd (ground arith)

  run_task-ok :
      (info : MessageInfo) (env : Env) (id : ℕ) (hash : TaskHash) (task : Task) (s t : State E)
      (r : Response)
      → run_task E info env id hash task s ≡ (ok r, t)
      → (t ≡ awaited env hash s) × (r.messages ≡ sub_msgs (s.reply_index + 1) task.actions)
  unfolding run_task ◌>>=◌ rq_push rq_next_id gets modify lift pure
  run_task-ok info env id hash task s t r h = ground arith

  -- A hash that is run, with the task under it.
  abbrev pub IsRun : Env → TaskHash → State E → State E → Response → Type 0
  IsRun env hash u t r =
      (task : Task) × (E.may_load u.tasks hash ≡ some task)
      × (t ≡ awaited env hash u)
      × (r.messages
          ≡ map (λ (a : Action). asked_for (u.reply_index + 1) a.msg a.gas_limit) task.actions)

  run_hash-ok :
      (info : MessageInfo) (env : Env) (agent : Agent) (id : ℕ) (hash : TaskHash) (u t : State E)
      (r : Response)
      → run_hash E info env agent id hash u ≡ (ok r, t)
      → IsRun env hash u t r
  unfolding run_hash gets ◌>>=◌ choose
  run_hash-ok info env agent id hash u t r h = elim (Option-cases (E.may_load u.tasks hash)) [
    | inl e ↦ reward_and_fail-fails agent info _ u t r (rw e at h)
    | inr (task, e) ↦
        let (state, sent) = run_task-ok info env id hash task u t r (rw e at h) in
        (task, e, state, sent ∙ sub_msgs-map (u.reply_index + 1) task.actions)
  ]

  run_found-ok :
      (info : MessageInfo) (env : Env) (agent : Agent) (found : Option (ℕ × Option TaskHash))
      (u t : State E) (r : Response)
      → run_found E info env agent found u ≡ (ok r, t)
      → (id : ℕ) × (hash : TaskHash) × (found ≡ some (id, some hash)) × IsRun env hash u t r
  unfolding run_found
  run_found-ok info env agent none u t r h = reward_and_fail-fails agent info _ u t r h
  run_found-ok info env agent (some (id, none)) u t r h = reward_and_fail-fails agent info _ u t r h
  run_found-ok info env agent (some (id, some hash)) u t r h =
      (id, hash, refl, run_hash-ok info env agent id hash u t r h)

  -- A call that succeeds comes without funds, while the contract runs, from an agent of the active
  -- queue. A hash was popped, its task is stored, and the response holds one submessage for each
  -- action of the task, in their order: the action's message, with a reply in every case under the
  -- next index, and the action's gas limit, where it has one. What the pop left is then changed in nothing but the queue of replies: the
  -- next index has the entry for the hash.
  pub proxy_call-success :
      (info : MessageInfo) (env : Env) (s t : State E) (r : Response)
      → proxy_call E info env s ≡ (ok r, t)
      → (id : ℕ) × (hash : TaskHash) × (u : State E) × (info.funds ≡ [])
        × (s.config.paused ≡ false)
        × (contains s.agent_active_queue info.sender ≡ true)
        × (next_hash E env s ≡ (ok (some (id, some hash)), u))
        × IsRun env hash u t r
  unfolding proxy_call serve_slot
  proxy_call-success info env s t r h = bind_ok _ _ s h λ _ u0 e0 k0.
      bind_ok _ _ u0 k0 λ c u1 e1 k1. bind_ok _ _ u1 k1 λ _ u2 e2 k2.
        bind_ok _ _ u2 k2 λ _ u3 e3 k3. bind_ok _ _ u3 k3 λ o u4 e4 k4.
          bind_ok _ _ u4 k4 λ agent u5 e5 k5. bind_ok _ _ u5 k5 λ active u6 e6 k6.
            bind_ok _ _ u6 k6 λ _ u7 e7 k7. bind_ok _ _ u7 k7 λ found u8 e8 k8.
              let (id, hash, popped, run) = run_found-ok info env agent found u8 t r k8 in
              let f0 = fail_if-ok (not (is_empty info.funds)) _ s u0 _ e0 in
              let f1 = gets-ok _ u0 u1 c e1 in
              let f2 = fail_if-ok c.paused _ u1 u2 _ e2 in
              let f3 = fail_if-ok _ _ u2 u3 _ e3 in
              let f4 = gets-ok _ u3 u4 o e4 in
              let f5 = or_fail-ok o _ u4 u5 agent e5 in
              let f6 = gets-ok _ u5 u6 active e6 in
              let f7 = fail_if-ok _ _ u6 u7 _ e7 in
              let loaded : u5 ≡ s = f5.1 ∙ f4.1 ∙ f3.1 ∙ f2.1 ∙ f1.1 ∙ f0.1 in
              (
                id,
                hash,
                u8,
                no_funds info.funds f0.0,
                ap (λ (x : State E). x.config.paused) (sym f0.1)
                    ∙ ap (λ (x : Config). x.paused) (sym f1.0)
                    ∙ f2.0,
                ap (λ (x : State E). contains x.agent_active_queue info.sender) (sym loaded)
                    ∙ ap (λ (x : List String). contains x info.sender) (sym f6.0)
                    ∙ not-false f7.0,
                ap (next_hash E env) (sym (f7.1 ∙ f6.1 ∙ loaded))
                    ∙ e8
                    ∙ ap (λ (x : Option (ℕ × Option TaskHash)). (ok x, u8)) popped,
                run,
              )
