-- ===== src/Contract/Catalog.antt =====
-- The catalog and the slots in the states that messages and replies lead to.
use cw_croncat.Base.{◌≡◌, List, arith}
use cw_croncat.Base.Outcome.{ok}
use cw_croncat.Base.Keeps.{Keeps, keeps_rules, commit}
use cw_croncat.External.{External}
use cw_croncat.Types.{Task, TaskHash}
use cw_croncat.State.{State, Config, Env, MessageInfo, rq_remove}
use cw_croncat.Messages.{InstantiateMsg, ExecuteMsg}
use cw_croncat.Response.{Response}
use cw_croncat.Agent.{Querier}
use cw_croncat.Tasks.Catalog.{IsCataloged, IsKeyed, IsFiled}
use cw_croncat.Tasks.Filing.{
  create_task-IsCataloged, remove_task-IsCataloged, refill_task-IsCataloged,
}
use cw_croncat.Manager.{Reply}
use cw_croncat.Manager.Filing.{proxy_call-IsCataloged, proxy_callback-IsCataloged}
use cw_croncat.Contract.{instantiate, initial_state, execute, reply, answer}
use cw_croncat.Contract.Work.{Work, execute-keep}
use cw_croncat.Contract.Reach.{instantiate-initial, Reach, Reach-keep}

module _ (E : External) where
  abbrev Agrees : Work E → Type 0
  Agrees w = IsKeyed E w.0 × IsFiled E w.0 w.3 × IsFiled E w.0 w.2

  pub execute-IsCataloged :
      (q : Querier) (env : Env) (info : MessageInfo) (msg : ExecuteMsg) (s : State E)
      → IsCataloged E s
      → IsCataloged E (commit s (execute E q env info msg s))
  execute-IsCataloged =
      execute-keep E Agrees (create_task-IsCataloged E) (remove_task-IsCataloged E)
        (refill_task-IsCataloged E) (proxy_call-IsCataloged E)

  reply-IsCataloged : (env : Env) (msg : Reply) → Keeps (IsCataloged E) (reply E env msg)
  unfolding reply answer rq_remove
  reply-IsCataloged env msg = search (keeps_rules, proxy_callback-IsCataloged) depth 14

  initial-IsCataloged : (c : Config) → IsCataloged E (initial_state E c)
  initial-IsCataloged c =
      (λ h t l. ground (arith, E.may_load-empty_map {V = Task} h), unfiled, unfiled)
    where
      unfiled : IsFiled E E.empty_map E.empty_slots
      unfiled = (
        λ id h c e. ground (arith, E.may_load_slot-empty_slots {V = List TaskHash} id),
        λ id e. ground (arith, E.may_load_slot-empty_slots {V = List TaskHash} id),
      )

  -- From instantiation on, whatever messages and replies follow in whatever order, each task of the
  -- catalog stands under its own hash, each hash in a slot of either kind is that of a task in the
  -- catalog, and no slot is stored without a hash.
  pub reachable-IsCataloged :
      (q : Querier) (env : Env) (info : MessageInfo) (msg : InstantiateMsg) (s t : State E)
      (r : Response)
      → instantiate E q env info msg ≡ ok (s, r)
      → Reach E s t
      → IsCataloged E t
  reachable-IsCataloged q env info msg s t r e path =
      Reach-keep E (IsCataloged E) execute-IsCataloged reply-IsCataloged
        (rw (instantiate-initial E q env info msg e) (initial-IsCataloged s.config)) path
