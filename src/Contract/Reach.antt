-- ===== src/Contract/Reach.antt =====
-- The states of an instantiated contract: the messages and replies that the chain delivers, in any
-- order and from any sender, each as a transaction.
use cw_croncat.Base.{◌≡◌, arith}
use cw_croncat.Base.Outcome.{ok}
use cw_croncat.Base.Keeps.{Keeps, commit, commit-Keeps}
use cw_croncat.External.{External}
use cw_croncat.State.{State, Env, MessageInfo}
use cw_croncat.Messages.{InstantiateMsg, ExecuteMsg}
use cw_croncat.Response.{Response}
use cw_croncat.Agent.{Querier}
use cw_croncat.Base.Count.{count-nil}
use cw_croncat.Agent.Consistency.{IsConsistent}
use cw_croncat.Manager.{Reply}
use cw_croncat.Contract.{instantiate, initial_state, execute, reply}
use cw_croncat.Contract.Consistency.{execute-IsConsistent, reply-IsConsistent}

module _ (E : External) where
  pub data Step (s : State E) : State E → Type 0 where
    message :
        (q : Querier) (env : Env) (info : MessageInfo) (msg : ExecuteMsg)
        → Step s (commit s (execute E q env info msg s))
    replied : (env : Env) (msg : Reply) → Step s (commit s (reply E env msg s))

  pub data Reach (s : State E) : State E → Type 0 where
    here : Reach s s
    next : {t u : State E} → Reach s t → Step t u → Reach s u

  module _ (P : State E → Type 0)
      (execute_keeps : (q : Querier) (env : Env) (info : MessageInfo) (msg : ExecuteMsg)
          (s : State E)
        → P s
        → P (commit s (execute E q env info msg s)))
      (reply_keeps : (env : Env) (msg : Reply) → Keeps P (reply E env msg)) where
    Step-keep : {s t : State E} → Step s t → P s → P t
    Step-keep {s} (message q env info msg) h = execute_keeps q env info msg s h
    Step-keep {s} (replied env msg) h = commit-Keeps (reply_keeps env msg) s h

    -- What every message and every reply keeps holds in every state that they lead to.
    pub Reach-keep : {s t : State E} → P s → Reach s t → P t
    Reach-keep h here = h
    Reach-keep h (next r st) = Step-keep st (Reach-keep h r)

  -- Nothing is stored at first but the config.
  pub instantiate-initial :
      (q : Querier) (env : Env) (info : MessageInfo) (msg : InstantiateMsg) {s : State E}
      {r : Response}
      → instantiate E q env info msg ≡ ok (s, r)
      → s ≡ initial_state E s.config
  unfolding instantiate
  instantiate-initial q env info msg e = ground arith

  instantiate-IsConsistent :
      (q : Querier) (env : Env) (info : MessageInfo) (msg : InstantiateMsg) {s : State E}
      {r : Response}
      → instantiate E q env info msg ≡ ok (s, r)
      → IsConsistent E s
  unfolding instantiate
  instantiate-IsConsistent q env info msg e a = ground (arith, count-nil a)

  -- From instantiation on, whatever messages and replies follow in whatever order, an address stands
  -- at most once in the active and pending queues together, and only while it is registered.
  pub reachable-IsConsistent :
      (q : Querier) (env : Env) (info : MessageInfo) (msg : InstantiateMsg) (s t : State E)
      (r : Response)
      → instantiate E q env info msg ≡ ok (s, r)
      → Reach s t
      → IsConsistent E t
  reachable-IsConsistent q env info msg s t r e path =
      Reach-keep (IsConsistent E) (execute-IsConsistent E) (reply-IsConsistent E)
        (instantiate-IsConsistent q env info msg e) path
