-- ===== src/Contract/Awaiting.antt =====
-- The queue of replies in the states that messages and replies lead to.
use cw_croncat.Base.{◌≡◌, ◌≢◌, ◌≤◌, ℕ, none, some, arith}
use cw_croncat.Base.Outcome.{ok}
use cw_croncat.Base.Keeps.{Keeps, commit}
use cw_croncat.External.{External}
use cw_croncat.State.{State, Config, Env, MessageInfo, QueueItem}
use cw_croncat.Messages.{InstantiateMsg, ExecuteMsg}
use cw_croncat.Response.{Response}
use cw_croncat.Agent.{Querier}
use cw_croncat.Manager.{Reply}
use cw_croncat.Manager.Awaiting.{IsAwaiting, tasks_framed, replies_framed}
use cw_croncat.Contract.Frame.Tasks.{create_task-keep, remove_task-keep, refill_task-keep}
use cw_croncat.Contract.Frame.Calls.{proxy_call-keep, reply-keep}
use cw_croncat.Contract.{instantiate, initial_state, execute, reply}
use cw_croncat.Contract.Work.{Work, execute-keep}
use cw_croncat.Contract.Reach.{instantiate-initial, Reach, Reach-keep}

module _ (E : External) where
  abbrev Awaits : Work E → Type 0
  Awaits w =
      (i : ℕ) (item : QueueItem)
      → E.may_load_slot w.4 i ≡ some item
      → (i ≤ w.5) × (item.task_hash ≢ none) × (item.contract_addr ≢ none)

  execute-IsAwaiting :
      (q : Querier) (env : Env) (info : MessageInfo) (msg : ExecuteMsg) (s : State E)
      → IsAwaiting E s
      → IsAwaiting E (commit s (execute E q env info msg s))
  execute-IsAwaiting =
      execute-keep E Awaits (λ info env req. create_task-keep E (tasks_framed E) info env req tt)
        (remove_task-keep E (tasks_framed E)) (refill_task-keep E (tasks_framed E))
        (proxy_call-keep E (tasks_framed E) (replies_framed E) λ a v s p. p)

  reply-IsAwaiting : (env : Env) (msg : Reply) → Keeps (IsAwaiting E) (reply E env msg)
  reply-IsAwaiting = reply-keep E (tasks_framed E) (replies_framed E)

  initial-IsAwaiting : (c : Config) → IsAwaiting E (initial_state E c)
  initial-IsAwaiting c i item e =
      absurd (ground (arith, E.may_load_slot-empty_slots {V = QueueItem} i))

  -- From instantiation on, whatever messages and replies follow in whatever order, every id that is
  -- awaited has been given out, so that the next id is awaited by none before; and the entry of an
  -- awaited id names a task and an address.
  pub reachable-IsAwaiting :
      (q : Querier) (env : Env) (info : MessageInfo) (msg : InstantiateMsg) (s t : State E)
      (r : Response)
      → instantiate E q env info msg ≡ ok (s, r)
      → Reach E s t
      → IsAwaiting E t
  reachable-IsAwaiting q env info msg s t r e path =
      Reach-keep E (IsAwaiting E) execute-IsAwaiting reply-IsAwaiting
        (rw (instantiate-initial E q env info msg e) (initial-IsAwaiting s.config)) path
