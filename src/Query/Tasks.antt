-- ===== src/Query/Tasks.antt =====
-- `query_get_task` (tasks.rs): what the query of a task says after a creation.
use cw_croncat.Base.{String, ◌≡◌, ◌≢◌, none, some, arith, eq_iff}
use cw_croncat.Base.Outcome.{ok}
use cw_croncat.Types.{Task, TaskRequest, TaskResponse, TaskHash}
use cw_croncat.External.{External}
use cw_croncat.State.{State, Env, MessageInfo}
use cw_croncat.Response.{Response}
use cw_croncat.Task.{to_hash, to_hash_vec}
use cw_croncat.Tasks.{task_of, create_task}
use cw_croncat.Tasks.Creation.{create_task-success}
use cw_croncat.Tasks.Accepted.{as_asked}
use cw_croncat.Query.{query_get_task, task_response}

-- All that a response tells of a task.
abbrev pub described : String → Task → TaskResponse
described task_hash task = record {
  task_hash = task_hash;
  owner_id = task.owner_id;
  interval = task.interval;
  boundary = task.boundary;
  stop_on_fail = task.stop_on_fail;
  total_deposit = task.total_deposit;
  actions = task.actions;
  rules = task.rules;
}

module _ (E : External) where
  -- A creation that succeeds answers the query of its hash with its hash and the sender, the interval,
  -- boundary, flag, actions and rules asked for, and the funds as its deposit, and
  -- leaves the answer for every other hash; before, there was no answer. In the state that it leaves,
  -- the same request of the same sender is refused, in whatever block.
  pub create_task-query_get_task :
      (info : MessageInfo) (env env' : Env) (req : TaskRequest) (s t : State E) (r : Response)
      → create_task E info env req s ≡ (ok r, t)
      → let item = as_asked info req in
        let hash = to_hash_vec E item in
        (query_get_task E hash s ≡ none)
        × (query_get_task E hash t ≡ some (described (to_hash E item) item))
        × ((h : TaskHash) → hash ≢ h → query_get_task E h t ≡ query_get_task E h s)
        × ((r' : Response) (u : State E) → create_task E info env' req t ≢ (ok r', u))
  unfolding query_get_task task_response
  create_task-query_get_task info env env' req s t r created =
      let item = task_of E info req in
      let hash = to_hash_vec E item in
      let done = create_task-success E info env req s t r created in
      let fresh = done.8 in
      let stored = done.9 in
      let loaded = λ (h : TaskHash). E.may_load-save s.tasks hash h item in
      (
        ground arith,
        ground (arith, loaded hash, eq_iff hash hash),
        λ h other. ground (arith, loaded h, eq_iff hash h),
        λ r' u again.
            let free = (create_task-success E info env' req t u r' again).8 in
            ground (arith, loaded hash, eq_iff hash hash),
      )
