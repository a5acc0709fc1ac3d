-- ===== src/Tests/Service.antt =====
-- A creation and the call that runs its task, on a small state.
use cw_croncat.Base.{◌≡◌, ◌≢◌, some, none, refl, [], ◌∷◌, arith}
use cw_croncat.Base.Outcome.{Outcome, ok, ◌>>=◌}
use cw_croncat.Types.{TaskHash, block}
use cw_croncat.Query.{query_get_task}
use cw_croncat.Query.Tasks.{described, create_task-query_get_task}
use cw_croncat.State.{State, increment_tasks}
use cw_croncat.Response.{Response}
use cw_croncat.Balance.{add_tokens}
use cw_croncat.Interval.{is_valid, next, get_next_block_by_offset}
use cw_croncat.Task.{is_valid_msg, to_hash, to_hash_vec}
use cw_croncat.Slots.{push_slot_item}
use cw_croncat.Agent.{new_agent, agents_to_let_in}
use cw_croncat.Tasks.{create_task}
use cw_croncat.Tasks.Catalog.{IsCataloged}
use cw_croncat.Manager.{proxy_call}
use cw_croncat.Manager.Service.{create_task-proxy_call}
use cw_croncat.Tests.World.{world}
use cw_croncat.Tests.Scenes.{
  bobs_task, started, at_height, from_account, request, atoms, blank, value,
}
use cw_croncat.Tests.Work.{started-IsCataloged, planned}

-- One agent is at work.
abbrev enrolled : State world
enrolled = record started {
  agents = ("ann", new_agent world "ann" 1000000000000) ∷ [];
  agent_active_queue = "ann" ∷ [];
}

enrolled-IsCataloged : IsCataloged world enrolled
enrolled-IsCataloged = started-IsCataloged

abbrev placed : Outcome Response × State world
placed = create_task world (from_account "bob" (atoms 50 ∷ [])) (at_height 100) request enrolled

run-placed : placed ≡ (ok (value blank placed), planned)
unfolding create_task is_valid_msg is_valid next get_next_block_by_offset increment_tasks
    push_slot_item add_tokens agents_to_let_in to_hash_vec ◌>>=◌
run-placed = refl

slot-request : next world request.interval (at_height 100) request.boundary ≡ ok (110, block)
unfolding next get_next_block_by_offset
slot-request = refl

create_task-proxy_call_example :
    (r : Response) × (u : State world) × (proxy_call world
        (from_account "ann" [])
        (at_height 115)
        planned
      ≡ (ok r, u))
create_task-proxy_call_example =
    create_task-proxy_call world (from_account "bob" (atoms 50 ∷ [])) (from_account "ann" [])
      (at_height 100) (at_height 115) request (new_agent world "ann" 1000000000000) enrolled planned
      (value blank placed) 110 block enrolled-IsCataloged run-placed slot-request (omega arith) refl
      refl (λ e. ground arith) refl refl (omega arith)

create_task-query_get_task_example :
    (query_get_task world "bob" enrolled ≡ none)
    × (query_get_task world "bob" planned ≡ some (described "bob" bobs_task))
    × ((h : TaskHash)
        → "bob" ≢ h
        → query_get_task world h planned ≡ query_get_task world h enrolled)
    × ((r : Response) (u : State world)
        → create_task world (from_account "bob" (atoms 50 ∷ [])) (at_height 105) request planned
          ≢ (ok r, u))
unfolding to_hash to_hash_vec
create_task-query_get_task_example =
    create_task-query_get_task world (from_account "bob" (atoms 50 ∷ [])) (at_height 100)
      (at_height 105) request enrolled planned (value blank placed) run-placed
