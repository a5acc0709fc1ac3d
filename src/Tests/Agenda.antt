-- ===== src/Tests/Agenda.antt =====
-- The agenda under a message, two creations in either order, and a recurring task, on small states.
use cw_croncat.Base.{ℕ, ◌≡◌, refl, [], ◌∷◌, arith}
use cw_croncat.Base.Outcome.{◌>>=◌, Outcome, ok, modify, gets, or_fail, pure}
use cw_croncat.Types.{SlotType, TaskHash}
use cw_croncat.State.{State, increment_tasks}
use cw_croncat.Messages.{ExecuteMsg}
use cw_croncat.Response.{Response}
use cw_croncat.Balance.{add_tokens}
use cw_croncat.Interval.{is_valid, next, get_next_block_by_offset}
use cw_croncat.Task.{is_valid_msg, to_hash_vec}
use cw_croncat.Slots.{push_slot_item}
use cw_croncat.Slots.Pop.{pushed_map}
use cw_croncat.Agent.{new_agent, agents_to_let_in}
use cw_croncat.Tasks.{create_task}
use cw_croncat.Tasks.Agenda.{agenda}
use cw_croncat.Manager.{proxy_call, proxy_callback, reply_submsg_failed}
use cw_croncat.Manager.Recurring.{proxy_callback-proxy_call}
use cw_croncat.Contract.Agenda.{Label, Plan, Step-Plan}
use cw_croncat.Contract.Commuting.{Lengthened, create_task_comm}
use cw_croncat.Contract.Swapped.{Alike}
use cw_croncat.Contract.Reach.{Step}
use cw_croncat.Tests.World.{world}
use cw_croncat.Tests.Scenes.{
  bobs_task, started, at_height, from_account, request, atoms, blank, querier, value,
}
use cw_croncat.Tests.Handlers.{creation, run-creation}
use cw_croncat.Tests.Entry.{after, success}
use cw_croncat.Tests.Work.{planned, planned-IsCataloged}

-- Eve asks for a task, too.
Step-Plan_example : Plan Label.filing (agenda world planned) (
    agenda world
      (after (from_account "eve" (atoms 50 ∷ [])) (ExecuteMsg.create_task request) planned))
Step-Plan_example =
    Step-Plan world planned
      (after (from_account "eve" (atoms 50 ∷ [])) (ExecuteMsg.create_task request) planned)
      (Step.message querier (at_height 100) (from_account "eve" (atoms 50 ∷ []))
        (ExecuteMsg.create_task request))

-- Bob's creation and then eve's.
abbrev both : Outcome Response × State world
both = create_task world (from_account "eve" (atoms 60 ∷ [])) (at_height 100) request creation.1

run-both : both ≡ (ok (value blank both), both.1)
unfolding create_task gets modify or_fail pure ◌>>=◌ is_valid_msg is_valid next
    get_next_block_by_offset increment_tasks push_slot_item add_tokens agents_to_let_in to_hash_vec
run-both = refl

create_task_comm_example :
    (t' : State world) × (u' : State world) × (r3 : Response) × (r4 : Response) × (create_task world
        (from_account "eve" (atoms 60 ∷ []))
        (at_height 100)
        request
        started
      ≡ (ok r3, t'))
    × (create_task world (from_account "bob" (atoms 50 ∷ [])) (at_height 100) request t'
        ≡ (ok r4, u'))
    × (i : ℕ) × (k : SlotType) × (j : ℕ) × (l : SlotType) × (next world request.interval
          (at_height 100)
          request.boundary
        ≡ ok (i, k))
    × (next world request.interval (at_height 100) request.boundary ≡ ok (j, l))
    × Lengthened world (k, i, "bob") (l, j, "eve") started both.1
    × Lengthened world (l, j, "eve") (k, i, "bob") started u'
    × ((h : TaskHash) → world.may_load both.1.tasks h ≡ world.may_load u'.tasks h)
    × Alike world both.1 u'
unfolding to_hash_vec
create_task_comm_example =
    create_task_comm world (from_account "bob" (atoms 50 ∷ [])) (from_account "eve" (atoms 60 ∷ []))
      (at_height 100) request request started creation.1 both.1 (value blank creation)
      (value blank both) run-creation run-both

-- The reply to bob's task, and ann's next call.
proxy_callback-proxy_call_example :
    (r : Response) × (r' : Response) × (u : State world) × (proxy_callback world
        (at_height 100)
        success
        "bob"
        planned
      ≡ (ok r, record planned { block_slots = pushed_map world planned.block_slots 110 "bob" }))
    × (proxy_call world
          (from_account "ann" [])
          (at_height 110)
          (record planned { block_slots = pushed_map world planned.block_slots 110 "bob" })
        ≡ (ok r', u))
unfolding reply_submsg_failed
proxy_callback-proxy_call_example =
    proxy_callback-proxy_call world (at_height 100) (at_height 110) (from_account "ann" []) success
      "bob" bobs_task (new_agent world "ann" 1000000000000) 10 110 planned planned-IsCataloged refl
      refl (omega arith) refl (omega arith) refl (11, omega arith, omega arith, omega arith)
      (omega arith) refl refl (λ e. ground arith) refl refl (omega arith)
