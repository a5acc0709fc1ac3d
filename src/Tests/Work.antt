-- ===== src/Tests/Work.antt =====
-- The properties of tasks and slots in reachable states, on small states.
use cw_croncat.Base.{subst, ℕ, String, ◌≡◌, refl, true, none, some, [], ◌∷◌, ◌&&◌, arith}
use cw_croncat.Base.Outcome.{Outcome, ok, gets, modify, pure, or_fail, ◌>>=◌}
use cw_croncat.Base.Keeps.{commit}
use cw_croncat.State.{State}
use cw_croncat.Messages.{ExecuteMsg}
use cw_croncat.Response.{Response}
use cw_croncat.Balance.{add_tokens}
use cw_croncat.State.{increment_tasks}
use cw_croncat.Interval.{is_valid, next, get_next_block_by_offset}
use cw_croncat.Task.{is_valid_msg, to_hash, to_hash_vec}
use cw_croncat.Tasks.{create_task, remove_task}
use cw_croncat.Agent.{new_agent, register_agent, agents_to_let_in}
use cw_croncat.Slots.{store_of, get_current_slot_items, push_slot_item}
use cw_croncat.Tasks.Catalog.{IsCataloged}
use cw_croncat.Manager.{proxy_call, proxy_callback, reply_submsg_failed}
use cw_croncat.Manager.Callback.{IsSettled, proxy_callback-success}
use cw_croncat.Manager.Serving.{proxy_call-serves, proxy_call_idle}
use cw_croncat.Contract.{execute}
use cw_croncat.Contract.Reach.{Reach, Step, reachable-IsConsistent}
use cw_croncat.Query.{query_get_tasks}
use cw_croncat.Query.Paging.{get_elem?, query_get_tasks-entry}
use cw_croncat.Query.Tasks.{described}
use cw_croncat.Types.{Agent, Task, TaskHash, SlotType, new, bank_send}
use cw_croncat.Agent.Consistency.{IsConsistent}
use cw_croncat.Agent.Lifecycle.{Moves, phase}
use cw_croncat.Manager.Awaiting.{IsAwaiting}
use cw_croncat.Contract.Awaiting.{reachable-IsAwaiting}
use cw_croncat.Contract.Lifecycle.{execute-Moves}
use cw_croncat.Tasks.Removal.{slot_hashes}
use cw_croncat.Balance.Amounts.{amount_of}
use cw_croncat.Tasks.RoundTrip.{create-remove}
use cw_croncat.Contract.Catalog.{reachable-IsCataloged}
use cw_croncat.Tests.World.{world}
use cw_croncat.Tests.Scenes.{
  bobs_task, started, busy, setup, querier, at_height, from_account, request, atoms, blank, value,
}
use cw_croncat.Tests.Handlers.{creation, run-creation}
use cw_croncat.Tests.Entry.{after, run-opened, opened, greeting, success}

-- A registered agent, and bob's task in a block slot.
abbrev scheduled : State world
scheduled =
    after (from_account "bob" (atoms 50 ∷ [])) (ExecuteMsg.create_task request)
      (after (from_account "ann" []) (ExecuteMsg.register_agent none) started)

-- The state that this comes to.
abbrev pub planned : State world
planned = record started {
  config = record started.config {
    available_balance = record { native_coins = atoms 157 ∷ []; cw20_coins = [] };
  };
  agents = ("ann", new_agent world "ann" 1000000000000) ∷ [];
  agent_active_queue = "ann" ∷ [];
  tasks = ("bob", bobs_task) ∷ [];
  task_total = 1;
  block_slots = (110, "bob" ∷ []) ∷ [];
}

run-scheduled : scheduled ≡ planned
unfolding execute create_task register_agent is_valid_msg is_valid next get_next_block_by_offset
    increment_tasks push_slot_item add_tokens agents_to_let_in to_hash_vec ◌>>=◌
run-scheduled = refl

path-scheduled : Reach world started scheduled
path-scheduled = Reach.next (Reach.next Reach.here (Step.message _ _ _ _)) (Step.message _ _ _ _)

scheduled-IsCataloged : IsCataloged world scheduled
scheduled-IsCataloged =
    reachable-IsCataloged world querier (at_height 100) (from_account "owner" (atoms 7 ∷ [])) setup
      started scheduled (greeting opened) run-opened path-scheduled

pub planned-IsCataloged : IsCataloged world planned
planned-IsCataloged = subst (IsCataloged world) run-scheduled scheduled-IsCataloged

-- The agent's call pops the slot.
abbrev emptied : State world
emptied = after (from_account "ann" []) ExecuteMsg.proxy_call scheduled

reachable-IsCataloged_example : IsCataloged world emptied
reachable-IsCataloged_example =
    reachable-IsCataloged world querier (at_height 100) (from_account "owner" (atoms 7 ∷ [])) setup
      started emptied (greeting opened) run-opened
      (Reach.next path-scheduled (Step.message _ _ _ _))

reachable-IsAwaiting_example : IsAwaiting world emptied
reachable-IsAwaiting_example =
    reachable-IsAwaiting world querier (at_height 100) (from_account "owner" (atoms 7 ∷ [])) setup
      started emptied (greeting opened) run-opened
      (Reach.next path-scheduled (Step.message _ _ _ _))

scheduled-IsConsistent : IsConsistent world scheduled
scheduled-IsConsistent =
    reachable-IsConsistent world querier (at_height 100) (from_account "owner" (atoms 7 ∷ [])) setup
      started scheduled (greeting opened) run-opened path-scheduled

-- A second agent registers.
execute-Moves_example :
    Moves true
      (phase world scheduled "cat")
      (phase world (after (from_account "cat" []) (ExecuteMsg.register_agent none) scheduled) "cat")
execute-Moves_example =
    execute-Moves world "cat" querier (at_height 100) (from_account "cat" [])
      (ExecuteMsg.register_agent none) scheduled scheduled-IsConsistent

pub started-IsCataloged : IsCataloged world started
started-IsCataloged =
    reachable-IsCataloged world querier (at_height 100) (from_account "owner" (atoms 7 ∷ [])) setup
      started started (greeting opened) run-opened Reach.here

-- Bob's task is removed again.
create-remove_example :
    (r' : Response) × (u : State world) × (remove_task world "bob" creation.1 ≡ (ok r', u))
    × (r'.messages ≡ new (bank_send "bob" (atoms 50 ∷ [])) ∷ [])
    × ((h : TaskHash) → world.may_load u.tasks h ≡ world.may_load started.tasks h)
    × ((kind : SlotType) (i : ℕ)
        → slot_hashes world (store_of world kind u) i
          ≡ slot_hashes world (store_of world kind started) i)
    × ((d : String)
        → amount_of d u.config.available_balance.native_coins
          ≡ amount_of d started.config.available_balance.native_coins)
    × (u.task_total ≡ 1)
unfolding to_hash_vec
create-remove_example =
    create-remove world (from_account "bob" (atoms 50 ∷ [])) (at_height 100) request started
      creation.1 (value blank creation) started-IsCataloged run-creation

proxy_call_idle_example :
    commit planned (proxy_call world (from_account "ann" []) (at_height 105) planned) ≡ planned
unfolding get_current_slot_items
proxy_call_idle_example = proxy_call_idle world (from_account "ann" []) (at_height 105) planned refl

due-planned : get_current_slot_items world (at_height 115) (some 1) planned ≡ (some 110, none)
unfolding get_current_slot_items
due-planned = refl

proxy_call-serves_example :
    (r : Response) × (t : State world) × (proxy_call world
        (from_account "ann" [])
        (at_height 115)
        planned
      ≡ (ok r, t))
proxy_call-serves_example =
    proxy_call-serves world (from_account "ann" []) (at_height 115)
      (new_agent world "ann" 1000000000000) planned planned-IsCataloged refl refl
      (λ e. ground arith) refl refl (omega arith) (λ e. ground (arith, due-planned))

-- An index of 2 ^ 32 is taken for 0.
query_get_tasks-entry_example :
    get_elem? (query_get_tasks world (some 4294967296) (some 2) busy) 0
    ≡ some (described (to_hash world bobs_task) bobs_task)
query_get_tasks-entry_example = query_get_tasks-entry world (some 4294967296) (some 2) 0 busy

-- A reply to bob's task.
abbrev called_back : Outcome Response × State world
called_back = proxy_callback world (at_height 100) success "bob" busy

run-called_back : called_back ≡ (ok (value blank called_back), called_back.1)
unfolding proxy_callback next get_next_block_by_offset push_slot_item gets modify or_fail pure ◌>>=◌
run-called_back = refl

proxy_callback-success_example :
    (task : Task) × (world.may_load busy.tasks "bob" ≡ some task)
    × IsSettled world
        (at_height 100)
        task
        (task.stop_on_fail && reply_submsg_failed success.result)
        busy
        called_back.1
proxy_callback-success_example =
    proxy_callback-success world (at_height 100) success "bob" busy called_back.1
      (value blank called_back) run-called_back
