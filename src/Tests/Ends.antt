-- ===== src/Tests/Ends.antt =====
-- Rewards, a task `Once`, and a task past its end, on small states.
use cw_croncat.Base.{subst, ℕ, ◌≡◌, refl, false, none, some, [], ◌∷◌, arith, contains}
use cw_croncat.Base.Outcome.{ok, ◌>>=◌}
use cw_croncat.Types.{
  Task, TaskRequest, Interval, SlotType, Balance, GenericBalance, Agent, new, bank_send,
}
use cw_croncat.State.{State, increment_tasks}
use cw_croncat.Messages.{ExecuteMsg}
use cw_croncat.Response.{Response}
use cw_croncat.Balance.{add_tokens, minus_tokens}
use cw_croncat.Interval.{is_valid, next, get_next_block_by_offset, get_next_block_limited}
use cw_croncat.Task.{is_valid_msg, to_hash_vec}
use cw_croncat.Slots.{push_slot_item, store_of, get_current_slot_items}
use cw_croncat.Slots.Pop.{pushed_map}
use cw_croncat.Agent.{new_agent, agents_to_let_in, register_agent, withdraw_agent_balance}
use cw_croncat.Tasks.{create_task}
use cw_croncat.Tasks.Catalog.{IsCataloged}
use cw_croncat.Tasks.Removal.{slot_hashes}
use cw_croncat.Manager.{send_base_agent_reward, proxy_call, proxy_callback, reply_submsg_failed}
use cw_croncat.Manager.Recurring.{once_again}
use cw_croncat.Manager.Ending.{proxy_callback-ended}
use cw_croncat.Contract.{execute}
use cw_croncat.Contract.Catalog.{reachable-IsCataloged}
use cw_croncat.Contract.Reach.{Reach, Step}
use cw_croncat.Contract.Unpaid.{IsUnpaid, reachable-IsUnpaid}
use cw_croncat.Tests.World.{world}
use cw_croncat.Tests.Scenes.{
  bobs_task, started, setup, at_height, from_account, request, atoms, querier, until,
}
use cw_croncat.Tests.Entry.{after, success, run-opened, opened, greeting}

abbrev ann : Agent
ann = new_agent world "ann" 1000000000000

-- Ann registers, and calls when nothing is due.
abbrev called_in_vain : State world
called_in_vain =
    after (from_account "ann" []) ExecuteMsg.proxy_call
      (after (from_account "ann" []) (ExecuteMsg.register_agent none) started)

found-called_in_vain : world.may_load called_in_vain.agents "ann" ≡ some ann
unfolding execute register_agent proxy_call ◌>>=◌ get_current_slot_items send_base_agent_reward
    add_tokens minus_tokens
found-called_in_vain = refl

reachable-IsUnpaid_example :
    IsUnpaid ann
    × ((r' : Response) × (withdraw_agent_balance world (from_account "ann" []) called_in_vain
          ≡ (ok r', called_in_vain))
        × (r'.messages ≡ []))
reachable-IsUnpaid_example =
    reachable-IsUnpaid world querier (at_height 100) (from_account "owner" (atoms 7 ∷ []))
      (from_account "ann" []) setup started called_in_vain (greeting opened) ann run-opened
      (Reach.next (Reach.next Reach.here (Step.message _ _ _ _)) (Step.message _ _ _ _))
      found-called_in_vain

-- Ann registers, and bob's request is created.
abbrev asked : TaskRequest → State world
asked req =
    after (from_account "bob" (atoms 50 ∷ [])) (ExecuteMsg.create_task req)
      (after (from_account "ann" []) (ExecuteMsg.register_agent none) started)

asked-IsCataloged : (req : TaskRequest) → IsCataloged world (asked req)
asked-IsCataloged req =
    reachable-IsCataloged world querier (at_height 100) (from_account "owner" (atoms 7 ∷ [])) setup
      started (asked req) (greeting opened) run-opened
      (Reach.next (Reach.next Reach.here (Step.message _ _ _ _)) (Step.message _ _ _ _))

-- What that comes to, with the task in a block slot.
abbrev holding : Task → ℕ → State world
holding task id = record started {
  config = record started.config {
    available_balance = record { native_coins = atoms 157 ∷ []; cw20_coins = [] };
  };
  agents = ("ann", ann) ∷ [];
  agent_active_queue = "ann" ∷ [];
  tasks = ("bob", task) ∷ [];
  task_total = 1;
  block_slots = (id, "bob" ∷ []) ∷ [];
}

abbrev once_task : Task
once_task = record bobs_task { interval = Interval.once }

run-once : asked (record request { interval = Interval.once }) ≡ holding once_task 101
unfolding execute create_task register_agent is_valid_msg is_valid next get_next_block_limited
    increment_tasks push_slot_item add_tokens agents_to_let_in to_hash_vec ◌>>=◌
run-once = refl

once_again_example :
    (r : Response) × (r' : Response) × (t : State world) × (u : State world) × (proxy_callback world
        (at_height 101)
        success
        "bob"
        (holding once_task 101)
      ≡ (ok r, t))
    × (world.may_load t.tasks "bob" ≡ some once_task)
    × (t.block_slots ≡ pushed_map world (holding once_task 101).block_slots 102 "bob")
    × (proxy_call world (from_account "ann" []) (at_height 102) t ≡ (ok r', u))
unfolding reply_submsg_failed
once_again_example =
    once_again world (at_height 101) (at_height 102) (from_account "ann" []) success "bob" once_task
      ann (holding once_task 101)
      (subst (IsCataloged world) run-once
        (asked-IsCataloged (record request { interval = Interval.once })))
      refl refl refl (omega arith) (omega arith) refl refl refl (λ e. ground arith) refl refl
      (omega arith)

abbrev short_task : Task
short_task = record bobs_task { boundary = until 105 }

run-short : asked (record request { boundary = until 105 }) ≡ holding short_task 100
unfolding execute create_task register_agent is_valid_msg is_valid next get_next_block_by_offset
    increment_tasks push_slot_item add_tokens agents_to_let_in to_hash_vec ◌>>=◌
run-short = refl

abbrev rest : GenericBalance
rest = record { native_coins = atoms 107 ∷ []; cw20_coins = [] }

covered-short :
    minus_tokens (holding short_task 100).config.available_balance (Balance.native (atoms 50 ∷ []))
    ≡ ok rest
unfolding minus_tokens
covered-short = refl

-- Bob's task is over at height 106.
proxy_callback-ended_example :
    (r : Response) × (t : State world) × (proxy_callback world
        (at_height 106)
        success
        "bob"
        (holding short_task 100)
      ≡ (ok r, t))
    × (r.messages ≡ new (bank_send "bob" (atoms 50 ∷ [])) ∷ [])
    × (world.may_load t.tasks "bob" ≡ none)
    × ((kind : SlotType) (id : ℕ)
        → contains (slot_hashes world (store_of world kind t) id) "bob" ≡ false)
proxy_callback-ended_example =
    proxy_callback-ended world (at_height 106) success "bob" short_task 105 rest
      (holding short_task 100)
      (subst (IsCataloged world) run-short
        (asked-IsCataloged (record request { boundary = until 105 })))
      refl refl (omega arith) (omega arith) covered-short
