-- ===== src/Tests/Entry.antt =====
-- The properties of the entry points, and of nominations, on small states.
use cw_croncat.Balance.Amounts.{amount_of, has_denom}
use cw_croncat.Owner.Moves.{paid}
use cw_croncat.Base.{
  String, ◌+◌, if◌then◌else◌, pop, ℕ, contains, false, arith, ◌≡◌, refl, true, none, some, [], ◌∷◌,
}
use cw_croncat.Base.Outcome.{
  Outcome, ok, err, panic, gets, modify, pure, or_fail, ◌>>=◌, unknown_reply_id, custom_error,
}
use cw_croncat.Base.Keeps.{commit}
use cw_croncat.Types.{Balance, GenericBalance, TaskHash, nominated}
use cw_croncat.State.{State, rq_next_id, rq_push, rq_remove, MessageInfo}
use cw_croncat.Messages.{ExecuteMsg}
use cw_croncat.Response.{Response}
use cw_croncat.Balance.{minus_tokens, add_tokens}
use cw_croncat.Interval.{next, get_next_block_by_offset}
use cw_croncat.Slots.{get_current_slot_items, pop_slot_item, push_slot_item}
use cw_croncat.Agent.{accept_nomination_agent, get_agent_status, agents_to_let_in}
use cw_croncat.Agent.Nomination.{nominated_must_wait}
use cw_croncat.Agent.Consistency.{IsConsistent}
use cw_croncat.Manager.{proxy_call, next_hash, Reply, proxy_callback, SubMsgResult}
use cw_croncat.Manager.Call.{IsRun, proxy_call-success}
use cw_croncat.Manager.Replies.{reply_twice}
use cw_croncat.Owner.{move_balances}
use cw_croncat.Owner.Payments.{ArePayments, move_balances-success}
use cw_croncat.Contract.{instantiate, execute, reply, answer}
use cw_croncat.Contract.Access.{settings, execute-settings}
use cw_croncat.Contract.Reach.{Reach, Step, reachable-IsConsistent}
use cw_croncat.Tests.World.{world}
use cw_croncat.Tests.Scenes.{
  busy, started, setup, querier, at_height, from_account, request, blank, value, atoms, differ,
}

abbrev pub opened : Outcome (State world × Response)
opened = instantiate world querier (at_height 100) (from_account "owner" (atoms 7 ∷ [])) setup

abbrev pub greeting : Outcome (State world × Response) → Response
greeting (ok (s, r)) = r
greeting (err e) = blank
greeting panic = blank

pub run-opened : opened ≡ ok (started, greeting opened)
unfolding instantiate add_tokens
run-opened = refl

abbrev pub after : MessageInfo → ExecuteMsg → State world → State world
after info msg s = commit s (execute world querier (at_height 100) info msg s)

-- Registration, a task, the agent's call, and its leave.
abbrev pub story : State world
story = after (from_account "ann" []) ExecuteMsg.unregister_agent (
    after (from_account "ann" []) ExecuteMsg.proxy_call (
      after (from_account "bob" (atoms 50 ∷ [])) (ExecuteMsg.create_task request)
        (after (from_account "ann" []) (ExecuteMsg.register_agent none) started)))

reachable-IsConsistent_example : IsConsistent world story
reachable-IsConsistent_example =
    reachable-IsConsistent world querier (at_height 100) (from_account "owner" (atoms 7 ∷ [])) setup
      started story (greeting opened) run-opened
      (Reach.next
        (Reach.next
          (Reach.next (Reach.next Reach.here (Step.message _ _ _ _)) (Step.message _ _ _ _))
          (Step.message _ _ _ _))
        (Step.message _ _ _ _))

abbrev pause : ExecuteMsg
pause = ExecuteMsg.update_settings (record {
  owner_id = some "mallory";
  slot_granularity = none;
  paused = some true;
  agent_fee = none;
  gas_price = none;
  proxy_callback_gas = none;
  min_tasks_per_agent = none;
  agents_eject_threshold = none;
})

execute-settings_example :
    settings (after (from_account "mallory" []) pause busy).config ≡ settings busy.config
execute-settings_example =
    execute-settings world querier (at_height 100) (from_account "mallory" []) pause busy
      (differ "mallory" "owner" refl)

-- A reply is awaited under id 1.
abbrev awaiting : State world
awaiting = record busy {
  reply_index = 1;
  reply_queue =
      (1, record { contract_addr = some "contract"; prev_idx = none; task_hash = some "bob" }) ∷ [];
}

abbrev pub success : Reply
success = record { id = 1; result = SubMsgResult.succeeded [] }

abbrev answered : Outcome Response × State world
answered = reply world (at_height 100) success awaiting

run-answered : answered ≡ (ok (value blank answered), answered.1)
unfolding reply gets modify or_fail pure ◌>>=◌ get_next_block_by_offset push_slot_item rq_remove
    answer proxy_callback next
run-answered = refl

reply_twice_example :
    reply world (at_height 101) success answered.1 ≡ (err unknown_reply_id, answered.1)
reply_twice_example =
    reply_twice world (at_height 100) (at_height 101) success success awaiting answered.1
      (value blank answered) run-answered refl

-- A hundred seconds into a nomination, with ten tasks and one agent.
abbrev crowded : State world
crowded = record busy {
  agent_pending_queue = "cat" ∷ "dan" ∷ [];
  task_total = 10;
  agent_nomination_begin_time = some 900000000000;
}

run-let_in : agents_to_let_in 3 1 10 ≡ ok 3
unfolding agents_to_let_in
run-let_in = refl

nominated_must_wait_example :
    (get_agent_status world (at_height 100) "dan" crowded ≡ ok nominated)
    × (accept_nomination_agent world (from_account "dan" []) (at_height 100) crowded
        ≡ (err (custom_error "Must wait longer before accepting nomination"), crowded))
nominated_must_wait_example =
    nominated_must_wait world (from_account "dan" []) (at_height 100) crowded 900000000000 1 3 refl
      refl refl run-let_in (omega arith) (omega arith) (omega arith) (omega arith)

-- One slot is due, with bob's task.
abbrev ready : State world
ready = record busy { block_slots = (110, "bob" ∷ []) ∷ [] }

abbrev called : Outcome Response × State world
called = proxy_call world (from_account "ann" []) (at_height 115) ready

run-called : called ≡ (ok (value blank called), called.1)
unfolding proxy_call gets modify or_fail pure ◌>>=◌ get_current_slot_items pop_slot_item pop
    rq_next_id rq_push
run-called = refl

proxy_call-success_example :
    (id : ℕ) × (hash : TaskHash) × (u : State world) × ((from_account "ann" []).funds ≡ [])
    × (ready.config.paused ≡ false)
    × (contains ready.agent_active_queue "ann" ≡ true)
    × (next_hash world (at_height 115) ready ≡ (ok (some (id, some hash)), u))
    × IsRun world (at_height 115) hash u called.1 (value blank called)
proxy_call-success_example =
    proxy_call-success world (from_account "ann" []) (at_height 115) ready called.1
      (value blank called) run-called

-- The owner takes seven atoms.
abbrev move : Outcome Response × State world
move =
    move_balances world querier (from_account "owner" []) (at_height 100)
      (Balance.native (atoms 7 ∷ []) ∷ []) "owner" busy

run-move : move ≡ (ok (value blank move), move.1)
unfolding move_balances gets modify or_fail pure ◌>>=◌ minus_tokens
run-move = refl

move_balances-success_example :
    ((from_account "owner" []).sender ≡ busy.config.owner_id)
    × ("owner" ≡ busy.config.owner_id)
    × ArePayments world busy.config.owner_id (value blank move).messages
    × ((g : GenericBalance) × (move.1
          ≡ record busy { config = record busy.config { available_balance = g } })
        × ((d : String)
            → amount_of d g.native_coins
                + (if has_denom d busy.config.available_balance.native_coins
                    then paid d (value blank move).messages
                    else 0)
              ≡ amount_of d busy.config.available_balance.native_coins))
move_balances-success_example =
    move_balances-success world querier (from_account "owner" []) (at_height 100)
      (Balance.native (atoms 7 ∷ []) ∷ []) "owner" busy move.1 (value blank move) run-move
