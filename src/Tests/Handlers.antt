-- ===== src/Tests/Handlers.antt =====
-- The properties of the handlers on small states.
use cw_croncat.Base.{
  ℕ, ◌≡◌, refl, none, some, List, [], ◌∷◌, length, String, ◌*◌, ◌+◌, ◌==◌, ◌&&◌, if◌then◌else◌,
}
use cw_croncat.Base.Outcome.{Outcome, saturating, u128_mod, ok, gets, modify, pure, or_fail, ◌>>=◌}
use cw_croncat.Types.{SubMsg, GenericBalance, Balance, Agent, Coin, Task}
use cw_croncat.State.{State, increment_tasks}
use cw_croncat.Response.{Response}
use cw_croncat.Balance.{add_tokens, minus_tokens}
use cw_croncat.Balance.Amounts.{amount_of, has_denom, sent}
use cw_croncat.Slots.{push_slot_item}
use cw_croncat.Task.{is_valid_msg}
use cw_croncat.Interval.{next, is_valid, get_next_block_by_offset}
use cw_croncat.Agent.{
  register_agent, accept_nomination_agent, agents_to_let_in, new_agent, send_tokens,
  withdraw_balances, withdraw_agent_balance,
}
use cw_croncat.Agent.Withdrawal.{IsPayable, withdrawn, paid_out, withdraw_agent_balance_iff}
use cw_croncat.Agent.Registration.{IsWelcome, registered, registered_response, register_agent_iff}
use cw_croncat.Agent.CheckIn.{HasTurn, checked_in, check_in_response, accept_nomination_agent_iff}
use cw_croncat.Tasks.{remove_task, create_task, refill_task}
use cw_croncat.Tasks.Removal.{SlotsWithout}
use cw_croncat.Tasks.Removed.{IsCovered, refund, removed, remove_task_iff}
use cw_croncat.Tasks.Accepted.{Acceptance, accepted, create_task_iff}
use cw_croncat.Tasks.Booking.{created}
use cw_croncat.Tasks.Refill.{refill_task-success}
use cw_croncat.Tests.World.{world}
use cw_croncat.Tests.Scenes.{
  bobs_task, busy, started, querier, at_height, from_account, request, blank, value, atoms,
}

-- The removal of bob's task.
abbrev removal : Outcome Response × State world
removal = remove_task world "bob" busy

run-removal : removal ≡ (ok (value blank removal), removal.1)
unfolding remove_task minus_tokens gets modify or_fail pure ◌>>=◌
run-removal = refl

remove_task_iff_example :
    (task : Task) × (g : GenericBalance) × IsCovered world "bob" busy task g
    × (value blank removal ≡ refund world task)
    × (removal.1 ≡ removed world "bob" g busy)
    × (world.may_load removal.1.tasks "bob" ≡ none)
    × SlotsWithout world "bob" busy removal.1
remove_task_iff_example =
    (remove_task_iff world "bob" busy removal.1 (value blank removal)).0 run-removal

-- A refill with one coin.
abbrev refill : Outcome Response × State world
refill = refill_task world (from_account "bob" (atoms 5 ∷ [])) "bob" busy

run-refill : refill ≡ (ok (value blank refill), refill.1)
unfolding refill_task gets modify or_fail pure ◌>>=◌ add_tokens
run-refill = refl

refill_task-success_example :
    (task : Task) × (deposit : List Coin) × (world.may_load busy.tasks "bob" ≡ some task)
    × (task.owner_id ≡ "bob")
    × (add_tokens busy.config.available_balance (Balance.native (atoms 5 ∷ []))
        ≡ ok refill.1.config.available_balance)
    × (refill.1 ≡ record busy {
      tasks = world.save busy.tasks "bob" (record task { total_deposit = deposit });
      config = record busy.config { available_balance = refill.1.config.available_balance };
    })
    × (world.may_load refill.1.tasks "bob" ≡ some (record task { total_deposit = deposit }))
    × (length deposit ≡ length task.total_deposit * 1)
    × ((f : Coin) (d : String)
        → atoms 5 ∷ [] ≡ f ∷ []
        → amount_of d deposit ≡ (
            if has_denom d task.total_deposit && f.denom == d
            then saturating u128_mod (amount_of d task.total_deposit + f.amount)
            else amount_of d task.total_deposit))
refill_task-success_example =
    refill_task-success world (from_account "bob" (atoms 5 ∷ [])) "bob" busy refill.1
      (value blank refill) run-refill

-- The creation of bob's task.
abbrev pub creation : Outcome Response × State world
creation = create_task world (from_account "bob" (atoms 50 ∷ [])) (at_height 100) request started

pub run-creation : creation ≡ (ok (value blank creation), creation.1)
unfolding create_task gets modify or_fail pure ◌>>=◌ is_valid_msg is_valid next
    get_next_block_by_offset increment_tasks push_slot_item add_tokens agents_to_let_in
run-creation = refl

create_task_iff_example :
    (a : Acceptance world (from_account "bob" (atoms 50 ∷ [])) (at_height 100) request started)
    × (creation.1
        ≡ accepted world (from_account "bob" (atoms 50 ∷ [])) (at_height 100) request started a)
    × (value blank creation ≡ created world bobs_task a.id a.kind)
create_task_iff_example =
    (create_task_iff world (from_account "bob" (atoms 50 ∷ [])) (at_height 100) request started
        creation.1 (value blank creation)).0
      run-creation

-- The registration of a second agent.
abbrev registration : Outcome Response × State world
registration = register_agent world querier (from_account "dan" []) (at_height 100) none busy

run-registration : registration ≡ (ok (value blank registration), registration.1)
unfolding register_agent gets modify or_fail pure ◌>>=◌
run-registration = refl

register_agent_iff_example :
    IsWelcome world querier (from_account "dan" []) busy
    × (registration.1 ≡ registered world "dan" "dan" (at_height 100) busy)
    × (value blank registration ≡ registered_response world (at_height 100) busy)
register_agent_iff_example =
    (register_agent_iff world querier (from_account "dan" []) (at_height 100) none busy
        registration.1 (value blank registration)).0
      run-registration

-- The acceptance of the one pending agent.
abbrev acceptance : Outcome Response × State world
acceptance = accept_nomination_agent world (from_account "cat" []) (at_height 100) busy

run-acceptance : acceptance ≡ (ok (value blank acceptance), acceptance.1)
unfolding accept_nomination_agent gets modify or_fail pure ◌>>=◌
run-acceptance = refl

accept_nomination_agent_iff_example :
    (i : ℕ) × HasTurn world (from_account "cat" []) (at_height 100) busy i
    × (acceptance.1 ≡ checked_in world (from_account "cat" []) i busy)
    × (value blank acceptance ≡ check_in_response world)
accept_nomination_agent_iff_example =
    (accept_nomination_agent_iff world (from_account "cat" []) (at_height 100) busy acceptance.1
        (value blank acceptance)).0
      run-acceptance

-- The withdrawal of an agent that has earned five atoms.
abbrev earned : State world
earned = record busy {
  agents =
      (
        "ann",
        record (new_agent world "ann" 0) {
          balance = record { native_coins = atoms 5 ∷ []; cw20_coins = [] };
        },
      )
      ∷ [];
}

abbrev withdrawal : Outcome Response × State world
withdrawal = withdraw_agent_balance world (from_account "ann" []) earned

run-withdrawal : withdrawal ≡ (ok (value blank withdrawal), withdrawal.1)
unfolding withdraw_agent_balance withdraw_balances send_tokens minus_tokens gets modify or_fail pure
    ◌>>=◌
run-withdrawal = refl

withdraw_agent_balance_iff_example :
    (v : Agent) × (messages : List SubMsg) × (g : GenericBalance) × IsPayable world
      (from_account "ann" [])
      earned
      v
      messages
      g
    × (value blank withdrawal ≡ paid_out world (from_account "ann" []) messages)
    × (withdrawal.1 ≡ withdrawn world g earned)
    × ((d : String)
        → amount_of d g.native_coins
            + (if has_denom d earned.config.available_balance.native_coins
                then sent d v.balance.native_coins
                else 0)
          ≡ amount_of d earned.config.available_balance.native_coins)
    × (world.may_load withdrawal.1.agents "ann" ≡ some v)
withdraw_agent_balance_iff_example =
    (withdraw_agent_balance_iff world (from_account "ann" []) earned withdrawal.1
        (value blank withdrawal)).0
      run-withdrawal
