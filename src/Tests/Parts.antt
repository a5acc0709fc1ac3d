-- ===== src/Tests/Parts.antt =====
-- The properties of balances, intervals and slots on small inputs.
use cw_croncat.Base.{
  eqb_iff, arith, ℕ, ◌+◌, ◌*◌, ◌≤◌, ◌<◌, ◌≡◌, ◌⊎◌, ◌↔◌, refl, Option, some, [], ◌∷◌,
}
use cw_croncat.Base.Outcome.{ok}
use cw_croncat.Types.{Balance, GenericBalance, Interval, BoundarySpec, SlotType, block, cron}
use cw_croncat.Balance.{add_tokens}
use cw_croncat.Balance.Amounts.{amount_of, sent, add_tokens-amount}
use cw_croncat.Interval.{next, is_valid, get_next_block_limited, get_next_block_by_offset}
use cw_croncat.Interval.Copy
use cw_croncat.Interval.Agreement.{next-Copy}
use cw_croncat.Interval.Bounds.{limited_until, offset_unbounded, offset_until, IsNextMultiple}
use cw_croncat.Interval.Crontab.{next_cron}
use cw_croncat.Balancer.{rich}
use cw_croncat.Balancer.Shares.{assigned, assigned-all}
use cw_croncat.Slots.{store_of, push_slot_item, pop_slot_item, get_current_slot_items}
use cw_croncat.Slots.Pop.{pop-push}
use cw_croncat.Slots.Current.{IsCurrent, get_current_slot_items-IsCurrent}
use cw_croncat.Agent.{agents_to_let_in}
use cw_croncat.Agent.Ratio.{agents_to_let_in-least}
use cw_croncat.Tests.World.{world}
use cw_croncat.Tests.Scenes.{busy, held, atoms, at_height, no_boundary, until}

abbrev richer : GenericBalance
richer = record { native_coins = atoms 112 ∷ []; cw20_coins = [] }

run-add_tokens : add_tokens held (Balance.native (atoms 5 ∷ [])) ≡ ok richer
unfolding add_tokens
run-add_tokens = refl

add_tokens-amount_example :
    (amount_of "atom" richer.native_coins
      ≡ amount_of "atom" held.native_coins + sent "atom" (atoms 5 ∷ []))
    × (richer.cw20_coins ≡ [])
add_tokens-amount_example = add_tokens-amount held richer (atoms 5 ∷ []) "atom" run-add_tokens

next-Copy_example :
    (Copy.next world (Interval.block 10) (at_height 100) no_boundary
      ≡ next world (Interval.block 10) (at_height 100) no_boundary)
    × (Copy.is_valid world (Interval.block 10) ≡ is_valid world (Interval.block 10))
next-Copy_example = next-Copy world (Interval.block 10) (at_height 100) no_boundary

-- At the height of the end, one block past it.
limited_until_example :
    (n : ℕ) × (get_next_block_limited (at_height 100) (until 100) ≡ ok (n, block))
    × ((n ≡ 0) ↔ (100 < 100))
    × (100 ≤ 100 → (100 ≤ n) × (n ≤ 101))
    × (100 ≤ 100 → 101 ≤ 101 → n ≡ 101)
limited_until_example =
    limited_until (at_height 100) (until 100) 100 refl (omega arith) (omega arith)

offset_unbounded_example :
    (n : ℕ) × (get_next_block_by_offset (at_height 100) no_boundary 7 ≡ ok (n, block))
    × IsNextMultiple 7 101 n
offset_unbounded_example =
    offset_unbounded (at_height 100) no_boundary 7 refl (omega arith) (omega arith)

-- With an end before the next multiple of 7, a block that has gone by.
offset_until_example :
    (n : ℕ) × (get_next_block_by_offset (at_height 100) (until 103) 7 ≡ ok (n, block))
    × (103 < 100 → n ≡ 0)
    × (100 ≤ 103 → 105 ≤ 103 → n ≡ 105)
    × (100 ≤ 103 → 103 < 105 → n ≡ 98)
    × (0 ≤ 100 → 100 ≤ 103 → 103 < 105 → n ≤ 100)
offset_until_example =
    offset_until (at_height 100) (until 103) 7 103 refl (omega arith) (omega arith)

pop-push_example :
    let (r, t) = pop_slot_item world 110 block (push_slot_item world 110 block "fay" busy).1 in
    (r ≡ ok (some "fay"))
    × ((j : _) (i : ℕ)
        → world.may_load_slot (store_of world j t) i
          ≡ world.may_load_slot (store_of world j busy) i)
pop-push_example = pop-push world block 110 "fay" busy (λ e. ground arith)

get_current_slot_items-IsCurrent_example :
    let (blocks, times) = get_current_slot_items world (at_height 115) (some 1) busy in
    IsCurrent world busy.block_slots 115 blocks × IsCurrent world [] 1000000000000 times
get_current_slot_items-IsCurrent_example =
    get_current_slot_items-IsCurrent world (at_height 115) (some 1) busy (λ e. ground arith)

agents_to_let_in-least_example :
    (n : ℕ) × (agents_to_let_in 3 1 10 ≡ ok n)
    × (10 ≤ (1 + n) * 3)
    × ((n ≡ 0) ⊎ ((1 + n) * 3 < 10 + 3))
agents_to_let_in-least_example =
    agents_to_let_in-least 3 1 10 (omega arith) (omega arith) (omega arith)

run-crontab :
    next world (Interval.cron "@hourly") (at_height 100) no_boundary ≡ ok (1060000000000, cron)
unfolding next
run-crontab = refl

-- The schedules of these runs lie ahead.
later_after : (schedule : world.Schedule) (t u : ℕ) → world.next_after schedule t ≡ some u → t < u
later_after schedule t u h = ground arith

next_cron_example :
    (SlotType.cron ≡ cron)
    × (1000000000000 < 1060000000000)
    × Unit {0}
    × ((e : Option BoundarySpec)
        → next world (Interval.cron "@hourly") (at_height 100) (record no_boundary { end = e })
          ≡ ok (1060000000000, cron))
next_cron_example =
    next_cron world (at_height 100) no_boundary "@hourly" 1060000000000 cron later_after run-crontab

-- Three agents share eight tasks, and two of them have had an extra task before.
assigned-all_example : assigned ((block, 1, 2) ∷ (cron, 0, 1) ∷ (block, 2, 0) ∷ []) 3 8 3 ≡ ok 8
unfolding rich
assigned-all_example =
    assigned-all ((block, 1, 2) ∷ (cron, 0, 1) ∷ (block, 2, 0) ∷ []) 3 8 (refl, (refl, tt))
      (λ k h. ground (arith, eqb_iff 1 k, eqb_iff 0 k)) (omega arith) (omega arith)
