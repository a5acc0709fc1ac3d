-- ===== src/Tasks/Refill.antt =====
-- `refill_task`: the deposit after a refill.
use cw_croncat.Base.{
  ◌+◌, ◌*◌, ◌≡◌, refl, String, some, List, [], ◌∷◌, arith, ◌==◌, ◌&&◌, eq_iff, if◌then◌else◌,
  length, length-append, inl, inr, Option-cases,
}
use cw_croncat.Base.Outcome.{ok, ◌>>=◌, u128_mod, saturating}
use cw_croncat.Types.{TaskHash, Task, Coin, Balance}
use cw_croncat.Balance.{add_tokens}
use cw_croncat.External.{External}
use cw_croncat.State.{State, MessageInfo}
use cw_croncat.Response.{Response}
use cw_croncat.Balance.Amounts.{amount_of, has_denom}
use cw_croncat.Tasks.{refill_coin, refill_coins, refill_task}

length-refill_coin : (t : Coin) (funds : List Coin) → length (refill_coin t funds) ≡ length funds
unfolding refill_coin
length-refill_coin t [] = refl
length-refill_coin t (f ∷ funds) = ground (arith, length-refill_coin t funds)

-- The refilled deposit has one coin for each pair of a coin held and a coin sent.
pub length-refill_coins :
    (held funds : List Coin) → length (refill_coins held funds) ≡ length held * length funds
unfolding refill_coins
length-refill_coins [] funds = omega arith
length-refill_coins (t ∷ ts) funds = omega (
  arith,
  length-append (refill_coin t funds) (refill_coins ts funds),
  length-refill_coin t funds,
  length-refill_coins ts funds,
)

-- One coin is added to the coins held of its denomination, up to the greatest `Uint128`.
pub refill_one-amount :
    (held : List Coin) (f : Coin) (d : String)
    → amount_of d (refill_coins held (f ∷ [])) ≡ (
        if has_denom d held && f.denom == d
        then saturating u128_mod (amount_of d held + f.amount)
        else amount_of d held)
unfolding refill_coins refill_coin amount_of has_denom
refill_one-amount [] f d = refl
refill_one-amount (t ∷ ts) f d =
    ground
      (arith, refill_one-amount ts f d, eq_iff t.denom d, eq_iff f.denom t.denom, eq_iff f.denom d)

module _ (E : External) where
  -- A refill that succeeds comes from the owner of a stored task. The funds are added to the available
  -- balance; the task keeps all but its deposit; and nothing else changes. The deposit gets one coin for each pair of a coin held and a coin sent; with one coin sent, the amounts
  -- held of its denomination grow by it, up to the greatest `Uint128`, and the others stay.
  pub refill_task-success :
      (info : MessageInfo) (hash : TaskHash) (s t : State E) (r : Response)
      → refill_task E info hash s ≡ (ok r, t)
      → (task : Task) × (deposit : List Coin) × (E.may_load s.tasks hash ≡ some task)
        × (task.owner_id ≡ info.sender)
        × (add_tokens s.config.available_balance (Balance.native info.funds)
            ≡ ok t.config.available_balance)
        × (t ≡ record s {
          tasks = E.save s.tasks hash (record task { total_deposit = deposit });
          config = record s.config { available_balance = t.config.available_balance };
        })
        × (E.may_load t.tasks hash ≡ some (record task { total_deposit = deposit }))
        × (length deposit ≡ length task.total_deposit * length info.funds)
        × ((f : Coin) (d : String)
            → info.funds ≡ f ∷ []
            → amount_of d deposit ≡ (
                if has_denom d task.total_deposit && f.denom == d
                then saturating u128_mod (amount_of d task.total_deposit + f.amount)
                else amount_of d task.total_deposit))
  unfolding refill_task ◌>>=◌
  refill_task-success info hash s t r h = elim (Option-cases (E.may_load s.tasks hash)) [
    | inl e ↦ absurd (ground arith)
    | inr (task, e) ↦
        let deposit = refill_coins task.total_deposit info.funds in
        (
          task,
          deposit,
          e,
          ground (arith, eq_iff task.owner_id info.sender),
          ground arith,
          ground arith,
          ground (
            arith,
            eq_iff hash hash,
            E.may_load-save s.tasks hash hash (record task { total_deposit = deposit }),
          ),
          length-refill_coins task.total_deposit info.funds,
          λ f d one. rw one (refill_one-amount task.total_deposit f d),
        )
  ]
