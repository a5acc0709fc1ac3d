-- ===== src/Tasks/Creation.antt =====
-- `create_task`: what a creation stores, and when it is refused.
use cw_croncat.Base.{
  not-false, ap, sym, ◌∙◌, subst, ℕ, ◌+◌, ◌≡◌, ◌≢◌, refl, true, false, none, [], arith, eqb, inl,
  inr, Option-cases, is_empty,
}
use cw_croncat.Base.Outcome.{ok, ◌>>=◌, bind_ok}
use cw_croncat.Base.Success.{fail_if-ok, pure-ok, gets-ok, lift-ok}
use cw_croncat.Types.{TaskHash, Task, TaskRequest, SlotType, block, cron, Balance}
use cw_croncat.Balance.{add_tokens}
use cw_croncat.External.{External}
use cw_croncat.State.{State, Config, Env, MessageInfo, increment_tasks}
use cw_croncat.Response.{Response}
use cw_croncat.Interval.{next, is_valid}
use cw_croncat.Task.{to_hash_vec, is_valid_msg}
use cw_croncat.Slots.{Slots, store_of, with_store}
use cw_croncat.Slots.Pop.{push_slot_item-pushed, pushed_map}
use cw_croncat.Tasks.{task_of, insert_task, account_task, schedule_task, create_task}

module _ (E : External) where
  pub insert_task-ok :
      (hash : TaskHash) (item : Task) (s u : State E) (x : Unit {0})
      → insert_task E hash item s ≡ (ok x, u)
      → (E.may_load s.tasks hash ≡ none) × (u ≡ record s { tasks = E.save s.tasks hash item })
  unfolding insert_task
  insert_task-ok hash item s u x h = elim (Option-cases (E.may_load s.tasks hash)) [
    | inl e ↦ (e, ground arith)
    | inr (_, e) ↦ absurd (ground arith)
  ]

  pub increment_tasks-ok :
      (s u : State E) (n : ℕ)
      → increment_tasks E s ≡ (ok n, u)
      → (n ≡ s.task_total + 1) × (u ≡ record s { task_total = s.task_total + 1 })
  unfolding increment_tasks ◌>>=◌
  increment_tasks-ok s u n h = ground arith

  -- The funds go to the available balance.
  abbrev pub IsPaid : MessageInfo → State E → State E → Type 0
  IsPaid info s t =
      add_tokens s.config.available_balance (Balance.native info.funds)
      ≡ ok t.config.available_balance

  -- The accounting leaves all but the config and the nomination time.
  account_task-ok :
      (info : MessageInfo) (env : Env) (n : ℕ) (s u : State E) (x : Unit {0})
      → account_task E info env n s ≡ (ok x, u)
      → (u.tasks ≡ s.tasks)
        × (u.task_total ≡ s.task_total)
        × (u.block_slots ≡ s.block_slots)
        × (u.time_slots ≡ s.time_slots)
        × IsPaid info s u
  unfolding account_task ◌>>=◌
  account_task-ok info env n s u x h = ground arith

  -- The map of the other kind is left alone.
  other_store :
      (other kind : SlotType)
      → other ≢ kind
      → (m : Slots E) (u t s : State E) → t.block_slots ≡ (with_store E kind m u).block_slots
      → t.time_slots ≡ (with_store E kind m u).time_slots
      → u.block_slots ≡ s.block_slots
      → u.time_slots ≡ s.time_slots
      → store_of E other t ≡ store_of E other s
  other_store block block ne m u t s a b c d = absurd (ne refl)
  other_store cron cron ne m u t s a b c d = absurd (ne refl)
  other_store block cron ne m u t s a b c d = a ∙ c
  other_store cron block ne m u t s a b c d = b ∙ d

  schedule_task-ok :
      (info : MessageInfo) (env : Env) (item : Task) (id : ℕ) (kind : SlotType) (s t : State E)
      (r : Response)
      → schedule_task E info env item (id, kind) s ≡ (ok r, t)
      → (id ≢ 0)
        × (E.may_load s.tasks (to_hash_vec E item) ≡ none)
        × (t.tasks ≡ E.save s.tasks (to_hash_vec E item) item)
        × (t.task_total ≡ s.task_total + 1)
        × (store_of E kind t ≡ pushed_map E (store_of E kind s) id (to_hash_vec E item))
        × ((other : SlotType) → other ≢ kind → store_of E other t ≡ store_of E other s)
        × IsPaid info s t
  unfolding schedule_task
  schedule_task-ok info env item id kind s t r h = bind_ok _ _ s h λ _ u0 e0 k0.
      bind_ok _ _ u0 k0 λ x1 u1 e1 k1. bind_ok _ _ u1 k1 λ n u2 e2 k2.
        bind_ok _ _ u2 k2 λ x3 u3 e3 k3. bind_ok _ _ u3 k3 λ x4 u4 e4 k4.
          let f0 = fail_if-ok (eqb id 0) _ s u0 _ e0 in
          let f1 = insert_task-ok (to_hash_vec E item) item u0 u1 x1 e1 in
          let f2 = increment_tasks-ok u1 u2 n e2 in
          let f3 = push_slot_item-pushed E kind id (to_hash_vec E item) u2 in
          let f4 = account_task-ok info env n u3 u4 x4 e4 in
          let f5 = pure-ok _ u4 t _ k4 in
          (
            ground arith,
            ground arith,
            ground arith,
            ground arith,
            ground arith,
            λ other ne.
                other_store other kind ne
                  (pushed_map E (store_of E kind u2) id (to_hash_vec E item)) u2 t s (ground arith)
                  (ground arith) (ground arith) (ground arith),
            ground arith,
          )

  -- A creation that succeeds comes with funds, while the contract runs, from a task with supported
  -- messages and a valid interval whose hash is not in the catalog and whose next slot is not 0. The
  -- task is then in the catalog under its hash, with the funds as its deposit; the count has grown
  -- by one; and its hash stands at the end of its slot, with the slots of the other kind unchanged; and
  -- the funds have been added to the available balance.
  pub create_task-success :
      (info : MessageInfo) (env : Env) (req : TaskRequest) (s t : State E) (r : Response)
      → create_task E info env req s ≡ (ok r, t)
      → let item = task_of E info req in
        let hash = to_hash_vec E item in
        (id : ℕ) × (kind : SlotType) × (info.funds ≢ [])
        × (s.config.paused ≡ false)
        × (is_valid_msg item env.contract_address info.sender s.config.owner_id ≡ true)
        × (is_valid E req.interval ≡ true)
        × (next E req.interval env req.boundary ≡ ok (id, kind))
        × (id ≢ 0)
        × (E.may_load s.tasks hash ≡ none)
        × (t.tasks ≡ E.save s.tasks hash item)
        × (t.task_total ≡ s.task_total + 1)
        × (store_of E kind t ≡ pushed_map E (store_of E kind s) id hash)
        × ((other : SlotType) → other ≢ kind → store_of E other t ≡ store_of E other s)
        × IsPaid info s t
  unfolding create_task
  create_task-success info env req s t r h = bind_ok _ _ s h λ _ u0 e0 k0.
      bind_ok _ _ u0 k0 λ c u1 e1 k1. bind_ok _ _ u1 k1 λ _ u2 e2 k2.
        bind_ok _ _ u2 k2 λ _ u3 e3 k3. bind_ok _ _ u3 k3 λ _ u4 e4 k4.
          bind_ok _ _ u4 k4 λ slot u5 e5 k5.
            let f0 = fail_if-ok (is_empty info.funds) _ s u0 _ e0 in
            let f1 = gets-ok _ u0 u1 c e1 in
            let f2 = fail_if-ok c.paused _ u1 u2 _ e2 in
            let f3 = fail_if-ok _ _ u2 u3 _ e3 in
            let f4 = fail_if-ok _ _ u3 u4 _ e4 in
            let f5 = lift-ok (next E req.interval env req.boundary) u4 u5 slot e5 in
            let same : u5 ≡ s = f5.1 ∙ f4.1 ∙ f3.1 ∙ f2.1 ∙ f1.1 ∙ f0.1 in
            let config : c ≡ s.config = f1.0 ∙ ap (λ (u : State E). u.config) f0.1 in
            let done = schedule_task-ok info env (task_of E info req) slot.0 slot.1 s t r (
              subst (λ u. schedule_task E info env (task_of E info req) slot u ≡ (ok r, t)) same
                k5) in
            (
              slot.0,
              slot.1,
              (λ e. ground (arith, f0.0)),
              ap (λ (x : Config). x.paused) (sym config) ∙ f2.0,
              ap
                    (λ (x : Config).
                      is_valid_msg (task_of E info req) env.contract_address info.sender x.owner_id)
                    (sym config)
                  ∙ not-false f3.0,
              not-false f4.0,
              f5.0,
              done.0,
              done.1,
              done.2,
              done.3,
              done.4,
              done.5,
              done.6,
            )
