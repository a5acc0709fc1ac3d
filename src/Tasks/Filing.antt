-- ===== src/Tasks/Filing.antt =====
-- The handlers of tasks.rs against the agreement of catalog and slots.
use cw_croncat.Base.{ℕ, ◌≡◌, ◌≢◌, ◌⊎◌, refl, none, List, arith, eq_iff, Option-cases, inl, inr}
use cw_croncat.Base.Outcome.{ok, err, M, ◌>>=◌, gets, modify, or_fail, ContractError, custom_error}
use cw_croncat.Base.Keeps.{Keeps, keeps_rules, Keeps-modify_thrice, Leads, Leads-Keeps}
use cw_croncat.Types.{Coin, Task, TaskHash, TaskRequest, SlotType, block, cron}
use cw_croncat.External.{External}
use cw_croncat.State.{State, Env, MessageInfo, increment_tasks}
use cw_croncat.Slots.{push_slot_item}
use cw_croncat.Task.{to_hash_vec}
use cw_croncat.Tasks.{
  insert_task, account_task, schedule_task, create_task, remove_task, refill_task, refill_coins,
}
use cw_croncat.Tasks.Removal.{cleared}
use cw_croncat.Tasks.Catalog.{
  IsCataloged, IsKeyed-save, IsKeyed-remove, IsFiled-save, IsFiled-pushed, IsFiled-cleared,
}

-- A loaded value may be used with the state that it is loaded from.
pub Keeps-loaded :
    {S A B : Type 0} {P : S → Type 0} (f : S → A) (k : A → M S B)
    → ((s : S) → P s → P (k (f s) s).1)
    → Keeps P (gets f >>= k)
unfolding gets ◌>>=◌
Keeps-loaded f k h = record { at = h }

module _ (E : External) where
  abbrev P : State E → Type 0
  P = IsCataloged E

  -- The agreement, with a task under a given hash.
  abbrev pub Holds : TaskHash → State E → Type 0
  Holds h s = IsCataloged E s × (E.may_load s.tasks h ≢ none)

  pub push_slot_item-Holds :
      (h : TaskHash) (id : ℕ) (kind : SlotType) → Keeps (Holds h) (push_slot_item E id kind h)
  unfolding push_slot_item modify
  push_slot_item-Holds h id block = record {
    at = λ s p. ((p.0.0, IsFiled-pushed E s.tasks s.block_slots id h p.1 p.0.1, p.0.2), p.1);
  }
  push_slot_item-Holds h id cron = record {
    at = λ s p. ((p.0.0, p.0.1, IsFiled-pushed E s.tasks s.time_slots id h p.1 p.0.2), p.1);
  }

  inserted : Task → State E → State E
  inserted item s = record s { tasks = E.save s.tasks (to_hash_vec E item) item }

  insert_task-cases :
      (item : Task) (s : State E)
      → (insert_task E (to_hash_vec E item) item s ≡ (err (custom_error "Task already exists"), s))
        ⊎ (insert_task E (to_hash_vec E item) item s ≡ (ok tt, inserted item s))
  unfolding insert_task inserted
  insert_task-cases item s = elim (Option-cases (E.may_load s.tasks (to_hash_vec E item))) [
    | inl e ↦ inr (rw (e, insert_task))
    | inr (t, e) ↦ inl (rw (e, insert_task))
  ]

  inserted-Holds : (item : Task) (s : State E) → P s → Holds (to_hash_vec E item) (inserted item s)
  unfolding inserted
  inserted-Holds item s p =
      let h = to_hash_vec E item in
      (
        (
          IsKeyed-save E s.tasks h item refl p.0,
          IsFiled-save E s.tasks h item s.block_slots p.1,
          IsFiled-save E s.tasks h item s.time_slots p.2,
        ),
        λ e. ground (arith, E.may_load-save s.tasks h h item, eq_iff h h),
      )

  Keeps-inserted :
      {B : Type 0} (item : Task) (k : Unit {0} → M (State E) B)
      → ((a : Unit {0}) → Keeps (Holds (to_hash_vec E item)) (k a))
      → Keeps P (insert_task E (to_hash_vec E item) item >>= k)
  unfolding ◌>>=◌
  Keeps-inserted item k h = record {
    at = λ s p. elim (insert_task-cases item s) [
      | inl e ↦ rw e p
      | inr e ↦ rw e (((h tt).at (inserted item s) (inserted-Holds item s p)).0)
    ];
  }

  increment_tasks-Holds : (h : TaskHash) → Keeps (Holds h) (increment_tasks E)
  unfolding increment_tasks
  increment_tasks-Holds h = search keeps_rules depth 14

  account_task-Holds :
      (h : TaskHash) (info : MessageInfo) (env : Env) (n : ℕ)
      → Keeps (Holds h) (account_task E info env n)
  unfolding account_task
  account_task-Holds h info env n = search keeps_rules depth 14

  schedule_task-IsCataloged :
      (info : MessageInfo) (env : Env) (item : Task) (slot : ℕ × SlotType)
      → Keeps P (schedule_task E info env item slot)
  unfolding schedule_task
  schedule_task-IsCataloged info env item slot =
      search
        (
          Keeps-inserted, keeps_rules, increment_tasks-Holds, account_task-Holds,
          push_slot_item-Holds,
        )
        depth 14

  pub create_task-IsCataloged :
      (info : MessageInfo) (env : Env) (r : TaskRequest) → Keeps P (create_task E info env r)
  unfolding create_task
  create_task-IsCataloged info env r = search (keeps_rules, schedule_task-IsCataloged) depth 14

  cleared-IsCataloged : (h : TaskHash) (s : State E) → P s → P (cleared E h s)
  cleared-IsCataloged h s p = (
    IsKeyed-remove E s.tasks h p.0,
    IsFiled-cleared E s.tasks h s.block_slots p.1,
    IsFiled-cleared E s.tasks h s.time_slots p.2,
  )

  pub remove_task-IsCataloged : (h : TaskHash) → Keeps P (remove_task E h)
  unfolding remove_task
  remove_task-IsCataloged h =
      search (Keeps-modify_thrice, cleared-IsCataloged, keeps_rules) depth 14

  -- A task that is loaded by its hash has that hash, and the catalog holds it.
  pub Keeps-loaded_task :
      {B : Type 0} (h : TaskHash) (e : ContractError) (k : Task → M (State E) B)
      → ((t : Task) → to_hash_vec E t ≡ h → Leads (Holds h) P (k t))
      → Keeps P (gets (λ s. E.may_load s.tasks h) >>= λ o. or_fail o e >>= k)
  unfolding or_fail ◌>>=◌
  Keeps-loaded_task h e k keep =
      Keeps-loaded (λ s. E.may_load s.tasks h) (λ o. or_fail o e >>= k)
        λ s p. elim (Option-cases (E.may_load s.tasks h)) [
          | inl n ↦ rw n p
          | inr (t, n) ↦ rw n ((keep t (p.0 h t n)).at s (p, λ m. ground arith))
        ]

  Keeps-loaded_hash :
      {B : Type 0} (h : TaskHash) (e : ContractError) (k : Task → M (State E) B)
      → ((t : Task) → to_hash_vec E t ≡ h → Keeps P (k t))
      → Keeps P (gets (λ s. E.may_load s.tasks h) >>= λ o. or_fail o e >>= k)
  Keeps-loaded_hash h e k keep =
      Keeps-loaded_task h e k λ t hash. Leads-Keeps P (k t) (λ s p. p.0) (λ s p. p) (keep t hash)

  refilled-IsCataloged :
      (h : TaskHash) (t : Task) (cs : List Coin) (s : State E)
      → to_hash_vec E t ≡ h
      → P s
      → P (record s { tasks = E.save s.tasks h (record t { total_deposit = cs }) })
  unfolding to_hash_vec
  refilled-IsCataloged h t cs s e p =
      let u = record t { total_deposit = cs } in
      (
        IsKeyed-save E s.tasks h u e p.0,
        IsFiled-save E s.tasks h u s.block_slots p.1,
        IsFiled-save E s.tasks h u s.time_slots p.2,
      )

  pub refill_task-IsCataloged : (info : MessageInfo) (h : TaskHash) → Keeps P (refill_task E info h)
  unfolding refill_task
  refill_task-IsCataloged info h = Keeps-loaded_hash h _ _ λ t e.
      search
        (
          keeps_rules,
          λ (u : State E). refilled-IsCataloged h t (refill_coins t.total_deposit info.funds) u e,
        )
        depth 14
