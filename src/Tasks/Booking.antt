-- ===== src/Tasks/Booking.antt =====
-- `schedule_task`, of a creation (tasks.rs): exactly when it succeeds, and the state that it leaves.
use cw_croncat.Base.{
  ap, ◌∙◌, ℕ, ◌+◌, ◌<◌, ◌≡◌, ◌≢◌, refl, none, [], ◌∷◌, arith, eqb, eqb_iff, length,
}
use cw_croncat.Base.Outcome.{ok, ◌>>=◌, bind_ok, u64_mod, modify}
use cw_croncat.Base.Success.{fail_if-ok, pure-ok, gets-ok, lift-ok}
use cw_croncat.Types.{Task, SlotType, block, cron, Balance, GenericBalance}
use cw_croncat.Balance.{add_tokens}
use cw_croncat.External.{External}
use cw_croncat.State.{State, Env, MessageInfo, increment_tasks}
use cw_croncat.Response.{Response, response, text, number, kind}
use cw_croncat.Task.{to_hash, to_hash_vec}
use cw_croncat.Slots.{store_of, with_store, push_slot_item}
use cw_croncat.Slots.Pop.{push_slot_item-pushed, pushed_map}
use cw_croncat.Agent.{agents_to_let_in}
use cw_croncat.Tasks.Creation.{insert_task-ok, increment_tasks-ok}
use cw_croncat.Tasks.{begin_nomination, insert_task, account_task, schedule_task}

module _ (E : External) where
  -- The available balance, and the agents asked for, once a task is counted.
  pub record IsBooked (info : MessageInfo) (g : GenericBalance) (n : ℕ) (s : State E) : Type 0 where
    pub fits : s.task_total + 1 < u64_mod
    pub paid : add_tokens s.config.available_balance (Balance.native info.funds) ≡ ok g
    pub asked :
        agents_to_let_in s.config.min_tasks_per_agent
          (length s.agent_active_queue)
          (s.task_total + 1)
        ≡ ok n

  abbrev pub booked : Env → GenericBalance → ℕ → State E → State E
  booked env g n s = record s {
    task_total = s.task_total + 1;
    agent_nomination_begin_time = begin_nomination E n env.block_time s.agent_nomination_begin_time;
    config = record s.config { available_balance = g };
  }

  abbrev pub slotted : Task → ℕ → SlotType → State E → State E
  slotted item id k s =
      let hash = to_hash_vec E item in
      with_store E k (pushed_map E (store_of E k s) id hash)
        (record s { tasks = E.save s.tasks hash item })

  -- The response to a creation.
  abbrev pub created : Task → ℕ → SlotType → Response
  created item id k =
      response
        (("method", text "create_task")
          ∷ ("slot_id", number id)
          ∷ ("slot_kind", kind k)
          ∷ ("task_hash", text (to_hash E item))
          ∷ [])
        []

  pub schedule_task-returns :
      (info : MessageInfo) (env : Env) (item : Task) (id : ℕ) (k : SlotType) (g : GenericBalance)
      (n : ℕ) (s : State E)
      → id ≢ 0
      → E.may_load s.tasks (to_hash_vec E item) ≡ none
      → IsBooked info g n s
      → schedule_task E info env item (id, k) s
        ≡ (ok (created item id k), booked env g n (slotted item id k s))
  unfolding schedule_task insert_task account_task increment_tasks push_slot_item ◌>>=◌
  schedule_task-returns info env item id block g n s some_slot fresh b =
      ground (arith, eqb_iff id 0, b.fits, b.paid, b.asked)
  schedule_task-returns info env item id cron g n s some_slot fresh b =
      ground (arith, eqb_iff id 0, b.fits, b.paid, b.asked)

  two_changes :
      {S : Type 0} (f g : S → S) (s u : S) (x : Unit {0})
      → (modify f >>= λ _. modify g) s ≡ (ok x, u)
      → u ≡ g (f s)
  unfolding modify ◌>>=◌
  two_changes f g s u x h = ground arith

  account_task-accepts :
      (info : MessageInfo) (env : Env) (size : ℕ) (s u : State E) (x : Unit {0})
      → account_task E info env size s ≡ (ok x, u)
      → (g : GenericBalance) × (n : ℕ) × (add_tokens s.config.available_balance
            (Balance.native info.funds)
          ≡ ok g)
        × (agents_to_let_in s.config.min_tasks_per_agent (length s.agent_active_queue) size ≡ ok n)
        × (u ≡ record s {
          agent_nomination_begin_time =
              begin_nomination E n env.block_time s.agent_nomination_begin_time;
          config = record s.config { available_balance = g };
        })
  unfolding account_task
  account_task-accepts info env size s u x h = bind_ok _ _ s h λ c u0 e0 k0.
      bind_ok _ _ u0 k0 λ g u1 e1 k1. bind_ok _ _ u1 k1 λ active u2 e2 k2.
        bind_ok _ _ u2 k2 λ n u3 e3 k3.
          let f0 = gets-ok _ s u0 c e0 in
          let f1 = lift-ok _ u0 u1 g e1 in
          let f2 = gets-ok _ u1 u2 active e2 in
          let f3 = lift-ok _ u2 u3 n e3 in
          (
            g,
            n,
            ground (arith, f0, f1),
            ground (arith, f0, f1, f2, f3),
            two_changes _ _ u3 u x k3 ∙ ground (arith, f0, f1, f2, f3),
          )

  increment_tasks-fits :
      (s u : State E) (n : ℕ) → increment_tasks E s ≡ (ok n, u) → s.task_total + 1 < u64_mod
  unfolding increment_tasks ◌>>=◌
  increment_tasks-fits s u n h = ground arith

  -- A task that is stored, counted and slotted leaves the rest.
  slotted_rest :
      (item : Task) (id : ℕ) (k : SlotType) (s u : State E)
      → u ≡ record s {
        tasks = E.save s.tasks (to_hash_vec E item) item;
        task_total = s.task_total + 1;
      }
      → let v = with_store E k (pushed_map E (store_of E k u) id (to_hash_vec E item)) u in
        (v ≡ record (slotted item id k s) { task_total = (slotted item id k s).task_total + 1 })
        × (v.config ≡ s.config)
        × (v.agent_active_queue ≡ s.agent_active_queue)
  slotted_rest item id block s u e = rw e (refl, refl, refl)
  slotted_rest item id cron s u e = rw e (refl, refl, refl)

  pub schedule_task-accepts :
      (info : MessageInfo) (env : Env) (item : Task) (id : ℕ) (k : SlotType) (s t : State E)
      (r : Response)
      → schedule_task E info env item (id, k) s ≡ (ok r, t)
      → (g : GenericBalance) × (n : ℕ) × (id ≢ 0)
        × (E.may_load s.tasks (to_hash_vec E item) ≡ none)
        × IsBooked info g n s
        × (t ≡ booked env g n (slotted item id k s))
  unfolding schedule_task
  schedule_task-accepts info env item id k s t r h = bind_ok _ _ s h λ _ u0 e0 k0.
      bind_ok _ _ u0 k0 λ x1 u1 e1 k1. bind_ok _ _ u1 k1 λ n u2 e2 k2.
        bind_ok _ _ u2 k2 λ x3 u3 e3 k3. bind_ok _ _ u3 k3 λ x4 u4 e4 k4.
          let f0 = fail_if-ok (eqb id 0) _ s u0 _ e0 in
          let f1 = insert_task-ok E (to_hash_vec E item) item u0 u1 x1 e1 in
          let f2 = increment_tasks-ok E u1 u2 n e2 in
          let f3 = push_slot_item-pushed E k id (to_hash_vec E item) u2 in
          let (g, m, paid, asked, e) = account_task-accepts info env n u3 u4 x4 e4 in
          let f5 = pure-ok _ u4 t _ k4 in
          let counted : u2 ≡ record s {
            tasks = E.save s.tasks (to_hash_vec E item) item;
            task_total = s.task_total + 1;
          } =
            ground (arith, f0, f1, f2) in
          let (v, same, queue) = slotted_rest item id k s u2 counted in
          let stored : u3
              ≡ with_store E k (pushed_map E (store_of E k u2) id (to_hash_vec E item)) u2 =
            ground (arith, e3, f3) in
          (
            g,
            m,
            ground (arith, f0, eqb_iff id 0),
            ground (arith, f0, f1),
            record {
              fits = ground (arith, f0, f1, f2, increment_tasks-fits u1 u2 n e2);
              paid = ground (arith, stored, same, paid);
              asked = ground (arith, stored, same, queue, asked, f0, f1, f2);
            },
            f5
                ∙ e
                ∙ ap
                    (λ (v : State E). record v {
                      config = record v.config { available_balance = g };
                      agent_nomination_begin_time =
                          begin_nomination E m env.block_time v.agent_nomination_begin_time;
                    })
                    (stored ∙ v),
          )
