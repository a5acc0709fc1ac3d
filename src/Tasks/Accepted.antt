-- ===== src/Tasks/Accepted.antt =====
-- `create_task` (tasks.rs): exactly when it succeeds, and the state that it leaves.
use cw_croncat.Base.{sym, ◌∙◌, ℕ, ◌+◌, ◌≡◌, ◌≢◌, ◌↔◌, refl, true, false, none, [], arith}
use cw_croncat.Base.Outcome.{◌>>=◌, ok}
use cw_croncat.Types.{Task, TaskRequest, SlotType, block, cron, GenericBalance}
use cw_croncat.External.{External}
use cw_croncat.State.{State, Env, MessageInfo}
use cw_croncat.Response.{Response}
use cw_croncat.Interval.{next, is_valid}
use cw_croncat.Task.{to_hash_vec, is_valid_msg}
use cw_croncat.Tasks.Creation.{create_task-success}
use cw_croncat.Tasks.{task_of, begin_nomination, schedule_task, create_task}
use cw_croncat.Tasks.Booking.{
  IsBooked, booked, slotted, created, schedule_task-returns, schedule_task-accepts,
}

-- The task that a request of a sender asks for, with the funds as its deposit.
abbrev pub as_asked : MessageInfo → TaskRequest → Task
as_asked info req = record {
  owner_id = info.sender;
  interval = req.interval;
  boundary = req.boundary;
  stop_on_fail = req.stop_on_fail;
  total_deposit = info.funds;
  actions = req.actions;
  rules = req.rules;
}

module _ (E : External) where
  create_task-schedule :
      (info : MessageInfo) (env : Env) (req : TaskRequest) (id : ℕ) (k : SlotType) (s : State E)
      → info.funds ≢ []
      → s.config.paused ≡ false
      → is_valid_msg (task_of E info req) env.contract_address info.sender s.config.owner_id ≡ true
      → is_valid E req.interval ≡ true
      → next E req.interval env req.boundary ≡ ok (id, k)
      → create_task E info env req s ≡ schedule_task E info env (task_of E info req) (id, k) s
  unfolding create_task ◌>>=◌
  create_task-schedule info env req id k s funds running known valid slot = ground arith

  -- All that a creation asks for, and the slot, the balance and the number of agents it comes to.
  pub record Acceptance (info : MessageInfo) (env : Env) (req : TaskRequest) (s : State E)
      : Type 0 where
    pub kind : SlotType
    pub id : ℕ
    pub balance : GenericBalance
    pub agents : ℕ
    pub funds : info.funds ≢ []
    pub running : s.config.paused ≡ false
    pub known :
        is_valid_msg (as_asked info req) env.contract_address info.sender s.config.owner_id ≡ true
    pub valid : is_valid E req.interval ≡ true
    pub slot : next E req.interval env req.boundary ≡ ok (id, kind)
    pub some_slot : id ≢ 0
    pub fresh : E.may_load s.tasks (to_hash_vec E (as_asked info req)) ≡ none
    pub booking : IsBooked E info balance agents s

  abbrev pub accepted :
      (info : MessageInfo) (env : Env) (req : TaskRequest) (s : State E)
      → Acceptance info env req s
      → State E
  accepted info env req s a =
      booked E env a.balance a.agents (slotted E (as_asked info req) a.id a.kind s)

  pub create_task-returns :
      (info : MessageInfo) (env : Env) (req : TaskRequest) (s : State E)
      → (a : Acceptance info env req s)
      → create_task E info env req s
        ≡ (ok (created E (as_asked info req) a.id a.kind), accepted info env req s a)
  create_task-returns info env req s a =
      create_task-schedule info env req a.id a.kind s a.funds a.running a.known a.valid a.slot
      ∙ schedule_task-returns E info env (as_asked info req) a.id a.kind a.balance a.agents s
          a.some_slot a.fresh a.booking

  pub create_task-accepts :
      (info : MessageInfo) (env : Env) (req : TaskRequest) (s t : State E) (r : Response)
      → create_task E info env req s ≡ (ok r, t)
      → (a : Acceptance info env req s) × (t ≡ accepted info env req s a)
  create_task-accepts info env req s t r h =
      let (id, k, funds, running, known, valid, slot, _, _, _, _, _, _, _) =
        create_task-success E info env req s t r h in
      let (g, n, some_slot, fresh, booking, left) =
        schedule_task-accepts E info env (as_asked info req) id k s t r
          (sym (create_task-schedule info env req id k s funds running known valid slot) ∙ h) in
      (
        record {
          kind = k;
          id = id;
          balance = g;
          agents = n;
          funds = funds;
          running = running;
          known = known;
          valid = valid;
          slot = slot;
          some_slot = some_slot;
          fresh = fresh;
          booking = booking;
        },
        left,
      )

  -- A creation succeeds exactly when it comes with funds, the contract is not paused, the messages of
  -- its task are supported, its interval is valid and has a next slot other than 0, no task has its
  -- hash, the count of tasks grows within 64 bits, the funds can be added to the available balance,
  -- and the agents to let in can be counted. It then answers with the method, the slot and the hash,
  -- and changes the storage by that task, its hash at the end of that slot, the count, the available
  -- balance, and the nomination time if there was none and agents are to be let in.
  pub create_task_iff :
      (info : MessageInfo) (env : Env) (req : TaskRequest) (s t : State E) (r : Response)
      → (create_task E info env req s ≡ (ok r, t)) ↔ (
          (a : Acceptance info env req s) × (t ≡ accepted info env req s a)
          × (r ≡ created E (as_asked info req) a.id a.kind))
  create_task_iff info env req s t r = (
    λ h.
        let (a, e) = create_task-accepts info env req s t r h in
        (a, e, ground (arith, h, create_task-returns info env req s a)),
    λ (a, e, f). create_task-returns info env req s a ∙ ground (arith, e, f),
  )

  -- What a creation leaves of the parts that are not slots.
  pub booked_parts :
      (env : Env) (item : Task) (id : ℕ) (k : SlotType) (g : GenericBalance) (n : ℕ) (s : State E)
      → let t = booked E env g n (slotted E item id k s) in
        (t.config ≡ record s.config { available_balance = g })
        × (t.tasks ≡ E.save s.tasks (to_hash_vec E item) item)
        × (t.task_total ≡ s.task_total + 1)
        × (t.agent_nomination_begin_time
            ≡ begin_nomination E n env.block_time s.agent_nomination_begin_time)
        × (t.agent_active_queue ≡ s.agent_active_queue)
        × (t.agent_pending_queue ≡ s.agent_pending_queue)
        × (t.agents ≡ s.agents)
        × (t.reply_queue ≡ s.reply_queue)
        × (t.reply_index ≡ s.reply_index)
  booked_parts env item id block g n s = (refl, refl, refl, refl, refl, refl, refl, refl, refl)
  booked_parts env item id cron g n s = (refl, refl, refl, refl, refl, refl, refl, refl, refl)
