-- ===== src/Manager/Service.antt =====
-- From `create_task` (tasks.rs) to the `proxy_call` (manager.rs) that can run the task.
use cw_croncat.Base.{
  ap, sym, subst, ℕ, ◌+◌, ◌≤◌, ◌<◌, ◌≡◌, ◌≢◌, true, false, Option, none, some, List, [], arith,
  contains, eqb_iff,
}
use cw_croncat.Base.Outcome.{ok, u64_mod}
use cw_croncat.Types.{Agent, TaskRequest, TaskHash, SlotType, block, cron}
use cw_croncat.External.{External}
use cw_croncat.State.{State, Env, MessageInfo}
use cw_croncat.Response.{Response}
use cw_croncat.Interval.{next}
use cw_croncat.Task.{to_hash_vec}
use cw_croncat.Slots.{Slots, store_of, pushed, get_current_slot_items}
use cw_croncat.Slots.Current.{IsCurrent, get_current_slot_items-IsCurrent}
use cw_croncat.Tasks.{create_task, task_of}
use cw_croncat.Tasks.Catalog.{IsCataloged}
use cw_croncat.Tasks.Creation.{create_task-success}
use cw_croncat.Tasks.Filing.{create_task-IsCataloged}
use cw_croncat.Manager.{proxy_call}
use cw_croncat.Manager.Serving.{proxy_call-serves}

-- What a slot of a kind is measured by: the height or the time of the block.
abbrev pub now_of : SlotType → Env → ℕ
now_of block env = env.block_height
now_of cron env = env.block_time

module _ (E : External) where
  -- A stored slot whose time has come is found, or an earlier one.
  stored-due :
      (m : Slots E) (now id : ℕ) (hs : List TaskHash) (o : Option ℕ)
      → IsCurrent E m now o
      → E.may_load_slot m id ≡ some hs
      → id ≤ now
      → o ≢ none
  stored-due m now id hs none c e come n = absurd (omega (arith, c id hs e))
  stored-due m now id hs (some k) c e come n = absurd (ground arith)

  pub some_due :
      (kind : SlotType) (env : Env) (s : State E) (id : ℕ) (hs : List TaskHash)
      → E.may_load_slot (store_of E kind s) id ≡ some hs
      → id ≤ now_of kind env
      → get_current_slot_items E env (some 1) s ≢ (none, none)
  some_due block env s id hs e come n =
      let current = get_current_slot_items-IsCurrent E env (some 1) s (λ x. ground arith) in
      stored-due s.block_slots env.block_height id hs _ current.0 e come
        (ap (λ (x : Option ℕ × Option ℕ). x.0) n)
  some_due cron env s id hs e come n =
      let current = get_current_slot_items-IsCurrent E env (some 1) s (λ x. ground arith) in
      stored-due s.time_slots env.block_time id hs _ current.1 e come
        (ap (λ (x : Option ℕ × Option ℕ). x.1) n)

  -- Where catalog and slots agree, and a task is created, any call that an active agent makes from the
  -- task's slot on, with no step between, succeeds: without funds, while the contract is not paused
  -- and holds native coins, and where the next reply id fits a word.
  pub create_task-proxy_call :
      (info caller : MessageInfo) (env later : Env) (req : TaskRequest) (agent : Agent)
      (s t : State E) (r : Response) (id : ℕ) (kind : SlotType)
      → IsCataloged E s
      → create_task E info env req s ≡ (ok r, t)
      → next E req.interval env req.boundary ≡ ok (id, kind)
      → id ≤ now_of kind later
      → caller.funds ≡ []
      → t.config.paused ≡ false
      → t.config.available_balance.native_coins ≢ []
      → E.may_load t.agents caller.sender ≡ some agent
      → contains t.agent_active_queue caller.sender ≡ true
      → t.reply_index + 1 < u64_mod
      → (r' : Response) × (u : State E) × (proxy_call E caller later t ≡ (ok r', u))
  create_task-proxy_call info caller env later req agent s t r id kind c created slot come funds
        running covered found queued fits =
      let hash = to_hash_vec E (task_of E info req) in
      let (i, k, _, _, _, _, scheduled, _, _, _, _, filed, _, _) =
        create_task-success E info env req s t r created in
      let same_id : i ≡ id = ground arith in
      let same_kind : k ≡ kind = ground arith in
      let hs = pushed E (E.may_load_slot (store_of E k s) i) hash in
      let stored : E.may_load_slot (store_of E k t) i ≡ some hs =
        ground (arith, filed, E.may_load_slot-save_slot (store_of E k s) i i hs, eqb_iff i i) in
      let agrees : IsCataloged E t =
        subst (λ x. IsCataloged E x.1) created ((create_task-IsCataloged E info env req).at s c) in
      proxy_call-serves E caller later agent t agrees funds running covered found queued fits
        (some_due kind later t id hs (rw (sym same_id, sym same_kind) stored) come)
