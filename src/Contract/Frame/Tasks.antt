-- ===== src/Contract/Frame/Tasks.antt =====
-- The handlers that write tasks and slots: tasks.rs, slots.rs, and the replies of manager.rs.
use cw_croncat.Base.{ℕ, Option-cases, inl, inr}
use cw_croncat.Base.Outcome.{M, gets, ◌>>=◌}
use cw_croncat.Base.Keeps.{Keeps, keeps_rules}
use cw_croncat.Types.{GenericBalance, Task, TaskHash, TaskRequest, SlotType, block, cron}
use cw_croncat.External.{External}
use cw_croncat.State.{State, Config, Env, MessageInfo, increment_tasks}
use cw_croncat.Response.{Response}
use cw_croncat.Slots.{Slots, pop_slot_item, push_slot_item}
use cw_croncat.Tasks.{
  begin_nomination, insert_task, account_task, schedule_task, create_task, remove_task, refill_task,
}
use cw_croncat.Manager.{Reply, next_hash, exit_task, reschedule, proxy_callback}
use cw_croncat.Manager.Attempt.{Keeps-attempt}
use cw_croncat.Contract.Frame.{TaskFrame}

module _ (E : External) {P : State E → Type 0} (F : TaskFrame E P) where
  load :
      {B : Type 0} (f : Config → M (State E) B)
      → ((c : Config) → F.balances.Q c → Keeps P (f c))
      → Keeps P (gets (λ s. s.config) >>= f)
  load = F.balances.load

  save_balance :
      (c : Config) (g : GenericBalance) (s : State E)
      → F.balances.Q c
      → P s
      → P (record s { config = record c { available_balance = g } })
  save_balance = F.balances.save_balance

  save_tasks : (m : E.TextMap Task) (s : State E) → P s → P (record s { tasks = m })
  save_tasks = F.save_tasks

  save_total : (n : ℕ) (s : State E) → P s → P (record s { task_total = n })
  save_total = F.save_total

  save_times : (m : Slots E) (s : State E) → P s → P (record s { time_slots = m })
  save_times = F.save_times

  save_blocks : (m : Slots E) (s : State E) → P s → P (record s { block_slots = m })
  save_blocks = F.save_blocks

  begin :
      (n : ℕ) (env : Env) (s : State E)
      → F.Now env
      → P s
      → P (record s {
        agent_nomination_begin_time =
            begin_nomination E n env.block_time s.agent_nomination_begin_time;
      })
  begin = F.begin

  ruleset frame_rules =
      (load, keeps_rules, save_balance, save_tasks, save_total, save_times, save_blocks)

  increment_tasks-keep : Keeps P (increment_tasks E)
  unfolding increment_tasks
  increment_tasks-keep = search frame_rules depth 14

  push_slot_item-keep : (i : ℕ) (k : SlotType) (h : TaskHash) → Keeps P (push_slot_item E i k h)
  unfolding push_slot_item
  push_slot_item-keep i block h = search frame_rules depth 14
  push_slot_item-keep i cron h = search frame_rules depth 14

  pop_slot_item-keep : (i : ℕ) (k : SlotType) → Keeps P (pop_slot_item E i k)
  unfolding pop_slot_item
  pop_slot_item-keep i block = search frame_rules depth 14
  pop_slot_item-keep i cron = search frame_rules depth 14

  insert_task-keep : (h : TaskHash) (t : Task) → Keeps P (insert_task E h t)
  unfolding insert_task
  insert_task-keep h t = record {
    at = λ s p. elim (Option-cases (E.may_load s.tasks h)) [
      | inl e ↦ rw (e, insert_task) (F.save_tasks _ s p)
      | inr (_, e) ↦ rw (e, insert_task) p
    ];
  }

  account_task-keep :
      (info : MessageInfo) (env : Env) (n : ℕ) → F.Now env → Keeps P (account_task E info env n)
  unfolding account_task
  account_task-keep info env n now = search (frame_rules, begin, now) depth 14

  schedule_task-keep :
      (info : MessageInfo) (env : Env) (t : Task) (slot : ℕ × SlotType)
      → F.Now env
      → Keeps P (schedule_task E info env t slot)
  unfolding schedule_task
  schedule_task-keep info env t slot now =
      search
        (
          frame_rules, increment_tasks-keep, push_slot_item-keep, insert_task-keep,
          account_task-keep, now,
        )
        depth 14

  pub create_task-keep :
      (info : MessageInfo) (env : Env) (r : TaskRequest)
      → F.Now env
      → Keeps P (create_task E info env r)
  unfolding create_task
  create_task-keep info env r now = search (frame_rules, schedule_task-keep, now) depth 14

  pub remove_task-keep : (h : TaskHash) → Keeps P (remove_task E h)
  unfolding remove_task
  remove_task-keep h = search frame_rules depth 14

  pub refill_task-keep : (info : MessageInfo) (h : TaskHash) → Keeps P (refill_task E info h)
  unfolding refill_task
  refill_task-keep info h = search frame_rules depth 14

  pub next_hash-keep : (env : Env) → Keeps P (next_hash E env)
  unfolding next_hash
  next_hash-keep env = search (frame_rules, pop_slot_item-keep) depth 14

  exit_task-keep : (r : Response) (h : TaskHash) → Keeps P (exit_task E r h)
  unfolding exit_task
  exit_task-keep r h = search (frame_rules, Keeps-attempt, remove_task-keep) depth 14

  reschedule-keep :
      (r : Response) (t : Task) (slot : ℕ × SlotType) → Keeps P (reschedule E r t slot)
  unfolding reschedule
  reschedule-keep r t slot = search (frame_rules, exit_task-keep, push_slot_item-keep) depth 14

  pub proxy_callback-keep :
      (env : Env) (msg : Reply) (h : TaskHash) → Keeps P (proxy_callback E env msg h)
  unfolding proxy_callback
  proxy_callback-keep env msg h = search (frame_rules, exit_task-keep, reschedule-keep) depth 14
