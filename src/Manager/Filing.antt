-- ===== src/Manager/Filing.antt =====
-- `proxy_call` and `proxy_callback` (manager.rs) against the agreement of catalog and slots.
use cw_croncat.Base.{subst, ℕ, ◌≡◌, Option, none, some, eqb}
use cw_croncat.Base.Outcome.{ContractError}
use cw_croncat.Base.Keeps.{Keeps, keeps_rules, Leads, Leads-Keeps, Leads-if, Leads-lift}
use cw_croncat.Types.{Agent, Task, TaskHash, SlotType, block, cron}
use cw_croncat.External.{External}
use cw_croncat.State.{State, Env, MessageInfo, rq_next_id, rq_push}
use cw_croncat.Response.{Response}
use cw_croncat.Slots.{pop_slot_item}
use cw_croncat.Slots.Pop.{pop_slot_item-popped}
use cw_croncat.Task.{to_hash_vec}
use cw_croncat.Tasks.Catalog.{IsCataloged, IsFiled-popped}
use cw_croncat.Tasks.Filing.{
  Holds, push_slot_item-Holds, remove_task-IsCataloged, Keeps-loaded_task,
}
use cw_croncat.Manager.{
  Reply, send_base_agent_reward, next_hash, run_task, reward_and_fail, run_found, serve_slot,
  proxy_call, exit_task, reschedule, proxy_callback,
}
use cw_croncat.Manager.Attempt.{Keeps-attempt}

module _ (E : External) where
  abbrev P : State E → Type 0
  P = IsCataloged E

  pub pop_slot_item-IsCataloged : (id : ℕ) (kind : SlotType) → Keeps P (pop_slot_item E id kind)
  pop_slot_item-IsCataloged id block = record {
    at = λ s p.
        rw (pop_slot_item-popped E block id s)
          (p.0, IsFiled-popped E s.tasks s.block_slots id p.1, p.2);
  }
  pop_slot_item-IsCataloged id cron = record {
    at = λ s p.
        rw (pop_slot_item-popped E cron id s)
          (p.0, p.1, IsFiled-popped E s.tasks s.time_slots id p.2);
  }

  pub next_hash-IsCataloged : (env : Env) → Keeps P (next_hash E env)
  unfolding next_hash
  next_hash-IsCataloged env = search (keeps_rules, pop_slot_item-IsCataloged) depth 14

  reward-IsCataloged :
      (agent : Agent) (info : MessageInfo) (e : ContractError)
      → Keeps P (reward_and_fail E agent info e)
  unfolding reward_and_fail send_base_agent_reward
  reward-IsCataloged agent info e = search keeps_rules depth 14

  run_task-IsCataloged :
      (info : MessageInfo) (env : Env) (id : ℕ) (h : TaskHash) (t : Task)
      → Keeps P (run_task E info env id h t)
  unfolding run_task rq_next_id rq_push
  run_task-IsCataloged info env id h t = search keeps_rules depth 14

  run_found-IsCataloged :
      (info : MessageInfo) (env : Env) (agent : Agent) (found : Option (ℕ × Option TaskHash))
      → Keeps P (run_found E info env agent found)
  unfolding run_found
  run_found-IsCataloged info env agent none = reward-IsCataloged _ _ _
  run_found-IsCataloged info env agent (some (id, none)) = reward-IsCataloged _ _ _
  run_found-IsCataloged info env agent (some (id, some h)) =
      search (keeps_rules, run_task-IsCataloged, reward-IsCataloged) depth 14

  pub proxy_call-IsCataloged : (info : MessageInfo) (env : Env) → Keeps P (proxy_call E info env)
  unfolding proxy_call serve_slot
  proxy_call-IsCataloged info env =
      search (keeps_rules, next_hash-IsCataloged, run_found-IsCataloged) depth 16

  exit_task-IsCataloged : (r : Response) (h : TaskHash) → Keeps P (exit_task E r h)
  unfolding exit_task
  exit_task-IsCataloged r h = search (keeps_rules, Keeps-attempt, remove_task-IsCataloged) depth 14

  -- A task of the catalog goes to its next slot, or out of the catalog.
  reschedule-Leads :
      (r : Response) (t : Task) (slot : ℕ × SlotType)
      → Leads (Holds E (to_hash_vec E t)) P (reschedule E r t slot)
  unfolding reschedule
  reschedule-Leads r t (id, kind) =
      Leads-if (eqb id 0) _ _
        (Leads-Keeps P _ (λ s p. p.0) (λ s p. p)
          (search (keeps_rules, exit_task-IsCataloged) depth 14))
        (Leads-Keeps (Holds E (to_hash_vec E t)) _ (λ s p. p) (λ s p. p.0)
          (search (keeps_rules, push_slot_item-Holds) depth 14))

  reschedule_loaded :
      (r : Response) (t : Task) (h : TaskHash) (slot : ℕ × SlotType)
      → to_hash_vec E t ≡ h
      → Leads (Holds E h) P (reschedule E r t slot)
  reschedule_loaded r t h slot e =
      subst (λ x. Leads (Holds E x) P (reschedule E r t slot)) e (reschedule-Leads r t slot)

  pub proxy_callback-IsCataloged :
      (env : Env) (msg : Reply) (h : TaskHash) → Keeps P (proxy_callback E env msg h)
  unfolding proxy_callback
  proxy_callback-IsCataloged env msg h = Keeps-loaded_task E h _ _ λ t e.
      Leads-if _ _ _ (Leads-Keeps P _ (λ s p. p.0) (λ s p. p) (exit_task-IsCataloged _ _))
        (Leads-lift _ _ (λ s p. p.0) λ slot. reschedule_loaded _ t h slot e)
