-- ===== src/Contract/Agenda.antt =====
-- The contract as a keeper of an agenda: what each message and each reply makes of it.
use cw_croncat.Base.{ap, ◌∙◌, ℕ, ◌≡◌, ◌≢◌, refl, true, arith, inl, inr, subst, Bool-cases}
use cw_croncat.Base.Outcome.{ok, bind_ok, M}
use cw_croncat.Base.Keeps.{Keeps, keeps_rules, commit, commit-Keeps}
use cw_croncat.Base.Success.{commit-ok, lift-ok, pure-ok}
use cw_croncat.Types.{TaskHash, TaskRequest, SlotType, block, cron}
use cw_croncat.External.{External}
use cw_croncat.State.{State, Env, MessageInfo, QueueItem}
use cw_croncat.Messages.{ExecuteMsg}
use cw_croncat.Response.{Response}
use cw_croncat.Interval.{next}
use cw_croncat.Task.{to_hash_vec}
use cw_croncat.Slots.{Slots, store_of, with_store}
use cw_croncat.Slots.Pop.{pushed_map}
use cw_croncat.Agent.{Querier}
use cw_croncat.Tasks.{task_of, create_task, remove_task, refill_task}
use cw_croncat.Tasks.Creation.{create_task-success}
use cw_croncat.Tasks.Removal.{remove_task-state}
use cw_croncat.Tasks.Agenda.{
  Agenda, file, strike, agenda, agenda-pushed, agenda-cleared, agenda_same,
}
use cw_croncat.Manager.{Reply, proxy_call}
use cw_croncat.Manager.Replies.{reply-answer}
use cw_croncat.Manager.Agenda.{IsAnswered, proxy_call-agenda, proxy_callback-agenda}
use cw_croncat.Contract.{execute, reply, answer, is_address, unwrap_hash}
use cw_croncat.Contract.Work.{Work, is_idle, execute-work}
use cw_croncat.Contract.Reach.{Step}

-- What a delivery may do to the agenda.
pub data Label : Type 0 where
  resting filing serving settling : Label
  striking : TaskHash → Label

pub data Plan : Label → Agenda → Agenda → Type 0 where
  rests : {l : Label} {a b : Agenda} → b ≡ a → Plan l a b
  files :
      {a b : Agenda} (kind : SlotType) (id : ℕ) (h : TaskHash)
      → b ≡ file kind id h a
      → Plan filing a b
  strikes : {a b : Agenda} (h : TaskHash) → b ≡ strike h a → Plan (striking h) a b
  -- A filing undone.
  serves :
      {a b : Agenda} (kind : SlotType) (id : ℕ) (h : TaskHash)
      → a ≡ file kind id h b
      → Plan serving a b
  ends : {a b : Agenda} (h : TaskHash) → b ≡ strike h a → Plan settling a b
  goes_on :
      {a b : Agenda} (kind : SlotType) (id : ℕ) (h : TaskHash)
      → b ≡ file kind id h a
      → Plan settling a b

abbrev pub message_label : ExecuteMsg → Label
message_label (ExecuteMsg.create_task t) = filing
message_label (ExecuteMsg.remove_task h) = striking h
message_label ExecuteMsg.proxy_call = serving
message_label (ExecuteMsg.refill_task_balance h) = resting
message_label (ExecuteMsg.update_settings p) = resting
message_label (ExecuteMsg.move_balances bs a) = resting
message_label (ExecuteMsg.register_agent a) = resting
message_label (ExecuteMsg.update_agent a) = resting
message_label ExecuteMsg.check_in_agent = resting
message_label ExecuteMsg.unregister_agent = resting
message_label ExecuteMsg.withdraw_reward = resting

module _ (E : External) where
  abbrev pub label : {s t : State E} → Step E s t → Label
  label (Step.message q env info msg) = message_label msg
  label (Step.replied env msg) = settling

  -- What a creation files.
  pub create_task-agenda :
      (info : MessageInfo) (env : Env) (req : TaskRequest) (s t : State E) (r : Response)
      → create_task E info env req s ≡ (ok r, t)
      → (kind : SlotType) × (id : ℕ) × (next E req.interval env req.boundary ≡ ok (id, kind))
        × (agenda E t ≡ file kind id (to_hash_vec E (task_of E info req)) (agenda E s))
  create_task-agenda info env req s t r h =
      let done = create_task-success E info env req s t r h in
      (
        done.1,
        done.0,
        done.6,
        slotted done.1 done.0 (to_hash_vec E (task_of E info req)) done.11 done.12,
      )
    where
      slotted :
          (kind : SlotType) (id : ℕ) (hash : TaskHash)
          → store_of E kind t ≡ pushed_map E (store_of E kind s) id hash
          → ((other : SlotType) → other ≢ kind → store_of E other t ≡ store_of E other s)
          → agenda E t ≡ file kind id hash (agenda E s)
      slotted block id hash e f =
          agenda_same E (with_store E block (pushed_map E s.block_slots id hash) s) t e
            (f cron (λ x. ground arith))
          ∙ agenda-pushed E block id hash s
      slotted cron id hash e f =
          agenda_same E (with_store E cron (pushed_map E s.time_slots id hash) s) t
            (f block (λ x. ground arith)) e
          ∙ agenda-pushed E cron id hash s

  remove_task-agenda :
      (h : TaskHash) (s t : State E) (r : Response)
      → remove_task E h s ≡ (ok r, t)
      → agenda E t ≡ strike h (agenda E s)
  remove_task-agenda h s t r e =
      let (_, _, after, _, _) = remove_task-state E h s t r e in
      agenda-cleared E h s t (ap (λ (u : State E). u.block_slots) after)
        (ap (λ (u : State E). u.time_slots) after)

  answer-agenda :
      (env : Env) (msg : Reply) (item : QueueItem) (s t : State E) (r : Response)
      → answer E env msg item s ≡ (ok r, t)
      → IsAnswered E (agenda E s) (agenda E t)
  unfolding answer
  answer-agenda env msg item s t r h =
      elim (Bool-cases (is_address E item.contract_addr env.contract_address)) [
        | inl here ↦ bind_ok _ _ s (rw here at h) λ hash u e k.
            let same = (lift-ok (unwrap_hash E item.task_hash) s u hash e).1 in
            subst (λ v. IsAnswered E (agenda E v) (agenda E t)) same
              (proxy_callback-agenda E env msg hash u t r k)
        | inr elsewhere ↦ inl (ap (agenda E) (pure-ok _ s t r (rw elsewhere at h)))
      ]

  reply-agenda :
      (env : Env) (msg : Reply) (s t : State E) (r : Response)
      → reply E env msg s ≡ (ok r, t)
      → Plan settling (agenda E s) (agenda E t)
  reply-agenda env msg s t r h =
      let (item, _, answered) = reply-answer E env msg s t r h in
      let u : State E = record s { reply_queue = E.remove_slot s.reply_queue msg.id } in
      let same : agenda E u ≡ agenda E s = agenda_same E s u refl refl in
      subst (λ a. Plan settling a (agenda E t)) same
        (settled (answer-agenda env msg item u t r answered))
    where
      settled : {a b : Agenda} → IsAnswered E a b → Plan settling a b
      settled (inl e) = Plan.rests e
      settled (inr (inl (hash, e))) = Plan.ends hash e
      settled (inr (inr (kind, id, hash, e))) = Plan.goes_on kind id hash e

  refill_task-keep :
      (info : MessageInfo) (h : TaskHash) (m n : Slots E)
      → Keeps (λ (u : State E). (u.block_slots ≡ m) × (u.time_slots ≡ n)) (refill_task E info h)
  unfolding refill_task
  refill_task-keep info h m n = search keeps_rules depth 14

  -- A message about agents or settings leaves the agenda alone.
  idle-agenda :
      (q : Querier) (env : Env) (info : MessageInfo) (msg : ExecuteMsg) (s : State E)
      → is_idle msg ≡ true
      → agenda E (commit s (execute E q env info msg s)) ≡ agenda E s
  idle-agenda q env info msg s idle =
      let same = execute-work E q env info msg s idle in
      agenda_same E s _ (ap (λ (w : Work E). w.3) same) (ap (λ (w : Work E). w.2) same)

  planned :
      {l : Label} (m : M (State E) Response) (s : State E)
      → ((r : Response) (t : State E) → m s ≡ (ok r, t) → Plan l (agenda E s) (agenda E t))
      → Plan l (agenda E s) (agenda E (commit s (m s)))
  planned {l} m s after =
      commit-ok (λ t. Plan l (agenda E s) (agenda E t)) s (m s) (Plan.rests refl) after

  execute-Plan :
      (q : Querier) (env : Env) (info : MessageInfo) (msg : ExecuteMsg) (s : State E)
      → Plan (message_label msg) (agenda E s) (agenda E (commit s (execute E q env info msg s)))
  unfolding execute
  execute-Plan q env info (ExecuteMsg.create_task t) s =
      planned (create_task E info env t) s λ r u e.
        let (kind, id, _, f) = create_task-agenda info env t s u r e in Plan.files kind id _ f
  execute-Plan q env info (ExecuteMsg.remove_task h) s =
      planned (remove_task E h) s λ r u e. Plan.strikes h (remove_task-agenda h s u r e)
  execute-Plan q env info ExecuteMsg.proxy_call s = planned (proxy_call E info env) s λ r u e.
      let (kind, id, h, f) = proxy_call-agenda E info env s u r e in Plan.serves kind id h f
  execute-Plan q env info (ExecuteMsg.refill_task_balance h) s =
      let kept = commit-Keeps (refill_task-keep info h s.block_slots s.time_slots) s (refl, refl) in
      Plan.rests (agenda_same E s _ kept.0 kept.1)
  execute-Plan q env info (ExecuteMsg.update_settings p) s =
      Plan.rests (idle-agenda q env info (ExecuteMsg.update_settings p) s refl)
  execute-Plan q env info (ExecuteMsg.move_balances bs a) s =
      Plan.rests (idle-agenda q env info (ExecuteMsg.move_balances bs a) s refl)
  execute-Plan q env info (ExecuteMsg.register_agent a) s =
      Plan.rests (idle-agenda q env info (ExecuteMsg.register_agent a) s refl)
  execute-Plan q env info (ExecuteMsg.update_agent a) s =
      Plan.rests (idle-agenda q env info (ExecuteMsg.update_agent a) s refl)
  execute-Plan q env info ExecuteMsg.check_in_agent s =
      Plan.rests (idle-agenda q env info ExecuteMsg.check_in_agent s refl)
  execute-Plan q env info ExecuteMsg.unregister_agent s =
      Plan.rests (idle-agenda q env info ExecuteMsg.unregister_agent s refl)
  execute-Plan q env info ExecuteMsg.withdraw_reward s =
      Plan.rests (idle-agenda q env info ExecuteMsg.withdraw_reward s refl)

  -- Each delivery, committed or rolled back, is a step of an agenda of bags of hashes: a creation can
  -- file one hash, a call can take one off that was filed, a removal can only strike out the hash it
  -- names, a reply can file one hash or strike one out, and any other message leaves the agenda alone.
  pub Step-Plan :
      (s t : State E) (delivery : Step E s t) → Plan (label delivery) (agenda E s) (agenda E t)
  Step-Plan s t (Step.message q env info msg) = execute-Plan q env info msg s
  Step-Plan s t (Step.replied env msg) =
      planned (reply E env msg) s λ r u e. reply-agenda env msg s u r e
