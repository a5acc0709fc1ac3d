-- ===== src/Manager/Ending.antt =====
-- The end of a task (manager.rs): the reply that comes after its last height.
use cw_croncat.Base.{
  ◌∙◌, ℕ, ◌+◌, ◌<◌, ◌≡◌, refl, false, ◌&&◌, some, none, [], ◌∷◌, arith, contains, Bool-cases, inl,
  inr,
}
use cw_croncat.Base.Outcome.{ok, u64_mod, ◌>>=◌}
use cw_croncat.Types.{
  Task, TaskHash, Interval, SlotType, Boundary, Balance, GenericBalance, height, new, bank_send,
}
use cw_croncat.External.{External}
use cw_croncat.State.{State, Env}
use cw_croncat.Response.{Response, response, extend, add_attribute, text}
use cw_croncat.Balance.{minus_tokens}
use cw_croncat.Interval.{next, get_next_block_limited}
use cw_croncat.Interval.Bounds.{first_height, offset_until}
use cw_croncat.Task.{to_hash, to_hash_vec}
use cw_croncat.Slots.{store_of}
use cw_croncat.Tasks.{remove_task}
use cw_croncat.Tasks.Catalog.{IsCataloged}
use cw_croncat.Tasks.Removal.{slot_hashes, remove_task-returns, remove_task-success}
use cw_croncat.Manager.{Reply, reply_submsg_failed, attempt, exit_task, reschedule, proxy_callback}

-- An interval in blocks, of at least one, as long as the heights fit a word; not a crontab.
abbrev pub IsInBlocks : Env → Boundary → Interval → Type 0
IsInBlocks env b Interval.once = Unit {0}
IsInBlocks env b Interval.immediate = Unit {0}
IsInBlocks env b (Interval.block n) = (0 < n) × (first_height env b + n < u64_mod)
IsInBlocks env b (Interval.cron crontab) = ⊥

module _ (E : External) where
  -- Past the end there is no next slot.
  next_past :
      (interval : Interval) (env : Env) (b : Boundary) (last : ℕ)
      → IsInBlocks env b interval
      → b.end ≡ some (height last)
      → last < env.block_height
      → next E interval env b ≡ ok (0, SlotType.block)
  unfolding next get_next_block_limited
  next_past Interval.once env b last fits e past = ground arith
  next_past Interval.immediate env b last fits e past = ground arith
  next_past (Interval.block n) env b last fits e past =
      let (id, placed, ends, _, _, _) = offset_until env b n last e fits.0 fits.1 in
      ground (arith, placed, ends)
  next_past (Interval.cron crontab) env b last fits e past = absurd fits

  -- A task whose removal succeeds is settled by it, whether it fails or has no next slot.
  proxy_callback-ends :
      (env : Env) (msg : Reply) (hash : TaskHash) (task : Task) (kind : SlotType) (s t : State E)
      (r : Response)
      → E.may_load s.tasks hash ≡ some task
      → next E task.interval env task.boundary ≡ ok (0, kind)
      → remove_task E (to_hash E task) s ≡ (ok r, t)
      → (r' : Response) × (proxy_callback E env msg hash s ≡ (ok r', t))
        × (r'.messages ≡ r.messages)
  unfolding proxy_callback reschedule exit_task attempt ◌>>=◌
  proxy_callback-ends env msg hash task kind s t r found over removed =
      let r0 = extend (response (("method", text "proxy_callback") ∷ []) []) r in
      elim (Bool-cases (task.stop_on_fail && reply_submsg_failed msg.result)) [
        | inl fails ↦ (r0, ground arith, refl)
        | inr goes ↦ (add_attribute r0 "ended_task" (text (to_hash E task)), ground arith, refl)
      ]

  -- Where catalog and slots agree, a reply that comes after the end height of its task ends it,
  -- whatever the reply tells, as long as the available balance covers the deposit: for `Once`,
  -- `Immediate`, and Block(n), n above 0, with heights that fit a word. The reply succeeds and sends the
  -- deposit to the task's owner in one message; the task is out of the catalog, and its hash out of every
  -- slot of both kinds.
  pub proxy_callback-ended :
      (env : Env) (msg : Reply) (hash : TaskHash) (task : Task) (last : ℕ) (g : GenericBalance)
      (s : State E)
      → IsCataloged E s
      → E.may_load s.tasks hash ≡ some task
      → task.boundary.end ≡ some (height last)
      → last < env.block_height
      → IsInBlocks env task.boundary task.interval
      → minus_tokens s.config.available_balance (Balance.native task.total_deposit) ≡ ok g
      → (r : Response) × (t : State E) × (proxy_callback E env msg hash s ≡ (ok r, t))
        × (r.messages ≡ new (bank_send task.owner_id task.total_deposit) ∷ [])
        × (E.may_load t.tasks hash ≡ none)
        × ((kind : SlotType) (id : ℕ)
            → contains (slot_hashes E (store_of E kind t) id) hash ≡ false)
  unfolding to_hash_vec
  proxy_callback-ended env msg hash task last g s c found ends past fits covered =
      let own : to_hash E task ≡ hash = c.0 hash task found in
      let (r, t, removed) = remove_task-returns E hash task g s found covered in
      let (task', found', sent, gone, out, _, _, _) = remove_task-success E hash s t r removed in
      let same : task ≡ task' = ground (arith, found, found') in
      let over = next_past task.interval env task.boundary last fits ends past in
      let (r', back, said) =
        proxy_callback-ends env msg hash task SlotType.block s t r found over (rw own removed) in
      (r', t, back, said ∙ rw same sent, gone, out)
