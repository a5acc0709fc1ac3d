-- ===== src/Manager/Recurring.antt =====
-- A recurring task (manager.rs): from the reply to one call to the call that can run it again.
use cw_croncat.Base.{
  subst, ℕ, ◌+◌, ◌≤◌, ◌<◌, ◌≡◌, ◌≢◌, refl, true, false, ◌&&◌, none, some, [], ◌∷◌, arith, contains,
  eqb_iff,
}
use cw_croncat.Base.Outcome.{ok, u64_mod, ◌>>=◌}
use cw_croncat.Types.{Agent, Task, TaskHash, Interval, SlotType, block}
use cw_croncat.External.{External}
use cw_croncat.State.{State, Env, MessageInfo}
use cw_croncat.Response.{Response, response, add_attribute, text, number, kind}
use cw_croncat.Interval.{next}
use cw_croncat.Interval.Bounds.{
  first_height, IsNextMultiple, IsNextMultiple-unique, offset_unbounded, limited_unbounded,
}
use cw_croncat.Task.{to_hash_vec}
use cw_croncat.Slots.{store_of, with_store, pushed, push_slot_item}
use cw_croncat.Slots.Pop.{pushed_map}
use cw_croncat.Tasks.Catalog.{IsCataloged}
use cw_croncat.Manager.{Reply, reply_submsg_failed, reschedule, proxy_callback, proxy_call}
use cw_croncat.Manager.Filing.{proxy_callback-IsCataloged}
use cw_croncat.Manager.Serving.{proxy_call-serves}
use cw_croncat.Manager.Service.{some_due}

module _ (E : External) where
  abbrev slotted : ℕ → SlotType → Response
  slotted id slot_kind =
      add_attribute
        (add_attribute (response (("method", text "proxy_callback") ∷ []) []) "slot_id" (number id))
        "slot_kind" (kind slot_kind)

  -- A task that does not fail and has a next slot is put there.
  proxy_callback-files :
      (env : Env) (msg : Reply) (hash : TaskHash) (task : Task) (id : ℕ) (slot_kind : SlotType)
      (s : State E)
      → E.may_load s.tasks hash ≡ some task
      → task.stop_on_fail && reply_submsg_failed msg.result ≡ false
      → next E task.interval env task.boundary ≡ ok (id, slot_kind)
      → id ≢ 0
      → proxy_callback E env msg hash s ≡ (
        ok (slotted id slot_kind),
        with_store E slot_kind (pushed_map E (store_of E slot_kind s) id (to_hash_vec E task)) s,
      )
  unfolding proxy_callback reschedule push_slot_item ◌>>=◌
  proxy_callback-files env msg hash task id slot_kind s found well slot some_slot =
      ground (arith, eqb_iff id 0)

  -- From the reply that files a task in a block slot to a call once that slot is due.
  filed_and_served :
      (env later : Env) (caller : MessageInfo) (msg : Reply) (hash : TaskHash) (task : Task)
      (agent : Agent) (id : ℕ) (s : State E)
      → IsCataloged E s
      → E.may_load s.tasks hash ≡ some task
      → next E task.interval env task.boundary ≡ ok (id, block)
      → 0 < id
      → id ≤ later.block_height
      → task.stop_on_fail && reply_submsg_failed msg.result ≡ false
      → caller.funds ≡ []
      → s.config.paused ≡ false
      → s.config.available_balance.native_coins ≢ []
      → E.may_load s.agents caller.sender ≡ some agent
      → contains s.agent_active_queue caller.sender ≡ true
      → s.reply_index + 1 < u64_mod
      → (r : Response) × (r' : Response) × (u : State E) × (proxy_callback E env msg hash s
          ≡ (ok r, record s { block_slots = pushed_map E s.block_slots id hash }))
        × (proxy_call E caller later (record s { block_slots = pushed_map E s.block_slots id hash })
            ≡ (ok r', u))
  filed_and_served env later caller msg hash task agent id s c found slot pos due well funds running
        covered known queued free =
      let own : to_hash_vec E task ≡ hash = c.0 hash task found in
      let filed =
        proxy_callback-files env msg hash task id block s found well slot
          (λ z. absurd (omega arith)) in
      let t : State E = record s { block_slots = pushed_map E s.block_slots id hash } in
      let back : proxy_callback E env msg hash s ≡ (ok (slotted id block), t) = rw own at filed in
      let agrees : IsCataloged E t =
        subst (λ x. IsCataloged E x.1) back ((proxy_callback-IsCataloged E env msg hash).at s c) in
      let stored : E.may_load_slot t.block_slots id
          ≡ some (pushed E (E.may_load_slot s.block_slots id) hash) =
        ground (
          arith,
          eqb_iff id id,
          E.may_load_slot-save_slot s.block_slots id id
              (pushed E (E.may_load_slot s.block_slots id) hash),
        ) in
      let (r', u, called) =
        proxy_call-serves E caller later agent t agrees funds running covered known queued free
          (some_due E block later t id _ stored (omega arith)) in
      (slotted id block, r', u, back, called)

  -- Where catalog and slots agree, a reply to a task Block(n), n above 0, without an end, that tells of
  -- no failure that stops the task, succeeds, and files the task's hash for the least multiple of n
  -- that its start allows after the current height, as long as the heights up to n blocks past that
  -- start fit a word. Nothing else changes, so that any call of an active agent without funds
  -- from that multiple on, with no step between, succeeds: while the contract is not
  -- paused and holds native coins, and where the next reply id fits a word.
  pub proxy_callback-proxy_call :
      (env later : Env) (caller : MessageInfo) (msg : Reply) (hash : TaskHash) (task : Task)
      (agent : Agent) (n id : ℕ) (s : State E)
      → IsCataloged E s
      → E.may_load s.tasks hash ≡ some task
      → task.interval ≡ Interval.block n
      → 0 < n
      → task.boundary.end ≡ none
      → first_height env task.boundary + n < u64_mod
      → task.stop_on_fail && reply_submsg_failed msg.result ≡ false
      → IsNextMultiple n (first_height env task.boundary) id
      → id ≤ later.block_height
      → caller.funds ≡ []
      → s.config.paused ≡ false
      → s.config.available_balance.native_coins ≢ []
      → E.may_load s.agents caller.sender ≡ some agent
      → contains s.agent_active_queue caller.sender ≡ true
      → s.reply_index + 1 < u64_mod
      → (r : Response) × (r' : Response) × (u : State E) × (proxy_callback E env msg hash s
          ≡ (ok r, record s { block_slots = pushed_map E s.block_slots id hash }))
        × (proxy_call E caller later (record s { block_slots = pushed_map E s.block_slots id hash })
            ≡ (ok r', u))
  unfolding next
  proxy_callback-proxy_call env later caller msg hash task agent n id s c found recurring pos
        endless fits well multiple due funds running covered known queued free =
      let (placed_id, placed, least) = offset_unbounded env task.boundary n endless pos fits in
      let same =
        IsNextMultiple-unique n (first_height env task.boundary) placed_id id least multiple in
      let slot : next E task.interval env task.boundary ≡ ok (id, block) =
        rw recurring (rw same at placed) in
      filed_and_served env later caller msg hash task agent id s c found slot
        (omega (arith, multiple.2)) due well funds running covered known queued free

  -- A task `Once` recurs as well. Where catalog and slots agree, the reply to it, without an end and
  -- where the first height that its start allows fits a word, files its hash for that height, if it
  -- tells of no failure that stops the task; the task stays in the catalog, and any call of an active
  -- agent without funds from that height on, with no step between, succeeds: while the contract
  -- is not paused and holds native coins, and where the next reply id fits a word.
  pub once_again :
      (env later : Env) (caller : MessageInfo) (msg : Reply) (hash : TaskHash) (task : Task)
      (agent : Agent) (s : State E)
      → IsCataloged E s
      → E.may_load s.tasks hash ≡ some task
      → task.interval ≡ Interval.once
      → task.boundary.end ≡ none
      → first_height env task.boundary < u64_mod
      → first_height env task.boundary ≤ later.block_height
      → task.stop_on_fail && reply_submsg_failed msg.result ≡ false
      → caller.funds ≡ []
      → s.config.paused ≡ false
      → s.config.available_balance.native_coins ≢ []
      → E.may_load s.agents caller.sender ≡ some agent
      → contains s.agent_active_queue caller.sender ≡ true
      → s.reply_index + 1 < u64_mod
      → (r : Response) × (r' : Response) × (t : State E) × (u : State E) × (proxy_callback E env msg
            hash s
          ≡ (ok r, t))
        × (E.may_load t.tasks hash ≡ some task)
        × (t.block_slots ≡ pushed_map E s.block_slots (first_height env task.boundary) hash)
        × (proxy_call E caller later t ≡ (ok r', u))
  unfolding next
  once_again env later caller msg hash task agent s c found recurring endless fits due well funds
        running covered known queued free =
      let placed = limited_unbounded env task.boundary endless fits in
      let id = first_height env task.boundary in
      let slot : next E task.interval env task.boundary ≡ ok (id, block) = rw recurring placed in
      let (r, r', u, back, called) =
        filed_and_served env later caller msg hash task agent id s c found slot (omega arith) due
          well funds running covered known queued free in
      (r, r', _, u, back, found, refl, called)
