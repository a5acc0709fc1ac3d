-- ===== src/Manager/Serving.antt =====
-- `proxy_call` (manager.rs): when a call of an active agent runs a task, and when it cannot.
use cw_croncat.Base.{
  ap, ℕ, ◌+◌, ◌<◌, ◌≡◌, ◌≢◌, refl, ◌∙◌, true, false, none, some, List, [], ◌∷◌, arith, contains,
  Option-cases, inl, inr, pop,
}
use cw_croncat.Base.Outcome.{ok, ◌>>=◌, gets, pure, choose, fail_if, or_fail, lift, u64_mod, modify}
use cw_croncat.Base.Keeps.{commit}
use cw_croncat.Base.Success.{Succeeds, returned, commit_failed}
use cw_croncat.Types.{Agent, Task, TaskHash, SlotType, block, cron}
use cw_croncat.External.{External}
use cw_croncat.State.{State, Env, MessageInfo, rq_next_id, rq_push}
use cw_croncat.Response.{Response}
use cw_croncat.Slots.{Slots, get_current_slot_items, store_of, with_store}
use cw_croncat.Slots.Pop.{popped, pop_slot_item-popped}
use cw_croncat.Slots.Current.{get_current_slot_items-IsCurrent}
use cw_croncat.Tasks.Catalog.{IsCataloged, IsFiled, pop-contains}
use cw_croncat.Manager.{next_hash, pop_from, run_task, run_hash, run_found, serve_slot, proxy_call}
use cw_croncat.Manager.Call.{proxy_call-success}

pop-some : {A : Type 0} (xs : List A) → xs ≢ [] → (a : A) × ((pop xs).0 ≡ some a)
unfolding pop
pop-some [] h = absurd (h refl)
pop-some (x ∷ xs) h = elim (Option-cases (pop xs).0) [
  | inl e ↦ (x, ground arith)
  | inr (a, e) ↦ (a, ground arith)
]

module _ (E : External) where
  -- A stored slot gives a hash whose task is in the catalog.
  popped-known :
      (tasks : E.TextMap Task) (m : Slots E) (id : ℕ)
      → IsFiled E tasks m
      → E.may_load_slot m id ≢ none
      → (h : TaskHash) × (t : Task) × ((popped E m id).0 ≡ some h) × (E.may_load tasks h ≡ some t)
  popped-known tasks m id f stored = elim (Option-cases (E.may_load_slot m id)) [
    | inl e ↦ absurd (stored e)
    | inr (hs, e) ↦
        let (h, last) = pop-some hs (λ n. f.1 id (e ∙ ap some n)) in
        elim (Option-cases (E.may_load tasks h)) [
          | inl n ↦ absurd (f.0 id h (rw e (pop-contains hs h last)) n)
          | inr (t, n) ↦ (h, t, rw e last, n)
        ]
  ]

  -- A task that is found is run, where the next reply id fits a word.
  run_found-Succeeds :
      (info : MessageInfo) (env : Env) (agent : Agent) (id : ℕ) (h : TaskHash) (t : Task)
      (u : State E)
      → E.may_load u.tasks h ≡ some t
      → u.reply_index + 1 < u64_mod
      → Succeeds (run_found E info env agent (some (id, some h)) u)
  unfolding run_found run_hash run_task rq_next_id rq_push ◌>>=◌ gets choose lift modify pure
  run_found-Succeeds info env agent id h t u e fits = ground arith

  -- A pop of the slot that `next_hash` chooses.
  abbrev pub Serves : Env → State E → SlotType → ℕ → Type 0
  Serves env s kind id = next_hash E env s ≡ (
    ok (some (id, (popped E (store_of E kind s) id).0)),
    with_store E kind (popped E (store_of E kind s) id).1 s,
  )

  pub next_hash-block :
      (env : Env) (s : State E) (id : ℕ)
      → (get_current_slot_items E env (some 1) s).0 ≡ some id
      → Serves env s block id
  unfolding next_hash pop_from gets choose ◌>>=◌ pure
  next_hash-block env s id e = rw (e, pop_slot_item-popped E block id s)

  pub next_hash-cron :
      (env : Env) (s : State E) (id : ℕ)
      → (get_current_slot_items E env (some 1) s).0 ≡ none
      → (get_current_slot_items E env (some 1) s).1 ≡ some id
      → Serves env s cron id
  unfolding next_hash pop_from gets choose ◌>>=◌ pure
  next_hash-cron env s id n e = rw (n, e, pop_slot_item-popped E cron id s)

  pub next_hash-none :
      (env : Env) (s : State E)
      → get_current_slot_items E env (some 1) s ≡ (none, none)
      → next_hash E env s ≡ (ok none, s)
  unfolding next_hash gets choose ◌>>=◌ pure
  next_hash-none env s e = rw e

  serve_slot-Succeeds :
      (info : MessageInfo) (env : Env) (agent : Agent) (s : State E) (kind : SlotType) (id : ℕ)
      → Serves env s kind id
      → IsFiled E s.tasks (store_of E kind s)
      → E.may_load_slot (store_of E kind s) id ≢ none
      → s.reply_index + 1 < u64_mod
      → Succeeds (serve_slot E info env agent s)
  unfolding serve_slot ◌>>=◌
  serve_slot-Succeeds info env agent s kind id e f stored fits =
      let (h, t, last, known) = popped-known s.tasks (store_of E kind s) id f stored in
      rw e (
        rw last (
          run_found-Succeeds info env agent id h t _ (rw (kept kind _) known)
            (rw (kept_index kind _) fits)))
    where
      kept : (j : SlotType) (m : Slots E) → (with_store E j m s).tasks ≡ s.tasks
      kept block m = refl
      kept cron m = refl

      kept_index : (j : SlotType) (m : Slots E) → (with_store E j m s).reply_index ≡ s.reply_index
      kept_index block m = refl
      kept_index cron m = refl

  proxy_call-serve_slot :
      (info : MessageInfo) (env : Env) (agent : Agent) (s : State E)
      → info.funds ≡ []
      → s.config.paused ≡ false
      → s.config.available_balance.native_coins ≢ []
      → E.may_load s.agents info.sender ≡ some agent
      → contains s.agent_active_queue info.sender ≡ true
      → proxy_call E info env s ≡ serve_slot E info env agent s
  unfolding proxy_call gets or_fail fail_if ◌>>=◌
  proxy_call-serve_slot info env agent s funds running covered found queued = ground arith

  due_slot :
      (env : Env) (s : State E)
      → get_current_slot_items E env (some 1) s ≢ (none, none)
      → (kind : SlotType) × (id : ℕ) × Serves env s kind id
        × (E.may_load_slot (store_of E kind s) id ≢ none)
  due_slot env s some_due =
      let current = get_current_slot_items-IsCurrent E env (some 1) s (λ e. ground arith) in
      elim (Option-cases (get_current_slot_items E env (some 1) s).0) [
        | inr (id, e) ↦ (block, id, next_hash-block env s id e, (rw e at current.0).1)
        | inl n ↦ elim (Option-cases (get_current_slot_items E env (some 1) s).1) [
          | inr (id, e) ↦ (cron, id, next_hash-cron env s id n e, (rw e at current.1).1)
          | inl m ↦ absurd (some_due (ground arith))
        ]
      ]

  -- Where catalog and slots agree, a slot of either kind is due, and the next reply id fits a word, a
  -- call of an active agent without funds succeeds, if the contract is not paused and holds native
  -- coins: the hash that is popped is that of a task.
  pub proxy_call-serves :
      (info : MessageInfo) (env : Env) (agent : Agent) (s : State E)
      → IsCataloged E s
      → info.funds ≡ []
      → s.config.paused ≡ false
      → s.config.available_balance.native_coins ≢ []
      → E.may_load s.agents info.sender ≡ some agent
      → contains s.agent_active_queue info.sender ≡ true
      → s.reply_index + 1 < u64_mod
      → get_current_slot_items E env (some 1) s ≢ (none, none)
      → (r : Response) × (t : State E) × (proxy_call E info env s ≡ (ok r, t))
  proxy_call-serves info env agent s c funds running covered found queued fits some_due =
      let (kind, id, e, stored) = due_slot env s some_due in
      returned (proxy_call E info env s) (
        rw (proxy_call-serve_slot info env agent s funds running covered found queued)
          (serve_slot-Succeeds info env agent s kind id e (filed kind) stored fits))
    where
      filed : (j : SlotType) → IsFiled E s.tasks (store_of E j s)
      filed block = c.1
      filed cron = c.2

  -- Where no slot of either kind is due, a call changes nothing, whoever makes it: it fails, and the
  -- reward that it has written is rolled back.
  pub proxy_call_idle :
      (info : MessageInfo) (env : Env) (s : State E)
      → get_current_slot_items E env (some 1) s ≡ (none, none)
      → commit s (proxy_call E info env s) ≡ s
  proxy_call_idle info env s nothing = commit_failed s (proxy_call E info env s) λ r t e.
      let (id, hash, u, _, _, _, popped_hash, _) = proxy_call-success E info env s t r e in
      let same = next_hash-none env s nothing in ground arith
