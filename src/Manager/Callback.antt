-- ===== src/Manager/Callback.antt =====
-- `proxy_callback` (manager.rs): what a reply makes of its task.
use cw_croncat.Base.{
  subst, Bool, ap, sym, ◌∙◌, ℕ, ◌≡◌, ◌≢◌, ◌⊎◌, refl, true, false, ◌&&◌, Option, none, some, [], ◌∷◌,
  arith, eqb, eq_iff, eqb_iff, if◌then◌else◌, Option-cases, Bool-cases, inl, inr,
}
use cw_croncat.Base.Outcome.{Outcome, ok, err, panic, M, ◌>>=◌, lift, bind_ok}
use cw_croncat.Base.Success.{gets-ok, or_fail-ok, lift-ok, pure-ok}
use cw_croncat.Types.{Task, TaskHash, SlotType}
use cw_croncat.External.{External}
use cw_croncat.State.{State, Env}
use cw_croncat.Response.{Response, response, text}
use cw_croncat.Interval.{next}
use cw_croncat.Task.{to_hash, to_hash_vec}
use cw_croncat.Slots.{store_of, with_store}
use cw_croncat.Slots.Pop.{pushed_map, push_slot_item-pushed}
use cw_croncat.Tasks.{remove_task}
use cw_croncat.Manager.{
  Reply, reply_submsg_failed, attempt, dropped, exit_task, reschedule, proxy_callback,
}

module _ (E : External) where
  -- However a removal ends, its task is out of the catalog.
  remove_task-gone : (h : TaskHash) (s : State E) → E.may_load (remove_task E h s).1.tasks h ≡ none
  unfolding remove_task ◌>>=◌
  remove_task-gone h s = elim (Option-cases (E.may_load s.tasks h)) [
    | inl e ↦ ground arith
    | inr (task, e) ↦ ground (arith, E.may_load-remove s.tasks h h, eq_iff h h)
  ]

  dropped-state : {A : Type 0} (x : Outcome A × State E) → (dropped E x).1 ≡ x.1
  dropped-state (ok a, t) = refl
  dropped-state (err e, t) = refl
  dropped-state (panic, t) = refl

  exit_task-state :
      (r r' : Response) (h : TaskHash) (s t : State E)
      → exit_task E r h s ≡ (ok r', t)
      → t ≡ (remove_task E h s).1
  unfolding exit_task attempt
  exit_task-state r r' h s t e = bind_ok _ _ s e λ rt u e0 k0.
      pure-ok _ u t r' k0
      ∙ ap (λ (x : Outcome (Option Response) × State E). x.1) (sym e0)
      ∙ dropped-state (remove_task E h s)

  -- A task that leaves is out of the catalog, and its removal is all that changes.
  abbrev pub Leaves : Task → State E → State E → Type 0
  Leaves task s t =
      (E.may_load t.tasks (to_hash E task) ≡ none) × (t ≡ (remove_task E (to_hash E task) s).1)

  exit_task-Leaves :
      (r r' : Response) (task : Task) (s t : State E)
      → exit_task E r (to_hash E task) s ≡ (ok r', t)
      → Leaves task s t
  exit_task-Leaves r r' task s t e =
      let same = exit_task-state r r' (to_hash E task) s t e in
      (
        ap (λ (u : State E). E.may_load u.tasks (to_hash E task)) same
            ∙ remove_task-gone (to_hash E task) s,
        same,
      )

  -- A task that goes on stands at the end of its next slot, and nothing else changes.
  abbrev pub GoesOn : Task → ℕ → SlotType → State E → State E → Type 0
  GoesOn task id kind s t =
      (id ≢ 0)
      × (t ≡ with_store E kind (pushed_map E (store_of E kind s) id (to_hash_vec E task)) s)

  reschedule-ok :
      (r r' : Response) (task : Task) (id : ℕ) (kind : SlotType) (s t : State E)
      → reschedule E r task (id, kind) s ≡ (ok r', t)
      → ((id ≡ 0) × Leaves task s t) ⊎ GoesOn task id kind s t
  unfolding reschedule
  reschedule-ok r r' task id kind s t h = elim (Bool-cases (eqb id 0)) [
    | inl ends ↦ inl (
      ground (arith, eqb_iff id 0),
      bind_ok _ _ s (rw ends at h)
          λ resp u e0 k0. rw (pure-ok _ u t r' k0) (exit_task-Leaves r resp task s u e0),
    )
    | inr on ↦ inr (
      (λ z. ground (arith, eqb_iff id 0)),
      bind_ok _ _ s (rw on at h) λ x u e0 k0.
          pure-ok _ u t r' k0
          ∙ ap (λ (y : Outcome (Unit {0}) × State E). y.1)
              (sym e0 ∙ push_slot_item-pushed E kind id (to_hash_vec E task) s),
    )
  ]

  -- The end of a callback: the task leaves, or goes on.
  abbrev settle : Env → Task → Response → Bool → M (State E) Response
  settle env task r c =
      if c
      then exit_task E r (to_hash E task)
      else (do slot ← lift (next E task.interval env task.boundary); reschedule E r task slot)

  abbrev pub IsSettled : Env → Task → Bool → State E → State E → Type 0
  IsSettled env task c s t =
      ((c ≡ true) × Leaves task s t)
      ⊎ ((c ≡ false)
          × ((id : ℕ) × (kind : SlotType) × (next E task.interval env task.boundary ≡ ok (id, kind))
              × (((id ≡ 0) × Leaves task s t) ⊎ GoesOn task id kind s t)))

  settled :
      (env : Env) (task : Task) (r r' : Response) (c : Bool) (s t : State E)
      → settle env task r c s ≡ (ok r', t)
      → IsSettled env task c s t
  settled env task r r' true s t h = inl (refl, exit_task-Leaves r r' task s t h)
  settled env task r r' false s t h = bind_ok _ _ s h λ slot u e k.
      let f = lift-ok (next E task.interval env task.boundary) s u slot e in
      inr (
        refl,
        (
          slot.0,
          slot.1,
          f.0,
          reschedule-ok r r' task slot.0 slot.1 s t
              (subst (λ v. reschedule E r task slot v ≡ (ok r', t)) f.1 k),
        ),
      )

  -- A reply that succeeds finds its task. If the task stops on a failure, and the reply tells of one,
  -- or if its schedule has ended, its removal is all that changes, and it is out of the catalog
  -- afterwards; otherwise its hash stands at the end of its next slot, and nothing else has changed.
  pub proxy_callback-success :
      (env : Env) (msg : Reply) (hash : TaskHash) (s t : State E) (r : Response)
      → proxy_callback E env msg hash s ≡ (ok r, t)
      → (task : Task) × (E.may_load s.tasks hash ≡ some task)
        × IsSettled env task (task.stop_on_fail && reply_submsg_failed msg.result) s t
  unfolding proxy_callback
  proxy_callback-success env msg hash s t r h = bind_ok _ _ s h λ found u0 e0 k0.
      bind_ok _ _ u0 k0 λ task u1 e1 k1.
        let f0 = gets-ok _ s u0 found e0 in
        let f1 = or_fail-ok found _ u0 u1 task e1 in
        let same : u1 ≡ s = f1.1 ∙ f0.1 in
        let r0 = response (("method", text "proxy_callback") ∷ []) [] in
        let c = task.stop_on_fail && reply_submsg_failed msg.result in
        (
          task,
          sym f0.0 ∙ f1.0,
          settled env task r0 r c s t (subst (λ u. settle env task r0 c u ≡ (ok r, t)) same k1),
        )
