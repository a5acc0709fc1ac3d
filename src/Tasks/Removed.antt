-- ===== src/Tasks/Removed.antt =====
-- `remove_task` (tasks.rs): exactly when it succeeds, and what it changes.
use cw_croncat.Base.{ap, ◌≡◌, ◌↔◌, ◌∙◌, none, some, [], ◌∷◌, arith, eq_iff, inl, inr, Option-cases}
use cw_croncat.Base.Outcome.{ok, ◌>>=◌}
use cw_croncat.Types.{TaskHash, Task, new, bank_send, Balance, GenericBalance}
use cw_croncat.Balance.{minus_tokens}
use cw_croncat.External.{External}
use cw_croncat.State.{State}
use cw_croncat.Response.{Response, response, text}
use cw_croncat.Tasks.{remove_task}
use cw_croncat.Tasks.Removal.{cleared, SlotsWithout, slots_after}

module _ (E : External) where
  abbrev pub removed : TaskHash → GenericBalance → State E → State E
  removed hash g s = record (cleared E hash s) {
    config = record s.config { available_balance = g };
  }

  abbrev pub refund : Task → Response
  refund task =
      response (("method", text "remove_task") ∷ [])
        (new (bank_send task.owner_id task.total_deposit) ∷ [])

  -- The task, and the balance without its deposit.
  abbrev pub IsCovered : TaskHash → State E → Task → GenericBalance → Type 0
  IsCovered hash s task g =
      (E.may_load s.tasks hash ≡ some task)
      × (minus_tokens s.config.available_balance (Balance.native task.total_deposit) ≡ ok g)

  covered :
      (hash : TaskHash) (s t : State E) (r : Response)
      → remove_task E hash s ≡ (ok r, t)
      → (task : Task) × (g : GenericBalance) × IsCovered hash s task g
  unfolding remove_task ◌>>=◌
  covered hash s t r h = elim (Option-cases (E.may_load s.tasks hash)) [
    | inl e ↦ absurd (ground arith)
    | inr (task, e) ↦ (task, t.config.available_balance, (e, ground arith))
  ]

  refunds :
      (hash : TaskHash) (s : State E) (task : Task) (g : GenericBalance)
      → IsCovered hash s task g
      → remove_task E hash s ≡ (ok (refund task), removed hash g s)
  unfolding remove_task ◌>>=◌
  refunds hash s task g (found, taken) = ground arith

  gone :
      (hash : TaskHash) (g : GenericBalance) (s t : State E)
      → t ≡ removed hash g s
      → E.may_load t.tasks hash ≡ none
  gone hash g s t e =
      ap (λ (u : State E). E.may_load u.tasks hash) e
      ∙ ground (arith, E.may_load-remove s.tasks hash hash, eq_iff hash hash)

  -- A removal succeeds exactly when there is a task with the hash and its deposit can be taken from
  -- the available balance without a difference below 0. It then sends the deposit to the task's owner
  -- in the one message and takes it from the available balance; the task is out of the catalog, and
  -- each slot of either kind holds what it held without the hash. Nothing else changes, the count of
  -- tasks included.
  pub remove_task_iff :
      (hash : TaskHash) (s t : State E) (r : Response)
      → (remove_task E hash s ≡ (ok r, t)) ↔ (
          (task : Task) × (g : GenericBalance) × IsCovered hash s task g
          × (r ≡ refund task)
          × (t ≡ removed hash g s)
          × (E.may_load t.tasks hash ≡ none)
          × SlotsWithout E hash s t)
  remove_task_iff hash s t r = (
    λ h.
        let (task, g, a) = covered hash s t r h in
        let f = refunds hash s task g a in
        let e : t ≡ removed hash g s = ground (arith, h, f) in
        (
          task,
          g,
          a,
          ground (arith, h, f),
          e,
          gone hash g s t e,
          slots_after E hash s t (ground (arith, e)),
        ),
    λ (task, g, a, e, f, _, _). refunds hash s task g a ∙ ground (arith, e, f),
  )
