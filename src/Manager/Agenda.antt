-- ===== src/Manager/Agenda.antt =====
-- `proxy_call` and `proxy_callback` (manager.rs) on the agenda.
use cw_croncat.Base.{ap, sym, ◌∙◌, ℕ, ◌≡◌, ◌⊎◌, some, arith, Option-cases, inl, inr}
use cw_croncat.Base.Outcome.{ok, ◌>>=◌}
use cw_croncat.Types.{Task, TaskHash, SlotType, block, cron}
use cw_croncat.External.{External}
use cw_croncat.State.{State, Env, MessageInfo}
use cw_croncat.Response.{Response}
use cw_croncat.Task.{to_hash, to_hash_vec}
use cw_croncat.Slots.{get_current_slot_items, store_of, with_store}
use cw_croncat.Slots.Pop.{popped}
use cw_croncat.Tasks.{remove_task}
use cw_croncat.Tasks.Agenda.{
  Agenda, file, strike, agenda, agenda-popped, agenda-pushed, agenda-cleared, agenda_same,
}
use cw_croncat.Manager.{next_hash, proxy_call, proxy_callback, Reply}
use cw_croncat.Manager.Call.{awaited, proxy_call-success}
use cw_croncat.Manager.Callback.{Leaves, proxy_callback-success}
use cw_croncat.Manager.Serving.{next_hash-block, next_hash-cron, next_hash-none}

module _ (E : External) where
  -- The hash that is served was popped from a slot of one kind.
  next_hash-popped :
      (env : Env) (s u : State E) (id : ℕ) (h : TaskHash)
      → next_hash E env s ≡ (ok (some (id, some h)), u)
      → (kind : SlotType) × ((popped E (store_of E kind s) id).0 ≡ some h)
        × (u ≡ with_store E kind (popped E (store_of E kind s) id).1 s)
  next_hash-popped env s u id h e =
      elim (Option-cases (get_current_slot_items E env (some 1) s).0) [
        | inr (i, n) ↦ let f = next_hash-block E env s i n in (block, ground arith, ground arith)
        | inl n ↦ elim (Option-cases (get_current_slot_items E env (some 1) s).1) [
          | inr (i, m) ↦ let f = next_hash-cron E env s i n m in (cron, ground arith, ground arith)
          | inl m ↦ let f = next_hash-none E env s (ground arith) in absurd (ground arith)
        ]
      ]

  -- A call that runs a task takes its hash off the agenda.
  pub proxy_call-agenda :
      (info : MessageInfo) (env : Env) (s t : State E) (r : Response)
      → proxy_call E info env s ≡ (ok r, t)
      → (kind : SlotType) × (id : ℕ) × (h : TaskHash) × (agenda E s ≡ file kind id h (agenda E t))
  proxy_call-agenda info env s t r e =
      let (id, h, u, _, _, _, found, run) = proxy_call-success E info env s t r e in
      let (kind, last, left) = next_hash-popped env s u id h found in
      let (_, _, after, _) = run in
      (
        kind,
        id,
        h,
        agenda-popped E kind id h s last
            ∙ ap (file kind id h) (
                sym (
                  agenda_same E _ t
                    (ap (λ (v : State E). v.block_slots) (after ∙ ap (awaited E env h) left))
                    (ap (λ (v : State E). v.time_slots) (after ∙ ap (awaited E env h) left)))),
      )

  -- However a removal ends, the hash is struck out or the agenda is as it was.
  remove_task-agenda :
      (h : TaskHash) (s : State E)
      → (agenda E (remove_task E h s).1 ≡ agenda E s)
        ⊎ (agenda E (remove_task E h s).1 ≡ strike h (agenda E s))
  unfolding remove_task ◌>>=◌
  remove_task-agenda h s = elim (Option-cases (E.may_load s.tasks h)) [
    | inl e ↦ inl (agenda_same E s _ (ground arith) (ground arith))
    | inr (task, e) ↦ inr (agenda-cleared E h s _ (ground arith) (ground arith))
  ]

  -- A reply files its task's hash, or strikes it out, or leaves the agenda alone.
  abbrev pub IsAnswered : Agenda → Agenda → Type 0
  IsAnswered a b =
      (b ≡ a)
      ⊎ (((h : TaskHash) × (b ≡ strike h a))
          ⊎ ((kind : SlotType) × (id : ℕ) × (h : TaskHash) × (b ≡ file kind id h a)))

  left-agenda :
      (task : Task) (s t : State E) → Leaves E task s t → IsAnswered (agenda E s) (agenda E t)
  left-agenda task s t l = elim (remove_task-agenda (to_hash E task) s) [
    | inl f ↦ inl (ap (agenda E) l.1 ∙ f)
    | inr f ↦ inr (inl (to_hash E task, ap (agenda E) l.1 ∙ f))
  ]

  pub proxy_callback-agenda :
      (env : Env) (msg : Reply) (hash : TaskHash) (s t : State E) (r : Response)
      → proxy_callback E env msg hash s ≡ (ok r, t)
      → IsAnswered (agenda E s) (agenda E t)
  proxy_callback-agenda env msg hash s t r h =
      let (task, _, settled) = proxy_callback-success E env msg hash s t r h in
      elim settled [
        | inl (_, gone) ↦ left-agenda task s t gone
        | inr (_, (id, kind, _, end)) ↦ elim end [
          | inl (_, gone) ↦ left-agenda task s t gone
          | inr (_, on) ↦ inr (
              inr (
                kind,
                id,
                to_hash_vec E task,
                ap (agenda E) on ∙ agenda-pushed E kind id (to_hash_vec E task) s,
              ))
        ]
      ]
