-- ===== src/Manager/Replies.antt =====
-- The replies to a proxy call: one queue entry for each call, good for one reply.
use cw_croncat.Base.{some, Option-cases, inl, inr, subst, ap, ◌≡◌, refl, ◌∙◌, none, arith, eqb_iff}
use cw_croncat.Base.Outcome.{Outcome, ok, err, modify, unknown_reply_id, gets, ◌>>=◌, or_fail}
use cw_croncat.Base.Keeps.{Keeps, keeps_rules}
use cw_croncat.External.{External}
use cw_croncat.State.{State, Env, QueueItem, rq_remove}
use cw_croncat.Response.{Response}
use cw_croncat.Manager.{Reply}
use cw_croncat.Contract.Frame.{BalanceFrame, TaskFrame, load_any}
use cw_croncat.Contract.Frame.Tasks.{proxy_callback-keep}
use cw_croncat.Contract.{reply, answer}

module _ (E : External) (m : E.SlotMap QueueItem) where
  abbrev P : State E → Type 0
  P s = s.reply_queue ≡ m

  abbrev framed : BalanceFrame E P
  framed = record { Q = λ _. Unit {0}; load = load_any E; save_balance = λ c g s q p. p }

  abbrev tasks_framed : TaskFrame E P
  tasks_framed = record {
    balances = framed;
    Now = λ _. Unit {0};
    save_tasks = λ m s p. p;
    save_total = λ n s p. p;
    save_times = λ m s p. p;
    save_blocks = λ m s p. p;
    begin = λ n env s now p. p;
  }

  answer-keep : (env : Env) (msg : Reply) (item : QueueItem) → Keeps P (answer E env msg item)
  unfolding answer
  answer-keep env msg item = search (keeps_rules, proxy_callback-keep E tasks_framed) depth 14

module _ (E : External) where
  -- A reply that succeeds finds its entry, takes it off the queue and answers it.
  pub reply-answer :
      (env : Env) (msg : Reply) (s t : State E) (r : Response)
      → reply E env msg s ≡ (ok r, t)
      → (item : QueueItem) × (E.may_load_slot s.reply_queue msg.id ≡ some item)
        × (answer E env msg item (record s { reply_queue = E.remove_slot s.reply_queue msg.id })
            ≡ (ok r, t))
  unfolding reply gets or_fail rq_remove modify ◌>>=◌
  reply-answer env msg s t r h = elim (Option-cases (E.may_load_slot s.reply_queue msg.id)) [
    | inl e ↦ absurd (ground arith)
    | inr (item, e) ↦ (item, e, rw e at h)
  ]

  -- One entry of the queue goes, and nothing else writes it.
  reply-queue :
      (env : Env) (msg : Reply) (s t : State E) (r : Response)
      → reply E env msg s ≡ (ok r, t)
      → t.reply_queue ≡ E.remove_slot s.reply_queue msg.id
  reply-queue env msg s t r h =
      let (item, _, answered) = reply-answer env msg s t r h in
      let m = E.remove_slot s.reply_queue msg.id in
      subst (λ (x : Outcome Response × State E). x.1.reply_queue ≡ m) answered
        ((answer-keep E m env msg item).at (record s { reply_queue = m }) refl)

  no_entry :
      (env : Env) (msg : Reply) (t : State E)
      → E.may_load_slot t.reply_queue msg.id ≡ none
      → reply E env msg t ≡ (err unknown_reply_id, t)
  unfolding reply gets or_fail ◌>>=◌
  no_entry env msg t h = rw h refl

  -- An id is answered once: after a reply that succeeds, another reply with its id, even in a later
  -- block, fails with `UnknownReplyID` and changes nothing.
  pub reply_twice :
      (env env' : Env) (msg msg' : Reply) (s t : State E) (r : Response)
      → reply E env msg s ≡ (ok r, t)
      → msg'.id ≡ msg.id
      → reply E env' msg' t ≡ (err unknown_reply_id, t)
  reply_twice env env' msg msg' s t r h same = no_entry env' msg' t (
      ap (λ i. E.may_load_slot t.reply_queue i) same
      ∙ ap (λ m. E.may_load_slot m msg.id) (reply-queue env msg s t r h)
      ∙ ground
          (arith, E.may_load_slot-remove_slot s.reply_queue msg.id msg.id, eqb_iff msg.id msg.id))
