-- ===== src/Manager/Awaiting.antt =====
-- The queue of replies (state.rs) under the handlers: the ids awaited, and what their entries name.
use cw_croncat.Base.{ℕ, ◌+◌, ◌≤◌, ◌≡◌, ◌≢◌, none, some, arith, eqb_iff}
use cw_croncat.Base.Outcome.{◌>>=◌}
use cw_croncat.Base.Keeps.{Keeps, Keeps-modify}
use cw_croncat.Types.{Addr, TaskHash}
use cw_croncat.External.{External}
use cw_croncat.State.{State, QueueItem, rq_push, rq_remove}
use cw_croncat.Contract.Frame.{BalanceFrame, TaskFrame, ReplyFrame, load_any}

module _ (E : External) where
  -- Only ids that have been given out are awaited, and each entry names a task and an address.
  abbrev pub IsAwaiting : State E → Type 0
  IsAwaiting s =
      (i : ℕ) (item : QueueItem)
      → E.may_load_slot s.reply_queue i ≡ some item
      → (i ≤ s.reply_index) × (item.task_hash ≢ none) × (item.contract_addr ≢ none)

  abbrev P : State E → Type 0
  P = IsAwaiting

  rq_push-IsAwaiting :
      (item : QueueItem)
      → item.task_hash ≢ none
      → item.contract_addr ≢ none
      → Keeps P (rq_push E item)
  unfolding rq_push ◌>>=◌
  rq_push-IsAwaiting item named addressed = record {
    at = λ s p i entry found. ground (
      arith,
      p i entry,
      eqb_iff (s.reply_index + 1) i,
      named,
      addressed,
      E.may_load_slot-save_slot s.reply_queue (s.reply_index + 1) i item,
    );
  }

  -- The entry of a task that is run.
  entry-IsAwaiting :
      (h : TaskHash) (a : Addr)
      → Keeps P (rq_push E (record { prev_idx = none; task_hash = some h; contract_addr = some a }))
  entry-IsAwaiting h a = rq_push-IsAwaiting _ (λ e. ground arith) (λ e. ground arith)

  pub rq_remove-IsAwaiting : (id : ℕ) → Keeps P (rq_remove E id)
  unfolding rq_remove
  rq_remove-IsAwaiting id =
      Keeps-modify _ λ s p i entry found.
        ground (arith, p i entry, E.may_load_slot-remove_slot s.reply_queue id i)

  abbrev framed : BalanceFrame E P
  framed = record { Q = λ _. Unit {0}; load = load_any E; save_balance = λ c g s q p. p }

  abbrev pub tasks_framed : TaskFrame E P
  tasks_framed = record {
    balances = framed;
    Now = λ _. Unit {0};
    save_tasks = λ m s p. p;
    save_total = λ n s p. p;
    save_times = λ m s p. p;
    save_blocks = λ m s p. p;
    begin = λ n env s now p. p;
  }

  pub replies_framed : ReplyFrame E P
  replies_framed = record { push_reply = entry-IsAwaiting; remove_reply = rq_remove-IsAwaiting }
