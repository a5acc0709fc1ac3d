-- ===== src/Contract/Work.antt =====
-- The work of the contract: its tasks, its slots and the replies that it awaits, under the messages
-- about agents and settings.
use cw_croncat.Base.{subst, sym, ℕ, ◌≡◌, refl, Bool, true, false, arith}
use cw_croncat.Base.Keeps.{Keeps, keeps_rules, commit, commit-Keeps}
use cw_croncat.Types.{Task, TaskHash, TaskRequest}
use cw_croncat.External.{External}
use cw_croncat.State.{State, QueueItem, Env, MessageInfo}
use cw_croncat.Messages.{Settings, ExecuteMsg}
use cw_croncat.Slots.{Slots}
use cw_croncat.Agent.{Querier}
use cw_croncat.Tasks.{create_task, remove_task, refill_task}
use cw_croncat.Manager.{proxy_call}
use cw_croncat.Owner.{update_settings}
use cw_croncat.Contract.{execute}
use cw_croncat.Contract.Frame.{
  BalanceFrame, AgentFrame, load_any, move_balances-keep, withdraw_agent_balance-keep,
}
use cw_croncat.Contract.Frame.Agents.{
  register_agent-keep, update_agent-keep, accept_nomination_agent-keep, unregister_agent-keep,
}

abbrev pub Work : External → Type 0
Work E = E.TextMap Task × ℕ × Slots E × Slots E × E.SlotMap QueueItem × ℕ

-- The messages about agents and settings.
abbrev pub is_idle : ExecuteMsg → Bool
is_idle (ExecuteMsg.create_task t) = false
is_idle (ExecuteMsg.remove_task h) = false
is_idle (ExecuteMsg.refill_task_balance h) = false
is_idle ExecuteMsg.proxy_call = false
is_idle (ExecuteMsg.update_settings p) = true
is_idle (ExecuteMsg.move_balances bs a) = true
is_idle (ExecuteMsg.register_agent a) = true
is_idle (ExecuteMsg.update_agent a) = true
is_idle ExecuteMsg.check_in_agent = true
is_idle ExecuteMsg.unregister_agent = true
is_idle ExecuteMsg.withdraw_reward = true

module _ (E : External) where
  abbrev pub work : State E → Work E
  work s = (s.tasks, s.task_total, s.time_slots, s.block_slots, s.reply_queue, s.reply_index)

module _ (E : External) (k : Work E) where
  abbrev P : State E → Type 0
  P s = work E s ≡ k

  abbrev framed : BalanceFrame E P
  framed = record { Q = λ _. Unit {0}; load = load_any E; save_balance = λ c g s q p. p }

  agents_framed : AgentFrame E P
  agents_framed = record {
    Fit = λ _. Unit {0};
    fresh = λ a now. tt;
    readdressed = λ a o v s p e. tt;
    save_agent = λ a v s fit p. p;
    remove_agent = λ a s p. p;
    save_active = λ q s p. p;
    save_pending = λ q s p. p;
    end_nomination = λ s p. p;
  }

  update_settings-keep : (info : MessageInfo) (p : Settings) → Keeps P (update_settings E info p)
  unfolding update_settings
  update_settings-keep info p = search keeps_rules depth 14

module _ (E : External) where
  -- A message about agents or settings, whatever its outcome, leaves the tasks, their count, the
  -- slots and the queue of replies as they were.
  pub execute-work :
      (q : Querier) (env : Env) (info : MessageInfo) (msg : ExecuteMsg) (s : State E)
      → is_idle msg ≡ true
      → work E (commit s (execute E q env info msg s)) ≡ work E s
  unfolding execute
  execute-work q env info (ExecuteMsg.update_settings p) s h =
      commit-Keeps (update_settings-keep E (work E s) info p) s refl
  execute-work q env info (ExecuteMsg.move_balances bs a) s h =
      commit-Keeps (move_balances-keep E (framed E (work E s)) q info env bs a) s refl
  execute-work q env info (ExecuteMsg.register_agent a) s h =
      commit-Keeps (register_agent-keep E (agents_framed E (work E s)) q info env a) s refl
  execute-work q env info (ExecuteMsg.update_agent a) s h =
      commit-Keeps (update_agent-keep E (agents_framed E (work E s)) info a) s refl
  execute-work q env info ExecuteMsg.check_in_agent s h =
      commit-Keeps (accept_nomination_agent-keep E (agents_framed E (work E s)) info env) s refl
  execute-work q env info ExecuteMsg.unregister_agent s h =
      commit-Keeps (unregister_agent-keep E (agents_framed E (work E s)) (framed E (work E s)) info)
        s refl
  execute-work q env info ExecuteMsg.withdraw_reward s h =
      commit-Keeps (withdraw_agent_balance-keep E (framed E (work E s)) info) s refl
  execute-work q env info (ExecuteMsg.create_task t) s h = absurd (ground arith)
  execute-work q env info (ExecuteMsg.remove_task x) s h = absurd (ground arith)
  execute-work q env info (ExecuteMsg.refill_task_balance x) s h = absurd (ground arith)
  execute-work q env info ExecuteMsg.proxy_call s h = absurd (ground arith)

module _ (E : External) (R : Work E → Type 0)
    (creates : (info : MessageInfo) (env : Env) (req : TaskRequest)
      → Keeps (λ s. R (work E s)) (create_task E info env req))
    (removes : (h : TaskHash) → Keeps (λ s. R (work E s)) (remove_task E h))
    (refills : (info : MessageInfo) (h : TaskHash)
      → Keeps (λ s. R (work E s)) (refill_task E info h))
    (calls : (info : MessageInfo) (env : Env)
      → Keeps (λ s. R (work E s)) (proxy_call E info env)) where
  idle-keep :
      (q : Querier) (env : Env) (info : MessageInfo) (msg : ExecuteMsg) (s : State E)
      → is_idle msg ≡ true
      → R (work E s)
      → R (work E (commit s (execute E q env info msg s)))
  idle-keep q env info msg s h p = subst R (sym (execute-work E q env info msg s h)) p

  -- What the messages about tasks keep of the work, every message keeps.
  pub execute-keep :
      (q : Querier) (env : Env) (info : MessageInfo) (msg : ExecuteMsg) (s : State E)
      → R (work E s)
      → R (work E (commit s (execute E q env info msg s)))
  unfolding execute
  execute-keep q env info (ExecuteMsg.create_task t) s = commit-Keeps (creates info env t) s
  execute-keep q env info (ExecuteMsg.remove_task h) s = commit-Keeps (removes h) s
  execute-keep q env info (ExecuteMsg.refill_task_balance h) s = commit-Keeps (refills info h) s
  execute-keep q env info ExecuteMsg.proxy_call s = commit-Keeps (calls info env) s
  execute-keep q env info (ExecuteMsg.update_settings p) s =
      idle-keep q env info (ExecuteMsg.update_settings p) s refl
  execute-keep q env info (ExecuteMsg.move_balances bs a) s =
      idle-keep q env info (ExecuteMsg.move_balances bs a) s refl
  execute-keep q env info (ExecuteMsg.register_agent a) s =
      idle-keep q env info (ExecuteMsg.register_agent a) s refl
  execute-keep q env info (ExecuteMsg.update_agent a) s =
      idle-keep q env info (ExecuteMsg.update_agent a) s refl
  execute-keep q env info ExecuteMsg.check_in_agent s =
      idle-keep q env info ExecuteMsg.check_in_agent s refl
  execute-keep q env info ExecuteMsg.unregister_agent s =
      idle-keep q env info ExecuteMsg.unregister_agent s refl
  execute-keep q env info ExecuteMsg.withdraw_reward s =
      idle-keep q env info ExecuteMsg.withdraw_reward s refl
