-- ===== src/Contract/Clock.antt =====
-- The states that deliveries in the order of time lead to, and the nominations in them.
pub mod CheckIn
use cw_croncat.Base.{ℕ, ◌≤◌, ◌≡◌, some, arith, eqb_iff, Option-cases, inl, inr}
use cw_croncat.Base.Outcome.{M, gets, ◌>>=◌}
use cw_croncat.Base.Keeps.{Keeps, keeps_rules, commit, commit-Keeps}
use cw_croncat.Types.{Timestamp}
use cw_croncat.External.{External}
use cw_croncat.State.{State, Config, Env, MessageInfo, rq_push, rq_remove}
use cw_croncat.Messages.{Settings, ExecuteMsg}
use cw_croncat.Agent.{Querier}
use cw_croncat.Tasks.{begin_nomination}
use cw_croncat.Manager.{Reply}
use cw_croncat.Owner.{apply_settings, update_settings}
use cw_croncat.Contract.{execute, reply}
use cw_croncat.Contract.Frame.{BalanceFrame, TaskFrame, ReplyFrame, AgentFrame}
use cw_croncat.Contract.Frame.Calls.{proxy_call-keep, reply-keep}
use cw_croncat.Contract.Frame.Execute.{execute-keep}

module _ (E : External) where
  -- Deliveries in blocks whose times, in seconds, do not go back; the time of the last one.
  pub data History (s : State E) (start : Timestamp) : State E → Timestamp → Type 0 where
    fresh : History s start s start
    message :
        {t : State E} {now : Timestamp}
        → History s start t now
        → (q : Querier) (env : Env) (info : MessageInfo) (msg : ExecuteMsg)
        → E.seconds now ≤ E.seconds env.block_time
        → History s start (commit t (execute E q env info msg t)) env.block_time
    replied :
        {t : State E} {now : Timestamp}
        → History s start t now
        → (env : Env) (msg : Reply) → E.seconds now ≤ E.seconds env.block_time
        → History s start (commit t (reply E env msg t)) env.block_time

  -- Rounds last `d` seconds, and a nomination that runs began no later than `now`.
  abbrev pub IsTimed : ℕ → Timestamp → State E → Type 0
  IsTimed d now s =
      (s.config.agent_nomination_duration ≡ d)
      × ((begin : Timestamp)
          → s.agent_nomination_begin_time ≡ some begin
          → E.seconds begin ≤ E.seconds now)

module _ (E : External) (d : ℕ) (now : Timestamp) where
  abbrev P : State E → Type 0
  P = IsTimed E d now

  timed-load :
      {B : Type 0} (f : Config → M (State E) B)
      → ((c : Config) → c.agent_nomination_duration ≡ d → Keeps P (f c))
      → Keeps P (gets (λ s. s.config) >>= f)
  unfolding ◌>>=◌
  timed-load f h = record { at = λ s p. (h s.config p.0).at s p }

  balances_timed : BalanceFrame E P
  balances_timed = record {
    Q = λ c. c.agent_nomination_duration ≡ d;
    load = timed-load;
    save_balance = λ c g s q p. (q, p.1);
  }

  begins :
      (n : ℕ) (env : Env) (s : State E)
      → E.seconds env.block_time ≤ E.seconds now
      → P s
      → P (record s {
        agent_nomination_begin_time =
            begin_nomination E n env.block_time s.agent_nomination_begin_time;
      })
  begins n env s early p = (
    p.0,
    λ begin e. elim (Option-cases s.agent_nomination_begin_time) [
      | inl f ↦ ground (arith, eqb_iff n 0)
      | inr (b, f) ↦ ground (arith, p.1 b)
    ],
  )

  abbrev tasks_timed : TaskFrame E P
  tasks_timed = record {
    balances = balances_timed;
    Now = λ env. E.seconds env.block_time ≤ E.seconds now;
    save_tasks = λ m s p. p;
    save_total = λ n s p. p;
    save_times = λ m s p. p;
    save_blocks = λ m s p. p;
    begin = begins;
  }

  replies_timed : ReplyFrame E P
  unfolding rq_push rq_remove
  replies_timed = record {
    push_reply = λ h a. search keeps_rules depth 14;
    remove_reply = λ i. search keeps_rules depth 14;
  }

  agents_timed : AgentFrame E P
  agents_timed = record {
    Fit = λ _. Unit {0};
    fresh = λ a now. tt;
    readdressed = λ a o v s p e. tt;
    save_agent = λ a v s fit p. p;
    remove_agent = λ a s p. p;
    save_active = λ q s p. p;
    save_pending = λ q s p. p;
    end_nomination = λ s p. (p.0, λ begin e. absurd (ground arith));
  }

  save_config :
      (c : Config) (s : State E)
      → c.agent_nomination_duration ≡ d
      → P s
      → P (record s { config = c })
  save_config c s q p = (q, p.1)

  settings-IsTimed : (info : MessageInfo) (p : Settings) → Keeps P (update_settings E info p)
  unfolding update_settings apply_settings
  settings-IsTimed info p = search (timed-load, keeps_rules, save_config) depth 14

module _ (E : External) where
  pub later :
      (d : ℕ) (now at : Timestamp) (s : State E)
      → E.seconds now ≤ E.seconds at
      → IsTimed E d now s
      → IsTimed E d at s
  later d now at s h p = (p.0, λ begin e. omega (arith, p.1 begin e))

  pub History-IsTimed :
      (d : ℕ) (s : State E) (start : Timestamp) (t : State E) (now : Timestamp)
      → History E s start t now
      → IsTimed E d start s
      → IsTimed E d now t
  History-IsTimed d s start t now History.fresh p = p
  History-IsTimed d s start t now (History.message {t = u} {now = before} path q env info msg h) p =
      let kept = later d before env.block_time u h (History-IsTimed d s start u before path p) in
      let at = env.block_time in
      execute-keep E (tasks_timed E d at) (agents_timed E d at) q env info msg u
        (λ x. commit-Keeps (settings-IsTimed E d at info x) u kept)
        (commit-Keeps
          (proxy_call-keep E (tasks_timed E d at) (replies_timed E d at) (λ a v s k. k) info env) u
          kept)
        (omega arith) kept
  History-IsTimed d s start t now (History.replied {t = u} {now = before} path env msg h) p =
      let at = env.block_time in
      commit-Keeps (reply-keep E (tasks_timed E d at) (replies_timed E d at) env msg) u
        (later d before at u h (History-IsTimed d s start u before path p))
