-- ===== src/Contract/Access.antt =====
-- Who may change what: the settings of the contract under the messages of `execute`.
use cw_croncat.Base.{ap, ◌≡◌, ◌≢◌, refl, arith, eq_iff}
use cw_croncat.Base.Outcome.{M, gets, ◌>>=◌}
use cw_croncat.Base.Keeps.{Keeps, keeps_rules, commit, commit-Keeps}
use cw_croncat.Types.{empty_balance_value}
use cw_croncat.External.{External}
use cw_croncat.State.{State, Config, Env, MessageInfo, rq_push, rq_remove}
use cw_croncat.Messages.{Settings, ExecuteMsg}
use cw_croncat.Agent.{Querier}
use cw_croncat.Owner.{update_settings}
use cw_croncat.Contract.{execute}
use cw_croncat.Contract.Frame.{BalanceFrame, TaskFrame, ReplyFrame, AgentFrame}
use cw_croncat.Contract.Frame.Calls.{proxy_call-keep}
use cw_croncat.Contract.Frame.Execute.{execute-keep}

-- All of the config but the balance that is counted as available.
abbrev pub settings : Config → Config
settings c = record c { available_balance = empty_balance_value }

module _ (E : External) (k : Config) where
  abbrev P : State E → Type 0
  P s = settings s.config ≡ k

  framed-load :
      {B : Type 0} (f : Config → M (State E) B)
      → ((c : Config) → settings c ≡ k → Keeps P (f c))
      → Keeps P (gets (λ s. s.config) >>= f)
  unfolding ◌>>=◌
  framed-load f h = record { at = λ s p. (h s.config p).at s p }

  framed : BalanceFrame E P
  framed = record { Q = λ c. settings c ≡ k; load = framed-load; save_balance = λ c g s q p. q }

  abbrev tasks_framed : TaskFrame E P
  tasks_framed = record {
    balances = framed;
    Now = λ _. Unit {0};
    save_tasks = λ m s p. p;
    save_total = λ n s p. p;
    save_times = λ m s p. p;
    save_blocks = λ m s p. p;
    begin = λ n env s now p. p;
  }

  replies_framed : ReplyFrame E P
  unfolding rq_push rq_remove
  replies_framed = record {
    push_reply = λ h a. search keeps_rules depth 14;
    remove_reply = λ i. search keeps_rules depth 14;
  }

  agents_framed : AgentFrame E P
  agents_framed = record {
    Fit = λ _. Unit {0};
    fresh = λ a now. tt;
    readdressed = λ a o v s p e. tt;
    save_agent = λ a v s fit p. p;
    remove_agent = λ a s p. p;
    save_active = λ q s p. p;
    save_pending = λ q s p. p;
    end_nomination = λ s p. p;
  }

module _ (E : External) where
  -- `update_settings` of anyone but the owner fails and writes nothing.
  update_settings-refused :
      (info : MessageInfo) (p : Settings) (s : State E)
      → info.sender ≢ s.config.owner_id
      → commit s (update_settings E info p s) ≡ s
  unfolding update_settings ◌>>=◌
  update_settings-refused info p s h = ground (arith, eq_iff info.sender s.config.owner_id)

  -- A message of anyone but the owner leaves all settings as they were: of the config, only the
  -- available balance can change.
  pub execute-settings :
      (q : Querier) (env : Env) (info : MessageInfo) (msg : ExecuteMsg) (s : State E)
      → info.sender ≢ s.config.owner_id
      → settings (commit s (execute E q env info msg s)).config ≡ settings s.config
  execute-settings q env info msg s h =
      let k = settings s.config in
      execute-keep E (tasks_framed E k) (agents_framed E k) q env info msg s
        (λ p. ap (λ (u : State E). settings u.config) (update_settings-refused info p s h))
        (commit-Keeps
          (proxy_call-keep E (tasks_framed E k) (replies_framed E k) (λ a v u p. p) info env) s
          refl)
        tt refl
