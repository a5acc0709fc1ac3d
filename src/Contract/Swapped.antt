-- ===== src/Contract/Swapped.antt =====
-- Two creations (tasks.rs), each accepted where the other came first.
use cw_croncat.Base.{sym, ◌≢◌, none, ap, ◌∙◌, ◌≡◌, arith, eq_iff}
use cw_croncat.Base.Outcome.{ok}
use cw_croncat.Types.{TaskRequest, Balance, GenericBalance}
use cw_croncat.External.{External}
use cw_croncat.State.{State, Config, Env, MessageInfo}
use cw_croncat.Task.{to_hash_vec, is_valid_msg}
use cw_croncat.Tasks.{task_of}
use cw_croncat.Tasks.Accepted.{Acceptance, accepted, booked_parts}
use cw_croncat.Balance.{add_tokens}
use cw_croncat.Balance.Order.{Same}

config_alike :
    (x y z : Config) (b d : GenericBalance)
    → x ≡ record z { available_balance = b }
    → y ≡ record z { available_balance = d }
    → y ≡ record x { available_balance = y.available_balance }
config_alike x y z b d e f = ground (arith, e, f)

module _ (E : External) where
  -- States that differ in the tasks and slots alone, and in the order of the available coins.
  pub record Alike (s t : State E) : Type 0 where
    pub total : t.task_total ≡ s.task_total
    pub nomination : t.agent_nomination_begin_time ≡ s.agent_nomination_begin_time
    pub config : t.config ≡ record s.config { available_balance = t.config.available_balance }
    pub coins : Same s.config.available_balance.native_coins t.config.available_balance.native_coins
    pub tokens : t.config.available_balance.cw20_coins ≡ s.config.available_balance.cw20_coins
    pub active : t.agent_active_queue ≡ s.agent_active_queue
    pub pending : t.agent_pending_queue ≡ s.agent_pending_queue
    pub agents : t.agents ≡ s.agents
    pub reply_queue : t.reply_queue ≡ s.reply_queue
    pub reply_index : t.reply_index ≡ s.reply_index

  module _ (info info' : MessageInfo) (env : Env) (req req' : TaskRequest) (s : State E)
      (a : Acceptance E info env req s)
      (b : Acceptance E info' env req' (accepted E info env req s a)) where
    -- The two hashes differ, and neither task is there before.
    both_fresh :
        (to_hash_vec E (task_of E info req) ≢ to_hash_vec E (task_of E info' req'))
        × (E.may_load s.tasks (to_hash_vec E (task_of E info' req')) ≡ none)
    both_fresh =
        let p = booked_parts E env (task_of E info req) a.id a.kind a.balance a.agents s in
        let g = to_hash_vec E (task_of E info req) in
        let g' = to_hash_vec E (task_of E info' req') in
        let apart : g ≢ g' = λ e. ground (
          arith,
          b.fresh,
          p.1,
          e,
          eq_iff g g',
          E.may_load-save s.tasks g g' (task_of E info req),
        ) in
        (
          apart,
          ground (
            arith,
            b.fresh,
            p.1,
            apart,
            eq_iff g g',
            E.may_load-save s.tasks g g' (task_of E info req),
          ),
        )

    -- The second is accepted at once.
    pub sooner :
        (c : GenericBalance)
        → add_tokens s.config.available_balance (Balance.native info'.funds) ≡ ok c
        → Acceptance E info' env req' s
    sooner c paid =
        let p = booked_parts E env (task_of E info req) a.id a.kind a.balance a.agents s in
        record {
          kind = b.kind;
          id = b.id;
          balance = c;
          agents = a.agents;
          funds = b.funds;
          running = ap (λ (x : Config). x.paused) (sym p.0) ∙ b.running;
          known =
              ap
                (λ (x : Config).
                  is_valid_msg (task_of E info' req') env.contract_address info'.sender x.owner_id)
                (sym p.0)
              ∙ b.known;
          valid = b.valid;
          slot = b.slot;
          some_slot = b.some_slot;
          fresh = both_fresh.1;
          booking = record { fits = a.booking.fits; paid = paid; asked = a.booking.asked };
        }

    -- The first is accepted after it.
    pub later :
        (c d : GenericBalance)
        → (paid : add_tokens s.config.available_balance (Balance.native info'.funds) ≡ ok c)
        → add_tokens c (Balance.native info.funds) ≡ ok d
        → Acceptance E info env req (accepted E info' env req' s (sooner c paid))
    unfolding sooner
    later c d paid paid' =
        let p = booked_parts E env (task_of E info req) a.id a.kind a.balance a.agents s in
        let q = booked_parts E env (task_of E info' req') b.id b.kind c a.agents s in
        let g = to_hash_vec E (task_of E info req) in
        let g' = to_hash_vec E (task_of E info' req') in
        record {
          kind = a.kind;
          id = a.id;
          balance = d;
          agents = b.agents;
          funds = a.funds;
          running = ap (λ (x : Config). x.paused) q.0 ∙ a.running;
          known =
              ap
                (λ (x : Config).
                  is_valid_msg (task_of E info req) env.contract_address info.sender x.owner_id)
                q.0
              ∙ a.known;
          valid = a.valid;
          slot = a.slot;
          some_slot = a.some_slot;
          fresh = ground (
            arith,
            q.1,
            a.fresh,
            both_fresh.0,
            eq_iff g' g,
            E.may_load-save s.tasks g' g (task_of E info' req'),
          );
          booking = record {
            fits = ground (arith, p.2, q.2, b.booking.fits);
            paid =
                ap (λ (x : Config). add_tokens x.available_balance (Balance.native info.funds)) q.0
                ∙ paid';
            asked = ground (arith, p.0, p.2, p.4, q.0, q.2, q.4, b.booking.asked);
          };
        }

    -- The two orders leave the same count, nomination time and config, but for the order of the coins.
    pub swapped-Alike :
        (c d : GenericBalance)
        → (paid : add_tokens s.config.available_balance (Balance.native info'.funds) ≡ ok c)
        → (paid' : add_tokens c (Balance.native info.funds) ≡ ok d)
        → Same b.balance.native_coins d.native_coins
        → d.cw20_coins ≡ b.balance.cw20_coins
        → let u = accepted E info' env req' (accepted E info env req s a) b in
          let u' =
            accepted E info env req
              (accepted E info' env req' s (sooner c paid))
              (later c d paid paid') in
          Alike u u'
    unfolding sooner later
    swapped-Alike c d paid paid' coins tokens =
        let p = booked_parts E env (task_of E info req) a.id a.kind a.balance a.agents s in
        let t = accepted E info env req s a in
        let t' = accepted E info' env req' s (sooner c paid) in
        let q = booked_parts E env (task_of E info' req') b.id b.kind b.balance b.agents t in
        let p' = booked_parts E env (task_of E info' req') b.id b.kind c a.agents s in
        let q' = booked_parts E env (task_of E info req) a.id a.kind d b.agents t' in
        let of = q.0 ∙ ap (λ (x : Config). record x { available_balance = b.balance }) p.0 in
        let of' = q'.0 ∙ ap (λ (x : Config). record x { available_balance = d }) p'.0 in
        record {
          total = ground (arith, p.2, q.2, p'.2, q'.2);
          nomination = ground (arith, p.3, q.3, p'.3, q'.3);
          config = config_alike _ _ s.config b.balance d of of';
          coins = λ t. ground (arith, of, of', coins t);
          tokens = ground (arith, of, of', tokens);
          active = ground (arith, p.4, q.4, p'.4, q'.4);
          pending = ground (arith, p.5, q.5, p'.5, q'.5);
          agents = ground (arith, p.6, q.6, p'.6, q'.6);
          reply_queue = ground (arith, p.7, q.7, p'.7, q'.7);
          reply_index = ground (arith, p.8, q.8, p'.8, q'.8);
        }
