-- ===== src/Owner/Payments.antt =====
-- Where `move_balances` pays to.
use cw_croncat.Base.{
  ap, subst, sym, ℕ, ◌+◌, ◌≡◌, ◌⊎◌, refl, ◌∙◌, String, Bool, true, false, not, not-false, ◌&&◌,
  Option, none, some, List, [], ◌∷◌, arith, ◌==◌, eq_iff, if◌then◌else◌, Option-cases, inl, inr,
}
use cw_croncat.Base.Outcome.{Outcome, ok, err, panic, modify, bind_ok, yields_ok, pure}
use cw_croncat.Base.Success.{fail_if-ok, gets-ok, lift-ok}
use cw_croncat.Types.{Addr, Coin, Balance, GenericBalance, SubMsg, new, bank_send, wasm_execute}
use cw_croncat.External.{External}
use cw_croncat.State.{State, Config, Env, MessageInfo}
use cw_croncat.Response.{Response}
use cw_croncat.Agent.{Querier}
use cw_croncat.Balance.Amounts.{amount_of, has_denom}
use cw_croncat.Owner.{Moved, with_message, move_each, move_balances, unwrap}
use cw_croncat.Owner.Moves.{IsMoving, move_each-Moving, IsSpent, moving-IsSpent, paid}

module _ (E : External) where
  -- One message that pays to an account: a bank transfer to it, or a cw20 transfer to it.
  abbrev pub IsPayment : Addr → SubMsg → Type 0
  IsPayment a m =
      ((cs : List Coin) × (m ≡ new (bank_send a cs)))
      ⊎ ((token : Addr) × (amount : ℕ) × (msg : List ℕ) × (E.transfer_binary a amount ≡ inr msg)
          × (m ≡ new (wasm_execute token msg [])))

  abbrev pub ArePayments : Addr → List SubMsg → Type 0
  ArePayments a [] = Unit {0}
  ArePayments a (m ∷ ms) = IsPayment a m × ArePayments a ms

  abbrev Pays : Addr → Moved → Type 0
  Pays a r = (ms : List SubMsg) → r.messages ≡ some ms → ArePayments a ms

  with_message-Pays :
      (a : Addr) (m : SubMsg) (r : Moved) → IsPayment a m → Pays a r → Pays a (with_message m r)
  with_message-Pays a m r pays h ms e = elim (Option-cases r.messages) [
    | inl n ↦ absurd (ground arith)
    | inr (ns, n) ↦
        let same : m ∷ ns ≡ ms = ground arith in subst (ArePayments a) same (pays, h ns n)
  ]

  moving-Pays : (a : Addr) → IsMoving E a (λ g r. Pays a r)
  moving-Pays a = record {
    nothing = λ g b ms e. let same : [] ≡ ms = ground arith in subst (ArePayments a) same tt;
    unsendable = λ g left b ms e. absurd (ground arith);
    uncovered = λ g r h. with_message-Pays a _ r (inl (_, refl)) h;
    coins = λ g left cs r took h. with_message-Pays a _ r (inl (_, refl)) h;
    token = λ g left t msg r took e h.
        with_message-Pays a _ r (inr (t.address, t.amount, msg, e, refl)) h;
  }

  equal : (x y : String) → (x == y) ≡ true → x ≡ y
  equal x y h = ground (arith, eq_iff x y)

  either : (b : Bool) → (not b && not b) ≡ false → b ≡ true
  either true h = refl
  either false h = absurd (ground arith)

  unwrapped : {A : Type 0} (o : Option A) (x : A) → unwrap E o ≡ ok x → o ≡ some x
  unwrapped none x h = absurd (ground arith)
  unwrapped (some y) x h = ground arith

  abbrev sent_messages : Outcome Response × State E → List SubMsg
  sent_messages (ok r, t) = r.messages
  sent_messages (err e, t) = []
  sent_messages (panic, t) = []

  -- The run of a move that succeeds: its coins, what the closure gives, and the messages.
  move_balances-run :
      (q : Querier) (info : MessageInfo) (env : Env) (bs : List Balance) (a : Addr) (s t : State E)
      (r : Response)
      → move_balances E q info env bs a s ≡ (ok r, t)
      → (cs : List Coin) × (moved : Moved) × (info.sender ≡ s.config.owner_id)
        × (s.config.owner_id ≡ a)
        × (move_each E cs a bs s.config.available_balance false ≡ ok moved)
        × (moved.messages ≡ some r.messages)
        × (t ≡ record s { config = record s.config { available_balance = moved.available } })
  unfolding move_balances pure modify
  move_balances-run q info env bs a s t r h = bind_ok _ _ s h λ c u0 e0 k0.
      bind_ok _ _ u0 k0 λ _ u1 e1 k1. bind_ok _ _ u1 k1 λ _ u2 e2 k2.
        bind_ok _ _ u2 k2 λ cs u3 e3 k3. bind_ok _ _ u3 k3 λ moved u4 e4 k4.
          bind_ok _ _ u4 k4 λ _ u5 e5 k5. bind_ok _ _ u5 k5 λ _ u6 e6 k6.
            bind_ok _ _ u6 k6 λ ms u7 e7 k7.
              let f0 = gets-ok _ s u0 c e0 in
              let f1 = fail_if-ok (not (info.sender == c.owner_id)) _ u0 u1 _ e1 in
              let f2 = fail_if-ok (not (c.owner_id == a) && not (c.owner_id == a)) _ u1 u2 _ e2 in
              let f3 = lift-ok _ u2 u3 cs e3 in
              let f4 = lift-ok (move_each E cs a bs c.available_balance false) u3 u4 moved e4 in
              let f5 = fail_if-ok _ _ u4 u5 _ e5 in
              let f7 = lift-ok (unwrap E moved.messages) u6 u7 ms e7 in
              let owner : c.owner_id ≡ s.config.owner_id = ap (λ (x : Config). x.owner_id) f0.0 in
              (
                cs,
                moved,
                equal info.sender c.owner_id (not-false f1.0) ∙ owner,
                sym owner ∙ equal c.owner_id a (either (c.owner_id == a) f2.0),
                ap (λ (x : Config). move_each E cs a bs x.available_balance false) (sym f0.0)
                    ∙ f4.0,
                unwrapped moved.messages ms f7.0 ∙ ap (λ ns. some ns) (ap sent_messages k7),
                ap (λ (x : Outcome Response × State E). x.1) (sym k7)
                    ∙ f7.1
                    ∙ ap (λ (x : Outcome (Unit {0}) × State E). x.1) (sym e6)
                    ∙ ap
                        (λ (u : State E). record u {
                          config = record c { available_balance = moved.available };
                        })
                        (f5.1 ∙ f4.1 ∙ f3.1 ∙ f2.1 ∙ f1.1 ∙ f0.1)
                    ∙ ap
                        (λ (x : Config). record s {
                          config = record x { available_balance = moved.available };
                        })
                        f0.0,
              )

  -- A move of balances that succeeds is asked for by the owner, and to the owner's own account; each
  -- message of the response is a bank transfer to the owner, or a cw20 transfer to the owner. The
  -- state changes in nothing but the available balance, which loses of each denomination that it
  -- lists what the messages pay of it, and nothing of the others.
  pub move_balances-success :
      (q : Querier) (info : MessageInfo) (env : Env) (bs : List Balance) (a : Addr) (s t : State E)
      (r : Response)
      → move_balances E q info env bs a s ≡ (ok r, t)
      → (info.sender ≡ s.config.owner_id)
        × (a ≡ s.config.owner_id)
        × ArePayments s.config.owner_id r.messages
        × ((g : GenericBalance) × (t
              ≡ record s { config = record s.config { available_balance = g } })
            × ((d : String)
                → amount_of d g.native_coins
                    + (if has_denom d s.config.available_balance.native_coins
                        then paid d r.messages
                        else 0)
                  ≡ amount_of d s.config.available_balance.native_coins))
  move_balances-success q info env bs a s t r h =
      let (cs, moved, owned, own, each, sends, after) = move_balances-run q info env bs a s t r h in
      let g = s.config.available_balance in
      let pays = yields_ok (Pays a) _ (move_each-Moving E a (moving-Pays a) cs bs g false) each in
      let spent =
        yields_ok (IsSpent g) _ (move_each-Moving E a (moving-IsSpent E a) cs bs g false) each in
      (
        owned,
        sym own,
        subst (λ x. ArePayments x r.messages) (sym own) (pays r.messages sends),
        (moved.available, after, λ d. spent r.messages sends d),
      )
