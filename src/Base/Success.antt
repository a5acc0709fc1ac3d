-- ===== src/Base/Success.antt =====
-- What a step that succeeds tells of its state and its value.
use mathlib.Core.Path.{◌≡◌, refl}
use mathlib.Core.Bool.{Bool, true, false}
use mathlib.Core.Option.{Option, none, some}
use native.Mathlib.Omega.{arith}
use cw_croncat.Base.Keeps.{commit}
use cw_croncat.Base.Outcome.{
  Outcome, ok, err, panic, ContractError, pure, gets, lift, fail_if, or_fail,
}

module _ {S : Type 0} where
  pub fail_if-ok :
      (b : Bool) (e : ContractError) (s u : S) (x : Unit {0})
      → fail_if b e s ≡ (ok x, u)
      → (b ≡ false) × (u ≡ s)
  unfolding fail_if
  fail_if-ok true e s u x h = absurd (ground arith)
  fail_if-ok false e s u x h = (refl, ground arith)

module _ {S A : Type 0} where
  pub pure-ok : (a : A) (s u : S) (b : A) → pure a s ≡ (ok b, u) → u ≡ s
  unfolding pure
  pure-ok a s u b h = ground arith

  pub gets-ok : (f : S → A) (s u : S) (a : A) → gets f s ≡ (ok a, u) → (a ≡ f s) × (u ≡ s)
  unfolding gets
  gets-ok f s u a h = ground arith

  pub lift-ok : (r : Outcome A) (s u : S) (a : A) → lift r s ≡ (ok a, u) → (r ≡ ok a) × (u ≡ s)
  unfolding lift
  lift-ok r s u a h = ground arith

  pub or_fail-ok :
      (o : Option A) (e : ContractError) (s u : S) (a : A)
      → or_fail o e s ≡ (ok a, u)
      → (o ≡ some a) × (u ≡ s)
  unfolding or_fail
  or_fail-ok none e s u a h = absurd (ground arith)
  or_fail-ok (some x) e s u a h = ground arith

-- A run that returns a value.
abbrev pub Succeeds : {S A : Type 0} → Outcome A × S → Type 0
Succeeds (ok _, _) = Unit {0}
Succeeds (err _, _) = ⊥
Succeeds (panic, _) = ⊥

pub returned : {S A : Type 0} (x : Outcome A × S) → Succeeds x → (a : A) × (t : S) × (x ≡ (ok a, t))
returned (ok a, t) h = (a, t, refl)
returned (err e, t) h = elim h [ ]
returned (panic, t) h = elim h [ ]

-- A run that never returns a value is rolled back.
pub commit_failed :
    {S A : Type 0} (s : S) (x : Outcome A × S)
    → ((a : A) (t : S) → x ≡ (ok a, t) → ⊥)
    → commit s x ≡ s
commit_failed s (ok a, t) h = absurd (h a t refl)
commit_failed s (err e, t) h = refl
commit_failed s (panic, t) h = refl

-- What holds before a transaction and after each run that returns holds once it is over.
pub commit-ok :
    {S A : Type 0} (P : S → Type 0) (s : S) (x : Outcome A × S)
    → P s
    → ((a : A) (t : S) → x ≡ (ok a, t) → P t)
    → P (commit s x)
commit-ok P s (ok a, t) before after = after a t refl
commit-ok P s (err e, t) before after = before
commit-ok P s (panic, t) before after = before
