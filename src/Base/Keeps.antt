-- ===== src/Base/Keeps.antt =====
-- Invariants of handlers, one rule for each way to build one.
use mathlib.Core.Bool.{Bool, true, false}
use mathlib.Core.Option.{Option, none, some}
use cw_croncat.Base.Tests.{if◌then◌else◌}
use cw_croncat.Base.Outcome.{
  Outcome, ok, err, panic, ContractError, M, pure, fail, lift, gets, modify, fail_if, or_fail,
  choose, ◌>>=◌,
}

-- `m` keeps `P`, whether it returns, fails or panics.
pub record Keeps {S A : Type 0} (P : S → Type 0) (m : M S A) : Type 0 where
  pub at : (s : S) → P s → P (m s).1

module _ {S A : Type 0} {P : S → Type 0} where
  pub Keeps-gets : (read : S → A) → Keeps P (gets read)
  unfolding gets
  Keeps-gets read = record { at = λ s p. p }

  pub Keeps-or_fail : (o : Option A) (e : ContractError) → Keeps P (or_fail o e)
  unfolding or_fail
  Keeps-or_fail none e = record { at = λ s p. p }
  Keeps-or_fail (some a) e = record { at = λ s p. p }

  pub Keeps-fail : (e : ContractError) → Keeps P (fail {A = A} e)
  unfolding fail
  Keeps-fail e = record { at = λ s p. p }

  pub Keeps-pure : (value : A) → Keeps P (pure value)
  unfolding pure
  Keeps-pure value = record { at = λ s p. p }

  pub Keeps-lift : (outcome : Outcome A) → Keeps P (lift outcome)
  unfolding lift
  Keeps-lift outcome = record { at = λ s p. p }

  pub Keeps-if : (b : Bool) (m n : M S A) → Keeps P m → Keeps P n → Keeps P (if b then m else n)
  Keeps-if true m n km kn = km
  Keeps-if false m n km kn = kn

module _ {S : Type 0} {P : S → Type 0} where
  pub Keeps-modify : (f : S → S) → ((s : S) → P s → P (f s)) → Keeps P (modify f)
  unfolding modify
  Keeps-modify f k = record { at = k }

  pub Keeps-fail_if : (b : Bool) (e : ContractError) → Keeps P (fail_if b e)
  unfolding fail_if
  Keeps-fail_if true e = record { at = λ s h. h }
  Keeps-fail_if false e = record { at = λ s h. h }

module _ {S A B : Type 0} {P : S → Type 0} where
  pub Keeps-choose :
      (o : Option A) (n : M S B) (f : A → M S B)
      → Keeps P n
      → ((a : A) → Keeps P (f a))
      → Keeps P (choose o n f)
  unfolding choose
  Keeps-choose none n f kn kf = kn
  Keeps-choose (some a) n f kn kf = kf a

  Keeps-resume :
      (r : Outcome A) (f : A → M S B) → ((a : A) → Keeps P (f a)) → Keeps P (lift r >>= f)
  unfolding ◌>>=◌
  Keeps-resume (ok a) f kf = kf a
  Keeps-resume (err e) f kf = record { at = λ s h. h }
  Keeps-resume panic f kf = record { at = λ s h. h }

  pub Keeps-bind :
      (first : M S A) (rest : A → M S B)
      → Keeps P first
      → ((a : A) → Keeps P (rest a))
      → Keeps P (first >>= rest)
  unfolding ◌>>=◌
  Keeps-bind first rest kept kr = record {
    at = λ s p. (Keeps-resume (first s).0 rest kr).at (first s).1 (kept.at s p);
  }

pub ruleset keeps_rules = (
  Keeps-pure, Keeps-fail, Keeps-lift, Keeps-gets, Keeps-or_fail, Keeps-if, Keeps-modify,
  Keeps-fail_if, Keeps-choose, Keeps-bind,
)

-- The state after a transaction: a failed or panicking handler is rolled back by the chain.
abbrev pub commit : {S A : Type 0} → S → Outcome A × S → S
commit s (ok _, t) = t
commit s (err _, t) = s
commit s (panic, t) = s

module _ {S A : Type 0} where
  commit-keep : (P : S → Type 0) (s : S) (r : Outcome A × S) → P s → P r.1 → P (commit s r)
  commit-keep P s (ok _, t) h p = p
  commit-keep P s (err _, t) h p = h
  commit-keep P s (panic, t) h p = h

  -- A rollback to an earlier state that has `P` serves as well.
  pub commit_from :
      (P : S → Type 0) (s t : S) (r : Outcome A × S) → P s → P (commit t r) → P (commit s r)
  commit_from P s t (ok _, u) hs p = p
  commit_from P s t (err _, u) hs p = hs
  commit_from P s t (panic, u) hs p = hs

  pub commit-Keeps : {P : S → Type 0} {m : M S A} → Keeps P m → (s : S) → P s → P (commit s (m s))
  commit-Keeps {P} {m} k s h = commit-keep P s (m s) h (k.at s h)

-- `m` keeps `P` as a transaction: when it fails, what it wrote is rolled back.
pub record Commits {S A : Type 0} (P : S → Type 0) (m : M S A) : Type 0 where
  pub at : (s : S) → P s → P (commit s (m s))

module _ {S A B : Type 0} {P : S → Type 0} where
  commit-resume :
      (f : A → M S B) (s t : S) (r : Outcome A)
      → P s
      → P t
      → ((a : A) → Commits P (f a))
      → P (commit s ((lift r >>= f) t))
  unfolding ◌>>=◌
  commit-resume f s t (ok a) hs ht kf = commit_from P s t (f a t) hs ((kf a).at t ht)
  commit-resume f s t (err e) hs ht kf = hs
  commit-resume f s t panic hs ht kf = hs

  pub Commits-bind :
      (m : M S A) (f : A → M S B) → Keeps P m → ((a : A) → Commits P (f a)) → Commits P (m >>= f)
  unfolding ◌>>=◌
  Commits-bind m f km kf = record {
    at = λ s h. let (r, t) = m s in commit-resume f s t r h (km.at s h) kf;
  }

module _ {S B : Type 0} {P : S → Type 0} where
  -- Two changes that keep `P` together.
  pub Keeps-modify_twice :
      (f g : S → S) (k : M S B)
      → ((s : S) → P s → P (g (f s)))
      → Keeps P k
      → Keeps P (modify f >>= λ _. modify g >>= λ _. k)
  unfolding ◌>>=◌
  Keeps-modify_twice f g k h kk = record { at = λ s p. kk.at (g (f s)) (h s p) }

  pub Keeps-modify_thrice :
      (f g h : S → S) (k : M S B)
      → ((s : S) → P s → P (h (g (f s))))
      → Keeps P k
      → Keeps P (modify f >>= λ _. modify g >>= λ _. modify h >>= λ _. k)
  unfolding ◌>>=◌
  Keeps-modify_thrice f g h k kept kk = record { at = λ s p. kk.at (h (g (f s))) (kept s p) }

-- From a state with `Q`, `m` leaves one with `P`.
pub record Leads {S A : Type 0} (Q P : S → Type 0) (m : M S A) : Type 0 where
  pub at : (s : S) → Q s → P (m s).1

module _ {S A : Type 0} {Q P : S → Type 0} where
  -- `m` keeps something between the two.
  pub Leads-Keeps :
      (R : S → Type 0) (m : M S A)
      → ((s : S) → Q s → R s)
      → ((s : S) → R s → P s)
      → Keeps R m
      → Leads Q P m
  Leads-Keeps R m before after k = record { at = λ s q. after (m s).1 (k.at s (before s q)) }

  pub Leads-if :
      (b : Bool) (m n : M S A) → Leads Q P m → Leads Q P n → Leads Q P (if b then m else n)
  Leads-if true m n lm ln = lm
  Leads-if false m n lm ln = ln

  pub Leads-lift :
      {B : Type 0} (r : Outcome B) (f : B → M S A)
      → ((s : S) → Q s → P s)
      → ((b : B) → Leads Q P (f b))
      → Leads Q P (lift r >>= f)
  unfolding ◌>>=◌
  Leads-lift (ok b) f weaker lf = lf b
  Leads-lift (err e) f weaker lf = record { at = weaker }
  Leads-lift panic f weaker lf = record { at = weaker }
