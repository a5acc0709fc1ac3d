-- ===== src/Base/Outcome.antt =====
-- What a Rust function of the contract returns: a value, a `ContractError` (error.rs), or a panic
-- (an overflow, an `unwrap` of nothing, `unreachable!()`); and handlers that change a state.
use native.Mathlib.Omega.{arith}
use mathlib.Core.Path.{◌≡◌, refl, subst, ap}
use mathlib.Core.Logic.{◌⊎◌, inl, inr}
use mathlib.Core.Bool.{Bool, true, false}
use Prim.Native.Nat.{ℕ, ◌<◌, ◌+◌, ◌-◌, ◌%◌}
use Prim.Native.String.{String}
use mathlib.Core.Option.{Option, none, some}
use cw_croncat.Base.Tests.{ltb, leb, eqb, if◌then◌else◌, ltb→lt, tests, Bool-cases}

-- `std` holds the text of a `StdError`.
pub data ContractError : Type 0 where
  std : String → ContractError
  unauthorized unknown_reply_id empty_balance no_task_found : ContractError
  not_in_whitelist agent_not_registered attached_deposit : ContractError
  contract_paused custom_error : String → ContractError

pub data Outcome (A : Type 0) : Type 0 where
  ok : A → Outcome A
  err : ContractError → Outcome A
  panic : Outcome A

abbrev pub bind : {A B : Type 0} → Outcome A → (A → Outcome B) → Outcome B
bind (ok a) f = f a
bind (err e) f = err e
bind panic f = panic

-- Checked arithmetic: `overflow-checks = true` in Cargo.toml, and `Uint128`.
abbrev pub u64_mod : ℕ
u64_mod = 18446744073709551616

-- `usize` has 32 bits on wasm32, which a contract is built for.
abbrev pub usize_mod : ℕ
usize_mod = 4294967296

abbrev pub u32_mod : ℕ
u32_mod = 4294967296

abbrev pub u128_mod : ℕ
u128_mod = 340282366920938463463374607431768211456

abbrev pub checked : ℕ → ℕ → Outcome ℕ
checked bound n = if ltb n bound then ok n else panic

abbrev pub checked_sub : ℕ → ℕ → Outcome ℕ
checked_sub a b = if leb b a then ok (a - b) else panic

-- `a % b` panics when `b` is 0.
abbrev pub checked_rem : ℕ → ℕ → Outcome ℕ
checked_rem a b = if eqb b 0 then panic else ok (a % b)

abbrev pub saturating : ℕ → ℕ → ℕ
saturating bound n = if ltb n bound then n else bound - 1

-- A handler: the storage comes back after an error too, with what was written before it.
abbrev pub M : Type 0 → Type 0 → Type 0
M S A = S → Outcome A × S

module _ {S A : Type 0} where
  unfoldable pub pure : A → M S A
  pure a s = (ok a, s)

  unfoldable pub fail : ContractError → M S A
  fail e s = (err e, s)

  unfoldable pub lift : Outcome A → M S A
  lift r s = (r, s)

  -- `x.load(storage)?`
  unfoldable pub gets : (S → A) → M S A
  gets f s = (ok (f s), s)

  unfoldable pub or_fail : Option A → ContractError → M S A
  or_fail none e s = (err e, s)
  or_fail (some a) e s = (ok a, s)

module _ {S : Type 0} where
  -- `x.save(storage, &v)?`, as a change of the state.
  unfoldable pub modify : (S → S) → M S (Unit {0})
  modify f s = (ok tt, f s)

  -- `if b { return Err(e); }`
  unfoldable pub fail_if : Bool → ContractError → M S (Unit {0})
  fail_if true e s = (err e, s)
  fail_if false e s = (ok tt, s)

module _ {S A B : Type 0} where
  abbrev resume : Outcome A → (A → M S B) → M S B
  resume (ok a) f s = f a s
  resume (err e) f s = (err e, s)
  resume panic f s = (panic, s)

  -- `match o { None => n, Some(a) => f(a) }`
  unfoldable pub choose : Option A → M S B → (A → M S B) → M S B
  choose none n f = n
  choose (some a) n f = f a

  infixl 5 ◌>>=◌ ◌>>◌
  -- To open this opens the actions above.
  unfoldable pub ◌>>=◌ : M S A → (A → M S B) → M S B
  unfolding pure fail lift gets modify fail_if or_fail choose
  ◌>>=◌ m f s = let (r, t) = m s in resume r f t

  abbrev pub ◌>>◌ : M S A → M S B → M S B
  m >> k = m >>= λ _. k

-- A `StdResult`: the text of an error, or a value. `?` wraps the error.
abbrev pub StdResult : Type 0 → Type 0
StdResult A = String ⊎ A

abbrev pub from_std : {A : Type 0} → StdResult A → Outcome A
from_std (inl msg) = err (std msg)
from_std (inr a) = ok a

-- A chain that succeeds succeeded in each part.
pub bind_parts :
    {A B : Type 0} (r : Outcome A) (f : A → Outcome B) {b : B}
    → bind r f ≡ ok b
    → (a : A) × (r ≡ ok a) × (f a ≡ ok b)
bind_parts (ok a) f h = (a, refl, h)
bind_parts (err e) f h = absurd (ground arith)
bind_parts panic f h = absurd (ground arith)

pub StdResult-cases :
    {A : Type 0} (r : StdResult A) → ((m : String) × (r ≡ inl m)) ⊎ ((a : A) × (r ≡ inr a))
StdResult-cases (inl m) = inl (m, refl)
StdResult-cases (inr a) = inr (a, refl)

-- `P` holds of the value, if there is one.
abbrev pub Yields : {A : Type 0} → (A → Type 0) → Outcome A → Type 0
Yields P (ok a) = P a
Yields P (err e) = Unit
Yields P panic = Unit

pub Yields-bind :
    {A B : Type 0} (P : A → Type 0) (Q : B → Type 0) (r : Outcome A) (f : A → Outcome B)
    → Yields P r
    → ((a : A) → P a → Yields Q (f a))
    → Yields Q (bind r f)
Yields-bind P Q (ok a) f h k = k a h
Yields-bind P Q (err e) f h k = tt
Yields-bind P Q panic f h k = tt

pub checked-Yields : (bound n : ℕ) → Yields (λ m. (m ≡ n) × (n < bound)) (checked bound n)
checked-Yields bound n = elim (Bool-cases (ltb n bound)) [
  | inl e ↦ rw e (refl, ltb→lt n bound e)
  | inr e ↦ rw e tt
]

pub checked_sub-Yields : (a b : ℕ) → Yields (λ m. m + b ≡ a) (checked_sub a b)
checked_sub-Yields a b = elim (Bool-cases (leb b a)) [
  | inl e ↦ rw e (omega tests)
  | inr e ↦ rw e tt
]

pub yields_ok : {A : Type 0} (P : A → Type 0) (r : Outcome A) {a : A} → Yields P r → r ≡ ok a → P a
yields_ok P (ok b) h e = subst P (ground arith) h
yields_ok P (err x) h e = cc
yields_ok P panic h e = cc

pub Yields-mono :
    {A : Type 0} (P Q : A → Type 0) (r : Outcome A)
    → Yields P r
    → ((a : A) → P a → Q a)
    → Yields Q r
Yields-mono P Q (ok a) h k = k a h
Yields-mono P Q (err e) h k = tt
Yields-mono P Q panic h k = tt

module _ {S A B : Type 0} where
  resume_ok :
      (r : Outcome A) (f : A → M S B) (u : S) {b : B} {t : S}
      → resume r f u ≡ (ok b, t)
      → (a : A) × (r ≡ ok a) × (f a u ≡ (ok b, t))
  resume_ok (ok a) f u h = (a, refl, h)
  resume_ok (err e) f u h = absurd (ground arith)
  resume_ok panic f u h = absurd (ground arith)

  -- A chain that succeeds is a first step that succeeds, and a rest that does from its state.
  pub bind_ok :
      {P : Type 0} (m : M S A) (f : A → M S B) (s : S) {b : B} {t : S}
      → (m >>= f) s ≡ (ok b, t)
      → ((a : A) (u : S) → m s ≡ (ok a, u) → f a u ≡ (ok b, t) → P)
      → P
  unfolding ◌>>=◌
  bind_ok m f s h k =
      let (r, u) = m s in
      let (a, e, rest) = resume_ok r f u h in k a u (ap (λ (x : Outcome A). (x, u)) e) rest
