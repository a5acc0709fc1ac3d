-- ===== src/Manager/Attempt.antt =====
-- An action whose error is dropped keeps what the action keeps.
use cw_croncat.Base.Outcome.{Outcome, ok, err, panic, M}
use cw_croncat.Base.Keeps.{Keeps}
use cw_croncat.External.{External}
use cw_croncat.State.{State}
use cw_croncat.Manager.{attempt, dropped}

module _ {E : External} {A : Type 0} where
  dropped-keep : (P : State E → Type 0) (r : Outcome A × State E) → P r.1 → P (dropped E r).1
  unfolding dropped
  dropped-keep P (ok a, t) p = p
  dropped-keep P (err e, t) p = p
  dropped-keep P (panic, t) p = p

  pub Keeps-attempt : {P : State E → Type 0} (m : M (State E) A) → Keeps P m → Keeps P (attempt E m)
  unfolding attempt
  Keeps-attempt {P} m k = record { at = λ s h. dropped-keep P (m s) (k.at s h) }
