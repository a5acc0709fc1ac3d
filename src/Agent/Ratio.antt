-- ===== src/Agent/Ratio.antt =====
-- `agents_to_let_in` (helpers.rs): how many agents the tasks call for.
use native.Mathlib.Nat.{div-add-mod, mod-lt, div-le_self}
use cw_croncat.Base.{
  ℕ, ◌+◌, ◌-◌, ◌*◌, ◌/◌, ◌%◌, ◌≤◌, ◌<◌, ◌≡◌, ◌≢◌, ◌⊎◌, inl, inr, refl, arith, ltb, eqb, Bool-cases,
  ltb→lt,
}
use cw_croncat.Base.Outcome.{ok, u64_mod}
use cw_croncat.Agent.{agents_to_let_in}

-- A quotient and its successor stay below the number, as far as they are used.
quotient-le : (r m : ℕ) → 0 < m → r / m ≤ r
quotient-le r m pos = div-le_self r m

quotient_suc-le : (r m : ℕ) → 0 < m → r % m ≢ 0 → r / m + 1 ≤ r
quotient_suc-le r m pos h = grind (arith, div-add-mod r m)

-- The agents asked for are as few as let every task be covered: with `n` more, the tasks fit in
-- `max_tasks` each; with one fewer they do not. The computation does not panic where the products
-- fit a word and a task ratio is set.
pub agents_to_let_in-least :
    (max_tasks active total : ℕ)
    → 0 < max_tasks
    → active * max_tasks < u64_mod
    → total < u64_mod
    → (n : ℕ) × (agents_to_let_in max_tasks active total ≡ ok n)
      × (total ≤ (active + n) * max_tasks)
      × ((n ≡ 0) ⊎ ((active + n) * max_tasks < total + max_tasks))
unfolding agents_to_let_in
agents_to_let_in-least max_tasks active total pos covered fits =
    elim (Bool-cases (ltb (active * max_tasks) total)) [
      | inr e ↦ (0, ground arith, ground arith, inl refl)
      | inl e ↦ elim (Bool-cases (eqb ((total - active * max_tasks) % max_tasks) 0)) [
        | inl z ↦ (
          (total - active * max_tasks) / max_tasks,
          ground (arith, quotient-le (total - active * max_tasks) max_tasks pos),
          ground (arith, div-add-mod (total - active * max_tasks) max_tasks),
          inr (ground (arith, div-add-mod (total - active * max_tasks) max_tasks, ltb→lt _ _ e)),
        )
        | inr z ↦ (
          (total - active * max_tasks) / max_tasks + 1,
          ground (arith, quotient_suc-le (total - active * max_tasks) max_tasks pos),
          ground (
            arith,
            div-add-mod (total - active * max_tasks) max_tasks,
            mod-lt (total - active * max_tasks) pos,
          ),
          inr (ground (arith, div-add-mod (total - active * max_tasks) max_tasks, ltb→lt _ _ e)),
        )
      ]
    ]
