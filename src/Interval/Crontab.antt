-- ===== src/Interval/Crontab.antt =====
-- `Interval::Cron` (packages/cw-croncat-core/src/types.rs): the schedule of a crontab.
use cw_croncat.Base.{ℕ, String, ◌<◌, ◌≡◌, Option, none, some, arith, Option-cases, inl, inr}
use cw_croncat.Base.Outcome.{ok}
use cw_croncat.Types.{Interval, SlotType, Boundary, BoundarySpec, height, time, cron}
use cw_croncat.External.{External}
use cw_croncat.State.{Env}
use cw_croncat.Interval.{next, cron_from}

module _ (E : External) where
  -- The times that a boundary allows, so far as its start is a time.
  abbrev pub StartsBefore : Option BoundarySpec → ℕ → Type 0
  StartsBefore none n = Unit {0}
  StartsBefore (some (height _)) n = Unit {0}
  StartsBefore (some (time ts)) n = ts < n

  cron_from-before :
      (now n : ℕ) (o : Option BoundarySpec) → cron_from now o < n → (now < n) × StartsBefore o n
  unfolding cron_from
  cron_from-before now n none h = (h, tt)
  cron_from-before now n (some (height _)) h = (h, tt)
  cron_from-before now n (some (time ts)) h = (ground arith, ground arith)

  -- Where a schedule's next time lies after the one it is asked about, a crontab that is scheduled at
  -- all is scheduled in the time slots, after the block's time and after a start that is a time; the
  -- end of the boundary makes no difference.
  pub next_cron :
      (env : Env) (b : Boundary) (crontab : String) (n : ℕ) (kind : SlotType)
      → ((schedule : E.Schedule) (t u : ℕ) → E.next_after schedule t ≡ some u → t < u)
      → next E (Interval.cron crontab) env b ≡ ok (n, kind)
      → (kind ≡ cron)
        × (env.block_time < n)
        × StartsBefore b.start n
        × ((e : Option BoundarySpec)
            → next E (Interval.cron crontab) env (record b { end = e }) ≡ ok (n, kind))
  unfolding next
  next_cron env b crontab n kind after h = elim (Option-cases (E.from_str crontab)) [
    | inl e ↦ absurd (ground arith)
    | inr (schedule, e) ↦
        elim (Option-cases (E.next_after schedule (cron_from env.block_time b.start))) [
          | inl f ↦ absurd (ground arith)
          | inr (u, f) ↦
              let same : u ≡ n = ground arith in
              let later =
                cron_from-before env.block_time n b.start
                  (ground (arith, after schedule (cron_from env.block_time b.start) u f)) in
              (ground arith, later.0, later.1, λ x. ground arith)
        ]
  ]
