-- ===== src/Interval.antt =====
-- The schedule of a task, packages/cw-croncat-core/src/types.rs: these inherent methods are the ones
-- that the contract calls. `Copy` is the trait implementation in contracts/cw-croncat/src/slots.rs.
pub mod Copy
pub mod Agreement
pub mod Bounds
pub mod Crontab
use cw_croncat.Base.{ℕ, ◌+◌, ◌-◌, Bool, true, false, Option, none, some, ltb, if◌then◌else◌}
use cw_croncat.Base.Outcome.{Outcome, ok, panic, bind, checked, checked_rem, u64_mod}
use cw_croncat.Types.{
  Interval, once, immediate, SlotType, Boundary, BoundarySpec, height, time, Timestamp,
}
use cw_croncat.State.{Env}
use cw_croncat.External.{External}

-- The height before the first one allowed: `id - 1` for a start ahead, else the current one.
unfoldable pub limited_start : ℕ → Option BoundarySpec → ℕ
limited_start current none = current
limited_start current (some (height id)) = if ltb current id then id - 1 else current
limited_start current (some (time _)) = current

unfoldable pub get_next_block_limited : Env → Boundary → Outcome (ℕ × SlotType)
unfolding limited_start
get_next_block_limited env boundary =
    let current = env.block_height in
    let next_block = limited_start current boundary.start in
    let scheduled = bind (checked u64_mod (next_block + 1)) (λ n. ok (n, SlotType.block)) in
    elim boundary.end [
      | none ↦ scheduled
      | some (height id) ↦
          if ltb id current
          then ok (0, SlotType.block)
          else if ltb id next_block
          then ok (id, SlotType.block)
          else scheduled
      | some (time _) ↦ panic
    ]

-- The next multiple of `block` that the start allows.
unfoldable pub offset_start : ℕ → ℕ → ℕ → Option BoundarySpec → Outcome ℕ
offset_start current block modulo_block none = ok modulo_block
offset_start current block modulo_block (some (height id)) =
    if ltb current id
    then bind (checked_rem id block)
        (λ rem. if ltb 0 rem then checked u64_mod (id - rem + block) else ok id)
    else ok modulo_block
offset_start current block modulo_block (some (time _)) = ok modulo_block

unfoldable pub get_next_block_by_offset : Env → Boundary → ℕ → Outcome (ℕ × SlotType)
unfolding offset_start
get_next_block_by_offset env boundary block =
    let current = env.block_height in
    bind (checked_rem current block) λ r.
      bind (checked u64_mod (current - r + block)) λ modulo_block.
        bind (offset_start current block modulo_block boundary.start) λ next_block.
          elim boundary.end [
            | none ↦ ok (next_block, SlotType.block)
            | some (height id) ↦ bind (checked_rem id block) λ rem.
                let end_height = if ltb 0 rem then id - rem else id in
                if ltb id current
                then ok (0, SlotType.block)
                else if ltb end_height next_block
                then ok (end_height, SlotType.block)
                else ok (next_block, SlotType.block)
            | some (time _) ↦ panic
          ]

-- The time from which a crontab is read: a start ahead, else the block's time.
unfoldable pub cron_from : Timestamp → Option BoundarySpec → Timestamp
cron_from now none = now
cron_from now (some (height _)) = now
cron_from now (some (time ts)) = if ltb now ts then ts else now

module _ (E : External) where
  unfoldable pub next : Interval → Env → Boundary → Outcome (ℕ × SlotType)
  unfolding cron_from
  next once env boundary = get_next_block_limited env boundary
  next immediate env boundary = get_next_block_limited env boundary
  next (Interval.block n) env boundary = get_next_block_by_offset env boundary n
  next (Interval.cron crontab) env boundary = elim (E.from_str crontab) [
    | none ↦ panic
    | some schedule ↦ elim (E.next_after schedule (cron_from env.block_time boundary.start)) [
      | none ↦ panic
      | some next_ts ↦ ok (next_ts, SlotType.cron)
    ]
  ]

  unfoldable pub is_valid : Interval → Bool
  is_valid once = true
  is_valid immediate = true
  is_valid (Interval.block _) = true
  is_valid (Interval.cron crontab) = elim (E.from_str crontab) [ none ↦ false | some _ ↦ true ]
