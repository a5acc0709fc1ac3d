-- ===== src/Interval/Agreement.antt =====
-- The two texts of the schedule, in types.rs and slots.rs.
use cw_croncat.Base.{arith, ◌≡◌, refl}
use cw_croncat.Types.{Interval, once, immediate, Boundary}
use cw_croncat.State.{Env}
use cw_croncat.External.{External}
use cw_croncat.Interval.{
  next, is_valid, get_next_block_limited, get_next_block_by_offset, limited_start, offset_start,
  cron_from,
}
use cw_croncat.Interval.Copy

-- The trait implementation in slots.rs and the inherent methods in types.rs agree on every interval,
-- block and boundary, panics included, and accept the same intervals.
pub next-Copy :
    (E : External) (i : Interval) (env : Env) (b : Boundary)
    → (Copy.next E i env b ≡ next E i env b) × (Copy.is_valid E i ≡ is_valid E i)
unfolding next is_valid Copy.next Copy.is_valid get_next_block_limited get_next_block_by_offset
    Copy.get_next_block_limited Copy.get_next_block_by_offset limited_start offset_start cron_from
    Copy.limited_start Copy.offset_start Copy.cron_from
next-Copy E once env b = (ground arith, refl)
next-Copy E immediate env b = (ground arith, refl)
next-Copy E (Interval.block n) env b = (ground arith, refl)
next-Copy E (Interval.cron c) env b = (ground arith, ground arith)
