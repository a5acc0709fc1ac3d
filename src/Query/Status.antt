-- ===== src/Query/Status.antt =====
-- `query_get_agent` (agent.rs): what the query says of each phase of an agent's life.
use cw_croncat.Types.{Agent}
use cw_croncat.External.{External}
use cw_croncat.State.{State}
