-- ===== src/Tests/Clock.antt =====
-- A check-in after some messages, on a small state.
use cw_croncat.Base.{◌≢◌, ◌↔◌, none, [], ◌∷◌, arith}
use cw_croncat.Base.Outcome.{panic}
use cw_croncat.Types.{Addr, Timestamp}
use cw_croncat.State.{State, Env, MessageInfo}
use cw_croncat.Messages.{ExecuteMsg}
use cw_croncat.Agent.{accept_nomination_agent}
use cw_croncat.Contract.Clock.{History}
use cw_croncat.Contract.Clock.CheckIn.{IsLetIn, Succeeds, reachable-check_in}
use cw_croncat.Tests.World.{world}
use cw_croncat.Tests.Scenes.{started, setup, querier, at_height, from_account, request, atoms}
use cw_croncat.Tests.Entry.{after, run-opened, opened, greeting}

abbrev registers : Addr → State world → State world
registers account = after (from_account account []) (ExecuteMsg.register_agent none)

abbrev creates : Addr → State world → State world
creates account = after (from_account account (atoms 50 ∷ [])) (ExecuteMsg.create_task request)

-- Two agents register, and four tasks make the second one nominated.
abbrev crowded : State world
crowded =
    creates "gus"
      (creates "fay" (creates "eve" (creates "bob" (registers "cat" (registers "ann" started)))))

abbrev moment : Timestamp
moment = (at_height 100).block_time

one_more :
    (info : MessageInfo) (msg : ExecuteMsg) (s : State world)
    → History world started moment s moment
    → History world started moment (after info msg s) moment
one_more info msg s path = History.message path querier (at_height 100) info msg (omega arith)

path-crowded : History world started moment crowded moment
path-crowded = one_more _ _ _ (
    one_more _ _ _
      (one_more _ _ _ (one_more _ _ _ (one_more _ _ _ (one_more _ _ _ History.fresh)))))

-- A thousand seconds later.
abbrev evening : Env
evening = record { block_height = 200; block_time = 2000000000000; contract_address = "contract" }

reachable-check_in_example :
    ((accept_nomination_agent world (from_account "cat" []) evening crowded).0 ≢ panic)
    × (Succeeds world (from_account "cat" []) evening crowded
        ↔ IsLetIn world (from_account "cat" []) evening crowded)
reachable-check_in_example =
    reachable-check_in world querier (at_height 100) evening (from_account "owner" (atoms 7 ∷ []))
      (from_account "cat" []) setup started crowded moment (greeting opened) run-opened
      (λ e. ground arith) path-crowded (omega arith)
