-- ===== src/Tests/Scenes.antt =====
-- A contract with two agents and a task, and the messages that brought it there.
use cw_croncat.Base.{
  ◌≡◌, ◌≢◌, ◌==◌, eq_iff, arith, ℕ, String, inr, true, false, none, some, List, [], ◌∷◌,
}
use cw_croncat.Base.Outcome.{Outcome, ok, err, panic}
use cw_croncat.Types.{Coin, Interval, Boundary, height, Task, TaskRequest, GenericBalance, other}
use cw_croncat.State.{State, Env, MessageInfo}
use cw_croncat.Messages.{InstantiateMsg}
use cw_croncat.Response.{Response, response}
use cw_croncat.Agent.{Querier, new_agent}
use cw_croncat.Contract.{initial_state, initial_config}
use cw_croncat.Tests.World.{world}

abbrev pub atoms : ℕ → Coin
atoms n = record { denom = "atom"; amount = n }

abbrev pub querier : Querier
querier a = inr (atoms 100 ∷ [])

abbrev pub at_height : ℕ → Env
at_height h = record { block_height = h; block_time = 1000000000000; contract_address = "contract" }

abbrev pub from_account : String → List Coin → MessageInfo
from_account sender funds = record { sender = sender; funds = funds }

abbrev pub setup : InstantiateMsg
setup = record { denom = "atom"; owner_id = some "owner"; agent_nomination_duration = none }

abbrev pub held : GenericBalance
held = record { native_coins = atoms 107 ∷ []; cw20_coins = [] }

abbrev pub started : State world
started = initial_state world (initial_config setup "owner" held)

abbrev pub no_boundary : Boundary
no_boundary = record { start = none; end = none }

abbrev pub until : ℕ → Boundary
until id = record { start = none; end = some (height id) }

abbrev pub request : TaskRequest
request = record {
  interval = Interval.block 10;
  boundary = no_boundary;
  stop_on_fail = true;
  actions = record { msg = other (1 ∷ []); gas_limit = some 5 } ∷ [];
  rules = none;
}

-- The task that `bob` asks for, with 50 atoms.
abbrev pub bobs_task : Task
bobs_task = record {
  owner_id = "bob";
  interval = Interval.block 10;
  boundary = no_boundary;
  stop_on_fail = true;
  total_deposit = atoms 50 ∷ [];
  actions = record { msg = other (1 ∷ []); gas_limit = some 5 } ∷ [];
  rules = none;
}

-- Two registered agents, one of them pending while a nomination runs, and the task.
abbrev pub busy : State world
busy = record started {
  agents = ("ann", new_agent world "ann" 0) ∷ ("cat", new_agent world "cat" 0) ∷ [];
  agent_active_queue = "ann" ∷ [];
  agent_pending_queue = "cat" ∷ [];
  tasks = ("bob", bobs_task) ∷ [];
  task_total = 4;
  block_slots = (110, "bob" ∷ "eve" ∷ []) ∷ (120, "bob" ∷ []) ∷ [];
  agent_nomination_begin_time = some 0;
}

abbrev pub blank : Response
blank = response [] []

-- The value of a run that returns one.
abbrev pub value : {A : Type 0} → A → Outcome A × State world → A
value d (ok a, t) = a
value d (err e, t) = d
value d (panic, t) = d

pub differ : (a b : String) → (a == b) ≡ false → a ≢ b
differ a b h e = ground (arith, eq_iff a b)
