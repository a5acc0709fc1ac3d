-- ===== src/Contract/Answers.antt =====
-- The entry point of queries, contracts/cw-croncat/src/contract.rs: which query answers which message.
use cw_croncat.Base.{String, Bool, Option, List}
use cw_croncat.Base.Outcome.{Outcome, ok, bind}
use cw_croncat.Types.{AgentResponse, TaskResponse}
use cw_croncat.External.{External}
use cw_croncat.State.{State, Env}
use cw_croncat.Messages.{QueryMsg}
use cw_croncat.Balancer.{AgentTaskResponse}
use cw_croncat.Query.{
  GetConfigResponse, GetBalancesResponse, GetAgentIdsResponse, GetSlotHashesResponse,
  GetSlotIdsResponse, query_config, query_balances, query_get_agent, query_get_agent_ids,
  query_get_agent_tasks, query_get_tasks, query_get_tasks_by_owner, query_get_task,
  query_get_task_hash, query_validate_interval, query_slot_tasks, query_slot_ids,
}

-- What `to_binary` is given.
pub data Answer : Type 0 where
  config : GetConfigResponse → Answer
  balances : GetBalancesResponse → Answer
  agent : Option AgentResponse → Answer
  agent_ids : GetAgentIdsResponse → Answer
  agent_tasks : Option AgentTaskResponse → Answer
  tasks : List TaskResponse → Answer
  task : Option TaskResponse → Answer
  task_hash : String → Answer
  valid : Bool → Answer
  slot_hashes : GetSlotHashesResponse → Answer
  slot_ids : GetSlotIdsResponse → Answer

module _ (E : External) where
  unfoldable pub query : Env → QueryMsg → State E → Outcome Answer
  query env QueryMsg.get_config s = ok (Answer.config (query_config E s))
  query env QueryMsg.get_balances s = ok (Answer.balances (query_balances E s))
  query env (QueryMsg.get_agent account_id) s =
      bind (query_get_agent E env account_id s) λ a. ok (Answer.agent a)
  query env QueryMsg.get_agent_ids s = ok (Answer.agent_ids (query_get_agent_ids E s))
  query env (QueryMsg.get_agent_tasks account_id) s =
      bind (query_get_agent_tasks E env account_id s) λ a. ok (Answer.agent_tasks a)
  query env (QueryMsg.get_tasks from_index limit) s =
      ok (Answer.tasks (query_get_tasks E from_index limit s))
  query env (QueryMsg.get_tasks_by_owner owner_id) s =
      ok (Answer.tasks (query_get_tasks_by_owner E owner_id s))
  query env (QueryMsg.get_task hash) s = ok (Answer.task (query_get_task E hash s))
  query env (QueryMsg.get_task_hash t) s = ok (Answer.task_hash (query_get_task_hash E t))
  query env (QueryMsg.validate_interval interval) s =
      ok (Answer.valid (query_validate_interval E interval))
  query env (QueryMsg.get_slot_hashes slot) s = ok (Answer.slot_hashes (query_slot_tasks E slot s))
  query env QueryMsg.get_slot_ids s = ok (Answer.slot_ids (query_slot_ids E s))
