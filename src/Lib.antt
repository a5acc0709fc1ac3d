-- ===== src/Lib.antt =====
-- CronCat's CosmWasm contract, which schedules tasks of its users and pays agents to trigger them.
--
-- A user creates a task: actions (messages), an interval (once, immediately, every n blocks, a cron
-- line) and a boundary. `create_task` stores it under its hash and puts the hash into a slot, a block
-- height or a timestamp. An active agent calls `proxy_call`, which pops a hash from the earliest slot
-- that is due and sends the task's actions as submessages; the chain answers with replies, and
-- `proxy_callback` puts the hash into its next slot or removes the task. Agents register, wait in a
-- pending queue, and check in when the tasks ask for more agents. The owner changes settings and moves
-- balances.
--
-- The files, and the code each models:
--   Types, Messages: packages/cw-croncat-core/src/types.rs and msg.rs, the data. A `Timestamp` is its
--   nanoseconds; a task hash kept as bytes is the text whose bytes it is. `CosmosMsg` has the variants
--   that the code builds or matches, and one for all others.
--   Base.Outcome: contracts/cw-croncat/src/error.rs, and what a Rust function returns: a value, an error
--   or a panic. Arithmetic is checked, as Cargo.toml sets `overflow-checks`: a sum that does not fit its
--   width and a difference below 0 are panics. A handler is a function from the storage to its outcome
--   and the storage as written so far; Base.Keeps has `commit`, which rolls a failed handler back, as
--   the chain does, and the rules for properties that a handler keeps or that it leads to;
--   Base.Success has what a step that succeeds tells.
--   Base.Count and Base.Bag: how often a text stands in a list, and lists up to their order.
--   External: what the contract calls in other crates, as a record of operations and their laws: the
--   maps of cw_storage_plus, the cron schedule, the hash and the text it is taken of, and functions of
--   cosmwasm_std. Every definition that uses it takes it as a parameter.
--   State: contracts/cw-croncat/src/state.rs, the storage. `instantiate` saves every `Item`, and nothing
--   removes one, so an `Item` is a field.
--   Balance: `GenericBalance` in packages/cw-croncat-core/src/types.rs. Balance.Amounts, Balance.Order,
--   Balance.Enough: the amounts of a denomination, additions in either order, and when a balance has
--   enough.
--   Interval: `Interval::next` and `is_valid` in the same file, which the contract calls; Interval.Copy:
--   the trait implementation in contracts/cw-croncat/src/slots.rs, which it does not. Interval.Bounds,
--   Interval.Crontab, Interval.Agreement: where a task is scheduled, and the two compared.
--   Task: `is_valid_msg`, `to_gas_total` and `to_hash` of `Task` in the same file.
--   Slots: contracts/cw-croncat/src/slots.rs, and the push that tasks.rs and manager.rs both write out.
--   Slots.Pop, Slots.Current: pushes and pops, and the slot that is due.
--   Agent: contracts/cw-croncat/src/agent.rs and the agents' part of helpers.rs. Agent.Queue and
--   Agent.Consistency: the queues and the registry; Agent.Ratio: agents asked for; Agent.Nomination,
--   Agent.Registration, Agent.CheckIn: who joins which queue, and when exactly; Agent.Withdrawal:
--   rewards; Agent.Lifecycle, with its Joining and Leaving: an agent as a state machine.
--   Tasks: contracts/cw-croncat/src/tasks.rs. Tasks.Creation, Tasks.Removal, Tasks.Removed,
--   Tasks.Refill: its handlers;
--   Tasks.Booking, Tasks.Accepted: exactly when a creation succeeds, and the state it leaves;
--   Tasks.RoundTrip: a removal after a creation; Tasks.Catalog, Tasks.Filing: the catalog against the
--   slots, and both under the handlers; Tasks.Agenda: the slots as bags of hashes.
--   Manager: contracts/cw-croncat/src/manager.rs. Manager.Attempt, Manager.Replies, Manager.Call:
--   errors that are dropped, the queue of replies, and calls that run a task; Manager.Serving: when
--   a call runs one; Manager.Service: from a creation to the call that can run its task;
--   Manager.Callback: what a reply makes of its task; Manager.Recurring: from a reply to the next call;
--   Manager.Ending: a task after its end; Manager.Agenda: the slots as bags under calls and replies;
--   Manager.Filing and Manager.Awaiting: catalog, slots and the queue of replies under calls and
--   replies.
--   Owner: contracts/cw-croncat/src/owner.rs, the handlers of the contract's owner. Owner.Moves,
--   Owner.Payments: what its moves pay, and where to.
--   Contract: contracts/cw-croncat/src/contract.rs, the dispatch. Contract.Frame: what handlers leave
--   alone, in Frame.Agents, Frame.Tasks and Frame.Calls by the part of the storage that they write, and
--   Frame.Execute for all messages; Contract.Access, Contract.Consistency, Contract.Reach: settings,
--   and the states that messages and replies lead to; Contract.Catalog, Contract.Awaiting: more of
--   those states; Contract.Work: what messages about agents leave alone; Contract.Lifecycle: how
--   messages move agents; Contract.Unpaid: agents' rewards in reachable states;
--   Contract.Agenda: the slots as bags under every message and reply; Contract.Swapped,
--   Contract.Commuting: two creations in either order, and the slots they fill; Contract.Clock and its
--   CheckIn: nominations and check-ins as blocks follow in time; Contract.Answers: the dispatch of
--   queries.
--   Balancer: contracts/cw-croncat/src/balancer.rs, and `vect_difference` of helpers.rs.
--   Balancer.Order, Balancer.Tally and Balancer.Shares: who is served when, sums over agents, and the
--   shares of all agents.
--   Query: the queries in agent.rs, owner.rs and tasks.rs. Query.Status, Query.Tasks,
--   Query.Paging: an agent's status, a task that was created, and the pages of tasks. `usize`
--   has 32 bits, as on wasm32.
--   Response: the responses of handlers, their attributes kept as values instead of formatted texts.
--   Tests: a small instance of External, and runs on it.
--
-- The loops of the code go through lists, so each is structural recursion; no definition takes fuel.
--
-- Not modelled: serialisation; the JSON schemas and TypeScript types; the record of the contract's
-- version by cw2, which nothing reads; the key prefixes of the storage; gas; log output. The secondary
-- index of tasks by owner is a filter of the catalog.
pub mod Base
pub mod Types
pub mod External
pub mod Balance
pub mod State
pub mod Interval
pub mod Task
pub mod Slots
pub mod Response
pub mod Agent
pub mod Tasks
pub mod Manager
pub mod Messages
pub mod Owner
pub mod Contract
pub mod Balancer
pub mod Query
pub mod Tests
