-- ===== src/Types.antt =====
-- The data of packages/cw-croncat-core/src/types.rs and msg.rs, and the values of cosmwasm_std and
-- cw20 that they hold. `Addr` is a newtype of `String`; a `Timestamp` is its nanoseconds; a task
-- hash kept as `Vec<u8>` is the text whose UTF-8 bytes it is.
use cw_croncat.Base.{ℕ, String, Bool, Option, List, []}

abbrev pub Addr : Type 0
Addr = String

abbrev pub TaskHash : Type 0
TaskHash = String

abbrev pub Timestamp : Type 0
Timestamp = ℕ

abbrev pub Binary : Type 0
Binary = List ℕ

pub record Coin : Type 0 where
  pub denom : String
  pub amount : ℕ

pub record Cw20CoinVerified : Type 0 where
  pub address : Addr
  pub amount : ℕ

-- cw20's `Balance`; `Balance::from` wraps a list of coins, or a cw20 coin.
pub data Balance : Type 0 where
  native : List Coin → Balance
  cw20 : Cw20CoinVerified → Balance

pub record GenericBalance : Type 0 where
  pub native_coins : List Coin
  pub cw20_coins : List Cw20CoinVerified

-- `GenericBalance::default()`
abbrev pub empty_balance_value : GenericBalance
empty_balance_value = record { native_coins = []; cw20_coins = [] }

pub data AgentStatus : Type 0 where
  active pending nominated : AgentStatus

pub record Agent : Type 0 where
  pub payable_account_id : Addr
  pub balance : GenericBalance
  pub total_tasks_executed : ℕ
  pub last_missed_slot : ℕ
  pub register_start : Timestamp

pub record AgentResponse : Type 0 where
  pub status : AgentStatus
  pub payable_account_id : Addr
  pub balance : GenericBalance
  pub total_tasks_executed : ℕ
  pub last_missed_slot : ℕ
  pub register_start : Timestamp

pub data Interval : Type 0 where
  once immediate : Interval
  block : ℕ → Interval
  cron : String → Interval

pub data BoundarySpec : Type 0 where
  height : ℕ → BoundarySpec
  time : Timestamp → BoundarySpec

pub record Boundary : Type 0 where
  pub start : Option BoundarySpec
  pub end : Option BoundarySpec

pub data SlotType : Type 0 where
  block cron : SlotType

pub record Rule : Type 0 where
  pub contract_addr : Addr
  pub msg : Binary

-- The variants of `CosmosMsg` that the code builds or matches; `other` is any other variant.
pub data CosmosMsg : Type 0 where
  wasm_execute : (contract_addr : String) (msg : Binary) (funds : List Coin) → CosmosMsg
  bank_send : (to_address : String) (amount : List Coin) → CosmosMsg
  bank_burn : (amount : List Coin) → CosmosMsg
  gov_vote : (proposal_id : ℕ) → CosmosMsg
  ibc_transfer : (channel_id : String) (to_address : String) (amount : Coin) → CosmosMsg
  other : Binary → CosmosMsg

pub record Action : Type 0 where
  pub msg : CosmosMsg
  pub gas_limit : Option ℕ

pub record Task : Type 0 where
  pub owner_id : Addr
  pub interval : Interval
  pub boundary : Boundary
  pub stop_on_fail : Bool
  pub total_deposit : List Coin
  pub actions : List Action
  pub rules : Option (List Rule)

pub record TaskRequest : Type 0 where
  pub interval : Interval
  pub boundary : Boundary
  pub stop_on_fail : Bool
  pub actions : List Action
  pub rules : Option (List Rule)

pub record TaskResponse : Type 0 where
  pub task_hash : String
  pub owner_id : Addr
  pub interval : Interval
  pub boundary : Boundary
  pub stop_on_fail : Bool
  pub total_deposit : List Coin
  pub actions : List Action
  pub rules : Option (List Rule)

-- A submessage, by the calls of cosmwasm_std that build it.
pub data SubMsg : Type 0 where
  new : CosmosMsg → SubMsg
  reply_always : CosmosMsg → (id : ℕ) → SubMsg
  with_gas_limit : SubMsg → ℕ → SubMsg
