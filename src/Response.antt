-- ===== src/Response.antt =====
-- `Response` of cosmwasm_std as the handlers fill it: attributes, each with the value that is
-- formatted into its text, and submessages. No handler adds an event.
use cw_croncat.Base.{ℕ, String, Bool, List, [], ◌∷◌, ◌++◌}
use cw_croncat.Types.{AgentStatus, SlotType, Coin, SubMsg}

pub data Value : Type 0 where
  text : String → Value
  number : ℕ → Value
  flag : Bool → Value
  status : AgentStatus → Value
  kind : SlotType → Value
  coin : Coin → Value
  coins : List Coin → Value
  indices : List (SlotType × ℕ × ℕ) → Value

pub record Response : Type 0 where
  pub attributes : List (String × Value)
  pub messages : List SubMsg

-- `Response::new()` with its attributes and submessages.
abbrev pub response : List (String × Value) → List SubMsg → Response
response attributes messages = record { attributes = attributes; messages = messages }

abbrev pub add_attribute : Response → String → Value → Response
add_attribute r key v = record r { attributes = r.attributes ++ (key, v) ∷ [] }

-- `add_attributes(resp.attributes).add_submessages(resp.messages)`
abbrev pub extend : Response → Response → Response
extend r resp = record {
  attributes = r.attributes ++ resp.attributes;
  messages = r.messages ++ resp.messages;
}
