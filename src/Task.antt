-- ===== src/Task.antt =====
-- `impl Task` of packages/cw-croncat-core/src/types.rs.
use cw_croncat.Base.{
  ℕ, ◌+◌, String, Bool, true, false, not, ◌&&◌, Option, none, some, List, [], ◌∷◌, ◌==◌,
  if◌then◌else◌,
}
use cw_croncat.Base.Outcome.{saturating, u64_mod}
use cw_croncat.Types.{
  Addr, Task, TaskHash, Action, CosmosMsg, wasm_execute, bank_send, bank_burn, gov_vote,
  ibc_transfer, other,
}
use cw_croncat.External.{External}

-- Whether one action keeps `valid`: no call of this contract but by its owner, no bank, vote or
-- transfer message.
unfoldable pub is_valid_action : Addr → Addr → Addr → CosmosMsg → Bool
is_valid_action self_addr sender owner_id (wasm_execute contract_addr _ _) =
    if contract_addr == self_addr && not (sender == owner_id) then false else true
is_valid_action self_addr sender owner_id (bank_send _ _) = false
is_valid_action self_addr sender owner_id (bank_burn _) = false
is_valid_action self_addr sender owner_id (gov_vote _) = false
is_valid_action self_addr sender owner_id (ibc_transfer _ _ _) = false
is_valid_action self_addr sender owner_id (other _) = true

unfoldable pub valid_actions : Addr → Addr → Addr → Bool → List Action → Bool
unfolding is_valid_action
valid_actions self_addr sender owner_id valid [] = valid
valid_actions self_addr sender owner_id valid (a ∷ actions) =
    valid_actions self_addr sender owner_id
      (if is_valid_action self_addr sender owner_id a.msg then valid else false) actions

unfoldable pub is_valid_msg : Task → Addr → Addr → Addr → Bool
unfolding valid_actions
is_valid_msg task self_addr sender owner_id =
    valid_actions self_addr sender owner_id true task.actions

abbrev gas_or_zero : Option ℕ → ℕ
gas_or_zero none = 0
gas_or_zero (some gas) = gas

unfoldable pub tally_gas : ℕ → List Action → ℕ
tally_gas gas [] = gas
tally_gas gas (a ∷ actions) = tally_gas (saturating u64_mod (gas + gas_or_zero a.gas_limit)) actions

unfoldable pub to_gas_total : Task → ℕ
unfolding tally_gas
to_gas_total task = tally_gas 0 task.actions

module _ (E : External) where
  unfoldable pub to_hash : Task → String
  to_hash t = E.sha256_hex (E.debug_message t.owner_id t.interval t.boundary t.actions t.rules)

  -- The bytes of `to_hash`.
  unfoldable pub to_hash_vec : Task → TaskHash
  unfolding to_hash
  to_hash_vec t = to_hash t
