-- ===== src/External.antt =====
-- What the contract calls and this repository does not hold: cw_storage_plus maps, the hash and
-- text formatting behind `Task::to_hash`, the `cron_schedule` crate, and functions of cosmwasm_std.
use cw_croncat.Base.{
  ℕ, ◌<◌, String, ◌≡◌, ◌⊎◌, Bool, true, false, Option, none, some, List, [], ◌∷◌, ◌==◌, eqb,
  if◌then◌else◌,
}
use cw_croncat.Types.{Addr, Coin, Interval, Boundary, Action, Rule, Binary, Timestamp}

-- Strictly ascending.
abbrev pub Ascending : List ℕ → Type 0
Ascending [] = Unit {0}
Ascending (k ∷ []) = Unit {0}
Ascending (k ∷ j ∷ ks) = (k < j) × Ascending (j ∷ ks)

abbrev pub mem_key : ℕ → List ℕ → Bool
mem_key k [] = false
mem_key k (j ∷ js) = if eqb j k then true else mem_key k js

pub record External : Type 1 where
  -- `Map<Addr, V>` and `IndexedMap<Vec<u8>, V, _>`, keyed by texts.
  pub TextMap : Type 0 → Type 0
  pub may_load : {V : Type 0} → TextMap V → String → Option V
  pub save : {V : Type 0} → TextMap V → String → V → TextMap V
  pub remove : {V : Type 0} → TextMap V → String → TextMap V
  -- `range(storage, None, None, Order::Ascending)`
  pub range : {V : Type 0} → TextMap V → List (String × V)
  pub may_load-save :
      {V : Type 0} (m : TextMap V) (k j : String) (v : V)
      → may_load (save m k v) j ≡ (if k == j then some v else may_load m j)
  pub may_load-remove :
      {V : Type 0} (m : TextMap V) (k j : String)
      → may_load (remove m k) j ≡ (if k == j then none else may_load m j)
  -- `Map<u64, V>`.
  pub SlotMap : Type 0 → Type 0
  pub may_load_slot : {V : Type 0} → SlotMap V → ℕ → Option V
  pub save_slot : {V : Type 0} → SlotMap V → ℕ → V → SlotMap V
  pub remove_slot : {V : Type 0} → SlotMap V → ℕ → SlotMap V
  -- `keys(storage, None, None, Order::Ascending)`
  pub slot_keys : {V : Type 0} → SlotMap V → List ℕ
  pub may_load_slot-save_slot :
      {V : Type 0} (m : SlotMap V) (k j : ℕ) (v : V)
      → may_load_slot (save_slot m k v) j ≡ (if eqb k j then some v else may_load_slot m j)
  pub may_load_slot-remove_slot :
      {V : Type 0} (m : SlotMap V) (k j : ℕ)
      → may_load_slot (remove_slot m k) j ≡ (if eqb k j then none else may_load_slot m j)
  pub slot_keys-Ascending : {V : Type 0} (m : SlotMap V) → Ascending (slot_keys m)
  pub mem_key-slot_keys :
      {V : Type 0} (m : SlotMap V) (k : ℕ)
      → mem_key k (slot_keys m) ≡ elim (may_load_slot m k) [ none ↦ false | some _ ↦ true ]
  -- The maps as `instantiate` finds them, with no entry.
  pub empty_map : {V : Type 0} → TextMap V
  pub empty_slots : {V : Type 0} → SlotMap V
  pub may_load-empty_map : {V : Type 0} (k : String) → may_load {V = V} empty_map k ≡ none
  pub may_load_slot-empty_slots : {V : Type 0} (k : ℕ) → may_load_slot {V = V} empty_slots k ≡ none
  -- The `{:?}` texts of a task's owner, interval, boundary, actions and rules, joined.
  pub debug_message : Addr → Interval → Boundary → List Action → Option (List Rule) → String
  -- `hex::encode(Sha256::digest(message.as_bytes()))`
  pub sha256_hex : String → String
  -- The `cron_schedule` crate: `Schedule::from_str` and `next_after`.
  pub Schedule : Type 0
  pub from_str : String → Option Schedule
  pub next_after : Schedule → ℕ → Option ℕ
  -- cosmwasm_std: `Timestamp::seconds`, `has_coins`, `addr_validate(..).is_ok()`, and `to_binary` of
  -- a cw20 `Transfer { recipient, amount }`, with the text of its error.
  pub seconds : Timestamp → ℕ
  pub has_coins : List Coin → Coin → Bool
  pub addr_validate : String → Bool
  pub transfer_binary : String → ℕ → String ⊎ Binary
