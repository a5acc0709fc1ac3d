-- ===== src/Slots.antt =====
-- The slots of contracts/cw-croncat/src/slots.rs, and the closure `update_vec_data` of tasks.rs and
-- manager.rs that fills them.
pub mod Pop
pub mod Current
use cw_croncat.Base.{
  ℕ, Option, none, some, List, [], ◌∷◌, ◌++◌, is_empty, head?, take, pop, leb, if◌then◌else◌,
}
use cw_croncat.Base.Outcome.{M, gets, modify, pure, choose, ◌>>=◌, ◌>>◌}
use cw_croncat.Types.{TaskHash, SlotType, block, cron}
use cw_croncat.External.{External}
use cw_croncat.State.{State, Env}

-- `keys(..).take(l)`, or all the keys without a limit.
abbrev pub limited : Option ℕ → List ℕ → List ℕ
limited none ks = ks
limited (some l) ks = take l ks

-- The first key, when it is due.
unfoldable pub due : ℕ → Option ℕ → Option ℕ
due now none = none
due now (some id) = if leb id now then some id else none

module _ (E : External) where
  abbrev pub Slots : Type 0
  Slots = E.SlotMap (List TaskHash)

  -- `match kind { Block => block_slots, Cron => time_slots }`
  abbrev pub store_of : SlotType → State E → Slots
  store_of block s = s.block_slots
  store_of cron s = s.time_slots

  abbrev pub with_store : SlotType → Slots → State E → State E
  with_store block m s = record s { block_slots = m }
  with_store cron m s = record s { time_slots = m }

  unfoldable pub get_current_slot_items : Env → Option ℕ → State E → Option ℕ × Option ℕ
  unfolding due
  get_current_slot_items env limit s = (
    due env.block_height (head? (limited limit (E.slot_keys s.block_slots))),
    due env.block_time (head? (limited limit (E.slot_keys s.time_slots))),
  )

  unfoldable pub clean_slot : ℕ → SlotType → M (State E) (Unit {0})
  clean_slot slot kind = modify (λ s. with_store kind (E.remove_slot (store_of kind s) slot) s)

  -- The slot after one hash is gone: cleaned when no hash is left, saved otherwise.
  unfoldable pub store_rest : ℕ → SlotType → List TaskHash → M (State E) (Unit {0})
  unfolding clean_slot
  store_rest slot kind rest =
      if is_empty rest
      then clean_slot slot kind
      else modify (λ s. with_store kind (E.save_slot (store_of kind s) slot rest) s)

  unfoldable pub pop_slot_item : ℕ → SlotType → M (State E) (Option TaskHash)
  unfolding store_rest
  pop_slot_item slot kind = do
    found ← gets (λ s. E.may_load_slot (store_of kind s) slot)
    choose found (pure none)
        λ slot_data. do store_rest slot kind (pop slot_data).1; pure (pop slot_data).0

  -- `update_vec_data` of the hash.
  abbrev pub pushed : Option (List TaskHash) → TaskHash → List TaskHash
  pushed none hash = hash ∷ []
  pushed (some hashes) hash = hashes ++ hash ∷ []

  -- `self.block_slots.update(storage, next_id, update_vec_data)`, or of `time_slots`.
  unfoldable pub push_slot_item : ℕ → SlotType → TaskHash → M (State E) (Unit {0})
  push_slot_item next_id kind hash = modify λ s.
      let m = store_of kind s in
      with_store kind (E.save_slot m next_id (pushed (E.may_load_slot m next_id) hash)) s
