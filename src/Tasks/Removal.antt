-- ===== src/Tasks/Removal.antt =====
-- `remove_task`: what is left of a task, and who may ask.
use cw_croncat.Base.{
  ap, ℕ, ◌≡◌, ◌≢◌, refl, ◌∙◌, String, false, none, some, List, [], ◌∷◌, ◌++◌, arith, eq_iff, eqb,
  eqb_iff, if◌then◌else◌, contains, retain_ne, inl, inr, Option-cases,
}
use cw_croncat.Base.Outcome.{ok, ◌>>=◌}
use cw_croncat.Types.{
  TaskHash, Task, SlotType, block, cron, new, bank_send, Balance, GenericBalance,
}
use cw_croncat.Balance.{minus_tokens}
use cw_croncat.Base.Success.{returned}
use cw_croncat.External.{External, mem_key}
use cw_croncat.State.{State}
use cw_croncat.Response.{Response}
use cw_croncat.Slots.{Slots, store_of}
use cw_croncat.Slots.Pop.{pushed_map}
use cw_croncat.Tasks.{or_empty, keep_slot, clear_slots, remove_task}

contains-retain_ne : (xs : List String) (a : String) → contains (retain_ne xs a) a ≡ false
contains-retain_ne [] a = refl
contains-retain_ne (x ∷ xs) a = ground (arith, contains-retain_ne xs a)

contains-retain_ne_other :
    (xs : List String) (a b : String) → a ≢ b → contains (retain_ne xs a) b ≡ contains xs b
contains-retain_ne_other [] a b h = refl
contains-retain_ne_other (x ∷ xs) a b h =
    ground (arith, contains-retain_ne_other xs a b h, eq_iff x a, eq_iff x b)

retain_ne-retain_ne :
    (xs : List String) (a : String) → retain_ne (retain_ne xs a) a ≡ retain_ne xs a
retain_ne-retain_ne [] a = refl
retain_ne-retain_ne (x ∷ xs) a = ground (arith, retain_ne-retain_ne xs a)

module _ (E : External) where
  -- The hashes of a slot, none for a slot that is not stored.
  abbrev pub slot_hashes : Slots E → ℕ → List TaskHash
  slot_hashes m id = or_empty E (E.may_load_slot m id)

  -- One round of the loop changes the one slot.
  pub slot_hashes-keep_slot :
      (m : Slots E) (id i : ℕ) (hs : List TaskHash)
      → slot_hashes (keep_slot E id hs m) i ≡ (if eqb id i then hs else slot_hashes m i)
  slot_hashes-keep_slot m id i [] = ground (arith, E.may_load_slot-remove_slot m id i)
  slot_hashes-keep_slot m id i (h ∷ hs) = ground (arith, E.may_load_slot-save_slot m id i (h ∷ hs))

  -- A push adds to the one slot.
  pub slot_hashes-pushed_map :
      (m : Slots E) (id i : ℕ) (h : TaskHash)
      → slot_hashes (pushed_map E m id h) i
        ≡ (if eqb id i then slot_hashes m i ++ h ∷ [] else slot_hashes m i)
  slot_hashes-pushed_map m id i h = elim (Option-cases (E.may_load_slot m id)) [
    | inl n ↦ ground (arith, E.may_load_slot-save_slot m id i (h ∷ []), eqb_iff id i)
    | inr (hs, n) ↦ ground (arith, E.may_load_slot-save_slot m id i (hs ++ h ∷ []), eqb_iff id i)
  ]

  -- The loop retains in each slot listed and leaves the others alone.
  slot_hashes-clear_slots :
      (hash : TaskHash) (ids : List ℕ) (m : Slots E) (i : ℕ)
      → slot_hashes (clear_slots E hash ids m) i
        ≡ (if mem_key i ids then retain_ne (slot_hashes m i) hash else slot_hashes m i)
  unfolding clear_slots
  slot_hashes-clear_slots hash [] m i = refl
  slot_hashes-clear_slots hash (id ∷ ids) m i =
      let hs = retain_ne (slot_hashes m id) hash in
      ground (
        arith,
        slot_hashes-clear_slots hash ids (keep_slot E id hs m) i,
        slot_hashes-keep_slot m id i hs,
        eqb_iff id i,
        retain_ne-retain_ne (slot_hashes m i) hash,
      )

  -- Over all the keys of a map the loop retains in every slot.
  pub slot_hashes-cleared :
      (hash : TaskHash) (m : Slots E) (i : ℕ)
      → slot_hashes (clear_slots E hash (E.slot_keys m) m) i ≡ retain_ne (slot_hashes m i) hash
  slot_hashes-cleared hash m i =
      ground (arith, slot_hashes-clear_slots hash (E.slot_keys m) m i, E.mem_key-slot_keys m i)

  -- Every slot after a removal holds what it held, without the hash.
  abbrev pub SlotsWithout : TaskHash → State E → State E → Type 0
  SlotsWithout hash s t =
      (kind : SlotType) (id : ℕ)
      → slot_hashes (store_of E kind t) id ≡ retain_ne (slot_hashes (store_of E kind s) id) hash

  -- The state that a removal leaves, up to the balance.
  abbrev pub cleared : TaskHash → State E → State E
  cleared hash s = record s {
    tasks = E.remove s.tasks hash;
    time_slots = clear_slots E hash (E.slot_keys s.time_slots) s.time_slots;
    block_slots = clear_slots E hash (E.slot_keys s.block_slots) s.block_slots;
  }

  -- The deposit comes out of the available balance.
  abbrev pub IsRefunded : Task → State E → State E → Type 0
  IsRefunded task s t =
      minus_tokens s.config.available_balance (Balance.native task.total_deposit)
      ≡ ok t.config.available_balance

  pub remove_task-state :
      (hash : TaskHash) (s t : State E) (r : Response)
      → remove_task E hash s ≡ (ok r, t)
      → (task : Task) × (E.may_load s.tasks hash ≡ some task)
        × (t ≡ record (cleared hash s) { config = t.config })
        × (r.messages ≡ new (bank_send task.owner_id task.total_deposit) ∷ [])
        × IsRefunded task s t
  unfolding remove_task ◌>>=◌
  remove_task-state hash s t r h = elim (Option-cases (E.may_load s.tasks hash)) [
    | inl e ↦ absurd (ground arith)
    | inr (task, e) ↦ (task, e, ground arith, ground arith, ground arith)
  ]

  -- A removal succeeds where the available balance holds the deposit.
  pub remove_task-returns :
      (hash : TaskHash) (task : Task) (g : GenericBalance) (s : State E)
      → E.may_load s.tasks hash ≡ some task
      → minus_tokens s.config.available_balance (Balance.native task.total_deposit) ≡ ok g
      → (r : Response) × (t : State E) × (remove_task E hash s ≡ (ok r, t))
  unfolding remove_task ◌>>=◌
  remove_task-returns hash task g s found taken = returned (remove_task E hash s) (ground arith)

  pub slots_after :
      (hash : TaskHash) (s t : State E)
      → t ≡ record (cleared hash s) { config = t.config }
      → SlotsWithout hash s t
  slots_after hash s t e block id =
      ap (λ (u : State E). slot_hashes u.block_slots id) e
      ∙ slot_hashes-cleared hash s.block_slots id
  slots_after hash s t e cron id =
      ap (λ (u : State E). slot_hashes u.time_slots id) e ∙ slot_hashes-cleared hash s.time_slots id

  -- A removal that succeeds finds the task, pays its deposit to its owner in the one message, takes
  -- it out of the catalog and its hash out of every slot of both kinds; the other hashes stay where
  -- they were. The count of tasks stays as it was, too, and the deposit comes out of the
  -- available balance.
  pub remove_task-success :
      (hash : TaskHash) (s t : State E) (r : Response)
      → remove_task E hash s ≡ (ok r, t)
      → (task : Task) × (E.may_load s.tasks hash ≡ some task)
        × (r.messages ≡ new (bank_send task.owner_id task.total_deposit) ∷ [])
        × (E.may_load t.tasks hash ≡ none)
        × ((kind : SlotType) (id : ℕ) → contains (slot_hashes (store_of E kind t) id) hash ≡ false)
        × ((kind : SlotType) (id : ℕ) (other : TaskHash)
            → hash ≢ other
            → contains (slot_hashes (store_of E kind t) id) other
              ≡ contains (slot_hashes (store_of E kind s) id) other)
        × (t.task_total ≡ s.task_total)
        × IsRefunded task s t
  remove_task-success hash s t r h =
      let (task, found, e, paid, refunded) = remove_task-state hash s t r h in
      (
        task,
        found,
        paid,
        gone e,
        λ kind id. rw (slots_after hash s t e kind id) (contains-retain_ne _ hash),
        λ kind id other ne.
            rw (slots_after hash s t e kind id) (contains-retain_ne_other _ hash other ne),
        ap (λ (u : State E). u.task_total) e,
        refunded,
      )
    where
      gone : t ≡ record (cleared hash s) { config = t.config } → E.may_load t.tasks hash ≡ none
      gone e =
          ap (λ (u : State E). E.may_load u.tasks hash) e
          ∙ ground (arith, E.may_load-remove s.tasks hash hash, eq_iff hash hash)
