-- ===== src/Slots/Current.antt =====
-- `get_current_slot_items` (slots.rs): which slot of each kind is current.
use cw_croncat.Base.{
  ℕ, suc, ◌≤◌, ◌<◌, ◌≡◌, ◌≢◌, zero, ap, refl, true, Option, none, some, List, [], ◌∷◌, arith, leb,
  inl, inr, Bool-cases, head?,
}
use cw_croncat.Types.{TaskHash}
use cw_croncat.External.{External, Ascending, mem_key}
use cw_croncat.State.{State, Env}
use cw_croncat.Slots.{Slots, get_current_slot_items, due, limited}

-- The first key of an ascending list is below all its keys.
head-le : (k j : ℕ) (ks : List ℕ) → Ascending (k ∷ ks) → mem_key j (k ∷ ks) ≡ true → k ≤ j
head-le k j [] a m = ground arith
head-le k j (i ∷ ks) a m = ground (arith, head-le i j ks a.1)

head?-limited : (l : ℕ) (ks : List ℕ) → head? (limited (some (suc l)) ks) ≡ head? ks
head?-limited l [] = refl
head?-limited l (k ∷ ks) = refl

-- The current slot of one kind: the least key, if it has come.
abbrev pub IsCurrent : (E : External) → Slots E → ℕ → Option ℕ → Type 0
IsCurrent E m now none = (id : ℕ) (hs : List TaskHash) → E.may_load_slot m id ≡ some hs → now < id
IsCurrent E m now (some k) =
    (k ≤ now)
    × (E.may_load_slot m k ≢ none)
    × ((id : ℕ) (hs : List TaskHash) → E.may_load_slot m id ≡ some hs → k ≤ id)

module _ (E : External) where
  stored-mem_key :
      (m : Slots E) (id : ℕ) (hs : List TaskHash)
      → E.may_load_slot m id ≡ some hs
      → mem_key id (E.slot_keys m) ≡ true
  stored-mem_key m id hs e = ground (arith, E.mem_key-slot_keys m id)

  mem_key-stored :
      (m : Slots E) (id : ℕ) → mem_key id (E.slot_keys m) ≡ true → E.may_load_slot m id ≢ none
  mem_key-stored m id k e = ground (arith, E.mem_key-slot_keys m id)

  due-IsCurrent :
      (m : Slots E) (now : ℕ) (ks : List ℕ)
      → E.slot_keys m ≡ ks
      → IsCurrent E m now (due now (head? ks))
  unfolding due
  due-IsCurrent m now [] e = λ id hs h. ground (arith, stored-mem_key m id hs h, ap (mem_key id) e)
  due-IsCurrent m now (k ∷ ks) e = elim (Bool-cases (leb k now)) [
    | inl d ↦
        rw d (ground arith, mem_key-stored m k (rw e (ground arith)), λ id hs h. least id hs h)
    | inr d ↦ rw d (λ id hs h. ground (arith, least id hs h))
  ]
    where
      least : (id : ℕ) (hs : List TaskHash) → E.may_load_slot m id ≡ some hs → k ≤ id
      least id hs h =
          head-le k id ks (rw e at (E.slot_keys-Ascending m)) (rw e at (stored-mem_key m id hs h))

  -- Whatever the limit, if it is not 0: of each kind the call gives the earliest slot that is
  -- stored, if that slot is due, and otherwise nothing, and then no stored slot of the kind is due.
  pub get_current_slot_items-IsCurrent :
      (env : Env) (limit : Option ℕ) (s : State E)
      → limit ≢ some 0
      → let (blocks, times) = get_current_slot_items E env limit s in
        IsCurrent E s.block_slots env.block_height blocks
        × IsCurrent E s.time_slots env.block_time times
  unfolding get_current_slot_items
  get_current_slot_items-IsCurrent env none s h = (
    due-IsCurrent s.block_slots env.block_height _ refl,
    due-IsCurrent s.time_slots env.block_time _ refl,
  )
  get_current_slot_items-IsCurrent env (some zero) s h = absurd (h refl)
  get_current_slot_items-IsCurrent env (some (suc l)) s h = rw (head?-limited) (
    due-IsCurrent s.block_slots env.block_height _ refl,
    rw head?-limited (due-IsCurrent s.time_slots env.block_time _ refl),
  )
