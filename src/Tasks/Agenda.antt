-- ===== src/Tasks/Agenda.antt =====
-- What the slots promise: for each kind and number, a bag of hashes. The abstract view of slots.rs, and
-- of the parts of tasks.rs that write slots.
use mathlib.Core.Path.{fun_ext}
use cw_croncat.Base.{
  ap, ℕ, ◌≡◌, refl, Bool, true, false, none, some, List, [], ◌∷◌, ◌++◌, arith, eqb, eqb_iff,
  if◌then◌else◌, Option-cases, Bool-cases, inl, inr, pop,
}
use cw_croncat.Base.Bag.{Bag, bag, put, without}
use cw_croncat.Types.{TaskHash, SlotType, block, cron}
use cw_croncat.External.{External}
use cw_croncat.State.{State}
use cw_croncat.Slots.{Slots, store_of, with_store}
use cw_croncat.Slots.Pop.{popped, pushed_map}
use cw_croncat.Tasks.{clear_slots}
use cw_croncat.Tasks.Removal.{
  slot_hashes, slot_hashes-pushed_map, slot_hashes-keep_slot, slot_hashes-cleared,
}

abbrev pub Agenda : Type 0
Agenda = SlotType → ℕ → Bag

abbrev pub same_kind : SlotType → SlotType → Bool
same_kind block block = true
same_kind cron cron = true
same_kind block cron = false
same_kind cron block = false

-- A hash is filed for a slot.
unfoldable pub file : SlotType → ℕ → TaskHash → Agenda → Agenda
file kind id h a =
    λ k i. if same_kind kind k then (if eqb id i then put h (a k i) else a k i) else a k i

-- A hash is struck out everywhere.
unfoldable pub strike : TaskHash → Agenda → Agenda
strike h a = λ k i. without h (a k i)

pub agenda_eq : (a b : Agenda) → ((k : SlotType) (i : ℕ) → a k i ≡ b k i) → a ≡ b
agenda_eq a b e = fun_ext (λ k. fun_ext (λ i. e k i))

pop-none : (xs : List TaskHash) → (pop xs).0 ≡ none → xs ≡ []
unfolding pop
pop-none [] e = refl
pop-none (x ∷ xs) e = absurd (ground arith)

pop-append_some :
    (xs : List TaskHash) (h : TaskHash) → (pop xs).0 ≡ some h → (pop xs).1 ++ h ∷ [] ≡ xs
unfolding pop
pop-append_some [] h e = absurd (ground arith)
pop-append_some (x ∷ xs) h e = elim (Option-cases (pop xs).0) [
  | inl n ↦ ground (arith, pop-none xs)
  | inr (y, n) ↦ ground (arith, pop-append_some xs h)
]

module _ (E : External) where
  abbrev pub agenda : State E → Agenda
  agenda s = λ k i. bag (slot_hashes E (store_of E k s) i)

  bag-pushed_map :
      (m : Slots E) (id i : ℕ) (h : TaskHash)
      → bag (slot_hashes E (pushed_map E m id h) i)
        ≡ (if eqb id i then put h (bag (slot_hashes E m i)) else bag (slot_hashes E m i))
  unfolding put
  bag-pushed_map m id i h = elim (Bool-cases (eqb id i)) [
    | inl e ↦ rw e (ap bag (rw e at (slot_hashes-pushed_map E m id i h)))
    | inr e ↦ rw e (ap bag (rw e at (slot_hashes-pushed_map E m id i h)))
  ]

  -- A push files the hash.
  pub agenda-pushed :
      (kind : SlotType) (id : ℕ) (h : TaskHash) (s : State E)
      → agenda (with_store E kind (pushed_map E (store_of E kind s) id h) s)
        ≡ file kind id h (agenda s)
  unfolding file
  agenda-pushed kind id h s = agenda_eq _ _ (at kind)
    where
      at :
          (k j : SlotType) (i : ℕ)
          → agenda (with_store E k (pushed_map E (store_of E k s) id h) s) j i ≡ (
              if same_kind k j
              then (if eqb id i then put h (agenda s j i) else agenda s j i)
              else agenda s j i)
      at block block i = bag-pushed_map s.block_slots id i h
      at cron cron i = bag-pushed_map s.time_slots id i h
      at block cron i = refl
      at cron block i = refl

  slot_hashes-popped :
      (m : Slots E) (id i : ℕ) (h : TaskHash)
      → (popped E m id).0 ≡ some h
      → slot_hashes E m i ≡ (
          if eqb id i
          then slot_hashes E (popped E m id).1 i ++ h ∷ []
          else slot_hashes E (popped E m id).1 i)
  slot_hashes-popped m id i h last = elim (Option-cases (E.may_load_slot m id)) [
    | inl n ↦ absurd (ground arith)
    | inr (hs, n) ↦
        let kept = slot_hashes-keep_slot E m id i (pop hs).1 in
        let whole = pop-append_some hs h (rw n at last) in
        rw n (ground (arith, kept, whole, eqb_iff id i))
  ]

  bag-popped :
      (m : Slots E) (id i : ℕ) (h : TaskHash)
      → (popped E m id).0 ≡ some h
      → bag (slot_hashes E m i) ≡ (
          if eqb id i
          then put h (bag (slot_hashes E (popped E m id).1 i))
          else bag (slot_hashes E (popped E m id).1 i))
  unfolding put
  bag-popped m id i h last = elim (Bool-cases (eqb id i)) [
    | inl e ↦ rw e (ap bag (rw e at (slot_hashes-popped m id i h last)))
    | inr e ↦ rw e (ap bag (rw e at (slot_hashes-popped m id i h last)))
  ]

  -- A pop is a filing undone.
  pub agenda-popped :
      (kind : SlotType) (id : ℕ) (h : TaskHash) (s : State E)
      → (popped E (store_of E kind s) id).0 ≡ some h
      → agenda s ≡ file kind id h (agenda (with_store E kind (popped E (store_of E kind s) id).1 s))
  unfolding file
  agenda-popped kind id h s last = agenda_eq _ _ (at kind last)
    where
      at :
          (k : SlotType)
          → (popped E (store_of E k s) id).0 ≡ some h
          → (j : SlotType) (i : ℕ)
          → agenda s j i ≡ (
              if same_kind k j
              then (if eqb id i
                  then put h (agenda (with_store E k (popped E (store_of E k s) id).1 s) j i)
                  else agenda (with_store E k (popped E (store_of E k s) id).1 s) j i)
              else agenda (with_store E k (popped E (store_of E k s) id).1 s) j i)
      at block l block i = bag-popped s.block_slots id i h l
      at cron l cron i = bag-popped s.time_slots id i h l
      at block l cron i = refl
      at cron l block i = refl

  -- The loops of a removal strike the hash out.
  pub agenda-cleared :
      (h : TaskHash) (s t : State E)
      → t.block_slots ≡ clear_slots E h (E.slot_keys s.block_slots) s.block_slots
      → t.time_slots ≡ clear_slots E h (E.slot_keys s.time_slots) s.time_slots
      → agenda t ≡ strike h (agenda s)
  unfolding strike without
  agenda-cleared h s t b c = agenda_eq _ _ at
    where
      at : (j : SlotType) (i : ℕ) → agenda t j i ≡ without h (agenda s j i)
      at block i = rw b (ap bag (slot_hashes-cleared E h s.block_slots i))
      at cron i = rw c (ap bag (slot_hashes-cleared E h s.time_slots i))

  -- The agenda is read off the two maps of slots.
  pub agenda_same :
      (s t : State E)
      → t.block_slots ≡ s.block_slots
      → t.time_slots ≡ s.time_slots
      → agenda t ≡ agenda s
  agenda_same s t b c = agenda_eq _ _ at
    where
      at : (j : SlotType) (i : ℕ) → agenda t j i ≡ agenda s j i
      at block i = ap (λ (m : Slots E). bag (slot_hashes E m i)) b
      at cron i = ap (λ (m : Slots E). bag (slot_hashes E m i)) c
