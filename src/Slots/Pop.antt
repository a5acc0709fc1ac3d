-- ===== src/Slots/Pop.antt =====
-- The slots as queues of hashes: what a pop gives back after a push.
use cw_croncat.Base.{
  ℕ, ◌≡◌, refl, ◌≢◌, false, Option, none, some, List, [], ◌∷◌, ◌++◌, arith, if◌then◌else◌, pop,
  pop-append, is_empty,
}
use cw_croncat.Base.Outcome.{ok, M, ◌>>=◌, ◌>>◌, pure, choose}
use cw_croncat.Types.{TaskHash, SlotType, block, cron}
use cw_croncat.External.{External}
use cw_croncat.State.{State}
use cw_croncat.Slots.{
  store_of, with_store, pop_slot_item, push_slot_item, store_rest, Slots, pushed,
}

is_empty-append : {A : Type 0} (xs : List A) (a : A) → is_empty (xs ++ a ∷ []) ≡ false
is_empty-append [] a = refl
is_empty-append (x ∷ xs) a = refl

module _ (E : External) where
  -- A slot map after one hash is gone, and after a pop.
  abbrev pub rest_map : Slots E → ℕ → List TaskHash → Slots E
  rest_map m id rest = if is_empty rest then E.remove_slot m id else E.save_slot m id rest

  abbrev pub popped_of : Slots E → ℕ → Option (List TaskHash) → Option TaskHash × Slots E
  popped_of m id none = (none, m)
  popped_of m id (some hs) = ((pop hs).0, rest_map m id (pop hs).1)

  abbrev pub popped : Slots E → ℕ → Option TaskHash × Slots E
  popped m id = popped_of m id (E.may_load_slot m id)

  abbrev pub pushed_map : Slots E → ℕ → TaskHash → Slots E
  pushed_map m id h = E.save_slot m id (pushed E (E.may_load_slot m id) h)

  with_store_self : (kind : SlotType) (s : State E) → with_store E kind (store_of E kind s) s ≡ s
  with_store_self block s = refl
  with_store_self cron s = refl

  store_rest-rest_map :
      (kind : SlotType) (id : ℕ) (rest : List TaskHash) (s : State E)
      → store_rest E id kind rest s
        ≡ (ok tt, with_store E kind (rest_map (store_of E kind s) id rest) s)
  unfolding store_rest ◌>>=◌
  store_rest-rest_map kind id [] s = refl
  store_rest-rest_map kind id (x ∷ xs) s = refl

  abbrev pop_data : SlotType → ℕ → List TaskHash → M (State E) (Option TaskHash)
  pop_data kind id hs = do store_rest E id kind (pop hs).1; pure (pop hs).0

  pop_data-popped_of :
      (kind : SlotType) (id : ℕ) (o : Option (List TaskHash)) (s : State E)
      → choose o (pure none) (pop_data kind id) s ≡ (
        ok (popped_of (store_of E kind s) id o).0,
        with_store E kind (popped_of (store_of E kind s) id o).1 s,
      )
  unfolding ◌>>=◌
  pop_data-popped_of kind id none s = rw with_store_self
  pop_data-popped_of kind id (some hs) s = rw store_rest-rest_map

  -- The handlers change the map of their kind, and nothing else.
  pub pop_slot_item-popped :
      (kind : SlotType) (id : ℕ) (s : State E)
      → pop_slot_item E id kind s ≡ (
        ok (popped (store_of E kind s) id).0,
        with_store E kind (popped (store_of E kind s) id).1 s,
      )
  unfolding pop_slot_item ◌>>=◌
  pop_slot_item-popped kind id s =
      pop_data-popped_of kind id (E.may_load_slot (store_of E kind s) id) s

  pub push_slot_item-pushed :
      (kind : SlotType) (id : ℕ) (h : TaskHash) (s : State E)
      → push_slot_item E id kind h s
        ≡ (ok tt, with_store E kind (pushed_map (store_of E kind s) id h) s)
  unfolding push_slot_item ◌>>=◌
  push_slot_item-pushed kind id h s = refl

  abbrev pub held : Option (List TaskHash) → List TaskHash
  held none = []
  held (some hs) = hs

  pop-pushed : (o : Option (List TaskHash)) (h : TaskHash) → pop (pushed E o h) ≡ (some h, held o)
  pop-pushed none h = pop-append [] h
  pop-pushed (some hs) h = pop-append hs h

  popped-pushed_map :
      (m : Slots E) (id : ℕ) (h : TaskHash)
      → popped (pushed_map m id h) id
        ≡ (some h, rest_map (pushed_map m id h) id (held (E.may_load_slot m id)))
  popped-pushed_map m id h = rw (lookup, pop-pushed (E.may_load_slot m id) h)
    where
      lookup : E.may_load_slot (pushed_map m id h) id ≡ some (pushed E (E.may_load_slot m id) h)
      lookup = ground (arith, E.may_load_slot-save_slot m id id (pushed E (E.may_load_slot m id) h))

  -- Saving what was there before a write brings every entry back.
  restored :
      (m : Slots E) (id i : ℕ) (hs : List TaskHash) (o : Option (List TaskHash))
      → E.may_load_slot m id ≡ o
      → o ≢ some []
      → E.may_load_slot (rest_map (E.save_slot m id hs) id (held o)) i ≡ E.may_load_slot m i
  restored m id i hs none e full = ground (
    arith,
    E.may_load_slot-remove_slot (E.save_slot m id hs) id i,
    E.may_load_slot-save_slot m id i hs,
  )
  restored m id i hs (some []) e full = absurd (full refl)
  restored m id i hs (some (x ∷ xs)) e full = ground (
    arith,
    E.may_load_slot-save_slot (E.save_slot m id hs) id i (x ∷ xs),
    E.may_load_slot-save_slot m id i hs,
  )

  -- After a push of a hash to a slot, a pop of that slot gives the hash back, and then every slot of
  -- both kinds holds what it held, unless the slot was stored without a hash.
  pub pop-push :
      (kind : SlotType) (id : ℕ) (h : TaskHash) (s : State E)
      → E.may_load_slot (store_of E kind s) id ≢ some []
      → let (r, t) = pop_slot_item E id kind (push_slot_item E id kind h s).1 in
        (r ≡ ok (some h))
        × ((j : SlotType) (i : ℕ)
            → E.may_load_slot (store_of E j t) i ≡ E.may_load_slot (store_of E j s) i)
  pop-push block id h s full =
      rw (push_slot_item-pushed, pop_slot_item-popped, popped-pushed_map) (refl, back)
    where
      back :
          (j : SlotType) (i : ℕ)
          → E.may_load_slot
              (store_of E j (
                with_store E block
                  (rest_map
                    (pushed_map s.block_slots id h)
                    id
                    (held (E.may_load_slot s.block_slots id)))
                  s))
              i
            ≡ E.may_load_slot (store_of E j s) i
      back block i = restored s.block_slots id i _ _ refl full
      back cron i = refl
  pop-push cron id h s full =
      rw (push_slot_item-pushed, pop_slot_item-popped, popped-pushed_map) (refl, back)
    where
      back :
          (j : SlotType) (i : ℕ)
          → E.may_load_slot
              (store_of E j (
                with_store E cron
                  (rest_map
                    (pushed_map s.time_slots id h)
                    id
                    (held (E.may_load_slot s.time_slots id)))
                  s))
              i
            ≡ E.may_load_slot (store_of E j s) i
      back block i = refl
      back cron i = restored s.time_slots id i _ _ refl full
