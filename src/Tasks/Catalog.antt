-- ===== src/Tasks/Catalog.antt =====
-- The catalog of tasks and the slots: what agrees between them, and the changes of the maps that
-- keep the agreement.
use cw_croncat.Base.{
  ℕ, ◌≡◌, ◌≢◌, refl, true, String, Option, none, some, List, [], ◌∷◌, ◌++◌, arith, ◌==◌, eqb,
  eq_iff, eqb_iff, if◌then◌else◌, contains, retain_ne, Option-cases, inl, inr, pop,
}
use cw_croncat.Types.{Task, TaskHash}
use cw_croncat.External.{External}
use cw_croncat.State.{State}
use cw_croncat.Slots.{Slots, pushed}
use cw_croncat.Slots.Pop.{popped, popped_of, pushed_map}
use cw_croncat.Task.{to_hash_vec}
use cw_croncat.Tasks.{clear_slots, keep_slot}
use cw_croncat.Tasks.Removal.{slot_hashes, slot_hashes-cleared, slot_hashes-keep_slot}

contains-pushed :
    (xs : List String) (a b : String)
    → contains (xs ++ a ∷ []) b ≡ (if a == b then true else contains xs b)
contains-pushed [] a b = ground arith
contains-pushed (x ∷ xs) a b = ground (arith, contains-pushed xs a b)

-- What a pop gives was there, and what it leaves was there.
pub pop-contains : (xs : List String) (a : String) → (pop xs).0 ≡ some a → contains xs a ≡ true
unfolding pop
pop-contains [] a h = absurd (ground arith)
pop-contains (x ∷ xs) a h = elim (Option-cases (pop xs).0) [
  | inl e ↦ ground (arith, eq_iff x a)
  | inr (b, e) ↦ ground (arith, pop-contains xs a)
]

contains-pop : (xs : List String) (a : String) → contains (pop xs).1 a ≡ true → contains xs a ≡ true
unfolding pop
contains-pop [] a h = h
contains-pop (x ∷ xs) a h = elim (Option-cases (pop xs).0) [
  | inl e ↦ ground arith
  | inr (b, e) ↦ ground (arith, contains-pop xs a)
]

contains-retained :
    (xs : List String) (a b : String)
    → contains (retain_ne xs a) b ≡ true
    → (a ≢ b) × (contains xs b ≡ true)
contains-retained [] a b h = absurd (ground arith)
contains-retained (x ∷ xs) a b h =
    ground (arith, contains-retained xs a b, eq_iff x a, eq_iff x b, eq_iff a b)

module _ (E : External) where
  -- Each task stands under its own hash.
  abbrev pub IsKeyed : E.TextMap Task → Type 0
  IsKeyed tasks = (h : TaskHash) (t : Task) → E.may_load tasks h ≡ some t → to_hash_vec E t ≡ h

  -- Each hash in a slot is that of a task in the catalog, and no slot is stored without a hash.
  abbrev pub IsFiled : E.TextMap Task → Slots E → Type 0
  IsFiled tasks m =
      ((id : ℕ) (h : TaskHash) → contains (slot_hashes E m id) h ≡ true → E.may_load tasks h ≢ none)
      × ((id : ℕ) → E.may_load_slot m id ≢ some [])

  abbrev pub IsCataloged : State E → Type 0
  IsCataloged s = IsKeyed s.tasks × IsFiled s.tasks s.block_slots × IsFiled s.tasks s.time_slots

  pub IsKeyed-save :
      (tasks : E.TextMap Task) (h : TaskHash) (t : Task)
      → to_hash_vec E t ≡ h
      → IsKeyed tasks
      → IsKeyed (E.save tasks h t)
  IsKeyed-save tasks h t e k j u l = ground (arith, E.may_load-save tasks h j t, k j u, eq_iff h j)

  pub IsKeyed-remove :
      (tasks : E.TextMap Task) (h : TaskHash) → IsKeyed tasks → IsKeyed (E.remove tasks h)
  IsKeyed-remove tasks h k j u l = ground (arith, E.may_load-remove tasks h j, k j u)

  pub IsFiled-save :
      (tasks : E.TextMap Task) (h : TaskHash) (t : Task) (m : Slots E)
      → IsFiled tasks m
      → IsFiled (E.save tasks h t) m
  IsFiled-save tasks h t m f =
      (λ id j c e. ground (arith, E.may_load-save tasks h j t, f.0 id j), f.1)

  slot_hashes-pushed :
      (m : Slots E) (id i : ℕ) (h j : TaskHash)
      → contains (slot_hashes E (pushed_map E m id h) i) j ≡ (
          if eqb id i
          then (if h == j then true else contains (slot_hashes E m i) j)
          else contains (slot_hashes E m i) j)
  slot_hashes-pushed m id i h j = elim (Option-cases (E.may_load_slot m id)) [
    | inl n ↦ ground (arith, E.may_load_slot-save_slot m id i (h ∷ []), eqb_iff id i)
    | inr (hs, n) ↦ ground (
      arith,
      E.may_load_slot-save_slot m id i (hs ++ h ∷ []),
      contains-pushed hs h j,
      eqb_iff id i,
    )
  ]

  pushed-ne-nil : (o : Option (List TaskHash)) (h : TaskHash) → pushed E o h ≢ []
  pushed-ne-nil none h e = cc
  pushed-ne-nil (some []) h e = cc
  pushed-ne-nil (some (x ∷ xs)) h e = cc

  pub IsFiled-pushed :
      (tasks : E.TextMap Task) (m : Slots E) (id : ℕ) (h : TaskHash)
      → E.may_load tasks h ≢ none
      → IsFiled tasks m
      → IsFiled tasks (pushed_map E m id h)
  IsFiled-pushed tasks m id h known f = (
    λ i j c e. ground (arith, slot_hashes-pushed m id i h j, f.0 i j, eq_iff h j, known),
    λ i e. ground (
      arith,
      E.may_load_slot-save_slot m id i (pushed E (E.may_load_slot m id) h),
      f.1 i,
      pushed-ne-nil (E.may_load_slot m id) h,
    ),
  )

  IsFiled-keep_slot :
      (tasks : E.TextMap Task) (m : Slots E) (id : ℕ) (hs : List TaskHash)
      → ((j : TaskHash) → contains hs j ≡ true → contains (slot_hashes E m id) j ≡ true)
      → IsFiled tasks m
      → IsFiled tasks (keep_slot E id hs m)
  IsFiled-keep_slot tasks m id hs less f = (
    λ i j c e. ground (arith, slot_hashes-keep_slot E m id i hs, less j, f.0 i j, eqb_iff id i),
    full hs,
  )
    where
      full : (l : List TaskHash) (i : ℕ) → E.may_load_slot (keep_slot E id l m) i ≢ some []
      full [] i e = ground (arith, E.may_load_slot-remove_slot m id i, f.1 i)
      full (x ∷ xs) i e = ground (arith, E.may_load_slot-save_slot m id i (x ∷ xs), f.1 i)

  pub IsFiled-popped :
      (tasks : E.TextMap Task) (m : Slots E) (id : ℕ)
      → IsFiled tasks m
      → IsFiled tasks (popped E m id).1
  IsFiled-popped tasks m id f = after (E.may_load_slot m id) refl
    where
      after :
          (o : Option (List TaskHash))
          → E.may_load_slot m id ≡ o
          → IsFiled tasks (popped_of E m id o).1
      after none e = f
      after (some hs) e =
          IsFiled-keep_slot tasks m id (pop hs).1 (λ j c. rw e (contains-pop hs j c)) f

  IsFiled-clear_slots :
      (tasks : E.TextMap Task) (hash : TaskHash) (ids : List ℕ) (m : Slots E)
      → IsFiled tasks m
      → IsFiled tasks (clear_slots E hash ids m)
  unfolding clear_slots
  IsFiled-clear_slots tasks hash [] m f = f
  IsFiled-clear_slots tasks hash (id ∷ ids) m f = IsFiled-clear_slots tasks hash ids _ (
      IsFiled-keep_slot tasks m id (retain_ne (slot_hashes E m id) hash)
        (λ j c. (contains-retained (slot_hashes E m id) hash j c).1) f)

  pub IsFiled-cleared :
      (tasks : E.TextMap Task) (hash : TaskHash) (m : Slots E)
      → IsFiled tasks m
      → IsFiled (E.remove tasks hash) (clear_slots E hash (E.slot_keys m) m)
  IsFiled-cleared tasks hash m f =
      let g = IsFiled-clear_slots tasks hash (E.slot_keys m) m f in
      (
        λ i j c e. ground (
          arith,
          E.may_load-remove tasks hash j,
          g.0 i j,
          eq_iff hash j,
          contains-retained (slot_hashes E m i) hash j (rw (slot_hashes-cleared E hash m i) at c),
        ),
        g.1,
      )
