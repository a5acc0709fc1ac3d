-- ===== src/Tasks/RoundTrip.antt =====
-- `create_task` and `remove_task` (tasks.rs): a creation, and the removal of what it stored.
use cw_croncat.Base.{
  ◌⊎◌, ◌∙◌, ℕ, ◌+◌, ◌≡◌, ◌≢◌, refl, false, String, none, some, List, [], ◌∷◌, ◌++◌, arith, eq_iff,
  contains, retain_ne, Bool-cases, inl, inr,
}
use cw_croncat.Base.Outcome.{ok}
use cw_croncat.Types.{Task, TaskRequest, TaskHash, SlotType, block, cron, new, bank_send}
use cw_croncat.External.{External}
use cw_croncat.State.{State, Env, MessageInfo}
use cw_croncat.Response.{Response}
use cw_croncat.Slots.{Slots, store_of}
use cw_croncat.Slots.Pop.{pushed_map}
use cw_croncat.Task.{to_hash_vec}
use cw_croncat.Tasks.{task_of, create_task, remove_task}
use cw_croncat.Tasks.Removal.{
  slot_hashes, slot_hashes-pushed_map, remove_task-state, remove_task-returns, slots_after,
}
use cw_croncat.Balance.Amounts.{amount_of}
use cw_croncat.Balance.Enough.{minus_tokens-add_tokens}
use cw_croncat.Tasks.Creation.{create_task-success}
use cw_croncat.Tasks.Catalog.{IsCataloged, IsFiled}

retain_absent : (xs : List String) (a : String) → contains xs a ≡ false → retain_ne xs a ≡ xs
retain_absent [] a h = refl
retain_absent (x ∷ xs) a h = ground (arith, retain_absent xs a)

retain_ne-append :
    (xs : List String) (a : String) → contains xs a ≡ false → retain_ne (xs ++ a ∷ []) a ≡ xs
retain_ne-append [] a h = ground (arith, eq_iff a a)
retain_ne-append (x ∷ xs) a h = ground (arith, retain_ne-append xs a)

module _ (E : External) where
  -- A hash without a task stands in no slot.
  unfiled :
      (tasks : E.TextMap Task) (m : Slots E) (h : TaskHash) (i : ℕ)
      → IsFiled E tasks m
      → E.may_load tasks h ≡ none
      → contains (slot_hashes E m i) h ≡ false
  unfiled tasks m h i f fresh = elim (Bool-cases (contains (slot_hashes E m i) h)) [
    | inl c ↦ absurd (f.0 i h c fresh)
    | inr c ↦ c
  ]

  retain_ne-pushed_map :
      (m : Slots E) (id i : ℕ) (h : TaskHash)
      → contains (slot_hashes E m i) h ≡ false
      → retain_ne (slot_hashes E (pushed_map E m id h) i) h ≡ slot_hashes E m i
  retain_ne-pushed_map m id i h c = ground (
    arith,
    slot_hashes-pushed_map E m id i h,
    retain_ne-append (slot_hashes E m i) h c,
    retain_absent (slot_hashes E m i) h c,
  )

  filed : (s : State E) (k : SlotType) → IsCataloged E s → IsFiled E s.tasks (store_of E k s)
  filed s block c = c.1
  filed s cron c = c.2

  same_kind : (j k : SlotType) → (j ≡ k) ⊎ (j ≢ k)
  same_kind block block = inl refl
  same_kind cron cron = inl refl
  same_kind block cron = inr (λ e. ground arith)
  same_kind cron block = inr (λ e. ground arith)

  -- Where catalog and slots agree, the task that a creation has stored can be removed at once: the
  -- removal succeeds, gives back what the sender attached, in one message to the sender, and leaves
  -- every task, the hashes of every slot of both kinds and the available amount of every
  -- denomination as they were before the creation; the count of tasks has grown by one.
  pub create-remove :
      (info : MessageInfo) (env : Env) (req : TaskRequest) (s t : State E) (r : Response)
      → IsCataloged E s
      → create_task E info env req s ≡ (ok r, t)
      → (r' : Response) × (u : State E) × (remove_task E (to_hash_vec E (task_of E info req)) t
          ≡ (ok r', u))
        × (r'.messages ≡ new (bank_send info.sender info.funds) ∷ [])
        × ((h : TaskHash) → E.may_load u.tasks h ≡ E.may_load s.tasks h)
        × ((kind : SlotType) (i : ℕ)
            → slot_hashes E (store_of E kind u) i ≡ slot_hashes E (store_of E kind s) i)
        × ((d : String)
            → amount_of d u.config.available_balance.native_coins
              ≡ amount_of d s.config.available_balance.native_coins)
        × (u.task_total ≡ s.task_total + 1)
  create-remove info env req s t r c created =
      let item = task_of E info req in
      let hash = to_hash_vec E item in
      let (id, kind, _, _, _, _, _, _, fresh, stored, counted, filed_at, others, paid_in) =
        create_task-success E info env req s t r created in
      let loaded : E.may_load t.tasks hash ≡ some item =
        ground (arith, stored, E.may_load-save s.tasks hash hash item, eq_iff hash hash) in
      let (g, enough, amounts) =
        minus_tokens-add_tokens s.config.available_balance t.config.available_balance info.funds
          paid_in in
      let (r', u, removed) = remove_task-returns E hash item g t loaded enough in
      let (task, found, e, paid, refunded) = remove_task-state E hash t u r' removed in
      let same : item ≡ task = ground (arith, loaded, found) in
      let before =
        λ (k : SlotType) (i : ℕ). unfiled s.tasks (store_of E k s) hash i (filed s k c) fresh in
      (
        r',
        u,
        removed,
        ground arith,
        λ h. ground (
          arith,
          fresh,
          eq_iff hash h,
          E.may_load-remove t.tasks hash h,
          E.may_load-save s.tasks hash h item,
        ),
        λ k i. slots_after E hash t u e k i ∙ elim (same_kind k kind) [
          | inl equal ↦
              ground (arith, retain_ne-pushed_map (store_of E kind s) id i hash (before kind i))
          | inr apart ↦ rw (others k apart) (retain_absent _ hash (before k i))
        ],
        λ d. ground (arith, amounts d),
        ground arith,
      )
