-- ===== src/Contract/Commuting.antt =====
-- Two creations (tasks.rs) in either order.
use cw_croncat.Base.{
  sym, subst, ap, ◌∙◌, ℕ, ◌≡◌, ◌≢◌, refl, List, [], ◌∷◌, ◌++◌, append-nil, eqb, if◌then◌else◌,
  Bool-cases, inl, inr, arith, eq_iff,
}
use cw_croncat.Base.Outcome.{ok}
use cw_croncat.Types.{TaskHash, TaskRequest, SlotType, block, cron, Balance}
use cw_croncat.External.{External}
use cw_croncat.State.{State, Config, Env, MessageInfo}
use cw_croncat.Response.{Response}
use cw_croncat.Interval.{next}
use cw_croncat.Task.{to_hash_vec}
use cw_croncat.Tasks.{task_of, create_task}
use cw_croncat.Tasks.Creation.{create_task-success}
use cw_croncat.Tasks.Accepted.{accepted, booked_parts, create_task-returns, create_task-accepts}
use cw_croncat.Balance.{add_tokens}
use cw_croncat.Balance.Order.{add_tokens_comm}
use cw_croncat.Tasks.Agenda.{same_kind}
use cw_croncat.Tasks.Removal.{slot_hashes, slot_hashes-pushed_map}
use cw_croncat.Slots.{Slots, store_of}
use cw_croncat.Slots.Pop.{pushed_map}
use cw_croncat.Contract.Swapped.{Alike, sooner, later, swapped-Alike}

module _ (E : External) where
  -- The hash that a creation puts in each slot: its own in the one slot, and none elsewhere.
  abbrev pub filed_at : SlotType → ℕ → TaskHash → SlotType → ℕ → List TaskHash
  filed_at k i h kind n = if same_kind k kind then (if eqb i n then h ∷ [] else []) else []

  abbrev pub held_at : State E → SlotType → ℕ → List TaskHash
  held_at s kind n = slot_hashes E (store_of E kind s) n

  held_after :
      (m m' : Slots E) (i n : ℕ) (h : TaskHash)
      → m' ≡ pushed_map E m i h
      → slot_hashes E m' n ≡ slot_hashes E m n ++ (if eqb i n then h ∷ [] else [])
  held_after m m' i n h e =
      ap (λ x. slot_hashes E x n) e ∙ slot_hashes-pushed_map E m i n h ∙ appended
    where
      appended :
          (if eqb i n then slot_hashes E m n ++ h ∷ [] else slot_hashes E m n)
          ≡ slot_hashes E m n ++ (if eqb i n then h ∷ [] else [])
      appended = elim (Bool-cases (eqb i n)) [ inl c ↦ rw c refl | inr c ↦ rw (c, append-nil) refl ]

  added_at :
      (k kind : SlotType) (i n : ℕ) (h : TaskHash) (s t : State E)
      → store_of E k t ≡ pushed_map E (store_of E k s) i h
      → ((other : SlotType) → other ≢ k → store_of E other t ≡ store_of E other s)
      → held_at t kind n ≡ held_at s kind n ++ filed_at k i h kind n
  added_at block block i n h s t e f = held_after s.block_slots t.block_slots i n h e
  added_at cron cron i n h s t e f = held_after s.time_slots t.time_slots i n h e
  added_at block cron i n h s t e f =
      ap (λ x. slot_hashes E x n) (f cron (λ x. ground arith)) ∙ sym (append-nil _)
  added_at cron block i n h s t e f =
      ap (λ x. slot_hashes E x n) (f block (λ x. ground arith)) ∙ sym (append-nil _)

  -- What a creation adds to the slots.
  create_task-adds :
      (info : MessageInfo) (env : Env) (req : TaskRequest) (i : ℕ) (k : SlotType) (s t : State E)
      (r : Response)
      → create_task E info env req s ≡ (ok r, t)
      → next E req.interval env req.boundary ≡ ok (i, k)
      → (kind : SlotType) (n : ℕ)
      → held_at t kind n
        ≡ held_at s kind n ++ filed_at k i (to_hash_vec E (task_of E info req)) kind n
  create_task-adds info env req i k s t r done slot kind n =
      let p = create_task-success E info env req s t r done in
      let hash = to_hash_vec E (task_of E info req) in
      let same : p.1 ≡ k = ground (arith, p.6, slot) in
      let same_id : p.0 ≡ i = ground (arith, p.6, slot) in
      rw (sym same, sym same_id) (added_at p.1 kind p.0 n hash s t p.11 p.12)

  -- Each slot after two creations in a row: what it held, then the first hash, then the second, where
  -- they go into it.
  abbrev pub Lengthened :
      SlotType × ℕ × TaskHash → SlotType × ℕ × TaskHash → State E → State E → Type 0
  Lengthened (k, i, g) (l, j, h) s u =
      (kind : SlotType) (n : ℕ)
      → held_at u kind n ≡ (held_at s kind n ++ filed_at k i g kind n) ++ filed_at l j h kind n

  create_task-Lengthened :
      (info info' : MessageInfo) (env : Env) (req req' : TaskRequest) (i j : ℕ) (k l : SlotType)
      (s t u : State E) (r r' : Response)
      → create_task E info env req s ≡ (ok r, t)
      → create_task E info' env req' t ≡ (ok r', u)
      → next E req.interval env req.boundary ≡ ok (i, k)
      → next E req'.interval env req'.boundary ≡ ok (j, l)
      → Lengthened
          (k, i, to_hash_vec E (task_of E info req))
          (l, j, to_hash_vec E (task_of E info' req'))
          s
          u
  create_task-Lengthened info info' env req req' i j k l s t u r r' first second slot slot' kind n =
      create_task-adds info' env req' j l t u r' second slot' kind n
      ∙ ap (λ xs. xs ++ filed_at l j (to_hash_vec E (task_of E info' req')) kind n)
          (create_task-adds info env req i k s t r first slot kind n)

  -- Once both orders succeed, the tasks agree.
  both_orders :
      (info info' : MessageInfo) (env : Env) (req req' : TaskRequest) (s t u t' u' : State E)
      (r1 r2 r3 r4 : Response)
      → create_task E info env req s ≡ (ok r1, t)
      → create_task E info' env req' t ≡ (ok r2, u)
      → create_task E info' env req' s ≡ (ok r3, t')
      → create_task E info env req t' ≡ (ok r4, u')
      → (h : TaskHash) → E.may_load u.tasks h ≡ E.may_load u'.tasks h
  both_orders info info' env req req' s t u t' u' r1 r2 r3 r4 h1 h2 h3 h4 h =
      let item = task_of E info req in
      let item' = task_of E info' req' in
      let g = to_hash_vec E item in
      let g' = to_hash_vec E item' in
      let p1 = create_task-success E info env req s t r1 h1 in
      let p2 = create_task-success E info' env req' t u r2 h2 in
      let p3 = create_task-success E info' env req' s t' r3 h3 in
      let p4 = create_task-success E info env req t' u' r4 h4 in
      ground (
        arith,
        p1.9,
        p2.9,
        p3.9,
        p4.9,
        p2.8,
        E.may_load-save s.tasks g g' item,
        eq_iff g g',
        eq_iff g h,
        eq_iff g' h,
        E.may_load-save s.tasks g h item,
        E.may_load-save t.tasks g' h item',
        E.may_load-save s.tasks g' h item',
        E.may_load-save t'.tasks g h item,
      )

  -- When two creations in one block succeed, one after the other, they succeed in the other order
  -- too, and leave the same task under each hash, the same count of tasks, the same nomination time,
  -- and the same available amount of each denomination; the rest of the config, the agents and the
  -- replies are also the same. Each creation goes into the same slot in both orders. Each slot holds
  -- what it held before, followed by the hashes that go into it, in the order of the creations: so a
  -- slot that both go into, and only that, differs, in the order of its last two hashes.
  pub create_task_comm :
      (info info' : MessageInfo) (env : Env) (req req' : TaskRequest) (s t u : State E)
      (r1 r2 : Response)
      → create_task E info env req s ≡ (ok r1, t)
      → create_task E info' env req' t ≡ (ok r2, u)
      → (t' : State E) × (u' : State E) × (r3 : Response) × (r4 : Response) × (create_task E info'
            env req' s
          ≡ (ok r3, t'))
        × (create_task E info env req t' ≡ (ok r4, u'))
        × (i : ℕ) × (k : SlotType) × (j : ℕ) × (l : SlotType) × (next E req.interval env
              req.boundary
            ≡ ok (i, k))
        × (next E req'.interval env req'.boundary ≡ ok (j, l))
        × Lengthened
            (k, i, to_hash_vec E (task_of E info req))
            (l, j, to_hash_vec E (task_of E info' req'))
            s
            u
        × Lengthened
            (l, j, to_hash_vec E (task_of E info' req'))
            (k, i, to_hash_vec E (task_of E info req))
            s
            u'
        × ((h : TaskHash) → E.may_load u.tasks h ≡ E.may_load u'.tasks h)
        × Alike E u u'
  create_task_comm info info' env req req' s t u r1 r2 h1 h2 =
      let (a, e) = create_task-accepts E info env req s t r1 h1 in
      let h2' = subst (λ v. create_task E info' env req' v ≡ (ok r2, u)) e h2 in
      let (b, f) = create_task-accepts E info' env req' (accepted E info env req s a) u r2 h2' in
      let (c, d, paid, paid', coins, tokens) =
        add_tokens_comm s.config.available_balance a.balance b.balance info.funds info'.funds
          a.booking.paid
          (ap (λ (z : Config). add_tokens z.available_balance (Balance.native info'.funds))
              (sym (booked_parts E env (task_of E info req) a.id a.kind a.balance a.agents s).0)
            ∙ b.booking.paid) in
      let x = sooner E info info' env req req' s a b c paid in
      let y = later E info info' env req req' s a b c d paid paid' in
      let h3 = create_task-returns E info' env req' s x in
      let h4 = create_task-returns E info env req (accepted E info' env req' s x) y in
      let t' = accepted E info' env req' s x in
      let u' = accepted E info env req t' y in
      let stored = both_orders info info' env req req' s t u t' u' r1 r2 _ _ h1 h2 h3 h4 in
      (
        t',
        u',
        _,
        _,
        h3,
        h4,
        a.id,
        a.kind,
        b.id,
        b.kind,
        a.slot,
        b.slot,
        create_task-Lengthened info info' env req req' a.id b.id a.kind b.kind s t u r1 r2 h1 h2
            a.slot b.slot,
        create_task-Lengthened info' info env req' req b.id a.id b.kind a.kind s t' u' _ _ h3 h4
            b.slot a.slot,
        stored,
        subst (λ v. Alike E v u') (sym f)
            (swapped-Alike E info info' env req req' s a b c d paid paid' coins tokens),
      )
